-- ===== src/Lob/Create/Sums.antt =====
-- The sums of net lots over positions and sessions, and what a booked trade does to them.
use swirly.Base.{
  ℕ, ◌≡◌, refl, sym, ap, ◌∙◌, inl, inr, true, none, some, List, [], ◌∷◌, ◌==◌, arith, Bool-cases,
  Option-cases,
}
use swirly.Base.Int.{ℤ, pos, ◌+ℤ◌, int_laws, +ℤ_assoc}
use swirly.Fin.Market.{Market}
use swirly.Fin.Exec.{Exec}
use swirly.Fin.Exec
use swirly.Fin.Posn.{Posn, net_lots, add_trade}
use swirly.Fin.Posn
use swirly.Fin.Posn.Net.{signed, add_trade-net_lots}
use swirly.Lob.Sess.{Sess, find_posn, write_posn, insert_trade, push_exec_front, is_some}
use swirly.Lob.Sess
use swirly.Lob.Engine.{find_sess, with_sess}
use swirly.Lob.Create.{book_trade}

-- The net lots of the positions of a session, and of all sessions.
abbrev pub sum_posns : List Posn → ℤ
sum_posns [] = pos 0
sum_posns (p ∷ ps) = net_lots p +ℤ sum_posns ps

abbrev pub sum_sesss : List Sess → ℤ
sum_sesss [] = pos 0
sum_sesss (s ∷ ss) = sum_posns s.posns +ℤ sum_sesss ss

-- What a trade moves.
abbrev pub moved : Exec → ℤ
moved t = signed t.side t.last_lots

pub shift : (a b c : ℤ) → a +ℤ c +ℤ b ≡ a +ℤ b +ℤ c
shift a b c = omega int_laws

pub write_posn-sum :
    (id : ℕ) (t : Exec) (ps : List Posn) (p : Posn)
    → find_posn id ps ≡ some p
    → sum_posns (write_posn id (add_trade t.side t.last_lots t.last_ticks) ps)
      ≡ sum_posns ps +ℤ moved t
unfolding find_posn write_posn
write_posn-sum id t [] p e = absurd (cc)
write_posn-sum id t (q ∷ ps) p e = elim (Bool-cases (q.market_id == id)) [
  | inl hit ↦
      rw (hit, add_trade-net_lots t.side t.last_lots t.last_ticks q)
        (shift (net_lots q) (sum_posns ps) (moved t))
  | inr miss ↦
      rw (miss, write_posn-sum id t ps p (ground (arith, e)))
        (sym (+ℤ_assoc (net_lots q) (sum_posns ps) (moved t)))
]

posn_made :
    (m : Market) (s : Sess)
    → find_posn m.id s.posns ≡ none
    → (Sess.posn m.id m.instr m.settl_day s).1.posns
      ≡ Posn.make s.accnt m.id m.instr m.settl_day ∷ s.posns
unfolding Sess.posn
posn_made m s e = ground (arith, e)

flat_new :
    (accnt id instr settl_day : ℕ) (a : ℤ) → net_lots (Posn.make accnt id instr settl_day) +ℤ a ≡ a
unfolding net_lots Posn.make
flat_new accnt id instr settl_day a = omega int_laws

-- `posn` finds or makes a position of the market, and a new one holds nothing.
pub posn-there :
    (m : Market) (s : Sess)
    → (p : Posn) × (find_posn m.id (Sess.posn m.id m.instr m.settl_day s).1.posns ≡ some p)
      × (sum_posns (Sess.posn m.id m.instr m.settl_day s).1.posns ≡ sum_posns s.posns)
unfolding Sess.posn Posn.make find_posn net_lots
posn-there m s = elim (Option-cases (find_posn m.id s.posns)) [
  | inr (p, e) ↦ (p, ground (arith, e), ground (arith, e))
  | inl e ↦ (
    Posn.make s.accnt m.id m.instr m.settl_day,
    ground (arith, e),
    ap sum_posns (posn_made m s e) ∙ flat_new s.accnt m.id m.instr m.settl_day (sum_posns s.posns),
  )
]

pub insert_trade-posns : (t : Exec) (s : Sess) → (insert_trade t s).posns ≡ s.posns
unfolding insert_trade
insert_trade-posns t s = ground arith

pub push_exec_front-posns : (t : Exec) (s : Sess) → (push_exec_front t s).posns ≡ s.posns
unfolding push_exec_front
push_exec_front-posns t s = refl

-- A booked trade moves its lots to the session's positions.
pub book_trade-sum :
    (m : Market) (t : Exec) (s : Sess)
    → sum_posns (book_trade m t s).posns ≡ sum_posns s.posns +ℤ moved t
unfolding book_trade Exec.posn
book_trade-sum m t s =
    let (p, there, same) = posn-there m s in
    let q = Sess.posn m.id m.instr m.settl_day s in
    let t' = Exec.posn (net_lots q.0) q.0.net_cost t in
    let s' = record (q.1) {
      posns = write_posn m.id (add_trade t.side t.last_lots t.last_ticks) q.1.posns;
    } in
    ap sum_posns (insert_trade-posns t' (push_exec_front t' s') ∙ push_exec_front-posns t' s')
    ∙ write_posn-sum m.id t q.1.posns p there
    ∙ ap (λ a. a +ℤ moved t) same

-- The account has a session.
abbrev pub HasSess : ℕ → List Sess → Type 0
HasSess accnt ss = is_some (find_sess accnt ss) ≡ true

pub with_sess-sum :
    (accnt : ℕ) (f : Sess → Sess) (d : ℤ) (ss : List Sess)
    → ((s : Sess) → sum_posns (f s).posns ≡ sum_posns s.posns +ℤ d)
    → HasSess accnt ss
    → sum_sesss (with_sess accnt f ss) ≡ sum_sesss ss +ℤ d
unfolding with_sess find_sess
with_sess-sum accnt f d [] h e = absurd (cc)
with_sess-sum accnt f d (s ∷ ss) h e = elim (Bool-cases (s.accnt == accnt)) [
  | inl hit ↦ rw (hit, h s) (shift (sum_posns s.posns) (sum_sesss ss) d)
  | inr miss ↦
      rw (miss, with_sess-sum accnt f d ss h (ground (arith, e)))
        (sym (+ℤ_assoc (sum_posns s.posns) (sum_sesss ss) d))
]

pub with_sess-HasSess :
    (accnt other : ℕ) (f : Sess → Sess) (ss : List Sess)
    → ((s : Sess) → (f s).accnt ≡ s.accnt)
    → HasSess other ss
    → HasSess other (with_sess accnt f ss)
unfolding with_sess find_sess
with_sess-HasSess accnt other f [] k h = h
with_sess-HasSess accnt other f (s ∷ ss) k h =
    ground (arith, k s, with_sess-HasSess accnt other f ss k)
