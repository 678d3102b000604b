-- ===== src/Lob/Trade/Booked.antt =====
-- What a committed trade does to the sessions.
use swirly.Base.{ℕ, ◌≡◌, sym, ap, ◌∙◌, ◌⊎◌, inl, inr, some, List, [], ◌∷◌, ◌==◌, arith, Bool-cases}
use mathlib.Core.Path.{subst}
use swirly.Base.Int.{ℤ, ◌+ℤ◌, +ℤ_assoc}
use swirly.Fin.Types.{is_buy}
use swirly.Fin.Market.{Market}
use swirly.Fin.Exec.{Exec}
use swirly.Fin.Posn.{Posn, add_trade, add_buy, add_sell}
use swirly.Lob.Sess.{Sess, find_posn, write_posn, push_exec_front}
use swirly.Lob.Engine.{find_sess, with_sess}
use swirly.Lob.Create.Sums.{
  sum_posns, sum_sesss, moved, shift, write_posn-sum, insert_trade-posns, push_exec_front-posns,
}
use swirly.Lob.Create.Balance.{insert_trade-accnt, push_exec_front-accnt}
use swirly.Lob.Trade.{commit_trade}

-- The account has a session, and that a position in the market.
abbrev pub Opened : Market → ℕ → List Sess → Type 0
Opened m accnt ss =
    (s : Sess) × (p : Posn) × (find_sess accnt ss ≡ some s) × (find_posn m.id s.posns ≡ some p)

find_sess-accnt :
    (accnt : ℕ) (ss : List Sess) (s : Sess) → find_sess accnt ss ≡ some s → s.accnt ≡ accnt
unfolding find_sess
find_sess-accnt accnt [] s e = absurd (cc)
find_sess-accnt accnt (x ∷ ss) s e = elim (Bool-cases (x.accnt == accnt)) [
  | inl hit ↦ ground (arith, e)
  | inr miss ↦ find_sess-accnt accnt ss s (ground (arith, e))
]

pub with_sess-sum_at :
    (accnt : ℕ) (f : Sess → Sess) (d : ℤ) (ss : List Sess) (s : Sess)
    → find_sess accnt ss ≡ some s
    → sum_posns (f s).posns ≡ sum_posns s.posns +ℤ d
    → sum_sesss (with_sess accnt f ss) ≡ sum_sesss ss +ℤ d
unfolding with_sess find_sess
with_sess-sum_at accnt f d [] s e h = absurd (cc)
with_sess-sum_at accnt f d (x ∷ ss) s e h = elim (Bool-cases (x.accnt == accnt)) [
  | inl hit ↦
      let own : x ≡ s = ground (arith, e) in
      let h' : sum_posns (f x).posns ≡ sum_posns x.posns +ℤ d =
        subst (λ y. sum_posns (f y).posns ≡ sum_posns y.posns +ℤ d) (sym own) h in
      rw (hit, h') (shift (sum_posns x.posns) (sum_sesss ss) d)
  | inr miss ↦
      rw (miss, with_sess-sum_at accnt f d ss s (ground (arith, e)) h)
        (sym (+ℤ_assoc (sum_posns x.posns) (sum_sesss ss) d))
]

-- After a change of a session the others are found as they were, and it in its new state.
abbrev Found : ℕ → (Sess → Sess) → Sess → List Sess → Type 0
Found other f s ss = (find_sess other ss ≡ some s) ⊎ (find_sess other ss ≡ some (f s))

find-with_sess :
    (accnt other : ℕ) (f : Sess → Sess) (ss : List Sess) (s : Sess)
    → ((x : Sess) → (f x).accnt ≡ x.accnt)
    → find_sess other ss ≡ some s
    → Found other f s (with_sess accnt f ss)
unfolding with_sess find_sess
find-with_sess accnt other f [] s h e = absurd (cc)
find-with_sess accnt other f (x ∷ ss) s h e = elim (Bool-cases (x.accnt == accnt)) [
  | inl hit ↦ elim (Bool-cases (x.accnt == other)) [
    | inl own ↦ rw hit (inr (ground (arith, e, h x)))
    | inr off ↦ rw hit (inl (ground (arith, e, h x)))
  ]
  | inr miss ↦ elim (Bool-cases (x.accnt == other)) [
    | inl own ↦ rw miss (inl (ground (arith, e)))
    | inr off ↦ rw (miss, off) (find-with_sess accnt other f ss s h (ground (arith, e)))
  ]
]

-- A change that keeps accounts and positions keeps sessions open.
abbrev pub Keeps : Market → (Sess → Sess) → Type 0
Keeps m f =
    ((s : Sess) → (f s).accnt ≡ s.accnt)
    × ((s : Sess) (p : Posn)
        → find_posn m.id s.posns ≡ some p
        → (q : Posn) × (find_posn m.id (f s).posns ≡ some q))

pub stays_open :
    (m : Market) (accnt other : ℕ) (f : Sess → Sess) (ss : List Sess)
    → Keeps m f
    → Opened m other ss
    → Opened m other (with_sess accnt f ss)
stays_open m accnt other f ss k (s, p, e, there) = elim (find-with_sess accnt other f ss s k.0 e) [
  | inl same ↦ (s, p, same, there)
  | inr new ↦ let (q, still) = k.1 s p there in (f s, q, new, still)
]

write_posn-find :
    (id : ℕ) (t : Exec) (ps : List Posn) (p : Posn)
    → find_posn id ps ≡ some p
    → (q : Posn) × (find_posn id (write_posn id (add_trade t.side t.last_lots t.last_ticks) ps)
        ≡ some q)
unfolding find_posn write_posn add_trade add_buy add_sell
write_posn-find id t [] p e = absurd (cc)
write_posn-find id t (x ∷ ps) p e = elim (Bool-cases (x.market_id == id)) [
  | inl hit ↦ elim (Bool-cases (is_buy t.side)) [
    | inl buy ↦ (add_trade t.side t.last_lots t.last_ticks x, rw (hit, buy) (rw hit))
    | inr sell ↦ (add_trade t.side t.last_lots t.last_ticks x, rw (hit, sell) (rw hit))
  ]
  | inr miss ↦
      let (q, found) = write_posn-find id t ps p (ground (arith, e)) in (q, rw miss (rw miss found))
]

commit_trade-posns :
    (m : Market) (t : Exec) (s : Sess)
    → (commit_trade m t s).posns
      ≡ write_posn m.id (add_trade t.side t.last_lots t.last_ticks) s.posns
unfolding commit_trade
commit_trade-posns m t s =
    ap (write_posn m.id (add_trade t.side t.last_lots t.last_ticks))
      (insert_trade-posns t (push_exec_front t s) ∙ push_exec_front-posns t s)

pub commit_trade-Keeps : (m : Market) (t : Exec) → Keeps m (commit_trade m t)
unfolding commit_trade
commit_trade-Keeps m t = (
  λ s. insert_trade-accnt t (push_exec_front t s) ∙ push_exec_front-accnt t s,
  λ s p e.
      let (q, found) = write_posn-find m.id t s.posns p e in
      (q, ap (find_posn m.id) (commit_trade-posns m t s) ∙ found),
)

-- A committed trade moves its lots to an open session.
pub commit_trade-sum :
    (m : Market) (accnt : ℕ) (t : Exec) (ss : List Sess)
    → Opened m accnt ss
    → sum_sesss (with_sess accnt (commit_trade m t) ss) ≡ sum_sesss ss +ℤ moved t
commit_trade-sum m accnt t ss (s, p, e, there) =
    with_sess-sum_at accnt (commit_trade m t) (moved t) ss s e
      (ap sum_posns (commit_trade-posns m t s) ∙ write_posn-sum m.id t s.posns p there)
