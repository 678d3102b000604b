-- ===== src/Lob/Trade/Balance.antt =====
-- A manual trade: a back-to-back trade moves lots between two accounts.
use swirly.Base.{
  ℕ, ◌≡◌, sym, ap, ◌∙◌, ◌⊎◌, inl, inr, Bool, true, false, none, some, List, [], ◌∷◌, ◌==◌,
  if◌then◌else◌, arith, Bool-cases, Option-cases,
}
use mathlib.Core.Path.{subst}
use swirly.Base.Int.{ℤ, pos, ◌+ℤ◌, int_laws, add_zero, +ℤ_assoc}
use swirly.Fin.Types.{Side, LiqInd, is_buy}
use swirly.Fin.Types
use swirly.Fin.Market.{Market, alloc_id}
use swirly.Fin.Exec.{Exec}
use swirly.Fin.Exec
use swirly.Fin.Posn.{Posn, net_lots}
use swirly.Fin.MsgQueue.{Posting, complete, thrown}
use swirly.Lob.Sess.{Sess, find_posn, write_posn, insert_trade, push_exec_front}
use swirly.Lob.Sess
use swirly.Lob.Engine.{Engine, find_sess, sess, with_sess}
use swirly.Lob.Create.Sums.{sum_posns, sum_sesss, moved, posn-there}
use swirly.Lob.Create.Balance.{posn-accnt}
use swirly.Lob.Trade.{
  new_manual, open_posn, commit_trade, TradeOutcome, finish_trades, single_trade, paired_trade,
  create_trade,
}
use swirly.Lob.Trade.Booked.{
  Opened, with_sess-sum_at, Keeps, stays_open, commit_trade-Keeps, commit_trade-sum,
}

-- The position opened in a session.
abbrev opened : Market → Sess → Sess
opened m s = (Sess.posn m.id m.instr m.settl_day s).1

opened-find :
    (m : Market) (s : Sess) (p : Posn)
    → find_posn m.id s.posns ≡ some p
    → (opened m s).posns ≡ s.posns
unfolding Sess.posn
opened-find m s p e = ground (arith, e)

opened-Keeps : (m : Market) → Keeps m (opened m)
opened-Keeps m = (
  posn-accnt m.id m.instr m.settl_day,
  λ s p e. (p, ap (find_posn m.id) (opened-find m s p e) ∙ e),
)

with_sess-const :
    (accnt : ℕ) (f : Sess → Sess) (ss : List Sess) (s : Sess)
    → find_sess accnt ss ≡ some s
    → with_sess accnt (λ _. f s) ss ≡ with_sess accnt f ss
unfolding with_sess find_sess
with_sess-const accnt f [] s e = absurd (cc)
with_sess-const accnt f (x ∷ ss) s e = elim (Bool-cases (x.accnt == accnt)) [
  | inl hit ↦ let own : x ≡ s = ground (arith, e) in rw hit (ap (λ y. f y ∷ ss) (sym own))
  | inr miss ↦ rw miss (ap (λ t. x ∷ t) (with_sess-const accnt f ss s (ground (arith, e))))
]

sess_made :
    (max_execs accnt : ℕ) (ss : List Sess)
    → find_sess accnt ss ≡ none
    → (sess max_execs accnt ss).1 ≡ Sess.make accnt max_execs ∷ ss
unfolding sess
sess_made max_execs accnt ss e = ground (arith, e)

none_held : (max_execs accnt : ℕ) (a : ℤ) → sum_posns (Sess.make accnt max_execs).posns +ℤ a ≡ a
unfolding Sess.make
none_held max_execs accnt a = omega int_laws

-- `sess` finds the session that it returns, and makes one without positions.
sess-there :
    (max_execs accnt : ℕ) (ss : List Sess)
    → (find_sess accnt (sess max_execs accnt ss).1 ≡ some (sess max_execs accnt ss).0)
      × (sum_sesss (sess max_execs accnt ss).1 ≡ sum_sesss ss)
unfolding sess find_sess Sess.make
sess-there max_execs accnt ss = elim (Option-cases (find_sess accnt ss)) [
  | inl e ↦ (
    ground (arith, e),
    ap sum_sesss (sess_made max_execs accnt ss e) ∙ none_held max_execs accnt (sum_sesss ss),
  )
  | inr (s, e) ↦ (ground (arith, e), ground (arith, e))
]

sess-Opened :
    (m : Market) (max_execs accnt other : ℕ) (ss : List Sess)
    → Opened m other ss
    → Opened m other (sess max_execs accnt ss).1
unfolding sess find_sess Sess.make
sess-Opened m max_execs accnt other ss (s, p, e, there) = (s, p, ground (arith, e), there)

opposite-moved :
    (t : Exec) (id : ℕ)
    → (t.side ≡ Side.buy) ⊎ (t.side ≡ Side.sell)
    → moved (Exec.opposite t id) +ℤ moved t ≡ pos 0
unfolding Exec.opposite Types.opposite
opposite-moved t id (inl b) = rw b (omega int_laws)
opposite-moved t id (inr b) = rw b (omega int_laws)

find-own :
    (accnt : ℕ) (f : Sess → Sess) (ss : List Sess) (s : Sess)
    → ((x : Sess) → (f x).accnt ≡ x.accnt)
    → find_sess accnt ss ≡ some s
    → find_sess accnt (with_sess accnt f ss) ≡ some (f s)
unfolding with_sess find_sess
find-own accnt f [] s h e = absurd (cc)
find-own accnt f (x ∷ ss) s h e = elim (Bool-cases (x.accnt == accnt)) [
  | inl hit ↦ rw hit (ground (arith, e, h x))
  | inr miss ↦ rw (miss, miss) (find-own accnt f ss s h (ground (arith, e)))
]

-- Opening a position leaves the sum as it was, the account open and others too.
open_posn-same :
    (max_execs : ℕ) (m : Market) (accnt : ℕ) (ss : List Sess)
    → (open_posn max_execs m accnt ss).1 ≡ with_sess accnt (opened m) (sess max_execs accnt ss).1
unfolding open_posn
open_posn-same max_execs m accnt ss =
    with_sess-const accnt (opened m) (sess max_execs accnt ss).1 (sess max_execs accnt ss).0
      (sess-there max_execs accnt ss).0

open_posn-sum :
    (max_execs : ℕ) (m : Market) (accnt : ℕ) (ss : List Sess)
    → sum_sesss (open_posn max_execs m accnt ss).1 ≡ sum_sesss ss
open_posn-sum max_execs m accnt ss =
    let (found, same) = sess-there max_execs accnt ss in
    let s = (sess max_execs accnt ss).0 in
    let (p, there, flat) = posn-there m s in
    ap sum_sesss (open_posn-same max_execs m accnt ss)
    ∙ with_sess-sum_at accnt (opened m) (pos 0) (sess max_execs accnt ss).1 s found
        (flat ∙ sym (add_zero (sum_posns s.posns)))
    ∙ add_zero _
    ∙ same

open_posn-Opened :
    (max_execs : ℕ) (m : Market) (accnt : ℕ) (ss : List Sess)
    → Opened m accnt (open_posn max_execs m accnt ss).1
open_posn-Opened max_execs m accnt ss =
    let (found, same) = sess-there max_execs accnt ss in
    let s = (sess max_execs accnt ss).0 in
    let (p, there, flat) = posn-there m s in
    subst (Opened m accnt) (sym (open_posn-same max_execs m accnt ss)) (
      opened m s,
      p,
      find-own accnt (opened m) (sess max_execs accnt ss).1 s (posn-accnt m.id m.instr m.settl_day)
          found,
      there,
    )

open_posn-keeps :
    (max_execs : ℕ) (m : Market) (accnt other : ℕ) (ss : List Sess)
    → Opened m other ss
    → Opened m other (open_posn max_execs m accnt ss).1
open_posn-keeps max_execs m accnt other ss o =
    subst (Opened m other) (sym (open_posn-same max_execs m accnt ss)) (
      stays_open m accnt other (opened m) (sess max_execs accnt ss).1 (opened-Keeps m)
        (sess-Opened m max_execs accnt other ss o))

finish_trades-sum :
    (e : Engine) (ts : List Exec) (q : Posting) (ss : List Sess) (a : ℤ)
    → sum_sesss e.sesss ≡ a
    → sum_sesss ss ≡ a
    → sum_sesss (finish_trades e ts q ss).engine.sesss ≡ a
finish_trades-sum e ts (thrown mq) ss a h k = h
finish_trades-sum e ts (complete mq) ss a h k = k

paired_trade-sum :
    (e : Engine) (accnt cpty : ℕ) (t : Exec)
    → (t.side ≡ Side.buy) ⊎ (t.side ≡ Side.sell)
    → Opened e.market accnt e.sesss
    → sum_sesss (paired_trade e accnt cpty t).engine.sesss ≡ sum_sesss e.sesss
unfolding paired_trade alloc_id
paired_trade-sum e accnt cpty t tradable o =
    let m = (alloc_id e.market).1 in
    let ct = Exec.opposite t (alloc_id e.market).0 in
    let ss = (open_posn e.max_execs e.market cpty e.sesss).1 in
    let same = open_posn-sum e.max_execs e.market cpty e.sesss in
    let theirs = open_posn-Opened e.max_execs e.market cpty e.sesss in
    let ours = open_posn-keeps e.max_execs e.market cpty accnt e.sesss o in
    let ours' = stays_open m cpty accnt (commit_trade m ct) ss (commit_trade-Keeps m ct) ours in
    let first = commit_trade-sum m cpty ct ss theirs in
    let second = commit_trade-sum m accnt t (with_sess cpty (commit_trade m ct) ss) ours' in
    finish_trades-sum (record e { market = m; sesss = ss }) _ _ _ (sum_sesss e.sesss) same
      (second
        ∙ ap (λ n. n +ℤ moved t) first
        ∙ +ℤ_assoc (sum_sesss ss) (moved ct) (moved t)
        ∙ ap (λ n. sum_sesss ss +ℤ n) (opposite-moved t (alloc_id e.market).0 tradable)
        ∙ add_zero (sum_sesss ss)
        ∙ same)

take_second :
    (b : Bool) (x y : TradeOutcome) (a : ℤ)
    → b ≡ false
    → sum_sesss y.engine.sesss ≡ a
    → sum_sesss (if b then x else y).engine.sesss ≡ a
take_second true x y a h k = absurd (cc)
take_second false x y a h k = k

-- A manual trade of a buyer or a seller with a counter-party leaves the sum of the net lots of
-- all positions of all sessions as it was, whether the queue is full or the trade is committed to
-- both accounts, which may be the same.
pub create_trade-balance :
    (e : Engine) (accnt ref : ℕ) (sd : Side) (lots ticks : ℤ) (liq_ind : LiqInd) (cpty created : ℕ)
    → (sd ≡ Side.buy) ⊎ (sd ≡ Side.sell)
    → cpty == 0 ≡ false
    → sum_sesss (create_trade e accnt ref sd lots ticks liq_ind cpty created).engine.sesss
      ≡ sum_sesss e.sesss
unfolding create_trade new_manual alloc_id
create_trade-balance e accnt ref sd lots ticks liq_ind cpty created tradable h =
    let o = open_posn e.max_execs e.market accnt e.sesss in
    let r =
      new_manual accnt e.market ref sd lots ticks (net_lots o.0) o.0.net_cost liq_ind cpty
        created in
    let e' = record e { market = r.1; sesss = o.1 } in
    take_second (cpty == 0) (single_trade e' accnt r.0) (paired_trade e' accnt cpty r.0)
      (sum_sesss e.sesss) h
      (paired_trade-sum e' accnt cpty r.0 tradable
          (open_posn-Opened e.max_execs e.market accnt e.sesss)
        ∙ open_posn-sum e.max_execs e.market accnt e.sesss)
