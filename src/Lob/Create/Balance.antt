-- ===== src/Lob/Create/Balance.antt =====
-- Committed matches move lots between positions: what one account gains another loses.
use swirly.Base.{
  ℕ, ◌≡◌, refl, sym, ap, ◌∙◌, inl, inr, not, Option, none, some, List, arith, Bool-cases,
  Option-cases,
}
use mathlib.Core.Path.{subst}
use swirly.Base.Int.{ℤ, pos, ◌+ℤ◌, int_laws, add_zero, +ℤ_assoc}
use swirly.Fin.Types.{is_buy}
use swirly.Fin.Order.{Order, done, set_level, trade, trade_last}
use swirly.Fin.MarketSide.{MarketSide}
use swirly.Fin.MarketSide
use swirly.Fin.Market.{Market, side, find_order, take_order}
use swirly.Fin.Exec.{Exec}
use swirly.Fin.Exec
use swirly.Fin.Posn.{net_lots, add_trade}
use swirly.Lob.Sess.{Sess, find_posn, write_posn, insert_trade, push_exec_front, is_some}
use swirly.Lob.Sess
use swirly.Lob.Engine.{Match, Matching, new_match, new_exec, with_sess}
use swirly.Lob.Create.{book_trade, drop_done, commit_taken, commit_match}
use swirly.Lob.Create.Sums.{
  sum_posns, sum_sesss, moved, book_trade-sum, HasSess, with_sess-sum, with_sess-HasSess,
}

pub posn-accnt :
    (id instr settl_day : ℕ) (s : Sess) → (Sess.posn id instr settl_day s).1.accnt ≡ s.accnt
unfolding Sess.posn
posn-accnt id instr settl_day s = elim (Option-cases (find_posn id s.posns)) [
  | inl e ↦ ground (arith, e)
  | inr (p, e) ↦ ground (arith, e)
]

pub insert_trade-accnt : (t : Exec) (s : Sess) → (insert_trade t s).accnt ≡ s.accnt
unfolding insert_trade
insert_trade-accnt t s = ground arith

pub push_exec_front-accnt : (t : Exec) (s : Sess) → (push_exec_front t s).accnt ≡ s.accnt
unfolding push_exec_front
push_exec_front-accnt t s = refl

book_trade-accnt : (m : Market) (t : Exec) (s : Sess) → (book_trade m t s).accnt ≡ s.accnt
unfolding book_trade Exec.posn
book_trade-accnt m t s =
    let q = Sess.posn m.id m.instr m.settl_day s in
    let t' = Exec.posn (net_lots q.0) q.0.net_cost t in
    let s' = record (q.1) {
      posns = write_posn m.id (add_trade t.side t.last_lots t.last_ticks) q.1.posns;
    } in
    insert_trade-accnt t' (push_exec_front t' s')
    ∙ push_exec_front-accnt t' s'
    ∙ posn-accnt m.id m.instr m.settl_day s

drop_done-same :
    (o : Order) (s : Sess) → ((drop_done o s).posns ≡ s.posns) × ((drop_done o s).accnt ≡ s.accnt)
unfolding Sess.remove_order
drop_done-same o s = elim (Bool-cases (done o)) [
  | inl d ↦ rw d (refl, refl)
  | inr d ↦ rw d (refl, refl)
]

-- The trades of a match are of the same lots, on opposite sides.
abbrev pub Balanced : Match → Type 0
Balanced x = moved x.maker_trade +ℤ moved x.taker_trade ≡ pos 0

cancel_moves : (a b c : ℤ) → b +ℤ c ≡ pos 0 → a +ℤ b +ℤ c ≡ a
cancel_moves a b c h = +ℤ_assoc a b c ∙ ap (λ n. a +ℤ n) h ∙ add_zero a

-- Committing a match leaves the sum of all positions as it was.
commit_taken-sum :
    (accnt : ℕ) (x : Match) (ss : List Sess) (m : Market) (o : Order)
    → Balanced x
    → HasSess accnt ss
    → HasSess o.accnt ss
    → (sum_sesss (commit_taken accnt x ss (m, o)).1 ≡ sum_sesss ss)
      × ((a : ℕ) → HasSess a ss → HasSess a (commit_taken accnt x ss (m, o)).1)
commit_taken-sum accnt x ss m o b h k =
    let maker = λ (s : Sess). drop_done o (book_trade m x.maker_trade s) in
    let same = λ (s : Sess).
      (drop_done-same o (book_trade m x.maker_trade s)).1 ∙ book_trade-accnt m x.maker_trade s in
    let first =
      with_sess-sum o.accnt maker (moved x.maker_trade) ss
        (λ s.
          ap sum_posns (drop_done-same o (book_trade m x.maker_trade s)).0
          ∙ book_trade-sum m x.maker_trade s)
        k in
    let keeps = λ (a : ℕ) (g : HasSess a ss). with_sess-HasSess o.accnt a maker ss same g in
    let second =
      with_sess-sum accnt (book_trade m x.taker_trade) (moved x.taker_trade)
        (with_sess o.accnt maker ss) (book_trade-sum m x.taker_trade) (keeps accnt h) in
    (
      second
          ∙ ap (λ n. n +ℤ moved x.taker_trade) first
          ∙ cancel_moves (sum_sesss ss) (moved x.maker_trade) (moved x.taker_trade) b,
      λ a g.
          with_sess-HasSess accnt a (book_trade m x.taker_trade) (with_sess o.accnt maker ss)
            (book_trade-accnt m x.taker_trade) (keeps a g),
    )

reduce_level-accnt :
    (s : MarketSide) (key : ℤ) (o : Order) (d : ℤ)
    → (MarketSide.reduce_level s key o d).1.accnt ≡ o.accnt
unfolding MarketSide.reduce_level MarketSide.remove_at set_level
reduce_level-accnt s key o d = ground arith

side_take-accnt :
    (s : MarketSide) (o : Order) (lots : ℤ) (now : ℕ)
    → (MarketSide.take_order s o lots now).1.accnt ≡ o.accnt
unfolding MarketSide.take_order trade_last trade
side_take-accnt s o lots now = elim (Option-cases o.level) [
  | inl e ↦ rw e
  | inr (k, e) ↦ rw e (reduce_level-accnt s k o lots)
]

take_order-accnt :
    (m : Market) (o : Order) (lots : ℤ) (now : ℕ) → (take_order m o lots now).1.accnt ≡ o.accnt
unfolding take_order
take_order-accnt m o lots now = side_take-accnt (side m o.side) o lots now

new_match-Balanced :
    (m : Market) (taker maker : Order) (lots : ℤ) (created : ℕ) (st : Matching)
    → is_buy maker.side ≡ not (is_buy taker.side)
    → Balanced (new_match m taker maker lots created st)
unfolding new_match new_exec Exec.trade_last Exec.trade
new_match-Balanced m taker maker lots created st h = elim (Bool-cases (is_buy taker.side)) [
  | inl b ↦ rw (h, b) (omega int_laws)
  | inr b ↦ rw (h, b) (omega int_laws)
]

-- `commit_match` by the order that it finds.
commit_by : ℕ → ℕ → Match → Market × List Sess → Option Order → Market × List Sess
commit_by accnt now x (m, ss) found = elim found [
  | none ↦ (m, ss)
  | some o ↦ commit_taken accnt x ss (take_order m o x.lots now)
]

commit_match-by :
    (accnt now : ℕ) (x : Match) (m : Market) (ss : List Sess)
    → commit_match accnt now x (m, ss) ≡ commit_by accnt now x (m, ss) (find_order m x.maker_order)
unfolding commit_match commit_by
commit_match-by accnt now x m ss = refl

commit_by-sum :
    (accnt now : ℕ) (x : Match) (m : Market) (ss : List Sess) (found : Option Order)
    → Balanced x
    → HasSess accnt ss
    → ((o : Order) → found ≡ some o → HasSess o.accnt ss)
    → sum_sesss (commit_by accnt now x (m, ss) found).1 ≡ sum_sesss ss
unfolding commit_by
commit_by-sum accnt now x m ss none b h k = refl
commit_by-sum accnt now x m ss (some o) b h k =
    let r = take_order m o x.lots now in
    (commit_taken-sum accnt x ss r.0 r.1 b h
      (subst (λ a. HasSess a ss) (sym (take_order-accnt m o x.lots now)) (k o refl))).0

-- For a taker and a maker on opposite sides, committing the match that new_match makes of them
-- leaves the sum of the net lots of all positions of all sessions as it was, if the taker and the
-- owner of the order that the market finds under the maker id have sessions.
pub commit_match-balance :
    (accnt now : ℕ) (m : Market) (ss : List Sess) (taker maker : Order) (lots : ℤ) (st : Matching)
    → is_buy maker.side ≡ not (is_buy taker.side)
    → HasSess accnt ss
    → ((o : Order) → find_order m maker.id ≡ some o → HasSess o.accnt ss)
    → sum_sesss (commit_match accnt now (new_match m taker maker lots now st) (m, ss)).1
      ≡ sum_sesss ss
unfolding new_match
commit_match-balance accnt now m ss taker maker lots st h k g =
    let x = new_match m taker maker lots now st in
    ap (λ r. sum_sesss r.1) (commit_match-by accnt now x m ss)
    ∙ commit_by-sum accnt now x m ss _ (new_match-Balanced m taker maker lots now st h) k g
