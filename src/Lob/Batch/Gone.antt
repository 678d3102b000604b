-- ===== src/Lob/Batch/Gone.antt =====
-- What the call that cancels several orders does to the orders of the market: those of the ids,
-- and the others.
use swirly.Base.{
  ℕ, ◌≡◌, refl, sym, ap, ◌∙◌, inl, inr, Option, none, some, List, [], ◌∷◌, ◌==◌, All, arith,
  Bool-cases,
}
use mathlib.Core.Path.{subst}
use swirly.Fin.Order.{Order}
use swirly.Fin.Market.{Market, find_order, side, with_side, lift}
use swirly.Fin.Market
use swirly.Fin.Market.Valid.{IsValid, Rests}
use swirly.Fin.Exec.{Exec}
use swirly.Fin.Exec
use swirly.Fin.MsgQueue.{MsgQueue, Posting, complete, thrown, create_execs}
use swirly.Lob.Sess.{Sess}
use swirly.Lob.Response.{Response}
use swirly.Lob.Engine.{Engine}
use swirly.Lob.Change.{order_by_id, after_cancel}
use swirly.Lob.Batch.{
  BatchOutcome, Batch, Checked, passed, refused, commit_one, commit_found, commit_each, committed,
  post_batch, finish_batch, start_batch, cancel_error, cancel_orders,
}
use swirly.Lob.Batch.Action.{Action, cancelling}
use swirly.Lob.Batch.Passed.{order_ids, Absent, Grown, CheckedOk, order_by_id-Rests}
use swirly.Lob.Batch.Ends.{check_each-ok}
use swirly.Lob.Batch.Book.{Grown-refl, Grown-IsValid, cancel-order_id}
use swirly.Lob.Batch.Cancelled.{cancel_order-gone}

some_inj : (e e' : Engine) → some e ≡ some e' → e ≡ e'
some_inj e e' h = cc

commit_found-some :
    (p : Option Order) (rest : Order → Option Engine) (e' : Engine)
    → commit_found p rest ≡ some e'
    → (o : Order) × (p ≡ some o) × (rest o ≡ some e')
commit_found-some none rest e' h = absurd (cc)
commit_found-some (some o) rest e' h = (o, refl, h)

module _ {act : Market → Order → Market × Order} {after : Order → Exec → Sess → Sess}
    (a : Action act after) (accnt : ℕ) where
  -- One round, taken apart.
  record Round (x : Exec) (xs : List Exec) (e e' : Engine) : Type 0 where
    order : Order
    own : order.id ≡ x.order_id
    rests : Rests e.market order
    valid : IsValid (act e.market order).0
    rest : commit_each act after accnt xs (commit_one act after e accnt x order) ≡ some e'

  commit_each-Round :
      (x : Exec) (xs : List Exec) (e e' : Engine)
      → IsValid e.market
      → commit_each act after accnt (x ∷ xs) e ≡ some e'
      → Round x xs e e'
  unfolding commit_each
  commit_each-Round x xs e e' v h =
      let (o, f, rest) = commit_found-some (order_by_id e accnt x.order_id) _ e' h in
      let (own, rests) = order_by_id-Rests e accnt x.order_id o v f in
      record {
        order = o;
        own = own;
        rests = rests;
        valid = a.valid e.market o v rests;
        rest = rest;
      }

  commit_one-market :
      (e : Engine) (x : Exec) (o : Order)
      → (commit_one act after e accnt x o).market ≡ (act e.market o).0
  unfolding commit_one
  commit_one-market e x o = refl

  -- The orders of other ids stay as they are.
  pub commit_each-others :
      (xs : List Exec) (e e' : Engine) (id : ℕ)
      → IsValid e.market
      → commit_each act after accnt xs e ≡ some e'
      → Absent id (order_ids xs)
      → find_order e'.market id ≡ find_order e.market id
  unfolding commit_each
  commit_each-others [] e e' id v h d = ap (λ t. find_order t.market id) (sym (some_inj e e' h))
  commit_each-others (x ∷ xs) e e' id v h d =
      let r = commit_each-Round x xs e e' v h in
      commit_each-others xs _ e' id (rw (commit_one-market e x r.order) r.valid) r.rest d.1
      ∙ ap (λ m. find_order m id) (commit_one-market e x r.order)
      ∙ a.others e.market r.order id v r.rests (λ p. d.0 (sym r.own ∙ p))

-- A cancelled order is gone, and stays so.
module _ (accnt now : ℕ) where
  abbrev cancel_each : List Exec → Engine → Option Engine
  cancel_each = commit_each (λ m o. Market.cancel_order m o now) after_cancel accnt

  still_none :
      (e : Engine) (x : Exec) (o : Order) (id : ℕ)
      → IsValid e.market
      → Rests e.market o
      → find_order e.market id ≡ none
      → find_order (Market.cancel_order e.market o now).0 id ≡ none
  still_none e x o id v r h = elim (Bool-cases (o.id == id)) [
    | inl same ↦
        let own : o.id ≡ id = ground arith in
        subst (λ i. find_order (Market.cancel_order e.market o now).0 i ≡ none) own
          (cancel_order-gone e.market o now v r)
    | inr other ↦ (cancelling now).others e.market o id v r (ground arith) ∙ h
  ]

  cancel_each-none :
      (xs : List Exec) (e e' : Engine) (id : ℕ)
      → IsValid e.market
      → cancel_each xs e ≡ some e'
      → find_order e.market id ≡ none
      → find_order e'.market id ≡ none
  unfolding commit_each
  cancel_each-none [] e e' id v h g = subst (λ t. find_order t.market id ≡ none) (some_inj e e' h) g
  cancel_each-none (x ∷ xs) e e' id v h g =
      let r = commit_each-Round (cancelling now) accnt x xs e e' v h in
      let market = commit_one-market (cancelling now) accnt e x r.order in
      cancel_each-none xs _ e' id (rw market r.valid) r.rest
        (rw market (still_none e x r.order id v r.rests g))

  cancel_each-gone :
      (xs : List Exec) (e e' : Engine)
      → IsValid e.market
      → cancel_each xs e ≡ some e'
      → All (λ id. find_order e'.market id ≡ none) (order_ids xs)
  unfolding commit_each
  cancel_each-gone [] e e' v h = tt
  cancel_each-gone (x ∷ xs) e e' v h =
      let r = commit_each-Round (cancelling now) accnt x xs e e' v h in
      let market = commit_one-market (cancelling now) accnt e x r.order in
      (
        cancel_each-none xs _ e' x.order_id (rw market r.valid) r.rest (
            rw market (
              subst (λ i. find_order (Market.cancel_order e.market r.order now).0 i ≡ none) r.own
                (cancel_order-gone e.market r.order now v r.rests))),
        cancel_each-gone xs _ e' (rw market r.valid) r.rest,
      )

-- A call that ends with no error has passed its checks and its post, and ran both loops.
module _ (act : Market → Order → Market × Order) (after : Order → Exec → Sess → Sess) (e : Engine)
    (accnt : ℕ) where
  record Ran (c : Checked) (e' : Engine) : Type 0 where
    batch : Batch
    mq : MsgQueue
    checked : c ≡ passed batch
    ran :
        commit_each act after accnt batch.execs (record e { market = batch.market; mq = mq })
        ≡ some e'

  committed-some :
      (resp r : Response) (p : Option Engine) (e' : Engine)
      → committed resp p ≡ BatchOutcome.ended none e' r
      → p ≡ some e'
  committed-some resp r none e' h = absurd (cc)
  committed-some resp r (some x) e' h = cc

  post_batch-Ran :
      (b : Batch) (p : Posting) (e' : Engine) (r : Response)
      → post_batch act after e accnt b p ≡ BatchOutcome.ended none e' r
      → Ran (passed b) e'
  post_batch-Ran b (thrown mq) e' r h = absurd (cc)
  post_batch-Ran b (complete mq) e' r h = record {
    batch = b;
    mq = mq;
    checked = refl;
    ran = committed-some b.resp r _ e' h;
  }

  finish_batch-Ran :
      (c : Checked) (e' : Engine) (r : Response)
      → finish_batch act after e accnt c ≡ BatchOutcome.ended none e' r
      → Ran c e'
  finish_batch-Ran (refused x b) e' r h = absurd (cc)
  finish_batch-Ran (passed b) e' r h = post_batch-Ran b (create_execs b.execs e.mq) e' r h

abbrev Exactly : Engine → Engine → List ℕ → Type 0
Exactly e e' ids =
    All (λ id. find_order e'.market id ≡ none) ids
    × ((id : ℕ) → Absent id ids → find_order e'.market id ≡ find_order e.market id)

exactly :
    (e e' : Engine) (accnt now : ℕ) (ids : List ℕ) (b : Batch) (mq : MsgQueue)
    → IsValid e.market
    → Grown e b.market
    → order_ids b.execs ≡ ids
    → commit_each
        (λ m o. Market.cancel_order m o now)
        after_cancel
        accnt
        b.execs
        (record e { market = b.market; mq = mq })
      ≡ some e'
    → Exactly e e' ids
unfolding find_order
exactly e e' accnt now ids b mq v g own ran =
    let v1 = Grown-IsValid e b.market v g in
    (
      subst (All (λ id. find_order e'.market id ≡ none)) own
          (cancel_each-gone accnt now b.execs _ e' v1 ran),
      (λ id d.
          commit_each-others (cancelling now) accnt b.execs _ e' id v1 ran (rw own d)
          ∙ ap (λ m. find_order m id) g.2),
    )

of_check :
    (e e' : Engine) (accnt now : ℕ) (ids : List ℕ) (c : Checked)
    → IsValid e.market
    → CheckedOk e accnt [] ids c
    → Ran (λ m o. Market.cancel_order m o now) after_cancel e accnt c e'
    → Exactly e e' ids
of_check e e' accnt now ids (refused x b) v ok r = absurd (cc r.checked)
of_check e e' accnt now ids (passed b) v ok r =
    let same : b ≡ r.batch = cc r.checked in
    exactly e e' accnt now ids r.batch r.mq v (subst (λ t. Grown e t.market) same ok.0)
      (subst (λ t. order_ids t.execs ≡ ids) same ok.1) r.ran

-- If the market is valid and cancelling the orders of some ids, with a response that holds no
-- executions, ends with no error, then the market finds none of these ids any more, and finds
-- every other id as before.
pub cancel_orders-exactly :
    (e : Engine) (accnt : ℕ) (ids : List ℕ) (now : ℕ) (resp : Response) (e' : Engine) (r : Response)
    → IsValid e.market
    → cancel_orders e accnt ids now [] resp ≡ BatchOutcome.ended none e' r
    → All (λ id. find_order e'.market id ≡ none) ids
      × ((id : ℕ) → Absent id ids → find_order e'.market id ≡ find_order e.market id)
unfolding cancel_orders
cancel_orders-exactly e accnt ids now resp e' r v h =
    of_check e e' accnt now ids _ v
      (check_each-ok e accnt now v cancel_error Exec.cancel cancel-order_id ids
        (start_batch e [] resp) (Grown-refl e))
      (finish_batch-Ran _ _ e accnt _ e' r h)
