-- ===== src/Lob/Batch/Book.antt =====
-- How the calls over several ids end, and what an error leaves.
use swirly.Base.{ℕ, ◌≡◌, refl, Option, none, some, List, [], All, arith}
use mathlib.Core.Path.{subst}
use swirly.Base.Int.{ℤ}
use swirly.Fin.Order.{Order}
use swirly.Fin.Market.{Market}
use swirly.Fin.Market.Valid.{IsValid}
use swirly.Fin.Market.Book.{more_ids}
use swirly.Fin.Exec.{Exec}
use swirly.Fin.Exec
use swirly.Fin.MsgQueue.{Posting, complete, thrown, create_execs}
use swirly.Fin.MsgQueue.Post.{create_execs-thrown}
use swirly.Lob.Sess.{Sess}
use swirly.Lob.Response.{Response}
use swirly.Lob.Engine.{Engine, Error}
use swirly.Lob.Batch.{
  BatchOutcome, Batch, Checked, passed, refused, committed, post_batch, finish_batch, start_batch,
  revise_error, cancel_error, revise_orders, cancel_orders,
}
use swirly.Lob.Batch.Action.{Action, revising, cancelling}
use swirly.Lob.Batch.Passed.{order_ids, Distinct, Found, Grown, CheckedOk}
use swirly.Lob.Batch.Ends.{check_each-ok, commit_each-ends, order_by_id-Grown}

-- The call ended, and the market is valid.
abbrev pub EndsValid : BatchOutcome → Type 0
EndsValid (BatchOutcome.ended x e resp) = IsValid e.market
EndsValid BatchOutcome.undefined = ⊥

pub Grown-IsValid : (e : Engine) (m : Market) → IsValid e.market → Grown e m → IsValid m
Grown-IsValid e m v (n, le, eq) = rw eq (more_ids e.market n le v)

pub Grown-refl : (e : Engine) → Grown e e.market
Grown-refl e = (e.market.max_id, omega arith, refl)

module _ {act : Market → Order → Market × Order} {after : Order → Exec → Sess → Sess}
    (a : Action act after) (e : Engine) (accnt : ℕ) (v : IsValid e.market) where
  committed-valid :
      (resp : Response) (r : Option Engine) (e' : Engine)
      → r ≡ some e'
      → IsValid e'.market
      → EndsValid (committed resp r)
  committed-valid resp r e' eq v' = rw eq v'

  post_batch-valid :
      (ids : List ℕ) (b : Batch) (p : Posting)
      → Distinct ids
      → CheckedOk e accnt [] ids (passed b)
      → EndsValid (post_batch act after e accnt b p)
  post_batch-valid ids b (thrown mq) d ok = Grown-IsValid e b.market v ok.0
  post_batch-valid ids b (complete mq) d ok =
      let e1 : Engine = record e { market = b.market; mq = mq } in
      let found : All (Found e1 accnt) (order_ids b.execs) =
        rw ok.1 (order_by_id-Grown e accnt b.market mq ids ok.0 ok.2) in
      let (e', eq, v') =
        commit_each-ends a accnt b.execs e1 (Grown-IsValid e b.market v ok.0) found (rw ok.1 d) in
      committed-valid b.resp _ e' eq v'

  finish_batch-valid :
      (ids : List ℕ) (c : Checked)
      → Distinct ids
      → CheckedOk e accnt [] ids c
      → EndsValid (finish_batch act after e accnt c)
  finish_batch-valid ids (refused x b) d ok = Grown-IsValid e b.market v ok
  finish_batch-valid ids (passed b) d ok = post_batch-valid ids b (create_execs b.execs e.mq) d ok

pub revise-order_id : (lots : ℤ) (x : Exec) → (Exec.revise lots x).order_id ≡ x.order_id
unfolding Exec.revise
revise-order_id lots x = refl

pub cancel-order_id : (x : Exec) → (Exec.cancel x).order_id ≡ x.order_id
unfolding Exec.cancel
cancel-order_id x = refl

-- In a valid market, cancelling the orders of distinct ids with a response that holds no
-- executions never dereferences the end of a set, and leaves a valid market, whether an order is
-- missing or done, the queue is full or all are cancelled.
pub cancel_orders-EndsValid :
    (e : Engine) (accnt : ℕ) (ids : List ℕ) (now : ℕ) (resp : Response)
    → IsValid e.market
    → Distinct ids
    → EndsValid (cancel_orders e accnt ids now [] resp)
unfolding cancel_orders
cancel_orders-EndsValid e accnt ids now resp v d =
    finish_batch-valid (cancelling now) e accnt v ids _ d (
      check_each-ok e accnt now v cancel_error Exec.cancel cancel-order_id ids
        (start_batch e [] resp) (Grown-refl e))

-- In a valid market, revising the orders of distinct ids with a response that holds no executions
-- never dereferences the end of a set, and leaves a valid market, whether an order is missing or
-- done, the lots are refused, the queue is full or all are revised.
pub revise_orders-EndsValid :
    (e : Engine) (accnt : ℕ) (ids : List ℕ) (lots : ℤ) (now : ℕ) (resp : Response)
    → IsValid e.market
    → Distinct ids
    → EndsValid (revise_orders e accnt ids lots now [] resp)
unfolding revise_orders
revise_orders-EndsValid e accnt ids lots now resp v d =
    finish_batch-valid (revising lots now) e accnt v ids _ d (
      check_each-ok e accnt now v (revise_error lots) (Exec.revise lots) (revise-order_id lots) ids
        (start_batch e [] resp) (Grown-refl e))

-- What a call that threw leaves: ids that were allocated.
abbrev Leaves : Engine → BatchOutcome → Type 0
Leaves e (BatchOutcome.ended none e' r) = Unit {0}
Leaves e (BatchOutcome.ended (some x) e' r) =
    (e'.sesss ≡ e.sesss) × (e'.mq ≡ e.mq) × Grown e e'.market
Leaves e BatchOutcome.undefined = Unit {0}

module _ (act : Market → Order → Market × Order) (after : Order → Exec → Sess → Sess) (e : Engine)
    (accnt : ℕ) where
  committed-Leaves : (r : Response) (p : Option Engine) → Leaves e (committed r p)
  committed-Leaves r none = tt
  committed-Leaves r (some e') = tt

  post_batch-Leaves :
      (b : Batch) (p : Posting)
      → create_execs b.execs e.mq ≡ p
      → Grown e b.market
      → Leaves e (post_batch act after e accnt b p)
  post_batch-Leaves b (thrown mq) h g = (refl, create_execs-thrown b.execs e.mq mq h, g)
  post_batch-Leaves b (complete mq) h g = committed-Leaves b.resp _

  finish_batch-Leaves :
      (before ids : List ℕ) (c : Checked)
      → CheckedOk e accnt before ids c
      → Leaves e (finish_batch act after e accnt c)
  finish_batch-Leaves before ids (refused x b) ok = (refl, refl, ok)
  finish_batch-Leaves before ids (passed b) ok =
      post_batch-Leaves b (create_execs b.execs e.mq) refl ok.0

-- If revising the orders of some ids in a valid market throws, at whichever id, then no session
-- and no message has changed, and the market has at most allocated ids.
pub revise_orders-all_or_none :
    (e : Engine) (accnt : ℕ) (ids : List ℕ) (lots : ℤ) (now : ℕ) (held : List Exec)
    (resp : Response) (x : Error) (e' : Engine) (r : Response)
    → IsValid e.market
    → revise_orders e accnt ids lots now held resp ≡ BatchOutcome.ended (some x) e' r
    → (e'.sesss ≡ e.sesss) × (e'.mq ≡ e.mq) × Grown e e'.market
unfolding revise_orders
revise_orders-all_or_none e accnt ids lots now held resp x e' r v h = subst (Leaves e) h (
    finish_batch-Leaves _ _ e accnt (order_ids held) ids _ (
      check_each-ok e accnt now v (revise_error lots) (Exec.revise lots) (revise-order_id lots) ids
        (start_batch e held resp) (Grown-refl e)))
