-- ===== src/Lob/Change/Book.antt =====
-- What a revision or a cancellation does to the market, on every branch.
use swirly.Base.{
  ℕ, suc, ◌≡◌, refl, sym, inl, inr, Bool, true, false, Option, none, some, arith, Bool-cases,
  if◌then◌else◌,
}
use mathlib.Core.Path.{subst}
use swirly.Base.Int.{ℤ}
use swirly.Fin.Order.{Order, done}
use swirly.Fin.Market.{Market, alloc_id, find_order}
use swirly.Fin.Market
use swirly.Fin.Market.Valid.{IsValid, Rests, find_order-Rests}
use swirly.Fin.Market.Book.{more_ids}
use swirly.Fin.Market.Book
use swirly.Fin.MsgQueue.{MsgQueue}
use swirly.Fin.Exec.{Exec}
use swirly.Fin.Exec
use swirly.Lob.Sess.{OrderKey}
use swirly.Lob.Response.{Response}
use swirly.Lob.Engine.{Engine, Error, Outcome, ok, throw, new_exec}
use swirly.Lob.Change.{
  do_revise_order, do_cancel_order, bad_lots, post_exec, commit_revised, commit_cancelled, respond,
  revise_order, cancel_order, unless_done, order_by_id, deref,
}

-- A market that has allocated one more id.
abbrev next : Market → Market
next m = (alloc_id m).1

next-IsValid : (m : Market) → IsValid m → IsValid (next m)
unfolding alloc_id
next-IsValid m v = more_ids m (suc m.max_id) (omega arith) v

next-Rests : (m : Market) (o : Order) → Rests m o → Rests (next m) o
unfolding alloc_id
next-Rests m o (Rests.on_bid s f) = Rests.on_bid s f
next-Rests m o (Rests.on_offer s f) = Rests.on_offer s f

abbrev pub ValidOutcome : Outcome → Type 0
ValidOutcome out = IsValid out.engine.market

module _ (e : Engine) (accnt : ℕ) (o : Order) (now : ℕ) (resp : Response) where
  exec_of : Exec
  exec_of = new_exec o (alloc_id e.market).0 now

  -- `do_revise_order` by the outcome of its post.
  revise_posting : ℤ → Option MsgQueue → Outcome
  revise_posting lots p = elim p [
    | none ↦
        throw Error.queue_full (record e { market = next e.market })
          (respond (next e.market).id o (Exec.revise lots exec_of) resp)
    | some mq ↦
        ok
          (commit_revised (record e { market = next e.market; mq = mq }) accnt
            (Exec.revise lots exec_of) (Market.revise_order (next e.market) o lots now))
          (respond (next e.market).id o (Exec.revise lots exec_of) resp)
  ]

  do_revise_order-by :
      (lots : ℤ)
      → do_revise_order e accnt o lots now resp ≡ (
          if bad_lots lots o
          then throw Error.invalid_lots e resp
          else revise_posting lots (post_exec (Exec.revise lots exec_of) e.mq))
  unfolding do_revise_order revise_posting exec_of
  do_revise_order-by lots = refl

  -- The market is valid after each outcome of the post,
  revise_posting-IsValid :
      (lots : ℤ) (p : Option MsgQueue)
      → IsValid e.market
      → Rests e.market o
      → ValidOutcome (revise_posting lots p)
  unfolding revise_posting
  revise_posting-IsValid lots none v r = next-IsValid e.market v
  revise_posting-IsValid lots (some mq) v r =
      Book.revise_order-IsValid (next e.market) o lots now (next-IsValid e.market v)
        (next-Rests e.market o r)

  choose :
      (b : Bool) (x y : Outcome)
      → ValidOutcome x
      → ValidOutcome y
      → ValidOutcome (if b then x else y)
  choose true x y p q = p
  choose false x y p q = q

  -- so it is after a revision.
  do_revise_order-IsValid :
      (lots : ℤ)
      → IsValid e.market
      → Rests e.market o
      → ValidOutcome (do_revise_order e accnt o lots now resp)
  do_revise_order-IsValid lots v r =
      subst ValidOutcome (sym (do_revise_order-by lots))
        (choose (bad_lots lots o) _ _ v (revise_posting-IsValid lots _ v r))

  cancel_posting : Option MsgQueue → Outcome
  cancel_posting p = elim p [
    | none ↦
        throw Error.queue_full (record e { market = next e.market })
          (respond (next e.market).id o (Exec.cancel exec_of) resp)
    | some mq ↦
        ok
          (commit_cancelled (record e { market = next e.market; mq = mq }) accnt
            (Exec.cancel exec_of) (Market.cancel_order (next e.market) o now))
          (respond (next e.market).id o (Exec.cancel exec_of) resp)
  ]

  do_cancel_order-by :
      do_cancel_order e accnt o now resp ≡ cancel_posting (post_exec (Exec.cancel exec_of) e.mq)
  unfolding do_cancel_order cancel_posting exec_of
  do_cancel_order-by = refl

  cancel_posting-IsValid :
      (p : Option MsgQueue) → IsValid e.market → Rests e.market o → ValidOutcome (cancel_posting p)
  unfolding cancel_posting
  cancel_posting-IsValid none v r = next-IsValid e.market v
  cancel_posting-IsValid (some mq) v r =
      Book.cancel_order-IsValid (next e.market) o now (next-IsValid e.market v)
        (next-Rests e.market o r)

  do_cancel_order-IsValid :
      IsValid e.market → Rests e.market o → ValidOutcome (do_cancel_order e accnt o now resp)
  do_cancel_order-IsValid v r =
      subst ValidOutcome (sym do_cancel_order-by) (cancel_posting-IsValid _ v r)

deref-Rests :
    (e : Engine) (k : Option OrderKey) (o : Order)
    → IsValid e.market
    → deref e k ≡ some o
    → Rests e.market o
unfolding deref
deref-Rests e none o v h = absurd (cc)
deref-Rests e (some k) o v h = (find_order-Rests e.market k.id o v h).1

unless_done-IsValid :
    (e : Engine) (resp : Response) (found : Option Order) (act : Order → Outcome)
    → IsValid e.market
    → ((o : Order) → found ≡ some o → ValidOutcome (act o))
    → ValidOutcome (unless_done e resp found act)
unless_done-IsValid e resp none act v h = v
unless_done-IsValid e resp (some o) act v h = elim (Bool-cases (done o)) [
  | inl d ↦ subst (λ b. ValidOutcome (if b then throw Error.too_late e resp else act o)) (sym d) v
  | inr d ↦
      subst (λ b. ValidOutcome (if b then throw Error.too_late e resp else act o)) (sym d)
        (h o refl)
]

-- If the market is valid it is valid after the engine revises an order by its id, whether the
-- order is missing or done, the lots are refused, the queue is full or the revision is committed.
pub revise_order-IsValid :
    (e : Engine) (accnt id : ℕ) (lots : ℤ) (now : ℕ) (resp : Response)
    → IsValid e.market
    → IsValid (revise_order e accnt id lots now resp).engine.market
unfolding revise_order order_by_id
revise_order-IsValid e accnt id lots now resp v =
    unless_done-IsValid e resp (order_by_id e accnt id) _ v
      (λ o f. do_revise_order-IsValid e accnt o now resp lots v (deref-Rests e _ o v f))

-- If the market is valid it is valid after the engine cancels an order by its id, whether the
-- order is missing or done, the queue is full or the cancellation is committed.
pub cancel_order-IsValid :
    (e : Engine) (accnt id now : ℕ) (resp : Response)
    → IsValid e.market
    → IsValid (cancel_order e accnt id now resp).engine.market
unfolding cancel_order order_by_id
cancel_order-IsValid e accnt id now resp v =
    unless_done-IsValid e resp (order_by_id e accnt id) _ v
      (λ o f. do_cancel_order-IsValid e accnt o now resp v (deref-Rests e _ o v f))
