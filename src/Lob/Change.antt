-- ===== src/Lob/Change.antt =====
-- swirly/lob/App.cpp: `revise_order` and `cancel_order`, of one order or of several.
pub mod Book
use swirly.Base.{
  ℕ, Bool, true, false, ◌||◌, Option, none, some, List, [], ◌∷◌, ◌++◌, if◌then◌else◌, map,
}
use swirly.Base.Int.{ℤ, pos, ltb_ℤ, ◌==ℤ◌}
use swirly.Fin.Order.{Order, done}
use swirly.Fin.Market.{Market, alloc_id, find_order}
use swirly.Fin.Market
use swirly.Fin.Exec.{Exec}
use swirly.Fin.Exec
use swirly.Fin.MsgQueue.{MsgQueue, do_create_exec, create_execs}
use swirly.Lob.Sess.{Sess, OrderKey, find_key, find_ref, push_exec_front}
use swirly.Lob.Sess
use swirly.Lob.Response.{Response, set_market, insert_exec}
use swirly.Lob.Response
use swirly.Lob.Engine.{Engine, Error, Outcome, ok, throw, new_exec, with_sess, find_sess, sess}

-- The object behind a session's order: it rests in the market of its key.
unfoldable pub deref : Engine → Option OrderKey → Option Order
deref e none = none
deref e (some k) = find_order e.market k.id

-- Sess::order(Id64, Id64)
unfoldable pub order_by_id : Engine → ℕ → ℕ → Option Order
order_by_id e accnt id = deref e (find_key e.market.id id (sess e.max_execs accnt e.sesss).0.orders)

-- Sess::order(string_view)
unfoldable pub order_by_ref : Engine → ℕ → ℕ → Option Order
order_by_ref e accnt ref = deref e (find_ref ref (sess e.max_execs accnt e.sesss).0.ref_idx)

-- The test that revised lots must fail.
unfoldable pub bad_lots : ℤ → Order → Bool
bad_lots lots o =
    lots ==ℤ pos 0 || ltb_ℤ o.lots lots || ltb_ℤ lots o.exec_lots || ltb_ℤ lots o.min_lots

-- The response of a change to one order.
abbrev pub respond : ℕ → Order → Exec → Response → Response
respond market_id o exec resp =
    insert_exec exec.id (Response.insert_order o.id (set_market market_id resp))

abbrev pub post_exec : Exec → MsgQueue → Option MsgQueue
post_exec = do_create_exec

-- `if (order.done()) sess.remove_order(order); sess.push_exec_front(exec);`
abbrev pub after_revise : Order → Exec → Sess → Sess
after_revise o exec s = push_exec_front exec (if done o then Sess.remove_order o s else s)

abbrev pub commit_revised : Engine → ℕ → Exec → Market × Order → Engine
commit_revised e accnt exec (m, o) = record e {
  market = m;
  sesss = with_sess accnt (after_revise o exec) e.sesss;
}

unfoldable pub do_revise_order : Engine → ℕ → Order → ℤ → ℕ → Response → Outcome
do_revise_order e accnt o lots now resp =
    if bad_lots lots o
    then throw Error.invalid_lots e resp
    else let (id, m) = alloc_id e.market in
      let exec = Exec.revise lots (new_exec o id now) in
      let resp' = respond m.id o exec resp in
      let e' = record e { market = m } in
      elim (post_exec exec e.mq) [
        | none ↦ throw Error.queue_full e' resp'
        | some mq ↦
            ok
              (commit_revised (record e' { mq = mq }) accnt exec (Market.revise_order m o lots now))
              resp'
      ]

-- The checks that the calls of one order share.
abbrev pub unless_done : Engine → Response → Option Order → (Order → Outcome) → Outcome
unless_done e resp none act = throw Error.order_not_found e resp
unless_done e resp (some o) act = if done o then throw Error.too_late e resp else act o

unfoldable pub revise_order : Engine → ℕ → ℕ → ℤ → ℕ → Response → Outcome
revise_order e accnt id lots now resp =
    unless_done e resp (order_by_id e accnt id) (λ o. do_revise_order e accnt o lots now resp)

unfoldable pub revise_order_ref : Engine → ℕ → ℕ → ℤ → ℕ → Response → Outcome
revise_order_ref e accnt ref lots now resp =
    unless_done e resp (order_by_ref e accnt ref) (λ o. do_revise_order e accnt o lots now resp)

abbrev pub after_cancel : Order → Exec → Sess → Sess
after_cancel o exec s = push_exec_front exec (Sess.remove_order o s)

abbrev pub commit_cancelled : Engine → ℕ → Exec → Market × Order → Engine
commit_cancelled e accnt exec (m, o) = record e {
  market = m;
  sesss = with_sess accnt (after_cancel o exec) e.sesss;
}

unfoldable pub do_cancel_order : Engine → ℕ → Order → ℕ → Response → Outcome
do_cancel_order e accnt o now resp =
    let (id, m) = alloc_id e.market in
    let exec = Exec.cancel (new_exec o id now) in
    let resp' = respond m.id o exec resp in
    let e' = record e { market = m } in
    elim (post_exec exec e.mq) [
      | none ↦ throw Error.queue_full e' resp'
      | some mq ↦
          ok (commit_cancelled (record e' { mq = mq }) accnt exec (Market.cancel_order m o now))
            resp'
    ]

unfoldable pub cancel_order : Engine → ℕ → ℕ → ℕ → Response → Outcome
cancel_order e accnt id now resp =
    unless_done e resp (order_by_id e accnt id) (λ o. do_cancel_order e accnt o now resp)

unfoldable pub cancel_order_ref : Engine → ℕ → ℕ → ℕ → Response → Outcome
cancel_order_ref e accnt ref now resp =
    unless_done e resp (order_by_ref e accnt ref) (λ o. do_cancel_order e accnt o now resp)
