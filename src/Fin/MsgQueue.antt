-- ===== src/Fin/MsgQueue.antt =====
-- swirly/fin/MsgQueue.hpp and MsgQueue.cpp: the queue through which the engine's transactions are
-- journalled. The shared-memory ring of swirly/app/MemQueue.hpp is its list of messages.
pub mod Post
pub mod Archive
use swirly.Base.{
  ℕ, suc, ◌+◌, ◌-◌, ◌/◌, Bool, true, false, Option, none, some, List, [], ◌∷◌, ◌++◌, map, length,
  zero, take, drop, replicate, ltb, leb, if◌then◌else◌,
}
use swirly.Fin.Exec.{Exec}

-- swirly/fin/Msg.hpp
pub data Msg : Type 0 where
  create_market : ℕ → ℕ → ℕ → ℕ → Msg
  update_market : ℕ → ℕ → Msg
  create_exec : Exec → Msg
  archive_trade : ℕ → List ℕ → ℕ → Msg

pub record MsgQueue : Type 0 where
  pub capacity : ℕ
  pub msgs : List Msg

unfoldable pub reserve : MsgQueue → ℕ
reserve q = q.capacity - length q.msgs

-- `mq_.post`: false, here `none`, when the ring is full.
unfoldable pub post : Msg → MsgQueue → Option MsgQueue
post msg q =
    if ltb (length q.msgs) q.capacity then some (record q { msgs = q.msgs ++ msg ∷ [] }) else none

unfoldable pub do_create_market : ℕ → ℕ → ℕ → ℕ → MsgQueue → Option MsgQueue
do_create_market id instr settl_day state = post (create_market id instr settl_day state)

unfoldable pub do_update_market : ℕ → ℕ → MsgQueue → Option MsgQueue
do_update_market id state = post (update_market id state)

unfoldable pub do_create_exec : Exec → MsgQueue → Option MsgQueue
do_create_exec exec = post (create_exec exec)

-- How a call that posts several messages ended: it returned, or it threw `std::runtime_error`. A
-- throw leaves the queue with the messages that the call had posted before it.
pub data Posting : Type 0 where
  complete : MsgQueue → Posting
  thrown : MsgQueue → Posting

-- The throw of a post that found the ring full, and what follows one that did not.
abbrev pub after_post : MsgQueue → Option MsgQueue → (MsgQueue → Posting) → Posting
after_post q none rest = thrown q
after_post q (some q') rest = rest q'

-- The loop over the executions.
unfoldable pub create_each : List Exec → MsgQueue → Posting
create_each [] q = complete q
create_each (e ∷ es) q = after_post q (do_create_exec e q) (λ q'. create_each es q')

-- `create_exec(ArrayView<ConstExecPtr>)`
unfoldable pub create_execs : List Exec → MsgQueue → Posting
create_execs execs q = if ltb (reserve q) (length execs) then thrown q else create_each execs q

-- MaxIds: (sizeof(CreateExec) - sizeof(Id64) - sizeof(int64_t)) / sizeof(Id64), of 248 bytes.
abbrev pub max_ids : ℕ
max_ids = 29

-- The ids, and zeros in the slots of the message that are left.
unfoldable pub do_archive_trade : ℕ → List ℕ → ℕ → MsgQueue → Option MsgQueue
do_archive_trade market_id ids modified =
    post (archive_trade market_id (ids ++ replicate (max_ids - length ids) 0) modified)

-- detail::Range::steps
unfoldable pub steps : ℕ → ℕ
steps size = (size + max_ids - 1) / max_ids

-- The `do` loop over the steps of a range; the fuel bounds the steps.
unfoldable pub archive_steps : ℕ → ℕ → List ℕ → ℕ → MsgQueue → Posting
archive_steps zero market_id ids modified q = thrown q
archive_steps (suc fuel) market_id ids modified q =
    after_post q (do_archive_trade market_id (take max_ids ids) modified q) (λ q'.
      let rest = archive_steps fuel market_id (drop max_ids ids) modified q' in
      if leb (length ids) max_ids then complete q' else rest)

-- `archive_trade(Id64, ArrayView<Id64>, Time)`
unfoldable pub archive_trades : ℕ → List ℕ → ℕ → MsgQueue → Posting
archive_trades market_id ids modified q =
    if ltb (reserve q) (steps (length ids))
    then thrown q
    else archive_steps (suc (length ids)) market_id ids modified q
