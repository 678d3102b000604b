-- ===== src/Util/RingBuffer.antt =====
-- swirly/util/RingBuffer.hpp: a buffer that drops its oldest value when it is full. The positions do not
-- reach 2^64.
pub mod Bounded
use swirly.Util.Math.{next_pow2}
use swirly.Base.{ℕ, suc, ◌+◌, ◌-◌, ◌%◌, Bool, ◌==◌, if◌then◌else◌}

pub record RingBuffer (V : Type 0) : Type 0 where
  pub capacity : ℕ
  pub rpos : ℕ
  pub wpos : ℕ
  pub buf : ℕ → V

module _ {V : Type 0} where
  -- RingBuffer(std::size_t), whose elements have the value of V's constructor.
  unfoldable pub make : ℕ → V → RingBuffer V
  make capacity value = record {
    capacity = next_pow2 capacity;
    rpos = 0;
    wpos = 0;
    buf = λ i. value;
  }

  abbrev pub size : RingBuffer V → ℕ
  size r = r.wpos - r.rpos

  unfoldable pub empty : RingBuffer V → Bool
  empty r = r.rpos == r.wpos

  abbrev pub full : RingBuffer V → Bool
  full r = size r == r.capacity

  unfoldable pub front : RingBuffer V → V
  front r = r.buf (r.rpos % r.capacity)

  unfoldable pub back : RingBuffer V → V
  back r = r.buf ((r.wpos - 1) % r.capacity)

  unfoldable pub clear : RingBuffer V → RingBuffer V
  clear r = record r { rpos = 0; wpos = 0 }

  unfoldable pub pop : RingBuffer V → RingBuffer V
  pop r = record r { rpos = suc r.rpos }

  -- `auto& ref = buf_[wpos_ & mask_]; ref = val;`
  abbrev pub store : V → RingBuffer V → RingBuffer V
  store v r = record r { buf = λ i. if i == r.wpos % r.capacity then v else r.buf i }

  unfoldable pub push : V → RingBuffer V → RingBuffer V
  push v r =
      let s = store v r in
      let t = if full s then record s { rpos = suc s.rpos } else s in record t { wpos = suc t.wpos }
