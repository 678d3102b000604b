-- ===== src/App/MemQueue.antt =====
-- swirly/app/MemQueue.hpp: the queue between threads or processes. A thread stands between two of its
-- accesses to what is shared, and a schedule says which thread makes its next access.
pub mod Slots
pub mod Safe
pub mod Keep
pub mod KeepRead
pub mod Moves
pub mod Posts
pub mod Fetches
pub mod Run
pub mod Fifo
pub mod Accesses
pub mod Alone
pub mod Stuck
use swirly.Util.Math.{next_pow2}
use swirly.Base.{
  ℕ, suc, ◌+◌, ◌%◌, Bool, true, false, not, ◌&&◌, List, [], ◌∷◌, ◌==◌, ltb, if◌then◌else◌,
}

-- `impl_`. The positions and sequence numbers stay below 2^63. `sent` is what the post of a position
-- has to write there; the code has no such field, and nothing depends on it.
pub record Ring (V : Type 0) : Type 0 where
  pub capacity : ℕ
  pub rpos : ℕ
  pub wpos : ℕ
  pub seq : ℕ → ℕ
  pub val : ℕ → V
  pub sent : ℕ → V

-- Where a thread stands, with its local variables: after its last call, with the result, or in a
-- call of `post` or `fetch`.
pub data Thread (V : Type 0) : Type 0 where
  idle : Bool → Thread V
  post_load : V → Thread V
  post_check post_cas post_write post_commit : V → ℕ → Thread V
  fetch_load : Thread V
  fetch_check fetch_cas fetch_read : ℕ → Thread V
  fetch_commit : ℕ → V → Thread V

pub record System (V : Type 0) : Type 0 where
  pub ring : Ring V
  pub at : ℕ → Thread V
  pub taken : List (ℕ × V)

abbrev pub update : {A : Type 0} → (ℕ → A) → ℕ → A → ℕ → A
update f i x j = if i == j then x else f j

module _ {V : Type 0} where
  -- `& mask_`, the capacity being a power of two.
  abbrev pub slot : Ring V → ℕ → ℕ
  slot r pos = pos % r.capacity

  -- The constructor's ring: `capacity_` elements of zeroed memory, of which the first `capacity` have
  -- their index for a sequence number.
  unfoldable pub make : ℕ → ℕ → (ℕ → V) → Ring V
  make capacity_ capacity val = record {
    capacity = capacity_;
    rpos = 0;
    wpos = 0;
    seq = λ i. if ltb i capacity then i else 0;
    val = val;
    sent = val;
  }

  -- MemQueue(std::size_t)
  unfoldable pub construct : ℕ → (ℕ → V) → Ring V
  construct capacity val = make (next_pow2 capacity) capacity val

  -- `__atomic_compare_exchange_n(&impl_->wpos, &wpos, wpos + 1, ...)` that succeeds.
  unfoldable pub claim_write : V → ℕ → Ring V → Ring V
  claim_write v w r = record r { wpos = suc w; sent = update r.sent w v }

  -- `fn(elem.val)` of a push.
  unfoldable pub write_val : V → ℕ → Ring V → Ring V
  write_val v w r = record r { val = update r.val (slot r w) v }

  -- `__atomic_store_n(&elem.seq, ..., __ATOMIC_RELEASE)`
  unfoldable pub store_seq : ℕ → ℕ → Ring V → Ring V
  store_seq pos n r = record r { seq = update r.seq (slot r pos) n }

  unfoldable pub claim_read : ℕ → Ring V → Ring V
  claim_read p r = record r { rpos = suc p }

  abbrev pub move : ℕ → Thread V → System V → System V
  move t pc s = record s { at = update s.at t pc }

  abbrev pub with_ring : (Ring V → Ring V) → System V → System V
  with_ring f s = record s { ring = f s.ring }

  -- The next access of a thread. `weak` says that a compare-and-exchange fails for no reason.
  unfoldable pub run_at : ℕ → Bool → Thread V → System V → System V
  run_at t weak (idle b) s = s
  run_at t weak (post_load v) s = move t (post_check v s.ring.wpos) s
  run_at t weak (post_check v w) s =
      let q = s.ring.seq (slot s.ring w) in
      if q == w
      then move t (post_cas v w) s
      else if ltb q w
      then move t (idle false) s
      else move t (post_load v) s
  run_at t weak (post_cas v w) s =
      if not weak && s.ring.wpos == w
      then move t (post_write v w) (with_ring (claim_write v w) s)
      else move t (post_check v s.ring.wpos) s
  run_at t weak (post_write v w) s = move t (post_commit v w) (with_ring (write_val v w) s)
  run_at t weak (post_commit v w) s = move t (idle true) (with_ring (store_seq w (w + 1)) s)
  run_at t weak fetch_load s = move t (fetch_check s.ring.rpos) s
  run_at t weak (fetch_check p) s =
      let q = s.ring.seq (slot s.ring p) in
      if q == p + 1
      then move t (fetch_cas p) s
      else if ltb q (p + 1)
      then move t (idle false) s
      else move t fetch_load s
  run_at t weak (fetch_cas p) s =
      if not weak && s.ring.rpos == p
      then move t (fetch_read p) (with_ring (claim_read p) s)
      else move t (fetch_check s.ring.rpos) s
  run_at t weak (fetch_read p) s = move t (fetch_commit p (s.ring.val (slot s.ring p))) s
  run_at t weak (fetch_commit p x) s =
      let s' = move t (idle true) (with_ring (store_seq p (p + s.ring.capacity)) s) in
      record s' { taken = (p, x) ∷ s.taken }

-- A thread that is in no call starts one, with its load of the position, or a thread goes on.
pub data Event (V : Type 0) : Type 0 where
  push : ℕ → V → Event V
  pop : ℕ → Event V
  run : ℕ → Bool → Event V

module _ {V : Type 0} where
  abbrev pub when_idle : Thread V → System V → System V → System V
  when_idle (idle b) started s = started
  when_idle _ started s = s

  unfoldable pub next : Event V → System V → System V
  next (push t v) s = when_idle (s.at t) (move t (post_check v s.ring.wpos) s) s
  next (pop t) s = when_idle (s.at t) (move t (fetch_check s.ring.rpos) s) s
  next (run t weak) s = run_at t weak (s.at t) s

  unfoldable pub run_all : List (Event V) → System V → System V
  run_all [] s = s
  run_all (e ∷ es) s = run_all es (next e s)
