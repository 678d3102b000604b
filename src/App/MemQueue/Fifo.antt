-- ===== src/App/MemQueue/Fifo.antt =====
-- A queue from its construction on, under any schedule.
use swirly.Base.{ℕ, ◌+◌, ◌≤◌, ◌≡◌, false, List, arith}
use native.Mathlib.Nat.{mod-le}
use swirly.App.MemQueue.{System, Event, idle, make, construct, run_all}
use swirly.Util.Math.{next_pow2}
use swirly.App.MemQueue.Safe.{RingOk}
use swirly.App.MemQueue.Moves.{IsSafe, TakenOk, Once}
use swirly.App.MemQueue.Run.{run_all-IsSafe}

module _ {V : Type 0} where
  -- A new ring, with all threads outside a call.
  abbrev pub start : ℕ → (ℕ → V) → System V
  start capacity memory = record {
    ring = construct capacity memory;
    at = λ t. idle false;
    taken = List.[];
  }

  make-RingOk :
      (capacity : ℕ) (memory : ℕ → V) → 2 ≤ capacity → RingOk (make capacity capacity memory)
  unfolding make
  make-RingOk capacity memory two = record {
    two = two;
    order = omega arith;
    room = omega arith;
    slots = λ p lo hi. absurd (omega arith);
    ahead = λ p lo. ground (arith, mod-le p capacity);
  }

  construct-RingOk :
      (capacity : ℕ) (memory : ℕ → V)
      → 2 ≤ capacity
      → next_pow2 capacity ≡ capacity
      → RingOk (construct capacity memory)
  unfolding construct
  construct-RingOk capacity memory two whole = rw whole (make-RingOk capacity memory two)

  pub start-IsSafe :
      (capacity : ℕ) (memory : ℕ → V)
      → 2 ≤ capacity
      → next_pow2 capacity ≡ capacity
      → IsSafe (start capacity memory)
  start-IsSafe capacity memory two whole = record {
    ring_ok = construct-RingOk capacity memory two whole;
    threads = λ t. tt;
    alone = λ t u p c d. absurd (cc c);
    taken_ok = tt;
    once = tt;
    pending = λ t. tt;
  }

  -- In a queue that is constructed with a capacity of two at least that is a power of two, after
  -- any schedule of any number of threads, each value that was fetched is the one that the post
  -- of its position had to write, no position was fetched twice, and the positions to write are
  -- at most the capacity ahead of those to read, and not behind them.
  pub run_all-TakenOk :
      (es : List (Event V)) (capacity : ℕ) (memory : ℕ → V)
      → 2 ≤ capacity
      → next_pow2 capacity ≡ capacity
      → let s : System V = run_all es (start capacity memory) in
        TakenOk s.ring s.taken
        × Once s.taken
        × (s.ring.rpos ≤ s.ring.wpos)
        × (s.ring.wpos ≤ s.ring.rpos + s.ring.capacity)
  run_all-TakenOk es capacity memory two whole =
      let safe =
        run_all-IsSafe es (start capacity memory) (start-IsSafe capacity memory two whole) in
      (safe.taken_ok, safe.once, safe.ring_ok.order, safe.ring_ok.room)
