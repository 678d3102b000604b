-- ===== src/App/MemQueue/Stuck.antt =====
-- A queue that is constructed with a capacity that is not a power of two.
use swirly.Base.{
  ℕ, ◌+◌, ◌<◌, ◌≤◌, ◌≡◌, ◌≢◌, ap, ◌∙◌, inl, inr, Bool, true, false, not, ◌&&◌, List, [], ◌∷◌, ltb,
  ◌==◌, arith, Bool-cases,
}
use native.Mathlib.Nat.{mod-eq_of_lt}
use swirly.Util.Math.{next_pow2}
use swirly.App.MemQueue.{
  Thread, System, Event, push, pop, run, idle, post_load, post_check, post_cas, post_write,
  post_commit, fetch_load, fetch_check, fetch_cas, fetch_read, fetch_commit, update, slot,
  claim_write, write_val, store_seq, claim_read, move, run_at, next, run_all, make, construct,
}
use swirly.App.MemQueue.Safe.{update_other}
use swirly.App.MemQueue.Moves.{when_idle-either}
use swirly.App.MemQueue.Fifo.{start}

module _ {V : Type 0} (k : ℕ) where
  -- No thread is to write or read at the position `k` or after it.
  abbrev Below : Thread V → Type 0
  Below (post_cas v w) = w ≢ k
  Below (post_write v w) = w < k
  Below (post_commit v w) = w < k
  Below (fetch_cas p) = p ≢ k
  Below (fetch_read p) = p < k
  Below (fetch_commit p x) = p < k
  Below _ = Unit {0}

  -- The element `k` has the sequence number 0, and nothing is posted there.
  pub record IsStuck (s : System V) : Type 0 where
    pub first : 0 < k
    pub beyond : k < s.ring.capacity
    pub blank : s.ring.seq k ≡ 0
    pub writes : s.ring.wpos ≤ k
    pub reads : s.ring.rpos ≤ k
    pub below : (t : ℕ) → Below (s.at t)

  module _ (s : System V) (h : IsStuck s) (t : ℕ) where
    slot_of : (p : ℕ) → p ≤ k → slot s.ring p ≡ p
    slot_of p le = mod-eq_of_lt (omega (arith, h.beyond))

    with_thread : (pc : Thread V) → Below pc → (u : ℕ) → Below (update s.at t pc u)
    with_thread pc b u = elim (Bool-cases (t == u)) [ inl e ↦ rw e b | inr e ↦ rw e (h.below u) ]

    moved : (pc : Thread V) → Below pc → IsStuck (move t pc s)
    moved pc b = record {
      first = h.first;
      beyond = h.beyond;
      blank = h.blank;
      writes = h.writes;
      reads = h.reads;
      below = with_thread pc b;
    }

    stored : (p n : ℕ) → p < k → update s.ring.seq (slot s.ring p) n k ≡ 0
    stored p n lt =
        let own = slot_of p (omega arith) in
        update_other s.ring.seq (slot s.ring p) n k (rw own (omega arith)) ∙ h.blank

    run_at-IsStuck : (weak : Bool) (pc : Thread V) → Below pc → IsStuck (run_at t weak pc s)
    unfolding run_at claim_write write_val store_seq claim_read
    run_at-IsStuck weak (idle b) below = h
    run_at-IsStuck weak (post_load v) below = moved (post_check v s.ring.wpos) tt
    run_at-IsStuck weak (post_check v w) below =
        elim (Bool-cases (s.ring.seq (slot s.ring w) == w)) [
          | inl ready ↦ rw ready (
              moved (post_cas v w) (λ e.
                let at : s.ring.seq (slot s.ring w) ≡ w = ground arith in
                let own : slot s.ring w ≡ w = slot_of w (omega (arith, e)) in
                omega (arith, at, ap s.ring.seq own, ap s.ring.seq e, h.blank, h.first, e)))
          | inr other ↦ elim (Bool-cases (ltb (s.ring.seq (slot s.ring w)) w)) [
            | inl full ↦ rw (other, full) (moved (idle false) tt)
            | inr stale ↦ rw (other, stale) (moved (post_load v) tt)
          ]
        ]
    run_at-IsStuck weak (post_cas v w) below = elim (Bool-cases (not weak && s.ring.wpos == w)) [
      | inr lost ↦ rw lost (moved (post_check v s.ring.wpos) tt)
      | inl won ↦
          let at : s.ring.wpos ≡ w = ground arith in
          let lt : w < k = omega (arith, h.writes, at, below) in
          rw won (record {
            first = h.first;
            beyond = h.beyond;
            blank = h.blank;
            writes = lt;
            reads = h.reads;
            below = with_thread (post_write v w) lt;
          })
    ]
    run_at-IsStuck weak (post_write v w) below = record {
      first = h.first;
      beyond = h.beyond;
      blank = h.blank;
      writes = h.writes;
      reads = h.reads;
      below = with_thread (post_commit v w) below;
    }
    run_at-IsStuck weak (post_commit v w) below = record {
      first = h.first;
      beyond = h.beyond;
      blank = stored w (w + 1) below;
      writes = h.writes;
      reads = h.reads;
      below = with_thread (idle true) tt;
    }
    run_at-IsStuck weak fetch_load below = moved (fetch_check s.ring.rpos) tt
    run_at-IsStuck weak (fetch_check p) below =
        elim (Bool-cases (s.ring.seq (slot s.ring p) == p + 1)) [
          | inl ready ↦ rw ready (
              moved (fetch_cas p) (λ e.
                let at : s.ring.seq (slot s.ring p) ≡ p + 1 = ground arith in
                let own : slot s.ring p ≡ p = slot_of p (omega (arith, e)) in
                omega (arith, at, ap s.ring.seq own, ap s.ring.seq e, h.blank)))
          | inr other ↦ elim (Bool-cases (ltb (s.ring.seq (slot s.ring p)) (p + 1))) [
            | inl empty ↦ rw (other, empty) (moved (idle false) tt)
            | inr stale ↦ rw (other, stale) (moved fetch_load tt)
          ]
        ]
    run_at-IsStuck weak (fetch_cas p) below = elim (Bool-cases (not weak && s.ring.rpos == p)) [
      | inr lost ↦ rw lost (moved (fetch_check s.ring.rpos) tt)
      | inl won ↦
          let at : s.ring.rpos ≡ p = ground arith in
          let lt : p < k = omega (arith, h.reads, at, below) in
          rw won (record {
            first = h.first;
            beyond = h.beyond;
            blank = h.blank;
            writes = h.writes;
            reads = lt;
            below = with_thread (fetch_read p) lt;
          })
    ]
    run_at-IsStuck weak (fetch_read p) below = record {
      first = h.first;
      beyond = h.beyond;
      blank = h.blank;
      writes = h.writes;
      reads = h.reads;
      below = with_thread (fetch_commit p (s.ring.val (slot s.ring p))) below;
    }
    run_at-IsStuck weak (fetch_commit p x) below = record {
      first = h.first;
      beyond = h.beyond;
      blank = stored p (p + s.ring.capacity) below;
      writes = h.writes;
      reads = h.reads;
      below = with_thread (idle true) tt;
    }

  next-IsStuck : (e : Event V) (s : System V) → IsStuck s → IsStuck (next e s)
  unfolding next
  next-IsStuck (push t v) s h =
      when_idle-either IsStuck (s.at t) _ s (moved s h t (post_check v s.ring.wpos) tt) h
  next-IsStuck (pop t) s h =
      when_idle-either IsStuck (s.at t) _ s (moved s h t (fetch_check s.ring.rpos) tt) h
  next-IsStuck (run t weak) s h = run_at-IsStuck s h t weak (s.at t) (h.below t)

  run_all-IsStuck : (es : List (Event V)) (s : System V) → IsStuck s → IsStuck (run_all es s)
  unfolding run_all
  run_all-IsStuck [] s h = h
  run_all-IsStuck (e ∷ es) s h = run_all-IsStuck es (next e s) (next-IsStuck e s h)

  start-IsStuck : (memory : ℕ → V) → 0 < k → k < next_pow2 k → IsStuck (start k memory)
  unfolding construct make
  start-IsStuck memory first beyond = record {
    first = first;
    beyond = beyond;
    blank = ground arith;
    writes = omega arith;
    reads = omega arith;
    below = λ t. tt;
  }

  -- A queue that is constructed with a capacity that is not a power of two takes no more messages
  -- in its whole life than that capacity: in no schedule does its position to write pass it,
  -- however many messages are fetched.
  pub run_all-wpos :
      (es : List (Event V)) (memory : ℕ → V)
      → 0 < k
      → k < next_pow2 k
      → (run_all es (start k memory)).ring.wpos ≤ k
  run_all-wpos es memory first beyond =
      (run_all-IsStuck es (start k memory) (start-IsStuck memory first beyond)).writes
