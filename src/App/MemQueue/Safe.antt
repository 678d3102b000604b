-- ===== src/App/MemQueue/Safe.antt =====
-- What holds of the ring and of each thread between any two accesses.
use swirly.Base.{
  ℕ, ◌+◌, ◌<◌, ◌≤◌, ◌≡◌, ◌≢◌, sym, ap, ◌∙◌, ◌⊎◌, inl, inr, Option, none, some, ◌==◌, arith,
  Bool-cases, ltb, ltb→lt,
}
use swirly.App.MemQueue.{
  Ring, Thread, idle, post_load, post_check, post_cas, post_write, post_commit, fetch_load,
  fetch_check, fetch_cas, fetch_read, fetch_commit, update, slot, claim_write, write_val, store_seq,
  claim_read,
}
use swirly.App.MemQueue.Slots.{apart, slot_again}

pub update_other : {A : Type 0} (f : ℕ → A) (i : ℕ) (x : A) (j : ℕ) → i ≢ j → update f i x j ≡ f j
update_other f i x j h = ground arith

pub update_own : {A : Type 0} (f : ℕ → A) (i : ℕ) (x : A) → update f i x i ≡ x
update_own f i x = ground arith

module _ {V : Type 0} where
  -- A position that has been posted and not been fetched is being written, or holds what its post has
  -- to write; no position to come is ready to be fetched.
  pub record RingOk (r : Ring V) : Type 0 where
    pub two : 2 ≤ r.capacity
    pub order : r.rpos ≤ r.wpos
    pub room : r.wpos ≤ r.rpos + r.capacity
    pub slots :
        (p : ℕ)
        → r.rpos ≤ p
        → p < r.wpos
        → (r.seq (slot r p) ≡ p) ⊎ ((r.seq (slot r p) ≡ p + 1) × (r.val (slot r p) ≡ r.sent p))
    pub ahead : (p : ℕ) → r.wpos ≤ p → r.seq (slot r p) ≤ p

  -- A thread that has claimed a position to write, and one that has claimed it to read.
  pub record Writes (r : Ring V) (w : ℕ) (v : V) : Type 0 where
    pub claimed : w < r.wpos
    pub unread : r.rpos ≤ w
    pub own_seq : r.seq (slot r w) ≡ w
    pub own_sent : r.sent w ≡ v

  pub record Reads (r : Ring V) (p : ℕ) : Type 0 where
    pub claimed : p < r.rpos
    pub kept : r.wpos ≤ p + r.capacity
    pub own_seq : r.seq (slot r p) ≡ p + 1

  abbrev pub ThreadOk : Ring V → Thread V → Type 0
  ThreadOk r (idle b) = Unit {0}
  ThreadOk r (post_load v) = Unit {0}
  ThreadOk r (post_check v w) = Unit {0}
  ThreadOk r (post_cas v w) = r.wpos ≤ w → r.seq (slot r w) ≡ w
  ThreadOk r (post_write v w) = Writes r w v
  ThreadOk r (post_commit v w) = Writes r w v × (r.val (slot r w) ≡ v)
  ThreadOk r fetch_load = Unit {0}
  ThreadOk r (fetch_check p) = Unit {0}
  ThreadOk r (fetch_cas p) = r.rpos ≤ p → (r.seq (slot r p) ≡ p + 1) × (p < r.wpos)
  ThreadOk r (fetch_read p) = Reads r p × (r.val (slot r p) ≡ r.sent p)
  ThreadOk r (fetch_commit p x) = Reads r p × (x ≡ r.sent p)

  -- The position that a thread has claimed.
  abbrev pub claim : Thread V → Option ℕ
  claim (post_write v w) = some w
  claim (post_commit v w) = some w
  claim (fetch_read p) = some p
  claim (fetch_commit p x) = some p
  claim _ = none

  module _ (r : Ring V) (ok : RingOk r) where
    pub capacity_pos : 0 < r.capacity
    capacity_pos = omega (arith, ok.two)

    wraps : (p : ℕ) → r.wpos ≡ p + r.capacity → r.seq (slot r r.wpos) ≡ r.seq (slot r p)
    wraps p e = ap (λ n. r.seq (slot r n)) e ∙ ap r.seq (slot_again r.capacity p capacity_pos)

    -- At the next position of a ring with a free element none is unread, and no reader is.
    pub has_space : r.seq (slot r r.wpos) ≡ r.wpos → r.wpos < r.rpos + r.capacity
    has_space e = elim (Bool-cases (r.wpos == r.rpos + r.capacity)) [
      | inr less ↦ ground (arith, ok.room)
      | inl full ↦
          let at : r.wpos ≡ r.rpos + r.capacity = ground arith in
          elim (ok.slots r.rpos (omega arith) (omega (arith, ok.two))) [
            | inl q ↦ omega (arith, wraps r.rpos at, e, q, ok.two)
            | inr q ↦ omega (arith, wraps r.rpos at, e, q.0, ok.two)
          ]
    ]

    pub reader_gone : (p : ℕ) → r.seq (slot r r.wpos) ≡ r.wpos → Reads r p → r.wpos < p + r.capacity
    reader_gone p e h = elim (Bool-cases (r.wpos == p + r.capacity)) [
      | inr less ↦ ground (arith, h.kept)
      | inl full ↦
          let at : r.wpos ≡ p + r.capacity = ground arith in
          omega (arith, wraps p at, e, h.own_seq, ok.two)
    ]

    pub claim_write-RingOk :
        (v : V) (w : ℕ) → r.wpos ≡ w → r.seq (slot r w) ≡ w → RingOk (claim_write v w r)
    unfolding claim_write
    claim_write-RingOk v w at e =
        let free : r.seq (slot r r.wpos) ≡ r.wpos = ap (λ n. r.seq (slot r n)) at ∙ e ∙ sym at in
        record {
          two = ok.two;
          order = omega (arith, ok.order);
          room = omega (arith, has_space free);
          slots = λ p lo hi. elim (Bool-cases (w == p)) [
            | inl own ↦ let i : w ≡ p = ground arith in inl (rw (← i) e)
            | inr other ↦
                let i : w ≢ p = ground arith in
                rw (update_other r.sent w v p i) (ok.slots p lo (omega arith))
          ];
          ahead = λ p lo. ok.ahead p (omega arith);
        }

    pub write_val-RingOk : (v : V) (w : ℕ) → Writes r w v → RingOk (write_val v w r)
    unfolding write_val
    write_val-RingOk v w h = record {
      two = ok.two;
      order = ok.order;
      room = ok.room;
      slots = λ p lo hi. elim (Bool-cases (w == p)) [
        | inl own ↦ let i : w ≡ p = ground arith in inl (rw (← i) h.own_seq)
        | inr other ↦
            let i : w ≢ p = ground arith in
            let far =
              apart r.capacity w p capacity_pos i (omega (arith, h.claimed, ok.room))
                (omega (arith, h.unread, ok.room)) in
            rw (update_other r.val (slot r w) v (slot r p) far) (ok.slots p lo hi)
      ];
      ahead = ok.ahead;
    }

    pub commit_write-RingOk :
        (v : V) (w : ℕ) → Writes r w v → r.val (slot r w) ≡ v → RingOk (store_seq w (w + 1) r)
    unfolding store_seq
    commit_write-RingOk v w h own_val = record {
      two = ok.two;
      order = ok.order;
      room = ok.room;
      slots = λ p lo hi. elim (Bool-cases (w == p)) [
        | inl own ↦
            let i : w ≡ p = ground arith in
            rw (← i) (inr (update_own r.seq (slot r w) (w + 1), own_val ∙ sym h.own_sent))
        | inr other ↦
            let i : w ≢ p = ground arith in
            let far =
              apart r.capacity w p capacity_pos i (omega (arith, h.claimed, ok.room))
                (omega (arith, h.unread, ok.room)) in
            rw (update_other r.seq (slot r w) (w + 1) (slot r p) far) (ok.slots p lo hi)
      ];
      ahead = λ p lo. elim (Bool-cases (slot r w == slot r p)) [
        | inl same ↦
            let i : slot r w ≡ slot r p = ground arith in
            omega (
              arith,
              h.claimed,
              update_own r.seq (slot r w) (w + 1),
              ap (update r.seq (slot r w) (w + 1)) i,
            )
        | inr other ↦
            let i : slot r w ≢ slot r p = ground arith in
            rw (update_other r.seq (slot r w) (w + 1) (slot r p) i) (ok.ahead p lo)
      ];
    }

    pub claim_read-RingOk : (p : ℕ) → r.rpos ≡ p → p < r.wpos → RingOk (claim_read p r)
    unfolding claim_read
    claim_read-RingOk p at lt = record {
      two = ok.two;
      order = lt;
      room = omega (arith, ok.room);
      slots = λ q lo hi. ok.slots q (omega arith) hi;
      ahead = ok.ahead;
    }

    -- A later position of the element that a reader has is a capacity on at least.
    reader_behind : (p q : ℕ) → Reads r p → r.wpos ≤ q → slot r p ≡ slot r q → p + r.capacity ≤ q
    reader_behind p q h lo i = elim (Bool-cases (ltb q (p + r.capacity))) [
      | inr far ↦ ground arith
      | inl near ↦ absurd (
          apart r.capacity p q capacity_pos (omega (arith, h.claimed, ok.order))
            (omega (arith, h.claimed, ok.order)) (ltb→lt q (p + r.capacity) near) i)
    ]

    pub commit_read-RingOk : (p : ℕ) → Reads r p → RingOk (store_seq p (p + r.capacity) r)
    unfolding store_seq
    commit_read-RingOk p h = record {
      two = ok.two;
      order = ok.order;
      room = ok.room;
      slots = λ q lo hi.
          let far =
            apart r.capacity p q capacity_pos (omega (arith, h.claimed)) (omega (arith, h.claimed))
              (omega (arith, h.kept)) in
          rw (update_other r.seq (slot r p) (p + r.capacity) (slot r q) far) (ok.slots q lo hi);
      ahead = λ q lo. elim (Bool-cases (slot r p == slot r q)) [
        | inl same ↦
            let i : slot r p ≡ slot r q = ground arith in
            omega (
              arith,
              ap (update r.seq (slot r p) (p + r.capacity)) i,
              update_own r.seq (slot r p) (p + r.capacity),
              reader_behind p q h lo i,
            )
        | inr other ↦
            let i : slot r p ≢ slot r q = ground arith in
            rw (update_other r.seq (slot r p) (p + r.capacity) (slot r q) i) (ok.ahead q lo)
      ];
    }
