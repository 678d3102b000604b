-- ===== src/App/MemQueue/KeepRead.antt =====
-- The accesses of a fetch leave what holds of the other threads.
use swirly.Base.{ℕ, ◌+◌, ◌≡◌, ◌≢◌, sym, ap, ◌∙◌, inl, inr, some, ◌==◌, arith, Bool-cases}
use swirly.App.MemQueue.{
  Ring, Thread, idle, post_load, post_check, post_cas, post_write, post_commit, fetch_load,
  fetch_check, fetch_cas, fetch_read, fetch_commit, slot, store_seq, claim_read,
}
use swirly.App.MemQueue.Slots.{next_slot}
use swirly.App.MemQueue.Safe.{RingOk, Writes, Reads, ThreadOk, claim, update_other}
use swirly.App.MemQueue.Keep.{reader_apart, readers_apart}

module _ {V : Type 0} (r : Ring V) (ok : RingOk r) where
  module _ (p : ℕ) (at : r.rpos ≡ p) (e : r.seq (slot r p) ≡ p + 1) where
    claim_read-Writes : (w : ℕ) (v : V) → Writes r w v → Writes (claim_read p r) w v
    unfolding claim_read
    claim_read-Writes w v h = record {
      claimed = h.claimed;
      unread = elim (Bool-cases (w == p)) [
        | inl same ↦
            let i : w ≡ p = ground arith in
            absurd (omega (arith, h.own_seq, ap (λ n. r.seq (slot r n)) i, i, e))
        | inr other ↦ ground (arith, h.unread)
      ];
      own_seq = h.own_seq;
      own_sent = h.own_sent;
    }

    claim_read-Reads : (q : ℕ) → Reads r q → Reads (claim_read p r) q
    unfolding claim_read
    claim_read-Reads q h = record {
      claimed = omega (arith, h.claimed);
      kept = h.kept;
      own_seq = h.own_seq;
    }

    pub claim_read-keeps : (pc : Thread V) → ThreadOk r pc → ThreadOk (claim_read p r) pc
    unfolding claim_read
    claim_read-keeps (idle b) t = tt
    claim_read-keeps (post_load u) t = tt
    claim_read-keeps (post_check u q) t = tt
    claim_read-keeps (post_cas u q) t = t
    claim_read-keeps (post_write u q) t = claim_read-Writes q u t
    claim_read-keeps (post_commit u q) t = (claim_read-Writes q u t.0, t.1)
    claim_read-keeps fetch_load t = tt
    claim_read-keeps (fetch_check q) t = tt
    claim_read-keeps (fetch_cas q) t = λ le. t (omega arith)
    claim_read-keeps (fetch_read q) t = (claim_read-Reads q t.0, t.1)
    claim_read-keeps (fetch_commit q x) t = (claim_read-Reads q t.0, t.1)

  module _ (p : ℕ) (h : Reads r p) where
    commit_read-seq :
        (q : ℕ)
        → slot r p ≢ slot r q
        → (store_seq p (p + r.capacity) r).seq (slot r q) ≡ r.seq (slot r q)
    unfolding store_seq
    commit_read-seq q i = update_other r.seq (slot r p) (p + r.capacity) (slot r q) i

    commit_read-Writes :
        (w : ℕ) (v : V) → Writes r w v → Writes (store_seq p (p + r.capacity) r) w v
    unfolding store_seq
    commit_read-Writes w v k = record {
      claimed = k.claimed;
      unread = k.unread;
      own_seq = commit_read-seq w (reader_apart r ok p w h k.unread k.claimed) ∙ k.own_seq;
      own_sent = k.own_sent;
    }

    commit_read-Reads : (q : ℕ) → p ≢ q → Reads r q → Reads (store_seq p (p + r.capacity) r) q
    unfolding store_seq
    commit_read-Reads q i k = record {
      claimed = k.claimed;
      kept = k.kept;
      own_seq = commit_read-seq q (readers_apart r ok p q h k i) ∙ k.own_seq;
    }

    pub commit_read-keeps :
        (pc : Thread V)
        → claim pc ≢ some p
        → ThreadOk r pc
        → ThreadOk (store_seq p (p + r.capacity) r) pc
    unfolding store_seq
    commit_read-keeps (idle b) i t = tt
    commit_read-keeps (post_load u) i t = tt
    commit_read-keeps (post_check u q) i t = tt
    commit_read-keeps (post_cas u q) i t = λ le.
        commit_read-seq q (λ same.
          let next : q ≡ p + 1 = omega (arith, t le, ap r.seq same, h.own_seq) in
          next_slot r.capacity p ok.two (same ∙ ap (slot r) next))
        ∙ t le
    commit_read-keeps (post_write u q) i t = commit_read-Writes q u t
    commit_read-keeps (post_commit u q) i t = (commit_read-Writes q u t.0, t.1)
    commit_read-keeps fetch_load i t = tt
    commit_read-keeps (fetch_check q) i t = tt
    commit_read-keeps (fetch_cas q) i t =
        λ le. let (e, lt) = t le in (commit_read-seq q (reader_apart r ok p q h le lt) ∙ e, lt)
    commit_read-keeps (fetch_read q) i t =
        (commit_read-Reads q (λ same. i (ap some (sym same))) t.0, t.1)
    commit_read-keeps (fetch_commit q x) i t =
        (commit_read-Reads q (λ same. i (ap some (sym same))) t.0, t.1)
