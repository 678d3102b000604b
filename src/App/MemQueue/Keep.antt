-- ===== src/App/MemQueue/Keep.antt =====
-- An access of one thread leaves what holds of the others, which have claimed other positions.
use swirly.Base.{ℕ, ◌+◌, ◌<◌, ◌≤◌, ◌≡◌, ◌≢◌, sym, ap, ◌∙◌, some, arith}
use swirly.App.MemQueue.{
  Ring, Thread, idle, post_load, post_check, post_cas, post_write, post_commit, fetch_load,
  fetch_check, fetch_cas, fetch_read, fetch_commit, slot, claim_write, write_val, store_seq,
}
use swirly.App.MemQueue.Slots.{apart}
use swirly.App.MemQueue.Safe.{
  RingOk, Writes, Reads, ThreadOk, claim, update_other, capacity_pos, reader_gone,
}

module _ {V : Type 0} (r : Ring V) (ok : RingOk r) where
  -- Positions that two threads have claimed, or one and an unread one, are less than one capacity
  -- apart.
  writers_apart : (p q : ℕ) (v u : V) → Writes r p v → Writes r q u → p ≢ q → slot r p ≢ slot r q
  writers_apart p q v u h k i =
      apart r.capacity p q (capacity_pos r ok) i (omega (arith, h.claimed, k.unread, ok.room))
        (omega (arith, h.unread, k.claimed, ok.room))

  pub reader_apart : (p q : ℕ) → Reads r p → r.rpos ≤ q → q < r.wpos → slot r p ≢ slot r q
  reader_apart p q h lo hi =
      apart r.capacity p q (capacity_pos r ok) (omega (arith, h.claimed)) (omega (arith, h.claimed))
        (omega (arith, h.kept))

  pub readers_apart : (p q : ℕ) → Reads r p → Reads r q → p ≢ q → slot r p ≢ slot r q
  readers_apart p q h k i =
      apart r.capacity p q (capacity_pos r ok) i (omega (arith, h.claimed, k.kept, ok.order))
        (omega (arith, k.claimed, h.kept, ok.order))

  module _ (v : V) (w : ℕ) (at : r.wpos ≡ w) (e : r.seq (slot r w) ≡ w) where
    free : r.seq (slot r r.wpos) ≡ r.wpos
    free = ap (λ n. r.seq (slot r n)) at ∙ e ∙ sym at

    claim_write-Reads : (p : ℕ) → Reads r p → Reads (claim_write v w r) p
    unfolding claim_write
    claim_write-Reads p h = record {
      claimed = h.claimed;
      kept = omega (arith, reader_gone r ok p free h);
      own_seq = h.own_seq;
    }

    claim_write-sent : (p : ℕ) → p < r.wpos → (claim_write v w r).sent p ≡ r.sent p
    unfolding claim_write
    claim_write-sent p h = update_other r.sent w v p (omega arith)

    claim_write-Writes : (p : ℕ) (u : V) → Writes r p u → Writes (claim_write v w r) p u
    unfolding claim_write
    claim_write-Writes p u h = record {
      claimed = omega (arith, h.claimed);
      unread = h.unread;
      own_seq = h.own_seq;
      own_sent = update_other r.sent w v p (omega (arith, h.claimed)) ∙ h.own_sent;
    }

    pub claim_write-keeps : (pc : Thread V) → ThreadOk r pc → ThreadOk (claim_write v w r) pc
    unfolding claim_write
    claim_write-keeps (idle b) t = tt
    claim_write-keeps (post_load u) t = tt
    claim_write-keeps (post_check u p) t = tt
    claim_write-keeps (post_cas u p) t = λ le. t (omega arith)
    claim_write-keeps (post_write u p) t = claim_write-Writes p u t
    claim_write-keeps (post_commit u p) t = (claim_write-Writes p u t.0, t.1)
    claim_write-keeps fetch_load t = tt
    claim_write-keeps (fetch_check p) t = tt
    claim_write-keeps (fetch_cas p) t = λ le. ((t le).0, omega (arith, (t le).1))
    claim_write-keeps (fetch_read p) t = (
      claim_write-Reads p t.0,
      t.1 ∙ sym (claim_write-sent p (omega (arith, t.0.claimed, ok.order))),
    )
    claim_write-keeps (fetch_commit p x) t = (
      claim_write-Reads p t.0,
      t.1 ∙ sym (claim_write-sent p (omega (arith, t.0.claimed, ok.order))),
    )

  module _ (v : V) (w : ℕ) (h : Writes r w v) where
    write_val-same :
        (p : ℕ) → slot r w ≢ slot r p → (write_val v w r).val (slot r p) ≡ r.val (slot r p)
    unfolding write_val
    write_val-same p i = update_other r.val (slot r w) v (slot r p) i

    write_val-Writes : (p : ℕ) (u : V) → Writes r p u → Writes (write_val v w r) p u
    unfolding write_val
    write_val-Writes p u k = record {
      claimed = k.claimed;
      unread = k.unread;
      own_seq = k.own_seq;
      own_sent = k.own_sent;
    }

    write_val-Reads : (p : ℕ) → Reads r p → Reads (write_val v w r) p
    unfolding write_val
    write_val-Reads p k = record { claimed = k.claimed; kept = k.kept; own_seq = k.own_seq }

    pub write_val-keeps :
        (pc : Thread V) → claim pc ≢ some w → ThreadOk r pc → ThreadOk (write_val v w r) pc
    unfolding write_val
    write_val-keeps (idle b) i t = tt
    write_val-keeps (post_load u) i t = tt
    write_val-keeps (post_check u p) i t = tt
    write_val-keeps (post_cas u p) i t = t
    write_val-keeps (post_write u p) i t = write_val-Writes p u t
    write_val-keeps (post_commit u p) i t = (
      write_val-Writes p u t.0,
      write_val-same p (writers_apart w p v u h t.0 (λ q. i (ap some (sym q)))) ∙ t.1,
    )
    write_val-keeps fetch_load i t = tt
    write_val-keeps (fetch_check p) i t = tt
    write_val-keeps (fetch_cas p) i t = t
    write_val-keeps (fetch_read p) i t = (
      write_val-Reads p t.0,
      write_val-same p (λ q. reader_apart p w t.0 h.unread h.claimed (sym q)) ∙ t.1,
    )
    write_val-keeps (fetch_commit p x) i t = (write_val-Reads p t.0, t.1)

    commit_write-seq :
        (p : ℕ) → slot r w ≢ slot r p → (store_seq w (w + 1) r).seq (slot r p) ≡ r.seq (slot r p)
    unfolding store_seq
    commit_write-seq p i = update_other r.seq (slot r w) (w + 1) (slot r p) i

    commit_write-Writes :
        (p : ℕ) (u : V) → w ≢ p → Writes r p u → Writes (store_seq w (w + 1) r) p u
    unfolding store_seq
    commit_write-Writes p u i k = record {
      claimed = k.claimed;
      unread = k.unread;
      own_seq = commit_write-seq p (writers_apart w p v u h k i) ∙ k.own_seq;
      own_sent = k.own_sent;
    }

    commit_write-Reads : (p : ℕ) → Reads r p → Reads (store_seq w (w + 1) r) p
    unfolding store_seq
    commit_write-Reads p k = record {
      claimed = k.claimed;
      kept = k.kept;
      own_seq = commit_write-seq p (λ q. reader_apart p w k h.unread h.claimed (sym q)) ∙ k.own_seq;
    }

    pub commit_write-keeps :
        (pc : Thread V) → claim pc ≢ some w → ThreadOk r pc → ThreadOk (store_seq w (w + 1) r) pc
    unfolding store_seq
    commit_write-keeps (idle b) i t = tt
    commit_write-keeps (post_load u) i t = tt
    commit_write-keeps (post_check u p) i t = tt
    commit_write-keeps (post_cas u p) i t = λ le.
        commit_write-seq p (λ q. omega (arith, h.claimed, h.own_seq, ap r.seq q, t le, le)) ∙ t le
    commit_write-keeps (post_write u p) i t = commit_write-Writes p u (λ q. i (ap some (sym q))) t
    commit_write-keeps (post_commit u p) i t =
        (commit_write-Writes p u (λ q. i (ap some (sym q))) t.0, t.1)
    commit_write-keeps fetch_load i t = tt
    commit_write-keeps (fetch_check p) i t = tt
    commit_write-keeps (fetch_cas p) i t = λ le.
        let (q, lt) = t le in
        let ne : w ≢ p =
          λ same. omega (arith, h.own_seq, ap (λ n. r.seq (slot r n)) same, same, q) in
        let far =
          apart r.capacity w p (capacity_pos r ok) ne (omega (arith, h.claimed, le, ok.room))
            (omega (arith, h.unread, lt, ok.room)) in
        (commit_write-seq p far ∙ q, lt)
    commit_write-keeps (fetch_read p) i t = (commit_write-Reads p t.0, t.1)
    commit_write-keeps (fetch_commit p x) i t = (commit_write-Reads p t.0, t.1)
