-- ===== src/App/MemQueue/Posts.antt =====
-- Every access of a thread in `post` keeps the system sound.
use swirly.Base.{
  ℕ, ◌+◌, ◌<◌, ◌≡◌, ◌≢◌, refl, sym, ap, ◌∙◌, inl, inr, Bool, true, false, not, ◌&&◌, some, ltb,
  ◌==◌, arith, Bool-cases,
}
use mathlib.Core.Path.{subst}
use swirly.App.MemQueue.{
  Thread, System, idle, post_load, post_check, post_cas, post_write, post_commit, slot, claim_write,
  write_val, store_seq, run_at,
}
use swirly.App.MemQueue.Safe.{
  Writes, ThreadOk, claim, update_other, update_own, claim_write-RingOk, write_val-RingOk,
  commit_write-RingOk,
}
use swirly.App.MemQueue.Keep.{claim_write-keeps, write_val-keeps, commit_write-keeps}
use swirly.App.MemQueue.Moves.{IsSafe, moved, moved_free, other_claims, claimed_lt, TakenOk-mono}

module _ {V : Type 0} (s : System V) (safe : IsSafe s) (t : ℕ) where
  -- What the thread has, and its claim, at the place where it stands.
  pub here : (pc : Thread V) → s.at t ≡ pc → ThreadOk s.ring pc
  here pc e = subst (ThreadOk s.ring) e (safe.threads t)

  pub others_differ :
      (pc : Thread V) (p : ℕ)
      → s.at t ≡ pc
      → claim pc ≡ some p
      → (u : ℕ) → t ≢ u
      → claim (s.at u) ≢ some p
  others_differ pc p e c = other_claims s safe t p (ap claim e ∙ c)

  pub post_load-IsSafe : (weak : Bool) (v : V) → IsSafe (run_at t weak (post_load v) s)
  unfolding run_at
  post_load-IsSafe weak v = moved_free s safe t (post_check v s.ring.wpos) refl tt tt

  pub post_check-IsSafe : (weak : Bool) (v : V) (w : ℕ) → IsSafe (run_at t weak (post_check v w) s)
  unfolding run_at
  post_check-IsSafe weak v w = elim (Bool-cases (s.ring.seq (slot s.ring w) == w)) [
    | inl ready ↦ rw ready (moved_free s safe t (post_cas v w) refl (λ le. ground arith) tt)
    | inr other ↦ elim (Bool-cases (ltb (s.ring.seq (slot s.ring w)) w)) [
      | inl full ↦ rw (other, full) (moved_free s safe t (idle false) refl tt tt)
      | inr stale ↦ rw (other, stale) (moved_free s safe t (post_load v) refl tt tt)
    ]
  ]

  pub post_cas-IsSafe :
      (weak : Bool) (v : V) (w : ℕ)
      → s.at t ≡ post_cas v w
      → IsSafe (run_at t weak (post_cas v w) s)
  unfolding run_at
  post_cas-IsSafe weak v w e = elim (Bool-cases (not weak && s.ring.wpos == w)) [
    | inr lost ↦ rw lost (moved_free s safe t (post_check v s.ring.wpos) refl tt tt)
    | inl won ↦
        let at : s.ring.wpos ≡ w = ground arith in
        let free = here (post_cas v w) e (omega arith) in
        let keeps = claim_write-keeps s.ring safe.ring_ok v w at free in
        rw won (
          moved s safe t (post_write v w) (claim_write v w s.ring) s.taken (record {
            ring_ok = claim_write-RingOk s.ring safe.ring_ok v w at free;
            own = claimed at free;
            others = λ u i. keeps (s.at u) (safe.threads u);
            distinct = λ u p i c d.
                let same : w ≡ p = cc c in
                omega
                  (arith, claimed_lt s.ring safe.ring_ok (s.at u) p (safe.threads u) d, at, same);
            taken_ok =
                TakenOk-mono s.ring (claim_write v w s.ring) s.taken (λ p lt. (older p at lt))
                  safe.taken_ok;
            once = safe.once;
            own_pending = tt;
            pending = λ u i. safe.pending u;
          }))
  ]
    where
      claimed :
          s.ring.wpos ≡ w → s.ring.seq (slot s.ring w) ≡ w → Writes (claim_write v w s.ring) w v
      claimed at free =
          unfold claim_write in
          record {
            claimed = omega arith;
            unread = omega (arith, safe.ring_ok.order);
            own_seq = free;
            own_sent = update_own s.ring.sent w v;
          }

      older :
          (p : ℕ)
          → s.ring.wpos ≡ w
          → p < s.ring.rpos
          → (p < (claim_write v w s.ring).rpos) × ((claim_write v w s.ring).sent p ≡ s.ring.sent p)
      older p at lt =
          unfold claim_write in
          (lt, update_other s.ring.sent w v p (omega (arith, safe.ring_ok.order)))

  pub post_write-IsSafe :
      (weak : Bool) (v : V) (w : ℕ)
      → s.at t ≡ post_write v w
      → IsSafe (run_at t weak (post_write v w) s)
  unfolding run_at write_val
  post_write-IsSafe weak v w e =
      let h = here (post_write v w) e in
      moved s safe t (post_commit v w) (write_val v w s.ring) s.taken (record {
        ring_ok = write_val-RingOk s.ring safe.ring_ok v w h;
        own = (
          record {
            claimed = h.claimed;
            unread = h.unread;
            own_seq = h.own_seq;
            own_sent = h.own_sent;
          },
          update_own s.ring.val (slot s.ring w) v,
        );
        others = λ u i.
            write_val-keeps s.ring safe.ring_ok v w h (s.at u)
              (others_differ (post_write v w) w e refl u i) (safe.threads u);
        distinct = λ u p i c d. others_differ (post_write v w) w e refl u i (d ∙ sym c);
        taken_ok =
            TakenOk-mono s.ring (write_val v w s.ring) s.taken (λ p lt. (lt, refl)) safe.taken_ok;
        once = safe.once;
        own_pending = tt;
        pending = λ u i. safe.pending u;
      })

  pub post_commit-IsSafe :
      (weak : Bool) (v : V) (w : ℕ)
      → s.at t ≡ post_commit v w
      → IsSafe (run_at t weak (post_commit v w) s)
  unfolding run_at store_seq
  post_commit-IsSafe weak v w e =
      let h = here (post_commit v w) e in
      moved s safe t (idle true) (store_seq w (w + 1) s.ring) s.taken (record {
        ring_ok = commit_write-RingOk s.ring safe.ring_ok v w h.0 h.1;
        own = tt;
        others = λ u i.
            commit_write-keeps s.ring safe.ring_ok v w h.0 (s.at u)
              (others_differ (post_commit v w) w e refl u i) (safe.threads u);
        distinct = λ u p i c d. cc c;
        taken_ok =
            TakenOk-mono s.ring (store_seq w (w + 1) s.ring) s.taken (λ p lt. (lt, refl))
              safe.taken_ok;
        once = safe.once;
        own_pending = tt;
        pending = λ u i. safe.pending u;
      })
