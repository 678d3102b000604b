-- ===== src/App/MemQueue/Fetches.antt =====
-- Every access of a thread in `fetch` keeps the system sound.
use swirly.Base.{
  ℕ, ◌+◌, ◌<◌, ◌≡◌, ◌≢◌, refl, sym, ap, ◌∙◌, inl, inr, Bool, true, false, not, ◌&&◌, some, ◌∷◌, ltb,
  ◌==◌, arith, Bool-cases,
}
use mathlib.Core.Path.{subst}
use swirly.App.MemQueue.{
  Thread, System, idle, post_load, post_check, post_cas, post_write, post_commit, fetch_load,
  fetch_check, fetch_cas, fetch_read, fetch_commit, slot, store_seq, claim_read, run_at,
}
use swirly.App.MemQueue.Safe.{claim, claim_read-RingOk, commit_read-RingOk}
use swirly.App.MemQueue.KeepRead.{claim_read-keeps, commit_read-keeps}
use swirly.App.MemQueue.Moves.{
  Pending, IsSafe, moved, moved_free, not_claimed, TakenOk-mono, TakenOk-NotTaken,
}
use swirly.App.MemQueue.Posts.{here, others_differ}

module _ {V : Type 0} (s : System V) (safe : IsSafe s) (t : ℕ) where
  pub fetch_load-IsSafe : (weak : Bool) → IsSafe (run_at t weak fetch_load s)
  unfolding run_at
  fetch_load-IsSafe weak = moved_free s safe t (fetch_check s.ring.rpos) refl tt tt

  pub fetch_check-IsSafe : (weak : Bool) (p : ℕ) → IsSafe (run_at t weak (fetch_check p) s)
  unfolding run_at
  fetch_check-IsSafe weak p = elim (Bool-cases (s.ring.seq (slot s.ring p) == p + 1)) [
    | inl ready ↦
        rw ready (moved_free s safe t (fetch_cas p) refl (λ le. ready_now (ground arith)) tt)
    | inr other ↦ elim (Bool-cases (ltb (s.ring.seq (slot s.ring p)) (p + 1))) [
      | inl empty ↦ rw (other, empty) (moved_free s safe t (idle false) refl tt tt)
      | inr stale ↦ rw (other, stale) (moved_free s safe t fetch_load refl tt tt)
    ]
  ]
    where
      ready_now :
          s.ring.seq (slot s.ring p) ≡ p + 1
          → (s.ring.seq (slot s.ring p) ≡ p + 1) × (p < s.ring.wpos)
      ready_now e = elim (Bool-cases (ltb p s.ring.wpos)) [
        | inl lt ↦ (e, ground arith)
        | inr ge ↦ omega (arith, safe.ring_ok.ahead p (ground arith), e)
      ]

  pub fetch_cas-IsSafe :
      (weak : Bool) (p : ℕ) → s.at t ≡ fetch_cas p → IsSafe (run_at t weak (fetch_cas p) s)
  unfolding run_at claim_read
  fetch_cas-IsSafe weak p e = elim (Bool-cases (not weak && s.ring.rpos == p)) [
    | inr lost ↦ rw lost (moved_free s safe t (fetch_check s.ring.rpos) refl tt tt)
    | inl won ↦
        let at : s.ring.rpos ≡ p = ground arith in
        let (ready, lt) = here s safe t (fetch_cas p) e (omega arith) in
        rw won (
          moved s safe t (fetch_read p) (claim_read p s.ring) s.taken (record {
            ring_ok = claim_read-RingOk s.ring safe.ring_ok p at lt;
            own = (
              record {
                claimed = omega arith;
                kept = omega (arith, safe.ring_ok.room, at);
                own_seq = ready;
              },
              written ready lt at,
            );
            others =
                λ u i. claim_read-keeps s.ring safe.ring_ok p at ready (s.at u) (safe.threads u);
            distinct =
                λ u q i c d. not_claimed s.ring (s.at u) p (safe.threads u) at ready (d ∙ sym c);
            taken_ok =
                TakenOk-mono s.ring (claim_read p s.ring) s.taken
                  (λ q older. (omega (arith, older, at), refl)) safe.taken_ok;
            once = safe.once;
            own_pending = TakenOk-NotTaken s.ring p s.taken (omega (arith, at)) safe.taken_ok;
            pending = λ u i. safe.pending u;
          }))
  ]
    where
      written :
          s.ring.seq (slot s.ring p) ≡ p + 1
          → p < s.ring.wpos
          → s.ring.rpos ≡ p
          → s.ring.val (slot s.ring p) ≡ s.ring.sent p
      written ready lt at = elim (safe.ring_ok.slots p (omega (arith, at)) lt) [
        | inl unwritten ↦ absurd (omega (arith, ready, unwritten))
        | inr full ↦ full.1
      ]

  pub fetch_read-IsSafe :
      (weak : Bool) (p : ℕ) → s.at t ≡ fetch_read p → IsSafe (run_at t weak (fetch_read p) s)
  unfolding run_at
  fetch_read-IsSafe weak p e =
      let h = here s safe t (fetch_read p) e in
      moved s safe t (fetch_commit p (s.ring.val (slot s.ring p))) s.ring s.taken (record {
        ring_ok = safe.ring_ok;
        own = h;
        others = λ u i. safe.threads u;
        distinct = λ u q i c d. others_differ s safe t (fetch_read p) p e refl u i (d ∙ sym c);
        taken_ok = safe.taken_ok;
        once = safe.once;
        own_pending = subst (Pending s.taken) e (safe.pending t);
        pending = λ u i. safe.pending u;
      })

  -- What another thread has claimed is not what this one gives.
  still-Pending :
      (p : ℕ) (x : V) (pc : Thread V)
      → claim pc ≢ some p
      → Pending s.taken pc
      → Pending ((p, x) ∷ s.taken) pc
  still-Pending p x (idle b) i h = tt
  still-Pending p x (post_load u) i h = tt
  still-Pending p x (post_check u q) i h = tt
  still-Pending p x (post_cas u q) i h = tt
  still-Pending p x (post_write u q) i h = tt
  still-Pending p x (post_commit u q) i h = tt
  still-Pending p x fetch_load i h = tt
  still-Pending p x (fetch_check q) i h = tt
  still-Pending p x (fetch_cas q) i h = tt
  still-Pending p x (fetch_read q) i h = ((λ same. i (ap some (sym same))), h)
  still-Pending p x (fetch_commit q y) i h = ((λ same. i (ap some (sym same))), h)

  pub fetch_commit-IsSafe :
      (weak : Bool) (p : ℕ) (x : V)
      → s.at t ≡ fetch_commit p x
      → IsSafe (run_at t weak (fetch_commit p x) s)
  unfolding run_at store_seq
  fetch_commit-IsSafe weak p x e =
      let h = here s safe t (fetch_commit p x) e in
      let next_seq = p + s.ring.capacity in
      moved s safe t (idle true) (store_seq p next_seq s.ring) ((p, x) ∷ s.taken) (record {
        ring_ok = commit_read-RingOk s.ring safe.ring_ok p h.0;
        own = tt;
        others = λ u i.
            commit_read-keeps s.ring safe.ring_ok p h.0 (s.at u)
              (others_differ s safe t (fetch_commit p x) p e refl u i) (safe.threads u);
        distinct = λ u q i c d. cc c;
        taken_ok = (
          h.0.claimed,
          h.1,
          TakenOk-mono s.ring (store_seq p next_seq s.ring) s.taken (λ q lt. (lt, refl))
              safe.taken_ok,
        );
        once = (subst (Pending s.taken) e (safe.pending t), safe.once);
        own_pending = tt;
        pending = λ u i.
            still-Pending p x (s.at u) (others_differ s safe t (fetch_commit p x) p e refl u i)
              (safe.pending u);
      })
