-- ===== src/App/MemQueue/Alone.antt =====
-- A thread that is left alone ends its call.
use swirly.Base.{
  ℕ, suc, ◌+◌, ◌≤◌, ◌≡◌, refl, inl, inr, true, false, List, ltb, ltb→lt, ◌==◌, arith, Bool-cases,
}
use mathlib.Core.Path.{subst}
use swirly.App.MemQueue.{
  Thread, System, Event, run, idle, post_load, post_check, post_cas, post_write, post_commit,
  fetch_load, fetch_check, fetch_cas, fetch_read, fetch_commit, slot, run_at, next, run_all,
}
use swirly.Util.Math.{next_pow2}
use swirly.App.MemQueue.Safe.{update_own}
use swirly.App.MemQueue.Moves.{IsSafe}
use swirly.App.MemQueue.Run.{next-IsSafe, run_all-IsSafe}
use swirly.App.MemQueue.Fifo.{start, start-IsSafe}
use swirly.App.MemQueue.Accesses.{
  Ends, one, idle-Ends, post_commit-Ends, post_write-Ends, fetch_commit-Ends, fetch_read-Ends,
  post_cas-Ends, fetch_cas-Ends,
}

module _ {V : Type 0} where
  -- From a position that has just been loaded.
  post_fresh-Ends :
      (n t : ℕ) (s : System V) (v : V)
      → IsSafe s
      → s.at t ≡ post_check v s.ring.wpos
      → Ends (suc (suc (suc (suc n)))) t s
  unfolding run_at
  post_fresh-Ends n t s v safe e =
      let w = s.ring.wpos in
      let q = s.ring.seq (slot s.ring w) in
      let low = safe.ring_ok.ahead w (omega arith) in
      one t (suc (suc (suc n))) s (post_check v w) e (elim (Bool-cases (q == w)) [
        | inl ready ↦ rw ready (post_cas-Ends t n _ v w (update_own s.at t (post_cas v w)) refl)
        | inr other ↦
            let full : ltb q w ≡ true = ground arith in
            rw (other, full)
              (idle-Ends t (suc (suc (suc n))) _ false (update_own s.at t (idle false)))
      ])

  fetch_fresh-Ends :
      (n t : ℕ) (s : System V)
      → IsSafe s
      → s.at t ≡ fetch_check s.ring.rpos
      → Ends (suc (suc (suc (suc n)))) t s
  unfolding run_at
  fetch_fresh-Ends n t s safe e =
      let p = s.ring.rpos in
      let q = s.ring.seq (slot s.ring p) in
      let low = at_rpos s safe in
      one t (suc (suc (suc n))) s (fetch_check p) e (elim (Bool-cases (q == p + 1)) [
        | inl ready ↦ rw ready (fetch_cas-Ends t n _ p (update_own s.at t (fetch_cas p)) refl)
        | inr other ↦
            let empty : ltb q (p + 1) ≡ true = ground arith in
            rw (other, empty)
              (idle-Ends t (suc (suc (suc n))) _ false (update_own s.at t (idle false)))
      ])
    where
      at_rpos : (s : System V) → IsSafe s → s.ring.seq (slot s.ring s.ring.rpos) ≤ s.ring.rpos + 1
      at_rpos s safe = elim (Bool-cases (ltb s.ring.rpos s.ring.wpos)) [
        | inl some_unread ↦
            elim (safe.ring_ok.slots s.ring.rpos (omega arith)
              (ltb→lt s.ring.rpos s.ring.wpos some_unread)) [
                | inl i ↦ omega (arith, i)
                | inr i ↦ omega (arith, i.0)
              ]
        | inr none_unread ↦
            let le : s.ring.wpos ≤ s.ring.rpos = ground arith in
            omega (arith, safe.ring_ok.ahead s.ring.rpos le)
      ]

  -- One access more, of which the next system is sound.
  one_safe :
      (n t : ℕ) (s : System V) (pc : Thread V)
      → IsSafe s
      → s.at t ≡ pc
      → (IsSafe (run_at t false pc s) → Ends n t (run_at t false pc s))
      → Ends (suc n) t s
  one_safe n t s pc safe e h =
      one t n s pc e (h (subst (λ x. IsSafe (run_at t false x s)) e stepped))
    where
      stepped : IsSafe (run_at t false (s.at t) s)
      stepped = unfold next in next-IsSafe (run t false) s safe

  -- From a compare-and-exchange on a position that may have been overtaken,
  post_lost-Ends :
      (n t : ℕ) (s : System V) (v : V) (w : ℕ)
      → IsSafe s
      → s.at t ≡ post_cas v w
      → Ends (suc (suc (suc (suc (suc n))))) t s
  unfolding run_at
  post_lost-Ends n t s v w safe e = elim (Bool-cases (s.ring.wpos == w)) [
    | inl same ↦ post_cas-Ends t (suc (suc n)) s v w e (ground arith)
    | inr overtaken ↦ one_safe (suc (suc (suc (suc n)))) t s (post_cas v w) safe e (
        rw overtaken
          (λ safe'. post_fresh-Ends n t _ v safe' (update_own s.at t (post_check v s.ring.wpos))))
  ]

  fetch_lost-Ends :
      (n t : ℕ) (s : System V) (p : ℕ)
      → IsSafe s
      → s.at t ≡ fetch_cas p
      → Ends (suc (suc (suc (suc (suc n))))) t s
  unfolding run_at
  fetch_lost-Ends n t s p safe e = elim (Bool-cases (s.ring.rpos == p)) [
    | inl same ↦ fetch_cas-Ends t (suc (suc n)) s p e (ground arith)
    | inr overtaken ↦ one_safe (suc (suc (suc (suc n)))) t s (fetch_cas p) safe e (
        rw overtaken
          (λ safe'. fetch_fresh-Ends n t _ safe' (update_own s.at t (fetch_check s.ring.rpos))))
  ]

  -- from the load of the position,
  post_load-Ends :
      (n t : ℕ) (s : System V) (v : V)
      → IsSafe s
      → s.at t ≡ post_load v
      → Ends (suc (suc (suc (suc (suc n))))) t s
  unfolding run_at
  post_load-Ends n t s v safe e =
      one_safe (suc (suc (suc (suc n)))) t s (post_load v) safe e
        (λ safe'. post_fresh-Ends n t _ v safe' (update_own s.at t (post_check v s.ring.wpos)))

  fetch_load-Ends :
      (n t : ℕ) (s : System V)
      → IsSafe s
      → s.at t ≡ fetch_load
      → Ends (suc (suc (suc (suc (suc n))))) t s
  unfolding run_at
  fetch_load-Ends n t s safe e =
      one_safe (suc (suc (suc (suc n)))) t s fetch_load safe e
        (λ safe'. fetch_fresh-Ends n t _ safe' (update_own s.at t (fetch_check s.ring.rpos)))

  -- and from one that was loaded before.
  post_check-Ends :
      (t : ℕ) (s : System V) (v : V) (w : ℕ) → IsSafe s → s.at t ≡ post_check v w → Ends 6 t s
  unfolding run_at
  post_check-Ends t s v w safe e =
      let q = s.ring.seq (slot s.ring w) in
      one_safe 5 t s (post_check v w) safe e (elim (Bool-cases (q == w)) [
        | inl ready ↦
            rw ready (λ safe'. post_lost-Ends 0 t _ v w safe' (update_own s.at t (post_cas v w)))
        | inr other ↦ elim (Bool-cases (ltb q w)) [
          | inl full ↦
              rw (other, full) (λ safe'. idle-Ends t 5 _ false (update_own s.at t (idle false)))
          | inr stale ↦
              rw (other, stale)
                (λ safe'. post_load-Ends 0 t _ v safe' (update_own s.at t (post_load v)))
        ]
      ])

  fetch_check-Ends : (t : ℕ) (s : System V) (p : ℕ) → IsSafe s → s.at t ≡ fetch_check p → Ends 6 t s
  unfolding run_at
  fetch_check-Ends t s p safe e =
      let q = s.ring.seq (slot s.ring p) in
      one_safe 5 t s (fetch_check p) safe e (elim (Bool-cases (q == p + 1)) [
        | inl ready ↦
            rw ready (λ safe'. fetch_lost-Ends 0 t _ p safe' (update_own s.at t (fetch_cas p)))
        | inr other ↦ elim (Bool-cases (ltb q (p + 1))) [
          | inl empty ↦
              rw (other, empty) (λ safe'. idle-Ends t 5 _ false (update_own s.at t (idle false)))
          | inr stale ↦
              rw (other, stale)
                (λ safe'. fetch_load-Ends 0 t _ safe' (update_own s.at t fetch_load))
        ]
      ])

  any-Ends : (t : ℕ) (s : System V) (pc : Thread V) → IsSafe s → s.at t ≡ pc → Ends 6 t s
  any-Ends t s (idle b) safe e = idle-Ends t 6 s b e
  any-Ends t s (post_load v) safe e = post_load-Ends 1 t s v safe e
  any-Ends t s (post_check v w) safe e = post_check-Ends t s v w safe e
  any-Ends t s (post_cas v w) safe e = post_lost-Ends 1 t s v w safe e
  any-Ends t s (post_write v w) safe e = post_write-Ends t 4 s v w e
  any-Ends t s (post_commit v w) safe e = post_commit-Ends t 5 s v w e
  any-Ends t s fetch_load safe e = fetch_load-Ends 1 t s safe e
  any-Ends t s (fetch_check p) safe e = fetch_check-Ends t s p safe e
  any-Ends t s (fetch_cas p) safe e = fetch_lost-Ends 1 t s p safe e
  any-Ends t s (fetch_read p) safe e = fetch_read-Ends t 4 s p e
  any-Ends t s (fetch_commit p x) safe e = fetch_commit-Ends t 5 s p x e

  -- In a queue that is constructed with a capacity of two at least that is a power of two, after
  -- any schedule, a thread that runs alone, with no compare-and-exchange that fails for no
  -- reason, is in no call after six accesses.
  pub alone-Ends :
      (es : List (Event V)) (capacity t : ℕ) (memory : ℕ → V)
      → 2 ≤ capacity
      → next_pow2 capacity ≡ capacity
      → Ends 6 t (run_all es (start capacity memory))
  alone-Ends es capacity t memory two whole =
      any-Ends t _ _ (run_all-IsSafe es _ (start-IsSafe capacity memory two whole)) refl
