-- ===== src/App/MemQueue/Accesses.antt =====
-- The last accesses of a call of a thread that is left alone.
use swirly.Base.{ℕ, suc, zero, ◌≡◌, sym, Bool, true, false, ◌==◌, arith}
use mathlib.Core.Path.{subst}
use swirly.App.MemQueue.{
  Thread, System, run, idle, post_cas, post_write, post_commit, fetch_cas, fetch_read, fetch_commit,
  move, run_at, next,
}
use swirly.App.MemQueue.Safe.{update_own}

module _ {V : Type 0} where
  -- Some accesses of one thread, none of which fails for no reason.
  pub run_for : ℕ → ℕ → System V → System V
  run_for zero t s = s
  run_for (suc n) t s = run_for n t (next (run t false) s)

  abbrev pub Ends : ℕ → ℕ → System V → Type 0
  Ends n t s = (b : Bool) × ((run_for n t s).at t ≡ idle b)

  module _ (t : ℕ) where
    pub one :
        (n : ℕ) (s : System V) (pc : Thread V)
        → s.at t ≡ pc
        → Ends n t (run_at t false pc s)
        → Ends (suc n) t s
    unfolding run_for next
    one n s pc e h = subst (λ x. Ends n t (run_at t false x s)) (sym e) h

    pub moved_at : (s : System V) (pc : Thread V) → (move t pc s).at t ≡ pc
    moved_at s pc = update_own s.at t pc

    pub idle-Ends : (n : ℕ) (s : System V) (b : Bool) → s.at t ≡ idle b → Ends n t s
    unfolding run_for run_at
    idle-Ends zero s b e = (b, e)
    idle-Ends (suc n) s b e = one n s (idle b) e (idle-Ends n s b e)

    pub post_commit-Ends :
        (n : ℕ) (s : System V) (v : V) (w : ℕ) → s.at t ≡ post_commit v w → Ends (suc n) t s
    unfolding run_at
    post_commit-Ends n s v w e =
        one n s (post_commit v w) e (idle-Ends n _ true (update_own s.at t (idle true)))

    pub post_write-Ends :
        (n : ℕ) (s : System V) (v : V) (w : ℕ) → s.at t ≡ post_write v w → Ends (suc (suc n)) t s
    unfolding run_at
    post_write-Ends n s v w e =
        one (suc n) s (post_write v w) e
          (post_commit-Ends n _ v w (update_own s.at t (post_commit v w)))

    pub fetch_commit-Ends :
        (n : ℕ) (s : System V) (p : ℕ) (x : V) → s.at t ≡ fetch_commit p x → Ends (suc n) t s
    unfolding run_at
    fetch_commit-Ends n s p x e =
        one n s (fetch_commit p x) e (idle-Ends n _ true (update_own s.at t (idle true)))

    pub fetch_read-Ends :
        (n : ℕ) (s : System V) (p : ℕ) → s.at t ≡ fetch_read p → Ends (suc (suc n)) t s
    unfolding run_at
    fetch_read-Ends n s p e =
        one (suc n) s (fetch_read p) e
          (fetch_commit-Ends n _ p _ (update_own s.at t (fetch_commit p _)))

    -- A compare-and-exchange that is not overtaken succeeds.
    pub post_cas-Ends :
        (n : ℕ) (s : System V) (v : V) (w : ℕ)
        → s.at t ≡ post_cas v w
        → s.ring.wpos ≡ w
        → Ends (suc (suc (suc n))) t s
    unfolding run_at
    post_cas-Ends n s v w e same =
        let hit : (s.ring.wpos == w) ≡ true = ground arith in
        one (suc (suc n)) s (post_cas v w) e
          (rw hit (post_write-Ends n _ v w (update_own s.at t (post_write v w))))

    pub fetch_cas-Ends :
        (n : ℕ) (s : System V) (p : ℕ)
        → s.at t ≡ fetch_cas p
        → s.ring.rpos ≡ p
        → Ends (suc (suc (suc n))) t s
    unfolding run_at
    fetch_cas-Ends n s p e same =
        let hit : (s.ring.rpos == p) ≡ true = ground arith in
        one (suc (suc n)) s (fetch_cas p) e
          (rw hit (fetch_read-Ends n _ p (update_own s.at t (fetch_read p))))
