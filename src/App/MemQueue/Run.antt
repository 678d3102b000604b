-- ===== src/App/MemQueue/Run.antt =====
-- Every access of a thread keeps the system sound, so that in every schedule a fetch gives what was
-- posted at its position.
use swirly.Base.{ℕ, ◌≡◌, refl, Bool, List, [], ◌∷◌}
use swirly.App.MemQueue.{
  Thread, System, Event, push, pop, run, idle, post_load, post_check, post_cas, post_write,
  post_commit, fetch_load, fetch_check, fetch_cas, fetch_read, fetch_commit, run_at, next, run_all,
}
use swirly.App.MemQueue.Moves.{IsSafe, when_idle-either, moved_free}
use swirly.App.MemQueue.Posts.{
  post_load-IsSafe, post_check-IsSafe, post_cas-IsSafe, post_write-IsSafe, post_commit-IsSafe,
}
use swirly.App.MemQueue.Fetches.{
  fetch_load-IsSafe, fetch_check-IsSafe, fetch_cas-IsSafe, fetch_read-IsSafe, fetch_commit-IsSafe,
}

module _ {V : Type 0} (s : System V) (safe : IsSafe s) (t : ℕ) where
  run_at-IsSafe : (weak : Bool) (pc : Thread V) → s.at t ≡ pc → IsSafe (run_at t weak pc s)
  run_at-IsSafe weak (idle b) e = unfold run_at in safe
  run_at-IsSafe weak (post_load v) e = post_load-IsSafe s safe t weak v
  run_at-IsSafe weak (post_check v w) e = post_check-IsSafe s safe t weak v w
  run_at-IsSafe weak (post_cas v w) e = post_cas-IsSafe s safe t weak v w e
  run_at-IsSafe weak (post_write v w) e = post_write-IsSafe s safe t weak v w e
  run_at-IsSafe weak (post_commit v w) e = post_commit-IsSafe s safe t weak v w e
  run_at-IsSafe weak fetch_load e = fetch_load-IsSafe s safe t weak
  run_at-IsSafe weak (fetch_check p) e = fetch_check-IsSafe s safe t weak p
  run_at-IsSafe weak (fetch_cas p) e = fetch_cas-IsSafe s safe t weak p e
  run_at-IsSafe weak (fetch_read p) e = fetch_read-IsSafe s safe t weak p e
  run_at-IsSafe weak (fetch_commit p x) e = fetch_commit-IsSafe s safe t weak p x e

module _ {V : Type 0} where
  pub next-IsSafe : (e : Event V) (s : System V) → IsSafe s → IsSafe (next e s)
  unfolding next
  next-IsSafe (push t v) s safe =
      when_idle-either IsSafe (s.at t) _ s
        (moved_free s safe t (post_check v s.ring.wpos) refl tt tt) safe
  next-IsSafe (pop t) s safe =
      when_idle-either IsSafe (s.at t) _ s
        (moved_free s safe t (fetch_check s.ring.rpos) refl tt tt) safe
  next-IsSafe (run t weak) s safe = run_at-IsSafe s safe t weak (s.at t) refl

  pub run_all-IsSafe : (es : List (Event V)) (s : System V) → IsSafe s → IsSafe (run_all es s)
  unfolding run_all
  run_all-IsSafe [] s safe = safe
  run_all-IsSafe (e ∷ es) s safe = run_all-IsSafe es (next e s) (next-IsSafe e s safe)
