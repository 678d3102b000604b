-- ===== src/App/MemQueue/Moves.antt =====
-- What a move of one thread has to show for the whole system to stay sound.
use swirly.Base.{
  ℕ, ◌+◌, ◌<◌, ◌≤◌, ◌≡◌, ◌≢◌, sym, ap, ◌∙◌, inl, inr, none, some, List, [], ◌∷◌, ◌==◌, arith,
  Bool-cases,
}
use swirly.App.MemQueue.{
  Ring, Thread, System, idle, post_load, post_check, post_cas, post_write, post_commit, fetch_load,
  fetch_check, fetch_cas, fetch_read, fetch_commit, update, slot, move, when_idle,
}
use swirly.App.MemQueue.Safe.{RingOk, ThreadOk, claim}

module _ {V : Type 0} where
  -- What was fetched at a position: the value that its post had to write there, once.
  abbrev pub TakenOk : Ring V → List (ℕ × V) → Type 0
  TakenOk r [] = Unit {0}
  TakenOk r ((p, x) ∷ l) = (p < r.rpos) × (x ≡ r.sent p) × TakenOk r l

  abbrev pub NotTaken : ℕ → List (ℕ × V) → Type 0
  NotTaken p [] = Unit {0}
  NotTaken p ((q, x) ∷ l) = (q ≢ p) × NotTaken p l

  abbrev pub Once : List (ℕ × V) → Type 0
  Once [] = Unit {0}
  Once ((p, x) ∷ l) = NotTaken p l × Once l

  -- A thread that has claimed a position to read has not given it yet.
  abbrev pub Pending : List (ℕ × V) → Thread V → Type 0
  Pending l (fetch_read p) = NotTaken p l
  Pending l (fetch_commit p x) = NotTaken p l
  Pending l _ = Unit {0}

  pub record IsSafe (s : System V) : Type 0 where
    pub ring_ok : RingOk s.ring
    pub threads : (t : ℕ) → ThreadOk s.ring (s.at t)
    pub alone : (t u p : ℕ) → claim (s.at t) ≡ some p → claim (s.at u) ≡ some p → t ≡ u
    pub taken_ok : TakenOk s.ring s.taken
    pub once : Once s.taken
    pub pending : (t : ℕ) → Pending s.taken (s.at t)

  -- A call that is made while another runs changes nothing.
  pub when_idle-either :
      (P : System V → Type 0) (pc : Thread V) (started s : System V)
      → P started
      → P s
      → P (when_idle pc started s)
  when_idle-either P (idle b) started s a b' = a
  when_idle-either P (post_load v) started s a b = b
  when_idle-either P (post_check v w) started s a b = b
  when_idle-either P (post_cas v w) started s a b = b
  when_idle-either P (post_write v w) started s a b = b
  when_idle-either P (post_commit v w) started s a b = b
  when_idle-either P fetch_load started s a b = b
  when_idle-either P (fetch_check p) started s a b = b
  when_idle-either P (fetch_cas p) started s a b = b
  when_idle-either P (fetch_read p) started s a b = b
  when_idle-either P (fetch_commit p x) started s a b = b

  pointwise :
      (P : Thread V → Type 0) (f : ℕ → Thread V) (t : ℕ) (pc : Thread V) (u : ℕ)
      → (t ≡ u → P pc)
      → (t ≢ u → P (f u))
      → P (update f t pc u)
  pointwise P f t pc u own other = elim (Bool-cases (t == u)) [
    | inl e ↦ rw e (own (ground arith))
    | inr e ↦ rw e (other (ground arith))
  ]

  -- What a move of a thread has to show, the ring and what was taken changing with it.
  pub record Moves (s : System V) (t : ℕ) (pc : Thread V) (r : Ring V) (l : List (ℕ × V))
      : Type 0 where
    pub ring_ok : RingOk r
    pub own : ThreadOk r pc
    pub others : (u : ℕ) → t ≢ u → ThreadOk r (s.at u)
    pub distinct : (u p : ℕ) → t ≢ u → claim pc ≡ some p → claim (s.at u) ≢ some p
    pub taken_ok : TakenOk r l
    pub once : Once l
    pub own_pending : Pending l pc
    pub pending : (u : ℕ) → t ≢ u → Pending l (s.at u)

  module _ (s : System V) (safe : IsSafe s) (t : ℕ) where
    alone_after :
        (pc : Thread V)
        → ((u p : ℕ) → t ≢ u → claim pc ≡ some p → claim (s.at u) ≢ some p)
        → (a b p : ℕ) → claim (update s.at t pc a) ≡ some p
        → claim (update s.at t pc b) ≡ some p
        → a ≡ b
    alone_after pc d a b p =
        pointwise (λ x. claim x ≡ some p → claim (update s.at t pc b) ≡ some p → a ≡ b) s.at t pc a
          (λ ta ca.
            pointwise (λ x. claim x ≡ some p → a ≡ b) s.at t pc b (λ tb cb. sym ta ∙ tb)
              (λ i cb. absurd (d b p i ca cb)))
          (λ i ca.
            pointwise (λ x. claim x ≡ some p → a ≡ b) s.at t pc b (λ _ cb. absurd (d a p i cb ca))
              (λ j cb. safe.alone a b p ca cb))

    pub moved :
        (pc : Thread V) (r : Ring V) (l : List (ℕ × V))
        → Moves s t pc r l
        → IsSafe (record { ring = r; at = update s.at t pc; taken = l })
    moved pc r l m = record {
      ring_ok = m.ring_ok;
      threads = λ u. pointwise (ThreadOk r) s.at t pc u (λ _. m.own) (m.others u);
      alone = alone_after pc m.distinct;
      taken_ok = m.taken_ok;
      once = m.once;
      pending = λ u. pointwise (Pending l) s.at t pc u (λ _. m.own_pending) (m.pending u);
    }

    -- A move that changes nothing that is shared, to a place with no claim.
    pub moved_free :
        (pc : Thread V)
        → claim pc ≡ none
        → ThreadOk s.ring pc
        → Pending s.taken pc
        → IsSafe (move t pc s)
    moved_free pc none_claimed own own_pending = moved pc s.ring s.taken (record {
      ring_ok = safe.ring_ok;
      own = own;
      others = λ u i. safe.threads u;
      distinct = λ u p i c. absurd (cc (none_claimed, c));
      taken_ok = safe.taken_ok;
      once = safe.once;
      own_pending = own_pending;
      pending = λ u i. safe.pending u;
    })

    -- No other thread has the claim of this one.
    pub other_claims : (p : ℕ) → claim (s.at t) ≡ some p → (u : ℕ) → t ≢ u → claim (s.at u) ≢ some p
    other_claims p c u i d = i (safe.alone t u p c d)

  pub claimed_lt :
      (r : Ring V) (ok : RingOk r) (pc : Thread V) (p : ℕ)
      → ThreadOk r pc
      → claim pc ≡ some p
      → p < r.wpos
  claimed_lt r ok (idle b) p t c = absurd (cc c)
  claimed_lt r ok (post_load u) p t c = absurd (cc c)
  claimed_lt r ok (post_check u q) p t c = absurd (cc c)
  claimed_lt r ok (post_cas u q) p t c = absurd (cc c)
  claimed_lt r ok (post_write u q) p t c = let e : q ≡ p = cc c in rw (← e) t.claimed
  claimed_lt r ok (post_commit u q) p t c = let e : q ≡ p = cc c in rw (← e) t.0.claimed
  claimed_lt r ok fetch_load p t c = absurd (cc c)
  claimed_lt r ok (fetch_check q) p t c = absurd (cc c)
  claimed_lt r ok (fetch_cas q) p t c = absurd (cc c)
  claimed_lt r ok (fetch_read q) p t c =
      let e : q ≡ p = cc c in rw (← e) (omega (arith, t.0.claimed, ok.order))
  claimed_lt r ok (fetch_commit q x) p t c =
      let e : q ≡ p = cc c in rw (← e) (omega (arith, t.0.claimed, ok.order))

  -- A position that is ready to be fetched is claimed by no thread yet.
  pub not_claimed :
      (r : Ring V) (pc : Thread V) (p : ℕ)
      → ThreadOk r pc
      → r.rpos ≡ p
      → r.seq (slot r p) ≡ p + 1
      → claim pc ≢ some p
  not_claimed r (idle b) p t at e c = cc c
  not_claimed r (post_load u) p t at e c = cc c
  not_claimed r (post_check u q) p t at e c = cc c
  not_claimed r (post_cas u q) p t at e c = cc c
  not_claimed r (post_write u q) p t at e c =
      let i : q ≡ p = cc c in omega (arith, t.own_seq, ap (λ n. r.seq (slot r n)) i, i, e)
  not_claimed r (post_commit u q) p t at e c =
      let i : q ≡ p = cc c in omega (arith, t.0.own_seq, ap (λ n. r.seq (slot r n)) i, i, e)
  not_claimed r fetch_load p t at e c = cc c
  not_claimed r (fetch_check q) p t at e c = cc c
  not_claimed r (fetch_cas q) p t at e c = cc c
  not_claimed r (fetch_read q) p t at e c =
      let i : q ≡ p = cc c in omega (arith, t.0.claimed, i, at)
  not_claimed r (fetch_commit q x) p t at e c =
      let i : q ≡ p = cc c in omega (arith, t.0.claimed, i, at)

  pub TakenOk-mono :
      (r r' : Ring V) (l : List (ℕ × V))
      → ((p : ℕ) → p < r.rpos → (p < r'.rpos) × (r'.sent p ≡ r.sent p))
      → TakenOk r l
      → TakenOk r' l
  TakenOk-mono r r' [] h t = tt
  TakenOk-mono r r' ((p, x) ∷ l) h (lt, e, t) =
      let (lt', e') = h p lt in (lt', e ∙ sym e', TakenOk-mono r r' l h t)

  pub TakenOk-NotTaken :
      (r : Ring V) (p : ℕ) (l : List (ℕ × V)) → r.rpos ≤ p → TakenOk r l → NotTaken p l
  TakenOk-NotTaken r p [] h t = tt
  TakenOk-NotTaken r p ((q, x) ∷ l) h (lt, e, t) =
      ((λ i. omega (arith, lt, h, i)), TakenOk-NotTaken r p l h t)
