-- ===== src/Util/RingBuffer/Bounded.antt =====
-- The ring buffer implements a list of at most as many values as its capacity.
use swirly.Base.{
  ℕ, zero, suc, ◌+◌, ◌-◌, ◌%◌, ◌<◌, ◌≤◌, ◌≡◌, refl, sym, ap, ◌∙◌, inl, inr, true, false, List, [],
  ◌∷◌, ◌++◌, length, drop, ◌==◌, ltb, if◌then◌else◌, arith, Bool-cases,
}
use swirly.App.MemQueue.Slots.{apart}
use swirly.Util.RingBuffer.{RingBuffer, size, full, front, pop, store, push}

module _ {V : Type 0} where
  -- The values from a position on.
  abbrev pub values : (ℕ → V) → ℕ → ℕ → ℕ → List V
  values buf capacity pos zero = []
  values buf capacity pos (suc n) = buf (pos % capacity) ∷ values buf capacity (suc pos) n

  -- The abstract buffer.
  abbrev pub contents : RingBuffer V → List V
  contents r = values r.buf r.capacity r.rpos (size r)

  pub record IsValid (r : RingBuffer V) : Type 0 where
    pub some_room : 0 < r.capacity
    pub order : r.rpos ≤ r.wpos
    pub room : r.wpos ≤ r.rpos + r.capacity

  -- The last values of a list, at most as many as the capacity, of which the list has one too many at most.
  abbrev pub keep_last : ℕ → List V → List V
  keep_last capacity xs = if ltb capacity (length xs) then drop 1 xs else xs

  length-values : (buf : ℕ → V) (c pos n : ℕ) → length (values buf c pos n) ≡ n
  length-values buf c pos zero = refl
  length-values buf c pos (suc n) = ap suc (length-values buf c (suc pos) n)

  values-snoc :
      (buf : ℕ → V) (c pos n : ℕ)
      → values buf c pos (suc n) ≡ values buf c pos n ++ buf ((pos + n) % c) ∷ []
  values-snoc buf c pos zero = let e : pos + 0 ≡ pos = omega arith in rw e refl
  values-snoc buf c pos (suc n) =
      let e : suc pos + n ≡ pos + suc n = omega arith in
      ap (λ l. buf (pos % c) ∷ l)
        (values-snoc buf c (suc pos) n ∙ ap (λ i. values buf c (suc pos) n ++ buf (i % c) ∷ []) e)

  -- A store at a position leaves the values of the positions before it, less than one capacity away.
  values-store :
      (v : V) (r : RingBuffer V) (pos n : ℕ)
      → 0 < r.capacity
      → pos + n ≤ r.wpos
      → r.wpos < pos + r.capacity
      → values (store v r).buf r.capacity pos n ≡ values r.buf r.capacity pos n
  values-store v r pos zero hc lo hi = refl
  values-store v r pos (suc n) hc lo hi =
      let far = apart r.capacity pos r.wpos hc (omega arith) (omega arith) hi in
      let other : (pos % r.capacity == r.wpos % r.capacity) ≡ false = ground (arith, far) in
      rw (other, values-store v r (suc pos) n hc (omega arith) (omega arith)) refl

  stored : (v : V) (r : RingBuffer V) → (store v r).buf (r.wpos % r.capacity) ≡ v
  stored v r =
      let own : (r.wpos % r.capacity == r.wpos % r.capacity) ≡ true = ground arith in rw own refl

  -- The store and what it leaves, from a position on that is not a capacity away.
  values-pushed :
      (v : V) (r : RingBuffer V) (pos n : ℕ)
      → 0 < r.capacity
      → pos + n ≡ r.wpos
      → r.wpos < pos + r.capacity
      → values (store v r).buf r.capacity pos (suc n) ≡ values r.buf r.capacity pos n ++ v ∷ []
  values-pushed v r pos n hc e hi =
      values-snoc (store v r).buf r.capacity pos n
      ∙ rw (values-store v r pos n hc (omega (arith, e)) hi, e, stored v r) refl

  append-length : (xs : List V) (v : V) → length (xs ++ v ∷ []) ≡ suc (length xs)
  append-length [] v = refl
  append-length (x ∷ xs) v = ap suc (append-length xs v)

  pushed_roomy :
      (v : V) (r : RingBuffer V)
      → IsValid r
      → full r ≡ false
      → contents (push v r) ≡ keep_last r.capacity (contents r ++ v ∷ [])
  unfolding push
  pushed_roomy v r ok h =
      let n = size r in
      let e : suc r.wpos - r.rpos ≡ suc n = omega (arith, ok.order) in
      let lt : n < r.capacity = ground (arith, h, ok.room, ok.order) in
      let fits : ltb r.capacity (length (contents r ++ v ∷ [])) ≡ false =
        ground (arith, append-length (contents r) v, length-values r.buf r.capacity r.rpos n, lt) in
      rw (h, e, fits)
        (values-pushed v r r.rpos n ok.some_room (omega (arith, ok.order))
          (omega (arith, ok.order, lt)))

  pushed_full :
      (v : V) (r : RingBuffer V)
      → IsValid r
      → full r ≡ true
      → contents (push v r) ≡ keep_last r.capacity (contents r ++ v ∷ [])
  unfolding push
  pushed_full v r ok h =
      let m = r.wpos - suc r.rpos in
      let whole : size r ≡ r.capacity = ground (arith, h) in
      let e : size r ≡ suc m = omega (arith, ok.order, ok.some_room, whole) in
      let e' : suc r.wpos - suc r.rpos ≡ suc m = omega (arith, ok.order, ok.some_room, whole) in
      let over : ltb r.capacity (length (contents r ++ v ∷ [])) ≡ true = ground (
        arith,
        append-length (contents r) v,
        length-values r.buf r.capacity r.rpos (size r),
        whole,
      ) in
      rw (h, e', over)
        (values-pushed v r (suc r.rpos) m ok.some_room
            (omega (arith, ok.order, ok.some_room, whole))
            (omega (arith, ok.order, ok.some_room, whole))
          ∙ ap (λ k. drop 1 (values r.buf r.capacity r.rpos k ++ v ∷ [])) (sym e))

  pushed-IsValid : (v : V) (r : RingBuffer V) → IsValid r → IsValid (push v r)
  unfolding push
  pushed-IsValid v r ok = elim (Bool-cases (full r)) [
    | inl h ↦
        let whole : size r ≡ r.capacity = ground (arith, h) in
        rw h (record {
          some_room = ok.some_room;
          order = omega (arith, ok.some_room, ok.order, whole);
          room = omega (arith, ok.room);
        })
    | inr h ↦
        let lt : size r < r.capacity = ground (arith, h, ok.room, ok.order) in
        rw h (record {
          some_room = ok.some_room;
          order = omega (arith, ok.order);
          room = omega (arith, ok.order, lt);
        })
  ]

  -- In a ring buffer with its positions in order and at most a capacity apart, push adds the
  -- value behind the others and drops the first of them if there was no room, and the positions
  -- stay so.
  pub push-keep_last :
      (v : V) (r : RingBuffer V)
      → IsValid r
      → (contents (push v r) ≡ keep_last r.capacity (contents r ++ v ∷ [])) × IsValid (push v r)
  push-keep_last v r ok = (
    elim (Bool-cases (full r)) [ inl h ↦ pushed_full v r ok h | inr h ↦ pushed_roomy v r ok h ],
    pushed-IsValid v r ok,
  )

  -- pop drops the first value, which is that of front, where the buffer is not empty.
  pop-drop : (r : RingBuffer V) → r.rpos < r.wpos → (contents r ≡ front r ∷ contents (pop r))
  unfolding pop front
  pop-drop r h =
      let e : size r ≡ suc (r.wpos - suc r.rpos) = omega arith in
      ap (values r.buf r.capacity r.rpos) e
