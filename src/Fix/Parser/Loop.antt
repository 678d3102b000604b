-- ===== src/Fix/Parser/Loop.antt =====
-- The rounds of the parser: what more bytes behind the buffer, and more fuel, do to them.
use swirly.Base.{
  ℕ, suc, ◌+◌, ◌-◌, ◌^◌, ◌<◌, ◌≤◌, ◌≡◌, ◌≢◌, refl, ap, ◌⊎◌, inl, inr, false, ◌||◌, min, Option,
  none, some, [], ◌∷◌, ◌++◌, ◌==◌, ltb, leb, length, length-append, drop, drop-append, length-drop,
  arith, Bool-cases, Option-cases,
}
use swirly.Fix.Bytes.{Bytes, soh, is_digit}
use swirly.Fix.Parser.{
  FixParser, BodyLen, Parsed, body_digits, body_end, parse_body_len, advance, message_at, and_then,
  after_body_len, frame_len, parse_loop,
}

-- A search for the end of the digits that has ended does not see what is added.
body_digits-append :
    (xs : Bytes) (n : ℕ) (ys : Bytes) (k : ℕ) (rest : Bytes)
    → body_digits n xs ≡ some (k, rest)
    → body_digits n (xs ++ ys) ≡ some (k, rest ++ ys)
unfolding body_digits
body_digits-append [] n ys k rest h = absurd (cc)
body_digits-append (c ∷ cs) n ys k rest h = elim (Bool-cases (is_digit c)) [
  | inl digit ↦ rw digit (body_digits-append cs _ ys k rest (rw digit at h))
  | inr other ↦ rw other (ap (more ys) (rw other at h))
]
  where
    more : Bytes → Option (ℕ × Bytes) → Option (ℕ × Bytes)
    more ys none = none
    more ys (some (m, l)) = some (m, l ++ ys)

body_end-append :
    (a k : ℕ) (rest ys : Bytes) (q : FixParser)
    → body_end a (some (k, rest)) ≡ BodyLen.found q
    → body_end (a + length ys) (some (k, rest ++ ys)) ≡ BodyLen.found q
unfolding body_end
body_end-append a k [] ys q h = absurd (cc)
body_end-append a k (c ∷ cs) ys q h = elim (Bool-cases (c == soh)) [
  | inr other ↦ absurd (ground (arith, h, other))
  | inl done ↦
      let e : a + length ys - length (cs ++ ys) ≡ a - length cs =
        omega (arith, length-append cs ys) in
      rw (done, e) (rw done at h)
]

body_end-none : (a : ℕ) (q : FixParser) → body_end a none ≢ BodyLen.found q
unfolding body_end
body_end-none a q h = cc

body_end-offset :
    (a k : ℕ) (rest : Bytes) (q : FixParser)
    → length rest < a
    → body_end a (some (k, rest)) ≡ BodyLen.found q
    → q.offset ≢ 0
unfolding body_end
body_end-offset a k [] q le h = absurd (cc)
body_end-offset a k (c ∷ cs) q le h = elim (Bool-cases (c == soh)) [
  | inr other ↦ absurd (ground (arith, h, other))
  | inl done ↦ let own = ap offset_of (rw done at h) in λ e. absurd (omega (arith, le, own, e))
]
  where
    offset_of : BodyLen → ℕ
    offset_of (BodyLen.found p) = p.offset
    offset_of b = 0

body_digits-length :
    (xs : Bytes) (n k : ℕ) (rest : Bytes)
    → body_digits n xs ≡ some (k, rest)
    → length rest ≤ length xs
unfolding body_digits
body_digits-length [] n k rest h = absurd (cc)
body_digits-length (c ∷ cs) n k rest h = elim (Bool-cases (is_digit c)) [
  | inl digit ↦ omega (arith, body_digits-length cs _ k rest (rw digit at h))
  | inr other ↦ let e : length (c ∷ cs) ≡ length rest = ap size (rw other at h) in omega (arith, e)
]
  where
    size : Option (ℕ × Bytes) → ℕ
    size none = 0
    size (some (m, l)) = length l

pub parse_body_len-offset :
    (xs : Bytes) (q : FixParser) → parse_body_len xs ≡ BodyLen.found q → q.offset ≢ 0
unfolding parse_body_len
parse_body_len-offset xs q h = elim (Bool-cases (leb (length xs) 12)) [
  | inl short ↦ absurd (ground (arith, h, short))
  | inr long ↦
      let h' : body_end (length xs) (body_digits 0 (drop 12 xs)) ≡ BodyLen.found q = rw long at h in
      elim (Option-cases (body_digits 0 (drop 12 xs))) [
        | inl partial ↦ absurd (body_end-none (length xs) q (rw partial at h'))
        | inr ((k, rest), e) ↦
            let le = body_digits-length (drop 12 xs) 0 k rest e in
            let few = length-drop 12 xs in
            let some_left : 12 < length xs = ground arith in
            body_end-offset (length xs) k rest q (omega (arith, le, few, some_left)) (rw e at h')
      ]
]

pub parse_body_len-append :
    (xs ys : Bytes) (q : FixParser)
    → parse_body_len xs ≡ BodyLen.found q
    → parse_body_len (xs ++ ys) ≡ BodyLen.found q
unfolding parse_body_len
parse_body_len-append xs ys q h = elim (Bool-cases (leb (length xs) 12)) [
  | inl short ↦ absurd (ground (arith, h, short))
  | inr long ↦
      let long' : leb (length (xs ++ ys)) 12 ≡ false = ground (arith, length-append xs ys) in
      let h' : body_end (length xs) (body_digits 0 (drop 12 xs)) ≡ BodyLen.found q = rw long at h in
      elim (Option-cases (body_digits 0 (drop 12 xs))) [
        | inl partial ↦ absurd (body_end-none (length xs) q (rw partial at h'))
        | inr ((k, rest), e) ↦
            rw
              (
                long',
                drop-append 12 xs ys (ground arith),
                body_digits-append (drop 12 xs) 0 ys k rest e,
                length-append xs ys,
              )
              (body_end-append (length xs) k rest ys q (rw e at h'))
      ]
]

pub after_body_len-ext :
    (b : BodyLen) (r s : FixParser → Parsed)
    → ((q : FixParser) → r q ≡ s q)
    → after_body_len b r ≡ after_body_len b s
after_body_len-ext BodyLen.not_yet r s h = refl
after_body_len-ext (BodyLen.found q) r s h = h q
after_body_len-ext BodyLen.invalid r s h = refl

-- A whole message that the buffer holds: it takes some bytes, and its length has not wrapped.
pub record Whole (p : FixParser) (buf : Bytes) : Type 0 where
  pub size : frame_len p ≡ p.offset + p.body_len + 7
  pub fits : frame_len p ≤ length buf
  pub header : 9 ≤ length buf

pub length-advance :
    (p : FixParser) (buf : Bytes) → Whole p buf → length (advance (frame_len p) buf) < length buf
unfolding advance
length-advance p buf w =
    omega (arith, length-drop (min (frame_len p) (length buf)) buf, w.size, w.fits)

pub parse_loop-none : (p : FixParser) (buf : Bytes) → parse_loop 0 p buf ≡ Parsed.undefined
unfolding parse_loop
parse_loop-none p buf = refl

-- The round of a message that the buffer holds.
pub parse_loop-Whole :
    (f : ℕ) (p : FixParser) (buf : Bytes)
    → Whole p buf
    → parse_loop (suc f) p buf
      ≡ and_then (frame_len p) (message_at p buf) (
          after_body_len
            (parse_body_len (advance (frame_len p) buf))
            (λ q. parse_loop f q (advance (frame_len p) buf)))
unfolding parse_loop
parse_loop-Whole f p buf w =
    let full : ltb (length buf) (frame_len p) ≡ false = ground (arith, w.fits) in
    let within : ltb (length buf) (p.offset + p.body_len) || ltb (length buf) 9 ≡ false =
      ground (arith, w.fits, w.size, w.header) in
    rw (full, within) refl

-- How a round goes on: the buffer holds too few bytes, or a read is beyond it, or it holds a message.
pub round_cases :
    (p : FixParser) (buf : Bytes)
    → length buf < 2 ^ 63
    → ((f : ℕ) → parse_loop (suc f) p buf ≡ Parsed.returned 0 p [])
      ⊎ ((f : ℕ) → parse_loop (suc f) p buf ≡ Parsed.undefined)
      ⊎ Whole p buf
unfolding parse_loop
round_cases p buf small = elim (Bool-cases (ltb (length buf) (frame_len p))) [
  | inl part ↦ rw part (inl (λ f. refl))
  | inr full ↦ elim (Bool-cases (ltb (length buf) (p.offset + p.body_len) || ltb (length buf) 9)) [
    | inl beyond ↦ rw (full, beyond) (inr (inl (λ f. refl)))
    | inr within ↦ inr (
        inr (record {
          size = ground (arith, small, within);
          fits = ground (arith, full);
          header = ground (arith, within);
        }))
  ]
]
