-- ===== src/Fix/Stream/Frame.antt =====
-- What a stream commits: the frame of a message.
use swirly.Base.{
  ℕ, suc, ◌+◌, ◌-◌, ◌/◌, ◌%◌, ◌^◌, ◌<◌, ◌≤◌, ◌≡◌, refl, inl, inr, true, false, List, [], ◌∷◌, ◌++◌,
  ltb, length, All, arith, Bool-cases,
}
use swirly.Fix.Bytes.{Bytes}
use swirly.Fix.Stream.{FixBuf, widen, add_bytes, put_length_digit, put_length, set_body_length}

abbrev pub IsByte : ℕ → Type 0
IsByte c = c < 256

-- The sum of all bytes.
abbrev pub total : Bytes → ℕ
total [] = 0
total (c ∷ cs) = c + total cs

abbrev pub concat : List Bytes → Bytes
concat [] = []
concat (text ∷ texts) = text ++ concat texts

-- From the begin string to the end of the body, with the length in four digits.
abbrev pub headed : ℕ → ℕ → ℕ → ℕ → ℕ → ℕ → Bytes → Bytes
headed major minor a b c d body =
    56
    ∷ 61
    ∷ 70
    ∷ 73
    ∷ 88
    ∷ 46
    ∷ (48 + major)
    ∷ 46
    ∷ (48 + minor)
    ∷ 1
    ∷ 57
    ∷ 61
    ∷ (48 + a)
    ∷ (48 + b)
    ∷ (48 + c)
    ∷ (48 + d)
    ∷ 1
    ∷ body

abbrev pub unsummed : ℕ → ℕ → Bytes → Bytes
unsummed major minor body =
    let n = length body in headed major minor (n / 1000) (n / 100 % 10) (n / 10 % 10) (n % 10) body

-- The check sum is that of all bytes before it.
abbrev pub trailer : ℕ → Bytes
trailer n = 49 ∷ 48 ∷ 61 ∷ (48 + n / 100 % 10) ∷ (48 + n / 10 % 10) ∷ (48 + n % 10) ∷ 1 ∷ []

abbrev pub frame : ℕ → ℕ → Bytes → Bytes
frame major minor body = let text = unsummed major minor body in text ++ trailer (total text % 256)

pub add_bytes-total :
    (cs : Bytes) (sum : ℕ) → All IsByte cs → add_bytes sum cs % 256 ≡ (sum + total cs) % 256
unfolding add_bytes
add_bytes-total [] sum h = omega arith
add_bytes-total (c ∷ cs) sum (hc, h) =
    ground (arith, add_bytes-total cs ((sum + widen c) % 2 ^ 64) h)

pub add_bytes-append :
    (xs ys : Bytes) (sum : ℕ) → add_bytes sum (xs ++ ys) ≡ add_bytes (add_bytes sum xs) ys
unfolding add_bytes
add_bytes-append [] ys sum = refl
add_bytes-append (x ∷ xs) ys sum = add_bytes-append xs ys _

put_length-last :
    (fuel pos len : ℕ) (b : FixBuf)
    → len < 10
    → put_length (suc fuel) pos len b ≡ put_length_digit pos (len % 10) b
unfolding put_length
put_length-last fuel pos len b h = let e : ltb 0 (len / 10) ≡ false = ground arith in rw e refl

put_length-more :
    (fuel pos len : ℕ) (b : FixBuf)
    → 10 ≤ len
    → put_length (suc fuel) pos len b
      ≡ put_length fuel (pos - 1) (len / 10) (put_length_digit pos (len % 10) b)
unfolding put_length
put_length-more fuel pos len b h = let e : ltb 0 (len / 10) ≡ true = ground arith in rw e refl

module _ (major minor len sum : ℕ) (body : Bytes) where
  abbrev pub zeros : FixBuf
  zeros = record { written = headed major minor 0 0 0 0 body; sum = sum }

  -- The digits are those of the length, and their sum is added.
  abbrev pub Counted : FixBuf → Type 0
  Counted b =
      (b.written ≡ headed major minor (len / 1000) (len / 100 % 10) (len / 10 % 10) (len % 10) body)
      × (b.sum % 256 ≡ (sum + len / 1000 + len / 100 % 10 + len / 10 % 10 + len % 10) % 256)

  one_digit : len < 10 → Counted (set_body_length 16 len zeros)
  unfolding set_body_length put_length_digit
  one_digit h =
      let a : len / 1000 ≡ 0 = omega arith in
      let b : len / 100 % 10 ≡ 0 = omega arith in
      let c : len / 10 % 10 ≡ 0 = omega arith in
      rw (put_length-last 19 16 len zeros h, a, b, c) (refl, omega arith)

  two_digits : 10 ≤ len → len < 100 → Counted (set_body_length 16 len zeros)
  unfolding set_body_length put_length_digit
  two_digits lo hi =
      let a : len / 1000 ≡ 0 = omega arith in
      let b : len / 100 % 10 ≡ 0 = omega arith in
      rw
        (put_length-more 19 16 len zeros lo, put_length-last 18 15 (len / 10) _ (omega arith), a, b)
        (refl, omega arith)

  three_digits : 100 ≤ len → len < 1000 → Counted (set_body_length 16 len zeros)
  unfolding set_body_length put_length_digit
  three_digits lo hi =
      let a : len / 1000 ≡ 0 = omega arith in
      let b : len / 10 / 10 % 10 ≡ len / 100 % 10 = omega arith in
      rw
        (
          put_length-more 19 16 len zeros (omega arith),
          put_length-more 18 15 (len / 10) _ (omega arith),
          put_length-last 17 14 (len / 10 / 10) _ (omega arith),
          a,
          b,
        )
        (refl, omega arith)

  four_digits : 1000 ≤ len → len < 10000 → Counted (set_body_length 16 len zeros)
  unfolding set_body_length put_length_digit
  four_digits lo hi =
      let a : len / 10 / 10 / 10 % 10 ≡ len / 1000 = omega arith in
      let b : len / 10 / 10 % 10 ≡ len / 100 % 10 = omega arith in
      rw
        (
          put_length-more 19 16 len zeros (omega arith),
          put_length-more 18 15 (len / 10) _ (omega arith),
          put_length-more 17 14 (len / 10 / 10) _ (omega arith),
          put_length-last 16 13 (len / 10 / 10 / 10) _ (omega arith),
          a,
          b,
        )
        (refl, omega arith)

  pub set_body_length-Counted : len < 10000 → Counted (set_body_length 16 len zeros)
  set_body_length-Counted h = elim (Bool-cases (ltb len 10)) [
    | inl one ↦ one_digit (ground arith)
    | inr more ↦ elim (Bool-cases (ltb len 100)) [
      | inl two ↦ two_digits (ground arith) (ground arith)
      | inr more ↦ elim (Bool-cases (ltb len 1000)) [
        | inl three ↦ three_digits (ground arith) (ground arith)
        | inr four ↦ four_digits (ground arith) h
      ]
    ]
  ]
