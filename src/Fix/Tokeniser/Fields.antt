-- ===== src/Fix/Tokeniser/Fields.antt =====
-- Reading what `operator<<` of fields has written.
use swirly.Base.{
  ℕ, zero, suc, ◌+◌, ◌-◌, ◌*◌, ◌/◌, ◌%◌, ◌^◌, ◌<◌, ◌≤◌, ◌≡◌, ◌≢◌, refl, ap, ◌∙◌, inl, inr, true,
  false, List, [], ◌∷◌, ◌++◌, ◌==◌, ltb, length, length-append, All, arith, Bool-cases,
}
use swirly.Fix.Bytes.{Bytes, soh, equals, is_digit, put_digits, put_int}
use swirly.Fix.Tokeniser.{
  Tag, Tokens, digits, delimited, after_digits, tag, value, and_then, tokens, tokenise, put_field,
  put_fields,
}

digit-is_digit : (d : ℕ) → d < 10 → is_digit (48 + d) ≡ true
digit-is_digit d h = ground arith

digits-digit :
    (t d k : ℕ) (rest : Bytes)
    → d < 10
    → t * 10 + d ≡ k
    → digits t ((48 + d) ∷ rest) ≡ digits k rest
unfolding digits
digits-digit t d k rest h e =
    let e' : 48 + d - 48 ≡ d = omega arith in rw (digit-is_digit d h, e', e) refl

-- The digits of a number are read back as the number.
pub digits-put_digits :
    (fuel n : ℕ) (rest : Bytes) → n < 10 ^ fuel → digits 0 (put_digits fuel n rest) ≡ digits n rest
unfolding put_digits
digits-put_digits zero n rest h = let e : n ≡ 0 = omega arith in rw e refl
digits-put_digits (suc fuel) n rest h = elim (Bool-cases (ltb n 10)) [
  | inl one ↦ rw one (digits-digit 0 n n rest (ground arith) (omega arith))
  | inr many ↦
      let ih = digits-put_digits fuel (n / 10) ((48 + n % 10) ∷ rest) (omega arith) in
      rw many (ih ∙ digits-digit (n / 10) (n % 10) n rest (omega arith) (omega arith))
]

abbrev pub StartsDigit : Bytes → Type 0
StartsDigit [] = ⊥
StartsDigit (c ∷ cs) = is_digit c ≡ true

put_digits-StartsDigit :
    (fuel n : ℕ) (rest : Bytes) → StartsDigit rest → StartsDigit (put_digits fuel n rest)
unfolding put_digits
put_digits-StartsDigit zero n rest h = h
put_digits-StartsDigit (suc fuel) n rest h = elim (Bool-cases (ltb n 10)) [
  | inl one ↦ rw one (digit-is_digit n (ground arith))
  | inr many ↦
      rw many (put_digits-StartsDigit fuel (n / 10) _ (digit-is_digit (n % 10) (omega arith)))
]

put_int-StartsDigit : (n : ℕ) (rest : Bytes) → StartsDigit (put_int n rest)
unfolding put_int put_digits
put_int-StartsDigit n rest = elim (Bool-cases (ltb n 10)) [
  | inl one ↦ rw one (digit-is_digit n (ground arith))
  | inr many ↦ rw many (put_digits-StartsDigit 9 (n / 10) _ (digit-is_digit (n % 10) (omega arith)))
]

tag-StartsDigit : (cs : Bytes) → StartsDigit cs → tag cs ≡ after_digits (digits 0 cs)
unfolding tag digits
tag-StartsDigit [] h = absurd h
tag-StartsDigit (c ∷ cs) h = let e : 0 * 10 + (c - 48) ≡ c - 48 = omega arith in rw (h, e) refl

tag-put_int :
    (t : ℕ) (rest : Bytes) → t < 10 ^ 10 → tag (put_int t (equals ∷ rest)) ≡ Tag.parsed t rest
unfolding digits delimited put_int
tag-put_int t rest h =
    tag-StartsDigit _ (put_int-StartsDigit t (equals ∷ rest))
    ∙ ap after_digits (digits-put_digits 10 t (equals ∷ rest) h)

value-soh : (v rest : Bytes) → All (λ c. c ≢ soh) v → value (v ++ soh ∷ rest) ≡ (v, rest)
unfolding value
value-soh [] rest h = refl
value-soh (c ∷ v) rest (c_ne, h) =
    let other : (c == soh) ≡ false = ground arith in rw (other, value-soh v rest h) refl

tokens_one :
    (fuel t : ℕ) (cs cs' v rest : Bytes)
    → tag cs ≡ Tag.parsed t cs'
    → value cs' ≡ (v, rest)
    → tokens (suc fuel) cs ≡ and_then (t, v) (tokens fuel rest)
unfolding tokens tag
tokens_one fuel t [] cs' v rest e h = absurd (cc)
tokens_one fuel t (c ∷ cs) cs' v rest e h = rw (e, h) refl

-- A tag that an `int` holds, and a value that does not hold the end of a field.
abbrev pub IsField : ℕ × Bytes → Type 0
IsField (t, v) = (t < 2 ^ 31) × All (λ c. c ≢ soh) v

tokens-put_fields_fuel :
    (fuel : ℕ) (fs : List (ℕ × Bytes))
    → All IsField fs
    → length fs ≤ fuel
    → tokens fuel (put_fields fs) ≡ Tokens.all fs
unfolding tokens put_fields put_field
tokens-put_fields_fuel fuel [] h le = refl
tokens-put_fields_fuel zero (f ∷ fs) h le = absurd (omega arith)
tokens-put_fields_fuel (suc fuel) ((t, v) ∷ fs) ((small, clean), h) le =
    tokens_one fuel t _ _ v (put_fields fs) (tag-put_int t _ (omega arith))
      (value-soh v (put_fields fs) clean)
    ∙ ap (and_then (t, v)) (tokens-put_fields_fuel fuel fs h (omega arith))

length-put_digits : (fuel n : ℕ) (rest : Bytes) → length rest ≤ length (put_digits fuel n rest)
unfolding put_digits
length-put_digits zero n rest = omega arith
length-put_digits (suc fuel) n rest =
    ground (arith, length-put_digits fuel (n / 10) ((48 + n % 10) ∷ rest))

length-put_fields : (fs : List (ℕ × Bytes)) → length fs ≤ length (put_fields fs)
unfolding put_fields put_field put_int
length-put_fields [] = omega arith
length-put_fields ((t, v) ∷ fs) =
    let rest = equals ∷ v ++ soh ∷ put_fields fs in
    omega (
      arith,
      length-put_digits 10 t rest,
      length-put_fields fs,
      length-append v (soh ∷ put_fields fs),
    )

-- Reading the text of a list of fields, their tags from 0 below 2 ^ 31 and no value with the end of a field
-- in it, gives the list.
pub tokenise-put_fields :
    (fs : List (ℕ × Bytes)) → All IsField fs → tokenise (put_fields fs) ≡ Tokens.all fs
unfolding tokenise
tokenise-put_fields fs h =
    tokens-put_fields_fuel (length (put_fields fs)) fs h (length-put_fields fs)
