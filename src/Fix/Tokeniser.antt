-- ===== src/Fix/Tokeniser.antt =====
-- swirly/fix/Tokeniser.cpp: the fields of a message, and the text of a field of
-- swirly/fix/Field.hpp.
pub mod Fields
use swirly.Base.{
  ℕ, zero, suc, ◌+◌, ◌-◌, ◌*◌, ◌/◌, ◌%◌, Bool, Option, none, some, List, [], ◌∷◌, ◌++◌, ◌==◌,
  if◌then◌else◌, length,
}
use swirly.Fix.Bytes.{Bytes, soh, equals, is_digit, put_int}

-- What a call of `tag` does: the tag and what follows, the two errors, or a read at the end.
pub data Tag : Type 0 where
  parsed : ℕ → Bytes → Tag
  partial invalid undefined : Tag

-- The loop over the digits; `none` is the end of the message.
unfoldable pub digits : ℕ → Bytes → Option (ℕ × Bytes)
digits t [] = none
digits t (c ∷ cs) =
    let more = digits (t * 10 + (c - 48)) cs in if is_digit c then more else some (t, c ∷ cs)

-- The verification of the delimiter.
unfoldable pub delimited : ℕ → Bytes → Tag
delimited t [] = Tag.undefined
delimited t (c ∷ cs) = if c == equals then Tag.parsed t cs else Tag.invalid

abbrev pub after_digits : Option (ℕ × Bytes) → Tag
after_digits none = Tag.partial
after_digits (some (t, cs)) = delimited t cs

unfoldable pub tag : Bytes → Tag
tag [] = Tag.undefined
tag (c ∷ cs) = if is_digit c then after_digits (digits (c - 48) cs) else delimited 0 (c ∷ cs)

unfoldable pub value : Bytes → Bytes × Bytes
value [] = ([], [])
value (c ∷ cs) = let (v, rest) = value cs in if c == soh then ([], cs) else (c ∷ v, rest)

-- What calls of `next` until the message is empty do: the pairs, and how the last call failed.
pub data Tokens : Type 0 where
  all : List (ℕ × Bytes) → Tokens
  failed : Tag → List (ℕ × Bytes) → Tokens

abbrev pub and_then : ℕ × Bytes → Tokens → Tokens
and_then x (Tokens.all l) = Tokens.all (x ∷ l)
and_then x (Tokens.failed t l) = Tokens.failed t (x ∷ l)

abbrev pub after_tag : Tag → (ℕ → Bytes → Tokens) → Tokens
after_tag (Tag.parsed t cs) rest = rest t cs
after_tag t rest = Tokens.failed t []

-- Each call of `next` takes a byte at least: the fuel is the length of the message.
unfoldable pub tokens : ℕ → Bytes → Tokens
tokens fuel [] = Tokens.all []
tokens zero (c ∷ cs) = Tokens.failed Tag.undefined []
tokens (suc fuel) (c ∷ cs) =
    after_tag (tag (c ∷ cs))
      (λ t cs'. let (v, rest) = value cs' in and_then (t, v) (tokens fuel rest))

unfoldable pub tokenise : Bytes → Tokens
tokenise msg = tokens (length msg) msg

-- `operator<<(std::ostream&, const FixField<TagN, ValueT>&)`, with the text of the value.
unfoldable pub put_field : ℕ × Bytes → Bytes → Bytes
put_field (t, v) rest = put_int t (equals ∷ v ++ soh ∷ rest)

unfoldable pub put_fields : List (ℕ × Bytes) → Bytes
put_fields [] = []
put_fields (f ∷ fs) = put_field f (put_fields fs)
