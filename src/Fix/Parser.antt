-- ===== src/Fix/Parser.antt =====
-- swirly/fix/Parser.hpp: the messages of a stream of bytes. `advance` is that of swirly/sys/Buffer.cpp.
pub mod Loop
pub mod Rounds
pub mod Chunks
pub mod Frames
use swirly.Base.{
  ℕ, zero, suc, ◌+◌, ◌-◌, ◌*◌, ◌%◌, ◌^◌, min, Bool, ◌||◌, Option, none, some, List, [], ◌∷◌, ◌++◌,
  ◌==◌, ltb, leb, if◌then◌else◌, length, take, drop,
}
use swirly.Base.Int.{ℤ, pos, ◌-ℤ◌}
use swirly.Fix.Bytes.{Bytes, soh, is_digit}

-- `offset_` and `body_len_`
pub record FixParser : Type 0 where
  pub offset : ℕ
  pub body_len : ℕ

-- What `on_message` is given: the version and the view of the body.
pub record Message : Type 0 where
  pub major : ℤ
  pub minor : ℤ
  pub body : Bytes

-- What `parse_body_len` does: false with nothing changed, true with a new state, or the error.
pub data BodyLen : Type 0 where
  not_yet : BodyLen
  found : FixParser → BodyLen
  invalid : BodyLen

-- The loop over the digits of a `std::size_t`; `none` is the end of the buffer.
unfoldable pub body_digits : ℕ → Bytes → Option (ℕ × Bytes)
body_digits n [] = none
body_digits n (c ∷ cs) =
    let more = body_digits ((n * 10 % 2 ^ 64 + (c - 48)) % 2 ^ 64) cs in
    if is_digit c then more else some (n, c ∷ cs)

-- The verification of the end of the field, `it + 1 - begin` being how far the rest is from the start.
unfoldable pub body_end : ℕ → Option (ℕ × Bytes) → BodyLen
body_end len none = BodyLen.not_yet
body_end len (some (n, [])) = BodyLen.not_yet
body_end len (some (n, c ∷ cs)) =
    if c == soh
    then BodyLen.found (record { offset = len - length cs; body_len = n })
    else BodyLen.invalid

unfoldable pub parse_body_len : Bytes → BodyLen
parse_body_len buf =
    if leb (length buf) 12
    then BodyLen.not_yet
    else body_end (length buf) (body_digits 0 (drop 12 buf))

unfoldable pub cleared : FixParser
cleared = record { offset = 0; body_len = 0 }

unfoldable pub advance : ℕ → Bytes → Bytes
advance n buf = drop (min n (length buf)) buf

abbrev pub byte_at : ℕ → Bytes → ℕ
byte_at i [] = 0
byte_at zero (c ∷ cs) = c
byte_at (suc i) (c ∷ cs) = byte_at i cs

-- A `char` is signed.
abbrev pub as_char : ℕ → ℤ
as_char c = if ltb c 128 then pos c else pos c -ℤ pos 256

unfoldable pub message_at : FixParser → Bytes → Message
message_at p buf = record {
  major = as_char (byte_at 6 buf) -ℤ pos 48;
  minor = as_char (byte_at 8 buf) -ℤ pos 48;
  body = take p.body_len (drop p.offset buf);
}

-- How a call of `parse` ended, with the messages that were handled: it returned the number of bytes,
-- or threw, or read beyond the buffer, where the length of a message has wrapped.
pub data Parsed : Type 0 where
  returned : ℕ → FixParser → List Message → Parsed
  thrown : FixParser → List Message → Parsed
  undefined : Parsed

abbrev pub and_then : ℕ → Message → Parsed → Parsed
and_then len msg (Parsed.returned sum p ms) = Parsed.returned (len + sum) p (msg ∷ ms)
and_then len msg (Parsed.thrown p ms) = Parsed.thrown p (msg ∷ ms)
and_then len msg Parsed.undefined = Parsed.undefined

-- The condition of the loop, after `clear`.
abbrev pub after_body_len : BodyLen → (FixParser → Parsed) → Parsed
after_body_len BodyLen.not_yet rest = Parsed.returned 0 cleared []
after_body_len (BodyLen.found p) rest = rest p
after_body_len BodyLen.invalid rest = Parsed.thrown cleared []

abbrev pub frame_len : FixParser → ℕ
frame_len p = (p.offset + p.body_len + 7) % 2 ^ 64

-- The `do` loop. A round takes 7 bytes at least: the fuel is more than the size of the buffer.
unfoldable pub parse_loop : ℕ → FixParser → Bytes → Parsed
parse_loop zero p buf = Parsed.undefined
parse_loop (suc fuel) p buf =
    let next = advance (frame_len p) buf in
    let rest =
      and_then (frame_len p) (message_at p buf)
        (after_body_len (parse_body_len next) (λ q. parse_loop fuel q next)) in
    if ltb (length buf) (frame_len p)
    then Parsed.returned 0 p []
    else if ltb (length buf) (p.offset + p.body_len) || ltb (length buf) 9
    then Parsed.undefined
    else rest

abbrev pub at_start : FixParser → BodyLen → (FixParser → Parsed) → Parsed
at_start p BodyLen.not_yet rest = Parsed.returned 0 p []
at_start p (BodyLen.found q) rest = rest q
at_start p BodyLen.invalid rest = Parsed.thrown p []

-- The call, with the first `if`, which leaves the state where it returns or throws.
unfoldable pub parse : FixParser → Bytes → Parsed
parse p buf =
    let go : FixParser → Parsed = λ q. parse_loop (suc (length buf)) q buf in
    if p.offset == 0 then at_start p (parse_body_len buf) go else go p
