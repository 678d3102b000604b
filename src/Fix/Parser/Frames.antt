-- ===== src/Fix/Parser/Frames.antt =====
-- A parser on the frames that streams commit.
use swirly.Base.{
  ℕ, zero, suc, ◌+◌, ◌-◌, ◌*◌, ◌/◌, ◌%◌, ◌^◌, ◌<◌, ◌≤◌, ◌≡◌, refl, ◌∙◌, true, false, some, List, [],
  ◌∷◌, ◌++◌, map, ltb, leb, length, length-append, append_assoc, take-all, drop-all, All, arith,
}
use swirly.Base.Int.{pos, pos-sub}
use swirly.Fix.Bytes.{Bytes, soh, is_digit}
use swirly.Fix.Parser.{
  FixParser, Message, BodyLen, Parsed, body_digits, body_end, parse_body_len, cleared, advance,
  message_at, after_body_len, frame_len, parse_loop, at_start, parse,
}
use swirly.Fix.Parser.Loop.{Whole, parse_loop-Whole}
use swirly.Fix.Parser.Rounds.{advance-drop}
use swirly.Fix.Stream.Frame.{frame, unsummed, trailer, total}

body_digits-digit :
    (n d k : ℕ) (cs : Bytes)
    → d < 10
    → n * 10 + d ≡ k
    → k < 2 ^ 64
    → body_digits n ((48 + d) ∷ cs) ≡ body_digits k cs
unfolding body_digits
body_digits-digit n d k cs h e small =
    let digit : is_digit (48 + d) ≡ true = ground arith in
    let e' : (n * 10 % 2 ^ 64 + (48 + d - 48)) % 2 ^ 64 ≡ k = omega arith in rw (digit, e') refl

body_digits-four :
    (n : ℕ) (cs : Bytes)
    → n < 10000
    → body_digits 0
        ((48 + n / 1000) ∷ (48 + n / 100 % 10) ∷ (48 + n / 10 % 10) ∷ (48 + n % 10) ∷ soh ∷ cs)
      ≡ some (n, soh ∷ cs)
unfolding body_digits
body_digits-four n cs h =
    let units : Bytes = (48 + n % 10) ∷ soh ∷ cs in
    let tens : Bytes = (48 + n / 10 % 10) ∷ units in
    let hundreds : Bytes = (48 + n / 100 % 10) ∷ tens in
    body_digits-digit 0 (n / 1000) (n / 1000) hundreds (omega arith) (omega arith) (omega arith)
    ∙ body_digits-digit (n / 1000) (n / 100 % 10) (n / 100) tens (omega arith) (omega arith)
        (omega arith)
    ∙ body_digits-digit (n / 100) (n / 10 % 10) (n / 10) units (omega arith) (omega arith)
        (omega arith)
    ∙ body_digits-digit (n / 10) (n % 10) n (soh ∷ cs) (omega arith) (omega arith) (omega arith)

abbrev pub Sent : Type 0
Sent = ℕ × ℕ × Bytes

-- A version of two digits, and a body whose length four digits hold.
abbrev pub CanSend : Sent → Type 0
CanSend (major, minor, body) = (major < 10) × (minor < 10) × (length body < 10000)

abbrev pub frame_of : Sent → Bytes
frame_of (major, minor, body) = frame major minor body

abbrev pub message_of : Sent → Message
message_of (major, minor, body) = record { major = pos major; minor = pos minor; body = body }

abbrev pub frames : List Sent → Bytes
frames [] = []
frames (x ∷ l) = frame_of x ++ frames l

abbrev state_of : Bytes → FixParser
state_of body = record { offset = 17; body_len = length body }

length-frame : (major minor : ℕ) (body : Bytes) → length (frame major minor body) ≡ length body + 24
length-frame major minor body =
    omega (arith, length-append body (trailer (total (unsummed major minor body) % 256)))

sub_48 : (n : ℕ) → 48 + n - 48 ≡ n
sub_48 n = omega arith

module _ (major minor : ℕ) (body rest : Bytes) (small : length body < 10000) where
  abbrev buf : Bytes
  buf = frame major minor body ++ rest

  length-buf : length buf ≡ length body + 24 + length rest
  length-buf =
      omega (arith, length-append (frame major minor body) rest, length-frame major minor body)

  parse_body_len-frame : parse_body_len buf ≡ BodyLen.found (state_of body)
  unfolding parse_body_len body_end
  parse_body_len-frame =
      let text = unsummed major minor body in
      let behind : Bytes = body ++ trailer (total text % 256) ++ rest in
      let long : leb (length buf) 12 ≡ false = ground (arith, length-buf) in
      let e : length buf - length behind ≡ 17 = omega arith in
      rw (long, body_digits-four (length body) behind small, e) refl

  frame-Whole : Whole (state_of body) buf
  frame-Whole = record {
    size = omega arith;
    fits = omega (arith, length-buf);
    header = omega (arith, length-buf);
  }

  frame_len-frame : frame_len (state_of body) ≡ length (frame major minor body)
  frame_len-frame = omega (arith, length-frame major minor body)

  advance-frame : advance (frame_len (state_of body)) buf ≡ rest
  advance-frame = rw frame_len-frame (
      advance-drop (length (frame major minor body)) buf
        (omega (arith, length-append (frame major minor body) rest))
      ∙ drop-all (frame major minor body) rest)

  message_at-frame :
      major < 10 → minor < 10 → message_at (state_of body) buf ≡ message_of (major, minor, body)
  unfolding message_at
  message_at-frame hi lo =
      let ascii : ltb (48 + major) 128 ≡ true = ground arith in
      let ascii' : ltb (48 + minor) 128 ≡ true = ground arith in
      let sum = trailer (total (unsummed major minor body) % 256) in
      rw
        (
          ascii,
          ascii',
          pos-sub (48 + major) 48 (omega arith),
          pos-sub (48 + minor) 48 (omega arith),
          sub_48 major,
          sub_48 minor,
          append_assoc body sum rest,
          take-all body (sum ++ rest),
        )
        refl

parse_body_len-nothing : parse_body_len [] ≡ BodyLen.not_yet
unfolding parse_body_len
parse_body_len-nothing = refl

-- The condition of the loop, and the rounds from there on.
after-frames :
    (l : List Sent) (f : ℕ)
    → All CanSend l
    → length l ≤ f
    → after_body_len (parse_body_len (frames l)) (λ q. parse_loop f q (frames l))
      ≡ Parsed.returned (length (frames l)) cleared (map message_of l)
after-frames [] f h le = rw parse_body_len-nothing refl
after-frames (x ∷ l) zero h le = absurd (omega arith)
after-frames ((major, minor, body) ∷ l) (suc f) ((hi, lo, small), h) le =
    let text = frame major minor body in
    let rest = frames l in
    rw
      (
        parse_body_len-frame major minor body rest small,
        parse_loop-Whole f (state_of body) (text ++ rest) (frame-Whole major minor body rest small),
        advance-frame major minor body rest small,
        message_at-frame major minor body rest small hi lo,
        frame_len-frame major minor body rest small,
        after-frames l f h (omega arith),
      )
      (rw (length-append text rest) refl)

at_start-after :
    (b : BodyLen) (rest : FixParser → Parsed) → at_start cleared b rest ≡ after_body_len b rest
at_start-after BodyLen.not_yet rest = refl
at_start-after (BodyLen.found q) rest = refl
at_start-after BodyLen.invalid rest = refl

length-frames : (l : List Sent) → length l ≤ length (frames l)
length-frames [] = omega arith
length-frames (x ∷ l) = omega (arith, length-frames l, length-append (frame_of x) (frames l))

-- A new parser, given the frames of some messages, each with a version of two digits and a body of less
-- than 10000 bytes, takes all bytes and handles the messages in order, with their versions and bodies.
pub parse-frames :
    (l : List Sent)
    → All CanSend l
    → parse cleared (frames l) ≡ Parsed.returned (length (frames l)) cleared (map message_of l)
unfolding parse cleared
parse-frames l h =
    at_start-after (parse_body_len (frames l))
      (λ q. parse_loop (suc (length (frames l))) q (frames l))
    ∙ after-frames l (suc (length (frames l))) h (omega (arith, length-frames l))
