-- ===== src/Fix/Parser/Rounds.antt =====
-- The rounds of the parser with more fuel, and with more bytes behind the buffer.
use swirly.Base.{
  ℕ, zero, suc, ◌+◌, ◌^◌, ◌<◌, ◌≤◌, ◌≡◌, ◌≢◌, refl, sym, ap, ◌∙◌, inl, inr, false, min, List, [],
  ◌∷◌, ◌++◌, ◌==◌, length, length-append, drop, drop-append, take-append, length-drop, arith,
}
use swirly.Fix.Bytes.{Bytes}
use swirly.Fix.Parser.{
  FixParser, Message, BodyLen, Parsed, parse_body_len, cleared, advance, byte_at, message_at,
  and_then, after_body_len, frame_len, parse_loop, at_start, parse,
}
use swirly.Fix.Parser.Loop.{
  Whole, round_cases, parse_loop-Whole, length-advance, after_body_len-ext,
}

-- Fuel beyond the size of the buffer does not matter.
pub parse_loop-fuel :
    (f g : ℕ) (p : FixParser) (buf : Bytes)
    → length buf < 2 ^ 63
    → length buf < f
    → length buf < g
    → parse_loop f p buf ≡ parse_loop g p buf
parse_loop-fuel zero g p buf small hf hg = absurd (omega arith)
parse_loop-fuel (suc f) zero p buf small hf hg = absurd (omega arith)
parse_loop-fuel (suc f) (suc g) p buf small hf hg = elim (round_cases p buf small) [
  | inl e ↦ e f ∙ sym (e g)
  | inr (inl e) ↦ e f ∙ sym (e g)
  | inr (inr w) ↦
      let shorter = length-advance p buf w in
      let next = advance (frame_len p) buf in
      parse_loop-Whole f p buf w
      ∙ ap (and_then (frame_len p) (message_at p buf)) (
          after_body_len-ext (parse_body_len next) _ _ (λ q.
            parse_loop-fuel f g q next (omega (arith, shorter)) (omega (arith, shorter))
              (omega (arith, shorter))))
      ∙ sym (parse_loop-Whole g p buf w)
]

-- The call after a message, at the bytes that follow it.
pub after-parse :
    (g : ℕ) (buf : Bytes)
    → length buf < 2 ^ 63
    → length buf < g
    → after_body_len (parse_body_len buf) (λ q. parse_loop g q buf) ≡ parse cleared buf
unfolding parse cleared
after-parse g buf small h = go (parse_body_len buf)
  where
    go :
        (b : BodyLen)
        → after_body_len b (λ q. parse_loop g q buf)
          ≡ at_start cleared b (λ q. parse_loop (suc (length buf)) q buf)
    go BodyLen.not_yet = refl
    go (BodyLen.found q) = parse_loop-fuel g (suc (length buf)) q buf small h (omega arith)
    go BodyLen.invalid = refl

pub parse-offset :
    (p : FixParser) (buf : Bytes) → p.offset ≢ 0 → parse p buf ≡ parse_loop (suc (length buf)) p buf
unfolding parse
parse-offset p buf h = let e : (p.offset == 0) ≡ false = ground arith in rw e refl

-- The result of a call before which some bytes and messages were dealt with.
abbrev pub resumed : ℕ → List Message → Parsed → Parsed
resumed n ms (Parsed.returned sum p ms') = Parsed.returned (n + sum) p (ms ++ ms')
resumed n ms (Parsed.thrown p ms') = Parsed.thrown p (ms ++ ms')
resumed n ms Parsed.undefined = Parsed.undefined

pub resumed-nothing : (r : Parsed) → resumed 0 [] r ≡ r
resumed-nothing (Parsed.returned sum p ms) = let e : 0 + sum ≡ sum = omega arith in rw e refl
resumed-nothing (Parsed.thrown p ms) = refl
resumed-nothing Parsed.undefined = refl

pub and_then-resumed :
    (len n : ℕ) (msg : Message) (ms : List Message) (r : Parsed)
    → and_then len msg (resumed n ms r) ≡ resumed (len + n) (msg ∷ ms) r
and_then-resumed len n msg ms (Parsed.returned sum p ms') =
    let e : len + (n + sum) ≡ len + n + sum = omega arith in rw e refl
and_then-resumed len n msg ms (Parsed.thrown p ms') = refl
and_then-resumed len n msg ms Parsed.undefined = refl

pub advance-drop : (n : ℕ) (xs : Bytes) → n ≤ length xs → advance n xs ≡ drop n xs
unfolding advance
advance-drop n xs h = let e : min n (length xs) ≡ n = omega arith in rw e refl

pub advance-append :
    (n : ℕ) (xs ys : Bytes) → n ≤ length xs → advance n (xs ++ ys) ≡ advance n xs ++ ys
advance-append n xs ys h =
    rw (advance-drop n (xs ++ ys) (omega (arith, length-append xs ys)), advance-drop n xs h)
      (drop-append n xs ys h)

byte_at-append : (i : ℕ) (xs ys : Bytes) → i < length xs → byte_at i (xs ++ ys) ≡ byte_at i xs
byte_at-append i [] ys h = absurd (omega arith)
byte_at-append zero (x ∷ xs) ys h = refl
byte_at-append (suc i) (x ∷ xs) ys h = byte_at-append i xs ys (omega arith)

pub Whole-append : (p : FixParser) (xs ys : Bytes) → Whole p xs → Whole p (xs ++ ys)
Whole-append p xs ys w = record {
  size = w.size;
  fits = omega (arith, w.fits, length-append xs ys);
  header = omega (arith, w.header, length-append xs ys);
}

pub message_at-append :
    (p : FixParser) (xs ys : Bytes) → Whole p xs → message_at p (xs ++ ys) ≡ message_at p xs
unfolding message_at
message_at-append p xs ys w =
    let there : p.body_len ≤ length (drop p.offset xs) =
      omega (arith, length-drop p.offset xs, w.size, w.fits) in
    rw
      (
        byte_at-append 6 xs ys (omega (arith, w.header)),
        byte_at-append 8 xs ys (omega (arith, w.header)),
        drop-append p.offset xs ys (omega (arith, w.size, w.fits)),
        take-append p.body_len (drop p.offset xs) ys there,
      )
      refl
