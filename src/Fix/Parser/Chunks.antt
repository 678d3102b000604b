-- ===== src/Fix/Parser/Chunks.antt =====
-- A stream that comes in parts: the parser gives the messages of the whole.
use swirly.Base.{
  ℕ, zero, suc, ◌+◌, ◌^◌, ◌<◌, ◌≡◌, ◌≢◌, refl, sym, ap, ◌∙◌, inl, inr, true, List, ◌∷◌, ◌++◌, ◌==◌,
  length, length-append, drop, drop-drop, arith, Bool-cases,
}
use mathlib.Core.Path.{subst}
use swirly.Fix.Bytes.{Bytes}
use swirly.Fix.Parser.{
  FixParser, Message, BodyLen, Parsed, parse_body_len, cleared, advance, message_at, and_then,
  after_body_len, frame_len, parse_loop, at_start, parse,
}
use swirly.Fix.Parser.Loop.{
  round_cases, parse_loop-none, parse_loop-Whole, length-advance, parse_body_len-append,
  parse_body_len-offset,
}
use swirly.Fix.Parser.Rounds.{
  parse_loop-fuel, after-parse, parse-offset, resumed, resumed-nothing, and_then-resumed,
  advance-drop, advance-append, Whole-append, message_at-append,
}

-- What the call on more bytes, `whole`, is to be by the result of the call on the first of them.
abbrev pub Resumes : Bytes → Bytes → Parsed → Parsed → Type 0
Resumes xs ys whole (Parsed.returned n q ms) = whole ≡ resumed n ms (parse q (drop n xs ++ ys))
Resumes xs ys whole (Parsed.thrown q ms) = Unit {0}
Resumes xs ys whole Parsed.undefined = Unit {0}

Resumes-and_then :
    (len : ℕ) (msg : Message) (xs next ys : Bytes) (whole r : Parsed)
    → next ≡ drop len xs
    → Resumes next ys whole r
    → Resumes xs ys (and_then len msg whole) (and_then len msg r)
Resumes-and_then len msg xs next ys whole (Parsed.returned n q ms) e h =
    ap (and_then len msg) h
    ∙ and_then-resumed len n msg ms (parse q (drop n next ++ ys))
    ∙ ap (λ l. resumed (len + n) (msg ∷ ms) (parse q (l ++ ys)))
        (ap (drop n) e ∙ drop-drop len n xs)
Resumes-and_then len msg xs next ys whole (Parsed.thrown q ms) e h = tt
Resumes-and_then len msg xs next ys whole Parsed.undefined e h = tt

module _ (ys : Bytes) where
  -- The condition of the loop at the bytes that follow a message.
  after-Resumes :
      (f g : ℕ) (next : Bytes) (b : BodyLen)
      → parse_body_len next ≡ b
      → length (next ++ ys) < 2 ^ 63
      → length (next ++ ys) < g
      → ((q : FixParser)
          → q.offset ≢ 0
          → Resumes next ys (parse_loop g q (next ++ ys)) (parse_loop f q next))
      → Resumes next ys
          (after_body_len (parse_body_len (next ++ ys)) (λ q. parse_loop g q (next ++ ys)))
          (after_body_len b (λ q. parse_loop f q next))
  after-Resumes f g next BodyLen.not_yet e small hg ih =
      after-parse g (next ++ ys) small hg ∙ sym (resumed-nothing (parse cleared (next ++ ys)))
  after-Resumes f g next (BodyLen.found q) e small hg ih =
      rw (parse_body_len-append next ys q e) (ih q (parse_body_len-offset next q e))
  after-Resumes f g next BodyLen.invalid e small hg ih = tt

  parse_loop-Resumes :
      (f g : ℕ) (p : FixParser) (xs : Bytes)
      → p.offset ≢ 0
      → length (xs ++ ys) < 2 ^ 63
      → length (xs ++ ys) < g
      → Resumes xs ys (parse_loop g p (xs ++ ys)) (parse_loop f p xs)
  parse_loop-Resumes f zero p xs off small hg = absurd (omega arith)
  parse_loop-Resumes zero (suc g) p xs off small hg = rw (parse_loop-none p xs) tt
  parse_loop-Resumes (suc f) (suc g) p xs off small hg =
      elim (round_cases p xs (omega (arith, length-append xs ys))) [
        | inl e ↦ rw (e f) (
            parse_loop-fuel (suc g) (suc (length (xs ++ ys))) p (xs ++ ys) small hg (omega arith)
            ∙ sym (parse-offset p (xs ++ ys) off)
            ∙ sym (resumed-nothing (parse p (xs ++ ys))))
        | inr (inl e) ↦ rw (e f) tt
        | inr (inr w) ↦
            let len = frame_len p in
            let next = advance len xs in
            let shorter = length-advance p xs w in
            let longer : length (next ++ ys) < length (xs ++ ys) =
              omega (arith, length-append xs ys, length-append next ys, shorter) in
            let rest =
              after-Resumes f g next (parse_body_len next) refl (omega (arith, longer))
                (omega (arith, longer))
                (λ q off'.
                  parse_loop-Resumes f g q next off' (omega (arith, longer))
                    (omega (arith, longer))) in
            rw
              (
                parse_loop-Whole f p xs w,
                parse_loop-Whole g p (xs ++ ys) (Whole-append p xs ys w),
                message_at-append p xs ys w,
                advance-append len xs ys w.fits,
              )
              (Resumes-and_then len (message_at p xs) xs next ys
                (after_body_len (parse_body_len (next ++ ys)) (λ q. parse_loop g q (next ++ ys)))
                (after_body_len (parse_body_len next) (λ q. parse_loop f q next))
                (advance-drop len xs w.fits) rest)
      ]

parse-start :
    (p : FixParser) (buf : Bytes)
    → (p.offset == 0) ≡ true
    → parse p buf ≡ at_start p (parse_body_len buf) (λ q. parse_loop (suc (length buf)) q buf)
unfolding parse
parse-start p buf h = rw h refl

module _ (p : FixParser) (xs ys : Bytes) (small : length (xs ++ ys) < 2 ^ 63) where
  from_start :
      (b : BodyLen)
      → parse_body_len xs ≡ b
      → (p.offset == 0) ≡ true
      → Resumes xs ys (parse p (xs ++ ys)) (at_start p b (λ q. parse_loop (suc (length xs)) q xs))
  from_start BodyLen.not_yet e h = sym (resumed-nothing (parse p (xs ++ ys)))
  from_start (BodyLen.found q) e h =
      rw (parse-start p (xs ++ ys) h, parse_body_len-append xs ys q e)
        (parse_loop-Resumes ys (suc (length xs)) (suc (length (xs ++ ys))) q xs
          (parse_body_len-offset xs q e) small (omega arith))
  from_start BodyLen.invalid e h = tt

  parse-Resumes : Resumes xs ys (parse p (xs ++ ys)) (parse p xs)
  parse-Resumes = elim (Bool-cases (p.offset == 0)) [
    | inl start ↦ rw (parse-start p xs start) (from_start (parse_body_len xs) refl start)
    | inr off ↦
        let off' : p.offset ≢ 0 = ground arith in
        rw (parse-offset p xs off', parse-offset p (xs ++ ys) off')
          (parse_loop-Resumes ys (suc (length xs)) (suc (length (xs ++ ys))) p xs off' small
            (omega arith))
  ]

-- If a parser returns from a buffer, and the bytes that it has not taken are given to it again
-- with more behind them, it handles the messages, and ends, as it does with all bytes at once,
-- for less than 2 ^ 63 bytes.
pub parse-chunks :
    (p : FixParser) (xs ys : Bytes) (n : ℕ) (q : FixParser) (ms : List Message)
    → length (xs ++ ys) < 2 ^ 63
    → parse p xs ≡ Parsed.returned n q ms
    → parse p (xs ++ ys) ≡ resumed n ms (parse q (drop n xs ++ ys))
parse-chunks p xs ys n q ms small h =
    subst (Resumes xs ys (parse p (xs ++ ys))) h (parse-Resumes p xs ys small)
