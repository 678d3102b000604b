-- ===== src/Fix/Stream/Commit.antt =====
-- A message from the reset of a stream to its commit.
use swirly.Base.{
  ℕ, ◌+◌, ◌-◌, ◌/◌, ◌%◌, ◌<◌, ◌≡◌, refl, ◌∙◌, true, List, [], ◌∷◌, ◌++◌, ltb, length, append_assoc,
  append_nil, All, arith,
}
use swirly.Fix.Bytes.{Bytes, put_int, put_digits}
use swirly.Fix.Stream.{
  FixBuf, FixStream, add_bytes, put_check_sum, xsputn, set_body_length, commit_buf, commit, put,
  put_all, reset,
}
use swirly.Fix.Stream.Frame.{
  IsByte, total, concat, headed, unsummed, trailer, frame, add_bytes-total, add_bytes-append,
  set_body_length-Counted,
}

put_int-digit : (n : ℕ) → n < 10 → put_int n [] ≡ (48 + n) ∷ []
unfolding put_int put_digits
put_int-digit n h = let e : ltb n 10 ≡ true = ground arith in rw e refl

-- A stream after its reset, with this body.
abbrev opened : ℕ → ℕ → Bytes → Bytes → FixStream
opened major minor body out = record {
  buf = record {
    written = headed major minor 0 0 0 0 body;
    sum = add_bytes 0 (headed major minor 0 0 0 0 body);
  };
  bloff = 17;
  out = out;
}

reset-opened :
    (major minor : ℕ) (s : FixStream)
    → major < 10
    → minor < 10
    → reset major minor s ≡ opened major minor [] s.out
unfolding reset put xsputn add_bytes
reset-opened major minor s hi lo = rw (put_int-digit major hi, put_int-digit minor lo) refl

put_all-written :
    (texts : List Bytes) (s : FixStream)
    → put_all texts s ≡ record s {
      buf = record {
        written = s.buf.written ++ concat texts;
        sum = add_bytes s.buf.sum (concat texts);
      };
    }
unfolding put_all put xsputn add_bytes
put_all-written [] s = rw (append_nil s.buf.written) refl
put_all-written (text ∷ texts) s =
    put_all-written texts (put text s)
    ∙ rw
        (
          append_assoc s.buf.written text (concat texts),
          add_bytes-append text (concat texts) s.buf.sum,
        )
        refl

put_all-opened :
    (major minor : ℕ) (texts : List Bytes) (out : Bytes)
    → put_all texts (opened major minor [] out) ≡ opened major minor (concat texts) out
unfolding add_bytes
put_all-opened major minor texts out = put_all-written texts (opened major minor [] out)

-- The digits of the length change the sum as they change the text.
total-headed :
    (major minor a b c d : ℕ) (body : Bytes)
    → total (headed major minor a b c d body)
      ≡ total (headed major minor 0 0 0 0 body) + a + b + c + d
total-headed major minor a b c d body = omega arith

commit_buf-summed :
    (b : FixBuf) (text out : Bytes)
    → 0 < length text
    → b.written ≡ text
    → b.sum % 256 ≡ total text % 256
    → commit_buf b out ≡ out ++ (text ++ trailer (total text % 256))
unfolding commit_buf put_check_sum
commit_buf-summed b text out some_left w sum =
    let e : ltb 0 (length text) ≡ true = ground arith in rw (w, sum, e) refl

four_bytes :
    (a b c d : ℕ) (cs : Bytes)
    → (a < 256) × (b < 256) × (c < 256) × (d < 256)
    → All IsByte cs
    → All IsByte (a ∷ b ∷ c ∷ d ∷ cs)
four_bytes a b c d cs (ha, hb, hc, hd) h = (ha, (hb, (hc, (hd, h))))

headed-bytes :
    (major minor : ℕ) (body : Bytes)
    → major < 10
    → minor < 10
    → All IsByte body
    → All IsByte (headed major minor 0 0 0 0 body)
headed-bytes major minor body hi lo h =
    let lengths : Bytes = 48 ∷ 48 ∷ 48 ∷ 48 ∷ 1 ∷ body in
    let tail : Bytes = (48 + minor) ∷ 1 ∷ 57 ∷ 61 ∷ lengths in
    let version : Bytes = 88 ∷ 46 ∷ (48 + major) ∷ 46 ∷ tail in
    four_bytes 56 61 70 73 version (omega arith) (
      four_bytes 88 46 (48 + major) 46 tail (omega arith) (
        four_bytes (48 + minor) 1 57 61 lengths (omega arith)
          (four_bytes 48 48 48 48 (1 ∷ body) (omega arith) (omega arith, h))))

commit-counted :
    (major minor : ℕ) (body out : Bytes) (b : FixBuf)
    → set_body_length 16 (length body) (opened major minor body out).buf ≡ b
    → b.written ≡ unsummed major minor body
    → b.sum % 256 ≡ total (unsummed major minor body) % 256
    → (commit (opened major minor body out)).out ≡ out ++ frame major minor body
unfolding commit
commit-counted major minor body out b h w s =
    let e : length (headed major minor 0 0 0 0 body) - 17 ≡ length body = omega arith in
    rw (e, h) (commit_buf-summed b (unsummed major minor body) out (omega arith) w s)

commit-opened :
    (major minor : ℕ) (body out : Bytes)
    → major < 10
    → minor < 10
    → length body < 10000
    → All IsByte body
    → (commit (opened major minor body out)).out ≡ out ++ frame major minor body
commit-opened major minor body out hi lo small bytes =
    let zeroed = headed major minor 0 0 0 0 body in
    let n = length body in
    let (w, s) = set_body_length-Counted major minor n (add_bytes 0 zeroed) body small in
    let own : add_bytes 0 zeroed % 256 ≡ (0 + total zeroed) % 256 =
      add_bytes-total zeroed 0 (headed-bytes major minor body hi lo bytes) in
    let spread = total-headed major minor (n / 1000) (n / 100 % 10) (n / 10 % 10) (n % 10) body in
    commit-counted major minor body out _ refl w (omega (arith, s, own, spread))

-- A stream that is reset for a version of two digits, takes a body of bytes in any parts, less
-- than 10000 bytes in all, and commits, adds one frame to its buffer: the body with its length in
-- four digits before it and the sum of all bytes before the check sum, modulo 256, in the three
-- digits of the check sum.
pub commit-frame :
    (major minor : ℕ) (texts : List Bytes) (s : FixStream)
    → major < 10
    → minor < 10
    → length (concat texts) < 10000
    → All IsByte (concat texts)
    → (commit (put_all texts (reset major minor s))).out ≡ s.out ++ frame major minor (concat texts)
commit-frame major minor texts s hi lo small bytes =
    rw (reset-opened major minor s hi lo, put_all-opened major minor texts s.out)
      (commit-opened major minor (concat texts) s.out hi lo small bytes)
