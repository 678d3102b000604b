-- ===== src/Fix/Stream.antt =====
-- swirly/fix/Stream.cpp: the text of a message, with its body length and its check sum. The write area of
-- the buffer of swirly/sys/Buffer.hpp is a list, and `out` is what was committed to its reader.
pub mod Frame
pub mod Commit
use swirly.Base.{
  ℕ, zero, suc, ◌+◌, ◌-◌, ◌*◌, ◌/◌, ◌%◌, ◌^◌, Bool, List, [], ◌∷◌, ◌++◌, ltb, if◌then◌else◌, length,
}
use swirly.Fix.Bytes.{Bytes, soh, equals, put_int}

pub record FixBuf : Type 0 where
  pub written : Bytes
  pub sum : ℕ

pub record FixStream : Type 0 where
  pub buf : FixBuf
  pub bloff : ℕ
  pub out : Bytes

abbrev pub pcount : FixBuf → ℕ
pcount b = length b.written

-- A `char` is signed: one of 128 or above is below 0, and wraps in the sum of 64 bits.
abbrev pub widen : ℕ → ℕ
widen c = if ltb c 128 then c else c + (2 ^ 64 - 256)

unfoldable pub add_bytes : ℕ → Bytes → ℕ
add_bytes sum [] = sum
add_bytes sum (c ∷ cs) = add_bytes ((sum + widen c) % 2 ^ 64) cs

unfoldable pub put_check_sum : ℕ → Bytes
put_check_sum sum =
    let n = sum % 256 in
    49 ∷ 48 ∷ equals ∷ (48 + n / 100 % 10) ∷ (48 + n / 10 % 10) ∷ (48 + n % 10) ∷ soh ∷ []

unfoldable pub xsputn : Bytes → FixBuf → FixBuf
xsputn s b = record { written = b.written ++ s; sum = add_bytes b.sum s }

-- `overflow`, whose argument is not signed.
unfoldable pub overflow : ℕ → FixBuf → FixBuf
overflow c b = record { written = b.written ++ c ∷ []; sum = (b.sum + c) % 2 ^ 64 }

abbrev pub write_at : ℕ → ℕ → Bytes → Bytes
write_at i v [] = []
write_at zero v (c ∷ cs) = v ∷ cs
write_at (suc i) v (c ∷ cs) = c ∷ write_at i v cs

-- `*--it = '0' + d;`
unfoldable pub put_length_digit : ℕ → ℕ → FixBuf → FixBuf
put_length_digit pos d b = record {
  written = write_at (pos - 1) (48 + d) b.written;
  sum = (b.sum + d) % 2 ^ 64;
}

-- The `do` loop: a `std::streamsize` has fewer than 20 digits.
unfoldable pub put_length : ℕ → ℕ → ℕ → FixBuf → FixBuf
put_length zero pos len b = b
put_length (suc fuel) pos len b =
    let b' = put_length_digit pos (len % 10) b in
    let more = put_length fuel (pos - 1) (len / 10) b' in if ltb 0 (len / 10) then more else b'

unfoldable pub set_body_length : ℕ → ℕ → FixBuf → FixBuf
set_body_length pos len b = put_length 20 pos len b

-- `FixBuf::commit`
unfoldable pub commit_buf : FixBuf → Bytes → Bytes
commit_buf b out = if ltb 0 (pcount b) then out ++ (b.written ++ put_check_sum b.sum) else out

-- `FixStream::commit`
unfoldable pub commit : FixStream → FixStream
commit s =
    let b =
      if ltb 0 s.bloff
      then set_body_length (s.bloff - 1) (pcount s.buf - s.bloff) s.buf
      else s.buf in
    record s { buf = b; out = commit_buf b s.out }

-- `*this << s`
unfoldable pub put : Bytes → FixStream → FixStream
put text s = record s { buf = xsputn text s.buf }

unfoldable pub put_all : List Bytes → FixStream → FixStream
put_all [] s = s
put_all (text ∷ texts) s = put_all texts (put text s)

-- `FixStream::reset(FixVersion)`
unfoldable pub reset : ℕ → ℕ → FixStream → FixStream
reset major minor s =
    let empty = record s { buf = record { written = []; sum = 0 } } in
    let s' = put (soh ∷ 57 ∷ equals ∷ 48 ∷ 48 ∷ 48 ∷ 48 ∷ soh ∷ []) (
      put (put_int minor []) (
        put (46 ∷ [])
          (put (put_int major []) (put (56 ∷ equals ∷ 70 ∷ 73 ∷ 88 ∷ 46 ∷ []) empty)))) in
    record s' { bloff = pcount s'.buf }
