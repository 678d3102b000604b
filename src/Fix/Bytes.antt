-- ===== src/Fix/Bytes.antt =====
-- Bytes as swirly/fix reads and writes them: a string is a list of numbers below 256.
use swirly.Base.{ℕ, zero, suc, ◌+◌, ◌/◌, ◌%◌, Bool, ◌&&◌, List, ◌∷◌, ltb, leb, if◌then◌else◌}

abbrev pub Bytes : Type 0
Bytes = List ℕ

-- Ascii 1, the end of a field.
abbrev pub soh : ℕ
soh = 1

abbrev pub equals : ℕ
equals = 61

-- `std::isdigit`
abbrev pub is_digit : ℕ → Bool
is_digit c = leb 48 c && leb c 57

-- `os << n` for an `int` that is not negative, in front of what follows; a number takes at most as
-- many digits as its fuel.
unfoldable pub put_digits : ℕ → ℕ → Bytes → Bytes
put_digits zero n rest = rest
put_digits (suc fuel) n rest =
    let more = put_digits fuel (n / 10) ((48 + n % 10) ∷ rest) in
    if ltb n 10 then (48 + n) ∷ rest else more

-- An `int` has ten digits at most.
unfoldable pub put_int : ℕ → Bytes → Bytes
put_int n rest = put_digits 10 n rest
