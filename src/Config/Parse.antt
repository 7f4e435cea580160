-- ===== src/Config/Parse.antt =====
-- The readers of a single setting (src/config/config.cpp): `safe_atoi`, `safe_narrow` and
-- `parse_bool`. `std::stoi` is that of the language's library in the "C" locale.
use voxtral_server.Validation.{is_space}
use voxtral_server.Base.Float.{negate}
use voxtral_server.Base.{
  ℕ, ◌+◌, ◌-◌, ◌*◌, Bool, true, false, ◌&&◌, ◌||◌, Option, none, some, [], ◌∷◌, leb, ◌==◌,
  if◌then◌else◌, Bytes, bytes, eq_bytes, is_empty,
}
use voxtral_server.Base.Int.{ℤ, pos, negsuc}

abbrev pub int_max : ℕ
int_max = 0x7fff_ffff

-- `INT_MIN <= n && n <= INT_MAX`
abbrev pub is_int : ℤ → Bool
is_int (pos n) = leb n int_max
is_int (negsuc n) = leb n int_max

unfoldable pub is_digit : ℕ → Bool
is_digit c = leb b'0' c && leb c b'9'

unfoldable pub skip_spaces : Bytes → Bytes
skip_spaces [] = []
skip_spaces (c ∷ s) = let rest = skip_spaces s in if is_space c then rest else c ∷ s

-- The digits in front, in base ten after `acc`, and what follows them.
unfoldable pub read_digits : ℕ → Bytes → ℕ × Bytes
read_digits acc [] = (acc, [])
read_digits acc (c ∷ s) =
    let more = read_digits (acc * 10 + (c - b'0')) s in if is_digit c then more else (acc, c ∷ s)

unfoldable pub starts_number : Bytes → Bool
starts_number [] = false
starts_number (c ∷ s) = is_digit c

-- The digits after the sign: `none` without any, or with a value that is no `int`.
unfoldable pub unsigned : Bool → Bytes → Option (ℤ × Bytes)
unsigned minus s =
    let (n, rest) = read_digits 0 s in
    let value : ℤ = if minus then negate n else pos n in
    if starts_number s && is_int value then some (value, rest) else none

unfoldable pub signed : Bytes → Option (ℤ × Bytes)
signed [] = none
signed (c ∷ s) =
    if c == b'-'
    then unsigned true s
    else if c == b'+'
    then unsigned false s
    else unsigned false (c ∷ s)

-- `std::stoi(str, &pos)`: the value and the rest of the string; `none` where it throws.
unfoldable pub stoi : Bytes → Option (ℤ × Bytes)
stoi s = signed (skip_spaces s)

-- `safe_atoi`; no string is a null pointer.
unfoldable pub safe_atoi : Option Bytes → ℤ → ℤ
safe_atoi none default_val = default_val
safe_atoi (some str) default_val = if is_empty str then default_val else elim (stoi str) [
  | none ↦ default_val
  | some (result, rest) ↦ if is_empty rest then result else default_val
]

unfoldable pub safe_narrow : ℤ → ℤ → ℤ
safe_narrow val default_val = if is_int val then val else default_val

unfoldable pub parse_bool : Option Bytes → Bool
parse_bool none = false
parse_bool (some s) = eq_bytes s (bytes "true") || eq_bytes s (bytes "1")
