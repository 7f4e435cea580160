-- ===== src/Base/Decimal.antt =====
-- `std::to_string` of an `int`, and the narrowing of a `size_t` to an `int`.
use Prim.Native.Nat.{ℕ, zero, suc, ◌+◌, ◌-◌, ◌/◌, ◌%◌, ◌^◌, ◌<◌}
use mathlib.Core.Path.{◌≡◌, refl}
use mathlib.Core.List.{[], ◌∷◌}
use native.Mathlib.Omega.{arith}
use voxtral_server.Base.Tests.{ltb, if◌then◌else◌}
use voxtral_server.Base.Texts.{Bytes, bytes}
use voxtral_server.Base.Int.{ℤ, pos, negsuc}

-- The digits of `n` in front of `rest`, on fuel; as much fuel as `n` is enough.
unfoldable pub digits : ℕ → ℕ → Bytes → Bytes
digits zero n rest = (b'0' + n % 10) ∷ rest
digits (suc fuel) n rest =
    let more = digits fuel (n / 10) ((b'0' + n % 10) ∷ rest) in
    if ltb n 10 then (b'0' + n) ∷ rest else more

unfoldable pub to_string : ℤ → Bytes
unfolding digits
to_string (pos n) = digits n n []
to_string (negsuc n) = b'-' ∷ digits (suc n) (suc n) []

-- `static_cast<int>(size)`
unfoldable pub to_int : ℕ → ℤ
to_int size = let w = size % 2 ^ 32 in if ltb w (2 ^ 31) then pos w else negsuc (2 ^ 32 - w - 1)

-- `static_cast<size_t>(n)`
unfoldable pub to_size : ℤ → ℕ
to_size (pos n) = n
to_size (negsuc n) = 2 ^ 64 - suc n

to_string_test : to_string (pos 4096) ≡ bytes "4096"
unfolding to_string bytes
to_string_test = refl

pub to_int-eq-pos : (n : ℕ) → n < 2 ^ 31 → to_int n ≡ pos n
unfolding to_int
to_int-eq-pos n h = ground arith
