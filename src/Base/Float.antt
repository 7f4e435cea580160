-- ===== src/Base/Float.antt =====
-- `float` as its IEEE 754 bit pattern, a number below 2 ^ 32. A `double` is kept as its bit
-- pattern too, and is never computed with.
use Prim.Native.Nat.{ℕ, zero, suc, ◌-◌, ◌%◌, ◌^◌}
use mathlib.Core.Bool.{Bool, not, ◌&&◌}
use voxtral_server.Base.Tests.{ltb, if◌then◌else◌}
use voxtral_server.Base.Int.{ℤ, pos, negsuc, ltb_ℤ}

abbrev pub Float : Type 0
Float = ℕ

abbrev pub Double : Type 0
Double = ℕ

-- All exponent bits and a mantissa bit are set.
abbrev pub is_nan : Float → Bool
is_nan w = ltb 0x7f80_0000 (w % 2 ^ 31)

abbrev pub negate : ℕ → ℤ
negate zero = pos 0
negate (suc n) = negsuc n

-- The patterns of numbers in the order of their values; both zeros are 0.
abbrev pub order : Float → ℤ
order w = if ltb w (2 ^ 31) then pos w else negate (w - 2 ^ 31)

-- `a < b`
unfoldable pub less : Float → Float → Bool
less a b = not (is_nan a) && not (is_nan b) && ltb_ℤ (order a) (order b)

-- `1.0F`
abbrev pub one : Float
one = 0x3f80_0000
