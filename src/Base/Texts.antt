-- ===== src/Base/Texts.antt =====
-- A `std::string` or a `std::string_view` is the list of its bytes.
use Prim.Native.Char.{code}
use Prim.Native.Nat.{ℕ, ◌+◌, ◌/◌, ◌%◌}
use Prim.Native.String.{String}
use mathlib.Core.Path.{◌≡◌, refl}
use mathlib.Core.Logic.{◌↔◌}
use mathlib.Core.Bool.{Bool, true, false, ◌&&◌}
use mathlib.Core.List.{List, [], ◌∷◌}
use native.Mathlib.Omega.{arith}
use voxtral_server.Base.Tests.{◌==◌, ltb, if◌then◌else◌}

abbrev pub Bytes : Type 0
Bytes = List ℕ

-- The bytes of one code point in front of those that follow, as the compiler encodes a literal.
utf8 : ℕ → Bytes → Bytes
utf8 c rest =
    if ltb c 0x80
    then c ∷ rest
    else if ltb c 0x800
    then (0xc0 + c / 64) ∷ (0x80 + c % 64) ∷ rest
    else if ltb c 0x1_0000
    then (0xe0 + c / 4096) ∷ (0x80 + c / 64 % 64) ∷ (0x80 + c % 64) ∷ rest
    else (0xf0 + c / 262_144)
      ∷ (0x80 + c / 4096 % 64)
      ∷ (0x80 + c / 64 % 64)
      ∷ (0x80 + c % 64)
      ∷ rest

-- The bytes of a string literal. It stays shut, so that a long message is one unknown in a proof.
unfoldable pub bytes : String → Bytes
unfolding utf8
bytes String.[] = []
bytes (String.◌∷◌ c s) = utf8 (code c) (bytes s)

-- `==` of two strings.
unfoldable pub eq_bytes : Bytes → Bytes → Bool
eq_bytes [] [] = true
eq_bytes (x ∷ xs) (y ∷ ys) = x == y && eq_bytes xs ys
eq_bytes _ _ = false

pub eq_bytes_iff : (a b : Bytes) → (eq_bytes a b ≡ true) ↔ (a ≡ b)
unfolding eq_bytes
eq_bytes_iff [] [] = (λ _. refl, λ _. refl)
eq_bytes_iff [] (y ∷ ys) = (λ e. cc, λ e. cc)
eq_bytes_iff (x ∷ xs) [] = (λ e. cc, λ e. cc)
eq_bytes_iff (x ∷ xs) (y ∷ ys) = ground (arith, eq_bytes_iff xs ys)

pub eq_bytes_refl : (a : Bytes) → eq_bytes a a ≡ true
eq_bytes_refl a = (eq_bytes_iff a a).1 refl

unfoldable pub is_empty : Bytes → Bool
is_empty [] = true
is_empty (x ∷ xs) = false

pub is_empty_iff : (s : Bytes) → (is_empty s ≡ true) ↔ (s ≡ [])
unfolding is_empty
is_empty_iff [] = (λ _. refl, λ _. refl)
is_empty_iff (x ∷ xs) = (λ e. cc, λ e. cc)
