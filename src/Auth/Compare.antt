-- ===== src/Auth/Compare.antt =====
-- `constant_time_equals` (include/tts/auth.hpp). Sizes are below 2 ^ 64; timing is not modelled.
use Prim.Native.Nat.{bit_or, bit_xor}
use voxtral_server.Base.Bits.{bit_or-low, bit_xor-low}
use voxtral_server.Base.{
  ℕ, ◌+◌, ◌%◌, ◌^◌, ◌<◌, ◌≡◌, refl, ap, ◌↔◌, Bool, true, [], ◌∷◌, ◌++◌, arith, ◌==◌, length, All,
  length-append, All-append, Bytes,
}

-- The loop: `result` collects the bits in which the two views differ.
unfoldable pub compare_loop : ℕ → Bytes → Bytes → ℕ
compare_loop result [] b = result
compare_loop result (x ∷ a) [] = result
compare_loop result (x ∷ a) (y ∷ b) =
    compare_loop (bit_or result (bit_xor (x % 256) (y % 256) % 256) % 256) a b

unfoldable pub constant_time_equals : Bytes → Bytes → Bool
unfolding compare_loop
constant_time_equals a b = compare_loop (bit_xor (length a) (length b) % 256) a b == 0

abbrev pub IsByte : ℕ → Type 0
IsByte c = c < 256

-- The two texts agree as far as both go.
abbrev pub Agrees : Bytes → Bytes → Type 0
Agrees [] b = Unit
Agrees (x ∷ a) [] = Unit
Agrees (x ∷ a) (y ∷ b) = (x ≡ y) × Agrees a b

compare_loop-zero_iff :
    (r : ℕ) (a b : Bytes)
    → r < 256
    → All IsByte a
    → All IsByte b
    → (compare_loop r a b ≡ 0) ↔ ((r ≡ 0) × Agrees a b)
unfolding compare_loop
compare_loop-zero_iff r [] b h p q = (λ e. (e, tt), λ e. e.0)
compare_loop-zero_iff r (x ∷ a) [] h p q = (λ e. (e, tt), λ e. e.0)
compare_loop-zero_iff r (x ∷ a) (y ∷ b) h p q =
    let d = bit_xor (x % 256) (y % 256) % 256 in
    let or = bit_or-low 8 r d in
    let xor = bit_xor-low 8 (x % 256) (y % 256) in
    let ih = compare_loop-zero_iff (bit_or r d % 256) a b (omega arith) p.1 q.1 in
    (
      λ e.
          let parts = or.0 (ih.0 e).0 in
          (omega (arith, parts), (omega (arith, xor.0 (omega (arith, parts)), p, q), (ih.0 e).1)),
      λ e.
          let same : d % 2 ^ 8 ≡ 0 = omega (arith, xor.1 (omega (arith, e.1.0))) in
          ih.1 (or.1 (omega (arith, e.0), same), e.1.1),
    )

-- For two texts of bytes, of any length, the comparison answers true exactly if their sizes
-- agree modulo 256 and the shorter one is a prefix of the longer one.
pub constant_time_equals_iff :
    (a b : Bytes)
    → All IsByte a
    → All IsByte b
    → (constant_time_equals a b ≡ true) ↔ ((length a % 256 ≡ length b % 256) × Agrees a b)
unfolding constant_time_equals
constant_time_equals_iff a b p q =
    let r = bit_xor (length a) (length b) % 256 in
    let loop = compare_loop-zero_iff r a b (omega arith) p q in
    let sizes = bit_xor-low 8 (length a) (length b) in
    (
      λ e. let zero = loop.0 (eq_of_test _ e) in (sizes.0 zero.0, zero.1),
      λ h. test_of_eq _ (loop.1 (sizes.1 h.0, h.1)),
    )
  where
    eq_of_test : (n : ℕ) → (n == 0) ≡ true → n ≡ 0
    eq_of_test n e = ground arith

    test_of_eq : (n : ℕ) → n ≡ 0 → (n == 0) ≡ true
    test_of_eq n e = ground arith

eq_of_Agrees : (a b : Bytes) → length a ≡ length b → Agrees a b → a ≡ b
eq_of_Agrees [] [] h g = refl
eq_of_Agrees [] (y ∷ b) h g = absurd (omega arith)
eq_of_Agrees (x ∷ a) [] h g = absurd (omega arith)
eq_of_Agrees (x ∷ a) (y ∷ b) h g = cc (g.0, eq_of_Agrees a b (omega arith) g.1)

Agrees-append : (a b : Bytes) → Agrees (a ++ b) a
Agrees-append [] [] = tt
Agrees-append [] (y ∷ b) = tt
Agrees-append (x ∷ a) b = (refl, Agrees-append a b)

Agrees-refl : (a : Bytes) → Agrees a a
Agrees-refl [] = tt
Agrees-refl (x ∷ a) = (refl, Agrees-refl a)

-- For two texts whose sizes differ by less than 256, the comparison is equality.
pub constant_time_equals-eq :
    (a b : Bytes)
    → All IsByte a
    → All IsByte b
    → length a < length b + 256
    → length b < length a + 256
    → (constant_time_equals a b ≡ true) ↔ (a ≡ b)
constant_time_equals-eq a b p q h k =
    let iff = constant_time_equals_iff a b p q in
    (
      λ e. eq_of_Agrees a b (omega (arith, (iff.0 e).0)) (iff.0 e).1,
      λ e. iff.1 (ap (λ t. length t % 256) e, rw (← e) (Agrees-refl a)),
    )

-- The comparison also takes a text for its own extension by any multiple of 256 bytes.
pub constant_time_equals-append :
    (key tail : Bytes)
    → All IsByte key
    → All IsByte tail
    → length tail % 256 ≡ 0
    → constant_time_equals (key ++ tail) key ≡ true
constant_time_equals-append key tail p q h =
    (constant_time_equals_iff (key ++ tail) key (All-append IsByte key tail p q) p).1
      (omega (arith, length-append key tail), Agrees-append key tail)
