-- ===== src/Base/Bits.antt =====
-- `^`, `|` and `&` at every width, from their recursion on binary digits.
use Prim.Native.Nat.{
  ℕ, zero, suc, ◌+◌, ◌*◌, ◌/◌, ◌%◌, ◌^◌, ◌≤◌, ◌<◌, min, max, digits, differ, bit_and, bit_or,
  bit_xor, bit_and-bitwise, bit_or-bitwise, bit_xor-bitwise,
}
use mathlib.Core.Path.{◌≡◌, refl, ap, sym, ◌∙◌}
use mathlib.Core.Logic.{◌↔◌}
use native.Mathlib.Omega.{arith}
use native.Mathlib.Nat.{pow-succ', one-le-pow}

-- The recursion on digits needs no more fuel than the first operand.
module _ (rest : ℕ → ℕ) (op : ℕ → ℕ → ℕ) where
  surplus : (a b n m : ℕ) → a ≤ m → a ≤ n → digits rest op n a b ≡ digits rest op m a b
  surplus zero b (suc n) (suc m) h k = refl
  surplus zero b (suc n) zero h k = refl
  surplus zero b zero (suc m) h k = refl
  surplus zero b zero zero h k = refl
  surplus (suc a) b n zero h k = absurd (omega (arith, h))
  surplus (suc a) b zero (suc m) h k = absurd (omega (arith, k))
  surplus (suc a) b (suc n) (suc m) h k =
      let half = suc a / 2 in
      ap (λ (t : ℕ). t * 2 + op (suc a % 2) (b % 2))
        (surplus half (b / 2) n m (omega (arith, h)) (omega (arith, k)))

  lowest_digit :
      (a b : ℕ)
      → let half = suc a / 2 in
        digits rest op (suc a) (suc a) b
        ≡ digits rest op half half (b / 2) * 2 + op (suc a % 2) (b % 2)
  lowest_digit a b =
      let half = suc a / 2 in
      ap (λ (t : ℕ). t * 2 + op (suc a % 2) (b % 2))
        (surplus half (b / 2) a half (omega arith) (omega arith))

pub bit_xor_step : (a b : ℕ) → bit_xor a b ≡ bit_xor (a / 2) (b / 2) * 2 + differ (a % 2) (b % 2)
bit_xor_step (suc a) b = simp bit_xor-bitwise (lowest_digit (λ y. y) differ a b)
bit_xor_step zero b = simp bit_xor-bitwise (omega arith)

pub bit_or_step : (a b : ℕ) → max (a % 2) (b % 2) + 2 * bit_or (a / 2) (b / 2) ≡ bit_or a b
bit_or_step (suc a) b = simp bit_or-bitwise (omega (arith, lowest_digit (λ y. y) max a b))
bit_or_step zero b = simp bit_or-bitwise (omega arith)

mod_double : (x m : ℕ) → 0 < m → x % (2 * m) ≡ 2 * (x / 2 % m) + x % 2
mod_double x m h = grind arith

differ-zero_iff : (a b : ℕ) → (differ a b ≡ 0) ↔ (a ≡ b)
differ-zero_iff zero b = (λ h. omega arith, λ h. omega arith)
differ-zero_iff (suc a) zero = (λ h. h, λ h. h)
differ-zero_iff (suc a) (suc b) =
    let ih = differ-zero_iff a b in (λ h. omega (arith, ih.0 h), λ h. ih.1 (omega arith))

differ_small : (x y : ℕ) → x < 2 → y < 2 → differ x y < 2
differ_small zero y p q = q
differ_small (suc x) zero p q = p
differ_small (suc x) (suc y) p q = differ_small x y (omega arith) (omega arith)

-- The lowest digit and the others.
xor_halves :
    (a b m : ℕ)
    → 0 < m
    → bit_xor a b % (2 * m) ≡ 2 * (bit_xor (a / 2) (b / 2) % m) + differ (a % 2) (b % 2)
xor_halves a b m h = omega (
  arith,
  bit_xor_step a b,
  mod_double (bit_xor a b) m h,
  differ_small (a % 2) (b % 2) (omega arith) (omega arith),
  ap (λ (t : ℕ). t % m) half,
)
  where
    half : bit_xor a b / 2 ≡ bit_xor (a / 2) (b / 2)
    half = omega (arith, bit_xor_step a b, differ_small (a % 2) (b % 2) (omega arith) (omega arith))

-- The low `k` bits of `a ^ b` are zero exactly when those of `a` and `b` agree.
pub bit_xor-low : (k a b : ℕ) → (bit_xor a b % 2 ^ k ≡ 0) ↔ (a % 2 ^ k ≡ b % 2 ^ k)
bit_xor-low zero a b = (λ h. omega arith, λ h. omega arith)
bit_xor-low (suc k) a b =
    let m = 2 ^ k in
    let pos : 0 < m = one-le-pow k 2 (omega arith) in
    let ih = bit_xor-low k (a / 2) (b / 2) in
    let d = differ-zero_iff (a % 2) (b % 2) in
    rw pow-succ' (
      rw (xor_halves a b m pos, mod_double a m pos, mod_double b m pos)
        (
          λ h. omega (arith, ih.0 (omega arith), d.0 (omega arith)),
          λ h. omega (arith, ih.1 (omega arith), d.1 (omega arith)),
        ))

or_halves :
    (a b m : ℕ)
    → 0 < m
    → bit_or a b % (2 * m) ≡ 2 * (bit_or (a / 2) (b / 2) % m) + max (a % 2) (b % 2)
or_halves a b m h =
    omega (arith, bit_or_step a b, mod_double (bit_or a b) m h, ap (λ (t : ℕ). t % m) half)
  where
    half : bit_or a b / 2 ≡ bit_or (a / 2) (b / 2)
    half = omega (arith, bit_or_step a b)

-- The low `k` bits of `a | b` are zero exactly when those of both are.
pub bit_or-low : (k a b : ℕ) → (bit_or a b % 2 ^ k ≡ 0) ↔ ((a % 2 ^ k ≡ 0) × (b % 2 ^ k ≡ 0))
bit_or-low zero a b = (λ h. (omega arith, omega arith), λ h. omega arith)
bit_or-low (suc k) a b =
    let m = 2 ^ k in
    let pos : 0 < m = one-le-pow k 2 (omega arith) in
    let ih = bit_or-low k (a / 2) (b / 2) in
    rw pow-succ' (
      rw (or_halves a b m pos, mod_double a m pos, mod_double b m pos)
        (
          λ h. let p = ih.0 (omega arith) in (omega (arith, p), omega (arith, p)),
          λ h. omega (arith, ih.1 (omega arith, omega arith)),
        ))

pub bit_and_step : (a b : ℕ) → min (a % 2) (b % 2) + 2 * bit_and (a / 2) (b / 2) ≡ bit_and a b
bit_and_step (suc a) b = simp bit_and-bitwise (omega (arith, lowest_digit (λ y. 0) min a b))
bit_and_step zero b = simp bit_and-bitwise (omega arith)

-- `>> k`, one place at a time.
unfoldable pub shift : ℕ → ℕ → ℕ
shift zero x = x
shift (suc k) x = shift k (x / 2)

pub shift-bit_or : (k a b : ℕ) → shift k (bit_or a b) ≡ bit_or (shift k a) (shift k b)
unfolding shift
shift-bit_or zero a b = refl
shift-bit_or (suc k) a b = ap (shift k) half ∙ shift-bit_or k (a / 2) (b / 2)
  where
    half : bit_or a b / 2 ≡ bit_or (a / 2) (b / 2)
    half = omega (arith, bit_or_step a b)

pub shift-bit_and : (k a b : ℕ) → shift k (bit_and a b) ≡ bit_and (shift k a) (shift k b)
unfolding shift
shift-bit_and zero a b = refl
shift-bit_and (suc k) a b = ap (shift k) half ∙ shift-bit_and k (a / 2) (b / 2)
  where
    half : bit_and a b / 2 ≡ bit_and (a / 2) (b / 2)
    half = omega (arith, bit_and_step a b)

div_double : (x m : ℕ) → 0 < m → x / (2 * m) ≡ x / 2 / m
div_double x m h = grind arith

pub shift-div : (k x : ℕ) → shift k x ≡ x / 2 ^ k
unfolding shift
shift-div zero x = omega arith
shift-div (suc k) x =
    rw pow-succ' (shift-div k (x / 2) ∙ sym (div_double x (2 ^ k) (one-le-pow k 2 (omega arith))))
