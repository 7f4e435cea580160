-- ===== src/Backend/Pcm/Samples.antt =====
-- The conversion of one sample: its range, its ends and its signs.
use native.Mathlib.Nat.{pow-le-pow_right}
use voxtral_server.Backend.Pcm.{
  minus_one, fmin, fmax, clamp, exponent, significand, round_even, rounded, scaled, to_sample,
}
use voxtral_server.Base.Float.{Float, is_nan, less, negate, one}
use voxtral_server.Base.{
  ℕ, zero, suc, ◌+◌, ◌-◌, ◌*◌, ◌/◌, ◌%◌, ◌^◌, ◌≤◌, ◌<◌, ◌≡◌, refl, inl, inr, false, arith, ◌==◌,
  Bool-cases,
}
use voxtral_server.Base.Int.{ℤ, pos, negsuc, ◌≤ℤ◌}

round_even-le : (k p : ℕ) → round_even k p ≤ p / 2 ^ suc k + 1
unfolding round_even
round_even-le k p = ground arith

-- abc
rounded-le : (p : ℕ) → rounded p ≤ p + 2 ^ 15
unfolding rounded
rounded-le p = ground (arith, round_even-le 13 p, round_even-le 14 p)

full_scale : rounded (2 ^ 23 * 32_767) / 2 ^ 23 ≡ 32_767
unfolding rounded round_even
full_scale = refl

less_divisor : (x d e : ℕ) → 0 < d → d ≤ e → x / e ≤ x / d
less_divisor x d e h k = grind (arith, h, k)

clamp-range : (x : Float) → x < 2 ^ 32 → (clamp x % 2 ^ 31 ≤ one) × (clamp x < 2 ^ 32)
unfolding clamp fmin fmax less
clamp-range x h = ground (arith, h)

-- Below 1 the unit is a half of the largest one, or smaller.
below_one-le :
    (w : Float)
    → exponent w < 127
    → rounded (significand w * 32_767) / 2 ^ (150 - exponent w) ≤ 32_767
below_one-le w h =
    let bits : 24 ≤ 150 - exponent w = omega (arith, h) in
    let units : 2 ^ 24 ≤ 2 ^ (150 - exponent w) = pow-le-pow_right {n = 2} (omega arith) bits in
    omega (
      arith,
      less_divisor (rounded (significand w * 32_767)) (2 ^ 24) (2 ^ (150 - exponent w))
          (omega arith) units,
      rounded-le (significand w * 32_767),
    )

scaled-le : (w : Float) → w % 2 ^ 31 ≤ one → scaled w ≤ 32_767
unfolding scaled
scaled-le w h = elim (Bool-cases (exponent w == 0)) [
  | inl small ↦ rw small (omega arith)
  | inr normal ↦ rw normal (elim (Bool-cases (exponent w == 127)) [
    | inl whole ↦
        let e : exponent w ≡ 127 = ground (arith, whole) in
        let m : w % 2 ^ 23 ≡ 0 = omega (arith, e, h) in rw (e, m, full_scale) (omega arith)
    | inr less_than_one ↦ below_one-le w (ground (arith, less_than_one, h))
  ])
]

unfoldable pub opposite : ℤ → ℤ
opposite (pos n) = negate n
opposite (negsuc n) = pos (suc n)

-- The pattern with the other sign.
abbrev pub flip : Float → Float
flip x = (x + 2 ^ 31) % 2 ^ 32

scaled-flip : (w : Float) → scaled (flip w) ≡ scaled w
scaled-flip w =
    let e : exponent (flip w) ≡ exponent w = omega arith in
    let s : flip w % 2 ^ 23 ≡ w % 2 ^ 23 = omega arith in unfold scaled in rw (e, s) refl

clamp-flip : (x : Float) → x < 2 ^ 32 → is_nan x ≡ false → clamp (flip x) ≡ flip (clamp x)
unfolding clamp fmin fmax less
clamp-flip x h n = ground (arith, h, n)

opposite-negate : (n : ℕ) → opposite (negate n) ≡ pos n
unfolding opposite
opposite-negate zero = refl
opposite-negate (suc n) = refl

to_sample-flip :
    (x : Float) → x < 2 ^ 32 → is_nan x ≡ false → to_sample (flip x) ≡ opposite (to_sample x)
unfolding to_sample opposite
to_sample-flip x h n =
    rw (clamp-flip x h n, scaled-flip (clamp x))
      (ground (arith, clamp-range x h, opposite-negate (scaled (clamp x))))

ends : (scaled one ≡ 32_767) × (scaled minus_one ≡ 32_767)
unfolding scaled rounded round_even
ends = (refl, refl)

clamp-loud : (x : Float) → x < 2 ^ 32 → less x one ≡ false → clamp x ≡ one
unfolding clamp fmin fmax less
clamp-loud x h e = ground (arith, h, e)

clamp-low :
    (x : Float) → x < 2 ^ 32 → less minus_one x ≡ false → is_nan x ≡ false → clamp x ≡ minus_one
unfolding clamp fmin fmax less
clamp-low x h e n = ground (arith, h, e, n)

-- What the conversion makes of a sample.
pub record IsConverted (x : Float) (sample : ℤ) : Type 0 where
  -- never -32768, whatever the pattern is
  pub range : (negsuc 32_766 ≤ℤ sample) × (sample ≤ℤ pos 32_767)
  pub loud : less x one ≡ false → sample ≡ pos 32_767
  pub low : less minus_one x ≡ false → is_nan x ≡ false → sample ≡ negsuc 32_766
  pub odd : is_nan x ≡ false → to_sample (flip x) ≡ opposite sample

-- Whatever pattern of 32 bits a sample is, its conversion lies between -32767 and 32767; it is
-- 32767 for 1, what is above it, and a NaN, and -32767 for -1 and what is below it; and but for
-- a NaN the sample with the other sign has the opposite conversion.
pub to_sample-IsConverted : (x : Float) → x < 2 ^ 32 → IsConverted x (to_sample x)
to_sample-IsConverted x h = record {
  range = (unfold to_sample in ground (arith, scaled-le (clamp x) (clamp-range x h).0));
  loud = λ e. unfold to_sample in rw (clamp-loud x h e, ends.0) refl;
  low = λ e n. unfold to_sample in rw (clamp-low x h e n, ends.1) refl;
  odd = to_sample-flip x h;
}
