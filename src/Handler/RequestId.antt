-- ===== src/Handler/RequestId.antt =====
-- `generate_request_id` (src/server/request_handler.cpp), on the four random 32-bit words.
use Prim.Native.Nat.{bit_and, bit_or}
use voxtral_server.Base.Bits.{
  bit_or_step, bit_and_step, shift, shift-bit_or, shift-bit_and, shift-div,
}
use voxtral_server.Base.{
  ℕ, zero, suc, ◌+◌, ◌-◌, ◌/◌, ◌%◌, ◌^◌, ◌≤◌, ◌<◌, ◌≡◌, refl, ap, ◌∙◌, ◌⊎◌, inr, some, [], ◌∷◌,
  arith, ltb, if◌then◌else◌, length, get_elem?, All, Bytes,
}

unfoldable pub hex_digit : ℕ → ℕ
hex_digit d = if ltb d 10 then b'0' + d else b'a' + (d - 10)

-- `%0wx` of a number below 16 ^ w, in front of `rest`: all the numbers that are printed are so small.
unfoldable pub print_hex : ℕ → ℕ → Bytes → Bytes
print_hex zero n rest = rest
print_hex (suc w) n rest = print_hex w (n / 16) (hex_digit (n % 16) ∷ rest)

-- `b = (b & 0xFFFF0FFF) | 0x4000`
unfoldable pub with_version : ℕ → ℕ
with_version b = bit_or (bit_and b 0xffff_0fff) 0x4000

-- `c = (c & 0x3FFFFFFF) | 0x80000000`
unfoldable pub with_variant : ℕ → ℕ
with_variant c = bit_or (bit_and c 0x3fff_ffff) 0x8000_0000

unfoldable pub generate_request_id : ℕ → ℕ → ℕ → ℕ → Bytes
generate_request_id a b c d =
    let b' = with_version b in
    let c' = with_variant c in
    print_hex 8 a (
      b'-'
      ∷ print_hex 4 (b' / 2 ^ 16 % 2 ^ 16) (
          b'-'
          ∷ print_hex 4 (b' % 2 ^ 16) (
              b'-'
              ∷ print_hex 4 (c' / 2 ^ 16 % 2 ^ 16)
                  (b'-' ∷ print_hex 4 (c' % 2 ^ 16) (print_hex 8 d [])))))

version_bits : (x : ℕ) → bit_or (bit_and x 0xffff0) 4 % 16 ≡ 4
version_bits x =
    let y = bit_and x 0xffff0 in
    omega (
      arith,
      bit_or_step y 4,
      bit_or_step (y / 2) 2,
      bit_or_step (y / 2 / 2) 1,
      bit_or_step (y / 2 / 2 / 2) 0,
      bit_and_step x 0xffff0,
      bit_and_step (x / 2) 0x7fff8,
      bit_and_step (x / 2 / 2) 0x3fffc,
      bit_and_step (x / 2 / 2 / 2) 0x1fffe,
    )

variant_bits : (x : ℕ) → bit_or (bit_and x 3) 8 % 16 ≡ 8 + x % 4
variant_bits x =
    let y = bit_and x 3 in
    omega (
      arith,
      bit_or_step y 8,
      bit_or_step (y / 2) 4,
      bit_or_step (y / 2 / 2) 2,
      bit_or_step (y / 2 / 2 / 2) 1,
      bit_and_step x 3,
      bit_and_step (x / 2) 1,
      bit_and_step (x / 2 / 2) 0,
      bit_and_step (x / 2 / 2 / 2) 0,
    )

-- A mask and a mark, seen from the bit `k` on.
masked :
    (k word mask mark : ℕ)
    → bit_or (bit_and word mask) mark / 2 ^ k
      ≡ bit_or (bit_and (word / 2 ^ k) (mask / 2 ^ k)) (mark / 2 ^ k)
masked k word mask mark =
    rw
      (
        ← shift-div k (bit_or (bit_and word mask) mark),
        ← shift-div k word,
        ← shift-div k mask,
        ← shift-div k mark,
      )
      (shift-bit_or k (bit_and word mask) mark
        ∙ ap (λ (t : ℕ). bit_or t (shift k mark)) (shift-bit_and k word mask))

-- The digits that `with_version` and `with_variant` set.
version_digit : (b : ℕ) → with_version b / 2 ^ 12 % 16 ≡ 4
unfolding with_version
version_digit b =
    ap (λ (t : ℕ). t % 16) (masked 12 b 0xffff_0fff 0x4000) ∙ version_bits (b / 2 ^ 12)

variant_digit : (c : ℕ) → with_variant c / 2 ^ 28 % 16 ≡ 8 + c / 2 ^ 28 % 4
unfolding with_variant
variant_digit c =
    ap (λ (t : ℕ). t % 16) (masked 28 c 0x3fff_ffff 0x8000_0000) ∙ variant_bits (c / 2 ^ 28)

-- A digit of a request id, or the sign between its groups.
abbrev pub IsUuidByte : ℕ → Type 0
IsUuidByte c = ((b'0' ≤ c) × (c ≤ b'9')) ⊎ ((b'a' ≤ c) × (c ≤ b'f')) ⊎ (c ≡ b'-')

-- Every byte is one of them.
unfoldable pub IsUuidText : Bytes → Type 0
IsUuidText s = All IsUuidByte s

hex_digit-IsUuidByte : (d : ℕ) → d < 16 → IsUuidByte (hex_digit d)
unfolding hex_digit
hex_digit-IsUuidByte d h = ground (arith, h)

print_hex-IsUuidText : (w n : ℕ) (rest : Bytes) → IsUuidText rest → IsUuidText (print_hex w n rest)
unfolding print_hex IsUuidText
print_hex-IsUuidText zero n rest h = h
print_hex-IsUuidText (suc w) n rest h =
    print_hex-IsUuidText w (n / 16) (hex_digit (n % 16) ∷ rest)
      (hex_digit-IsUuidByte (n % 16) (omega arith), h)

group-IsUuidText :
    (w n : ℕ) (rest : Bytes) → IsUuidText rest → IsUuidText (b'-' ∷ print_hex w n rest)
unfolding IsUuidText
group-IsUuidText w n rest h = (inr (inr refl), print_hex-IsUuidText w n rest h)

request_id-IsUuidText : (a b c d : ℕ) → IsUuidText (generate_request_id a b c d)
unfolding generate_request_id
request_id-IsUuidText a b c d = print_hex-IsUuidText 8 a _ (
    group-IsUuidText 4 _ _ (
      group-IsUuidText 4 _ _ (
        group-IsUuidText 4 _ _
          (group-IsUuidText 4 _ _ (print_hex-IsUuidText 8 d [] (unfold IsUuidText in tt))))))

-- What RFC 4122 asks of the text of a random UUID.
pub record IsUuid4 (id : Bytes) : Type 0 where
  pub size : length id ≡ 36
  pub digits : IsUuidText id
  pub first_dash : get_elem? id 8 ≡ some b'-'
  pub second_dash : get_elem? id 13 ≡ some b'-'
  pub third_dash : get_elem? id 18 ≡ some b'-'
  pub fourth_dash : get_elem? id 23 ≡ some b'-'
  pub version : get_elem? id 14 ≡ some b'4'
  pub variant : (d : ℕ) × (8 ≤ d) × (d ≤ 11) × (get_elem? id 19 ≡ some (hex_digit d))

-- Whatever the four random words are, the request id is a text of 36 bytes, all of them
-- lower-case hexadecimal digits or "-", with "-" at 8, 13, 18 and 23, the digit "4" at 14 and a
-- digit from 8 to b at 19, as RFC 4122 asks of a random UUID.
pub generate_request_id-IsUuid4 : (a b c d : ℕ) → IsUuid4 (generate_request_id a b c d)
unfolding generate_request_id print_hex
generate_request_id-IsUuid4 a b c d = record {
  size = refl;
  digits = request_id-IsUuidText a b c d;
  first_dash = refl;
  second_dash = refl;
  third_dash = refl;
  fourth_dash = refl;
  version = ap (λ (t : ℕ). some (hex_digit t)) version ∙ four;
  variant =
      (8 + c / 2 ^ 28 % 4, omega arith, omega arith, ap (λ (t : ℕ). some (hex_digit t)) variant);
}
  where
    version : with_version b % 2 ^ 16 / 16 / 16 / 16 % 16 ≡ 4
    version = omega (arith, version_digit b)

    four : some (hex_digit 4) ≡ some b'4'
    four = unfold hex_digit in refl

    variant : with_variant c / 2 ^ 16 % 2 ^ 16 / 16 / 16 / 16 % 16 ≡ 8 + c / 2 ^ 28 % 4
    variant = omega (arith, variant_digit c)
