-- ===== src/Auth/Bearer/Laws.antt =====
-- Which Authorization headers are let through.
use voxtral_server.Auth.Compare.{
  constant_time_equals, IsByte, constant_time_equals-eq, constant_time_equals-append,
}
use voxtral_server.Auth.Bearer.{bearer_prefix, check_bearer_auth}
use voxtral_server.Base.{
  ℕ, zero, suc, ◌+◌, ◌-◌, ◌%◌, ◌<◌, ◌≡◌, refl, ap, ◌∙◌, ◌↔◌, true, false, [], ◌∷◌, ◌++◌, arith,
  length, take, drop, All, length-append, take-append, Bytes, eq_bytes_iff, eq_bytes_refl, is_empty,
}

abbrev pub IsAuthenticated : Bytes → Bytes → Type 0
IsAuthenticated auth_header api_key = (check_bearer_auth auth_header api_key).authenticated ≡ true

take-drop : (n : ℕ) (s : Bytes) → take n s ++ drop n s ≡ s
take-drop zero s = refl
take-drop (suc n) [] = refl
take-drop (suc n) (c ∷ s) = ap (◌∷◌ c) (take-drop n s)

drop-length-append : (s t : Bytes) → drop (length s) (s ++ t) ≡ t
drop-length-append [] t = refl
drop-length-append (c ∷ s) t = drop-length-append s t

length-drop : (n : ℕ) (s : Bytes) → length (drop n s) ≡ length s - n
length-drop zero s = omega arith
length-drop (suc n) [] = omega arith
length-drop (suc n) (c ∷ s) = omega (arith, length-drop n s)

is_empty_of_length : (s : Bytes) → 0 < length s → is_empty s ≡ false
unfolding is_empty
is_empty_of_length [] h = absurd (omega arith)
is_empty_of_length (c ∷ s) h = refl

-- A header that is let through holds the prefix and a token that the comparison takes for the key.
token_of_IsAuthenticated :
    (auth_header api_key : Bytes)
    → IsAuthenticated auth_header api_key
    → (token : Bytes) × (auth_header ≡ bearer_prefix ++ token)
      × (0 < length token)
      × (constant_time_equals token api_key ≡ true)
unfolding check_bearer_auth
token_of_IsAuthenticated auth_header api_key h = (
  drop (length bearer_prefix) auth_header,
  ground (
    arith,
    eq_bytes_iff (take (length bearer_prefix) auth_header) bearer_prefix,
    take-drop (length bearer_prefix) auth_header,
  ),
  ground (arith, length-drop (length bearer_prefix) auth_header),
  ground arith,
)

IsAuthenticated-of_token :
    (token api_key : Bytes)
    → 0 < length token
    → constant_time_equals token api_key ≡ true
    → IsAuthenticated (bearer_prefix ++ token) api_key
unfolding check_bearer_auth is_empty
IsAuthenticated-of_token token api_key h k = ground (
  arith,
  is_empty_of_length (bearer_prefix ++ token),
  length-append bearer_prefix token,
  take-append bearer_prefix token,
  drop-length-append bearer_prefix token,
  eq_bytes_refl bearer_prefix,
)

All-suffix : (s t : Bytes) → All IsByte (s ++ t) → All IsByte t
All-suffix [] t h = h
All-suffix (c ∷ s) t h = All-suffix s t h.1

-- For a header and a key of bytes, a key of 1 to 255 bytes and a header that is shorter than
-- the prefix, the key and 256 bytes together, exactly the header that is the prefix "Bearer "
-- followed by the key is let through.
pub check_bearer_auth_iff :
    (auth_header api_key : Bytes)
    → All IsByte auth_header
    → All IsByte api_key
    → 0 < length api_key
    → length auth_header < length bearer_prefix + length api_key + 256
    → length api_key < 256
    → IsAuthenticated auth_header api_key ↔ (auth_header ≡ bearer_prefix ++ api_key)
check_bearer_auth_iff auth_header api_key p q pos short small = (
  λ h.
      let (token, same, _, equal) = token_of_IsAuthenticated auth_header api_key h in
      let sizes = ap length same ∙ length-append bearer_prefix token in
      let p' = All-suffix bearer_prefix token (rw same at p) in
      rw ((constant_time_equals-eq token api_key p' q (omega (arith, sizes)) (omega arith)).0 equal)
        at same,
  λ e. rw e (
      IsAuthenticated-of_token api_key api_key pos
        ((constant_time_equals-eq api_key api_key q q (omega arith) (omega arith)).1 refl)),
)

-- Whatever the key of bytes is, the header with the prefix, the key and any further bytes whose
-- number is a positive multiple of 256 is let through too.
pub check_bearer_auth-append :
    (api_key tail : Bytes)
    → All IsByte api_key
    → All IsByte tail
    → 0 < length tail
    → length tail % 256 ≡ 0
    → IsAuthenticated (bearer_prefix ++ (api_key ++ tail)) api_key
check_bearer_auth-append api_key tail p q h k =
    IsAuthenticated-of_token (api_key ++ tail) api_key (omega (arith, length-append api_key tail))
      (constant_time_equals-append api_key tail p q k)
