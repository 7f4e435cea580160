-- ===== src/Validation/Laws.antt =====
-- What each validation lets through.
use voxtral_server.Base.Decimal.{to_int-eq-pos}
use voxtral_server.Base.Float.{Float, less, is_nan}
use voxtral_server.Voices.{VoiceCatalog, is_valid}
use voxtral_server.Validation.{
  ValidationResult, passed, make_validation_error, starts_with, contains, validate_content_type,
  validate_model, is_space, all_whitespace, validate_input, validate_voice,
  validate_response_format, min_speed, max_speed, validate_speed,
}
use voxtral_server.Base.{
  ℕ, suc, ◌^◌, ◌≤◌, ◌<◌, ◌≡◌, refl, ap, ◌≢◌, ◌↔◌, ◌⊎◌, inl, inr, true, false, not, ◌&&◌, [], ◌∷◌,
  ◌++◌, arith, leb, Bool-cases, length, All, Bytes, bytes, eq_bytes_iff, is_empty, is_empty_iff,
}
use voxtral_server.Base.Int.{pos}

-- A result is the success, or a refusal with one of the two statuses and the type of the API.
abbrev pub IsVerdict : ValidationResult → Type 0
IsVerdict v =
    (v ≡ passed)
    ⊎ ((v.valid ≡ false)
        × ((v.http_status ≡ 400) ⊎ (v.http_status ≡ 413))
        × (v.error_type ≡ bytes "invalid_request_error"))

starts_with_iff :
    (s part : Bytes) → (starts_with s part ≡ true) ↔ ((rest : Bytes) × (s ≡ part ++ rest))
unfolding starts_with
starts_with_iff s [] = (λ _. (s, refl), λ _. refl)
starts_with_iff [] (p ∷ ps) = (λ e. cc, λ h. cc (h.1))
starts_with_iff (c ∷ s) (p ∷ ps) = (
  λ e.
      let (rest, same) = (starts_with_iff s ps).0 (ground (arith, e)) in
      (rest, ground (arith, e, same)),
  λ h. let tail = (starts_with_iff s ps).1 (h.0, ground (arith, h.1)) in ground (arith, tail, h.1),
)

-- `part` stands somewhere in `s`.
abbrev pub Infix : Bytes → Bytes → Type 0
Infix part s = (before : Bytes) × (after : Bytes) × (s ≡ before ++ (part ++ after))

contains_of_split :
    (s part before after : Bytes) → s ≡ before ++ (part ++ after) → contains s part ≡ true
unfolding contains
contains_of_split [] part [] after e = (starts_with_iff [] part).1 (after, e)
contains_of_split [] part (b ∷ before) after e = cc
contains_of_split (c ∷ s) part [] after e =
    let here = (starts_with_iff (c ∷ s) part).1 (after, e) in rw here
contains_of_split (c ∷ s) part (b ∷ before) after e =
    let there = contains_of_split s part before after (ground (arith, e)) in ground (arith, there)

Infix_of_contains : (s part : Bytes) → contains s part ≡ true → Infix part s
unfolding contains
Infix_of_contains [] part e = let (rest, same) = (starts_with_iff [] part).0 e in ([], rest, same)
Infix_of_contains (c ∷ s) part e = elim (Bool-cases (starts_with (c ∷ s) part)) [
  | inl here ↦ let (rest, same) = (starts_with_iff (c ∷ s) part).0 here in ([], rest, same)
  | inr later ↦
      let (before, after, same) = Infix_of_contains s part (ground (arith, e, later)) in
      (c ∷ before, after, ap (◌∷◌ c) same)
]

-- A Content-Type is accepted exactly if "application/json" stands anywhere in it.
pub validate_content_type_iff :
    (content_type : Bytes)
    → ((validate_content_type content_type).valid ≡ true)
      ↔ Infix (bytes "application/json") content_type
unfolding validate_content_type passed make_validation_error
validate_content_type_iff content_type = (
  λ e. Infix_of_contains content_type (bytes "application/json") (ground (arith, e)),
  λ h. rw (contains_of_split content_type (bytes "application/json") h.0 h.1 h.2),
)

all_whitespace_iff : (s : Bytes) → (all_whitespace s ≡ true) ↔ All (λ c. is_space c ≡ true) s
unfolding all_whitespace
all_whitespace_iff [] = (λ _. tt, λ _. refl)
all_whitespace_iff (c ∷ s) = (
  λ e. (ground (arith, e), (all_whitespace_iff s).0 (ground (arith, e))),
  λ h. let rest = (all_whitespace_iff s).1 h.1 in ground (arith, h.0, rest),
)

-- The same tests as one Boolean.
input_test :
    (input : Bytes) (max_chars : ℕ)
    → length input < 2 ^ 31
    → 0 < max_chars
    → (validate_input input (pos max_chars)).valid
      ≡ (not (all_whitespace input) && leb (length input) max_chars)
unfolding validate_input passed make_validation_error is_empty all_whitespace
input_test [] max_chars small positive = refl
input_test (c ∷ s) max_chars small positive = ground (arith, to_int-eq-pos (suc (length s)) small)

-- For an input of fewer than 2 ^ 31 bytes and a positive limit, the input is accepted exactly
-- if not all of its bytes are white space and it has no more bytes than the limit.
pub validate_input_iff :
    (input : Bytes) (max_chars : ℕ)
    → length input < 2 ^ 31
    → 0 < max_chars
    → ((validate_input input (pos max_chars)).valid ≡ true)
      ↔ (¬ All (λ c. is_space c ≡ true) input × (length input ≤ max_chars))
validate_input_iff input max_chars small positive =
    let test = input_test input max_chars small positive in
    let space = all_whitespace_iff input in
    (
      λ e. (λ h. let w = space.1 h in ground (arith, test, e, w), ground (arith, test, e)),
      λ h. elim (Bool-cases (all_whitespace input)) [
        | inl w ↦ absurd (h.0 (space.0 w))
        | inr w ↦ ground (arith, test, w, h.1)
      ],
    )

voxtral_not_empty : is_empty (bytes "voxtral-4b") ≡ false
unfolding is_empty bytes
voxtral_not_empty = refl

-- A voice is accepted exactly if it is not empty and a valid id of the catalog; a model exactly
-- if it is "voxtral-4b"; a response format exactly if it is empty or "wav".
pub validate_names :
    (voice model format : Bytes) (catalog : VoiceCatalog)
    → (((validate_voice voice catalog).valid ≡ true)
        ↔ ((voice ≢ []) × (is_valid catalog voice ≡ true)))
      × (((validate_model model).valid ≡ true) ↔ (model ≡ bytes "voxtral-4b"))
      × (((validate_response_format format).valid ≡ true)
          ↔ ((format ≡ []) ⊎ (format ≡ bytes "wav")))
unfolding validate_voice validate_model validate_response_format passed make_validation_error
validate_names voice model format catalog = (
  (
    λ e. (λ empty. ground (arith, e, is_empty_iff voice, empty), ground (arith, e)),
    λ h. elim (Bool-cases (is_empty voice)) [
      | inl empty ↦ absurd (h.0 ((is_empty_iff voice).0 empty))
      | inr full ↦ ground (arith, full, h.1)
    ],
  ),
  (
    λ e. ground (arith, e, eq_bytes_iff model (bytes "voxtral-4b")),
    λ h. ground (arith, h, eq_bytes_iff model (bytes "voxtral-4b"), voxtral_not_empty),
  ),
  (
    λ e. ground (arith, e, is_empty_iff format, eq_bytes_iff format (bytes "wav")),
    λ h. ground (arith, h, is_empty_iff format, eq_bytes_iff format (bytes "wav")),
  ),
)

-- A speed, as a pattern of 32 bits, is accepted exactly if it lies between the patterns of 0.25
-- and 4.0, bounds included, or is a NaN.
pub validate_speed_iff :
    (speed : Float)
    → speed < 2 ^ 32
    → ((validate_speed speed).valid ≡ true)
      ↔ (((min_speed ≤ speed) × (speed ≤ max_speed)) ⊎ (is_nan speed ≡ true))
unfolding validate_speed passed make_validation_error less
validate_speed_iff speed h = (λ e. ground (arith, e), λ e. ground (arith, e))
