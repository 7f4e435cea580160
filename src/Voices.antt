-- ===== src/Voices.antt =====
-- `Voice` and `VoiceCatalog` (include/tts/voices.hpp, src/tts/voices.cpp).
pub mod Laws
mod Tests
use voxtral_server.Base.{
  String, Bool, true, false, Option, none, some, List, ◌∷◌, ◌++◌, if◌then◌else◌, keep, Bytes, bytes,
  eq_bytes, [],
}

pub record Voice : Type 0 where
  pub id : Bytes
  pub name : Bytes
  pub language : Bytes

pub record VoiceCatalog : Type 0 where
  pub voices : List Voice

abbrev voice : String → String → String → Voice
voice id name language = record { id = bytes id; name = bytes name; language = bytes language }

-- The constructor.
unfoldable pub catalog : VoiceCatalog
catalog = record {
  voices =
      voice "ar_male" "Arabic Male" "ar"
      ∷ voice "de_female" "German Female" "de"
      ∷ voice "de_male" "German Male" "de"
      ∷ voice "casual_female" "Casual Female" "en"
      ∷ voice "casual_male" "Casual Male" "en"
      ∷ voice "cheerful_female" "Cheerful Female" "en"
      ∷ voice "neutral_female" "Neutral Female" "en"
      ∷ voice "neutral_male" "Neutral Male" "en"
      ∷ voice "es_female" "Spanish Female" "es"
      ∷ voice "es_male" "Spanish Male" "es"
      ∷ voice "fr_female" "French Female" "fr"
      ∷ voice "fr_male" "French Male" "fr"
      ∷ voice "hi_female" "Hindi Female" "hi"
      ∷ voice "hi_male" "Hindi Male" "hi"
      ∷ voice "it_female" "Italian Female" "it"
      ∷ voice "it_male" "Italian Male" "it"
      ∷ voice "nl_female" "Dutch Female" "nl"
      ∷ voice "nl_male" "Dutch Male" "nl"
      ∷ voice "pt_female" "Portuguese Female" "pt"
      ∷ voice "pt_male" "Portuguese Male" "pt"
      ∷ [];
}

-- `std::ranges::find(voices_, id, &Voice::id)`
unfoldable pub find_id : Bytes → List Voice → Option Voice
find_id id [] = none
find_id id (v ∷ vs) = if eq_bytes v.id id then some v else find_id id vs

unfoldable pub find : VoiceCatalog → Bytes → Option Voice
find c id = find_id id c.voices

unfoldable pub all : VoiceCatalog → List Voice
all c = c.voices

unfoldable pub by_language : VoiceCatalog → Bytes → List Voice
by_language c language = keep (λ v. eq_bytes v.language language) c.voices

abbrev pub is_some {ℓ} : {A : Type ℓ} → Option A → Bool
is_some none = false
is_some (some a) = true

unfoldable pub is_valid : VoiceCatalog → Bytes → Bool
is_valid c id = is_some (find c id)

-- The loop of `list_valid_ids`: the separator comes before every voice but the first.
unfoldable pub print_ids : Bool → List Voice → Bytes
print_ids first [] = []
print_ids first (v ∷ vs) = (if first then [] else bytes ", ") ++ (v.id ++ print_ids false vs)

unfoldable pub list_valid_ids : VoiceCatalog → Bytes
list_valid_ids c = print_ids true c.voices
