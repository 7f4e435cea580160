-- ===== src/Voices/Laws.antt =====
-- Looking up and filtering the catalog.
use voxtral_server.Voices.{Voice, VoiceCatalog, find_id, find, all, by_language, is_valid}
use voxtral_server.Base.{
  ◌≡◌, refl, sym, ap, ◌∙◌, ◌≢◌, ◌↔◌, ◌⊎◌, inl, inr, Bool, true, false, none, some, List, [], ◌∷◌,
  ◌++◌, Bool-cases, keep, All, Bytes, eq_bytes, eq_bytes_iff,
}

-- The first voice with an id, and the voices in front of it.
pub record FirstWith (id : Bytes) (vs : List Voice) (v : Voice) : Type 0 where
  pub before : List Voice
  pub after : List Voice
  pub split : vs ≡ before ++ v ∷ after
  pub same : v.id ≡ id
  pub others : All (λ w. w.id ≢ id) before

find_id_cases :
    (id : Bytes) (vs : List Voice)
    → ((find_id id vs ≡ none) × All (λ v. v.id ≢ id) vs)
      ⊎ ((v : Voice) × (find_id id vs ≡ some v) × FirstWith id vs v)
unfolding find_id
find_id_cases id [] = inl (refl, tt)
find_id_cases id (v ∷ vs) = elim (Bool-cases (eq_bytes v.id id)) [
  | inl hit ↦ rw hit (
      inr (
        v,
        refl,
        record {
          before = [];
          after = vs;
          split = refl;
          same = (eq_bytes_iff v.id id).0 hit;
          others = tt;
        },
      ))
  | inr miss ↦
      let ne : v.id ≢ id = λ e. cc ((eq_bytes_iff v.id id).1 e, miss) in
      rw miss (elim (find_id_cases id vs) [
        | inl (e, h) ↦ inl (e, (ne, h))
        | inr (w, e, f) ↦ inr (
          w,
          e,
          record {
            before = v ∷ f.before;
            after = f.after;
            split = ap (◌∷◌ v) f.split;
            same = f.same;
            others = (ne, f.others);
          },
        )
      ])
]

-- A voice id is invalid, `find` returns the null pointer and no voice of the catalog has the
-- id; or it is valid, and `find` returns the first voice that has it.
pub is_valid_cases :
    (c : VoiceCatalog) (id : Bytes)
    → ((is_valid c id ≡ false) × (find c id ≡ none) × All (λ v. v.id ≢ id) (all c))
      ⊎ ((v : Voice) × (is_valid c id ≡ true) × (find c id ≡ some v) × FirstWith id (all c) v)
unfolding is_valid find all
is_valid_cases c id = elim (find_id_cases id c.voices) [
  | inl (e, h) ↦ inl (rw e, e, h)
  | inr (v, e, f) ↦ inr (v, rw e, e, f)
]

abbrev pub In : {A : Type 0} → A → List A → Type 0
In a [] = ⊥
In a (x ∷ xs) = (x ≡ a) ⊎ In a xs

In-keep :
    {A : Type 0} (p : A → Bool) (a : A) (xs : List A) → In a (keep p xs) ↔ (In a xs × (p a ≡ true))
In-keep p a [] = (λ h. absurd h, λ h. absurd h.0)
In-keep p a (x ∷ xs) = elim (Bool-cases (p x)) [
  | inl kept ↦ rw kept (
    λ h. elim h [
      | inl e ↦ (inl e, ap p (sym e) ∙ kept)
      | inr m ↦ let (n, q) = (In-keep p a xs).0 m in (inr n, q)
    ],
    λ h. elim (h.0) [ inl e ↦ inl e | inr m ↦ inr ((In-keep p a xs).1 (m, h.1)) ],
  )
  | inr dropped ↦ rw dropped (
    λ h. let (n, q) = (In-keep p a xs).0 h in (inr n, q),
    λ h. elim (h.0) [ inl e ↦ cc (ap p e, dropped, h.1) | inr m ↦ (In-keep p a xs).1 (m, h.1) ],
  )
]

-- The voices of a language are exactly the voices of the catalog with that language code.
pub by_language_iff :
    (c : VoiceCatalog) (language : Bytes) (v : Voice)
    → In v (by_language c language) ↔ (In v (all c) × (v.language ≡ language))
unfolding by_language all
by_language_iff c language v =
    let k = In-keep (λ w. eq_bytes w.language language) v c.voices in
    let e = eq_bytes_iff v.language language in
    (λ h. ((k.0 h).0, e.0 (k.0 h).1), λ h. k.1 (h.0, e.1 h.1))
