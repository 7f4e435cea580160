-- ===== src/Metrics/Tests.antt =====
-- The families of the metrics as they are registered.
use voxtral_server.Base.{
  Bool, true, not, ◌&&◌, List, [], ◌∷◌, ltb, Bytes, bytes, eq_bytes, ◌≡◌, refl,
}
use voxtral_server.Base.Float.{Double}
use voxtral_server.Validation.{starts_with}
use voxtral_server.Metrics.Registry.{Kind, counter, gauge, histogram, Family, families}

-- The bounds of positive numbers have the order of their patterns.
is_ascending : List Double → Bool
is_ascending [] = true
is_ascending (b ∷ bs) = elim bs [ [] ↦ true | c ∷ rest ↦ ltb b c ] && is_ascending bs

has_bounds : Kind → Bool
has_bounds counter = true
has_bounds gauge = true
has_bounds (histogram bounds) = is_ascending bounds

is_new : Bytes → List Family → Bool
is_new name [] = true
is_new name (f ∷ fs) = not (eq_bytes f.name name) && is_new name fs

is_proper : List Family → Bool
is_proper [] = true
is_proper (f ∷ fs) =
    starts_with f.name (bytes "opentts_") && has_bounds f.kind && is_new f.name fs && is_proper fs

-- Each family has the prefix of the server, a name of its own, and bounds in ascending order.
families_proper : is_proper families ≡ true
unfolding families is_proper is_new has_bounds is_ascending starts_with eq_bytes bytes
families_proper = refl
