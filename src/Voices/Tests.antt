-- ===== src/Voices/Tests.antt =====
-- Runs of the queries of the catalog.
use voxtral_server.Voices.{catalog, find_id, find, is_valid}
use voxtral_server.Base.{◌≡◌, refl, true, false, bytes, eq_bytes}

valid_ids :
    (is_valid catalog (bytes "casual_male") ≡ true) × (is_valid catalog (bytes "nobody") ≡ false)
unfolding is_valid find find_id catalog eq_bytes bytes
valid_ids = (refl, refl)
