-- ===== src/Metrics/Laws.antt =====
-- The gauge of active jobs.
use voxtral_server.Metrics.{increment, decrement}
use voxtral_server.Base.{zero, suc, ◌≡◌, refl}
use voxtral_server.Base.Int.{ℤ, pos, negsuc}

pub decrement-increment : (g : ℤ) → decrement (increment g) ≡ g
unfolding decrement increment
decrement-increment (pos n) = refl
decrement-increment (negsuc zero) = refl
decrement-increment (negsuc (suc n)) = refl
