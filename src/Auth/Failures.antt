-- ===== src/Auth/Failures.antt =====
-- `AuthRateLimiter` (include/tts/auth.hpp). A time point is a number of nanoseconds; each call is
-- one critical section of the mutex, with the clock readings that it takes as arguments: `now`, and
-- `created`, the reading of the initialiser of an entry that `operator[]` makes.
pub mod Eviction
pub mod Window
pub mod Cells
use voxtral_server.Base.{
  ℕ, zero, suc, ◌+◌, ◌*◌, ◌%◌, ◌^◌, Bool, true, false, not, ◌&&◌, Option, none, some, List, ◌∷◌,
  ltb, if◌then◌else◌, length, keep, Bytes, eq_bytes, Table, find?, assign, [],
}
use voxtral_server.Base.Int.{ℤ, pos, negsuc, pos_part, neg_part, ltb_ℤ, ◌≤ℤ◌}

pub record IpState : Type 0 where
  pub failures : ℕ
  pub window_start : ℕ

pub record AuthRateLimiter : Type 0 where
  pub max_failures : ℕ
  pub window_secs : ℤ
  pub max_tracked_ips : ℕ
  pub ip_states : Table IpState

abbrev pub second : ℕ
second = 1_000_000_000

-- `now - window_start > window_secs`
unfoldable pub is_expired : ℤ → ℕ → IpState → Bool
is_expired (pos s) now state = ltb (state.window_start + s * second) now
is_expired (negsuc s) now state = ltb state.window_start (now + suc s * second)

-- The first loop of `evict_to_cap`.
unfoldable pub remove_expired : ℤ → ℕ → Table IpState → Table IpState
remove_expired window now = keep (λ entry. not (is_expired window now entry.1))

-- The inner loop: the position of the entry that `oldest` stands at, where `start` is its window.
unfoldable pub oldest : ℕ → ℕ → ℕ → Table IpState → ℕ
oldest best start i [] = best
oldest best start i ((k, s) ∷ m) =
    let older = ltb s.window_start start in
    oldest (if older then i else best) (if older then s.window_start else start) (suc i) m

-- `erase` at a position.
unfoldable pub remove_at {ℓ} : {A : Type ℓ} → ℕ → List A → List A
remove_at i [] = []
remove_at zero (x ∷ xs) = xs
remove_at (suc i) (x ∷ xs) = x ∷ remove_at i xs

-- `oldest = begin()`, the inner loop, and `erase(oldest)`.
unfoldable pub remove_oldest : Table IpState → Table IpState
remove_oldest [] = []
remove_oldest ((k, s) ∷ m) = remove_at (oldest 0 s.window_start 0 ((k, s) ∷ m)) ((k, s) ∷ m)

-- The second loop, on fuel.
unfoldable pub evict_oldest : ℕ → ℕ → Table IpState → Table IpState
evict_oldest zero cap m = m
evict_oldest (suc fuel) cap m = elim (ltb cap (length m)) [
  | true ↦ evict_oldest fuel cap (remove_oldest m)
  | false ↦ m
]

unfoldable pub evict_to_cap : AuthRateLimiter → ℕ → AuthRateLimiter
evict_to_cap l now =
    let live = remove_expired l.window_secs now l.ip_states in
    record l { ip_states = evict_oldest (length live) l.max_tracked_ips live }

-- `ip_states_[ip]`
unfoldable pub entry_or_new : ℕ → Option IpState → IpState
entry_or_new created none = record { failures = 0; window_start = created }
entry_or_new created (some state) = state

-- The count of one address after one more failure; `failures` is a `size_t`.
unfoldable pub count_failure : ℤ → ℕ → IpState → IpState
count_failure window now state =
    if is_expired window now state
    then record { failures = 1; window_start = now }
    else record state { failures = (state.failures + 1) % 2 ^ 64 }

unfoldable pub check_and_record_failure : AuthRateLimiter → Bytes → ℕ → ℕ → AuthRateLimiter × Bool
check_and_record_failure l ip now created =
    let state = count_failure l.window_secs now (entry_or_new created (find? ip l.ip_states)) in
    let l' = record l { ip_states = assign ip state l.ip_states } in
    let full = ltb 0 l.max_tracked_ips && ltb l.max_tracked_ips (length l'.ip_states) in
    (if full then evict_to_cap l' now else l', ltb l.max_failures state.failures)

unfoldable pub erase : Bytes → Table IpState → Table IpState
erase ip = keep (λ entry. not (eq_bytes entry.0 ip))

unfoldable pub is_blocked : AuthRateLimiter → Bytes → ℕ → AuthRateLimiter × Bool
is_blocked l ip now = elim (find? ip l.ip_states) [
  | none ↦ (l, false)
  | some state ↦
      if is_expired l.window_secs now state
      then (record l { ip_states = erase ip l.ip_states }, false)
      else (l, ltb l.max_failures state.failures)
]

-- `size`
unfoldable pub size : AuthRateLimiter → ℕ
size l = length l.ip_states
