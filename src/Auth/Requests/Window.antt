-- ===== src/Auth/Requests/Window.antt =====
-- The quota of one address inside its window, and the waiting time that a refusal names.
use voxtral_server.Auth.Requests.{
  IpState, RequestRateLimiter, second, is_over, remaining, entry_or_new, count_request, remove_over,
  check_request,
}
use voxtral_server.Base.{
  ℕ, suc, ◌+◌, ◌-◌, ◌*◌, ◌^◌, ◌≤◌, ◌<◌, min, ◌≡◌, ap, true, false, none, some, List, [], ◌∷◌, arith,
  ltb, ◌==◌, if◌then◌else◌, length, All, Bytes, eq_bytes_refl, Table, find?, assign, find?-assign,
}

abbrev state_of : ℕ → ℕ → IpState
state_of n start = record { requests = n; window_start = start }

find?-remove_over :
    (ip : Bytes) (now : ℕ) (state : IpState) (m : Table IpState)
    → find? ip m ≡ some state
    → is_over now state ≡ false
    → find? ip (remove_over now m) ≡ some state
unfolding find? remove_over
find?-remove_over ip now state [] h k = cc
find?-remove_over ip now state ((j, s) ∷ m) h k = ground (arith, find?-remove_over ip now state m)

-- Where the counted state is in its window, it is what the call leaves for the address.
pub find?-check_request :
    (l : RequestRateLimiter) (ip : Bytes) (now created : ℕ)
    → let state = count_request now (entry_or_new created (find? ip l.ip_states)) in
      is_over now state ≡ false → find? ip (check_request l ip now created).0.ip_states ≡ some state
unfolding check_request
find?-check_request l ip now created h =
    let state = count_request now (entry_or_new created (find? ip l.ip_states)) in
    ground (
      arith,
      find?-remove_over ip now state (assign ip state l.ip_states),
      find?-assign ip ip state l.ip_states,
      eq_bytes_refl ip,
    )

-- 1 for a request that is let through, 0 for one that is told to wait.
abbrev pub granted : ℕ → ℕ
granted answer = if answer == 0 then 1 else 0

-- The number of requests that are let through, of a sequence of calls, each with its two clock readings.
abbrev pub allowed : RequestRateLimiter → Bytes → List (ℕ × ℕ) → ℕ
allowed l ip [] = 0
allowed l ip ((now, created) ∷ times) =
    granted (check_request l ip now created).1 + allowed (check_request l ip now created).0 ip times

abbrev pub InWindow : ℕ → List (ℕ × ℕ) → Type 0
InWindow start = All (λ t. (start ≤ t.0) × (t.0 < start + 60 * second))

pub check_request-max_rpm :
    (l : RequestRateLimiter) (ip : Bytes) (now created : ℕ)
    → (check_request l ip now created).0.max_rpm ≡ l.max_rpm
unfolding check_request
check_request-max_rpm l ip now created = ground arith

pub remaining_pos : (now start : ℕ) → 0 < remaining now start
unfolding remaining
remaining_pos now start = ground arith

module _ (l : RequestRateLimiter) (ip : Bytes) (n start now created : ℕ) where
  count_request_inside :
      suc n < 2 ^ 64
      → now < start + 60 * second
      → count_request now (state_of n start) ≡ state_of (suc n) start
  unfolding count_request is_over
  count_request_inside small inside = ground arith

  find?-check_request_inside :
      entry_or_new created (find? ip l.ip_states) ≡ state_of n start
      → suc n < 2 ^ 64
      → now < start + 60 * second
      → find? ip (check_request l ip now created).0.ip_states ≡ some (state_of (suc n) start)
  unfolding is_over
  find?-check_request_inside h small inside =
      ground (arith, find?-check_request l ip now created, count_request_inside small inside)

  granted-check_request :
      entry_or_new created (find? ip l.ip_states) ≡ state_of n start
      → suc n < 2 ^ 64
      → now < start + 60 * second
      → granted (check_request l ip now created).1 ≡ (if ltb l.max_rpm (suc n) then 0 else 1)
  unfolding check_request
  granted-check_request h small inside =
      ground (arith, remaining_pos now start, count_request_inside small inside)

-- From `n` requests on, as many more are let through as the quota leaves.
allowed_from :
    (l : RequestRateLimiter) (ip : Bytes) (n start : ℕ) (times : List (ℕ × ℕ))
    → find? ip l.ip_states ≡ some (state_of n start)
    → n + length times < 2 ^ 64
    → InWindow start times
    → allowed l ip times ≡ min (length times) (l.max_rpm - n)
unfolding entry_or_new
allowed_from l ip n start [] h small inside = omega arith
allowed_from l ip n start ((now, created) ∷ times) h small inside =
    let e = ap (entry_or_new created) h in
    ground (
      arith,
      granted-check_request l ip n start now created e (omega arith) inside.0.1,
      check_request-max_rpm l ip now created,
      allowed_from (check_request l ip now created).0 ip (suc n) start times
          (find?-check_request_inside l ip n start now created e (omega arith) inside.0.1),
    )

-- Of the requests of an address that was not tracked (fewer than 2 ^ 64, the clock not running
-- backwards in the first call, all at times within a minute from the first), exactly `max_rpm`
-- are let through, or all where they are fewer.
pub allowed-eq-min :
    (l : RequestRateLimiter) (ip : Bytes) (now created : ℕ) (times : List (ℕ × ℕ))
    → find? ip l.ip_states ≡ none
    → now ≤ created
    → suc (length times) < 2 ^ 64
    → InWindow created times
    → allowed l ip ((now, created) ∷ times) ≡ min (suc (length times)) l.max_rpm
unfolding entry_or_new
allowed-eq-min l ip now created times absent le small inside =
    let e = ap (entry_or_new created) absent in
    ground (
      arith,
      granted-check_request l ip 0 created now created e (omega arith) (omega arith),
      check_request-max_rpm l ip now created,
      allowed_from (check_request l ip now created).0 ip 1 created times
          (find?-check_request_inside l ip 0 created now created e (omega arith) (omega arith)),
    )

-- A window that is over starts again at one request.
check_request_over :
    (l : RequestRateLimiter) (ip : Bytes) (state : IpState) (now created : ℕ)
    → find? ip l.ip_states ≡ some state
    → is_over now state ≡ true
    → 0 < l.max_rpm
    → (check_request l ip now created).1 ≡ 0
unfolding check_request entry_or_new count_request
check_request_over l ip state now created h over quota = ground arith

-- The answer and the entry of a tracked address that is refused.
check_request_refused :
    (l : RequestRateLimiter) (ip : Bytes) (state : IpState) (now created : ℕ)
    → find? ip l.ip_states ≡ some state
    → suc state.requests < 2 ^ 64
    → 0 < l.max_rpm
    → 0 < (check_request l ip now created).1
    → (is_over now state ≡ false)
      × ((check_request l ip now created).1 ≡ remaining now state.window_start)
unfolding check_request entry_or_new count_request
check_request_refused l ip state now created h small quota pos = ground arith

-- If a tracked address, whose window did not start in the future and whose count is below 2 ^
-- 64 - 1, is told to wait, then for at most 60 seconds; and if the quota is positive, its next
-- request is let through, when it comes after that wait.
pub check_request_retry :
    (l : RequestRateLimiter) (ip : Bytes) (state : IpState) (now later created created' wait : ℕ)
    → find? ip l.ip_states ≡ some state
    → state.window_start ≤ now
    → suc state.requests < 2 ^ 64
    → 0 < l.max_rpm
    → (check_request l ip now created).1 ≡ wait
    → 0 < wait
    → now + wait * second ≤ later
    → (wait ≤ 60) × ((check_request (check_request l ip now created).0 ip later created').1 ≡ 0)
unfolding entry_or_new
check_request_retry l ip state now later created created' wait h le small quota e pos after =
    let pos' : 0 < (check_request l ip now created).1 = omega (arith, e) in
    let (inside, answer) = check_request_refused l ip state now created h small quota pos' in
    let n = state.requests in
    let start = state.window_start in
    let found =
      find?-check_request_inside l ip n start now created (ap (entry_or_new created) h) small
        (unfold is_over in ground (arith, inside)) in
    let bounds : (wait ≤ 60) × (start + 60 * second ≤ later) =
      unfold is_over remaining in ground (arith, inside, answer) in
    (
      bounds.0,
      check_request_over (check_request l ip now created).0 ip (state_of (suc n) start) later
          created' found (unfold is_over in ground (arith, bounds.1))
          (omega (arith, check_request-max_rpm l ip now created)),
    )
