-- ===== src/Auth/Failures/Window.antt =====
-- Counting the failures of one address inside its window.
use voxtral_server.Auth.Failures.{
  IpState, AuthRateLimiter, second, is_expired, entry_or_new, count_failure, erase,
  check_and_record_failure, is_blocked,
}
use mathlib.Core.Path.{subst}
use voxtral_server.Base.{
  ℕ, suc, ◌+◌, ◌*◌, ◌^◌, ◌≤◌, ◌<◌, ◌≡◌, refl, ◌≢◌, false, none, some, List, [], ◌∷◌, arith, ltb,
  if◌then◌else◌, lt→ltb, length, All, Bytes, eq_bytes_iff, eq_bytes_refl, Table, find?, assign,
  find?-assign, length-assign, length-assign_of_find?,
}
use voxtral_server.Base.Int.{pos}

-- With room for the address nothing is evicted.
pub record_with_room :
    (l : AuthRateLimiter) (ip : Bytes) (now created : ℕ)
    → let state = count_failure l.window_secs now (entry_or_new created (find? ip l.ip_states)) in
      length (assign ip state l.ip_states) ≤ l.max_tracked_ips
      → check_and_record_failure l ip now created
        ≡ (record l { ip_states = assign ip state l.ip_states }, ltb l.max_failures state.failures)
unfolding check_and_record_failure
record_with_room l ip now created h = ground arith

-- One failure after another, each with its two clock readings.
abbrev pub record_all : AuthRateLimiter → Bytes → List (ℕ × ℕ) → AuthRateLimiter
record_all l ip [] = l
record_all l ip ((now, created) ∷ times) =
    record_all (check_and_record_failure l ip now created).0 ip times

-- The readings lie in the window that begins at `start`.
abbrev pub InWindow : ℕ → ℕ → List (ℕ × ℕ) → Type 0
InWindow secs start = All (λ t. t.0 ≤ start + secs * second)

abbrev state_of : ℕ → ℕ → IpState
state_of n start = record { failures = n; window_start = start }

-- `l` allows `most` failures in `secs`, has counted `n` of `ip` since `start`, and has room.
pub record Counts (secs most : ℕ) (ip : Bytes) (l : AuthRateLimiter) (n start : ℕ) : Type 0 where
  window : l.window_secs ≡ pos secs
  allowed : l.max_failures ≡ most
  counted : find? ip l.ip_states ≡ some (state_of n start)
  fits : length l.ip_states ≤ l.max_tracked_ips

count_failure_inside :
    (secs n start now : ℕ)
    → suc n < 2 ^ 64
    → now ≤ start + secs * second
    → count_failure (pos secs) now (state_of n start) ≡ state_of (suc n) start
unfolding count_failure is_expired
count_failure_inside secs n start now small inside = ground arith

module _ (secs most : ℕ) (ip : Bytes) where
  record_inside :
      (l : AuthRateLimiter) (n start now created : ℕ)
      → Counts secs most ip l n start
      → suc n < 2 ^ 64
      → now ≤ start + secs * second
      → check_and_record_failure l ip now created ≡ (
        record l { ip_states = assign ip (state_of (suc n) start) l.ip_states },
        ltb most (suc n),
      )
  unfolding entry_or_new
  record_inside l n start now created c small inside = ground (
    arith,
    record_with_room l ip now created,
    count_failure_inside secs n start now small inside,
    length-assign_of_find? ip (state_of (suc n) start) (state_of n start) l.ip_states c.counted,
  )

  Counts-assign :
      (l : AuthRateLimiter) (state : IpState)
      → l.window_secs ≡ pos secs
      → l.max_failures ≡ most
      → length (assign ip state l.ip_states) ≤ l.max_tracked_ips
      → Counts secs most ip
          (record l { ip_states = assign ip state l.ip_states })
          state.failures
          state.window_start
  Counts-assign l state w a h = record {
    window = w;
    allowed = a;
    counted = simp (find?-assign, eq_bytes_refl);
    fits = h;
  }

  pub record-Counts :
      (l : AuthRateLimiter) (n start now created : ℕ)
      → Counts secs most ip l n start
      → suc n < 2 ^ 64
      → now ≤ start + secs * second
      → Counts secs most ip (check_and_record_failure l ip now created).0 (suc n) start
  record-Counts l n start now created c small inside =
      rw (record_inside l n start now created c small inside) (
        Counts-assign l (state_of (suc n) start) c.window c.allowed (
          omega (
            arith,
            length-assign_of_find? ip (state_of (suc n) start) (state_of n start) l.ip_states
                c.counted,
            c.fits,
          )))

  record_all-Counts :
      (l : AuthRateLimiter) (n start : ℕ) (times : List (ℕ × ℕ))
      → Counts secs most ip l n start
      → n + length times < 2 ^ 64
      → InWindow secs start times
      → Counts secs most ip (record_all l ip times) (n + length times) start
  record_all-Counts l n start [] c small inside =
      subst (λ k. Counts secs most ip l k start) (omega arith) c
  record_all-Counts l n start ((now, created) ∷ times) c small inside =
      subst (λ k. Counts secs most ip (record_all l ip ((now, created) ∷ times)) k start)
        (omega arith)
        (record_all-Counts (check_and_record_failure l ip now created).0 (suc n) start times
          (record-Counts l n start now created c (omega arith) inside.0) (omega arith) inside.1)

  first_record :
      (l : AuthRateLimiter) (now created : ℕ)
      → l.window_secs ≡ pos secs
      → find? ip l.ip_states ≡ none
      → length l.ip_states < l.max_tracked_ips
      → now ≤ created
      → check_and_record_failure l ip now created ≡ (
        record l { ip_states = assign ip (state_of 1 created) l.ip_states },
        ltb l.max_failures 1,
      )
  unfolding entry_or_new
  first_record l now created w absent room le = ground (
    arith,
    record_with_room l ip now created,
    count_failure_inside secs 0 created now (omega arith) (omega arith),
    length-assign ip (state_of 1 created) l.ip_states,
  )

  pub first-Counts :
      (l : AuthRateLimiter) (now created : ℕ)
      → l.window_secs ≡ pos secs
      → l.max_failures ≡ most
      → find? ip l.ip_states ≡ none
      → length l.ip_states < l.max_tracked_ips
      → now ≤ created
      → Counts secs most ip (check_and_record_failure l ip now created).0 1 created
  first-Counts l now created w a absent room le = rw (first_record l now created w absent room le) (
      Counts-assign l (state_of 1 created) w a
        (omega (arith, length-assign ip (state_of 1 created) l.ip_states)))

  pub is_blocked_of_Counts :
      (l : AuthRateLimiter) (n start now : ℕ)
      → Counts secs most ip l n start
      → is_blocked l ip now ≡ (
          if ltb (start + secs * second) now
          then (record l { ip_states = erase ip l.ip_states }, false)
          else (l, ltb most n))
  unfolding is_blocked is_expired
  is_blocked_of_Counts l n start now c = ground (arith, c.counted, c.window, c.allowed)

find?-erase : (ip : Bytes) (m : Table IpState) → find? ip (erase ip m) ≡ none
unfolding find? erase
find?-erase ip [] = refl
find?-erase ip ((k, s) ∷ m) = ground (arith, find?-erase ip m)

-- For a limiter with a window of `secs` seconds and room for one more address: an address that
-- it does not track, and that fails once and then `length times` times (fewer than 2 ^ 64 in
-- all, the clock not running backwards in the first call, and every reading within the window
-- of the first failure), is blocked up to the end of that window exactly if the failures are
-- more than `max_failures`; after the window it is not blocked, and its entry is gone.
pub is_blocked_after_failures :
    (secs : ℕ) (ip : Bytes) (l : AuthRateLimiter) (now created later : ℕ) (times : List (ℕ × ℕ))
    → l.window_secs ≡ pos secs
    → find? ip l.ip_states ≡ none
    → length l.ip_states < l.max_tracked_ips
    → now ≤ created
    → suc (length times) < 2 ^ 64
    → InWindow secs created times
    → let answer = is_blocked (record_all l ip ((now, created) ∷ times)) ip later in
      (later ≤ created + secs * second → answer.1 ≡ ltb l.max_failures (suc (length times)))
      × (created + secs * second < later
          → (answer.1 ≡ false) × (find? ip answer.0.ip_states ≡ none))
is_blocked_after_failures secs ip l now created later times w absent room le small inside =
    let most = l.max_failures in
    let l' = record_all l ip ((now, created) ∷ times) in
    let c =
      record_all-Counts secs most ip (check_and_record_failure l ip now created).0 1 created times
        (first-Counts secs most ip l now created w refl absent room le) (omega arith) inside in
    let e = is_blocked_of_Counts secs most ip l' (1 + length times) created later c in
    (
      λ h. ground (arith, e),
      λ h. (ground (arith, e), rw (e, lt→ltb _ _ h) (find?-erase ip l'.ip_states)),
    )

-- If the table has room for one more address, recording a failure of one address changes the
-- entry of no other address.
pub record_other :
    (l : AuthRateLimiter) (ip other : Bytes) (now created : ℕ)
    → length l.ip_states < l.max_tracked_ips
    → ip ≢ other
    → find? other (check_and_record_failure l ip now created).0.ip_states ≡ find? other l.ip_states
record_other l ip other now created room ne =
    let state = count_failure l.window_secs now (entry_or_new created (find? ip l.ip_states)) in
    ground (
      arith,
      record_with_room l ip now created,
      length-assign ip state l.ip_states,
      find?-assign ip other state l.ip_states,
      eq_bytes_iff ip other,
    )
