-- ===== src/Auth/Requests.antt =====
-- `RequestRateLimiter` (include/tts/auth.hpp). A time point is a number of nanoseconds; `now` and
-- `created` are the clock readings of one call, as for the table of failures. Whole seconds are
-- below 2 ^ 31, so that the narrowing of the answer to an `int` keeps it.
pub mod Window
pub mod Capacity
pub mod Cells
use voxtral_server.Base.{
  ℕ, ◌+◌, ◌-◌, ◌*◌, ◌/◌, ◌%◌, ◌^◌, Bool, not, ◌&&◌, Option, none, some, ltb, leb, if◌then◌else◌,
  length, keep, Bytes, Table, find?, assign,
}

pub record IpState : Type 0 where
  pub requests : ℕ
  pub window_start : ℕ

pub record RequestRateLimiter : Type 0 where
  pub max_rpm : ℕ
  pub max_tracked_ips : ℕ
  pub ip_states : Table IpState

abbrev pub second : ℕ
second = 1_000_000_000

-- `elapsed.count() >= 60`, with the elapsed time cut to whole seconds.
unfoldable pub is_over : ℕ → IpState → Bool
is_over now state = leb (state.window_start + 60 * second) now

-- `60 - elapsed.count()`, and 1 where that is not positive. The entry may be younger than `now`.
unfoldable pub remaining : ℕ → ℕ → ℕ
remaining now start =
    if leb start now
    then (if ltb ((now - start) / second) 60 then 60 - (now - start) / second else 1)
    else 60 + (start - now) / second

-- `ip_states_[ip]`
unfoldable pub entry_or_new : ℕ → Option IpState → IpState
entry_or_new created none = record { requests = 0; window_start = created }
entry_or_new created (some state) = state

-- The reset of a window that is over, and the count of this request, a `size_t`.
unfoldable pub count_request : ℕ → IpState → IpState
count_request now state =
    if is_over now state
    then record { requests = 1; window_start = now }
    else record state { requests = (state.requests + 1) % 2 ^ 64 }

-- The loop that enforces the capacity: it erases the entries whose window is over.
unfoldable pub remove_over : ℕ → Table IpState → Table IpState
remove_over now = keep (λ entry. not (is_over now entry.1))

unfoldable pub check_request : RequestRateLimiter → Bytes → ℕ → ℕ → RequestRateLimiter × ℕ
check_request l ip now created =
    let old = entry_or_new created (find? ip l.ip_states) in
    let state = count_request now old in
    let m = assign ip state l.ip_states in
    let full = ltb 0 l.max_tracked_ips && ltb l.max_tracked_ips (length m) in
    if ltb l.max_rpm state.requests
    then (record l { ip_states = m }, remaining now old.window_start)
    else (record l { ip_states = if full then remove_over now m else m }, 0)

-- `size`
unfoldable pub size : RequestRateLimiter → ℕ
size l = length l.ip_states
