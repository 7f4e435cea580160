-- ===== src/Auth/Tests.antt =====
-- The authentication theorems at concrete inputs, and runs of the code.
use voxtral_server.Auth.Compare.{Agrees, constant_time_equals, constant_time_equals_iff}
use voxtral_server.Auth.Bearer.{bearer_prefix}
use voxtral_server.Auth.Bearer.Laws.{IsAuthenticated, check_bearer_auth_iff}
use voxtral_server.Auth.ClientIp.{
  rfind, skip_hops, last_entry, is_ows, trim_front, trim_back, trim, or_remote, extract_client_ip,
}
use voxtral_server.Auth.ClientIp.Laws.{behind, ending, extract_client_ip-behind}
use voxtral_server.Auth.Failures
use voxtral_server.Auth.Failures.{
  AuthRateLimiter, check_and_record_failure, is_blocked, remove_expired, is_expired, second,
  count_failure, entry_or_new,
}
use voxtral_server.Auth.Failures.Eviction.{size-check_and_record_failure}
use voxtral_server.Auth.Failures.Eviction.{counted, Evicts, check_and_record_failure-Evicts}
use voxtral_server.Auth.Failures.Cells.{
  Act, records, asks, act, act_all, cell_all, acts_of, answers_of, act_all-cell_all,
}
use voxtral_server.Auth.Failures.Window.{record_all, is_blocked_after_failures}
use voxtral_server.Auth.Requests
use voxtral_server.Auth.Requests.{RequestRateLimiter, check_request}
use voxtral_server.Auth.Requests.Window.{allowed, allowed-eq-min, check_request_retry}
use voxtral_server.Auth.Requests.Cells
use voxtral_server.Auth.Requests.Cells.{CellRun, check_all, check_all-CellRun}
use voxtral_server.Auth.Requests.Capacity.{size-check_request_new}
use voxtral_server.Base.{
  List, suc, ◌+◌, ◌*◌, ◌%◌, ◌≤◌, ◌<◌, min, ◌≡◌, refl, ◌↔◌, ◌⊎◌, true, false, none, some, [], ◌∷◌,
  map, ◌++◌, arith, ltb, length, replicate, Bytes, bytes, eq_bytes, is_empty, find?, assign,
}
use voxtral_server.Base.Int.{pos}

abbrev key : Bytes
key = 0x6b ∷ 0x65 ∷ 0x79 ∷ []

abbrev padding : Bytes
padding = replicate 256 0x78

constant_time_equals_iff_example :
    (constant_time_equals (key ++ padding) key ≡ true)
    ↔ ((length (key ++ padding) % 256 ≡ length key % 256) × Agrees (key ++ padding) key)
constant_time_equals_iff_example =
    constant_time_equals_iff (key ++ padding) key (omega arith) (omega arith)

check_bearer_auth_iff_example : IsAuthenticated key key ↔ (key ≡ bearer_prefix ++ key)
unfolding bearer_prefix
check_bearer_auth_iff_example =
    check_bearer_auth_iff key key (omega arith) (omega arith) (omega arith) (omega arith)
      (omega arith)

extract_client_ip-behind_example :
    extract_client_ip
      (behind (ending (some (bytes "6.6.6.6")) (0x31 ∷ [])) ((0x32 ∷ []) ∷ []))
      (0x39 ∷ [])
      true
      (pos 2)
    ≡ or_remote (0x39 ∷ []) (trim (0x31 ∷ []))
extract_client_ip-behind_example =
    extract_client_ip-behind (bytes "6.6.6.6") (0x31 ∷ []) (0x39 ∷ []) ((0x32 ∷ []) ∷ [])
      (omega arith) (omega arith)

third_hop :
    extract_client_ip (bytes "6.6.6.6, 10.0.0.1 ,10.0.0.2") (bytes "9.9.9.9") true (pos 2)
    ≡ bytes "10.0.0.1"
unfolding extract_client_ip skip_hops rfind last_entry is_ows trim_front trim_back trim is_empty
    bytes
third_hop = refl

-- Two failures are allowed in 60 seconds, and 2 addresses are tracked.
abbrev limiter : AuthRateLimiter
limiter = record { max_failures = 2; window_secs = pos 60; max_tracked_ips = 2; ip_states = [] }

size-check_and_record_failure_example :
    Failures.size (check_and_record_failure limiter key 5 5).0 ≤ 2
size-check_and_record_failure_example = size-check_and_record_failure limiter key 5 5 (omega arith)

-- A table that has two addresses already, the second of them the older.
abbrev full_table : AuthRateLimiter
full_table = record limiter {
  ip_states =
      (bytes "b", record { failures = 1; window_start = 4 })
      ∷ (bytes "c", record { failures = 1; window_start = 3 })
      ∷ [];
}

check_and_record_failure-Evicts_example :
    let before = counted full_table key 5 5 in
    let after = (check_and_record_failure full_table key 5 5).0.ip_states in
    let live = remove_expired (pos 60) 5 before in
    (((full_table.max_tracked_ips ≡ 0) ⊎ (length before ≤ 2)) × (after ≡ before))
    ⊎ ((0 < 2) × (2 < length before) × Evicts after live × (length after ≡ min (length live) 2))
check_and_record_failure-Evicts_example = check_and_record_failure-Evicts full_table key 5 5

-- A third address costs the oldest entry.
oldest_goes :
    map (λ entry. entry.0) (check_and_record_failure full_table key 5 5).0.ip_states
    ≡ bytes "b" ∷ key ∷ []
unfolding check_and_record_failure Failures.count_failure Failures.entry_or_new is_expired find?
    assign eq_bytes Failures.evict_to_cap remove_expired Failures.evict_oldest
    Failures.remove_oldest Failures.oldest Failures.remove_at bytes
oldest_goes = refl

is_blocked_after_failures_example :
    let answer = is_blocked (record_all limiter key ((5, 5) ∷ (6, 6) ∷ (7, 7) ∷ [])) key 8 in
    (8 ≤ 5 + 60 * Failures.second → answer.1 ≡ ltb 2 3)
    × (5 + 60 * Failures.second < 8 → (answer.1 ≡ false) × (find? key answer.0.ip_states ≡ none))
unfolding find?
is_blocked_after_failures_example =
    is_blocked_after_failures 60 key limiter 5 5 8 ((6, 6) ∷ (7, 7) ∷ []) refl refl (omega arith)
      (omega arith) (omega arith) (omega arith)

-- The third failure is one too many.
third_failure :
    (check_and_record_failure (record_all limiter key ((5, 5) ∷ (6, 6) ∷ [])) key 7 7).1 ≡ true
unfolding check_and_record_failure Failures.count_failure Failures.entry_or_new is_expired find?
    assign eq_bytes Failures.evict_to_cap
third_failure = refl

-- Two requests a minute.
abbrev quota : RequestRateLimiter
quota = record { max_rpm = 2; max_tracked_ips = 2; ip_states = [] }

abbrev spent : RequestRateLimiter
spent = record quota { ip_states = (key, record { requests = 2; window_start = 5 }) ∷ [] }

allowed-eq-min_example : allowed quota key ((5, 5) ∷ (6, 6) ∷ (7, 7) ∷ []) ≡ min 3 2
unfolding find?
allowed-eq-min_example =
    allowed-eq-min quota key 5 5 ((6, 6) ∷ (7, 7) ∷ []) refl (omega arith) (omega arith)
      (omega arith)

runs : Unit {0}
unfolding check_request Requests.count_request Requests.entry_or_new Requests.is_over
    Requests.remaining Requests.remove_over find? assign eq_bytes
runs = tt

refused : (check_request spent key 7 7).1 ≡ 60
unfolding runs
refused = refl

check_request_retry_example :
    (60 ≤ 60)
    × ((check_request (check_request spent key 7 7).0 key (7 + 60 * Requests.second) 9).1 ≡ 0)
unfolding find? eq_bytes
check_request_retry_example =
    check_request_retry spent key (record { requests = 2; window_start = 5 }) 7
      (7 + 60 * Requests.second) 7 9 60 refl (omega arith) (omega arith) (omega arith) refused
      (omega arith) (omega arith)

let_through : (check_request quota key 7 7).1 ≡ 0
unfolding runs
let_through = refl

-- Three addresses in a table that is to hold two.
abbrev crowded : RequestRateLimiter
crowded = record quota {
  ip_states =
      ((0x31 ∷ []), record { requests = 1; window_start = 5 })
      ∷ ((0x32 ∷ []), record { requests = 1; window_start = 5 })
      ∷ [];
}

size-check_request_new_example :
    Requests.size (check_request crowded key 7 7).0 ≡ suc (Requests.size crowded)
unfolding find? eq_bytes Requests.is_over
size-check_request_new_example =
    size-check_request_new crowded key 7 7 (refl, (refl, tt)) refl (omega arith)

-- Two addresses, of which one fails twice where one failure is allowed.
abbrev acts : List (Bytes × Act)
acts =
    (bytes "a", records 1 1)
    ∷ (bytes "b", records 2 2)
    ∷ (bytes "a", records 3 3)
    ∷ (bytes "a", asks 4)
    ∷ (bytes "b", asks 5)
    ∷ []

abbrev one_failure : AuthRateLimiter
one_failure = record {
  max_failures = 1;
  window_secs = pos 60;
  max_tracked_ips = 10;
  ip_states = [];
}

answers_a : answers_of (bytes "a") acts (act_all one_failure acts).1 ≡ false ∷ true ∷ true ∷ []
unfolding answers_of act_all act check_and_record_failure is_blocked count_failure is_expired
    entry_or_new find? assign eq_bytes bytes
answers_a = refl

act_all-cell_all_example :
    (find? (bytes "a") (act_all one_failure acts).0.ip_states
      ≡ (cell_all 1
          (pos 60)
          (find? (bytes "a") one_failure.ip_states)
          (acts_of (bytes "a") acts)).0)
    × (answers_of (bytes "a") acts (act_all one_failure acts).1
        ≡ (cell_all 1
            (pos 60)
            (find? (bytes "a") one_failure.ip_states)
            (acts_of (bytes "a") acts)).1)
act_all-cell_all_example = act_all-cell_all (bytes "a") one_failure acts (omega arith)

-- A second address fills the table of one entry, and a third comes when the windows are over.
abbrev visits : List Cells.Call
visits =
    (key, 7, 7) ∷ (bytes "b", 8, 8) ∷ (bytes "c", 99 * Requests.second, 99 * Requests.second) ∷ []

check_all-CellRun_example :
    CellRun 2 key
      (find? key spent.ip_states)
      visits
      (check_all spent visits).1
      (find? key (check_all spent visits).0.ip_states)
unfolding find?
check_all-CellRun_example = check_all-CellRun key spent visits (refl, tt)
