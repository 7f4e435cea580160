-- ===== src/Adapter/Lockout.antt =====
-- How many tokens a client can try (`HttpAdapter::run_middleware` in src/server/http_adapter.cpp,
-- over `AuthRateLimiter` in include/tts/auth.hpp).
mod Tests
use mathlib.Core.Path.{subst}
use voxtral_server.Base.{
  ℕ, suc, String, ◌+◌, ◌*◌, ◌^◌, ◌≤◌, ◌<◌, ◌≡◌, refl, ap, ◌∙◌, Bool, true, false, Option, none,
  some, List, [], ◌∷◌, arith, ltb, if◌then◌else◌, lt→ltb, Bool-cases, length, Bytes, bytes, Table,
  find?, assign, find?-assign, eq_bytes_refl,
}
use voxtral_server.Base.Decimal.{to_string}
use voxtral_server.Base.Int.{pos}
use voxtral_server.Auth.Bearer.{is_internal_endpoint}
use voxtral_server.Auth.Failures.{AuthRateLimiter, second, is_blocked, check_and_record_failure}
use voxtral_server.Auth.Failures.Window.{Counts, record-Counts, first-Counts, is_blocked_of_Counts}
use voxtral_server.Auth.Requests.{check_request}
use voxtral_server.Config.{ServerConfig}
use voxtral_server.Handler.{HttpRequest, HttpResponse, make_error_response}
use voxtral_server.Handler.Json.{JsonApi}
use voxtral_server.Adapter.{Shared, Clocks}
use voxtral_server.Adapter.Middleware.{
  client_ip, retry_response, require_token, limit_rate, check_client, run_middleware,
}
use voxtral_server.Adapter.Guard.{has_token}

-- The status of a rejection, 0 for none.
abbrev pub status_of : Option HttpResponse → ℕ
status_of none = 0
status_of (some resp) = resp.status

module _ (json : JsonApi) (cfg : ServerConfig) where
  retry_response-429 :
      (error_code message : String) (retry_after : Bytes)
      → (retry_response json error_code message retry_after).status ≡ 429
  unfolding retry_response make_error_response
  retry_response-429 error_code message retry_after = refl

  require_token-401 :
      (req : HttpRequest) (ip : Bytes) (now : Clocks) (s : Shared)
      → status_of (require_token json cfg req ip now s).1 ≡ 401
      → (require_token json cfg req ip now s).0.auth_limiter
        ≡ (check_and_record_failure s.auth_limiter ip now.failure now.failure_entry).0
  unfolding require_token
  require_token-401 req ip now s h = ground arith

  limit_rate-401 :
      (req : HttpRequest) (ip : Bytes) (now : Clocks) (s : Shared)
      → status_of (limit_rate json cfg req ip now s).1 ≡ 401
      → (cfg.require_auth ≡ true)
        × ((limit_rate json cfg req ip now s).0.auth_limiter
            ≡ (check_and_record_failure s.auth_limiter ip now.failure now.failure_entry).0)
  unfolding limit_rate
  limit_rate-401 req ip now s h = ground (
    arith,
    retry_response-429 "rate_limited" "Rate limit exceeded. Please slow down."
        (to_string (pos (check_request s.request_limiter ip now.request now.request_entry).1)),
    require_token-401 req ip now (record s {
      request_limiter = (check_request s.request_limiter ip now.request now.request_entry).0;
    }),
  )

  check_client-401 :
      (req : HttpRequest) (ip : Bytes) (now : Clocks) (s : Shared)
      → status_of (check_client json cfg req ip now s).1 ≡ 401
      → let (limiter, blocked) = is_blocked s.auth_limiter ip now.blocked in
        (cfg.require_auth ≡ true)
        × (blocked ≡ false)
        × ((check_client json cfg req ip now s).0.auth_limiter
            ≡ (check_and_record_failure limiter ip now.failure now.failure_entry).0)
  unfolding check_client
  check_client-401 req ip now s h = ground (
    arith,
    retry_response-429 "auth_rate_limited" "Too many authentication failures. Try again later."
        (bytes "60"),
    limit_rate-401 req ip now s,
    limit_rate-401 req ip now
        (record s { auth_limiter = (is_blocked s.auth_limiter ip now.blocked).0 }),
  )

  run_middleware-401 :
      (req : HttpRequest) (ip : Bytes) (now : Clocks) (s : Shared)
      → client_ip cfg req ≡ ip
      → status_of (run_middleware json cfg req now s).1 ≡ 401
      → let (limiter, blocked) = is_blocked s.auth_limiter ip now.blocked in
        (cfg.require_auth ≡ true)
        × (blocked ≡ false)
        × ((run_middleware json cfg req now s).0.auth_limiter
            ≡ (check_and_record_failure limiter ip now.failure now.failure_entry).0)
  unfolding run_middleware
  run_middleware-401 req ip now s e h =
      ground (arith, check_client-401 req (client_ip cfg req) now s)

is_blocked_untracked :
    (l : AuthRateLimiter) (ip : Bytes) (now : ℕ)
    → find? ip l.ip_states ≡ none
    → is_blocked l ip now ≡ (l, false)
unfolding is_blocked
is_blocked_untracked l ip now absent = rw (is_blocked, absent) refl

-- The middleware answers one request after another.
abbrev pub run_all : JsonApi → ServerConfig → List (HttpRequest × Clocks) → Shared → Shared
run_all json cfg [] s = s
run_all json cfg ((req, now) ∷ rest) s = run_all json cfg rest (run_middleware json cfg req now s).0

-- Each request is from the address `ip`, its clocks do not pass `end`, and it is answered 401.
abbrev pub AllGuesses :
    JsonApi → ServerConfig → Bytes → ℕ → List (HttpRequest × Clocks) → Shared → Type 0
AllGuesses json cfg ip end [] s = Unit
AllGuesses json cfg ip end ((req, now) ∷ rest) s =
    (client_ip cfg req ≡ ip)
    × (now.blocked ≤ end)
    × (now.failure ≤ end)
    × (status_of (run_middleware json cfg req now s).1 ≡ 401)
    × AllGuesses json cfg ip end rest (run_middleware json cfg req now s).0

module _ (json : JsonApi) (cfg : ServerConfig) (ip : Bytes) (secs most : ℕ) where
  is_blocked-inside :
      (l : AuthRateLimiter) (n start now : ℕ)
      → Counts secs most ip l n start
      → now ≤ start + secs * second
      → is_blocked l ip now ≡ (l, ltb most n)
  is_blocked-inside l n start now c inside =
      ground (arith, is_blocked_of_Counts secs most ip l n start now c)

  guess-Counts :
      (req : HttpRequest) (now : Clocks) (s : Shared) (n start : ℕ)
      → Counts secs most ip s.auth_limiter n start
      → suc n < 2 ^ 64
      → client_ip cfg req ≡ ip
      → now.blocked ≤ start + secs * second
      → now.failure ≤ start + secs * second
      → status_of (run_middleware json cfg req now s).1 ≡ 401
      → (n ≤ most)
        × Counts secs most ip (run_middleware json cfg req now s).0.auth_limiter (suc n) start
  guess-Counts req now s n start c small same looked failed h =
      let (auth, free, e) = run_middleware-401 json cfg req ip now s same h in
      let inside = is_blocked-inside s.auth_limiter n start now.blocked c looked in
      (
        ground (arith, inside, free),
        rw (e, inside)
            (record-Counts secs most ip s.auth_limiter n start now.failure now.failure_entry c small
              failed),
      )

  guesses-Counts :
      (rest : List (HttpRequest × Clocks)) (s : Shared) (n start : ℕ)
      → Counts secs most ip s.auth_limiter n start
      → n ≤ suc most
      → n + length rest < 2 ^ 64
      → AllGuesses json cfg ip (start + secs * second) rest s
      → (n + length rest ≤ suc most)
        × Counts secs most ip (run_all json cfg rest s).auth_limiter (n + length rest) start
  guesses-Counts [] s n start c le small all =
      (omega arith, subst (λ k. Counts secs most ip s.auth_limiter k start) (omega arith) c)
  guesses-Counts ((req, now) ∷ rest) s n start c le small (same, looked, failed, h, all) =
      let (le', c') = guess-Counts req now s n start c (omega arith) same looked failed h in
      let (bound, counts) =
        guesses-Counts rest (run_middleware json cfg req now s).0 (suc n) start c' (omega arith)
          (omega arith) all in
      (
        omega (arith, bound),
        subst
            (λ k.
              Counts secs most ip
                (run_all json cfg rest (run_middleware json cfg req now s).0).auth_limiter k start)
            (omega arith) counts,
      )

  first_guess-Counts :
      (req : HttpRequest) (now : Clocks) (s : Shared)
      → s.auth_limiter.window_secs ≡ pos secs
      → s.auth_limiter.max_failures ≡ most
      → find? ip s.auth_limiter.ip_states ≡ none
      → length s.auth_limiter.ip_states < s.auth_limiter.max_tracked_ips
      → now.failure ≤ now.failure_entry
      → client_ip cfg req ≡ ip
      → status_of (run_middleware json cfg req now s).1 ≡ 401
      → Counts secs most ip (run_middleware json cfg req now s).0.auth_limiter 1 now.failure_entry
  first_guess-Counts req now s w a absent room le same h =
      let (auth, free, e) = run_middleware-401 json cfg req ip now s same h in
      let untracked = is_blocked_untracked s.auth_limiter ip now.blocked absent in
      rw (e, untracked)
        (first-Counts secs most ip s.auth_limiter now.failure now.failure_entry w a absent room le)

-- The answer to an address with too many failures.
abbrev pub IsLocked : Option HttpResponse → Type 0
IsLocked none = ⊥
IsLocked (some resp) =
    (resp.status ≡ 429) × (find? (bytes "Retry-After") resp.headers ≡ some (bytes "60"))

retry_response-IsLocked :
    (json : JsonApi) (error_code message : String)
    → IsLocked (some (retry_response json error_code message (bytes "60")))
unfolding retry_response make_error_response
retry_response-IsLocked json error_code message = (refl, simp (find?-assign, eq_bytes_refl))

module _ (json : JsonApi) (cfg : ServerConfig) (ip : Bytes) (secs : ℕ) where
  blocked-IsLocked :
      (req : HttpRequest) (now : Clocks) (s : Shared)
      → cfg.require_auth ≡ true
      → client_ip cfg req ≡ ip
      → is_internal_endpoint req.path ≡ false
      → is_blocked s.auth_limiter ip now.blocked ≡ (s.auth_limiter, true)
      → IsLocked (run_middleware json cfg req now s).1
  unfolding run_middleware check_client
  blocked-IsLocked req now s auth same client blocked =
      rw (client, same) (simp auth (rw blocked (retry_response-IsLocked json _ _)))

  -- For a limiter with a window of `secs` seconds and room for one more address: if an
  -- address that it does not track sends more than `max_failures` requests (fewer than 2 ^
  -- 64) that are all answered 401, the clock not running backwards in the first, and every
  -- reading of the others being within the window of the first failure, then they are
  -- `max_failures + 1` requests, and the next request of the address in that window, whatever
  -- token it shows, is answered 429 with `Retry-After: 60`, if its path is no internal
  -- endpoint.
  pub refused_after_guesses :
      (first next : HttpRequest) (start now : Clocks) (rest : List (HttpRequest × Clocks))
      (s : Shared)
      → s.auth_limiter.window_secs ≡ pos secs
      → find? ip s.auth_limiter.ip_states ≡ none
      → length s.auth_limiter.ip_states < s.auth_limiter.max_tracked_ips
      → start.failure ≤ start.failure_entry
      → client_ip cfg first ≡ ip
      → status_of (run_middleware json cfg first start s).1 ≡ 401
      → suc (length rest) < 2 ^ 64
      → AllGuesses json cfg ip
          (start.failure_entry + secs * second)
          rest
          (run_middleware json cfg first start s).0
      → client_ip cfg next ≡ ip
      → is_internal_endpoint next.path ≡ false
      → now.blocked ≤ start.failure_entry + secs * second
      → s.auth_limiter.max_failures < suc (length rest)
      → (suc (length rest) ≡ s.auth_limiter.max_failures + 1)
        × IsLocked (run_middleware json cfg next now (run_all json cfg ((first, start) ∷ rest) s)).1
  refused_after_guesses first next start now rest s w absent room le same h small all same' client
        inside over =
      let most = s.auth_limiter.max_failures in
      let (bound, counts) =
        guesses-Counts json cfg ip secs most rest (run_middleware json cfg first start s).0 1
          start.failure_entry
          (first_guess-Counts json cfg ip secs most first start s w refl absent room le same h)
          (omega arith) (omega arith) all in
      let (auth, free, e) = run_middleware-401 json cfg first ip start s same h in
      (
        omega (arith, bound, over),
        blocked-IsLocked next now (run_all json cfg ((first, start) ∷ rest) s) auth same' client (
            is_blocked-inside json cfg ip secs most _ (1 + length rest) start.failure_entry
              now.blocked counts inside
            ∙ ap (λ b. ((run_all json cfg ((first, start) ∷ rest) s).auth_limiter, b))
                (lt→ltb _ _ (omega (arith, over)))),
      )
