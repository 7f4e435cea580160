-- ===== src/Adapter.antt =====
-- `HttpAdapter` (src/server/http_adapter.hpp, src/server/http_adapter.cpp) without the listener: the
-- conversions, and the state that the routes share. What the library hands over and takes is a record
-- of the fields that the code uses.
pub mod Middleware
pub mod Routes
pub mod Guard
pub mod Lockout
pub mod Lifecycle
pub mod Dispatch
pub mod Headers
mod Tests
use voxtral_server.Base.Decimal.{to_string}
use voxtral_server.Base.Float.{Double}
use voxtral_server.Auth.Bearer.{AuthResult, check_bearer_auth, is_internal_endpoint}
use voxtral_server.Auth.ClientIp.{extract_client_ip}
use voxtral_server.Auth.Failures.{AuthRateLimiter, is_blocked, check_and_record_failure}
use voxtral_server.Auth.Requests.{RequestRateLimiter, check_request}
use voxtral_server.Config.{ServerConfig}
use voxtral_server.Metrics.{Metrics}
use voxtral_server.Voices.{VoiceCatalog}
use voxtral_server.Handler.{
  HttpRequest, header, HttpResponse, is_binary, apply_security_headers, make_error_response,
}
use voxtral_server.Handler.Json.{JsonApi}
use voxtral_server.Handler.Probes.{handle_voices}
use voxtral_server.Handler.Speech.{
  PoolAnswers, HandlerDeps, Handled, returned, threw, handle_speech,
}
use voxtral_server.Base.{
  ℕ, ◌+◌, ◌&&◌, none, some, List, ◌∷◌, map, leb, if◌then◌else◌, Bytes, bytes, Table, find?, assign,
  [],
}
use voxtral_server.Base.Int.{ℤ, pos, negsuc, pos_part, neg_part, ltb_ℤ, ◌≤ℤ◌}

-- `httplib::Request`: the headers are those of the message, in its order.
pub record LibraryRequest : Type 0 where
  pub method : Bytes
  pub path : Bytes
  pub body : Bytes
  pub remote_addr : Bytes
  pub headers : List (Bytes × Bytes)

-- `std::tolower` in the "C" locale
unfoldable pub to_lower : ℕ → ℕ
to_lower c = if leb b'A' c && leb c b'Z' then c + 32 else c

-- The loop over the headers.
unfoldable pub copy_headers : List (Bytes × Bytes) → Table Bytes → Table Bytes
copy_headers [] headers = headers
copy_headers ((key, value) ∷ rest) headers =
    copy_headers rest (assign (map to_lower key) value headers)

unfoldable pub adapt_request : LibraryRequest → HttpRequest
adapt_request req = record {
  method = req.method;
  path = req.path;
  headers = copy_headers req.headers [];
  body = req.body;
  remote_addr = req.remote_addr;
}

-- What `adapt_response` tells the library: the status, the calls of `set_header`, and the call of
-- `set_content`.
pub record LibraryResponse : Type 0 where
  pub status : ℕ
  pub headers : List (Bytes × Bytes)
  pub content : Bytes
  pub content_type : Bytes

unfoldable pub content_type_of : Table Bytes → Bytes → Bytes
content_type_of headers default_type = elim (find? (bytes "Content-Type") headers) [
  | none ↦ default_type
  | some value ↦ value
]

unfoldable pub adapt_response : HttpResponse → LibraryResponse
adapt_response from = record {
  status = from.status;
  headers = from.headers;
  content = if is_binary from then from.binary_body else from.body;
  content_type =
      if is_binary from
      then content_type_of from.headers (bytes "application/octet-stream")
      else content_type_of from.headers (bytes "text/plain");
}

-- The shared state of the routes.
pub record Shared : Type 0 where
  pub auth_limiter : AuthRateLimiter
  pub request_limiter : RequestRateLimiter
  pub metrics : Metrics

-- The clock readings of the limiters during one request.
pub record Clocks : Type 0 where
  pub blocked : ℕ
  pub request : ℕ
  pub request_entry : ℕ
  pub failure : ℕ
  pub failure_entry : ℕ
