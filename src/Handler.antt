-- ===== src/Handler.antt =====
-- The abstract HTTP types and the answers that the route handlers build
-- (src/server/request_handler.hpp, src/server/request_handler.cpp).
pub mod Json
pub mod Probes
pub mod Speech
pub mod Refusals
pub mod Accepted
pub mod Accounting
pub mod Outcomes
pub mod Uncaught
pub mod RequestId
pub mod Toy
mod Tests
use voxtral_server.Validation.{ValidationResult}
use Json.{JsonApi, Doc, null, text, members, member, object}
use voxtral_server.Base.{
  ℕ, String, Bool, not, none, some, if◌then◌else◌, Bytes, bytes, is_empty, Table, find?, assign, [],
}

pub record HttpRequest : Type 0 where
  pub method : Bytes
  pub path : Bytes
  pub body : Bytes
  pub headers : Table Bytes
  pub remote_addr : Bytes

-- `HttpRequest::header`
unfoldable pub header : HttpRequest → Bytes → Bytes
header req name = elim (find? name req.headers) [ none ↦ [] | some value ↦ value ]

pub record HttpResponse : Type 0 where
  pub status : ℕ
  pub headers : Table Bytes
  pub body : Bytes
  pub binary_body : Bytes

-- `is_binary`
unfoldable pub is_binary : HttpResponse → Bool
is_binary resp = not (is_empty resp.binary_body)

-- A response with a status, a `Content-Type` and a text body.
abbrev pub text_response : ℕ → String → Bytes → HttpResponse
text_response status content_type body = record {
  status = status;
  headers = assign (bytes "Content-Type") (bytes content_type) [];
  body = body;
  binary_body = [];
}

unfoldable pub apply_security_headers : HttpResponse → Bytes → HttpResponse
apply_security_headers resp request_id = record resp {
  headers = assign (bytes "X-Request-Id") request_id (
      assign (bytes "Cache-Control") (bytes "no-store")
        (assign (bytes "X-Content-Type-Options") (bytes "nosniff") resp.headers));
}

module _ (json : JsonApi) where
  abbrev error_document : Bytes → Bytes → Bytes → Bytes → Doc
  error_document error_type error_code message param = object (
      member (bytes "error")
        (object (
          member (bytes "message") (text message) (
            member (bytes "type") (text error_type) (
              member (bytes "param") (if is_empty param then null else text param)
                (member (bytes "code") (text error_code) members)))))
        members)

  unfoldable pub make_error_response : ℕ → Bytes → Bytes → Bytes → Bytes → HttpResponse
  make_error_response status error_type error_code message param =
      text_response status "application/json"
        (json.dump (error_document error_type error_code message param))

  unfoldable pub make_error_from_validation : ValidationResult → HttpResponse
  make_error_from_validation v =
      make_error_response v.http_status v.error_type v.error_code v.error_message v.error_param
