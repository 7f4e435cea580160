-- ===== src/Adapter/Headers.antt =====
-- The headers that a handler sees, and those that a client gets.
use voxtral_server.Handler.{header, HttpResponse, apply_security_headers}
use voxtral_server.Adapter.{LibraryRequest, to_lower, copy_headers, adapt_request}
use voxtral_server.Base.{
  ◌≡◌, refl, ap, ◌∙◌, inl, inr, false, Option, none, some, List, [], ◌∷◌, map, if◌then◌else◌,
  Bool-cases, Bytes, bytes, eq_bytes, eq_bytes_refl, Table, find?, assign, find?-assign,
}

-- The value of the last header of this name, whatever the case of its letters.
unfoldable pub last_value : Bytes → List (Bytes × Bytes) → Bytes → Bytes
last_value name [] found = found
last_value name ((key, value) ∷ rest) found =
    last_value name rest (if eq_bytes (map to_lower key) name then value else found)

or_empty : Option Bytes → Bytes
or_empty none = []
or_empty (some v) = v

copy_headers-last_value :
    (name : Bytes) (hs : List (Bytes × Bytes)) (t : Table Bytes)
    → or_empty (find? name (copy_headers hs t)) ≡ last_value name hs (or_empty (find? name t))
unfolding copy_headers last_value or_empty
copy_headers-last_value name [] t = refl
copy_headers-last_value name ((key, value) ∷ rest) t =
    copy_headers-last_value name rest (assign (map to_lower key) value t)
    ∙ ap (last_value name rest) assigned
  where
    assigned :
        or_empty (find? name (assign (map to_lower key) value t))
        ≡ (if eq_bytes (map to_lower key) name then value else or_empty (find? name t))
    assigned =
        rw (find?-assign (map to_lower key) name value t)
          (elim (Bool-cases (eq_bytes (map to_lower key) name)) [
            | inl same ↦ rw same refl
            | inr other ↦ rw other refl
          ])

-- A header of an adapted request is the value of the last header of the message whose name in
-- lower case is the one asked for, and empty without one.
pub header-adapt_request :
    (req : LibraryRequest) (name : Bytes)
    → header (adapt_request req) name ≡ last_value name req.headers []
unfolding header adapt_request or_empty find?
header-adapt_request req name =
    or_empty_elim (find? name (copy_headers req.headers []))
    ∙ copy_headers-last_value name req.headers []
  where
    or_empty_elim : (o : Option Bytes) → (elim o [ none ↦ [] | some value ↦ value ]) ≡ or_empty o
    or_empty_elim none = refl
    or_empty_elim (some v) = refl

-- The three security headers have their values, and every other header is that of the response.
abbrev pub IsSecured : HttpResponse → Bytes → Table Bytes → Type 0
IsSecured resp request_id headers =
    (find? (bytes "X-Content-Type-Options") headers ≡ some (bytes "nosniff"))
    × (find? (bytes "Cache-Control") headers ≡ some (bytes "no-store"))
    × (find? (bytes "X-Request-Id") headers ≡ some request_id)
    × ((name : Bytes)
        → eq_bytes (bytes "X-Content-Type-Options") name ≡ false
        → eq_bytes (bytes "Cache-Control") name ≡ false
        → eq_bytes (bytes "X-Request-Id") name ≡ false
        → find? name headers ≡ find? name resp.headers)

distinct_names :
    (eq_bytes (bytes "X-Request-Id") (bytes "X-Content-Type-Options") ≡ false)
    × (eq_bytes (bytes "Cache-Control") (bytes "X-Content-Type-Options") ≡ false)
    × (eq_bytes (bytes "X-Request-Id") (bytes "Cache-Control") ≡ false)
unfolding eq_bytes bytes
distinct_names = (refl, refl, refl)

-- `apply_security_headers` sets X-Content-Type-Options, Cache-Control and X-Request-Id to
-- "nosniff", "no-store" and the request id, and every other header stays as it was.
pub apply_security_headers-IsSecured :
    (resp : HttpResponse) (request_id : Bytes)
    → IsSecured resp request_id (apply_security_headers resp request_id).headers
unfolding apply_security_headers
apply_security_headers-IsSecured resp request_id =
    let (d1, d2, d3) = distinct_names in
    (
      rw (find?-assign, d1, find?-assign, d2, find?-assign, eq_bytes_refl) refl,
      rw (find?-assign, d3, find?-assign, eq_bytes_refl) refl,
      rw (find?-assign, eq_bytes_refl) refl,
      λ name n1 n2 n3. rw (find?-assign, n3, find?-assign, n2, find?-assign, n1) refl,
    )
