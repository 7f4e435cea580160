-- ===== src/Auth/ClientIp/Laws.antt =====
-- Which entry of X-Forwarded-For is taken for the client, and what a forged header can change.
use voxtral_server.Auth.ClientIp.{
  rfind, skip_hops, hop_rounds, last_entry, is_ows, trim_front, trim_back, trim, or_remote,
  extract_client_ip,
}
use voxtral_server.Base.{
  ℕ, zero, suc, ◌≤◌, ◌≡◌, refl, ap, ◌∙◌, ◌≢◌, inl, inr, true, false, Option, none, some, List, [],
  ◌∷◌, ◌++◌, arith, Bool-cases, length, drop, All, take-append, Bytes, is_empty,
}
use voxtral_server.Base.Int.{ℤ, pos}

abbrev pub LacksComma : Bytes → Type 0
LacksComma = All (λ c. c ≢ b',')

-- A header that ends in the entry `entry`, behind the text `left` and a comma, if there is one.
abbrev pub ending : Option Bytes → Bytes → Bytes
ending none entry = entry
ending (some left) entry = left ++ b',' ∷ entry

-- The header after the trusted proxies have added their entries, the nearest proxy first.
abbrev pub behind : Bytes → List Bytes → Bytes
behind header [] = header
behind header (entry ∷ entries) = behind header entries ++ b',' ∷ entry

rfind_of_LacksComma : (s : Bytes) → LacksComma s → rfind s ≡ none
unfolding rfind
rfind_of_LacksComma [] h = refl
rfind_of_LacksComma (c ∷ s) h = ground (arith, rfind_of_LacksComma s h.1)

rfind-append :
    (left entry : Bytes) → LacksComma entry → rfind (left ++ b',' ∷ entry) ≡ some (length left)
unfolding rfind
rfind-append [] entry h = ground (arith, rfind_of_LacksComma entry h)
rfind-append (c ∷ left) entry h = ground (arith, rfind-append left entry h)

drop-append : (left entry : Bytes) → drop (suc (length left)) (left ++ b',' ∷ entry) ≡ entry
drop-append [] entry = refl
drop-append (c ∷ left) entry = drop-append left entry

last_entry-ending :
    (left : Option Bytes) (entry : Bytes)
    → LacksComma entry
    → last_entry (ending left entry) ≡ entry
unfolding last_entry
last_entry-ending none entry h = ground (arith, rfind_of_LacksComma entry h)
last_entry-ending (some left) entry h =
    ground (arith, rfind-append left entry h, drop-append left entry)

skip_hops-behind :
    (header : Bytes) (entries : List Bytes)
    → All LacksComma entries
    → skip_hops (length entries) (behind header entries) ≡ some header
unfolding skip_hops
skip_hops-behind header [] h = refl
skip_hops-behind header (entry ∷ entries) h = ground (
  arith,
  rfind-append (behind header entries) entry h.0,
  take-append (behind header entries) (b',' ∷ entry),
  skip_hops-behind header entries h.1,
)

-- With fewer entries than trusted hops the loop meets no comma.
skip_hops_short :
    (n : ℕ) (entry : Bytes) (entries : List Bytes)
    → length entries ≤ n
    → LacksComma entry
    → All LacksComma entries
    → skip_hops (suc n) (behind entry entries) ≡ none
unfolding skip_hops
skip_hops_short n entry [] le h k = ground (arith, rfind_of_LacksComma entry h)
skip_hops_short zero entry (e ∷ entries) le h k = absurd (omega arith)
skip_hops_short (suc n) entry (e ∷ entries) le h k = ground (
  arith,
  rfind-append (behind entry entries) e k.0,
  take-append (behind entry entries) (b',' ∷ e),
  skip_hops_short n entry entries (omega arith) h k.1,
)

is_empty-append : (s t : Bytes) (c : ℕ) → is_empty (s ++ c ∷ t) ≡ false
unfolding is_empty
is_empty-append [] t c = refl
is_empty-append (d ∷ s) t c = refl

extract-trusted :
    (header remote : Bytes) (hops : ℤ)
    → is_empty header ≡ false
    → extract_client_ip header remote true hops ≡ elim (skip_hops (hop_rounds hops) header) [
      | none ↦ remote
      | some remaining ↦ or_remote remote (trim (last_entry remaining))
    ]
unfolding extract_client_ip
extract-trusted header remote hops h = rw h

is_empty-behind :
    (header : Bytes) (entries : List Bytes)
    → is_empty header ≡ false
    → is_empty (behind header entries) ≡ false
is_empty-behind header [] h = h
is_empty-behind header (e ∷ entries) h = is_empty-append (behind header entries) e b','

extract-found :
    (header remote : Bytes) (entries : List Bytes)
    → is_empty header ≡ false
    → All LacksComma entries
    → extract_client_ip (behind header entries) remote true (pos (suc (length entries)))
      ≡ or_remote remote (trim (last_entry header))
extract-found header remote entries h k = ground (
  arith,
  extract-trusted (behind header entries) remote (pos (suc (length entries)))
      (is_empty-behind header entries h),
  skip_hops-behind header entries k,
)

-- With a trusted proxy, n + 1 trusted hops and n entries behind it, none of them with a comma
-- in it, the address is the entry before those n, trimmed, or the socket's where it is blank;
-- what stands to the left of it, which a client can forge, makes no difference.
pub extract_client_ip-behind :
    (left entry remote : Bytes) (entries : List Bytes)
    → LacksComma entry
    → All LacksComma entries
    → extract_client_ip
        (behind (ending (some left) entry) entries)
        remote
        true
        (pos (suc (length entries)))
      ≡ or_remote remote (trim entry)
extract_client_ip-behind left entry remote entries h k =
    extract-found (ending (some left) entry) remote entries (is_empty-append left entry b',') k
    ∙ ap (λ e. or_remote remote (trim e)) (last_entry-ending (some left) entry h)

-- The address is the socket's if the proxy is not trusted, if the header is empty, and if the
-- header has at most n + 1 entries, none of them with a comma in it, and n + 2 hops are
-- trusted.
pub extract_client_ip_remote :
    (header entry remote : Bytes) (entries : List Bytes) (hops : ℤ) (n : ℕ)
    → LacksComma entry
    → All LacksComma entries
    → length entries ≤ n
    → (extract_client_ip header remote false hops ≡ remote)
      × (extract_client_ip [] remote true hops ≡ remote)
      × (extract_client_ip (behind entry entries) remote true (pos (suc (suc n))) ≡ remote)
extract_client_ip_remote header entry remote entries hops n h k le = (
  unfold extract_client_ip in refl,
  unfold extract_client_ip is_empty in refl,
  elim (Bool-cases (is_empty (behind entry entries))) [
    | inl none_left ↦ unfold extract_client_ip in rw none_left
    | inr some_left ↦ ground (
      arith,
      extract-trusted (behind entry entries) remote (pos (suc (suc n))) some_left,
      skip_hops_short n entry entries le h k,
    )
  ],
)

abbrev pub IsBlank : Bytes → Type 0
IsBlank = All (λ c. is_ows c ≡ true)

abbrev pub LacksBlank : Bytes → Type 0
LacksBlank = All (λ c. is_ows c ≡ false)

trim_front-blank : (w s : Bytes) → IsBlank w → trim_front (w ++ s) ≡ trim_front s
unfolding trim_front
trim_front-blank [] s h = refl
trim_front-blank (c ∷ w) s h = ground (arith, trim_front-blank w s h.1)

trim_back-blank : (w : Bytes) → IsBlank w → trim_back w ≡ []
unfolding trim_back
trim_back-blank [] h = refl
trim_back-blank (c ∷ w) h = ground (arith, trim_back-blank w h.1)

trim_back-append : (s w : Bytes) → LacksBlank s → IsBlank w → trim_back (s ++ w) ≡ s
unfolding trim_back
trim_back-append [] w h k = trim_back-blank w k
trim_back-append (c ∷ []) w h k = ground (arith, trim_back-blank w k)
trim_back-append (c ∷ d ∷ s) w h k = ground (arith, trim_back-append (d ∷ s) w h.1 k)

trim_front_of_IsBlank : (w : Bytes) → IsBlank w → trim_front w ≡ []
unfolding trim_front
trim_front_of_IsBlank [] h = refl
trim_front_of_IsBlank (c ∷ w) h = ground (arith, trim_front_of_IsBlank w h.1)

trim_front_of_LacksBlank :
    (s w : Bytes) → LacksBlank s → IsBlank w → trim_back (trim_front (s ++ w)) ≡ s
unfolding trim_front
trim_front_of_LacksBlank [] w h k = unfold trim_back in ap trim_back (trim_front_of_IsBlank w k)
trim_front_of_LacksBlank (c ∷ s) w h k = ground (arith, trim_back-append (c ∷ s) w h k)

-- White space around an address is taken off, and nothing else.
pub trim-pad :
    (before address after : Bytes)
    → IsBlank before
    → LacksBlank address
    → IsBlank after
    → trim (before ++ (address ++ after)) ≡ address
unfolding trim
trim-pad before address after h k l =
    ap trim_back (trim_front-blank before (address ++ after) h)
    ∙ trim_front_of_LacksBlank address after k l
