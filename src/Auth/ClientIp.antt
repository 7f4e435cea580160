-- ===== src/Auth/ClientIp.antt =====
-- `extract_client_ip` (include/tts/auth.hpp).
pub mod Laws
use voxtral_server.Base.{
  ℕ, zero, suc, ◌-◌, Bool, not, ◌||◌, Option, none, some, ◌∷◌, ◌==◌, if◌then◌else◌, take, drop,
  Bytes, is_empty, [],
}
use voxtral_server.Base.Int.{ℤ, pos, negsuc, pos_part, neg_part, ltb_ℤ, ◌≤ℤ◌}

-- `rfind(',')`: the position of the last comma.
unfoldable pub rfind : Bytes → Option ℕ
rfind [] = none
rfind (c ∷ s) = elim (rfind s) [ some i ↦ some (suc i) | none ↦ if c == b',' then some 0 else none ]

-- The loop over `hop`: each round cuts off the last entry.
unfoldable pub skip_hops : ℕ → Bytes → Option Bytes
skip_hops zero remaining = some remaining
skip_hops (suc n) remaining = elim (rfind remaining) [
  | none ↦ none
  | some p ↦ skip_hops n (take p remaining)
]

-- Rounds of `for (int hop = 0; hop < trusted_hops - 1; ++hop)`.
abbrev pub hop_rounds : ℤ → ℕ
hop_rounds (pos n) = n - 1
hop_rounds (negsuc n) = 0

unfoldable pub last_entry : Bytes → Bytes
last_entry remaining = elim (rfind remaining) [ none ↦ remaining | some p ↦ drop (suc p) remaining ]

unfoldable pub is_ows : ℕ → Bool
is_ows c = c == b' ' || c == 0x09

-- `remove_prefix(1)` while the first byte is white space.
unfoldable pub trim_front : Bytes → Bytes
trim_front [] = []
trim_front (c ∷ s) = if is_ows c then trim_front s else c ∷ s

-- `remove_suffix(1)` while the last byte is white space.
unfoldable pub trim_back : Bytes → Bytes
trim_back [] = []
trim_back (c ∷ s) = elim (trim_back s) [ [] ↦ if is_ows c then [] else c ∷ [] | d ∷ t ↦ c ∷ d ∷ t ]

unfoldable pub trim : Bytes → Bytes
trim ip = trim_back (trim_front ip)

abbrev pub or_remote : Bytes → Bytes → Bytes
or_remote remote [] = remote
or_remote remote (c ∷ s) = c ∷ s

unfoldable pub extract_client_ip : Bytes → Bytes → Bool → ℤ → Bytes
extract_client_ip forwarded_for remote_addr trust_proxy trusted_hops =
    if not trust_proxy || is_empty forwarded_for
    then remote_addr
    else elim (skip_hops (hop_rounds trusted_hops) forwarded_for) [
      | none ↦ remote_addr
      | some remaining ↦ or_remote remote_addr (trim (last_entry remaining))
    ]
