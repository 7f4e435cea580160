-- ===== src/Base/Maps.antt =====
-- A `std::map` or `std::unordered_map` keyed by strings: its entries, in an order that no client
-- looks at but where it says so.
use Prim.Native.Nat.{suc, ◌≤◌}
use mathlib.Core.Path.{◌≡◌, refl}
use mathlib.Core.List.{List, [], ◌∷◌}
use mathlib.Core.Option.{Option, none, some}
use native.Mathlib.Omega.{arith}
use voxtral_server.Base.Tests.{if◌then◌else◌}
use voxtral_server.Base.Lists.{length}
use voxtral_server.Base.Texts.{Bytes, eq_bytes, eq_bytes_iff}

abbrev pub Table {ℓ} : Type ℓ → Type ℓ
Table V = List (Bytes × V)

module _ {ℓ} {V : Type ℓ} where
  -- `find`
  unfoldable pub find? : Bytes → Table V → Option V
  find? k [] = none
  find? k ((j, v) ∷ m) = if eq_bytes j k then some v else find? k m

  -- `m[k] = v`
  unfoldable pub assign : Bytes → V → Table V → Table V
  assign k v [] = (k, v) ∷ []
  assign k v ((j, w) ∷ m) = if eq_bytes j k then (j, v) ∷ m else (j, w) ∷ assign k v m

  abbrev pub keys : Table V → List Bytes
  keys [] = []
  keys ((k, v) ∷ m) = k ∷ keys m

  pub find?-assign :
      (k j : Bytes) (v : V) (m : Table V)
      → find? j (assign k v m) ≡ (if eq_bytes k j then some v else find? j m)
  unfolding find? assign
  find?-assign k j v [] = refl
  find?-assign k j v ((i, w) ∷ m) =
      ground (arith, eq_bytes_iff k j, eq_bytes_iff i k, eq_bytes_iff i j, find?-assign k j v m)

  pub length-assign : (k : Bytes) (v : V) (m : Table V) → length (assign k v m) ≤ suc (length m)
  unfolding assign
  length-assign k v [] = omega arith
  length-assign k v ((j, w) ∷ m) = ground (arith, length-assign k v m)

  pub length-assign_of_find? :
      (k : Bytes) (v w : V) (m : Table V) → find? k m ≡ some w → length (assign k v m) ≡ length m
  unfolding find? assign
  length-assign_of_find? k v w [] h = cc
  length-assign_of_find? k v w ((j, u) ∷ m) h = ground (arith, length-assign_of_find? k v w m)

  pub length-assign_new :
      (k : Bytes) (v : V) (m : Table V) → find? k m ≡ none → length (assign k v m) ≡ suc (length m)
  unfolding find? assign
  length-assign_new k v [] h = refl
  length-assign_new k v ((j, u) ∷ m) h = ground (arith, length-assign_new k v m)
