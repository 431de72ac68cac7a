-- ===== src/Base/Dict.antt =====
-- Go maps with string keys, as association lists. The order of the list is the order in which a
-- `range` over the map visits it, so what is proved for every list holds for every visiting order.
use Prim.Native.String.{String}
use mathlib.Core.Path.{◌≡◌, refl}
use mathlib.Core.Option.{Option, none, some}
use mathlib.Core.List.{List, [], ◌∷◌}
use native.Mathlib.Omega.{arith}
use text.Mathlib.Text.{◌==◌}
use text.Mathlib.TextEquality.{eq_iff}
use vulpes_core.Base.Tests.{if◌then◌else◌}

abbrev pub Dict {ℓ} : Type ℓ → Type ℓ
Dict V = List (String × V)

module _ {ℓ} {V : Type ℓ} where
  -- `m[k]`
  unfoldable pub lookup : String → Dict V → Option V
  lookup k [] = none
  lookup k ((j, v) ∷ m) = if j == k then some v else lookup k m

  -- `m[k] = v`
  unfoldable pub insert : String → V → Dict V → Dict V
  insert k v [] = (k, v) ∷ []
  insert k v ((j, w) ∷ m) = if j == k then (k, v) ∷ m else (j, w) ∷ insert k v m

  -- `for k, v := range src { dst[k] = v }`
  unfoldable pub merge : Dict V → Dict V → Dict V
  merge dst [] = dst
  merge dst ((k, v) ∷ src) = merge (insert k v dst) src

  -- `m[k]`, with the zero value for a key that is not there
  unfoldable pub get_or : String → V → Dict V → V
  unfolding lookup
  get_or k zero_value m = elim (lookup k m) [ none ↦ zero_value | some v ↦ v ]

  pub lookup-insert :
      (j k : String) (v : V) (m : Dict V)
      → lookup j (insert k v m) ≡ (if k == j then some v else lookup j m)
  unfolding lookup insert
  lookup-insert j k v [] = refl
  lookup-insert j k v ((i, w) ∷ m) =
      ground (arith, eq_iff k j, eq_iff i k, eq_iff i j, lookup-insert j k v m)

  -- The last pair of a key in the visiting order, or what was there before.
  unfoldable pub last_or : String → Option V → Dict V → Option V
  last_or j old [] = old
  last_or j old ((k, v) ∷ src) = last_or j (if k == j then some v else old) src

  pub lookup-merge :
      (j : String) (dst src : Dict V) → lookup j (merge dst src) ≡ last_or j (lookup j dst) src
  unfolding merge last_or
  lookup-merge j dst [] = refl
  lookup-merge j dst ((k, v) ∷ src) =
      rw (lookup-merge j (insert k v dst) src, lookup-insert j k v dst)

  pub lookup-nil : (j : String) → lookup j [] ≡ none
  unfolding lookup
  lookup-nil j = refl

  pub last_or-absent :
      (j : String) (old : Option V) (src : Dict V) → lookup j src ≡ none → last_or j old src ≡ old
  unfolding last_or lookup
  last_or-absent j old [] h = refl
  last_or-absent j old ((k, v) ∷ src) h = ground (arith, last_or-absent j old src)

  pub lookup-merge_absent :
      (j : String) (dst src : Dict V)
      → lookup j src ≡ none
      → lookup j (merge dst src) ≡ lookup j dst
  lookup-merge_absent j dst src h = rw lookup-merge (last_or-absent j (lookup j dst) src h)

  -- No key stands twice, as in every Go map.
  abbrev pub NodupKeys : Dict V → Type ℓ
  NodupKeys [] = Unit
  NodupKeys ((k, v) ∷ m) = (lookup k m ≡ none) × NodupKeys m
