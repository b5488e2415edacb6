-- ===== src/Prelude/Maps.antt =====
-- Go maps. A map that the code only reads and writes by key is a function with the value that
-- Go returns for a missing key; one that the code ranges over is an association list.
use Prim.Native.String.{String}
use mathlib.Core.Path.{◌≡◌, refl}
use mathlib.Core.Option.{Option, none, some}
use mathlib.Core.List.{List, [], ◌∷◌}
use native.Mathlib.Omega.{arith}
use text.Mathlib.Text.{◌==◌}
use text.Mathlib.TextEquality.{eq_iff}
use spexmachina.Prelude.Tests.{if◌then◌else◌}

-- m[k] = v, for a map that is read by key alone.
abbrev pub update {ℓ} : {V : Type ℓ} → (String → V) → String → V → String → V
update m k v j = if k == j then v else m j

module _ {ℓ} {V : Type ℓ} where
  -- v, ok := m[k]
  unfoldable pub fetch : List (String × V) → String → Option V
  fetch [] k = none
  fetch (entry ∷ m) k = if entry.0 == k then some entry.1 else fetch m k

  -- m[k] = v
  unfoldable pub store : List (String × V) → String → V → List (String × V)
  store [] k v = (k, v) ∷ []
  store (entry ∷ m) k v =
      let kept = store m k v in if entry.0 == k then (k, v) ∷ m else entry ∷ kept

  pub fetch-store :
      (m : List (String × V)) (k : String) (v : V) (j : String)
      → fetch (store m k v) j ≡ (if k == j then some v else fetch m j)
  unfolding fetch store
  fetch-store [] k v j = refl
  fetch-store (entry ∷ m) k v j =
      let ih = fetch-store m k v j in
      ground (arith, ih, eq_iff entry.0 k, eq_iff k j, eq_iff entry.0 j)

  -- No key stands twice, as in every Go map.
  abbrev pub HasKeysOnce : List (String × V) → Type ℓ
  HasKeysOnce [] = Unit
  HasKeysOnce (entry ∷ m) = (fetch m entry.0 ≡ none) × HasKeysOnce m

  pub store-HasKeysOnce :
      (m : List (String × V)) (k : String) (v : V) → HasKeysOnce m → HasKeysOnce (store m k v)
  unfolding fetch store
  store-HasKeysOnce [] k v once = (refl, tt)
  store-HasKeysOnce (entry ∷ m) k v once = ground (
    arith,
    store-HasKeysOnce m k v once.1,
    fetch-store m k v entry.0,
    eq_iff entry.0 k,
    eq_iff k entry.0,
  )
