-- ===== src/Prelude/Dict.antt =====
-- A Go map with text keys: an association list without an order that a caller could see.
use mathlib.Core.Path.{◌≡◌, refl}
use mathlib.Core.List.{List, [], ◌∷◌}
use mathlib.Core.Option
use mathlib.Core.Option.{Option, none, some}
use native.Mathlib.Omega.{arith}
use Prim.Native.String.{String}
use text.Mathlib.Text.{◌==◌}
use text.Mathlib.TextEquality.{eq_iff}
use quant_finance_pipeline.Prelude.Tests.{if◌then◌else◌}

module _ {ℓ} {V : Type ℓ} where
  abbrev pub lookup : String → List (String × V) → Option V
  lookup k [] = none
  lookup k ((j, v) ∷ m) = if j == k then some v else lookup k m

  -- `delete(m, k)`
  abbrev pub erase : String → List (String × V) → List (String × V)
  erase k [] = []
  erase k ((j, w) ∷ m) = if j == k then erase k m else (j, w) ∷ erase k m

  -- `m[k] = v`
  abbrev pub insert : String → V → List (String × V) → List (String × V)
  insert name value entries = (name, value) ∷ erase name entries

  -- A loop over all values.
  abbrev pub map_values {κ} : {W : Type κ} → (V → W) → List (String × V) → List (String × W)
  map_values f [] = []
  map_values f ((j, v) ∷ m) = (j, f v) ∷ map_values f m

  pub lookup-erase :
      (k j : String) (m : List (String × V))
      → lookup j (erase k m) ≡ (if k == j then none else lookup j m)
  lookup-erase k j [] = ground arith
  lookup-erase k j ((i, w) ∷ m) =
      ground (arith, eq_iff i j, eq_iff i k, eq_iff k j, lookup-erase k j m)

  pub lookup-insert :
      (k j : String) (v : V) (m : List (String × V))
      → lookup j (insert k v m) ≡ (if k == j then some v else lookup j m)
  lookup-insert k j v m = ground (arith, lookup-erase k j m)

module _ {ℓ κ} {V : Type ℓ} {W : Type κ} where
  pub lookup-map_values :
      (f : V → W) (j : String) (m : List (String × V))
      → lookup j (map_values f m) ≡ Option.map f (lookup j m)
  lookup-map_values f j [] = refl
  lookup-map_values f j ((i, v) ∷ m) = ground (arith, lookup-map_values f j m)
