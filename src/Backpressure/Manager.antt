-- ===== src/Backpressure/Manager.antt =====
-- pkg/utils/backpressure/controller.go: `Manager`, the controllers by name.
use text.Mathlib.Text.{◌==◌}
use text.Mathlib.TextEquality.{eq_iff}
use quant_finance_pipeline.Prelude.{
  ℕ, String, List, [], ◌∷◌, Option, none, some, ◌≡◌, ◌⊎◌, if◌then◌else◌, arith,
}
use quant_finance_pipeline.Prelude.Dict.{lookup, insert, lookup-insert}
use quant_finance_pipeline.Backpressure.Controller.{Config, Controller, new_controller, close}

module _ {ℓ} {A : Type ℓ} where
  -- `GetController`: `m` is the manager under the read lock, `later` the one under the write lock.
  unfoldable pub get_controller :
      String
      → Config
      → ℕ
      → List (String × Controller A)
      → List (String × Controller A)
      → List (String × Controller A) × Controller A
  get_controller name config now m later = elim (lookup name m) [
    | some controller ↦ (later, controller)
    | none ↦ elim (lookup name later) [
      | some controller ↦ (later, controller)
      | none ↦
          let controller = new_controller (record config { name = name }) now in
          (insert name controller later, controller)
    ]
  ]

  -- The loop of `CloseAll`: the controllers after it, or none where a `Close` panics.
  unfoldable pub close_each : List (String × Controller A) → Option (List (String × Controller A))
  close_each [] = some []
  close_each ((name, c) ∷ m) = elim (close c) [
    | none ↦ none
    | some c' ↦ elim (close_each m) [ none ↦ none | some m' ↦ some ((name, c') ∷ m') ]
  ]

  -- Where no other goroutine comes between the two looks, `GetController` returns the controller that
  -- the name has afterwards, the one that it had before or else a new one by that name, and changes
  -- no other name.
  pub get_controller-lookup :
      (name other : String) (config : Config) (now : ℕ) (m : List (String × Controller A))
      → let (m', c) = get_controller name config now m m in
        (lookup name m' ≡ some c)
        × ((lookup name m ≡ some c) ⊎ ((lookup name m ≡ none) × (c.name ≡ name)))
        × (lookup other m' ≡ (if name == other then some c else lookup other m))
  unfolding get_controller new_controller
  get_controller-lookup name other config now m = ground (
    arith,
    eq_iff name other,
    eq_iff name name,
    lookup-insert name name (new_controller (record config { name = name }) now) m,
    lookup-insert name other (new_controller (record config { name = name }) now) m,
  )
