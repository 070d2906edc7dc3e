-- ===== src/Circuit/Manager.antt =====
-- pkg/utils/circuit/breaker.go: `Manager`, the breakers by name.
use mathlib.Core.Option
use text.Mathlib.Text.{◌==◌}
use text.Mathlib.TextEquality.{eq_iff}
use quant_finance_pipeline.Prelude.{
  ◌⊎◌, ℕ, String, List, [], ◌∷◌, Option, none, some, ◌≡◌, if◌then◌else◌, arith,
}
use quant_finance_pipeline.Prelude.Int.{ℤ}
use quant_finance_pipeline.Prelude.Dict.{
  lookup, insert, map_values, lookup-insert, lookup-map_values,
}
use quant_finance_pipeline.Circuit.{
  Config, CircuitBreaker, new_circuit_breaker, reset, counts, state_string,
}

abbrev pub Manager : Type 0
Manager = List (String × CircuitBreaker)

pub record BreakerStats : Type 0 where
  pub name : String
  pub state : String
  pub requests : ℕ
  pub failures : ℕ
  pub successes : ℤ

abbrev pub new_manager : Manager
new_manager = []

-- The part of `GetBreaker` under the write lock, which looks again.
unfoldable pub create_breaker : String → Config → Manager → Manager × CircuitBreaker
create_breaker name config m = elim (lookup name m) [
  | some breaker ↦ (m, breaker)
  | none ↦ let breaker = new_circuit_breaker name config in (insert name breaker m, breaker)
]

-- `GetBreaker`: `m` is the manager under the read lock, `later` the one that the write lock finds.
unfoldable pub get_breaker : String → Config → Manager → Manager → Manager × CircuitBreaker
unfolding create_breaker
get_breaker name config m later = elim (lookup name m) [
  | some breaker ↦ (later, breaker)
  | none ↦ create_breaker name config later
]

unfoldable pub breaker_stats : String → CircuitBreaker → BreakerStats
breaker_stats name b = record {
  name = name;
  state = state_string b.state;
  requests = (counts b).requests;
  failures = (counts b).failures;
  successes = (counts b).successes;
}

unfoldable pub get_breaker_stats : Manager → List (String × BreakerStats)
get_breaker_stats [] = []
get_breaker_stats ((name, b) ∷ m) = (name, breaker_stats name b) ∷ get_breaker_stats m

unfoldable pub reset_all : Manager → Manager
reset_all = map_values reset

-- `ResetBreaker`: none stands for the error that there is no such breaker.
unfoldable pub reset_breaker : String → Manager → Option Manager
reset_breaker name m = elim (lookup name m) [
  | none ↦ none
  | some b ↦ some (insert name (reset b) m)
]

-- Where no other goroutine comes between the two looks, `GetBreaker` returns the breaker that the
-- name has afterwards, and changes no other name.
pub get_breaker-lookup :
    (name other : String) (config : Config) (m : Manager)
    → let (m', b) = get_breaker name config m m in
      (lookup name m' ≡ some b)
      × (lookup other m' ≡ (if name == other then some b else lookup other m))
unfolding get_breaker
get_breaker-lookup name other config m = ground (
  arith,
  eq_iff name other,
  eq_iff name name,
  lookup-insert name name (new_circuit_breaker name config) m,
  lookup-insert name other (new_circuit_breaker name config) m,
)

-- If the second look would find a breaker, made by whichever goroutine, and the first one finds the
-- same or none, `GetBreaker` returns it under any configuration and makes no other.
pub get_breaker_once :
    (name : String) (config : Config) (m later : Manager) (b : CircuitBreaker)
    → lookup name later ≡ some b
    → (lookup name m ≡ none) ⊎ (lookup name m ≡ some b)
    → get_breaker name config m later ≡ (later, b)
unfolding get_breaker
get_breaker_once name config m later b h g = ground arith

-- `Reset` of the manager resets the breaker of every name, and makes and drops none.
pub lookup-reset_all :
    (name : String) (m : Manager) → lookup name (reset_all m) ≡ Option.map reset (lookup name m)
unfolding reset_all
lookup-reset_all name m = lookup-map_values reset name m
