-- ===== src/Circuit/Invariant.antt =====
-- What holds of a breaker of pkg/utils/circuit/breaker.go whatever requests do, in any order.
use quant_finance_pipeline.Prelude.{ℕ, ◌≤◌, ◌<◌, ◌≡◌, refl, ◌⊎◌, String, Bool, List, [], ◌∷◌, arith}
use quant_finance_pipeline.Prelude.Int.{pos, ◌-ℤ◌, ◌≤ℤ◌}
use quant_finance_pipeline.Circuit.{
  closed, half_open, opened, Config, CircuitBreaker, new_circuit_breaker, before_request,
  after_request, reset, counts,
}

-- A critical section of any goroutine.
pub data Event : Type 0 where
  before : ℕ → Event
  after : Bool → ℕ → Event
  resets : Event

unfoldable pub step : CircuitBreaker → Event → CircuitBreaker
unfolding before_request after_request reset
step cb (before now) = (before_request now cb).0
step cb (after success now) = after_request success now cb
step cb resets = reset cb

unfoldable pub run : CircuitBreaker → List Event → CircuitBreaker
run cb [] = cb
run cb (e ∷ es) = run (step cb e) es

pub record Inv (cb : CircuitBreaker) : Type 0 where
  pub trial_only : (cb.state ≡ half_open) ⊎ (cb.requests ≡ 0)
  pub trial_bound : cb.requests ≤ cb.config.max_requests
  pub closed_below :
      (cb.state ≡ half_open)
      ⊎ (cb.state ≡ opened)
      ⊎ (cb.failures ≡ 0)
      ⊎ (cb.failures < cb.config.max_failures)
  pub tripped : (cb.state ≡ closed) ⊎ (0 < cb.failures)

new-Inv : (name : String) (config : Config) → Inv (new_circuit_breaker name config)
unfolding new_circuit_breaker
new-Inv name config = ground arith

step-Inv : (cb : CircuitBreaker) (e : Event) → Inv cb → Inv (step cb e)
unfolding step
step-Inv cb (before now) v = ground arith
step-Inv cb (after success now) v = ground arith
step-Inv cb resets v = ground arith

step-config : (cb : CircuitBreaker) (e : Event) → (step cb e).config ≡ cb.config
unfolding step
step-config cb (before now) = ground arith
step-config cb (after success now) = ground arith
step-config cb resets = refl

run-Inv : (cb : CircuitBreaker) (es : List Event) → Inv cb → Inv (run cb es)
unfolding run
run-Inv cb [] v = v
run-Inv cb (e ∷ es) v = run-Inv (step cb e) es (step-Inv cb e v)

-- After any critical sections of any requests: requests are counted only while half open, and never
-- beyond `max_requests`; a closed breaker has no failure counted or fewer than `max_failures`; and
-- one that is not closed has counted a failure.
pub run-new-Inv :
    (name : String) (config : Config) (es : List Event)
    → Inv (run (new_circuit_breaker name config) es)
run-new-Inv name config es = run-Inv _ es (new-Inv name config)

-- `Successes` of `Counts` is requests less failures: in any state in which the invariant holds it is
-- not positive unless the breaker is half open.
pub counts_not_positive :
    (cb : CircuitBreaker) → Inv cb → (cb.state ≡ half_open) ⊎ ((counts cb).successes ≤ℤ pos 0)
unfolding counts ◌-ℤ◌
counts_not_positive cb v = ground arith
