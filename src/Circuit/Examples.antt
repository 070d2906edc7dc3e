-- ===== src/Circuit/Examples.antt =====
-- Tests of the circuit breaker, and the theorems at concrete breakers.
use quant_finance_pipeline.Prelude.{ℕ, ◌+◌, ◌≡◌, refl, ◌⊎◌, Bool, true, false, List, [], ◌∷◌, arith}
use quant_finance_pipeline.Circuit.{
  closed, opened, Config, CircuitBreaker, Outcome, returns, new_circuit_breaker, panics, refused,
  ran, circuit_breaker_open, execute,
}
use quant_finance_pipeline.Circuit.Manager.{Manager}
use quant_finance_pipeline.Circuit.Invariant.{step, before, after, run, Inv, run-new-Inv}
use quant_finance_pipeline.Circuit.Sequences.{Request, execute_one, execute_all, execute_all-trips}
use quant_finance_pipeline.Circuit.Traces.{execute_trial, admitted, admitted_after_timeout}

-- Two failures open it, for ten seconds.
abbrev config : Config
config = record { max_failures = 2; timeout = 10; max_requests = 1 }

abbrev fresh : CircuitBreaker
fresh = record {
  name = "feed";
  config = config;
  state = closed;
  failures = 0;
  requests = 0;
  last_failure_time = 0;
  changes = [];
}

abbrev tripped : CircuitBreaker
tripped = record fresh { state = opened; failures = 2; last_failure_time = 100 }

-- The function's error is a Boolean, true where there is none.
abbrev ok : Bool → Bool
ok e = e

abbrev answers : Bool → Outcome ℕ Bool
answers e = returns 7 e

trip_test :
    run fresh (after false 90 ∷ before 95 ∷ after false 100 ∷ [])
    ≡ record tripped { changes = (closed, opened) ∷ [] }
unfolding run step
trip_test = refl

run-new-Inv_example :
    Inv
      (run (new_circuit_breaker "feed" config) (after false 90 ∷ after false 100 ∷ before 111 ∷ []))
run-new-Inv_example = run-new-Inv "feed" config (after false 90 ∷ after false 100 ∷ before 111 ∷ [])

-- A request that begins at a time and takes one nanosecond.
abbrev request : Outcome ℕ Bool → ℕ → Request ℕ Bool
request fn t = record { outcome = fn; start = t; finish = t + 1 }

-- A failure, a success that wipes it, and a panic.
abbrev mixed : List (Request ℕ Bool)
mixed = request (answers false) 50 ∷ request (answers true) 60 ∷ request panics 70 ∷ []

-- Behind them a panic opens the breaker at 99.
abbrev quick : List (Request ℕ Bool)
quick = request (answers true) 105 ∷ request (answers true) 108 ∷ []

execute_all-trips_example :
    let (cb1, replies) = execute_all ok mixed fresh in
    let cb2 = (execute_one ok (request panics 98) cb1).0 in
    (replies ≡ ran (answers false) ∷ ran (answers true) ∷ ran panics ∷ [])
    × (cb1.state ≡ closed)
    × (cb1.failures ≡ 1)
    × (execute_all ok quick cb2
        ≡ (cb2, refused circuit_breaker_open ∷ refused circuit_breaker_open ∷ []))
    × ((execute_one ok (request (answers true) 109) cb2).1 ≡ ran (answers true))
execute_all-trips_example =
    execute_all-trips ok mixed (request panics 98) quick (request (answers true) 109) fresh refl
      (ground arith) refl (omega arith) (ground arith) (omega arith)

execute_trial_example :
    let (cb', reply) = execute ok (answers true) (λ b. b) 110 111 tripped in
    (reply ≡ ran (answers true))
    × (cb'.requests ≡ 0)
    × (((true ≡ true) × (cb'.state ≡ closed) × (cb'.failures ≡ 0))
        ⊎ ((true ≡ false) × (cb'.state ≡ opened) × (cb'.last_failure_time ≡ 111)))
execute_trial_example = execute_trial ok (answers true) 110 111 tripped refl (omega arith)

admitted_after_timeout_example : admitted tripped (110 ∷ 111 ∷ 112 ∷ []) ≡ 2
admitted_after_timeout_example =
    admitted_after_timeout tripped 110 (111 ∷ 112 ∷ []) refl (omega arith)

abbrev breakers : Manager
breakers = ("feed", tripped) ∷ []
