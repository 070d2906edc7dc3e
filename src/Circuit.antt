-- ===== src/Circuit.antt =====
-- pkg/utils/circuit/breaker.go: the circuit breaker.
--
-- The mutex makes `beforeRequest`, `afterRequest` and `Reset` atomic; each takes the time that
-- `time.Now` gives in it. The numbers of a configuration are not negative: a negative one acts as
-- 0 does. `IsSuccessful` is an argument of `execute`, and `OnStateChange`, which is set, is kept
-- as the list of its calls, the last one first.
pub mod Manager
pub mod Invariant
pub mod Traces
pub mod Sequences
mod Examples
use quant_finance_pipeline.Prelude.{
  ℕ, suc, ◌+◌, String, Bool, true, false, List, [], ◌∷◌, Option, none, some, leb, if◌then◌else◌,
}
use quant_finance_pipeline.Prelude.Int.{ℤ, pos, ◌-ℤ◌}

pub data State : Type 0 where
  closed half_open opened : State

unfoldable pub state_string : State → String
state_string closed = "CLOSED"
state_string half_open = "HALF_OPEN"
state_string opened = "OPEN"

pub record Config : Type 0 where
  pub max_failures : ℕ
  pub timeout : ℕ
  pub max_requests : ℕ

-- `DefaultConfig`, with the timeout in nanoseconds.
abbrev pub default_config : Config
default_config = record { max_failures = 5; timeout = 60_000_000_000; max_requests = 1 }

pub record CircuitBreaker : Type 0 where
  pub name : String
  pub config : Config
  pub state : State
  pub failures : ℕ
  pub requests : ℕ
  pub last_failure_time : ℕ
  pub changes : List (State × State)

pub data Error : Type 0 where
  circuit_breaker_open too_many_requests : Error

pub record Counts : Type 0 where
  pub requests : ℕ
  pub failures : ℕ
  pub successes : ℤ

unfoldable pub new_circuit_breaker : String → Config → CircuitBreaker
new_circuit_breaker name config = record {
  name = name;
  config = config;
  state = closed;
  failures = 0;
  requests = 0;
  last_failure_time = 0;
  changes = [];
}

abbrev pub to_closed : CircuitBreaker → CircuitBreaker
to_closed cb = record cb {
  state = closed;
  failures = 0;
  requests = 0;
  changes = (cb.state, closed) ∷ cb.changes;
}

abbrev pub to_open : CircuitBreaker → CircuitBreaker
to_open cb = record cb { state = opened; requests = 0; changes = (cb.state, opened) ∷ cb.changes }

abbrev pub to_half_open : CircuitBreaker → CircuitBreaker
to_half_open cb = record cb {
  state = half_open;
  requests = 0;
  changes = (cb.state, half_open) ∷ cb.changes;
}

-- The result is the error, or none where the request may go on.
unfoldable pub before_request : ℕ → CircuitBreaker → CircuitBreaker × Option Error
before_request now cb = elim cb.state [
  | closed ↦ (cb, none)
  | opened ↦
      if leb (cb.last_failure_time + cb.config.timeout) now
      then (to_half_open cb, none)
      else (cb, some circuit_breaker_open)
  | half_open ↦
      if leb cb.config.max_requests cb.requests
      then (cb, some too_many_requests)
      else (record cb { requests = cb.requests + 1 }, none)
]

unfoldable pub on_success : CircuitBreaker → CircuitBreaker
on_success cb = elim cb.state [
  | closed ↦ record cb { failures = 0 }
  | half_open ↦ to_closed cb
  | opened ↦ cb
]

unfoldable pub on_failure : ℕ → CircuitBreaker → CircuitBreaker
on_failure now cb =
    let counted = record cb { failures = cb.failures + 1; last_failure_time = now } in
    elim cb.state [
      | closed ↦
          if leb counted.config.max_failures counted.failures then to_open counted else counted
      | half_open ↦ to_open counted
      | opened ↦ counted
    ]

unfoldable pub after_request : Bool → ℕ → CircuitBreaker → CircuitBreaker
unfolding on_success on_failure
after_request success now cb = if success then on_success cb else on_failure now cb

unfoldable pub reset : CircuitBreaker → CircuitBreaker
reset cb = to_closed cb

unfoldable pub counts : CircuitBreaker → Counts
counts cb = record {
  requests = cb.requests;
  failures = cb.failures;
  successes = pos cb.requests -ℤ pos cb.failures;
}

-- What the wrapped function does: it returns a value and an error, or it panics.
pub data Outcome {ℓ κ} (R : Type ℓ) (E : Type κ) : Type (ℓ ⊔ κ) where
  returns : R → E → Outcome R E
  panics : Outcome R E

-- What the caller of `Execute` sees.
pub data Reply {ℓ κ} (R : Type ℓ) (E : Type κ) : Type (ℓ ⊔ κ) where
  refused : Error → Reply R E
  ran : Outcome R E → Reply R E

module _ {ℓ κ} {R : Type ℓ} {E : Type κ} where
  -- `config.IsSuccessful`; a panic is a failure.
  abbrev pub succeeds : (E → Bool) → Outcome R E → Bool
  succeeds is_successful (returns r e) = is_successful e
  succeeds is_successful panics = false

  -- `Execute` and `ExecuteWithContext`: the function runs without the lock, and may leave the
  -- breaker changed by other requests, which `during` stands for.
  unfoldable pub execute :
      (E → Bool)
      → Outcome R E
      → (CircuitBreaker → CircuitBreaker)
      → ℕ
      → ℕ
      → CircuitBreaker
      → CircuitBreaker × Reply R E
  unfolding before_request after_request
  execute is_successful fn during start finish cb =
      let (cb', e) = before_request start cb in
      elim e [
        | some err ↦ (cb', refused err)
        | none ↦ (after_request (succeeds is_successful fn) finish (during cb'), ran fn)
      ]
