-- ===== src/Circuit/Traces.antt =====
-- The course of a breaker of pkg/utils/circuit/breaker.go: when it trips, tries and recovers.
use quant_finance_pipeline.Prelude.{
  ℕ, suc, ◌+◌, ◌≤◌, ◌<◌, ◌≡◌, ap, ◌∙◌, refl, ◌⊎◌, inl, inr, Bool, true, false, List, [], ◌∷◌,
  Option, none, some, leb, arith, min, length, ◌-◌, leb→le, Bool-cases,
}
use quant_finance_pipeline.Circuit.{
  closed, half_open, opened, CircuitBreaker, Error, too_many_requests, before_request, to_half_open,
  Outcome, ran, succeeds, execute,
}

leb-false : (a b : ℕ) → leb a b ≡ false → b < a
leb-false a b h = ground arith

module _ {ℓ κ} {R : Type ℓ} {E : Type κ} where
  -- The first request of an open breaker after the timeout, with no other in between, runs. If it
  -- succeeds the breaker closes with its counters wiped. If not, it opens again, from the time of
  -- this failure on.
  pub execute_trial :
      (ok : E → Bool) (fn : Outcome R E) (start finish : ℕ) (cb : CircuitBreaker)
      → cb.state ≡ opened
      → cb.last_failure_time + cb.config.timeout ≤ start
      → let (cb', reply) = execute ok fn (λ b. b) start finish cb in
        (reply ≡ ran fn)
        × (cb'.requests ≡ 0)
        × (((succeeds ok fn ≡ true) × (cb'.state ≡ closed) × (cb'.failures ≡ 0))
            ⊎ ((succeeds ok fn ≡ false) × (cb'.state ≡ opened) × (cb'.last_failure_time ≡ finish)))
  unfolding execute
  execute_trial ok fn start finish cb o t = ground arith

-- How many of the requests that begin at these times are let through, before any of them ends.
unfoldable pub admitted : CircuitBreaker → List ℕ → ℕ
admitted cb [] = 0
admitted cb (t ∷ ts) =
    let (cb', e) = before_request t cb in
    let rest = admitted cb' ts in elim e [ none ↦ suc rest | some _ ↦ rest ]

abbrev admitted_of : CircuitBreaker × Option Error → List ℕ → ℕ
admitted_of (cb, none) ts = suc (admitted cb ts)
admitted_of (cb, some e) ts = admitted cb ts

admitted_step :
    (cb : CircuitBreaker) (t : ℕ) (ts : List ℕ) (r : CircuitBreaker × Option Error)
    → before_request t cb ≡ r
    → admitted cb (t ∷ ts) ≡ admitted_of r ts
admitted_step cb t ts r e = here ∙ ap (λ s. admitted_of s ts) e
  where
    of :
        (s : CircuitBreaker × Option Error)
        → elim s.1 as (λ _. ℕ) [ none ↦ suc (admitted s.0 ts) | some _ ↦ admitted s.0 ts ]
          ≡ admitted_of s ts
    of (c, none) = refl
    of (c, some e) = refl

    here : admitted cb (t ∷ ts) ≡ admitted_of (before_request t cb) ts
    here = unfold admitted in of (before_request t cb)

before_full :
    (cb : CircuitBreaker) (t : ℕ)
    → cb.state ≡ half_open
    → leb cb.config.max_requests cb.requests ≡ true
    → before_request t cb ≡ (cb, some too_many_requests)
unfolding before_request
before_full cb t h f = ground arith

before_room :
    (cb : CircuitBreaker) (t : ℕ)
    → cb.state ≡ half_open
    → leb cb.config.max_requests cb.requests ≡ false
    → before_request t cb ≡ (record cb { requests = cb.requests + 1 }, none)
unfolding before_request
before_room cb t h f = ground arith

before_wakes :
    (cb : CircuitBreaker) (t : ℕ)
    → cb.state ≡ opened
    → cb.last_failure_time + cb.config.timeout ≤ t
    → before_request t cb ≡ (to_half_open cb, none)
unfolding before_request
before_wakes cb t o le = ground arith

admitted_half_open :
    (cb : CircuitBreaker) (ts : List ℕ)
    → cb.state ≡ half_open
    → admitted cb ts ≡ min (cb.config.max_requests - cb.requests) (length ts)
unfolding admitted
admitted_half_open cb [] h = omega arith
admitted_half_open cb (t ∷ ts) h = elim (Bool-cases (leb cb.config.max_requests cb.requests)) [
  | inl full ↦ omega (
    arith,
    admitted_step cb t ts _ (before_full cb t h full),
    admitted_half_open cb ts h,
    leb→le _ _ full,
  )
  | inr room ↦ omega (
    arith,
    admitted_step cb t ts _ (before_room cb t h room),
    admitted_half_open (record cb { requests = cb.requests + 1 }) ts h,
    leb-false _ _ room,
  )
]

-- Half open, a breaker lets `max_requests` requests through beside the one that made it half open:
-- one more than the configuration's comment says.
pub admitted_after_timeout :
    (cb : CircuitBreaker) (t : ℕ) (ts : List ℕ)
    → cb.state ≡ opened
    → cb.last_failure_time + cb.config.timeout ≤ t
    → admitted cb (t ∷ ts) ≡ min (cb.config.max_requests + 1) (length (t ∷ ts))
admitted_after_timeout cb t ts o le = omega (
  arith,
  admitted_step cb t ts _ (before_wakes cb t o le),
  admitted_half_open (to_half_open cb) ts refl,
)
