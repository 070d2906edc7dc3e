-- ===== src/Circuit/Sequences.antt =====
-- Requests of a breaker of pkg/utils/circuit/breaker.go, one after another through `Execute`.
use quant_finance_pipeline.Prelude.{
  ℕ, suc, ◌+◌, ◌≤◌, ◌<◌, ◌≡◌, sym, subst, ap, ap₂, ◌∙◌, refl, inl, inr, Bool, true, false, List, [],
  ◌∷◌, map, leb, if◌then◌else◌, arith, Bool-cases,
}
use quant_finance_pipeline.Circuit.{
  closed, opened, Config, CircuitBreaker, circuit_breaker_open, Outcome, returns, panics, Reply,
  refused, ran, execute,
}

-- A call of `Execute`: what its function does, and when the call begins and ends.
pub record Request {ℓ κ} (R : Type ℓ) (E : Type κ) : Type (ℓ ⊔ κ) where
  pub outcome : Outcome R E
  pub start : ℕ
  pub finish : ℕ

module _ {ℓ κ} {R : Type ℓ} {E : Type κ} (ok : E → Bool) where
  abbrev pub execute_one : Request R E → CircuitBreaker → CircuitBreaker × Reply R E
  execute_one r cb = execute ok r.outcome (λ b. b) r.start r.finish cb

  unfoldable pub execute_all :
      List (Request R E) → CircuitBreaker → CircuitBreaker × List (Reply R E)
  execute_all [] cb = (cb, [])
  execute_all (r ∷ rs) cb =
      let (cb', reply) = execute_one r cb in
      let (end, replies) = execute_all rs cb' in (end, reply ∷ replies)

  -- A request goes wrong where its function returns an error that counts as one, or panics.
  abbrev pub goes_wrong : Request R E → Bool
  goes_wrong r = elim r.outcome [ returns v e ↦ if ok e then false else true | panics ↦ true ]

  -- The number of requests in a row that have gone wrong, after one more.
  abbrev pub next : ℕ → Request R E → ℕ
  next n r = if goes_wrong r then suc n else 0

  abbrev pub streak : ℕ → List (Request R E) → ℕ
  streak n [] = n
  streak n (r ∷ rs) = streak (next n r) rs

  -- Never as many in a row as `max`.
  abbrev pub StaysBelow : ℕ → ℕ → List (Request R E) → Type 0
  StaysBelow max n [] = n < max
  StaysBelow max n (r ∷ rs) = (n < max) × StaysBelow max (next n r) rs

  StaysBelow-lt : (max n : ℕ) (rs : List (Request R E)) → StaysBelow max n rs → n < max
  StaysBelow-lt max n [] b = b
  StaysBelow-lt max n (r ∷ rs) b = b.0

  closed_one :
      (r : Request R E) (cb : CircuitBreaker)
      → cb.state ≡ closed
      → let (cb', reply) = execute_one r cb in
        (cb'.state ≡ (
          if goes_wrong r
          then (if leb cb.config.max_failures (suc cb.failures) then opened else closed)
          else closed))
        × (cb'.failures ≡ next cb.failures r)
        × (cb'.config ≡ cb.config)
        × (reply ≡ ran r.outcome)
        × (cb'.last_failure_time ≡ (if goes_wrong r then r.finish else cb.last_failure_time))
  unfolding execute
  closed_one r cb c = ground arith

  execute_all-streak :
      (rs : List (Request R E)) (cb : CircuitBreaker)
      → cb.state ≡ closed
      → StaysBelow cb.config.max_failures cb.failures rs
      → let (cb', replies) = execute_all rs cb in
        let n = streak cb.failures rs in
        (replies ≡ map (λ r. ran r.outcome) rs)
        × (cb'.state ≡ closed)
        × (cb'.failures ≡ n)
        × (cb'.config ≡ cb.config)
  unfolding execute_all
  execute_all-streak [] cb c b = (refl, c, refl, refl)
  execute_all-streak (r ∷ rs) cb c (lt, b) =
      let (s, n, g, a, _) = closed_one r cb c in
      let cb1 = (execute_one r cb).0 in
      let max = ap (λ (x : Config). x.max_failures) g in
      let still : cb1.state ≡ closed = s ∙ no_trip (StaysBelow-lt _ _ rs b) in
      let b' : StaysBelow cb1.config.max_failures cb1.failures rs =
        subst (λ k. StaysBelow k cb1.failures rs) (sym max)
          (subst (λ k. StaysBelow cb.config.max_failures k rs) (sym n) b) in
      let (replies, s2, n2, g2) = execute_all-streak rs cb1 still b' in
      (ap₂ (λ x xs. x ∷ xs) a replies, s2, n2 ∙ ap (λ k. streak k rs) n, g2 ∙ g)
    where
      no_trip :
          next cb.failures r < cb.config.max_failures
          → (if goes_wrong r
              then (if leb cb.config.max_failures (suc cb.failures) then opened else closed)
              else closed)
            ≡ closed
      no_trip lt = elim (Bool-cases (goes_wrong r)) [
        | inl bad ↦ let less = rw bad at lt in rw bad (ground (arith, less))
        | inr good ↦ rw good refl
      ]

  opened_one :
      (r : Request R E) (cb : CircuitBreaker)
      → cb.state ≡ opened
      → r.start < cb.last_failure_time + cb.config.timeout
      → execute_one r cb ≡ (cb, refused circuit_breaker_open)
  unfolding execute
  opened_one r cb o lt = ground arith

  trial_one :
      (r : Request R E) (cb : CircuitBreaker)
      → cb.state ≡ opened
      → cb.last_failure_time + cb.config.timeout ≤ r.start
      → (execute_one r cb).1 ≡ ran r.outcome
  unfolding execute
  trial_one r cb o le = ground arith

  -- All of them begin before a time.
  abbrev pub BeginBefore : ℕ → List (Request R E) → Type 0
  BeginBefore t [] = Unit
  BeginBefore t (r ∷ rs) = (r.start < t) × BeginBefore t rs

  opened_all :
      (rs : List (Request R E)) (cb : CircuitBreaker)
      → cb.state ≡ opened
      → BeginBefore (cb.last_failure_time + cb.config.timeout) rs
      → execute_all rs cb ≡ (cb, map (λ r. refused circuit_breaker_open) rs)
  unfolding execute_all
  opened_all [] cb o b = refl
  opened_all (r ∷ rs) cb o (lt, b) =
      ap (λ s. let (end, replies) = execute_all rs s.0 in (end, s.1 ∷ replies))
        (opened_one r cb o lt)
      ∙ ap (λ s. (s.0, refused circuit_breaker_open ∷ s.1)) (opened_all rs cb o b)

  execute_all-refused :
      (f : Request R E) (rs : List (Request R E)) (late : Request R E) (cb : CircuitBreaker)
      → cb.state ≡ closed
      → goes_wrong f ≡ true
      → cb.config.max_failures ≤ suc cb.failures
      → BeginBefore (f.finish + cb.config.timeout) rs
      → f.finish + cb.config.timeout ≤ late.start
      → let cb' = (execute_one f cb).0 in
        (execute_all rs cb' ≡ (cb', map (λ r. refused circuit_breaker_open) rs))
        × ((execute_one late cb').1 ≡ ran late.outcome)
  execute_all-refused f rs late cb c w max before after =
      let (s, _, g, _, t) = closed_one f cb c in
      let cb1 = (execute_one f cb).0 in
      let trip : leb cb.config.max_failures (suc cb.failures) ≡ true = ground arith in
      let open' : cb1.state ≡ opened = s ∙ rw (w, trip) refl in
      let last : cb1.last_failure_time ≡ f.finish = t ∙ rw w refl in
      let until : f.finish + cb.config.timeout ≡ cb1.last_failure_time + cb1.config.timeout =
        sym (ap₂ (λ a (b : Config). a + b.timeout) last g) in
      (
        opened_all rs cb1 open' (subst (λ k. BeginBefore k rs) until before),
        trial_one late cb1 open' (subst (λ k. k ≤ late.start) until after),
      )

  -- Requests one after another on a closed breaker, with never `max_failures` of them in a row that go
  -- wrong, counted from the failures it has, all run, and it stays closed and counts those that have
  -- gone wrong last in a row. One more that goes wrong and makes `max_failures` opens it from the time at
  -- which it ends: those that begin before the timeout from then has passed are all refused as the
  -- breaker is open, and change nothing, and one that does not begin before runs.
  pub execute_all-trips :
      (rs : List (Request R E)) (f : Request R E) (qs : List (Request R E)) (late : Request R E)
      (cb : CircuitBreaker)
      → cb.state ≡ closed
      → StaysBelow cb.config.max_failures cb.failures rs
      → goes_wrong f ≡ true
      → cb.config.max_failures ≤ suc (streak cb.failures rs)
      → BeginBefore (f.finish + cb.config.timeout) qs
      → f.finish + cb.config.timeout ≤ late.start
      → let (cb1, replies) = execute_all rs cb in
        let cb2 = (execute_one f cb1).0 in
        (replies ≡ map (λ r. ran r.outcome) rs)
        × (cb1.state ≡ closed)
        × (cb1.failures ≡ streak cb.failures rs)
        × (execute_all qs cb2 ≡ (cb2, map (λ r. refused circuit_breaker_open) qs))
        × ((execute_one late cb2).1 ≡ ran late.outcome)
  execute_all-trips rs f qs late cb c b w max before after =
      let (replies, s, n, g) = execute_all-streak rs cb c b in
      let cb1 = (execute_all rs cb).0 in
      let reached : cb1.config.max_failures ≤ suc cb1.failures =
        omega (arith, ap (λ (x : Config). x.max_failures) g, n) in
      let until = ap (λ (x : Config). f.finish + x.timeout) (sym g) in
      let (none_runs, runs) =
        execute_all-refused f qs late cb1 s w reached (subst (λ k. BeginBefore k qs) until before)
          (subst (λ k. k ≤ late.start) until after) in
      (replies, s, n, none_runs, runs)
