-- ===== src/Limiter/Adaptive.antt =====
-- pkg/utils/backpressure/rate_limiter.go: `AdaptiveRateLimiter`.
--
-- Rates and loads are thousandths. Where a product of the source is no whole number of thousandths
-- it is cut to one, which float64 does not do; a sum of products compared with 1.2 and 0.8 is
-- exact.
use quant_finance_pipeline.Prelude.{
  ℕ, ◌+◌, ◌*◌, ◌/◌, ◌≤◌, ◌<◌, ◌≡◌, ◌⊎◌, Bool, ◌||◌, ltb, leb, ◌==◌, if◌then◌else◌, arith,
}
use quant_finance_pipeline.Prelude.Int.{ℤ}
use quant_finance_pipeline.Limiter.TokenBucket.{
  TokenBucketLimiter, new_token_bucket, allow_n, second,
}

pub record AdaptiveRateLimiter : Type 0 where
  pub base_limiter : TokenBucketLimiter
  pub min_rate : ℕ
  pub max_rate : ℕ
  pub current_rate : ℕ
  pub target_load : ℕ
  pub last_adjustment : ℕ

-- `NewTokenBucketLimiter(rate, int(rate*2))`
unfoldable pub limiter_for : ℕ → ℕ → TokenBucketLimiter
limiter_for rate now = new_token_bucket rate (rate * 2 / 1000) now

unfoldable pub new_adaptive : ℕ → ℕ → ℕ → ℕ → ℕ → AdaptiveRateLimiter
unfolding limiter_for
new_adaptive base min max target now =
    let min' = if min == 0 then 1000 else min in
    let max' = if leb max min' then min' * 10 else max in
    let base' = if ltb base min' || ltb max' base then (min' + max') / 2 else base in
    let target' = if target == 0 || ltb 1000 target then 800 else target in
    record {
      base_limiter = limiter_for base' now;
      min_rate = min';
      max_rate = max';
      current_rate = base';
      target_load = target';
      last_adjustment = now;
    }

unfoldable pub set_rate : ℕ → ℕ → AdaptiveRateLimiter → AdaptiveRateLimiter
unfolding limiter_for
set_rate rate now ar = record ar {
  base_limiter = limiter_for rate now;
  current_rate = rate;
  last_adjustment = now;
}

-- `AdjustRate`: the ratio of the loads against 1.2 and 0.8, without the division.
unfoldable pub adjust_rate : ℕ → ℕ → AdaptiveRateLimiter → AdaptiveRateLimiter
unfolding set_rate
adjust_rate load now ar =
    let slower = ar.current_rate * 9 / 10 in
    let faster = ar.current_rate * 11 / 10 in
    if ltb now (ar.last_adjustment + 5 * second)
    then ar
    else if ltb (12 * ar.target_load) (10 * load)
    then set_rate (if ltb slower ar.min_rate then ar.min_rate else slower) now ar
    else if ltb (10 * load) (8 * ar.target_load)
    then set_rate (if ltb ar.max_rate faster then ar.max_rate else faster) now ar
    else ar

unfoldable pub adaptive_allow_n : ℕ → ℤ → AdaptiveRateLimiter → AdaptiveRateLimiter × Bool
adaptive_allow_n now n ar =
    let (tb, ok) = allow_n now n ar.base_limiter in (record ar { base_limiter = tb }, ok)

-- The rate lies in its range, and the bucket runs at that rate.
pub record IsSteady (ar : AdaptiveRateLimiter) : Type 0 where
  pub positive : 0 < ar.min_rate
  pub at_least : ar.min_rate ≤ ar.current_rate
  pub at_most : ar.current_rate ≤ ar.max_rate
  pub in_force : ar.base_limiter.rate ≡ ar.current_rate
  pub target : (0 < ar.target_load) × (ar.target_load ≤ 1000)

-- Whatever it is asked for, a new adaptive limiter has a rate within its range, which its bucket
-- runs at, and a target load between 0 and 1.
pub new_adaptive-IsSteady :
    (base min max target now : ℕ) → IsSteady (new_adaptive base min max target now)
unfolding new_adaptive new_token_bucket
new_adaptive-IsSteady base min max target now = ground arith

-- Whatever the load, an adjustment keeps a rate that lies within its range, and the bucket at that
-- rate, and keeps the range and the target. Either it changes nothing, or it comes at least five
-- seconds after the last one, its time is kept as that of the last one, and the bucket is a new one. A
-- load of at most 1.2 and at least 0.8 of the target changes nothing; and it never raises the rate
-- under more load than the target, nor lowers it under less.
pub adjust_rate-IsSteady :
    (load now : ℕ) (ar : AdaptiveRateLimiter)
    → IsSteady ar
    → let ar' = adjust_rate load now ar in
      IsSteady ar'
      × (ar'.min_rate ≡ ar.min_rate)
      × (ar'.max_rate ≡ ar.max_rate)
      × (ar'.target_load ≡ ar.target_load)
      × ((ar' ≡ ar)
          ⊎ ((ar.last_adjustment + 5 * second ≤ now)
              × (ar'.last_adjustment ≡ now)
              × (ar'.base_limiter ≡ limiter_for ar'.current_rate now)))
      × ((ar' ≡ ar) ⊎ (12 * ar.target_load < 10 * load) ⊎ (10 * load < 8 * ar.target_load))
      × ((load ≤ ar.target_load) ⊎ (ar'.current_rate ≤ ar.current_rate))
      × ((ar.target_load ≤ load) ⊎ (ar.current_rate ≤ ar'.current_rate))
unfolding adjust_rate limiter_for new_token_bucket
adjust_rate-IsSteady load now ar s = ground arith
