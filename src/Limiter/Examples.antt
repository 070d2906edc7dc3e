-- ===== src/Limiter/Examples.antt =====
-- Tests of the rate limiters, and the theorems at concrete limiters.
use text.Mathlib.Text.{◌==◌}
use quant_finance_pipeline.Prelude.{
  ◌+◌, ◌-◌, ◌*◌, ◌≤◌, ◌<◌, ◌≡◌, refl, ◌⊎◌, true, false, [], ◌∷◌, some, none, if◌then◌else◌, arith,
}
use quant_finance_pipeline.Prelude.Dict.{lookup}
use quant_finance_pipeline.Limiter.TokenBucket
use quant_finance_pipeline.Limiter.TokenBucket.{TokenBucketLimiter, accrued, second, timer, wait_n}
use quant_finance_pipeline.Limiter.TokenBucket.Bounds
use quant_finance_pipeline.Limiter.TokenBucket.Bounds.{serve_bound, bucket-IsBounded}
use quant_finance_pipeline.Prelude.Int.{pos, negsuc}
use quant_finance_pipeline.Limiter.SlidingWindow.{SlidingWindowLimiter}
use quant_finance_pipeline.Limiter.SlidingWindow.Window
use quant_finance_pipeline.Limiter.SlidingWindow.Window.{count_recent, window_limit}
use quant_finance_pipeline.Limiter.Locks.{
  calls, tokens_remaining_locks, allow_n_locks, calculate_wait_time_locks, tokens_remaining_blocks,
}
use quant_finance_pipeline.Limiter.Adaptive.{
  AdaptiveRateLimiter, limiter_for, new_adaptive, adjust_rate, IsSteady, new_adaptive-IsSteady,
  adjust_rate-IsSteady,
}
use quant_finance_pipeline.Limiter.Manager.{token_bucket, RateLimiterManager, remove, lookup-remove}

-- Two tokens a second, at most four, and one of them left.
abbrev bucket : TokenBucketLimiter
bucket = record { rate = 2000; burst = 4; tokens = 1; last_update = 0 }

serve_test :
    (Bounds.serve bucket ((0, 1) ∷ (0, 1) ∷ (1_000_000_000, 2) ∷ (1_000_000_001, 1) ∷ [])).0 ≡ 3
unfolding Bounds.serve TokenBucket.allow_n TokenBucket.refill_tokens accrued
serve_test = refl

serve_bound_example :
    (Bounds.serve bucket ((0, 1) ∷ (1_000_000_000, 2) ∷ [])).0
    ≤ 1 + accrued 2000 (2_000_000_000 - 0)
serve_bound_example =
    serve_bound bucket ((0, 1) ∷ (1_000_000_000, 2) ∷ []) 2_000_000_000 (ground arith)

bucket-IsBounded_example :
    let (over, granted) =
      TokenBucket.allow_n 500_000_000 (negsuc 2) (record bucket { tokens = 4 }) in
    Bounds.IsBounded (TokenBucket.allow_n 500_000_000 (pos 2) bucket).0
    × Bounds.IsBounded (wait_n (pos 2) (timer 1_000_000_000 ∷ []) 500_000_000 bucket).0
    × (granted ≡ true)
    × (over.tokens ≡ 4 + 3)
    × ¬ Bounds.IsBounded over
bucket-IsBounded_example =
    bucket-IsBounded bucket 500_000_000 2 (timer 1_000_000_000 ∷ []) (omega arith)

-- Two requests in a hundred nanoseconds.
abbrev window : SlidingWindowLimiter
window = record { limit = 2; window = 100; requests = 10 ∷ [] }

window_limit_example :
    count_recent 130 100
      (Window.serve window ((20, pos 1) ∷ (30, negsuc 3) ∷ (30, pos 1) ∷ (111, pos 1) ∷ [])).0
    ≤ 2
window_limit_example =
    window_limit window ((20, pos 1) ∷ (30, negsuc 3) ∷ (30, pos 1) ∷ (111, pos 1) ∷ []) 10 130
      (ground arith) (ground arith)

tokens_remaining_blocks_example :
    (calls tokens_remaining_locks (record { readers = 0; writer = false }) ≡ none)
    × (calls allow_n_locks (record { readers = 0; writer = false })
        ≡ some (record { readers = 0; writer = false }))
    × (calls calculate_wait_time_locks (record { readers = 0; writer = false })
        ≡ some (record { readers = 0; writer = false }))
tokens_remaining_blocks_example = tokens_remaining_blocks (record { readers = 0; writer = false })

abbrev steady : AdaptiveRateLimiter
steady = new_adaptive 5000 1000 10000 800 7

adjust_rate-IsSteady_example :
    let ar' = adjust_rate 990 6_000_000_000 steady in
    IsSteady ar'
    × (ar'.min_rate ≡ steady.min_rate)
    × (ar'.max_rate ≡ steady.max_rate)
    × (ar'.target_load ≡ steady.target_load)
    × ((ar' ≡ steady)
        ⊎ ((steady.last_adjustment + 5 * second ≤ 6_000_000_000)
            × (ar'.last_adjustment ≡ 6_000_000_000)
            × (ar'.base_limiter ≡ limiter_for ar'.current_rate 6_000_000_000)))
    × ((ar' ≡ steady) ⊎ (12 * steady.target_load < 10 * 990) ⊎ (10 * 990 < 8 * steady.target_load))
    × ((990 ≤ steady.target_load) ⊎ (ar'.current_rate ≤ steady.current_rate))
    × ((steady.target_load ≤ 990) ⊎ (steady.current_rate ≤ ar'.current_rate))
adjust_rate-IsSteady_example =
    adjust_rate-IsSteady 990 6_000_000_000 steady (new_adaptive-IsSteady 5000 1000 10000 800 7)

abbrev limiters : RateLimiterManager
limiters = ("api", token_bucket bucket) ∷ []

lookup-remove_example :
    lookup "api" (remove "api" limiters) ≡ (if "api" == "api" then none else lookup "api" limiters)
lookup-remove_example = lookup-remove "api" "api" limiters
