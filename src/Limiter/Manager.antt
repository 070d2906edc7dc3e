-- ===== src/Limiter/Manager.antt =====
-- pkg/utils/backpressure/rate_limiter.go: `RateLimiterManager`, the limiters by name.
use text.Mathlib.Text.{◌==◌}
use text.Mathlib.TextEquality.{eq_iff}
use quant_finance_pipeline.Prelude.{
  ℕ, String, List, [], Option, none, some, ◌≡◌, ◌⊎◌, if◌then◌else◌, arith,
}
use quant_finance_pipeline.Prelude.Dict.{lookup, insert, erase, lookup-insert, lookup-erase}
use quant_finance_pipeline.Limiter.TokenBucket.{TokenBucketLimiter, new_token_bucket}
use quant_finance_pipeline.Limiter.SlidingWindow.{SlidingWindowLimiter, new_sliding_window}
use quant_finance_pipeline.Limiter.Adaptive.{AdaptiveRateLimiter}

-- The implementations of the interface `RateLimiter`.
pub data RateLimiter : Type 0 where
  token_bucket : TokenBucketLimiter → RateLimiter
  sliding_window : SlidingWindowLimiter → RateLimiter
  adaptive : AdaptiveRateLimiter → RateLimiter

abbrev pub RateLimiterManager : Type 0
RateLimiterManager = List (String × RateLimiter)

unfoldable pub get_type_string : RateLimiter → String
get_type_string (token_bucket tb) = "token_bucket"
get_type_string (sliding_window sw) = "sliding_window"
get_type_string (adaptive ar) = "adaptive"

-- The look under the read lock, then the one under the write lock, which finds the manager `later`.
unfoldable pub get_or_create :
    String
    → RateLimiter
    → RateLimiterManager
    → RateLimiterManager
    → RateLimiterManager × RateLimiter
get_or_create name fresh m later = elim (lookup name m) [
  | some limiter ↦ (later, limiter)
  | none ↦ elim (lookup name later) [
    | some limiter ↦ (later, limiter)
    | none ↦ (insert name fresh later, fresh)
  ]
]

unfoldable pub get_token_bucket_limiter :
    String → ℕ → ℕ → ℕ → RateLimiterManager → RateLimiterManager → RateLimiterManager × RateLimiter
unfolding get_or_create
get_token_bucket_limiter name rate burst now m later =
    get_or_create name (token_bucket (new_token_bucket rate burst now)) m later

unfoldable pub get_sliding_window_limiter :
    String → ℕ → ℕ → RateLimiterManager → RateLimiterManager → RateLimiterManager × RateLimiter
unfolding get_or_create
get_sliding_window_limiter name limit window m later =
    get_or_create name (sliding_window (new_sliding_window limit window)) m later

abbrev pub as_adaptive : Option RateLimiter → Option AdaptiveRateLimiter
as_adaptive (some (adaptive ar)) = some ar
as_adaptive _ = none

-- A limiter of another kind under the name is replaced.
unfoldable pub get_adaptive_limiter :
    String
    → AdaptiveRateLimiter
    → RateLimiterManager
    → RateLimiterManager
    → RateLimiterManager × AdaptiveRateLimiter
get_adaptive_limiter name fresh m later = elim (as_adaptive (lookup name m)) [
  | some ar ↦ (later, ar)
  | none ↦ elim (as_adaptive (lookup name later)) [
    | some ar ↦ (later, ar)
    | none ↦ (insert name (adaptive fresh) later, fresh)
  ]
]

unfoldable pub remove : String → RateLimiterManager → RateLimiterManager
remove name m = erase name m

unfoldable pub clear : RateLimiterManager → RateLimiterManager
clear m = []

-- Where no other goroutine comes between the two looks, a get returns the limiter that the name
-- has afterwards, the one that it had before if any, and changes no other name.
pub get_or_create-lookup :
    (name other : String) (fresh : RateLimiter) (m : RateLimiterManager)
    → let (m', limiter) = get_or_create name fresh m m in
      (lookup name m' ≡ some limiter)
      × ((lookup name m ≡ none) ⊎ (lookup name m ≡ some limiter))
      × (lookup other m' ≡ (if name == other then some limiter else lookup other m))
unfolding get_or_create
get_or_create-lookup name other fresh m = ground (
  arith,
  eq_iff name other,
  eq_iff name name,
  lookup-insert name name fresh m,
  lookup-insert name other fresh m,
)

-- Where no other goroutine comes between the two looks, the adaptive limiter returned is the one that
-- the name has afterwards, and no other name changes.
pub get_adaptive_limiter-lookup :
    (name other : String) (fresh : AdaptiveRateLimiter) (m : RateLimiterManager)
    → let (m', limiter) = get_adaptive_limiter name fresh m m in
      (lookup name m' ≡ some (adaptive limiter))
      × (lookup other m' ≡ (if name == other then some (adaptive limiter) else lookup other m))
unfolding get_adaptive_limiter
get_adaptive_limiter-lookup name other fresh m = ground (
  arith,
  eq_iff name other,
  eq_iff name name,
  lookup-insert name name (adaptive fresh) m,
  lookup-insert name other (adaptive fresh) m,
)

-- After `Remove` the name has no limiter, and every other name the one that it had.
pub lookup-remove :
    (name other : String) (m : RateLimiterManager)
    → lookup other (remove name m) ≡ (if name == other then none else lookup other m)
unfolding remove
lookup-remove name other m = lookup-erase name other m
