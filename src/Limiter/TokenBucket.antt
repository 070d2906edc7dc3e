-- ===== src/Limiter/TokenBucket.antt =====
-- pkg/utils/backpressure/rate_limiter.go: `TokenBucketLimiter`.
pub mod Bounds
use quant_finance_pipeline.Prelude.{
  ℕ, zero, suc, ◌+◌, ◌-◌, ◌*◌, ◌/◌, Bool, true, false, List, [], ◌∷◌, ltb, leb, ◌==◌, if◌then◌else◌,
  min,
}
use quant_finance_pipeline.Prelude.Int.{ℤ, pos, negsuc, ltb_ℤ}

abbrev pub second : ℕ
second = 1_000_000_000

abbrev pub millisecond : ℕ
millisecond = 1_000_000

pub record TokenBucketLimiter : Type 0 where
  pub rate : ℕ
  pub burst : ℕ
  pub tokens : ℕ
  pub last_update : ℕ

unfoldable pub new_token_bucket : ℕ → ℕ → ℕ → TokenBucketLimiter
new_token_bucket rate burst now =
    let r = if rate == 0 then 1000 else rate in
    let b = if burst == 0 then 1 else burst in
    record { rate = r; burst = b; tokens = b; last_update = now }

-- `int64(elapsed.Seconds() * rate)`
unfoldable pub accrued : ℕ → ℕ → ℕ
accrued rate elapsed = elapsed * rate / (1000 * second)

unfoldable pub refill_tokens : ℕ → TokenBucketLimiter → TokenBucketLimiter
refill_tokens now tb =
    let tokens_to_add = accrued tb.rate (now - tb.last_update) in
    let new_tokens = tb.tokens + tokens_to_add in
    if leb now tb.last_update
    then tb
    else if ltb 0 tokens_to_add
    then record tb {
      tokens = if ltb tb.burst new_tokens then tb.burst else new_tokens;
      last_update = now;
    }
    else tb

-- What is left once the bucket is refilled. The number asked for is signed and not tested: a negative
-- one is always granted, and its tokens come on top.
abbrev pub take_tokens : ℤ → TokenBucketLimiter → TokenBucketLimiter × Bool
take_tokens (pos n) tb =
    if leb n tb.tokens then (record tb { tokens = tb.tokens - n }, true) else (tb, false)
take_tokens (negsuc n) tb = (record tb { tokens = tb.tokens + suc n }, true)

unfoldable pub allow_n : ℕ → ℤ → TokenBucketLimiter → TokenBucketLimiter × Bool
allow_n now n tb = take_tokens n (refill_tokens now tb)

unfoldable pub allow : ℕ → TokenBucketLimiter → TokenBucketLimiter × Bool
unfolding allow_n
allow now tb = allow_n now (pos 1) tb

-- `time.Duration(float64(tokensNeeded)/rate) * time.Second`: the conversion cuts to whole seconds.
unfoldable pub calculate_wait_time : ℤ → TokenBucketLimiter → ℕ
calculate_wait_time (negsuc n) tb = 0
calculate_wait_time (pos n) tb =
    let wait_time = (n - tb.tokens) * 1000 / tb.rate * second in
    if leb n tb.tokens then 0 else if ltb wait_time millisecond then millisecond else wait_time

-- How a `select` in `WaitN` ends, and when: the timer fires, or the context is done.
pub data Wake : Type 0 where
  timer : ℕ → Wake
  cancelled : Wake

pub data WaitResult : Type 0 where
  allowed request_too_large context_error : WaitResult
  waiting : WaitResult

-- The loop of `WaitN`, from an attempt at `now`. It waits on where the list of wakes ends.
unfoldable pub wait_loop : ℤ → List Wake → ℕ → TokenBucketLimiter → TokenBucketLimiter × WaitResult
unfolding allow_n
wait_loop n [] now tb =
    let (tb', ok) = allow_n now n tb in if ok then (tb', allowed) else (tb', waiting)
wait_loop n (cancelled ∷ ws) now tb =
    let (tb', ok) = allow_n now n tb in if ok then (tb', allowed) else (tb', context_error)
wait_loop n (timer later ∷ ws) now tb =
    let (tb', ok) = allow_n now n tb in
    let rest = wait_loop n ws later tb' in if ok then (tb', allowed) else rest

unfoldable pub wait_n : ℤ → List Wake → ℕ → TokenBucketLimiter → TokenBucketLimiter × WaitResult
unfolding wait_loop
wait_n n ws now tb =
    if ltb_ℤ (pos tb.burst) n then (tb, request_too_large) else wait_loop n ws now tb

-- `TokensRemaining`, once it has its lock.
unfoldable pub tokens_remaining : ℕ → TokenBucketLimiter → TokenBucketLimiter × ℕ
unfolding refill_tokens
tokens_remaining now tb = let tb' = refill_tokens now tb in (tb', tb'.tokens)
