-- ===== src/Limiter/TokenBucket/Bounds.antt =====
-- How much a token bucket of pkg/utils/backpressure/rate_limiter.go lets through.
use native.Mathlib.Nat.{div-mul-le_self}
use quant_finance_pipeline.Prelude.{
  refl, ℕ, suc, true, ◌+◌, ◌-◌, ◌*◌, ◌/◌, ◌≤◌, ◌<◌, ◌≡◌, ◌⊎◌, inl, inr, List, [], ◌∷◌, ltb, leb,
  if◌then◌else◌, arith, ap, ap₂, leb→le, Bool-cases,
}
use quant_finance_pipeline.Prelude.Int.{pos, negsuc}
use quant_finance_pipeline.Limiter.TokenBucket.{
  TokenBucketLimiter, accrued, second, millisecond, refill_tokens, take_tokens, allow_n,
  calculate_wait_time, Wake, timer, cancelled, wait_loop, wait_n,
}

-- The bucket never holds more than it can.
abbrev pub IsBounded : TokenBucketLimiter → Type 0
IsBounded tb = tb.tokens ≤ tb.burst

-- The tokens that time brings add up, but for what the cut to whole tokens loses.
accrued-add : (rate a b : ℕ) → accrued rate a + accrued rate b ≤ accrued rate (a + b)
unfolding accrued
accrued-add rate a b = omega arith

-- A refill brings no token that was not due by the end.
refill_bound :
    (now end : ℕ) (tb : TokenBucketLimiter)
    → tb.last_update ≤ now
    → now ≤ end
    → let tb' = refill_tokens now tb in
      (tb'.tokens + accrued tb'.rate (end - tb'.last_update)
        ≤ tb.tokens + accrued tb.rate (end - tb.last_update))
      × (tb'.last_update ≤ now)
unfolding refill_tokens
refill_bound now end tb le en =
    let split = accrued-add tb.rate (now - tb.last_update) (end - now) in
    let whole : (now - tb.last_update) + (end - now) ≡ end - tb.last_update = omega arith in
    ground (arith, split, ap (accrued tb.rate) whole)

take_bound :
    (n : ℕ) (tb : TokenBucketLimiter)
    → let (tb', ok) = take_tokens (pos n) tb in
      ((if ok then n else 0) + tb'.tokens ≡ tb.tokens)
      × (tb'.rate ≡ tb.rate)
      × (tb'.last_update ≡ tb.last_update)
take_bound n tb = ground arith

-- A request of `n` tokens, which is not negative, at a time.
abbrev Request : Type 0
Request = ℕ × ℕ

-- The tokens handed out to a list of requests, and the bucket after them.
unfoldable pub serve : TokenBucketLimiter → List Request → ℕ × TokenBucketLimiter
serve tb [] = (0, tb)
serve tb ((now, n) ∷ rs) =
    let (tb', ok) = allow_n now (pos n) tb in
    let (got, end) = serve tb' rs in (if ok then n + got else got, end)

-- The times of the requests do not fall, and end by `end`.
abbrev pub InOrder : ℕ → List Request → ℕ → Type 0
InOrder from [] end = from ≤ end
InOrder from ((now, n) ∷ rs) end = (from ≤ now) × InOrder now rs end

InOrder-le : (from : ℕ) (rs : List Request) (end : ℕ) → InOrder from rs end → from ≤ end
InOrder-le from [] end o = o
InOrder-le from ((now, n) ∷ rs) end (o, os) = omega (arith, InOrder-le now rs end os)

serve_from :
    (tb : TokenBucketLimiter) (from end : ℕ) (rs : List Request)
    → tb.last_update ≤ from
    → InOrder from rs end
    → (serve tb rs).0 ≤ tb.tokens + accrued tb.rate (end - tb.last_update)
unfolding serve allow_n
serve_from tb from end [] le o = omega arith
serve_from tb from end ((now, n) ∷ rs) le (o, os) =
    let full = refill_tokens now tb in
    let tb' = (take_tokens (pos n) full).0 in
    let (least, last) = refill_bound now end tb (omega arith) (InOrder-le now rs end os) in
    let (took, rate, kept) = take_bound n full in
    let later = serve_from tb' now end rs (omega (arith, kept, last)) os in
    let same = ap₂ (λ r u. accrued r (end - u)) rate kept in
    elim (Bool-cases (take_tokens (pos n) full).1) [
      | inl yes' ↦ rw yes' (omega (arith, least, rw yes' at took, later, same))
      | inr no' ↦ rw no' (omega (arith, least, rw no' at took, later, same))
    ]

-- Requests of numbers that are not negative, whose times do not fall, from the last refill to any end,
-- are handed out no more tokens in all than the bucket held and than that time brings.
pub serve_bound :
    (tb : TokenBucketLimiter) (rs : List Request) (end : ℕ)
    → InOrder tb.last_update rs end
    → (serve tb rs).0 ≤ tb.tokens + accrued tb.rate (end - tb.last_update)
serve_bound tb rs end o = serve_from tb tb.last_update end rs (omega arith) o

allow_n-IsBounded :
    (now n : ℕ) (tb : TokenBucketLimiter) → IsBounded tb → IsBounded (allow_n now (pos n) tb).0
unfolding allow_n refill_tokens
allow_n-IsBounded now n tb b = ground arith

wait_loop-IsBounded :
    (n : ℕ) (ws : List Wake) (now : ℕ) (tb : TokenBucketLimiter)
    → IsBounded tb
    → IsBounded (wait_loop (pos n) ws now tb).0
unfolding wait_loop
wait_loop-IsBounded n [] now tb b = ground (arith, allow_n-IsBounded now n tb b)
wait_loop-IsBounded n (cancelled ∷ ws) now tb b = ground (arith, allow_n-IsBounded now n tb b)
wait_loop-IsBounded n (timer later ∷ ws) now tb b = ground (
  arith,
  allow_n-IsBounded now n tb b,
  wait_loop-IsBounded n ws later (allow_n now (pos n) tb).0 (allow_n-IsBounded now n tb b),
)

allow_n_overfills :
    (tb : TokenBucketLimiter) (now n : ℕ)
    → tb.tokens ≡ tb.burst
    → let (tb', ok) = allow_n now (negsuc n) tb in
      (ok ≡ true) × (tb'.tokens ≡ tb.burst + suc n) × ¬ IsBounded tb'
unfolding allow_n refill_tokens
allow_n_overfills tb now n full = ground arith

-- On a bucket that holds no more tokens than it can, no attempt and no wait for a number of tokens that
-- is not negative puts in more than it can hold. Once the bucket is full, an attempt for a negative
-- number is granted, at any time, and leaves more than it can hold, by as many as that is below zero.
pub bucket-IsBounded :
    (tb : TokenBucketLimiter) (now n : ℕ) (ws : List Wake)
    → IsBounded tb
    → let (over, ok) = allow_n now (negsuc n) (record tb { tokens = tb.burst }) in
      IsBounded (allow_n now (pos n) tb).0
      × IsBounded (wait_n (pos n) ws now tb).0
      × (ok ≡ true)
      × (over.tokens ≡ tb.burst + suc n)
      × ¬ IsBounded over
unfolding wait_n
bucket-IsBounded tb now n ws b =
    let (granted, more, over) = allow_n_overfills (record tb { tokens = tb.burst }) now n refl in
    (
      allow_n-IsBounded now n tb b,
      ground (arith, wait_loop-IsBounded n ws now tb b),
      granted,
      more,
      over,
    )

whole_seconds : (missing rate : ℕ) → accrued rate (missing * 1000 / rate * second) ≤ missing
unfolding accrued
whole_seconds missing rate = omega (arith, div-mul-le_self (missing * 1000) rate)

-- Where tokens are missing, `WaitN` sleeps for the least wait of a millisecond, or no longer than
-- brings the tokens that are missing.
pub wait_time_bound :
    (n : ℕ) (tb : TokenBucketLimiter)
    → tb.tokens < n
    → (calculate_wait_time (pos n) tb ≡ millisecond)
      ⊎ (accrued tb.rate (calculate_wait_time (pos n) tb) ≤ n - tb.tokens)
unfolding calculate_wait_time
wait_time_bound n tb lt =
    let wait = (n - tb.tokens) * 1000 / tb.rate * second in
    elim (Bool-cases (leb n tb.tokens)) [
      | inl enough ↦ absurd (omega (arith, leb→le n tb.tokens enough))
      | inr missing ↦ elim (Bool-cases (ltb wait millisecond)) [
        | inl short ↦ inl (rw (missing, short, calculate_wait_time))
        | inr long ↦
            inr (rw (missing, long, calculate_wait_time) (whole_seconds (n - tb.tokens) tb.rate))
      ]
    ]
