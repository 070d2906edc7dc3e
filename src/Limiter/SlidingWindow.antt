-- ===== src/Limiter/SlidingWindow.antt =====
-- pkg/utils/backpressure/rate_limiter.go: `SlidingWindowLimiter`.
pub mod Window
use quant_finance_pipeline.Prelude.{
  ℕ, zero, suc, ◌+◌, ◌-◌, ◌*◌, Bool, true, false, List, [], ◌∷◌, ◌++◌, ltb, leb, ◌==◌,
  if◌then◌else◌, length, replicate,
}
use quant_finance_pipeline.Prelude.Int.{ℤ, pos, pos_part, neg_part, ltb_ℤ}
use quant_finance_pipeline.Limiter.TokenBucket.{
  second, millisecond, Wake, timer, cancelled, WaitResult, allowed, request_too_large,
  context_error, waiting,
}

pub record SlidingWindowLimiter : Type 0 where
  pub limit : ℕ
  pub window : ℕ
  pub requests : List ℕ

unfoldable pub new_sliding_window : ℕ → ℕ → SlidingWindowLimiter
new_sliding_window limit window = record {
  limit = if limit == 0 then 100 else limit;
  window = if window == 0 then 60 * second else window;
  requests = [];
}

-- The requests from the first one on that lies in the window: `req >= now - window`.
unfoldable pub drop_old : ℕ → ℕ → List ℕ → List ℕ
drop_old now window [] = []
drop_old now window (req ∷ rs) =
    let rest = drop_old now window rs in if leb now (req + window) then req ∷ rs else rest

unfoldable pub clean_old_requests : ℕ → SlidingWindowLimiter → SlidingWindowLimiter
unfolding drop_old
clean_old_requests now sw = record sw { requests = drop_old now sw.window sw.requests }

-- The number asked for is signed; a negative one takes no slot.
abbrev pub take_slots : ℕ → ℤ → SlidingWindowLimiter → SlidingWindowLimiter × Bool
take_slots now n sw =
    if leb (length sw.requests + pos_part n) (sw.limit + neg_part n)
    then (record sw { requests = sw.requests ++ replicate (pos_part n) now }, true)
    else (sw, false)

unfoldable pub allow_n : ℕ → ℤ → SlidingWindowLimiter → SlidingWindowLimiter × Bool
allow_n now n sw = take_slots now n (clean_old_requests now sw)

unfoldable pub allow : ℕ → SlidingWindowLimiter → SlidingWindowLimiter × Bool
unfolding allow_n
allow now sw = allow_n now (pos 1) sw

unfoldable pub calculate_wait_time : ℕ → SlidingWindowLimiter → ℕ
calculate_wait_time now sw = elim sw.requests [
  | [] ↦ 0
  | oldest ∷ _ ↦ if ltb (oldest + sw.window) now then millisecond else oldest + sw.window - now
]

unfoldable pub wait_loop :
    ℤ → List Wake → ℕ → SlidingWindowLimiter → SlidingWindowLimiter × WaitResult
unfolding allow_n
wait_loop n [] now sw =
    let (sw', ok) = allow_n now n sw in if ok then (sw', allowed) else (sw', waiting)
wait_loop n (cancelled ∷ ws) now sw =
    let (sw', ok) = allow_n now n sw in if ok then (sw', allowed) else (sw', context_error)
wait_loop n (timer later ∷ ws) now sw =
    let (sw', ok) = allow_n now n sw in
    let rest = wait_loop n ws later sw' in if ok then (sw', allowed) else rest

unfoldable pub wait_n : ℤ → List Wake → ℕ → SlidingWindowLimiter → SlidingWindowLimiter × WaitResult
unfolding wait_loop
wait_n n ws now sw =
    if ltb_ℤ (pos sw.limit) n then (sw, request_too_large) else wait_loop n ws now sw

unfoldable pub tokens_remaining : ℕ → SlidingWindowLimiter → SlidingWindowLimiter × ℕ
unfolding clean_old_requests
tokens_remaining now sw =
    let sw' = clean_old_requests now sw in (sw', sw'.limit - length sw'.requests)
