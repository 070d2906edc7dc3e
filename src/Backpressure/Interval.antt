-- ===== src/Backpressure/Interval.antt =====
-- pkg/utils/backpressure/controller.go: `AdaptiveController`.
--
-- The ratio of the latencies is compared with 1.2 and 0.8 by products. The new interval is a
-- product by 1.1 or 0.9, cut to nanoseconds; float64 may round it up where the product is not
-- exact.
use quant_finance_pipeline.Prelude.{ℕ, ◌+◌, ◌*◌, ◌/◌, ◌≤◌, ◌≡◌, ◌⊎◌, ltb, leb, if◌then◌else◌, arith}
use quant_finance_pipeline.Backpressure.Controller.{Config, Controller, new_controller}

pub record AdaptiveController {ℓ} (A : Type ℓ) : Type ℓ where
  pub controller : Controller A
  pub target_latency : ℕ
  pub current_latency : ℕ
  pub min_interval : ℕ
  pub max_interval : ℕ
  pub current_interval : ℕ
  pub last_adjustment : ℕ

module _ {ℓ} {A : Type ℓ} where
  unfoldable pub new_adaptive_controller : Config → ℕ → ℕ → AdaptiveController A
  new_adaptive_controller config target_latency now = record {
    controller = new_controller config now;
    target_latency = target_latency;
    current_latency = 0;
    min_interval = 1_000_000;
    max_interval = 1_000_000_000;
    current_interval = 100_000_000;
    last_adjustment = now;
  }

  unfoldable pub adjust_interval : ℕ → ℕ → AdaptiveController A → AdaptiveController A
  adjust_interval observed now ac =
      let slower = ac.current_interval * 11 / 10 in
      let faster = ac.current_interval * 9 / 10 in
      let interval =
        if ltb (12 * ac.target_latency) (10 * observed)
        then if leb slower ac.max_interval then slower else ac.current_interval
        else if ltb (10 * observed) (8 * ac.target_latency)
        then if leb ac.min_interval faster then faster else ac.current_interval
        else ac.current_interval in
      if ltb now (ac.last_adjustment + 1_000_000_000)
      then record ac { current_latency = observed }
      else record ac {
        current_latency = observed;
        current_interval = interval;
        last_adjustment = now;
      }

  -- The interval lies in its range.
  abbrev pub IsInRange : AdaptiveController A → Type 0
  IsInRange ac = (ac.min_interval ≤ ac.current_interval) × (ac.current_interval ≤ ac.max_interval)

  -- Whatever latency is observed, an adjustment keeps an interval in its range and the range as it
  -- is. It changes the interval only a second or more after the last adjustment, and its time is then
  -- that of the last adjustment, which otherwise stays or is its time too. The interval never gets
  -- shorter at a latency above the target, nor longer at one below; and no change is more than a tenth,
  -- or a nanosecond beyond.
  pub adjust_interval-IsInRange :
      (observed now : ℕ) (ac : AdaptiveController A)
      → IsInRange ac
      → let ac' = adjust_interval observed now ac in
        IsInRange ac'
        × (ac'.min_interval ≡ ac.min_interval)
        × (ac'.max_interval ≡ ac.max_interval)
        × (ac'.current_latency ≡ observed)
        × ((ac'.current_interval ≡ ac.current_interval)
            ⊎ ((ac.last_adjustment + 1_000_000_000 ≤ now) × (ac'.last_adjustment ≡ now)))
        × ((ac'.last_adjustment ≡ ac.last_adjustment) ⊎ (ac'.last_adjustment ≡ now))
        × ((observed ≤ ac.target_latency) ⊎ (ac.current_interval ≤ ac'.current_interval))
        × ((ac.target_latency ≤ observed) ⊎ (ac'.current_interval ≤ ac.current_interval))
        × (10 * ac'.current_interval ≤ 11 * ac.current_interval)
        × (9 * ac.current_interval ≤ 10 * ac'.current_interval + 9)
  unfolding adjust_interval
  adjust_interval-IsInRange observed now ac r = ground arith
