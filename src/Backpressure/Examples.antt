-- ===== src/Backpressure/Examples.antt =====
-- Tests of the controller, and the theorems at concrete ones.
use quant_finance_pipeline.Prelude.{
  ℕ, ◌+◌, ◌*◌, ◌≤◌, ◌≡◌, refl, ◌⊎◌, String, true, false, List, [], ◌∷◌, ◌++◌, arith,
}
use quant_finance_pipeline.Prelude.Int.{pos, ◌+ℤ◌}
use quant_finance_pipeline.Backpressure.Controller.{
  Config, Controller, Strategy, drop_oldest, block, reject, new_controller, Moment, is_overloaded,
  submit, submit_drop_oldest, submit_strategy,
}
use quant_finance_pipeline.Backpressure.Flow.{Event, submits, receives, run, step, IsCounted}
use quant_finance_pipeline.Backpressure.Flow.Accounts.{
  run-new-IsCounted, run_fifo, block_starves, overloaded_for_ever,
}
use quant_finance_pipeline.Backpressure.Flow.Outcome.{Ends, submit-Ends}
use quant_finance_pipeline.Backpressure.Interval.{
  AdaptiveController, adjust_interval, IsInRange, adjust_interval-IsInRange,
}

-- The context is never done.
abbrev running : Moment
running = record { done = false; picked = false }

abbrev send : ℕ → Event ℕ
send n = submits (λ i. running) false 0 n

abbrev take_one : Event ℕ
take_one = receives running 9

abbrev config : Strategy → Config
config s = record {
  name = "ticks";
  strategy = s;
  max_queue_size = 2;
  high_water_mark = 50;
  low_water_mark = 50;
}

-- A queue of two with two messages in it.
abbrev busy : Strategy → ℕ → Controller ℕ
busy s n = record {
  name = "ticks";
  strategy = s;
  max_queue_size = 2;
  high_water_mark = 1;
  low_water_mark = 1;
  current_load = pos (2 + n);
  dropped_messages = n;
  processed_count = 0;
  rejected_count = 0;
  queue = 7 ∷ 8 ∷ [];
  closed = false;
  last_processed = 0;
  calls = [];
}

-- Four messages under `DropOldest`: the last two stay, and the load counts all four.
drop_test :
    let c =
      (run (new_controller (config drop_oldest) 0) (send 1 ∷ send 2 ∷ send 3 ∷ send 4 ∷ [])).0 in
    (c.queue ≡ 3 ∷ 4 ∷ []) × (c.current_load ≡ pos 4) × (c.dropped_messages ≡ 2)
unfolding run step new_controller submit is_overloaded submit_drop_oldest submit_strategy ◌+ℤ◌
drop_test = (refl, refl, refl)

run-new-IsCounted_example :
    IsCounted
      (run (new_controller (config drop_oldest) 0) (send 1 ∷ send 2 ∷ send 3 ∷ take_one ∷ [])).0
run-new-IsCounted_example =
    run-new-IsCounted (config drop_oldest) 0 (send 1 ∷ send 2 ∷ send 3 ∷ take_one ∷ [])

run_fifo_example :
    let (c', (ins, outs)) = run (busy reject 0) (take_one ∷ send 9 ∷ send 10 ∷ []) in
    (7 ∷ 8 ∷ []) ++ ins ≡ outs ++ c'.queue
run_fifo_example =
    run_fifo (busy reject 0) (take_one ∷ send 9 ∷ send 10 ∷ []) (omega arith, refl) (ground arith)

submit-Ends_example :
    Ends (λ i. running) 9 (busy drop_oldest 0) (submit (λ i. running) false 9 (busy drop_oldest 0))
submit-Ends_example =
    submit-Ends (λ i. running) false 9 (busy drop_oldest 0) refl (omega arith) (omega arith)
      (ground arith)

block_starves_example :
    let (c', (ins, outs)) = run (busy block 0) (take_one ∷ send 9 ∷ []) in
    (outs ≡ []) × (c'.queue ≡ (7 ∷ 8 ∷ []) ++ ins)
block_starves_example =
    block_starves (busy block 0) (take_one ∷ send 9 ∷ []) (omega arith, refl) refl

overloaded_for_ever_example :
    is_overloaded (run (busy drop_oldest 3) (take_one ∷ take_one ∷ [])).0 ≡ true
overloaded_for_ever_example =
    overloaded_for_ever (busy drop_oldest 3) (take_one ∷ take_one ∷ []) (omega arith, refl) refl
      (omega arith)

abbrev adaptive : AdaptiveController ℕ
adaptive = record {
  controller = busy reject 0;
  target_latency = 1000;
  current_latency = 0;
  min_interval = 1_000_000;
  max_interval = 1_000_000_000;
  current_interval = 950_000_000;
  last_adjustment = 5;
}

adjust_interval-IsInRange_example :
    let ac' = adjust_interval 2000 2_000_000_000 adaptive in
    IsInRange ac'
    × (ac'.min_interval ≡ 1_000_000)
    × (ac'.max_interval ≡ 1_000_000_000)
    × (ac'.current_latency ≡ 2000)
    × ((ac'.current_interval ≡ 950_000_000)
        ⊎ ((5 + 1_000_000_000 ≤ 2_000_000_000) × (ac'.last_adjustment ≡ 2_000_000_000)))
    × ((ac'.last_adjustment ≡ 5) ⊎ (ac'.last_adjustment ≡ 2_000_000_000))
    × ((2000 ≤ 1000) ⊎ (950_000_000 ≤ ac'.current_interval))
    × ((1000 ≤ 2000) ⊎ (ac'.current_interval ≤ 950_000_000))
    × (10 * ac'.current_interval ≤ 11 * 950_000_000)
    × (9 * 950_000_000 ≤ 10 * ac'.current_interval + 9)
adjust_interval-IsInRange_example =
    adjust_interval-IsInRange 2000 2_000_000_000 adaptive (omega arith, omega arith)

abbrev controllers : List (String × Controller ℕ)
controllers = ("ticks", busy reject 0) ∷ []
