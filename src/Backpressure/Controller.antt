-- ===== src/Backpressure/Controller.antt =====
-- pkg/utils/backpressure/controller.go: `Controller`.
--
-- A buffered channel is the list of its messages, the oldest first. `Submit` and `Receive` run as
-- one step each; the load is signed, as the code counts down without a test. The numbers of a
-- configuration are not negative: a negative one acts as 0 does. All callbacks are set, and
-- their calls are kept in a list, the last one first.
use quant_finance_pipeline.Prelude.{
  ℕ, suc, ◌+◌, ◌*◌, ◌/◌, String, Bool, true, false, ◌&&◌, List, [], ◌∷◌, ◌++◌, Option, none, some,
  ltb, ◌==◌, if◌then◌else◌, length,
}
use quant_finance_pipeline.Prelude.Int.{ℤ, pos, negsuc, ◌+ℤ◌, ◌-ℤ◌}

pub data Strategy : Type 0 where
  drop_oldest drop_newest block reject : Strategy

unfoldable pub strategy_string : Strategy → String
strategy_string drop_oldest = "DROP_OLDEST"
strategy_string drop_newest = "DROP_NEWEST"
strategy_string block = "BLOCK"
strategy_string reject = "REJECT"

pub record Config : Type 0 where
  pub name : String
  pub strategy : Strategy
  pub max_queue_size : ℕ
  pub high_water_mark : ℕ
  pub low_water_mark : ℕ

pub data Callback {ℓ} (A : Type ℓ) : Type ℓ where
  on_drop on_reject : A → Callback A
  on_overload on_underload : ℤ → Callback A

pub record Controller {ℓ} (A : Type ℓ) : Type ℓ where
  pub name : String
  pub strategy : Strategy
  pub max_queue_size : ℕ
  pub high_water_mark : ℕ
  pub low_water_mark : ℕ
  pub current_load : ℤ
  pub dropped_messages : ℕ
  pub processed_count : ℕ
  pub rejected_count : ℕ
  pub queue : List A
  pub closed : Bool
  pub last_processed : ℕ
  pub calls : List (Callback A)

-- What `Submit` returns. It still waits, or it panics on a closed channel; `handed` is a success on
-- the blocking channel.
pub data Submitted : Type 0 where
  accepted handed context_error message_dropped message_rejected waiting panicked : Submitted

-- What `Receive` returns.
pub data Received {ℓ} (A : Type ℓ) : Type ℓ where
  message : A → Received A
  queue_closed cancelled idle : Received A

-- What a `select` meets: whether the context is done, and whether that case is taken when others
-- are ready too.
pub record Moment : Type 0 where
  pub done : Bool
  pub picked : Bool

-- How a `select` with a send ends.
pub data Sending : Type 0 where
  sends gives_up not_ready panics : Sending

-- `int(load) > mark` and `int(load) < mark`.
abbrev pub above : ℤ → ℕ → Bool
above (pos n) mark = ltb mark n
above (negsuc n) mark = false

abbrev pub below : ℤ → ℕ → Bool
below (pos n) mark = ltb n mark
below (negsuc n) mark = true

-- A send that is possible if `ready`, beside the context; one on a closed channel is ready to panic.
abbrev pub try_send : Bool → Bool → Moment → Sending
try_send closed ready w =
    if w.done && w.picked
    then gives_up
    else if closed
    then panics
    else if ready
    then sends
    else if w.done
    then gives_up
    else not_ready

module _ {ℓ} {A : Type ℓ} where
  -- The percentages become numbers of messages.
  unfoldable pub new_controller : Config → ℕ → Controller A
  new_controller config now =
      let size = if config.max_queue_size == 0 then 10000 else config.max_queue_size in
      let high = if config.high_water_mark == 0 then 80 else config.high_water_mark in
      let low = if config.low_water_mark == 0 then 20 else config.low_water_mark in
      record {
        name = config.name;
        strategy = config.strategy;
        max_queue_size = size;
        high_water_mark = high * size / 100;
        low_water_mark = low * size / 100;
        current_load = pos 0;
        dropped_messages = 0;
        processed_count = 0;
        rejected_count = 0;
        queue = [];
        closed = false;
        last_processed = now;
        calls = [];
      }

  abbrev pub has_room : Controller A → Bool
  has_room c = ltb (length c.queue) c.max_queue_size

  abbrev pub put : A → Controller A → Controller A
  put msg c = record c { queue = c.queue ++ msg ∷ []; current_load = c.current_load +ℤ pos 1 }

  -- The oldest message leaves the queue, and the load stays as it is.
  abbrev pub discard : A → List A → Controller A → Controller A
  discard old rest c = record c {
    queue = rest;
    dropped_messages = c.dropped_messages + 1;
    calls = on_drop old ∷ c.calls;
  }

  -- A send into the queue, and what the caller returns if the queue is full.
  abbrev pub send_or :
      Controller A × Submitted → A → Moment → Controller A → Controller A × Submitted
  send_or full msg w c = elim (try_send c.closed (has_room c) w) [
    | sends ↦ (put msg c, accepted)
    | gives_up ↦ (c, context_error)
    | not_ready ↦ full
    | panics ↦ (c, panicked)
  ]

  -- The loop of `submitDropOldest`, with the queue beside the controller; the number counts the
  -- moments.
  unfoldable pub submit_drop_oldest :
      (ℕ → Moment) → A → ℕ → List A → Controller A → Controller A × Submitted
  submit_drop_oldest moments msg i [] c =
      send_or
        (send_or (record c { queue = [] }, waiting) msg (moments (suc i)) (record c { queue = [] }))
        msg (moments i) (record c { queue = [] })
  submit_drop_oldest moments msg i (old ∷ rest) c =
      send_or (submit_drop_oldest moments msg (suc i) rest (discard old rest c)) msg (moments i)
        (record c { queue = old ∷ rest })

  unfoldable pub submit_drop_newest : Moment → A → Controller A → Controller A × Submitted
  submit_drop_newest w msg c =
      send_or
        (
          record c { dropped_messages = c.dropped_messages + 1; calls = on_drop msg ∷ c.calls },
          message_dropped,
        )
        msg w c

  unfoldable pub submit_reject : Moment → A → Controller A → Controller A × Submitted
  submit_reject w msg c =
      send_or
        (
          record c { rejected_count = c.rejected_count + 1; calls = on_reject msg ∷ c.calls },
          message_rejected,
        )
        msg w c

  -- A send on the blocking channel, which has no buffer: a receiver must wait there.
  unfoldable pub submit_blocking : Moment → Bool → Controller A → Controller A × Submitted
  submit_blocking w receiver c = elim (try_send c.closed receiver w) [
    | sends ↦ (record c { current_load = c.current_load +ℤ pos 1 }, handed)
    | gives_up ↦ (c, context_error)
    | not_ready ↦ (c, waiting)
    | panics ↦ (c, panicked)
  ]

  -- The switch over the strategies.
  unfoldable pub submit_strategy :
      Strategy → (ℕ → Moment) → ℕ → Bool → A → Controller A → Controller A × Submitted
  submit_strategy drop_oldest moments i receiver msg c = submit_drop_oldest moments msg i c.queue c
  submit_strategy drop_newest moments i receiver msg c = submit_drop_newest (moments i) msg c
  submit_strategy block moments i receiver msg c = submit_blocking (moments i) receiver c
  submit_strategy reject moments i receiver msg c = submit_reject (moments i) msg c

  unfoldable pub is_overloaded : Controller A → Bool
  is_overloaded c = above c.current_load c.high_water_mark

  unfoldable pub is_underloaded : Controller A → Bool
  is_underloaded c = below c.current_load c.low_water_mark

  -- `Submit`, where `receiver` tells whether a receiver waits on the blocking channel.
  unfoldable pub submit : (ℕ → Moment) → Bool → A → Controller A → Controller A × Submitted
  submit moments receiver msg c =
      if is_overloaded c
      then submit_strategy c.strategy moments 0 receiver msg
          (record c { calls = on_overload c.current_load ∷ c.calls })
      else send_or (submit_strategy c.strategy moments 1 receiver msg c) msg (moments 0) c

  -- `Receive` behind the `select`: the counters and `onUnderload`.
  unfoldable pub count_received : ℕ → Controller A → Controller A
  count_received now c =
      let load = c.current_load -ℤ pos 1 in
      record c {
        current_load = load;
        processed_count = c.processed_count + 1;
        last_processed = now;
        calls = if below load c.low_water_mark then on_underload load ∷ c.calls else c.calls;
      }

  -- What waits in the channel that `Receive` reads. The blocking channel has no buffer.
  abbrev pub channel : Strategy → List A → List A
  channel block q = []
  channel _ q = q

  abbrev pub nothing_yet : Moment → Controller A → Received A
  nothing_yet w c = if c.closed then queue_closed else if w.done then cancelled else idle

  unfoldable pub take_message : List A → Moment → ℕ → Controller A → Controller A × Received A
  unfolding count_received
  take_message [] w now c = (c, nothing_yet w c)
  take_message (msg ∷ rest) w now c = (count_received now (record c { queue = rest }), message msg)

  -- `Receive`, where no sender waits on the blocking channel.
  unfoldable pub receive : Moment → ℕ → Controller A → Controller A × Received A
  receive w now c =
      if w.done && w.picked
      then (c, cancelled)
      else take_message (channel c.strategy c.queue) w now c

  -- `Close`; a second one panics.
  unfoldable pub close : Controller A → Option (Controller A)
  close c = if c.closed then none else some (record c { closed = true })
