-- ===== src/OrderBook/Engine/Closed.antt =====
-- Calls of the matching engine of internal/orderbook/engine.go after its `Close`.
use quant_finance_pipeline.Prelude.{
  ℕ, ◌<◌, ◌≡◌, refl, ap, ◌∙◌, ◌⊎◌, inl, inr, String, true, arith, List, none, some,
}
use text.Mathlib.Text.{◌==◌ as str_eq}
use text.Mathlib.TextEquality.{eq_iff}
use quant_finance_pipeline.Prelude.Dict.{lookup}
use quant_finance_pipeline.Models.Order.{OrderExecution, OrderType, market, limit}
use quant_finance_pipeline.OrderBook.Engine.{OrderEntry, MatchingEngine, close, send_event}
use quant_finance_pipeline.OrderBook.Engine.Operations.{
  write_order, stamp, process_order, reported, report, add_checked, add_order,
}
use quant_finance_pipeline.OrderBook.Engine.Cancellation.{
  cancel_at, cancel_entry, cancel_found, cancel_order,
}
use quant_finance_pipeline.OrderBook.Engine.Invariant.{IsWell, All-lookup}
use quant_finance_pipeline.OrderBook.Engine.Booking.{write_order-IsWell}
use quant_finance_pipeline.OrderBook.Engine.Unlinking.{cancel_at-IsWell}
use quant_finance_pipeline.OrderBook.Engine.Trades.{
  process_market_order-MarketTrade, process_limit_order-LimitTrade,
}
use quant_finance_pipeline.OrderBook.Engine.Run.{as_indexed}

reported_closed :
    (p now : ℕ) (xs : List OrderExecution) (me : MatchingEngine)
    → me.closed ≡ true
    → reported p now (some xs) me ≡ none
unfolding reported report send_event
reported_closed p now xs me c = rw c refl

-- The types of order that `AddOrder` supports.
abbrev pub Supported : OrderType → Type 0
Supported t = (t ≡ market) ⊎ (t ≡ limit)

module _ (execution_id : ℕ → String) (now : ℕ) where
  process_order_matched :
      (t : OrderType) (n p : ℕ) (me : MatchingEngine)
      → Supported t
      → p < n
      → IsWell n me
      → (me' : MatchingEngine) × (xs : List OrderExecution) × (process_order execution_id now t p me
          ≡ some (me', some xs))
        × (me'.closed ≡ me.closed)
  process_order_matched t n p me (inl m) lt w =
      let (me', xs, e, _, c) = process_market_order-MarketTrade execution_id now n p me w in
      (me', xs, rw (m, e) refl, c)
  process_order_matched t n p me (inr l) lt w =
      let (me', xs, e, _, c) = process_limit_order-LimitTrade execution_id now n p me lt w in
      (me', xs, rw (l, e) refl, c)

  -- On a well-formed engine that is closed a second Close panics, and AddOrder panics for every market or
  -- limit order of the engine's symbol, whose pointer is one that the index may hold.
  pub add_order_closed :
      (id : String) (n p : ℕ) (me : MatchingEngine)
      → p < n
      → IsWell n me
      → me.closed ≡ true
      → (me.orders p).symbol ≡ me.symbol
      → Supported (me.orders p).order_type
      → (add_order execution_id now id p me ≡ none) × (close me ≡ none)
  unfolding add_order add_checked close
  add_order_closed id n p me lt w c same t =
      let same' : str_eq (me.orders p).symbol me.symbol ≡ true =
        ground (arith, eq_iff (me.orders p).symbol me.symbol, same) in
      let stamped = write_order p (stamp id now) me in
      let (me', xs, e, c') =
        process_order_matched (me.orders p).order_type n p stamped t lt
          (write_order-IsWell n p (stamp id now) me refl w) in
      (rw (same', e) (reported_closed p now xs me' (c' ∙ c)), rw c refl)

-- On a well-formed engine that is closed CancelOrder panics for every identifier in the index.
pub cancel_order_closed :
    (now n : ℕ) (id : String) (entry : OrderEntry) (me : MatchingEngine)
    → IsWell n me
    → me.closed ≡ true
    → lookup id me.order_index ≡ some entry
    → cancel_order now id me ≡ none
unfolding cancel_order cancel_found cancel_entry send_event
cancel_order_closed now n id entry me w closed found =
    let (s, lt) =
      All-lookup (λ (x : OrderEntry). ((me.orders x.order).side ≡ x.side) × (x.order < n)) id
        me.order_index entry found w.indexed in
    let side = (me.orders entry.order).side in
    let (me', e, w', c, i, h) =
      cancel_at-IsWell side now n id entry.order entry.level entry.element me w in
    let e' = ap (λ x. cancel_at now side id x me) (as_indexed side entry s) ∙ e in
    let c' = c ∙ closed in rw (found, e', c') refl
