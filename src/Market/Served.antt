-- ===== src/Market/Served.antt =====
-- Calls of `EnhancedProcessor` of internal/market/enhanced_processor.go, one after another.
use quant_finance_pipeline.Prelude.{
  ℕ, ◌≡◌, String, Bool, true, false, map, List, [], ◌∷◌, Option, some, ◌>>=◌,
}
use quant_finance_pipeline.Models.Order.{Order}
use quant_finance_pipeline.OrderBook.Level.{Orders}
use quant_finance_pipeline.OrderBook.Engine.{MatchingEngine}
use quant_finance_pipeline.OrderBook.Engine.Operations.{Answer, done}
use quant_finance_pipeline.OrderBook.Engine.Cancellation
use quant_finance_pipeline.OrderBook.Engine.Members.{All}
use quant_finance_pipeline.OrderBook.Engine.Invariant.{IsOpen}
use quant_finance_pipeline.Market.Processor.{
  Engines, EnhancedProcessor, cancel_order, place_order, modify_order, stop,
}

-- Every engine is well-formed and not closed.
abbrev pub AllOpen : ℕ → Engines → Type 0
AllOpen n engines = All (λ (x : String × MatchingEngine). IsOpen n x.1) engines

-- What a search over the engines ends with.
abbrev Ends : ℕ → Option (Engines × Answer) → Type 0
Ends n o = (r : Engines × Answer) × (o ≡ some r) × AllOpen n r.0

-- A call, with what it reads of the clock and of `generateOrderID`.
pub data Call : Type 0 where
  places : ℕ → String → Order → Call
  cancels : ℕ → String → Call
  modifies : ℕ → String → ℕ → ℕ → String → Call
  stops : Call

-- The calls other than `Stop`.
unfoldable pub is_trading : Call → Bool
is_trading stops = false
is_trading (places now id o) = true
is_trading (cancels now id) = true
is_trading (modifies now order_id price quantity id) = true

-- After `Stop` each engine is as it was, and closed.
abbrev pub all_closed : Engines → Engines
all_closed = map (λ (x : String × MatchingEngine). (x.0, record x.1 { closed = true }))

module _ (execution_id : ℕ → String) (orders : Orders) where
  unfoldable pub serve : Call → EnhancedProcessor → Option (EnhancedProcessor × Answer)
  unfolding place_order cancel_order modify_order stop
  serve stops p = do p' ← stop p; some (p', done)
  serve (places now id o) p = place_order execution_id now orders id o p
  serve (cancels now id) p = cancel_order now id p
  serve (modifies now order_id price quantity id) p =
      modify_order execution_id now order_id price quantity id p

  unfoldable pub serve_all : List Call → EnhancedProcessor → Option EnhancedProcessor
  unfolding serve
  serve_all [] p = some p
  serve_all (call ∷ calls) p = serve call p >>= λ r. serve_all calls r.0
