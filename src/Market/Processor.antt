-- ===== src/Market/Processor.antt =====
-- internal/market/enhanced_processor.go: `EnhancedProcessor`, the matching engines by symbol.
--
-- A call runs with no other between its locks. It makes its order at a pointer of its own, so the
-- engines may each have a store of orders. The engines are searched in the order of the list.
use quant_finance_pipeline.Prelude.{ℕ, suc, String, List, [], ◌∷◌, Option, none, some, ◌>>=◌}
use quant_finance_pipeline.Prelude.Dict.{lookup, insert}
use quant_finance_pipeline.Models.Order.{Order, OrderBook}
use quant_finance_pipeline.OrderBook.Level.{Orders}
use quant_finance_pipeline.OrderBook.Engine.{MatchingEngine, new_matching_engine, close}
use quant_finance_pipeline.OrderBook.Engine.Operations
use quant_finance_pipeline.OrderBook.Engine.Operations.{
  Answer, executed, done, failed, not_found, write_order,
}
use quant_finance_pipeline.OrderBook.Engine.Cancellation
use quant_finance_pipeline.OrderBook.Engine.Views
use quant_finance_pipeline.OrderBook.Engine.Views.{MarketDepth}

abbrev pub Engines : Type 0
Engines = List (String × MatchingEngine)

-- `next_order` is the number of calls so far, and the next pointer.
pub record EnhancedProcessor : Type 0 where
  pub matching_engines : Engines
  pub next_order : ℕ

unfoldable pub new_enhanced_processor : EnhancedProcessor
new_enhanced_processor = record { matching_engines = []; next_order = 0 }

-- The loop of `Stop`. The engines stay in the map.
unfoldable pub close_all : Engines → Option Engines
unfolding close
close_all [] = some []
close_all ((symbol, me) ∷ rest) =
    let later = close_all rest in do me' ← close me; closed ← later; some ((symbol, me') ∷ closed)

-- `Stop`, without the goroutines and the producer.
unfoldable pub stop : EnhancedProcessor → Option EnhancedProcessor
unfolding close_all
stop p = do engines ← close_all p.matching_engines; some (record p { matching_engines = engines })

unfoldable pub engine_or_new : Option MatchingEngine → String → Orders → MatchingEngine
unfolding new_matching_engine
engine_or_new none symbol orders = new_matching_engine symbol orders
engine_or_new (some me) symbol orders = me

abbrev pub advance : Engines → EnhancedProcessor → EnhancedProcessor
advance engines p = record { matching_engines = engines; next_order = suc p.next_order }

unfoldable pub get_order_book : ℕ → ℕ → String → EnhancedProcessor → Option OrderBook
unfolding Views.get_snapshot
get_order_book now max_levels symbol p = do
  me ← lookup symbol p.matching_engines
  some (Views.get_snapshot now max_levels me)

-- The depth, and the processor whose engine may have recorded it.
unfoldable pub get_market_depth :
    ℕ → String → EnhancedProcessor → Option (EnhancedProcessor × MarketDepth)
unfolding Views.get_market_depth
get_market_depth now symbol p = do
  me ← lookup symbol p.matching_engines
  let r = Views.get_market_depth now me
  some (record p { matching_engines = insert symbol r.0 p.matching_engines }, r.1)

-- The first engine with the order.
unfoldable pub get_order : String → Engines → Option ℕ
unfolding Cancellation.get_order
get_order id [] = none
get_order id ((symbol, me) ∷ rest) = elim (Cancellation.get_order id me) [
  | some p ↦ some p
  | none ↦ get_order id rest
]

-- An engine has answered: at an error the loop goes on to the `later` ones.
abbrev pub settle :
    String
    → Engines
    → MatchingEngine × Answer
    → Option (Engines × Answer)
    → Option (Engines × Answer)
settle symbol rest (me, failed e) later = do
  (engines, answer) ← later
  some ((symbol, me) ∷ engines, answer)
settle symbol rest (me, done) later = some ((symbol, me) ∷ rest, done)
settle symbol rest (me, executed xs) later = some ((symbol, me) ∷ rest, executed xs)

unfoldable pub cancel_in : ℕ → String → Engines → Option (Engines × Answer)
unfolding Cancellation.cancel_order
cancel_in now id [] = some ([], failed not_found)
cancel_in now id ((symbol, me) ∷ rest) =
    let later = cancel_in now id rest in
    Cancellation.cancel_order now id me >>= λ r. settle symbol rest r later

unfoldable pub cancel_order : ℕ → String → EnhancedProcessor → Option (EnhancedProcessor × Answer)
unfolding cancel_in
cancel_order now id p = do
  (engines, answer) ← cancel_in now id p.matching_engines
  some (advance engines p, answer)

module _ (execution_id : ℕ → String) (now : ℕ) where
  -- `PlaceOrder` of an order that is not nil; `orders` is what the store holds at pointers not made yet.
  unfoldable pub place_order :
      Orders → String → Order → EnhancedProcessor → Option (EnhancedProcessor × Answer)
  unfolding engine_or_new Operations.add_order
  place_order orders id o p =
      let me = engine_or_new (lookup o.symbol p.matching_engines) o.symbol orders in
      do
        r ←
            Operations.add_order execution_id now id p.next_order
              (write_order p.next_order (λ _. o) me)
        some (advance (insert o.symbol r.0 p.matching_engines) p, r.1)

  -- The first engine that has the order modifies it, whatever comes of that.
  unfoldable pub modify_or_later :
      Option ℕ
      → String
      → ℕ
      → ℕ
      → String
      → ℕ
      → String
      → MatchingEngine
      → Engines
      → Option (Engines × Answer)
      → Option (Engines × Answer)
  unfolding Cancellation.modify_order
  modify_or_later (some q) order_id price quantity id n symbol me rest later = do
    (me', answer) ← Cancellation.modify_order execution_id now order_id price quantity id n me
    some ((symbol, me') ∷ rest, answer)
  modify_or_later none order_id price quantity id n symbol me rest later = do
    (engines, answer) ← later
    some ((symbol, me) ∷ engines, answer)

  unfoldable pub modify_in : String → ℕ → ℕ → String → ℕ → Engines → Option (Engines × Answer)
  unfolding modify_or_later Cancellation.get_order
  modify_in order_id price quantity id n [] = some ([], failed not_found)
  modify_in order_id price quantity id n ((symbol, me) ∷ rest) =
      let later = modify_in order_id price quantity id n rest in
      modify_or_later (Cancellation.get_order order_id me) order_id price quantity id n symbol me
        rest later

  unfoldable pub modify_order :
      String → ℕ → ℕ → String → EnhancedProcessor → Option (EnhancedProcessor × Answer)
  unfolding modify_in
  modify_order order_id price quantity id p = do
    (engines, answer) ← modify_in order_id price quantity id p.next_order p.matching_engines
    some (advance engines p, answer)
