-- ===== src/OrderBook/Engine/Operations.antt =====
-- internal/orderbook/engine.go: `AddOrder` and what it calls.
--
-- A call takes one time for all its reads of the clock, and the identifiers that it may draw.
use text.Mathlib.Text.{◌==◌ as str_eq}
use quant_finance_pipeline.Prelude.{
  ℕ, suc, String, Bool, true, false, List, [], ◌∷◌, Option, none, some, ltb, leb, ◌==◌,
  if◌then◌else◌, ◌>>=◌,
}
use quant_finance_pipeline.Prelude.Dict.{insert}
use quant_finance_pipeline.Models.Order.{
  Order, OrderExecution, OrderSide, buy, sell, OrderType, market, limit, stop, stop_limit,
  trailing_stop,
}
use quant_finance_pipeline.OrderBook.RbTree
use quant_finance_pipeline.OrderBook.RbTree.{Tree}
use quant_finance_pipeline.OrderBook.RbTree.Walk.{size}
use quant_finance_pipeline.OrderBook.Level
use quant_finance_pipeline.OrderBook.Level.{Orders, store, Element, new_price_level}
use quant_finance_pipeline.OrderBook.Settlement.{settle_market, keep_remaining, limit_status}
use quant_finance_pipeline.OrderBook.Engine.{
  BookTree, store_level, order_added, order_matched, order_book_update, order_processed,
  order_filled, MatchingEngine, send_event, Swept, sweep,
}

pub data EngineError : Type 0 where
  wrong_symbol unsupported_type not_found : EngineError

-- What a call returns beside the engine.
pub data Answer : Type 0 where
  executed : List OrderExecution → Answer
  done : Answer
  failed : EngineError → Answer

unfoldable pub order_type_to_string : OrderType → String
order_type_to_string market = "MARKET"
order_type_to_string limit = "LIMIT"
order_type_to_string stop = "STOP"
order_type_to_string stop_limit = "STOP_LIMIT"
order_type_to_string trailing_stop = "TRAILING_STOP"

abbrev pub tree_of : OrderSide → MatchingEngine → BookTree
tree_of buy me = me.bid_tree
tree_of sell me = me.ask_tree

abbrev pub opposite : OrderSide → OrderSide
opposite buy = sell
opposite sell = buy

abbrev pub with_tree : OrderSide → BookTree → MatchingEngine → MatchingEngine
with_tree buy tree me = record me { bid_tree = tree }
with_tree sell tree me = record me { ask_tree = tree }

-- A buy crosses the levels at most at its price, a sell those at least at it.
abbrev pub crosses : OrderSide → ℕ → ℕ → Bool
crosses buy price level = leb level price
crosses sell price level = leb price level

-- More rounds than the tree has levels.
abbrev pub rounds : BookTree → ℕ
rounds tree = suc (size tree.root)

-- The tree and the number of the level, once `insert` has given the root and that number. A number
-- is used up also where the price has a level.
abbrev pub enqueued : Orders → ℕ → Element → BookTree → Tree ℕ × ℕ → BookTree × ℕ
enqueued orders price e tree (root, p) =
    let levels = store_level tree.levels tree.next_level (new_price_level price) in
    (
      record tree {
        root = root;
        levels = store_level levels p (Level.add_order orders (levels p) e);
        next_level = suc tree.next_level;
      },
      p,
    )

-- `tree.Insert(price)` and `priceLevel.AddOrder(order)`.
unfoldable pub enqueue : Orders → ℕ → Element → BookTree → Option (BookTree × ℕ)
enqueue orders price e tree = do
  r ← RbTree.insert price tree.next_level tree.root
  some (enqueued orders price e tree r)

-- The engine with the order in the index, once it is in its level.
abbrev pub booked : OrderSide → ℕ → Element → BookTree × ℕ → MatchingEngine → MatchingEngine
booked side p e (tree, level) me = record (with_tree side tree me) {
  order_index =
      insert (me.orders p).order_id (record { order = p; side = side; level = level; element = e })
        me.order_index;
  metrics = order_book_update side (size tree.root) ∷ me.metrics;
  next_element = suc me.next_element;
}

-- `addToBook`, for an order of this side.
unfoldable pub add_to_side : OrderSide → ℕ → MatchingEngine → Option MatchingEngine
unfolding enqueue
add_to_side side p me =
    let e : Element = record { id = me.next_element; order = p } in
    do r ← enqueue me.orders (me.orders p).price e (tree_of side me); some (booked side p e r me)

unfoldable pub add_to_book : ℕ → MatchingEngine → Option MatchingEngine
unfolding add_to_side
add_to_book p me = add_to_side (me.orders p).side p me

-- What is written to the order as `AddOrder` begins. A status of zero is `OrderStatusNew` already.
abbrev pub stamp : String → ℕ → Order → Order
stamp id now o = record o {
  order_id = if str_eq o.order_id "" then id else o.order_id;
  creation_time = if o.creation_time == 0 then now else o.creation_time;
  update_time = now;
}

abbrev pub absorb : OrderSide → Swept → MatchingEngine → MatchingEngine
absorb side s me = record (with_tree side s.tree me) {
  orders = s.orders;
  next_execution = s.next_execution;
}

abbrev pub write_order : ℕ → (Order → Order) → MatchingEngine → MatchingEngine
write_order p f me = record me { orders = store me.orders p (f (me.orders p)) }

unfoldable pub send_matches : ℕ → ℕ → List OrderExecution → MatchingEngine → Option MatchingEngine
unfolding send_event
send_matches p now [] me = some me
send_matches p now (x ∷ xs) me =
    send_event (order_matched p x now) me >>= λ me'. send_matches p now xs me'

abbrev pub record_processed : ℕ → List OrderExecution → MatchingEngine → MatchingEngine
record_processed p xs me =
    let name = order_type_to_string (me.orders p).order_type in
    let side = (me.orders p).side in
    record me {
      metrics = elim xs [
        | [] ↦ order_processed name side ∷ me.metrics
        | _ ↦ order_filled name side ∷ order_processed name side ∷ me.metrics
      ];
    }

-- The end of `AddOrder`: the metrics and the events.
unfoldable pub report : ℕ → ℕ → List OrderExecution → MatchingEngine → Option MatchingEngine
unfolding send_matches order_type_to_string
report p now xs me =
    send_event (order_added p now) (record_processed p xs me) >>= λ me'. send_matches p now xs me'

unfoldable pub reported :
    ℕ → ℕ → Option (List OrderExecution) → MatchingEngine → Option (MatchingEngine × Answer)
unfolding report
reported p now none me = some (me, failed unsupported_type)
reported p now (some xs) me = do me' ← report p now xs me; some (me', executed xs)

unfoldable pub book_rest : Bool → ℕ → MatchingEngine → Option MatchingEngine
unfolding add_to_book
book_rest false p me = some me
book_rest true p me = add_to_book p me

-- What `processLimitOrder` does behind its loop.
unfoldable pub rest_in_book : ℕ → ℕ → MatchingEngine → Option MatchingEngine
unfolding book_rest keep_remaining limit_status
rest_in_book p remaining taken = do
  held ← book_rest (ltb 0 remaining) p (write_order p (keep_remaining remaining) taken)
  some (write_order p (limit_status remaining) held)

module _ (execution_id : ℕ → String) (now : ℕ) where
  -- The loop of an order that takes from the other side of the book.
  unfoldable pub take_from :
      OrderSide → (ℕ → Bool) → ℕ → MatchingEngine → Option (MatchingEngine × Swept)
  take_from side crossing quantity me =
      let tree = tree_of side me in
      do
        s ← sweep execution_id now crossing (rounds tree) tree me.orders me.next_execution quantity
        some (absorb side s me, s)

  unfoldable pub process_market_order :
      ℕ → MatchingEngine → Option (MatchingEngine × List OrderExecution)
  unfolding take_from settle_market
  process_market_order p me =
      let o = me.orders p in
      do
        (taken, s) ← take_from (opposite o.side) (λ price. true) o.quantity me
        some (write_order p (settle_market s.remaining) taken, s.executions)

  unfoldable pub process_limit_order :
      ℕ → MatchingEngine → Option (MatchingEngine × List OrderExecution)
  unfolding take_from rest_in_book
  process_limit_order p me =
      let o = me.orders p in
      do
        (taken, s) ← take_from (opposite o.side) (crosses o.side o.price) o.quantity me
        settled ← rest_in_book p s.remaining taken
        some (settled, s.executions)

  abbrev pub process_order :
      OrderType → ℕ → MatchingEngine → Option (MatchingEngine × Option (List OrderExecution))
  process_order market p me = do (me', xs) ← process_market_order p me; some (me', some xs)
  process_order limit p me = do (me', xs) ← process_limit_order p me; some (me', some xs)
  process_order _ p me = some (me, none)

  -- `AddOrder` once the symbol is compared.
  unfoldable pub add_checked : Bool → String → ℕ → MatchingEngine → Option (MatchingEngine × Answer)
  unfolding process_market_order process_limit_order reported
  add_checked false id p me = some (me, failed wrong_symbol)
  add_checked true id p me = do
    (me', r) ← process_order (me.orders p).order_type p (write_order p (stamp id now) me)
    reported p now r me'

  -- `AddOrder` of the order at a pointer; `id` is the identifier that `generateOrderID` would make.
  unfoldable pub add_order : String → ℕ → MatchingEngine → Option (MatchingEngine × Answer)
  unfolding add_checked
  add_order id p me = add_checked (str_eq (me.orders p).symbol me.symbol) id p me
