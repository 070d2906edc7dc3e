-- ===== src/OrderBook/Engine/Examples.antt =====
-- Tests of the matching engine of internal/orderbook/engine.go, and its theorems at concrete inputs.
use quant_finance_pipeline.Prelude.{
  ℕ, ◌≡◌, refl, sym, ap, subst, ◌⊎◌, inr, String, List, [], ◌∷◌, map, Option, none, some, get_or,
  take, arith, true, false, ◌>>=◌,
}
use quant_finance_pipeline.Prelude.Int.{◌-ℤ◌, ◌+ℤ◌}
use quant_finance_pipeline.Prelude.Dict.{lookup}
use quant_finance_pipeline.Models.Order.{
  Order, OrderExecution, OrderBookLevel, OrderSide, OrderStatus, buy, sell, OrderType, market,
  limit, stop, gtc, new, canceled,
}
use quant_finance_pipeline.OrderBook.RbTree.{insert, search_node, insert_fixup, insert_path}
use quant_finance_pipeline.OrderBook.RbTree.Removal.{
  delete, delete_node, delete_fixup, unlink, minimum, fix_round,
}
use quant_finance_pipeline.OrderBook.RbTree.Walk.{get_best, size, maximum, best_node}
use quant_finance_pipeline.OrderBook.Level
use quant_finance_pipeline.OrderBook.Level.{
  match_quantity, match_loop, new_price_level, remove_order, is_empty, remove_element,
}
use quant_finance_pipeline.OrderBook.Settlement.{keep_remaining, limit_status}
use quant_finance_pipeline.OrderBook.Engine.{
  sweep, round, MatchingEngine, close, OrderEntry, new_matching_engine,
}
use quant_finance_pipeline.OrderBook.Engine.Operations.{
  Answer, done, failed, not_found, unsupported_type, process_limit_order, process_market_order,
  add_order, write_order,
}
use quant_finance_pipeline.OrderBook.Engine.Cancellation.{cancel_order, get_order}
use quant_finance_pipeline.OrderBook.Engine.Views.{get_snapshot, market_depth}
use quant_finance_pipeline.OrderBook.Engine.Shown.{
  prices, BelowAll, get_snapshot-prices, IsQuoted, market_depth-IsQuoted,
}
use quant_finance_pipeline.OrderBook.Engine.Invariant.{IsWell, same-IsWell, fresh-IsWell, IsOpen}
use quant_finance_pipeline.OrderBook.Engine.Trades.{
  LimitTrade, MarketTrade, process_limit_order-LimitTrade, process_market_order-MarketTrade,
}
use quant_finance_pipeline.OrderBook.Engine.Members.{All}
use quant_finance_pipeline.OrderBook.Engine.Closed.{add_order_closed}
use quant_finance_pipeline.OrderBook.Engine.Run.{
  Call, adds, cancels, serve, serve_all, is_trading, serve_all-new_IsOpen, cancel_order-once,
  cancel_order-Answers, Gone,
}

abbrev an_order : OrderSide → OrderType → ℕ → ℕ → Order
an_order side kind price quantity = record {
  order_id = "";
  symbol = "BTC";
  side = side;
  order_type = kind;
  quantity = quantity;
  price = price;
  time_in_force = gtc;
  status = new;
  client_id = "c";
  creation_time = 0;
  update_time = 0;
  parent_order_id = "";
  limits = none;
  executions = [];
}

abbrev no_orders : ℕ → Order
no_orders p = an_order buy market 0 0

abbrev fresh_ids : ℕ → String
fresh_ids n = "exec"

abbrev empty_engine : MatchingEngine
empty_engine = new_matching_engine "BTC" no_orders

-- Two bids and two asks, of which the last order takes one ask and part of the other.
abbrev five_calls : List Call
five_calls =
    adds "b1" 1 (an_order buy limit 98 5)
    ∷ adds "b2" 2 (an_order buy limit 99 5)
    ∷ adds "a1" 3 (an_order sell limit 101 4)
    ∷ adds "a2" 4 (an_order sell limit 103 6)
    ∷ adds "b3" 5 (an_order buy limit 103 7)
    ∷ []

abbrev busy : MatchingEngine
busy = get_or (serve_all fresh_ids 0 five_calls empty_engine) empty_engine

-- An ask for 4 and then a bid for 7, which leaves 3 of it in the book.
abbrev two_calls : List Call
two_calls = adds "a" 3 (an_order sell limit 101 4) ∷ adds "b" 5 (an_order buy limit 103 7) ∷ []

-- Whether an identifier is in the index, the status of an order, and the answer.
abbrev seen_after : List Call → Call → ℕ → Option (OrderStatus × Answer)
seen_after calls call p = serve_all fresh_ids 0 calls empty_engine >>= λ me.
    serve fresh_ids 2 call me >>= λ r. some ((r.0.orders p).status, r.1)

-- The ask that is filled is still in the index, and its cancellation succeeds.
filled_then_canceled : seen_after two_calls (cancels 6 "a") 0 ≡ some (canceled, done)
unfolding serve_all serve new_matching_engine sweep get_best insert search_node insert_fixup
    insert_path maximum minimum delete delete_node unlink delete_fixup fix_round Level.add_order
    new_price_level match_quantity match_loop round size keep_remaining limit_status remove_order
    is_empty ◌-ℤ◌ ◌+ℤ◌ remove_element best_node
filled_then_canceled = refl

stop_order_refused :
    seen_after [] (adds "s" 1 (an_order sell stop 5 5)) 2 ≡ some (new, failed unsupported_type)
unfolding serve_all serve new_matching_engine
stop_order_refused = refl

unknown_order : seen_after [] (cancels 6 "a") 0 ≡ some (new, failed not_found)
unfolding serve_all serve new_matching_engine
unknown_order = refl

five_trading : All (λ call. is_trading call ≡ true) five_calls
unfolding is_trading
five_trading = (refl, (refl, (refl, (refl, (refl, tt)))))

busy-IsOpen : IsOpen 5 busy
busy-IsOpen =
    let (me, e, w, _) = serve_all-new_IsOpen fresh_ids five_calls "BTC" no_orders five_trading in
    subst (IsOpen 5) (ap (λ o. get_or o empty_engine) (sym e)) w

serve_all-new_IsOpen_example :
    (me : MatchingEngine) × (serve_all fresh_ids 0 five_calls empty_engine ≡ some me)
    × IsOpen 5 me
    × (close me ≡ some (record me { closed = true }))
serve_all-new_IsOpen_example =
    serve_all-new_IsOpen fresh_ids five_calls "BTC" no_orders five_trading

process_limit_order-LimitTrade_example :
    (me' : MatchingEngine) × (xs : List OrderExecution) × (process_limit_order fresh_ids 7 4 busy
      ≡ some (me', xs))
    × LimitTrade 5 4 (busy.orders 4) me' xs
    × (me'.closed ≡ busy.closed)
process_limit_order-LimitTrade_example =
    process_limit_order-LimitTrade fresh_ids 7 5 4 busy (omega arith) busy-IsOpen.well

process_market_order-MarketTrade_example :
    (me' : MatchingEngine) × (xs : List OrderExecution) × (process_market_order fresh_ids 7 4 busy
      ≡ some (me', xs))
    × MarketTrade 5 4 (busy.orders 4) me' xs
    × (me'.closed ≡ busy.closed)
process_market_order-MarketTrade_example =
    process_market_order-MarketTrade fresh_ids 7 5 4 busy busy-IsOpen.well

cancel_order-Answers_example :
    (r : MatchingEngine × Answer) × (cancel_order 7 "b1" busy ≡ some r)
    × IsOpen 5 r.0
    × (((lookup "b1" busy.order_index ≡ none) × (r ≡ (busy, failed not_found)))
        ⊎ ((entry : OrderEntry) × (lookup "b1" busy.order_index ≡ some entry)
            × (r.1 ≡ done)
            × Gone 5 "b1" entry.order busy r.0))
cancel_order-Answers_example = cancel_order-Answers 7 5 "b1" busy busy-IsOpen

cancel_order-once_example :
    (r : MatchingEngine × Answer) × (cancel_order 7 "b1" busy ≡ some r)
    × (get_order "b1" r.0 ≡ none)
    × (cancel_order 7 "b1" r.0 ≡ some (r.0, failed not_found))
cancel_order-once_example = cancel_order-once 7 5 "b1" busy busy-IsOpen

get_snapshot-prices_example :
    let s = get_snapshot 7 3 busy in
    let bids = map (λ (l : OrderBookLevel). l.price) s.bids in
    let asks = map (λ (l : OrderBookLevel). l.price) s.asks in
    (bids ≡ take 3 (prices true busy.bid_tree))
    × (asks ≡ take 3 (prices false busy.ask_tree))
    × BelowAll bids asks
get_snapshot-prices_example = get_snapshot-prices 7 3 5 busy busy-IsOpen.well

market_depth-IsQuoted_example :
    IsQuoted
      (market_depth 7 busy)
      (take 10 (prices true busy.bid_tree))
      (take 10 (prices false busy.ask_tree))
market_depth-IsQuoted_example = market_depth-IsQuoted 7 5 busy busy-IsOpen.well

-- The engine with its five orders, closed.
abbrev shut : MatchingEngine
shut = record busy { closed = true }

shut-IsWell : IsWell 5 shut
shut-IsWell = same-IsWell 5 busy shut refl refl refl refl busy-IsOpen.well

-- A bid of the engine's symbol.
abbrev late_bid : Order
late_bid = record (an_order buy limit 104 2) { symbol = busy.symbol }

add_order_closed_example :
    (add_order fresh_ids 7 "b4" 5 (write_order 5 (λ _. late_bid) shut) ≡ none)
    × (close (write_order 5 (λ _. late_bid) shut) ≡ none)
add_order_closed_example =
    add_order_closed fresh_ids 7 "b4" 6 5 (write_order 5 (λ _. late_bid) shut) (omega arith)
      (fresh-IsWell 5 late_bid shut shut-IsWell) refl refl (inr refl)
