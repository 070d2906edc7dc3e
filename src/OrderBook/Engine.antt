-- ===== src/OrderBook/Engine.antt =====
-- internal/orderbook/engine.go: `MatchingEngine`, its state and the loops that match an order.
--
-- A level is named by its tree and a number, the place where `Insert` makes it, so an entry of the
-- index still names its level when the tree has dropped it. Orders are pointers that the caller makes.
-- The event channel is the list of its events, the oldest first, of which none has been taken off, and
-- whether `Close` has closed it.
-- `none` is a panic, or fuel that runs out.
pub mod Operations
pub mod Cancellation
pub mod Views
pub mod Shown
pub mod Members
pub mod Side
pub mod Sweep
pub mod Booking
pub mod Unlinking
pub mod Invariant
pub mod Fills
pub mod Trades
pub mod Run
pub mod Closed
mod Examples
use quant_finance_pipeline.Prelude.{
  ℕ, zero, suc, ◌+◌, String, Bool, true, false, List, [], ◌∷◌, ◌++◌, Option, none, some, ltb, ◌==◌,
  if◌then◌else◌, ◌>>=◌, length,
}
use quant_finance_pipeline.Prelude.Int.{ℤ}
use quant_finance_pipeline.Models.Order.{OrderExecution, OrderSide}
use quant_finance_pipeline.OrderBook.RbTree.{Tree, leaf}
use quant_finance_pipeline.OrderBook.RbTree.Removal.{delete}
use quant_finance_pipeline.OrderBook.RbTree.Walk.{get_best}
use quant_finance_pipeline.OrderBook.Level.{
  Orders, Element, PriceLevel, new_price_level, Match, match_quantity, is_empty,
}

-- The levels in memory, by number.
abbrev pub Levels : Type 0
Levels = ℕ → PriceLevel

abbrev pub store_level : Levels → ℕ → PriceLevel → Levels
store_level h p l q = if q == p then l else h q

-- `RedBlackTree` with the levels that it has made.
pub record BookTree : Type 0 where
  pub root : Tree ℕ
  pub is_bid : Bool
  pub levels : Levels
  pub next_level : ℕ

pub record OrderEntry : Type 0 where
  pub order : ℕ
  pub side : OrderSide
  pub level : ℕ
  pub element : Element

pub data OrderBookEvent : Type 0 where
  order_added order_canceled order_modified : ℕ → ℕ → OrderBookEvent
  order_matched : ℕ → OrderExecution → ℕ → OrderBookEvent

-- The calls of the `MetricsRecorder`, without the symbol.
pub data MetricsCall : Type 0 where
  order_book_update : OrderSide → ℕ → MetricsCall
  order_processed order_filled : String → OrderSide → MetricsCall
  order_book_imbalance : ℤ × ℤ → MetricsCall

pub record MatchingEngine : Type 0 where
  pub symbol : String
  pub bid_tree : BookTree
  pub ask_tree : BookTree
  pub order_index : List (String × OrderEntry)
  pub event_channel : List OrderBookEvent
  pub closed : Bool
  pub metrics : List MetricsCall
  pub orders : Orders
  pub next_element : ℕ
  pub next_execution : ℕ

unfoldable pub new_red_black_tree : Bool → BookTree
new_red_black_tree is_bid = record {
  root = leaf;
  is_bid = is_bid;
  levels = λ p. new_price_level 0;
  next_level = 0;
}

unfoldable pub new_matching_engine : String → Orders → MatchingEngine
unfolding new_red_black_tree
new_matching_engine symbol orders = record {
  symbol = symbol;
  bid_tree = new_red_black_tree true;
  ask_tree = new_red_black_tree false;
  order_index = [];
  event_channel = [];
  closed = false;
  metrics = [];
  orders = orders;
  next_element = 0;
  next_execution = 0;
}

-- The channel holds 1000 events, and one more is dropped.
abbrev pub buffered : OrderBookEvent → MatchingEngine → MatchingEngine
buffered event me =
    if ltb (length me.event_channel) 1000
    then record me { event_channel = me.event_channel ++ event ∷ [] }
    else me

-- `sendEvent`: a send on a closed channel panics, also in a `select` with a default.
unfoldable pub send_event : OrderBookEvent → MatchingEngine → Option MatchingEngine
send_event event me = if me.closed then none else some (buffered event me)

-- `Close`: to close a channel a second time panics.
unfoldable pub close : MatchingEngine → Option MatchingEngine
close me = if me.closed then none else some (record me { closed = true })

-- What a loop over the opposite tree has done.
pub record Swept : Type 0 where
  pub executions : List OrderExecution
  pub remaining : ℕ
  pub tree : BookTree
  pub orders : Orders
  pub next_execution : ℕ

-- One round of the loop: it breaks off, it panics, or the best level is matched.
pub data Round : Type 0 where
  breaks faults : Round
  matches : Match → BookTree → Round

-- The best level after it is matched goes back, or is deleted if it is empty.
abbrev pub put_back : BookTree → ℕ → Match × PriceLevel → Round
put_back tree p (m, level) =
    let written = record tree { levels = store_level tree.levels p level } in
    if is_empty level
    then elim (delete level.price tree.root) [
      | none ↦ faults
      | some root ↦ matches m (record written { root = root })
    ]
    else matches m written

abbrev pub ended : BookTree → Orders → ℕ → ℕ → Swept
ended tree orders n quantity = record {
  executions = [];
  remaining = quantity;
  tree = tree;
  orders = orders;
  next_execution = n;
}

module _ (execution_id : ℕ → String) (now : ℕ) where
  unfoldable pub round : (ℕ → Bool) → BookTree → Orders → ℕ → ℕ → Round
  round crosses tree orders n quantity = elim (get_best tree.is_bid tree.root) [
    | none ↦ breaks
    | some p ↦
        if is_empty (tree.levels p)
        then breaks
        else if crosses (tree.levels p).price
        then put_back tree p (match_quantity execution_id now (tree.levels p) quantity orders n)
        else breaks
  ]

  -- The loops of `processMarketOrder`, where every price crosses, and of `processLimitOrder`.
  unfoldable pub sweep : (ℕ → Bool) → ℕ → BookTree → Orders → ℕ → ℕ → Option Swept
  unfolding round
  sweep crosses fuel tree orders n zero = some (ended tree orders n zero)
  sweep crosses zero tree orders n (suc q) = none
  sweep crosses (suc fuel) tree orders n (suc q) = elim (round crosses tree orders n (suc q)) [
    | breaks ↦ some (ended tree orders n (suc q))
    | faults ↦ none
    | matches m tree' ↦ do
      rest ← sweep crosses fuel tree' m.orders m.next_execution m.remaining
      some (record rest { executions = m.executions ++ rest.executions })
  ]
