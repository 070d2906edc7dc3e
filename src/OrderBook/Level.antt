-- ===== src/OrderBook/Level.antt =====
-- internal/orderbook/tree.go: the queue of orders at one price.
--
-- Orders are shared by pointer between a queue, the engine's index and the caller, so a level holds
-- pointers into a store of orders. An element of `container/list` is its identity and its order.
-- The volume is signed: the code subtracts from it without a test.
pub mod Matching
pub mod Fifo
pub mod Cancel
pub mod Splitting
use quant_finance_pipeline.Prelude.{
  ℕ, ◌+◌, ◌-◌, String, Bool, true, false, List, [], ◌∷◌, ◌++◌, Option, none, some, ltb, leb, ◌==◌,
  if◌then◌else◌, length,
}
use quant_finance_pipeline.Prelude.Int.{ℤ, pos, ◌+ℤ◌, ◌-ℤ◌}
use quant_finance_pipeline.Models.Order.{Order, OrderExecution, filled, partially_filled}

-- The orders in memory, by pointer.
abbrev pub Orders : Type 0
Orders = ℕ → Order

abbrev pub store : Orders → ℕ → Order → Orders
store h p o q = if q == p then o else h q

pub record Element : Type 0 where
  pub id : ℕ
  pub order : ℕ

pub record PriceLevel : Type 0 where
  pub price : ℕ
  pub orders : List Element
  pub volume : ℤ

unfoldable pub new_price_level : ℕ → PriceLevel
new_price_level price = record { price = price; orders = []; volume = pos 0 }

unfoldable pub add_order : Orders → PriceLevel → Element → PriceLevel
add_order h pl e = record pl {
  orders = pl.orders ++ e ∷ [];
  volume = pl.volume +ℤ pos (h e.order).quantity;
}

-- `list.Remove`: nothing happens if the element is no longer in this list.
unfoldable pub remove_element : ℕ → List Element → List Element
remove_element i [] = []
remove_element i (e ∷ es) = if e.id == i then es else e ∷ remove_element i es

unfoldable pub remove_order : Orders → PriceLevel → Element → PriceLevel
unfolding remove_element
remove_order h pl e = record pl {
  orders = remove_element e.id pl.orders;
  volume = pl.volume -ℤ pos (h e.order).quantity;
}

unfoldable pub get_order_count : PriceLevel → ℕ
get_order_count pl = length pl.orders

unfoldable pub get_first_order : PriceLevel → Option ℕ
get_first_order pl = elim pl.orders [ [] ↦ none | e ∷ _ ↦ some e.order ]

unfoldable pub is_empty : PriceLevel → Bool
is_empty pl = length pl.orders == 0

-- What a pass over a queue makes. The number counts the execution identifiers drawn.
pub record Match : Type 0 where
  pub executions : List OrderExecution
  pub remaining : ℕ
  pub left : List Element
  pub volume : ℤ
  pub orders : Orders
  pub next_execution : ℕ

-- The rest of a pass behind an order that is filled, or filled in part and stays in the queue.
abbrev pub took_all : OrderExecution → Match → Match
took_all x m = record m { executions = x ∷ m.executions }

abbrev pub took_part : Element → OrderExecution → Match → Match
took_part e x m = record m { executions = x ∷ m.executions; left = e ∷ m.left }

-- The identifiers that `generateExecutionID` makes, in turn, and the time that `time.Now` gives.
module _ (execution_id : ℕ → String) (now : ℕ) where
  abbrev pub execution : ℕ → ℕ → ℕ → OrderExecution
  execution n quantity price = record {
    execution_id = execution_id n;
    quantity = quantity;
    price = price;
    execution_time = now;
    venue = "INTERNAL";
  }

  -- An order after a fill that leaves this quantity; a full fill does not touch the quantity.
  abbrev pub fill_full : OrderExecution → Order → Order
  fill_full x o = record o {
    status = filled;
    executions = o.executions ++ x ∷ [];
    update_time = now;
  }

  abbrev pub fill_part : OrderExecution → Order → Order
  fill_part x o = record o {
    quantity = o.quantity - x.quantity;
    status = partially_filled;
    executions = o.executions ++ x ∷ [];
    update_time = now;
  }

  -- The loop of `MatchQuantity`, over what is left of the queue.
  unfoldable pub match_loop : ℕ → List Element → ℕ → ℤ → Orders → ℕ → Match
  match_loop price [] quantity volume h n = record {
    executions = [];
    remaining = quantity;
    left = [];
    volume = volume;
    orders = h;
    next_execution = n;
  }
  match_loop price (e ∷ es) quantity volume h n =
      let o = h e.order in
      let whole = execution n o.quantity price in
      let part = execution n quantity price in
      let full = took_all whole (
        match_loop price es (quantity - o.quantity) (volume -ℤ pos o.quantity)
          (store h e.order (fill_full whole o)) (n + 1)) in
      let partial = took_part e part (
        match_loop price es (quantity - quantity) (volume -ℤ pos quantity)
          (store h e.order (fill_part part o)) (n + 1)) in
      let stopped : Match = record {
        executions = [];
        remaining = quantity;
        left = e ∷ es;
        volume = volume;
        orders = h;
        next_execution = n;
      } in
      if ltb 0 quantity then if leb o.quantity quantity then full else partial else stopped

  -- `MatchQuantity`, with the level and the orders after it.
  unfoldable pub match_quantity : PriceLevel → ℕ → Orders → ℕ → Match × PriceLevel
  unfolding match_loop
  match_quantity pl quantity h n =
      let m = match_loop pl.price pl.orders quantity pl.volume h n in
      (m, record pl { orders = m.left; volume = m.volume })
