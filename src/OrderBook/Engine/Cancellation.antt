-- ===== src/OrderBook/Engine/Cancellation.antt =====
-- internal/orderbook/engine.go: `CancelOrder`, `ModifyOrder` and `GetOrder`.
--
-- `ModifyOrder` runs with no other call between its three critical sections.
use quant_finance_pipeline.Prelude.{ℕ, String, Bool, true, false, [], Option, none, some, ◌>>=◌}
use quant_finance_pipeline.Prelude.Dict.{lookup, erase}
use quant_finance_pipeline.Models.Order.{Order, OrderSide, new, canceled}
use quant_finance_pipeline.OrderBook.RbTree.Removal.{delete}
use quant_finance_pipeline.OrderBook.Level.{PriceLevel, remove_order, is_empty}
use quant_finance_pipeline.OrderBook.Engine.{
  store_level, OrderEntry, order_canceled, order_modified, MatchingEngine, send_event,
}
use quant_finance_pipeline.OrderBook.Engine.Operations.{
  not_found, Answer, executed, done, failed, tree_of, with_tree, write_order, add_order,
}

-- A level that is empty goes out of the tree of the order's side, whatever level that has at the price.
unfoldable pub prune : Bool → OrderSide → ℕ → MatchingEngine → Option MatchingEngine
prune false side price me = some me
prune true side price me = do
  root ← delete price (tree_of side me).root
  some (with_tree side (record (tree_of side me) { root = root }) me)

module _ (now : ℕ) where
  -- The level of an entry once its order is removed, and the engine with it.
  abbrev pub without_order : OrderEntry → MatchingEngine → PriceLevel
  without_order entry me =
      remove_order me.orders ((tree_of entry.side me).levels entry.level) entry.element

  abbrev pub unlinked : String → OrderEntry → PriceLevel → MatchingEngine → MatchingEngine
  unlinked id entry level me =
      let tree = tree_of entry.side me in
      let placed =
        with_tree entry.side (record tree { levels = store_level tree.levels entry.level level })
          me in
      record (write_order entry.order (λ o. record o { status = canceled; update_time = now })
        placed) { order_index = erase id me.order_index }

  -- The end of `CancelOrder`, for an entry of the index whose order has this side.
  unfoldable pub cancel_at :
      OrderSide → String → OrderEntry → MatchingEngine → Option MatchingEngine
  unfolding prune
  cancel_at side id entry me =
      let level = without_order entry me in
      prune (is_empty level) side level.price (unlinked id entry level me)

  unfoldable pub cancel_entry : String → OrderEntry → MatchingEngine → Option MatchingEngine
  unfolding cancel_at send_event
  cancel_entry id entry me = do
    pruned ← cancel_at (me.orders entry.order).side id entry me
    send_event (order_canceled entry.order now) pruned

  -- `CancelOrder` once the index is read.
  unfoldable pub cancel_found :
      Option OrderEntry → String → MatchingEngine → Option (MatchingEngine × Answer)
  unfolding cancel_entry
  cancel_found none id me = some (me, failed not_found)
  cancel_found (some entry) id me = do me' ← cancel_entry id entry me; some (me', done)

  unfoldable pub cancel_order : String → MatchingEngine → Option (MatchingEngine × Answer)
  unfolding cancel_found
  cancel_order id me = cancel_found (lookup id me.order_index) id me

  -- The new order of `ModifyOrder`.
  abbrev pub replacement : String → ℕ → ℕ → Order → Order
  replacement id price quantity o = record {
    order_id = id;
    symbol = o.symbol;
    side = o.side;
    order_type = o.order_type;
    quantity = quantity;
    price = price;
    time_in_force = o.time_in_force;
    status = new;
    client_id = o.client_id;
    creation_time = now;
    update_time = now;
    parent_order_id = o.order_id;
    limits = none;
    executions = [];
  }

  -- The end of `ModifyOrder`.
  unfoldable pub modified : ℕ → MatchingEngine × Answer → Option (MatchingEngine × Answer)
  unfolding send_event
  modified p (me, executed xs) = do
    me' ← send_event (order_modified p now) me
    some (me', executed xs)
  modified p (me, done) = some (me, done)
  modified p (me, failed e) = some (me, failed e)

module _ (execution_id : ℕ → String) (now : ℕ) where
  -- `ModifyOrder` once its `CancelOrder` has answered; `o` is the original order.
  unfoldable pub add_replacement :
      Answer → ℕ → ℕ → ℕ → String → ℕ → MatchingEngine → Option (MatchingEngine × Answer)
  unfolding add_order modified
  add_replacement (failed e) original price quantity id p me = some (me, failed e)
  add_replacement _ original price quantity id p me = do
    r ←
        add_order execution_id now id p
          (write_order p (λ _. replacement now id price quantity (me.orders original)) me)
    modified now p r

  unfoldable pub modify_found :
      Option OrderEntry
      → String
      → ℕ
      → ℕ
      → String
      → ℕ
      → MatchingEngine
      → Option (MatchingEngine × Answer)
  unfolding cancel_order add_replacement
  modify_found none order_id new_price new_quantity id p me = some (me, failed not_found)
  modify_found (some entry) order_id new_price new_quantity id p me = do
    (me', answer) ← cancel_order now order_id me
    add_replacement answer entry.order new_price new_quantity id p me'

  -- `ModifyOrder`; the new order is made at the pointer `p`.
  unfoldable pub modify_order :
      String → ℕ → ℕ → String → ℕ → MatchingEngine → Option (MatchingEngine × Answer)
  unfolding modify_found
  modify_order order_id new_price new_quantity id p me =
      modify_found (lookup order_id me.order_index) order_id new_price new_quantity id p me

unfoldable pub get_order : String → MatchingEngine → Option ℕ
get_order id me = elim (lookup id me.order_index) [ none ↦ none | some entry ↦ some entry.order ]
