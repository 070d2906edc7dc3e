-- ===== src/OrderBook/Engine/Unlinking.antt =====
-- An order leaves its level in `CancelOrder` of internal/orderbook/engine.go: this runs to its end and
-- leaves a well-formed engine.
use quant_finance_pipeline.Prelude.{
  ℕ, ◌<◌, ◌≡◌, refl, inl, inr, String, true, false, some, Bool-cases,
}
use quant_finance_pipeline.Prelude.Dict.{erase}
use quant_finance_pipeline.Models.Order.{Order, OrderSide, buy, sell, canceled}
use quant_finance_pipeline.OrderBook.Entries.{remove}
use quant_finance_pipeline.OrderBook.Level.{
  Orders, store, Element, PriceLevel, remove_order, is_empty,
}
use quant_finance_pipeline.OrderBook.Engine.{OrderEntry, MatchingEngine}
use quant_finance_pipeline.OrderBook.Engine.Operations.{tree_of, with_tree, write_order}
use quant_finance_pipeline.OrderBook.Engine.Cancellation.{prune, cancel_at, unlinked}
use quant_finance_pipeline.OrderBook.Engine.Members.{All, All-remove}
use quant_finance_pipeline.OrderBook.Engine.Side.{entries, write-IsBook, drop-IsBook}
use quant_finance_pipeline.OrderBook.Engine.Invariant.{
  Indexed, IsWell, All-flip, All-erase, Indexed-sides,
}
use quant_finance_pipeline.OrderBook.Engine.Booking.{side-store}

remove_order_price :
    (orders : Orders) (l : PriceLevel) (e : Element) → (remove_order orders l e).price ≡ l.price
unfolding remove_order
remove_order_price orders l e = refl

-- The order at `order` goes from level `level` of a side, and the level with it if it is empty.
pub cancel_at-IsWell :
    (side : OrderSide) (now n : ℕ) (id : String) (order level : ℕ) (e : Element)
    (me : MatchingEngine)
    → IsWell n me
    → let entry : OrderEntry = record { order = order; side = side; level = level; element = e } in
      (me' : MatchingEngine) × (cancel_at now side id entry me ≡ some me')
      × IsWell n me'
      × (me'.closed ≡ me.closed)
      × (me'.order_index ≡ erase id me.order_index)
      × (me'.orders
          ≡ (write_order order (λ o. record o { status = canceled; update_time = now }) me).orders)
unfolding cancel_at prune
cancel_at-IsWell buy now n id order level e me w =
    let l = remove_order me.orders (me.bid_tree.levels level) e in
    let o : Order = record (me.orders order) { status = canceled; update_time = now } in
    let index = All-erase (Indexed n (store me.orders order o)) id me.order_index (
      Indexed-sides n me.orders (store me.orders order o) me.order_index
        (side-store me.orders order o refl) w.indexed) in
    let same = remove_order_price me.orders (me.bid_tree.levels level) e in
    elim (Bool-cases (is_empty l)) [
      | inl empty ↦
          let (root, d, b, r) = drop-IsBook true me.bid_tree level l w.bids same in
          (
            with_tree buy
                (record (tree_of buy (
                  unlinked now id (record { order = order; side = buy; level = level; element = e })
                    l me)) { root = root })
                (unlinked now id (record { order = order; side = buy; level = level; element = e })
                  l me),
            rw (empty, d) refl,
            record {
              bids = b;
              asks = w.asks;
              uncrossed = rw r (
                  All-remove (λ b. All (λ a. b.0 < a.0) (entries me.ask_tree)) l.price
                    (entries me.bid_tree) w.uncrossed);
              indexed = index;
            },
            refl,
            refl,
            refl,
          )
      | inr held ↦ (
        unlinked now id (record { order = order; side = buy; level = level; element = e }) l me,
        rw held refl,
        record {
          bids = write-IsBook true me.bid_tree level l w.bids same held;
          asks = w.asks;
          uncrossed = w.uncrossed;
          indexed = index;
        },
        refl,
        refl,
        refl,
      )
    ]
cancel_at-IsWell sell now n id order level e me w =
    let l = remove_order me.orders (me.ask_tree.levels level) e in
    let o : Order = record (me.orders order) { status = canceled; update_time = now } in
    let index = All-erase (Indexed n (store me.orders order o)) id me.order_index (
      Indexed-sides n me.orders (store me.orders order o) me.order_index
        (side-store me.orders order o refl) w.indexed) in
    let same = remove_order_price me.orders (me.ask_tree.levels level) e in
    elim (Bool-cases (is_empty l)) [
      | inl empty ↦
          let (root, d, b, r) = drop-IsBook false me.ask_tree level l w.asks same in
          (
            with_tree sell
                (record (tree_of sell (
                  unlinked now id
                    (record { order = order; side = sell; level = level; element = e }) l me)) {
                      root = root;
                    })
                (unlinked now id (record { order = order; side = sell; level = level; element = e })
                  l me),
            rw (empty, d) refl,
            record {
              bids = w.bids;
              asks = b;
              uncrossed = rw r (
                  All-flip (λ (a : ℕ × ℕ) (b : ℕ × ℕ). b.0 < a.0)
                    (remove l.price (entries me.ask_tree)) (entries me.bid_tree)
                    (All-remove (λ a. All (λ b. b.0 < a.0) (entries me.bid_tree)) l.price
                      (entries me.ask_tree)
                      (All-flip (λ (b : ℕ × ℕ) (a : ℕ × ℕ). b.0 < a.0) (entries me.bid_tree)
                        (entries me.ask_tree) w.uncrossed)));
              indexed = index;
            },
            refl,
            refl,
            refl,
          )
      | inr held ↦ (
        unlinked now id (record { order = order; side = sell; level = level; element = e }) l me,
        rw held refl,
        record {
          bids = w.bids;
          asks = write-IsBook false me.ask_tree level l w.asks same held;
          uncrossed = w.uncrossed;
          indexed = index;
        },
        refl,
        refl,
        refl,
      )
    ]
