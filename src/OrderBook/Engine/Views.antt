-- ===== src/OrderBook/Engine/Views.antt =====
-- internal/orderbook/engine.go: `GetSnapshot` and `GetMarketDepth`.
--
-- The count of a level's orders fits in 32 bits. A quotient is a pair, and the price in the middle is
-- given as its double.
use quant_finance_pipeline.Prelude.{
  ℕ, ◌+◌, String, Bool, false, List, [], ◌∷◌, map, if◌then◌else◌, length,
}
use quant_finance_pipeline.Prelude.Int.{ℤ, pos, sub_ℕ, ◌+ℤ◌, ◌-ℤ◌, ltb_ℤ}
use quant_finance_pipeline.Models.Order.{OrderBook, OrderBookLevel}
use quant_finance_pipeline.OrderBook.RbTree.Walk.{get_levels}
use quant_finance_pipeline.OrderBook.Level.{PriceLevel, is_empty}
use quant_finance_pipeline.OrderBook.Engine.{BookTree, MatchingEngine, order_book_imbalance}

-- `tree.GetLevels(maxLevels)`
unfoldable pub levels_of : ℕ → BookTree → List PriceLevel
unfolding get_levels is_empty
levels_of max_levels tree =
    map tree.levels (get_levels (λ p. is_empty (tree.levels p)) tree.is_bid max_levels tree.root)

abbrev pub book_level : PriceLevel → OrderBookLevel
book_level l = record { price = l.price; quantity = l.volume; order_count = length l.orders }

unfoldable pub get_snapshot : ℕ → ℕ → MatchingEngine → OrderBook
unfolding levels_of
get_snapshot now max_levels me = record {
  symbol = me.symbol;
  timestamp = now;
  bids = map book_level (levels_of max_levels me.bid_tree);
  asks = map book_level (levels_of max_levels me.ask_tree);
}

pub record MarketDepth : Type 0 where
  pub symbol : String
  pub timestamp : ℕ
  pub best_bid : ℕ
  pub best_ask : ℕ
  pub spread : ℤ
  pub twice_mid_price : ℕ
  pub bid_volume : ℤ
  pub ask_volume : ℤ
  pub bid_order_count : ℕ
  pub ask_order_count : ℕ
  pub imbalance : ℤ × ℤ

abbrev pub total_volume : List PriceLevel → ℤ
total_volume [] = pos 0
total_volume (l ∷ ls) = l.volume +ℤ total_volume ls

abbrev pub total_orders : List PriceLevel → ℕ
total_orders [] = 0
total_orders (l ∷ ls) = length l.orders + total_orders ls

-- Two sides that both hold orders have the fields that compare them.
unfoldable pub quote : List PriceLevel → List PriceLevel → MarketDepth → MarketDepth
quote [] asks depth = depth
quote (b ∷ bs) [] depth = depth
quote (b ∷ bs) (a ∷ rest) depth =
    let total = depth.bid_volume +ℤ depth.ask_volume in
    record depth {
      best_bid = b.price;
      best_ask = a.price;
      spread = sub_ℕ a.price b.price;
      twice_mid_price = b.price + a.price;
      imbalance =
          if ltb_ℤ (pos 0) total
          then (depth.bid_volume -ℤ depth.ask_volume, total)
          else (pos 0, pos 1);
    }

-- Whether the imbalance is recorded as well.
unfoldable pub is_quoted : List PriceLevel → List PriceLevel → Bool
is_quoted [] asks = false
is_quoted (b ∷ bs) [] = false
is_quoted (b ∷ bs) (a ∷ rest) = ltb_ℤ (pos 0) (total_volume (b ∷ bs) +ℤ total_volume (a ∷ rest))

unfoldable pub market_depth : ℕ → MatchingEngine → MarketDepth
unfolding levels_of quote
market_depth now me =
    let bids = levels_of 10 me.bid_tree in
    let asks = levels_of 10 me.ask_tree in
    quote bids asks (record {
      symbol = me.symbol;
      timestamp = now;
      best_bid = 0;
      best_ask = 0;
      spread = pos 0;
      twice_mid_price = 0;
      bid_volume = total_volume bids;
      ask_volume = total_volume asks;
      bid_order_count = total_orders bids;
      ask_order_count = total_orders asks;
      imbalance = (pos 0, pos 1);
    })

-- `GetMarketDepth`, with the engine, whose metrics it may extend.
unfoldable pub get_market_depth : ℕ → MatchingEngine → MatchingEngine × MarketDepth
unfolding market_depth is_quoted
get_market_depth now me =
    let depth = market_depth now me in
    (
      (if is_quoted (levels_of 10 me.bid_tree) (levels_of 10 me.ask_tree)
          then record me { metrics = order_book_imbalance depth.imbalance ∷ me.metrics }
          else me),
      depth,
    )
