-- ===== src/Market/Examples.antt =====
-- Tests of the data manager of internal/market/data.go, and the theorems on it, on the
-- books and on the enhanced processor at concrete inputs.
use text.Mathlib.Text.{◌==◌ as str_eq}
use quant_finance_pipeline.Prelude.{
  ℕ, ◌≡◌, refl, String, ◌⊎◌, true, List, [], ◌∷◌, none, some, if◌then◌else◌,
}
use quant_finance_pipeline.Prelude.Int.{pos}
use quant_finance_pipeline.Models.Market.{
  MarketData, trade, depth, option, call, new_derivative_info, deep_copy, copy_info,
}
use quant_finance_pipeline.Models.Order.{Order, OrderSide, buy, sell, limit, gtc, new}
use quant_finance_pipeline.Market.Books.{
  OrderBook, BookUpdate, BookManager, update_book, get_order_book, get_snapshot, Shows,
  update_book-Shows,
}
use quant_finance_pipeline.Market.Served
use quant_finance_pipeline.Market.Served.{places, cancels, modifies}
use quant_finance_pipeline.Market.{
  DataManager, new_data_manager, add_to_underlying_map, map_info, update_found, update_market_data,
  get_market_data, get_derivatives, remove_found, remove_from_underlying_map, unmap_info,
  remove_if_old, remove_each, remove_old_data, get_spread_bps,
}
use quant_finance_pipeline.Market.Updates.{Merges, update_market_data-Merges}
use quant_finance_pipeline.Market.Indexed.{
  IsIndexed, Change, updates, removes, change, change_all, change_all-new_IsIndexed,
}

abbrev a_call : String → ℕ → MarketData
a_call symbol time = record {
  symbol = symbol;
  exchange = "X";
  price = 5;
  volume = 1;
  timestamp = time;
  data_type = trade;
  bid_levels = [];
  ask_levels = [];
  derivative_info = some (new_derivative_info option "BTC" 100 9 call);
}

abbrev a_book : MarketData
a_book = record (a_call "c1" 8) {
  data_type = depth;
  bid_levels = record { price = 99; quantity = 2; order_count = 1 } ∷ [];
  ask_levels = record { price = 101; quantity = 2; order_count = 1 } ∷ [];
  derivative_info = none;
}

-- The second removal finds the first call too old, and the last call takes its place.
abbrev changes : List Change
changes =
    updates (a_call "c1" 1)
    ∷ updates (a_call "c2" 5)
    ∷ updates (a_call "c3" 6)
    ∷ updates (a_call "c2" 7)
    ∷ removes 4 10
    ∷ removes 12 10
    ∷ []

abbrev manager : DataManager
manager = change_all changes new_data_manager

last_fills_gap : get_derivatives "BTC" manager ≡ "c3" ∷ "c2" ∷ []
unfolding change_all change update_market_data update_found map_info add_to_underlying_map
    new_data_manager get_derivatives remove_old_data remove_each remove_if_old unmap_info
    remove_from_underlying_map remove_found deep_copy copy_info new_derivative_info
last_fills_gap = refl

spread_of_book :
    get_spread_bps "c1"
      (change_all (updates (a_call "c1" 1) ∷ updates a_book ∷ []) new_data_manager)
    ≡ some (pos 40000, 200)
unfolding change_all change update_market_data update_found map_info add_to_underlying_map
    new_data_manager deep_copy copy_info new_derivative_info get_spread_bps
spread_of_book = refl

change_all-new_IsIndexed_example : IsIndexed manager
change_all-new_IsIndexed_example = change_all-new_IsIndexed changes

update_market_data-Merges_example :
    ((now : MarketData) × (get_market_data "c1" (update_market_data a_book manager) ≡ some now)
      × Merges a_book (get_market_data "c1" manager) now)
    × ((str_eq "c1" "c2" ≡ true)
        ⊎ (get_market_data "c2" (update_market_data a_book manager) ≡ get_market_data "c2" manager))
update_market_data-Merges_example = update_market_data-Merges a_book "c2" manager

abbrev limit_order : String → OrderSide → ℕ → ℕ → Order
limit_order symbol side price quantity = record {
  order_id = "";
  symbol = symbol;
  side = side;
  order_type = limit;
  quantity = quantity;
  price = price;
  time_in_force = gtc;
  status = new;
  client_id = "";
  creation_time = 0;
  update_time = 0;
  parent_order_id = "";
  limits = none;
  executions = [];
}

abbrev five_calls : List Served.Call
five_calls =
    places 1 "a" (limit_order "BTC" sell 101 4)
    ∷ places 2 "b" (limit_order "ETH" buy 7 2)
    ∷ places 3 "c" (limit_order "BTC" buy 102 6)
    ∷ cancels 4 "b"
    ∷ modifies 5 "c" 100 1 "d"
    ∷ []

-- Bids alone: the asks are those of the update before.
abbrev bids_only : BookUpdate
bids_only = record { bids = a_book.bid_levels; asks = []; at = 8; source = "X"; now = 9 }

abbrev books : BookManager
books =
    update_book "c1" (record { bids = []; asks = a_book.ask_levels; at = 5; source = "X"; now = 6 })
      []

update_book-Shows_example :
    ((book : OrderBook) × (get_order_book "c1" (update_book "c1" bids_only books) ≡ some book)
      × Shows bids_only (get_order_book "c1" books) (get_snapshot book))
    × (get_order_book "c2" (update_book "c1" bids_only books) ≡ (
        if str_eq "c1" "c2"
        then get_order_book "c1" (update_book "c1" bids_only books)
        else get_order_book "c2" books))
update_book-Shows_example = update_book-Shows "c1" "c2" bids_only books
