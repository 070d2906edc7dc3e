-- ===== src/Market.antt =====
-- internal/market/data.go: `DataManager`, the market data by symbol and the derivatives by underlying.
--
-- The enhanced processor over the matching engines is in Processor.
-- Market data are values: the manager hands out copies only. `derivativeInfo` is never used.
pub mod Texts
pub mod Derivatives
pub mod Updates
pub mod Indexed
pub mod Processor
pub mod Books
pub mod Served
mod Examples
use text.Mathlib.Text.{◌==◌ as str_eq}
use quant_finance_pipeline.Prelude.{
  ℕ, ◌+◌, ◌*◌, String, Bool, List, [], ◌∷◌, ◌++◌, Option, none, some, ltb, if◌then◌else◌,
}
use quant_finance_pipeline.Prelude.Int.{ℤ, sub_ℕ}
use quant_finance_pipeline.Prelude.Dict.{lookup, insert, erase}
use quant_finance_pipeline.Models.Market.{MarketData, DerivativeInfo, PriceLevel, deep_copy}
use quant_finance_pipeline.Market.Texts.{contains, swap_remove}

pub record DataManager : Type 0 where
  pub market_data : List (String × MarketData)
  pub underlying_map : List (String × List String)

unfoldable pub new_data_manager : DataManager
new_data_manager = record { market_data = []; underlying_map = [] }

-- Levels replace those that are there only if there are some.
abbrev pub replace_levels : List PriceLevel → List PriceLevel → List PriceLevel
replace_levels [] old = old
replace_levels (l ∷ ls) old = l ∷ ls

-- Of the info that is there already, `UpdateMarketData` keeps what identifies the derivative.
abbrev pub refresh_info : Option DerivativeInfo → Option DerivativeInfo → Option DerivativeInfo
refresh_info none old = old
refresh_info (some i) none = some i
refresh_info (some i) (some old) = some (record old {
  implied_volatility = i.implied_volatility;
  open_interest = i.open_interest;
  delta = i.delta;
  gamma = i.gamma;
  theta = i.theta;
  vega = i.vega;
  rho = i.rho;
})

abbrev pub refresh : MarketData → MarketData → MarketData
refresh md old = record old {
  price = md.price;
  volume = md.volume;
  timestamp = md.timestamp;
  exchange = md.exchange;
  data_type = md.data_type;
  bid_levels = replace_levels md.bid_levels old.bid_levels;
  ask_levels = replace_levels md.ask_levels old.ask_levels;
  derivative_info = refresh_info md.derivative_info old.derivative_info;
}

abbrev pub added : Option (List String) → String → List String
added none derivative = derivative ∷ []
added (some ds) derivative = if contains derivative ds then ds else ds ++ derivative ∷ []

unfoldable pub add_to_underlying_map : String → String → DataManager → DataManager
add_to_underlying_map underlying derivative m = record m {
  underlying_map =
      insert underlying (added (lookup underlying m.underlying_map) derivative) m.underlying_map;
}

-- A derivative of a named underlying is added.
unfoldable pub map_info : Option DerivativeInfo → String → DataManager → DataManager
unfolding add_to_underlying_map
map_info none symbol m = m
map_info (some i) symbol m =
    if str_eq i.underlying_symbol "" then m else add_to_underlying_map i.underlying_symbol symbol m

abbrev pub write_data : String → MarketData → DataManager → DataManager
write_data symbol md m = record m { market_data = insert symbol md m.market_data }

-- The info that is new to the manager.
abbrev pub new_info : Option DerivativeInfo → Option DerivativeInfo → Option DerivativeInfo
new_info i none = i
new_info i (some old) = none

unfoldable pub update_found : Option MarketData → MarketData → DataManager → DataManager
unfolding map_info deep_copy
update_found none md m =
    map_info md.derivative_info md.symbol (write_data md.symbol (deep_copy md) m)
update_found (some old) md m =
    map_info (new_info md.derivative_info old.derivative_info) md.symbol
      (write_data md.symbol (refresh md old) m)

unfoldable pub update_market_data : MarketData → DataManager → DataManager
unfolding update_found
update_market_data md m = update_found (lookup md.symbol m.market_data) md m

unfoldable pub get_market_data : String → DataManager → Option MarketData
unfolding deep_copy
get_market_data symbol m = elim (lookup symbol m.market_data) [
  | none ↦ none
  | some md ↦ some (deep_copy md)
]

abbrev pub texts_of : Option (List String) → List String
texts_of none = []
texts_of (some ds) = ds

unfoldable pub get_derivatives : String → DataManager → List String
get_derivatives underlying m = texts_of (lookup underlying m.underlying_map)

-- Where the derivative is not in the list, the list stays.
unfoldable pub remove_found : Option (List String) → String → String → DataManager → DataManager
remove_found none underlying derivative m = m
remove_found (some ds) underlying derivative m = record m {
  underlying_map = insert underlying (swap_remove derivative ds) m.underlying_map;
}

unfoldable pub remove_from_underlying_map : String → String → DataManager → DataManager
unfolding remove_found
remove_from_underlying_map underlying derivative m =
    remove_found (lookup underlying m.underlying_map) underlying derivative m

unfoldable pub unmap_info : Option DerivativeInfo → String → DataManager → DataManager
unfolding remove_from_underlying_map
unmap_info none symbol m = m
unmap_info (some i) symbol m =
    if str_eq i.underlying_symbol ""
    then m
    else remove_from_underlying_map i.underlying_symbol symbol m

-- `now.Sub(data.Timestamp) > maxAge`
abbrev pub is_old : ℕ → ℕ → MarketData → Bool
is_old now max_age md = ltb (md.timestamp + max_age) now

unfoldable pub remove_if_old : ℕ → ℕ → Option MarketData → String → DataManager → DataManager
unfolding unmap_info
remove_if_old now max_age none symbol m = m
remove_if_old now max_age (some md) symbol m =
    if is_old now max_age md
    then unmap_info md.derivative_info symbol
        (record m { market_data = erase symbol m.market_data })
    else m

-- The loop of `RemoveOldData` over the symbols; a round takes out only its own symbol, so it reads the
-- data as the loop finds them.
unfoldable pub remove_each : ℕ → ℕ → List (String × MarketData) → DataManager → DataManager
unfolding remove_if_old
remove_each now max_age [] m = m
remove_each now max_age ((symbol, _) ∷ rest) m =
    remove_each now max_age rest (remove_if_old now max_age (lookup symbol m.market_data) symbol m)

unfoldable pub remove_old_data : ℕ → ℕ → DataManager → DataManager
unfolding remove_each
remove_old_data now max_age m = remove_each now max_age m.market_data m

-- `GetSpreadBPS` as a numerator and a denominator, in ten thousandths.
abbrev pub spread_bps : List PriceLevel → List PriceLevel → Option (ℤ × ℕ)
spread_bps [] asks = none
spread_bps (b ∷ bids) [] = none
spread_bps (b ∷ bids) (a ∷ asks) =
    if ltb 0 (b.price + a.price)
    then some (sub_ℕ (20000 * a.price) (20000 * b.price), b.price + a.price)
    else none

unfoldable pub get_spread_bps : String → DataManager → Option (ℤ × ℕ)
get_spread_bps symbol m = elim (lookup symbol m.market_data) [
  | none ↦ none
  | some md ↦ spread_bps md.bid_levels md.ask_levels
]
