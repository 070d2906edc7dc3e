-- ===== src/Market/Updates.antt =====
-- What `UpdateMarketData` and `RemoveOldData` of internal/market/data.go make of the data of each symbol.
use text.Mathlib.Text.{◌==◌ as str_eq}
use text.Mathlib.TextEquality.{eq_iff}
use quant_finance_pipeline.Prelude.{
  ℕ, ◌≡◌, refl, sym, ap, ap₂, ◌∙◌, ◌≢◌, ◌⊎◌, inl, inr, String, Bool, true, false, List, [], ◌∷◌,
  Option, none, some, if◌then◌else◌, arith, Bool-cases, Option-cases,
}
use quant_finance_pipeline.Prelude.Dict.{lookup, erase, lookup-insert, lookup-erase}
use quant_finance_pipeline.Models.Market.{
  PriceLevel, DerivativeInfo, MarketData, deep_copy, copied_info,
}
use quant_finance_pipeline.Market.{
  DataManager, replace_levels, refresh_info, refresh, new_info, add_to_underlying_map, map_info,
  write_data, update_found, update_market_data, get_market_data, remove_found,
  remove_from_underlying_map, unmap_info, is_old, remove_if_old,
}

pub map_info-data :
    (o : Option DerivativeInfo) (s : String) (m : DataManager)
    → (map_info o s m).market_data ≡ m.market_data
unfolding map_info add_to_underlying_map
map_info-data none s m = refl
map_info-data (some i) s m = ground arith

remove_found-data :
    (o : Option (List String)) (u d : String) (m : DataManager)
    → (remove_found o u d m).market_data ≡ m.market_data
unfolding remove_found
remove_found-data none u d m = refl
remove_found-data (some ds) u d m = refl

pub unmap_info-data :
    (o : Option DerivativeInfo) (s : String) (m : DataManager)
    → (unmap_info o s m).market_data ≡ m.market_data
unfolding unmap_info remove_from_underlying_map
unmap_info-data none s m = refl
unmap_info-data (some i) s m = elim (Bool-cases (str_eq i.underlying_symbol "")) [
  | inl unnamed ↦ rw unnamed refl
  | inr named ↦
      rw named
        (remove_found-data (lookup i.underlying_symbol m.underlying_map) i.underlying_symbol s m)
]

pub deep_copy_same : (md : MarketData) → deep_copy md ≡ md
unfolding deep_copy
deep_copy_same md = ap (λ o. record md { derivative_info = o }) (copied_info md.derivative_info)

-- What the symbol has after an update.
abbrev pub merged : MarketData → Option MarketData → MarketData
merged md none = md
merged md (some old) = refresh md old

pub update_found-lookup :
    (o : Option MarketData) (md : MarketData) (j : String) (m : DataManager)
    → lookup j (update_found o md m).market_data
      ≡ (if str_eq md.symbol j then some (merged md o) else lookup j m.market_data)
unfolding update_found
update_found-lookup none md j m =
    ap (lookup j)
      (map_info-data md.derivative_info md.symbol (write_data md.symbol (deep_copy md) m))
    ∙ lookup-insert md.symbol j (deep_copy md) m.market_data
    ∙ ap (λ v. if str_eq md.symbol j then some v else lookup j m.market_data) (deep_copy_same md)
update_found-lookup (some old) md j m =
    ap (lookup j) (
      map_info-data (new_info md.derivative_info old.derivative_info) md.symbol
        (write_data md.symbol (refresh md old) m))
    ∙ lookup-insert md.symbol j (refresh md old) m.market_data

pub get_market_data-eq-lookup :
    (j : String) (m : DataManager) → get_market_data j m ≡ lookup j m.market_data
unfolding get_market_data
get_market_data-eq-lookup j m = elim (Option-cases (lookup j m.market_data)) [
  | inl nothing ↦ rw (nothing, get_market_data) refl
  | inr (md, found) ↦ rw (found, get_market_data) (ap some (deep_copy_same md))
]

get_market_data-update :
    (md : MarketData) (j : String) (m : DataManager)
    → get_market_data j (update_market_data md m) ≡ (
        if str_eq md.symbol j
        then some (merged md (get_market_data md.symbol m))
        else get_market_data j m)
unfolding update_market_data
get_market_data-update md j m =
    get_market_data-eq-lookup j (update_market_data md m)
    ∙ update_found-lookup (lookup md.symbol m.market_data) md j m
    ∙ ap₂ (λ a b. if str_eq md.symbol j then some (merged md a) else b)
        (sym (get_market_data-eq-lookup md.symbol m)) (sym (get_market_data-eq-lookup j m))

-- Levels that are there once some are given: those given, or the old ones where none are.
abbrev pub Replaced : List PriceLevel → List PriceLevel → List PriceLevel → Type 0
Replaced given old now = ((given ≡ []) × (now ≡ old)) ⊎ ((given ≢ []) × (now ≡ given))

pub replace_levels-Replaced :
    (given old : List PriceLevel) → Replaced given old (replace_levels given old)
replace_levels-Replaced [] old = inl (refl, refl)
replace_levels-Replaced (l ∷ ls) old = inr (λ e. cc, refl)

abbrev pub levels_of : (MarketData → List PriceLevel) → Option MarketData → List PriceLevel
levels_of side none = []
levels_of side (some md) = side md

abbrev pub info_of : Option MarketData → Option DerivativeInfo
info_of none = none
info_of (some md) = md.derivative_info

-- The derivative is the old one, with the figures of the new info.
pub record Refreshed (given old now : DerivativeInfo) : Type 0 where
  pub derivative_type : now.derivative_type ≡ old.derivative_type
  pub underlying : now.underlying_symbol ≡ old.underlying_symbol
  pub strike : now.strike_price ≡ old.strike_price
  pub expiry : now.expiry_date ≡ old.expiry_date
  pub option_type : now.option_type ≡ old.option_type
  pub volatility : now.implied_volatility ≡ given.implied_volatility
  pub interest : now.open_interest ≡ given.open_interest
  pub delta : now.delta ≡ given.delta
  pub gamma : now.gamma ≡ given.gamma
  pub theta : now.theta ≡ given.theta
  pub vega : now.vega ≡ given.vega
  pub rho : now.rho ≡ given.rho

-- The info that is there after an update: the old one where none is given, the one given where none
-- was there, and else the old derivative refreshed.
abbrev pub InfoMerged :
    Option DerivativeInfo → Option DerivativeInfo → Option DerivativeInfo → Type 0
InfoMerged none old now = now ≡ old
InfoMerged (some i) none now = now ≡ some i
InfoMerged (some i) (some o) now = (n : DerivativeInfo) × (now ≡ some n) × Refreshed i o n

refresh_info-Merged :
    (given old : Option DerivativeInfo) → InfoMerged given old (refresh_info given old)
refresh_info-Merged none old = refl
refresh_info-Merged (some i) none = refl
refresh_info-Merged (some i) (some o) = (
  _,
  refl,
  record {
    derivative_type = refl;
    underlying = refl;
    strike = refl;
    expiry = refl;
    option_type = refl;
    volatility = refl;
    interest = refl;
    delta = refl;
    gamma = refl;
    theta = refl;
    vega = refl;
    rho = refl;
  },
)

-- What the data of a symbol are after an update, by what they were before.
pub record Merges (md : MarketData) (old : Option MarketData) (now : MarketData) : Type 0 where
  pub price : now.price ≡ md.price
  pub volume : now.volume ≡ md.volume
  pub timestamp : now.timestamp ≡ md.timestamp
  pub exchange : now.exchange ≡ md.exchange
  pub data_type : now.data_type ≡ md.data_type
  pub bids : Replaced md.bid_levels (levels_of (λ d. d.bid_levels) old) now.bid_levels
  pub asks : Replaced md.ask_levels (levels_of (λ d. d.ask_levels) old) now.ask_levels
  pub info : InfoMerged md.derivative_info (info_of old) now.derivative_info

given_or_none : (given : List PriceLevel) → Replaced given [] given
given_or_none [] = inl (refl, refl)
given_or_none (l ∷ ls) = inr (λ e. cc, refl)

info_or_none : (given : Option DerivativeInfo) → InfoMerged given none given
info_or_none none = refl
info_or_none (some i) = refl

merged-Merges : (md : MarketData) (old : Option MarketData) → Merges md old (merged md old)
merged-Merges md none = record {
  price = refl;
  volume = refl;
  timestamp = refl;
  exchange = refl;
  data_type = refl;
  bids = given_or_none md.bid_levels;
  asks = given_or_none md.ask_levels;
  info = info_or_none md.derivative_info;
}
merged-Merges md (some old) = record {
  price = refl;
  volume = refl;
  timestamp = refl;
  exchange = refl;
  data_type = refl;
  bids = replace_levels-Replaced md.bid_levels old.bid_levels;
  asks = replace_levels-Replaced md.ask_levels old.ask_levels;
  info = refresh_info-Merged md.derivative_info old.derivative_info;
}

-- After an update GetMarketData finds data for the symbol with the new price, volume, time, exchange
-- and type; a side has the levels given, or those it had where none are given (none at first); the
-- derivative info is the one that was there with the figures of a new one, the new one where none was
-- there, and the old one where none is given. Every other symbol has what it had.
pub update_market_data-Merges :
    (md : MarketData) (j : String) (m : DataManager)
    → ((now : MarketData) × (get_market_data md.symbol (update_market_data md m) ≡ some now)
        × Merges md (get_market_data md.symbol m) now)
      × ((str_eq md.symbol j ≡ true)
          ⊎ (get_market_data j (update_market_data md m) ≡ get_market_data j m))
update_market_data-Merges md j m =
    let old = get_market_data md.symbol m in
    let same : str_eq md.symbol md.symbol ≡ true = ground (arith, eq_iff md.symbol md.symbol) in
    (
      (merged md old, get_market_data-update md md.symbol m ∙ rw same refl, merged-Merges md old),
      elim (Bool-cases (str_eq md.symbol j)) [
        | inl e ↦ inl e
        | inr ne ↦ inr (get_market_data-update md j m ∙ rw ne refl)
      ],
    )

-- What is left of the data of a symbol by a removal.
abbrev pub still_fresh : ℕ → ℕ → Option MarketData → Option MarketData
still_fresh now max_age none = none
still_fresh now max_age (some md) = if is_old now max_age md then none else some md

pub remove_if_old-lookup :
    (now max_age : ℕ) (o : Option MarketData) (s j : String) (m : DataManager)
    → lookup s m.market_data ≡ o
    → lookup j (remove_if_old now max_age o s m).market_data ≡ (
        if str_eq s j
        then still_fresh now max_age (lookup j m.market_data)
        else lookup j m.market_data)
unfolding remove_if_old
remove_if_old-lookup now max_age none s j m e = elim (Bool-cases (str_eq s j)) [
  | inl same ↦
      let n : lookup j m.market_data ≡ none =
        ap (λ x. lookup x m.market_data) (sym (ground (arith, eq_iff s j, same))) ∙ e in
      rw (same, n) refl
  | inr other ↦ rw other refl
]
remove_if_old-lookup now max_age (some md) s j m e = elim (Bool-cases (is_old now max_age md)) [
  | inl old ↦ rw old (
      ap (lookup j)
        (unmap_info-data md.derivative_info s (record m { market_data = erase s m.market_data }))
      ∙ lookup-erase s j m.market_data
      ∙ elim (Bool-cases (str_eq s j)) [
        | inl same ↦
            let n : lookup j m.market_data ≡ some md =
              ap (λ x. lookup x m.market_data) (sym (ground (arith, eq_iff s j, same))) ∙ e in
            rw (same, n, old) refl
        | inr other ↦ rw other refl
      ])
  | inr new ↦ elim (Bool-cases (str_eq s j)) [
    | inl same ↦
        let n : lookup j m.market_data ≡ some md =
          ap (λ x. lookup x m.market_data) (sym (ground (arith, eq_iff s j, same))) ∙ e in
        rw (new, same, n, new) refl
    | inr other ↦ rw (new, other) refl
  ]
]

abbrev has_key : String → List (String × MarketData) → Bool
has_key j [] = false
has_key j ((s, _) ∷ rest) = if str_eq s j then true else has_key j rest
