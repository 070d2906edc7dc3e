-- ===== src/Models/Market.antt =====
-- pkg/models/market.go: market data of an instrument, and what its methods read of it.
--
-- Prices and quantities are as for orders; a strike is a price. The other numbers of a derivative are
-- only copied: they are signed, in a fixed unit. A quotient is given as its two parts.
use quant_finance_pipeline.Prelude.{ℕ, String, List, [], Option, none, some, ◌≡◌, refl}
use quant_finance_pipeline.Prelude.Int.{ℤ, pos}

pub data MarketDataType : Type 0 where
  trade quote depth ohlc index bar stats news unknown : MarketDataType

pub data DerivativeType : Type 0 where
  option future forward swap : DerivativeType

pub data OptionType : Type 0 where
  call put : OptionType

pub record PriceLevel : Type 0 where
  pub price : ℕ
  pub quantity : ℕ
  pub order_count : ℕ

pub record DerivativeInfo : Type 0 where
  pub derivative_type : DerivativeType
  pub underlying_symbol : String
  pub strike_price : ℕ
  pub expiry_date : ℕ
  pub option_type : OptionType
  pub implied_volatility : ℤ
  pub open_interest : ℤ
  pub delta : ℤ
  pub gamma : ℤ
  pub theta : ℤ
  pub vega : ℤ
  pub rho : ℤ

pub record MarketData : Type 0 where
  pub symbol : String
  pub exchange : String
  pub price : ℕ
  pub volume : ℕ
  pub timestamp : ℕ
  pub data_type : MarketDataType
  pub bid_levels : List PriceLevel
  pub ask_levels : List PriceLevel
  pub derivative_info : Option DerivativeInfo

-- What `MarketDataPool.Put` leaves.
unfoldable pub reset : MarketData → MarketData
reset md = record {
  symbol = "";
  exchange = "";
  price = 0;
  volume = 0;
  timestamp = 0;
  data_type = trade;
  bid_levels = [];
  ask_levels = [];
  derivative_info = none;
}

unfoldable pub new_derivative_info : DerivativeType → String → ℕ → ℕ → OptionType → DerivativeInfo
new_derivative_info kind underlying strike expiry option_kind = record {
  derivative_type = kind;
  underlying_symbol = underlying;
  strike_price = strike;
  expiry_date = expiry;
  option_type = option_kind;
  implied_volatility = pos 0;
  open_interest = pos 0;
  delta = pos 0;
  gamma = pos 0;
  theta = pos 0;
  vega = pos 0;
  rho = pos 0;
}

unfoldable pub copy_info : Option DerivativeInfo → Option DerivativeInfo
copy_info none = none
copy_info (some i) = some (record {
  derivative_type = i.derivative_type;
  underlying_symbol = i.underlying_symbol;
  strike_price = i.strike_price;
  expiry_date = i.expiry_date;
  option_type = i.option_type;
  implied_volatility = i.implied_volatility;
  open_interest = i.open_interest;
  delta = i.delta;
  gamma = i.gamma;
  theta = i.theta;
  vega = i.vega;
  rho = i.rho;
})

-- `DeepCopy`, as a value.
unfoldable pub deep_copy : MarketData → MarketData
unfolding copy_info
deep_copy md = record {
  symbol = md.symbol;
  exchange = md.exchange;
  price = md.price;
  volume = md.volume;
  timestamp = md.timestamp;
  data_type = md.data_type;
  bid_levels = md.bid_levels;
  ask_levels = md.ask_levels;
  derivative_info = copy_info md.derivative_info;
}

pub copied_info : (o : Option DerivativeInfo) → copy_info o ≡ o
unfolding copy_info
copied_info none = refl
copied_info (some i) = refl
