-- ===== src/Models/Order.antt =====
-- pkg/models/order.go: orders, executions and book snapshots.
--
-- Prices are in ticks and quantities in lots: a float64 that is a multiple of the tick or the lot,
-- not negative, and small enough for the sums to be exact. Times are numbers, 0 for the zero time.
use quant_finance_pipeline.Prelude.{
  ℕ, String, List, [], Option, none, some, ltb, if◌then◌else◌, length,
}
use quant_finance_pipeline.Prelude.Int.{ℤ}

pub data OrderSide : Type 0 where
  buy sell : OrderSide

pub data OrderType : Type 0 where
  market limit stop stop_limit trailing_stop : OrderType

pub data OrderTimeInForce : Type 0 where
  gtc ioc fok day : OrderTimeInForce

pub data OrderStatus : Type 0 where
  new partially_filled filled canceled rejected pending : OrderStatus

pub record OrderLimits : Type 0 where
  pub max_quantity : ℕ
  pub max_notional : ℕ
  pub max_price_deviation : ℕ

pub record OrderExecution : Type 0 where
  pub execution_id : String
  pub quantity : ℕ
  pub price : ℕ
  pub execution_time : ℕ
  pub venue : String

pub record Order : Type 0 where
  pub order_id : String
  pub symbol : String
  pub side : OrderSide
  pub order_type : OrderType
  pub quantity : ℕ
  pub price : ℕ
  pub time_in_force : OrderTimeInForce
  pub status : OrderStatus
  pub client_id : String
  pub creation_time : ℕ
  pub update_time : ℕ
  pub parent_order_id : String
  pub limits : Option OrderLimits
  pub executions : List OrderExecution

pub record OrderBookLevel : Type 0 where
  pub price : ℕ
  pub quantity : ℤ
  pub order_count : ℕ

pub record OrderBook : Type 0 where
  pub symbol : String
  pub timestamp : ℕ
  pub bids : List OrderBookLevel
  pub asks : List OrderBookLevel

-- What `OrderPool.Put` leaves of an order, and `OrderPool.Get` finds in it.
unfoldable pub reset : Order → Order
reset o = record o {
  order_id = "";
  symbol = "";
  side = buy;
  order_type = market;
  quantity = 0;
  price = 0;
  time_in_force = gtc;
  status = new;
  client_id = "";
  creation_time = 0;
  update_time = 0;
  parent_order_id = "";
  limits = none;
  executions = [];
}

copy_limits : Option OrderLimits → Option OrderLimits
copy_limits none = none
copy_limits (some l) = some (record {
  max_quantity = l.max_quantity;
  max_notional = l.max_notional;
  max_price_deviation = l.max_price_deviation;
})

-- `DeepCopy`, as a value.
unfoldable pub deep_copy : Order → Order
unfolding copy_limits
deep_copy o = record {
  order_id = o.order_id;
  symbol = o.symbol;
  side = o.side;
  order_type = o.order_type;
  quantity = o.quantity;
  price = o.price;
  time_in_force = o.time_in_force;
  status = o.status;
  client_id = o.client_id;
  creation_time = o.creation_time;
  update_time = o.update_time;
  parent_order_id = o.parent_order_id;
  limits = copy_limits o.limits;
  executions = if ltb 0 (length o.executions) then o.executions else [];
}
