-- ===== src/OrderBook.antt =====
-- The order book: internal/orderbook.
pub mod Entries
pub mod Level
pub mod RbTree
pub mod Settlement
pub mod Engine
mod Examples
