-- ===== src/Lib.antt =====
-- A verification library for quant-finance-pipeline, a Go system that reads market data, matches
-- orders, computes risk and serves the results.
--
-- The parts modelled here, and where their code is:
--
-- - Models/Order.antt: the order types of pkg/models/order.go, with `OrderPool.Put` (`reset`) and
--   `DeepCopy`.
-- - OrderBook/RbTree.antt and its children: `RedBlackTree` of internal/orderbook/rbtree.go. RbTree has
--   the nodes, the rotations, `searchNode` and `Insert`; Removal has `Delete` with `deleteFixup`; Walk
--   has `GetBest`, `GetLevels`, `successor`, `predecessor` and `Size`. The tree maps prices to levels:
--   OrderBook/Entries.antt has that map as a list sorted by price.
-- - OrderBook/Level.antt and its children: `PriceLevel` of internal/orderbook/tree.go, the queue of the
--   orders at one price, with `AddOrder`, `RemoveOrder` and `MatchQuantity`.
-- - OrderBook/Settlement.antt: the status and quantity that `processMarketOrder` and `processLimitOrder`
--   of internal/orderbook/engine.go give an order behind their loops.
-- - OrderBook/Engine.antt and its children: `MatchingEngine` of internal/orderbook/engine.go. Engine has
--   the state and the matching loop (`round`, `sweep`), Operations `AddOrder` and what it calls,
--   Cancellation `CancelOrder`, `ModifyOrder` and `GetOrder`, Views `GetSnapshot` and `GetMarketDepth`.
--   The proofs are in Members, Side and Sweep (one tree), Invariant, Booking, Unlinking, Fills and
--   Trades (one call), Run (any calls), Closed (calls after `Close`) and Shown (the views).
-- - Circuit.antt and its children: pkg/utils/circuit/breaker.go, the circuit breaker and the manager of
--   breakers by name (Circuit/Manager.antt), with proofs in Invariant and Traces (critical sections) and
--   Sequences (whole calls of `Execute`, one after another).
-- - Limiter.antt and its children: pkg/utils/backpressure/rate_limiter.go, the token bucket, the sliding
--   window, the adaptive limiter and the manager of limiters; Limiter/Locks.antt has the lock calls of
--   the token bucket.
-- - Backpressure.antt and its children: pkg/utils/backpressure/controller.go, the controller with its
--   four strategies (Controller.antt), its runs (Flow.antt), the adaptive interval and the manager.
-- - Hub.antt and its children: internal/websocket/hub.go. Hub has the clients, their channels and the
--   broadcasts, Sets the maps that stand for sets, Messages what a client asks for and what the hub
--   sends; Sound and Subscriptions have the invariant, Runs any sequence of steps, Delivery and
--   Leaving what becomes of clients.
-- - Models/Market.antt: the types and `DeepCopy` of pkg/models/market.go. Market.antt and its children:
--   `DataManager` of internal/market/data.go, the data by symbol and the derivatives by underlying, with
--   proofs in Derivatives, Updates and Indexed; Market/Texts.antt has the lists of symbols,
--   Market/Books.antt `BookManager`.
--   Market/Processor.antt has `EnhancedProcessor` of internal/market/enhanced_processor.go, which makes a
--   matching engine for each symbol and closes them in `Stop`; Market/Served.antt is about any calls of it.
--
-- The matching engine holds two trees of price levels, one a side, and the orders in their queues; a
-- level and the engine share orders by pointer, which is why a level works on a store of orders. The
-- engine names a level by a number that it keeps when the tree has dropped it. The enhanced processor owns
-- the engines by symbol, and answers the websocket hub. The managers own the breakers, limiters and
-- controllers by name, and hand the same one to every caller.
--
-- How the code is read:
--
-- - Prices are numbers of ticks and quantities numbers of lots: the float64 values that are multiples
--   of the tick or the lot, not negative, and exact under the sums. The tree only compares prices. The
--   volume of a level is a signed number, since the code subtracts without a test.
-- - Times are nanoseconds, rates and loads thousandths. Where float64 has a fraction that this cuts,
--   the file says so.
-- - A mutex makes an operation atomic, and an operation takes the time that `time.Now` gives in it. An
--   operation that lets go of a lock in the middle has the state that it finds later as an argument.
-- - Nodes are values. The `Parent` pointers of the tree are the path from a node to the root, so a
--   write through one gives a new frame. `none` is a panic, a read through the sentinel's own children.
-- - `deleteFixup` has fuel, two more than the length of the path above the node, and the loop of
--   `GetLevels` one more round than the tree has levels; both are shown to be enough by the theorems
--   on `delete` and `get_levels`, which give a result.
-- - The loops of the engine over the opposite tree have one more round than that tree has levels; the
--   theorems give a result, so that is enough. Its event channel holds 1000 events, of which none is taken
--   off, until `Close` closes it: a send and a second `Close` are then a panic, `none`. `ModifyOrder` runs
--   with no call between its critical sections. The caller of `AddOrder` makes a fresh order for each
--   call.
-- - A goroutine's work on one message is one step of the hub; JSON, the sockets and the order book
--   service of the hub are parameters, with nothing assumed of them.
-- - The number asked of a token bucket or a sliding window is signed, since the code does not test it.
-- - Execution identifiers and the time are parameters of `MatchQuantity`. The function that a breaker
--   wraps is any outcome, a panic included, and `IsSuccessful` any test.
--
-- Not modelled: logging, the text that `Print` writes, the statistics as maps of any values, integers
-- beyond their 64 bits, races of the hub's goroutines within one message, and the parts of the repository
-- that have no file here: the aggregation of market data, risk, Kafka, the HTTP interface, metrics and
-- configuration.
pub mod Prelude
pub mod Models
pub mod OrderBook
pub mod Circuit
pub mod Limiter
pub mod Backpressure
pub mod Hub
pub mod Market
