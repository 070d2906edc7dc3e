-- ===== src/OrderBook/Settlement.antt =====
-- internal/orderbook/engine.go: what `processMarketOrder` and `processLimitOrder` make of the order
-- itself once their loops have left a quantity that is not matched.
use quant_finance_pipeline.Prelude.{ℕ, ◌<◌, ◌≡◌, ◌⊎◌, ltb, ◌==◌, if◌then◌else◌, arith}
use quant_finance_pipeline.Models.Order.{Order, new, partially_filled, filled}

unfoldable pub settle_market : ℕ → Order → Order
settle_market remaining o =
    let status =
      if remaining == 0
      then filled
      else if ltb remaining o.quantity
      then partially_filled
      else o.status in
    record o { status = status; quantity = remaining }

-- A limit order's quantity is overwritten before it is compared with what remains.
unfoldable pub keep_remaining : ℕ → Order → Order
keep_remaining remaining o = if ltb 0 remaining then record o { quantity = remaining } else o

unfoldable pub limit_status : ℕ → Order → Order
limit_status remaining o =
    let status =
      if remaining == 0
      then filled
      else if ltb remaining o.quantity
      then partially_filled
      else new in
    record o { status = status }

-- Where less of an order remains than its quantity: if some remains, a market order becomes partially
-- filled, and a limit order is new; if nothing remains, both are filled, and the limit order alone
-- still shows its whole quantity.
pub settled_status :
    (remaining : ℕ) (o : Order)
    → remaining < o.quantity
    → let m = settle_market remaining o in
      let l = limit_status remaining (keep_remaining remaining o) in
      ((remaining ≡ 0)
        × (m.status ≡ filled)
        × (l.status ≡ filled)
        × (m.quantity ≡ 0)
        × (l.quantity ≡ o.quantity))
      ⊎ ((0 < remaining)
          × (m.status ≡ partially_filled)
          × (l.status ≡ new)
          × (m.quantity ≡ remaining)
          × (l.quantity ≡ remaining))
unfolding settle_market keep_remaining limit_status
settled_status remaining o lt = ground arith
