-- ===== src/OrderBook/Engine/Trades.antt =====
-- `processMarketOrder`, `processLimitOrder` and `AddOrder` of internal/orderbook/engine.go on a
-- well-formed engine: they run to their end, and what they have executed and booked.
use quant_finance_pipeline.Prelude.{
  ℕ, ◌+◌, ◌<◌, ◌≡◌, refl, sym, ap, subst, ◌∙◌, ◌⊎◌, inl, inr, String, Bool, true, false, List, [],
  ◌∷◌, Option, none, some, arith, Bool-cases, ◌==◌,
}
use text.Mathlib.Text.{◌==◌ as str_eq}
use quant_finance_pipeline.Models.Order.{
  Order, OrderExecution, OrderSide, buy, sell, OrderType, market, limit, stop, stop_limit,
  trailing_stop,
}
use quant_finance_pipeline.OrderBook.Level.Matching.{executed}
use quant_finance_pipeline.OrderBook.Settlement.{settle_market}
use quant_finance_pipeline.OrderBook.Engine.{BookTree, MatchingEngine, order_matched, order_added}
use quant_finance_pipeline.OrderBook.Engine.Operations.{
  Answer, executed as answered, failed, wrong_symbol, unsupported_type, tree_of, opposite, crosses,
  absorb, write_order, stamp, process_order, process_market_order, process_limit_order,
  send_matches, record_processed, report, reported, add_checked, add_order,
}
use quant_finance_pipeline.OrderBook.Engine.Members.{All}
use quant_finance_pipeline.OrderBook.Engine.Side.{entries}
use quant_finance_pipeline.OrderBook.Engine.Invariant.{IsWell, same-IsWell, IsOpen, send_event-Sent}
use quant_finance_pipeline.OrderBook.Engine.Booking.{
  crosses-Falls, write_order-IsWell, take_from-Took,
}
use quant_finance_pipeline.OrderBook.Engine.Fills.{
  NothingCrosses, Rests, Rests-SameTerms, tree_of-absorb, closed-absorb, rest_in_book-Ok,
}

tree_of-write :
    (side : OrderSide) (p : ℕ) (f : Order → Order) (me : MatchingEngine)
    → tree_of side (write_order p f me) ≡ tree_of side me
tree_of-write buy p f me = refl
tree_of-write sell p f me = refl

settle_market-IsWell :
    (n p r : ℕ) (me : MatchingEngine) → IsWell n me → IsWell n (write_order p (settle_market r) me)
unfolding settle_market
settle_market-IsWell n p r me w = write_order-IsWell n p (settle_market r) me refl w

settled_quantity :
    (p r : ℕ) (me : MatchingEngine) → ((write_order p (settle_market r) me).orders p).quantity ≡ r
unfolding settle_market
settled_quantity p r me = let same : (p == p) ≡ true = ground arith in rw same refl

-- What a limit order has done: each execution is at a price that crosses its own, and either the
-- whole quantity is executed, or the rest is in the book and nothing more crosses.
pub record LimitTrade (n p : ℕ) (o : Order) (me' : MatchingEngine) (xs : List OrderExecution)
    : Type 0 where
  pub well : IsWell n me'
  pub crossing : All (λ (x : OrderExecution). crosses o.side o.price x.price ≡ true) xs
  pub amount : (executed xs ≡ o.quantity) ⊎ ((executed xs < o.quantity) × Rests p o me')

-- What a market order has done: its quantity is what it did not get, which is more than nothing only
-- where the other side is empty.
pub record MarketTrade (n p : ℕ) (o : Order) (me' : MatchingEngine) (xs : List OrderExecution)
    : Type 0 where
  pub well : IsWell n me'
  pub amount : executed xs + (me'.orders p).quantity ≡ o.quantity
  pub ends : ((me'.orders p).quantity ≡ 0) ⊎ (entries (tree_of (opposite o.side) me') ≡ [])

none_true : {A : Type 0} → (xs : List A) → All (λ x. true ≡ false) xs → xs ≡ []
none_true [] h = refl
none_true (x ∷ xs) h = cc

module _ (execution_id : ℕ → String) (now : ℕ) where
  -- On a well-formed engine, with an order whose pointer is one that the index may hold,
  -- processLimitOrder runs to its end, leaves a well-formed engine and does not touch whether it is
  -- closed; every execution is at a price that crosses the order's, and either the whole quantity is
  -- executed, or less and the order is in the index and nothing on the other side crosses its price.
  pub process_limit_order-LimitTrade :
      (n p : ℕ) (me : MatchingEngine)
      → p < n
      → IsWell n me
      → (me' : MatchingEngine) × (xs : List OrderExecution) × (process_limit_order execution_id now
            p me
          ≡ some (me', xs))
        × LimitTrade n p (me.orders p) me' xs
        × (me'.closed ≡ me.closed)
  process_limit_order-LimitTrade n p me lt w =
      let o = me.orders p in
      let (s, e, k) =
        take_from-Took execution_id now (opposite o.side) (crosses o.side o.price) o.quantity n me
          (crosses-Falls o.side o.price) w in
      let taken = absorb (opposite o.side) s me in
      let (side, price, id) = k.terms p in
      let clear : (s.remaining ≡ 0) ⊎ NothingCrosses (s.orders p).side (s.orders p).price taken =
        elim k.stops [
          | inl z ↦ inl z
          | inr c ↦ inr (
              subst (λ k. NothingCrosses (s.orders p).side k taken) (sym price)
                (subst (λ k. NothingCrosses k o.price taken) (sym side)
                  (rw (tree_of-absorb (opposite o.side) s me) c)))
        ] in
      let (me', e', w', r, c) = rest_in_book-Ok n p s.remaining taken lt clear k.well in
      (
        me',
        s.executions,
        unfold process_limit_order in rw (e, e') refl,
        record {
          well = w';
          crossing = k.crossing;
          amount = elim (Bool-cases (s.remaining == 0)) [
            | inl z ↦ inl (ground (arith, z, k.split))
            | inr left ↦ elim r [
              | inl z ↦ absurd (ground (arith, left))
              | inr rests ↦ inr (
                ground (arith, left, k.split),
                Rests-SameTerms p o (s.orders p) me' (k.terms p) rests,
              )
            ]
          ];
        },
        c ∙ closed-absorb (opposite o.side) s me,
      )

  -- On a well-formed engine the loop of processMarketOrder ends; what is executed and the quantity that
  -- is left on the order are the quantity asked for, and a quantity is left only where the other side
  -- is empty. The engine is well-formed again, and closed only if it was before.
  pub process_market_order-MarketTrade :
      (n p : ℕ) (me : MatchingEngine)
      → IsWell n me
      → (me' : MatchingEngine) × (xs : List OrderExecution) × (process_market_order execution_id now
            p me
          ≡ some (me', xs))
        × MarketTrade n p (me.orders p) me' xs
        × (me'.closed ≡ me.closed)
  process_market_order-MarketTrade n p me w =
      let o = me.orders p in
      let (s, e, k) =
        take_from-Took execution_id now (opposite o.side) (λ price. true) o.quantity n me
          (λ q b le f. cc) w in
      let taken = absorb (opposite o.side) s me in
      (
        write_order p (settle_market s.remaining) taken,
        s.executions,
        unfold process_market_order in rw e refl,
        record {
          well = settle_market-IsWell n p s.remaining taken k.well;
          amount = omega (arith, k.split, settled_quantity p s.remaining taken);
          ends = elim k.stops [
            | inl z ↦ inl (settled_quantity p s.remaining taken ∙ z)
            | inr c ↦ inr (
                ap (λ (t : BookTree). entries t)
                  (tree_of-write (opposite o.side) p (settle_market s.remaining) taken
                    ∙ tree_of-absorb (opposite o.side) s me)
                ∙ none_true (entries s.tree) c)
          ];
        },
        closed-absorb (opposite o.side) s me,
      )

  process_order-IsWell :
      (t : OrderType) (n p : ℕ) (me : MatchingEngine)
      → p < n
      → IsWell n me
      → (me' : MatchingEngine) × (r : Option (List OrderExecution)) × (process_order execution_id
            now t p me
          ≡ some (me', r))
        × IsWell n me'
        × (me'.closed ≡ me.closed)
  process_order-IsWell market n p me lt w =
      let (me', xs, e, k, c) = process_market_order-MarketTrade n p me w in
      (me', some xs, rw e refl, k.well, c)
  process_order-IsWell limit n p me lt w =
      let (me', xs, e, k, c) = process_limit_order-LimitTrade n p me lt w in
      (me', some xs, rw e refl, k.well, c)
  process_order-IsWell stop n p me lt w = (me, none, refl, w, refl)
  process_order-IsWell stop_limit n p me lt w = (me, none, refl, w, refl)
  process_order-IsWell trailing_stop n p me lt w = (me, none, refl, w, refl)

send_matches-IsOpen :
    (n p now : ℕ) (xs : List OrderExecution) (me : MatchingEngine)
    → IsOpen n me
    → (me' : MatchingEngine) × (send_matches p now xs me ≡ some me') × IsOpen n me'
unfolding send_matches
send_matches-IsOpen n p now [] me w = (me, refl, w)
send_matches-IsOpen n p now (x ∷ xs) me w =
    let (me1, e, s) = send_event-Sent n (order_matched p x now) me w in
    let (me2, e', w') = send_matches-IsOpen n p now xs me1 s.live in (me2, rw e e', w')

report-IsOpen :
    (n p now : ℕ) (xs : List OrderExecution) (me : MatchingEngine)
    → IsOpen n me
    → (me' : MatchingEngine) × (report p now xs me ≡ some me') × IsOpen n me'
unfolding report
report-IsOpen n p now xs me w =
    let me' = record_processed p xs me in
    let w' : IsOpen n me' = record {
      well = same-IsWell n me me' refl refl refl refl w.well;
      still_open = w.still_open;
    } in
    let (me1, e, s) = send_event-Sent n (order_added p now) me' w' in
    let (me2, e', w2) = send_matches-IsOpen n p now xs me1 s.live in (me2, rw e e', w2)

reported-IsOpen :
    (n p now : ℕ) (o : Option (List OrderExecution)) (me : MatchingEngine)
    → IsOpen n me
    → (r : MatchingEngine × Answer) × (reported p now o me ≡ some r) × IsOpen n r.0
unfolding reported
reported-IsOpen n p now none me w = ((me, failed unsupported_type), refl, w)
reported-IsOpen n p now (some xs) me w =
    let (me', e, w') = report-IsOpen n p now xs me w in ((me', answered xs), rw e refl, w')

module _ (execution_id : ℕ → String) (now : ℕ) where
  add_checked-IsOpen :
      (same : Bool) (id : String) (n p : ℕ) (me : MatchingEngine)
      → p < n
      → IsOpen n me
      → (r : MatchingEngine × Answer) × (add_checked execution_id now same id p me ≡ some r)
        × IsOpen n r.0
  unfolding add_checked
  add_checked-IsOpen false id n p me lt w = ((me, failed wrong_symbol), refl, w)
  add_checked-IsOpen true id n p me lt w =
      let (me', o, e, w', c) =
        process_order-IsWell execution_id now (me.orders p).order_type n p
          (write_order p (stamp id now) me) lt
          (write_order-IsWell n p (stamp id now) me refl w.well) in
      let (r, e', w2) =
        reported-IsOpen n p now o me' (record { well = w'; still_open = c ∙ w.still_open }) in
      (r, rw e e', w2)

  -- The call runs to its end.
  pub add_order-IsOpen :
      (id : String) (n p : ℕ) (me : MatchingEngine)
      → p < n
      → IsOpen n me
      → (r : MatchingEngine × Answer) × (add_order execution_id now id p me ≡ some r) × IsOpen n r.0
  unfolding add_order
  add_order-IsOpen id n p me lt w =
      add_checked-IsOpen (str_eq (me.orders p).symbol me.symbol) id n p me lt w
