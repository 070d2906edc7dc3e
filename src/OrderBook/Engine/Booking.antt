-- ===== src/OrderBook/Engine/Booking.antt =====
-- What an order takes and where it goes in internal/orderbook/engine.go: each step runs to its end and
-- leaves a well-formed engine.
use quant_finance_pipeline.Prelude.{
  ℕ, ◌+◌, ◌<◌, ◌≡◌, refl, sym, ap, ◌∙◌, ◌⊎◌, inl, inr, String, Bool, true, false, some, arith,
  Bool-cases, ◌==◌,
}
use text.Mathlib.TextEquality.{eq_iff}
use quant_finance_pipeline.Models.Order.{Order, OrderExecution, OrderSide, buy, sell}
use quant_finance_pipeline.OrderBook.Entries.{put}
use quant_finance_pipeline.OrderBook.Level.{Orders, store, Element}
use quant_finance_pipeline.OrderBook.Level.Matching.{executed}
use quant_finance_pipeline.OrderBook.Level.Splitting.{KeepsTerms}
use quant_finance_pipeline.OrderBook.Engine.{MatchingEngine, Swept}
use quant_finance_pipeline.OrderBook.Engine.Operations.{
  tree_of, opposite, crosses, add_to_side, absorb, write_order, take_from, booked,
}
use quant_finance_pipeline.OrderBook.Engine.Cancellation.{get_order}
use quant_finance_pipeline.OrderBook.Engine.Members.{All, All-map, All-put, NoBetter}
use quant_finance_pipeline.OrderBook.Engine.Side.{entries, enqueue-IsBook}
use quant_finance_pipeline.OrderBook.Engine.Sweep.{sweep-rounds-Ok}
use quant_finance_pipeline.OrderBook.Engine.Invariant.{
  is_bid_side, Indexed, IsWell, All-flip, All-erase, Indexed-sides, orders-IsWell,
}

-- A price test that, where it refuses a price, refuses the worse ones of that side.
abbrev pub Falls : OrderSide → (ℕ → Bool) → Type 0
Falls side test = (k b : ℕ) → NoBetter (is_bid_side side) k b → test b ≡ false → test k ≡ false

pub crosses-Falls : (side : OrderSide) (price : ℕ) → Falls (opposite side) (crosses side price)
crosses-Falls buy price k b le f = ground arith
crosses-Falls sell price k b le f = ground arith

pub side-store :
    (h : Orders) (q : ℕ) (o : Order)
    → o.side ≡ (h q).side
    → (p : ℕ) → (store h q o p).side ≡ (h p).side
side-store h q o s p = elim (Bool-cases (p == q)) [
  | inl same ↦ let e : p ≡ q = ground arith in rw same (s ∙ ap (λ p. (h p).side) (sym e))
  | inr other ↦ rw other refl
]

pub write_order-IsWell :
    (n p : ℕ) (f : Order → Order) (me : MatchingEngine)
    → (f (me.orders p)).side ≡ (me.orders p).side
    → IsWell n me
    → IsWell n (write_order p f me)
write_order-IsWell n p f me s =
    orders-IsWell n (store me.orders p (f (me.orders p))) me
      (side-store me.orders p (f (me.orders p)) s)

-- What an order takes from the tree of a side.
pub record Took (side : OrderSide) (test : ℕ → Bool) (quantity n : ℕ) (me : MatchingEngine)
    (s : Swept) : Type 0 where
  pub well : IsWell n (absorb side s me)
  pub split : executed s.executions + s.remaining ≡ quantity
  pub crossing : All (λ (x : OrderExecution). test x.price ≡ true) s.executions
  pub stops : (s.remaining ≡ 0) ⊎ All (λ x. test x.0 ≡ false) (entries s.tree)
  pub terms : KeepsTerms me.orders s.orders

module _ (execution_id : ℕ → String) (now : ℕ) where
  pub take_from-Took :
      (side : OrderSide) (test : ℕ → Bool) (quantity n : ℕ) (me : MatchingEngine)
      → Falls side test
      → IsWell n me
      → (s : Swept) × (take_from execution_id now side test quantity me
          ≡ some (absorb side s me, s))
        × Took side test quantity n me s
  unfolding take_from
  take_from-Took buy test quantity n me f w =
      let Q : ℕ × ℕ → Type 0 = λ b. All (λ a. b.0 < a.0) (entries me.ask_tree) in
      let (s, e, k) =
        sweep-rounds-Ok execution_id now test true f Q me.bid_tree me.orders me.next_execution
          quantity w.bids in
      (
        s,
        rw e refl,
        record {
          well = record {
            bids = k.book;
            asks = w.asks;
            uncrossed = k.kept w.uncrossed;
            indexed =
                Indexed-sides n me.orders s.orders me.order_index (λ p. (k.terms p).0) w.indexed;
          };
          split = k.split;
          crossing = k.crossing;
          stops = k.stops;
          terms = k.terms;
        },
      )
  take_from-Took sell test quantity n me f w =
      let Q : ℕ × ℕ → Type 0 = λ a. All (λ b. b.0 < a.0) (entries me.bid_tree) in
      let (s, e, k) =
        sweep-rounds-Ok execution_id now test false f Q me.ask_tree me.orders me.next_execution
          quantity w.asks in
      (
        s,
        rw e refl,
        record {
          well = record {
            bids = w.bids;
            asks = k.book;
            uncrossed =
                All-flip (λ (a : ℕ × ℕ) (b : ℕ × ℕ). b.0 < a.0) (entries s.tree)
                  (entries me.bid_tree)
                  (k.kept (
                    All-flip (λ (b : ℕ × ℕ) (a : ℕ × ℕ). b.0 < a.0) (entries me.bid_tree)
                      (entries me.ask_tree) w.uncrossed));
            indexed =
                Indexed-sides n me.orders s.orders me.order_index (λ p. (k.terms p).0) w.indexed;
          };
          split = k.split;
          crossing = k.crossing;
          stops = k.stops;
          terms = k.terms;
        },
      )

-- An order goes in where it crosses nothing of the other side.
pub add_to_side-IsWell :
    (side : OrderSide) (n p : ℕ) (me : MatchingEngine)
    → (me.orders p).side ≡ side
    → p < n
    → All (λ x. crosses side (me.orders p).price x.0 ≡ false) (entries (tree_of (opposite side) me))
    → IsWell n me
    → (me' : MatchingEngine) × (add_to_side side p me ≡ some me')
      × IsWell n me'
      × (me'.orders ≡ me.orders)
      × (get_order (me.orders p).order_id me' ≡ some p)
      × (tree_of (opposite side) me' ≡ tree_of (opposite side) me)
      × (me'.closed ≡ me.closed)
unfolding add_to_side get_order
add_to_side-IsWell buy n p me s lt clear w =
    let e : Element = record { id = me.next_element; order = p } in
    let ((tree, level), i, k) =
      enqueue-IsBook true me.orders (me.orders p).price e me.bid_tree w.bids in
    (
      booked buy p e (tree, level) me,
      rw i refl,
      record {
        bids = k.book;
        asks = w.asks;
        uncrossed = rw k.put_in (
            All-put (λ b. All (λ a. b.0 < a.0) (entries me.ask_tree)) (me.orders p).price
              me.bid_tree.next_level (entries me.bid_tree)
              (All-map _ (λ a. (me.orders p).price < a.0) (λ a h. ground (arith, h))
                (entries me.ask_tree) clear)
              w.uncrossed);
        indexed = (
          (s, lt),
          All-erase (Indexed n me.orders) (me.orders p).order_id me.order_index w.indexed,
        );
      },
      refl,
      ground (arith, eq_iff (me.orders p).order_id (me.orders p).order_id),
      refl,
      refl,
    )
add_to_side-IsWell sell n p me s lt clear w =
    let e : Element = record { id = me.next_element; order = p } in
    let ((tree, level), i, k) =
      enqueue-IsBook false me.orders (me.orders p).price e me.ask_tree w.asks in
    (
      booked sell p e (tree, level) me,
      rw i refl,
      record {
        bids = w.bids;
        asks = k.book;
        uncrossed = rw k.put_in (
            All-flip (λ (a : ℕ × ℕ) (b : ℕ × ℕ). b.0 < a.0)
              (put (me.orders p).price me.ask_tree.next_level (entries me.ask_tree))
              (entries me.bid_tree)
              (All-put (λ a. All (λ b. b.0 < a.0) (entries me.bid_tree)) (me.orders p).price
                me.ask_tree.next_level (entries me.ask_tree)
                (All-map _ (λ b. b.0 < (me.orders p).price) (λ b h. ground (arith, h))
                  (entries me.bid_tree) clear)
                (All-flip (λ (b : ℕ × ℕ) (a : ℕ × ℕ). b.0 < a.0) (entries me.bid_tree)
                  (entries me.ask_tree) w.uncrossed)));
        indexed = (
          (s, lt),
          All-erase (Indexed n me.orders) (me.orders p).order_id me.order_index w.indexed,
        );
      },
      refl,
      ground (arith, eq_iff (me.orders p).order_id (me.orders p).order_id),
      refl,
      refl,
    )
