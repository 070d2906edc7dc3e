-- ===== src/OrderBook/Engine/Invariant.antt =====
-- What is well-formed of the matching engine of internal/orderbook/engine.go, and the writes to
-- its orders and its index that keep it so.
use quant_finance_pipeline.Prelude.{
  ℕ, suc, ◌<◌, ◌≡◌, sym, refl, ◌∙◌, inl, inr, String, Bool, true, false, List, [], ◌∷◌, some, arith,
  Bool-cases, ◌==◌,
}
use text.Mathlib.Text.{◌==◌ as str_eq}
use quant_finance_pipeline.Prelude.Dict.{lookup, erase}
use quant_finance_pipeline.Models.Order.{Order, OrderSide, buy, sell}
use quant_finance_pipeline.OrderBook.Level.{Orders, store}
use quant_finance_pipeline.OrderBook.Engine.{
  OrderEntry, MatchingEngine, OrderBookEvent, send_event, buffered,
}
use quant_finance_pipeline.OrderBook.Engine.Operations.{write_order}
use quant_finance_pipeline.OrderBook.Engine.Members.{All, All-map}
use quant_finance_pipeline.OrderBook.Engine.Side.{entries, IsBook}

abbrev pub is_bid_side : OrderSide → Bool
is_bid_side buy = true
is_bid_side sell = false

-- Every entry of the first list is below every entry of the second.
abbrev pub Uncrossed : List (ℕ × ℕ) → List (ℕ × ℕ) → Type 0
Uncrossed bids asks = All (λ b. All (λ a. b.0 < a.0) asks) bids

-- An entry of the index is of the side of its order, at a pointer below `n`.
abbrev pub Indexed : ℕ → Orders → String × OrderEntry → Type 0
Indexed n orders x = ((orders x.1.order).side ≡ x.1.side) × (x.1.order < n)

pub record IsWell (n : ℕ) (me : MatchingEngine) : Type 0 where
  pub bids : IsBook true me.bid_tree
  pub asks : IsBook false me.ask_tree
  pub uncrossed : Uncrossed (entries me.bid_tree) (entries me.ask_tree)
  pub indexed : All (Indexed n me.orders) me.order_index

pub All-flip {ℓ κ μ} :
    {A : Type ℓ} {B : Type κ} (R : A → B → Type μ) (xs : List A) (ys : List B)
    → All (λ x. All (R x) ys) xs
    → All (λ y. All (λ x. R x y) xs) ys
All-flip R xs [] h = tt
All-flip R xs (y ∷ ys) h = (
  All-map (λ x. All (R x) (y ∷ ys)) (λ x. R x y) (λ x g. g.0) xs h,
  All-flip R xs ys (All-map (λ x. All (R x) (y ∷ ys)) (λ x. All (R x) ys) (λ x g. g.1) xs h),
)

module _ {ℓ κ} {V : Type ℓ} where
  pub All-erase :
      (P : String × V → Type κ) (k : String) (m : List (String × V)) → All P m → All P (erase k m)
  All-erase P k [] h = tt
  All-erase P k ((j, v) ∷ m) h = elim (Bool-cases (str_eq j k)) [
    | inl e ↦ rw e (All-erase P k m h.1)
    | inr ne ↦ rw ne (h.0, All-erase P k m h.1)
  ]

  -- What holds of all entries holds of the one that is found.
  pub All-lookup :
      (P : V → Type κ) (k : String) (m : List (String × V)) (v : V)
      → lookup k m ≡ some v
      → All (λ x. P x.1) m
      → P v
  All-lookup P k [] v e h = cc
  All-lookup P k ((j, w) ∷ m) v e h = elim (Bool-cases (str_eq j k)) [
    | inl same ↦ let d : w ≡ v = ground (arith, same, e) in rw (sym d) h.0
    | inr other ↦ All-lookup P k m v (ground (arith, other, e)) h.1
  ]

pub Indexed-sides :
    (n : ℕ) (h h' : Orders) (index : List (String × OrderEntry))
    → ((p : ℕ) → (h' p).side ≡ (h p).side)
    → All (Indexed n h) index
    → All (Indexed n h') index
Indexed-sides n h h' index t =
    All-map (Indexed n h) (Indexed n h') (λ x i. (t x.1.order ∙ i.0, i.1)) index

Indexed-fresh :
    (n : ℕ) (h : Orders) (o : Order) (index : List (String × OrderEntry))
    → All (Indexed n h) index
    → All (Indexed (suc n) (store h n o)) index
Indexed-fresh n h o index =
    All-map (Indexed n h) (Indexed (suc n) (store h n o))
      (λ x i. elim (Bool-cases (x.1.order == n)) [
        | inl same ↦ absurd (ground arith)
        | inr other ↦ (rw other i.0, omega arith)
      ])
      index

pub later-IsWell : (n : ℕ) (me : MatchingEngine) → IsWell n me → IsWell (suc n) me
later-IsWell n me w = record {
  bids = w.bids;
  asks = w.asks;
  uncrossed = w.uncrossed;
  indexed =
      All-map (Indexed n me.orders) (Indexed (suc n) me.orders) (λ x i. (i.0, omega arith))
        me.order_index w.indexed;
}

-- A new order at a pointer that none has used.
pub fresh-IsWell :
    (n : ℕ) (o : Order) (me : MatchingEngine)
    → IsWell n me
    → IsWell (suc n) (write_order n (λ _. o) me)
fresh-IsWell n o me w = record {
  bids = w.bids;
  asks = w.asks;
  uncrossed = w.uncrossed;
  indexed = Indexed-fresh n me.orders o me.order_index w.indexed;
}

-- Orders that keep their sides.
pub orders-IsWell :
    (n : ℕ) (h : Orders) (me : MatchingEngine)
    → ((p : ℕ) → (h p).side ≡ (me.orders p).side)
    → IsWell n me
    → IsWell n (record me { orders = h })
orders-IsWell n h me t w = record {
  bids = w.bids;
  asks = w.asks;
  uncrossed = w.uncrossed;
  indexed = Indexed-sides n me.orders h me.order_index t w.indexed;
}

-- An engine with the same trees, orders and index.
pub same-IsWell :
    (n : ℕ) (me me' : MatchingEngine)
    → me'.bid_tree ≡ me.bid_tree
    → me'.ask_tree ≡ me.ask_tree
    → me'.orders ≡ me.orders
    → me'.order_index ≡ me.order_index
    → IsWell n me
    → IsWell n me'
same-IsWell n me me' b a o i w = record {
  bids = rw b w.bids;
  asks = rw a w.asks;
  uncrossed = rw (b, a) w.uncrossed;
  indexed = rw (o, i) w.indexed;
}

-- A well-formed engine that is not closed.
pub record IsOpen (n : ℕ) (me : MatchingEngine) : Type 0 where
  pub well : IsWell n me
  pub still_open : me.closed ≡ false

pub later-IsOpen : (n : ℕ) (me : MatchingEngine) → IsOpen n me → IsOpen (suc n) me
later-IsOpen n me w = record { well = later-IsWell n me w.well; still_open = w.still_open }

pub fresh-IsOpen :
    (n : ℕ) (o : Order) (me : MatchingEngine)
    → IsOpen n me
    → IsOpen (suc n) (write_order n (λ _. o) me)
fresh-IsOpen n o me w = record { well = fresh-IsWell n o me w.well; still_open = w.still_open }

-- What a send keeps.
pub record Sent (n : ℕ) (me me' : MatchingEngine) : Type 0 where
  pub live : IsOpen n me'
  pub orders : me'.orders ≡ me.orders
  pub index : me'.order_index ≡ me.order_index

pub send_event-Sent :
    (n : ℕ) (x : OrderBookEvent) (me : MatchingEngine)
    → IsOpen n me
    → (me' : MatchingEngine) × (send_event x me ≡ some me') × Sent n me me'
unfolding send_event
send_event-Sent n x me w = (
  buffered x me,
  rw w.still_open refl,
  record {
    live = record {
      well =
          same-IsWell n me (buffered x me) (ground arith) (ground arith) (ground arith)
            (ground arith) w.well;
      still_open = (ground arith) ∙ w.still_open;
    };
    orders = ground arith;
    index = ground arith;
  },
)
