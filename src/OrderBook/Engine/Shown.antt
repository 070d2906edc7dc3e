-- ===== src/OrderBook/Engine/Shown.antt =====
-- What `GetSnapshot` and `GetMarketDepth` of internal/orderbook/engine.go show of a well-formed engine.
use mathlib.Core.List.{reverse-cons}
use quant_finance_pipeline.Prelude.{
  ℕ, zero, suc, ◌+◌, ◌-◌, ◌<◌, ◌≡◌, refl, sym, ap, ap₂, subst, ◌∙◌, Bool, true, false, List, [],
  ◌∷◌, map, reverse, take, arith,
}
use quant_finance_pipeline.Prelude.Int.{pos}
use quant_finance_pipeline.Models.Order.{OrderBookLevel}
use quant_finance_pipeline.OrderBook.RbTree.Walking.{book_order, live, get_levels-eq-take}
use quant_finance_pipeline.OrderBook.Level.{PriceLevel, is_empty}
use quant_finance_pipeline.OrderBook.Engine.{BookTree, Levels, MatchingEngine}
use quant_finance_pipeline.OrderBook.Engine.Views.{
  levels_of, book_level, get_snapshot, MarketDepth, quote, market_depth,
}
use quant_finance_pipeline.OrderBook.Engine.Members.{All, All-append, All-map}
use quant_finance_pipeline.OrderBook.Engine.Side.{entries, EntryOk, IsBook}
use quant_finance_pipeline.OrderBook.Engine.Invariant.{IsWell}

-- The prices of a side, the best one first.
abbrev pub prices : Bool → BookTree → List ℕ
prices is_bid tree = map (λ x. x.0) (book_order is_bid tree.root)

All-reverse {ℓ κ} : {A : Type ℓ} (P : A → Type κ) (xs : List A) → All P xs → All P (reverse xs)
All-reverse P [] h = tt
All-reverse P (x ∷ xs) h =
    rw (reverse-cons x xs) (All-append P (reverse xs) (x ∷ []) (All-reverse P xs h.1) (h.0, tt))

All-take {ℓ κ} : {A : Type ℓ} (P : A → Type κ) (k : ℕ) (xs : List A) → All P xs → All P (take k xs)
All-take P zero xs h = tt
All-take P (suc k) [] h = tt
All-take P (suc k) (x ∷ xs) h = (h.0, All-take P k xs h.1)

abbrev level_prices : List PriceLevel → List ℕ
level_prices ls = map (λ l. l.price) ls

-- A fact of two lists, of lists that are equal to them.
back : (P : List ℕ → List ℕ → Type 0) {xs ys us vs : List ℕ} → xs ≡ us → ys ≡ vs → P us vs → P xs ys
back P {ys = ys} {us = us} e f h = subst (λ ps. P ps ys) (sym e) (subst (P us) (sym f) h)

-- The prices of the levels that a walk shows: all, since each holds an order.
shown_prices :
    (levels : Levels) (next k : ℕ) (xs : List (ℕ × ℕ))
    → All (EntryOk levels next) xs
    → level_prices (map levels (take k (live (λ p. is_empty (levels p)) xs)))
      ≡ take k (map (λ x. x.0) xs)
shown_prices levels next zero xs h = refl
shown_prices levels next (suc k) [] h = refl
shown_prices levels next (suc k) ((j, p) ∷ xs) h =
    rw h.0.1 (ap₂ (λ a b. a ∷ b) h.0.0 (shown_prices levels next k xs h.1))

All-book_order :
    (is_bid : Bool) (tree : BookTree) (P : ℕ × ℕ → Type 0)
    → All P (entries tree)
    → All P (book_order is_bid tree.root)
All-book_order true tree P h = All-reverse P (entries tree) h
All-book_order false tree P h = h

levels_of-prices :
    (is_bid : Bool) (tree : BookTree) (k : ℕ)
    → IsBook is_bid tree
    → level_prices (levels_of k tree) ≡ take k (prices is_bid tree)
unfolding levels_of
levels_of-prices is_bid tree k b =
    ap (λ ps. level_prices (map tree.levels ps))
      (get_levels-eq-take (λ p. is_empty (tree.levels p)) tree.is_bid k tree.root
        ∙ ap (λ t. take k (live (λ p. is_empty (tree.levels p)) (book_order t tree.root))) b.kind)
    ∙ shown_prices tree.levels tree.next_level k (book_order is_bid tree.root)
        (All-book_order is_bid tree (EntryOk tree.levels tree.next_level) b.entries_ok)

map-fuse_price :
    (ls : List PriceLevel)
    → map (λ (b : OrderBookLevel). b.price) (map book_level ls) ≡ level_prices ls
map-fuse_price [] = refl
map-fuse_price (l ∷ ls) = ap (λ ps. l.price ∷ ps) (map-fuse_price ls)

All-prices : (P : ℕ → Type 0) (xs : List (ℕ × ℕ)) → All (λ x. P x.0) xs → All P (map (λ x. x.0) xs)
All-prices P [] h = tt
All-prices P (x ∷ xs) h = (h.0, All-prices P xs h.1)

-- Every price of the first list is below every price of the second.
abbrev pub BelowAll : List ℕ → List ℕ → Type 0
BelowAll bids asks = All (λ b. All (λ a. b < a) asks) bids

prices-BelowAll :
    (k m n : ℕ) (me : MatchingEngine)
    → IsWell n me
    → BelowAll (take k (prices true me.bid_tree)) (take m (prices false me.ask_tree))
prices-BelowAll k m n me w = All-take _ k (prices true me.bid_tree) (
    All-prices _ (book_order true me.bid_tree.root) (
      All-map (λ b. All (λ a. b.0 < a.0) (entries me.ask_tree)) _
        (λ b h.
          All-take _ m (prices false me.ask_tree)
            (All-prices (λ a. b.0 < a) (entries me.ask_tree) h))
        (book_order true me.bid_tree.root)
        (All-book_order true me.bid_tree (λ b. All (λ a. b.0 < a.0) (entries me.ask_tree))
          w.uncrossed)))

-- A snapshot of a well-formed engine shows the best prices of either side, the best first and as
-- many as there are up to the number asked for, and every bid that it shows is below every ask.
pub get_snapshot-prices :
    (now max_levels n : ℕ) (me : MatchingEngine)
    → IsWell n me
    → let s = get_snapshot now max_levels me in
      let bids = map (λ (l : OrderBookLevel). l.price) s.bids in
      let asks = map (λ (l : OrderBookLevel). l.price) s.asks in
      (bids ≡ take max_levels (prices true me.bid_tree))
      × (asks ≡ take max_levels (prices false me.ask_tree))
      × BelowAll bids asks
unfolding get_snapshot
get_snapshot-prices now k n me w =
    let bids =
      map-fuse_price (levels_of k me.bid_tree) ∙ levels_of-prices true me.bid_tree k w.bids in
    let asks =
      map-fuse_price (levels_of k me.ask_tree) ∙ levels_of-prices false me.ask_tree k w.asks in
    (bids, asks, back BelowAll bids asks (prices-BelowAll k k n me w))

-- The best prices of the depth, and the distance between them.
abbrev pub IsQuoted : MarketDepth → List ℕ → List ℕ → Type 0
IsQuoted d [] asks = d.spread ≡ pos 0
IsQuoted d (b ∷ bs) [] = d.spread ≡ pos 0
IsQuoted d (b ∷ bs) (a ∷ rest) =
    (d.best_bid ≡ b)
    × (d.best_ask ≡ a)
    × (b < a)
    × (d.spread ≡ pos (a - b))
    × (d.twice_mid_price ≡ a + b)

quote-IsQuoted :
    (bids asks : List PriceLevel) (d : MarketDepth)
    → d.spread ≡ pos 0
    → BelowAll (level_prices bids) (level_prices asks)
    → IsQuoted (quote bids asks d) (level_prices bids) (level_prices asks)
unfolding quote
quote-IsQuoted [] asks d z h = z
quote-IsQuoted (b ∷ bs) [] d z h = z
quote-IsQuoted (b ∷ bs) (a ∷ rest) d z h = (refl, refl, h.0.0, ground arith, omega arith)

-- The depth of a well-formed engine has the best bid and the best ask where both sides have one;
-- the spread is then their distance, which is not zero, and else it is zero.
pub market_depth-IsQuoted :
    (now n : ℕ) (me : MatchingEngine)
    → IsWell n me
    → IsQuoted
        (market_depth now me)
        (take 10 (prices true me.bid_tree))
        (take 10 (prices false me.ask_tree))
unfolding market_depth
market_depth-IsQuoted now n me w =
    let bids = levels_of-prices true me.bid_tree 10 w.bids in
    let asks = levels_of-prices false me.ask_tree 10 w.asks in
    back (IsQuoted (market_depth now me)) (sym bids) (sym asks) (
      quote-IsQuoted (levels_of 10 me.bid_tree) (levels_of 10 me.ask_tree) _ refl
        (back BelowAll bids asks (prices-BelowAll 10 10 n me w)))
