-- ===== src/OrderBook/Engine/Fills.antt =====
-- `processMarketOrder`, `processLimitOrder` and `AddOrder` of internal/orderbook/engine.go on a
-- well-formed engine: they run to their end, and what they have executed and booked.
use quant_finance_pipeline.Prelude.{
  ℕ, ◌<◌, ◌≡◌, refl, sym, ap, subst, ◌⊎◌, inl, inr, Bool, true, false, some, arith, ltb, ◌>>=◌,
  ◌==◌,
}
use quant_finance_pipeline.Models.Order.{Order, OrderSide, buy, sell}
use quant_finance_pipeline.OrderBook.Level.{Orders, store}
use quant_finance_pipeline.OrderBook.Settlement.{keep_remaining, limit_status}
use quant_finance_pipeline.OrderBook.Engine.{MatchingEngine, Swept}
use quant_finance_pipeline.OrderBook.Engine.Operations.{
  tree_of, opposite, crosses, add_to_book, absorb, write_order, book_rest, rest_in_book,
}
use quant_finance_pipeline.OrderBook.Engine.Cancellation.{get_order}
use quant_finance_pipeline.OrderBook.Engine.Members.{All}
use quant_finance_pipeline.OrderBook.Engine.Side.{entries}
use quant_finance_pipeline.OrderBook.Engine.Invariant.{IsWell}
use quant_finance_pipeline.OrderBook.Engine.Booking.{write_order-IsWell, add_to_side-IsWell}

-- Nothing on the other side of the book crosses.
abbrev pub NothingCrosses : OrderSide → ℕ → MatchingEngine → Type 0
NothingCrosses side price me =
    All (λ x. crosses side price x.0 ≡ false) (entries (tree_of (opposite side) me))

-- An order is in the index, and crosses nothing.
abbrev pub Rests : ℕ → Order → MatchingEngine → Type 0
Rests p o me = NothingCrosses o.side o.price me × (get_order o.order_id me ≡ some p)

pub tree_of-absorb :
    (side : OrderSide) (s : Swept) (me : MatchingEngine) → tree_of side (absorb side s me) ≡ s.tree
tree_of-absorb buy s me = refl
tree_of-absorb sell s me = refl

pub closed-absorb :
    (side : OrderSide) (s : Swept) (me : MatchingEngine) → (absorb side s me).closed ≡ me.closed
closed-absorb buy s me = refl
closed-absorb sell s me = refl

-- The terms by which an order is found and matched.
abbrev pub SameTerms : Order → Order → Type 0
SameTerms o o' = (o'.side ≡ o.side) × (o'.price ≡ o.price) × (o'.order_id ≡ o.order_id)

pub Rests-SameTerms :
    (p : ℕ) (o o' : Order) (me : MatchingEngine) → SameTerms o o' → Rests p o' me → Rests p o me
Rests-SameTerms p o o' me (s, t, i) h =
    subst (λ id. NothingCrosses o.side o.price me × (get_order id me ≡ some p)) i
      (subst (λ k. NothingCrosses o.side k me × (get_order o'.order_id me ≡ some p)) t
        (subst (λ k. NothingCrosses k o'.price me × (get_order o'.order_id me ≡ some p)) s h))

store-terms : (h : Orders) (p : ℕ) (o : Order) → SameTerms (h p) o → SameTerms (h p) (store h p o p)
store-terms h p o t = let same : (p == p) ≡ true = ground arith in rw same t

keep_remaining-terms : (r : ℕ) (o : Order) → SameTerms o (keep_remaining r o)
unfolding keep_remaining
keep_remaining-terms r o = ground arith

NothingCrosses-write :
    (side : OrderSide) (price p : ℕ) (f : Order → Order) (me : MatchingEngine)
    → NothingCrosses side price me
    → NothingCrosses side price (write_order p f me)
NothingCrosses-write buy price p f me h = h
NothingCrosses-write sell price p f me h = h

limit_status-IsWell :
    (n p r : ℕ) (me : MatchingEngine) → IsWell n me → IsWell n (write_order p (limit_status r) me)
unfolding limit_status
limit_status-IsWell n p r me w = write_order-IsWell n p (limit_status r) me refl w

Rests-write :
    (p q : ℕ) (o : Order) (f : Order → Order) (me : MatchingEngine)
    → Rests p o me
    → Rests p o (write_order q f me)
unfolding get_order
Rests-write p q o f me (c, g) = (NothingCrosses-write o.side o.price q f me c, g)

add_to_book-Rests :
    (n p : ℕ) (me : MatchingEngine)
    → p < n
    → NothingCrosses (me.orders p).side (me.orders p).price me
    → IsWell n me
    → (me' : MatchingEngine) × (add_to_book p me ≡ some me')
      × IsWell n me'
      × Rests p (me.orders p) me'
      × (me'.closed ≡ me.closed)
unfolding add_to_book
add_to_book-Rests n p me lt clear w =
    let (me', e, w', h, g, t, c) = add_to_side-IsWell (me.orders p).side n p me refl lt clear w in
    (me', e, w', (rw t clear, g), c)

book_rest-Rests :
    (left : Bool) (n p : ℕ) (me : MatchingEngine)
    → p < n
    → (left ≡ false) ⊎ NothingCrosses (me.orders p).side (me.orders p).price me
    → IsWell n me
    → (me' : MatchingEngine) × (book_rest left p me ≡ some me')
      × IsWell n me'
      × ((left ≡ false) ⊎ Rests p (me.orders p) me')
      × (me'.closed ≡ me.closed)
unfolding book_rest
book_rest-Rests false n p me lt clear w = (me, refl, w, inl refl, refl)
book_rest-Rests true n p me lt (inl f) w = cc
book_rest-Rests true n p me lt (inr clear) w =
    let (me', e, w', r, c) = add_to_book-Rests n p me lt clear w in (me', e, w', inr r, c)

pub rest_in_book-Ok :
    (n p remaining : ℕ) (me : MatchingEngine)
    → p < n
    → (remaining ≡ 0) ⊎ NothingCrosses (me.orders p).side (me.orders p).price me
    → IsWell n me
    → (me' : MatchingEngine) × (rest_in_book p remaining me ≡ some me')
      × IsWell n me'
      × ((remaining ≡ 0) ⊎ Rests p (me.orders p) me')
      × (me'.closed ≡ me.closed)
rest_in_book-Ok n p remaining me lt clear w =
    let (me', e, w', r, c) = book_rest-Rests (ltb 0 remaining) n p kept lt kept_clear kept-IsWell in
    (
      write_order p (limit_status remaining) me',
      unfold rest_in_book in
          ap (λ o. o >>= (λ held. some (write_order p (limit_status remaining) held))) e,
      limit_status-IsWell n p remaining me' w',
      elim r [
        | inl nothing ↦ inl (ground arith)
        | inr rests ↦ inr (
            Rests-write p p (me.orders p) (limit_status remaining) me'
              (Rests-SameTerms p (me.orders p) (kept.orders p) me' kept_terms rests))
      ],
      c,
    )
  where
    kept : MatchingEngine
    kept = write_order p (keep_remaining remaining) me

    kept_terms : SameTerms (me.orders p) (kept.orders p)
    kept_terms =
        store-terms me.orders p (keep_remaining remaining (me.orders p))
          (keep_remaining-terms remaining (me.orders p))

    kept-IsWell : IsWell n kept
    kept-IsWell =
        let (s, _, _) = keep_remaining-terms remaining (me.orders p) in
        write_order-IsWell n p (keep_remaining remaining) me s w

    kept_clear :
        (ltb 0 remaining ≡ false) ⊎ NothingCrosses (kept.orders p).side (kept.orders p).price kept
    kept_clear = elim clear [
      | inl z ↦ inl (ground arith)
      | inr c ↦
          let (s, t, _) = kept_terms in
          inr (
            subst (λ k. NothingCrosses (kept.orders p).side k kept) (sym t)
              (subst (λ k. NothingCrosses k (me.orders p).price kept) (sym s)
                (NothingCrosses-write (me.orders p).side (me.orders p).price p
                  (keep_remaining remaining) me c)))
    ]
