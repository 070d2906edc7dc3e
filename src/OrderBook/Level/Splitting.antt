-- ===== src/OrderBook/Level/Splitting.antt =====
-- `MatchQuantity` of internal/orderbook/tree.go on any queue, also one that names an order twice.
use quant_finance_pipeline.Prelude.{
  ℕ, ◌+◌, ◌-◌, ◌≡◌, refl, ◌⊎◌, inl, inr, String, List, [], ◌∷◌, arith, sym, ap, ◌∙◌, Bool-cases,
  ◌==◌,
}
use quant_finance_pipeline.Prelude.Int.{ℤ, pos, ◌-ℤ◌}
use quant_finance_pipeline.Models.Order.{Order}
use quant_finance_pipeline.OrderBook.Level.{
  store, execution, fill_full, fill_part, Orders, Element, PriceLevel, Match, match_loop,
  match_quantity,
}
use quant_finance_pipeline.OrderBook.Level.Matching.{executed, match_cases}
use quant_finance_pipeline.OrderBook.Level.Fifo.{AllAtPrice}

-- The orders keep their sides, prices and identifiers.
abbrev pub KeepsTerms : Orders → Orders → Type 0
KeepsTerms h h' =
    (p : ℕ)
    → ((h' p).side ≡ (h p).side) × ((h' p).price ≡ (h p).price) × ((h' p).order_id ≡ (h p).order_id)

pub KeepsTerms-trans : (h h1 h2 : Orders) → KeepsTerms h h1 → KeepsTerms h1 h2 → KeepsTerms h h2
KeepsTerms-trans h h1 h2 a b p = ((b p).0 ∙ (a p).0, (b p).1 ∙ (a p).1, (b p).2 ∙ (a p).2)

pub KeepsTerms-store :
    (h : Orders) (q : ℕ) (o : Order)
    → o.side ≡ (h q).side
    → o.price ≡ (h q).price
    → o.order_id ≡ (h q).order_id
    → KeepsTerms h (store h q o)
KeepsTerms-store h q o s t i p = elim (Bool-cases (p == q)) [
  | inl same ↦
      let e : p ≡ q = ground arith in
      rw same (
        s ∙ ap (λ p. (h p).side) (sym e),
        t ∙ ap (λ p. (h p).price) (sym e),
        i ∙ ap (λ p. (h p).order_id) (sym e),
      )
  | inr other ↦ rw other (refl, refl, refl)
]

-- The quantity is executed or remains, all of it at the level's price, and the pass ends with nothing
-- remaining or with nothing left in the queue.
pub record Splits (price q : ℕ) (h : Orders) (m : Match) : Type 0 where
  pub quantity_split : executed m.executions + m.remaining ≡ q
  pub at_price : AllAtPrice price m.executions
  pub terms : KeepsTerms h m.orders
  pub ends : (m.remaining ≡ 0) ⊎ (m.left ≡ [])

module _ (execution_id : ℕ → String) (now : ℕ) where
  match_loop-Splits :
      (price : ℕ) (es : List Element) (q : ℕ) (vol : ℤ) (h : Orders) (n : ℕ)
      → Splits price q h (match_loop execution_id now price es q vol h n)
  match_loop-Splits price [] q vol h n =
      unfold match_loop in
      record {
        quantity_split = omega arith;
        at_price = tt;
        terms = λ p. (refl, refl, refl);
        ends = inr refl;
      }
  match_loop-Splits price (e ∷ es) q vol h n =
      match_cases execution_id now (Splits price q h) price e es q vol h n
        (λ z. record {
          quantity_split = omega arith;
          at_price = tt;
          terms = λ p. (refl, refl, refl);
          ends = inl z;
        })
        (λ _ le.
          let o =
            fill_full execution_id now (execution execution_id now n (h e.order).quantity price)
              (h e.order) in
          let rest : Orders = store h e.order o in
          let m =
            match_loop execution_id now price es (q - (h e.order).quantity)
              (vol -ℤ pos (h e.order).quantity) rest (n + 1) in
          let s =
            match_loop-Splits price es (q - (h e.order).quantity) (vol -ℤ pos (h e.order).quantity)
              rest (n + 1) in
          record {
            quantity_split = omega (arith, s.quantity_split);
            at_price = (refl, s.at_price);
            terms =
                KeepsTerms-trans h rest m.orders (KeepsTerms-store h e.order o refl refl refl)
                  s.terms;
            ends = s.ends;
          })
        (λ _ _.
          let o = fill_part execution_id now (execution execution_id now n q price) (h e.order) in
          let rest : Orders = store h e.order o in
          let m = match_loop execution_id now price es (q - q) (vol -ℤ pos q) rest (n + 1) in
          let s = match_loop-Splits price es (q - q) (vol -ℤ pos q) rest (n + 1) in
          record {
            quantity_split = omega (arith, s.quantity_split);
            at_price = (refl, s.at_price);
            terms =
                KeepsTerms-trans h rest m.orders (KeepsTerms-store h e.order o refl refl refl)
                  s.terms;
            ends = inl (omega (arith, s.quantity_split));
          })

  -- What the engine needs of `MatchQuantity`.
  pub match_quantity-Splits :
      (pl : PriceLevel) (q : ℕ) (h : Orders) (n : ℕ)
      → let (m, pl') = match_quantity execution_id now pl q h n in
        Splits pl.price q h m × (pl'.price ≡ pl.price) × (pl'.orders ≡ m.left)
  unfolding match_quantity
  match_quantity-Splits pl q h n =
      (match_loop-Splits pl.price pl.orders q pl.volume h n, refl, refl)
