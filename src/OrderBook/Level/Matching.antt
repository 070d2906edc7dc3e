-- ===== src/OrderBook/Level/Matching.antt =====
-- What `MatchQuantity` of internal/orderbook/tree.go fills, and what it leaves.
use quant_finance_pipeline.Prelude.{
  ℕ, ◌+◌, ◌-◌, ◌≤◌, ◌<◌, String, List, [], ◌∷◌, ◌≡◌, ◌≢◌, refl, sym, ap, ◌∙◌, ◌⊎◌, inl, inr, ltb,
  leb, arith, Bool-cases,
}
use quant_finance_pipeline.Prelude.Int.{ℤ, pos, pos_part, neg_part, ◌+ℤ◌, ◌-ℤ◌, int_laws}
use quant_finance_pipeline.Models.Order.{Order, OrderExecution}
use quant_finance_pipeline.OrderBook.Level.{
  Orders, store, Element, PriceLevel, Match, execution, took_all, took_part, fill_full, fill_part,
  match_loop,
}

-- No element of the queue is this order.
abbrev pub Apart : ℕ → List Element → Type 0
Apart p [] = Unit
Apart p (e ∷ es) = (e.order ≢ p) × Apart p es

-- The elements of the queue are different orders.
abbrev pub Distinct : List Element → Type 0
Distinct [] = Unit
Distinct (e ∷ es) = Apart e.order es × Distinct es

-- The lots that wait in a queue.
abbrev pub total : Orders → List Element → ℕ
total h [] = 0
total h (e ∷ es) = (h e.order).quantity + total h es

abbrev pub executed : List OrderExecution → ℕ
executed [] = 0
executed (x ∷ xs) = x.quantity + executed xs

-- The volume that a level keeps is the sum of its orders.
pub record IsExact (h : Orders) (pl : PriceLevel) : Type 0 where
  pub volume_total : pl.volume ≡ pos (total h pl.orders)
  pub distinct : Distinct pl.orders

pub store-ne : (h : Orders) (p q : ℕ) (o : Order) → q ≢ p → store h p o q ≡ h q
store-ne h p q o ne = ground arith

pub store_self : (h : Orders) (p : ℕ) (o : Order) → store h p o p ≡ o
store_self h p o = ground arith

pub total-store :
    (h : Orders) (p : ℕ) (o : Order) (es : List Element)
    → Apart p es
    → total (store h p o) es ≡ total h es
total-store h p o [] a = refl
total-store h p o (e ∷ es) a =
    omega (arith, ap (λ x. x.quantity) (store-ne h p e.order o a.0), total-store h p o es a.1)

-- What a pass over a queue fills, keeps and leaves open.
pub record Conserves (es : List Element) (q : ℕ) (vol : ℤ) (h : Orders) (m : Match) : Type 0 where
  pub quantity_split : executed m.executions + m.remaining ≡ q
  pub total_split : executed m.executions + total m.orders m.left ≡ total h es
  pub volume_split : m.volume +ℤ pos (executed m.executions) ≡ vol
  pub ends : (m.remaining ≡ 0) ⊎ (m.left ≡ [])

took_all-Conserves :
    (e : Element) (es : List Element) (q : ℕ) (vol : ℤ) (h h' : Orders) (x : OrderExecution)
    (m : Match)
    → (h e.order).quantity ≤ q
    → x.quantity ≡ (h e.order).quantity
    → total h' es ≡ total h es
    → Conserves es (q - (h e.order).quantity) (vol -ℤ pos (h e.order).quantity) h' m
    → Conserves (e ∷ es) q vol h (took_all x m)
took_all-Conserves e es q vol h h' x m le ex eh c = record {
  quantity_split = omega (arith, c.quantity_split);
  total_split = omega (arith, c.total_split);
  volume_split = omega (int_laws, ap pos_part c.volume_split, ap neg_part c.volume_split);
  ends = c.ends;
}

took_part-Conserves :
    (e : Element) (es : List Element) (q : ℕ) (vol : ℤ) (h h' : Orders) (x : OrderExecution)
    (m : Match)
    → q < (h e.order).quantity
    → x.quantity ≡ q
    → total h' es ≡ total h es
    → (m.orders e.order).quantity ≡ (h e.order).quantity - q
    → Conserves es (q - q) (vol -ℤ pos q) h' m
    → Conserves (e ∷ es) q vol h (took_part e x m)
took_part-Conserves e es q vol h h' x m lt ex eh em c = record {
  quantity_split = omega (arith, c.quantity_split);
  total_split = omega (arith, c.total_split, c.quantity_split);
  volume_split = omega (int_laws, ap pos_part c.volume_split, ap neg_part c.volume_split);
  ends = inl (omega (arith, c.quantity_split));
}

module _ (execution_id : ℕ → String) (now : ℕ) where
  -- The three branches of a round.
  abbrev pub round_all : ℕ → Element → List Element → ℕ → ℤ → Orders → ℕ → Match
  round_all price e es q vol h n =
      let x = execution execution_id now n (h e.order).quantity price in
      took_all x (
        match_loop execution_id now price es (q - (h e.order).quantity)
          (vol -ℤ pos (h e.order).quantity)
          (store h e.order (fill_full execution_id now x (h e.order))) (n + 1))

  abbrev pub round_part : ℕ → Element → List Element → ℕ → ℤ → Orders → ℕ → Match
  round_part price e es q vol h n =
      let x = execution execution_id now n q price in
      took_part e x (
        match_loop execution_id now price es (q - q) (vol -ℤ pos q)
          (store h e.order (fill_part execution_id now x (h e.order))) (n + 1))

  abbrev pub round_stop : Element → List Element → ℕ → ℤ → Orders → ℕ → Match
  round_stop e es q vol h n = record {
    executions = [];
    remaining = q;
    left = e ∷ es;
    volume = vol;
    orders = h;
    next_execution = n;
  }

  pub match_cases {ℓ} :
      (P : Match → Type ℓ) (price : ℕ) (e : Element) (es : List Element) (q : ℕ) (vol : ℤ)
      (h : Orders) (n : ℕ)
      → (q ≡ 0 → P (round_stop e es q vol h n))
      → (0 < q → (h e.order).quantity ≤ q → P (round_all price e es q vol h n))
      → (0 < q → q < (h e.order).quantity → P (round_part price e es q vol h n))
      → P (match_loop execution_id now price (e ∷ es) q vol h n)
  unfolding match_loop
  match_cases P price e es q vol h n a b c = elim (Bool-cases (ltb 0 q)) [
    | inr stop ↦ rw (stop, match_loop) (a (ground arith))
    | inl go ↦ elim (Bool-cases (leb (h e.order).quantity q)) [
      | inl whole ↦ rw (go, whole, match_loop) (b (ground arith) (ground arith))
      | inr part ↦ rw (go, part, match_loop) (c (ground arith) (ground arith))
    ]
  ]

  -- Orders outside the queue stay as they are.
  pub match_loop-orders-Apart :
      (price : ℕ) (es : List Element) (q : ℕ) (vol : ℤ) (h : Orders) (n p : ℕ)
      → Apart p es
      → (match_loop execution_id now price es q vol h n).orders p ≡ h p
  match_loop-orders-Apart price [] q vol h n p a = unfold match_loop in refl
  match_loop-orders-Apart price (e ∷ es) q vol h n p a =
      match_cases (λ m. m.orders p ≡ h p) price e es q vol h n (λ _. refl)
        (λ _ _. match_loop-orders-Apart price es _ _ _ _ p a.1 ∙ kept _)
        (λ _ _. match_loop-orders-Apart price es _ _ _ _ p a.1 ∙ kept _)
    where
      kept : (o : Order) → store h e.order o p ≡ h p
      kept o = store-ne h e.order p o (λ i. a.0 (sym i))

  pub match_loop-Conserves :
      (price : ℕ) (es : List Element) (q : ℕ) (vol : ℤ) (h : Orders) (n : ℕ)
      → Distinct es
      → Conserves es q vol h (match_loop execution_id now price es q vol h n)
  match_loop-Conserves price [] q vol h n d =
      unfold match_loop in
      record {
        quantity_split = omega arith;
        total_split = refl;
        volume_split = omega int_laws;
        ends = inr refl;
      }
  match_loop-Conserves price (e ∷ es) q vol h n d =
      match_cases (Conserves (e ∷ es) q vol h) price e es q vol h n
        (λ z. record {
          quantity_split = omega arith;
          total_split = omega arith;
          volume_split = omega int_laws;
          ends = inl z;
        })
        (λ _ le.
          took_all-Conserves e es q vol h _ _ _ le refl (total-store h e.order _ es d.0)
            (match_loop-Conserves price es _ _ _ _ d.1))
        (λ _ lt.
          took_part-Conserves e es q vol h _ _ _ lt refl (total-store h e.order _ es d.0)
            (ap (λ o. o.quantity)
              (match_loop-orders-Apart price es _ _ _ _ e.order d.0 ∙ store_self h e.order _))
            (match_loop-Conserves price es _ _ _ _ d.1))
