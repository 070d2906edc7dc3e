-- ===== src/OrderBook/Level/Fifo.antt =====
-- The order in which `MatchQuantity` of internal/orderbook/tree.go serves a queue, and that each
-- operation on a level keeps its volume exact.
use quant_finance_pipeline.Prelude.{
  ℕ, ◌+◌, ◌-◌, min, String, List, [], ◌∷◌, ◌++◌, ◌≡◌, ◌≢◌, refl, sym, ap, subst, ◌∙◌, ◌⊎◌, inl, inr,
  arith,
}
use quant_finance_pipeline.Prelude.Int.{ℤ, pos_part, neg_part, int_laws}
use quant_finance_pipeline.Models.Order.{Order, OrderExecution, filled, partially_filled}
use quant_finance_pipeline.OrderBook.Level.{
  Orders, store, Element, PriceLevel, Match, match_loop, match_quantity, took_all, took_part,
  add_order,
}
use quant_finance_pipeline.OrderBook.Level.Matching.{
  Apart, Distinct, total, executed, IsExact, Conserves, match_loop-Conserves,
  match_loop-orders-Apart, match_cases, store_self, store-ne,
}

abbrev pub AllFilled : Orders → List Element → Type 0
AllFilled h [] = Unit
AllFilled h (e ∷ es) = ((h e.order).status ≡ filled) × AllFilled h es

abbrev pub Untouched : Orders → Orders → List Element → Type 0
Untouched h h' [] = Unit
Untouched h h' (e ∷ es) = (h' e.order ≡ h e.order) × Untouched h h' es

-- At most the first order has changed, and then it is filled in part.
abbrev pub KeptBehind : Orders → Orders → List Element → Type 0
KeptBehind h h' [] = Unit
KeptBehind h h' (e ∷ es) =
    ((h' e.order ≡ h e.order) ⊎ ((h' e.order).status ≡ partially_filled)) × Untouched h h' es

abbrev pub AllAtPrice : ℕ → List OrderExecution → Type 0
AllAtPrice p [] = Unit
AllAtPrice p (x ∷ xs) = (x.price ≡ p) × AllAtPrice p xs

-- A pass serves the front of the queue.
pub record ServesFront (price : ℕ) (es : List Element) (h : Orders) (m : Match) : Type 0 where
  pub served : List Element
  pub front : es ≡ served ++ m.left
  pub served_filled : AllFilled m.orders served
  pub left_kept : KeptBehind h m.orders m.left
  pub at_price : AllAtPrice price m.executions

Apart-right : (p : ℕ) (xs ys : List Element) → Apart p (xs ++ ys) → Apart p ys
Apart-right p [] ys a = a
Apart-right p (x ∷ xs) ys a = Apart-right p xs ys a.1

Distinct-right : (xs ys : List Element) → Distinct (xs ++ ys) → Distinct ys
Distinct-right [] ys d = d
Distinct-right (x ∷ xs) ys d = Distinct-right xs ys d.1

Untouched-store :
    (h h' : Orders) (p : ℕ) (o : Order) (es : List Element)
    → Apart p es
    → Untouched (store h p o) h' es
    → Untouched h h' es
Untouched-store h h' p o [] a u = tt
Untouched-store h h' p o (e ∷ es) a u =
    (u.0 ∙ store-ne h p e.order o a.0, Untouched-store h h' p o es a.1 u.1)

KeptBehind-store :
    (h h' : Orders) (p : ℕ) (o : Order) (es : List Element)
    → Apart p es
    → KeptBehind (store h p o) h' es
    → KeptBehind h h' es
KeptBehind-store h h' p o [] a k = tt
KeptBehind-store h h' p o (e ∷ es) a (inl k, u) =
    (inl (k ∙ store-ne h p e.order o a.0), Untouched-store h h' p o es a.1 u)
KeptBehind-store h h' p o (e ∷ es) a (inr k, u) = (inr k, Untouched-store h h' p o es a.1 u)

Untouched-refl : (h : Orders) (es : List Element) → Untouched h h es
Untouched-refl h [] = tt
Untouched-refl h (e ∷ es) = (refl, Untouched-refl h es)

module _ (price : ℕ) (e : Element) (es : List Element) (h : Orders) (o : Order) (x : OrderExecution)
    (m : Match) (apart : Apart e.order es) (px : x.price ≡ price) where
  took_all-ServesFront :
      (m.orders e.order).status ≡ filled
      → ServesFront price es (store h e.order o) m
      → ServesFront price (e ∷ es) h (took_all x m)
  took_all-ServesFront f s = record {
    served = e ∷ s.served;
    front = ap (λ xs. e ∷ xs) s.front;
    served_filled = (f, s.served_filled);
    left_kept =
        KeptBehind-store h m.orders e.order o m.left
          (Apart-right e.order s.served m.left (subst (Apart e.order) s.front apart)) s.left_kept;
    at_price = (px, s.at_price);
  }

  took_part-ServesFront :
      o.status ≡ partially_filled
      → (m.left ≡ es) × (m.orders ≡ store h e.order o) × (m.executions ≡ [])
      → ServesFront price (e ∷ es) h (took_part e x m)
  took_part-ServesFront f (l, i, n) = record {
    served = [];
    front = ap (λ xs. e ∷ xs) (sym l);
    served_filled = tt;
    left_kept = (
      inr (
          ap (λ (k : Orders). (k e.order).status) i
          ∙ ap (λ o. o.status) (store_self h e.order o)
          ∙ f),
      rw (l, i)
          (Untouched-store h (store h e.order o) e.order o es apart
            (Untouched-refl (store h e.order o) es)),
    );
    at_price = (px, rw n tt);
  }

module _ (execution_id : ℕ → String) (now : ℕ) where
  -- Without a quantity a pass does nothing.
  match_loop_idle :
      (price : ℕ) (es : List Element) (q : ℕ) (vol : ℤ) (h : Orders) (n : ℕ)
      → q ≡ 0
      → let m = match_loop execution_id now price es q vol h n in
        (m.left ≡ es) × (m.orders ≡ h) × (m.executions ≡ [])
  match_loop_idle price [] q vol h n z = unfold match_loop in (refl, refl, refl)
  match_loop_idle price (e ∷ es) q vol h n z =
      match_cases execution_id now (λ m. (m.left ≡ e ∷ es) × (m.orders ≡ h) × (m.executions ≡ []))
        price e es q vol h n (λ _. (refl, refl, refl)) (λ lt _. absurd (omega arith))
        (λ lt _. absurd (omega arith))

  match_loop-ServesFront :
      (price : ℕ) (es : List Element) (q : ℕ) (vol : ℤ) (h : Orders) (n : ℕ)
      → Distinct es
      → ServesFront price es h (match_loop execution_id now price es q vol h n)
  match_loop-ServesFront price [] q vol h n d =
      unfold match_loop in
      record { served = []; front = refl; served_filled = tt; left_kept = tt; at_price = tt }
  match_loop-ServesFront price (e ∷ es) q vol h n d =
      match_cases execution_id now (ServesFront price (e ∷ es) h) price e es q vol h n
        (λ _. record {
          served = [];
          front = refl;
          served_filled = tt;
          left_kept = (inl refl, Untouched-refl h es);
          at_price = tt;
        })
        (λ _ _.
          took_all-ServesFront price e es h _ _ _ d.0 refl
            (ap (λ o. o.status)
              (match_loop-orders-Apart execution_id now price es _ _ _ _ e.order d.0
                ∙ store_self h e.order _))
            (match_loop-ServesFront price es _ _ _ _ d.1))
        (λ _ _.
          took_part-ServesFront price e es h _ _ _ d.0 refl refl
            (match_loop_idle price es (q - q) _ _ _ (omega arith)))

  least_of_ends :
      {es : List Element} {q : ℕ} {vol : ℤ} {h : Orders} (m : Match)
      → Conserves es q vol h m
      → executed m.executions ≡ min q (total h es)
  least_of_ends m c = elim c.ends [
    | inl z ↦ omega (arith, c.quantity_split, c.total_split, z)
    | inr z ↦ omega (arith, c.quantity_split, c.total_split, ap (total m.orders) z)
  ]

  -- What a call of `MatchQuantity` promises.
  pub record Matches (pl : PriceLevel) (q : ℕ) (h : Orders) (m : Match) (pl' : PriceLevel)
      : Type 0 where
    pub fills_least : executed m.executions ≡ min q (total h pl.orders)
    pub remaining_rest : m.remaining ≡ q - total h pl.orders
    pub serves_front : ServesFront pl.price pl.orders h m
    pub queue_left : pl'.orders ≡ m.left
    pub price_kept : pl'.price ≡ pl.price
    pub exact : IsExact m.orders pl'

  -- On a level with an exact volume and different orders, `MatchQuantity` executes the lesser of the
  -- quantity and the volume, all at the level's price, and returns the rest. It fills the orders
  -- from the front of the queue on and takes them off; of those left at most the first has changed,
  -- and is then filled in part. The level's volume is exact again.
  pub match_quantity-Matches :
      (pl : PriceLevel) (q : ℕ) (h : Orders) (n : ℕ)
      → IsExact h pl
      → let (m, pl') = match_quantity execution_id now pl q h n in Matches pl q h m pl'
  unfolding match_quantity
  match_quantity-Matches pl q h n x =
      let m = match_loop execution_id now pl.price pl.orders q pl.volume h n in
      let c = match_loop-Conserves execution_id now pl.price pl.orders q pl.volume h n x.distinct in
      let s = match_loop-ServesFront pl.price pl.orders q pl.volume h n x.distinct in
      record {
        fills_least = least_of_ends m c;
        remaining_rest = omega (arith, least_of_ends m c, c.quantity_split);
        serves_front = s;
        queue_left = refl;
        price_kept = refl;
        exact = record {
          volume_total = omega (
            int_laws,
            c.total_split,
            ap pos_part c.volume_split,
            ap neg_part c.volume_split,
            ap pos_part x.volume_total,
            ap neg_part x.volume_total,
          );
          distinct = Distinct-right s.served m.left (subst Distinct s.front x.distinct);
        };
      }

total-append : (h : Orders) (xs ys : List Element) → total h (xs ++ ys) ≡ total h xs + total h ys
total-append h [] ys = omega arith
total-append h (x ∷ xs) ys = omega (arith, total-append h xs ys)

Apart-append :
    (p : ℕ) (xs : List Element) (e : Element) → Apart p xs → e.order ≢ p → Apart p (xs ++ e ∷ [])
Apart-append p [] e a ne = (ne, tt)
Apart-append p (x ∷ xs) e a ne = (a.0, Apart-append p xs e a.1 ne)

Distinct-append :
    (xs : List Element) (e : Element) → Distinct xs → Apart e.order xs → Distinct (xs ++ e ∷ [])
Distinct-append [] e d a = (tt, tt)
Distinct-append (x ∷ xs) e d a =
    (Apart-append x.order xs e d.0 (λ i. a.0 (sym i)), Distinct-append xs e d.1 a.1)

-- `AddOrder` of an order that is not in the queue keeps the volume exact, and puts it last.
pub add_order-IsExact :
    (h : Orders) (pl : PriceLevel) (e : Element)
    → IsExact h pl
    → Apart e.order pl.orders
    → IsExact h (add_order h pl e) × ((add_order h pl e).orders ≡ pl.orders ++ e ∷ [])
unfolding add_order
add_order-IsExact h pl e x a = (
  record {
    volume_total = omega (
      int_laws,
      total-append h pl.orders (e ∷ []),
      ap pos_part x.volume_total,
      ap neg_part x.volume_total,
    );
    distinct = Distinct-append pl.orders e x.distinct a;
  },
  refl,
)
