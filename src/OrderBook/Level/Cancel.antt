-- ===== src/OrderBook/Level/Cancel.antt =====
-- `RemoveOrder` of internal/orderbook/tree.go, on an element that is in the queue and on one that
-- is not there any more.
use quant_finance_pipeline.Prelude.{
  ℕ, ◌+◌, ◌<◌, List, [], ◌∷◌, ◌++◌, ◌≡◌, ◌≢◌, refl, sym, ap, subst, ◌∙◌, arith,
}
use quant_finance_pipeline.Prelude.Int.{ℤ, pos, ◌+ℤ◌, ◌-ℤ◌, pos_part, neg_part, int_laws}
use quant_finance_pipeline.OrderBook.Level.{
  Orders, Element, PriceLevel, remove_order, remove_element,
}
use quant_finance_pipeline.OrderBook.Level.Matching.{Apart, Distinct, total, IsExact}

-- No element of the queue has this identity.
abbrev pub Absent : ℕ → List Element → Type 0
Absent i [] = Unit
Absent i (e ∷ es) = (e.id ≢ i) × Absent i es

remove_element-append :
    (xs : List Element) (e : Element) (ys : List Element)
    → Absent e.id xs
    → remove_element e.id (xs ++ e ∷ ys) ≡ xs ++ ys
unfolding remove_element
remove_element-append [] e ys a = ground arith
remove_element-append (x ∷ xs) e ys a = ground (arith, remove_element-append xs e ys a.1)

remove_element-Absent : (i : ℕ) (es : List Element) → Absent i es → remove_element i es ≡ es
unfolding remove_element
remove_element-Absent i [] a = refl
remove_element-Absent i (e ∷ es) a = ground (arith, remove_element-Absent i es a.1)

total-remove :
    (h : Orders) (xs : List Element) (e : Element) (ys : List Element)
    → total h (xs ++ e ∷ ys) ≡ (h e.order).quantity + total h (xs ++ ys)
total-remove h [] e ys = refl
total-remove h (x ∷ xs) e ys = omega (arith, total-remove h xs e ys)

Apart-remove :
    (p : ℕ) (xs : List Element) (e : Element) (ys : List Element)
    → Apart p (xs ++ e ∷ ys)
    → Apart p (xs ++ ys)
Apart-remove p [] e ys a = a.1
Apart-remove p (x ∷ xs) e ys a = (a.0, Apart-remove p xs e ys a.1)

Distinct-remove :
    (xs : List Element) (e : Element) (ys : List Element)
    → Distinct (xs ++ e ∷ ys)
    → Distinct (xs ++ ys)
Distinct-remove [] e ys d = d.1
Distinct-remove (x ∷ xs) e ys d = (Apart-remove x.order xs e ys d.0, Distinct-remove xs e ys d.1)

-- An element of the queue is taken off, the others keep their order, and the volume stays exact.
pub remove_order-IsExact :
    (h : Orders) (pl : PriceLevel) (xs : List Element) (e : Element) (ys : List Element)
    → IsExact h pl
    → pl.orders ≡ xs ++ e ∷ ys
    → Absent e.id xs
    → IsExact h (remove_order h pl e) × ((remove_order h pl e).orders ≡ xs ++ ys)
unfolding remove_order
remove_order-IsExact h pl xs e ys x q a =
    let gone : remove_element e.id pl.orders ≡ xs ++ ys =
      ap (remove_element e.id) q ∙ remove_element-append xs e ys a in
    (
      record {
        volume_total = omega (
          int_laws,
          ap (total h) gone,
          ap (total h) q,
          total-remove h xs e ys,
          ap pos_part x.volume_total,
          ap neg_part x.volume_total,
        );
        distinct = rw gone (Distinct-remove xs e ys (subst Distinct q x.distinct));
      },
      gone,
    )

+ℤ_minus : (a b : ℤ) → a -ℤ b +ℤ b ≡ a
+ℤ_minus a b = omega int_laws

-- An element that is no longer in the queue, of an order that still shows a quantity: the queue
-- stays as it is, and the volume, exact before, is too small by that quantity.
pub remove_order_stale :
    (h : Orders) (pl : PriceLevel) (e : Element)
    → IsExact h pl
    → Absent e.id pl.orders
    → 0 < (h e.order).quantity
    → let pl' = remove_order h pl e in
      (pl'.orders ≡ pl.orders)
      × (pl'.volume +ℤ pos (h e.order).quantity ≡ pos (total h pl'.orders))
      × ¬ IsExact h pl'
unfolding remove_order
remove_order_stale h pl e x a q =
    let same = remove_element-Absent e.id pl.orders a in
    (
      same,
      +ℤ_minus pl.volume (pos (h e.order).quantity)
          ∙ x.volume_total
          ∙ ap (λ es. pos (total h es)) (sym same),
      λ y. omega (
        int_laws,
        ap (total h) same,
        ap pos_part x.volume_total,
        ap neg_part x.volume_total,
        ap pos_part y.volume_total,
        ap neg_part y.volume_total,
      ),
    )
