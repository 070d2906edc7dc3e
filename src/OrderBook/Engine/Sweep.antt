-- ===== src/OrderBook/Engine/Sweep.antt =====
-- The matching loops of internal/orderbook/engine.go: they end, without a panic, and where.
use quant_finance_pipeline.Prelude.{
  true-false, ℕ, zero, suc, ◌+◌, ◌<◌, ◌≡◌, refl, sym, ap, subst, ◌∙◌, ◌⊎◌, inl, inr, String, Bool,
  true, false, List, [], ◌∷◌, ◌++◌, Option, none, some, length, length-append, arith, Bool-cases,
}
use quant_finance_pipeline.Models.Order.{OrderExecution}
use quant_finance_pipeline.OrderBook.Entries.{
  IsSorted, IsSorted-split, remove, remove-append, Above, Below,
}
use quant_finance_pipeline.OrderBook.RbTree.Walk.{get_best}
use quant_finance_pipeline.OrderBook.RbTree.Walking.{
  get_best-eq-first, first_level, book_order, size-eq-length,
}
use quant_finance_pipeline.OrderBook.Level.{Orders, PriceLevel, Match, match_quantity, is_empty}
use quant_finance_pipeline.OrderBook.Level.Matching.{executed}
use quant_finance_pipeline.OrderBook.Level.Fifo.{AllAtPrice}
use quant_finance_pipeline.OrderBook.Level.Splitting.{
  KeepsTerms, KeepsTerms-trans, Splits, match_quantity-Splits,
}
use quant_finance_pipeline.OrderBook.Engine.{
  BookTree, Swept, Round, breaks, faults, matches, put_back, ended, round, sweep,
}
use quant_finance_pipeline.OrderBook.Engine.Operations.{rounds}
use quant_finance_pipeline.OrderBook.Engine.Members.{
  All, All-append, All-split, All-map, All-remove, All-Above, All-Below, NoBetter, IsBest,
  first_level-IsBest, first_level-none,
}
use quant_finance_pipeline.OrderBook.Engine.Side.{
  entries, EntryOk, IsBook, write-IsBook, drop-IsBook,
}

pub executed-append :
    (xs ys : List OrderExecution) → executed (xs ++ ys) ≡ executed xs + executed ys
executed-append [] ys = omega arith
executed-append (x ∷ xs) ys = omega (arith, executed-append xs ys)

empty_left : (l : PriceLevel) → l.orders ≡ [] → is_empty l ≡ true
unfolding is_empty
empty_left l e = rw e refl

-- The price of which levels cross, and the fact that no worse level crosses if one does not; `Q` is
-- any property of entries.
module _ (execution_id : ℕ → String) (now : ℕ) (crosses : ℕ → Bool) (is_bid : Bool)
    (falls : (k b : ℕ) → NoBetter is_bid k b → crosses b ≡ false → crosses k ≡ false)
    (Q : ℕ × ℕ → Type 0) where
  abbrev pub NoneCross : BookTree → Type 0
  NoneCross tree = All (λ x. crosses x.0 ≡ false) (entries tree)

  abbrev pub AllCross : List OrderExecution → Type 0
  AllCross xs = All (λ (x : OrderExecution). crosses x.price ≡ true) xs

  record Matched (tree : BookTree) (q : ℕ) (orders : Orders) (m : Match) (tree' : BookTree)
      : Type 0 where
    book : IsBook is_bid tree'
    split : executed m.executions + m.remaining ≡ q
    crossing : AllCross m.executions
    progress : (m.remaining ≡ 0) ⊎ (length (entries tree') < length (entries tree))
    kept : All Q (entries tree) → All Q (entries tree')
    terms : KeepsTerms orders m.orders

  abbrev RoundOk : BookTree → ℕ → Orders → Round → Type 0
  RoundOk tree q orders breaks = NoneCross tree
  RoundOk tree q orders faults = ⊥
  RoundOk tree q orders (matches m tree') = Matched tree q orders m tree'

  AllAtPrice-AllCross :
      (price : ℕ) (xs : List OrderExecution)
      → crosses price ≡ true
      → AllAtPrice price xs
      → AllCross xs
  AllAtPrice-AllCross price [] c h = tt
  AllAtPrice-AllCross price (x ∷ xs) c h = (ap crosses h.0 ∙ c, AllAtPrice-AllCross price xs c h.1)

  -- A best price that does not cross keeps all others from crossing.
  best_alone :
      (tree : BookTree) (p : ℕ)
      → IsBook is_bid tree
      → (best : IsBest is_bid p (entries tree)) → crosses best.price ≡ false
      → NoneCross tree
  best_alone tree p b best c =
      let (sx, sy, below, above) =
        IsSorted-split best.before best.price p best.behind
          (subst IsSorted best.at b.search.sorted) in
      rw best.at
        (All-append _ best.before ((best.price, p) ∷ best.behind) (lower below) (c, upper above))
    where
      ends : ((is_bid ≡ true) × (best.behind ≡ [])) ⊎ ((is_bid ≡ false) × (best.before ≡ []))
      ends = best.end

      lower : Below best.price best.before → All (λ x. crosses x.0 ≡ false) best.before
      lower h = elim ends [
        | inl (t, _) ↦
            All-map (λ x. x.0 < best.price) _ (λ x lt. falls x.0 best.price (rw t (omega arith)) c)
              best.before (All-Below best.price best.before h)
        | inr (_, e) ↦ rw e tt
      ]

      upper : Above best.price best.behind → All (λ x. crosses x.0 ≡ false) best.behind
      upper h = elim ends [
        | inl (_, e) ↦ rw e tt
        | inr (t, _) ↦
            All-map (λ x. best.price < x.0) _ (λ x lt. falls x.0 best.price (rw t (omega arith)) c)
              best.behind (All-Above best.price best.behind h)
      ]

  length-remove_best :
      (tree : BookTree) (p : ℕ)
      → IsBook is_bid tree
      → (best : IsBest is_bid p (entries tree))
      → length (remove best.price (entries tree)) < length (entries tree)
  length-remove_best tree p b best =
      let (sx, sy, below, above) =
        IsSorted-split best.before best.price p best.behind
          (subst IsSorted best.at b.search.sorted) in
      let gone =
        ap (remove best.price) best.at ∙ remove-append best.price p best.before best.behind below in
      omega (
        arith,
        ap length gone,
        ap length best.at,
        length-append best.before best.behind,
        length-append best.before ((best.price, p) ∷ best.behind),
      )

  put_back-Ok :
      (tree : BookTree) (p q : ℕ) (orders : Orders) (best : IsBest is_bid p (entries tree))
      (r : Match × PriceLevel)
      → IsBook is_bid tree
      → (tree.levels p).price ≡ best.price
      → crosses (tree.levels p).price ≡ true
      → Splits (tree.levels p).price q orders r.0
      → r.1.price ≡ (tree.levels p).price
      → r.1.orders ≡ r.0.left
      → RoundOk tree q orders (put_back tree p r)
  put_back-Ok tree p q orders best (m, l) b at c s e left = elim (Bool-cases (is_empty l)) [
    | inl empty ↦
        let (root, d, b', r) = drop-IsBook is_bid tree p l b e in
        rw (empty, d)
          (record {
            book = b';
            split = s.quantity_split;
            crossing = AllAtPrice-AllCross (tree.levels p).price m.executions c s.at_price;
            progress = inr (
                omega (
                  arith,
                  ap length (r ∙ ap (λ k. remove k (entries tree)) (e ∙ at)),
                  length-remove_best tree p b best,
                ));
            kept = λ h. rw r (All-remove Q l.price (entries tree) h);
            terms = s.terms;
          })
    | inr held ↦ rw held (record {
      book = write-IsBook is_bid tree p l b e held;
      split = s.quantity_split;
      crossing = AllAtPrice-AllCross (tree.levels p).price m.executions c s.at_price;
      progress = elim s.ends [
        | inl z ↦ inl z
        | inr nil ↦ absurd (true-false (empty_left l (left ∙ nil)) held)
      ];
      kept = λ h. h;
      terms = s.terms;
    })
  ]

  round-Ok :
      (tree : BookTree) (orders : Orders) (n q : ℕ)
      → IsBook is_bid tree
      → RoundOk tree q orders (round execution_id now crosses tree orders n q)
  unfolding round
  round-Ok tree orders n q b = go (get_best tree.is_bid tree.root) refl
    where
      first :
          {o : Option ℕ}
          → get_best tree.is_bid tree.root ≡ o
          → first_level (book_order is_bid tree.root) ≡ o
      first e =
          ap (λ t. first_level (book_order t tree.root)) (sym b.kind)
          ∙ sym (get_best-eq-first tree.is_bid tree.root)
          ∙ e

      level :
          {p : ℕ}
          → (best : IsBest is_bid p (entries tree))
          → EntryOk tree.levels tree.next_level (best.price, p)
      level {p} best =
          (All-split (EntryOk tree.levels tree.next_level) best.before
            ((best.price, p) ∷ best.behind)
            (subst (All (EntryOk tree.levels tree.next_level)) best.at b.entries_ok)).1.0

      go :
          (o : Option ℕ)
          → get_best tree.is_bid tree.root ≡ o
          → RoundOk tree q orders (round execution_id now crosses tree orders n q)
      go none e = rw (e, round) (rw (first_level-none is_bid (entries tree) (first e)) tt)
      go (some p) e =
          let best = first_level-IsBest is_bid p (entries tree) (first e) in
          let (at, held, made) = level best in
          elim (Bool-cases (crosses (tree.levels p).price)) [
            | inr not_crossing ↦
                rw (e, held, not_crossing, round)
                  (best_alone tree p b best (ap crosses (sym at) ∙ not_crossing))
            | inl crossing ↦
                let (s, same, left) =
                  match_quantity-Splits execution_id now (tree.levels p) q orders n in
                rw (e, held, crossing, round)
                  (put_back-Ok tree p q orders best
                    (match_quantity execution_id now (tree.levels p) q orders n) b at crossing s
                    same left)
          ]

  -- Where the loops end.
  pub record SweptOk (tree : BookTree) (q : ℕ) (orders : Orders) (s : Swept) : Type 0 where
    pub book : IsBook is_bid s.tree
    pub split : executed s.executions + s.remaining ≡ q
    pub crossing : AllCross s.executions
    pub stops : (s.remaining ≡ 0) ⊎ NoneCross s.tree
    pub kept : All Q (entries tree) → All Q (entries s.tree)
    pub terms : KeepsTerms orders s.orders

  -- With more rounds than levels, or with nothing to match, the loop ends, and not by a panic.
  sweep-Ok :
      (fuel : ℕ) (tree : BookTree) (orders : Orders) (n q : ℕ)
      → IsBook is_bid tree
      → (q ≡ 0) ⊎ (length (entries tree) < fuel)
      → (s : Swept) × (sweep execution_id now crosses fuel tree orders n q ≡ some s)
        × SweptOk tree q orders s
  unfolding sweep
  sweep-Ok fuel tree orders n zero b f = (
    ended tree orders n zero,
    refl,
    record {
      book = b;
      split = omega arith;
      crossing = tt;
      stops = inl refl;
      kept = λ h. h;
      terms = λ p. (refl, refl, refl);
    },
  )
  sweep-Ok zero tree orders n (suc q) b (inl f) = absurd (omega arith)
  sweep-Ok zero tree orders n (suc q) b (inr f) = absurd (omega arith)
  sweep-Ok (suc fuel) tree orders n (suc q) b f =
      go (round execution_id now crosses tree orders n (suc q)) refl
        (round-Ok tree orders n (suc q) b)
        (λ m tree'. sweep-Ok fuel tree' m.orders m.next_execution m.remaining)
    where
      next :
          (m : Match) (tree' : BookTree)
          → Matched tree (suc q) orders m tree'
          → (m.remaining ≡ 0) ⊎ (length (entries tree') < fuel)
      next m tree' k = elim k.progress [
        | inl z ↦ inl z
        | inr less ↦ inr (elim f [ inl z ↦ absurd (omega arith) | inr enough ↦ omega arith ])
      ]

      go :
          (r : Round)
          → round execution_id now crosses tree orders n (suc q) ≡ r
          → RoundOk tree (suc q) orders r
          → ((m : Match) (tree' : BookTree)
              → IsBook is_bid tree'
              → (m.remaining ≡ 0) ⊎ (length (entries tree') < fuel)
              → (s : Swept) × (sweep execution_id now crosses fuel tree' m.orders m.next_execution
                    m.remaining
                  ≡ some s)
                × SweptOk tree' m.remaining m.orders s)
          → (s : Swept) × (sweep execution_id now crosses (suc fuel) tree orders n (suc q) ≡ some s)
            × SweptOk tree (suc q) orders s
      go breaks e k ih = (
        ended tree orders n (suc q),
        rw (e, sweep),
        record {
          book = b;
          split = omega arith;
          crossing = tt;
          stops = inr k;
          kept = λ h. h;
          terms = λ p. (refl, refl, refl);
        },
      )
      go faults e k ih = absurd k
      go (matches m tree') e k ih =
          let (s, es, o) = ih m tree' k.book (next m tree' k) in
          (
            record s { executions = m.executions ++ s.executions },
            rw (e, es, sweep),
            record {
              book = o.book;
              split = omega (arith, executed-append m.executions s.executions, k.split, o.split);
              crossing = All-append _ m.executions s.executions k.crossing o.crossing;
              stops = o.stops;
              kept = λ h. o.kept (k.kept h);
              terms = KeepsTerms-trans orders m.orders s.orders k.terms o.terms;
            },
          )

  -- The loops as the engine calls them.
  pub sweep-rounds-Ok :
      (tree : BookTree) (orders : Orders) (n q : ℕ)
      → IsBook is_bid tree
      → (s : Swept) × (sweep execution_id now crosses (rounds tree) tree orders n q ≡ some s)
        × SweptOk tree q orders s
  sweep-rounds-Ok tree orders n q b =
      sweep-Ok (rounds tree) tree orders n q b (inr (omega (arith, size-eq-length tree.root)))
