-- ===== src/OrderBook/Engine/Side.antt =====
-- One tree of internal/orderbook/engine.go with its levels: what is well-formed, and the writes that
-- keep it so.
use quant_finance_pipeline.Prelude.{
  ℕ, suc, ◌<◌, ◌≡◌, ◌≢◌, refl, sym, ap, ◌∙◌, inl, inr, Bool, false, List, [], ◌∷◌, Option, none,
  some, get_or, ◌==◌, length-append, arith, Bool-cases,
}
use quant_finance_pipeline.OrderBook.Entries.{lookup, put, put_old, remove}
use quant_finance_pipeline.OrderBook.RbTree.{Tree}
use quant_finance_pipeline.OrderBook.RbTree.Removal.{delete}
use quant_finance_pipeline.OrderBook.RbTree.Inorder.{inorder}
use quant_finance_pipeline.OrderBook.RbTree.Insertion.{IsSearchTree, insert-refines}
use quant_finance_pipeline.OrderBook.RbTree.Deletion.{delete-refines}
use quant_finance_pipeline.OrderBook.Level
use quant_finance_pipeline.OrderBook.Level.{Orders, Element, PriceLevel, new_price_level, is_empty}
use quant_finance_pipeline.OrderBook.Engine.{Levels, store_level, BookTree}
use quant_finance_pipeline.OrderBook.Engine.Operations.{enqueue, enqueued}
use quant_finance_pipeline.OrderBook.Engine.Members.{All, All-map, All-put, All-remove, remove-ne}

abbrev pub entries : BookTree → List (ℕ × ℕ)
entries tree = inorder tree.root

-- An entry of the tree names a level at its price that holds an order and has been made.
abbrev pub EntryOk : Levels → ℕ → ℕ × ℕ → Type 0
EntryOk levels next (k, p) = ((levels p).price ≡ k) × (is_empty (levels p) ≡ false) × (p < next)

pub record IsBook (is_bid : Bool) (tree : BookTree) : Type 0 where
  pub kind : tree.is_bid ≡ is_bid
  pub search : IsSearchTree tree.root
  pub entries_ok : All (EntryOk tree.levels tree.next_level) (entries tree)

store_level_self : (h : Levels) (p : ℕ) (l : PriceLevel) → store_level h p l p ≡ l
store_level_self h p l = ground arith

store_level-ne : (h : Levels) (p q : ℕ) (l : PriceLevel) → q ≢ p → store_level h p l q ≡ h q
store_level-ne h p q l ne = ground arith

-- A level is overwritten by one with a price that holds an order.
EntryOk-store :
    (h : Levels) (next p : ℕ) (l : PriceLevel)
    → l.price ≡ (h p).price
    → is_empty l ≡ false
    → (x : ℕ × ℕ) → EntryOk h next x
    → EntryOk (store_level h p l) next x
EntryOk-store h next p l e f (k, q) o = elim (Bool-cases (q == p)) [
  | inl same ↦ rw same (ground (arith, o), f, o.2)
  | inr other ↦ rw other o
]

-- A level of another price may be overwritten by any.
EntryOk-store_other :
    (h : Levels) (next p : ℕ) (l : PriceLevel) (x : ℕ × ℕ)
    → x.0 ≢ (h p).price
    → EntryOk h next x
    → EntryOk (store_level h p l) next x
EntryOk-store_other h next p l (k, q) ne o = elim (Bool-cases (q == p)) [
  | inl same ↦ absurd (ground arith)
  | inr other ↦ rw other o
]

EntryOk-fresh :
    (h : Levels) (next : ℕ) (l : PriceLevel) (x : ℕ × ℕ)
    → EntryOk h next x
    → EntryOk (store_level h next l) (suc next) x
EntryOk-fresh h next l (k, q) o =
    rw (store_level-ne h next q l (λ i. absurd (omega arith))) (o.0, o.1, omega arith)

pub write-IsBook :
    (is_bid : Bool) (tree : BookTree) (p : ℕ) (l : PriceLevel)
    → IsBook is_bid tree
    → l.price ≡ (tree.levels p).price
    → is_empty l ≡ false
    → IsBook is_bid (record tree { levels = store_level tree.levels p l })
write-IsBook is_bid tree p l b e f = record {
  kind = b.kind;
  search = b.search;
  entries_ok =
      All-map _ _ (EntryOk-store tree.levels tree.next_level p l e f) (entries tree) b.entries_ok;
}

-- The tree without a price, and its entries.
abbrev pub Pruned : Bool → BookTree → ℕ → Levels → Type 0
Pruned is_bid tree price levels =
    (root : Tree ℕ) × (delete price tree.root ≡ some root)
    × IsBook is_bid (record tree { root = root; levels = levels })
    × (inorder root ≡ remove price (entries tree))

pub delete-IsBook :
    (is_bid : Bool) (tree : BookTree) (price : ℕ)
    → IsBook is_bid tree
    → Pruned is_bid tree price tree.levels
delete-IsBook is_bid tree price b =
    let (root, e, s, r) = delete-refines price tree.root b.search in
    (
      root,
      e,
      record {
        kind = b.kind;
        search = s;
        entries_ok = rw r (All-remove _ price (entries tree) b.entries_ok);
      },
      r,
    )

-- A level that may have become empty goes, with its price.
pub drop-IsBook :
    (is_bid : Bool) (tree : BookTree) (p : ℕ) (l : PriceLevel)
    → IsBook is_bid tree
    → l.price ≡ (tree.levels p).price
    → Pruned is_bid tree l.price (store_level tree.levels p l)
drop-IsBook is_bid tree p l b e =
    let (root, d, s, r) = delete-refines l.price tree.root b.search in
    (
      root,
      d,
      record {
        kind = b.kind;
        search = s;
        entries_ok = rw r (both (remove l.price (entries tree)) kept apart);
      },
      r,
    )
  where
    kept : All (EntryOk tree.levels tree.next_level) (remove l.price (entries tree))
    kept = All-remove _ l.price (entries tree) b.entries_ok

    apart : All (λ x. x.0 ≢ l.price) (remove l.price (entries tree))
    apart = remove-ne l.price (entries tree) b.search.sorted

    both :
        (xs : List (ℕ × ℕ))
        → All (EntryOk tree.levels tree.next_level) xs
        → All (λ x. x.0 ≢ l.price) xs
        → All (EntryOk (store_level tree.levels p l) tree.next_level) xs
    both [] h g = tt
    both (x ∷ xs) h g = (
      EntryOk-store_other tree.levels tree.next_level p l x (λ i. g.0 (i ∙ sym e)) h.0,
      both xs h.1 g.1,
    )

add_order_kept :
    (orders : Orders) (l : PriceLevel) (e : Element)
    → ((Level.add_order orders l e).price ≡ l.price)
      × (is_empty (Level.add_order orders l e) ≡ false)
unfolding Level.add_order is_empty
add_order_kept orders l e = (refl, ground (arith, length-append l.orders (e ∷ [])))

new_level_price : (price : ℕ) → (new_price_level price).price ≡ price
unfolding new_price_level
new_level_price price = refl

-- What `enqueue` makes of a tree.
pub record Enqueued (is_bid : Bool) (tree : BookTree) (price : ℕ) (tree' : BookTree) : Type 0 where
  pub book : IsBook is_bid tree'
  pub put_in : entries tree' ≡ put price tree.next_level (entries tree)

pub enqueue-IsBook :
    (is_bid : Bool) (orders : Orders) (price : ℕ) (e : Element) (tree : BookTree)
    → IsBook is_bid tree
    → (r : BookTree × ℕ) × (enqueue orders price e tree ≡ some r) × Enqueued is_bid tree price r.0
unfolding enqueue
enqueue-IsBook is_bid orders price e tree b =
    let (root, i, s, r) = insert-refines price tree.next_level tree.root b.search in
    (
      enqueued orders price e tree (root, get_or (lookup price (entries tree)) next),
      rw i,
      record {
        book = record {
          kind = b.kind;
          search = s;
          entries_ok = rw r (ok (lookup price (entries tree)) refl);
        };
        put_in = r;
      },
    )
  where
    next : ℕ
    next = tree.next_level

    made : Levels
    made = store_level tree.levels next (new_price_level price)

    level_at : ℕ → PriceLevel
    level_at p = Level.add_order orders (made p) e

    old : (p : ℕ) → All (EntryOk (store_level made p (level_at p)) (suc next)) (entries tree)
    old p =
        All-map _ _
          (λ x o.
            EntryOk-store made (suc next) p (level_at p) (add_order_kept orders (made p) e).0
              (add_order_kept orders (made p) e).1 x
              (EntryOk-fresh tree.levels next (new_price_level price) x o))
          (entries tree) b.entries_ok

    ok :
        (o : Option ℕ)
        → lookup price (entries tree) ≡ o
        → All
            (EntryOk (store_level made (get_or o next) (level_at (get_or o next))) (suc next))
            (put price next (entries tree))
    ok (some p) l = rw (put_old price next (entries tree) p b.search.sorted l) (old p)
    ok none l =
        All-put (EntryOk (store_level made next (level_at next)) (suc next)) price next
          (entries tree)
          (rw (store_level_self made next (level_at next)) (
            (add_order_kept orders (made next) e).0
                ∙ ap (λ l. l.price) (store_level_self tree.levels next (new_price_level price))
                ∙ new_level_price price,
            (add_order_kept orders (made next) e).1,
            omega arith,
          ))
          (old next)
