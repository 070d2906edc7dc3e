-- ===== src/OrderBook/RbTree/Insertion.antt =====
-- `Insert` on a balanced search tree: what its result holds and that it is one.
use quant_finance_pipeline.Prelude.{
  ℕ, ◌<◌, List, [], ◌∷◌, ◌++◌, Option, none, some, ◌≡◌, refl, sym, ap, ◌∙◌, arith, ltb, inl, inr,
  Bool-cases, ◌>>=◌, get_or,
}
use quant_finance_pipeline.OrderBook.Entries.{
  Below, Above, IsSorted, lookup, put, IsSorted-split, Above-mono, Below-mono, Below-append,
  Above-append, put-append, put_old, lookup-none, IsSorted-put,
}
use quant_finance_pipeline.OrderBook.RbTree.{
  red, black, Tree, leaf, node, Frame, in_left, in_right, Location, color_of, insert_path,
  search_node, insert,
}
use quant_finance_pipeline.OrderBook.RbTree.Inorder.{inorder, around, Holds, insert_fixup-Holds}
use quant_finance_pipeline.OrderBook.RbTree.Balance.{
  IsRedBlack, PathOk, black_height, IsBalanced, Balances, PathOk-left, PathOk-right,
  insert_fixup-Balances,
}
use quant_finance_pipeline.OrderBook.RbTree.Searching.{
  before, after, around-eq-append, Found, search_node-Found,
}

-- The tree of a book: entries in order, and balanced.
pub record IsSearchTree {ℓ} {V : Type ℓ} (t : Tree V) : Type 0 where
  pub sorted : IsSorted (inorder t)
  pub balanced : IsBalanced t

module _ {ℓ} {V : Type ℓ} where
  around-insert_path :
      (k : ℕ) (t : Tree V) (fs : List (Frame V))
      → around (insert_path k t fs) [] ≡ around fs (inorder t)
  unfolding insert_path
  around-insert_path k leaf fs = refl
  around-insert_path k (node c l p v r) fs = elim (Bool-cases (ltb k p)) [
    | inl low ↦ rw (low, insert_path) (around-insert_path k l (in_left c p v r ∷ fs))
    | inr high ↦ rw (high, insert_path) (around-insert_path k r (in_right c l p v ∷ fs))
  ]

  insert_path-PathOk :
      (k : ℕ) (t : Tree V) (fs : List (Frame V))
      → IsRedBlack t
      → PathOk fs (color_of t) (black_height t)
      → PathOk (insert_path k t fs) black 0
  unfolding insert_path
  insert_path-PathOk k leaf fs h o = o
  insert_path-PathOk k (node c l p v r) fs h o = elim (Bool-cases (ltb k p)) [
    | inl low ↦
        rw (low, insert_path)
          (insert_path-PathOk k l (in_left c p v r ∷ fs) h.0 (PathOk-left c l p v r fs h o))
    | inr high ↦
        rw (high, insert_path)
          (insert_path-PathOk k r (in_right c l p v ∷ fs) h.1 (PathOk-right c l p v r fs h o))
  ]

  abbrev Splits : ℕ → List (Frame V) → Type 0
  Splits k fs = Below k (before fs) × Above k (after fs)

  -- A price that the tree lacks belongs between the two sides of its path.
  insert_path-Splits :
      (k : ℕ) (t : Tree V) (fs : List (Frame V))
      → IsSorted (inorder t)
      → lookup k (inorder t) ≡ none
      → Splits k fs
      → Splits k (insert_path k t fs)
  unfolding insert_path
  insert_path-Splits k leaf fs s m h = h
  insert_path-Splits k (node c l p v r) fs s m (hb, ha) =
      let (sl, sr, b, a) = IsSorted-split (inorder l) p v (inorder r) s in
      let (ml, ne, mr) = lookup-none k (inorder l) p v (inorder r) m in
      elim (Bool-cases (ltb k p)) [
        | inl low ↦
            let lt : k < p = ground arith in
            rw (low, insert_path)
              (insert_path-Splits k l (in_left c p v r ∷ fs) sl ml
                (hb, (lt, Above-append k (inorder r) (after fs) (Above-mono k p _ lt a) ha)))
        | inr high ↦
            let lt : p < k = ground arith in
            rw (high, insert_path)
              (insert_path-Splits k r (in_right c l p v ∷ fs) sr mr (
                Below-append k (before fs ++ inorder l) ((p, v) ∷ [])
                    (Below-append k (before fs) (inorder l) hb (Below-mono p k _ lt b)) (lt, tt),
                ha,
              ))
      ]

  -- The entries with a new node at the end of its path.
  around-put :
      (k : ℕ) (v : V) (t : Tree V)
      → IsSorted (inorder t)
      → lookup k (inorder t) ≡ none
      → around (insert_path k t []) ((k, v) ∷ []) ≡ put k v (inorder t)
  around-put k v t s m =
      let fs = insert_path k t [] in
      let (b, a) = insert_path-Splits k t [] s m (tt, tt) in
      around-eq-append fs ((k, v) ∷ [])
      ∙ sym (put-append k v (before fs) (after fs) b a)
      ∙ ap (put k v) (sym (around-eq-append fs []) ∙ around-insert_path k t [])

  -- A new node, where the tree lacks the price.
  insert_new :
      (k : ℕ) (v : V) (t : Tree V) (o : Option (Tree V))
      → IsSorted (inorder t)
      → lookup k (inorder t) ≡ none
      → Holds (around (insert_path k t []) ((k, v) ∷ [])) o
      → Balances o
      → (t' : Tree V) × (◌>>=◌ {B = Tree V × V} o (λ u. some (u, v)) ≡ some (t', v))
        × IsSearchTree t'
        × (inorder t' ≡ put k v (inorder t))
  insert_new k v t none s m h b = absurd b
  insert_new k v t (some t') s m h b =
      let e = h ∙ around-put k v t s m in
      (t', refl, record { sorted = rw e (IsSorted-put k v (inorder t) s); balanced = b }, e)

  -- `Insert` on a balanced search tree never panics. It returns the level that stands at the price,
  -- or else the fresh one, and the tree is again a balanced search tree, whose entries are those
  -- before with the fresh one put in unless the price was there.
  pub insert-refines :
      (price : ℕ) (fresh : V) (t : Tree V)
      → IsSearchTree t
      → (t' : Tree V) × (insert price fresh t ≡ some (t', get_or (lookup price (inorder t)) fresh))
        × IsSearchTree t'
        × (inorder t' ≡ put price fresh (inorder t))
  unfolding insert
  insert-refines price fresh t h =
      go (search_node price t []) refl (search_node-Found price t [] h.sorted)
    where
      go :
          (o : Option (Location V))
          → search_node price t [] ≡ o
          → Found price t [] o
          → (t' : Tree V) × (insert price fresh t
              ≡ some (t', get_or (lookup price (inorder t)) fresh))
            × IsSearchTree t'
            × (inorder t' ≡ put price fresh (inorder t))
      go none e f =
          rw (e, f, insert)
            (insert_new price fresh t _ h.sorted f
              (insert_fixup-Holds (node red leaf price fresh leaf) (insert_path price t []))
              (insert_fixup-Balances (node red leaf price fresh leaf) (insert_path price t [])
                (tt, tt, refl, (refl, refl)) refl
                (insert_path-PathOk price t [] h.balanced.0 h.balanced.1)))
      go (some z) e (p, q, g) =
          rw (e, g, insert) (t, refl, h, sym (put_old price fresh (inorder t) z.level h.sorted g))
