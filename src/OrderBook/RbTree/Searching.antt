-- ===== src/OrderBook/RbTree/Searching.antt =====
-- `searchNode` finds the entry of a price in a sorted tree, and the path that it walks.
use quant_finance_pipeline.Prelude.{
  ℕ, ◌<◌, List, [], ◌∷◌, ◌++◌, Option, none, some, ◌≡◌, refl, sym, ◌∙◌, append_assoc, append-nil,
  inl, inr, Bool-cases, arith, ltb, ◌==◌,
}
use quant_finance_pipeline.OrderBook.Entries.{
  Below, Above, IsSorted, lookup, IsSorted-split, lookup-Above, lookup-Below, lookup-append_none,
  Above-mono, Below-mono, lookup-append_some,
}
use quant_finance_pipeline.OrderBook.RbTree.{
  Color, Tree, leaf, node, Frame, in_left, in_right, Location, tree_at, search_node, search,
}
use quant_finance_pipeline.OrderBook.RbTree.Inorder.{inorder, around}

module _ {ℓ} {V : Type ℓ} where
  -- The entries to the left and to the right of a path.
  abbrev pub before : List (Frame V) → List (ℕ × V)
  before [] = []
  before (in_left c p v r ∷ fs) = before fs
  before (in_right c l p v ∷ fs) = before fs ++ inorder l ++ (p, v) ∷ []

  abbrev pub after : List (Frame V) → List (ℕ × V)
  after [] = []
  after (in_left c p v r ∷ fs) = (p, v) ∷ inorder r ++ after fs
  after (in_right c l p v ∷ fs) = after fs

  pub around-eq-append :
      (fs : List (Frame V)) (xs : List (ℕ × V)) → around fs xs ≡ before fs ++ (xs ++ after fs)
  around-eq-append [] xs = sym (append-nil xs)
  around-eq-append (in_left c p v r ∷ fs) xs =
      simp (around-eq-append fs (xs ++ (p, v) ∷ inorder r), append_assoc)
  around-eq-append (in_right c l p v ∷ fs) xs =
      simp (around-eq-append fs (inorder l ++ (p, v) ∷ xs), append_assoc)

  -- What a search from a subtree below a path returns.
  abbrev pub Found : ℕ → Tree V → List (Frame V) → Option (Location V) → Type ℓ
  Found price t fs none = lookup price (inorder t) ≡ none
  Found price t fs (some z) =
      (z.price ≡ price)
      × (around z.path (inorder (tree_at z)) ≡ around fs (inorder t))
      × (lookup price (inorder t) ≡ some z.level)

  -- A hit or a miss in a subtree is one in the tree above it.
  Found-left :
      (price : ℕ) (c : Color) (l : Tree V) (p : ℕ) (v : V) (r : Tree V) (fs : List (Frame V))
      (o : Option (Location V))
      → price < p
      → Above p (inorder r)
      → Found price l (in_left c p v r ∷ fs) o
      → Found price (node c l p v r) fs o
  Found-left price c l p v r fs none h a f =
      lookup-append_none price (inorder l) _ f
      ∙ lookup-Above price ((p, v) ∷ inorder r) (h, Above-mono price p (inorder r) h a)
  Found-left price c l p v r fs (some z) h a (e, q, g) =
      (e, q, lookup-append_some price (inorder l) _ z.level g)

  Found-right :
      (price : ℕ) (c : Color) (l : Tree V) (p : ℕ) (v : V) (r : Tree V) (fs : List (Frame V))
      (o : Option (Location V))
      → p < price
      → Below p (inorder l)
      → Found price r (in_right c l p v ∷ fs) o
      → Found price (node c l p v r) fs o
  Found-right price c l p v r fs none h b f =
      lookup-Below price (inorder l) _ (Below-mono p price (inorder l) h b) ∙ ground arith
  Found-right price c l p v r fs (some z) h b (e, q, g) =
      (e, q, lookup-Below price (inorder l) _ (Below-mono p price (inorder l) h b) ∙ ground arith)

  -- On a sorted tree `searchNode` finds the entry of the price, or there is none.
  pub search_node-Found :
      (price : ℕ) (t : Tree V) (fs : List (Frame V))
      → IsSorted (inorder t)
      → Found price t fs (search_node price t fs)
  unfolding search_node
  search_node-Found price leaf fs s = refl
  search_node-Found price (node c l p v r) fs s =
      let (sl, sr, b, a) = IsSorted-split (inorder l) p v (inorder r) s in
      elim (Bool-cases (price == p)) [
        | inl hit ↦
            let e : price ≡ p = ground arith in
            rw (hit, search_node)
              (sym e, refl, rw e (lookup-Below p (inorder l) _ b ∙ ground arith))
        | inr miss ↦ elim (Bool-cases (ltb price p)) [
          | inl low ↦
              rw (miss, low, search_node)
                (Found-left price c l p v r fs (search_node price l (in_left c p v r ∷ fs))
                  (ground arith) a (search_node-Found price l (in_left c p v r ∷ fs) sl))
          | inr high ↦
              rw (miss, high, search_node)
                (Found-right price c l p v r fs (search_node price r (in_right c l p v ∷ fs))
                  (ground arith) b (search_node-Found price r (in_right c l p v ∷ fs) sr))
        ]
      ]

  -- `Search` on a sorted tree returns the level of the entry with the price, and none if there is
  -- no such entry.
  pub search-eq-lookup :
      (price : ℕ) (t : Tree V) → IsSorted (inorder t) → search price t ≡ lookup price (inorder t)
  unfolding search
  search-eq-lookup price t s = go (search_node price t []) refl (search_node-Found price t [] s)
    where
      go :
          (o : Option (Location V))
          → search_node price t [] ≡ o
          → Found price t [] o
          → search price t ≡ lookup price (inorder t)
      go none e f = rw (e, search) (sym f)
      go (some z) e (p, q, g) = rw (e, search) (sym g)
