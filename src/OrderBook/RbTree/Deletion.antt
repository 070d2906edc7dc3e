-- ===== src/OrderBook/RbTree/Deletion.antt =====
-- `Delete` on a balanced search tree: what its result holds and that it is one.
use quant_finance_pipeline.Prelude.{
  ℕ, ◌+◌, List, [], ◌∷◌, ◌++◌, Option, none, some, ◌≡◌, refl, sym, ap, subst, ◌∙◌, length,
  append_assoc, append-nil, arith, ltb, ◌==◌, inl, inr, Bool-cases,
}
use quant_finance_pipeline.OrderBook.Entries.{
  IsSorted, remove, IsSorted-split, remove-append, remove-none, IsSorted-remove,
}
use quant_finance_pipeline.OrderBook.RbTree.{
  Color, red, black, Tree, leaf, node, Frame, in_left, in_right, Location, color_of, tree_at,
  search_node,
}
use quant_finance_pipeline.OrderBook.RbTree.Removal.{minimum, unlink, delete_node, delete}
use quant_finance_pipeline.OrderBook.RbTree.Inorder.{inorder, around, Holds, Holds-eq, inorder-plug}
use quant_finance_pipeline.OrderBook.RbTree.Balance.{
  FrameOk, FrameOk-swap, IsRedBlack, PathOk, black_height, weight, Balances, PathOk-left,
  PathOk-right, PathOk-black, plug-IsBalanced, set_color-IsRedBlack,
}
use quant_finance_pipeline.OrderBook.RbTree.Searching.{
  before, after, around-eq-append, Found, search_node-Found,
}
use quant_finance_pipeline.OrderBook.RbTree.Insertion.{IsSearchTree}
use quant_finance_pipeline.OrderBook.RbTree.RemovalInorder.{delete_fixup-Holds}
use quant_finance_pipeline.OrderBook.RbTree.RemovalBalance.{delete_fixup-Balances, rank-le}

module _ {ℓ} {V : Type ℓ} where
  unlink-Holds :
      (c : Color) (x : Tree V) (fs : List (Frame V)) → Holds (around fs (inorder x)) (unlink c x fs)
  unfolding unlink
  unlink-Holds red x fs = inorder-plug x fs
  unlink-Holds black x fs = delete_fixup-Holds (length fs + 2) x fs

  unlink-Balances :
      (c : Color) (x : Tree V) (fs : List (Frame V))
      → IsRedBlack x
      → FrameOk c black (color_of x)
      → PathOk fs c (black_height x + weight c)
      → Balances (unlink c x fs)
  unfolding unlink
  unlink-Balances red x fs h o k =
      plug-IsBalanced x fs h
        (rw o.1 (PathOk-black fs red _ (subst (PathOk fs red) (omega arith) k)))
  unlink-Balances black x fs h o k =
      delete_fixup-Balances (length fs + 2) x fs ((set_color-IsRedBlack x h).0, k)
        (omega (arith, rank-le (color_of x) (length fs)))

  -- The least node of a subtree holds its first entry, and nothing stands left of it.
  minimum-Least :
      (c : Color) (l : Tree V) (p : ℕ) (v : V) (r : Tree V) (gs fs : List (Frame V))
      → let y = minimum c l p v r gs in
        (rest : List (ℕ × V)) × (inorder (node c l p v r) ≡ (y.price, y.level) ∷ rest)
        × (around (y.path ++ fs) (inorder y.right) ≡ around (gs ++ fs) rest)
  unfolding minimum
  minimum-Least c leaf p v r gs fs = (inorder r, refl, refl)
  minimum-Least c (node d a q w b) p v r gs fs =
      let (rest, e, k) = minimum-Least d a q w b (in_left c p v r ∷ gs) fs in
      (rest ++ (p, v) ∷ inorder r, ap (λ xs. xs ++ (p, v) ∷ inorder r) e, k)

  minimum-PathOk :
      (c : Color) (l : Tree V) (p : ℕ) (v : V) (r : Tree V) (gs fs : List (Frame V))
      → IsRedBlack (node c l p v r)
      → PathOk (gs ++ fs) c (black_height l + weight c)
      → let y = minimum c l p v r gs in
        IsRedBlack y.right
        × FrameOk y.color black (color_of y.right)
        × PathOk (y.path ++ fs) y.color (black_height y.right + weight y.color)
  unfolding minimum
  minimum-PathOk c leaf p v r gs fs (hl, hr, e, o) k = (hr, o, rw (← e) k)
  minimum-PathOk c (node d a q w b) p v r gs fs h k =
      minimum-PathOk d a q w b (in_left c p v r ∷ gs) fs h.0
        (PathOk-left c (node d a q w b) p v r (gs ++ fs) h k)

  delete_node-Holds :
      (l r : Tree V) (c : Color) (fs : List (Frame V))
      → Holds (around fs (inorder l ++ inorder r)) (delete_node l r c fs)
  unfolding delete_node
  delete_node-Holds leaf r c fs = unlink-Holds c r fs
  delete_node-Holds (node d a q w b) leaf c fs =
      Holds-eq (unlink c (node d a q w b) fs) (ap (around fs) (sym (append-nil _)))
        (unlink-Holds c (node d a q w b) fs)
  delete_node-Holds (node d a q w b) (node d' a' q' w' b') c fs =
      let y = minimum d' a' q' w' b' [] in
      let up = in_right c (node d a q w b) y.price y.level ∷ fs in
      let (rest, e, k) = minimum-Least d' a' q' w' b' [] up in
      Holds-eq (unlink y.color y.right (y.path ++ up))
        (k ∙ ap (λ xs. around fs (inorder (node d a q w b) ++ xs)) (sym e))
        (unlink-Holds y.color y.right (y.path ++ up))

  delete_node-Balances :
      (l : Tree V) (p : ℕ) (v : V) (r : Tree V) (c : Color) (fs : List (Frame V))
      → IsRedBlack (node c l p v r)
      → PathOk fs c (black_height l + weight c)
      → Balances (delete_node l r c fs)
  unfolding delete_node
  delete_node-Balances leaf p v r c fs (hl, hr, e, o) k = unlink-Balances c r fs hr o (rw (← e) k)
  delete_node-Balances (node d a q w b) p v leaf c fs (hl, hr, e, o) k =
      unlink-Balances c (node d a q w b) fs hl (FrameOk-swap c _ _ o) k
  delete_node-Balances (node d a q w b) p v (node d' a' q' w' b') c fs h k =
      let y = minimum d' a' q' w' b' [] in
      let up = in_right c (node d a q w b) y.price y.level ∷ fs in
      let (hy, oy, ky) =
        minimum-PathOk d' a' q' w' b' [] up h.1
          (PathOk-right c (node d a q w b) y.price y.level (node d' a' q' w' b') fs h k) in
      unlink-Balances y.color y.right (y.path ++ up) hy oy ky

  -- The search keeps the path fit for the node that it finds.
  abbrev Fits : Option (Location V) → Type 0
  Fits none = Unit
  Fits (some z) =
      IsRedBlack (tree_at z) × PathOk z.path z.color (black_height z.left + weight z.color)

  search_node-Fits :
      (price : ℕ) (t : Tree V) (fs : List (Frame V))
      → IsRedBlack t
      → PathOk fs (color_of t) (black_height t)
      → Fits (search_node price t fs)
  unfolding search_node
  search_node-Fits price leaf fs h k = tt
  search_node-Fits price (node c l p v r) fs h k = elim (Bool-cases (price == p)) [
    | inl hit ↦ rw (hit, search_node) (h, k)
    | inr miss ↦ elim (Bool-cases (ltb price p)) [
      | inl low ↦
          rw (miss, low, search_node)
            (search_node-Fits price l (in_left c p v r ∷ fs) h.0 (PathOk-left c l p v r fs h k))
      | inr high ↦
          rw (miss, high, search_node)
            (search_node-Fits price r (in_right c l p v ∷ fs) h.1 (PathOk-right c l p v r fs h k))
    ]
  ]

  -- A sorted list of entries around a node, without the node.
  remove-around :
      (z : Location V) (xs : List (ℕ × V))
      → IsSorted xs
      → around z.path (inorder (tree_at z)) ≡ xs
      → around z.path (inorder z.left ++ inorder z.right) ≡ remove z.price xs
  remove-around z xs s e =
      let whole : (before z.path ++ inorder z.left)
            ++ (z.price, z.level) ∷ (inorder z.right ++ after z.path)
          ≡ xs =
        sym (around-eq-append z.path (inorder (tree_at z)) ∙ (simp append_assoc)) ∙ e in
      let (_, _, b, _) =
        IsSorted-split (before z.path ++ inorder z.left) z.price z.level
          (inorder z.right ++ after z.path) (subst IsSorted (sym whole) s) in
      around-eq-append z.path (inorder z.left ++ inorder z.right)
      ∙ (simp append_assoc)
      ∙ sym (
          remove-append z.price z.level (before z.path ++ inorder z.left)
            (inorder z.right ++ after z.path) b)
      ∙ ap (remove z.price) whole

  delete_found :
      (price : ℕ) (t : Tree V) (o : Option (Tree V)) (xs : List (ℕ × V))
      → IsSorted (inorder t)
      → Holds xs o
      → xs ≡ remove price (inorder t)
      → Balances o
      → (t' : Tree V) × (o ≡ some t') × IsSearchTree t' × (inorder t' ≡ remove price (inorder t))
  delete_found price t none xs s h e b = absurd b
  delete_found price t (some t') xs s h e b = (
    t',
    refl,
    record { sorted = rw (h, e) (IsSorted-remove price (inorder t) s); balanced = b },
    h ∙ e,
  )

  -- `Delete` on a balanced search tree never panics, and its loop ends. The tree is again a balanced
  -- search tree, whose entries are those before without the one of the price.
  pub delete-refines :
      (price : ℕ) (t : Tree V)
      → IsSearchTree t
      → (t' : Tree V) × (delete price t ≡ some t')
        × IsSearchTree t'
        × (inorder t' ≡ remove price (inorder t))
  unfolding delete
  delete-refines price t h =
      go (search_node price t []) refl (search_node-Found price t [] h.sorted)
        (search_node-Fits price t [] h.balanced.0 h.balanced.1)
    where
      go :
          (o : Option (Location V))
          → search_node price t [] ≡ o
          → Found price t [] o
          → Fits o
          → (t' : Tree V) × (delete price t ≡ some t')
            × IsSearchTree t'
            × (inorder t' ≡ remove price (inorder t))
      go none e f k = rw (e, delete) (t, refl, h, sym (remove-none price (inorder t) f))
      go (some z) e (p, q, g) (r, k) =
          rw (e, delete)
            (delete_found price t (delete_node z.left z.right z.color z.path) _ h.sorted
              (delete_node-Holds z.left z.right z.color z.path)
              (remove-around z (inorder t) h.sorted q ∙ ap (λ i. remove i (inorder t)) p)
              (delete_node-Balances z.left z.price z.level z.right z.color z.path r k))
