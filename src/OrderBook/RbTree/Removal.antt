-- ===== src/OrderBook/RbTree/Removal.antt =====
-- internal/orderbook/rbtree.go: `Delete`, `deleteNode`, `deleteFixup`, `minimum`.
use quant_finance_pipeline.Prelude.{
  ℕ, zero, suc, ◌+◌, List, [], ◌∷◌, ◌++◌, Option, none, some, ◌>>=◌, length,
}
use quant_finance_pipeline.OrderBook.RbTree.{
  Color, red, black, Tree, leaf, node, Frame, in_left, in_right, Location, color_of, set_color,
  plug, left_rotate, right_rotate, search_node,
}

-- What one round of `deleteFixup` does: it ends, with the whole tree, or goes on at the parent.
pub data Fix {ℓ} (V : Type ℓ) : Type ℓ where
  done : Tree V → Fix V
  climb : Tree V → List (Frame V) → Fix V

module _ {ℓ} {V : Type ℓ} where
  unfoldable pub minimum : Color → Tree V → ℕ → V → Tree V → List (Frame V) → Location V
  minimum c leaf p v r fs = record {
    color = c;
    left = leaf;
    price = p;
    level = v;
    right = r;
    path = fs;
  }
  minimum c (node d a q w b) p v r fs = minimum d a q w b (in_left c p v r ∷ fs)

  -- A red sibling: it turns black, the parent red, and a rotation puts the sibling above the parent.
  -- The result is the new parent of `x`, with its new sibling, and the path above that.
  abbrev pub raise_sibling : Frame V → List (Frame V) → Frame V × List (Frame V)
  raise_sibling (in_left c p v (node red a q w b)) fs =
      (in_left red p v a, in_left black q w b ∷ fs)
  raise_sibling (in_right c (node red a q w b) p v) fs =
      (in_right red b p v, in_right black a q w ∷ fs)
  raise_sibling f fs = (f, fs)

  -- The sibling takes the parent's colour and its outer child turns black.
  abbrev pub recolor_right : Color → Tree V → Tree V
  recolor_right c leaf = leaf
  recolor_right c (node d a q w b) = node c a q w (set_color black b)

  abbrev pub recolor_left : Color → Tree V → Tree V
  recolor_left c leaf = leaf
  recolor_left c (node d a q w b) = node c (set_color black a) q w b

  -- The sibling with a red outer child: itself, or after the rotation that brings one there.
  abbrev pub red_right : Tree V → Option (Tree V)
  red_right leaf = none
  red_right (node d a q w b) = elim (color_of b) [
    | black ↦ right_rotate (node red (set_color black a) q w b)
    | red ↦ some (node d a q w b)
  ]

  abbrev pub red_left : Tree V → Option (Tree V)
  red_left leaf = none
  red_left (node d a q w b) = elim (color_of a) [
    | black ↦ left_rotate (node red a q w (set_color black b))
    | red ↦ some (node d a q w b)
  ]

  abbrev pub both_black : Tree V → Tree V → Color
  both_black a b = elim (color_of a) [ red ↦ red | black ↦ color_of b ]

  -- The last rotation, at the parent.
  abbrev pub rotate_up : Tree V → Frame V → Option (Tree V)
  rotate_up x (in_left c p v s) = do
    s' ← red_right s
    left_rotate (node black x p v (recolor_right c s'))
  rotate_up x (in_right c s p v) = do
    s' ← red_left s
    right_rotate (node black (recolor_left c s') p v x)

  -- The rest of a round, whose sibling is no longer red. A sentinel there is a panic.
  abbrev pub borrow : Tree V → Frame V → List (Frame V) → Option (Fix V)
  borrow x (in_left c p v leaf) fs = none
  borrow x (in_left c p v (node d a q w b)) fs = elim (both_black a b) [
    | black ↦ some (climb (node c x p v (node red a q w b)) fs)
    | red ↦ do
      t ← rotate_up x (in_left c p v (node d a q w b))
      some (done (set_color black (plug t fs)))
  ]
  borrow x (in_right c leaf p v) fs = none
  borrow x (in_right c (node d a q w b) p v) fs = elim (both_black a b) [
    | black ↦ some (climb (node c (node red a q w b) p v x) fs)
    | red ↦ do
      t ← rotate_up x (in_right c (node d a q w b) p v)
      some (done (set_color black (plug t fs)))
  ]

  unfoldable pub fix_round : Tree V → Frame V → List (Frame V) → Option (Fix V)
  fix_round x f fs = let (g, gs) = raise_sibling f fs in borrow x g gs

  -- The loop of `deleteFixup`, at `x` below a path. The fuel counts its rounds.
  unfoldable pub delete_fixup : ℕ → Tree V → List (Frame V) → Option (Tree V)
  delete_fixup zero x fs = none
  delete_fixup (suc n) x [] = some (set_color black x)
  delete_fixup (suc n) x (f ∷ fs) = elim (color_of x) [
    | red ↦ some (plug (set_color black x) (f ∷ fs))
    | black ↦ elim (fix_round x f fs) [
      | none ↦ none
      | some (done t) ↦ some t
      | some (climb y gs) ↦ delete_fixup n y gs
    ]
  ]

  -- `x` stands in the place of a node of colour `c` that is gone.
  unfoldable pub unlink : Color → Tree V → List (Frame V) → Option (Tree V)
  unlink red x fs = some (plug x fs)
  unlink black x fs = delete_fixup (length fs + 2) x fs

  -- `deleteNode`, at a node with these children, its colour and its path. With two children the
  -- least node of the right one takes the node's place and colour.
  unfoldable pub delete_node : Tree V → Tree V → Color → List (Frame V) → Option (Tree V)
  delete_node leaf r c fs = unlink c r fs
  delete_node (node d a q w b) leaf c fs = unlink c (node d a q w b) fs
  delete_node (node d a q w b) (node d' a' q' w' b') c fs =
      let y = minimum d' a' q' w' b' [] in
      unlink y.color y.right (y.path ++ in_right c (node d a q w b) y.price y.level ∷ fs)

  unfoldable pub delete : ℕ → Tree V → Option (Tree V)
  delete price t = elim (search_node price t []) [
    | none ↦ some t
    | some z ↦ delete_node z.left z.right z.color z.path
  ]
