-- ===== src/OrderBook/RbTree.antt =====
-- internal/orderbook/rbtree.go: the red-black tree of price levels.
--
-- A subtree is a value of `Tree`, and `leaf` is the sentinel, whose colour is black. The `Parent`
-- pointers are a `Path`, the frames from a node up to the root; a loop that climbs by `Parent`
-- recurs on it, and a write through `Parent` gives a new frame. `none` is the panic of a read
-- through the sentinel's own nil `Left` or `Right`. The level of a node is any type `V`.
-- A price is a number: the code only compares prices, and the float64 values other than NaN
-- embed into the numbers in order.
pub mod Removal
pub mod Walk
pub mod Inorder
pub mod Balance
pub mod Searching
pub mod Insertion
pub mod RemovalInorder
pub mod RemovalBalance
pub mod Deletion
pub mod Walking
pub mod Height
pub mod History
use quant_finance_pipeline.Prelude.{
  ◌≡◌, refl, ◌⊎◌, inl, inr, ℕ, zero, suc, ◌+◌, List, [], ◌∷◌, ◌++◌, Option, none, some, Bool, true,
  false, ltb, ◌==◌, if◌then◌else◌, ◌>>=◌,
}

pub data Color : Type 0 where
  red black : Color

pub Color-cases : (c : Color) → (c ≡ red) ⊎ (c ≡ black)
Color-cases red = inl refl
Color-cases black = inr refl

module _ {ℓ} where
  pub data Tree (V : Type ℓ) : Type ℓ where
    leaf : Tree V
    node : Color → Tree V → ℕ → V → Tree V → Tree V

  -- The parent of a node, seen from its left or its right child.
  pub data Frame (V : Type ℓ) : Type ℓ where
    in_left : Color → ℕ → V → Tree V → Frame V
    in_right : Color → Tree V → ℕ → V → Frame V

  -- A node together with the way up from it.
  pub record Location (V : Type ℓ) : Type ℓ where
    pub color : Color
    pub left : Tree V
    pub price : ℕ
    pub level : V
    pub right : Tree V
    pub path : List (Frame V)

module _ {ℓ} {V : Type ℓ} where
  abbrev pub color_of : Tree V → Color
  color_of leaf = black
  color_of (node c l p v r) = c

  abbrev pub frame_color : Frame V → Color
  frame_color (in_left c p v r) = c
  frame_color (in_right c l p v) = c

  abbrev pub sibling : Frame V → Tree V
  sibling (in_left c p v r) = r
  sibling (in_right c l p v) = l

  -- `n.Color = c`; the sentinel is only ever blackened.
  abbrev pub set_color : Color → Tree V → Tree V
  set_color c leaf = leaf
  set_color c (node d l p v r) = node c l p v r

  abbrev pub attach : Tree V → Frame V → Tree V
  attach t (in_left c p v r) = node c t p v r
  attach t (in_right c l p v) = node c l p v t

  -- The whole tree, from a subtree and the path above it.
  abbrev pub plug : Tree V → List (Frame V) → Tree V
  plug t [] = t
  plug t (f ∷ fs) = plug (attach t f) fs

  -- `leftRotate` and `rightRotate`, on the subtree that hangs at `x`.
  abbrev pub left_rotate : Tree V → Option (Tree V)
  left_rotate (node c a p v (node d b q w e)) = some (node d (node c a p v b) q w e)
  left_rotate _ = none

  abbrev pub right_rotate : Tree V → Option (Tree V)
  right_rotate (node c (node d a q w b) p v e) = some (node d a q w (node c b p v e))
  right_rotate _ = none

  abbrev pub tree_at : Location V → Tree V
  tree_at z = node z.color z.left z.price z.level z.right

  -- `searchNode`: the node of the price, and the way up from it.
  unfoldable pub search_node : ℕ → Tree V → List (Frame V) → Option (Location V)
  search_node price leaf fs = none
  search_node price (node c l p v r) fs =
      let here =
        some (record { color = c; left = l; price = p; level = v; right = r; path = fs }) in
      let below = search_node price l (in_left c p v r ∷ fs) in
      let above = search_node price r (in_right c l p v ∷ fs) in
      if price == p then here else if ltb price p then below else above

  unfoldable pub search : ℕ → Tree V → Option V
  search price t = do z ← search_node price t []; some z.level

  -- The descent of `insertNode`: the path of the place for `price`.
  unfoldable pub insert_path : ℕ → Tree V → List (Frame V) → List (Frame V)
  insert_path price leaf fs = fs
  insert_path price (node c l p v r) fs =
      let below = insert_path price l (in_left c p v r ∷ fs) in
      let above = insert_path price r (in_right c l p v ∷ fs) in
      if ltb price p then below else above

  -- The rotations at the end of `insertFixup`. `z` hangs below the frame `f` of its red parent,
  -- which hangs below `g`; the result hangs in the place of the grandparent.
  abbrev pub insert_rotate : Tree V → Frame V → Frame V → Option (Tree V)
  insert_rotate z (in_left c p v s) (in_left d q w y) =
      right_rotate (node red (node black z p v s) q w y)
  insert_rotate z (in_right c s p v) (in_left d q w y) = do
    t ← left_rotate (node c s p v z)
    right_rotate (node red (set_color black t) q w y)
  insert_rotate z (in_right c s p v) (in_right d y q w) =
      left_rotate (node red y q w (node black s p v z))
  insert_rotate z (in_left c p v s) (in_right d y q w) = do
    t ← right_rotate (node c z p v s)
    left_rotate (node red y q w (set_color black t))

  -- The grandparent, once it is red and both its children are black.
  abbrev pub push_red : Tree V → Frame V → Tree V
  push_red t (in_left d q w y) = node red (set_color black t) q w (set_color black y)
  push_red t (in_right d y q w) = node red (set_color black y) q w (set_color black t)

  -- The loop of `insertFixup`, at `z` below `path`.
  unfoldable pub insert_fixup : Tree V → List (Frame V) → Option (Tree V)
  insert_fixup z [] = some (set_color black z)
  insert_fixup z (f ∷ []) = elim (frame_color f) [
    | red ↦ none
    | black ↦ some (set_color black (attach z f))
  ]
  insert_fixup z (f ∷ g ∷ fs) = elim (frame_color f) [
    | red ↦ elim (color_of (sibling g)) [
      | red ↦ insert_fixup (push_red (attach z f) g) fs
      | black ↦ do t ← insert_rotate z f g; some (set_color black (plug t fs))
    ]
    | black ↦ some (set_color black (plug z (f ∷ g ∷ fs)))
  ]

  -- `Insert`: `fresh` is the level that `NewPriceLevel(price)` makes. The result has the tree and
  -- the level of the price.
  unfoldable pub insert : ℕ → V → Tree V → Option (Tree V × V)
  insert price fresh t = elim (search_node price t []) [
    | some existing ↦ some (t, existing.level)
    | none ↦ do
      t' ← insert_fixup (node red leaf price fresh leaf) (insert_path price t [])
      some (t', fresh)
  ]
