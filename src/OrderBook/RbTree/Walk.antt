-- ===== src/OrderBook/RbTree/Walk.antt =====
-- internal/orderbook/rbtree.go: `GetBest`, `GetLevels`, `Size` and the walks that they make.
use quant_finance_pipeline.Prelude.{
  ℕ, zero, suc, ◌+◌, List, [], ◌∷◌, Option, none, some, Bool, if◌then◌else◌, ◌>>=◌,
}
use quant_finance_pipeline.OrderBook.RbTree.{
  Color, Tree, leaf, node, Frame, in_left, in_right, Location, tree_at,
}
use quant_finance_pipeline.OrderBook.RbTree.Removal.{minimum}

module _ {ℓ} {V : Type ℓ} where
  unfoldable pub maximum : Color → Tree V → ℕ → V → Tree V → List (Frame V) → Location V
  maximum c l p v leaf fs = record {
    color = c;
    left = l;
    price = p;
    level = v;
    right = leaf;
    path = fs;
  }
  maximum c l p v (node d a q w b) fs = maximum d a q w b (in_right c l p v ∷ fs)

  -- The loop of `successor`: up while `x` is a right child.
  unfoldable pub climb_right : Tree V → List (Frame V) → Option (Location V)
  climb_right x [] = none
  climb_right x (in_left c p v r ∷ fs) =
      some (record { color = c; left = x; price = p; level = v; right = r; path = fs })
  climb_right x (in_right c l p v ∷ fs) = climb_right (node c l p v x) fs

  unfoldable pub climb_left : Tree V → List (Frame V) → Option (Location V)
  climb_left x [] = none
  climb_left x (in_right c l p v ∷ fs) =
      some (record { color = c; left = l; price = p; level = v; right = x; path = fs })
  climb_left x (in_left c p v r ∷ fs) = climb_left (node c x p v r) fs

  unfoldable pub successor : Location V → Option (Location V)
  successor z = elim z.right [
    | leaf ↦ climb_right (tree_at z) z.path
    | node c l p v r ↦ some (minimum c l p v r (in_right z.color z.left z.price z.level ∷ z.path))
  ]

  unfoldable pub predecessor : Location V → Option (Location V)
  predecessor z = elim z.left [
    | leaf ↦ climb_left (tree_at z) z.path
    | node c l p v r ↦ some (maximum c l p v r (in_left z.color z.price z.level z.right ∷ z.path))
  ]

  -- The node where `GetBest` and `GetLevels` begin: the greatest of a bid tree, the least of an
  -- ask tree.
  unfoldable pub best_node : Bool → Tree V → Option (Location V)
  best_node is_bid leaf = none
  best_node is_bid (node c l p v r) =
      if is_bid then some (maximum c l p v r []) else some (minimum c l p v r [])

  unfoldable pub get_best : Bool → Tree V → Option V
  get_best is_bid t = do z ← best_node is_bid t; some z.level

  -- The loop of `GetLevels`; the second number is the room that `maxLevels` leaves, and the fuel
  -- counts the rounds.
  unfoldable pub collect :
      (V → Bool) → (Location V → Option (Location V)) → ℕ → ℕ → Option (Location V) → List V
  collect is_empty next zero k z = []
  collect is_empty next (suc n) k none = []
  collect is_empty next (suc n) zero (some z) = []
  collect is_empty next (suc n) (suc k) (some z) =
      let skip = collect is_empty next n (suc k) (next z) in
      let keep = z.level ∷ collect is_empty next n k (next z) in
      if is_empty z.level then skip else keep

  -- `Size`
  unfoldable pub size : Tree V → ℕ
  size leaf = 0
  size (node c l p v r) = 1 + size l + size r

  -- `maxLevels` is not negative here; a negative one gives no level either.
  unfoldable pub get_levels : (V → Bool) → Bool → ℕ → Tree V → List V
  get_levels is_empty is_bid max_levels t =
      collect is_empty (if is_bid then predecessor else successor) (suc (size t)) max_levels
        (best_node is_bid t)
