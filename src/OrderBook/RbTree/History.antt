-- ===== src/OrderBook/RbTree/History.antt =====
-- Any sequence of calls of `Insert` and `Delete` on a tree of internal/orderbook/rbtree.go.
use quant_finance_pipeline.Prelude.{ℕ, List, [], ◌∷◌, Option, some, ◌≡◌, refl, ◌>>=◌}
use quant_finance_pipeline.OrderBook.Entries.{put, remove}
use quant_finance_pipeline.OrderBook.RbTree.{Tree, leaf, insert}
use quant_finance_pipeline.OrderBook.RbTree.Removal.{delete}
use quant_finance_pipeline.OrderBook.RbTree.Inorder.{inorder}
use quant_finance_pipeline.OrderBook.RbTree.Insertion.{IsSearchTree, insert-refines}
use quant_finance_pipeline.OrderBook.RbTree.Deletion.{delete-refines}

-- A call, with the level that `NewPriceLevel` would make.
pub data Call {ℓ} (V : Type ℓ) : Type ℓ where
  inserts : ℕ → V → Call V
  deletes : ℕ → Call V

module _ {ℓ} {V : Type ℓ} where
  -- `none` is a panic.
  unfoldable pub run : List (Call V) → Tree V → Option (Tree V)
  run [] t = some t
  run (inserts p v ∷ cs) t = insert p v t >>= λ r. run cs r.0
  run (deletes p ∷ cs) t = delete p t >>= run cs

  -- The same calls on a sorted list of entries.
  unfoldable pub replay : List (Call V) → List (ℕ × V) → List (ℕ × V)
  replay [] xs = xs
  replay (inserts p v ∷ cs) xs = replay cs (put p v xs)
  replay (deletes p ∷ cs) xs = replay cs (remove p xs)

  run-refines :
      (cs : List (Call V)) (t : Tree V) (xs : List (ℕ × V))
      → IsSearchTree t
      → inorder t ≡ xs
      → (t' : Tree V) × (run cs t ≡ some t') × IsSearchTree t' × (inorder t' ≡ replay cs xs)
  unfolding run replay
  run-refines [] t xs h e = (t, refl, h, e)
  run-refines (inserts p v ∷ cs) t xs h e =
      let (t', i, h', e') = insert-refines p v t h in
      rw (i, run) (run-refines cs t' (put p v xs) h' (rw e at e'))
  run-refines (deletes p ∷ cs) t xs h e =
      let (t', i, h', e') = delete-refines p t h in
      rw (i, run) (run-refines cs t' (remove p xs) h' (rw e at e'))

  -- No sequence of `Insert` and `Delete` on a new tree panics or loops, and its tree is balanced and
  -- ordered and holds what the same calls leave of a list of entries sorted by price.
  pub run-new_refines :
      (cs : List (Call V))
      → (t : Tree V) × (run cs leaf ≡ some t) × IsSearchTree t × (inorder t ≡ replay cs [])
  run-new_refines cs = run-refines cs leaf [] (record { sorted = tt; balanced = (tt, refl) }) refl
