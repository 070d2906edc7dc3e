-- ===== src/OrderBook/RbTree/Walking.antt =====
-- `GetBest` and `GetLevels` read a tree in the order of the book.
use mathlib.Core.List.{reverse-append}
use quant_finance_pipeline.Prelude.{
  ℕ, zero, suc, ◌<◌, List, [], ◌∷◌, ◌++◌, reverse, take, Option, none, some, ◌≡◌, refl, sym, ap,
  ◌∙◌, length, length-append, length-reverse, append_assoc, append-nil, arith, Bool, true, false,
  inl, inr, Bool-cases, if◌then◌else◌, ◌>>=◌,
}
use quant_finance_pipeline.OrderBook.RbTree.{
  Color, Tree, leaf, node, Frame, in_left, in_right, Location, tree_at,
}
use quant_finance_pipeline.OrderBook.RbTree.Removal.{minimum}
use quant_finance_pipeline.OrderBook.RbTree.Walk.{
  maximum, climb_left, climb_right, successor, predecessor, best_node, get_best, collect,
  get_levels, size,
}
use quant_finance_pipeline.OrderBook.RbTree.Inorder.{inorder}
use quant_finance_pipeline.OrderBook.RbTree.Searching.{before, after}

module _ {ℓ} {V : Type ℓ} where
  abbrev entry : Location V → ℕ × V
  entry z = (z.price, z.level)

  -- The entries that follow a node, upwards and downwards.
  abbrev above : Location V → List (ℕ × V)
  above z = inorder z.right ++ after z.path

  abbrev below : Location V → List (ℕ × V)
  below z = before z.path ++ inorder z.left

  minimum-above :
      (c : Color) (l : Tree V) (p : ℕ) (v : V) (r : Tree V) (fs : List (Frame V))
      → let y = minimum c l p v r fs in inorder (node c l p v r) ++ after fs ≡ entry y ∷ above y
  unfolding minimum
  minimum-above c leaf p v r fs = refl
  minimum-above c (node d a q w b) p v r fs =
      append_assoc (inorder (node d a q w b)) _ _ ∙ minimum-above d a q w b (in_left c p v r ∷ fs)

  maximum-below :
      (c : Color) (l : Tree V) (p : ℕ) (v : V) (r : Tree V) (fs : List (Frame V))
      → let y = maximum c l p v r fs in
        before fs ++ inorder (node c l p v r) ≡ below y ++ entry y ∷ []
  unfolding maximum
  maximum-below c l p v leaf fs = sym (append_assoc (before fs) (inorder l) _)
  maximum-below c l p v (node d a q w b) fs =
      (simp append_assoc) ∙ maximum-below d a q w b (in_right c l p v ∷ fs)

  -- The step from one node to the next agrees with the list of what follows.
  abbrev Follows : (Location V → List (ℕ × V)) → List (ℕ × V) → Option (Location V) → Type ℓ
  Follows rest xs none = xs ≡ []
  Follows rest xs (some z) = xs ≡ entry z ∷ rest z

  Follows-eq :
      (rest : Location V → List (ℕ × V)) {xs ys : List (ℕ × V)} (o : Option (Location V))
      → xs ≡ ys
      → Follows rest xs o
      → Follows rest ys o
  Follows-eq rest none e h = sym e ∙ h
  Follows-eq rest (some z) e h = sym e ∙ h

  reverse_last :
      (xs ys : List (ℕ × V)) (e : ℕ × V) → xs ≡ ys ++ e ∷ [] → reverse xs ≡ e ∷ reverse ys
  reverse_last xs ys e h = ap reverse h ∙ reverse-append ys _

  climb_right-Follows :
      (x : Tree V) (fs : List (Frame V)) → Follows above (after fs) (climb_right x fs)
  unfolding climb_right
  climb_right-Follows x [] = refl
  climb_right-Follows x (in_left c p v r ∷ fs) = refl
  climb_right-Follows x (in_right c l p v ∷ fs) = climb_right-Follows (node c l p v x) fs

  climb_left-Follows :
      (x : Tree V) (fs : List (Frame V))
      → Follows (λ z. reverse (below z)) (reverse (before fs)) (climb_left x fs)
  unfolding climb_left
  climb_left-Follows x [] = refl
  climb_left-Follows x (in_right c l p v ∷ fs) = reverse-append (before fs ++ inorder l) _
  climb_left-Follows x (in_left c p v r ∷ fs) = climb_left-Follows (node c x p v r) fs

  successor-Follows : (z : Location V) → Follows above (above z) (successor z)
  unfolding successor
  successor-Follows z = go z.right refl
    where
      go : (r : Tree V) → z.right ≡ r → Follows above (above z) (successor z)
      go leaf e = rw (e, successor) (climb_right-Follows (tree_at z) z.path)
      go (node c l p v r) e =
          rw (e, successor)
            (minimum-above c l p v r (in_right z.color z.left z.price z.level ∷ z.path))

  predecessor-Follows :
      (z : Location V) → Follows (λ z. reverse (below z)) (reverse (below z)) (predecessor z)
  unfolding predecessor
  predecessor-Follows z = go z.left refl
    where
      go :
          (l : Tree V)
          → z.left ≡ l
          → Follows (λ z. reverse (below z)) (reverse (below z)) (predecessor z)
      go leaf e =
          rw (e, predecessor)
            (Follows-eq (λ z. reverse (below z)) (climb_left (tree_at z) z.path)
              (ap reverse (sym (append-nil (before z.path))))
              (climb_left-Follows (tree_at z) z.path))
      go (node c l p v r) e =
          rw (e, predecessor)
            (reverse_last _ _ _
              (maximum-below c l p v r (in_left z.color z.price z.level z.right ∷ z.path)))

  -- The levels that a snapshot shows: those that hold orders, in the order given.
  abbrev pub live : (V → Bool) → List (ℕ × V) → List V
  live is_empty [] = []
  live is_empty ((p, v) ∷ m) = if is_empty v then live is_empty m else v ∷ live is_empty m

  -- From the highest price for bids, from the lowest for asks.
  abbrev pub book_order : Bool → Tree V → List (ℕ × V)
  book_order is_bid t = if is_bid then reverse (inorder t) else inorder t

  take-nil : (k : ℕ) → take {A = V} k [] ≡ []
  take-nil zero = refl
  take-nil (suc k) = refl

  collect-live :
      (is_empty : V → Bool) (next : Location V → Option (Location V))
      (rest : Location V → List (ℕ × V))
      → ((z : Location V) → Follows rest (rest z) (next z))
      → (n k : ℕ) (o : Option (Location V)) (xs : List (ℕ × V)) → Follows rest xs o
      → length xs < n
      → collect is_empty next n k o ≡ take k (live is_empty xs)
  unfolding collect
  collect-live is_empty next rest f zero k o xs h m = elim m [ ]
  collect-live is_empty next rest f (suc n) k none xs h m = rw h (sym (take-nil k))
  collect-live is_empty next rest f (suc n) zero (some z) xs h m = refl
  collect-live is_empty next rest f (suc n) (suc k) (some z) xs h m =
      let fits : length (rest z) < n = omega (arith, ap length h) in
      let later = λ (j : ℕ). collect-live is_empty next rest f n j (next z) (rest z) (f z) fits in
      elim (Bool-cases (is_empty z.level)) [
        | inl hidden ↦ rw (h, hidden, collect) (later (suc k))
        | inr shown ↦ rw (h, shown, collect) (ap (λ vs. z.level ∷ vs) (later k))
      ]

  length-inorder : (t : Tree V) → length (inorder t) ≡ size t
  unfolding size
  length-inorder leaf = refl
  length-inorder (node c l p v r) =
      omega
        (arith, length-append (inorder l) ((p, v) ∷ inorder r), length-inorder l, length-inorder r)

  length-book_order : (is_bid : Bool) (t : Tree V) → length (book_order is_bid t) ≡ size t
  length-book_order true t = length-reverse (inorder t) ∙ length-inorder t
  length-book_order false t = length-inorder t

  best_node-Follows :
      (is_bid : Bool) (t : Tree V)
      → Follows
          (if is_bid then (λ z. reverse (below z)) else above)
          (book_order is_bid t)
          (best_node is_bid t)
  unfolding best_node
  best_node-Follows true leaf = refl
  best_node-Follows false leaf = refl
  best_node-Follows true (node c l p v r) = reverse_last _ _ _ (maximum-below c l p v r [])
  best_node-Follows false (node c l p v r) =
      sym (append-nil (inorder (node c l p v r))) ∙ minimum-above c l p v r []

  -- `GetLevels` returns the first `max_levels` levels that hold orders, from the best price on.
  pub get_levels-eq-take :
      (is_empty : V → Bool) (is_bid : Bool) (max_levels : ℕ) (t : Tree V)
      → get_levels is_empty is_bid max_levels t
        ≡ take max_levels (live is_empty (book_order is_bid t))
  unfolding get_levels
  get_levels-eq-take is_empty true k t =
      collect-live is_empty predecessor (λ z. reverse (below z)) predecessor-Follows (suc (size t))
        k (best_node true t) _ (best_node-Follows true t) (omega (arith, length-book_order true t))
  get_levels-eq-take is_empty false k t =
      collect-live is_empty successor above successor-Follows (suc (size t)) k (best_node false t) _
        (best_node-Follows false t) (omega (arith, length-book_order false t))

  abbrev pub first_level : List (ℕ × V) → Option V
  first_level [] = none
  first_level ((p, v) ∷ m) = some v

  best-first :
      (rest : Location V → List (ℕ × V)) (xs : List (ℕ × V)) (o : Option (Location V))
      → Follows rest xs o
      → (o >>= λ z. some z.level) ≡ first_level xs
  best-first rest xs none h = rw h
  best-first rest xs (some z) h = rw h

  -- `GetBest` returns the level of the highest bid or of the lowest ask, and none for an empty tree.
  pub get_best-eq-first :
      (is_bid : Bool) (t : Tree V) → get_best is_bid t ≡ first_level (book_order is_bid t)
  unfolding get_best
  get_best-eq-first is_bid t =
      best-first _ (book_order is_bid t) (best_node is_bid t) (best_node-Follows is_bid t)

  -- `Size` counts the entries.
  pub size-eq-length : (t : Tree V) → size t ≡ length (inorder t)
  size-eq-length t = sym (length-inorder t)
