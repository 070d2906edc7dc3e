-- ===== src/OrderBook/RbTree/RemovalInorder.antt =====
-- `deleteFixup` keeps the entries of the tree.
use quant_finance_pipeline.Prelude.{
  ℕ, zero, suc, List, [], ◌∷◌, ◌++◌, Option, none, some, ◌≡◌, refl, sym, ap, ◌∙◌, append_assoc,
  ◌>>=◌, inl, inr,
}
use quant_finance_pipeline.OrderBook.RbTree.{
  Color, red, black, Tree, leaf, node, Frame, in_left, in_right, color_of, set_color, attach, plug,
  left_rotate, right_rotate, Color-cases,
}
use quant_finance_pipeline.OrderBook.RbTree.Removal.{
  Fix, done, climb, raise_sibling, recolor_right, recolor_left, red_right, red_left, both_black,
  rotate_up, borrow, fix_round, delete_fixup,
}
use quant_finance_pipeline.OrderBook.RbTree.Inorder.{
  inorder, around, Holds, Holds-bind, Holds-eq, inorder-plug, inorder-set_color, left_rotate-Holds,
  right_rotate-Holds,
}

module _ {ℓ} {V : Type ℓ} where
  inorder-recolor_right : (c : Color) (t : Tree V) → inorder (recolor_right c t) ≡ inorder t
  inorder-recolor_right c leaf = refl
  inorder-recolor_right c (node d a q w b) = simp inorder-set_color

  inorder-recolor_left : (c : Color) (t : Tree V) → inorder (recolor_left c t) ≡ inorder t
  inorder-recolor_left c leaf = refl
  inorder-recolor_left c (node d a q w b) = simp inorder-set_color

  red_right-Holds : (s : Tree V) → Holds (inorder s) (red_right s)
  red_right-Holds leaf = tt
  red_right-Holds (node d a q w b) = elim (Color-cases (color_of b)) [
    | inl e ↦ rw (e, red_right) refl
    | inr e ↦
        rw (e, red_right)
          (Holds-eq (right_rotate (node red (set_color black a) q w b))
            (ap (λ xs. xs ++ (q, w) ∷ inorder b) (inorder-set_color black a))
            (right_rotate-Holds (node red (set_color black a) q w b)))
  ]

  red_left-Holds : (s : Tree V) → Holds (inorder s) (red_left s)
  red_left-Holds leaf = tt
  red_left-Holds (node d a q w b) = elim (Color-cases (color_of a)) [
    | inl e ↦ rw (e, red_left) refl
    | inr e ↦
        rw (e, red_left)
          (Holds-eq (left_rotate (node red a q w (set_color black b)))
            (ap (λ xs. inorder a ++ (q, w) ∷ xs) (inorder-set_color black b))
            (left_rotate-Holds (node red a q w (set_color black b))))
  ]

  rotate_up-Holds : (x : Tree V) (f : Frame V) → Holds (inorder (attach x f)) (rotate_up x f)
  rotate_up-Holds x (in_left c p v s) = Holds-bind _ (red_right s) _ (red_right-Holds s) λ t e.
      Holds-eq (left_rotate (node black x p v (recolor_right c t)))
        (ap (λ xs. inorder x ++ (p, v) ∷ xs) (inorder-recolor_right c t ∙ e))
        (left_rotate-Holds (node black x p v (recolor_right c t)))
  rotate_up-Holds x (in_right c s p v) = Holds-bind _ (red_left s) _ (red_left-Holds s) λ t e.
      Holds-eq (right_rotate (node black (recolor_left c t) p v x))
        (ap (λ xs. xs ++ (p, v) ∷ inorder x) (inorder-recolor_left c t ∙ e))
        (right_rotate-Holds (node black (recolor_left c t) p v x))

  -- A round keeps these entries, unless the code panics.
  abbrev FixHolds : List (ℕ × V) → Option (Fix V) → Type ℓ
  FixHolds xs none = Unit
  FixHolds xs (some (done t)) = inorder t ≡ xs
  FixHolds xs (some (climb y gs)) = around gs (inorder y) ≡ xs

  finish-FixHolds :
      (o : Option (Tree V)) (xs : List (ℕ × V)) (fs : List (Frame V))
      → Holds xs o
      → FixHolds (around fs xs) (o >>= λ t. some (done (set_color black (plug t fs))))
  finish-FixHolds none xs fs h = tt
  finish-FixHolds (some t) xs fs h =
      inorder-set_color black (plug t fs) ∙ inorder-plug t fs ∙ ap (around fs) h

  borrow-FixHolds :
      (x : Tree V) (f : Frame V) (fs : List (Frame V))
      → FixHolds (around (f ∷ fs) (inorder x)) (borrow x f fs)
  borrow-FixHolds x (in_left c p v leaf) fs = tt
  borrow-FixHolds x (in_left c p v (node d a q w b)) fs = elim (Color-cases (both_black a b)) [
    | inr e ↦ rw (e, borrow) refl
    | inl e ↦
        rw (e, borrow)
          (finish-FixHolds (rotate_up x (in_left c p v (node d a q w b))) _ fs
            (rotate_up-Holds x (in_left c p v (node d a q w b))))
  ]
  borrow-FixHolds x (in_right c leaf p v) fs = tt
  borrow-FixHolds x (in_right c (node d a q w b) p v) fs = elim (Color-cases (both_black a b)) [
    | inr e ↦ rw (e, borrow) refl
    | inl e ↦
        rw (e, borrow)
          (finish-FixHolds (rotate_up x (in_right c (node d a q w b) p v)) _ fs
            (rotate_up-Holds x (in_right c (node d a q w b) p v)))
  ]

  around-raise_sibling :
      (f : Frame V) (fs : List (Frame V)) (xs : List (ℕ × V))
      → around ((raise_sibling f fs).0 ∷ (raise_sibling f fs).1) xs ≡ around (f ∷ fs) xs
  around-raise_sibling (in_left c p v leaf) fs xs = refl
  around-raise_sibling (in_left c p v (node red a q w b)) fs xs =
      ap (around fs) (append_assoc xs ((p, v) ∷ inorder a) ((q, w) ∷ inorder b))
  around-raise_sibling (in_left c p v (node black a q w b)) fs xs = refl
  around-raise_sibling (in_right c leaf p v) fs xs = refl
  around-raise_sibling (in_right c (node red a q w b) p v) fs xs =
      ap (around fs) (sym (append_assoc (inorder a) ((q, w) ∷ inorder b) ((p, v) ∷ xs)))
  around-raise_sibling (in_right c (node black a q w b) p v) fs xs = refl

  FixHolds-eq :
      (o : Option (Fix V)) {xs ys : List (ℕ × V)} → xs ≡ ys → FixHolds xs o → FixHolds ys o
  FixHolds-eq none e h = tt
  FixHolds-eq (some (done t)) e h = h ∙ e
  FixHolds-eq (some (climb y gs)) e h = h ∙ e

  fix_round-FixHolds :
      (x : Tree V) (f : Frame V) (fs : List (Frame V))
      → FixHolds (around (f ∷ fs) (inorder x)) (fix_round x f fs)
  unfolding fix_round
  fix_round-FixHolds x f fs =
      let (g, gs) = raise_sibling f fs in
      FixHolds-eq (borrow x g gs) (around-raise_sibling f fs (inorder x)) (borrow-FixHolds x g gs)

  -- `deleteFixup` keeps the entries.
  pub delete_fixup-Holds :
      (n : ℕ) (x : Tree V) (fs : List (Frame V))
      → Holds (around fs (inorder x)) (delete_fixup n x fs)
  unfolding delete_fixup
  delete_fixup-Holds zero x fs = tt
  delete_fixup-Holds (suc n) x [] = inorder-set_color black x
  delete_fixup-Holds (suc n) x (f ∷ fs) = elim (Color-cases (color_of x)) [
    | inl e ↦
        rw (e, delete_fixup)
          (inorder-plug (set_color black x) (f ∷ fs)
            ∙ ap (around (f ∷ fs)) (inorder-set_color black x))
    | inr e ↦
        rw (e, delete_fixup)
          (go (delete_fixup-Holds n) (fix_round x f fs) (fix_round-FixHolds x f fs))
  ]
    where
      go :
          ((y : Tree V) (gs : List (Frame V)) → Holds (around gs (inorder y)) (delete_fixup n y gs))
          → (o : Option (Fix V)) → FixHolds (around (f ∷ fs) (inorder x)) o
          → Holds (around (f ∷ fs) (inorder x)) (elim o [
            | none ↦ none
            | some (done t) ↦ some t
            | some (climb y gs) ↦ delete_fixup n y gs
          ])
      go next none h = tt
      go next (some (done t)) h = h
      go next (some (climb y gs)) h = Holds-eq (delete_fixup n y gs) h (next y gs)
