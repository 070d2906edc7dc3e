-- ===== src/OrderBook/RbTree/Inorder.antt =====
-- The entries of a tree from the lowest price to the highest, and that the rotations, recolourings
-- and loops of rbtree.go keep them.
use quant_finance_pipeline.Prelude.{
  ℕ, List, [], ◌∷◌, ◌++◌, Option, none, some, ◌≡◌, refl, sym, ap, ◌∙◌, append_assoc, ◌>>=◌, inl,
  inr,
}
use quant_finance_pipeline.OrderBook.RbTree.{
  Color, red, black, Tree, leaf, node, Frame, in_left, in_right, color_of, sibling, frame_color,
  set_color, attach, plug, left_rotate, right_rotate, insert_rotate, push_red, insert_fixup,
  Color-cases,
}

module _ {ℓ} {V : Type ℓ} where
  abbrev pub inorder : Tree V → List (ℕ × V)
  inorder leaf = []
  inorder (node c l p v r) = inorder l ++ (p, v) ∷ inorder r

  -- The entries of the whole tree, from those of a subtree and the path above it.
  abbrev pub around : List (Frame V) → List (ℕ × V) → List (ℕ × V)
  around [] xs = xs
  around (in_left c p v r ∷ fs) xs = around fs (xs ++ (p, v) ∷ inorder r)
  around (in_right c l p v ∷ fs) xs = around fs (inorder l ++ (p, v) ∷ xs)

  -- A result, unless the code panics, with these entries.
  abbrev pub Holds : List (ℕ × V) → Option (Tree V) → Type ℓ
  Holds xs none = Unit
  Holds xs (some t) = inorder t ≡ xs

  pub Holds-bind :
      {xs : List (ℕ × V)} (ys : List (ℕ × V)) (o : Option (Tree V)) (f : Tree V → Option (Tree V))
      → Holds xs o
      → ((t : Tree V) → inorder t ≡ xs → Holds ys (f t))
      → Holds ys (o >>= f)
  Holds-bind ys none f h k = tt
  Holds-bind ys (some t) f h k = k t h

  pub inorder-plug :
      (t : Tree V) (fs : List (Frame V)) → inorder (plug t fs) ≡ around fs (inorder t)
  inorder-plug t [] = refl
  inorder-plug t (in_left c p v r ∷ fs) = inorder-plug (node c t p v r) fs
  inorder-plug t (in_right c l p v ∷ fs) = inorder-plug (node c l p v t) fs

  pub inorder-set_color : (c : Color) (t : Tree V) → inorder (set_color c t) ≡ inorder t
  inorder-set_color c leaf = refl
  inorder-set_color c (node d l p v r) = refl

  pub left_rotate-Holds : (t : Tree V) → Holds (inorder t) (left_rotate t)
  left_rotate-Holds leaf = tt
  left_rotate-Holds (node c a p v leaf) = tt
  left_rotate-Holds (node c a p v (node d b q w r)) = append_assoc (inorder a) _ _

  pub right_rotate-Holds : (t : Tree V) → Holds (inorder t) (right_rotate t)
  right_rotate-Holds leaf = tt
  right_rotate-Holds (node c leaf p v r) = tt
  right_rotate-Holds (node c (node d a q w b) p v r) = sym (append_assoc (inorder a) _ _)

  pub Holds-eq : {xs ys : List (ℕ × V)} (o : Option (Tree V)) → xs ≡ ys → Holds xs o → Holds ys o
  Holds-eq none e h = tt
  Holds-eq (some t) e h = h ∙ e

  -- The rotations of `insertFixup` keep the entries below the grandparent.
  insert_rotate-Holds :
      (z : Tree V) (f g : Frame V) → Holds (inorder (attach (attach z f) g)) (insert_rotate z f g)
  insert_rotate-Holds z (in_left c p v s) (in_left d q w y) =
      right_rotate-Holds (node red (node black z p v s) q w y)
  insert_rotate-Holds z (in_right c s p v) (in_left d q w y) =
      Holds-bind _ (left_rotate (node c s p v z)) _ (left_rotate-Holds (node c s p v z)) λ t e.
        Holds-eq (right_rotate (node red (set_color black t) q w y))
          (ap (λ xs. xs ++ (q, w) ∷ inorder y) (inorder-set_color black t ∙ e))
          (right_rotate-Holds (node red (set_color black t) q w y))
  insert_rotate-Holds z (in_right c s p v) (in_right d y q w) =
      left_rotate-Holds (node red y q w (node black s p v z))
  insert_rotate-Holds z (in_left c p v s) (in_right d y q w) =
      Holds-bind _ (right_rotate (node c z p v s)) _ (right_rotate-Holds (node c z p v s)) λ t e.
        Holds-eq (left_rotate (node red y q w (set_color black t)))
          (ap (λ xs. inorder y ++ (q, w) ∷ xs) (inorder-set_color black t ∙ e))
          (left_rotate-Holds (node red y q w (set_color black t)))

  inorder-push_red : (t : Tree V) (g : Frame V) → inorder (push_red t g) ≡ inorder (attach t g)
  inorder-push_red t (in_left d q w y) = simp inorder-set_color
  inorder-push_red t (in_right d y q w) = simp inorder-set_color

  pub around-attach :
      (t : Tree V) (g : Frame V) (fs : List (Frame V))
      → around fs (inorder (attach t g)) ≡ around (g ∷ fs) (inorder t)
  around-attach t (in_left d q w y) fs = refl
  around-attach t (in_right d y q w) fs = refl

  -- `insertFixup` keeps the entries.
  pub insert_fixup-Holds :
      (z : Tree V) (fs : List (Frame V)) → Holds (around fs (inorder z)) (insert_fixup z fs)
  unfolding insert_fixup
  insert_fixup-Holds z [] = inorder-set_color black z
  insert_fixup-Holds z (in_left red p v s ∷ []) = tt
  insert_fixup-Holds z (in_left black p v s ∷ []) = refl
  insert_fixup-Holds z (in_right red s p v ∷ []) = tt
  insert_fixup-Holds z (in_right black s p v ∷ []) = refl
  insert_fixup-Holds z (f ∷ g ∷ fs) = elim (Color-cases (frame_color f)) [
    | inl e ↦ elim (Color-cases (color_of (sibling g))) [
      | inl e' ↦
          rw (e, e', insert_fixup)
            (Holds-eq (insert_fixup (push_red (attach z f) g) fs)
              (ap (around fs) (inorder-push_red (attach z f) g) ∙ up)
              (insert_fixup-Holds (push_red (attach z f) g) fs))
      | inr e' ↦
          rw (e, e', insert_fixup)
            (Holds-bind _ (insert_rotate z f g) _ (insert_rotate-Holds z f g) λ t h.
              inorder-set_color black (plug t fs) ∙ inorder-plug t fs ∙ ap (around fs) h ∙ up)
    ]
    | inr e ↦
        rw (e, insert_fixup)
          (inorder-set_color black (plug z (f ∷ g ∷ fs)) ∙ inorder-plug z (f ∷ g ∷ fs))
  ]
    where
      up : around fs (inorder (attach (attach z f) g)) ≡ around (f ∷ g ∷ fs) (inorder z)
      up = around-attach (attach z f) g fs ∙ around-attach z f (g ∷ fs)
