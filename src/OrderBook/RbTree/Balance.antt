-- ===== src/OrderBook/RbTree/Balance.antt =====
-- The red-black invariant of rbtree.go, on a whole tree and on the path above a node, and that
-- `insertFixup` restores it and never reads through the sentinel.
use quant_finance_pipeline.Prelude.{
  ℕ, ◌+◌, List, [], ◌∷◌, Option, none, some, ◌≡◌, refl, sym, subst, ◌∙◌, ◌≢◌, arith, ◌>>=◌, inl,
  inr,
}
use quant_finance_pipeline.OrderBook.RbTree.{
  Color, red, black, Tree, leaf, node, Frame, in_left, in_right, color_of, sibling, frame_color,
  set_color, attach, plug, insert_rotate, push_red, insert_fixup, Color-cases,
}

pub red≢black : red ≢ black
red≢black e = cc

abbrev pub weight : Color → ℕ
weight red = 0
weight black = 1

-- A red node has black children.
abbrev pub FrameOk : Color → Color → Color → Type 0
FrameOk red c d = (c ≡ black) × (d ≡ black)
FrameOk black c d = Unit

pub FrameOk-swap : (c a b : Color) → FrameOk c a b → FrameOk c b a
FrameOk-swap red a b h = (h.1, h.0)
FrameOk-swap black a b h = tt

module _ {ℓ} {V : Type ℓ} where
  -- The black nodes on the leftmost way down.
  abbrev pub black_height : Tree V → ℕ
  black_height leaf = 0
  black_height (node c l p v r) = black_height l + weight c

  -- Every way down has as many black nodes, and no red node has a red child.
  abbrev pub IsRedBlack : Tree V → Type 0
  IsRedBlack leaf = Unit
  IsRedBlack (node c l p v r) =
      IsRedBlack l
      × IsRedBlack r
      × (black_height l ≡ black_height r)
      × FrameOk c (color_of l) (color_of r)

  -- The path fits a subtree of this colour and black height, below a black root.
  abbrev pub PathOk : List (Frame V) → Color → ℕ → Type 0
  PathOk [] c n = c ≡ black
  PathOk (f ∷ fs) c n =
      IsRedBlack (sibling f)
      × (black_height (sibling f) ≡ n)
      × FrameOk (frame_color f) c (color_of (sibling f))
      × PathOk fs (frame_color f) (n + weight (frame_color f))

  abbrev pub IsBalanced : Tree V → Type 0
  IsBalanced t = IsRedBlack t × (color_of t ≡ black)

  -- The code does not panic, and its result is balanced.
  abbrev pub Balances : Option (Tree V) → Type 0
  Balances none = ⊥
  Balances (some t) = IsBalanced t

  pub set_color-IsRedBlack : (t : Tree V) → IsRedBlack t → IsBalanced (set_color black t)
  set_color-IsRedBlack leaf h = (tt, refl)
  set_color-IsRedBlack (node c l p v r) h = ((h.0, h.1, h.2, tt), refl)

  pub attach-IsRedBlack :
      (t : Tree V) (f : Frame V)
      → IsRedBlack t
      → IsRedBlack (sibling f)
      → black_height (sibling f) ≡ black_height t
      → FrameOk (frame_color f) (color_of t) (color_of (sibling f))
      → IsRedBlack (attach t f)
  attach-IsRedBlack t (in_left c p v r) h s e k = (h, s, sym e, k)
  attach-IsRedBlack t (in_right c l p v) h s e k = (s, h, e, FrameOk-swap c _ _ k)

  pub black_height-attach :
      (t : Tree V) (f : Frame V)
      → black_height (sibling f) ≡ black_height t
      → black_height (attach t f) ≡ black_height t + weight (frame_color f)
  black_height-attach t (in_left c p v r) e = refl
  black_height-attach t (in_right c l p v) e = rw e

  pub color_of-attach : (t : Tree V) (f : Frame V) → color_of (attach t f) ≡ frame_color f
  color_of-attach t (in_left c p v r) = refl
  color_of-attach t (in_right c l p v) = refl

  pub plug-IsBalanced :
      (t : Tree V) (fs : List (Frame V))
      → IsRedBlack t
      → PathOk fs (color_of t) (black_height t)
      → IsBalanced (plug t fs)
  plug-IsBalanced t [] h k = (h, k)
  plug-IsBalanced t (f ∷ fs) h (s, e, o, k) =
      plug-IsBalanced (attach t f) fs (attach-IsRedBlack t f h s e o)
        (rw (color_of-attach t f, black_height-attach t f e) k)

  -- A path that fits a red node fits a black one.
  pub PathOk-black : (fs : List (Frame V)) (c : Color) (n : ℕ) → PathOk fs c n → PathOk fs black n
  PathOk-black [] c n h = refl
  PathOk-black (in_left red p v r ∷ fs) c n (s, e, o, k) = (s, e, (refl, o.1), k)
  PathOk-black (in_left black p v r ∷ fs) c n h = h
  PathOk-black (in_right red l p v ∷ fs) c n (s, e, o, k) = (s, e, (refl, o.1), k)
  PathOk-black (in_right black l p v ∷ fs) c n h = h

  -- The subtree that a rotation leaves: a black root, and this black height.
  abbrev pub Roots : ℕ → Option (Tree V) → Type 0
  Roots n none = ⊥
  Roots n (some t) = IsRedBlack t × (color_of t ≡ black) × (black_height t ≡ n)

  insert_rotate-Roots :
      (z : Tree V) (f g : Frame V)
      → IsRedBlack z
      → color_of z ≡ red
      → frame_color f ≡ red
      → IsRedBlack (sibling f)
      → black_height (sibling f) ≡ black_height z
      → color_of (sibling f) ≡ black
      → IsRedBlack (sibling g)
      → black_height (sibling g) ≡ black_height z
      → color_of (sibling g) ≡ black
      → Roots (black_height z + 1) (insert_rotate z f g)
  insert_rotate-Roots z (in_left c p v s) (in_left d q w y) hz cz cf hs es bs hy ey by =
      ((hz, (hs, hy, omega arith, (bs, by)), omega arith, tt), refl, refl)
  insert_rotate-Roots leaf (in_right c s p v) (in_left d q w y) hz cz cf hs es bs hy ey by = cc
  insert_rotate-Roots (node black a k x b) (in_right c s p v) (in_left d q w y) hz cz cf hs es bs hy
        ey by =
      cc
  insert_rotate-Roots (node red a k x b) (in_right black s p v) (in_left d q w y) hz cz cf hs es bs
        hy ey by =
      cc
  insert_rotate-Roots (node red a k x b) (in_right red s p v) (in_left d q w y) hz cz cf hs es bs hy
        ey by =
      (
        (
          (hs, hz.0, omega arith, (bs, hz.3.0)),
          (hz.1, hy, omega arith, (hz.3.1, by)),
          omega arith,
          tt,
        ),
        refl,
        omega arith,
      )
  insert_rotate-Roots z (in_right c s p v) (in_right d y q w) hz cz cf hs es bs hy ey by =
      (((hy, hs, omega arith, (by, bs)), hz, omega arith, tt), refl, omega arith)
  insert_rotate-Roots leaf (in_left c p v s) (in_right d y q w) hz cz cf hs es bs hy ey by = cc
  insert_rotate-Roots (node black a k x b) (in_left c p v s) (in_right d y q w) hz cz cf hs es bs hy
        ey by =
      cc
  insert_rotate-Roots (node red a k x b) (in_left black p v s) (in_right d y q w) hz cz cf hs es bs
        hy ey by =
      cc
  insert_rotate-Roots (node red a k x b) (in_left red p v s) (in_right d y q w) hz cz cf hs es bs hy
        ey by =
      (
        (
          (hy, hz.0, omega arith, (by, hz.3.0)),
          (hz.1, hs, omega arith, (hz.3.1, bs)),
          omega arith,
          tt,
        ),
        refl,
        omega arith,
      )

  pub black_height-set_color :
      (t : Tree V) → color_of t ≡ red → black_height (set_color black t) ≡ black_height t + 1
  black_height-set_color leaf e = cc
  black_height-set_color (node red l p v r) e = omega arith
  black_height-set_color (node black l p v r) e = cc

  blacken-attach :
      (z : Tree V) (f : Frame V)
      → IsRedBlack z
      → IsRedBlack (sibling f)
      → black_height (sibling f) ≡ black_height z
      → IsBalanced (set_color black (attach z f))
        × (black_height (set_color black (attach z f)) ≡ black_height z + 1)
  blacken-attach z (in_left c p v s) hz hs e = (((hz, hs, sym e, tt), refl), refl)
  blacken-attach z (in_right c s p v) hz hs e = (((hs, hz, e, tt), refl), omega arith)

  push_red-Red :
      (t : Tree V) (g : Frame V) (n : ℕ)
      → IsBalanced (set_color black t)
      → black_height (set_color black t) ≡ n + 1
      → IsRedBlack (sibling g)
      → color_of (sibling g) ≡ red
      → black_height (sibling g) ≡ n
      → IsRedBlack (push_red t g)
        × (color_of (push_red t g) ≡ red)
        × (black_height (push_red t g) ≡ n + 1)
  push_red-Red t (in_left d q w y) n (bt, kt) et hy cy e =
      let (by, ky) = set_color-IsRedBlack y hy in
      let ey = black_height-set_color y cy in
      ((bt, by, omega (arith, et, ey), (kt, ky)), refl, omega (arith, et))
  push_red-Red t (in_right d y q w) n (bt, kt) et hy cy e =
      let (by, ky) = set_color-IsRedBlack y hy in
      let ey = black_height-set_color y cy in
      ((by, bt, omega (arith, et, ey), (ky, kt)), refl, omega (arith, ey))

  -- Below a black parent any colour fits.
  pub PathOk-recolor :
      (f : Frame V) (fs : List (Frame V)) (c d : Color) (n : ℕ)
      → frame_color f ≡ black
      → PathOk (f ∷ fs) c n
      → PathOk (f ∷ fs) d n
  PathOk-recolor f fs c d n e (s, h, o, k) = (s, h, rw e tt, k)

  -- A red parent has a black sibling and stands below a black grandparent.
  red_parent :
      (f g : Frame V) (fs : List (Frame V)) (n : ℕ)
      → frame_color f ≡ red
      → PathOk (f ∷ g ∷ fs) black n
      → (color_of (sibling f) ≡ black)
        × (frame_color g ≡ black)
        × (black_height (sibling g) ≡ n)
        × PathOk fs black (n + 1)
  red_parent f g fs n e (s, h, o, (s', h', o', k)) = elim (Color-cases (frame_color g)) [
    | inl e' ↦ absurd (red≢black ((rw (e, e') at o').0))
    | inr e' ↦ (
      (rw e at o).1,
      e',
      (rw e at h') ∙ omega arith,
      subst (PathOk fs black) (omega arith) (rw (e, e') at k),
    )
  ]

  -- A rotation's result, hung below a path that fits it.
  pub Roots-Balances :
      (o : Option (Tree V)) (fs : List (Frame V)) (n : ℕ)
      → Roots n o
      → PathOk fs black n
      → Balances (o >>= λ t. some (set_color black (plug t fs)))
  Roots-Balances none fs n h k = h
  Roots-Balances (some t) fs n (r, c, e) k =
      set_color-IsRedBlack (plug t fs) ((plug-IsBalanced t fs r (rw (c, e) k)).0)

  -- From a red node whose parent alone may be red too, `insertFixup` makes a balanced tree.
  pub insert_fixup-Balances :
      (z : Tree V) (fs : List (Frame V))
      → IsRedBlack z
      → color_of z ≡ red
      → PathOk fs black (black_height z)
      → Balances (insert_fixup z fs)
  unfolding insert_fixup
  insert_fixup-Balances z [] h e k = set_color-IsRedBlack z h
  insert_fixup-Balances z (f ∷ []) h e (s, b, o, k) =
      rw (k, insert_fixup)
        (set_color-IsRedBlack (attach z f) (attach-IsRedBlack z f h s b (rw k tt)))
  insert_fixup-Balances z (f ∷ g ∷ fs) h e k = elim (Color-cases (frame_color f)) [
    | inr black_parent ↦
        rw (black_parent, insert_fixup)
          (let (b, _) =
              plug-IsBalanced z (f ∷ g ∷ fs) h
                (PathOk-recolor f (g ∷ fs) black (color_of z) _ black_parent k) in
            set_color-IsRedBlack (plug z (f ∷ g ∷ fs)) b)
    | inl red_f ↦
        let (s, b, o, (s', b', o', k')) = k in
        let (cs, cg, bg, up) = red_parent f g fs (black_height z) red_f k in
        elim (Color-cases (color_of (sibling g))) [
          | inl red_y ↦
              let (bt, et) = blacken-attach z f h s b in
              let (r, c, m) = push_red-Red (attach z f) g (black_height z) bt et s' red_y bg in
              rw (red_f, red_y, insert_fixup)
                (insert_fixup-Balances (push_red (attach z f) g) fs r c (rw m up))
          | inr black_y ↦
              rw (red_f, black_y, insert_fixup)
                (Roots-Balances (insert_rotate z f g) fs (black_height z + 1)
                  (insert_rotate-Roots z f g h e red_f s b cs s' bg black_y) up)
        ]
  ]

  -- A step down keeps the path fit for what hangs below it.
  pub PathOk-left :
      (c : Color) (l : Tree V) (p : ℕ) (v : V) (r : Tree V) (fs : List (Frame V))
      → IsRedBlack (node c l p v r)
      → PathOk fs c (black_height l + weight c)
      → PathOk (in_left c p v r ∷ fs) (color_of l) (black_height l)
  PathOk-left c l p v r fs (hl, hr, e, o) k = (hr, sym e, o, k)

  pub PathOk-right :
      (c : Color) (l : Tree V) (p : ℕ) (v : V) (r : Tree V) (fs : List (Frame V))
      → IsRedBlack (node c l p v r)
      → PathOk fs c (black_height l + weight c)
      → PathOk (in_right c l p v ∷ fs) (color_of r) (black_height r)
  PathOk-right c l p v r fs (hl, hr, e, o) k = (hl, e, FrameOk-swap c _ _ o, rw (← e) k)
