-- ===== src/OrderBook/RbTree/RemovalBalance.antt =====
-- `deleteFixup` restores the red-black invariant, and neither panics nor runs out of rounds.
use quant_finance_pipeline.Prelude.{
  ℕ, zero, suc, ◌+◌, ◌<◌, ◌≤◌, List, [], ◌∷◌, Option, none, some, ◌≡◌, refl, sym, subst, arith,
  ◌>>=◌, inl, inr, length,
}
use quant_finance_pipeline.OrderBook.RbTree.{
  Color, red, black, Tree, leaf, node, Frame, in_left, in_right, color_of, frame_color, sibling,
  set_color, plug, left_rotate, right_rotate, Color-cases,
}
use quant_finance_pipeline.OrderBook.RbTree.Removal.{
  Fix, done, climb, recolor_right, recolor_left, red_right, red_left, both_black, rotate_up, borrow,
  fix_round, delete_fixup,
}
use quant_finance_pipeline.OrderBook.RbTree.Balance.{
  weight, FrameOk, black_height, IsRedBlack, PathOk, IsBalanced, Balances, set_color-IsRedBlack,
  plug-IsBalanced, PathOk-black, black_height-set_color, red≢black,
}

-- How many rounds are left at most: none at a red node.
abbrev pub rank : Color → ℕ → ℕ
rank red n = 0
rank black n = n

FrameOk-black : (c : Color) → FrameOk c black black
FrameOk-black red = (refl, refl)
FrameOk-black black = tt

pub rank-le : (c : Color) (n : ℕ) → rank c n ≤ n
rank-le red n = omega arith
rank-le black n = omega arith

black_above : (c : Color) → FrameOk c black red → c ≡ black
black_above red o = absurd (red≢black o.1)
black_above black o = refl

module _ {ℓ} {V : Type ℓ} where
  -- The subtree lacks one black node, and may be red below a red parent.
  abbrev pub IsPending : Tree V → List (Frame V) → Type 0
  IsPending x fs = IsRedBlack (set_color black x) × PathOk fs black (black_height x + 1)

  -- A rotated subtree, of this colour and black height.
  abbrev Rotated : Color → ℕ → Option (Tree V) → Type 0
  Rotated c n none = ⊥
  Rotated c n (some t) = IsRedBlack t × (color_of t ≡ c) × (black_height t ≡ n)

  both_black-eq :
      (a b : Tree V) → both_black a b ≡ black → (color_of a ≡ black) × (color_of b ≡ black)
  both_black-eq leaf b e = (refl, e)
  both_black-eq (node red l p v r) b e = absurd (red≢black e)
  both_black-eq (node black l p v r) b e = (refl, e)

  -- The sibling once its outer child is red: what stands inside it, and the outer child blackened.
  abbrev HeavyRight : ℕ → Option (Tree V) → Type 0
  HeavyRight n none = ⊥
  HeavyRight n (some leaf) = ⊥
  HeavyRight n (some (node d a q w b)) =
      IsRedBlack a
      × (black_height a ≡ n)
      × IsBalanced (set_color black b)
      × (black_height (set_color black b) ≡ n + 1)

  abbrev HeavyLeft : ℕ → Option (Tree V) → Type 0
  HeavyLeft n none = ⊥
  HeavyLeft n (some leaf) = ⊥
  HeavyLeft n (some (node d a q w b)) =
      IsRedBlack b
      × (black_height b ≡ n)
      × IsBalanced (set_color black a)
      × (black_height (set_color black a) ≡ n + 1)

  red_outer-Heavy :
      (d : Color) (a : Tree V) (q : ℕ) (w : V) (b : Tree V) (n : ℕ)
      → IsRedBlack a
      → IsRedBlack b
      → black_height a ≡ n
      → black_height b ≡ n
      → (color_of b ≡ red → HeavyRight n (red_right (node d a q w b)))
        × (color_of a ≡ red → HeavyLeft n (red_left (node d a q w b)))
  red_outer-Heavy d a q w b n ha hb ea eb = (
    λ e.
        rw (e, red_right)
          (ha, ea, set_color-IsRedBlack b hb, omega (arith, black_height-set_color b e)),
    λ e.
        rw (e, red_left)
          (hb, eb, set_color-IsRedBlack a ha, omega (arith, black_height-set_color a e)),
  )

  red_right-Heavy :
      (a : Tree V) (q : ℕ) (w : V) (b : Tree V) (n : ℕ)
      → IsRedBlack a
      → IsRedBlack b
      → black_height a ≡ n
      → black_height b ≡ n
      → both_black a b ≡ red
      → HeavyRight n (red_right (node black a q w b))
  red_right-Heavy leaf q w b n ha hb ea eb r = (red_outer-Heavy black leaf q w b n ha hb ea eb).0 r
  red_right-Heavy (node black a k u a') q w b n ha hb ea eb r =
      (red_outer-Heavy black (node black a k u a') q w b n ha hb ea eb).0 r
  red_right-Heavy (node red a k u a') q w b n ha hb ea eb r = elim (Color-cases (color_of b)) [
    | inl e ↦ (red_outer-Heavy black (node red a k u a') q w b n ha hb ea eb).0 e
    | inr e ↦
        rw (e, red_right) (ha.0, omega arith, ((ha.1, hb, omega arith, tt), refl), omega arith)
  ]

  red_left-Heavy :
      (a : Tree V) (q : ℕ) (w : V) (b : Tree V) (n : ℕ)
      → IsRedBlack a
      → IsRedBlack b
      → black_height a ≡ n
      → black_height b ≡ n
      → both_black a b ≡ red
      → HeavyLeft n (red_left (node black a q w b))
  red_left-Heavy (node red a k u a') q w b n ha hb ea eb r =
      (red_outer-Heavy black (node red a k u a') q w b n ha hb ea eb).1 refl
  red_left-Heavy leaf q w (node red b k u b') n ha hb ea eb r =
      (hb.1, omega arith, ((ha, hb.0, omega arith, tt), refl), omega arith)
  red_left-Heavy leaf q w leaf n ha hb ea eb r = cc
  red_left-Heavy leaf q w (node black b k u b') n ha hb ea eb r = cc
  red_left-Heavy (node black a j t a') q w (node red b k u b') n ha hb ea eb r =
      (hb.1, omega arith, ((ha, hb.0, omega arith, tt), refl), omega arith)
  red_left-Heavy (node black a j t a') q w leaf n ha hb ea eb r = cc
  red_left-Heavy (node black a j t a') q w (node black b k u b') n ha hb ea eb r = cc

  rotate_left-Rotated :
      (x : Tree V) (c : Color) (p : ℕ) (v : V) (o : Option (Tree V))
      → IsRedBlack x
      → HeavyRight (black_height x) o
      → Rotated c
          (black_height x + 1 + weight c)
          (o >>= λ s. left_rotate (node black x p v (recolor_right c s)))
  rotate_left-Rotated x c p v none hx h = h
  rotate_left-Rotated x c p v (some leaf) hx h = absurd h
  rotate_left-Rotated x c p v (some (node d a q w b)) hx (ha, ea, (hb, kb), eb) =
      (((hx, ha, sym ea, tt), hb, omega arith, rw kb (FrameOk-black c)), refl, refl)

  rotate_right-Rotated :
      (x : Tree V) (c : Color) (p : ℕ) (v : V) (o : Option (Tree V))
      → IsRedBlack x
      → HeavyLeft (black_height x) o
      → Rotated c
          (black_height x + 1 + weight c)
          (o >>= λ s. right_rotate (node black (recolor_left c s) p v x))
  rotate_right-Rotated x c p v none hx h = h
  rotate_right-Rotated x c p v (some leaf) hx h = absurd h
  rotate_right-Rotated x c p v (some (node d a q w b)) hx (hb, eb, (ha, ka), ea) =
      ((ha, (hb, hx, eb, tt), omega arith, rw ka (FrameOk-black c)), refl, omega arith)

  -- What a round makes of a subtree that lacks one: a balanced tree, or less work further up.
  abbrev FixBalances : ℕ → Option (Fix V) → Type 0
  FixBalances n none = ⊥
  FixBalances n (some (done t)) = IsBalanced t
  FixBalances n (some (climb y gs)) = IsPending y gs × (rank (color_of y) (length gs) < n)

  finish-FixBalances :
      (o : Option (Tree V)) (fs : List (Frame V)) (c : Color) (m n : ℕ)
      → Rotated c m o
      → PathOk fs c m
      → FixBalances n (o >>= λ t. some (done (set_color black (plug t fs))))
  finish-FixBalances none fs c m n h k = h
  finish-FixBalances (some t) fs c m n (h, ec, em) k =
      set_color-IsRedBlack (plug t fs) ((plug-IsBalanced t fs h (rw (ec, em) k)).0)

  borrow-FixBalances :
      (x : Tree V) (f : Frame V) (fs : List (Frame V)) (n : ℕ)
      → IsRedBlack x
      → color_of x ≡ black
      → color_of (sibling f) ≡ black
      → rank (frame_color f) (length fs) < n
      → PathOk (f ∷ fs) black (black_height x + 1)
      → FixBalances n (borrow x f fs)
  borrow-FixBalances x (in_left c p v leaf) fs n hx cx cs m (hs, e, o, k) = absurd (omega arith)
  borrow-FixBalances x (in_left c p v (node red a q w b)) fs n hx cx cs m (hs, e, o, k) = cc
  borrow-FixBalances x (in_left c p v (node black a q w b)) fs n hx cx cs m (hs, e, o, k) =
      elim (Color-cases (both_black a b)) [
        | inr y ↦
            rw (y, borrow)
              (
                (
                  (hx, (hs.0, hs.1, hs.2, both_black-eq a b y), omega arith, tt),
                  subst (PathOk fs black) (omega arith) (PathOk-black fs c _ k),
                ),
                m,
              )
        | inl y ↦
            rw (y, borrow)
              (finish-FixBalances (rotate_up x (in_left c p v (node black a q w b))) fs c _ n
                (rotate_left-Rotated x c p v (red_right (node black a q w b)) hx (
                  red_right-Heavy a q w b (black_height x) hs.0 hs.1 (omega arith) (omega arith) y))
                k)
      ]
  borrow-FixBalances x (in_right c leaf p v) fs n hx cx cs m (hs, e, o, k) = absurd (omega arith)
  borrow-FixBalances x (in_right c (node red a q w b) p v) fs n hx cx cs m (hs, e, o, k) = cc
  borrow-FixBalances x (in_right c (node black a q w b) p v) fs n hx cx cs m (hs, e, o, k) =
      elim (Color-cases (both_black a b)) [
        | inr y ↦
            rw (y, borrow)
              (
                (
                  ((hs.0, hs.1, hs.2, both_black-eq a b y), hx, omega arith, tt),
                  subst (PathOk fs black) (omega arith) (PathOk-black fs c _ k),
                ),
                m,
              )
        | inl y ↦
            rw (y, borrow)
              (finish-FixBalances (rotate_up x (in_right c (node black a q w b) p v)) fs c _ n
                (rotate_right-Rotated x c p v (red_left (node black a q w b)) hx
                  (red_left-Heavy a q w b (black_height x) hs.0 hs.1 (omega arith) (omega arith) y))
                k)
      ]

  fix_round-FixBalances :
      (x : Tree V) (f : Frame V) (fs : List (Frame V))
      → IsRedBlack x
      → color_of x ≡ black
      → PathOk (f ∷ fs) black (black_height x + 1)
      → FixBalances (suc (length fs)) (fix_round x f fs)
  unfolding fix_round
  fix_round-FixBalances x (in_left c p v leaf) fs hx cx (hs, e, o, k) = absurd (omega arith)
  fix_round-FixBalances x (in_left c p v (node black a q w b)) fs hx cx k =
      borrow-FixBalances x (in_left c p v (node black a q w b)) fs _ hx cx refl
        (omega (arith, rank-le c (length fs))) k
  fix_round-FixBalances x (in_left c p v (node red a q w b)) fs hx cx (hs, e, o, k) =
      let top = black_above c o in
      borrow-FixBalances x (in_left red p v a) (in_left black q w b ∷ fs) _ hx cx hs.3.0
        (omega arith)
        (
          hs.0,
          omega arith,
          (refl, hs.3.0),
          (hs.1, omega arith, tt, subst (PathOk fs black) (omega arith) (rw top at k)),
        )
  fix_round-FixBalances x (in_right c leaf p v) fs hx cx (hs, e, o, k) = absurd (omega arith)
  fix_round-FixBalances x (in_right c (node black a q w b) p v) fs hx cx k =
      borrow-FixBalances x (in_right c (node black a q w b) p v) fs _ hx cx refl
        (omega (arith, rank-le c (length fs))) k
  fix_round-FixBalances x (in_right c (node red a q w b) p v) fs hx cx (hs, e, o, k) =
      let top = black_above c o in
      borrow-FixBalances x (in_right red b p v) (in_right black a q w ∷ fs) _ hx cx hs.3.1
        (omega arith)
        (
          hs.1,
          omega arith,
          (refl, hs.3.1),
          (hs.0, omega arith, tt, subst (PathOk fs black) (omega arith) (rw top at k)),
        )

  black-set_color : (x : Tree V) → color_of x ≡ black → set_color black x ≡ x
  black-set_color leaf e = refl
  black-set_color (node red l p v r) e = absurd (red≢black e)
  black-set_color (node black l p v r) e = refl

  color_of-set_color : (x : Tree V) → color_of (set_color black x) ≡ black
  color_of-set_color leaf = refl
  color_of-set_color (node c l p v r) = refl

  -- Where a subtree lacks one black node, and the fuel exceeds the rounds left, `deleteFixup`
  -- returns a balanced tree.
  pub delete_fixup-Balances :
      (n : ℕ) (x : Tree V) (fs : List (Frame V))
      → IsPending x fs
      → rank (color_of x) (length fs) < n
      → Balances (delete_fixup n x fs)
  unfolding delete_fixup
  delete_fixup-Balances zero x fs h m = elim m [ ]
  delete_fixup-Balances (suc n) x [] (h, k) m = (h, color_of-set_color x)
  delete_fixup-Balances (suc n) x (f ∷ fs) (h, k) m = elim (Color-cases (color_of x)) [
    | inl e ↦
        rw (e, delete_fixup)
          (plug-IsBalanced (set_color black x) (f ∷ fs) h
            (rw (color_of-set_color x, black_height-set_color x e) k))
    | inr e ↦
        rw (e, delete_fixup)
          (go (delete_fixup-Balances n) (fix_round x f fs)
            (fix_round-FixBalances x f fs (rw (black-set_color x e) at h) e k) (rw e at m))
  ]
    where
      go :
          ((y : Tree V) (gs : List (Frame V))
            → IsPending y gs
            → rank (color_of y) (length gs) < n
            → Balances (delete_fixup n y gs))
          → (o : Option (Fix V)) → FixBalances (suc (length fs)) o
          → suc (length fs) < suc n
          → Balances (elim o [
            | none ↦ none
            | some (done t) ↦ some t
            | some (climb y gs) ↦ delete_fixup n y gs
          ])
      go next none h m = h
      go next (some (done t)) h m = h
      go next (some (climb y gs)) h m = next y gs h.0 (omega (arith, h.1))
