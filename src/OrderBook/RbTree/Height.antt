-- ===== src/OrderBook/RbTree/Height.antt =====
-- How deep a balanced tree is.
use native.Mathlib.Nat.{two-pow-succ, pow-le-pow_right, add-zero}
use native.Mathlib.Numerals.{add-one}
use native.Mathlib.Decide.{dec_le}
use Prim.Native.Nat.{◌^◌, max}
use quant_finance_pipeline.Prelude.{ℕ, suc, ◌+◌, ◌*◌, ◌<◌, ◌≤◌, arith}
use quant_finance_pipeline.OrderBook.RbTree.{Color, red, black, Tree, leaf, node, color_of}
use quant_finance_pipeline.OrderBook.RbTree.Walk.{size}
use quant_finance_pipeline.OrderBook.RbTree.Balance.{IsRedBlack, IsBalanced, black_height}

-- A red root adds one to the height.
abbrev extra : Color → ℕ
extra red = 1
extra black = 0

extra-le : (c : Color) → extra c ≤ 1
extra-le red = omega arith
extra-le black = omega arith

module _ {ℓ} {V : Type ℓ} where
  -- The longest way down, which bounds the rounds of `searchNode`, `minimum` and `maximum`.
  abbrev pub height : Tree V → ℕ
  height leaf = 0
  height (node c l p v r) = suc (max (height l) (height r))

  pow-black_height : (t : Tree V) → IsRedBlack t → 2 ^ black_height t ≤ size t + 1
  unfolding size
  pow-black_height leaf h = omega arith
  pow-black_height (node red l p v r) (hl, hr, e, o) =
      rw add-zero (omega (arith, pow-black_height l hl))
  pow-black_height (node black l p v r) (hl, hr, e, o) =
      let pl = pow-black_height l hl in
      let pr = pow-black_height r hr in
      rw (add-one (black_height l), two-pow-succ) (omega (arith, pl, rw (← e) at pr))

  height-le : (t : Tree V) → IsRedBlack t → height t ≤ 2 * black_height t + extra (color_of t)
  height-le leaf h = omega arith
  height-le (node red l p v r) (hl, hr, e, (cl, cr)) =
      omega (arith, rw cl at (height-le l hl), rw cr at (height-le r hr))
  height-le (node black l p v r) (hl, hr, e, o) =
      omega (arith, height-le l hl, height-le r hr, extra-le (color_of l), extra-le (color_of r))

  -- A balanced tree with fewer than `2 ^ (k + 1) - 1` levels is at most `2 * k` deep.
  pub height_bound : (t : Tree V) (k : ℕ) → IsBalanced t → size t + 1 < 2 ^ suc k → height t ≤ 2 * k
  height_bound t k h m = elim (dec_le (suc k) (black_height t)) [
    | yes deep ↦
        absurd
          (omega (arith, pow-black_height t h.0, pow-le-pow_right {n = 2} (omega arith) deep, m))
    | no shallow ↦ omega (arith, rw h.1 at (height-le t h.0), shallow)
  ]
