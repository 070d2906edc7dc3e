-- ===== src/Market/Texts.antt =====
-- Lists of symbols in internal/market/data.go: membership, and the removal that fills the gap with the
-- last one.
use text.Mathlib.Text.{◌==◌ as str_eq}
use text.Mathlib.TextEquality.{eq_iff}
use quant_finance_pipeline.Prelude.{
  ◌≡◌, refl, ◌∙◌, inl, inr, String, Bool, true, false, List, [], ◌∷◌, ◌++◌, if◌then◌else◌, arith,
  Bool-cases,
}

abbrev pub contains : String → List String → Bool
contains s [] = false
contains s (t ∷ ts) = if str_eq t s then true else contains s ts

abbrev pub Unique : List String → Type 0
Unique [] = Unit
Unique (t ∷ ts) = (contains t ts ≡ false) × Unique ts

abbrev pub last_of : String → List String → String
last_of t [] = t
last_of t (u ∷ us) = last_of u us

abbrev pub front_of : String → List String → List String
front_of t [] = []
front_of t (u ∷ us) = t ∷ front_of u us

-- What is left behind a gap: the last text, and the others but the last.
abbrev pub fill : List String → List String
fill [] = []
fill (t ∷ ts) = last_of t ts ∷ front_of t ts

abbrev pub swap_remove : String → List String → List String
swap_remove s [] = []
swap_remove s (t ∷ ts) = if str_eq t s then fill ts else t ∷ swap_remove s ts

contains-rotated :
    (s t : String) (ts : List String)
    → contains s (last_of t ts ∷ front_of t ts) ≡ contains s (t ∷ ts)
contains-rotated s t [] = refl
contains-rotated s t (u ∷ us) = ground (arith, contains-rotated s u us)

contains-fill : (s : String) (ts : List String) → contains s (fill ts) ≡ contains s ts
contains-fill s [] = refl
contains-fill s (t ∷ ts) = contains-rotated s t ts

Unique-rotated :
    (t : String) (ts : List String) → Unique (t ∷ ts) → Unique (last_of t ts ∷ front_of t ts)
Unique-rotated t [] k = (refl, tt)
Unique-rotated t (u ∷ us) (n, k) =
    let (a, b) = Unique-rotated u us k in
    let apart = contains-rotated t u us ∙ n in
    (
      ground (arith, apart, a, eq_iff t (last_of u us), eq_iff (last_of u us) t),
      (ground (arith, apart), b),
    )

Unique-fill : (ts : List String) → Unique ts → Unique (fill ts)
Unique-fill [] k = tt
Unique-fill (t ∷ ts) k = Unique-rotated t ts k

pub contains-swap_remove :
    (s j : String) (ts : List String)
    → Unique ts
    → contains j (swap_remove s ts) ≡ (if str_eq s j then false else contains j ts)
contains-swap_remove s j [] k = ground arith
contains-swap_remove s j (t ∷ ts) k = ground (
  arith,
  contains-fill j ts,
  contains-swap_remove s j ts k.1,
  k.0,
  eq_iff t s,
  eq_iff t j,
  eq_iff s j,
)

pub Unique-swap_remove : (s : String) (ts : List String) → Unique ts → Unique (swap_remove s ts)
Unique-swap_remove s [] k = tt
Unique-swap_remove s (t ∷ ts) k = elim (Bool-cases (str_eq t s)) [
  | inl same ↦ rw same (Unique-fill ts k.1)
  | inr other ↦
      rw other (ground (arith, contains-swap_remove s t ts k.1, k.0), Unique-swap_remove s ts k.1)
]

pub contains-append :
    (j s : String) (ts : List String)
    → contains j (ts ++ s ∷ []) ≡ (if str_eq s j then true else contains j ts)
contains-append j s [] = refl
contains-append j s (t ∷ ts) = ground (arith, contains-append j s ts)

pub Unique-append :
    (s : String) (ts : List String) → contains s ts ≡ false → Unique ts → Unique (ts ++ s ∷ [])
Unique-append s [] n k = (refl, tt)
Unique-append s (t ∷ ts) n k = (
  ground (arith, contains-append t s ts, eq_iff s t, eq_iff t s),
  Unique-append s ts (ground (arith, n)) k.1,
)
