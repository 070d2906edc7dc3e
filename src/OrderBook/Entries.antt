-- ===== src/OrderBook/Entries.antt =====
-- What a tree of price levels promises: a list of entries whose prices rise, read and changed by
-- price. This is the specification of internal/orderbook/rbtree.go.
use quant_finance_pipeline.Prelude.{
  ℕ, ◌<◌, List, [], ◌∷◌, ◌++◌, Option, none, some, ◌≡◌, refl, ◌≢◌, arith, ltb, ◌==◌, if◌then◌else◌,
}

module _ {ℓ} {V : Type ℓ} where
  abbrev pub Below : ℕ → List (ℕ × V) → Type 0
  Below k [] = Unit
  Below k ((j, v) ∷ m) = (j < k) × Below k m

  abbrev pub Above : ℕ → List (ℕ × V) → Type 0
  Above k [] = Unit
  Above k ((j, v) ∷ m) = (k < j) × Above k m

  abbrev pub IsSorted : List (ℕ × V) → Type 0
  IsSorted [] = Unit
  IsSorted ((j, v) ∷ m) = Above j m × IsSorted m

  abbrev pub lookup : ℕ → List (ℕ × V) → Option V
  lookup k [] = none
  lookup k ((j, v) ∷ m) = if k == j then some v else lookup k m

  -- A new entry at its place; an entry of that price stays as it is.
  abbrev pub put : ℕ → V → List (ℕ × V) → List (ℕ × V)
  put k v [] = (k, v) ∷ []
  put k v ((j, w) ∷ m) =
      if ltb k j then (k, v) ∷ (j, w) ∷ m else if k == j then (j, w) ∷ m else (j, w) ∷ put k v m

  abbrev pub remove : ℕ → List (ℕ × V) → List (ℕ × V)
  remove k [] = []
  remove k ((j, w) ∷ m) = if k == j then m else (j, w) ∷ remove k m

  pub Below-append : (k : ℕ) (xs ys : List (ℕ × V)) → Below k xs → Below k ys → Below k (xs ++ ys)
  Below-append k [] ys h g = g
  Below-append k ((j, v) ∷ xs) ys h g = (h.0, Below-append k xs ys h.1 g)

  pub Above-append : (k : ℕ) (xs ys : List (ℕ × V)) → Above k xs → Above k ys → Above k (xs ++ ys)
  Above-append k [] ys h g = g
  Above-append k ((j, v) ∷ xs) ys h g = (h.0, Above-append k xs ys h.1 g)

  pub Above-split : (k : ℕ) (xs ys : List (ℕ × V)) → Above k (xs ++ ys) → Above k xs × Above k ys
  Above-split k [] ys h = (tt, h)
  Above-split k ((j, v) ∷ xs) ys h = let (a, b) = Above-split k xs ys h.1 in ((h.0, a), b)

  pub Above-mono : (j k : ℕ) (m : List (ℕ × V)) → j < k → Above k m → Above j m
  Above-mono j k [] h a = tt
  Above-mono j k ((i, v) ∷ m) h a = (omega arith, Above-mono j k m h a.1)

  pub Below-mono : (j k : ℕ) (m : List (ℕ × V)) → j < k → Below j m → Below k m
  Below-mono j k [] h a = tt
  Below-mono j k ((i, v) ∷ m) h a = (omega arith, Below-mono j k m h a.1)

  -- A sorted list, taken apart at one of its entries.
  pub IsSorted-split :
      (xs : List (ℕ × V)) (k : ℕ) (v : V) (ys : List (ℕ × V))
      → IsSorted (xs ++ (k, v) ∷ ys)
      → IsSorted xs × IsSorted ys × Below k xs × Above k ys
  IsSorted-split [] k v ys h = (tt, h.1, tt, h.0)
  IsSorted-split ((j, w) ∷ xs) k v ys h =
      let (sx, sy, b, a) = IsSorted-split xs k v ys h.1 in
      let (ax, ay) = Above-split j xs ((k, v) ∷ ys) h.0 in ((ax, sx), sy, (ay.0, b), a)

  pub IsSorted-append :
      (xs : List (ℕ × V)) (k : ℕ) (v : V) (ys : List (ℕ × V))
      → IsSorted xs
      → IsSorted ys
      → Below k xs
      → Above k ys
      → IsSorted (xs ++ (k, v) ∷ ys)
  IsSorted-append [] k v ys sx sy b a = (a, sy)
  IsSorted-append ((j, w) ∷ xs) k v ys sx sy b a = (
    Above-append j xs ((k, v) ∷ ys) sx.0 (b.0, Above-mono j k ys b.0 a),
    IsSorted-append xs k v ys sx.1 sy b.1 a,
  )

  pub lookup-Below : (k : ℕ) (xs ys : List (ℕ × V)) → Below k xs → lookup k (xs ++ ys) ≡ lookup k ys
  lookup-Below k [] ys h = refl
  lookup-Below k ((j, v) ∷ xs) ys h = ground (arith, lookup-Below k xs ys h.1)

  pub lookup-Above : (k : ℕ) (ys : List (ℕ × V)) → Above k ys → lookup k ys ≡ none
  lookup-Above k [] h = refl
  lookup-Above k ((j, v) ∷ ys) h = ground (arith, lookup-Above k ys h.1)

  pub lookup-gt : (j k : ℕ) (ys : List (ℕ × V)) (w : V) → Above j ys → lookup k ys ≡ some w → j < k
  lookup-gt j k [] w a h = cc
  lookup-gt j k ((i, v) ∷ ys) w a h = ground (arith, lookup-gt j k ys w a.1)

  pub lookup-none :
      (k : ℕ) (xs : List (ℕ × V)) (j : ℕ) (v : V) (ys : List (ℕ × V))
      → lookup k (xs ++ (j, v) ∷ ys) ≡ none
      → (lookup k xs ≡ none) × (k ≢ j) × (lookup k ys ≡ none)
  lookup-none k [] j v ys h = (refl, ground arith, ground arith)
  lookup-none k ((i, w) ∷ xs) j v ys h = ground (arith, lookup-none k xs j v ys)

  pub lookup-append_none :
      (k : ℕ) (xs ys : List (ℕ × V)) → lookup k xs ≡ none → lookup k (xs ++ ys) ≡ lookup k ys
  lookup-append_none k [] ys h = refl
  lookup-append_none k ((i, w) ∷ xs) ys h = ground (arith, lookup-append_none k xs ys)

  pub lookup-append_some :
      (k : ℕ) (xs ys : List (ℕ × V)) (v : V) → lookup k xs ≡ some v → lookup k (xs ++ ys) ≡ some v
  lookup-append_some k [] ys v h = cc
  lookup-append_some k ((i, w) ∷ xs) ys v h = ground (arith, lookup-append_some k xs ys v)

  pub put-append :
      (k : ℕ) (v : V) (xs ys : List (ℕ × V))
      → Below k xs
      → Above k ys
      → put k v (xs ++ ys) ≡ xs ++ (k, v) ∷ ys
  put-append k v [] [] b a = refl
  put-append k v [] ((j, w) ∷ ys) b a = ground arith
  put-append k v ((j, w) ∷ xs) ys b a = ground (arith, put-append k v xs ys b.1 a)

  pub put_old :
      (k : ℕ) (v : V) (xs : List (ℕ × V)) (w : V)
      → IsSorted xs
      → lookup k xs ≡ some w
      → put k v xs ≡ xs
  put_old k v [] w s h = cc
  put_old k v ((j, u) ∷ xs) w s h = ground (arith, put_old k v xs w s.1, lookup-gt j k xs w s.0)

  pub remove-append :
      (k : ℕ) (v : V) (xs ys : List (ℕ × V)) → Below k xs → remove k (xs ++ (k, v) ∷ ys) ≡ xs ++ ys
  remove-append k v [] ys b = ground arith
  remove-append k v ((j, w) ∷ xs) ys b = ground (arith, remove-append k v xs ys b.1)

  pub remove-none : (k : ℕ) (xs : List (ℕ × V)) → lookup k xs ≡ none → remove k xs ≡ xs
  remove-none k [] h = refl
  remove-none k ((j, w) ∷ xs) h = ground (arith, remove-none k xs)

  Above-put : (j k : ℕ) (v : V) (xs : List (ℕ × V)) → j < k → Above j xs → Above j (put k v xs)
  Above-put j k v [] h a = (h, tt)
  Above-put j k v ((i, w) ∷ xs) h a = ground (arith, Above-put j k v xs)

  pub IsSorted-put : (k : ℕ) (v : V) (xs : List (ℕ × V)) → IsSorted xs → IsSorted (put k v xs)
  IsSorted-put k v [] s = (tt, tt)
  IsSorted-put k v ((j, w) ∷ xs) s =
      ground (arith, IsSorted-put k v xs s.1, Above-put j k v xs, Above-mono k j xs)

  Above-remove : (j k : ℕ) (xs : List (ℕ × V)) → Above j xs → Above j (remove k xs)
  Above-remove j k [] a = tt
  Above-remove j k ((i, w) ∷ xs) a = ground (arith, Above-remove j k xs)

  pub IsSorted-remove : (k : ℕ) (xs : List (ℕ × V)) → IsSorted xs → IsSorted (remove k xs)
  IsSorted-remove k [] s = tt
  IsSorted-remove k ((j, w) ∷ xs) s = ground (arith, IsSorted-remove k xs s.1, Above-remove j k xs)
