-- ===== src/OrderBook/Engine/Members.antt =====
-- What holds of all entries of a sorted list, and its best entry.
use mathlib.Core.List.{reverse-cons, reverse-reverse}
use quant_finance_pipeline.Prelude.{
  ℕ, ◌≤◌, ◌<◌, ◌≡◌, ◌≢◌, refl, sym, ap, ◌∙◌, ◌⊎◌, inl, inr, Bool, true, false, List, [], ◌∷◌, ◌++◌,
  reverse, none, some, Bool-cases, ltb, ◌==◌, if◌then◌else◌, arith,
}
use quant_finance_pipeline.OrderBook.Entries.{Below, Above, IsSorted, put, remove}
use quant_finance_pipeline.OrderBook.RbTree.Walking.{first_level}

module _ {ℓ κ} {A : Type ℓ} where
  abbrev pub All : (A → Type κ) → List A → Type κ
  All P [] = Unit
  All P (x ∷ xs) = P x × All P xs

  pub All-append : (P : A → Type κ) (xs ys : List A) → All P xs → All P ys → All P (xs ++ ys)
  All-append P [] ys h g = g
  All-append P (x ∷ xs) ys h g = (h.0, All-append P xs ys h.1 g)

  pub All-split : (P : A → Type κ) (xs ys : List A) → All P (xs ++ ys) → All P xs × All P ys
  All-split P [] ys h = (tt, h)
  All-split P (x ∷ xs) ys h = let (a, b) = All-split P xs ys h.1 in ((h.0, a), b)

pub All-map {ℓ κ μ} :
    {A : Type ℓ} (P : A → Type κ) (Q : A → Type μ)
    → ((x : A) → P x → Q x)
    → (xs : List A) → All P xs
    → All Q xs
All-map P Q f [] h = tt
All-map P Q f (x ∷ xs) h = (f x h.0, All-map P Q f xs h.1)

-- The entry `k` is no better than the price `b` on its side of the book.
abbrev pub NoBetter : Bool → ℕ → ℕ → Type 0
NoBetter true k b = k ≤ b
NoBetter false k b = b ≤ k

module _ {ℓ} {V : Type ℓ} where
  pub All-put {κ} :
      (P : ℕ × V → Type κ) (k : ℕ) (v : V) (xs : List (ℕ × V))
      → P (k, v)
      → All P xs
      → All P (put k v xs)
  All-put P k v [] p h = (p, tt)
  All-put P k v ((j, w) ∷ xs) p h = elim (Bool-cases (ltb k j)) [
    | inl lt ↦ rw lt (p, h)
    | inr ge ↦ elim (Bool-cases (k == j)) [
      | inl e ↦ rw (ge, e) h
      | inr ne ↦ rw (ge, ne) (h.0, All-put P k v xs p h.1)
    ]
  ]

  pub All-remove {κ} :
      (P : ℕ × V → Type κ) (k : ℕ) (xs : List (ℕ × V)) → All P xs → All P (remove k xs)
  All-remove P k [] h = tt
  All-remove P k ((j, w) ∷ xs) h = elim (Bool-cases (k == j)) [
    | inl e ↦ rw e h.1
    | inr ne ↦ rw ne (h.0, All-remove P k xs h.1)
  ]

  pub All-Above : (k : ℕ) (xs : List (ℕ × V)) → Above k xs → All (λ x. k < x.0) xs
  All-Above k [] a = tt
  All-Above k ((j, v) ∷ xs) a = (a.0, All-Above k xs a.1)

  pub All-Below : (k : ℕ) (xs : List (ℕ × V)) → Below k xs → All (λ x. x.0 < k) xs
  All-Below k [] a = tt
  All-Below k ((j, v) ∷ xs) a = (a.0, All-Below k xs a.1)

  pub remove-ne : (k : ℕ) (xs : List (ℕ × V)) → IsSorted xs → All (λ x. x.0 ≢ k) (remove k xs)
  remove-ne k [] s = tt
  remove-ne k ((j, w) ∷ xs) s = elim (Bool-cases (k == j)) [
    | inl e ↦ rw e (
        All-map (λ x. j < x.0) (λ x. x.0 ≢ k) (λ x lt i. absurd (ground arith)) xs
          (All-Above j xs s.0))
    | inr ne ↦ rw ne ((λ i. absurd (ground arith)), remove-ne k xs s.1)
  ]

  -- The list around its best entry, on whichever end that is.
  pub record IsBest (is_bid : Bool) (v : V) (xs : List (ℕ × V)) : Type ℓ where
    pub price : ℕ
    pub before : List (ℕ × V)
    pub behind : List (ℕ × V)
    pub at : xs ≡ before ++ (price, v) ∷ behind
    pub end : ((is_bid ≡ true) × (behind ≡ [])) ⊎ ((is_bid ≡ false) × (before ≡ []))

  best_last :
      (xs r : List (ℕ × V)) (k : ℕ) (v : V)
      → reverse xs ≡ (k, v) ∷ r
      → xs ≡ reverse r ++ (k, v) ∷ []
  best_last xs r k v e = sym (reverse-reverse xs) ∙ ap reverse e ∙ reverse-cons (k, v) r

  pub first_level-IsBest :
      (is_bid : Bool) (v : V) (xs : List (ℕ × V))
      → first_level (if is_bid then reverse xs else xs) ≡ some v
      → IsBest is_bid v xs
  first_level-IsBest false v [] e = cc
  first_level-IsBest false v ((k, w) ∷ xs) e = record {
    price = k;
    before = [];
    behind = xs;
    at = ap (λ u. (k, u) ∷ xs) (ground (arith, e));
    end = inr (refl, refl);
  }
  first_level-IsBest true v xs e = go (reverse xs) refl e
    where
      go : (ys : List (ℕ × V)) → reverse xs ≡ ys → first_level ys ≡ some v → IsBest true v xs
      go [] h e = cc
      go ((k, w) ∷ r) h e = record {
        price = k;
        before = reverse r;
        behind = [];
        at = best_last xs r k v (h ∙ ap (λ u. (k, u) ∷ r) (ground (arith, e)));
        end = inl (refl, refl);
      }

  pub first_level-none :
      (is_bid : Bool) (xs : List (ℕ × V))
      → first_level (if is_bid then reverse xs else xs) ≡ none
      → xs ≡ []
  first_level-none false [] e = refl
  first_level-none false ((k, w) ∷ xs) e = cc
  first_level-none true xs e = go (reverse xs) refl e
    where
      go : (ys : List (ℕ × V)) → reverse xs ≡ ys → first_level ys ≡ none → xs ≡ []
      go [] h e = sym (reverse-reverse xs) ∙ ap reverse h
      go ((k, w) ∷ r) h e = cc
