-- ===== src/Limiter/SlidingWindow/Window.antt =====
-- The promise of a sliding window of pkg/utils/backpressure/rate_limiter.go: no window of its
-- length sees more requests granted than the limit.
use quant_finance_pipeline.Prelude.{
  ℕ, suc, ◌+◌, ◌≤◌, ◌≡◌, refl, inl, inr, List, [], ◌∷◌, ◌++◌, leb, if◌then◌else◌, length,
  length-append, length-replicate, replicate, arith, Bool-cases,
}
use quant_finance_pipeline.Prelude.Int.{ℤ, pos, negsuc, pos_part}
use quant_finance_pipeline.Limiter.SlidingWindow.{
  SlidingWindowLimiter, drop_old, clean_old_requests, allow_n,
}

-- The times in a list that lie in the window that ends at a time.
abbrev pub count_recent : ℕ → ℕ → List ℕ → ℕ
count_recent now window [] = 0
count_recent now window (t ∷ ts) =
    if leb now (t + window) then suc (count_recent now window ts) else count_recent now window ts

-- A call with its time, and the times granted by a list of calls, the earliest first.
abbrev Request : Type 0
Request = ℕ × ℤ

unfoldable pub serve : SlidingWindowLimiter → List Request → List ℕ × SlidingWindowLimiter
serve sw [] = ([], sw)
serve sw ((now, n) ∷ rs) =
    let (sw', ok) = allow_n now n sw in
    let (got, end) = serve sw' rs in (if ok then replicate (pos_part n) now ++ got else got, end)

-- The times of the calls do not fall, and end at `end`.
abbrev pub InOrder : ℕ → List Request → ℕ → Type 0
InOrder from [] end = from ≤ end
InOrder from ((now, n) ∷ rs) end = (from ≤ now) × InOrder now rs end

count_recent-append :
    (now w : ℕ) (xs ys : List ℕ)
    → count_recent now w (xs ++ ys) ≡ count_recent now w xs + count_recent now w ys
count_recent-append now w [] ys = omega arith
count_recent-append now w (x ∷ xs) ys = ground (arith, count_recent-append now w xs ys)

count_recent-le : (now w : ℕ) (xs : List ℕ) → count_recent now w xs ≤ length xs
count_recent-le now w [] = omega arith
count_recent-le now w (x ∷ xs) = ground (arith, count_recent-le now w xs)

-- What is dropped lies outside this window and all later ones.
count_recent-drop_old :
    (now later w : ℕ) (xs : List ℕ)
    → now ≤ later
    → count_recent later w (drop_old now w xs) ≡ count_recent later w xs
unfolding drop_old
count_recent-drop_old now later w [] h = refl
count_recent-drop_old now later w (x ∷ xs) h =
    ground (arith, count_recent-drop_old now later w xs h)

length-drop_old : (now w : ℕ) (xs : List ℕ) → length (drop_old now w xs) ≤ length xs
unfolding drop_old
length-drop_old now w [] = omega arith
length-drop_old now w (x ∷ xs) = ground (arith, length-drop_old now w xs)

-- The requests kept are within the limit.
abbrev pub IsBounded : SlidingWindowLimiter → Type 0
IsBounded sw = length sw.requests ≤ sw.limit

pub allow_n-IsBounded :
    (now : ℕ) (n : ℤ) (sw : SlidingWindowLimiter) → IsBounded sw → IsBounded (allow_n now n sw).0
unfolding allow_n clean_old_requests
allow_n-IsBounded now (negsuc n) sw b = ground (
  arith,
  length-drop_old now sw.window sw.requests,
  length-append (drop_old now sw.window sw.requests) [],
)
allow_n-IsBounded now (pos n) sw b = ground (
  arith,
  length-drop_old now sw.window sw.requests,
  length-append (drop_old now sw.window sw.requests) (replicate n now),
  length-replicate n now,
)

-- A call keeps the window and the limit. What a window that ends no earlier sees of the requests
-- kept afterwards is what it saw of them before and of what the call grants.
allow_n-count :
    (now end : ℕ) (n : ℤ) (sw : SlidingWindowLimiter)
    → now ≤ end
    → let (sw', ok) = allow_n now n sw in
      (sw'.window ≡ sw.window)
      × (sw'.limit ≡ sw.limit)
      × (count_recent end sw.window sw'.requests
          ≡ count_recent end sw.window sw.requests
            + count_recent end sw.window (if ok then replicate (pos_part n) now else []))
unfolding allow_n clean_old_requests
allow_n-count now end n sw h = ground (
  arith,
  count_recent-drop_old now end sw.window sw.requests h,
  count_recent-append end sw.window (drop_old now sw.window sw.requests)
      (replicate (pos_part n) now),
)

InOrder-le : (from : ℕ) (rs : List Request) (end : ℕ) → InOrder from rs end → from ≤ end
InOrder-le from [] end o = o
InOrder-le from ((now, n) ∷ rs) end (o, os) = omega (arith, InOrder-le now rs end os)

serve-count :
    (sw : SlidingWindowLimiter) (rs : List Request) (from end : ℕ)
    → IsBounded sw
    → InOrder from rs end
    → count_recent end sw.window (serve sw rs).0 + count_recent end sw.window sw.requests ≤ sw.limit
unfolding serve
serve-count sw [] from end b o = omega (arith, count_recent-le end sw.window sw.requests)
serve-count sw ((now, n) ∷ rs) from end b (o, os) =
    let sw' = (allow_n now n sw).0 in
    let (window, limit, count) = allow_n-count now end n sw (InOrder-le now rs end os) in
    let later = serve-count sw' rs now end (allow_n-IsBounded now n sw b) os in
    let later' = rw (window, limit) at later in
    elim (Bool-cases (allow_n now n sw).1) [
      | inl granted ↦ rw granted (
          omega (
            arith,
            later',
            rw granted at count,
            count_recent-append end sw.window (replicate (pos_part n) now) (serve sw' rs).0,
          ))
      | inr denied ↦ rw denied (omega (arith, later', rw denied at count))
    ]

-- Whatever calls are made of a limiter that holds no more requests than its limit, at times that do
-- not fall, the window that ends at any time from the last call on sees no more requests granted by
-- them than the limit.
pub window_limit :
    (sw : SlidingWindowLimiter) (rs : List Request) (from end : ℕ)
    → IsBounded sw
    → InOrder from rs end
    → count_recent end sw.window (serve sw rs).0 ≤ sw.limit
window_limit sw rs from end b o = omega (arith, serve-count sw rs from end b o)
