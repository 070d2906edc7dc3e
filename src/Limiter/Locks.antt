-- ===== src/Limiter/Locks.antt =====
-- The lock calls of pkg/utils/backpressure/rate_limiter.go, on a `sync.RWMutex` that one goroutine
-- uses alone.
use quant_finance_pipeline.Prelude.{
  ℕ, zero, suc, ◌≡◌, refl, Bool, true, false, List, [], ◌∷◌, Option, none, some, ◌==◌,
  if◌then◌else◌, ◌>>=◌, arith,
}

-- How many hold it for reading, and whether one holds it for writing.
pub record RwMutex : Type 0 where
  pub readers : ℕ
  pub writer : Bool

pub data LockCall : Type 0 where
  lock unlock r_lock r_unlock : LockCall

-- `none` where the call waits for ever, as nobody else will release the mutex, or is an error.
unfoldable pub call : LockCall → RwMutex → Option RwMutex
call lock m =
    if m.writer then none else if m.readers == 0 then some (record m { writer = true }) else none
call unlock m = if m.writer then some (record m { writer = false }) else none
call r_lock m = if m.writer then none else some (record m { readers = suc m.readers })
call r_unlock m = elim m.readers [ zero ↦ none | suc n ↦ some (record m { readers = n }) ]

unfoldable pub calls : List LockCall → RwMutex → Option RwMutex
unfolding call
calls [] m = some m
calls (c ∷ cs) m = call c m >>= calls cs

-- The calls that the methods make, the deferred ones last.
unfoldable pub allow_n_locks : List LockCall
allow_n_locks = lock ∷ unlock ∷ []

unfoldable pub calculate_wait_time_locks : List LockCall
calculate_wait_time_locks = r_lock ∷ r_unlock ∷ []

-- `TokenBucketLimiter.TokensRemaining`
unfoldable pub tokens_remaining_locks : List LockCall
tokens_remaining_locks = r_lock ∷ lock ∷ unlock ∷ []

-- `TokenBucketLimiter.TokensRemaining` waits for ever, in whatever state it finds the mutex.
-- `AllowN` and the computation of the wait return and leave a free mutex free.
pub tokens_remaining_blocks :
    (m : RwMutex)
    → (calls tokens_remaining_locks m ≡ none)
      × (calls allow_n_locks (record { readers = 0; writer = false })
          ≡ some (record { readers = 0; writer = false }))
      × (calls calculate_wait_time_locks (record { readers = 0; writer = false })
          ≡ some (record { readers = 0; writer = false }))
unfolding calls tokens_remaining_locks allow_n_locks calculate_wait_time_locks
tokens_remaining_blocks m = (ground arith, refl, refl)
