-- ===== src/Backpressure/Flow/Outcome.antt =====
-- How a submission ends on an open controller of pkg/utils/backpressure/controller.go.
use quant_finance_pipeline.Prelude.{
  true-false, ℕ, suc, ◌+◌, ◌≤◌, ◌<◌, ◌≡◌, ◌≢◌, refl, sym, ap, ◌∙◌, ◌⊎◌, inl, inr, Bool, true, false,
  List, [], ◌∷◌, ◌++◌, length, arith, ltb, Bool-cases,
}
use quant_finance_pipeline.Backpressure.Controller.{
  Strategy, drop_oldest, drop_newest, block, reject, Controller, Submitted, accepted, context_error,
  message_dropped, message_rejected, Moment, put, discard, submit_drop_oldest, submit_drop_newest,
  submit_reject, submit_strategy, submit, is_overloaded, has_room, on_overload,
}
use quant_finance_pipeline.Backpressure.Flow.Submission.{send_or-cases}

module _ {ℓ} {A : Type ℓ} where
  abbrev pub drop_first : List A → List A
  drop_first [] = []
  drop_first (x ∷ xs) = xs

  -- The queue had room for the message; or it was full and gave up its oldest one; or the context was
  -- done; or it was full, and the message was dropped or rejected and counted.
  abbrev pub Ends : (ℕ → Moment) → A → Controller A → Controller A × Submitted → Type ℓ
  Ends moments msg c (c', r) =
      ((r ≡ accepted) × (has_room c ≡ true) × (c'.queue ≡ c.queue ++ msg ∷ []))
      ⊎ ((r ≡ accepted)
          × (has_room c ≡ false)
          × (c.strategy ≡ drop_oldest)
          × (c'.queue ≡ drop_first c.queue ++ msg ∷ [])
          × (c'.dropped_messages ≡ c.dropped_messages + 1))
      ⊎ ((r ≡ context_error) × ((i : ℕ) × ((moments i).done ≡ true)))
      ⊎ ((r ≡ message_dropped)
          × (has_room c ≡ false)
          × (c.strategy ≡ drop_newest)
          × (c'.queue ≡ c.queue)
          × (c'.dropped_messages ≡ c.dropped_messages + 1))
      ⊎ ((r ≡ message_rejected)
          × (has_room c ≡ false)
          × (c.strategy ≡ reject)
          × (c'.queue ≡ c.queue)
          × (c'.rejected_count ≡ c.rejected_count + 1))

  -- The loop of `submitDropOldest`, once there is room.
  drop_oldest_room {κ} :
      (P : Controller A × Submitted → Type κ) (moments : ℕ → Moment) (msg : A) (i : ℕ) (q : List A)
      (c : Controller A)
      → ltb (length q) c.max_queue_size ≡ true
      → c.closed ≡ false
      → P (put msg (record c { queue = q }), accepted)
      → ((moments i).done ≡ true → P (record c { queue = q }, context_error))
      → P (submit_drop_oldest moments msg i q c)
  unfolding submit_drop_oldest
  drop_oldest_room P moments msg i [] c room open' s g =
      send_or-cases P _ msg (moments i) (record c { queue = [] }) (λ _. s) g
        (λ closed. absurd (true-false closed open')) (λ full. absurd (true-false room full))
  drop_oldest_room P moments msg i (old ∷ rest) c room open' s g =
      send_or-cases P _ msg (moments i) (record c { queue = old ∷ rest }) (λ _. s) g
        (λ closed. absurd (true-false closed open')) (λ full. absurd (true-false room full))

  module _ (moments : ℕ → Moment) (msg : A) (c : Controller A) (open' : c.closed ≡ false)
      (size : 0 < c.max_queue_size) (fits : length c.queue ≤ c.max_queue_size) where
    drop_oldest-Ends :
        (i : ℕ) (q : List A)
        → c.strategy ≡ drop_oldest
        → c.queue ≡ q
        → Ends moments msg c (submit_drop_oldest moments msg i q c)
    unfolding submit_drop_oldest
    drop_oldest-Ends i [] s e =
        drop_oldest_room (Ends moments msg c) moments msg i [] c (ground arith) open'
          (inl (refl, rw e (ground arith), ap (λ q. q ++ msg ∷ []) (sym e)))
          (λ d. inr (inr (inl (refl, (i, d)))))
    drop_oldest-Ends i (old ∷ rest) s e =
        send_or-cases (Ends moments msg c) _ msg (moments i) (record c { queue = old ∷ rest })
          (λ room. inl (
            refl,
            ap (λ q. ltb (length q) c.max_queue_size) e ∙ room,
            ap (λ q. q ++ msg ∷ []) (sym e),
          ))
          (λ d. inr (inr (inl (refl, (i, d))))) (λ closed. absurd (true-false closed open'))
          (λ full.
            drop_oldest_room (Ends moments msg c) moments msg (suc i) rest (discard old rest c) less
              open'
              (inr (
                inl (
                  refl,
                  ap (λ q. ltb (length q) c.max_queue_size) e ∙ full,
                  s,
                  ap (λ q. drop_first q ++ msg ∷ []) (sym e),
                  refl,
                )))
              (λ d. inr (inr (inl (refl, (suc i, d))))))
      where
        shorter : (n m : ℕ) → suc n ≤ m → ltb n m ≡ true
        shorter n m h = ground arith

        less : ltb (length rest) c.max_queue_size ≡ true
        less = shorter (length rest) c.max_queue_size (omega (arith, ap length e, fits))

    strategy-Ends :
        (s : Strategy) (i : ℕ) (receiver : Bool)
        → c.strategy ≡ s
        → s ≢ block
        → Ends moments msg c (submit_strategy s moments i receiver msg c)
    unfolding submit_strategy submit_drop_newest submit_reject
    strategy-Ends drop_oldest i receiver e n = drop_oldest-Ends i c.queue e refl
    strategy-Ends drop_newest i receiver e n =
        send_or-cases (Ends moments msg c) _ msg (moments i) c (λ room. inl (refl, room, refl))
          (λ d. inr (inr (inl (refl, (i, d))))) (λ closed. absurd (true-false closed open'))
          (λ full. inr (inr (inr (inl (refl, full, e, refl, refl)))))
    strategy-Ends block i receiver e n = absurd (n refl)
    strategy-Ends reject i receiver e n =
        send_or-cases (Ends moments msg c) _ msg (moments i) c (λ room. inl (refl, room, refl))
          (λ d. inr (inr (inl (refl, (i, d))))) (λ closed. absurd (true-false closed open'))
          (λ full. inr (inr (inr (inr (refl, full, e, refl, refl)))))

  -- On an open controller with a queue that fits, `Submit` under any strategy but `Block` ends. It
  -- accepts the message, behind those of the queue or, under `DropOldest` on a full queue, behind
  -- all but the oldest, which it counts as dropped; or the context was done; or the queue was full,
  -- and the message is dropped or rejected as the strategy says, and counted.
  pub submit-Ends :
      (moments : ℕ → Moment) (receiver : Bool) (msg : A) (c : Controller A)
      → c.closed ≡ false
      → 0 < c.max_queue_size
      → length c.queue ≤ c.max_queue_size
      → c.strategy ≢ block
      → Ends moments msg c (submit moments receiver msg c)
  unfolding submit
  submit-Ends moments receiver msg c open' size fits n = elim (Bool-cases (is_overloaded c)) [
    | inl over ↦ rw over (
        strategy-Ends moments msg (record c { calls = on_overload c.current_load ∷ c.calls }) open'
          size fits c.strategy 0 receiver refl n)
    | inr under ↦ rw under (
        send_or-cases (Ends moments msg c) _ msg (moments 0) c (λ room. inl (refl, room, refl))
          (λ d. inr (inr (inl (refl, (0, d))))) (λ closed. absurd (true-false closed open'))
          (λ full. strategy-Ends moments msg c open' size fits c.strategy 1 receiver refl n))
  ]
