-- ===== src/Backpressure/Flow/Accounts.antt =====
-- What holds of all runs of a controller of pkg/utils/backpressure/controller.go.
use quant_finance_pipeline.Prelude.{
  ℕ, ◌+◌, ◌<◌, ◌≡◌, ◌≢◌, refl, sym, ap, ◌∙◌, ◌⊎◌, inl, inr, true, List, [], ◌∷◌, ◌++◌, length,
  append-nil, arith, ltb, ◌&&◌, Bool-cases,
}
use quant_finance_pipeline.Prelude.Int.{pos, ◌-ℤ◌}
use quant_finance_pipeline.Backpressure.Controller.{
  Strategy, drop_oldest, drop_newest, block, reject, Config, Controller, new_controller, Submitted,
  accepted, handed, context_error, message_dropped, message_rejected, waiting, panicked, Moment,
  submit, count_received, receive, close, is_overloaded,
}
use quant_finance_pipeline.Backpressure.Controller.{channel, nothing_yet, take_message}
use quant_finance_pipeline.Backpressure.Flow.{
  Event, submits, receives, closes, submitted, received, step, run, leaked, IsCounted, IsSound,
  IsSound-trans,
}
use quant_finance_pipeline.Backpressure.Flow.Submission.{
  Submits, submit-Submits, same-IsSound, load_down,
}

none_leaked : (s : Strategy) → 0 ≡ 0 + leaked s 0
none_leaked drop_oldest = omega arith
none_leaked drop_newest = omega arith
none_leaked block = omega arith
none_leaked reject = omega arith

module _ {ℓ} {A : Type ℓ} where
  submitted-IsSound :
      (now : ℕ) (msg : A) (c : Controller A) (out : Controller A × Submitted)
      → Submits msg c out
      → IsSound c (submitted now msg out)
  unfolding count_received
  submitted-IsSound now msg c (c', accepted) h = h
  submitted-IsSound now msg c (c', handed) h = h
  submitted-IsSound now msg c (c', context_error) h = h
  submitted-IsSound now msg c (c', message_dropped) h = h
  submitted-IsSound now msg c (c', message_rejected) h = h
  submitted-IsSound now msg c (c', waiting) h = h
  submitted-IsSound now msg c (c', panicked) h = h

  nothing-IsSound :
      (w : Moment) (c : Controller A) → IsCounted c → IsSound c (received (c, nothing_yet w c))
  nothing-IsSound w c k = elim (Bool-cases c.closed) [
    | inl e ↦ rw e (same-IsSound c k)
    | inr e ↦ elim (Bool-cases w.done) [
      | inl d ↦ rw (e, d) (same-IsSound c k)
      | inr d ↦ rw (e, d) (same-IsSound c k)
    ]
  ]

  take_message-IsSound :
      (q : List A) (w : Moment) (now : ℕ) (c : Controller A)
      → IsCounted c
      → (q ≡ []) ⊎ ((c.queue ≡ q) × (c.strategy ≢ block))
      → IsSound c (received (take_message q w now c))
  unfolding take_message
  take_message-IsSound [] w now c k h = nothing-IsSound w c k
  take_message-IsSound (msg ∷ rest) w now c k (inl e) = absurd (ground arith)
  take_message-IsSound (msg ∷ rest) w now c k (inr (e, n)) = (
    (
      omega (arith, k.0, ap length e),
      ap (λ l. l -ℤ pos 1) (k.1 ∙ ap (λ q. pos (length q + leaked c.strategy c.dropped_messages)) e)
          ∙ load_down (length rest) _,
    ),
    refl,
    refl,
    omega arith,
    inr (append-nil c.queue ∙ e),
    inl n,
  )

  channel-cases :
      (s : Strategy) (q : List A) → (channel s q ≡ []) ⊎ ((q ≡ channel s q) × (s ≢ block))
  channel-cases drop_oldest q = inr (refl, λ e. ground arith)
  channel-cases drop_newest q = inr (refl, λ e. ground arith)
  channel-cases block q = inl refl
  channel-cases reject q = inr (refl, λ e. ground arith)

  receive-IsSound :
      (w : Moment) (now : ℕ) (c : Controller A)
      → IsCounted c
      → IsSound c (received (receive w now c))
  unfolding receive
  receive-IsSound w now c k = elim (Bool-cases (w.done && w.picked)) [
    | inl e ↦ rw e (same-IsSound c k)
    | inr e ↦ rw e (
        take_message-IsSound (channel c.strategy c.queue) w now c k
          (channel-cases c.strategy c.queue))
  ]

  close-IsSound : (c : Controller A) → IsCounted c → IsSound c (step c closes)
  unfolding step close
  close-IsSound c k = elim (Bool-cases c.closed) [
    | inl e ↦ rw e (same-IsSound c k)
    | inr e ↦ rw e (same-IsSound c k)
  ]

  step-IsSound : (c : Controller A) (e : Event A) → IsCounted c → IsSound c (step c e)
  unfolding step
  step-IsSound c (submits moments receiver now msg) k =
      submitted-IsSound now msg c (submit moments receiver msg c)
        (submit-Submits moments receiver msg c k)
  step-IsSound c (receives w now) k = receive-IsSound w now c k
  step-IsSound c closes k = close-IsSound c k

  run-IsSound : (c : Controller A) (es : List (Event A)) → IsCounted c → IsSound c (run c es)
  unfolding run
  run-IsSound c [] k = same-IsSound c k
  run-IsSound c (e ∷ es) k =
      let (c', (ins, outs)) = step c e in
      let (end, (ins', outs')) = run c' es in
      let first = step-IsSound c e k in
      IsSound-trans c c' end ins outs ins' outs' first (run-IsSound c' es first.0)

  -- Whatever is submitted and received, and however often it is closed, the queue of a new
  -- controller never holds more than its size, and its load is the number of messages in the
  -- queue, and under `DropOldest` also of all those that it has dropped.
  pub run-new-IsCounted :
      (config : Config) (now : ℕ) (es : List (Event A))
      → IsCounted (run (new_controller config now) es).0
  unfolding new_controller
  run-new-IsCounted config now es =
      (run-IsSound (new_controller config now) es
        (omega arith, ap pos (none_leaked config.strategy))).0

  -- On a controller whose load counts its queue, under any strategy but `DropOldest`, the queue
  -- loses and reorders no message: those that it held and then accepted are, in this order, those
  -- that receivers got and those that it still holds.
  pub run_fifo :
      (c : Controller A) (es : List (Event A))
      → IsCounted c
      → c.strategy ≢ drop_oldest
      → let (c', (ins, outs)) = run c es in c.queue ++ ins ≡ outs ++ c'.queue
  run_fifo c es k n = elim (run-IsSound c es k).4 [ inl e ↦ absurd (n e) | inr e ↦ e ]

  -- On such a controller under `Block` no receiver ever gets a message of the queue: the queue
  -- keeps all that it accepts.
  pub block_starves :
      (c : Controller A) (es : List (Event A))
      → IsCounted c
      → c.strategy ≡ block
      → let (c', (ins, outs)) = run c es in (outs ≡ []) × (c'.queue ≡ c.queue ++ ins)
  block_starves c es k s =
      let sound = run-IsSound c es k in
      let none_out : (run c es).1.1 ≡ [] = elim sound.5 [ inl n ↦ absurd (n s) | inr e ↦ e ] in
      (
        none_out,
        ap (λ xs. xs ++ (run c es).0.queue) (sym none_out)
            ∙ sym (run_fifo c es k (λ e. other (sym s ∙ e))),
      )
    where
      other : block ≢ drop_oldest
      other e = ground arith

  -- On such a controller, once `DropOldest` has dropped more messages than the high water mark,
  -- the controller is overloaded for ever, even with an empty queue.
  pub overloaded_for_ever :
      (c : Controller A) (es : List (Event A))
      → IsCounted c
      → c.strategy ≡ drop_oldest
      → c.high_water_mark < c.dropped_messages
      → is_overloaded (run c es).0 ≡ true
  unfolding is_overloaded
  overloaded_for_ever c es k s lt =
      let c' = (run c es).0 in
      let sound = run-IsSound c es k in
      let load =
        sound.0.1 ∙ ap (λ s. pos (length c'.queue + leaked s c'.dropped_messages)) (sound.1 ∙ s) in
      rw load (ltb_true c'.high_water_mark _ (omega (arith, sound.2, sound.3, lt)))
    where
      ltb_true : (a b : ℕ) → a < b → ltb a b ≡ true
      ltb_true a b h = ground arith
