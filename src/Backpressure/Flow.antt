-- ===== src/Backpressure/Flow.antt =====
-- Runs of a controller of pkg/utils/backpressure/controller.go: what it accepts and hands out, and
-- what it counts.
pub mod Submission
pub mod Accounts
pub mod Outcome
use quant_finance_pipeline.Prelude.{
  ℕ, zero, suc, ◌+◌, ◌≤◌, ◌<◌, ◌≡◌, ◌≢◌, refl, sym, ap, ◌∙◌, ◌⊎◌, inl, inr, Bool, true, false, List,
  [], ◌∷◌, ◌++◌, Option, none, some, if◌then◌else◌, length, length-append, append-nil, append_assoc,
  arith, ltb, ◌&&◌, Bool-cases,
}
use quant_finance_pipeline.Prelude.Int.{ℤ, pos, ◌+ℤ◌, ◌-ℤ◌, +ℤ_cancel}
use quant_finance_pipeline.Backpressure.Controller.{
  Strategy, drop_oldest, drop_newest, block, reject, Config, Controller, new_controller, Submitted,
  accepted, handed, context_error, message_dropped, message_rejected, waiting, panicked, Received,
  message, queue_closed, cancelled, idle, Moment, put, discard, send_or, submit_drop_oldest,
  submit_drop_newest, submit_reject, submit_blocking, submit_strategy, submit, count_received,
  receive, close, is_overloaded, Sending, sends, gives_up, not_ready, panics, try_send, has_room,
  on_overload,
}

-- A call of any goroutine. A submission knows whether a receiver waits on the blocking channel, and
-- when that one goes on if it is handed the message.
pub data Event {ℓ} (A : Type ℓ) : Type ℓ where
  submits : (ℕ → Moment) → Bool → ℕ → A → Event A
  receives : Moment → ℕ → Event A
  closes : Event A

-- A controller, the messages that its queue has accepted, and those that receivers have got from it,
-- the earliest first.
abbrev pub Flow {ℓ} : Type ℓ → Type ℓ
Flow A = Controller A × (List A × List A)

-- What the load counts beside the queue: the messages that `submitDropOldest` drops from it.
abbrev pub leaked : Strategy → ℕ → ℕ
leaked drop_oldest n = n
leaked _ n = 0

module _ {ℓ} {A : Type ℓ} where
  abbrev pub submitted : ℕ → A → Controller A × Submitted → Flow A
  submitted now msg (c, accepted) = (c, (msg ∷ [], []))
  submitted now msg (c, handed) = (count_received now c, ([], []))
  submitted now msg (c, _) = (c, ([], []))

  abbrev pub received : Controller A × Received A → Flow A
  received (c, message msg) = (c, ([], msg ∷ []))
  received (c, _) = (c, ([], []))

  unfoldable pub step : Controller A → Event A → Flow A
  unfolding submit receive close
  step c (submits moments receiver now msg) = submitted now msg (submit moments receiver msg c)
  step c (receives w now) = received (receive w now c)
  step c closes = elim (close c) [ some c' ↦ (c', ([], [])) | none ↦ (c, ([], [])) ]

  unfoldable pub run : Controller A → List (Event A) → Flow A
  run c [] = (c, ([], []))
  run c (e ∷ es) =
      let (c', (ins, outs)) = step c e in
      let (end, (ins', outs')) = run c' es in (end, (ins ++ ins', outs ++ outs'))

  -- The queue fits its channel, and the load counts it and what has leaked.
  abbrev pub IsCounted : Controller A → Type 0
  IsCounted c =
      (length c.queue ≤ c.max_queue_size)
      × (c.current_load ≡ pos (length c.queue + leaked c.strategy c.dropped_messages))

  -- A part of a run from `c`: the queue hands out its messages in the order in which it accepted them.
  abbrev pub IsSound : Controller A → Flow A → Type ℓ
  IsSound c (c', (ins, outs)) =
      IsCounted c'
      × (c'.strategy ≡ c.strategy)
      × (c'.high_water_mark ≡ c.high_water_mark)
      × (c.dropped_messages ≤ c'.dropped_messages)
      × ((c.strategy ≡ drop_oldest) ⊎ (c.queue ++ ins ≡ outs ++ c'.queue))
      × ((c.strategy ≢ block) ⊎ (outs ≡ []))

  pub IsSound-trans :
      (c c1 c2 : Controller A) (i1 o1 i2 o2 : List A)
      → IsSound c (c1, (i1, o1))
      → IsSound c1 (c2, (i2, o2))
      → IsSound c (c2, (i1 ++ i2, o1 ++ o2))
  IsSound-trans c c1 c2 i1 o1 i2 o2 (k, s, h, d, f, b) (k', s', h', d', f', b') =
      (k', s' ∙ s, h' ∙ h, omega (arith, d, d'), fifo f f', held b b')
    where
      fifo :
          ((c.strategy ≡ drop_oldest) ⊎ (c.queue ++ i1 ≡ o1 ++ c1.queue))
          → ((c1.strategy ≡ drop_oldest) ⊎ (c1.queue ++ i2 ≡ o2 ++ c2.queue))
          → ((c.strategy ≡ drop_oldest) ⊎ (c.queue ++ (i1 ++ i2) ≡ (o1 ++ o2) ++ c2.queue))
      fifo (inl e) _ = inl e
      fifo (inr e) (inl e') = inl (sym s ∙ e')
      fifo (inr e) (inr e') = inr (
          sym (append_assoc c.queue i1 i2)
          ∙ ap (λ xs. xs ++ i2) e
          ∙ append_assoc o1 c1.queue i2
          ∙ ap (λ xs. o1 ++ xs) e'
          ∙ sym (append_assoc o1 o2 c2.queue))

      held :
          ((c.strategy ≢ block) ⊎ (o1 ≡ []))
          → ((c1.strategy ≢ block) ⊎ (o2 ≡ []))
          → ((c.strategy ≢ block) ⊎ (o1 ++ o2 ≡ []))
      held (inl n) _ = inl n
      held (inr e) (inl n) = inl (λ q. n (s ∙ q))
      held (inr e) (inr e') = inr (ap (λ xs. xs ++ o2) e ∙ e')
