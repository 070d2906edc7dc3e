-- ===== src/Backpressure/Flow/Submission.antt =====
-- The submissions of pkg/utils/backpressure/controller.go: what each strategy does to the queue and the load.
use quant_finance_pipeline.Prelude.{
  ℕ, suc, ◌+◌, ◌<◌, ◌≡◌, refl, sym, ap, ◌∙◌, inl, inr, Bool, true, false, List, [], ◌∷◌, length,
  length-append, append-nil, arith, ◌&&◌, Bool-cases,
}
use quant_finance_pipeline.Prelude.Int.{ℤ, pos, ◌+ℤ◌, ◌-ℤ◌, +ℤ_cancel}
use quant_finance_pipeline.Backpressure.Controller.{
  Strategy, drop_oldest, drop_newest, block, reject, Controller, Submitted, accepted, handed,
  context_error, message_dropped, message_rejected, waiting, panicked, Moment, put, discard,
  send_or, submit_drop_oldest, submit_drop_newest, submit_reject, submit_blocking, submit_strategy,
  submit, is_overloaded, sends, gives_up, not_ready, panics, try_send, has_room, on_overload,
}
use quant_finance_pipeline.Backpressure.Flow.{Flow, leaked, IsCounted, IsSound}

load_up : (n : ℕ) → pos n +ℤ pos 1 ≡ pos (n + 1)
unfolding ◌+ℤ◌
load_up n = ground arith

both : (a b : Bool) → a && b ≡ true → a ≡ true
both a b h = ground arith

pub load_down : (a b : ℕ) → pos (suc a + b) -ℤ pos 1 ≡ pos (a + b)
unfolding ◌-ℤ◌
load_down a b = ground arith

load_back : (l : ℤ) (n : ℕ) → l ≡ pos n → l +ℤ pos 1 -ℤ pos 1 ≡ pos n
load_back l n e = +ℤ_cancel l (pos 1) ∙ e

module _ {ℓ} {A : Type ℓ} where
  put-IsSound :
      (msg : A) (c : Controller A)
      → IsCounted c
      → has_room c ≡ true
      → IsSound c (put msg c, (msg ∷ [], []))
  put-IsSound msg c k room = (
    (
      omega (arith, length-append c.queue (msg ∷ []), lt),
      ap (λ l. l +ℤ pos 1) k.1
          ∙ load_up _
          ∙ ap pos (omega (arith, length-append c.queue (msg ∷ []))),
    ),
    refl,
    refl,
    omega arith,
    inr refl,
    inr refl,
  )
    where
      lt : length c.queue < c.max_queue_size
      lt = ground arith

  pub same-IsSound : (c : Controller A) → IsCounted c → IsSound c (c, ([], []))
  same-IsSound c k = (k, refl, refl, omega arith, inr (append-nil c.queue), inr refl)

  -- The ends of a `select` with a send into the queue.
  pub send_or-cases {κ} :
      (P : Controller A × Submitted → Type κ) (full : Controller A × Submitted) (msg : A)
      (w : Moment) (c : Controller A)
      → (has_room c ≡ true → P (put msg c, accepted))
      → (w.done ≡ true → P (c, context_error))
      → (c.closed ≡ true → P (c, panicked))
      → (has_room c ≡ false → P full)
      → P (send_or full msg w c)
  send_or-cases P full msg w c s g p f = elim (Bool-cases (w.done && w.picked)) [
    | inl up ↦ rw (up, send_or) (g (both w.done w.picked up))
    | inr no' ↦ elim (Bool-cases c.closed) [
      | inl closed ↦ rw (no', closed, send_or) (p closed)
      | inr open' ↦ elim (Bool-cases (has_room c)) [
        | inl room ↦ rw (no', open', room, send_or) (s room)
        | inr full' ↦ elim (Bool-cases w.done) [
          | inl done ↦ rw (no', open', full', done, send_or) (g done)
          | inr on ↦ rw (no', open', full', on, send_or) (f full')
        ]
      ]
    ]
  ]

  abbrev pub Submits : A → Controller A → Controller A × Submitted → Type ℓ
  Submits msg c (c', handed) =
      IsSound c (record c' { current_load = c'.current_load -ℤ pos 1 }, ([], []))
  Submits msg c (c', accepted) = IsSound c (c', (msg ∷ [], []))
  Submits msg c (c', _) = IsSound c (c', ([], []))

  Submits-map :
      (msg : A) (a b : Controller A)
      → ((f : Flow A) → IsSound a f → IsSound b f)
      → (out : Controller A × Submitted) → Submits msg a out
      → Submits msg b out
  Submits-map msg a b m (c, accepted) = m (c, (msg ∷ [], []))
  Submits-map msg a b m (c, handed) =
      m (record c { current_load = c.current_load -ℤ pos 1 }, ([], []))
  Submits-map msg a b m (c, context_error) = m (c, ([], []))
  Submits-map msg a b m (c, message_dropped) = m (c, ([], []))
  Submits-map msg a b m (c, message_rejected) = m (c, ([], []))
  Submits-map msg a b m (c, waiting) = m (c, ([], []))
  Submits-map msg a b m (c, panicked) = m (c, ([], []))

  send_or-Submits :
      (full : Controller A × Submitted) (msg : A) (w : Moment) (c : Controller A)
      → IsCounted c
      → (has_room c ≡ false → Submits msg c full)
      → Submits msg c (send_or full msg w c)
  send_or-Submits full msg w c k f =
      send_or-cases (Submits msg c) full msg w c (put-IsSound msg c k) (λ _. same-IsSound c k)
        (λ _. same-IsSound c k) f

  submit_drop_newest-Submits :
      (w : Moment) (msg : A) (c : Controller A)
      → IsCounted c
      → c.strategy ≡ drop_newest
      → Submits msg c (submit_drop_newest w msg c)
  unfolding submit_drop_newest
  submit_drop_newest-Submits w msg c k s = send_or-Submits _ msg w c k (λ _. (
    (
      k.0,
      k.1
          ∙ ap (λ s. pos (length c.queue + leaked s c.dropped_messages)) s
          ∙ sym (ap (λ s. pos (length c.queue + leaked s (c.dropped_messages + 1))) s),
    ),
    refl,
    refl,
    omega arith,
    inr (append-nil c.queue),
    inr refl,
  ))

  submit_reject-Submits :
      (w : Moment) (msg : A) (c : Controller A)
      → IsCounted c
      → Submits msg c (submit_reject w msg c)
  unfolding submit_reject
  submit_reject-Submits w msg c k = send_or-Submits _ msg w c k (λ _. same-IsSound c k)

  submit_blocking-Submits :
      (w : Moment) (receiver : Bool) (msg : A) (c : Controller A)
      → IsCounted c
      → Submits msg c (submit_blocking w receiver c)
  unfolding submit_blocking
  submit_blocking-Submits w receiver msg c k =
      elim (try_send c.closed receiver w)
        as (λ o. Submits msg c (elim o [
          | sends ↦ (record c { current_load = c.current_load +ℤ pos 1 }, handed)
          | gives_up ↦ (c, context_error)
          | not_ready ↦ (c, waiting)
          | panics ↦ (c, panicked)
        ])) [
          | sends ↦ (
            (k.0, load_back _ _ k.1),
            refl,
            refl,
            omega arith,
            inr (append-nil c.queue),
            inr refl,
          )
          | gives_up ↦ same-IsSound c k
          | not_ready ↦ same-IsSound c k
          | panics ↦ same-IsSound c k
        ]

  -- The loop on a queue of the controller's, whose messages it drops one by one.
  submit_drop_oldest-Submits :
      (moments : ℕ → Moment) (msg : A) (i : ℕ) (q : List A) (c : Controller A)
      → IsCounted (record c { queue = q })
      → c.strategy ≡ drop_oldest
      → Submits msg (record c { queue = q }) (submit_drop_oldest moments msg i q c)
  unfolding submit_drop_oldest
  submit_drop_oldest-Submits moments msg i [] c k s =
      send_or-Submits _ msg (moments i) (record c { queue = [] }) k
        (λ _.
          send_or-Submits _ msg (moments (suc i)) (record c { queue = [] }) k
            (λ _. same-IsSound (record c { queue = [] }) k))
  submit_drop_oldest-Submits moments msg i (old ∷ rest) c k s =
      send_or-Submits _ msg (moments i) (record c { queue = old ∷ rest }) k
        (λ _.
          Submits-map msg (discard old rest c) (record c { queue = old ∷ rest }) earlier
            (submit_drop_oldest moments msg (suc i) rest (discard old rest c))
            (submit_drop_oldest-Submits moments msg (suc i) rest (discard old rest c) shifted s))
    where
      shifted : IsCounted (discard old rest c)
      shifted = (
        omega (arith, k.0),
        k.1
            ∙ ap (λ s. pos (length (old ∷ rest) + leaked s c.dropped_messages)) s
            ∙ ap pos (omega arith)
            ∙ sym (ap (λ s. pos (length rest + leaked s (c.dropped_messages + 1))) s),
      )

      earlier :
          (f : Flow A)
          → IsSound (discard old rest c) f
          → IsSound (record c { queue = old ∷ rest }) f
      earlier f (n, e, h, d, _, b) = (n, e, h, omega (arith, d), inl s, b)

  submit_strategy-Submits :
      (s : Strategy) (moments : ℕ → Moment) (i : ℕ) (receiver : Bool) (msg : A) (c : Controller A)
      → IsCounted c
      → c.strategy ≡ s
      → Submits msg c (submit_strategy s moments i receiver msg c)
  unfolding submit_strategy
  submit_strategy-Submits drop_oldest moments i receiver msg c k e =
      submit_drop_oldest-Submits moments msg i c.queue c k e
  submit_strategy-Submits drop_newest moments i receiver msg c k e =
      submit_drop_newest-Submits (moments i) msg c k e
  submit_strategy-Submits block moments i receiver msg c k e =
      submit_blocking-Submits (moments i) receiver msg c k
  submit_strategy-Submits reject moments i receiver msg c k e =
      submit_reject-Submits (moments i) msg c k

  pub submit-Submits :
      (moments : ℕ → Moment) (receiver : Bool) (msg : A) (c : Controller A)
      → IsCounted c
      → Submits msg c (submit moments receiver msg c)
  unfolding submit
  submit-Submits moments receiver msg c k = elim (Bool-cases (is_overloaded c)) [
    | inl over ↦
        let told = record c { calls = on_overload c.current_load ∷ c.calls } in
        rw over (
          Submits-map msg told c (λ f h. h) (submit_strategy c.strategy moments 0 receiver msg told)
            (submit_strategy-Submits c.strategy moments 0 receiver msg told k refl))
    | inr under ↦ rw under (
        send_or-Submits _ msg (moments 0) c k
          (λ _. submit_strategy-Submits c.strategy moments 1 receiver msg c k refl))
  ]
