-- ===== src/Hub/Delivery.antt =====
-- Who gets a broadcast of internal/websocket/hub.go, and what becomes of a client without room.
use quant_finance_pipeline.Prelude.{
  ℕ, ◌≡◌, refl, sym, ap, subst, ◌∙◌, ◌⊎◌, inl, inr, String, Bool, true, false, List, [], ◌∷◌, ◌++◌,
  none, some, ◌==◌, if◌then◌else◌, arith, Bool-cases, true-false, ◌>>=◌, ltb, length,
}
use quant_finance_pipeline.Hub.Sets.{has, has-discard, subscribers}
use quant_finance_pipeline.Hub.{
  Client, Hub, push, drop_client, has_room, offer_to, offer, offer_all, broadcast_to_clients,
}
use quant_finance_pipeline.Hub.Messages.{
  Services, event_message, offer_text, broadcast_order_book_event,
}
use quant_finance_pipeline.Hub.Sound.{subscribed, Distinct, IsSound, client_at-write_self}

abbrev with_message : String → Client → Client
with_message text client = record client {
  send = record { queue = client.send.queue ++ text ∷ []; closed = client.send.closed };
}

-- A client before and after, and whether it was and is registered: it has the message at the end of
-- its queue, or was without room, its channel is closed and it is registered no more.
abbrev Served : String → Client → Client → Bool → Bool → Type 0
Served text old new was is =
    ((ltb (length old.send.queue) 256 ≡ true) × (new ≡ with_message text old) × (is ≡ was))
    ⊎ ((ltb (length old.send.queue) 256 ≡ false) × (new.send.closed ≡ true) × (is ≡ false))

abbrev pub Reached : ℕ → String → Hub → Hub → Type 0
Reached c text h h' =
    Served text (h.client_at c) (h'.client_at c) (has c h.clients) (has c h'.clients)

abbrev pub Untouched : ℕ → Hub → Hub → Type 0
Untouched c h h' = (h'.client_at c ≡ h.client_at c) × (has c h'.clients ≡ has c h.clients)

-- What a send to a client with an open channel does to it and to another.
record Offered (c : ℕ) (text : String) (h h' : Hub) : Type 0 where
  reached : Reached c text h h'
  others : (d : ℕ) → (c == d) ≡ false → Untouched d h h'
  same_subscriptions : h'.subscriptions ≡ h.subscriptions

offered :
    (c : ℕ) (text : String) (h : Hub)
    → (h.client_at c).send.closed ≡ false
    → (h' : Hub) × (offer text c h ≡ some h') × Offered c text h h'
unfolding offer_to
offered c text h o = elim (Bool-cases (has_room c h)) [
  | inl room ↦ (
    push c text h,
    ap (λ b. offer_to b c text h) o
        ∙ ap (λ b. some (if b then push c text h else drop_client c h)) room,
    record {
      reached = inl (room, client_at-write_self c _ h, refl);
      others = λ d ne. (ground arith, refl);
      same_subscriptions = refl;
    },
  )
  | inr full ↦ (
    drop_client c h,
    ap (λ b. offer_to b c text h) o
        ∙ ap (λ b. some (if b then push c text h else drop_client c h)) full,
    record {
      reached = inr (
        full,
        ap (λ (q : Client). q.send.closed) (client_at-write_self c _ h),
        ground (arith, has-discard c c h.clients),
      );
      others = λ d ne. (ground arith, has-discard c d h.clients ∙ rw ne refl);
      same_subscriptions = refl;
    },
  )
]

Reached-later :
    (c : ℕ) (text : String) (h h1 h2 : Hub)
    → Reached c text h h1
    → Untouched c h1 h2
    → Reached c text h h2
Reached-later c text h h1 h2 r (u, v) =
    subst (λ q. Served text (h.client_at c) q (has c h.clients) (has c h2.clients)) (sym u)
      (subst (λ b. Served text (h.client_at c) (h1.client_at c) (has c h.clients) b) (sym v) r)

Reached-earlier :
    (c : ℕ) (text : String) (h h1 h2 : Hub)
    → Untouched c h h1
    → Reached c text h1 h2
    → Reached c text h h2
Reached-earlier c text h h1 h2 (u, v) r =
    subst (λ q. Served text q (h2.client_at c) (has c h.clients) (has c h2.clients)) u
      (subst (λ b. Served text (h1.client_at c) (h2.client_at c) b (has c h2.clients)) v r)

Untouched-trans : (c : ℕ) (h h1 h2 : Hub) → Untouched c h h1 → Untouched c h1 h2 → Untouched c h h2
Untouched-trans c h h1 h2 (a, b) (u, v) = (u ∙ a, v ∙ b)

abbrev Open : List ℕ → Hub → Type 0
Open cs h = (c : ℕ) → has c cs ≡ true → (h.client_at c).send.closed ≡ false

-- Every client of the list is reached, and no other is touched.
pub record Delivered (cs : List ℕ) (text : String) (h h' : Hub) : Type 0 where
  pub reached : (c : ℕ) → has c cs ≡ true → Reached c text h h'
  pub others : (c : ℕ) → has c cs ≡ false → Untouched c h h'
  pub same_subscriptions : h'.subscriptions ≡ h.subscriptions

offer_all-Delivered :
    (text : String) (cs : List ℕ) (h : Hub)
    → Distinct cs
    → Open cs h
    → (h' : Hub) × (offer_all text cs h ≡ some h') × Delivered cs text h h'
unfolding offer_all
offer_all-Delivered text [] h k o = (
  h,
  refl,
  record { reached = λ c m. cc; others = λ c m. (refl, refl); same_subscriptions = refl },
)
offer_all-Delivered text (c ∷ cs) h k o =
    let (h1, e1, a) = offered c text h (o c (ground arith)) in
    let apart : (d : ℕ) → has d cs ≡ true → (c == d) ≡ false = λ d m. elim (Bool-cases (c == d)) [
      | inl same ↦
          let i : c ≡ d = ground arith in
          absurd (true-false m (subst (λ x. has x cs ≡ false) i k.0))
      | inr other ↦ other
    ] in
    let (h2, e2, b) = offer_all-Delivered text cs h1 k.1 (λ d m.
      ap (λ (q : Client). q.send.closed) (a.others d (apart d m)).0
      ∙ o d (ground (arith, apart d m))) in
    (
      h2,
      ap (λ r. r >>= offer_all text cs) e1 ∙ e2,
      record {
        reached = λ d m. elim (Bool-cases (c == d)) [
          | inl same ↦
              let i : c ≡ d = ground arith in
              subst (λ x. Reached x text h h2) i
                (Reached-later c text h h1 h2 a.reached (b.others c k.0))
          | inr other ↦
              Reached-earlier d text h h1 h2 (a.others d other) (b.reached d (ground (arith, m)))
        ];
        others = λ d m.
            let ne : (c == d) ≡ false = ground (arith, m) in
            Untouched-trans d h h1 h2 (a.others d ne) (b.others d (ground (arith, m)));
        same_subscriptions = b.same_subscriptions ∙ a.same_subscriptions;
      },
    )

-- A broadcast of a sound hub does not panic: each registered client with room has the message at the
-- end of its queue and stays, each without room is closed and registered no more, no other client is
-- touched, and no subscription.
pub broadcast_to_clients-Delivered :
    (text : String) (h : Hub)
    → IsSound h
    → (h' : Hub) × (broadcast_to_clients text h ≡ some h') × Delivered h.clients text h h'
unfolding broadcast_to_clients
broadcast_to_clients-Delivered text h k =
    offer_all-Delivered text h.clients h k.distinct (λ c m. (k.channels c m).0)

-- A send to a list with a closed channel in it panics, sooner or later.
offer_all-closed :
    (text : String) (c : ℕ) (cs : List ℕ) (h : Hub)
    → has c cs ≡ true
    → (h.client_at c).send.closed ≡ true
    → offer_all text cs h ≡ none
unfolding offer_all offer_to
offer_all-closed text c [] h m o = cc
offer_all-closed text c (d ∷ ds) h m o = elim (Bool-cases (h.client_at d).send.closed) [
  | inl closed ↦ ap (λ b. offer_to b d text h >>= offer_all text ds) closed
  | inr working ↦
      let (h1, e, a) = offered d text h working in
      let ne : (d == c) ≡ false = elim (Bool-cases (d == c)) [
        | inl same ↦
            let i : d ≡ c = ground arith in
            absurd (true-false o (ap (λ x. (h.client_at x).send.closed) (sym i) ∙ working))
        | inr other ↦ other
      ] in
      ap (λ r. r >>= offer_all text ds) e
      ∙ offer_all-closed text c ds h1 (ground (arith, m, ne))
          (ap (λ (q : Client). q.send.closed) (a.others c ne).0 ∙ o)
]

module _ {D E : Type 0} (services : Services D E) where
  -- If a registered client of a sound hub is without room at a broadcast and has subscribed to a
  -- symbol, then an event of that symbol that JSON accepts is a panic after the broadcast.
  pub slow_client_panics :
      (c : ℕ) (text event_text symbol : String) (event : E) (h : Hub)
      → IsSound h
      → has c h.clients ≡ true
      → has_room c h ≡ false
      → subscribed symbol c h.subscriptions ≡ true
      → services.marshal (event_message services symbol event) ≡ some event_text
      → (h' : Hub) × (broadcast_to_clients text h ≡ some h')
        × (broadcast_order_book_event services symbol event h' ≡ none)
  unfolding broadcast_order_book_event offer_text
  slow_client_panics c text event_text symbol event h k reg full sub j =
      let (h', e, d) = broadcast_to_clients-Delivered text h k in
      let closed : (h'.client_at c).send.closed ≡ true = elim (d.reached c reg) [
        | inl (room, _, _) ↦ absurd (true-false room full)
        | inr (_, closed, _) ↦ closed
      ] in
      (
        h',
        e,
        ap (λ t. offer_text services t (subscribers symbol h'.subscriptions) h') j
            ∙ offer_all-closed event_text c (subscribers symbol h'.subscriptions) h'
                (ap (λ subs. subscribed symbol c subs) d.same_subscriptions ∙ sub) closed,
      )
