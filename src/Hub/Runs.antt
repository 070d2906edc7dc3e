-- ===== src/Hub/Runs.antt =====
-- Steps of the hub of internal/websocket/hub.go and its clients, one after another, in any order.
use text.Mathlib.Text.{◌==◌ as str_eq}
use quant_finance_pipeline.Prelude.{
  ℕ, suc, ◌≤◌, ◌≡◌, refl, subst, inl, inr, String, Bool, true, false, List, [], ◌∷◌, Option, none,
  some, ltb, if◌then◌else◌, arith, Bool-cases, ◌>>=◌,
}
use quant_finance_pipeline.Hub.Sets.{has, Subscribers, subscribers}
use quant_finance_pipeline.Hub.{
  Hub, new_hub, write_send, drop_client, has_room, offer_to, offer, offer_all, broadcast_to_clients,
  connect, close_client, unregister,
}
use quant_finance_pipeline.Hub.Messages.{
  Services, SubscriptionMessage, Message, pump_one, send_to, follow, unfollow_all, send_text,
  send_message, send_error, send_feed, follow_all, handle_subscription, handle_unsubscription,
  handle_kind, handle_parsed, handle_message, offer_text, update_depth, update_written,
  update_symbol, update_each, broadcast_market_updates, broadcast_order_book_event,
}
use quant_finance_pipeline.Hub.Sound.{
  IsSound, write_send-IsSound, push-IsSound, drop_client-IsSound,
}
use quant_finance_pipeline.Hub.Subscriptions.{
  follow-IsSound, unfollow_all-IsSound, remove_client_subscriptions-IsSound, connect-IsSound,
  new_hub-IsSound,
}

-- What a goroutine does with one message; `asks` is of a connection, with what it has read.
pub data Step (E : Type 0) : Type 0 where
  joins ticks : Step E
  leaves pumps : ℕ → Step E
  broadcasts : String → Step E
  asks : ℕ → String → Bool → Step E
  announces : String → E → Step E

unfoldable pub pump : ℕ → Hub → Hub
pump c h =
    write_send c
      (record { queue = pump_one (h.client_at c).send.queue; closed = (h.client_at c).send.closed })
      h

-- A sound hub with so many connections, unless there is a panic.
abbrev Keeps : ℕ → Option Hub → Type 0
Keeps n none = Unit
Keeps n (some h) = IsSound h × (n ≤ h.next_client)

bind-Keeps :
    (n : ℕ) (o : Option Hub) (f : Hub → Option Hub)
    → Keeps n o
    → ((h : Hub) → Keeps n (some h) → Keeps n (f h))
    → Keeps n (o >>= f)
bind-Keeps n none f k g = tt
bind-Keeps n (some h) f k g = g h k

if-Keeps :
    (n : ℕ) (b : Bool) (x y : Option Hub) → Keeps n x → Keeps n y → Keeps n (if b then x else y)
if-Keeps n true x y h k = h
if-Keeps n false x y h k = k

weaken : (c : ℕ) (o : Option Hub) → Keeps (suc c) o → Keeps 0 o
weaken c none k = tt
weaken c (some h) k = (k.0, omega arith)

offer_to-Keeps :
    (n : ℕ) (closed : Bool) (c : ℕ) (text : String) (h : Hub)
    → Keeps n (some h)
    → Keeps n (offer_to closed c text h)
unfolding offer_to
offer_to-Keeps n true c text h k = tt
offer_to-Keeps n false c text h (k, le) = elim (Bool-cases (has_room c h)) [
  | inl room ↦ rw room (push-IsSound c text h k, le)
  | inr full ↦ rw full (drop_client-IsSound c h k, le)
]

offer_all-Keeps :
    (n : ℕ) (text : String) (cs : List ℕ) (h : Hub)
    → Keeps n (some h)
    → Keeps n (offer_all text cs h)
unfolding offer_all
offer_all-Keeps n text [] h k = k
offer_all-Keeps n text (c ∷ cs) h k =
    bind-Keeps n (offer text c h) (offer_all text cs)
      (offer_to-Keeps n (h.client_at c).send.closed c text h k)
      (λ h' k'. offer_all-Keeps n text cs h' k')

pump-IsSound : (c : ℕ) (h : Hub) → IsSound h → IsSound (pump c h)
unfolding pump
pump-IsSound c h k = write_send-IsSound c _ h refl k

send_to-Keeps :
    (n : ℕ) (closed stalls : Bool) (c : ℕ) (text : String) (h : Hub)
    → Keeps n (some h)
    → Keeps n (send_to closed stalls c text h)
unfolding send_to pump
send_to-Keeps n true stalls c text h k = tt
send_to-Keeps n false stalls c text h (k, le) = elim (Bool-cases (has_room c h)) [
  | inl room ↦ rw room (push-IsSound c text h k, le)
  | inr full ↦ elim (Bool-cases stalls) [
    | inl late ↦ rw (full, late) (drop_client-IsSound c h k, le)
    | inr pumped ↦ rw (full, pumped) (push-IsSound c text (pump c h) (pump-IsSound c h k), le)
  ]
]

close_client-Keeps :
    (n : ℕ) (closed : Bool) (c : ℕ) (h : Hub) → Keeps n (some h) → Keeps n (close_client closed c h)
unfolding close_client
close_client-Keeps n true c h k = tt
close_client-Keeps n false c h (k, le) =
    (remove_client_subscriptions-IsSound c (drop_client c h) (drop_client-IsSound c h k), le)

unfollow_all_next :
    (c : ℕ) (ss : List String) (h : Hub) → (unfollow_all c ss h).next_client ≡ h.next_client
unfolding unfollow_all
unfollow_all_next c [] h = refl
unfollow_all_next c (s ∷ ss) h = unfollow_all_next c ss _

module _ {D E : Type 0} (services : Services D E) where
  unfoldable pub step : Step E → Hub → Option Hub
  unfolding connect unregister broadcast_to_clients broadcast_market_updates handle_message
      broadcast_order_book_event pump
  step joins h = some (connect h)
  step ticks h = broadcast_market_updates services h
  step (leaves c) h = unregister c h
  step (pumps c) h = some (pump c h)
  step (broadcasts text) h = broadcast_to_clients text h
  step (asks c text stalls) h =
      if ltb c h.next_client then handle_message services text stalls c h else some h
  step (announces symbol event) h = broadcast_order_book_event services symbol event h

  unfoldable pub run : List (Step E) → Hub → Option Hub
  unfolding step
  run [] h = some h
  run (s ∷ ss) h = step s h >>= run ss

  send_text-Keeps :
      (n : ℕ) (t : Option String) (stalls : Bool) (c : ℕ) (h : Hub)
      → Keeps n (some h)
      → Keeps n (send_text services t stalls c h)
  send_text-Keeps n none stalls c h k = k
  send_text-Keeps n (some text) stalls c h k =
      send_to-Keeps n (h.client_at c).send.closed stalls c text h k

  send_message-Keeps :
      (n : ℕ) (m : Message D E) (stalls : Bool) (c : ℕ) (h : Hub)
      → Keeps n (some h)
      → Keeps n (send_message services m stalls c h)
  unfolding send_message
  send_message-Keeps n m stalls c h k = send_text-Keeps n (services.marshal m) stalls c h k

  send_feed-Keeps :
      (n : ℕ) (o : Option D) (kind symbol id : String) (stalls : Bool) (c : ℕ) (h : Hub)
      → Keeps n (some h)
      → Keeps n (send_feed services o kind symbol id stalls c h)
  unfolding send_feed
  send_feed-Keeps n none kind symbol id stalls c h k = k
  send_feed-Keeps n (some a) kind symbol id stalls c h k = send_message-Keeps n _ stalls c h k

  follow_all-Keeps :
      (symbols : List String) (id : String) (stalls : Bool) (c : ℕ) (h : Hub)
      → Keeps (suc c) (some h)
      → Keeps (suc c) (follow_all services symbols id stalls c h)
  unfolding follow_all
  follow_all-Keeps [] id stalls c h k = k
  follow_all-Keeps (symbol ∷ symbols) id stalls c h (k, le) =
      bind-Keeps (suc c) _ _
        (send_feed-Keeps (suc c) (services.order_book symbol) "orderbook_snapshot" symbol id stalls
          c (follow c symbol h) (follow-IsSound c symbol h (omega arith) k, le))
        (λ h1 k1.
          bind-Keeps (suc c) _ _
            (send_feed-Keeps (suc c) (services.market_depth symbol) "market_depth" symbol id stalls
              c h1 k1)
            (λ h2 k2. follow_all-Keeps symbols id stalls c h2 k2))

  handle_kind-Keeps :
      (msg : SubscriptionMessage) (stalls : Bool) (c : ℕ) (h : Hub)
      → Keeps (suc c) (some h)
      → Keeps (suc c) (handle_kind services msg stalls c h)
  unfolding handle_kind handle_subscription handle_unsubscription send_error
  handle_kind-Keeps msg stalls c h (k, le) =
      if-Keeps (suc c) (str_eq msg.kind "subscribe") _ _
        (bind-Keeps (suc c) _ _ (follow_all-Keeps msg.symbols msg.id stalls c h (k, le))
          (λ h' k'. send_message-Keeps (suc c) _ stalls c h' k'))
        (if-Keeps (suc c) (str_eq msg.kind "unsubscribe") _ _
          (send_message-Keeps (suc c) _ stalls c (unfollow_all c msg.symbols h) (
            unfollow_all-IsSound c msg.symbols h k,
            omega (arith, unfollow_all_next c msg.symbols h),
          ))
          (if-Keeps (suc c) (str_eq msg.kind "ping") _ _
            (send_message-Keeps (suc c) _ stalls c h (k, le))
            (send_message-Keeps (suc c) _ stalls c h (k, le))))

  handle_parsed-Keeps :
      (m : Option SubscriptionMessage) (stalls : Bool) (c : ℕ) (h : Hub)
      → Keeps (suc c) (some h)
      → Keeps (suc c) (handle_parsed services m stalls c h)
  unfolding handle_parsed send_error
  handle_parsed-Keeps none stalls c h k = send_message-Keeps (suc c) _ stalls c h k
  handle_parsed-Keeps (some msg) stalls c h k = handle_kind-Keeps msg stalls c h k

  offer_text-Keeps :
      (n : ℕ) (t : Option String) (cs : List ℕ) (h : Hub)
      → Keeps n (some h)
      → Keeps n (offer_text services t cs h)
  unfolding offer_text
  offer_text-Keeps n none cs h k = k
  offer_text-Keeps n (some text) cs h k = offer_all-Keeps n text cs h k

  update_depth-Keeps :
      (n : ℕ) (o : Option D) (symbol : String) (cs : List ℕ) (h : Hub)
      → Keeps n (some h)
      → Keeps n (update_depth services o symbol cs h)
  unfolding update_depth
  update_depth-Keeps n none symbol cs h k = k
  update_depth-Keeps n (some a) symbol cs h k = offer_text-Keeps n _ cs h k

  update_written-Keeps :
      (n : ℕ) (t : Option String) (symbol : String) (cs : List ℕ) (h : Hub)
      → Keeps n (some h)
      → Keeps n (update_written services t symbol cs h)
  unfolding update_written
  update_written-Keeps n none symbol cs h k = k
  update_written-Keeps n (some text) symbol cs h k =
      bind-Keeps n (offer_all text cs h) _ (offer_all-Keeps n text cs h k)
        (λ h' k'. update_depth-Keeps n (services.market_depth symbol) symbol cs h' k')

  update_symbol-Keeps :
      (n : ℕ) (o : Option D) (symbol : String) (cs : List ℕ) (h : Hub)
      → Keeps n (some h)
      → Keeps n (update_symbol services o symbol cs h)
  unfolding update_symbol
  update_symbol-Keeps n none symbol cs h k =
      update_depth-Keeps n (services.market_depth symbol) symbol cs h k
  update_symbol-Keeps n (some a) symbol cs h k = update_written-Keeps n _ symbol cs h k

  update_each-Keeps :
      (n : ℕ) (subs : Subscribers) (h : Hub)
      → Keeps n (some h)
      → Keeps n (update_each services subs h)
  unfolding update_each
  update_each-Keeps n [] h k = k
  update_each-Keeps n ((symbol, cs) ∷ rest) h k =
      bind-Keeps n _ _ (update_symbol-Keeps n (services.order_book symbol) symbol cs h k)
        (λ h' k'. update_each-Keeps n rest h' k')

  step-Keeps : (s : Step E) (h : Hub) → IsSound h → Keeps 0 (step s h)
  unfolding step unregister broadcast_to_clients broadcast_market_updates handle_message
      broadcast_order_book_event
  step-Keeps joins h k = (connect-IsSound h k, omega arith)
  step-Keeps ticks h k = update_each-Keeps 0 h.subscriptions h (k, omega arith)
  step-Keeps (leaves c) h k =
      if-Keeps 0 (has c h.clients) _ _
        (close_client-Keeps 0 (h.client_at c).send.closed c h (k, omega arith)) (k, omega arith)
  step-Keeps (pumps c) h k = (pump-IsSound c h k, omega arith)
  step-Keeps (broadcasts text) h k = offer_all-Keeps 0 text h.clients h (k, omega arith)
  step-Keeps (asks c text stalls) h k = elim (Bool-cases (ltb c h.next_client)) [
    | inl known ↦ rw known (
        weaken c _
          (handle_parsed-Keeps (services.unmarshal text) stalls c h (k, ground (arith, known))))
    | inr unknown ↦ rw unknown (k, omega arith)
  ]
  step-Keeps (announces symbol event) h k =
      offer_text-Keeps 0 _ (subscribers symbol h.subscriptions) h (k, omega arith)

  run-Keeps : (ss : List (Step E)) (h : Hub) → IsSound h → Keeps 0 (run ss h)
  unfolding run
  run-Keeps [] h k = (k, omega arith)
  run-Keeps (s ∷ ss) h k =
      bind-Keeps 0 (step s h) (run ss) (step-Keeps s h k) (λ h' k'. run-Keeps ss h' k'.0)

  -- Whatever connects, asks, leaves and is sent, in any order and until there is a panic: the hub has
  -- a client under a symbol only if the client has the symbol, and the channels of the clients that
  -- are registered, which all differ, are open.
  pub run-new_IsSound : (steps : List (Step E)) (h : Hub) → run steps new_hub ≡ some h → IsSound h
  run-new_IsSound steps h e = (subst (Keeps 0) e (run-Keeps steps new_hub new_hub-IsSound)).0
