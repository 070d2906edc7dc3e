-- ===== src/Hub/Examples.antt =====
-- Tests of the hub of internal/websocket/hub.go, and its theorems at concrete inputs.
use text.Mathlib.Text.{◌==◌ as str_eq}
use quant_finance_pipeline.Prelude.{
  ℕ, ◌≡◌, refl, inl, inr, String, true, false, List, [], ◌∷◌, none, some, get_or, arith, replicate,
  length-replicate, Bool-cases,
}
use quant_finance_pipeline.Hub.{
  Hub, new_hub, connect, offer_to, offer_all, unregister, broadcast_to_clients, has_room,
}
use quant_finance_pipeline.Hub.Messages.{
  Services, send_message, send_to, follow_all, handle_message, handle_parsed, handle_kind,
  handle_subscription, send_feed, broadcast_order_book_event,
}
use quant_finance_pipeline.Hub.Sound.{IsSound}
use quant_finance_pipeline.Hub.Runs.{Step, joins, asks, broadcasts, step, run, run-new_IsSound}
use quant_finance_pipeline.Hub.Delivery.{
  Delivered, broadcast_to_clients-Delivered, slow_client_panics,
}
use quant_finance_pipeline.Hub.Leaving.{Left, unregister-Left}

-- Messages are written as their kind, and every text is a subscription to one symbol.
abbrev plain : Services ℕ ℕ
plain = record {
  marshal = λ m. some m.kind;
  unmarshal = λ text. some (record { kind = text; symbols = "BTC" ∷ []; feeds = []; id = "" });
  order_book = λ symbol. some 1;
  market_depth = λ symbol. none;
}

abbrev steps : List (Step ℕ)
steps = joins ∷ asks 0 "subscribe" false ∷ broadcasts "news" ∷ []

abbrev one_client : Hub
one_client = get_or (run plain steps new_hub) new_hub

queue_after :
    (one_client.client_at 0).send.queue
    ≡ "orderbook_snapshot" ∷ "subscription_confirmed" ∷ "news" ∷ []
unfolding run step new_hub connect handle_message handle_parsed handle_kind handle_subscription
    follow_all send_feed send_message send_to broadcast_to_clients offer_all offer_to
queue_after = refl

no_panic : run plain steps new_hub ≡ some one_client
unfolding run step new_hub connect handle_message handle_parsed handle_kind handle_subscription
    follow_all send_feed send_message send_to broadcast_to_clients offer_all offer_to
no_panic = refl

run-new_IsSound_example : IsSound one_client
run-new_IsSound_example = run-new_IsSound plain steps one_client no_panic

-- A client whose queue is full.
abbrev slow : Hub
slow = record {
  clients = 0 ∷ [];
  subscriptions = ("BTC", 0 ∷ []) ∷ [];
  client_at = λ c. record {
    send = record { queue = replicate 256 "m"; closed = false };
    subscriptions = ("BTC", true) ∷ [];
  };
  next_client = 1;
}

slow-IsSound : IsSound slow
slow-IsSound = record {
  linked = λ s c m. elim (Bool-cases (str_eq "BTC" s)) [
    | inl here ↦ (rw here refl, ground (arith, here))
    | inr away ↦ absurd (ground (arith, away))
  ];
  channels = λ c m. (refl, ground arith);
  distinct = (refl, tt);
}

no_room : has_room 0 slow ≡ false
no_room = let m : String = "m" in ground (arith, length-replicate 256 m)

broadcast_to_clients-Delivered_example :
    (h : Hub) × (broadcast_to_clients "news" slow ≡ some h) × Delivered (0 ∷ []) "news" slow h
broadcast_to_clients-Delivered_example = broadcast_to_clients-Delivered "news" slow slow-IsSound

slow_client_panics_example :
    (h : Hub) × (broadcast_to_clients "news" slow ≡ some h)
    × (broadcast_order_book_event plain "BTC" 7 h ≡ none)
slow_client_panics_example =
    slow_client_panics plain 0 "news" "orderbook_event" "BTC" 7 slow slow-IsSound refl no_room refl
      refl

unregister-Left_example : (h : Hub) × (unregister 0 slow ≡ some h) × Left 0 slow h
unregister-Left_example = unregister-Left 0 slow slow-IsSound refl
