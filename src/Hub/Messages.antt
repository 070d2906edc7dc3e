-- ===== src/Hub/Messages.antt =====
-- internal/websocket/hub.go: what a client asks for, and what the hub sends of its own accord.
--
-- The order book service, JSON and the events are parameters. A blocking send to a full channel
-- either times out, or the pump takes the oldest message first; which of the two is an argument.
use text.Mathlib.Text.{◌==◌ as str_eq}
use quant_finance_pipeline.Prelude.{
  ℕ, String, Bool, true, false, List, [], ◌∷◌, Option, none, some, if◌then◌else◌, ◌>>=◌,
}
use quant_finance_pipeline.Prelude.Dict.{insert, erase}
use quant_finance_pipeline.Hub.Sets.{Subscribers, drop_from, add_to, subscribers}
use quant_finance_pipeline.Hub.{
  Hub, write_client, write_send, push, drop_client, has_room, offer_all,
}

-- The data of a message; `D` is what the order book service answers, and `E` an event.
pub data Payload (D E : Type 0) : Type 0 where
  no_data : Payload D E
  feed_data : D → Payload D E
  event_data : E → Payload D E
  confirmed : List String → List String → Payload D E
  dropped : List String → Payload D E

pub record Message (D E : Type 0) : Type 0 where
  pub kind : String
  pub symbol : String
  pub content : Payload D E
  pub error : String
  pub id : String

pub record SubscriptionMessage : Type 0 where
  pub kind : String
  pub symbols : List String
  pub feeds : List String
  pub id : String

-- What the hub calls: JSON both ways, and `GetOrderBook` and `GetMarketDepth` of the processor.
pub record Services (D E : Type 0) : Type 1 where
  pub marshal : Message D E → Option String
  pub unmarshal : String → Option SubscriptionMessage
  pub order_book : String → Option D
  pub market_depth : String → Option D

abbrev pub pump_one : List String → List String
pump_one [] = []
pump_one (m ∷ ms) = ms

-- The `select` of `sendMessage`: `stalls` says that no room is made before the time is up.
unfoldable pub send_to : Bool → Bool → ℕ → String → Hub → Option Hub
send_to true stalls c text h = none
send_to false stalls c text h = some (
    if has_room c h
    then push c text h
    else if stalls
    then drop_client c h
    else push c text (
        write_send c
          (record {
            queue = pump_one (h.client_at c).send.queue;
            closed = (h.client_at c).send.closed;
          })
          h))

-- A client's side of the subscription to a symbol, and the hub's.
abbrev pub follow : ℕ → String → Hub → Hub
follow c symbol h =
    record (write_client c
      (record (h.client_at c) { subscriptions = insert symbol true (h.client_at c).subscriptions })
      h) { subscriptions = add_to symbol c h.subscriptions }

abbrev pub unfollow : ℕ → String → Hub → Hub
unfollow c symbol h =
    record (write_client c
      (record (h.client_at c) { subscriptions = erase symbol (h.client_at c).subscriptions }) h) {
        subscriptions = drop_from symbol c h.subscriptions;
      }

unfoldable pub unfollow_all : ℕ → List String → Hub → Hub
unfollow_all c [] h = h
unfollow_all c (symbol ∷ symbols) h = unfollow_all c symbols (unfollow c symbol h)

module _ {D E : Type 0} (services : Services D E) where
  abbrev pub send_text : Option String → Bool → ℕ → Hub → Option Hub
  send_text none stalls c h = some h
  send_text (some text) stalls c h = send_to (h.client_at c).send.closed stalls c text h

  unfoldable pub send_message : Message D E → Bool → ℕ → Hub → Option Hub
  unfolding send_to
  send_message message stalls c h = send_text (services.marshal message) stalls c h

  unfoldable pub send_error : String → Bool → ℕ → Hub → Option Hub
  unfolding send_message
  send_error text =
      send_message
        (record { kind = "error"; symbol = ""; content = no_data; error = text; id = "" })

  abbrev pub feed_message : String → String → D → String → Message D E
  feed_message kind symbol answer id = record {
    kind = kind;
    symbol = symbol;
    content = feed_data answer;
    error = "";
    id = id;
  }

  unfoldable pub send_feed : Option D → String → String → String → Bool → ℕ → Hub → Option Hub
  unfolding send_message
  send_feed none kind symbol id stalls c h = some h
  send_feed (some answer) kind symbol id stalls c h =
      send_message (feed_message kind symbol answer id) stalls c h

  unfoldable pub follow_all : List String → String → Bool → ℕ → Hub → Option Hub
  unfolding send_feed
  follow_all [] id stalls c h = some h
  follow_all (symbol ∷ symbols) id stalls c h = do
    h1 ←
        send_feed (services.order_book symbol) "orderbook_snapshot" symbol id stalls c
          (follow c symbol h)
    h2 ← send_feed (services.market_depth symbol) "market_depth" symbol id stalls c h1
    follow_all symbols id stalls c h2

  unfoldable pub handle_subscription : SubscriptionMessage → Bool → ℕ → Hub → Option Hub
  unfolding follow_all
  handle_subscription msg stalls c h = do
    h' ← follow_all msg.symbols msg.id stalls c h
    send_message
        (record {
          kind = "subscription_confirmed";
          symbol = "";
          content = confirmed msg.symbols msg.feeds;
          error = "";
          id = msg.id;
        })
        stalls c h'

  unfoldable pub handle_unsubscription : SubscriptionMessage → Bool → ℕ → Hub → Option Hub
  unfolding unfollow_all send_message
  handle_unsubscription msg stalls c h =
      send_message
        (record {
          kind = "unsubscription_confirmed";
          symbol = "";
          content = dropped msg.symbols;
          error = "";
          id = msg.id;
        })
        stalls c (unfollow_all c msg.symbols h)

  unfoldable pub handle_kind : SubscriptionMessage → Bool → ℕ → Hub → Option Hub
  unfolding handle_subscription handle_unsubscription send_error
  handle_kind msg stalls c h =
      if str_eq msg.kind "subscribe"
      then handle_subscription msg stalls c h
      else if str_eq msg.kind "unsubscribe"
      then handle_unsubscription msg stalls c h
      else if str_eq msg.kind "ping"
      then send_message
          (record { kind = "pong"; symbol = ""; content = no_data; error = ""; id = msg.id }) stalls
          c h
      else send_error "Unknown message type" stalls c h

  unfoldable pub handle_parsed : Option SubscriptionMessage → Bool → ℕ → Hub → Option Hub
  unfolding handle_kind
  handle_parsed none stalls c h = send_error "Invalid message format" stalls c h
  handle_parsed (some msg) stalls c h = handle_kind msg stalls c h

  unfoldable pub handle_message : String → Bool → ℕ → Hub → Option Hub
  unfolding handle_parsed
  handle_message text stalls c h = handle_parsed (services.unmarshal text) stalls c h

  unfoldable pub offer_text : Option String → List ℕ → Hub → Option Hub
  unfolding offer_all
  offer_text none cs h = some h
  offer_text (some text) cs h = offer_all text cs h

  unfoldable pub update_depth : Option D → String → List ℕ → Hub → Option Hub
  unfolding offer_text
  update_depth none symbol cs h = some h
  update_depth (some answer) symbol cs h =
      offer_text (services.marshal (feed_message "market_depth_update" symbol answer "")) cs h

  -- Of a book that JSON refuses the depth is skipped too, by `continue`.
  unfoldable pub update_written : Option String → String → List ℕ → Hub → Option Hub
  unfolding update_depth
  update_written none symbol cs h = some h
  update_written (some text) symbol cs h =
      offer_all text cs h >>= update_depth (services.market_depth symbol) symbol cs

  unfoldable pub update_symbol : Option D → String → List ℕ → Hub → Option Hub
  unfolding update_written
  update_symbol none symbol cs h = update_depth (services.market_depth symbol) symbol cs h
  update_symbol (some answer) symbol cs h =
      update_written (services.marshal (feed_message "orderbook_update" symbol answer "")) symbol cs
        h

  unfoldable pub update_each : Subscribers → Hub → Option Hub
  unfolding update_symbol
  update_each [] h = some h
  update_each ((symbol, cs) ∷ rest) h =
      update_symbol (services.order_book symbol) symbol cs h >>= update_each rest

  -- The subscriptions are copied first.
  unfoldable pub broadcast_market_updates : Hub → Option Hub
  unfolding update_each
  broadcast_market_updates h = update_each h.subscriptions h

  abbrev pub event_message : String → E → Message D E
  event_message symbol event = record {
    kind = "orderbook_event";
    symbol = symbol;
    content = event_data event;
    error = "";
    id = "";
  }

  -- Without a set for the symbol nothing is sent, as to an empty set.
  unfoldable pub broadcast_order_book_event : String → E → Hub → Option Hub
  unfolding offer_text
  broadcast_order_book_event symbol event h =
      offer_text (services.marshal (event_message symbol event))
        (subscribers symbol h.subscriptions) h
