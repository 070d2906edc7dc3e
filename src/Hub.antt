-- ===== src/Hub.antt =====
-- internal/websocket/hub.go: the hub, its clients, and the subscriptions of clients to symbols.
--
-- Clients are pointers, which connections take in order. A goroutine's work on one message is one
-- step, and a map is walked in the order of its list. The pump that writes a client's queue to its
-- socket takes messages in a step of its own, or while a message waits for room. `none` is a panic: a
-- send on a closed channel, or a second close. The order book service and JSON are parameters.
pub mod Sets
pub mod Subscriptions
pub mod Messages
pub mod Sound
pub mod Runs
pub mod Delivery
pub mod Leaving
mod Examples
use quant_finance_pipeline.Prelude.{
  ℕ, suc, ◌+◌, String, Bool, true, false, List, [], ◌∷◌, ◌++◌, Option, none, some, ltb, ◌==◌,
  if◌then◌else◌, ◌>>=◌, length,
}
use quant_finance_pipeline.Hub.Sets.{has, add, discard, Subscribers, drop_from}

-- `send`, a channel with room for 256 messages.
pub record Channel : Type 0 where
  pub queue : List String
  pub closed : Bool

pub record Client : Type 0 where
  pub send : Channel
  pub subscriptions : List (String × Bool)

-- `next_client` is the number of connections so far.
pub record Hub : Type 0 where
  pub clients : List ℕ
  pub subscriptions : Subscribers
  pub client_at : ℕ → Client
  pub next_client : ℕ

unfoldable pub new_hub : Hub
new_hub = record {
  clients = [];
  subscriptions = [];
  client_at = λ c. record { send = record { queue = []; closed = false }; subscriptions = [] };
  next_client = 0;
}

abbrev pub write_client : ℕ → Client → Hub → Hub
write_client c client h = record h { client_at = λ d. if d == c then client else h.client_at d }

abbrev pub write_send : ℕ → Channel → Hub → Hub
write_send c send h = write_client c (record (h.client_at c) { send = send }) h

abbrev pub push : ℕ → String → Hub → Hub
push c message h =
    write_send c
      (record {
        queue = (h.client_at c).send.queue ++ message ∷ [];
        closed = (h.client_at c).send.closed;
      })
      h

-- `close(client.send)` and `delete(h.clients, client)`
abbrev pub drop_client : ℕ → Hub → Hub
drop_client c h =
    record (write_send c (record { queue = (h.client_at c).send.queue; closed = true }) h) {
      clients = discard c h.clients;
    }

abbrev pub has_room : ℕ → Hub → Bool
has_room c h = ltb (length (h.client_at c).send.queue) 256

-- The `select` with a `default` that every broadcast has.
unfoldable pub offer_to : Bool → ℕ → String → Hub → Option Hub
offer_to true c message h = none
offer_to false c message h = some (if has_room c h then push c message h else drop_client c h)

abbrev pub offer : String → ℕ → Hub → Option Hub
offer message c h = offer_to (h.client_at c).send.closed c message h

unfoldable pub offer_all : String → List ℕ → Hub → Option Hub
unfolding offer_to
offer_all message [] h = some h
offer_all message (c ∷ cs) h = offer message c h >>= offer_all message cs

unfoldable pub broadcast_to_clients : String → Hub → Option Hub
unfolding offer_all
broadcast_to_clients message h = offer_all message h.clients h

-- A connection: `HandleWebSocket`, and the case of `Run` that registers its client.
unfoldable pub connect : Hub → Hub
connect h =
    let client : Client = record {
      send = record { queue = []; closed = false };
      subscriptions = [];
    } in
    record (write_client h.next_client client h) {
      clients = add h.next_client h.clients;
      next_client = suc h.next_client;
    }

unfoldable pub drop_all : ℕ → List (String × Bool) → Subscribers → Subscribers
drop_all c [] subs = subs
drop_all c ((symbol, _) ∷ rest) subs = drop_all c rest (drop_from symbol c subs)

unfoldable pub remove_client_subscriptions : ℕ → Hub → Hub
unfolding drop_all
remove_client_subscriptions c h = record h {
  subscriptions = drop_all c (h.client_at c).subscriptions h.subscriptions;
}

unfoldable pub close_client : Bool → ℕ → Hub → Option Hub
unfolding remove_client_subscriptions
close_client true c h = none
close_client false c h = some (remove_client_subscriptions c (drop_client c h))

-- The case of `Run` that takes a client out.
unfoldable pub unregister : ℕ → Hub → Option Hub
unfolding close_client
unregister c h = if has c h.clients then close_client (h.client_at c).send.closed c h else some h
