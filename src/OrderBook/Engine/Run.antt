-- ===== src/OrderBook/Engine/Run.antt =====
-- Calls of the matching engine of internal/orderbook/engine.go, one after another.
use quant_finance_pipeline.Prelude.{
  ℕ, suc, ◌+◌, ◌<◌, ◌≡◌, refl, ap, subst, ◌∙◌, ◌⊎◌, inl, inr, String, Bool, true, false, List, [],
  ◌∷◌, Option, none, some, arith, length, ◌>>=◌, Option-cases, ◌==◌,
}
use text.Mathlib.TextEquality.{eq_iff}
use quant_finance_pipeline.Prelude.Dict.{lookup, erase, lookup-erase}
use quant_finance_pipeline.Models.Order.{Order, OrderSide, OrderStatus, canceled}
use quant_finance_pipeline.OrderBook.Level.{Orders}
use quant_finance_pipeline.OrderBook.Engine.{
  OrderEntry, MatchingEngine, new_matching_engine, new_red_black_tree, send_event, close,
  order_canceled, order_modified,
}
use quant_finance_pipeline.OrderBook.Engine.Operations.{
  Answer, executed, done, failed, not_found, write_order, add_order,
}
use quant_finance_pipeline.OrderBook.Engine.Cancellation.{
  cancel_at, cancel_entry, cancel_found, cancel_order, replacement, modified, add_replacement,
  modify_found, modify_order, get_order,
}
use quant_finance_pipeline.OrderBook.Engine.Invariant.{
  IsWell, All-lookup, IsOpen, fresh-IsOpen, later-IsOpen, send_event-Sent,
}
use quant_finance_pipeline.OrderBook.Engine.Unlinking.{cancel_at-IsWell}
use quant_finance_pipeline.OrderBook.Engine.Trades.{add_order-IsOpen}
use quant_finance_pipeline.OrderBook.Engine.Members.{All}

-- A call, with what its caller makes and what it reads of the clock and of `generateOrderID`.
pub data Call : Type 0 where
  adds : String → ℕ → Order → Call
  cancels : ℕ → String → Call
  modifies : ℕ → String → ℕ → ℕ → String → Call
  closes : Call

-- The calls other than `Close`.
unfoldable pub is_trading : Call → Bool
is_trading closes = false
is_trading (adds id now o) = true
is_trading (cancels now order_id) = true
is_trading (modifies now order_id price quantity id) = true

module _ (execution_id : ℕ → String) where
  -- The call of number `k` makes its order at the pointer `k`.
  unfoldable pub serve : ℕ → Call → MatchingEngine → Option (MatchingEngine × Answer)
  unfolding add_order cancel_order modify_order close
  serve k closes me = do me' ← close me; some (me', done)
  serve k (adds id now o) me = add_order execution_id now id k (write_order k (λ _. o) me)
  serve k (cancels now order_id) me = cancel_order now order_id me
  serve k (modifies now order_id price quantity id) me =
      modify_order execution_id now order_id price quantity id k me

  unfoldable pub serve_all : ℕ → List Call → MatchingEngine → Option MatchingEngine
  unfolding serve
  serve_all k [] me = some me
  serve_all k (call ∷ calls) me = do (me', answer) ← serve k call me; serve_all (suc k) calls me'

-- What a cancellation leaves: the identifier is gone, and the order at this pointer is canceled.
pub record Gone (n : ℕ) (id : String) (p : ℕ) (me me' : MatchingEngine) : Type 0 where
  pub live : IsOpen n me'
  pub index : me'.order_index ≡ erase id me.order_index
  pub status : (me'.orders p).status ≡ canceled

write_order_status :
    (p : ℕ) (s : OrderStatus) (now : ℕ) (me : MatchingEngine)
    → ((write_order p (λ o. record o { status = s; update_time = now }) me).orders p).status ≡ s
write_order_status p s now me = let same : (p == p) ≡ true = ground arith in rw same refl

pub as_indexed :
    (s : OrderSide) (entry : OrderEntry)
    → s ≡ entry.side
    → entry ≡ record { order = entry.order; side = s; level = entry.level; element = entry.element }
as_indexed s entry e = rw e refl

pub cancel_entry-Gone :
    (now n : ℕ) (id : String) (entry : OrderEntry) (me : MatchingEngine)
    → (me.orders entry.order).side ≡ entry.side
    → IsOpen n me
    → (me' : MatchingEngine) × (cancel_entry now id entry me ≡ some me')
      × Gone n id entry.order me me'
unfolding cancel_entry
cancel_entry-Gone now n id entry me s w =
    let side = (me.orders entry.order).side in
    let (me', e, w', c, i, h) =
      cancel_at-IsWell side now n id entry.order entry.level entry.element me w.well in
    let e' = ap (λ x. cancel_at now side id x me) (as_indexed side entry s) ∙ e in
    let x = order_canceled entry.order now in
    let (me2, e2, s2) =
      send_event-Sent n x me' (record { well = w'; still_open = c ∙ w.still_open }) in
    (
      me2,
      ap (λ o. o >>= (λ pruned. send_event x pruned)) e' ∙ e2,
      record {
        live = s2.live;
        index = s2.index ∙ i;
        status =
            ap (λ (h : Orders). (h entry.order).status) (s2.orders ∙ h)
            ∙ write_order_status entry.order canceled now me;
      },
    )

-- On a well-formed engine that is not closed CancelOrder fails without a change where the identifier is
-- not in the index, and else succeeds, whatever the order's status was, leaves a well-formed engine that
-- is not closed, takes the identifier out of the index and marks the order as canceled.
pub cancel_order-Answers :
    (now n : ℕ) (id : String) (me : MatchingEngine)
    → IsOpen n me
    → (r : MatchingEngine × Answer) × (cancel_order now id me ≡ some r)
      × IsOpen n r.0
      × (((lookup id me.order_index ≡ none) × (r ≡ (me, failed not_found)))
          ⊎ ((entry : OrderEntry) × (lookup id me.order_index ≡ some entry)
              × (r.1 ≡ done)
              × Gone n id entry.order me r.0))
unfolding cancel_order cancel_found
cancel_order-Answers now n id me w = elim (Option-cases (lookup id me.order_index)) [
  | inl nothing ↦ ((me, failed not_found), rw nothing refl, w, inl (nothing, refl))
  | inr (entry, found) ↦
      let (s, lt) =
        All-lookup (λ (x : OrderEntry). ((me.orders x.order).side ≡ x.side) × (x.order < n)) id
          me.order_index entry found w.well.indexed in
      let (me', e, g) = cancel_entry-Gone now n id entry me s w in
      ((me', done), rw (found, e) refl, g.live, inr (entry, found, refl, g))
]

modified-IsOpen :
    (now n p : ℕ) (r : MatchingEngine × Answer)
    → IsOpen n r.0
    → (r' : MatchingEngine × Answer) × (modified now p r ≡ some r') × IsOpen n r'.0
unfolding modified
modified-IsOpen now n p (me, executed xs) w =
    let (me', e, s) = send_event-Sent n (order_modified p now) me w in
    ((me', executed xs), rw e refl, s.live)
modified-IsOpen now n p (me, done) w = ((me, done), refl, w)
modified-IsOpen now n p (me, failed e) w = ((me, failed e), refl, w)

module _ (execution_id : ℕ → String) where
  add_replacement-IsOpen :
      (now : ℕ) (a : Answer) (original price quantity : ℕ) (id : String) (n : ℕ)
      (me : MatchingEngine)
      → IsOpen n me
      → (r : MatchingEngine × Answer) × (add_replacement execution_id now a original price quantity
            id n me
          ≡ some r)
        × IsOpen (suc n) r.0
  unfolding add_replacement
  add_replacement-IsOpen now (failed e) original price quantity id n me w =
      ((me, failed e), refl, later-IsOpen n me w)
  add_replacement-IsOpen now (executed xs) original price quantity id n me w =
      let o = replacement now id price quantity (me.orders original) in
      let (r, e, w') =
        add_order-IsOpen execution_id now id (suc n) n (write_order n (λ _. o) me) (omega arith)
          (fresh-IsOpen n o me w) in
      let (r2, e2, w2) = modified-IsOpen now (suc n) n r w' in (r2, rw (e, e2) refl, w2)
  add_replacement-IsOpen now done original price quantity id n me w =
      let o = replacement now id price quantity (me.orders original) in
      let (r, e, w') =
        add_order-IsOpen execution_id now id (suc n) n (write_order n (λ _. o) me) (omega arith)
          (fresh-IsOpen n o me w) in
      let (r2, e2, w2) = modified-IsOpen now (suc n) n r w' in (r2, rw (e, e2) refl, w2)

  modify_found-IsOpen :
      (now : ℕ) (found : Option OrderEntry) (order_id : String) (price quantity : ℕ) (id : String)
      (n : ℕ) (me : MatchingEngine)
      → IsOpen n me
      → (r : MatchingEngine × Answer) × (modify_found execution_id now found order_id price quantity
            id n me
          ≡ some r)
        × IsOpen (suc n) r.0
  unfolding modify_found
  modify_found-IsOpen now none order_id price quantity id n me w =
      ((me, failed not_found), refl, later-IsOpen n me w)
  modify_found-IsOpen now (some entry) order_id price quantity id n me w =
      let ((me', a), e, w', _) = cancel_order-Answers now n order_id me w in
      let (r, e', w2) = add_replacement-IsOpen now a entry.order price quantity id n me' w' in
      (r, rw e e', w2)

  pub modify_order-IsOpen :
      (now : ℕ) (order_id : String) (price quantity : ℕ) (id : String) (n : ℕ) (me : MatchingEngine)
      → IsOpen n me
      → (r : MatchingEngine × Answer) × (modify_order execution_id now order_id price quantity id n
            me
          ≡ some r)
        × IsOpen (suc n) r.0
  unfolding modify_order
  modify_order-IsOpen now order_id price quantity id n me w =
      modify_found-IsOpen now (lookup order_id me.order_index) order_id price quantity id n me w

  serve-IsOpen :
      (n : ℕ) (call : Call) (me : MatchingEngine)
      → is_trading call ≡ true
      → IsOpen n me
      → (r : MatchingEngine × Answer) × (serve execution_id n call me ≡ some r) × IsOpen (suc n) r.0
  unfolding serve modify_order is_trading
  serve-IsOpen n closes me t w = cc
  serve-IsOpen n (adds id now o) me t w =
      add_order-IsOpen execution_id now id (suc n) n (write_order n (λ _. o) me) (omega arith)
        (fresh-IsOpen n o me w)
  serve-IsOpen n (cancels now order_id) me t w =
      let (r, e, w', _) = cancel_order-Answers now n order_id me w in (r, e, later-IsOpen n r.0 w')
  serve-IsOpen n (modifies now order_id price quantity id) me t w =
      modify_order-IsOpen now order_id price quantity id n me w

  -- From a well-formed engine that is not closed every list of calls without a Close is served to its
  -- end, and the engine is well-formed and not closed again.
  pub serve_all-IsOpen :
      (n : ℕ) (calls : List Call) (me : MatchingEngine)
      → All (λ call. is_trading call ≡ true) calls
      → IsOpen n me
      → (me' : MatchingEngine) × (serve_all execution_id n calls me ≡ some me')
        × IsOpen (length calls + n) me'
  unfolding serve_all
  serve_all-IsOpen n [] me t w = (me, refl, subst (λ k. IsOpen k me) (omega arith) w)
  serve_all-IsOpen n (call ∷ calls) me (t, ts) w =
      let ((me1, answer), e, w1) = serve-IsOpen n call me t w in
      let (me2, e', w2) = serve_all-IsOpen (suc n) calls me1 ts w1 in
      (me2, rw e e', subst (λ k. IsOpen k me2) (omega arith) w2)

pub new_matching_engine-IsWell :
    (n : ℕ) (symbol : String) (orders : Orders) → IsWell n (new_matching_engine symbol orders)
unfolding new_matching_engine new_red_black_tree
new_matching_engine-IsWell n symbol orders = record {
  bids = record {
    kind = refl;
    search = record { sorted = tt; balanced = (tt, refl) };
    entries_ok = tt;
  };
  asks = record {
    kind = refl;
    search = record { sorted = tt; balanced = (tt, refl) };
    entries_ok = tt;
  };
  uncrossed = tt;
  indexed = tt;
}

pub new_matching_engine-IsOpen :
    (n : ℕ) (symbol : String) (orders : Orders) → IsOpen n (new_matching_engine symbol orders)
unfolding new_matching_engine
new_matching_engine-IsOpen n symbol orders = record {
  well = new_matching_engine-IsWell n symbol orders;
  still_open = refl;
}

-- Every list of calls of AddOrder, CancelOrder and ModifyOrder to a new engine, with no Close among
-- them, is served to its end: no call panics and no loop runs on. The channel is then not closed, the
-- two trees are balanced and sorted by price, each entry is of a level at its price that holds an
-- order, every bid is below every ask, and every entry of the index is of its order's side. A Close
-- behind them succeeds and closes the channel.
pub serve_all-new_IsOpen :
    (execution_id : ℕ → String) (calls : List Call) (symbol : String) (orders : Orders)
    → All (λ call. is_trading call ≡ true) calls
    → (me : MatchingEngine) × (serve_all execution_id 0 calls (new_matching_engine symbol orders)
        ≡ some me)
      × IsOpen (length calls) me
      × (close me ≡ some (record me { closed = true }))
unfolding close
serve_all-new_IsOpen execution_id calls symbol orders t =
    let (me, e, w) =
      serve_all-IsOpen execution_id 0 calls (new_matching_engine symbol orders) t
        (new_matching_engine-IsOpen 0 symbol orders) in
    (me, e, subst (λ k. IsOpen k me) (omega arith) w, rw w.still_open refl)

get_order-none :
    (id : String) (me : MatchingEngine) → lookup id me.order_index ≡ none → get_order id me ≡ none
unfolding get_order
get_order-none id me e = rw (e, get_order) refl

cancel_order-none :
    (now : ℕ) (id : String) (me : MatchingEngine)
    → lookup id me.order_index ≡ none
    → cancel_order now id me ≡ some (me, failed not_found)
unfolding cancel_order cancel_found
cancel_order-none now id me e = rw e refl

-- An identifier that has been canceled is not found, and a second cancellation of it fails and
-- changes nothing, if the first one was answered on a well-formed engine that is not closed.
pub cancel_order-once :
    (now n : ℕ) (id : String) (me : MatchingEngine)
    → IsOpen n me
    → (r : MatchingEngine × Answer) × (cancel_order now id me ≡ some r)
      × (get_order id r.0 ≡ none)
      × (cancel_order now id r.0 ≡ some (r.0, failed not_found))
cancel_order-once now n id me w =
    let (r, e, w', cases) = cancel_order-Answers now n id me w in
    let gone : lookup id r.0.order_index ≡ none = elim cases [
      | inl (nothing, same) ↦
          ap (λ (q : MatchingEngine × Answer). lookup id q.0.order_index) same ∙ nothing
      | inr (entry, _, _, g) ↦
          ap (lookup id) g.index ∙ lookup-erase id id me.order_index ∙ ground (arith, eq_iff id id)
    ] in
    (r, e, get_order-none id r.0 gone, cancel_order-none now id r.0 gone)
