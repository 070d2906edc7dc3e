-- ===== src/Hub/Subscriptions.antt =====
-- Subscribing, unsubscribing, connecting and leaving keep the hub of internal/websocket/hub.go sound.
use text.Mathlib.Text.{◌==◌ as str_eq}
use quant_finance_pipeline.Prelude.{
  ℕ, ◌<◌, ◌≡◌, refl, sym, ap, ◌∙◌, inl, inr, String, Bool, true, false, List, [], ◌∷◌, ◌==◌,
  if◌then◌else◌, arith, Bool-cases, true-false,
}
use quant_finance_pipeline.Prelude.Dict.{insert, erase, lookup-insert, lookup-erase}
use quant_finance_pipeline.Hub.Sets.{has-add, has-discard, Subscribers, drop_from, add_to}
use quant_finance_pipeline.Hub.{
  Hub, new_hub, write_client, connect, drop_all, remove_client_subscriptions,
}
use quant_finance_pipeline.Hub.Messages.{follow, unfollow, unfollow_all}
use quant_finance_pipeline.Hub.Sound.{
  follows, subscribed, Distinct-discard, IsSound, subscribed-drop_from, subscribed-add_to,
}

-- A client is written with its channel as it was, and the hub's subscriptions with it.
rewritten-IsSound :
    (c : ℕ) (symbols : List (String × Bool)) (subs : Subscribers) (h : Hub)
    → ((s : String) (d : ℕ)
        → subscribed s d subs ≡ true
        → (follows s (if d == c then symbols else (h.client_at d).subscriptions) ≡ true)
          × (d < h.next_client))
    → IsSound h
    → IsSound (record (write_client c (record (h.client_at c) { subscriptions = symbols }) h) {
      subscriptions = subs;
    })
rewritten-IsSound c symbols subs h f k = record {
  linked = λ s d m. elim (Bool-cases (d == c)) [
    | inl same ↦ let (a, lt) = f s d m in rw same ((rw same at a), lt)
    | inr other ↦ let (a, lt) = f s d m in rw other ((rw other at a), lt)
  ];
  channels = λ d m.
      let (o, lt) = k.channels d m in
      elim (Bool-cases (d == c)) [
        | inl same ↦
            let e : d ≡ c = ground arith in
            (rw same (ap (λ i. (h.client_at i).send.closed) (sym e) ∙ o), lt)
        | inr other ↦ (rw other o, lt)
      ];
  distinct = k.distinct;
}

follows-insert :
    (s j : String) (symbols : List (String × Bool))
    → follows j (insert s true symbols) ≡ (if str_eq s j then true else follows j symbols)
follows-insert s j symbols = ground (arith, lookup-insert s j true symbols)

follows-erase :
    (s j : String) (symbols : List (String × Bool))
    → follows j (erase s symbols) ≡ (if str_eq s j then false else follows j symbols)
follows-erase s j symbols = ground (arith, lookup-erase s j symbols)

pub follow-IsSound :
    (c : ℕ) (s : String) (h : Hub) → c < h.next_client → IsSound h → IsSound (follow c s h)
follow-IsSound c s h lt k =
    rewritten-IsSound c (insert s true (h.client_at c).subscriptions) (add_to s c h.subscriptions) h
      (λ j d m. elim (Bool-cases (str_eq s j)) [
        | inl here ↦ elim (Bool-cases (d == c)) [
          | inl same ↦
              let e : d ≡ c = ground arith in
              (
                rw same (follows-insert s j (h.client_at c).subscriptions ∙ rw here refl),
                omega (arith, e),
              )
          | inr other ↦
              let ne : (c == d) ≡ false = ground arith in
              let (a, b) =
                k.linked j d
                  (sym (subscribed-add_to s j c d h.subscriptions ∙ rw (here, ne) refl) ∙ m) in
              (rw other a, b)
        ]
        | inr away ↦
            let (a, b) =
              k.linked j d (sym (subscribed-add_to s j c d h.subscriptions ∙ rw away refl) ∙ m) in
            (
              elim (Bool-cases (d == c)) [
                | inl same ↦
                    let e : d ≡ c = ground arith in
                    rw same (
                      follows-insert s j (h.client_at c).subscriptions
                      ∙ rw away (ap (λ i. follows j (h.client_at i).subscriptions) (sym e) ∙ a))
                | inr other ↦ rw other a
              ],
              b,
            )
      ])
      k

pub unfollow-IsSound : (c : ℕ) (s : String) (h : Hub) → IsSound h → IsSound (unfollow c s h)
unfollow-IsSound c s h k =
    rewritten-IsSound c (erase s (h.client_at c).subscriptions) (drop_from s c h.subscriptions) h
      (λ j d m. elim (Bool-cases (str_eq s j)) [
        | inl here ↦ elim (Bool-cases (d == c)) [
          | inl same ↦
              let eq : (c == d) ≡ true = ground arith in
              absurd
                (true-false m (subscribed-drop_from s j c d h.subscriptions ∙ rw (here, eq) refl))
          | inr other ↦
              let ne : (c == d) ≡ false = ground arith in
              let (a, b) =
                k.linked j d
                  (sym (subscribed-drop_from s j c d h.subscriptions ∙ rw (here, ne) refl) ∙ m) in
              (rw other a, b)
        ]
        | inr away ↦
            let (a, b) =
              k.linked j d
                (sym (subscribed-drop_from s j c d h.subscriptions ∙ rw away refl) ∙ m) in
            (
              elim (Bool-cases (d == c)) [
                | inl same ↦
                    let e : d ≡ c = ground arith in
                    rw same (
                      follows-erase s j (h.client_at c).subscriptions
                      ∙ rw away (ap (λ i. follows j (h.client_at i).subscriptions) (sym e) ∙ a))
                | inr other ↦ rw other a
              ],
              b,
            )
      ])
      k

pub unfollow_all-IsSound :
    (c : ℕ) (ss : List String) (h : Hub) → IsSound h → IsSound (unfollow_all c ss h)
unfolding unfollow_all
unfollow_all-IsSound c [] h k = k
unfollow_all-IsSound c (s ∷ ss) h k =
    unfollow_all-IsSound c ss (unfollow c s h) (unfollow-IsSound c s h k)

-- Dropping takes clients out only.
kept-drop_from :
    (s j : String) (c d : ℕ) (subs : Subscribers)
    → subscribed j d (drop_from s c subs) ≡ true
    → subscribed j d subs ≡ true
kept-drop_from s j c d subs m = ground (arith, subscribed-drop_from s j c d subs)

pub kept-drop_all :
    (c : ℕ) (symbols : List (String × Bool)) (subs : Subscribers) (j : String) (d : ℕ)
    → subscribed j d (drop_all c symbols subs) ≡ true
    → subscribed j d subs ≡ true
unfolding drop_all
kept-drop_all c [] subs j d m = m
kept-drop_all c ((s, b) ∷ symbols) subs j d m =
    kept-drop_from s j c d subs (kept-drop_all c symbols (drop_from s c subs) j d m)

pub remove_client_subscriptions-IsSound :
    (c : ℕ) (h : Hub) → IsSound h → IsSound (remove_client_subscriptions c h)
unfolding remove_client_subscriptions
remove_client_subscriptions-IsSound c h k = record {
  linked =
      λ s d m. k.linked s d (kept-drop_all c (h.client_at c).subscriptions h.subscriptions s d m);
  channels = k.channels;
  distinct = k.distinct;
}

pub connect-IsSound : (h : Hub) → IsSound h → IsSound (connect h)
unfolding connect
connect-IsSound h k = record {
  linked = λ s d m.
      let (a, lt) = k.linked s d m in
      let other : (d == h.next_client) ≡ false = ground arith in (rw other a, omega arith);
  channels = λ d m. elim (Bool-cases (d == h.next_client)) [
    | inl same ↦ (rw same refl, ground arith)
    | inr other ↦
        let ne : (h.next_client == d) ≡ false = ground arith in
        let (o, lt) = k.channels d (sym (has-add h.next_client d h.clients ∙ rw ne refl) ∙ m) in
        (rw other o, omega arith)
  ];
  distinct = (
    ground (arith, has-discard h.next_client h.next_client h.clients),
    Distinct-discard h.next_client h.clients k.distinct,
  );
}

pub new_hub-IsSound : IsSound new_hub
unfolding new_hub
new_hub-IsSound = record { linked = λ s c m. cc; channels = λ c m. cc; distinct = tt }
