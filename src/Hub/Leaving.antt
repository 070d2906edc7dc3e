-- ===== src/Hub/Leaving.antt =====
-- A client that leaves the hub of internal/websocket/hub.go, and what stays of it.
use text.Mathlib.Text.{◌==◌ as str_eq}
use quant_finance_pipeline.Prelude.{
  ℕ, ◌≡◌, refl, ap, ◌∙◌, ◌⊎◌, inl, inr, String, Bool, true, false, List, [], ◌∷◌, some, ◌==◌,
  if◌then◌else◌, arith, Bool-cases,
}
use quant_finance_pipeline.Hub.Sets.{has, has-discard, Subscribers, drop_from}
use quant_finance_pipeline.Hub.{
  Client, Hub, drop_client, drop_all, remove_client_subscriptions, close_client, unregister,
}
use quant_finance_pipeline.Hub.Sound.{
  follows, subscribed, IsSound, subscribed-drop_from, drop_client-IsSound, client_at-write,
  client_at-write_self,
}
use quant_finance_pipeline.Hub.Subscriptions.{remove_client_subscriptions-IsSound}

-- The client is nowhere in the hub, and its channel is closed.
pub record Left (c : ℕ) (h h' : Hub) : Type 0 where
  pub sound : IsSound h'
  pub unregistered : has c h'.clients ≡ false
  pub unsubscribed : (s : String) → subscribed s c h'.subscriptions ≡ false
  pub closed : (h'.client_at c).send.closed ≡ true
  pub others_registered : (d : ℕ) → (c == d) ≡ false → has d h'.clients ≡ has d h.clients
  pub others : (d : ℕ) → (c == d) ≡ false → h'.client_at d ≡ h.client_at d
  pub others_kept :
      (s : String) (d : ℕ)
      → (c == d) ≡ false
      → subscribed s d h'.subscriptions ≡ subscribed s d h.subscriptions

drop_all-gone :
    (c : ℕ) (symbols : List (String × Bool)) (subs : Subscribers) (s : String)
    → (follows s symbols ≡ true) ⊎ (subscribed s c subs ≡ false)
    → subscribed s c (drop_all c symbols subs) ≡ false
unfolding drop_all
drop_all-gone c [] subs s (inl f) = cc
drop_all-gone c [] subs s (inr n) = n
drop_all-gone c ((j, b) ∷ symbols) subs s k =
    drop_all-gone c symbols (drop_from j c subs) s (rest k)
  where
    here : subscribed s c (drop_from j c subs) ≡ (if str_eq j s then false else subscribed s c subs)
    here = subscribed-drop_from j s c c subs ∙ ground arith

    rest :
        (follows s ((j, b) ∷ symbols) ≡ true) ⊎ (subscribed s c subs ≡ false)
        → (follows s symbols ≡ true) ⊎ (subscribed s c (drop_from j c subs) ≡ false)
    rest (inl f) = elim (Bool-cases (str_eq j s)) [
      | inl same ↦ inr (here ∙ rw same refl)
      | inr other ↦ inl (ground (arith, other, f))
    ]
    rest (inr n) = inr (ground (arith, here, n))

drop_all-others :
    (c d : ℕ) (symbols : List (String × Bool)) (subs : Subscribers) (s : String)
    → (c == d) ≡ false
    → subscribed s d (drop_all c symbols subs) ≡ subscribed s d subs
unfolding drop_all
drop_all-others c d [] subs s ne = refl
drop_all-others c d ((j, b) ∷ symbols) subs s ne =
    drop_all-others c d symbols (drop_from j c subs) s ne
    ∙ subscribed-drop_from j s c d subs
    ∙ ground (arith, ne)

-- A registered client of a sound hub that leaves: there is no panic, the client is registered and
-- subscribed no more and its channel is closed, and every other client is as it was: its own state,
-- whether it is registered, and to which symbols it is subscribed.
pub unregister-Left :
    (c : ℕ) (h : Hub)
    → IsSound h
    → has c h.clients ≡ true
    → (h' : Hub) × (unregister c h ≡ some h') × Left c h h'
unfolding unregister close_client remove_client_subscriptions
unregister-Left c h k reg =
    let working = (k.channels c reg).0 in
    let h1 = drop_client c h in
    let subs : (h1.client_at c).subscriptions ≡ (h.client_at c).subscriptions =
      ap (λ (q : Client). q.subscriptions) (client_at-write_self c _ h) in
    (
      remove_client_subscriptions c h1,
      ap (λ b. if b then close_client (h.client_at c).send.closed c h else some h) reg
          ∙ ap (λ b. close_client b c h) working,
      record {
        sound = remove_client_subscriptions-IsSound c h1 (drop_client-IsSound c h k);
        unregistered = has-discard c c h.clients ∙ ground arith;
        unsubscribed = λ s.
            drop_all-gone c (h1.client_at c).subscriptions h.subscriptions s
              (elim (Bool-cases (subscribed s c h.subscriptions)) [
                | inl here ↦ inl (ap (λ l. follows s l) subs ∙ (k.linked s c here).0)
                | inr away ↦ inr away
              ]);
        closed = ap (λ (q : Client). q.send.closed) (client_at-write_self c _ h);
        others_registered = λ d ne. has-discard c d h.clients ∙ rw ne refl;
        others = λ d ne. client_at-write c d _ h (λ e. absurd (ground (arith, ne)));
        others_kept =
            λ s d ne. drop_all-others c d (h1.client_at c).subscriptions h.subscriptions s ne;
      },
    )
