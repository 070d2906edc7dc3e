-- ===== src/Hub/Sound.antt =====
-- What holds of the hub of internal/websocket/hub.go at any time, and the writes that keep it so.
use text.Mathlib.Text.{◌==◌ as str_eq}
use quant_finance_pipeline.Prelude.{
  ℕ, ◌<◌, ◌≡◌, ◌≢◌, refl, sym, ap, ◌∙◌, inl, inr, String, Bool, true, false, List, [], ◌∷◌, Option,
  none, some, ◌==◌, if◌then◌else◌, arith, Bool-cases,
}
use quant_finance_pipeline.Prelude.Dict.{lookup}
use quant_finance_pipeline.Hub.Sets.{
  has, discard, has-add, has-discard, Subscribers, subscribers, drop_from, add_to,
  subscribers-drop_from, subscribers-add_to,
}
use quant_finance_pipeline.Hub.{Channel, Client, Hub, write_client, write_send, push, drop_client}

abbrev pub is_set : Option Bool → Bool
is_set none = false
is_set (some b) = b

-- Whether a client has the symbol, and whether the hub has the client under the symbol.
abbrev pub follows : String → List (String × Bool) → Bool
follows symbol subscriptions = is_set (lookup symbol subscriptions)

abbrev pub subscribed : String → ℕ → Subscribers → Bool
subscribed symbol c subs = has c (subscribers symbol subs)

abbrev pub Distinct : List ℕ → Type 0
Distinct [] = Unit
Distinct (c ∷ cs) = (has c cs ≡ false) × Distinct cs

pub Distinct-discard : (c : ℕ) (cs : List ℕ) → Distinct cs → Distinct (discard c cs)
Distinct-discard c [] k = tt
Distinct-discard c (d ∷ ds) k = elim (Bool-cases (d == c)) [
  | inl same ↦ rw same (Distinct-discard c ds k.1)
  | inr other ↦ rw other (ground (arith, has-discard c d ds), Distinct-discard c ds k.1)
]

-- The hub has a client under a symbol only if the client has the symbol, and the
-- clients that are registered, which all differ, have open channels.
pub record IsSound (h : Hub) : Type 0 where
  pub linked :
      (s : String) (c : ℕ)
      → subscribed s c h.subscriptions ≡ true
      → (follows s (h.client_at c).subscriptions ≡ true) × (c < h.next_client)
  pub channels :
      (c : ℕ) → has c h.clients ≡ true → ((h.client_at c).send.closed ≡ false) × (c < h.next_client)
  pub distinct : Distinct h.clients

pub subscribed-drop_from :
    (s j : String) (c d : ℕ) (subs : Subscribers)
    → subscribed j d (drop_from s c subs) ≡ (
        if str_eq s j then (if c == d then false else subscribed j d subs) else subscribed j d subs)
subscribed-drop_from s j c d subs = elim (Bool-cases (str_eq s j)) [
  | inl e ↦
      ap (has d) (subscribers-drop_from s j c subs) ∙ rw e (has-discard c d (subscribers j subs))
  | inr e ↦ ap (has d) (subscribers-drop_from s j c subs) ∙ rw e refl
]

pub subscribed-add_to :
    (s j : String) (c d : ℕ) (subs : Subscribers)
    → subscribed j d (add_to s c subs)
      ≡ (if str_eq s j then (if c == d then true else subscribed j d subs) else subscribed j d subs)
subscribed-add_to s j c d subs = elim (Bool-cases (str_eq s j)) [
  | inl e ↦ ap (has d) (subscribers-add_to s j c subs) ∙ rw e (has-add c d (subscribers j subs))
  | inr e ↦ ap (has d) (subscribers-add_to s j c subs) ∙ rw e refl
]

-- A write to one client leaves the others.
pub client_at-write :
    (c d : ℕ) (client : Client) (h : Hub)
    → c ≢ d
    → (write_client c client h).client_at d ≡ h.client_at d
client_at-write c d client h ne = ground arith

pub client_at-write_self :
    (c : ℕ) (client : Client) (h : Hub) → (write_client c client h).client_at c ≡ client
client_at-write_self c client h = ground arith

-- A client is written that keeps its subscriptions, and whose channel is open if it is to be registered.
module _ (c : ℕ) (send : Channel) (h : Hub) where
  subscriptions-write_send :
      (d : ℕ) → ((write_send c send h).client_at d).subscriptions ≡ (h.client_at d).subscriptions
  subscriptions-write_send d = elim (Bool-cases (d == c)) [
    | inl same ↦
        let e : d ≡ c = ground arith in rw same (ap (λ i. (h.client_at i).subscriptions) (sym e))
    | inr other ↦ rw other refl
  ]

  linked-write_send :
      IsSound h
      → (s : String) (d : ℕ) → subscribed s d h.subscriptions ≡ true
      → (follows s ((write_send c send h).client_at d).subscriptions ≡ true) × (d < h.next_client)
  linked-write_send k s d m =
      let (f, lt) = k.linked s d m in
      (ap (λ subs. follows s subs) (subscriptions-write_send d) ∙ f, lt)

  pub write_send-IsSound :
      send.closed ≡ (h.client_at c).send.closed → IsSound h → IsSound (write_send c send h)
  write_send-IsSound same k = record {
    linked = linked-write_send k;
    channels = λ d m.
        let (o, lt) = k.channels d m in
        elim (Bool-cases (d == c)) [
          | inl at ↦
              let e : d ≡ c = ground arith in
              (rw at (same ∙ ap (λ i. (h.client_at i).send.closed) (sym e) ∙ o), lt)
          | inr other ↦ (rw other o, lt)
        ];
    distinct = k.distinct;
  }

pub push-IsSound : (c : ℕ) (text : String) (h : Hub) → IsSound h → IsSound (push c text h)
push-IsSound c text h k = write_send-IsSound c _ h refl k

pub has-discarded :
    (c d : ℕ) (ds : List ℕ) → has d (discard c ds) ≡ true → (c ≢ d) × (has d ds ≡ true)
has-discarded c d ds m = ground (arith, has-discard c d ds)

pub drop_client-IsSound : (c : ℕ) (h : Hub) → IsSound h → IsSound (drop_client c h)
drop_client-IsSound c h k = record {
  linked = linked-write_send c (record { queue = (h.client_at c).send.queue; closed = true }) h k;
  channels = λ d m.
      let (ne, m') = has-discarded c d h.clients m in
      let (o, lt) = k.channels d m' in
      (ap (λ (q : Client). q.send.closed) (client_at-write c d _ h ne) ∙ o, lt);
  distinct = Distinct-discard c h.clients k.distinct;
}
