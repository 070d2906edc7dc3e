-- ===== src/Hub/Sets.antt =====
-- The maps of internal/websocket/hub.go that stand for sets, and the sets of clients by symbol.
use text.Mathlib.Text.{◌==◌ as str_eq}
use text.Mathlib.TextEquality.{eq_iff}
use quant_finance_pipeline.Prelude.{
  ℕ, ◌≡◌, ◌∙◌, inl, inr, String, Bool, true, false, List, [], ◌∷◌, Option, none, some, ◌==◌,
  if◌then◌else◌, arith, Option-cases,
}
use quant_finance_pipeline.Prelude.Dict.{lookup, insert, erase, lookup-insert, lookup-erase}

abbrev pub has : ℕ → List ℕ → Bool
has c [] = false
has c (d ∷ ds) = if d == c then true else has c ds

abbrev pub discard : ℕ → List ℕ → List ℕ
discard c [] = []
discard c (d ∷ ds) = if d == c then discard c ds else d ∷ discard c ds

abbrev pub add : ℕ → List ℕ → List ℕ
add c ds = c ∷ discard c ds

pub has-discard :
    (c d : ℕ) (ds : List ℕ) → has d (discard c ds) ≡ (if c == d then false else has d ds)
has-discard c d [] = ground arith
has-discard c d (e ∷ ds) = ground (arith, has-discard c d ds)

pub has-add : (c d : ℕ) (ds : List ℕ) → has d (add c ds) ≡ (if c == d then true else has d ds)
has-add c d ds = ground (arith, has-discard c d ds)

-- The clients of each symbol.
abbrev pub Subscribers : Type 0
Subscribers = List (String × List ℕ)

abbrev pub set_of : Option (List ℕ) → List ℕ
set_of none = []
set_of (some cs) = cs

abbrev pub subscribers : String → Subscribers → List ℕ
subscribers symbol subs = set_of (lookup symbol subs)

-- A symbol without clients goes.
abbrev pub store_set : String → List ℕ → Subscribers → Subscribers
store_set symbol [] subs = erase symbol subs
store_set symbol (c ∷ cs) subs = insert symbol (c ∷ cs) subs

abbrev pub drop_found : Option (List ℕ) → String → ℕ → Subscribers → Subscribers
drop_found none symbol c subs = subs
drop_found (some cs) symbol c subs = store_set symbol (discard c cs) subs

abbrev pub drop_from : String → ℕ → Subscribers → Subscribers
drop_from symbol c subs = drop_found (lookup symbol subs) symbol c subs

abbrev pub add_to : String → ℕ → Subscribers → Subscribers
add_to symbol c subs = insert symbol (add c (subscribers symbol subs)) subs

subscribers-store_set :
    (s j : String) (cs : List ℕ) (subs : Subscribers)
    → subscribers j (store_set s cs subs) ≡ (if str_eq s j then cs else subscribers j subs)
subscribers-store_set s j [] subs = ground (arith, lookup-erase s j subs)
subscribers-store_set s j (c ∷ cs) subs = ground (arith, lookup-insert s j (c ∷ cs) subs)

pub subscribers-drop_from :
    (s j : String) (c : ℕ) (subs : Subscribers)
    → subscribers j (drop_from s c subs)
      ≡ (if str_eq s j then discard c (subscribers j subs) else subscribers j subs)
subscribers-drop_from s j c subs = elim (Option-cases (lookup s subs)) [
  | inl nothing ↦ rw nothing (ground (arith, eq_iff s j, nothing))
  | inr (cs, found) ↦
      rw found (subscribers-store_set s j (discard c cs) subs ∙ ground (arith, eq_iff s j, found))
]

pub subscribers-add_to :
    (s j : String) (c : ℕ) (subs : Subscribers)
    → subscribers j (add_to s c subs)
      ≡ (if str_eq s j then add c (subscribers j subs) else subscribers j subs)
subscribers-add_to s j c subs =
    ground (arith, eq_iff s j, lookup-insert s j (add c (subscribers s subs)) subs)
