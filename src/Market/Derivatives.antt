-- ===== src/Market/Derivatives.antt =====
-- The derivatives by underlying of internal/market/data.go, as its two writers change them.
use text.Mathlib.Text.{◌==◌ as str_eq}
use text.Mathlib.TextEquality.{eq_iff}
use quant_finance_pipeline.Prelude.{
  ◌≡◌, refl, sym, ap, subst, ◌∙◌, inl, inr, String, Bool, true, false, List, Option, none, some,
  if◌then◌else◌, arith, Bool-cases,
}
use quant_finance_pipeline.Prelude.Dict.{lookup, lookup-insert}
use quant_finance_pipeline.Models.Market.{DerivativeInfo}
use quant_finance_pipeline.Market.{
  DataManager, added, add_to_underlying_map, map_info, texts_of, get_derivatives, remove_found,
  remove_from_underlying_map, unmap_info,
}
use quant_finance_pipeline.Market.Texts.{
  contains, Unique, swap_remove, contains-swap_remove, Unique-swap_remove, contains-append,
  Unique-append,
}

-- Whether the info names this underlying.
abbrev pub is_under : String → Option DerivativeInfo → Bool
is_under u none = false
is_under u (some i) = if str_eq i.underlying_symbol "" then false else str_eq i.underlying_symbol u

contains-added :
    (o : Option (List String)) (d j : String)
    → contains j (added o d) ≡ (if str_eq d j then true else contains j (texts_of o))
contains-added none d j = refl
contains-added (some ds) d j = elim (Bool-cases (contains d ds)) [
  | inl there ↦ rw there (there_already d j ds there)
  | inr new ↦ rw new (contains-append j d ds)
]
  where
    there_already :
        (d j : String) (ds : List String)
        → contains d ds ≡ true
        → contains j ds ≡ (if str_eq d j then true else contains j ds)
    there_already d j ds h = elim (Bool-cases (str_eq d j)) [
      | inl same ↦
          let e : d ≡ j = ground (arith, eq_iff d j, same) in
          rw same (ap (λ x. contains x ds) (sym e) ∙ h)
      | inr other ↦ rw other refl
    ]

Unique-added : (o : Option (List String)) (d : String) → Unique (texts_of o) → Unique (added o d)
Unique-added none d k = (refl, tt)
Unique-added (some ds) d k = elim (Bool-cases (contains d ds)) [
  | inl there ↦ rw there k
  | inr new ↦ rw new (Unique-append d ds new k)
]

get_derivatives-add :
    (v u d : String) (m : DataManager)
    → get_derivatives u (add_to_underlying_map v d m)
      ≡ (if str_eq v u then added (lookup v m.underlying_map) d else get_derivatives u m)
unfolding get_derivatives add_to_underlying_map
get_derivatives-add v u d m =
    ap texts_of (lookup-insert v u (added (lookup v m.underlying_map) d) m.underlying_map)
    ∙ ground arith

same_key :
    (v u : String) (m : DataManager)
    → str_eq v u ≡ true
    → texts_of (lookup v m.underlying_map) ≡ get_derivatives u m
unfolding get_derivatives
same_key v u m same =
    ap (λ x. texts_of (lookup x m.underlying_map)) (ground (arith, eq_iff v u, same))

contains-add :
    (v u d j : String) (m : DataManager)
    → contains j (get_derivatives u (add_to_underlying_map v d m)) ≡ (
        if str_eq v u
        then (if str_eq d j then true else contains j (get_derivatives u m))
        else contains j (get_derivatives u m))
contains-add v u d j m = elim (Bool-cases (str_eq v u)) [
  | inl same ↦
      ap (contains j) (get_derivatives-add v u d m)
      ∙ rw same (
          contains-added (lookup v m.underlying_map) d j
          ∙ ap (λ ds. if str_eq d j then true else contains j ds) (same_key v u m same))
  | inr other ↦ ap (contains j) (get_derivatives-add v u d m) ∙ rw other refl
]

Unique-add :
    (v u d : String) (m : DataManager)
    → ((x : String) → Unique (get_derivatives x m))
    → Unique (get_derivatives u (add_to_underlying_map v d m))
Unique-add v u d m k = elim (Bool-cases (str_eq v u)) [
  | inl same ↦
      subst Unique (sym (get_derivatives-add v u d m ∙ rw same refl)) (
        Unique-added (lookup v m.underlying_map) d (subst Unique (sym (same_key v u m same)) (k u)))
  | inr other ↦ subst Unique (sym (get_derivatives-add v u d m ∙ rw other refl)) (k u)
]

get_derivatives-remove :
    (o : Option (List String)) (v u d : String) (m : DataManager)
    → lookup v m.underlying_map ≡ o
    → get_derivatives u (remove_found o v d m)
      ≡ (if str_eq v u then swap_remove d (get_derivatives u m) else get_derivatives u m)
unfolding get_derivatives remove_found
get_derivatives-remove none v u d m e = elim (Bool-cases (str_eq v u)) [
  | inl same ↦
      let n : lookup u m.underlying_map ≡ none =
        ap (λ x. lookup x m.underlying_map) (sym (ground (arith, eq_iff v u, same))) ∙ e in
      rw (same, n) refl
  | inr other ↦ rw other refl
]
get_derivatives-remove (some ds) v u d m e = elim (Bool-cases (str_eq v u)) [
  | inl same ↦
      let n : lookup u m.underlying_map ≡ some ds =
        ap (λ x. lookup x m.underlying_map) (sym (ground (arith, eq_iff v u, same))) ∙ e in
      ap texts_of (lookup-insert v u (swap_remove d ds) m.underlying_map) ∙ rw (same, n) refl
  | inr other ↦ ap texts_of (lookup-insert v u (swap_remove d ds) m.underlying_map) ∙ rw other refl
]

-- What the two writers make of the lists, for the derivative of an info.
pub contains-map_info :
    (o : Option DerivativeInfo) (s u j : String) (m : DataManager)
    → contains j (get_derivatives u (map_info o s m)) ≡ (
        if is_under u o
        then (if str_eq s j then true else contains j (get_derivatives u m))
        else contains j (get_derivatives u m))
unfolding map_info
contains-map_info none s u j m = refl
contains-map_info (some i) s u j m = elim (Bool-cases (str_eq i.underlying_symbol "")) [
  | inl unnamed ↦ rw unnamed refl
  | inr named ↦ rw named (contains-add i.underlying_symbol u s j m)
]

pub Unique-map_info :
    (o : Option DerivativeInfo) (s u : String) (m : DataManager)
    → ((x : String) → Unique (get_derivatives x m))
    → Unique (get_derivatives u (map_info o s m))
unfolding map_info
Unique-map_info none s u m k = k u
Unique-map_info (some i) s u m k = elim (Bool-cases (str_eq i.underlying_symbol "")) [
  | inl unnamed ↦ rw unnamed (k u)
  | inr named ↦ rw named (Unique-add i.underlying_symbol u s m k)
]

get_derivatives-unmap :
    (o : Option DerivativeInfo) (s u : String) (m : DataManager)
    → get_derivatives u (unmap_info o s m)
      ≡ (if is_under u o then swap_remove s (get_derivatives u m) else get_derivatives u m)
unfolding unmap_info remove_from_underlying_map
get_derivatives-unmap none s u m = refl
get_derivatives-unmap (some i) s u m = elim (Bool-cases (str_eq i.underlying_symbol "")) [
  | inl unnamed ↦ rw unnamed refl
  | inr named ↦ rw named (
      get_derivatives-remove (lookup i.underlying_symbol m.underlying_map) i.underlying_symbol u s m
        refl)
]

pub contains-unmap_info :
    (o : Option DerivativeInfo) (s u j : String) (m : DataManager)
    → Unique (get_derivatives u m)
    → contains j (get_derivatives u (unmap_info o s m)) ≡ (
        if is_under u o
        then (if str_eq s j then false else contains j (get_derivatives u m))
        else contains j (get_derivatives u m))
contains-unmap_info o s u j m k = elim (Bool-cases (is_under u o)) [
  | inl here ↦
      ap (contains j) (get_derivatives-unmap o s u m)
      ∙ rw here (contains-swap_remove s j (get_derivatives u m) k)
  | inr away ↦ ap (contains j) (get_derivatives-unmap o s u m) ∙ rw away refl
]

pub Unique-unmap_info :
    (o : Option DerivativeInfo) (s u : String) (m : DataManager)
    → Unique (get_derivatives u m)
    → Unique (get_derivatives u (unmap_info o s m))
Unique-unmap_info o s u m k = elim (Bool-cases (is_under u o)) [
  | inl here ↦
      subst Unique (sym (get_derivatives-unmap o s u m ∙ rw here refl))
        (Unique-swap_remove s (get_derivatives u m) k)
  | inr away ↦ subst Unique (sym (get_derivatives-unmap o s u m ∙ rw away refl)) k
]
