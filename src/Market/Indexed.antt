-- ===== src/Market/Indexed.antt =====
-- The derivatives by underlying of internal/market/data.go agree with the data at any time.
use text.Mathlib.Text.{◌==◌ as str_eq}
use text.Mathlib.TextEquality.{eq_iff}
use quant_finance_pipeline.Prelude.{
  ℕ, ◌≡◌, refl, sym, ap, ◌∙◌, inl, inr, String, Bool, true, false, List, [], ◌∷◌, Option, none,
  some, if◌then◌else◌, arith, Bool-cases,
}
use quant_finance_pipeline.Prelude.Dict.{lookup, erase, lookup-erase}
use quant_finance_pipeline.Models.Market.{DerivativeInfo, MarketData, deep_copy}
use quant_finance_pipeline.Market.{
  DataManager, new_data_manager, refresh, refresh_info, new_info, write_data, update_found,
  update_market_data, get_derivatives, unmap_info, is_old, remove_if_old, remove_each,
  remove_old_data,
}
use quant_finance_pipeline.Market.Texts.{contains, Unique}
use quant_finance_pipeline.Market.Derivatives.{
  is_under, contains-map_info, Unique-map_info, contains-unmap_info, Unique-unmap_info,
}
use quant_finance_pipeline.Market.Updates.{merged, update_found-lookup, unmap_info-data}

-- Whether data are those of a derivative of this underlying.
abbrev pub belongs : String → Option MarketData → Bool
belongs u none = false
belongs u (some md) = is_under u md.derivative_info

-- `GetDerivatives` lists exactly the symbols with data of a derivative of the underlying, each once.
pub record IsIndexed (m : DataManager) : Type 0 where
  pub listed :
      (u j : String) → contains j (get_derivatives u m) ≡ belongs u (lookup j m.market_data)
  pub unique : (u : String) → Unique (get_derivatives u m)

pub data Change : Type 0 where
  updates : MarketData → Change
  removes : ℕ → ℕ → Change

unfoldable pub change : Change → DataManager → DataManager
unfolding update_market_data remove_old_data
change (updates md) m = update_market_data md m
change (removes now max_age) m = remove_old_data now max_age m

unfoldable pub change_all : List Change → DataManager → DataManager
unfolding change
change_all [] m = m
change_all (c ∷ cs) m = change_all cs (change c m)

is_under-refresh :
    (u : String) (new old : Option DerivativeInfo)
    → is_under u (refresh_info new old)
      ≡ (if is_under u (new_info new old) then true else is_under u old)
is_under-refresh u none none = refl
is_under-refresh u none (some o) = refl
is_under-refresh u (some i) none = ground arith
is_under-refresh u (some i) (some o) = refl

-- The info that an update puts into the map, beside what the data had.
abbrev fresh_info : MarketData → Option MarketData → Option DerivativeInfo
fresh_info md none = md.derivative_info
fresh_info md (some old) = new_info md.derivative_info old.derivative_info

belongs-merged :
    (u : String) (md : MarketData) (o : Option MarketData)
    → belongs u (some (merged md o)) ≡ (if is_under u (fresh_info md o) then true else belongs u o)
belongs-merged u md none = ground arith
belongs-merged u md (some old) = is_under-refresh u md.derivative_info old.derivative_info

get_derivatives-write :
    (u s : String) (md : MarketData) (m : DataManager)
    → get_derivatives u (write_data s md m) ≡ get_derivatives u m
unfolding get_derivatives
get_derivatives-write u s md m = refl

if_same : (b x : Bool) → (if b then x else x) ≡ x
if_same true x = refl
if_same false x = refl

if_not : (b : Bool) → (if b then false else b) ≡ false
if_not true = refl
if_not false = refl

abbrev without_data : String → DataManager → DataManager
without_data s m = record m { market_data = erase s m.market_data }

derivatives_without :
    (s u j : String) (m : DataManager)
    → contains j (get_derivatives u (without_data s m)) ≡ contains j (get_derivatives u m)
unfolding get_derivatives
derivatives_without s u j m = refl

Unique-without :
    (s u : String) (m : DataManager) → IsIndexed m → Unique (get_derivatives u (without_data s m))
unfolding get_derivatives
Unique-without s u m k = k.unique u

update_found-contains :
    (o : Option MarketData) (md : MarketData) (u j : String) (m : DataManager)
    → contains j (get_derivatives u (update_found o md m)) ≡ (
        if is_under u (fresh_info md o)
        then (if str_eq md.symbol j then true else contains j (get_derivatives u m))
        else contains j (get_derivatives u m))
unfolding update_found get_derivatives
update_found-contains none md u j m =
    contains-map_info md.derivative_info md.symbol u j (write_data md.symbol (deep_copy md) m)
update_found-contains (some old) md u j m =
    contains-map_info (new_info md.derivative_info old.derivative_info) md.symbol u j
      (write_data md.symbol (refresh md old) m)

update_found-Unique :
    (o : Option MarketData) (md : MarketData) (u : String) (m : DataManager)
    → ((x : String) → Unique (get_derivatives x m))
    → Unique (get_derivatives u (update_found o md m))
unfolding update_found get_derivatives
update_found-Unique none md u m k =
    Unique-map_info md.derivative_info md.symbol u (write_data md.symbol (deep_copy md) m) k
update_found-Unique (some old) md u m k =
    Unique-map_info (new_info md.derivative_info old.derivative_info) md.symbol u
      (write_data md.symbol (refresh md old) m) k

update-IsIndexed :
    (md : MarketData) (m : DataManager) → IsIndexed m → IsIndexed (update_market_data md m)
unfolding update_market_data
update-IsIndexed md m k = record {
  listed = λ u j.
      let stored = update_found-lookup (lookup md.symbol m.market_data) md j m in
      let after : str_eq md.symbol j ≡ true
          → lookup j (update_found (lookup md.symbol m.market_data) md m).market_data
            ≡ some (merged md (lookup md.symbol m.market_data)) =
        λ same.
          stored
          ∙ ap
              (λ b.
                if b
                then some (merged md (lookup md.symbol m.market_data))
                else lookup j m.market_data)
              same in
      let kept : str_eq md.symbol j ≡ false
          → lookup j (update_found (lookup md.symbol m.market_data) md m).market_data
            ≡ lookup j m.market_data =
        λ other.
          stored
          ∙ ap
              (λ b.
                if b
                then some (merged md (lookup md.symbol m.market_data))
                else lookup j m.market_data)
              other in
      update_found-contains (lookup md.symbol m.market_data) md u j m
      ∙ elim (Bool-cases (str_eq md.symbol j)) [
        | inl same ↦
            let e : md.symbol ≡ j = ground (arith, eq_iff md.symbol j, same) in
            let at = k.listed u j ∙ ap (λ x. belongs u (lookup x m.market_data)) (sym e) in
            rw (same, at)
              (sym (
                ap (belongs u) (after same) ∙ belongs-merged u md (lookup md.symbol m.market_data)))
        | inr other ↦ rw other (
            if_same (is_under u (fresh_info md (lookup md.symbol m.market_data)))
              (contains j (get_derivatives u m))
            ∙ k.listed u j
            ∙ ap (belongs u) (sym (kept other)))
      ];
  unique = λ u. update_found-Unique (lookup md.symbol m.market_data) md u m k.unique;
}

-- Data go, and the derivative with them.
taken_out-IsIndexed :
    (s : String) (md : MarketData) (m : DataManager)
    → lookup s m.market_data ≡ some md
    → IsIndexed m
    → IsIndexed (unmap_info md.derivative_info s (without_data s m))
taken_out-IsIndexed s md m e k = record {
  listed = λ u j.
      let gone : lookup j (unmap_info md.derivative_info s (without_data s m)).market_data
          ≡ (if str_eq s j then none else lookup j m.market_data) =
        ap (lookup j) (unmap_info-data md.derivative_info s (without_data s m))
        ∙ lookup-erase s j m.market_data in
      contains-unmap_info md.derivative_info s u j (without_data s m) (Unique-without s u m k)
      ∙ elim (Bool-cases (str_eq s j)) [
        | inl same ↦
            let i : s ≡ j = ground (arith, eq_iff s j, same) in
            let at : contains j (get_derivatives u (without_data s m))
                ≡ is_under u md.derivative_info =
              derivatives_without s u j m
              ∙ k.listed u j
              ∙ ap (λ x. belongs u (lookup x m.market_data)) (sym i)
              ∙ ap (belongs u) e in
            rw (same, at)
              (if_not (is_under u md.derivative_info)
                ∙ sym (
                    ap (belongs u)
                      (gone ∙ ap (λ b. if b then none else lookup j m.market_data) same)))
        | inr other ↦ rw other (
            if_same (is_under u md.derivative_info)
              (contains j (get_derivatives u (without_data s m)))
            ∙ derivatives_without s u j m
            ∙ k.listed u j
            ∙ sym (
                ap (belongs u) (gone ∙ ap (λ b. if b then none else lookup j m.market_data) other)))
      ];
  unique =
      λ u. Unique-unmap_info md.derivative_info s u (without_data s m) (Unique-without s u m k);
}

remove_if_old-IsIndexed :
    (now max_age : ℕ) (o : Option MarketData) (s : String) (m : DataManager)
    → lookup s m.market_data ≡ o
    → IsIndexed m
    → IsIndexed (remove_if_old now max_age o s m)
unfolding remove_if_old
remove_if_old-IsIndexed now max_age none s m e k = k
remove_if_old-IsIndexed now max_age (some md) s m e k = elim (Bool-cases (is_old now max_age md)) [
  | inr new ↦ rw new k
  | inl old ↦ rw old (taken_out-IsIndexed s md m e k)
]

remove_each-IsIndexed :
    (now max_age : ℕ) (keys : List (String × MarketData)) (m : DataManager)
    → IsIndexed m
    → IsIndexed (remove_each now max_age keys m)
unfolding remove_each
remove_each-IsIndexed now max_age [] m k = k
remove_each-IsIndexed now max_age ((s, _) ∷ rest) m k =
    remove_each-IsIndexed now max_age rest (remove_if_old now max_age (lookup s m.market_data) s m)
      (remove_if_old-IsIndexed now max_age (lookup s m.market_data) s m refl k)

change_all-IsIndexed :
    (cs : List Change) (m : DataManager) → IsIndexed m → IsIndexed (change_all cs m)
unfolding change_all change remove_old_data
change_all-IsIndexed [] m k = k
change_all-IsIndexed (updates md ∷ cs) m k =
    change_all-IsIndexed cs (update_market_data md m) (update-IsIndexed md m k)
change_all-IsIndexed (removes now max_age ∷ cs) m k =
    change_all-IsIndexed cs (remove_old_data now max_age m)
      (remove_each-IsIndexed now max_age m.market_data m k)

-- After any updates and removals of a new manager, GetDerivatives lists exactly the symbols that have
-- data whose info names the underlying, each once, and none for an empty name.
pub change_all-new_IsIndexed : (cs : List Change) → IsIndexed (change_all cs new_data_manager)
unfolding new_data_manager get_derivatives
change_all-new_IsIndexed cs =
    change_all-IsIndexed cs new_data_manager (record { listed = λ u j. refl; unique = λ u. tt })
