-- ===== src/CostRouting/Charging.antt =====
-- What the hooks of the policy leave in the metadata of a request, and the charge of the reported
-- cost (costbasedmodelrouting.go: recordSelection, applyProviderRouting, chargeOnce, the two body
-- hooks of the response; budget.go: parseReportedCost, scaleCost).
use text.Mathlib.Text.{◌==◌ as str_eq}
use gateway_controllers.Prelude.{
  ℕ, zero, suc, String, Bool, true, false, not, ◌||◌, ltb, Option, none, some, List, [], ◌∷◌,
  length, get_elem?, if◌then◌else◌,
}
use gateway_controllers.Prelude.Int.{ℤ, pos, le_ℤ}
use gateway_controllers.Limiter.{Map, put, delete, max_int64}
use gateway_controllers.Value.{Value, bool, int, int64, float64, float32, string}
use gateway_controllers.Multi.{Limiter}
use gateway_controllers.CostRouting.{Target, Texts, CostOps, RouteBudget, Selection, charge}

abbrev pub metadata_selected_model : String
metadata_selected_model = "cost_based_model_routing.selected_model"

abbrev pub metadata_selected_provider : String
metadata_selected_provider = "cost_based_model_routing.selected_provider"

abbrev pub metadata_selected_tier : String
metadata_selected_tier = "cost_based_model_routing.selected_tier"

abbrev pub metadata_selected_route : String
metadata_selected_route = "cost_based_model_routing.selected_route"

abbrev pub metadata_track_primary_cost : String
metadata_track_primary_cost = "cost_based_model_routing.track_primary_cost"

abbrev pub metadata_budget_key : String
metadata_budget_key = "cost_based_model_routing.budget_key"

abbrev pub metadata_budget_index : String
metadata_budget_index = "cost_based_model_routing.budget_index"

abbrev pub metadata_cost_charged : String
metadata_cost_charged = "cost_based_model_routing.cost_charged"

abbrev pub metadata_provider_routing : String
metadata_provider_routing = "selected_provider"

abbrev pub metadata_llm_cost : String
metadata_llm_cost = "x-llm-cost"

abbrev pub metadata_llm_cost_status : String
metadata_llm_cost_status = "x-llm-cost-status"

-- recordSelection, as recordAndLogSelection calls it: a selection always has a budget, so its cost
-- is always tracked.
unfoldable pub record_selection : Selection → Map Value → Map Value
record_selection s m = put metadata_budget_index (int (pos s.budget_index)) (
    put metadata_budget_key (string s.budget_key) (
      put metadata_track_primary_cost (bool true) (
        put metadata_selected_route (string s.route_name) (
          put metadata_selected_tier (string s.tier) (
            put metadata_selected_provider (string s.target.provider)
              (put metadata_selected_model (string s.target.model) m))))))

-- applyProviderRouting: the upstream name that it sets, and the metadata.
unfoldable pub apply_provider_routing : Target → Map Value → Option String × Map Value
apply_provider_routing t m =
    if str_eq t.provider ""
    then (none, delete metadata_provider_routing m)
    else (some t.provider, put metadata_provider_routing (string t.provider) m)

-- `v, _ := x.(bool)` and the like: the zero value where the value is missing or of another type.
abbrev pub as_bool : Option Value → Bool
as_bool (some (bool b)) = b
as_bool _ = false

abbrev pub as_string : Option Value → String
as_string (some (string s)) = s
as_string _ = ""

-- A Go int that is an index of a list of this length.
abbrev pub as_index : ℕ → Option Value → Option ℕ
as_index n (some (int (pos i))) = if ltb i n then some i else none
as_index n _ = none

module _ (ops : CostOps) (texts : Texts) where
  abbrev pub usable : Option ℕ → Option ℕ
  usable none = none
  usable (some c) = if ops.is_nan c || (ops.is_inf c || ops.is_negative c) then none else some c

  -- The type switch of parseReportedCost.
  abbrev pub cost_value : Option Value → Option ℕ
  cost_value (some (string s)) = ops.parse_float (texts.trim_space s)
  cost_value (some (float64 c)) = some c
  cost_value (some (float32 c)) = some (ops.of_float32 c)
  cost_value (some (int n)) = some (ops.of_int n)
  cost_value (some (int64 n)) = some (ops.of_int n)
  cost_value _ = none

  -- parseReportedCost, without the status that it returns for the log.
  unfoldable pub parse_reported_cost : Map Value → Option ℕ
  parse_reported_cost m =
      if str_eq (as_string (m metadata_llm_cost_status)) "calculated"
      then usable (cost_value (m metadata_llm_cost))
      else none

  unfoldable pub scale_cost : ℕ → ℤ → Option ℤ
  scale_cost cost factor =
      if ops.is_nan cost || (ops.is_inf cost || ops.is_negative cost)
      then none
      else if ops.above_max (ops.scale cost factor)
      then some max_int64
      else some (ops.to_int64 (ops.scale cost factor))

  -- The units that chargeOnce charges; `none` where it returns before the charge.
  abbrev pub positive_units : Option ℤ → Option ℤ
  positive_units none = none
  positive_units (some n) = if le_ℤ n (pos 0) then none else some n

  unfoldable pub units_to_charge : ℤ → Map Value → Option ℤ
  units_to_charge factor m = elim (parse_reported_cost m) [
    | none ↦ none
    | some cost ↦ if ops.is_zero cost then none else positive_units (scale_cost cost factor)
  ]

-- xs[i] = x
unfoldable pub set_elem : {A : Type 0} → ℕ → A → List A → List A
set_elem i x [] = []
set_elem zero x (y ∷ ys) = x ∷ ys
set_elem (suc i) x (y ∷ ys) = y ∷ set_elem i x ys

module _ (L : Limiter) (ops : CostOps) (texts : Texts) (factor : ℤ) where
  open L use {State, Env}

  unfoldable pub charge_budget : Env → String → ℤ → RouteBudget State → RouteBudget State
  charge_budget env key n b = record b { store = (charge L env key n b.store).1 }

  abbrev charge_at :
      Env
      → String
      → Option ℤ
      → ℕ
      → Option (RouteBudget State)
      → List (RouteBudget State)
      → List (RouteBudget State)
  charge_at env key (some n) i (some b) bs = set_elem i (charge_budget env key n b) bs
  charge_at env key _ i _ bs = bs

  abbrev pay_index :
      Env → String → Option ℤ → Option ℕ → List (RouteBudget State) → List (RouteBudget State)
  pay_index env key units none bs = bs
  pay_index env key units (some i) bs = charge_at env key units i (get_elem? bs i) bs

  -- chargeOnce behind the claim: the budgets after it.
  unfoldable pub pay : Env → Map Value → List (RouteBudget State) → List (RouteBudget State)
  pay env m bs =
      let key = as_string (m metadata_budget_key) in
      if str_eq key ""
      then bs
      else pay_index env key (units_to_charge ops texts factor m)
          (as_index (length bs) (m metadata_budget_index)) bs

  -- chargeOnce: the metadata and the budgets after it. An error of the charge is only logged.
  unfoldable pub charge_once :
      Env → Map Value → List (RouteBudget State) → Map Value × List (RouteBudget State)
  charge_once env m bs =
      if as_bool (m metadata_cost_charged) || not (as_bool (m metadata_track_primary_cost))
      then (m, bs)
      else let claimed = put metadata_cost_charged (bool true) m in (claimed, pay env claimed bs)

  -- OnResponseBodyChunk, for a chunk that is there and may be the last one, and OnResponseBody.
  unfoldable pub on_response_body_chunk :
      Env → Bool → Map Value → List (RouteBudget State) → Map Value × List (RouteBudget State)
  on_response_body_chunk env last m bs = if last then charge_once env m bs else (m, bs)

  unfoldable pub on_response_body :
      Env → Map Value → List (RouteBudget State) → Map Value × List (RouteBudget State)
  on_response_body env m bs = charge_once env m bs
