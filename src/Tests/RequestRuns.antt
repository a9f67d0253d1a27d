-- ===== src/Tests/RequestRuns.antt =====
-- A request of the cost-based routing from its headers to the end of its response.
use text.Mathlib.Text.{◌==◌ as str_eq}
use gateway_controllers.Prelude.{
  ℕ, zero, suc, ◌≡◌, refl, sym, ap, Bool, String, true, false, Option, none, some, [], ◌∷◌,
  get_elem?, ◌==◌, if◌then◌else◌,
}
use gateway_controllers.Prelude.Int.{pos, ◌-ℤ◌, sub64, wrap64}
use gateway_controllers.Limiter.{Map, put}
use gateway_controllers.Value.{Value, string}
use gateway_controllers.FixedWindow.{MemoryLimiter, current_count, get_available}
use gateway_controllers.FixedWindow.Interface.{fixed_window}
use gateway_controllers.CostRouting.{
  RouteBudget, Selection, select_target, find_indices, note_route, is_pattern_model, try_requested,
  check_budget, judge, query, charge,
}
use gateway_controllers.CostRouting.Choice.{IsJustified}
use gateway_controllers.CostRouting.Charging.{
  record_selection, apply_provider_routing, on_response_body_chunk, units_to_charge,
  parse_reported_cost, scale_cost, metadata_llm_cost, metadata_llm_cost_status,
}
use gateway_controllers.CostRouting.Requests.{
  PathOps, RequestModelConfig, RequestHeaders, Changes, modify, no_changes, on_request_headers,
  route_selection, rewrite_model, requested_model_from_headers,
}
use gateway_controllers.CostRouting.Journey.{routed_request_is_charged}
use gateway_controllers.CostRouting.Spending.{memory-IsReady}
use gateway_controllers.Tests.BudgetRuns.{texts, small_ops, policy, clocks, no_metadata, listed}

abbrev paths : PathOps
paths = record {
  Uri = String;
  Query = String;
  Expression = String;
  parse_request_uri = λ s. some s;
  query = λ u. u;
  raw_query = λ u. u;
  parse_query = λ s. some s;
  query_get = λ name q. q;
  query_set = λ name v q. v;
  encode = λ q. q;
  with_query = λ q u. q;
  request_uri = λ u. u;
  split_query = λ s. (s, none);
  find_submatch_index = λ e s. [];
  slice = λ s i j. s;
  before = λ s i. s;
  from = λ s i. s;
}

abbrev by_header : RequestModelConfig String
by_header = record {
  location = "header";
  identifier = "x-model";
  path_expression = none;
  path_model_group = 0;
}

abbrev request : RequestHeaders
request = record { path = "/chat"; headers = some (λ name. "gpt" ∷ []) }

abbrev changes : Changes
changes = record no_changes { headers_to_set = some ("x-model", "gpt") }

abbrev metadata : Map Value
metadata = (apply_provider_routing listed.target (record_selection listed no_metadata)).1

request_is_routed :
    on_request_headers paths fixed_window texts clocks policy by_header request no_metadata
    ≡ (modify changes, metadata)
unfolding on_request_headers route_selection rewrite_model requested_model_from_headers
    select_target find_indices note_route is_pattern_model try_requested check_budget judge query
    get_available current_count sub64 ◌-ℤ◌ wrap64 apply_provider_routing record_selection
request_is_routed = refl

abbrev no_key : Option (RouteBudget MemoryLimiter) → Bool
no_key none = false
no_key (some b) = str_eq b.namespace ""

keys :
    (i : ℕ) (b : RouteBudget MemoryLimiter)
    → get_elem? policy.budgets i ≡ some b
    → str_eq b.namespace "" ≡ false
keys zero b e = ap no_key (sym e)
keys (suc zero) b e = ap no_key (sym e)
keys (suc (suc i)) b e = absurd (cc)

published_five :
    units_to_charge small_ops texts (pos 1) (
      put metadata_llm_cost
        (string "0.05")
        (put metadata_llm_cost_status (string "calculated") metadata))
    ≡ some (pos 5)
unfolding units_to_charge parse_reported_cost scale_cost apply_provider_routing record_selection
published_five = refl

routed_request_is_charged_example :
    (s : Selection) × IsJustified fixed_window texts clocks policy "gpt" s
    × (b : RouteBudget MemoryLimiter) × (get_elem? policy.budgets s.budget_index ≡ some b)
    × ((j : ℕ)
        → get_elem?
            (on_response_body_chunk fixed_window small_ops texts
              (pos 1)
              (clocks 1)
              true
              (put metadata_llm_cost
                (string "0.05")
                (put metadata_llm_cost_status (string "calculated") metadata))
              policy.budgets).1
            j
          ≡ (if s.budget_index == j
              then some (record b {
                store = (charge fixed_window (clocks 1) b.namespace (pos 5) b.store).1;
              })
              else get_elem? policy.budgets j))
unfolding requested_model_from_headers
routed_request_is_charged_example =
    routed_request_is_charged paths fixed_window texts clocks policy by_header request no_metadata
      metadata changes small_ops (string "calculated") (string "0.05") (clocks 1) (pos 5) refl
      request_is_routed refl (memory-IsReady texts clocks policy refl) keys published_five
