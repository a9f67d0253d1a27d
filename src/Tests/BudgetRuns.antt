-- ===== src/Tests/BudgetRuns.antt =====
-- The cost-based routing over memory limiters, at concrete inputs.
use text.Mathlib.Text.{◌==◌ as str_eq}
use text.Mathlib.TextEquality.{eq_iff}
use gateway_controllers.Prelude.{
  ℕ, ◌≡◌, ◌≢◌, refl, String, true, false, Option, none, some, List, [], ◌∷◌, ◌++◌, get_elem?, arith,
  ◌⊎◌,
}
use gateway_controllers.Prelude.Int.{ℤ, pos, ◌+ℤ◌, ◌-ℤ◌, sub64, wrap64}
use gateway_controllers.Limiter.{put as put_key, Clocks, Map, ok, second, max_int64, minute}
use gateway_controllers.Value.{Value, array, object, item, end, field, empty, bool, string, float64}
use gateway_controllers.FixedWindow.{MemoryLimiter, current_count, get_available, window_start}
use gateway_controllers.Limiter.{truncate}
use gateway_controllers.FixedWindow.Counts.{IsSane}
use gateway_controllers.FixedWindow.Interface.{fixed_window}
use gateway_controllers.CostRouting.{
  CostRoute, Policy, RouteBudget, Selection, available, exhausted, Texts, CostOps, select_target,
  query, charge, exhausted_response, selected, find_indices, note_route, check_budget,
  try_requested, try_wildcard, judge, is_pattern_model,
}
use gateway_controllers.CostRouting.Choice.{Explained}
use gateway_controllers.CostRouting.Explained.{select_target-Explained}
use gateway_controllers.CostRouting.Charging.{
  units_to_charge, parse_reported_cost, scale_cost, on_response_body_chunk, as_bool, pay,
  metadata_cost_charged, metadata_track_primary_cost, record_selection,
}
use gateway_controllers.CostRouting.Once.{
  reported, IsCharge, reported_cost_is_charged, charged_at_most_once, run, Event, chunk, body,
  other_policy,
}
use gateway_controllers.Prelude.Text.{has_text}
use gateway_controllers.CostRouting.Parsing.{
  ParseOps, parse_routes, parse_items, parse_route, assemble, route_name, route_target, parse_name,
  check_name, parse_target, parse_model, parse_provider, check_target, models_field, make_route,
  parse_budget_limits, parse_limit_items, parse_limit, parse_amount, parse_limit_duration,
  float_value, scale_dollars, parameter_name, is_wildcard_model,
}
use gateway_controllers.CostRouting.Unique.{IsParsed, parse_routes-IsParsed}
use gateway_controllers.CostRouting.Spending.{
  memory-IsReady, charged_budget_refuses, clamped_cost_frees_budget,
}

abbrev pub window_of : ℕ → MemoryLimiter
window_of n = record { data_of = λ k. none; policy = record { limit = pos n; duration = second } }

abbrev pub clocks : ℕ → Clocks
clocks i = record { now = pos 0; wall = pos 0 }

-- A pattern is a text that matches every model.
abbrev pub texts : Texts
texts = record {
  Pattern = String;
  match_string = λ p m. true;
  contains = λ s t. str_eq s t;
  trim_space = λ s. s;
}

-- A cost is a number of cents, and a cent is a unit.
abbrev pub ops : CostOps
ops = record {
  parse_float = λ s. some 5;
  of_int = λ n. 0;
  of_float32 = λ b. b;
  is_nan = λ c. false;
  is_inf = λ c. false;
  is_negative = λ c. false;
  is_zero = λ c. false;
  scale = λ c f. c;
  above_max = λ c. str_eq "a" "a";
  to_int64 = λ c. pos c;
}

abbrev pub small_ops : CostOps
small_ops = record ops { above_max = λ c. false }

-- The text of a pattern is not built, and a duration is a second.
abbrev pub parse : ParseOps String
parse = record {
  must_compile = λ s. "*";
  quote_meta = λ s. s;
  replace_all = λ s a b. s;
  rune_count = λ s. 0;
  quote = λ s. s;
  parse_duration = λ s. ok second;
}

abbrev pub named : String → Option String → CostRoute String
named m p = record {
  name = m;
  target = record { model = m; provider = "" };
  pattern = p;
  specificity = 0;
  budget_limits = record { amount = 3; duration = second; scaled = pos 3 } ∷ [];
}

abbrev pub budget_of : String → ℕ → RouteBudget MemoryLimiter
budget_of key n = record { store = window_of n; fail_open = true; namespace = key }

abbrev pub policy : Policy String MemoryLimiter
policy = record {
  config = record {
    routes = named "gpt" none ∷ named "*" (some "*") ∷ [];
    fallback = none;
    on_exhausted = "reject";
    cost_scale_factor = pos 1;
  };
  budgets = budget_of "cbr:gpt" 3 ∷ budget_of "cbr:any" 3 ∷ [];
}

select_target-Explained_example :
    Explained fixed_window texts clocks policy "gpt"
      (select_target fixed_window texts clocks policy "gpt")
select_target-Explained_example =
    select_target-Explained fixed_window texts clocks policy "gpt"
      (memory-IsReady texts clocks policy refl)

abbrev pub unlisted : Selection
unlisted = record {
  target = record { model = "mistral"; provider = "" };
  route_name = "*";
  tier = "wildcard";
  budget_index = 1;
  budget_key = "cbr:any";
  state = available;
  units = pos 3;
}

-- An unlisted model is served under its own name by the wildcard budget.
unlisted_is_selected : select_target fixed_window texts clocks policy "mistral" ≡ selected unlisted
unfolding select_target find_indices note_route is_pattern_model try_requested try_wildcard
    check_budget judge query get_available current_count sub64 ◌-ℤ◌ wrap64
unlisted_is_selected = refl

abbrev pub listed : Selection
listed = record unlisted {
  target = record { model = "gpt"; provider = "" };
  route_name = "gpt";
  tier = "gpt";
  budget_index = 0;
  budget_key = "cbr:gpt";
}

abbrev pub no_metadata : Map Value
no_metadata k = none

abbrev events : List (Event Clocks)
events =
    other_policy "x-llm-cost-status" (string "calculated")
    ∷ other_policy "x-llm-cost" (string "0.05")
    ∷ chunk (clocks 0) true
    ∷ body (clocks 0)
    ∷ []

differ : (k : String) → str_eq k metadata_cost_charged ≡ false → k ≢ metadata_cost_charged
differ k h e = ground (arith, eq_iff k metadata_cost_charged, h, e)

abbrev final : Map Value × List (RouteBudget MemoryLimiter)
final =
    run fixed_window small_ops texts (pos 1) events
      (record_selection listed no_metadata, policy.budgets)

charged_at_most_once_example :
    (final.1 ≡ policy.budgets)
    ⊎ ((before : List (Event Clocks)) × (after : List (Event Clocks)) × (env : Clocks) × (events
          ≡ before ++ after)
        × (as_bool (
              (run fixed_window small_ops texts
                  (pos 1)
                  before
                  (record_selection listed no_metadata, policy.budgets)).0
                metadata_track_primary_cost)
            ≡ true)
        × (final.1
            ≡ pay fixed_window small_ops texts
                (pos 1)
                env
                (put_key metadata_cost_charged
                  (bool true)
                  (run fixed_window small_ops texts
                    (pos 1)
                    before
                    (record_selection listed no_metadata, policy.budgets)).0)
                policy.budgets))
charged_at_most_once_example =
    charged_at_most_once fixed_window small_ops texts (pos 1) events
      (record_selection listed no_metadata) policy.budgets
      (differ "x-llm-cost-status" refl, (differ "x-llm-cost" refl, (tt, (tt, tt))))

five_charged :
    IsCharge fixed_window small_ops texts
      (pos 1)
      (clocks 0)
      listed
      (string "calculated")
      (string "0.05")
      no_metadata
      (budget_of "cbr:gpt" 3)
      policy.budgets
      (pos 5)
unfolding units_to_charge parse_reported_cost scale_cost record_selection
five_charged = record { fresh = refl; keyed = refl; at_index = refl; units = refl }

reported_cost_is_charged_run :
    get_elem?
      (on_response_body_chunk fixed_window small_ops texts
        (pos 1)
        (clocks 0)
        true
        (reported listed (string "calculated") (string "0.05") no_metadata)
        policy.budgets).1
      1
    ≡ some (budget_of "cbr:any" 3)
reported_cost_is_charged_run =
    reported_cost_is_charged fixed_window small_ops texts (pos 1) (clocks 0) listed
      (string "calculated") (string "0.05") no_metadata (budget_of "cbr:gpt" 3) policy.budgets
      (pos 5) 1 five_charged

window-IsSane : IsSane (window_of 3).policy
window-IsSane = record { long = omega arith; some_quota = omega arith; small = omega arith }

abbrev entry_of : String → Value
entry_of m = object (
    field "name" (string m) (
      field "model" (object (field "modelName" (string m) empty)) (
        field "budgetLimits"
          (array
            (item (object (field "amount" (float64 3) (field "duration" (string "1s") empty))) end))
          empty)))

routes_are_parsed :
    parse_routes texts small_ops parse
      (array (item (entry_of "gpt") (item (entry_of "*") end)))
      (pos 1)
      "modelBudgets"
    ≡ ok policy.config.routes
unfolding parse_routes parse_items parse_route assemble route_name route_target parse_name
    check_name parse_target parse_model parse_provider check_target models_field make_route
    parse_budget_limits parse_limit_items parse_limit parse_amount parse_limit_duration float_value
    scale_dollars parameter_name is_wildcard_model is_pattern_model has_text
routes_are_parsed = refl

parse_routes-IsParsed_example : IsParsed texts small_ops parse policy.config.routes
parse_routes-IsParsed_example =
    parse_routes-IsParsed texts small_ops parse
      (array (item (entry_of "gpt") (item (entry_of "*") end))) (pos 1) "modelBudgets"
      policy.config.routes routes_are_parsed

routes-IsParsed : IsParsed texts small_ops parse policy.config.routes
routes-IsParsed =
    parse_routes-IsParsed texts small_ops parse
      (array (item (entry_of "gpt") (item (entry_of "*") end))) (pos 1) "modelBudgets"
      policy.config.routes routes_are_parsed

charged_budget_refuses_example :
    select_target fixed_window texts clocks
      (record policy {
        budgets =
            (on_response_body_chunk fixed_window small_ops texts
              (pos 1)
              (clocks 0)
              true
              (reported listed (string "calculated") (string "0.05") no_metadata)
              policy.budgets).1;
      })
      "gpt"
    ≡ exhausted_response
unfolding current_count get_available sub64 ◌-ℤ◌ wrap64
charged_budget_refuses_example =
    charged_budget_refuses texts clocks policy small_ops parse no_metadata listed
      (string "calculated") (string "0.05") (budget_of "cbr:gpt" 3) (pos 5) "gpt" (named "gpt" none)
      five_charged refl window-IsSane (omega arith) (omega arith) (omega arith) refl refl refl
      (refl, refl) routes-IsParsed

-- Five units are counted where three are allowed.
abbrev overspent : MemoryLimiter
overspent = record (window_of 3) {
  data_of = λ k. some (record { count = pos 5; start = pos 0; expiration = minute });
}

clamped_cost_frees_budget_example :
    (query fixed_window (clocks 0) "cbr:gpt" overspent ≡ ok (exhausted, pos 0))
    × ((u : ℤ) × (query fixed_window
            (clocks 0)
            "cbr:gpt"
            (charge fixed_window (clocks 0) "cbr:gpt" max_int64 overspent).1
          ≡ ok (available, u)))
unfolding current_count window_start truncate ◌-ℤ◌ ◌+ℤ◌ scale_cost
clamped_cost_frees_budget_example =
    clamped_cost_frees_budget ops texts 1 (pos 1) max_int64 (clocks 0) "cbr:gpt" overspent
      window-IsSane (omega arith) (omega arith) refl refl
