-- ===== src/Tests/RoundRuns.antt =====
-- The round robins at concrete inputs.
use gateway_controllers.Prelude.{
  ◌≡◌, refl, Bool, true, false, ℕ, ◌+◌, ◌<◌, arith, ◌⊎◌, none, some, List, [], ◌∷◌, length, String,
}
use gateway_controllers.Prelude.Int.{pos, add64, wrap64, ◌+ℤ◌}
use text.Mathlib.Text.{◌==◌ as str_eq}
use gateway_controllers.Limiter.{ok}
use gateway_controllers.Value.{
  Fields, FloatOps, int, string, array, object, end, item, empty, field,
}
use gateway_controllers.Routing.{RequestModel, RequestHeaders, Paths, record_selection}
use gateway_controllers.Routing.Parsing.{
  extract_int, parse_model_name, parse_provider, parse_model_list, as_model, parse_suspend_duration,
  parse_location, parse_request_model,
}
use gateway_controllers.Weighted
use gateway_controllers.Weighted.Sequence.{weight_of, anything}
use gateway_controllers.Weighted.Select.{
  IsAt, Picks as Serves, suspended_at as held_at, select_next_first,
}
use gateway_controllers.Weighted.Rotation.{served, served_weights}
use gateway_controllers.Weighted.Avoided.{Step, requests, responds, run, failed_target_avoided}
use gateway_controllers.Weighted.Parsed.{IsParsed, parse_params-IsParsed}
use gateway_controllers.RoundRobin
use gateway_controllers.RoundRobin.Select.{IsValid, Picks, suspended_at, select_next_lem}
use gateway_controllers.RoundRobin.Avoided.{failed_model_avoided}
use gateway_controllers.RoundRobin.Parsed.{get_policy-IsValid}

abbrev in_header : RequestModel
in_header = record { location = "header"; identifier = "x-model" }

abbrev request : RequestHeaders
request = record { metadata = λ k. none; path = "/chat"; downstream = none }

-- Small twice, large once, each at its provider.
abbrev models : List Weighted.WeightedModel
models =
    record { model = "small"; weight = pos 2; provider = "a" }
    ∷ record { model = "large"; weight = pos 1; provider = "b" }
    ∷ []

abbrev weighted : Weighted.Policy
weighted = record {
  current_index = pos 7;
  suspended_models = λ k. none;
  weighted_sequence = Weighted.build_weighted_sequence models;
  params = record { models = models; suspend_duration = pos 30; request_model = in_header };
}

abbrev is_small : Weighted.WeightedModel → Bool
is_small m = str_eq m.model "small"

total_is_three : weight_of anything models ≡ 3
unfolding weight_of
total_is_three = refl

length_is_three : length (Weighted.build_weighted_sequence models) ≡ 3
unfolding Weighted.build_weighted_sequence add64 wrap64 ◌+ℤ◌
length_is_three = refl

weighted-IsAt : IsAt 7 (length weighted.weighted_sequence) weighted
weighted-IsAt = record {
  at = refl;
  below = omega (arith, length_is_three);
  some_model = omega (arith, length_is_three);
}

weighted-IsAt_long :
    IsAt 7 (length weighted.weighted_sequence + length weighted.weighted_sequence) weighted
weighted-IsAt_long = record {
  at = refl;
  below = omega (arith, length_is_three);
  some_model = omega (arith, length_is_three);
}

served_weights_example :
    served is_small (λ k. pos 5) (length weighted.weighted_sequence) weighted
    ≡ weight_of is_small models
served_weights_example =
    served_weights is_small (λ k. pos 5) 7 weighted models refl (omega (arith, total_is_three))
      weighted-IsAt_long (λ k. refl)

select_next_first_example :
    Serves (pos 5) 7 (length weighted.weighted_sequence) weighted
    ⊎ (((c : ℕ) → c < length weighted.weighted_sequence → held_at (pos 5) weighted c ≡ true)
        × ((Weighted.select_next (pos 5) weighted).0 ≡ ok none))
select_next_first_example = select_next_first (pos 5) 7 weighted weighted-IsAt

-- Requests here name the model in a header, so the paths are never looked at.
abbrev paths : Paths
paths = record {
  Query = String;
  Pattern = String;
  path_unescape = λ s. some s;
  split = λ s. s ∷ [];
  parse_query = λ s. some s;
  no_query = "";
  set = λ k v q. q;
  encode = λ q. q;
  compile = λ s. some s;
  find_submatch_index = λ r s. [];
  before = λ s i. s;
  from = λ s i. s;
}

-- A request, a failure of the other target, the failure of the target again, and one more request.
abbrev hooks : List Step
hooks =
    requests (pos 1) request
    ∷ responds (pos 2) (pos 429) (record_selection Weighted.prefix in_header "large" "b" request)
    ∷ responds (pos 3) (pos 500) (record_selection Weighted.prefix in_header "small" "a" request)
    ∷ requests (pos 4) request
    ∷ []

failed_target_avoided_example :
    let failed =
      Weighted.on_response
        (pos 0)
        (pos 503)
        (record_selection Weighted.prefix in_header "small" "a" request)
        weighted in
    ¬ (
      (m : Weighted.WeightedModel) × ((Weighted.select_next (pos 5) (run paths failed hooks)).0
        ≡ ok (some m))
      × (m.model ≡ "small")
      × (m.provider ≡ "a"))
unfolding ◌+ℤ◌
failed_target_avoided_example =
    failed_target_avoided paths weighted in_header request "small" "a" 30 (pos 0) (pos 5) (pos 503)
      hooks refl (omega arith) (omega arith) refl refl (ground arith) (ground arith)

abbrev plain : RoundRobin.Policy
plain = record {
  current_index = 1;
  suspended_models = λ k. none;
  params = record {
    models =
        record { model = "small"; provider = "a" }
        ∷ record { model = "large"; provider = "b" }
        ∷ [];
    suspend_duration = pos 30;
    request_model = in_header;
  };
}

select_next_lem_example :
    Picks (pos 5) (length plain.params.models) plain
    ⊎ (((c : ℕ) → c < length plain.params.models → suspended_at (pos 5) plain c ≡ true)
        × ((RoundRobin.select_next (pos 5) plain).0 ≡ ok none))
select_next_lem_example = select_next_lem (pos 5) plain (omega arith)

failed_model_avoided_run :
    let p =
      RoundRobin.on_response
        (pos 0)
        (pos 429)
        (record_selection RoundRobin.prefix in_header "large" "b" request)
        plain in
    ¬ (
      (m : RoundRobin.ModelConfig) × ((RoundRobin.select_next (pos 5) p).0 ≡ ok (some m))
      × (m.model ≡ "large")
      × (m.provider ≡ "b"))
unfolding ◌+ℤ◌
failed_model_avoided_run =
    failed_model_avoided plain in_header request "large" "b" 30 (pos 0) (pos 5) (pos 429) refl
      (omega arith) (omega arith) refl refl (omega arith) (ground arith)

abbrev params : Fields
params =
    field "models"
      (array (
        item
          (object (
            field "model" (string "small")
              (field "weight" (int (pos 2)) (field "provider" (string "a") empty))))
          end))
      (field "requestModel"
        (object (field "location" (string "header") (field "identifier" (string "x-model") empty)))
        empty)

abbrev no_floats : FloatOps
no_floats = record { to_int = λ b. pos 0; of_int = λ n. 0; same = λ a b. false; show = λ b. "" }

abbrev parsed : Weighted.Params
parsed = record {
  models = record { model = "small"; weight = pos 2; provider = "a" } ∷ [];
  suspend_duration = pos 30;
  request_model = in_header;
}

parsed_lem : Weighted.parse_params no_floats params ≡ ok parsed
unfolding Weighted.parse_params Weighted.parse_models Weighted.parse_model Weighted.parse_weight
    extract_int parse_model_name parse_provider parse_model_list as_model parse_suspend_duration
    parse_location parse_request_model
parsed_lem = refl

parse_params-IsParsed_example : IsParsed parsed
parse_params-IsParsed_example = parse_params-IsParsed no_floats params parsed parsed_lem

abbrev made : RoundRobin.Policy
made = record {
  current_index = 0;
  suspended_models = λ k. none;
  params = record {
    models = record { model = "small"; provider = "a" } ∷ [];
    suspend_duration = pos 30;
    request_model = in_header;
  };
}

made_lem : RoundRobin.get_policy no_floats params ≡ ok made
unfolding RoundRobin.get_policy RoundRobin.parse_params RoundRobin.parse_models
    RoundRobin.parse_model extract_int parse_model_name parse_provider parse_model_list as_model
    parse_suspend_duration parse_location parse_request_model
made_lem = refl

made-IsValid : IsValid made
made-IsValid = get_policy-IsValid no_floats params made made_lem
