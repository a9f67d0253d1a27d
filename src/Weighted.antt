-- ===== src/Weighted.antt =====
-- policies/model-weighted-round-robin/weightedroundrobin.go. What the package shares with
-- policies/model-round-robin is in Routing. The selection holds the mutex of the policy for its
-- whole body, so it is one step.
pub mod Sequence
pub mod Select
pub mod Rotation
pub mod Turns
pub mod Avoided
pub mod Parsed
use Prim.Native.String.{◌++◌ as append}
use gateway_controllers.Prelude.{
  ℕ, zero, suc, ◌%◌, String, Option, none, some, List, [], ◌∷◌, ◌++◌, if◌then◌else◌, get_elem?,
  length, replicate, ◌==◌,
}
use gateway_controllers.Prelude.Int.{ℤ, pos, negsuc, pos_part, lt_ℤ, eq_ℤ, add64}
use gateway_controllers.Limiter.{Instant, Map, Outcome, ok, err, panic, ◌>>=◌, delete}
use gateway_controllers.Value.{Value, Fields, Items, FloatOps, end, item, lookup}
use gateway_controllers.Routing.{
  RequestModel, RequestHeaders, HeaderAction, Paths, suspension_key, route, on_response_headers,
}
use gateway_controllers.Routing.Parsing.{
  extract_int, wrapped, parse_model_name, parse_provider, parse_model_list, as_model,
  parse_suspend_duration, parse_request_model, model_field,
}

pub record WeightedModel : Type 0 where
  pub model : String
  pub weight : ℤ
  pub provider : String

pub record Params : Type 0 where
  pub models : List WeightedModel
  pub suspend_duration : ℤ
  pub request_model : RequestModel

-- The policy with its state. The source guards the sequence by a second mutex, and never changes it.
pub record Policy : Type 0 where
  pub current_index : ℤ
  pub suspended_models : Map Instant
  pub weighted_sequence : List WeightedModel
  pub params : Params

abbrev pub prefix : String
prefix = "model_weighted_roundrobin"

-- The sum of the positive weights, an `int`.
abbrev pub total_from : ℤ → List WeightedModel → ℤ
total_from total [] = total
total_from total (m ∷ ms) =
    total_from (if lt_ℤ (pos 0) m.weight then add64 total m.weight else total) ms

abbrev pub repeat_models : List WeightedModel → List WeightedModel
repeat_models [] = []
repeat_models (m ∷ ms) =
    let rest = repeat_models ms in
    if lt_ℤ (pos 0) m.weight then replicate (pos_part m.weight) m ++ rest else rest

unfoldable pub build_weighted_sequence : List WeightedModel → List WeightedModel
build_weighted_sequence ms = if eq_ℤ (total_from (pos 0) ms) (pos 0) then [] else repeat_models ms

-- The position `i % n` of a list of n > 0 elements. Of a negative number it is 0 or negative.
unfoldable pub slot : ℤ → ℕ → Option ℕ
slot (pos i) n = some (i % n)
slot (negsuc i) n = if suc i % n == 0 then some 0 else none

abbrev pub model_at : Policy → Option WeightedModel
model_at p = elim (slot p.current_index (length p.weighted_sequence)) [
  | none ↦ none
  | some i ↦ get_elem? p.weighted_sequence i
]

-- The loop of selectNextAvailableWeightedModel, with the attempts that are left.
unfoldable pub attempt : Instant → ℕ → Policy → Outcome (Option WeightedModel) × Policy
attempt now zero p = (ok none, p)
attempt now (suc k) p = elim (model_at p) [
  | none ↦ (panic, p)
  | some m ↦
      let moved = record p { current_index = add64 p.current_index (pos 1) } in
      let next = attempt now k moved in
      let key = suspension_key m.provider m.model in
      elim (p.suspended_models key) [
        | none ↦ (ok (some m), moved)
        | some until ↦
            if lt_ℤ now until
            then next
            else (ok (some m), record moved { suspended_models = delete key p.suspended_models })
      ]
]

-- selectNextAvailableWeightedModel.
unfoldable pub select_next : Instant → Policy → Outcome (Option WeightedModel) × Policy
select_next now p = attempt now (length p.weighted_sequence) p

abbrev target_of : Option WeightedModel → Option (String × String)
target_of none = none
target_of (some m) = some (m.model, m.provider)

-- OnRequestHeaders: the action, the metadata and the policy that it leaves.
unfoldable pub on_request_headers :
    Paths → Instant → RequestHeaders → Policy → Outcome (HeaderAction × Map Value) × Policy
on_request_headers paths now req p =
    let (o, p') = select_next now p in
    (o >>= λ m. ok (route paths prefix p.params.request_model (target_of m) req), p')

-- OnResponseHeaders: the policy after a response of this status.
unfoldable pub on_response : Instant → ℤ → Map Value → Policy → Policy
on_response now status metadata p = record p {
  suspended_models =
      on_response_headers prefix p.params.suspend_duration now status metadata p.suspended_models;
}

module _ (ops : FloatOps) where
  unfoldable pub parse_weight : ℕ → Fields → Outcome ℤ
  parse_weight i m = elim (lookup "weight" m) [
    | none ↦ err (append (model_field i "weight") " is required")
    | some v ↦
        wrapped (append (model_field i "weight") " must be an integer") (extract_int ops v) >>= λ n.
        if lt_ℤ n (pos 1) then err (append (model_field i "weight") " must be >= 1") else ok n
  ]

  unfoldable pub parse_model : ℕ → Value → Outcome WeightedModel
  parse_model i v = as_model i v >>= λ m. parse_model_name i m >>= λ name.
      parse_weight i m >>= λ weight. parse_provider i m >>= λ provider.
      ok (record { model = name; weight = weight; provider = provider })

  unfoldable pub parse_models : ℕ → Items → Outcome (List WeightedModel)
  parse_models i end = ok []
  parse_models i (item v rest) =
      let others = parse_models (suc i) rest in
      parse_model i v >>= λ m. others >>= λ ms. ok (m ∷ ms)

  -- parseParams.
  unfoldable pub parse_params : Fields → Outcome Params
  parse_params params = parse_model_list params >>= λ items. parse_models 0 items >>= λ ms.
      parse_suspend_duration ops params >>= λ d. parse_request_model params >>= λ r.
      ok (record { models = ms; suspend_duration = d; request_model = r })

  -- GetPolicy.
  unfoldable pub get_policy : Fields → Outcome Policy
  get_policy params = wrapped "invalid params" (parse_params params) >>= λ ps. ok (record {
    current_index = pos 0;
    suspended_models = λ k. none;
    weighted_sequence = build_weighted_sequence ps.models;
    params = ps;
  })
