-- ===== src/RoundRobin.antt =====
-- policies/model-round-robin/roundrobin.go. What the package shares with
-- policies/model-weighted-round-robin is in Routing. The selection holds the mutex of the policy
-- for its whole body, so it is one step.
pub mod Select
pub mod Avoided
pub mod Parsed
use Prim.Native.String.{◌++◌ as append}
use gateway_controllers.Prelude.{
  ℕ, zero, suc, ◌+◌, ◌%◌, String, Option, none, some, List, [], ◌∷◌, if◌then◌else◌, get_elem?,
  length,
}
use gateway_controllers.Prelude.Int.{ℤ, lt_ℤ}
use gateway_controllers.Limiter.{Instant, Map, Outcome, ok, err, panic, ◌>>=◌, delete}
use gateway_controllers.Value.{Value, Fields, Items, FloatOps, end, item}
use gateway_controllers.Routing.{
  RequestModel, RequestHeaders, HeaderAction, Paths, suspension_key, route, on_response_headers,
}
use gateway_controllers.Routing.Parsing.{
  wrapped, parse_model_name, parse_provider, parse_model_list, as_model, parse_suspend_duration,
  parse_request_model,
}

pub record ModelConfig : Type 0 where
  pub model : String
  pub provider : String

pub record Params : Type 0 where
  pub models : List ModelConfig
  pub suspend_duration : ℤ
  pub request_model : RequestModel

-- The policy with its state. The index is never negative.
pub record Policy : Type 0 where
  pub current_index : ℕ
  pub suspended_models : Map Instant
  pub params : Params

abbrev pub prefix : String
prefix = "model_roundrobin"

-- The loop of selectNextAvailableModel, with the attempts that are left.
unfoldable pub attempt : Instant → ℕ → Policy → Outcome (Option ModelConfig) × Policy
attempt now zero p = (ok none, p)
attempt now (suc k) p = elim (get_elem? p.params.models p.current_index) [
  | none ↦ (panic, p)
  | some m ↦
      let moved = record p { current_index = (p.current_index + 1) % length p.params.models } in
      let next = attempt now k moved in
      let key = suspension_key m.provider m.model in
      elim (p.suspended_models key) [
        | none ↦ (ok (some m), moved)
        | some until ↦
            if lt_ℤ now until
            then next
            else (ok (some m), record moved { suspended_models = delete key p.suspended_models })
      ]
]

-- selectNextAvailableModel.
unfoldable pub select_next : Instant → Policy → Outcome (Option ModelConfig) × Policy
select_next now p = attempt now (length p.params.models) p

abbrev target_of : Option ModelConfig → Option (String × String)
target_of none = none
target_of (some m) = some (m.model, m.provider)

-- OnRequestHeaders: the action, the metadata and the policy that it leaves.
unfoldable pub on_request_headers :
    Paths → Instant → RequestHeaders → Policy → Outcome (HeaderAction × Map Value) × Policy
on_request_headers paths now req p =
    let (o, p') = select_next now p in
    (o >>= λ m. ok (route paths prefix p.params.request_model (target_of m) req), p')

-- OnResponseHeaders: the policy after a response of this status.
unfoldable pub on_response : Instant → ℤ → Map Value → Policy → Policy
on_response now status metadata p = record p {
  suspended_models =
      on_response_headers prefix p.params.suspend_duration now status metadata p.suspended_models;
}

unfoldable pub parse_model : ℕ → Value → Outcome ModelConfig
parse_model i v = as_model i v >>= λ m. parse_model_name i m >>= λ name.
    parse_provider i m >>= λ provider. ok (record { model = name; provider = provider })

unfoldable pub parse_models : ℕ → Items → Outcome (List ModelConfig)
parse_models i end = ok []
parse_models i (item v rest) =
    let others = parse_models (suc i) rest in parse_model i v >>= λ m. others >>= λ ms. ok (m ∷ ms)

module _ (ops : FloatOps) where
  -- parseParams.
  unfoldable pub parse_params : Fields → Outcome Params
  parse_params params = parse_model_list params >>= λ items. parse_models 0 items >>= λ ms.
      parse_suspend_duration ops params >>= λ d. parse_request_model params >>= λ r.
      ok (record { models = ms; suspend_duration = d; request_model = r })

  -- GetPolicy.
  unfoldable pub get_policy : Fields → Outcome Policy
  get_policy params = wrapped "invalid params" (parse_params params) >>= λ ps.
      ok (record { current_index = 0; suspended_models = λ k. none; params = ps })
