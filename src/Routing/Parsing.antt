-- ===== src/Routing/Parsing.antt =====
-- The parsing of parameters that policies/model-round-robin and policies/model-weighted-round-robin
-- share: extractInt, and what parseParams reads beside the weights.
use Prim.Native.String.{◌++◌ as append}
use text.Mathlib.Text.{◌==◌ as str_eq}
use gateway_controllers.Prelude.{ℕ, String, not, ◌||◌, none, some, if◌then◌else◌}
use gateway_controllers.Prelude.Int.{ℤ, pos, lt_ℤ}
use gateway_controllers.Prelude.Text.{format_int}
use gateway_controllers.Limiter.{Outcome, ok, err, ◌>>=◌}
use gateway_controllers.Value.{
  Value, Fields, Items, FloatOps, int, int64, float64, string, array, object, end, item, lookup,
  type_name,
}
use gateway_controllers.Routing.{RequestModel}

-- 'models[i].name'
abbrev pub model_field : ℕ → String → String
model_field i name = append "'models[" (append (format_int i) (append "]." (append name "'")))

-- extractInt.
unfoldable pub extract_int : FloatOps → Value → Outcome ℤ
extract_int ops (int n) = ok n
extract_int ops (int64 n) = ok n
extract_int ops (float64 b) =
    if not (ops.same b (ops.of_int (ops.to_int b)))
    then err (append "expected an integer but got " (ops.show b))
    else ok (ops.to_int b)
extract_int ops v = err (append "cannot convert " (append (type_name v) " to int"))

-- `%w`
abbrev pub wrapped {ℓ} : {A : Type ℓ} → String → Outcome A → Outcome A
wrapped prefix (err e) = err (append prefix (append ": " e))
wrapped prefix o = o

-- A required string that is not empty.
abbrev pub required_string : String → Fields → String → Outcome String
required_string label m name = elim (lookup name m) [
  | none ↦ err (append label " is required")
  | some (string s) ↦
      if str_eq s "" then err (append label " must have a minimum length of 1") else ok s
  | some _ ↦ err (append label " must be a string")
]

unfoldable pub parse_model_name : ℕ → Fields → Outcome String
parse_model_name i m = required_string (model_field i "model") m "model"

unfoldable pub parse_provider : ℕ → Fields → Outcome String
parse_provider i m = elim (lookup "provider" m) [
  | none ↦ ok ""
  | some (string s) ↦ ok s
  | some _ ↦ err (append (model_field i "provider") " must be a string")
]

-- The list of the models, at least one.
unfoldable pub parse_model_list : Fields → Outcome Items
parse_model_list params = elim (lookup "models" params) [
  | none ↦ err "'models' parameter is required"
  | some (array end) ↦ err "'models' array must contain at least one model"
  | some (array (item v rest)) ↦ ok (item v rest)
  | some _ ↦ err "'models' must be an array"
]

unfoldable pub as_model : ℕ → Value → Outcome Fields
as_model i (object m) = ok m
as_model i v = err (append "'models[" (append (format_int i) "]' must be an object"))

-- DefaultSuspendDuration, in seconds.
abbrev pub default_suspend_duration : ℤ
default_suspend_duration = pos 30

unfoldable pub parse_suspend_duration : FloatOps → Fields → Outcome ℤ
parse_suspend_duration ops params = elim (lookup "suspendDuration" params) [
  | none ↦ ok default_suspend_duration
  | some v ↦ wrapped "'suspendDuration' must be an integer" (extract_int ops v) >>= λ n.
      if lt_ℤ n (pos 0) then err "'suspendDuration' must be >= 0" else ok n
]

unfoldable pub parse_location : Fields → Outcome String
parse_location m = elim (lookup "location" m) [
  | none ↦ err "'requestModel.location' is required"
  | some (string s) ↦
      if str_eq s "payload"
        || (str_eq s "header" || (str_eq s "queryParam" || str_eq s "pathParam"))
      then ok s
      else err "'requestModel.location' must be one of: payload, header, queryParam, pathParam"
  | some _ ↦ err "'requestModel.location' must be a string"
]

unfoldable pub parse_request_model : Fields → Outcome RequestModel
parse_request_model params = elim (lookup "requestModel" params) [
  | none ↦ err "'requestModel' configuration is required"
  | some (object m) ↦ parse_location m >>= λ location.
      required_string "'requestModel.identifier'" m "identifier" >>= λ identifier.
      ok (record { location = location; identifier = identifier })
  | some _ ↦ err "'requestModel' must be an object"
]
