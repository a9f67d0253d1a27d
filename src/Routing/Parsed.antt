-- ===== src/Routing/Parsed.antt =====
-- What the parameters that the parsing accepts look like.
use text.Mathlib.Text.{◌==◌ as str_eq}
use gateway_controllers.Prelude.{
  ◌≡◌, String, Bool, true, false, ◌||◌, arith, inl, inr, Option-cases,
}
use gateway_controllers.Prelude.Int.{ℤ, pos, ◌≤ℤ◌}
use mathlib.Core.Path.{subst}
use gateway_controllers.Limiter.{Outcome, ok, ◌>>=◌, from_bind, OfOk}
use gateway_controllers.Value.{Fields, FloatOps, lookup, object}
use gateway_controllers.Routing.{RequestModel}
use gateway_controllers.Routing.Parsing.{
  required_string, parse_suspend_duration, parse_location, parse_request_model,
}

-- A location that OnRequestHeaders or OnRequestBody handles.
abbrev pub is_location : String → Bool
is_location s =
    str_eq s "payload" || (str_eq s "header" || (str_eq s "queryParam" || str_eq s "pathParam"))

pub required_string-filled :
    (label : String) (m : Fields) (name s : String)
    → required_string label m name ≡ ok s
    → str_eq s "" ≡ false
required_string-filled label m name s h = elim (Option-cases (lookup name m)) [
  | inl n ↦ absurd (ground arith)
  | inr (v, n) ↦ ground arith
]

pub parse_suspend_duration_bounds :
    (ops : FloatOps) (params : Fields) (d : ℤ)
    → parse_suspend_duration ops params ≡ ok d
    → pos 0 ≤ℤ d
unfolding parse_suspend_duration
parse_suspend_duration_bounds ops params d h =
    elim (Option-cases (lookup "suspendDuration" params)) [
      | inl n ↦ ground arith
      | inr (v, n) ↦ ground arith
    ]

pub parse_location-known :
    (m : Fields) (s : String) → parse_location m ≡ ok s → is_location s ≡ true
unfolding parse_location
parse_location-known m s h = elim (Option-cases (lookup "location" m)) [
  | inl n ↦ absurd (ground arith)
  | inr (v, n) ↦ ground arith
]

-- What OnRequestHeaders relies on of the location and the identifier.
abbrev pub IsRequestModel : RequestModel → Type 0
IsRequestModel r = (is_location r.location ≡ true) × (str_eq r.identifier "" ≡ false)

abbrev read_request : Fields → Outcome RequestModel
read_request m = parse_location m >>= λ location.
    required_string "'requestModel.identifier'" m "identifier" >>= λ identifier.
    ok (record { location = location; identifier = identifier })

read_request-IsRequestModel :
    (m : Fields) (r : RequestModel) → read_request m ≡ ok r → IsRequestModel r
read_request-IsRequestModel m r h = from_bind (parse_location m) _ r h (λ l el rest.
    from_bind (required_string "'requestModel.identifier'" m "identifier") _ r rest (λ i ei done.
      subst (OfOk IsRequestModel) done (
        parse_location-known m l el,
        required_string-filled "'requestModel.identifier'" m "identifier" i ei,
      )))

pub parse_request_model-IsRequestModel :
    (params : Fields) (r : RequestModel) → parse_request_model params ≡ ok r → IsRequestModel r
unfolding parse_request_model
parse_request_model-IsRequestModel params r h = elim (Option-cases (lookup "requestModel" params)) [
  | inl n ↦ absurd (ground arith)
  | inr (object m, n) ↦ read_request-IsRequestModel m r (rw (parse_request_model, n) at h)
  | inr (v, n) ↦ absurd (ground arith)
]
