-- ===== src/CostRouting/Parsing.antt =====
-- The model budgets of the parameters (policies/cost-based-model-routing/config.go): parseRoutes and
-- what it calls.
use Prim.Native.String.{◌++◌ as append}
use text.Mathlib.Text.{◌==◌ as str_eq}
use gateway_controllers.Prelude.{
  ℕ, suc, ◌+◌, String, Bool, true, false, not, ◌&&◌, ◌||◌, ltb, ◌==◌, Option, none, some, List, [],
  ◌∷◌, if◌then◌else◌,
}
use gateway_controllers.Prelude.Int.{ℤ, pos, le_ℤ}
use gateway_controllers.Prelude.Text.{format_int, format_int64, has_text}
use gateway_controllers.Limiter.{Outcome, ok, err, panic, ◌>>=◌, Duration}
use gateway_controllers.Value.{
  Value, Fields, Items, nil_value, int, int32, int64, float32, float64, string, array, object, end,
  item, lookup,
}
use gateway_controllers.CostRouting.{
  Target, BudgetLimit, CostRoute, Texts, CostOps, is_pattern_model,
}

-- What the parsing uses of Go's strings, regexp, unicode and time: strings.ReplaceAll, the number of
-- runes of a text, the verb %q, and time.ParseDuration with its error.
pub record ParseOps (Pattern : Type 0) : Type 0 where
  pub must_compile : String → Pattern
  pub quote_meta : String → String
  pub replace_all : String → String → String → String
  pub rune_count : String → ℕ
  pub quote : String → String
  pub parse_duration : String → Outcome Duration

abbrev exists : Fields → String → Bool
exists m name = elim (lookup name m) [ none ↦ false | some v ↦ true ]

unfoldable pub parameter_name : Fields → String → String → String
parameter_name values current legacy =
    if exists values current then current else if exists values legacy then legacy else current

unfoldable pub is_wildcard_model : String → Bool
is_wildcard_model model = str_eq model "*" || str_eq model "other"

-- fmt.Sprintf("%s[%d]", field, i)
abbrev pub at_index : String → ℕ → String
at_index field i = append field (append "[" (append (format_int i) "]"))

-- fmt.Errorf("'%s' " + rest, field)
abbrev about : {A : Type 0} → String → String → Outcome A
about field rest = err (append "'" (append field (append "' " rest)))

module _ (texts : Texts) (ops : CostOps) (parse : ParseOps texts.Pattern) where
  -- A string that is not blank, trimmed.
  abbrev trimmed : Option Value → Option String
  trimmed (some (string s)) =
      if str_eq (texts.trim_space s) "" then none else some (texts.trim_space s)
  trimmed _ = none

  abbrev or_error : {A : Type 0} → Option A → Outcome A → Outcome A
  or_error none e = e
  or_error (some a) e = ok a

  unfoldable pub parse_model : Fields → String → Outcome String
  parse_model m field =
      let name = parameter_name m "modelName" "model" in
      let place = append field (append "." name) in
      if exists m name
      then or_error (trimmed (lookup name m)) (about place "must be a non-empty string")
      else about place "is required"

  unfoldable pub parse_provider : Fields → String → Outcome String
  parse_provider m field =
      let name = parameter_name m "providerName" "provider" in
      if exists m name
      then or_error (trimmed (lookup name m))
          (about (append field (append "." name)) "must be a non-empty string when supplied")
      else ok ""

  unfoldable pub parse_target : Option Value → String → Outcome Target
  parse_target (some (object m)) field = parse_model m field >>= (λ model.
      parse_provider m field >>= (λ provider. ok (record { model = model; provider = provider })))
  parse_target _ field = about field "must be an object"

  -- floatValue.
  unfoldable pub float_value : Value → Option ℕ
  float_value (float64 f) = some f
  float_value (float32 f) = some (ops.of_float32 f)
  float_value (int n) = some (ops.of_int n)
  float_value (int32 n) = some (ops.of_int n)
  float_value (int64 n) = some (ops.of_int n)
  float_value _ = none

  unfoldable pub scale_dollars : ℕ → ℤ → Outcome ℤ
  scale_dollars amount factor =
      if ops.is_nan amount || ops.is_inf amount
      then err "amount is not a finite number"
      else if ops.above_max (ops.scale amount factor)
      then err "scaled amount exceeds the maximum supported value"
      else ok (ops.to_int64 (ops.scale amount factor))

  abbrev is_amount : ℕ → Bool
  is_amount a = not (ops.is_nan a || (ops.is_inf a || (ops.is_negative a || ops.is_zero a)))

  -- The amount of a limit and its scaled value.
  unfoldable pub parse_amount : ℤ → Fields → String → Outcome (ℕ × ℤ)
  parse_amount factor entry place = elim (lookup "amount" entry) [
    | none ↦ about place "is required"
    | some v ↦ elim (float_value v) [
      | none ↦ about place "must be a number"
      | some a ↦
          if is_amount a
          then elim (scale_dollars a factor) [
            | ok n ↦
                if le_ℤ n (pos 0)
                then about place
                    (append "is too small to represent with costScaleFactor " (format_int64 factor))
                else ok (a, n)
            | err e ↦ about place (
                append "cannot be scaled by costScaleFactor "
                  (append (format_int64 factor) (append ": " e)))
            | panic ↦ panic
          ]
          else about place "must be greater than zero"
    ]
  ]

  unfoldable pub parse_limit_duration : Fields → String → Outcome Duration
  parse_limit_duration entry place = elim (lookup "duration" entry) [
    | none ↦ about place "is required"
    | some v ↦ elim (trimmed (some v)) [
      | none ↦ about place "must be a non-empty Go duration string"
      | some s ↦ elim (parse.parse_duration s) [
        | ok d ↦ if le_ℤ d (pos 0) then about place "must be greater than zero" else ok d
        | err e ↦ about place (append "is not a valid Go duration: " e)
        | panic ↦ panic
      ]
    ]
  ]

  unfoldable pub parse_limit : ℤ → Value → String → Outcome BudgetLimit
  parse_limit factor (object entry) place =
      parse_amount factor entry (append place ".amount") >>= (λ a.
        parse_limit_duration entry (append place ".duration")
        >>= (λ d. ok (record { amount = a.0; duration = d; scaled = a.1 })))
  parse_limit factor v place = about place "must be an object"

  unfoldable pub parse_limit_items : ℤ → String → ℕ → Items → Outcome (List BudgetLimit)
  parse_limit_items factor field i end = ok []
  parse_limit_items factor field i (item v rest) =
      parse_limit factor v (at_index field i)
      >>= (λ l. parse_limit_items factor field (suc i) rest >>= (λ ls. ok (l ∷ ls)))

  unfoldable pub parse_budget_limits : Option Value → ℤ → String → Outcome (List BudgetLimit)
  parse_budget_limits none factor field = about field "is required"
  parse_budget_limits (some nil_value) factor field = about field "is required"
  parse_budget_limits (some (array end)) factor field =
      about field "must contain at least one entry"
  parse_budget_limits (some (array (item v rest))) factor field =
      parse_limit_items factor field 0 (item v rest)
  parse_budget_limits (some _) factor field = about field "must be an array"

  unfoldable pub parse_name : Fields → String → ℕ → Outcome String
  parse_name entry place i = elim (lookup "name" entry) [
    | none ↦ ok (append "route-" (format_int (i + 1)))
    | some v ↦
        or_error (trimmed (some v))
          (about (append place ".name") "must be a non-empty string when supplied")
  ]

  -- The field of an entry that names its model.
  unfoldable pub models_field : Fields → String
  models_field entry =
      let name = parameter_name entry "model" "models" in
      if not (exists entry name) && exists entry "target" then "target" else name

  -- The target of a route, with the legacy spelling of the wildcard replaced.
  abbrev canonical : Target → Target
  canonical t = if is_wildcard_model t.model then record t { model = "*" } else t

  unfoldable pub make_route : String → Target → List BudgetLimit → CostRoute texts.Pattern
  make_route name t limits =
      if texts.contains t.model "*"
      then record {
        name = name;
        target = t;
        pattern = some (
            parse.must_compile (
              append "(?s)^"
                (append (parse.replace_all (parse.quote_meta t.model) "\\*" ".*") "$")));
        specificity = parse.rune_count (parse.replace_all t.model "*" "");
        budget_limits = limits;
      }
      else record {
        name = name;
        target = t;
        pattern = none;
        specificity = 0;
        budget_limits = limits;
      }

  -- The tests of a target against the targets before it.
  unfoldable pub check_target : Target → List String → String → Outcome Target
  check_target t models place =
      if is_pattern_model texts t.model && not (str_eq t.provider "")
      then about place
          "wildcard budget must omit providerName; unlisted models use the proxy primary provider"
      else if has_text t.model models
      then about place (append "duplicates model name " (parse.quote t.model))
      else ok t

  unfoldable pub check_name : String → List String → String → Outcome String
  check_name name names place =
      if has_text name names
      then about (append place ".name") (append "duplicates model budget name " (parse.quote name))
      else ok name

  -- The name, the target and the limits of an entry; the first error stands.
  unfoldable pub assemble :
      Outcome String
      → Outcome Target
      → Outcome (List BudgetLimit)
      → Outcome (CostRoute texts.Pattern)
  assemble (ok name) (ok t) (ok limits) = ok (make_route name t limits)
  assemble (ok name) (ok t) (err e) = err e
  assemble (ok name) (ok t) panic = panic
  assemble (ok name) (err e) limits = err e
  assemble (ok name) panic limits = panic
  assemble (err e) t limits = err e
  assemble panic t limits = panic

  unfoldable pub route_name : Fields → String → ℕ → List String → Outcome String
  route_name entry place i names =
      parse_name entry place i >>= (λ name. check_name name names place)

  unfoldable pub route_target : Fields → String → List String → Outcome Target
  route_target entry place models =
      let target_place = append place (append "." (models_field entry)) in
      parse_target (lookup (models_field entry) entry) target_place
      >>= (λ t. check_target (canonical t) models target_place)

  unfoldable pub parse_route :
      ℤ → String → ℕ → Value → List String → List String → Outcome (CostRoute texts.Pattern)
  parse_route factor place i (object entry) names models =
      assemble (route_name entry place i names) (route_target entry place models)
        (parse_budget_limits (lookup "budgetLimits" entry) factor (append place ".budgetLimits"))
  parse_route factor place i v names models = about place "must be an object"

  unfoldable pub parse_items :
      ℤ → String → ℕ → Items → List String → List String → Outcome (List (CostRoute texts.Pattern))
  parse_items factor field i end names models = ok []
  parse_items factor field i (item v rest) names models =
      parse_route factor (at_index field i) i v names models >>= (λ r.
        parse_items factor field (suc i) rest (r.name ∷ names) (r.target.model ∷ models)
        >>= (λ rs. ok (r ∷ rs)))

  abbrev pub count : Items → ℕ
  count end = 0
  count (item v rest) = suc (count rest)

  unfoldable pub parse_routes : Value → ℤ → String → Outcome (List (CostRoute texts.Pattern))
  parse_routes (array items) factor field =
      if (count items == 0) || ltb 10 (count items)
      then about field "must contain between 1 and 10 entries"
      else parse_items factor field 0 items [] []
  parse_routes v factor field = about field "must be an array"
