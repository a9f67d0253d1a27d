-- ===== src/Cors/Setup.antt =====
-- GetPolicy of policies/cors/cors.go: the parameters, what is refused, and the compiled origins.
use Prim.Native.String.{◌++◌ as append}
use text.Mathlib.Text.{◌==◌ as str_eq}
use gateway_controllers.Prelude.{
  String, Bool, false, not, ◌||◌, Option, none, some, List, [], ◌∷◌, if◌then◌else◌,
}
use gateway_controllers.Prelude.Int.{ℤ}
use gateway_controllers.Prelude.Text.{has_text}
use gateway_controllers.Limiter.{Outcome, ok, err, panic, ◌>>=◌}
use gateway_controllers.Value.{
  Value, Items, Fields, lookup, FloatOps, bool, int, float64, string, array, end, item,
}
use gateway_controllers.Cors.{CorsPolicy, TextOps}

abbrev pub texts_of : Items → List String
texts_of end = []
texts_of (item (string s) rest) = s ∷ texts_of rest
texts_of (item _ rest) = texts_of rest

abbrev or_default : List String → List String → List String
or_default own [] = own
or_default own (x ∷ xs) = x ∷ xs

unfoldable pub get_string_array_param : Fields → String → List String → List String
get_string_array_param params key own = elim (lookup key params) [
  | some (array xs) ↦ or_default own (texts_of xs)
  | _ ↦ own
]

-- "*" alone, where it is among the values.
abbrev pub collapse : List String → List String
collapse xs = if has_text "*" xs then "*" ∷ [] else xs

abbrev pub is_star : List String → Bool
is_star (x ∷ []) = str_eq x "*"
is_star _ = false

abbrev pub is_star_first : List String → Bool
is_star_first [] = false
is_star_first (x ∷ xs) = str_eq x "*"

abbrev pub is_true : Option Bool → Bool
is_true (some b) = b
is_true none = false

abbrev as_bool : Option Value → Option Bool
as_bool (some (bool b)) = some b
as_bool _ = none

abbrev as_age : FloatOps → Option Value → Option ℤ
as_age ops (some (int n)) = some n
as_age ops (some (float64 f)) = some (ops.to_int f)
as_age ops _ = none

module _ (ops : TextOps) where
  open ops use {Regexp}

  unfoldable pub subdomain_wildcard_pattern : String → Option String
  subdomain_wildcard_pattern origin = elim (ops.cut origin) [
    | none ↦ none
    | some (scheme, suffix) ↦
        if str_eq scheme "" || str_eq suffix ""
        then none
        else some (
            append (ops.quote_meta scheme)
              (append "://" (append "[^/:?#@]+" (append "\\." (ops.quote_meta suffix)))))
  ]

  abbrev anchored : String → String
  anchored pattern = append "\\A(?:" (append pattern ")\\z")

  unfoldable pub compile_allowed_origin : String → Outcome Regexp
  compile_allowed_origin origin = elim (subdomain_wildcard_pattern origin) [
    | some pattern ↦ ops.compile (anchored pattern)
    | none ↦ ops.compile (anchored (ops.quote_meta origin))
  ]

  -- The loop over the origins; the wildcard is passed over.
  unfoldable pub compile_origins : List String → Outcome (List Regexp)
  compile_origins [] = ok []
  compile_origins (o ∷ origins) =
      let rest = compile_origins origins in
      if str_eq o "*" then rest else elim (compile_allowed_origin o) [
        | ok r ↦ rest >>= (λ rs. ok (r ∷ rs))
        | err e ↦ err (append "invalid allowed origin " (append (ops.quote o) (append ": " e)))
        | panic ↦ panic
      ]

  -- The refusal of wildcards together with credentials.
  unfoldable pub credentials_error : CorsPolicy Regexp → Option String
  credentials_error p =
      if not (is_true p.allow_credentials)
      then none
      else if is_star p.allowed_origins
      then some "cannot have wildcard origin with allowCredentials set to true"
      else if is_star p.allowed_headers
      then some "cannot have wildcard headers with allowCredentials set to true"
      else if is_star p.allowed_methods
      then some "cannot have wildcard methods with allowCredentials set to true"
      else if is_star p.exposed_headers
      then some "cannot have wildcard exposed headers with allowCredentials set to true"
      else none

  -- The policy before its origins are compiled.
  unfoldable pub read_params : FloatOps → Fields → CorsPolicy Regexp
  read_params floats params = record {
    allowed_origins = collapse (get_string_array_param params "allowedOrigins" ("*" ∷ []));
    compiled_allowed_origins = [];
    allowed_methods =
        get_string_array_param params "allowedMethods"
          ("GET" ∷ "POST" ∷ "PUT" ∷ "DELETE" ∷ "OPTIONS" ∷ []);
    allowed_headers = collapse (get_string_array_param params "allowedHeaders" []);
    exposed_headers = get_string_array_param params "exposedHeaders" [];
    max_age = as_age floats (lookup "maxAge" params);
    allow_credentials = as_bool (lookup "allowCredentials" params);
    forward_preflight = is_true (as_bool (lookup "forwardPreflight" params));
  }

  unfoldable pub get_policy : FloatOps → Fields → Outcome (CorsPolicy Regexp)
  get_policy floats params =
      let p = read_params floats params in
      elim (credentials_error p) [
        | some e ↦ err e
        | none ↦ elim (compile_origins p.allowed_origins) [
          | ok rs ↦ ok (record p { compiled_allowed_origins = rs })
          | err e ↦ err e
          | panic ↦ panic
        ]
      ]
