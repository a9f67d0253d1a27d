-- ===== src/Tests/CorsRuns.antt =====
-- The CORS policy at concrete parameters and requests.
use Prim.Native.String.{◌++◌ as append}
use text.Mathlib.Text.{◌==◌ as str_eq}
use gateway_controllers.Prelude.{
  ◌≡◌, refl, ◌↔◌, ◌⊎◌, String, true, false, none, some, List, [], ◌∷◌, arith, if◌then◌else◌,
}
use gateway_controllers.Prelude.Int.{pos}
use gateway_controllers.Prelude.Table.{Table, get, put, delete}
use gateway_controllers.Limiter.{ok}
use gateway_controllers.Value.{
  Fields, FloatOps, Items, string, bool, array, end, item, empty, field,
}
use gateway_controllers.Prelude.Text.{has_text}
use gateway_controllers.Cors.{
  CorsPolicy, TextOps, Request, Notes, allow_origin, allow_methods, allow_credentials_header,
  is_origin_allowed, on_request_headers, on_response_headers, handle_preflight_headers,
  granted_methods, granted_headers, checked_headers, checked_for, join, respond_204,
}
use gateway_controllers.Cors.Setup.{
  get_policy, read_params, credentials_error, compile_origins, compile_allowed_origin,
  subdomain_wildcard_pattern, get_string_array_param,
}
use gateway_controllers.Cors.Origins.{preflight, credentialed_origin_is_own, actual_request_lem}
use gateway_controllers.Cors.Wildcards.{wildcard_methods_pass}
use gateway_controllers.Cors.Actual.{IsGiven, stripped}
use gateway_controllers.Cors.Counting.{
  AllListed, is_listed, granted_headers_iff, repeated_header_passes,
}

-- A compiled expression is its text, and it matches the one origin that it quotes.
abbrev ops : TextOps
ops = record {
  Regexp = String;
  compile = λ s. ok s;
  match_string = λ r s. str_eq r (append "\\A(?:" (append s ")\\z"));
  quote_meta = λ s. s;
  cut = λ s. none;
  equal_fold = λ s t. str_eq s t;
  trim_space = λ s. s;
  split = λ s. if str_eq s "x,b" then "x" ∷ "b" ∷ [] else s ∷ [];
  quote = λ s. s;
}

abbrev floats : FloatOps
floats = record { to_int = λ b. pos b; of_int = λ n. 0; same = λ a b. true; show = λ b. "" }

abbrev params : Fields
params = field "allowedOrigins" (array (item (string "https://a.com") end)) (
    field "allowedHeaders" (array (item (string "x") end))
      (field "allowCredentials" (bool true) empty))

abbrev policy : CorsPolicy String
policy = record {
  allowed_origins = "https://a.com" ∷ [];
  compiled_allowed_origins = "\\A(?:https://a.com)\\z" ∷ [];
  allowed_methods = "GET" ∷ "POST" ∷ "PUT" ∷ "DELETE" ∷ "OPTIONS" ∷ [];
  allowed_headers = "x" ∷ [];
  exposed_headers = [];
  max_age = none;
  allow_credentials = some true;
  forward_preflight = false;
}

policy_is_made : get_policy ops floats params ≡ ok policy
unfolding get_policy read_params credentials_error compile_origins compile_allowed_origin
    subdomain_wildcard_pattern get_string_array_param has_text
policy_is_made = refl

abbrev values : String → String → List String
values method name =
    if str_eq name "Origin"
    then "https://a.com" ∷ []
    else if str_eq name "Access-Control-Request-Method"
    then "GET" ∷ []
    else if str_eq name "Access-Control-Request-Headers"
    then "x" ∷ []
    else []

abbrev request : String → Request
request m = record { method = m; values = values m; has = λ name. str_eq name "Origin" }

abbrev granted : Table String
granted = put allow_credentials_header "true" (
    put "Access-Control-Allow-Headers" "x" (
      put allow_methods "GET,POST,PUT,DELETE,OPTIONS"
        (put "Vary" "Origin" (put allow_origin "https://a.com" []))))

request_is_granted : handle_preflight_headers ops policy (request "OPTIONS") ≡ respond_204 granted
unfolding handle_preflight_headers granted_methods granted_headers checked_headers checked_for join
    has_text is_origin_allowed put delete
request_is_granted = refl

origin_is_named : get granted allow_origin ≡ some "https://a.com"
unfolding get put delete
origin_is_named = refl

credentialed_origin_is_own_example :
    (rest : List String) × (values "OPTIONS" "Origin" ≡ "https://a.com" ∷ rest)
    × (is_origin_allowed ops policy.compiled_allowed_origins "https://a.com" ≡ true)
credentialed_origin_is_own_example =
    credentialed_origin_is_own ops floats params policy (request "OPTIONS") granted "https://a.com"
      policy_is_made refl (preflight request_is_granted) origin_is_named

abbrev fresh : Notes
fresh = record { cors_headers = none; cors_strip = false }

actual_request_lem_example :
    let r = on_response_headers (on_request_headers ops policy (request "GET") fresh).1 in
    ((is_origin_allowed ops policy.compiled_allowed_origins "https://a.com" ≡ true)
      × IsGiven policy "https://a.com" r.headers_to_set
      × (r.headers_to_remove ≡ []))
    ⊎ ((is_origin_allowed ops policy.compiled_allowed_origins "https://a.com" ≡ false)
        × (r ≡ stripped))
actual_request_lem_example =
    actual_request_lem ops policy (request "GET") fresh "https://a.com" [] "https://a.com" [] refl
      refl refl refl refl refl

abbrev any_methods : Items
any_methods = item (string "*") (item (string "GET") end)

-- The parameters from above, with a wildcard before a method.
abbrev any_params : Fields
any_params = field "allowedMethods" (array any_methods) params

abbrev patterns : List String
patterns = "\\A(?:https://a.com)\\z" ∷ []

patterns_compile :
    compile_origins ops (read_params ops floats any_params).allowed_origins ≡ ok patterns
unfolding read_params get_string_array_param has_text compile_origins compile_allowed_origin
    subdomain_wildcard_pattern
patterns_compile = refl

wildcard_methods_pass_example :
    (p : CorsPolicy String) × (get_policy ops floats any_params ≡ ok p)
    × ((h : Table String) × (handle_preflight_headers ops p (request "DELETE") ≡ respond_204 h)
        × (get h allow_methods ≡ some "*")
        × (get h allow_credentials_header ≡ some "true"))
unfolding read_params get_string_array_param has_text is_origin_allowed granted_headers
    checked_headers checked_for
wildcard_methods_pass_example =
    wildcard_methods_pass ops floats any_params any_methods "GET" [] refl refl refl patterns
      (request "DELETE") refl refl refl patterns_compile refl refl

granted_headers_iff_example :
    ((granted_headers ops policy ("x,b" ∷ [])).1 ≡ true) ↔ AllListed ops ("x" ∷ []) ("x" ∷ "b" ∷ [])
granted_headers_iff_example = granted_headers_iff ops policy "x" [] "x,b" [] refl refl (omega arith)

abbrev twice : CorsPolicy String
twice = record policy { allowed_headers = "x" ∷ "x" ∷ [] }

repeated_header_passes_run :
    (is_listed ops ("x" ∷ "x" ∷ []) "b" ≡ false)
    × ((granted_headers ops twice ("x,b" ∷ [])).1 ≡ true)
repeated_header_passes_run =
    repeated_header_passes ops twice "x" "x" "x,b" "x" "b" [] refl refl refl refl refl refl refl
