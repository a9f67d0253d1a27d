-- ===== src/Cors.antt =====
-- policies/cors/cors.go: the policy and its two hooks. GetPolicy is in Cors/Setup.
pub mod Setup
pub mod Granting
pub mod Actual
pub mod Origins
pub mod Counting
pub mod Wildcards
use Prim.Native.String.{◌++◌ as append}
use text.Mathlib.Text.{◌==◌ as str_eq}
use gateway_controllers.Prelude.{
  ℕ, String, Bool, true, false, not, ◌&&◌, ◌||◌, ◌==◌, Option, none, some, List, [], ◌∷◌, ◌++◌,
  length, if◌then◌else◌,
}
use gateway_controllers.Prelude.Int.{ℤ}
use gateway_controllers.Prelude.Text.{format_int64, has_text}
use gateway_controllers.Prelude.Table.{Table, put}
use gateway_controllers.Limiter.{Outcome, ok, err, panic, ◌>>=◌}
use gateway_controllers.Value.{
  Value, Items, Fields, lookup, FloatOps, bool, int, float64, string, array, end, item,
}

pub record CorsPolicy (Regexp : Type 0) : Type 0 where
  pub allowed_origins : List String
  pub compiled_allowed_origins : List Regexp
  pub allowed_methods : List String
  pub allowed_headers : List String
  pub exposed_headers : List String
  pub max_age : Option ℤ
  pub allow_credentials : Option Bool
  pub forward_preflight : Bool

-- What the policy uses of Go's strings and regexp. `cut` is strings.Cut at the marker "://*.", and
-- `split` is strings.Split at commas; `quote` is the verb %q.
pub record TextOps : Type 1 where
  pub Regexp : Type 0
  pub compile : String → Outcome Regexp
  pub match_string : Regexp → String → Bool
  pub quote_meta : String → String
  pub cut : String → Option (String × String)
  pub equal_fold : String → String → Bool
  pub trim_space : String → String
  pub split : String → List String
  pub quote : String → String

-- The headers of the request as the client sent them: the values of a name, and whether it is there.
pub record Request : Type 0 where
  pub method : String
  pub values : String → List String
  pub has : String → Bool

-- The entries `cors_headers` and `cors_strip` of the metadata of a request.
pub record Notes : Type 0 where
  pub cors_headers : Option (Table String)
  pub cors_strip : Bool

-- An ImmediateResponse with status 204, or an UpstreamRequestHeaderModifications without changes.
pub data RequestAction : Type 0 where
  respond_204 : Table String → RequestAction
  forward : RequestAction

pub record ResponseAction : Type 0 where
  pub headers_to_set : Table String
  pub headers_to_remove : List String

abbrev pub allow_origin : String
allow_origin = "Access-Control-Allow-Origin"

abbrev pub allow_methods : String
allow_methods = "Access-Control-Allow-Methods"

abbrev pub allow_headers : String
allow_headers = "Access-Control-Allow-Headers"

abbrev pub allow_credentials_header : String
allow_credentials_header = "Access-Control-Allow-Credentials"

abbrev pub expose_headers : String
expose_headers = "Access-Control-Expose-Headers"

abbrev pub max_age_header : String
max_age_header = "Access-Control-Max-Age"

-- strings.Join(xs, ",")
unfoldable pub join : List String → String
join [] = ""
join (x ∷ []) = x
join (x ∷ y ∷ xs) = append x (append "," (join (y ∷ xs)))

-- fmt.Sprintf("%t", b)
abbrev pub format_bool : Bool → String
format_bool true = "true"
format_bool false = "false"

abbrev pub put_origin : Option (String × Bool) → Table String → Table String
put_origin none h = h
put_origin (some (o, varies)) h =
    if varies then put "Vary" "Origin" (put allow_origin o h) else put allow_origin o h

abbrev pub put_some : String → Option String → Table String → Table String
put_some k none h = h
put_some k (some v) h = put k v h

abbrev pub is_some : {A : Type 0} → Option A → Bool
is_some none = false
is_some (some a) = true

abbrev pub is_empty : List String → Bool
is_empty [] = true
is_empty (x ∷ xs) = false

abbrev pub age_text : Option ℤ → Option String
age_text none = none
age_text (some n) = some (format_int64 n)

abbrev pub credentials_text : Option Bool → Option String
credentials_text none = none
credentials_text (some b) = some (format_bool b)

module _ (ops : TextOps) where
  open ops use {Regexp}

  unfoldable pub is_origin_allowed : List Regexp → String → Bool
  is_origin_allowed [] origin = false
  is_origin_allowed (r ∷ rs) origin = ops.match_string r origin || is_origin_allowed rs origin

  -- The value for the allowed origin, if there is one, and whether it varies.
  abbrev pub granted_origin : CorsPolicy Regexp → List String → Option (String × Bool)
  granted_origin p origin = elim p.allowed_origins [
    | [] ↦ none
    | o ∷ os ↦ if str_eq o "*" then some ("*", false) else elim origin [
      | [] ↦ none
      | x ∷ xs ↦ if is_origin_allowed p.compiled_allowed_origins x then some (x, true) else none
    ]
  ]

  -- The value for the allowed methods, if there is one.
  unfoldable pub granted_methods : CorsPolicy Regexp → List String → Option String
  granted_methods p requested = elim p.allowed_methods [
    | [] ↦ none
    | m ∷ ms ↦ if str_eq m "*" then some "*" else elim requested [
      | [] ↦ none
      | x ∷ xs ↦ if has_text x (m ∷ ms) then some (join (m ∷ ms)) else none
    ]
  ]

  -- The two loops over the allowed and the requested headers.
  abbrev pub same_header : String → String → Bool
  same_header a r = ops.equal_fold (ops.trim_space a) (ops.trim_space r)

  unfoldable pub checked_for : String → List String → List String
  checked_for a [] = []
  checked_for a (r ∷ rs) = if same_header a r then a ∷ checked_for a rs else checked_for a rs

  unfoldable pub checked_headers : List String → List String → List String
  checked_headers [] rs = []
  checked_headers (a ∷ more) rs = checked_for a rs ++ checked_headers more rs

  -- The value for the allowed headers, if there is one, and whether they are allowed.
  unfoldable pub granted_headers : CorsPolicy Regexp → List String → Option String × Bool
  granted_headers p requested = elim p.allowed_headers [
    | [] ↦ (none, false)
    | a ∷ more ↦ elim requested [
      | [] ↦ (none, str_eq a "*")
      | x ∷ xs ↦
          if str_eq a "*"
          then (some x, true)
          else (let checked = checked_headers (a ∷ more) (ops.split x) in
              if length (ops.split x) == length checked
              then (some (join checked), true)
              else (none, false))
    ]
  ]

  -- handlePreflightHeaders.
  unfoldable pub handle_preflight_headers : CorsPolicy Regexp → Request → RequestAction
  handle_preflight_headers p req =
      let requested = req.values "Access-Control-Request-Headers" in
      let origin = granted_origin p (req.values "Origin") in
      let methods = granted_methods p (req.values "Access-Control-Request-Method") in
      let (headers, headers_allowed) = granted_headers p requested in
      if is_some origin && (is_some methods && (headers_allowed || is_empty requested))
      then respond_204 (
          put_some allow_credentials_header (credentials_text p.allow_credentials) (
            put_some max_age_header (age_text p.max_age) (
              put_some allow_headers headers
                (put_some allow_methods methods (put_origin origin [])))))
      else if p.forward_preflight
      then forward
      else respond_204 []

  -- handleNonPreflightHeaders.
  unfoldable pub handle_non_preflight_headers : CorsPolicy Regexp → Request → Option (Table String)
  handle_non_preflight_headers p req = elim (granted_origin p (req.values "Origin")) [
    | none ↦ none
    | some o ↦ some (
        put_some allow_credentials_header (credentials_text p.allow_credentials) (
          put_some expose_headers
            (if is_empty p.exposed_headers then none else some (join p.exposed_headers))
            (put_origin (some o) [])))
  ]

  unfoldable pub on_request_headers : CorsPolicy Regexp → Request → Notes → RequestAction × Notes
  on_request_headers p req notes =
      if ops.equal_fold req.method "options"
      then (handle_preflight_headers p req, notes)
      else elim (handle_non_preflight_headers p req) [
        | some h ↦ (forward, record notes { cors_headers = some h })
        | none ↦ (forward, if req.has "Origin" then record notes { cors_strip = true } else notes)
      ]

abbrev pub unchanged : ResponseAction
unchanged = record { headers_to_set = []; headers_to_remove = [] }

unfoldable pub on_response_headers : Notes → ResponseAction
on_response_headers notes = elim notes.cors_headers [
  | some h ↦ record { headers_to_set = h; headers_to_remove = [] }
  | none ↦
      if notes.cors_strip
      then record {
        headers_to_set = [];
        headers_to_remove = allow_origin ∷ allow_credentials_header ∷ expose_headers ∷ [];
      }
      else unchanged
]
