-- ===== src/Routing.antt =====
-- What policies/model-round-robin and policies/model-weighted-round-robin share: the two packages
-- repeat this text, and the constants differ in their prefix. The source of the definitions is
-- policies/model-round-robin/roundrobin.go.
pub mod Parsing
pub mod Suspension
pub mod Parsed
use Prim.Native.String.{◌++◌ as append}
use text.Mathlib.Text.{◌==◌ as str_eq}
use gateway_controllers.Prelude.{
  ℕ, ◌-◌, String, Bool, true, false, not, ◌&&◌, ◌||◌, ltb, ◌==◌, Option, none, some, List, [], ◌∷◌,
  if◌then◌else◌, get_elem?,
}
use gateway_controllers.Prelude.Int.{ℤ, pos, le_ℤ, lt_ℤ, eq_ℤ, mul64}
use gateway_controllers.Limiter.{Instant, Map, put, second, time_add}
use gateway_controllers.Value.{Value, string, bool}

-- The key of a provider and a model in the map of the suspended ones.
unfoldable pub suspension_key : String → String → String
suspension_key provider model = append provider (append "\0" model)

pub record RequestModel : Type 0 where
  pub location : String
  pub identifier : String

-- The parts of a policy.RequestHeaderContext that the policies use: the metadata, which is never a
-- nil map, the path, and the values of a header as the client sent it, if there are headers.
pub record RequestHeaders : Type 0 where
  pub metadata : Map Value
  pub path : String
  pub downstream : Option (String → List String)

pub record HeaderChanges : Type 0 where
  pub upstream_name : Option String
  pub headers_to_set : List (String × String)
  pub new_path : Option String

-- A policy.ImmediateResponse with its status and body, or modifications of the request.
pub data HeaderAction : Type 0 where
  respond : ℕ → String → HeaderAction
  modify : HeaderChanges → HeaderAction

-- What the policies use of Go's net/url, strings and regexp.
pub record Paths : Type 1 where
  pub Query : Type 0
  pub Pattern : Type 0
  pub path_unescape : String → Option String
  -- strings.Split(s, "?")
  pub split : String → List String
  pub parse_query : String → Option Query
  pub no_query : Query
  pub set : String → String → Query → Query
  pub encode : Query → String
  pub compile : String → Option Pattern
  pub find_submatch_index : Pattern → String → List ℤ
  -- s[:i] and s[i:]
  pub before : String → ℤ → String
  pub from : String → ℤ → String

abbrev first_part : List String → String
first_part [] = ""
first_part (x ∷ xs) = x

-- The part behind the "?" of two parts.
abbrev second_part : List String → Option String
second_part (x ∷ y ∷ []) = some y
second_part _ = none

module _ (paths : Paths) where
  open paths use {Query}

  abbrev query_of : Option String → Option Query
  query_of none = some paths.no_query
  query_of (some q) = paths.parse_query q

  -- modifyQueryParamInPath.
  unfoldable pub modify_query_param_in_path : String → String → String → String
  modify_query_param_in_path raw_path name new_model =
      if str_eq raw_path "" then raw_path else elim (paths.path_unescape raw_path) [
        | none ↦ raw_path
        | some decoded ↦
            let parts = paths.split decoded in
            elim (query_of (second_part parts)) [
              | none ↦ raw_path
              | some q ↦
                  append (first_part parts) (append "?" (paths.encode (paths.set name new_model q)))
            ]
      ]

  -- The indices of the first group, where it took part in the match.
  abbrev group_of : List ℤ → Option (ℤ × ℤ)
  group_of (a ∷ b ∷ c ∷ d ∷ rest) =
      if eq_ℤ c (ℤ.negsuc 0) || eq_ℤ d (ℤ.negsuc 0) then none else some (c, d)
  group_of _ = none

  abbrev with_query : String → Option String → String
  with_query path none = path
  with_query path (some q) = if str_eq q "" then path else append path (append "?" q)

  -- modifyPathParamInPath.
  unfoldable pub modify_path_param_in_path : String → String → String → String
  modify_path_param_in_path raw_path pattern new_model =
      if str_eq raw_path "" then raw_path else elim (paths.path_unescape raw_path) [
        | none ↦ raw_path
        | some decoded ↦
            let parts = paths.split decoded in
            let path = first_part parts in
            elim (paths.compile pattern) [
              | none ↦ raw_path
              | some re ↦ elim (group_of (paths.find_submatch_index re path)) [
                | none ↦ raw_path
                | some found ↦
                    with_query
                      (append (paths.before path found.0)
                        (append new_model (paths.from path found.1)))
                      (second_part parts)
              ]
            ]
      ]

  abbrev changed_path : String → String → Option String
  changed_path old new = if str_eq new old then none else some new

  -- The switch on the location.
  unfoldable pub changes : RequestModel → String → RequestHeaders → HeaderChanges → HeaderChanges
  changes r model req mods =
      if str_eq r.location "header"
      then record mods { headers_to_set = (r.identifier, model) ∷ [] }
      else if str_eq r.location "queryParam"
      then record mods {
        new_path = changed_path req.path (modify_query_param_in_path req.path r.identifier model);
      }
      else if str_eq r.location "pathParam"
      then record mods {
        new_path = changed_path req.path (modify_path_param_in_path req.path r.identifier model);
      }
      else mods

-- The model that the client asked for in the header.
abbrev original_model : RequestModel → RequestHeaders → Option String
original_model r req =
    if str_eq r.location "header"
    then (elim req.downstream [
      | none ↦ none
      | some values ↦ elim (values r.identifier) [
        | [] ↦ none
        | v ∷ rest ↦ if str_eq v "" then none else some v
      ]
    ])
    else none

abbrev unavailable : HeaderAction
unavailable = respond 503 "{\"error\": \"All models are currently unavailable\"}"

abbrev pub selected_model : String → String
selected_model prefix = append prefix ".selected_model"

abbrev pub selected_provider : String → String
selected_provider prefix = append prefix ".selected_provider"

abbrev put_some : String → Option String → Map Value → Map Value
put_some k none m = m
put_some k (some v) m = put k (string v) m

-- The metadata that OnRequestHeaders records for a model and a provider.
unfoldable pub record_selection :
    String → RequestModel → String → String → RequestHeaders → Map Value
record_selection prefix r model provider req =
    put_some (append prefix ".original_model") (original_model r req) (
      put_some "selected_provider" (if str_eq provider "" then none else some provider) (
        put (append prefix ".headers_processed") (bool true) (
          put (selected_provider prefix) (string provider)
            (put (selected_model prefix) (string model) req.metadata))))

-- OnRequestHeaders behind the selection of a model and a provider.
unfoldable pub route :
    Paths
    → String
    → RequestModel
    → Option (String × String)
    → RequestHeaders
    → HeaderAction × Map Value
route paths prefix r none req = (unavailable, req.metadata)
route paths prefix r (some (model, provider)) req = (
  modify (
      changes paths r model req (record {
        upstream_name = if str_eq provider "" then none else some provider;
        headers_to_set = [];
        new_path = none;
      })),
  record_selection prefix r model provider req,
)

abbrev text_of : Option Value → String
text_of (some (string s)) = s
text_of _ = ""

-- OnResponseHeaders: the suspended models after a response of this status at this instant.
unfoldable pub on_response_headers :
    String → ℤ → Instant → ℤ → Map Value → Map Instant → Map Instant
on_response_headers prefix suspend_duration now status metadata suspended =
    let model = text_of (metadata (selected_model prefix)) in
    let provider = text_of (metadata (selected_provider prefix)) in
    if le_ℤ (pos 500) status || eq_ℤ status (pos 429)
    then (if lt_ℤ (pos 0) suspend_duration && not (str_eq model "")
        then put (suspension_key provider model) (time_add now (mul64 suspend_duration second))
            suspended
        else suspended)
    else suspended

-- Whether a model is suspended at an instant.
abbrev pub is_suspended : Instant → Map Instant → String → String → Bool
is_suspended now suspended provider model = elim (suspended (suspension_key provider model)) [
  | none ↦ false
  | some until ↦ lt_ℤ now until
]
