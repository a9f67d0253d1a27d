-- ===== src/CostRouting/Requests.antt =====
-- OnRequestHeaders of policies/cost-based-model-routing/costbasedmodelrouting.go, with the reading of
-- the requested model and the rewriting of the path.
use Prim.Native.String.{◌++◌ as append}
use text.Mathlib.Text.{◌==◌ as str_eq}
use gateway_controllers.Prelude.{
  ℕ, ◌+◌, ◌*◌, String, ◌||◌, Option, none, some, List, [], ◌∷◌, get_elem?, if◌then◌else◌,
}
use gateway_controllers.Prelude.Int.{ℤ, pos, lt_ℤ}
use gateway_controllers.Limiter.{Map}
use gateway_controllers.Value.{Value}
use gateway_controllers.Multi.{Limiter}
use gateway_controllers.CostRouting.{
  Texts, Policy, Selection, selected, respond, crash, select_target,
}
use gateway_controllers.CostRouting.Charging.{record_selection, apply_provider_routing}

-- What the hook uses of Go's net/url, strings and regexp: `split_query` is strings.SplitN(s, "?", 2),
-- `query` is Uri.Query, and `slice` is s[i:j].
pub record PathOps : Type 1 where
  pub Uri : Type 0
  pub Query : Type 0
  pub Expression : Type 0
  pub parse_request_uri : String → Option Uri
  pub query : Uri → Query
  pub raw_query : Uri → String
  pub parse_query : String → Option Query
  pub query_get : String → Query → String
  pub query_set : String → String → Query → Query
  pub encode : Query → String
  pub with_query : String → Uri → Uri
  pub request_uri : Uri → String
  pub split_query : String → String × Option String
  pub find_submatch_index : Expression → String → List ℤ
  pub slice : String → ℤ → ℤ → String
  pub before : String → ℤ → String
  pub from : String → ℤ → String

pub record RequestModelConfig (Expression : Type 0) : Type 0 where
  pub location : String
  pub identifier : String
  pub path_expression : Option Expression
  pub path_model_group : ℕ

-- The path, and the values of a header if there are headers.
pub record RequestHeaders : Type 0 where
  pub path : String
  pub headers : Option (String → List String)

-- An UpstreamRequestHeaderModifications.
pub record Changes : Type 0 where
  pub headers_to_set : Option (String × String)
  pub new_path : Option String
  pub upstream_name : Option String

pub data HeaderAction : Type 0 where
  modify : Changes → HeaderAction
  refuse : ℕ → String → HeaderAction
  panics : HeaderAction

abbrev pub no_changes : Changes
no_changes = record { headers_to_set = none; new_path = none; upstream_name = none }

abbrev pub first_value : List String → Option String
first_value [] = none
first_value (x ∷ xs) = some x

module _ (paths : PathOps) where
  open paths use {Expression}

  -- The indices of a group, where it took part in the match.
  abbrev pub group_at : Option ℤ → Option ℤ → Option (ℤ × ℤ)
  group_at (some i) (some j) = if lt_ℤ i (pos 0) || lt_ℤ j (pos 0) then none else some (i, j)
  group_at _ _ = none

  unfoldable pub model_from_path : String → Option Expression → ℕ → Option (String × ℤ × ℤ)
  model_from_path raw none group = none
  model_from_path raw (some e) group =
      let path = (paths.split_query raw).0 in
      let indices = paths.find_submatch_index e path in
      elim (group_at (get_elem? indices (group * 2)) (get_elem? indices (group * 2 + 1))) [
        | none ↦ none
        | some found ↦ some (paths.slice path found.0 found.1, found.0, found.1)
      ]

  unfoldable pub rewrite_path_parameter : String → Option Expression → ℕ → String → Option String
  rewrite_path_parameter raw e group model = elim (model_from_path raw e group) [
    | none ↦ none
    | some (original, i, j) ↦
        if str_eq original ""
        then none
        else (let path = (paths.split_query raw).0 in
            let updated = append (paths.before path i) (append model (paths.from path j)) in
            some (elim (paths.split_query raw).1 [
              | none ↦ updated
              | some q ↦ append updated (append "?" q)
            ]))
  ]

  unfoldable pub rewrite_query_parameter : String → String → String → Option String
  rewrite_query_parameter raw name model = elim (paths.parse_request_uri raw) [
    | none ↦ none
    | some uri ↦ elim (paths.parse_query (paths.raw_query uri)) [
      | none ↦ none
      | some q ↦
          some
            (paths.request_uri (paths.with_query (paths.encode (paths.query_set name model q)) uri))
    ]
  ]

  abbrev first_of_path : Option (String × ℤ × ℤ) → String
  first_of_path none = ""
  first_of_path (some (model, i, j)) = model

  abbrev query_model : String → Option paths.Uri → Option String
  query_model name none = none
  query_model name (some uri) = some (paths.query_get name (paths.query uri))

  abbrev header_model : String → Option (String → List String) → Option String
  header_model name none = none
  header_model name (some values) = first_value (values name)

  abbrev trim_or_empty : Texts → Option String → String
  trim_or_empty texts none = ""
  trim_or_empty texts (some s) = texts.trim_space s

  unfoldable pub requested_model_from_headers :
      Texts → RequestModelConfig Expression → RequestHeaders → String
  requested_model_from_headers texts c req =
      if str_eq c.location "header"
      then trim_or_empty texts (header_model c.identifier req.headers)
      else if str_eq c.location "queryParam"
      then trim_or_empty texts (query_model c.identifier (paths.parse_request_uri req.path))
      else if str_eq c.location "pathParam"
      then texts.trim_space
          (first_of_path (model_from_path req.path c.path_expression c.path_model_group))
      else ""

  abbrev with_path : Option String → Option Changes
  with_path none = none
  with_path (some path) = some (record no_changes { new_path = some path })

  -- The changes that name the model, if the path can be rewritten.
  unfoldable pub rewrite_model :
      RequestModelConfig Expression → RequestHeaders → String → Option Changes
  rewrite_model c req model =
      if str_eq c.location "header"
      then some (record no_changes { headers_to_set = some (c.identifier, model) })
      else if str_eq c.location "queryParam"
      then with_path (rewrite_query_parameter req.path c.identifier model)
      else if str_eq c.location "pathParam"
      then with_path (rewrite_path_parameter req.path c.path_expression c.path_model_group model)
      else some no_changes

  -- The message of the answer 400.
  abbrev bad_path : RequestModelConfig Expression → String
  bad_path c =
      if str_eq c.location "queryParam"
      then append "request path could not be rewritten for model query parameter '"
          (append c.identifier "'")
      else append "model path expression '" (append c.identifier "' did not match the request")

  module _ (L : Limiter) (texts : Texts) (env : ℕ → L.Env) (p : Policy texts.Pattern L.State) where
    unfoldable pub route_selection :
        RequestModelConfig Expression
        → RequestHeaders
        → Map Value
        → Selection
        → HeaderAction × Map Value
    route_selection c req m s = elim (rewrite_model c req s.target.model) [
      | none ↦ (refuse 400 (bad_path c), m)
      | some changes ↦
          let (upstream, m') = apply_provider_routing s.target (record_selection s m) in
          (modify (record changes { upstream_name = upstream }), m')
    ]

    unfoldable pub on_request_headers :
        RequestModelConfig Expression → RequestHeaders → Map Value → HeaderAction × Map Value
    on_request_headers c req m =
        if str_eq c.location "payload"
        then (modify no_changes, m)
        else elim (select_target L texts env p (requested_model_from_headers texts c req)) [
          | selected s ↦ route_selection c req m s
          | respond status message ↦ (refuse status message, m)
          | crash ↦ (panics, m)
        ]
