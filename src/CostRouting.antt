-- ===== src/CostRouting.antt =====
-- policies/cost-based-model-routing/costbasedmodelrouting.go and budget.go: the budget of a route,
-- the choice of a route for a requested model, and the charge after the response. A budget is a
-- limiter of the interface `Multi.Limiter`, so the memory limiters of the repository fit.
pub mod Scan
pub mod Choice
pub mod Checked
pub mod Explained
pub mod Charging
pub mod Parsing
pub mod Parsed
pub mod Unique
pub mod Requests
pub mod Journey
pub mod Once
pub mod Spending
pub mod Sharing
use text.Mathlib.Text.{◌==◌ as str_eq}
use gateway_controllers.Prelude.{
  ℕ, suc, String, Bool, true, false, not, ◌&&◌, ◌||◌, ◌==◌, Option, none, some, List, [], ◌∷◌,
  if◌then◌else◌, get_elem?,
}
use gateway_controllers.Prelude.Int.{ℤ, pos, negsuc, le_ℤ, lt_ℤ}
use gateway_controllers.Limiter.{Duration, Outcome, ok, err, panic, Map, put, delete, max_int64}
use gateway_controllers.Value.{Value, bool, int, int64, float64, string}
use gateway_controllers.Multi.{Limiter}

pub data BudgetState : Type 0 where
  available exhausted unknown : BudgetState

pub record Target : Type 0 where
  pub model : String
  pub provider : String

-- `amount` holds the bits of the float.
pub record BudgetLimit : Type 0 where
  pub amount : ℕ
  pub duration : Duration
  pub scaled : ℤ

-- `pattern` is there for a wildcard budget only. The specificity is the length of a text.
pub record CostRoute (Pattern : Type 0) : Type 0 where
  pub name : String
  pub target : Target
  pub pattern : Option Pattern
  pub specificity : ℕ
  pub budget_limits : List BudgetLimit

pub record Config (Pattern : Type 0) : Type 0 where
  pub routes : List (CostRoute Pattern)
  pub fallback : Option Target
  pub on_exhausted : String
  pub cost_scale_factor : ℤ

-- A routeBudget with the state of its store's limiter.
pub record RouteBudget (State : Type 0) : Type 0 where
  pub store : State
  pub fail_open : Bool
  pub namespace : String

-- GetPolicy makes one budget for each route, in order. It sets the legacy fields `budget` and
-- `budgetNamespace` to those of the first budget, so they are not kept apart.
pub record Policy (Pattern State : Type 0) : Type 0 where
  pub config : Config Pattern
  pub budgets : List (RouteBudget State)

pub record Selection : Type 0 where
  pub target : Target
  pub route_name : String
  pub tier : String
  pub budget_index : ℕ
  pub budget_key : String
  pub state : BudgetState
  pub units : ℤ

-- A selection, an ImmediateResponse of this status and message, or a run-time panic.
pub data Decision : Type 0 where
  selected : Selection → Decision
  respond : ℕ → String → Decision
  crash : Decision

-- What the policy uses of Go's strings and regexp.
pub record Texts : Type 1 where
  pub Pattern : Type 0
  pub match_string : Pattern → String → Bool
  pub contains : String → String → Bool
  pub trim_space : String → String

-- What the policy uses of Go's float64, on its bits; `of_float32` is the `float64(v)` of a float32,
-- `scale` is `cost * float64(factor)`, and `above_max` is `>= float64(math.MaxInt64)`.
pub record CostOps : Type 0 where
  pub parse_float : String → Option ℕ
  pub of_int : ℤ → ℕ
  pub of_float32 : ℕ → ℕ
  pub is_nan : ℕ → Bool
  pub is_inf : ℕ → Bool
  pub is_negative : ℕ → Bool
  pub is_zero : ℕ → Bool
  pub scale : ℕ → ℤ → ℕ
  pub above_max : ℕ → Bool
  pub to_int64 : ℕ → ℤ

-- The indices that the loop of selectTarget finds; `none` is the source's -1.
pub record Indices : Type 0 where
  pub requested : Option ℕ
  pub wildcard : Option ℕ
  pub fallback : Option ℕ
  pub best_specificity : ℤ

abbrev pub no_indices : Indices
no_indices = record {
  requested = none;
  wildcard = none;
  fallback = none;
  best_specificity = negsuc 0;
}

abbrev pub target_or : Target → Option Target → Target
target_or own none = own
target_or own (some t) = t

abbrev pub is_index : ℕ → Option ℕ → Bool
is_index f none = false
is_index f (some i) = f == i

abbrev pub is_model : String → Option Target → Bool
is_model m none = false
is_model m (some t) = str_eq m t.model

module _ (texts : Texts) where
  unfoldable pub is_pattern_model : String → Bool
  is_pattern_model model = texts.contains model "*" || str_eq model "other"

  -- A name that a wildcard budget may take.
  abbrev pub is_plain : String → Bool
  is_plain model = not (str_eq model "") && not (is_pattern_model model)

  -- One round of the loop.
  unfoldable pub note_route :
      Option Target → String → ℕ → CostRoute texts.Pattern → Indices → Indices
  note_route fallback model i route ix = elim route.pattern [
    | some p ↦
        if is_plain model
          && texts.match_string p model
          && lt_ℤ ix.best_specificity (pos route.specificity)
        then record ix { wildcard = some i; best_specificity = pos route.specificity }
        else ix
    | none ↦ record ix {
      requested = if str_eq route.target.model model then some i else ix.requested;
      fallback = if is_model route.target.model fallback then some i else ix.fallback;
    }
  ]

  unfoldable pub find_indices :
      Option Target → String → ℕ → List (CostRoute texts.Pattern) → Indices → Indices
  find_indices fallback model i [] ix = ix
  find_indices fallback model i (route ∷ routes) ix =
      find_indices fallback model (suc i) routes (note_route fallback model i route ix)

abbrev pub exhausted_response : Decision
exhausted_response =
    respond 429
      "requested model has no available budget or the fallback budget is missing or exhausted"

abbrev pub unavailable_response : Decision
unavailable_response = respond 503 "budget state is unavailable"

abbrev pub with_tier : String → Decision → Decision
with_tier tier (selected s) = selected (record s { tier = tier })
with_tier tier (respond status message) = respond status message
with_tier tier crash = crash

-- A decision stands unless it is a selection of an exhausted budget.
abbrev pub or_else : Decision → Decision → Decision
or_else (selected s) next = elim s.state [
  | exhausted ↦ next
  | available ↦ selected s
  | unknown ↦ selected s
]
or_else (respond status message) next = respond status message
or_else crash next = crash

module _ (L : Limiter) where
  open L use {State, Env}

  -- budgetStore.Query. An error stands for the state `budgetUnknown`, 0 and the error.
  unfoldable pub query : Env → String → State → Outcome (BudgetState × ℤ)
  query env key s = elim (L.get_available env key s) [
    | ok a ↦ ok (if le_ℤ a (pos 0) then exhausted else available, a)
    | err e ↦ err e
    | panic ↦ panic
  ]

  -- budgetStore.Charge: the state of the limiter after it, and the error if there is one.
  unfoldable pub charge : Env → String → ℤ → State → Outcome (Unit {0}) × State
  charge env key n s =
      if le_ℤ n (pos 0)
      then (ok tt, s)
      else if L.tracks_cost s
      then (let (o, s') = L.consume_n env key n s in
          (elim o [ ok r ↦ ok tt | err e ↦ err e | panic ↦ panic ], s'))
      else (err "budget storage does not support post-response cost tracking", s)

  -- What checkBudget makes of the answer of the store. A selection has the tier of its route.
  unfoldable pub judge :
      String → Target → ℕ → RouteBudget State → Outcome (BudgetState × ℤ) → Decision
  judge name t i b (ok (state, units)) = selected (record {
    target = t;
    route_name = name;
    tier = name;
    budget_index = i;
    budget_key = b.namespace;
    state = state;
    units = units;
  })
  judge name t i b (err e) =
      if b.fail_open
      then selected (record {
        target = t;
        route_name = name;
        tier = name;
        budget_index = i;
        budget_key = b.namespace;
        state = unknown;
        units = pos 0;
      })
      else unavailable_response
  judge name t i b panic = crash

  module _ (texts : Texts) (env : ℕ → Env) (p : Policy texts.Pattern State) where
    -- checkBudget of the route at an index, with its own target where none is given. The store of
    -- the budget at `i` is asked in the environment `env i`.
    unfoldable pub check_budget : ℕ → Option Target → Decision
    check_budget i t = elim (get_elem? p.config.routes i) [
      | none ↦ crash
      | some route ↦ elim (get_elem? p.budgets i) [
        | none ↦ crash
        | some b ↦
            judge route.name (target_or route.target t) i b (query (env i) b.namespace b.store)
      ]
    ]

    -- The part of selectTarget from the test of onExhausted on.
    unfoldable pub try_fallback : Indices → Decision
    try_fallback ix =
        if str_eq p.config.on_exhausted "reject"
        then exhausted_response
        else elim p.config.fallback [
          | none ↦ exhausted_response
          | some t ↦ elim ix.fallback [
            | none ↦ exhausted_response
            | some f ↦
                if is_index f ix.requested
                then exhausted_response
                else or_else (with_tier "fallback" (check_budget f (some t))) exhausted_response
          ]
        ]

    unfoldable pub try_wildcard : String → Indices → Decision
    try_wildcard model ix = elim ix.wildcard [
      | none ↦ try_fallback ix
      | some w ↦
          if is_plain texts model
          then or_else
              (with_tier "wildcard"
                (check_budget w (some (record { model = model; provider = "" }))))
              (try_fallback ix)
          else try_fallback ix
    ]

    unfoldable pub try_requested : String → Indices → Decision
    try_requested model ix = elim ix.requested [
      | some r ↦ or_else (check_budget r none) (try_fallback ix)
      | none ↦ try_wildcard model ix
    ]

    unfoldable pub select_target : String → Decision
    select_target model =
        try_requested model
          (find_indices texts p.config.fallback model 0 p.config.routes no_indices)
