-- ===== src/CostRouting/Choice.antt =====
-- The decision of selectTarget, for every answer of the stores.
use text.Mathlib.Text.{◌==◌ as str_eq}
use gateway_controllers.Prelude.{
  ℕ, ◌≤◌, ◌≡◌, ◌≢◌, ◌⊎◌, String, true, false, some, length, get_elem?,
}
use gateway_controllers.Prelude.Int.{ℤ}
use gateway_controllers.Limiter.{Outcome, ok, err, panic}
use gateway_controllers.Multi.{Limiter}
use gateway_controllers.CostRouting.{
  CostRoute, Texts, Policy, RouteBudget, Selection, BudgetState, available, exhausted, unknown,
  Decision, selected, query, exhausted_response, unavailable_response,
}
use gateway_controllers.CostRouting.Scan.{IsExact, IsFallback, Takes}

-- A state that a request may be sent under.
abbrev pub IsOpen : BudgetState → Type 0
IsOpen available = Unit {0}
IsOpen unknown = Unit {0}
IsOpen exhausted = ⊥

module _ (L : Limiter) (texts : Texts) (env : ℕ → L.Env) (p : Policy texts.Pattern L.State) where
  abbrev Route : Type 0
  Route = CostRoute texts.Pattern

  abbrev Budget : Type 0
  Budget = RouteBudget L.State

  -- What the store of the budget `b` at the index `i` answers.
  abbrev pub answer : ℕ → Budget → Outcome (BudgetState × ℤ)
  answer i b = query L (env i) b.namespace b.store

  -- The budget at an index has no units left.
  pub record IsSpent (i : ℕ) : Type 0 where
    pub budget : Budget
    pub at_index : get_elem? p.budgets i ≡ some budget
    pub units : ℤ
    pub answered : answer i budget ≡ ok (exhausted, units)

  -- The store at an index answers with an error, and its failure mode is closed.
  pub record IsClosed (i : ℕ) : Type 0 where
    pub budget : Budget
    pub at_index : get_elem? p.budgets i ≡ some budget
    pub message : String
    pub answered : answer i budget ≡ err message
    pub closed : budget.fail_open ≡ false

  -- A selection names the budget that was asked, which has units left; or its store could not
  -- answer and fails open.
  pub record IsBacked (s : Selection) : Type 0 where
    pub budget : Budget
    pub at_index : get_elem? p.budgets s.budget_index ≡ some budget
    pub key : s.budget_key ≡ budget.namespace
    pub answered :
        ((answer s.budget_index budget ≡ ok (available, s.units)) × (s.state ≡ available))
        ⊎ ((e : String) × (answer s.budget_index budget ≡ err e)
            × (budget.fail_open ≡ true)
            × (s.state ≡ unknown))

  -- What a policy of GetPolicy has, with limiters that do not panic.
  pub record IsReady : Type 0 where
    pub same_length : length p.budgets ≡ length p.config.routes
    pub answers : (i : ℕ) (b : Budget) → get_elem? p.budgets i ≡ some b → answer i b ≢ panic

  -- Why a selection may be made for a model: its own budget, the wildcard budget that takes it most
  -- closely where no route lists it, or the configured fallback.
  pub data Reason (model : String) (s : Selection) (route : Route) : Type 0 where
    own : IsExact model route → s.target ≡ route.target → Reason model s route
    by_wildcard :
        Takes texts model route
        → s.target ≡ record { model = model; provider = "" }
        → ((k : ℕ) (r : Route) → get_elem? p.config.routes k ≡ some r → ¬ (IsExact model r))
        → ((k : ℕ) (r : Route)
            → get_elem? p.config.routes k ≡ some r
            → Takes texts model r
            → r.specificity ≤ route.specificity)
        → Reason model s route
    by_fallback :
        IsFallback p.config.fallback route
        → p.config.fallback ≡ some s.target
        → str_eq p.config.on_exhausted "reject" ≡ false
        → Reason model s route

  pub record IsJustified (model : String) (s : Selection) : Type 0 where
    pub route : Route
    pub at_index : get_elem? p.config.routes s.budget_index ≡ some route
    pub name : s.route_name ≡ route.name
    pub is_open : IsOpen s.state
    pub backed : IsBacked s
    pub reason : Reason model s route

  -- Every budget that could serve a model is spent.
  pub record AllSpent (model : String) : Type 0 where
    pub listed :
        (k : ℕ) (r : Route)
        → get_elem? p.config.routes k ≡ some r
        → IsExact model r
        → (i : ℕ) × (o : Route) × (get_elem? p.config.routes i ≡ some o)
          × IsExact model o
          × IsSpent i
    pub unlisted :
        ((k : ℕ) (r : Route) → get_elem? p.config.routes k ≡ some r → ¬ (IsExact model r))
        → (k : ℕ) (r : Route) → get_elem? p.config.routes k ≡ some r
        → Takes texts model r
        → (i : ℕ) × (o : Route) × (get_elem? p.config.routes i ≡ some o)
          × Takes texts model o
          × (r.specificity ≤ o.specificity)
          × IsSpent i
    pub fallback :
        str_eq p.config.on_exhausted "reject" ≡ false
        → (k : ℕ) (r : Route) → get_elem? p.config.routes k ≡ some r
        → IsFallback p.config.fallback r
        → (i : ℕ) × (o : Route) × (get_elem? p.config.routes i ≡ some o)
          × IsFallback p.config.fallback o
          × IsSpent i

  -- A decision with its explanation.
  pub data Explained (model : String) (d : Decision) : Type 0 where
    routed : (s : Selection) → d ≡ selected s → IsJustified model s → Explained model d
    refused : d ≡ exhausted_response → AllSpent model → Explained model d
    closed : (i : ℕ) → d ≡ unavailable_response → IsClosed i → Explained model d
