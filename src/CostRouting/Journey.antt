-- ===== src/CostRouting/Journey.antt =====
-- A request from its headers to the charge of its response.
use text.Mathlib.Text.{◌==◌ as str_eq}
use gateway_controllers.Prelude.{
  ℕ, ◌<◌, ◌≡◌, refl, ◌∙◌, ap, subst, ◌⊎◌, inl, inr, String, true, false, some, List, length,
  get_elem?, lt_of_get_elem?, lt→ltb, arith, Option-cases, ◌==◌, if◌then◌else◌,
}
use gateway_controllers.Prelude.Int.{ℤ}
use gateway_controllers.Limiter.{Map, put}
use gateway_controllers.Value.{Value}
use gateway_controllers.Multi.{Limiter}
use gateway_controllers.CostRouting.{
  Target, Texts, CostOps, Policy, RouteBudget, Selection, Decision, selected, respond, crash,
  select_target, charge,
}
use gateway_controllers.CostRouting.Choice.{IsReady, IsJustified, routed, refused, closed}
use gateway_controllers.CostRouting.Explained.{select_target-Explained}
use gateway_controllers.CostRouting.Charging.{
  record_selection, apply_provider_routing, on_response_body_chunk, units_to_charge, as_bool,
  as_string, as_index, metadata_cost_charged, metadata_provider_routing,
  metadata_track_primary_cost, metadata_budget_key, metadata_budget_index, metadata_llm_cost,
  metadata_llm_cost_status, charge_budget,
}
use gateway_controllers.CostRouting.Once.{charge_of_metadata, get_elem?-set_elem}
use gateway_controllers.CostRouting.Requests.{
  PathOps, RequestModelConfig, RequestHeaders, Changes, modify, rewrite_model,
  requested_model_from_headers, route_selection, on_request_headers,
}

Decision-cases :
    (d : Decision)
    → ((s : Selection) × (d ≡ selected s))
      ⊎ (((status : ℕ) × (message : String) × (d ≡ respond status message)) ⊎ (d ≡ crash))
Decision-cases (selected s) = inl (s, refl)
Decision-cases (respond status message) = inr (inl (status, message, refl))
Decision-cases crash = inr (inr refl)

-- The provider is noted under a key of its own.
apply_provider_routing_elsewhere :
    (t : Target) (m : Map Value) (k : String)
    → str_eq metadata_provider_routing k ≡ false
    → (apply_provider_routing t m).1 k ≡ m k
unfolding apply_provider_routing
apply_provider_routing_elsewhere t m k e = ground (arith, e)

module _ (paths : PathOps) (L : Limiter) (texts : Texts) (env : ℕ → L.Env)
    (p : Policy texts.Pattern L.State) (c : RequestModelConfig paths.Expression)
    (req : RequestHeaders) (m m' : Map Value) (changes : Changes) where
  abbrev model : String
  model = requested_model_from_headers paths texts c req

  -- The metadata behind a selection.
  abbrev noted : Selection → Map Value
  noted s = (apply_provider_routing s.target (record_selection s m)).1

  on_request_headers_inv :
      str_eq c.location "payload" ≡ false
      → on_request_headers paths L texts env p c req m ≡ (modify changes, m')
      → (s : Selection) × (select_target L texts env p model ≡ selected s) × (m' ≡ noted s)
  unfolding on_request_headers route_selection
  on_request_headers_inv body h = elim (Decision-cases (select_target L texts env p model)) [
    | inl (s, e) ↦ elim (Option-cases (rewrite_model paths c req s.target.model)) [
      | inl r ↦ absurd (ground (arith, body, e, r, h))
      | inr (mods, r) ↦ (s, e, ground (arith, body, e, r, h))
    ]
    | inr (inl (status, message, e)) ↦ absurd (ground (arith, body, e, h))
    | inr (inr e) ↦ absurd (ground (arith, body, e, h))
  ]

  selected-IsJustified :
      (s : Selection)
      → IsReady L texts env p
      → select_target L texts env p model ≡ selected s
      → IsJustified L texts env p model s
  selected-IsJustified s ready e = elim (select_target-Explained L texts env p model ready) [
    | routed t d j ↦
        let same : t ≡ s = ground (arith, d, e) in subst (IsJustified L texts env p model) same j
    | refused d all ↦ absurd (ground (arith, d, e))
    | closed i d x ↦ absurd (ground (arith, d, e))
  ]

  -- The metadata at the end of the response, where another policy published the cost.
  abbrev published : Value → Value → Map Value
  published status cost = put metadata_llm_cost cost (put metadata_llm_cost_status status m')

  -- A request whose headers are routed, of a policy with a budget under some key for each route and
  -- with stores that do not panic: there is a justified selection of a budget, and if the published
  -- cost comes to `n` units, the last chunk of the response charges that budget with `n` under the
  -- key of that budget, and leaves every other budget.
  pub routed_request_is_charged :
      (ops : CostOps) (status cost : Value) (env' : L.Env) (n : ℤ)
      → str_eq c.location "payload" ≡ false
      → on_request_headers paths L texts env p c req m ≡ (modify changes, m')
      → as_bool (m metadata_cost_charged) ≡ false
      → IsReady L texts env p
      → ((i : ℕ) (b : RouteBudget L.State)
          → get_elem? p.budgets i ≡ some b
          → str_eq b.namespace "" ≡ false)
      → units_to_charge ops texts p.config.cost_scale_factor (published status cost) ≡ some n
      → (s : Selection) × IsJustified L texts env p model s
        × (b : RouteBudget L.State) × (get_elem? p.budgets s.budget_index ≡ some b)
        × ((j : ℕ)
            → get_elem?
                (on_response_body_chunk L ops texts p.config.cost_scale_factor env' true
                  (published status cost)
                  p.budgets).1
                j
              ≡ (if s.budget_index == j
                  then some (record b { store = (charge L env' b.namespace n b.store).1 })
                  else get_elem? p.budgets j))
  unfolding record_selection charge_budget
  routed_request_is_charged ops status cost env' n body h fresh ready keys units =
      let (s, e, left) = on_request_headers_inv body h in
      let j : IsJustified L texts env p model s = selected-IsJustified s ready e in
      let b : RouteBudget L.State = j.backed.budget in
      let at_b : get_elem? p.budgets s.budget_index ≡ some b = j.backed.at_index in
      let here : s.budget_index < length p.budgets =
        lt_of_get_elem? p.budgets s.budget_index b at_b in
      let elsewhere = λ (k : String) (d : str_eq metadata_provider_routing k ≡ false).
        ap (λ (t : Map Value). t k) left
        ∙ apply_provider_routing_elsewhere s.target (record_selection s m) k d in
      (
        s,
        j,
        b,
        at_b,
        λ i.
            ap (λ (bs : List (RouteBudget L.State)). get_elem? bs i)
              (charge_of_metadata L ops texts p.config.cost_scale_factor env'
                (published status cost) b.namespace s.budget_index b p.budgets n
                (ap as_bool (elsewhere metadata_cost_charged refl) ∙ fresh)
                (ap as_bool (elsewhere metadata_track_primary_cost refl))
                (ap as_string (elsewhere metadata_budget_key refl) ∙ j.backed.key)
                (ap (as_index (length p.budgets)) (elsewhere metadata_budget_index refl)
                  ∙ rw (lt→ltb _ _ here) refl)
                (keys s.budget_index b at_b) at_b units)
            ∙ get_elem?-set_elem L ops texts p.config.cost_scale_factor s.budget_index i _ p.budgets
                here,
      )
