-- ===== src/CostRouting/Checked.antt =====
-- What checkBudget comes to, and a check whose alternative is tried where the budget is spent.
use gateway_controllers.Prelude.{
  ℕ, ◌<◌, ◌≡◌, refl, sym, ◌∙◌, ap, ◌≢◌, inl, inr, String, Option, some, get_elem?, get_elem?-lt,
  lt_of_get_elem?, arith, Bool-cases, subst,
}
use gateway_controllers.Prelude.Int.{ℤ, pos, le_ℤ}
use gateway_controllers.Limiter.{Outcome, Outcome-cases, ok, err, panic}
use gateway_controllers.Multi.{Limiter}
use gateway_controllers.CostRouting.{
  Target, CostRoute, Texts, Policy, target_or, RouteBudget, Selection, BudgetState, available,
  exhausted, unknown, Decision, selected, query, judge, check_budget, unavailable_response,
  with_tier, or_else,
}
use gateway_controllers.CostRouting.Choice.{
  IsOpen, answer, IsSpent, IsClosed, IsBacked, IsReady, Reason, Explained, routed, closed,
}

module _ (L : Limiter) (texts : Texts) (env : ℕ → L.Env) (p : Policy texts.Pattern L.State) where
  abbrev Route : Type 0
  Route = CostRoute texts.Pattern

  -- A selection by checkBudget of the route at an index.
  pub record IsOf (i : ℕ) (t : Target) (n : String) (s : Selection) : Type 0 where
    pub index : s.budget_index ≡ i
    pub target : s.target ≡ t
    pub route : s.route_name ≡ n

  -- The selection under a store that could not answer.
  abbrev doubtful : ℕ → Target → String → RouteBudget L.State → Selection
  doubtful i t name b = record {
    target = t;
    route_name = name;
    tier = name;
    budget_index = i;
    budget_key = b.namespace;
    state = unknown;
    units = pos 0;
  }

  query_known : (e : L.Env) (key : String) (s : L.State) (u : ℤ) → query L e key s ≢ ok (unknown, u)
  unfolding query
  query_known e key s u h = elim (Outcome-cases (L.get_available e key s)) [
    | inl (a, o) ↦ elim (Bool-cases (le_ℤ a (pos 0))) [
      | inl t ↦ ground (arith, o, t, h)
      | inr t ↦ ground (arith, o, t, h)
    ]
    | inr (inl (m, o)) ↦ ground (arith, o, h)
    | inr (inr o) ↦ ground (arith, o, h)
  ]

  -- What checkBudget may come to at an index: an open selection, one that is spent, or the refusal.
  pub data Checked (i : ℕ) (t : Target) (name : String) (d : Decision) : Type 0 where
    open_at :
        (s : Selection)
        → d ≡ selected s
        → IsOf i t name s
        → IsOpen s.state
        → IsBacked L texts env p s
        → Checked i t name d
    spent_at :
        (s : Selection)
        → d ≡ selected s
        → s.state ≡ exhausted
        → IsSpent L texts env p i
        → Checked i t name d
    closed_at : d ≡ unavailable_response → IsClosed L texts env p i → Checked i t name d

  judge_cases :
      (i : ℕ) (t : Target) (name : String) (b : RouteBudget L.State)
      → get_elem? p.budgets i ≡ some b
      → (o : Outcome (BudgetState × ℤ)) → answer L texts env p i b ≡ o
      → o ≢ panic
      → Checked i t name (judge L name t i b o)
  unfolding judge
  judge_cases i t name b at_i (ok (available, u)) e live =
      open_at _ refl (record { index = refl; target = refl; route = refl }) tt
        (record { budget = b; at_index = at_i; key = refl; answered = inl (e, refl) })
  judge_cases i t name b at_i (ok (exhausted, u)) e live =
      spent_at _ refl refl (record { budget = b; at_index = at_i; units = u; answered = e })
  judge_cases i t name b at_i (ok (unknown, u)) e live = absurd (query_known _ _ _ u e)
  judge_cases i t name b at_i (err m) e live = elim (Bool-cases b.fail_open) [
    | inl f ↦
        open_at (doubtful i t name b) (rw f refl)
          (record { index = refl; target = refl; route = refl }) tt
          (record { budget = b; at_index = at_i; key = refl; answered = inr (m, e, f, refl) })
    | inr f ↦
        closed_at (rw f refl)
          (record { budget = b; at_index = at_i; message = m; answered = e; closed = f })
  ]
  judge_cases i t name b at_i panic e live = absurd (live refl)

  pub check_budget_cases :
      (i : ℕ) (t : Option Target) (route : Route)
      → IsReady L texts env p
      → get_elem? p.config.routes i ≡ some route
      → Checked i (target_or route.target t) route.name (check_budget L texts env p i t)
  unfolding check_budget
  check_budget_cases i t route ready at_i =
      let (b, at_b) =
        get_elem?-lt p.budgets i
          (subst (λ (n : ℕ). i < n) (sym ready.same_length) (lt_of_get_elem? _ i route at_i)) in
      let c : Checked i (target_or route.target t) route.name
          (judge L route.name (target_or route.target t) i b (answer L texts env p i b)) =
        judge_cases i (target_or route.target t) route.name b at_b (answer L texts env p i b) refl
          (ready.answers i b at_b) in
      rw (at_i, at_b, check_budget) c

  pub Checked-with_tier :
      (tier : String) (i : ℕ) (t : Target) (n : String) (d : Decision)
      → Checked i t n d
      → Checked i t n (with_tier tier d)
  Checked-with_tier tier i t n d (open_at s e o is_open b) =
      open_at (record s { tier = tier }) (rw e refl)
        (record { index = o.index; target = o.target; route = o.route }) is_open
        (record { budget = b.budget; at_index = b.at_index; key = b.key; answered = b.answered })
  Checked-with_tier tier i t n d (spent_at s e x spent) =
      spent_at (record s { tier = tier }) (rw e refl) x spent
  Checked-with_tier tier i t n d (closed_at e c) = closed_at (rw e refl) c

  open_stands :
      (s : Selection) (next : Decision) → IsOpen s.state → or_else (selected s) next ≡ selected s
  open_stands s next h = go s.state refl h
    where
      go : (b : BudgetState) → s.state ≡ b → IsOpen b → or_else (selected s) next ≡ selected s
      go available e h = ground (arith, e)
      go unknown e h = ground (arith, e)
      go exhausted e h = absurd h

  spent_goes_on :
      (s : Selection) (next : Decision) → s.state ≡ exhausted → or_else (selected s) next ≡ next
  spent_goes_on s next e = ground (arith, e)

  -- A budget that is checked, and what is done where it is spent.
  pub settle :
      (model : String) (i : ℕ) (t : Target) (route : Route) (d next : Decision)
      → Checked i t route.name d
      → get_elem? p.config.routes i ≡ some route
      → ((s : Selection) → s.target ≡ t → Reason L texts env p model s route)
      → (IsSpent L texts env p i → Explained L texts env p model next)
      → Explained L texts env p model (or_else d next)
  settle model i t route d next (open_at s e o is_open b) at_i why rest =
      routed s (ap (λ x. or_else x next) e ∙ open_stands s next is_open) (record {
        route = route;
        at_index = subst (λ (k : ℕ). get_elem? p.config.routes k ≡ some route) (sym o.index) at_i;
        name = o.route;
        is_open = is_open;
        backed = b;
        reason = why s o.target;
      })
  settle model i t route d next (spent_at s e x spent) at_i why rest =
      subst (Explained L texts env p model)
        (sym (ap (λ x. or_else x next) e ∙ spent_goes_on s next x)) (rest spent)
  settle model i t route d next (closed_at e c) at_i why rest =
      closed i (ap (λ x. or_else x next) e) c
