-- ===== src/CostRouting/Spending.antt =====
-- The policy over the memory limiter with fixed windows: a charge, and the requests behind it.
use text.Mathlib.Text.{◌==◌ as str_eq}
use gateway_controllers.Prelude.{
  ℕ, ◌≡◌, refl, sym, ◌∙◌, ap, ◌≢◌, inl, inr, String, true, false, some, List, length, get_elem?,
  arith, Bool-cases, leb→le, subst, ==_iff, if◌then◌else◌,
}
use gateway_controllers.Prelude.Int.{
  ℤ, pos, le_ℤ, ◌≤ℤ◌, ◌<ℤ◌, ◌+ℤ◌, ◌-ℤ◌, +ℤ_parts, -ℤ_parts, sub64_parts,
}
use gateway_controllers.Limiter.{Map, max_int64, Clocks, ok, err, clamp_zero}
use gateway_controllers.FixedWindow.{MemoryLimiter, current_count, get_available, consume_n}
use gateway_controllers.FixedWindow.Counts.{IsSane, IsCost}
use gateway_controllers.FixedWindow.Charge.{consume_n_charges, consume_n_wraps}
use gateway_controllers.FixedWindow.Interface.{fixed_window}
use gateway_controllers.Value.{Value}
use gateway_controllers.CostRouting.{
  available, exhausted, query, charge, Texts, CostOps, Policy, CostRoute, RouteBudget, Selection,
  select_target, exhausted_response,
}
use gateway_controllers.CostRouting.Parsing.{ParseOps}
use gateway_controllers.CostRouting.Unique.{IsParsed, exact_unique}
use gateway_controllers.CostRouting.Scan.{IsExact}
use gateway_controllers.CostRouting.Choice.{
  IsReady, IsJustified, Reason, own, by_wildcard, by_fallback, routed, refused, closed, answer,
  IsBacked,
}
use gateway_controllers.CostRouting.Explained.{select_target-Explained}
use gateway_controllers.CostRouting.Charging.{
  on_response_body_chunk, scale_cost, set_elem, charge_budget,
}
use gateway_controllers.CostRouting.Once.{
  reported, IsCharge, charged_list, reported_cost_is_charged, length-set_elem,
}

-- What a query of the memory limiter answers.
query-fixed_window :
    (c : Clocks) (key : String) (m : MemoryLimiter)
    → query fixed_window c key m
      ≡ ok (
        if le_ℤ (get_available c key m) (pos 0) then exhausted else available,
        get_available c key m,
      )
unfolding query
query-fixed_window c key m = refl

left_over :
    (c : Clocks) (key : String) (n : ℤ) (m : MemoryLimiter)
    → IsSane m.policy
    → IsCost n
    → IsCost (current_count c key m)
    → get_available c key m ≤ℤ n
    → m.policy.limit -ℤ (current_count c key m +ℤ n) ≤ℤ pos 0
unfolding get_available
left_over c key n m sane cost count enough = ground (
  arith,
  sane.small,
  sane.some_quota,
  +ℤ_parts (current_count c key m) n,
  sub64_parts m.policy.limit (current_count c key m),
  -ℤ_parts m.policy.limit (current_count c key m +ℤ n),
  enough,
)

clamp_zero-le : (a : ℤ) → a ≤ℤ pos 0 → clamp_zero a ≤ℤ pos 0
clamp_zero-le a h = ground arith

-- A charge that is at least the quota left spends the budget.
charge-spends :
    (c : Clocks) (key : String) (n : ℤ) (m : MemoryLimiter)
    → IsSane m.policy
    → IsCost n
    → IsCost (current_count c key m)
    → get_available c key m ≤ℤ n
    → get_available c key (charge fixed_window c key n m).1 ≤ℤ pos 0
unfolding charge
charge-spends c key n m sane cost count enough = elim (Bool-cases (le_ℤ n (pos 0))) [
  | inl free ↦ rw free (omega (arith, enough, leb→le _ _ free))
  | inr costly ↦
      rw (costly, (consume_n_charges c key n m sane cost count).1)
        (clamp_zero-le (m.policy.limit -ℤ (current_count c key m +ℤ n))
          (left_over c key n m sane cost count enough))
]

shut :
    (c : Clocks) (key : String) (m : MemoryLimiter) (u : ℤ)
    → get_available c key m ≤ℤ pos 0
    → query fixed_window c key m ≢ ok (available, u)
shut c key m u h e =
    ground (arith, query-fixed_window c key m, e, h, le_ℤ (get_available c key m) (pos 0))

module _ (texts : Texts) (env : ℕ → Clocks) (p : Policy texts.Pattern MemoryLimiter) where
  -- The memory limiter never returns an error.
  no_error :
      (i : ℕ) (b : RouteBudget MemoryLimiter) (e : String)
      → answer fixed_window texts env p i b ≢ err e
  no_error i b e h = ground (arith, query-fixed_window (env i) b.namespace b.store, h)

  pub memory-IsReady : length p.budgets ≡ length p.config.routes → IsReady fixed_window texts env p
  memory-IsReady h = record {
    same_length = h;
    answers = λ i b at_i e. ground (arith, query-fixed_window (env i) b.namespace b.store, e);
  }

  -- A listed model whose budget has no quota left is refused, where fallbacks are.
  spent_is_refused :
      (model : String) (i : ℕ) (route : CostRoute texts.Pattern) (b : RouteBudget MemoryLimiter)
      → length p.budgets ≡ length p.config.routes
      → str_eq p.config.on_exhausted "reject" ≡ true
      → get_elem? p.config.routes i ≡ some route
      → IsExact model route
      → ((k : ℕ) (r : CostRoute texts.Pattern)
          → get_elem? p.config.routes k ≡ some r
          → IsExact model r
          → k ≡ i)
      → get_elem? p.budgets i ≡ some b
      → get_available (env i) b.namespace b.store ≤ℤ pos 0
      → select_target fixed_window texts env p model ≡ exhausted_response
  spent_is_refused model i route b same_length reject at_i exact unique at_b spent =
      elim (select_target-Explained fixed_window texts env p model (memory-IsReady same_length)) [
        | routed s e j ↦ absurd (impossible s j j.reason)
        | refused e all ↦ e
        | closed k e c ↦ absurd (no_error k c.budget c.message c.answered)
      ]
    where
      not_backed : (s : Selection) → s.budget_index ≡ i → IsBacked fixed_window texts env p s → ⊥
      not_backed s same j = elim j.answered [
        | inl (q, state) ↦
            shut (env s.budget_index) j.budget.namespace j.budget.store s.units here q
        | inr (e, q, fails_open, state) ↦ no_error s.budget_index j.budget e q
      ]
        where
          that : b ≡ j.budget
          that = cc (at_b, j.at_index, same)

          here : get_available (env s.budget_index) j.budget.namespace j.budget.store ≤ℤ pos 0
          here =
              subst
                (λ (x : RouteBudget MemoryLimiter).
                  get_available (env s.budget_index) x.namespace x.store ≤ℤ pos 0)
                that
                (subst (λ (k : ℕ). get_available (env k) b.namespace b.store ≤ℤ pos 0) (sym same)
                  spent)

      impossible :
          (s : Selection) (j : IsJustified fixed_window texts env p model s)
          → Reason fixed_window texts env p model s j.route
          → ⊥
      impossible s j (own x t) = not_backed s (unique s.budget_index j.route j.at_index x) j.backed
      impossible s j (by_wildcard t x none_listed best) = none_listed i route at_i exact
      impossible s j (by_fallback x t allowed) = ground (arith, allowed, reject)

module _ (texts : Texts) (env : ℕ → Clocks) (p : Policy texts.Pattern MemoryLimiter) where
  -- The response to any request charges the budget of a listed model by at least what it has left.
  -- Then a request for that model, at the same instant, gets the answer 429, where onExhausted is
  -- reject and the routes are such as parseRoutes returns. The limits, counts and costs are not
  -- negative and below 2 ^ 62.
  pub charged_budget_refuses :
      (ops : CostOps) (parse : ParseOps texts.Pattern) (m : Map Value) (s : Selection)
      (status cost : Value) (b : RouteBudget MemoryLimiter) (n : ℤ) (model : String)
      (route : CostRoute texts.Pattern)
      → IsCharge fixed_window ops texts p.config.cost_scale_factor
          (env s.budget_index)
          s
          status
          cost
          m
          b
          p.budgets
          n
      → s.budget_key ≡ b.namespace
      → IsSane b.store.policy
      → IsCost n
      → IsCost (current_count (env s.budget_index) b.namespace b.store)
      → get_available (env s.budget_index) b.namespace b.store ≤ℤ n
      → length p.budgets ≡ length p.config.routes
      → str_eq p.config.on_exhausted "reject" ≡ true
      → get_elem? p.config.routes s.budget_index ≡ some route
      → IsExact model route
      → IsParsed texts ops parse p.config.routes
      → let after =
          (on_response_body_chunk fixed_window ops texts p.config.cost_scale_factor
            (env s.budget_index)
            true
            (reported s status cost m)
            p.budgets).1 in
        select_target fixed_window texts env (record p { budgets = after }) model
        ≡ exhausted_response
  charged_budget_refuses ops parse m s status cost b n model route c key sane n_cost counted enough
        same_length reject at_i exact parsed =
      spent_is_refused texts env (record p { budgets = after }) model s.budget_index route
        (record b { store = (charge fixed_window clocks s.budget_key n b.store).1 })
        (ap length list
          ∙ length-set_elem fixed_window ops texts factor s.budget_index _ p.budgets
          ∙ same_length)
        reject at_i exact
        (λ k r at_k x.
          exact_unique texts ops parse p.config.routes model s.budget_index k route r parsed at_i
            at_k exact x)
        (reported_cost_is_charged fixed_window ops texts factor clocks s status cost m b p.budgets n
            s.budget_index c
          ∙ rw ((==_iff s.budget_index s.budget_index).1 refl) refl)
        (rw key (charge-spends clocks b.namespace n b.store sane n_cost counted enough))
    where
      clocks : Clocks
      clocks = env s.budget_index

      factor : ℤ
      factor = p.config.cost_scale_factor

      list :
          (on_response_body_chunk fixed_window ops texts factor clocks true
            (reported s status cost m)
            p.budgets).1
          ≡ set_elem s.budget_index
              (charge_budget fixed_window ops texts factor clocks s.budget_key n b)
              p.budgets
      list = charged_list fixed_window ops texts factor clocks s status cost m b p.budgets n c

      after : List (RouteBudget MemoryLimiter)
      after =
          (on_response_body_chunk fixed_window ops texts factor clocks true
            (reported s status cost m) p.budgets).1

-- A cost that passes the largest int64 once scaled is charged as the largest int64. Where the count
-- of a budget is more than one past its limit, so that no quota is left, that charge makes the
-- budget available again. The limit and the count are below 2 ^ 62.
pub clamped_cost_frees_budget :
    (ops : CostOps) (texts : Texts) (cost : ℕ) (factor n : ℤ) (c : Clocks) (key : String)
    (m : MemoryLimiter)
    → IsSane m.policy
    → IsCost (current_count c key m)
    → m.policy.limit +ℤ pos 1 <ℤ current_count c key m
    → ops.above_max (ops.scale cost factor) ≡ true
    → scale_cost ops texts cost factor ≡ some n
    → (query fixed_window c key m ≡ ok (exhausted, pos 0))
      × ((u : ℤ) × (query fixed_window c key (charge fixed_window c key n m).1 ≡ ok (available, u)))
unfolding query charge scale_cost
clamped_cost_frees_budget ops texts cost factor n c key m sane count over clamped scaled =
    let (before, allowed, after) = consume_n_wraps c key m sane count over in
    let most : n ≡ max_int64 = ground (arith, clamped, scaled) in
    (
      rw before refl,
      (get_available c key (consume_n c key max_int64 m).1, rw (most, not_spent _ after) refl),
    )
  where
    not_spent : (a : ℤ) → pos 0 <ℤ a → le_ℤ a (pos 0) ≡ false
    not_spent a h = ground arith
