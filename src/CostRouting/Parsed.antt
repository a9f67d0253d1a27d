-- ===== src/CostRouting/Parsed.antt =====
-- What the parsed model budgets are known to be.
use Prim.Native.String.{◌++◌ as append}
use text.Mathlib.TextEquality.{eq_iff}
use gateway_controllers.Prelude.{
  ℕ, suc, ◌≡◌, refl, ◌∙◌, ap, subst, ◌≢◌, inl, inr, String, true, false, Option, none, some, List,
  [], ◌∷◌, length, Each, arith, Bool-cases,
}
use gateway_controllers.Prelude.Int.{ℤ, pos, ◌<ℤ◌}
use gateway_controllers.Prelude.Text.{has_text}
use gateway_controllers.Limiter.{Outcome, Outcome-cases, ok, from_bind}
use gateway_controllers.Value.{Value, Items, Fields, array, item, end, object, lookup}
use gateway_controllers.CostRouting.{
  Target, BudgetLimit, CostRoute, Texts, CostOps, is_pattern_model,
}
use gateway_controllers.CostRouting.Parsing.{
  ParseOps, check_target, check_name, make_route, parse_target, parse_name, parse_budget_limits,
  parse_route, parse_items, parse_amount, parse_limit_duration, parse_limit, parse_limit_items,
  count, models_field, at_index, route_name, route_target, assemble,
}

-- A limit that a limiter can keep.
pub record IsLimit (l : BudgetLimit) : Type 0 where
  pub some_units : pos 0 <ℤ l.scaled
  pub some_time : pos 0 <ℤ l.duration

module _ (texts : Texts) (ops : CostOps) (parse : ParseOps texts.Pattern) where
  abbrev Route : Type 0
  Route = CostRoute texts.Pattern

  parse_amount-positive :
      (factor : ℤ) (entry : Fields) (place : String) (a : ℕ × ℤ)
      → parse_amount texts ops parse factor entry place ≡ ok a
      → pos 0 <ℤ a.1
  unfolding parse_amount
  parse_amount-positive factor entry place a h = ground (arith, h)

  parse_limit_duration-positive :
      (entry : Fields) (place : String) (d : ℤ)
      → parse_limit_duration texts ops parse entry place ≡ ok d
      → pos 0 <ℤ d
  unfolding parse_limit_duration
  parse_limit_duration-positive entry place d h = ground (arith, h)

  -- A model with a star, and no other, has a pattern; a wildcard has no provider; and every limit can
  -- be kept.
  pub record IsRoute (r : Route) : Type 0 where
    pub exact : texts.contains r.target.model "*" ≡ false → r.pattern ≡ none
    pub wildcard : texts.contains r.target.model "*" ≡ true → r.pattern ≢ none
    pub own_provider : is_pattern_model texts r.target.model ≡ true → r.target.provider ≡ ""
    pub limited : Each IsLimit r.budget_limits

  check_target_lem :
      (t u : Target) (models : List String) (place : String)
      → check_target texts ops parse t models place ≡ ok u
      → (has_text u.model models ≡ false)
        × (is_pattern_model texts u.model ≡ true → u.provider ≡ "")
  unfolding check_target
  check_target_lem t u models place h = (
    ground (arith, h),
    λ wild. ground (arith, h, wild, eq_iff u.provider "", eq_iff t.provider ""),
  )

  check_name_lem :
      (name fresh : String) (names : List String) (place : String)
      → check_name texts ops parse name names place ≡ ok fresh
      → has_text fresh names ≡ false
  unfolding check_name
  check_name_lem name fresh names place h = ground (arith, h)

  parse_limit-IsLimit :
      (factor : ℤ) (v : Value) (place : String) (l : BudgetLimit)
      → parse_limit texts ops parse factor v place ≡ ok l
      → IsLimit l
  unfolding parse_limit
  parse_limit-IsLimit factor (object entry) place l h =
      from_bind (parse_amount texts ops parse factor entry (append place ".amount")) _ l h
        (λ a ea h1.
          from_bind (parse_limit_duration texts ops parse entry (append place ".duration")) _ l h1
            (λ d ed h2.
              let made : record { amount = a.0; duration = d; scaled = a.1 } ≡ l =
                ground (arith, h2) in
              subst IsLimit made (record {
                some_units = parse_amount-positive factor entry _ a ea;
                some_time = parse_limit_duration-positive entry _ d ed;
              })))
  parse_limit-IsLimit factor v place l h = absurd (ground (arith, h))

  parse_limit_items-Each :
      (factor : ℤ) (field : String) (i : ℕ) (xs : Items) (ls : List BudgetLimit)
      → parse_limit_items texts ops parse factor field i xs ≡ ok ls
      → Each IsLimit ls
  unfolding parse_limit_items
  parse_limit_items-Each factor field i end ls h =
      let made : [] ≡ ls = ground (arith, h) in subst (Each IsLimit) made tt
  parse_limit_items-Each factor field i (item v rest) ls h =
      from_bind (parse_limit texts ops parse factor v (at_index field i)) _ ls h (λ l el h1.
        from_bind (parse_limit_items texts ops parse factor field (suc i) rest) _ ls h1
          (λ more em h2.
            let made : l ∷ more ≡ ls = ground (arith, h2) in
            subst (Each IsLimit) made (
              parse_limit-IsLimit factor v _ l el,
              parse_limit_items-Each factor field (suc i) rest more em,
            )))

  parse_budget_limits-Each :
      (o : Option Value) (factor : ℤ) (field : String) (ls : List BudgetLimit)
      → parse_budget_limits texts ops parse o factor field ≡ ok ls
      → Each IsLimit ls
  unfolding parse_budget_limits
  parse_budget_limits-Each (some (array (item v rest))) factor field ls h =
      parse_limit_items-Each factor field 0 (item v rest) ls h
  parse_budget_limits-Each o factor field ls h = absurd (ground (arith, h))

  make_route_lem :
      (name : String) (t : Target) (limits : List BudgetLimit)
      → (is_pattern_model texts t.model ≡ true → t.provider ≡ "")
      → Each IsLimit limits
      → IsRoute (make_route texts ops parse name t limits)
        × ((make_route texts ops parse name t limits).target ≡ t)
        × ((make_route texts ops parse name t limits).name ≡ name)
  unfolding make_route
  make_route_lem name t limits own all = elim (Bool-cases (texts.contains t.model "*")) [
    | inl c ↦ rw c (
      record { exact = λ bad. cc; wildcard = λ h bad. cc; own_provider = own; limited = all },
      refl,
      refl,
    )
    | inr c ↦ rw c (
      record { exact = λ h. refl; wildcard = λ bad. cc; own_provider = own; limited = all },
      refl,
      refl,
    )
  ]

  route_name_lem :
      (entry : Fields) (place : String) (i : ℕ) (names : List String) (name : String)
      → route_name texts ops parse entry place i names ≡ ok name
      → has_text name names ≡ false
  unfolding route_name
  route_name_lem entry place i names name h =
      from_bind (parse_name texts ops parse entry place i) _ name h
        (λ n e h1. check_name_lem n name names place h1)

  route_target_lem :
      (entry : Fields) (place : String) (models : List String) (u : Target)
      → route_target texts ops parse entry place models ≡ ok u
      → (has_text u.model models ≡ false)
        × (is_pattern_model texts u.model ≡ true → u.provider ≡ "")
  unfolding route_target
  route_target_lem entry place models u h =
      from_bind
        (parse_target texts ops parse (lookup (models_field texts ops parse entry) entry)
          (append place (append "." (models_field texts ops parse entry))))
        _ u h (λ t e h1. check_target_lem _ u models _ h1)

  parse_route_lem :
      (factor : ℤ) (place : String) (i : ℕ) (v : Value) (names models : List String) (r : Route)
      → parse_route texts ops parse factor place i v names models ≡ ok r
      → IsRoute r × (has_text r.name names ≡ false) × (has_text r.target.model models ≡ false)
  unfolding parse_route assemble
  parse_route_lem factor place i (object entry) names models r h =
      elim (Outcome-cases (route_name texts ops parse entry place i names)) [
        | inl (n, en) ↦ elim (Outcome-cases (route_target texts ops parse entry place models)) [
          | inl (t, et) ↦ elim (Outcome-cases (limits_of entry)) [
            | inl (ls, el) ↦
                let (fresh, own) = route_target_lem entry place models t et in
                let (is_route, target_is, name_is) = make_route_lem n t ls own (
                  parse_budget_limits-Each (lookup "budgetLimits" entry) factor
                    (append place ".budgetLimits") ls el) in
                let made : make_route texts ops parse n t ls ≡ r = ground (arith, h, en, et, el) in
                subst
                  (λ (x : Route).
                    IsRoute x
                    × (has_text x.name names ≡ false)
                    × (has_text x.target.model models ≡ false))
                  made
                  (
                    is_route,
                    ap (λ (x : String). has_text x names) name_is
                        ∙ route_name_lem entry place i names n en,
                    ap (λ (x : Target). has_text x.model models) target_is ∙ fresh,
                  )
            | inr (inl (m, e)) ↦ absurd (ground (arith, h, en, et, e))
            | inr (inr e) ↦ absurd (ground (arith, h, en, et, e))
          ]
          | inr (inl (m, e)) ↦ absurd (ground (arith, h, en, e))
          | inr (inr e) ↦ absurd (ground (arith, h, en, e))
        ]
        | inr (inl (m, e)) ↦ absurd (ground (arith, h, e))
        | inr (inr e) ↦ absurd (ground (arith, h, e))
      ]
    where
      limits_of : Fields → Outcome (List BudgetLimit)
      limits_of entry =
          parse_budget_limits texts ops parse (lookup "budgetLimits" entry) factor
            (append place ".budgetLimits")
  parse_route_lem factor place i v names models r h = absurd (ground (arith, h))

  -- No two routes have one name or one model, and none has one of those given.
  abbrev pub AllFresh : List String → List String → List Route → Type 0
  AllFresh names models [] = Unit {0}
  AllFresh names models (r ∷ rs) =
      IsRoute r
      × (has_text r.name names ≡ false)
      × (has_text r.target.model models ≡ false)
      × AllFresh (r.name ∷ names) (r.target.model ∷ models) rs

  pub parse_items-AllFresh :
      (factor : ℤ) (field : String) (i : ℕ) (xs : Items) (names models : List String)
      (rs : List Route)
      → parse_items texts ops parse factor field i xs names models ≡ ok rs
      → AllFresh names models rs × (length rs ≡ count texts ops parse xs)
  unfolding parse_items
  parse_items-AllFresh factor field i end names models rs h =
      let made : [] ≡ rs = ground (arith, h) in
      subst (λ (x : List Route). AllFresh names models x × (length x ≡ 0)) made (tt, refl)
  parse_items-AllFresh factor field i (item v rest) names models rs h =
      from_bind (parse_route texts ops parse factor (at_index field i) i v names models) _ rs h
        (λ r er h1.
          from_bind
            (parse_items texts ops parse factor field (suc i) rest (r.name ∷ names)
              (r.target.model ∷ models))
            _ rs h1
            (λ more em h2.
              let made : r ∷ more ≡ rs = ground (arith, h2) in
              let (a, b, c) = parse_route_lem factor _ i v names models r er in
              let (d, e) =
                parse_items-AllFresh factor field (suc i) rest (r.name ∷ names)
                  (r.target.model ∷ models) more em in
              subst
                (λ (x : List Route).
                  AllFresh names models x × (length x ≡ suc (count texts ops parse rest)))
                made ((a, b, c, d), ap suc e)))
