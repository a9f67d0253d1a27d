-- ===== src/CostRouting/Once.antt =====
-- The charge of a response happens at most once, and it is the reported cost.
use text.Mathlib.Text.{◌==◌ as str_eq}
use text.Mathlib.TextEquality.{eq_iff}
use gateway_controllers.Prelude.{
  ℕ, zero, suc, ◌<◌, ◌≡◌, refl, ◌∙◌, ap, ◌≢◌, ◌⊎◌, inl, inr, String, Bool, true, false, not, ◌||◌,
  some, List, [], ◌∷◌, ◌++◌, length, get_elem?, lt_of_get_elem?, arith, Bool-cases, lt→ltb, ◌==◌,
  if◌then◌else◌,
}
use gateway_controllers.Prelude.Int.{ℤ}
use gateway_controllers.Limiter.{Map, put}
use gateway_controllers.Value.{Value, bool}
use gateway_controllers.Multi.{Limiter}
use gateway_controllers.CostRouting.{Texts, CostOps, RouteBudget, Selection, charge}
use gateway_controllers.CostRouting.Charging.{
  metadata_cost_charged, metadata_track_primary_cost, metadata_llm_cost, metadata_llm_cost_status,
  as_bool, as_string, as_index, metadata_budget_key, metadata_budget_index, record_selection,
  charge_once, pay, on_response_body, on_response_body_chunk, set_elem, charge_budget,
  units_to_charge, parse_reported_cost,
}

-- What happens while a response is processed: a chunk, the last one or not, the whole body, or
-- another policy that sets a value in the metadata.
pub data Event (Env : Type 0) : Type 0 where
  chunk : Env → Bool → Event Env
  body : Env → Event Env
  other_policy : String → Value → Event Env

-- No other policy sets the mark of the charge.
abbrev pub Keeps : {Env : Type 0} → Event Env → Type 0
Keeps (chunk env last) = Unit {0}
Keeps (body env) = Unit {0}
Keeps (other_policy k v) = k ≢ metadata_cost_charged

abbrev pub AllKeep : {Env : Type 0} → List (Event Env) → Type 0
AllKeep [] = Unit {0}
AllKeep (e ∷ es) = Keeps e × AllKeep es

-- The metadata after the selection and what the cost policy published.
abbrev pub reported : Selection → Value → Value → Map Value → Map Value
reported s status cost m =
    put metadata_llm_cost cost (put metadata_llm_cost_status status (record_selection s m))

module _ (L : Limiter) (ops : CostOps) (texts : Texts) (factor : ℤ) where
  abbrev pub Budgets : Type 0
  Budgets = List (RouteBudget L.State)

  pub step : Event L.Env → Map Value × Budgets → Map Value × Budgets
  step (chunk env last) (m, bs) = on_response_body_chunk L ops texts factor env last m bs
  step (body env) (m, bs) = on_response_body L ops texts factor env m bs
  step (other_policy k v) (m, bs) = (put k v m, bs)

  pub run : List (Event L.Env) → Map Value × Budgets → Map Value × Budgets
  run [] s = s
  run (e ∷ es) s = run es (step e s)

  abbrev IsClaimed : Map Value → Type 0
  IsClaimed m = as_bool (m metadata_cost_charged) ≡ true

  -- A claimed response is not charged again, and stays claimed.
  step-IsClaimed :
      (e : Event L.Env) (m : Map Value) (bs : Budgets)
      → Keeps e
      → IsClaimed m
      → IsClaimed (step e (m, bs)).0 × ((step e (m, bs)).1 ≡ bs)
  unfolding step on_response_body on_response_body_chunk charge_once
  step-IsClaimed (chunk env true) m bs k h = rw h (h, refl)
  step-IsClaimed (chunk env false) m bs k h = (h, refl)
  step-IsClaimed (body env) m bs k h = rw h (h, refl)
  step-IsClaimed (other_policy key v) m bs k h =
      (ground (arith, k, h, eq_iff key metadata_cost_charged), refl)

  run_claimed :
      (es : List (Event L.Env)) (m : Map Value) (bs : Budgets)
      → AllKeep es
      → IsClaimed m
      → (run es (m, bs)).1 ≡ bs
  unfolding run
  run_claimed [] m bs k h = refl
  run_claimed (e ∷ es) m bs (k, ks) h =
      let (claimed, same) = step-IsClaimed e m bs k h in
      run_claimed es (step e (m, bs)).0 (step e (m, bs)).1 ks claimed ∙ same

  abbrev claimed_of : Map Value → Map Value
  claimed_of m = put metadata_cost_charged (bool true) m

  charge_once_cases :
      (env : L.Env) (m : Map Value) (bs : Budgets)
      → let (m', bs') = charge_once L ops texts factor env m bs in
        (bs' ≡ bs)
        ⊎ (IsClaimed m'
            × (as_bool (m metadata_track_primary_cost) ≡ true)
            × (bs' ≡ pay L ops texts factor env (claimed_of m) bs))
  unfolding charge_once
  charge_once_cases env m bs =
      elim (Bool-cases
        (as_bool (m metadata_cost_charged) || not (as_bool (m metadata_track_primary_cost)))) [
          | inl e ↦ rw e (inl refl)
          | inr e ↦ rw e (inr (ground (arith), ground (arith, e), refl))
        ]

  -- A step claims and charges, or it leaves the budgets.
  step_cases :
      (e : Event L.Env) (m : Map Value) (bs : Budgets)
      → ((step e (m, bs)).1 ≡ bs)
        ⊎ ((env : L.Env) × IsClaimed (step e (m, bs)).0
            × (as_bool (m metadata_track_primary_cost) ≡ true)
            × ((step e (m, bs)).1 ≡ pay L ops texts factor env (claimed_of m) bs))
  unfolding step on_response_body on_response_body_chunk
  step_cases (chunk env true) m bs = elim (charge_once_cases env m bs) [
    | inl e ↦ inl e
    | inr (claimed, tracked, paid) ↦ inr (env, claimed, tracked, paid)
  ]
  step_cases (chunk env false) m bs = inl refl
  step_cases (body env) m bs = elim (charge_once_cases env m bs) [
    | inl e ↦ inl e
    | inr (claimed, tracked, paid) ↦ inr (env, claimed, tracked, paid)
  ]
  step_cases (other_policy key v) m bs = inl refl

  -- Over any sequence of chunks, bodies and values that other policies set, the budgets are charged
  -- at most once: they end as they were, or as one charge leaves them, made from the metadata after
  -- some first part of the sequence, which say that the cost is tracked. No other policy sets the
  -- mark of the charge.
  pub charged_at_most_once :
      (es : List (Event L.Env)) (m : Map Value) (bs : Budgets)
      → AllKeep es
      → ((run es (m, bs)).1 ≡ bs)
        ⊎ ((before : List (Event L.Env)) × (after : List (Event L.Env)) × (env : L.Env) × (es
              ≡ before ++ after)
            × (as_bool ((run before (m, bs)).0 metadata_track_primary_cost) ≡ true)
            × ((run es (m, bs)).1
                ≡ pay L ops texts factor env (claimed_of (run before (m, bs)).0) bs))
  unfolding run
  charged_at_most_once [] m bs k = inl refl
  charged_at_most_once (e ∷ es) m bs (k, ks) = elim (step_cases e m bs) [
    | inl same ↦ elim (charged_at_most_once es (step e (m, bs)).0 (step e (m, bs)).1 ks) [
      | inl none_paid ↦ inl (none_paid ∙ same)
      | inr (before, after, env, split, tracked, paid) ↦ inr (
        e ∷ before,
        after,
        env,
        ap (λ (l : List (Event L.Env)). e ∷ l) split,
        tracked,
        paid
            ∙ ap
                (pay L ops texts factor env
                  (claimed_of (run before ((step e (m, bs)).0, (step e (m, bs)).1)).0))
                same,
      )
    ]
    | inr (env, claimed, tracked, paid) ↦ inr (
      [],
      e ∷ es,
      env,
      refl,
      tracked,
      run_claimed es (step e (m, bs)).0 (step e (m, bs)).1 ks claimed ∙ paid,
    )
  ]

  pub get_elem?-set_elem :
      (i j : ℕ) (b : RouteBudget L.State) (bs : Budgets)
      → i < length bs
      → get_elem? (set_elem i b bs) j ≡ (if i == j then some b else get_elem? bs j)
  unfolding set_elem
  get_elem?-set_elem i j b [] h = absurd (omega arith)
  get_elem?-set_elem zero zero b (x ∷ bs) h = ground arith
  get_elem?-set_elem zero (suc j) b (x ∷ bs) h = ground arith
  get_elem?-set_elem (suc i) zero b (x ∷ bs) h = ground arith
  get_elem?-set_elem (suc i) (suc j) b (x ∷ bs) h =
      ground (arith, get_elem?-set_elem i j b bs (omega arith))

  pub length-set_elem :
      (i : ℕ) (b : RouteBudget L.State) (bs : Budgets) → length (set_elem i b bs) ≡ length bs
  unfolding set_elem
  length-set_elem i b [] = refl
  length-set_elem zero b (x ∷ bs) = refl
  length-set_elem (suc i) b (x ∷ bs) = ap suc (length-set_elem i b bs)

  -- The last chunk charges the budget that the metadata name, if it tracks and nothing was charged.
  pub charge_of_metadata :
      (env : L.Env) (m : Map Value) (key : String) (i : ℕ) (b : RouteBudget L.State) (bs : Budgets)
      (n : ℤ)
      → as_bool (m metadata_cost_charged) ≡ false
      → as_bool (m metadata_track_primary_cost) ≡ true
      → as_string (m metadata_budget_key) ≡ key
      → as_index (length bs) (m metadata_budget_index) ≡ some i
      → str_eq key "" ≡ false
      → get_elem? bs i ≡ some b
      → units_to_charge ops texts factor m ≡ some n
      → (on_response_body_chunk L ops texts factor env true m bs).1
        ≡ set_elem i (charge_budget L ops texts factor env key n b) bs
  unfolding on_response_body_chunk charge_once pay units_to_charge parse_reported_cost
  charge_of_metadata env m key i b bs n fresh tracked named at_i keyed some_b units =
      rw (fresh, tracked, named, at_i, keyed, some_b, units) refl

  module _ (env : L.Env) (s : Selection) (status cost : Value) (m : Map Value)
      (b : RouteBudget L.State) (bs : Budgets) (n : ℤ) where
    -- What the recorded selection and the published cost have to be for a charge.
    pub record IsCharge : Type 0 where
      pub fresh : as_bool (m metadata_cost_charged) ≡ false
      pub keyed : str_eq s.budget_key "" ≡ false
      pub at_index : get_elem? bs s.budget_index ≡ some b
      pub units : units_to_charge ops texts factor (reported s status cost m) ≡ some n

    pub charged_list :
        IsCharge
        → (on_response_body_chunk L ops texts factor env true (reported s status cost m) bs).1
          ≡ set_elem s.budget_index (charge_budget L ops texts factor env s.budget_key n b) bs
    unfolding on_response_body_chunk charge_once pay record_selection units_to_charge
        parse_reported_cost
    charged_list c =
        rw
          (
            c.fresh,
            c.keyed,
            lt→ltb _ _ (lt_of_get_elem? bs s.budget_index b c.at_index),
            c.units,
            c.at_index,
          )
          refl

    -- Where a selection was recorded on the request, its budget has a key, and the published cost
    -- comes to `n` units, the last chunk charges the budget of the selection with `n` under its key,
    -- and leaves every other budget.
    pub reported_cost_is_charged :
        (j : ℕ)
        → IsCharge
        → get_elem?
            (on_response_body_chunk L ops texts factor env true (reported s status cost m) bs).1
            j
          ≡ (if s.budget_index == j
              then some (record b { store = (charge L env s.budget_key n b.store).1 })
              else get_elem? bs j)
    unfolding charge_budget
    reported_cost_is_charged j c =
        rw (charged_list c) (
          get_elem?-set_elem s.budget_index j _ bs (lt_of_get_elem? bs s.budget_index b c.at_index))
