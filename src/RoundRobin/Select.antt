-- ===== src/RoundRobin/Select.antt =====
-- Which model the round robin selects.
use gateway_controllers.Prelude.{
  ◌≡◌, refl, sym, ap, ◌∙◌, Bool, true, false, ℕ, zero, suc, ◌+◌, ◌%◌, ◌<◌, arith, ◌⊎◌, inl, inr,
  Bool-cases, Option-cases, none, some, length, get_elem?, get_elem?-lt,
}
use gateway_controllers.Prelude.Ring.{ring_reach, ring_step}
use native.Mathlib.Nat.{mod-lt, mod-eq_of_lt}
use gateway_controllers.Limiter.{Instant, ok}
use gateway_controllers.Routing.{suspension_key, is_suspended}
use gateway_controllers.RoundRobin.{ModelConfig, Policy, attempt, select_next}

-- The index is one of the models.
abbrev pub IsValid : Policy → Type 0
IsValid p = p.current_index < length p.params.models

-- The model at a position is suspended, or there is none.
abbrev pub suspended_at : Instant → Policy → ℕ → Bool
suspended_at now p c = elim (get_elem? p.params.models c) [
  | none ↦ true
  | some m ↦ is_suspended now p.suspended_models m.provider m.model
]

-- The position that is `j` steps behind the index.
abbrev pub position : Policy → ℕ → ℕ
position p j = (p.current_index + j) % length p.params.models

-- An attempt takes the first model behind the index that is not suspended, after fewer than `k`
-- others, and sets the index behind it.
pub record Picks (now : Instant) (k : ℕ) (p : Policy) : Type 0 where
  pub model : ModelConfig
  pub offset : ℕ
  pub in_reach : offset < k
  pub found : get_elem? p.params.models (position p offset) ≡ some model
  pub free : is_suspended now p.suspended_models model.provider model.model ≡ false
  pub skipped : (c : ℕ) → c < offset → suspended_at now p (position p c) ≡ true
  pub answer : (attempt now k p).0 ≡ ok (some model)
  pub next : (attempt now k p).1.current_index ≡ position p (suc offset)
  pub kept : (attempt now k p).1.params ≡ p.params

-- No attempt finds a model.
abbrev pub FindsNone : Instant → ℕ → Policy → Type 0
FindsNone now k p =
    ((c : ℕ) → c < k → suspended_at now p (position p c) ≡ true) × ((attempt now k p).0 ≡ ok none)

abbrev moved : Policy → Policy
moved p = record p { current_index = (p.current_index + 1) % length p.params.models }

module _ (now : Instant) (k : ℕ) (p : Policy) (v : IsValid p) (m : ModelConfig)
    (e : get_elem? p.params.models p.current_index ≡ some m) where
  here : position p 0 ≡ p.current_index
  here = ap (λ i. i % length p.params.models) (omega arith) ∙ mod-eq_of_lt v

  attempt_free :
      is_suspended now p.suspended_models m.provider m.model ≡ false
      → ((attempt now (suc k) p).0 ≡ ok (some m))
        × ((attempt now (suc k) p).1.current_index ≡ position p 1)
        × ((attempt now (suc k) p).1.params ≡ p.params)
  unfolding attempt
  attempt_free h = elim (Option-cases (p.suspended_models (suspension_key m.provider m.model))) [
    | inl n ↦ ground arith
    | inr (u, n) ↦ ground arith
  ]

  attempt_skips :
      is_suspended now p.suspended_models m.provider m.model ≡ true
      → attempt now (suc k) p ≡ attempt now k (moved p)
  unfolding attempt
  attempt_skips h = elim (Option-cases (p.suspended_models (suspension_key m.provider m.model))) [
    | inl n ↦ absurd (ground arith)
    | inr (u, n) ↦ ground arith
  ]

  Picks-here : is_suspended now p.suspended_models m.provider m.model ≡ false → Picks now (suc k) p
  Picks-here h = record {
    model = m;
    offset = 0;
    in_reach = omega arith;
    found = ap (get_elem? p.params.models) here ∙ e;
    free = h;
    skipped = λ c b. absurd (omega arith);
    answer = (attempt_free h).0;
    next = (attempt_free h).1;
    kept = (attempt_free h).2;
  }

  further : (j : ℕ) → position (moved p) j ≡ position p (suc j)
  further j = ring_step (length p.params.models) p.current_index j

  skip_here :
      is_suspended now p.suspended_models m.provider m.model ≡ true
      → suspended_at now p (position p 0) ≡ true
  skip_here h = ap (suspended_at now p) here ∙ rw (suspended_at, e) h

  skip_more :
      (b : ℕ)
      → is_suspended now p.suspended_models m.provider m.model ≡ true
      → ((c : ℕ) → c < b → suspended_at now (moved p) (position (moved p) c) ≡ true)
      → (c : ℕ) → c < suc b
      → suspended_at now p (position p c) ≡ true
  skip_more b h rest zero l = skip_here h
  skip_more b h rest (suc c) l = ap (suspended_at now p) (sym (further c)) ∙ rest c (omega arith)

  Picks-further :
      is_suspended now p.suspended_models m.provider m.model ≡ true
      → Picks now k (moved p)
      → Picks now (suc k) p
  Picks-further h r = record {
    model = r.model;
    offset = suc r.offset;
    in_reach = omega (arith, r.in_reach);
    found = ap (get_elem? p.params.models) (sym (further r.offset)) ∙ r.found;
    free = r.free;
    skipped = skip_more r.offset h r.skipped;
    answer = ap (λ q. q.0) (attempt_skips h) ∙ r.answer;
    next = ap (λ q. q.1.current_index) (attempt_skips h) ∙ r.next ∙ further (suc r.offset);
    kept = ap (λ q. q.1.params) (attempt_skips h) ∙ r.kept;
  }

  none_further :
      is_suspended now p.suspended_models m.provider m.model ≡ true
      → FindsNone now k (moved p)
      → FindsNone now (suc k) p
  none_further h (all, r) = (skip_more k h all, ap (λ q. q.0) (attempt_skips h) ∙ r)

attempt_lem : (now : Instant) (k : ℕ) (p : Policy) → IsValid p → Picks now k p ⊎ FindsNone now k p
attempt_lem now zero p v = inr (λ c h. absurd (omega arith), unfold attempt in refl)
attempt_lem now (suc k) p v =
    let (m, e) = get_elem?-lt p.params.models p.current_index v in
    elim (Bool-cases (is_suspended now p.suspended_models m.provider m.model)) [
      | inl h ↦ elim (attempt_lem now k (moved p) (mod-lt (p.current_index + 1) (omega arith))) [
        | inl r ↦ inl (Picks-further now k p v m e h r)
        | inr r ↦ inr (none_further now k p v m e h r)
      ]
      | inr h ↦ inl (Picks-here now k p v m e h)
    ]

-- From a valid index, the selection answers the first model that is not suspended, in the cyclic
-- order that begins at the index, and sets the index behind it. Where it answers none, every model
-- is suspended. There is no third case: it never panics.
pub select_next_lem :
    (now : Instant) (p : Policy)
    → IsValid p
    → Picks now (length p.params.models) p
      ⊎ (((c : ℕ) → c < length p.params.models → suspended_at now p c ≡ true)
          × ((select_next now p).0 ≡ ok none))
unfolding select_next
select_next_lem now p v = elim (attempt_lem now (length p.params.models) p v) [
  | inl r ↦ inl r
  | inr (all, r) ↦ inr (
    λ c h.
        (let (j, b, e) = ring_reach (length p.params.models) p.current_index c h in
          ap (suspended_at now p) (sym e) ∙ all j b),
    r,
  )
]
