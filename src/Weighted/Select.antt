-- ===== src/Weighted/Select.antt =====
-- Which model the weighted round robin selects.
use gateway_controllers.Prelude.{
  ◌≡◌, refl, sym, ap, ◌∙◌, Bool, true, false, ℕ, zero, suc, ◌+◌, ◌%◌, ◌<◌, ◌^◌, arith, ◌⊎◌, inl,
  inr, Bool-cases, Option-cases, none, some, length, get_elem?, get_elem?-lt,
}
use gateway_controllers.Prelude.Int.{pos, add64, add64-pos}
use gateway_controllers.Prelude.Ring.{ring_reach}
use native.Mathlib.Nat.{mod-lt}
use gateway_controllers.Limiter.{Instant, ok}
use gateway_controllers.Routing.{suspension_key, is_suspended}
use gateway_controllers.Weighted.{WeightedModel, Policy, slot, attempt, select_next}

-- The index is the number `i`, below 2 ^ 63 for as many attempts as are left, and there is a model.
pub record IsAt (i k : ℕ) (p : Policy) : Type 0 where
  pub at : p.current_index ≡ pos i
  pub below : i + k < 2 ^ 63
  pub some_model : 0 < length p.weighted_sequence

-- The model at a position is suspended, or there is none.
abbrev pub suspended_at : Instant → Policy → ℕ → Bool
suspended_at now p c = elim (get_elem? p.weighted_sequence c) [
  | none ↦ true
  | some m ↦ is_suspended now p.suspended_models m.provider m.model
]

-- The position that is `j` steps behind the index `i`.
abbrev pub position : ℕ → Policy → ℕ → ℕ
position i p j = (i + j) % length p.weighted_sequence

-- An attempt takes the first model behind the index that is not suspended, after fewer than `k`
-- others, and sets the index behind it.
pub record Picks (now : Instant) (i k : ℕ) (p : Policy) : Type 0 where
  pub model : WeightedModel
  pub offset : ℕ
  pub in_reach : offset < k
  pub found : get_elem? p.weighted_sequence (position i p offset) ≡ some model
  pub free : is_suspended now p.suspended_models model.provider model.model ≡ false
  pub skipped : (c : ℕ) → c < offset → suspended_at now p (position i p c) ≡ true
  pub answer : (attempt now k p).0 ≡ ok (some model)
  pub next : (attempt now k p).1.current_index ≡ pos (i + suc offset)
  pub kept : (attempt now k p).1.weighted_sequence ≡ p.weighted_sequence

-- No attempt finds a model.
abbrev pub FindsNone : Instant → ℕ → ℕ → Policy → Type 0
FindsNone now i k p =
    ((c : ℕ) → c < k → suspended_at now p (position i p c) ≡ true) × ((attempt now k p).0 ≡ ok none)

abbrev pub moved : Policy → Policy
moved p = record p { current_index = add64 p.current_index (pos 1) }

module _ (now : Instant) (i k : ℕ) (p : Policy) (v : IsAt i (suc k) p) (m : WeightedModel)
    (e : get_elem? p.weighted_sequence (i % length p.weighted_sequence) ≡ some m) where
  here : position i p 0 ≡ i % length p.weighted_sequence
  here = ap (λ c. c % length p.weighted_sequence) (omega arith)

  slot_here :
      slot p.current_index (length p.weighted_sequence) ≡ some (i % length p.weighted_sequence)
  unfolding slot
  slot_here = rw (v.at)

  next_index : add64 p.current_index (pos 1) ≡ pos (suc i)
  next_index = rw (v.at) (add64-pos i 1 (omega (arith, v.below)) ∙ ap pos (omega arith))

  pub moved-IsAt : IsAt (suc i) k (moved p)
  moved-IsAt = record { at = next_index; below = omega (arith, v.below); some_model = v.some_model }

  attempt_free :
      is_suspended now p.suspended_models m.provider m.model ≡ false
      → ((attempt now (suc k) p).0 ≡ ok (some m))
        × ((attempt now (suc k) p).1.current_index ≡ pos (i + 1))
        × ((attempt now (suc k) p).1.weighted_sequence ≡ p.weighted_sequence)
  unfolding attempt
  attempt_free h = elim (Option-cases (p.suspended_models (suspension_key m.provider m.model))) [
    | inl n ↦ ground (arith, slot_here, next_index)
    | inr (u, n) ↦ ground (arith, slot_here, next_index)
  ]

  pub attempt_unsuspended :
      p.suspended_models (suspension_key m.provider m.model) ≡ none
      → attempt now (suc k) p ≡ (ok (some m), moved p)
  unfolding attempt
  attempt_unsuspended h = ground (arith, slot_here, next_index)

  attempt_skips :
      is_suspended now p.suspended_models m.provider m.model ≡ true
      → attempt now (suc k) p ≡ attempt now k (moved p)
  unfolding attempt
  attempt_skips h = elim (Option-cases (p.suspended_models (suspension_key m.provider m.model))) [
    | inl n ↦ absurd (ground arith)
    | inr (u, n) ↦ ground (arith, slot_here)
  ]

  Picks-here :
      is_suspended now p.suspended_models m.provider m.model ≡ false → Picks now i (suc k) p
  Picks-here h = record {
    model = m;
    offset = 0;
    in_reach = omega arith;
    found = ap (get_elem? p.weighted_sequence) here ∙ e;
    free = h;
    skipped = λ c b. absurd (omega arith);
    answer = (attempt_free h).0;
    next = (attempt_free h).1;
    kept = (attempt_free h).2;
  }

  further : (j : ℕ) → position (suc i) (moved p) j ≡ position i p (suc j)
  further j = ap (λ c. c % length p.weighted_sequence) (omega arith)

  skip_here :
      is_suspended now p.suspended_models m.provider m.model ≡ true
      → suspended_at now p (position i p 0) ≡ true
  skip_here h = ap (suspended_at now p) here ∙ rw (suspended_at, e) h

  skip_more :
      (b : ℕ)
      → is_suspended now p.suspended_models m.provider m.model ≡ true
      → ((c : ℕ) → c < b → suspended_at now (moved p) (position (suc i) (moved p) c) ≡ true)
      → (c : ℕ) → c < suc b
      → suspended_at now p (position i p c) ≡ true
  skip_more b h rest zero l = skip_here h
  skip_more b h rest (suc c) l = ap (suspended_at now p) (sym (further c)) ∙ rest c (omega arith)

  Picks-further :
      is_suspended now p.suspended_models m.provider m.model ≡ true
      → Picks now (suc i) k (moved p)
      → Picks now i (suc k) p
  Picks-further h r = record {
    model = r.model;
    offset = suc r.offset;
    in_reach = omega (arith, r.in_reach);
    found = ap (get_elem? p.weighted_sequence) (sym (further r.offset)) ∙ r.found;
    free = r.free;
    skipped = skip_more r.offset h r.skipped;
    answer = ap (λ q. q.0) (attempt_skips h) ∙ r.answer;
    next = ap (λ q. q.1.current_index) (attempt_skips h) ∙ r.next ∙ ap pos (omega arith);
    kept = ap (λ q. q.1.weighted_sequence) (attempt_skips h) ∙ r.kept;
  }

  none_further :
      is_suspended now p.suspended_models m.provider m.model ≡ true
      → FindsNone now (suc i) k (moved p)
      → FindsNone now i (suc k) p
  none_further h (all, r) = (skip_more k h all, ap (λ q. q.0) (attempt_skips h) ∙ r)

attempt_lem :
    (now : Instant) (i k : ℕ) (p : Policy) → IsAt i k p → Picks now i k p ⊎ FindsNone now i k p
attempt_lem now i zero p v = inr (λ c h. absurd (omega arith), unfold attempt in refl)
attempt_lem now i (suc k) p v =
    let (m, e) =
      get_elem?-lt p.weighted_sequence (i % length p.weighted_sequence) (mod-lt i v.some_model) in
    elim (Bool-cases (is_suspended now p.suspended_models m.provider m.model)) [
      | inl h ↦ elim (attempt_lem now (suc i) k (moved p) (moved-IsAt now i k p v m e)) [
        | inl r ↦ inl (Picks-further now i k p v m e h r)
        | inr r ↦ inr (none_further now i k p v m e h r)
      ]
      | inr h ↦ inl (Picks-here now i k p v m e h)
    ]

-- From an index that stays below 2 ^ 63, and where there is a model, the selection answers the first
-- model of the sequence that is not suspended, in the cyclic order that begins at the index, and
-- sets the index behind it. Where it answers none, every model is suspended. There is no third
-- case: it never panics.
pub select_next_first :
    (now : Instant) (i : ℕ) (p : Policy)
    → IsAt i (length p.weighted_sequence) p
    → Picks now i (length p.weighted_sequence) p
      ⊎ (((c : ℕ) → c < length p.weighted_sequence → suspended_at now p c ≡ true)
          × ((select_next now p).0 ≡ ok none))
unfolding select_next
select_next_first now i p v = elim (attempt_lem now i (length p.weighted_sequence) p v) [
  | inl r ↦ inl r
  | inr (all, r) ↦ inr (
    λ c h.
        (let (j, b, e) = ring_reach (length p.weighted_sequence) i c h in
          ap (suspended_at now p) (sym e) ∙ all j b),
    r,
  )
]
