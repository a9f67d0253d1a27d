-- ===== src/Weighted/Turns.antt =====
-- The cases of one attempt of the selection of the weighted round robin.
use gateway_controllers.Prelude.{
  ◌≡◌, refl, Bool-cases, Option-cases, true, false, ℕ, arith, inl, inr, some, none, suc,
}
use gateway_controllers.Prelude.Int.{lt_ℤ}
use gateway_controllers.Limiter.{Instant, ok, panic, delete}
use gateway_controllers.Routing.{suspension_key}
use gateway_controllers.Weighted.{WeightedModel, Policy, model_at, attempt}
use gateway_controllers.Weighted.Select.{moved}

-- What one attempt does: it leaves the sequence, takes a model that is free, skips one that is
-- suspended, or takes one whose suspension is over, and drops that suspension.
pub data Turn (t : Instant) (k : ℕ) (p : Policy) : Type 0 where
  panics : attempt t (suc k) p ≡ (panic, p) → Turn t k p
  takes :
      (m : WeightedModel)
      → p.suspended_models (suspension_key m.provider m.model) ≡ none
      → attempt t (suc k) p ≡ (ok (some m), moved p)
      → Turn t k p
  skips :
      (m : WeightedModel) (until : Instant)
      → p.suspended_models (suspension_key m.provider m.model) ≡ some until
      → lt_ℤ t until ≡ true
      → attempt t (suc k) p ≡ attempt t k (moved p)
      → Turn t k p
  frees :
      (m : WeightedModel) (until : Instant)
      → p.suspended_models (suspension_key m.provider m.model) ≡ some until
      → lt_ℤ t until ≡ false
      → attempt t (suc k) p ≡ (
        ok (some m),
        record (moved p) {
          suspended_models = delete (suspension_key m.provider m.model) p.suspended_models;
        },
      )
      → Turn t k p

pub attempt-Turn : (t : Instant) (k : ℕ) (p : Policy) → Turn t k p
unfolding attempt
attempt-Turn t k p = elim (Option-cases (model_at p)) [
  | inl n ↦ panics (rw (attempt, model_at, n) refl)
  | inr (m, n) ↦ elim (Option-cases (p.suspended_models (suspension_key m.provider m.model))) [
    | inl free ↦ takes m free (ground (arith, n, free))
    | inr (until, e) ↦ elim (Bool-cases (lt_ℤ t until)) [
      | inl b ↦ skips m until e b (ground (arith, n, e, b))
      | inr b ↦ frees m until e b (ground (arith, n, e, b))
    ]
  ]
]
