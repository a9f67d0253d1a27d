-- ===== src/Weighted/Rotation.antt =====
-- Selections in a row, with no model suspended.
use gateway_controllers.Prelude.{
  ◌≡◌, refl, ap, ◌∙◌, String, Bool, ℕ, zero, suc, ◌+◌, ◌%◌, ◌<◌, ◌^◌, arith, if◌then◌else◌, Option,
  none, some, List, length, get_elem?, get_elem?-lt,
}
use gateway_controllers.Prelude.Sums.{sum, count, hit, sum_round}
use native.Mathlib.Nat.{mod-lt}
use gateway_controllers.Limiter.{Instant, Outcome, ok, err, panic}
use gateway_controllers.Routing.{suspension_key}
use gateway_controllers.Weighted.{WeightedModel, Policy, select_next, build_weighted_sequence}
use gateway_controllers.Weighted.Sequence.{weight_of, anything, build_weighted_sequence_shares}
use gateway_controllers.Weighted.Select.{IsAt, moved, moved-IsAt, attempt_unsuspended}

abbrev hit_of : (WeightedModel → Bool) → Outcome (Option WeightedModel) → ℕ
hit_of q (ok o) = hit q o
hit_of q (err e) = 0
hit_of q panic = 0

-- How many of the next `k` selections, at any instants, answer a model that the test accepts.
unfoldable pub served : (WeightedModel → Bool) → (ℕ → Instant) → ℕ → Policy → ℕ
served q times zero p = 0
served q times (suc k) p = let (o, p') = select_next (times k) p in hit_of q o + served q times k p'

select_next_unsuspended :
    (now : Instant) (i n : ℕ) (p : Policy) (m : WeightedModel)
    → length p.weighted_sequence ≡ n
    → IsAt i n p
    → get_elem? p.weighted_sequence (i % length p.weighted_sequence) ≡ some m
    → p.suspended_models (suspension_key m.provider m.model) ≡ none
    → select_next now p ≡ (ok (some m), moved p)
unfolding select_next
select_next_unsuspended now i zero p m l v e h = absurd (omega (arith, v.some_model))
select_next_unsuspended now i (suc n) p m l v e h = rw l (attempt_unsuspended now i n p v m e h)

served-sum :
    (q : WeightedModel → Bool) (times : ℕ → Instant) (i k : ℕ) (p : Policy)
    → IsAt i (k + length p.weighted_sequence) p
    → ((key : String) → p.suspended_models key ≡ none)
    → served q times k p
      ≡ sum (λ c. hit q (get_elem? p.weighted_sequence (c % length p.weighted_sequence))) i k
unfolding served sum
served-sum q times i zero p v h = refl
served-sum q times i (suc k) p v h =
    let n = length p.weighted_sequence in
    let (m, e) = get_elem?-lt p.weighted_sequence (i % n) (mod-lt i v.some_model) in
    let now_at : IsAt i n p = record {
      at = v.at;
      below = omega (arith, v.below);
      some_model = v.some_model;
    } in
    let rest_at : IsAt (suc i) (k + n) (moved p) =
      moved-IsAt (times k) i (k + n) p
        (record { at = v.at; below = omega (arith, v.below); some_model = v.some_model }) m e in
    rw
      (
        select_next_unsuspended (times k) i n p m refl now_at e
            (h (suspension_key m.provider m.model)),
        e,
      )
      (ap (λ s. (if q m then 1 else 0) + s) (served-sum q times (suc i) k (moved p) rest_at h))

-- Where no model is suspended, the sequence is the one built of `ms`, the sum of whose positive
-- weights is below 2 ^ 63, and the index stays below 2 ^ 63: among as many selections in a row as
-- the sequence is long, each kind of models, as any test picks them out, is answered exactly as
-- often as the weights of those models say.
pub served_weights :
    (q : WeightedModel → Bool) (times : ℕ → Instant) (i : ℕ) (p : Policy) (ms : List WeightedModel)
    → p.weighted_sequence ≡ build_weighted_sequence ms
    → weight_of anything ms < 2 ^ 63
    → IsAt i (length p.weighted_sequence + length p.weighted_sequence) p
    → ((key : String) → p.suspended_models key ≡ none)
    → served q times (length p.weighted_sequence) p ≡ weight_of q ms
served_weights q times i p ms e w v h =
    served-sum q times i (length p.weighted_sequence) p v h
    ∙ sum_round q p.weighted_sequence i
    ∙ ap (count q) e
    ∙ build_weighted_sequence_shares q ms w
