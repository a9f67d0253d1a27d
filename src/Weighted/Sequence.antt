-- ===== src/Weighted/Sequence.antt =====
-- buildWeightedSequence: the share of each model.
use gateway_controllers.Prelude.{
  ◌≡◌, refl, ap, ◌∙◌, Bool, true, ℕ, ◌+◌, ◌≤◌, ◌<◌, ◌^◌, arith, if◌then◌else◌, inl, inr, Bool-cases,
  List, [], ◌∷◌, replicate,
}
use gateway_controllers.Prelude.Int.{ℤ, pos, negsuc, pos_part, lt_ℤ, add64, add64-pos}
use gateway_controllers.Prelude.Sums.{count, count-append, count-replicate}
use gateway_controllers.Weighted.{WeightedModel, total_from, repeat_models, build_weighted_sequence}

-- The weights of the models that a test accepts, added up.
unfoldable pub weight_of : (WeightedModel → Bool) → List WeightedModel → ℕ
weight_of q [] = 0
weight_of q (m ∷ ms) = (if q m then pos_part m.weight else 0) + weight_of q ms

abbrev pub anything : WeightedModel → Bool
anything m = true

add_weight :
    (t : ℕ) (x : ℤ)
    → lt_ℤ (pos 0) x ≡ true
    → t + pos_part x < 2 ^ 63
    → add64 (pos t) x ≡ pos (t + pos_part x)
add_weight t (pos w) c h = add64-pos t w h
add_weight t (negsuc w) c h = absurd (ground arith)

total_from_lem :
    (t : ℕ) (ms : List WeightedModel)
    → t + weight_of anything ms < 2 ^ 63
    → total_from (pos t) ms ≡ pos (t + weight_of anything ms)
unfolding weight_of
total_from_lem t [] h = ap pos (omega arith)
total_from_lem t (m ∷ ms) h = elim (Bool-cases (lt_ℤ (pos 0) m.weight)) [
  | inl c ↦
      rw (c, add_weight t m.weight c (omega arith))
        (total_from_lem (t + pos_part m.weight) ms (omega arith) ∙ ap pos (omega arith))
  | inr c ↦ rw c (total_from_lem t ms (omega arith) ∙ ap pos (ground arith))
]

weight_of_le :
    (q : WeightedModel → Bool) (ms : List WeightedModel) → weight_of q ms ≤ weight_of anything ms
unfolding weight_of
weight_of_le q [] = omega arith
weight_of_le q (m ∷ ms) = ground (arith, weight_of_le q ms)

repeat_models_shares :
    (q : WeightedModel → Bool) (ms : List WeightedModel)
    → count q (repeat_models ms) ≡ weight_of q ms
unfolding weight_of count
repeat_models_shares q [] = refl
repeat_models_shares q (m ∷ ms) = elim (Bool-cases (lt_ℤ (pos 0) m.weight)) [
  | inl c ↦ rw c (
      count-append q (replicate (pos_part m.weight) m) (repeat_models ms)
      ∙ ground (arith, count-replicate q (pos_part m.weight) m, repeat_models_shares q ms))
  | inr c ↦ rw c (ground (arith, repeat_models_shares q ms))
]

-- Where the sum of the positive weights is below 2 ^ 63, the sequence holds each kind of models, as
-- any test picks them out, as often as the weights of those models say.
pub build_weighted_sequence_shares :
    (q : WeightedModel → Bool) (ms : List WeightedModel)
    → weight_of anything ms < 2 ^ 63
    → count q (build_weighted_sequence ms) ≡ weight_of q ms
unfolding build_weighted_sequence count
build_weighted_sequence_shares q ms h =
    ground (arith, total_from_lem 0 ms (omega arith), repeat_models_shares q ms, weight_of_le q ms)
