-- ===== src/Weighted/Avoided.antt =====
-- A failed target and the hooks that run after it.
use text.Mathlib.Text.{◌==◌ as str_eq}
use text.Mathlib.TextEquality.{eq_iff}
use gateway_controllers.Prelude.{
  ◌≡◌, refl, sym, ◌∙◌, ap, String, true, false, ℕ, ◌*◌, ◌<◌, ◌^◌, arith, inl, inr, some, none, List,
  [], ◌∷◌, ◌≢◌, suc, zero, length,
}
use gateway_controllers.Prelude.Int.{◌+ℤ◌, ℤ, pos, ◌<ℤ◌, ◌≤ℤ◌, +ℤ_parts}
use gateway_controllers.Limiter.{Instant, Map, ok}
use gateway_controllers.Value.{Value}
use gateway_controllers.Routing.{
  RequestModel, RequestHeaders, Paths, record_selection, suspension_key,
}
use gateway_controllers.Routing.Suspension.{
  IsPrefix, is_failure, failure_puts, response_keeps_or_puts,
}
use gateway_controllers.Weighted.{
  WeightedModel, Policy, attempt, select_next, on_request_headers, on_response, prefix,
}
use gateway_controllers.Weighted.Select.{moved}
use gateway_controllers.Weighted.Turns.{panics, takes, skips, frees, attempt-Turn}

-- The metadata keys of the package differ.
keys-IsPrefix : IsPrefix prefix
keys-IsPrefix = record {
  original_model = refl;
  routing_model = refl;
  processed_model = refl;
  provider_model = refl;
  original_provider = refl;
  routing_provider = refl;
  processed_provider = refl;
}

-- A call of one of the two hooks: any request, or any response with the metadata that it carries.
pub data Step : Type 0 where
  requests : Instant → RequestHeaders → Step
  responds : Instant → ℤ → Map Value → Step

abbrev pub instant : Step → Instant
instant (requests t req) = t
instant (responds t status metadata) = t

unfoldable pub step : Paths → Policy → Step → Policy
step paths p (requests t req) = (on_request_headers paths t req p).1
step paths p (responds t status metadata) = on_response t status metadata p

unfoldable pub run : Paths → Policy → List Step → Policy
run paths p [] = p
run paths p (x ∷ xs) = run paths (step paths p x) xs

-- The end of a suspension that begins now.
abbrev pub end_of : Instant → ℕ → Instant
end_of now seconds = now +ℤ pos (seconds * 1_000_000_000)

-- Every hook runs at an instant from `now` on, and before the suspension is over.
abbrev pub AllDuring : Instant → ℕ → List Step → Type 0
AllDuring now seconds [] = Unit
AllDuring now seconds (x ∷ xs) =
    (now ≤ℤ instant x) × (instant x <ℤ end_of now seconds) × AllDuring now seconds xs

module _ (model provider : String) (seconds : ℕ) (now : Instant) where
  -- The target is suspended, and for as long at least.
  record IsHeld (p : Policy) : Type 0 where
    until : Instant
    held : p.suspended_models (suspension_key provider model) ≡ some until
    late : end_of now seconds ≤ℤ until
    lasts : p.params.suspend_duration ≡ pos seconds

  moved-IsHeld : (p : Policy) → IsHeld p → IsHeld (moved p)
  moved-IsHeld p v = record { until = v.until; held = v.held; late = v.late; lasts = v.lasts }

  attempt-IsHeld :
      (t : Instant) (k : ℕ) (p : Policy)
      → t <ℤ end_of now seconds
      → IsHeld p
      → IsHeld (attempt t k p).1
  attempt-IsHeld t zero p b v = unfold attempt in v
  attempt-IsHeld t (suc k) p b v = elim (attempt-Turn t k p) [
    | panics e ↦ rw e v
    | takes m free e ↦ rw e (moved-IsHeld p v)
    | skips m until found held e ↦ rw e (attempt-IsHeld t k (moved p) b (moved-IsHeld p v))
    | frees m until found over e ↦ rw e (record {
      until = v.until;
      held = ground (
        arith,
        v.held,
        v.late,
        found,
        over,
        eq_iff (suspension_key m.provider m.model) (suspension_key provider model),
      );
      late = v.late;
      lasts = v.lasts;
    })
  ]

  not_answered :
      (t : Instant) (k : ℕ) (p : Policy) (m : WeightedModel)
      → t <ℤ end_of now seconds
      → IsHeld p
      → (attempt t k p).0 ≡ ok (some m)
      → suspension_key m.provider m.model ≢ suspension_key provider model
  not_answered t zero p m b v e same = unfold attempt in cc
  not_answered t (suc k) p m b v e same = elim (attempt-Turn t k p) [
    | panics a ↦ cc
    | takes x free a ↦
        let x_is : x ≡ m = cc in
        let empty : p.suspended_models (suspension_key provider model) ≡ none =
          rw (← same, ← x_is) free in
        cc
    | skips x until found held a ↦
        not_answered t k (moved p) m b (moved-IsHeld p v) (sym (ap (λ q. q.0) a) ∙ e) same
    | frees x until found over a ↦
        let x_is : x ≡ m = cc in
        let here : p.suspended_models (suspension_key provider model) ≡ some until =
          rw (← same, ← x_is) found in
        ground (arith, v.held, v.late)
  ]

  response-IsHeld :
      (t : Instant) (status : ℤ) (metadata : Map Value) (p : Policy)
      → seconds < 2 ^ 33
      → now ≤ℤ t
      → IsHeld p
      → IsHeld (on_response t status metadata p)
  unfolding on_response
  response-IsHeld t status metadata p h b v =
      elim (response_keeps_or_puts prefix seconds t status metadata p.suspended_models
        (suspension_key provider model) h) [
          | inl kept ↦ record {
            until = v.until;
            held = rw (v.lasts) (kept ∙ v.held);
            late = v.late;
            lasts = v.lasts;
          }
          | inr renewed ↦ record {
            until = end_of t seconds;
            held = rw (v.lasts) renewed;
            late = omega (
              arith,
              b,
              +ℤ_parts now (pos (seconds * 1_000_000_000)),
              +ℤ_parts t (pos (seconds * 1_000_000_000)),
            );
            lasts = v.lasts;
          }
        ]

  step-IsHeld :
      (paths : Paths) (p : Policy) (x : Step)
      → seconds < 2 ^ 33
      → now ≤ℤ instant x
      → instant x <ℤ end_of now seconds
      → IsHeld p
      → IsHeld (step paths p x)
  unfolding step on_request_headers select_next
  step-IsHeld paths p (requests t req) h b l v = attempt-IsHeld t (length p.weighted_sequence) p l v
  step-IsHeld paths p (responds t status metadata) h b l v =
      response-IsHeld t status metadata p h b v

  run-IsHeld :
      (paths : Paths) (p : Policy) (xs : List Step)
      → seconds < 2 ^ 33
      → AllDuring now seconds xs
      → IsHeld p
      → IsHeld (run paths p xs)
  unfolding run
  run-IsHeld paths p [] h d v = v
  run-IsHeld paths p (x ∷ xs) h d v =
      run-IsHeld paths (step paths p x) xs h d.2 (step-IsHeld paths p x h d.0 d.1 v)

-- After a failure (status 500 or above, or 429) of a selected target, whose model name is not empty,
-- and under a suspension of at least 1 and less than 2 ^ 33 seconds: whatever requests and responses
-- come next, in whatever order, at instants from the failure on and before the suspension is over,
-- no selection before the suspension is over answers that model of that provider.
pub failed_target_avoided :
    (paths : Paths) (p : Policy) (r : RequestModel) (req : RequestHeaders) (model provider : String)
    (seconds : ℕ) (now later : Instant) (status : ℤ) (xs : List Step)
    → p.params.suspend_duration ≡ pos seconds
    → 0 < seconds
    → seconds < 2 ^ 33
    → is_failure status ≡ true
    → str_eq model "" ≡ false
    → AllDuring now seconds xs
    → later <ℤ end_of now seconds
    → let failed = on_response now status (record_selection prefix r model provider req) p in
      ¬ (
        (m : WeightedModel) × ((select_next later (run paths failed xs)).0 ≡ ok (some m))
        × (m.model ≡ model)
        × (m.provider ≡ provider))
unfolding select_next
failed_target_avoided paths p r req model provider seconds now later status xs d h k f e during l
      (m, s, em, ep) =
    let failed = on_response now status (record_selection prefix r model provider req) p in
    let start : IsHeld model provider seconds now failed =
      unfold on_response in
      record {
        until = end_of now seconds;
        held = rw d (
            failure_puts prefix keys-IsPrefix r model provider req seconds now status
              p.suspended_models h k f e);
        late = omega arith;
        lasts = d;
      } in
    let after : Policy = run paths failed xs in
    not_answered model provider seconds now later (length after.weighted_sequence) after m l
      (run-IsHeld model provider seconds now paths failed xs k during start) s (rw (em, ep) refl)
