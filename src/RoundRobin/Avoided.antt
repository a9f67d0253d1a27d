-- ===== src/RoundRobin/Avoided.antt =====
-- A failed target and the selections after it.
use gateway_controllers.Prelude.{
  ◌≡◌, refl, ◌∙◌, String, true, false, ℕ, ◌*◌, ◌<◌, ◌^◌, arith, inl, inr, some,
}
use gateway_controllers.Prelude.Int.{◌+ℤ◌, ℤ, pos, ◌<ℤ◌}
use gateway_controllers.Limiter.{Instant, ok}
use gateway_controllers.Routing.{is_suspended}
use gateway_controllers.RoundRobin.{ModelConfig, Policy, select_next}
use text.Mathlib.Text.{◌==◌ as str_eq}
use gateway_controllers.Routing.{RequestModel, RequestHeaders, record_selection}
use gateway_controllers.Routing.Suspension.{IsPrefix, is_failure, failure_suspends}
use gateway_controllers.RoundRobin.{on_response, prefix}
use gateway_controllers.RoundRobin.Select.{IsValid, select_next_lem}

-- The metadata keys of the package differ.
keys-IsPrefix : IsPrefix prefix
keys-IsPrefix = record {
  original_model = refl;
  routing_model = refl;
  processed_model = refl;
  provider_model = refl;
  original_provider = refl;
  routing_provider = refl;
  processed_provider = refl;
}

-- After a failure (status 500 or above, or 429) of a selected target, whose model name is not empty,
-- and under a suspension between 1 and 2 ^ 33 seconds, no selection before the suspension is over
-- answers that model of that provider, from a valid index.
pub failed_model_avoided :
    (p : Policy) (r : RequestModel) (req : RequestHeaders) (model provider : String) (seconds : ℕ)
    (now later : Instant) (status : ℤ)
    → p.params.suspend_duration ≡ pos seconds
    → 0 < seconds
    → seconds < 2 ^ 33
    → is_failure status ≡ true
    → str_eq model "" ≡ false
    → IsValid p
    → later <ℤ now +ℤ pos (seconds * 1_000_000_000)
    → let p' = on_response now status (record_selection prefix r model provider req) p in
      ¬ (
        (m : ModelConfig) × ((select_next later p').0 ≡ ok (some m))
        × (m.model ≡ model)
        × (m.provider ≡ provider))
failed_model_avoided p r req model provider seconds now later status d h k f e v l (m, s, em, ep) =
    let p' = on_response now status (record_selection prefix r model provider req) p in
    let held : is_suspended later p'.suspended_models m.provider m.model ≡ true =
      unfold on_response in
      rw (d, em, ep)
        (failure_suspends prefix keys-IsPrefix r model provider req seconds now later status
            p.suspended_models h k f e
          ∙ ground arith) in
    elim (select_next_lem later p' (unfold on_response in v)) [
      | inl picked ↦
          let answer : (select_next later p').0 ≡ ok (some picked.model) =
            unfold select_next in picked.answer in
          let same : m ≡ picked.model = cc in
          let freed : is_suspended later p'.suspended_models picked.model.provider
                picked.model.model
              ≡ false =
            picked.free in
          absurd (cc)
      | inr (all, nothing) ↦ cc
    ]
