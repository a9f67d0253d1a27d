-- ===== src/RoundRobin/Parsed.antt =====
-- GetPolicy.
use gateway_controllers.Prelude.{
  ◌≡◌, refl, ap, ℕ, suc, ◌<◌, arith, inl, inr, Option-cases, List, length,
}
use mathlib.Core.Path.{subst}
use gateway_controllers.Limiter.{Outcome, ok, err, panic, from_bind, OfOk}
use gateway_controllers.Value.{Fields, FloatOps, Items, end, item, lookup}
use gateway_controllers.Routing.Parsing.{
  wrapped, parse_model_list, parse_suspend_duration, parse_request_model,
}
use gateway_controllers.RoundRobin.{
  ModelConfig, Params, Policy, parse_model, parse_models, parse_params, get_policy,
}
use gateway_controllers.RoundRobin.Select.{IsValid}

abbrev size : Items → ℕ
size end = 0
size (item v rest) = suc (size rest)

length-parse_models :
    (i : ℕ) (vs : Items) (ws : List ModelConfig) → parse_models i vs ≡ ok ws → length ws ≡ size vs
unfolding parse_models
length-parse_models i end ws h = subst (OfOk (λ x. length x ≡ 0)) h refl
length-parse_models i (item v rest) ws h = from_bind (parse_model i v) _ ws h (λ w ew h1.
    from_bind (parse_models (suc i) rest) _ ws h1 (λ others eo done.
      subst (OfOk (λ x. length x ≡ suc (size rest))) done
        (ap suc (length-parse_models (suc i) rest others eo))))

parse_model_list_filled :
    (params : Fields) (vs : Items) → parse_model_list params ≡ ok vs → 0 < size vs
unfolding parse_model_list
parse_model_list_filled params vs h = elim (Option-cases (lookup "models" params)) [
  | inl n ↦ absurd (ground arith)
  | inr (v, n) ↦ ground arith
]

-- A policy that GetPolicy makes starts from a valid index: the selection never panics.
pub get_policy-IsValid :
    (ops : FloatOps) (params : Fields) (p : Policy) → get_policy ops params ≡ ok p → IsValid p
unfolding get_policy parse_params
get_policy-IsValid ops params p h =
    from_bind (wrapped "invalid params" (parse_params ops params)) _ p h (λ ps eps done.
      from_bind (parse_model_list params) _ ps (unwrapped (parse_params ops params) ps eps)
        (λ vs ev h1. from_bind (parse_models 0 vs) _ ps h1 (λ ms em h2.
          from_bind (parse_suspend_duration ops params) _ ps h2 (λ d ed h3.
            from_bind (parse_request_model params) _ ps h3 (λ r er read. subst (OfOk IsValid) done (
              subst (OfOk (λ x. 0 < length x.models)) read (
                omega (
                  arith,
                  length-parse_models 0 vs ms em,
                  parse_model_list_filled params vs ev,
                ))))))))
  where
    unwrapped : (o : Outcome Params) (ps : Params) → wrapped "invalid params" o ≡ ok ps → o ≡ ok ps
    unwrapped (ok a) ps e = e
    unwrapped (err a) ps e = cc
    unwrapped panic ps e = cc
