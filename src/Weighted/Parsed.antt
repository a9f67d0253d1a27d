-- ===== src/Weighted/Parsed.antt =====
-- parseParams and GetPolicy.
use text.Mathlib.Text.{◌==◌ as str_eq}
use gateway_controllers.Prelude.{
  ◌≡◌, refl, ap, false, ℕ, suc, ◌<◌, arith, inl, inr, Option-cases, List, [], ◌∷◌, length,
}
use gateway_controllers.Prelude.Int.{ℤ, pos, ◌≤ℤ◌}
use mathlib.Core.Path.{subst}
use gateway_controllers.Limiter.{ok, from_bind, OfOk}
use gateway_controllers.Value.{Value, Fields, FloatOps, Items, end, item, lookup}
use gateway_controllers.Routing.Parsing.{
  model_field, as_model, parse_provider, parse_model_list, parse_model_name, parse_suspend_duration,
  parse_request_model,
}
use gateway_controllers.Routing.Parsed.{
  IsRequestModel, required_string-filled, parse_suspend_duration_bounds,
  parse_request_model-IsRequestModel,
}
use gateway_controllers.Weighted.{
  WeightedModel, Params, parse_weight, parse_model, parse_models, parse_params,
}

-- Every model has a name and a weight of at least 1.
abbrev pub AllWeighted : List WeightedModel → Type 0
AllWeighted [] = Unit {0}
AllWeighted (m ∷ ms) = ((str_eq m.model "" ≡ false) × (pos 1 ≤ℤ m.weight)) × AllWeighted ms

pub record IsParsed (ps : Params) : Type 0 where
  pub some_model : 0 < length ps.models
  pub weighted : AllWeighted ps.models
  pub duration : pos 0 ≤ℤ ps.suspend_duration
  pub request : IsRequestModel ps.request_model

module _ (ops : FloatOps) where
  parse_weight_bounds : (i : ℕ) (m : Fields) (n : ℤ) → parse_weight ops i m ≡ ok n → pos 1 ≤ℤ n
  unfolding parse_weight
  parse_weight_bounds i m n h = elim (Option-cases (lookup "weight" m)) [
    | inl k ↦ absurd (ground arith)
    | inr (v, k) ↦ ground arith
  ]

  parse_model_good :
      (i : ℕ) (v : Value) (w : WeightedModel)
      → parse_model ops i v ≡ ok w
      → (str_eq w.model "" ≡ false) × (pos 1 ≤ℤ w.weight)
  unfolding parse_model parse_model_name
  parse_model_good i v w h = from_bind (as_model i v) _ w h (λ m em h1.
      from_bind (parse_model_name i m) _ w h1 (λ name en h2.
        from_bind (parse_weight ops i m) _ w h2 (λ weight ew h3.
          from_bind (parse_provider i m) _ w h3 (λ provider ep done.
            subst (OfOk (λ x. (str_eq x.model "" ≡ false) × (pos 1 ≤ℤ x.weight))) done (
              required_string-filled (model_field i "model") m "model" name en,
              parse_weight_bounds i m weight ew,
            )))))

  parse_models_good :
      (i : ℕ) (vs : Items) (ws : List WeightedModel)
      → parse_models ops i vs ≡ ok ws
      → AllWeighted ws
  unfolding parse_models
  parse_models_good i end ws h = subst (OfOk AllWeighted) h tt
  parse_models_good i (item v rest) ws h = from_bind (parse_model ops i v) _ ws h (λ w ew h1.
      from_bind (parse_models ops (suc i) rest) _ ws h1 (λ others eo done.
        subst (OfOk AllWeighted) done
          (parse_model_good i v w ew, parse_models_good (suc i) rest others eo)))

  abbrev size : Items → ℕ
  size end = 0
  size (item v rest) = suc (size rest)

  length-parse_models :
      (i : ℕ) (vs : Items) (ws : List WeightedModel)
      → parse_models ops i vs ≡ ok ws
      → length ws ≡ size vs
  unfolding parse_models
  length-parse_models i end ws h = subst (OfOk (λ x. length x ≡ 0)) h refl
  length-parse_models i (item v rest) ws h = from_bind (parse_model ops i v) _ ws h (λ w ew h1.
      from_bind (parse_models ops (suc i) rest) _ ws h1 (λ others eo done.
        subst (OfOk (λ x. length x ≡ suc (size rest))) done
          (ap suc (length-parse_models (suc i) rest others eo))))

  parse_model_list_filled :
      (params : Fields) (vs : Items) → parse_model_list params ≡ ok vs → 0 < size vs
  unfolding parse_model_list
  parse_model_list_filled params vs h = elim (Option-cases (lookup "models" params)) [
    | inl n ↦ absurd (ground arith)
    | inr (v, n) ↦ ground arith
  ]

  -- Parameters that the parsing accepts hold at least one model, each with a name and a weight of at
  -- least 1, a suspension that is not negative, one of the four locations, and an identifier.
  pub parse_params-IsParsed :
      (params : Fields) (ps : Params) → parse_params ops params ≡ ok ps → IsParsed ps
  unfolding parse_params
  parse_params-IsParsed params ps h = from_bind (parse_model_list params) _ ps h (λ vs ev h1.
      from_bind (parse_models ops 0 vs) _ ps h1 (λ ms em h2.
        from_bind (parse_suspend_duration ops params) _ ps h2 (λ d ed h3.
          from_bind (parse_request_model params) _ ps h3 (λ r er done.
            subst (OfOk IsParsed) done (record {
              some_model =
                  omega
                    (arith, length-parse_models 0 vs ms em, parse_model_list_filled params vs ev);
              weighted = parse_models_good 0 vs ms em;
              duration = parse_suspend_duration_bounds ops params d ed;
              request = parse_request_model-IsRequestModel params r er;
            })))))
