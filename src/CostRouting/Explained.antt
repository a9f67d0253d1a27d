-- ===== src/CostRouting/Explained.antt =====
-- The decision of selectTarget: the fallback, the wildcard and the requested model in turn.
use text.Mathlib.Text.{◌==◌ as str_eq}
use gateway_controllers.Prelude.{
  ℕ, ◌≡◌, refl, sym, ◌∙◌, ap, ◌≢◌, inl, inr, String, true, false, none, some, length, get_elem?,
  lt_of_get_elem?, arith, Bool-cases, Option-cases, subst,
}
use gateway_controllers.Prelude.Int.{pos_part, neg_part}
use gateway_controllers.Multi.{Limiter}
use gateway_controllers.CostRouting.{
  CostRoute, Texts, Policy, is_index, Indices, no_indices, is_plain, find_indices, check_budget,
  try_fallback, try_wildcard, try_requested, select_target, exhausted_response, with_tier,
}
use gateway_controllers.CostRouting.Scan.{
  IsExact, IsFallback, Takes, Found, Covers, find_indices_lem,
}
use gateway_controllers.CostRouting.Choice.{
  IsSpent, IsReady, own, by_wildcard, by_fallback, AllSpent, Explained, refused,
}
use gateway_controllers.CostRouting.Checked.{Checked-with_tier, check_budget_cases, settle}

module _ (L : Limiter) (texts : Texts) (env : ℕ → L.Env) (p : Policy texts.Pattern L.State) where
  abbrev Route : Type 0
  Route = CostRoute texts.Pattern

  module _ (model : String) (ix : Indices) (ready : IsReady L texts env p)
      (f : Found texts p.config.fallback model p.config.routes (length p.config.routes) ix) where
    route-Covers :
        (k : ℕ) (r : Route)
        → get_elem? p.config.routes k ≡ some r
        → Covers texts p.config.fallback model ix r
    route-Covers k r e = f.seen k r (lt_of_get_elem? p.config.routes k r e) e

    -- What is spent before the fallback is tried.
    record SpentSoFar : Type 0 where
      requested : (r : ℕ) → ix.requested ≡ some r → IsSpent L texts env p r
      wildcard : ix.requested ≡ none → (w : ℕ) → ix.wildcard ≡ some w → IsSpent L texts env p w

    all_spent :
        SpentSoFar
        → (str_eq p.config.on_exhausted "reject" ≡ false
            → (k : ℕ) → p.config.fallback ≢ none
            → ix.fallback ≡ some k
            → IsSpent L texts env p k)
        → AllSpent L texts env p model
    all_spent before last = record {
      listed = λ k r e x. elim (Option-cases ix.requested) [
        | inl n ↦ absurd ((route-Covers k r e).exact x n)
        | inr (i, n) ↦
            let (o, at_o, exact) = f.requested i n in (i, o, at_o, exact, before.requested i n)
      ];
      unlisted = λ unlisted k r e takes. elim (Option-cases ix.wildcard) [
        | inl n ↦ absurd (((route-Covers k r e).wildcard takes).0 n)
        | inr (i, n) ↦
            let (o, at_o, t, best) = f.wildcard i n in
            (
              i,
              o,
              at_o,
              t,
              omega (
                arith,
                ((route-Covers k r e).wildcard takes).1,
                ap pos_part best,
                ap neg_part best,
              ),
              before.wildcard (not_listed unlisted) i n,
            )
      ];
      fallback = λ allowed k r e x. elim (Option-cases ix.fallback) [
        | inl n ↦ absurd ((route-Covers k r e).fallback x n)
        | inr (i, n) ↦
            let (o, at_o, t) = f.fallback i n in (i, o, at_o, t, last allowed i (configured r x) n)
      ];
    }
      where
        not_listed :
            ((k : ℕ) (r : Route) → get_elem? p.config.routes k ≡ some r → ¬ (IsExact model r))
            → ix.requested ≡ none
        not_listed unlisted = elim (Option-cases ix.requested) [
          | inl n ↦ n
          | inr (i, n) ↦ let (o, at_o, exact) = f.requested i n in absurd (unlisted i o at_o exact)
        ]

        configured : (r : Route) → IsFallback p.config.fallback r → p.config.fallback ≢ none
        configured r x n = ground (arith, x.1, n)

    is_that :
        (k i : ℕ)
        → ix.fallback ≡ some k
        → ix.fallback ≡ some i
        → is_index i ix.requested ≡ true
        → ix.requested ≡ some k
    is_that k i n found same = elim (Option-cases ix.requested) [
      | inl e ↦ ground (arith, e, same)
      | inr (j, e) ↦ ground (arith, e, same, n, found)
    ]

    try_fallback-Explained :
        SpentSoFar → Explained L texts env p model (try_fallback L texts env p ix)
    unfolding try_fallback
    try_fallback-Explained before = elim (Bool-cases (str_eq p.config.on_exhausted "reject")) [
      | inl e ↦ rw e (refused refl (all_spent before (λ no_reject k h n. absurd (cc))))
      | inr e ↦ elim (Option-cases p.config.fallback) [
        | inl no_fb ↦
            refused (ground (arith, e, no_fb))
              (all_spent before (λ no_reject k h n. absurd (h no_fb)))
        | inr (t, fb) ↦ elim (Option-cases ix.fallback) [
          | inl none_found ↦
              refused (ground (arith, e, fb, none_found))
                (all_spent before (λ no_reject k h n. absurd (cc)))
          | inr (i, found) ↦ elim (Bool-cases (is_index i ix.requested)) [
            | inl same ↦ refused (ground (arith, e, fb, found, same)) (
                all_spent before (λ no_reject k h n. before.requested k (is_that k i n found same)))
            | inr differ ↦
                let (route, at_i, x) = f.fallback i found in
                subst (Explained L texts env p model) (ground (arith, e, fb, found, differ)) (
                  settle L texts env p model i t route
                    (with_tier "fallback" (check_budget L texts env p i (some t)))
                    exhausted_response
                    (Checked-with_tier L texts env p "fallback" i t route.name _
                      (check_budget_cases L texts env p i (some t) route ready at_i))
                    at_i (λ s target. by_fallback x (fb ∙ ap some (sym target)) e)
                    (λ spent. refused refl (
                      all_spent before (λ no_reject k h n.
                        subst (IsSpent L texts env p) (ground (arith, n, found)) spent))))
          ]
        ]
      ]
    ]

    try_wildcard-Explained :
        ix.requested ≡ none → Explained L texts env p model (try_wildcard L texts env p model ix)
    unfolding try_wildcard
    try_wildcard-Explained unlisted = elim (Option-cases ix.wildcard) [
      | inl e ↦
          rw (e, try_wildcard)
            (try_fallback-Explained
              (record { requested = λ r h. absurd (cc); wildcard = λ n w h. absurd (cc) }))
      | inr (w, e) ↦
          let (route, at_w, takes, best) = f.wildcard w e in
          subst (Explained L texts env p model) (ground (arith, e, is_plain_of route takes)) (
            settle L texts env p model w (record { model = model; provider = "" }) route
              (with_tier "wildcard"
                (check_budget L texts env p w (some (record { model = model; provider = "" }))))
              (try_fallback L texts env p ix)
              (Checked-with_tier L texts env p "wildcard" w
                (record { model = model; provider = "" }) route.name _
                (check_budget_cases L texts env p w (some (record { model = model; provider = "" }))
                  route ready at_w))
              at_w
              (λ s target.
                by_wildcard takes target (λ k r at_k x. (route-Covers k r at_k).exact x unlisted)
                  (λ k r at_k x. omega (
                    arith,
                    ((route-Covers k r at_k).wildcard x).1,
                    ap pos_part best,
                    ap neg_part best,
                  )))
              (λ spent. try_fallback-Explained (record {
                requested = λ r h. absurd (cc);
                wildcard = λ n i h. subst (IsSpent L texts env p) (ground (arith, h, e)) spent;
              })))
    ]
      where
        is_plain_of : (route : Route) → Takes texts model route → is_plain texts model ≡ true
        is_plain_of route (q, e, h) = ground (arith, h)

    try_requested-Explained : Explained L texts env p model (try_requested L texts env p model ix)
    unfolding try_requested
    try_requested-Explained = elim (Option-cases ix.requested) [
      | inl e ↦ rw (e, try_requested) (try_wildcard-Explained e)
      | inr (r, e) ↦
          let (route, at_r, exact) = f.requested r e in
          subst (Explained L texts env p model) (ground (arith, e)) (
            settle L texts env p model r route.target route (check_budget L texts env p r none)
              (try_fallback L texts env p ix)
              (check_budget_cases L texts env p r none route ready at_r) at_r
              (λ s target. own exact target)
              (λ spent. try_fallback-Explained (record {
                requested = λ i h. subst (IsSpent L texts env p) (ground (arith, h, e)) spent;
                wildcard = λ n i h. absurd (cc);
              })))
    ]

  -- Every decision of selectTarget is explained. A selection names a route whose budget has units
  -- left, or whose store failed open: a route of the requested model itself; the wildcard route of
  -- the highest specificity among those that match, where no route lists the model, and then the
  -- requested name and no provider; or the route of the configured fallback, where onExhausted is
  -- not reject. The answer 429 means that a route of the model is spent if one lists it, otherwise
  -- that the matching wildcard is spent if there is one, and that a route of the fallback is spent
  -- if there is one, unless fallbacks are rejected. The answer 503 means that a store failed closed. This is for a
  -- policy with a budget for each route, and stores that do not panic.
  pub select_target-Explained :
      (model : String)
      → IsReady L texts env p
      → Explained L texts env p model (select_target L texts env p model)
  unfolding select_target
  select_target-Explained model ready =
      try_requested-Explained model
        (find_indices texts p.config.fallback model 0 p.config.routes no_indices) ready
        (find_indices_lem texts p.config.fallback model p.config.routes)
