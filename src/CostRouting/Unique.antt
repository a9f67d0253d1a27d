-- ===== src/CostRouting/Unique.antt =====
-- The routes that parseRoutes returns: how many there are, and that their models differ.
use text.Mathlib.TextEquality.{eq_iff}
use gateway_controllers.Prelude.{
  ℕ, zero, suc, ◌≤◌, ◌≡◌, refl, ap, subst, inl, inr, String, false, ◌||◌, ◌==◌, some, List, [], ◌∷◌,
  length, get_elem?, arith, Bool-cases, ltb, sym, ◌∙◌,
}
use gateway_controllers.Prelude.Int.{ℤ}
use gateway_controllers.Prelude.Text.{has_text}
use gateway_controllers.Limiter.{ok}
use gateway_controllers.Value.{Value, array}
use gateway_controllers.CostRouting.{CostRoute, Texts, CostOps}
use gateway_controllers.CostRouting.Scan.{IsExact}
use gateway_controllers.CostRouting.Parsing.{ParseOps, parse_routes, count}
use gateway_controllers.CostRouting.Parsed.{IsRoute, AllFresh, parse_items-AllFresh}

module _ (texts : Texts) (ops : CostOps) (parse : ParseOps texts.Pattern) where
  abbrev Route : Type 0
  Route = CostRoute texts.Pattern

  AllFresh-at :
      (names models : List String) (rs : List Route) (j : ℕ) (s : Route)
      → AllFresh texts ops parse names models rs
      → get_elem? rs j ≡ some s
      → IsRoute texts ops parse s
        × (has_text s.name names ≡ false)
        × (has_text s.target.model models ≡ false)
  unfolding has_text
  AllFresh-at names models [] j s f e = absurd (cc)
  AllFresh-at names models (r ∷ rs) zero s (a, b, c, d) e =
      let same : r ≡ s = ground (arith, e) in
      subst
        (λ (x : Route).
          IsRoute texts ops parse x
          × (has_text x.name names ≡ false)
          × (has_text x.target.model models ≡ false))
        same (a, b, c)
  AllFresh-at names models (r ∷ rs) (suc j) s (a, b, c, d) e =
      let (x, y, z) = AllFresh-at (r.name ∷ names) (r.target.model ∷ models) rs j s d e in
      (x, ground (arith, y), ground (arith, z))

  AllFresh-distinct :
      (names models : List String) (rs : List Route) (i j : ℕ) (r s : Route)
      → AllFresh texts ops parse names models rs
      → get_elem? rs i ≡ some r
      → get_elem? rs j ≡ some s
      → r.target.model ≡ s.target.model
      → i ≡ j
  unfolding has_text
  AllFresh-distinct names models [] i j r s f ei ej same = absurd (cc)
  AllFresh-distinct names models (x ∷ rs) zero zero r s f ei ej same = refl
  AllFresh-distinct names models (x ∷ rs) zero (suc j) r s (a, b, c, d) ei ej same =
      let (p, q, t) = AllFresh-at (x.name ∷ names) (x.target.model ∷ models) rs j s d ej in
      let m : x.target.model ≡ s.target.model = ground (arith, ei, same) in
      absurd (ground (arith, t, m, eq_iff x.target.model s.target.model))
  AllFresh-distinct names models (x ∷ rs) (suc i) zero r s (a, b, c, d) ei ej same =
      let (p, q, t) = AllFresh-at (x.name ∷ names) (x.target.model ∷ models) rs i r d ei in
      let m : x.target.model ≡ r.target.model = ground (arith, ej, same) in
      absurd (ground (arith, t, m, eq_iff x.target.model r.target.model))
  AllFresh-distinct names models (x ∷ rs) (suc i) (suc j) r s (a, b, c, d) ei ej same =
      ap suc (AllFresh-distinct (x.name ∷ names) (x.target.model ∷ models) rs i j r s d ei ej same)

  -- Between one and ten routes, each well-formed, with different models.
  pub record IsParsed (rs : List Route) : Type 0 where
    pub some_route : 1 ≤ length rs
    pub few : length rs ≤ 10
    pub routes : (i : ℕ) (r : Route) → get_elem? rs i ≡ some r → IsRoute texts ops parse r
    pub distinct :
        (i j : ℕ) (r s : Route)
        → get_elem? rs i ≡ some r
        → get_elem? rs j ≡ some s
        → r.target.model ≡ s.target.model
        → i ≡ j

  -- parseRoutes returns between one and ten routes. No two have one model; each has a pattern exactly
  -- if its model has a star, no provider if it is a wildcard, and every limit of it has a positive
  -- number of units and a positive duration.
  pub parse_routes-IsParsed :
      (v : Value) (factor : ℤ) (field : String) (rs : List Route)
      → parse_routes texts ops parse v factor field ≡ ok rs
      → IsParsed rs
  unfolding parse_routes
  parse_routes-IsParsed (array items) factor field rs h =
      elim (Bool-cases
        ((count texts ops parse items == 0) || ltb 10 (count texts ops parse items))) [
          | inl t ↦ absurd (ground (arith, t, h))
          | inr t ↦
              let (f, n) =
                parse_items-AllFresh texts ops parse factor field 0 items [] [] rs
                  (ground (arith, t, h)) in
              record {
                some_route = ground (arith, t, n);
                few = ground (arith, t, n);
                routes = λ i r e. (AllFresh-at [] [] rs i r f e).0;
                distinct = λ i j r s. AllFresh-distinct [] [] rs i j r s f;
              }
        ]
  parse_routes-IsParsed v factor field rs h = absurd (ground (arith, h))

  -- At most one of them is a route of a model.
  pub exact_unique :
      (rs : List Route) (model : String) (i k : ℕ) (r s : Route)
      → IsParsed rs
      → get_elem? rs i ≡ some r
      → get_elem? rs k ≡ some s
      → IsExact model r
      → IsExact model s
      → k ≡ i
  exact_unique rs model i k r s parsed ei ek xr xs =
      parsed.distinct k i s r ek ei
        ((eq_iff s.target.model model).0 xs.1 ∙ sym ((eq_iff r.target.model model).0 xr.1))
