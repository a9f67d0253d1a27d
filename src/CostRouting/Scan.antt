-- ===== src/CostRouting/Scan.antt =====
-- The loop of selectTarget over the routes: which routes the three indices name.
use text.Mathlib.Text.{◌==◌ as str_eq}
use gateway_controllers.Prelude.{
  ℕ, suc, ◌+◌, ◌<◌, ◌≡◌, refl, ◌∙◌, ap, ◌≢◌, inl, inr, String, true, ◌&&◌, Option, none, some, List,
  [], ◌∷◌, length, get_elem?, arith, Bool-cases, Option-cases, subst, ℕ_discrete,
}
use gateway_controllers.Prelude.Int.{pos, negsuc, ◌≤ℤ◌, lt_ℤ}
use gateway_controllers.CostRouting.{
  Target, CostRoute, Texts, Indices, no_indices, is_model, is_plain, note_route, find_indices,
}

-- A route of an exact model, and a wildcard route that takes the model.
abbrev pub IsExact : {P : Type 0} → String → CostRoute P → Type 0
IsExact model route = (route.pattern ≡ none) × (str_eq route.target.model model ≡ true)

abbrev pub IsFallback : {P : Type 0} → Option Target → CostRoute P → Type 0
IsFallback fb route = (route.pattern ≡ none) × (is_model route.target.model fb ≡ true)

abbrev pub Takes : (texts : Texts) → String → CostRoute texts.Pattern → Type 0
Takes texts model route =
    (p : texts.Pattern) × (route.pattern ≡ some p)
    × ((is_plain texts model && texts.match_string p model) ≡ true)

module _ (texts : Texts) (fb : Option Target) (model : String) where
  abbrev Route : Type 0
  Route = CostRoute texts.Pattern

  -- What the indices know of a route that the loop has passed.
  pub record Covers (ix : Indices) (route : Route) : Type 0 where
    pub exact : IsExact model route → ix.requested ≢ none
    pub fallback : IsFallback fb route → ix.fallback ≢ none
    pub wildcard :
        Takes texts model route
        → (ix.wildcard ≢ none) × (pos route.specificity ≤ℤ ix.best_specificity)

  -- The indices after the first `i` routes of `all`.
  pub record Found (all : List Route) (i : ℕ) (ix : Indices) : Type 0 where
    pub requested :
        (r : ℕ)
        → ix.requested ≡ some r
        → (route : Route) × (get_elem? all r ≡ some route) × IsExact model route
    pub fallback :
        (r : ℕ)
        → ix.fallback ≡ some r
        → (route : Route) × (get_elem? all r ≡ some route) × IsFallback fb route
    pub wildcard :
        (r : ℕ)
        → ix.wildcard ≡ some r
        → (route : Route) × (get_elem? all r ≡ some route)
          × Takes texts model route
          × (ix.best_specificity ≡ pos route.specificity)
    pub seen : (k : ℕ) (route : Route) → k < i → get_elem? all k ≡ some route → Covers ix route

  -- The loop leaves nothing that it knows.
  record Grows (a b : Indices) : Type 0 where
    requested : a.requested ≢ none → b.requested ≢ none
    fallback : a.fallback ≢ none → b.fallback ≢ none
    wildcard : a.wildcard ≢ none → b.wildcard ≢ none
    best : a.best_specificity ≤ℤ b.best_specificity

  note_route-Grows :
      (i : ℕ) (route : Route) (ix : Indices) → Grows ix (note_route texts fb model i route ix)
  unfolding note_route
  note_route-Grows i route ix = elim (Option-cases route.pattern) [
    | inl e ↦ record {
      requested = λ h. rw e (elim (Bool-cases (str_eq route.target.model model)) [
        | inl s ↦ rw s (λ bad. ground arith)
        | inr s ↦ rw s h
      ]);
      fallback = λ h. rw e (elim (Bool-cases (is_model route.target.model fb)) [
        | inl s ↦ rw s (λ bad. ground arith)
        | inr s ↦ rw s h
      ]);
      wildcard = λ h. rw e h;
      best = rw e (omega arith);
    }
    | inr (p, e) ↦ record {
      requested = λ h. ground arith;
      fallback = λ h. ground arith;
      wildcard = λ h. ground arith;
      best = ground arith;
    }
  ]

  Covers-grow : (a b : Indices) (route : Route) → Grows a b → Covers a route → Covers b route
  Covers-grow a b route g c = record {
    exact = λ h. g.requested (c.exact h);
    fallback = λ h. g.fallback (c.fallback h);
    wildcard = λ h. (g.wildcard (c.wildcard h).0, omega (arith, (c.wildcard h).1, g.best));
  }

  -- The round of a route covers it.
  note_route-Covers :
      (i : ℕ) (route : Route) (ix : Indices)
      → (ix.wildcard ≡ none → ix.best_specificity ≡ negsuc 0)
      → Covers (note_route texts fb model i route ix) route
  unfolding note_route
  note_route-Covers i route ix start = record {
    exact = λ (e, s). rw (e, s) (λ bad. ground arith);
    fallback = λ (e, s). rw (e, s) (λ bad. ground arith);
    wildcard = λ (p, e, s). (
      elim (Bool-cases (lt_ℤ ix.best_specificity (pos route.specificity))) [
        | inl l ↦ ground (arith, e, s, l)
        | inr l ↦ elim (Option-cases ix.wildcard) [
          | inl n ↦ absurd (ground (arith, start n, l))
          | inr (w, some_w) ↦ ground (arith, e, s, l, some_w)
        ]
      ],
      ground (arith, e, s),
    );
  }

  abbrev HasStart : Indices → Type 0
  HasStart ix = ix.wildcard ≡ none → ix.best_specificity ≡ negsuc 0

  note_route-HasStart :
      (i : ℕ) (route : Route) (ix : Indices)
      → HasStart ix
      → HasStart (note_route texts fb model i route ix)
  unfolding note_route
  note_route-HasStart i route ix h n = elim (Option-cases ix.wildcard) [
    | inl e ↦ ground (arith, h e)
    | inr (w, e) ↦ ground arith
  ]

  -- One round keeps what the indices are known to be.
  note_route-Found :
      (all : List Route) (i : ℕ) (route : Route) (ix : Indices)
      → get_elem? all i ≡ some route
      → HasStart ix
      → Found all i ix
      → Found all (suc i) (note_route texts fb model i route ix)
  unfolding note_route
  note_route-Found all i route ix at_i start f = record {
    requested = λ r h. requested_is r h;
    fallback = λ r h. fallback_is r h;
    wildcard = λ r h. wildcard_is r h;
    seen = λ k other lt e. seen_is k other lt e;
  }
    where
      requested_is :
          (r : ℕ)
          → (note_route texts fb model i route ix).requested ≡ some r
          → (route : Route) × (get_elem? all r ≡ some route) × IsExact model route
      requested_is r h = elim (Option-cases route.pattern) [
        | inl e ↦ elim (Bool-cases (str_eq route.target.model model)) [
          | inl s ↦ (
            route,
            subst (λ (j : ℕ). get_elem? all j ≡ some route) (ground (arith, e, s, h)) at_i,
            (e, s),
          )
          | inr s ↦ f.requested r (ground (arith, e, s, h))
        ]
        | inr (p, e) ↦ f.requested r (ground (arith, e, h))
      ]

      fallback_is :
          (r : ℕ)
          → (note_route texts fb model i route ix).fallback ≡ some r
          → (route : Route) × (get_elem? all r ≡ some route) × IsFallback fb route
      fallback_is r h = elim (Option-cases route.pattern) [
        | inl e ↦ elim (Bool-cases (is_model route.target.model fb)) [
          | inl s ↦ (
            route,
            subst (λ (j : ℕ). get_elem? all j ≡ some route) (ground (arith, e, s, h)) at_i,
            (e, s),
          )
          | inr s ↦ f.fallback r (ground (arith, e, s, h))
        ]
        | inr (p, e) ↦ f.fallback r (ground (arith, e, h))
      ]

      wildcard_is :
          (r : ℕ)
          → (note_route texts fb model i route ix).wildcard ≡ some r
          → (other : Route) × (get_elem? all r ≡ some other)
            × Takes texts model other
            × ((note_route texts fb model i route ix).best_specificity ≡ pos other.specificity)
      wildcard_is r h = elim (Option-cases route.pattern) [
        | inl e ↦
            let (o, g, t, b) = f.wildcard r (ground (arith, e, h)) in
            (o, g, t, ground (arith, e, b))
        | inr (p, e) ↦ elim (Bool-cases (is_plain texts model && texts.match_string p model)) [
          | inl s ↦ elim (Bool-cases (lt_ℤ ix.best_specificity (pos route.specificity))) [
            | inl l ↦ (
              route,
              subst (λ (j : ℕ). get_elem? all j ≡ some route) (ground (arith, e, s, l, h)) at_i,
              (p, e, s),
              ground (arith, e, s, l),
            )
            | inr l ↦
                let (o, g, t, b) = f.wildcard r (ground (arith, e, s, l, h)) in
                (o, g, t, ground (arith, e, s, l, b))
          ]
          | inr s ↦
              let (o, g, t, b) = f.wildcard r (ground (arith, e, s, h)) in
              (o, g, t, ground (arith, e, s, b))
        ]
      ]

      seen_is :
          (k : ℕ) (other : Route)
          → k < suc i
          → get_elem? all k ≡ some other
          → Covers (note_route texts fb model i route ix) other
      seen_is k other lt e = elim (ℕ_discrete k i) [
        | yes same ↦
            subst (Covers (note_route texts fb model i route ix)) (ground (arith, same, e, at_i))
              (note_route-Covers i route ix start)
        | no differ ↦
            Covers-grow ix (note_route texts fb model i route ix) other
              (note_route-Grows i route ix) (f.seen k other (omega arith) e)
      ]

  find_indices-Found :
      (all rest : List Route) (i : ℕ) (ix : Indices)
      → ((j : ℕ) → get_elem? all (i + j) ≡ get_elem? rest j)
      → HasStart ix
      → Found all i ix
      → Found all (i + length rest) (find_indices texts fb model i rest ix)
  unfolding find_indices
  find_indices-Found all [] i ix shift start f = subst (λ (n : ℕ). Found all n ix) (omega arith) f
  find_indices-Found all (route ∷ rest) i ix shift start f =
      subst
        (λ (n : ℕ).
          Found all n
            (find_indices texts fb model (suc i) rest (note_route texts fb model i route ix)))
        (omega arith)
        (find_indices-Found all rest (suc i) (note_route texts fb model i route ix)
          (λ j. ap (get_elem? all) (omega arith) ∙ shift (suc j))
          (note_route-HasStart i route ix start)
          (note_route-Found all i route ix (ap (get_elem? all) (omega arith) ∙ shift 0) start f))

  -- The three indices after the whole loop.
  pub find_indices_lem :
      (routes : List Route)
      → Found routes (length routes) (find_indices texts fb model 0 routes no_indices)
  find_indices_lem routes =
      subst (λ (n : ℕ). Found routes n (find_indices texts fb model 0 routes no_indices))
        (omega arith)
        (find_indices-Found routes routes 0 no_indices (λ j. ap (get_elem? routes) (omega arith))
          (λ h. refl)
          (record {
            requested = λ r h. absurd (cc);
            fallback = λ r h. absurd (cc);
            wildcard = λ r h. absurd (cc);
            seen = λ k route lt e. absurd (omega arith);
          }))
