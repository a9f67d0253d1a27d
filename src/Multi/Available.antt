-- ===== src/Multi/Available.antt =====
-- GetAvailable over several limiters.
use gateway_controllers.Prelude.{
  ◌≡◌, refl, sym, ap, ◌∙◌, String, ℕ, suc, arith, if◌then◌else◌, ◌⊎◌, inl, inr, Bool-cases, List,
  [], ◌∷◌,
}
use gateway_controllers.Prelude.Int.{ℤ, pos, negsuc, ◌≤ℤ◌, lt_ℤ, eq_ℤ}
use gateway_controllers.Limiter.{ok}
use gateway_controllers.Multi.{Limiter, policy_key, available_loop, get_available}

module _ (L : Limiter) (env : ℕ → L.Env) (key : String) where
  open L use {State, Env}

  -- From a position on, every limiter answers, with a quota that is not negative and at least `a`.
  abbrev pub AllOffer : ℤ → ℕ → List State → Type 0
  AllOffer a i [] = Unit {0}
  AllOffer a i (s ∷ ss) =
      ((q : ℤ) × (L.get_available (env i) (policy_key key i) s ≡ ok q) × (pos 0 ≤ℤ q) × (a ≤ℤ q))
      × AllOffer a (suc i) ss

  -- Some limiter from a position on answers `a`.
  abbrev pub SomeOffers : ℤ → ℕ → List State → Type 0
  SomeOffers a i [] = ⊥
  SomeOffers a i (s ∷ ss) =
      (L.get_available (env i) (policy_key key i) s ≡ ok a) ⊎ SomeOffers a (suc i) ss

  abbrev lesser : ℤ → ℤ → ℤ
  lesser least a = if eq_ℤ least (negsuc 0) then a else if lt_ℤ a least then a else least

  AllOffer-mono : (a b : ℤ) (i : ℕ) (ss : List State) → b ≤ℤ a → AllOffer a i ss → AllOffer b i ss
  AllOffer-mono a b i [] h g = tt
  AllOffer-mono a b i (s ∷ ss) h ((q, e, u, v), g) =
      ((q, e, u, omega arith), AllOffer-mono a b (suc i) ss h g)

  loop_step :
      (i : ℕ) (least : ℤ) (s : State) (ss : List State) (q : ℤ)
      → L.get_available (env i) (policy_key key i) s ≡ ok q
      → available_loop L env key i least (s ∷ ss)
        ≡ available_loop L env key (suc i) (lesser least q) ss
  unfolding available_loop
  loop_step i least s ss q e = ground arith

  loop_least :
      (i : ℕ) (least : ℤ) (ss : List State)
      → pos 0 ≤ℤ least
      → AllOffer (pos 0) i ss
      → (a : ℤ) × (available_loop L env key i least ss ≡ ok a)
        × (pos 0 ≤ℤ a)
        × (a ≤ℤ least)
        × AllOffer a i ss
        × ((a ≡ least) ⊎ SomeOffers a i ss)
  loop_least i least [] h g = (least, unfold available_loop in refl, h, omega arith, tt, inl refl)
  loop_least i least (s ∷ ss) h ((q, e, u, _), g) =
      let (a, done, lo, hi, all, some_one) =
        loop_least (suc i) (lesser least q) ss (ground arith) g in
      (
        a,
        loop_step i least s ss q e ∙ done,
        lo,
        ground arith,
        ((q, e, u, ground arith), all),
        elim some_one [
          | inl at_bound ↦ elim (Bool-cases (lt_ℤ q least)) [
            | inl less ↦ inr (inl (e ∙ ap ok (ground arith)))
            | inr more ↦ inl (ground arith)
          ]
          | inr further ↦ inr (inr further)
        ],
      )

  -- Where every limiter reports a quota that is not negative, `GetAvailable` over all of them
  -- reports the least of these quotas.
  pub get_available_least :
      (s : State) (ss : List State)
      → AllOffer (pos 0) 0 (s ∷ ss)
      → (a : ℤ) × (get_available L env key (s ∷ ss) ≡ ok a)
        × AllOffer a 0 (s ∷ ss)
        × SomeOffers a 0 (s ∷ ss)
  unfolding get_available
  get_available_least s ss ((q, e, u, v), g) =
      let (a, done, lo, hi, all, some_one) = loop_least 1 q ss u g in
      (
        a,
        loop_step 0 (negsuc 0) s ss q e ∙ done,
        ((q, e, u, hi), all),
        elim some_one [ inl same ↦ inl (e ∙ ap ok (sym same)) | inr further ↦ inr further ],
      )
