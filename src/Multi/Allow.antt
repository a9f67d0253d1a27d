-- ===== src/Multi/Allow.antt =====
-- AllowN over several limiters.
use gateway_controllers.Prelude.{
  ◌≡◌, refl, sym, ap, ◌∙◌, String, true, false, ℕ, suc, arith, inl, inr, Bool-cases, Option, none,
  some, List, [], ◌∷◌, ◌++◌,
}
use gateway_controllers.Prelude.Int.{ℤ, ◌≤ℤ◌}
use gateway_controllers.Limiter.{Result, Outcome, ok, err, panic, Outcome-cases}
use gateway_controllers.Multi.{Limiter, policy_key, failed, restrict, allow_loop, allow_n}

module _ (L : Limiter) (env : ℕ → L.Env) (key : String) (n : ℤ) where
  open L use {State, Env}

  -- The answer of the limiter at a position, and the state that it leaves.
  abbrev pub answer : ℕ → State → Outcome Result
  answer i s = (L.allow_n (env i) (policy_key key i) n s).0

  abbrev pub left : ℕ → State → State
  left i s = (L.allow_n (env i) (policy_key key i) n s).1

  -- From a position on, every limiter lets the call through, with at least `floor` remaining.
  abbrev pub AllGrant : ℤ → ℕ → List State → Type 0
  AllGrant floor i [] = Unit {0}
  AllGrant floor i (s ∷ ss) =
      ((r : Result) × (answer i s ≡ ok r) × (r.allowed ≡ true) × (floor ≤ℤ r.remaining))
      × AllGrant floor (suc i) ss

  loop_granted :
      (i : ℕ) (best : Option Result) (s : State) (ss : List State) (q : Result)
      → answer i s ≡ ok q
      → q.allowed ≡ true
      → let rest = allow_loop L env key n (suc i) (some (restrict best q)) ss in
        allow_loop L env key n i best (s ∷ ss) ≡ (rest.0, left i s ∷ rest.1)
  unfolding allow_loop
  loop_granted i best s ss q e a = ground arith

  loop_denied :
      (i : ℕ) (best : Option Result) (s : State) (ss : List State) (q : Result)
      → answer i s ≡ ok q
      → q.allowed ≡ false
      → allow_loop L env key n i best (s ∷ ss) ≡ (ok (some q), left i s ∷ ss)
  unfolding allow_loop
  loop_denied i best s ss q e a = ground arith

  loop_failed :
      (i : ℕ) (best : Option Result) (s : State) (ss : List State) (e : String)
      → answer i s ≡ err e
      → allow_loop L env key n i best (s ∷ ss) ≡ (err (failed i e), left i s ∷ ss)
  unfolding allow_loop
  loop_failed i best s ss e h = ground arith

  loop_panics :
      (i : ℕ) (best : Option Result) (s : State) (ss : List State)
      → answer i s ≡ panic
      → allow_loop L env key n i best (s ∷ ss) ≡ (panic, left i s ∷ ss)
  unfolding allow_loop
  loop_panics i best s ss h = ground arith

  restrict-le_new : (best : Option Result) (q : Result) → (restrict best q).remaining ≤ℤ q.remaining
  unfolding restrict
  restrict-le_new none q = omega arith
  restrict-le_new (some b) q = ground arith

  restrict-le_old :
      (b q : Result) → q.allowed ≡ true → (restrict (some b) q).remaining ≤ℤ b.remaining
  unfolding restrict
  restrict-le_old b q a = ground arith

  restrict-allowed :
      (b q : Result) → q.allowed ≡ true → b.allowed ≡ true → (restrict (some b) q).allowed ≡ true
  unfolding restrict
  restrict-allowed b q a h = ground arith

  abbrev BoundBy : Result → Option Result → Type 0
  BoundBy r none = Unit {0}
  BoundBy r (some b) = r.remaining ≤ℤ b.remaining

  BoundBy-restrict :
      (r q : Result) (best : Option Result)
      → q.allowed ≡ true
      → r.remaining ≤ℤ (restrict best q).remaining
      → BoundBy r best
  BoundBy-restrict r q none a h = tt
  BoundBy-restrict r q (some b) a h = omega (arith, restrict-le_old b q a)

  -- Every limiter let the call through when the loop says so, with at least its remaining quota.
  loop_sound :
      (i : ℕ) (best : Option Result) (ss : List State) (r : Result)
      → (allow_loop L env key n i best ss).0 ≡ ok (some r)
      → r.allowed ≡ true
      → AllGrant r.remaining i ss × BoundBy r best
  unfolding allow_loop
  loop_sound i none [] r h a = cc
  loop_sound i (some b) [] r h a = (tt, ground arith)
  loop_sound i best (s ∷ ss) r h a = elim (Outcome-cases (answer i s)) [
    | inl (q, e) ↦ elim (Bool-cases q.allowed) [
      | inl g ↦
          let rest =
            loop_sound (suc i) (some (restrict best q)) ss r
              (sym (ap (λ p. p.0) (loop_granted i best s ss q e g)) ∙ h) a in
          (
            ((q, e, g, omega (arith, rest.1, restrict-le_new best q)), rest.0),
            BoundBy-restrict r q best g rest.1,
          )
      | inr d ↦ absurd (ground (arith, loop_denied i best s ss q e d))
    ]
    | inr (inl (x, e)) ↦ absurd (ground (arith, loop_failed i best s ss x e))
    | inr (inr e) ↦ absurd (ground (arith, loop_panics i best s ss e))
  ]

  -- When AllowN over several limiters lets a call through, every one of them did, and the result
  -- reports no more quota than any of them.
  pub allow_n_sound :
      (ss : List State) (r : Result)
      → (allow_n L env key n ss).0 ≡ ok (some r)
      → r.allowed ≡ true
      → AllGrant r.remaining 0 ss
  unfolding allow_n
  allow_n_sound [] r h a = cc
  allow_n_sound (s ∷ ss) r h a = (loop_sound 0 none (s ∷ ss) r h a).0

  -- The states that the limiters leave when all are asked.
  abbrev pub all_left : ℕ → List State → List State
  all_left i [] = []
  all_left i (s ∷ ss) = left i s ∷ all_left (suc i) ss

  -- The position behind the limiters of a list.
  abbrev pub position : ℕ → List State → ℕ
  position i [] = i
  position i (s ∷ ss) = position (suc i) ss

  loop_denies :
      (floor : ℤ) (i : ℕ) (best : Option Result) (front : List State) (s : State)
      (back : List State) (r : Result)
      → AllGrant floor i front
      → answer (position i front) s ≡ ok r
      → r.allowed ≡ false
      → allow_loop L env key n i best (front ++ s ∷ back)
        ≡ (ok (some r), all_left i front ++ left (position i front) s ∷ back)
  loop_denies floor i best [] s back r g e d = loop_denied i best s back r e d
  loop_denies floor i best (t ∷ front) s back r ((q, e', a, _), g) e d =
      loop_granted i best t (front ++ s ∷ back) q e' a
      ∙ ap (λ p. (p.0, left i t ∷ p.1))
          (loop_denies floor (suc i) (some (restrict best q)) front s back r g e d)

  -- Where the limiters of a front let a call through and the next one denies it, that one decides:
  -- its own answer is the result of AllowN, the limiters before it keep their charge of the denied
  -- call, and those behind it are left as they were.
  pub allow_n_denies :
      (floor : ℤ) (front : List State) (s : State) (back : List State) (r : Result)
      → AllGrant floor 0 front
      → answer (position 0 front) s ≡ ok r
      → r.allowed ≡ false
      → allow_n L env key n (front ++ s ∷ back)
        ≡ (ok (some r), all_left 0 front ++ left (position 0 front) s ∷ back)
  unfolding allow_n
  allow_n_denies floor [] s back r g e d = loop_denies floor 0 none [] s back r g e d
  allow_n_denies floor (t ∷ front) s back r g e d =
      loop_denies floor 0 none (t ∷ front) s back r g e d

  loop_complete :
      (floor : ℤ) (i : ℕ) (best : Result) (ss : List State)
      → AllGrant floor i ss
      → best.allowed ≡ true
      → (r : Result) × (r.allowed ≡ true)
        × (allow_loop L env key n i (some best) ss ≡ (ok (some r), all_left i ss))
  loop_complete floor i best [] g b = (best, b, unfold allow_loop in refl)
  loop_complete floor i best (s ∷ ss) ((q, e, a, _), g) b =
      let (r, c, done) =
        loop_complete floor (suc i) (restrict (some best) q) ss g (restrict-allowed best q a b) in
      (r, c, loop_granted i (some best) s ss q e a ∙ ap (λ p. (p.0, left i s ∷ p.1)) done)

  -- Where every limiter lets the call through, so do they together, and all of them are charged.
  pub allow_n_complete :
      (floor : ℤ) (s : State) (ss : List State)
      → AllGrant floor 0 (s ∷ ss)
      → (r : Result) × (r.allowed ≡ true)
        × (allow_n L env key n (s ∷ ss) ≡ (ok (some r), all_left 0 (s ∷ ss)))
  unfolding allow_n
  allow_n_complete floor s ss ((q, e, a, _), g) =
      let (r, c, done) = loop_complete floor 1 (restrict none q) ss g (unfold restrict in a) in
      (r, c, loop_granted 0 none s ss q e a ∙ ap (λ p. (p.0, left 0 s ∷ p.1)) done)
