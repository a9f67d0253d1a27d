-- ===== src/Multi/Clamp.antt =====
-- ConsumeOrClampN over several limiters. `ClampLaws` is what a limiter owes to it.
use gateway_controllers.Prelude.{
  ◌≡◌, refl, ap, ◌∙◌, String, Bool, true, false, ◌&&◌, ℕ, suc, arith, Option, none, some, List, [],
  ◌∷◌,
}
use gateway_controllers.Prelude.Int.{ℤ, pos, ◌≤ℤ◌}
use gateway_controllers.Limiter.{Result, Outcome, ok, err, panic}
use gateway_controllers.Multi.{Limiter, policy_key, restrict, clamp_loop, consume_or_clamp_n}
use gateway_controllers.FixedWindow.Counts.{IsCost}

-- The remaining quota is not negative, and 0 where the call is denied.
abbrev pub IsHonest : Result → Type 0
IsHonest r = (pos 0 ≤ℤ r.remaining) × (r.allowed ≡ false → r.remaining ≡ pos 0)

-- What ConsumeOrClampN of one limiter has to keep to, in the states that are valid.
pub record ClampLaws (L : Limiter) : Type 1 where
  pub IsValid : L.State → Type 0
  pub honest :
      (e : L.Env) (key : String) (n : ℤ) (s : L.State)
      → IsValid s
      → IsCost n
      → (r : Result) × ((L.consume_or_clamp_n e key n s).0 ≡ ok r) × IsHonest r

restrict-IsHonest : (b q : Result) → IsHonest b → IsHonest q → IsHonest (restrict (some b) q)
unfolding restrict
restrict-IsHonest b q hb hq = ground arith

restrict-allowed_and :
    (b q : Result)
    → IsHonest b
    → IsHonest q
    → (restrict (some b) q).allowed ≡ (b.allowed && q.allowed)
unfolding restrict
restrict-allowed_and b q hb hq = ground arith

module _ (L : Limiter) (laws : ClampLaws L) (env : ℕ → L.Env) (key : String) (n : ℤ)
    (cost : IsCost n) where
  open L use {State, Env}
  open laws use {IsValid, honest}

  abbrev answer : ℕ → State → Outcome Result
  answer i s = (L.consume_or_clamp_n (env i) (policy_key key i) n s).0

  abbrev left : ℕ → State → State
  left i s = (L.consume_or_clamp_n (env i) (policy_key key i) n s).1

  abbrev pub clamps_left : ℕ → List State → List State
  clamps_left i [] = []
  clamps_left i (s ∷ ss) = left i s ∷ clamps_left (suc i) ss

  abbrev allows : Outcome Result → Bool
  allows (ok r) = r.allowed
  allows (err e) = false
  allows panic = false

  -- From a position on, every limiter lets the whole cost through.
  abbrev pub all_allow : ℕ → List State → Bool
  all_allow i [] = true
  all_allow i (s ∷ ss) = allows (answer i s) && all_allow (suc i) ss

  abbrev pub AllValid : List State → Type 0
  AllValid [] = Unit {0}
  AllValid (s ∷ ss) = IsValid s × AllValid ss

  loop_step :
      (i : ℕ) (best : Option Result) (s : State) (ss : List State) (q : Result)
      → answer i s ≡ ok q
      → let rest = clamp_loop L env key n (suc i) (some (restrict best q)) ss in
        clamp_loop L env key n i best (s ∷ ss) ≡ (rest.0, left i s ∷ rest.1)
  unfolding clamp_loop
  loop_step i best s ss q e = ground arith

  loop_clamps :
      (i : ℕ) (best : Result) (ss : List State)
      → AllValid ss
      → IsHonest best
      → (r : Result) × (clamp_loop L env key n i (some best) ss ≡ (ok (some r), clamps_left i ss))
        × (r.allowed ≡ (best.allowed && all_allow i ss))
  loop_clamps i best [] v h = (best, unfold clamp_loop in refl, ground arith)
  loop_clamps i best (s ∷ ss) (u, v) h =
      let (q, e, hq) = honest (env i) (policy_key key i) n s u cost in
      let (r, done, a) =
        loop_clamps (suc i) (restrict (some best) q) ss v (restrict-IsHonest best q h hq) in
      (
        r,
        loop_step i (some best) s ss q e ∙ ap (λ p. (p.0, left i s ∷ p.1)) done,
        rw (a, e, restrict-allowed_and best q h hq) (ground arith),
      )

  -- Every limiter is charged, and the result counts as allowed exactly when every limiter could
  -- serve the whole cost.
  pub consume_or_clamp_n_together :
      (s : State) (ss : List State)
      → AllValid (s ∷ ss)
      → (r : Result) × (consume_or_clamp_n L env key n (s ∷ ss)
          ≡ (ok (some r), clamps_left 0 (s ∷ ss)))
        × (r.allowed ≡ all_allow 0 (s ∷ ss))
  unfolding consume_or_clamp_n restrict
  consume_or_clamp_n_together s ss (u, v) =
      let (q, e, hq) = honest (env 0) (policy_key key 0) n s u cost in
      let (r, done, a) = loop_clamps 1 (restrict none q) ss v hq in
      (r, loop_step 0 none s ss q e ∙ ap (λ p. (p.0, left 0 s ∷ p.1)) done, rw (a, e))
