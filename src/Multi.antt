-- ===== src/Multi.antt =====
-- policies/advanced-ratelimit/algorithms/fixedwindow/multi.go and gcra/multi.go, which have the
-- same text: several limiters behind one, each with its own state. The interface
-- limiter.Limiter, with the optional limiter.CostTracker, is the record `Limiter`.
pub mod Allow
pub mod Clamp
pub mod Available
use Prim.Native.String.{◌++◌ as append}
use gateway_controllers.Prelude.{
  ℕ, suc, String, Bool, not, Option, none, some, List, [], ◌∷◌, if◌then◌else◌,
}
use gateway_controllers.Prelude.Int.{ℤ, pos, negsuc, lt_ℤ, eq_ℤ}
use gateway_controllers.Prelude.Text.{format_int, format_int64}
use gateway_controllers.Limiter.{Result, Outcome, ok, err, panic}

-- A limiter of any kind: its state, what a call reads from outside (its clocks), and its methods.
-- A method returns its result or its error, and the state that it leaves.
pub record Limiter : Type 1 where
  pub State : Type 0
  pub Env : Type 0
  pub allow_n : Env → String → ℤ → State → Outcome Result × State
  pub consume_or_clamp_n : Env → String → ℤ → State → Outcome Result × State
  pub consume_n : Env → String → ℤ → State → Outcome Result × State
  pub get_available : Env → String → State → Outcome ℤ
  -- The type assertion `lim.(limiter.CostTracker)`.
  pub tracks_cost : State → Bool

-- fmt.Sprintf("%s:p%d", key, i)
unfoldable pub policy_key : String → ℕ → String
policy_key key i = append key (append ":p" (format_int i))

-- fmt.Errorf("limiter %d failed: %w", i, err)
unfoldable pub failed : ℕ → String → String
failed i e = append "limiter " (append (format_int i) (append " failed: " e))

unfoldable pub clamped : ℕ → ℤ → ℤ → String
clamped i consumed n = append "limiter " (
    append (format_int i) (
      append " does not implement CostTracker and clamped consumption to " (
        append (format_int64 consumed) (
          append " (requested "
            (append (format_int64 n) "); cannot guarantee ConsumeN semantics")))))

-- What ConsumeN makes of the answer of a limiter that tracks costs, and of one that clamps.
abbrev wrap : ℕ → Outcome Result → Outcome Result
wrap i (ok r) = ok r
wrap i (err e) = err (failed i e)
wrap i panic = panic

abbrev check : ℕ → ℤ → Outcome Result → Outcome Result
check i n (ok r) = if lt_ℤ r.consumed n then err (clamped i r.consumed n) else ok r
check i n (err e) = err (failed i e)
check i n panic = panic

abbrev pub no_limiters : String
no_limiters = "no limiters configured"

-- The choice of the most restrictive result so far.
unfoldable pub restrict : Option Result → Result → Result
restrict none r = r
restrict (some best) r =
    if not r.allowed then r else if lt_ℤ r.remaining best.remaining then r else best

module _ (L : Limiter) where
  open L use {State, Env}

  -- The loop of AllowN, which returns at the first denial.
  unfoldable pub allow_loop :
      (ℕ → Env) → String → ℤ → ℕ → Option Result → List State → Outcome (Option Result) × List State
  allow_loop env key n i best [] = (ok best, [])
  allow_loop env key n i best (s ∷ ss) =
      let (o, s') = L.allow_n (env i) (policy_key key i) n s in
      elim o [
        | ok r ↦
            let rest = allow_loop env key n (suc i) (some (restrict best r)) ss in
            if r.allowed then (rest.0, s' ∷ rest.1) else (ok (some r), s' ∷ ss)
        | err e ↦ (err (failed i e), s' ∷ ss)
        | panic ↦ (panic, s' ∷ ss)
      ]

  unfoldable pub allow_n :
      (ℕ → Env) → String → ℤ → List State → Outcome (Option Result) × List State
  allow_n env key n [] = (err no_limiters, [])
  allow_n env key n (s ∷ ss) = allow_loop env key n 0 none (s ∷ ss)

  -- The loop of ConsumeOrClampN, which asks every limiter.
  unfoldable pub clamp_loop :
      (ℕ → Env) → String → ℤ → ℕ → Option Result → List State → Outcome (Option Result) × List State
  clamp_loop env key n i best [] = (ok best, [])
  clamp_loop env key n i best (s ∷ ss) =
      let (o, s') = L.consume_or_clamp_n (env i) (policy_key key i) n s in
      elim o [
        | ok r ↦
            let rest = clamp_loop env key n (suc i) (some (restrict best r)) ss in
            (rest.0, s' ∷ rest.1)
        | err e ↦ (err (failed i e), s' ∷ ss)
        | panic ↦ (panic, s' ∷ ss)
      ]

  unfoldable pub consume_or_clamp_n :
      (ℕ → Env) → String → ℤ → List State → Outcome (Option Result) × List State
  consume_or_clamp_n env key n [] = (err no_limiters, [])
  consume_or_clamp_n env key n (s ∷ ss) = clamp_loop env key n 0 none (s ∷ ss)

  -- One round of ConsumeN: a limiter that does not track costs is clamped, and that is an error
  -- if it consumed too little.
  unfoldable pub consume_one : Env → String → ℤ → ℕ → State → Outcome Result × State
  consume_one env key n i s =
      if L.tracks_cost s
      then (let (o, s') = L.consume_n env key n s in (wrap i o, s'))
      else (let (o, s') = L.consume_or_clamp_n env key n s in (check i n o, s'))

  unfoldable pub consume_loop :
      (ℕ → Env) → String → ℤ → ℕ → Option Result → List State → Outcome (Option Result) × List State
  consume_loop env key n i best [] = (ok best, [])
  consume_loop env key n i best (s ∷ ss) =
      let (o, s') = consume_one (env i) (policy_key key i) n i s in
      elim o [
        | ok r ↦
            let rest = consume_loop env key n (suc i) (some (restrict best r)) ss in
            (rest.0, s' ∷ rest.1)
        | err e ↦ (err e, s' ∷ ss)
        | panic ↦ (panic, s' ∷ ss)
      ]

  unfoldable pub consume_n :
      (ℕ → Env) → String → ℤ → List State → Outcome (Option Result) × List State
  consume_n env key n [] = (err no_limiters, [])
  consume_n env key n (s ∷ ss) = consume_loop env key n 0 none (s ∷ ss)

  -- The loop of GetAvailable; -1 stands for no minimum yet.
  unfoldable pub available_loop : (ℕ → Env) → String → ℕ → ℤ → List State → Outcome ℤ
  available_loop env key i least [] = ok least
  available_loop env key i least (s ∷ ss) = elim (L.get_available (env i) (policy_key key i) s) [
    | ok a ↦
        let next = if eq_ℤ least (negsuc 0) then a else if lt_ℤ a least then a else least in
        available_loop env key (suc i) next ss
    | err e ↦ err (failed i e)
    | panic ↦ panic
  ]

  unfoldable pub get_available : (ℕ → Env) → String → List State → Outcome ℤ
  get_available env key [] = err no_limiters
  get_available env key (s ∷ ss) = available_loop env key 0 (negsuc 0) (s ∷ ss)
