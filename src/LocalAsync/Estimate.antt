-- ===== src/LocalAsync/Estimate.antt =====
-- About AllowN of redis_local_async.go: what calls admit between two flushes.
use gateway_controllers.Prelude.{
  ◌≡◌, ap, sym, ◌∙◌, ℕ, ◌+◌, ◌≤◌, ◌<◌, ◌^◌, List, [], ◌∷◌, String, Bool, true, not, ◌&&◌, ◌||◌,
  some, if◌then◌else◌, Each, subst, Bool-cases, arith, inl, inr,
}
use gateway_controllers.Prelude.Int.{pos, lt_ℤ, add64, add64-pos}
use gateway_controllers.Prelude.Table.{get, put, get-put_self}
use gateway_controllers.Limiter.{Instant, clamp_zero}
use gateway_controllers.FixedWindow.{window_start}
use gateway_controllers.LocalAsync.{
  Config, LocalState, Stripe, Decision, current_state, decide, allow_stripe,
}

-- The state of a key: its window, its counts, and whether it is blocked.
abbrev pub Counts : Stripe → String → Instant → ℕ → ℕ → Bool → Type 0
Counts s key ws base delta shut =
    get s.states key
    ≡ some (record {
      window_start = ws;
      global_base = pos base;
      local_delta = pos delta;
      blocked = shut;
    })

abbrev counted : Instant → ℕ → ℕ → Bool → LocalState
counted ws base delta shut = record {
  window_start = ws;
  global_base = pos base;
  local_delta = pos delta;
  blocked = shut;
}

current_state_lem :
    (cfg : Config) (now : Instant) (key : String) (s : Stripe) (base delta : ℕ) (shut : Bool)
    → Counts s key (window_start cfg.policy now) base delta shut
    → current_state cfg now key s ≡ (counted (window_start cfg.policy now) base delta shut, s)
unfolding current_state
current_state_lem cfg now key s base delta shut e = ground (arith, e)

-- A call in the window of its key's state admits n exactly where the key is not blocked, Redis is
-- not taken for down by a limiter that then denies, and the estimate with n is within the limit.
abbrev pub admits : Config → Bool → ℕ → ℕ → ℕ → ℕ → Bool → Bool
admits cfg down limit base delta n shut =
    not shut && (not (not cfg.fail_open && down) && not (lt_ℤ (pos limit) (pos (base + delta + n))))

decide_lem :
    (cfg : Config) (down : Bool) (key : String) (limit base delta n : ℕ) (shut : Bool)
    (ws : Instant) (s : Stripe)
    → cfg.policy.limit ≡ pos limit
    → base + delta + n < 2 ^ 63
    → (decide cfg down key (pos n) (counted ws base delta shut) s).allowed
      ≡ admits cfg down limit base delta n shut
unfolding decide
decide_lem cfg down key limit base delta n shut ws s l small = ground (
  arith,
  l,
  add64-pos base delta,
  add64-pos (base + delta) n,
  ap (λ x. add64 x (pos n)) (add64-pos base delta (omega arith)),
)

-- Whether the key is blocked afterwards.
abbrev shut_after : Config → Bool → ℕ → ℕ → ℕ → ℕ → Bool → Bool
shut_after cfg down limit base delta n shut =
    shut || (not (not cfg.fail_open && down) && lt_ℤ (pos limit) (pos (base + delta + n)))

decide-Counts :
    (cfg : Config) (down : Bool) (key : String) (limit base delta n : ℕ) (shut : Bool)
    (ws : Instant) (s : Stripe)
    → cfg.policy.limit ≡ pos limit
    → base + delta + n < 2 ^ 63
    → Counts s key ws base delta shut
    → Counts
        (decide cfg down key (pos n) (counted ws base delta shut) s).stripe
        key
        ws
        base
        (if admits cfg down limit base delta n shut then delta + n else delta)
        (shut_after cfg down limit base delta n shut)
unfolding decide
decide-Counts cfg down key limit base delta n shut ws s l small there = ground (
  arith,
  l,
  there,
  add64-pos base delta,
  add64-pos delta n,
  add64-pos (base + delta) n,
  ap (λ x. add64 x (pos n)) (add64-pos base delta (omega arith)),
  get-put_self key (counted ws base (delta + n) shut) s.states,
  get-put_self key (counted ws base delta true) s.states,
  ap (λ x. put key (record (counted ws base delta shut) { local_delta = x }) s.states)
      (add64-pos delta n (omega arith)),
)

-- A call of AllowN: when, what the limiter knows of Redis then, and at what cost.
pub record LocalCall : Type 0 where
  pub now : Instant
  pub down : Bool
  pub n : ℕ

decision_of : Config → String → LocalCall → Stripe → Decision
decision_of cfg key c s = allow_stripe cfg c.down c.now key (pos c.n) s

-- What calls on one key admit, one after the other, and the stripe after them.
unfoldable pub admitted : Config → String → List LocalCall → Stripe → ℕ
unfolding decision_of
admitted cfg key [] s = 0
admitted cfg key (c ∷ cs) s =
    let d = decision_of cfg key c s in (if d.allowed then c.n else 0) + admitted cfg key cs d.stripe

unfoldable pub after_calls : Config → String → List LocalCall → Stripe → Stripe
unfolding decision_of
after_calls cfg key [] s = s
after_calls cfg key (c ∷ cs) s = after_calls cfg key cs (decision_of cfg key c s).stripe

abbrev pub InWindow : Config → Instant → List LocalCall → Type 0
InWindow cfg ws = Each (λ c. (window_start cfg.policy c.now ≡ ws) × (c.n < 2 ^ 62))

clamp_zero-pos : (n : ℕ) → clamp_zero (pos n) ≡ pos n
clamp_zero-pos n = ground arith

decide_clamped :
    (cfg : Config) (down : Bool) (key : String) (n : ℕ) (st : LocalState) (s : Stripe)
    → decide cfg down key (clamp_zero (pos n)) st s ≡ decide cfg down key (pos n) st s
decide_clamped cfg down key n st s = ap (λ x. decide cfg down key x st s) (clamp_zero-pos n)

allow_stripe-Counts :
    (cfg : Config) (key : String) (c : LocalCall) (limit base delta : ℕ) (shut : Bool)
    (ws : Instant) (s : Stripe)
    → cfg.policy.limit ≡ pos limit
    → base + delta + c.n < 2 ^ 63
    → window_start cfg.policy c.now ≡ ws
    → Counts s key ws base delta shut
    → ((decision_of cfg key c s).allowed ≡ admits cfg c.down limit base delta c.n shut)
      × Counts
          (decision_of cfg key c s).stripe
          key
          ws
          base
          (if admits cfg c.down limit base delta c.n shut then delta + c.n else delta)
          (shut_after cfg c.down limit base delta c.n shut)
unfolding decision_of allow_stripe
allow_stripe-Counts cfg key c limit base delta shut ws s l small at there =
    let state =
      current_state_lem cfg c.now key s base delta shut
        (subst (λ w. Counts s key w base delta shut) (sym at) there)
      ∙ ap (λ w. (counted w base delta shut, s)) at in
    rw (state, decide_clamped cfg c.down key c.n (counted ws base delta shut) s)
      (
        decide_lem cfg c.down key limit base delta c.n shut ws s l small,
        decide-Counts cfg c.down key limit base delta c.n shut ws s l small there,
      )

admits-le :
    (cfg : Config) (down : Bool) (limit base delta n : ℕ) (shut : Bool)
    → admits cfg down limit base delta n shut ≡ true
    → base + delta + n ≤ limit
admits-le cfg down limit base delta n shut h = ground arith

counted_within :
    (cfg : Config) (down : Bool) (limit base delta n : ℕ) (shut : Bool)
    → base + delta ≤ limit
    → base + (if admits cfg down limit base delta n shut then delta + n else delta) ≤ limit
counted_within cfg down limit base delta n shut h =
    elim (Bool-cases (admits cfg down limit base delta n shut)) [
      | inl fits ↦ rw fits (omega (arith, admits-le cfg down limit base delta n shut fits))
      | inr no_room ↦ rw no_room h
    ]

counted_sum :
    (allowed fits : Bool) (delta n rest : ℕ)
    → allowed ≡ fits
    → (if fits then delta + n else delta) + rest ≡ delta + ((if allowed then n else 0) + rest)
counted_sum allowed fits delta n rest e = ground arith

-- Calls of AllowN on one key that has a state in the running window, one after the other with no
-- flush between them, at costs below 2 ^ 62, under a limit below 2 ^ 62 that the estimate of the
-- global count has not passed: what they admit and that estimate are together within the limit, and
-- the state of the key counts exactly what they admit for the next flush.
pub estimate_within_limit :
    (cfg : Config) (key : String) (cs : List LocalCall) (limit base delta : ℕ) (shut : Bool)
    (ws : Instant) (s : Stripe)
    → cfg.policy.limit ≡ pos limit
    → limit < 2 ^ 62
    → base + delta ≤ limit
    → InWindow cfg ws cs
    → Counts s key ws base delta shut
    → (base + delta + admitted cfg key cs s ≤ limit)
      × ((shut' : Bool) × Counts
            (after_calls cfg key cs s)
            key
            ws
            base
            (delta + admitted cfg key cs s)
            shut')
unfolding admitted after_calls
estimate_within_limit cfg key [] limit base delta shut ws s l small within at there =
    (omega arith, (shut, subst (λ d. Counts s key ws base d shut) (omega arith) there))
estimate_within_limit cfg key (c ∷ cs) limit base delta shut ws s l small within (at, ats) there =
    let (answer, next) =
      allow_stripe-Counts cfg key c limit base delta shut ws s l (omega arith) at.0 there in
    let fits = admits cfg c.down limit base delta c.n shut in
    let d = decision_of cfg key c s in
    let (bound, (shut', kept)) =
      (estimate_within_limit cfg key cs limit base (if fits then delta + c.n else delta)
        (shut_after cfg c.down limit base delta c.n shut) ws d.stripe l small
        (counted_within cfg c.down limit base delta c.n shut within) ats next) in
    let sum = counted_sum d.allowed fits delta c.n (admitted cfg key cs d.stripe) answer in
    (
      omega (arith, sum),
      (shut', subst (λ k. Counts (after_calls cfg key cs d.stripe) key ws base k shut') sum kept),
    )
