-- ===== src/Gcra/Remaining.antt =====
-- The arithmetic of a GCRA policy with positive numbers: a key is `backlog` nanoseconds ahead of
-- the clock, and each token takes one emission interval, rounded up.
use gateway_controllers.Prelude.{
  ◌≡◌, sym, ap, ◌∙◌, ℕ, ◌+◌, ◌*◌, ◌/◌, ◌-◌, ◌≤◌, ◌<◌, ◌^◌, arith, inl, inr, Bool-cases,
}
use gateway_controllers.Prelude.Int.{
  pos, pos_part, ◌+ℤ◌, ◌-ℤ◌, ◌≤ℤ◌, le_ℤ, +ℤ_parts, -ℤ_parts, eq_of_parts, wrap64, sub64-pos,
  mul64-pos, parts_apart,
}
use gateway_controllers.Prelude.Division.{ceil_div, ceil_div_le, lt-ceil_div}
use native.Mathlib.Nat.{
  div-le_self, zero-div, div-zero, le-div_iff_mul-le, le-mul_of_pos_right, mul_comm, add-mul,
  zero-mul,
}
use gateway_controllers.Limiter.{Instant, Duration, time_sub, Floats, ok}
use gateway_controllers.Gcra.{Policy, emission_interval, burst_allowance, calculate_remaining}

abbrev pub policy_of : ℕ → ℕ → ℕ → Policy
policy_of limit duration burst = record {
  limit = pos limit;
  duration = pos duration;
  burst = pos burst;
}

-- A policy whose emission interval is at least a nanosecond, and whose burst takes less than
-- 2 ^ 53 nanoseconds (104 days) to build up.
pub record IsSane (limit duration burst : ℕ) : Type 0 where
  pub some_rate : 0 < limit
  pub slow : limit ≤ duration
  pub some_burst : 0 < burst
  pub short : burst * (duration / limit) < 2 ^ 53
  pub bounded : duration < 2 ^ 62

pub emission_interval_lem :
    (l d b : ℕ) → 0 < l → d < 2 ^ 62 → emission_interval (policy_of l d b) ≡ ok (pos (d / l))
unfolding emission_interval wrap64
emission_interval_lem l d b h k = ground (arith, div-le_self d l, div-zero d, zero-div l)

module _ (l d b : ℕ) (sane : IsSane l d b) where
  open sane use {some_rate, slow, some_burst, short, bounded}

  abbrev pub interval : ℕ
  interval = d / l

  pub interval_pos : 0 < interval
  interval_pos = (le-div_iff_mul-le some_rate).1 (omega arith)

  pub interval_le : interval ≤ b * interval
  interval_le = omega (arith, le-mul_of_pos_right interval some_burst, mul_comm b interval)

  pub ceil_div-zero : ceil_div 0 interval ≡ 0
  ceil_div-zero = omega (arith, ceil_div_le 0 interval 0 interval_pos (omega arith))

  pub burst_le : b < 2 ^ 53
  burst_le = omega (arith, le-mul_of_pos_right b interval_pos)

  abbrev pub allowance : ℕ
  allowance = (b - 1) * interval

  pub allowance_lem : allowance + interval ≡ b * interval
  allowance_lem =
      sym (ap (λ (k : ℕ). k * interval) split ∙ add-mul (b - 1) 1 interval ∙ omega arith)
    where
      split : b ≡ b - 1 + 1
      split = omega arith

  pub burst_allowance_lem : burst_allowance (policy_of l d b) (pos interval) ≡ pos allowance
  unfolding burst_allowance
  burst_allowance_lem = ground (
    arith,
    sub64-pos b 1,
    mul64-pos interval (b - 1),
    mul_comm interval (b - 1),
    allowance_lem,
    interval_pos,
    one_token,
    burst_le,
  )
    where
      one_token : b ≤ 1 → (b - 1) * interval ≡ 0
      one_token h = ap (λ (k : ℕ). k * interval) (omega arith) ∙ zero-mul interval

pub time_sub_ahead : (now : Instant) (x : ℕ) → x < 2 ^ 62 → time_sub (now +ℤ pos x) now ≡ pos x
unfolding time_sub
time_sub_ahead now x h = ground (
  arith,
  +ℤ_parts now (pos x),
  -ℤ_parts (now +ℤ pos x) now,
  eq_of_parts (now +ℤ pos x -ℤ now) (pos x),
)

module _ (fl : Floats) (l d b : ℕ) (sane : IsSane l d b) (now : Instant) (x : ℕ)
    (h : x < 2 ^ 62) where
  open sane use {some_rate, slow, some_burst, short, bounded}

  ceil_exact :
      x ≤ allowance l d b sane
      → fl.ceil_ratio (pos x) (pos (interval l d b sane)) ≡ pos (ceil_div x (interval l d b sane))
  unfolding ceil_div
  ceil_exact k =
      fl.ceil_ratio_exact x (d / l) (interval_pos l d b sane)
        (omega (arith, allowance_lem l d b sane)) (omega (arith, interval_le l d b sane))

  -- The tokens left to a key that is `x` nanoseconds ahead of the clock.
  pub calculate_remaining-ahead :
      calculate_remaining fl
        (policy_of l d b)
        (now +ℤ pos x)
        now
        (pos (interval l d b sane))
        (pos (allowance l d b sane))
      ≡ pos (b - ceil_div x (interval l d b sane))
  unfolding calculate_remaining
  calculate_remaining-ahead = rw (time_sub_ahead now x h) (
      ground (
        arith,
        +ℤ_parts now (pos x),
        ceil_div_le x (d / l) 0 (interval_pos l d b sane),
        lt-ceil_div x (d / l) (b - 1) (interval_pos l d b sane),
        ceil_div_le x (d / l) (b - 1) (interval_pos l d b sane),
        ceil_exact,
        sub64-pos b (ceil_div x (d / l)),
        burst_le l d b sane,
      ))

calculate_remaining-past :
    (fl : Floats) (p : Policy) (tat now : Instant) (ei ba : Duration)
    → tat ≤ℤ now
    → calculate_remaining fl p tat now ei ba ≡ p.burst
unfolding calculate_remaining
calculate_remaining-past fl p tat now ei ba h = ground arith

pub past_ahead : (tat now : Instant) → tat ≤ℤ now → pos_part (tat -ℤ now) ≡ 0
past_ahead tat now k = ground (arith, -ℤ_parts tat now, parts_apart (tat -ℤ now))

pub future_ahead : (tat now : Instant) → now ≤ℤ tat → tat ≡ now +ℤ pos (pos_part (tat -ℤ now))
future_ahead tat now k = eq_of_parts _ _ (
    ground (
      arith,
      -ℤ_parts tat now,
      parts_apart (tat -ℤ now),
      +ℤ_parts now (pos (pos_part (tat -ℤ now))),
    ))

-- The same at any arrival time, also behind the clock.
pub calculate_remaining_lem :
    (fl : Floats) (l d b : ℕ) (sane : IsSane l d b) (now tat : Instant)
    → pos_part (tat -ℤ now) < 2 ^ 62
    → calculate_remaining fl (policy_of l d b) tat now (pos (d / l)) (pos (allowance l d b sane))
      ≡ pos (b - ceil_div (pos_part (tat -ℤ now)) (d / l))
calculate_remaining_lem fl l d b sane now tat h = elim (Bool-cases (le_ℤ tat now)) [
  | inl past ↦
      calculate_remaining-past fl (policy_of l d b) tat now _ _ (ground arith)
      ∙ rw (past_ahead tat now (ground arith), ceil_div-zero l d b sane) (ap pos (omega arith))
  | inr future ↦
      ap
        (λ (t : Instant).
          calculate_remaining fl (policy_of l d b) t now (pos (d / l)) (pos (allowance l d b sane)))
        (future_ahead tat now (ground arith))
      ∙ calculate_remaining-ahead fl l d b sane now (pos_part (tat -ℤ now)) h
]
