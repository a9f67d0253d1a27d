-- ===== src/Tests/GcraRuns.antt =====
-- The GCRA limiter of policies/advanced-ratelimit at concrete inputs.
use gateway_controllers.Prelude.{◌≡◌, refl, String, ◌+◌, ◌/◌, ◌-◌, ◌≤◌, arith, none, List, [], ◌∷◌}
use gateway_controllers.Prelude.Int.{pos, pos_part, ◌+ℤ◌, ◌-ℤ◌, ◌*ℤ◌, add64, sub64, mul64, wrap64}
use gateway_controllers.Limiter.{time_sub, Result, Floats, ok}
use gateway_controllers.Gcra.{
  MemoryLimiter, emission_interval, burst_allowance, calculate_remaining, load_tat,
}
use gateway_controllers.Gcra.{allow_n_at, allow_n, consume_n, get_available, store_tat}
use gateway_controllers.Gcra.Remaining.{IsSane}
use gateway_controllers.Gcra.Allow.{limiter_of, backlog, spare}
use gateway_controllers.Gcra.Available.{IsLasting, get_available_lem}
use gateway_controllers.Gcra.Rate.{IsPaced, Spends, after, passed, allow_n_Spends}
use gateway_controllers.Gcra.Trace.{Call, total, elapsed, total-le-rate}
use gateway_controllers.Gcra.Fast.{charge_unfelt}

-- Exact division in place of float64.
exact_floats : Floats
exact_floats = record {
  ceil_ratio = λ a b. pos ((pos_part a + pos_part b - 1) / pos_part b);
  ceil_ratio_exact = λ a b h k j. refl;
}

-- Ten a second, a burst of three: one token in each 100 ms.
ten_a_second : IsSane 10 1_000_000_000 3
ten_a_second = record {
  some_rate = omega arith;
  slow = omega arith;
  some_burst = omega arith;
  short = omega arith;
  bounded = omega arith;
}

abbrev fresh : MemoryLimiter
fresh = limiter_of 10 1_000_000_000 3 (λ k. none)

fresh-IsLasting : IsLasting fresh
fresh-IsLasting = record { lasting = λ k e p. cc }

no_backlog : (k : String) → backlog (pos 0) k fresh ≡ 0
unfolding backlog load_tat ◌-ℤ◌
no_backlog k = refl

fresh-IsPaced : IsPaced 10 1_000_000_000 3 (pos 0) fresh
fresh-IsPaced = record {
  policy_is = refl;
  lasting = fresh-IsLasting;
  ahead = λ k. omega (arith, no_backlog k);
}

get_available_lem_example :
    get_available exact_floats (pos 0) "alice" fresh
    ≡ ok (pos (spare exact_floats 10 1_000_000_000 3 ten_a_second (pos 0) "alice" fresh))
get_available_lem_example =
    get_available_lem exact_floats 10 1_000_000_000 3 ten_a_second (pos 0) "alice" (λ k. none)
      fresh-IsLasting (omega (arith, no_backlog "alice"))

allow_n_Spends_example :
    Spends 10 1_000_000_000 3
      (pos 0)
      "alice"
      fresh
      (after fresh (allow_n exact_floats (pos 0) "alice" (pos 2) fresh))
      (passed 2 (allow_n exact_floats (pos 0) "alice" (pos 2) fresh))
allow_n_Spends_example =
    allow_n_Spends exact_floats 10 1_000_000_000 3 ten_a_second (pos 0) "alice" 2 fresh
      fresh-IsPaced

abbrev knocks : List Call
knocks =
    record { wait = 0; key = "alice"; cost = 2 }
    ∷ record { wait = 1_000; key = "alice"; cost = 2 }
    ∷ record { wait = 150_000_000; key = "alice"; cost = 1 }
    ∷ []

three_through : total exact_floats "alice" (pos 0) fresh knocks ≡ 3
unfolding total allow_n emission_interval allow_n_at burst_allowance calculate_remaining load_tat
    store_tat time_sub exact_floats add64 sub64 mul64 wrap64 ◌+ℤ◌ ◌-ℤ◌ ◌*ℤ◌
three_through = refl

total-le-rate_example :
    total exact_floats "alice" (pos 0) fresh knocks ≤ 3 + elapsed knocks / (1_000_000_000 / 10)
total-le-rate_example =
    total-le-rate exact_floats 10 1_000_000_000 3 ten_a_second "alice" (pos 0) fresh knocks
      fresh-IsPaced

-- $100 a minute in nano-dollars: 10 ^ 11 units in 6 * 10 ^ 10 nanoseconds.
abbrev dollars : MemoryLimiter
dollars = limiter_of 100_000_000_000 60_000_000_000 100_000_000_000 (λ k. none)

charge_unfelt_example :
    (r : Result) × (m' : MemoryLimiter) × (consume_n exact_floats
        (pos 5)
        "route"
        (pos 70_000_000_000)
        dollars
      ≡ ok (r, m'))
    × (get_available exact_floats (pos 9) "route" dollars ≡ ok (pos 100_000_000_000))
    × (get_available exact_floats (pos 9) "route" m' ≡ ok (pos 100_000_000_000))
charge_unfelt_example =
    charge_unfelt exact_floats 100_000_000_000 60_000_000_000 100_000_000_000 (omega arith) (pos 5)
      "route" (pos 70_000_000_000) (λ k. none) (λ e p. cc) (pos 9) (omega arith)
