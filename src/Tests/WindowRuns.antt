-- ===== src/Tests/WindowRuns.antt =====
-- The fixed-window limiter of policies/advanced-ratelimit at concrete inputs.
use gateway_controllers.Prelude.{◌≡◌, refl, true, false, ℕ, ◌*◌, arith, none, List, [], ◌∷◌}
use gateway_controllers.Prelude.Int.{pos, ◌+ℤ◌, ◌-ℤ◌, ◌≤ℤ◌, ◌<ℤ◌, le_ℤ, add64, sub64, wrap64}
use gateway_controllers.Limiter.{Clocks, second, truncate, clamp_zero, max_int64}
use gateway_controllers.FixedWindow.{
  Policy, MemoryLimiter, window_start, window_end, current_count, store_count, allow_n,
  consume_or_clamp_n, consume_n, get_available,
}
use gateway_controllers.FixedWindow.Counts.{SameWindow, IsWithin, IsSane}
use gateway_controllers.FixedWindow.Quota.{allowed-allow_n, remaining-allow_n, allow_n-IsWithin}
use gateway_controllers.FixedWindow.Clamp.{served, consume_or_clamp_n_splits}
use gateway_controllers.FixedWindow.Charge.{consume_n_charges, consume_n_wraps}
use gateway_controllers.FixedWindow.Cleanup.{quota_resets}
use gateway_controllers.FixedWindow.Trace.{Call, allows, clamps, total, total-le-get_available}

-- Five units in each second.
abbrev five : Policy
five = record { limit = pos 5; duration = second }

abbrev empty : MemoryLimiter
empty = record { data_of = λ k. none; policy = five }

abbrev at_ms : ℕ → Clocks
at_ms t = record { now = pos (t * 1_000_000); wall = pos (t * 1_000_000) }

five-IsSane : IsSane five
five-IsSane = record { long = omega arith; some_quota = omega arith; small = omega arith }

empty-IsWithin : IsWithin empty
empty-IsWithin = record { sane = five-IsSane; counts = λ k e p. cc; lasting = λ k e p. cc }

-- Three units of a key are spent at 100 ms.
abbrev spent : MemoryLimiter
spent = (allow_n (at_ms 100) "alice" (pos 3) empty).1

spent-IsWithin : IsWithin spent
spent-IsWithin = allow_n-IsWithin (at_ms 100) "alice" (pos 3) empty empty-IsWithin (omega arith)

two_left : get_available (at_ms 200) "alice" spent ≡ pos 2
unfolding get_available current_count allow_n store_count window_start window_end truncate sub64
    add64 ◌-ℤ◌ ◌+ℤ◌ wrap64
two_left = refl

four_denied : (allow_n (at_ms 200) "alice" (pos 4) spent).0.allowed ≡ false
unfolding allow_n current_count store_count window_start window_end truncate sub64 add64 ◌-ℤ◌ ◌+ℤ◌
    wrap64
four_denied = refl

allowed-allow_n_example :
    (allow_n (at_ms 200) "alice" (pos 4) spent).0.allowed
    ≡ le_ℤ (pos 4) (get_available (at_ms 200) "alice" spent)
allowed-allow_n_example =
    allowed-allow_n (at_ms 200) "alice" (pos 4) spent spent-IsWithin (omega arith)

remaining-allow_n_run :
    (allow_n (at_ms 200) "alice" (pos 2) spent).0.remaining
    ≡ get_available (at_ms 200) "alice" (allow_n (at_ms 200) "alice" (pos 2) spent).1
remaining-allow_n_run =
    remaining-allow_n (at_ms 200) "alice" (pos 2) spent spent-IsWithin (omega arith)

same_second : SameWindow spent.policy (at_ms 200) (at_ms 300)
unfolding window_start allow_n store_count truncate ◌-ℤ◌ ◌+ℤ◌ add64 wrap64 current_count
same_second = refl

consume_or_clamp_n_splits_example :
    let r = (consume_or_clamp_n (at_ms 200) "alice" (pos 4) spent).0 in
    (r.consumed ≡ served (get_available (at_ms 200) "alice" spent) (pos 4))
    × (r.consumed +ℤ r.overflow ≡ pos 4)
    × (r.allowed ≡ le_ℤ (pos 4) (get_available (at_ms 200) "alice" spent))
    × (current_count (at_ms 300) "alice" (consume_or_clamp_n (at_ms 200) "alice" (pos 4) spent).1
        ≡ current_count (at_ms 300) "alice" spent +ℤ r.consumed)
consume_or_clamp_n_splits_example =
    consume_or_clamp_n_splits (at_ms 200) "alice" (pos 4) spent spent-IsWithin (omega arith)
      (at_ms 300) "alice" same_second

abbrev seven_spent : MemoryLimiter
seven_spent = (consume_n (at_ms 100) "alice" (pos 7) empty).1

count_of_seven : current_count (at_ms 100) "alice" seven_spent ≡ pos 7
unfolding current_count consume_n store_count window_start window_end truncate sub64 add64 ◌-ℤ◌ ◌+ℤ◌
    wrap64
count_of_seven = refl

policy_of_seven : IsSane seven_spent.policy
unfolding consume_n store_count
policy_of_seven = five-IsSane

consume_n_charges_run :
    let spent_more = current_count (at_ms 100) "alice" empty +ℤ pos 7 in
    ((consume_n (at_ms 100) "alice" (pos 7) empty).0.allowed ≡ le_ℤ spent_more (pos 5))
    × (get_available (at_ms 100) "alice" seven_spent ≡ clamp_zero (pos 5 -ℤ spent_more))
    × ((consume_n (at_ms 100) "alice" (pos 7) empty).0.remaining ≡ clamp_zero (pos 5 -ℤ spent_more))
unfolding current_count
consume_n_charges_run =
    consume_n_charges (at_ms 100) "alice" (pos 7) empty five-IsSane (omega arith) (omega arith)

one_more : seven_spent.policy.limit +ℤ pos 1 <ℤ pos 7
unfolding consume_n store_count ◌+ℤ◌
one_more = omega arith

consume_n_wraps_run :
    (get_available (at_ms 100) "alice" seven_spent ≡ pos 0)
    × ((consume_n (at_ms 100) "alice" max_int64 seven_spent).0.allowed ≡ true)
    × (pos 0
        <ℤ get_available
            (at_ms 100)
            "alice"
            (consume_n (at_ms 100) "alice" max_int64 seven_spent).1)
consume_n_wraps_run =
    consume_n_wraps (at_ms 100) "alice" seven_spent policy_of_seven
      (rw count_of_seven (omega arith)) (rw count_of_seven one_more)

three_granted : (allow_n (at_ms 100) "alice" (pos 3) empty).0.allowed ≡ true
unfolding allow_n current_count sub64 add64 ◌-ℤ◌ ◌+ℤ◌ wrap64
three_granted = refl

next_second : ¬ SameWindow five (at_ms 100) (at_ms 1200)
unfolding window_start truncate ◌-ℤ◌
next_second e = cc

quota_resets_run : get_available (at_ms 1200) "alice" spent ≡ pos 5
quota_resets_run =
    quota_resets (at_ms 100) (at_ms 1200) "alice" (pos 3) empty five-IsSane (omega arith)
      three_granted next_second

abbrev busy_second : List Call
busy_second =
    allows (at_ms 100) "alice" (pos 3)
    ∷ clamps (at_ms 400) "alice" (pos 4)
    ∷ allows (at_ms 999) "bob" (pos 1)
    ∷ []

total-le-get_available_example :
    total "alice" empty busy_second ≤ℤ get_available (at_ms 0) "alice" empty
unfolding window_start truncate ◌-ℤ◌
total-le-get_available_example =
    total-le-get_available empty (at_ms 0) "alice" busy_second empty-IsWithin
      ((refl, omega arith), ((refl, omega arith), ((refl, omega arith), tt)))
