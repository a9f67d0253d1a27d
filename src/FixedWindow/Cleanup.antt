-- ===== src/FixedWindow/Cleanup.antt =====
-- The cleanup goroutine of the fixed-window limiter, and the change of windows.
use gateway_controllers.Prelude.{◌≡◌, String, true, arith, some}
use gateway_controllers.Prelude.Int.{ℤ, pos, ◌<ℤ◌, eq_of_parts, add64, sub64, sub64_parts}
use gateway_controllers.Limiter.{Clocks, Instant, minute, time_add, clamp_zero, until}
use text.Mathlib.TextPositions.{eq_refl}
use gateway_controllers.FixedWindow.{
  Policy, MemoryLimiter, window_start, window_end, entry_count, current_count, store_count, allow_n,
  get_available,
}
use gateway_controllers.FixedWindow.Counts.{SameWindow, IsSane, policy-store_count}

entry_count_other :
    (ws us now until : Instant) (count : ℤ)
    → ¬ (ws ≡ us)
    → entry_count us now (some (record { count = count; start = ws; expiration = until })) ≡ pos 0
entry_count_other ws us now until count other = ground (arith, eq_of_parts ws us)

current_count_other :
    (c d : Clocks) (key : String) (count : ℤ) (m : MemoryLimiter)
    → ¬ SameWindow m.policy c d
    → current_count d key (store_count c key count m) ≡ pos 0
unfolding current_count store_count
current_count_other c d key count m other = rw (eq_refl key) (
    entry_count_other (window_start m.policy c.now) (window_start m.policy d.now) d.now
      (time_add (window_end m.policy c.now) minute) count other)

whole_limit : (p : Policy) → IsSane p → clamp_zero (sub64 p.limit (pos 0)) ≡ p.limit
whole_limit p sane = ground (
  arith,
  sane.small,
  sane.some_quota,
  sub64_parts p.limit (pos 0),
  eq_of_parts (sub64 p.limit (pos 0)) p.limit,
)

charged_state :
    (c : Clocks) (key : String) (n : ℤ) (m : MemoryLimiter)
    → pos 0 <ℤ n
    → (allow_n c key n m).0.allowed ≡ true
    → (allow_n c key n m).1 ≡ store_count c key (add64 (current_count c key m) n) m
unfolding allow_n
charged_state c key n m h fits = ground arith

-- Under a sane policy, after AllowN has let a call of a positive cost through in one window, the
-- whole limit is available to its key in any other window.
pub quota_resets :
    (c d : Clocks) (key : String) (n : ℤ) (m : MemoryLimiter)
    → IsSane m.policy
    → pos 0 <ℤ n
    → (allow_n c key n m).0.allowed ≡ true
    → ¬ SameWindow m.policy c d
    → get_available d key (allow_n c key n m).1 ≡ m.policy.limit
unfolding get_available
quota_resets c d key n m sane h fits other =
    rw
      (
        charged_state c key n m h fits,
        current_count_other c d key (add64 (current_count c key m) n) m other,
        policy-store_count c key (add64 (current_count c key m) n) m,
      )
      (whole_limit m.policy sane)
