-- ===== src/FixedWindow/Quota.antt =====
-- AllowN of the fixed-window limiter: who is let through, and what is left.
use gateway_controllers.Prelude.{◌≡◌, refl, String, arith, if◌then◌else◌, inl, inr, Bool-cases}
use gateway_controllers.Prelude.Int.{
  ℤ, pos, ◌+ℤ◌, ◌-ℤ◌, ◌≤ℤ◌, le_ℤ, lt_ℤ, +ℤ_parts, -ℤ_parts, eq_of_parts, add64, add64_parts,
  sub64_parts,
}
use gateway_controllers.Limiter.{Clocks}
use gateway_controllers.FixedWindow.{MemoryLimiter, current_count, allow_n, get_available}
use gateway_controllers.FixedWindow.Counts.{
  SameWindow, IsWithin, IsCost, current_count-store_count, current_count_bounds,
  current_count-SameWindow, store_count-IsWithin, policy-store_count,
}
use text.Mathlib.Text.{◌==◌ as str_eq}
use text.Mathlib.TextEquality.{eq_iff}
use text.Mathlib.TextPositions.{eq_refl}

-- What is left of the quota, with no wrap-around.
pub available_parts :
    (c : Clocks) (key : String) (m : MemoryLimiter)
    → IsWithin m
    → get_available c key m ≡ m.policy.limit -ℤ current_count c key m
unfolding get_available
available_parts c key m v = eq_of_parts _ _ (
    ground (
      arith,
      current_count_bounds c key m v,
      v.sane.small,
      sub64_parts m.policy.limit (current_count c key m),
      -ℤ_parts m.policy.limit (current_count c key m),
    ))

module _ (c : Clocks) (key : String) (n : ℤ) (m : MemoryLimiter) (v : IsWithin m)
    (h : IsCost n) where
  -- In a well-formed state, AllowN lets a call whose cost is not negative and below 2 ^ 62 through
  -- exactly when the cost is at most what `GetAvailable` reports.
  pub allowed-allow_n : (allow_n c key n m).0.allowed ≡ le_ℤ n (get_available c key m)
  unfolding allow_n
  allowed-allow_n = rw (available_parts c key m v) (
      ground (
        arith,
        current_count_bounds c key m v,
        v.sane.small,
        -ℤ_parts m.policy.limit (current_count c key m),
        add64_parts (current_count c key m) n,
      ))

  -- It is charged in full, or not at all.
  pub consumed-allow_n :
      (allow_n c key n m).0.consumed ≡ (if le_ℤ n (get_available c key m) then n else pos 0)
  unfolding allow_n
  consumed-allow_n = rw (available_parts c key m v) (
      ground (
        arith,
        current_count_bounds c key m v,
        v.sane.small,
        -ℤ_parts m.policy.limit (current_count c key m),
        add64_parts (current_count c key m) n,
        eq_of_parts (pos 0) n,
      ))

  pub current_count-allow_n :
      (d : Clocks) (j : String)
      → SameWindow m.policy c d
      → current_count d j (allow_n c key n m).1 ≡ (
          if str_eq key j
          then current_count d j m +ℤ (allow_n c key n m).0.consumed
          else current_count d j m)
  unfolding allow_n
  current_count-allow_n d j w = ground (
    arith,
    eq_iff key j,
    current_count-store_count c d key j (add64 (current_count c key m) n) m v.sane.long w,
    current_count-SameWindow c d j m v w,
    current_count_bounds c key m v,
    v.sane.small,
    add64_parts (current_count c key m) n,
    +ℤ_parts (current_count c key m) n,
    +ℤ_parts (current_count c key m) (pos 0),
    eq_of_parts (current_count c key m) (current_count c key m +ℤ pos 0),
    eq_of_parts (add64 (current_count c key m) n) (current_count c key m +ℤ n),
  )

  -- The counts stay between 0 and the limit.
  pub allow_n-IsWithin : IsWithin (allow_n c key n m).1
  unfolding allow_n
  allow_n-IsWithin = ground (
    arith,
    current_count_bounds c key m v,
    v.sane.small,
    v,
    add64_parts (current_count c key m) n,
    store_count-IsWithin c key (add64 (current_count c key m) n) m v,
  )

  zero_cost : n ≤ℤ pos 0 → add64 (current_count c key m) n ≡ current_count c key m
  zero_cost small = ground (
    arith,
    current_count_bounds c key m v,
    v.sane.small,
    add64_parts (current_count c key m) n,
    eq_of_parts (add64 (current_count c key m) n) (current_count c key m),
  )

  -- In a well-formed state and for a cost that is not negative and below 2 ^ 62, the remaining
  -- quota in the result of AllowN is what `GetAvailable` reports afterwards.
  pub remaining-allow_n :
      (allow_n c key n m).0.remaining ≡ get_available c key (allow_n c key n m).1
  unfolding allow_n get_available
  remaining-allow_n = elim (Bool-cases (le_ℤ (add64 (current_count c key m) n) m.policy.limit)) [
    | inl fits ↦ elim (Bool-cases (lt_ℤ (pos 0) n)) [
      | inl charged ↦ rw (
        fits,
        charged,
        current_count-store_count c c key key (add64 (current_count c key m) n) m v.sane.long refl,
        eq_refl key,
        policy-store_count c key (add64 (current_count c key m) n) m,
      )
      | inr free ↦ rw (fits, free, zero_cost (ground arith))
    ]
    | inr over ↦ rw over
  ]
