-- ===== src/FixedWindow/Clamp.antt =====
-- ConsumeOrClampN and ConsumeN of the fixed-window limiter.
use gateway_controllers.Prelude.{◌≡◌, refl, String, arith, if◌then◌else◌, inl, inr, Bool-cases}
use gateway_controllers.Prelude.Int.{
  ℤ, pos, ◌+ℤ◌, ◌-ℤ◌, ◌≤ℤ◌, le_ℤ, lt_ℤ, eq_ℤ, +ℤ_parts, -ℤ_parts, eq_of_parts, sub64, sub64_parts,
}
use gateway_controllers.Limiter.{Clocks, clamp_zero}
use gateway_controllers.FixedWindow.{
  MemoryLimiter, current_count, consume_or_clamp_n, get_available,
}
use gateway_controllers.FixedWindow.Counts.{
  SameWindow, IsWithin, IsCost, current_count_bounds, charge, current_count-charge, charge-IsWithin,
}
use gateway_controllers.FixedWindow.Quota.{available_parts}
use text.Mathlib.Text.{◌==◌ as str_eq}

-- The part of a cost `n` that a quota `a` serves.
abbrev pub served : ℤ → ℤ → ℤ
served a n = if lt_ℤ a n then a else n

pub clamp_zero-IsCost : (n : ℤ) → pos 0 ≤ℤ n → clamp_zero n ≡ n
clamp_zero-IsCost n h = ground arith

pub served_rest :
    (a n : ℤ)
    → pos 0 ≤ℤ a
    → IsCost n
    → let overflow = sub64 n (served a n) in
      (served a n +ℤ overflow ≡ n) × (eq_ℤ overflow (pos 0) ≡ le_ℤ n a)
served_rest a n ha h = elim (Bool-cases (lt_ℤ a n)) [
  | inl over ↦ rw over (
    eq_of_parts _ _ (ground (arith, sub64_parts n a, +ℤ_parts a (sub64 n a))),
    ground (arith, sub64_parts n a),
  )
  | inr fits ↦ rw fits (
    eq_of_parts _ _ (ground (arith, sub64_parts n n, +ℤ_parts n (sub64 n n))),
    ground (arith, sub64_parts n n),
  )
]

pub get_available_bounds :
    (c : Clocks) (key : String) (m : MemoryLimiter)
    → IsWithin m
    → (pos 0 ≤ℤ get_available c key m) × (get_available c key m ≤ℤ m.policy.limit)
get_available_bounds c key m v = rw (available_parts c key m v) (
    ground (arith, current_count_bounds c key m v, -ℤ_parts m.policy.limit (current_count c key m)))

module _ (c : Clocks) (key : String) (n : ℤ) (m : MemoryLimiter) (v : IsWithin m)
    (h : IsCost n) where
  result-clamp :
      let r = (consume_or_clamp_n c key n m).0 in
      (r.consumed ≡ served (get_available c key m) n)
      × (r.consumed +ℤ r.overflow ≡ n)
      × (r.allowed ≡ le_ℤ n (get_available c key m))
  unfolding consume_or_clamp_n get_available
  result-clamp =
      let split = served_rest (get_available c key m) n (get_available_bounds c key m v).0 h in
      rw (clamp_zero-IsCost n h.0) (refl, split.0, split.1)

  served-IsCost : IsCost (served (get_available c key m) n)
  served-IsCost = ground (arith, get_available_bounds c key m v)

  fits : current_count c key m +ℤ served (get_available c key m) n ≤ℤ m.policy.limit
  fits = rw (available_parts c key m v) (
      ground (
        arith,
        -ℤ_parts m.policy.limit (current_count c key m),
        +ℤ_parts (current_count c key m) n,
        +ℤ_parts (current_count c key m) (m.policy.limit -ℤ current_count c key m),
      ))

  state-clamp : (consume_or_clamp_n c key n m).1 ≡ charge c key (served (get_available c key m) n) m
  unfolding consume_or_clamp_n get_available
  state-clamp = rw (clamp_zero-IsCost n h.0)

  -- It raises the count of its key by the charged part, and of no other key.
  current_count-consume_or_clamp_n :
      (d : Clocks) (j : String)
      → SameWindow m.policy c d
      → current_count d j (consume_or_clamp_n c key n m).1 ≡ (
          if str_eq key j
          then current_count d j m +ℤ served (get_available c key m) n
          else current_count d j m)
  current_count-consume_or_clamp_n d j w =
      rw state-clamp (current_count-charge c key _ m v d j served-IsCost w)

  -- In a well-formed state and for a cost that is not negative and below 2 ^ 62: ConsumeOrClampN
  -- charges the smaller of the cost and of what `GetAvailable` reports, the rest of the cost is the
  -- overflow, and the call is allowed exactly when `GetAvailable` covers the cost. In the state that
  -- it leaves, for every reading of the clocks in the same window, the count of its key is what it
  -- was plus the charged part, and the count of any other key is what it was.
  pub consume_or_clamp_n_splits :
      (d : Clocks) (j : String)
      → SameWindow m.policy c d
      → let r = (consume_or_clamp_n c key n m).0 in
        (r.consumed ≡ served (get_available c key m) n)
        × (r.consumed +ℤ r.overflow ≡ n)
        × (r.allowed ≡ le_ℤ n (get_available c key m))
        × (current_count d j (consume_or_clamp_n c key n m).1
            ≡ (if str_eq key j then current_count d j m +ℤ r.consumed else current_count d j m))
  consume_or_clamp_n_splits d j w =
      let (charged, rest, decision) = result-clamp in
      (charged, rest, decision, rw charged (current_count-consume_or_clamp_n d j w))

  pub consume_or_clamp_n-IsWithin : IsWithin (consume_or_clamp_n c key n m).1
  consume_or_clamp_n-IsWithin = rw state-clamp (charge-IsWithin c key _ m v served-IsCost (fits))
