-- ===== src/FixedWindow/Charge.antt =====
-- ConsumeN of the fixed-window limiter, which charges a cost that the upstream has already caused.
use gateway_controllers.Prelude.{◌≡◌, refl, ap, ◌∙◌, String, true, arith, inl, inr, Bool-cases}
use gateway_controllers.Prelude.Int.{
  ℤ, pos, ◌+ℤ◌, ◌-ℤ◌, ◌≤ℤ◌, ◌<ℤ◌, le_ℤ, lt_ℤ, +ℤ_parts, -ℤ_parts, eq_of_parts, add64, sub64,
  add64_parts, sub64_parts, add64_over,
}
use gateway_controllers.Limiter.{Clocks, clamp_zero, max_int64}
use text.Mathlib.TextPositions.{eq_refl}
use gateway_controllers.FixedWindow.{
  MemoryLimiter, current_count, store_count, consume_n, get_available,
}
use gateway_controllers.FixedWindow.Counts.{
  IsSane, IsCost, current_count-store_count, policy-store_count,
}

module _ (c : Clocks) (key : String) (n : ℤ) (m : MemoryLimiter) (sane : IsSane m.policy) where
  read_back :
      current_count c key (store_count c key (add64 (current_count c key m) n) m)
      ≡ add64 (current_count c key m) n
  read_back =
      current_count-store_count c c key key (add64 (current_count c key m) n) m sane.long refl
      ∙ rw (eq_refl key)

  -- Under a sane policy, where the cost and the count are not negative and below 2 ^ 62, ConsumeN
  -- charges the full cost, also past the limit: it is allowed exactly when the sum of both is within
  -- the limit, and its result and `GetAvailable` afterwards report the limit less that sum, 0 once
  -- the limit is passed.
  pub consume_n_charges :
      IsCost n
      → IsCost (current_count c key m)
      → let spent = current_count c key m +ℤ n in
        ((consume_n c key n m).0.allowed ≡ le_ℤ spent m.policy.limit)
        × (get_available c key (consume_n c key n m).1 ≡ clamp_zero (m.policy.limit -ℤ spent))
        × ((consume_n c key n m).0.remaining ≡ clamp_zero (m.policy.limit -ℤ spent))
  unfolding consume_n get_available
  consume_n_charges h k = elim (Bool-cases (lt_ℤ (pos 0) n)) [
    | inl charged ↦
        rw
          (
            charged,
            read_back,
            policy-store_count c key (add64 (current_count c key m) n) m,
            add64_exact,
            sub64_exact,
          )
          (refl, refl, refl)
    | inr free ↦
        rw (free, add64_exact, sub64_exact) (refl, ap clamp_zero (unspent (ground arith)), refl)
  ]
    where
      add64_exact : add64 (current_count c key m) n ≡ current_count c key m +ℤ n
      add64_exact = eq_of_parts _ _ (
          ground (arith, add64_parts (current_count c key m) n, +ℤ_parts (current_count c key m) n))

      sub64_exact :
          sub64 m.policy.limit (current_count c key m +ℤ n)
          ≡ m.policy.limit -ℤ (current_count c key m +ℤ n)
      sub64_exact = eq_of_parts _ _ (
          ground (
            arith,
            +ℤ_parts (current_count c key m) n,
            sane.small,
            sane.some_quota,
            sub64_parts m.policy.limit (current_count c key m +ℤ n),
            -ℤ_parts m.policy.limit (current_count c key m +ℤ n),
          ))

      unspent :
          n ≤ℤ pos 0
          → sub64 m.policy.limit (current_count c key m)
            ≡ m.policy.limit -ℤ (current_count c key m +ℤ n)
      unspent small = eq_of_parts _ _ (
          ground (
            arith,
            +ℤ_parts (current_count c key m) n,
            sane.small,
            sane.some_quota,
            sub64_parts m.policy.limit (current_count c key m),
            -ℤ_parts m.policy.limit (current_count c key m +ℤ n),
          ))

-- ConsumeN sums in int64. Under a sane policy, once a count is more than one past the limit, a charge of the largest
-- int64 makes it negative. The call then counts as allowed, and quota is available again where
-- `GetAvailable` reported none before.
pub consume_n_wraps :
    (c : Clocks) (key : String) (m : MemoryLimiter)
    → IsSane m.policy
    → IsCost (current_count c key m)
    → m.policy.limit +ℤ pos 1 <ℤ current_count c key m
    → (get_available c key m ≡ pos 0)
      × ((consume_n c key max_int64 m).0.allowed ≡ true)
      × (pos 0 <ℤ get_available c key (consume_n c key max_int64 m).1)
unfolding consume_n get_available
consume_n_wraps c key m sane k over = (
  ground (
    arith,
    sane.small,
    sane.some_quota,
    sub64_parts m.policy.limit (current_count c key m),
    +ℤ_parts m.policy.limit (pos 1),
  ),
  ground (
    arith,
    sane.small,
    sane.some_quota,
    add64_over (current_count c key m) max_int64,
    +ℤ_parts m.policy.limit (pos 1),
  ),
  rw
      (
        read_back c key max_int64 m sane,
        policy-store_count c key (add64 (current_count c key m) max_int64) m,
      )
      (ground (
        arith,
        sane.small,
        sane.some_quota,
        add64_over (current_count c key m) max_int64,
        +ℤ_parts m.policy.limit (pos 1),
        sub64_parts m.policy.limit (add64 (current_count c key m) max_int64),
      )),
)
