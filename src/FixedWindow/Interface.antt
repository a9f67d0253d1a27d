-- ===== src/FixedWindow/Interface.antt =====
-- The fixed-window limiter as a limiter.Limiter, and the laws that it keeps as one.
use gateway_controllers.Prelude.{◌≡◌, refl, sym, ap, ◌∙◌, String, true, false, ◌^◌, arith}
use gateway_controllers.Prelude.Int.{
  ℤ, pos, pos_part, neg_part, ◌-ℤ◌, ◌≤ℤ◌, ◌<ℤ◌, le_ℤ, -ℤ_parts, eq_of_parts, add64, sub64,
  add64_parts, sub64_parts,
}
use gateway_controllers.Limiter.{Clocks, clamp_zero, ok}
use gateway_controllers.FixedWindow.{
  MemoryLimiter, current_count, allow_n, consume_or_clamp_n, consume_n, get_available,
}
use gateway_controllers.FixedWindow.Counts.{IsWithin, IsCost, current_count_bounds}
use gateway_controllers.FixedWindow.Clamp.{
  served, served_rest, get_available_bounds, clamp_zero-IsCost,
}
use gateway_controllers.FixedWindow.Quota.{available_parts}
use gateway_controllers.Multi.{Limiter}
use gateway_controllers.Multi.Clamp.{ClampLaws, IsHonest}

-- The methods of *MemoryLimiter never return an error, and ConsumeN makes it a CostTracker.
abbrev pub fixed_window : Limiter
fixed_window = record {
  State = MemoryLimiter;
  Env = Clocks;
  allow_n = λ c key n m. (ok (allow_n c key n m).0, (allow_n c key n m).1);
  consume_or_clamp_n =
      λ c key n m. (ok (consume_or_clamp_n c key n m).0, (consume_or_clamp_n c key n m).1);
  consume_n = λ c key n m. (ok (consume_n c key n m).0, (consume_n c key n m).1);
  get_available = λ c key m. ok (get_available c key m);
  tracks_cost = λ m. true;
}

-- A quota `a` of a limit, less what it serves of a cost.
quota_left :
    (limit current a n : ℤ)
    → pos 0 ≤ℤ current
    → current ≤ℤ limit
    → limit <ℤ pos (2 ^ 62)
    → a ≡ limit -ℤ current
    → IsCost n
    → let left = clamp_zero (sub64 limit (add64 current (served a n))) in
      (pos 0 ≤ℤ left) × (le_ℤ n a ≡ false → left ≡ pos 0)
quota_left limit current a n lo hi small e h =
    (ground arith, λ over. ap clamp_zero (all_spent (ground arith)))
  where
    all_spent : a <ℤ n → sub64 limit (add64 current (served a n)) ≡ pos 0
    all_spent over = eq_of_parts _ _ (
        ground (
          arith,
          -ℤ_parts limit current,
          ap pos_part e,
          ap neg_part e,
          add64_parts current a,
          sub64_parts limit (add64 current a),
        ))

pub clamp-IsHonest :
    (c : Clocks) (key : String) (n : ℤ) (m : MemoryLimiter)
    → IsWithin m
    → IsCost n
    → IsHonest (consume_or_clamp_n c key n m).0
unfolding consume_or_clamp_n get_available
clamp-IsHonest c key n m v h =
    let left =
      quota_left m.policy.limit (current_count c key m) (get_available c key m) n
        (current_count_bounds c key m v).0 (current_count_bounds c key m v).1 v.sane.small
        (available_parts c key m v) h in
    let split = served_rest (get_available c key m) n (get_available_bounds c key m v).0 h in
    rw (clamp_zero-IsCost n h.0) (left.0, λ denied. left.1 (sym split.1 ∙ denied))

-- So it keeps the laws that ConsumeOrClampN over several limiters asks for.
abbrev pub fixed_window_laws : ClampLaws fixed_window
fixed_window_laws = record {
  IsValid = IsWithin;
  honest = λ c key n m v h. ((consume_or_clamp_n c key n m).0, refl, clamp-IsHonest c key n m v h);
}
