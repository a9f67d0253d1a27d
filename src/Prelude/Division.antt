-- ===== src/Prelude/Division.antt =====
-- Division rounded up.
use gateway_controllers.Prelude.{ℕ, ◌+◌, ◌-◌, ◌*◌, ◌/◌, ◌≤◌, ◌<◌, ◌≡◌, ap, ◌∙◌, arith}
use native.Mathlib.Nat.{add-mul-div_right}

unfoldable pub ceil_div : ℕ → ℕ → ℕ
ceil_div a b = (a + b - 1) / b

module _ (a b n : ℕ) (h : 0 < b) where
  pub ceil_div-add_mul : ceil_div (a + n * b) b ≡ ceil_div a b + n
  unfolding ceil_div
  ceil_div-add_mul = ap (λ k. k / b) regroup ∙ add-mul-div_right (a + b - 1) n h
    where
      regroup : a + n * b + b - 1 ≡ a + b - 1 + n * b
      regroup = omega arith

  pub le-ceil_div_mul : a ≤ ceil_div a b * b
  unfolding ceil_div
  le-ceil_div_mul = grind arith

  pub ceil_div_le : a ≤ n * b → ceil_div a b ≤ n
  unfolding ceil_div
  ceil_div_le k = grind arith

  pub lt-ceil_div : n * b < a → n < ceil_div a b
  unfolding ceil_div
  lt-ceil_div k = grind arith

pub mul_mono : (a b n : ℕ) → a ≤ b → a * n ≤ b * n
mul_mono a b n h = grind arith
