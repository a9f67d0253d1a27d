-- ===== src/FixedWindow/Trace.antt =====
-- Calls of the fixed-window limiter in sequence.
use gateway_controllers.Prelude.{
  ◌≡◌, refl, ap, ◌∙◌, String, Bool, true, false, arith, if◌then◌else◌, List, [], ◌∷◌,
}
use gateway_controllers.Prelude.Int.{
  ℤ, pos, pos_part, neg_part, ◌+ℤ◌, ◌≤ℤ◌, int_laws, +ℤ_parts, eq_of_parts,
}
use gateway_controllers.Limiter.{Clocks}
use text.Mathlib.Text.{◌==◌ as str_eq}
use gateway_controllers.FixedWindow.{
  Policy, MemoryLimiter, current_count, store_count, allow_n, consume_or_clamp_n, get_available,
}
use gateway_controllers.FixedWindow.Counts.{SameWindow, IsWithin, IsCost, current_count_bounds}
use gateway_controllers.FixedWindow.Clamp.{consume_or_clamp_n-IsWithin, consume_or_clamp_n_splits}
use gateway_controllers.FixedWindow.Quota.{available_parts, current_count-allow_n, allow_n-IsWithin}

-- A call of the limiter: which method, for which key, at what cost.
pub data Call : Type 0 where
  allows : Clocks → String → ℤ → Call
  clamps : Clocks → String → ℤ → Call

pub step : MemoryLimiter → Call → MemoryLimiter
step m (allows c key n) = (allow_n c key n m).1
step m (clamps c key n) = (consume_or_clamp_n c key n m).1

-- What a call charges to a key, by its own result.
charged : String → MemoryLimiter → Call → ℤ
charged k m (allows c key n) = if str_eq key k then (allow_n c key n m).0.consumed else pos 0
charged k m (clamps c key n) =
    if str_eq key k then (consume_or_clamp_n c key n m).0.consumed else pos 0

unfoldable pub run : MemoryLimiter → List Call → MemoryLimiter
unfolding step
run m [] = m
run m (x ∷ xs) = run (step m x) xs

unfoldable pub total : String → MemoryLimiter → List Call → ℤ
unfolding step charged
total k m [] = pos 0
total k m (x ∷ xs) = charged k m x +ℤ total k (step m x) xs

-- A call in the window of `c`, with a cost that is not negative and below 2 ^ 62.
abbrev pub IsCallIn : Policy → Clocks → Call → Type 0
IsCallIn p c (allows d key n) = SameWindow p d c × IsCost n
IsCallIn p c (clamps d key n) = SameWindow p d c × IsCost n

abbrev pub AllIn : Policy → Clocks → List Call → Type 0
AllIn p c [] = Unit {0}
AllIn p c (x ∷ xs) = IsCallIn p c x × AllIn p c xs

step-IsWithin :
    (m : MemoryLimiter) (c : Clocks) (x : Call)
    → IsWithin m
    → IsCallIn m.policy c x
    → IsWithin (step m x)
unfolding step
step-IsWithin m c (allows d key n) v h = allow_n-IsWithin d key n m v h.1
step-IsWithin m c (clamps d key n) v h = consume_or_clamp_n-IsWithin d key n m v h.1

policy-step : (m : MemoryLimiter) (x : Call) → (step m x).policy ≡ m.policy
unfolding step allow_n consume_or_clamp_n store_count
policy-step m (allows c key n) = ground arith
policy-step m (clamps c key n) = ground arith

add_if : (b : Bool) (x y : ℤ) → (if b then x +ℤ y else x) ≡ x +ℤ (if b then y else pos 0)
add_if true x y = refl
add_if false x y = eq_of_parts _ _ (omega (arith, +ℤ_parts x (pos 0)))

count-step :
    (m : MemoryLimiter) (c : Clocks) (k : String) (x : Call)
    → IsWithin m
    → IsCallIn m.policy c x
    → current_count c k (step m x) ≡ current_count c k m +ℤ charged k m x
unfolding step charged
count-step m c k (allows d key n) v h =
    current_count-allow_n d key n m v h.1 c k h.0 ∙ add_if (str_eq key k) _ _
count-step m c k (clamps d key n) v h =
    let (_, _, _, count) = consume_or_clamp_n_splits d key n m v h.1 c k h.0 in
    count ∙ add_if (str_eq key k) _ _

AllIn-step :
    (m : MemoryLimiter) (c : Clocks) (x : Call) (xs : List Call)
    → AllIn m.policy c xs
    → AllIn (step m x).policy c xs
AllIn-step m c x xs h = rw (policy-step m x) h

-- Over any calls in one window, on any keys, the amounts that were charged to a key add up to the
-- growth of its count, and the counts stay between 0 and the limit.
run_accounts :
    (m : MemoryLimiter) (c : Clocks) (k : String) (xs : List Call)
    → IsWithin m
    → AllIn m.policy c xs
    → IsWithin (run m xs) × (current_count c k (run m xs) ≡ current_count c k m +ℤ total k m xs)
unfolding run total
run_accounts m c k [] v h =
    (v, eq_of_parts _ _ (omega (arith, +ℤ_parts (current_count c k m) (pos 0))))
run_accounts m c k (x ∷ xs) v h =
    let rest =
      run_accounts (step m x) c k xs (step-IsWithin m c x v h.0) (AllIn-step m c x xs h.1) in
    (
      rest.0,
      rest.1
          ∙ eq_of_parts _ _ (
              omega (
                int_laws,
                ap pos_part (count-step m c k x v h.0),
                ap neg_part (count-step m c k x v h.0),
              )),
    )

policy-run : (m : MemoryLimiter) (xs : List Call) → (run m xs).policy ≡ m.policy
unfolding run
policy-run m [] = refl
policy-run m (x ∷ xs) = policy-run (step m x) xs ∙ policy-step m x

-- From a well-formed state, whatever calls of `AllowN` and `ConsumeOrClampN` come in one window, in
-- whatever order, on whatever keys, each at a cost that is not negative and below 2 ^ 62: what they
-- charge to one key is at most what was available to it at the start.
pub total-le-get_available :
    (m : MemoryLimiter) (c : Clocks) (k : String) (xs : List Call)
    → IsWithin m
    → AllIn m.policy c xs
    → total k m xs ≤ℤ get_available c k m
total-le-get_available m c k xs v h =
    let done = run_accounts m c k xs v h in
    rw (available_parts c k m v) (
      omega (
        int_laws,
        current_count_bounds c k (run m xs) done.0,
        ap pos_part done.1,
        ap neg_part done.1,
        ap (λ (p : Policy). pos_part p.limit) (policy-run m xs),
        ap (λ (p : Policy). neg_part p.limit) (policy-run m xs),
      ))
