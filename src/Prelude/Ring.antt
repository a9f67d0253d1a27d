-- ===== src/Prelude/Ring.antt =====
-- Positions modulo a length.
use gateway_controllers.Prelude.{
  ℕ, suc, ◌+◌, ◌-◌, ◌%◌, ◌<◌, ◌≡◌, ap, sym, ◌∙◌, arith, leb, Bool-cases, inl, inr,
}
use native.Mathlib.Nat.{mod-lt, mod-add-mod, mod-eq_of_lt, add-mod_right}

-- From any position of a ring of n, each position is reached in fewer than n steps.
pub ring_reach : (n i c : ℕ) → c < n → (j : ℕ) × (j < n) × ((i + j) % n ≡ c)
ring_reach n i c h =
    let below : i % n < n = mod-lt i (omega arith) in
    elim (Bool-cases (leb (i % n) c)) [
      | inl le ↦ (
        c - i % n,
        ground arith,
        sym (mod-add-mod i n (c - i % n)) ∙ ap (λ k. k % n) (ground arith) ∙ mod-eq_of_lt h,
      )
      | inr lt ↦ (
        (c + n) - i % n,
        ground arith,
        sym (mod-add-mod i n ((c + n) - i % n))
            ∙ ap (λ k. k % n) (ground arith)
            ∙ add-mod_right c n
            ∙ mod-eq_of_lt h,
      )
    ]

-- A step of a ring, then j more.
pub ring_step : (n i j : ℕ) → ((i + 1) % n + j) % n ≡ (i + suc j) % n
ring_step n i j = mod-add-mod (i + 1) n j ∙ ap (λ k. k % n) (ground arith)
