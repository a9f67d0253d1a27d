-- ===== src/Tests/MultiRuns.antt =====
-- Several limiters behind one, at concrete inputs.
use gateway_controllers.Prelude.{
  ◌^◌, ◌≡◌, refl, true, ℕ, ◌<◌, arith, none, some, List, [], ◌∷◌, ◌++◌,
}
use gateway_controllers.Prelude.Int.{ℤ, pos, ◌+ℤ◌, ◌-ℤ◌, sub64, add64, wrap64}
use gateway_controllers.Limiter.{Result, ok}
use gateway_controllers.Multi.{
  policy_key, restrict, allow_loop, allow_n, consume_or_clamp_n, get_available,
}
use gateway_controllers.Limiter.{Clocks, second}
use gateway_controllers.FixedWindow.{
  Policy, MemoryLimiter, window_start, window_end, current_count, store_count,
}
use gateway_controllers.FixedWindow
use gateway_controllers.FixedWindow.Counts.{IsWithin}
use gateway_controllers.FixedWindow.Interface.{fixed_window, fixed_window_laws}
use gateway_controllers.Multi.Allow.{
  all_left, AllGrant, allow_n_sound, allow_n_denies, allow_n_complete,
}
use gateway_controllers.Multi.Clamp.{clamps_left, all_allow, consume_or_clamp_n_together}
use gateway_controllers.Multi.Available.{AllOffer, SomeOffers, get_available_least}

abbrev window_of : ℕ → MemoryLimiter
window_of n = record { data_of = λ k. none; policy = record { limit = pos n; duration = second } }

abbrev start : ℕ → Clocks
start i = record { now = pos 0; wall = pos 0 }

window-IsWithin : (n : ℕ) → n < 2 ^ 62 → IsWithin (window_of n)
window-IsWithin n h = record {
  sane = record { long = omega arith; some_quota = omega arith; small = omega arith };
  counts = λ k e p. cc;
  lasting = λ k e p. cc;
}

abbrev three_two : List MemoryLimiter
three_two = window_of 3 ∷ window_of 2 ∷ []

allow_n_sound_example :
    AllGrant fixed_window start "k"
      (pos 2)
      (FixedWindow.allow_n (start 1) "k:p1" (pos 2) (window_of 2)).0.remaining
      0
      three_two
unfolding allow_n allow_loop restrict FixedWindow.allow_n current_count store_count ◌-ℤ◌ ◌+ℤ◌ sub64
    add64 wrap64 policy_key
allow_n_sound_example =
    allow_n_sound fixed_window start "k" (pos 2) three_two
      (FixedWindow.allow_n (start 1) "k:p1" (pos 2) (window_of 2)).0 refl refl

three_grants_three : AllGrant fixed_window start "k" (pos 3) (pos 0) 0 (window_of 3 ∷ [])
unfolding FixedWindow.allow_n current_count store_count ◌-ℤ◌ ◌+ℤ◌ sub64 add64 wrap64 policy_key
three_grants_three = ((_, refl, refl, omega arith), tt)

allow_n_denies_example : allow_n fixed_window start "k" (pos 3) three_two ≡ (
  ok (some (FixedWindow.allow_n (start 1) (policy_key "k" 1) (pos 3) (window_of 2)).0),
  all_left fixed_window start "k" (pos 3) 0 (window_of 3 ∷ [])
      ++ (FixedWindow.allow_n (start 1) (policy_key "k" 1) (pos 3) (window_of 2)).1 ∷ [],
)
unfolding FixedWindow.allow_n current_count store_count ◌-ℤ◌ ◌+ℤ◌ sub64 add64 wrap64
allow_n_denies_example =
    allow_n_denies fixed_window start "k" (pos 3) (pos 0) (window_of 3 ∷ []) (window_of 2) []
      (FixedWindow.allow_n (start 1) (policy_key "k" 1) (pos 3) (window_of 2)).0 three_grants_three
      refl refl

both_grant_two : AllGrant fixed_window start "k" (pos 2) (pos 0) 0 three_two
unfolding FixedWindow.allow_n current_count store_count ◌-ℤ◌ ◌+ℤ◌ sub64 add64 wrap64 policy_key
both_grant_two = ((_, refl, refl, omega arith), ((_, refl, refl, omega arith), tt))

allow_n_complete_run :
    (r : Result) × (r.allowed ≡ true)
    × (allow_n fixed_window start "k" (pos 2) three_two
        ≡ (ok (some r), all_left fixed_window start "k" (pos 2) 0 three_two))
allow_n_complete_run =
    allow_n_complete fixed_window start "k" (pos 2) (pos 0) (window_of 3) (window_of 2 ∷ [])
      both_grant_two

consume_or_clamp_n_together_run :
    (r : Result) × (consume_or_clamp_n fixed_window start "k" (pos 3) three_two ≡ (
      ok (some r),
      clamps_left fixed_window fixed_window_laws start "k" (pos 3) (omega arith) 0 three_two,
    ))
    × (r.allowed
        ≡ all_allow fixed_window fixed_window_laws start "k" (pos 3) (omega arith) 0 three_two)
consume_or_clamp_n_together_run =
    consume_or_clamp_n_together fixed_window fixed_window_laws start "k" (pos 3) (omega arith)
      (window_of 3) (window_of 2 ∷ [])
      (window-IsWithin 3 (omega arith), (window-IsWithin 2 (omega arith), tt))

both_offer : AllOffer fixed_window start "k" (pos 0) 0 three_two
unfolding FixedWindow.get_available current_count ◌-ℤ◌ ◌+ℤ◌ sub64 add64 wrap64 policy_key
both_offer = ((_, refl, omega arith, omega arith), ((_, refl, omega arith, omega arith), tt))

get_available_least_run :
    (a : ℤ) × (get_available fixed_window start "k" three_two ≡ ok a)
    × AllOffer fixed_window start "k" a 0 three_two
    × SomeOffers fixed_window start "k" a 0 three_two
get_available_least_run =
    get_available_least fixed_window start "k" (window_of 3) (window_of 2 ∷ []) both_offer
