-- ===== src/Gcra/Allow.antt =====
-- AllowN and GetAvailable of the GCRA limiter, in tokens and in nanoseconds of backlog.
use gateway_controllers.Prelude.{
  ◌≡◌, String, true, false, ℕ, ◌+◌, ◌*◌, ◌/◌, ◌-◌, ◌≤◌, ◌<◌, ◌^◌, arith, if◌then◌else◌, Option,
  none, some, ltb,
}
use gateway_controllers.Prelude.Int.{
  pos, pos_part, ◌+ℤ◌, ◌-ℤ◌, ◌≤ℤ◌, lt_ℤ, int_laws, +ℤ_parts, -ℤ_parts, eq_of_parts, add64, sub64,
  mul64, sub64_parts, add64-pos, mul64-pos, parts_apart,
}
use gateway_controllers.Prelude.Division.{
  ceil_div, ceil_div-add_mul, le-ceil_div_mul, lt-ceil_div, mul_mono,
}
use native.Mathlib.Nat.{mul_comm, add-mul}
use gateway_controllers.Limiter.{Instant, time_add, Floats, Map}
use gateway_controllers.Gcra.{MemoryLimiter, TatEntry, load_tat, entry_tat}
use gateway_controllers.Gcra.{allow_n_at, store_tat, negated, later}
use gateway_controllers.Gcra.Remaining.{
  policy_of, IsSane, interval_pos, allowance, allowance_lem, burst_allowance_lem,
  calculate_remaining-ahead,
}
use text.Mathlib.Text.{◌==◌ as str_eq}

abbrev pub limiter_of : ℕ → ℕ → ℕ → Map TatEntry → MemoryLimiter
limiter_of l d b entries = record { data_of = entries; policy = policy_of l d b }

-- How far a key is ahead of the clock.
unfoldable pub backlog : Instant → String → MemoryLimiter → ℕ
backlog now key m = pos_part (load_tat now key m -ℤ now)

entry_tat_ahead : (now : Instant) (o : Option TatEntry) → now ≤ℤ entry_tat now o
entry_tat_ahead now none = omega arith
entry_tat_ahead now (some e) = ground arith

pub load_tat-ahead :
    (now : Instant) (key : String) (m : MemoryLimiter)
    → load_tat now key m ≡ now +ℤ pos (backlog now key m)
unfolding backlog load_tat
load_tat-ahead now key m = eq_of_parts _ _ (
    ground (
      arith,
      entry_tat_ahead now (m.data_of key),
      -ℤ_parts (entry_tat now (m.data_of key)) now,
      parts_apart (entry_tat now (m.data_of key) -ℤ now),
      +ℤ_parts now (pos (pos_part (entry_tat now (m.data_of key) -ℤ now))),
    ))

module _ (fl : Floats) (l d b : ℕ) (sane : IsSane l d b) (now : Instant) (key : String) where
  -- The tokens that are left at a backlog.
  abbrev pub spare : MemoryLimiter → ℕ
  spare m = b - ceil_div (backlog now key m) (d / l)

  allow_at_test :
      (x : ℕ)
      → x < 2 ^ 62
      → lt_ℤ now (time_add (now +ℤ pos x) (negated (pos (allowance l d b sane))))
        ≡ ltb (allowance l d b sane) x
  allow_at_test x h = ground (
    arith,
    allowance_lem l d b sane,
    sane.short,
    sub64_parts (pos 0) (pos (allowance l d b sane)),
    +ℤ_parts now (pos x),
    +ℤ_parts (now +ℤ pos x) (sub64 (pos 0) (pos (allowance l d b sane))),
  )

  module _ (n : ℕ) (entries : Map TatEntry) (asked : 0 < n)
      (near : backlog now key (limiter_of l d b entries) < 2 ^ 62) where
    abbrev pub state : MemoryLimiter
    state = limiter_of l d b entries

    abbrev pub ahead : ℕ
    ahead = backlog now key state

    -- The arrival time after `n` more tokens, and when its entry may be dropped.
    abbrev pub advanced : MemoryLimiter
    advanced =
        store_tat (now +ℤ pos (ahead + n * (d / l))) (now +ℤ pos (d + allowance l d b sane)) key
          state

    within : n ≤ spare state → ahead ≤ allowance l d b sane
    within fits = ground (arith, lt-ceil_div ahead (d / l) (b - 1) (interval_pos l d b sane))

    pub cost_bound : n ≤ spare state → ahead + n * (d / l) ≤ b * (d / l)
    cost_bound fits = omega (
      arith,
      le-ceil_div_mul ahead (d / l) 0 (interval_pos l d b sane),
      add-mul (ceil_div ahead (d / l)) n (d / l),
      mul_mono (ceil_div ahead (d / l) + n) b (d / l) (omega arith),
    )

    new_tat_lem :
        n ≤ spare state
        → now +ℤ pos ahead +ℤ mul64 (pos (d / l)) (pos n) ≡ now +ℤ pos (ahead + n * (d / l))
    new_tat_lem fits =
        rw
          (
            mul64-pos (d / l) n (omega (arith, sane.short, cost_bound fits, mul_comm n (d / l))),
            mul_comm (d / l) n,
          )
          (eq_of_parts _ _ (omega int_laws))

    expiration_lem : add64 (pos d) (pos (allowance l d b sane)) ≡ pos (d + allowance l d b sane)
    expiration_lem =
        add64-pos d _ (omega (arith, sane.short, sane.bounded, allowance_lem l d b sane))

    pub granted :
        n ≤ spare state
        → let q = allow_n_at fl (pos (d / l)) now key (pos n) state in
          (q.0.allowed ≡ true) × (q.0.remaining ≡ pos (spare state - n)) × (q.1 ≡ advanced)
    unfolding allow_n_at
    granted fits =
        rw
          (
            load_tat-ahead now key state,
            burst_allowance_lem l d b sane,
            allow_at_test ahead near,
            calculate_remaining-ahead fl l d b sane now ahead near,
            new_tat_lem fits,
            expiration_lem,
            calculate_remaining-ahead fl l d b sane now (ahead + n * (d / l))
                (omega (arith, sane.short, cost_bound fits)),
          )
          (ground (arith, within fits, ceil_div-add_mul ahead (d / l) n (interval_pos l d b sane)))

    pub refused :
        spare state < n
        → let q = allow_n_at fl (pos (d / l)) now key (pos n) state in
          (q.0.allowed ≡ false) × (q.0.remaining ≡ pos (spare state)) × (q.1 ≡ state)
    unfolding allow_n_at
    refused over =
        rw
          (
            load_tat-ahead now key state,
            burst_allowance_lem l d b sane,
            allow_at_test ahead near,
            calculate_remaining-ahead fl l d b sane now ahead near,
          )
          (ground arith)

-- What a store leaves to a later call: the arrival time that was stored, or now if that is over.
pub load_tat-store_tat :
    (now tat expiration : Instant) (key j : String) (m : MemoryLimiter)
    → tat ≤ℤ expiration
    → load_tat now j (store_tat tat expiration key m)
      ≡ (if str_eq key j then later tat now else load_tat now j m)
unfolding load_tat store_tat
load_tat-store_tat now tat expiration key j m h = ground arith
