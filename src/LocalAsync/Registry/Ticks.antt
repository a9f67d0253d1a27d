-- ===== src/LocalAsync/Registry/Ticks.antt =====
-- The base tick and the shard of a limiter that is registered.
use gateway_controllers.Prelude.{
  ◌≡◌, refl, ℕ, suc, ◌<◌, [], ◌∷◌, false, if◌then◌else◌, ◌==◌, arith, ◌⊎◌, inl, inr, Bool-cases,
}
use gateway_controllers.Prelude.Int.{lt_ℤ, eq_ℤ, ◌≤ℤ◌}
use gateway_controllers.Limiter.{Duration}
use gateway_controllers.LocalAsync.Registry.{
  Intervals, FlushCoordinator, base_tick_min, base_tick_max, count_of, without, lowest,
  recompute_base_tick, register,
}

lowest_le : (mn : Duration) (m : Intervals) → lowest mn m ≤ℤ mn
unfolding lowest
lowest_le mn [] = omega arith
lowest_le mn ((d, n) ∷ m) = ground (arith, lowest_le (if lt_ℤ d mn then d else mn) m)

-- The least interval is no longer than one that is counted.
lowest-le-counted : (mn d : Duration) (m : Intervals) → 0 < count_of d m → lowest mn m ≤ℤ d
unfolding lowest count_of
lowest-le-counted mn d [] h = absurd (omega arith)
lowest-le-counted mn d ((e, n) ∷ m) h = ground (
  arith,
  lowest_le (if lt_ℤ e mn then e else mn) m,
  lowest-le-counted (if lt_ℤ e mn then e else mn) d m,
)

abbrev clamped : Duration → Duration
clamped mn =
    let raised = if lt_ℤ mn base_tick_min then base_tick_min else mn in
    if lt_ℤ base_tick_max raised then base_tick_max else raised

clamped_bounds : (mn : Duration) → (base_tick_min ≤ℤ clamped mn) × (clamped mn ≤ℤ base_tick_max)
clamped_bounds mn = elim (Bool-cases (lt_ℤ mn base_tick_min)) [
  | inl low ↦ ground (arith, low)
  | inr high ↦ ground (arith, high)
]

clamped-le :
    (mn d : Duration)
    → mn ≤ℤ d
    → mn ≤ℤ base_tick_max
    → (clamped mn ≤ℤ d) ⊎ (clamped mn ≡ base_tick_min)
clamped-le mn d h l = elim (Bool-cases (lt_ℤ mn base_tick_min)) [
  | inl low ↦ inr (ground (arith, low))
  | inr high ↦ inl (ground (arith, high))
]

-- What a tick is, where an interval is counted.
abbrev pub Serves : Duration → Duration → Type 0
Serves d tick =
    (base_tick_min ≤ℤ tick) × (tick ≤ℤ base_tick_max) × ((tick ≤ℤ d) ⊎ (tick ≡ base_tick_min))

tick-Serves :
    (c : FlushCoordinator) (d : Duration)
    → 0 < count_of d c.intervals
    → Serves d (recompute_base_tick c).base_tick
unfolding recompute_base_tick
tick-Serves c d h =
    let mn = lowest base_tick_max c.intervals in
    let (low, high) = clamped_bounds mn in
    (
      low,
      high,
      clamped-le mn d (lowest-le-counted base_tick_max d c.intervals h)
          (lowest_le base_tick_max c.intervals),
    )

counted : (d : Duration) (n : ℕ) (m : Intervals) → 0 < count_of d ((d, suc n) ∷ m)
unfolding count_of
counted d n m = ground arith

count-without :
    (d e : Duration) (m : Intervals) → (eq_ℤ d e) ≡ false → count_of d (without e m) ≡ count_of d m
unfolding count_of without
count-without d e [] h = refl
count-without d e ((a, n) ∷ m) h = ground (arith, count-without d e m)

-- The coordinator after the interval is counted.
abbrev with_interval : Duration → FlushCoordinator → FlushCoordinator
with_interval d c = record c {
  intervals = (d, suc (count_of d c.intervals)) ∷ without d c.intervals;
}

still_counted :
    (d e : Duration) (c : FlushCoordinator)
    → 0 < count_of e c.intervals
    → 0 < count_of e (with_interval d c).intervals
unfolding count_of
still_counted d e c h = elim (Bool-cases (eq_ℤ d e)) [
  | inl same ↦ ground (arith, same)
  | inr differs ↦ ground (arith, count-without e d c.intervals)
]

register_tick :
    (d : Duration) (c : FlushCoordinator)
    → (register d c).1.base_tick ≡ (recompute_base_tick (with_interval d c)).base_tick
unfolding register
register_tick d c = elim (Bool-cases (c.shards == 1)) [
  | inl one ↦ ground (arith, one)
  | inr more ↦ ground (arith, more)
]

register_shard : (d : Duration) (c : FlushCoordinator) → 0 < c.shards → (register d c).0 < c.shards
unfolding register
register_shard d c h = elim (Bool-cases (c.shards == 1)) [
  | inl one ↦ ground (arith, one)
  | inr more ↦ rw (more, register) (grind arith)
]

-- After a limiter with the interval d is registered, its shard is one of the coordinator's, the
-- base tick lies between 10 ms and 1 s, and it is no longer than d, unless it is 10 ms; and the
-- same of the tick and an interval e that has been counted before.
pub register-Serves :
    (d e : Duration) (c : FlushCoordinator)
    → 0 < c.shards
    → 0 < count_of e c.intervals
    → ((register d c).0 < c.shards)
      × Serves d (register d c).1.base_tick
      × Serves e (register d c).1.base_tick
register-Serves d e c some_shard h =
    let tick = register_tick d c in
    (
      register_shard d c some_shard,
      rw tick (tick-Serves (with_interval d c) d (counted d (count_of d c.intervals) _)),
      rw tick (tick-Serves (with_interval d c) e (still_counted d e c h)),
    )
