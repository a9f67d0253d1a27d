-- ===== src/Gcra/Fast.antt =====
-- The GCRA limiter where the limit is larger than the duration in nanoseconds.
use gateway_controllers.Prelude.{◌≡◌, refl, ap, String, ℕ, ◌<◌, arith, Option, none, some}
use gateway_controllers.Prelude.Int.{
  ℤ, pos, pos_part, neg_part, ◌*ℤ◌, ◌≤ℤ◌, +ℤ_parts, eq_of_parts, mul64, wrap64,
}
use native.Mathlib.Nat.{zero-div, div-zero, zero-mul, div-eq_of_lt}
use gateway_controllers.Limiter.{Instant, Duration, Result, Floats, clamp_zero, ok, Map}
use gateway_controllers.Gcra.{
  Policy, MemoryLimiter, TatEntry, emission_interval, calculate_remaining, load_tat, entry_tat,
}
use gateway_controllers.Gcra.{consume_at, consume_n, available_of, get_available, store_tat}
use gateway_controllers.Gcra.Remaining.{policy_of}
use text.Mathlib.TextPositions.{eq_refl}
use gateway_controllers.Gcra.Allow.{limiter_of}

no_interval : (l d b : ℕ) → d < l → emission_interval (policy_of l d b) ≡ ok (pos 0)
unfolding emission_interval wrap64
no_interval l d b h = ground (arith, div-eq_of_lt {n = d} {m = l} h, div-zero d, zero-div l)

free_token : (n : ℤ) → mul64 (pos 0) n ≡ pos 0
unfolding mul64 ◌*ℤ◌ wrap64
free_token n = ground (arith, zero-mul (pos_part n), zero-mul (neg_part n))

available_past :
    (fl : Floats) (p : Policy) (ei : Duration) (now : Instant) (o : Option TatEntry)
    → ((e : TatEntry) → o ≡ some e → e.tat ≤ℤ now)
    → available_of fl p ei now o ≡ p.burst
unfolding calculate_remaining
available_past fl p ei now none h = refl
available_past fl p ei now (some e) h = ground (arith, h e refl)

load_past :
    (now : Instant) (o : Option TatEntry)
    → ((e : TatEntry) → o ≡ some e → e.tat ≤ℤ now)
    → entry_tat now o ≡ now
load_past now none h = refl
load_past now (some e) h = ground (arith, h e refl, eq_of_parts e.tat now)

module _ (fl : Floats) (l d b : ℕ) (fast : d < l) (now : Instant) (key : String) (n : ℤ)
    (entries : Map TatEntry) (past : (e : TatEntry) → entries key ≡ some e → e.tat ≤ℤ now) where
  abbrev state : MemoryLimiter
  state = limiter_of l d b entries

  charged_past :
      (e : TatEntry) → (consume_at fl (pos 0) now key n state).1.data_of key ≡ some e → e.tat ≤ℤ now
  unfolding consume_at store_tat load_tat
  charged_past e =
      rw (load_past now (entries key) past, free_token (clamp_zero n))
        (λ p. ground (arith, eq_refl key, past e, +ℤ_parts now (pos 0)))

  policy-consume_at : (consume_at fl (pos 0) now key n state).1.policy ≡ policy_of l d b
  unfolding consume_at store_tat
  policy-consume_at = ground arith

  available_lem :
      (t : Instant) (m : MemoryLimiter)
      → m.policy ≡ policy_of l d b
      → ((e : TatEntry) → m.data_of key ≡ some e → e.tat ≤ℤ t)
      → get_available fl t key m ≡ ok (pos b)
  unfolding get_available
  available_lem t m p h =
      rw (p, no_interval l d b fast)
        (ap ok (available_past fl (policy_of l d b) (pos 0) t (m.data_of key) h))

  -- A policy with a limit above its duration in nanoseconds has an emission interval of 0. Where the
  -- arrival time of a key is not ahead of the clock, no charge of ConsumeN, of any size, is felt then:
  -- `GetAvailable` reports the whole burst before and after it.
  pub charge_unfelt :
      (later_on : Instant)
      → now ≤ℤ later_on
      → (r : Result) × (m' : MemoryLimiter) × (consume_n fl now key n state ≡ ok (r, m'))
        × (get_available fl later_on key state ≡ ok (pos b))
        × (get_available fl later_on key m' ≡ ok (pos b))
  charge_unfelt t h =
      let q = consume_at fl (pos 0) now key n state in
      (
        q.0,
        q.1,
        unfold consume_n in rw (no_interval l d b fast),
        available_lem t state refl (λ e p. omega (arith, past e p)),
        available_lem t q.1 policy-consume_at (λ e p. omega (arith, charged_past e p)),
      )
