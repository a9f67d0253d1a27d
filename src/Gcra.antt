-- ===== src/Gcra.antt =====
-- policies/advanced-ratelimit/algorithms/gcra: the policy (policy.go) and the in-memory limiter
-- (memory.go) of the Generic Cell Rate Algorithm. A method runs under the limiter's mutex, so a
-- call is one step: it takes the instant that the clock gives and the state, and returns the
-- result and the new state. A limit of 0 makes Go panic at the division of `EmissionInterval`.
pub mod Remaining
pub mod Allow
pub mod Available
pub mod Fast
pub mod Rate
pub mod Trace
use gateway_controllers.Prelude.{
  ◌+◌, ◌/◌, String, false, true, not, Option, none, some, ◌&&◌, ◌||◌, if◌then◌else◌,
}
use gateway_controllers.Prelude.Int.{
  ℤ, pos, pos_part, neg_part, sub_ℕ, le_ℤ, lt_ℤ, eq_ℤ, add64, sub64, mul64, wrap64,
}
use gateway_controllers.Limiter.{
  Instant, Duration, Floats, Result, Map, Outcome, ok, panic, ◌>>=◌, time_add, time_sub, clamp_zero,
  put, delete_where,
}

pub record Policy : Type 0 where
  pub limit : ℤ
  pub duration : Duration
  pub burst : ℤ

-- Go's `a / b` on int64 with b ≠ 0: the quotient rounded towards 0. Of -2 ^ 63 / -1 it is wrapped.
abbrev quotient : ℤ → ℤ → ℤ
quotient a b = wrap64 (
    sub_ℕ (pos_part a / pos_part b + neg_part a / neg_part b)
      (pos_part a / neg_part b + neg_part a / pos_part b))

unfoldable pub emission_interval : Policy → Outcome Duration
emission_interval p = if eq_ℤ p.limit (pos 0) then panic else ok (quotient p.duration p.limit)

unfoldable pub burst_allowance : Policy → Duration → Duration
burst_allowance p ei = if le_ℤ p.burst (pos 1) then pos 0 else mul64 ei (sub64 p.burst (pos 1))

-- The theoretical arrival time of a key, and when its entry may be dropped.
pub record TatEntry : Type 0 where
  pub tat : Instant
  pub expiration : Instant

pub record MemoryLimiter : Type 0 where
  pub data_of : Map TatEntry
  pub policy : Policy

-- The arrival time that a call starts from: the stored one while the entry is alive and it lies
-- ahead, else now.
abbrev entry_tat : Instant → Option TatEntry → Instant
entry_tat now none = now
entry_tat now (some e) =
    if lt_ℤ now e.expiration then (if lt_ℤ e.tat now then now else e.tat) else now

unfoldable pub load_tat : Instant → String → MemoryLimiter → Instant
load_tat now key m = entry_tat now (m.data_of key)

unfoldable pub store_tat : Instant → Instant → String → MemoryLimiter → MemoryLimiter
store_tat tat expiration key m = record m {
  data_of = put key (record { tat = tat; expiration = expiration }) m.data_of;
}

-- `-d` on int64.
abbrev negated : Duration → Duration
negated d = sub64 (pos 0) d

abbrev later : Instant → Instant → Instant
later a b = if lt_ℤ a b then b else a

module _ (fl : Floats) where
  unfoldable pub calculate_remaining : Policy → Instant → Instant → Duration → Duration → ℤ
  calculate_remaining p tat now ei ba =
      if le_ℤ tat now
      then p.burst
      else let used = time_sub tat now in
        if lt_ℤ ba used then pos 0 else clamp_zero (sub64 p.burst (fl.ceil_ratio used ei))

  -- AllowN behind the division of `EmissionInterval`.
  unfoldable pub allow_n_at :
      Duration → Instant → String → ℤ → MemoryLimiter → Result × MemoryLimiter
  allow_n_at ei now key n m =
      let p = m.policy in
      let ba = burst_allowance p ei in
      let tat = load_tat now key m in
      let allow_at = time_add tat (negated ba) in
      let before = calculate_remaining p tat now ei ba in
      let new_tat = time_add tat (mul64 ei n) in
      let expiration = time_add now (add64 p.duration ba) in
      if lt_ℤ now allow_at
      then (
        record {
          allowed = false;
          requested = pos 0;
          consumed = pos 0;
          overflow = pos 0;
          limit = p.limit;
          remaining = before;
          reset = tat;
          retry_after = time_sub allow_at now;
          full_quota_at = later tat now;
          duration = p.duration;
        },
        m,
      )
      else if lt_ℤ before n
      then (
        record {
          allowed = false;
          requested = pos 0;
          consumed = pos 0;
          overflow = pos 0;
          limit = p.limit;
          remaining = before;
          reset = tat;
          retry_after = pos 0;
          full_quota_at = later tat now;
          duration = p.duration;
        },
        m,
      )
      else (
        record {
          allowed = true;
          requested = pos 0;
          consumed = pos 0;
          overflow = pos 0;
          limit = p.limit;
          remaining = calculate_remaining p new_tat now ei ba;
          reset = new_tat;
          retry_after = pos 0;
          full_quota_at = later new_tat now;
          duration = p.duration;
        },
        if lt_ℤ (pos 0) n then store_tat new_tat expiration key m else m,
      )

  -- AllowN; `Allow` is `allow_n` with n = 1.
  unfoldable pub allow_n : Instant → String → ℤ → MemoryLimiter → Outcome (Result × MemoryLimiter)
  allow_n now key n m = emission_interval m.policy >>= λ ei. ok (allow_n_at ei now key n m)

  -- ConsumeOrClampN behind the division of `EmissionInterval`.
  unfoldable pub clamp_at : Duration → Instant → String → ℤ → MemoryLimiter → Result × MemoryLimiter
  clamp_at ei now key requested m =
      let p = m.policy in
      let n = clamp_zero requested in
      let ba = burst_allowance p ei in
      let tat = load_tat now key m in
      let before = calculate_remaining p tat now ei ba in
      let wanted = if lt_ℤ now (time_add tat (negated ba)) then pos 0 else n in
      let consumed = if lt_ℤ before wanted then before else wanted in
      let overflow = sub64 n consumed in
      let allowed = eq_ℤ overflow (pos 0) in
      let new_tat = time_add tat (mul64 ei consumed) in
      let next_allow_at = time_add new_tat (negated ba) in
      (
        record {
          allowed = allowed;
          requested = n;
          consumed = consumed;
          overflow = overflow;
          limit = p.limit;
          remaining = calculate_remaining p new_tat now ei ba;
          reset = new_tat;
          retry_after =
              if not allowed && lt_ℤ now next_allow_at then time_sub next_allow_at now else pos 0;
          full_quota_at = later new_tat now;
          duration = p.duration;
        },
        if lt_ℤ (pos 0) consumed
            then store_tat new_tat (time_add now (add64 p.duration ba)) key m
            else m,
      )

  unfoldable pub consume_or_clamp_n :
      Instant → String → ℤ → MemoryLimiter → Outcome (Result × MemoryLimiter)
  consume_or_clamp_n now key n m = emission_interval m.policy >>= λ ei. ok (clamp_at ei now key n m)

  -- ConsumeN behind the division of `EmissionInterval`. The entry is kept until the forced debt
  -- is worked off, where that is longer than the usual time.
  unfoldable pub consume_at :
      Duration → Instant → String → ℤ → MemoryLimiter → Result × MemoryLimiter
  consume_at ei now key requested m =
      let p = m.policy in
      let n = clamp_zero requested in
      let ba = burst_allowance p ei in
      let tat = load_tat now key m in
      let new_tat = time_add tat (mul64 ei n) in
      let base = add64 p.duration ba in
      let debt = time_sub new_tat now in
      let before = calculate_remaining p tat now ei ba in
      let allowed = not (lt_ℤ now (time_add tat (negated ba))) && le_ℤ n before in
      (
        record {
          allowed = allowed;
          requested = n;
          consumed = n;
          overflow = if lt_ℤ before n then sub64 n before else pos 0;
          limit = p.limit;
          remaining = calculate_remaining p new_tat now ei ba;
          reset = new_tat;
          retry_after =
              if allowed then pos 0 else clamp_zero (time_sub (time_add new_tat (negated ba)) now);
          full_quota_at = later new_tat now;
          duration = p.duration;
        },
        if lt_ℤ (pos 0) n
            then store_tat new_tat (time_add now (if lt_ℤ base debt then debt else base)) key m
            else m,
      )

  unfoldable pub consume_n : Instant → String → ℤ → MemoryLimiter → Outcome (Result × MemoryLimiter)
  consume_n now key n m = emission_interval m.policy >>= λ ei. ok (consume_at ei now key n m)

  abbrev available_of : Policy → Duration → Instant → Option TatEntry → ℤ
  available_of p ei now none = p.burst
  available_of p ei now (some e) =
      if lt_ℤ e.expiration now
      then p.burst
      else calculate_remaining p e.tat now ei (burst_allowance p ei)

  -- GetAvailable.
  unfoldable pub get_available : Instant → String → MemoryLimiter → Outcome ℤ
  get_available now key m =
      emission_interval m.policy >>= λ ei. ok (available_of m.policy ei now (m.data_of key))

-- removeExpired, run by the cleanup goroutine.
unfoldable pub remove_expired : Instant → MemoryLimiter → MemoryLimiter
remove_expired now m = record m { data_of = delete_where (λ e. lt_ℤ e.expiration now) m.data_of }
