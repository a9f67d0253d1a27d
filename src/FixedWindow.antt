-- ===== src/FixedWindow.antt =====
-- policies/advanced-ratelimit/algorithms/fixedwindow: the policy (policy.go) and the in-memory
-- limiter (memory.go). A method runs under the limiter's mutex, so a call is one step: it takes
-- the clocks and the state, and returns the result and the new state.
pub mod Counts
pub mod Quota
pub mod Clamp
pub mod Cleanup
pub mod Trace
pub mod Interface
pub mod Charge
use gateway_controllers.Prelude.{String, Bool, not, Option, none, some, ◌&&◌, ◌||◌, if◌then◌else◌}
use gateway_controllers.Prelude.Int.{ℤ, pos, le_ℤ, lt_ℤ, eq_ℤ, add64, sub64}
use gateway_controllers.Limiter.{
  Instant, Duration, Clocks, Result, Map, minute, time_add, truncate, clamp_zero, until, put,
  delete_where,
}

pub record Policy : Type 0 where
  pub limit : ℤ
  pub duration : Duration

-- Windows are aligned to Go's zero time.
unfoldable pub window_start : Policy → Instant → Instant
window_start p now = truncate now p.duration

unfoldable pub window_end : Policy → Instant → Instant
window_end p now = time_add (window_start p now) p.duration

pub record WindowEntry : Type 0 where
  pub count : ℤ
  pub start : Instant
  pub expiration : Instant

pub record MemoryLimiter : Type 0 where
  pub data_of : Map WindowEntry
  pub policy : Policy

-- The count of the running window: 0 without an entry, in a new window, or after the expiration.
abbrev entry_count : Instant → Instant → Option WindowEntry → ℤ
entry_count ws now none = pos 0
entry_count ws now (some e) =
    if not (eq_ℤ e.start ws) || lt_ℤ e.expiration now then pos 0 else e.count

unfoldable pub current_count : Clocks → String → MemoryLimiter → ℤ
current_count c key m = entry_count (window_start m.policy c.now) c.now (m.data_of key)

-- The entry is kept for a minute after its window ends.
unfoldable pub store_count : Clocks → String → ℤ → MemoryLimiter → MemoryLimiter
store_count c key count m = record m {
  data_of =
      put key
        (record {
          count = count;
          start = window_start m.policy c.now;
          expiration = time_add (window_end m.policy c.now) minute;
        })
        m.data_of;
}

abbrev bool_to_count : Bool → ℤ → ℤ
bool_to_count condition value = if condition then value else pos 0

abbrev retry : Bool → Clocks → MemoryLimiter → Duration
retry allowed c m = if allowed then pos 0 else until (window_end m.policy c.now) c.wall

-- AllowN; `Allow` is `allow_n` with n = 1.
unfoldable pub allow_n : Clocks → String → ℤ → MemoryLimiter → Result × MemoryLimiter
allow_n c key n m =
    let current = current_count c key m in
    let new_count = add64 current n in
    let allowed = le_ℤ new_count m.policy.limit in
    let left = if allowed then sub64 m.policy.limit new_count else sub64 m.policy.limit current in
    let charged = allowed && lt_ℤ (pos 0) n in
    (
      record {
        allowed = allowed;
        requested = n;
        consumed = bool_to_count charged n;
        overflow = bool_to_count (not allowed && lt_ℤ (pos 0) n) n;
        limit = m.policy.limit;
        remaining = clamp_zero left;
        reset = window_end m.policy c.now;
        retry_after = retry allowed c m;
        full_quota_at = pos 0;
        duration = m.policy.duration;
      },
      if charged then store_count c key new_count m else m,
    )

-- ConsumeOrClampN.
unfoldable pub consume_or_clamp_n : Clocks → String → ℤ → MemoryLimiter → Result × MemoryLimiter
consume_or_clamp_n c key requested m =
    let current = current_count c key m in
    let before = clamp_zero (sub64 m.policy.limit current) in
    let n = clamp_zero requested in
    let consumed = if lt_ℤ before n then before else n in
    let overflow = sub64 n consumed in
    let allowed = eq_ℤ overflow (pos 0) in
    let new_count = add64 current consumed in
    (
      record {
        allowed = allowed;
        requested = n;
        consumed = consumed;
        overflow = overflow;
        limit = m.policy.limit;
        remaining = clamp_zero (sub64 m.policy.limit new_count);
        reset = window_end m.policy c.now;
        retry_after = retry allowed c m;
        full_quota_at = pos 0;
        duration = m.policy.duration;
      },
      if lt_ℤ (pos 0) consumed then store_count c key new_count m else m,
    )

-- ConsumeN. The source leaves the requested, consumed and overflow fields at 0.
unfoldable pub consume_n : Clocks → String → ℤ → MemoryLimiter → Result × MemoryLimiter
consume_n c key n m =
    let new_count = add64 (current_count c key m) n in
    let allowed = le_ℤ new_count m.policy.limit in
    (
      record {
        allowed = allowed;
        requested = pos 0;
        consumed = pos 0;
        overflow = pos 0;
        limit = m.policy.limit;
        remaining = clamp_zero (sub64 m.policy.limit new_count);
        reset = window_end m.policy c.now;
        retry_after = retry allowed c m;
        full_quota_at = pos 0;
        duration = m.policy.duration;
      },
      if lt_ℤ (pos 0) n then store_count c key new_count m else m,
    )

unfoldable pub get_available : Clocks → String → MemoryLimiter → ℤ
get_available c key m = clamp_zero (sub64 m.policy.limit (current_count c key m))

-- removeExpired, run by the cleanup goroutine.
unfoldable pub remove_expired : Clocks → MemoryLimiter → MemoryLimiter
remove_expired c m = record m { data_of = delete_where (λ e. lt_ℤ e.expiration c.now) m.data_of }
