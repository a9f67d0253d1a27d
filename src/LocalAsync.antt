-- ===== src/LocalAsync.antt =====
-- policies/advanced-ratelimit/algorithms/fixedwindow/redis_local_async.go: a stripe of the limiter
-- that decides locally and flushes to Redis, as it is changed under its lock. The steps of calls
-- and of the coordinator's worker are in LocalAsync/Coordinator. A Redis key is a function of the
-- key and the window of an entry, and is left out.
pub mod Flush
pub mod Coordinator
pub mod Registry
pub mod Estimate
use text.Mathlib.Text.{◌==◌ as str_eq}
use gateway_controllers.Prelude.{
  ℕ, suc, ◌+◌, ◌-◌, ◌*◌, List, [], ◌∷◌, ◌++◌, String, Bool, true, false, not, ◌&&◌, ◌||◌, Option,
  none, some, ltb, leb, ◌==◌, if◌then◌else◌, length, take, drop,
}
use gateway_controllers.Prelude.Int.{ℤ, pos, le_ℤ, lt_ℤ, eq_ℤ, add64, sub64}
use gateway_controllers.Prelude.Table.{Table, get, put, delete}
use gateway_controllers.Limiter.{
  Instant, Duration, Clocks, Result, minute, time_add, clamp_zero, until,
}
use gateway_controllers.FixedWindow.{Policy, window_start, window_end}

-- LocalAsyncConfig with its defaults filled in, the policy, and the hash of stripeFor.
pub record Config : Type 0 where
  pub policy : Policy
  pub sync_interval : Duration
  pub fail_open : Bool
  pub max_pipeline_commands : ℕ
  pub stripe_cap : ℕ
  pub hash : String → ℕ

pub record LocalState : Type 0 where
  pub window_start : Instant
  pub global_base : ℤ
  pub local_delta : ℤ
  pub blocked : Bool

pub record PendingFlush : Type 0 where
  pub key : String
  pub flush_n : ℤ
  pub ws : Instant
  pub evicted : Bool

pub record Stripe : Type 0 where
  pub states : Table LocalState
  pub dirty : List String
  pub evicted_pending : List PendingFlush

-- delete(dirty, key)
unfoldable pub unmark : String → List String → List String
unmark key [] = []
unmark key (k ∷ ks) = let rest = unmark key ks in if str_eq k key then rest else k ∷ rest

-- dirty[key] = struct{}{}
unfoldable pub mark : String → List String → List String
mark key dirty = key ∷ unmark key dirty

unfoldable pub forget : String → Stripe → Stripe
forget key s = record s { states = delete key s.states; dirty = unmark key s.dirty }

-- The loop of evictExpiredLocked.
unfoldable pub evict_expired_loop : Config → Instant → Table LocalState → Stripe → Stripe
evict_expired_loop cfg now [] s = s
evict_expired_loop cfg now ((key, st) ∷ m) s = evict_expired_loop cfg now m (
    if eq_ℤ st.local_delta (pos 0)
      && lt_ℤ (time_add (time_add st.window_start cfg.policy.duration) minute) now
    then forget key s
    else s)

unfoldable pub evict_expired : Config → Instant → Stripe → Stripe
evict_expired cfg now s = evict_expired_loop cfg now s.states s

unfoldable pub evict : Config → String → LocalState → Stripe → Stripe
evict cfg key st s =
    let owed : PendingFlush = record {
      key = key;
      flush_n = st.local_delta;
      ws = st.window_start;
      evicted = true;
    } in
    let carried =
      if lt_ℤ (pos 0) st.local_delta
      then (if ltb (length s.evicted_pending) (2 * cfg.stripe_cap)
          then record s { evicted_pending = s.evicted_pending ++ (owed ∷ []) }
          else s)
      else s in
    forget key carried

-- The scan for a victim: the first entry that is flushed among the first eight, or else the first.
unfoldable pub victim :
    Table LocalState → ℕ → String → Option LocalState → String × Option LocalState
victim [] scanned vk vst = (vk, vst)
victim ((key, st) ∷ m) scanned vk vst =
    let first = str_eq vk "" in
    let vk' = if first then key else vk in
    let vst' = if first then some st else vst in
    let rest = victim m (suc scanned) vk' vst' in
    if eq_ℤ st.local_delta (pos 0)
    then (key, some st)
    else if leb 8 (suc scanned)
    then (vk', vst')
    else rest

unfoldable pub evict_victim : Config → String × Option LocalState → Stripe → Stripe
evict_victim cfg (vk, none) s = s
evict_victim cfg (vk, some st) s = if str_eq vk "" then s else evict cfg vk st s

unfoldable pub ensure_capacity : Config → Instant → Stripe → Stripe
ensure_capacity cfg now s =
    let swept = evict_expired cfg now s in
    if ltb (length s.states) cfg.stripe_cap
    then s
    else if ltb (length swept.states) cfg.stripe_cap
    then swept
    else evict_victim cfg (victim swept.states 0 "" none) swept

-- What AllowN has when it gives the stripe's lock back.
pub record Decision : Type 0 where
  pub allowed : Bool
  pub remaining : ℤ
  pub need_enqueue : Bool
  pub stripe : Stripe

abbrev pub fresh_state : Instant → LocalState
fresh_state ws = record {
  window_start = ws;
  global_base = pos 0;
  local_delta = pos 0;
  blocked = false;
}

-- The state of the key in the running window: a new one where there is none, or one of another
-- window.
unfoldable pub current_state : Config → Instant → String → Stripe → LocalState × Stripe
current_state cfg now key s =
    let ws = window_start cfg.policy now in
    elim (get s.states key) [
      | none ↦
          let room = ensure_capacity cfg now s in
          (fresh_state ws, record room { states = put key (fresh_state ws) room.states })
      | some st ↦
          if eq_ℤ st.window_start ws
          then (st, s)
          else (fresh_state ws, record s { states = put key (fresh_state ws) s.states })
    ]

unfoldable pub remaining_of : ℤ → LocalState → ℤ
remaining_of limit st = clamp_zero (sub64 limit (add64 st.global_base st.local_delta))

-- The switch of AllowN.
unfoldable pub decide : Config → Bool → String → ℤ → LocalState → Stripe → Decision
decide cfg redis_down key n st s =
    let limit = cfg.policy.limit in
    let owes = not (length s.evicted_pending == 0) in
    let shut = record st { blocked = true } in
    let counted = record st { local_delta = add64 st.local_delta n } in
    let written = record s { states = put key counted s.states } in
    if st.blocked
    then record {
      allowed = false;
      remaining = remaining_of limit st;
      need_enqueue = owes;
      stripe = s;
    }
    else if not cfg.fail_open && redis_down
    then record {
      allowed = false;
      remaining = remaining_of limit st;
      need_enqueue = true;
      stripe = s;
    }
    else if lt_ℤ limit (add64 (add64 st.global_base st.local_delta) n)
    then record {
      allowed = false;
      remaining = remaining_of limit shut;
      need_enqueue = owes;
      stripe = record s { states = put key shut s.states };
    }
    else if lt_ℤ (pos 0) n
    then record {
      allowed = true;
      remaining = remaining_of limit counted;
      need_enqueue = true;
      stripe = record written { dirty = mark key s.dirty };
    }
    else record {
      allowed = true;
      remaining = remaining_of limit counted;
      need_enqueue = owes;
      stripe = written;
    }

-- AllowN under the lock; a negative n counts as 0.
unfoldable pub allow_stripe : Config → Bool → Instant → String → ℤ → Stripe → Decision
allow_stripe cfg redis_down now key n s =
    let (st, s') = current_state cfg now key s in decide cfg redis_down key (clamp_zero n) st s'

-- The result that AllowN makes of a decision.
unfoldable pub result_of : Config → Clocks → ℤ → Decision → Result
result_of cfg c n d =
    let n' = clamp_zero n in
    let reset = window_end cfg.policy c.now in
    let some_n = lt_ℤ (pos 0) n' in
    record {
      allowed = d.allowed;
      requested = n';
      consumed = if d.allowed && some_n then n' else pos 0;
      overflow = if not d.allowed && some_n then n' else pos 0;
      limit = cfg.policy.limit;
      remaining = d.remaining;
      reset = reset;
      retry_after = if d.allowed then pos 0 else until reset c.wall;
      full_quota_at = pos 0;
      duration = cfg.policy.duration;
    }
