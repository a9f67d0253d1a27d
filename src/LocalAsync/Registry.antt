-- ===== src/LocalAsync/Registry.antt =====
-- policies/advanced-ratelimit/algorithms/fixedwindow/flush_coordinator.go: the registration of
-- limiters, their shards and the base tick; and the defaults of redis_local_async.go. The
-- coordinator's mutex is held for the whole of each. An int of Go that only counts up or is a
-- number of workers is a natural number, and one that the configuration gives is an integer.
pub mod Ticks
use gateway_controllers.Prelude.{
  ◌≡◌, refl, ap, sym, ◌∙◌, subst, ℕ, suc, ◌+◌, ◌-◌, ◌%◌, ◌/◌, ◌≤◌, ◌<◌, List, [], ◌∷◌, Bool, true,
  false, if◌then◌else◌, leb, ltb, ◌==◌, arith, ◌⊎◌, inl, inr, Bool-cases,
}
use gateway_controllers.Prelude.Int.{ℤ, pos, pos_part, lt_ℤ, le_ℤ, eq_ℤ, ◌≤ℤ◌}
use gateway_controllers.Limiter.{Duration}

-- The intervals with the number of limiters that have each.
abbrev pub Intervals : Type 0
Intervals = List (Duration × ℕ)

pub record FlushCoordinator : Type 0 where
  pub intervals : Intervals
  pub next_shard : ℕ
  pub base_tick : Duration
  pub shards : ℕ

abbrev pub base_tick_min : Duration
base_tick_min = pos 10_000_000

abbrev pub base_tick_max : Duration
base_tick_max = pos 1_000_000_000

-- resolveFlushWorkers; `gomaxprocs` is what the runtime says.
unfoldable pub resolve_flush_workers : ℕ → ℤ → ℕ
resolve_flush_workers gomaxprocs configured =
    let w = gomaxprocs / 2 in
    let w' = if ltb w 1 then 1 else w in
    if lt_ℤ (pos 0) configured then pos_part configured else if ltb 8 w' then 8 else w'

-- newFlushCoordinator.
unfoldable pub new_flush_coordinator : ℕ → FlushCoordinator
new_flush_coordinator workers = record {
  intervals = [];
  next_shard = 0;
  base_tick = base_tick_max;
  shards = if ltb workers 1 then 1 else workers;
}

unfoldable pub count_of : Duration → Intervals → ℕ
count_of d [] = 0
count_of d ((e, n) ∷ m) = if eq_ℤ e d then n else count_of d m

unfoldable pub without : Duration → Intervals → Intervals
without d [] = []
without d ((e, n) ∷ m) = let rest = without d m in if eq_ℤ e d then rest else (e, n) ∷ rest

unfoldable pub lowest : Duration → Intervals → Duration
lowest mn [] = mn
lowest mn ((d, n) ∷ m) = lowest (if lt_ℤ d mn then d else mn) m

unfoldable pub recompute_base_tick : FlushCoordinator → FlushCoordinator
recompute_base_tick c =
    let mn = lowest base_tick_max c.intervals in
    let raised = if lt_ℤ mn base_tick_min then base_tick_min else mn in
    record c { base_tick = if lt_ℤ base_tick_max raised then base_tick_max else raised }

unfoldable pub register : Duration → FlushCoordinator → ℕ × FlushCoordinator
register d c =
    let counted =
      recompute_base_tick
        (record c { intervals = (d, suc (count_of d c.intervals)) ∷ without d c.intervals }) in
    if c.shards == 1
    then (0, counted)
    else (c.next_shard % c.shards, record counted { next_shard = suc c.next_shard })

-- The part of deregister under the coordinator's mutex.
unfoldable pub deregister : Duration → FlushCoordinator → FlushCoordinator
deregister d c =
    let n = count_of d c.intervals in
    let rest = without d c.intervals in
    recompute_base_tick (record c { intervals = if leb n 1 then rest else (d, n - 1) ∷ rest })
