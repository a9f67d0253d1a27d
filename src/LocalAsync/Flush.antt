-- ===== src/LocalAsync/Flush.antt =====
-- policies/advanced-ratelimit/algorithms/fixedwindow/redis_local_async.go: what a flush does to a
-- stripe under its lock, which is the snapshot before and the results after the pipeline.
use gateway_controllers.Prelude.{
  ℕ, ◌-◌, ◌*◌, List, [], ◌∷◌, ◌++◌, String, Bool, true, false, not, ◌||◌, Option, none, some, ltb,
  ◌==◌, if◌then◌else◌, length, take, drop,
}
use gateway_controllers.Prelude.Int.{ℤ, pos, le_ℤ, eq_ℤ, sub64}
use gateway_controllers.Prelude.Table.{Table, get, put}
use gateway_controllers.Limiter.{Instant, clamp_zero}
use gateway_controllers.LocalAsync.{Config, LocalState, PendingFlush, Stripe, mark, evict_expired}

-- A snapshot of a stripe: the entries taken, the budget that is left, and whether work is left.
pub record Snapshot : Type 0 where
  pub batch : List PendingFlush
  pub budget : ℕ
  pub more : Bool

-- The loop over the dirty keys: also the keys that are not reached.
unfoldable pub snapshot_dirty : Table LocalState → List String → Snapshot → Snapshot × List String
snapshot_dirty states [] t = (t, [])
snapshot_dirty states (key ∷ ks) t =
    if t.budget == 0 then (record t { more = true }, key ∷ ks) else elim (get states key) [
      | none ↦ snapshot_dirty states ks t
      | some st ↦
          let taken : PendingFlush = record {
            key = key;
            flush_n = st.local_delta;
            ws = st.window_start;
            evicted = false;
          } in
          let next : Snapshot = record t {
            batch = t.batch ++ (taken ∷ []);
            budget = t.budget - 1;
          } in
          snapshot_dirty states ks (if eq_ℤ st.local_delta (pos 0) then t else next)
    ]

unfoldable pub snapshot_stripe : Config → Instant → Stripe → Snapshot → Snapshot × Stripe
snapshot_stripe cfg now s t =
    let n = length s.evicted_pending in
    let count = if ltb t.budget n then t.budget else n in
    let owed = drop count s.evicted_pending in
    let drained : Snapshot = record {
      batch = t.batch ++ take count s.evicted_pending;
      budget = t.budget - count;
      more = if length owed == 0 then t.more else true;
    } in
    let (t', left) = snapshot_dirty s.states s.dirty drained in
    (t', evict_expired cfg now (record s { dirty = left; evicted_pending = owed }))

-- One round of applyResultsLocked: whether work is left, and the stripe. `none` is an error.
unfoldable pub apply_result : Config → PendingFlush → Option ℤ → Stripe → Bool × Stripe
apply_result cfg p none s = (
  true,
  if p.evicted
      then (if ltb (length s.evicted_pending) (2 * cfg.stripe_cap)
          then record s { evicted_pending = s.evicted_pending ++ (p ∷ []) }
          else s)
      else elim (get s.states p.key) [
        | none ↦ s
        | some st ↦ if eq_ℤ st.window_start p.ws then record s { dirty = mark p.key s.dirty } else s
      ],
)
apply_result cfg p (some new_global) s = elim (get s.states p.key) [
  | none ↦ (false, s)
  | some st ↦
      let left =
        if p.evicted then st.local_delta else clamp_zero (sub64 st.local_delta p.flush_n) in
      let st' = record st {
        global_base = new_global;
        local_delta = left;
        blocked = st.blocked || le_ℤ cfg.policy.limit new_global;
      } in
      let written = record s { states = put p.key st' s.states } in
      if not (eq_ℤ st.window_start p.ws)
      then (false, s)
      else if eq_ℤ left (pos 0)
      then (false, written)
      else (true, record written { dirty = mark p.key s.dirty })
]
