-- ===== src/LocalAsync/Coordinator/Stripes.antt =====
-- When an operation on a stripe leaves work for the next flush.
use gateway_controllers.Prelude.{
  ◌≡◌, refl, ℕ, ◌+◌, ◌-◌, ◌≤◌, List, [], ◌∷◌, ◌++◌, String, Bool, true, false, Option, none, some,
  ltb, ◌==◌, if◌then◌else◌, length, take, drop, Option-cases, arith, inl, inr,
}
use gateway_controllers.Prelude.Int.{ℤ}
use gateway_controllers.Prelude.Table.{Table, get}
use gateway_controllers.Limiter.{Instant}
use gateway_controllers.LocalAsync.{
  Config, LocalState, Stripe, PendingFlush, unmark, forget, evict_expired_loop, evict_expired,
  evict, victim, evict_victim, ensure_capacity, current_state, decide, allow_stripe,
}
use gateway_controllers.LocalAsync.Flush.{Snapshot, snapshot_dirty, snapshot_stripe, apply_result}

-- How much a flush has to take from a stripe.
abbrev pub work_of : Stripe → ℕ
work_of s = length s.dirty + length s.evicted_pending

unmark_le : (key : String) (ks : List String) → length (unmark key ks) ≤ length ks
unfolding unmark
unmark_le key [] = omega arith
unmark_le key (k ∷ ks) = ground (arith, unmark_le key ks)

forget_le :
    (key : String) (s : Stripe)
    → (length (forget key s).dirty ≤ length s.dirty)
      × ((forget key s).evicted_pending ≡ s.evicted_pending)
unfolding forget
forget_le key s = (unmark_le key s.dirty, refl)

expired_loop_le :
    (cfg : Config) (now : Instant) (m : Table LocalState) (s : Stripe)
    → (length (evict_expired_loop cfg now m s).dirty ≤ length s.dirty)
      × ((evict_expired_loop cfg now m s).evicted_pending ≡ s.evicted_pending)
unfolding evict_expired_loop
expired_loop_le cfg now [] s = (omega arith, refl)
expired_loop_le cfg now ((key, st) ∷ m) s =
    ground (
      arith,
      expired_loop_le cfg now m s,
      expired_loop_le cfg now m (forget key s),
      forget_le key s,
    )

pub evict_expired_le :
    (cfg : Config) (now : Instant) (s : Stripe)
    → (length (evict_expired cfg now s).dirty ≤ length s.dirty)
      × ((evict_expired cfg now s).evicted_pending ≡ s.evicted_pending)
unfolding evict_expired
evict_expired_le cfg now s = expired_loop_le cfg now s.states s

evict_le :
    (cfg : Config) (key : String) (st : LocalState) (s : Stripe)
    → length (evict cfg key st s).dirty ≤ length s.dirty
unfolding evict forget
evict_le cfg key st s = ground (arith, unmark_le key s.dirty)

evict_victim_le :
    (cfg : Config) (v : String × Option LocalState) (s : Stripe)
    → length (evict_victim cfg v s).dirty ≤ length s.dirty
unfolding evict_victim
evict_victim_le cfg (vk, none) s = omega arith
evict_victim_le cfg (vk, some st) s = ground (arith, evict_le cfg vk st s)

ensure_capacity_le :
    (cfg : Config) (now : Instant) (s : Stripe)
    → length (ensure_capacity cfg now s).dirty ≤ length s.dirty
unfolding ensure_capacity
ensure_capacity_le cfg now s =
    let swept = evict_expired cfg now s in
    ground
      (arith, evict_expired_le cfg now s, evict_victim_le cfg (victim swept.states 0 "" none) swept)

current_state_le :
    (cfg : Config) (now : Instant) (key : String) (s : Stripe)
    → length (current_state cfg now key s).1.dirty ≤ length s.dirty
unfolding current_state
current_state_le cfg now key s = ground (arith, ensure_capacity_le cfg now s)

decide_work :
    (cfg : Config) (down : Bool) (key : String) (n : ℤ) (st : LocalState) (s : Stripe)
    → (decide cfg down key n st s).need_enqueue ≡ false
    → (length (decide cfg down key n st s).stripe.dirty ≤ length s.dirty)
      × (length (decide cfg down key n st s).stripe.evicted_pending ≡ 0)
unfolding decide
decide_work cfg down key n st s h = ground arith

-- A call that does not ask for a place in the active set leaves no more keys dirty than there were,
-- and nothing that was evicted.
pub allow_stripe_work :
    (cfg : Config) (down : Bool) (now : Instant) (key : String) (n : ℤ) (s : Stripe)
    → (allow_stripe cfg down now key n s).need_enqueue ≡ false
    → work_of (allow_stripe cfg down now key n s).stripe ≤ work_of s
unfolding allow_stripe
allow_stripe_work cfg down now key n s h =
    omega (arith, decide_work cfg down key _ _ _ h, current_state_le cfg now key s)

abbrev taken : String → LocalState → Snapshot → Snapshot
taken key st t = record t {
  batch =
      t.batch
      ++ (record { key = key; flush_n = st.local_delta; ws = st.window_start; evicted = false }
          ∷ []);
  budget = t.budget - 1;
}

snapshot_dirty_more :
    (states : Table LocalState) (ks : List String) (t : Snapshot)
    → (snapshot_dirty states ks t).0.more ≡ false
    → (t.more ≡ false) × (length (snapshot_dirty states ks t).1 ≡ 0)
unfolding snapshot_dirty
snapshot_dirty_more states [] t h = (h, refl)
snapshot_dirty_more states (key ∷ ks) t h = elim (Option-cases (get states key)) [
  | inl e ↦ ground (arith, e, snapshot_dirty_more states ks t)
  | inr (st, e) ↦
      ground
        (arith, e, snapshot_dirty_more states ks t, snapshot_dirty_more states ks (taken key st t))
]

left_work :
    (cfg : Config) (now : Instant) (s : Stripe) (more : Bool)
    → (if length s.evicted_pending == 0 then more else true) ≡ false
    → length s.dirty ≡ 0
    → (more ≡ false) × (work_of (evict_expired cfg now s) ≡ 0)
left_work cfg now s more h e = ground (arith, evict_expired_le cfg now s)

-- A snapshot that leaves work in a stripe says so, and it keeps saying so.
pub snapshot_stripe_work :
    (cfg : Config) (now : Instant) (s : Stripe) (t : Snapshot)
    → (snapshot_stripe cfg now s t).0.more ≡ false
    → (t.more ≡ false) × (work_of (snapshot_stripe cfg now s t).1 ≡ 0)
unfolding snapshot_stripe
snapshot_stripe_work cfg now s t h =
    let n = length s.evicted_pending in
    let count = if ltb t.budget n then t.budget else n in
    let owed = drop count s.evicted_pending in
    let drained : Snapshot = record {
      batch = t.batch ++ take count s.evicted_pending;
      budget = t.budget - count;
      more = if length owed == 0 then t.more else true;
    } in
    let left = (snapshot_dirty s.states s.dirty drained).1 in
    left_work cfg now (record s { dirty = left; evicted_pending = owed }) t.more
      (snapshot_dirty_more s.states s.dirty drained h).0
      (snapshot_dirty_more s.states s.dirty drained h).1

-- A result that leaves more work in a stripe than there was says so.
pub apply_result_work :
    (cfg : Config) (p : PendingFlush) (r : Option ℤ) (s : Stripe)
    → (apply_result cfg p r s).0 ≡ false
    → work_of (apply_result cfg p r s).1 ≤ work_of s
unfolding apply_result
apply_result_work cfg p none s h = absurd (cc)
apply_result_work cfg p (some g) s h = ground arith
