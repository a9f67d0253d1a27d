-- ===== src/LocalAsync/Coordinator.antt =====
-- policies/advanced-ratelimit/algorithms/fixedwindow/flush_coordinator.go and the flush of
-- redis_local_async.go: one limiter, the calls of AllowN on it, and the worker of its shard. A step
-- is one section under a lock or one atomic access of what calls and the worker share.
pub mod Stripes
pub mod Awake
pub mod AwakeWorker
pub mod AwakeSteps
pub mod Liveness
use gateway_controllers.Prelude.{
  ℕ, zero, suc, ◌+◌, ◌%◌, List, [], ◌∷◌, ◌++◌, String, Bool, true, false, not, ◌&&◌, ◌||◌, Option,
  none, some, leb, ◌==◌, if◌then◌else◌,
}
use gateway_controllers.Prelude.Int.{ℤ, le_ℤ}
use gateway_controllers.Limiter.{Instant, time_add}
use gateway_controllers.LocalAsync.{Config, Stripe, PendingFlush, Decision, allow_stripe}
use gateway_controllers.LocalAsync.Flush.{Snapshot, snapshot_stripe, apply_result}

-- What the steps share. `active` says whether the limiter is in its shard's active set. The last
-- two are the worker's own, under flushMu.
pub record Shared : Type 0 where
  pub stripes : ℕ → Stripe
  pub enqueued : Bool
  pub active : Bool
  pub next_flush_at : Instant
  pub redis_down : Bool
  pub fail_streak : ℕ
  pub flush_cursor : ℕ

abbrev pub num_stripes : ℕ
num_stripes = 16

unfoldable pub set_stripe : ℕ → Stripe → Shared → Shared
set_stripe i x s = record s { stripes = λ j. if i == j then x else s.stripes j }

-- How far a call of AllowN is: it has not begun (or it is over), it is about to swap `enqueued`, or
-- about to enter markActive.
pub data Caller : Type 0 where
  idle enqueueing marking : Caller

pub record Request : Type 0 where
  pub now : Instant
  pub key : String
  pub n : ℤ

unfoldable pub stripe_of : Config → String → ℕ
stripe_of cfg key = cfg.hash key % num_stripes

unfoldable pub caller_step : Config → Request → Caller → Shared → Caller × Shared
caller_step cfg q idle s =
    let i = stripe_of cfg q.key in
    let d = allow_stripe cfg s.redis_down q.now q.key q.n (s.stripes i) in
    (if d.need_enqueue then enqueueing else idle, set_stripe i d.stripe s)
caller_step cfg q enqueueing s =
    if s.enqueued then (idle, s) else (marking, record s { enqueued = true })
caller_step cfg q marking s = (idle, record s { active = true })

-- How far the worker is: between ticks; it took the limiter out of the active set; it cleared
-- `enqueued`; it snapshots the stripes (how many it has been to, and the snapshot so far); it has
-- the batch; it applies the results; it is about to swap `enqueued` where more is to do; or about
-- to put the limiter back.
pub data Worker : Type 0 where
  resting clearing due inserting : Worker
  visiting : ℕ → Snapshot → Worker
  executing : List PendingFlush → Bool → Worker
  applying : List (PendingFlush × Option ℤ) → Bool → Bool → Worker
  finishing : Bool → Worker

-- What the worker is told: the time, the answers of the pipeline to its commands (`none` for an
-- error), and whether a PING is answered.
pub record Answers : Type 0 where
  pub now : Instant
  pub results : List (Option ℤ)
  pub ping : Bool

-- Each entry of a batch with its result: an error where there is none.
unfoldable pub pair_results : List PendingFlush → List (Option ℤ) → List (PendingFlush × Option ℤ)
pair_results [] rs = []
pair_results (p ∷ ps) [] = (p, none) ∷ pair_results ps []
pair_results (p ∷ ps) (r ∷ rs) = (p, r) ∷ pair_results ps rs

-- noteFlushOutcomeLocked.
unfoldable pub note_flush_outcome : Config → Bool → Shared → Shared
note_flush_outcome cfg tick_err s =
    if tick_err
    then record s {
      fail_streak = suc s.fail_streak;
      redis_down = not cfg.fail_open && leb 2 (suc s.fail_streak);
    }
    else record s { fail_streak = 0; redis_down = false }

-- An empty batch: a limiter that is shut because Redis is down asks whether it is back.
unfoldable pub probe : Config → Bool → Shared → Shared
probe cfg ping s =
    if not cfg.fail_open && s.redis_down then note_flush_outcome cfg (not ping) s else s

unfoldable pub still_down : Config → Shared → Bool
still_down cfg s = not cfg.fail_open && s.redis_down

abbrev pub is_error : Option ℤ → Bool
is_error none = true
is_error (some r) = false

unfoldable pub next_cursor : Shared → Shared
next_cursor s = record s { flush_cursor = suc s.flush_cursor % num_stripes }

-- A round of the loop of snapshotPendingLocked.
unfoldable pub visit : Config → Instant → ℕ → Snapshot → Shared → Worker × Shared
visit cfg now k t s =
    let i = (s.flush_cursor + k) % num_stripes in
    let (t', x) = snapshot_stripe cfg now (s.stripes i) t in
    if leb num_stripes k
    then (executing t.batch t.more, next_cursor s)
    else if t.budget == 0
    then (executing t.batch true, next_cursor s)
    else (visiting (suc k) t', set_stripe i x s)

unfoldable pub worker_step : Config → Answers → Worker → Shared → Worker × Shared
worker_step cfg out resting s =
    if s.active && le_ℤ s.next_flush_at out.now
    then (clearing, record s { active = false })
    else (resting, s)
worker_step cfg out clearing s = (due, record s { enqueued = false })
worker_step cfg out due s = (
  visiting 0 (record { batch = []; budget = cfg.max_pipeline_commands; more = false }),
  record s { next_flush_at = time_add out.now cfg.sync_interval },
)
worker_step cfg out (visiting k t) s = visit cfg out.now k t s
worker_step cfg out (executing [] more) s =
    let probed = probe cfg out.ping s in
    (finishing (more || (still_down cfg s && still_down cfg probed)), probed)
worker_step cfg out (executing (p ∷ ps) more) s =
    (applying (pair_results (p ∷ ps) out.results) more false, s)
worker_step cfg out (applying [] more tick_err) s =
    (finishing more, note_flush_outcome cfg tick_err s)
worker_step cfg out (applying ((p, r) ∷ rest) more tick_err) s =
    let i = stripe_of cfg p.key in
    let (left, x) = apply_result cfg p r (s.stripes i) in
    (applying rest (more || left) (tick_err || is_error r), set_stripe i x s)
worker_step cfg out (finishing more) s =
    if more
    then (
      if s.enqueued then resting else inserting,
      record s { next_flush_at = out.now; enqueued = true },
    )
    else (resting, s)
worker_step cfg out inserting s = (resting, record s { active = true })

-- Any number of calls, by their number, and the worker.
pub record System : Type 0 where
  pub callers : ℕ → Caller
  pub worker : Worker
  pub shared : Shared

-- Whose step is next.
pub data Move : Type 0 where
  call : ℕ → Request → Move
  work : Answers → Move

unfoldable pub move : Config → Move → System → System
move cfg (call c q) sys =
    let (next, s) = caller_step cfg q (sys.callers c) sys.shared in
    record sys { callers = λ d. if c == d then next else sys.callers d; shared = s }
move cfg (work out) sys =
    let (next, s) = worker_step cfg out sys.worker sys.shared in
    record sys { worker = next; shared = s }

unfoldable pub run : Config → List Move → System → System
run cfg [] sys = sys
run cfg (m ∷ ms) sys = run cfg ms (move cfg m sys)

abbrev pub empty_stripe : Stripe
empty_stripe = record { states = []; dirty = []; evicted_pending = [] }

-- A limiter that was just registered.
unfoldable pub new_system : Config → Instant → System
new_system cfg now = record {
  callers = λ c. idle;
  worker = resting;
  shared = record {
    stripes = λ i. empty_stripe;
    enqueued = false;
    active = false;
    next_flush_at = time_add now cfg.sync_interval;
    redis_down = false;
    fail_streak = 0;
    flush_cursor = 0;
  };
}
