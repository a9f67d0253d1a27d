-- ===== src/Tests/FlushRuns.antt =====
-- The local-async limiter at concrete inputs.
use gateway_controllers.Prelude.{
  ◌≡◌, refl, ℕ, ◌<◌, ◌≤◌, ◌+◌, Bool, List, [], ◌∷◌, true, false, arith, inl, inr, ◌==◌, Bool-cases,
}
use gateway_controllers.Prelude.Int.{pos, ◌≤ℤ◌, ◌+ℤ◌, ◌-ℤ◌, add64, sub64, wrap64}
use gateway_controllers.Prelude.Table.{get, put, delete}
use gateway_controllers.Limiter.{truncate}
use gateway_controllers.FixedWindow.{window_start}
use gateway_controllers.LocalAsync.{
  Config, Stripe, allow_stripe, current_state, decide, ensure_capacity, mark, unmark, evict_expired,
  evict_expired_loop, evict_victim, victim, remaining_of,
}
use gateway_controllers.LocalAsync.Coordinator.{
  Request, Answers, Move, call, work, System, idle, resting, run, move, caller_step, stripe_of,
  set_stripe, new_system,
}
use gateway_controllers.LocalAsync.Estimate.{
  Counts, LocalCall, admitted, after_calls, estimate_within_limit,
}
use gateway_controllers.LocalAsync.Registry.{FlushCoordinator, count_of, register}
use gateway_controllers.LocalAsync.Registry.Ticks.{Serves, register-Serves}
use gateway_controllers.LocalAsync.Coordinator.Stripes.{work_of}
use gateway_controllers.LocalAsync.Coordinator.Liveness.{first_visit, work_is_flushed}

abbrev ten_a_second : Config
ten_a_second = record {
  policy = record { limit = pos 10; duration = pos 1_000_000_000 };
  sync_interval = pos 50_000_000;
  fail_open = true;
  max_pipeline_commands = 5000;
  stripe_cap = 100;
  hash = λ key. 7;
}

abbrev one_request : Request
one_request = record { now = pos 3_000_000_000; key = "route"; n = pos 1 }

-- A call from its decision to its end.
abbrev one_call : List Move
one_call = call 0 one_request ∷ call 0 one_request ∷ call 0 one_request ∷ []

abbrev after_call : System
after_call = run ten_a_second one_call (new_system ten_a_second (pos 2_000_000_000))

abbrev later : Answers
later = record { now = pos 4_000_000_000; results = []; ping = true }

call_leaves_work : work_of (after_call.shared.stripes 7) ≡ 1
unfolding run move caller_step new_system stripe_of set_stripe allow_stripe current_state decide
    ensure_capacity evict_expired evict_expired_loop evict_victim victim mark unmark get put delete
    window_start truncate remaining_of add64 sub64 wrap64 ◌+ℤ◌ ◌-ℤ◌
call_leaves_work = refl

call_ends : (d : ℕ) → after_call.callers d ≡ idle
unfolding run move caller_step new_system stripe_of set_stripe allow_stripe current_state decide
    ensure_capacity evict_expired evict_expired_loop evict_victim victim mark unmark get put delete
    window_start truncate remaining_of add64 sub64 wrap64 ◌+ℤ◌ ◌-ℤ◌
call_ends d = elim (Bool-cases (0 == d)) [ inl e ↦ rw e refl | inr e ↦ rw e refl ]

worker_rests : after_call.worker ≡ resting
unfolding run move new_system
worker_rests = refl

flush_is_due : after_call.shared.next_flush_at ≤ℤ later.now
unfolding run move caller_step new_system stripe_of set_stripe allow_stripe current_state decide
    ensure_capacity evict_expired evict_expired_loop evict_victim victim mark unmark get put delete
    window_start truncate remaining_of add64 sub64 wrap64 ◌+ℤ◌ ◌-ℤ◌
flush_is_due = omega arith

work_is_flushed_example :
    (after_call.shared.enqueued ≡ true)
    × (after_call.shared.active ≡ true)
    × ((run ten_a_second (work later ∷ work later ∷ work later ∷ []) after_call).worker
        ≡ first_visit ten_a_second)
work_is_flushed_example =
    work_is_flushed ten_a_second (pos 2_000_000_000) one_call 7 later later later (omega arith)
      (omega (arith, call_leaves_work)) call_ends worker_rests flush_is_due

abbrev four_workers : FlushCoordinator
four_workers = record {
  intervals = (pos 50_000_000, 2) ∷ [];
  next_shard = 6;
  base_tick = pos 50_000_000;
  shards = 4;
}

register-Serves_run :
    ((register (pos 20_000_000) four_workers).0 < 4)
    × Serves (pos 20_000_000) (register (pos 20_000_000) four_workers).1.base_tick
    × Serves (pos 50_000_000) (register (pos 20_000_000) four_workers).1.base_tick
register-Serves_run =
    register-Serves (pos 20_000_000) (pos 50_000_000) four_workers (omega arith)
      (unfold count_of in omega arith)

-- Three requests of the window before are counted and not yet flushed.
abbrev old_window : Stripe
old_window = record {
  states =
      (
        "route",
        record {
          window_start = pos 2_000_000_000;
          global_base = pos 0;
          local_delta = pos 3;
          blocked = false;
        },
      )
      ∷ [];
  dirty = "route" ∷ [];
  evicted_pending = [];
}

-- The first request of the next window drops them: nothing is left that a flush would send.
rollover_drops :
    (allow_stripe ten_a_second false (pos 3_000_000_000) "route" (pos 1) old_window).stripe
    ≡ record {
      states =
          (
            "route",
            record {
              window_start = pos 3_000_000_000;
              global_base = pos 0;
              local_delta = pos 1;
              blocked = false;
            },
          )
          ∷ [];
      dirty = "route" ∷ [];
      evicted_pending = [];
    }
unfolding allow_stripe current_state decide mark unmark get put delete window_start truncate
    remaining_of add64 sub64 wrap64 ◌+ℤ◌ ◌-ℤ◌
rollover_drops = refl

abbrev running_window : Stripe
running_window = record {
  states =
      (
        "route",
        record {
          window_start = pos 3_000_000_000;
          global_base = pos 4;
          local_delta = pos 2;
          blocked = false;
        },
      )
      ∷ [];
  dirty = "route" ∷ [];
  evicted_pending = [];
}

-- The first call fits, the second does not.
abbrev two_calls : List LocalCall
two_calls =
    record { now = pos 3_200_000_000; down = false; n = 3 }
    ∷ record { now = pos 3_300_000_000; down = false; n = 2 }
    ∷ []

same_window :
    (n : ℕ)
    → n < 1_000_000_000
    → window_start ten_a_second.policy (pos (3_000_000_000 + n)) ≡ pos 3_000_000_000
unfolding window_start truncate ◌-ℤ◌
same_window n h = ground arith

route-Counts : Counts running_window "route" (pos 3_000_000_000) 4 2 false
unfolding get
route-Counts = refl

three_admitted : admitted ten_a_second "route" two_calls running_window ≡ 3
unfolding admitted allow_stripe current_state decide mark unmark get put delete window_start
    truncate remaining_of add64 sub64 wrap64 ◌+ℤ◌ ◌-ℤ◌
three_admitted = refl

estimate_within_limit_example :
    (4 + 2 + admitted ten_a_second "route" two_calls running_window ≤ 10)
    × ((shut : Bool) × Counts
          (after_calls ten_a_second "route" two_calls running_window)
          "route"
          (pos 3_000_000_000)
          4
          (2 + admitted ten_a_second "route" two_calls running_window)
          shut)
estimate_within_limit_example =
    estimate_within_limit ten_a_second "route" two_calls 10 4 2 false (pos 3_000_000_000)
      running_window refl (omega arith) (omega arith)
      (
        (same_window 200_000_000 (omega arith), omega arith),
        ((same_window 300_000_000 (omega arith), omega arith), tt),
      )
      route-Counts
