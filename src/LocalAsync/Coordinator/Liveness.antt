-- ===== src/LocalAsync/Coordinator/Liveness.antt =====
-- About runs of calls and the worker of flush_coordinator.go.
use gateway_controllers.Prelude.{
  ◌≡◌, refl, ap, sym, ◌∙◌, subst, ℕ, ◌<◌, List, [], ◌∷◌, true, false, arith, inl, inr,
}
use gateway_controllers.Prelude.Int.{◌≤ℤ◌}
use gateway_controllers.Limiter.{Instant}
use gateway_controllers.LocalAsync.{Config}
use gateway_controllers.LocalAsync.Coordinator.{
  Shared, Caller, idle, enqueueing, marking, Worker, resting, clearing, visiting, Answers,
  worker_step, System, Move, call, work, move, run, new_system,
}
use gateway_controllers.LocalAsync.Coordinator.Stripes.{work_of}
use gateway_controllers.LocalAsync.Coordinator.Awake.{IsAwake, Sees, Carries, call-IsAwake}
use gateway_controllers.LocalAsync.Coordinator.AwakeSteps.{worker-IsAwake}

move-IsAwake :
    (cfg : Config) (m : Move) (sys : System)
    → IsAwake sys.callers sys.worker sys.shared
    → IsAwake (move cfg m sys).callers (move cfg m sys).worker (move cfg m sys).shared
unfolding move
move-IsAwake cfg (call c q) sys a =
    call-IsAwake cfg sys.callers c q sys.worker sys.shared (sys.callers c) refl a
move-IsAwake cfg (work out) sys a = worker-IsAwake cfg out sys.callers sys.worker sys.shared a

run-IsAwake :
    (cfg : Config) (ms : List Move) (sys : System)
    → IsAwake sys.callers sys.worker sys.shared
    → IsAwake (run cfg ms sys).callers (run cfg ms sys).worker (run cfg ms sys).shared
unfolding run
run-IsAwake cfg [] sys a = a
run-IsAwake cfg (m ∷ ms) sys a = run-IsAwake cfg ms (move cfg m sys) (move-IsAwake cfg m sys a)

IsAwake-start :
    (cfg : Config) (now : Instant)
    → IsAwake (new_system cfg now).callers (new_system cfg now).worker (new_system cfg now).shared
unfolding new_system
IsAwake-start cfg now = record {
  has_work = λ i lt h. absurd (omega arith);
  listed = λ on. absurd (cc);
}

awake_listed :
    (f : ℕ → Caller) (w : Worker) (s : Shared) (i : ℕ)
    → IsAwake f w s
    → i < 16
    → 0 < work_of (s.stripes i)
    → ((c : ℕ) → f c ≡ idle)
    → w ≡ resting
    → (s.enqueued ≡ true) × (s.active ≡ true)
awake_listed f w s i a lt h quiet rests =
    let on : s.enqueued ≡ true = elim (a.has_work i lt h) [
      | inl on ↦ on
      | inr (inl (c, e)) ↦ absurd (let q : idle ≡ enqueueing = sym (quiet c) ∙ e in cc)
      | inr (inr seen) ↦ absurd (subst (Sees i s.flush_cursor) rests seen)
    ] in
    (
      on,
      elim (a.listed on) [
        | inl listed ↦ listed
        | inr (inl (c, e)) ↦ absurd (let q : idle ≡ marking = sym (quiet c) ∙ e in cc)
        | inr (inr carried) ↦ absurd (subst Carries rests carried)
      ],
    )

abbrev pub first_visit : Config → Worker
first_visit cfg =
    visiting 0 (record { batch = []; budget = cfg.max_pipeline_commands; more = false })

tick_starts :
    (cfg : Config) (a : Answers) (s : Shared)
    → s.active ≡ true
    → s.next_flush_at ≤ℤ a.now
    → worker_step cfg a resting s ≡ (clearing, record s { active = false })
unfolding worker_step
tick_starts cfg a s on at = ground arith

three_steps : Config → Answers → Answers → Answers → Worker × Shared → Worker
three_steps cfg a b c (w, s) =
    let (w1, s1) = worker_step cfg a w s in
    let (w2, s2) = worker_step cfg b w1 s1 in (worker_step cfg c w2 s2).0

taken_up :
    (cfg : Config) (sys : System) (a b c : Answers)
    → sys.worker ≡ resting
    → sys.shared.active ≡ true
    → sys.shared.next_flush_at ≤ℤ a.now
    → (run cfg (work a ∷ work b ∷ work c ∷ []) sys).worker ≡ first_visit cfg
unfolding run move three_steps
taken_up cfg sys a b c rests on at =
    ap (λ w. three_steps cfg a b c (w, sys.shared)) rests
    ∙ ap (after_tick cfg b c) (tick_starts cfg a sys.shared on at)
    ∙ unfold worker_step in refl
  where
    after_tick : Config → Answers → Answers → Worker × Shared → Worker
    after_tick cfg b c (w, s) = let (w2, s2) = worker_step cfg b w s in (worker_step cfg c w2 s2).0

-- Whatever steps calls and the worker take, in any interleaving, from the registration of a
-- limiter: where a stripe has work (a dirty key, or a count of an evicted one), no call is between
-- its decision and its end, and the worker rests, the limiter is enqueued and in the active set;
-- and once the time of its next flush has come, the worker's next three steps take it up and begin
-- to snapshot all its stripes, with the whole budget.
pub work_is_flushed :
    (cfg : Config) (now : Instant) (ms : List Move) (i : ℕ) (a b c : Answers)
    → i < 16
    → 0 < work_of ((run cfg ms (new_system cfg now)).shared.stripes i)
    → ((d : ℕ) → (run cfg ms (new_system cfg now)).callers d ≡ idle)
    → (run cfg ms (new_system cfg now)).worker ≡ resting
    → (run cfg ms (new_system cfg now)).shared.next_flush_at ≤ℤ a.now
    → ((run cfg ms (new_system cfg now)).shared.enqueued ≡ true)
      × ((run cfg ms (new_system cfg now)).shared.active ≡ true)
      × ((run cfg (work a ∷ work b ∷ work c ∷ []) (run cfg ms (new_system cfg now))).worker
          ≡ first_visit cfg)
work_is_flushed cfg now ms i a b c lt h quiet rests at =
    let sys = run cfg ms (new_system cfg now) in
    let awake = run-IsAwake cfg ms (new_system cfg now) (IsAwake-start cfg now) in
    let (on, listed) = awake_listed sys.callers sys.worker sys.shared i awake lt h quiet rests in
    (on, listed, taken_up cfg sys a b c rests listed at)
