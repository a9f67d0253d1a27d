-- ===== src/LocalAsync/Coordinator/AwakeSteps.antt =====
-- About the steps of the worker of flush_coordinator.go, taken together.
use gateway_controllers.Prelude.{
  ◌≡◌, refl, ap, ℕ, [], ◌∷◌, Bool, true, false, not, ◌&&◌, Bool-cases, arith, inl, inr,
}
use gateway_controllers.LocalAsync.{Config}
use gateway_controllers.LocalAsync.Coordinator.{
  Shared, Caller, Worker, resting, clearing, due, inserting, visiting, executing, applying,
  finishing, Answers, note_flush_outcome, probe, worker_step,
}
use gateway_controllers.LocalAsync.Coordinator.Stripes.{work_of}
use gateway_controllers.LocalAsync.Coordinator.Awake.{IsAwake}
use gateway_controllers.LocalAsync.Coordinator.AwakeWorker.{
  quiet-IsAwake, start_sees, rest-IsAwake, visit-IsAwake, apply-IsAwake, finish-IsAwake,
}

insert-IsAwake :
    (cfg : Config) (out : Answers) (f : ℕ → Caller) (s : Shared)
    → IsAwake f inserting s
    → IsAwake f (worker_step cfg out inserting s).0 (worker_step cfg out inserting s).1
unfolding worker_step
insert-IsAwake cfg out f s a = record {
  has_work = λ i lt h. elim (a.has_work i lt h) [
    | inl on ↦ inl on
    | inr (inl m) ↦ inr (inl m)
    | inr (inr seen) ↦ absurd seen
  ];
  listed = λ on. inl refl;
}

clear-IsAwake :
    (cfg : Config) (out : Answers) (f : ℕ → Caller) (s : Shared)
    → IsAwake f (worker_step cfg out clearing s).0 (worker_step cfg out clearing s).1
unfolding worker_step
clear-IsAwake cfg out f s = record { has_work = λ i lt h. inr (inr tt); listed = λ on. absurd (cc) }

-- What an outcome changes is neither a stripe nor a flag that the worker and the calls swap.
note_same :
    (cfg : Config) (err : Bool) (s : Shared)
    → ((note_flush_outcome cfg err s).enqueued ≡ s.enqueued)
      × ((note_flush_outcome cfg err s).active ≡ s.active)
      × ((note_flush_outcome cfg err s).stripes ≡ s.stripes)
      × ((note_flush_outcome cfg err s).flush_cursor ≡ s.flush_cursor)
unfolding note_flush_outcome
note_same cfg true s = (refl, refl, refl, refl)
note_same cfg false s = (refl, refl, refl, refl)

probe_same :
    (cfg : Config) (ping : Bool) (s : Shared)
    → ((probe cfg ping s).enqueued ≡ s.enqueued)
      × ((probe cfg ping s).active ≡ s.active)
      × ((probe cfg ping s).stripes ≡ s.stripes)
      × ((probe cfg ping s).flush_cursor ≡ s.flush_cursor)
unfolding probe
probe_same cfg ping s = elim (Bool-cases (not cfg.fail_open && s.redis_down)) [
  | inl asks ↦ rw (asks, probe) (note_same cfg (not ping) s)
  | inr off ↦ rw (off, probe) (refl, refl, refl, refl)
]

pub worker-IsAwake :
    (cfg : Config) (out : Answers) (f : ℕ → Caller) (w : Worker) (s : Shared)
    → IsAwake f w s
    → IsAwake f (worker_step cfg out w s).0 (worker_step cfg out w s).1
worker-IsAwake cfg out f resting s a = rest-IsAwake cfg out f s a
worker-IsAwake cfg out f clearing s a = clear-IsAwake cfg out f s
worker-IsAwake cfg out f due s a =
    unfold worker_step in
    quiet-IsAwake f due _ s _ refl refl (λ i. refl)
      (λ i lt seen. inr (start_sees s.flush_cursor i lt)) (λ carried. absurd carried) a
worker-IsAwake cfg out f (visiting k t) s a =
    unfold worker_step in visit-IsAwake cfg out.now f k t s a
worker-IsAwake cfg out f (executing [] more) s a =
    unfold worker_step in
    let (e, e', st, _) = probe_same cfg out.ping s in
    quiet-IsAwake f (executing [] more) _ s _ e e' (λ i. ap (λ g. work_of (g i)) st)
      (λ i lt seen. ground arith) (λ carried. carried) a
worker-IsAwake cfg out f (executing (p ∷ ps) more) s a =
    unfold worker_step in
    quiet-IsAwake f (executing (p ∷ ps) more) _ s s refl refl (λ i. refl) (λ i lt seen. seen)
      (λ carried. carried) a
worker-IsAwake cfg out f (applying [] more err) s a =
    unfold worker_step in
    let (e, e', st, _) = note_same cfg err s in
    quiet-IsAwake f (applying [] more err) (finishing more) s _ e e'
      (λ i. ap (λ g. work_of (g i)) st) (λ i lt seen. seen) (λ carried. carried) a
worker-IsAwake cfg out f (applying ((p, r) ∷ rest) more err) s a =
    apply-IsAwake cfg out f p r rest more err s a
worker-IsAwake cfg out f (finishing more) s a = finish-IsAwake cfg out f more s a
worker-IsAwake cfg out f inserting s a = insert-IsAwake cfg out f s a
