-- ===== src/LocalAsync/Coordinator/AwakeWorker.antt =====
-- About the steps of the worker of flush_coordinator.go: the flags that lead to a flush.
use gateway_controllers.Prelude.{
  ◌≡◌, refl, ap, sym, ◌∙◌, ℕ, suc, ◌+◌, ◌-◌, ◌%◌, ◌≤◌, ◌<◌, List, ◌∷◌, Bool, true, false, ◌&&◌,
  ◌||◌, Option, leb, ◌==◌, Bool-cases, arith, inl, inr, ℕ_discrete,
}
use gateway_controllers.Prelude.Int.{ℤ, le_ℤ}
use gateway_controllers.Limiter.{Instant}
use gateway_controllers.LocalAsync.{Config, Stripe, PendingFlush}
use gateway_controllers.LocalAsync.Flush.{Snapshot, snapshot_stripe, apply_result}
use gateway_controllers.LocalAsync.Coordinator.{
  Shared, set_stripe, Caller, stripe_of, Worker, resting, visiting, executing, applying, finishing,
  Answers, is_error, next_cursor, visit, worker_step,
}
use gateway_controllers.LocalAsync.Coordinator.Stripes.{
  work_of, snapshot_stripe_work, apply_result_work,
}
use gateway_controllers.LocalAsync.Coordinator.Awake.{
  IsAwake, Sees, Carries, less_work, work_elsewhere,
}

-- A step of the worker that changes no stripe, sets no flag, and sees what it saw.
pub quiet-IsAwake :
    (f : ℕ → Caller) (w w' : Worker) (s s' : Shared)
    → (s'.enqueued ≡ s.enqueued)
    → (s'.active ≡ s.active)
    → ((i : ℕ) → work_of (s'.stripes i) ≡ work_of (s.stripes i))
    → ((i : ℕ) → i < 16 → Sees i s.flush_cursor w → Sees i s'.flush_cursor w')
    → (Carries w → Carries w')
    → IsAwake f w s
    → IsAwake f w' s'
quiet-IsAwake f w w' s s' e e' same sees carries a = record {
  has_work = λ i lt h. elim (a.has_work i lt (omega (arith, same i))) [
    | inl on ↦ inl (e ∙ on)
    | inr (inl m) ↦ inr (inl m)
    | inr (inr seen) ↦ inr (inr (sees i lt seen))
  ];
  listed = λ on. elim (a.listed (sym e ∙ on)) [
    | inl listed ↦ inl (e' ∙ listed)
    | inr (inl m) ↦ inr (inl m)
    | inr (inr carried) ↦ inr (inr (carries carried))
  ];
}

-- Every stripe is visited.
pub start_sees : (cursor i : ℕ) → i < 16 → (m : ℕ) × (0 ≤ m) × (m < 16) × ((cursor + m) % 16 ≡ i)
start_sees cursor i h = ((i + 16 - cursor % 16) % 16, omega arith, omega arith, omega arith)

pub rest-IsAwake :
    (cfg : Config) (out : Answers) (f : ℕ → Caller) (s : Shared)
    → IsAwake f resting s
    → IsAwake f (worker_step cfg out resting s).0 (worker_step cfg out resting s).1
unfolding worker_step
rest-IsAwake cfg out f s a = elim (Bool-cases (s.active && le_ℤ s.next_flush_at out.now)) [
  | inl go ↦
      rw (go, worker_step)
        (record {
          has_work = λ i lt h. elim (a.has_work i lt h) [
            | inl on ↦ inl on
            | inr (inl m) ↦ inr (inl m)
            | inr (inr seen) ↦ absurd seen
          ];
          listed = λ on. inr (inr tt);
        })
  | inr stay ↦ rw (stay, worker_step) a
]

-- A visit leaves no work in its stripe that the worker does not see.
visited-IsAwake :
    (f : ℕ → Caller) (i k : ℕ) (t t' : Snapshot) (x : Stripe) (s : Shared)
    → (s.flush_cursor + k) % 16 ≡ i
    → (t'.more ≡ false → (t.more ≡ false) × (work_of x ≡ 0))
    → IsAwake f (visiting k t) s
    → IsAwake f (visiting (suc k) t') (set_stripe i x s)
unfolding set_stripe
visited-IsAwake f i k t t' x s at clean a = record {
  has_work = λ j lt h. elim (Bool-cases t'.more) [
    | inl more ↦ inr (inr (inl more))
    | inr none_left ↦ elim (work_elsewhere i j x s h) [
      | inl (same, some_work) ↦ absurd (omega (arith, (clean none_left).1))
      | inr (differs, before) ↦ elim (a.has_work j lt before) [
        | inl on ↦ inl on
        | inr (inl m) ↦ inr (inl m)
        | inr (inr (inl more)) ↦
            absurd (let q : true ≡ false = sym more ∙ (clean none_left).0 in cc)
        | inr (inr (inr (m, from, below, e))) ↦ elim (ℕ_discrete m k) [
          | yes same ↦
              absurd (differs (sym at ∙ ap (λ n. (s.flush_cursor + n) % 16) (sym same) ∙ e))
          | no later ↦ inr (inr (inr (m, omega arith, below, e)))
        ]
      ]
    ]
  ];
  listed = λ on. elim (a.listed on) [
    | inl listed ↦ inl listed
    | inr (inl m) ↦ inr (inl m)
    | inr (inr carried) ↦ absurd carried
  ];
}

pub visit-IsAwake :
    (cfg : Config) (now : Instant) (f : ℕ → Caller) (k : ℕ) (t : Snapshot) (s : Shared)
    → IsAwake f (visiting k t) s
    → IsAwake f (visit cfg now k t s).0 (visit cfg now k t s).1
unfolding visit next_cursor
visit-IsAwake cfg now f k t s a =
    let i = (s.flush_cursor + k) % 16 in
    let next = snapshot_stripe cfg now (s.stripes i) t in
    elim (Bool-cases (leb 16 k)) [
      | inl over ↦
          rw (over, visit)
            (quiet-IsAwake f (visiting k t) (executing t.batch t.more) s (next_cursor s) refl refl
              (λ i. refl)
              (λ i lt seen. elim seen [
                | inl more ↦ more
                | inr (m, from, below, e) ↦ absurd (ground arith)
              ])
              (λ carried. carried) a)
      | inr on ↦ elim (Bool-cases (t.budget == 0)) [
        | inl spent ↦
            rw (on, visit)
              (rw (spent, visit)
                (quiet-IsAwake f (visiting k t) (executing t.batch true) s (next_cursor s) refl refl
                  (λ i. refl) (λ i lt seen. refl) (λ carried. carried) a))
        | inr left ↦
            rw (on, visit)
              (rw (left, visit)
                (visited-IsAwake f i k t next.0 next.1 s refl
                  (snapshot_stripe_work cfg now (s.stripes i) t) a))
      ]
    ]

applied-IsAwake :
    (f : ℕ → Caller) (i : ℕ) (x : Stripe) (s : Shared) (rest rest' : List (PendingFlush × Option ℤ))
    (more left err err' : Bool)
    → (left ≡ false → work_of x ≤ work_of (s.stripes i))
    → IsAwake f (applying rest more err) s
    → IsAwake f (applying rest' (more || left) err') (set_stripe i x s)
unfolding set_stripe
applied-IsAwake f i x s rest rest' more left err err' quiet a = record {
  has_work = λ j lt h. elim (Bool-cases left) [
    | inl more_left ↦ inr (inr (ground arith))
    | inr none_left ↦ elim (a.has_work j lt (less_work i j x s (quiet none_left) h)) [
      | inl on ↦ inl on
      | inr (inl m) ↦ inr (inl m)
      | inr (inr seen) ↦ inr (inr (ground arith))
    ]
  ];
  listed = λ on. elim (a.listed on) [
    | inl listed ↦ inl listed
    | inr (inl m) ↦ inr (inl m)
    | inr (inr carried) ↦ absurd carried
  ];
}

pub apply-IsAwake :
    (cfg : Config) (out : Answers) (f : ℕ → Caller) (p : PendingFlush) (r : Option ℤ)
    (rest : List (PendingFlush × Option ℤ)) (more err : Bool) (s : Shared)
    → IsAwake f (applying ((p, r) ∷ rest) more err) s
    → IsAwake f
        (worker_step cfg out (applying ((p, r) ∷ rest) more err) s).0
        (worker_step cfg out (applying ((p, r) ∷ rest) more err) s).1
unfolding worker_step
apply-IsAwake cfg out f p r rest more err s a =
    let i = stripe_of cfg p.key in
    let next = apply_result cfg p r (s.stripes i) in
    applied-IsAwake f i next.1 s ((p, r) ∷ rest) rest more next.0 err (err || is_error r)
      (apply_result_work cfg p r (s.stripes i)) a

pub finish-IsAwake :
    (cfg : Config) (out : Answers) (f : ℕ → Caller) (more : Bool) (s : Shared)
    → IsAwake f (finishing more) s
    → IsAwake f
        (worker_step cfg out (finishing more) s).0
        (worker_step cfg out (finishing more) s).1
unfolding worker_step
finish-IsAwake cfg out f false s a = record {
  has_work = λ i lt h. elim (a.has_work i lt h) [
    | inl on ↦ inl on
    | inr (inl m) ↦ inr (inl m)
    | inr (inr seen) ↦ absurd (cc)
  ];
  listed = a.listed;
}
finish-IsAwake cfg out f true s a = record {
  has_work = λ i lt h. inl refl;
  listed = λ _. elim (Bool-cases s.enqueued) [
    | inl on ↦ rw on (elim (a.listed on) [
      | inl listed ↦ inl listed
      | inr (inl m) ↦ inr (inl m)
      | inr (inr carried) ↦ absurd carried
    ])
    | inr off ↦ inr (inr (rw off tt))
  ];
}
