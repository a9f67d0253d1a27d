-- ===== src/LocalAsync/Coordinator/Awake.antt =====
-- About the steps of AllowN in redis_local_async.go: the flags that lead to a flush.
use gateway_controllers.Prelude.{
  ◌≡◌, ◌≢◌, refl, ap, ◌∙◌, subst, ℕ, ◌+◌, ◌%◌, ◌≤◌, ◌<◌, Bool, true, false, ◌==◌, if◌then◌else◌,
  Bool-cases, arith, ◌⊎◌, inl, inr,
}
use gateway_controllers.LocalAsync.{Config, Stripe, allow_stripe}
use gateway_controllers.LocalAsync.Coordinator.{
  Shared, set_stripe, Caller, idle, enqueueing, marking, Request, stripe_of, caller_step, Worker,
  resting, clearing, due, inserting, visiting, executing, applying, finishing,
}
use gateway_controllers.LocalAsync.Coordinator.Stripes.{work_of, allow_stripe_work}

-- Whether the worker will take the work of a stripe, or put the limiter back for it.
abbrev pub Sees : ℕ → ℕ → Worker → Type 0
Sees i cursor resting = ⊥
Sees i cursor clearing = Unit {0}
Sees i cursor due = Unit {0}
Sees i cursor inserting = ⊥
Sees i cursor (visiting k t) =
    (t.more ≡ true) ⊎ ((m : ℕ) × (k ≤ m) × (m < 16) × ((cursor + m) % 16 ≡ i))
Sees i cursor (executing batch more) = more ≡ true
Sees i cursor (applying rest more err) = more ≡ true
Sees i cursor (finishing more) = more ≡ true

-- Whether the worker is between the active set and `enqueued`.
abbrev pub Carries : Worker → Type 0
Carries clearing = Unit {0}
Carries inserting = Unit {0}
Carries _ = ⊥

abbrev pub Somewhere : (ℕ → Caller) → Caller → Type 0
Somewhere callers x = (c : ℕ) × (callers c ≡ x)

-- A stripe with work is enqueued, or a call is about to enqueue it, or the worker sees it; and
-- what is enqueued is in the active set, or is being put there or taken out.
pub record IsAwake (callers : ℕ → Caller) (w : Worker) (s : Shared) : Type 0 where
  pub has_work :
      (i : ℕ)
      → i < 16
      → 0 < work_of (s.stripes i)
      → (s.enqueued ≡ true) ⊎ (Somewhere callers enqueueing ⊎ Sees i s.flush_cursor w)
  pub listed : s.enqueued ≡ true → (s.active ≡ true) ⊎ (Somewhere callers marking ⊎ Carries w)

abbrev pub put_caller : (ℕ → Caller) → ℕ → Caller → ℕ → Caller
put_caller f c x d = if c == d then x else f d

kept_caller :
    (f : ℕ → Caller) (c : ℕ) (x v : Caller)
    → f c ≢ v
    → Somewhere f v
    → Somewhere (put_caller f c x) v
kept_caller f c x v other (d, e) = (
  d,
  elim (Bool-cases (c == d)) [
    | inl same ↦ absurd (other (ap f (let q : c ≡ d = ground arith in q) ∙ e))
    | inr differs ↦ rw differs e
  ],
)

moved_caller : (f : ℕ → Caller) (c : ℕ) (x : Caller) → Somewhere (put_caller f c x) x
moved_caller f c x = (c, ground arith)

pub work_elsewhere :
    (i j : ℕ) (x : Stripe) (s : Shared)
    → 0 < work_of ((set_stripe i x s).stripes j)
    → ((i ≡ j) × (0 < work_of x)) ⊎ ((i ≢ j) × (0 < work_of (s.stripes j)))
unfolding set_stripe
work_elsewhere i j x s h = elim (Bool-cases (i == j)) [
  | inl same ↦ inl (ground arith, ground (arith, same))
  | inr differs ↦ inr (ground arith, ground (arith, differs))
]

pub less_work :
    (i j : ℕ) (x : Stripe) (s : Shared)
    → work_of x ≤ work_of (s.stripes i)
    → 0 < work_of ((set_stripe i x s).stripes j)
    → 0 < work_of (s.stripes j)
less_work i j x s le h = elim (work_elsewhere i j x s h) [
  | inl (same, more) ↦ subst (λ k. 0 < work_of (s.stripes k)) same (omega arith)
  | inr (_, before) ↦ before
]

decided-IsAwake :
    (f : ℕ → Caller) (c i : ℕ) (need : Bool) (x : Stripe) (w : Worker) (s : Shared)
    → (need ≡ false → work_of x ≤ work_of (s.stripes i))
    → f c ≡ idle
    → IsAwake f w s
    → IsAwake (put_caller f c (if need then enqueueing else idle)) w (set_stripe i x s)
unfolding set_stripe
decided-IsAwake f c i true x w s quiet e a = record {
  has_work = λ j lt h. inr (inl (moved_caller f c enqueueing));
  listed = λ on. elim (a.listed on) [
    | inl listed ↦ inl listed
    | inr (inl m) ↦ inr (inl (kept_caller f c enqueueing marking (λ bad. cc) m))
    | inr (inr carried) ↦ inr (inr carried)
  ];
}
decided-IsAwake f c i false x w s quiet e a = record {
  has_work = λ j lt h. elim (a.has_work j lt (less_work i j x s (quiet refl) h)) [
    | inl on ↦ inl on
    | inr (inl m) ↦ inr (inl (kept_caller f c idle enqueueing (λ bad. cc) m))
    | inr (inr seen) ↦ inr (inr seen)
  ];
  listed = λ on. elim (a.listed on) [
    | inl listed ↦ inl listed
    | inr (inl m) ↦ inr (inl (kept_caller f c idle marking (λ bad. cc) m))
    | inr (inr carried) ↦ inr (inr carried)
  ];
}

begin-IsAwake :
    (cfg : Config) (f : ℕ → Caller) (c : ℕ) (q : Request) (w : Worker) (s : Shared)
    → f c ≡ idle
    → IsAwake f w s
    → IsAwake (put_caller f c (caller_step cfg q idle s).0) w (caller_step cfg q idle s).1
unfolding caller_step
begin-IsAwake cfg f c q w s e a =
    let i = stripe_of cfg q.key in
    let d = allow_stripe cfg s.redis_down q.now q.key q.n (s.stripes i) in
    decided-IsAwake f c i d.need_enqueue d.stripe w s
      (allow_stripe_work cfg s.redis_down q.now q.key q.n (s.stripes i)) e a

swap-IsAwake :
    (cfg : Config) (f : ℕ → Caller) (c : ℕ) (q : Request) (w : Worker) (s : Shared)
    → f c ≡ enqueueing
    → IsAwake f w s
    → IsAwake
        (put_caller f c (caller_step cfg q enqueueing s).0)
        w
        (caller_step cfg q enqueueing s).1
unfolding caller_step
swap-IsAwake cfg f c q w s e a = elim (Bool-cases s.enqueued) [
  | inl set ↦
      rw (set, caller_step)
        (record {
          has_work = λ i _ _. inl refl;
          listed = λ _. elim (a.listed set) [
            | inl on ↦ inl on
            | inr (inl m) ↦ inr (inl (kept_caller f c idle marking (λ bad. cc) m))
            | inr (inr x) ↦ inr (inr x)
          ];
        })
  | inr clear ↦
      rw (clear, caller_step)
        (record {
          has_work = λ i _ _. inl refl;
          listed = λ _. inr (inl (moved_caller f c marking));
        })
]

mark-IsAwake :
    (cfg : Config) (f : ℕ → Caller) (c : ℕ) (q : Request) (w : Worker) (s : Shared)
    → f c ≡ marking
    → IsAwake f w s
    → IsAwake (put_caller f c (caller_step cfg q marking s).0) w (caller_step cfg q marking s).1
unfolding caller_step
mark-IsAwake cfg f c q w s e a = record {
  has_work = λ i lt h. elim (a.has_work i lt h) [
    | inl on ↦ inl on
    | inr (inl m) ↦ inr (inl (kept_caller f c idle enqueueing (λ bad. cc) m))
    | inr (inr x) ↦ inr (inr x)
  ];
  listed = λ _. inl refl;
}

pub call-IsAwake :
    (cfg : Config) (f : ℕ → Caller) (c : ℕ) (q : Request) (w : Worker) (s : Shared) (p : Caller)
    → f c ≡ p
    → IsAwake f w s
    → IsAwake (put_caller f c (caller_step cfg q p s).0) w (caller_step cfg q p s).1
call-IsAwake cfg f c q w s idle e a = begin-IsAwake cfg f c q w s e a
call-IsAwake cfg f c q w s enqueueing e a = swap-IsAwake cfg f c q w s e a
call-IsAwake cfg f c q w s marking e a = mark-IsAwake cfg f c q w s e a
