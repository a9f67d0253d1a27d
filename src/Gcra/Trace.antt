-- ===== src/Gcra/Trace.antt =====
-- Calls of AllowN of the GCRA limiter in sequence: the rate over time.
use gateway_controllers.Prelude.{
  ◌≡◌, refl, String, Bool, true, false, ℕ, ◌+◌, ◌*◌, ◌/◌, ◌≤◌, arith, if◌then◌else◌, Option, none,
  some, List, [], ◌∷◌,
}
use gateway_controllers.Prelude.Int.{
  pos, pos_part, ◌+ℤ◌, ◌-ℤ◌, ◌≤ℤ◌, +ℤ_parts, -ℤ_parts, parts_apart,
}
use native.Mathlib.Nat.{le-div_iff_mul-le, add-mul, zero-mul, add-mul-div_right}
use gateway_controllers.Limiter.{Instant, Floats}
use gateway_controllers.Gcra.{MemoryLimiter, TatEntry, load_tat, entry_tat}
use gateway_controllers.Gcra.{allow_n}
use gateway_controllers.Gcra.Remaining.{IsSane, interval_pos, past_ahead}
use text.Mathlib.Text.{◌==◌ as str_eq}
use gateway_controllers.Gcra.Allow.{backlog}
use gateway_controllers.Gcra.Available.{IsLasting, entry_tat-ahead}
use gateway_controllers.Gcra.Rate.{after, passed, IsPaced, allow_n_Spends}

-- A call: how long after the call before, for which key, at what cost.
pub record Call : Type 0 where
  pub wait : ℕ
  pub key : String
  pub cost : ℕ

module _ (fl : Floats) where
  unfoldable pub finish : Instant → MemoryLimiter → List Call → MemoryLimiter
  finish now m [] = m
  finish now m (x ∷ xs) =
      let now' = now +ℤ pos x.wait in
      finish now' (after m (allow_n fl now' x.key (pos x.cost) m)) xs

  -- The tokens of a key that a sequence of calls lets through.
  unfoldable pub total : String → Instant → MemoryLimiter → List Call → ℕ
  total k now m [] = 0
  total k now m (x ∷ xs) =
      let now' = now +ℤ pos x.wait in
      let o = allow_n fl now' x.key (pos x.cost) m in
      (if str_eq x.key k then passed x.cost o else 0) + total k now' (after m o) xs

unfoldable pub elapsed : List Call → ℕ
elapsed [] = 0
elapsed (x ∷ xs) = x.wait + elapsed xs

entry_wait :
    (now : Instant) (w : ℕ) (o : Option TatEntry)
    → ((e : TatEntry) → o ≡ some e → e.tat ≤ℤ e.expiration)
    → (pos_part (entry_tat (now +ℤ pos w) o -ℤ (now +ℤ pos w)) ≤ pos_part (entry_tat now o -ℤ now))
      × (pos_part (entry_tat now o -ℤ now)
          ≤ pos_part (entry_tat (now +ℤ pos w) o -ℤ (now +ℤ pos w)) + w)
entry_wait now w none h =
    rw (past_ahead now now (omega arith), past_ahead (now +ℤ pos w) (now +ℤ pos w) (omega arith))
      (omega arith, omega arith)
entry_wait now w (some e) h =
    rw (entry_tat-ahead now e (h e refl), entry_tat-ahead (now +ℤ pos w) e (h e refl))
      (ground (
        arith,
        +ℤ_parts now (pos w),
        -ℤ_parts e.tat now,
        -ℤ_parts e.tat (now +ℤ pos w),
        parts_apart (e.tat -ℤ now),
        parts_apart (e.tat -ℤ (now +ℤ pos w)),
      ))

if-mul : (c : Bool) (p ei : ℕ) → (if c then p else 0) * ei ≡ (if c then p * ei else 0)
if-mul true p ei = refl
if-mul false p ei = zero-mul ei

-- Waiting works a backlog off, by one nanosecond in each nanosecond at most.
backlog_wait :
    (now : Instant) (w : ℕ) (k : String) (m : MemoryLimiter)
    → IsLasting m
    → (backlog (now +ℤ pos w) k m ≤ backlog now k m)
      × (backlog now k m ≤ backlog (now +ℤ pos w) k m + w)
unfolding backlog load_tat
backlog_wait now w k m v = entry_wait now w (m.data_of k) (v.lasting k)

IsPaced-wait :
    (l d b : ℕ) (now : Instant) (w : ℕ) (m : MemoryLimiter)
    → IsPaced l d b now m
    → IsPaced l d b (now +ℤ pos w) m
IsPaced-wait l d b now w m v = record {
  policy_is = v.policy_is;
  lasting = v.lasting;
  ahead = λ k. omega (arith, v.ahead k, backlog_wait now w k m v.lasting);
}

module _ (fl : Floats) (l d b : ℕ) (sane : IsSane l d b) (k : String) where
  -- What the calls let through moves the key ahead, and the elapsed time works it off.
  total_accounts :
      (now : Instant) (m : MemoryLimiter) (xs : List Call)
      → IsPaced l d b now m
      → total fl k now m xs * (d / l) + backlog now k m ≤ elapsed xs + b * (d / l)
  unfolding total elapsed
  total_accounts now m [] v = omega (arith, v.ahead k, zero-mul (d / l))
  total_accounts now m (x ∷ xs) v =
      let now' : Instant = now +ℤ pos x.wait in
      let call =
        allow_n_Spends fl l d b sane now' x.key x.cost m (IsPaced-wait l d b now x.wait m v) in
      let granted = passed x.cost (allow_n fl now' x.key (pos x.cost) m) in
      let rest =
        total_accounts now' (after m (allow_n fl now' x.key (pos x.cost) m)) xs call.paced in
      omega (
        arith,
        rest,
        call.spent k,
        backlog_wait now x.wait k m v.lasting,
        add-mul (if str_eq x.key k then granted else 0)
            (total fl k now' (after m (allow_n fl now' x.key (pos x.cost) m)) xs) (d / l),
        if-mul (str_eq x.key k) granted (d / l),
      )

  -- From a paced state of a sane policy, over any calls of AllowN on any keys and at any costs, in
  -- which time does not run back, one key gets at most the burst and one token for each whole
  -- emission interval that has elapsed.
  pub total-le-rate :
      (now : Instant) (m : MemoryLimiter) (xs : List Call)
      → IsPaced l d b now m
      → total fl k now m xs ≤ b + elapsed xs / (d / l)
  total-le-rate now m xs v =
      let spent : total fl k now m xs * (d / l) ≤ elapsed xs + b * (d / l) =
        omega (arith, total_accounts now m xs v) in
      let tokens : total fl k now m xs ≤ (elapsed xs + b * (d / l)) / (d / l) =
        (le-div_iff_mul-le (interval_pos l d b sane)).1 spent in
      omega (arith, tokens, add-mul-div_right (elapsed xs) b (interval_pos l d b sane))
