-- ===== src/Gcra/Rate.antt =====
-- How much AllowN of the GCRA limiter lets through over time.
use gateway_controllers.Prelude.{
  ◌≡◌, refl, ℕ_discrete, dec_le, sym, String, Bool, true, false, ℕ, ◌+◌, ◌*◌, ◌/◌, ◌≤◌, ◌<◌, ◌^◌,
  arith, if◌then◌else◌,
}
use gateway_controllers.Prelude.Int.{
  pos, pos_part, ◌+ℤ◌, ◌-ℤ◌, ◌≤ℤ◌, int_laws, +ℤ_parts, -ℤ_parts, parts_apart,
}
use native.Mathlib.Nat.{div-le_self, zero-mul}
use gateway_controllers.Limiter.{Instant, Result, Floats, Outcome, ok, err, panic, Map}
use gateway_controllers.Gcra.{MemoryLimiter, TatEntry, load_tat}
use gateway_controllers.Gcra.{allow_n_at, allow_n, store_tat, later}
use gateway_controllers.Gcra.Remaining.{
  policy_of, IsSane, emission_interval_lem, allowance, allowance_lem,
}
use mathlib.Core.Path.{subst}
use text.Mathlib.Text.{◌==◌ as str_eq}
use text.Mathlib.TextEquality.{eq_iff}
use gateway_controllers.Gcra.Allow.{
  limiter_of, backlog, load_tat-store_tat, spare, granted, refused, advanced, cost_bound,
}
use gateway_controllers.Gcra.Available.{IsLasting}

later_ahead : (now : Instant) (y : ℕ) → pos_part (later (now +ℤ pos y) now -ℤ now) ≡ y
later_ahead now y =
    ground
      (arith, +ℤ_parts now (pos y), -ℤ_parts (now +ℤ pos y) now, parts_apart (now +ℤ pos y -ℤ now))

-- The limiter after a call, and the tokens that it let through.
abbrev pub after : MemoryLimiter → Outcome (Result × MemoryLimiter) → MemoryLimiter
after m (ok q) = q.1
after m (err e) = m
after m panic = m

abbrev pub passed : ℕ → Outcome (Result × MemoryLimiter) → ℕ
passed n (ok q) = if q.0.allowed then n else 0
passed n (err e) = 0
passed n panic = 0

-- At an instant every key is at most the whole burst ahead of the clock.
pub record IsPaced (l d b : ℕ) (now : Instant) (m : MemoryLimiter) : Type 0 where
  pub policy_is : m.policy ≡ policy_of l d b
  pub lasting : IsLasting m
  pub ahead : (k : String) → backlog now k m ≤ b * (d / l)

-- What a call comes to that let `g` tokens of a key through: the invariant, and every backlog.
pub record Spends (l d b : ℕ) (now : Instant) (key : String) (m m' : MemoryLimiter) (g : ℕ)
    : Type 0 where
  pub paced : IsPaced l d b now m'
  pub spent :
      (k : String) → backlog now k m' ≡ backlog now k m + (if str_eq key k then g * (d / l) else 0)

Spends-none :
    (l d b : ℕ) (now : Instant) (key : String) (m : MemoryLimiter)
    → IsPaced l d b now m
    → Spends l d b now key m m 0
Spends-none l d b now key m v = record { paced = v; spent = λ k. ground (arith, zero-mul (d / l)) }

module _ (fl : Floats) (l d b : ℕ) (sane : IsSane l d b) (now : Instant) (key : String) (n : ℕ)
    (entries : Map TatEntry) (v : IsPaced l d b now (limiter_of l d b entries)) where
  abbrev state : MemoryLimiter
  state = limiter_of l d b entries

  near : (k : String) → backlog now k state < 2 ^ 62
  near k = omega (arith, sane.short, v.ahead k)

  call_lem :
      allow_n fl now key (pos n) state ≡ ok (allow_n_at fl (pos (d / l)) now key (pos n) state)
  unfolding allow_n
  call_lem = rw (emission_interval_lem l d b sane.some_rate sane.bounded)

  stored_in_time : (y : ℕ) → y ≤ b * (d / l) → now +ℤ pos y ≤ℤ now +ℤ pos (d + allowance l d b sane)
  stored_in_time y h = omega (int_laws, allowance_lem l d b sane, div-le_self d l)

  module _ (asked : 0 < n) (fits : n ≤ spare fl l d b sane now key state) where
    abbrev next : MemoryLimiter
    next = advanced fl l d b sane now key n entries asked (near key)

    abbrev target : ℕ
    target = backlog now key state + n * (d / l)

    target_le : target ≤ b * (d / l)
    target_le = cost_bound fl l d b sane now key n entries asked (near key) fits

    advanced-IsLasting : IsLasting next
    unfolding store_tat
    advanced-IsLasting = record {
      lasting = λ k e p. ground (arith, v.lasting.lasting k e, stored_in_time target target_le);
    }

    advanced_backlog :
        (k : String) → backlog now k next ≡ (if str_eq key k then target else backlog now k state)
    unfolding backlog
    advanced_backlog k =
        rw
          (load_tat-store_tat now (now +ℤ pos target) (now +ℤ pos (d + allowance l d b sane)) key k
            state (stored_in_time target target_le))
          (pick (str_eq key k))
      where
        pick :
            (c : Bool)
            → pos_part ((if c then later (now +ℤ pos target) now else load_tat now k state) -ℤ now)
              ≡ (if c then target else pos_part (load_tat now k state -ℤ now))
        pick true = later_ahead now target
        pick false = refl

    advanced_Spends : Spends l d b now key state next n
    advanced_Spends = record {
      paced = record {
        policy_is = unfold store_tat in refl;
        lasting = advanced-IsLasting;
        ahead = λ k. ground (arith, advanced_backlog k, v.ahead k, target_le);
      };
      spent = λ k. ground (arith, advanced_backlog k, eq_iff key k);
    }

    granted_Spends :
        Spends l d b now key state
          (after state (allow_n fl now key (pos n) state))
          (passed n (allow_n fl now key (pos n) state))
    granted_Spends =
        let g = granted fl l d b sane now key n entries asked (near key) fits in
        rw (call_lem, g.0, g.2) advanced_Spends

  refused_Spends :
      0 < n
      → spare fl l d b sane now key state < n
      → Spends l d b now key state
          (after state (allow_n fl now key (pos n) state))
          (passed n (allow_n fl now key (pos n) state))
  refused_Spends asked over =
      let g = refused fl l d b sane now key n entries asked (near key) over in
      rw (call_lem, g.0, g.2) (Spends-none l d b now key state v)

  peek_Spends :
      n ≡ 0
      → Spends l d b now key state
          (after state (allow_n fl now key (pos n) state))
          (passed n (allow_n fl now key (pos n) state))
  peek_Spends none_asked = rw (call_lem, untouched, nothing) (Spends-none l d b now key state v)
    where
      untouched : (allow_n_at fl (pos (d / l)) now key (pos n) state).1 ≡ state
      untouched = unfold allow_n_at in ground arith

      nothing : (if (allow_n_at fl (pos (d / l)) now key (pos n) state).0.allowed then n else 0) ≡ 0
      nothing = ground arith

  allow_n_Spends-state :
      Spends l d b now key state
        (after state (allow_n fl now key (pos n) state))
        (passed n (allow_n fl now key (pos n) state))
  allow_n_Spends-state = elim (ℕ_discrete n 0) [
    | yes e ↦ peek_Spends e
    | no some_asked ↦ elim (dec_le n (spare fl l d b sane now key state)) [
      | yes fits ↦ granted_Spends (omega arith) fits
      | no over ↦ refused_Spends (omega arith) (omega arith)
    ]
  ]

-- A call of AllowN in a paced state of a sane policy leaves a paced state, in which every key is at
-- most the burst ahead of the clock, and it moves its key, and no other, ahead by exactly one
-- emission interval for each token that it lets through.
pub allow_n_Spends :
    (fl : Floats) (l d b : ℕ) (sane : IsSane l d b) (now : Instant) (key : String) (n : ℕ)
    (m : MemoryLimiter)
    → IsPaced l d b now m
    → Spends l d b now key m
        (after m (allow_n fl now key (pos n) m))
        (passed n (allow_n fl now key (pos n) m))
allow_n_Spends fl l d b sane now key n m v =
    subst
      (λ (s : MemoryLimiter).
        IsPaced l d b now s
        → Spends l d b now key s (after s (allow_n fl now key (pos n) s))
            (passed n (allow_n fl now key (pos n) s)))
      shape (allow_n_Spends-state fl l d b sane now key n m.data_of) v
  where
    shape : limiter_of l d b m.data_of ≡ m
    shape = λ i. record { data_of = m.data_of; policy = sym v.policy_is i }
