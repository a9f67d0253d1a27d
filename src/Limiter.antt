-- ===== src/Limiter.antt =====
-- policies/advanced-ratelimit/limiter: what every rate limiter shares (interface.go, result.go,
-- clock.go), and the parts of Go's `time` package that the limiters call.
--
-- An instant is a number of nanoseconds since Go's zero time, 1 January of year 1, UTC; the zero
-- `time.Time` is 0. A `time.Duration` is an int64 number of nanoseconds.
use gateway_controllers.Prelude.{
  ℕ, ◌+◌, ◌-◌, ◌/◌, ◌%◌, ◌^◌, ◌<◌, ◌≡◌, refl, ◌⊎◌, inl, inr, String, Bool, Option, none, some,
  if◌then◌else◌,
}
use gateway_controllers.Prelude.Int.{ℤ, pos, negsuc, pos_part, ◌+ℤ◌, ◌-ℤ◌, le_ℤ, lt_ℤ}
use text.Mathlib.Text.{◌==◌ as str_eq}

abbrev pub Instant : Type 0
Instant = ℤ

abbrev pub Duration : Type 0
Duration = ℤ

abbrev pub second : Duration
second = pos 1_000_000_000

abbrev pub minute : Duration
minute = pos 60_000_000_000

abbrev pub max_int64 : ℤ
max_int64 = pos 9_223_372_036_854_775_807

abbrev pub min_int64 : ℤ
min_int64 = negsuc 9_223_372_036_854_775_807

-- `t.Add(d)`. Years beyond the range of a `time.Time` are not modelled.
abbrev pub time_add : Instant → Duration → Instant
time_add t d = t +ℤ d

-- `t.Sub(u)` saturates at the ends of a `time.Duration`.
unfoldable pub time_sub : Instant → Instant → Duration
time_sub t u =
    let d = t -ℤ u in
    if lt_ℤ max_int64 d then max_int64 else if lt_ℤ d min_int64 then min_int64 else d

-- The remainder that `t.Truncate(d)` takes off: `t` modulo `d`, never negative.
abbrev pub floor_mod : Instant → ℕ → ℕ
floor_mod (pos n) d = n % d
floor_mod (negsuc n) d = d - 1 - n % d

-- `t.Truncate(d)`: down to a multiple of `d` since the zero time; `t` where `d <= 0`.
unfoldable pub truncate : Instant → Duration → Instant
truncate t d = if le_ℤ d (pos 0) then t else t -ℤ pos (floor_mod t (pos_part d))

-- The two clocks of a call: `now` is the limiter's own clock, `wall` is what `time.Until` reads.
pub record Clocks : Type 0 where
  pub now : Instant
  pub wall : Instant

-- limiter.Result. The policy that the source copies into every result is left out.
pub record Result : Type 0 where
  pub allowed : Bool
  pub requested : ℤ
  pub consumed : ℤ
  pub overflow : ℤ
  pub limit : ℤ
  pub remaining : ℤ
  pub reset : Instant
  pub retry_after : Duration
  pub full_quota_at : Instant
  pub duration : Duration

-- `x < 0 ? 0 : x`
abbrev pub clamp_zero : ℤ → ℤ
clamp_zero a = if lt_ℤ a (pos 0) then pos 0 else a

-- `time.Until(t)`, at least 0.
abbrev pub until : Instant → Instant → Duration
until t wall = clamp_zero (time_sub t wall)

-- What a call comes to: a value, an error value, or a run-time panic.
pub data Outcome {ℓ} (A : Type ℓ) : Type ℓ where
  ok : A → Outcome A
  err : String → Outcome A
  panic : Outcome A

infixl 5 ◌>>=◌
abbrev pub ◌>>=◌ {ℓ κ} : {A : Type ℓ} {B : Type κ} → Outcome A → (A → Outcome B) → Outcome B
ok a >>= f = f a
err e >>= f = err e
panic >>= f = panic

pub Outcome-cases {ℓ} :
    {A : Type ℓ} (o : Outcome A)
    → ((a : A) × (o ≡ ok a)) ⊎ ((e : String) × (o ≡ err e)) ⊎ (o ≡ panic)
Outcome-cases (ok a) = inl (a, refl)
Outcome-cases (err e) = inr (inl (e, refl))
Outcome-cases panic = inr (inr refl)

-- A Go map with string keys. The iteration order of a Go map is not defined, and nothing here
-- depends on it.
abbrev pub Map {ℓ} : Type ℓ → Type ℓ
Map V = String → Option V

module _ {ℓ} {V : Type ℓ} where
  -- m[k] = v
  abbrev pub put : String → V → Map V → Map V
  put k v m j = if str_eq k j then some v else m j

  -- delete(m, k)
  abbrev pub delete : String → Map V → Map V
  delete k m j = if str_eq k j then none else m j

  -- `for k, v := range m { if test(v) { delete(m, k) } }`
  abbrev pub delete_where : (V → Bool) → Map V → Map V
  delete_where test m j = elim (m j) [ none ↦ none | some v ↦ if test v then none else some v ]

-- What the limiters use of Go's float64: `int64(math.Ceil(float64(a) / float64(b)))`. Floats are
-- not modelled; up to 2 ^ 53 both numbers are exact floats, and IEEE division rounds so that the
-- ceiling is the exact one.
pub record Floats : Type 0 where
  pub ceil_ratio : ℤ → ℤ → ℤ
  pub ceil_ratio_exact :
      (a b : ℕ)
      → 0 < b
      → a < 2 ^ 53
      → b < 2 ^ 53
      → ceil_ratio (pos a) (pos b) ≡ pos ((a + b - 1) / b)

-- A chain that succeeds succeeds at each step; what follows may use the step's value.
pub from_bind :
    {A B : Type 0} {P : Type 0} (o : Outcome A) (f : A → Outcome B) (b : B)
    → (o >>= f) ≡ ok b
    → ((a : A) → o ≡ ok a → f a ≡ ok b → P)
    → P
from_bind (ok a) f b h k = k a refl h
from_bind (err e) f b h k = cc
from_bind panic f b h k = cc

-- A property of the value, where there is one.
abbrev pub OfOk : {A : Type 0} → (A → Type 0) → Outcome A → Type 0
OfOk P (ok a) = P a
OfOk P (err e) = Unit {0}
OfOk P panic = Unit {0}
