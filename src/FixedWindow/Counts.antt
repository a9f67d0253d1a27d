-- ===== src/FixedWindow/Counts.antt =====
-- What the operations of the fixed-window limiter do to the counts.
use gateway_controllers.Prelude.{◌≡◌, refl, String, ◌^◌, arith, if◌then◌else◌, Option, none, some}
use gateway_controllers.Prelude.Int.{
  ℤ, pos, ◌+ℤ◌, ◌-ℤ◌, ◌≤ℤ◌, ◌<ℤ◌, lt_ℤ, +ℤ_parts, eq_of_parts, add64, add64_parts,
}
use gateway_controllers.Limiter.{Clocks, minute, truncate}
use gateway_controllers.FixedWindow.{
  Policy, MemoryLimiter, WindowEntry, window_start, window_end, entry_count, current_count,
  store_count,
}
use text.Mathlib.Text.{◌==◌ as str_eq}
use text.Mathlib.TextEquality.{eq_iff}

-- Instants of one window.
abbrev pub SameWindow : Policy → Clocks → Clocks → Type 0
SameWindow p c d = window_start p c.now ≡ window_start p d.now

-- A policy whose sums with a cost below 2 ^ 62 fit an int64.
pub record IsSane (p : Policy) : Type 0 where
  pub long : pos 0 <ℤ p.duration
  pub some_quota : pos 0 ≤ℤ p.limit
  pub small : p.limit <ℤ pos (2 ^ 62)

-- A cost that is not negative and below 2 ^ 62.
abbrev pub IsCost : ℤ → Type 0
IsCost n = (pos 0 ≤ℤ n) × (n <ℤ pos (2 ^ 62))

-- Every stored count is between 0 and the limit, and is kept until its window ends at least.
pub record IsWithin (m : MemoryLimiter) : Type 0 where
  pub sane : IsSane m.policy
  pub counts :
      (k : String) (e : WindowEntry)
      → m.data_of k ≡ some e
      → (pos 0 ≤ℤ e.count) × (e.count ≤ℤ m.policy.limit)
  pub lasting :
      (k : String) (e : WindowEntry)
      → m.data_of k ≡ some e
      → e.start +ℤ m.policy.duration ≤ℤ e.expiration

pub truncate_bounds : (t d : ℤ) → pos 0 <ℤ d → (truncate t d ≤ℤ t) × (t <ℤ truncate t d +ℤ d)
unfolding truncate ◌+ℤ◌ ◌-ℤ◌
truncate_bounds t d h = ground arith

pub window_bounds :
    (p : Policy) (t : ℤ) → pos 0 <ℤ p.duration → (window_start p t ≤ℤ t) × (t <ℤ window_end p t)
unfolding window_end window_start
window_bounds p t h = truncate_bounds t p.duration h

-- What was stored is read back during the same window, and other keys are not touched.
pub current_count-store_count :
    (c d : Clocks) (key j : String) (count : ℤ) (m : MemoryLimiter)
    → pos 0 <ℤ m.policy.duration
    → SameWindow m.policy c d
    → current_count d j (store_count c key count m)
      ≡ (if str_eq key j then count else current_count d j m)
unfolding current_count store_count window_end
current_count-store_count c d key j count m h w = ground (
  arith,
  window_bounds m.policy d.now h,
  +ℤ_parts (window_start m.policy c.now) m.policy.duration,
  +ℤ_parts (window_start m.policy c.now +ℤ m.policy.duration) minute,
)

pub policy-store_count :
    (c : Clocks) (key : String) (count : ℤ) (m : MemoryLimiter)
    → (store_count c key count m).policy ≡ m.policy
unfolding store_count
policy-store_count c key count m = refl

entry_count_bounds :
    (m : MemoryLimiter) (ws now : ℤ) (k : String) (o : Option WindowEntry)
    → IsWithin m
    → m.data_of k ≡ o
    → (pos 0 ≤ℤ entry_count ws now o) × (entry_count ws now o ≤ℤ m.policy.limit)
entry_count_bounds m ws now k none v h = omega (arith, v.sane.some_quota)
entry_count_bounds m ws now k (some e) v h = ground (arith, v.counts k e h, v.sane.some_quota)

pub current_count_bounds :
    (c : Clocks) (k : String) (m : MemoryLimiter)
    → IsWithin m
    → (pos 0 ≤ℤ current_count c k m) × (current_count c k m ≤ℤ m.policy.limit)
unfolding current_count
current_count_bounds c k m v = entry_count_bounds m _ _ k (m.data_of k) v refl

entry_count-SameWindow :
    (c d : Clocks) (m : MemoryLimiter) (k : String) (o : Option WindowEntry)
    → IsWithin m
    → SameWindow m.policy c d
    → m.data_of k ≡ o
    → entry_count (window_start m.policy c.now) c.now o
      ≡ entry_count (window_start m.policy d.now) d.now o
unfolding window_end
entry_count-SameWindow c d m k none v w h = refl
entry_count-SameWindow c d m k (some e) v w h = ground (
  arith,
  v.lasting k e h,
  window_bounds m.policy c.now v.sane.long,
  window_bounds m.policy d.now v.sane.long,
  +ℤ_parts (window_start m.policy c.now) m.policy.duration,
  +ℤ_parts (window_start m.policy d.now) m.policy.duration,
  +ℤ_parts e.start m.policy.duration,
)

-- The count does not depend on the instant within a window.
pub current_count-SameWindow :
    (c d : Clocks) (k : String) (m : MemoryLimiter)
    → IsWithin m
    → SameWindow m.policy c d
    → current_count c k m ≡ current_count d k m
unfolding current_count
current_count-SameWindow c d k m v w = entry_count-SameWindow c d m k (m.data_of k) v w refl

pub store_count-IsWithin :
    (c : Clocks) (key : String) (count : ℤ) (m : MemoryLimiter)
    → IsWithin m
    → pos 0 ≤ℤ count
    → count ≤ℤ m.policy.limit
    → IsWithin (store_count c key count m)
unfolding store_count window_end
store_count-IsWithin c key count m v lo hi = record {
  sane = v.sane;
  counts = λ k e p. ground (arith, v.counts k e);
  lasting = λ k e p.
      ground
        (arith, v.lasting k e, +ℤ_parts (window_start m.policy c.now +ℤ m.policy.duration) minute);
}

-- The state after a charge: the source stores nothing for an amount of 0.
abbrev pub charge : Clocks → String → ℤ → MemoryLimiter → MemoryLimiter
charge c key amount m =
    if lt_ℤ (pos 0) amount then store_count c key (add64 (current_count c key m) amount) m else m

module _ (c : Clocks) (key : String) (n : ℤ) (m : MemoryLimiter) (v : IsWithin m) where
  -- A charge raises the count of its key, and of no other key.
  pub current_count-charge :
      (d : Clocks) (j : String)
      → IsCost n
      → SameWindow m.policy c d
      → current_count d j (charge c key n m)
        ≡ (if str_eq key j then current_count d j m +ℤ n else current_count d j m)
  current_count-charge d j h w = ground (
    arith,
    eq_iff key j,
    current_count-store_count c d key j (add64 (current_count c key m) n) m v.sane.long w,
    current_count-SameWindow c d j m v w,
    current_count_bounds c key m v,
    v.sane.small,
    add64_parts (current_count c key m) n,
    +ℤ_parts (current_count c key m) n,
    eq_of_parts (current_count c key m) (current_count c key m +ℤ n),
    eq_of_parts (add64 (current_count c key m) n) (current_count c key m +ℤ n),
  )

  -- A charge that fits the quota keeps the counts between 0 and the limit.
  pub charge-IsWithin :
      IsCost n → current_count c key m +ℤ n ≤ℤ m.policy.limit → IsWithin (charge c key n m)
  charge-IsWithin h fits = ground (
    arith,
    current_count_bounds c key m v,
    v.sane.small,
    v,
    add64_parts (current_count c key m) n,
    +ℤ_parts (current_count c key m) n,
    store_count-IsWithin c key (add64 (current_count c key m) n) m v,
  )

  pub policy-charge : (charge c key n m).policy ≡ m.policy
  policy-charge = ground (arith, policy-store_count c key (add64 (current_count c key m) n) m)
