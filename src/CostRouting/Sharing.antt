-- ===== src/CostRouting/Sharing.antt =====
-- The cache of limiters that policy instances share (sharedLimiter of
-- policies/cost-based-model-routing/budget.go), whose calls hold one lock. `Lim` is a limiter.
pub mod Holders
pub mod Counts
use text.Mathlib.Text.{◌==◌ as str_eq}
use text.Mathlib.TextEquality.{eq_iff}
use gateway_controllers.Prelude.{
  ℕ, zero, suc, ◌+◌, ◌-◌, ◌<◌, ◌≡◌, refl, sym, ◌∙◌, ap, subst, ◌≢◌, inl, inr, String, Bool, true,
  false, Option, none, some, [], ◌∷◌, leb, arith, Bool-cases, Option-cases, if◌then◌else◌,
}
use gateway_controllers.Prelude.Table.{Table, get, put, delete, get-delete, get-put}
use gateway_controllers.Limiter.{Outcome, Outcome-cases, ok, err, panic}

-- The reference count is removed with its entry when it would not stay positive, so it is no
-- negative number.
pub record LimiterEntry (Lim : Type 0) : Type 0 where
  pub lim : Lim
  pub ref_count : ℕ

pub record LimiterCache (Lim : Type 0) : Type 0 where
  pub entries : Table (LimiterEntry Lim)
  pub reconcile : Table String

abbrev pub is_key : String → Option String → Bool
is_key k none = false
is_key k (some j) = str_eq j k

module _ {Lim : Type 0} where
  -- The reference that an instance had before is given back, where it was another one.
  unfoldable pub release : Option String → String → LimiterCache Lim → LimiterCache Lim
  release none cache_key s = s
  release (some k) cache_key s = if str_eq k cache_key then s else elim (get s.entries k) [
    | none ↦ s
    | some stale ↦
        if leb stale.ref_count 1 then record s { entries = delete k s.entries } else record s {
          entries = put k (record stale { ref_count = stale.ref_count - 1 }) s.entries;
        }
  ]

  unfoldable pub hold :
      String → String → LimiterEntry Lim → LimiterCache Lim → Outcome Lim × LimiterCache Lim
  hold cache_key reconcile_key entry s = (
    ok entry.lim,
    release (get s.reconcile reconcile_key) cache_key (record s {
      entries = put cache_key entry s.entries;
      reconcile = put reconcile_key cache_key s.reconcile;
    }),
  )

  -- sharedLimiter, where `create` is what limiter.CreateLimiter answers.
  unfoldable pub shared_limiter :
      String → String → Outcome Lim → LimiterCache Lim → Outcome Lim × LimiterCache Lim
  shared_limiter cache_key reconcile_key create s = elim (get s.entries cache_key) [
    | some entry ↦
        hold cache_key reconcile_key
          (if is_key cache_key (get s.reconcile reconcile_key)
            then entry
            else record entry { ref_count = entry.ref_count + 1 })
          s
    | none ↦ elim create [
      | ok lim ↦ hold cache_key reconcile_key (record { lim = lim; ref_count = 1 }) s
      | err e ↦ (err e, s)
      | panic ↦ (panic, s)
    ]
  ]
