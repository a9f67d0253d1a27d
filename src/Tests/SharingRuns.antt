-- ===== src/Tests/SharingRuns.antt =====
-- The cache of shared limiters, at a concrete state.
use text.Mathlib.TextEquality.{eq_iff}
use gateway_controllers.Prelude.{ℕ, ◌≡◌, refl, some, [], ◌∷◌, arith}
use gateway_controllers.Prelude.Table.{get}
use gateway_controllers.Limiter.{ok}
use gateway_controllers.CostRouting.Sharing.{LimiterEntry, LimiterCache, shared_limiter}
use gateway_controllers.CostRouting.Sharing.Counts.{
  IsCounted, shared_limiter-IsCounted, shared_limiter_keeps,
}

abbrev shared : LimiterCache ℕ
shared = record {
  entries = ("old", record { lim = 7; ref_count = 2 }) ∷ [];
  reconcile = ("api-a", "old") ∷ ("api-b", "old") ∷ [];
}

shared-IsCounted : IsCounted shared
unfolding get
shared-IsCounted = record {
  distinct = (refl, (refl, tt));
  counted = λ k. ground arith;
  positive = λ k e h. ground (arith, h);
}

shared_limiter-IsCounted_example : IsCounted (shared_limiter "new" "api-a" (ok 8) shared).1
shared_limiter-IsCounted_example =
    shared_limiter-IsCounted "new" "api-a" (ok 8) shared shared-IsCounted

shared_limiter_keeps_example :
    let s' = (shared_limiter "new" "api-a" (ok 8) shared).1 in
    (get s'.reconcile "api-b" ≡ some "old")
    × ((e' : LimiterEntry ℕ) × (get s'.entries "old" ≡ some e') × (e'.lim ≡ 7))
unfolding get
shared_limiter_keeps_example =
    shared_limiter_keeps "new" "api-a" (ok 8) shared "api-b" "old"
      (record { lim = 7; ref_count = 2 }) shared-IsCounted (ground (arith, eq_iff "api-b" "api-a"))
      refl refl
