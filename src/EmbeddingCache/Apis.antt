-- ===== src/EmbeddingCache/Apis.antt =====
-- The cache of an API that an operation creates where it is missing.
use text.Mathlib.TextEquality.{eq_iff}
use gateway_controllers.Prelude.{◌≡◌, refl, [], String, some, inl, inr, Option-cases, arith}
use gateway_controllers.Prelude.Table.{get, get-put, All, All-get, All-put}
use gateway_controllers.Limiter.{Instant}
use gateway_controllers.EmbeddingCache.{
  Store, create_api, ensure_api, evict_lru_api_if_needed, ApiCache,
}
use gateway_controllers.EmbeddingCache.Lru.{evict_lru-All}

module _ {E : Type 0} where
  by_access : ApiCache E → Instant
  by_access c = c.last_accessed

  abbrev pub empty_api : Instant → ApiCache E
  empty_api now = record { tools = []; last_accessed = now }

  pub create_api-All :
      (Q : String → ApiCache E → Type 0) (now : Instant) (api : String) (s : Store E)
      → Q api (empty_api now)
      → All Q s.cache
      → All Q (create_api now api s).cache
  unfolding create_api evict_lru_api_if_needed
  create_api-All Q now api s q all =
      All-put Q api _ _ q
        (evict_lru-All (λ (c : ApiCache E). c.last_accessed) Q s.max_apis s.cache all)

  -- What holds of each API holds of the one that is there afterwards, and still of each.
  pub ensure_api-All :
      (Q : String → ApiCache E → Type 0) (now : Instant) (api : String) (s : Store E)
      → Q api (empty_api now)
      → All Q s.cache
      → Q api (ensure_api now api s).0 × All Q (ensure_api now api s).1.cache
  unfolding ensure_api
  ensure_api-All Q now api s q all = elim (Option-cases (get s.cache api)) [
    | inl e ↦ rw (e, ensure_api) (q, create_api-All Q now api s q all)
    | inr (c, e) ↦ rw (e, ensure_api) (All-get Q s.cache api c all e, all)
  ]

  -- Nothing else of the store changes.
  pub ensure_api_limits :
      (now : Instant) (api : String) (s : Store E)
      → ((ensure_api now api s).1.max_apis ≡ s.max_apis)
        × ((ensure_api now api s).1.max_tools_per_api ≡ s.max_tools_per_api)
  unfolding ensure_api create_api evict_lru_api_if_needed
  ensure_api_limits now api s = elim (Option-cases (get s.cache api)) [
    | inl e ↦ rw (e, ensure_api) (refl, refl)
    | inr (c, e) ↦ rw (e, ensure_api) (refl, refl)
  ]

  -- The API that was ensured is there, so writing it again does not add one.
  pub ensure_api_there :
      (now : Instant) (api : String) (s : Store E)
      → get (ensure_api now api s).1.cache api ≡ some (ensure_api now api s).0
  unfolding ensure_api create_api
  ensure_api_there now api s = elim (Option-cases (get s.cache api)) [
    | inl e ↦
        rw (e, ensure_api)
          (ground (
            arith,
            get-put api (empty_api now) (evict_lru_api_if_needed s).cache api,
            eq_iff api api,
          ))
    | inr (c, e) ↦ rw (e, ensure_api) e
  ]
