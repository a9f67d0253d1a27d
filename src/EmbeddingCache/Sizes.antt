-- ===== src/EmbeddingCache/Sizes.antt =====
-- About the operations of embeddingcache.go: the sizes of the store.
use text.Mathlib.Text.{◌==◌ as str_eq}
use gateway_controllers.Prelude.{
  ◌≡◌, ℕ, ◌≤◌, ◌<◌, List, [], ◌∷◌, String, false, none, some, inl, inr, length, Each, Option-cases,
  arith,
}
use gateway_controllers.Prelude.Table.{
  get, put, All, All-get, All-map, All-put, All-delete, length-delete-lt, length-delete-le,
}
use gateway_controllers.Prelude.Int.{pos_part}
use gateway_controllers.Limiter.{Instant}
use gateway_controllers.EmbeddingCache.{
  Store, create_api, ensure_api, get_api_cache, add_api_cache, get_entry, add_entry, bulk_add_tools,
  remove_api, clear_all, set_cache_limits, evict_lru_api_if_needed, new_store, ApiCache, evict_lru,
}
use gateway_controllers.EmbeddingCache.Operations.{
  Operation, limits, read_api, add_api, read, add, bulk, remove, clear, perform, perform_all,
}
use gateway_controllers.EmbeddingCache.ToolSizes.{
  IsSound, add_tool-IsSound, bulk_add-IsSound, put_old-IsSound,
}
use gateway_controllers.EmbeddingCache.Apis.{
  create_api-All, ensure_api-All, ensure_api_limits, ensure_api_there,
}
use gateway_controllers.EmbeddingCache.Lru.{
  Named, Distinct, put-Distinct, delete-Distinct, evict_lru-Distinct, evict_lru_room,
}

-- At most so many APIs, each with a name and at most so many tools; the limits of the store are not
-- above these bounds, and no key stands twice.
pub record IsBounded {E : Type 0} (apis tools : ℕ) (s : Store E) : Type 0 where
  pub few_apis : length s.cache ≤ apis
  pub api_limit : s.max_apis ≤ apis
  pub tool_limit : s.max_tools_per_api ≤ tools
  pub distinct : Distinct s.cache
  pub sound : All (λ api c. (str_eq api "" ≡ false) × IsSound tools c.tools) s.cache

-- The operations that keep to the bounds, with keys that are not empty.
abbrev pub KeepsTo : {E : Type 0} → ℕ → ℕ → Operation E → Type 0
KeepsTo apis tools (limits a t) = (pos_part a ≤ apis) × (pos_part t ≤ tools)
KeepsTo apis tools (read_api now api) = Unit {0}
KeepsTo apis tools (add_api now api) = str_eq api "" ≡ false
KeepsTo apis tools (read now now' api hash) = Unit {0}
KeepsTo apis tools (add now now' api hash name e) =
    (str_eq api "" ≡ false) × (str_eq hash "" ≡ false)
KeepsTo apis tools (bulk now clock api ts) =
    (str_eq api "" ≡ false) × Each (λ t. str_eq t.hash_key "" ≡ false) ts
KeepsTo apis tools (remove api) = Unit {0}
KeepsTo apis tools clear = Unit {0}

module _ {E : Type 0} (apis tools : ℕ) where
  abbrev Good : String → ApiCache E → Type 0
  Good api c = (str_eq api "" ≡ false) × IsSound tools c.tools

  IsSound-empty : IsSound {E = E} tools []
  IsSound-empty = record { distinct = tt; named = tt; within = omega arith }

  Named-apis : (s : Store E) → IsBounded apis tools s → Named s.cache
  Named-apis s b = All-map Good (λ api _. str_eq api "" ≡ false) s.cache (λ _ _ g. g.0) b.sound

  create_api-IsBounded :
      (now : Instant) (api : String) (s : Store E)
      → 0 < apis
      → str_eq api "" ≡ false
      → get s.cache api ≡ none
      → IsBounded apis tools s
      → IsBounded apis tools (create_api now api s)
  create_api-IsBounded now api s some_room key new b = record {
    few_apis =
        unfold create_api evict_lru_api_if_needed put in
        omega (
          arith,
          length-delete-le api (evict_lru (λ (c : ApiCache E). c.last_accessed) s.max_apis s.cache),
          evict_lru_room (λ (c : ApiCache E). c.last_accessed) s.max_apis apis s.cache b.distinct
              (Named-apis s b) b.api_limit some_room b.few_apis,
        );
    api_limit = unfold create_api evict_lru_api_if_needed in b.api_limit;
    tool_limit = unfold create_api evict_lru_api_if_needed in b.tool_limit;
    distinct =
        unfold create_api evict_lru_api_if_needed in
        put-Distinct api _ _ (evict_lru-Distinct _ s.max_apis s.cache b.distinct);
    sound = create_api-All Good now api s (key, IsSound-empty) b.sound;
  }

  ensure_api-IsBounded :
      (now : Instant) (api : String) (s : Store E)
      → 0 < apis
      → str_eq api "" ≡ false
      → IsBounded apis tools s
      → IsBounded apis tools (ensure_api now api s).1
  unfolding ensure_api
  ensure_api-IsBounded now api s some_room key b = elim (Option-cases (get s.cache api)) [
    | inl e ↦ rw (e, ensure_api) (create_api-IsBounded now api s some_room key e b)
    | inr (c, e) ↦ rw (e, ensure_api) b
  ]

  -- The cache of an API that is there is written again.
  write_api-IsBounded :
      (api : String) (c c' : ApiCache E) (s : Store E)
      → get s.cache api ≡ some c
      → IsSound tools c'.tools
      → IsBounded apis tools s
      → IsBounded apis tools (record s { cache = put api c' s.cache })
  write_api-IsBounded api c c' s there ok b = record {
    few_apis =
        unfold put in
        omega (arith, b.few_apis, length-delete-lt api s.cache (rw there (λ bad. cc)));
    api_limit = b.api_limit;
    tool_limit = b.tool_limit;
    distinct = put-Distinct api c' s.cache b.distinct;
    sound = All-put Good api c' s.cache ((All-get Good s.cache api c b.sound there).0, ok) b.sound;
  }

  -- The API that an operation ensures, and then writes.
  write_ensured :
      (now : Instant) (api : String) (c' : ApiCache E) (s : Store E)
      → 0 < apis
      → str_eq api "" ≡ false
      → IsBounded apis tools s
      → (IsSound tools (ensure_api now api s).0.tools → IsSound tools c'.tools)
      → IsBounded apis tools
          (record (ensure_api now api s).1 { cache = put api c' (ensure_api now api s).1.cache })
  write_ensured now api c' s some_room key b next =
      write_api-IsBounded api (ensure_api now api s).0 c' (ensure_api now api s).1
        (ensure_api_there now api s)
        (next (ensure_api-All Good now api s (key, IsSound-empty) b.sound).0.1)
        (ensure_api-IsBounded now api s some_room key b)

  read_api-IsBounded :
      (now : Instant) (api : String) (s : Store E)
      → IsBounded apis tools s
      → IsBounded apis tools (get_api_cache now api s).1
  unfolding get_api_cache
  read_api-IsBounded now api s b = elim (Option-cases (get s.cache api)) [
    | inl e ↦ rw (e, get_api_cache) b
    | inr (c, e) ↦
        rw (e, get_api_cache)
          (write_api-IsBounded api c _ s e (All-get Good s.cache api c b.sound e).1 b)
  ]

  add_api-IsBounded :
      (now : Instant) (api : String) (s : Store E)
      → 0 < apis
      → str_eq api "" ≡ false
      → IsBounded apis tools s
      → IsBounded apis tools (add_api_cache now api s)
  unfolding add_api_cache
  add_api-IsBounded now api s some_room key b = elim (Option-cases (get s.cache api)) [
    | inl e ↦ rw (e, add_api_cache) (create_api-IsBounded now api s some_room key e b)
    | inr (c, e) ↦ rw (e, add_api_cache) b
  ]

  read_tool-IsBounded :
      (now now' : Instant) (api hash : String) (s : Store E)
      → IsBounded apis tools s
      → IsBounded apis tools (get_entry now now' api hash s).1
  unfolding get_entry
  read_tool-IsBounded now now' api hash s b = elim (Option-cases (get s.cache api)) [
    | inl e ↦ rw (e, get_entry) b
    | inr (c, e) ↦ elim (Option-cases (get c.tools hash)) [
      | inl e' ↦ rw (e, get_entry) (rw e' b)
      | inr (x, e') ↦
          rw (e, get_entry)
            (rw e' (
              write_api-IsBounded api c _ s e
                (put_old-IsSound tools hash _ x c.tools e' (All-get Good s.cache api c b.sound e).1)
                b))
    ]
  ]

  -- Every operation that keeps to the bounds keeps the store within them.
  pub perform-IsBounded :
      (op : Operation E) (s : Store E)
      → 0 < apis
      → 0 < tools
      → KeepsTo apis tools op
      → IsBounded apis tools s
      → IsBounded apis tools (perform op s)
  unfolding perform
  perform-IsBounded (limits a t) s _ _ keeps b = unfold set_cache_limits in ground arith
  perform-IsBounded (read_api now api) s _ _ keeps b = read_api-IsBounded now api s b
  perform-IsBounded (add_api now api) s some_apis _ keeps b =
      add_api-IsBounded now api s some_apis keeps b
  perform-IsBounded (read now now' api hash) s _ _ keeps b =
      read_tool-IsBounded now now' api hash s b
  perform-IsBounded (add now now' api hash name x) s some_apis some_tools (key, key') b =
      unfold add_entry in
      write_ensured now api _ s some_apis key b (
        add_tool-IsSound _ tools now' hash name x _
          (omega (arith, b.tool_limit, (ensure_api_limits now api s).1)) some_tools key')
  perform-IsBounded (bulk now clock api []) s _ _ keeps b = unfold bulk_add_tools in b
  perform-IsBounded (bulk now clock api (t ∷ ts)) s some_apis _ (key, keys) b =
      unfold bulk_add_tools in
      write_ensured now api _ s some_apis key b (
        bulk_add-IsSound clock _ tools (t ∷ ts) _
          (omega (arith, b.tool_limit, (ensure_api_limits now api s).1)) keys)
  perform-IsBounded (remove api) s _ _ keeps b =
      unfold remove_api in
      record {
        few_apis = omega (arith, b.few_apis, length-delete-le api s.cache);
        api_limit = b.api_limit;
        tool_limit = b.tool_limit;
        distinct = delete-Distinct api s.cache b.distinct;
        sound = All-delete Good api s.cache b.sound;
      }
  perform-IsBounded clear s _ _ keeps b =
      unfold clear_all in
      record {
        few_apis = omega arith;
        api_limit = b.api_limit;
        tool_limit = b.tool_limit;
        distinct = tt;
        sound = tt;
      }

  perform_all-IsBounded :
      (ops : List (Operation E)) (s : Store E)
      → 0 < apis
      → 0 < tools
      → Each (KeepsTo apis tools) ops
      → IsBounded apis tools s
      → IsBounded apis tools (perform_all ops s)
  unfolding perform_all
  perform_all-IsBounded [] s h h' keeps b = b
  perform_all-IsBounded (op ∷ ops) s h h' (keep, keeps) b =
      perform_all-IsBounded ops (perform op s) h h' keeps (perform-IsBounded op s h h' keep b)

  -- Whatever operations are performed on a new store, with names and hashes that are not empty and
  -- no limits above the bounds, which are at least the defaults: there are never more APIs than
  -- the first bound, and no API has more tools than the second.
  pub store_bounded :
      (ops : List (Operation E))
      → 25 ≤ apis
      → 200 ≤ tools
      → Each (KeepsTo apis tools) ops
      → (length (perform_all ops new_store).cache ≤ apis)
        × All (λ _ c. length c.tools ≤ tools) (perform_all ops new_store).cache
  unfolding new_store
  store_bounded ops h h' keeps =
      let b = perform_all-IsBounded ops new_store (omega arith) (omega arith) keeps (record {
        few_apis = omega arith;
        api_limit = h;
        tool_limit = h';
        distinct = tt;
        sound = tt;
      }) in
      (b.few_apis, All-map Good (λ _ c. length c.tools ≤ tools) _ (λ _ _ g. g.1.within) b.sound)
