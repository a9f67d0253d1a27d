-- ===== src/EmbeddingCache.antt =====
-- policies/semantic-tool-filtering/embeddingcache.go: the store of tool embeddings, with at most so
-- many APIs and so many tools of each. Every operation holds the store's lock from its first line
-- to its last, so it is one function on the store. An embedding is a value of any type `E`: the
-- source copies it wherever it goes in or out. Logging is left out.
pub mod Operations
pub mod Lru
pub mod Tools
pub mod ToolSizes
pub mod Apis
pub mod Sizes
pub mod Lookups
pub mod Recall
use text.Mathlib.Text.{◌==◌ as str_eq}
use gateway_controllers.Prelude.{
  ℕ, ◌+◌, ◌-◌, List, [], ◌∷◌, ◌++◌, map, String, Bool, true, false, not, Option, none, some, ltb,
  leb, ◌==◌, if◌then◌else◌, length, take, drop,
}
use gateway_controllers.Prelude.Int.{ℤ, pos, pos_part, lt_ℤ}
use gateway_controllers.Prelude.Table.{Table, get, put, delete}
use gateway_controllers.Limiter.{Instant}

pub record EmbeddingEntry (E : Type 0) : Type 0 where
  pub name : String
  pub embedding : E
  pub last_accessed : Instant

pub record ApiCache (E : Type 0) : Type 0 where
  pub tools : Table (EmbeddingEntry E)
  pub last_accessed : Instant

-- EmbeddingCacheStore. SetCacheLimits lets only positive limits in, so they are numbers here.
pub record Store (E : Type 0) : Type 0 where
  pub cache : Table (ApiCache E)
  pub max_apis : ℕ
  pub max_tools_per_api : ℕ

pub record ToolEntry (E : Type 0) : Type 0 where
  pub hash_key : String
  pub name : String
  pub embedding : E

pub record BulkAddResult : Type 0 where
  pub added : List String
  pub skipped : List String
  pub cached : List String

-- What findLRUAPI and findLRUTool do in a round of their loops: `none` is `first`.
unfoldable pub older : String → Instant → Option (String × Instant) → Option (String × Instant)
older key accessed none = some (key, accessed)
older key accessed (some (lru, oldest)) =
    if lt_ℤ accessed oldest then some (key, accessed) else some (lru, oldest)

module _ {V : Type 0} (accessed : V → Instant) where
  unfoldable pub lru_loop : Table V → Option (String × Instant) → Option (String × Instant)
  lru_loop [] found = found
  lru_loop ((key, v) ∷ m) found = lru_loop m (older key (accessed v) found)

  unfoldable pub find_lru : Table V → String
  find_lru m = elim (lru_loop m none) [ none ↦ "" | some (key, oldest) ↦ key ]

  -- The two eviction functions, on the map that they look at.
  unfoldable pub evict_lru : ℕ → Table V → Table V
  evict_lru limit m =
      if leb limit (length m)
      then (if not (str_eq (find_lru m) "") then delete (find_lru m) m else m)
      else m

module _ {E : Type 0} where
  -- GetEmbeddingCacheStoreInstance, at its first call.
  unfoldable pub new_store : Store E
  new_store = record { cache = []; max_apis = 25; max_tools_per_api = 200 }

  unfoldable pub set_cache_limits : ℤ → ℤ → Store E → Store E
  set_cache_limits apis tools s = record s {
    max_apis = if lt_ℤ (pos 0) apis then pos_part apis else s.max_apis;
    max_tools_per_api = if lt_ℤ (pos 0) tools then pos_part tools else s.max_tools_per_api;
  }

  unfoldable pub evict_lru_api_if_needed : Store E → Store E
  evict_lru_api_if_needed s = record s {
    cache = evict_lru (λ (c : ApiCache E). c.last_accessed) s.max_apis s.cache;
  }

  unfoldable pub evict_lru_tool_if_needed : ℕ → ApiCache E → ApiCache E
  evict_lru_tool_if_needed limit c = record c {
    tools = evict_lru (λ (e : EmbeddingEntry E). e.last_accessed) limit c.tools;
  }

  unfoldable pub has_api : String → Store E → Bool
  has_api api s = elim (get s.cache api) [ none ↦ false | some c ↦ true ]

  -- `ecs.cache[api] = &APICache{...}` after an eviction, where the API is new.
  unfoldable pub create_api : Instant → String → Store E → Store E
  create_api now api s =
      let evicted = evict_lru_api_if_needed s in
      record evicted { cache = put api (record { tools = []; last_accessed = now }) evicted.cache }

  unfoldable pub get_api_cache :
      Instant → String → Store E → Option (Table (EmbeddingEntry E)) × Store E
  get_api_cache now api s = elim (get s.cache api) [
    | none ↦ (none, s)
    | some c ↦
        (some c.tools, record s { cache = put api (record c { last_accessed = now }) s.cache })
  ]

  unfoldable pub add_api_cache : Instant → String → Store E → Store E
  add_api_cache now api s = elim (get s.cache api) [ none ↦ create_api now api s | some c ↦ s ]

  -- The two times are those of the two calls of time.Now.
  unfoldable pub get_entry :
      Instant → Instant → String → String → Store E → Option (EmbeddingEntry E) × Store E
  get_entry now_api now_tool api hash s = elim (get s.cache api) [
    | none ↦ (none, s)
    | some c ↦ elim (get c.tools hash) [
      | none ↦ (none, s)
      | some e ↦
          let read = record e { last_accessed = now_tool } in
          (
            some read,
            record s {
              cache =
                  put api (record { tools = put hash read c.tools; last_accessed = now_api })
                    s.cache;
            },
          )
    ]
  ]

  -- The API's cache, that a call of AddEntry or BulkAddTools creates first where it is missing.
  unfoldable pub ensure_api : Instant → String → Store E → ApiCache E × Store E
  ensure_api now api s = elim (get s.cache api) [
    | none ↦ (record { tools = []; last_accessed = now }, create_api now api s)
    | some c ↦ (c, s)
  ]

  -- `for key, entry := range tools { if entry.Name == name { delete(tools, key); break } }`
  unfoldable pub find_named : String → Table (EmbeddingEntry E) → Option String
  find_named name [] = none
  find_named name ((key, e) ∷ m) =
      let rest = find_named name m in if str_eq e.name name then some key else rest

  unfoldable pub delete_named : String → Table (EmbeddingEntry E) → Table (EmbeddingEntry E)
  delete_named name m = elim (find_named name m) [ none ↦ m | some key ↦ delete key m ]

  -- AddEntry, on the tools of the API.
  unfoldable pub add_tool : ℕ → Instant → String → String → E → ApiCache E → ApiCache E
  add_tool limit now hash name embedding c =
      let renamed : ApiCache E = record c { tools = delete_named name c.tools } in
      let room : ApiCache E = elim (get renamed.tools hash) [
        | none ↦ evict_lru_tool_if_needed limit renamed
        | some e ↦ renamed
      ] in
      record room {
        tools =
            put hash (record { name = name; embedding = embedding; last_accessed = now })
              room.tools;
      }

  unfoldable pub add_entry : Instant → Instant → String → String → String → E → Store E → Store E
  add_entry now_api now_tool api hash name embedding s =
      let (c, s') = ensure_api now_api api s in
      let touched = record c { last_accessed = now_api } in
      record s' {
        cache =
            put api (add_tool s'.max_tools_per_api now_tool hash name embedding touched) s'.cache;
      }

  -- The first loop of BulkAddTools: the tools, the new ones of the list, and the names of those
  -- that are cached already. `clock` gives the time at which each of the list is handled.
  unfoldable pub classify :
      (ToolEntry E → Instant)
      → List (ToolEntry E)
      → Table (EmbeddingEntry E)
      → List (ToolEntry E)
      → List String
      → Table (EmbeddingEntry E) × List (ToolEntry E) × List String
  classify clock [] tools fresh cached = (tools, fresh, cached)
  classify clock (t ∷ ts) tools fresh cached = elim (get tools t.hash_key) [
    | some e ↦
        classify clock ts
          (put t.hash_key (record e { embedding = t.embedding; last_accessed = clock t }) tools)
          fresh (cached ++ (t.name ∷ []))
    | none ↦ classify clock ts (delete_named t.name tools) (fresh ++ (t ∷ [])) cached
  ]

  -- Its last loop.
  unfoldable pub add_new :
      (ToolEntry E → Instant)
      → List (ToolEntry E)
      → Table (EmbeddingEntry E)
      → Table (EmbeddingEntry E)
  add_new clock [] tools = tools
  add_new clock (t ∷ ts) tools =
      let entry : EmbeddingEntry E = record {
        name = t.name;
        embedding = t.embedding;
        last_accessed = clock t;
      } in
      add_new clock ts (put t.hash_key entry tools)

  unfoldable pub tool_name : ToolEntry E → String
  tool_name t = t.name

  -- BulkAddTools, on the tools of the API.
  unfoldable pub bulk_add :
      (ToolEntry E → Instant)
      → ℕ
      → List (ToolEntry E)
      → Table (EmbeddingEntry E)
      → BulkAddResult × Table (EmbeddingEntry E)
  unfolding tool_name
  bulk_add clock limit ts tools =
      let (kept, fresh, cached) = classify clock ts tools [] [] in
      let slots = limit - length kept in
      let count = if ltb slots (length fresh) then slots else length fresh in
      (
        record {
          added = map tool_name (take count fresh);
          skipped = if ltb slots (length fresh) then map tool_name (drop slots fresh) else [];
          cached = cached;
        },
        add_new clock (take count fresh) kept,
      )

  unfoldable pub bulk_add_tools :
      Instant
      → (ToolEntry E → Instant)
      → String
      → List (ToolEntry E)
      → Store E
      → BulkAddResult × Store E
  bulk_add_tools now clock api [] s = (record { added = []; skipped = []; cached = [] }, s)
  bulk_add_tools now clock api (t ∷ ts) s =
      let (c, s') = ensure_api now api s in
      let (result, tools) = bulk_add clock s'.max_tools_per_api (t ∷ ts) c.tools in
      (
        result,
        record s' { cache = put api (record { tools = tools; last_accessed = now }) s'.cache },
      )

  unfoldable pub remove_api : String → Store E → Store E
  remove_api api s = record s { cache = delete api s.cache }

  unfoldable pub clear_all : Store E → Store E
  clear_all s = record s { cache = [] }

  unfoldable pub count_tools : Table (ApiCache E) → ℕ
  count_tools [] = 0
  count_tools ((api, c) ∷ m) = length c.tools + count_tools m

  unfoldable pub get_cache_stats : Store E → ℕ × ℕ
  get_cache_stats s = (length s.cache, count_tools s.cache)
