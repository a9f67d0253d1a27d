-- ===== src/Tests/EmbeddingRuns.antt =====
-- The embedding store at concrete inputs.
use text.Mathlib.Text.{◌==◌ as str_eq}
use gateway_controllers.Prelude.{
  ◌≡◌, refl, ℕ, ◌≤◌, List, [], ◌∷◌, String, none, some, length, arith, if◌then◌else◌,
}
use gateway_controllers.Prelude.Int.{pos, ◌≤ℤ◌}
use gateway_controllers.Prelude.Table.{Table, get, put, delete, All}
use gateway_controllers.EmbeddingCache.{
  EmbeddingEntry, older, lru_loop, find_lru, evict_lru, evict_lru_api_if_needed,
  evict_lru_tool_if_needed, create_api, ensure_api, add_entry, add_tool, find_named, delete_named,
  classify, add_new, bulk_add, tool_name, get_entry, new_store, set_cache_limits,
}
use gateway_controllers.EmbeddingCache.Operations.{Operation, limits, add, perform, perform_all}
use gateway_controllers.EmbeddingCache.Lru.{evict_lru_oldest}
use gateway_controllers.EmbeddingCache.Sizes.{store_bounded}
use gateway_controllers.EmbeddingCache.Lookups.{read-written}
use gateway_controllers.EmbeddingCache.Recall.{get_entry-add_entry}

abbrev operations : List (Operation ℕ)
operations =
    limits (pos 2) (pos 1)
    ∷ add (pos 1) (pos 1) "a" "h1" "search" 7
    ∷ add (pos 2) (pos 2) "a" "h2" "fetch" 8
    ∷ add (pos 3) (pos 3) "b" "h1" "search" 7
    ∷ []

store_bounded_example :
    (length (perform_all operations new_store).cache ≤ 25)
    × All (λ _ c. length c.tools ≤ 200) (perform_all operations new_store).cache
store_bounded_example =
    store_bounded 25 200 operations (omega arith) (omega arith)
      ((omega arith, omega arith), ((refl, refl), ((refl, refl), ((refl, refl), tt))))

abbrev found : EmbeddingEntry ℕ
found = record { name = "search"; embedding = 7; last_accessed = pos 5 }

read_back : (get_entry (pos 4) (pos 5) "b" "h1" (perform_all operations new_store)).0 ≡ some found
unfolding perform_all perform set_cache_limits add_entry ensure_api create_api add_tool evict_lru
    evict_lru_api_if_needed evict_lru_tool_if_needed find_lru lru_loop older find_named delete_named
    get_entry new_store get put delete
read_back = refl

-- The hash h1 stands for the embedding 7, and any other for 8.
abbrev Embeds : String → String → ℕ → Type 0
Embeds api hash x = x ≡ (if str_eq hash "h1" then 7 else 8)

read-written_example : found.embedding ≡ 7
read-written_example =
    read-written Embeds operations (pos 4) (pos 5) "b" "h1" found (tt, (refl, (refl, (refl, tt))))
      read_back

get_entry-add_entry_run :
    (get_entry
      (pos 3)
      (pos 4)
      "a"
      "h1"
      (add_entry (pos 1) (pos 2) "a" "h1" "search" 7 (new_store {E = ℕ}))).0
    ≡ some (record { name = "search"; embedding = 7; last_accessed = pos 4 })
get_entry-add_entry_run =
    get_entry-add_entry (pos 1) (pos 2) (pos 3) (pos 4) "a" "h1" "search" 7 new_store

abbrev fetch_alone : Table (EmbeddingEntry ℕ)
fetch_alone = ("h2", record { name = "fetch"; embedding = 8; last_accessed = pos 3 }) ∷ []

abbrev two_tools : Table (EmbeddingEntry ℕ)
two_tools =
    ("h1", record { name = "search"; embedding = 7; last_accessed = pos 9 })
    ∷ ("h2", record { name = "fetch"; embedding = 8; last_accessed = pos 3 })
    ∷ []

two_distinct : get fetch_alone "h1" ≡ none
unfolding get
two_distinct = refl

nothing_named : get {V = EmbeddingEntry ℕ} [] "h2" ≡ none
unfolding get
nothing_named = refl

evict_lru_oldest_run :
    (key : String) × (v : EmbeddingEntry ℕ) × (get two_tools key ≡ some v)
    × All (λ _ w. v.last_accessed ≤ℤ w.last_accessed) two_tools
    × (evict_lru (λ (e : EmbeddingEntry ℕ). e.last_accessed) 2 two_tools ≡ delete key two_tools)
evict_lru_oldest_run =
    evict_lru_oldest (λ (e : EmbeddingEntry ℕ). e.last_accessed) 2 two_tools
      (two_distinct, (nothing_named, tt)) (refl, (refl, tt)) (omega arith) (omega arith)

-- A list that has a cached tool and a new one of the same name: the first is reported as cached,
-- and is deleted.
cached_and_deleted :
    bulk_add
      (λ _. pos 10)
      5
      (record { hash_key = "h1"; name = "search"; embedding = 7 }
        ∷ record { hash_key = "h3"; name = "search"; embedding = 9 }
        ∷ [])
      two_tools
    ≡ (
      record { added = "search" ∷ []; skipped = []; cached = "search" ∷ [] },
      ("h3", record { name = "search"; embedding = 9; last_accessed = pos 10 })
          ∷ ("h2", record { name = "fetch"; embedding = 8; last_accessed = pos 3 })
          ∷ [],
    )
unfolding bulk_add classify find_named delete_named add_new tool_name get put delete
cached_and_deleted = refl

-- An entry under the empty key is never evicted.
empty_key_stays :
    evict_lru
      (λ (e : EmbeddingEntry ℕ). e.last_accessed)
      1
      (("", record { name = "x"; embedding = 1; last_accessed = pos 0 }) ∷ [])
    ≡ ("", record { name = "x"; embedding = 1; last_accessed = pos 0 }) ∷ []
unfolding evict_lru find_lru lru_loop older
empty_key_stays = refl
