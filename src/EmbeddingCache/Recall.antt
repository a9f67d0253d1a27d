-- ===== src/EmbeddingCache/Recall.antt =====
-- About GetEntry after AddEntry of embeddingcache.go.
use gateway_controllers.Prelude.{◌≡◌, refl, ℕ, String, some}
use gateway_controllers.Prelude.Table.{get, get-put_self}
use gateway_controllers.Limiter.{Instant}
use gateway_controllers.EmbeddingCache.{
  Store, ensure_api, get_entry, add_entry, EmbeddingEntry, ApiCache, add_tool,
}

module _ {E : Type 0} where
  add_tool_there :
      (limit : ℕ) (now : Instant) (hash name : String) (x : E) (c : ApiCache E)
      → get (add_tool limit now hash name x c).tools hash
        ≡ some (record { name = name; embedding = x; last_accessed = now })
  unfolding add_tool
  add_tool_there limit now hash name x c = get-put_self hash _ _

  get_entry_there :
      (now now' : Instant) (api hash : String) (s : Store E) (c : ApiCache E) (e : EmbeddingEntry E)
      → get s.cache api ≡ some c
      → get c.tools hash ≡ some e
      → (get_entry now now' api hash s).0 ≡ some (record e { last_accessed = now' })
  unfolding get_entry
  get_entry_there now now' api hash s c e there there' = rw (there, get_entry) (rw there' refl)

  -- An entry is found right after it was added, with the name and the embedding that it was given,
  -- whatever had to be evicted for it; the time of its last access is that of the reading.
  pub get_entry-add_entry :
      (now now' later later' : Instant) (api hash name : String) (x : E) (s : Store E)
      → (get_entry later later' api hash (add_entry now now' api hash name x s)).0
        ≡ some (record { name = name; embedding = x; last_accessed = later' })
  unfolding add_entry
  get_entry-add_entry now now' later later' api hash name x s =
      let ensured = ensure_api now api s in
      let limit = ensured.1.max_tools_per_api in
      let touched = record ensured.0 { last_accessed = now } in
      get_entry_there later later' api hash _ (add_tool limit now' hash name x touched) _
        (get-put_self api _ _) (add_tool_there limit now' hash name x touched)
