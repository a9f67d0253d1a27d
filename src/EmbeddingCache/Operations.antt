-- ===== src/EmbeddingCache/Operations.antt =====
-- policies/semantic-tool-filtering/embeddingcache.go: sequences of operations on the store.
use gateway_controllers.Prelude.{List, [], ◌∷◌, String}
use gateway_controllers.Prelude.Int.{ℤ}
use gateway_controllers.Limiter.{Instant}
use gateway_controllers.EmbeddingCache.{
  Store, ToolEntry, set_cache_limits, get_api_cache, add_api_cache, get_entry, add_entry,
  bulk_add_tools, remove_api, clear_all,
}

-- What the policy can ask of the store.
pub data Operation (E : Type 0) : Type 0 where
  limits : ℤ → ℤ → Operation E
  read_api : Instant → String → Operation E
  add_api : Instant → String → Operation E
  read : Instant → Instant → String → String → Operation E
  add : Instant → Instant → String → String → String → E → Operation E
  bulk : Instant → (ToolEntry E → Instant) → String → List (ToolEntry E) → Operation E
  remove : String → Operation E
  clear : Operation E

module _ {E : Type 0} where
  unfoldable pub perform : Operation E → Store E → Store E
  perform (limits apis tools) s = set_cache_limits apis tools s
  perform (read_api now api) s = (get_api_cache now api s).1
  perform (add_api now api) s = add_api_cache now api s
  perform (read now now' api hash) s = (get_entry now now' api hash s).1
  perform (add now now' api hash name e) s = add_entry now now' api hash name e s
  perform (bulk now clock api ts) s = (bulk_add_tools now clock api ts s).1
  perform (remove api) s = remove_api api s
  perform clear s = clear_all s

  unfoldable pub perform_all : List (Operation E) → Store E → Store E
  perform_all [] s = s
  perform_all (op ∷ ops) s = perform_all ops (perform op s)
