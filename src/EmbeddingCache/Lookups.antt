-- ===== src/EmbeddingCache/Lookups.antt =====
-- About the operations of embeddingcache.go: what is read and what was written.
use gateway_controllers.Prelude.{
  ◌≡◌, subst, List, [], ◌∷◌, String, Option, some, inl, inr, Each, Option-cases, arith,
}
use gateway_controllers.Prelude.Table.{get, put, All, All-get, All-put, All-delete}
use gateway_controllers.Limiter.{Instant}
use gateway_controllers.EmbeddingCache.{
  Store, ensure_api, get_api_cache, add_api_cache, get_entry, add_entry, bulk_add_tools, remove_api,
  clear_all, set_cache_limits, new_store, EmbeddingEntry, ApiCache,
}
use gateway_controllers.EmbeddingCache.Operations.{
  Operation, limits, read_api, add_api, read, add, bulk, remove, clear, perform, perform_all,
}
use gateway_controllers.EmbeddingCache.Apis.{create_api-All, ensure_api-All}
use gateway_controllers.EmbeddingCache.Tools.{add_tool-All, bulk_add-All}

-- What an operation writes has the property, which may depend on the API and the hash.
abbrev pub Obeys : {E : Type 0} → (String → String → E → Type 0) → Operation E → Type 0
Obeys P (limits a t) = Unit {0}
Obeys P (read_api now api) = Unit {0}
Obeys P (add_api now api) = Unit {0}
Obeys P (read now now' api hash) = Unit {0}
Obeys P (add now now' api hash name x) = P api hash x
Obeys P (bulk now clock api ts) = Each (λ t. P api t.hash_key t.embedding) ts
Obeys P (remove api) = Unit {0}
Obeys P clear = Unit {0}

module _ {E : Type 0} (P : String → String → E → Type 0) where
  abbrev Held : String → ApiCache E → Type 0
  Held api c = All (λ hash e. P api hash e.embedding) c.tools

  abbrev Holds : Store E → Type 0
  Holds s = All Held s.cache

  write_ensured :
      (now : Instant) (api : String) (c' : ApiCache E) (s : Store E)
      → Holds s
      → (Held api (ensure_api now api s).0 → Held api c')
      → Holds
          (record (ensure_api now api s).1 { cache = put api c' (ensure_api now api s).1.cache })
  write_ensured now api c' s all next =
      let (one, rest) = ensure_api-All Held now api s tt all in
      All-put Held api c' _ (next one) rest

  read_api-Holds :
      (now : Instant) (api : String) (s : Store E) → Holds s → Holds (get_api_cache now api s).1
  unfolding get_api_cache
  read_api-Holds now api s all = elim (Option-cases (get s.cache api)) [
    | inl e ↦ rw (e, get_api_cache) all
    | inr (c, e) ↦
        rw (e, get_api_cache) (All-put Held api _ s.cache (All-get Held s.cache api c all e) all)
  ]

  add_api-Holds :
      (now : Instant) (api : String) (s : Store E) → Holds s → Holds (add_api_cache now api s)
  unfolding add_api_cache
  add_api-Holds now api s all = elim (Option-cases (get s.cache api)) [
    | inl e ↦ rw (e, add_api_cache) (create_api-All Held now api s tt all)
    | inr (c, e) ↦ rw (e, add_api_cache) all
  ]

  -- Reading a tool keeps what holds, and the embedding that is read is one that is held.
  read_tool :
      (now now' : Instant) (api hash : String) (s : Store E)
      → Holds s
      → Holds (get_entry now now' api hash s).1
        × ((e : EmbeddingEntry E)
            → (get_entry now now' api hash s).0 ≡ some e
            → P api hash e.embedding)
  unfolding get_entry
  read_tool now now' api hash s all = elim (Option-cases (get s.cache api)) [
    | inl e ↦ rw (e, get_entry) (all, λ x bad. absurd (cc))
    | inr (c, e) ↦ elim (Option-cases (get c.tools hash)) [
      | inl e' ↦ rw (e, get_entry) (rw e' (all, λ x bad. absurd (cc)))
      | inr (x, e') ↦
          let held = All-get Held s.cache api c all e in
          let one = All-get (λ h y. P api h y.embedding) c.tools hash x held e' in
          rw (e, get_entry)
            (rw e' (
              All-put Held api _ s.cache
                  (All-put (λ h y. P api h y.embedding) hash _ c.tools one held) all,
              λ y read. subst (P api hash) (same_embedding x y now' read) one,
            ))
    ]
  ]
    where
      same_embedding :
          (x y : EmbeddingEntry E) (now : Instant)
          → ◌≡◌ {A = Option (EmbeddingEntry E)} (some (record x { last_accessed = now })) (some y)
          → x.embedding ≡ y.embedding
      same_embedding x y now e = ground (arith, e)

  perform-Holds : (op : Operation E) (s : Store E) → Obeys P op → Holds s → Holds (perform op s)
  unfolding perform
  perform-Holds (limits a t) s obeys all = unfold set_cache_limits in all
  perform-Holds (read_api now api) s obeys all = read_api-Holds now api s all
  perform-Holds (add_api now api) s obeys all = add_api-Holds now api s all
  perform-Holds (read now now' api hash) s obeys all = (read_tool now now' api hash s all).0
  perform-Holds (add now now' api hash name x) s obeys all =
      unfold add_entry in
      write_ensured now api _ s all
        (add_tool-All (λ h y. P api h y.embedding) _ now' hash name x _ obeys)
  perform-Holds (bulk now clock api []) s obeys all = unfold bulk_add_tools in all
  perform-Holds (bulk now clock api (t ∷ ts)) s obeys all =
      unfold bulk_add_tools in
      write_ensured now api _ s all (
        bulk_add-All (λ h y. P api h y.embedding) (λ u. P api u.hash_key u.embedding)
          (λ u name at fit. fit) clock _ (t ∷ ts) _ obeys)
  perform-Holds (remove api) s obeys all = unfold remove_api in All-delete Held api s.cache all
  perform-Holds clear s obeys all = unfold clear_all in tt

  perform_all-Holds :
      (ops : List (Operation E)) (s : Store E)
      → Each (Obeys P) ops
      → Holds s
      → Holds (perform_all ops s)
  unfolding perform_all
  perform_all-Holds [] s obeys all = all
  perform_all-Holds (op ∷ ops) s (obey, obeys) all =
      perform_all-Holds ops (perform op s) obeys (perform-Holds op s obey all)

  -- Whatever operations are performed on a new store: if a property of API, hash and embedding
  -- holds of all that they write, it holds of what a call of GetEntry then returns, for the API and
  -- the hash that it is asked for.
  pub read-written :
      (ops : List (Operation E)) (now now' : Instant) (api hash : String) (e : EmbeddingEntry E)
      → Each (Obeys P) ops
      → (get_entry now now' api hash (perform_all ops new_store)).0 ≡ some e
      → P api hash e.embedding
  unfolding new_store
  read-written ops now now' api hash e obeys =
      (read_tool now now' api hash _ (perform_all-Holds ops new_store obeys tt)).1 e
