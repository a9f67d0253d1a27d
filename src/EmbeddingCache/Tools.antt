-- ===== src/EmbeddingCache/Tools.antt =====
-- The tools of one API: their number, and what holds of each.
use gateway_controllers.Prelude.{
  ◌≡◌, refl, ℕ, List, [], ◌∷◌, ◌++◌, String, ◌⊎◌, inl, inr, Each, Each-append, Each-take,
  Option-cases,
}
use gateway_controllers.Prelude.Table.{Table, get, put, delete, All, All-put, All-delete}
use gateway_controllers.Limiter.{Instant}
use gateway_controllers.EmbeddingCache.{
  EmbeddingEntry, ApiCache, ToolEntry, evict_lru_tool_if_needed, find_named, delete_named, add_tool,
  classify, add_new, bulk_add,
}
use gateway_controllers.EmbeddingCache.Lru.{evict_lru-All}

module _ {E : Type 0} where
  pub delete_named-cases :
      (name : String) (m : Table (EmbeddingEntry E))
      → ((key : String) × (delete_named name m ≡ delete key m)) ⊎ (delete_named name m ≡ m)
  unfolding delete_named
  delete_named-cases name m = elim (Option-cases (find_named name m)) [
    | inl e ↦ inr (rw (e, delete_named) refl)
    | inr (key, e) ↦ inl (key, rw (e, delete_named) refl)
  ]

  -- A property that an entry has, under whatever name and at any time, where it comes of a tool
  -- that fits.
  abbrev pub Keeps : (String → EmbeddingEntry E → Type 0) → (ToolEntry E → Type 0) → Type 0
  Keeps P Fits =
      (t : ToolEntry E) (name : String) (now : Instant)
      → Fits t
      → P t.hash_key (record { name = name; embedding = t.embedding; last_accessed = now })

  -- What a property of every entry and the size come to, by the operations on tools.
  module _ (P : String → EmbeddingEntry E → Type 0) where
    pub delete_named-All :
        (name : String) (m : Table (EmbeddingEntry E)) → All P m → All P (delete_named name m)
    delete_named-All name m all = elim (delete_named-cases name m) [
      | inl (key, e) ↦ rw e (All-delete P key m all)
      | inr e ↦ rw e all
    ]

    pub add_tool-All :
        (limit : ℕ) (now : Instant) (hash name : String) (x : E) (c : ApiCache E)
        → P hash (record { name = name; embedding = x; last_accessed = now })
        → All P c.tools
        → All P (add_tool limit now hash name x c).tools
    unfolding add_tool evict_lru_tool_if_needed
    add_tool-All limit now hash name x c p all =
        let kept = delete_named-All name c.tools all in
        elim (Option-cases (get (delete_named name c.tools) hash)) [
          | inl e ↦ rw e (
              All-put P hash _ _ p
                (evict_lru-All (λ (e : EmbeddingEntry E). e.last_accessed) P limit _ kept))
          | inr (old, e) ↦ rw e (All-put P hash _ _ p kept)
        ]

    -- The same for a list of tools, each of which fits.
    module _ (Fits : ToolEntry E → Type 0) (keep : Keeps P Fits) where
      classify-All :
          (clock : ToolEntry E → Instant) (ts : List (ToolEntry E))
          (tools : Table (EmbeddingEntry E)) (fresh : List (ToolEntry E)) (cached : List String)
          → Each Fits ts
          → Each Fits fresh
          → All P tools
          → All P (classify clock ts tools fresh cached).0
            × Each Fits (classify clock ts tools fresh cached).1
      unfolding classify
      classify-All clock [] tools fresh cached fits fits' all = (all, fits')
      classify-All clock (t ∷ ts) tools fresh cached (fit, fits) fits' all =
          elim (Option-cases (get tools t.hash_key)) [
            | inl e ↦
                rw (e, classify)
                  (classify-All clock ts (delete_named t.name tools) (fresh ++ (t ∷ [])) cached fits
                    (Each-append Fits fresh (t ∷ []) fits' (fit, tt))
                    (delete_named-All t.name tools all))
            | inr (old, e) ↦
                rw (e, classify)
                  (classify-All clock ts
                    (put t.hash_key
                      (record old { embedding = t.embedding; last_accessed = clock t }) tools)
                    fresh (cached ++ (t.name ∷ [])) fits fits'
                    (All-put P t.hash_key _ tools (keep t old.name (clock t) fit) all))
          ]

      add_new-All :
          (clock : ToolEntry E → Instant) (ts : List (ToolEntry E))
          (tools : Table (EmbeddingEntry E))
          → Each Fits ts
          → All P tools
          → All P (add_new clock ts tools)
      unfolding add_new
      add_new-All clock [] tools fits all = all
      add_new-All clock (t ∷ ts) tools (fit, fits) all =
          add_new-All clock ts _ fits
            (All-put P t.hash_key _ tools (keep t t.name (clock t) fit) all)

      pub bulk_add-All :
          (clock : ToolEntry E → Instant) (limit : ℕ) (ts : List (ToolEntry E))
          (tools : Table (EmbeddingEntry E))
          → Each Fits ts
          → All P tools
          → All P (bulk_add clock limit ts tools).1
      unfolding bulk_add
      bulk_add-All clock limit ts tools fits all =
          let (kept, fresh) = classify-All clock ts tools [] [] fits tt all in
          add_new-All clock _ _ (Each-take Fits _ _ fresh) kept
