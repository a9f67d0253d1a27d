-- ===== src/EmbeddingCache/ToolSizes.antt =====
-- How many tools one API has.
use text.Mathlib.Text.{◌==◌ as str_eq}
use gateway_controllers.Prelude.{
  ◌≡◌, dec_lt, ℕ, suc, ◌+◌, ◌-◌, ◌≤◌, ◌<◌, List, [], ◌∷◌, ◌++◌, String, false, some, inl, inr, ltb,
  if◌then◌else◌, length, take, length-take, Each, Option-cases, arith,
}
use gateway_controllers.Prelude.Table.{
  Table, get, put, All-get, All-put, length-delete-lt, length-delete-le,
}
use gateway_controllers.Limiter.{Instant}
use gateway_controllers.EmbeddingCache.{
  EmbeddingEntry, ApiCache, ToolEntry, evict_lru, evict_lru_tool_if_needed, delete_named, add_tool,
  classify, add_new, bulk_add,
}
use gateway_controllers.EmbeddingCache.Tools.{
  delete_named-cases, delete_named-All, add_tool-All, bulk_add-All,
}
use gateway_controllers.EmbeddingCache.Lru.{
  Named, Distinct, put-Distinct, delete-Distinct, evict_lru-Distinct, evict_lru_room,
}

module _ {E : Type 0} where
  -- No key twice, and no more tools than the limit.
  delete_named-Distinct :
      (name : String) (m : Table (EmbeddingEntry E)) → Distinct m → Distinct (delete_named name m)
  delete_named-Distinct name m d = elim (delete_named-cases name m) [
    | inl (key, e) ↦ rw e (delete-Distinct key m d)
    | inr e ↦ rw e d
  ]

  delete_named-le :
      (name : String) (m : Table (EmbeddingEntry E)) → length (delete_named name m) ≤ length m
  delete_named-le name m = elim (delete_named-cases name m) [
    | inl (key, e) ↦ rw e (length-delete-le key m)
    | inr e ↦ rw e (omega arith)
  ]

  length-put :
      (key : String) (x : EmbeddingEntry E) (m : Table (EmbeddingEntry E))
      → length (put key x m) ≤ suc (length m)
  unfolding put
  length-put key x m = omega (arith, length-delete-le key m)

  length-put-old :
      (key : String) (x old : EmbeddingEntry E) (m : Table (EmbeddingEntry E))
      → get m key ≡ some old
      → length (put key x m) ≤ length m
  unfolding put
  length-put-old key x old m e = omega (arith, length-delete-lt key m (rw e (λ bad. cc)))

  -- Sound tools stay within a bound.
  pub record IsSound (bound : ℕ) (m : Table (EmbeddingEntry E)) : Type 0 where
    pub distinct : Distinct m
    pub named : Named m
    pub within : length m ≤ bound

  -- A tool that is there is written again.
  pub put_old-IsSound :
      (bound : ℕ) (key : String) (x old : EmbeddingEntry E) (m : Table (EmbeddingEntry E))
      → get m key ≡ some old
      → IsSound bound m
      → IsSound bound (put key x m)
  put_old-IsSound bound key x old m e s = record {
    distinct = put-Distinct key x m s.distinct;
    named =
        All-put (λ k _. str_eq k "" ≡ false) key x m
          (All-get (λ k _. str_eq k "" ≡ false) m key old s.named e) s.named;
    within = omega (arith, s.within, length-put-old key x old m e);
  }

  add_room :
      (limit bound : ℕ) (hash name : String) (x : EmbeddingEntry E) (m : Table (EmbeddingEntry E))
      → limit ≤ bound
      → 0 < bound
      → Distinct m
      → Named m
      → length m ≤ bound
      → length (put hash x (evict_lru (λ (e : EmbeddingEntry E). e.last_accessed) limit m)) ≤ bound
  add_room limit bound hash name x m h some_room d named within = omega (
    arith,
    length-put hash x (evict_lru (λ (e : EmbeddingEntry E). e.last_accessed) limit m),
    evict_lru_room (λ (e : EmbeddingEntry E). e.last_accessed) limit bound m d named h some_room
        within,
  )

  pub add_tool-IsSound :
      (limit bound : ℕ) (now : Instant) (hash name : String) (x : E) (c : ApiCache E)
      → limit ≤ bound
      → 0 < bound
      → str_eq hash "" ≡ false
      → IsSound bound c.tools
      → IsSound bound (add_tool limit now hash name x c).tools
  unfolding add_tool evict_lru_tool_if_needed
  add_tool-IsSound limit bound now hash name x c h some_room key s =
      let kept = delete_named name c.tools in
      let d = delete_named-Distinct name c.tools s.distinct in
      let named = delete_named-All (λ k _. str_eq k "" ≡ false) name c.tools s.named in
      let within : length kept ≤ bound = omega (arith, delete_named-le name c.tools, s.within) in
      let by_access = λ (e : EmbeddingEntry E). e.last_accessed in
      record {
        distinct = elim (Option-cases (get kept hash)) [
          | inl e ↦ rw e (put-Distinct hash _ _ (evict_lru-Distinct by_access limit kept d))
          | inr (old, e) ↦ rw e (put-Distinct hash _ kept d)
        ];
        named = add_tool-All (λ k _. str_eq k "" ≡ false) limit now hash name x c key s.named;
        within = elim (Option-cases (get kept hash)) [
          | inl e ↦ rw e (add_room limit bound hash name _ kept h some_room d named within)
          | inr (old, e) ↦ rw e (omega (arith, length-put-old hash _ old kept e))
        ];
      }

  classify_size :
      (clock : ToolEntry E → Instant) (ts : List (ToolEntry E)) (tools : Table (EmbeddingEntry E))
      (fresh : List (ToolEntry E)) (cached : List String)
      → Distinct tools
      → Distinct (classify clock ts tools fresh cached).0
        × (length (classify clock ts tools fresh cached).0 ≤ length tools)
  unfolding classify
  classify_size clock [] tools fresh cached d = (d, omega arith)
  classify_size clock (t ∷ ts) tools fresh cached d = elim (Option-cases (get tools t.hash_key)) [
    | inl e ↦
        rw (e, classify)
          (let (d', l) =
              classify_size clock ts (delete_named t.name tools) (fresh ++ (t ∷ [])) cached
                (delete_named-Distinct t.name tools d) in
            (d', omega (arith, delete_named-le t.name tools)))
    | inr (old, e) ↦
        rw (e, classify)
          (let (d', l) =
              classify_size clock ts (put t.hash_key _ tools) fresh (cached ++ (t.name ∷ []))
                (put-Distinct t.hash_key _ tools d) in
            (d', omega (arith, length-put-old t.hash_key _ old tools e)))
  ]

  add_new_size :
      (clock : ToolEntry E → Instant) (ts : List (ToolEntry E)) (tools : Table (EmbeddingEntry E))
      → Distinct tools
      → Distinct (add_new clock ts tools)
        × (length (add_new clock ts tools) ≤ length ts + length tools)
  unfolding add_new
  add_new_size clock [] tools d = (d, omega arith)
  add_new_size clock (t ∷ ts) tools d =
      let (d', l) = add_new_size clock ts _ (put-Distinct t.hash_key _ tools d) in
      (d', omega (arith, length-put t.hash_key _ tools))

  take_slots :
      (slots : ℕ) (fresh : List (ToolEntry E))
      → length (take (if ltb slots (length fresh) then slots else length fresh) fresh) ≤ slots
  take_slots slots fresh = elim (dec_lt slots (length fresh)) [
    | yes h ↦ ground (arith, length-take {0} slots fresh)
    | no h ↦ ground (arith, length-take {0} (length fresh) fresh)
  ]

  pub bulk_add-IsSound :
      (clock : ToolEntry E → Instant) (limit bound : ℕ) (ts : List (ToolEntry E))
      (tools : Table (EmbeddingEntry E))
      → limit ≤ bound
      → Each (λ t. str_eq t.hash_key "" ≡ false) ts
      → IsSound bound tools
      → IsSound bound (bulk_add clock limit ts tools).1
  unfolding bulk_add
  bulk_add-IsSound clock limit bound ts tools h keys s =
      let (d, l) = classify_size clock ts tools [] [] s.distinct in
      let (d', l') = add_new_size clock _ _ d in
      record {
        distinct = d';
        named =
            bulk_add-All (λ k _. str_eq k "" ≡ false) (λ t. str_eq t.hash_key "" ≡ false)
              (λ t name now fit. fit) clock limit ts tools keys s.named;
        within = omega (
          arith,
          s.within,
          take_slots (limit - length (classify clock ts tools [] []).0)
              (classify clock ts tools [] []).1,
        );
      }
