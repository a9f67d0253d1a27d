-- ===== src/EmbeddingCache/Lru.antt =====
-- About the eviction of embeddingcache.go: which entry it takes out.
use text.Mathlib.Text.{◌==◌ as str_eq}
use text.Mathlib.TextEquality.{eq_iff}
use gateway_controllers.Prelude.{
  ◌≡◌, refl, sym, ap, ◌∙◌, subst, dec_lt, ℕ, suc, ◌≤◌, ◌<◌, [], ◌∷◌, String, false, Option, none,
  some, ◌⊎◌, inl, inr, leb, length, Bool-cases, arith,
}
use gateway_controllers.Prelude.Int.{lt_ℤ, ◌≤ℤ◌}
use gateway_controllers.Prelude.Table.{
  Table, get, put, delete, All, All-get, All-delete, get-delete, length-delete-lt, length-delete-le,
}
use gateway_controllers.Limiter.{Instant}
use gateway_controllers.EmbeddingCache.{older, lru_loop, find_lru, evict_lru}

abbrev NotAfter : Instant → Option (String × Instant) → Type 0
NotAfter t none = Unit {0}
NotAfter t (some (key, found)) = t ≤ℤ found

-- No key is empty.
abbrev pub Named : {V : Type 0} → Table V → Type 0
Named m = All (λ key v. str_eq key "" ≡ false) m

-- No key stands twice.
abbrev pub Distinct : {V : Type 0} → Table V → Type 0
Distinct [] = Unit {0}
Distinct ((key, v) ∷ m) = (get m key ≡ none) × Distinct m

pub delete-Distinct : {V : Type 0} (k : String) (m : Table V) → Distinct m → Distinct (delete k m)
unfolding delete
delete-Distinct k [] d = d
delete-Distinct k ((j, v) ∷ m) (fresh, d) = elim (Bool-cases (str_eq j k)) [
  | inl e ↦ rw e (delete-Distinct k m d)
  | inr e ↦ rw e (ground (arith, get-delete k m j, fresh), delete-Distinct k m d)
]

pub put-Distinct :
    {V : Type 0} (k : String) (v : V) (m : Table V) → Distinct m → Distinct (put k v m)
unfolding put
put-Distinct k v m d = (ground (arith, get-delete k m k, eq_iff k k), delete-Distinct k m d)

older-NotAfter :
    (key : String) (accessed t : Instant) (found : Option (String × Instant))
    → NotAfter t (older key accessed found)
    → (t ≤ℤ accessed) × NotAfter t found
unfolding older
older-NotAfter key accessed t none h = (h, tt)
older-NotAfter key accessed t (some (k, f)) h = elim (Bool-cases (lt_ℤ accessed f)) [
  | inl e ↦ ground arith
  | inr e ↦ ground arith
]

older-some :
    (key : String) (accessed : Instant) (found : Option (String × Instant))
    → (r : String × Instant) × (older key accessed found ≡ some r)
unfolding older
older-some key accessed none = ((key, accessed), refl)
older-some key accessed (some (k, f)) = elim (Bool-cases (lt_ℤ accessed f)) [
  | inl e ↦ ((key, accessed), rw e refl)
  | inr e ↦ ((k, f), rw e refl)
]

older-cases :
    (key : String) (accessed : Instant) (found : Option (String × Instant))
    → (older key accessed found ≡ some (key, accessed)) ⊎ (older key accessed found ≡ found)
unfolding older
older-cases key accessed none = inl refl
older-cases key accessed (some (k, f)) = elim (Bool-cases (lt_ℤ accessed f)) [
  | inl e ↦ inl (rw e refl)
  | inr e ↦ inr (rw e refl)
]

module _ {V : Type 0} (accessed : V → Instant) where
  lru_loop-some :
      (m : Table V) (r : String × Instant)
      → (q : String × Instant) × (lru_loop accessed m (some r) ≡ some q)
  unfolding lru_loop
  lru_loop-some [] r = (r, refl)
  lru_loop-some ((key, v) ∷ m) r =
      let (r', e) = older-some key (accessed v) (some r) in rw e (lru_loop-some m r')

  lru_loop_oldest :
      (m : Table V) (found : Option (String × Instant)) (key : String) (t : Instant)
      → lru_loop accessed m found ≡ some (key, t)
      → All (λ j w. t ≤ℤ accessed w) m × NotAfter t found
  unfolding lru_loop
  lru_loop_oldest [] found key t e = (tt, rw e (omega arith))
  lru_loop_oldest ((j, w) ∷ m) found key t e =
      let (rest, h) = lru_loop_oldest m (older j (accessed w) found) key t e in
      let (first, last) = older-NotAfter j (accessed w) t found h in ((first, rest), last)

  get_head : (j key : String) (w : V) (m : Table V) → j ≡ key → get ((j, w) ∷ m) key ≡ some w
  unfolding get
  get_head j key w m e = rw ((eq_iff j key).1 e) refl

  get_later :
      (j key : String) (v w : V) (m : Table V)
      → get m j ≡ none
      → get m key ≡ some v
      → get ((j, w) ∷ m) key ≡ some v
  unfolding get
  get_later j key v w m fresh there = elim (Bool-cases (str_eq j key)) [
    | inl same ↦
        let name : j ≡ key = (eq_iff j key).0 same in
        absurd (let h : none ≡ some v = sym fresh ∙ ap (get m) name ∙ there in cc)
    | inr other ↦ rw other there
  ]

  -- What the loop finds is in the map, or was found before.
  lru_loop_found :
      (m : Table V) (found : Option (String × Instant)) (key : String) (t : Instant)
      → Distinct m
      → lru_loop accessed m found ≡ some (key, t)
      → (found ≡ some (key, t)) ⊎ ((v : V) × (get m key ≡ some v) × (accessed v ≡ t))
  unfolding lru_loop
  lru_loop_found [] found key t d e = inl e
  lru_loop_found ((j, w) ∷ m) found key t (fresh, d) e =
      elim (lru_loop_found m (older j (accessed w) found) key t d e) [
        | inr (v, there, at) ↦ inr (v, get_later j key v w m fresh there, at)
        | inl h ↦ elim (older-cases j (accessed w) found) [
          | inl new ↦
              let same : ◌≡◌ {A = Option (String × Instant)} (some (j, accessed w))
                  (some (key, t)) =
                sym new ∙ h in
              inr (w, get_head j key w m (cc), cc)
          | inr old ↦ inl (sym old ∙ h)
        ]
      ]

  find_lru_lem :
      (m : Table V) (key : String) (t : Instant)
      → lru_loop accessed m none ≡ some (key, t)
      → find_lru accessed m ≡ key
  unfolding find_lru
  find_lru_lem m key t e = rw (e, find_lru) refl

  evict_lru_full :
      (limit : ℕ) (m : Table V) (key : String)
      → find_lru accessed m ≡ key
      → str_eq key "" ≡ false
      → limit ≤ length m
      → evict_lru accessed limit m ≡ delete key m
  unfolding evict_lru
  evict_lru_full limit m key e named full =
      ground (arith, e, ap (λ k. delete k m) e, ap (λ k. str_eq k "") e)

  evict_lru_below : (limit : ℕ) (m : Table V) → length m < limit → evict_lru accessed limit m ≡ m
  unfolding evict_lru
  evict_lru_below limit m h = ground arith

  evict_lru-le : (limit : ℕ) (m : Table V) → length (evict_lru accessed limit m) ≤ length m
  unfolding evict_lru
  evict_lru-le limit m = ground (arith, length-delete-le (find_lru accessed m) m)

  lru_loop_starts :
      (m : Table V) → 0 < length m → (q : String × Instant) × (lru_loop accessed m none ≡ some q)
  unfolding lru_loop older
  lru_loop_starts [] h = absurd (omega arith)
  lru_loop_starts ((j, w) ∷ m) h = lru_loop-some m (j, accessed w)

  -- In a map that is not empty and has no empty key, at its limit, an eviction takes out one
  -- entry and nothing else, and no entry was accessed before that one.
  pub evict_lru_oldest :
      (limit : ℕ) (m : Table V)
      → Distinct m
      → Named m
      → 0 < length m
      → limit ≤ length m
      → (key : String) × (v : V) × (get m key ≡ some v)
        × All (λ j w. accessed v ≤ℤ accessed w) m
        × (evict_lru accessed limit m ≡ delete key m)
  evict_lru_oldest limit m d named h full =
      let ((key, t), e) = lru_loop_starts m h in
      elim (lru_loop_found m none key t d e) [
        | inl nothing ↦ absurd (cc)
        | inr (v, there, at) ↦ (
          key,
          v,
          there,
          subst (λ x. All (λ j w. x ≤ℤ accessed w) m) (sym at) (lru_loop_oldest m none key t e).0,
          evict_lru_full limit m key (find_lru_lem m key t e)
              (All-get (λ k _. str_eq k "" ≡ false) m key v named there) full,
        )
      ]

  -- An entry that is added after an eviction stays within a limit.
  pub evict_lru_room :
      (limit bound : ℕ) (m : Table V)
      → Distinct m
      → Named m
      → limit ≤ bound
      → 0 < bound
      → length m ≤ bound
      → suc (length (evict_lru accessed limit m)) ≤ bound
  evict_lru_room limit bound m d named h some_room l = elim (dec_lt (length m) limit) [
    | yes below ↦ rw (evict_lru_below limit m below) (omega arith)
    | no full ↦ elim (dec_lt 0 (length m)) [
      | yes there ↦
          let (key, v, found, _, e) = evict_lru_oldest limit m d named there (omega arith) in
          rw e (omega (arith, length-delete-lt key m (rw found (λ bad. cc))))
      | no empty ↦ omega (arith, evict_lru-le limit m)
    ]
  ]

  -- An eviction is a deletion, or nothing.
  pub evict_lru-cases :
      (limit : ℕ) (m : Table V)
      → (evict_lru accessed limit m ≡ delete (find_lru accessed m) m)
        ⊎ (evict_lru accessed limit m ≡ m)
  unfolding evict_lru
  evict_lru-cases limit m = elim (Bool-cases (leb limit (length m))) [
    | inr below ↦ inr (rw below refl)
    | inl full ↦ elim (Bool-cases (str_eq (find_lru accessed m) "")) [
      | inl empty ↦ inr (rw full (rw empty refl))
      | inr named ↦ inl (rw full (rw named refl))
    ]
  ]

  pub evict_lru-All {κ} :
      (P : String → V → Type κ) (limit : ℕ) (m : Table V)
      → All P m
      → All P (evict_lru accessed limit m)
  evict_lru-All P limit m all = elim (evict_lru-cases limit m) [
    | inl e ↦ rw e (All-delete P (find_lru accessed m) m all)
    | inr e ↦ rw e all
  ]

  pub evict_lru-Distinct :
      (limit : ℕ) (m : Table V) → Distinct m → Distinct (evict_lru accessed limit m)
  evict_lru-Distinct limit m d = elim (evict_lru-cases limit m) [
    | inl e ↦ rw e (delete-Distinct (find_lru accessed m) m d)
    | inr e ↦ rw e d
  ]
