-- ===== src/CostRouting/Sharing/Counts.antt =====
-- The reference counts of the shared limiters.
use text.Mathlib.Text.{◌==◌ as str_eq}
use text.Mathlib.TextEquality.{eq_iff}
use gateway_controllers.Prelude.{
  ℕ, ◌+◌, ◌-◌, ◌<◌, ◌≡◌, refl, sym, ◌∙◌, ap, subst, ◌≢◌, inl, inr, String, true, false, Option,
  none, some, leb, arith, Bool-cases, Option-cases, if◌then◌else◌,
}
use gateway_controllers.Prelude.Table.{get, put, delete, get-delete, get-put}
use gateway_controllers.Limiter.{Outcome, Outcome-cases}
use gateway_controllers.CostRouting.Sharing.{
  LimiterEntry, LimiterCache, is_key, release, hold, shared_limiter,
}
use gateway_controllers.CostRouting.Sharing.Holders.{
  holders, Distinct, Distinct-delete, holders-delete, holders-put, get-holders,
}

abbrev drop_ref : {Lim : Type 0} → Option (LimiterEntry Lim) → Option (LimiterEntry Lim)
drop_ref none = none
drop_ref (some e) =
    if leb e.ref_count 1 then none else some (record e { ref_count = e.ref_count - 1 })

abbrev refs : {Lim : Type 0} → Option (LimiterEntry Lim) → ℕ
refs none = 0
refs (some e) = e.ref_count

module _ {Lim : Type 0} where
  -- The reference count of an entry is the number of the instances that hold it, and an entry has
  -- a holder.
  pub record IsCounted (s : LimiterCache Lim) : Type 0 where
    pub distinct : Distinct s.reconcile
    pub counted : (k : String) → refs (get s.entries k) ≡ holders k s.reconcile
    pub positive : (k : String) (e : LimiterEntry Lim) → get s.entries k ≡ some e → 0 < e.ref_count

  get-release :
      (prev : Option String) (ck : String) (s : LimiterCache Lim) (j : String)
      → get (release prev ck s).entries j ≡ (
          if is_key j prev
          then (if str_eq j ck then get s.entries j else drop_ref (get s.entries j))
          else get s.entries j)
  unfolding release
  get-release none ck s j = refl
  get-release (some k) ck s j = elim (Bool-cases (str_eq k ck)) [
    | inl e ↦ rw e (ground (arith, eq_iff k ck, eq_iff j ck, eq_iff k j))
    | inr e ↦ elim (Option-cases (get s.entries k)) [
      | inl n ↦ rw (e, n) (ground (arith, n, eq_iff k ck, eq_iff j ck, eq_iff k j))
      | inr (stale, n) ↦ elim (Bool-cases (leb stale.ref_count 1)) [
        | inl last ↦
            rw (e, n, last)
              (ground
                (arith, n, e, last, get-delete k s.entries j, eq_iff k ck, eq_iff j ck, eq_iff k j))
        | inr more ↦
            rw (e, n, more)
              (ground (
                arith,
                n,
                e,
                more,
                get-put k (record stale { ref_count = stale.ref_count - 1 }) s.entries j,
                eq_iff k ck,
                eq_iff j ck,
                eq_iff k j,
              ))
      ]
    ]
  ]

  reconcile-release :
      (prev : Option String) (ck : String) (s : LimiterCache Lim)
      → (release prev ck s).reconcile ≡ s.reconcile
  unfolding release
  reconcile-release none ck s = refl
  reconcile-release (some k) ck s = ground arith

  module _ (ck rk : String) (entry : LimiterEntry Lim) (s : LimiterCache Lim) (v : IsCounted s)
      (count : entry.ref_count
        ≡ holders ck s.reconcile + (if is_key ck (get s.reconcile rk) then 0 else 1)) where
    abbrev held : LimiterCache Lim
    held = record s { entries = put ck entry s.entries; reconcile = put rk ck s.reconcile }

    after-hold :
        (j : String)
        → get (hold ck rk entry s).1.entries j ≡ (
            if str_eq ck j
            then some entry
            else if is_key j (get s.reconcile rk)
            then drop_ref (get s.entries j)
            else get s.entries j)
    unfolding hold
    after-hold j = ground (
      arith,
      get-release (get s.reconcile rk) ck held j,
      get-put ck entry s.entries j,
      eq_iff ck j,
      eq_iff j ck,
    )

    reconcile-hold : (hold ck rk entry s).1.reconcile ≡ put rk ck s.reconcile
    unfolding hold
    reconcile-hold = reconcile-release (get s.reconcile rk) ck held

    holders-hold :
        (j : String)
        → holders j (hold ck rk entry s).1.reconcile ≡ holders j (put rk ck s.reconcile)
    holders-hold j = ap (holders j) reconcile-hold

    refs-drop_ref : (o : Option (LimiterEntry Lim)) → refs (drop_ref o) ≡ refs o - 1
    refs-drop_ref none = ground arith
    refs-drop_ref (some e) = ground arith

    hold-counted :
        (j : String)
        → refs (get (hold ck rk entry s).1.entries j) ≡ holders j (hold ck rk entry s).1.reconcile
    hold-counted j = elim (Bool-cases (str_eq ck j)) [
      | inl same ↦
          let name : ck ≡ j = (eq_iff ck j).0 same in
          ground (
            arith,
            holders-hold j,
            same,
            name,
            after-hold j,
            count,
            holders-put j rk ck s.reconcile v.distinct,
          )
      | inr other ↦ elim (Bool-cases (is_key j (get s.reconcile rk))) [
        | inl had ↦ ground (
          arith,
          holders-hold j,
          other,
          had,
          after-hold j,
          refs-drop_ref (get s.entries j),
          v.counted j,
          holders-put j rk ck s.reconcile v.distinct,
        )
        | inr not_had ↦ ground (
          arith,
          holders-hold j,
          other,
          not_had,
          after-hold j,
          v.counted j,
          holders-put j rk ck s.reconcile v.distinct,
        )
      ]
    ]

    hold-positive :
        (j : String) (e : LimiterEntry Lim)
        → get (hold ck rk entry s).1.entries j ≡ some e
        → 0 < e.ref_count
    hold-positive j e h = elim (Bool-cases (str_eq ck j)) [
      | inl same ↦
          ground (arith, same, h, after-hold j, count, holders-delete ck rk s.reconcile v.distinct)
      | inr other ↦ elim (Option-cases (get s.entries j)) [
        | inl n ↦ absurd (ground (arith, other, n, h, after-hold j))
        | inr (old, n) ↦ ground (arith, other, n, h, after-hold j, v.positive j old n)
      ]
    ]

    Distinct-put : Distinct (put rk ck s.reconcile)
    unfolding put
    Distinct-put = (
      ground (arith, get-delete rk s.reconcile rk, eq_iff rk rk),
      Distinct-delete rk s.reconcile v.distinct,
    )

    hold-IsCounted : IsCounted (hold ck rk entry s).1
    hold-IsCounted = record {
      distinct = subst Distinct (sym reconcile-hold) Distinct-put;
      counted = hold-counted;
      positive = hold-positive;
    }

    -- Another instance keeps its key and the limiter of its key.
    hold_keeps :
        (r k : String) (e : LimiterEntry Lim)
        → r ≢ rk
        → get s.reconcile r ≡ some k
        → get s.entries k ≡ some e
        → (k ≡ ck → entry.lim ≡ e.lim)
        → (get (hold ck rk entry s).1.reconcile r ≡ some k)
          × ((e' : LimiterEntry Lim) × (get (hold ck rk entry s).1.entries k ≡ some e')
              × (e'.lim ≡ e.lim))
    hold_keeps r k e other holds at_k same_lim = (
      ap (λ m. get m r) reconcile-hold
          ∙ ground (arith, other, holds, get-put rk ck s.reconcile r, eq_iff rk r),
      elim (Bool-cases (str_eq ck k)) [
        | inl same ↦
            (entry, ground (arith, after-hold k, same), same_lim (sym ((eq_iff ck k).0 same)))
        | inr new ↦ elim (Bool-cases (is_key k (get s.reconcile rk))) [
          | inl had ↦ (
            record e { ref_count = e.ref_count - 1 },
            ground (arith, after-hold k, new, had, at_k, shared had),
            refl,
          )
          | inr not_had ↦ (e, ground (arith, after-hold k, new, not_had, at_k), refl)
        ]
      ],
    )
      where
        shared : is_key k (get s.reconcile rk) ≡ true → leb e.ref_count 1 ≡ false
        shared had = ground (
          arith,
          had,
          at_k,
          v.counted k,
          holders-delete k rk s.reconcile v.distinct,
          get-holders k r (delete rk s.reconcile),
          get-delete rk s.reconcile r,
          eq_iff rk r,
          holds,
          other,
        )

  existing_count :
      (ck rk : String) (e : LimiterEntry Lim) (s : LimiterCache Lim)
      → IsCounted s
      → get s.entries ck ≡ some e
      → (if is_key ck (get s.reconcile rk)
          then e
          else record e { ref_count = e.ref_count + 1 }).ref_count
        ≡ holders ck s.reconcile + (if is_key ck (get s.reconcile rk) then 0 else 1)
  existing_count ck rk e s v at_ck = ground (arith, v.counted ck, at_ck)

  new_count :
      (ck rk : String) (s : LimiterCache Lim)
      → IsCounted s
      → get s.entries ck ≡ none
      → 1 ≡ holders ck s.reconcile + (if is_key ck (get s.reconcile rk) then 0 else 1)
  new_count ck rk s v n =
      ground (arith, v.counted ck, n, holders-delete ck rk s.reconcile v.distinct)

  -- sharedLimiter keeps the reference count of every entry equal to the number of the instances that
  -- hold it, and every entry held, whatever the creation of a limiter answers.
  pub shared_limiter-IsCounted :
      (ck rk : String) (create : Outcome Lim) (s : LimiterCache Lim)
      → IsCounted s
      → IsCounted (shared_limiter ck rk create s).1
  unfolding shared_limiter
  shared_limiter-IsCounted ck rk create s v = elim (Option-cases (get s.entries ck)) [
    | inr (e, at_ck) ↦
        rw (at_ck, shared_limiter) (hold-IsCounted ck rk _ s v (existing_count ck rk e s v at_ck))
    | inl n ↦ elim (Outcome-cases create) [
      | inl (lim, made) ↦
          rw (n, made, shared_limiter) (hold-IsCounted ck rk _ s v (new_count ck rk s v n))
      | inr (inl (m, failed)) ↦ rw (n, failed, shared_limiter) v
      | inr (inr crashed) ↦ rw (n, crashed, shared_limiter) v
    ]
  ]

  -- sharedLimiter never takes a limiter from another instance: where counts are right, an instance
  -- other than the caller keeps its key, and the key keeps its entry with the same limiter.
  pub shared_limiter_keeps :
      (ck rk : String) (create : Outcome Lim) (s : LimiterCache Lim) (r k : String)
      (e : LimiterEntry Lim)
      → IsCounted s
      → r ≢ rk
      → get s.reconcile r ≡ some k
      → get s.entries k ≡ some e
      → let s' = (shared_limiter ck rk create s).1 in
        (get s'.reconcile r ≡ some k)
        × ((e' : LimiterEntry Lim) × (get s'.entries k ≡ some e') × (e'.lim ≡ e.lim))
  unfolding shared_limiter
  shared_limiter_keeps ck rk create s r k e v other holds at_k =
      elim (Option-cases (get s.entries ck)) [
        | inr (o, at_ck) ↦
            rw (at_ck, shared_limiter)
              (hold_keeps ck rk _ s v (existing_count ck rk o s v at_ck) r k e other holds at_k
                (λ same. ground (arith, same, at_ck, at_k)))
        | inl n ↦ elim (Outcome-cases create) [
          | inl (lim, made) ↦
              rw (n, made, shared_limiter)
                (hold_keeps ck rk _ s v (new_count ck rk s v n) r k e other holds at_k
                  (λ same. absurd (ground (arith, same, n, at_k))))
          | inr (inl (m, failed)) ↦ rw (n, failed, shared_limiter) (holds, (e, at_k, refl))
          | inr (inr crashed) ↦ rw (n, crashed, shared_limiter) (holds, (e, at_k, refl))
        ]
      ]
