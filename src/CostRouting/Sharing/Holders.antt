-- ===== src/CostRouting/Sharing/Holders.antt =====
-- How many keys of a map hold a value, under a deletion and an insertion.
use text.Mathlib.Text.{◌==◌ as str_eq}
use text.Mathlib.TextEquality.{eq_iff}
use gateway_controllers.Prelude.{
  ℕ, ◌+◌, ◌<◌, ◌≡◌, refl, sym, ◌∙◌, ap, inl, inr, String, Bool, none, some, [], ◌∷◌, arith,
  Bool-cases, if◌then◌else◌,
}
use gateway_controllers.Prelude.Table.{Table, get, put, delete, get-delete}
use gateway_controllers.CostRouting.Sharing.{is_key}

-- How many instances hold the entry of a key.
abbrev pub holders : String → Table String → ℕ
holders k [] = 0
holders k ((r, v) ∷ m) = (if str_eq v k then 1 else 0) + holders k m

abbrev pub Distinct : Table String → Type 0
Distinct [] = Unit {0}
Distinct ((r, v) ∷ m) = (get m r ≡ none) × Distinct m

pub Distinct-delete : (r : String) (m : Table String) → Distinct m → Distinct (delete r m)
unfolding delete
Distinct-delete r [] d = d
Distinct-delete r ((j, v) ∷ m) (n, d) = elim (Bool-cases (str_eq j r)) [
  | inl e ↦ rw e (Distinct-delete r m d)
  | inr e ↦ rw e (ground (arith, get-delete r m j, n), Distinct-delete r m d)
]

abbrev pub one_if : Bool → ℕ
one_if b = if b then 1 else 0

pub get-holders : (k r : String) (m : Table String) → get m r ≡ some k → 0 < holders k m
unfolding get
get-holders k r [] h = absurd (cc)
get-holders k r ((j, v) ∷ m) h = elim (Bool-cases (str_eq j r)) [
  | inl e ↦ ground (arith, e, h, eq_iff v k)
  | inr e ↦ ground (arith, e, h, get-holders k r m)
]

-- An instance that holds nothing is not counted, and a deletion takes one holder.
delete-none : (r : String) (m : Table String) → get m r ≡ none → delete r m ≡ m
unfolding get delete
delete-none r [] h = refl
delete-none r ((j, v) ∷ m) h = elim (Bool-cases (str_eq j r)) [
  | inl e ↦ absurd (ground (arith, e, h))
  | inr e ↦ rw e (ap (λ (l : Table String). (j, v) ∷ l) (delete-none r m (ground (arith, e, h))))
]

pub holders-delete :
    (k r : String) (m : Table String)
    → Distinct m
    → holders k (delete r m) + one_if (is_key k (get m r)) ≡ holders k m
unfolding get delete
holders-delete k r [] d = refl
holders-delete k r ((j, v) ∷ m) (n, d) = elim (Bool-cases (str_eq j r)) [
  | inl e ↦
      let same : j ≡ r = (eq_iff j r).0 e in
      rw (e, delete-none r m (ap (get m) (sym same) ∙ n)) (omega arith)
  | inr e ↦ rw e (omega (arith, holders-delete k r m d))
]

pub holders-put :
    (k r v : String) (m : Table String)
    → Distinct m
    → holders k (put r v m) + one_if (is_key k (get m r)) ≡ one_if (str_eq v k) + holders k m
unfolding put
holders-put k r v m d = omega (arith, holders-delete k r m d)
