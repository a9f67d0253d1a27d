-- ===== src/Prelude/Table.antt =====
-- A Go map with string keys that is measured and iterated: an association list. The order of the
-- list stands for the order in which an iteration meets the keys, which Go leaves open.
use Prim.Native.Nat.{◌≤◌, ◌<◌}
use Prim.Native.String.{String}
use mathlib.Core.Path.{◌≡◌, refl, subst}
use mathlib.Core.Logic.{◌≢◌, inl, inr}
use mathlib.Core.Option.{Option, none, some}
use mathlib.Core.List.{List, [], ◌∷◌}
use native.Mathlib.Omega.{arith}
use text.Mathlib.Text.{◌==◌ as str_eq}
use text.Mathlib.TextEquality.{eq_iff}
use gateway_controllers.Prelude.Tests.{if◌then◌else◌, Bool-cases}
use gateway_controllers.Prelude.Lists.{length}

abbrev pub Table {ℓ} : Type ℓ → Type ℓ
Table V = List (String × V)

module _ {ℓ} {V : Type ℓ} where
  unfoldable pub get : Table V → String → Option V
  get [] j = none
  get ((k, v) ∷ m) j = if str_eq k j then some v else get m j

  unfoldable pub delete : String → Table V → Table V
  delete k [] = []
  delete k ((j, v) ∷ m) = let rest = delete k m in if str_eq j k then rest else (j, v) ∷ rest

  unfoldable pub put : String → V → Table V → Table V
  put k v m = (k, v) ∷ delete k m

  abbrev pub All {κ} : (String → V → Type κ) → Table V → Type κ
  All P [] = Unit {κ}
  All P ((k, v) ∷ m) = P k v × All P m

  pub get-delete :
      (k : String) (m : Table V) (j : String)
      → get (delete k m) j ≡ (if str_eq k j then none else get m j)
  unfolding get delete
  get-delete k [] j = ground arith
  get-delete k ((i, v) ∷ m) j = ground (arith, get-delete k m j, eq_iff i k, eq_iff k j, eq_iff i j)

  pub get-put :
      (k : String) (v : V) (m : Table V) (j : String)
      → get (put k v m) j ≡ (if str_eq k j then some v else get m j)
  unfolding get put
  get-put k v m j = ground (arith, get-delete k m j)

  pub get-put_self : (k : String) (v : V) (m : Table V) → get (put k v m) k ≡ some v
  get-put_self k v m = ground (arith, get-put k v m k, eq_iff k k)

  pub length-delete-le : (k : String) (m : Table V) → length (delete k m) ≤ length m
  unfolding delete
  length-delete-le k [] = omega arith
  length-delete-le k ((j, v) ∷ m) = ground (arith, length-delete-le k m)

  -- A key that is there is taken out.
  pub length-delete-lt :
      (k : String) (m : Table V) → get m k ≢ none → length (delete k m) < length m
  unfolding get delete
  length-delete-lt k [] h = absurd (h refl)
  length-delete-lt k ((j, v) ∷ m) h = ground (arith, length-delete-lt k m, length-delete-le k m)

  pub All-delete {κ} :
      (P : String → V → Type κ) (k : String) (m : Table V) → All P m → All P (delete k m)
  unfolding delete
  All-delete P k [] all = all
  All-delete P k ((j, v) ∷ m) (p, all) = elim (Bool-cases (str_eq j k)) [
    | inl e ↦ rw e (All-delete P k m all)
    | inr e ↦ rw e (p, All-delete P k m all)
  ]

  pub All-put {κ} :
      (P : String → V → Type κ) (k : String) (v : V) (m : Table V)
      → P k v
      → All P m
      → All P (put k v m)
  unfolding put
  All-put P k v m p all = (p, All-delete P k m all)

  pub All-get {κ} :
      (P : String → V → Type κ) (m : Table V) (k : String) (v : V)
      → All P m
      → get m k ≡ some v
      → P k v
  unfolding get
  All-get P [] k v all e = absurd (cc)
  All-get P ((j, w) ∷ m) k v (p, all) e = elim (Bool-cases (str_eq j k)) [
    | inl same ↦
        let name : j ≡ k = (eq_iff j k).0 same in
        let value : w ≡ v = ground (arith, e) in subst (λ x. P x v) name (subst (P j) value p)
    | inr other ↦ All-get P m k v all (ground (arith, e))
  ]

  pub All-map {κ μ} :
      (P : String → V → Type κ) (Q : String → V → Type μ) (m : Table V)
      → ((k : String) (v : V) → P k v → Q k v)
      → All P m
      → All Q m
  All-map P Q [] f all = tt
  All-map P Q ((k, v) ∷ m) f (p, all) = (f k v p, All-map P Q m f all)
