-- ===== src/Prelude/Sums.antt =====
-- Sums of a function over a range, and the elements of a list that a test accepts.
use gateway_controllers.Prelude.{
  ℕ, zero, suc, ◌+◌, ◌%◌, ◌<◌, ◌≡◌, refl, ap, sym, ◌∙◌, arith, Bool, Option, none, some, List, [],
  ◌∷◌, ◌++◌, length, replicate, get_elem?, if◌then◌else◌,
}
use native.Mathlib.Nat.{mod-eq_of_lt, add-mod_right}

-- f i + f (i + 1) + … , k terms.
unfoldable pub sum : (ℕ → ℕ) → ℕ → ℕ → ℕ
sum f i zero = 0
sum f i (suc k) = f i + sum f (suc i) k

module _ {ℓ} {A : Type ℓ} where
  unfoldable pub count : (A → Bool) → List A → ℕ
  count q [] = 0
  count q (x ∷ xs) = (if q x then 1 else 0) + count q xs

  pub count-append : (q : A → Bool) (xs ys : List A) → count q (xs ++ ys) ≡ count q xs + count q ys
  unfolding count
  count-append q [] ys = omega arith
  count-append q (x ∷ xs) ys = omega (arith, count-append q xs ys)

  pub count-replicate :
      (q : A → Bool) (n : ℕ) (a : A) → count q (replicate n a) ≡ (if q a then n else 0)
  unfolding count
  count-replicate q zero a = ground arith
  count-replicate q (suc n) a = ground (arith, count-replicate q n a)

  -- 1 where the test accepts the element, else 0.
  abbrev pub hit : (A → Bool) → Option A → ℕ
  hit q none = 0
  hit q (some a) = if q a then 1 else 0

sum_last : (f : ℕ → ℕ) (i k : ℕ) → sum f i (suc k) ≡ sum f i k + f (i + k)
unfolding sum
sum_last f i zero = omega (arith, ap f (add_zero i))
  where
    add_zero : (i : ℕ) → i ≡ i + 0
    add_zero i = omega arith
sum_last f i (suc k) = omega (arith, sum_last f (suc i) k, ap f (shift i k))
  where
    shift : (i k : ℕ) → suc i + k ≡ i + suc k
    shift i k = omega arith

sum-suc : (f : ℕ → ℕ) (i k : ℕ) → sum f (suc i) k ≡ sum (λ c. f (suc c)) i k
unfolding sum
sum-suc f i zero = refl
sum-suc f i (suc k) = ap (λ s. f (suc i) + s) (sum-suc f (suc i) k)

sum_cong : (f g : ℕ → ℕ) (i k : ℕ) → ((c : ℕ) → c < i + k → f c ≡ g c) → sum f i k ≡ sum g i k
unfolding sum
sum_cong f g i zero h = refl
sum_cong f g i (suc k) h =
    omega (arith, h i (omega arith), sum_cong f g (suc i) k (λ c l. h c (omega arith)))

-- A function that repeats after n sums to the same over any n positions in a row.
sum_period : (f : ℕ → ℕ) (n i : ℕ) → ((c : ℕ) → f (c + n) ≡ f c) → sum f i n ≡ sum f 0 n
sum_period f n zero h = refl
sum_period f n (suc i) h =
    let front : sum f i (suc n) ≡ f i + sum f (suc i) n = unfold sum in refl in
    omega (arith, front, sum_last f i n, h i, sum_period f n i h)

count_sum :
    {A : Type 0} (q : A → Bool) (xs : List A)
    → count q xs ≡ sum (λ c. hit q (get_elem? xs c)) 0 (length xs)
unfolding count sum
count_sum q [] = refl
count_sum q (x ∷ xs) =
    omega (arith, count_sum q xs, sum-suc (λ c. hit q (get_elem? (x ∷ xs) c)) 0 (length xs))

-- Over as many positions in a row as a list is long, taken modulo its length, a test accepts as
-- many elements as in the list.
pub sum_round :
    {A : Type 0} (q : A → Bool) (xs : List A) (i : ℕ)
    → sum (λ c. hit q (get_elem? xs (c % length xs))) i (length xs) ≡ count q xs
sum_round q xs i =
    sum_period (λ c. hit q (get_elem? xs (c % length xs))) (length xs) i
      (λ c. ap (λ j. hit q (get_elem? xs j)) (add-mod_right c (length xs)))
    ∙ sum_cong (λ c. hit q (get_elem? xs (c % length xs))) (λ c. hit q (get_elem? xs c)) 0
        (length xs) (λ c l. ap (λ j. hit q (get_elem? xs j)) (mod-eq_of_lt (omega arith)))
    ∙ sym (count_sum q xs)
