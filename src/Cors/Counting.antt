-- ===== src/Cors/Counting.antt =====
-- The count of the allowed headers against the number of the requested ones.
use text.Mathlib.Text.{◌==◌ as str_eq}
use gateway_controllers.Prelude.{
  ℕ, ◌+◌, ◌≤◌, ◌<◌, ◌≡◌, refl, sym, ◌↔◌, inl, inr, String, Bool, true, false, ◌||◌, List, [], ◌∷◌,
  length, length-append, arith, Bool-cases, Each, if◌then◌else◌,
}
use gateway_controllers.Cors.{
  CorsPolicy, TextOps, same_header, checked_for, checked_headers, granted_headers,
}

module _ (ops : TextOps) where
  -- How many of the allowed headers are the same as a requested one.
  abbrev pub matches : List String → String → ℕ
  matches [] r = 0
  matches (a ∷ more) r = (if same_header ops a r then 1 else 0) + matches more r

  abbrev pub is_listed : List String → String → Bool
  is_listed [] r = false
  is_listed (a ∷ more) r = same_header ops a r || is_listed more r

  abbrev total : List String → List String → ℕ
  total allowed [] = 0
  total allowed (r ∷ rs) = matches allowed r + total allowed rs

  total-cons :
      (a : String) (more rs : List String)
      → total (a ∷ more) rs ≡ length (checked_for ops a rs) + total more rs
  unfolding checked_for
  total-cons a more [] = refl
  total-cons a more (r ∷ rs) = ground (arith, total-cons a more rs)

  total_none : (rs : List String) → total [] rs ≡ 0
  total_none [] = refl
  total_none (r ∷ rs) = omega (arith, total_none rs)

  length-checked_headers :
      (allowed rs : List String) → length (checked_headers ops allowed rs) ≡ total allowed rs
  unfolding checked_headers
  length-checked_headers [] rs = sym (total_none rs)
  length-checked_headers (a ∷ more) rs = omega (
    arith,
    length-append (checked_for ops a rs) (checked_headers ops more rs),
    length-checked_headers more rs,
    total-cons a more rs,
  )

  matches-is_listed :
      (allowed : List String) (r : String)
      → (is_listed allowed r ≡ true → 0 < matches allowed r)
        × (is_listed allowed r ≡ false → matches allowed r ≡ 0)
  matches-is_listed [] r = ((λ h. absurd (cc)), λ h. refl)
  matches-is_listed (a ∷ more) r =
      let (some_of, none_of) = matches-is_listed more r in
      ((λ h. ground (arith, h, some_of)), (λ h. ground (arith, h, none_of)))

  -- No requested header is the same as two of the allowed ones.
  abbrev pub AtMostOne : List String → List String → Type 0
  AtMostOne allowed = Each (λ r. matches allowed r ≤ 1)

  abbrev pub AllListed : List String → List String → Type 0
  AllListed allowed = Each (λ r. is_listed allowed r ≡ true)

  total-le-length : (allowed rs : List String) → AtMostOne allowed rs → total allowed rs ≤ length rs
  total-le-length allowed [] h = omega arith
  total-le-length allowed (r ∷ rs) (h, hs) = omega (arith, h, total-le-length allowed rs hs)

  total-AllListed :
      (allowed rs : List String)
      → AtMostOne allowed rs
      → (total allowed rs ≡ length rs) ↔ AllListed allowed rs
  total-AllListed allowed [] h = ((λ e. tt), λ e. refl)
  total-AllListed allowed (r ∷ rs) (h, hs) = (
    (λ e. elim (Bool-cases (is_listed allowed r)) [
      | inl t ↦ (
        t,
        (total-AllListed allowed rs hs).0 (omega (arith, e, h, total-le-length allowed rs hs)),
      )
      | inr f ↦
          absurd
            (omega (arith, e, (matches-is_listed allowed r).1 f, total-le-length allowed rs hs))
    ]),
    (λ (t, ts).
        omega (arith, h, (matches-is_listed allowed r).0 t, (total-AllListed allowed rs hs).1 ts)),
  )

  -- Where no wildcard stands first among the allowed headers, and no requested header is the same as
  -- two of them, up to case and blanks, the headers of a preflight request are allowed exactly when
  -- every one of them is listed.
  pub granted_headers_iff :
      (p : CorsPolicy ops.Regexp) (a : String) (more : List String) (x : String) (xs : List String)
      → p.allowed_headers ≡ a ∷ more
      → str_eq a "*" ≡ false
      → AtMostOne (a ∷ more) (ops.split x)
      → ((granted_headers ops p (x ∷ xs)).1 ≡ true) ↔ AllListed (a ∷ more) (ops.split x)
  unfolding granted_headers
  granted_headers_iff p a more x xs e no_star once = (
    (λ h. (total-AllListed (a ∷ more) (ops.split x) once).0 (counted h)),
    (λ h. granted ((total-AllListed (a ∷ more) (ops.split x) once).1 h)),
  )
    where
      counted :
          (granted_headers ops p (x ∷ xs)).1 ≡ true
          → total (a ∷ more) (ops.split x) ≡ length (ops.split x)
      counted h = ground (arith, e, no_star, h, length-checked_headers (a ∷ more) (ops.split x))

      granted :
          total (a ∷ more) (ops.split x) ≡ length (ops.split x)
          → (granted_headers ops p (x ∷ xs)).1 ≡ true
      granted h = ground (arith, e, no_star, h, length-checked_headers (a ∷ more) (ops.split x))

  -- The count is fooled by a header that is configured twice: a request for that header and one other
  -- that is not listed is allowed.
  pub repeated_header_passes :
      (p : CorsPolicy ops.Regexp) (a b x r s : String) (xs : List String)
      → p.allowed_headers ≡ a ∷ b ∷ []
      → str_eq a "*" ≡ false
      → ops.split x ≡ r ∷ s ∷ []
      → same_header ops a r ≡ true
      → same_header ops b r ≡ true
      → same_header ops a s ≡ false
      → same_header ops b s ≡ false
      → (is_listed (a ∷ b ∷ []) s ≡ false) × ((granted_headers ops p (x ∷ xs)).1 ≡ true)
  unfolding granted_headers checked_headers checked_for
  repeated_header_passes p a b x r s xs e no_star two ar br as_ bs =
      (ground (arith, as_, bs), ground (arith, e, no_star, two, ar, br, as_, bs))
