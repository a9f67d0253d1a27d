-- ===== src/Cors/Origins.antt =====
-- Which origins are allowed: with credentials, and on the way of a request and its response.
use text.Mathlib.Text.{◌==◌ as str_eq}
use text.Mathlib.TextEquality.{eq_iff}
use gateway_controllers.Prelude.{
  ◌≡◌, refl, ◌⊎◌, sym, ◌∙◌, ap, inl, inr, String, Bool, true, false, none, some, List, [], ◌∷◌,
  arith, Bool-cases, Option-cases, List-cases, subst,
}
use gateway_controllers.Prelude.Table.{Table, get}
use gateway_controllers.Limiter.{Outcome-cases, ok}
use gateway_controllers.Value.{Fields, FloatOps}
use gateway_controllers.Prelude.Text.{has_text}
use gateway_controllers.Cors.{
  CorsPolicy, TextOps, Request, Notes, respond_204, allow_origin, is_origin_allowed, granted_origin,
  handle_preflight_headers, handle_non_preflight_headers, on_request_headers, on_response_headers,
}
use gateway_controllers.Cors.Setup.{
  collapse, is_star, is_star_first, credentials_error, read_params, compile_origins, get_policy,
}
use gateway_controllers.Cors.Granting.{first_of, preflight_all_or_nothing}
use gateway_controllers.Cors.Actual.{
  actual_table, origin-actual_table, IsGiven, stripped, actual_table-IsGiven, response_allowed,
  response_refused,
}

module _ (ops : TextOps) (p : CorsPolicy ops.Regexp) where
  -- No wildcard stands first among the origins.
  abbrev NoStar : Type 0
  NoStar = is_star_first p.allowed_origins ≡ false

  granted_is_own :
      NoStar
      → (origin : List String) (o : String) (varies : Bool)
      → granted_origin ops p origin ≡ some (o, varies)
      → (rest : List String) × (origin ≡ o ∷ rest)
        × (is_origin_allowed ops p.compiled_allowed_origins o ≡ true)
  granted_is_own no_star origin o varies e = elim (List-cases p.allowed_origins) [
    | inl n ↦ absurd (ground (arith, n, e))
    | inr (a, more, n) ↦ elim (List-cases origin) [
      | inl m ↦ absurd (ground (arith, n, m, e, no_star))
      | inr (x, rest, m) ↦ elim (Bool-cases (is_origin_allowed ops p.compiled_allowed_origins x)) [
        | inl t ↦
            let same : x ≡ o = ground (arith, n, m, t, e, no_star) in
            (
              rest,
              m ∙ ap (λ (y : String). y ∷ rest) same,
              subst (λ (y : String). is_origin_allowed ops p.compiled_allowed_origins y ≡ true) same
                  t,
            )
        | inr t ↦ absurd (ground (arith, n, m, t, e, no_star))
      ]
    ]
  ]

collapse_lem :
    (xs : List String) → is_star (collapse xs) ≡ false → is_star_first (collapse xs) ≡ false
unfolding has_text
collapse_lem [] h = refl
collapse_lem (x ∷ xs) h = ground (arith, h, eq_iff x "*", eq_iff "*" "*")

star_refused :
    (ops : TextOps) (q : CorsPolicy ops.Regexp)
    → credentials_error ops q ≡ none
    → q.allow_credentials ≡ some true
    → is_star q.allowed_origins ≡ false
unfolding credentials_error
star_refused ops q fine h = elim (Bool-cases (is_star q.allowed_origins)) [
  | inl t ↦ absurd (ground (arith, t, h, fine))
  | inr t ↦ t
]

read_params-NoStar :
    (ops : TextOps) (floats : FloatOps) (params : Fields)
    → is_star (read_params ops floats params).allowed_origins ≡ false
    → NoStar ops (read_params ops floats params)
unfolding read_params
read_params-NoStar ops floats params h = collapse_lem _ h

-- GetPolicy returns the parameters that it reads, with the compiled origins, if they are accepted.
pub get_policy_inv :
    (ops : TextOps) (floats : FloatOps) (params : Fields) (p : CorsPolicy ops.Regexp)
    → get_policy ops floats params ≡ ok p
    → (credentials_error ops (read_params ops floats params) ≡ none)
      × ((rs : List ops.Regexp) × (compile_origins ops
              (read_params ops floats params).allowed_origins
            ≡ ok rs)
          × (record (read_params ops floats params) { compiled_allowed_origins = rs } ≡ p))
unfolding get_policy
get_policy_inv ops floats params p e =
    elim (Option-cases (credentials_error ops (read_params ops floats params))) [
      | inr (m, refused) ↦ absurd (ground (arith, refused, e))
      | inl fine ↦
          elim (Outcome-cases
            (compile_origins ops (read_params ops floats params).allowed_origins)) [
              | inl (rs, compiled) ↦ (fine, (rs, compiled, ground (arith, fine, compiled, e)))
              | inr (inl (m, bad)) ↦ absurd (ground (arith, fine, bad, e))
              | inr (inr bad) ↦ absurd (ground (arith, fine, bad, e))
            ]
    ]

get_policy-NoStar :
    (ops : TextOps) (floats : FloatOps) (params : Fields) (p : CorsPolicy ops.Regexp)
    → get_policy ops floats params ≡ ok p
    → p.allow_credentials ≡ some true
    → NoStar ops p
get_policy-NoStar ops floats params p e with_credentials =
    let (fine, (rs, compiled, made)) = get_policy_inv ops floats params p e in
    subst (NoStar ops) made (
      read_params-NoStar ops floats params (
        star_refused ops (read_params ops floats params) fine
          (ap (λ (q : CorsPolicy ops.Regexp). q.allow_credentials) made ∙ with_credentials)))

module _ (ops : TextOps) (p : CorsPolicy ops.Regexp) (req : Request) where
  -- The headers of an answer to a preflight request, or of the response to another request.
  pub data Answers (h : Table String) : Type 0 where
    preflight : handle_preflight_headers ops p req ≡ respond_204 h → Answers h
    actual : handle_non_preflight_headers ops p req ≡ some h → Answers h

  origin-answer :
      (h : Table String) (o : String)
      → Answers h
      → get h allow_origin ≡ some o
      → first_of (granted_origin ops p (req.values "Origin")) ≡ some o
  unfolding get handle_non_preflight_headers
  origin-answer h o (preflight e) named = elim (preflight_all_or_nothing ops p req h e) [
    | inl nothing ↦ absurd (ground (arith, nothing, named))
    | inr g ↦ sym g.origin_named ∙ named
  ]
  origin-answer h o (actual e) named =
      elim (Option-cases (granted_origin ops p (req.values "Origin"))) [
        | inl n ↦ absurd (ground (arith, n, e))
        | inr (g, n) ↦
            let table : h ≡ actual_table ops p req g = ground (arith, n, e) in
            ap first_of n
            ∙ sym (origin-actual_table ops p req g)
            ∙ ap (λ (t : Table String). get t allow_origin) (sym table)
            ∙ named
      ]

-- Under a policy of GetPolicy that allows credentials, an origin is only ever allowed by its name: an
-- answer that allows an origin names the Origin that the request has first, and a configured origin
-- matches it. So no answer allows "*" with credentials unless that text is itself such an Origin.
pub credentialed_origin_is_own :
    (ops : TextOps) (floats : FloatOps) (params : Fields) (p : CorsPolicy ops.Regexp)
    (req : Request) (h : Table String) (o : String)
    → get_policy ops floats params ≡ ok p
    → p.allow_credentials ≡ some true
    → Answers ops p req h
    → get h allow_origin ≡ some o
    → (rest : List String) × (req.values "Origin" ≡ o ∷ rest)
      × (is_origin_allowed ops p.compiled_allowed_origins o ≡ true)
credentialed_origin_is_own ops floats params p req h o made with_credentials answer named =
    elim (Option-cases (granted_origin ops p (req.values "Origin"))) [
      | inl n ↦ absurd (ground (arith, n, origin-answer ops p req h o answer named))
      | inr ((g, varies), n) ↦
          let same : g ≡ o = ground (arith, n, origin-answer ops p req h o answer named) in
          granted_is_own ops p (get_policy-NoStar ops floats params p made with_credentials)
            (req.values "Origin") o varies (n ∙ ap (λ (x : String). some (x, varies)) same)
    ]

-- The two hooks on one request that is no OPTIONS request and has an Origin, where no wildcard stands
-- first among the origins, and the metadata has no entry cors_headers yet. If a configured origin
-- matches, the response is given that origin, Vary, and the configured credentials and exposed
-- headers, no other header, and loses nothing; otherwise it is given no header at all, and loses
-- the three headers by which the upstream could allow the origin.
pub actual_request_lem :
    (ops : TextOps) (p : CorsPolicy ops.Regexp) (req : Request) (notes : Notes) (o : String)
    (rest : List String) (a : String) (more : List String)
    → ops.equal_fold req.method "options" ≡ false
    → notes.cors_headers ≡ none
    → req.values "Origin" ≡ o ∷ rest
    → req.has "Origin" ≡ true
    → p.allowed_origins ≡ a ∷ more
    → str_eq a "*" ≡ false
    → let r = on_response_headers (on_request_headers ops p req notes).1 in
      ((is_origin_allowed ops p.compiled_allowed_origins o ≡ true)
        × IsGiven p o r.headers_to_set
        × (r.headers_to_remove ≡ []))
      ⊎ ((is_origin_allowed ops p.compiled_allowed_origins o ≡ false) × (r ≡ stripped))
actual_request_lem ops p req notes o rest a more m fresh v has n no_star =
    elim (Bool-cases (is_origin_allowed ops p.compiled_allowed_origins o)) [
      | inl t ↦
          rw (response_allowed ops p req notes m (o, true) (ground (arith, v, n, no_star, t)))
            (inl (t, actual_table-IsGiven ops p req o, refl))
      | inr t ↦
          inr (t, response_refused ops p req notes m has (ground (arith, v, n, no_star, t)) fresh)
    ]
