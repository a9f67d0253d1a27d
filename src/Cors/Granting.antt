-- ===== src/Cors/Granting.antt =====
-- What a response grants: the origin, the methods and the credentials in its headers.
use text.Mathlib.Text.{◌==◌ as str_eq}
use text.Mathlib.TextEquality.{eq_iff}
use gateway_controllers.Prelude.{
  ◌≡◌, refl, ◌∙◌, ◌⊎◌, inl, inr, String, Bool, true, false, ◌&&◌, ◌||◌, Option, none, some, List,
  [], arith, Bool-cases, subst, if◌then◌else◌,
}
use gateway_controllers.Prelude.Table.{Table, get, put, get-put}
use gateway_controllers.Cors.{
  CorsPolicy, TextOps, Request, respond_204, allow_origin, allow_methods, allow_headers,
  allow_credentials_header, max_age_header, is_some, is_empty, granted_origin, put_origin,
  granted_methods, granted_headers, put_some, age_text, credentials_text, handle_preflight_headers,
}

pub get-put_some :
    (k : String) (v : Option String) (h : Table String) (j : String)
    → str_eq k j ≡ false
    → get (put_some k v h) j ≡ get h j
get-put_some k none h j e = refl
get-put_some k (some v) h j e = ground (arith, get-put k v h j, e)

pub get-put_some_self :
    (k : String) (v : Option String) (h : Table String)
    → get h k ≡ none
    → get (put_some k v h) k ≡ v
get-put_some_self k none h e = e
get-put_some_self k (some v) h e = ground (arith, get-put k v h k, eq_iff k k)

pub get-put_origin :
    (o : Option (String × Bool)) (j : String)
    → str_eq allow_origin j ≡ false
    → str_eq "Vary" j ≡ false
    → get (put_origin o []) j ≡ none
unfolding get
get-put_origin none j e f = refl
get-put_origin (some (o, true)) j e f =
    ground
      (arith, get-put "Vary" "Origin" (put allow_origin o []) j, get-put allow_origin o [] j, e, f)
get-put_origin (some (o, false)) j e f = ground (arith, get-put allow_origin o [] j, e)

abbrev pub first_of : Option (String × Bool) → Option String
first_of none = none
first_of (some (o, varies)) = some o

pub origin-put_origin :
    (o : Option (String × Bool)) → get (put_origin o []) allow_origin ≡ first_of o
unfolding get
origin-put_origin none = refl
origin-put_origin (some (o, true)) = ground (
  arith,
  get-put "Vary" "Origin" (put allow_origin o []) allow_origin,
  get-put allow_origin o [] allow_origin,
  eq_iff allow_origin allow_origin,
)
origin-put_origin (some (o, false)) =
    ground (arith, get-put allow_origin o [] allow_origin, eq_iff allow_origin allow_origin)

-- The header Vary is set for an origin that is named for itself.
abbrev pub vary_of : Option (String × Bool) → Option String
vary_of none = none
vary_of (some (o, varies)) = if varies then some "Origin" else none

pub vary-put_origin : (o : Option (String × Bool)) → get (put_origin o []) "Vary" ≡ vary_of o
unfolding get
vary-put_origin none = refl
vary-put_origin (some (o, true)) =
    ground (arith, get-put "Vary" "Origin" (put allow_origin o []) "Vary", eq_iff "Vary" "Vary")
vary-put_origin (some (o, false)) = ground (arith, get-put allow_origin o [] "Vary")

module _ (ops : TextOps) (p : CorsPolicy ops.Regexp) (req : Request) where
  abbrev requested : List String
  requested = req.values "Access-Control-Request-Headers"

  abbrev origin : Option (String × Bool)
  origin = granted_origin ops p (req.values "Origin")

  abbrev methods : Option String
  methods = granted_methods ops p (req.values "Access-Control-Request-Method")

  abbrev pub preflight_table : Table String
  preflight_table = put_some allow_credentials_header (credentials_text p.allow_credentials) (
      put_some max_age_header (age_text p.max_age) (
        put_some allow_headers (granted_headers ops p requested).0
          (put_some allow_methods methods (put_origin origin []))))

  -- A preflight answer that grants something. It names the granted origin, the allowed methods, the
  -- value that the test of the requested headers answers, and the configured credentials and age; it
  -- varies with the origin where the origin is named for itself, and it has no other header. The
  -- origin and the method are allowed, and the headers pass their test or none are requested.
  pub record IsGrant (h : Table String) : Type 0 where
    pub origin_named : get h allow_origin ≡ first_of origin
    pub varies_with : get h "Vary" ≡ vary_of origin
    pub origin_allowed : is_some origin ≡ true
    pub methods_named : get h allow_methods ≡ methods
    pub methods_allowed : is_some methods ≡ true
    pub headers_named : get h allow_headers ≡ (granted_headers ops p requested).0
    pub headers_allowed : ((granted_headers ops p requested).1 || is_empty requested) ≡ true
    pub credentials : get h allow_credentials_header ≡ credentials_text p.allow_credentials
    pub age : get h max_age_header ≡ age_text p.max_age
    pub no_other :
        (j : String)
        → str_eq allow_origin j ≡ false
        → str_eq "Vary" j ≡ false
        → str_eq allow_methods j ≡ false
        → str_eq allow_headers j ≡ false
        → str_eq allow_credentials_header j ≡ false
        → str_eq max_age_header j ≡ false
        → get h j ≡ none

  preflight_table_lem :
      (is_some origin
          && (is_some methods && ((granted_headers ops p requested).1 || is_empty requested)))
        ≡ true
      → IsGrant preflight_table
  preflight_table_lem e = record {
    origin_named =
        get-put_some allow_credentials_header _ _ allow_origin refl
        ∙ get-put_some max_age_header _ _ allow_origin refl
        ∙ get-put_some allow_headers _ _ allow_origin refl
        ∙ get-put_some allow_methods _ _ allow_origin refl
        ∙ origin-put_origin origin;
    varies_with =
        get-put_some allow_credentials_header _ _ "Vary" refl
        ∙ get-put_some max_age_header _ _ "Vary" refl
        ∙ get-put_some allow_headers _ _ "Vary" refl
        ∙ get-put_some allow_methods _ _ "Vary" refl
        ∙ vary-put_origin origin;
    origin_allowed = ground (arith, e);
    methods_named =
        get-put_some allow_credentials_header _ _ allow_methods refl
        ∙ get-put_some max_age_header _ _ allow_methods refl
        ∙ get-put_some allow_headers _ _ allow_methods refl
        ∙ get-put_some_self allow_methods methods _ (get-put_origin origin allow_methods refl refl);
    methods_allowed = ground (arith, e);
    headers_named =
        get-put_some allow_credentials_header _ _ allow_headers refl
        ∙ get-put_some max_age_header _ _ allow_headers refl
        ∙ get-put_some_self allow_headers (granted_headers ops p requested).0 _ (
            get-put_some allow_methods _ _ allow_headers refl
            ∙ get-put_origin origin allow_headers refl refl);
    headers_allowed = ground (arith, e);
    credentials =
        get-put_some_self allow_credentials_header (credentials_text p.allow_credentials) _ (
          get-put_some max_age_header _ _ allow_credentials_header refl
          ∙ get-put_some allow_headers _ _ allow_credentials_header refl
          ∙ get-put_some allow_methods _ _ allow_credentials_header refl
          ∙ get-put_origin origin allow_credentials_header refl refl);
    age =
        get-put_some allow_credentials_header _ _ max_age_header refl
        ∙ get-put_some_self max_age_header (age_text p.max_age) _ (
            get-put_some allow_headers _ _ max_age_header refl
            ∙ get-put_some allow_methods _ _ max_age_header refl
            ∙ get-put_origin origin max_age_header refl refl);
    no_other = λ j eo ev em eh ec ea.
        get-put_some allow_credentials_header _ _ j ec
        ∙ get-put_some max_age_header _ _ j ea
        ∙ get-put_some allow_headers _ _ j eh
        ∙ get-put_some allow_methods _ _ j em
        ∙ get-put_origin origin j eo ev;
  }

  pub preflight_all_or_nothing :
      (h : Table String) → handle_preflight_headers ops p req ≡ respond_204 h → (h ≡ []) ⊎ IsGrant h
  unfolding handle_preflight_headers
  preflight_all_or_nothing h e =
      elim (Bool-cases (
        is_some origin
        && (is_some methods && ((granted_headers ops p requested).1 || is_empty requested)))) [
          | inl t ↦ inr (subst IsGrant (ground (arith, t, e)) (preflight_table_lem t))
          | inr t ↦ elim (Bool-cases p.forward_preflight) [
            | inl f ↦ absurd (ground (arith, t, f, e))
            | inr f ↦ inl (ground (arith, t, f, e))
          ]
        ]

  -- A request whose origin, method and headers pass is answered, and the answer grants.
  pub preflight_granted :
      is_some origin ≡ true
      → is_some methods ≡ true
      → ((granted_headers ops p requested).1 || is_empty requested) ≡ true
      → (handle_preflight_headers ops p req ≡ respond_204 preflight_table) × IsGrant preflight_table
  unfolding handle_preflight_headers
  preflight_granted o m h = (rw (o, m, h) refl, preflight_table_lem (rw (o, m, h) refl))
