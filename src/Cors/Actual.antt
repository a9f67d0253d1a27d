-- ===== src/Cors/Actual.antt =====
-- What the two hooks of policies/cors/cors.go give the response to a request that is no preflight
-- request.
use text.Mathlib.Text.{◌==◌ as str_eq}
use gateway_controllers.Prelude.{
  ◌≡◌, refl, Option, ◌∙◌, String, Bool, true, false, none, some, List, [], ◌∷◌, arith,
  if◌then◌else◌,
}
use gateway_controllers.Prelude.Table.{Table, get}
use gateway_controllers.Cors.{
  CorsPolicy, TextOps, Request, Notes, allow_origin, allow_credentials_header, expose_headers,
  is_empty, granted_origin, put_origin, put_some, credentials_text, handle_non_preflight_headers,
  on_request_headers, on_response_headers, join, ResponseAction,
}
use gateway_controllers.Cors.Granting.{
  get-put_some, get-put_some_self, get-put_origin, origin-put_origin, vary-put_origin,
}

-- The value of Access-Control-Expose-Headers.
abbrev pub exposed_text : List String → Option String
exposed_text xs = if is_empty xs then none else some (join xs)

-- The headers of the response to a request of an allowed origin: the origin, and Vary, and the
-- configured credentials and exposed headers, and no other.
pub record IsGiven {R : Type 0} (p : CorsPolicy R) (o : String) (h : Table String) : Type 0 where
  pub origin_given : get h allow_origin ≡ some o
  pub varies : get h "Vary" ≡ some "Origin"
  pub credentials_given : get h allow_credentials_header ≡ credentials_text p.allow_credentials
  pub exposed : get h expose_headers ≡ exposed_text p.exposed_headers
  pub no_more :
      (j : String)
      → str_eq allow_origin j ≡ false
      → str_eq "Vary" j ≡ false
      → str_eq allow_credentials_header j ≡ false
      → str_eq expose_headers j ≡ false
      → get h j ≡ none

-- The response to a request of a refused origin is given no header, and loses those of the upstream.
abbrev pub stripped : ResponseAction
stripped = record {
  headers_to_set = [];
  headers_to_remove = allow_origin ∷ allow_credentials_header ∷ expose_headers ∷ [];
}

module _ (ops : TextOps) (p : CorsPolicy ops.Regexp) (req : Request) where
  abbrev pub actual_table : String × Bool → Table String
  actual_table g = put_some allow_credentials_header (credentials_text p.allow_credentials) (
      put_some expose_headers
        (if is_empty p.exposed_headers then none else some (join p.exposed_headers))
        (put_origin (some g) []))

  pub origin-actual_table : (g : String × Bool) → get (actual_table g) allow_origin ≡ some g.0
  origin-actual_table g =
      get-put_some allow_credentials_header _ _ allow_origin refl
      ∙ get-put_some expose_headers _ _ allow_origin refl
      ∙ origin-put_origin (some g)

  pub actual_table-IsGiven : (o : String) → IsGiven p o (actual_table (o, true))
  actual_table-IsGiven o = record {
    origin_given = origin-actual_table (o, true);
    varies =
        get-put_some allow_credentials_header _ _ "Vary" refl
        ∙ get-put_some expose_headers _ _ "Vary" refl
        ∙ vary-put_origin (some (o, true));
    credentials_given = get-put_some_self allow_credentials_header _ _ (
        get-put_some expose_headers _ _ allow_credentials_header refl
        ∙ get-put_origin (some (o, true)) allow_credentials_header refl refl);
    exposed =
        get-put_some allow_credentials_header _ _ expose_headers refl
        ∙ get-put_some_self expose_headers (exposed_text p.exposed_headers) _
            (get-put_origin (some (o, true)) expose_headers refl refl);
    no_more = λ j eo ev ec ee.
        get-put_some allow_credentials_header _ _ j ec
        ∙ get-put_some expose_headers _ _ j ee
        ∙ get-put_origin (some (o, true)) j eo ev;
  }

module _ (ops : TextOps) (p : CorsPolicy ops.Regexp) (req : Request) (notes : Notes)
    (m : ops.equal_fold req.method "options" ≡ false) where
  pub response_allowed :
      (g : String × Bool)
      → granted_origin ops p (req.values "Origin") ≡ some g
      → on_response_headers (on_request_headers ops p req notes).1
        ≡ record { headers_to_set = actual_table ops p req g; headers_to_remove = [] }
  unfolding on_request_headers handle_non_preflight_headers on_response_headers
  response_allowed g e = ground (arith, m, e)

  pub response_refused :
      req.has "Origin" ≡ true
      → granted_origin ops p (req.values "Origin") ≡ none
      → notes.cors_headers ≡ none
      → on_response_headers (on_request_headers ops p req notes).1 ≡ stripped
  unfolding on_request_headers handle_non_preflight_headers on_response_headers
  response_refused has e n = ground (arith, m, has, e, n)
