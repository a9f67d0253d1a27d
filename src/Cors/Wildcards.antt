-- ===== src/Cors/Wildcards.antt =====
-- A wildcard among the methods, from the parameters of GetPolicy of policies/cors/cors.go to the
-- answer to a preflight request.
use gateway_controllers.Prelude.{
  ◌≡◌, refl, ◌||◌, ◌∙◌, ap, String, true, false, none, some, List, ◌∷◌, arith,
}
use gateway_controllers.Prelude.Table.{Table, get}
use gateway_controllers.Limiter.{ok}
use gateway_controllers.Value.{Fields, FloatOps, Items, lookup, array, bool}
use gateway_controllers.Cors.{
  CorsPolicy, TextOps, Request, respond_204, allow_methods, allow_credentials_header, is_empty,
  granted_origin, granted_methods, credentials_text, handle_preflight_headers, is_some,
  granted_headers,
}
use gateway_controllers.Cors.Setup.{
  is_star, credentials_error, read_params, compile_origins, get_policy, texts_of,
  get_string_array_param,
}
use gateway_controllers.Cors.Granting.{preflight_granted, preflight_table}

-- The policy of GetPolicy: the parameters that it reads, with these compiled origins.
abbrev pub made_of : (ops : TextOps) → FloatOps → Fields → List ops.Regexp → CorsPolicy ops.Regexp
made_of ops floats params rs = record (read_params ops floats params) {
  compiled_allowed_origins = rs;
}

module _ (ops : TextOps) (floats : FloatOps) (params : Fields) (xs : Items) (m : String)
    (ms : List String) (listed : lookup "allowedMethods" params ≡ some (array xs))
    (methods : texts_of xs ≡ "*" ∷ m ∷ ms)
    (cred : lookup "allowCredentials" params ≡ some (bool true)) where
  methods_read : (read_params ops floats params).allowed_methods ≡ "*" ∷ m ∷ ms
  unfolding read_params get_string_array_param
  methods_read = rw (get_string_array_param, listed, methods) refl

  credentials_read : (read_params ops floats params).allow_credentials ≡ some true
  unfolding read_params
  credentials_read = rw cred refl

  -- GetPolicy looks for a wildcard among the methods only where it stands alone. So from parameters
  -- with credentials whose methods are a wildcard and then more methods, where none of the origins,
  -- the headers and the exposed headers that it reads is a wildcard alone and the origins compile,
  -- it makes a policy; and that policy answers a preflight request whose origin and headers pass by
  -- naming "*" as the methods together with credentials, whatever method is requested.
  pub wildcard_methods_pass :
      (rs : List ops.Regexp) (req : Request)
      → is_star (read_params ops floats params).allowed_origins ≡ false
      → is_star (read_params ops floats params).allowed_headers ≡ false
      → is_star (read_params ops floats params).exposed_headers ≡ false
      → compile_origins ops (read_params ops floats params).allowed_origins ≡ ok rs
      → is_some (granted_origin ops (made_of ops floats params rs) (req.values "Origin")) ≡ true
      → ((granted_headers ops
            (made_of ops floats params rs)
            (req.values "Access-Control-Request-Headers")).1
          || is_empty (req.values "Access-Control-Request-Headers"))
        ≡ true
      → (p : CorsPolicy ops.Regexp) × (get_policy ops floats params ≡ ok p)
        × ((h : Table String) × (handle_preflight_headers ops p req ≡ respond_204 h)
            × (get h allow_methods ≡ some "*")
            × (get h allow_credentials_header ≡ some "true"))
  unfolding get_policy
  wildcard_methods_pass rs req no_origin no_header no_exposed compiled origin headers =
      let answer =
        preflight_granted ops (made_of ops floats params rs) req origin (ap is_some star_granted)
          headers in
      (
        made_of ops floats params rs,
        ground (arith, accepted, compiled),
        (
          preflight_table ops (made_of ops floats params rs) req,
          answer.0,
          answer.1.methods_named ∙ star_granted,
          answer.1.credentials ∙ ap credentials_text credentials_read,
        ),
      )
    where
      accepted : credentials_error ops (read_params ops floats params) ≡ none
      accepted =
          unfold credentials_error in
          rw (methods_read, no_origin, no_header, no_exposed, credentials_read) refl

      star_granted :
          granted_methods ops
            (made_of ops floats params rs)
            (req.values "Access-Control-Request-Method")
          ≡ some "*"
      star_granted = unfold granted_methods in rw methods_read refl
