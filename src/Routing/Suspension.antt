-- ===== src/Routing/Suspension.antt =====
-- What a response of an upstream does to the suspended models.
use Prim.Native.String.{◌++◌ as append}
use text.Mathlib.Text.{◌==◌ as str_eq}
use text.Mathlib.TextPositions.{eq_refl}
use gateway_controllers.Prelude.{
  ◌≡◌, refl, ◌∙◌, String, Bool, true, false, ◌||◌, ℕ, ◌*◌, ◌<◌, ◌^◌, arith, if◌then◌else◌, Option,
  ◌⊎◌, none, some,
}
use gateway_controllers.Prelude.Int.{ℤ, pos, le_ℤ, lt_ℤ, eq_ℤ, ◌+ℤ◌, mul64-pos}
use gateway_controllers.Limiter.{Instant, Map, put}
use gateway_controllers.Value.{Value, string, bool}
use gateway_controllers.Routing.{
  RequestModel, RequestHeaders, suspension_key, selected_model, selected_provider, record_selection,
  on_response_headers, is_suspended, put_some, original_model,
}

-- A status that suspends: a server error, or too many requests.
abbrev pub is_failure : ℤ → Bool
is_failure status = le_ℤ (pos 500) status || eq_ℤ status (pos 429)

-- The metadata keys of a policy differ.
pub record IsPrefix (prefix : String) : Type 0 where
  pub original_model : str_eq (append prefix ".original_model") (selected_model prefix) ≡ false
  pub routing_model : str_eq "selected_provider" (selected_model prefix) ≡ false
  pub processed_model : str_eq (append prefix ".headers_processed") (selected_model prefix) ≡ false
  pub provider_model : str_eq (selected_provider prefix) (selected_model prefix) ≡ false
  pub original_provider :
      str_eq (append prefix ".original_model") (selected_provider prefix) ≡ false
  pub routing_provider : str_eq "selected_provider" (selected_provider prefix) ≡ false
  pub processed_provider :
      str_eq (append prefix ".headers_processed") (selected_provider prefix) ≡ false

put_some_other :
    (k j : String) (o : Option String) (m : Map Value) → str_eq k j ≡ false → put_some k o m j ≡ m j
put_some_other k j none m h = refl
put_some_other k j (some v) m h = rw h

module _ (prefix : String) (d : IsPrefix prefix) (r : RequestModel) (model provider : String)
    (req : RequestHeaders) where
  abbrev base : Map Value
  base = put (append prefix ".headers_processed") (bool true) (
      put (selected_provider prefix) (string provider)
        (put (selected_model prefix) (string model) req.metadata))

  abbrev routing : Option String
  routing = if str_eq provider "" then none else some provider

  recorded_model :
      record_selection prefix r model provider req (selected_model prefix) ≡ some (string model)
  unfolding record_selection
  recorded_model =
      put_some_other (append prefix ".original_model") (selected_model prefix)
        (original_model r req) (put_some "selected_provider" routing base) d.original_model
      ∙ put_some_other "selected_provider" (selected_model prefix) routing base d.routing_model
      ∙ rw (d.processed_model, d.provider_model, eq_refl (selected_model prefix))

  recorded_provider :
      record_selection prefix r model provider req (selected_provider prefix)
      ≡ some (string provider)
  unfolding record_selection
  recorded_provider =
      put_some_other (append prefix ".original_model") (selected_provider prefix)
        (original_model r req) (put_some "selected_provider" routing base) d.original_provider
      ∙ put_some_other "selected_provider" (selected_provider prefix) routing base
          d.routing_provider
      ∙ rw (d.processed_provider, eq_refl (selected_provider prefix))

  -- A failure of the selected target suspends it, for the whole suspension.
  pub failure_puts :
      (seconds : ℕ) (now : Instant) (status : ℤ) (suspended : Map Instant)
      → 0 < seconds
      → seconds < 2 ^ 33
      → is_failure status ≡ true
      → str_eq model "" ≡ false
      → on_response_headers prefix
          (pos seconds)
          now
          status
          (record_selection prefix r model provider req)
          suspended
          (suspension_key provider model)
        ≡ some (now +ℤ pos (seconds * 1_000_000_000))
  unfolding on_response_headers
  failure_puts seconds now status suspended h k f e =
      let lasts : lt_ℤ (pos 0) (pos seconds) ≡ true = ground arith in
      rw
        (
          recorded_model,
          recorded_provider,
          f,
          e,
          mul64-pos seconds 1_000_000_000 (omega arith),
          lasts,
          eq_refl (suspension_key provider model),
        )
        refl

  -- After a failure of the selected target, it is suspended until the suspension is over.
  pub failure_suspends :
      (seconds : ℕ) (now later : Instant) (status : ℤ) (suspended : Map Instant)
      → 0 < seconds
      → seconds < 2 ^ 33
      → is_failure status ≡ true
      → str_eq model "" ≡ false
      → is_suspended later
          (on_response_headers prefix
            (pos seconds)
            now
            status
            (record_selection prefix r model provider req)
            suspended)
          provider
          model
        ≡ lt_ℤ later (now +ℤ pos (seconds * 1_000_000_000))
  failure_suspends seconds now later status suspended h k f e =
      rw (is_suspended, failure_puts seconds now status suspended h k f e) refl

-- A response leaves an entry of the map as it is, or it suspends anew from its own instant on.
pub response_keeps_or_puts :
    (prefix : String) (seconds : ℕ) (now : Instant) (status : ℤ) (metadata : Map Value)
    (suspended : Map Instant) (j : String)
    → seconds < 2 ^ 33
    → let after = on_response_headers prefix (pos seconds) now status metadata suspended in
      (after j ≡ suspended j) ⊎ (after j ≡ some (now +ℤ pos (seconds * 1_000_000_000)))
unfolding on_response_headers
response_keeps_or_puts prefix seconds now status metadata suspended j h =
    ground (arith, mul64-pos seconds 1_000_000_000 (omega arith))
