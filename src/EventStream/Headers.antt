-- ===== src/EventStream/Headers.antt =====
-- About parseHeaders of eventstream.go: its rounds.
use gateway_controllers.Prelude.{
  ◌≡◌, refl, ℕ, zero, suc, ◌≤◌, ◌<◌, [], ◌∷◌, some, length, take, drop, length-drop, Option-cases,
  List-cases, arith, inl, inr, ap,
}
use gateway_controllers.EventStream.{
  Bytes, HeaderMap, encoded_len, parse_value, parse_header, parse_loop,
}

parse_value_shrinks :
    (name : Bytes) (t : ℕ) (rest : Bytes) (m : HeaderMap) (after : Bytes)
    → (parse_value name t rest m).1 ≡ some after
    → length after ≤ length rest
unfolding parse_value
parse_value_shrinks name t rest m after h = elim (Option-cases (encoded_len t rest)) [
  | inl e ↦ ground (arith, e)
  | inr (n, e) ↦ ground (arith, e, length-drop {0} n rest)
]

value_shrinks :
    (name bytes value : Bytes) (t : ℕ) (m : HeaderMap) (after : Bytes)
    → suc (length value) ≤ length bytes
    → (parse_value name t value m).1 ≡ some after
    → length after < suc (length bytes)
value_shrinks name bytes value t m after e h =
    omega (arith, parse_value_shrinks name t value m after h)

pub parse_header_shrinks :
    (bytes : Bytes) (m : HeaderMap) (after : Bytes)
    → (parse_header bytes m).1 ≡ some after
    → length after < length bytes
unfolding parse_header
parse_header_shrinks [] m after h = ground arith
parse_header_shrinks (n ∷ bytes) m after h = elim (List-cases (drop n bytes)) [
  | inl e ↦ ground (arith, e)
  | inr (t, value, e) ↦ ground (
    arith,
    e,
    length-drop {0} n bytes,
    ap (length {A = ℕ}) e,
    value_shrinks (take n bytes) bytes value t m after,
  )
]

pub parse_loop_total :
    (fuel : ℕ) (bytes : Bytes) (m : HeaderMap)
    → length bytes < fuel
    → (r : HeaderMap) × (parse_loop fuel bytes m ≡ some r)
unfolding parse_loop
parse_loop_total zero bytes m h = absurd (omega arith)
parse_loop_total (suc fuel) bytes m h = elim (Option-cases (parse_header bytes m).1) [
  | inl e ↦ ((parse_header bytes m).0, rw (e, parse_loop) refl)
  | inr (rest, e) ↦
      rw (e, parse_loop)
        (parse_loop_total fuel rest (parse_header bytes m).0
          (omega (arith, parse_header_shrinks bytes m rest e)))
]
