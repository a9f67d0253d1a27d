-- ===== src/EventStream/WireHeaders.antt =====
-- About parseHeaders of eventstream.go, on headers as Encode writes them.
use gateway_controllers.Prelude.{
  ◌≡◌, ◌≢◌, refl, ap, ◌∙◌, ℕ, zero, suc, ◌+◌, ◌/◌, ◌%◌, ◌<◌, List, [], ◌∷◌, ◌++◌, true, false, ◌==◌,
  some, if◌then◌else◌, length, take, drop, length-append, take-append, drop-append, take_all,
  drop_all, List-cases, arith, inl, inr,
}
use gateway_controllers.EventStream.{
  Bytes, HeaderMap, uint32, uint16, header_value, encoded_len, parse_value, parse_header,
  parse_loop, parse_headers, bytes_eq,
}
use gateway_controllers.EventStream.Headers.{parse_header_shrinks}
use gateway_controllers.EventStream.Encode.{
  HeaderValue, flag, byte, short, integer, long, timestamp, byte_array, string, uuid, Header, u32,
  u16, encode_value, FitsValue, Fits, encode_header, encode_headers, last_string,
}

pub take_exact : (xs ys : Bytes) → take (length xs) (xs ++ ys) ≡ xs
take_exact xs ys = take-append (length xs) xs ys (omega arith) ∙ take_all xs

pub drop_exact : (xs ys : Bytes) → drop (length xs) (xs ++ ys) ≡ ys
drop_exact xs ys = drop-append (length xs) xs ys (omega arith) ∙ ap (λ t. t ++ ys) (drop_all xs)

-- What a header writes into the map.
collect : Header → HeaderMap → HeaderMap
collect h m = elim h.value [ string v ↦ (h.name, v) ∷ m | _ ↦ m ]

value_fixed :
    (name : Bytes) (t n : ℕ) (bs rest : Bytes) (m : HeaderMap)
    → (t == 7) ≡ false
    → encoded_len t (bs ++ rest) ≡ some n
    → length bs ≡ n
    → parse_value name t (bs ++ rest) m ≡ (m, some rest)
unfolding parse_value
value_fixed name t n bs rest m plain width exact = ground (
  arith,
  width,
  drop_exact bs rest,
  length-append {0} bs rest,
  ap (λ k. drop k (bs ++ rest)) exact,
)

uint16_lem : (n : ℕ) (bs : Bytes) → uint16 (u16 n bs) ≡ n
unfolding uint16
uint16_lem n bs = omega arith

value_sized :
    (name : Bytes) (t : ℕ) (bs rest : Bytes) (m : HeaderMap)
    → encoded_len t (u16 (length bs) bs ++ rest) ≡ some (2 + length bs)
    → parse_value name t (u16 (length bs) bs ++ rest) m
      ≡ ((if t == 7 then (name, bs) ∷ m else m), some rest)
unfolding parse_value
value_sized name t bs rest m width = ground (
  arith,
  width,
  take_exact bs rest,
  drop_exact bs rest,
  length-append {0} bs rest,
  take_two (length bs) (length bs / 256) (length bs % 256) (bs ++ rest),
  drop_two (length bs) (length bs / 256) (length bs % 256) (bs ++ rest),
)
  where
    take_two : (k a b : ℕ) (xs : Bytes) → take (2 + k) (a ∷ b ∷ xs) ≡ a ∷ b ∷ take k xs
    take_two k a b xs =
        ap (λ n. take n (a ∷ b ∷ xs)) (let e : 2 + k ≡ suc (suc k) = omega arith in e)

    drop_two : (k a b : ℕ) (xs : Bytes) → drop (2 + k) (a ∷ b ∷ xs) ≡ drop k xs
    drop_two k a b xs =
        ap (λ n. drop n (a ∷ b ∷ xs)) (let e : 2 + k ≡ suc (suc k) = omega arith in e)

-- The loop reads the type of a value, and then the value.
value_lem :
    (name : Bytes) (v : HeaderValue) (rest : Bytes) (m : HeaderMap) (t : ℕ) (bs : Bytes)
    → FitsValue v
    → encode_value v ≡ t ∷ bs
    → parse_value name t (bs ++ rest) m ≡ (collect (record { name = name; value = v }) m, some rest)
unfolding collect encode_value encoded_len
value_lem name (flag true) rest m t bs fits e = ground (arith, value_fixed name 0 0 [] rest m)
value_lem name (flag false) rest m t bs fits e = ground (arith, value_fixed name 1 0 [] rest m)
value_lem name (byte a) rest m t bs fits e = ground (arith, value_fixed name 2 1 (a ∷ []) rest m)
value_lem name (short a b) rest m t bs fits e =
    ground (arith, value_fixed name 3 2 (a ∷ b ∷ []) rest m)
value_lem name (integer a b c d) rest m t bs fits e =
    ground (arith, value_fixed name 4 4 (a ∷ b ∷ c ∷ d ∷ []) rest m)
value_lem name (long cs) rest m t bs fits e = ground (arith, value_fixed name 5 8 cs rest m)
value_lem name (timestamp cs) rest m t bs fits e = ground (arith, value_fixed name 8 8 cs rest m)
value_lem name (byte_array cs) rest m t bs fits e =
    ground (arith, value_sized name 6 cs rest m, uint16_lem (length cs) (cs ++ rest))
value_lem name (string cs) rest m t bs fits e =
    ground (arith, value_sized name 7 cs rest m, uint16_lem (length cs) (cs ++ rest))
value_lem name (uuid cs) rest m t bs fits e = ground (arith, value_fixed name 9 16 cs rest m)

encode_value_some : (v : HeaderValue) → encode_value v ≢ []
unfolding encode_value
encode_value_some (flag true) = ground arith
encode_value_some (flag false) = ground arith
encode_value_some (byte a) = ground arith
encode_value_some (short a b) = ground arith
encode_value_some (integer a b c d) = ground arith
encode_value_some (long cs) = ground arith
encode_value_some (timestamp cs) = ground arith
encode_value_some (byte_array cs) = ground arith
encode_value_some (string cs) = ground arith
encode_value_some (uuid cs) = ground arith

parse_header-encode :
    (h : Header) (rest : Bytes) (m : HeaderMap)
    → FitsValue h.value
    → parse_header (encode_header h rest) m ≡ (collect h m, some rest)
unfolding parse_header encode_header
parse_header-encode h rest m fits = elim (List-cases (encode_value h.value)) [
  | inl e ↦ absurd (encode_value_some h.value e)
  | inr (t, bs, e) ↦ ground (
    arith,
    e,
    ap (λ xs. xs ++ rest) e,
    take_exact h.name (encode_value h.value ++ rest),
    drop_exact h.name (encode_value h.value ++ rest),
    length-append {0} h.name (encode_value h.value ++ rest),
    value_lem h.name h.value rest m t bs fits e,
  )
]

pub collect_all : List Header → HeaderMap → HeaderMap
collect_all [] m = m
collect_all (h ∷ hs) m = collect_all hs (collect h m)

parse_loop_next :
    (k : ℕ) (bytes rest : Bytes) (m m' : HeaderMap)
    → parse_header bytes m ≡ (m', some rest)
    → parse_loop (suc k) bytes m ≡ parse_loop k rest m'
unfolding parse_loop
parse_loop_next k bytes rest m m' e = ground (arith, e)

parse_loop-encode :
    (k : ℕ) (hs : List Header) (m : HeaderMap)
    → Fits hs
    → length (encode_headers hs) < k
    → parse_loop k (encode_headers hs) m ≡ some (collect_all hs m)
unfolding parse_loop collect_all encode_headers
parse_loop-encode zero hs m fits h = absurd (omega arith)
parse_loop-encode (suc k) [] m fits h = unfold parse_header in refl
parse_loop-encode (suc k) (g ∷ hs) m fits h =
    let e = parse_header-encode g (encode_headers hs) m fits.1 in
    parse_loop_next k _ (encode_headers hs) m (collect g m) e
    ∙ parse_loop-encode k hs (collect g m) fits.2 (
        omega (
          arith,
          parse_header_shrinks (encode_header g (encode_headers hs)) m (encode_headers hs)
              (ap (λ r. r.1) e),
        ))

abbrev pick : HeaderValue → Bytes → Bytes → Bytes → Bytes
pick v key found name = elim v [ string x ↦ if bytes_eq key name then x else found | _ ↦ found ]

header_value-collect :
    (key : Bytes) (v : HeaderValue) (m : HeaderMap) (name : Bytes)
    → header_value (collect (record { name = key; value = v }) m) name
      ≡ pick v key (header_value m name) name
unfolding collect header_value
header_value-collect key (flag b) m name = refl
header_value-collect key (byte a) m name = refl
header_value-collect key (short a b) m name = refl
header_value-collect key (integer a b c d) m name = refl
header_value-collect key (long cs) m name = refl
header_value-collect key (timestamp cs) m name = refl
header_value-collect key (byte_array cs) m name = refl
header_value-collect key (string cs) m name = refl
header_value-collect key (uuid cs) m name = refl

pub collect_all-last :
    (hs : List Header) (m : HeaderMap) (name : Bytes)
    → header_value (collect_all hs m) name ≡ last_string (header_value m name) hs name
unfolding collect_all last_string
collect_all-last [] m name = refl
collect_all-last (h ∷ hs) m name =
    collect_all-last hs (collect h m) name
    ∙ ap (λ v. last_string v hs name) (header_value-collect h.name h.value m name)

u32_lem : (n : ℕ) (rest : Bytes) → uint32 (u32 n rest) ≡ n
unfolding uint32
u32_lem n rest = omega arith

pub parse_headers-encode :
    (hs : List Header) → Fits hs → parse_headers (encode_headers hs) ≡ some (collect_all hs [])
unfolding parse_headers
parse_headers-encode hs fits = parse_loop-encode _ hs [] fits (omega arith)
