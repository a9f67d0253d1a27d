-- ===== src/EventStream/Frames.antt =====
-- About decodeOneFrame of eventstream.go: the three ways in which a frame is read.
use gateway_controllers.Prelude.{
  ◌≡◌, refl, ap, ◌∙◌, ℕ, ◌+◌, ◌-◌, ◌≤◌, ◌<◌, [], ◌∷◌, ◌++◌, Bool, true, false, ◌||◌, Option, some,
  ltb, length, take, drop, length-append, length-drop, take-append, drop-append, Bool-cases, dec_lt,
  arith, inl, inr,
}
use gateway_controllers.EventStream.{
  Bytes, HeaderMap, EventStreamFrame, FrameStatus, frame_ok, frame_incomplete, frame_invalid,
  uint32, slice, parse_headers, frame_of, empty_frame, finish_frame, decode_body, decode_one_frame,
}
use gateway_controllers.EventStream.Headers.{parse_loop_total}

pub parse_headers_total : (bytes : Bytes) → (m : HeaderMap) × (parse_headers bytes ≡ some m)
unfolding parse_headers
parse_headers_total bytes = parse_loop_total _ bytes [] (omega arith)

pub uint32-append : (xs ys : Bytes) → 4 ≤ length xs → uint32 (xs ++ ys) ≡ uint32 xs
unfolding uint32
uint32-append [] ys h = absurd (omega arith)
uint32-append (a ∷ []) ys h = absurd (omega arith)
uint32-append (a ∷ b ∷ []) ys h = absurd (omega arith)
uint32-append (a ∷ b ∷ c ∷ []) ys h = absurd (omega arith)
uint32-append (a ∷ b ∷ c ∷ d ∷ xs) ys h = refl

pub slice-append :
    (xs ys : Bytes) (i j : ℕ) → i ≤ j → j ≤ length xs → slice (xs ++ ys) i j ≡ slice xs i j
slice-append xs ys i j h k =
    ap (take (j - i)) (drop-append i xs ys (omega arith))
    ∙ take-append (j - i) (drop i xs) ys (omega (arith, length-drop {0} i xs))

pub decode_body_total :
    (bytes : Bytes) (t h : ℕ)
    → (f : EventStreamFrame) × (decode_body bytes t h ≡ some (f, t, frame_ok))
unfolding decode_body finish_frame
decode_body_total bytes t h =
    let (m, e) = parse_headers_total (slice bytes 12 (12 + h)) in
    (frame_of m (slice bytes (12 + h) (t - 4)), rw (e, decode_body) refl)

decode_body-append :
    (xs ys : Bytes) (t h : ℕ)
    → 16 + h ≤ t
    → t ≤ length xs
    → decode_body (xs ++ ys) t h ≡ decode_body xs t h
unfolding decode_body finish_frame
decode_body-append xs ys t h a b =
    rw
      (
        slice-append xs ys 12 (12 + h) (omega arith) (omega arith),
        slice-append xs ys (12 + h) (t - 4) (omega arith) (omega arith),
        decode_body,
      )
      refl

-- The test for bytes that are no frame.
unfoldable pub implausible : Bytes → Bool
implausible bytes =
    ltb (uint32 bytes) 16
    || ltb 16777216 (uint32 bytes)
    || ltb (uint32 bytes - 16) (uint32 (drop 4 bytes))

implausible-append : (xs ys : Bytes) → 12 ≤ length xs → implausible (xs ++ ys) ≡ implausible xs
unfolding implausible
implausible-append xs ys h =
    rw
      (
        uint32-append xs ys (omega arith),
        drop-append 4 xs ys (omega arith),
        uint32-append (drop 4 xs) ys (omega (arith, length-drop {0} 4 xs)),
      )
      refl

pub invalid_frame :
    (bytes : Bytes)
    → 12 ≤ length bytes
    → implausible bytes ≡ true
    → decode_one_frame bytes ≡ some (empty_frame, 0, frame_invalid)
unfolding decode_one_frame implausible
invalid_frame bytes h e = ground arith

pub partial_frame :
    (bytes : Bytes)
    → implausible bytes ≡ false
    → length bytes < uint32 bytes
    → decode_one_frame bytes ≡ some (empty_frame, 0, frame_incomplete)
unfolding decode_one_frame implausible
partial_frame bytes e h = ground arith

pub whole_frame :
    (bytes : Bytes)
    → 12 ≤ length bytes
    → implausible bytes ≡ false
    → uint32 bytes ≤ length bytes
    → decode_one_frame bytes ≡ decode_body bytes (uint32 bytes) (uint32 (drop 4 bytes))
unfolding decode_one_frame implausible
whole_frame bytes a e h = ground arith

plausible_bounds :
    (bytes : Bytes) → implausible bytes ≡ false → 16 + uint32 (drop 4 bytes) ≤ uint32 bytes
unfolding implausible
plausible_bounds bytes e = ground arith

-- The three ways in which a frame is read.
pub data Reads (bytes : Bytes) : Option (EventStreamFrame × ℕ × FrameStatus) → Type 0 where
  reads_ok :
      (f : EventStreamFrame)
      → 16 ≤ uint32 bytes
      → uint32 bytes ≤ length bytes
      → ((more : Bytes) → decode_one_frame (bytes ++ more) ≡ some (f, uint32 bytes, frame_ok))
      → Reads bytes (some (f, uint32 bytes, frame_ok))
  reads_incomplete : Reads bytes (some (empty_frame, 0, frame_incomplete))
  reads_invalid : 12 ≤ length bytes → Reads bytes (some (empty_frame, 0, frame_invalid))

whole_frame-append :
    (xs ys : Bytes)
    → 12 ≤ length xs
    → implausible xs ≡ false
    → uint32 xs ≤ length xs
    → decode_one_frame (xs ++ ys) ≡ decode_body xs (uint32 xs) (uint32 (drop 4 xs))
whole_frame-append xs ys a e h =
    let head = uint32-append xs ys (omega arith) in
    whole_frame (xs ++ ys) (omega (arith, length-append {0} xs ys)) (implausible-append xs ys a ∙ e)
      (omega (arith, head, length-append {0} xs ys))
    ∙ rw
        (
          head,
          drop-append 4 xs ys (omega arith),
          uint32-append (drop 4 xs) ys (omega (arith, length-drop {0} 4 xs)),
        )
        (decode_body-append xs ys _ _ (plausible_bounds xs e) h)

read_whole :
    (xs : Bytes)
    → 12 ≤ length xs
    → implausible xs ≡ false
    → uint32 xs ≤ length xs
    → Reads xs (decode_one_frame xs)
read_whole xs a e h =
    let (f, body) = decode_body_total xs (uint32 xs) (uint32 (drop 4 xs)) in
    rw (whole_frame xs a e h ∙ body) (
      reads_ok f (omega (arith, plausible_bounds xs e)) h
        (λ more. whole_frame-append xs more a e h ∙ body))

read_long : (xs : Bytes) → 12 ≤ length xs → Reads xs (decode_one_frame xs)
read_long xs a = elim (Bool-cases (implausible xs)) [
  | inl bad ↦ rw (invalid_frame xs a bad) (reads_invalid a)
  | inr good ↦ elim (dec_lt (length xs) (uint32 xs)) [
    | yes part ↦ rw (partial_frame xs good part) reads_incomplete
    | no full ↦ read_whole xs a good (omega arith)
  ]
]

short_frame :
    (xs : Bytes) → length xs < 12 → decode_one_frame xs ≡ some (empty_frame, 0, frame_incomplete)
unfolding decode_one_frame
short_frame xs h = ground arith

pub one_frame-Reads : (xs : Bytes) → Reads xs (decode_one_frame xs)
one_frame-Reads xs = elim (dec_lt (length xs) 12) [
  | yes short ↦ rw (short_frame xs short) reads_incomplete
  | no long ↦ read_long xs (omega arith)
]
