-- ===== src/EventStream.antt =====
-- policies/openai-to-bedrock-transformer/eventstream.go: the binary frames of an AWS event stream.
-- A byte slice and a Go string are lists of bytes. A loop has fuel, and `none` is no Go value: it
-- means that the fuel ran out.
pub mod Headers
pub mod Frames
pub mod Stream
pub mod Boundary
pub mod Encode
pub mod WireHeaders
pub mod RoundTrip
use gateway_controllers.Prelude.{
  ℕ, zero, suc, ◌+◌, ◌-◌, ◌*◌, List, [], ◌∷◌, ◌++◌, Bool, true, false, ◌&&◌, ◌||◌, Option, none,
  some, ltb, ◌==◌, if◌then◌else◌, length, take, drop,
}

abbrev pub Bytes : Type 0
Bytes = List ℕ

abbrev pub prelude_with_crc_len : ℕ
prelude_with_crc_len = 12

abbrev pub frame_overhead : ℕ
frame_overhead = 16

abbrev pub min_frame_len : ℕ
min_frame_len = frame_overhead

abbrev pub max_frame_len : ℕ
max_frame_len = 16777216

-- The value types of a header.
abbrev pub header_type_true : ℕ
header_type_true = 0

abbrev pub header_type_false : ℕ
header_type_false = 1

abbrev pub header_type_byte : ℕ
header_type_byte = 2

abbrev pub header_type_short : ℕ
header_type_short = 3

abbrev pub header_type_integer : ℕ
header_type_integer = 4

abbrev pub header_type_long : ℕ
header_type_long = 5

abbrev pub header_type_byte_array : ℕ
header_type_byte_array = 6

abbrev pub header_type_string : ℕ
header_type_string = 7

abbrev pub header_type_timestamp : ℕ
header_type_timestamp = 8

abbrev pub header_type_uuid : ℕ
header_type_uuid = 9

pub record EventStreamFrame : Type 0 where
  pub event_type : Bytes
  pub message_type : Bytes
  pub exception_type : Bytes
  pub payload : Bytes

pub data FrameStatus : Type 0 where
  frame_ok frame_incomplete frame_invalid : FrameStatus

-- binary.BigEndian.Uint32 and Uint16: the bytes after the ones that are read do not matter. Go
-- panics on a shorter slice, which the tests before each call rule out.
unfoldable pub uint32 : Bytes → ℕ
uint32 (a ∷ b ∷ c ∷ d ∷ _) = a * 16777216 + b * 65536 + c * 256 + d
uint32 _ = 0

unfoldable pub uint16 : Bytes → ℕ
uint16 (a ∷ b ∷ _) = a * 256 + b
uint16 _ = 0

unfoldable pub bytes_eq : Bytes → Bytes → Bool
bytes_eq [] [] = true
bytes_eq (x ∷ xs) (y ∷ ys) = (x == y) && bytes_eq xs ys
bytes_eq _ _ = false

-- The map of the string headers, as an association list: a later write under a name stands first.
abbrev pub HeaderMap : Type 0
HeaderMap = List (Bytes × Bytes)

unfoldable pub header_value : HeaderMap → Bytes → Bytes
header_value [] name = []
header_value ((k, v) ∷ m) name = if bytes_eq k name then v else header_value m name

-- The width of a value of the given type, of which the bytes are the first: `none` where
-- parseHeaders returns at once.
unfoldable pub encoded_len : ℕ → Bytes → Option ℕ
encoded_len value_type rest =
    if (value_type == header_type_true) || (value_type == header_type_false)
    then some 0
    else if value_type == header_type_byte
    then some 1
    else if value_type == header_type_short
    then some 2
    else if value_type == header_type_integer
    then some 4
    else if (value_type == header_type_long) || (value_type == header_type_timestamp)
    then some 8
    else if value_type == header_type_uuid
    then some 16
    else if (value_type == header_type_byte_array) || (value_type == header_type_string)
    then (if ltb (length rest) 2 then none else some (2 + uint16 rest))
    else none

-- The value of one header, after its type: the map, and the bytes after it where the loop goes on.
unfoldable pub parse_value : Bytes → ℕ → Bytes → HeaderMap → HeaderMap × Option Bytes
parse_value name value_type rest headers = elim (encoded_len value_type rest) [
  | none ↦ (headers, none)
  | some n ↦ if ltb (length rest) n then (headers, none) else (
    if value_type == header_type_string then (name, drop 2 (take n rest)) ∷ headers else headers,
    some (drop n rest),
  )
]

-- The body of the loop of parseHeaders, at the bytes from `offset` on.
unfoldable pub parse_header : Bytes → HeaderMap → HeaderMap × Option Bytes
parse_header [] headers = (headers, none)
parse_header (name_len ∷ rest) headers =
    if ltb (length rest) name_len then (headers, none) else elim (drop name_len rest) [
      | [] ↦ (headers, none)
      | value_type ∷ value ↦ parse_value (take name_len rest) value_type value headers
    ]

unfoldable pub parse_loop : ℕ → Bytes → HeaderMap → Option HeaderMap
parse_loop zero bytes headers = none
parse_loop (suc fuel) bytes headers =
    let (headers', after) = parse_header bytes headers in
    elim after [ none ↦ some headers' | some rest ↦ parse_loop fuel rest headers' ]

-- A header takes at least one byte.
unfoldable pub parse_headers : Bytes → Option HeaderMap
parse_headers bytes = parse_loop (suc (length bytes)) bytes []

-- The three names that decodeOneFrame reads from the map.
abbrev pub event_type_name : Bytes
event_type_name = 58 ∷ 101 ∷ 118 ∷ 101 ∷ 110 ∷ 116 ∷ 45 ∷ 116 ∷ 121 ∷ 112 ∷ 101 ∷ []

abbrev pub message_type_name : Bytes
message_type_name = 58 ∷ 109 ∷ 101 ∷ 115 ∷ 115 ∷ 97 ∷ 103 ∷ 101 ∷ 45 ∷ 116 ∷ 121 ∷ 112 ∷ 101 ∷ []

abbrev pub exception_type_name : Bytes
exception_type_name =
    58 ∷ 101 ∷ 120 ∷ 99 ∷ 101 ∷ 112 ∷ 116 ∷ 105 ∷ 111 ∷ 110 ∷ 45 ∷ 116 ∷ 121 ∷ 112 ∷ 101 ∷ []

unfoldable pub frame_of : HeaderMap → Bytes → EventStreamFrame
frame_of headers payload = record {
  event_type = header_value headers event_type_name;
  message_type = header_value headers message_type_name;
  exception_type = header_value headers exception_type_name;
  payload = payload;
}

abbrev pub empty_frame : EventStreamFrame
empty_frame = record { event_type = []; message_type = []; exception_type = []; payload = [] }

-- data[i:j].
abbrev pub slice : Bytes → ℕ → ℕ → Bytes
slice bytes i j = take (j - i) (drop i bytes)

unfoldable pub finish_frame :
    Bytes → ℕ → Option HeaderMap → Option (EventStreamFrame × ℕ × FrameStatus)
finish_frame payload total_len none = none
finish_frame payload total_len (some headers) = some (frame_of headers payload, total_len, frame_ok)

unfoldable pub decode_body : Bytes → ℕ → ℕ → Option (EventStreamFrame × ℕ × FrameStatus)
decode_body bytes total_len headers_len =
    finish_frame (slice bytes (prelude_with_crc_len + headers_len) (total_len - 4)) total_len
      (parse_headers (slice bytes prelude_with_crc_len (prelude_with_crc_len + headers_len)))

-- The lengths are unsigned, so `headersLen < 0` of the source is never true.
unfoldable pub decode_one_frame : Bytes → Option (EventStreamFrame × ℕ × FrameStatus)
decode_one_frame bytes =
    let total_len = uint32 bytes in
    let headers_len = uint32 (drop 4 bytes) in
    if ltb (length bytes) prelude_with_crc_len
    then some (empty_frame, 0, frame_incomplete)
    else if ltb total_len min_frame_len
        || ltb max_frame_len total_len
        || ltb (total_len - frame_overhead) headers_len
    then some (empty_frame, 0, frame_invalid)
    else if ltb (length bytes) total_len
    then some (empty_frame, 0, frame_incomplete)
    else decode_body bytes total_len headers_len

-- The loop of decodeEventStreamFrames at the bytes from `offset` on.
unfoldable pub decode_loop :
    ℕ → Bytes → List EventStreamFrame → ℕ → Option (List EventStreamFrame × ℕ × Bool)
decode_loop zero bytes frames offset = none
decode_loop (suc fuel) bytes frames offset = elim (decode_one_frame bytes) [
  | none ↦ none
  | some (frame, frame_len, frame_ok) ↦
      decode_loop fuel (drop frame_len bytes) (frames ++ (frame ∷ [])) (offset + frame_len)
  | some (frame, frame_len, frame_incomplete) ↦ some (frames, offset, true)
  | some (frame, frame_len, frame_invalid) ↦ some (frames, offset, ltb 0 offset)
]

unfoldable pub decode_event_stream_frames : Bytes → Option (List EventStreamFrame × ℕ × Bool)
decode_event_stream_frames bytes = decode_loop (suc (length bytes)) bytes [] 0

-- The loop of eventStreamBoundary at the bytes from `offset` on.
unfoldable pub boundary_loop : ℕ → Bytes → ℕ → Option (ℕ × Bool × Bool)
boundary_loop zero bytes offset = none
boundary_loop (suc fuel) bytes offset =
    if length bytes == 0 then some (offset, false, true) else elim (decode_one_frame bytes) [
      | none ↦ none
      | some (frame, frame_len, frame_ok) ↦
          boundary_loop fuel (drop frame_len bytes) (offset + frame_len)
      | some (frame, frame_len, frame_incomplete) ↦ some (offset, true, true)
      | some (frame, frame_len, frame_invalid) ↦ some (offset, false, ltb 0 offset)
    ]

unfoldable pub event_stream_boundary : Bytes → Option (ℕ × Bool × Bool)
event_stream_boundary bytes = boundary_loop (suc (length bytes)) bytes 0
