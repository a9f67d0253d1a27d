-- ===== src/Tests/StreamRuns.antt =====
-- The event stream at concrete inputs.
use gateway_controllers.Prelude.{
  ◌≡◌, refl, ℕ, ◌+◌, ◌*◌, ◌≤◌, List, [], ◌∷◌, ◌++◌, Bool, true, some, length, drop, arith,
}
use gateway_controllers.EventStream.{
  Bytes, EventStreamFrame, uint32, bytes_eq, header_value, parse_header, parse_loop, parse_headers,
  frame_of, finish_frame, decode_body, decode_one_frame, decode_loop, empty_frame,
  decode_event_stream_frames, event_stream_boundary,
}
use gateway_controllers.EventStream.Stream.{decode_total, decode-append}
use gateway_controllers.EventStream.Boundary.{is_partial, boundary-decode}
use gateway_controllers.EventStream.Encode.{
  string, flag, Crc, Message, total_len, encode_value, encode_header, encode_headers, encode_stream,
  last_string, sent,
}
use gateway_controllers.EventStream.RoundTrip.{stream_len, decode-encode}

-- A frame with no header whose payload is one byte, and the first bytes of another.
abbrev small_frame : Bytes
small_frame = 0 ∷ 0 ∷ 0 ∷ 17 ∷ 0 ∷ 0 ∷ 0 ∷ 0 ∷ 1 ∷ 2 ∷ 3 ∷ 4 ∷ 65 ∷ 5 ∷ 6 ∷ 7 ∷ 8 ∷ []

abbrev decoded_frame : EventStreamFrame
decoded_frame = record empty_frame { payload = 65 ∷ [] }

abbrev first_bytes : Bytes
first_bytes = small_frame ++ (0 ∷ 0 ∷ 0 ∷ [])

abbrev last_bytes : Bytes
last_bytes = 17 ∷ 0 ∷ 0 ∷ 0 ∷ 0 ∷ 1 ∷ 2 ∷ 3 ∷ 4 ∷ 65 ∷ 5 ∷ 6 ∷ 7 ∷ 8 ∷ 9 ∷ []

first_decoded : decode_event_stream_frames first_bytes ≡ some (decoded_frame ∷ [], 17, true)
unfolding decode_event_stream_frames decode_loop decode_one_frame decode_body finish_frame frame_of
    parse_headers parse_loop parse_header header_value uint32
first_decoded = refl

last_decoded :
    decode_event_stream_frames (drop 17 first_bytes ++ last_bytes)
    ≡ some (decoded_frame ∷ [], 17, true)
unfolding decode_event_stream_frames decode_loop decode_one_frame decode_body finish_frame frame_of
    parse_headers parse_loop parse_header header_value uint32
last_decoded = refl

decode-append_example :
    decode_event_stream_frames (first_bytes ++ last_bytes)
    ≡ some (decoded_frame ∷ decoded_frame ∷ [], 34, true)
decode-append_example =
    decode-append first_bytes last_bytes (decoded_frame ∷ []) (decoded_frame ∷ []) 17 17 true true
      first_decoded last_decoded

boundary-decode_example :
    event_stream_boundary first_bytes ≡ some (17, is_partial (0 ∷ 0 ∷ 0 ∷ []), true)
boundary-decode_example = boundary-decode first_bytes (decoded_frame ∷ []) 17 true first_decoded

trailing_is_partial : is_partial (0 ∷ 0 ∷ 0 ∷ []) ≡ true
unfolding decode_one_frame
trailing_is_partial = refl

decode_total_example :
    (frames : List EventStreamFrame) × (consumed : ℕ) × (ok : Bool) × (decode_event_stream_frames
        first_bytes
      ≡ some (frames, consumed, ok))
    × (consumed ≤ length first_bytes)
    × (16 * length frames ≤ consumed)
decode_total_example = decode_total first_bytes

abbrev any_crc : Crc
any_crc = record { b0 = 1; b1 = 2; b2 = 3; b3 = 4 }

abbrev hello : Message
hello = record {
  headers =
      record { name = 58 ∷ 120 ∷ []; value = flag true }
      ∷ record {
        name = 58 ∷ 101 ∷ 118 ∷ 101 ∷ 110 ∷ 116 ∷ 45 ∷ 116 ∷ 121 ∷ 112 ∷ 101 ∷ [];
        value = string (104 ∷ 105 ∷ []);
      }
      ∷ [];
  payload = 123 ∷ 125 ∷ [];
  prelude_crc = any_crc;
  message_crc = any_crc;
}

nothing_decoded : decode_event_stream_frames (0 ∷ 0 ∷ []) ≡ some ([], 0, true)
unfolding decode_event_stream_frames decode_loop decode_one_frame
nothing_decoded = refl

hello_event_type : (sent hello).event_type ≡ 104 ∷ 105 ∷ []
unfolding sent last_string bytes_eq
hello_event_type = refl

hello_fits : total_len hello ≤ 16777216
unfolding total_len encode_headers encode_header encode_value
hello_fits = omega arith

decode-encode_example :
    decode_event_stream_frames (encode_stream (hello ∷ hello ∷ []) (0 ∷ 0 ∷ []))
    ≡ some (sent hello ∷ sent hello ∷ [], stream_len (hello ∷ hello ∷ []) + 0, true)
decode-encode_example =
    decode-encode (hello ∷ hello ∷ []) (0 ∷ 0 ∷ []) [] 0 true
      (
        ((omega arith, tt, (omega arith, omega arith, tt)), hello_fits),
        (((omega arith, tt, (omega arith, omega arith, tt)), hello_fits), tt),
      )
      nothing_decoded
