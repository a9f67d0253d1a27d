-- ===== src/EventStream/RoundTrip.antt =====
-- About the decoders of eventstream.go, on frames as Encode writes them.
use gateway_controllers.Prelude.{
  map, ◌≡◌, refl, ap, sym, ◌∙◌, ℕ, ◌+◌, ◌-◌, ◌≤◌, List, [], ◌∷◌, ◌++◌, Bool, false, ◌||◌, some, ltb,
  length, take, drop, length-append, drop-drop, arith,
}
use gateway_controllers.EventStream.{
  Bytes, EventStreamFrame, frame_ok, uint32, header_value, parse_headers, frame_of, event_type_name,
  message_type_name, exception_type_name, max_frame_len, decode_body, finish_frame, slice,
  decode_one_frame, decode_event_stream_frames,
}
use gateway_controllers.EventStream.Frames.{implausible, whole_frame}
use gateway_controllers.EventStream.Stream.{after, decode_round}
use gateway_controllers.EventStream.WireHeaders.{
  take_exact, drop_exact, collect_all, collect_all-last, parse_headers-encode,
}
use gateway_controllers.EventStream.Encode.{
  crc_bytes, Fits, encode_headers, Message, total_len, encode_message, encode_stream, sent,
  IsSendable, AllSendable,
}

length-message :
    (m : Message) (rest : Bytes) → length (encode_message m rest) ≡ total_len m + length rest
unfolding encode_message total_len
length-message m rest = omega (
  arith,
  length-append {0} (encode_headers m.headers) (m.payload ++ crc_bytes m.message_crc rest),
  length-append {0} m.payload (crc_bytes m.message_crc rest),
)

frame_of-sent : (m : Message) → frame_of (collect_all m.headers []) m.payload ≡ sent m
unfolding frame_of sent header_value
frame_of-sent m =
    rw
      (
        collect_all-last m.headers [] event_type_name,
        collect_all-last m.headers [] message_type_name,
        collect_all-last m.headers [] exception_type_name,
      )
      refl

-- The two slices of a message that is encoded.
header_slice :
    (m : Message) (rest : Bytes)
    → slice (encode_message m rest) 12 (12 + length (encode_headers m.headers))
      ≡ encode_headers m.headers
unfolding encode_message
header_slice m rest =
    let hs = encode_headers m.headers in
    let tail = m.payload ++ crc_bytes m.message_crc rest in
    let e : 12 + length hs - 12 ≡ length hs = omega arith in
    ap (λ k. take k (hs ++ tail)) e ∙ take_exact hs tail

payload_slice :
    (m : Message) (rest : Bytes)
    → slice (encode_message m rest) (12 + length (encode_headers m.headers)) (total_len m - 4)
      ≡ m.payload
unfolding encode_message total_len
payload_slice m rest =
    let hs = encode_headers m.headers in
    let tail = m.payload ++ crc_bytes m.message_crc rest in
    let width : 16 + length hs + length m.payload - 4 - (12 + length hs) ≡ length m.payload =
      omega arith in
    ap (λ k. take k (drop (12 + length hs) (encode_message m rest))) width
    ∙ ap (take (length m.payload))
        (sym (drop-drop (length hs) 12 (encode_message m rest)) ∙ drop_exact hs tail)
    ∙ take_exact m.payload (crc_bytes m.message_crc rest)

decode_body-encode :
    (m : Message) (rest : Bytes)
    → Fits m.headers
    → decode_body (encode_message m rest) (total_len m) (length (encode_headers m.headers))
      ≡ some (sent m, total_len m, frame_ok)
unfolding decode_body finish_frame
decode_body-encode m rest fits =
    let bytes = encode_message m rest in
    let hs = encode_headers m.headers in
    ap (λ p. finish_frame p (total_len m) (parse_headers (slice bytes 12 (12 + length hs))))
      (payload_slice m rest)
    ∙ ap (λ h. finish_frame m.payload (total_len m) (parse_headers h)) (header_slice m rest)
    ∙ ap (finish_frame m.payload (total_len m)) (parse_headers-encode m.headers fits)
    ∙ ap (λ f. some (f, total_len m, frame_ok)) (frame_of-sent m)

message_total : (m : Message) (rest : Bytes) → uint32 (encode_message m rest) ≡ total_len m
unfolding encode_message uint32
message_total m rest = omega arith

message_headers :
    (m : Message) (rest : Bytes)
    → uint32 (drop 4 (encode_message m rest)) ≡ length (encode_headers m.headers)
unfolding encode_message uint32
message_headers m rest = omega arith

message_plausible :
    (m : Message) (rest : Bytes)
    → total_len m ≤ max_frame_len
    → implausible (encode_message m rest) ≡ false
unfolding implausible total_len
message_plausible m rest h = ground (arith, message_total m rest, message_headers m rest)

-- A message that the format allows is decoded, whatever follows it: the payload, the three headers
-- as the last string header of each name has them, and the number of bytes that it takes.
pub decode_one_frame-encode :
    (m : Message) (rest : Bytes)
    → IsSendable m
    → decode_one_frame (encode_message m rest) ≡ some (sent m, total_len m, frame_ok)
decode_one_frame-encode m rest ok =
    let size = length-message m rest in
    let total = message_total m rest in
    whole_frame (encode_message m rest) (unfold total_len in omega (arith, size))
      (message_plausible m rest ok.1) (omega (arith, size, total))
    ∙ rw (total, message_headers m rest) (decode_body-encode m rest ok.0)

drop_message : (m : Message) (rest : Bytes) → drop (total_len m) (encode_message m rest) ≡ rest
unfolding encode_message total_len
drop_message m rest =
    let h = length (encode_headers m.headers) in
    let p = length m.payload in
    let bytes = encode_message m rest in
    let tail = crc_bytes m.message_crc rest in
    let parts : 16 + h + p ≡ 12 + h + p + 4 = omega arith in
    ap (λ k. drop k bytes) parts
    ∙ sym (drop-drop 4 (12 + h + p) bytes)
    ∙ ap (drop 4) (
        sym (drop-drop p (12 + h) bytes)
        ∙ ap (drop p)
            (sym (drop-drop h 12 bytes) ∙ drop_exact (encode_headers m.headers) (m.payload ++ tail))
        ∙ drop_exact m.payload tail)

abbrev pub stream_len : List Message → ℕ
stream_len [] = 0
stream_len (m ∷ ms) = total_len m + stream_len ms

-- A stream of messages that the format allows, before any bytes, is decoded to those messages in
-- their order and then to what the bytes after it are decoded to; it is reported as no event stream
-- only where it has no message and those bytes are so reported.
pub decode-encode :
    (ms : List Message) (rest : Bytes) (gs : List EventStreamFrame) (n : ℕ) (ok : Bool)
    → AllSendable ms
    → decode_event_stream_frames rest ≡ some (gs, n, ok)
    → decode_event_stream_frames (encode_stream ms rest)
      ≡ some (map sent ms ++ gs, stream_len ms + n, ok || ltb 0 (stream_len ms))
unfolding encode_stream after total_len
decode-encode [] rest gs n ok valid e = ground (arith, e)
decode-encode (m ∷ ms) rest gs n ok valid e =
    let tail = encode_stream ms rest in
    let one = decode_one_frame-encode m tail valid.0 in
    let size = length-message m tail in
    decode_round (encode_message m tail) (sent m) (total_len m) (omega arith) (omega (arith, size))
      one
    ∙ ap (λ xs. after (sent m ∷ []) (total_len m) (decode_event_stream_frames xs))
        (drop_message m tail)
    ∙ ap (after (sent m ∷ []) (total_len m)) (decode-encode ms rest gs n ok valid.1 e)
    ∙ ground arith
