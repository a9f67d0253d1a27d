-- ===== src/EventStream/Encode.antt =====
-- The wire format that the head of eventstream.go describes, written as an encoder: what a server
-- sends.
use gateway_controllers.Prelude.{
  ℕ, ◌+◌, ◌/◌, ◌%◌, ◌≤◌, ◌<◌, ◌≡◌, List, [], ◌∷◌, ◌++◌, Bool, true, false, length, if◌then◌else◌,
}
use gateway_controllers.EventStream.{
  Bytes, EventStreamFrame, event_type_name, message_type_name, exception_type_name, bytes_eq,
  max_frame_len,
}

pub data HeaderValue : Type 0 where
  flag : Bool → HeaderValue
  byte : ℕ → HeaderValue
  short : ℕ → ℕ → HeaderValue
  integer : ℕ → ℕ → ℕ → ℕ → HeaderValue
  long timestamp byte_array string uuid : Bytes → HeaderValue

pub record Header : Type 0 where
  pub name : Bytes
  pub value : HeaderValue

-- Four bytes of a checksum, which may be any.
pub record Crc : Type 0 where
  pub b0 : ℕ
  pub b1 : ℕ
  pub b2 : ℕ
  pub b3 : ℕ

abbrev pub crc_bytes : Crc → Bytes → Bytes
crc_bytes c rest = c.b0 ∷ c.b1 ∷ c.b2 ∷ c.b3 ∷ rest

-- A number of 32 and of 16 bits, the highest byte first, before the bytes that follow.
abbrev pub u32 : ℕ → Bytes → Bytes
u32 n rest = (n / 16777216) ∷ (n / 65536 % 256) ∷ (n / 256 % 256) ∷ (n % 256) ∷ rest

abbrev pub u16 : ℕ → Bytes → Bytes
u16 n rest = (n / 256) ∷ (n % 256) ∷ rest

unfoldable pub encode_value : HeaderValue → Bytes
encode_value (flag true) = 0 ∷ []
encode_value (flag false) = 1 ∷ []
encode_value (byte a) = 2 ∷ a ∷ []
encode_value (short a b) = 3 ∷ a ∷ b ∷ []
encode_value (integer a b c d) = 4 ∷ a ∷ b ∷ c ∷ d ∷ []
encode_value (long bs) = 5 ∷ bs
encode_value (byte_array bs) = 6 ∷ u16 (length bs) bs
encode_value (string bs) = 7 ∷ u16 (length bs) bs
encode_value (timestamp bs) = 8 ∷ bs
encode_value (uuid bs) = 9 ∷ bs

abbrev pub FitsValue : HeaderValue → Type 0
FitsValue (flag b) = Unit {0}
FitsValue (byte a) = Unit {0}
FitsValue (short a b) = Unit {0}
FitsValue (integer a b c d) = Unit {0}
FitsValue (long bs) = length bs ≡ 8
FitsValue (byte_array bs) = length bs < 65536
FitsValue (string bs) = length bs < 65536
FitsValue (timestamp bs) = length bs ≡ 8
FitsValue (uuid bs) = length bs ≡ 16

abbrev pub Fits : List Header → Type 0
Fits [] = Unit {0}
Fits (h ∷ hs) = (length h.name < 256) × FitsValue h.value × Fits hs

unfoldable pub encode_header : Header → Bytes → Bytes
encode_header h rest = length h.name ∷ (h.name ++ (encode_value h.value ++ rest))

unfoldable pub encode_headers : List Header → Bytes
encode_headers [] = []
encode_headers (h ∷ hs) = encode_header h (encode_headers hs)

pub record Message : Type 0 where
  pub headers : List Header
  pub payload : Bytes
  pub prelude_crc : Crc
  pub message_crc : Crc

unfoldable pub total_len : Message → ℕ
total_len m = 16 + length (encode_headers m.headers) + length m.payload

-- A message, before the bytes that follow it.
unfoldable pub encode_message : Message → Bytes → Bytes
encode_message m rest = u32 (total_len m) (
    u32 (length (encode_headers m.headers)) (
      crc_bytes m.prelude_crc
        (encode_headers m.headers ++ (m.payload ++ crc_bytes m.message_crc rest))))

unfoldable pub encode_stream : List Message → Bytes → Bytes
encode_stream [] rest = rest
encode_stream (m ∷ ms) rest = encode_message m (encode_stream ms rest)

-- The last string header under a name, and the value before the headers where there is none.
unfoldable pub last_string : Bytes → List Header → Bytes → Bytes
last_string found [] name = found
last_string found (h ∷ hs) name =
    last_string (elim h.value [ string v ↦ if bytes_eq h.name name then v else found | _ ↦ found ])
      hs name

unfoldable pub sent : Message → EventStreamFrame
sent m = record {
  event_type = last_string [] m.headers event_type_name;
  message_type = last_string [] m.headers message_type_name;
  exception_type = last_string [] m.headers exception_type_name;
  payload = m.payload;
}

-- What the format allows: the widths of the values, and no frame beyond the limit.
abbrev pub IsSendable : Message → Type 0
IsSendable m = Fits m.headers × (total_len m ≤ max_frame_len)

abbrev pub AllSendable : List Message → Type 0
AllSendable [] = Unit {0}
AllSendable (m ∷ ms) = IsSendable m × AllSendable ms
