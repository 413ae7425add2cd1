-- ===== src/Evidence/Reading.antt =====
-- Records of network/src/jsonl.rs that say the same frame in two ways.
use destiny1_pc_project.Prelude.{
  ℕ, zero, suc, ◌*◌, ◌%◌, ◌/◌, ◌≤◌, ◌≡◌, refl, subst, none, some, List, [], ◌∷◌, ◌++◌, arith,
  length, All, IsByte, All-append_inv, to_be16, to_be32, Text, hex02, ok, returns,
}
use destiny1_pc_project.Framing.{
  BapFrame, FrameKind, FrameBody, as_u8, from_u8, serialize, serialize_body,
}
use destiny1_pc_project.Framing.RoundTrip.{FitsBody, FitsWire, wire, serialize_ok, parse-serialize}
use destiny1_pc_project.Codec.{Direction}
use destiny1_pc_project.LocalProtocol.Hex.{
  IsPlain, hex_digit-IsPlain, trim_plain, length-utf8_plain, u8_from_hex-hex02,
}
use destiny1_pc_project.Evidence.{
  RawRecord, encode_hex, first_slice, hex_slices, push_byte, decode_hex, raw_frame, parsed_frame,
  frame_of_kind, clear_frame, encrypted_frame, other_frame, decode_or_empty, structured_frame,
  from_raw, parse_direction,
}

encode_hex-IsPlain : (bs : List ℕ) → All IsPlain (encode_hex bs)
unfolding encode_hex
encode_hex-IsPlain [] = tt
encode_hex-IsPlain (b ∷ bs) = (
  hex_digit-IsPlain (b / 16 % 16) (omega arith),
  (hex_digit-IsPlain (b % 16) (omega arith), encode_hex-IsPlain bs),
)

length-encode_hex : (bs : List ℕ) → length (encode_hex bs) ≡ 2 * length bs
unfolding encode_hex
length-encode_hex [] = omega arith
length-encode_hex (b ∷ bs) = omega (arith, length-encode_hex bs)

first_slice-hex02 : (b : ℕ) (rest : Text) → first_slice (hex02 b ++ rest) ≡ some (hex02 b, rest)
unfolding first_slice
first_slice-hex02 b rest = ground (
  arith,
  (hex_digit-IsPlain (b / 16 % 16) (omega arith)).ascii,
  (hex_digit-IsPlain (b % 16) (omega arith)).ascii,
)

hex_slices-encode_hex :
    (fuel : ℕ) (bs : List ℕ)
    → All IsByte bs
    → length bs ≤ fuel
    → hex_slices fuel (encode_hex bs) ≡ returns (ok bs)
unfolding encode_hex hex_slices push_byte
hex_slices-encode_hex fuel [] h n = ground arith
hex_slices-encode_hex zero (b ∷ bs) h n = ground arith
hex_slices-encode_hex (suc fuel) (b ∷ bs) (h, hs) n = ground (
  arith,
  first_slice-hex02 b (encode_hex bs),
  u8_from_hex-hex02 b h,
  hex_slices-encode_hex fuel bs hs (omega arith),
)

-- Bytes written as hex text are read back.
pub decode_hex-encode_hex :
    (bs : List ℕ) → All IsByte bs → decode_hex (encode_hex bs) ≡ returns (ok bs)
unfolding decode_hex
decode_hex-encode_hex bs h =
    let plain = encode_hex-IsPlain bs in
    ground (
      arith,
      trim_plain (encode_hex bs) plain,
      length-utf8_plain (encode_hex bs) plain,
      length-encode_hex bs,
      hex_slices-encode_hex (length (encode_hex bs)) bs h (omega (arith, length-encode_hex bs)),
    )

-- The record of a frame in hex, and the one that gives its fields.
abbrev pub in_hex : ℕ → Text → List ℕ → RawRecord
in_hex timestamp direction bytes = record {
  timestamp_ms = timestamp;
  direction = direction;
  frame_hex = some (encode_hex bytes);
  kind = none;
  message_id = none;
  context = none;
  payload_hex = none;
  tag_hex = none;
  ciphertext_hex = none;
}

abbrev pub in_fields : ℕ → Text → FrameKind → FrameBody → RawRecord
in_fields timestamp direction kind (FrameBody.clear c) = record {
  timestamp_ms = timestamp;
  direction = direction;
  frame_hex = none;
  kind = some (as_u8 kind);
  message_id = some c.msg_id;
  context = some c.context;
  payload_hex = some (encode_hex c.payload);
  tag_hex = none;
  ciphertext_hex = none;
}
in_fields timestamp direction kind (FrameBody.encrypted e) = record {
  timestamp_ms = timestamp;
  direction = direction;
  frame_hex = none;
  kind = some (as_u8 kind);
  message_id = none;
  context = none;
  payload_hex = none;
  tag_hex = some (encode_hex e.tag);
  ciphertext_hex = some (encode_hex e.ciphertext);
}
in_fields timestamp direction kind (FrameBody.opaque b) = record {
  timestamp_ms = timestamp;
  direction = direction;
  frame_hex = none;
  kind = some (as_u8 kind);
  message_id = none;
  context = none;
  payload_hex = some (encode_hex b);
  tag_hex = none;
  ciphertext_hex = none;
}

structured_frame-in_fields :
    (timestamp : ℕ) (direction : Text) (kind : FrameKind) (body : FrameBody)
    → FitsBody kind body
    → All IsByte (serialize_body body)
    → structured_frame (in_fields timestamp direction kind body)
      ≡ returns (ok (record { kind = kind; body = body }))
unfolding structured_frame frame_of_kind clear_frame encrypted_frame other_frame decode_or_empty
    from_u8 as_u8 serialize_body
structured_frame-in_fields timestamp direction FrameKind.clear (FrameBody.clear c) h bs =
    let inner =
      (All-append_inv IsByte (to_be32 c.context) c.payload
        (All-append_inv IsByte (to_be16 c.msg_id) (to_be32 c.context ++ c.payload) bs).1).1 in
    ground (arith, decode_hex-encode_hex c.payload inner)
structured_frame-in_fields timestamp direction FrameKind.encrypted (FrameBody.encrypted e) h bs =
    let (tag, sealed) = All-append_inv IsByte e.tag e.ciphertext bs in
    ground (arith, decode_hex-encode_hex e.tag tag, decode_hex-encode_hex e.ciphertext sealed)
structured_frame-in_fields timestamp direction (FrameKind.other k) (FrameBody.opaque b) h bs =
    ground (arith, decode_hex-encode_hex b bs)
structured_frame-in_fields timestamp direction (FrameKind.other k) (FrameBody.clear c) h bs =
    absurd h
structured_frame-in_fields timestamp direction (FrameKind.other k) (FrameBody.encrypted e) h bs =
    absurd h
structured_frame-in_fields timestamp direction FrameKind.clear (FrameBody.encrypted e) h bs =
    absurd h
structured_frame-in_fields timestamp direction FrameKind.clear (FrameBody.opaque b) h bs = absurd h
structured_frame-in_fields timestamp direction FrameKind.encrypted (FrameBody.clear c) h bs =
    absurd h
structured_frame-in_fields timestamp direction FrameKind.encrypted (FrameBody.opaque b) h bs =
    absurd h

in_fields-text :
    (timestamp : ℕ) (text : Text) (kind : FrameKind) (body : FrameBody)
    → let raw = in_fields timestamp text kind body in
      (raw.timestamp_ms ≡ timestamp) × (raw.direction ≡ text) × (raw.frame_hex ≡ none)
in_fields-text timestamp text kind (FrameBody.clear c) = (refl, refl, refl)
in_fields-text timestamp text kind (FrameBody.encrypted e) = (refl, refl, refl)
in_fields-text timestamp text kind (FrameBody.opaque b) = (refl, refl, refl)

serialize_body-IsByte :
    (frame : BapFrame) (bytes : List ℕ)
    → FitsWire frame
    → serialize frame ≡ ok bytes
    → All IsByte bytes
    → All IsByte (serialize_body frame.body)
serialize_body-IsByte frame bytes h e bs =
    let same : bytes ≡ wire frame = ground (arith, serialize_ok frame h) in
    let inside : All IsByte (wire frame) = subst (All IsByte) same bs in
    (All-append_inv IsByte (to_be32 (length (serialize_body frame.body)))
      (serialize_body frame.body) (unfold wire in inside.1.1)).1

-- A frame that fits the wire, in a record with a direction that is read: the record that holds the
-- frame's bytes in hex, with any bytes behind them, and the record that gives its fields are both read to that
-- time, direction and frame.
pub from_raw-in_hex :
    (timestamp : ℕ) (text : Text) (direction : Direction) (frame : BapFrame) (bytes rest : List ℕ)
    → parse_direction text ≡ ok direction
    → FitsWire frame
    → serialize frame ≡ ok bytes
    → All IsByte (bytes ++ rest)
    → (from_raw (in_hex timestamp text (bytes ++ rest))
        ≡ returns (ok (record { timestamp_ms = timestamp; direction = direction; frame = frame })))
      × (from_raw (in_fields timestamp text frame.kind frame.body)
          ≡ returns
              (ok (record { timestamp_ms = timestamp; direction = direction; frame = frame })))
unfolding from_raw raw_frame parsed_frame serialize
from_raw-in_hex timestamp text direction frame bytes rest d h e bs =
    let whole = (All-append_inv IsByte bytes rest bs).0 in
    let body = serialize_body-IsByte frame bytes h e whole in
    let (at, says, bare) = in_fields-text timestamp text frame.kind frame.body in
    (
      ground (
        arith,
        d,
        decode_hex-encode_hex (bytes ++ rest) bs,
        parse-serialize frame rest bytes h e,
      ),
      ground (
        arith,
        d,
        at,
        says,
        bare,
        structured_frame-in_fields timestamp text frame.kind frame.body h body,
      ),
    )
