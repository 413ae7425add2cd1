-- ===== src/Framing.antt =====
-- network/src/framing.rs: the BAP outer frame, its parser and its serializer.
pub mod Bounds
pub mod RoundTrip
pub mod Sequence
use destiny1_pc_project.Prelude.{
  ℕ, zero, suc, ◌+◌, ◌-◌, Bool, true, false, not, Option, none, some, List, [], ◌∷◌, ◌++◌, ltb,
  ◌==◌, if◌then◌else◌, length, take, drop, slice, get_or, from_be, to_be16, to_be32, Result, ok,
  err, ◌>>=◌, ◌>>◌, fail_if,
}

abbrev pub bap_magic : ℕ
bap_magic = 1

abbrev pub kind_clear : ℕ
kind_clear = 2

abbrev pub kind_encrypted : ℕ
kind_encrypted = 1

abbrev pub header_len : ℕ
header_len = 6

abbrev pub clear_header_len : ℕ
clear_header_len = 6

abbrev pub encrypted_tag_len : ℕ
encrypted_tag_len = 16

-- The largest `usize` plus one, on a 64-bit target.
abbrev pub usize_limit : ℕ
usize_limit = 18446744073709551616

-- `u32::MAX` plus one.
abbrev pub u32_limit : ℕ
u32_limit = 4294967296

pub data FramingError : Type 0 where
  truncated_header : FramingError
  bad_magic : ℕ → FramingError
  truncated_body : FramingError
  truncated_clear_body : FramingError
  truncated_encrypted_tag : FramingError
  length_overflow : FramingError

pub data FrameKind : Type 0 where
  encrypted clear : FrameKind
  other : ℕ → FrameKind

unfoldable pub from_u8 : ℕ → FrameKind
from_u8 value =
    if value == kind_encrypted
    then FrameKind.encrypted
    else if value == kind_clear
    then FrameKind.clear
    else FrameKind.other value

unfoldable pub as_u8 : FrameKind → ℕ
as_u8 FrameKind.encrypted = kind_encrypted
as_u8 FrameKind.clear = kind_clear
as_u8 (FrameKind.other v) = v

pub record ClearBody : Type 0 where
  pub msg_id : ℕ
  pub context : ℕ
  pub payload : List ℕ

-- `tag` is an array of 16 bytes: its length is part of `FitsWire`.
pub record EncryptedBody : Type 0 where
  pub tag : List ℕ
  pub ciphertext : List ℕ

pub data FrameBody : Type 0 where
  clear : ClearBody → FrameBody
  encrypted : EncryptedBody → FrameBody
  opaque : List ℕ → FrameBody

pub record BapFrame : Type 0 where
  pub kind : FrameKind
  pub body : FrameBody

unfoldable pub parse_clear_body : List ℕ → Result FramingError ClearBody
parse_clear_body body = do
  fail_if (ltb (length body) clear_header_len) truncated_clear_body
  ok (record {
    msg_id = from_be (slice body 0 2);
    context = from_be (slice body 2 6);
    payload = drop clear_header_len body;
  })

unfoldable pub parse_encrypted_body : List ℕ → Result FramingError EncryptedBody
parse_encrypted_body body = do
  fail_if (ltb (length body) encrypted_tag_len) truncated_encrypted_tag
  ok (record { tag = take encrypted_tag_len body; ciphertext = drop encrypted_tag_len body })

-- The `match kind` of `BapFrame::parse`.
unfoldable pub parse_body : FrameKind → List ℕ → Result FramingError FrameBody
unfolding parse_clear_body parse_encrypted_body
parse_body FrameKind.clear bytes = do c ← parse_clear_body bytes; ok (FrameBody.clear c)
parse_body FrameKind.encrypted bytes = do e ← parse_encrypted_body bytes; ok (FrameBody.encrypted e)
parse_body (FrameKind.other v) bytes = ok (FrameBody.opaque bytes)

-- `HEADER_LEN.checked_add(body_len).ok_or(LengthOverflow)`.
unfoldable pub frame_total : ℕ → Result FramingError ℕ
frame_total body_len =
    if ltb (header_len + body_len) usize_limit
    then ok (header_len + body_len)
    else err length_overflow

-- `BapFrame::parse`: the frame at the start of the input, and how many bytes it takes.
unfoldable pub parse : List ℕ → Result FramingError (BapFrame × ℕ)
unfolding frame_total
parse input = do
  fail_if (ltb (length input) header_len) truncated_header
  let magic = get_or input 0 0
  fail_if (not (magic == bap_magic)) (bad_magic magic)
  let kind_byte = get_or input 1 0
  total ← frame_total (from_be (slice input 2 6))
  fail_if (ltb (length input) total) truncated_body
  let kind = from_u8 kind_byte
  body ← parse_body kind (slice input header_len total)
  ok (record { kind = kind; body = body }, total)

-- The `while` loop of `BapFrame::parse_all`. A round takes six bytes at least, so fuel equal to the
-- length of the input never runs out.
unfoldable pub parse_all_loop : ℕ → List ℕ → List BapFrame → Result FramingError (List BapFrame)
parse_all_loop fuel [] frames = ok frames
parse_all_loop zero (b ∷ bs) frames = ok frames
parse_all_loop (suc fuel) (b ∷ bs) frames = elim (b == bap_magic) [
  | false ↦ ok frames
  | true ↦ do
    (frame, consumed) ← parse (b ∷ bs)
    parse_all_loop fuel (drop consumed (b ∷ bs)) (frames ++ (frame ∷ []))
]

unfoldable pub parse_all : List ℕ → Result FramingError (List BapFrame)
parse_all input = parse_all_loop (length input) input []

unfoldable pub serialize_body : FrameBody → List ℕ
serialize_body (FrameBody.clear c) = to_be16 c.msg_id ++ (to_be32 c.context ++ c.payload)
serialize_body (FrameBody.encrypted e) = e.tag ++ e.ciphertext
serialize_body (FrameBody.opaque b) = b

-- `BapFrame::serialize`; the length has to fit a `u32`.
unfoldable pub serialize : BapFrame → Result FramingError (List ℕ)
serialize frame =
    let body_bytes = serialize_body frame.body in
    if ltb (length body_bytes) u32_limit
    then ok (bap_magic ∷ as_u8 frame.kind ∷ (to_be32 (length body_bytes) ++ body_bytes))
    else err length_overflow

unfoldable pub message_id : BapFrame → Option ℕ
message_id frame = elim frame.body [
  | FrameBody.clear c ↦ some c.msg_id
  | FrameBody.encrypted e ↦ none
  | FrameBody.opaque b ↦ none
]

unfoldable pub context : BapFrame → Option ℕ
context frame = elim frame.body [
  | FrameBody.clear c ↦ some c.context
  | FrameBody.encrypted e ↦ none
  | FrameBody.opaque b ↦ none
]

unfoldable pub payload_len : BapFrame → ℕ
payload_len frame = elim frame.body [
  | FrameBody.clear c ↦ length c.payload
  | FrameBody.encrypted e ↦ encrypted_tag_len + length e.ciphertext
  | FrameBody.opaque b ↦ length b
]

unfoldable pub clear_frame : ℕ → ℕ → List ℕ → BapFrame
clear_frame msg_id context payload = record {
  kind = FrameKind.clear;
  body = FrameBody.clear (record { msg_id = msg_id; context = context; payload = payload });
}

unfoldable pub encrypted_frame : List ℕ → List ℕ → BapFrame
encrypted_frame tag ciphertext = record {
  kind = FrameKind.encrypted;
  body = FrameBody.encrypted (record { tag = tag; ciphertext = ciphertext });
}
