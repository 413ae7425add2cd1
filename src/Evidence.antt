-- ===== src/Evidence.antt =====
-- network/src/jsonl.rs: one line of evidence, as a raw frame in hex or as its fields.
pub mod Reading
use destiny1_pc_project.Prelude.{
  ℕ, zero, suc, ◌+◌, ◌%◌, Bool, true, false, not, ◌||◌, Option, none, some, List, [], ◌∷◌, ◌++◌,
  ◌==◌, if◌then◌else◌, ltb, length, is_empty, Text, codes, hex02, utf8, trim, lines, text_eq,
  u8_from_hex, Result, ok, err, ◌>>=◌, map_err, ok_or, Call, returns, panics,
}
use destiny1_pc_project.Framing
use destiny1_pc_project.Framing.{BapFrame, FrameKind, FrameBody, FramingError, from_u8, parse}
use destiny1_pc_project.Codec.{Direction}

pub data JsonlError : Type 0 where
  -- The line of a text that is no such object.
  json : ℕ → JsonlError
  bad_direction bad_hex : Text → JsonlError
  incomplete_record : JsonlError
  framing : FramingError → JsonlError
  bad_tag_length : JsonlError

unfoldable pub as_str : Direction → Text
as_str Direction.client_to_server = codes "client_to_server"
as_str Direction.server_to_client = codes "server_to_client"

unfoldable pub short : Direction → Text
short Direction.client_to_server = codes "C → S"
short Direction.server_to_client = codes "S → C"

unfoldable pub parse_direction : Text → Result JsonlError Direction
parse_direction raw =
    if text_eq raw (codes "client_to_server")
      || (text_eq raw (codes "c2s") || (text_eq raw (codes "C→S") || text_eq raw (codes "C -> S")))
    then ok Direction.client_to_server
    else if text_eq raw (codes "server_to_client")
        || (text_eq raw (codes "s2c")
            || (text_eq raw (codes "S→C") || text_eq raw (codes "S -> C")))
    then ok Direction.server_to_client
    else err (bad_direction raw)

pub record EvidenceRecord : Type 0 where
  pub timestamp_ms : ℕ
  pub direction : Direction
  pub frame : BapFrame

pub record RawRecord : Type 0 where
  pub timestamp_ms : ℕ
  pub direction : Text
  pub frame_hex : Option Text
  pub kind : Option ℕ
  pub message_id : Option ℕ
  pub context : Option ℕ
  pub payload_hex : Option Text
  pub tag_hex : Option Text
  pub ciphertext_hex : Option Text

-- A byte in front of those behind it.
unfoldable pub push_byte : ℕ → Call (Result JsonlError (List ℕ)) → Call (Result JsonlError (List ℕ))
push_byte b (returns (ok bs)) = returns (ok (b ∷ bs))
push_byte b (returns (err e)) = returns (err e)
push_byte b panics = panics

-- `&s[i..i + 2]`: two characters of one byte, or one of two. A slice that cuts a character panics.
unfoldable pub first_slice : Text → Option (Text × Text)
first_slice [] = none
first_slice (c ∷ []) = if ltb c 128 || not (ltb c 2048) then none else some (c ∷ [], [])
first_slice (c ∷ d ∷ cs) =
    if ltb c 128
    then (if ltb d 128 then some (c ∷ d ∷ [], cs) else none)
    else if ltb c 2048
    then some (c ∷ [], d ∷ cs)
    else none

-- The map over the slices, collected up to the first error. Every slice takes a character.
unfoldable pub hex_slices : ℕ → Text → Call (Result JsonlError (List ℕ))
unfolding push_byte
hex_slices fuel [] = returns (ok [])
hex_slices zero (c ∷ cs) = panics
hex_slices (suc fuel) (c ∷ cs) = elim (first_slice (c ∷ cs)) [
  | none ↦ panics
  | some (slice, rest) ↦ elim (u8_from_hex slice) [
    | err e ↦ returns (err (bad_hex slice))
    | ok b ↦ push_byte b (hex_slices fuel rest)
  ]
]

unfoldable pub decode_hex : Text → Call (Result JsonlError (List ℕ))
decode_hex text =
    let s = trim text in
    if is_empty s
    then returns (ok [])
    else if not (length (utf8 s) % 2 == 0)
    then returns (err (bad_hex (codes "odd length: " ++ s)))
    else hex_slices (length s) s

-- `Some(h) => decode_hex(h)?`, `None => Vec::new()`.
unfoldable pub decode_or_empty : Option Text → Call (Result JsonlError (List ℕ))
decode_or_empty none = returns (ok [])
decode_or_empty (some h) = decode_hex h

-- What follows a decoded text.
infixl 5 ◌>>>◌
abbrev pub ◌>>>◌ :
    {A B : Type 0}
    → Call (Result JsonlError A)
    → (A → Call (Result JsonlError B))
    → Call (Result JsonlError B)
returns (ok a) >>> f = f a
returns (err e) >>> f = returns (err e)
panics >>> f = panics

unfoldable pub clear_frame : RawRecord → Call (Result JsonlError BapFrame)
unfolding decode_or_empty
clear_frame raw = elim raw.message_id [
  | none ↦ returns (err incomplete_record)
  | some msg_id ↦ decode_or_empty raw.payload_hex >>> λ payload. returns (
      ok (record {
        kind = FrameKind.clear;
        body = FrameBody.clear (record {
          msg_id = msg_id;
          context = elim raw.context [ some ctx ↦ ctx | none ↦ 0 ];
          payload = payload;
        });
      }))
]

unfoldable pub encrypted_frame : RawRecord → Call (Result JsonlError BapFrame)
unfolding decode_or_empty
encrypted_frame raw = decode_hex (elim raw.tag_hex [ some h ↦ h | none ↦ [] ]) >>> λ tag.
    if not (length tag == 16)
    then returns (err bad_tag_length)
    else (decode_or_empty raw.ciphertext_hex >>> λ ciphertext. returns (
        ok (record {
          kind = FrameKind.encrypted;
          body = FrameBody.encrypted (record { tag = tag; ciphertext = ciphertext });
        })))

unfoldable pub other_frame : ℕ → RawRecord → Call (Result JsonlError BapFrame)
unfolding decode_or_empty
other_frame k raw = decode_or_empty raw.payload_hex >>> λ body.
    returns (ok (record { kind = FrameKind.other k; body = FrameBody.opaque body }))

unfoldable pub frame_of_kind : FrameKind → RawRecord → Call (Result JsonlError BapFrame)
unfolding clear_frame encrypted_frame other_frame
frame_of_kind FrameKind.clear raw = clear_frame raw
frame_of_kind FrameKind.encrypted raw = encrypted_frame raw
frame_of_kind (FrameKind.other k) raw = other_frame k raw

unfoldable pub structured_frame : RawRecord → Call (Result JsonlError BapFrame)
unfolding frame_of_kind
structured_frame raw = elim raw.kind [
  | none ↦ returns (err incomplete_record)
  | some kind_byte ↦ frame_of_kind (from_u8 kind_byte) raw
]

-- `BapFrame::parse(&bytes)?.0`: bytes behind the frame are not looked at.
unfoldable pub parsed_frame : List ℕ → Result JsonlError BapFrame
parsed_frame bytes = map_err framing (parse bytes) >>= λ r. ok r.0

unfoldable pub raw_frame : RawRecord → Call (Result JsonlError BapFrame)
unfolding parsed_frame structured_frame
raw_frame raw = elim raw.frame_hex [
  | some hex ↦ decode_hex hex >>> λ bytes. returns (parsed_frame bytes)
  | none ↦ structured_frame raw
]

unfoldable pub from_raw : RawRecord → Call (Result JsonlError EvidenceRecord)
unfolding raw_frame parse_direction
from_raw raw = elim (parse_direction raw.direction) [
  | err e ↦ returns (err e)
  | ok direction ↦ raw_frame raw >>> λ frame.
      returns
        (ok (record { timestamp_ms = raw.timestamp_ms; direction = direction; frame = frame }))
]

unfoldable pub encode_hex : List ℕ → Text
encode_hex [] = []
encode_hex (b ∷ bs) = hex02 b ++ encode_hex bs

-- Empty lines and comments are passed over.
unfoldable pub is_skipped : Text → Bool
is_skipped [] = true
is_skipped (c ∷ cs) = c == 35

-- serde_json's reading of one object.
module _ (from_str : Text → Option RawRecord) where
  unfoldable pub from_raw_json : Text → Call (Result JsonlError EvidenceRecord)
  from_raw_json line = elim (from_str line) [
    | none ↦ returns (err (json 0))
    | some raw ↦ from_raw raw
  ]

  unfoldable pub read_line : ℕ → Text → Call (Result JsonlError EvidenceRecord)
  read_line number line = elim (from_str line) [
    | none ↦ returns (err (json number))
    | some raw ↦ from_raw raw
  ]

  unfoldable pub read_lines : ℕ → List Text → Call (Result JsonlError (List EvidenceRecord))
  unfolding is_skipped read_line
  read_lines idx [] = returns (ok [])
  read_lines idx (line ∷ rest) =
      let later = read_lines (suc idx) rest in
      if is_skipped (trim line)
      then later
      else (read_line (suc idx) (trim line) >>> λ r. later >>> λ rs. returns (ok (r ∷ rs)))

  unfoldable pub parse_jsonl_str : Text → Call (Result JsonlError (List EvidenceRecord))
  unfolding read_lines
  parse_jsonl_str input = read_lines 0 (lines input)
