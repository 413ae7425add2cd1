-- ===== src/Codec.antt =====
-- network/src/message_codec.rs: logical messages behind the framing and the encryption.
pub mod Login
pub mod RoundTrip
use destiny1_pc_project.Prelude.{
  ℕ, ◌+◌, ◌-◌, Bool, true, false, not, Option, none, some, List, [], ◌∷◌, ◌++◌, ltb, ◌==◌,
  if◌then◌else◌, one_of, Text, codes, decimal, hex02, length, take, drop, slice, from_be, to_be16,
  to_be32, Result, ok, err, ◌>>=◌, ◌>>◌, fail_if, ok_or, map_err,
}
use destiny1_pc_project.Session
use destiny1_pc_project.Session.{DecodedBapFrame}

-- `jsonl::Direction`.
pub data Direction : Type 0 where
  client_to_server server_to_client : Direction

pub record BapMessageEnvelope : Type 0 where
  pub id : ℕ
  pub context : ℕ
  pub direction : Direction
  pub payload : List ℕ

pub data CodecError : Type 0 where
  invalid_payload_length : Text → CodecError
  invalid_field_length : Text → CodecError
  invalid_record_length : Text → CodecError
  unexpected_message_id : ℕ → CodecError
  malformed_message : Text → CodecError
  unsupported_message : ℕ → CodecError

pub record UnknownBapMessage : Type 0 where
  pub id : ℕ
  pub context : ℕ
  pub direction : Direction
  pub payload : List ℕ

pub record OpaquePayload : Type 0 where
  pub context : ℕ
  pub direction : Direction
  pub payload : List ℕ

pub record SessionLoginResponseRecord : Type 0 where
  pub prefix : ℕ
  pub record_len : ℕ
  pub iv : List ℕ
  pub ciphertext : List ℕ
  pub hmac : List ℕ

abbrev pub min_record_len : ℕ
min_record_len = 48

-- The texts of the three kinds of error that a record can give.
unfoldable pub short_record : ℕ → CodecError
short_record record_len =
    invalid_record_length
      (codes "record_len " ++ (decimal record_len ++ (codes " < " ++ decimal min_record_len)))

unfoldable pub wrong_cipher : ℕ → ℕ → CodecError
wrong_cipher len cipher_len = invalid_field_length (
    codes "ciphertext len "
    ++ (decimal len ++ (codes " != record_len-0x30 " ++ decimal cipher_len)))

unfoldable pub short_payload : ℕ → CodecError
short_payload len =
    invalid_payload_length (codes "0x1A payload len " ++ (decimal len ++ codes " too short"))

unfoldable pub wrong_payload : ℕ → ℕ → CodecError
wrong_payload len need =
    invalid_payload_length
      (codes "payload len " ++ (decimal len ++ (codes " != 6+record_len " ++ decimal need)))

unfoldable pub validate_lengths : SessionLoginResponseRecord → Result CodecError (Unit {0})
validate_lengths rec = do
  fail_if (ltb rec.record_len min_record_len) (short_record rec.record_len)
  let cipher_len = rec.record_len - 48
  fail_if (not (length rec.ciphertext == cipher_len))
      (wrong_cipher (length rec.ciphertext) cipher_len)

unfoldable pub encode_payload : SessionLoginResponseRecord → Result CodecError (List ℕ)
encode_payload rec = do
  validate_lengths rec
  ok (to_be16 rec.prefix ++ (to_be32 rec.record_len ++ (rec.iv ++ (rec.ciphertext ++ rec.hmac))))

-- The fields cut out of the material behind the record length.
unfoldable pub login_record : ℕ → ℕ → List ℕ → SessionLoginResponseRecord
login_record prefix record_len material =
    let cipher_len = record_len - 48 in
    record {
      prefix = prefix;
      record_len = record_len;
      iv = slice material 0 16;
      ciphertext = slice material 16 (16 + cipher_len);
      hmac = slice material (16 + cipher_len) (16 + cipher_len + 32);
    }

unfoldable pub decode_payload : List ℕ → Result CodecError SessionLoginResponseRecord
decode_payload payload = do
  fail_if (ltb (length payload) (6 + min_record_len)) (short_payload (length payload))
  let prefix = from_be (slice payload 0 2)
  let record_len = from_be (slice payload 2 6)
  fail_if (ltb record_len min_record_len) (short_record record_len)
  let need = 6 + record_len
  fail_if (not (length payload == need)) (wrong_payload (length payload) need)
  let rec = login_record prefix record_len (drop 6 payload)
  validate_lengths rec
  ok rec

pub data KnownBapMessage : Type 0 where
  destiny_service_handshake_request : OpaquePayload → KnownBapMessage
  destiny_service_handshake_response : OpaquePayload → KnownBapMessage
  session_login_request : OpaquePayload → KnownBapMessage
  -- context, direction, record, raw_payload
  session_login_response :
      ℕ → Direction → Option SessionLoginResponseRecord → List ℕ → KnownBapMessage
  encrypted_handshake_request : OpaquePayload → KnownBapMessage
  encrypted_handshake_status : OpaquePayload → KnownBapMessage
  message_0x12e : OpaquePayload → KnownBapMessage
  message_0x12f : OpaquePayload → KnownBapMessage
  message_0xfa : OpaquePayload → KnownBapMessage
  message_0xfb : OpaquePayload → KnownBapMessage

unfoldable pub known_id : KnownBapMessage → ℕ
known_id (destiny_service_handshake_request o) = 0x1E
known_id (destiny_service_handshake_response o) = 0x1F
known_id (session_login_request o) = 0x19
known_id (session_login_response c d r p) = 0x1A
known_id (encrypted_handshake_request o) = 0x79
known_id (encrypted_handshake_status o) = 0x7A
known_id (message_0x12e o) = 0x12E
known_id (message_0x12f o) = 0x12F
known_id (message_0xfa o) = 0xFA
known_id (message_0xfb o) = 0xFB

unfoldable pub known_context : KnownBapMessage → ℕ
known_context (destiny_service_handshake_request o) = o.context
known_context (destiny_service_handshake_response o) = o.context
known_context (session_login_request o) = o.context
known_context (session_login_response c d r p) = c
known_context (encrypted_handshake_request o) = o.context
known_context (encrypted_handshake_status o) = o.context
known_context (message_0x12e o) = o.context
known_context (message_0x12f o) = o.context
known_context (message_0xfa o) = o.context
known_context (message_0xfb o) = o.context

unfoldable pub known_direction : KnownBapMessage → Direction
known_direction (destiny_service_handshake_request o) = o.direction
known_direction (destiny_service_handshake_response o) = o.direction
known_direction (session_login_request o) = o.direction
known_direction (session_login_response c d r p) = d
known_direction (encrypted_handshake_request o) = o.direction
known_direction (encrypted_handshake_status o) = o.direction
known_direction (message_0x12e o) = o.direction
known_direction (message_0x12f o) = o.direction
known_direction (message_0xfa o) = o.direction
known_direction (message_0xfb o) = o.direction

pub data BapMessage : Type 0 where
  known : KnownBapMessage → BapMessage
  unknown : UnknownBapMessage → BapMessage

unfoldable pub id : BapMessage → ℕ
unfolding known_id
id (known k) = known_id k
id (unknown u) = u.id

unfoldable pub context : BapMessage → ℕ
unfolding known_context
context (known k) = known_context k
context (unknown u) = u.context

unfoldable pub direction : BapMessage → Direction
unfolding known_direction
direction (known k) = known_direction k
direction (unknown u) = u.direction

unfoldable pub is_known : BapMessage → Bool
is_known (known k) = true
is_known (unknown u) = false

unfoldable pub codec_known_ids : List ℕ
codec_known_ids = 0x1E ∷ 0x1F ∷ 0x19 ∷ 0x1A ∷ 0x79 ∷ 0x7A ∷ 0x12E ∷ 0x12F ∷ 0xFA ∷ 0xFB ∷ []

unfoldable pub has_known_codec : ℕ → Bool
unfolding one_of codec_known_ids
has_known_codec n = one_of n codec_known_ids

unfoldable pub opaque : BapMessageEnvelope → OpaquePayload
opaque env = record { context = env.context; direction = env.direction; payload = env.payload }

-- `Result::ok`.
abbrev ok_part : {A : Type 0} → Result CodecError A → Option A
ok_part (ok a) = some a
ok_part (err e) = none

-- `decode_message`: the `match env.id`, in the code's order.
unfoldable pub decode_message : BapMessageEnvelope → Result CodecError BapMessage
unfolding opaque
decode_message env =
    if env.id == 0x1E
    then ok (known (destiny_service_handshake_request (opaque env)))
    else if env.id == 0x1F
    then ok (known (destiny_service_handshake_response (opaque env)))
    else if env.id == 0x19
    then ok (known (session_login_request (opaque env)))
    else if env.id == 0x1A
    then ok (
        known (
          session_login_response env.context env.direction (ok_part (decode_payload env.payload))
            env.payload))
    else if env.id == 0x79
    then ok (known (encrypted_handshake_request (opaque env)))
    else if env.id == 0x7A
    then ok (known (encrypted_handshake_status (opaque env)))
    else if env.id == 0x12E
    then ok (known (message_0x12e (opaque env)))
    else if env.id == 0x12F
    then ok (known (message_0x12f (opaque env)))
    else if env.id == 0xFA
    then ok (known (message_0xfa (opaque env)))
    else if env.id == 0xFB
    then ok (known (message_0xfb (opaque env)))
    else ok (
        unknown (record {
          id = env.id;
          context = env.context;
          direction = env.direction;
          payload = env.payload;
        }))

unfoldable pub encode_known : KnownBapMessage → Result CodecError (List ℕ)
encode_known (destiny_service_handshake_request o) = ok o.payload
encode_known (destiny_service_handshake_response o) = ok o.payload
encode_known (session_login_request o) = ok o.payload
encode_known (session_login_response c d (some rec) raw) = encode_payload rec
encode_known (session_login_response c d none raw) = ok raw
encode_known (encrypted_handshake_request o) = ok o.payload
encode_known (encrypted_handshake_status o) = ok o.payload
encode_known (message_0x12e o) = ok o.payload
encode_known (message_0x12f o) = ok o.payload
encode_known (message_0xfa o) = ok o.payload
encode_known (message_0xfb o) = ok o.payload

unfoldable pub encode_message : BapMessage → Result CodecError (List ℕ)
unfolding encode_known
encode_message (unknown u) = ok u.payload
encode_message (known k) = encode_known k

unfoldable pub decode_from_frame : DecodedBapFrame → Direction → Result CodecError BapMessage
decode_from_frame (Session.clear n ctx payload) dir =
    decode_message (record { id = n; context = ctx; direction = dir; payload = payload })
decode_from_frame (Session.decrypted msg_id ctx payload len) dir = do
  n ← ok_or msg_id (malformed_message (codes "decrypted plaintext missing msg_id"))
  c ← ok_or ctx (malformed_message (codes "decrypted plaintext missing context"))
  decode_message (record { id = n; context = c; direction = dir; payload = payload })
decode_from_frame (Session.opaque kind len) dir = err (
    malformed_message
      (codes "opaque frame kind=0x" ++ (hex02 kind ++ codes " has no logical message")))

unfoldable pub envelope : ℕ → ℕ → Direction → List ℕ → BapMessageEnvelope
envelope n ctx dir payload = record { id = n; context = ctx; direction = dir; payload = payload }

-- What `roundtrip_ok` decodes again.
unfoldable pub envelope_of : BapMessage → List ℕ → BapMessageEnvelope
envelope_of message payload = envelope (id message) (context message) (direction message) payload
