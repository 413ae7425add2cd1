-- ===== src/Events.antt =====
-- network/src/stateful_bap_session.rs: the events of a connection and the texts in them, with the
-- synthetic material of network/src/test_crypto_material.rs.
use destiny1_pc_project.Prelude.{ℕ, Bool, List, [], ◌∷◌, ◌++◌, Text, codes, hex04}
use destiny1_pc_project.Codec.{
  CodecError, invalid_payload_length, invalid_field_length, invalid_record_length,
  unexpected_message_id, malformed_message, unsupported_message,
}
use destiny1_pc_project.Protocol.{
  ProtocolStateError, unexpected_message, invalid_direction, invalid_state, invalid_message,
  crypto_not_established, handshake_incomplete, already_closed, invalid_transition,
}

abbrev pub synthetic_session_key : List ℕ
synthetic_session_key = 0 ∷ 1 ∷ 2 ∷ 3 ∷ 4 ∷ 5 ∷ 6 ∷ 7 ∷ 8 ∷ 9 ∷ 10 ∷ 11 ∷ 12 ∷ 13 ∷ 14 ∷ 15 ∷ []

abbrev pub synthetic_session_nonce : List ℕ
synthetic_session_nonce = 16 ∷ 17 ∷ 18 ∷ 19 ∷ 20 ∷ 21 ∷ 22 ∷ 23 ∷ 24 ∷ 25 ∷ 26 ∷ 27 ∷ []

pub record SyntheticSessionMaterial : Type 0 where
  pub key : List ℕ
  pub nonce : List ℕ

pub data ProtocolEvent : Type 0 where
  connected : ℕ → ProtocolEvent
  message_received : ℕ → Text → ProtocolEvent
  message_decoded : ℕ → Bool → ProtocolEvent
  -- from, to
  state_transition : Text → Text → ProtocolEvent
  message_rejected : ℕ → Text → ProtocolEvent
  response_sent : ℕ → ProtocolEvent
  session_closed : ProtocolEvent

-- `Display` of `ProtocolStateError` and of `CodecError`.
unfoldable pub error_text : ProtocolStateError → Text
error_text (unexpected_message id) = codes "unexpected message 0x" ++ hex04 id
error_text (invalid_direction id) = codes "invalid direction for message 0x" ++ hex04 id
error_text (invalid_state text) = codes "invalid state " ++ text
error_text (invalid_message text) = codes "invalid message: " ++ text
error_text crypto_not_established = codes "crypto not established"
error_text handshake_incomplete = codes "handshake incomplete"
error_text already_closed = codes "already closed"
error_text (invalid_transition text) = codes "invalid transition: " ++ text

unfoldable pub codec_error_text : CodecError → Text
codec_error_text (invalid_payload_length text) = codes "invalid payload length: " ++ text
codec_error_text (invalid_field_length text) = codes "invalid field length: " ++ text
codec_error_text (invalid_record_length text) = codes "invalid record_len: " ++ text
codec_error_text (unexpected_message_id id) = codes "unexpected message id 0x" ++ hex04 id
codec_error_text (malformed_message text) = codes "malformed message: " ++ text
codec_error_text (unsupported_message id) = codes "unsupported message 0x" ++ hex04 id
