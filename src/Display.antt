-- ===== src/Display.antt =====
-- The texts of the errors: `Display` of the error types of network/src/framing.rs,
-- network/src/stream_framing.rs, network/src/bap_session.rs and network/src/crypto/session_context.rs.
use destiny1_pc_project.Prelude.{◌++◌, Text, codes, hex02, decimal}
use destiny1_pc_project.Framing
use destiny1_pc_project.Framing.{FramingError}
use destiny1_pc_project.Stream.{StreamFramingError, default_max_body_len}
use destiny1_pc_project.Context.{SessionContextError}
use destiny1_pc_project.Session.{BapSessionError}

unfoldable pub framing_text : FramingError → Text
framing_text FramingError.truncated_header = codes "buffer too short for BAP header"
framing_text (FramingError.bad_magic m) = codes "expected BAP magic 0x01, found 0x" ++ hex02 m
framing_text FramingError.truncated_body = codes "buffer too short for declared body length"
framing_text FramingError.truncated_clear_body =
    codes "clear body shorter than msg_id+context (need "
    ++ (decimal Framing.clear_header_len ++ codes " bytes)")
framing_text FramingError.truncated_encrypted_tag = codes "encrypted body shorter than 16-byte tag"
framing_text FramingError.length_overflow = codes "body length overflow"

unfoldable pub stream_text : StreamFramingError → Text
stream_text (StreamFramingError.invalid_magic m) =
    codes "expected BAP magic 0x01, found 0x" ++ hex02 m
stream_text (StreamFramingError.invalid_kind k) =
    codes "unsupported BAP kind 0x"
    ++ (hex02 k ++ codes " (only 1 and 2 accepted by stream decoder)")
stream_text (StreamFramingError.frame_too_large n) =
    codes "body_len " ++ (decimal n ++ (codes " exceeds max " ++ decimal default_max_body_len))
stream_text (StreamFramingError.incomplete_at_end n) =
    codes "stream ended with " ++ (decimal n ++ codes " buffered byte(s); frame incomplete")

unfoldable pub context_text : SessionContextError → Text
context_text (SessionContextError.bad_key_length n) =
    codes "session key must be 16 bytes, got " ++ decimal n
context_text (SessionContextError.bad_nonce_length n) =
    codes "session nonce must be 12 bytes, got " ++ decimal n

unfoldable pub session_text : BapSessionError → Text
unfolding framing_text context_text
session_text (BapSessionError.framing e) = codes "framing: " ++ framing_text e
session_text (BapSessionError.session e) = codes "session crypto: " ++ context_text e
session_text BapSessionError.decrypt_failed = codes "AES-GCM decrypt failed"
session_text BapSessionError.encrypt_failed = codes "AES-GCM encrypt failed"
session_text BapSessionError.empty_ciphertext = codes "encrypted frame has empty ciphertext"
session_text BapSessionError.trailing_bytes = codes "unexpected trailing bytes after complete frame"
