-- ===== src/Session.antt =====
-- network/src/bap_session.rs: frames decoded and encoded under the session's nonces.
pub mod Errors
pub mod Exchange
pub mod Independent
use destiny1_pc_project.Prelude.{
  ℕ, zero, suc, ◌+◌, ◌-◌, Bool, true, false, not, Option, none, some, List, [], ◌∷◌, ◌++◌, ltb,
  ◌==◌, if◌then◌else◌, length, is_empty, drop, slice, from_be, to_be16, to_be32, Result, ok, err,
  ◌>>=◌, ◌>>◌, fail_if, map_err, Call, returns, panics, expect,
}
use destiny1_pc_project.Nonce.{NonceDirection}
use destiny1_pc_project.Context
use destiny1_pc_project.Context.{SessionContextError, SessionCryptoContext, next_nonce}
use destiny1_pc_project.Aead.{AesGcm, AesGcmBlob, CryptoError, encrypt_aes_gcm, decrypt_aes_gcm}
use destiny1_pc_project.Framing.{
  FramingError, FrameKind, FrameBody, BapFrame, EncryptedBody, as_u8, parse, serialize, clear_frame,
  encrypted_frame,
}

pub data BapSessionError : Type 0 where
  framing : FramingError → BapSessionError
  session : SessionContextError → BapSessionError
  decrypt_failed encrypt_failed empty_ciphertext trailing_bytes : BapSessionError

pub data DecodedBapFrame : Type 0 where
  -- msg_id, context, payload
  clear : ℕ → ℕ → List ℕ → DecodedBapFrame
  -- msg_id, context, payload, plaintext_len
  decrypted : Option ℕ → Option ℕ → List ℕ → ℕ → DecodedBapFrame
  -- kind, body_len
  opaque : ℕ → ℕ → DecodedBapFrame

unfoldable pub is_clear : DecodedBapFrame → Bool
is_clear (clear id ctx payload) = true
is_clear (decrypted id ctx payload n) = false
is_clear (opaque kind n) = false

unfoldable pub is_decrypted : DecodedBapFrame → Bool
is_decrypted (clear id ctx payload) = false
is_decrypted (decrypted id ctx payload n) = true
is_decrypted (opaque kind n) = false

unfoldable pub plaintext_len : DecodedBapFrame → Option ℕ
plaintext_len (clear id ctx payload) = some (6 + length payload)
plaintext_len (decrypted id ctx payload n) = some n
plaintext_len (opaque kind n) = none

pub record BapSession : Type 0 where
  pub crypto : SessionCryptoContext

unfoldable pub new : List ℕ → List ℕ → Result BapSessionError BapSession
new session_key session_nonce = do
  crypto ← map_err session (Context.new session_key session_nonce)
  ok (record { crypto = crypto })

-- `serialize().expect(..)` panics where the body does not fit the length field.
unfoldable pub clear_raw : ℕ → ℕ → List ℕ → Call (List ℕ)
clear_raw msg_id context payload = expect (serialize (clear_frame msg_id context payload))

unfoldable pub encrypted_raw : List ℕ → List ℕ → Call (List ℕ)
encrypted_raw tag ciphertext = expect (serialize (encrypted_frame tag ciphertext))

unfoldable pub encode_clear : ℕ → ℕ → List ℕ → Call (List ℕ)
encode_clear msg_id context payload = clear_raw msg_id context payload

unfoldable pub decode_plaintext : List ℕ → DecodedBapFrame
decode_plaintext plaintext =
    if ltb (length plaintext) 6
    then decrypted none none plaintext (length plaintext)
    else decrypted (some (from_be (slice plaintext 0 2))) (some (from_be (slice plaintext 2 6)))
        (drop 6 plaintext) (length plaintext)

-- Every error of the primitive becomes `DecryptFailed`.
unfoldable pub decoded : Result CryptoError (List ℕ) → Result BapSessionError DecodedBapFrame
decoded (ok plaintext) = ok (decode_plaintext plaintext)
decoded (err e) = err decrypt_failed

-- A sealed blob as a frame; the body of `encode_encrypted` behind the call of the primitive.
unfoldable pub framed :
    BapSession → Result CryptoError AesGcmBlob → Call (BapSession × Result BapSessionError (List ℕ))
framed s (err e) = returns (s, err encrypt_failed)
framed s (ok blob) = elim (encrypted_raw blob.tag blob.ciphertext) [
  | returns bytes ↦ returns (s, ok bytes)
  | panics ↦ panics
]

unfoldable pub plaintext_of : ℕ → ℕ → List ℕ → List ℕ
plaintext_of msg_id context payload = to_be16 msg_id ++ (to_be32 context ++ payload)

module _ (cipher : AesGcm) where
  unfoldable pub encode_encrypted :
      BapSession
      → NonceDirection
      → ℕ
      → ℕ
      → List ℕ
      → Call (BapSession × Result BapSessionError (List ℕ))
  encode_encrypted s direction msg_id context payload =
      let (crypto', nonce) = next_nonce s.crypto direction in
      framed (record { crypto = crypto' })
        (encrypt_aes_gcm cipher crypto'.session_key nonce (plaintext_of msg_id context payload) [])

  -- An empty ciphertext is refused before a nonce is drawn; every other frame draws one, whether it
  -- decrypts or not.
  unfoldable pub decode_encrypted :
      BapSession
      → NonceDirection
      → EncryptedBody
      → BapSession × Result BapSessionError DecodedBapFrame
  decode_encrypted s direction enc =
      let (crypto', nonce) = next_nonce s.crypto direction in
      if is_empty enc.ciphertext then (s, err empty_ciphertext) else (
        record { crypto = crypto' },
        decoded (decrypt_aes_gcm cipher crypto'.session_key nonce enc.ciphertext enc.tag []),
      )

  -- The `match frame.body` of `decode_parsed`.
  unfoldable pub decode_body :
      BapSession
      → NonceDirection
      → FrameKind
      → FrameBody
      → BapSession × Result BapSessionError DecodedBapFrame
  decode_body s direction kind (FrameBody.clear c) = (s, ok (clear c.msg_id c.context c.payload))
  decode_body s direction kind (FrameBody.encrypted enc) = decode_encrypted s direction enc
  decode_body s direction kind (FrameBody.opaque body) = (s, ok (opaque (as_u8 kind) (length body)))

  unfoldable pub decode_parsed :
      BapSession → NonceDirection → BapFrame → BapSession × Result BapSessionError DecodedBapFrame
  unfolding decode_body
  decode_parsed s direction frame = decode_body s direction frame.kind frame.body

  -- What `decode_frame` does with the outcome of the parser.
  unfoldable pub decode_outcome :
      BapSession
      → NonceDirection
      → ℕ
      → Result FramingError (BapFrame × ℕ)
      → BapSession × Result BapSessionError DecodedBapFrame
  decode_outcome s direction size (err e) = (s, err (framing e))
  decode_outcome s direction size (ok (frame, consumed)) =
      if not (consumed == size) then (s, err trailing_bytes) else decode_parsed s direction frame

  unfoldable pub decode_frame :
      BapSession → NonceDirection → List ℕ → BapSession × Result BapSessionError DecodedBapFrame
  unfolding decode_outcome
  decode_frame s direction raw_frame =
      decode_outcome s direction (length raw_frame) (parse raw_frame)
