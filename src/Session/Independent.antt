-- ===== src/Session/Independent.antt =====
-- The two directions of a session of network/src/bap_session.rs: what the client sends and what it reads do not touch
-- each other's nonces.
use destiny1_pc_project.Prelude.{
  ℕ, ◌≡◌, refl, ap, ◌∙◌, inl, inr, Bool-cases, List, [], arith, is_empty, length, ◌==◌, Result, ok,
  err, returns,
}
use destiny1_pc_project.Nonce.{NonceDirection}
use destiny1_pc_project.Context.{next_nonce}
use destiny1_pc_project.Aead.{AesGcm, AesGcmBlob, CryptoError, encrypt_aes_gcm}
use destiny1_pc_project.Framing.{BapFrame, FrameKind, FrameBody, FramingError, parse}
use destiny1_pc_project.Session.{
  BapSession, BapSessionError, DecodedBapFrame, decode_encrypted, decode_body, decode_parsed,
  decode_outcome, decode_frame, framed, plaintext_of, encode_encrypted,
}
use destiny1_pc_project.Session.Exchange.{advance}

-- A session that has sent one message more.
abbrev pub sent_one : BapSession → BapSession
sent_one s = advance s NonceDirection.client_to_server

-- What sending looks at: the key and the nonce of the client's direction.
abbrev pub sender_view : BapSession → List ℕ × List ℕ
sender_view s = (s.crypto.session_key, s.crypto.client_to_server_nonce)

sent_too :
    BapSession × Result BapSessionError DecodedBapFrame
    → BapSession × Result BapSessionError DecodedBapFrame
sent_too (s, r) = (sent_one s, r)

module _ (cipher : AesGcm) where
  decode_body-sent_one :
      (s : BapSession) (kind : FrameKind) (body : FrameBody)
      → decode_body cipher (sent_one s) NonceDirection.server_to_client kind body
        ≡ sent_too (decode_body cipher s NonceDirection.server_to_client kind body)
  unfolding decode_body decode_encrypted next_nonce sent_too
  decode_body-sent_one s kind (FrameBody.clear c) = refl
  decode_body-sent_one s kind (FrameBody.opaque b) = refl
  decode_body-sent_one s kind (FrameBody.encrypted e) = elim (Bool-cases (is_empty e.ciphertext)) [
    | inl y ↦ rw y refl
    | inr n ↦ rw n refl
  ]

  decode_outcome-sent_one :
      (s : BapSession) (size : ℕ) (r : Result FramingError (BapFrame × ℕ))
      → decode_outcome cipher (sent_one s) NonceDirection.server_to_client size r
        ≡ sent_too (decode_outcome cipher s NonceDirection.server_to_client size r)
  unfolding decode_outcome decode_parsed sent_too
  decode_outcome-sent_one s size (err e) = refl
  decode_outcome-sent_one s size (ok (frame, consumed)) = elim (Bool-cases (consumed == size)) [
    | inl y ↦ rw y (decode_body-sent_one s frame.kind frame.body)
    | inr n ↦ rw n refl
  ]

  -- Reading is the same before and behind a send.
  pub decode_frame-sent_one :
      (s : BapSession) (bytes : List ℕ)
      → decode_frame cipher (sent_one s) NonceDirection.server_to_client bytes ≡ (
        sent_one (decode_frame cipher s NonceDirection.server_to_client bytes).0,
        (decode_frame cipher s NonceDirection.server_to_client bytes).1,
      )
  unfolding decode_frame sent_too
  decode_frame-sent_one s bytes = decode_outcome-sent_one s (length bytes) (parse bytes)

  decode_body-sender_view :
      (s : BapSession) (kind : FrameKind) (body : FrameBody)
      → sender_view (decode_body cipher s NonceDirection.server_to_client kind body).0
        ≡ sender_view s
  unfolding decode_body decode_encrypted next_nonce
  decode_body-sender_view s kind (FrameBody.clear c) = refl
  decode_body-sender_view s kind (FrameBody.opaque b) = refl
  decode_body-sender_view s kind (FrameBody.encrypted e) =
      elim (Bool-cases (is_empty e.ciphertext)) [ inl y ↦ rw y refl | inr n ↦ rw n refl ]

  decode_outcome-sender_view :
      (s : BapSession) (size : ℕ) (r : Result FramingError (BapFrame × ℕ))
      → sender_view (decode_outcome cipher s NonceDirection.server_to_client size r).0
        ≡ sender_view s
  unfolding decode_outcome decode_parsed
  decode_outcome-sender_view s size (err e) = refl
  decode_outcome-sender_view s size (ok (frame, consumed)) = elim (Bool-cases (consumed == size)) [
    | inl y ↦ rw y (decode_body-sender_view s frame.kind frame.body)
    | inr n ↦ rw n refl
  ]

  pub decode_frame-sender_view :
      (s : BapSession) (bytes : List ℕ)
      → sender_view (decode_frame cipher s NonceDirection.server_to_client bytes).0 ≡ sender_view s
  unfolding decode_frame
  decode_frame-sender_view s bytes = decode_outcome-sender_view s (length bytes) (parse bytes)

  framed-alike :
      (s t u : BapSession) (r : Result CryptoError AesGcmBlob) (bytes : List ℕ)
      → framed s r ≡ returns (u, ok bytes)
      → framed t r ≡ returns (t, ok bytes)
  unfolding framed
  framed-alike s t u (err e) bytes h = absurd (ground (arith, h))
  framed-alike s t u (ok blob) bytes h = ground (arith, h)

  -- Sessions that look alike to the sender send the same bytes.
  pub encode_encrypted-alike :
      (s t u : BapSession) (id ctx : ℕ) (payload bytes : List ℕ)
      → sender_view t ≡ sender_view s
      → encode_encrypted cipher s NonceDirection.client_to_server id ctx payload
        ≡ returns (u, ok bytes)
      → encode_encrypted cipher t NonceDirection.client_to_server id ctx payload
        ≡ returns (sent_one t, ok bytes)
  unfolding encode_encrypted next_nonce
  encode_encrypted-alike s t u id ctx payload bytes same h =
      ap
        (λ (v : List ℕ × List ℕ).
          framed (sent_one t) (encrypt_aes_gcm cipher v.0 v.1 (plaintext_of id ctx payload) []))
        same
      ∙ framed-alike (sent_one s) (sent_one t) u
          (encrypt_aes_gcm cipher s.crypto.session_key s.crypto.client_to_server_nonce
            (plaintext_of id ctx payload) [])
          bytes h
