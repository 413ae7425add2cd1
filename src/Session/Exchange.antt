-- ===== src/Session/Exchange.antt =====
-- Two ends of a session: `encode_encrypted` at one, `decode_frame` at the other.
use destiny1_pc_project.Prelude.{
  ℕ, suc, ◌+◌, ◌<◌, ◌≡◌, ap, some, List, [], arith, length, IsU16, IsU32, from_be-to_be16,
  from_be-to_be32, append-nil, Result-cases, inl, inr, ok, err, returns,
}
use destiny1_pc_project.Nonce.{NonceDirection, nonce_after_increments}
use destiny1_pc_project.Nonce.Value.{IsNonce, IsNonce-after}
use destiny1_pc_project.Nonce.Start.{base, base-IsNonce}
use destiny1_pc_project.Context.{next_nonce}
use destiny1_pc_project.Context.Track.{
  Drawn, count_of, count_one, nonce_at, Tracks, next_nonce-Tracks,
}
use destiny1_pc_project.Aead.{
  CryptoError, AesGcm, IsAead, AesGcmBlob, key_len, encrypt_aes_gcm, decrypt_aes_gcm,
}
use destiny1_pc_project.Aead.Laws.{encrypt_shape, encrypt_ok, decrypt-encrypt}
use destiny1_pc_project.Framing.{u32_limit, BapFrame, encrypted_frame, clear_frame}
use destiny1_pc_project.Framing.RoundTrip.{FitsWire, wire, serialize_ok, parse-serialize}
use destiny1_pc_project.Session.{
  BapSession, clear, encrypt_failed, decrypted, clear_raw, encrypted_raw, encode_clear,
  decode_plaintext, decoded, framed, plaintext_of, encode_encrypted, decode_encrypted,
  decode_parsed, decode_frame,
}

-- The layout inside the plaintext is read back.
decode_plaintext_of :
    (id ctx : ℕ) (payload : List ℕ)
    → IsU16 id
    → IsU32 ctx
    → decode_plaintext (plaintext_of id ctx payload)
      ≡ decrypted (some id) (some ctx) payload (6 + length payload)
unfolding decode_plaintext plaintext_of
decode_plaintext_of id ctx payload hi hc = ground (arith, from_be-to_be16 id, from_be-to_be32 ctx)

-- The wire bytes of a clear message.
unfoldable pub clear_wire : ℕ → ℕ → List ℕ → List ℕ
clear_wire id ctx payload = wire (clear_frame id ctx payload)

-- A clear message that fits the wire is encoded without a session, and decoded to itself by any
-- session, which stays as it was.
pub decode-encode_clear :
    (cipher : AesGcm) (s : BapSession) (d : NonceDirection) (id ctx : ℕ) (payload : List ℕ)
    → IsU16 id
    → IsU32 ctx
    → 6 + length payload < u32_limit
    → (encode_clear id ctx payload ≡ returns (clear_wire id ctx payload))
      × (decode_frame cipher s d (clear_wire id ctx payload) ≡ (s, ok (clear id ctx payload)))
unfolding encode_clear clear_raw clear_wire decode_frame decode_parsed clear_frame
decode-encode_clear cipher s d id ctx payload hi hc fits =
    let fits_wire : FitsWire (clear_frame id ctx payload) = (hi, hc, fits) in
    let written = serialize_ok (clear_frame id ctx payload) fits_wire in
    ground (
      arith,
      written,
      append-nil (wire (clear_frame id ctx payload)),
      parse-serialize (clear_frame id ctx payload) [] (wire (clear_frame id ctx payload)) fits_wire
          written,
    )

-- The frame that a blob makes.
abbrev pub frame_of : AesGcmBlob → BapFrame
frame_of blob = encrypted_frame blob.tag blob.ciphertext

pub frame_of-FitsWire :
    (blob : AesGcmBlob)
    → length blob.tag ≡ 16
    → 16 + length blob.ciphertext < u32_limit
    → FitsWire (frame_of blob)
unfolding encrypted_frame
frame_of-FitsWire blob ht hc = (ht, hc)

framed_ok :
    (s : BapSession) (blob : AesGcmBlob)
    → length blob.tag ≡ 16
    → 16 + length blob.ciphertext < u32_limit
    → framed s (ok blob) ≡ returns (s, ok (wire (frame_of blob)))
unfolding framed encrypted_raw
framed_ok s blob ht hc = ground (arith, serialize_ok (frame_of blob) (frame_of-FitsWire blob ht hc))

module _ (cipher : AesGcm) where
  decode_frame_of :
      (r : BapSession) (d : NonceDirection) (blob : AesGcmBlob)
      → length blob.tag ≡ 16
      → 16 + length blob.ciphertext < u32_limit
      → 0 < length blob.ciphertext
      → decode_frame cipher r d (wire (frame_of blob)) ≡ (
        record { crypto = (next_nonce r.crypto d).0 },
        decoded (
            decrypt_aes_gcm cipher
              (next_nonce r.crypto d).0.session_key
              (next_nonce r.crypto d).1
              blob.ciphertext
              blob.tag
              []),
      )
  unfolding decode_frame decode_parsed decode_encrypted encrypted_frame
  decode_frame_of r d blob ht hc some_bytes =
      let fits = frame_of-FitsWire blob ht hc in
      ground (
        arith,
        append-nil (wire (frame_of blob)),
        parse-serialize (frame_of blob) [] (wire (frame_of blob)) fits
            (serialize_ok (frame_of blob) fits),
      )

-- Two ends of a session: the same key and session nonce, and the same count of the frames of
-- direction `d`; the counts of the other direction need not agree.
pub record InStep (key n : List ℕ) (t u : Drawn) (d : NonceDirection) (sender receiver : BapSession)
    : Type 0 where
  pub sends : Tracks key n t sender.crypto
  pub receives : Tracks key n u receiver.crypto
  pub same_count : count_of t d ≡ count_of u d

abbrev pub advance : BapSession → NonceDirection → BapSession
advance s d = record { crypto = (next_nonce s.crypto d).0 }

count_one_same :
    (t u : Drawn) (d : NonceDirection)
    → count_of t d ≡ count_of u d
    → count_of (count_one t d) d ≡ count_of (count_one u d) d
count_one_same t u NonceDirection.client_to_server h = ap suc h
count_one_same t u NonceDirection.server_to_client h = ap suc h

pub InStep-advance :
    (key n : List ℕ) (t u : Drawn) (d : NonceDirection) (s r : BapSession)
    → InStep key n t u d s r
    → InStep key n (count_one t d) (count_one u d) d (advance s d) (advance r d)
InStep-advance key n t u d s r h = record {
  sends = (next_nonce-Tracks key n t s.crypto d h.sends).0;
  receives = (next_nonce-Tracks key n u r.crypto d h.receives).0;
  same_count = count_one_same t u d h.same_count;
}

nonce_at_same :
    (n : List ℕ) (t u : Drawn) (d : NonceDirection)
    → count_of t d ≡ count_of u d
    → nonce_at n t d ≡ nonce_at n u d
nonce_at_same n t u d h = ap (λ k. nonce_after_increments (base n d) k) h

pub nonce_at-length :
    (n : List ℕ) (t : Drawn) (d : NonceDirection) → IsNonce n → length (nonce_at n t d) ≡ 12
nonce_at-length n t d h = (IsNonce-after (base n d) (count_of t d) (base-IsNonce n d h)).size

pub length-plaintext_of :
    (id ctx : ℕ) (payload : List ℕ) → length (plaintext_of id ctx payload) ≡ 6 + length payload
unfolding plaintext_of
length-plaintext_of id ctx payload = omega arith

module _ (cipher : AesGcm) (laws : IsAead cipher) where
  -- The sender's end: a message that the cipher seals is returned as a frame.
  pub encoded :
      (key n : List ℕ) (t : Drawn) (d : NonceDirection) (s : BapSession) (id ctx : ℕ)
      (payload : List ℕ) (blob : AesGcmBlob)
      → Tracks key n t s.crypto
      → 22 + length payload < u32_limit
      → encrypt_aes_gcm cipher key (nonce_at n t d) (plaintext_of id ctx payload) [] ≡ ok blob
      → encode_encrypted cipher s d id ctx payload
        ≡ returns (advance s d, ok (wire (frame_of blob)))
  unfolding encode_encrypted
  encoded key n t d s id ctx payload blob tracks fits e =
      let (ht, hc, _, _, _) =
        encrypt_shape cipher laws key (nonce_at n t d) (plaintext_of id ctx payload) [] blob e in
      ground (
        arith,
        next_nonce-Tracks key n t s.crypto d tracks,
        length-plaintext_of id ctx payload,
        framed_ok (advance s d) blob,
      )

  encode_failed :
      (key n : List ℕ) (t : Drawn) (d : NonceDirection) (s : BapSession) (id ctx : ℕ)
      (payload : List ℕ) (x : CryptoError)
      → Tracks key n t s.crypto
      → encrypt_aes_gcm cipher key (nonce_at n t d) (plaintext_of id ctx payload) [] ≡ err x
      → encode_encrypted cipher s d id ctx payload ≡ returns (advance s d, err encrypt_failed)
  unfolding encode_encrypted framed
  encode_failed key n t d s id ctx payload x tracks e =
      ground (arith, next_nonce-Tracks key n t s.crypto d tracks)

  -- A frame that was returned is that of a sealed blob.
  pub encode_inv :
      (key n : List ℕ) (t : Drawn) (d : NonceDirection) (s s' : BapSession) (id ctx : ℕ)
      (payload bytes : List ℕ)
      → Tracks key n t s.crypto
      → 22 + length payload < u32_limit
      → encode_encrypted cipher s d id ctx payload ≡ returns (s', ok bytes)
      → (blob : AesGcmBlob) × (encrypt_aes_gcm cipher key
            (nonce_at n t d)
            (plaintext_of id ctx payload)
            []
          ≡ ok blob)
        × (s' ≡ advance s d)
        × (bytes ≡ wire (frame_of blob))
  encode_inv key n t d s s' id ctx payload bytes tracks fits h =
      elim (Result-cases
        (encrypt_aes_gcm cipher key (nonce_at n t d) (plaintext_of id ctx payload) [])) [
          | inl (blob, e) ↦
              let sent = encoded key n t d s id ctx payload blob tracks fits e in
              (blob, e, ground (arith, sent), ground (arith, sent))
          | inr (x, e) ↦
              absurd (ground (arith, encode_failed key n t d s id ctx payload x tracks e))
        ]

  -- The receiver's end: the same nonce opens the frame.
  pub received :
      (key n : List ℕ) (u : Drawn) (d : NonceDirection) (r : BapSession) (id ctx : ℕ)
      (payload : List ℕ) (blob : AesGcmBlob)
      → Tracks key n u r.crypto
      → 22 + length payload < u32_limit
      → IsU16 id
      → IsU32 ctx
      → encrypt_aes_gcm cipher key (nonce_at n u d) (plaintext_of id ctx payload) [] ≡ ok blob
      → decode_frame cipher r d (wire (frame_of blob))
        ≡ (advance r d, ok (decrypted (some id) (some ctx) payload (6 + length payload)))
  unfolding decoded
  received key n u d r id ctx payload blob tracks fits hi hx e =
      let (ht, hc, _, _, _) =
        encrypt_shape cipher laws key (nonce_at n u d) (plaintext_of id ctx payload) [] blob e in
      ground (
        arith,
        next_nonce-Tracks key n u r.crypto d tracks,
        length-plaintext_of id ctx payload,
        decode_frame_of cipher r d blob,
        decrypt-encrypt cipher laws key (nonce_at n u d) (plaintext_of id ctx payload) [] blob e,
        decode_plaintext_of id ctx payload hi hx,
      )

  -- Two ends in step, with a key and nonce of the right lengths, and a cipher that keeps its laws: a
  -- message that fits the wire and that the cipher seals is sent as a frame, the other end decodes
  -- that frame to the same message, and both ends are in step for the next one.
  pub decode-encode_encrypted :
      (key n : List ℕ) (t u : Drawn) (d : NonceDirection) (s r : BapSession) (id ctx : ℕ)
      (payload sealed : List ℕ)
      → InStep key n t u d s r
      → length key ≡ key_len
      → IsNonce n
      → IsU16 id
      → IsU32 ctx
      → 22 + length payload < u32_limit
      → cipher.seal key (nonce_at n t d) [] (plaintext_of id ctx payload) ≡ some sealed
      → (bytes : List ℕ) × (encode_encrypted cipher s d id ctx payload
          ≡ returns (advance s d, ok bytes))
        × (decode_frame cipher r d bytes
            ≡ (advance r d, ok (decrypted (some id) (some ctx) payload (6 + length payload))))
        × InStep key n (count_one t d) (count_one u d) d (advance s d) (advance r d)
  decode-encode_encrypted key n t u d s r id ctx payload sealed step hk hn hi hx fits e =
      let (blob, enc) =
        encrypt_ok cipher key (nonce_at n t d) (plaintext_of id ctx payload) [] sealed laws hk
          (nonce_at-length n t d hn) e in
      let same = nonce_at_same n t u d step.same_count in
      (
        wire (frame_of blob),
        encoded key n t d s id ctx payload blob step.sends fits enc,
        received key n u d r id ctx payload blob step.receives fits hi hx (rw (← same) enc),
        InStep-advance key n t u d s r step,
      )
