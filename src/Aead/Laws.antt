-- ===== src/Aead/Laws.antt =====
-- `encrypt_aes_gcm`, `decrypt_aes_gcm` and the body layout of network/src/crypto/aead.rs, together.
use destiny1_pc_project.Prelude.{
  ℕ, ◌-◌, ◌≡◌, inl, inr, some, Option-cases, List, ◌++◌, arith, length, take, drop, length-take,
  length-drop, length-append, take-append-drop, take-append_length, drop-append_length, ok,
}
use destiny1_pc_project.Aead.{
  AesGcm, IsAead, AesGcmBlob, key_len, nonce_len, tag_len, to_body_bytes, from_body_bytes,
  encrypt_aes_gcm, decrypt_aes_gcm,
}

-- A blob whose tag has 16 bytes is read back from its body layout.
pub from_body_bytes-to_body_bytes :
    (blob : AesGcmBlob) → length blob.tag ≡ tag_len → from_body_bytes (to_body_bytes blob) ≡ ok blob
unfolding from_body_bytes to_body_bytes
from_body_bytes-to_body_bytes blob h = ground (
  arith,
  length-append blob.tag blob.ciphertext,
  take-append_length tag_len blob.tag blob.ciphertext,
  drop-append_length tag_len blob.tag blob.ciphertext,
)

module _ (cipher : AesGcm) (laws : IsAead cipher) where
  -- What `encrypt_aes_gcm` returns: a tag of 16 bytes, a ciphertext as long as the plaintext, and
  -- the sealed message when they are joined again.
  pub encrypt_shape :
      (key nonce plaintext aad : List ℕ) (blob : AesGcmBlob)
      → encrypt_aes_gcm cipher key nonce plaintext aad ≡ ok blob
      → (length blob.tag ≡ tag_len)
        × (length blob.ciphertext ≡ length plaintext)
        × (length key ≡ key_len)
        × (length nonce ≡ nonce_len)
        × (cipher.seal key nonce aad plaintext ≡ some (blob.ciphertext ++ blob.tag))
  unfolding encrypt_aes_gcm
  encrypt_shape key nonce plaintext aad blob h =
      elim (Option-cases (cipher.seal key nonce aad plaintext)) [
        | inl nothing ↦ absurd (ground arith)
        | inr (sealed, e) ↦ ground (
          arith,
          laws.length-seal key nonce aad plaintext sealed e,
          length-take (length sealed - tag_len) sealed,
          length-drop (length sealed - tag_len) sealed,
          take-append-drop (length sealed - tag_len) sealed,
        )
      ]

  -- What was encrypted decrypts, under the same key, nonce and associated data, to the plaintext.
  pub decrypt-encrypt :
      (key nonce plaintext aad : List ℕ) (blob : AesGcmBlob)
      → encrypt_aes_gcm cipher key nonce plaintext aad ≡ ok blob
      → decrypt_aes_gcm cipher key nonce blob.ciphertext blob.tag aad ≡ ok plaintext
  unfolding decrypt_aes_gcm
  decrypt-encrypt key nonce plaintext aad blob h =
      let (t, c, k, n, s) = encrypt_shape key nonce plaintext aad blob h in
      ground (arith, laws.unseal-seal key nonce aad plaintext (blob.ciphertext ++ blob.tag) s)

-- With the lengths right and a message that the crate seals, `encrypt_aes_gcm` returns a blob.
pub encrypt_ok :
    (cipher : AesGcm) (key nonce plaintext aad sealed : List ℕ)
    → IsAead cipher
    → length key ≡ key_len
    → length nonce ≡ nonce_len
    → cipher.seal key nonce aad plaintext ≡ some sealed
    → (blob : AesGcmBlob) × (encrypt_aes_gcm cipher key nonce plaintext aad ≡ ok blob)
unfolding encrypt_aes_gcm
encrypt_ok cipher key nonce plaintext aad sealed laws hk hn e = (
  record {
    tag = drop (length sealed - tag_len) sealed;
    ciphertext = take (length sealed - tag_len) sealed;
  },
  ground (arith, laws.length-seal key nonce aad plaintext sealed e),
)
