-- ===== src/Aead.antt =====
-- network/src/crypto/aead.rs: AES-128-GCM with the tag split off the ciphertext.
pub mod Laws
use destiny1_pc_project.Prelude.{
  ℕ, ◌+◌, ◌-◌, ◌≡◌, Bool, true, false, not, Option, none, some, List, [], ◌∷◌, ◌++◌, ltb, ◌==◌,
  if◌then◌else◌, length, take, drop, All, IsByte, Result, ok, err, ◌>>=◌, ◌>>◌, fail_if, ok_or,
}

abbrev pub key_len : ℕ
key_len = 16

abbrev pub nonce_len : ℕ
nonce_len = 12

abbrev pub tag_len : ℕ
tag_len = 16

pub data CryptoError : Type 0 where
  bad_key_length : ℕ → CryptoError
  bad_nonce_length : ℕ → CryptoError
  bad_tag_length : ℕ → CryptoError
  decrypt_failed : CryptoError
  encrypt_failed : CryptoError

-- The `aes-gcm` crate: `Aes128Gcm::encrypt` and `decrypt` on a key, a nonce, the associated data and
-- a message. `none` is the crate's error.
pub record AesGcm : Type 0 where
  pub seal : List ℕ → List ℕ → List ℕ → List ℕ → Option (List ℕ)
  pub unseal : List ℕ → List ℕ → List ℕ → List ℕ → Option (List ℕ)

-- What the crate documents: a sealed message is the ciphertext, as long as the message, and behind
-- it a tag of 16 bytes; and the key, nonce and data that sealed it open it.
pub record IsAead (cipher : AesGcm) : Type 0 where
  pub length-seal :
      (key nonce aad msg sealed : List ℕ)
      → cipher.seal key nonce aad msg ≡ some sealed
      → length sealed ≡ length msg + tag_len
  pub unseal-seal :
      (key nonce aad msg sealed : List ℕ)
      → cipher.seal key nonce aad msg ≡ some sealed
      → cipher.unseal key nonce aad sealed ≡ some msg

pub record AesGcmBlob : Type 0 where
  pub tag : List ℕ
  pub ciphertext : List ℕ

unfoldable pub to_body_bytes : AesGcmBlob → List ℕ
to_body_bytes blob = blob.tag ++ blob.ciphertext

unfoldable pub from_body_bytes : List ℕ → Result CryptoError AesGcmBlob
from_body_bytes body = do
  fail_if (ltb (length body) tag_len) (bad_tag_length (length body))
  ok (record { tag = take tag_len body; ciphertext = drop tag_len body })

unfoldable pub check_key : List ℕ → Result CryptoError (Unit {0})
check_key key = fail_if (not (length key == key_len)) (bad_key_length (length key))

module _ (cipher : AesGcm) where
  unfoldable pub encrypt_aes_gcm : List ℕ → List ℕ → List ℕ → List ℕ → Result CryptoError AesGcmBlob
  unfolding check_key
  encrypt_aes_gcm key nonce plaintext aad = do
    check_key key
    fail_if (not (length nonce == nonce_len)) (bad_nonce_length (length nonce))
    sealed ← ok_or (cipher.seal key nonce aad plaintext) encrypt_failed
    fail_if (ltb (length sealed) tag_len) encrypt_failed
    let split = length sealed - tag_len
    ok (record { tag = drop split sealed; ciphertext = take split sealed })

  unfoldable pub decrypt_aes_gcm :
      List ℕ → List ℕ → List ℕ → List ℕ → List ℕ → Result CryptoError (List ℕ)
  unfolding check_key
  decrypt_aes_gcm key nonce ciphertext tag aad = do
    fail_if (not (length tag == tag_len)) (bad_tag_length (length tag))
    check_key key
    fail_if (not (length nonce == nonce_len)) (bad_nonce_length (length nonce))
    ok_or (cipher.unseal key nonce aad (ciphertext ++ tag)) decrypt_failed
