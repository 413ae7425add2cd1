-- ===== src/GcmFirstFrame.antt =====
-- network/src/gcm_first_frame.rs: the check of one encrypted frame with its key and nonce.
use destiny1_pc_project.Prelude.{
  ℕ, Bool, true, false, ◌&&◌, Option, none, some, List, ◌==◌, length, Text, codes, Result, ok, err,
  ◌>>=◌, ok_or,
}
use destiny1_pc_project.Aead.{AesGcm, CryptoError, key_len, nonce_len, tag_len, decrypt_aes_gcm}
use destiny1_pc_project.GcmFields.{decode_hex, decode_aad, decode_sized}

pub data FirstFrameError : Type 0 where
  file_not_found : Text → FirstFrameError
  io bad_json : FirstFrameError
  bad_hex : Text → ℕ → FirstFrameError
  bad_field_len : Text → ℕ → ℕ → FirstFrameError
  empty_field : Text → FirstFrameError
  crypto : CryptoError → FirstFrameError

pub record FirstFrameFile : Type 0 where
  pub session_key_hex : Text
  pub nonce_hex : Text
  pub tag_hex : Text
  pub ciphertext_hex : Text
  pub aad_hex : Text
  pub expected_plaintext_len : ℕ

pub record FirstFrameReport : Type 0 where
  pub key_length : ℕ
  pub nonce_length : ℕ
  pub ciphertext_length : ℕ
  pub tag_length : ℕ
  pub aad_length : ℕ
  pub decrypt_ok : Bool
  pub plaintext_length : Option ℕ
  pub expected_plaintext_length : ℕ
  pub plaintext_length_matches_expected : Bool

unfoldable pub is_verified : FirstFrameReport → Bool
is_verified r = r.decrypt_ok && r.plaintext_length_matches_expected

-- The `match` on the decryption.
unfoldable pub opened :
    ℕ → FirstFrameReport → Result CryptoError (List ℕ) → Result FirstFrameError FirstFrameReport
opened expected report (ok plaintext) = ok (record report {
  decrypt_ok = true;
  plaintext_length = some (length plaintext);
  plaintext_length_matches_expected = length plaintext == expected;
})
opened expected report (err CryptoError.decrypt_failed) = ok (record report { decrypt_ok = false })
opened expected report (err e) = err (crypto e)

module _ (cipher : AesGcm) where
  unfoldable pub verify_file : FirstFrameFile → Result FirstFrameError FirstFrameReport
  unfolding opened decode_sized decode_hex decode_aad
  verify_file file = do
    key ←
        decode_sized bad_hex empty_field bad_field_len (codes "session_key_hex") key_len
          file.session_key_hex
    nonce ←
        decode_sized bad_hex empty_field bad_field_len (codes "nonce_hex") nonce_len file.nonce_hex
    tag ← decode_sized bad_hex empty_field bad_field_len (codes "tag_hex") tag_len file.tag_hex
    ciphertext ← decode_hex bad_hex empty_field (codes "ciphertext_hex") file.ciphertext_hex
    aad ← decode_aad bad_hex empty_field file.aad_hex
    opened file.expected_plaintext_len
        (record {
          key_length = length key;
          nonce_length = length nonce;
          ciphertext_length = length ciphertext;
          tag_length = length tag;
          aad_length = length aad;
          decrypt_ok = false;
          plaintext_length = none;
          expected_plaintext_length = file.expected_plaintext_len;
          plaintext_length_matches_expected = false;
        })
        (decrypt_aes_gcm cipher key nonce ciphertext tag aad)

  -- serde_json's reading of the file.
  unfoldable pub verify_from_json_str :
      (Text → Option FirstFrameFile) → Text → Result FirstFrameError FirstFrameReport
  unfolding verify_file
  verify_from_json_str from_str text = ok_or (from_str text) bad_json >>= λ file. verify_file file
