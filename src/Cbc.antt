-- ===== src/Cbc.antt =====
-- network/src/crypto/cbc_hmac.rs: the session record, AES-128-CBC under an HMAC-SHA256 tag.
pub mod Padding
pub mod Verify
use destiny1_pc_project.Prelude.{
  ℕ, ◌+◌, ◌-◌, ◌%◌, ◌≡◌, Bool, true, false, not, ◌||◌, Option, none, some, List, [], ◌∷◌, ◌++◌, ltb,
  leb, ◌==◌, if◌then◌else◌, length, is_empty, drop, get_or, to_be32, Text, codes, Result, ok, err,
  ◌>>=◌, ◌>>◌, fail_if, ok_or,
}

abbrev pub aes128_key_len : ℕ
aes128_key_len = 16

abbrev pub iv_len : ℕ
iv_len = 16

abbrev pub hmac_sha256_len : ℕ
hmac_sha256_len = 32

abbrev pub session_nonce_len : ℕ
session_nonce_len = 12

abbrev pub session_key_len : ℕ
session_key_len = 16

abbrev pub min_session_plaintext : ℕ
min_session_plaintext = session_nonce_len + session_key_len

pub data CbcHmacError : Type 0 where
  bad_aes_key_length bad_iv_length bad_hmac_length : ℕ → CbcHmacError
  empty_hmac_key : CbcHmacError
  bad_ciphertext_length : ℕ → CbcHmacError
  decrypt_failed invalid_padding : CbcHmacError

pub data HmacMessageKind : Type 0 where
  length_iv_ciphertext : HmacMessageKind

-- The crates behind the file. `hmac` is `Hmac<Sha256>` on a key and a message, `encrypt` and `decrypt`
-- are `cbc` with `aes` on a key, an IV and a text: encryption pads by PKCS#7, decryption does not look
-- at the padding. `none` is the crates' error. `ct_eq` is the comparison of `subtle`.
pub record CbcHmac : Type 0 where
  pub hmac : List ℕ → List ℕ → Option (List ℕ)
  pub encrypt : List ℕ → List ℕ → List ℕ → Option (List ℕ)
  pub decrypt : List ℕ → List ℕ → List ℕ → Option (List ℕ)
  pub ct_eq : List ℕ → List ℕ → Bool

unfoldable pub build_hmac_message :
    HmacMessageKind → ℕ → List ℕ → List ℕ → Result CbcHmacError (List ℕ)
build_hmac_message length_iv_ciphertext record_len_be iv ciphertext = do
  fail_if (not (length iv == iv_len)) (bad_iv_length (length iv))
  ok (to_be32 record_len_be ++ (iv ++ ciphertext))

-- `iter().any(|&b| b as usize != pad)`.
unfoldable pub any_other : ℕ → List ℕ → Bool
any_other pad [] = false
any_other pad (b ∷ bs) = not (b == pad) || any_other pad bs

unfoldable pub validate_pkcs7 : List ℕ → Result CbcHmacError ℕ
validate_pkcs7 plaintext = do
  fail_if (is_empty plaintext) invalid_padding
  let pad = get_or plaintext (length plaintext - 1) 0
  fail_if (pad == 0 || (ltb 16 pad || ltb (length plaintext) pad)) invalid_padding
  fail_if (any_other pad (drop (length plaintext - pad) plaintext)) invalid_padding
  ok (length plaintext - pad)

pub record SessionRecordVerifyReport : Type 0 where
  pub hmac_message_kind : Text
  pub hmac_valid : Bool
  pub decrypt_ok : Bool
  pub plaintext_len : Option ℕ
  pub pkcs7_valid : Option Bool
  pub pkcs7_unpadded_len : Option ℕ
  pub nonce_region_len_ok : Bool
  pub session_key_region_len_ok : Bool
  pub candidate_nonce_offset : Option ℕ
  pub candidate_session_key_offset : Option ℕ
  pub structure_length_compatible : Bool

pub data VerifyClass : Type 0 where
  verified partial failed : VerifyClass

unfoldable pub is_some_true : Option Bool → Bool
is_some_true (some true) = true
is_some_true _ = false

unfoldable pub classification : SessionRecordVerifyReport → VerifyClass
unfolding is_some_true
classification report =
    if not report.hmac_valid
    then failed
    else if not report.decrypt_ok || not (is_some_true report.pkcs7_valid)
    then failed
    else if report.structure_length_compatible
    then verified
    else partial

unfoldable pub is_verified : VerifyClass → Bool
is_verified verified = true
is_verified partial = false
is_verified failed = false

unfoldable pub success : SessionRecordVerifyReport → Bool
unfolding is_verified
success report = is_verified (classification report)

-- The report before anything is decrypted.
unfoldable pub fresh_report : HmacMessageKind → Bool → SessionRecordVerifyReport
fresh_report length_iv_ciphertext hmac_valid = record {
  hmac_message_kind = codes "LengthIvCiphertext (d1-re hypothesis)";
  hmac_valid = hmac_valid;
  decrypt_ok = false;
  plaintext_len = none;
  pkcs7_valid = none;
  pkcs7_unpadded_len = none;
  nonce_region_len_ok = false;
  session_key_region_len_ok = false;
  candidate_nonce_offset = none;
  candidate_session_key_offset = none;
  structure_length_compatible = false;
}

-- The `match validate_pkcs7(..)`.
unfoldable pub note_padding :
    SessionRecordVerifyReport → Result CbcHmacError ℕ → SessionRecordVerifyReport
note_padding report (ok n) =
    let fits = leb min_session_plaintext n in
    record report {
      pkcs7_valid = some true;
      pkcs7_unpadded_len = some n;
      nonce_region_len_ok = leb session_nonce_len n;
      session_key_region_len_ok = fits;
      structure_length_compatible = fits;
      candidate_nonce_offset = if fits then some 0 else report.candidate_nonce_offset;
      candidate_session_key_offset =
          if fits then some session_nonce_len else report.candidate_session_key_offset;
    }
note_padding report (err e) = record report { pkcs7_valid = some false }

-- The `match decrypt_aes128_cbc_raw(..)`.
unfoldable pub note_plaintext :
    SessionRecordVerifyReport → Result CbcHmacError (List ℕ) → SessionRecordVerifyReport
unfolding note_padding
note_plaintext report (ok plaintext) =
    note_padding (record report { decrypt_ok = true; plaintext_len = some (length plaintext) })
      (validate_pkcs7 plaintext)
note_plaintext report (err e) = record report { decrypt_ok = false }

module _ (crates : CbcHmac) where
  unfoldable pub compute_hmac_sha256 : List ℕ → List ℕ → Result CbcHmacError (List ℕ)
  compute_hmac_sha256 hmac_key message = do
    fail_if (is_empty hmac_key) empty_hmac_key
    ok_or (crates.hmac hmac_key message) empty_hmac_key

  unfoldable pub verify_hmac_sha256 : List ℕ → List ℕ → List ℕ → Result CbcHmacError Bool
  verify_hmac_sha256 hmac_key message tag = do
    fail_if (is_empty hmac_key) empty_hmac_key
    fail_if (not (length tag == hmac_sha256_len)) (bad_hmac_length (length tag))
    computed ← ok_or (crates.hmac hmac_key message) empty_hmac_key
    ok (crates.ct_eq computed tag)

  unfoldable pub encrypt_aes128_cbc_pkcs7 : List ℕ → List ℕ → List ℕ → Result CbcHmacError (List ℕ)
  encrypt_aes128_cbc_pkcs7 aes_key iv plaintext = do
    fail_if (not (length aes_key == aes128_key_len)) (bad_aes_key_length (length aes_key))
    fail_if (not (length iv == iv_len)) (bad_iv_length (length iv))
    ok_or (crates.encrypt aes_key iv plaintext) decrypt_failed

  unfoldable pub decrypt_aes128_cbc_raw : List ℕ → List ℕ → List ℕ → Result CbcHmacError (List ℕ)
  decrypt_aes128_cbc_raw aes_key iv ciphertext = do
    fail_if (not (length aes_key == aes128_key_len)) (bad_aes_key_length (length aes_key))
    fail_if (not (length iv == iv_len)) (bad_iv_length (length iv))
    fail_if (is_empty ciphertext || not (length ciphertext % 16 == 0))
        (bad_ciphertext_length (length ciphertext))
    ok_or (crates.decrypt aes_key iv ciphertext) decrypt_failed

  -- An invalid tag ends the check before anything is decrypted.
  unfoldable pub checked_report :
      HmacMessageKind → Bool → List ℕ → List ℕ → List ℕ → SessionRecordVerifyReport
  unfolding fresh_report note_plaintext
  checked_report hmac_kind hmac_valid aes_key iv ciphertext =
      let report = fresh_report hmac_kind hmac_valid in
      if not hmac_valid
      then report
      else note_plaintext report (decrypt_aes128_cbc_raw aes_key iv ciphertext)

  unfoldable pub verify_session_record :
      HmacMessageKind
      → ℕ
      → List ℕ
      → List ℕ
      → List ℕ
      → List ℕ
      → List ℕ
      → Result CbcHmacError SessionRecordVerifyReport
  verify_session_record hmac_kind record_len_be iv ciphertext hmac_tag aes_key hmac_key = do
    message ← build_hmac_message hmac_kind record_len_be iv ciphertext
    hmac_valid ← verify_hmac_sha256 hmac_key message hmac_tag
    ok (checked_report hmac_kind hmac_valid aes_key iv ciphertext)
