-- ===== src/Cbc/Verify.antt =====
-- The verification of a session record, with what the crates behind it document.
use destiny1_pc_project.Prelude.{
  ℕ, ◌+◌, ◌-◌, ◌%◌, ◌≤◌, ◌<◌, ◌≡◌, refl, sym, ◌∙◌, ap, inl, inr, Bool, true, false, some, List, [],
  ◌∷◌, ◌++◌, arith, leb, Option-cases, length, is_empty, take, to_be32, Result, ok, Result-cases,
  ◌>>=◌, if◌then◌else◌,
}
use destiny1_pc_project.Cbc.{
  CbcHmac, CbcHmacError, length_iv_ciphertext, SessionRecordVerifyReport, verified, partial,
  build_hmac_message, validate_pkcs7, classification, success, is_verified, is_some_true,
  fresh_report, note_padding, note_plaintext, compute_hmac_sha256, verify_hmac_sha256,
  encrypt_aes128_cbc_pkcs7, decrypt_aes128_cbc_raw, checked_report, verify_session_record,
  min_session_plaintext,
}
use destiny1_pc_project.Cbc.Padding.{
  padded, length-padded, validate_pkcs7-padded, padded_of_validate_pkcs7,
}

-- PKCS#7 for blocks of 16 bytes: at least one byte, up to the next multiple of 16.
abbrev pub pad_len : List ℕ → ℕ
pad_len text = 16 - length text % 16

-- `Hmac<Sha256>` takes any key that is not empty and gives 32 bytes; `ct_eq` compares; `cbc` encrypts
-- under a key and an IV of 16 bytes, one block for each block of the padded text, and decrypts to it.
pub record IsCbcHmac (crates : CbcHmac) : Type 0 where
  pub hmac_total :
      (key message : List ℕ)
      → 0 < length key
      → (tag : List ℕ) × (crates.hmac key message ≡ some tag) × (length tag ≡ 32)
  pub ct_eq_refl : (a : List ℕ) → crates.ct_eq a a ≡ true
  pub eq_of_ct_eq : (a b : List ℕ) → crates.ct_eq a b ≡ true → a ≡ b
  pub encrypt_decrypts :
      (key iv text : List ℕ)
      → length key ≡ 16
      → length iv ≡ 16
      → (ciphertext : List ℕ) × (crates.encrypt key iv text ≡ some ciphertext)
        × (length ciphertext ≡ length text + pad_len text)
        × (crates.decrypt key iv ciphertext ≡ some (padded text (pad_len text)))

is_empty_of_length : (xs : List ℕ) → 0 < length xs → is_empty xs ≡ false
is_empty_of_length [] h = absurd (omega arith)
is_empty_of_length (x ∷ xs) h = refl

-- The report on a record that was built from a plaintext of `n` bytes, padded to `total` bytes.
unfoldable pub genuine_report : ℕ → ℕ → SessionRecordVerifyReport
unfolding fresh_report note_padding
genuine_report n total =
    note_padding
      (record (fresh_report length_iv_ciphertext true) {
        decrypt_ok = true;
        plaintext_len = some total;
      })
      (ok n)

-- A session record is built by encrypting, then computing the tag of the message.
unfoldable pub seal_record :
    CbcHmac → ℕ → List ℕ → List ℕ → List ℕ → List ℕ → Result CbcHmacError (List ℕ × List ℕ)
seal_record crates record_len iv aes_key hmac_key plaintext = do
  ciphertext ← encrypt_aes128_cbc_pkcs7 crates aes_key iv plaintext
  message ← build_hmac_message length_iv_ciphertext record_len iv ciphertext
  tag ← compute_hmac_sha256 crates hmac_key message
  ok (ciphertext, tag)

module _ (crates : CbcHmac) (laws : IsCbcHmac crates) where
  decrypt-padded :
      (aes_key iv plaintext ciphertext : List ℕ)
      → length aes_key ≡ 16
      → length iv ≡ 16
      → length ciphertext ≡ length plaintext + pad_len plaintext
      → crates.decrypt aes_key iv ciphertext ≡ some (padded plaintext (pad_len plaintext))
      → decrypt_aes128_cbc_raw crates aes_key iv ciphertext
        ≡ ok (padded plaintext (pad_len plaintext))
  unfolding decrypt_aes128_cbc_raw
  decrypt-padded aes_key iv plaintext ciphertext k i l d =
      ground (arith, is_empty_of_length ciphertext)

  checked_report-genuine :
      (aes_key iv plaintext ciphertext : List ℕ)
      → length aes_key ≡ 16
      → length iv ≡ 16
      → length ciphertext ≡ length plaintext + pad_len plaintext
      → crates.decrypt aes_key iv ciphertext ≡ some (padded plaintext (pad_len plaintext))
      → checked_report crates length_iv_ciphertext true aes_key iv ciphertext
        ≡ genuine_report (length plaintext) (length ciphertext)
  unfolding checked_report note_plaintext genuine_report
  checked_report-genuine aes_key iv plaintext ciphertext k i l d =
      rw (decrypt-padded aes_key iv plaintext ciphertext k i l d) (
        rw (validate_pkcs7-padded plaintext (pad_len plaintext) (omega arith) (omega arith))
          (rw (length-padded plaintext (pad_len plaintext)) (rw l refl)))

  genuine_classification :
      (n total : ℕ)
      → classification (genuine_report n total)
        ≡ (if leb min_session_plaintext n then verified else partial)
  unfolding classification genuine_report is_some_true
  genuine_classification n total = refl

  -- With keys and an IV of the right lengths every plaintext can be sealed into a session record, and
  -- the record verifies: the report names the plaintext's length, and it is classified as verified when
  -- the plaintext has the 28 bytes of a nonce and a key, as partial when it is shorter.
  pub verify_session_record-seal_record :
      (record_len : ℕ) (iv aes_key hmac_key plaintext : List ℕ)
      → length iv ≡ 16
      → length aes_key ≡ 16
      → 0 < length hmac_key
      → (ciphertext : List ℕ) × (tag : List ℕ) × (seal_record crates record_len iv aes_key hmac_key
            plaintext
          ≡ ok (ciphertext, tag))
        × (report : SessionRecordVerifyReport) × (verify_session_record crates length_iv_ciphertext
              record_len iv ciphertext tag aes_key hmac_key
            ≡ ok report)
        × (report.pkcs7_unpadded_len ≡ some (length plaintext))
        × (classification report
            ≡ (if leb min_session_plaintext (length plaintext) then verified else partial))
  unfolding seal_record verify_session_record encrypt_aes128_cbc_pkcs7 compute_hmac_sha256
      verify_hmac_sha256 build_hmac_message genuine_report
  verify_session_record-seal_record record_len iv aes_key hmac_key plaintext i k h =
      let (ciphertext, enc, size, dec) = laws.encrypt_decrypts aes_key iv plaintext k i in
      let message : List ℕ = to_be32 record_len ++ (iv ++ ciphertext) in
      let (tag, mac, tag_size) = laws.hmac_total hmac_key message h in
      let same : crates.ct_eq tag tag ≡ true = laws.ct_eq_refl tag in
      (
        ciphertext,
        tag,
        ground (arith, is_empty_of_length hmac_key),
        genuine_report (length plaintext) (length ciphertext),
        ground (
          arith,
          is_empty_of_length hmac_key,
          checked_report-genuine aes_key iv plaintext ciphertext,
        ),
        refl,
        genuine_classification (length plaintext) (length ciphertext),
      )

  -- What a report of success says about the two halves of the check.
  success_parts :
      (report : SessionRecordVerifyReport) (valid : Bool) (aes_key iv ciphertext : List ℕ)
      → checked_report crates length_iv_ciphertext valid aes_key iv ciphertext ≡ report
      → success report ≡ true
      → (valid ≡ true)
        × (bytes : List ℕ) × (n : ℕ) × (decrypt_aes128_cbc_raw crates aes_key iv ciphertext
            ≡ ok bytes)
        × (validate_pkcs7 bytes ≡ ok n)
        × (min_session_plaintext ≤ n)
        × (report.pkcs7_unpadded_len ≡ some n)
  unfolding checked_report success is_verified classification is_some_true fresh_report
      note_plaintext note_padding
  success_parts report false aes_key iv ciphertext h s = absurd (ground arith)
  success_parts report true aes_key iv ciphertext h s =
      elim (Result-cases (decrypt_aes128_cbc_raw crates aes_key iv ciphertext)) [
        | inr (e, d) ↦ absurd (ground arith)
        | inl (bytes, d) ↦ elim (Result-cases (validate_pkcs7 bytes)) [
          | inr (e, v) ↦ absurd (ground arith)
          | inl (n, v) ↦ (refl, bytes, n, d, v, ground arith, ground arith)
        ]
      ]

  verify_parts :
      (record_len : ℕ) (iv ciphertext tag aes_key hmac_key : List ℕ)
      (report : SessionRecordVerifyReport)
      → verify_session_record crates length_iv_ciphertext record_len iv ciphertext tag aes_key
          hmac_key
        ≡ ok report
      → (valid : Bool) × (verify_hmac_sha256 crates hmac_key
            (to_be32 record_len ++ (iv ++ ciphertext))
            tag
          ≡ ok valid)
        × (checked_report crates length_iv_ciphertext valid aes_key iv ciphertext ≡ report)
  unfolding verify_session_record build_hmac_message
  verify_parts record_len iv ciphertext tag aes_key hmac_key report h =
      elim (Result-cases
        (verify_hmac_sha256 crates hmac_key (to_be32 record_len ++ (iv ++ ciphertext)) tag)) [
          | inl (valid, e) ↦ (valid, e, ground arith)
          | inr (x, e) ↦ absurd (ground arith)
        ]

  tag_of_valid :
      (hmac_key message tag : List ℕ)
      → verify_hmac_sha256 crates hmac_key message tag ≡ ok true
      → compute_hmac_sha256 crates hmac_key message ≡ ok tag
  unfolding verify_hmac_sha256 compute_hmac_sha256
  tag_of_valid hmac_key message tag h = elim (Option-cases (crates.hmac hmac_key message)) [
    | inl e ↦ absurd (ground arith)
    | inr (computed, e) ↦ ground (arith, laws.eq_of_ct_eq computed tag)
  ]

  -- A record that verifies with success carries the tag of its length, IV and ciphertext under the HMAC
  -- key, and decrypts to a text of at least 28 bytes with 1 to 16 bytes of PKCS#7 padding behind it; the
  -- report names the length of that text.
  pub verify_session_record-success :
      (record_len : ℕ) (iv ciphertext tag aes_key hmac_key : List ℕ)
      (report : SessionRecordVerifyReport)
      → verify_session_record crates length_iv_ciphertext record_len iv ciphertext tag aes_key
          hmac_key
        ≡ ok report
      → success report ≡ true
      → (compute_hmac_sha256 crates hmac_key (to_be32 record_len ++ (iv ++ ciphertext)) ≡ ok tag)
        × (text : List ℕ) × (pad : ℕ) × (decrypt_aes128_cbc_raw crates aes_key iv ciphertext
            ≡ ok (padded text pad))
        × (0 < pad)
        × (pad ≤ 16)
        × (28 ≤ length text)
        × (report.pkcs7_unpadded_len ≡ some (length text))
  verify_session_record-success record_len iv ciphertext tag aes_key hmac_key report h s =
      let (valid, mac, checked) =
        verify_parts record_len iv ciphertext tag aes_key hmac_key report h in
      let (e, bytes, n, dec, pkcs, long, len) =
        success_parts report valid aes_key iv ciphertext checked s in
      let (pad, pos, small, shape, size) = padded_of_validate_pkcs7 bytes n pkcs in
      (
        tag_of_valid hmac_key (to_be32 record_len ++ (iv ++ ciphertext)) tag (mac ∙ ap ok e),
        take n bytes,
        pad,
        dec ∙ ap ok shape,
        pos,
        small,
        omega (arith, long, size),
        len ∙ ap some (sym size),
      )
