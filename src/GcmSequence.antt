-- ===== src/GcmSequence.antt =====
-- network/src/gcm_sequence.rs: the encrypted frames of a capture, opened one after the other.
pub mod Sealed
pub mod Verified
pub mod Opened
use destiny1_pc_project.Prelude.{
  ℕ, ◌+◌, ◌%◌, ◌^◌, Bool, true, false, not, ◌&&◌, Option, none, some, List, [], ◌∷◌, ◌++◌, ◌==◌,
  if◌then◌else◌, length, is_empty, Text, codes, trim, text_eq, Result, ok, err, ◌>>=◌, ◌>>◌,
  fail_if, ok_or, map_err,
}
use destiny1_pc_project.Nonce.{
  NonceDirection, client_to_server, server_to_client, GcmNonceError, nonces_equal, direction_name,
}
use destiny1_pc_project.Context
use destiny1_pc_project.Context.{SessionCryptoContext, SessionContextError, next_nonce}
use destiny1_pc_project.Aead.{AesGcm, CryptoError, key_len, nonce_len, tag_len, decrypt_aes_gcm}
use destiny1_pc_project.GcmFields.{decode_hex, decode_aad, decode_sized, parse_direction}

pub data SequenceError : Type 0 where
  file_not_found : Text → SequenceError
  io bad_json empty_frames : SequenceError
  bad_hex : Text → ℕ → SequenceError
  bad_field_len : Text → ℕ → ℕ → SequenceError
  empty_field bad_direction : Text → SequenceError
  crypto : CryptoError → SequenceError
  context : SessionContextError → SequenceError
  nonce : GcmNonceError → SequenceError

pub record SequenceFrameFile : Type 0 where
  pub id_hex : Text
  pub direction : Text
  pub frame_offset : Option ℕ
  pub frame_order : Option ℕ
  pub tag_hex : Text
  pub ciphertext_hex : Text
  pub expected_plaintext_len : Option ℕ
  pub expected_nonce_hex : Option Text

pub record SequenceFile : Type 0 where
  pub session_key_hex : Text
  pub session_nonce_hex : Text
  pub aad_hex : Text
  pub frames : List SequenceFrameFile

pub record SequenceFrameReport : Type 0 where
  pub id_hex : Text
  pub direction : Text
  pub frame_offset : Option ℕ
  pub frame_order : Option ℕ
  pub tag_length : ℕ
  pub ciphertext_length : ℕ
  pub aad_length : ℕ
  pub decrypt_ok : Bool
  pub plaintext_length : Option ℕ
  pub plaintext_len_matches_expected : Option Bool
  pub nonce_matches_expected : Option Bool
  pub direction_enc_ordinal : ℕ

pub record SequenceReport : Type 0 where
  pub key_length : ℕ
  pub session_nonce_length : ℕ
  pub aad_length : ℕ
  pub frames : List SequenceFrameReport
  pub client_to_server_frames : ℕ
  pub server_to_client_frames : ℕ
  pub nonce_sequence_valid : Bool
  pub gcm_validation : Bool

unfoldable pub all_verified : SequenceReport → Bool
all_verified r = r.nonce_sequence_valid && (r.gcm_validation && not (is_empty r.frames))

-- The variables of the loop.
pub record Progress : Type 0 where
  pub ctx : SessionCryptoContext
  pub frames : List SequenceFrameReport
  pub c2s : ℕ
  pub s2c : ℕ
  pub nonce_ok_all : Bool
  pub gcm_ok_all : Bool

-- `+= 1` on a `u32`, in a release build.
unfoldable pub add_one : ℕ → ℕ
add_one n = (n + 1) % 2 ^ 32

unfoldable pub ordinal : Progress → NonceDirection → ℕ
ordinal p client_to_server = p.c2s
ordinal p server_to_client = p.s2c

unfoldable pub count : Progress → NonceDirection → Progress
unfolding add_one
count p client_to_server = record p { c2s = add_one p.c2s }
count p server_to_client = record p { s2c = add_one p.s2c }

-- What decrypting adds to a report, and whether the frame passes.
unfoldable pub opened :
    Option ℕ
    → SequenceFrameReport
    → Result CryptoError (List ℕ)
    → Result SequenceError (SequenceFrameReport × Bool)
opened none report (ok plaintext) =
    ok (record report { decrypt_ok = true; plaintext_length = some (length plaintext) }, true)
opened (some size) report (ok plaintext) = ok (
  record report {
    decrypt_ok = true;
    plaintext_length = some (length plaintext);
    plaintext_len_matches_expected = some (length plaintext == size);
  },
  length plaintext == size,
)
opened size report (err CryptoError.decrypt_failed) =
    ok (record report { decrypt_ok = false }, false)
opened size report (err e) = err (crypto e)

-- `map(|_| false)`.
unfoldable pub unmatched : Option ℕ → Option Bool
unmatched none = none
unmatched (some size) = some false

unfoldable pub still_ok : Bool → Option Bool → Bool
still_ok so_far none = so_far
still_ok so_far (some m) = so_far && m

unfoldable pub started : SessionCryptoContext → Progress
started ctx = record {
  ctx = ctx;
  frames = [];
  c2s = 0;
  s2c = 0;
  nonce_ok_all = true;
  gcm_ok_all = true;
}

-- The session nonce has to be as it was before the loop.
unfoldable pub reported : List ℕ → List ℕ → List ℕ → List ℕ → Progress → SequenceReport
reported key session_nonce aad snapshot p = record {
  key_length = length key;
  session_nonce_length = length session_nonce;
  aad_length = length aad;
  frames = p.frames;
  client_to_server_frames = p.c2s;
  server_to_client_frames = p.s2c;
  nonce_sequence_valid = p.nonce_ok_all && text_eq p.ctx.session_nonce snapshot;
  gcm_validation = p.gcm_ok_all;
}

-- The report before the frame is decrypted.
unfoldable pub fresh_report :
    List ℕ
    → SequenceFrameFile
    → NonceDirection
    → List ℕ
    → List ℕ
    → ℕ
    → Option Bool
    → SequenceFrameReport
unfolding unmatched
fresh_report aad fr direction tag ciphertext ord m = record {
  id_hex = fr.id_hex;
  direction = direction_name direction;
  frame_offset = fr.frame_offset;
  frame_order = fr.frame_order;
  tag_length = length tag;
  ciphertext_length = length ciphertext;
  aad_length = length aad;
  decrypt_ok = false;
  plaintext_length = none;
  plaintext_len_matches_expected = unmatched fr.expected_plaintext_len;
  nonce_matches_expected = m;
  direction_enc_ordinal = ord;
}

-- The end of a round: the tests, the counter of the direction and the report.
unfoldable pub add_frame :
    Progress
    → SessionCryptoContext
    → NonceDirection
    → Option Bool
    → SequenceFrameReport × Bool
    → Progress
unfolding still_ok count
add_frame p ctx direction m r =
    count
      (record {
        ctx = ctx;
        frames = p.frames ++ (r.0 ∷ []);
        c2s = p.c2s;
        s2c = p.s2c;
        nonce_ok_all = still_ok p.nonce_ok_all m;
        gcm_ok_all = p.gcm_ok_all && r.1;
      })
      direction

-- The comparison of the subtle crate.
module _ (ct_eq : List ℕ → List ℕ → Bool) where
  unfoldable pub match_nonce : List ℕ → Option Text → Result SequenceError (Option Bool)
  unfolding decode_sized
  match_nonce drawn none = ok none
  match_nonce drawn (some h) = if is_empty (trim h) then ok none else (do
    expected ←
        decode_sized bad_hex empty_field bad_field_len (codes "expected_nonce_hex") nonce_len h
    m ← map_err nonce (nonces_equal ct_eq drawn expected)
    ok (some m))

module _ (ct_eq : List ℕ → List ℕ → Bool) (cipher : AesGcm) where
  -- A round of the loop behind the reading of the fields.
  unfoldable pub open_frame :
      List ℕ
      → SequenceFrameFile
      → NonceDirection
      → List ℕ
      → List ℕ
      → Progress
      → Result SequenceError Progress
  unfolding match_nonce opened fresh_report ordinal add_frame
  open_frame aad fr direction tag ciphertext p =
      let (ctx', drawn) = next_nonce p.ctx direction in
      match_nonce ct_eq drawn fr.expected_nonce_hex >>= λ m.
      opened fr.expected_plaintext_len
        (fresh_report aad fr direction tag ciphertext (ordinal p direction) m)
        (decrypt_aes_gcm cipher ctx'.session_key drawn ciphertext tag aad)
      >>= λ r. ok (add_frame p ctx' direction m r)

  unfoldable pub verify_frame :
      List ℕ → SequenceFrameFile → Progress → Result SequenceError Progress
  unfolding open_frame decode_sized decode_hex parse_direction
  verify_frame aad fr p = do
    direction ← parse_direction bad_direction fr.direction
    tag ← decode_sized bad_hex empty_field bad_field_len (codes "tag_hex") tag_len fr.tag_hex
    ciphertext ← decode_hex bad_hex empty_field (codes "ciphertext_hex") fr.ciphertext_hex
    open_frame aad fr direction tag ciphertext p

  unfoldable pub verify_frames :
      List ℕ → List SequenceFrameFile → Progress → Result SequenceError Progress
  unfolding verify_frame
  verify_frames aad [] p = ok p
  verify_frames aad (fr ∷ rest) p = verify_frame aad fr p >>= λ p'. verify_frames aad rest p'

  unfoldable pub verify_file : SequenceFile → Result SequenceError SequenceReport
  unfolding verify_frames started reported decode_sized decode_aad
  verify_file file = do
    fail_if (is_empty file.frames) empty_frames
    key ←
        decode_sized bad_hex empty_field bad_field_len (codes "session_key_hex") key_len
          file.session_key_hex
    session_nonce ←
        decode_sized bad_hex empty_field bad_field_len (codes "session_nonce_hex") nonce_len
          file.session_nonce_hex
    aad ← decode_aad bad_hex empty_field file.aad_hex
    ctx ← map_err context (Context.new key session_nonce)
    p ← verify_frames aad file.frames (started ctx)
    ok (reported key session_nonce aad ctx.session_nonce p)

  -- serde_json's reading of the file.
  unfoldable pub verify_from_json_str :
      (Text → Option SequenceFile) → Text → Result SequenceError SequenceReport
  unfolding verify_file
  verify_from_json_str from_str text = ok_or (from_str text) bad_json >>= λ file. verify_file file
