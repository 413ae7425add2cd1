-- ===== src/GcmNonceReconstruct.antt =====
-- network/src/gcm_nonce_reconstruct.rs: the nonce of a first frame, from the fields of a file.
pub mod Drawn
use destiny1_pc_project.Prelude.{
  ℕ, Bool, Option, none, some, List, if◌then◌else◌, is_empty, Text, codes, trim, text_eq, Result,
  ok, err, ◌>>=◌, ok_or, map_err,
}
use destiny1_pc_project.Nonce.{
  NonceDirection, NonceTransform, identity, xor_last_byte, GcmNonceError, NonceReconstructReport,
  gcm_nonce_len, default_transform_for, reconstruct_first_frame_nonce,
}
use destiny1_pc_project.GcmFields.{decode_sized, parse_direction}

pub data NonceInputError : Type 0 where
  file_not_found : Text → NonceInputError
  io bad_json : NonceInputError
  bad_hex : Text → ℕ → NonceInputError
  bad_field_len : Text → ℕ → ℕ → NonceInputError
  empty_field bad_direction bad_transform : Text → NonceInputError
  crypto : GcmNonceError → NonceInputError

pub record NonceFile : Type 0 where
  pub session_nonce_hex : Text
  pub direction : Text
  pub transform : Text
  pub expected_nonce_hex : Option Text

unfoldable pub parse_transform : Text → NonceDirection → Result NonceInputError NonceTransform
parse_transform s direction =
    let t = trim s in
    if text_eq t (codes "Identity")
    then ok identity
    else if text_eq t (codes "XorLastByte1")
    then ok (xor_last_byte 1)
    else if text_eq t (codes "DefaultForDirection")
    then ok (default_transform_for direction)
    else err (bad_transform t)

-- A blank text is as good as none.
unfoldable pub expected_nonce : Option Text → Result NonceInputError (Option (List ℕ))
unfolding decode_sized
expected_nonce none = ok none
expected_nonce (some h) =
    if is_empty (trim h)
    then ok none
    else (decode_sized bad_hex empty_field bad_field_len (codes "expected_nonce_hex") gcm_nonce_len
          h
        >>= λ e. ok (some e))

module _ (ct_eq : List ℕ → List ℕ → Bool) where
  unfoldable pub reconstruct_file : NonceFile → Result NonceInputError NonceReconstructReport
  unfolding parse_transform expected_nonce parse_direction decode_sized
  reconstruct_file file = do
    direction ← parse_direction bad_direction file.direction
    transform ← parse_transform file.transform direction
    session ←
        decode_sized bad_hex empty_field bad_field_len (codes "session_nonce_hex") gcm_nonce_len
          file.session_nonce_hex
    expected ← expected_nonce file.expected_nonce_hex
    map_err crypto (reconstruct_first_frame_nonce ct_eq session direction transform expected)

  -- serde_json's reading of the file.
  unfoldable pub reconstruct_from_json_str :
      (Text → Option NonceFile) → Text → Result NonceInputError NonceReconstructReport
  unfolding reconstruct_file
  reconstruct_from_json_str from_str text =
      ok_or (from_str text) bad_json >>= λ file. reconstruct_file file
