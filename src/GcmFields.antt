-- ===== src/GcmFields.antt =====
-- The hex fields of network/src/gcm_sequence.rs, gcm_first_frame.rs and gcm_nonce_reconstruct.rs.
pub mod RoundTrip
use destiny1_pc_project.Prelude.{
  ℕ, ◌+◌, ◌-◌, ◌*◌, ◌%◌, Bool, true, false, not, ◌&&◌, Option, none, some, List, [], ◌∷◌, ◌==◌,
  if◌then◌else◌, leb, length, is_empty, Text, codes, utf8, trim, text_eq, Result, ok, err, ◌>>=◌,
  ◌>>◌, fail_if, ok_or,
}
use destiny1_pc_project.Nonce.{NonceDirection, client_to_server, server_to_client}

unfoldable pub hex_nibble : ℕ → Option ℕ
hex_nibble b =
    if leb 48 b && leb b 57
    then some (b - 48)
    else if leb 97 b && leb b 102
    then some (b - 97 + 10)
    else if leb 65 b && leb b 70
    then some (b - 65 + 10)
    else none

-- The `while` loop over the bytes, two in a round. Their number is even.
unfoldable pub nibble_pairs : List ℕ → Option (List ℕ)
unfolding hex_nibble
nibble_pairs [] = some []
nibble_pairs (a ∷ []) = none
nibble_pairs (a ∷ b ∷ bytes) =
    let rest = nibble_pairs bytes in
    elim (hex_nibble a) [
      | none ↦ none
      | some hi ↦ elim (hex_nibble b) [
        | none ↦ none
        | some lo ↦ elim rest [ none ↦ none | some out ↦ some ((hi * 16 + lo) ∷ out) ]
      ]
    ]

-- The files have an error type each, with these two errors in it.
module _ {E : Type 0} (bad_hex : Text → ℕ → E) (empty_field : Text → E) where
  unfoldable pub decode_hex : Text → Text → Result E (List ℕ)
  unfolding nibble_pairs
  decode_hex field s =
      let t = trim s in
      if is_empty t
      then err (empty_field field)
      else if not (length (utf8 t) % 2 == 0)
      then err (bad_hex field (length (utf8 t)))
      else ok_or (nibble_pairs (utf8 t)) (bad_hex field (length (utf8 t)))

  -- `aad_hex`, which may be empty.
  unfoldable pub decode_aad : Text → Result E (List ℕ)
  unfolding decode_hex
  decode_aad s = if is_empty (trim s) then ok [] else decode_hex (codes "aad_hex") s

-- A field with its length checked.
module _ {E : Type 0} (bad_hex : Text → ℕ → E) (empty_field : Text → E)
    (bad_field_len : Text → ℕ → ℕ → E) where
  unfoldable pub decode_sized : Text → ℕ → Text → Result E (List ℕ)
  unfolding decode_hex
  decode_sized field size s = do
    bytes ← decode_hex bad_hex empty_field field s
    fail_if (not (length bytes == size)) (bad_field_len field (length bytes) size)
    ok bytes

module _ {E : Type 0} (bad_direction : Text → E) where
  unfoldable pub parse_direction : Text → Result E NonceDirection
  parse_direction s =
      let t = trim s in
      if text_eq t (codes "client_to_server")
      then ok client_to_server
      else if text_eq t (codes "c2s")
      then ok client_to_server
      else if text_eq t (codes "server_to_client")
      then ok server_to_client
      else if text_eq t (codes "s2c")
      then ok server_to_client
      else err (bad_direction t)
