-- ===== src/GcmNonceReconstruct/Drawn.antt =====
-- The first nonces of a session, against network/src/gcm_nonce_reconstruct.rs.
use destiny1_pc_project.Prelude.{
  ℕ, ◌≡◌, refl, ap, ◌∙◌, Bool, true, Option, some, List, arith, length, codes, Result, ok, ◌>>=◌,
  map_err,
}
use destiny1_pc_project.Nonce.{
  NonceDirection, client_to_server, server_to_client, NonceTransform, NonceReconstructReport,
  gcm_nonce_len, name, transformed, apply_nonce_transform, default_transform_for, direction_name,
  nonces_equal, match_expected, nonce_after_increments, reconstruct_first_frame_nonce,
}
use destiny1_pc_project.Nonce.Value.{IsNonce}
use destiny1_pc_project.Nonce.Start.{base, base-IsNonce}
use destiny1_pc_project.Context
use destiny1_pc_project.Context.{SessionCryptoContext, next_nonce}
use destiny1_pc_project.Context.Track.{new-start}
use destiny1_pc_project.LocalProtocol.{hex_encode}
use destiny1_pc_project.GcmFields.{parse_direction, decode_sized}
use destiny1_pc_project.GcmFields.RoundTrip.{is_empty-trim, decode_sized-hex_encode}
use destiny1_pc_project.GcmSequence.Sealed.{ne_nil}
use destiny1_pc_project.GcmNonceReconstruct.{
  NonceInputError, parse_transform, expected_nonce, reconstruct_file,
}

first_nonce :
    (key nonce : List ℕ) (ctx : SessionCryptoContext) (d : NonceDirection)
    → Context.new key nonce ≡ ok ctx
    → (next_nonce ctx d).1 ≡ base nonce d
unfolding next_nonce nonce_after_increments
first_nonce key nonce ctx client_to_server e = (new-start key nonce ctx e).0.c2s_nonce
first_nonce key nonce ctx server_to_client e = (new-start key nonce ctx e).0.s2c_nonce

parse_direction-direction_name :
    (d : NonceDirection) → parse_direction NonceInputError.bad_direction (direction_name d) ≡ ok d
unfolding parse_direction direction_name
parse_direction-direction_name client_to_server = refl
parse_direction-direction_name server_to_client = refl

expected_nonce-hex_encode :
    (n : List ℕ) → IsNonce n → expected_nonce (some (hex_encode n)) ≡ ok (some n)
unfolding expected_nonce
expected_nonce-hex_encode n h =
    let full = ne_nil 11 n (omega (arith, h.size)) in
    ground (
      arith,
      is_empty-trim n full,
      decode_sized-hex_encode NonceInputError.bad_hex NonceInputError.empty_field
          NonceInputError.bad_field_len (codes "expected_nonce_hex") gcm_nonce_len n h.bytes h.size
          full,
    )

abbrev pub first_report : NonceDirection → NonceReconstructReport
first_report d = record {
  direction = direction_name d;
  transform = name (default_transform_for d);
  session_nonce_length = 12;
  derived_nonce_length = 12;
  matches_expected = some true;
}

reconstruct_first :
    (ct_eq : List ℕ → List ℕ → Bool) (nonce : List ℕ) (d : NonceDirection)
    → ((x : List ℕ) → ct_eq x x ≡ true)
    → IsNonce nonce
    → reconstruct_first_frame_nonce ct_eq nonce d (default_transform_for d) (some (base nonce d))
      ≡ ok (first_report d)
unfolding reconstruct_first_frame_nonce apply_nonce_transform match_expected nonces_equal base
reconstruct_first ct_eq nonce d same h =
    let long : length (transformed (default_transform_for d) nonce) ≡ gcm_nonce_len =
      (base-IsNonce nonce d h).size in
    ground (arith, h.size, long, same (transformed (default_transform_for d) nonce))

-- A file that holds the session nonce in hex, a direction, the default transform and, as what is expected, the first
-- nonce that a new session draws in that direction: with a comparison that keeps its law, the reconstruction reports a match.
pub reconstruct_file-next_nonce :
    (ct_eq : List ℕ → List ℕ → Bool) (key nonce : List ℕ) (ctx : SessionCryptoContext)
    (d : NonceDirection)
    → ((x : List ℕ) → ct_eq x x ≡ true)
    → Context.new key nonce ≡ ok ctx
    → IsNonce nonce
    → reconstruct_file ct_eq (record {
      session_nonce_hex = hex_encode nonce;
      direction = direction_name d;
      transform = codes "DefaultForDirection";
      expected_nonce_hex = some (hex_encode (next_nonce ctx d).1);
    })
      ≡ ok (first_report d)
unfolding reconstruct_file parse_transform
reconstruct_file-next_nonce ct_eq key nonce ctx d same made h =
    let drawn = first_nonce key nonce ctx d made in
    let expects : expected_nonce (some (hex_encode (next_nonce ctx d).1))
        ≡ ok (some (base nonce d)) =
      ap (λ n. expected_nonce (some (hex_encode n))) drawn
      ∙ expected_nonce-hex_encode (base nonce d) (base-IsNonce nonce d h) in
    let read =
      decode_sized-hex_encode NonceInputError.bad_hex NonceInputError.empty_field
        NonceInputError.bad_field_len (codes "session_nonce_hex") gcm_nonce_len nonce h.bytes h.size
        (ne_nil 11 nonce (omega (arith, h.size))) in
    let last = λ (d : NonceDirection) (t : NonceTransform) (n : List ℕ) (e : Option (List ℕ)).
      map_err NonceInputError.crypto (reconstruct_first_frame_nonce ct_eq n d t e) in
    let expected_field = expected_nonce (some (hex_encode (next_nonce ctx d).1)) in
    let session_field =
      decode_sized NonceInputError.bad_hex NonceInputError.empty_field NonceInputError.bad_field_len
        (codes "session_nonce_hex") gcm_nonce_len (hex_encode nonce) in
    ap
      (λ (x : Result NonceInputError NonceDirection). x >>= λ d.
        parse_transform (codes "DefaultForDirection") d >>= λ t.
        session_field >>= λ n. expected_field >>= last d t n)
      (parse_direction-direction_name d)
    ∙ ap
        (λ (x : Result NonceInputError (List ℕ)).
          x >>= λ n. expected_field >>= last d (default_transform_for d) n)
        read
    ∙ ap
        (λ (x : Result NonceInputError (Option (List ℕ))).
          x >>= last d (default_transform_for d) nonce)
        expects
    ∙ ap (map_err NonceInputError.crypto) (reconstruct_first ct_eq nonce d same h)
