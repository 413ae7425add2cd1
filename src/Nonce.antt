-- ===== src/Nonce.antt =====
-- network/src/crypto/gcm_nonce.rs: the 12-byte AES-GCM nonces of a session.
pub mod Value
pub mod Start
use destiny1_pc_project.Prelude.{
  ℕ, zero, suc, ◌+◌, ◌%◌, ◌≡◌, Bool, true, false, not, ◌&&◌, Option, none, some, List, [], ◌∷◌,
  ==_refl, ◌==◌, if◌then◌else◌, bit_xor, length, get_or, set, Result, ok, err, ◌>>=◌, ◌>>◌, fail_if,
  Text, codes,
}

abbrev pub gcm_nonce_len : ℕ
gcm_nonce_len = 12

pub data GcmNonceError : Type 0 where
  bad_session_nonce_length : ℕ → GcmNonceError
  bad_expected_nonce_length : ℕ → GcmNonceError

pub data NonceDirection : Type 0 where
  server_to_client client_to_server : NonceDirection

pub data NonceTransform : Type 0 where
  identity : NonceTransform
  xor_last_byte : ℕ → NonceTransform

unfoldable pub name : NonceTransform → Text
name identity = codes "Identity"
name (xor_last_byte v) = if v == 1 then codes "XorLastByte(1)" else codes "XorLastByte(n)"

unfoldable pub default_transform_for : NonceDirection → NonceTransform
default_transform_for server_to_client = identity
default_transform_for client_to_server = xor_last_byte 1

-- The `match transform` on the copied array.
unfoldable pub transformed : NonceTransform → List ℕ → List ℕ
transformed identity out = out
transformed (xor_last_byte v) out = set out 11 (bit_xor (get_or out 11 0) v)

unfoldable pub apply_nonce_transform : List ℕ → NonceTransform → Result GcmNonceError (List ℕ)
unfolding transformed
apply_nonce_transform session_nonce transform = do
  fail_if (not (length session_nonce == gcm_nonce_len))
      (bad_session_nonce_length (length session_nonce))
  ok (transformed transform session_nonce)

-- The loop over `nonce.iter_mut()`: add one with wrap-around, and return at the first byte that
-- did not wrap.
unfoldable pub increment_nonce : List ℕ → List ℕ
increment_nonce [] = []
increment_nonce (byte ∷ nonce) =
    let byte' = (byte + 1) % 256 in
    let rest = increment_nonce nonce in if not (byte' == 0) then byte' ∷ nonce else byte' ∷ rest

-- `SessionCryptoContext::nonce_after_increments`: the loop `for _ in 0..counter`.
unfoldable pub nonce_after_increments : List ℕ → ℕ → List ℕ
nonce_after_increments n zero = n
nonce_after_increments n (suc rounds) = nonce_after_increments (increment_nonce n) rounds

unfoldable pub initial_direction_nonce : List ℕ → NonceDirection → Result GcmNonceError (List ℕ)
initial_direction_nonce session_nonce direction =
    apply_nonce_transform session_nonce (default_transform_for direction)

-- `ct_eq` stands for the `subtle` crate's comparison of byte slices.
unfoldable pub nonces_equal : (List ℕ → List ℕ → Bool) → List ℕ → List ℕ → Result GcmNonceError Bool
nonces_equal ct_eq a b = do
  fail_if (not (length a == gcm_nonce_len)) (bad_session_nonce_length (length a))
  fail_if (not (length b == gcm_nonce_len)) (bad_expected_nonce_length (length b))
  ok (ct_eq a b)

pub record NonceReconstructReport : Type 0 where
  pub direction : Text
  pub transform : Text
  pub session_nonce_length : ℕ
  pub derived_nonce_length : ℕ
  pub matches_expected : Option Bool

unfoldable pub direction_name : NonceDirection → Text
direction_name client_to_server = codes "client_to_server"
direction_name server_to_client = codes "server_to_client"

-- `match expected`: compare where there is something to compare with.
unfoldable pub match_expected :
    (List ℕ → List ℕ → Bool) → List ℕ → Option (List ℕ) → Result GcmNonceError (Option Bool)
match_expected ct_eq derived none = ok none
match_expected ct_eq derived (some exp) = do same ← nonces_equal ct_eq derived exp; ok (some same)

unfoldable pub reconstruct_first_frame_nonce :
    (List ℕ → List ℕ → Bool)
    → List ℕ
    → NonceDirection
    → NonceTransform
    → Option (List ℕ)
    → Result GcmNonceError NonceReconstructReport
reconstruct_first_frame_nonce ct_eq session_nonce direction transform expected = do
  derived ← apply_nonce_transform session_nonce transform
  matches ← match_expected ct_eq derived expected
  ok (record {
    direction = direction_name direction;
    transform = name transform;
    session_nonce_length = length session_nonce;
    derived_nonce_length = length derived;
    matches_expected = matches;
  })
