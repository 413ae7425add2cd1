-- ===== src/Context.antt =====
-- network/src/crypto/session_context.rs: the key and the nonce state of a session.
pub mod Track
pub mod Distinct
use destiny1_pc_project.Prelude.{
  ℕ, ◌+◌, Bool, true, false, not, List, [], ◌∷◌, ◌==◌, min, length, Result, ok, err, ◌>>=◌, ◌>>◌,
  fail_if, map_err,
}
use destiny1_pc_project.Nonce.{
  gcm_nonce_len, NonceDirection, server_to_client, client_to_server, increment_nonce,
  initial_direction_nonce,
}

abbrev pub key_len : ℕ
key_len = 16

abbrev pub u64_max : ℕ
u64_max = 18446744073709551615

pub data SessionContextError : Type 0 where
  bad_key_length : ℕ → SessionContextError
  bad_nonce_length : ℕ → SessionContextError

pub record SessionCryptoContext : Type 0 where
  pub session_key : List ℕ
  pub session_nonce : List ℕ
  pub client_to_server_nonce : List ℕ
  pub server_to_client_nonce : List ℕ
  pub client_to_server_counter : ℕ
  pub server_to_client_counter : ℕ

unfoldable pub new : List ℕ → List ℕ → Result SessionContextError SessionCryptoContext
new session_key session_nonce = do
  fail_if (not (length session_key == key_len)) (bad_key_length (length session_key))
  fail_if (not (length session_nonce == gcm_nonce_len)) (bad_nonce_length (length session_nonce))
  c2s ←
      map_err (λ _. bad_nonce_length (length session_nonce))
        (initial_direction_nonce session_nonce client_to_server)
  s2c ←
      map_err (λ _. bad_nonce_length (length session_nonce))
        (initial_direction_nonce session_nonce server_to_client)
  ok (record {
    session_key = session_key;
    session_nonce = session_nonce;
    client_to_server_nonce = c2s;
    server_to_client_nonce = s2c;
    client_to_server_counter = 0;
    server_to_client_counter = 0;
  })

-- `saturating_add(1)` on a `u64`.
abbrev pub saturating_suc : ℕ → ℕ
saturating_suc n = min (n + 1) u64_max

-- The context after the call, and the nonce that the call returns.
unfoldable pub next_nonce : SessionCryptoContext → NonceDirection → SessionCryptoContext × List ℕ
next_nonce ctx client_to_server = (
  record ctx {
    client_to_server_nonce = increment_nonce ctx.client_to_server_nonce;
    client_to_server_counter = saturating_suc ctx.client_to_server_counter;
  },
  ctx.client_to_server_nonce,
)
next_nonce ctx server_to_client = (
  record ctx {
    server_to_client_nonce = increment_nonce ctx.server_to_client_nonce;
    server_to_client_counter = saturating_suc ctx.server_to_client_counter;
  },
  ctx.server_to_client_nonce,
)

unfoldable pub peek_nonce : SessionCryptoContext → NonceDirection → List ℕ
peek_nonce ctx client_to_server = ctx.client_to_server_nonce
peek_nonce ctx server_to_client = ctx.server_to_client_nonce

-- A run of calls of `next_nonce`, in any interleaving of the directions.
unfoldable pub draw :
    SessionCryptoContext → List NonceDirection → SessionCryptoContext × List (List ℕ)
draw ctx [] = (ctx, [])
draw ctx (direction ∷ directions) =
    let (ctx', nonce) = next_nonce ctx direction in
    let (ctx'', nonces) = draw ctx' directions in (ctx'', nonce ∷ nonces)
