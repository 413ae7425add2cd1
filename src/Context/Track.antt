-- ===== src/Context/Track.antt =====
-- The counts of drawn nonces, as the abstract state of network/src/crypto/session_context.rs.
use destiny1_pc_project.Prelude.{ℕ, suc, ◌≡◌, refl, ap₂, List, [], ◌∷◌, arith, min, length, ok}
use destiny1_pc_project.Nonce.{
  gcm_nonce_len, NonceDirection, server_to_client, client_to_server, nonce_after_increments,
}
use destiny1_pc_project.Nonce.Value.{after_suc}
use destiny1_pc_project.Nonce.Start.{base, initial_ok}
use destiny1_pc_project.Context.{
  SessionCryptoContext, key_len, u64_max, new, next_nonce, peek_nonce, draw,
}

-- The abstract state: how many nonces have been drawn in each direction.
pub record Drawn : Type 0 where
  pub c2s : ℕ
  pub s2c : ℕ

abbrev pub count_of : Drawn → NonceDirection → ℕ
count_of t client_to_server = t.c2s
count_of t server_to_client = t.s2c

abbrev pub count_one : Drawn → NonceDirection → Drawn
count_one t client_to_server = record t { c2s = suc t.c2s }
count_one t server_to_client = record t { s2c = suc t.s2c }

abbrev pub count_all : Drawn → List NonceDirection → Drawn
count_all t [] = t
count_all t (d ∷ ds) = count_all (count_one t d) ds

abbrev pub start : Drawn
start = record { c2s = 0; s2c = 0 }

-- The nonce of the frame number `count_of t d` of direction `d`.
abbrev pub nonce_at : List ℕ → Drawn → NonceDirection → List ℕ
nonce_at n t d = nonce_after_increments (base n d) (count_of t d)

-- What the context holds after the draws `t` of a session with this key and nonce.
pub record Tracks (key n : List ℕ) (t : Drawn) (ctx : SessionCryptoContext) : Type 0 where
  pub key_kept : ctx.session_key ≡ key
  pub nonce_kept : ctx.session_nonce ≡ n
  pub c2s_nonce :
      ctx.client_to_server_nonce ≡ nonce_after_increments (base n client_to_server) t.c2s
  pub s2c_nonce :
      ctx.server_to_client_nonce ≡ nonce_after_increments (base n server_to_client) t.s2c
  pub c2s_counter : ctx.client_to_server_counter ≡ min t.c2s u64_max
  pub s2c_counter : ctx.server_to_client_counter ≡ min t.s2c u64_max

-- `new` accepts a 16-byte key and a 12-byte nonce, and starts with both directions at their bases.
pub new-Tracks :
    (key n : List ℕ)
    → length key ≡ key_len
    → length n ≡ gcm_nonce_len
    → (ctx : SessionCryptoContext) × (new key n ≡ ok ctx) × Tracks key n start ctx
unfolding new nonce_after_increments
new-Tracks key n hk hn = (
  record {
    session_key = key;
    session_nonce = n;
    client_to_server_nonce = base n client_to_server;
    server_to_client_nonce = base n server_to_client;
    client_to_server_counter = 0;
    server_to_client_counter = 0;
  },
  ground (arith, initial_ok n client_to_server hn, initial_ok n server_to_client hn),
  ground arith,
)

-- A context that `new` returned is a session's first, and its key and nonce have their lengths.
pub new-start :
    (key n : List ℕ) (ctx : SessionCryptoContext)
    → new key n ≡ ok ctx
    → Tracks key n start ctx × (length key ≡ key_len) × (length n ≡ gcm_nonce_len)
unfolding new nonce_after_increments
new-start key n ctx e = ground (arith, initial_ok n client_to_server, initial_ok n server_to_client)

-- The nonces that a run of draws returns, from the counts alone.
unfoldable pub nonces_of : List ℕ → Drawn → List NonceDirection → List (List ℕ)
nonces_of n t [] = []
nonces_of n t (d ∷ ds) = nonce_at n t d ∷ nonces_of n (count_one t d) ds

module _ (key n : List ℕ) where
  -- One draw returns the direction's nonce and counts that direction alone.
  pub next_nonce-Tracks :
      (t : Drawn) (ctx : SessionCryptoContext) (d : NonceDirection)
      → Tracks key n t ctx
      → Tracks key n (count_one t d) (next_nonce ctx d).0
        × ((next_nonce ctx d).1 ≡ nonce_at n t d)
        × (peek_nonce ctx d ≡ nonce_at n t d)
  unfolding next_nonce peek_nonce
  next_nonce-Tracks t ctx client_to_server h =
      ground (arith, after_suc (base n client_to_server) t.c2s)
  next_nonce-Tracks t ctx server_to_client h =
      ground (arith, after_suc (base n server_to_client) t.s2c)

  -- From a context with a key, a nonce and counts, a run of draws, in any interleaving, returns the nonces that the counts say, and leaves a
  -- context that tracks the new counts.
  pub draw-Tracks :
      (t : Drawn) (ctx : SessionCryptoContext) (ds : List NonceDirection)
      → Tracks key n t ctx
      → Tracks key n (count_all t ds) (draw ctx ds).0 × ((draw ctx ds).1 ≡ nonces_of n t ds)
  unfolding draw nonces_of
  draw-Tracks t ctx [] h = (h, refl)
  draw-Tracks t ctx (d ∷ ds) h =
      let (h', e, p) = next_nonce-Tracks t ctx d h in
      let (h'', es) = draw-Tracks (count_one t d) (next_nonce ctx d).0 ds h' in
      (h'', ap₂ (λ x xs. x ∷ xs) e es)
