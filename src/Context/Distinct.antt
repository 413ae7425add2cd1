-- ===== src/Context/Distinct.antt =====
-- The nonces that a session of network/src/crypto/session_context.rs draws, compared.
use destiny1_pc_project.Prelude.{
  ℕ, suc, ◌+◌, ◌≤◌, ◌<◌, ◌≡◌, ◌≢◌, refl, sym, List, [], ◌∷◌, arith, length, All, ok,
}
use destiny1_pc_project.Nonce.{NonceDirection, server_to_client, client_to_server}
use destiny1_pc_project.Nonce.Value.{IsNonce, after-injective}
use destiny1_pc_project.Nonce.Start.{base, base-IsNonce, last_byte_weight, directions_differ}
use destiny1_pc_project.Context.{SessionCryptoContext, new, draw}
use destiny1_pc_project.Context.Track.{
  Drawn, count_of, count_one, start, nonce_at, new-start, nonces_of, draw-Tracks,
}

abbrev pub Distinct : List (List ℕ) → Type 0
Distinct [] = Unit
Distinct (x ∷ xs) = All (λ y. x ≢ y) xs × Distinct xs

counts_grow : (u : Drawn) (e d : NonceDirection) → count_of u d ≤ count_of (count_one u e) d
counts_grow u client_to_server client_to_server = omega arith
counts_grow u client_to_server server_to_client = omega arith
counts_grow u server_to_client client_to_server = omega arith
counts_grow u server_to_client server_to_client = omega arith

count_one_self : (u : Drawn) (d : NonceDirection) → count_of (count_one u d) d ≡ suc (count_of u d)
count_one_self u client_to_server = refl
count_one_self u server_to_client = refl

module _ (n : List ℕ) (valid : IsNonce n) where
  nonce_at_ne :
      (t u : Drawn) (d e : NonceDirection)
      → count_of t d < last_byte_weight
      → count_of u e < last_byte_weight
      → count_of t d < count_of u d
      → nonce_at n t d ≢ nonce_at n u e
  nonce_at_ne t u client_to_server client_to_server ht hu lt e = omega (
    arith,
    after-injective (base n client_to_server) t.c2s u.c2s (base-IsNonce n client_to_server valid)
        (omega arith) (omega arith) e,
  )
  nonce_at_ne t u server_to_client server_to_client ht hu lt e = omega (
    arith,
    after-injective (base n server_to_client) t.s2c u.s2c (base-IsNonce n server_to_client valid)
        (omega arith) (omega arith) e,
  )
  nonce_at_ne t u client_to_server server_to_client ht hu lt e =
      directions_differ n t.c2s u.s2c valid ht hu e
  nonce_at_ne t u server_to_client client_to_server ht hu lt e =
      directions_differ n u.c2s t.s2c valid hu ht (sym e)

  -- Both counts stay below the weight for the draws that are left.
  abbrev Room : Drawn → List NonceDirection → Type 0
  Room u ds = (u.c2s + length ds ≤ last_byte_weight) × (u.s2c + length ds ≤ last_byte_weight)

  later_differ :
      (t u : Drawn) (d : NonceDirection) (ds : List NonceDirection)
      → count_of t d < count_of u d
      → count_of t d < last_byte_weight
      → Room u ds
      → All (λ y. nonce_at n t d ≢ y) (nonces_of n u ds)
  unfolding nonces_of
  later_differ t u d [] lt ht room = tt
  later_differ t u d (client_to_server ∷ ds) lt ht room = (
    nonce_at_ne t u d client_to_server ht (omega arith) lt,
    later_differ t (count_one u client_to_server) d ds
        (ground (arith, counts_grow u client_to_server d)) ht (omega arith),
  )
  later_differ t u d (server_to_client ∷ ds) lt ht room = (
    nonce_at_ne t u d server_to_client ht (omega arith) lt,
    later_differ t (count_one u server_to_client) d ds
        (ground (arith, counts_grow u server_to_client d)) ht (omega arith),
  )

  Room-one :
      (t : Drawn) (d : NonceDirection) (ds : List NonceDirection)
      → Room t (d ∷ ds)
      → Room (count_one t d) ds × (count_of t d < last_byte_weight)
  Room-one t client_to_server ds h = omega arith
  Room-one t server_to_client ds h = omega arith

  nonces_of-Distinct :
      (t : Drawn) (ds : List NonceDirection) → Room t ds → Distinct (nonces_of n t ds)
  unfolding nonces_of
  nonces_of-Distinct t [] room = tt
  nonces_of-Distinct t (d ∷ ds) room =
      let (room', below) = Room-one t d ds room in
      (
        later_differ t (count_one t d) d ds (omega (arith, count_one_self t d)) below room',
        nonces_of-Distinct (count_one t d) ds room',
      )

-- A new session that draws at most 2 ^ 88 nonces, in any interleaving of its two directions, never
-- draws the same nonce twice.
pub draw-Distinct :
    (key n : List ℕ) (ctx : SessionCryptoContext) (ds : List NonceDirection)
    → IsNonce n
    → new key n ≡ ok ctx
    → length ds ≤ last_byte_weight
    → Distinct (draw ctx ds).1
draw-Distinct key n ctx ds valid e few =
    let (tracks, _, _) = new-start key n ctx e in
    rw ((draw-Tracks key n start ctx ds tracks).1)
      (nonces_of-Distinct n valid start ds (omega arith))
