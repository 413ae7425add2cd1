-- ===== src/Nonce/Start.antt =====
-- The first nonces of the two directions, and the distance between them.
use Prim.Native.Nat.{bit_xor}
use mathlib.Core.Logic.{ite}
use native.Mathlib.Decide.{ℕ_discrete}
use destiny1_pc_project.Prelude.{
  ℕ, zero, suc, ◌+◌, ◌-◌, ◌*◌, ◌%◌, ◌<◌, ◌≡◌, ◌≢◌, refl, ap, ◌∙◌, ◌⊎◌, Bool, true, false, List, [],
  ◌∷◌, arith, length, set, get_or, All, IsByte, ok, err,
}
use destiny1_pc_project.Nonce.{
  NonceDirection, server_to_client, client_to_server, gcm_nonce_len, bad_session_nonce_length,
  default_transform_for, transformed, apply_nonce_transform, initial_direction_nonce,
  nonce_after_increments,
}
use destiny1_pc_project.Nonce.Value.{IsNonce, value, space, value-lt, value-after}

module _ (f g : ℕ → ℕ) where
  agree_below : ℕ → Bool
  unfolding ℕ_discrete
  agree_below zero = true
  agree_below (suc n) = let rest = agree_below n in ite (ℕ_discrete (f n) (g n)) rest false

  agree_below_sound : (n : ℕ) → agree_below n ≡ true → (i : ℕ) → i < n → f i ≡ g i
  unfolding agree_below
  agree_below_sound zero e i h = absurd (omega arith)
  agree_below_sound (suc n) e i h = ground (arith, agree_below_sound n (ground arith) i)

-- `b ^ 1` flips the lowest bit of a byte.
pub flip_low_bit : (b : ℕ) → b < 256 → bit_xor b 1 ≡ b + 1 - 2 * (b % 2)
unfolding agree_below
flip_low_bit = agree_below_sound _ _ 256 refl

-- The base of a direction: the session nonce, with the last byte flipped by 1 for the client.
unfoldable pub base : List ℕ → NonceDirection → List ℕ
base session_nonce direction = transformed (default_transform_for direction) session_nonce

pub initial_ok :
    (session_nonce : List ℕ) (direction : NonceDirection)
    → length session_nonce ≡ gcm_nonce_len
    → initial_direction_nonce session_nonce direction ≡ ok (base session_nonce direction)
unfolding initial_direction_nonce apply_nonce_transform base
initial_ok session_nonce direction h = ground arith

pub initial_err :
    (session_nonce : List ℕ) (direction : NonceDirection)
    → length session_nonce ≢ gcm_nonce_len
    → initial_direction_nonce session_nonce direction
      ≡ err (bad_session_nonce_length (length session_nonce))
unfolding initial_direction_nonce apply_nonce_transform
initial_err session_nonce direction h = ground arith

-- 2 ^ 88, the weight of the last byte.
abbrev pub last_byte_weight : ℕ
last_byte_weight = 309485009821345068724781056

-- A byte set anew: the value moves by the difference times the byte's weight.
value-set :
    (n : List ℕ) (i v : ℕ)
    → i < length n
    → value (set n i v) + space i * get_or n i 0 ≡ value n + space i * v
unfolding value space
value-set [] i v h = absurd (omega arith)
value-set (b ∷ bs) zero v h = omega arith
value-set (b ∷ bs) (suc i) v h = omega (arith, value-set bs i v (omega arith))

length-set : (n : List ℕ) (i v : ℕ) → length (set n i v) ≡ length n
length-set [] i v = refl
length-set (b ∷ bs) zero v = refl
length-set (b ∷ bs) (suc i) v = ap suc (length-set bs i v)

All-set : (n : List ℕ) (i v : ℕ) → IsByte v → All IsByte n → All IsByte (set n i v)
All-set [] i v hv h = tt
All-set (b ∷ bs) zero v hv h = (hv, h.1)
All-set (b ∷ bs) (suc i) v hv h = (h.0, All-set bs i v hv h.1)

get_or-IsByte : (n : List ℕ) (i : ℕ) → All IsByte n → IsByte (get_or n i 0)
get_or-IsByte [] i h = omega arith
get_or-IsByte (b ∷ bs) zero h = h.0
get_or-IsByte (b ∷ bs) (suc i) h = get_or-IsByte bs i h.1

flipped :
    (n : List ℕ)
    → IsNonce n
    → bit_xor (get_or n 11 0) 1 ≡ get_or n 11 0 + 1 - 2 * (get_or n 11 0 % 2)
flipped n h = flip_low_bit (get_or n 11 0) (get_or-IsByte n 11 h.bytes)

pub base-IsNonce :
    (n : List ℕ) (direction : NonceDirection) → IsNonce n → IsNonce (base n direction)
unfolding base transformed default_transform_for
base-IsNonce n server_to_client h = h
base-IsNonce n client_to_server h = record {
  size = length-set n 11 (bit_xor (get_or n 11 0) 1) ∙ h.size;
  bytes =
      All-set n 11 (bit_xor (get_or n 11 0) 1)
        (omega (arith, flipped n h, get_or-IsByte n 11 h.bytes)) h.bytes;
}

-- The client's base is the server's, one weight of the last byte up or down.
base_apart :
    (n : List ℕ)
    → IsNonce n
    → (value (base n client_to_server) ≡ value (base n server_to_client) + last_byte_weight)
      ⊎ (value (base n client_to_server) + last_byte_weight ≡ value (base n server_to_client))
unfolding base transformed default_transform_for
base_apart n h =
    let weight : space 11 ≡ last_byte_weight = unfold space in refl in
    let moved = value-set n 11 (bit_xor (get_or n 11 0) 1) (omega (arith, h.size)) in
    let moved' : value (set n 11 (bit_xor (get_or n 11 0) 1)) + last_byte_weight * get_or n 11 0
        ≡ value n + last_byte_weight * bit_xor (get_or n 11 0) 1 =
      rw weight at moved in
    ground (arith, moved', flipped n h)

-- Nonces of different directions differ, as long as each direction has sent fewer than 2 ^ 88
-- frames.
pub directions_differ :
    (n : List ℕ) (i j : ℕ)
    → IsNonce n
    → i < last_byte_weight
    → j < last_byte_weight
    → nonce_after_increments (base n client_to_server) i
      ≢ nonce_after_increments (base n server_to_client) j
directions_differ n i j h hi hj e = omega (
  arith,
  base_apart n h,
  value-after (base n client_to_server) i (base-IsNonce n client_to_server h),
  value-after (base n server_to_client) j (base-IsNonce n server_to_client h),
  value-lt (base n client_to_server) (base-IsNonce n client_to_server h),
  value-lt (base n server_to_client) (base-IsNonce n server_to_client h),
  ap value e,
)
