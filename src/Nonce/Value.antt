-- ===== src/Nonce/Value.antt =====
-- `increment_nonce` on the number that a nonce stands for, lowest byte first.
use destiny1_pc_project.Prelude.{
  ℕ, zero, suc, ◌+◌, ◌*◌, ◌%◌, ◌<◌, ◌≡◌, refl, sym, ap, ap₂, ◌∙◌, ◌⊎◌, inl, inr, List, [], ◌∷◌,
  arith, length, All, IsByte,
}
use destiny1_pc_project.Nonce.{gcm_nonce_len, increment_nonce, nonce_after_increments}

-- An array of twelve bytes.
pub record IsNonce (nonce : List ℕ) : Type 0 where
  pub size : length nonce ≡ gcm_nonce_len
  pub bytes : All IsByte nonce

abbrev pub nonce_space : ℕ
nonce_space = 79228162514264337593543950336

-- The number that the bytes stand for, lowest byte first.
unfoldable pub value : List ℕ → ℕ
value [] = 0
value (b ∷ bs) = b + 256 * value bs

-- How many values a number of bytes has.
unfoldable pub space : ℕ → ℕ
space zero = 1
space (suc n) = 256 * space n

pub value-lt-space : (bs : List ℕ) → All IsByte bs → value bs < space (length bs)
unfolding value space
value-lt-space [] h = omega arith
value-lt-space (b ∷ bs) h = omega (arith, value-lt-space bs h.1)

pub length-increment : (bs : List ℕ) → length (increment_nonce bs) ≡ length bs
unfolding increment_nonce
length-increment [] = refl
length-increment (b ∷ bs) = ground (arith, length-increment bs)

pub All-increment : (bs : List ℕ) → All IsByte bs → All IsByte (increment_nonce bs)
unfolding increment_nonce
All-increment [] h = tt
All-increment (b ∷ bs) h = ground (arith, All-increment bs h.1)

-- One step: up by one, or from the last value back to zero.
value-increment :
    (bs : List ℕ)
    → All IsByte bs
    → (value (increment_nonce bs) ≡ value bs + 1)
      ⊎ ((value bs + 1 ≡ space (length bs)) × (value (increment_nonce bs) ≡ 0))
unfolding value space increment_nonce
value-increment [] h = inr (refl, refl)
value-increment (b ∷ bs) h = ground (arith, value-increment bs h.1)

value-injective :
    (xs ys : List ℕ)
    → length xs ≡ length ys
    → All IsByte xs
    → All IsByte ys
    → value xs ≡ value ys
    → xs ≡ ys
unfolding value
value-injective [] [] l hx hy e = refl
value-injective [] (y ∷ ys) l hx hy e = absurd (omega arith)
value-injective (x ∷ xs) [] l hx hy e = absurd (omega arith)
value-injective (x ∷ xs) (y ∷ ys) l hx hy e =
    ap₂ (λ a b. a ∷ b) (omega arith) (value-injective xs ys (omega arith) hx.1 hy.1 (omega arith))

pub IsNonce-increment : {nonce : List ℕ} → IsNonce nonce → IsNonce (increment_nonce nonce)
IsNonce-increment {nonce} h = record {
  size = length-increment nonce ∙ h.size;
  bytes = All-increment nonce h.bytes;
}

space_whole : (nonce : List ℕ) → IsNonce nonce → space (length nonce) ≡ nonce_space
space_whole nonce h = ap space h.size ∙ (unfold space in refl)

pub value-lt : (nonce : List ℕ) → IsNonce nonce → value nonce < nonce_space
value-lt nonce h = omega (arith, value-lt-space nonce h.bytes, space_whole nonce h)

pub value-increment_mod :
    (nonce : List ℕ)
    → IsNonce nonce
    → value (increment_nonce nonce) ≡ (value nonce + 1) % nonce_space
value-increment_mod nonce h = elim (value-increment nonce h.bytes) [
  | inl up ↦ omega (arith, value-lt (increment_nonce nonce) (IsNonce-increment h))
  | inr (top, zeroed) ↦ omega (arith, space_whole nonce h)
]

pub IsNonce-after :
    (nonce : List ℕ) (k : ℕ) → IsNonce nonce → IsNonce (nonce_after_increments nonce k)
unfolding nonce_after_increments
IsNonce-after nonce zero h = h
IsNonce-after nonce (suc k) h = IsNonce-after (increment_nonce nonce) k (IsNonce-increment h)

-- The loop adds its last round behind the others.
pub after_suc :
    (nonce : List ℕ) (k : ℕ)
    → nonce_after_increments nonce (suc k) ≡ increment_nonce (nonce_after_increments nonce k)
unfolding nonce_after_increments
after_suc nonce zero = refl
after_suc nonce (suc k) = after_suc (increment_nonce nonce) k

-- After `k` increments a nonce of twelve bytes stands for its first value plus `k`, modulo 2 ^ 96.
pub value-after :
    (nonce : List ℕ) (k : ℕ)
    → IsNonce nonce
    → value (nonce_after_increments nonce k) ≡ (value nonce + k) % nonce_space
value-after nonce zero h = unfold nonce_after_increments in omega (arith, value-lt nonce h)
value-after nonce (suc k) h = rw (after_suc nonce k) (
    omega (
      arith,
      value-increment_mod (nonce_after_increments nonce k) (IsNonce-after nonce k h),
      value-after nonce k h,
    ))

pub nonce_eq_of_value : (a b : List ℕ) → IsNonce a → IsNonce b → value a ≡ value b → a ≡ b
nonce_eq_of_value a b ha hb e = value-injective a b (ha.size ∙ sym hb.size) ha.bytes hb.bytes e

-- Within one cycle of 2 ^ 96 a direction never comes back to a nonce: two counts give the same
-- nonce exactly when they are the same count.
pub after-injective :
    (nonce : List ℕ) (i j : ℕ)
    → IsNonce nonce
    → i < nonce_space
    → j < nonce_space
    → nonce_after_increments nonce i ≡ nonce_after_increments nonce j
    → i ≡ j
after-injective nonce i j h hi hj e =
    omega (arith, value-after nonce i h, value-after nonce j h, ap value e, value-lt nonce h)
