-- ===== src/Tests.antt =====
-- Test data: a toy cipher that keeps the laws of the crate, a key, a nonce, and a session.
pub mod Wire
pub mod Crypto
pub mod Server
pub mod Records
pub mod Local
pub mod Captures
use destiny1_pc_project.Prelude.{
  ℕ, ◌+◌, ◌-◌, ◌≡◌, Bool, true, false, refl, arith, Option, none, some, List, [], ◌∷◌, ◌++◌, length,
  take, length-append, take-append_length, codes, All, IsByte, ltb, ltb→lt, if◌then◌else◌,
  Bool-cases, inl, inr,
}
use destiny1_pc_project.Aead.{AesGcm, IsAead}
use destiny1_pc_project.Nonce.Value.{IsNonce}

abbrev pub toy_key : List ℕ
toy_key = 1 ∷ 2 ∷ 3 ∷ 4 ∷ 5 ∷ 6 ∷ 7 ∷ 8 ∷ 9 ∷ 10 ∷ 11 ∷ 12 ∷ 13 ∷ 14 ∷ 15 ∷ 16 ∷ []

abbrev pub toy_nonce : List ℕ
toy_nonce = 255 ∷ 2 ∷ 3 ∷ 4 ∷ 5 ∷ 6 ∷ 7 ∷ 8 ∷ 9 ∷ 10 ∷ 11 ∷ 12 ∷ []

abbrev pub are_bytes : List ℕ → Bool
are_bytes [] = true
are_bytes (b ∷ bs) = if ltb b 256 then are_bytes bs else false

pub bytes_of : (bs : List ℕ) → are_bytes bs ≡ true → All IsByte bs
bytes_of [] h = tt
bytes_of (b ∷ bs) h = elim (Bool-cases (ltb b 256)) [
  | inl e ↦ (ltb→lt b 256 e, bytes_of bs (ground arith))
  | inr e ↦ absurd (ground arith)
]

pub toy_nonce-IsNonce : IsNonce toy_nonce
toy_nonce-IsNonce = record { size = refl; bytes = bytes_of toy_nonce refl }

abbrev pub toy_tag : List ℕ
toy_tag = toy_key

-- A cipher that hides nothing: the message, then a fixed tag.
abbrev pub toy : AesGcm
toy = record {
  seal = λ key nonce aad msg. some (msg ++ toy_tag);
  unseal = λ key nonce aad sealed. some (take (length sealed - 16) sealed);
}

pub toy-IsAead : IsAead toy
toy-IsAead = record {
  length-seal = λ key nonce aad msg sealed e. ground (arith, length-append msg toy_tag);
  unseal-seal = λ key nonce aad msg sealed e. ground (
    arith,
    length-append msg toy_tag,
    take-append_length (length (msg ++ toy_tag) - 16) msg toy_tag,
  );
}
