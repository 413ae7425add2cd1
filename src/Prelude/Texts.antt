-- ===== src/Prelude/Texts.antt =====
-- Rust text as its list of code points. `codes` turns a quoted text into that list.
use Prim.Native.Nat.{ℕ, zero, suc, ◌+◌, ◌/◌, ◌%◌}
use Prim.Native.Char.{code}
use Prim.Native.String.{String}
use mathlib.Core.List.{List, [], ◌∷◌}
use mathlib.Core.Path.{◌≡◌, refl}
use mathlib.Core.Logic.{inl, inr}
use mathlib.Core.Bool.{Bool, true, false, ◌&&◌}
use native.Mathlib.Omega.{arith}
use destiny1_pc_project.Prelude.Lists.{length}
use destiny1_pc_project.Prelude.Tests.{ltb, ◌==◌, ==→eq, Bool-cases, if◌then◌else◌}

abbrev pub Text : Type 0
Text = List ℕ

abbrev pub codes : String → Text
codes String.[] = []
codes (String.◌∷◌ c s) = code c ∷ codes s

-- `==` of two texts or of two byte strings.
abbrev pub text_eq : List ℕ → List ℕ → Bool
text_eq [] [] = true
text_eq [] (y ∷ ys) = false
text_eq (x ∷ xs) [] = false
text_eq (x ∷ xs) (y ∷ ys) = x == y && text_eq xs ys

pub text_eq_refl : (xs : List ℕ) → text_eq xs xs ≡ true
text_eq_refl [] = refl
text_eq_refl (x ∷ xs) = ground (arith, text_eq_refl xs)

pub eq_of_text_eq : (xs ys : List ℕ) → text_eq xs ys ≡ true → xs ≡ ys
eq_of_text_eq [] [] h = refl
eq_of_text_eq [] (y ∷ ys) h = absurd (ground arith)
eq_of_text_eq (x ∷ xs) [] h = absurd (ground arith)
eq_of_text_eq (x ∷ xs) (y ∷ ys) h = elim (Bool-cases (x == y)) [
  | inl e ↦ ground (arith, ==→eq x y e, eq_of_text_eq xs ys)
  | inr e ↦ absurd (ground arith)
]

-- A digit of `{:x}`: 0-9, a-f.
abbrev pub hex_digit : ℕ → ℕ
hex_digit d = if ltb d 10 then d + 48 else d + 87

-- `{:02x}` of a `u8` and `{:04x}` of a `u16`.
abbrev pub hex02 : ℕ → Text
hex02 b = hex_digit (b / 16 % 16) ∷ hex_digit (b % 16) ∷ []

abbrev pub hex04 : ℕ → Text
hex04 n =
    hex_digit (n / 4096 % 16)
    ∷ hex_digit (n / 256 % 16)
    ∷ hex_digit (n / 16 % 16)
    ∷ hex_digit (n % 16)
    ∷ []

-- `{}` of an unsigned number of at most 20 digits, so of every `u64`.
decimal_loop : ℕ → ℕ → Text → Text
decimal_loop zero n digits = digits
decimal_loop (suc rounds) n digits =
    let rest = decimal_loop rounds (n / 10) ((n % 10 + 48) ∷ digits) in
    if ltb n 10 then (n + 48) ∷ digits else rest

unfoldable pub decimal : ℕ → Text
unfolding decimal_loop
decimal n = decimal_loop 20 n []

-- `{:x}` of an unsigned number of at most 16 digits, so of every `u64`.
hex_loop : ℕ → ℕ → Text → Text
hex_loop zero n digits = digits
hex_loop (suc rounds) n digits =
    let rest = hex_loop rounds (n / 16) (hex_digit (n % 16) ∷ digits) in
    if ltb n 16 then hex_digit n ∷ digits else rest

unfoldable pub hex : ℕ → Text
unfolding hex_loop
hex n = hex_loop 16 n []

-- Zeros in front up to the width: `{:02}` and `{:03}`.
unfoldable pub pad_zeros : ℕ → Text → Text
pad_zeros zero text = text
pad_zeros (suc width) text =
    let rest = pad_zeros width text in if ltb width (length text) then text else 48 ∷ rest
