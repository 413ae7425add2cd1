-- ===== src/Prelude/Parse.antt =====
-- Texts as Rust's standard library reads them: UTF-8, `trim`, `strip_prefix` and `from_str_radix`.
use Prim.Native.Nat.{ℕ, ◌+◌, ◌-◌, ◌*◌, ◌/◌, ◌%◌}
use mathlib.Core.Bool.{Bool, true, false, ◌&&◌, ◌||◌}
use mathlib.Core.Option.{Option, none, some}
use mathlib.Core.List.{List, [], ◌∷◌, ◌++◌}
use destiny1_pc_project.Prelude.Tests.{ltb, leb, ◌==◌, if◌then◌else◌}
use destiny1_pc_project.Prelude.Lists.{is_empty}
use destiny1_pc_project.Prelude.Results.{Result, ok, err}
use destiny1_pc_project.Prelude.Texts.{Text, codes}

-- The bytes of a code point.
abbrev pub utf8_char : ℕ → List ℕ
utf8_char c =
    if ltb c 128
    then c ∷ []
    else if ltb c 2048
    then (192 + c / 64) ∷ (128 + c % 64) ∷ []
    else if ltb c 65536
    then (224 + c / 4096) ∷ (128 + c / 64 % 64) ∷ (128 + c % 64) ∷ []
    else (240 + c / 262144) ∷ (128 + c / 4096 % 64) ∷ (128 + c / 64 % 64) ∷ (128 + c % 64) ∷ []

-- `as_bytes`, whose length is `len`.
abbrev pub utf8 : Text → List ℕ
utf8 [] = []
utf8 (c ∷ cs) = utf8_char c ++ utf8 cs

abbrev between : ℕ → ℕ → ℕ → Bool
between lo hi c = leb lo c && leb c hi

-- `char::is_whitespace`.
abbrev pub is_whitespace : ℕ → Bool
is_whitespace c =
    between 9 13 c
    || (c == 32
        || (c == 133
            || (c == 160
                || (c == 5760
                    || (between 8192 8202 c
                        || (between 8232 8233 c || (c == 8239 || (c == 8287 || c == 12288))))))))

abbrev pub trim_start : Text → Text
trim_start [] = []
trim_start (c ∷ cs) = let rest = trim_start cs in if is_whitespace c then rest else c ∷ cs

abbrev pub trim_end : Text → Text
trim_end [] = []
trim_end (c ∷ cs) =
    let rest = trim_end cs in if is_whitespace c && is_empty rest then [] else c ∷ rest

abbrev pub trim : Text → Text
trim s = trim_end (trim_start s)

abbrev pub strip_prefix : Text → Text → Option Text
strip_prefix [] s = some s
strip_prefix (p ∷ ps) [] = none
strip_prefix (p ∷ ps) (c ∷ cs) = let rest = strip_prefix ps cs in if p == c then rest else none

-- `char::to_digit(16)`.
abbrev pub hex_value : ℕ → Option ℕ
hex_value c =
    if between 48 57 c
    then some (c - 48)
    else if between 97 102 c
    then some (c - 87)
    else if between 65 70 c
    then some (c - 55)
    else none

-- `char::to_digit(10)`.
abbrev pub decimal_value : ℕ → Option ℕ
decimal_value c = if between 48 57 c then some (c - 48) else none

pub data ParseIntError : Type 0 where
  empty invalid_digit pos_overflow : ParseIntError

-- `Display` of `ParseIntError`.
unfoldable pub parse_int_text : ParseIntError → Text
parse_int_text empty = codes "cannot parse integer from empty string"
parse_int_text invalid_digit = codes "invalid digit found in string"
parse_int_text pos_overflow = codes "number too large to fit in target type"

-- The loop over the digits: a digit is read, then the product and the sum are checked.
unfoldable pub digits_value : (ℕ → Option ℕ) → ℕ → ℕ → ℕ → Text → Result ParseIntError ℕ
digits_value value radix limit acc [] = ok acc
digits_value value radix limit acc (c ∷ cs) = elim (value c) [
  | none ↦ err invalid_digit
  | some d ↦ elim (ltb limit (acc * radix + d)) [
    | true ↦ err pos_overflow
    | false ↦ digits_value value radix limit (acc * radix + d) cs
  ]
]

-- A sign alone is no number, a leading `+` is skipped.
unfoldable pub skip_plus : Text → Text
skip_plus [] = []
skip_plus (c ∷ []) = c ∷ []
skip_plus (c ∷ d ∷ cs) = if c == 43 then d ∷ cs else c ∷ d ∷ cs

-- `from_str_radix` of an unsigned type with the given greatest value, on the digits of the radix.
unfoldable pub from_str_radix : (ℕ → Option ℕ) → ℕ → ℕ → Text → Result ParseIntError ℕ
unfolding digits_value skip_plus
from_str_radix value radix limit [] = err empty
from_str_radix value radix limit (c ∷ cs) = digits_value value radix limit 0 (skip_plus (c ∷ cs))

-- `u8::from_str_radix(s, 16)`, `u16::from_str_radix(s, 16)` and `s.parse::<u16>()`.
unfoldable pub u8_from_hex : Text → Result ParseIntError ℕ
unfolding from_str_radix
u8_from_hex s = from_str_radix hex_value 16 255 s

unfoldable pub u16_from_hex : Text → Result ParseIntError ℕ
unfolding from_str_radix
u16_from_hex s = from_str_radix hex_value 16 65535 s

unfoldable pub u16_from_decimal : Text → Result ParseIntError ℕ
unfolding from_str_radix
u16_from_decimal s = from_str_radix decimal_value 10 65535 s

-- One line of `lines`: a carriage return at its end is dropped.
abbrev strip_return : Text → Text
strip_return [] = []
strip_return (c ∷ cs) =
    let rest = strip_return cs in if c == 13 && is_empty cs then [] else c ∷ rest

-- The lines, the last of them with no newline behind it; an empty last line is none.
unfoldable pub split_lines : Text → Text → List Text
split_lines line [] = if is_empty line then [] else line ∷ []
split_lines line (c ∷ cs) =
    let rest = split_lines (if c == 10 then [] else line ++ (c ∷ [])) cs in
    if c == 10 then strip_return line ∷ rest else rest

-- `str::lines`.
unfoldable pub lines : Text → List Text
unfolding split_lines
lines s = split_lines [] s
