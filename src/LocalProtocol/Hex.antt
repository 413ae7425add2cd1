-- ===== src/LocalProtocol/Hex.antt =====
-- The hex texts of the fixtures, encoded and decoded.
use destiny1_pc_project.Prelude.{
  ℕ, ◌*◌, ◌/◌, ◌%◌, ◌<◌, ◌≡◌, refl, false, some, List, [], ◌∷◌, arith, length, All, IsByte, Text,
  hex_digit, hex02, utf8, is_whitespace, trim_end, trim, hex_value, digits_value, skip_plus,
  from_str_radix, u8_from_hex, ok, returns,
}
use destiny1_pc_project.LocalProtocol.{hex_encode, hex_pairs, push_byte, hex_decode}

-- A character of one byte that `trim` leaves alone.
pub record IsPlain (c : ℕ) : Type 0 where
  pub ascii : c < 128
  pub dark : is_whitespace c ≡ false

pub hex_digit-IsPlain : (d : ℕ) → d < 16 → IsPlain (hex_digit d)
hex_digit-IsPlain d h = record { ascii = ground arith; dark = ground arith }

trim_end_plain : (s : Text) → All IsPlain s → trim_end s ≡ s
trim_end_plain [] h = refl
trim_end_plain (c ∷ cs) (h, hs) = ground (arith, h.dark, trim_end_plain cs hs)

pub trim_plain : (s : Text) → All IsPlain s → trim s ≡ s
trim_plain [] h = refl
trim_plain (c ∷ cs) (h, hs) = ground (arith, h.dark, trim_end_plain cs hs)

pub length-utf8_plain : (s : Text) → All IsPlain s → length (utf8 s) ≡ length s
length-utf8_plain [] h = refl
length-utf8_plain (c ∷ cs) (h, hs) = ground (arith, h.ascii, length-utf8_plain cs hs)

hex_value-hex_digit : (d : ℕ) → d < 16 → hex_value (hex_digit d) ≡ some d
hex_value-hex_digit d h = ground arith

pub u8_from_hex-hex02 : (b : ℕ) → IsByte b → u8_from_hex (hex02 b) ≡ ok b
unfolding u8_from_hex from_str_radix digits_value skip_plus
u8_from_hex-hex02 b h =
    ground (arith, hex_value-hex_digit (b / 16 % 16), hex_value-hex_digit (b % 16))

pub hex_encode-IsPlain : (bs : List ℕ) → All IsPlain (hex_encode bs)
unfolding hex_encode
hex_encode-IsPlain [] = tt
hex_encode-IsPlain (b ∷ bs) = (
  hex_digit-IsPlain (b / 16 % 16) (omega arith),
  (hex_digit-IsPlain (b % 16) (omega arith), hex_encode-IsPlain bs),
)

pub length-hex_encode : (bs : List ℕ) → length (hex_encode bs) ≡ 2 * length bs
unfolding hex_encode
length-hex_encode [] = omega arith
length-hex_encode (b ∷ bs) = omega (arith, length-hex_encode bs)

hex_pairs-hex_encode : (bs : List ℕ) → All IsByte bs → hex_pairs (hex_encode bs) ≡ returns (ok bs)
unfolding hex_encode hex_pairs push_byte
hex_pairs-hex_encode [] h = refl
hex_pairs-hex_encode (b ∷ bs) (h, hs) =
    ground (arith, u8_from_hex-hex02 b h, hex_pairs-hex_encode bs hs)

-- Bytes written as hex text are read back.
pub hex_decode-hex_encode :
    (bs : List ℕ) → All IsByte bs → hex_decode (hex_encode bs) ≡ returns (ok bs)
unfolding hex_decode
hex_decode-hex_encode bs h =
    let plain = hex_encode-IsPlain bs in
    ground (
      arith,
      trim_plain (hex_encode bs) plain,
      length-utf8_plain (hex_encode bs) plain,
      length-hex_encode bs,
      hex_pairs-hex_encode bs h,
    )
