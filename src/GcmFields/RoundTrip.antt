-- ===== src/GcmFields/RoundTrip.antt =====
-- Hex fields that were written by `{:02x}` are read back.
use destiny1_pc_project.Prelude.{
  ℕ, ◌*◌, ◌/◌, ◌%◌, ◌<◌, ◌≡◌, ◌≢◌, refl, ap, ◌∙◌, some, List, [], ◌∷◌, arith, length, All, IsByte,
  Text, hex_digit, utf8, trim, is_empty, codes, Result, ◌>>=◌, ◌>>◌, fail_if, not, ◌==◌, ok, false,
}
use destiny1_pc_project.LocalProtocol.{hex_encode}
use destiny1_pc_project.LocalProtocol.Hex.{
  IsPlain, hex_encode-IsPlain, length-hex_encode, trim_plain,
}
use destiny1_pc_project.GcmFields.{hex_nibble, nibble_pairs, decode_hex, decode_aad, decode_sized}

utf8_plain : (s : Text) → All IsPlain s → utf8 s ≡ s
utf8_plain [] h = refl
utf8_plain (c ∷ cs) (h, hs) = ground (arith, h.ascii, utf8_plain cs hs)

hex_nibble-hex_digit : (d : ℕ) → d < 16 → hex_nibble (hex_digit d) ≡ some d
unfolding hex_nibble
hex_nibble-hex_digit d h = ground arith

nibble_pairs-hex_encode : (bs : List ℕ) → All IsByte bs → nibble_pairs (hex_encode bs) ≡ some bs
unfolding hex_encode nibble_pairs
nibble_pairs-hex_encode [] h = refl
nibble_pairs-hex_encode (b ∷ bs) (h, hs) = ground (
  arith,
  hex_nibble-hex_digit (b / 16 % 16),
  hex_nibble-hex_digit (b % 16),
  nibble_pairs-hex_encode bs hs,
)

is_empty-hex_encode : (bs : List ℕ) → bs ≢ [] → is_empty (hex_encode bs) ≡ false
unfolding hex_encode
is_empty-hex_encode [] h = absurd (h refl)
is_empty-hex_encode (b ∷ bs) h = refl

pub is_empty-trim : (bs : List ℕ) → bs ≢ [] → is_empty (trim (hex_encode bs)) ≡ false
is_empty-trim bs n =
    ap is_empty (trim_plain (hex_encode bs) (hex_encode-IsPlain bs)) ∙ is_empty-hex_encode bs n

module _ {E : Type 0} (bad_hex : Text → ℕ → E) (empty_field : Text → E) where
  decode_plain :
      (field s t : Text) (bs : List ℕ)
      → trim s ≡ t
      → utf8 t ≡ t
      → is_empty t ≡ false
      → length t ≡ 2 * length bs
      → nibble_pairs t ≡ some bs
      → decode_hex bad_hex empty_field field s ≡ ok bs
  unfolding decode_hex
  decode_plain field s t bs e1 e2 e3 e4 e5 = ground (arith, e1, e2, e3, e4, e5)

  pub decode_hex-hex_encode :
      (field : Text) (bs : List ℕ)
      → All IsByte bs
      → bs ≢ []
      → decode_hex bad_hex empty_field field (hex_encode bs) ≡ ok bs
  decode_hex-hex_encode field bs h n =
      let plain = hex_encode-IsPlain bs in
      decode_plain field (hex_encode bs) (hex_encode bs) bs (trim_plain (hex_encode bs) plain)
        (utf8_plain (hex_encode bs) plain) (is_empty-hex_encode bs n) (length-hex_encode bs)
        (nibble_pairs-hex_encode bs h)

  pub decode_aad-hex_encode :
      (bs : List ℕ) → All IsByte bs → decode_aad bad_hex empty_field (hex_encode bs) ≡ ok bs
  unfolding decode_aad hex_encode
  decode_aad-hex_encode [] h = refl
  decode_aad-hex_encode (b ∷ bs) h =
      let plain = hex_encode-IsPlain (b ∷ bs) in
      ground (
        arith,
        trim_plain (hex_encode (b ∷ bs)) plain,
        decode_hex-hex_encode (codes "aad_hex") (b ∷ bs) h (λ e. cc),
      )

  pub decode_sized-hex_encode :
      (bad_field_len : Text → ℕ → ℕ → E) (field : Text) (size : ℕ) (bs : List ℕ)
      → All IsByte bs
      → length bs ≡ size
      → bs ≢ []
      → decode_sized bad_hex empty_field bad_field_len field size (hex_encode bs) ≡ ok bs
  unfolding decode_sized
  decode_sized-hex_encode bad_field_len field size bs h e n =
      let check = λ (bytes : List ℕ).
        fail_if (not (length bytes == size)) (bad_field_len field (length bytes) size) in
      ap (λ (r : Result E (List ℕ)). r >>= λ bytes. check bytes >> ok bytes)
        (decode_hex-hex_encode field bs h n)
      ∙ ground (arith, e)
