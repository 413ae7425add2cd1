-- ===== src/Session/Errors.antt =====
-- Which inputs of `decode_frame` draw a nonce.
use destiny1_pc_project.Prelude.{
  ℕ, zero, suc, ◌+◌, ◌-◌, ◌≡◌, refl, Bool, false, not, ◌&&◌, List, [], ◌∷◌, arith, ltb, ◌==◌,
  if◌then◌else◌, length, is_empty, slice, get_or, take, drop, from_be, length-take, All, IsByte,
  IsU32, from_be-IsU32, Result, ok, err,
}
use destiny1_pc_project.Nonce.{NonceDirection}
use destiny1_pc_project.Context.{next_nonce}
use destiny1_pc_project.Aead.{AesGcm}
use destiny1_pc_project.Framing.{
  FramingError, BapFrame, FrameBody, bap_magic, kind_encrypted, from_u8, parse, parse_body,
}
use destiny1_pc_project.Session.{BapSession, decode_frame, decode_encrypted, decode_parsed}

-- A whole encrypted frame with at least one byte behind its tag, read off the bytes.
unfoldable pub draws : List ℕ → Bool
draws raw =
    ltb 22 (length raw)
    && get_or raw 0 0 == bap_magic
    && get_or raw 1 0 == kind_encrypted
    && 6 + from_be (slice raw 2 6) == length raw

-- The same, read off what the parser found.
abbrev draws_body : FrameBody → Bool
draws_body (FrameBody.clear c) = false
draws_body (FrameBody.encrypted e) = not (is_empty e.ciphertext)
draws_body (FrameBody.opaque b) = false

abbrev draws_outcome : ℕ → Result FramingError (BapFrame × ℕ) → Bool
draws_outcome size (err e) = false
draws_outcome size (ok (frame, consumed)) = consumed == size && draws_body frame.body

abbrev draws_parsed : Result FramingError FrameBody → Bool
draws_parsed (err e) = false
draws_parsed (ok body) = draws_body body

is_empty-drop : (n : ℕ) (xs : List ℕ) → not (is_empty (drop n xs)) ≡ ltb n (length xs)
is_empty-drop zero [] = refl
is_empty-drop zero (x ∷ xs) = ground arith
is_empty-drop (suc n) [] = ground arith
is_empty-drop (suc n) (x ∷ xs) = ground (arith, is_empty-drop n xs)

draws_parse_body :
    (kind : ℕ) (bytes : List ℕ)
    → draws_parsed (parse_body (from_u8 kind) bytes)
      ≡ (kind == kind_encrypted && ltb 16 (length bytes))
unfolding parse_body from_u8
draws_parse_body kind bytes = ground (arith, is_empty-drop 16 bytes)

-- The parser on a whole header, with the body still to be parsed.
parse_header :
    (a b c d x y : ℕ) (tl : List ℕ)
    → IsU32 (from_be (c ∷ d ∷ x ∷ y ∷ []))
    → let n = from_be (c ∷ d ∷ x ∷ y ∷ []) in
      draws_outcome (6 + length tl) (parse (a ∷ b ∷ c ∷ d ∷ x ∷ y ∷ tl))
      ≡ (a == bap_magic && n == length tl && draws_parsed (parse_body (from_u8 b) (take n tl)))
unfolding parse
parse_header a b c d x y tl h =
    let n = from_be (c ∷ d ∷ x ∷ y ∷ []) in let e : 6 + n - 6 ≡ n = omega arith in ground (arith, e)

draws-parse : (raw : List ℕ) → All IsByte raw → draws_outcome (length raw) (parse raw) ≡ draws raw
draws-parse [] h = unfold parse draws in refl
draws-parse (a ∷ []) h = unfold parse draws in refl
draws-parse (a ∷ b ∷ []) h = unfold parse draws in refl
draws-parse (a ∷ b ∷ c ∷ []) h = unfold parse draws in refl
draws-parse (a ∷ b ∷ c ∷ d ∷ []) h = unfold parse draws in refl
draws-parse (a ∷ b ∷ c ∷ d ∷ x ∷ []) h = unfold parse draws in refl
draws-parse (a ∷ b ∷ c ∷ d ∷ x ∷ y ∷ tl) h =
    let n = from_be (c ∷ d ∷ x ∷ y ∷ []) in
    let small : IsU32 n = omega (arith, from_be-IsU32 (c ∷ d ∷ x ∷ y ∷ [])) in
    unfold draws in
    ground
      (arith, parse_header a b c d x y tl small, draws_parse_body b (take n tl), length-take n tl)

module _ (cipher : AesGcm) where
  draws_decode :
      (s : BapSession) (direction : NonceDirection) (raw : List ℕ)
      → (decode_frame cipher s direction raw).0 ≡ (
          if draws_outcome (length raw) (parse raw)
          then record { crypto = (next_nonce s.crypto direction).0 }
          else s)
  unfolding decode_frame decode_parsed decode_encrypted
  draws_decode s direction raw = ground arith

  -- On an input of bytes, a decode draws one nonce of its direction exactly when the bytes are one whole encrypted frame
  -- with a non-empty ciphertext, decryptable or not; otherwise it leaves the session as it was.
  pub decode_frame-draws :
      (s : BapSession) (direction : NonceDirection) (raw : List ℕ)
      → All IsByte raw
      → (decode_frame cipher s direction raw).0
        ≡ (if draws raw then record { crypto = (next_nonce s.crypto direction).0 } else s)
  decode_frame-draws s direction raw h =
      ground (arith, draws_decode s direction raw, draws-parse raw h)
