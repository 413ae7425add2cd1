-- ===== src/Framing/Bounds.antt =====
-- The bounds and the errors of `BapFrame::parse`.
use destiny1_pc_project.Prelude.{
  ℕ, ◌-◌, ◌≤◌, ◌≡◌, ◌≢◌, List, [], ◌∷◌, ◌++◌, arith, length, All, IsByte, length-append,
  take-append_le, ok, err,
}
use destiny1_pc_project.Framing.{length_overflow, BapFrame, header_len, parse_body, parse}

-- A parsed frame takes the six header bytes at least, and never more than there are.
pub parse_bounds :
    (input : List ℕ) (frame : BapFrame) (n : ℕ)
    → parse input ≡ ok (frame, n)
    → (header_len ≤ n) × (n ≤ length input)
unfolding parse
parse_bounds input frame n h = ground arith

-- On 64-bit targets `header + body_len` fits a `usize`: no input of bytes makes `parse` report a
-- length overflow.
pub parse-ne-length_overflow :
    (input : List ℕ) → All IsByte input → parse input ≢ err length_overflow
unfolding parse parse_body
parse-ne-length_overflow [] h e = cc
parse-ne-length_overflow (a ∷ []) h e = cc
parse-ne-length_overflow (a ∷ b ∷ []) h e = cc
parse-ne-length_overflow (a ∷ b ∷ c ∷ []) h e = cc
parse-ne-length_overflow (a ∷ b ∷ c ∷ d ∷ []) h e = cc
parse-ne-length_overflow (a ∷ b ∷ c ∷ d ∷ x ∷ []) h e = cc
parse-ne-length_overflow (a ∷ b ∷ c ∷ d ∷ x ∷ y ∷ rest) h e = ground arith

-- More bytes behind a complete frame do not change what `parse` finds.
pub parse-append :
    (input rest : List ℕ) (frame : BapFrame) (n : ℕ)
    → parse input ≡ ok (frame, n)
    → parse (input ++ rest) ≡ ok (frame, n)
unfolding parse
parse-append [] rest frame n h = ground arith
parse-append (a ∷ []) rest frame n h = ground arith
parse-append (a ∷ b ∷ []) rest frame n h = ground arith
parse-append (a ∷ b ∷ c ∷ []) rest frame n h = ground arith
parse-append (a ∷ b ∷ c ∷ d ∷ []) rest frame n h = ground arith
parse-append (a ∷ b ∷ c ∷ d ∷ x ∷ []) rest frame n h = ground arith
parse-append (a ∷ b ∷ c ∷ d ∷ x ∷ y ∷ tl) rest frame n h =
    ground (arith, length-append tl rest, take-append_le (n - 6) tl rest)
