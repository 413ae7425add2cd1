-- ===== src/Stream/Drain.antt =====
-- The loop of `drain_complete`, round by round.
use destiny1_pc_project.Prelude.{
  ℕ, zero, suc, ◌+◌, ◌≤◌, ◌<◌, ◌≡◌, refl, ap, ◌⊎◌, inl, inr, List, [], ◌∷◌, ◌++◌, arith, length,
  take, drop, slice, length-append, length-take, length-drop, take-append-drop, take-append_le,
  drop-append_le, Result, ok, err, from_be,
}
use destiny1_pc_project.Framing.{kind_clear, kind_encrypted}
use destiny1_pc_project.Stream.{
  StreamFramingError, RawBapFrame, Carve, wait, fail, frame, carve, drain_loop, drain,
  stream_header_len,
}

pub Carve-cases :
    (c : Carve)
    → (c ≡ wait)
      ⊎ ((e : StreamFramingError) × (c ≡ fail e))
      ⊎ ((f : RawBapFrame) × (rest : List ℕ) × (c ≡ frame f rest))
Carve-cases wait = inl refl
Carve-cases (fail e) = inr (inl (e, refl))
Carve-cases (frame f rest) = inr (inr (f, rest, refl))

-- What a carved frame is.
pub record Carved (max_body_len : ℕ) (buf : List ℕ) (f : RawBapFrame) (rest : List ℕ) : Type 0 where
  pub kind_known : (f.kind ≡ kind_encrypted) ⊎ (f.kind ≡ kind_clear)
  pub body_fits : length f.body ≤ max_body_len
  pub size : length f.raw_bytes ≡ stream_header_len + length f.body
  pub body_behind : drop stream_header_len f.raw_bytes ≡ f.body
  pub split : f.raw_bytes ++ rest ≡ buf

pub carve-Carved :
    (max_body_len : ℕ) (buf : List ℕ) (f : RawBapFrame) (rest : List ℕ)
    → carve max_body_len buf ≡ frame f rest
    → Carved max_body_len buf f rest
unfolding carve
carve-Carved max_body_len buf f rest h = ground (
  arith,
  length-take (6 + from_be (slice buf 2 6)) buf,
  length-drop 6 (take (6 + from_be (slice buf 2 6)) buf),
  take-append-drop (6 + from_be (slice buf 2 6)) buf,
)

-- Bytes behind the buffer do not change a round that took a frame or found an error.
pub carve-append_frame :
    (max_body_len : ℕ) (buf more : List ℕ) (f : RawBapFrame) (rest : List ℕ)
    → carve max_body_len buf ≡ frame f rest
    → carve max_body_len (buf ++ more) ≡ frame f (rest ++ more)
unfolding carve
carve-append_frame max_body_len [] more f rest h = cc
carve-append_frame max_body_len (a ∷ []) more f rest h = cc
carve-append_frame max_body_len (a ∷ b ∷ []) more f rest h = cc
carve-append_frame max_body_len (a ∷ b ∷ c ∷ []) more f rest h = cc
carve-append_frame max_body_len (a ∷ b ∷ c ∷ d ∷ []) more f rest h = cc
carve-append_frame max_body_len (a ∷ b ∷ c ∷ d ∷ x ∷ []) more f rest h = cc
carve-append_frame max_body_len (a ∷ b ∷ c ∷ d ∷ x ∷ y ∷ tl) more f rest h =
    let n = stream_header_len + from_be (c ∷ d ∷ x ∷ y ∷ []) in
    let buf : List ℕ = a ∷ b ∷ c ∷ d ∷ x ∷ y ∷ tl in
    ground (arith, length-append tl more, take-append_le n buf more, drop-append_le n buf more)

pub carve-append_fail :
    (max_body_len : ℕ) (buf more : List ℕ) (e : StreamFramingError)
    → carve max_body_len buf ≡ fail e
    → carve max_body_len (buf ++ more) ≡ fail e
unfolding carve
carve-append_fail max_body_len [] more e h = cc
carve-append_fail max_body_len (a ∷ []) more e h = cc
carve-append_fail max_body_len (a ∷ b ∷ []) more e h = cc
carve-append_fail max_body_len (a ∷ b ∷ c ∷ []) more e h = cc
carve-append_fail max_body_len (a ∷ b ∷ c ∷ d ∷ []) more e h = cc
carve-append_fail max_body_len (a ∷ b ∷ c ∷ d ∷ x ∷ []) more e h = cc
carve-append_fail max_body_len (a ∷ b ∷ c ∷ d ∷ x ∷ y ∷ tl) more e h = ground arith

-- A frame leaves a shorter buffer.
pub carve_shrinks :
    (max_body_len : ℕ) (buf : List ℕ) (f : RawBapFrame) (rest : List ℕ)
    → carve max_body_len buf ≡ frame f rest
    → length rest < length buf
carve_shrinks max_body_len buf f rest h =
    let found = carve-Carved max_body_len buf f rest h in
    omega (arith, found.size, ap length found.split, length-append f.raw_bytes rest)

loop_fuel :
    (f g max_body_len : ℕ) (buf : List ℕ) (out : List RawBapFrame)
    → length buf ≤ f
    → length buf ≤ g
    → drain_loop f max_body_len buf out ≡ drain_loop g max_body_len buf out
unfolding drain_loop
loop_fuel zero zero max_body_len buf out hf hg = refl
loop_fuel zero (suc g) max_body_len [] out hf hg = unfold carve in refl
loop_fuel zero (suc g) max_body_len (b ∷ bs) out hf hg = absurd (omega arith)
loop_fuel (suc f) zero max_body_len [] out hf hg = unfold carve in refl
loop_fuel (suc f) zero max_body_len (b ∷ bs) out hf hg = absurd (omega arith)
loop_fuel (suc f) (suc g) max_body_len buf out hf hg = elim (Carve-cases (carve max_body_len buf)) [
  | inl w ↦ ground arith
  | inr (inl (e, w)) ↦ ground arith
  | inr (inr (r, rest, w)) ↦ ground (
    arith,
    carve_shrinks max_body_len buf r rest w,
    loop_fuel f g max_body_len rest (out ++ (r ∷ [])),
  )
]

-- What the loop does after a round, with no fuel in it.
abbrev pub drain_step :
    ℕ → List ℕ → List RawBapFrame → Carve → List ℕ × Result StreamFramingError (List RawBapFrame)
drain_step max_body_len buf out wait = (buf, ok out)
drain_step max_body_len buf out (fail e) = (buf, err e)
drain_step max_body_len buf out (frame f rest) = drain max_body_len rest (out ++ (f ∷ []))

pub drain_lem :
    (max_body_len : ℕ) (buf : List ℕ) (out : List RawBapFrame)
    → drain max_body_len buf out ≡ drain_step max_body_len buf out (carve max_body_len buf)
unfolding drain drain_loop
drain_lem max_body_len [] out = unfold carve in refl
drain_lem max_body_len (b ∷ bs) out = elim (Carve-cases (carve max_body_len (b ∷ bs))) [
  | inl w ↦ ground arith
  | inr (inl (e, w)) ↦ ground arith
  | inr (inr (r, rest, w)) ↦ ground (
    arith,
    carve_shrinks max_body_len (b ∷ bs) r rest w,
    loop_fuel (length bs) (length rest) max_body_len rest (out ++ (r ∷ [])),
  )
]
