-- ===== src/Framing/Sequence.antt =====
-- `BapFrame::parse_all`: its loop, and runs of serialized frames.
use destiny1_pc_project.Prelude.{
  ℕ, zero, suc, ◌+◌, ◌≤◌, ◌≡◌, ◌≢◌, refl, sym, ap, inl, inr, false, List, [], ◌∷◌, ◌++◌, arith,
  ◌==◌, length, drop, All, length-drop, drop-append_length, append-nil, append_assoc, Result, ok,
  err, ◌>>=◌, Result-cases, if◌then◌else◌, is_empty, get_or,
}
use destiny1_pc_project.Framing.{
  FramingError, BapFrame, bap_magic, header_len, parse, parse_all_loop, parse_all, serialize_body,
}
use destiny1_pc_project.Framing.Bounds.{parse_bounds}
use destiny1_pc_project.Framing.RoundTrip.{FitsWire, wire, parse-wire}

-- Any two amounts of fuel that cover the input give the same answer.
loop_fuel :
    (f g : ℕ) (input : List ℕ) (frames : List BapFrame)
    → length input ≤ f
    → length input ≤ g
    → parse_all_loop f input frames ≡ parse_all_loop g input frames
unfolding parse_all_loop
loop_fuel f g [] frames hf hg = ground arith
loop_fuel zero g (b ∷ bs) frames hf hg = absurd (omega arith)
loop_fuel (suc f) zero (b ∷ bs) frames hf hg = absurd (omega arith)
loop_fuel (suc f) (suc g) (b ∷ bs) frames hf hg = elim (Result-cases (parse (b ∷ bs))) [
  | inr (e, p) ↦ ground arith
  | inl ((frame, n), p) ↦ ground (
    arith,
    parse_bounds (b ∷ bs) frame n p,
    length-drop n (b ∷ bs),
    loop_fuel f g (drop n (b ∷ bs)) (frames ++ (frame ∷ [])),
  )
]

abbrev pub after :
    List BapFrame → Result FramingError (List BapFrame) → Result FramingError (List BapFrame)
after frames r = r >>= λ more. ok (frames ++ more)

after-after :
    (fs gs : List BapFrame) (r : Result FramingError (List BapFrame))
    → after fs (after gs r) ≡ after (fs ++ gs) r
after-after fs gs (ok hs) = ap ok (sym (append_assoc fs gs hs))
after-after fs gs (err e) = refl

-- The frames found so far stand in front of those still to come.
loop_frames :
    (f : ℕ) (input : List ℕ) (frames : List BapFrame)
    → parse_all_loop f input frames ≡ after frames (parse_all_loop f input [])
unfolding parse_all_loop
loop_frames f [] frames = ground (arith, append-nil frames)
loop_frames zero (b ∷ bs) frames = ground (arith, append-nil frames)
loop_frames (suc f) (b ∷ bs) frames = elim (Result-cases (parse (b ∷ bs))) [
  | inr (e, p) ↦ ground (arith, append-nil frames)
  | inl ((frame, n), p) ↦ ground (
    arith,
    append-nil frames,
    loop_frames f (drop n (b ∷ bs)) (frames ++ (frame ∷ [])),
    loop_frames f (drop n (b ∷ bs)) (frame ∷ []),
    after-after frames (frame ∷ []) (parse_all_loop f (drop n (b ∷ bs)) []),
  )
]

-- The `while` loop's equation, with no fuel in it: stop at the end or at a byte that is no magic,
-- else parse one frame and go on behind it.
parse_all_lem :
    (input : List ℕ)
    → parse_all input ≡ (
        if is_empty input
        then ok []
        else if get_or input 0 0 == bap_magic
        then (do (frame, n) ← parse input; after (frame ∷ []) (parse_all (drop n input)))
        else ok [])
unfolding parse_all parse_all_loop
parse_all_lem [] = refl
parse_all_lem (b ∷ bs) = elim (Result-cases (parse (b ∷ bs))) [
  | inr (e, p) ↦ ground arith
  | inl ((frame, n), p) ↦ ground (
    arith,
    parse_bounds (b ∷ bs) frame n p,
    length-drop n (b ∷ bs),
    loop_frames (length bs) (drop n (b ∷ bs)) (frame ∷ []),
    loop_fuel (length bs) (length (drop n (b ∷ bs))) (drop n (b ∷ bs)) [],
  )
]

-- Where `parse_all` stops: at the end, or before a byte that is not the magic.
abbrev pub Stops : List ℕ → Type 0
Stops [] = Unit
Stops (b ∷ bs) = b ≢ bap_magic

pub wires : List BapFrame → List ℕ
wires [] = []
wires (frame ∷ frames) = wire frame ++ wires frames

wire_size :
    (frame : BapFrame) → length (wire frame) ≡ header_len + length (serialize_body frame.body)
unfolding wire
wire_size frame = omega arith

wire_magic :
    (frame : BapFrame) (rest : List ℕ)
    → (get_or (wire frame ++ rest) 0 0 ≡ bap_magic) × (is_empty (wire frame ++ rest) ≡ false)
unfolding wire
wire_magic frame rest = (refl, refl)

parse_all_step :
    (frame : BapFrame) (rest : List ℕ)
    → FitsWire frame
    → parse_all (wire frame ++ rest) ≡ after (frame ∷ []) (parse_all rest)
parse_all_step frame rest h = ground (
  arith,
  parse_all_lem (wire frame ++ rest),
  wire_magic frame rest,
  parse-wire frame rest h,
  drop-append_length (header_len + length (serialize_body frame.body)) (wire frame) rest
      (sym (wire_size frame)),
)

-- `parse_all` reads back every frame of a run of serialized frames, in order, and stops at the
-- first byte behind them that is no magic.
pub parse_all-wires :
    (frames : List BapFrame) (tail : List ℕ)
    → All FitsWire frames
    → Stops tail
    → parse_all (wires frames ++ tail) ≡ ok frames
unfolding wires
parse_all-wires [] [] h s = parse_all_lem []
parse_all-wires [] (b ∷ bs) h s = ground (arith, parse_all_lem (b ∷ bs))
parse_all-wires (frame ∷ frames) tail h s = ground (
  arith,
  append_assoc (wire frame) (wires frames) tail,
  parse_all_step frame (wires frames ++ tail) h.0,
  parse_all-wires frames tail h.1 s,
)
