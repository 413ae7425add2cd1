-- ===== src/Tests/Wire.antt =====
-- Runs of the wire formats' theorems.
use destiny1_pc_project.Prelude.{
  ℕ, ◌≡◌, refl, inr, arith, List, [], ◌∷◌, ◌++◌, length, take, All, ok, err,
}
use destiny1_pc_project.Tests.{bytes_of, toy_key}
use destiny1_pc_project.Framing
use destiny1_pc_project.Framing.{
  BapFrame, FrameKind, FrameBody, clear_frame, encrypted_frame, parse, parse_all, serialize,
  header_len, length_overflow, bap_magic,
}
use destiny1_pc_project.Framing.RoundTrip.{FitsWire, parse-serialize, serialize-parse}
use destiny1_pc_project.Framing.Sequence.{wires, parse_all-wires}
use destiny1_pc_project.Stream
use destiny1_pc_project.Stream.{
  BapStreamDecoder, RawBapFrame, StreamFramingError, frame_too_large, push,
}
use destiny1_pc_project.Stream.Chunks.{push_all, push_all-concat}
use destiny1_pc_project.Stream.Exact.{
  raws, IsCarved, raw_frame, Fits, push_exact, push-raws, push-raws_error, push-default,
}

-- A clear frame: id 0x1E, context 1, two payload bytes; and its bytes.
abbrev hello : BapFrame
hello = clear_frame 0x1E 1 (7 ∷ 8 ∷ [])

abbrev hello_bytes : List ℕ
hello_bytes = 1 ∷ 2 ∷ 0 ∷ 0 ∷ 0 ∷ 8 ∷ 0 ∷ 0x1E ∷ 0 ∷ 0 ∷ 0 ∷ 1 ∷ 7 ∷ 8 ∷ []

hello_parses : parse hello_bytes ≡ ok (hello, 14)
unfolding parse Framing.parse_body Framing.from_u8 clear_frame
hello_parses = refl

hello_serializes : serialize hello ≡ ok hello_bytes
unfolding serialize Framing.serialize_body clear_frame Framing.as_u8
hello_serializes = refl

hello_fits : FitsWire hello
unfolding clear_frame
hello_fits = (omega arith, omega arith, omega arith)

parse-serialize_example : parse (hello_bytes ++ (9 ∷ [])) ≡ ok (hello, length hello_bytes)
parse-serialize_example = parse-serialize hello (9 ∷ []) hello_bytes hello_fits hello_serializes

serialize-parse_example : serialize hello ≡ ok (take 14 hello_bytes)
serialize-parse_example =
    serialize-parse hello_bytes hello 14 (bytes_of hello_bytes refl) hello_parses

abbrev sealed_frame : BapFrame
sealed_frame = encrypted_frame toy_key (5 ∷ 6 ∷ [])

sealed_fits : FitsWire sealed_frame
unfolding encrypted_frame
sealed_fits = (refl, omega arith)

parse_all-wires_example :
    parse_all (wires (hello ∷ sealed_frame ∷ hello ∷ []) ++ (0 ∷ 1 ∷ []))
    ≡ ok (hello ∷ sealed_frame ∷ hello ∷ [])
parse_all-wires_example =
    parse_all-wires (hello ∷ sealed_frame ∷ hello ∷ []) (0 ∷ 1 ∷ [])
      (hello_fits, (sealed_fits, (hello_fits, tt))) (omega arith)

-- A decoder with room for the frames below.
abbrev fresh : BapStreamDecoder
fresh = record { buf = []; max_body_len = 64 }

abbrev hello_raw : RawBapFrame
hello_raw = raw_frame 2 (0 ∷ 0x1E ∷ 0 ∷ 0 ∷ 0 ∷ 1 ∷ 7 ∷ 8 ∷ [])

hello_raw-Fits : Fits 64 hello_raw
unfolding raw_frame
hello_raw-Fits = record {
  kind_known = inr refl;
  body_fits = omega arith;
  body_u32 = omega arith;
  framed = refl;
}

push_all-concat_example :
    (push_all fresh ((1 ∷ 2 ∷ 0 ∷ []) ∷ (0 ∷ 0 ∷ 1 ∷ 9 ∷ 1 ∷ []) ∷ []) []).1
    ≡ (push fresh (1 ∷ 2 ∷ 0 ∷ 0 ∷ 0 ∷ 1 ∷ 9 ∷ 1 ∷ [])).1
push_all-concat_example =
    push_all-concat fresh ((1 ∷ 2 ∷ 0 ∷ []) ∷ (0 ∷ 0 ∷ 1 ∷ 9 ∷ 1 ∷ []) ∷ [])
      (unfold Stream.carve in refl)

push_exact_example :
    (raws (hello_raw ∷ []) ++ (1 ∷ 2 ∷ []) ≡ [] ++ (hello_bytes ++ (1 ∷ 2 ∷ [])))
    × All (IsCarved 64) (hello_raw ∷ [])
push_exact_example =
    push_exact fresh (record { buf = 1 ∷ 2 ∷ []; max_body_len = 64 }) (hello_bytes ++ (1 ∷ 2 ∷ []))
      (hello_raw ∷ []) (unfold push raw_frame Stream.drain Stream.drain_loop Stream.carve in refl)

push-raws_example :
    push fresh (raws (hello_raw ∷ hello_raw ∷ []) ++ (1 ∷ 1 ∷ []))
    ≡ (record { buf = 1 ∷ 1 ∷ []; max_body_len = 64 }, ok (hello_raw ∷ hello_raw ∷ []))
push-raws_example =
    push-raws fresh (hello_raw ∷ hello_raw ∷ []) (1 ∷ 1 ∷ []) refl
      (hello_raw-Fits, (hello_raw-Fits, tt)) (unfold Stream.carve in refl)

push-raws_error_example :
    push fresh (raws (hello_raw ∷ []) ++ (3 ∷ 2 ∷ 0 ∷ 0 ∷ 0 ∷ 0 ∷ []))
    ≡ (record { buf = 3 ∷ 2 ∷ 0 ∷ 0 ∷ 0 ∷ 0 ∷ []; max_body_len = 64 }, err (Stream.invalid_magic 3))
push-raws_error_example =
    push-raws_error fresh (hello_raw ∷ []) (3 ∷ 2 ∷ 0 ∷ 0 ∷ 0 ∷ 0 ∷ []) (Stream.invalid_magic 3)
      refl (hello_raw-Fits, tt) (unfold Stream.carve in refl)

push-default_example :
    (push Stream.default ((raw_frame 2 (5 ∷ [])).raw_bytes ++ (1 ∷ []))).1 ≡ err (frame_too_large 1)
push-default_example = push-default 2 (5 ∷ []) (1 ∷ []) (inr refl) (omega arith) (omega arith)
