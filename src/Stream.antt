-- ===== src/Stream.antt =====
-- network/src/stream_framing.rs: frames carved incrementally out of a byte stream.
pub mod Drain
pub mod Chunks
pub mod Exact
use destiny1_pc_project.Prelude.{
  ℕ, zero, suc, ◌+◌, Bool, true, false, not, ◌&&◌, List, [], ◌∷◌, ◌++◌, ltb, ◌==◌, if◌then◌else◌,
  length, is_empty, take, drop, slice, get_or, from_be, Result, ok, err,
}
use destiny1_pc_project.Framing.{bap_magic, kind_clear, kind_encrypted}

abbrev pub stream_header_len : ℕ
stream_header_len = 6

abbrev pub default_max_body_len : ℕ
default_max_body_len = 4194304

pub data StreamFramingError : Type 0 where
  invalid_magic : ℕ → StreamFramingError
  invalid_kind : ℕ → StreamFramingError
  frame_too_large : ℕ → StreamFramingError
  incomplete_at_end : ℕ → StreamFramingError

pub record RawBapFrame : Type 0 where
  pub kind : ℕ
  pub body : List ℕ
  pub raw_bytes : List ℕ

pub record BapStreamDecoder : Type 0 where
  pub buf : List ℕ
  pub max_body_len : ℕ

unfoldable pub new : BapStreamDecoder
new = record { buf = []; max_body_len = default_max_body_len }

unfoldable pub with_max_body_len : ℕ → BapStreamDecoder
with_max_body_len max_body_len = record { buf = []; max_body_len = max_body_len }

-- `#[derive(Default)]`: every field at its own default.
unfoldable pub default : BapStreamDecoder
default = record { buf = []; max_body_len = 0 }

unfoldable pub buffered_len : BapStreamDecoder → ℕ
buffered_len d = length d.buf

unfoldable pub reset : BapStreamDecoder → BapStreamDecoder
reset d = record d { buf = [] }

-- One round of the loop of `drain_complete`: it breaks to wait for more bytes, returns an error, or
-- takes one frame off the buffer.
pub data Carve : Type 0 where
  wait : Carve
  fail : StreamFramingError → Carve
  frame : RawBapFrame → List ℕ → Carve

unfoldable pub carve : ℕ → List ℕ → Carve
carve max_body_len buf =
    if ltb (length buf) stream_header_len
    then wait
    else let magic = get_or buf 0 0 in
      let kind = get_or buf 1 0 in
      let body_len = from_be (slice buf 2 6) in
      let total = stream_header_len + body_len in
      if not (magic == bap_magic)
      then fail (invalid_magic magic)
      else if not (kind == kind_encrypted) && not (kind == kind_clear)
      then fail (invalid_kind kind)
      else if ltb max_body_len body_len
      then fail (frame_too_large body_len)
      else if ltb (length buf) total
      then wait
      else frame
          (record {
            kind = kind;
            body = drop stream_header_len (take total buf);
            raw_bytes = take total buf;
          })
          (drop total buf)

-- The loop: the buffer that is left, and the frames or the error. A round takes six bytes at least.
unfoldable pub drain_loop :
    ℕ → ℕ → List ℕ → List RawBapFrame → List ℕ × Result StreamFramingError (List RawBapFrame)
drain_loop zero max_body_len buf out = (buf, ok out)
drain_loop (suc fuel) max_body_len buf out = elim (carve max_body_len buf) [
  | wait ↦ (buf, ok out)
  | fail e ↦ (buf, err e)
  | frame f rest ↦ drain_loop fuel max_body_len rest (out ++ (f ∷ []))
]

-- `drain_complete`, on the buffer.
unfoldable pub drain :
    ℕ → List ℕ → List RawBapFrame → List ℕ × Result StreamFramingError (List RawBapFrame)
drain max_body_len buf out = drain_loop (length buf) max_body_len buf out

-- `push`: the decoder that is left, and what the call returns.
unfoldable pub push :
    BapStreamDecoder → List ℕ → BapStreamDecoder × Result StreamFramingError (List RawBapFrame)
push d bytes =
    let (rest, result) = drain d.max_body_len (d.buf ++ bytes) [] in
    (record d { buf = rest }, result)

unfoldable pub finish : BapStreamDecoder → Result StreamFramingError (Unit {0})
finish d = if is_empty d.buf then ok tt else err (incomplete_at_end (length d.buf))
