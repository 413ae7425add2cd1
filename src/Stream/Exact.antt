-- ===== src/Stream/Exact.antt =====
-- The decoder against the bytes of the stream.
use destiny1_pc_project.Prelude.{
  ℕ, zero, suc, ◌+◌, ◌≤◌, ◌<◌, ◌≡◌, ◌⊎◌, inl, inr, List, [], ◌∷◌, ◌++◌, arith, length, drop, All,
  All-append, to_be32, from_be-to_be32, length-append, take-append_length, drop-append_length,
  append-nil, append_assoc, ok, err,
}
use mathlib.Core.Path.{subst}
use destiny1_pc_project.Framing.{kind_clear, kind_encrypted, u32_limit}
use destiny1_pc_project.Stream.{
  StreamFramingError, RawBapFrame, BapStreamDecoder, wait, fail, frame, frame_too_large, carve,
  drain, push, default, stream_header_len,
}
use destiny1_pc_project.Stream.Drain.{Carve-cases, Carved, carve-Carved, carve_shrinks, drain_lem}

-- The bytes that a list of frames was carved from.
unfoldable pub raws : List RawBapFrame → List ℕ
raws [] = []
raws (f ∷ fs) = f.raw_bytes ++ raws fs

raws-append :
    (fs : List RawBapFrame) (f : RawBapFrame) → raws (fs ++ (f ∷ [])) ≡ raws fs ++ f.raw_bytes
unfolding raws
raws-append [] f = append-nil f.raw_bytes
raws-append (g ∷ fs) f =
    ground (arith, raws-append fs f, append_assoc g.raw_bytes (raws fs) f.raw_bytes)

-- A frame as the stream decoder promises it: a known kind, a body within the limit, and the bytes
-- of both in place.
pub record IsCarved (max_body_len : ℕ) (f : RawBapFrame) : Type 0 where
  pub kind_known : (f.kind ≡ kind_encrypted) ⊎ (f.kind ≡ kind_clear)
  pub body_fits : length f.body ≤ max_body_len
  pub size : length f.raw_bytes ≡ stream_header_len + length f.body
  pub body_behind : drop stream_header_len f.raw_bytes ≡ f.body

drain_split :
    (k max_body_len : ℕ) (buf : List ℕ) (out : List RawBapFrame) (buf' : List ℕ)
    (out' : List RawBapFrame)
    → length buf < k
    → drain max_body_len buf out ≡ (buf', ok out')
    → raws out' ++ buf' ≡ raws out ++ buf
drain_split zero m buf out buf' out' lt h = absurd (omega arith)
drain_split (suc k) m buf out buf' out' lt h = elim (Carve-cases (carve m buf)) [
  | inl w ↦ ground (arith, drain_lem m buf out)
  | inr (inl (e, w)) ↦ ground (arith, drain_lem m buf out)
  | inr (inr (r, rest, w)) ↦ ground (
    arith,
    drain_lem m buf out,
    carve-Carved m buf r rest w,
    carve_shrinks m buf r rest w,
    raws-append out r,
    append_assoc (raws out) r.raw_bytes rest,
    drain_split k m rest (out ++ (r ∷ [])) buf' out',
  )
]

IsCarved-of_Carved :
    (m : ℕ) (buf : List ℕ) (f : RawBapFrame) (rest : List ℕ) → Carved m buf f rest → IsCarved m f
IsCarved-of_Carved m buf f rest c = record {
  kind_known = c.kind_known;
  body_fits = c.body_fits;
  size = c.size;
  body_behind = c.body_behind;
}

drain-IsCarved :
    (k max_body_len : ℕ) (buf : List ℕ) (out : List RawBapFrame) (buf' : List ℕ)
    (out' : List RawBapFrame)
    → length buf < k
    → All (IsCarved max_body_len) out
    → drain max_body_len buf out ≡ (buf', ok out')
    → All (IsCarved max_body_len) out'
drain-IsCarved zero m buf out buf' out' lt v h = absurd (omega arith)
drain-IsCarved (suc k) m buf out buf' out' lt v h = elim (Carve-cases (carve m buf)) [
  | inl w ↦ let e : out ≡ out' = ground (arith, drain_lem m buf out) in subst (All (IsCarved m)) e v
  | inr (inl (e, w)) ↦ absurd (ground (arith, drain_lem m buf out))
  | inr (inr (r, rest, w)) ↦
      drain-IsCarved k m rest (out ++ (r ∷ [])) buf' out'
        (omega (arith, carve_shrinks m buf r rest w))
        (All-append (IsCarved m) out (r ∷ []) v
          (IsCarved-of_Carved m buf r rest (carve-Carved m buf r rest w), tt))
        (ground (arith, drain_lem m buf out))
]

-- A push that succeeds loses no byte and makes none up: the frames that it returns and the buffer
-- that it leaves are the old buffer and the new bytes, and each frame has a known kind, a body
-- within the limit, and its own bytes.
pub push_exact :
    (d d' : BapStreamDecoder) (bytes : List ℕ) (fs : List RawBapFrame)
    → push d bytes ≡ (d', ok fs)
    → (raws fs ++ d'.buf ≡ d.buf ++ bytes) × All (IsCarved d.max_body_len) fs
unfolding push
push_exact d d' bytes fs h =
    let run : drain d.max_body_len (d.buf ++ bytes) [] ≡ (d'.buf, ok fs) = ground arith in
    let k = suc (length (d.buf ++ bytes)) in
    (
      unfold raws in drain_split k d.max_body_len (d.buf ++ bytes) [] d'.buf fs (omega arith) run,
      drain-IsCarved k d.max_body_len (d.buf ++ bytes) [] d'.buf fs (omega arith) tt run,
    )

-- The frame that a kind and a body make, and whether the decoder takes it.
unfoldable pub raw_frame : ℕ → List ℕ → RawBapFrame
raw_frame kind body = record {
  kind = kind;
  body = body;
  raw_bytes = 1 ∷ kind ∷ (to_be32 (length body) ++ body);
}

pub record Fits (max_body_len : ℕ) (f : RawBapFrame) : Type 0 where
  pub kind_known : (f.kind ≡ kind_encrypted) ⊎ (f.kind ≡ kind_clear)
  pub body_fits : length f.body ≤ max_body_len
  pub body_u32 : length f.body < u32_limit
  pub framed : f ≡ raw_frame f.kind f.body

carve-raw_frame :
    (m kind : ℕ) (body rest : List ℕ)
    → (kind ≡ kind_encrypted) ⊎ (kind ≡ kind_clear)
    → length body ≤ m
    → length body < u32_limit
    → carve m ((raw_frame kind body).raw_bytes ++ rest) ≡ frame (raw_frame kind body) rest
unfolding carve raw_frame
carve-raw_frame m kind body rest known fits small = ground (
  arith,
  from_be-to_be32 (length body),
  length-append body rest,
  take-append_length (length body) body rest,
  drop-append_length (length body) body rest,
)

carve-Fits :
    (m : ℕ) (f : RawBapFrame) (rest : List ℕ)
    → Fits m f
    → carve m (f.raw_bytes ++ rest) ≡ frame f rest
carve-Fits m f rest h =
    ground
      (arith, h.framed, carve-raw_frame m f.kind f.body rest h.kind_known h.body_fits h.body_u32)

drain-raws :
    (m : ℕ) (fs : List RawBapFrame) (tail : List ℕ) (out : List RawBapFrame)
    → All (Fits m) fs
    → drain m (raws fs ++ tail) out ≡ drain m tail (out ++ fs)
unfolding raws
drain-raws m [] tail out h = rw append-nil
drain-raws m (f ∷ fs) tail out h = ground (
  arith,
  append_assoc f.raw_bytes (raws fs) tail,
  append_assoc out (f ∷ []) fs,
  carve-Fits m f (raws fs ++ tail) h.0,
  drain_lem m (f.raw_bytes ++ (raws fs ++ tail)) out,
  drain-raws m fs tail (out ++ (f ∷ [])) h.1,
)

-- An empty buffer that is pushed whole frames and an unfinished rest returns just those frames, in
-- order, and keeps just that rest, when the frames are within the limit and the rest holds no header
-- to refuse and no whole frame.
pub push-raws :
    (d : BapStreamDecoder) (fs : List RawBapFrame) (tail : List ℕ)
    → d.buf ≡ []
    → All (Fits d.max_body_len) fs
    → carve d.max_body_len tail ≡ wait
    → push d (raws fs ++ tail) ≡ (record d { buf = tail }, ok fs)
unfolding push
push-raws d fs tail empty h w =
    ground (arith, drain-raws d.max_body_len fs tail [] h, drain_lem d.max_body_len tail fs)

-- Whole frames within the limit, pushed to an empty buffer in front of a bad header, are lost: the
-- push returns only the header's error, and
-- the frames are no longer in the buffer.
pub push-raws_error :
    (d : BapStreamDecoder) (fs : List RawBapFrame) (tail : List ℕ) (e : StreamFramingError)
    → d.buf ≡ []
    → All (Fits d.max_body_len) fs
    → carve d.max_body_len tail ≡ fail e
    → push d (raws fs ++ tail) ≡ (record d { buf = tail }, err e)
unfolding push
push-raws_error d fs tail e empty h w =
    ground (arith, drain-raws d.max_body_len fs tail [] h, drain_lem d.max_body_len tail fs)

-- The derived default has the limit 0: it refuses every frame of a known kind with a body, by the
-- body's length.
pub push-default :
    (kind : ℕ) (body rest : List ℕ)
    → (kind ≡ kind_encrypted) ⊎ (kind ≡ kind_clear)
    → 0 < length body
    → length body < u32_limit
    → (push default ((raw_frame kind body).raw_bytes ++ rest)).1
      ≡ err (frame_too_large (length body))
unfolding push default carve raw_frame
push-default kind body rest known more small = ground (
  arith,
  from_be-to_be32 (length body),
  length-append body rest,
  drain_lem 0 ((1 ∷ kind ∷ (to_be32 (length body) ++ body)) ++ rest) [],
)
