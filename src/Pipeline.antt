-- ===== src/Pipeline.antt =====
-- network/src/bap_pipeline.rs: a byte source, the stream decoder and the session, composed.
pub mod Collect
pub mod Replay
pub mod EndToEnd
use destiny1_pc_project.Prelude.{
  ℕ, zero, suc, Bool, not, ◌==◌, if◌then◌else◌, Option, none, some, List, [], ◌∷◌, ◌++◌, map,
  length, Result, ok, err, ◌>>=◌, map_err,
}
use destiny1_pc_project.Nonce.{NonceDirection}
use destiny1_pc_project.Aead.{AesGcm}
use destiny1_pc_project.Source.{ByteSource, ByteSourceError}
use destiny1_pc_project.Stream
use destiny1_pc_project.Stream.{BapStreamDecoder, RawBapFrame, StreamFramingError, push, finish}
use destiny1_pc_project.Session
use destiny1_pc_project.Session.{BapSession, BapSessionError, DecodedBapFrame, decode_frame}

pub data PipelineError : Type 0 where
  source : ByteSourceError → PipelineError
  stream : StreamFramingError → PipelineError
  session : BapSessionError → PipelineError
  -- dirs, frames
  direction_count_mismatch : ℕ → ℕ → PipelineError

pub record BapOfflinePipeline : Type 0 where
  pub decoder : BapStreamDecoder
  pub session : BapSession

unfoldable pub new : List ℕ → List ℕ → Result PipelineError BapOfflinePipeline
new session_key session_nonce = do
  s ← map_err PipelineError.session (Session.new session_key session_nonce)
  ok (record { decoder = Stream.new; session = s })

abbrev pub Collected : Type 0 → Type 0
Collected S = S × BapStreamDecoder × Result PipelineError (List RawBapFrame)

-- `Direction`s in front of their frames: what the decode loops run over.
unfoldable pub zip : List RawBapFrame → List NonceDirection → List (RawBapFrame × NonceDirection)
zip [] dirs = []
zip (raw ∷ raws) [] = []
zip (raw ∷ raws) (dir ∷ dirs) = (raw, dir) ∷ zip raws dirs

module _ {S : Type 0} ⦃src : ByteSource S⦄ where
  -- The `loop` of `collect_raw_frames`. A source may give data for ever: `none` means that the fuel
  -- ran out.
  unfoldable pub collect_loop : ℕ → S → BapStreamDecoder → List RawBapFrame → Option (Collected S)
  collect_loop zero s d out = none
  collect_loop (suc fuel) s d out =
      let (s', got) = src.read s in
      elim got [
        | err e ↦ some (s', d, err (source e))
        | ok none ↦ some (s', d, ok out)
        | ok (some chunk) ↦
            let (d', pushed) = push d chunk in
            elim pushed [
              | err e ↦ some (s', d', err (stream e))
              | ok fs ↦ collect_loop fuel s' d' (out ++ fs)
            ]
      ]

-- `self.decoder.finish()?` behind the loop.
unfoldable pub finished :
    BapStreamDecoder
    → Result PipelineError (List RawBapFrame)
    → Result PipelineError (List RawBapFrame)
finished d (err e) = err e
finished d (ok out) = map_err stream (finish d) >>= λ _. ok out

unfoldable pub decode_raw :
    AesGcm
    → BapOfflinePipeline
    → NonceDirection
    → RawBapFrame
    → BapOfflinePipeline × Result PipelineError DecodedBapFrame
decode_raw cipher p direction raw =
    let (s', r) = decode_frame cipher p.session direction raw.raw_bytes in
    (record p { session = s' }, map_err session r)

-- The loops of `run_unidirectional` and `run_directed` over the recovered frames, with the call of
-- `decode_raw` on the session alone.
unfoldable pub decode_each :
    AesGcm
    → BapSession
    → List (RawBapFrame × NonceDirection)
    → List DecodedBapFrame
    → BapSession × Result PipelineError (List DecodedBapFrame)
decode_each cipher s [] decoded = (s, ok decoded)
decode_each cipher s ((raw, dir) ∷ rest) decoded =
    let (s', r) = decode_frame cipher s dir raw.raw_bytes in
    elim r [
      | err e ↦ (s', err (session e))
      | ok frame ↦ decode_each cipher s' rest (decoded ++ (frame ∷ []))
    ]

abbrev pub Ran : Type 0 → Type 0
Ran S = S × (BapOfflinePipeline × Result PipelineError (List DecodedBapFrame))

-- The decode loop, where the frames were recovered.
unfoldable pub decode_collected :
    AesGcm
    → BapOfflinePipeline
    → Result PipelineError (List RawBapFrame)
    → (List RawBapFrame → List NonceDirection)
    → BapOfflinePipeline × Result PipelineError (List DecodedBapFrame)
decode_collected cipher p (err e) dirs = (p, err e)
decode_collected cipher p (ok raws) dirs =
    let (s', r) = decode_each cipher p.session (zip raws (dirs raws)) [] in
    (record p { session = s' }, r)

module _ {S : Type 0} ⦃src : ByteSource S⦄ where
  unfoldable pub collect_raw_frames : ℕ → BapOfflinePipeline → S → Option (Collected S)
  unfolding finished
  collect_raw_frames fuel p s = elim (collect_loop fuel s p.decoder []) [
    | none ↦ none
    | some (s', d', r) ↦ some (s', d', finished d' r)
  ]

  -- Every recovered frame with the one direction.
  unfoldable pub run_unidirectional :
      AesGcm → ℕ → BapOfflinePipeline → S → NonceDirection → Option (Ran S)
  unfolding decode_collected
  run_unidirectional cipher fuel p s direction = elim (collect_raw_frames fuel p s) [
    | none ↦ none
    | some (s', d', r) ↦
        some (s', decode_collected cipher (record p { decoder = d' }) r (map (λ _. direction)))
  ]

-- The count test of `run_directed`.
unfoldable pub count_checked :
    List NonceDirection
    → Result PipelineError (List RawBapFrame)
    → Result PipelineError (List RawBapFrame)
count_checked dirs (err e) = err e
count_checked dirs (ok raws) =
    if length raws == length dirs
    then ok raws
    else err (direction_count_mismatch (length dirs) (length raws))

module _ {S : Type 0} ⦃src : ByteSource S⦄ where
  unfoldable pub run_directed :
      AesGcm → ℕ → BapOfflinePipeline → S → List NonceDirection → Option (Ran S)
  unfolding decode_collected count_checked
  run_directed cipher fuel p s dirs = elim (collect_raw_frames fuel p s) [
    | none ↦ none
    | some (s', d', r) ↦
        some (
          s',
          decode_collected cipher (record p { decoder = d' }) (count_checked dirs r) (λ _. dirs),
        )
  ]
