-- ===== src/Pipeline/Collect.antt =====
-- `collect_raw_frames` over a mock source.
use destiny1_pc_project.Prelude.{
  ℕ, suc, ◌+◌, ◌≡◌, refl, ap, inl, inr, true, is_empty, if◌then◌else◌, some, List, [], ◌∷◌, ◌++◌,
  arith, length, concat, map, append-nil, Result, Result-cases, ok, err, is_ok,
}
use destiny1_pc_project.Source
use destiny1_pc_project.Source.{
  ByteSourceError, MockByteSource, mock_source, read_queue, chunk_stream,
}
use destiny1_pc_project.Stream.{
  BapStreamDecoder, RawBapFrame, StreamFramingError, incomplete_at_end, push, finish,
}
use destiny1_pc_project.Stream.Chunks.{push_all, IsWaiting, chunked_push}
use destiny1_pc_project.Pipeline.{
  PipelineError, source, stream, BapOfflinePipeline, collect_loop, collect_raw_frames,
}

abbrev queued : List (List ℕ) → List (Result ByteSourceError (List ℕ)) → MockByteSource
queued chunks rest = record { queue = map ok chunks ++ rest }

-- The loop over data chunks is the loop of pushes.
collect_chunks :
    (fuel : ℕ) (chunks : List (List ℕ)) (rest : List (Result ByteSourceError (List ℕ)))
    (d : BapStreamDecoder) (out fs : List RawBapFrame)
    → (push_all d chunks out).1 ≡ ok fs
    → collect_loop (length chunks + fuel) (queued chunks rest) d out
      ≡ collect_loop fuel (queued [] rest) (push_all d chunks out).0 fs
unfolding push_all collect_loop read_queue
collect_chunks fuel [] rest d out fs h = ground arith
collect_chunks fuel (chunk ∷ chunks) rest d out fs h =
    let e : suc (length chunks) + fuel ≡ suc (length chunks + fuel) = omega arith in
    rw e (elim (Result-cases (push d chunk).1) [
      | inr (x, p) ↦ absurd (ground arith)
      | inl (gs, p) ↦
          ground (arith, collect_chunks fuel chunks rest (push d chunk).0 (out ++ gs) fs)
    ])

collect_chunks_err :
    (fuel : ℕ) (chunks : List (List ℕ)) (rest : List (Result ByteSourceError (List ℕ)))
    (d : BapStreamDecoder) (out : List RawBapFrame) (x : StreamFramingError)
    → (push_all d chunks out).1 ≡ err x
    → (s' : MockByteSource) × (collect_loop (length chunks + fuel) (queued chunks rest) d out
        ≡ some (s', (push_all d chunks out).0, err (stream x)))
unfolding push_all collect_loop read_queue
collect_chunks_err fuel [] rest d out x h = absurd (ground arith)
collect_chunks_err fuel (chunk ∷ chunks) rest d out x h =
    let e : suc (length chunks) + fuel ≡ suc (length chunks + fuel) = omega arith in
    rw e (elim (Result-cases (push d chunk).1) [
      | inr (y, p) ↦ (queued chunks rest, ground arith)
      | inl (gs, p) ↦
          let (s', q) =
            collect_chunks_err fuel chunks rest (push d chunk).0 (out ++ gs) x (ground arith) in
          (s', ground (arith, q))
    ])

-- How `collect_raw_frames` ends for a stream: its frames if nothing is left over, else the decoder's
-- error, or how many bytes are missing a frame.
unfoldable pub collected_of :
    BapStreamDecoder × Result StreamFramingError (List RawBapFrame)
    → Result PipelineError (List RawBapFrame)
collected_of (d, err x) = err (stream x)
collected_of (d, ok fs) =
    if is_empty d.buf then ok fs else err (stream (incomplete_at_end (length d.buf)))

queued-nil : (chunks : List (List ℕ)) → queued chunks [] ≡ Source.new chunks
unfolding Source.new
queued-nil chunks = ap (λ q. record { queue = q }) (append-nil (map ok chunks))

collect_end :
    (fuel : ℕ) (d : BapStreamDecoder) (fs : List RawBapFrame)
    → collect_loop (suc fuel) (queued [] []) d fs ≡ some (queued [] [], d, ok fs)
unfolding collect_loop read_queue
collect_end fuel d fs = refl

collect_failed :
    (fuel : ℕ) (d : BapStreamDecoder) (fs : List RawBapFrame) (e : ByteSourceError)
    (more : List (Result ByteSourceError (List ℕ)))
    → collect_loop (suc fuel) (queued [] (err e ∷ more)) d fs
      ≡ some (record { queue = more }, d, err (source e))
unfolding collect_loop read_queue
collect_failed fuel d fs e more = refl

-- The outcome of the collection, and the decoder after a success.
pub collect_lem :
    (fuel : ℕ) (p : BapOfflinePipeline) (chunks : List (List ℕ))
    → IsWaiting p.decoder
    → (s' : MockByteSource) × (d' : BapStreamDecoder) × (collect_raw_frames
          (length chunks + suc fuel)
          p
          (Source.new chunks)
        ≡ some (s', d', collected_of (push p.decoder (concat chunks))))
      × (is_ok (push p.decoder (concat chunks)).1 ≡ true → d' ≡ (push p.decoder (concat chunks)).0)
unfolding collect_raw_frames finish collected_of
collect_lem fuel p chunks w = elim (Result-cases (push_all p.decoder chunks []).1) [
  | inr (x, e) ↦
      let (s', run) = collect_chunks_err (suc fuel) chunks [] p.decoder [] x e in
      (
        s',
        (push_all p.decoder chunks []).0,
        ground (arith, queued-nil chunks, run, chunked_push p.decoder chunks w),
        (chunked_push p.decoder chunks w).1,
      )
  | inl (fs, e) ↦ (
    queued [] [],
    (push_all p.decoder chunks []).0,
    ground (
      arith,
      queued-nil chunks,
      collect_chunks (suc fuel) chunks [] p.decoder [] fs e,
      collect_end fuel (push_all p.decoder chunks []).0 fs,
      chunked_push p.decoder chunks w,
    ),
    (chunked_push p.decoder chunks w).1,
  )
]

-- However a stream is cut into chunks, with fuel for one read more than there are chunks, and from a
-- decoder that waits for more bytes, the collection ends with the frames or the error that one push
-- of the whole stream and a test of the buffer behind it give.
pub collect-concat :
    (fuel : ℕ) (p : BapOfflinePipeline) (chunks : List (List ℕ))
    → IsWaiting p.decoder
    → (s' : MockByteSource) × (d' : BapStreamDecoder) × (collect_raw_frames
          (length chunks + suc fuel)
          p
          (Source.new chunks)
        ≡ some (s', d', collected_of (push p.decoder (concat chunks))))
collect-concat fuel p chunks w = let (s', d', run, _) = collect_lem fuel p chunks w in (s', d', run)

-- A source error behind chunks that a waiting decoder accepts is returned as the collection's error:
-- the frames of those chunks are not returned, the decoder has consumed them, and later reads stay
-- in the source.
pub collect-source_error :
    (fuel : ℕ) (p : BapOfflinePipeline) (chunks : List (List ℕ)) (e : ByteSourceError)
    (more : List (Result ByteSourceError (List ℕ)))
    → IsWaiting p.decoder
    → is_ok (push p.decoder (concat chunks)).1 ≡ true
    → collect_raw_frames
        (length chunks + suc fuel)
        p
        (Source.from_results (map ok chunks ++ (err e ∷ more)))
      ≡ some (record { queue = more }, (push p.decoder (concat chunks)).0, err (source e))
unfolding collect_raw_frames Source.from_results
collect-source_error fuel p chunks e more w h =
    elim (Result-cases (push_all p.decoder chunks []).1) [
      | inr (x, bad) ↦ absurd (ground (arith, chunked_push p.decoder chunks w))
      | inl (fs, good) ↦ ground (
        arith,
        collect_chunks (suc fuel) chunks (err e ∷ more) p.decoder [] fs good,
        collect_failed fuel (push_all p.decoder chunks []).0 fs e more,
        chunked_push p.decoder chunks w,
      )
    ]
