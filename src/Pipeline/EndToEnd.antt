-- ===== src/Pipeline/EndToEnd.antt =====
-- `run_directed` over the bytes that a session wrote.
use destiny1_pc_project.Prelude.{
  ℕ, suc, ◌+◌, ◌≡◌, refl, some, List, [], arith, length, length-map, All, concat, map, append-nil,
  ok,
}
use destiny1_pc_project.Context.Track.{Drawn, Tracks}
use destiny1_pc_project.Aead.{AesGcm, IsAead}
use destiny1_pc_project.Source
use destiny1_pc_project.Source.{MockByteSource, mock_source}
use destiny1_pc_project.Stream.{RawBapFrame, BapStreamDecoder, carve, wait, push}
use destiny1_pc_project.Stream.Chunks.{IsWaiting}
use destiny1_pc_project.Stream.Exact.{raws, push-raws}
use destiny1_pc_project.Session.{BapSession}
use destiny1_pc_project.Pipeline.{BapOfflinePipeline, collect_raw_frames, run_directed}
use destiny1_pc_project.Pipeline.Collect.{collected_of, collect-concat}
use destiny1_pc_project.Pipeline.Replay.{Message, decoded_of, IsSendable, send_all, replays}

empty_waits : (m : ℕ) → carve m [] ≡ wait
unfolding carve
empty_waits m = refl

waiting : (d : BapStreamDecoder) → d.buf ≡ [] → IsWaiting d
waiting d h = rw h (empty_waits d.max_body_len)

-- The collection over chunks of whole frames.
collected_raws :
    (fuel : ℕ) (p : BapOfflinePipeline) (rs : List RawBapFrame) (chunks : List (List ℕ))
    → p.decoder.buf ≡ []
    → push p.decoder (concat chunks) ≡ (p.decoder, ok rs)
    → (src' : MockByteSource) × (d' : BapStreamDecoder) × (collect_raw_frames
          (length chunks + suc fuel)
          p
          (Source.new chunks)
        ≡ some (src', d', ok rs))
unfolding collected_of
collected_raws fuel p rs chunks empty pushed =
    let (src', d', run) = collect-concat fuel p chunks (waiting p.decoder empty) in
    (src', d', ground arith)

-- A session sends messages in both directions, in the clear or encrypted, and every call returns a
-- frame. Whatever chunks these bytes arrive in, a pipeline with an empty buffer, whose session has the
-- same key, nonce and counts, decodes just those messages, in order, when the messages fit the wire
-- and the decoder's limit, the cipher keeps its laws, and the fuel is one read more than there are
-- chunks, at least.
pub run_directed-send_all :
    (cipher : AesGcm) (key n : List ℕ) (t : Drawn) (s s' : BapSession) (p : BapOfflinePipeline)
    (ms : List Message) (frames chunks : List (List ℕ)) (fuel : ℕ)
    → IsAead cipher
    → Tracks key n t s.crypto
    → Tracks key n t p.session.crypto
    → p.decoder.buf ≡ []
    → All (IsSendable p.decoder.max_body_len) ms
    → send_all cipher s ms ≡ some (s', frames)
    → concat chunks ≡ concat frames
    → (src' : MockByteSource) × (p' : BapOfflinePipeline) × (run_directed cipher
          (length chunks + suc fuel)
          p
          (Source.new chunks)
          (map (λ m. m.direction) ms)
        ≡ some (src', (p', ok (map decoded_of ms))))
unfolding run_directed
run_directed-send_all cipher key n t s s' p ms frames chunks fuel laws hs hr empty ok_ms sent same =
    let back =
      replays cipher laws key n p.decoder.max_body_len t ms s s' p.session frames ok_ms hs hr
        sent in
    let pushed : push p.decoder (concat chunks) ≡ (p.decoder, ok back.rs) = ground (
      arith,
      back.bytes,
      append-nil (raws back.rs),
      push-raws p.decoder back.rs [] empty back.fit (empty_waits p.decoder.max_body_len),
    ) in
    let (src', d', run) = collected_raws fuel p back.rs chunks empty pushed in
    (
      src',
      record p { decoder = d'; session = back.after },
      ground (arith, run, back.count, length-map ms (λ m. m.direction), back.decodes []),
    )
