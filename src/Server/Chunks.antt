-- ===== src/Server/Chunks.antt =====
-- The loop of a connection, read by read, against one push of the whole stream.
use destiny1_pc_project.Prelude.{
  ℕ, suc, ◌+◌, ◌<◌, ◌≡◌, refl, sym, ap, ◌∙◌, inl, inr, List, [], ◌∷◌, ◌++◌, arith, length, concat,
  All, Result, ok, Result-cases,
}
use destiny1_pc_project.Aead.{AesGcm}
use destiny1_pc_project.Stream.{BapStreamDecoder, RawBapFrame, StreamFramingError, push}
use destiny1_pc_project.Stream.Chunks.{
  IsWaiting, push-IsWaiting, push_err-append, push_ok-append, push-nil,
}
use destiny1_pc_project.Server.{
  Connection, Turn, goes_on, breaks, ends, panicked, serve_frame, serve_frames, serve_pushed,
  serve_chunk, serve_read, serve_loop,
}
use destiny1_pc_project.Server.{serve_eof}
use destiny1_pc_project.Server.Turns.{
  Script, next_chunk, script_socket, placed, placed_turn, Turn-cases, serve_frames-placed,
}

module _ (cipher : AesGcm) where
  -- A run over frames that goes on can be cut anywhere.
  serve_frames-append :
      (c c' : Connection Script) (xs ys : List RawBapFrame)
      → serve_frames cipher c (xs ++ ys) ≡ goes_on c'
      → (m : Connection Script) × (serve_frames cipher c xs ≡ goes_on m)
        × (serve_frames cipher m ys ≡ goes_on c')
  unfolding serve_frames
  serve_frames-append c c' [] ys h = (c, refl, h)
  serve_frames-append c c' (x ∷ xs) ys h = elim (Turn-cases (serve_frame cipher c x)) [
    | inl (m, e) ↦
        let (m', p, r) = serve_frames-append m c' xs ys (ground arith) in (m', ground arith, r)
    | inr (inl (m, e)) ↦ absurd (ground arith)
    | inr (inr (inl (m, r, e))) ↦ absurd (ground arith)
    | inr (inr (inr e)) ↦ absurd (ground arith)
  ]

-- The frames that come out of pushes of the chunks, and the decoder behind them.
unfoldable pub Arrives :
    BapStreamDecoder → List (List ℕ) → BapStreamDecoder → List RawBapFrame → Type 0
Arrives d [] d' fs = (d' ≡ d) × (fs ≡ [])
Arrives d (chunk ∷ chunks) d' fs =
    (m : BapStreamDecoder) × (xs : List RawBapFrame) × (ys : List RawBapFrame) × (push d chunk
      ≡ (m, ok xs))
    × Arrives m chunks d' ys
    × (fs ≡ xs ++ ys)

pub arrives :
    (d : BapStreamDecoder) (chunks : List (List ℕ)) (d' : BapStreamDecoder) (fs : List RawBapFrame)
    → IsWaiting d
    → push d (concat chunks) ≡ (d', ok fs)
    → Arrives d chunks d' fs
unfolding Arrives
arrives d [] d' fs w h = (ground (arith, push-nil d w), ground (arith, push-nil d w))
arrives d (chunk ∷ chunks) d' fs w h = elim (Result-cases (push d chunk).1) [
  | inr (e, p) ↦ absurd (ground (arith, push_err-append d chunk (concat chunks) e p))
  | inl (xs, p) ↦
      let m = (push d chunk).0 in
      let (same, split) = push_ok-append d chunk (concat chunks) xs p in
      elim (Result-cases (push m (concat chunks)).1) [
        | inr (e, q) ↦ absurd (ground arith)
        | inl (ys, q) ↦ (
          m,
          xs,
          ys,
          ground arith,
          arrives m chunks d' ys (push-IsWaiting d chunk m xs (ground arith)).0 (ground arith),
          ground arith,
        )
      ]
]

-- A read that is not the end of the stream gives some bytes.
abbrev pub IsChunk : List ℕ → Type 0
IsChunk chunk = 0 < length chunk

module _ (cipher : AesGcm) where
  served_chunk :
      (c m : Connection Script) (d d' : BapStreamDecoder) (chunk : List ℕ) (chunks : List (List ℕ))
      (xs : List RawBapFrame)
      → push d chunk ≡ (d', ok xs)
      → serve_frames cipher c xs ≡ goes_on m
      → serve_chunk cipher (placed d chunks c) chunk ≡ goes_on (placed d' chunks m)
  unfolding serve_chunk serve_pushed placed placed_turn
  served_chunk c m d d' chunk chunks xs p h =
      ap
        (λ (r : BapStreamDecoder × Result StreamFramingError (List RawBapFrame)).
          serve_pushed cipher (record (placed d chunks c) { decoder = r.0 }) r.1)
        p
      ∙ serve_frames-placed cipher d' chunks c xs
      ∙ ap (placed_turn d' chunks) h

  -- How the loop goes on from the turn of one read.
  after_turn : ℕ → Turn Script → Turn Script
  after_turn fuel (goes_on c) = serve_loop cipher fuel c
  after_turn fuel (breaks c) = breaks c
  after_turn fuel (ends c r) = ends c r
  after_turn fuel panicked = panicked

  loop_turn :
      (fuel : ℕ) (t : Turn Script)
      → (elim t as (λ x. Turn Script) [
        | goes_on c' ↦ serve_loop cipher fuel c'
        | breaks c' ↦ breaks c'
        | ends c' r ↦ ends c' r
        | panicked ↦ panicked
      ])
        ≡ after_turn fuel t
  unfolding after_turn
  loop_turn fuel (goes_on c) = refl
  loop_turn fuel (breaks c) = refl
  loop_turn fuel (ends c r) = refl
  loop_turn fuel panicked = refl

  round :
      (fuel : ℕ) (c m : Connection Script) (d d' : BapStreamDecoder) (chunk : List ℕ)
      (chunks : List (List ℕ)) (xs : List RawBapFrame)
      → IsChunk chunk
      → push d chunk ≡ (d', ok xs)
      → serve_frames cipher c xs ≡ goes_on m
      → serve_loop cipher (suc fuel) (placed d (chunk ∷ chunks) c)
        ≡ serve_loop cipher fuel (placed d' chunks m)
  unfolding serve_loop serve_read next_chunk placed after_turn
  round fuel c m d d' [] chunks xs n p h = absurd (omega arith)
  round fuel c m d d' (b ∷ bs) chunks xs n p h =
      loop_turn fuel (serve_chunk cipher (placed d chunks c) (b ∷ bs))
      ∙ ap (after_turn fuel) (served_chunk c m d d' (b ∷ bs) chunks xs p h)

  nothing_served :
      (c c' : Connection Script) (fs : List RawBapFrame)
      → fs ≡ []
      → serve_frames cipher c fs ≡ goes_on c'
      → c ≡ c'
  unfolding serve_frames
  nothing_served c c' [] e h = ground arith
  nothing_served c c' (f ∷ fs) e h = absurd (ground arith)

  loop_over :
      (fuel : ℕ) (chunks : List (List ℕ)) (c c' : Connection Script) (d d' : BapStreamDecoder)
      (fs : List RawBapFrame)
      → All IsChunk chunks
      → Arrives d chunks d' fs
      → serve_frames cipher c fs ≡ goes_on c'
      → serve_loop cipher (length chunks + fuel) (placed d chunks c)
        ≡ serve_loop cipher fuel (placed d' [] c')
  unfolding Arrives
  loop_over fuel [] c c' d d' fs n (e, none_left) h =
      let k : 0 + fuel ≡ fuel = omega arith in
      rw (k, e)
        (ap (λ x. serve_loop cipher fuel (placed d [] x)) (nothing_served c c' fs none_left h))
  loop_over fuel (chunk ∷ chunks) c c' d d' fs (n, ns) (m, xs, ys, p, more, split) h =
      let (c1, first, rest) =
        serve_frames-append cipher c c' xs ys (ap (λ t. serve_frames cipher c t) (sym split) ∙ h) in
      let e : suc (length chunks) + fuel ≡ suc (length chunks + fuel) = omega arith in
      rw e (
        round (length chunks + fuel) c c1 d m chunk chunks xs n p first
        ∙ loop_over fuel chunks c1 c' m d' ys ns more rest)

  end_of_stream :
      (fuel : ℕ) (c : Connection Script) (d : BapStreamDecoder)
      → serve_loop cipher (suc fuel) (placed d [] c) ≡ serve_eof (placed d [] c)
  unfolding serve_loop serve_read next_chunk placed serve_eof
  end_of_stream fuel c d = refl

  -- A client writes a stream and closes it. Whatever chunks the stream is read in, if one push of it gives
  -- frames that the connection serves and goes on, then the loop ends by serving the end of the stream in
  -- the state after those frames, with fuel for one read more than there are chunks.
  pub serve_loop-push :
      (fuel : ℕ) (c c' : Connection Script) (chunks : List (List ℕ)) (d' : BapStreamDecoder)
      (fs : List RawBapFrame)
      → IsWaiting c.decoder
      → All IsChunk chunks
      → push c.decoder (concat chunks) ≡ (d', ok fs)
      → serve_frames cipher c fs ≡ goes_on c'
      → serve_loop cipher (length chunks + suc fuel) (placed c.decoder chunks c)
        ≡ serve_eof (placed d' [] c')
  serve_loop-push fuel c c' chunks d' fs w n p h =
      loop_over (suc fuel) chunks c c' c.decoder d' fs n (arrives c.decoder chunks d' fs w p) h
      ∙ end_of_stream fuel c' d'
