-- ===== src/Stream/Chunks.antt =====
-- Pushes of a stream to the decoder, chunk by chunk.
use destiny1_pc_project.Prelude.{
  ℕ, zero, suc, ◌<◌, ◌≡◌, refl, ap, inl, inr, List, [], ◌∷◌, ◌++◌, arith, length, concat,
  append-nil, append_assoc, Result, ok, err, Result-cases, is_ok, true,
}
use destiny1_pc_project.Stream.{
  StreamFramingError, RawBapFrame, BapStreamDecoder, wait, fail, carve, drain, push,
}
use destiny1_pc_project.Stream.Drain.{
  Carve-cases, carve-append_frame, carve-append_fail, carve_shrinks, drain_lem,
}

-- The loop ends with a buffer that waits for more bytes.
drain_ok_waits :
    (k max_body_len : ℕ) (buf : List ℕ) (out : List RawBapFrame) (buf' : List ℕ)
    (out' : List RawBapFrame)
    → length buf < k
    → drain max_body_len buf out ≡ (buf', ok out')
    → carve max_body_len buf' ≡ wait
drain_ok_waits zero m buf out buf' out' lt h = absurd (omega arith)
drain_ok_waits (suc k) m buf out buf' out' lt h = elim (Carve-cases (carve m buf)) [
  | inl w ↦ ground (arith, drain_lem m buf out)
  | inr (inl (e, w)) ↦ ground (arith, drain_lem m buf out)
  | inr (inr (r, rest, w)) ↦
      drain_ok_waits k m rest (out ++ (r ∷ [])) buf' out'
        (omega (arith, carve_shrinks m buf r rest w)) (ground (arith, drain_lem m buf out))
]

-- More bytes behind the buffer: the loop goes on from where it stopped.
drain_ok-append :
    (k max_body_len : ℕ) (buf more : List ℕ) (out : List RawBapFrame) (buf' : List ℕ)
    (out' : List RawBapFrame)
    → length buf < k
    → drain max_body_len buf out ≡ (buf', ok out')
    → drain max_body_len (buf ++ more) out ≡ drain max_body_len (buf' ++ more) out'
drain_ok-append zero m buf more out buf' out' lt h = absurd (omega arith)
drain_ok-append (suc k) m buf more out buf' out' lt h = elim (Carve-cases (carve m buf)) [
  | inl w ↦ ground (arith, drain_lem m buf out)
  | inr (inl (e, w)) ↦ ground (arith, drain_lem m buf out)
  | inr (inr (r, rest, w)) ↦ ground (
    arith,
    drain_lem m buf out,
    drain_lem m (buf ++ more) out,
    carve_shrinks m buf r rest w,
    carve-append_frame m buf more r rest w,
    drain_ok-append k m rest more (out ++ (r ∷ [])) buf' out',
  )
]

-- An error stays, whatever comes behind it.
drain_err-append :
    (k max_body_len : ℕ) (buf more : List ℕ) (out : List RawBapFrame) (buf' : List ℕ)
    (e : StreamFramingError)
    → length buf < k
    → drain max_body_len buf out ≡ (buf', err e)
    → drain max_body_len (buf ++ more) out ≡ (buf' ++ more, err e)
drain_err-append zero m buf more out buf' e lt h = absurd (omega arith)
drain_err-append (suc k) m buf more out buf' e lt h = elim (Carve-cases (carve m buf)) [
  | inl w ↦ ground (arith, drain_lem m buf out)
  | inr (inl (x, w)) ↦
      ground (
        arith,
        drain_lem m buf out,
        drain_lem m (buf ++ more) out,
        carve-append_fail m buf more x w,
      )
  | inr (inr (r, rest, w)) ↦ ground (
    arith,
    drain_lem m buf out,
    drain_lem m (buf ++ more) out,
    carve_shrinks m buf r rest w,
    carve-append_frame m buf more r rest w,
    drain_err-append k m rest more (out ++ (r ∷ [])) buf' e,
  )
]

drain_err_fails :
    (k max_body_len : ℕ) (buf : List ℕ) (out : List RawBapFrame) (buf' : List ℕ)
    (e : StreamFramingError)
    → length buf < k
    → drain max_body_len buf out ≡ (buf', err e)
    → carve max_body_len buf' ≡ fail e
drain_err_fails zero m buf out buf' e lt h = absurd (omega arith)
drain_err_fails (suc k) m buf out buf' e lt h = elim (Carve-cases (carve m buf)) [
  | inl w ↦ ground (arith, drain_lem m buf out)
  | inr (inl (x, w)) ↦ ground (arith, drain_lem m buf out)
  | inr (inr (r, rest, w)) ↦
      drain_err_fails k m rest (out ++ (r ∷ [])) buf' e
        (omega (arith, carve_shrinks m buf r rest w)) (ground (arith, drain_lem m buf out))
]

-- The frames of an earlier round or push, in front of a later result.
abbrev pub after_frames :
    List RawBapFrame
    → Result StreamFramingError (List RawBapFrame)
    → Result StreamFramingError (List RawBapFrame)
after_frames out (ok fs) = ok (out ++ fs)
after_frames out (err e) = err e

after_frames-append :
    (out fs : List RawBapFrame) (r : Result StreamFramingError (List RawBapFrame))
    → after_frames (out ++ fs) r ≡ after_frames out (after_frames fs r)
after_frames-append out fs (ok gs) = ap ok (append_assoc out fs gs)
after_frames-append out fs (err e) = refl

drain_out :
    (k max_body_len : ℕ) (buf : List ℕ) (out : List RawBapFrame)
    → length buf < k
    → ((drain max_body_len buf out).0 ≡ (drain max_body_len buf []).0)
      × ((drain max_body_len buf out).1 ≡ after_frames out (drain max_body_len buf []).1)
drain_out zero m buf out lt = absurd (omega arith)
drain_out (suc k) m buf out lt = elim (Carve-cases (carve m buf)) [
  | inl w ↦ ground (arith, drain_lem m buf out, drain_lem m buf [], append-nil out)
  | inr (inl (x, w)) ↦ ground (arith, drain_lem m buf out, drain_lem m buf [])
  | inr (inr (r, rest, w)) ↦ ground (
    arith,
    drain_lem m buf out,
    drain_lem m buf [],
    carve_shrinks m buf r rest w,
    drain_out k m rest (out ++ (r ∷ [])),
    drain_out k m rest (r ∷ []),
    after_frames-append out (r ∷ []) (drain m rest []).1,
  )
]

-- The loop of a client that pushes chunk after chunk, and stops at the first error.
unfoldable pub push_all :
    BapStreamDecoder
    → List (List ℕ)
    → List RawBapFrame
    → BapStreamDecoder × Result StreamFramingError (List RawBapFrame)
push_all d [] out = (d, ok out)
push_all d (chunk ∷ chunks) out =
    let (d', r) = push d chunk in
    elim r [ err e ↦ (d', err e) | ok fs ↦ push_all d' chunks (out ++ fs) ]

-- Between two pushes that returned frames, the buffer holds no complete frame and no bad header.
abbrev pub IsWaiting : BapStreamDecoder → Type 0
IsWaiting d = carve d.max_body_len d.buf ≡ wait

pub push-IsWaiting :
    (d : BapStreamDecoder) (bytes : List ℕ) (d' : BapStreamDecoder) (fs : List RawBapFrame)
    → push d bytes ≡ (d', ok fs)
    → IsWaiting d' × (d'.max_body_len ≡ d.max_body_len)
unfolding push
push-IsWaiting d bytes d' fs h = ground (
  arith,
  drain_ok_waits (suc (length (d.buf ++ bytes))) d.max_body_len (d.buf ++ bytes) [] d'.buf fs,
)

-- A push that fails does so whatever the caller would have pushed along with it.
pub push_err-append :
    (d : BapStreamDecoder) (xs ys : List ℕ) (e : StreamFramingError)
    → (push d xs).1 ≡ err e
    → (push d (xs ++ ys)).1 ≡ err e
unfolding push
push_err-append d xs ys e h = ground (
  arith,
  append_assoc d.buf xs ys,
  drain_err-append (suc (length (d.buf ++ xs))) d.max_body_len (d.buf ++ xs) ys []
      (drain d.max_body_len (d.buf ++ xs) []).0 e,
)

-- A push that returns frames can be split off the front of a longer push.
pub push_ok-append :
    (d : BapStreamDecoder) (xs ys : List ℕ) (fs : List RawBapFrame)
    → (push d xs).1 ≡ ok fs
    → ((push d (xs ++ ys)).0 ≡ (push (push d xs).0 ys).0)
      × ((push d (xs ++ ys)).1 ≡ after_frames fs (push (push d xs).0 ys).1)
unfolding push
push_ok-append d xs ys fs h =
    let buf' = (drain d.max_body_len (d.buf ++ xs) []).0 in
    ground (
      arith,
      append_assoc d.buf xs ys,
      drain_ok-append (suc (length (d.buf ++ xs))) d.max_body_len (d.buf ++ xs) ys [] buf' fs,
      drain_out (suc (length (buf' ++ ys))) d.max_body_len (buf' ++ ys) fs,
    )

pub push-nil : (d : BapStreamDecoder) → IsWaiting d → push d [] ≡ (d, ok [])
unfolding push
push-nil d w = ground (arith, append-nil d.buf, drain_lem d.max_body_len d.buf [])

push_all_result :
    (d : BapStreamDecoder) (chunks : List (List ℕ)) (out : List RawBapFrame)
    → IsWaiting d
    → ((push_all d chunks out).1 ≡ after_frames out (push d (concat chunks)).1)
      × (is_ok (push d (concat chunks)).1 ≡ true
          → (push_all d chunks out).0 ≡ (push d (concat chunks)).0)
unfolding push_all
push_all_result d [] out w = ground (arith, push-nil d w, append-nil out)
push_all_result d (chunk ∷ chunks) out w = elim (Result-cases (push d chunk).1) [
  | inr (e, p) ↦ ground (arith, push_err-append d chunk (concat chunks) e p)
  | inl (fs, p) ↦ ground (
    arith,
    push_ok-append d chunk (concat chunks) fs p,
    push-IsWaiting d chunk (push d chunk).0 fs,
    push_all_result (push d chunk).0 chunks (out ++ fs),
    after_frames-append out fs (push (push d chunk).0 (concat chunks)).1,
  )
]

-- The outcome of the pushes, and the decoder after a success.
pub chunked_push :
    (d : BapStreamDecoder) (chunks : List (List ℕ))
    → IsWaiting d
    → ((push_all d chunks []).1 ≡ (push d (concat chunks)).1)
      × (is_ok (push d (concat chunks)).1 ≡ true
          → (push_all d chunks []).0 ≡ (push d (concat chunks)).0)
chunked_push d chunks w = elim (Result-cases (push d (concat chunks)).1) [
  | inl (fs, p) ↦ ground (arith, push_all_result d chunks [] w)
  | inr (e, p) ↦ ground (arith, push_all_result d chunks [] w)
]

-- Pushing a stream chunk by chunk, from a decoder that waits for more bytes, gives the same frames or
-- the same error as one push of the whole stream.
pub push_all-concat :
    (d : BapStreamDecoder) (chunks : List (List ℕ))
    → IsWaiting d
    → (push_all d chunks []).1 ≡ (push d (concat chunks)).1
push_all-concat d chunks w = (chunked_push d chunks w).0

-- After an error the decoder is stuck: every later push returns the same error.
pub push_error_again :
    (d : BapStreamDecoder) (xs ys : List ℕ) (e : StreamFramingError)
    → (push d xs).1 ≡ err e
    → (push (push d xs).0 ys).1 ≡ err e
unfolding push
push_error_again d xs ys e h =
    let buf' = (drain d.max_body_len (d.buf ++ xs) []).0 in
    ground (
      arith,
      drain_err_fails (suc (length (d.buf ++ xs))) d.max_body_len (d.buf ++ xs) [] buf' e,
      carve-append_fail d.max_body_len buf' ys e,
      drain_lem d.max_body_len (buf' ++ ys) [],
    )
