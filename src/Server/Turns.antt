-- ===== src/Server/Turns.antt =====
-- The loop of a connection over a scripted socket: the chunks that arrive, and what is written.
use destiny1_pc_project.Prelude.{
  ℕ, ◌≡◌, refl, ◌⊎◌, inl, inr, Bool, true, Option, List, [], ◌∷◌, ◌++◌, arith, codes, Result, ok,
  err, Call, returns, panics,
}
use destiny1_pc_project.Aead.{AesGcm}
use destiny1_pc_project.Session.{
  BapSession, BapSessionError, DecodedBapFrame, framing, session, decrypt_failed, encrypt_failed,
  empty_ciphertext, trailing_bytes, decode_frame,
}
use destiny1_pc_project.Nonce.{NonceDirection}
use destiny1_pc_project.Codec.{Direction}
use destiny1_pc_project.Protocol.{
  unexpected_message, invalid_direction, invalid_state, invalid_message, crypto_not_established,
  handshake_incomplete, already_closed, invalid_transition, TransitionResult, advanced, observed,
  rejected,
}
use destiny1_pc_project.Policy.{
  ResponseAction, send_clear, send_encrypted, observe_only, reject, nothing,
}
use destiny1_pc_project.Stateful.{Handled, handle_decoded_frame}
use destiny1_pc_project.Stream.{BapStreamDecoder, RawBapFrame}
use destiny1_pc_project.Server.{
  Socket, ReadOutcome, received, LocalServerError, Connection, Turn, goes_on, breaks, ends,
  panicked, set_stateful, trace_c2s, push_trace, give_up, written, send_bytes, send_clear_bytes,
  send_sealed_bytes, run_action, run_actions, settle_handled, serve_handled, serve_decoded,
  serve_frame, serve_frames, frame_ids,
}

-- The chunks that `read` still gives, one for each call, then the end of the stream; what was written;
-- whether the socket was shut down.
pub record Script : Type 0 where
  pub incoming : List (List ℕ)
  pub sent : List (List ℕ)
  pub is_shut : Bool

unfoldable pub next_chunk : Script → List (List ℕ) → Script × ReadOutcome
next_chunk s [] = (s, received [])
next_chunk s (chunk ∷ chunks) = (record s { incoming = chunks }, received chunk)

instance abbrev pub script_socket : Socket Script
script_socket = record {
  read = λ s. next_chunk s s.incoming;
  write_all = λ s bytes. (record s { sent = s.sent ++ (bytes ∷ []) }, ok tt);
  shutdown = λ s. record s { is_shut = true };
}

-- The same connection with another decoder and other chunks to come.
unfoldable pub placed : BapStreamDecoder → List (List ℕ) → Connection Script → Connection Script
placed d q c = record c { decoder = d; stream = record (c.stream) { incoming = q } }

unfoldable pub placed_turn : BapStreamDecoder → List (List ℕ) → Turn Script → Turn Script
unfolding placed
placed_turn d q (goes_on c) = goes_on (placed d q c)
placed_turn d q (breaks c) = breaks (placed d q c)
placed_turn d q (ends c r) = ends (placed d q c) r
placed_turn d q panicked = panicked

pub Turn-cases :
    (t : Turn Script)
    → ((c : Connection Script) × (t ≡ goes_on c))
      ⊎ (((c : Connection Script) × (t ≡ breaks c))
          ⊎ (((c : Connection Script) × (r : Result LocalServerError (Unit {0})) × (t ≡ ends c r))
              ⊎ (t ≡ panicked)))
Turn-cases (goes_on c) = inl (c, refl)
Turn-cases (breaks c) = inr (inl (c, refl))
Turn-cases (ends c r) = inr (inr (inl (c, r, refl)))
Turn-cases panicked = inr (inr (inr refl))

module _ (d : BapStreamDecoder) (q : List (List ℕ)) where
  send_clear_bytes-placed :
      (c : Connection Script) (id ctx : ℕ) (r : Call (List ℕ))
      → send_clear_bytes (placed d q c) id ctx r ≡ placed_turn d q (send_clear_bytes c id ctx r)
  unfolding send_clear_bytes send_bytes written placed placed_turn
  send_clear_bytes-placed c id ctx panics = refl
  send_clear_bytes-placed c id ctx (returns bytes) = refl

  send_sealed_bytes-placed :
      (c : Connection Script) (id ctx : ℕ) (r : Call (BapSession × Result BapSessionError (List ℕ)))
      → send_sealed_bytes (placed d q c) id ctx r ≡ placed_turn d q (send_sealed_bytes c id ctx r)
  unfolding send_sealed_bytes send_bytes written placed placed_turn set_stateful
  send_sealed_bytes-placed c id ctx panics = refl
  send_sealed_bytes-placed c id ctx (returns (s, ok bytes)) = refl
  send_sealed_bytes-placed c id ctx (returns (s, err e)) = refl

module _ (cipher : AesGcm) (d : BapStreamDecoder) (q : List (List ℕ)) where
  run_action-placed :
      (c : Connection Script) (a : ResponseAction)
      → run_action cipher (placed d q c) a ≡ placed_turn d q (run_action cipher c a)
  unfolding run_action give_up placed placed_turn
  run_action-placed c (send_clear id ctx payload) = send_clear_bytes-placed d q c id ctx _
  run_action-placed c (send_encrypted id ctx payload) = send_sealed_bytes-placed d q c id ctx _
  run_action-placed c observe_only = refl
  run_action-placed c reject = refl
  run_action-placed c nothing = refl

  run_actions-placed :
      (c : Connection Script) (actions : List ResponseAction)
      → run_actions cipher (placed d q c) actions ≡ placed_turn d q (run_actions cipher c actions)
  unfolding run_actions placed_turn
  run_actions-placed c [] = refl
  run_actions-placed c (a ∷ rest) = elim (Turn-cases (run_action cipher c a)) [
    | inl (c', e) ↦ ground (arith, run_action-placed c a, run_actions-placed c' rest)
    | inr (inl (c', e)) ↦ ground (arith, run_action-placed c a)
    | inr (inr (inl (c', r, e))) ↦ ground (arith, run_action-placed c a)
    | inr (inr (inr e)) ↦ ground (arith, run_action-placed c a)
  ]

  settle_handled-placed :
      (c : Connection Script) (ids : Option ℕ × Option ℕ) (tr : TransitionResult)
      (actions : List ResponseAction)
      → settle_handled cipher (placed d q c) ids tr actions
        ≡ placed_turn d q (settle_handled cipher c ids tr actions)
  unfolding settle_handled placed give_up push_trace trace_c2s placed_turn
  settle_handled-placed c ids (rejected reason) actions = refl
  settle_handled-placed c ids (advanced from to) actions = run_actions-placed _ actions
  settle_handled-placed c ids (observed state) actions = run_actions-placed c actions

  serve_handled-placed :
      (c : Connection Script) (ids : Option ℕ × Option ℕ) (h : Handled)
      → serve_handled cipher (placed d q c) ids h ≡ placed_turn d q (serve_handled cipher c ids h)
  unfolding serve_handled placed set_stateful give_up trace_c2s push_trace placed_turn
  serve_handled-placed c ids (s, ok h) = settle_handled-placed _ ids h.transition h.actions
  serve_handled-placed c ids (s, err (unexpected_message id)) = refl
  serve_handled-placed c ids (s, err (invalid_direction id)) = refl
  serve_handled-placed c ids (s, err (invalid_state t)) = refl
  serve_handled-placed c ids (s, err (invalid_message t)) = refl
  serve_handled-placed c ids (s, err crypto_not_established) = refl
  serve_handled-placed c ids (s, err handshake_incomplete) = refl
  serve_handled-placed c ids (s, err already_closed) = refl
  serve_handled-placed c ids (s, err (invalid_transition t)) = refl

  serve_decoded-placed :
      (c : Connection Script) (r : Result BapSessionError DecodedBapFrame)
      → serve_decoded cipher (placed d q c) r ≡ placed_turn d q (serve_decoded cipher c r)
  unfolding serve_decoded placed give_up trace_c2s push_trace placed_turn
  serve_decoded-placed c (ok frame) =
      serve_handled-placed (trace_c2s c (frame_ids frame) (codes "RECV")) (frame_ids frame)
        (handle_decoded_frame c.local.stateful frame Direction.client_to_server)
  serve_decoded-placed c (err (framing e)) = refl
  serve_decoded-placed c (err (session e)) = refl
  serve_decoded-placed c (err decrypt_failed) = refl
  serve_decoded-placed c (err encrypt_failed) = refl
  serve_decoded-placed c (err empty_ciphertext) = refl
  serve_decoded-placed c (err trailing_bytes) = refl

  serve_frame-placed :
      (c : Connection Script) (raw : RawBapFrame)
      → serve_frame cipher (placed d q c) raw ≡ placed_turn d q (serve_frame cipher c raw)
  unfolding serve_frame placed set_stateful
  serve_frame-placed c raw =
      let (session', r) =
        decode_frame cipher c.local.stateful.session NonceDirection.client_to_server
          raw.raw_bytes in
      serve_decoded-placed (set_stateful c (record (c.local.stateful) { session = session' })) r

  pub serve_frames-placed :
      (c : Connection Script) (raws : List RawBapFrame)
      → serve_frames cipher (placed d q c) raws ≡ placed_turn d q (serve_frames cipher c raws)
  unfolding serve_frames placed_turn
  serve_frames-placed c [] = refl
  serve_frames-placed c (raw ∷ rest) = elim (Turn-cases (serve_frame cipher c raw)) [
    | inl (c', e) ↦ ground (arith, serve_frame-placed c raw, serve_frames-placed c' rest)
    | inr (inl (c', e)) ↦ ground (arith, serve_frame-placed c raw)
    | inr (inr (inl (c', r, e))) ↦ ground (arith, serve_frame-placed c raw)
    | inr (inr (inr e)) ↦ ground (arith, serve_frame-placed c raw)
  ]
