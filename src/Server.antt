-- ===== src/Server.antt =====
-- network/src/local_server.rs: one connection of the local server, from its bytes to its replies.
pub mod Turns
pub mod Chunks
pub mod Replies
pub mod Serve
pub mod Handshake
pub mod Closing
use destiny1_pc_project.Prelude.{
  ℕ, zero, suc, Bool, true, false, not, ◌||◌, Option, none, some, List, [], ◌∷◌, ◌++◌, ◌==◌,
  if◌then◌else◌, length, is_empty, Text, codes, hex02, Result, ok, err, ◌>>=◌, ◌>>◌, fail_if,
  map_err, Call, returns, panics,
}
use destiny1_pc_project.Nonce.{NonceDirection}
use destiny1_pc_project.Aead.{AesGcm}
use destiny1_pc_project.Session
use destiny1_pc_project.Session.{BapSession, BapSessionError, DecodedBapFrame, decode_frame}
use destiny1_pc_project.Codec
use destiny1_pc_project.Codec.{
  BapMessage, KnownBapMessage, OpaquePayload, Direction, encode_message,
}
use destiny1_pc_project.Protocol
use destiny1_pc_project.Protocol.{ProtocolState, ProtocolStateError, TransitionResult}
use destiny1_pc_project.Policy.{ResponseAction}
use destiny1_pc_project.Events.{
  SyntheticSessionMaterial, synthetic_session_key, synthetic_session_nonce, error_text,
}
use destiny1_pc_project.Stateful
use destiny1_pc_project.Stateful.{
  StatefulBapSession, HandleResult, Handled, handle_decoded_frame, begin_close, finish_close,
}
use destiny1_pc_project.Stream
use destiny1_pc_project.Stream.{BapStreamDecoder, RawBapFrame, StreamFramingError, push}
use destiny1_pc_project.LocalProtocol
use destiny1_pc_project.LocalProtocol.{ServerTraceEvent, ProtocolErrorKind, kind_str}
use destiny1_pc_project.Display.{stream_text, session_text}

pub data LocalServerError : Type 0 where
  bind accept io protocol crypto : Text → LocalServerError
  stopped max_connections : LocalServerError

-- What `read` on a socket gives. No bytes are the end of the stream.
pub data ReadOutcome : Type 0 where
  received : List ℕ → ReadOutcome
  timed_out : ReadOutcome
  failed : Text → ReadOutcome

-- The standard library's `TcpStream`: a call changes the socket.
pub record Socket (S : Type 0) : Type 0 where
  pub read : S → S × ReadOutcome
  pub write_all : S → List ℕ → S × Result Text (Unit {0})
  pub shutdown : S → S

pub record LocalBapSession : Type 0 where
  pub connection_id : ℕ
  pub stateful : StatefulBapSession

-- `with_keys`. The copies into the fixed arrays of the material are of the right lengths then.
unfoldable pub with_keys : ℕ → List ℕ → List ℕ → Result LocalServerError LocalBapSession
with_keys connection_id key nonce = do
  fail_if (not (length key == 16) || not (length nonce == 12))
      (crypto (codes "synthetic key/nonce length"))
  stateful ←
      map_err (λ e. crypto (session_text e))
        (Stateful.with_material connection_id (record { key = key; nonce = nonce }))
  ok (record { connection_id = connection_id; stateful = stateful })

unfoldable pub with_synthetic : ℕ → Result LocalServerError LocalBapSession
unfolding with_keys
with_synthetic connection_id = with_keys connection_id synthetic_session_key synthetic_session_nonce

unfoldable pub protocol_state : LocalBapSession → ProtocolState
protocol_state l = l.stateful.protocol_state

-- What `handle_connection` holds on to: the socket, the session, the decoder and the traces.
pub record Connection (S : Type 0) : Type 0 where
  pub stream : S
  pub local : LocalBapSession
  pub decoder : BapStreamDecoder
  pub traces : List ServerTraceEvent

-- How a part of the loop ends: it goes on, breaks out of the loop, returns from the function, or panics.
pub data Turn (S : Type 0) : Type 0 where
  goes_on breaks : Connection S → Turn S
  ends : Connection S → Result LocalServerError (Unit {0}) → Turn S
  panicked : Turn S

unfoldable pub frame_ids : DecodedBapFrame → Option ℕ × Option ℕ
frame_ids (DecodedBapFrame.clear msg_id context payload) = (some msg_id, some context)
frame_ids (DecodedBapFrame.decrypted msg_id context payload n) = (msg_id, context)
frame_ids (DecodedBapFrame.opaque kind n) = (none, none)

unfoldable pub codec_message : ℕ → ℕ → Direction → List ℕ → Option BapMessage
codec_message msg_id context direction payload =
    let opaque : OpaquePayload = record {
      context = context;
      direction = direction;
      payload = payload;
    } in
    if msg_id == 0x1E
    then some (Codec.known (Codec.destiny_service_handshake_request opaque))
    else if msg_id == 0x1F
    then some (Codec.known (Codec.destiny_service_handshake_response opaque))
    else if msg_id == 0x19
    then some (Codec.known (Codec.session_login_request opaque))
    else if msg_id == 0x1A
    then some (Codec.known (Codec.session_login_response context direction none payload))
    else if msg_id == 0x79
    then some (Codec.known (Codec.encrypted_handshake_request opaque))
    else if msg_id == 0x7A
    then some (Codec.known (Codec.encrypted_handshake_status opaque))
    else if msg_id == 0x12E
    then some (Codec.known (Codec.message_0x12e opaque))
    else if msg_id == 0x12F
    then some (Codec.known (Codec.message_0x12f opaque))
    else if msg_id == 0xFA
    then some (Codec.known (Codec.message_0xfa opaque))
    else if msg_id == 0xFB
    then some (Codec.known (Codec.message_0xfb opaque))
    else none

-- `unwrap_or_else(|_| payload.to_vec())`.
unfoldable pub body_or : List ℕ → Result Codec.CodecError (List ℕ) → List ℕ
body_or payload (ok body) = body
body_or payload (err e) = payload

unfoldable pub encoded_or : List ℕ → Option BapMessage → List ℕ
unfolding body_or
encoded_or payload none = payload
encoded_or payload (some m) = body_or payload (encode_message m)

unfoldable pub encode_via_codec : ℕ → ℕ → Direction → List ℕ → List ℕ
unfolding encoded_or codec_message
encode_via_codec msg_id context direction payload =
    encoded_or payload (codec_message msg_id context direction payload)

module _ {S : Type 0} where
  -- `push_trace`, with the fields that every call fills alike.
  unfoldable pub push_trace : Connection S → Text → Option ℕ → Option ℕ → Text → Text → Connection S
  push_trace c direction message_id context state action = record c {
    traces =
        c.traces
        ++ (record {
          timestamp = none;
          connection_id = c.local.connection_id;
          direction = direction;
          message_id = message_id;
          context = context;
          state = state;
          action = action;
        }
            ∷ []);
  }

  unfoldable pub state_text : Connection S → Text
  state_text c = Protocol.as_str (protocol_state c.local)

  unfoldable pub trace_sys : Connection S → Text → Connection S
  unfolding push_trace state_text
  trace_sys c action = push_trace c (codes "SYS") none none (state_text c) action

  unfoldable pub trace_c2s : Connection S → Option ℕ × Option ℕ → Text → Connection S
  unfolding push_trace state_text
  trace_c2s c (msg_id, context) action =
      push_trace c (codes "C2S") msg_id context (state_text c) action

  unfoldable pub trace_sent : Connection S → ℕ → ℕ → Connection S
  unfolding push_trace state_text
  trace_sent c msg_id context =
      push_trace c (codes "S2C") (some msg_id) (some context) (state_text c) (codes "SendFrame")

  unfoldable pub set_stateful : Connection S → StatefulBapSession → Connection S
  set_stateful c s = record c { local = record (c.local) { stateful = s } }

  -- The arm `Ok(0)`.
  unfoldable pub serve_eof : Connection S → Turn S
  unfolding set_stateful trace_sys
  serve_eof c =
      breaks
        (trace_sys (set_stateful c (finish_close (begin_close c.local.stateful))) (codes "EOF"))

  -- The connection before its first read.
  unfoldable pub accepted : S → LocalBapSession → Connection S
  unfolding trace_sys
  accepted stream local =
      trace_sys (record { stream = stream; local = local; decoder = Stream.new; traces = [] })
        (codes "ACCEPT")

module _ {S : Type 0} ⦃sock : Socket S⦄ where
  -- `let _ = stream.shutdown(Shutdown::Both); return Err(e)`.
  unfoldable pub give_up : Connection S → LocalServerError → Turn S
  give_up c e = ends (record c { stream = sock.shutdown c.stream }) (err e)

  -- `write_all(..).map_err(..)?`, then the trace.
  unfoldable pub written : Connection S → ℕ → ℕ → S × Result Text (Unit {0}) → Turn S
  unfolding trace_sent
  written c msg_id context (stream', ok _) =
      goes_on (trace_sent (record c { stream = stream' }) msg_id context)
  written c msg_id context (stream', err e) = ends (record c { stream = stream' }) (err (io e))

  unfoldable pub send_bytes : Connection S → ℕ → ℕ → List ℕ → Turn S
  unfolding written
  send_bytes c msg_id context bytes = written c msg_id context (sock.write_all c.stream bytes)

  unfoldable pub send_clear_bytes : Connection S → ℕ → ℕ → Call (List ℕ) → Turn S
  unfolding send_bytes
  send_clear_bytes c msg_id context panics = panicked
  send_clear_bytes c msg_id context (returns bytes) = send_bytes c msg_id context bytes

  unfoldable pub send_sealed_bytes :
      Connection S → ℕ → ℕ → Call (BapSession × Result BapSessionError (List ℕ)) → Turn S
  unfolding send_bytes set_stateful
  send_sealed_bytes c msg_id context panics = panicked
  send_sealed_bytes c msg_id context (returns (session', ok bytes)) =
      send_bytes (set_stateful c (record (c.local.stateful) { session = session' })) msg_id context
        bytes
  send_sealed_bytes c msg_id context (returns (session', err e)) =
      ends (set_stateful c (record (c.local.stateful) { session = session' }))
        (err (crypto (session_text e)))

  -- What follows the loop.
  unfoldable pub after_loop : Turn S → Turn S
  unfolding set_stateful
  after_loop (breaks c) =
      let c' = set_stateful c (finish_close c.local.stateful) in
      ends (record c' { stream = sock.shutdown c'.stream }) (ok tt)
  after_loop (goes_on c) = goes_on c
  after_loop (ends c r) = ends c r
  after_loop panicked = panicked

module _ {S : Type 0} ⦃sock : Socket S⦄ (cipher : AesGcm) where
  -- The `match action`.
  unfoldable pub run_action : Connection S → ResponseAction → Turn S
  unfolding send_clear_bytes send_sealed_bytes give_up
  run_action c (ResponseAction.send_clear msg_id context payload) =
      send_clear_bytes c msg_id context (
        Session.encode_clear msg_id context
          (encode_via_codec msg_id context Direction.server_to_client payload))
  run_action c (ResponseAction.send_encrypted msg_id context payload) =
      send_sealed_bytes c msg_id context (
        Session.encode_encrypted cipher c.local.stateful.session NonceDirection.server_to_client
          msg_id context (encode_via_codec msg_id context Direction.server_to_client payload))
  run_action c ResponseAction.observe_only = goes_on c
  run_action c ResponseAction.nothing = goes_on c
  run_action c ResponseAction.reject =
      give_up c (protocol (kind_str ProtocolErrorKind.unexpected_message))

  -- `for action in handled.actions`.
  unfoldable pub run_actions : Connection S → List ResponseAction → Turn S
  run_actions c [] = goes_on c
  run_actions c (action ∷ rest) = elim (run_action c action) [
    | goes_on c' ↦ run_actions c' rest
    | breaks c' ↦ breaks c'
    | ends c' r ↦ ends c' r
    | panicked ↦ panicked
  ]

  -- Behind `handle_decoded_frame`: the rejection, the state change, the actions.
  unfoldable pub settle_handled :
      Connection S → Option ℕ × Option ℕ → TransitionResult → List ResponseAction → Turn S
  unfolding give_up trace_c2s push_trace
  settle_handled c ids (TransitionResult.rejected reason) actions =
      give_up (trace_c2s c ids (codes "UNEXPECTED_MESSAGE " ++ error_text reason))
        (protocol (kind_str ProtocolErrorKind.unexpected_message))
  settle_handled c ids (TransitionResult.advanced from to) actions =
      run_actions
        (push_trace c (codes "SYS") none none (Protocol.as_str to)
          (codes "ChangeState " ++ (Protocol.as_str from ++ (codes "→" ++ Protocol.as_str to))))
        actions
  settle_handled c ids (TransitionResult.observed state) actions = run_actions c actions

  unfoldable pub serve_handled : Connection S → Option ℕ × Option ℕ → Handled → Turn S
  unfolding give_up trace_c2s set_stateful
  serve_handled c ids (s', ok handled) =
      settle_handled (set_stateful c s') ids handled.transition handled.actions
  serve_handled c ids (s', err (ProtocolStateError.invalid_message detail)) =
      give_up (trace_c2s (set_stateful c s') ids (codes "InvalidMessage " ++ detail))
        (protocol (codes "InvalidMessage"))
  serve_handled c ids (s', err e) =
      give_up (trace_c2s (set_stateful c s') ids (codes "UNEXPECTED_MESSAGE " ++ error_text e))
        (protocol (kind_str ProtocolErrorKind.unexpected_message))

  -- The `match` on `decode_frame`.
  unfoldable pub serve_decoded : Connection S → Result BapSessionError DecodedBapFrame → Turn S
  unfolding give_up trace_c2s serve_handled frame_ids
  serve_decoded c (err BapSessionError.decrypt_failed) =
      give_up (trace_c2s c (none, none) (kind_str ProtocolErrorKind.gcm_decrypt_failure))
        (crypto (kind_str ProtocolErrorKind.gcm_decrypt_failure))
  serve_decoded c (err e) =
      give_up (trace_c2s c (none, none) (codes "AUTH/CRYPTO ERROR " ++ session_text e))
        (crypto (kind_str ProtocolErrorKind.auth_crypto_error))
  serve_decoded c (ok frame) =
      let c' = trace_c2s c (frame_ids frame) (codes "RECV") in
      serve_handled c' (frame_ids frame)
        (handle_decoded_frame c'.local.stateful frame Direction.client_to_server)

  unfoldable pub serve_frame : Connection S → RawBapFrame → Turn S
  unfolding serve_decoded set_stateful
  serve_frame c raw =
      let (session', r) =
        decode_frame cipher c.local.stateful.session NonceDirection.client_to_server
          raw.raw_bytes in
      serve_decoded (set_stateful c (record (c.local.stateful) { session = session' })) r

  -- `for raw in frames`.
  unfoldable pub serve_frames : Connection S → List RawBapFrame → Turn S
  serve_frames c [] = goes_on c
  serve_frames c (raw ∷ rest) = elim (serve_frame c raw) [
    | goes_on c' ↦ serve_frames c' rest
    | breaks c' ↦ breaks c'
    | ends c' r ↦ ends c' r
    | panicked ↦ panicked
  ]

  -- The `match decoder.push(..)`.
  unfoldable pub serve_pushed : Connection S → Result StreamFramingError (List RawBapFrame) → Turn S
  unfolding give_up trace_c2s
  serve_pushed c (ok frames) = serve_frames c frames
  serve_pushed c (err (StreamFramingError.invalid_magic m)) =
      give_up (trace_c2s c (none, none) (codes "PROTOCOL_ERROR invalid magic 0x" ++ hex02 m))
        (protocol (kind_str ProtocolErrorKind.protocol_error))
  serve_pushed c (err (StreamFramingError.invalid_kind k)) =
      give_up (trace_c2s c (none, none) (codes "PROTOCOL_ERROR invalid kind 0x" ++ hex02 k))
        (protocol (kind_str ProtocolErrorKind.protocol_error))
  serve_pushed c (err e) =
      give_up (trace_c2s c (none, none) (codes "PROTOCOL_ERROR " ++ stream_text e))
        (protocol (stream_text e))

  unfoldable pub serve_chunk : Connection S → List ℕ → Turn S
  unfolding serve_pushed
  serve_chunk c bytes =
      let (decoder', r) = push c.decoder bytes in serve_pushed (record c { decoder = decoder' }) r

  unfoldable pub serve_read : Connection S → ReadOutcome → Turn S
  unfolding serve_chunk serve_eof trace_sys
  serve_read c (received []) = serve_eof c
  serve_read c (received (b ∷ bytes)) = serve_chunk c (b ∷ bytes)
  serve_read c timed_out = breaks (trace_sys c (codes "TIMEOUT"))
  serve_read c (failed e) = ends c (err (io e))

  -- The `loop`, on fuel: a client may send for ever. `goes_on` means that the fuel ran out.
  unfoldable pub serve_loop : ℕ → Connection S → Turn S
  serve_loop zero c = goes_on c
  serve_loop (suc fuel) c =
      let (stream', outcome) = sock.read c.stream in
      elim (serve_read (record c { stream = stream' }) outcome) [
        | goes_on c' ↦ serve_loop fuel c'
        | breaks c' ↦ breaks c'
        | ends c' r ↦ ends c' r
        | panicked ↦ panicked
      ]

  -- Where the session cannot be made, the error is returned at once.
  unfoldable pub handle_connection : ℕ → ℕ → S → List ℕ → List ℕ → Result LocalServerError (Turn S)
  unfolding after_loop accepted
  handle_connection fuel connection_id stream key nonce = do
    local ← with_keys connection_id key nonce
    ok (after_loop (serve_loop fuel (accepted stream local)))
