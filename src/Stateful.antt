-- ===== src/Stateful.antt =====
-- network/src/stateful_bap_session.rs: one connection of the local server.
pub mod Begin
pub mod Handle
pub mod Handshake
pub mod Replies
pub mod Failures
use destiny1_pc_project.Prelude.{
  ℕ, ◌≡◌, Bool, true, false, not, ◌&&◌, List, [], ◌∷◌, ◌++◌, ◌==◌, if◌then◌else◌, Text, codes,
  hex04, Result, ok, err, ◌>>=◌, Call, returns, panics, map_err,
}
use destiny1_pc_project.Nonce
use destiny1_pc_project.Nonce.{NonceDirection}
use destiny1_pc_project.Aead.{AesGcm}
use destiny1_pc_project.Session
use destiny1_pc_project.Session.{BapSession, BapSessionError, DecodedBapFrame, decode_frame}
use destiny1_pc_project.Codec
use destiny1_pc_project.Codec.{
  BapMessage, CodecError, Direction, invalid_payload_length, invalid_field_length,
  invalid_record_length, unexpected_message_id, malformed_message, unsupported_message,
  decode_from_frame,
}
use destiny1_pc_project.Protocol.{
  ProtocolState, session_established, waiting_for_service_handshake, ProtocolStateError,
  unexpected_message, invalid_direction, invalid_state, invalid_message, crypto_not_established,
  handshake_incomplete, already_closed, invalid_transition, TransitionResult, advanced, observed,
  rejected, as_str, transition, begin_waiting_for_handshake, complete_encrypted_handshake,
  begin_closing, close, apply_transition,
}
use destiny1_pc_project.Events.{
  SyntheticSessionMaterial, synthetic_session_key, synthetic_session_nonce, ProtocolEvent,
  message_received, message_decoded, state_transition, message_rejected, response_sent,
  session_closed, error_text, codec_error_text,
}
use destiny1_pc_project.Policy
use destiny1_pc_project.Policy.{ResponsePolicy, ResponseAction, UnknownPolicy, decide}
use destiny1_pc_project.Dispatcher
use destiny1_pc_project.Dispatcher.{MessageDispatcher, DispatchResult, dispatch}

pub record HandleResult : Type 0 where
  pub transition : TransitionResult
  pub actions : List ResponseAction
  pub dispatch : DispatchResult
  pub message : BapMessage

pub record StatefulBapSession : Type 0 where
  pub connection_id : ℕ
  pub protocol_state : ProtocolState
  pub session : BapSession
  pub material : SyntheticSessionMaterial
  pub dispatcher : MessageDispatcher
  pub policy : ResponsePolicy
  pub events : List ProtocolEvent

-- `begin_waiting_for_handshake(..).unwrap_or(WaitingForServiceHandshake)`.
unfoldable pub accepted : Result ProtocolStateError ProtocolState → ProtocolState
accepted (ok state) = state
accepted (err e) = waiting_for_service_handshake

unfoldable pub with_material :
    ℕ → SyntheticSessionMaterial → Result BapSessionError StatefulBapSession
unfolding accepted begin_waiting_for_handshake
with_material connection_id material = do
  session ← Session.new material.key material.nonce
  ok (record {
    connection_id = connection_id;
    protocol_state = accepted (begin_waiting_for_handshake ProtocolState.connected);
    session = session;
    material = material;
    dispatcher = Dispatcher.new;
    policy = Policy.default;
    events = ProtocolEvent.connected connection_id ∷ [];
  })

-- With the default `SyntheticSessionMaterial`.
unfoldable pub new_synthetic : ℕ → Result BapSessionError StatefulBapSession
unfolding with_material
new_synthetic connection_id =
    with_material connection_id
      (record { key = synthetic_session_key; nonce = synthetic_session_nonce })

unfoldable pub push_event : StatefulBapSession → ProtocolEvent → StatefulBapSession
push_event s e = record s { events = s.events ++ (e ∷ []) }

-- `==` of `ProtocolState`.
unfoldable pub state_discrete : Discrete ProtocolState
state_discrete = hlevel

-- `set_state` after its test `from != to`.
unfoldable pub move_to :
    (s : StatefulBapSession) (to : ProtocolState) → Dec (s.protocol_state ≡ to) → StatefulBapSession
move_to s to (yes same) = s
move_to s to (no other) = record s {
  events = s.events ++ (state_transition (as_str s.protocol_state) (as_str to) ∷ []);
  protocol_state = to;
}

unfoldable pub set_state : StatefulBapSession → ProtocolState → StatefulBapSession
unfolding move_to state_discrete
set_state s to = move_to s to (state_discrete s.protocol_state to)

unfoldable pub set_unknown_policy : StatefulBapSession → UnknownPolicy → StatefulBapSession
set_unknown_policy s p = record s { policy = record (s.policy) { unknown = p } }

abbrev pub Handled : Type 0
Handled = StatefulBapSession × Result ProtocolStateError HandleResult

abbrev direction_text : Direction → Text
direction_text Direction.client_to_server = codes "C2S"
direction_text Direction.server_to_client = codes "S2C"

-- The two events that every message leaves.
unfoldable pub note_message : StatefulBapSession → BapMessage → StatefulBapSession
unfolding push_event
note_message s message =
    push_event
      (push_event s
        (message_received (Codec.id message) (direction_text (Codec.direction message))))
      (message_decoded (Codec.id message) (Codec.is_known message))

-- The `Rejected` arm: the message is dispatched, answered by nothing, and the call succeeds.
unfoldable pub reject_message : StatefulBapSession → BapMessage → ProtocolStateError → Handled
unfolding push_event
reject_message s message reason =
    let s' = push_event s (message_rejected (Codec.id message) (error_text reason)) in
    let (dispatcher', result) = dispatch s'.dispatcher message in
    (
      record s' { dispatcher = dispatcher' },
      ok (record {
        transition = rejected reason;
        actions = ResponseAction.nothing ∷ [];
        dispatch = result;
        message = message;
      }),
    )

-- The event for a reply.
unfoldable pub note_reply : StatefulBapSession → ResponseAction → StatefulBapSession
unfolding push_event
note_reply s (ResponseAction.send_clear id ctx payload) = push_event s (response_sent id)
note_reply s (ResponseAction.send_encrypted id ctx payload) = push_event s (response_sent id)
note_reply s _ = s

-- From the unknown-reject policy to the end of the call.
unfoldable pub answer :
    StatefulBapSession → BapMessage → TransitionResult → ResponseAction → Handled
unfolding note_reply
answer s message tr ResponseAction.reject = (s, err (unexpected_message (Codec.id message)))
answer s message tr action =
    let (dispatcher', result) = dispatch s.dispatcher message in
    (
      note_reply (record s { dispatcher = dispatcher' }) action,
      ok (record { transition = tr; actions = action ∷ []; dispatch = result; message = message }),
    )

unfoldable pub is_established : ProtocolState → Bool
is_established session_established = true
is_established _ = false

-- After an accepted `0x79`: complete the encrypted handshake.
unfoldable pub complete :
    StatefulBapSession
    → Result ProtocolStateError ProtocolState
    → BapMessage
    → TransitionResult
    → ResponseAction
    → Handled
complete s (ok next) message tr action = answer (set_state s next) message tr action
complete s (err e) message tr action = (s, err e)

-- The arm of an accepted message, and what follows it. `before` is the state before the transition.
unfoldable pub accept_message :
    StatefulBapSession
    → ProtocolState
    → BapMessage
    → TransitionResult
    → ResponseAction
    → Result ProtocolStateError ProtocolState
    → Handled
unfolding complete
accept_message s before message tr action (err e) = (s, err e)
accept_message s before message tr action (ok new_state) =
    let s' = set_state s new_state in
    if is_established before && Codec.id message == 0x79
    then complete s' (complete_encrypted_handshake s'.protocol_state) message tr action
    else answer s' message tr action

-- The `match &tr`.
unfoldable pub settle :
    StatefulBapSession → BapMessage → TransitionResult → ResponseAction → Handled
settle s message (rejected reason) action = reject_message s message reason
settle s message (advanced from to) action =
    accept_message s s.protocol_state message (advanced from to) action
      (apply_transition s.protocol_state (advanced from to))
settle s message (observed state) action =
    accept_message s s.protocol_state message (observed state) action
      (apply_transition s.protocol_state (observed state))

unfoldable pub handle_message : StatefulBapSession → BapMessage → Handled
handle_message s message =
    let noted = note_message s message in
    settle noted message (transition s.protocol_state message)
      (decide s.policy s.protocol_state message)

unfoldable pub handle_decoded : StatefulBapSession → Result CodecError BapMessage → Handled
handle_decoded s (ok message) = handle_message s message
handle_decoded s (err e) = (s, err (invalid_message (codec_error_text e)))

unfoldable pub handle_decoded_frame : StatefulBapSession → DecodedBapFrame → Direction → Handled
unfolding handle_decoded
handle_decoded_frame s frame direction = handle_decoded s (decode_from_frame frame direction)

unfoldable pub begin_close : StatefulBapSession → StatefulBapSession
begin_close s = set_state s (begin_closing s.protocol_state)

unfoldable pub finish_close : StatefulBapSession → StatefulBapSession
unfolding push_event
finish_close s = push_event (set_state s (close s.protocol_state)) session_closed

unfoldable pub decode_c2s_frame :
    AesGcm
    → StatefulBapSession
    → List ℕ
    → StatefulBapSession × Result BapSessionError DecodedBapFrame
decode_c2s_frame cipher s raw =
    let (session', r) = decode_frame cipher s.session NonceDirection.client_to_server raw in
    (record s { session = session' }, r)

unfoldable pub encode_clear : StatefulBapSession → ℕ → ℕ → List ℕ → Call (List ℕ)
encode_clear s msg_id context payload = Session.encode_clear msg_id context payload

-- The result of a call that encodes, with the session put back into the connection.
unfoldable pub put_back :
    StatefulBapSession
    → Call (BapSession × Result BapSessionError (List ℕ))
    → Call (StatefulBapSession × Result BapSessionError (List ℕ))
put_back s (returns (session', r)) = returns (record s { session = session' }, r)
put_back s panics = panics

unfoldable pub encode_encrypted_s2c :
    AesGcm
    → StatefulBapSession
    → ℕ
    → ℕ
    → List ℕ
    → Call (StatefulBapSession × Result BapSessionError (List ℕ))
unfolding put_back
encode_encrypted_s2c cipher s msg_id context payload = put_back s (
    Session.encode_encrypted cipher s.session NonceDirection.server_to_client msg_id context
      payload)
