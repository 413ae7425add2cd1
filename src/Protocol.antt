-- ===== src/Protocol.antt =====
-- network/src/protocol_state.rs: the local server's state machine.
pub mod Graph
use destiny1_pc_project.Prelude.{
  ℕ, Bool, true, false, not, ◌&&◌, Option, none, some, List, [], ◌∷◌, ◌==◌, if◌then◌else◌, one_of,
  Text, codes, Result, ok, err,
}
use destiny1_pc_project.Codec
use destiny1_pc_project.Codec.{BapMessage, Direction}

pub data ProtocolState : Type 0 where
  connected waiting_for_service_handshake service_handshake_complete : ProtocolState
  waiting_for_session_login session_established waiting_for_encrypted_handshake : ProtocolState
  encrypted_channel_established active closing closed : ProtocolState

unfoldable pub as_str : ProtocolState → Text
as_str connected = codes "CONNECTED"
as_str waiting_for_service_handshake = codes "WAITING_FOR_SERVICE_HANDSHAKE"
as_str service_handshake_complete = codes "SERVICE_HANDSHAKE_COMPLETE"
as_str waiting_for_session_login = codes "WAITING_FOR_SESSION_LOGIN"
as_str session_established = codes "SESSION_ESTABLISHED"
as_str waiting_for_encrypted_handshake = codes "WAITING_FOR_ENCRYPTED_HANDSHAKE"
as_str encrypted_channel_established = codes "ENCRYPTED_CHANNEL_ESTABLISHED"
as_str active = codes "ACTIVE"
as_str closing = codes "CLOSING"
as_str closed = codes "CLOSED"

unfoldable pub is_terminal : ProtocolState → Bool
is_terminal closed = true
is_terminal _ = false

unfoldable pub crypto_expected : ProtocolState → Bool
crypto_expected waiting_for_encrypted_handshake = true
crypto_expected encrypted_channel_established = true
crypto_expected active = true
crypto_expected _ = false

pub data ProtocolStateError : Type 0 where
  unexpected_message : ℕ → ProtocolStateError
  invalid_direction : ℕ → ProtocolStateError
  invalid_state : Text → ProtocolStateError
  invalid_message : Text → ProtocolStateError
  crypto_not_established : ProtocolStateError
  handshake_incomplete : ProtocolStateError
  already_closed : ProtocolStateError
  invalid_transition : Text → ProtocolStateError

pub data TransitionResult : Type 0 where
  -- from, to
  advanced : ProtocolState → ProtocolState → TransitionResult
  observed : ProtocolState → TransitionResult
  rejected : ProtocolStateError → TransitionResult

unfoldable pub is_rejected : TransitionResult → Bool
is_rejected (advanced from to) = false
is_rejected (observed s) = false
is_rejected (rejected reason) = true

abbrev pub is_c2s : Direction → Bool
is_c2s Direction.client_to_server = true
is_c2s Direction.server_to_client = false

unfoldable pub expected_c2s : ℕ → Bool
unfolding one_of
expected_c2s id = one_of id (0x1E ∷ 0x19 ∷ 0x79 ∷ 0x12E ∷ 0xFA ∷ 0x0A ∷ 0x0C ∷ [])

unfoldable pub expected_s2c : ℕ → Bool
unfolding one_of
expected_s2c id = one_of id (0x1F ∷ 0x1A ∷ 0x7A ∷ 0x12F ∷ 0xFB ∷ 0x0B ∷ 0x0D ∷ [])

unfoldable pub is_sequenced_id : ℕ → Bool
unfolding one_of
is_sequenced_id id =
    one_of id (0x1E ∷ 0x1F ∷ 0x19 ∷ 0x1A ∷ 0x79 ∷ 0x7A ∷ 0x12E ∷ 0x12F ∷ 0xFA ∷ 0xFB ∷ [])

-- The ids that make an established channel active.
unfoldable pub is_activity_id : ℕ → Bool
unfolding one_of
is_activity_id id = one_of id (0x12E ∷ 0x12F ∷ 0xFA ∷ 0xFB ∷ 0x0A ∷ 0x0B ∷ 0x0C ∷ 0x0D ∷ [])

-- One waiting state: `wanted` advances it, any other sequenced id is rejected, the rest observed.
unfoldable pub await_id : ProtocolState → ℕ → ProtocolState → ℕ → TransitionResult
await_id state wanted to id =
    if id == wanted
    then advanced state to
    else if is_sequenced_id id
    then rejected (unexpected_message id)
    else observed state

-- The `match (state, id)`.
unfoldable pub match_state : ProtocolState → ℕ → TransitionResult
unfolding await_id
match_state connected id = rejected (invalid_state (codes "use begin_waiting_for_handshake first"))
match_state waiting_for_service_handshake id =
    await_id waiting_for_service_handshake 0x1E service_handshake_complete id
match_state service_handshake_complete id =
    await_id service_handshake_complete 0x19 session_established id
match_state waiting_for_session_login id =
    await_id waiting_for_session_login 0x19 session_established id
match_state session_established id =
    await_id session_established 0x79 waiting_for_encrypted_handshake id
match_state waiting_for_encrypted_handshake id =
    if id == 0x7A
    then rejected (unexpected_message 0x7A)
    else if is_sequenced_id id
    then rejected (unexpected_message id)
    else observed waiting_for_encrypted_handshake
match_state encrypted_channel_established id =
    if is_activity_id id then advanced encrypted_channel_established active else observed active
match_state active id = if is_activity_id id then observed active else observed active
match_state closing id = rejected (unexpected_message id)
match_state closed id = rejected (unexpected_message id)

-- The direction checks, then the match.
unfoldable pub checked : ProtocolState → ℕ → Direction → TransitionResult
checked state id dir =
    if expected_c2s id && not (is_c2s dir)
    then rejected (invalid_direction id)
    else if expected_s2c id && is_c2s dir
    then rejected (invalid_direction id)
    else match_state state id

unfoldable pub transition : ProtocolState → BapMessage → TransitionResult
transition closed message = rejected already_closed
transition closing message = rejected already_closed
transition state message = checked state (Codec.id message) (Codec.direction message)

unfoldable pub begin_waiting_for_handshake : ProtocolState → Result ProtocolStateError ProtocolState
begin_waiting_for_handshake connected = ok waiting_for_service_handshake
begin_waiting_for_handshake waiting_for_service_handshake = ok waiting_for_service_handshake
begin_waiting_for_handshake closed = err already_closed
begin_waiting_for_handshake closing = err already_closed
begin_waiting_for_handshake _ = err (invalid_transition (codes "handshake already started"))

unfoldable pub complete_encrypted_handshake :
    ProtocolState → Result ProtocolStateError ProtocolState
complete_encrypted_handshake waiting_for_encrypted_handshake = ok encrypted_channel_established
complete_encrypted_handshake encrypted_channel_established = ok encrypted_channel_established
complete_encrypted_handshake active = ok active
complete_encrypted_handshake _ = err handshake_incomplete

unfoldable pub begin_closing : ProtocolState → ProtocolState
begin_closing closed = closed
begin_closing _ = closing

unfoldable pub close : ProtocolState → ProtocolState
close state = closed

unfoldable pub apply_transition :
    ProtocolState → TransitionResult → Result ProtocolStateError ProtocolState
apply_transition state (advanced from to) = ok to
apply_transition state (observed s) = ok s
apply_transition state (rejected reason) = err reason
