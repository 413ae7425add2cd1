-- ===== src/Dispatcher.antt =====
-- network/src/message_dispatcher.rs: the observational dispatcher.
pub mod Record
use destiny1_pc_project.Prelude.{
  ℕ, Bool, true, false, ◌||◌, List, [], ◌∷◌, ◌++◌, ◌==◌, if◌then◌else◌, one_of,
}
use destiny1_pc_project.Codec
use destiny1_pc_project.Codec.{BapMessage, KnownBapMessage, known_id}

pub data DispatchResult : Type 0 where
  handled observed unknown : DispatchResult

pub data DispatchEvent : Type 0 where
  message_observed : ℕ → DispatchEvent
  startup_message_observed : ℕ → DispatchEvent
  keep_alive_observed : ℕ → DispatchEvent
  nat_message_observed : ℕ → DispatchEvent
  session_login_observed : DispatchEvent
  encrypted_handshake_observed : ℕ → DispatchEvent

pub record DispatchObservationState : Type 0 where
  pub startup_sequence_seen : Bool
  pub session_login_observed : Bool
  pub encrypted_handshake_observed : Bool
  pub nat_messages_observed : Bool
  pub keepalive_observed : Bool
  pub last_ids : List ℕ

pub record MessageDispatcher : Type 0 where
  pub state : DispatchObservationState
  pub events : List DispatchEvent

unfoldable pub new : MessageDispatcher
new = record {
  state = record {
    startup_sequence_seen = false;
    session_login_observed = false;
    encrypted_handshake_observed = false;
    nat_messages_observed = false;
    keepalive_observed = false;
    last_ids = [];
  };
  events = [];
}

unfoldable pub clear_events : MessageDispatcher → MessageDispatcher
clear_events d = record d { events = [] }

unfoldable pub event : MessageDispatcher → DispatchEvent → MessageDispatcher
event d e = record d { events = d.events ++ (e ∷ []) }

unfoldable pub note_startup : MessageDispatcher → ℕ → MessageDispatcher
unfolding event
note_startup d id =
    let d' = event d (startup_message_observed id) in
    record d' { state = record (d'.state) { startup_sequence_seen = true } }

unfoldable pub note_login : MessageDispatcher → ℕ → MessageDispatcher
unfolding event
note_login d id =
    let d' = event (event d (startup_message_observed id)) DispatchEvent.session_login_observed in
    record d' {
      state = record (d'.state) { startup_sequence_seen = true; session_login_observed = true };
    }

unfoldable pub note_nat : MessageDispatcher → ℕ → MessageDispatcher
unfolding event
note_nat d id =
    let d' = event d (nat_message_observed id) in
    record d' { state = record (d'.state) { nat_messages_observed = true } }

unfoldable pub note_keepalive : MessageDispatcher → ℕ → MessageDispatcher
unfolding event
note_keepalive d id =
    let d' = event d (keep_alive_observed id) in
    record d' { state = record (d'.state) { keepalive_observed = true } }

-- The `match k` of `note_known`.
unfoldable pub note_kind : MessageDispatcher → KnownBapMessage → MessageDispatcher
unfolding note_startup note_login note_nat note_keepalive known_id
note_kind d (Codec.session_login_response c dir r p) = note_login d 0x1A
note_kind d (Codec.message_0x12e o) = note_nat d 0x12E
note_kind d (Codec.message_0x12f o) = note_nat d 0x12F
note_kind d (Codec.message_0xfa o) = note_keepalive d 0xFA
note_kind d (Codec.message_0xfb o) = note_keepalive d 0xFB
note_kind d k = note_startup d (known_id k)

unfoldable pub note_known : MessageDispatcher → KnownBapMessage → MessageDispatcher
unfolding note_kind event
note_known d k =
    let d' = note_kind d k in
    let d'' = event d' (DispatchEvent.encrypted_handshake_observed (known_id k)) in
    if known_id k == 0x79 || known_id k == 0x7A
    then record d'' { state = record (d''.state) { encrypted_handshake_observed = true } }
    else d'

-- The two lines that `dispatch` and `observe` begin with.
unfoldable pub record_id : MessageDispatcher → ℕ → MessageDispatcher
record_id d id = record {
  state = record (d.state) { last_ids = d.state.last_ids ++ (id ∷ []) };
  events = d.events ++ (message_observed id ∷ []);
}

unfoldable pub dispatch_kind : MessageDispatcher → BapMessage → MessageDispatcher × DispatchResult
unfolding note_known
dispatch_kind d (Codec.unknown u) = (d, DispatchResult.unknown)
dispatch_kind d (Codec.known k) = (note_known d k, handled)

unfoldable pub dispatch : MessageDispatcher → BapMessage → MessageDispatcher × DispatchResult
unfolding record_id dispatch_kind
dispatch d message = dispatch_kind (record_id d (Codec.id message)) message

unfoldable pub note_if_known : MessageDispatcher → BapMessage → MessageDispatcher
unfolding note_known
note_if_known d (Codec.unknown u) = d
note_if_known d (Codec.known k) = note_known d k

unfoldable pub observe : MessageDispatcher → BapMessage → MessageDispatcher × DispatchResult
unfolding record_id note_if_known one_of note_keepalive
observe d message =
    let id = Codec.id message in
    let d' = record_id d id in
    if one_of id (0x1E ∷ 0x1F ∷ 0x19 ∷ 0x1A ∷ 0x79 ∷ 0x7A ∷ 0x12E ∷ 0x12F ∷ [])
    then (note_if_known d' message, observed)
    else if id == 0xFA || id == 0xFB
    then (note_keepalive d' id, observed)
    else (d', DispatchResult.unknown)
