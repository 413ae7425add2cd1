-- ===== src/Tests/Server.antt =====
-- Runs of the theorems on the codec, the state machine and the local server's connection.
use destiny1_pc_project.Prelude.{
  ℕ, ◌≡◌, refl, inr, true, false, arith, List, [], ◌∷◌, ◌++◌, ok, err,
}
use destiny1_pc_project.Tests.{bytes_of, toy_key, toy_nonce, toy_tag}
use destiny1_pc_project.Tests.Crypto.{toy_session}
use destiny1_pc_project.Codec
use destiny1_pc_project.Codec.{
  BapMessage, BapMessageEnvelope, Direction, SessionLoginResponseRecord, envelope, decode_message,
  decode_payload, encode_payload,
}
use destiny1_pc_project.Codec.Login.{IsLoginRecord}
use destiny1_pc_project.Codec.RoundTrip.{Keeps, decode_message-Keeps}
use destiny1_pc_project.Protocol
use destiny1_pc_project.Protocol.{ProtocolState, transition, apply_transition, unexpected_message}
use destiny1_pc_project.Policy
use destiny1_pc_project.Policy.{
  UnknownPolicy, ResponseAction, sim_context, payload_1f, payload_1a, payload_7a,
}
use destiny1_pc_project.Stateful
use destiny1_pc_project.Stateful.{StatefulBapSession, handle_message}
use destiny1_pc_project.Stateful.Handle.{Step, handle_message-Step}
use destiny1_pc_project.Stateful.Handshake.{handle_all, Heard, needed, handle_all-crypto_expected}
use destiny1_pc_project.Stateful.Replies.{
  replies, nothings, handle_all-handshake, handle_all-closed,
}
use destiny1_pc_project.Stateful.Failures.{handle_message-err}

-- A record with two bytes of ciphertext.
abbrev toy_record : SessionLoginResponseRecord
toy_record = record {
  prefix = 1;
  record_len = 50;
  iv = toy_tag;
  ciphertext = 5 ∷ 6 ∷ [];
  hmac = toy_tag ++ toy_tag;
}

toy_record-IsLoginRecord : IsLoginRecord toy_record
toy_record-IsLoginRecord = record {
  prefix_u16 = omega arith;
  record_len_u32 = omega arith;
  iv_len = refl;
  hmac_len = refl;
  long_enough = omega arith;
  cipher_len = refl;
}

abbrev toy_payload : List ℕ
toy_payload = 0 ∷ 1 ∷ 0 ∷ 0 ∷ 0 ∷ 50 ∷ (toy_tag ++ (5 ∷ 6 ∷ (toy_tag ++ toy_tag)))

abbrev toy_envelope : BapMessageEnvelope
toy_envelope = record {
  id = 0x1A;
  context = 1;
  direction = Direction.server_to_client;
  payload = toy_payload;
}

decode_message-Keeps_example :
    (m : BapMessage) × (decode_message toy_envelope ≡ ok m) × Keeps toy_envelope m
decode_message-Keeps_example = decode_message-Keeps toy_envelope (bytes_of toy_payload refl)

-- A message from the client with a codec, by its constructor.
abbrev request : (Codec.OpaquePayload → Codec.KnownBapMessage) → BapMessage
request kind =
    Codec.known
      (kind (record { context = 1; direction = Direction.client_to_server; payload = [] }))

abbrev hello : BapMessage
hello = request Codec.destiny_service_handshake_request

abbrev login : BapMessage
login = request Codec.session_login_request

abbrev encrypt : BapMessage
encrypt = request Codec.encrypted_handshake_request

abbrev stranger : BapMessage
stranger =
    Codec.unknown
      (record { id = 0x999; context = 1; direction = Direction.client_to_server; payload = [] })

-- A connection in a given state, under a given policy for unknown messages.
abbrev toy_connection : ProtocolState → UnknownPolicy → StatefulBapSession
toy_connection st p = record {
  connection_id = 1;
  protocol_state = st;
  session = toy_session;
  material = record { key = toy_key; nonce = toy_nonce };
  dispatcher = record {
    state = record {
      startup_sequence_seen = false;
      session_login_observed = false;
      encrypted_handshake_observed = false;
      nat_messages_observed = false;
      keepalive_observed = false;
      last_ids = [];
    };
    events = [];
  };
  policy = record { unknown = p; keepalive_reply = true };
  events = [];
}

abbrev waiting : StatefulBapSession
waiting = toy_connection ProtocolState.waiting_for_service_handshake UnknownPolicy.observe

handle_message-Step_example :
    Step
      (Codec.id hello)
      (Codec.direction hello)
      waiting.protocol_state
      (handle_message waiting hello).0.protocol_state
handle_message-Step_example = handle_message-Step waiting hello

handle_all-handshake_example :
    ((handle_all waiting (hello ∷ login ∷ encrypt ∷ [])).protocol_state
      ≡ ProtocolState.encrypted_channel_established)
    × (replies waiting (hello ∷ login ∷ encrypt ∷ [])
        ≡ ResponseAction.send_clear 0x1F sim_context payload_1f
          ∷ ResponseAction.send_clear 0x1A sim_context payload_1a
          ∷ ResponseAction.send_encrypted 0x7A sim_context payload_7a
          ∷ [])
unfolding Codec.id Codec.direction Codec.known_id Codec.known_direction
handle_all-handshake_example =
    handle_all-handshake waiting hello login encrypt refl (refl, refl) (refl, refl) (refl, refl)

encrypted_at_last :
    Protocol.crypto_expected
      (handle_all waiting (hello ∷ stranger ∷ login ∷ encrypt ∷ [])).protocol_state
    ≡ true
unfolding handle_all handle_message Stateful.settle Stateful.accept_message transition
    apply_transition Protocol.checked Protocol.expected_c2s Codec.id Codec.direction
    Protocol.expected_s2c Protocol.match_state Stateful.set_state Stateful.note_message
    Protocol.crypto_expected Stateful.is_established Stateful.answer Policy.decide
    Protocol.is_sequenced_id Protocol.complete_encrypted_handshake
encrypted_at_last = refl

handle_all-crypto_expected_example :
    Heard (needed waiting.protocol_state) (hello ∷ stranger ∷ login ∷ encrypt ∷ [])
handle_all-crypto_expected_example =
    handle_all-crypto_expected waiting (hello ∷ stranger ∷ login ∷ encrypt ∷ []) encrypted_at_last

abbrev closing : StatefulBapSession
closing = toy_connection ProtocolState.closing UnknownPolicy.observe

handle_all-closed_example :
    ((handle_all closing (hello ∷ stranger ∷ [])).protocol_state ≡ closing.protocol_state)
    × (replies closing (hello ∷ stranger ∷ []) ≡ nothings (hello ∷ stranger ∷ []))
handle_all-closed_example = handle_all-closed closing (hello ∷ stranger ∷ []) (inr refl)

abbrev strict : StatefulBapSession
strict = toy_connection ProtocolState.active UnknownPolicy.reject

stranger_refused : (handle_message strict stranger).1 ≡ err (unexpected_message 0x999)
unfolding handle_message Stateful.settle Stateful.accept_message transition apply_transition
    Protocol.checked Protocol.expected_c2s Codec.id Codec.direction Protocol.expected_s2c
    Protocol.match_state Stateful.set_state Stateful.note_message Protocol.is_activity_id
    Stateful.is_established Stateful.answer Policy.decide Policy.channel_action Codec.is_known
stranger_refused = refl

handle_message-err_example :
    (strict.policy.unknown ≡ UnknownPolicy.reject)
    × (Codec.is_known stranger ≡ false)
    × (unexpected_message 0x999 ≡ unexpected_message (Codec.id stranger))
handle_message-err_example =
    handle_message-err strict stranger (unexpected_message 0x999) stranger_refused
