-- ===== src/Stateful/Handshake.antt =====
-- Sequences of messages on one connection of the local server.
use destiny1_pc_project.Prelude.{ℕ, ◌≡◌, refl, sym, ap, subst, inl, inr, true, arith, List, [], ◌∷◌}
use destiny1_pc_project.Codec
use destiny1_pc_project.Codec.{BapMessage, Direction}
use destiny1_pc_project.Protocol.{
  ProtocolState, connected, waiting_for_service_handshake, service_handshake_complete,
  waiting_for_session_login, session_established, waiting_for_encrypted_handshake,
  encrypted_channel_established, active, crypto_expected,
}
use destiny1_pc_project.Protocol.Graph.{Move, service, login, encrypt, activate}
use destiny1_pc_project.Stateful.{StatefulBapSession, handle_message}
use destiny1_pc_project.Stateful.Handle.{Step, stays, moves, secures, handle_message-Step}

-- The loop of a connection: one call of `handle_message` for each message, errors ignored.
unfoldable pub handle_all : StatefulBapSession → List BapMessage → StatefulBapSession
handle_all s [] = s
handle_all s (m ∷ rest) = handle_all (handle_message s m).0 rest

-- The ids that a connection in this state still has to hear before its channel is encrypted.
unfoldable pub needed : ProtocolState → List ℕ
needed connected = 0x1E ∷ 0x19 ∷ 0x79 ∷ []
needed waiting_for_service_handshake = 0x1E ∷ 0x19 ∷ 0x79 ∷ []
needed service_handshake_complete = 0x19 ∷ 0x79 ∷ []
needed waiting_for_session_login = 0x19 ∷ 0x79 ∷ []
needed session_established = 0x79 ∷ []
needed _ = []

-- The ids stand among the messages in this order, each in one from the client.
pub data Heard : List ℕ → List BapMessage → Type 0 where
  done : {messages : List BapMessage} → Heard [] messages
  other :
      {ids : List ℕ} {m : BapMessage} {rest : List BapMessage}
      → Heard ids rest
      → Heard ids (m ∷ rest)
  heard :
      {wanted : ℕ} {ids : List ℕ} {m : BapMessage} {rest : List BapMessage}
      → Codec.id m ≡ wanted
      → Codec.direction m ≡ Direction.client_to_server
      → Heard ids rest
      → Heard (wanted ∷ ids) (m ∷ rest)

hear :
    (from to : ProtocolState) (m : BapMessage) (rest : List BapMessage) (wanted : ℕ)
    → needed from ≡ wanted ∷ needed to
    → Codec.id m ≡ wanted
    → Codec.direction m ≡ Direction.client_to_server
    → Heard (needed to) rest
    → Heard (needed from) (m ∷ rest)
hear from to m rest wanted e i d h = subst (λ ids. Heard ids (m ∷ rest)) (sym e) (heard i d h)

skip :
    (from to : ProtocolState) (m : BapMessage) (rest : List BapMessage)
    → needed from ≡ needed to
    → Heard (needed to) rest
    → Heard (needed from) (m ∷ rest)
skip from to m rest e h = subst (λ ids. Heard ids (m ∷ rest)) (sym e) (other h)

needed-Move :
    (from to : ProtocolState) (m : BapMessage) (rest : List BapMessage)
    → Move (Codec.id m) (Codec.direction m) from to
    → Heard (needed to) rest
    → Heard (needed from) (m ∷ rest)
unfolding needed
needed-Move from to m rest (service f t i d) h = hear from to m rest 0x1E (ground arith) i d h
needed-Move from to m rest (login (inl f) t i d) h = hear from to m rest 0x19 (ground arith) i d h
needed-Move from to m rest (login (inr f) t i d) h = hear from to m rest 0x19 (ground arith) i d h
needed-Move from to m rest (encrypt f t i d) h = hear from to m rest 0x79 (ground arith) i d h
needed-Move from to m rest (activate f t) h = skip from to m rest (ground arith) h

needed-Step :
    (from to : ProtocolState) (m : BapMessage) (rest : List BapMessage)
    → Step (Codec.id m) (Codec.direction m) from to
    → Heard (needed to) rest
    → Heard (needed from) (m ∷ rest)
unfolding needed
needed-Step from to m rest (stays e) h = skip from to m rest (ap needed (sym e)) h
needed-Step from to m rest (moves v) h = needed-Move from to m rest v h
needed-Step from to m rest (secures f t i d) h = hear from to m rest 0x79 (ground arith) i d h

encrypted-needed : (st : ProtocolState) → crypto_expected st ≡ true → needed st ≡ []
unfolding needed crypto_expected
encrypted-needed waiting_for_encrypted_handshake h = refl
encrypted-needed encrypted_channel_established h = refl
encrypted-needed active h = refl
encrypted-needed _ h = absurd (ground arith)

-- When a connection that handles any list of messages ends in a state that expects encrypted traffic,
-- the ids it needed at the start stand among those messages in order, each in a message from the
-- client: from the state of a new connection, `0x1E`, then `0x19`, then `0x79`.
pub handle_all-crypto_expected :
    (s : StatefulBapSession) (messages : List BapMessage)
    → crypto_expected (handle_all s messages).protocol_state ≡ true
    → Heard (needed s.protocol_state) messages
unfolding handle_all
handle_all-crypto_expected s [] h =
    subst (λ ids. Heard ids []) (sym (encrypted-needed s.protocol_state h)) done
handle_all-crypto_expected s (m ∷ rest) h =
    needed-Step s.protocol_state (handle_message s m).0.protocol_state m rest
      (handle_message-Step s m) (handle_all-crypto_expected (handle_message s m).0 rest h)
