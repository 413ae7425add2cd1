-- ===== src/Stateful/Replies.antt =====
-- The replies of one connection of the local server, message by message.
use destiny1_pc_project.Prelude.{
  ◌≡◌, ◌≢◌, ◌&&◌, refl, ◌⊎◌, inl, inr, true, false, arith, List, [], ◌∷◌, ◌++◌, Result, ok, err,
  ◌==◌,
}
use destiny1_pc_project.Codec
use destiny1_pc_project.Codec.{BapMessage, Direction}
use destiny1_pc_project.Protocol.{
  ProtocolState, waiting_for_service_handshake, service_handshake_complete, session_established,
  waiting_for_encrypted_handshake, encrypted_channel_established, closing, closed,
  ProtocolStateError, TransitionResult, advanced, observed, transition, checked, match_state,
  apply_transition, expected_c2s, expected_s2c, complete_encrypted_handshake,
}
use destiny1_pc_project.Stateful.{
  StatefulBapSession, HandleResult, reject_message, handle_message, settle, answer, accept_message,
  note_message, set_state, is_established, complete,
}
use destiny1_pc_project.Stateful.Handle.{set_state-state, answer-state}
use destiny1_pc_project.Policy.{
  ResponseAction, send_clear, send_encrypted, decide, sim_context, payload_1f, payload_1a,
  payload_7a,
}
use destiny1_pc_project.Stateful.Handshake.{handle_all}

-- The actions of one outcome.
unfoldable pub actions_of : Result ProtocolStateError HandleResult → List ResponseAction
actions_of (ok r) = r.actions
actions_of (err e) = []

-- The actions that the connection takes for the messages, in order.
unfoldable pub replies : StatefulBapSession → List BapMessage → List ResponseAction
unfolding actions_of
replies s [] = []
replies s (m ∷ rest) = actions_of (handle_message s m).1 ++ replies (handle_message s m).0 rest

-- What an accepted message that is answered by `reply` does.
abbrev pub Answers : StatefulBapSession → BapMessage → ProtocolState → ResponseAction → Type 0
Answers s m to reply =
    ((handle_message s m).0.protocol_state ≡ to) × (actions_of (handle_message s m).1 ≡ reply ∷ [])

answer-actions :
    (s : StatefulBapSession) (m : BapMessage) (outcome : TransitionResult) (reply : ResponseAction)
    → reply ≢ ResponseAction.reject
    → actions_of (answer s m outcome reply).1 ≡ reply ∷ []
unfolding answer actions_of
answer-actions s m outcome (ResponseAction.send_clear id ctx payload) h = refl
answer-actions s m outcome (ResponseAction.send_encrypted id ctx payload) h = refl
answer-actions s m outcome ResponseAction.observe_only h = refl
answer-actions s m outcome ResponseAction.reject h = absurd (h refl)
answer-actions s m outcome ResponseAction.nothing h = refl

-- A message that advances the state, but for the one that completes the encrypted handshake.
advanced-Answers :
    (s : StatefulBapSession) (m : BapMessage) (from to : ProtocolState) (reply : ResponseAction)
    → transition s.protocol_state m ≡ advanced from to
    → decide s.policy s.protocol_state m ≡ reply
    → reply ≢ ResponseAction.reject
    → (is_established s.protocol_state && Codec.id m == 0x79) ≡ false
    → Answers s m to reply
unfolding handle_message settle apply_transition accept_message note_message
advanced-Answers s m from to reply f g h n =
    let s' = set_state (note_message s m) to in
    (
      ground (
        arith,
        answer-state s' m (advanced from to) reply,
        set_state-state (note_message s m) to,
      ),
      ground (arith, answer-actions s' m (advanced from to) reply h),
    )

-- A message that the state observes, in a channel that is encrypted already.
pub observed-Answers :
    (s : StatefulBapSession) (m : BapMessage) (to : ProtocolState) (reply : ResponseAction)
    → transition s.protocol_state m ≡ observed to
    → decide s.policy s.protocol_state m ≡ reply
    → reply ≢ ResponseAction.reject
    → is_established s.protocol_state ≡ false
    → Answers s m to reply
unfolding handle_message settle apply_transition accept_message note_message
observed-Answers s m to reply f g h n =
    let s' = set_state (note_message s m) to in
    (
      ground (arith, answer-state s' m (observed to) reply, set_state-state (note_message s m) to),
      ground (arith, answer-actions s' m (observed to) reply h),
    )

pub service-Answers :
    (s : StatefulBapSession) (m : BapMessage)
    → s.protocol_state ≡ waiting_for_service_handshake
    → Codec.id m ≡ 0x1E
    → Codec.direction m ≡ Direction.client_to_server
    → Answers s m service_handshake_complete (send_clear 0x1F sim_context payload_1f)
service-Answers s m e i d =
    advanced-Answers s m waiting_for_service_handshake service_handshake_complete
      (send_clear 0x1F sim_context payload_1f)
      (unfold transition checked match_state expected_c2s expected_s2c in ground arith)
      (unfold decide in ground arith) (ground arith) (unfold is_established in ground arith)

pub login-Answers :
    (s : StatefulBapSession) (m : BapMessage)
    → s.protocol_state ≡ service_handshake_complete
    → Codec.id m ≡ 0x19
    → Codec.direction m ≡ Direction.client_to_server
    → Answers s m session_established (send_clear 0x1A sim_context payload_1a)
login-Answers s m e i d =
    advanced-Answers s m service_handshake_complete session_established
      (send_clear 0x1A sim_context payload_1a)
      (unfold transition checked match_state expected_c2s expected_s2c in ground arith)
      (unfold decide in ground arith) (ground arith) (unfold is_established in ground arith)

-- The request of the encrypted handshake, which is accepted and completed in one call.
pub encrypt-Answers :
    (s : StatefulBapSession) (m : BapMessage)
    → s.protocol_state ≡ session_established
    → Codec.id m ≡ 0x79
    → Codec.direction m ≡ Direction.client_to_server
    → Answers s m encrypted_channel_established (send_encrypted 0x7A sim_context payload_7a)
unfolding handle_message settle apply_transition accept_message complete
    complete_encrypted_handshake note_message
encrypt-Answers s m e i d =
    let noted = note_message s m in
    let reply = send_encrypted 0x7A sim_context payload_7a in
    let outcome = advanced session_established waiting_for_encrypted_handshake in
    let s' = set_state noted waiting_for_encrypted_handshake in
    let s'' = set_state s' encrypted_channel_established in
    let f : transition s.protocol_state m ≡ outcome =
      unfold transition checked match_state expected_c2s expected_s2c in ground arith in
    let g : decide s.policy s.protocol_state m ≡ reply = unfold decide in ground arith in
    let n : (is_established s.protocol_state && Codec.id m == 0x79) ≡ true =
      unfold is_established in ground arith in
    let w : s'.protocol_state ≡ waiting_for_encrypted_handshake =
      set_state-state noted waiting_for_encrypted_handshake in
    (
      ground (
        arith,
        answer-state s'' m outcome reply,
        set_state-state s' encrypted_channel_established,
      ),
      ground (arith, answer-actions s'' m outcome reply (ground arith)),
    )

-- A connection that waits for the service handshake and gets `0x1E`, `0x19` and `0x79` from the
-- client, in this order, ends with the encrypted channel established, and has answered with `0x1F`
-- and `0x1A` in the clear and `0x7A` encrypted, each with its synthetic payload.
pub handle_all-handshake :
    (s : StatefulBapSession) (m1 m2 m3 : BapMessage)
    → s.protocol_state ≡ waiting_for_service_handshake
    → (Codec.id m1 ≡ 0x1E) × (Codec.direction m1 ≡ Direction.client_to_server)
    → (Codec.id m2 ≡ 0x19) × (Codec.direction m2 ≡ Direction.client_to_server)
    → (Codec.id m3 ≡ 0x79) × (Codec.direction m3 ≡ Direction.client_to_server)
    → ((handle_all s (m1 ∷ m2 ∷ m3 ∷ [])).protocol_state ≡ encrypted_channel_established)
      × (replies s (m1 ∷ m2 ∷ m3 ∷ [])
          ≡ send_clear 0x1F sim_context payload_1f
            ∷ send_clear 0x1A sim_context payload_1a
            ∷ send_encrypted 0x7A sim_context payload_7a
            ∷ [])
unfolding handle_all replies
handle_all-handshake s m1 m2 m3 e (i1, d1) (i2, d2) (i3, d3) =
    let s1 = (handle_message s m1).0 in
    let s2 = (handle_message s1 m2).0 in
    let a1 = service-Answers s m1 e i1 d1 in
    let a2 = login-Answers s1 m2 a1.0 i2 d2 in
    let a3 = encrypt-Answers s2 m3 a2.0 i3 d3 in (a3.0, ground (arith, a1.1, a2.1, a3.1))

-- The actions of a message that the state rejects.
rejected_actions :
    (s : StatefulBapSession) (m : BapMessage)
    → (s.protocol_state ≡ closed) ⊎ (s.protocol_state ≡ closing)
    → Answers s m s.protocol_state ResponseAction.nothing
unfolding handle_message settle note_message reject_message transition actions_of
rejected_actions s m (inl e) = ground arith
rejected_actions s m (inr e) = ground arith

-- One `nothing` for each message.
unfoldable pub nothings : List BapMessage → List ResponseAction
nothings [] = []
nothings (m ∷ rest) = ResponseAction.nothing ∷ nothings rest

-- A connection that is closing or closed stays so whatever messages it gets, and takes the action
-- `nothing` for each.
pub handle_all-closed :
    (s : StatefulBapSession) (messages : List BapMessage)
    → (s.protocol_state ≡ closed) ⊎ (s.protocol_state ≡ closing)
    → ((handle_all s messages).protocol_state ≡ s.protocol_state)
      × (replies s messages ≡ nothings messages)
unfolding handle_all replies nothings
handle_all-closed s [] h = (refl, refl)
handle_all-closed s (m ∷ rest) h =
    let (kept, acted) = rejected_actions s m h in
    let (stayed, more) =
      handle_all-closed (handle_message s m).0 rest
        (elim h [ inl e ↦ inl (ground arith) | inr e ↦ inr (ground arith) ]) in
    (ground arith, ground arith)
