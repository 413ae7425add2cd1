-- ===== src/Stateful/Handle.antt =====
-- What one message does to a connection of the local server.
use destiny1_pc_project.Prelude.{
  ℕ, ◌≡◌, refl, sym, subst, ◌⊎◌, inl, inr, true, ◌&&◌, arith, ◌==◌, ==→eq, Bool-cases, Result, ok,
  err,
}
use destiny1_pc_project.Codec
use destiny1_pc_project.Codec.{BapMessage, Direction}
use destiny1_pc_project.Protocol.{
  ProtocolState, session_established, encrypted_channel_established, ProtocolStateError,
  TransitionResult, advanced, observed, rejected, transition, apply_transition,
  complete_encrypted_handshake,
}
use destiny1_pc_project.Protocol.Graph.{Move, service, login, encrypt, activate, transition-Move}
use destiny1_pc_project.Policy.{ResponseAction, decide}
use destiny1_pc_project.Stateful.{
  StatefulBapSession, set_state, note_message, is_established, move_to, state_discrete, answer,
  complete, accept_message, settle, reject_message, handle_message,
}

-- What a message can make of the state of a connection: nothing, a move of the diagram, or, for the
-- encrypted handshake's request, the two moves at once that end in the established channel.
pub data Step (id : ℕ) (dir : Direction) (from to : ProtocolState) : Type 0 where
  stays : to ≡ from → Step id dir from to
  moves : Move id dir from to → Step id dir from to
  secures :
      from ≡ session_established
      → to ≡ encrypted_channel_established
      → id ≡ 0x79
      → dir ≡ Direction.client_to_server
      → Step id dir from to

move_to-state :
    (s : StatefulBapSession) (to : ProtocolState) (d : Dec (s.protocol_state ≡ to))
    → (move_to s to d).protocol_state ≡ to
unfolding move_to
move_to-state s to (yes same) = same
move_to-state s to (no other) = refl

pub set_state-state :
    (s : StatefulBapSession) (to : ProtocolState) → (set_state s to).protocol_state ≡ to
unfolding set_state
set_state-state s to = move_to-state s to (state_discrete s.protocol_state to)

pub answer-state :
    (s : StatefulBapSession) (message : BapMessage) (tr : TransitionResult)
    (action : ResponseAction)
    → (answer s message tr action).0.protocol_state ≡ s.protocol_state
unfolding answer
answer-state s message tr (ResponseAction.send_clear id ctx payload) = refl
answer-state s message tr (ResponseAction.send_encrypted id ctx payload) = refl
answer-state s message tr ResponseAction.observe_only = refl
answer-state s message tr ResponseAction.reject = refl
answer-state s message tr ResponseAction.nothing = refl

complete-state :
    (s : StatefulBapSession) (r : Result ProtocolStateError ProtocolState) (message : BapMessage)
    (tr : TransitionResult) (action : ResponseAction)
    → ((complete s r message tr action).0.protocol_state ≡ s.protocol_state)
      ⊎ (r ≡ ok (complete s r message tr action).0.protocol_state)
unfolding complete
complete-state s (ok next) message tr action =
    inr (ground (arith, answer-state (set_state s next) message tr action, set_state-state s next))
complete-state s (err e) message tr action = inl refl

pub is_established-eq : (st : ProtocolState) → is_established st ≡ true → st ≡ session_established
unfolding is_established
is_established-eq session_established h = refl
is_established-eq _ h = absurd (ground arith)

-- The states an accepted message can end in.
accept_message-state :
    (s : StatefulBapSession) (message : BapMessage) (tr : TransitionResult)
    (action : ResponseAction) (to : ProtocolState)
    → (let end = (accept_message s s.protocol_state message tr action (ok to)).0.protocol_state in
        (end ≡ to)
        ⊎ ((s.protocol_state ≡ session_established)
            × (Codec.id message ≡ 0x79)
            × (complete_encrypted_handshake to ≡ ok end)))
unfolding accept_message
accept_message-state s message tr action to =
    elim (Bool-cases (is_established s.protocol_state && Codec.id message == 0x79)) [
      | inl e ↦
          elim (complete-state (set_state s to)
            (complete_encrypted_handshake (set_state s to).protocol_state) message tr action) [
              | inl f ↦ inl (ground (arith, set_state-state s to))
              | inr f ↦ inr (
                is_established-eq s.protocol_state (ground arith),
                ==→eq (Codec.id message) 0x79 (ground arith),
                ground (arith, set_state-state s to),
              )
            ]
      | inr e ↦
          inl
            (ground (arith, answer-state (set_state s to) message tr action, set_state-state s to))
    ]

-- What an accepted message and the completion make of a state is a step.
accepted-Step :
    (from to end : ProtocolState) (message : BapMessage)
    → apply_transition from (transition from message) ≡ ok to
    → (end ≡ to)
      ⊎ ((from ≡ session_established)
          × (Codec.id message ≡ 0x79)
          × (complete_encrypted_handshake to ≡ ok end))
    → Step (Codec.id message) (Codec.direction message) from end
accepted-Step from to end message a (inl e) = elim (transition-Move from to message a) [
  | inl f ↦ stays (ground arith)
  | inr m ↦
      moves (subst (λ st. Move (Codec.id message) (Codec.direction message) from st) (sym e) m)
]
accepted-Step from to end message a (inr (f, h, c)) = elim (transition-Move from to message a) [
  | inl e ↦ absurd (unfold complete_encrypted_handshake in ground arith)
  | inr (service x y z d) ↦ absurd (ground arith)
  | inr (login x y z d) ↦ absurd (ground arith)
  | inr (encrypt x y z d) ↦ secures f (unfold complete_encrypted_handshake in ground arith) h d
  | inr (activate x y) ↦ absurd (ground arith)
]

settle-Step :
    (s : StatefulBapSession) (message : BapMessage) (outcome : TransitionResult)
    (action : ResponseAction)
    → transition s.protocol_state message ≡ outcome
    → Step
        (Codec.id message)
        (Codec.direction message)
        s.protocol_state
        (settle s message outcome action).0.protocol_state
unfolding settle apply_transition
settle-Step s message (rejected reason) action h = stays (unfold reject_message in refl)
settle-Step s message (advanced from to) action h =
    accepted-Step s.protocol_state to _ message (ground arith)
      (accept_message-state s message (advanced from to) action to)
settle-Step s message (observed to) action h =
    accepted-Step s.protocol_state to _ message (ground arith)
      (accept_message-state s message (observed to) action to)

-- Whatever the message and the state, the state of the connection after `handle_message` is one step
-- away: the same, a move of the diagram for that id and direction, or, for `0x79` from the client in
-- an established session, the established encrypted channel.
pub handle_message-Step :
    (s : StatefulBapSession) (message : BapMessage)
    → Step
        (Codec.id message)
        (Codec.direction message)
        s.protocol_state
        (handle_message s message).0.protocol_state
unfolding handle_message note_message
handle_message-Step s message =
    settle-Step (note_message s message) message (transition s.protocol_state message)
      (decide s.policy s.protocol_state message) refl
