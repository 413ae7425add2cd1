-- ===== src/Stateful/Failures.antt =====
-- When handling a message fails.
use destiny1_pc_project.Prelude.{
  ◌≡◌, ◌≢◌, ◌&&◌, refl, inl, inr, false, arith, err, ◌==◌, ==→eq, Bool-cases,
}
use destiny1_pc_project.Codec
use destiny1_pc_project.Codec.{BapMessage, Direction}
use destiny1_pc_project.Protocol.{
  ProtocolState, session_established, encrypted_channel_established, active, ProtocolStateError,
  TransitionResult, unexpected_message, invalid_direction, rejected, observed, advanced, transition,
  checked, apply_transition, expected_c2s,
}
use destiny1_pc_project.Stateful.{
  StatefulBapSession, reject_message, handle_message, settle, answer, accept_message, note_message,
  set_state, is_established,
}
use destiny1_pc_project.Stateful.Handle.{is_established-eq}
use destiny1_pc_project.Policy.{
  ResponseAction, UnknownPolicy, unknown_action, channel_action, ResponsePolicy, decide,
}
use destiny1_pc_project.Stateful.Replies.{actions_of, encrypt-Answers}

answer-err :
    (s : StatefulBapSession) (m : BapMessage) (outcome : TransitionResult) (reply : ResponseAction)
    (e : ProtocolStateError)
    → (answer s m outcome reply).1 ≡ err e
    → (reply ≡ ResponseAction.reject) × (e ≡ unexpected_message (Codec.id m))
unfolding answer
answer-err s m outcome (ResponseAction.send_clear id ctx payload) e h = absurd (ground arith)
answer-err s m outcome (ResponseAction.send_encrypted id ctx payload) e h = absurd (ground arith)
answer-err s m outcome ResponseAction.observe_only e h = absurd (ground arith)
answer-err s m outcome ResponseAction.reject e h = (refl, ground arith)
answer-err s m outcome ResponseAction.nothing e h = absurd (ground arith)

unknown_action-reject :
    (u : UnknownPolicy) → unknown_action u ≡ ResponseAction.reject → u ≡ UnknownPolicy.reject
unfolding unknown_action
unknown_action-reject UnknownPolicy.observe h = absurd (ground arith)
unknown_action-reject UnknownPolicy.reject h = refl

channel_action-reject :
    (p : ResponsePolicy) (m : BapMessage)
    → channel_action p m ≡ ResponseAction.reject
    → (p.unknown ≡ UnknownPolicy.reject) × (Codec.is_known m ≡ false)
channel_action-reject p m h =
    let f : (unknown_action p.unknown ≡ ResponseAction.reject) × (Codec.is_known m ≡ false) =
      unfold channel_action in ground arith in
    (unknown_action-reject p.unknown f.0, f.1)

decide-reject :
    (p : ResponsePolicy) (st : ProtocolState) (m : BapMessage)
    → decide p st m ≡ ResponseAction.reject
    → (p.unknown ≡ UnknownPolicy.reject) × (Codec.is_known m ≡ false)
unfolding decide
decide-reject p encrypted_channel_established m h = channel_action-reject p m h
decide-reject p active m h = channel_action-reject p m h
decide-reject p _ m h = absurd (ground arith)

-- Failures of an outcome that does not complete the encrypted handshake.
settle-err :
    (s : StatefulBapSession) (m : BapMessage) (outcome : TransitionResult) (reply : ResponseAction)
    (e : ProtocolStateError)
    → (is_established s.protocol_state && Codec.id m == 0x79) ≡ false
    → (settle s m outcome reply).1 ≡ err e
    → (reply ≡ ResponseAction.reject) × (e ≡ unexpected_message (Codec.id m))
unfolding settle apply_transition accept_message reject_message
settle-err s m (rejected reason) reply e n h = absurd (ground arith)
settle-err s m (advanced from to) reply e n h =
    answer-err (set_state s to) m (advanced from to) reply e (ground arith)
settle-err s m (observed to) reply e n h =
    answer-err (set_state s to) m (observed to) reply e (ground arith)

-- The request of the encrypted handshake never fails.
encrypt_fine :
    (s : StatefulBapSession) (m : BapMessage) (e : ProtocolStateError) (dir : Direction)
    → s.protocol_state ≡ session_established
    → Codec.id m ≡ 0x79
    → Codec.direction m ≡ dir
    → (handle_message s m).1 ≢ err e
unfolding actions_of
encrypt_fine s m e Direction.client_to_server f i d h =
    let a = (encrypt-Answers s m f i d).1 in ground arith
encrypt_fine s m e Direction.server_to_client f i d h =
    let r : transition s.protocol_state m ≡ rejected (invalid_direction 0x79) =
      unfold transition checked expected_c2s in ground arith in
    unfold handle_message settle note_message reject_message in ground arith

-- `handle_message` fails only under the policy that rejects unknown messages, on a message without a
-- codec, and with the error that names its id.
pub handle_message-err :
    (s : StatefulBapSession) (m : BapMessage) (e : ProtocolStateError)
    → (handle_message s m).1 ≡ err e
    → (s.policy.unknown ≡ UnknownPolicy.reject)
      × (Codec.is_known m ≡ false)
      × (e ≡ unexpected_message (Codec.id m))
handle_message-err s m e h =
    elim (Bool-cases (is_established s.protocol_state && Codec.id m == 0x79)) [
      | inl y ↦ absurd (
          encrypt_fine s m e (Codec.direction m) (is_established-eq s.protocol_state (ground arith))
            (==→eq (Codec.id m) 0x79 (ground arith)) refl h)
      | inr n ↦
          let (r, f) =
            settle-err (note_message s m) m (transition s.protocol_state m)
              (decide s.policy s.protocol_state m) e (unfold note_message in n)
              (unfold handle_message note_message in h) in
          let (p, q) = decide-reject s.policy s.protocol_state m r in (p, q, f)
    ]
