-- ===== src/Server/Replies.antt =====
-- What one frame of a client makes a connection write.
use destiny1_pc_project.Prelude.{
  ℕ, ◌≡◌, ◌≢◌, refl, ◌∙◌, inl, inr, true, false, List, [], ◌∷◌, arith, Result, ok, err,
  Result-cases, Bool-cases,
}
use destiny1_pc_project.Codec.{BapMessage, Direction, encode_message, encode_known}
use destiny1_pc_project.Protocol.{
  ProtocolState, ProtocolStateError, TransitionResult, advanced, observed, rejected, is_rejected,
  transition, complete_encrypted_handshake,
}
use destiny1_pc_project.Policy.{
  ResponseAction, send_clear, send_encrypted, observe_only, reject, nothing, decide,
}
use destiny1_pc_project.Stateful.{
  StatefulBapSession, HandleResult, set_state, move_to, state_discrete, note_message, push_event,
  reject_message, note_reply, answer, complete, accept_message, settle, handle_message,
}
use destiny1_pc_project.Stateful.Replies.{actions_of, Answers}
use destiny1_pc_project.Server.{codec_message, encoded_or, body_or, encode_via_codec}
use destiny1_pc_project.Server.Turns.{script_socket}

-- The codec writes the payload of a reply as it is, for every id.
pub encode_via_codec_lem :
    (id ctx : ℕ) (dir : Direction) (payload : List ℕ)
    → encode_via_codec id ctx dir payload ≡ payload
unfolding encode_via_codec codec_message encoded_or body_or encode_message encode_known
encode_via_codec_lem id ctx dir payload = ground arith

move_to-session :
    (s : StatefulBapSession) (to : ProtocolState) (d : Dec (s.protocol_state ≡ to))
    → (move_to s to d).session ≡ s.session
unfolding move_to
move_to-session s to (yes same) = refl
move_to-session s to (no other) = refl

set_state-session :
    (s : StatefulBapSession) (to : ProtocolState) → (set_state s to).session ≡ s.session
unfolding set_state
set_state-session s to = move_to-session s to (state_discrete s.protocol_state to)

answer-session :
    (s : StatefulBapSession) (m : BapMessage) (tr : TransitionResult) (a : ResponseAction)
    → (answer s m tr a).0.session ≡ s.session
unfolding answer note_reply push_event
answer-session s m tr (send_clear id ctx payload) = refl
answer-session s m tr (send_encrypted id ctx payload) = refl
answer-session s m tr observe_only = refl
answer-session s m tr reject = refl
answer-session s m tr nothing = refl

complete-session :
    (s : StatefulBapSession) (r : Result ProtocolStateError ProtocolState) (m : BapMessage)
    (tr : TransitionResult) (a : ResponseAction)
    → (complete s r m tr a).0.session ≡ s.session
unfolding complete
complete-session s (ok next) m tr a =
    answer-session (set_state s next) m tr a ∙ set_state-session s next
complete-session s (err e) m tr a = refl

accept_message-session :
    (s : StatefulBapSession) (before : ProtocolState) (m : BapMessage) (tr : TransitionResult)
    (a : ResponseAction) (r : Result ProtocolStateError ProtocolState)
    → (accept_message s before m tr a r).0.session ≡ s.session
unfolding accept_message
accept_message-session s before m tr a (err e) = refl
accept_message-session s before m tr a (ok to) =
    let s' = set_state s to in
    ground (
      arith,
      set_state-session s to,
      complete-session s' (complete_encrypted_handshake s'.protocol_state) m tr a,
      answer-session s' m tr a,
    )

settle-session :
    (s : StatefulBapSession) (m : BapMessage) (tr : TransitionResult) (a : ResponseAction)
    → (settle s m tr a).0.session ≡ s.session
unfolding settle reject_message push_event
settle-session s m (rejected e) a = refl
settle-session s m (advanced from to) a = accept_message-session s s.protocol_state m _ a _
settle-session s m (observed st) a = accept_message-session s s.protocol_state m _ a _

-- A message changes the state of the connection, never its session.
pub handle_message-session :
    (s : StatefulBapSession) (m : BapMessage) → (handle_message s m).0.session ≡ s.session
unfolding handle_message note_message push_event
handle_message-session s m =
    settle-session (note_message s m) m (transition s.protocol_state m)
      (decide s.policy s.protocol_state m)

answer-transition :
    (s : StatefulBapSession) (m : BapMessage) (tr : TransitionResult) (a : ResponseAction)
    (r : HandleResult)
    → (answer s m tr a).1 ≡ ok r
    → r.transition ≡ tr
unfolding answer
answer-transition s m tr (send_clear id ctx payload) r h = ground arith
answer-transition s m tr (send_encrypted id ctx payload) r h = ground arith
answer-transition s m tr observe_only r h = ground arith
answer-transition s m tr reject r h = absurd (ground arith)
answer-transition s m tr nothing r h = ground arith

complete-transition :
    (s : StatefulBapSession) (next : Result ProtocolStateError ProtocolState) (m : BapMessage)
    (tr : TransitionResult) (a : ResponseAction) (r : HandleResult)
    → (complete s next m tr a).1 ≡ ok r
    → r.transition ≡ tr
unfolding complete
complete-transition s (ok next) m tr a r h = answer-transition (set_state s next) m tr a r h
complete-transition s (err e) m tr a r h = absurd (ground arith)

accept_message-transition :
    (s : StatefulBapSession) (before : ProtocolState) (m : BapMessage) (tr : TransitionResult)
    (a : ResponseAction) (to : Result ProtocolStateError ProtocolState) (r : HandleResult)
    → (accept_message s before m tr a to).1 ≡ ok r
    → r.transition ≡ tr
unfolding accept_message
accept_message-transition s before m tr a (err e) r h = absurd (ground arith)
accept_message-transition s before m tr a (ok to) r h =
    let s' = set_state s to in
    ground (
      arith,
      complete-transition s' (complete_encrypted_handshake s'.protocol_state) m tr a r,
      answer-transition s' m tr a r,
    )

settle-rejected :
    (s : StatefulBapSession) (m : BapMessage) (tr : TransitionResult) (a : ResponseAction)
    (r : HandleResult)
    → (settle s m tr a).1 ≡ ok r
    → is_rejected r.transition ≡ true
    → r.actions ≡ nothing ∷ []
unfolding settle reject_message is_rejected
settle-rejected s m (rejected e) a r h k = ground arith
settle-rejected s m (advanced from to) a r h k =
    let same = accept_message-transition s s.protocol_state m (advanced from to) a _ r h in
    absurd (ground arith)
settle-rejected s m (observed st) a r h k =
    let same = accept_message-transition s s.protocol_state m (observed st) a _ r h in
    absurd (ground arith)

-- A message that is answered by a reply was not rejected.
pub answered :
    (s : StatefulBapSession) (m : BapMessage) (to : ProtocolState) (reply : ResponseAction)
    → Answers s m to reply
    → reply ≢ nothing
    → (r : HandleResult) × ((handle_message s m).1 ≡ ok r)
      × (r.actions ≡ reply ∷ [])
      × (is_rejected r.transition ≡ false)
unfolding actions_of
answered s m to reply (_, acts) n = elim (Result-cases (handle_message s m).1) [
  | inr (e, h) ↦ absurd (ground arith)
  | inl (r, h) ↦ elim (Bool-cases (is_rejected r.transition)) [
    | inr k ↦ (r, h, ground arith, k)
    | inl k ↦
        let same =
          settle-rejected (note_message s m) m (transition s.protocol_state m)
            (decide s.policy s.protocol_state m) r (unfold handle_message in h) k in
        absurd (n (ground arith))
  ]
]
