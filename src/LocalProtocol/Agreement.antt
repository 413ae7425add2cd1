-- ===== src/LocalProtocol/Agreement.antt =====
-- The dispatcher of the simulated handshake against the connection of network/src/stateful_bap_session.rs.
use destiny1_pc_project.Prelude.{
  ◌≡◌, ◌≢◌, refl, sym, ◌∙◌, ap, subst, one_of, Bool, true, false, arith, none, some, List, [], ◌∷◌,
  ◌++◌, ◌==◌, ==→eq, Bool-cases, inl, inr, All, ok,
}
use destiny1_pc_project.Session.{DecodedBapFrame}
use destiny1_pc_project.Codec
use destiny1_pc_project.Codec.{BapMessage, Direction, decode_from_frame}
use destiny1_pc_project.Codec.RoundTrip.{decoded_head}
use destiny1_pc_project.Protocol.{
  ProtocolState, waiting_for_service_handshake, service_handshake_complete, session_established,
  encrypted_channel_established, active, transition, checked, match_state, expected_c2s,
  expected_s2c, is_activity_id,
}
use destiny1_pc_project.Policy.{
  ResponseAction, decide, channel_action, sim_context, payload_1f, payload_1a, payload_7a,
  payload_syn_a_rsp, payload_syn_b_rsp,
}
use destiny1_pc_project.Stateful.{
  StatefulBapSession, handle_message, handle_decoded, handle_decoded_frame, is_established,
}
use destiny1_pc_project.Stateful.Replies.{
  actions_of, Answers, observed-Answers, service-Answers, login-Answers, encrypt-Answers,
}
use destiny1_pc_project.LocalProtocol.{
  SimState, sim_start, sim_1f_sent, sim_1a_sent, sim_ready, ServerAction, send_clear,
  send_encrypted, change_state, close_connection, ignore, protocol_failure, LocalMessageDispatcher,
  clear_in, unexpected_clear, dispatch_clear, encrypted_in, unexpected_encrypted,
  dispatch_encrypted, dispatch_inbound,
}

-- The states that the two machines reach together.
pub data Related : SimState → ProtocolState → Type 0 where
  at_start : Related sim_start waiting_for_service_handshake
  at_1f : Related sim_1f_sent service_handshake_complete
  at_1a : Related sim_1a_sent session_established
  at_ready : Related sim_ready encrypted_channel_established
  at_active : Related sim_ready active

-- No action is a protocol error.
unfoldable pub is_accepted : List ServerAction → Bool
is_accepted [] = true
is_accepted (protocol_failure kind detail ∷ rest) = false
is_accepted (_ ∷ rest) = is_accepted rest

-- What the actions send, as the response policy says it.
unfoldable pub sends : List ServerAction → List ResponseAction
sends [] = []
sends (send_clear id ctx payload ∷ rest) = ResponseAction.send_clear id ctx payload ∷ sends rest
sends (send_encrypted id ctx payload ∷ rest) =
    ResponseAction.send_encrypted id ctx payload ∷ sends rest
sends (_ ∷ rest) = sends rest

-- A message that the established channel answers without a move of its own.
channel-Answers :
    (s : StatefulBapSession) (m : BapMessage) (ps : ProtocolState) (reply : ResponseAction)
    → Related sim_ready ps
    → s.protocol_state ≡ ps
    → (is_activity_id (Codec.id m) ≡ false)
      × (expected_c2s (Codec.id m) ≡ false)
      × (expected_s2c (Codec.id m) ≡ false)
    → channel_action s.policy m ≡ reply
    → reply ≢ ResponseAction.reject
    → Answers s m active reply
channel-Answers s m _ reply at_ready e (quiet, c, v) h n =
    observed-Answers s m active reply (unfold transition checked match_state in ground arith)
      (unfold decide in ground arith) n (unfold is_established in ground arith)
channel-Answers s m _ reply at_active e (quiet, c, v) h n =
    observed-Answers s m active reply (unfold transition checked match_state in ground arith)
      (unfold decide in ground arith) n (unfold is_established in ground arith)

syn_a-Answers :
    (s : StatefulBapSession) (m : BapMessage) (ps : ProtocolState)
    → Related sim_ready ps
    → s.protocol_state ≡ ps
    → Codec.id m ≡ 0x0A0A
    → Answers s m active (ResponseAction.send_encrypted 0x0A0B sim_context payload_syn_a_rsp)
syn_a-Answers s m ps r e i =
    channel-Answers s m ps (ResponseAction.send_encrypted 0x0A0B sim_context payload_syn_a_rsp) r e
      (unfold is_activity_id expected_c2s expected_s2c one_of in
        (ground arith, ground arith, ground arith))
      (unfold channel_action in ground arith) (ground arith)

syn_b-Answers :
    (s : StatefulBapSession) (m : BapMessage) (ps : ProtocolState)
    → Related sim_ready ps
    → s.protocol_state ≡ ps
    → Codec.id m ≡ 0x0B0B
    → Answers s m active (ResponseAction.send_encrypted 0x0B0C sim_context payload_syn_b_rsp)
syn_b-Answers s m ps r e i =
    channel-Answers s m ps (ResponseAction.send_encrypted 0x0B0C sim_context payload_syn_b_rsp) r e
      (unfold is_activity_id expected_c2s expected_s2c one_of in
        (ground arith, ground arith, ground arith))
      (unfold channel_action in ground arith) (ground arith)

-- The connection handles the message as the dispatcher's outcome says.
abbrev Agrees :
    LocalMessageDispatcher × List ServerAction → StatefulBapSession → BapMessage → Type 0
Agrees out s m =
    Related out.0.state (handle_message s m).0.protocol_state
    × (actions_of (handle_message s m).1 ≡ sends out.1)

agrees :
    (out : LocalMessageDispatcher × List ServerAction) (s : StatefulBapSession) (m : BapMessage)
    (st : SimState) (to : ProtocolState) (reply : ResponseAction)
    → Related st to
    → Answers s m to reply
    → out.0.state ≡ st
    → sends out.1 ≡ reply ∷ []
    → Agrees out s m
agrees out s m st to reply r a e f = (
  subst (λ x. Related x (handle_message s m).0.protocol_state) (sym e)
      (subst (λ y. Related st y) (sym a.0) r),
  a.1 ∙ sym f,
)

clear_in-Agrees :
    (st : SimState) (ps : ProtocolState) (d : LocalMessageDispatcher) (s : StatefulBapSession)
    (m : BapMessage)
    → Related st ps
    → s.protocol_state ≡ ps
    → Codec.direction m ≡ Direction.client_to_server
    → is_accepted (clear_in st d (Codec.id m)).1 ≡ true
    → Agrees (clear_in st d (Codec.id m)) s m
unfolding clear_in unexpected_clear is_accepted sends
clear_in-Agrees _ _ d s m at_start p c h = elim (Bool-cases (Codec.id m == 0x1E)) [
  | inr e ↦ absurd (ground arith)
  | inl e ↦
      agrees (clear_in sim_start d (Codec.id m)) s m sim_1f_sent service_handshake_complete
        (ResponseAction.send_clear 0x1F sim_context payload_1f) at_1f
        (service-Answers s m p (==→eq (Codec.id m) 0x1E e) c) (ground arith) (ground arith)
]
clear_in-Agrees _ _ d s m at_1f p c h = elim (Bool-cases (Codec.id m == 0x19)) [
  | inr e ↦ absurd (ground arith)
  | inl e ↦
      agrees (clear_in sim_1f_sent d (Codec.id m)) s m sim_1a_sent session_established
        (ResponseAction.send_clear 0x1A sim_context payload_1a) at_1a
        (login-Answers s m p (==→eq (Codec.id m) 0x19 e) c) (ground arith) (ground arith)
]
clear_in-Agrees _ _ d s m at_1a p c h = absurd (ground arith)
clear_in-Agrees _ _ d s m at_ready p c h = absurd (ground arith)
clear_in-Agrees _ _ d s m at_active p c h = absurd (ground arith)

ready-Agrees :
    (ps : ProtocolState) (d : LocalMessageDispatcher) (s : StatefulBapSession) (m : BapMessage)
    → d.state ≡ sim_ready
    → Related sim_ready ps
    → s.protocol_state ≡ ps
    → is_accepted (encrypted_in sim_ready d (Codec.id m)).1 ≡ true
    → Agrees (encrypted_in sim_ready d (Codec.id m)) s m
unfolding encrypted_in unexpected_encrypted is_accepted sends
ready-Agrees ps d s m q r p h = elim (Bool-cases (Codec.id m == 0x0A0A)) [
  | inl e ↦
      agrees (encrypted_in sim_ready d (Codec.id m)) s m sim_ready active
        (ResponseAction.send_encrypted 0x0A0B sim_context payload_syn_a_rsp) at_active
        (syn_a-Answers s m ps r p (==→eq (Codec.id m) 0x0A0A e)) (ground arith) (ground arith)
  | inr e ↦ elim (Bool-cases (Codec.id m == 0x0B0B)) [
    | inl f ↦
        agrees (encrypted_in sim_ready d (Codec.id m)) s m sim_ready active
          (ResponseAction.send_encrypted 0x0B0C sim_context payload_syn_b_rsp) at_active
          (syn_b-Answers s m ps r p (==→eq (Codec.id m) 0x0B0B f)) (ground arith) (ground arith)
    | inr f ↦ absurd (ground arith)
  ]
]

encrypted_in-Agrees :
    (st : SimState) (ps : ProtocolState) (d : LocalMessageDispatcher) (s : StatefulBapSession)
    (m : BapMessage)
    → Related st ps
    → d.state ≡ st
    → s.protocol_state ≡ ps
    → Codec.direction m ≡ Direction.client_to_server
    → is_accepted (encrypted_in st d (Codec.id m)).1 ≡ true
    → Agrees (encrypted_in st d (Codec.id m)) s m
unfolding encrypted_in unexpected_encrypted is_accepted sends
encrypted_in-Agrees _ _ d s m at_start q p c h = absurd (ground arith)
encrypted_in-Agrees _ _ d s m at_1f q p c h = absurd (ground arith)
encrypted_in-Agrees _ _ d s m at_1a q p c h = elim (Bool-cases (Codec.id m == 0x79)) [
  | inr e ↦ absurd (ground arith)
  | inl e ↦
      agrees (encrypted_in sim_1a_sent d (Codec.id m)) s m sim_ready encrypted_channel_established
        (ResponseAction.send_encrypted 0x7A sim_context payload_7a) at_ready
        (encrypt-Answers s m p (==→eq (Codec.id m) 0x79 e) c) (ground arith) (ground arith)
]
encrypted_in-Agrees _ ps d s m at_ready q p c h =
    ready-Agrees encrypted_channel_established d s m q at_ready p h
encrypted_in-Agrees _ ps d s m at_active q p c h = ready-Agrees active d s m q at_active p h

frame-Agrees :
    (d : LocalMessageDispatcher) (s : StatefulBapSession) (frame : DecodedBapFrame) (m : BapMessage)
    → Related d.state s.protocol_state
    → decode_from_frame frame Direction.client_to_server ≡ ok m
    → is_accepted (dispatch_inbound d frame).1 ≡ true
    → Agrees (dispatch_inbound d frame) s m
unfolding dispatch_inbound dispatch_clear dispatch_encrypted decode_from_frame is_accepted
frame-Agrees d s (DecodedBapFrame.clear id ctx payload) m r e h =
    let (i, c) =
      decoded_head
        (record {
          id = id;
          context = ctx;
          direction = Direction.client_to_server;
          payload = payload;
        })
        m e in
    subst (λ k. Agrees (clear_in d.state d k) s m) i
      (clear_in-Agrees d.state s.protocol_state d s m r refl c
        (subst (λ k. is_accepted (clear_in d.state d k).1 ≡ true) (sym i) h))
frame-Agrees d s (DecodedBapFrame.decrypted (some id) (some ctx) payload n) m r e h =
    let (i, c) =
      decoded_head
        (record {
          id = id;
          context = ctx;
          direction = Direction.client_to_server;
          payload = payload;
        })
        m e in
    subst (λ k. Agrees (encrypted_in d.state d k) s m) i
      (encrypted_in-Agrees d.state s.protocol_state d s m r refl refl c
        (subst (λ k. is_accepted (encrypted_in d.state d k).1 ≡ true) (sym i) h))
frame-Agrees d s (DecodedBapFrame.decrypted (some id) none payload n) m r e h =
    absurd (ground arith)
frame-Agrees d s (DecodedBapFrame.decrypted none ctx payload n) m r e h = absurd (ground arith)
frame-Agrees d s (DecodedBapFrame.opaque kind n) m r e h = absurd (ground arith)

-- The frames of a client, one after the other: the dispatcher that is left, and all actions.
unfoldable pub dispatch_all :
    LocalMessageDispatcher → List DecodedBapFrame → LocalMessageDispatcher × List ServerAction
dispatch_all d [] = (d, [])
dispatch_all d (f ∷ fs) =
    let (d', actions) = dispatch_inbound d f in
    let (d'', rest) = dispatch_all d' fs in (d'', actions ++ rest)

-- The same frames on a connection.
unfoldable pub handle_frames :
    StatefulBapSession → List DecodedBapFrame → StatefulBapSession × List ResponseAction
handle_frames s [] = (s, [])
handle_frames s (f ∷ fs) =
    let (s', r) = handle_decoded_frame s f Direction.client_to_server in
    let (s'', rest) = handle_frames s' fs in (s'', actions_of r ++ rest)

-- The codec reads a message out of the frame.
abbrev pub IsMessage : DecodedBapFrame → Type 0
IsMessage f = (m : BapMessage) × (decode_from_frame f Direction.client_to_server ≡ ok m)

is_accepted-append :
    (xs ys : List ServerAction)
    → is_accepted (xs ++ ys) ≡ true
    → (is_accepted xs ≡ true) × (is_accepted ys ≡ true)
unfolding is_accepted
is_accepted-append [] ys h = (refl, h)
is_accepted-append (send_clear a b c ∷ xs) ys h = is_accepted-append xs ys h
is_accepted-append (send_encrypted a b c ∷ xs) ys h = is_accepted-append xs ys h
is_accepted-append (change_state a ∷ xs) ys h = is_accepted-append xs ys h
is_accepted-append (close_connection ∷ xs) ys h = is_accepted-append xs ys h
is_accepted-append (ignore ∷ xs) ys h = is_accepted-append xs ys h
is_accepted-append (protocol_failure a b ∷ xs) ys h = absurd (ground arith)

sends-append : (xs ys : List ServerAction) → sends (xs ++ ys) ≡ sends xs ++ sends ys
unfolding sends
sends-append [] ys = refl
sends-append (send_clear a b c ∷ xs) ys =
    ap (λ t. ResponseAction.send_clear a b c ∷ t) (sends-append xs ys)
sends-append (send_encrypted a b c ∷ xs) ys =
    ap (λ t. ResponseAction.send_encrypted a b c ∷ t) (sends-append xs ys)
sends-append (change_state a ∷ xs) ys = sends-append xs ys
sends-append (close_connection ∷ xs) ys = sends-append xs ys
sends-append (ignore ∷ xs) ys = sends-append xs ys
sends-append (protocol_failure a b ∷ xs) ys = sends-append xs ys

pub handled_frame :
    (s : StatefulBapSession) (f : DecodedBapFrame) (m : BapMessage)
    → decode_from_frame f Direction.client_to_server ≡ ok m
    → handle_decoded_frame s f Direction.client_to_server ≡ handle_message s m
unfolding handle_decoded_frame handle_decoded
handled_frame s f m e = rw e refl

-- From related states, frames of messages that the dispatcher of the simulated handshake takes without a
-- protocol error are handled by a connection of the local server: it takes the replies that the dispatcher
-- sends, in the same order, and the two end in related states.
pub dispatch_all-refined :
    (d : LocalMessageDispatcher) (s : StatefulBapSession) (frames : List DecodedBapFrame)
    → Related d.state s.protocol_state
    → All IsMessage frames
    → is_accepted (dispatch_all d frames).1 ≡ true
    → Related (dispatch_all d frames).0.state (handle_frames s frames).0.protocol_state
      × ((handle_frames s frames).1 ≡ sends (dispatch_all d frames).1)
unfolding dispatch_all handle_frames sends
dispatch_all-refined d s [] r ms h = (r, refl)
dispatch_all-refined d s (f ∷ fs) r ((m, e), ms) h =
    let (d', actions) = dispatch_inbound d f in
    let (taken, later) = is_accepted-append actions (dispatch_all d' fs).1 h in
    let (r', same) = frame-Agrees d s f m r e taken in
    let (r'', rest) = dispatch_all-refined d' (handle_message s m).0 fs r' ms later in
    let step = handled_frame s f m e in
    (rw step r'', rw (step, sends-append actions (dispatch_all d' fs).1, same, rest) refl)
