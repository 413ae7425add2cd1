-- ===== src/Server/Serve.antt =====
-- One frame of a client: from its bytes to the reply on the socket.
use destiny1_pc_project.Prelude.{
  ℕ, ◌+◌, ◌<◌, ◌≡◌, ◌≢◌, refl, ap, ◌∙◌, false, Option, none, List, [], ◌∷◌, ◌++◌, arith, length,
  IsU16, IsU32, codes, Result, ok, returns,
}
use destiny1_pc_project.Aead.{AesGcm}
use destiny1_pc_project.Framing.{u32_limit}
use destiny1_pc_project.Nonce.{NonceDirection}
use destiny1_pc_project.Session.{
  BapSession, BapSessionError, DecodedBapFrame, decode_frame, encode_clear, encode_encrypted,
}
use destiny1_pc_project.Session.Exchange.{clear_wire, decode-encode_clear}
use destiny1_pc_project.Codec.{BapMessage, Direction, decode_from_frame}
use destiny1_pc_project.Protocol.{
  ProtocolState, TransitionResult, advanced, observed, rejected, is_rejected, as_str,
}
use destiny1_pc_project.Policy.{ResponseAction, send_clear, send_encrypted, nothing}
use destiny1_pc_project.Stateful.{HandleResult, Handled, handle_message}
use destiny1_pc_project.Stateful.Replies.{Answers}
use destiny1_pc_project.LocalProtocol.Agreement.{handled_frame}
use destiny1_pc_project.Stream.{RawBapFrame}
use destiny1_pc_project.Server.{
  Connection, Turn, goes_on, set_stateful, trace_c2s, trace_sent, push_trace, written, send_bytes,
  send_clear_bytes, send_sealed_bytes, run_action, run_actions, settle_handled, serve_handled,
  serve_decoded, serve_frame, frame_ids,
}
use destiny1_pc_project.Server.Turns.{Script, script_socket}
use destiny1_pc_project.Server.Replies.{encode_via_codec_lem, handle_message-session, answered}

-- A connection that has handled a message and has its reply still to write.
pub record Replying (cipher : AesGcm) (c : Connection Script) (turn : Turn Script) (s : BapSession)
    (to : ProtocolState) (reply : ResponseAction) : Type 0 where
  pub before : Connection Script
  pub ids : Option ℕ × Option ℕ
  pub outcome : TransitionResult
  pub is_accepted : is_rejected outcome ≡ false
  pub turns : turn ≡ settle_handled cipher before ids outcome (reply ∷ [])
  pub state : before.local.stateful.protocol_state ≡ to
  pub same_session : before.local.stateful.session ≡ s
  pub same_stream : before.stream ≡ c.stream

module _ (cipher : AesGcm) where
  serve_handled_ok :
      (c : Connection Script) (ids : Option ℕ × Option ℕ) (h : Handled) (r : HandleResult)
      → h.1 ≡ ok r
      → serve_handled cipher c ids h
        ≡ settle_handled cipher (set_stateful c h.0) ids r.transition r.actions
  unfolding serve_handled
  serve_handled_ok c ids (s, x) r e = ap (λ y. serve_handled cipher c ids (s, y)) e

  -- A frame that decodes to a message which the connection answers.
  pub serve_frame-Replying :
      (c : Connection Script) (raw : RawBapFrame) (s : BapSession) (frame : DecodedBapFrame)
      (m : BapMessage) (to : ProtocolState) (reply : ResponseAction)
      → decode_frame cipher c.local.stateful.session NonceDirection.client_to_server raw.raw_bytes
        ≡ (s, ok frame)
      → decode_from_frame frame Direction.client_to_server ≡ ok m
      → Answers (record (c.local.stateful) { session = s }) m to reply
      → reply ≢ nothing
      → Replying cipher c (serve_frame cipher c raw) s to reply
  unfolding serve_frame serve_decoded set_stateful trace_c2s push_trace
  serve_frame-Replying c raw s frame m to reply d e a n =
      let s0 = record (c.local.stateful) { session = s } in
      let c0 = trace_c2s (set_stateful c s0) (frame_ids frame) (codes "RECV") in
      let (r, handled, acts, fine) = answered s0 m to reply a n in
      record {
        before = set_stateful c0 (handle_message s0 m).0;
        ids = frame_ids frame;
        outcome = r.transition;
        is_accepted = fine;
        turns =
            ap
              (λ (x : BapSession × Result BapSessionError DecodedBapFrame).
                serve_decoded cipher (set_stateful c (record (c.local.stateful) { session = x.0 }))
                  x.1)
              d
            ∙ ap (serve_handled cipher c0 (frame_ids frame)) (handled_frame s0 frame m e)
            ∙ serve_handled_ok c0 (frame_ids frame) (handle_message s0 m) r handled
            ∙ ap
                (settle_handled cipher (set_stateful c0 (handle_message s0 m).0) (frame_ids frame)
                  r.transition)
                acts;
        state = a.0;
        same_session = handle_message-session s0 m;
        same_stream = refl;
      }

  -- The connection behind a reply.
  pub record Replied (b : Connection Script) (turn : Turn Script) (s : BapSession) (bytes : List ℕ)
      : Type 0 where
    pub after : Connection Script
    pub turns : turn ≡ goes_on after
    pub state : after.local.stateful.protocol_state ≡ b.local.stateful.protocol_state
    pub session : after.local.stateful.session ≡ s
    pub sent : after.stream.sent ≡ b.stream.sent ++ (bytes ∷ [])

  one_action :
      (b c : Connection Script) (a : ResponseAction)
      → run_action cipher b a ≡ goes_on c
      → run_actions cipher b (a ∷ []) ≡ goes_on c
  unfolding run_actions
  one_action b c a h = ground arith

  run_clear :
      (b : Connection Script) (id ctx : ℕ) (payload : List ℕ)
      → IsU16 id
      → IsU32 ctx
      → 6 + length payload < u32_limit
      → Replied b
          (run_actions cipher b (send_clear id ctx payload ∷ []))
          b.local.stateful.session
          (clear_wire id ctx payload)
  unfolding run_action send_clear_bytes send_bytes written trace_sent push_trace
  run_clear b id ctx payload i x n =
      let bytes = clear_wire id ctx payload in
      let after =
        trace_sent
          (record b { stream = record (b.stream) { sent = b.stream.sent ++ (bytes ∷ []) } }) id
          ctx in
      let wrote =
        decode-encode_clear cipher b.local.stateful.session NonceDirection.server_to_client id ctx
          payload i x n in
      record {
        after = after;
        turns = one_action b after (send_clear id ctx payload) (
            ap (λ body. send_clear_bytes b id ctx (encode_clear id ctx body))
              (encode_via_codec_lem id ctx Direction.server_to_client payload)
            ∙ ap (send_clear_bytes b id ctx) wrote.0);
        state = refl;
        session = refl;
        sent = refl;
      }

  run_secret :
      (b : Connection Script) (id ctx : ℕ) (payload : List ℕ) (s : BapSession) (bytes : List ℕ)
      → encode_encrypted cipher b.local.stateful.session NonceDirection.server_to_client id ctx
          payload
        ≡ returns (s, ok bytes)
      → Replied b (run_actions cipher b (send_encrypted id ctx payload ∷ [])) s bytes
  unfolding run_action send_sealed_bytes send_bytes written trace_sent push_trace set_stateful
  run_secret b id ctx payload s bytes e =
      let b' = set_stateful b (record (b.local.stateful) { session = s }) in
      let after =
        trace_sent
          (record b' { stream = record (b.stream) { sent = b.stream.sent ++ (bytes ∷ []) } }) id
          ctx in
      record {
        after = after;
        turns = one_action b after (send_encrypted id ctx payload) (
            ap
              (λ body. send_sealed_bytes b id ctx (
                encode_encrypted cipher b.local.stateful.session NonceDirection.server_to_client id
                  ctx body))
              (encode_via_codec_lem id ctx Direction.server_to_client payload)
            ∙ ap (send_sealed_bytes b id ctx) e);
        state = refl;
        session = refl;
        sent = refl;
      }

  -- The reply of a message that was not rejected, whether it advanced the state or not.
  settled_clear :
      (b : Connection Script) (ids : Option ℕ × Option ℕ) (tr : TransitionResult) (id ctx : ℕ)
      (payload : List ℕ)
      → is_rejected tr ≡ false
      → IsU16 id
      → IsU32 ctx
      → 6 + length payload < u32_limit
      → Replied b
          (settle_handled cipher b ids tr (send_clear id ctx payload ∷ []))
          b.local.stateful.session
          (clear_wire id ctx payload)
  unfolding settle_handled push_trace
  settled_clear b ids (rejected e) id ctx payload r i x n =
      absurd (unfold is_rejected in ground arith)
  settled_clear b ids (observed st) id ctx payload r i x n = run_clear b id ctx payload i x n
  settled_clear b ids (advanced from to) id ctx payload r i u n =
      let b' =
        push_trace b (codes "SYS") none none (as_str to)
          (codes "ChangeState " ++ (as_str from ++ (codes "→" ++ as_str to))) in
      let x = run_clear b' id ctx payload i u n in
      record {
        after = x.after;
        turns = x.turns;
        state = x.state;
        session = x.session;
        sent = x.sent;
      }

  settled_secret :
      (b : Connection Script) (ids : Option ℕ × Option ℕ) (tr : TransitionResult) (id ctx : ℕ)
      (payload : List ℕ) (s : BapSession) (bytes : List ℕ)
      → is_rejected tr ≡ false
      → encode_encrypted cipher b.local.stateful.session NonceDirection.server_to_client id ctx
          payload
        ≡ returns (s, ok bytes)
      → Replied b (settle_handled cipher b ids tr (send_encrypted id ctx payload ∷ [])) s bytes
  unfolding settle_handled push_trace
  settled_secret b ids (rejected e) id ctx payload s bytes r h =
      absurd (unfold is_rejected in ground arith)
  settled_secret b ids (observed st) id ctx payload s bytes r h =
      run_secret b id ctx payload s bytes h
  settled_secret b ids (advanced from to) id ctx payload s bytes r h =
      let b' =
        push_trace b (codes "SYS") none none (as_str to)
          (codes "ChangeState " ++ (as_str from ++ (codes "→" ++ as_str to))) in
      let x = run_secret b' id ctx payload s bytes h in
      record {
        after = x.after;
        turns = x.turns;
        state = x.state;
        session = x.session;
        sent = x.sent;
      }

  -- A served frame: the connection behind it, in which the state has moved and one reply is written.
  pub record Served (c : Connection Script) (turn : Turn Script) (s : BapSession)
      (to : ProtocolState) (bytes : List ℕ) : Type 0 where
    pub after : Connection Script
    pub turns : turn ≡ goes_on after
    pub state : after.local.stateful.protocol_state ≡ to
    pub session : after.local.stateful.session ≡ s
    pub sent : after.stream.sent ≡ c.stream.sent ++ (bytes ∷ [])

  pub serve_clear :
      (c : Connection Script) (raw : RawBapFrame) (s : BapSession) (frame : DecodedBapFrame)
      (m : BapMessage) (to : ProtocolState) (id ctx : ℕ) (payload : List ℕ)
      → decode_frame cipher c.local.stateful.session NonceDirection.client_to_server raw.raw_bytes
        ≡ (s, ok frame)
      → decode_from_frame frame Direction.client_to_server ≡ ok m
      → Answers (record (c.local.stateful) { session = s }) m to (send_clear id ctx payload)
      → IsU16 id
      → IsU32 ctx
      → 6 + length payload < u32_limit
      → Served c (serve_frame cipher c raw) s to (clear_wire id ctx payload)
  serve_clear c raw s frame m to id ctx payload d e a i x n =
      let p =
        serve_frame-Replying c raw s frame m to (send_clear id ctx payload) d e a (ground arith) in
      let q = settled_clear p.before p.ids p.outcome id ctx payload p.is_accepted i x n in
      record {
        after = q.after;
        turns = p.turns ∙ q.turns;
        state = q.state ∙ p.state;
        session = q.session ∙ p.same_session;
        sent =
            q.sent ∙ ap (λ (t : Script). t.sent ++ (clear_wire id ctx payload ∷ [])) p.same_stream;
      }

  pub serve_secret :
      (c : Connection Script) (raw : RawBapFrame) (s s' : BapSession) (frame : DecodedBapFrame)
      (m : BapMessage) (to : ProtocolState) (id ctx : ℕ) (payload bytes : List ℕ)
      → decode_frame cipher c.local.stateful.session NonceDirection.client_to_server raw.raw_bytes
        ≡ (s, ok frame)
      → decode_from_frame frame Direction.client_to_server ≡ ok m
      → Answers (record (c.local.stateful) { session = s }) m to (send_encrypted id ctx payload)
      → encode_encrypted cipher s NonceDirection.server_to_client id ctx payload
        ≡ returns (s', ok bytes)
      → Served c (serve_frame cipher c raw) s' to bytes
  serve_secret c raw s s' frame m to id ctx payload bytes d e a w =
      let p =
        serve_frame-Replying c raw s frame m to (send_encrypted id ctx payload) d e a
          (ground arith) in
      let q = settled_secret p.before p.ids p.outcome id ctx payload s' bytes p.is_accepted (
        ap (λ x. encode_encrypted cipher x NonceDirection.server_to_client id ctx payload)
          p.same_session
        ∙ w) in
      record {
        after = q.after;
        turns = p.turns ∙ q.turns;
        state = q.state ∙ p.state;
        session = q.session;
        sent = q.sent ∙ ap (λ (t : Script). t.sent ++ (bytes ∷ [])) p.same_stream;
      }
