-- ===== src/Tests/Local.antt =====
-- Runs of the theorems on the simulated handshake and on whole connections.
use destiny1_pc_project.Prelude.{
  length, codes, ℕ, suc, ◌+◌, ◌≡◌, refl, arith, true, false, some, List, [], ◌∷◌, ◌++◌, take, drop,
  concat, All, ok,
}
use destiny1_pc_project.Tests.{toy, toy-IsAead, toy_key, toy_nonce, toy_nonce-IsNonce, toy_tag}
use destiny1_pc_project.Tests.Crypto.{toy_session, toy-Tracks}
use destiny1_pc_project.Nonce.{NonceDirection}
use destiny1_pc_project.Context.{next_nonce}
use destiny1_pc_project.Session
use destiny1_pc_project.Session.{
  DecodedBapFrame, clear, decrypted, decode_frame, plaintext_of, encode_clear, encode_encrypted,
}
use destiny1_pc_project.Session.Exchange.{advance}
use destiny1_pc_project.Codec
use destiny1_pc_project.Protocol.{waiting_for_service_handshake, closed}
use destiny1_pc_project.Policy.{sim_context, payload_7a}
use destiny1_pc_project.Stream
use destiny1_pc_project.Stateful.{StatefulBapSession}
use destiny1_pc_project.Policy
use destiny1_pc_project.Dispatcher
use destiny1_pc_project.Pipeline.Replay.{IsSendable, send_all}
use destiny1_pc_project.LocalProtocol
use destiny1_pc_project.LocalProtocol.{LocalMessageDispatcher, dispatch_inbound}
use destiny1_pc_project.LocalProtocol.Invariant.{last_state, IsResting, dispatch_inbound-IsResting}
use destiny1_pc_project.LocalProtocol.Agreement.{
  Related, at_start, is_accepted, IsMessage, sends, dispatch_all, handle_frames,
  dispatch_all-refined,
}
use destiny1_pc_project.Server.{Connection, ends, handle_connection, after_loop, serve_eof}
use destiny1_pc_project.Server.Turns.{Script, script_socket}
use destiny1_pc_project.Server.Handshake.{
  IsOneFrame, handshake_requests, service_reply, login_reply,
}
use destiny1_pc_project.Source.{chunk_stream}
use destiny1_pc_project.Source.Split.{chunk_stream-concat}
use destiny1_pc_project.ReplayClient.{ran, run_handshake}
use destiny1_pc_project.ReplayClient.Exchange.{client_at}
use destiny1_pc_project.ReplayClient.Together.{client_requests, run_handshake-handle_connection}
use destiny1_pc_project.Server.Closing.{
  Closed, script, serve_eof-Closed, handle_connection-handshake,
}

abbrev first_frame : DecodedBapFrame
first_frame = clear 0x1E 1 (7 ∷ [])

dispatch_inbound-IsResting_example :
    ((dispatch_inbound LocalProtocol.new first_frame).0.state
      ≡ last_state LocalProtocol.sim_start (dispatch_inbound LocalProtocol.new first_frame).1)
    × IsResting (dispatch_inbound LocalProtocol.new first_frame).0
unfolding LocalProtocol.new
dispatch_inbound-IsResting_example =
    dispatch_inbound-IsResting LocalProtocol.new first_frame
      (unfold destiny1_pc_project.LocalProtocol.Invariant.encrypts in refl)

-- A connection that waits for the service handshake.
abbrev waiting : StatefulBapSession
waiting = record {
  connection_id = 1;
  protocol_state = waiting_for_service_handshake;
  session = toy_session;
  material = record { key = toy_key; nonce = toy_nonce };
  dispatcher = Dispatcher.new;
  policy = Policy.default;
  events = [];
}

abbrev two_frames : List DecodedBapFrame
two_frames = first_frame ∷ clear 0x19 1 [] ∷ []

two_frames-IsMessage : All IsMessage two_frames
unfolding Codec.decode_from_frame Codec.decode_message
two_frames-IsMessage = ((_, refl), ((_, refl), tt))

two_frames-is_accepted : is_accepted (dispatch_all LocalProtocol.new two_frames).1 ≡ true
unfolding is_accepted dispatch_all dispatch_inbound LocalProtocol.new LocalProtocol.dispatch_clear
two_frames-is_accepted = refl

dispatch_all-refined_example :
    Related
      (dispatch_all LocalProtocol.new two_frames).0.state
      (handle_frames waiting two_frames).0.protocol_state
    × ((handle_frames waiting two_frames).1 ≡ sends (dispatch_all LocalProtocol.new two_frames).1)
dispatch_all-refined_example =
    dispatch_all-refined LocalProtocol.new waiting two_frames (unfold LocalProtocol.new in at_start)
      two_frames-IsMessage two_frames-is_accepted

abbrev toy_connection : Connection Script
toy_connection = record {
  stream = record { incoming = []; sent = []; is_shut = false };
  local = record { connection_id = 1; stateful = waiting };
  decoder = record { buf = 1 ∷ 2 ∷ []; max_body_len = 64 };
  traces = [];
}

serve_eof-Closed_example : Closed toy_connection (after_loop (serve_eof toy_connection))
serve_eof-Closed_example = serve_eof-Closed toy_connection

-- What the client writes.
abbrev client_frames : List (List ℕ)
client_frames =
    (1 ∷ 2 ∷ 0 ∷ 0 ∷ 0 ∷ 7 ∷ 0 ∷ 0x1E ∷ 0 ∷ 0 ∷ 0 ∷ 1 ∷ 7 ∷ [])
    ∷ (1 ∷ 2 ∷ 0 ∷ 0 ∷ 0 ∷ 6 ∷ 0 ∷ 0x19 ∷ 0 ∷ 0 ∷ 0 ∷ 1 ∷ [])
    ∷ (1 ∷ 1 ∷ 0 ∷ 0 ∷ 0 ∷ 22 ∷ (toy_tag ++ (0 ∷ 0x79 ∷ 0 ∷ 0 ∷ 0 ∷ 1 ∷ [])))
    ∷ []

requests-IsSendable :
    All (IsSendable Stream.default_max_body_len) (handshake_requests 1 1 1 (7 ∷ []) [] [])
requests-IsSendable = (
  record {
    id_u16 = omega arith;
    context_u32 = omega arith;
    within = omega arith;
    limit_u32 = omega arith;
  },
  (
    record {
      id_u16 = omega arith;
      context_u32 = omega arith;
      within = omega arith;
      limit_u32 = omega arith;
    },
    (
      record {
        id_u16 = omega arith;
        context_u32 = omega arith;
        within = omega arith;
        limit_u32 = omega arith;
      },
      tt,
    ),
  ),
)

requests_sent :
    send_all toy toy_session (handshake_requests 1 1 1 (7 ∷ []) [] [])
    ≡ some (advance toy_session NonceDirection.client_to_server, client_frames)
unfolding send_all destiny1_pc_project.Pipeline.Replay.send_as encode_clear Session.clear_raw
    destiny1_pc_project.Framing.serialize destiny1_pc_project.Framing.serialize_body
    destiny1_pc_project.Framing.clear_frame encode_encrypted Session.framed
    destiny1_pc_project.Aead.encrypt_aes_gcm next_nonce plaintext_of Session.encrypted_raw
    destiny1_pc_project.Framing.encrypted_frame destiny1_pc_project.Framing.as_u8
requests_sent = refl

-- The bytes in two chunks.
abbrev client_chunks : List (List ℕ)
client_chunks = take 9 (concat client_frames) ∷ drop 9 (concat client_frames) ∷ []

handle_connection-handshake_example :
    (c : Connection Script) × (reply : List ℕ) × (handle_connection toy
        (2 + suc 0)
        1
        (script client_chunks)
        toy_key
        toy_nonce
      ≡ ok (ends c (ok tt)))
    × (c.stream.sent ≡ service_reply ∷ login_reply ∷ reply ∷ [])
    × (decode_frame toy
          (advance toy_session NonceDirection.client_to_server)
          NonceDirection.server_to_client
          reply
        ≡ (
          advance
              (advance toy_session NonceDirection.client_to_server)
              NonceDirection.server_to_client,
          ok (decrypted (some 0x7A) (some sim_context) payload_7a 12),
        ))
    × (c.local.stateful.protocol_state ≡ closed)
    × (c.stream.is_shut ≡ true)
    × IsOneFrame reply
handle_connection-handshake_example =
    handle_connection-handshake toy 0 1 toy_key toy_nonce toy_session
      (advance toy_session NonceDirection.client_to_server) 1 1 1 (7 ∷ []) [] []
      (plaintext_of 0x7A sim_context payload_7a ++ toy_tag) client_frames client_chunks toy-IsAead
      toy-Tracks refl toy_nonce-IsNonce requests-IsSendable requests_sent
      (omega arith, (omega arith, tt)) refl refl

-- What the client of the simulated handshake writes.
abbrev client_bytes : List (List ℕ)
client_bytes =
    (1 ∷ 2 ∷ 0 ∷ 0 ∷ 0 ∷ 12 ∷ 0 ∷ 0x1E ∷ 0 ∷ 0 ∷ 0 ∷ 1 ∷ codes "SIM_1E")
    ∷ (1 ∷ 2 ∷ 0 ∷ 0 ∷ 0 ∷ 12 ∷ 0 ∷ 0x19 ∷ 0 ∷ 0 ∷ 0 ∷ 1 ∷ codes "SIM_19")
    ∷ (1 ∷ 1 ∷ 0 ∷ 0 ∷ 0 ∷ 28 ∷ (toy_tag ++ (0 ∷ 0x79 ∷ 0 ∷ 0 ∷ 0 ∷ 1 ∷ codes "SIM_79")))
    ∷ []

client_sent :
    send_all toy toy_session client_requests
    ≡ some (advance toy_session NonceDirection.client_to_server, client_bytes)
unfolding send_all destiny1_pc_project.Pipeline.Replay.send_as encode_clear Session.clear_raw
    destiny1_pc_project.Framing.serialize destiny1_pc_project.Framing.serialize_body
    destiny1_pc_project.Framing.clear_frame encode_encrypted Session.framed
    destiny1_pc_project.Aead.encrypt_aes_gcm next_nonce plaintext_of Session.encrypted_raw
    destiny1_pc_project.Framing.encrypted_frame destiny1_pc_project.Framing.as_u8
    LocalProtocol.payload_1e LocalProtocol.payload_19 LocalProtocol.payload_79
client_sent = refl

-- Chunks of two and forty bytes in turn: they cut replies in two and join parts of them.
abbrev toy_cut : List ℕ → List (List ℕ)
toy_cut stream = chunk_stream stream (2 ∷ 40 ∷ [])

run_handshake-handle_connection_example :
    (c : Connection Script) × (handle_connection toy
        (3 + suc 0)
        1
        (script client_bytes)
        toy_key
        toy_nonce
      ≡ ok (ends c (ok tt)))
    × (run_handshake toy
          (length (toy_cut (concat c.stream.sent)) + suc 0)
          (client_at (script (toy_cut (concat c.stream.sent))) toy_session LocalProtocol.sim_start)
        ≡ ran
            (client_at
              (record { incoming = []; sent = client_bytes; is_shut = false })
              (advance
                (advance toy_session NonceDirection.client_to_server)
                NonceDirection.server_to_client)
              LocalProtocol.sim_ready)
            (ok tt))
run_handshake-handle_connection_example =
    run_handshake-handle_connection toy 0 0 1 toy_key toy_nonce toy_session
      (advance toy_session NonceDirection.client_to_server)
      (plaintext_of 0x7A sim_context payload_7a ++ toy_tag) client_bytes client_bytes toy_cut
      toy-IsAead toy-Tracks refl toy_nonce-IsNonce client_sent
      (omega arith, (omega arith, (omega arith, tt))) refl
      (λ stream. (chunk_stream-concat stream (2 ∷ 40 ∷ [])).0)
      (λ stream. (chunk_stream-concat stream (2 ∷ 40 ∷ [])).1) refl
