-- ===== src/Server/Closing.antt =====
-- The first and the last steps of a connection, and whole runs.
use destiny1_pc_project.Prelude.{
  ℕ, suc, ◌+◌, ◌≡◌, refl, sym, ap, ◌∙◌, true, false, some, List, [], ◌∷◌, ◌++◌, arith, length,
  concat, All, append_assoc, ◌>>=◌, Result, ok,
}
use destiny1_pc_project.Aead.{AesGcm, IsAead}
use destiny1_pc_project.Nonce.{NonceDirection}
use destiny1_pc_project.Nonce.Value.{IsNonce}
use destiny1_pc_project.Context
use destiny1_pc_project.Dispatcher
use destiny1_pc_project.Policy
use destiny1_pc_project.Context.Track.{start, Tracks, count_one, nonce_at, new-Tracks}
use destiny1_pc_project.Session
use destiny1_pc_project.Session.{BapSession, decode_frame, decrypted, plaintext_of}
use destiny1_pc_project.Session.Exchange.{advance}
use destiny1_pc_project.Protocol.{
  ProtocolState, waiting_for_service_handshake, closed, close, begin_waiting_for_handshake,
}
use destiny1_pc_project.Policy.{sim_context, payload_7a}
use destiny1_pc_project.Events.{ProtocolEvent, session_closed}
use destiny1_pc_project.Stateful
use destiny1_pc_project.Stateful.{
  StatefulBapSession, with_material, set_state, move_to, state_discrete, push_event, begin_close,
  finish_close,
}
use destiny1_pc_project.Stateful.Handle.{set_state-state}
use destiny1_pc_project.Stream.{RawBapFrame, BapStreamDecoder, carve, push, default_max_body_len}
use destiny1_pc_project.Pipeline.Replay.{IsSendable, send_all}
use destiny1_pc_project.Server.{
  Connection, LocalServerError, Turn, goes_on, serve_frames, ends, LocalBapSession, with_keys,
  set_stateful, serve_eof, after_loop, accepted, handle_connection, trace_sys, push_trace,
  serve_loop,
}
use destiny1_pc_project.Server.Turns.{Script, script_socket, placed}
use destiny1_pc_project.Server.Chunks.{IsChunk, serve_loop-push}
use destiny1_pc_project.Server.Handshake.{
  IsOneFrame, handshake_requests, service_reply, login_reply, secured,
}

move_to_same :
    (s : StatefulBapSession) (to : ProtocolState) (d : Dec (s.protocol_state ≡ to))
    → s.protocol_state ≡ to
    → move_to s to d ≡ s
unfolding move_to
move_to_same s to (yes e) h = refl
move_to_same s to (no other) h = absurd (other h)

finish_close_again :
    (s : StatefulBapSession)
    → s.protocol_state ≡ closed
    → finish_close s ≡ push_event s session_closed
unfolding finish_close set_state close
finish_close_again s h =
    ap (λ x. push_event x session_closed)
      (move_to_same s closed (state_discrete s.protocol_state closed) h)

-- The connection after a client has closed its end.
pub record Closed (c : Connection Script) (turn : Turn Script) : Type 0 where
  pub after : Connection Script
  pub turns : turn ≡ ends after (ok tt)
  pub state : after.local.stateful.protocol_state ≡ closed
  pub sent : after.stream.sent ≡ c.stream.sent
  pub is_shut : after.stream.is_shut ≡ true
  pub events : List ProtocolEvent
  pub recorded : after.local.stateful.events ≡ events ++ (session_closed ∷ session_closed ∷ [])

finished_state : (s : StatefulBapSession) → (finish_close s).protocol_state ≡ closed
unfolding finish_close push_event close
finished_state s = set_state-state s closed

twice :
    (s : StatefulBapSession)
    → (push_event (finish_close s) session_closed).events
      ≡ (set_state s closed).events ++ (session_closed ∷ session_closed ∷ [])
unfolding finish_close push_event close
twice s = append_assoc (set_state s closed).events (session_closed ∷ []) (session_closed ∷ [])

closed_twice :
    (s : StatefulBapSession)
    → (finish_close (finish_close s)).protocol_state ≡ closed
      × (events : List ProtocolEvent) × ((finish_close (finish_close s)).events
          ≡ events ++ (session_closed ∷ session_closed ∷ []))
unfolding push_event finish_close
closed_twice s =
    let first : (finish_close s).protocol_state ≡ closed = finished_state s in
    let again = finish_close_again (finish_close s) first in
    (
      ap (λ (x : StatefulBapSession). x.protocol_state) again ∙ first,
      (set_state s closed).events,
      ap (λ (x : StatefulBapSession). x.events) again ∙ twice s,
    )

-- When the client closes its end, the connection ends without an error, whatever bytes of an unfinished
-- frame are left in the decoder: nothing more is written, the socket is shut down, the state is closed, and
-- the event of the closed session is recorded twice.
pub serve_eof-Closed : (c : Connection Script) → Closed c (after_loop (serve_eof c))
unfolding after_loop serve_eof set_stateful trace_sys push_trace
serve_eof-Closed c =
    let s = begin_close c.local.stateful in
    let (state, events, recorded) = closed_twice s in
    record {
      after = _;
      turns = refl;
      state = state;
      sent = refl;
      is_shut = refl;
      events = events;
      recorded = recorded;
    }

-- What `with_keys` makes.
local_of : ℕ → List ℕ → List ℕ → Context.SessionCryptoContext → LocalBapSession
local_of id key nonce ctx = record {
  connection_id = id;
  stateful = record {
    connection_id = id;
    protocol_state = waiting_for_service_handshake;
    session = record { crypto = ctx };
    material = record { key = key; nonce = nonce };
    dispatcher = Dispatcher.new;
    policy = Policy.default;
    events = ProtocolEvent.connected id ∷ [];
  };
}

made :
    (id : ℕ) (key nonce : List ℕ) (ctx : Context.SessionCryptoContext)
    → length key ≡ 16
    → length nonce ≡ 12
    → Context.new key nonce ≡ ok ctx
    → with_keys id key nonce ≡ ok (local_of id key nonce ctx)
unfolding with_keys with_material Session.new Stateful.accepted begin_waiting_for_handshake local_of
made id key nonce ctx k n h = ground arith

-- A socket that will give these chunks.
abbrev pub script : List (List ℕ) → Script
script chunks = record { incoming = chunks; sent = []; is_shut = false }

abbrev first : List (List ℕ) → LocalBapSession → Connection Script
first chunks local = accepted (script chunks) local

placed-first :
    (chunks : List (List ℕ)) (local : LocalBapSession)
    → placed (first chunks local).decoder chunks (first chunks local) ≡ first chunks local
unfolding placed accepted trace_sys push_trace
placed-first chunks local = refl

module _ (cipher : AesGcm) where
  -- A connection over chunks whose frames are served ends as the end of the stream does.
  run_to_end :
      (fuel id : ℕ) (key nonce : List ℕ) (chunks : List (List ℕ)) (local : LocalBapSession)
      (d' : BapStreamDecoder) (fs : List RawBapFrame) (c' : Connection Script)
      → with_keys id key nonce ≡ ok local
      → All IsChunk chunks
      → push (first chunks local).decoder (concat chunks) ≡ (d', ok fs)
      → serve_frames cipher (first chunks local) fs ≡ goes_on c'
      → handle_connection cipher (length chunks + suc fuel) id (script chunks) key nonce
        ≡ ok (after_loop (serve_eof (placed d' [] c')))
  unfolding handle_connection accepted destiny1_pc_project.Stream.new
  run_to_end fuel id key nonce chunks local d' fs c' h n p f =
      let loop =
        serve_loop-push cipher fuel (first chunks local) c' chunks d' fs (unfold carve in refl) n p
          f in
      ap
        (λ (r : Result LocalServerError LocalBapSession). r >>= λ l.
          ok (
            after_loop (serve_loop cipher (length chunks + suc fuel) (accepted (script chunks) l))))
        h
      ∙ ap (λ x. ok (after_loop (serve_loop cipher (length chunks + suc fuel) x)))
          (sym (placed-first chunks local))
      ∙ ap (λ t. ok (after_loop t)) loop

-- A client with the server's key and session nonce sends the requests 0x1E and 0x19 in the clear and 0x79
-- encrypted, each within the limits of the wire and the decoder, and then closes its end. Whatever chunks the
-- server reads the bytes in, with fuel for one read more than there are chunks and a cipher that keeps
-- its laws and seals the reply, the connection ends without an error: it has written just the replies 0x1F and
-- 0x1A in the clear and one frame, within the limit of a new decoder, that the client decodes to 0x7A, the
-- state is closed, and the socket is shut down.
pub handle_connection-handshake :
    (cipher : AesGcm) (fuel id : ℕ) (key nonce : List ℕ) (client client' : BapSession)
    (ctx1 ctx2 ctx3 : ℕ) (p1 p2 p3 sealed : List ℕ) (frames chunks : List (List ℕ))
    → IsAead cipher
    → Tracks key nonce start client.crypto
    → length key ≡ 16
    → IsNonce nonce
    → All (IsSendable default_max_body_len) (handshake_requests ctx1 ctx2 ctx3 p1 p2 p3)
    → send_all cipher client (handshake_requests ctx1 ctx2 ctx3 p1 p2 p3) ≡ some (client', frames)
    → All IsChunk chunks
    → concat chunks ≡ concat frames
    → cipher.seal key
        (nonce_at nonce
          (count_one start NonceDirection.client_to_server)
          NonceDirection.server_to_client)
        []
        (plaintext_of 0x7A sim_context payload_7a)
      ≡ some sealed
    → (c : Connection Script) × (reply : List ℕ) × (handle_connection cipher
          (length chunks + suc fuel)
          id
          (script chunks)
          key
          nonce
        ≡ ok (ends c (ok tt)))
      × (c.stream.sent ≡ service_reply ∷ login_reply ∷ reply ∷ [])
      × (decode_frame cipher client' NonceDirection.server_to_client reply ≡ (
        advance client' NonceDirection.server_to_client,
        ok (decrypted (some 0x7A) (some sim_context) payload_7a 12),
      ))
      × (c.local.stateful.protocol_state ≡ closed)
      × (c.stream.is_shut ≡ true)
      × IsOneFrame reply
unfolding local_of accepted trace_sys push_trace destiny1_pc_project.Stream.new placed payload_7a
handle_connection-handshake cipher fuel id key nonce client client' ctx1 ctx2 ctx3 p1 p2 p3 sealed
      frames chunks laws hs hk hn ok_ms sent ns same seals =
    let (ctx, fresh, tracks) = new-Tracks key nonce hk hn.size in
    let local = local_of id key nonce ctx in
    let c0 = first chunks local in
    let q =
      secured cipher laws key nonce start c0 client client' ctx1 ctx2 ctx3 p1 p2 p3 sealed frames hs
        tracks refl refl ok_ms sent hk hn seals in
    let end = serve_eof-Closed (placed c0.decoder [] q.after) in
    (
      end.after,
      q.reply,
      run_to_end cipher fuel id key nonce chunks local c0.decoder q.rs q.after
            (made id key nonce ctx hk hn.size fresh) ns
            (ap (λ x. push c0.decoder x) same ∙ q.pushed) q.served
          ∙ ap ok end.turns,
      end.sent ∙ q.sent,
      q.read_back,
      end.state,
      end.is_shut,
      q.came,
    )
