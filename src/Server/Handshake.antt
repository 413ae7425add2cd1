-- ===== src/Server/Handshake.antt =====
-- The handshake of a client with the local server, from bytes to bytes.
use destiny1_pc_project.Prelude.{
  ℕ, ◌+◌, ◌<◌, ◌≡◌, refl, sym, ap, ◌∙◌, subst, Bool, true, false, some, List, [], ◌∷◌, ◌++◌, arith,
  length, concat, All, append-nil, append_assoc, ok, returns,
}
use destiny1_pc_project.Aead.{AesGcm, IsAead, key_len}
use destiny1_pc_project.Nonce.{NonceDirection}
use destiny1_pc_project.Nonce.Value.{IsNonce}
use destiny1_pc_project.Context.Track.{Drawn, Tracks, count_one, nonce_at}
use destiny1_pc_project.Session.{BapSession, clear, decrypted, decode_frame, plaintext_of}
use destiny1_pc_project.Session.Exchange.{InStep, advance, clear_wire, decode-encode_encrypted}
use destiny1_pc_project.Codec
use destiny1_pc_project.Codec.{BapMessage, Direction, decode_from_frame}
use destiny1_pc_project.Codec.RoundTrip.{decodes, decoded_head}
use destiny1_pc_project.Protocol.{
  ProtocolState, waiting_for_service_handshake, service_handshake_complete, session_established,
  encrypted_channel_established,
}
use destiny1_pc_project.Policy.{send_clear, sim_context, payload_1f, payload_1a, payload_7a}
use destiny1_pc_project.Stateful.{StatefulBapSession}
use destiny1_pc_project.Stateful.Replies.{Answers, service-Answers, login-Answers, encrypt-Answers}
use destiny1_pc_project.Stream.{RawBapFrame, BapStreamDecoder, default_max_body_len, carve, push}
use destiny1_pc_project.Stream.Exact.{Fits, raws, push-raws}
use destiny1_pc_project.Pipeline.Replay.{
  Message, decoded_as, IsSendable, arrives, send_as, send_all, send_all_inv,
}
use destiny1_pc_project.Server.{Connection, goes_on, serve_frame, serve_frames}
use destiny1_pc_project.Server.Turns.{Script, script_socket}
use destiny1_pc_project.Server.Serve.{Served, serve_clear, serve_secret}

-- A message of the client.
abbrev pub request : Bool → ℕ → ℕ → List ℕ → Message
request secret id ctx payload = record {
  secret = secret;
  direction = NonceDirection.client_to_server;
  id = id;
  context = ctx;
  payload = payload;
}

-- The server's codec reads the request back.
request_message :
    (b : Bool) (id ctx : ℕ) (payload : List ℕ)
    → (m : BapMessage) × (decode_from_frame
          (decoded_as b (request b id ctx payload))
          Direction.client_to_server
        ≡ ok m)
      × (Codec.id m ≡ id)
      × (Codec.direction m ≡ Direction.client_to_server)
unfolding decode_from_frame
request_message true id ctx payload =
    let env = Codec.envelope id ctx Direction.client_to_server payload in
    let (m, e) = decodes env in
    let (i, d) = decoded_head env m e in
    (m, unfold Codec.envelope in e, unfold Codec.envelope in i, unfold Codec.envelope in d)
request_message false id ctx payload =
    let env = Codec.envelope id ctx Direction.client_to_server payload in
    let (m, e) = decodes env in
    let (i, d) = decoded_head env m e in
    (m, unfold Codec.envelope in e, unfold Codec.envelope in i, unfold Codec.envelope in d)

-- The bytes are one frame within the limit of a new decoder.
abbrev pub IsOneFrame : List ℕ → Type 0
IsOneFrame bytes = (raw : RawBapFrame) × Fits default_max_body_len raw × (raw.raw_bytes ≡ bytes)

module _ (cipher : AesGcm) (laws : IsAead cipher) (key n : List ℕ) (limit : ℕ) where
  -- A request that arrived and was answered.
  record Requested (t : Drawn) (c : Connection Script) (client' : BapSession) (bytes : List ℕ)
      (to : ProtocolState) (reply : List ℕ) : Type 0 where
    raw : RawBapFrame
    fits : Fits limit raw
    same : raw.raw_bytes ≡ bytes
    after : BapSession
    served : Served cipher c (serve_frame cipher c raw) after to reply
    sender : Tracks key n t client'.crypto
    receiver : Tracks key n t after.crypto

  clear_request :
      (t : Drawn) (c : Connection Script) (client client' : BapSession) (bytes : List ℕ)
      (id ctx : ℕ) (payload : List ℕ) (from to : ProtocolState) (rid : ℕ) (rpayload : List ℕ)
      → Tracks key n t client.crypto
      → Tracks key n t c.local.stateful.session.crypto
      → c.local.stateful.protocol_state ≡ from
      → IsSendable limit (request false id ctx payload)
      → send_as cipher false client (request false id ctx payload) ≡ returns (client', ok bytes)
      → (rid < 65536)
      → (6 + length rpayload < 4294967296)
      → ((s : StatefulBapSession) (m : BapMessage)
          → s.protocol_state ≡ from
          → Codec.id m ≡ id
          → Codec.direction m ≡ Direction.client_to_server
          → Answers s m to (send_clear rid sim_context rpayload))
      → Requested t c client' bytes to (clear_wire rid sim_context rpayload)
  clear_request t c client client' bytes id ctx payload from to rid rpayload hs hr st sendable sent
        ir nr answers =
      let x =
        arrives cipher laws key n limit false t (request false id ctx payload) client client'
          c.local.stateful.session bytes sendable hs hr sent in
      let (m, e, i, d) = request_message false id ctx payload in
      record {
        raw = x.raw;
        fits = x.raw_fits;
        same = x.raw_bytes;
        after = x.after;
        served =
            serve_clear cipher c x.raw x.after (clear id ctx payload) m to rid sim_context rpayload
              (rw x.raw_bytes x.decodes) e
              (answers (record (c.local.stateful) { session = x.after }) m st i d) ir (omega arith)
              nr;
        sender = x.sender_tracks;
        receiver = x.receiver_tracks;
      }

  -- The server's reply to the last request.
  abbrev status : Message
  status = record {
    secret = true;
    direction = NonceDirection.server_to_client;
    id = 0x7A;
    context = sim_context;
    payload = payload_7a;
  }

  status-IsSendable : IsSendable default_max_body_len status
  unfolding payload_7a
  status-IsSendable = record {
    id_u16 = omega arith;
    context_u32 = omega arith;
    within = omega arith;
    limit_u32 = omega arith;
  }

  -- The request for the encrypted handshake, and the reply as the client reads it.
  record Secured (c : Connection Script) (client' : BapSession) (bytes : List ℕ) : Type 0 where
    raw : RawBapFrame
    fits : Fits limit raw
    same : raw.raw_bytes ≡ bytes
    session' : BapSession
    reply : List ℕ
    served : Served cipher c (serve_frame cipher c raw) session' encrypted_channel_established reply
    read_back : decode_frame cipher client' NonceDirection.server_to_client reply ≡ (
      advance client' NonceDirection.server_to_client,
      ok (decrypted (some 0x7A) (some sim_context) payload_7a (6 + length payload_7a)),
    )
    came : IsOneFrame reply

  secret_request :
      (t : Drawn) (c : Connection Script) (client client' : BapSession) (bytes : List ℕ) (ctx : ℕ)
      (payload sealed : List ℕ)
      → Tracks key n t client.crypto
      → Tracks key n t c.local.stateful.session.crypto
      → c.local.stateful.protocol_state ≡ session_established
      → IsSendable limit (request true 0x79 ctx payload)
      → send_as cipher true client (request true 0x79 ctx payload) ≡ returns (client', ok bytes)
      → length key ≡ key_len
      → IsNonce n
      → cipher.seal key
          (nonce_at n (count_one t NonceDirection.client_to_server) NonceDirection.server_to_client)
          []
          (plaintext_of 0x7A sim_context payload_7a)
        ≡ some sealed
      → Secured c client' bytes
  secret_request t c client client' bytes ctx payload sealed hs hr st sendable sent hk hn seals =
      let u = count_one t NonceDirection.client_to_server in
      let x =
        arrives cipher laws key n limit true t (request true 0x79 ctx payload) client client'
          c.local.stateful.session bytes sendable hs hr sent in
      let (m, e, i, d) = request_message true 0x79 ctx payload in
      let step : InStep key n u u NonceDirection.server_to_client x.after client' = record {
        sends = x.receiver_tracks;
        receives = x.sender_tracks;
        same_count = refl;
      } in
      let (reply, written, read, next) =
        decode-encode_encrypted cipher laws key n u u NonceDirection.server_to_client x.after
          client' 0x7A sim_context payload_7a sealed step hk hn (omega arith) (omega arith)
          (unfold payload_7a in omega arith) seals in
      let back =
        arrives cipher laws key n default_max_body_len true u status x.after
          (advance x.after NonceDirection.server_to_client) client' reply status-IsSendable
          x.receiver_tracks x.sender_tracks (unfold send_as in written) in
      let came : IsOneFrame reply = (back.raw, back.raw_fits, back.raw_bytes) in
      record {
        raw = x.raw;
        fits = x.raw_fits;
        same = x.raw_bytes;
        session' = advance x.after NonceDirection.server_to_client;
        reply = reply;
        served =
            serve_secret cipher c x.raw x.after (advance x.after NonceDirection.server_to_client)
              (decrypted (some 0x79) (some ctx) payload (6 + length payload)) m
              encrypted_channel_established 0x7A sim_context payload_7a reply
              (rw x.raw_bytes x.decodes) e
              (encrypt-Answers (record (c.local.stateful) { session = x.after }) m st i d) written;
        read_back = read;
        came = came;
      }

-- What the client of the handshake sends.
abbrev pub handshake_requests : ℕ → ℕ → ℕ → List ℕ → List ℕ → List ℕ → List Message
handshake_requests ctx1 ctx2 ctx3 p1 p2 p3 =
    request false 0x1E ctx1 p1 ∷ request false 0x19 ctx2 p2 ∷ request true 0x79 ctx3 p3 ∷ []

-- The first two replies.
abbrev pub service_reply : List ℕ
service_reply = clear_wire 0x1F sim_context payload_1f

abbrev pub login_reply : List ℕ
login_reply = clear_wire 0x1A sim_context payload_1a

-- A connection that has gone through the handshake with a client.
pub record Secure (cipher : AesGcm) (c : Connection Script) (client' : BapSession)
    (frames : List (List ℕ)) : Type 0 where
  pub rs : List RawBapFrame
  pub after : Connection Script
  pub pushed : push c.decoder (concat frames) ≡ (c.decoder, ok rs)
  pub served : serve_frames cipher c rs ≡ goes_on after
  pub state : after.local.stateful.protocol_state ≡ encrypted_channel_established
  pub reply : List ℕ
  pub sent : after.stream.sent ≡ c.stream.sent ++ (service_reply ∷ login_reply ∷ reply ∷ [])
  pub read_back : decode_frame cipher client' NonceDirection.server_to_client reply ≡ (
    advance client' NonceDirection.server_to_client,
    ok (decrypted (some 0x7A) (some sim_context) payload_7a (6 + length payload_7a)),
  )
  pub came : IsOneFrame reply

three_frames :
    (cipher : AesGcm) (c c1 c2 c3 : Connection Script) (r1 r2 r3 : RawBapFrame)
    → serve_frame cipher c r1 ≡ goes_on c1
    → serve_frame cipher c1 r2 ≡ goes_on c2
    → serve_frame cipher c2 r3 ≡ goes_on c3
    → serve_frames cipher c (r1 ∷ r2 ∷ r3 ∷ []) ≡ goes_on c3
unfolding serve_frames
three_frames cipher c c1 c2 c3 r1 r2 r3 a b d = ground arith

three_pushed :
    (d : BapStreamDecoder) (r1 r2 r3 : RawBapFrame) (b1 b2 b3 : List ℕ)
    → d.buf ≡ []
    → All (Fits d.max_body_len) (r1 ∷ r2 ∷ r3 ∷ [])
    → r1.raw_bytes ≡ b1
    → r2.raw_bytes ≡ b2
    → r3.raw_bytes ≡ b3
    → push d (concat (b1 ∷ b2 ∷ b3 ∷ [])) ≡ (d, ok (r1 ∷ r2 ∷ r3 ∷ []))
unfolding raws carve
three_pushed d r1 r2 r3 b1 b2 b3 empty fits e1 e2 e3 = ground (
  arith,
  append-nil (b1 ++ (b2 ++ (b3 ++ []))),
  push-raws d (r1 ∷ r2 ∷ r3 ∷ []) [] empty fits refl,
)

sent_three :
    (xs a b c : List (List ℕ)) (x y z : List ℕ)
    → a ≡ xs ++ (x ∷ [])
    → b ≡ a ++ (y ∷ [])
    → c ≡ b ++ (z ∷ [])
    → c ≡ xs ++ (x ∷ y ∷ z ∷ [])
sent_three xs a b c x y z e f g =
    ground (arith, append_assoc xs (x ∷ []) (y ∷ []), append_assoc xs (x ∷ y ∷ []) (z ∷ []))

no_more :
    (cipher : AesGcm) (s s' : BapSession) (frames : List (List ℕ))
    → send_all cipher s [] ≡ some (s', frames)
    → (s ≡ s') × (frames ≡ [])
unfolding send_all
no_more cipher s s' frames h = (ground arith, ground arith)

module _ (cipher : AesGcm) (laws : IsAead cipher) (key n : List ℕ) where
  pub secured :
      (t : Drawn) (c : Connection Script) (client client' : BapSession) (ctx1 ctx2 ctx3 : ℕ)
      (p1 p2 p3 sealed : List ℕ) (frames : List (List ℕ))
      → Tracks key n t client.crypto
      → Tracks key n t c.local.stateful.session.crypto
      → c.local.stateful.protocol_state ≡ waiting_for_service_handshake
      → c.decoder.buf ≡ []
      → All (IsSendable c.decoder.max_body_len) (handshake_requests ctx1 ctx2 ctx3 p1 p2 p3)
      → send_all cipher client (handshake_requests ctx1 ctx2 ctx3 p1 p2 p3) ≡ some (client', frames)
      → length key ≡ key_len
      → IsNonce n
      → cipher.seal key
          (nonce_at n (count_one t NonceDirection.client_to_server) NonceDirection.server_to_client)
          []
          (plaintext_of 0x7A sim_context payload_7a)
        ≡ some sealed
      → Secure cipher c client' frames
  secured t c client client' ctx1 ctx2 ctx3 p1 p2 p3 sealed frames hs hr st empty
        (s1, (s2, (s3, _))) sent hk hn seals =
      let limit = c.decoder.max_body_len in
      let (u1, b1, f1, sent1, more1, split1) =
        send_all_inv cipher client client' (request false 0x1E ctx1 p1) _ frames sent in
      let (u2, b2, f2, sent2, more2, split2) =
        send_all_inv cipher u1 client' (request false 0x19 ctx2 p2) _ f1 more1 in
      let (u3, b3, f3, sent3, more3, split3) =
        send_all_inv cipher u2 client' (request true 0x79 ctx3 p3) _ f2 more2 in
      let (last, none_left) = no_more cipher u3 client' f3 more3 in
      let q1 =
        clear_request cipher laws key n limit t c client u1 b1 0x1E ctx1 p1
          waiting_for_service_handshake service_handshake_complete 0x1F payload_1f hs hr st s1 sent1
          (omega arith) (unfold payload_1f in omega arith) service-Answers in
      let c1 = q1.served.after in
      let q2 =
        clear_request cipher laws key n limit t c1 u1 u2 b2 0x19 ctx2 p2 service_handshake_complete
          session_established 0x1A payload_1a q1.sender
          (subst (λ (s : BapSession). Tracks key n t s.crypto) (sym q1.served.session) q1.receiver)
          q1.served.state s2 sent2 (omega arith) (unfold payload_1a in omega arith) login-Answers in
      let c2 = q2.served.after in
      let q3 =
        secret_request cipher laws key n limit t c2 u2 u3 b3 ctx3 p3 sealed q2.sender
          (subst (λ (s : BapSession). Tracks key n t s.crypto) (sym q2.served.session) q2.receiver)
          q2.served.state s3 sent3 hk hn seals in
      let c3 = q3.served.after in
      let rs = q1.raw ∷ q2.raw ∷ q3.raw ∷ [] in
      let whole : frames ≡ b1 ∷ b2 ∷ b3 ∷ [] = ground arith in
      record {
        rs = rs;
        after = c3;
        pushed =
            ap (λ x. push c.decoder (concat x)) whole
            ∙ three_pushed c.decoder q1.raw q2.raw q3.raw b1 b2 b3 empty
                (q1.fits, (q2.fits, (q3.fits, tt))) q1.same q2.same q3.same;
        served =
            three_frames cipher c c1 c2 c3 q1.raw q2.raw q3.raw q1.served.turns q2.served.turns
              q3.served.turns;
        state = q3.served.state;
        reply = q3.reply;
        sent =
            sent_three c.stream.sent c1.stream.sent c2.stream.sent c3.stream.sent service_reply
              login_reply q3.reply q1.served.sent q2.served.sent q3.served.sent;
        came = q3.came;
        read_back =
            subst
              (λ (s : BapSession).
                decode_frame cipher s NonceDirection.server_to_client q3.reply ≡ (
                  advance s NonceDirection.server_to_client,
                  ok (decrypted (some 0x7A) (some sim_context) payload_7a (6 + length payload_7a)),
                ))
              last q3.read_back;
      }
