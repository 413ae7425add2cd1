-- ===== src/ReplayClient/Together.antt =====
-- The client of the simulated handshake and the local server, each on the bytes that the other wrote.
use destiny1_pc_project.Prelude.{
  ℕ, suc, ◌+◌, ◌<◌, ◌≡◌, refl, sym, ap, ◌∙◌, subst, true, false, some, List, [], ◌∷◌, arith, length,
  concat, All, ok, returns, IsU16,
}
use destiny1_pc_project.Aead.{AesGcm, IsAead}
use destiny1_pc_project.Nonce.{NonceDirection}
use destiny1_pc_project.Nonce.Value.{IsNonce}
use destiny1_pc_project.Context.Track.{start, Tracks, count_one, nonce_at}
use destiny1_pc_project.Session.{
  BapSession, clear, decrypted, encode_clear, encode_encrypted, plaintext_of,
}
use destiny1_pc_project.Session.Exchange.{advance, clear_wire, decode-encode_clear}
use destiny1_pc_project.Policy.{sim_context, payload_1f, payload_1a, payload_7a}
use destiny1_pc_project.Stream.{default_max_body_len}
use destiny1_pc_project.LocalProtocol.{sim_start, sim_ready, payload_1e, payload_19, payload_79}
use destiny1_pc_project.Pipeline.Replay.{
  Message, IsSendable, send_as, send_all, send_all_inv, clear_raw_frame,
}
use destiny1_pc_project.Server.{Connection, ends, handle_connection}
use destiny1_pc_project.Server.Turns.{Script, script_socket}
use destiny1_pc_project.Server.Chunks.{IsChunk}
use destiny1_pc_project.Server.Handshake.{
  request, IsOneFrame, handshake_requests, service_reply, login_reply,
}
use destiny1_pc_project.Server.Closing.{script, handle_connection-handshake}
use destiny1_pc_project.Session.Independent.{sent_one}
use destiny1_pc_project.ReplayClient.Reads.{client_in, fresh}
use destiny1_pc_project.ReplayClient.Replies.{replies-Holds, read_early}
use destiny1_pc_project.ReplayClient.{ran, run_handshake, expect_clear, expect_decrypted}
use destiny1_pc_project.ReplayClient.Exchange.{client_at, run_handshake_lem}

-- The requests of `run_handshake`.
abbrev pub client_requests : List Message
client_requests =
    handshake_requests sim_context sim_context sim_context payload_1e payload_19 payload_79

client_requests-IsSendable : All (IsSendable default_max_body_len) client_requests
unfolding payload_1e payload_19 payload_79
client_requests-IsSendable = (
  record {
    id_u16 = omega arith;
    context_u32 = omega arith;
    within = omega arith;
    limit_u32 = omega arith;
  },
  (
    record {
      id_u16 = omega arith;
      context_u32 = omega arith;
      within = omega arith;
      limit_u32 = omega arith;
    },
    (
      record {
        id_u16 = omega arith;
        context_u32 = omega arith;
        within = omega arith;
        limit_u32 = omega arith;
      },
      tt,
    ),
  ),
)

-- A clear message within the decoder's limit is one frame.
clear_wire-IsOneFrame :
    (m : Message)
    → IsSendable default_max_body_len m
    → IsOneFrame (clear_wire m.id m.context m.payload)
clear_wire-IsOneFrame m h = clear_raw_frame m default_max_body_len h

reply-IsSendable :
    (id : ℕ) (payload : List ℕ)
    → IsU16 id
    → length payload < 16
    → IsSendable default_max_body_len (request false id sim_context payload)
reply-IsSendable id payload h n = record {
  id_u16 = h;
  context_u32 = omega arith;
  within = omega arith;
  limit_u32 = omega arith;
}

-- What the client wrote, request by request.
module _ (cipher : AesGcm) where
  requests_inv :
      (b b' : BapSession) (frames : List (List ℕ))
      → send_all cipher b client_requests ≡ some (b', frames)
      → (f1 : List ℕ) × (f2 : List ℕ) × (f3 : List ℕ) × (encode_clear 0x1E sim_context payload_1e
          ≡ returns f1)
        × (encode_clear 0x19 sim_context payload_19 ≡ returns f2)
        × (encode_encrypted cipher b NonceDirection.client_to_server 0x79 sim_context payload_79
            ≡ returns (b', ok f3))
        × (frames ≡ f1 ∷ f2 ∷ f3 ∷ [])
  unfolding send_all send_as payload_1e payload_19
  requests_inv b b' frames sent =
      let e1 =
        decode-encode_clear cipher b NonceDirection.client_to_server 0x1E sim_context payload_1e
          (omega arith) (omega arith) (omega arith) in
      let e2 =
        decode-encode_clear cipher b NonceDirection.client_to_server 0x19 sim_context payload_19
          (omega arith) (omega arith) (omega arith) in
      let (u1, b1, g1, sent1, more1, split1) =
        send_all_inv cipher b b' (request false 0x1E sim_context payload_1e)
          (request false 0x19 sim_context payload_19
            ∷ request true 0x79 sim_context payload_79
            ∷ [])
          frames sent in
      let (u2, b2, g2, sent2, more2, split2) =
        send_all_inv cipher u1 b' (request false 0x19 sim_context payload_19)
          (request true 0x79 sim_context payload_79 ∷ []) g1 more1 in
      let (u3, b3, g3, sent3, more3, split3) =
        send_all_inv cipher u2 b' (request true 0x79 sim_context payload_79) [] g2 more2 in
      let same : b ≡ u2 = ground (arith, e1.0, e2.0) in
      let last : (u3 ≡ b') × (g3 ≡ []) = (ground arith, ground arith) in
      (
        b1,
        b2,
        b3,
        ground (arith, e1.0),
        ground (arith, e2.0),
        subst
            (λ x.
              encode_encrypted cipher x NonceDirection.client_to_server 0x79 sim_context payload_79
              ≡ returns (b', ok b3))
            (sym same)
            (subst
              (λ x.
                encode_encrypted cipher u2 NonceDirection.client_to_server 0x79 sim_context
                  payload_79
                ≡ returns (x, ok b3))
              last.0 sent3),
        ground arith,
      )

-- The client of the simulated handshake and a server with the same key and session nonce, the cipher keeping its
-- laws and sealing the request and the reply. The server reads the client's requests in any chunks, and `cut` is
-- whatever cuts the stream that the server wrote into chunks for the client. The server ends
-- without an error, and the client, reading that stream in those chunks, ends ready, with nothing left over and having written
-- just those requests. Both have fuel for their reads.
pub run_handshake-handle_connection :
    (cipher : AesGcm) (fuel fuel' id : ℕ) (key nonce : List ℕ) (client client' : BapSession)
    (sealed : List ℕ) (frames chunks : List (List ℕ)) (cut : List ℕ → List (List ℕ))
    → IsAead cipher
    → Tracks key nonce start client.crypto
    → length key ≡ 16
    → IsNonce nonce
    → send_all cipher client client_requests ≡ some (client', frames)
    → All IsChunk chunks
    → concat chunks ≡ concat frames
    → ((stream : List ℕ) → concat (cut stream) ≡ stream)
    → ((stream : List ℕ) → All IsChunk (cut stream))
    → cipher.seal key
        (nonce_at nonce
          (count_one start NonceDirection.client_to_server)
          NonceDirection.server_to_client)
        []
        (plaintext_of 0x7A sim_context payload_7a)
      ≡ some sealed
    → (c : Connection Script) × (handle_connection cipher
          (length chunks + suc fuel)
          id
          (script chunks)
          key
          nonce
        ≡ ok (ends c (ok tt)))
      × (run_handshake cipher
            (length (cut (concat c.stream.sent)) + suc fuel')
            (client_at (script (cut (concat c.stream.sent))) client sim_start)
          ≡ ran
              (client_at
                (record { incoming = []; sent = frames; is_shut = false })
                (advance client' NonceDirection.server_to_client)
                sim_ready)
              (ok tt))
run_handshake-handle_connection cipher fuel fuel' id key nonce client client' sealed frames chunks
      cut laws hs hk hn sent ns same whole_again no_empty seals =
    let (c, reply, serves, writes, reads, closed, shut, one) =
      handle_connection-handshake cipher fuel id key nonce client client' sim_context sim_context
        sim_context payload_1e payload_19 payload_79 sealed frames chunks laws hs hk hn
        client_requests-IsSendable sent ns same seals in
    let (f1, f2, f3, e1, e2, e3, whole) = requests_inv cipher client client' frames sent in
    let o1 =
      clear_wire-IsOneFrame (request false 0x1F sim_context payload_1f)
        (unfold payload_1f in reply-IsSendable 0x1F payload_1f (omega arith) (omega arith)) in
    let o2 =
      clear_wire-IsOneFrame (request false 0x1A sim_context payload_1a)
        (unfold payload_1a in reply-IsSendable 0x1A payload_1a (omega arith) (omega arith)) in
    let d1 =
      decode-encode_clear cipher client NonceDirection.server_to_client 0x1F sim_context payload_1f
        (omega arith) (omega arith) (unfold payload_1f in omega arith) in
    let d2 =
      decode-encode_clear cipher client NonceDirection.server_to_client 0x1A sim_context payload_1a
        (omega arith) (omega arith) (unfold payload_1a in omega arith) in
    let last = decrypted (some 0x7A) (some sim_context) payload_7a 12 in
    let (m, early, final) =
      read_early cipher client client' 0x79 sim_context payload_79 f3 reply last e3 reads in
    let q = cut (concat c.stream.sent) in
    let holds =
      replies-Holds cipher client m service_reply login_reply reply q
        (clear 0x1F sim_context payload_1f) (clear 0x1A sim_context payload_1a) last (o1, o2, one)
        (no_empty (concat c.stream.sent)) (whole_again (concat c.stream.sent) ∙ ap concat writes)
        d1.1 d2.1 early in
    let ran_through =
      run_handshake_lem cipher (length q + suc fuel') q client m client' f1 f2 f3
        (clear 0x1F sim_context payload_1f) (clear 0x1A sim_context payload_1a) last holds
        (omega arith) e1 e2 e3 (unfold expect_clear in refl) (unfold expect_clear in refl)
        (unfold expect_decrypted in refl) in
    (
      c,
      serves,
      ran_through
          ∙ ap (λ fs. ran (client_in [] fs fresh (sent_one m) [] sim_ready) (ok tt)) (sym whole)
          ∙ ap (λ s. ran (client_in [] frames fresh s [] sim_ready) (ok tt)) final,
    )
