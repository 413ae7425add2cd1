-- ===== src/ReplayClient/Exchange.antt =====
-- The client of the simulated handshake against the replies of a server.
use destiny1_pc_project.Prelude.{
  ℕ, ◌<◌, ◌≡◌, sym, ap, ◌∙◌, some, List, [], ◌∷◌, ◌++◌, arith, length, Result, ok, returns,
}
use destiny1_pc_project.Aead.{AesGcm}
use destiny1_pc_project.Nonce.{NonceDirection}
use destiny1_pc_project.Session.{BapSession, DecodedBapFrame, encode_clear, encode_encrypted}
use destiny1_pc_project.Session.Independent.{sent_one, encode_encrypted-alike, sender_view}
use destiny1_pc_project.Policy.{sim_context}
use destiny1_pc_project.Stream.{BapStreamDecoder}
use destiny1_pc_project.LocalProtocol.{
  SimState, sim_start, sim_1e_sent, sim_1f_sent, sim_19_sent, sim_1a_sent, sim_79_sent, sim_7a_sent,
  sim_ready, payload_1e, payload_19, payload_79,
}
use destiny1_pc_project.Server.Turns.{Script, script_socket}
use destiny1_pc_project.ReplayClient.{
  BapReplayClient, ReplayClientError, Ran, ran, ◌and_then◌, expect_clear, expect_decrypted, check,
  enter, send_raw, send_clear, send_sealed, send_encrypted, read_frame, clear_step, run_handshake,
}
use destiny1_pc_project.ReplayClient.Reads.{
  client_in, fresh, Holds, read_frame-Next, Holds-sent_one, Holds-sender_view, Holds-nil,
}

-- A connected client with an empty buffer and nothing pending.
abbrev pub client_at : Script → BapSession → SimState → BapReplayClient Script
client_at s b st = record {
  stream = some s;
  session = b;
  decoder = fresh;
  sim_state = st;
  pending = [];
}

module _ (cipher : AesGcm) where
  sent_clear :
      (q sent : List (List ℕ)) (d : BapStreamDecoder) (b : BapSession)
      (pending : List DecodedBapFrame) (st : SimState) (id ctx : ℕ) (payload bytes : List ℕ)
      → encode_clear id ctx payload ≡ returns bytes
      → send_clear (client_in q sent d b pending st) id ctx payload
        ≡ ran (client_in q (sent ++ (bytes ∷ [])) d b pending st) (ok tt)
  unfolding send_clear send_raw
  sent_clear q sent d b pending st id ctx payload bytes e = ground (arith, e)

  sent_secret :
      (q sent : List (List ℕ)) (d : BapStreamDecoder) (b b' : BapSession)
      (pending : List DecodedBapFrame) (st : SimState) (id ctx : ℕ) (payload bytes : List ℕ)
      → encode_encrypted cipher b NonceDirection.client_to_server id ctx payload
        ≡ returns (b', ok bytes)
      → send_encrypted cipher (client_in q sent d b pending st) id ctx payload
        ≡ ran (client_in q (sent ++ (bytes ∷ [])) d b' pending st) (ok tt)
  unfolding send_encrypted send_sealed send_raw
  sent_secret q sent d b b' pending st id ctx payload bytes e =
      ap (send_sealed (client_in q sent d b pending st)) e

  -- A client that waits for the frames `gs`: its chunks, decoder, session and pending frames.
  record Waiting (b' : BapSession) (gs : List DecodedBapFrame) (most : ℕ) : Type 0 where
    chunks : List (List ℕ)
    decoder : BapStreamDecoder
    session : BapSession
    kept : List DecodedBapFrame
    holds : Holds cipher chunks decoder session b' kept gs
    no_more : length chunks < most

  abbrev at_rest :
      {b' : BapSession} {gs : List DecodedBapFrame} {most : ℕ}
      → Waiting b' gs most
      → List (List ℕ)
      → SimState
      → BapReplayClient Script
  at_rest w sent st = client_in w.chunks sent w.decoder w.session w.kept st

  -- A request in the clear and its reply.
  clear_step_lem :
      (fuel : ℕ) (sent : List (List ℕ)) (b' : BapSession) (st asked answered : SimState)
      (id rid : ℕ) (payload bytes : List ℕ) (g : DecodedBapFrame) (gs : List DecodedBapFrame)
      (w : Waiting b' (g ∷ gs) fuel)
      → encode_clear id sim_context payload ≡ returns bytes
      → expect_clear g rid ≡ ok tt
      → (w' : Waiting b' gs fuel) × (clear_step cipher fuel
            (at_rest w sent st)
            id
            payload
            asked
            rid
            answered
          ≡ ran (at_rest w' (sent ++ (bytes ∷ [])) answered) (ok tt))
  unfolding clear_step enter check
  clear_step_lem fuel sent b' st asked answered id rid payload bytes g gs w e x =
      let next =
        read_frame-Next cipher fuel w.chunks (sent ++ (bytes ∷ [])) w.decoder w.session b' w.kept
          asked g gs w.holds w.no_more in
      let last = λ (c : BapReplayClient Script) (u : Unit {0}). ran (enter c answered) (ok tt) in
      let test =
        λ (c : BapReplayClient Script) (f : DecodedBapFrame). check c (expect_clear f rid) in
      (
        record {
          chunks = next.chunks;
          decoder = next.decoder;
          session = next.session;
          kept = next.kept;
          holds = next.holds;
          no_more = omega (arith, next.no_more, w.no_more);
        },
        ap
              (λ (r : Ran Script (Unit {0})).
                r
                and_then (λ c u. read_frame cipher fuel (enter c asked))
                and_then test
                and_then last)
              (sent_clear w.chunks sent w.decoder w.session w.kept st id sim_context payload bytes
                e)
            ∙ ap (λ (r : Ran Script DecodedBapFrame). r and_then test and_then last) next.reads
            ∙ ap
                (λ (r : Result ReplayClientError (Unit {0})).
                  check
                    (client_in next.chunks (sent ++ (bytes ∷ [])) next.decoder next.session
                      next.kept asked)
                    r
                  and_then last)
                x,
      )

  -- The encrypted request and the last reply.
  secret_step_lem :
      (fuel : ℕ) (sent : List (List ℕ)) (b' first first' : BapSession) (bytes : List ℕ)
      (g : DecodedBapFrame) (w : Waiting b' (g ∷ []) fuel)
      → sender_view first ≡ sender_view b'
      → encode_encrypted cipher first NonceDirection.client_to_server 0x79 sim_context payload_79
        ≡ returns (first', ok bytes)
      → expect_decrypted g 0x7A ≡ ok tt
      → (send_encrypted cipher (at_rest w sent sim_1a_sent) 0x79 sim_context payload_79
          and_then (λ c u. read_frame cipher fuel (enter c sim_79_sent))
          and_then (λ c f. check c (expect_decrypted f 0x7A))
          and_then (λ c u. ran (enter (enter c sim_7a_sent) sim_ready) (ok tt)))
        ≡ ran (client_in [] (sent ++ (bytes ∷ [])) fresh (sent_one b') [] sim_ready) (ok tt)
  unfolding enter check
  secret_step_lem fuel sent b' first first' bytes g w alike e x =
      let view = Holds-sender_view cipher w.chunks w.decoder w.session b' w.kept (g ∷ []) w.holds in
      let sends =
        encode_encrypted-alike cipher first w.session first' 0x79 sim_context payload_79 bytes
          (view ∙ sym alike) e in
      let waits = Holds-sent_one cipher w.chunks w.decoder w.session b' w.kept (g ∷ []) w.holds in
      let all_sent = sent ++ (bytes ∷ []) in
      let next =
        read_frame-Next cipher fuel w.chunks all_sent w.decoder (sent_one w.session) (sent_one b')
          w.kept sim_79_sent g [] waits w.no_more in
      let (c, d, s, p) =
        Holds-nil cipher next.chunks next.decoder next.session (sent_one b') next.kept next.holds in
      let last = λ (c : BapReplayClient Script) (u : Unit {0}).
        ran (enter (enter c sim_7a_sent) sim_ready) (ok tt) in
      let test =
        λ (c : BapReplayClient Script) (f : DecodedBapFrame). check c (expect_decrypted f 0x7A) in
      ap
        (λ (r : Ran Script (Unit {0})).
          r
          and_then (λ c u. read_frame cipher fuel (enter c sim_79_sent))
          and_then test
          and_then last)
        (sent_secret w.chunks sent w.decoder w.session (sent_one w.session) w.kept sim_1a_sent 0x79
          sim_context payload_79 bytes sends)
      ∙ ap (λ (r : Ran Script DecodedBapFrame). r and_then test and_then last) next.reads
      ∙ ap
          (λ (r : Result ReplayClientError (Unit {0})).
            check (client_in next.chunks all_sent next.decoder next.session next.kept sim_79_sent) r
            and_then last)
          x
      ∙ ap (λ q. ran (client_in q all_sent next.decoder next.session next.kept sim_ready) (ok tt)) c
      ∙ ap (λ m. ran (client_in [] all_sent m next.session next.kept sim_ready) (ok tt)) d
      ∙ ap (λ b. ran (client_in [] all_sent fresh b next.kept sim_ready) (ok tt)) s
      ∙ ap (λ ps. ran (client_in [] all_sent fresh (sent_one b') ps sim_ready) (ok tt)) p

  -- Three replies, in whatever chunks they come, take the client through the handshake.
  pub run_handshake_lem :
      (fuel : ℕ) (q : List (List ℕ)) (b b' last_session : BapSession) (f1 f2 f3 : List ℕ)
      (g1 g2 g3 : DecodedBapFrame)
      → Holds cipher q fresh b b' [] (g1 ∷ g2 ∷ g3 ∷ [])
      → length q < fuel
      → encode_clear 0x1E sim_context payload_1e ≡ returns f1
      → encode_clear 0x19 sim_context payload_19 ≡ returns f2
      → encode_encrypted cipher b NonceDirection.client_to_server 0x79 sim_context payload_79
        ≡ returns (last_session, ok f3)
      → expect_clear g1 0x1F ≡ ok tt
      → expect_clear g2 0x1A ≡ ok tt
      → expect_decrypted g3 0x7A ≡ ok tt
      → run_handshake cipher fuel (client_in q [] fresh b [] sim_start)
        ≡ ran (client_in [] (f1 ∷ f2 ∷ f3 ∷ []) fresh (sent_one b') [] sim_ready) (ok tt)
  unfolding run_handshake
  run_handshake_lem fuel q b b' last_session f1 f2 f3 g1 g2 g3 h l e1 e2 e3 x1 x2 x3 =
      let w0 : Waiting b' (g1 ∷ g2 ∷ g3 ∷ []) fuel = record {
        chunks = q;
        decoder = fresh;
        session = b;
        kept = [];
        holds = h;
        no_more = l;
      } in
      let (w1, s1) =
        clear_step_lem fuel [] b' sim_start sim_1e_sent sim_1f_sent 0x1E 0x1F payload_1e f1 g1
          (g2 ∷ g3 ∷ []) w0 e1 x1 in
      let (w2, s2) =
        clear_step_lem fuel (f1 ∷ []) b' sim_1f_sent sim_19_sent sim_1a_sent 0x19 0x1A payload_19 f2
          g2 (g3 ∷ []) w1 e2 x2 in
      let view = Holds-sender_view cipher q fresh b b' [] (g1 ∷ g2 ∷ g3 ∷ []) h in
      let s3 = secret_step_lem fuel (f1 ∷ f2 ∷ []) b' b last_session f3 g3 w2 view e3 x3 in
      let ask = λ (c : BapReplayClient Script) (u : Unit {0}).
        send_encrypted cipher c 0x79 sim_context payload_79 in
      let hear = λ (c : BapReplayClient Script) (u : Unit {0}).
        read_frame cipher fuel (enter c sim_79_sent) in
      let test =
        λ (c : BapReplayClient Script) (g : DecodedBapFrame). check c (expect_decrypted g 0x7A) in
      let last = λ (c : BapReplayClient Script) (u : Unit {0}).
        ran (enter (enter c sim_7a_sent) sim_ready) (ok tt) in
      let second = λ (c : BapReplayClient Script) (u : Unit {0}).
        clear_step cipher fuel c 0x19 payload_19 sim_19_sent 0x1A sim_1a_sent in
      ap
        (λ (r : Ran Script (Unit {0})).
          r and_then second and_then ask and_then hear and_then test and_then last)
        s1
      ∙ ap (λ (r : Ran Script (Unit {0})). r and_then ask and_then hear and_then test and_then last)
          s2
      ∙ s3
