-- ===== src/ReplayClient/Replies.antt =====
-- Three replies of a server, in any chunks, as what the client of network/src/replay_client.rs waits for.
use destiny1_pc_project.Prelude.{
  ℕ, ◌≡◌, refl, sym, ap, ◌∙◌, List, [], ◌∷◌, ◌++◌, append-nil, arith, concat, All, ok, returns,
}
use destiny1_pc_project.Aead.{AesGcm}
use destiny1_pc_project.Nonce.{NonceDirection}
use destiny1_pc_project.Session.{BapSession, DecodedBapFrame, decode_frame, encode_encrypted}
use destiny1_pc_project.Session.Exchange.{advance}
use destiny1_pc_project.Session.Independent.{
  sent_one, encode_encrypted-alike, decode_frame-sent_one,
}
use destiny1_pc_project.Stream.{RawBapFrame, default_max_body_len, carve, push}
use destiny1_pc_project.Stream.Exact.{Fits, raws, push-raws}
use destiny1_pc_project.Server.Chunks.{IsChunk, arrives}
use destiny1_pc_project.Server.Handshake.{IsOneFrame}
use destiny1_pc_project.ReplayClient.{decode_all, push_reversed}
use destiny1_pc_project.ReplayClient.Reads.{fresh, Holds}

-- What the client waits for when the three replies come, in any chunks.
module _ (cipher : AesGcm) where
  replies_pushed :
      (r1 r2 r3 : RawBapFrame) (b1 b2 b3 : List ℕ)
      → Fits default_max_body_len r1 × Fits default_max_body_len r2 × Fits default_max_body_len r3
      → (r1.raw_bytes ≡ b1) × (r2.raw_bytes ≡ b2) × (r3.raw_bytes ≡ b3)
      → push fresh (concat (b1 ∷ b2 ∷ b3 ∷ [])) ≡ (fresh, ok (r1 ∷ r2 ∷ r3 ∷ []))
  unfolding raws carve
  replies_pushed r1 r2 r3 b1 b2 b3 (h1, h2, h3) (e1, e2, e3) =
      let whole = push-raws fresh (r1 ∷ r2 ∷ r3 ∷ []) [] refl (h1, (h2, (h3, tt))) refl in
      let same : raws (r1 ∷ r2 ∷ r3 ∷ []) ++ [] ≡ concat (b1 ∷ b2 ∷ b3 ∷ []) =
        append-nil (raws (r1 ∷ r2 ∷ r3 ∷ []))
        ∙ ap (λ x. x ++ (r2.raw_bytes ++ (r3.raw_bytes ++ []))) e1
        ∙ ap (λ x. b1 ++ (x ++ (r3.raw_bytes ++ []))) e2
        ∙ ap (λ x. b1 ++ (b2 ++ (x ++ []))) e3 in
      ap (push fresh) (sym same) ∙ whole

  replies_decoded :
      (b b' : BapSession) (r1 r2 r3 : RawBapFrame) (b1 b2 b3 : List ℕ) (g1 g2 g3 : DecodedBapFrame)
      → (r1.raw_bytes ≡ b1) × (r2.raw_bytes ≡ b2) × (r3.raw_bytes ≡ b3)
      → decode_frame cipher b NonceDirection.server_to_client b1 ≡ (b, ok g1)
      → decode_frame cipher b NonceDirection.server_to_client b2 ≡ (b, ok g2)
      → decode_frame cipher b NonceDirection.server_to_client b3 ≡ (b', ok g3)
      → decode_all cipher b (r1 ∷ r2 ∷ r3 ∷ []) ≡ (b', ok (g1 ∷ g2 ∷ g3 ∷ []))
  unfolding decode_all
  replies_decoded b b' r1 r2 r3 b1 b2 b3 g1 g2 g3 (e1, e2, e3) d1 d2 d3 =
      let c1 : decode_frame cipher b NonceDirection.server_to_client r1.raw_bytes ≡ (b, ok g1) =
        ap (decode_frame cipher b NonceDirection.server_to_client) e1 ∙ d1 in
      let c2 : decode_frame cipher b NonceDirection.server_to_client r2.raw_bytes ≡ (b, ok g2) =
        ap (decode_frame cipher b NonceDirection.server_to_client) e2 ∙ d2 in
      let c3 : decode_frame cipher b NonceDirection.server_to_client r3.raw_bytes ≡ (b', ok g3) =
        ap (decode_frame cipher b NonceDirection.server_to_client) e3 ∙ d3 in
      ground (arith, c1, c2, c3)

  pub replies-Holds :
      (b b' : BapSession) (b1 b2 b3 : List ℕ) (chunks : List (List ℕ)) (g1 g2 g3 : DecodedBapFrame)
      → IsOneFrame b1 × IsOneFrame b2 × IsOneFrame b3
      → All IsChunk chunks
      → concat chunks ≡ concat (b1 ∷ b2 ∷ b3 ∷ [])
      → decode_frame cipher b NonceDirection.server_to_client b1 ≡ (b, ok g1)
      → decode_frame cipher b NonceDirection.server_to_client b2 ≡ (b, ok g2)
      → decode_frame cipher b NonceDirection.server_to_client b3 ≡ (b', ok g3)
      → Holds cipher chunks fresh b b' [] (g1 ∷ g2 ∷ g3 ∷ [])
  unfolding push_reversed carve
  replies-Holds b b' b1 b2 b3 chunks g1 g2 g3 ((r1, h1, e1), (r2, h2, e2), (r3, h3, e3)) ns same d1
        d2 d3 =
      record {
        raw_frames = r1 ∷ r2 ∷ r3 ∷ [];
        kept = [];
        to_come = g1 ∷ g2 ∷ g3 ∷ [];
        chunks = ns;
        comes =
            arrives fresh chunks fresh (r1 ∷ r2 ∷ r3 ∷ []) refl
              (ap (push fresh) same ∙ replies_pushed r1 r2 r3 b1 b2 b3 (h1, h2, h3) (e1, e2, e3));
        decodes = replies_decoded b b' r1 r2 r3 b1 b2 b3 g1 g2 g3 (e1, e2, e3) d1 d2 d3;
        is_pending = refl;
        split = refl;
      }

  -- The last reply, read before the last request is sent.
  pub read_early :
      (b b' : BapSession) (id ctx : ℕ) (payload bytes reply : List ℕ) (g : DecodedBapFrame)
      → encode_encrypted cipher b NonceDirection.client_to_server id ctx payload
        ≡ returns (b', ok bytes)
      → decode_frame cipher b' NonceDirection.server_to_client reply
        ≡ (advance b' NonceDirection.server_to_client, ok g)
      → (m : BapSession) × (decode_frame cipher b NonceDirection.server_to_client reply ≡ (m, ok g))
        × (sent_one m ≡ advance b' NonceDirection.server_to_client)
  read_early b b' id ctx payload bytes reply g e d =
      let sends = encode_encrypted-alike cipher b b b' id ctx payload bytes refl e in
      let same : b' ≡ sent_one b = ground (arith, sends, e) in
      let early = decode_frame-sent_one cipher b reply in
      let later =
        ap (λ x. decode_frame cipher x NonceDirection.server_to_client reply) (sym same) ∙ d in
      (
        (decode_frame cipher b NonceDirection.server_to_client reply).0,
        ground (arith, early, later),
        ground (arith, early, later),
      )
