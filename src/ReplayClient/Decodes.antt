-- ===== src/ReplayClient/Decodes.antt =====
-- The decodes of the frames of one read, in network/src/replay_client.rs.
use destiny1_pc_project.Prelude.{◌≡◌, refl, List, [], ◌∷◌, ◌++◌, arith, ok, inl, inr, Result-cases}
use destiny1_pc_project.Aead.{AesGcm}
use destiny1_pc_project.Nonce.{NonceDirection}
use destiny1_pc_project.Session.{BapSession, DecodedBapFrame, decode_frame}
use destiny1_pc_project.Session.Independent.{
  sent_one, sender_view, decode_frame-sent_one, decode_frame-sender_view,
}
use destiny1_pc_project.Stream.{RawBapFrame}
use destiny1_pc_project.ReplayClient.{decode_all}

module _ (cipher : AesGcm) where
  -- A run of decodes that succeeds can be cut anywhere.
  pub decode_all-append :
      (b b' : BapSession) (xs ys : List RawBapFrame) (gs : List DecodedBapFrame)
      → decode_all cipher b (xs ++ ys) ≡ (b', ok gs)
      → (m : BapSession) × (us : List DecodedBapFrame) × (vs : List DecodedBapFrame) × (decode_all
            cipher b xs
          ≡ (m, ok us))
        × (decode_all cipher m ys ≡ (b', ok vs))
        × (gs ≡ us ++ vs)
  unfolding decode_all
  decode_all-append b b' [] ys gs h = (b, [], gs, refl, h, refl)
  decode_all-append b b' (x ∷ xs) ys gs h =
      let c = (decode_frame cipher b NonceDirection.server_to_client x.raw_bytes).0 in
      elim (Result-cases (decode_frame cipher b NonceDirection.server_to_client x.raw_bytes).1) [
        | inr (e, p) ↦ absurd (ground (arith, p, h))
        | inl (f, p) ↦ elim (Result-cases (decode_all cipher c (xs ++ ys)).1) [
          | inr (e, q) ↦ absurd (ground (arith, p, q, h))
          | inl (fs, q) ↦
              let (m, us, vs, d1, d2, split) =
                decode_all-append c b' xs ys fs (ground (arith, p, q, h)) in
              (m, f ∷ us, vs, ground (arith, p, d1), d2, ground (arith, p, q, h, split))
        ]
      ]

  pub decode_all-sent_one :
      (b : BapSession) (fs : List RawBapFrame)
      → decode_all cipher (sent_one b) fs
        ≡ (sent_one (decode_all cipher b fs).0, (decode_all cipher b fs).1)
  unfolding decode_all
  decode_all-sent_one b [] = refl
  decode_all-sent_one b (f ∷ fs) =
      let c = (decode_frame cipher b NonceDirection.server_to_client f.raw_bytes).0 in
      elim (Result-cases (decode_frame cipher b NonceDirection.server_to_client f.raw_bytes).1) [
        | inr (e, p) ↦ ground (arith, p, decode_frame-sent_one cipher b f.raw_bytes)
        | inl (g, p) ↦
            ground (arith, p, decode_frame-sent_one cipher b f.raw_bytes, decode_all-sent_one c fs)
      ]

  pub decode_all-sender_view :
      (b : BapSession) (fs : List RawBapFrame)
      → sender_view (decode_all cipher b fs).0 ≡ sender_view b
  unfolding decode_all
  decode_all-sender_view b [] = refl
  decode_all-sender_view b (f ∷ fs) =
      let c = (decode_frame cipher b NonceDirection.server_to_client f.raw_bytes).0 in
      let one = decode_frame-sender_view cipher b f.raw_bytes in
      elim (Result-cases (decode_frame cipher b NonceDirection.server_to_client f.raw_bytes).1) [
        | inr (e, p) ↦ ground (arith, p, one)
        | inl (g, p) ↦ ground (arith, p, decode_all-sender_view c fs, one)
      ]

  pub decode_all-nil :
      (b b' : BapSession) (fs : List RawBapFrame)
      → decode_all cipher b fs ≡ (b', ok [])
      → (fs ≡ []) × (b ≡ b')
  unfolding decode_all
  decode_all-nil b b' [] h = (refl, ground (arith, h))
  decode_all-nil b b' (f ∷ fs) h =
      let c = (decode_frame cipher b NonceDirection.server_to_client f.raw_bytes).0 in
      elim (Result-cases (decode_frame cipher b NonceDirection.server_to_client f.raw_bytes).1) [
        | inr (e, p) ↦ absurd (ground (arith, p, h))
        | inl (g, p) ↦ elim (Result-cases (decode_all cipher c fs).1) [
          | inr (e, q) ↦ absurd (ground (arith, p, q, h))
          | inl (gs, q) ↦ absurd (ground (arith, p, q, h))
        ]
      ]
