-- ===== src/GcmSequence/Opened.antt =====
-- What a verified report of network/src/gcm_sequence.rs says of the frames of the file.
use destiny1_pc_project.Prelude.{
  ℕ, ◌≡◌, refl, sym, ap, ◌∙◌, subst, Bool, true, false, ◌&&◌, Option, none, some, List, [], ◌∷◌,
  arith, codes, Result, ok, err, ◌>>=◌, ◌>>◌, not, text_eq, inl, inr, Result-cases, is_empty,
  fail_if, map_err,
}
use destiny1_pc_project.Nonce.{NonceDirection, client_to_server, server_to_client}
use destiny1_pc_project.Context
use destiny1_pc_project.Context.{SessionCryptoContext, next_nonce}
use destiny1_pc_project.Aead.{AesGcm, CryptoError, tag_len, key_len, nonce_len, decrypt_aes_gcm}
use destiny1_pc_project.GcmFields.{parse_direction, decode_hex, decode_sized, decode_aad}
use destiny1_pc_project.GcmSequence.{
  SequenceError, SequenceFile, SequenceFrameFile, SequenceFrameReport, SequenceReport, Progress,
  all_verified, opened, fresh_report, ordinal, add_frame, count, match_nonce, open_frame,
  verify_frame, verify_frames, started, reported, verify_file,
}

-- The three fields of a frame that are read in every case.
abbrev pub read_direction : SequenceFrameFile → Result SequenceError NonceDirection
read_direction fr = parse_direction SequenceError.bad_direction fr.direction

abbrev pub read_tag : SequenceFrameFile → Result SequenceError (List ℕ)
read_tag fr =
    decode_sized SequenceError.bad_hex SequenceError.empty_field SequenceError.bad_field_len
      (codes "tag_hex") tag_len fr.tag_hex

abbrev pub read_ciphertext : SequenceFrameFile → Result SequenceError (List ℕ)
read_ciphertext fr =
    decode_hex SequenceError.bad_hex SequenceError.empty_field (codes "ciphertext_hex")
      fr.ciphertext_hex

abbrev pub read_key : SequenceFile → Result SequenceError (List ℕ)
read_key file =
    decode_sized SequenceError.bad_hex SequenceError.empty_field SequenceError.bad_field_len
      (codes "session_key_hex") key_len file.session_key_hex

abbrev pub read_nonce : SequenceFile → Result SequenceError (List ℕ)
read_nonce file =
    decode_sized SequenceError.bad_hex SequenceError.empty_field SequenceError.bad_field_len
      (codes "session_nonce_hex") nonce_len file.session_nonce_hex

abbrev pub read_aad : SequenceFile → Result SequenceError (List ℕ)
read_aad file = decode_aad SequenceError.bad_hex SequenceError.empty_field file.aad_hex

-- Frame by frame, from a context on: the fields are read, and the ciphertext and the tag are opened under the next nonce
-- of the frame's direction.
abbrev pub AllOpened : AesGcm → List ℕ → SessionCryptoContext → List SequenceFrameFile → Type 0
AllOpened cipher aad ctx [] = Unit
AllOpened cipher aad ctx (fr ∷ rest) =
    (d : NonceDirection) × (tag : List ℕ) × (ciphertext : List ℕ) × (plaintext : List ℕ)
    × (read_direction fr ≡ ok d)
    × (read_tag fr ≡ ok tag)
    × (read_ciphertext fr ≡ ok ciphertext)
    × (decrypt_aes_gcm cipher (next_nonce ctx d).0.session_key (next_nonce ctx d).1 ciphertext tag
          aad
        ≡ ok plaintext)
    × AllOpened cipher aad (next_nonce ctx d).0 rest

opened_inv :
    (size : Option ℕ) (report : SequenceFrameReport) (r : Result CryptoError (List ℕ))
    (out : SequenceFrameReport × Bool)
    → opened size report r ≡ ok out
    → out.1 ≡ true
    → (plaintext : List ℕ) × (r ≡ ok plaintext)
unfolding opened
opened_inv size report (ok plaintext) out e h = (plaintext, refl)
opened_inv none report (err CryptoError.decrypt_failed) out e h = absurd (ground (arith, e, h))
opened_inv (some n) report (err CryptoError.decrypt_failed) out e h = absurd (ground (arith, e, h))
opened_inv size report (err CryptoError.encrypt_failed) out e h = absurd (ground (arith, e))
opened_inv size report (err (CryptoError.bad_key_length n)) out e h = absurd (ground (arith, e))
opened_inv size report (err (CryptoError.bad_nonce_length n)) out e h = absurd (ground (arith, e))
opened_inv size report (err (CryptoError.bad_tag_length n)) out e h = absurd (ground (arith, e))

and_inv : (a b : Bool) → (a && b) ≡ true → (a ≡ true) × (b ≡ true)
and_inv a b h = (ground (arith, h), ground (arith, h))

add_frame_lem :
    (p : Progress) (ctx : SessionCryptoContext) (d : NonceDirection) (m : Option Bool)
    (r : SequenceFrameReport × Bool)
    → ((add_frame p ctx d m r).gcm_ok_all ≡ (p.gcm_ok_all && r.1))
      × ((add_frame p ctx d m r).ctx ≡ ctx)
unfolding add_frame count
add_frame_lem p ctx client_to_server m r = (refl, refl)
add_frame_lem p ctx server_to_client m r = (refl, refl)

fail_if-inv :
    {A : Type 0} (b : Bool) (x : SequenceError) (r : Result SequenceError A) (a : A)
    → (fail_if b x >> r) ≡ ok a
    → r ≡ ok a
fail_if-inv true x r a e = absurd (ground (arith, e))
fail_if-inv false x r a e = e

-- `verify_file` behind its first test.
file_rest : (List ℕ → List ℕ → Bool) → AesGcm → SequenceFile → Result SequenceError SequenceReport
file_rest ct_eq cipher file = do
  key ← read_key file
  nonce ← read_nonce file
  aad ← read_aad file
  ctx ← map_err SequenceError.context (Context.new key nonce)
  p ← verify_frames ct_eq cipher aad file.frames (started ctx)
  ok (reported key nonce aad ctx.session_nonce p)

module _ (ct_eq : List ℕ → List ℕ → Bool) (cipher : AesGcm) (aad : List ℕ) where
  open_frame_inv :
      (fr : SequenceFrameFile) (d : NonceDirection) (tag ciphertext : List ℕ) (p q : Progress)
      → open_frame ct_eq cipher aad fr d tag ciphertext p ≡ ok q
      → q.gcm_ok_all ≡ true
      → (plaintext : List ℕ) × (decrypt_aes_gcm cipher
            (next_nonce p.ctx d).0.session_key
            (next_nonce p.ctx d).1
            ciphertext
            tag
            aad
          ≡ ok plaintext)
        × (q.ctx ≡ (next_nonce p.ctx d).0)
        × (p.gcm_ok_all ≡ true)
  unfolding open_frame
  open_frame_inv fr d tag ciphertext p q e h =
      let matched = match_nonce ct_eq (next_nonce p.ctx d).1 fr.expected_nonce_hex in
      let opens =
        decrypt_aes_gcm cipher (next_nonce p.ctx d).0.session_key (next_nonce p.ctx d).1 ciphertext
          tag aad in
      elim (Result-cases matched) [
        | inr (x, bad) ↦ absurd (ground (arith, bad, e))
        | inl (m, good) ↦
            let report = fresh_report aad fr d tag ciphertext (ordinal p d) m in
            elim (Result-cases (opened fr.expected_plaintext_len report opens)) [
              | inr (x, bad) ↦ absurd (ground (arith, good, bad, e))
              | inl (r, read) ↦
                  let same : q ≡ add_frame p (next_nonce p.ctx d).0 d m r =
                    ground (arith, good, read, e) in
                  let (gcm, moved) = add_frame_lem p (next_nonce p.ctx d).0 d m r in
                  let both =
                    and_inv p.gcm_ok_all r.1
                      (sym gcm ∙ ap (λ (x : Progress). x.gcm_ok_all) (sym same) ∙ h) in
                  let (plaintext, done) =
                    opened_inv fr.expected_plaintext_len report opens r read both.1 in
                  (plaintext, done, ap (λ (x : Progress). x.ctx) same ∙ moved, both.0)
            ]
      ]

  verify_frames-AllOpened :
      (frames : List SequenceFrameFile) (p q : Progress)
      → verify_frames ct_eq cipher aad frames p ≡ ok q
      → q.gcm_ok_all ≡ true
      → AllOpened cipher aad p.ctx frames × (p.gcm_ok_all ≡ true)
  unfolding verify_frames verify_frame
  verify_frames-AllOpened [] p q e h =
      let same : p ≡ q = ground (arith, e) in (tt, ap (λ (x : Progress). x.gcm_ok_all) same ∙ h)
  verify_frames-AllOpened (fr ∷ rest) p q e h = elim (Result-cases (read_direction fr)) [
    | inr (x, bad) ↦ absurd (ground (arith, bad, e))
    | inl (d, direction) ↦ elim (Result-cases (read_tag fr)) [
      | inr (x, bad) ↦ absurd (ground (arith, direction, bad, e))
      | inl (tag, read) ↦ elim (Result-cases (read_ciphertext fr)) [
        | inr (x, bad) ↦ absurd (ground (arith, direction, read, bad, e))
        | inl (ciphertext, sealed) ↦
            elim (Result-cases (open_frame ct_eq cipher aad fr d tag ciphertext p)) [
              | inr (x, bad) ↦ absurd (ground (arith, direction, read, sealed, bad, e))
              | inl (p', done) ↦
                  let more : verify_frames ct_eq cipher aad rest p' ≡ ok q =
                    ground (arith, direction, read, sealed, done, e) in
                  let (later, so_far) = verify_frames-AllOpened rest p' q more h in
                  let (plaintext, opens, moved, before) =
                    open_frame_inv fr d tag ciphertext p p' done so_far in
                  (
                    (
                      d,
                      tag,
                      ciphertext,
                      plaintext,
                      direction,
                      read,
                      sealed,
                      opens,
                      subst (λ c. AllOpened cipher aad c rest) moved later,
                    ),
                    before,
                  )
            ]
      ]
    ]
  ]

-- The file is verified only if its key, session nonce and data are read, a session is made of them, and
-- every frame of the file is opened under the nonces of that session.
pub verify_file-AllOpened :
    (ct_eq : List ℕ → List ℕ → Bool) (cipher : AesGcm) (file : SequenceFile)
    (report : SequenceReport)
    → verify_file ct_eq cipher file ≡ ok report
    → all_verified report ≡ true
    → (key : List ℕ) × (nonce : List ℕ) × (aad : List ℕ) × (ctx : SessionCryptoContext) × (read_key
          file
        ≡ ok key)
      × (read_nonce file ≡ ok nonce)
      × (read_aad file ≡ ok aad)
      × (Context.new key nonce ≡ ok ctx)
      × AllOpened cipher aad ctx file.frames
unfolding verify_file file_rest started reported all_verified
verify_file-AllOpened ct_eq cipher file report e h =
    let tested =
      fail_if-inv (is_empty file.frames) SequenceError.empty_frames (file_rest ct_eq cipher file)
        report e in
    elim (Result-cases (read_key file)) [
      | inr (x, bad) ↦ absurd (ground (arith, bad, tested))
      | inl (key, k) ↦ elim (Result-cases (read_nonce file)) [
        | inr (x, bad) ↦ absurd (ground (arith, k, bad, tested))
        | inl (nonce, n) ↦ elim (Result-cases (read_aad file)) [
          | inr (x, bad) ↦ absurd (ground (arith, k, n, bad, tested))
          | inl (aad, a) ↦ elim (Result-cases (Context.new key nonce)) [
            | inr (x, bad) ↦ absurd (ground (arith, k, n, a, bad, tested))
            | inl (ctx, made) ↦
                elim (Result-cases (verify_frames ct_eq cipher aad file.frames (started ctx))) [
                  | inr (x, bad) ↦ absurd (ground (arith, k, n, a, made, bad, tested))
                  | inl (q, done) ↦
                      let same : report ≡ reported key nonce aad ctx.session_nonce q =
                        ground (arith, k, n, a, made, done, tested) in
                      let passes : all_verified (reported key nonce aad ctx.session_nonce q)
                          ≡ true =
                        ap all_verified (sym same) ∙ h in
                      let gcm =
                        (and_inv q.gcm_ok_all (not (is_empty q.frames))
                          (and_inv (q.nonce_ok_all && text_eq q.ctx.session_nonce ctx.session_nonce)
                            (q.gcm_ok_all && not (is_empty q.frames)) passes).1).0 in
                      (
                        key,
                        nonce,
                        aad,
                        ctx,
                        k,
                        n,
                        a,
                        made,
                        (verify_frames-AllOpened ct_eq cipher aad file.frames (started ctx) q done
                            gcm).0,
                      )
                ]
          ]
        ]
      ]
    ]
