-- ===== src/GcmSequence/Verified.antt =====
-- The whole file of network/src/gcm_sequence.rs: a sealed sequence is verified, and what is verified was opened.
use destiny1_pc_project.Prelude.{
  ℕ, suc, ◌+◌, ◌≡◌, ◌≢◌, refl, sym, ap, ◌∙◌, subst, Bool, true, false, Option, some, List, [], ◌∷◌,
  ◌++◌, arith, length, is_empty, map, All, IsByte, Text, codes, text_eq, text_eq_refl,
  length-append, Result, ok, ◌>>=◌, ◌>>◌, map_err, ok_or, fail_if, inl, inr, Result-cases,
}
use destiny1_pc_project.Nonce.{
  NonceDirection, client_to_server, server_to_client, nonce_after_increments,
}
use destiny1_pc_project.Nonce.Value.{IsNonce}
use destiny1_pc_project.Nonce.Start.{base-IsNonce}
use destiny1_pc_project.Context
use destiny1_pc_project.Context.{SessionCryptoContext, next_nonce}
use destiny1_pc_project.Context.Track.{new-start}
use destiny1_pc_project.Aead.{AesGcm, IsAead, AesGcmBlob, key_len, nonce_len, encrypt_aes_gcm}
use destiny1_pc_project.LocalProtocol.{hex_encode}
use destiny1_pc_project.GcmFields.{decode_sized, decode_aad}
use destiny1_pc_project.GcmFields.RoundTrip.{decode_aad-hex_encode, decode_sized-hex_encode}
use destiny1_pc_project.GcmSequence.{
  SequenceError, SequenceFile, SequenceFrameReport, SequenceReport, Progress, all_verified,
  add_frame, count, still_ok, verify_frames, started, reported, verify_file, verify_from_json_str,
}
use destiny1_pc_project.GcmSequence.Sealed.{
  Sealed, IsWritable, seal_all, frame_file, sequence_file, IsReady, next_nonce-IsReady, ne_nil,
  sealed_report, passed, verify_frame-sealed,
}

passed_lem :
    (p : Progress) (ctx : SessionCryptoContext) (r : SequenceFrameReport) (d : NonceDirection)
    → p.nonce_ok_all ≡ true
    → p.gcm_ok_all ≡ true
    → ((passed p ctx r d).nonce_ok_all ≡ true)
      × ((passed p ctx r d).gcm_ok_all ≡ true)
      × ((passed p ctx r d).ctx ≡ ctx)
      × ((passed p ctx r d).frames ≡ p.frames ++ (r ∷ []))
unfolding passed add_frame count still_ok
passed_lem p ctx r client_to_server h k = (ground (arith, h), ground (arith, k), refl, refl)
passed_lem p ctx r server_to_client h k = (ground (arith, h), ground (arith, k), refl, refl)

-- The frame that `seal_all` makes of a message.
abbrev sealed_as : SessionCryptoContext → NonceDirection → List ℕ → AesGcmBlob → Sealed
sealed_as ctx d plaintext blob = record {
  direction = d;
  nonce = (next_nonce ctx d).1;
  plaintext = plaintext;
  tag = blob.tag;
  ciphertext = blob.ciphertext;
}

seal_all_inv :
    (cipher : AesGcm) (aad : List ℕ) (ctx : SessionCryptoContext) (d : NonceDirection)
    (plaintext : List ℕ) (rest : List (NonceDirection × List ℕ)) (frames : List Sealed)
    → seal_all cipher aad ctx ((d, plaintext) ∷ rest) ≡ ok frames
    → (blob : AesGcmBlob) × (later : List Sealed) × (encrypt_aes_gcm cipher ctx.session_key
          (next_nonce ctx d).1
          plaintext
          aad
        ≡ ok blob)
      × (seal_all cipher aad (next_nonce ctx d).0 rest ≡ ok later)
      × (frames ≡ sealed_as ctx d plaintext blob ∷ later)
seal_all_inv cipher aad ctx d plaintext rest frames e =
    elim (Result-cases
      (encrypt_aes_gcm cipher ctx.session_key (next_nonce ctx d).1 plaintext aad)) [
        | inr (x, bad) ↦ absurd (ground (arith, bad, e))
        | inl (blob, good) ↦ elim (Result-cases (seal_all cipher aad (next_nonce ctx d).0 rest)) [
          | inr (x, bad) ↦ absurd (ground (arith, good, bad, e))
          | inl (later, more) ↦ (blob, later, good, more, ground (arith, good, more, e))
        ]
      ]

module _ (ct_eq : List ℕ → List ℕ → Bool) (same : (x : List ℕ) → ct_eq x x ≡ true) (cipher : AesGcm)
    (laws : IsAead cipher) where
  verify_frames-sealed :
      (aad : List ℕ) (messages : List (NonceDirection × List ℕ)) (frames : List Sealed)
      (p : Progress)
      → IsReady p.ctx
      → seal_all cipher aad p.ctx messages ≡ ok frames
      → All IsWritable frames
      → p.nonce_ok_all ≡ true
      → p.gcm_ok_all ≡ true
      → (q : Progress) × (verify_frames ct_eq cipher aad (map frame_file frames) p ≡ ok q)
        × (q.nonce_ok_all ≡ true)
        × (q.gcm_ok_all ≡ true)
        × (q.ctx.session_nonce ≡ p.ctx.session_nonce)
        × (length q.frames ≡ length p.frames + length frames)
  unfolding verify_frames
  verify_frames-sealed aad [] frames p ready e w h k =
      (p, ground (arith, e), h, k, refl, ground (arith, e))
  verify_frames-sealed aad ((d, plaintext) ∷ rest) frames p ready e w h k =
      let (blob, later, good, more, whole) =
        seal_all_inv cipher aad p.ctx d plaintext rest frames e in
      let w' = subst (All IsWritable) whole w in
      let s = sealed_as p.ctx d plaintext blob in
      let one = verify_frame-sealed ct_eq same cipher aad s p laws ready w'.0 refl good in
      let r = sealed_report aad s p in
      let (h', k', moved, grown) = passed_lem p (next_nonce p.ctx d).0 r d h k in
      let (ready', drawn, key_kept, nonce_kept) = next_nonce-IsReady p.ctx d ready in
      let (q, runs, h'', k'', kept, size) =
        verify_frames-sealed aad rest later (passed p (next_nonce p.ctx d).0 r d)
          (subst IsReady (sym moved) ready')
          (subst (λ c. seal_all cipher aad c rest ≡ ok later) (sym moved) more) w'.1 h' k' in
      (
        q,
        ap (λ fs. verify_frames ct_eq cipher aad (map frame_file fs) p) whole
            ∙ ap
                (λ (x : Result SequenceError Progress).
                  x >>= λ p'. verify_frames ct_eq cipher aad (map frame_file later) p')
                one
            ∙ runs,
        h'',
        k'',
        kept ∙ ap (λ (c : SessionCryptoContext). c.session_nonce) moved ∙ nonce_kept,
        size
            ∙ ap (λ fs. length fs + length later) grown
            ∙ ground (
              arith,
              length-append p.frames (r ∷ []),
              ap (λ (fs : List Sealed). length fs) whole,
            ),
      )

new-IsReady :
    (key nonce : List ℕ) (ctx : SessionCryptoContext)
    → Context.new key nonce ≡ ok ctx
    → IsNonce nonce
    → IsReady ctx
unfolding nonce_after_increments
new-IsReady key nonce ctx e h =
    let (tracks, k, n) = new-start key nonce ctx e in
    record {
      c2s = subst IsNonce (sym tracks.c2s_nonce) (base-IsNonce nonce client_to_server h);
      s2c = subst IsNonce (sym tracks.s2c_nonce) (base-IsNonce nonce server_to_client h);
    }

not_empty : (frames : List Sealed) → frames ≢ [] → is_empty (map frame_file frames) ≡ false
not_empty [] h = absurd (h refl)
not_empty (s ∷ frames) h = refl

grown :
    {n : ℕ} (frames : List SequenceFrameReport) → length frames ≡ suc n → is_empty frames ≡ false
grown [] h = absurd (omega (arith, h))
grown (r ∷ frames) h = refl

-- A report of as many frames as the file has, all tests passed.
reported-verified :
    (key nonce aad snapshot : List ℕ) (frames : List Sealed) (q : Progress)
    → frames ≢ []
    → q.nonce_ok_all ≡ true
    → q.gcm_ok_all ≡ true
    → q.ctx.session_nonce ≡ snapshot
    → length q.frames ≡ length frames
    → (all_verified (reported key nonce aad snapshot q) ≡ true)
      × (length (reported key nonce aad snapshot q).frames ≡ length frames)
unfolding all_verified reported
reported-verified key nonce aad snapshot [] q n h k e l = absurd (n refl)
reported-verified key nonce aad snapshot (s ∷ frames) q n h k e l =
    let some_there : is_empty q.frames ≡ false = grown q.frames l in
    (ground (arith, h, k, text_eq_refl snapshot, ap (λ x. text_eq x snapshot) e, some_there), l)

-- A session seals messages that are not empty, one after the other, in any interleaving of the directions, and
-- a file holds the key, the session nonce, the data and what was sealed in hex, with the drawn nonces and the lengths of
-- the messages as what is expected: where serde_json reads that file, with a cipher and a comparison that keep
-- their laws, the verification ends without an error, in a report of every frame that is verified.
pub verify_from_json_str-seal_all :
    (ct_eq : List ℕ → List ℕ → Bool) (cipher : AesGcm) (from_str : Text → Option SequenceFile)
    (text : Text) (key nonce aad : List ℕ) (messages : List (NonceDirection × List ℕ))
    (ctx : SessionCryptoContext) (frames : List Sealed)
    → ((x : List ℕ) → ct_eq x x ≡ true)
    → IsAead cipher
    → All IsByte key
    → IsNonce nonce
    → All IsByte aad
    → Context.new key nonce ≡ ok ctx
    → seal_all cipher aad ctx messages ≡ ok frames
    → frames ≢ []
    → All IsWritable frames
    → from_str text ≡ some (sequence_file key nonce aad frames)
    → (report : SequenceReport) × (verify_from_json_str ct_eq cipher from_str text ≡ ok report)
      × (all_verified report ≡ true)
      × (length report.frames ≡ length frames)
unfolding verify_from_json_str verify_file started
verify_from_json_str-seal_all ct_eq cipher from_str text key nonce aad messages ctx frames same laws
      hk hn ha made sealed some_there w reads =
    let (tracks, key_size, nonce_size) = new-start key nonce ctx made in
    let (q, runs, h, k, kept, size) =
      verify_frames-sealed ct_eq same cipher laws aad messages frames (started ctx)
        (new-IsReady key nonce ctx made hn) sealed w refl refl in
    let read_key =
      decode_sized-hex_encode SequenceError.bad_hex SequenceError.empty_field
        SequenceError.bad_field_len (codes "session_key_hex") key_len key hk key_size
        (ne_nil 15 key (omega (arith, key_size))) in
    let read_nonce =
      decode_sized-hex_encode SequenceError.bad_hex SequenceError.empty_field
        SequenceError.bad_field_len (codes "session_nonce_hex") nonce_len nonce hn.bytes hn.size
        (ne_nil 11 nonce (omega (arith, nonce_size))) in
    let read_aad = decode_aad-hex_encode SequenceError.bad_hex SequenceError.empty_field aad ha in
    let fs = map frame_file frames in
    let after_frames = λ (k n a : List ℕ) (c : SessionCryptoContext) (p : Progress).
      ok (reported k n a c.session_nonce p) in
    let after_new = λ (k n a : List ℕ) (c : SessionCryptoContext).
      verify_frames ct_eq cipher a fs (started c) >>= after_frames k n a c in
    let after_aad =
      λ (k n a : List ℕ). map_err SequenceError.context (Context.new k n) >>= after_new k n a in
    let after_nonce = λ (k n : List ℕ).
      decode_aad SequenceError.bad_hex SequenceError.empty_field (hex_encode aad)
      >>= after_aad k n in
    let nonce_field =
      decode_sized SequenceError.bad_hex SequenceError.empty_field SequenceError.bad_field_len
        (codes "session_nonce_hex") nonce_len (hex_encode nonce) in
    let key_field =
      decode_sized SequenceError.bad_hex SequenceError.empty_field SequenceError.bad_field_len
        (codes "session_key_hex") key_len (hex_encode key) in
    let after_key = λ (k : List ℕ). nonce_field >>= after_nonce k in
    let (verified, all_there) =
      reported-verified key nonce aad ctx.session_nonce frames q some_there h k kept
        (omega (arith, size)) in
    (
      reported key nonce aad ctx.session_nonce q,
      ap
            (λ (o : Option SequenceFile).
              ok_or o SequenceError.bad_json >>= λ file. verify_file ct_eq cipher file)
            reads
          ∙ ap (λ (b : Bool). fail_if b SequenceError.empty_frames >> (key_field >>= after_key))
              (not_empty frames some_there)
          ∙ ap (λ (x : Result SequenceError (List ℕ)). x >>= after_key) read_key
          ∙ ap (λ (x : Result SequenceError (List ℕ)). x >>= after_nonce key) read_nonce
          ∙ ap (λ (x : Result SequenceError (List ℕ)). x >>= after_aad key nonce) read_aad
          ∙ ap
              (λ (x : Result Context.SessionContextError SessionCryptoContext).
                map_err SequenceError.context x >>= after_new key nonce aad)
              made
          ∙ ap (λ (x : Result SequenceError Progress). x >>= after_frames key nonce aad ctx) runs,
      verified,
      all_there,
    )
