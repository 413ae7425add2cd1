-- ===== src/GcmSequence/Sealed.antt =====
-- A sequence of frames that a session sealed, written into a file and verified by network/src/gcm_sequence.rs.
use destiny1_pc_project.Prelude.{
  ℕ, ◌+◌, ◌≡◌, ◌≢◌, refl, sym, ap, ◌∙◌, subst, Bool, true, Option, none, some, List, [], ◌∷◌, ◌==◌,
  arith, length, map, All, IsByte, codes, Result, ok, ◌>>=◌,
}
use destiny1_pc_project.Nonce.{
  NonceDirection, client_to_server, server_to_client, direction_name, nonces_equal,
}
use destiny1_pc_project.Nonce.Value.{IsNonce, IsNonce-increment}
use destiny1_pc_project.Context.{SessionCryptoContext, next_nonce}
use destiny1_pc_project.Aead.{
  AesGcm, IsAead, CryptoError, nonce_len, tag_len, encrypt_aes_gcm, decrypt_aes_gcm,
}
use destiny1_pc_project.Aead.Laws.{encrypt_shape, decrypt-encrypt}
use destiny1_pc_project.LocalProtocol.{hex_encode}
use destiny1_pc_project.GcmFields.{parse_direction, decode_hex, decode_sized}
use destiny1_pc_project.GcmFields.RoundTrip.{
  is_empty-trim, decode_hex-hex_encode, decode_sized-hex_encode,
}
use destiny1_pc_project.GcmSequence.{
  SequenceError, SequenceFile, SequenceFrameFile, SequenceFrameReport, Progress, ordinal, opened,
  fresh_report, add_frame, match_nonce, open_frame, verify_frame,
}

-- A sealed message, with the nonce that was drawn for it.
pub record Sealed : Type 0 where
  pub direction : NonceDirection
  pub nonce : List ℕ
  pub plaintext : List ℕ
  pub tag : List ℕ
  pub ciphertext : List ℕ

-- What a file can hold: bytes, and a ciphertext that is not empty.
pub record IsWritable (s : Sealed) : Type 0 where
  pub tag_bytes : All IsByte s.tag
  pub ciphertext_bytes : All IsByte s.ciphertext
  pub full : s.ciphertext ≢ []

-- The sender: the messages sealed one after the other, each under the next nonce of its direction.
abbrev pub seal_all :
    AesGcm
    → List ℕ
    → SessionCryptoContext
    → List (NonceDirection × List ℕ)
    → Result CryptoError (List Sealed)
seal_all cipher aad ctx [] = ok []
seal_all cipher aad ctx ((d, plaintext) ∷ rest) =
    let later = seal_all cipher aad (next_nonce ctx d).0 rest in
    encrypt_aes_gcm cipher ctx.session_key (next_nonce ctx d).1 plaintext aad >>= λ blob.
    later >>= λ frames. ok (
      record {
        direction = d;
        nonce = (next_nonce ctx d).1;
        plaintext = plaintext;
        tag = blob.tag;
        ciphertext = blob.ciphertext;
      }
      ∷ frames)

abbrev pub frame_file : Sealed → SequenceFrameFile
frame_file s = record {
  id_hex = [];
  direction = direction_name s.direction;
  frame_offset = none;
  frame_order = none;
  tag_hex = hex_encode s.tag;
  ciphertext_hex = hex_encode s.ciphertext;
  expected_plaintext_len = some (length s.plaintext);
  expected_nonce_hex = some (hex_encode s.nonce);
}

abbrev pub sequence_file : List ℕ → List ℕ → List ℕ → List Sealed → SequenceFile
sequence_file key session_nonce aad frames = record {
  session_key_hex = hex_encode key;
  session_nonce_hex = hex_encode session_nonce;
  aad_hex = hex_encode aad;
  frames = map frame_file frames;
}

-- Both directions have nonces of twelve bytes.
pub record IsReady (ctx : SessionCryptoContext) : Type 0 where
  pub c2s : IsNonce ctx.client_to_server_nonce
  pub s2c : IsNonce ctx.server_to_client_nonce

pub next_nonce-IsReady :
    (ctx : SessionCryptoContext) (d : NonceDirection)
    → IsReady ctx
    → IsReady (next_nonce ctx d).0
      × IsNonce (next_nonce ctx d).1
      × ((next_nonce ctx d).0.session_key ≡ ctx.session_key)
      × ((next_nonce ctx d).0.session_nonce ≡ ctx.session_nonce)
unfolding next_nonce
next_nonce-IsReady ctx client_to_server h =
    (record { c2s = IsNonce-increment h.c2s; s2c = h.s2c }, h.c2s, refl, refl)
next_nonce-IsReady ctx server_to_client h =
    (record { c2s = h.c2s; s2c = IsNonce-increment h.s2c }, h.s2c, refl, refl)

pub ne_nil : (n : ℕ) (bs : List ℕ) → length bs ≡ 1 + n → bs ≢ []
ne_nil n [] h = absurd (omega (arith, h))
ne_nil n (b ∷ bs) h = λ e. cc

parse_direction-name :
    (d : NonceDirection) → parse_direction SequenceError.bad_direction (direction_name d) ≡ ok d
unfolding parse_direction direction_name
parse_direction-name client_to_server = refl
parse_direction-name server_to_client = refl

-- The report of a frame that passed.
abbrev pub sealed_report : List ℕ → Sealed → Progress → SequenceFrameReport
sealed_report aad s p =
    record (fresh_report aad (frame_file s) s.direction s.tag s.ciphertext (ordinal p s.direction)
      (some true)) {
        decrypt_ok = true;
        plaintext_length = some (length s.plaintext);
        plaintext_len_matches_expected = some true;
      }

opened-ok :
    (report : SequenceFrameReport) (plaintext : List ℕ)
    → opened (some (length plaintext)) report (ok plaintext)
      ≡ ok (
        record report {
          decrypt_ok = true;
          plaintext_length = some (length plaintext);
          plaintext_len_matches_expected = some true;
        },
        true,
      )
unfolding opened
opened-ok report plaintext =
    let same : (length plaintext == length plaintext) ≡ true = ground arith in
    ap
      (λ b. ok (
        record report {
          decrypt_ok = true;
          plaintext_length = some (length plaintext);
          plaintext_len_matches_expected = some b;
        },
        b,
      ))
      same

-- The progress behind a frame that passed.
unfoldable pub passed :
    Progress → SessionCryptoContext → SequenceFrameReport → NonceDirection → Progress
unfolding add_frame
passed p ctx r d = add_frame p ctx d (some true) (r, true)

module _ (ct_eq : List ℕ → List ℕ → Bool) (same : (x : List ℕ) → ct_eq x x ≡ true) where
  match_nonce_drawn :
      (drawn : List ℕ)
      → IsNonce drawn
      → match_nonce ct_eq drawn (some (hex_encode drawn)) ≡ ok (some true)
  unfolding match_nonce nonces_equal
  match_nonce_drawn drawn h =
      let full = ne_nil 11 drawn (omega (arith, h.size)) in
      let read =
        decode_sized-hex_encode SequenceError.bad_hex SequenceError.empty_field
          SequenceError.bad_field_len (codes "expected_nonce_hex") nonce_len drawn h.bytes h.size
          full in
      ground (arith, is_empty-trim drawn full, read, same drawn, h.size)

  module _ (cipher : AesGcm) where
    open_frame-sealed :
        (aad : List ℕ) (s : Sealed) (p : Progress)
        → match_nonce ct_eq (next_nonce p.ctx s.direction).1 (some (hex_encode s.nonce))
          ≡ ok (some true)
        → decrypt_aes_gcm cipher
            (next_nonce p.ctx s.direction).0.session_key
            (next_nonce p.ctx s.direction).1
            s.ciphertext
            s.tag
            aad
          ≡ ok s.plaintext
        → open_frame ct_eq cipher aad (frame_file s) s.direction s.tag s.ciphertext p
          ≡ ok (passed p (next_nonce p.ctx s.direction).0 (sealed_report aad s p) s.direction)
    unfolding open_frame passed
    open_frame-sealed aad s p m d =
        let fresh =
          fresh_report aad (frame_file s) s.direction s.tag s.ciphertext (ordinal p s.direction) in
        let size = some (length s.plaintext) in
        let finish = λ (m : Option Bool) (r : SequenceFrameReport × Bool).
          ok (add_frame p (next_nonce p.ctx s.direction).0 s.direction m r) in
        ap
          (λ (x : Result SequenceError (Option Bool)). x >>= λ m.
            opened size (fresh m) (
              decrypt_aes_gcm cipher (next_nonce p.ctx s.direction).0.session_key
                (next_nonce p.ctx s.direction).1 s.ciphertext s.tag aad)
            >>= finish m)
          m
        ∙ ap
            (λ (x : Result CryptoError (List ℕ)).
              opened size (fresh (some true)) x >>= finish (some true))
            d
        ∙ ap (λ (x : Result SequenceError (SequenceFrameReport × Bool)). x >>= finish (some true))
            (opened-ok (fresh (some true)) s.plaintext)

    pub verify_frame-sealed :
        (aad : List ℕ) (s : Sealed) (p : Progress)
        → IsAead cipher
        → IsReady p.ctx
        → IsWritable s
        → s.nonce ≡ (next_nonce p.ctx s.direction).1
        → encrypt_aes_gcm cipher p.ctx.session_key s.nonce s.plaintext aad
          ≡ ok (record { tag = s.tag; ciphertext = s.ciphertext })
        → verify_frame ct_eq cipher aad (frame_file s) p
          ≡ ok (passed p (next_nonce p.ctx s.direction).0 (sealed_report aad s p) s.direction)
    unfolding verify_frame
    verify_frame-sealed aad s p laws ready w at sealed =
        let (later, drawn, key_kept, nonce_kept) = next_nonce-IsReady p.ctx s.direction ready in
        let (tag_len_ok, ct_len, k, n, z) =
          encrypt_shape cipher laws p.ctx.session_key s.nonce s.plaintext aad
            (record { tag = s.tag; ciphertext = s.ciphertext }) sealed in
        let opens =
          decrypt-encrypt cipher laws p.ctx.session_key s.nonce s.plaintext aad
            (record { tag = s.tag; ciphertext = s.ciphertext }) sealed in
        let reads_tag =
          decode_sized-hex_encode SequenceError.bad_hex SequenceError.empty_field
            SequenceError.bad_field_len (codes "tag_hex") tag_len s.tag w.tag_bytes tag_len_ok
            (ne_nil 15 s.tag (omega (arith, tag_len_ok))) in
        let reads_ciphertext =
          decode_hex-hex_encode SequenceError.bad_hex SequenceError.empty_field
            (codes "ciphertext_hex") s.ciphertext w.ciphertext_bytes w.full in
        let m : match_nonce ct_eq (next_nonce p.ctx s.direction).1 (some (hex_encode s.nonce))
            ≡ ok (some true) =
          subst (λ x. match_nonce ct_eq x (some (hex_encode s.nonce)) ≡ ok (some true)) at
            (match_nonce_drawn s.nonce (subst IsNonce (sym at) drawn)) in
        let d : decrypt_aes_gcm cipher (next_nonce p.ctx s.direction).0.session_key
              (next_nonce p.ctx s.direction).1 s.ciphertext s.tag aad
            ≡ ok s.plaintext =
          ap
            (λ key.
              decrypt_aes_gcm cipher key (next_nonce p.ctx s.direction).1 s.ciphertext s.tag aad)
            key_kept
          ∙ ap (λ nonce. decrypt_aes_gcm cipher p.ctx.session_key nonce s.ciphertext s.tag aad)
              (sym at)
          ∙ opens in
        let rest = λ (d : NonceDirection) (tag ciphertext : List ℕ).
          open_frame ct_eq cipher aad (frame_file s) d tag ciphertext p in
        let tag_field =
          decode_sized SequenceError.bad_hex SequenceError.empty_field SequenceError.bad_field_len
            (codes "tag_hex") tag_len (hex_encode s.tag) in
        let ciphertext_field =
          decode_hex SequenceError.bad_hex SequenceError.empty_field (codes "ciphertext_hex")
            (hex_encode s.ciphertext) in
        ap
          (λ (x : Result SequenceError NonceDirection).
            x >>= λ d. tag_field >>= λ t. ciphertext_field >>= λ c. rest d t c)
          (parse_direction-name s.direction)
        ∙ ap
            (λ (x : Result SequenceError (List ℕ)).
              x >>= λ t. ciphertext_field >>= λ c. rest s.direction t c)
            reads_tag
        ∙ ap (λ (x : Result SequenceError (List ℕ)). x >>= λ c. rest s.direction s.tag c)
            reads_ciphertext
        ∙ open_frame-sealed aad s p m d
