-- ===== src/Pipeline/Replay.antt =====
-- A session that sends messages, and the decode loop of the pipeline over their frames.
use destiny1_pc_project.Prelude.{
  ℕ, suc, ◌+◌, ◌≤◌, ◌<◌, ◌≡◌, refl, sym, ap, ◌∙◌, inl, inr, Bool, true, false, Option, none, some,
  Option-cases, List, [], ◌∷◌, ◌++◌, arith, length, All, IsU16, IsU32, to_be16, to_be32,
  length-append, concat, map, append-nil, append_assoc, Result, ok, err, Call, returns, panics,
}
use mathlib.Core.Path.{subst}
use destiny1_pc_project.Nonce.{NonceDirection}
use destiny1_pc_project.Context.Track.{Drawn, count_one, nonce_at, Tracks, next_nonce-Tracks}
use destiny1_pc_project.Aead.{AesGcm, IsAead, AesGcmBlob}
use destiny1_pc_project.Aead.Laws.{encrypt_shape}
use destiny1_pc_project.Framing.{u32_limit, as_u8, clear_frame, encrypted_frame, serialize_body}
use destiny1_pc_project.Framing.RoundTrip.{wire}
use destiny1_pc_project.Stream.{RawBapFrame}
use destiny1_pc_project.Stream.Exact.{Fits, raw_frame, raws}
use destiny1_pc_project.Session.{
  plaintext_of, BapSession, BapSessionError, DecodedBapFrame, clear, decrypted, encode_clear,
  encode_encrypted, decode_frame,
}
use destiny1_pc_project.Session.Exchange.{
  advance, clear_wire, frame_of, encode_inv, received, decode-encode_clear, length-plaintext_of,
}
use destiny1_pc_project.Pipeline.{decode_each, zip}

-- A message to be sent: in the clear, or encrypted.
pub record Message : Type 0 where
  pub secret : Bool
  pub direction : NonceDirection
  pub id : ℕ
  pub context : ℕ
  pub payload : List ℕ

-- The frame that a message becomes: the session behind it, and its bytes.
unfoldable pub send_as :
    AesGcm → Bool → BapSession → Message → Call (BapSession × Result BapSessionError (List ℕ))
send_as cipher true s m = encode_encrypted cipher s m.direction m.id m.context m.payload
send_as cipher false s m = elim (encode_clear m.id m.context m.payload) [
  | returns bytes ↦ returns (s, ok bytes)
  | panics ↦ panics
]

-- The decoded frame that stands for a message.
abbrev pub decoded_as : Bool → Message → DecodedBapFrame
decoded_as true m = decrypted (some m.id) (some m.context) m.payload (6 + length m.payload)
decoded_as false m = clear m.id m.context m.payload

abbrev pub decoded_of : Message → DecodedBapFrame
decoded_of m = decoded_as m.secret m

abbrev pub drawn_by : Bool → Drawn → Message → Drawn
drawn_by true t m = count_one t m.direction
drawn_by false t m = t

-- The fields have the widths of the wire, and the frame is within the decoder's limit.
pub record IsSendable (max_body_len : ℕ) (m : Message) : Type 0 where
  pub id_u16 : IsU16 m.id
  pub context_u32 : IsU32 m.context
  pub within : 22 + length m.payload ≤ max_body_len
  pub limit_u32 : max_body_len < u32_limit

-- What one sent message looks like from the other end.
pub record Arrives (cipher : AesGcm) (key n : List ℕ) (limit : ℕ) (b : Bool) (t : Drawn)
    (m : Message) (s' r : BapSession) (bytes : List ℕ) : Type 0 where
  pub raw : RawBapFrame
  pub raw_fits : Fits limit raw
  pub raw_bytes : raw.raw_bytes ≡ bytes
  pub after : BapSession
  pub decodes : decode_frame cipher r m.direction bytes ≡ (after, ok (decoded_as b m))
  pub sender_tracks : Tracks key n (drawn_by b t m) s'.crypto
  pub receiver_tracks : Tracks key n (drawn_by b t m) after.crypto

pub clear_raw_frame :
    (m : Message) (max_body_len : ℕ)
    → IsSendable max_body_len m
    → (raw : RawBapFrame) × Fits max_body_len raw
      × (raw.raw_bytes ≡ clear_wire m.id m.context m.payload)
unfolding clear_wire wire raw_frame as_u8 clear_frame serialize_body
clear_raw_frame m max_body_len h = (
  raw_frame 2 (to_be16 m.id ++ (to_be32 m.context ++ m.payload)),
  record {
    kind_known = inr refl;
    body_fits = omega (arith, h.within);
    body_u32 = omega (arith, h.within, h.limit_u32);
    framed = refl;
  },
  refl,
)

secret_raw_frame :
    (blob : AesGcmBlob) (max_body_len : ℕ)
    → length blob.tag ≡ 16
    → 16 + length blob.ciphertext ≤ max_body_len
    → max_body_len < u32_limit
    → (raw : RawBapFrame) × Fits max_body_len raw × (raw.raw_bytes ≡ wire (frame_of blob))
unfolding wire raw_frame as_u8 encrypted_frame serialize_body
secret_raw_frame blob max_body_len ht hc hm = (
  raw_frame 1 (blob.tag ++ blob.ciphertext),
  record {
    kind_known = inl refl;
    body_fits = omega (arith, length-append blob.tag blob.ciphertext);
    body_u32 = omega (arith, length-append blob.tag blob.ciphertext);
    framed = refl;
  },
  refl,
)

module _ (cipher : AesGcm) (laws : IsAead cipher) (key n : List ℕ) (limit : ℕ) where
  pub arrives :
      (b : Bool) (t : Drawn) (m : Message) (s s' r : BapSession) (bytes : List ℕ)
      → IsSendable limit m
      → Tracks key n t s.crypto
      → Tracks key n t r.crypto
      → send_as cipher b s m ≡ returns (s', ok bytes)
      → Arrives cipher key n limit b t m s' r bytes
  unfolding send_as
  arrives false t m s s' r bytes ok_m hs hr e =
      let (raw, fits, same) = clear_raw_frame m limit ok_m in
      let sent =
        decode-encode_clear cipher r m.direction m.id m.context m.payload ok_m.id_u16
          ok_m.context_u32 (omega (arith, ok_m.within, ok_m.limit_u32)) in
      let here : (s ≡ s') × (clear_wire m.id m.context m.payload ≡ bytes) = ground (arith, sent) in
      record {
        raw = raw;
        raw_fits = fits;
        raw_bytes = same ∙ here.1;
        after = r;
        decodes = rw (← here.1) sent.1;
        sender_tracks = subst (λ (x : BapSession). Tracks key n t x.crypto) here.0 hs;
        receiver_tracks = hr;
      }
  arrives true t m s s' r bytes ok_m hs hr e =
      let fits : 22 + length m.payload < u32_limit = omega (arith, ok_m.within, ok_m.limit_u32) in
      let (blob, sealed, same_s, same_bytes) =
        encode_inv cipher laws key n t m.direction s s' m.id m.context m.payload bytes hs fits e in
      let (ht, hc, _, _, _) =
        encrypt_shape cipher laws key (nonce_at n t m.direction)
          (plaintext_of m.id m.context m.payload) [] blob sealed in
      let (raw, raw_fits, same) =
        secret_raw_frame blob limit ht
          (omega (arith, hc, ok_m.within, length-plaintext_of m.id m.context m.payload))
          ok_m.limit_u32 in
      record {
        raw = raw;
        raw_fits = raw_fits;
        raw_bytes = same ∙ sym same_bytes;
        after = advance r m.direction;
        decodes = rw same_bytes (
            received cipher laws key n t m.direction r m.id m.context m.payload blob hr fits
              ok_m.id_u16 ok_m.context_u32 sealed);
        sender_tracks = rw same_s (next_nonce-Tracks key n t s.crypto m.direction hs).0;
        receiver_tracks = (next_nonce-Tracks key n t r.crypto m.direction hr).0;
      }

-- A session sends messages one after another; `none` where one of them is not sent.
unfoldable pub send_all : AesGcm → BapSession → List Message → Option (BapSession × List (List ℕ))
send_all cipher s [] = some (s, [])
send_all cipher s (m ∷ ms) = elim (send_as cipher m.secret s m) [
  | panics ↦ none
  | returns (s', err e) ↦ none
  | returns (s', ok bytes) ↦ elim (send_all cipher s' ms) [
    | none ↦ none
    | some (s'', frames) ↦ some (s'', bytes ∷ frames)
  ]
]

-- What a run of sent messages looks like from the other end.
pub record Replays (cipher : AesGcm) (limit : ℕ) (ms : List Message) (r : BapSession)
    (frames : List (List ℕ)) : Type 0 where
  pub rs : List RawBapFrame
  pub fit : All (Fits limit) rs
  pub bytes : raws rs ≡ concat frames
  pub count : length rs ≡ length ms
  pub after : BapSession
  pub decodes :
      (out : List DecodedBapFrame)
      → decode_each cipher r (zip rs (map (λ m. m.direction) ms)) out
        ≡ (after, ok (out ++ map decoded_of ms))

pub send_all_inv :
    (cipher : AesGcm) (s s'' : BapSession) (m : Message) (ms : List Message)
    (frames : List (List ℕ))
    → send_all cipher s (m ∷ ms) ≡ some (s'', frames)
    → (s' : BapSession) × (bytes : List ℕ) × (rest : List (List ℕ)) × (send_as cipher m.secret s m
        ≡ returns (s', ok bytes))
      × (send_all cipher s' ms ≡ some (s'', rest))
      × (frames ≡ bytes ∷ rest)
unfolding send_all
send_all_inv cipher s s'' m ms frames h = go (send_as cipher m.secret s m) refl
  where
    go :
        (c : Call (BapSession × Result BapSessionError (List ℕ)))
        → send_as cipher m.secret s m ≡ c
        → (s' : BapSession) × (bytes : List ℕ) × (rest : List (List ℕ)) × (send_as cipher m.secret s
              m
            ≡ returns (s', ok bytes))
          × (send_all cipher s' ms ≡ some (s'', rest))
          × (frames ≡ bytes ∷ rest)
    go panics e = absurd (ground arith)
    go (returns (s', err x)) e = absurd (ground arith)
    go (returns (s', ok bytes)) e = elim (Option-cases (send_all cipher s' ms)) [
      | inl q ↦ absurd (ground arith)
      | inr ((u, rest), q) ↦ (s', bytes, rest, e, ground arith, ground arith)
    ]

module _ (cipher : AesGcm) (laws : IsAead cipher) (key n : List ℕ) (limit : ℕ) where
  decode_step :
      (m : Message) (raw : RawBapFrame) (r after : BapSession)
      (rest : List (RawBapFrame × NonceDirection)) (out : List DecodedBapFrame)
      → decode_frame cipher r m.direction raw.raw_bytes ≡ (after, ok (decoded_of m))
      → decode_each cipher r ((raw, m.direction) ∷ rest) out
        ≡ decode_each cipher after rest (out ++ (decoded_of m ∷ []))
  unfolding decode_each
  decode_step m raw r after rest out h = ground arith

  pub replays :
      (t : Drawn) (ms : List Message) (s s' r : BapSession) (frames : List (List ℕ))
      → All (IsSendable limit) ms
      → Tracks key n t s.crypto
      → Tracks key n t r.crypto
      → send_all cipher s ms ≡ some (s', frames)
      → Replays cipher limit ms r frames
  unfolding raws zip
  replays t [] s s' r frames ok_ms hs hr e = record {
    rs = [];
    fit = tt;
    bytes = unfold send_all in ground arith;
    count = refl;
    after = r;
    decodes = λ out. unfold decode_each in rw append-nil;
  }
  replays t (m ∷ ms) s s'' r frames ok_ms hs hr e =
      let (s', bytes, rest, sent, more, split) = send_all_inv cipher s s'' m ms frames e in
      let one = arrives cipher laws key n limit m.secret t m s s' r bytes ok_ms.0 hs hr sent in
      let tail =
        replays (drawn_by m.secret t m) ms s' s'' one.after rest ok_ms.1 one.sender_tracks
          one.receiver_tracks more in
      record {
        rs = one.raw ∷ tail.rs;
        fit = (one.raw_fits, tail.fit);
        bytes = ground (arith, one.raw_bytes, tail.bytes, split);
        count = ap suc tail.count;
        after = tail.after;
        decodes = λ out.
            decode_step m one.raw r one.after (zip tail.rs (map (λ x. x.direction) ms)) out
              (rw one.raw_bytes one.decodes)
            ∙ tail.decodes (out ++ (decoded_of m ∷ []))
            ∙ ap (λ fs. (tail.after, ok fs))
                (append_assoc out (decoded_of m ∷ []) (map decoded_of ms));
      }
