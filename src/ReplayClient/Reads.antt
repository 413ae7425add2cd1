-- ===== src/ReplayClient/Reads.antt =====
-- The reads of the client of network/src/replay_client.rs, whatever chunks its socket gives.
use destiny1_pc_project.Prelude.{
  ℕ, zero, suc, ◌+◌, ◌≤◌, ◌<◌, ◌≡◌, refl, sym, ap, ◌∙◌, subst, some, List, [], ◌∷◌, ◌++◌, arith,
  length, concat, All, length-append, false, Result, ok, ◌⊎◌, inl, inr,
}
use destiny1_pc_project.Aead.{AesGcm}
use destiny1_pc_project.Session.{BapSession, DecodedBapFrame}
use destiny1_pc_project.Session.Independent.{sent_one, sender_view}
use destiny1_pc_project.Stream.{
  BapStreamDecoder, RawBapFrame, StreamFramingError, default_max_body_len, push,
}
use destiny1_pc_project.Stream.Exact.{raws, push_exact}
use destiny1_pc_project.LocalProtocol.{SimState}
use destiny1_pc_project.Server.Turns.{Script, script_socket, next_chunk}
use destiny1_pc_project.Server.Chunks.{IsChunk, Arrives}
use destiny1_pc_project.ReplayClient.Decodes.{
  decode_all-append, decode_all-sent_one, decode_all-sender_view, decode_all-nil,
}
use destiny1_pc_project.ReplayClient.{
  BapReplayClient, ReplayClientError, ran, decode_all, push_reversed, pop, take_first,
  decode_pushed, take_read, read_round, read_loop, read_frame,
}

-- A connected client: the chunks that its socket still gives, what it has written, and its fields.
abbrev pub client_in :
    List (List ℕ)
    → List (List ℕ)
    → BapStreamDecoder
    → BapSession
    → List DecodedBapFrame
    → SimState
    → BapReplayClient Script
client_in incoming sent d b pending st = record {
  stream = some (record { incoming = incoming; sent = sent; is_shut = false });
  session = b;
  decoder = d;
  sim_state = st;
  pending = pending;
}

abbrev pub fresh : BapStreamDecoder
fresh = record { buf = []; max_body_len = default_max_body_len }

frames_cases :
    (fs : List DecodedBapFrame)
    → (fs ≡ []) ⊎ ((f : DecodedBapFrame) × (rest : List DecodedBapFrame) × (fs ≡ f ∷ rest))
frames_cases [] = inl refl
frames_cases (f ∷ fs) = inr (f, fs, refl)

cons_parts :
    (f g : DecodedBapFrame) (fs gs : List DecodedBapFrame) → f ∷ fs ≡ g ∷ gs → (f ≡ g) × (fs ≡ gs)
cons_parts f g fs gs h = (ground (arith, h), ground (arith, h))

nil_parts : {A : Type 0} (xs ys : List A) → [] ≡ xs ++ ys → (xs ≡ []) × (ys ≡ [])
nil_parts [] ys h = (refl, sym h)
nil_parts (x ∷ xs) ys h = absurd (ground (arith, h))

pop-append : (fs : List DecodedBapFrame) (f : DecodedBapFrame) → pop (fs ++ (f ∷ [])) ≡ some (fs, f)
unfolding pop
pop-append [] f = refl
pop-append (g ∷ []) f = refl
pop-append (g ∷ h ∷ fs) f = ground (arith, pop-append (h ∷ fs) f)

module _ (cipher : AesGcm) where
  -- The frames `gs` that the client has still to be given: first the pending ones, then those that come out of the
  -- buffer and the chunks, the session ending as `b'`.
  pub record Holds (q : List (List ℕ)) (d : BapStreamDecoder) (b b' : BapSession)
      (pending gs : List DecodedBapFrame) : Type 0 where
    pub raw_frames : List RawBapFrame
    pub kept : List DecodedBapFrame
    pub to_come : List DecodedBapFrame
    pub chunks : All IsChunk q
    pub comes : Arrives d q fresh raw_frames
    pub decodes : decode_all cipher b raw_frames ≡ (b', ok to_come)
    pub is_pending : pending ≡ push_reversed [] kept
    pub split : gs ≡ kept ++ to_come

  read_chunk :
      (q : List (List ℕ)) (sent : List (List ℕ)) (d m : BapStreamDecoder) (b b' : BapSession)
      (st : SimState) (chunk : List ℕ) (xs : List RawBapFrame) (us : List DecodedBapFrame)
      → IsChunk chunk
      → push d chunk ≡ (m, ok xs)
      → decode_all cipher b xs ≡ (b', ok us)
      → read_round cipher (client_in (chunk ∷ q) sent d b [] st)
        ≡ take_first (client_in q sent m b' [] st) (ok us)
  unfolding read_round next_chunk take_read decode_pushed
  read_chunk q sent d m b b' st [] xs us n p e = absurd (omega arith)
  read_chunk q sent d m b b' st (x ∷ chunk) xs us n p e =
      ap
        (λ (r : BapStreamDecoder × Result StreamFramingError (List RawBapFrame)).
          decode_pushed cipher (client_in q sent r.0 b [] st) r.1)
        p
      ∙ ap
          (λ (r : BapSession × Result ReplayClientError (List DecodedBapFrame)).
            take_first (client_in q sent m r.0 [] st) r.1)
          e

  nothing_comes :
      (b b' : BapSession) (fs : List RawBapFrame) (g : DecodedBapFrame) (gs : List DecodedBapFrame)
      → fs ≡ []
      → decode_all cipher b fs ≡ (b', ok (g ∷ gs))
      → ⊥
  unfolding decode_all
  nothing_comes b b' [] g gs e h = ground (arith, h)
  nothing_comes b b' (f ∷ fs) g gs e h = ground (arith, e)

  -- The read of the next frame: the frame, and the client that waits for the others.
  pub record Next (fuel : ℕ) (q sent : List (List ℕ)) (d : BapStreamDecoder) (b b' : BapSession)
      (pending : List DecodedBapFrame) (st : SimState) (g : DecodedBapFrame)
      (gs : List DecodedBapFrame) : Type 0 where
    pub chunks : List (List ℕ)
    pub decoder : BapStreamDecoder
    pub session : BapSession
    pub kept : List DecodedBapFrame
    pub reads :
        read_frame cipher fuel (client_in q sent d b pending st)
        ≡ ran (client_in chunks sent decoder session kept st) (ok g)
    pub holds : Holds chunks decoder session b' kept gs
    pub no_more : length chunks ≤ length q

  read_loop-Next :
      (fuel : ℕ) (q sent : List (List ℕ)) (d : BapStreamDecoder) (b b' : BapSession) (st : SimState)
      (fs : List RawBapFrame) (g : DecodedBapFrame) (gs : List DecodedBapFrame)
      → All IsChunk q
      → Arrives d q fresh fs
      → decode_all cipher b fs ≡ (b', ok (g ∷ gs))
      → length q < fuel
      → Next fuel q sent d b b' [] st g gs
  unfolding read_frame read_loop pop Arrives take_first
  read_loop-Next zero q sent d b b' st fs g gs n comes h l = absurd (omega arith)
  read_loop-Next (suc fuel) [] sent d b b' st fs g gs n (e, none_left) h l =
      absurd (nothing_comes b b' fs g gs none_left h)
  read_loop-Next (suc fuel) (chunk ∷ q) sent d b b' st fs g gs (n, ns) (m, xs, ys, p, more, split) h
        l =
      let (c, us, vs, d1, d2, parts) =
        decode_all-append cipher b b' xs ys (g ∷ gs) (ap (decode_all cipher b) (sym split) ∙ h) in
      elim (frames_cases us) [
        | inl e ↦
            let none_here =
              read_chunk q sent d m b c st chunk xs [] n p (d1 ∙ ap (λ x. (c, ok x)) e) in
            let all_later : vs ≡ g ∷ gs = ground (arith, parts, e) in
            let rest =
              read_loop-Next fuel q sent m c b' st ys g gs ns more
                (d2 ∙ ap (λ x. (b', ok x)) all_later) (omega arith) in
            record {
              chunks = rest.chunks;
              decoder = rest.decoder;
              session = rest.session;
              kept = rest.kept;
              reads = ground (arith, none_here, rest.reads);
              holds = rest.holds;
              no_more = omega (arith, rest.no_more);
            }
        | inr (u, us', e) ↦
            let some_here = read_chunk q sent d m b c st chunk xs us n p d1 in
            record {
              chunks = q;
              decoder = m;
              session = c;
              kept = push_reversed [] us';
              reads = ground (arith, some_here, parts, e);
              holds = record {
                raw_frames = ys;
                kept = us';
                to_come = vs;
                chunks = ns;
                comes = more;
                decodes = d2;
                is_pending = refl;
                split = ground (arith, parts, e);
              };
              no_more = omega arith;
            }
      ]

  -- Whatever chunks come, the client is given the next frame that it waits for, with fuel for a read more than there are chunks.
  pub read_frame-Next :
      (fuel : ℕ) (q sent : List (List ℕ)) (d : BapStreamDecoder) (b b' : BapSession)
      (pending : List DecodedBapFrame) (st : SimState) (g : DecodedBapFrame)
      (gs : List DecodedBapFrame)
      → Holds q d b b' pending (g ∷ gs)
      → length q < fuel
      → Next fuel q sent d b b' pending st g gs
  unfolding read_frame push_reversed
  read_frame-Next fuel q sent d b b' pending st g gs h l = elim (frames_cases h.kept) [
    | inl e ↦
        let all_later : h.to_come ≡ g ∷ gs = ground (arith, h.split, e) in
        let empty : pending ≡ [] = ground (arith, h.is_pending, e) in
        subst (λ p. Next fuel q sent d b b' p st g gs) (sym empty)
          (read_loop-Next fuel q sent d b b' st h.raw_frames g gs h.chunks h.comes
            (h.decodes ∙ ap (λ x. (b', ok x)) all_later) l)
    | inr (f, rest, e) ↦
        let whole : f ∷ (rest ++ h.to_come) ≡ g ∷ gs =
          ap (λ z. z ++ h.to_come) (sym e) ∙ sym h.split in
        let (same, others) = cons_parts f g (rest ++ h.to_come) gs whole in
        let last : pending ≡ push_reversed [] rest ++ (g ∷ []) =
          h.is_pending
          ∙ ap (push_reversed []) e
          ∙ ap (λ z. push_reversed [] rest ++ (z ∷ [])) same in
        record {
          chunks = q;
          decoder = d;
          session = b;
          kept = push_reversed [] rest;
          reads = ground (arith, last, pop-append (push_reversed [] rest) g);
          holds = record {
            raw_frames = h.raw_frames;
            kept = rest;
            to_come = h.to_come;
            chunks = h.chunks;
            comes = h.comes;
            decodes = h.decodes;
            is_pending = refl;
            split = sym others;
          };
          no_more = omega arith;
        }
  ]

  -- A send between the reads changes nothing of what comes.
  pub Holds-sent_one :
      (q : List (List ℕ)) (d : BapStreamDecoder) (b b' : BapSession)
      (pending gs : List DecodedBapFrame)
      → Holds q d b b' pending gs
      → Holds q d (sent_one b) (sent_one b') pending gs
  Holds-sent_one q d b b' pending gs h = record {
    raw_frames = h.raw_frames;
    kept = h.kept;
    to_come = h.to_come;
    chunks = h.chunks;
    comes = h.comes;
    decodes =
        decode_all-sent_one cipher b h.raw_frames
        ∙ ap
            (λ (r : BapSession × Result ReplayClientError (List DecodedBapFrame)).
              (sent_one r.0, r.1))
            h.decodes;
    is_pending = h.is_pending;
    split = h.split;
  }

  pub Holds-sender_view :
      (q : List (List ℕ)) (d : BapStreamDecoder) (b b' : BapSession)
      (pending gs : List DecodedBapFrame)
      → Holds q d b b' pending gs
      → sender_view b ≡ sender_view b'
  Holds-sender_view q d b b' pending gs h =
      sym (decode_all-sender_view cipher b h.raw_frames)
      ∙ ap (λ (r : BapSession × Result ReplayClientError (List DecodedBapFrame)). sender_view r.0)
          h.decodes

-- Chunks that no frame comes out of stay in the buffer.
quiet :
    (d d' : BapStreamDecoder) (q : List (List ℕ)) (fs : List RawBapFrame)
    → fs ≡ []
    → Arrives d q d' fs
    → length d'.buf ≡ length d.buf + length (concat q)
unfolding Arrives raws
quiet d d' [] fs e (same, none_left) = ground (arith, same)
quiet d d' (chunk ∷ q) fs e (m, xs, ys, p, more, split) =
    let (first, later) = nil_parts xs ys (sym e ∙ split) in
    let kept : length m.buf ≡ length d.buf + length chunk =
      ap (λ z. length (raws z ++ m.buf)) (sym first)
      ∙ ap length (push_exact d m chunk xs p).0
      ∙ length-append d.buf chunk in
    omega (arith, kept, quiet m d' q ys later more, length-append chunk (concat q))

no_chunks : (q : List (List ℕ)) → All IsChunk q → length (concat q) ≡ 0 → q ≡ []
no_chunks [] h e = refl
no_chunks (chunk ∷ q) (h, hs) e = absurd (omega (arith, length-append chunk (concat q)))

last_decoder :
    (d d' : BapStreamDecoder) (q : List (List ℕ)) (fs : List RawBapFrame)
    → q ≡ []
    → Arrives d q d' fs
    → d ≡ d'
unfolding Arrives
last_decoder d d' [] fs e (same, none_left) = sym same
last_decoder d d' (chunk ∷ q) fs e h = absurd (ground (arith, e))

-- A client that waits for no more frames has read all chunks, and nothing is buffered or pending.
pub Holds-nil :
    (cipher : AesGcm) (q : List (List ℕ)) (d : BapStreamDecoder) (b b' : BapSession)
    (pending : List DecodedBapFrame)
    → Holds cipher q d b b' pending []
    → (q ≡ []) × (d ≡ fresh) × (b ≡ b') × (pending ≡ [])
unfolding push_reversed
Holds-nil cipher q d b b' pending h =
    let (kept, later) = nil_parts h.kept h.to_come h.split in
    let (none_left, same) =
      decode_all-nil cipher b b' h.raw_frames (h.decodes ∙ ap (λ x. (b', ok x)) later) in
    let read = quiet d fresh q h.raw_frames none_left h.comes in
    let all_read = no_chunks q h.chunks (omega (arith, read)) in
    (
      all_read,
      last_decoder d fresh q h.raw_frames all_read h.comes,
      same,
      h.is_pending ∙ ap (push_reversed []) kept,
    )
