-- ===== src/ReplayClient.antt =====
-- network/src/replay_client.rs: the client of the simulated handshake, over a socket.
pub mod Decodes
pub mod Reads
pub mod Exchange
pub mod Replies
pub mod Together
use destiny1_pc_project.Prelude.{
  ℕ, zero, suc, Bool, true, false, Option, none, some, List, [], ◌∷◌, ◌++◌, ◌==◌, if◌then◌else◌,
  Text, codes, hex04, text_eq, Result, ok, err, ◌>>=◌, map_err, Call, returns, panics,
}
use destiny1_pc_project.Nonce.{NonceDirection}
use destiny1_pc_project.Aead.{AesGcm}
use destiny1_pc_project.Session
use destiny1_pc_project.Session.{BapSession, BapSessionError, DecodedBapFrame, decode_frame}
use destiny1_pc_project.Stream
use destiny1_pc_project.Stream.{BapStreamDecoder, RawBapFrame, StreamFramingError, push}
use destiny1_pc_project.Events.{synthetic_session_key, synthetic_session_nonce}
use destiny1_pc_project.Policy.{sim_context}
use destiny1_pc_project.LocalProtocol
use destiny1_pc_project.LocalProtocol.{
  SimState, LocalProtocolError, ProtocolErrorKind, kind_str, ReplayStep, HandshakeReplayFixture,
  CryptoFixture, key_bytes, nonce_bytes, hex_decode, parse_msg_id, payload_for_msg, msg_1e, msg_1f,
  msg_19, msg_1a, msg_79, msg_7a, msg_syn_a, msg_syn_a_rsp, msg_syn_b, msg_syn_b_rsp, payload_1e,
  payload_19, payload_79, payload_syn_a, payload_syn_b,
}
use destiny1_pc_project.Server.{Socket, ReadOutcome, received, timed_out, failed}
use destiny1_pc_project.Display.{stream_text, session_text}

pub data ReplayClientError : Type 0 where
  connect io framing crypto protocol : Text → ReplayClientError
  -- The text up to the comma, and the frame that is printed behind it.
  unexpected : Text → DecodedBapFrame → ReplayClientError
  fixture : LocalProtocolError → ReplayClientError

pub record BapReplayClient (S : Type 0) : Type 0 where
  pub stream : Option S
  pub session : BapSession
  pub decoder : BapStreamDecoder
  pub sim_state : SimState
  -- Popped from the end.
  pub pending : List DecodedBapFrame

-- What a method leaves: the client and its result, or a panic, or no fuel for another read.
pub data Ran (S A : Type 0) : Type 0 where
  ran : BapReplayClient S → Result ReplayClientError A → Ran S A
  panicked out_of_fuel : Ran S A

-- `?` behind a method call.
infixl 5 ◌and_then◌
abbrev pub ◌and_then◌ : {S A B : Type 0} → Ran S A → (BapReplayClient S → A → Ran S B) → Ran S B
ran c (ok a) and_then f = f c a
ran c (err e) and_then f = ran c (err e)
panicked and_then f = panicked
out_of_fuel and_then f = out_of_fuel

unfoldable pub with_keys :
    {S : Type 0} → List ℕ → List ℕ → Result ReplayClientError (BapReplayClient S)
with_keys key nonce = do
  session ← map_err (λ e. crypto (session_text e)) (Session.new key nonce)
  ok (record {
    stream = none;
    session = session;
    decoder = Stream.new;
    sim_state = LocalProtocol.sim_start;
    pending = [];
  })

unfoldable pub with_synthetic : {S : Type 0} → Result ReplayClientError (BapReplayClient S)
unfolding with_keys
with_synthetic = with_keys synthetic_session_key synthetic_session_nonce

-- `?` on the decoded texts of the fixture.
unfoldable pub with_texts :
    {S : Type 0}
    → Result LocalProtocolError (List ℕ)
    → Call (Result LocalProtocolError (List ℕ))
    → Call (Result ReplayClientError (BapReplayClient S))
unfolding with_keys
with_texts (err e) nonce = returns (err (fixture e))
with_texts (ok key) panics = panics
with_texts (ok key) (returns (err e)) = returns (err (fixture e))
with_texts (ok key) (returns (ok nonce)) = returns (with_keys key nonce)

unfoldable pub from_crypto_fixture :
    {S : Type 0} → CryptoFixture → Call (Result ReplayClientError (BapReplayClient S))
unfolding with_texts
from_crypto_fixture fx = elim (key_bytes fx) [
  | panics ↦ panics
  | returns key ↦ with_texts key (nonce_bytes fx)
]

unfoldable pub expect_clear : DecodedBapFrame → ℕ → Result ReplayClientError (Unit {0})
expect_clear (DecodedBapFrame.clear id ctx payload) msg_id =
    if id == msg_id
    then ok tt
    else err (
        unexpected (codes "expected clear 0x" ++ hex04 msg_id)
          (DecodedBapFrame.clear id ctx payload))
expect_clear frame msg_id = err (unexpected (codes "expected clear 0x" ++ hex04 msg_id) frame)

unfoldable pub expect_decrypted : DecodedBapFrame → ℕ → Result ReplayClientError (Unit {0})
expect_decrypted (DecodedBapFrame.decrypted (some id) ctx payload n) msg_id =
    if id == msg_id
    then ok tt
    else err (
        unexpected (codes "expected decrypted 0x" ++ hex04 msg_id)
          (DecodedBapFrame.decrypted (some id) ctx payload n))
expect_decrypted frame msg_id =
    err (unexpected (codes "expected decrypted 0x" ++ hex04 msg_id) frame)

unfoldable pub map_framing : StreamFramingError → ReplayClientError
map_framing (StreamFramingError.invalid_magic m) =
    framing (kind_str ProtocolErrorKind.protocol_error)
map_framing (StreamFramingError.invalid_kind k) =
    framing (kind_str ProtocolErrorKind.protocol_error)
map_framing other = framing (stream_text other)

-- The `match` on an error of `decode_frame`.
unfoldable pub map_decode : BapSessionError → ReplayClientError
map_decode BapSessionError.decrypt_failed = crypto (kind_str ProtocolErrorKind.gcm_decrypt_failure)
map_decode e =
    crypto (kind_str ProtocolErrorKind.auth_crypto_error ++ (codes ": " ++ session_text e))

-- `for raw in frames` of `read_frame`: the session, and the decoded frames in order.
unfoldable pub decode_all :
    AesGcm
    → BapSession
    → List RawBapFrame
    → BapSession × Result ReplayClientError (List DecodedBapFrame)
decode_all cipher s [] = (s, ok [])
decode_all cipher s (raw ∷ rest) =
    let (s', r) = decode_frame cipher s NonceDirection.server_to_client raw.raw_bytes in
    let (s'', later) = decode_all cipher s' rest in
    elim r [
      | err e ↦ (s', err (map_decode e))
      | ok frame ↦ (s'', later >>= λ frames. ok (frame ∷ frames))
    ]

-- `into_iter().skip(1).rev()`, pushed one by one.
unfoldable pub push_reversed : List DecodedBapFrame → List DecodedBapFrame → List DecodedBapFrame
push_reversed pending [] = pending
push_reversed pending (f ∷ fs) = push_reversed pending fs ++ (f ∷ [])

-- `pending.pop()`.
unfoldable pub pop : List DecodedBapFrame → Option (List DecodedBapFrame × DecodedBapFrame)
pop [] = none
pop (f ∷ []) = some ([], f)
pop (f ∷ g ∷ fs) = elim (pop (g ∷ fs)) [ none ↦ none | some (rest, last) ↦ some (f ∷ rest, last) ]

unfoldable pub not_connected : ReplayClientError
not_connected = connect (codes "not connected")

-- The bytes of `payload_hex`, or the payload of the message.
unfoldable pub step_payload : ReplayStep → ℕ → Call (Result LocalProtocolError (List ℕ))
step_payload step msg_id = elim step.payload_hex [
  | some hx ↦ hex_decode hx
  | none ↦ returns (ok (payload_for_msg msg_id))
]

unfoldable pub step_context : ReplayStep → ℕ
step_context step = elim step.context [ some ctx ↦ ctx | none ↦ sim_context ]

module _ {S : Type 0} where
  unfoldable pub is_connected : BapReplayClient S → Bool
  is_connected c = elim c.stream [ none ↦ false | some s ↦ true ]

  -- A result that does not touch the client.
  unfoldable pub check : {A : Type 0} → BapReplayClient S → Result ReplayClientError A → Ran S A
  check c r = ran c r

  unfoldable pub enter : BapReplayClient S → SimState → BapReplayClient S
  enter c st = record c { sim_state = st }

  -- The frames of one push, behind the loop over them.
  unfoldable pub take_first :
      BapReplayClient S
      → Result ReplayClientError (List DecodedBapFrame)
      → Ran S (Option DecodedBapFrame)
  take_first c (err e) = ran c (err e)
  take_first c (ok []) = ran c (ok none)
  take_first c (ok (first ∷ extra)) =
      ran (record c { pending = push_reversed c.pending extra }) (ok (some first))

module _ {S : Type 0} ⦃sock : Socket S⦄ where
  unfoldable pub close : BapReplayClient S → BapReplayClient S
  close c = record c { stream = none }

  unfoldable pub send_raw : BapReplayClient S → List ℕ → Ran S (Unit {0})
  unfolding not_connected
  send_raw c bytes = elim c.stream [
    | none ↦ ran c (err not_connected)
    | some s ↦
        let (s', r) = sock.write_all s bytes in ran (record c { stream = some s' }) (map_err io r)
  ]

  unfoldable pub send_clear : BapReplayClient S → ℕ → ℕ → List ℕ → Ran S (Unit {0})
  unfolding send_raw
  send_clear c msg_id context payload = elim (Session.encode_clear msg_id context payload) [
    | panics ↦ panicked
    | returns bytes ↦ send_raw c bytes
  ]

  -- What follows `encode_encrypted`.
  unfoldable pub send_sealed :
      BapReplayClient S → Call (BapSession × Result BapSessionError (List ℕ)) → Ran S (Unit {0})
  unfolding send_raw
  send_sealed c panics = panicked
  send_sealed c (returns (s', err e)) =
      ran (record c { session = s' }) (err (crypto (session_text e)))
  send_sealed c (returns (s', ok bytes)) = send_raw (record c { session = s' }) bytes

module _ {S : Type 0} ⦃sock : Socket S⦄ (cipher : AesGcm) where
  unfoldable pub send_encrypted : BapReplayClient S → ℕ → ℕ → List ℕ → Ran S (Unit {0})
  unfolding send_sealed
  send_encrypted c msg_id context payload = send_sealed c (
      Session.encode_encrypted cipher c.session NonceDirection.client_to_server msg_id context
        payload)

  -- The frames of one push.
  unfoldable pub decode_pushed :
      BapReplayClient S
      → Result StreamFramingError (List RawBapFrame)
      → Ran S (Option DecodedBapFrame)
  unfolding take_first
  decode_pushed c (err e) = ran c (err (map_framing e))
  decode_pushed c (ok frames) =
      let (s', r) = decode_all cipher c.session frames in take_first (record c { session = s' }) r

  -- One round of the loop of `read_frame`: `none` where it keeps reading.
  unfoldable pub take_read : BapReplayClient S → ReadOutcome → Ran S (Option DecodedBapFrame)
  unfolding decode_pushed
  take_read c (received []) = ran c (err (io (codes "EOF")))
  take_read c (received (b ∷ bytes)) =
      let (d', r) = push c.decoder (b ∷ bytes) in decode_pushed (record c { decoder = d' }) r
  take_read c timed_out = ran c (err (io (codes "timeout")))
  take_read c (failed e) = ran c (err (io e))

  unfoldable pub read_round : BapReplayClient S → Ran S (Option DecodedBapFrame)
  unfolding take_read not_connected
  read_round c = elim c.stream [
    | none ↦ ran c (err not_connected)
    | some s ↦ let (s', outcome) = sock.read s in take_read (record c { stream = some s' }) outcome
  ]

  -- The loop: a server may send bytes for ever without completing a frame.
  unfoldable pub read_loop : ℕ → BapReplayClient S → Ran S DecodedBapFrame
  read_loop zero c = out_of_fuel
  read_loop (suc fuel) c = elim (read_round c) [
    | ran c' (ok none) ↦ read_loop fuel c'
    | ran c' (ok (some frame)) ↦ ran c' (ok frame)
    | ran c' (err e) ↦ ran c' (err e)
    | panicked ↦ panicked
    | out_of_fuel ↦ out_of_fuel
  ]

  unfoldable pub read_frame : ℕ → BapReplayClient S → Ran S DecodedBapFrame
  unfolding read_loop
  read_frame fuel c = elim (pop c.pending) [
    | some (rest, frame) ↦ ran (record c { pending = rest }) (ok frame)
    | none ↦ read_loop fuel c
  ]

  -- A request, its reply, and the states behind the two.
  unfoldable pub clear_step :
      ℕ → BapReplayClient S → ℕ → List ℕ → SimState → ℕ → SimState → Ran S (Unit {0})
  unfolding check enter
  clear_step fuel c id payload asked reply answered =
      send_clear c id sim_context payload
      and_then (λ c1 _. read_frame fuel (enter c1 asked))
      and_then (λ c2 f. check c2 (expect_clear f reply))
      and_then (λ c3 _. ran (enter c3 answered) (ok tt))

  unfoldable pub run_handshake : ℕ → BapReplayClient S → Ran S (Unit {0})
  unfolding clear_step check enter
  run_handshake fuel c =
      clear_step fuel c msg_1e payload_1e LocalProtocol.sim_1e_sent msg_1f LocalProtocol.sim_1f_sent
      and_then (λ c1 _.
          clear_step fuel c1 msg_19 payload_19 LocalProtocol.sim_19_sent msg_1a
            LocalProtocol.sim_1a_sent)
      and_then (λ c2 _. send_encrypted c2 msg_79 sim_context payload_79)
      and_then (λ c3 _. read_frame fuel (enter c3 LocalProtocol.sim_79_sent))
      and_then (λ c4 f. check c4 (expect_decrypted f msg_7a))
      and_then (λ c5 _.
          ran (enter (enter c5 LocalProtocol.sim_7a_sent) LocalProtocol.sim_ready) (ok tt))

  unfoldable pub encrypted_step : ℕ → BapReplayClient S → ℕ → List ℕ → ℕ → Ran S (Unit {0})
  unfolding check
  encrypted_step fuel c id payload reply =
      send_encrypted c id sim_context payload
      and_then (λ c1 _. read_frame fuel c1)
      and_then (λ c2 f. check c2 (expect_decrypted f reply))

  unfoldable pub encrypted_pair : ℕ → BapReplayClient S → Ran S (Unit {0})
  unfolding encrypted_step
  encrypted_pair fuel c =
      encrypted_step fuel c msg_syn_a payload_syn_a msg_syn_a_rsp
      and_then (λ c1 _. encrypted_step fuel c1 msg_syn_b payload_syn_b msg_syn_b_rsp)

  unfoldable pub sequence_in : ℕ → BapReplayClient S → SimState → Ran S (Unit {0})
  unfolding encrypted_pair
  sequence_in fuel c LocalProtocol.sim_ready = encrypted_pair fuel c
  sequence_in fuel c _ = ran c (err (protocol (codes "encrypted sequence requires SIM_READY")))

  unfoldable pub run_encrypted_sequence : ℕ → BapReplayClient S → Ran S (Unit {0})
  unfolding sequence_in
  run_encrypted_sequence fuel c = sequence_in fuel c c.sim_state

  unfoldable pub send_step : BapReplayClient S → ReplayStep → ℕ → List ℕ → Ran S (Unit {0})
  unfolding step_context
  send_step c step msg_id payload =
      if step.is_encrypted
      then send_encrypted c msg_id (step_context step) payload
      else send_clear c msg_id (step_context step) payload

  unfoldable pub read_step : ℕ → BapReplayClient S → ReplayStep → ℕ → Ran S (Unit {0})
  unfolding check
  read_step fuel c step msg_id = read_frame fuel c and_then (λ c1 f.
      check c1 (if step.is_encrypted then expect_decrypted f msg_id else expect_clear f msg_id))

  unfoldable pub run_directed_step :
      ℕ
      → BapReplayClient S
      → ReplayStep
      → ℕ
      → Call (Result LocalProtocolError (List ℕ))
      → Ran S (Unit {0})
  unfolding send_step read_step
  run_directed_step fuel c step msg_id panics = panicked
  run_directed_step fuel c step msg_id (returns (err e)) = ran c (err (fixture e))
  run_directed_step fuel c step msg_id (returns (ok payload)) =
      if text_eq step.direction (codes "C2S")
      then send_step c step msg_id payload
      else if text_eq step.direction (codes "S2C")
      then read_step fuel c step msg_id
      else ran c (err (protocol (codes "bad direction " ++ step.direction)))

  unfoldable pub run_step : ℕ → BapReplayClient S → ReplayStep → Ran S (Unit {0})
  unfolding run_directed_step step_payload
  run_step fuel c step = elim (parse_msg_id step.id) [
    | err e ↦ ran c (err (fixture e))
    | ok msg_id ↦ run_directed_step fuel c step msg_id (step_payload step msg_id)
  ]

  unfoldable pub run_steps : ℕ → BapReplayClient S → List ReplayStep → Ran S (Unit {0})
  run_steps fuel c [] = ran c (ok tt)
  run_steps fuel c (step ∷ rest) = run_step fuel c step and_then (λ c1 _. run_steps fuel c1 rest)

  unfoldable pub run_fixture : ℕ → BapReplayClient S → HandshakeReplayFixture → Ran S (Unit {0})
  unfolding run_steps enter
  run_fixture fuel c fx =
      if text_eq fx.protocol_label (codes "SIMULATED_HANDSHAKE")
      then run_steps fuel c fx.steps
        and_then (λ c1 _. ran (enter c1 LocalProtocol.sim_ready) (ok tt))
      else ran c (
          err (protocol (codes "unsupported protocol label '" ++ (fx.protocol_label ++ codes "'"))))
