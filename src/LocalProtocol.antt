-- ===== src/LocalProtocol.antt =====
-- network/src/local_protocol.rs: the dispatcher of the simulated handshake, fixtures and hex texts.
pub mod Hex
pub mod Invariant
pub mod Agreement
use destiny1_pc_project.Prelude.{
  ℕ, Bool, true, false, not, ◌&&◌, Option, none, some, List, [], ◌∷◌, ◌++◌, ◌==◌, ◌%◌,
  if◌then◌else◌, length, Text, codes, hex02, hex04, utf8, trim, strip_prefix, u8_from_hex,
  u16_from_hex, u16_from_decimal, parse_int_text, Result, ok, err, map_err, Call, returns, panics,
}
use destiny1_pc_project.Session.{DecodedBapFrame}
use destiny1_pc_project.Events.{synthetic_session_key, synthetic_session_nonce}
use destiny1_pc_project.Policy.{
  sim_context, payload_1f, payload_1a, payload_7a, payload_fb, payload_syn_a_rsp, payload_syn_b_rsp,
}

abbrev pub msg_1e : ℕ
msg_1e = 0x1E

abbrev pub msg_1f : ℕ
msg_1f = 0x1F

abbrev pub msg_19 : ℕ
msg_19 = 0x19

abbrev pub msg_1a : ℕ
msg_1a = 0x1A

abbrev pub msg_79 : ℕ
msg_79 = 0x79

abbrev pub msg_7a : ℕ
msg_7a = 0x7A

abbrev pub msg_syn_a : ℕ
msg_syn_a = 0x0A0A

abbrev pub msg_syn_a_rsp : ℕ
msg_syn_a_rsp = 0x0A0B

abbrev pub msg_syn_b : ℕ
msg_syn_b = 0x0B0B

abbrev pub msg_syn_b_rsp : ℕ
msg_syn_b_rsp = 0x0B0C

unfoldable pub payload_1e : List ℕ
payload_1e = codes "SIM_1E"

unfoldable pub payload_19 : List ℕ
payload_19 = codes "SIM_19"

unfoldable pub payload_79 : List ℕ
payload_79 = codes "SIM_79"

unfoldable pub payload_fa : List ℕ
payload_fa = codes "SIM_FA"

unfoldable pub payload_syn_a : List ℕ
payload_syn_a = codes "SYN_ENC_A"

unfoldable pub payload_syn_b : List ℕ
payload_syn_b = codes "SYN_ENC_B"

pub data SimState : Type 0 where
  sim_start sim_1e_sent sim_1f_sent sim_19_sent : SimState
  sim_1a_sent sim_79_sent sim_7a_sent sim_ready : SimState

unfoldable pub as_str : SimState → Text
as_str sim_start = codes "SIM_START"
as_str sim_1e_sent = codes "SIM_1E_SENT"
as_str sim_1f_sent = codes "SIM_1F_SENT"
as_str sim_19_sent = codes "SIM_19_SENT"
as_str sim_1a_sent = codes "SIM_1A_SENT"
as_str sim_79_sent = codes "SIM_79_SENT"
as_str sim_7a_sent = codes "SIM_7A_SENT"
as_str sim_ready = codes "SIM_READY"

pub data ProtocolErrorKind : Type 0 where
  unexpected_message auth_crypto_error gcm_decrypt_failure protocol_error invalid_frame :
      ProtocolErrorKind

unfoldable pub kind_str : ProtocolErrorKind → Text
kind_str unexpected_message = codes "UNEXPECTED_MESSAGE"
kind_str auth_crypto_error = codes "AUTH/CRYPTO ERROR"
kind_str gcm_decrypt_failure = codes "GCM DECRYPT FAILURE"
kind_str protocol_error = codes "PROTOCOL_ERROR"
kind_str invalid_frame = codes "INVALID_FRAME"

pub data ServerAction : Type 0 where
  -- msg_id, context, payload
  send_clear : ℕ → ℕ → List ℕ → ServerAction
  send_encrypted : ℕ → ℕ → List ℕ → ServerAction
  change_state : SimState → ServerAction
  close_connection ignore : ServerAction
  -- kind, detail
  protocol_failure : ProtocolErrorKind → Text → ServerAction

pub data LocalProtocolError : Type 0 where
  protocol : Text → LocalProtocolError

pub record ServerTraceEvent : Type 0 where
  pub timestamp : Option Text
  pub connection_id : ℕ
  pub direction : Text
  pub message_id : Option ℕ
  pub context : Option ℕ
  pub state : Text
  pub action : Text

unfoldable pub without_timestamp : ServerTraceEvent → ServerTraceEvent
without_timestamp e = record e { timestamp = none }

pub record LocalMessageDispatcher : Type 0 where
  pub state : SimState
  pub crypto_expected : Bool

unfoldable pub new : LocalMessageDispatcher
new = record { state = sim_start; crypto_expected = false }

abbrev Dispatched : Type 0
Dispatched = LocalMessageDispatcher × List ServerAction

unfoldable pub unexpected_clear : LocalMessageDispatcher → ℕ → Dispatched
unexpected_clear d msg_id = (
  d,
  protocol_failure unexpected_message
        (codes "unexpected clear 0x" ++ (hex04 msg_id ++ (codes " in " ++ as_str d.state)))
      ∷ [],
)

-- The arms by state.
unfoldable pub clear_in : SimState → LocalMessageDispatcher → ℕ → Dispatched
unfolding unexpected_clear
clear_in sim_start d msg_id =
    if msg_id == msg_1e
    then (
      record d { state = sim_1f_sent },
      change_state sim_1e_sent
          ∷ send_clear msg_1f sim_context payload_1f
          ∷ change_state sim_1f_sent
          ∷ [],
    )
    else unexpected_clear d msg_id
clear_in sim_1f_sent d msg_id =
    if msg_id == msg_19
    then (
      record { state = sim_1a_sent; crypto_expected = true },
      change_state sim_19_sent
          ∷ send_clear msg_1a sim_context payload_1a
          ∷ change_state sim_1a_sent
          ∷ [],
    )
    else unexpected_clear d msg_id
clear_in _ d msg_id = unexpected_clear d msg_id

unfoldable pub dispatch_clear : LocalMessageDispatcher → ℕ → Dispatched
unfolding clear_in
dispatch_clear d msg_id = clear_in d.state d msg_id

-- The last two arms.
unfoldable pub unexpected_encrypted : LocalMessageDispatcher → ℕ → Dispatched
unexpected_encrypted d msg_id = (
  d,
  protocol_failure unexpected_message (
        if msg_id == msg_7a
        then codes "0x7A before 0x79 (state " ++ (as_str d.state ++ codes ")")
        else codes "unexpected encrypted 0x" ++ (hex04 msg_id ++ (codes " in " ++ as_str d.state)))
      ∷ [],
)

unfoldable pub encrypted_in : SimState → LocalMessageDispatcher → ℕ → Dispatched
unfolding unexpected_encrypted
encrypted_in sim_1a_sent d msg_id =
    if msg_id == msg_79
    then (
      record d { state = sim_ready },
      change_state sim_79_sent
          ∷ send_encrypted msg_7a sim_context payload_7a
          ∷ change_state sim_7a_sent
          ∷ change_state sim_ready
          ∷ [],
    )
    else unexpected_encrypted d msg_id
encrypted_in sim_ready d msg_id =
    if msg_id == msg_syn_a
    then (d, send_encrypted msg_syn_a_rsp sim_context payload_syn_a_rsp ∷ [])
    else if msg_id == msg_syn_b
    then (d, send_encrypted msg_syn_b_rsp sim_context payload_syn_b_rsp ∷ [])
    else unexpected_encrypted d msg_id
encrypted_in _ d msg_id = unexpected_encrypted d msg_id

unfoldable pub dispatch_encrypted : LocalMessageDispatcher → ℕ → Dispatched
unfolding encrypted_in
dispatch_encrypted d msg_id = encrypted_in d.state d msg_id

unfoldable pub dispatch_inbound : LocalMessageDispatcher → DecodedBapFrame → Dispatched
unfolding dispatch_clear dispatch_encrypted
dispatch_inbound d (DecodedBapFrame.clear msg_id context payload) = dispatch_clear d msg_id
dispatch_inbound d (DecodedBapFrame.decrypted (some msg_id) context payload n) =
    dispatch_encrypted d msg_id
dispatch_inbound d (DecodedBapFrame.decrypted none context payload n) =
    (d, protocol_failure protocol_error (codes "encrypted plaintext too short for msg_id") ∷ [])
dispatch_inbound d (DecodedBapFrame.opaque kind n) =
    (d, protocol_failure invalid_frame (codes "opaque/unsupported kind 0x" ++ hex02 kind) ∷ [])

pub record ReplayStep : Type 0 where
  pub direction : Text
  pub id : Text
  pub is_encrypted : Bool
  pub payload_hex : Option Text
  pub context : Option ℕ

pub record HandshakeReplayFixture : Type 0 where
  pub name : Text
  pub protocol_label : Text
  pub steps : List ReplayStep

pub record CryptoFixture : Type 0 where
  pub name : Text
  pub session_key_hex : Text
  pub session_nonce_hex : Text
  pub note : Text

unfoldable pub hex_encode : List ℕ → Text
hex_encode [] = []
hex_encode (b ∷ bs) = hex02 b ++ hex_encode bs

unfoldable pub synthetic_default : CryptoFixture
unfolding hex_encode
synthetic_default = record {
  name = codes "synthetic-local-server";
  session_key_hex = hex_encode synthetic_session_key;
  session_nonce_hex = hex_encode synthetic_session_nonce;
  note = codes "SYNTHETIC ONLY — not from captures; never print decoded key/nonce in logs";
}

abbrev Parsed : Type 0 → Type 0
Parsed A = Result LocalProtocolError A

-- One byte in front of those of the pairs behind it.
unfoldable pub push_byte : ℕ → Call (Parsed (List ℕ)) → Call (Parsed (List ℕ))
push_byte b (returns (ok bs)) = returns (ok (b ∷ bs))
push_byte b (returns (err e)) = returns (err e)
push_byte b panics = panics

-- The loop over `chars`. `chars[i + 1]` panics behind the last character.
unfoldable pub hex_pairs : Text → Call (Parsed (List ℕ))
unfolding push_byte
hex_pairs [] = returns (ok [])
hex_pairs (c ∷ []) = panics
hex_pairs (c ∷ d ∷ cs) = elim (u8_from_hex (c ∷ d ∷ [])) [
  | err e ↦ returns (err (protocol (parse_int_text e)))
  | ok b ↦ push_byte b (hex_pairs cs)
]

-- The length is that of the bytes, the loop runs over the characters.
unfoldable pub hex_decode : Text → Call (Parsed (List ℕ))
hex_decode s =
    let t = trim s in
    if not (length (utf8 t) % 2 == 0)
    then returns (err (protocol (codes "odd hex length")))
    else hex_pairs t

unfoldable pub key_bytes : CryptoFixture → Call (Parsed (List ℕ))
key_bytes f = hex_decode f.session_key_hex

unfoldable pub nonce_bytes : CryptoFixture → Call (Parsed (List ℕ))
nonce_bytes f = hex_decode f.session_nonce_hex

-- `strip_prefix("0x").or_else(|| strip_prefix("0X"))`.
unfoldable pub strip_0x : Text → Option Text
strip_0x t = elim (strip_prefix (codes "0x") t) [
  | some hex ↦ some hex
  | none ↦ strip_prefix (codes "0X") t
]

unfoldable pub parse_msg_id : Text → Parsed ℕ
unfolding strip_0x
parse_msg_id s =
    map_err (λ e. protocol (parse_int_text e))
      (elim (strip_0x (trim s)) [ some hex ↦ u16_from_hex hex | none ↦ u16_from_decimal (trim s) ])

unfoldable pub payload_for_msg : ℕ → List ℕ
payload_for_msg msg_id =
    if msg_id == msg_1e
    then payload_1e
    else if msg_id == msg_1f
    then payload_1f
    else if msg_id == msg_19
    then payload_19
    else if msg_id == msg_1a
    then payload_1a
    else if msg_id == msg_79
    then payload_79
    else if msg_id == msg_7a
    then payload_7a
    else if msg_id == msg_syn_a
    then payload_syn_a
    else if msg_id == msg_syn_a_rsp
    then payload_syn_a_rsp
    else if msg_id == msg_syn_b
    then payload_syn_b
    else if msg_id == msg_syn_b_rsp
    then payload_syn_b_rsp
    else codes "SIM_UNKNOWN"
