-- ===== src/Policy.antt =====
-- network/src/response_policy.rs: which synthetic reply a message gets, with the ids and payloads of
-- network/src/local_protocol.rs.
use destiny1_pc_project.Prelude.{ℕ, Bool, true, ◌&&◌, ◌||◌, List, ◌==◌, if◌then◌else◌, codes}
use destiny1_pc_project.Codec
use destiny1_pc_project.Codec.{BapMessage}
use destiny1_pc_project.Protocol.{
  ProtocolState, waiting_for_service_handshake, service_handshake_complete,
  waiting_for_session_login, session_established, encrypted_channel_established, active,
}

abbrev pub sim_context : ℕ
sim_context = 1

unfoldable pub payload_1f : List ℕ
payload_1f = codes "SIM_1F"

unfoldable pub payload_1a : List ℕ
payload_1a = codes "SIM_1A"

unfoldable pub payload_7a : List ℕ
payload_7a = codes "SIM_7A"

unfoldable pub payload_fb : List ℕ
payload_fb = codes "SIM_FB"

unfoldable pub payload_syn_a_rsp : List ℕ
payload_syn_a_rsp = codes "SYN_RSP_A"

unfoldable pub payload_syn_b_rsp : List ℕ
payload_syn_b_rsp = codes "SYN_RSP_B"

pub data UnknownPolicy : Type 0 where
  observe reject : UnknownPolicy

pub data ResponseAction : Type 0 where
  -- msg_id, context, payload
  send_clear : ℕ → ℕ → List ℕ → ResponseAction
  send_encrypted : ℕ → ℕ → List ℕ → ResponseAction
  observe_only : ResponseAction
  reject : ResponseAction
  nothing : ResponseAction

pub record ResponsePolicy : Type 0 where
  pub unknown : UnknownPolicy
  pub keepalive_reply : Bool

unfoldable pub default : ResponsePolicy
default = record { unknown = UnknownPolicy.observe; keepalive_reply = true }

unfoldable pub unknown_action : UnknownPolicy → ResponseAction
unknown_action UnknownPolicy.observe = observe_only
unknown_action UnknownPolicy.reject = ResponseAction.reject

-- The arms for an established or active channel.
unfoldable pub channel_action : ResponsePolicy → BapMessage → ResponseAction
unfolding unknown_action
channel_action policy message =
    let id = Codec.id message in
    if id == 0xFA && policy.keepalive_reply
    then send_clear 0xFB (Codec.context message) payload_fb
    else if id == 0x0A0A
    then send_encrypted 0x0A0B sim_context payload_syn_a_rsp
    else if id == 0x0B0B
    then send_encrypted 0x0B0C sim_context payload_syn_b_rsp
    else if id == 0x12E || id == 0x12F
    then observe_only
    else if Codec.is_known message
    then observe_only
    else unknown_action policy.unknown

-- `decide`, from the state before the transition.
unfoldable pub decide : ResponsePolicy → ProtocolState → BapMessage → ResponseAction
decide policy waiting_for_service_handshake message =
    if Codec.id message == 0x1E then send_clear 0x1F sim_context payload_1f else nothing
decide policy service_handshake_complete message =
    if Codec.id message == 0x19 then send_clear 0x1A sim_context payload_1a else nothing
decide policy waiting_for_session_login message =
    if Codec.id message == 0x19 then send_clear 0x1A sim_context payload_1a else nothing
decide policy session_established message =
    if Codec.id message == 0x79 then send_encrypted 0x7A sim_context payload_7a else nothing
decide policy encrypted_channel_established message = channel_action policy message
decide policy active message = channel_action policy message
decide policy _ message = nothing
