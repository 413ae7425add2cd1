-- ===== src/Protocol/Graph.antt =====
-- The state machine as a graph: which moves a message can make.
use destiny1_pc_project.Prelude.{ℕ, ◌≡◌, refl, ◌⊎◌, inl, inr, arith, ◌==◌, ==→eq, Bool-cases, ok}
use destiny1_pc_project.Codec
use destiny1_pc_project.Codec.{BapMessage, Direction}
use destiny1_pc_project.Protocol.{
  ProtocolState, connected, waiting_for_service_handshake, service_handshake_complete,
  waiting_for_session_login, session_established, waiting_for_encrypted_handshake,
  encrypted_channel_established, active, closing, closed, expected_c2s, await_id, match_state,
  checked, transition, apply_transition,
}

-- The moves of the diagram, with the message id that makes each.
pub data Move (id : ℕ) (dir : Direction) (from to : ProtocolState) : Type 0 where
  service :
      from ≡ waiting_for_service_handshake
      → to ≡ service_handshake_complete
      → id ≡ 0x1E
      → dir ≡ Direction.client_to_server
      → Move id dir from to
  login :
      (from ≡ service_handshake_complete) ⊎ (from ≡ waiting_for_session_login)
      → to ≡ session_established
      → id ≡ 0x19
      → dir ≡ Direction.client_to_server
      → Move id dir from to
  encrypt :
      from ≡ session_established
      → to ≡ waiting_for_encrypted_handshake
      → id ≡ 0x79
      → dir ≡ Direction.client_to_server
      → Move id dir from to
  activate : from ≡ encrypted_channel_established → to ≡ active → Move id dir from to

-- One waiting state: it stays, or its id moves it.
await_moves :
    (state to to' : ProtocolState) (wanted id : ℕ)
    → apply_transition state (await_id state wanted to' id) ≡ ok to
    → (to ≡ state) ⊎ ((id ≡ wanted) × (to ≡ to'))
unfolding await_id apply_transition
await_moves state to to' wanted id h = elim (Bool-cases (id == wanted)) [
  | inl e ↦ inr (==→eq id wanted e, ground arith)
  | inr e ↦ inl (ground arith)
]

-- The ids of the handshake come from the client.
abbrev FromClient : ℕ → Direction → Type 0
FromClient id dir =
    (id ≡ 0x1E → dir ≡ Direction.client_to_server)
    × (id ≡ 0x19 → dir ≡ Direction.client_to_server)
    × (id ≡ 0x79 → dir ≡ Direction.client_to_server)

match_state-Move :
    (state to : ProtocolState) (id : ℕ) (dir : Direction)
    → FromClient id dir
    → apply_transition state (match_state state id) ≡ ok to
    → (to ≡ state) ⊎ Move id dir state to
unfolding match_state
match_state-Move connected to id dir c h = absurd (unfold apply_transition in ground arith)
match_state-Move waiting_for_service_handshake to id dir c h =
    elim (await_moves waiting_for_service_handshake to service_handshake_complete 0x1E id h) [
      | inl e ↦ inl e
      | inr (e, f) ↦ inr (service refl f e (c.0 e))
    ]
match_state-Move service_handshake_complete to id dir c h =
    elim (await_moves service_handshake_complete to session_established 0x19 id h) [
      | inl e ↦ inl e
      | inr (e, f) ↦ inr (login (inl refl) f e (c.1 e))
    ]
match_state-Move waiting_for_session_login to id dir c h =
    elim (await_moves waiting_for_session_login to session_established 0x19 id h) [
      | inl e ↦ inl e
      | inr (e, f) ↦ inr (login (inr refl) f e (c.1 e))
    ]
match_state-Move session_established to id dir c h =
    elim (await_moves session_established to waiting_for_encrypted_handshake 0x79 id h) [
      | inl e ↦ inl e
      | inr (e, f) ↦ inr (encrypt refl f e (c.2 e))
    ]
match_state-Move waiting_for_encrypted_handshake to id dir c h =
    inl (unfold apply_transition in ground arith)
match_state-Move encrypted_channel_established to id dir c h =
    inr (activate refl (unfold apply_transition in ground arith))
match_state-Move active to id dir c h = inl (unfold apply_transition in ground arith)
match_state-Move closing to id dir c h = absurd (unfold apply_transition in ground arith)
match_state-Move closed to id dir c h = absurd (unfold apply_transition in ground arith)

checked-Move :
    (state to : ProtocolState) (id : ℕ) (dir : Direction)
    → apply_transition state (checked state id dir) ≡ ok to
    → (to ≡ state) ⊎ Move id dir state to
checked-Move state to id dir h =
    match_state-Move state to id dir
      (
        λ e. unfold checked expected_c2s apply_transition in ground arith,
        λ e. unfold checked expected_c2s apply_transition in ground arith,
        λ e. unfold checked expected_c2s apply_transition in ground arith,
      )
      (unfold checked apply_transition in ground arith)

-- An accepted message leaves the state as it is, or makes a move of the diagram.
pub transition-Move :
    (state to : ProtocolState) (message : BapMessage)
    → apply_transition state (transition state message) ≡ ok to
    → (to ≡ state) ⊎ Move (Codec.id message) (Codec.direction message) state to
unfolding transition
transition-Move closed to message h = absurd (unfold apply_transition in ground arith)
transition-Move closing to message h = absurd (unfold apply_transition in ground arith)
transition-Move state to message h =
    checked-Move state to (Codec.id message) (Codec.direction message) h
