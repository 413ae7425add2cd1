-- ===== src/Stateful/Begin.antt =====
-- The first state of a connection.
use destiny1_pc_project.Prelude.{ℕ, ◌≡◌, refl, ok}
use destiny1_pc_project.Context
use destiny1_pc_project.Context.Track.{start, Tracks, new-start}
use destiny1_pc_project.Session
use destiny1_pc_project.Protocol.{waiting_for_service_handshake}
use destiny1_pc_project.Nonce
use destiny1_pc_project.Events.{synthetic_session_key, synthetic_session_nonce}
use destiny1_pc_project.Stateful.{StatefulBapSession, new_synthetic}

-- A synthetic connection can always be made. It waits for the service handshake, and its session has
-- the synthetic key and nonce and has drawn no nonce.
pub new_synthetic-Tracks :
    (connection_id : ℕ)
    → (s : StatefulBapSession) × (new_synthetic connection_id ≡ ok s)
      × (s.protocol_state ≡ waiting_for_service_handshake)
      × Tracks synthetic_session_key synthetic_session_nonce start s.session.crypto
unfolding new_synthetic Session.new Context.new Nonce.initial_direction_nonce
    Nonce.apply_nonce_transform Nonce.default_transform_for Nonce.transformed
new_synthetic-Tracks connection_id =
    (_, refl, refl, (new-start synthetic_session_key synthetic_session_nonce _ refl).0)
