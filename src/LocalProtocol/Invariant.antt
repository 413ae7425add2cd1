-- ===== src/LocalProtocol/Invariant.antt =====
-- The state of the dispatcher against the actions that it returns.
use destiny1_pc_project.Prelude.{
  ℕ, ◌≡◌, refl, Bool, true, false, arith, Option, none, some, List, [], ◌∷◌,
}
use destiny1_pc_project.Session.{DecodedBapFrame}
use destiny1_pc_project.LocalProtocol.{
  SimState, sim_start, sim_1e_sent, sim_1f_sent, sim_19_sent, sim_1a_sent, sim_79_sent, sim_7a_sent,
  sim_ready, ServerAction, change_state, LocalMessageDispatcher, clear_in, unexpected_clear,
  dispatch_clear, encrypted_in, unexpected_encrypted, dispatch_encrypted, dispatch_inbound,
}

-- The state that a list of actions leads to.
unfoldable pub last_state : SimState → List ServerAction → SimState
last_state s [] = s
last_state s (change_state to ∷ rest) = last_state to rest
last_state s (_ ∷ rest) = last_state s rest

-- The dispatcher rests in one of four states, and expects encryption in the last two.
unfoldable pub encrypts : SimState → Option Bool
encrypts sim_start = some false
encrypts sim_1f_sent = some false
encrypts sim_1a_sent = some true
encrypts sim_ready = some true
encrypts _ = none

abbrev pub IsResting : LocalMessageDispatcher → Type 0
IsResting d = encrypts d.state ≡ some d.crypto_expected

clear_in-state :
    (s : SimState) (d : LocalMessageDispatcher) (id : ℕ)
    → d.state ≡ s
    → (clear_in s d id).0.state ≡ last_state s (clear_in s d id).1
unfolding clear_in unexpected_clear last_state
clear_in-state sim_start d id h = ground arith
clear_in-state sim_1e_sent d id h = ground arith
clear_in-state sim_1f_sent d id h = ground arith
clear_in-state sim_19_sent d id h = ground arith
clear_in-state sim_1a_sent d id h = ground arith
clear_in-state sim_79_sent d id h = ground arith
clear_in-state sim_7a_sent d id h = ground arith
clear_in-state sim_ready d id h = ground arith

encrypted_in-state :
    (s : SimState) (d : LocalMessageDispatcher) (id : ℕ)
    → d.state ≡ s
    → (encrypted_in s d id).0.state ≡ last_state s (encrypted_in s d id).1
unfolding encrypted_in unexpected_encrypted last_state
encrypted_in-state sim_start d id h = ground arith
encrypted_in-state sim_1e_sent d id h = ground arith
encrypted_in-state sim_1f_sent d id h = ground arith
encrypted_in-state sim_19_sent d id h = ground arith
encrypted_in-state sim_1a_sent d id h = ground arith
encrypted_in-state sim_79_sent d id h = ground arith
encrypted_in-state sim_7a_sent d id h = ground arith
encrypted_in-state sim_ready d id h = ground arith

clear_in-IsResting :
    (s : SimState) (d : LocalMessageDispatcher) (id : ℕ)
    → d.state ≡ s
    → IsResting d
    → IsResting (clear_in s d id).0
unfolding clear_in unexpected_clear encrypts
clear_in-IsResting sim_start d id h k = ground arith
clear_in-IsResting sim_1e_sent d id h k = ground arith
clear_in-IsResting sim_1f_sent d id h k = ground arith
clear_in-IsResting sim_19_sent d id h k = ground arith
clear_in-IsResting sim_1a_sent d id h k = ground arith
clear_in-IsResting sim_79_sent d id h k = ground arith
clear_in-IsResting sim_7a_sent d id h k = ground arith
clear_in-IsResting sim_ready d id h k = ground arith

encrypted_in-IsResting :
    (s : SimState) (d : LocalMessageDispatcher) (id : ℕ)
    → d.state ≡ s
    → IsResting d
    → IsResting (encrypted_in s d id).0
unfolding encrypted_in unexpected_encrypted encrypts
encrypted_in-IsResting sim_start d id h k = ground arith
encrypted_in-IsResting sim_1e_sent d id h k = ground arith
encrypted_in-IsResting sim_1f_sent d id h k = ground arith
encrypted_in-IsResting sim_19_sent d id h k = ground arith
encrypted_in-IsResting sim_1a_sent d id h k = ground arith
encrypted_in-IsResting sim_79_sent d id h k = ground arith
encrypted_in-IsResting sim_7a_sent d id h k = ground arith
encrypted_in-IsResting sim_ready d id h k = ground arith

-- A dispatcher that rests goes to the state that its last state change names, or stays where there is
-- none, and rests again: encryption is expected exactly from `0x1A` on.
pub dispatch_inbound-IsResting :
    (d : LocalMessageDispatcher) (frame : DecodedBapFrame)
    → IsResting d
    → ((dispatch_inbound d frame).0.state ≡ last_state d.state (dispatch_inbound d frame).1)
      × IsResting (dispatch_inbound d frame).0
unfolding dispatch_inbound dispatch_clear dispatch_encrypted last_state
dispatch_inbound-IsResting d (DecodedBapFrame.clear id ctx payload) h =
    (clear_in-state d.state d id refl, clear_in-IsResting d.state d id refl h)
dispatch_inbound-IsResting d (DecodedBapFrame.decrypted (some id) ctx payload n) h =
    (encrypted_in-state d.state d id refl, encrypted_in-IsResting d.state d id refl h)
dispatch_inbound-IsResting d (DecodedBapFrame.decrypted none ctx payload n) h = (refl, h)
dispatch_inbound-IsResting d (DecodedBapFrame.opaque kind n) h = (refl, h)
