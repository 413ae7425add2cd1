-- ===== src/Messages.antt =====
-- network/src/messages.rs: the names of the known message ids.
use destiny1_pc_project.Prelude.{
  ℕ, Bool, true, false, Option, none, some, List, [], ◌∷◌, ◌==◌, if◌then◌else◌, Text, codes,
}

pub record MessageInfo : Type 0 where
  pub id : ℕ
  pub name : Text

pub data MessageClass : Type 0 where
  known : MessageInfo → MessageClass
  unknown : ℕ → MessageClass

unfoldable pub id : MessageClass → ℕ
id (known info) = info.id
id (unknown n) = n

unfoldable pub name : MessageClass → Option Text
name (known info) = some info.name
name (unknown n) = none

unfoldable pub is_known : MessageClass → Bool
is_known (known info) = true
is_known (unknown n) = false

unfoldable pub known_names : List (ℕ × Text)
known_names =
    (0x0A, codes "generated-completion-request")
    ∷ (0x0B, codes "generated-completion-response")
    ∷ (0x0C, codes "status-like-request")
    ∷ (0x0D, codes "status-like-response")
    ∷ (0x19, codes "session-login-request")
    ∷ (0x1A, codes "session-login-response")
    ∷ (0x1E, codes "destiny-service-handshake-request")
    ∷ (0x1F, codes "destiny-service-handshake-response")
    ∷ (0x79, codes "encrypted-handshake-request")
    ∷ (0x7A, codes "encrypted-handshake-status")
    ∷ (0xFA, codes "keepalive-request")
    ∷ (0xFB, codes "keepalive-status")
    ∷ (0x12D, codes "activity-state")
    ∷ (0x12E, codes "nat-report")
    ∷ (0x12F, codes "nat-report-status")
    ∷ []

-- `iter().find(..)`: the first entry with the id.
unfoldable pub find_name : List (ℕ × Text) → ℕ → Option Text
find_name [] n = none
find_name ((k, text) ∷ entries) n = if k == n then some text else find_name entries n

unfoldable pub lookup_name : ℕ → Option Text
lookup_name n = find_name known_names n

unfoldable pub classify : ℕ → MessageClass
classify n = elim (lookup_name n) [
  | some text ↦ known (record { id = n; name = text })
  | none ↦ unknown n
]
