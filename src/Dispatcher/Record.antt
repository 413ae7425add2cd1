-- ===== src/Dispatcher/Record.antt =====
-- What a run of `dispatch` leaves in the dispatcher.
use destiny1_pc_project.Prelude.{
  ℕ, ◌≡◌, refl, ◌||◌, arith, List, [], ◌∷◌, ◌++◌, append-nil, append_assoc, Bool-cases, inl, inr,
  ◌==◌, if◌then◌else◌,
}
use destiny1_pc_project.Codec
use destiny1_pc_project.Codec.{BapMessage, KnownBapMessage, known_id}
use destiny1_pc_project.Dispatcher.{
  DispatchResult, handled, MessageDispatcher, event, note_kind, note_known, record_id, dispatch,
}

-- A run of `dispatch`: the dispatcher at the end, and the results.
unfoldable pub dispatch_all :
    MessageDispatcher → List BapMessage → MessageDispatcher × List DispatchResult
dispatch_all d [] = (d, [])
dispatch_all d (m ∷ rest) =
    let (d', r) = dispatch d m in let (d'', rs) = dispatch_all d' rest in (d'', r ∷ rs)

unfoldable pub ids : List BapMessage → List ℕ
ids [] = []
ids (m ∷ rest) = Codec.id m ∷ ids rest

unfoldable pub outcomes : List BapMessage → List DispatchResult
outcomes [] = []
outcomes (m ∷ rest) = (if Codec.is_known m then handled else DispatchResult.unknown) ∷ outcomes rest

note_kind-last_ids :
    (d : MessageDispatcher) (k : KnownBapMessage)
    → (note_kind d k).state.last_ids ≡ d.state.last_ids
unfolding note_kind
note_kind-last_ids d (Codec.destiny_service_handshake_request o) = refl
note_kind-last_ids d (Codec.destiny_service_handshake_response o) = refl
note_kind-last_ids d (Codec.session_login_request o) = refl
note_kind-last_ids d (Codec.session_login_response c dir r p) = refl
note_kind-last_ids d (Codec.encrypted_handshake_request o) = refl
note_kind-last_ids d (Codec.encrypted_handshake_status o) = refl
note_kind-last_ids d (Codec.message_0x12e o) = refl
note_kind-last_ids d (Codec.message_0x12f o) = refl
note_kind-last_ids d (Codec.message_0xfa o) = refl
note_kind-last_ids d (Codec.message_0xfb o) = refl

note_known-last_ids :
    (d : MessageDispatcher) (k : KnownBapMessage)
    → (note_known d k).state.last_ids ≡ d.state.last_ids
unfolding note_known event
note_known-last_ids d k = elim (Bool-cases (known_id k == 0x79 || known_id k == 0x7A)) [
  | inl e ↦ ground (arith, note_kind-last_ids d k)
  | inr e ↦ ground (arith, note_kind-last_ids d k)
]

dispatch-last_ids :
    (d : MessageDispatcher) (m : BapMessage)
    → ((dispatch d m).0.state.last_ids ≡ d.state.last_ids ++ (Codec.id m ∷ []))
      × ((dispatch d m).1 ≡ (if Codec.is_known m then handled else DispatchResult.unknown))
unfolding dispatch Codec.is_known Codec.id
dispatch-last_ids d (Codec.unknown u) = (refl, refl)
dispatch-last_ids d (Codec.known k) = (note_known-last_ids (record_id d (known_id k)) k, refl)

-- A run of `dispatch` records the id of every message, in order, behind the ids recorded before, and
-- handles just the messages with a codec.
pub dispatch_all-ids :
    (d : MessageDispatcher) (messages : List BapMessage)
    → ((dispatch_all d messages).0.state.last_ids ≡ d.state.last_ids ++ ids messages)
      × ((dispatch_all d messages).1 ≡ outcomes messages)
unfolding dispatch_all ids outcomes
dispatch_all-ids d [] = (ground (arith, append-nil d.state.last_ids), refl)
dispatch_all-ids d (m ∷ rest) =
    let (i, r) = dispatch-last_ids d m in
    let (is, rs) = dispatch_all-ids (dispatch d m).0 rest in
    (ground (arith, append_assoc d.state.last_ids (Codec.id m ∷ []) (ids rest)), ground arith)
