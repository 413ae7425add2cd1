-- ===== src/Codec/RoundTrip.antt =====
-- `decode_message` and `encode_message` on whole messages.
use destiny1_pc_project.Prelude.{◌≡◌, inl, inr, arith, All, IsByte, Result-cases, ok}
use destiny1_pc_project.Codec.{
  BapMessageEnvelope, BapMessage, id, context, direction, is_known, has_known_codec, decode_payload,
  decode_message, encode_message,
}
use destiny1_pc_project.Codec.Login.{encode_payload-decode_payload}

-- What a decoded message keeps of its envelope.
pub record Keeps (env : BapMessageEnvelope) (m : BapMessage) : Type 0 where
  pub same_id : id m ≡ env.id
  pub same_context : context m ≡ env.context
  pub same_direction : direction m ≡ env.direction
  pub known_exactly : is_known m ≡ has_known_codec env.id
  pub same_payload : encode_message m ≡ ok env.payload

keeps :
    (env : BapMessageEnvelope) (m : BapMessage)
    → All IsByte env.payload
    → decode_message env ≡ ok m
    → Keeps env m
unfolding decode_message encode_message id context direction is_known has_known_codec
keeps env m h e = elim (Result-cases (decode_payload env.payload)) [
  | inl (rec, p) ↦ ground (arith, encode_payload-decode_payload env.payload rec h p)
  | inr (x, p) ↦ ground arith
]

-- The id and the direction of a decoded message.
pub decoded_head :
    (env : BapMessageEnvelope) (m : BapMessage)
    → decode_message env ≡ ok m
    → (id m ≡ env.id) × (direction m ≡ env.direction)
unfolding decode_message id direction
decoded_head env m e = elim (Result-cases (decode_payload env.payload)) [
  | inl (rec, p) ↦ ground arith
  | inr (x, p) ↦ ground arith
]

pub decodes : (env : BapMessageEnvelope) → (m : BapMessage) × (decode_message env ≡ ok m)
decodes env = elim (Result-cases (decode_message env)) [
  | inl (m, p) ↦ (m, p)
  | inr (x, p) ↦ absurd (unfold decode_message in ground arith)
]

-- Every envelope with a payload of bytes decodes. The message has its id, context and direction, is a known one exactly for
-- the ids of the codec's list, and encodes to the same payload, `0x1A` records included.
pub decode_message-Keeps :
    (env : BapMessageEnvelope)
    → All IsByte env.payload
    → (m : BapMessage) × (decode_message env ≡ ok m) × Keeps env m
decode_message-Keeps env h = let (m, p) = decodes env in (m, p, keeps env m h p)
