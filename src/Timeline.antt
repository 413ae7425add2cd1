-- ===== src/Timeline.antt =====
-- network/src/timeline.rs: the frames of a capture in the order of their times.
pub mod Order
use destiny1_pc_project.Prelude.{
  ℕ, ◌+◌, ◌/◌, ◌%◌, Bool, true, false, Option, none, some, List, [], ◌∷◌, ◌++◌, map, length,
  is_empty, ltb, leb, ◌==◌, if◌then◌else◌, Text, codes, decimal, hex, hex02, pad_zeros,
}
use destiny1_pc_project.Framing.{BapFrame, FrameKind, FrameBody}
use destiny1_pc_project.Codec.{Direction}
use destiny1_pc_project.Messages
use destiny1_pc_project.Messages.{MessageClass, classify}
use destiny1_pc_project.Evidence.{EvidenceRecord, short}

pub record TimelineEntry : Type 0 where
  pub timestamp_ms : ℕ
  pub direction : Direction
  pub kind : FrameKind
  pub message_id : Option ℕ
  pub message_name : Option Text
  pub message_class : Option MessageClass
  pub context : Option ℕ
  pub payload_length : ℕ

unfoldable pub class_of : Option ℕ → Option MessageClass
class_of none = none
class_of (some id) = some (classify id)

unfoldable pub name_of : Option ℕ → Option Text
name_of none = none
name_of (some id) = Messages.name (classify id)

unfoldable pub id_of : FrameBody → Option ℕ
id_of (FrameBody.clear c) = some c.msg_id
id_of (FrameBody.encrypted e) = none
id_of (FrameBody.opaque b) = none

unfoldable pub context_of : FrameBody → Option ℕ
context_of (FrameBody.clear c) = some c.context
context_of (FrameBody.encrypted e) = none
context_of (FrameBody.opaque b) = none

unfoldable pub length_of : FrameBody → ℕ
length_of (FrameBody.clear c) = length c.payload
length_of (FrameBody.encrypted e) = 16 + length e.ciphertext
length_of (FrameBody.opaque b) = length b

unfoldable pub from_parts : ℕ → Direction → BapFrame → TimelineEntry
unfolding class_of name_of id_of context_of length_of
from_parts timestamp_ms direction frame = record {
  timestamp_ms = timestamp_ms;
  direction = direction;
  kind = frame.kind;
  message_id = id_of frame.body;
  message_name = name_of (id_of frame.body);
  message_class = class_of (id_of frame.body);
  context = context_of frame.body;
  payload_length = length_of frame.body;
}

-- `TimelineEntry::from_evidence`.
unfoldable pub entry_of : EvidenceRecord → TimelineEntry
unfolding from_parts
entry_of r = from_parts r.timestamp_ms r.direction r.frame

unfoldable pub format_timestamp_ms : ℕ → Text
format_timestamp_ms ms =
    let total_secs = ms / 1000 in
    let millis = ms % 1000 in
    let mins = total_secs / 60 in
    let secs = total_secs % 60 in
    pad_zeros 2 (decimal mins)
    ++ (codes ":" ++ (pad_zeros 2 (decimal secs) ++ (codes "." ++ pad_zeros 3 (decimal millis))))

unfoldable pub kind_text : FrameKind → Text
kind_text FrameKind.encrypted = codes "encrypted"
kind_text (FrameKind.other k) = codes "kind=0x" ++ hex02 k
kind_text FrameKind.clear = codes "clear?"

unfoldable pub id_text : TimelineEntry → Text
unfolding kind_text
id_text e = elim e.message_id [ some id ↦ codes "0x" ++ hex id | none ↦ kind_text e.kind ]

unfoldable pub format_line : TimelineEntry → Text
unfolding format_timestamp_ms id_text
format_line e =
    let ts = format_timestamp_ms e.timestamp_ms in
    let dir = short e.direction in
    let id = id_text e in
    let name : Text = elim e.message_name [ some name ↦ name | none ↦ [] ] in
    let line = ts ++ (codes "  " ++ (dir ++ (codes "  " ++ id))) in
    if is_empty name then line else line ++ (codes "  " ++ name)

unfoldable pub direction_order : Direction → ℕ
direction_order Direction.client_to_server = 0
direction_order Direction.server_to_client = 1

-- `<=` of the pairs of time and direction.
unfoldable pub key_leb : TimelineEntry → TimelineEntry → Bool
unfolding direction_order
key_leb a b =
    if ltb a.timestamp_ms b.timestamp_ms
    then true
    else if a.timestamp_ms == b.timestamp_ms
    then leb (direction_order a.direction) (direction_order b.direction)
    else false

-- `sort_by_key`, which keeps the order of entries with the same key.
unfoldable pub insert_entry : TimelineEntry → List TimelineEntry → List TimelineEntry
insert_entry e [] = e ∷ []
insert_entry e (x ∷ xs) =
    let rest = insert_entry e xs in if key_leb e x then e ∷ x ∷ xs else x ∷ rest

unfoldable pub sort_by_key : List TimelineEntry → List TimelineEntry
unfolding insert_entry
sort_by_key [] = []
sort_by_key (e ∷ es) = insert_entry e (sort_by_key es)

pub record Timeline : Type 0 where
  pub entries : List TimelineEntry

unfoldable pub new : Timeline
new = record { entries = [] }

unfoldable pub from_evidence : List EvidenceRecord → Timeline
unfolding sort_by_key entry_of
from_evidence records = record { entries = sort_by_key (map entry_of records) }

unfoldable pub push : Timeline → TimelineEntry → Timeline
push t entry = record t { entries = t.entries ++ (entry ∷ []) }

unfoldable pub sort : Timeline → Timeline
unfolding sort_by_key
sort t = record t { entries = sort_by_key t.entries }

unfoldable pub format_lines : Timeline → List Text
unfolding format_line
format_lines t = map format_line t.entries
