-- ===== src/Framing/RoundTrip.antt =====
-- `BapFrame::parse` and `serialize` together, and the frames that fit the wire format.
use destiny1_pc_project.Prelude.{
  ℕ, suc, ◌+◌, ◌-◌, ◌<◌, ◌≤◌, ◌≡◌, ◌≢◌, refl, sym, ap, ◌∙◌, List, [], ◌∷◌, ◌++◌, arith, length,
  take, All, IsByte, IsU16, IsU32, from_be, to_be16, to_be32, from_be-to_be16, from_be-to_be32,
  from_be-IsU32, length-append, to_be16-from_be, to_be32-from_be, take-append_length,
  take-append-drop, All-take, length-take, ok, Result-cases, inl, inr,
}
use destiny1_pc_project.Framing.{
  FrameKind, FrameBody, BapFrame, parse_clear_body, ClearBody, clear_header_len, encrypted_tag_len,
  kind_clear, kind_encrypted, bap_magic, u32_limit, header_len, from_u8, as_u8, parse_body, parse,
  serialize_body, serialize,
}
use destiny1_pc_project.Framing.Bounds.{parse_bounds}

-- The kind agrees with the body, and every field has the width that the wire gives it.
abbrev pub FitsBody : FrameKind → FrameBody → Type 0
FitsBody FrameKind.clear (FrameBody.clear c) =
    IsU16 c.msg_id × IsU32 c.context × (clear_header_len + length c.payload < u32_limit)
FitsBody FrameKind.encrypted (FrameBody.encrypted e) =
    (length e.tag ≡ encrypted_tag_len) × (encrypted_tag_len + length e.ciphertext < u32_limit)
FitsBody (FrameKind.other v) (FrameBody.opaque b) =
    (v ≢ kind_clear) × (v ≢ kind_encrypted) × (length b < u32_limit)
FitsBody _ _ = ⊥

abbrev pub FitsWire : BapFrame → Type 0
FitsWire frame = FitsBody frame.kind frame.body

-- The bytes of a frame: header, then body.
unfoldable pub wire : BapFrame → List ℕ
wire frame =
    1
    ∷ as_u8 frame.kind
    ∷ (to_be32 (length (serialize_body frame.body)) ++ serialize_body frame.body)

FitsBody-length :
    (kind : FrameKind) (body : FrameBody)
    → FitsBody kind body
    → length (serialize_body body) < u32_limit
unfolding serialize_body
FitsBody-length FrameKind.clear (FrameBody.clear c) h = omega arith
FitsBody-length FrameKind.encrypted (FrameBody.encrypted e) h =
    omega (arith, length-append e.tag e.ciphertext)
FitsBody-length (FrameKind.other v) (FrameBody.opaque b) h = h.2
FitsBody-length FrameKind.clear (FrameBody.encrypted e) h = absurd h
FitsBody-length FrameKind.clear (FrameBody.opaque e) h = absurd h
FitsBody-length FrameKind.encrypted (FrameBody.clear e) h = absurd h
FitsBody-length FrameKind.encrypted (FrameBody.opaque e) h = absurd h
FitsBody-length (FrameKind.other v) (FrameBody.clear e) h = absurd h
FitsBody-length (FrameKind.other v) (FrameBody.encrypted e) h = absurd h

-- A frame that fits the wire serializes, to its header and its body.
pub serialize_ok : (frame : BapFrame) → FitsWire frame → serialize frame ≡ ok (wire frame)
unfolding serialize wire
serialize_ok frame h = ground (arith, FitsBody-length frame.kind frame.body h)

from_u8-as_u8 :
    (kind : FrameKind) (body : FrameBody) → FitsBody kind body → from_u8 (as_u8 kind) ≡ kind
unfolding from_u8 as_u8
from_u8-as_u8 FrameKind.clear body h = refl
from_u8-as_u8 FrameKind.encrypted body h = refl
from_u8-as_u8 (FrameKind.other v) (FrameBody.opaque b) h = ground arith
from_u8-as_u8 (FrameKind.other v) (FrameBody.clear e) h = absurd h
from_u8-as_u8 (FrameKind.other v) (FrameBody.encrypted e) h = absurd h

parse_body-serialize_body :
    (kind : FrameKind) (body : FrameBody)
    → FitsBody kind body
    → parse_body kind (serialize_body body) ≡ ok body
unfolding parse_body serialize_body
parse_body-serialize_body FrameKind.clear (FrameBody.clear c) h =
    ground (arith, from_be-to_be16 c.msg_id, from_be-to_be32 c.context)
parse_body-serialize_body FrameKind.encrypted (FrameBody.encrypted e) h =
    ground (arith, length-append e.tag e.ciphertext, take-append_length 16 e.tag e.ciphertext)
parse_body-serialize_body (FrameKind.other v) (FrameBody.opaque b) h = refl
parse_body-serialize_body FrameKind.clear (FrameBody.encrypted e) h = absurd h
parse_body-serialize_body FrameKind.clear (FrameBody.opaque e) h = absurd h
parse_body-serialize_body FrameKind.encrypted (FrameBody.clear e) h = absurd h
parse_body-serialize_body FrameKind.encrypted (FrameBody.opaque e) h = absurd h
parse_body-serialize_body (FrameKind.other v) (FrameBody.clear e) h = absurd h
parse_body-serialize_body (FrameKind.other v) (FrameBody.encrypted e) h = absurd h

-- `parse` reads back what `serialize` wrote, whatever follows it.
pub parse-wire :
    (frame : BapFrame) (rest : List ℕ)
    → FitsWire frame
    → parse (wire frame ++ rest) ≡ ok (frame, header_len + length (serialize_body frame.body))
unfolding parse wire
parse-wire frame rest h = ground (
  arith,
  FitsBody-length frame.kind frame.body h,
  from_be-to_be32 (length (serialize_body frame.body)),
  length-append (serialize_body frame.body) rest,
  take-append_length (length (serialize_body frame.body)) (serialize_body frame.body) rest,
  from_u8-as_u8 frame.kind frame.body h,
  parse_body-serialize_body frame.kind frame.body h,
)

-- A frame that fits the wire survives `serialize` and `parse`, with any bytes behind it.
pub parse-serialize :
    (frame : BapFrame) (rest bytes : List ℕ)
    → FitsWire frame
    → serialize frame ≡ ok bytes
    → parse (bytes ++ rest) ≡ ok (frame, length bytes)
unfolding wire
parse-serialize frame rest bytes h e = ground (arith, serialize_ok frame h, parse-wire frame rest h)

clear_bytes :
    (bytes : List ℕ) (c : ClearBody)
    → All IsByte bytes
    → parse_clear_body bytes ≡ ok c
    → to_be16 c.msg_id ++ (to_be32 c.context ++ c.payload) ≡ bytes
unfolding parse_clear_body
clear_bytes [] x h e = cc
clear_bytes (a ∷ []) x h e = cc
clear_bytes (a ∷ b ∷ []) x h e = cc
clear_bytes (a ∷ b ∷ c ∷ []) x h e = cc
clear_bytes (a ∷ b ∷ c ∷ d ∷ []) x h e = cc
clear_bytes (a ∷ b ∷ c ∷ d ∷ y ∷ []) x h e = cc
clear_bytes (a ∷ b ∷ c ∷ d ∷ y ∷ z ∷ tl) x h e =
    ground (arith, to_be16-from_be (a ∷ b ∷ []), to_be32-from_be (c ∷ d ∷ y ∷ z ∷ []))

serialize_body-parse_body :
    (kind : FrameKind) (bytes : List ℕ) (body : FrameBody)
    → All IsByte bytes
    → parse_body kind bytes ≡ ok body
    → serialize_body body ≡ bytes
unfolding parse_body serialize_body
serialize_body-parse_body FrameKind.clear bytes body h e =
    elim (Result-cases (parse_clear_body bytes)) [
      | inl (c, p) ↦ ground (arith, clear_bytes bytes c h)
      | inr (x, p) ↦ ground arith
    ]
serialize_body-parse_body FrameKind.encrypted bytes body h e =
    ground (arith, take-append-drop 16 bytes)
serialize_body-parse_body (FrameKind.other v) bytes body h e = ground arith

as_u8-from_u8 : (v : ℕ) → as_u8 (from_u8 v) ≡ v
unfolding as_u8 from_u8
as_u8-from_u8 v = ground arith

-- What a successful parse of an input with a whole header found there.
record Found (a b c d x y : ℕ) (tl : List ℕ) (frame : BapFrame) (n : ℕ) : Type 0 where
  magic : a ≡ bap_magic
  size : from_be (c ∷ d ∷ x ∷ y ∷ []) ≡ n - header_len
  room : n - header_len ≤ length tl
  kind : frame.kind ≡ from_u8 b
  body : parse_body (from_u8 b) (take (n - header_len) tl) ≡ ok frame.body

parse-Found :
    (a b c d x y : ℕ) (tl : List ℕ) (frame : BapFrame) (n : ℕ)
    → parse (a ∷ b ∷ c ∷ d ∷ x ∷ y ∷ tl) ≡ ok (frame, n)
    → Found a b c d x y tl frame n
unfolding parse
parse-Found a b c d x y tl frame n e = ground arith

wire_of_Found :
    (a b c d x y : ℕ) (tl : List ℕ) (frame : BapFrame) (n : ℕ)
    → All IsByte (a ∷ b ∷ c ∷ d ∷ x ∷ y ∷ tl)
    → header_len ≤ n
    → Found a b c d x y tl frame n
    → serialize frame ≡ ok (a ∷ b ∷ c ∷ d ∷ x ∷ y ∷ take (n - header_len) tl)
unfolding serialize
wire_of_Found a b c d x y tl frame n h six found = ground (
  arith,
  as_u8-from_u8 b,
  to_be32-from_be (c ∷ d ∷ x ∷ y ∷ []),
  from_be-IsU32 (c ∷ d ∷ x ∷ y ∷ []),
  length-take (n - header_len) tl,
  serialize_body-parse_body (from_u8 b) (take (n - header_len) tl) frame.body
      (All-take IsByte (n - header_len) tl h.1.1.1.1.1.1) found.body,
)

take_header :
    (a b c d x y : ℕ) (tl : List ℕ) (n : ℕ)
    → header_len ≤ n
    → take n (a ∷ b ∷ c ∷ d ∷ x ∷ y ∷ tl) ≡ a ∷ b ∷ c ∷ d ∷ x ∷ y ∷ take (n - header_len) tl
take_header a b c d x y tl n h =
    let e : n ≡ suc (suc (suc (suc (suc (suc (n - 6)))))) = omega arith in
    ap (λ k. take k (a ∷ b ∷ c ∷ d ∷ x ∷ y ∷ tl)) e

-- On an input of bytes, `serialize` writes back the bytes that `parse` took: the parser forgets
-- nothing.
pub serialize-parse :
    (input : List ℕ) (frame : BapFrame) (n : ℕ)
    → All IsByte input
    → parse input ≡ ok (frame, n)
    → serialize frame ≡ ok (take n input)
unfolding parse
serialize-parse [] frame n h e = cc
serialize-parse (a ∷ []) frame n h e = cc
serialize-parse (a ∷ b ∷ []) frame n h e = cc
serialize-parse (a ∷ b ∷ c ∷ []) frame n h e = cc
serialize-parse (a ∷ b ∷ c ∷ d ∷ []) frame n h e = cc
serialize-parse (a ∷ b ∷ c ∷ d ∷ x ∷ []) frame n h e = cc
serialize-parse (a ∷ b ∷ c ∷ d ∷ x ∷ y ∷ tl) frame n h e =
    let six = (parse_bounds (a ∷ b ∷ c ∷ d ∷ x ∷ y ∷ tl) frame n e).0 in
    wire_of_Found a b c d x y tl frame n h six (parse-Found a b c d x y tl frame n e)
    ∙ ap ok (sym (take_header a b c d x y tl n six))
