-- ===== src/Codec/Login.antt =====
-- The structured `0x1A` record of network/src/message_codec.rs: its layout.
use destiny1_pc_project.Prelude.{
  ℕ, zero, suc, inl, inr, Result-cases, ◌+◌, ◌-◌, ◌≤◌, ◌≡◌, refl, sym, List, [], ◌∷◌, ◌++◌, arith,
  length, drop, slice, All, IsByte, IsU16, IsU32, from_be, to_be16, to_be32, from_be-to_be16,
  from_be-to_be32, to_be16-from_be, to_be32-from_be, length-append, length-drop, take-append_length,
  drop-append_length, take-append-drop, take_all, append_assoc, ok,
}
use destiny1_pc_project.Codec.{
  login_record, SessionLoginResponseRecord, min_record_len, validate_lengths, encode_payload,
  decode_payload,
}

-- The fields have the widths of their Rust types and the lengths agree.
pub record IsLoginRecord (rec : SessionLoginResponseRecord) : Type 0 where
  pub prefix_u16 : IsU16 rec.prefix
  pub record_len_u32 : IsU32 rec.record_len
  pub iv_len : length rec.iv ≡ 16
  pub hmac_len : length rec.hmac ≡ 32
  pub long_enough : min_record_len ≤ rec.record_len
  pub cipher_len : length rec.ciphertext ≡ rec.record_len - 48

validate_ok : (rec : SessionLoginResponseRecord) → IsLoginRecord rec → validate_lengths rec ≡ ok tt
unfolding validate_lengths
validate_ok rec h = ground arith

-- The bytes of a record's payload.
unfoldable pub layout : SessionLoginResponseRecord → List ℕ
layout rec =
    to_be16 rec.prefix ++ (to_be32 rec.record_len ++ (rec.iv ++ (rec.ciphertext ++ rec.hmac)))

length-layout :
    (rec : SessionLoginResponseRecord)
    → IsLoginRecord rec
    → length (layout rec) ≡ 6 + rec.record_len
unfolding layout
length-layout rec h = omega (
  arith,
  length-append rec.iv (rec.ciphertext ++ rec.hmac),
  length-append rec.ciphertext rec.hmac,
)

-- The parts of the material behind the record length.
cut_iv :
    (rec : SessionLoginResponseRecord)
    → IsLoginRecord rec
    → slice (rec.iv ++ (rec.ciphertext ++ rec.hmac)) 0 16 ≡ rec.iv
cut_iv rec h = take-append_length 16 rec.iv (rec.ciphertext ++ rec.hmac) (sym h.iv_len)

cut_cipher :
    (rec : SessionLoginResponseRecord)
    → IsLoginRecord rec
    → slice (rec.iv ++ (rec.ciphertext ++ rec.hmac)) 16 (16 + (rec.record_len - 48))
      ≡ rec.ciphertext
cut_cipher rec h = ground (
  arith,
  drop-append_length 16 rec.iv (rec.ciphertext ++ rec.hmac),
  take-append_length (16 + (rec.record_len - 48) - 16) rec.ciphertext rec.hmac,
)

cut_hmac :
    (rec : SessionLoginResponseRecord)
    → IsLoginRecord rec
    → slice
        (rec.iv ++ (rec.ciphertext ++ rec.hmac))
        (16 + (rec.record_len - 48))
        (16 + (rec.record_len - 48) + 32)
      ≡ rec.hmac
cut_hmac rec h = ground (
  arith,
  append_assoc rec.iv rec.ciphertext rec.hmac,
  length-append rec.iv rec.ciphertext,
  drop-append_length (16 + (rec.record_len - 48)) (rec.iv ++ rec.ciphertext) rec.hmac,
  take_all (16 + (rec.record_len - 48) + 32 - (16 + (rec.record_len - 48))) rec.hmac,
)

login_record_lem :
    (rec : SessionLoginResponseRecord)
    → IsLoginRecord rec
    → login_record rec.prefix rec.record_len (rec.iv ++ (rec.ciphertext ++ rec.hmac)) ≡ rec
unfolding login_record
login_record_lem rec h = ground (arith, cut_iv rec h, cut_cipher rec h, cut_hmac rec h)

-- A record whose lengths agree is encoded to its layout, and decoded from it to itself.
pub decode_payload-encode_payload :
    (rec : SessionLoginResponseRecord)
    → IsLoginRecord rec
    → (encode_payload rec ≡ ok (layout rec)) × (decode_payload (layout rec) ≡ ok rec)
unfolding encode_payload decode_payload layout
decode_payload-encode_payload rec h = (
  ground (arith, validate_ok rec h),
  ground (
    arith,
    validate_ok rec h,
    login_record_lem rec h,
    from_be-to_be16 rec.prefix,
    from_be-to_be32 rec.record_len,
    length-append rec.iv (rec.ciphertext ++ rec.hmac),
    length-append rec.ciphertext rec.hmac,
  ),
)

drop-nil : (n : ℕ) → drop {A = ℕ} n [] ≡ []
drop-nil zero = refl
drop-nil (suc n) = refl

drop-add : (m n : ℕ) (xs : List ℕ) → drop (m + n) xs ≡ drop n (drop m xs)
drop-add zero n xs = ground arith
drop-add (suc m) n [] = ground (arith, drop-nil n, drop-nil (suc m + n))
drop-add (suc m) n (x ∷ xs) =
    let e : suc m + n ≡ suc (m + n) = omega arith in rw e (drop-add m n xs)

material_split :
    (k : ℕ) (material : List ℕ)
    → length material ≡ 48 + k
    → slice material 0 16 ++ (slice material 16 (16 + k) ++ slice material (16 + k) (16 + k + 32))
      ≡ material
material_split k material h =
    let e : 16 + k - 16 ≡ k = omega arith in
    let f : 16 + k + 32 - (16 + k) ≡ 32 = omega arith in
    ground (
      arith,
      e,
      f,
      drop-add 16 k material,
      length-drop 16 material,
      length-drop k (drop 16 material),
      take_all 32 (drop k (drop 16 material)),
      take-append-drop k (drop 16 material),
      take-append-drop 16 material,
    )

-- What a successful decoding of a payload with a whole header found.
record FoundRecord (a b c d x y : ℕ) (tl : List ℕ) (rec : SessionLoginResponseRecord) : Type 0 where
  long_enough : min_record_len ≤ from_be (c ∷ d ∷ x ∷ y ∷ [])
  size : length tl ≡ from_be (c ∷ d ∷ x ∷ y ∷ [])
  same : rec ≡ login_record (from_be (a ∷ b ∷ [])) (from_be (c ∷ d ∷ x ∷ y ∷ [])) tl
  valid : validate_lengths rec ≡ ok tt

decode-FoundRecord :
    (a b c d x y : ℕ) (tl : List ℕ) (rec : SessionLoginResponseRecord)
    → decode_payload (a ∷ b ∷ c ∷ d ∷ x ∷ y ∷ tl) ≡ ok rec
    → FoundRecord a b c d x y tl rec
unfolding decode_payload
decode-FoundRecord a b c d x y tl rec h =
    let r = login_record (from_be (a ∷ b ∷ [])) (from_be (c ∷ d ∷ x ∷ y ∷ [])) tl in
    elim (Result-cases (validate_lengths r)) [
      | inl (u, v) ↦ ground arith
      | inr (e, v) ↦ absurd (ground arith)
    ]

-- A payload of bytes that decodes to a record is encoded from it again, byte for byte.
pub encode_payload-decode_payload :
    (payload : List ℕ) (rec : SessionLoginResponseRecord)
    → All IsByte payload
    → decode_payload payload ≡ ok rec
    → encode_payload rec ≡ ok payload
unfolding encode_payload
encode_payload-decode_payload [] rec h e = absurd (unfold decode_payload in ground arith)
encode_payload-decode_payload (a ∷ []) rec h e = absurd (unfold decode_payload in ground arith)
encode_payload-decode_payload (a ∷ b ∷ []) rec h e = absurd (unfold decode_payload in ground arith)
encode_payload-decode_payload (a ∷ b ∷ c ∷ []) rec h e =
    absurd (unfold decode_payload in ground arith)
encode_payload-decode_payload (a ∷ b ∷ c ∷ d ∷ []) rec h e =
    absurd (unfold decode_payload in ground arith)
encode_payload-decode_payload (a ∷ b ∷ c ∷ d ∷ x ∷ []) rec h e =
    absurd (unfold decode_payload in ground arith)
encode_payload-decode_payload (a ∷ b ∷ c ∷ d ∷ x ∷ y ∷ tl) rec h e =
    let found = decode-FoundRecord a b c d x y tl rec e in
    let len = from_be (c ∷ d ∷ x ∷ y ∷ []) in
    unfold login_record in
    ground (
      arith,
      found.long_enough,
      found.size,
      found.same,
      found.valid,
      to_be16-from_be (a ∷ b ∷ []),
      to_be32-from_be (c ∷ d ∷ x ∷ y ∷ []),
      material_split (len - 48) tl,
    )
