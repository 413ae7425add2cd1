-- ===== src/Tests/Records.antt =====
-- Runs of the theorems on session records and on hex texts.
use destiny1_pc_project.Prelude.{
  map, ℕ, codes, ◌<◌, ◌≤◌, ◌≡◌, refl, arith, List, [], ◌∷◌, ◌++◌, some, length, take, to_be32,
  text_eq, text_eq_refl, eq_of_text_eq, ok, returns, true,
}
use destiny1_pc_project.Tests.{toy_key, bytes_of}
use destiny1_pc_project.Cbc.{
  CbcHmac, length_iv_ciphertext, SessionRecordVerifyReport, classification, success, verified,
  partial, validate_pkcs7, min_session_plaintext, verify_session_record, compute_hmac_sha256,
  decrypt_aes128_cbc_raw,
}
use destiny1_pc_project.Cbc
use destiny1_pc_project.Cbc.Padding.{
  replicate, length-replicate, padded, length-padded, validate_pkcs7-padded,
  padded_of_validate_pkcs7,
}
use destiny1_pc_project.Cbc.Verify.{
  IsCbcHmac, pad_len, seal_record, genuine_report, verify_session_record-seal_record,
  verify_session_record-success,
}
use destiny1_pc_project.Framing
use destiny1_pc_project.Framing.{BapFrame, FrameKind, FrameBody, serialize}
use destiny1_pc_project.Codec.{Direction}
use destiny1_pc_project.Evidence.{from_raw, parse_direction}
use destiny1_pc_project.Evidence.Reading.{in_hex, in_fields, from_raw-in_hex}
use destiny1_pc_project.Evidence.{EvidenceRecord}
use destiny1_pc_project.Timeline.{TimelineEntry, Timeline, entry_of, sort, from_evidence}
use destiny1_pc_project.Timeline.Order.{
  IsSorted, at_key, push_all, from_evidence-IsSorted, sort-push_all-IsSorted,
}
use destiny1_pc_project.LocalProtocol.{hex_encode, hex_decode}
use destiny1_pc_project.LocalProtocol.Hex.{hex_decode-hex_encode}

-- Crates that hide nothing: the padded text itself, and a tag of 32 copies of the message's length.
abbrev toy_crates : CbcHmac
toy_crates = record {
  hmac = λ key message. some (replicate 32 (length message));
  encrypt = λ key iv text. some (padded text (pad_len text));
  decrypt = λ key iv ciphertext. some ciphertext;
  ct_eq = text_eq;
}

toy_crates-IsCbcHmac : IsCbcHmac toy_crates
toy_crates-IsCbcHmac = record {
  hmac_total =
      λ key message h. (replicate 32 (length message), refl, length-replicate 32 (length message));
  ct_eq_refl = text_eq_refl;
  eq_of_ct_eq = eq_of_text_eq;
  encrypt_decrypts = λ key iv text k i.
      (padded text (pad_len text), refl, length-padded text (pad_len text), refl);
}

abbrev toy_plaintext : List ℕ
toy_plaintext = toy_key ++ toy_key

validate_pkcs7-padded_example : validate_pkcs7 (padded (7 ∷ 8 ∷ []) 14) ≡ ok 2
validate_pkcs7-padded_example = validate_pkcs7-padded (7 ∷ 8 ∷ []) 14 (omega arith) (omega arith)

abbrev toy_padded : List ℕ
toy_padded = 7 ∷ 8 ∷ 2 ∷ 2 ∷ []

padded_of_validate_pkcs7_example :
    (pad : ℕ) × (0 < pad)
    × (pad ≤ 16)
    × (toy_padded ≡ padded (take 2 toy_padded) pad)
    × (length (take 2 toy_padded) ≡ 2)
padded_of_validate_pkcs7_example =
    padded_of_validate_pkcs7 toy_padded 2 (unfold validate_pkcs7 Cbc.any_other in refl)

verify_session_record-seal_record_example :
    (ciphertext : List ℕ) × (tag : List ℕ) × (seal_record toy_crates 68 toy_key toy_key
        (1 ∷ [])
        toy_plaintext
      ≡ ok (ciphertext, tag))
    × (report : SessionRecordVerifyReport) × (verify_session_record toy_crates length_iv_ciphertext
          68 toy_key ciphertext tag toy_key
          (1 ∷ [])
        ≡ ok report)
    × (report.pkcs7_unpadded_len ≡ some 32)
    × (classification report ≡ verified)
verify_session_record-seal_record_example =
    verify_session_record-seal_record toy_crates toy_crates-IsCbcHmac 68 toy_key toy_key (1 ∷ [])
      toy_plaintext refl refl (omega arith)

abbrev toy_ciphertext : List ℕ
toy_ciphertext = padded toy_plaintext 16

toy_verified :
    verify_session_record toy_crates length_iv_ciphertext 68 toy_key toy_ciphertext
      (replicate 32 68)
      toy_key
      (1 ∷ [])
    ≡ ok (genuine_report 32 48)
unfolding verify_session_record Cbc.build_hmac_message Cbc.verify_hmac_sha256 replicate
    genuine_report Cbc.checked_report padded decrypt_aes128_cbc_raw validate_pkcs7 Cbc.any_other
toy_verified = refl

toy_success : success (genuine_report 32 48) ≡ true
unfolding success classification genuine_report Cbc.is_verified Cbc.is_some_true Cbc.fresh_report
    Cbc.note_padding
toy_success = refl

verify_session_record-success_example :
    (compute_hmac_sha256 toy_crates (1 ∷ []) (to_be32 68 ++ (toy_key ++ toy_ciphertext))
      ≡ ok (replicate 32 68))
    × (text : List ℕ) × (pad : ℕ) × (decrypt_aes128_cbc_raw toy_crates toy_key toy_key
          toy_ciphertext
        ≡ ok (padded text pad))
    × (0 < pad)
    × (pad ≤ 16)
    × (28 ≤ length text)
    × ((genuine_report 32 48).pkcs7_unpadded_len ≡ some (length text))
verify_session_record-success_example =
    verify_session_record-success toy_crates toy_crates-IsCbcHmac 68 toy_key toy_ciphertext
      (replicate 32 68) toy_key (1 ∷ []) (genuine_report 32 48) toy_verified toy_success

hex_decode-hex_encode_example :
    hex_decode (hex_encode (0 ∷ 175 ∷ 16 ∷ [])) ≡ returns (ok (0 ∷ 175 ∷ 16 ∷ []))
hex_decode-hex_encode_example =
    hex_decode-hex_encode (0 ∷ 175 ∷ 16 ∷ []) (bytes_of (0 ∷ 175 ∷ 16 ∷ []) refl)

abbrev toy_frame : BapFrame
toy_frame = record {
  kind = FrameKind.clear;
  body = FrameBody.clear (record { msg_id = 0x1E; context = 258; payload = 7 ∷ 8 ∷ [] });
}

abbrev toy_wire : List ℕ
toy_wire = 1 ∷ 2 ∷ 0 ∷ 0 ∷ 0 ∷ 8 ∷ 0 ∷ 0x1E ∷ 0 ∷ 0 ∷ 1 ∷ 2 ∷ 7 ∷ 8 ∷ []

from_raw-in_hex_example :
    (from_raw (in_hex 100 (codes "c2s") (toy_wire ++ (9 ∷ [])))
      ≡ returns (
          ok (record {
            timestamp_ms = 100;
            direction = Direction.client_to_server;
            frame = toy_frame;
          })))
    × (from_raw (in_fields 100 (codes "c2s") FrameKind.clear toy_frame.body)
        ≡ returns (
            ok (record {
              timestamp_ms = 100;
              direction = Direction.client_to_server;
              frame = toy_frame;
            })))
unfolding serialize parse_direction Framing.serialize_body Framing.as_u8
from_raw-in_hex_example =
    from_raw-in_hex 100 (codes "c2s") Direction.client_to_server toy_frame toy_wire (9 ∷ []) refl
      (omega arith, omega arith, omega arith) refl (bytes_of (toy_wire ++ (9 ∷ [])) refl)

abbrev toy_record : ℕ → Direction → EvidenceRecord
toy_record t d = record { timestamp_ms = t; direction = d; frame = toy_frame }

abbrev toy_records : List EvidenceRecord
toy_records =
    toy_record 100 Direction.server_to_client
    ∷ toy_record 50 Direction.server_to_client
    ∷ toy_record 100 Direction.client_to_server
    ∷ []

from_evidence-IsSorted_example :
    IsSorted (from_evidence toy_records).entries
    × ((t : ℕ) (d : Direction)
        → at_key t d (from_evidence toy_records).entries ≡ at_key t d (map entry_of toy_records))
from_evidence-IsSorted_example = from_evidence-IsSorted toy_records

abbrev toy_timeline : Timeline
toy_timeline = record { entries = map entry_of toy_records }

abbrev toy_pushed : List TimelineEntry
toy_pushed = entry_of (toy_record 50 Direction.server_to_client) ∷ []

sort-push_all-IsSorted_example :
    IsSorted (sort (push_all toy_timeline toy_pushed)).entries
    × ((s : ℕ) (d : Direction)
        → at_key s d (sort (push_all toy_timeline toy_pushed)).entries
          ≡ at_key s d toy_timeline.entries ++ at_key s d toy_pushed)
    × (sort (push_all (sort toy_timeline) toy_pushed) ≡ sort (push_all toy_timeline toy_pushed))
sort-push_all-IsSorted_example = sort-push_all-IsSorted toy_timeline toy_pushed
