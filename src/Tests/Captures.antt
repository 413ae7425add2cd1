-- ===== src/Tests/Captures.antt =====
-- Runs of the theorems on the verification of captures.
use destiny1_pc_project.Prelude.{
  codes, ℕ, ◌≡◌, ◌≢◌, refl, true, Option, some, List, [], ◌∷◌, length, All, Text, text_eq,
  text_eq_refl, ok,
}
use destiny1_pc_project.Tests.{
  bytes_of, toy_key, toy_nonce, toy_nonce-IsNonce, toy, toy-IsAead, toy_tag,
}
use destiny1_pc_project.Tests.Crypto.{toy_context, toy_context-new}
use destiny1_pc_project.Nonce
use destiny1_pc_project.Nonce.{client_to_server, server_to_client}
use destiny1_pc_project.Context
use destiny1_pc_project.Aead
use destiny1_pc_project.Nonce.{direction_name}
use destiny1_pc_project.LocalProtocol.{hex_encode}
use destiny1_pc_project.GcmNonceReconstruct.{reconstruct_file}
use destiny1_pc_project.GcmNonceReconstruct.Drawn.{first_report, reconstruct_file-next_nonce}
use destiny1_pc_project.GcmSequence.{
  SequenceFile, SequenceReport, all_verified, verify_file, verify_from_json_str,
}
use destiny1_pc_project.GcmSequence.Sealed.{Sealed, IsWritable, sequence_file}
use destiny1_pc_project.Context.{SessionCryptoContext}
use destiny1_pc_project.GcmSequence.Opened.{
  read_key, read_nonce, read_aad, AllOpened, verify_file-AllOpened,
}
use destiny1_pc_project.GcmSequence.Verified.{verify_from_json_str-seal_all}

reconstruct_file-next_nonce_example :
    reconstruct_file text_eq (record {
      session_nonce_hex = hex_encode toy_nonce;
      direction = direction_name client_to_server;
      transform = codes "DefaultForDirection";
      expected_nonce_hex = some (hex_encode (Context.next_nonce toy_context client_to_server).1);
    })
    ≡ ok (first_report client_to_server)
reconstruct_file-next_nonce_example =
    reconstruct_file-next_nonce text_eq toy_key toy_nonce toy_context client_to_server text_eq_refl
      toy_context-new toy_nonce-IsNonce

-- A message in each direction, sealed by the toy cipher.
abbrev toy_frames : List Sealed
toy_frames =
    record {
      direction = client_to_server;
      nonce = toy_context.client_to_server_nonce;
      plaintext = 5 ∷ 6 ∷ [];
      tag = toy_tag;
      ciphertext = 5 ∷ 6 ∷ [];
    }
    ∷ record {
      direction = server_to_client;
      nonce = toy_context.server_to_client_nonce;
      plaintext = 7 ∷ [];
      tag = toy_tag;
      ciphertext = 7 ∷ [];
    }
    ∷ []

toy_frames-IsWritable : All IsWritable toy_frames
toy_frames-IsWritable = (
  record {
    tag_bytes = bytes_of toy_tag refl;
    ciphertext_bytes = bytes_of (5 ∷ 6 ∷ []) refl;
    full = λ e. cc;
  },
  (
    record {
      tag_bytes = bytes_of toy_tag refl;
      ciphertext_bytes = bytes_of (7 ∷ []) refl;
      full = λ e. cc;
    },
    tt,
  ),
)

toy_frames-full : toy_frames ≢ []
toy_frames-full = λ e. cc

-- A reader that takes every text for the file.
abbrev toy_from_str : Text → Option SequenceFile
toy_from_str text = some (sequence_file toy_key toy_nonce [] toy_frames)

abbrev toy_file : SequenceFile
toy_file = sequence_file toy_key toy_nonce [] toy_frames

verify_from_json_str-seal_all_example :
    (report : SequenceReport) × (verify_from_json_str text_eq toy toy_from_str [] ≡ ok report)
    × (all_verified report ≡ true)
    × (length report.frames ≡ length toy_frames)
unfolding Context.next_nonce Aead.encrypt_aes_gcm Aead.check_key Nonce.increment_nonce
verify_from_json_str-seal_all_example =
    verify_from_json_str-seal_all text_eq toy toy_from_str [] toy_key toy_nonce []
      ((client_to_server, 5 ∷ 6 ∷ []) ∷ (server_to_client, 7 ∷ []) ∷ []) toy_context toy_frames
      text_eq_refl toy-IsAead (bytes_of toy_key refl) toy_nonce-IsNonce tt toy_context-new refl
      toy_frames-full toy_frames-IsWritable refl

-- The same run again, for the test of what a verified report says.
toy_run :
    (report : SequenceReport) × (verify_file text_eq toy toy_file ≡ ok report)
    × (all_verified report ≡ true)
    × (length report.frames ≡ length toy_frames)
unfolding Context.next_nonce Aead.encrypt_aes_gcm Aead.check_key Nonce.increment_nonce
    verify_from_json_str
toy_run =
    verify_from_json_str-seal_all text_eq toy toy_from_str [] toy_key toy_nonce []
      ((client_to_server, 5 ∷ 6 ∷ []) ∷ (server_to_client, 7 ∷ []) ∷ []) toy_context toy_frames
      text_eq_refl toy-IsAead (bytes_of toy_key refl) toy_nonce-IsNonce tt toy_context-new refl
      toy_frames-full toy_frames-IsWritable refl

verify_file-AllOpened_example :
    (key : List ℕ) × (nonce : List ℕ) × (aad : List ℕ) × (ctx : SessionCryptoContext) × (read_key
        toy_file
      ≡ ok key)
    × (read_nonce toy_file ≡ ok nonce)
    × (read_aad toy_file ≡ ok aad)
    × (Context.new key nonce ≡ ok ctx)
    × AllOpened toy aad ctx toy_file.frames
verify_file-AllOpened_example =
    verify_file-AllOpened text_eq toy toy_file toy_run.0 toy_run.1 toy_run.2
