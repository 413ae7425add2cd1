-- ===== src/Tests/Crypto.antt =====
-- Runs of the theorems on nonces, sessions and the pipeline.
use destiny1_pc_project.Prelude.{
  ℕ, ◌≡◌, refl, true, false, arith, some, List, [], ◌∷◌, ◌++◌, take, drop, concat, All,
  if◌then◌else◌, map, ok, err, returns, codes, suc, ◌+◌, ◌%◌,
}
use destiny1_pc_project.Tests.{
  bytes_of, toy_key, toy_nonce, toy_nonce-IsNonce, toy, toy-IsAead, toy_tag,
}
use destiny1_pc_project.Nonce.{
  NonceDirection, client_to_server, server_to_client, nonce_after_increments,
}
use destiny1_pc_project.Nonce
use destiny1_pc_project.Nonce.Value.{value, nonce_space, value-after}
use destiny1_pc_project.Context
use destiny1_pc_project.Context.{SessionCryptoContext, next_nonce, draw}
use destiny1_pc_project.Context.Track.{
  start, Tracks, count_one, count_all, nonces_of, new-start, draw-Tracks,
}
use destiny1_pc_project.Context.Distinct.{Distinct, draw-Distinct}
use destiny1_pc_project.Aead.{AesGcmBlob, encrypt_aes_gcm}
use destiny1_pc_project.Session
use destiny1_pc_project.Session.{
  BapSession, clear, decrypted, decode_frame, encode_clear, encode_encrypted, plaintext_of,
}
use destiny1_pc_project.Session.Errors.{draws, decode_frame-draws}
use destiny1_pc_project.Session.Exchange.{
  InStep, advance, clear_wire, decode-encode_clear, decode-encode_encrypted,
}
use destiny1_pc_project.Source
use destiny1_pc_project.Source.{MockByteSource, mock_source}
use destiny1_pc_project.Stream
use destiny1_pc_project.Stream.{BapStreamDecoder, push}
use destiny1_pc_project.Pipeline
use destiny1_pc_project.Pipeline.{BapOfflinePipeline, collect_raw_frames, run_directed}
use destiny1_pc_project.Pipeline.Collect.{collected_of, collect-concat, collect-source_error}
use destiny1_pc_project.Pipeline.Replay.{Message, decoded_of, IsSendable, send_all}
use destiny1_pc_project.Pipeline.EndToEnd.{run_directed-send_all}

value-after_example :
    value (nonce_after_increments toy_nonce 300) ≡ (value toy_nonce + 300) % nonce_space
value-after_example = value-after toy_nonce 300 toy_nonce-IsNonce

-- The context of a new session with the key and the nonce above.
abbrev pub toy_context : SessionCryptoContext
toy_context = record {
  session_key = toy_key;
  session_nonce = toy_nonce;
  client_to_server_nonce = 255 ∷ 2 ∷ 3 ∷ 4 ∷ 5 ∷ 6 ∷ 7 ∷ 8 ∷ 9 ∷ 10 ∷ 11 ∷ 13 ∷ [];
  server_to_client_nonce = 255 ∷ 2 ∷ 3 ∷ 4 ∷ 5 ∷ 6 ∷ 7 ∷ 8 ∷ 9 ∷ 10 ∷ 11 ∷ 12 ∷ [];
  client_to_server_counter = 0;
  server_to_client_counter = 0;
}

pub toy_context-new : Context.new toy_key toy_nonce ≡ ok toy_context
toy_context-new =
    unfold Context.new Nonce.initial_direction_nonce Nonce.apply_nonce_transform
      Nonce.default_transform_for Nonce.transformed in
    refl

pub toy-Tracks : Tracks toy_key toy_nonce start toy_context
toy-Tracks = (new-start toy_key toy_nonce toy_context toy_context-new).0

abbrev both_ways : List NonceDirection
both_ways = client_to_server ∷ server_to_client ∷ client_to_server ∷ []

draw-Distinct_example : Distinct (draw toy_context both_ways).1
draw-Distinct_example =
    draw-Distinct toy_key toy_nonce toy_context both_ways toy_nonce-IsNonce toy_context-new
      (omega arith)

draw-Tracks_example :
    Tracks toy_key toy_nonce (count_all start both_ways) (draw toy_context both_ways).0
    × ((draw toy_context both_ways).1 ≡ nonces_of toy_nonce start both_ways)
draw-Tracks_example = draw-Tracks toy_key toy_nonce start toy_context both_ways toy-Tracks

abbrev toy_blob : AesGcmBlob
toy_blob = record { tag = toy_tag; ciphertext = 5 ∷ 6 ∷ 7 ∷ [] }

abbrev pub toy_session : BapSession
toy_session = record { crypto = toy_context }

decode-encode_clear_example :
    (encode_clear 0x1E 1 (7 ∷ []) ≡ returns (clear_wire 0x1E 1 (7 ∷ [])))
    × (decode_frame toy toy_session client_to_server (clear_wire 0x1E 1 (7 ∷ []))
        ≡ (toy_session, ok (clear 0x1E 1 (7 ∷ []))))
decode-encode_clear_example =
    decode-encode_clear toy toy_session client_to_server 0x1E 1 (7 ∷ []) (omega arith) (omega arith)
      (omega arith)

toy-InStep : InStep toy_key toy_nonce start start client_to_server toy_session toy_session
toy-InStep = record { sends = toy-Tracks; receives = toy-Tracks; same_count = refl }

decode-encode_encrypted_example :
    (bytes : List ℕ) × (encode_encrypted toy toy_session client_to_server 0x79 1 (7 ∷ [])
      ≡ returns (advance toy_session client_to_server, ok bytes))
    × (decode_frame toy toy_session client_to_server bytes
        ≡ (advance toy_session client_to_server, ok (decrypted (some 0x79) (some 1) (7 ∷ []) 7)))
    × InStep toy_key toy_nonce
        (count_one start client_to_server)
        (count_one start client_to_server)
        client_to_server
        (advance toy_session client_to_server)
        (advance toy_session client_to_server)
decode-encode_encrypted_example =
    decode-encode_encrypted toy toy-IsAead toy_key toy_nonce start start client_to_server
      toy_session toy_session 0x79 1 (7 ∷ []) (plaintext_of 0x79 1 (7 ∷ []) ++ toy_tag) toy-InStep
      refl toy_nonce-IsNonce (omega arith) (omega arith) (omega arith) refl

-- An encrypted frame with one byte of ciphertext.
abbrev sealed_bytes : List ℕ
sealed_bytes = 1 ∷ 1 ∷ 0 ∷ 0 ∷ 0 ∷ 17 ∷ (toy_tag ++ (9 ∷ []))

decode_frame-draws_example : (decode_frame toy toy_session server_to_client sealed_bytes).0 ≡ (
    if draws sealed_bytes
    then record { crypto = (next_nonce toy_session.crypto server_to_client).0 }
    else toy_session)
decode_frame-draws_example =
    decode_frame-draws toy toy_session server_to_client sealed_bytes (bytes_of sealed_bytes refl)

abbrev toy_pipeline : BapOfflinePipeline
toy_pipeline = record { decoder = record { buf = []; max_body_len = 64 }; session = toy_session }

abbrev toy_chunks : List (List ℕ)
toy_chunks = (1 ∷ 2 ∷ 0 ∷ 0 ∷ []) ∷ (0 ∷ 1 ∷ 9 ∷ []) ∷ []

collect-concat_example :
    (s' : MockByteSource) × (d' : BapStreamDecoder) × (collect_raw_frames
        (2 + suc 4)
        toy_pipeline
        (Source.new toy_chunks)
      ≡ some (s', d', collected_of (push toy_pipeline.decoder (concat toy_chunks))))
collect-concat_example = collect-concat 4 toy_pipeline toy_chunks (unfold Stream.carve in refl)

collect-source_error_example :
    collect_raw_frames
      (2 + suc 4)
      toy_pipeline
      (Source.from_results (map ok toy_chunks ++ (err (Source.failed (codes "reset")) ∷ [])))
    ≡ some (
      record { queue = [] },
      (push toy_pipeline.decoder (concat toy_chunks)).0,
      err (Pipeline.source (Source.failed (codes "reset"))),
    )
collect-source_error_example =
    collect-source_error 4 toy_pipeline toy_chunks (Source.failed (codes "reset")) []
      (unfold Stream.carve in refl)
      (unfold push Stream.drain Stream.drain_loop Stream.carve in refl)

-- A clear message, and an encrypted one in each direction.
abbrev toy_messages : List Message
toy_messages =
    record {
      secret = false;
      direction = client_to_server;
      id = 0x1E;
      context = 1;
      payload = 7 ∷ [];
    }
    ∷ record { secret = true; direction = client_to_server; id = 0x79; context = 1; payload = [] }
    ∷ record {
      secret = true;
      direction = server_to_client;
      id = 0x7A;
      context = 1;
      payload = 8 ∷ 9 ∷ [];
    }
    ∷ []

toy_messages-IsSendable : All (IsSendable 64) toy_messages
toy_messages-IsSendable = (
  record {
    id_u16 = omega arith;
    context_u32 = omega arith;
    within = omega arith;
    limit_u32 = omega arith;
  },
  (
    record {
      id_u16 = omega arith;
      context_u32 = omega arith;
      within = omega arith;
      limit_u32 = omega arith;
    },
    (
      record {
        id_u16 = omega arith;
        context_u32 = omega arith;
        within = omega arith;
        limit_u32 = omega arith;
      },
      tt,
    ),
  ),
)

-- What the session writes for them.
abbrev toy_frames : List (List ℕ)
toy_frames =
    (1 ∷ 2 ∷ 0 ∷ 0 ∷ 0 ∷ 7 ∷ 0 ∷ 0x1E ∷ 0 ∷ 0 ∷ 0 ∷ 1 ∷ 7 ∷ [])
    ∷ (1 ∷ 1 ∷ 0 ∷ 0 ∷ 0 ∷ 22 ∷ (toy_tag ++ (0 ∷ 0x79 ∷ 0 ∷ 0 ∷ 0 ∷ 1 ∷ [])))
    ∷ (1 ∷ 1 ∷ 0 ∷ 0 ∷ 0 ∷ 24 ∷ (toy_tag ++ (0 ∷ 0x7A ∷ 0 ∷ 0 ∷ 0 ∷ 1 ∷ 8 ∷ 9 ∷ [])))
    ∷ []

toy_sent :
    send_all toy toy_session toy_messages
    ≡ some (advance (advance toy_session client_to_server) server_to_client, toy_frames)
unfolding send_all destiny1_pc_project.Pipeline.Replay.send_as encode_clear Session.clear_raw
    destiny1_pc_project.Framing.serialize destiny1_pc_project.Framing.serialize_body
    destiny1_pc_project.Framing.clear_frame encode_encrypted Session.framed encrypt_aes_gcm
    next_nonce plaintext_of Session.encrypted_raw destiny1_pc_project.Framing.encrypted_frame
    destiny1_pc_project.Framing.as_u8
toy_sent = refl

-- The same bytes in two chunks.
abbrev toy_stream : List (List ℕ)
toy_stream = take 5 (concat toy_frames) ∷ drop 5 (concat toy_frames) ∷ []

run_directed-send_all_example :
    (src' : MockByteSource) × (p' : BapOfflinePipeline) × (run_directed toy
        (2 + suc 0)
        toy_pipeline
        (Source.new toy_stream)
        (client_to_server ∷ client_to_server ∷ server_to_client ∷ [])
      ≡ some (
        src',
        (
          p',
          ok (
              clear 0x1E 1 (7 ∷ [])
              ∷ decrypted (some 0x79) (some 1) [] 6
              ∷ decrypted (some 0x7A) (some 1) (8 ∷ 9 ∷ []) 8
              ∷ []),
        ),
      ))
run_directed-send_all_example =
    run_directed-send_all toy toy_key toy_nonce start toy_session
      (advance (advance toy_session client_to_server) server_to_client) toy_pipeline toy_messages
      toy_frames toy_stream 0 toy-IsAead toy-Tracks toy-Tracks refl toy_messages-IsSendable toy_sent
      refl
