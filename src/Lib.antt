-- ===== src/Lib.antt =====
-- The network crate of the project, network/src: the BAP protocol over a byte stream.
--
-- Bytes come from a source in chunks, a stream decoder carves frames out of them, a session decodes
-- the frames (decrypting with AES-128-GCM under a nonce for each direction), a codec turns them into
-- messages, and the local server's connection runs a state machine over the messages and answers by
-- a policy. The files follow the parts:
--
--   Framing: network/src/framing.rs. `parse`, `parse_all` and `serialize` are those of `BapFrame`.
--   Stream: network/src/stream_framing.rs. `carve` is one round of the loop of `drain_complete`,
--     `drain` the loop, `push` and `finish` the methods of `BapStreamDecoder`.
--   Source: network/src/byte_source.rs. The trait `ByteSource` is a record with the one method `read`.
--   Nonce and Context: network/src/crypto/gcm_nonce.rs and network/src/crypto/session_context.rs.
--     `next_nonce` returns the context after the call beside the nonce.
--   Aead: network/src/crypto/aead.rs.
--   Session: network/src/bap_session.rs. An operation that changes the session returns the new one
--     beside its result; `Call` has the outcome `panics` for the `expect` on `serialize`.
--   Pipeline: network/src/bap_pipeline.rs.
--   Messages and Codec: network/src/messages.rs and network/src/message_codec.rs, with `Direction` of
--     network/src/jsonl.rs.
--   Protocol, Policy and Dispatcher: network/src/protocol_state.rs, network/src/response_policy.rs
--     with the payloads of network/src/local_protocol.rs, and network/src/message_dispatcher.rs.
--   Events and Stateful: network/src/stateful_bap_session.rs, with the material of
--     network/src/test_crypto_material.rs. `handle_message` is cut into one function for each part of
--     its `match`: `settle`, `reject_message`, `accept_message`, `complete` and `answer`.
--   Cbc: network/src/crypto/cbc_hmac.rs. `verify_session_record` is cut at its two `match`es into
--     `checked_report`, `note_plaintext` and `note_padding`.
--   LocalProtocol: network/src/local_protocol.rs, the dispatcher of the simulated handshake, the
--     fixtures and the hex texts. `hex_decode` has the outcome `panics` for the index behind the last
--     character. LocalProtocol.Agreement compares the dispatcher with the connection of Stateful.
--   Server: network/src/local_server.rs. `handle_connection` is cut into one function for each
--     `match` and loop: `serve_read`, `serve_pushed`, `serve_frame`, `serve_decoded`, `serve_handled`,
--     `settle_handled` and `run_action`. A `Turn` says whether the code goes on, breaks, returns or
--     panics. Server.Turns has a socket that is a script of chunks and keeps what is written.
--   ReplayClient: network/src/replay_client.rs, over the same `Socket`. `Ran` is what a method leaves:
--     the client with its result, a panic, or no fuel for another read. Pending frames are popped from
--     the end; the error `unexpected` keeps the frame that the code prints in Debug form.
--   Evidence: network/src/jsonl.rs, the reading of a record from its fields or from a frame in hex. The
--     reading of one JSON object is the parameter `from_str`, and `panics` stands for a slice inside a
--     character.
--   Timeline: network/src/timeline.rs. `sort_by_key` of the standard library is an insertion sort, which
--     keeps the order of entries with the same key as it does.
--   GcmFields and GcmSequence: network/src/gcm_sequence.rs. The loop of `verify_from_json_str` is
--     `verify_frames`, its variables the record `Progress`, and serde_json the parameter `from_str`.
--   GcmFirstFrame and GcmNonceReconstruct: network/src/gcm_first_frame.rs and
--     network/src/gcm_nonce_reconstruct.rs, which have copies of the functions of GcmFields.
--   Display: the texts of the errors that the server puts into its traces.
--   Prelude: the shared vocabulary. Tests: concrete runs.
--
-- Bytes and machine integers are natural numbers, with the wrap-around and the bounds written out;
-- `usize` has 64 bits. An array of fixed size is a list, its length a field of a predicate
-- (`IsNonce`, `FitsWire`, `IsLoginRecord`). Text is a list of character codes.
--
-- The aes-gcm crate is the parameter `AesGcm`, and `IsAead` is what the crate documents: the length
-- of a sealed message, and that the key, nonce and data that sealed it open it. The comparison of the
-- subtle crate is a parameter too. The aes, cbc, hmac and sha2 crates are the parameter `CbcHmac`, with
-- `IsCbcHmac`; a TCP stream is the parameter `Socket`.
--
-- Loops run on fuel. A round of `parse_all` or of the stream decoder takes six bytes at least, and
-- one of `chunk_stream` a byte, so fuel of the input's length is enough, and the
-- functions take no fuel themselves. A source may give data for ever, so the pipeline takes its fuel as
-- an argument and gives `none` where it runs out; one read more than there are chunks is enough. So it is
-- with the loop of the server, which is left going on where its fuel runs out.
--
-- Not modelled: printing and logging; the binding, accepting and stopping of sockets with their threads
-- and timeouts (local_server.rs but for a connection, tcp_byte_source.rs, and the connecting in
-- replay_client.rs); the clients of compatibility_client.rs and external_client_boundary.rs; the state
-- machine over a capture (state_machine.rs); evidence_adapter.rs, whose times are floating point numbers;
-- the registry, inventories and reports over captures; the command line and the verification commands.
pub mod Prelude
pub mod Framing
pub mod Stream
pub mod Source
pub mod Nonce
pub mod Context
pub mod Aead
pub mod ReplayClient
pub mod Server
pub mod Session
pub mod Pipeline
pub mod LocalProtocol
pub mod Messages
pub mod Cbc
pub mod Codec
pub mod Protocol
pub mod Policy
pub mod Dispatcher
pub mod Display
pub mod Events
pub mod Evidence
pub mod Stateful
pub mod Timeline
pub mod GcmFields
pub mod GcmFirstFrame
pub mod GcmNonceReconstruct
pub mod GcmSequence
pub mod Tests
