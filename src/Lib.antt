-- ===== src/Lib.antt =====
-- The Rust SDK for the codex app-server (crates/sdk): a client that speaks JSON-RPC with the server,
-- the events that the server sends, the API of threads and turns built on them, and the servers that
-- the SDK starts; and parts of the program luna (crates/luna) that uses it.
--
-- The parts and their files:
-- - Prelude (Tests, Lists, Int, Text, Decimal, Split, SplitOnce, Bytes, Dispatch): Rust's Booleans,
--   lists, 64-bit integers, texts and their lengths in bytes, and matches on literals.
-- - Protocol: `RequestId` of crates/sdk/src/protocol/shared.rs and the errors of
--   crates/sdk/src/error.rs. SerdeJson: the interface of serde_json, a parameter.
-- - Incoming: `classify_incoming` (crates/sdk/src/error.rs) and the frames that the client sends.
-- - Events (Payloads, Notifications, MethodNames, ServerRequests): crates/sdk/src/events/mod.rs, its
--   two tables with their parsers, and the payloads of crates/sdk/src/protocol.
-- - Client: `Inner` and `CodexClient` of crates/sdk/src/client/mod.rs. Pending is the map of pending
--   requests; Requests has `request_value_internal` and `send_notification`; Handlers the handlers
--   of crates/sdk/src/client/server_requests.rs; Inbound has `process_incoming_value`,
--   `fail_all_pending` and `run_inbound_loop`; Handshake has `initialize`, `initialized` and
--   `ensure_ready_with`; Typed the typed and raw requests, the responses and `next_event`. Operations
--   puts them in sequence, EnsureReady follows a handshake, and HandledBy has the table of handlers.
-- - Status, ThreadItem (Arms, Parse, Kinds): the statuses and the items of a thread with
--   `parse_thread_item` (crates/sdk/src/api.rs).
-- - Turn (Pump, Run): `pump_turn_events` and `Thread::run` (crates/sdk/src/api.rs).
-- - Thread (Normalize, Latest, Lifecycle, Pages, Requests): the normalised input, the choice of the
--   latest thread, starting, resuming and steering a `Thread`, its other requests, and all these in
--   sequence (crates/sdk/src/api.rs).
-- - Transport (Order): the reader and writer loops of crates/sdk/src/transport/mod.rs.
-- - Options (Enums, Values, Params, Wire): the options of threads and turns with their merging and
--   the parameter builders (crates/sdk/src/api.rs), and how the parameters are serialised
--   (crates/sdk/src/protocol/requests.rs). Lookup, Resume and Overrides are about the keys sent.
-- - Websocket.Auth (Host): which URL carries a token (crates/sdk/src/transport/ws.rs).
-- - Websocket (Address, Target, Probe, Server, Spawn, Ready, Start): the managed server of
--   crates/sdk/src/transport/ws_daemon.rs: its endpoints, the probe, the handle with its shutdown,
--   spawning, the wait for readiness, and the start that puts them together.
-- - Luna (Errors, Config): crates/luna/src/error.rs, and `build_thread_config` of
--   crates/luna/src/config.rs with its home directories and agents (Config.Home,
--   Config.Agents); the file system and the crate toml are parameters.
-- - Luna (Composer, Commands, Chat, Output): the chat of crates/luna/src/commands/chat.rs. Composer is
--   `InputBuffer`, Commands has `parse_input` and `suggestions_for`, Chat is `ChatApp`, with the keys
--   of `handle_idle_key` in Chat.Keys, `execute_command` in Chat.Execute, the loop of
--   `run_prompt` in Chat.Turns, its texts in Chat.Transcript, and `run_chat_loop` in Chat.Loop. Output
--   is the JSON of crates/luna/src/output/json.rs.
-- - Render (Items, Renderer): crates/sdk/src/events/render.rs.
-- - Tests: a JSON library that meets the interface, and examples.
--
-- How they interact: the transport hands frames to the inbound loop, which gives answers to the
-- pending requests and publishes the rest as events. A turn is pumped from those events to a stream
-- of thread events, which `run` reads to its end and the renderer shows. Options are merged into the
-- parameters that start a thread or a turn. Before a client connects, a server may be probed for and
-- started; a probe is a request that may carry a token. Luna builds the configuration of a thread,
-- and its chat gives the prompts of the composer to a thread and shows the stream's events.
--
-- State and time. A function that waits is cut where it waits, so that what happens meanwhile is a
-- sequence of other operations on the client's record. A oneshot channel is a number, and the record
-- says what its sender has done. A broadcast receiver is the list of what it yields, lag included; a
-- stream's consumer is the number of items that it takes. A map is a list of its entries. What the
-- network, a process or the clock answers may depend on the number of the attempt; what the system is
-- asked to do is a list of actions.
--
-- Bounds. Ids are 64-bit integers that wrap; the theorems on ids take fewer than 2^63 of them. On
-- fuel are the usage parser, with one more round than the value is deep, and the wait for a started
-- server, with 68 rounds: more than fit into its timeout of 10 s at 150 ms each. The pages of the list
-- of threads and the polls of a shutdown are bounded by the source's own limits.
--
-- Not modelled: what serde derives beyond the parameters above and what serde_json does (parameters
-- with laws), the crates url, http and tungstenite and the operating system (parameters), the
-- connections of crates/sdk/src/transport/stdio.rs and ws.rs, servers on other systems than unix, the
-- lock of an endpoint, the wrapper of each row of the RPC table, what the terminal shows of the chat,
-- and the rest of the command-line programs (crates/luna, crates/agx).
pub mod Prelude
pub mod Protocol
pub mod SerdeJson
pub mod Status
pub mod ThreadItem
pub mod Render
pub mod Events
pub mod Turn
pub mod Thread
pub mod Incoming
pub mod Client
pub mod Transport
pub mod Websocket
pub mod Options
pub mod Luna
mod Tests
