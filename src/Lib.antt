-- ===== src/Lib.antt =====
-- Fura: the bridge between browsers and `omp --mode rpc` child processes.
--
-- The bridge supervises child processes ("transports"), reads their JSON lines, keeps a projection of
-- every session, and broadcasts snapshots and deltas of it to the browsers. The parts modelled here,
-- with paths from the repository's root:
--
-- Events (src/state.rs `WsEventCoordinator`, `PendingSessionDeltas`, `stamp_session_seq`; the message
-- types of src/session.rs; `applySessionDelta` of frontend/src/sessionClientState.ts). Mutations of
-- session records become batched deltas, which a throttle timer, a later call or another message
-- flushes; every broadcast carries a sequence number per session, by which the browser notices a gap.
-- Message.antt has the messages and their numbering, Pending.antt the batch, Coordinator.antt one
-- function for each method, Client.antt the browser's replica, Schedule.antt, Armed.antt and Timer.antt
-- the timers, Records.antt what the calls do to the records, Stranded.antt one behaviour of `emit_many`. The state is `World`: session records, batch, counters and the timers
-- spawned. The coordinator's gate is a mutex that each method holds from its first access to its last
-- send, so a call is one step, and a run is a list of calls. A timer that fires is a call too; which
-- generation fires, and when, is free. Session records are a parameter, with their projection; a
-- mutation is a function of the record. The fields of a projection that a delta replaces whole are
-- one field, `header`. A session's sequence number is a u64 with the wrap-around of a release build;
-- the browser's numbers are taken to be exact. A browser drops the projection of a session that a
-- `sessions.snapshot` leaves out (`pruneStaleSessionCaches` of frontend/src/main.ts); which messages
-- are such lists, and what they list, is the instance `Roster`.
--
-- Frame (src/rpc_frame.rs). The decoder of JSON lines and of frames cut into chunks, every early
-- return included. `serde_json` and `base64` are the parameter `Codec`; text is a list of bytes, and
-- a `usize` has 64 bits. Error messages are constructors.
--
-- Recency (src/session_recency.rs). What counts as conversation, and `JournalRecency`, the fold that
-- finds the latest conversation on the active branch of a journal in one pass (Fact.antt,
-- Journal.antt, Branch.antt). A `JournalFact` is what serde makes of a record; Visit has
-- `MessageVisitor`, which reads a message key by key, and `conversation_message_timestamp`, which looks
-- at a whole one. `Timestamp::from_rpc` is a parameter there. Line has `read_json_line`: the parser's reads
-- and the amounts that the reader buffers are arguments, errors of the reader are left out, and the
-- loop of `io::copy` runs on fuel, for which one more than the bytes left is enough.
--
-- Runtime (src/state.rs `SessionRuntimeState`). The registries of transports and of the requests that
-- wait on them. A hash map is an association list; the order of its iteration, which Rust leaves
-- open, is the order of the list. A method is one step: it takes its locks one after the other and
-- waits for nothing else, and what other tasks do between two locks is left out. Methods that touch one registry only take that registry
-- (session forks, rewinds, stderr). What registries store and never look into is the parameter
-- `Payloads`.
--
-- Session (src/session.rs, src/rpc.rs, src/state.rs `apply_rpc_state_to_record`, ids of messages in
-- src/projection.rs). Types.antt, Parts.antt and Record.antt have the record of a session with the
-- source's fields, its header and its status, Review.antt and Todo.antt what is derived from tool
-- cards, Hash.antt the render hashes, Transcript.antt the loops of `SessionRecord::projection`
-- (Layout.antt beside it has the same transcript without loops). Frames has one function for each
-- frame that changes a transcript in place, with the index that its closure returns; Honest.antt and
-- Placed.antt are about that index and the places of the cards. Settle.antt has the changes of status;
-- its `while let` loop runs on fuel, for which one round more than there are messages is enough.
-- Replace.antt has `replace_record_transcript`, which
-- reconciles a record with a history. State.antt has `apply_rpc_state_to_record`. Listing.antt has which
-- sessions a list of the sessions has (src/catalog.rs, src/control.rs). Service.antt makes the events of sessions calls of the
-- coordinator of Events, with the record as its session and `projection` as its projection; Live.antt
-- is about what a browser then shows. The parameter `Crates` stands for serde_json, blake3 and `f64`;
-- a frame carries the message that `map_omp_message` made of the raw one, and a history
-- what `project_omp_transcript` made of it.
-- `slice::sort_by_key` is a stable insertion sort (Base/Sort.antt), a `HashSet` a list without
-- repetitions.
--
-- Web (src/web.rs): Auth.antt has `auth_session_handler` and the checks of `ws_handler` over the table of auth
-- sessions; the headers come as their values, and the id of a session from a UUID. The rest is what one connection sends of the broadcasts of Events: Outbound.antt has
-- `collect_outbound_events`, `conflate_server_messages`, `server_message_visible_to_connection` and the
-- rounds of `handle_socket` that serve broadcasts. What `try_recv` returns is an explicit list. Messages
-- beside those of one session are told apart by their recipients only. A send that fails ends a
-- connection, and is not modelled.
--
-- Insights (src/session_insights.rs) works on the registries of Runtime, with the session records of
-- Session. Requests.antt has `request_session_insight`, the end of the task that it spawns, and
-- `handle_session_insight_response`; Steps.antt puts them among the other steps that touch the
-- registry of waiting requests (`remove_transport`, `map_transport_to_session`, and the end of a
-- connection in `handle_socket`). When a task ends, and which channel ends are closed at a step, is free.
-- The id of a request comes from a UUID, so a request is given its id.
--
-- Time (src/timestamp.rs): Text.antt has what is used of `str`, on lists of code points, and Rfc3339.antt
-- `parse_rfc3339_utc_millis`; Civil.antt has `days_from_civil`, and Calendar.antt the calendar that
-- Days.antt compares it with. Print.antt writes the texts that Parsed.antt and RoundTrip.antt read back.
-- An `i32` of an offset is a word of 32 bits, which goes round as in a release build. Session uses this
-- parser as its `Timestamp::from_rpc`. `now` and the conversion of `SystemTime` are not modelled.
--
-- Base has the shared names, lists and tables. All functions but `io::copy` and the loop over optimistic
-- prompts are total by structural recursion. Examples runs the theorems on concrete states.
--
-- Not modelled: the tokio runtime, channels and locks; debug records; HTTP, cookies and the client's frames
-- (src/web.rs); the command dispatcher (src/commands.rs, src/main.rs); the other frames and the
-- replies of the child processes (src/rpc.rs), the mapping of raw messages (src/projection.rs); diffs, code navigation, voice and the catalog on disk.
pub mod Base
pub mod Events
pub mod Frame
pub mod Insights
pub mod Recency
pub mod Runtime
pub mod Session
pub mod Time
mod Examples
pub mod Web
