-- ===== src/Lib.antt =====
-- A verification of remote-codex, a program that runs Codex on one machine against the files and
-- processes of another.
--
-- Parts. The endpoint of a file transfer (crates/transfer/src) answers commands about files under
-- one directory: it stages a file block by block beside its destination, keeps a journal of how far
-- it has come, and puts the file in place by a rename. The client (crates/client/src) keeps one
-- budget of reconnection attempts and, for each session, what its agent was doing when the
-- connection was lost. Its settings come from layers of configuration (crates/core/src/config), the
-- limit of attempts among them. Client and server talk in frames (crates/protocol/src). The client
-- copies a file by commands to two endpoints, one of them remote (crates/client/src/transfers). The
-- service on the remote machine (crates/server/src) takes operations for the executor, decides which
-- may run, keeps what the executor says and gives it to who attaches again. The adapter
-- (crates/codex-adapter/src) reads the messages of Codex and writes the answers of the user.
--
-- Files.
--   Base and its children: numbers, lists, tests and results that the other modules share.
--   Transfer: the protocol's data, crates/protocol/src/transfer.rs (Stamp, Kind, Reply, CHUNK).
--   Transfer/Paths: `components` of crates/transfer/src/paths.rs. Children: Plain, Tests.
--   Transfer/World: the disk as an endpoint sees it, with the schedule of what happens to its calls.
--   Transfer/Stages: crates/transfer/src/journal.rs, `Stage::save`, `Endpoint::stage`.
--   Transfer/Inspect: crates/transfer/src/inspect.rs, `read`, `hash`, `metadata`.
--   Transfer/Staging: crates/transfer/src/staging.rs, `prepare`, `write`, `commit`, `cancel`.
--   Transfer/Endpoint: `dispatch` of crates/transfer/src/lib.rs.
--   Transfer/Triples, Stages/Rules, Stages/Holding, Stages/Lock, Inspect/Quiet: rules for conditions before and
--     after the operations, on success and on failure. The children of Staging and of Endpoint are
--     proofs by these rules.
--   Session: crates/core/src/goals.rs, status.rs, session.rs. Session/Errors:
--     crates/client/src/error.rs. Session/Intent: crates/client/src/local/intent.rs.
--     Session/Recovery: crates/client/src/remote/recovery.rs.
--   Config: crates/core/src/config. Keys: key.rs. Values: value.rs and registry.rs. Layers: layer.rs.
--     Resolve: resolve.rs. Text: the operations on texts that they use, on code points.
--   Protocol/Codec: crates/protocol/src/codec.rs, with what `fill_buf` returns as a list.
--   Protocol/Wire: crates/protocol/src/transfer/wire.rs.
--   Config/Environment: crates/core/src/config/environment.rs.
--   Connections: crates/core/src/connection.rs.
--   Exec: actions with a state and an error, as the client and the service are written in. Exec/Triples:
--     conditions before and after them. Json: the values of JSON and how the code looks into them.
--   Client/Tasks: crates/client/src/transfers/model.rs. Client/Peers: `call` and `stat` of peer.rs.
--     Client/Copy: copy.rs, with proofs in Calls, Rounds, Followed and Account. Client/Conflict:
--     conflict.rs, with proofs in Consent, Decided and Decision. Client/Pair: the two endpoints of Transfer behind `call`.
--   Server/Policy: crates/server/src/execution/policy.rs and crates/protocol/src/approval.rs.
--     Server/Replay: crates/server/src/storage/retention.rs, `execution_events` of execution.rs.
--     Server/Tables: the statements of crates/server/src/storage that operations use.
--     Server/Operations: crates/server/src/execution/operations.rs, `dispatch`; Collect: `collect`; Run:
--     the loop of actor.rs that calls them. Its other children are proofs.
--   Adapter: crates/codex-adapter/src. Delivery: gateway/connection.rs. Forms and Interactions: interactions.rs.
--     Status: status.rs. Goals: goals.rs. Events: events.rs.
--
-- Time and failure. Each file system call takes one event of a schedule, a list: the call may fail
-- (a write with some of its bytes written), another process may first put anything at the
-- destination, or the endpoint may be stopped. After the end of the list the calls succeed. A
-- process that dies is one whose next call fails: after a failure the code only returns it, or looks
-- at it. A loss of power that drops data not yet synced is not modelled. The list
-- is finite and each operation of an endpoint makes finitely many calls, so that its loops are
-- structural recursion and need no fuel.
--
-- Bounds. Lengths and offsets are ℕ. The code computes them in u64 from file lengths and blocks of
-- at most CHUNK bytes; `modified` saturates as in the code, and revisions wrap at 2 ^ 64.
--
-- Left out. One destination path and one token are modelled, so that two transfers never share a
-- staging directory here. The journal's JSON is the record itself, and the bytes of it, of which the code reads
-- 16384 at most, are a parameter. The message beside a fault code
-- is left out. A message between client and service arrives and is answered, or fails, but what the
-- wire does to it is not modelled; a statement of SQL has its effect or not, and may fail either way.
-- The copy loop has as much fuel as bytes are left, the search for a free name the 9998 tries of the code.
-- SHA-256, the parser of tokens, the metadata of a new file, the parsers of JSON and of
-- URLs and the texts of errors are parameters. The maps of settings are lists of entries, without
-- the order of their keys. `hash_file` reads in one read. Writing does not change a staged
-- file's time, which `commit` sets anyway. `published` in the world is a history that no code reads.
-- The errors of writing a frame are one error; errors of reading one, and of the adapter's gateway its
-- Pong frames and the failure that it keeps, are left out.
-- Not modelled: SQL, the desktop application, the command line, SSH, credentials, updates, the scan of
-- a directory and the engine of transfers, the actor's timers, the output of jobs, and of the adapter the
-- notices, the tools, the history and the threads of Codex.
pub mod Base
pub mod Exec
pub mod Transfer
pub mod Session
pub mod Protocol
pub mod Config
pub mod Client
pub mod Json
pub mod Server
pub mod Adapter
pub mod Connections
