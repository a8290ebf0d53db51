-- ===== src/Lib.antt =====
-- kn9t: a coding agent whose sessions are logs of events.
--
-- The program is a Rust workspace. A session is a log of durable events in SQLite
-- (crates/kn9t-store); the messages and the usage that the program reads back are projections of
-- that log. A turn (crates/kn9t-react) folds the log into a request to a provider, publishes live
-- events while the answer arrives, and appends what is to last. The server (crates/kn9t-server)
-- shows both kinds to its clients: it replays the log, then sends what its subscription to the
-- broadcast bus (crates/kn9t-core) yields. One client at a time holds the lease that writes need.
--
-- Core: crates/kn9t-core.
--   Core.Message, Core.Model, Core.Event: message.rs, ids.rs, model.rs, usage.rs and event.rs of
--     crates/kn9t-core/src, the vocabulary. `seq_of`, `with_seq` and `to_observable_event` are the
--     methods of these names.
--   Core.Cost: `cost_micros` of crates/kn9t-core/src/model.rs; the cast to i64 wraps as in Rust.
--   Core.Cache: crates/kn9t-core/src/cache.rs, where the marks of a provider's prompt cache go.
--   Core.Wildcard: `wildcard_match` and `value_to_pattern` of crates/kn9t-core/src/toolspec.rs, the
--     patterns of a tool's policy.
--   Core.Ring: crates/kn9t-core/src/bus.rs. `push`, `try_recv`, `publish`, `subscribe` are one
--     step each under their lock; a ring has a place in a heap, and the bus holds these places
--     weakly.
-- Store: crates/kn9t-store.
--   Store.Database: the tables of crates/kn9t-store/src/db.rs that the log and its projections
--     use, the SQL statements run on them, and the one transaction of the connection.
--   Store.Project: crates/kn9t-store/src/project.rs, an event's rows and how they are written.
--   Store.Session: `append` and `create_session` of crates/kn9t-store/src/session.rs. Any
--     statement may be refused.
--   Store.Reproject: crates/kn9t-store/src/reproject.rs, the projections rebuilt from the log.
--   Store.Snapshot: `read_attach_snapshot` of crates/kn9t-store/src/db.rs, what an attaching
--     client has missed.
--   Store.Fork: crates/kn9t-store/src/fork.rs, a session that begins with a copy of another's log.
--     Whether SQLite takes its BEGIN is an argument.
--   Store.Deletion: crates/kn9t-store/src/session_delete.rs, blob.rs and `decr_blob_refs` of project.rs.
--   Store.Live: crates/kn9t-store/src/live.rs, what a running turn leaves behind for the case that its
--     process dies, and `salvage` of crates/kn9t-server/src/bus.rs, which writes it. The query that would
--     read a call's progress back is refused, as its text is in the source.
--   Store.Plan: crates/kn9t-store/src/plan.rs, how calls without a result are closed before a
--     request is made, and which messages a compaction takes.
--   Store.Plan.Request: `plan_request` of crates/kn9t-store/src/plan.rs, which folds the log of a session
--     into a request: the model of the session (crates/kn9t-store/src/db.rs), the tokens estimated
--     (crates/kn9t-store/src/project.rs), the pictures inlined, the calls closed, the marks of Core.Cache,
--     and the span to compact. The progress that Store.Live keeps of a call is asked for, but its query is
--     not SQL: SQLite refuses it, and the error is dropped.
-- React: crates/kn9t-react.
--   React.Attempts: `one_attempt` of crates/kn9t-react/src/exec.rs and the attempt loop of
--     `execute_turn` of crates/kn9t-react/src/turn.rs, whatever the store, the compactor and the
--     provider answer.
--   React.Tools, React.Tools.Dispatch: `authorize`, `execute_one` and `run_tool_batch` of
--     crates/kn9t-react/src/exec.rs, with the hook wrappers of crates/kn9t-react/src/hooks.rs. When the
--     user cancels and how each worker thread ends is a `Schedule`. Tools.Slots says what a call is
--     owed, Tools.Transcript which calls the results answer.
--   React.Turn, React.Turn.Run: `execute_turn` and `run` of crates/kn9t-react/src/turn.rs, around the
--     attempts and the batch. What the outside answers in a turn is a `TurnInput`, the plans
--     that the compactor returns and whether a tool panics in the calling thread among it; the durable events
--     that the store takes, those of a compaction too, and the live marks of the turns are the state.
-- Plugin: crates/kn9t-plugin.
--   Plugin.Composed: crates/kn9t-plugin/src/composed.rs, several plugins in the place of one, with
--     the verdicts of crates/kn9t-core/src/hook.rs (Core.Hook).
-- Provider: crates/kn9t-provider-core.
--   Provider.Assemble: crates/kn9t-provider-core/src/assemble.rs, a stream's chunks folded into a message.
--     Assemble.Stream says of a stream, without a loop, what each index gets.
--   Provider.Retry: crates/kn9t-provider-core/src/retry.rs, the attempts before a stream begins.
-- Server: crates/kn9t-server.
--   Server.Lease: crates/kn9t-server/src/lease.rs, `acquire`, `holds`, `touch`, `release`,
--     `force_release`.
--   Server.Attach: crates/kn9t-server/src/sse.rs, what a client is sent before the live loop.
--   Server.Turns: the registry of running turns of crates/kn9t-server/src/turn.rs (`TurnSlot`,
--     `release_turn`, `abort_turn`), the idle counters of crates/kn9t-server/src/state.rs, and the release that
--     `emit` of crates/kn9t-server/src/bus.rs makes. Turns.Live has the steps of a server with the
--     guards that its threads hold.
--   Server.Approval: crates/kn9t-server/src/policy.rs and `resolve_approval` of
--     crates/kn9t-server/src/turn.rs. Approval.Wait is the thread that waits for an answer; what others
--     do between two of its looks is a list of moves.
-- Tui: crates/kn9t-tui.
--   Tui.InputHistory: crates/kn9t-tui/src/input_history.rs, undo and redo in the prompt editor.
-- Prelude: white space, Boolean tests, lists measured by the native numbers, integers, keyed tables.
-- Tests: each result below at an input that meets its conditions.
--
-- Unsigned words are natural numbers; where SQL gets one as an i64, it turns negative from 2^63 on. `compact_span` moves its cut forward at most once for each
-- message, and that is its fuel: a cut at the end of the transcript stops it. A numeral of a u64 has at
-- most 20 digits, the fuel of `decimal`. The attempt loop of a turn has the fuel that its result
-- below shows to be enough; the cut of a call's progress moves by at most 3 bytes to the boundary of a
-- character, its fuel; a run has one turn of fuel more than `max_turns`, and without that limit
-- any fuel. The other loops recur on a list.
--
-- Third-party code is a parameter: the JSON of `serde_json` in both directions, the hash of a blob, the random token of
-- a lease, fresh message identifiers, base64, the f64 product of a context window and 0.80, the JSON values of a
-- call's arguments, the extension and the parent of a path, the clock, and whether SQLite refuses a statement. The
-- statements' own meaning (a filter, an insertion, a primary key, BEGIN and ROLLBACK) is modelled;
-- `ORDER BY seq` is a sort; that of the replay, by session and number, is a parameter of which a
-- hypothesis says that rows of a session that are rising stay in order.
--
-- Not modelled: of a turn the reminders, and the events
-- that tell clients of its phases; the provider clients, the subprocesses of plugins, the rest of the
-- terminal interface, the HTTP routes and the command line, which are mostly input and output; in
-- the store, the sums of costs, plugin keys, migration and opening; the file that keeps the approvals that
-- always hold; behind the BEGIN of a fork the statements that SQLite refuses for reasons of its
-- own; the socket writes of the live loop. The f64 mirrors of costs that the program keeps in micro-dollars are left out
-- everywhere.
pub mod Prelude
pub mod Core
pub mod Store
pub mod React
pub mod Server
pub mod Tui
pub mod Plugin
pub mod Provider
pub mod Tests
