-- ===== src/Lib.antt =====
-- A model of the Rust side of Corivo Desktop, with the theorems that make its parts correct. Paths are below
-- apps/desktop/src-tauri/src.
--
-- The app reads what is on the screen, keeps it as rows of a table, and lets agents work with it. The parts that
-- are modelled, and how they meet:
--
-- * Privacy (services/privacy_filter, domain/privacy.rs): before a text goes to an agent, a model labels its
--   tokens, `decode_bioes` makes spans of them, `redact` replaces the spans of the enabled categories, and
--   `PrivacyFilter::classify_and_enforce` does both behind a cache. Privacy/Label, Decode, Redact and Filter
--   hold the definitions, and the modules below them the proofs.
-- * Capture (services/exclusion, website_exclusion, capture_pipeline, snapshot_consumer): `tick` probes the app
--   in front, asks `ExclusionEngine::check`, compares with the last row, extracts and hands an envelope to
--   the consumer, which flattens it to a row. Capture/Exclusion, Website, Frame and Tick are these;
--   Capture/Lifecycle is `start`, `stop`, `pause_until` and `resume_internal`, and Capture/Debounce what makes
--   of the events of the system the jobs that tick: `coordinator_loop` and `Debouncer`.
-- * Workflow (services/scheduled_workflows, domain/workflow.rs): `Trigger::next_after` says when a schedule fires,
--   the store keeps the schedules and hands out what is due, and the ticker queues it. Workflow/Trigger,
--   Store, Slug and Ticker are trigger.rs, store.rs and ticker.rs.
-- * Background (services/background_agent_task/scheduler.rs): the queue that the ticker fills, its one worker and
--   the cancellation, as a relation between states with one constructor for each thing that can happen.
-- * Helper (services/capture_client): the client of the process that captures screens and reads windows. The loop reads lines, makes
--   messages of them and hands a response to the request that waits for it; when the helper ends, it closes the router, and no request
--   is left waiting. Helper/Protocol, Codec, Router, Reader and Client are protocol.rs with error.rs and health.rs, codec.rs,
--   router.rs, and the parts of process.rs and client.rs that use them.
-- * Quick Ask: a double tap of Alt or Option (Hotkey, services/double_tap_hotkey.rs) captures what is in front in two phases
--   (Capture/QuickAsk, in services/capture_pipeline/mod.rs), which share the exclusions and the consumer with the tick.
-- * Memory (services/memory, services/tokenize.rs): which frames, notes and messages a question recalls.
-- * Privacy/Session (services/privacy_filter/session.rs) is what stands between the model and `decode_bioes`, and gives the filter
--   its spans.
-- * Config (domain/config.rs, services/config_service.rs): the settings, how a start reads them and how `update` saves them.
--   Config/Domain and Defaults are the structs, Rules `normalize` and `validate`, Service the start and the update.
-- * Learner (services/session_learner): the poll queues the threads that are idle, the end of a run saves what the agent learned
--   and moves the checkpoint of the thread. Learner/Idle is idle.rs, with the whole as a relation between states, and Learner/Task task.rs.
-- * Retention (services/retention): a round deletes the frames, the sessions and the agent's files that are older than 90 days.
--   It is modelled with what it calls of services/capture_store.rs and db/repos/frames.rs, and its errors.
--
-- How the code is written down. A text is the list of its code points, and where bytes matter their number is
-- counted. A field behind a lock is a field of a state that the operations take and return; one call is not
-- interleaved with another, but for the scheduler, the helper's requests and the learner, whose steps come in any order. An instant is a number of milliseconds since 1970 and not
-- negative. Numbers do not overflow at the sizes that occur, and are not bounded. What an SQL statement does is
-- a function on the list of rows; that SQLite fails is modelled only for the
-- writes of the learner and the retention. The learner's steps are those in which its reads of
-- messages and checkpoints succeed. The loops run over lists, or over
-- the three or eight days that the source bounds them by; only the helper's reading loop has fuel, and more of it than there are
-- bytes to come is enough.
--
-- What is not under the repository's own control is a parameter: `f32` (F32 in Base/Float), the `lru` crate (LruCache
-- in Privacy/Filter), `chrono`, `chrono_tz` and `cron` (Calendar in Workflow/Trigger), the ONNX model, `serde_json`,
-- `sha2` and `jieba-rs`, the tokenizer; and the answers of the operating system and the repositories are the record Outside of
-- Capture/Tick. Left out are logging, the events to the user interface, the pauses of the endless loops, the agent
-- processes, HTTP, the commands, and everything in TypeScript and Swift.
pub mod Base
pub mod Privacy
pub mod Capture
pub mod Workflow
pub mod Background
pub mod Helper
pub mod Hotkey
pub mod Memory
pub mod Config
pub mod Learner
pub mod Retention
