-- ===== src/Lib.antt =====
-- Outboard: plugins as separate executables, found by name, asked for a manifest, and run once or
-- as a worker over a framed protocol. The crates are under crates/.
--
-- The parts and the files that model them, one module for each source file of the crates:
-- - Id: crates/outboard-core/src/id.rs. Identifiers are texts (lists of bytes) that
--   `validate_identifier` accepts; a PluginId has three of them, and names its executable.
-- - Manifest: crates/outboard-core/src/manifest.rs. Manifest/Validate is `Manifest::validate`,
--   Manifest/Compatibility is `compatibility_issues` and its look-ups, Manifest/Builder the
--   builders of manifests and of requirements.
-- - Discovery: crates/outboard-core/src/discovery.rs. Discovery/Roots is `build_roots`,
--   Discovery/Scan is `discover_in_roots` with its two maps and its counter as the state `Found`.
--   Discovery/FirstWins, Discovery/Offers and Discovery/Outcome see a scan as a list of offers.
-- - Cache: crates/outboard-core/src/cache.rs. `ManifestCache` is the state; Cache/Persist adds the
--   contents of the cache's file and of the temporary file, with a failure of each file operation
--   as an input.
-- - Process: crates/outboard-core/src/process.rs. A child is what its polls answer and what the
--   threads on its pipes yield.
-- - Registry: crates/outboard-core/src/registry.rs. It uses Discovery for candidates, Process to
--   ask for a manifest, Manifest to check it, and Cache to keep it; the cache behind the mutex is
--   passed through `inspect` and `resolve_best` as part of the registry.
-- - Doctor: crates/outboard-core/src/doctor.rs.
-- - Protocol: crates/outboard-protocol/src/lib.rs. Protocol/Framing is the framed reader over a
--   stream that ends or fails anywhere, and the framed writer over a sink that fails anywhere.
-- - Control: crates/outboard/src/control.rs, the reserved invocations of a plugin.
-- - Worker: crates/outboard/src/worker.rs. Worker/Server is `serve_worker` over the frames that its
--   reader yields before it fails; a handler's run is a tree of the calls of its responder.
--   Worker/Client is `WorkerClient` over the arrivals of its reader thread, of which a pause is
--   one as long as the control timeout; Worker/Client/Spawn is the handshake.
-- - Tokio: crates/outboard-tokio/src/lib.rs. Tokio/Server is `serve_worker`: its main task, the
--   task of each invocation and the task that writes are in one state, `Server`, and a `Turn` lets
--   one of them take a step, in any order; `Reach` is where turns lead. A handler's run is a tree of
--   the uses of its InvocationContext, which may wait, learn something from outside, and panic. It
--   may give clones of the context away, which hold a sender each: the state counts them by their
--   requests, and a turn lets one of them report, be cloned again or be dropped, also when its
--   invocation has ended. A cancellation token is a number that the map and the task share. Tokio/Client is `WorkerClient`
--   with the task of its reader: the map of requests, the channels, and the acts on them in any
--   order; `Invocation::finish` is a poll over what its channel holds. Tokio/Framing is the
--   asynchronous reader and writer, Tokio/Meeting the client and the worker together.
-- - Management: crates/outboard-clap/src/management.rs, the commands that list, inspect and examine
--   plugins, less what they print.
-- - Testing: crates/outboard-testing/src/lib.rs. `check_plugin` with the runs of Process and the
--   client of Worker; Testing/Controls and Testing/Conforms say what a report without a failure means.
-- - Derive: crates/outboard-clap-derive/src/lib.rs. Derive is the renaming, Derive/Config the
--   configuration of a field, Derive/Emission the code of a field as a function from the field's
--   value to the arguments that the code appends, with `push_flag_value` of
--   crates/outboard-clap/src/lib.rs; Derive/Emission/ReadBack reads the values from them.
--   Derive/Expansion is the code of a struct or an enum, Derive/Subcommands what an enum's appends.
-- - FileSystem: what the operating system answers, and the path functions of the standard library
--   on Unix. BtreeMap: the standard library's map. Crates: `semver` and the values of `serde_json`
--   as a parameter. Prelude: shared types, tests, orders, the stable sort, and lemmas.
-- - Tests: examples on concrete data.
--
-- Loops are structural recursion over the list that the source walks, but for the wait of
-- `run_capture`, which has fuel: one round for each millisecond of the limit and one more, where
-- every round sleeps 5 milliseconds.
--
-- Not modelled: the texts of errors (a rejection holds the error or the issues that its text is
-- made from), JSON (its codecs are parameters), the hash of the cache's keys and the lossy text of
-- a plugin's error output (parameters), a poisoned lock, the file system changing during one
-- operation, threads that never end, and Windows. Of the asynchronous worker, the handler's own
-- shared state is left out (what it learns from outside stands for it), a panic in its `cancel`,
-- and the steps within `invoke` of the client, which is one act. Of the derive macro, what syn and
-- quote do is left out, with the generics and the path of the runtime crate. The rest
-- of the clap integration and the examples are not modelled. A `Writer` that has failed once fails
-- for every later frame.
pub mod Prelude
pub mod BtreeMap
pub mod Id
pub mod Crates
pub mod Process
pub mod Manifest
pub mod FileSystem
pub mod Cache
pub mod Discovery
pub mod Protocol
pub mod Registry
pub mod Doctor
pub mod Control
pub mod Worker
pub mod Tokio
pub mod Management
pub mod Testing
pub mod Derive
pub mod Tests
