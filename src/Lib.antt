-- ===== src/Lib.antt =====
-- A model of the pure core of VillaStraylight: the decisions and transactions by which `villa`
-- changes a running stack of local AI services.
--
-- The parts. A config (internal/config) names what is served; the subsystem registry
-- (internal/subsystem) reads its gates; the pin state store (internal/pinstate) records which images
-- run and which are retained for a rollback. `villa update` moves subsystems to new pins one at a
-- time (internal/updateflow). Every other change of the running stack goes through one transaction
-- frame (internal/stackapply), to which each verb hands a change: internal/backendswap,
-- internal/modelswap and internal/codingmode. A model joins the resident set only as
-- internal/residentset admits it. After an update internal/prune and internal/snapshotprune decide
-- what of the old pins and data may be deleted. New pins come from a signed manifest, which
-- internal/manifest and internal/manifestverify accept or refuse. Beside the stack,
-- internal/approval answers the tool calls of the workspace agent, whose tasks internal/taskrun
-- drives and internal/taskstore records.
--
-- The files, and what each models:
--   Base and its children: names, Boolean tests, list lemmas and `Result`, for all the others.
--   Config: the config record of internal/config/villaconfig.go.
--   Subsystem: the kinds and gates of internal/subsystem/subsystem.go, and its units.go in Units.
--   PinState: the store's data and accessors, internal/pinstate/store.go.
--   Pins: the entries of internal/pins/pins.go; PinResolve: internal/pinresolve/resolve.go, which
--   joins the table of pins and the store.
--   UpdateCheck: the data of internal/updatecheck/check.go, which reads PinResolve and a verdict of
--   Manifest; Rows and Checks: the row of a subsystem, `Check` and `Updatable`.
--   Catalog: an entry of internal/catalog/catalog.go. Recommend: the data of internal/recommend;
--   Words: kv.go; Reserve, Fit, Sidecars, Build and Pick: recommend.go and envelope.go; Coder:
--   coder.go.
--   UpdateFlow: the data; Steps and Run: `rollback`, `finishAfterMutation`, `runStatefulMutation`,
--   `runOne` and `Run` of internal/updateflow/updateflow.go; its other children hold the proofs.
--   ResidentSet: the data of internal/residentset/residentset.go; Admit: `Admit` and its helpers.
--   StackApply: the data; Write: `Apply`, `write` and `heal` of internal/stackapply/stackapply.go;
--   Restart and Transact: `RestartChanged` and `Transact` of internal/stackapply/transact.go.
--   ImagePrune, SnapshotPrune: `Decide` of internal/prune and of internal/snapshotprune.
--   Manifest: the document and the allowlist of internal/manifest/manifest.go; Manifest/Verify:
--   `Verify` of internal/manifestverify/verify.go.
--   Approval: the requests of internal/approval/approval.go; Commands: chains, deletions and safe
--   commands; Paths: the allowlist and its path arguments; Answers: `Decide`.
--   TaskStore: the states and the record of internal/taskstore; Records: `Create`, `Load`,
--   `Transition`, `List` and `Recover` of taskstore.go. TaskRun: the data of internal/taskrun; Moves,
--   Audit and Worker: the methods of `job` and `Runner.run` in worker.go; Queue and Calls: the calls
--   of taskrun.go, cut where the runner's lock is taken and released and where the store is read and
--   written, and the interleaving of these parts with the worker; Reasons: what entitles the worker
--   to each of its answers, read off the signals alone.
--   BackendSwap, ModelSwap, CodingMode: the changes of the three packages, run through the frame.
--
-- How code becomes a definition. A seam (a func field of a `Deps`) is a function of the host's
-- state, which it returns changed; a field that may be nil is an `Option`. An early return is a
-- clause of the helper that goes on with a call's result, so a Go function of several calls is a
-- chain of such helpers. Go's `error` is an `Option Error`, `(value, error)` is a `Result`. A map is
-- an association list. `uint64` is ℕ modulo 2 ^ 64; other integers are ℕ. Loops are structural
-- recursion on the list they range over, so no fuel is needed; the worker's loops range over the
-- signals that its channels deliver. A theorem about the order of calls
-- runs the code on a host with a log.
--
-- Not modelled: the seams themselves (systemd, podman, HTTP, files), which the theorems take with
-- the laws that the seams' comments promise; the rendering of unit files; the JSON and TOML
-- stores; time parsing and ed25519; the command line and the dashboard; the subscribers of a task. The
-- string types of the code that have a fixed list of values (a task's state, a subsystem's shape) are
-- the enums of that list, so a record with another state is not represented.
pub mod Base
pub mod Config
pub mod Subsystem
pub mod PinState
pub mod Pins
pub mod PinResolve
pub mod UpdateFlow
pub mod ResidentSet
pub mod StackApply
pub mod BackendSwap
pub mod ModelSwap
pub mod CodingMode
pub mod ImagePrune
pub mod SnapshotPrune
pub mod Manifest
pub mod Approval
pub mod Catalog
pub mod Recommend
pub mod TaskRun
pub mod TaskStore
pub mod UpdateCheck
