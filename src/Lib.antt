-- ===== src/Lib.antt =====
-- A verification library of the Frame TV art manager: the part that decides what happens to the
-- artwork on a TV, and that carries it out so that a crash or a lost answer loses nothing.
--
-- The program keeps a collection of artwork files (internal/collection) and one state per TV
-- (internal/reconcile). In a cycle reconciliation observes the TV through the adapter
-- (internal/samsung), settles what an earlier cycle left open, plans commands from the collection's
-- snapshot, the observation, its state and the operator's policy, and executes them one at a time,
-- each under a record that is in the state file before the command is sent.
--
-- The files and the code that each is about:
-- - Prelude: shared names, Boolean tests, lists, texts, sorts, maps, integers, and hexadecimal
--   digests (`validDigest` of internal/reconcile/validate.go in Prelude/Hex).
-- - Samsung/Types: the facts, receipts and commands of internal/samsung/adapter_types.go, errors.go
--   and slideshow_setting.go.
-- - Samsung/Errors: the errors of internal/samsung and how the adapter classifies them. Samsung/Device:
--   what a TV says of itself (types.go), its mattes, and `readPowerState`.
-- - Samsung/Adapter: the adapter's state and authorizations (adapter.go, adapter_types.go). Below it,
--   Prepare is adapter_command.go; Guard, Verify and Apply are adapter_apply.go; Observe and Observing
--   are `Observe` with adapter_observe.go; Backoff is `backoffDelay`. The others have the proofs.
-- - Samsung/Examples: its theorems at concrete inputs.
-- - Collection/Types: the snapshot of internal/collection/types.go.
-- - Reconcile/Types: internal/reconcile/types.go. Reconcile/Validate: validate.go (`validateState` is
--   `state_valid`). Reconcile/Inputs: the checks of a plan's inputs in validate.go, policy.go and
--   matte_policy.go. Reconcile/Errors: the errors of types.go, pacing.go and commands.go.
-- - Reconcile/Rotation: rotation.go (`planCapacity` is `plan_capacity`, `nextRotation` is
--   `next_rotation`), with its order, admission, bounds, determinism and next rotation below it.
-- - Reconcile/Planner: the phases of `planSnapshot` in planner.go; Reconcile/Plan puts them together
--   (`plan_commands`, `build_plan`), and has what is proved of plans below it. Plan/Settled says what a
--   TV shows for which a plan has nothing to do.
-- - Reconcile/Recovery: execution.go from `resolvePending` on; Reconcile/Recovery/Parked is
--   unresolved_upload.go.
-- - Reconcile/Execution: `samsungCommand` and the events of a run; Reconcile/Execution/Receipts is
--   receipt.go and `receiptObservation`; Reconcile/Execution/Execute is `execute`.
-- - Reconcile/Probe: the capacity probe of capacity.go (`buildPlan` of the service is
--   `build_probed_plan`).
-- - Reconcile/Wake: `scheduledWake` of wake_schedule.go; Reconcile/Wake/PowerOn is wake.go.
-- - Reconcile/Service: service.go. `run` is in Service/Start, in the order of its early returns, on the
--   requests, answers and results of Service/Request; its loop is `converge`, with its variables in
--   Reconcile/Loop, one pass of it `pass`, its end (Service/Finish) `finish`, and what an earlier cycle
--   left open is settled by `recover` (Service/Recover). The exported `Run` of service_entry.go is in
--   Service/Entry, and what a run does to wake the TV in Service/Woken. Service/PowerOff is
--   power_off.go. A property of the loop is proved through the hooks of Service/Hooks, by the rule of
--   Service/Invariant.
-- - Reconcile/Protocol: an abstract machine of the write-ahead protocol, no part of the code, which
--   says what may be written and sent in which order; the files below it show that `run` keeps to it.
-- - Reconcile/Capabilities: the capabilities of commands.go, which tie a planned command to the
--   adapter.
-- - Reconcile/Migration: `projectLegacyMapping` of migration_service.go and `validateLegacyMapping` of
--   migration.go; Migration/FirstRun has the state that a run begins with, and the deferred migration.
-- - Reconcile/Examples: the theorems at concrete inputs.
-- - Sync/Limit: `limitSnapshot` of internal/sync/collection_limit.go, which says what part of the
--   collection a cycle reconciles.
-- - Themes: internal/themes. Themes/Types and Themes/Members are themes.go (`AddMember` past its check
--   of the member, which is not modelled), Themes/Calendar is activation.go (`ActiveAt` is
--   `active_at`, for the month and day of the time), and Themes/Select is select.go (`Select` is
--   `select`).
--
-- How the code is read:
-- - A text is the list of its bytes. A time is the number of nanoseconds since Go's zero time, which
--   is 0; a duration is an integer; neither wraps around. int and int64 are unbounded integers,
--   and the revision of a state, a uint64, is an unbounded natural number.
-- - A map is an association list; theorems that need it ask that its keys be unique. Go's maps are
--   not nil here: `validateState` refuses a state file without them.
-- - An enumeration has one more constructor for the values that Go's underlying type allows.
-- - `slices.SortFunc` is an insertion sort. Go leaves the order of equal elements open, which the
--   comparisons here never meet when digests differ (Reconcile/Rotation/Determinism).
-- - An error is the list of the causes that `errors.Is` and `errors.As` find; messages are dropped. A
--   check that only returns an error is a Bool, and one that returns a value too is an Option.
-- - SHA-256 over JSON is a parameter (`Hashes`; one theorem asks that generations be valid digests), as
--   are `strings.ToLower` on file names and types (`lower`), of which no theorem assumes anything, and
--   `strings.EqualFold` (`equal_fold`), which the theorems on added members ask to be reflexive.
-- - The store, the clock, the pacing and the TV answer through `Answers`, which a run of `execute`
--   takes as given, and a scheduled wake through `WakeAnswers`; every theorem on a run is for all
--   answers. A write that returns an error is an event that leaves the stored state as it was. The
--   file may hold the new state all the same: where the outcome of the write is unknown
--   (`ErrPersistenceUnknown`), and where `removeMigratedRecord` fails after the file was replaced,
--   whose error does not say so. Either way `run` does nothing more, but after the second a power-off
--   may still be tried. A dereference of a missing setting is the event `panicked`.
-- - The answers to a whole run are `RunAnswers`: the observations, what the store and the older
--   version's mapping hold, the wakes, the recovery, the rounds of the loop and the write at the end.
--   The errors that come from outside hold neither `mutationRetryError` nor
--   `storageFullRejectionError`, which are private to the package, where a theorem asks for it.
-- - What the world answers in one pass of the loop of `run` is a round: an observation, the clocks,
--   and the answers to the command. `converge` takes the rounds in order, and waits when they are used
--   up; the theorems on it are for all rounds, however many.
-- - The transport, the file system, the context and the clock answer a call of the adapter through
--   `ApplyAnswers` and `ObserveAnswers`; a poll takes its further reads from a list, and its time is up
--   when the list ends. An inventory is what `parseUploadedContent` reads. The fingerprint of an
--   inventory and the floating-point share of a backoff are parameters (`fingerprint`, `scale`); of
--   the share one theorem asks that it does not exceed the whole. The number of a connection wraps
--   around at 64 bits. The zero value of a fingerprint is the empty list. A capability set is its bits.
-- - Values are never shared: that `receiptObservation` changes the inventory's slice in place is not
--   modelled.
-- - To reconciliation an observation has no authorization token, and an item none of the fields that
--   say how its file was made: no modelled code reads them.
-- - No function here needs fuel: the loops of the modelled code run over lists, and that of a backoff
--   counts the failures down.
--
-- Not modelled: the file format of internal/reconcile/state.go and the files of the wake record and of
-- the older mapping, the protocol behind the adapter, its `Close` and constructor, the collection's
-- store, the text checks and the file of themes, the rest of internal/sync, and all input and output,
-- image processing and web pages.
pub mod Prelude
pub mod Samsung
pub mod Collection
pub mod Reconcile
pub mod Themes
pub mod Sync
