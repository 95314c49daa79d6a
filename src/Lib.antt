-- ===== src/Lib.antt =====
-- The sync engine, the transfers, the glob patterns and the deletions of AbixIO UI: the planner that
-- compares two listings, the run plan, the dispatcher that works it off, the screen's guards before
-- anything is deleted; the copies, moves, imports and exports with their conflicts; the matcher of
-- patterns; the deletion of selected objects and of whole buckets.
--
-- The program and this library:
-- * src/app/types.rs holds the data. Sync/Types has that of the planner, Sync/State the screen's
--   (`SyncState`, `SyncExecutionState`) and the run's. Names are the source's, in snake_case for
--   variants. A `String` and a `PathBuf` are lists of code points (Common/Text).
-- * src/app/sync_ops.rs plans. Sync/Compare has the comparison of two objects, Sync/Plan
--   `build_sync_plan`, Sync/RunPlan `prepare_sync_run_plan`. The two `BTreeMap`s are ascending
--   association lists (Common/Map); the loop over the sorted paths is `plan_loop`, its body
--   `decide_path` and `push_item`.
--   Sync/Filters has the filters of that file, with the crate `time` as a parameter.
-- * src/app/handlers/sync.rs runs. The handlers that change a setting are the functions of
--   Sync/Screen/Settings, one clause for each message; `validate_sync_config` and the like are in
--   Sync/Screen/Validation; the handlers up to `SyncPlanBuilt` in Sync/Screen/Planning; those from
--   `StartSync` to the end of a run in Sync/Screen/Running. A handler takes the screen's state to
--   the new state and the tasks that it starts.
-- * `dispatch_sync_execution` is in three files: Sync/Execution/Phase has the loop over the
--   phases, Sync/Execution/Tasks the next transfer and the next batch of deletes,
--   Sync/Execution/Dispatch the hand-out to the workers and the end of a run.
--   Sync/Execution/Messages has what the two messages of finished tasks change, and `Reach`: the
--   executions that a run reaches when tasks finish in any order and with any result, each with
--   the tasks handed out so far.
-- * src/app/handlers/delete.rs deletes. Delete has the modal that removes the selected objects in
--   batches (`BulkDeleteState`), with the fields of `App` that its handlers read and change.
--   Delete/Batches has the states that it reaches when its button is pressed and batches finish,
--   in any order.
--   Delete/Prefix has the modal for what lies under a prefix, which works as the bulk deletion does.
--   Delete/Bucket has the modal that removes a bucket with its objects, one step at a time;
--   Delete/Bucket/Reach what it reaches when its preview arrives, its name is typed, its button is
--   pressed where it is enabled, and its steps succeed or fail.
-- * src/app/handlers/transfer.rs copies, moves, imports and exports. Transfer/Types has the state
--   and the parts of `App` that its handlers read, Transfer/Modal and Transfer/Starting the handlers up
--   to the start of a transfer, Transfer/Steps those of a running one. `run_transfer_step` of
--   src/app/transfer_ops.rs is in Transfer/Work, over the storage calls that Transfer/Storage lists as an interface with
--   its laws. Transfer/Reach joins both: the apps and worlds that a prepared transfer reaches, each
--   with the tasks whose message is to come, where the result of a step is what
--   `run_transfer_step` gives in that world. Transfer/Prepare makes the items of imports and exports.
-- * Sync/Work has `execute_sync_run_item` of the same file, over an interface of its own, with the loop
--   that prunes empty directories and the future of a transfer (`PendingSyncTask::into_task`).
-- * src/app/transfer_ops.rs matches patterns. Glob has `wildcard_match`, Glob/Segment the loop on a
--   segment without `**`, Glob/Reference what such a segment means.
-- * The other files of Sync/Plan, Sync/RunPlan, Sync/Execution and Sync/Screen hold proofs,
--   as do those of Transfer, Glob and Delete; the modules named Tests hold the tests, and
--   Transfer/Memory a storage for them. Common has the lists, texts, numbers, maps and results
--   that the parts share.
--
-- Bounds and fuel: a `u64` sum is taken modulo 2^64, as a release build does; `usize` has 64 bits;
-- `saturating_sub` is the subtraction of natural numbers. The loop over the phases has three
-- rounds of fuel, and each `while` of the hand-out as many as there are workers. A batch of
-- deletes has at most 1000 keys. The loop on a segment has as much fuel as the product of the two
-- lengths, one added to each: every retry of a star gives up one more character of the text. The loop
-- that prunes directories has as much as its path has characters, since a parent is shorter.
--
-- Not modelled: what a task of a sync or of a deletion does on the network or the disk, so a finished
-- task may have any result; in a transfer, what the storage calls do beyond their laws (a call
-- changes the place that it names, a copy that succeeds arrives; whether a HEAD request answers for
-- what is there is left open); the clock fields of the telemetry and of a run; `App.error`, in which
-- the sync handlers repeat an error; other path separators than `/`; the folder dialogs. Whether a client can be
-- made for a connection is a parameter, since keys come from the operating system. The walks over
-- directories and listings, the bucket documents, the browser, the S3 and
-- administration clients and the views are left out.
pub mod Common
pub mod Delete
pub mod Glob
pub mod Sync
pub mod Transfer
