-- ===== src/Sync/Screen/Running.antt =====
-- From a plan to a run: the handlers of src/app/handlers/sync.rs between `StartSyncCopy`,
-- `StartSync` and the end of a run, with their guards.
use abixio_ui.Common.{
  ℕ, ◌*◌, ◌-◌, ◌^◌, Bool, true, false, not, ◌&&◌, Option, none, some, List, [], ◌∷◌, ◌++◌,
  if◌then◌else◌, ltb, ◌==◌, nat_eq, is_empty, length,
}
use Prim.Native.Nat.{min}
use abixio_ui.Common.Text.{Text, text, text_eq}
use abixio_ui.Common.Number.{trim, display}
use abixio_ui.Common.Result.{Result, ok, err}
use abixio_ui.Sync.Types.{SyncMode, SyncPlan}
use abixio_ui.Sync.Plan.{add64}
use abixio_ui.Sync.State.{
  SyncRunItem, SyncRunPlan, SyncExecutionPhase, SyncExecutionState, SyncDeleteBatchResult,
  SyncDeleteConfirmState, SyncState,
}
use abixio_ui.Sync.Execution.Phase.{RunConfig}
use abixio_ui.Sync.Execution.Tasks.{PendingSyncTask}
use abixio_ui.Sync.Execution.Dispatch.{dispatch_execution, Spawned}
use abixio_ui.Sync.Execution.Messages.{fresh_execution, first_phase, finish_transfer, finish_delete}
use abixio_ui.Sync.Screen.Validation.{
  validate_sync_guardrails, parse_transfer_workers, parse_delete_workers,
}

abbrev pub Started : Type 0
Started = SyncState × List PendingSyncTask

abbrev or_four : Result ℕ → ℕ
or_four (ok n) = n
or_four (err _) = 4

-- What `dispatch_sync_execution` reads of the screen.
unfoldable pub config_of : SyncState → RunConfig
config_of s = record {
  mode = s.mode;
  delete_phase = s.policy.delete_phase;
  ignore_errors = s.delete_guardrails.ignore_errors;
  transfer_workers = or_four (parse_transfer_workers s.tuning.transfer_workers_text);
  delete_workers = or_four (parse_delete_workers s.delete_guardrails.delete_workers_text);
}

abbrev stage_of : SyncMode → SyncExecutionPhase → Text
stage_of mode SyncExecutionPhase.deleting_before = text "Deleting before copy"
stage_of SyncMode.copy SyncExecutionPhase.copying = text "Copying"
stage_of mode SyncExecutionPhase.copying = text "Syncing"
stage_of mode SyncExecutionPhase.deleting_during = text "Syncing with deletes"
stage_of mode SyncExecutionPhase.deleting_after = text "Deleting extras"
stage_of mode _ = text "Idle"

-- The stage shown after a call of the dispatcher: "Idle" unless it started a task.
abbrev pub stage_after : SyncMode → Spawned → Text
stage_after mode (e, []) = text "Idle"
stage_after mode (e, spec ∷ specs) = stage_of mode e.phase

abbrev pub run_on : SyncState → Option SyncExecutionState → Started
run_on s none = (s, [])
run_on s (some e) =
    let d = dispatch_execution (config_of s) e in
    (
      record s {
        execution = some d.0;
        telemetry = record s.telemetry { stage = stage_after s.mode d };
      },
      d.1,
    )

-- `dispatch_sync_execution`
unfoldable pub dispatch_sync_execution : SyncState → Started
dispatch_sync_execution s = run_on s s.execution

abbrev pub with_execution : SyncState → Text → SyncExecutionState → SyncState
with_execution s stage e = record s {
  execution = some e;
  telemetry = record s.telemetry { stage = stage };
}

abbrev start_copy_with : SyncState → Option SyncRunPlan → SyncState
start_copy_with s none = s
start_copy_with s (some r) =
    with_execution s (text "Copying")
      (fresh_execution SyncExecutionPhase.copying r.total_transfer_bytes r)

-- `start_copy_execution`
unfoldable pub start_copy_execution : SyncState → SyncState
start_copy_execution s = start_copy_with s s.run_plan

abbrev pub start_sync_with : SyncState → Option SyncRunPlan → SyncState
start_sync_with s none = s
start_sync_with s (some r) = with_execution s (text "Syncing") (
    fresh_execution (first_phase s.policy.delete_phase r)
      (add64 r.total_transfer_bytes r.total_delete_bytes) r)

-- `start_sync_execution`
unfoldable pub start_sync_execution : SyncState → SyncState
start_sync_execution s = start_sync_with s s.run_plan

abbrev refuse : Text → SyncState → Started
refuse error s = (record s { error = some error }, [])

abbrev copy_with : SyncState → Option SyncRunPlan → Started
copy_with s none = refuse (text "Build a copy plan before running copy.") s
copy_with s (some r) =
    if is_empty r.transfers
    then refuse (text "The current copy plan has no actionable items.") s
    else dispatch_sync_execution (start_copy_execution s)

abbrev copy_in : SyncMode → SyncState → Started
copy_in SyncMode.copy s = copy_with s s.run_plan
copy_in _ s = (s, [])

unfoldable pub handle_start_sync_copy : SyncState → Started
handle_start_sync_copy s = copy_in s.mode s

abbrev pub delete_confirm_count_threshold : ℕ
delete_confirm_count_threshold = 1000

abbrev pub delete_confirm_bytes_threshold : ℕ
delete_confirm_bytes_threshold = 10 * 1024 * 1024 * 1024

-- `usize::saturating_mul`
abbrev saturating_mul : ℕ → ℕ → ℕ
saturating_mul a b = min (a * b) (2 ^ 64 - 1)

unfoldable pub delete_confirm_reason : ℕ → ℕ → ℕ → ℕ → Option Text
delete_confirm_reason planned_deletes planned_delete_bytes destination_scanned source_scanned =
    if ltb delete_confirm_count_threshold planned_deletes
    then some
        (text "Delete count exceeds " ++ display delete_confirm_count_threshold ++ text " objects.")
    else if ltb delete_confirm_bytes_threshold planned_delete_bytes
    then some (text "Delete bytes exceed 10 GiB.")
    else if ltb 0 destination_scanned && ltb destination_scanned (saturating_mul planned_deletes 4)
    then some (text "Deletes are more than 25% of the scanned destination.")
    else if source_scanned == 0 && ltb 0 planned_deletes
    then some (text "The source scan is empty while deletes are planned.")
    else none

abbrev pub is_some : Option Text → Bool
is_some none = false
is_some (some _) = true

unfoldable pub build_delete_confirm_state : SyncState → SyncRunPlan → SyncDeleteConfirmState
unfolding delete_confirm_reason
build_delete_confirm_state s r =
    let reason =
      delete_confirm_reason (length r.deletes) r.total_delete_bytes s.telemetry.destination_scanned
        s.telemetry.source_scanned in
    record {
      planned_deletes = length r.deletes;
      planned_delete_bytes = r.total_delete_bytes;
      typed_required = is_some reason;
      threshold_reason = reason;
      confirm_text = [];
    }

-- After the guardrails: start at once, or ask first if there is anything to delete.
abbrev pub start_or_ask : SyncState → SyncRunPlan → Result (Unit {0}) → Started
start_or_ask s r (err error) = refuse error s
start_or_ask s r (ok _) =
    let s' = record s { error = none; delete_confirm = none } in
    if is_empty r.deletes
    then dispatch_sync_execution (start_sync_execution s')
    else (record s' { delete_confirm = some (build_delete_confirm_state s r) }, [])

abbrev pub sync_run_plan : SyncState → Option SyncRunPlan → Started
sync_run_plan s none = refuse (text "Build a sync plan before running sync.") s
sync_run_plan s (some r) =
    if is_empty r.transfers && is_empty r.deletes
    then refuse (text "The current sync plan has no actionable items.") s
    else start_or_ask s r (validate_sync_guardrails s r)

abbrev pub sync_plan : SyncState → Option SyncPlan → Started
sync_plan s none = refuse (text "Build a sync plan before running sync.") s
sync_plan s (some plan) =
    if ltb 0 plan.summary.conflicts
    then refuse (text "Resolve sync conflicts in the plan before running sync.") s
    else sync_run_plan s s.run_plan

abbrev pub sync_in : SyncMode → SyncState → Started
sync_in SyncMode.sync s = sync_plan s s.plan
sync_in _ s = (s, [])

unfoldable pub handle_start_sync : SyncState → Started
handle_start_sync s = sync_in s.mode s

unfoldable pub handle_cancel_sync_delete_confirm : SyncState → SyncState
handle_cancel_sync_delete_confirm s = record s { delete_confirm = none }

abbrev typed : Text → Option SyncDeleteConfirmState → Option SyncDeleteConfirmState
typed value none = none
typed value (some c) = some (record c { confirm_text = value })

unfoldable pub handle_sync_delete_confirm_text_changed : Text → SyncState → SyncState
handle_sync_delete_confirm_text_changed value s = record s {
  delete_confirm = typed value s.delete_confirm;
}

-- `format!("delete {}", confirm.planned_deletes)`
abbrev pub expected_text : SyncDeleteConfirmState → Text
expected_text c = text "delete " ++ display c.planned_deletes

abbrev pub confirm_with : SyncState → Option SyncDeleteConfirmState → Started
confirm_with s none = (s, [])
confirm_with s (some c) =
    if c.typed_required && not (trim c.confirm_text == expected_text c)
    then refuse (text "Type '" ++ expected_text c ++ text "' to confirm this destructive sync.") s
    else dispatch_sync_execution
        (start_sync_execution (record s { delete_confirm = none; error = none }))

unfoldable pub handle_confirm_sync_delete_run : SyncState → Started
handle_confirm_sync_delete_run s = confirm_with s s.delete_confirm

-- The messages of finished tasks. (That `App.error` shows a failure is left out.)
abbrev after_transfer : SyncState → Result SyncRunItem → Option SyncExecutionState → Started
after_transfer s result none = (s, [])
after_transfer s (ok item) (some e) =
    let e' = finish_transfer (config_of s) (ok item) e in
    dispatch_sync_execution (record s {
      execution = some e';
      telemetry = record s.telemetry { active_transfers = e'.active_transfers };
    })
after_transfer s (err error) (some e) =
    dispatch_sync_execution
      (record s { execution = some (finish_transfer (config_of s) (err error) e) })

unfoldable pub handle_sync_copy_step_finished : Result SyncRunItem → SyncState → Started
handle_sync_copy_step_finished result s = after_transfer s result s.execution

abbrev after_delete : SyncState → Result SyncDeleteBatchResult → Option SyncExecutionState → Started
after_delete s result none = (s, [])
after_delete s result (some e) =
    dispatch_sync_execution (record s { execution = some (finish_delete (config_of s) result e) })

unfoldable pub handle_sync_delete_batch_finished :
    Result SyncDeleteBatchResult → SyncState → Started
handle_sync_delete_batch_finished result s = after_delete s result s.execution
