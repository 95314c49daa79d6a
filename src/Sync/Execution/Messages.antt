-- ===== src/Sync/Execution/Messages.antt =====
-- The messages of a run: what a finished task changes before the dispatcher is called again, and the
-- executions that a run can reach (`handle_sync_copy_step_finished`,
-- `handle_sync_delete_batch_finished`, `start_copy_execution`, `start_sync_execution` of
-- src/app/handlers/sync.rs).
use mathlib.Core.List.{append_assoc, append-nil}
use abixio_ui.Common.{
  ℕ, ◌+◌, ◌-◌, ◌<◌, Bool, true, false, not, ◌&&◌, none, some, List, [], ◌∷◌, ◌++◌, if◌then◌else◌,
  is_empty,
}
use abixio_ui.Common.Result.{Result, ok, err}
use abixio_ui.Sync.Types.{SyncDeletePhase}
use abixio_ui.Sync.Plan.{add64}
use abixio_ui.Sync.State.{
  SyncRunItem, SyncRunPlan, SyncExecutionPhase, SyncExecutionState, SyncDeleteBatchResult,
}
use abixio_ui.Sync.State.SyncExecutionPhase.{deleting_before, copying, deleting_during, stopped}
use abixio_ui.Sync.Execution.Phase.{RunConfig}
use abixio_ui.Sync.Execution.Tasks.{PendingSyncTask}
use abixio_ui.Sync.Execution.Dispatch.{dispatch_execution}
use abixio_ui.Sync.Execution.Rule.{Survives, dispatch_execution-Survives}

-- The record that both `start_…` functions build.
unfoldable pub fresh_execution : SyncExecutionPhase → ℕ → SyncRunPlan → SyncExecutionState
fresh_execution phase total_bytes run_plan = record {
  phase = phase;
  run_plan = run_plan;
  next_transfer_index = 0;
  next_delete_index = 0;
  active_transfers = 0;
  active_delete_batches = 0;
  completed_transfers = 0;
  completed_deletes = 0;
  failed_transfers = 0;
  failed_deletes = 0;
  bytes_done = 0;
  total_bytes = total_bytes;
  current_item = none;
  current_strategy = none;
  running = true;
  summary = none;
  has_client_relay = run_plan.has_client_relay;
  delete_phase_skipped = false;
  transfer_failed = false;
}

-- The `match sync.policy.delete_phase` of `start_sync_execution`.
unfoldable pub first_phase : SyncDeletePhase → SyncRunPlan → SyncExecutionPhase
first_phase SyncDeletePhase.before run_plan =
    if is_empty run_plan.deletes then copying else deleting_before
first_phase SyncDeletePhase.during run_plan =
    if is_empty run_plan.deletes then copying else deleting_during
first_phase SyncDeletePhase.after run_plan = copying

abbrev is_deleting_during : SyncExecutionPhase → Bool
is_deleting_during deleting_during = true
is_deleting_during _ = false

-- `handle_sync_copy_step_finished`, up to the call of the dispatcher. `saturating_sub(1)` is `- 1`.
unfoldable pub finish_transfer :
    RunConfig → Result SyncRunItem → SyncExecutionState → SyncExecutionState
finish_transfer c (ok item) e = record e {
  active_transfers = e.active_transfers - 1;
  completed_transfers = e.completed_transfers + 1;
  bytes_done = add64 e.bytes_done item.bytes;
  current_item = some item.relative_path;
  current_strategy = some item.strategy;
}
finish_transfer c (err error) e = record e {
  active_transfers = e.active_transfers - 1;
  failed_transfers = e.failed_transfers + 1;
  transfer_failed = true;
  phase = if not c.ignore_errors && is_deleting_during e.phase then stopped else e.phase;
}

-- `handle_sync_delete_batch_finished`, up to the call of the dispatcher.
unfoldable pub finish_delete :
    RunConfig → Result SyncDeleteBatchResult → SyncExecutionState → SyncExecutionState
finish_delete c (ok batch) e = record e {
  active_delete_batches = e.active_delete_batches - 1;
  completed_deletes = e.completed_deletes + batch.completed;
  failed_deletes = e.failed_deletes + batch.failed;
  bytes_done = add64 e.bytes_done batch.bytes;
  current_item = some batch.label;
}
finish_delete c (err error) e = record e {
  active_delete_batches = e.active_delete_batches - 1;
  failed_deletes = e.failed_deletes + 1;
  phase = if not c.ignore_errors then stopped else e.phase;
}

-- The executions that a run from `start` reaches, each with the tasks handed out on the way: the
-- dispatcher is called at the start and whenever a task in flight finishes, in any order and with
-- any result.
pub data Reach (c : RunConfig) (start : SyncExecutionState)
    : SyncExecutionState → List PendingSyncTask → Type 0 where
  started : Reach c start (dispatch_execution c start).0 (dispatch_execution c start).1
  transfer_finished :
      {e : SyncExecutionState} {tasks : List PendingSyncTask}
      → Reach c start e tasks
      → 0 < e.active_transfers
      → (r : Result SyncRunItem)
      → Reach c start
          (dispatch_execution c (finish_transfer c r e)).0
          (tasks ++ (dispatch_execution c (finish_transfer c r e)).1)
  delete_finished :
      {e : SyncExecutionState} {tasks : List PendingSyncTask}
      → Reach c start e tasks
      → 0 < e.active_delete_batches
      → (r : Result SyncDeleteBatchResult)
      → Reach c start
          (dispatch_execution c (finish_delete c r e)).0
          (tasks ++ (dispatch_execution c (finish_delete c r e)).1)

-- The property survives a finished task.
pub record Finishes (c : RunConfig) (P : SyncExecutionState → List PendingSyncTask → Type 0)
    : Type 0 where
  pub transfer :
      (e : SyncExecutionState) (tasks : List PendingSyncTask) (r : Result SyncRunItem)
      → 0 < e.active_transfers
      → P e tasks
      → P (finish_transfer c r e) tasks
  pub delete :
      (e : SyncExecutionState) (tasks : List PendingSyncTask) (r : Result SyncDeleteBatchResult)
      → 0 < e.active_delete_batches
      → P e tasks
      → P (finish_delete c r e) tasks

module _ (c : RunConfig) (P : SyncExecutionState → List PendingSyncTask → Type 0) where
  -- A property of all the tasks so far, as one of the tasks of the next call.
  Survives_after :
      (tasks : List PendingSyncTask) → Survives c P → Survives c (λ e specs. P e (tasks ++ specs))
  Survives_after tasks rule = record {
    moves_on = λ e e' specs. rule.moves_on e e' (tasks ++ specs);
    starts_transfer = λ e specs item copies free at h.
        rw (← append_assoc tasks specs (PendingSyncTask.transfer item ∷ []))
          (rule.starts_transfer e (tasks ++ specs) item copies free at h);
    starts_deletes = λ e specs spec n deletes free pos within covers h.
        rw (← append_assoc tasks specs (spec ∷ []))
          (rule.starts_deletes e (tasks ++ specs) spec n deletes free pos within covers h);
    reports = λ e specs. rule.reports e (tasks ++ specs);
  }

  dispatch_after :
      (e : SyncExecutionState) (tasks : List PendingSyncTask)
      → Survives c P
      → P e tasks
      → P (dispatch_execution c e).0 (tasks ++ (dispatch_execution c e).1)
  dispatch_after e tasks rule h =
      dispatch_execution-Survives c (λ e specs. P e (tasks ++ specs)) (Survives_after tasks rule) e
        (rw (append-nil tasks) h)

  -- What holds at the start and survives every move and message holds of whatever a run reaches.
  pub Reach-holds :
      {start e : SyncExecutionState} {tasks : List PendingSyncTask}
      → Survives c P
      → Finishes c P
      → P start []
      → Reach c start e tasks
      → P e tasks
  Reach-holds {start} rule finish h started = dispatch_execution-Survives c P rule start h
  Reach-holds rule finish h (transfer_finished {e = e} {tasks = tasks} r active result) =
      dispatch_after _ tasks rule
        (finish.transfer e tasks result active (Reach-holds rule finish h r))
  Reach-holds rule finish h (delete_finished {e = e} {tasks = tasks} r active result) =
      dispatch_after _ tasks rule
        (finish.delete e tasks result active (Reach-holds rule finish h r))
