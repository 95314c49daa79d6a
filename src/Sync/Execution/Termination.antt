-- ===== src/Sync/Execution/Termination.antt =====
-- How many messages a run handles (`dispatch_sync_execution`, src/app/handlers/sync.rs).
use abixio_ui.Common.{ℕ, suc, ◌+◌, ◌-◌, ◌≤◌, ◌<◌, some, List, ◌≡◌, arith, length, get_elem?-drop}
use abixio_ui.Common.Result.{Result}
use abixio_ui.Sync.State.{
  SyncRunItem, SyncRunPlan, SyncExecutionState, SyncExecutionPhase, SyncDeleteBatchResult,
}
use abixio_ui.Sync.Execution.Phase.{RunConfig, phase_step}
use abixio_ui.Sync.Execution.Tasks.{PendingSyncTask}
use abixio_ui.Sync.Execution.Dispatch.{dispatch_execution}
use abixio_ui.Sync.Execution.Rule.{Survives, dispatch_execution-Survives}
use abixio_ui.Sync.Execution.Once.{phase_step_keeps}
use abixio_ui.Sync.Execution.Messages.{
  Reach, started, transfer_finished, delete_finished, finish_transfer, finish_delete,
  fresh_execution,
}

-- What a run has left: the transfers and deletes not handed out, and the tasks in flight.
abbrev pub remaining : SyncExecutionState → ℕ
remaining e =
    (length e.run_plan.transfers - e.next_transfer_index)
    + e.active_transfers
    + (length e.run_plan.deletes - e.next_delete_index)
    + e.active_delete_batches

-- The messages that a run has handled.
abbrev pub messages :
    {c : RunConfig} {start e : SyncExecutionState} {tasks : List PendingSyncTask}
    → Reach c start e tasks
    → ℕ
messages started = 0
messages (transfer_finished r active result) = suc (messages r)
messages (delete_finished r active result) = suc (messages r)

module _ (c : RunConfig) (m : ℕ) where
  remaining-moves :
      (e e' : SyncExecutionState)
      → phase_step c e.phase e ≡ some e'
      → remaining e ≤ m
      → remaining e' ≤ m
  remaining-moves e e' on h = let (phase, skipped, same) = phase_step_keeps c e e' on in rw same h

  remaining-Survives : Survives c (λ e _. remaining e ≤ m)
  remaining-Survives = record {
    moves_on = λ e e' _. remaining-moves e e';
    starts_transfer = λ e _ item copies free at h.
        omega (arith, (get_elem?-drop e.run_plan.transfers e.next_transfer_index at).1);
    starts_deletes = λ e _ spec n deletes free pos within covers h. omega arith;
    reports = λ e _ s i t h. h;
  }

remaining-dispatch :
    (c : RunConfig) (e : SyncExecutionState) → remaining (dispatch_execution c e).0 ≤ remaining e
remaining-dispatch c e =
    dispatch_execution-Survives c (λ e' _. remaining e' ≤ remaining e)
      (remaining-Survives c (remaining e)) e (omega arith)

remaining-finish_transfer :
    (c : RunConfig) (e : SyncExecutionState) (r : Result SyncRunItem)
    → 0 < e.active_transfers
    → suc (remaining (finish_transfer c r e)) ≡ remaining e
unfolding finish_transfer
remaining-finish_transfer c e r active = ground arith

remaining-finish_delete :
    (c : RunConfig) (e : SyncExecutionState) (r : Result SyncDeleteBatchResult)
    → 0 < e.active_delete_batches
    → suc (remaining (finish_delete c r e)) ≡ remaining e
unfolding finish_delete
remaining-finish_delete c e r active = ground arith

messages-remaining :
    (c : RunConfig) (start : SyncExecutionState) {e : SyncExecutionState}
    {tasks : List PendingSyncTask}
    → (r : Reach c start e tasks) → messages r + remaining e ≤ remaining start
messages-remaining c start started = omega (arith, remaining-dispatch c start)
messages-remaining c start (transfer_finished {e = e} r active result) = omega (
  arith,
  messages-remaining c start r,
  remaining-finish_transfer c e result active,
  remaining-dispatch c (finish_transfer c result e),
)
messages-remaining c start (delete_finished {e = e} r active result) = omega (
  arith,
  messages-remaining c start r,
  remaining-finish_delete c e result active,
  remaining-dispatch c (finish_delete c result e),
)

-- A run handles at most one message for each transfer and each delete of its plan, in whatever
-- order they arrive: the messages so far and what is left never exceed the plan.
pub Reach-ends :
    (c : RunConfig) (phase : SyncExecutionPhase) (total : ℕ) (run_plan : SyncRunPlan)
    {e : SyncExecutionState} {tasks : List PendingSyncTask}
    → (r : Reach c (fresh_execution phase total run_plan) e tasks)
    → messages r + remaining e ≤ length run_plan.transfers + length run_plan.deletes
Reach-ends c phase total run_plan r =
    omega (arith, messages-remaining c (fresh_execution phase total run_plan) r, fresh)
  where
    fresh :
        remaining (fresh_execution phase total run_plan)
        ≡ length run_plan.transfers + length run_plan.deletes
    fresh = unfold fresh_execution in omega arith
