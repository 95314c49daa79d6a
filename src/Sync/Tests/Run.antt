-- ===== src/Sync/Tests/Run.antt =====
-- Tests of the dispatcher and of the messages of a run, after the tests of
-- src/app/handlers/sync.rs.
use abixio_ui.Common.{
  ◌+◌, ◌<◌, ◌≤◌, false, none, some, List, [], ◌∷◌, ◌++◌, ◌≡◌, ◌⊎◌, refl, arith, length, nat_eq,
}
use abixio_ui.Common.Text.{text, text_eq}
use abixio_ui.Common.Result.{ok, err}
use abixio_ui.Sync.Types.{SyncMode, SyncDeletePhase, SyncPlanAction}
use abixio_ui.Sync.State.{SyncExecutionPhase, SyncExecutionState, SyncRunItem}
use abixio_ui.Sync.Execution.Phase.{RunConfig, phase_step, settle}
use abixio_ui.Sync.Execution.Tasks.{PendingSyncTask}
use abixio_ui.Sync.Execution.Dispatch.{dispatch_execution, final_sync_summary}
use abixio_ui.Sync.Execution.Messages.{Reach, finish_transfer, fresh_execution, first_phase}
use abixio_ui.Sync.Execution.Order.{
  NoDeletes, NoTransfers, AllTransferred, AllDeleted, NoFailure, Reach-deletes_after,
  Reach-deletes_before, Reach-copy,
}
use abixio_ui.Sync.Execution.Once.{HandsOut, Reach-HandsOut}
use abixio_ui.Sync.Execution.Progress.{settle-settled}
use abixio_ui.Sync.Execution.Early.{Reach-reports_early}
use abixio_ui.Sync.Execution.Termination.{messages, remaining, Reach-ends}
use abixio_ui.Sync.Tests.Data.{path_a, transfer_item, two_and_one, config}

abbrev first_item : SyncRunItem
first_item = transfer_item SyncPlanAction.update path_a 3

-- A run after its first call of the dispatcher, and after its first transfer.
module _ (c : RunConfig) (start : SyncExecutionState) where
  abbrev state_0 : SyncExecutionState
  state_0 = (dispatch_execution c start).0

  abbrev tasks_0 : List PendingSyncTask
  tasks_0 = (dispatch_execution c start).1

  abbrev state_1 : SyncExecutionState
  state_1 = (dispatch_execution c (finish_transfer c (ok first_item) state_0)).0

  abbrev tasks_1 : List PendingSyncTask
  tasks_1 = tasks_0 ++ (dispatch_execution c (finish_transfer c (ok first_item) state_0)).1

abbrev after_config : RunConfig
after_config = config SyncMode.sync SyncDeletePhase.after

abbrev before_config : RunConfig
before_config = config SyncMode.sync SyncDeletePhase.before

abbrev copy_config : RunConfig
copy_config = config SyncMode.copy SyncDeletePhase.after

abbrev after_start : SyncExecutionState
after_start = fresh_execution (first_phase SyncDeletePhase.after two_and_one) 15 two_and_one

abbrev before_start : SyncExecutionState
before_start = fresh_execution (first_phase SyncDeletePhase.before two_and_one) 15 two_and_one

abbrev copy_start : SyncExecutionState
copy_start = fresh_execution SyncExecutionPhase.copying 8 two_and_one

-- Under `After` a run starts with the first transfer.
tasks_test : tasks_0 after_config after_start ≡ PendingSyncTask.transfer first_item ∷ []
unfolding dispatch_execution fresh_execution first_phase
tasks_test = refl

one_active : 0 < (state_0 after_config after_start).active_transfers
unfolding dispatch_execution fresh_execution first_phase
one_active = omega arith

one_copied :
    Reach after_config after_start
      (state_1 after_config after_start)
      (tasks_1 after_config after_start)
one_copied = Reach.transfer_finished Reach.started one_active (ok first_item)

Reach-deletes_after_example :
    NoDeletes (state_1 after_config after_start)
    ⊎ (AllTransferred (state_1 after_config after_start)
        × NoFailure after_config (state_1 after_config after_start))
Reach-deletes_after_example = Reach-deletes_after after_config two_and_one 15 refl one_copied

Reach-deletes_before_example :
    NoTransfers (state_0 before_config before_start)
    ⊎ AllDeleted (state_0 before_config before_start)
Reach-deletes_before_example = Reach-deletes_before before_config two_and_one 15 refl Reach.started

Reach-copy_example : NoDeletes (state_0 copy_config copy_start)
Reach-copy_example = Reach-copy copy_config two_and_one 8 refl Reach.started

Reach-HandsOut_example :
    HandsOut two_and_one (state_1 after_config after_start) (tasks_1 after_config after_start)
Reach-HandsOut_example =
    Reach-HandsOut after_config two_and_one (first_phase SyncDeletePhase.after two_and_one) 15
      one_copied

Reach-ends_example :
    messages one_copied + remaining (state_1 after_config after_start)
    ≤ length two_and_one.transfers + length two_and_one.deletes
Reach-ends_example =
    Reach-ends after_config (first_phase SyncDeletePhase.after two_and_one) 15 two_and_one
      one_copied

settle-settled_example :
    phase_step before_config
      (settle 3 before_config before_start).phase
      (settle 3 before_config before_start)
    ≡ none
settle-settled_example = settle-settled before_config before_start

-- Both transfers find a worker.
abbrev wide_config : RunConfig
wide_config = record copy_config { transfer_workers = 4 }

Reach-reports_early_example :
    let e' =
      (dispatch_execution wide_config
        (finish_transfer wide_config (err (text "lost")) (state_0 wide_config copy_start))).0 in
    (e'.running ≡ false)
    × (e'.summary
        ≡ some (
            final_sync_summary
              (finish_transfer wide_config (err (text "lost")) (state_0 wide_config copy_start))))
    × (e'.phase ≡ SyncExecutionPhase.copying)
    × (e'.active_transfers + 1 ≡ length two_and_one.transfers)
Reach-reports_early_example =
    Reach-reports_early wide_config 8 two_and_one (err (text "lost")) (omega arith) (omega arith)
