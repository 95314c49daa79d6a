-- ===== src/Sync/Execution/Order.antt =====
-- The order of transfers and deletes under each delete phase (`dispatch_sync_execution`,
-- src/app/handlers/sync.rs).
use abixio_ui.Common.{ℕ, ◌≤◌, true, false, some, List, ◌≡◌, ◌⊎◌, arith, length}
use abixio_ui.Sync.Types.{SyncMode, SyncDeletePhase}
use abixio_ui.Sync.State.{SyncRunPlan, SyncExecutionState}
use abixio_ui.Sync.State.SyncExecutionPhase.{
  deleting_before, copying, deleting_during, deleting_after, done,
}
use abixio_ui.Sync.Execution.Phase.{RunConfig, phase_step}
use abixio_ui.Sync.Execution.Tasks.{PendingSyncTask}
use abixio_ui.Sync.Execution.Rule.{Survives}
use abixio_ui.Sync.Execution.Messages.{
  Reach, Finishes, Reach-holds, finish_transfer, finish_delete, fresh_execution, first_phase,
}

abbrev pub NoDeletes : SyncExecutionState → Type 0
NoDeletes e = (e.next_delete_index ≡ 0) × (e.active_delete_batches ≡ 0)

abbrev pub NoTransfers : SyncExecutionState → Type 0
NoTransfers e = (e.next_transfer_index ≡ 0) × (e.active_transfers ≡ 0)

-- Every transfer was started and is over.
abbrev pub AllTransferred : SyncExecutionState → Type 0
AllTransferred e = (length e.run_plan.transfers ≤ e.next_transfer_index) × (e.active_transfers ≡ 0)

abbrev pub AllDeleted : SyncExecutionState → Type 0
AllDeleted e = (length e.run_plan.deletes ≤ e.next_delete_index) × (e.active_delete_batches ≡ 0)

abbrev pub NoFailure : RunConfig → SyncExecutionState → Type 0
NoFailure c e = (e.transfer_failed ≡ false) ⊎ (c.ignore_errors ≡ true)

-- A run that deletes after copying.
record AfterOrder (c : RunConfig) (e : SyncExecutionState) : Type 0 where
  not_before : e.phase ≡ deleting_before → ⊥
  not_during : e.phase ≡ deleting_during → ⊥
  not_yet : e.phase ≡ copying → NoDeletes e
  over : e.phase ≡ deleting_after → AllTransferred e × NoFailure c e
  safe : NoDeletes e ⊎ (AllTransferred e × NoFailure c e)

module _ (c : RunConfig) (deletes_after : c.delete_phase ≡ SyncDeletePhase.after) where
  AfterOrder-moves :
      (e e' : SyncExecutionState)
      → phase_step c e.phase e ≡ some e'
      → AfterOrder c e
      → AfterOrder c e'
  unfolding phase_step
  AfterOrder-moves e e' on h = ground arith

  AfterOrder-Survives : Survives c (λ e _. AfterOrder c e)
  AfterOrder-Survives = record {
    moves_on = λ e e' _. AfterOrder-moves e e';
    starts_transfer = λ e _ item copies free at h. ground arith;
    starts_deletes = λ e _ spec n deletes free pos within covers h. ground arith;
    reports = λ e _ s i t h. ground arith;
  }

  AfterOrder-Finishes : Finishes c (λ e _. AfterOrder c e)
  unfolding finish_transfer finish_delete
  AfterOrder-Finishes = record {
    transfer = λ e _ r active h. ground arith;
    delete = λ e _ r active h. ground arith;
  }

-- A run that deletes before copying.
record BeforeOrder (c : RunConfig) (e : SyncExecutionState) : Type 0 where
  not_during : e.phase ≡ deleting_during → ⊥
  not_after : e.phase ≡ deleting_after → ⊥
  not_yet : e.phase ≡ deleting_before → NoTransfers e
  over : e.phase ≡ copying → AllDeleted e
  safe : NoTransfers e ⊎ AllDeleted e

module _ (c : RunConfig) (deletes_before : c.delete_phase ≡ SyncDeletePhase.before) where
  BeforeOrder-moves :
      (e e' : SyncExecutionState)
      → phase_step c e.phase e ≡ some e'
      → BeforeOrder c e
      → BeforeOrder c e'
  unfolding phase_step
  BeforeOrder-moves e e' on h = ground arith

  BeforeOrder-Survives : Survives c (λ e _. BeforeOrder c e)
  BeforeOrder-Survives = record {
    moves_on = λ e e' _. BeforeOrder-moves e e';
    starts_transfer = λ e _ item copies free at h. ground arith;
    starts_deletes = λ e _ spec n deletes free pos within covers h. ground arith;
    reports = λ e _ s i t h. ground arith;
  }

  BeforeOrder-Finishes : Finishes c (λ e _. BeforeOrder c e)
  unfolding finish_transfer finish_delete
  BeforeOrder-Finishes = record {
    transfer = λ e _ r active h. ground arith;
    delete = λ e _ r active h. ground arith;
  }

-- A copy.
record CopyOrder (e : SyncExecutionState) : Type 0 where
  phases : (e.phase ≡ copying) ⊎ (e.phase ≡ done)
  safe : NoDeletes e

module _ (c : RunConfig) (copies_only : c.mode ≡ SyncMode.copy) where
  CopyOrder-moves :
      (e e' : SyncExecutionState) → phase_step c e.phase e ≡ some e' → CopyOrder e → CopyOrder e'
  unfolding phase_step
  CopyOrder-moves e e' on h = ground arith

  CopyOrder-Survives : Survives c (λ e _. CopyOrder e)
  CopyOrder-Survives = record {
    moves_on = λ e e' _. CopyOrder-moves e e';
    starts_transfer = λ e _ item copies free at h. ground arith;
    starts_deletes = λ e _ spec n deletes free pos within covers h. ground arith;
    reports = λ e _ s i t h. ground arith;
  }

  CopyOrder-Finishes : Finishes c (λ e _. CopyOrder e)
  unfolding finish_transfer finish_delete
  CopyOrder-Finishes = record {
    transfer = λ e _ r active h. ground arith;
    delete = λ e _ r active h. ground arith;
  }

module _ (c : RunConfig) (run_plan : SyncRunPlan) (total : ℕ) where
  -- Under the delete phase `After`, whatever a run reaches: either no delete was started, or every
  -- transfer is over and none failed (failures do not count if errors are ignored).
  pub Reach-deletes_after :
      {e : SyncExecutionState} {tasks : List PendingSyncTask}
      → c.delete_phase ≡ SyncDeletePhase.after
      → Reach c
          (fresh_execution (first_phase SyncDeletePhase.after run_plan) total run_plan)
          e
          tasks
      → NoDeletes e ⊎ (AllTransferred e × NoFailure c e)
  Reach-deletes_after after r =
      (Reach-holds c (λ e _. AfterOrder c e) (AfterOrder-Survives c after)
        (AfterOrder-Finishes c after) start r).safe
    where
      start :
          AfterOrder c (fresh_execution (first_phase SyncDeletePhase.after run_plan) total run_plan)
      start = unfold fresh_execution first_phase in ground arith

  -- Under the delete phase `Before`: either no transfer was started, or every delete was started
  -- and is over.
  pub Reach-deletes_before :
      {e : SyncExecutionState} {tasks : List PendingSyncTask}
      → c.delete_phase ≡ SyncDeletePhase.before
      → Reach c
          (fresh_execution (first_phase SyncDeletePhase.before run_plan) total run_plan)
          e
          tasks
      → NoTransfers e ⊎ AllDeleted e
  Reach-deletes_before before r =
      (Reach-holds c (λ e _. BeforeOrder c e) (BeforeOrder-Survives c before)
        (BeforeOrder-Finishes c before) start r).safe
    where
      start :
          BeforeOrder c
            (fresh_execution (first_phase SyncDeletePhase.before run_plan) total run_plan)
      start = unfold fresh_execution first_phase in ground arith

  -- A run in the mode `Copy` never starts a delete, whatever its plan and its delete phase.
  pub Reach-copy :
      {e : SyncExecutionState} {tasks : List PendingSyncTask}
      → c.mode ≡ SyncMode.copy
      → Reach c (fresh_execution copying total run_plan) e tasks
      → NoDeletes e
  Reach-copy copy r =
      (Reach-holds c (λ e _. CopyOrder e) (CopyOrder-Survives c copy) (CopyOrder-Finishes c copy)
        start r).safe
    where
      start : CopyOrder (fresh_execution copying total run_plan)
      start = unfold fresh_execution in ground arith
