-- ===== src/Sync/Execution/Once.antt =====
-- The tasks that a run hands out, against its plan (`dispatch_sync_execution` and the handlers of
-- finished tasks, src/app/handlers/sync.rs).
use abixio_ui.Common.{
  ℕ, ◌+◌, ◌≤◌, ◌<◌, Bool, false, some, List, [], ◌∷◌, ◌++◌, ◌≡◌, refl, sym, ap, ◌∙◌, arith, length,
  take, take-add, take-suc, get_elem?-drop,
}
use native.Mathlib.Numerals.{add-one}
use abixio_ui.Common.Result.{Result}
use abixio_ui.Sync.State.{
  SyncRunItem, SyncRunPlan, SyncExecutionState, SyncExecutionPhase, SyncDeleteBatchResult,
}
use abixio_ui.Sync.Execution.Phase.{RunConfig, phase_step}
use abixio_ui.Sync.Execution.Tasks.{PendingSyncTask}
use abixio_ui.Sync.Execution.Batches.{Covers}
use abixio_ui.Sync.Execution.Rule.{Survives}
use abixio_ui.Sync.Execution.Messages.{
  Reach, Finishes, Reach-holds, finish_transfer, finish_delete, fresh_execution,
}

-- The transfers among the tasks.
abbrev pub transfers_of : List PendingSyncTask → List SyncRunItem
transfers_of [] = []
transfers_of (PendingSyncTask.transfer item ∷ tasks) = item ∷ transfers_of tasks
transfers_of (_ ∷ tasks) = transfers_of tasks

-- The delete tasks, in order, are for these deletes, in order: each delete is in one of them.
pub data Covered : List SyncRunItem → List PendingSyncTask → Type 0 where
  nothing : Covered [] []
  a_transfer :
      {deletes : List SyncRunItem} {tasks : List PendingSyncTask} (item : SyncRunItem)
      → Covered deletes tasks
      → Covered deletes (tasks ++ PendingSyncTask.transfer item ∷ [])
  a_delete :
      {deletes : List SyncRunItem} {tasks : List PendingSyncTask} (more : List SyncRunItem)
      → (spec : PendingSyncTask) → Covered deletes tasks
      → Covers more spec
      → Covered (deletes ++ more) (tasks ++ spec ∷ [])

-- What was handed out, and what became of it. (A delete batch is counted by its size when it
-- succeeds, and as one when it fails, so only transfers are accounted for one by one.)
pub record HandsOut (run_plan : SyncRunPlan) (e : SyncExecutionState) (tasks : List PendingSyncTask)
    : Type 0 where
  pub plan : e.run_plan ≡ run_plan
  pub transfers_within : e.next_transfer_index ≤ length run_plan.transfers
  pub deletes_within : e.next_delete_index ≤ length run_plan.deletes
  pub transfers : transfers_of tasks ≡ take e.next_transfer_index run_plan.transfers
  pub deletes : Covered (take e.next_delete_index run_plan.deletes) tasks
  pub accounted :
      e.next_transfer_index ≡ e.active_transfers + e.completed_transfers + e.failed_transfers
  pub failures : e.transfer_failed ≡ false → e.failed_transfers ≡ 0

transfers_of-transfer :
    (tasks : List PendingSyncTask) (item : SyncRunItem)
    → transfers_of (tasks ++ PendingSyncTask.transfer item ∷ []) ≡ transfers_of tasks ++ item ∷ []
transfers_of-transfer [] item = refl
transfers_of-transfer (PendingSyncTask.transfer i ∷ tasks) item =
    ap (λ l. i ∷ l) (transfers_of-transfer tasks item)
transfers_of-transfer (PendingSyncTask.delete_remote _ _ _ _ _ ∷ tasks) item =
    transfers_of-transfer tasks item
transfers_of-transfer (PendingSyncTask.delete_local _ _ _ ∷ tasks) item =
    transfers_of-transfer tasks item

transfers_of-delete :
    (tasks : List PendingSyncTask) (spec : PendingSyncTask) (items : List SyncRunItem)
    → Covers items spec
    → transfers_of (tasks ++ spec ∷ []) ≡ transfers_of tasks
transfers_of-delete [] (PendingSyncTask.transfer i) items h = absurd h
transfers_of-delete [] (PendingSyncTask.delete_remote _ _ _ _ _) items h = refl
transfers_of-delete [] (PendingSyncTask.delete_local _ _ _) items h = refl
transfers_of-delete (PendingSyncTask.transfer i ∷ tasks) spec items h =
    ap (λ l. i ∷ l) (transfers_of-delete tasks spec items h)
transfers_of-delete (PendingSyncTask.delete_remote _ _ _ _ _ ∷ tasks) spec items h =
    transfers_of-delete tasks spec items h
transfers_of-delete (PendingSyncTask.delete_local _ _ _ ∷ tasks) spec items h =
    transfers_of-delete tasks spec items h

pub phase_step_keeps :
    (c : RunConfig) (e e' : SyncExecutionState)
    → phase_step c e.phase e ≡ some e'
    → (phase : SyncExecutionPhase) × (skipped : Bool) × (e'
        ≡ record e { phase = phase; delete_phase_skipped = skipped })
unfolding phase_step
phase_step_keeps c e e' on = (e'.phase, e'.delete_phase_skipped, ground arith)

module _ (c : RunConfig) (run_plan : SyncRunPlan) where
  HandsOut-moves :
      (e e' : SyncExecutionState) (tasks : List PendingSyncTask)
      → phase_step c e.phase e ≡ some e'
      → HandsOut run_plan e tasks
      → HandsOut run_plan e' tasks
  HandsOut-moves e e' tasks on h =
      let (phase, skipped, same) = phase_step_keeps c e e' on in
      rw same (record {
        plan = h.plan;
        transfers_within = h.transfers_within;
        deletes_within = h.deletes_within;
        transfers = h.transfers;
        deletes = h.deletes;
        accounted = h.accounted;
        failures = h.failures;
      })

  HandsOut-Survives : Survives c (HandsOut run_plan)
  HandsOut-Survives = record {
    moves_on = HandsOut-moves;
    starts_transfer = λ e tasks item copies free at h. record {
      plan = h.plan;
      transfers_within =
          omega
            (arith, (get_elem?-drop run_plan.transfers e.next_transfer_index (rw h.plan at at)).1);
      deletes_within = h.deletes_within;
      transfers =
          transfers_of-transfer tasks item
          ∙ rw (h.transfers, add-one)
              (sym (take-suc run_plan.transfers e.next_transfer_index (rw h.plan at at)));
      deletes = Covered.a_transfer item h.deletes;
      accounted = omega (arith, h.accounted);
      failures = h.failures;
    };
    starts_deletes = λ e tasks spec n deletes free pos within covers h. record {
      plan = h.plan;
      transfers_within = h.transfers_within;
      deletes_within = rw h.plan at within;
      transfers = transfers_of-delete tasks spec _ covers ∙ h.transfers;
      deletes =
          rw (take-add e.next_delete_index n run_plan.deletes)
            (Covered.a_delete _ spec h.deletes (rw h.plan at covers));
      accounted = h.accounted;
      failures = h.failures;
    };
    reports = λ e tasks s i t h. record {
      plan = h.plan;
      transfers_within = h.transfers_within;
      deletes_within = h.deletes_within;
      transfers = h.transfers;
      deletes = h.deletes;
      accounted = h.accounted;
      failures = h.failures;
    };
  }

  finish_transfer_keeps :
      (e : SyncExecutionState) (r : Result SyncRunItem)
      → 0 < e.active_transfers
      → e.next_transfer_index ≡ e.active_transfers + e.completed_transfers + e.failed_transfers
      → (e.transfer_failed ≡ false → e.failed_transfers ≡ 0)
      → let e' = finish_transfer c r e in
        (e'.run_plan ≡ e.run_plan)
        × (e'.next_transfer_index ≡ e.next_transfer_index)
        × (e'.next_delete_index ≡ e.next_delete_index)
        × (e'.next_transfer_index
            ≡ e'.active_transfers + e'.completed_transfers + e'.failed_transfers)
        × (e'.transfer_failed ≡ false → e'.failed_transfers ≡ 0)
  unfolding finish_transfer
  finish_transfer_keeps e r active accounted failures = ground arith

  finish_delete_keeps :
      (e : SyncExecutionState) (r : Result SyncDeleteBatchResult)
      → let e' = finish_delete c r e in
        (e'.run_plan ≡ e.run_plan)
        × (e'.next_transfer_index ≡ e.next_transfer_index)
        × (e'.next_delete_index ≡ e.next_delete_index)
        × (e'.active_transfers + e'.completed_transfers + e'.failed_transfers
            ≡ e.active_transfers + e.completed_transfers + e.failed_transfers)
        × (e'.transfer_failed ≡ e.transfer_failed)
        × (e'.failed_transfers ≡ e.failed_transfers)
  unfolding finish_delete
  finish_delete_keeps e r = ground arith

  HandsOut-Finishes : Finishes c (HandsOut run_plan)
  HandsOut-Finishes = record {
    transfer = λ e tasks r active h.
        let (p, t, d, a, f) = finish_transfer_keeps e r active h.accounted h.failures in
        record {
          plan = p ∙ h.plan;
          transfers_within = omega (arith, t, h.transfers_within);
          deletes_within = omega (arith, d, h.deletes_within);
          transfers = rw t h.transfers;
          deletes = rw d h.deletes;
          accounted = a;
          failures = f;
        };
    delete = λ e tasks r active h.
        let (p, t, d, a, f, g) = finish_delete_keeps e r in
        record {
          plan = p ∙ h.plan;
          transfers_within = omega (arith, t, h.transfers_within);
          deletes_within = omega (arith, d, h.deletes_within);
          transfers = rw t h.transfers;
          deletes = rw d h.deletes;
          accounted = omega (arith, t, a, h.accounted);
          failures = rw (f, g) h.failures;
        };
  }

  -- Whatever a run reaches: the transfers handed out are those of the plan up to
  -- `next_transfer_index`, in order, each once; the delete tasks are for the deletes up to
  -- `next_delete_index`, in order, each in one task; and every transfer handed out is in flight,
  -- completed or failed.
  pub Reach-HandsOut :
      (phase : SyncExecutionPhase) (total : ℕ) {e : SyncExecutionState}
      {tasks : List PendingSyncTask}
      → Reach c (fresh_execution phase total run_plan) e tasks
      → HandsOut run_plan e tasks
  Reach-HandsOut phase total =
      Reach-holds c (HandsOut run_plan) HandsOut-Survives HandsOut-Finishes (
        unfold fresh_execution in
        record {
          plan = refl;
          transfers_within = omega arith;
          deletes_within = omega arith;
          transfers = refl;
          deletes = Covered.nothing;
          accounted = omega arith;
          failures = λ _. refl;
        })
