-- ===== src/Sync/Execution/Phase.antt =====
-- The loop over the phases in `dispatch_sync_execution` (src/app/handlers/sync.rs).
use abixio_ui.Common.{
  ℕ, zero, suc, Bool, true, false, not, ◌&&◌, ◌||◌, Option, none, some, if◌then◌else◌, ltb, leb,
  ◌==◌, nat_eq, is_empty, length,
}
use abixio_ui.Sync.Types.{SyncMode, SyncDeletePhase}
use abixio_ui.Sync.State.{SyncExecutionPhase, SyncExecutionState}
use abixio_ui.Sync.State.SyncExecutionPhase.{
  deleting_before, copying, deleting_during, deleting_after, done, stopped,
}

-- What the dispatcher reads of the sync screen.
pub record RunConfig : Type 0 where
  pub mode : SyncMode
  pub delete_phase : SyncDeletePhase
  pub ignore_errors : Bool
  pub transfer_workers : ℕ
  pub delete_workers : ℕ

abbrev pub transfers_left : SyncExecutionState → Bool
transfers_left e = ltb e.next_transfer_index (length e.run_plan.transfers)

abbrev pub deletes_done : SyncExecutionState → Bool
deletes_done e = e.active_delete_batches == 0 && leb (length e.run_plan.deletes) e.next_delete_index

abbrev pub transfers_done : SyncExecutionState → Bool
transfers_done e =
    e.active_transfers == 0 && leb (length e.run_plan.transfers) e.next_transfer_index

abbrev is_copy : SyncMode → Bool
is_copy SyncMode.copy = true
is_copy _ = false

abbrev phase_after_copying : SyncDeletePhase → SyncExecutionPhase
phase_after_copying SyncDeletePhase.after = deleting_after
phase_after_copying SyncDeletePhase.during = deleting_during
phase_after_copying SyncDeletePhase.before = done

-- One round of `loop { match execution.phase … }`: `some` is `continue`, `none` leaves the loop.
unfoldable pub phase_step :
    RunConfig → SyncExecutionPhase → SyncExecutionState → Option SyncExecutionState
phase_step c deleting_before e =
    if deletes_done e then some (record e { phase = copying }) else none
phase_step c copying e =
    if ltb 0 e.active_transfers || transfers_left e
    then none
    else if is_copy c.mode
    then some (record e { phase = done })
    else if is_empty e.run_plan.deletes
    then some (record e { phase = done })
    else if e.transfer_failed && not c.ignore_errors
    then some (record e { delete_phase_skipped = true; phase = done })
    else some (record e { phase = phase_after_copying c.delete_phase })
phase_step c deleting_during e =
    if transfers_done e && deletes_done e then some (record e { phase = done }) else none
phase_step c deleting_after e = if deletes_done e then some (record e { phase = done }) else none
phase_step c done e = none
phase_step c stopped e = none

-- The loop. A round only moves on in the order of the phases; the dispatcher gives the
-- loop three rounds.
unfoldable pub settle : ℕ → RunConfig → SyncExecutionState → SyncExecutionState
settle zero c e = e
settle (suc fuel) c e = elim (phase_step c e.phase e) [ none ↦ e | some e' ↦ settle fuel c e' ]
