-- ===== src/Sync/Execution/Dispatch.antt =====
-- `dispatch_sync_execution` and `final_sync_summary` (src/app/handlers/sync.rs).
use abixio_ui.Common.{
  ℕ, zero, suc, ◌+◌, Bool, true, false, ◌&&◌, none, some, List, [], ◌∷◌, ◌++◌, if◌then◌else◌, ltb,
}
use abixio_ui.Common.Text.{Text, text}
use abixio_ui.Common.Number.{display}
use abixio_ui.Sync.State.{SyncExecutionPhase, SyncExecutionState}
use abixio_ui.Sync.State.SyncExecutionPhase.{
  deleting_before, copying, deleting_during, deleting_after, done, stopped,
}
use abixio_ui.Sync.Execution.Phase.{RunConfig, transfers_left, phase_step, settle}
use abixio_ui.Sync.Execution.Tasks.{PendingSyncTask, next_transfer_spec, next_delete_batch_spec}

abbrev pub Spawned : Type 0
Spawned = SyncExecutionState × List PendingSyncTask

-- `while execution.active_transfers < transfer_workers && …`. Each round takes one of the workers
-- that are free, so `transfer_workers` rounds are enough.
unfoldable pub spawn_transfers : ℕ → ℕ → Spawned → Spawned
spawn_transfers zero workers s = s
spawn_transfers (suc fuel) workers (e, specs) =
    elim (ltb e.active_transfers workers && transfers_left e) [
      | false ↦ (e, specs)
      | true ↦ elim (next_transfer_spec e) [
        | none ↦ (e, specs)
        | some (e', spec) ↦
            spawn_transfers fuel workers
              (record e' { active_transfers = e'.active_transfers + 1 }, specs ++ spec ∷ [])
      ]
    ]

-- `while execution.active_delete_batches < delete_workers`
unfoldable pub spawn_deletes : ℕ → ℕ → Spawned → Spawned
spawn_deletes zero workers s = s
spawn_deletes (suc fuel) workers (e, specs) = elim (ltb e.active_delete_batches workers) [
  | false ↦ (e, specs)
  | true ↦ elim (next_delete_batch_spec e) [
    | none ↦ (e, specs)
    | some (e', spec) ↦
        spawn_deletes fuel workers
          (record e' { active_delete_batches = e'.active_delete_batches + 1 }, specs ++ spec ∷ [])
  ]
]

-- The second `match execution.phase`.
unfoldable pub spawn : RunConfig → SyncExecutionPhase → SyncExecutionState → Spawned
spawn c deleting_before e = spawn_deletes c.delete_workers c.delete_workers (e, [])
spawn c copying e = spawn_transfers c.transfer_workers c.transfer_workers (e, [])
spawn c deleting_during e =
    spawn_deletes c.delete_workers c.delete_workers
      (spawn_transfers c.transfer_workers c.transfer_workers (e, []))
spawn c deleting_after e = spawn_deletes c.delete_workers c.delete_workers (e, [])
spawn c done e = (e, [])
spawn c stopped e = (e, [])

-- `final_sync_summary`
unfoldable pub final_sync_summary : SyncExecutionState → Text
unfolding text display
final_sync_summary e =
    text "Done. Copied: "
    ++ display e.completed_transfers
    ++ text ". Deleted: "
    ++ display e.completed_deletes
    ++ text ". Transfer failures: "
    ++ display e.failed_transfers
    ++ text ". Delete failures: "
    ++ display e.failed_deletes
    ++ text ". Bytes: "
    ++ display e.bytes_done
    ++ text " / "
    ++ display e.total_bytes
    ++ text "."
    ++ (if e.delete_phase_skipped
        then text " Delete phase was skipped because earlier transfers failed."
        else [])

abbrev pub is_final : SyncExecutionPhase → Bool
is_final done = true
is_final stopped = true
is_final _ = false

-- The `Done | Stopped` arm of the loop, which returns.
unfoldable pub conclude : SyncExecutionState → SyncExecutionState
conclude e = record e {
  running = false;
  current_strategy = none;
  current_item = none;
  summary = some (final_sync_summary e);
}

-- The `if pending_specs.is_empty()` at the end.
unfoldable pub close_if_idle : Spawned → Spawned
close_if_idle (e, []) = (record e { running = false; summary = some (final_sync_summary e) }, [])
close_if_idle (e, spec ∷ specs) = (e, spec ∷ specs)

-- `dispatch_sync_execution`, for the execution alone.
unfoldable pub dispatch_execution : RunConfig → SyncExecutionState → Spawned
unfolding settle phase_step spawn spawn_transfers spawn_deletes next_transfer_spec
    next_delete_batch_spec conclude close_if_idle
dispatch_execution c e =
    let settled = settle 3 c e in
    if is_final settled.phase
    then (conclude settled, [])
    else close_if_idle (spawn c settled.phase settled)
