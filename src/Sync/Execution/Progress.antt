-- ===== src/Sync/Execution/Progress.antt =====
-- The loops of `dispatch_sync_execution` (src/app/handlers/sync.rs): their rounds, and the tasks in
-- flight after them.
use abixio_ui.Common.{
  ℕ, zero, suc, ◌+◌, ◌≤◌, ◌<◌, true, false, ◌&&◌, none, some, List, [], ◌∷◌, ◌++◌, ◌≡◌, ◌⊎◌, inl,
  inr, refl, arith, length, ltb, Bool-cases, Option-cases,
}
use abixio_ui.Sync.State.{SyncExecutionState, SyncExecutionPhase}
use abixio_ui.Sync.State.SyncExecutionPhase.{
  deleting_before, copying, deleting_during, deleting_after, done, stopped,
}
use abixio_ui.Sync.Execution.Phase.{
  RunConfig, phase_step, settle, transfers_left, transfers_done, deletes_done,
}
use abixio_ui.Sync.Execution.Tasks.{PendingSyncTask}
use abixio_ui.Sync.Execution.Batches.{
  next_transfer_spec-cases, next_delete_batch_spec-cases, next_transfer_spec_total,
  next_delete_batch_spec_total,
}
use abixio_ui.Sync.Execution.Dispatch.{
  Spawned, spawn_transfers, spawn_deletes, spawn, close_if_idle, is_final, dispatch_execution,
}
use abixio_ui.Sync.Execution.Rule.{dispatch_final, dispatch_open}

-- The rounds that the loop over the phases has left: it goes on in this order.
abbrev rank : SyncExecutionPhase → ℕ
rank deleting_before = 3
rank copying = 2
rank deleting_during = 1
rank deleting_after = 1
rank done = 0
rank stopped = 0

rank-phase_step :
    (c : RunConfig) (e e' : SyncExecutionState)
    → phase_step c e.phase e ≡ some e'
    → rank e'.phase < rank e.phase
unfolding phase_step
rank-phase_step c e e' on = ground arith

settle-settled_from :
    (c : RunConfig) (fuel : ℕ) (e : SyncExecutionState)
    → rank e.phase ≤ fuel
    → phase_step c (settle fuel c e).phase (settle fuel c e) ≡ none
unfolding settle
settle-settled_from c zero e h = elim (Option-cases (phase_step c e.phase e)) [
  | inl out ↦ out
  | inr (e', on) ↦ absurd (omega (arith, rank-phase_step c e e' on))
]
settle-settled_from c (suc fuel) e h = elim (Option-cases (phase_step c e.phase e)) [
  | inl out ↦ rw (out, settle) out
  | inr (e', on) ↦
      rw (on, settle) (settle-settled_from c fuel e' (omega (arith, rank-phase_step c e e' on)))
]

rank-le : (p : SyncExecutionPhase) → rank p ≤ 3
rank-le p = ground arith

-- The loop over the phases ends within three rounds, in a phase that it leaves by `break` or `return`.
pub settle-settled :
    (c : RunConfig) (e : SyncExecutionState)
    → phase_step c (settle 3 c e).phase (settle 3 c e) ≡ none
settle-settled c e = settle-settled_from c 3 e (rank-le e.phase)

-- Spawning never gives up a task in flight.
spawn_transfers-active :
    (fuel workers : ℕ) (e : SyncExecutionState) (specs : List PendingSyncTask)
    → let e' = (spawn_transfers fuel workers (e, specs)).0 in
      (e.active_transfers ≤ e'.active_transfers)
      × (e'.active_delete_batches ≡ e.active_delete_batches)
      × (e'.next_delete_index ≡ e.next_delete_index)
      × (e'.run_plan ≡ e.run_plan)
      × (e'.phase ≡ e.phase)
unfolding spawn_transfers
spawn_transfers-active zero workers e specs = ground arith
spawn_transfers-active (suc fuel) workers e specs =
    elim (Bool-cases (ltb e.active_transfers workers && transfers_left e)) [
      | inr full ↦ rw (full, spawn_transfers) (ground arith)
      | inl free ↦ elim (next_transfer_spec-cases e) [
        | inl missing ↦ rw (free, missing, spawn_transfers) (ground arith)
        | inr (item, at, found) ↦
            let ih =
              spawn_transfers-active fuel workers
                (record e {
                  next_transfer_index = e.next_transfer_index + 1;
                  active_transfers = e.active_transfers + 1;
                })
                (specs ++ PendingSyncTask.transfer item ∷ []) in
            rw (free, found, spawn_transfers) (omega (arith, ih.0), ih.1, ih.2, ih.3, ih.4)
      ]
    ]

spawn_deletes-active :
    (fuel workers : ℕ) (e : SyncExecutionState) (specs : List PendingSyncTask)
    → let e' = (spawn_deletes fuel workers (e, specs)).0 in
      (e.active_delete_batches ≤ e'.active_delete_batches)
      × (e'.active_transfers ≡ e.active_transfers)
      × (e'.phase ≡ e.phase)
unfolding spawn_deletes
spawn_deletes-active zero workers e specs = ground arith
spawn_deletes-active (suc fuel) workers e specs =
    elim (Bool-cases (ltb e.active_delete_batches workers)) [
      | inr full ↦ rw (full, spawn_deletes) (ground arith)
      | inl free ↦ elim (next_delete_batch_spec-cases e) [
        | inl missing ↦ rw (free, missing, spawn_deletes) (ground arith)
        | inr (n, spec, t, found) ↦
            let ih =
              spawn_deletes-active fuel workers
                (record e {
                  next_delete_index = e.next_delete_index + n;
                  active_delete_batches = e.active_delete_batches + 1;
                })
                (specs ++ spec ∷ []) in
            rw (free, found, spawn_deletes) (omega (arith, ih.0), ih.1, ih.2)
      ]
    ]

-- With a worker, a transfer that is left is started or another is in flight.
spawn_transfers-busy :
    (workers : ℕ) (e : SyncExecutionState) (specs : List PendingSyncTask)
    → 0 < workers
    → (0 < e.active_transfers) ⊎ (e.next_transfer_index < length e.run_plan.transfers)
    → 0 < (spawn_transfers workers workers (e, specs)).0.active_transfers
unfolding spawn_transfers
spawn_transfers-busy zero e specs h left = absurd (omega arith)
spawn_transfers-busy (suc w) e specs h left =
    elim (Bool-cases (ltb e.active_transfers (suc w) && transfers_left e)) [
      | inr full ↦ rw (full, spawn_transfers) (ground arith)
      | inl free ↦ elim (next_transfer_spec-cases e) [
        | inl missing ↦ absurd (next_transfer_spec_total e (ground arith) missing)
        | inr (item, at, found) ↦
            rw (free, found, spawn_transfers)
              (omega (
                arith,
                (spawn_transfers-active w (suc w)
                    (record e {
                      next_transfer_index = e.next_transfer_index + 1;
                      active_transfers = e.active_transfers + 1;
                    })
                    (specs ++ PendingSyncTask.transfer item ∷ [])).0,
              ))
      ]
    ]

spawn_deletes-busy :
    (workers : ℕ) (e : SyncExecutionState) (specs : List PendingSyncTask)
    → 0 < workers
    → (0 < e.active_delete_batches) ⊎ (e.next_delete_index < length e.run_plan.deletes)
    → 0 < (spawn_deletes workers workers (e, specs)).0.active_delete_batches
unfolding spawn_deletes
spawn_deletes-busy zero e specs h left = absurd (omega arith)
spawn_deletes-busy (suc w) e specs h left =
    elim (Bool-cases (ltb e.active_delete_batches (suc w))) [
      | inr full ↦ rw (full, spawn_deletes) (ground arith)
      | inl free ↦ elim (next_delete_batch_spec-cases e) [
        | inl missing ↦
            rw (free, missing, spawn_deletes)
              (ground (
                arith,
                λ (k : e.next_delete_index < length e.run_plan.deletes).
                    next_delete_batch_spec_total e k missing,
              ))
        | inr (n, spec, t, found) ↦
            rw (free, found, spawn_deletes)
              (omega (
                arith,
                (spawn_deletes-active w (suc w)
                    (record e {
                      next_delete_index = e.next_delete_index + n;
                      active_delete_batches = e.active_delete_batches + 1;
                    })
                    (specs ++ spec ∷ [])).0,
              ))
      ]
    ]

abbrev pub InFlight : SyncExecutionState → Type 0
InFlight e = 0 < e.active_transfers + e.active_delete_batches

during_left :
    (e : SyncExecutionState)
    → (transfers_done e && deletes_done e) ≡ false
    → ((0 < e.active_transfers) ⊎ (e.next_transfer_index < length e.run_plan.transfers))
      ⊎ ((0 < e.active_delete_batches) ⊎ (e.next_delete_index < length e.run_plan.deletes))
during_left e h = ground arith

-- In a phase that the loop leaves by `break`, spawning leaves a task in flight.
spawn-InFlight :
    (c : RunConfig) (p : SyncExecutionPhase) (e : SyncExecutionState)
    → 0 < c.transfer_workers
    → 0 < c.delete_workers
    → is_final p ≡ false
    → phase_step c p e ≡ none
    → InFlight (spawn c p e).0
unfolding spawn phase_step
spawn-InFlight c deleting_before e tw dw busy out =
    omega (arith, spawn_deletes-busy c.delete_workers e [] dw (ground arith))
spawn-InFlight c copying e tw dw busy out =
    omega (arith, spawn_transfers-busy c.transfer_workers e [] tw (ground arith))
spawn-InFlight c deleting_during e tw dw busy out =
    let s = spawn_transfers c.transfer_workers c.transfer_workers (e, []) in
    let kept = spawn_transfers-active c.transfer_workers c.transfer_workers e [] in
    let still = (spawn_deletes-active c.delete_workers c.delete_workers s.0 s.1).1 in
    elim (during_left e (unfold phase_step in ground arith)) [
      | inl left ↦ omega (arith, still, spawn_transfers-busy c.transfer_workers e [] tw left)
      | inr left ↦
          omega (
            arith,
            spawn_deletes-busy c.delete_workers s.0 s.1 dw (rw (kept.1, kept.2, kept.3) left),
          )
    ]
spawn-InFlight c deleting_after e tw dw busy out =
    omega (arith, spawn_deletes-busy c.delete_workers e [] dw (ground arith))
spawn-InFlight c done e tw dw busy out = cc
spawn-InFlight c stopped e tw dw busy out = cc

close_if_idle-keeps :
    (s : Spawned)
    → ((close_if_idle s).0.active_transfers ≡ s.0.active_transfers)
      × ((close_if_idle s).0.active_delete_batches ≡ s.0.active_delete_batches)
unfolding close_if_idle
close_if_idle-keeps (e, []) = (refl, refl)
close_if_idle-keeps (e, spec ∷ specs) = (refl, refl)

-- With at least one worker of each kind, a call of the dispatcher leaves a task in flight, or the
-- run in its last phase: a run never waits for nothing.
pub dispatch_execution-InFlight :
    (c : RunConfig) (e : SyncExecutionState)
    → 0 < c.transfer_workers
    → 0 < c.delete_workers
    → InFlight (dispatch_execution c e).0 ⊎ (is_final (dispatch_execution c e).0.phase ≡ true)
dispatch_execution-InFlight c e tw dw =
    let settled = settle 3 c e in
    elim (Bool-cases (is_final settled.phase)) [
      | inl final ↦ rw (dispatch_final c e final) (inr final)
      | inr busy ↦ rw (dispatch_open c e busy) (
          inl (
            omega (
              arith,
              close_if_idle-keeps (spawn c settled.phase settled),
              spawn-InFlight c settled.phase settled tw dw busy (settle-settled c e),
            )))
    ]
