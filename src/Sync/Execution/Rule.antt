-- ===== src/Sync/Execution/Rule.antt =====
-- The rule by which a property is shown to survive the dispatcher: it survives each of the moves
-- that the dispatcher is made of.
use abixio_ui.Common.{
  ℕ, zero, suc, ◌+◌, ◌≤◌, ◌<◌, true, false, ◌&&◌, Option, none, some, [], ◌∷◌, ◌++◌, List, ◌≡◌,
  refl, ◌∙◌, arith, length, ltb, get_elem?, take, drop, Option-cases, Bool-cases, inl, inr, ◌⊎◌,
}
use abixio_ui.Common.Text.{Text}
use abixio_ui.Sync.State.{
  SyncRunItem, SyncExecutionPhase, SyncExecutionState, SyncExecutionStrategy,
}
use abixio_ui.Sync.State.SyncExecutionPhase.{
  deleting_before, copying, deleting_during, deleting_after, done, stopped,
}
use abixio_ui.Sync.Execution.Phase.{RunConfig, phase_step, settle, transfers_left}
use abixio_ui.Sync.Execution.Tasks.{PendingSyncTask}
use abixio_ui.Sync.Execution.Batches.{
  Covers, next_transfer_spec-cases, next_delete_batch_spec-cases,
}
use abixio_ui.Sync.Execution.Dispatch.{
  Spawned, spawn_transfers, spawn_deletes, spawn, close_if_idle, is_final, dispatch_execution,
  final_sync_summary,
}

abbrev pub Copies : SyncExecutionPhase → Type 0
Copies p = (p ≡ copying) ⊎ (p ≡ deleting_during)

abbrev pub Deletes : SyncExecutionPhase → Type 0
Deletes p = (p ≡ deleting_before) ⊎ (p ≡ deleting_during) ⊎ (p ≡ deleting_after)

abbrev pub start_transfer : SyncExecutionState → SyncExecutionState
start_transfer e = record e {
  next_transfer_index = e.next_transfer_index + 1;
  active_transfers = e.active_transfers + 1;
}

abbrev pub start_deletes : ℕ → SyncExecutionState → SyncExecutionState
start_deletes n e = record e {
  next_delete_index = e.next_delete_index + n;
  active_delete_batches = e.active_delete_batches + 1;
}

-- The property of an execution and of the tasks handed out survives every move of the dispatcher.
pub record Survives (c : RunConfig) (P : SyncExecutionState → List PendingSyncTask → Type 0)
    : Type 0 where
  pub moves_on :
      (e e' : SyncExecutionState) (specs : List PendingSyncTask)
      → phase_step c e.phase e ≡ some e'
      → P e specs
      → P e' specs
  pub starts_transfer :
      (e : SyncExecutionState) (specs : List PendingSyncTask) (item : SyncRunItem)
      → Copies e.phase
      → e.active_transfers < c.transfer_workers
      → get_elem? e.run_plan.transfers e.next_transfer_index ≡ some item
      → P e specs
      → P (start_transfer e) (specs ++ PendingSyncTask.transfer item ∷ [])
  pub starts_deletes :
      (e : SyncExecutionState) (specs : List PendingSyncTask) (spec : PendingSyncTask) (n : ℕ)
      → Deletes e.phase
      → e.active_delete_batches < c.delete_workers
      → 0 < n
      → e.next_delete_index + n ≤ length e.run_plan.deletes
      → Covers (take n (drop e.next_delete_index e.run_plan.deletes)) spec
      → P e specs
      → P (start_deletes n e) (specs ++ spec ∷ [])
  pub reports :
      (e : SyncExecutionState) (specs : List PendingSyncTask) (s : Option SyncExecutionStrategy)
      (i t : Option Text)
      → P e specs
      → P (record e { running = false; current_strategy = s; current_item = i; summary = t }) specs

pub dispatch_final :
    (c : RunConfig) (e : SyncExecutionState)
    → is_final (settle 3 c e).phase ≡ true
    → dispatch_execution c e ≡ (
      record (settle 3 c e) {
        running = false;
        current_strategy = none;
        current_item = none;
        summary = some (final_sync_summary (settle 3 c e));
      },
      [],
    )
unfolding dispatch_execution
dispatch_final c e final = rw final

pub dispatch_open :
    (c : RunConfig) (e : SyncExecutionState)
    → is_final (settle 3 c e).phase ≡ false
    → dispatch_execution c e ≡ close_if_idle (spawn c (settle 3 c e).phase (settle 3 c e))
unfolding dispatch_execution
dispatch_open c e final = rw final

module _ (c : RunConfig) (P : SyncExecutionState → List PendingSyncTask → Type 0)
    (rule : Survives c P) where
  abbrev Holds : Spawned → Type 0
  Holds (e, specs) = P e specs

  settle-Survives :
      (fuel : ℕ) (e : SyncExecutionState) (specs : List PendingSyncTask)
      → P e specs
      → P (settle fuel c e) specs
  unfolding settle
  settle-Survives zero e specs h = h
  settle-Survives (suc fuel) e specs h = elim (Option-cases (phase_step c e.phase e)) [
    | inl out ↦ rw (out, settle) h
    | inr (e', on) ↦ rw (on, settle) (settle-Survives fuel e' specs (rule.moves_on e e' specs on h))
  ]

  spawn_transfers-Survives :
      (fuel : ℕ) (e : SyncExecutionState) (specs : List PendingSyncTask)
      → Copies e.phase
      → P e specs
      → Holds (spawn_transfers fuel c.transfer_workers (e, specs))
        × ((spawn_transfers fuel c.transfer_workers (e, specs)).0.phase ≡ e.phase)
  unfolding spawn_transfers
  spawn_transfers-Survives zero e specs copies h = (h, refl)
  spawn_transfers-Survives (suc fuel) e specs copies h =
      elim (Bool-cases (ltb e.active_transfers c.transfer_workers && transfers_left e)) [
        | inr full ↦ rw (full, spawn_transfers) (h, refl)
        | inl free ↦ elim (next_transfer_spec-cases e) [
          | inl missing ↦ rw (free, missing, spawn_transfers) (h, refl)
          | inr (item, at, found) ↦
              rw (free, found, spawn_transfers)
                (spawn_transfers-Survives fuel (start_transfer e)
                  (specs ++ PendingSyncTask.transfer item ∷ []) copies
                  (rule.starts_transfer e specs item copies (ground arith) at h))
        ]
      ]

  spawn_deletes-Survives :
      (fuel : ℕ) (e : SyncExecutionState) (specs : List PendingSyncTask)
      → Deletes e.phase
      → P e specs
      → Holds (spawn_deletes fuel c.delete_workers (e, specs))
  unfolding spawn_deletes
  spawn_deletes-Survives zero e specs deletes h = h
  spawn_deletes-Survives (suc fuel) e specs deletes h =
      elim (Bool-cases (ltb e.active_delete_batches c.delete_workers)) [
        | inr full ↦ rw (full, spawn_deletes) h
        | inl free ↦ elim (next_delete_batch_spec-cases e) [
          | inl missing ↦ rw (free, missing, spawn_deletes) h
          | inr (n, spec, t, found) ↦
              rw (free, found, spawn_deletes)
                (spawn_deletes-Survives fuel (start_deletes n e) (specs ++ spec ∷ []) deletes (
                  rule.starts_deletes e specs spec n deletes (ground arith) t.some_taken t.within
                    t.covers h))
        ]
      ]

  spawn-Survives :
      (p : SyncExecutionPhase) (e : SyncExecutionState) → e.phase ≡ p → P e [] → Holds (spawn c p e)
  unfolding spawn
  spawn-Survives deleting_before e at h = spawn_deletes-Survives c.delete_workers e [] (inl at) h
  spawn-Survives copying e at h = (spawn_transfers-Survives c.transfer_workers e [] (inl at) h).0
  spawn-Survives deleting_during e at h =
      let (s, same) = spawn_transfers-Survives c.transfer_workers e [] (inr at) h in
      spawn_deletes-Survives c.delete_workers _ _ (inr (inl (same ∙ at))) s
  spawn-Survives deleting_after e at h =
      spawn_deletes-Survives c.delete_workers e [] (inr (inr at)) h
  spawn-Survives done e at h = h
  spawn-Survives stopped e at h = h

  close_if_idle-Survives : (s : Spawned) → Holds s → Holds (close_if_idle s)
  unfolding close_if_idle
  close_if_idle-Survives (e, []) h =
      rule.reports e [] e.current_strategy e.current_item (some (final_sync_summary e)) h
  close_if_idle-Survives (e, spec ∷ specs) h = h

  -- What survives every move survives a call of the dispatcher.
  pub dispatch_execution-Survives :
      (e : SyncExecutionState) → P e [] → Holds (dispatch_execution c e)
  dispatch_execution-Survives e h = elim (Bool-cases (is_final (settle 3 c e).phase)) [
    | inl final ↦ rw (dispatch_final c e final) (
        rule.reports (settle 3 c e) [] none none (some (final_sync_summary (settle 3 c e))) settled)
    | inr busy ↦
        rw (dispatch_open c e busy) (
          close_if_idle-Survives _
            (spawn-Survives (settle 3 c e).phase (settle 3 c e) refl settled))
  ]
    where
      settled : P (settle 3 c e) []
      settled = settle-Survives 3 e [] h
