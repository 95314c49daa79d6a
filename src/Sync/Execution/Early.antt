-- ===== src/Sync/Execution/Early.antt =====
-- When a run is marked as ended (`dispatch_sync_execution`, src/app/handlers/sync.rs).
use abixio_ui.Common.{
  ℕ, zero, suc, ◌∙◌, ap, ◌+◌, ◌-◌, ◌≤◌, ◌<◌, true, false, some, none, List, [], ◌∷◌, ◌≡◌, refl,
  arith, length, ltb, get_elem?, Bool-cases, inl, inr, get_elem?_total, Option-cases,
}
use abixio_ui.Common.Result.{Result, ok, err}
use abixio_ui.Sync.State.{SyncRunItem, SyncRunPlan, SyncExecutionState}
use abixio_ui.Sync.State.SyncExecutionPhase.{copying}
use abixio_ui.Sync.Execution.Phase.{RunConfig, phase_step, settle}
use abixio_ui.Sync.Execution.Tasks.{PendingSyncTask, next_transfer_spec}
use abixio_ui.Sync.Execution.Dispatch.{
  dispatch_execution, spawn, spawn_transfers, close_if_idle, final_sync_summary, is_final,
}
use abixio_ui.Sync.Execution.Rule.{dispatch_open}
use abixio_ui.Sync.Execution.Messages.{finish_transfer, fresh_execution}

settle_out :
    (c : RunConfig) (e : SyncExecutionState) → phase_step c e.phase e ≡ none → settle 3 c e ≡ e
unfolding settle
settle_out c e out = rw (out, settle)

spawn_transfers_over :
    (fuel workers : ℕ) (e : SyncExecutionState) (specs : List PendingSyncTask)
    → length e.run_plan.transfers ≤ e.next_transfer_index
    → spawn_transfers fuel workers (e, specs) ≡ (e, specs)
unfolding spawn_transfers
spawn_transfers_over zero workers e specs over = refl
spawn_transfers_over (suc fuel) workers e specs over = ground arith

copying_waits :
    (c : RunConfig) (e : SyncExecutionState)
    → e.phase ≡ copying
    → 0 < e.active_transfers
    → phase_step c e.phase e ≡ none
unfolding phase_step
copying_waits c e at active = ground arith

-- What a call of the dispatcher comes to in the copying phase while there is something to copy.
dispatch_copying :
    (c : RunConfig) (e : SyncExecutionState)
    → e.phase ≡ copying
    → phase_step c e.phase e ≡ none
    → dispatch_execution c e
      ≡ close_if_idle (spawn_transfers c.transfer_workers c.transfer_workers (e, []))
dispatch_copying c e at waits =
    let same = settle_out c e waits in
    dispatch_open c e (rw same (ap is_final at))
    ∙ ap (λ e'. close_if_idle (spawn c e'.phase e')) same
    ∙ ap (λ p. close_if_idle (spawn c p e)) at
    ∙ ap close_if_idle (spawn_copying c e)
  where
    spawn_copying :
        (c : RunConfig) (e : SyncExecutionState)
        → spawn c copying e ≡ spawn_transfers c.transfer_workers c.transfer_workers (e, [])
    spawn_copying c e = unfold spawn in refl

dispatch_over :
    (c : RunConfig) (e : SyncExecutionState)
    → e.phase ≡ copying
    → 0 < e.active_transfers
    → length e.run_plan.transfers ≤ e.next_transfer_index
    → dispatch_execution c e
      ≡ (record e { running = false; summary = some (final_sync_summary e) }, [])
dispatch_over c e at active over =
    dispatch_copying c e at (copying_waits c e at active)
    ∙ ap close_if_idle (spawn_transfers_over c.transfer_workers c.transfer_workers e [] over)
    ∙ unfold close_if_idle in refl

-- Every transfer of the plan was handed out, and none came back meanwhile.
record AllOut (e e' : SyncExecutionState) : Type 0 where
  same_phase : e'.phase ≡ e.phase
  same_plan : e'.run_plan ≡ e.run_plan
  taken : e'.next_transfer_index ≡ length e.run_plan.transfers
  in_flight :
      e'.active_transfers
      ≡ e.active_transfers + (length e.run_plan.transfers - e.next_transfer_index)

AllOut-over :
    (e : SyncExecutionState) → e.next_transfer_index ≡ length e.run_plan.transfers → AllOut e e
AllOut-over e over = record {
  same_phase = refl;
  same_plan = refl;
  taken = over;
  in_flight = omega arith;
}

AllOut-next :
    (e e' : SyncExecutionState)
    → e.next_transfer_index < length e.run_plan.transfers
    → AllOut
        (record e {
          next_transfer_index = e.next_transfer_index + 1;
          active_transfers = e.active_transfers + 1;
        })
        e'
    → AllOut e e'
AllOut-next e e' left h = record {
  same_phase = h.same_phase;
  same_plan = h.same_plan;
  taken = h.taken;
  in_flight = omega (arith, h.in_flight);
}

spawn_transfers-AllOut :
    (fuel workers : ℕ) (e : SyncExecutionState) (specs : List PendingSyncTask)
    → e.next_transfer_index ≤ length e.run_plan.transfers
    → length e.run_plan.transfers - e.next_transfer_index ≤ fuel
    → e.active_transfers + (length e.run_plan.transfers - e.next_transfer_index) ≤ workers
    → AllOut e (spawn_transfers fuel workers (e, specs)).0
unfolding spawn_transfers next_transfer_spec
spawn_transfers-AllOut zero workers e specs within enough room = AllOut-over e (omega arith)
spawn_transfers-AllOut (suc fuel) workers e specs within enough room =
    elim (Bool-cases (ltb e.next_transfer_index (length e.run_plan.transfers))) [
      | inl left ↦ elim (Option-cases (get_elem? e.run_plan.transfers e.next_transfer_index)) [
        | inl out ↦
            absurd (get_elem?_total e.run_plan.transfers e.next_transfer_index (ground arith) out)
        | inr (item, at) ↦
            let free : ltb e.active_transfers workers ≡ true = ground arith in
            rw (free, left, at, next_transfer_spec, spawn_transfers)
              (AllOut-next e _ (ground arith) (
                spawn_transfers-AllOut fuel workers _ _ (ground arith) (ground arith)
                  (ground arith)))
      ]
      | inr out ↦
          rw (spawn_transfers_over (suc fuel) workers e specs (ground arith))
            (AllOut-over e (ground arith))
    ]

close_if_idle-AllOut :
    (e : SyncExecutionState) (s : SyncExecutionState × List PendingSyncTask)
    → AllOut e s.0
    → AllOut e (close_if_idle s).0
unfolding close_if_idle
close_if_idle-AllOut e (e', []) h = record {
  same_phase = h.same_phase;
  same_plan = h.same_plan;
  taken = h.taken;
  in_flight = h.in_flight;
}
close_if_idle-AllOut e (e', spec ∷ specs) h = h

-- The first call of a run hands out all its transfers where there are workers enough.
dispatch_fresh-AllOut :
    (c : RunConfig) (total : ℕ) (run_plan : SyncRunPlan)
    → 0 < length run_plan.transfers
    → length run_plan.transfers ≤ c.transfer_workers
    → (let e = fresh_execution copying total run_plan in AllOut e (dispatch_execution c e).0)
unfolding fresh_execution
dispatch_fresh-AllOut c total run_plan some_left room =
    let e = fresh_execution copying total run_plan in
    rw (dispatch_copying c e refl (unfold phase_step in ground arith)) (
      close_if_idle-AllOut e _ (
        spawn_transfers-AllOut c.transfer_workers c.transfer_workers e [] (omega arith)
          (omega arith) (omega arith)))

-- A finished transfer leaves the copying phase on.
finish_transfer-copying :
    (c : RunConfig) (r : Result SyncRunItem) (e : SyncExecutionState)
    → e.phase ≡ copying
    → ((finish_transfer c r e).phase ≡ copying)
      × ((finish_transfer c r e).run_plan ≡ e.run_plan)
      × ((finish_transfer c r e).next_transfer_index ≡ e.next_transfer_index)
      × ((finish_transfer c r e).active_transfers ≡ e.active_transfers - 1)
unfolding finish_transfer
finish_transfer-copying c (ok item) e at = (at, refl, refl, refl)
finish_transfer-copying c (err error) e at = (rw at (ground arith), refl, refl, refl)

-- A run that starts with copying and has at least two transfers, and no more than there are workers,
-- is marked as ended with its final summary as soon as the first of them finishes, with whatever
-- result: it is still copying, and all the other transfers are in flight.
pub Reach-reports_early :
    (c : RunConfig) (total : ℕ) (run_plan : SyncRunPlan) (r : Result SyncRunItem)
    → 2 ≤ length run_plan.transfers
    → length run_plan.transfers ≤ c.transfer_workers
    → let e = (dispatch_execution c (fresh_execution copying total run_plan)).0 in
      let e' = (dispatch_execution c (finish_transfer c r e)).0 in
      (e'.running ≡ false)
      × (e'.summary ≡ some (final_sync_summary (finish_transfer c r e)))
      × (e'.phase ≡ copying)
      × (e'.active_transfers + 1 ≡ length run_plan.transfers)
Reach-reports_early c total run_plan r two room =
    let e = (dispatch_execution c (fresh_execution copying total run_plan)).0 in
    let out = dispatch_fresh-AllOut c total run_plan (omega arith) room in
    let at : e.phase ≡ copying = out.same_phase ∙ unfold fresh_execution in refl in
    let plan : e.run_plan ≡ run_plan = out.same_plan ∙ unfold fresh_execution in refl in
    let active : e.active_transfers ≡ length run_plan.transfers =
      out.in_flight ∙ unfold fresh_execution in omega arith in
    let taken : e.next_transfer_index ≡ length run_plan.transfers =
      out.taken ∙ unfold fresh_execution in refl in
    let (copies, same, next, fewer) = finish_transfer-copying c r e at in
    let left : 0 < (finish_transfer c r e).active_transfers = omega arith in
    rw
      (dispatch_over c (finish_transfer c r e) copies left
        (omega (arith, ap (λ (p : SyncRunPlan). length p.transfers) (same ∙ plan))))
      (refl, refl, copies, omega arith)
