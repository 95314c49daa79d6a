-- ===== src/Sync/Screen/Guards.antt =====
-- The guards of a run that deletes, and of the dispatcher on the screen (`handle_start_sync`,
-- `handle_confirm_sync_delete_run` and `delete_confirm_reason` of src/app/handlers/sync.rs).
use abixio_ui.Common.{
  ℕ, ◌*◌, ◌^◌, ◌≤◌, ◌<◌, Bool, true, false, not, ◌&&◌, if◌then◌else◌, ltb, Option, none, some, List,
  [], ◌∷◌, ◌≡◌, ◌⊎◌, ◌↔◌, inl, inr, refl, sym, arith, is_empty, ◌==◌, ◌∙◌, ap,
}
use mathlib.Core.Path.{subst}
use mathlib.Core.Option.{none-ne-some, some-injective}
use abixio_ui.Common.Text.{Text, text_eq}
use abixio_ui.Common.Number.{trim}
use abixio_ui.Common.Result.{Result, ok, err}
use abixio_ui.Sync.Plan.{add64}
use abixio_ui.Sync.Types.{SyncMode, SyncPlan}
use abixio_ui.Sync.State.{SyncRunPlan, SyncExecutionState, SyncDeleteConfirmState, SyncState}
use abixio_ui.Sync.Execution.Phase.{RunConfig}
use abixio_ui.Sync.Execution.Dispatch.{is_final}
use abixio_ui.Sync.Execution.Rule.{Survives, dispatch_execution-Survives}
use abixio_ui.Sync.Execution.Once.{phase_step_keeps}
use abixio_ui.Sync.Execution.Progress.{InFlight, dispatch_execution-InFlight}
use abixio_ui.Sync.Execution.Messages.{fresh_execution, first_phase}
use abixio_ui.Sync.Screen.Validation.{
  parse_positive, parse_transfer_workers, parse_delete_workers, validate_sync_guardrails,
}
use abixio_ui.Sync.Screen.Running.{
  Started, config_of, run_on, start_sync_with, dispatch_sync_execution, start_sync_execution,
  handle_start_sync, start_or_ask, sync_run_plan, sync_plan, sync_in, confirm_with,
  handle_confirm_sync_delete_run, delete_confirm_reason, expected_text,
}

parse_positive_pos : (s a b : Text) {n : ℕ} → parse_positive s a b ≡ ok n → 0 < n
unfolding parse_positive
parse_positive_pos s a b h = ground arith

-- The texts of the two worker fields, whatever they hold, give at least one worker each.
config_of_workers :
    (s : SyncState) → (0 < (config_of s).transfer_workers) × (0 < (config_of s).delete_workers)
unfolding config_of parse_transfer_workers parse_delete_workers
config_of_workers s = ground arith

run_on-InFlight :
    (s : SyncState) (o : Option SyncExecutionState) {e : SyncExecutionState}
    → s.execution ≡ o
    → (run_on s o).0.execution ≡ some e
    → InFlight e ⊎ (is_final e.phase ≡ true)
run_on-InFlight s none is h = absurd (none-ne-some _ (sym is ∙ h))
run_on-InFlight s (some old) is h =
    let (t, d) = config_of_workers s in
    subst (λ e. InFlight e ⊎ (is_final e.phase ≡ true)) (some-injective _ _ h)
      (dispatch_execution-InFlight (config_of s) old t d)

-- A call of `dispatch_sync_execution` leaves a task in flight, or the run in its last phase.
pub dispatch_sync_execution-InFlight :
    (s : SyncState) {e : SyncExecutionState}
    → (dispatch_sync_execution s).0.execution ≡ some e
    → InFlight e ⊎ (is_final e.phase ≡ true)
unfolding dispatch_sync_execution
dispatch_sync_execution-InFlight s h = run_on-InFlight s s.execution refl h

-- Where four times the number of deletes is below 2^64: no typed confirmation is asked for exactly
-- when the deletes are at most a thousand and 10 GiB, at most a quarter of a scanned destination,
-- and none where the source scan is empty.
pub delete_confirm_reason-eq-none :
    (deletes bytes destination source : ℕ)
    → deletes * 4 < 2 ^ 64
    → (delete_confirm_reason deletes bytes destination source ≡ none) ↔ (
        (deletes ≤ 1000)
        × (bytes ≤ 10737418240)
        × ((destination ≡ 0) ⊎ (deletes * 4 ≤ destination))
        × ((source ≡ 0) → deletes ≡ 0))
unfolding delete_confirm_reason
delete_confirm_reason-eq-none deletes bytes destination source fits = ground arith

run_plan-Survives : (c : RunConfig) (r : SyncRunPlan) → Survives c (λ e _. e.run_plan ≡ r)
run_plan-Survives c r = record {
  moves_on = λ e e' _ on h. let (p, skipped, same) = phase_step_keeps c e e' on in rw same h;
  starts_transfer = λ e _ item copies free at h. h;
  starts_deletes = λ e _ spec n deletes free pos within covers h. h;
  reports = λ e _ s i t h. h;
}

run_on-idle :
    (s : SyncState) (o : Option SyncExecutionState)
    → s.execution ≡ o
    → o ≡ none
    → (run_on s o).0.execution ≡ none
run_on-idle s none is h = is
run_on-idle s (some e) is h = absurd (none-ne-some e (sym h))

-- The plan of a run that `start_sync_execution` and the dispatcher leave.
run_plan_of_started :
    (s : SyncState) (o : Option SyncRunPlan) {e : SyncExecutionState}
    → s.execution ≡ none
    → (dispatch_sync_execution (start_sync_with s o)).0.execution ≡ some e
    → o ≡ some e.run_plan
unfolding dispatch_sync_execution
run_plan_of_started s none is h =
    absurd (none-ne-some _ (sym (run_on-idle s s.execution refl is) ∙ h))
run_plan_of_started s (some r) is h =
    subst (λ e. some r ≡ some e.run_plan) (some-injective _ _ h)
      (ap some (
        sym (
          dispatch_execution-Survives (config_of (start_sync_with s (some r)))
            (λ e _. e.run_plan ≡ r) (run_plan-Survives (config_of (start_sync_with s (some r))) r)
            (fresh_execution (first_phase s.policy.delete_phase r)
              (add64 r.total_transfer_bytes r.total_delete_bytes) r)
            (unfold fresh_execution in refl))))

no_run :
    {A : Type 0} {e : SyncExecutionState} (s : SyncState)
    → s.execution ≡ none
    → s.execution ≡ some e
    → A
no_run s is h = absurd (none-ne-some _ (sym is ∙ h))

-- The branch of an `if` that a run comes from.
run_of_if :
    (b : Bool) (first other : Started) {e : SyncExecutionState}
    → (if b then first else other).0.execution ≡ some e
    → ((b ≡ true) × (first.0.execution ≡ some e)) ⊎ ((b ≡ false) × (other.0.execution ≡ some e))
run_of_if true first other h = inl (refl, h)
run_of_if false first other h = inr (refl, h)

nil_of_is_empty : {A : Type 0} (xs : List A) → is_empty xs ≡ true → xs ≡ []
nil_of_is_empty [] h = refl
nil_of_is_empty (x ∷ xs) h = ground arith

start_or_ask_lem :
    (s : SyncState) (r : SyncRunPlan) (v : Result (Unit {0})) {e : SyncExecutionState}
    → s.execution ≡ none
    → s.run_plan ≡ some r
    → (start_or_ask s r v).0.execution ≡ some e
    → e.run_plan.deletes ≡ []
unfolding start_sync_execution
start_or_ask_lem s r (err error) is has h = no_run s is h
start_or_ask_lem s r (ok _) {e} is has h =
    elim (run_of_if (is_empty r.deletes)
      (dispatch_sync_execution
        (start_sync_execution (record s { error = none; delete_confirm = none })))
      _ h) [
        | inl p ↦
            let same = run_plan_of_started _ s.run_plan is p.1 in
            subst (λ r. r.deletes ≡ []) (some-injective _ _ (sym has ∙ same))
              (nil_of_is_empty r.deletes p.0)
        | inr p ↦ no_run s is p.1
      ]

sync_run_plan_lem :
    (s : SyncState) (o : Option SyncRunPlan) {e : SyncExecutionState}
    → s.execution ≡ none
    → s.run_plan ≡ o
    → (sync_run_plan s o).0.execution ≡ some e
    → e.run_plan.deletes ≡ []
sync_run_plan_lem s none is has h = no_run s is h
sync_run_plan_lem s (some r) is has h =
    elim (run_of_if (is_empty r.transfers && is_empty r.deletes) _ _ h) [
      | inl p ↦ no_run s is p.1
      | inr p ↦ start_or_ask_lem s r (validate_sync_guardrails s r) is has p.1
    ]

sync_plan_lem :
    (s : SyncState) (o : Option SyncPlan) {e : SyncExecutionState}
    → s.execution ≡ none
    → (sync_plan s o).0.execution ≡ some e
    → e.run_plan.deletes ≡ []
sync_plan_lem s none is h = no_run s is h
sync_plan_lem s (some plan) is h = elim (run_of_if (ltb 0 plan.summary.conflicts) _ _ h) [
  | inl p ↦ no_run s is p.1
  | inr p ↦ sync_run_plan_lem s s.run_plan is refl p.1
]

sync_in_lem :
    (mode : SyncMode) (s : SyncState) {e : SyncExecutionState}
    → s.execution ≡ none
    → (sync_in mode s).0.execution ≡ some e
    → e.run_plan.deletes ≡ []
sync_in_lem SyncMode.sync s is h = sync_plan_lem s s.plan is h
sync_in_lem SyncMode.diff s is h = no_run s is h
sync_in_lem SyncMode.copy s is h = no_run s is h

-- `StartSync` by itself never starts a run that deletes: where no run is there and it leaves one,
-- that run's plan has no delete.
pub handle_start_sync-deletes :
    (s : SyncState) {e : SyncExecutionState}
    → s.execution ≡ none
    → (handle_start_sync s).0.execution ≡ some e
    → e.run_plan.deletes ≡ []
unfolding handle_start_sync
handle_start_sync-deletes s is h = sync_in_lem s.mode s is h

confirm_with_lem :
    (s : SyncState) (o : Option SyncDeleteConfirmState) {e : SyncExecutionState}
    → s.execution ≡ none
    → s.delete_confirm ≡ o
    → (confirm_with s o).0.execution ≡ some e
    → (c : SyncDeleteConfirmState) × (s.delete_confirm ≡ some c)
      × (s.run_plan ≡ some e.run_plan)
      × (c.typed_required ≡ true → trim c.confirm_text ≡ expected_text c)
unfolding start_sync_execution
confirm_with_lem s none is has h = no_run s is h
confirm_with_lem s (some c) is has h =
    elim (run_of_if (c.typed_required && not (trim c.confirm_text == expected_text c)) _ _ h) [
      | inl p ↦ no_run s is p.1
      | inr p ↦
          (c, has, run_plan_of_started _ s.run_plan is p.1, λ typed. let q = p.0 in ground arith)
    ]

-- Where no run is there, a run that `ConfirmSyncDeleteRun` starts was asked for: the confirmation
-- was open, the run is of the plan on the screen, and where the text is required, what was typed
-- is, trimmed, `delete N` with the number of planned deletes.
pub handle_confirm_sync_delete_run-confirmed :
    (s : SyncState) {e : SyncExecutionState}
    → s.execution ≡ none
    → (handle_confirm_sync_delete_run s).0.execution ≡ some e
    → (c : SyncDeleteConfirmState) × (s.delete_confirm ≡ some c)
      × (s.run_plan ≡ some e.run_plan)
      × (c.typed_required ≡ true → trim c.confirm_text ≡ expected_text c)
unfolding handle_confirm_sync_delete_run
handle_confirm_sync_delete_run-confirmed s is h = confirm_with_lem s s.delete_confirm is refl h
