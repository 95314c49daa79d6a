-- ===== src/Sync/Tests/Screen.antt =====
-- Tests of the sync screen's guards.
use abixio_ui.Common.{inl, ℕ, ◌*◌, ◌≤◌, true, none, some, [], ◌≡◌, ◌⊎◌, ◌↔◌, refl, arith, nat_eq}
use abixio_ui.Common.Text.{text, text_eq, compare_text}
use abixio_ui.Common.Number.{parse_below, trim, display}
use abixio_ui.Sync.Types.{SyncEndpointKind, SyncMode, SyncCompareMode, policy}
use abixio_ui.Sync.State.{SyncRunPlan, SyncExecutionState, SyncDeleteConfirmState, SyncState, new}
use abixio_ui.Sync.Plan.{add64, build_sync_plan}
use abixio_ui.Sync.Execution.Dispatch.{dispatch_execution, is_final}
use abixio_ui.Sync.Execution.Progress.{InFlight}
use abixio_ui.Sync.Screen.Validation.{validate_sync_config, validate_sync_guardrails}
use abixio_ui.Sync.Screen.Running.{
  dispatch_sync_execution, start_sync_execution, handle_start_sync, handle_confirm_sync_delete_run,
  config_of, build_delete_confirm_state, expected_text, delete_confirm_reason,
}
use abixio_ui.Sync.Screen.Guards.{
  dispatch_sync_execution-InFlight, delete_confirm_reason-eq-none, handle_start_sync-deletes,
  handle_confirm_sync_delete_run-confirmed,
}
use abixio_ui.Sync.Execution.Messages.{fresh_execution, first_phase}
use abixio_ui.Sync.Screen.Stale.{Dropped, SameInputs, settings-Dropped}
use abixio_ui.Sync.Screen.Settings.{
  EndpointSetting, change_endpoint, TuningSetting, change_tuning, PolicySetting, change_policy,
}
use abixio_ui.Sync.Screen.Limits.{
  Asks, handle_start_sync-Asks, prepare_sync_run_plan-validate_sync_config,
}
use abixio_ui.Sync.RunPlan.{prepare_sync_run_plan}
use abixio_ui.Common.Result.{ok}
use abixio_ui.Sync.Tests.Data.{settings, two_and_one, source_objects, converge_policy}

-- The plan of a run without deletes.
abbrev copies_only : SyncRunPlan
copies_only = record two_and_one { deletes = []; total_delete_bytes = 0 }

abbrev planned_screen : SyncRunPlan → SyncState
planned_screen r = record settings {
  plan =
      some
        (build_sync_plan source_objects [] SyncMode.sync converge_policy SyncCompareMode.size_only);
  run_plan = some r;
}

abbrev copies_screen : SyncState
copies_screen = planned_screen copies_only

abbrev started_run : SyncState → SyncRunPlan → SyncExecutionState
started_run s r =
    (dispatch_execution (config_of s) (
      fresh_execution (first_phase s.policy.delete_phase r)
        (add64 r.total_transfer_bytes r.total_delete_bytes) r)).0

copies_idle : (r : SyncRunPlan) → (planned_screen r).execution ≡ none
unfolding new
copies_idle r = refl

copies_run :
    (handle_start_sync copies_screen).0.execution ≡ some (started_run copies_screen copies_only)
unfolding handle_start_sync new build_sync_plan policy compare_text text_eq nat_eq
    dispatch_sync_execution start_sync_execution text validate_sync_guardrails config_of
copies_run = refl

handle_start_sync-deletes_example : (started_run copies_screen copies_only).run_plan.deletes ≡ []
handle_start_sync-deletes_example =
    handle_start_sync-deletes copies_screen (copies_idle copies_only) copies_run

-- The screen of a sync that waits for its confirmation.
abbrev asked : SyncDeleteConfirmState
asked = record {
  planned_deletes = 1;
  planned_delete_bytes = 7;
  typed_required = true;
  threshold_reason = some (text "Deletes are more than 25% of the scanned destination.");
  confirm_text = text " delete 1 ";
}

abbrev asking_screen : SyncState
asking_screen = record (planned_screen two_and_one) { delete_confirm = some asked }

confirmed_run :
    (handle_confirm_sync_delete_run asking_screen).0.execution
    ≡ some (started_run asking_screen two_and_one)
unfolding handle_confirm_sync_delete_run new policy text_eq nat_eq dispatch_sync_execution
    start_sync_execution text trim display config_of
confirmed_run = refl

handle_confirm_sync_delete_run-confirmed_example :
    (c : SyncDeleteConfirmState) × (asking_screen.delete_confirm ≡ some c)
    × (asking_screen.run_plan ≡ some (started_run asking_screen two_and_one).run_plan)
    × (c.typed_required ≡ true → trim c.confirm_text ≡ expected_text c)
handle_confirm_sync_delete_run-confirmed_example =
    handle_confirm_sync_delete_run-confirmed asking_screen (copies_idle two_and_one) confirmed_run

-- The same run when the dispatcher is called once more.
abbrev running_screen : SyncState
running_screen = record copies_screen { execution = some (started_run copies_screen copies_only) }

dispatched_again :
    (dispatch_sync_execution running_screen).0.execution
    ≡ some (dispatch_execution (config_of running_screen) (started_run copies_screen copies_only)).0
unfolding dispatch_sync_execution
dispatched_again = refl

dispatch_sync_execution-InFlight_example :
    let e =
      (dispatch_execution (config_of running_screen) (started_run copies_screen copies_only)).0 in
    InFlight e ⊎ (is_final e.phase ≡ true)
dispatch_sync_execution-InFlight_example =
    dispatch_sync_execution-InFlight running_screen dispatched_again

abbrev deletes : ℕ
deletes = 5

abbrev scanned : ℕ
scanned = 20

abbrev source_scanned : ℕ
source_scanned = 30

delete_confirm_reason-eq-none_example :
    (delete_confirm_reason deletes 100 scanned source_scanned ≡ none) ↔ (
      (deletes ≤ 1000)
      × (100 ≤ 10737418240)
      × ((scanned ≡ 0) ⊎ (deletes * 4 ≤ scanned))
      × ((source_scanned ≡ 0) → deletes ≡ 0))
delete_confirm_reason-eq-none_example =
    delete_confirm_reason-eq-none deletes 100 scanned source_scanned (omega arith)

settings_valid : validate_sync_config settings ≡ ok tt
unfolding validate_sync_config new text text_eq nat_eq trim parse_below
settings_valid = refl

source_remote : settings.source_kind ≡ SyncEndpointKind.s3
unfolding new
source_remote = refl

prepare_sync_run_plan-validate_sync_config_example :
    (r : SyncRunPlan) × (prepare_sync_run_plan settings
        (build_sync_plan source_objects [] SyncMode.sync converge_policy SyncCompareMode.size_only)
      ≡ ok r)
prepare_sync_run_plan-validate_sync_config_example =
    prepare_sync_run_plan-validate_sync_config settings
      (build_sync_plan source_objects [] SyncMode.sync converge_policy SyncCompareMode.size_only)
      settings_valid (inl source_remote)

-- A screen whose limit is five deletes, with one delete planned.
abbrev limited_screen : SyncState
limited_screen = record (planned_screen two_and_one) {
  delete_guardrails = record settings.delete_guardrails { max_delete_count_text = text "5" };
}

nothing_open : limited_screen.delete_confirm ≡ none
unfolding new
nothing_open = refl

confirmation_opened :
    (handle_start_sync limited_screen).0.delete_confirm
    ≡ some (build_delete_confirm_state limited_screen two_and_one)
unfolding handle_start_sync new build_sync_plan policy compare_text text_eq nat_eq text
    validate_sync_guardrails trim parse_below build_delete_confirm_state
confirmation_opened = refl

handle_start_sync-Asks_example :
    Asks limited_screen (build_delete_confirm_state limited_screen two_and_one)
handle_start_sync-Asks_example =
    handle_start_sync-Asks limited_screen nothing_open confirmation_opened

settings-Dropped_example :
    ((e : EndpointSetting)
      → Dropped (change_endpoint e limited_screen)
        ⊎ SameInputs limited_screen (change_endpoint e limited_screen))
    × ((t : TuningSetting)
        → Dropped (change_tuning t limited_screen)
          ⊎ SameInputs limited_screen (change_tuning t limited_screen))
    × ((p : PolicySetting)
        → Dropped (change_policy p limited_screen)
          ⊎ SameInputs limited_screen (change_policy p limited_screen))
settings-Dropped_example = settings-Dropped limited_screen
