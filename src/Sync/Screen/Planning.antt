-- ===== src/Sync/Screen/Planning.antt =====
-- From the settings to a plan: the handlers of src/app/handlers/sync.rs between `StartSyncPlan` and
-- `SyncPlanBuilt`. Each returns the screen's new state and the tasks that it starts. Whether a client
-- can be made for a connection is a parameter (`make_client_for_connection` asks the settings and
-- the keychain).
use Prim.Native.Nat.{min}
use abixio_ui.Common.{
  ℕ, ◌+◌, ◌-◌, ◌^◌, Bool, true, false, Option, none, some, List, [], ◌∷◌, ◌++◌, if◌then◌else◌, ltb,
  length,
}
use abixio_ui.Common.Text.{Text, text}
use abixio_ui.Common.Number.{display}
use abixio_ui.Common.Result.{Result, ok, err, ◌>>=◌}
use abixio_ui.Sync.Types.{
  SyncMode, SyncPolicy, SyncCompareMode, SyncEndpointKind, SyncObject, SyncPlan,
}
use abixio_ui.Sync.State.{SyncFilterSet, SyncRunPlan, SyncState}
use abixio_ui.Sync.RunPlan.{prepare_sync_run_plan}
use abixio_ui.Sync.Screen.Validation.{validate_sync_config, parse_planner_limit}

-- What a handler starts with `Task::perform`: the listing of a side, or the building of a plan.
pub data SyncTask : Type 0 where
  enumerate_local : (source : Bool) (path : Text) (filters : SyncFilterSet) → SyncTask
  enumerate_s3 :
      (source : Bool) (connection_id bucket prefix : Text) (filters : SyncFilterSet) → SyncTask
  build_plan :
      (source destination : List SyncObject)
      → (mode : SyncMode) (policy : SyncPolicy) (compare_mode : SyncCompareMode) → SyncTask

abbrev pub Outcome : Type 0
Outcome = SyncState × List SyncTask

abbrev with_stage : Text → SyncState → SyncState
with_stage stage s = record s { telemetry = record s.telemetry { stage = stage } }

-- `sync.running = false; sync.error = Some(error); sync.telemetry.stage = "Idle"`
unfoldable pub give_up : Text → SyncState → SyncState
give_up error s = with_stage (text "Idle") (record s { running = false; error = some error })

abbrev or_default : Option (List SyncObject) → List SyncObject
or_default none = []
or_default (some objects) = objects

-- `usize::saturating_add`
abbrev pub saturating_add : ℕ → ℕ → ℕ
saturating_add a b = min (a + b) (2 ^ 64 - 1)

module _ (make_client_for_connection : Text → Result (Unit {0})) where
  abbrev enumerate_at :
      SyncEndpointKind → Bool → Option Text → Text → Text → Text → SyncFilterSet → Result SyncTask
  enumerate_at SyncEndpointKind.local source none id bucket prefix filters =
      err (text "Local path is required.")
  enumerate_at SyncEndpointKind.local source (some path) id bucket prefix filters =
      ok (enumerate_local source path filters)
  enumerate_at SyncEndpointKind.s3 source path id bucket prefix filters = do
    _ ← make_client_for_connection id
    ok (enumerate_s3 source id bucket prefix filters)

  -- `enumerate_task(self, sync_endpoint_params(sync, source), source)`
  unfoldable pub enumerate_task : SyncState → Bool → Result SyncTask
  enumerate_task s source =
      enumerate_at (if source then s.source_kind else s.destination_kind) source
        (if source then s.source_local_path else s.destination_local_path)
        (if source then s.source_connection_id else s.destination_connection_id)
        (if source then s.source_bucket else s.destination_bucket)
        (if source then s.source_prefix else s.destination_prefix) s.filters

  abbrev started : SyncState → Result SyncTask → Outcome
  started s (ok task) = (s, task ∷ [])
  started s (err error) = (give_up error s, [])

  abbrev if_valid : SyncState → Result (Unit {0}) → Outcome
  if_valid s (err error) = (give_up error s, [])
  if_valid s (ok _) = started s (enumerate_task s true)

  -- The reset at the head of `handle_start_sync_plan`.
  unfoldable pub begin_planning : SyncState → SyncState
  begin_planning s = record s {
    error = none;
    plan = none;
    run_plan = none;
    delete_confirm = none;
    source_snapshot = none;
    destination_snapshot = none;
    execution = none;
    running = true;
    telemetry = record s.telemetry {
      stage = text "Enumerating source";
      source_scanned = 0;
      destination_scanned = 0;
      compared = 0;
      filtered = 0;
    };
  }

  unfoldable pub handle_start_sync_plan : SyncState → Outcome
  unfolding begin_planning enumerate_task give_up
  handle_start_sync_plan s = if_valid (begin_planning s) (validate_sync_config (begin_planning s))

  unfoldable pub handle_sync_source_enumerated : Result (List SyncObject) → SyncState → Outcome
  unfolding enumerate_task give_up
  handle_sync_source_enumerated (ok objects) s =
      let s' = record s {
        source_snapshot = some objects;
        telemetry = record s.telemetry {
          source_scanned = length objects;
          stage = text "Enumerating destination";
        };
      } in
      started s' (enumerate_task s' false)
  handle_sync_source_enumerated (err error) s = (give_up error s, [])

-- The `planner_limit` guard and the task that builds the plan.
unfoldable pub plan_within : Result ℕ → List SyncObject → List SyncObject → SyncState → Outcome
unfolding give_up
plan_within (err error) source destination s = (give_up error s, [])
plan_within (ok planner_limit) source destination s =
    let entries = saturating_add (length source) (length destination) in
    if ltb planner_limit entries
    then (
      give_up
          (text "Planner limit exceeded: "
            ++ display entries
            ++ text " source + destination entries is above "
            ++ display planner_limit
            ++ text " items.")
          s,
      [],
    )
    else (s, build_plan source destination s.mode s.policy s.tuning.compare_mode ∷ [])

unfoldable pub handle_sync_destination_enumerated : Result (List SyncObject) → SyncState → Outcome
unfolding plan_within give_up
handle_sync_destination_enumerated (ok objects) s =
    plan_within (parse_planner_limit s.tuning.max_planner_items_text) (or_default s.source_snapshot)
      objects
      (record s {
        destination_snapshot = some objects;
        telemetry = record s.telemetry {
          destination_scanned = length objects;
          stage = text "Comparing";
        };
      })
handle_sync_destination_enumerated (err error) s = (give_up error s, [])

abbrev with_run_plan : Result SyncRunPlan → SyncState → SyncState
with_run_plan (ok run_plan) s = record s { run_plan = some run_plan }
with_run_plan (err error) s = record s { error = some error; run_plan = none }

-- The `match sync.mode` of `handle_sync_plan_built`.
unfoldable pub set_run_plan : SyncMode → SyncPlan → SyncState → SyncState
set_run_plan SyncMode.diff plan s = record s { run_plan = none }
set_run_plan SyncMode.copy plan s = with_run_plan (prepare_sync_run_plan s plan) s
set_run_plan SyncMode.sync plan s = with_run_plan (prepare_sync_run_plan s plan) s

unfoldable pub handle_sync_plan_built : Result SyncPlan → SyncState → SyncState
unfolding set_run_plan
handle_sync_plan_built (ok plan) s =
    let s' = record s {
      running = false;
      telemetry = record s.telemetry { stage = text "Idle"; compared = length plan.items };
    } in
    record (set_run_plan s'.mode plan s') { plan = some plan }
handle_sync_plan_built (err error) s =
    with_stage (text "Idle") (record s { running = false; error = some error })
