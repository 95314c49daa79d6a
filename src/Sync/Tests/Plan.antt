-- ===== src/Sync/Tests/Plan.antt =====
-- Tests of the planner and of run plans, after the tests of src/app/sync_ops.rs.
use abixio_ui.Common.{
  ◌+◌, true, false, Option, none, some, List, [], ◌∷◌, ◌≡◌, ◌≢◌, ◌⊎◌, refl, length, All, ◌↔◌,
  nat_eq,
}
use abixio_ui.Common.Text.{Text, text, text_eq, compare_text}
use abixio_ui.Common.Result.{ok}
use abixio_ui.Sync.Types.{
  SyncMode, SyncDeletePhase, SyncObject, SyncPlanAction, SyncPlanItem, SyncPlanReason, SyncPlan,
  SyncDestinationNewerPolicy, SyncEndpointKind, SyncPolicy, policy,
}
use abixio_ui.Sync.Types.SyncPlanAction.{create, update, delete, conflict}
use abixio_ui.Sync.Types.SyncCompareMode.{size_only}
use abixio_ui.Sync.Compare.{compare_copy_objects, compare_sync_objects}
use abixio_ui.Sync.Plan.{add64, decide_path, build_sync_plan}
use abixio_ui.Sync.Plan.Paths.{IsAscending}
use abixio_ui.Sync.Plan.Items.{object_at, items_at, listed, planned}
use abixio_ui.Sync.Plan.Lookup.{paths_of, items_at-build_sync_plan, build_sync_plan-IsAscending}
use abixio_ui.Sync.Plan.Summary.{Counts, build_sync_plan-Counts}
use abixio_ui.Sync.Plan.Decisions.{
  action_of, decide_path-eq-delete, decide_path-copy, decide_path-conflict, Converges,
  compare_copy_objects-eq-compare_sync_objects,
}
use abixio_ui.Sync.Plan.Convergence.{Agree, IsSkip, build_sync_plan-Agree}
use abixio_ui.Sync.State.{new}
use abixio_ui.Sync.RunPlan.{join_s3_key, build_transfer_endpoint, prepare_sync_run_plan}
use abixio_ui.Sync.RunPlan.Totals.{prepare_sync_run_plan-summary}
use abixio_ui.Sync.RunPlan.Deletes.{IsExtra, IsDelete, prepare_sync_run_plan-deletes}
use abixio_ui.Sync.RunPlan.Endpoints.{kind_of, build_transfer_endpoint-injective}
use abixio_ui.Sync.Tests.Data.{
  path_a, path_b, path_c, object, two_and_one, endpoint, source_objects, destination_objects,
  converge_policy, settings,
}

abbrev small_plan : SyncPlan
small_plan =
    build_sync_plan source_objects destination_objects SyncMode.sync converge_policy size_only

bytes_test : small_plan.summary.bytes_to_delete ≡ 7
unfolding build_sync_plan policy compare_text text_eq nat_eq
bytes_test = refl

join_s3_key_test : join_s3_key (text "photos") (text "a.jpg") ≡ text "photos/a.jpg"
unfolding join_s3_key text nat_eq
join_s3_key_test = refl

small_plan_prepared : prepare_sync_run_plan settings small_plan ≡ ok two_and_one
unfolding prepare_sync_run_plan build_sync_plan policy compare_text text_eq nat_eq new
small_plan_prepared = refl

prepare_sync_run_plan-deletes_example :
    All
      (IsDelete settings (IsExtra SyncMode.sync converge_policy source_objects destination_objects))
      two_and_one.deletes
prepare_sync_run_plan-deletes_example =
    prepare_sync_run_plan-deletes settings SyncMode.sync converge_policy size_only source_objects
      destination_objects small_plan_prepared

prepare_sync_run_plan-summary_example :
    (length two_and_one.transfers ≡ small_plan.summary.creates + small_plan.summary.updates)
    × (length two_and_one.deletes ≡ small_plan.summary.deletes)
    × (two_and_one.total_transfer_bytes
        ≡ add64 small_plan.summary.bytes_to_create small_plan.summary.bytes_to_update)
    × (two_and_one.total_delete_bytes ≡ small_plan.summary.bytes_to_delete)
prepare_sync_run_plan-summary_example =
    prepare_sync_run_plan-summary settings SyncMode.sync converge_policy size_only source_objects
      destination_objects small_plan_prepared

endpoint_of_b : build_transfer_endpoint settings false path_b ≡ ok (endpoint path_b)
unfolding build_transfer_endpoint new
endpoint_of_b = refl

destination_remote : kind_of settings false ≡ SyncEndpointKind.s3
unfolding new
destination_remote = refl

build_transfer_endpoint-injective_example : path_b ≡ path_b
build_transfer_endpoint-injective_example =
    build_transfer_endpoint-injective settings false path_b path_b (endpoint path_b)
      destination_remote endpoint_of_b endpoint_of_b

items_at-build_sync_plan_example :
    items_at path_c small_plan.items
    ≡ listed (
        planned SyncMode.sync converge_policy size_only path_c
          (object_at path_c source_objects)
          (object_at path_c destination_objects))
items_at-build_sync_plan_example =
    items_at-build_sync_plan SyncMode.sync converge_policy size_only path_c source_objects
      destination_objects

build_sync_plan-IsAscending_example : IsAscending (paths_of small_plan.items)
build_sync_plan-IsAscending_example =
    build_sync_plan-IsAscending SyncMode.sync converge_policy size_only source_objects
      destination_objects

build_sync_plan-Counts_example : Counts small_plan.items small_plan.summary
build_sync_plan-Counts_example =
    build_sync_plan-Counts SyncMode.sync converge_policy size_only source_objects
      destination_objects

converge_policy-Converges : Converges converge_policy
unfolding policy
converge_policy-Converges = record { overwrites = refl; deletes = refl; source_wins = refl }

abbrev small_item :
    SyncPlanAction → SyncPlanReason → Text → Option SyncObject → Option SyncObject → SyncPlanItem
small_item action reason path s d = record {
  action = action;
  reason = reason;
  relative_path = path;
  source = s;
  destination = d;
}

abbrev small_items : List SyncPlanItem
small_items =
    small_item update SyncPlanReason.size_mismatch path_a (some (object path_a 3))
      (some (object path_a 4))
    ∷ small_item create SyncPlanReason.missing_on_destination path_b (some (object path_b 5)) none
    ∷ small_item delete SyncPlanReason.missing_on_source path_c none (some (object path_c 7))
    ∷ []

items_test : small_plan.items ≡ small_items
unfolding build_sync_plan policy compare_text text_eq nat_eq
items_test = refl

build_sync_plan-Agree_example :
    All IsSkip small_plan.items
    ↔ ((q : Text) → Agree size_only (object_at q source_objects) (object_at q destination_objects))
build_sync_plan-Agree_example =
    build_sync_plan-Agree converge_policy size_only source_objects destination_objects
      converge_policy-Converges

abbrev missing : Option SyncObject
missing = none

abbrev extra : Option SyncObject
extra = some (object path_c 7)

decide_path-eq-delete_example :
    (action_of (decide_path SyncMode.sync converge_policy size_only missing extra) ≡ some delete)
    ↔ ((missing ≡ none)
        × (extra ≢ none)
        × (SyncMode.sync ≢ SyncMode.copy)
        × (converge_policy.delete_extras ≡ true))
decide_path-eq-delete_example =
    decide_path-eq-delete SyncMode.sync converge_policy size_only missing extra

decide_path-copy_example :
    (action_of (decide_path SyncMode.copy converge_policy size_only missing extra) ≢ some delete)
    × (action_of (decide_path SyncMode.copy converge_policy size_only missing extra)
        ≢ some conflict)
decide_path-copy_example = decide_path-copy converge_policy size_only missing extra

abbrev keeping : SyncPolicy
keeping = record converge_policy { overwrite_changed = false }

conflict_found :
    action_of (
      decide_path SyncMode.sync keeping size_only (some (object path_a 3)) (some (object path_a 4)))
    ≡ some conflict
unfolding decide_path policy nat_eq
conflict_found = refl

decide_path-conflict_example :
    (keeping.overwrite_changed ≡ false)
    ⊎ (keeping.destination_newer_policy ≡ SyncDestinationNewerPolicy.conflict)
decide_path-conflict_example =
    decide_path-conflict SyncMode.sync keeping size_only (some (object path_a 3))
      (some (object path_a 4)) conflict_found

abbrev skipping : SyncPolicy
skipping = record {
  overwrite_changed = true;
  delete_extras = true;
  destination_newer_policy = SyncDestinationNewerPolicy.skip;
  delete_phase = SyncDeletePhase.after;
}

compare_copy_objects-eq-compare_sync_objects_example :
    compare_copy_objects (object path_a 3) (object path_a 4) size_only
    ≡ compare_sync_objects (object path_a 3) (object path_a 4) size_only skipping
compare_copy_objects-eq-compare_sync_objects_example =
    compare_copy_objects-eq-compare_sync_objects (object path_a 3) (object path_a 4) size_only
      skipping refl refl
