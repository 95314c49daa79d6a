-- ===== src/Sync/Screen/Stale.antt =====
-- What a changed setting does to the plan on the screen (the handlers of
-- src/app/handlers/sync.rs that change a setting).
use abixio_ui.Common.{Bool, Option, none, List, ◌≡◌, ◌⊎◌, inl, inr, refl}
use abixio_ui.Common.Text.{Text}
use abixio_ui.Sync.Types.{
  SyncMode, SyncPolicy, SyncCompareMode, SyncEndpointKind, SyncObject, SyncPlan,
}
use abixio_ui.Sync.State.{
  SyncListMode, SyncFilterSet, SyncDeleteGuardrails, SyncRunPlan, SyncExecutionState,
  SyncDeleteConfirmState, SyncState,
}
use abixio_ui.Sync.Screen.Settings.{
  clear_sync_plan, EndpointSetting, change_endpoint, TuningSetting, change_tuning, PolicySetting,
  change_policy,
}
use abixio_ui.Sync.Screen.Settings.EndpointSetting.{
  mode_changed, preset_changed, source_kind_changed, destination_kind_changed,
  source_connection_changed, destination_connection_changed, source_bucket_changed,
  destination_bucket_changed, source_prefix_changed, destination_prefix_changed,
  source_local_path_picked, destination_local_path_picked, source_buckets_loaded,
  destination_buckets_loaded,
}
use abixio_ui.Sync.Screen.Settings.TuningSetting.{
  compare_mode_changed, list_mode_changed, list_workers_changed, compare_workers_changed,
  transfer_workers_changed, fast_list_toggled, prefer_server_modtime_toggled,
  max_planner_items_changed, bwlimit_changed, multipart_cutoff_changed,
  multipart_chunk_size_changed, advanced_toggled,
}
use abixio_ui.Sync.Screen.Settings.PolicySetting.{
  overwrite_changed, delete_extras_changed, destination_newer_policy_changed, delete_phase_changed,
  ignore_errors_changed, delete_workers_changed, max_delete_count_changed, max_delete_bytes_changed,
  include_patterns_changed, exclude_patterns_changed, newer_than_changed, older_than_changed,
  min_size_changed, max_size_changed,
}

-- The settings that a plan, its run plan, the confirmation of its deletes and its run are made
-- from: all but the number of transfer workers, the bandwidth limit and the multipart sizes, which
-- may change between a plan and its run.
pub record Inputs : Type 0 where
  pub mode : SyncMode
  pub policy : SyncPolicy
  pub compare_mode : SyncCompareMode
  pub listing : SyncListMode × Bool × Bool
  pub listing_workers : Text × Text
  pub max_planner_items : Text
  pub filters : SyncFilterSet
  pub delete_guardrails : SyncDeleteGuardrails
  pub kinds : SyncEndpointKind × SyncEndpointKind
  pub connections : Text × Text
  pub buckets : Text × Text
  pub prefixes : Text × Text
  pub local_paths : Option Text × Option Text

abbrev pub inputs : SyncState → Inputs
inputs s = record {
  mode = s.mode;
  policy = s.policy;
  compare_mode = s.tuning.compare_mode;
  listing = (s.tuning.list_mode, s.tuning.fast_list_enabled, s.tuning.prefer_server_modtime);
  listing_workers = (s.tuning.list_workers_text, s.tuning.compare_workers_text);
  max_planner_items = s.tuning.max_planner_items_text;
  filters = s.filters;
  delete_guardrails = s.delete_guardrails;
  kinds = (s.source_kind, s.destination_kind);
  connections = (s.source_connection_id, s.destination_connection_id);
  buckets = (s.source_bucket, s.destination_bucket);
  prefixes = (s.source_prefix, s.destination_prefix);
  local_paths = (s.source_local_path, s.destination_local_path);
}

abbrev pub SameInputs : SyncState → SyncState → Type 0
SameInputs s s' = inputs s' ≡ inputs s

-- What was made of them.
pub record Made : Type 0 where
  pub plan : Option SyncPlan
  pub run_plan : Option SyncRunPlan
  pub delete_confirm : Option SyncDeleteConfirmState
  pub execution : Option SyncExecutionState
  pub source_snapshot : Option (List SyncObject)
  pub destination_snapshot : Option (List SyncObject)

abbrev pub made : SyncState → Made
made s = record {
  plan = s.plan;
  run_plan = s.run_plan;
  delete_confirm = s.delete_confirm;
  execution = s.execution;
  source_snapshot = s.source_snapshot;
  destination_snapshot = s.destination_snapshot;
}

abbrev nothing : Made
nothing = record {
  plan = none;
  run_plan = none;
  delete_confirm = none;
  execution = none;
  source_snapshot = none;
  destination_snapshot = none;
}

-- Nothing of a plan is left.
abbrev pub Dropped : SyncState → Type 0
Dropped s = made s ≡ nothing

change_endpoint-Dropped :
    (setting : EndpointSetting) (s : SyncState)
    → Dropped (change_endpoint setting s) ⊎ SameInputs s (change_endpoint setting s)
unfolding change_endpoint clear_sync_plan
change_endpoint-Dropped (mode_changed _) s = inl refl
change_endpoint-Dropped (preset_changed _) s = inl refl
change_endpoint-Dropped (source_kind_changed _) s = inl refl
change_endpoint-Dropped (destination_kind_changed _) s = inl refl
change_endpoint-Dropped (source_connection_changed _) s = inl refl
change_endpoint-Dropped (destination_connection_changed _) s = inl refl
change_endpoint-Dropped (source_bucket_changed _) s = inl refl
change_endpoint-Dropped (destination_bucket_changed _) s = inl refl
change_endpoint-Dropped (source_prefix_changed _) s = inl refl
change_endpoint-Dropped (destination_prefix_changed _) s = inl refl
change_endpoint-Dropped (source_local_path_picked _) s = inl refl
change_endpoint-Dropped (destination_local_path_picked _) s = inl refl
change_endpoint-Dropped (source_buckets_loaded _) s = inr refl
change_endpoint-Dropped (destination_buckets_loaded _) s = inr refl

change_tuning-Dropped :
    (setting : TuningSetting) (s : SyncState)
    → Dropped (change_tuning setting s) ⊎ SameInputs s (change_tuning setting s)
unfolding change_tuning clear_sync_plan
change_tuning-Dropped (compare_mode_changed _) s = inl refl
change_tuning-Dropped (list_mode_changed _) s = inl refl
change_tuning-Dropped (list_workers_changed _) s = inl refl
change_tuning-Dropped (compare_workers_changed _) s = inl refl
change_tuning-Dropped (transfer_workers_changed _) s = inr refl
change_tuning-Dropped (fast_list_toggled _) s = inl refl
change_tuning-Dropped (prefer_server_modtime_toggled _) s = inl refl
change_tuning-Dropped (max_planner_items_changed _) s = inl refl
change_tuning-Dropped (bwlimit_changed _) s = inr refl
change_tuning-Dropped (multipart_cutoff_changed _) s = inr refl
change_tuning-Dropped (multipart_chunk_size_changed _) s = inr refl
change_tuning-Dropped advanced_toggled s = inr refl

change_policy-Dropped :
    (setting : PolicySetting) (s : SyncState)
    → Dropped (change_policy setting s) ⊎ SameInputs s (change_policy setting s)
unfolding change_policy clear_sync_plan
change_policy-Dropped (overwrite_changed _) s = inl refl
change_policy-Dropped (delete_extras_changed _) s = inl refl
change_policy-Dropped (destination_newer_policy_changed _) s = inl refl
change_policy-Dropped (delete_phase_changed _) s = inl refl
change_policy-Dropped (ignore_errors_changed _) s = inl refl
change_policy-Dropped (delete_workers_changed _) s = inl refl
change_policy-Dropped (max_delete_count_changed _) s = inl refl
change_policy-Dropped (max_delete_bytes_changed _) s = inl refl
change_policy-Dropped (include_patterns_changed _) s = inl refl
change_policy-Dropped (exclude_patterns_changed _) s = inl refl
change_policy-Dropped (newer_than_changed _) s = inl refl
change_policy-Dropped (older_than_changed _) s = inl refl
change_policy-Dropped (min_size_changed _) s = inl refl
change_policy-Dropped (max_size_changed _) s = inl refl

-- Whatever setting of the sync screen is changed: either the plan, its run plan, the confirmation,
-- the run and both listings are dropped, or none of these settings has changed: the mode, the policy,
-- the way of comparing, the endpoints, the filters, the listing, the planner limit and the delete
-- guardrails.
pub settings-Dropped :
    (s : SyncState)
    → ((e : EndpointSetting) → Dropped (change_endpoint e s) ⊎ SameInputs s (change_endpoint e s))
      × ((t : TuningSetting) → Dropped (change_tuning t s) ⊎ SameInputs s (change_tuning t s))
      × ((p : PolicySetting) → Dropped (change_policy p s) ⊎ SameInputs s (change_policy p s))
settings-Dropped s = (
  λ e. change_endpoint-Dropped e s,
  λ t. change_tuning-Dropped t s,
  λ p. change_policy-Dropped p s,
)
