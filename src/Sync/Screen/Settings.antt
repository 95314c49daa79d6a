-- ===== src/Sync/Screen/Settings.antt =====
-- The handlers that change a setting of the sync screen (src/app/handlers/sync.rs). Where no sync
-- screen is open they do nothing.
use abixio_ui.Common.{Bool, true, false, not, Option, none, some, List, []}
use abixio_ui.Common.Text.{Text}
use abixio_ui.Common.Result.{Result}
use abixio_ui.Sync.Types.{
  SyncMode, SyncPreset, SyncEndpointKind, SyncCompareMode, SyncDestinationNewerPolicy,
  SyncDeletePhase, SyncPolicy, policy,
}
use abixio_ui.Sync.State.{BucketInfo, SyncListMode, SyncState}

-- `clear_sync_plan`
unfoldable pub clear_sync_plan : SyncState → SyncState
clear_sync_plan s = record s {
  plan = none;
  run_plan = none;
  execution = none;
  delete_confirm = none;
  error = none;
  source_snapshot = none;
  destination_snapshot = none;
}

-- The messages of the endpoint pickers: `handle_sync_…_changed`, `…_picked` and `…_loaded`.
pub data EndpointSetting : Type 0 where
  mode_changed : SyncMode → EndpointSetting
  preset_changed : SyncPreset → EndpointSetting
  source_kind_changed : SyncEndpointKind → EndpointSetting
  destination_kind_changed : SyncEndpointKind → EndpointSetting
  source_connection_changed : Text → EndpointSetting
  destination_connection_changed : Text → EndpointSetting
  source_bucket_changed : Text → EndpointSetting
  destination_bucket_changed : Text → EndpointSetting
  source_prefix_changed : Text → EndpointSetting
  destination_prefix_changed : Text → EndpointSetting
  source_local_path_picked : Option Text → EndpointSetting
  destination_local_path_picked : Option Text → EndpointSetting
  source_buckets_loaded : Result (List BucketInfo) → EndpointSetting
  destination_buckets_loaded : Result (List BucketInfo) → EndpointSetting

abbrev preset_policy : SyncPreset → SyncPolicy → SyncPolicy
preset_policy SyncPreset.custom old = old
preset_policy SyncPreset.converge old = policy SyncPreset.converge
preset_policy SyncPreset.update_only old = policy SyncPreset.update_only
preset_policy SyncPreset.exact old = policy SyncPreset.exact

unfoldable pub change_endpoint : EndpointSetting → SyncState → SyncState
unfolding clear_sync_plan policy
change_endpoint (mode_changed mode) s = clear_sync_plan (record s { mode = mode })
change_endpoint (preset_changed preset) s =
    clear_sync_plan (record s { preset = preset; policy = preset_policy preset s.policy })
change_endpoint (source_kind_changed kind) s = clear_sync_plan (record s { source_kind = kind })
change_endpoint (destination_kind_changed kind) s =
    clear_sync_plan (record s { destination_kind = kind })
change_endpoint (source_connection_changed id) s = clear_sync_plan (record s {
  source_connection_id = id;
  source_bucket = [];
  source_buckets = none;
  loading_source_buckets = true;
})
change_endpoint (destination_connection_changed id) s = clear_sync_plan (record s {
  destination_connection_id = id;
  destination_bucket = [];
  destination_buckets = none;
  loading_destination_buckets = true;
})
change_endpoint (source_bucket_changed bucket) s =
    clear_sync_plan (record s { source_bucket = bucket })
change_endpoint (destination_bucket_changed bucket) s =
    clear_sync_plan (record s { destination_bucket = bucket })
change_endpoint (source_prefix_changed prefix) s =
    clear_sync_plan (record s { source_prefix = prefix })
change_endpoint (destination_prefix_changed prefix) s =
    clear_sync_plan (record s { destination_prefix = prefix })
change_endpoint (source_local_path_picked path) s =
    clear_sync_plan (record s { source_local_path = path })
change_endpoint (destination_local_path_picked path) s =
    clear_sync_plan (record s { destination_local_path = path })
change_endpoint (source_buckets_loaded result) s = record s {
  loading_source_buckets = false;
  source_buckets = some result;
}
change_endpoint (destination_buckets_loaded result) s = record s {
  loading_destination_buckets = false;
  destination_buckets = some result;
}

-- The messages of the tuning fields.
pub data TuningSetting : Type 0 where
  compare_mode_changed : SyncCompareMode → TuningSetting
  list_mode_changed : SyncListMode → TuningSetting
  list_workers_changed : Text → TuningSetting
  compare_workers_changed : Text → TuningSetting
  transfer_workers_changed : Text → TuningSetting
  fast_list_toggled : Bool → TuningSetting
  prefer_server_modtime_toggled : Bool → TuningSetting
  max_planner_items_changed : Text → TuningSetting
  bwlimit_changed : Text → TuningSetting
  multipart_cutoff_changed : Text → TuningSetting
  multipart_chunk_size_changed : Text → TuningSetting
  advanced_toggled : TuningSetting

-- Those of the transfer workers, the bandwidth limit and the multipart sizes keep the plan.
unfoldable pub change_tuning : TuningSetting → SyncState → SyncState
unfolding clear_sync_plan
change_tuning (compare_mode_changed mode) s =
    clear_sync_plan (record s { tuning = record s.tuning { compare_mode = mode } })
change_tuning (list_mode_changed mode) s =
    clear_sync_plan (record s { tuning = record s.tuning { list_mode = mode } })
change_tuning (list_workers_changed value) s =
    clear_sync_plan (record s { tuning = record s.tuning { list_workers_text = value } })
change_tuning (compare_workers_changed value) s =
    clear_sync_plan (record s { tuning = record s.tuning { compare_workers_text = value } })
change_tuning (transfer_workers_changed value) s = record s {
  tuning = record s.tuning { transfer_workers_text = value };
}
change_tuning (fast_list_toggled enabled) s =
    clear_sync_plan (record s { tuning = record s.tuning { fast_list_enabled = enabled } })
change_tuning (prefer_server_modtime_toggled enabled) s =
    clear_sync_plan (record s { tuning = record s.tuning { prefer_server_modtime = enabled } })
change_tuning (max_planner_items_changed value) s =
    clear_sync_plan (record s { tuning = record s.tuning { max_planner_items_text = value } })
change_tuning (bwlimit_changed value) s = record s {
  tuning = record s.tuning { bwlimit_text = value };
}
change_tuning (multipart_cutoff_changed value) s = record s {
  tuning = record s.tuning { multipart_cutoff_text = value };
}
change_tuning (multipart_chunk_size_changed value) s = record s {
  tuning = record s.tuning { multipart_chunk_size_text = value };
}
change_tuning advanced_toggled s = record s { show_advanced = not s.show_advanced }

-- The messages of the policy, the delete guardrails and the filters.
pub data PolicySetting : Type 0 where
  overwrite_changed : Bool → PolicySetting
  delete_extras_changed : Bool → PolicySetting
  destination_newer_policy_changed : SyncDestinationNewerPolicy → PolicySetting
  delete_phase_changed : SyncDeletePhase → PolicySetting
  ignore_errors_changed : Bool → PolicySetting
  delete_workers_changed : Text → PolicySetting
  max_delete_count_changed : Text → PolicySetting
  max_delete_bytes_changed : Text → PolicySetting
  include_patterns_changed : Text → PolicySetting
  exclude_patterns_changed : Text → PolicySetting
  newer_than_changed : Text → PolicySetting
  older_than_changed : Text → PolicySetting
  min_size_changed : Text → PolicySetting
  max_size_changed : Text → PolicySetting

abbrev with_policy : SyncPolicy → SyncState → SyncState
with_policy p s = record s { policy = p; preset = SyncPreset.custom }

unfoldable pub change_policy : PolicySetting → SyncState → SyncState
unfolding clear_sync_plan
change_policy (overwrite_changed enabled) s =
    clear_sync_plan (with_policy (record s.policy { overwrite_changed = enabled }) s)
change_policy (delete_extras_changed enabled) s =
    clear_sync_plan (with_policy (record s.policy { delete_extras = enabled }) s)
change_policy (destination_newer_policy_changed p) s =
    clear_sync_plan (with_policy (record s.policy { destination_newer_policy = p }) s)
change_policy (delete_phase_changed phase) s =
    clear_sync_plan (with_policy (record s.policy { delete_phase = phase }) s)
change_policy (ignore_errors_changed enabled) s =
    clear_sync_plan
      (record s { delete_guardrails = record s.delete_guardrails { ignore_errors = enabled } })
change_policy (delete_workers_changed value) s =
    clear_sync_plan
      (record s { delete_guardrails = record s.delete_guardrails { delete_workers_text = value } })
change_policy (max_delete_count_changed value) s =
    clear_sync_plan (record s {
      delete_guardrails = record s.delete_guardrails { max_delete_count_text = value };
    })
change_policy (max_delete_bytes_changed value) s =
    clear_sync_plan (record s {
      delete_guardrails = record s.delete_guardrails { max_delete_bytes_text = value };
    })
change_policy (include_patterns_changed value) s =
    clear_sync_plan (record s { filters = record s.filters { include_patterns_text = value } })
change_policy (exclude_patterns_changed value) s =
    clear_sync_plan (record s { filters = record s.filters { exclude_patterns_text = value } })
change_policy (newer_than_changed value) s =
    clear_sync_plan (record s { filters = record s.filters { newer_than_text = value } })
change_policy (older_than_changed value) s =
    clear_sync_plan (record s { filters = record s.filters { older_than_text = value } })
change_policy (min_size_changed value) s =
    clear_sync_plan (record s { filters = record s.filters { min_size_text = value } })
change_policy (max_size_changed value) s =
    clear_sync_plan (record s { filters = record s.filters { max_size_text = value } })
