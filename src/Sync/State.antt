-- ===== src/Sync/State.antt =====
-- The sync screen's state (`SyncState` and its parts, src/app/types.rs). The display's clock fields
-- (`started_at`, `last_update_at`, `bytes_per_sec`, `started_at_instant`) are left out. A `PathBuf`
-- is its text.
use abixio_ui.Common.{ℕ, Bool, true, false, Option, none, List, []}
use abixio_ui.Common.Text.{Text, text}
use abixio_ui.Common.Result.{Result}
use abixio_ui.Sync.Types.{SyncMode, SyncPreset, SyncPolicy, SyncCompareMode, SyncEndpointKind}
use abixio_ui.Sync.Types.{SyncObject, SyncPlanAction, SyncPlan, policy}

-- `BucketInfo` of src/s3/client.rs
pub record BucketInfo : Type 0 where
  pub name : Text
  pub creation_date : Text

pub data SyncListMode : Type 0 where
  streaming fast_list top_up : SyncListMode

pub data TransferEndpoint : Type 0 where
  s3 : (connection_id bucket key : Text) → TransferEndpoint
  local : (path : Text) → TransferEndpoint

pub record SyncFilterSet : Type 0 where
  pub include_patterns_text : Text
  pub exclude_patterns_text : Text
  pub newer_than_text : Text
  pub older_than_text : Text
  pub min_size_text : Text
  pub max_size_text : Text

pub record SyncTuning : Type 0 where
  pub list_mode : SyncListMode
  pub compare_mode : SyncCompareMode
  pub list_workers_text : Text
  pub compare_workers_text : Text
  pub transfer_workers_text : Text
  pub fast_list_enabled : Bool
  pub prefer_server_modtime : Bool
  pub max_planner_items_text : Text
  pub bwlimit_text : Text
  pub multipart_cutoff_text : Text
  pub multipart_chunk_size_text : Text

pub data SyncExecutionStrategy : Type 0 where
  upload download server_side_copy client_relay delete_remote delete_local : SyncExecutionStrategy

pub record SyncRunItem : Type 0 where
  pub relative_path : Text
  pub action : SyncPlanAction
  pub source : TransferEndpoint
  pub destination : TransferEndpoint
  pub strategy : SyncExecutionStrategy
  pub bytes : ℕ

pub record SyncRunPlan : Type 0 where
  pub transfers : List SyncRunItem
  pub deletes : List SyncRunItem
  pub total_transfer_bytes : ℕ
  pub total_delete_bytes : ℕ
  pub has_client_relay : Bool

pub data SyncExecutionPhase : Type 0 where
  deleting_before copying deleting_during deleting_after done stopped : SyncExecutionPhase

pub record SyncExecutionState : Type 0 where
  pub phase : SyncExecutionPhase
  pub run_plan : SyncRunPlan
  pub next_transfer_index : ℕ
  pub next_delete_index : ℕ
  pub active_transfers : ℕ
  pub active_delete_batches : ℕ
  pub completed_transfers : ℕ
  pub completed_deletes : ℕ
  pub failed_transfers : ℕ
  pub failed_deletes : ℕ
  pub bytes_done : ℕ
  pub total_bytes : ℕ
  pub current_item : Option Text
  pub current_strategy : Option SyncExecutionStrategy
  pub running : Bool
  pub summary : Option Text
  pub has_client_relay : Bool
  pub delete_phase_skipped : Bool
  pub transfer_failed : Bool

pub record SyncDeleteGuardrails : Type 0 where
  pub ignore_errors : Bool
  pub delete_workers_text : Text
  pub max_delete_count_text : Text
  pub max_delete_bytes_text : Text

pub record SyncDeleteConfirmState : Type 0 where
  pub planned_deletes : ℕ
  pub planned_delete_bytes : ℕ
  pub typed_required : Bool
  pub threshold_reason : Option Text
  pub confirm_text : Text

pub record SyncDeleteBatchResult : Type 0 where
  pub completed : ℕ
  pub failed : ℕ
  pub bytes : ℕ
  pub label : Text

pub record SyncTelemetry : Type 0 where
  pub stage : Text
  pub source_scanned : ℕ
  pub destination_scanned : ℕ
  pub compared : ℕ
  pub filtered : ℕ
  pub active_transfers : ℕ

pub record SyncState : Type 0 where
  pub mode : SyncMode
  pub preset : SyncPreset
  pub policy : SyncPolicy
  pub source_kind : SyncEndpointKind
  pub destination_kind : SyncEndpointKind
  pub source_connection_id : Text
  pub destination_connection_id : Text
  pub source_bucket : Text
  pub destination_bucket : Text
  pub source_prefix : Text
  pub destination_prefix : Text
  pub source_local_path : Option Text
  pub destination_local_path : Option Text
  pub source_buckets : Option (Result (List BucketInfo))
  pub destination_buckets : Option (Result (List BucketInfo))
  pub loading_source_buckets : Bool
  pub loading_destination_buckets : Bool
  pub tuning : SyncTuning
  pub filters : SyncFilterSet
  pub running : Bool
  pub plan : Option SyncPlan
  pub run_plan : Option SyncRunPlan
  pub source_snapshot : Option (List SyncObject)
  pub destination_snapshot : Option (List SyncObject)
  pub execution : Option SyncExecutionState
  pub delete_guardrails : SyncDeleteGuardrails
  pub delete_confirm : Option SyncDeleteConfirmState
  pub telemetry : SyncTelemetry
  pub error : Option Text
  pub show_advanced : Bool
  pub preview_before_run : Bool
  pub allow_direct_run : Bool

-- `SyncState::new`
unfoldable pub new : Text → SyncState
unfolding policy text
new current_connection_id = record {
  mode = SyncMode.diff;
  preset = SyncPreset.converge;
  policy = policy SyncPreset.converge;
  source_kind = SyncEndpointKind.s3;
  destination_kind = SyncEndpointKind.s3;
  source_connection_id = current_connection_id;
  destination_connection_id = current_connection_id;
  source_bucket = [];
  destination_bucket = [];
  source_prefix = [];
  destination_prefix = [];
  source_local_path = none;
  destination_local_path = none;
  source_buckets = none;
  destination_buckets = none;
  loading_source_buckets = false;
  loading_destination_buckets = false;
  tuning = record {
    list_mode = SyncListMode.streaming;
    compare_mode = SyncCompareMode.size_and_mod_time;
    list_workers_text = text "8";
    compare_workers_text = text "8";
    transfer_workers_text = text "4";
    fast_list_enabled = false;
    prefer_server_modtime = true;
    max_planner_items_text = text "250000";
    bwlimit_text = [];
    multipart_cutoff_text = text "8M";
    multipart_chunk_size_text = text "8M";
  };
  filters = record {
    include_patterns_text = [];
    exclude_patterns_text = [];
    newer_than_text = [];
    older_than_text = [];
    min_size_text = [];
    max_size_text = [];
  };
  running = false;
  plan = none;
  run_plan = none;
  source_snapshot = none;
  destination_snapshot = none;
  execution = none;
  delete_guardrails = record {
    ignore_errors = false;
    delete_workers_text = text "4";
    max_delete_count_text = [];
    max_delete_bytes_text = [];
  };
  delete_confirm = none;
  telemetry = record {
    stage = text "Idle";
    source_scanned = 0;
    destination_scanned = 0;
    compared = 0;
    filtered = 0;
    active_transfers = 0;
  };
  error = none;
  show_advanced = false;
  preview_before_run = true;
  allow_direct_run = false;
}
