-- ===== src/Sync/Types.antt =====
-- The data of the sync planner (`src/app/types.rs`): modes, policies, objects, plans.
use abixio_ui.Common.{ℕ, Bool, true, false, Option, List}
use abixio_ui.Common.Text.{Text}

pub data SyncMode : Type 0 where
  diff copy sync : SyncMode

pub data SyncPreset : Type 0 where
  converge update_only exact custom : SyncPreset

pub data SyncDestinationNewerPolicy : Type 0 where
  source_wins skip conflict : SyncDestinationNewerPolicy

pub data SyncDeletePhase : Type 0 where
  before during after : SyncDeletePhase

pub record SyncPolicy : Type 0 where
  pub overwrite_changed : Bool
  pub delete_extras : Bool
  pub destination_newer_policy : SyncDestinationNewerPolicy
  pub delete_phase : SyncDeletePhase

pub data SyncCompareMode : Type 0 where
  size_only size_and_mod_time update_if_source_newer checksum_if_available always_overwrite :
      SyncCompareMode

pub data SyncEndpointKind : Type 0 where
  s3 local : SyncEndpointKind

-- `size` is a `u64`; `modified` is an RFC 3339 text.
pub record SyncObject : Type 0 where
  pub relative_path : Text
  pub size : ℕ
  pub modified : Option Text
  pub etag : Option Text
  pub is_dir_marker : Bool

pub data SyncPlanAction : Type 0 where
  create update delete skip conflict : SyncPlanAction

pub data SyncPlanReason : Type 0 where
  missing_on_destination missing_on_source size_mismatch source_newer destination_newer :
      SyncPlanReason
  checksum_mismatch filtered_out identical : SyncPlanReason

pub record SyncPlanItem : Type 0 where
  pub action : SyncPlanAction
  pub reason : SyncPlanReason
  pub relative_path : Text
  pub source : Option SyncObject
  pub destination : Option SyncObject

-- The byte counts are `u64`.
pub record SyncPlanSummary : Type 0 where
  pub creates : ℕ
  pub updates : ℕ
  pub deletes : ℕ
  pub skips : ℕ
  pub conflicts : ℕ
  pub bytes_to_create : ℕ
  pub bytes_to_update : ℕ
  pub bytes_to_delete : ℕ
  pub source_scanned : ℕ
  pub destination_scanned : ℕ

pub record SyncPlan : Type 0 where
  pub items : List SyncPlanItem
  pub summary : SyncPlanSummary

-- `SyncPreset::policy`
unfoldable pub policy : SyncPreset → SyncPolicy
policy SyncPreset.converge = record {
  overwrite_changed = true;
  delete_extras = true;
  destination_newer_policy = SyncDestinationNewerPolicy.source_wins;
  delete_phase = SyncDeletePhase.after;
}
policy SyncPreset.update_only = record {
  overwrite_changed = true;
  delete_extras = false;
  destination_newer_policy = SyncDestinationNewerPolicy.source_wins;
  delete_phase = SyncDeletePhase.after;
}
policy SyncPreset.exact = record {
  overwrite_changed = true;
  delete_extras = true;
  destination_newer_policy = SyncDestinationNewerPolicy.conflict;
  delete_phase = SyncDeletePhase.after;
}
policy SyncPreset.custom = record {
  overwrite_changed = true;
  delete_extras = true;
  destination_newer_policy = SyncDestinationNewerPolicy.source_wins;
  delete_phase = SyncDeletePhase.after;
}
