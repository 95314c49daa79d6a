-- ===== src/Sync/Tests/Data.antt =====
-- The objects, settings and runs that the tests use.
use abixio_ui.Common.{ℕ, false, none, List, [], ◌∷◌}
use abixio_ui.Common.Text.{Text}
use abixio_ui.Sync.Types.{
  SyncMode, SyncPreset, SyncPolicy, SyncDeletePhase, SyncObject, SyncPlanAction, policy,
}
use abixio_ui.Sync.State.{
  TransferEndpoint, SyncExecutionStrategy, SyncRunItem, SyncRunPlan, SyncExecutionState, SyncState,
  new,
}
use abixio_ui.Sync.Execution.Phase.{RunConfig}
use abixio_ui.Sync.Execution.Messages.{fresh_execution, first_phase}

abbrev pub path_a : Text
path_a = b'a' ∷ []

abbrev pub path_b : Text
path_b = b'b' ∷ []

abbrev pub path_c : Text
path_c = b'c' ∷ []

abbrev pub object : Text → ℕ → SyncObject
object path size = record {
  relative_path = path;
  size = size;
  modified = none;
  etag = none;
  is_dir_marker = false;
}

-- `a` is changed, `b` is new, `c` is extra.
abbrev pub source_objects : List SyncObject
source_objects = object path_a 3 ∷ object path_b 5 ∷ []

abbrev pub destination_objects : List SyncObject
destination_objects = object path_a 4 ∷ object path_c 7 ∷ []

abbrev pub converge_policy : SyncPolicy
unfolding policy
converge_policy = policy SyncPreset.converge

-- The screen set to a sync from the bucket `a` to the bucket `b` of one connection.
abbrev pub settings : SyncState
unfolding new
settings = record (new path_a) {
  mode = SyncMode.sync;
  source_bucket = path_a;
  destination_bucket = path_b;
}

abbrev pub endpoint : Text → TransferEndpoint
endpoint key = TransferEndpoint.s3 path_a path_b key

abbrev pub transfer_item : SyncPlanAction → Text → ℕ → SyncRunItem
transfer_item action path bytes = record {
  relative_path = path;
  action = action;
  source = TransferEndpoint.s3 path_a path_a path;
  destination = endpoint path;
  strategy = SyncExecutionStrategy.server_side_copy;
  bytes = bytes;
}

abbrev pub delete_item : Text → ℕ → SyncRunItem
delete_item path bytes = record (transfer_item SyncPlanAction.delete path bytes) {
  source = endpoint path;
  strategy = SyncExecutionStrategy.delete_remote;
}

abbrev pub two_and_one : SyncRunPlan
two_and_one = record {
  transfers =
      transfer_item SyncPlanAction.update path_a 3
      ∷ transfer_item SyncPlanAction.create path_b 5
      ∷ [];
  deletes = delete_item path_c 7 ∷ [];
  total_transfer_bytes = 8;
  total_delete_bytes = 7;
  has_client_relay = false;
}

abbrev pub config : SyncMode → SyncDeletePhase → RunConfig
config mode delete_phase = record {
  mode = mode;
  delete_phase = delete_phase;
  ignore_errors = false;
  transfer_workers = 1;
  delete_workers = 1;
}

-- The start of a run of `two_and_one`.
abbrev pub begun : SyncDeletePhase → SyncExecutionState
unfolding fresh_execution first_phase
begun phase = fresh_execution (first_phase phase two_and_one) 15 two_and_one
