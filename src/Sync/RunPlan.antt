-- ===== src/Sync/RunPlan.antt =====
-- From a plan to the transfers and deletes of a run (`prepare_sync_run_plan` and its helpers,
-- src/app/sync_ops.rs), on a platform whose path separator is `/`.
pub mod Totals
pub mod Deletes
pub mod Endpoints
use abixio_ui.Common.{
  ℕ, Bool, true, false, ◌||◌, Option, none, some, List, [], ◌∷◌, ◌++◌, if◌then◌else◌, ◌==◌,
  is_empty, nat_eq, any,
}
use abixio_ui.Common.Text.{Text, text, text_eq}
use abixio_ui.Common.Result.{Result, ok, err, ◌>>=◌}
use abixio_ui.Sync.Types.{SyncEndpointKind, SyncPlanAction, SyncPlanItem, SyncPlan}
use abixio_ui.Sync.Types.SyncPlanAction.{create, update, delete, skip, conflict}
use abixio_ui.Sync.Plan.{add64, size_of}
use abixio_ui.Sync.State.{
  TransferEndpoint, SyncExecutionStrategy, SyncRunItem, SyncRunPlan, SyncState,
}
use abixio_ui.Sync.State.TransferEndpoint.{s3, local}
use abixio_ui.Sync.State.SyncExecutionStrategy.{
  upload, download, server_side_copy, client_relay, delete_remote, delete_local,
}

-- `s.ends_with('/')`, `s.starts_with('/')`
abbrev pub ends_with_slash : Text → Bool
ends_with_slash [] = false
ends_with_slash (c ∷ []) = c == b'/'
ends_with_slash (c ∷ d ∷ s) = ends_with_slash (d ∷ s)

abbrev pub starts_with_slash : Text → Bool
starts_with_slash [] = false
starts_with_slash (c ∷ _) = c == b'/'

unfoldable pub join_s3_key : Text → Text → Text
join_s3_key prefix relative =
    if is_empty prefix
    then relative
    else if ends_with_slash prefix
    then prefix ++ relative
    else prefix ++ b'/' ∷ relative

-- `Path::join`: an absolute argument replaces the root.
unfoldable pub join_path : Text → Text → Text
join_path root fragment =
    if starts_with_slash fragment
    then fragment
    else if is_empty root || ends_with_slash root
    then root ++ fragment
    else root ++ b'/' ∷ fragment

abbrev local_endpoint : Option Text → Text → Result TransferEndpoint
local_endpoint none fragment = err (text "Local path is required.")
local_endpoint (some root) fragment = ok (local (join_path root fragment))

abbrev pub endpoint_at :
    SyncEndpointKind → Text → Text → Text → Option Text → Text → Result TransferEndpoint
endpoint_at SyncEndpointKind.s3 connection bucket prefix root path =
    ok (s3 connection bucket (join_s3_key prefix path))
endpoint_at SyncEndpointKind.local connection bucket prefix root path = local_endpoint root path

-- With `/` for the separator, `relative_path.replace('/', MAIN_SEPARATOR_STR)` is the path itself.
unfoldable pub build_transfer_endpoint : SyncState → Bool → Text → Result TransferEndpoint
unfolding join_s3_key join_path
build_transfer_endpoint sync source path =
    endpoint_at (if source then sync.source_kind else sync.destination_kind)
      (if source then sync.source_connection_id else sync.destination_connection_id)
      (if source then sync.source_bucket else sync.destination_bucket)
      (if source then sync.source_prefix else sync.destination_prefix)
      (if source then sync.source_local_path else sync.destination_local_path) path

unfoldable pub determine_execution_strategy :
    TransferEndpoint → TransferEndpoint → Result SyncExecutionStrategy
determine_execution_strategy (local _) (s3 _ _ _) = ok upload
determine_execution_strategy (s3 _ _ _) (local _) = ok download
determine_execution_strategy (s3 c _ _) (s3 d _ _) =
    if c == d then ok server_side_copy else ok client_relay
determine_execution_strategy (local _) (local _) =
    err (text "Local to local copy is not supported in sync execution.")

unfoldable pub determine_delete_strategy : TransferEndpoint → Result SyncExecutionStrategy
determine_delete_strategy (s3 _ _ _) = ok delete_remote
determine_delete_strategy (local _) = ok delete_local

-- The `Create | Update` arm of the loop.
unfoldable pub transfer_of : SyncState → SyncPlanItem → Result SyncRunItem
unfolding build_transfer_endpoint determine_execution_strategy
transfer_of sync item = do
  source ← build_transfer_endpoint sync true item.relative_path
  destination ← build_transfer_endpoint sync false item.relative_path
  strategy ← determine_execution_strategy source destination
  ok (record {
    relative_path = item.relative_path;
    action = item.action;
    source = source;
    destination = destination;
    strategy = strategy;
    bytes = size_of item.source;
  })

-- The `Delete` arm.
unfoldable pub delete_of : SyncState → SyncPlanItem → Result SyncRunItem
unfolding build_transfer_endpoint determine_delete_strategy
delete_of sync item = do
  destination ← build_transfer_endpoint sync false item.relative_path
  strategy ← determine_delete_strategy destination
  ok (record {
    relative_path = item.relative_path;
    action = item.action;
    source = destination;
    destination = destination;
    strategy = strategy;
    bytes = size_of item.destination;
  })

abbrev pub Runs : Type 0
Runs = List SyncRunItem × List SyncRunItem

-- The loop's body, by the item's action: `transfers.push` or `deletes.push`.
unfoldable pub add_item : SyncState → SyncPlanAction → SyncPlanItem → Runs → Result Runs
unfolding transfer_of delete_of
add_item sync create item (transfers, deletes) = do
  run ← transfer_of sync item
  ok (transfers ++ run ∷ [], deletes)
add_item sync update item (transfers, deletes) = do
  run ← transfer_of sync item
  ok (transfers ++ run ∷ [], deletes)
add_item sync delete item (transfers, deletes) = do
  run ← delete_of sync item
  ok (transfers, deletes ++ run ∷ [])
add_item sync skip item runs = ok runs
add_item sync conflict item runs = ok runs

unfoldable pub run_loop : SyncState → List SyncPlanItem → Runs → Result Runs
run_loop sync [] runs = ok runs
run_loop sync (item ∷ items) runs = do
  runs' ← add_item sync item.action item runs
  run_loop sync items runs'

-- `iter().map(|item| item.bytes).sum()` over `u64`
unfoldable pub sum_bytes : List SyncRunItem → ℕ
sum_bytes [] = 0
sum_bytes (item ∷ items) = add64 item.bytes (sum_bytes items)

abbrev is_relay : SyncExecutionStrategy → Bool
is_relay client_relay = true
is_relay _ = false

abbrev pub finish : Runs → SyncRunPlan
finish (transfers, deletes) = record {
  transfers = transfers;
  deletes = deletes;
  total_transfer_bytes = sum_bytes transfers;
  total_delete_bytes = sum_bytes deletes;
  has_client_relay = any (λ item. is_relay item.strategy) transfers;
}

unfoldable pub prepare_sync_run_plan : SyncState → SyncPlan → Result SyncRunPlan
unfolding run_loop add_item sum_bytes
prepare_sync_run_plan sync plan = do runs ← run_loop sync plan.items ([], []); ok (finish runs)
