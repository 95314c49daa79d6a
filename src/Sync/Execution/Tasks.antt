-- ===== src/Sync/Execution/Tasks.antt =====
-- The next task of a run (`next_transfer_spec`, `next_delete_batch_spec`, src/app/handlers/sync.rs).
use abixio_ui.Common.{
  ℕ, zero, suc, ◌+◌, ◌&&◌, Option, none, some, List, [], ◌∷◌, ◌++◌, if◌then◌else◌, ◌==◌, get_elem?,
  drop,
}
use abixio_ui.Common.Text.{Text, text_eq}
use abixio_ui.Sync.Plan.{add64}
use abixio_ui.Sync.State.{TransferEndpoint, SyncRunItem, SyncExecutionState}
use abixio_ui.Sync.State.TransferEndpoint.{s3, local}

-- `PendingSyncTask`
pub data PendingSyncTask : Type 0 where
  transfer : SyncRunItem → PendingSyncTask
  delete_remote :
      (connection_id bucket : Text) (keys : List Text) (bytes : ℕ) (label : Text) → PendingSyncTask
  delete_local : (path : Text) (bytes : ℕ) (label : Text) → PendingSyncTask

-- `next_transfer_spec`
unfoldable pub next_transfer_spec :
    SyncExecutionState → Option (SyncExecutionState × PendingSyncTask)
next_transfer_spec e = elim (get_elem? e.run_plan.transfers e.next_transfer_index) [
  | none ↦ none
  | some item ↦ some (record e { next_transfer_index = e.next_transfer_index + 1 }, transfer item)
]

pub record Batch : Type 0 where
  pub keys : List Text
  pub bytes : ℕ
  pub taken : ℕ

-- The key of an S3 endpoint in this bucket of this connection.
abbrev pub key_in : Text → Text → TransferEndpoint → Option Text
key_in connection bucket (local path) = none
key_in connection bucket (s3 c b key) = if c == connection && b == bucket then some key else none

-- `keys.push(key.clone()); bytes += item.bytes; end += 1;`
abbrev pub grow : Batch → Text → SyncRunItem → Batch
grow b key item = record {
  keys = b.keys ++ key ∷ [];
  bytes = add64 b.bytes item.bytes;
  taken = b.taken + 1;
}

-- `while end < deletes.len() && keys.len() < 1000`, over the deletes from `end` on; `room` is what
-- is left of the 1000, and `b.taken` is `end - start`.
unfoldable pub take_batch : ℕ → Text → Text → List SyncRunItem → Batch → Batch
take_batch zero connection bucket items b = b
take_batch (suc room) connection bucket [] b = b
take_batch (suc room) connection bucket (item ∷ items) b =
    elim (key_in connection bucket item.destination) [
      | none ↦ b
      | some key ↦ take_batch room connection bucket items (grow b key item)
    ]

abbrev last_or_empty : List Text → Text
last_or_empty [] = []
last_or_empty (k ∷ []) = k
last_or_empty (k ∷ j ∷ l) = last_or_empty (j ∷ l)

abbrev pub no_batch : Batch
no_batch = record { keys = []; bytes = 0; taken = 0 }

abbrev pub batch_spec :
    SyncExecutionState → SyncRunItem → TransferEndpoint → SyncExecutionState × PendingSyncTask
batch_spec e first (s3 connection bucket _) =
    let b =
      take_batch 1000 connection bucket (drop e.next_delete_index e.run_plan.deletes) no_batch in
    (
      record e { next_delete_index = e.next_delete_index + b.taken },
      delete_remote connection bucket b.keys b.bytes (bucket ++ b'/' ∷ last_or_empty b.keys),
    )
batch_spec e first (local path) = (
  record e { next_delete_index = e.next_delete_index + 1 },
  delete_local path first.bytes first.relative_path,
)

-- `next_delete_batch_spec`
unfoldable pub next_delete_batch_spec :
    SyncExecutionState → Option (SyncExecutionState × PendingSyncTask)
unfolding take_batch
next_delete_batch_spec e = elim (get_elem? e.run_plan.deletes e.next_delete_index) [
  | none ↦ none
  | some first ↦ some (batch_spec e first first.destination)
]
