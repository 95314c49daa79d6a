-- ===== src/Transfer/Reach.antt =====
-- The runs of a prepared transfer (src/app/handlers/transfer.rs): what its future does
-- (src/app/transfer_ops.rs), the message of its result, the answers to conflicts, and edits of the
-- fields meanwhile.
use abixio_ui.Common.{
  ◌+◌, ◌≤◌, Bool, true, false, Option, none, some, List, [], ◌∷◌, ◌≡◌, length, get_elem?,
}
use abixio_ui.Common.Text.{Text}
use abixio_ui.Common.Result.{Result, ok, err}
use abixio_ui.Transfer.Types.{
  OverwritePolicy, TransferItem, TransferState, Connection, App, TransferTask, step, step_failed,
  fetch_objects,
}
use abixio_ui.Transfer.Modal.{
  handle_transfer_destination_bucket_changed, handle_transfer_destination_key_changed,
}
use abixio_ui.Transfer.Steps.{
  handle_transfer_prepared, handle_transfer_step_finished, resolve_transfer_conflict,
}
use abixio_ui.Transfer.Storage.{Storage}
use abixio_ui.Transfer.Work.{run_transfer_step}

module _ {Client World Data : Type 0} (s : Storage Client World Data)
    (open_client : Connection → Result Client) where
  -- What a transfer reaches from an app whose items arrive: the app, the tasks whose message is still
  -- to come, and the world.
  pub data Reach (start : App Client) (items : List TransferItem) (w₀ : World)
      : App Client → List (TransferTask Client) → World → Type 0 where
    arrived :
        Reach start items w₀
          (handle_transfer_prepared open_client (ok items) start).0
          (handle_transfer_prepared open_client (ok items) start).1
          w₀
    worked :
        {app : App Client} {w : World} {source : Client} {destination : Option Client}
        {item : TransferItem} {policy : OverwritePolicy} {is_move : Bool}
        → Reach start items w₀ app (step source destination item policy is_move ∷ []) w
        → Reach start items w₀
            (handle_transfer_step_finished open_client
              (run_transfer_step s source destination item policy is_move w).0
              app).0
            (handle_transfer_step_finished open_client
              (run_transfer_step s source destination item policy is_move w).0
              app).1
            (run_transfer_step s source destination item policy is_move w).1
    unconnected :
        {app : App Client} {w : World} {error : Text}
        → Reach start items w₀ app (step_failed error ∷ []) w
        → Reach start items w₀
            (handle_transfer_step_finished open_client (err error) app).0
            (handle_transfer_step_finished open_client (err error) app).1
            w
    answered :
        {app : App Client} {w : World} (skip remember : Bool)
        → Reach start items w₀ app [] w
        → Reach start items w₀
            (resolve_transfer_conflict open_client skip remember app).0
            (resolve_transfer_conflict open_client skip remember app).1
            w
    edited :
        {app : App Client} {tasks : List (TransferTask Client)} {w : World} (bucket key : Text)
        → Reach start items w₀ app tasks w
        → Reach start items w₀
            (handle_transfer_destination_key_changed key
              (handle_transfer_destination_bucket_changed bucket app))
            tasks
            w

-- The tasks that are to come when a transfer works on an item.
abbrev pub WorksOn : {Client : Type 0} → TransferItem → List (TransferTask Client) → Type 0
WorksOn item (step _ _ item' _ _ ∷ []) = item' ≡ item
WorksOn item (step_failed _ ∷ []) = Unit
WorksOn item _ = ⊥

-- A transfer that is over may list the bucket again.
abbrev pub IsIdle : {Client : Type 0} → List (TransferTask Client) → Type 0
IsIdle [] = Unit
IsIdle (fetch_objects ∷ []) = Unit
IsIdle _ = ⊥

-- A transfer works on the item at its index, or asks about it, or is over.
pub data Stage {Client : Type 0} (transfer : TransferState) (tasks : List (TransferTask Client))
    : Type 0 where
  working :
      (item : TransferItem)
      → get_elem? transfer.items transfer.next_index ≡ some item
      → transfer.running ≡ true
      → transfer.pending_conflict ≡ none
      → WorksOn item tasks
      → Stage transfer tasks
  asking :
      (item : TransferItem)
      → get_elem? transfer.items transfer.next_index ≡ some item
      → transfer.running ≡ false
      → transfer.pending_conflict ≡ some item
      → tasks ≡ []
      → Stage transfer tasks
  over :
      transfer.next_index ≡ length transfer.items
      → transfer.running ≡ false
      → transfer.pending_conflict ≡ none
      → IsIdle tasks
      → Stage transfer tasks

-- Each item before the index is counted once.
pub record Follows {Client : Type 0} (items : List TransferItem) (transfer : TransferState)
    (tasks : List (TransferTask Client)) : Type 0 where
  pub items-kept : transfer.items ≡ items
  pub counted : transfer.completed + transfer.skipped + transfer.failed ≡ transfer.next_index
  pub bounded : transfer.next_index ≤ length items
  pub stage : Stage transfer tasks

abbrev pub Following :
    {Client : Type 0} → List TransferItem → App Client → List (TransferTask Client) → Type 0
Following items app tasks =
    (transfer : TransferState) × (app.transfer ≡ some transfer) × Follows items transfer tasks
