-- ===== src/Transfer/Starting.antt =====
-- When a transfer may start, and how it does (src/app/handlers/transfer.rs).
use abixio_ui.Common.{
  Bool, true, false, not, ◌&&◌, ◌||◌, Option, none, some, [], ◌∷◌, if◌then◌else◌, ◌==◌, is_empty,
}
use abixio_ui.Common.Text.{Text, text_eq}
use abixio_ui.Sync.State.TransferEndpoint.{s3}
use abixio_ui.Transfer.Types.{
  TransferMode, copy_object, move_object, import_folder, export_prefix, TransferItem, TransferState,
  App, TransferTask, prepared, prepare_import, prepare_export, Outcome, with_transfer, set_transfer,
  current_connection,
}
use abixio_ui.Transfer.Modal.{or_empty}

abbrev pub same_object : Option Text → Option Text → TransferState → Bool
same_object (some bucket) (some key) transfer =
    transfer.destination_connection_id == current_connection
    && transfer.destination_bucket == bucket
    && transfer.destination_key == key
same_object _ _ transfer = false

unfoldable pub transfer_points_to_same_object : TransferState → Bool
transfer_points_to_same_object transfer =
    same_object transfer.source_bucket transfer.source_key transfer

abbrev is_some : Option Text → Bool
is_some none = false
is_some (some _) = true

-- The last test of `transfer_can_start`.
abbrev pub filled_in : TransferMode → TransferState → Bool
filled_in copy_object transfer =
    not (is_empty transfer.destination_bucket)
    && not (is_empty transfer.destination_key)
    && not (transfer_points_to_same_object transfer)
filled_in move_object transfer =
    not (is_empty transfer.destination_bucket)
    && not (is_empty transfer.destination_key)
    && not (transfer_points_to_same_object transfer)
filled_in _ transfer = is_some transfer.local_path

abbrev pub can_start : Option TransferState → Bool
can_start none = false
can_start (some transfer) =
    not (transfer.preparing || transfer.running || transfer.loading_destination_buckets)
    && filled_in transfer.mode transfer

-- The one item of a copy or a move.
abbrev pub object_item : TransferState → TransferItem
object_item transfer = record {
  source = s3 current_connection (or_empty transfer.source_bucket) (or_empty transfer.source_key);
  destination =
      s3 transfer.destination_connection_id transfer.destination_bucket transfer.destination_key;
}

module _ {Client : Type 0} where
  unfoldable pub transfer_can_start : App Client → Bool
  unfolding transfer_points_to_same_object
  transfer_can_start app = can_start app.transfer

  abbrev pub preparation : App Client → TransferMode → TransferState → TransferTask Client
  preparation app copy_object transfer = prepared (object_item transfer ∷ [])
  preparation app move_object transfer = prepared (object_item transfer ∷ [])
  preparation app import_folder transfer =
      prepare_import (or_empty transfer.local_path) transfer.destination_bucket
        transfer.destination_key
  preparation app export_prefix transfer =
      prepare_export app.client (or_empty transfer.source_bucket) (or_empty transfer.source_prefix)
        (or_empty transfer.local_path)

  unfoldable pub handle_start_transfer : App Client → Outcome Client
  unfolding transfer_can_start
  handle_start_transfer app =
      if transfer_can_start app
      then (with_transfer app app.transfer λ transfer. (
        set_transfer app (record transfer { preparing = true; summary = none }),
        preparation app transfer.mode transfer ∷ [],
      ))
      else (app, [])
