-- ===== src/Transfer/Modal.antt =====
-- The handlers of the transfer modal (src/app/handlers/transfer.rs) up to the start of a transfer.
-- What the folder dialog picks is an argument.
use abixio_ui.Common.{Bool, true, false, Option, none, some, List, [], ◌∷◌, if◌then◌else◌, ◌==◌}
use abixio_ui.Common.Text.{Text, text_eq}
use abixio_ui.Common.Result.{Result, ok, err}
use abixio_ui.Sync.State.{BucketInfo}
use abixio_ui.Transfer.Types.{
  TransferMode, copy_object, move_object, import_folder, export_prefix, ask, TransferState,
  Connection, App, TransferTask, list_buckets, buckets_failed, Outcome, with_transfer, set_transfer,
  current_connection, current_connection_id, current_selected_object, make_client_for_connection,
}

-- What every opened modal starts with.
abbrev pub opened : TransferMode → Text → Text → Text → TransferState
opened mode connection_id bucket key = record {
  mode = mode;
  destination_connection_id = connection_id;
  destination_bucket = bucket;
  destination_key = key;
  destination_buckets = none;
  loading_destination_buckets = false;
  local_path = none;
  source_bucket = none;
  source_key = none;
  source_prefix = none;
  items = [];
  next_index = 0;
  completed = 0;
  skipped = 0;
  failed = 0;
  current_item = none;
  pending_conflict = none;
  overwrite_policy = ask;
  preparing = false;
  running = false;
  summary = none;
}

abbrev object_opened :
    TransferMode → Text → Option (Result (List BucketInfo)) → Text → Text → TransferState
object_opened mode connection_id buckets bucket key =
    record (opened mode connection_id bucket key) {
      destination_buckets = buckets;
      source_bucket = some bucket;
      source_key = some key;
    }

-- `unwrap_or_default`
abbrev pub or_empty : Option Text → Text
or_empty none = []
or_empty (some t) = t

module _ {Client : Type 0} (open_client : Connection → Result Client) where
  abbrev fetch_with : Result Client → List (TransferTask Client)
  fetch_with (ok client) = list_buckets client ∷ []
  fetch_with (err error) = buckets_failed error ∷ []

  unfoldable pub cmd_fetch_transfer_buckets : App Client → Text → List (TransferTask Client)
  unfolding make_client_for_connection
  cmd_fetch_transfer_buckets app id = fetch_with (make_client_for_connection open_client app id)

  abbrev open_copy : App Client → Text → Option (Text × Text) → Outcome Client
  open_copy app id none = (app, [])
  open_copy app id (some (bucket, key)) =
      if id == current_connection
      then (set_transfer app (object_opened copy_object id app.buckets bucket key), [])
      else (
        set_transfer app (record (object_opened copy_object id none bucket key) {
          loading_destination_buckets = true;
        }),
        cmd_fetch_transfer_buckets app id,
      )

  unfoldable pub handle_open_copy_object : App Client → Outcome Client
  unfolding current_connection_id current_selected_object cmd_fetch_transfer_buckets
  handle_open_copy_object app =
      open_copy app (current_connection_id app) (current_selected_object app)

  unfoldable pub handle_transfer_destination_connection_changed : Text → App Client → Outcome Client
  unfolding cmd_fetch_transfer_buckets
  handle_transfer_destination_connection_changed id app = with_transfer app app.transfer λ transfer.
      (
        set_transfer app (record transfer {
          destination_connection_id = id;
          destination_buckets = none;
          loading_destination_buckets = true;
          destination_bucket = [];
          summary = none;
        }),
        cmd_fetch_transfer_buckets app id,
      )

abbrev is_running : Option TransferState → Bool
is_running none = false
is_running (some transfer) = transfer.running

module _ {Client : Type 0} where
  abbrev open_move : App Client → Option (Text × Text) → App Client
  open_move app none = app
  open_move app (some (bucket, key)) =
      set_transfer app (object_opened move_object current_connection app.buckets bucket key)

  unfoldable pub handle_open_move_object : App Client → App Client
  unfolding current_selected_object
  handle_open_move_object app = open_move app (current_selected_object app)

  unfoldable pub handle_open_rename_object : App Client → App Client
  unfolding current_selected_object
  handle_open_rename_object app = open_move app (current_selected_object app)

  abbrev open_import : App Client → Text → Option Text → Option Text → App Client
  open_import app id (some bucket) (some path) =
      set_transfer app (record (opened import_folder id bucket app.current_prefix) {
        destination_buckets = app.buckets;
        local_path = some path;
      })
  open_import app id _ _ = app

  unfoldable pub handle_open_import_folder : Option Text → App Client → App Client
  unfolding current_connection_id
  handle_open_import_folder picked app =
      open_import app (current_connection_id app) app.selected_bucket picked

  abbrev open_export : App Client → Text → Option Text → Option Text → App Client
  open_export app id (some bucket) (some path) =
      set_transfer app (record (opened export_prefix id bucket app.current_prefix) {
        local_path = some path;
        source_bucket = some bucket;
        source_prefix = some app.current_prefix;
      })
  open_export app id _ _ = app

  unfoldable pub handle_open_export_prefix : Option Text → App Client → App Client
  unfolding current_connection_id
  handle_open_export_prefix picked app =
      open_export app (current_connection_id app) app.selected_bucket picked

  unfoldable pub handle_close_transfer_modal : App Client → App Client
  handle_close_transfer_modal app =
      if is_running app.transfer then app else record app { transfer = none }

  unfoldable pub handle_transfer_destination_bucket_changed : Text → App Client → App Client
  handle_transfer_destination_bucket_changed bucket app =
      (with_transfer app app.transfer λ transfer.
        (set_transfer app (record transfer { destination_bucket = bucket; summary = none }), [])).0

  unfoldable pub handle_transfer_destination_key_changed : Text → App Client → App Client
  handle_transfer_destination_key_changed key app =
      (with_transfer app app.transfer λ transfer.
        (set_transfer app (record transfer { destination_key = key; summary = none }), [])).0

  unfoldable pub handle_transfer_destination_buckets_loaded :
      Result (List BucketInfo) → App Client → App Client
  handle_transfer_destination_buckets_loaded result app =
      (with_transfer app app.transfer λ transfer. (
        set_transfer app (record transfer {
          loading_destination_buckets = false;
          destination_buckets = some result;
        }),
        [],
      )).0
