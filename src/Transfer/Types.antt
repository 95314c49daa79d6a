-- ===== src/Transfer/Types.antt =====
-- The data of a transfer (src/app/types.rs), the parts of `App` that its handlers read and change
-- (src/app/mod.rs), and the futures that they start. A client, which talks to one server, is a
-- parameter.
use abixio_ui.Common.{ℕ, Bool, Option, none, some, List, [], ◌∷◌, ◌++◌, if◌then◌else◌, ◌==◌}
use abixio_ui.Common.Text.{Text, text, text_eq}
use abixio_ui.Common.Result.{Result, ok, err}
use abixio_ui.Sync.State.{TransferEndpoint, BucketInfo}
use abixio_ui.Sync.State.TransferEndpoint.{s3, local}

pub data TransferMode : Type 0 where
  copy_object move_object import_folder export_prefix : TransferMode

pub data OverwritePolicy : Type 0 where
  ask overwrite_all skip_all : OverwritePolicy

pub record TransferItem : Type 0 where
  pub source : TransferEndpoint
  pub destination : TransferEndpoint

pub data TransferStepResult : Type 0 where
  conflict : TransferItem → TransferStepResult
  copied skipped : (label : Text) → TransferStepResult

pub record TransferState : Type 0 where
  pub mode : TransferMode
  pub destination_connection_id : Text
  pub destination_bucket : Text
  pub destination_key : Text
  pub destination_buckets : Option (Result (List BucketInfo))
  pub loading_destination_buckets : Bool
  pub local_path : Option Text
  pub source_bucket : Option Text
  pub source_key : Option Text
  pub source_prefix : Option Text
  pub items : List TransferItem
  pub next_index : ℕ
  pub completed : ℕ
  pub skipped : ℕ
  pub failed : ℕ
  pub current_item : Option Text
  pub pending_conflict : Option TransferItem
  pub overwrite_policy : OverwritePolicy
  pub preparing : Bool
  pub running : Bool
  pub summary : Option Text

abbrev place : Text → Text → Text
place bucket key = bucket ++ text "/" ++ key

abbrev arrow : Text → Text → Text
arrow source destination = source ++ text " -> " ++ destination

abbrev endpoint_label : TransferEndpoint → Text
endpoint_label (s3 _ bucket key) = place bucket key
endpoint_label (local path) = path

-- `TransferItem::label`
unfoldable pub label : TransferItem → Text
label item = arrow (endpoint_label item.source) (endpoint_label item.destination)

-- `Connection` of src/config.rs
pub record Connection : Type 0 where
  pub name : Text
  pub endpoint : Text
  pub region : Text

pub data Selection : Type 0 where
  nothing : Selection
  bucket : Text → Selection
  object : (bucket key : Text) → Selection

-- The client of the current connection is `client`; the other connections are `settings.connections`.
pub record App (Client : Type 0) : Type 0 where
  pub client : Client
  pub selection : Selection
  pub buckets : Option (Result (List BucketInfo))
  pub selected_bucket : Option Text
  pub current_prefix : Text
  pub loading_objects : Bool
  pub error : Option Text
  pub connections : List Connection
  pub active_connection : Option Text
  pub transfer : Option TransferState

-- What the futures do, with the values that they take along. `prepared` is the future that returns
-- its items at once; `buckets_failed` and `step_failed` return their errors.
pub data TransferTask (Client : Type 0) : Type 0 where
  list_buckets : Client → TransferTask Client
  buckets_failed : (error : Text) → TransferTask Client
  prepared : List TransferItem → TransferTask Client
  prepare_import : (root bucket prefix : Text) → TransferTask Client
  prepare_export : Client → (bucket prefix root : Text) → TransferTask Client
  step :
      (source_client : Client) (destination_client : Option Client) (item : TransferItem)
      (overwrite_policy : OverwritePolicy) (is_move : Bool)
      → TransferTask Client
  step_failed : (error : Text) → TransferTask Client
  fetch_objects : TransferTask Client

-- `CURRENT_CONNECTION_ID`
abbrev pub current_connection : Text
current_connection = text "__current__"

abbrev pub or_current : Option Text → Text
or_current none = current_connection
or_current (some name) = name

abbrev pub Outcome : Type 0 → Type 0
Outcome Client = App Client × List (TransferTask Client)

abbrev selected_object : Selection → Option (Text × Text)
selected_object (Selection.object b k) = some (b, k)
selected_object _ = none

abbrev pub connection_named : Text → List Connection → Option Connection
connection_named name [] = none
connection_named name (c ∷ connections) =
    if c.name == name then some c else connection_named name connections

module _ {Client : Type 0} where
  -- `let Some(transfer) = self.transfer.as_mut() else { return Task::none() }`
  abbrev pub with_transfer :
      App Client → Option TransferState → (TransferState → Outcome Client) → Outcome Client
  with_transfer app none change = (app, [])
  with_transfer app (some transfer) change = change transfer

  abbrev pub set_transfer : App Client → TransferState → App Client
  set_transfer app transfer = record app { transfer = some transfer }

  unfoldable pub current_selected_object : App Client → Option (Text × Text)
  current_selected_object app = selected_object app.selection

  abbrev client_for : (Connection → Result Client) → Text → Option Connection → Result Client
  client_for open_client id none = err (text "connection '" ++ id ++ text "' not found")
  client_for open_client id (some connection) = open_client connection

  -- The keys of a connection and its client come from the operating system and the S3 library:
  -- `open_client`.
  unfoldable pub make_client_for_connection :
      (Connection → Result Client) → App Client → Text → Result Client
  make_client_for_connection open_client app id =
      if id == current_connection
      then ok app.client
      else client_for open_client id (connection_named id app.connections)

  unfoldable pub current_connection_id : App Client → Text
  current_connection_id app = or_current app.active_connection
