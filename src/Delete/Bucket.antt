-- ===== src/Delete/Bucket.antt =====
-- The modal that deletes a bucket with its objects (src/app/handlers/delete.rs): its state, the parts
-- of `App` that its handlers read and change, and the futures that they start. An `ObjectInfo` is its
-- key, the one field that is read.
pub mod Reach
pub mod Order
mod Tests
use abixio_ui.Common.{
  ℕ, ◌+◌, Bool, true, false, not, ◌&&◌, ◌||◌, Option, none, some, List, [], ◌∷◌, ◌++◌,
  if◌then◌else◌, ◌==◌, option_eq, nat_eq, length, get_elem?, is_empty,
}
use abixio_ui.Common.Text.{Text, text, text_eq}
use abixio_ui.Common.Number.{display}
use abixio_ui.Common.Result.{Result, ok, err}
use abixio_ui.Transfer.Types.{Selection, nothing}

pub record BucketDeleteState : Type 0 where
  pub bucket : Text
  pub confirm_name : Text
  pub preview_loading : Bool
  pub object_keys : List Text
  pub total_objects : ℕ
  pub deleted_objects : ℕ
  pub next_index : ℕ
  pub deleting : Bool
  pub summary : Option Text

pub data BucketDeleteStepResult : Type 0 where
  object_deleted bucket_deleted : Text → BucketDeleteStepResult

pub record App : Type 0 where
  pub selection : Selection
  pub selected_bucket : Option Text
  pub current_prefix : Text
  pub object_filter : Text
  pub selected_keys : List Text
  pub bucket_delete : Option BucketDeleteState
  pub loading_buckets : Bool
  pub loading_objects : Bool
  pub error : Option Text

-- `reset_view` stands for the assignments that drop what other screens hold of a bucket: the find
-- results, the listing, the object's detail, the bucket's documents and tags, and the admin state.
pub data BucketTask : Type 0 where
  list_objects : (bucket : Text) → BucketTask
  delete_object : (bucket key : Text) → BucketTask
  delete_bucket : (bucket : Text) → BucketTask
  fetch_buckets fetch_objects reset_view : BucketTask

abbrev pub Outcome : Type 0
Outcome = App × List BucketTask

abbrev pub set_modal : App → BucketDeleteState → App
set_modal app state = record app { bucket_delete = some state }

abbrev bucket_of : Selection → Option Text → Option Text
bucket_of (Selection.bucket b) selected = some b
bucket_of (Selection.object b k) selected = some b
bucket_of nothing selected = selected

unfoldable pub current_selected_bucket : App → Option Text
current_selected_bucket app = bucket_of app.selection app.selected_bucket

abbrev pub opened : Text → BucketDeleteState
opened bucket = record {
  bucket = bucket;
  confirm_name = [];
  preview_loading = true;
  object_keys = [];
  total_objects = 0;
  deleted_objects = 0;
  next_index = 0;
  deleting = false;
  summary = none;
}

abbrev open_for : App → Option Text → Outcome
open_for app none = (app, [])
open_for app (some bucket) = (set_modal app (opened bucket), list_objects bucket ∷ [])

unfoldable pub handle_open_delete_bucket_modal : App → Outcome
unfolding current_selected_bucket
handle_open_delete_bucket_modal app = open_for app (current_selected_bucket app)

abbrev is_deleting : Option BucketDeleteState → Bool
is_deleting none = false
is_deleting (some state) = state.deleting

unfoldable pub handle_close_delete_bucket_modal : App → App
handle_close_delete_bucket_modal app =
    if is_deleting app.bucket_delete then app else record app { bucket_delete = none }

abbrev preview_text : ℕ → Text
preview_text total =
    if total == 0
    then text "Bucket is empty."
    else text "Bucket contains "
      ++ display total
      ++ text " object(s). Delete will remove them recursively."

abbrev pub previewed : BucketDeleteState → Result (List Text) → BucketDeleteState
previewed state (ok keys) = record state {
  preview_loading = false;
  total_objects = length keys;
  object_keys = keys;
  summary = some (preview_text (length keys));
}
previewed state (err error) = record state {
  preview_loading = false;
  summary = some (text "Preview failed: " ++ error);
}

abbrev pub previewed_in : App → Option BucketDeleteState → Text → Result (List Text) → App
previewed_in app none bucket result = app
previewed_in app (some state) bucket result =
    if state.bucket == bucket then set_modal app (previewed state result) else app

unfoldable pub handle_bucket_delete_preview_loaded : Text → Result (List Text) → App → App
handle_bucket_delete_preview_loaded bucket result app =
    previewed_in app app.bucket_delete bucket result

abbrev pub named_in : App → Option BucketDeleteState → Text → App
named_in app none value = app
named_in app (some state) value = set_modal app (record state { confirm_name = value })

unfoldable pub handle_bucket_delete_confirm_name_changed : Text → App → App
handle_bucket_delete_confirm_name_changed value app = named_in app app.bucket_delete value

abbrev pub can_start : Option BucketDeleteState → Bool
can_start none = false
can_start (some state) =
    not state.preview_loading
    && not state.deleting
    && state.confirm_name == state.bucket
    && not (is_empty state.bucket)

unfoldable pub bucket_delete_can_start : App → Bool
bucket_delete_can_start app = can_start app.bucket_delete

abbrev pub next_task : Text → Option Text → BucketTask
next_task bucket none = delete_bucket bucket
next_task bucket (some key) = delete_object bucket key

abbrev pub process : App → Option BucketDeleteState → Outcome
process app none = (app, [])
process app (some state) =
    if state.preview_loading || not (state.confirm_name == state.bucket) then (app, []) else (
      set_modal app (record state { deleting = true }),
      next_task state.bucket (get_elem? state.object_keys state.next_index) ∷ [],
    )

unfoldable pub cmd_process_next_bucket_delete_step : App → Outcome
cmd_process_next_bucket_delete_step app = process app app.bucket_delete

unfoldable pub handle_confirm_delete_bucket : App → Outcome
unfolding cmd_process_next_bucket_delete_step
handle_confirm_delete_bucket app = cmd_process_next_bucket_delete_step app

abbrev pub count_deleted : Text → BucketDeleteState → BucketDeleteState
count_deleted label state = record state {
  deleted_objects = state.deleted_objects + 1;
  next_index = state.next_index + 1;
  summary = some (
      text "Deleting objects: "
      ++ display (state.deleted_objects + 1)
      ++ text "/"
      ++ display state.total_objects
      ++ text " complete. Last: "
      ++ label);
}

abbrev stop_text : BucketDeleteState → Text → Text
stop_text state error =
    text "Delete stopped after "
    ++ display state.deleted_objects
    ++ text " of "
    ++ display state.total_objects
    ++ text " objects: "
    ++ error

abbrev stopped : App → BucketDeleteState → Text → App
stopped app state error = record app {
  bucket_delete = some (record state { deleting = false; summary = some (stop_text state error) });
  error = some (text "Delete bucket failed: " ++ error);
}

abbrev deselected : App → App
deselected app = record app {
  bucket_delete = none;
  selected_bucket = none;
  selection = nothing;
  current_prefix = [];
  object_filter = [];
  selected_keys = [];
  loading_buckets = true;
}

abbrev pub finished_with : App → Option BucketDeleteState → Result BucketDeleteStepResult → Outcome
finished_with app none result = (app, [])
finished_with app (some state) (ok (object_deleted label)) =
    cmd_process_next_bucket_delete_step (set_modal app (count_deleted label state))
finished_with app (some state) (ok (bucket_deleted bucket)) =
    if app.selected_bucket == some bucket
    then (deselected app, reset_view ∷ fetch_buckets ∷ [])
    else (record app { bucket_delete = none; loading_buckets = true }, fetch_buckets ∷ [])
finished_with app (some state) (err error) =
    if app.selected_bucket == some state.bucket
    then (
      record (stopped app state error) { loading_objects = true },
      fetch_buckets ∷ fetch_objects ∷ [],
    )
    else (record (stopped app state error) { loading_buckets = true }, fetch_buckets ∷ [])

unfoldable pub handle_bucket_delete_step_finished : Result BucketDeleteStepResult → App → Outcome
unfolding cmd_process_next_bucket_delete_step
handle_bucket_delete_step_finished result app = finished_with app app.bucket_delete result
