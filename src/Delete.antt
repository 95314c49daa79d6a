-- ===== src/Delete.antt =====
-- The screens that delete the selected objects (src/app/handlers/delete.rs): the parts of `App` that
-- they change, and the handlers of the bulk deletion. Each handler returns the new state and the
-- tasks that it starts.
pub mod Batches
pub mod Bucket
pub mod Prefix
mod Tests
use Prim.Native.Nat.{min}
use abixio_ui.Common.{
  ℕ, ◌+◌, ◌-◌, Bool, true, false, Option, none, some, List, [], ◌∷◌, ◌++◌, if◌then◌else◌, ltb,
  length, take, drop, is_empty,
}
use abixio_ui.Common.Text.{Text, text}
use abixio_ui.Common.Number.{display}
use abixio_ui.Common.Result.{Result, ok, err}

pub record BulkDeleteState : Type 0 where
  pub bucket : Text
  pub keys : List Text
  pub total : ℕ
  pub deleted : ℕ
  pub next_index : ℕ
  pub deleting : Bool
  pub summary : Option Text

-- `selected_keys` is a set, as the list that its iteration yields.
pub record App : Type 0 where
  pub selected_bucket : Option Text
  pub selected_keys : List Text
  pub bulk_delete : Option BulkDeleteState
  pub loading_objects : Bool
  pub error : Option Text

pub data DeleteTask : Type 0 where
  delete_objects : (bucket : Text) (keys : List Text) → DeleteTask
  fetch_objects : DeleteTask

abbrev pub Outcome : Type 0
Outcome = App × List DeleteTask

abbrev open_in : App → Option Text → App
open_in app none = app
open_in app (some bucket) = if is_empty app.selected_keys then app else record app {
  bulk_delete = some (record {
    bucket = bucket;
    keys = app.selected_keys;
    total = length app.selected_keys;
    deleted = 0;
    next_index = 0;
    deleting = false;
    summary = none;
  });
}

unfoldable pub handle_open_bulk_delete_modal : App → App
handle_open_bulk_delete_modal app = open_in app app.selected_bucket

unfoldable pub handle_close_bulk_delete_modal : App → App
handle_close_bulk_delete_modal app = record app { bulk_delete = none }

abbrev pub process : App → Option BulkDeleteState → Outcome
process app none = (app, [])
process app (some state) =
    if ltb state.next_index (length state.keys)
    then (
      record app {
        bulk_delete = some (record state {
          deleting = true;
          next_index = min (state.next_index + 1000) (length state.keys);
        });
      },
      delete_objects state.bucket (
            take (min (state.next_index + 1000) (length state.keys) - state.next_index)
              (drop state.next_index state.keys))
          ∷ [],
    )
    else (
      record app {
        bulk_delete = none;
        selected_keys = [];
        loading_objects = true;
        error = some (
            text "Deleted "
            ++ display state.deleted
            ++ text " of "
            ++ display state.total
            ++ text " objects");
      },
      fetch_objects ∷ [],
    )

unfoldable pub cmd_process_next_bulk_delete_step : App → Outcome
cmd_process_next_bulk_delete_step app = process app app.bulk_delete

unfoldable pub handle_confirm_bulk_delete : App → Outcome
unfolding cmd_process_next_bulk_delete_step
handle_confirm_bulk_delete app = cmd_process_next_bulk_delete_step app

abbrev progress : BulkDeleteState → Text
progress state = display state.deleted ++ text "/" ++ display state.total

abbrev pub counted : BulkDeleteState → ℕ → BulkDeleteState
counted state count =
    let state' = record state { deleted = state.deleted + count } in
    record state' { summary = some (text "Deleting: " ++ progress state' ++ text " done") }

abbrev pub finished_with : App → Option BulkDeleteState → Result ℕ → Outcome
finished_with app none result = (app, [])
finished_with app (some state) (ok count) =
    cmd_process_next_bulk_delete_step (record app { bulk_delete = some (counted state count) })
finished_with app (some state) (err error) = (
  record app {
    bulk_delete = some (record state {
      deleting = false;
      summary = some (text "Stopped after " ++ progress state ++ text ": " ++ error);
    });
    error = some (text "Bulk delete failed: " ++ error);
  },
  [],
)

unfoldable pub handle_bulk_delete_batch_finished : Result ℕ → App → Outcome
unfolding cmd_process_next_bulk_delete_step
handle_bulk_delete_batch_finished result app = finished_with app app.bulk_delete result
