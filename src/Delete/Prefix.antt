-- ===== src/Delete/Prefix.antt =====
-- The modal that deletes what lies under a prefix (src/app/handlers/delete.rs): its state, the parts of
-- `App` that its handlers read and change, and the tasks that they start.
pub mod Refinement
mod Tests
use Prim.Native.Nat.{min}
use abixio_ui.Common.{
  ℕ, ◌+◌, ◌-◌, Bool, true, false, Option, none, some, List, [], ◌∷◌, ◌++◌, if◌then◌else◌, ltb,
  length, take, drop,
}
use abixio_ui.Common.Text.{Text, text}
use abixio_ui.Common.Number.{display}
use abixio_ui.Common.Result.{Result, ok, err}
use abixio_ui.Delete.{DeleteTask, delete_objects, fetch_objects}

pub record PrefixDeleteState : Type 0 where
  pub bucket : Text
  pub prefix : Text
  pub keys : List Text
  pub loading : Bool
  pub total : ℕ
  pub deleted : ℕ
  pub next_index : ℕ
  pub deleting : Bool
  pub summary : Option Text

pub record App : Type 0 where
  pub selected_bucket : Option Text
  pub selected_keys : List Text
  pub prefix_delete : Option PrefixDeleteState
  pub loading_objects : Bool
  pub error : Option Text

-- The listing of a prefix, by which the modal opens.
pub data ListTask : Type 0 where
  list_objects_recursive : (bucket prefix : Text) → ListTask

abbrev pub Outcome : Type 0
Outcome = App × List DeleteTask

abbrev open_in : App → Option Text → Text → App × List ListTask
open_in app none prefix = (app, [])
open_in app (some bucket) prefix = (
  record app {
    prefix_delete = some (record {
      bucket = bucket;
      prefix = prefix;
      keys = [];
      loading = true;
      total = 0;
      deleted = 0;
      next_index = 0;
      deleting = false;
      summary = none;
    });
  },
  list_objects_recursive bucket prefix ∷ [],
)

unfoldable pub handle_open_prefix_delete_modal : Text → App → App × List ListTask
handle_open_prefix_delete_modal prefix app = open_in app app.selected_bucket prefix

unfoldable pub handle_close_prefix_delete_modal : App → App
handle_close_prefix_delete_modal app = record app { prefix_delete = none }

abbrev listed : PrefixDeleteState → Result (List Text) → PrefixDeleteState
listed state (ok keys) = record state { loading = false; total = length keys; keys = keys }
listed state (err e) = record state {
  loading = false;
  summary = some (text "Failed to list: " ++ e);
}

abbrev listed_in : App → Option PrefixDeleteState → Result (List Text) → App
listed_in app none result = app
listed_in app (some state) result = record app { prefix_delete = some (listed state result) }

unfoldable pub handle_prefix_delete_list_loaded : Result (List Text) → App → App
handle_prefix_delete_list_loaded result app = listed_in app app.prefix_delete result

abbrev pub process : App → Option PrefixDeleteState → Outcome
process app none = (app, [])
process app (some state) =
    if ltb state.next_index (length state.keys)
    then (
      record app {
        prefix_delete = some (record state {
          deleting = true;
          next_index = min (state.next_index + 1000) (length state.keys);
        });
      },
      delete_objects state.bucket (
            take (min (state.next_index + 1000) (length state.keys) - state.next_index)
              (drop state.next_index state.keys))
          ∷ [],
    )
    else (
      record app {
        prefix_delete = none;
        selected_keys = [];
        loading_objects = true;
        error = some (
            text "Deleted "
            ++ display state.deleted
            ++ text " of "
            ++ display state.total
            ++ text " objects under prefix");
      },
      fetch_objects ∷ [],
    )

unfoldable pub cmd_process_next_prefix_delete_batch : App → Outcome
cmd_process_next_prefix_delete_batch app = process app app.prefix_delete

unfoldable pub handle_confirm_prefix_delete : App → Outcome
unfolding cmd_process_next_prefix_delete_batch
handle_confirm_prefix_delete app = cmd_process_next_prefix_delete_batch app

abbrev progress : PrefixDeleteState → Text
progress state = display state.deleted ++ text "/" ++ display state.total

abbrev pub counted : PrefixDeleteState → ℕ → PrefixDeleteState
counted state count =
    let state' = record state { deleted = state.deleted + count } in
    record state' { summary = some (text "Deleting: " ++ progress state' ++ text " done") }

abbrev pub finished_with : App → Option PrefixDeleteState → Result ℕ → Outcome
finished_with app none result = (app, [])
finished_with app (some state) (ok count) =
    cmd_process_next_prefix_delete_batch (record app { prefix_delete = some (counted state count) })
finished_with app (some state) (err error) = (
  record app {
    prefix_delete = some (record state {
      deleting = false;
      summary = some (text "Stopped after " ++ progress state ++ text ": " ++ error);
    });
    error = some (text "Prefix delete failed: " ++ error);
  },
  [],
)

unfoldable pub handle_prefix_delete_batch_finished : Result ℕ → App → Outcome
unfolding cmd_process_next_prefix_delete_batch
handle_prefix_delete_batch_finished result app = finished_with app app.prefix_delete result
