-- ===== src/Delete/Tests.antt =====
-- A run of a bulk deletion of two objects (src/app/handlers/delete.rs).
use abixio_ui.Common.{false, none, some, List, [], ◌∷◌, ◌++◌, ◌≡◌, refl}
use abixio_ui.Common.Text.{Text}
use abixio_ui.Common.Result.{ok}
use abixio_ui.Delete.{
  App, BulkDeleteState, DeleteTask, handle_open_bulk_delete_modal, handle_confirm_bulk_delete,
  handle_bulk_delete_batch_finished,
}
use abixio_ui.Delete.Batches.{Reach, Handled, Reach-Handled}

abbrev two_keys : List Text
two_keys = (b'a' ∷ []) ∷ (b'b' ∷ []) ∷ []

abbrev two_selected : App
two_selected = record {
  selected_bucket = some (b'c' ∷ []);
  selected_keys = two_keys;
  bulk_delete = none;
  loading_objects = false;
  error = none;
}

abbrev two_opened : BulkDeleteState
two_opened = record {
  bucket = b'c' ∷ [];
  keys = two_keys;
  total = 2;
  deleted = 0;
  next_index = 0;
  deleting = false;
  summary = none;
}

abbrev modal : App
modal = handle_open_bulk_delete_modal two_selected

modal_opened : modal.bulk_delete ≡ some two_opened
unfolding handle_open_bulk_delete_modal
modal_opened = refl

-- The modal after its button was pressed, and after the only batch was deleted.
abbrev pressed : App
pressed = (handle_confirm_bulk_delete modal).0

abbrev done : App
done = (handle_bulk_delete_batch_finished (ok 2) pressed).0

abbrev done_tasks : List DeleteTask
done_tasks =
    ([] ++ (handle_confirm_bulk_delete modal).1)
    ++ (handle_bulk_delete_batch_finished (ok 2) pressed).1

tasks_test :
    done_tasks ≡ DeleteTask.delete_objects (b'c' ∷ []) two_keys ∷ DeleteTask.fetch_objects ∷ []
unfolding handle_open_bulk_delete_modal handle_confirm_bulk_delete handle_bulk_delete_batch_finished
tasks_test = refl

both_deleted : Reach modal done done_tasks
both_deleted = Reach.finished (Reach.confirmed Reach.opened) (ok 2)

Reach-Handled_example : Handled two_keys done.bulk_delete done_tasks
Reach-Handled_example = Reach-Handled two_opened modal_opened refl both_deleted
