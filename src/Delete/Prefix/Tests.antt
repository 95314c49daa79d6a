-- ===== src/Delete/Prefix/Tests.antt =====
-- A run of a deletion under a prefix (src/app/handlers/delete.rs).
use abixio_ui.Common.{false, none, some, List, [], ◌∷◌, ◌≡◌, refl}
use abixio_ui.Common.Text.{Text}
use abixio_ui.Common.Result.{ok}
use abixio_ui.Delete.{
  delete_objects, fetch_objects, handle_confirm_bulk_delete, handle_bulk_delete_batch_finished,
}
use abixio_ui.Delete.Prefix.{
  App, handle_open_prefix_delete_modal, handle_prefix_delete_list_loaded,
  handle_confirm_prefix_delete, handle_prefix_delete_batch_finished,
  cmd_process_next_prefix_delete_batch,
}
use abixio_ui.Delete.Prefix.Refinement.{
  as_app, seen, quiet, handle_prefix_delete_batch_finished_refines,
}

abbrev two_keys : List Text
two_keys = (b'p' ∷ b'1' ∷ []) ∷ (b'p' ∷ b'2' ∷ []) ∷ []

abbrev browser : App
browser = record {
  selected_bucket = some (b'c' ∷ []);
  selected_keys = [];
  prefix_delete = none;
  loading_objects = false;
  error = none;
}

abbrev listed : App
listed =
    handle_prefix_delete_list_loaded (ok two_keys)
      (handle_open_prefix_delete_modal (b'p' ∷ []) browser).0

abbrev pressed : App
pressed = (handle_confirm_prefix_delete listed).0

tasks_test : (handle_confirm_prefix_delete listed).1 ≡ delete_objects (b'c' ∷ []) two_keys ∷ []
unfolding handle_confirm_prefix_delete handle_prefix_delete_list_loaded
    handle_open_prefix_delete_modal cmd_process_next_prefix_delete_batch
tasks_test = refl

last_test : (handle_prefix_delete_batch_finished (ok 2) pressed).1 ≡ fetch_objects ∷ []
unfolding handle_prefix_delete_batch_finished handle_confirm_prefix_delete
    handle_prefix_delete_list_loaded handle_open_prefix_delete_modal
    cmd_process_next_prefix_delete_batch
last_test = refl

handle_prefix_delete_batch_finished_refines_example :
    (seen (handle_confirm_prefix_delete pressed)
      ≡ quiet (handle_confirm_bulk_delete (as_app pressed)))
    × (seen (handle_prefix_delete_batch_finished (ok 2) pressed)
        ≡ quiet (handle_bulk_delete_batch_finished (ok 2) (as_app pressed)))
handle_prefix_delete_batch_finished_refines_example =
    handle_prefix_delete_batch_finished_refines pressed (ok 2)
