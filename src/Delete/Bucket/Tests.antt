-- ===== src/Delete/Bucket/Tests.antt =====
-- Runs of the modal that deletes a bucket (src/app/handlers/delete.rs).
use abixio_ui.Common.{true, false, none, some, [], ◌∷◌, ◌≡◌, refl, nat_eq, option_eq}
use abixio_ui.Common.Text.{Text, text, text_eq}
use abixio_ui.Common.Result.{ok}
use abixio_ui.Transfer.Types.{Selection}
use abixio_ui.Delete.Bucket.{
  App, delete_object, delete_bucket, object_deleted, opened, current_selected_bucket,
  handle_open_delete_bucket_modal, handle_close_delete_bucket_modal,
  handle_bucket_delete_preview_loaded, handle_bucket_delete_confirm_name_changed,
  handle_confirm_delete_bucket, handle_bucket_delete_step_finished, bucket_delete_can_start,
  cmd_process_next_bucket_delete_step,
}
use abixio_ui.Delete.Bucket.Reach.{Reach, InOrder}
use abixio_ui.Delete.Bucket.Order.{Reach-InOrder}

abbrev bucket : Text
bucket = b'b' ∷ []

abbrev key : Text
key = b'k' ∷ []

abbrev browser : App
browser = record {
  selection = Selection.bucket bucket;
  selected_bucket = some bucket;
  current_prefix = [];
  object_filter = [];
  selected_keys = [];
  bucket_delete = none;
  loading_buckets = false;
  loading_objects = false;
  error = none;
}

abbrev modal : App
modal = (handle_open_delete_bucket_modal browser).0

modal_test : modal.bucket_delete ≡ some (opened bucket)
unfolding handle_open_delete_bucket_modal current_selected_bucket
modal_test = refl

-- One object is listed, the name is typed, and the button is pressed.
abbrev ready : App
ready =
    handle_bucket_delete_confirm_name_changed bucket
      (handle_bucket_delete_preview_loaded bucket (ok (key ∷ [])) modal)

abbrev pressed : App
pressed = (handle_confirm_delete_bucket ready).0

abbrev emptied : App
emptied = (handle_bucket_delete_step_finished (ok (object_deleted key)) pressed).0

ready_run : Reach modal ready [] []
unfolding handle_open_delete_bucket_modal current_selected_bucket
ready_run = Reach.named bucket (Reach.preview_came bucket (ok (key ∷ [])) refl Reach.opened)

ready_test : bucket_delete_can_start ready ≡ true
unfolding bucket_delete_can_start handle_open_delete_bucket_modal current_selected_bucket
    handle_bucket_delete_preview_loaded handle_bucket_delete_confirm_name_changed text_eq nat_eq
ready_test = refl

pressed_run : Reach modal pressed [] (delete_object bucket key ∷ [])
unfolding handle_confirm_delete_bucket cmd_process_next_bucket_delete_step
    handle_open_delete_bucket_modal current_selected_bucket handle_bucket_delete_preview_loaded
    handle_bucket_delete_confirm_name_changed text_eq nat_eq
pressed_run = Reach.confirmed ready_test ready_run

emptied_run : Reach modal emptied (key ∷ []) (delete_bucket bucket ∷ [])
unfolding handle_bucket_delete_step_finished handle_confirm_delete_bucket
    cmd_process_next_bucket_delete_step handle_open_delete_bucket_modal current_selected_bucket
    handle_bucket_delete_preview_loaded handle_bucket_delete_confirm_name_changed text_eq nat_eq
emptied_run = Reach.object_gone pressed_run

Reach-InOrder_example : InOrder emptied.bucket_delete (key ∷ []) (delete_bucket bucket ∷ [])
Reach-InOrder_example =
    Reach-InOrder modal emptied (opened bucket) (key ∷ []) (delete_bucket bucket ∷ []) modal_test
      refl emptied_run

-- The name is edited while an object is deleted: no further step starts, and the modal counts as
-- deleting for good. Neither closing it nor typing the name again helps.
abbrev stuck : App
stuck =
    handle_bucket_delete_confirm_name_changed bucket
      (handle_bucket_delete_step_finished (ok (object_deleted key))
        (handle_bucket_delete_confirm_name_changed [] pressed)).0

stuck_test : bucket_delete_can_start (handle_close_delete_bucket_modal stuck) ≡ false
unfolding bucket_delete_can_start handle_close_delete_bucket_modal
    handle_bucket_delete_step_finished handle_confirm_delete_bucket
    cmd_process_next_bucket_delete_step handle_open_delete_bucket_modal current_selected_bucket
    handle_bucket_delete_preview_loaded handle_bucket_delete_confirm_name_changed text text_eq
    nat_eq
stuck_test = refl
