-- ===== src/Delete/Bucket/Reach.antt =====
-- What the modal that deletes a bucket reaches (src/app/handlers/delete.rs).
use abixio_ui.Common.{
  ◌≤◌, Bool, true, false, Option, none, some, List, [], ◌∷◌, ◌++◌, ◌≡◌, length, take, get_elem?,
  option_eq,
}
use abixio_ui.Common.Text.{Text, text_eq}
use abixio_ui.Common.Result.{Result, ok, err}
use abixio_ui.Delete.Bucket.{
  BucketDeleteState, object_deleted, bucket_deleted, App, BucketTask, delete_object, delete_bucket,
  handle_bucket_delete_preview_loaded, handle_bucket_delete_confirm_name_changed,
  bucket_delete_can_start, handle_confirm_delete_bucket, handle_bucket_delete_step_finished,
}

-- The steps among the tasks of a handler.
abbrev pub steps : List BucketTask → List BucketTask
steps [] = []
steps (delete_object b k ∷ tasks) = delete_object b k ∷ steps tasks
steps (delete_bucket b ∷ tasks) = delete_bucket b ∷ steps tasks
steps (_ ∷ tasks) = steps tasks

abbrev pub is_loading : Option BucketDeleteState → Bool
is_loading none = false
is_loading (some state) = state.preview_loading

-- What an opened modal reaches: the app, the keys whose deletion succeeded, and the step whose
-- result is still to come. The preview arrives while it is awaited, the name may change at any time,
-- the button works where it is enabled, and a step succeeds or fails.
pub data Reach (start : App) : App → List Text → List BucketTask → Type 0 where
  opened : Reach start start [] []
  preview_came :
      {app : App} {deleted : List Text} {tasks : List BucketTask} (bucket : Text)
      (result : Result (List Text))
      → is_loading app.bucket_delete ≡ true
      → Reach start app deleted tasks
      → Reach start (handle_bucket_delete_preview_loaded bucket result app) deleted tasks
  named :
      {app : App} {deleted : List Text} {tasks : List BucketTask} (value : Text)
      → Reach start app deleted tasks
      → Reach start (handle_bucket_delete_confirm_name_changed value app) deleted tasks
  confirmed :
      {app : App} {deleted : List Text}
      → bucket_delete_can_start app ≡ true
      → Reach start app deleted []
      → Reach start
          (handle_confirm_delete_bucket app).0
          deleted
          (steps (handle_confirm_delete_bucket app).1)
  object_gone :
      {app : App} {deleted : List Text} {bucket key : Text}
      → Reach start app deleted (delete_object bucket key ∷ [])
      → Reach start
          (handle_bucket_delete_step_finished (ok (object_deleted key)) app).0
          (deleted ++ key ∷ [])
          (steps (handle_bucket_delete_step_finished (ok (object_deleted key)) app).1)
  bucket_gone :
      {app : App} {deleted : List Text} {bucket : Text}
      → Reach start app deleted (delete_bucket bucket ∷ [])
      → Reach start
          (handle_bucket_delete_step_finished (ok (bucket_deleted bucket)) app).0
          deleted
          (steps (handle_bucket_delete_step_finished (ok (bucket_deleted bucket)) app).1)
  failed :
      {app : App} {deleted : List Text} {task : BucketTask} (error : Text)
      → Reach start app deleted (task ∷ [])
      → Reach start
          (handle_bucket_delete_step_finished (err error) app).0
          deleted
          (steps (handle_bucket_delete_step_finished (err error) app).1)

-- The step to come deletes the next key; the bucket, only when no key is left.
abbrev pub IsNext : BucketDeleteState → List Text → List BucketTask → Type 0
IsNext state deleted [] = Unit
IsNext state deleted (delete_object b k ∷ []) =
    (b ≡ state.bucket)
    × (state.preview_loading ≡ false)
    × (get_elem? state.object_keys state.next_index ≡ some k)
IsNext state deleted (delete_bucket b ∷ []) =
    (b ≡ state.bucket) × (state.preview_loading ≡ false) × (deleted ≡ state.object_keys)
IsNext state deleted _ = ⊥

-- The keys deleted are those before the next, each once.
abbrev pub InOrder : Option BucketDeleteState → List Text → List BucketTask → Type 0
InOrder none deleted tasks = tasks ≡ []
InOrder (some state) deleted tasks =
    (deleted ≡ take state.next_index state.object_keys)
    × (state.next_index ≤ length state.object_keys)
    × (state.preview_loading ≡ true → state.next_index ≡ 0)
    × IsNext state deleted tasks
