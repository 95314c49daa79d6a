-- ===== src/Delete/Bucket/Order.antt =====
-- The order in which the modal of src/app/handlers/delete.rs deletes a bucket's objects and the bucket.
use abixio_ui.Common.{
  suc, ◌+◌, true, not, ◌||◌, Option, none, some, List, [], ◌∷◌, ◌++◌, ◌≡◌, refl, sym, ap, ◌∙◌,
  arith, take, take-suc, take_all, get_elem?, Option-cases, Bool-cases, inl, inr, get_elem?-drop,
  get_elem?-none, ◌==◌, option_eq,
}
use abixio_ui.Common.Text.{Text, text_eq}
use abixio_ui.Common.Result.{Result, ok, err}
use abixio_ui.Delete.Bucket.{
  BucketDeleteState, object_deleted, bucket_deleted, App, BucketTask, list_objects, delete_object,
  delete_bucket, fetch_buckets, fetch_objects, reset_view, handle_bucket_delete_preview_loaded,
  handle_bucket_delete_confirm_name_changed, handle_confirm_delete_bucket,
  handle_bucket_delete_step_finished, process, finished_with, count_deleted, previewed,
  previewed_in, named_in, set_modal, cmd_process_next_bucket_delete_step,
}
use abixio_ui.Delete.Bucket.Reach.{
  Reach, opened, preview_came, named, confirmed, object_gone, bucket_gone, failed, steps,
  is_loading, IsNext, InOrder,
}

process-InOrder :
    (app : App) (state : BucketDeleteState) (deleted : List Text)
    → app.bucket_delete ≡ some state
    → InOrder (some state) deleted []
    → InOrder
        (process app (some state)).0.bucket_delete
        deleted
        (steps (process app (some state)).1)
process-InOrder app state deleted is (done, within, first, _) =
    elim (Bool-cases (state.preview_loading || not (state.confirm_name == state.bucket))) [
      | inl e ↦ rw (e, is) (done, within, first, tt)
      | inr e ↦ elim (Option-cases (get_elem? state.object_keys state.next_index)) [
        | inl none_left ↦
            let end = get_elem?-none state.object_keys state.next_index none_left in
            rw (e, none_left)
              (
                done,
                within,
                first,
                (refl, ground arith, done ∙ take_all state.next_index state.object_keys end),
              )
        | inr (key, at) ↦ rw (e, at) (done, within, first, (refl, ground arith, at))
      ]
    ]

count_deleted-InOrder :
    (state : BucketDeleteState) (deleted : List Text) (bucket key : Text)
    → InOrder (some state) deleted (delete_object bucket key ∷ [])
    → InOrder (some (count_deleted key state)) (deleted ++ key ∷ []) []
count_deleted-InOrder state deleted bucket key (done, within, first, (_, shown, at)) =
    let up : suc state.next_index ≡ state.next_index + 1 = omega arith in
    let inside = (get_elem?-drop state.object_keys state.next_index at).1 in
    (
      ap (λ l. l ++ key ∷ []) done
          ∙ sym (take-suc state.object_keys state.next_index at)
          ∙ ap (λ n. take n state.object_keys) up,
      omega arith,
      λ loading. ground arith,
      tt,
    )

-- While the preview is awaited no step is to come.
IsNext-loading :
    (state : BucketDeleteState) (deleted : List Text) (tasks : List BucketTask)
    → state.preview_loading ≡ true
    → IsNext state deleted tasks
    → tasks ≡ []
IsNext-loading state deleted [] loading next = refl
IsNext-loading state deleted (delete_object b k ∷ []) loading next = absurd (ground arith)
IsNext-loading state deleted (delete_bucket b ∷ []) loading next = absurd (ground arith)
IsNext-loading state deleted (list_objects b ∷ tasks) loading next = absurd next
IsNext-loading state deleted (fetch_buckets ∷ tasks) loading next = absurd next
IsNext-loading state deleted (fetch_objects ∷ tasks) loading next = absurd next
IsNext-loading state deleted (reset_view ∷ tasks) loading next = absurd next
IsNext-loading state deleted (delete_object b k ∷ _ ∷ tasks) loading next = absurd next
IsNext-loading state deleted (delete_bucket b ∷ _ ∷ tasks) loading next = absurd next

previewed-InOrder :
    (state : BucketDeleteState) (result : Result (List Text)) (deleted : List Text)
    (tasks : List BucketTask)
    → state.preview_loading ≡ true
    → InOrder (some state) deleted tasks
    → InOrder (some (previewed state result)) deleted tasks
previewed-InOrder state (ok keys) deleted tasks loading (done, within, first, next) =
    let start = first loading in
    rw (IsNext-loading state deleted tasks loading next) (
      done ∙ ap (λ n. take n state.object_keys) start ∙ ap (λ n. take n keys) (sym start),
      omega arith,
      λ _. start,
      tt,
    )
previewed-InOrder state (err e) deleted tasks loading (done, within, first, next) =
    rw (IsNext-loading state deleted tasks loading next) (done, within, λ _. first loading, tt)

previewed_in-InOrder :
    (app : App) (o : Option BucketDeleteState) (bucket : Text) (result : Result (List Text))
    (deleted : List Text) (tasks : List BucketTask)
    → app.bucket_delete ≡ o
    → is_loading o ≡ true
    → InOrder o deleted tasks
    → InOrder (previewed_in app o bucket result).bucket_delete deleted tasks
previewed_in-InOrder app none bucket result deleted tasks is loading h = rw is h
previewed_in-InOrder app (some state) bucket result deleted tasks is loading h =
    elim (Bool-cases (state.bucket == bucket)) [
      | inl e ↦ rw e (previewed-InOrder state result deleted tasks loading h)
      | inr e ↦ rw (e, is) h
    ]

named_in-InOrder :
    (app : App) (o : Option BucketDeleteState) (value : Text) (deleted : List Text)
    (tasks : List BucketTask)
    → app.bucket_delete ≡ o
    → InOrder o deleted tasks
    → InOrder (named_in app o value).bucket_delete deleted tasks
named_in-InOrder app none value deleted tasks is h = rw is h
named_in-InOrder app (some state) value deleted tasks is (done, within, first, next) =
    (done, within, first, renamed tasks next)
  where
    renamed :
        (tasks : List BucketTask)
        → IsNext state deleted tasks
        → IsNext (record state { confirm_name = value }) deleted tasks
    renamed [] next = tt
    renamed (delete_object b k ∷ []) next = next
    renamed (delete_bucket b ∷ []) next = next
    renamed (list_objects b ∷ tasks) next = next
    renamed (fetch_buckets ∷ tasks) next = next
    renamed (fetch_objects ∷ tasks) next = next
    renamed (reset_view ∷ tasks) next = next
    renamed (delete_object b k ∷ _ ∷ tasks) next = next
    renamed (delete_bucket b ∷ _ ∷ tasks) next = next

confirmed-InOrder :
    (app : App) (o : Option BucketDeleteState) (deleted : List Text)
    → app.bucket_delete ≡ o
    → InOrder o deleted []
    → InOrder (process app o).0.bucket_delete deleted (steps (process app o).1)
confirmed-InOrder app none deleted is h = rw is refl
confirmed-InOrder app (some state) deleted is h = process-InOrder app state deleted is h

object_gone-InOrder :
    (app : App) (o : Option BucketDeleteState) (deleted : List Text) (bucket key : Text)
    → app.bucket_delete ≡ o
    → InOrder o deleted (delete_object bucket key ∷ [])
    → InOrder
        (finished_with app o (ok (object_deleted key))).0.bucket_delete
        (deleted ++ key ∷ [])
        (steps (finished_with app o (ok (object_deleted key))).1)
unfolding cmd_process_next_bucket_delete_step
object_gone-InOrder app none deleted bucket key is h = cc
object_gone-InOrder app (some state) deleted bucket key is h =
    process-InOrder (set_modal app (count_deleted key state)) (count_deleted key state)
      (deleted ++ key ∷ []) refl (count_deleted-InOrder state deleted bucket key h)

bucket_gone-InOrder :
    (app : App) (o : Option BucketDeleteState) (deleted : List Text) (task : BucketTask)
    (bucket : Text)
    → InOrder o deleted (task ∷ [])
    → InOrder
        (finished_with app o (ok (bucket_deleted bucket))).0.bucket_delete
        deleted
        (steps (finished_with app o (ok (bucket_deleted bucket))).1)
bucket_gone-InOrder app none deleted task bucket h = cc
bucket_gone-InOrder app (some state) deleted task bucket h =
    elim (Bool-cases (app.selected_bucket == some bucket)) [ inl e ↦ rw e refl | inr e ↦ rw e refl ]

failed-InOrder :
    (app : App) (o : Option BucketDeleteState) (deleted : List Text) (task : BucketTask)
    (error : Text)
    → InOrder o deleted (task ∷ [])
    → InOrder
        (finished_with app o (err error)).0.bucket_delete
        deleted
        (steps (finished_with app o (err error)).1)
failed-InOrder app none deleted task error h = cc
failed-InOrder app (some state) deleted task error (done, within, first, next) =
    elim (Bool-cases (app.selected_bucket == some state.bucket)) [
      | inl e ↦ rw e (done, within, first, tt)
      | inr e ↦ rw e (done, within, first, tt)
    ]

-- From the opening of the modal on, the objects whose deletion succeeded are the listed ones before
-- the next, in order and each once; the step to come deletes the next, and it deletes the bucket only
-- after every listed object is gone.
pub Reach-InOrder :
    (start app : App) (state : BucketDeleteState) (deleted : List Text) (tasks : List BucketTask)
    → start.bucket_delete ≡ some state
    → state.next_index ≡ 0
    → Reach start app deleted tasks
    → InOrder app.bucket_delete deleted tasks
unfolding handle_bucket_delete_preview_loaded handle_bucket_delete_confirm_name_changed
    handle_confirm_delete_bucket handle_bucket_delete_step_finished
    cmd_process_next_bucket_delete_step
Reach-InOrder start app state deleted tasks is first opened =
    rw is (ap (λ n. take n state.object_keys) (sym first), omega arith, λ _. first, tt)
Reach-InOrder start app state deleted tasks is first
      (preview_came {app = app'} bucket result loading r) =
    previewed_in-InOrder app' app'.bucket_delete bucket result deleted tasks refl loading
      (Reach-InOrder start app' state deleted tasks is first r)
Reach-InOrder start app state deleted tasks is first (named {app = app'} value r) =
    named_in-InOrder app' app'.bucket_delete value deleted tasks refl
      (Reach-InOrder start app' state deleted tasks is first r)
Reach-InOrder start app state deleted tasks is first (confirmed {app = app'} ready r) =
    confirmed-InOrder app' app'.bucket_delete deleted refl
      (Reach-InOrder start app' state deleted [] is first r)
Reach-InOrder start app state deleted tasks is first
      (object_gone {app = app'} {deleted = deleted'} {bucket = b} {key = k} r) =
    object_gone-InOrder app' app'.bucket_delete deleted' b k refl
      (Reach-InOrder start app' state deleted' (delete_object b k ∷ []) is first r)
Reach-InOrder start app state deleted tasks is first (bucket_gone {app = app'} {bucket = b} r) =
    bucket_gone-InOrder app' app'.bucket_delete deleted (delete_bucket b) b
      (Reach-InOrder start app' state deleted (delete_bucket b ∷ []) is first r)
Reach-InOrder start app state deleted tasks is first (failed {app = app'} {task = task} error r) =
    failed-InOrder app' app'.bucket_delete deleted task error
      (Reach-InOrder start app' state deleted (task ∷ []) is first r)
