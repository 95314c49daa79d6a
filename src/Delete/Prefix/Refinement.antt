-- ===== src/Delete/Prefix/Refinement.antt =====
-- The deletion under a prefix against the bulk deletion (both in src/app/handlers/delete.rs): a state of
-- the one, read as a state of the other.
use abixio_ui.Common.{ℕ, Option, none, some, ◌≡◌, refl, Bool-cases, inl, inr, ltb, length}
use abixio_ui.Common.Result.{Result, ok, err}
use abixio_ui.Delete.{
  BulkDeleteState, DeleteTask, handle_confirm_bulk_delete, handle_bulk_delete_batch_finished,
  cmd_process_next_bulk_delete_step,
}
use abixio_ui.Delete as Bulk
use abixio_ui.Delete.Prefix.{
  PrefixDeleteState, App, Outcome, process, finished_with, counted, handle_confirm_prefix_delete,
  handle_prefix_delete_batch_finished, cmd_process_next_prefix_delete_batch,
}

abbrev as_bulk : PrefixDeleteState → BulkDeleteState
as_bulk state = record {
  bucket = state.bucket;
  keys = state.keys;
  total = state.total;
  deleted = state.deleted;
  next_index = state.next_index;
  deleting = state.deleting;
  summary = state.summary;
}

abbrev pub forget : Option PrefixDeleteState → Option BulkDeleteState
forget none = none
forget (some state) = some (as_bulk state)

-- The texts of `App.error`, which differ, are left out.
abbrev pub as_app : App → Bulk.App
as_app app = record {
  selected_bucket = app.selected_bucket;
  selected_keys = app.selected_keys;
  bulk_delete = forget app.prefix_delete;
  loading_objects = app.loading_objects;
  error = none;
}

abbrev pub seen : Outcome → Bulk.Outcome
seen (app, tasks) = (as_app app, tasks)

abbrev pub quiet : Bulk.Outcome → Bulk.Outcome
quiet (app, tasks) = (record app { error = none }, tasks)

-- `as_app` of a state that has been taken out of its app.
abbrev seen_in : App → Option PrefixDeleteState → Bulk.App
seen_in app o = record (as_app app) { bulk_delete = forget o }

process_refines :
    (app : App) (o : Option PrefixDeleteState)
    → app.prefix_delete ≡ o
    → seen (process app o) ≡ quiet (Bulk.process (seen_in app o) (forget o))
process_refines app none is = rw is refl
process_refines app (some state) is = elim (Bool-cases (ltb state.next_index (length state.keys))) [
  | inl e ↦ rw e refl
  | inr e ↦ rw e refl
]

finished_with_refines :
    (app : App) (o : Option PrefixDeleteState) (result : Result ℕ)
    → app.prefix_delete ≡ o
    → seen (finished_with app o result)
      ≡ quiet (Bulk.finished_with (seen_in app o) (forget o) result)
unfolding cmd_process_next_prefix_delete_batch cmd_process_next_bulk_delete_step
finished_with_refines app none result is = rw is refl
finished_with_refines app (some state) (ok count) is =
    process_refines (record app { prefix_delete = some (counted state count) })
      (some (counted state count)) refl
finished_with_refines app (some state) (err e) is = refl

-- The two handlers that work a prefix deletion off do what those of the bulk deletion do on the same
-- keys: the same tasks and the same state, but for the texts of `App.error`.
pub handle_prefix_delete_batch_finished_refines :
    (app : App) (result : Result ℕ)
    → (seen (handle_confirm_prefix_delete app) ≡ quiet (handle_confirm_bulk_delete (as_app app)))
      × (seen (handle_prefix_delete_batch_finished result app)
          ≡ quiet (handle_bulk_delete_batch_finished result (as_app app)))
unfolding handle_confirm_prefix_delete handle_confirm_bulk_delete
    handle_prefix_delete_batch_finished handle_bulk_delete_batch_finished
    cmd_process_next_prefix_delete_batch cmd_process_next_bulk_delete_step
handle_prefix_delete_batch_finished_refines app result = (
  process_refines app app.prefix_delete refl,
  finished_with_refines app app.prefix_delete result refl,
)
