-- ===== src/Delete/Batches.antt =====
-- The batches of a bulk deletion (`cmd_process_next_bulk_delete_step` and the handlers that call it,
-- src/app/handlers/delete.rs).
use mathlib.Core.Path.{subst}
use mathlib.Core.List.{append-nil, append_assoc}
use Prim.Native.Nat.{min}
use abixio_ui.Common.{
  ℕ, ◌+◌, ◌-◌, ◌≤◌, true, Option, none, some, List, [], ◌∷◌, ◌++◌, ◌≡◌, refl, sym, ◌∙◌, ap, arith,
  ltb, length, take, drop, take-add, take_all, length-take, All, All-append, Bool-cases, inl, inr,
}
use abixio_ui.Common.Text.{Text}
use abixio_ui.Common.Result.{Result, ok, err}
use abixio_ui.Delete.{
  App, BulkDeleteState, DeleteTask, delete_objects, fetch_objects, process, finished_with, counted,
  cmd_process_next_bulk_delete_step, handle_confirm_bulk_delete, handle_bulk_delete_batch_finished,
}

-- The states that an open bulk deletion reaches, with the tasks so far: its button is pressed, and
-- batches finish with any result.
pub data Reach (start : App) : App → List DeleteTask → Type 0 where
  opened : Reach start start []
  confirmed :
      {app : App} {tasks : List DeleteTask}
      → Reach start app tasks
      → Reach start (handle_confirm_bulk_delete app).0 (tasks ++ (handle_confirm_bulk_delete app).1)
  finished :
      {app : App} {tasks : List DeleteTask}
      → Reach start app tasks
      → (result : Result ℕ)
      → Reach start
          (handle_bulk_delete_batch_finished result app).0
          (tasks ++ (handle_bulk_delete_batch_finished result app).1)

-- The keys that the tasks delete, in order.
abbrev pub handed : List DeleteTask → List Text
handed [] = []
handed (delete_objects bucket keys ∷ tasks) = keys ++ handed tasks
handed (fetch_objects ∷ tasks) = handed tasks

abbrev pub IsSmall : DeleteTask → Type 0
IsSmall (delete_objects bucket keys) = length keys ≤ 1000
IsSmall fetch_objects = Unit

handed-append : (xs ys : List DeleteTask) → handed (xs ++ ys) ≡ handed xs ++ handed ys
handed-append [] ys = refl
handed-append (delete_objects bucket keys ∷ xs) ys =
    rw (handed-append xs ys) (sym (append_assoc keys (handed xs) (handed ys)))
handed-append (fetch_objects ∷ xs) ys = handed-append xs ys

-- The tasks so far delete the keys before the next one; those of a deletion that is over, all keys.
abbrev pub Handled : List Text → Option BulkDeleteState → List DeleteTask → Type 0
Handled keys none tasks = (handed tasks ≡ keys) × All IsSmall tasks
Handled keys (some state) tasks =
    (handed tasks ≡ take state.next_index keys)
    × All IsSmall tasks
    × (state.keys ≡ keys)
    × (state.next_index ≤ length keys)

-- The next batch, from a state that has keys left.
batch-Handled :
    (state state' : BulkDeleteState) (tasks : List DeleteTask) (end : ℕ)
    → state.next_index ≤ end
    → end ≤ length state.keys
    → end ≤ state.next_index + 1000
    → state'.keys ≡ state.keys
    → state'.next_index ≡ end
    → Handled state.keys (some state) tasks
    → Handled state.keys (some state') (
        tasks
        ++ delete_objects state.bucket
            (take (end - state.next_index) (drop state.next_index state.keys))
          ∷ [])
batch-Handled state state' tasks end from within room same at (done, small, _, _) =
    let count = end - state.next_index in
    let batch = take count (drop state.next_index state.keys) in
    let next : state.next_index + count ≡ end = omega arith in
    (
      handed-append tasks (delete_objects state.bucket batch ∷ [])
          ∙ ap (λ l. l ++ (batch ++ [])) done
          ∙ rw (append-nil batch)
              (sym (take-add state.next_index count state.keys) ∙ rw (next, at) refl),
      All-append IsSmall tasks _ small
          (omega (arith, length-take count (drop state.next_index state.keys)), tt),
      same,
      omega arith,
    )

process-Handled-some :
    (app : App) (state : BulkDeleteState) (tasks : List DeleteTask)
    → Handled state.keys (some state) tasks
    → Handled state.keys
        (process app (some state)).0.bulk_delete
        (tasks ++ (process app (some state)).1)
process-Handled-some app state tasks h =
    elim (Bool-cases (ltb state.next_index (length state.keys))) [
      | inl e ↦ rw e (
          batch-Handled state
            (record state {
              deleting = true;
              next_index = min (state.next_index + 1000) (length state.keys);
            })
            tasks (min (state.next_index + 1000) (length state.keys)) (ground arith) (omega arith)
            (omega arith) refl refl h)
      | inr e ↦ rw e (
        handed-append tasks (fetch_objects ∷ [])
            ∙ append-nil (handed tasks)
            ∙ h.0
            ∙ take_all state.next_index state.keys (ground arith),
        All-append IsSmall tasks _ h.1 (tt, tt),
      )
    ]

process-Handled :
    (keys : List Text) (app : App) (o : Option BulkDeleteState) (tasks : List DeleteTask)
    → app.bulk_delete ≡ o
    → Handled keys o tasks
    → Handled keys (process app o).0.bulk_delete (tasks ++ (process app o).1)
process-Handled keys app none tasks is h = rw (is, append-nil tasks) h
process-Handled keys app (some state) tasks is h =
    subst
      (λ keys.
        Handled keys (some state) tasks
        → Handled keys (process app (some state)).0.bulk_delete
            (tasks ++ (process app (some state)).1))
      h.2 (process-Handled-some app state tasks) h

finished_with-Handled :
    (keys : List Text) (app : App) (o : Option BulkDeleteState) (result : Result ℕ)
    (tasks : List DeleteTask)
    → app.bulk_delete ≡ o
    → Handled keys o tasks
    → Handled keys
        (finished_with app o result).0.bulk_delete
        (tasks ++ (finished_with app o result).1)
unfolding cmd_process_next_bulk_delete_step
finished_with-Handled keys app none result tasks is h = rw (is, append-nil tasks) h
finished_with-Handled keys app (some state) (ok count) tasks is h =
    process-Handled keys (record app { bulk_delete = some (counted state count) })
      (some (counted state count)) tasks refl h
finished_with-Handled keys app (some state) (err error) tasks is h = rw (append-nil tasks) h

-- Whatever a bulk deletion reaches from its opening, its tasks delete the keys before the next one,
-- in order and each once, in batches of at most a thousand; and when it is over, all its keys.
pub Reach-Handled :
    {start app : App} {tasks : List DeleteTask} (state : BulkDeleteState)
    → start.bulk_delete ≡ some state
    → state.next_index ≡ 0
    → Reach start app tasks
    → Handled state.keys app.bulk_delete tasks
unfolding handle_confirm_bulk_delete handle_bulk_delete_batch_finished
    cmd_process_next_bulk_delete_step
Reach-Handled state is first opened = rw (is, first) (refl, tt, refl, omega arith)
Reach-Handled state is first (confirmed {app = app} {tasks = tasks} r) =
    process-Handled state.keys app app.bulk_delete tasks refl (Reach-Handled state is first r)
Reach-Handled state is first (finished {app = app} {tasks = tasks} r result) =
    finished_with-Handled state.keys app app.bulk_delete result tasks refl
      (Reach-Handled state is first r)
