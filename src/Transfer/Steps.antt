-- ===== src/Transfer/Steps.antt =====
-- The handlers of a running transfer (src/app/handlers/transfer.rs): its items one after the other,
-- the results, the conflicts and their answers.
use abixio_ui.Common.{
  ◌+◌, Bool, true, false, ◌&&◌, Option, none, some, List, [], ◌∷◌, ◌++◌, if◌then◌else◌, ◌==◌,
  get_elem?,
}
use abixio_ui.Common.Text.{Text, text, text_eq}
use abixio_ui.Common.Number.{display}
use abixio_ui.Common.Result.{Result, ok, err}
use abixio_ui.Sync.State.{TransferEndpoint}
use abixio_ui.Sync.State.TransferEndpoint.{s3, local}
use abixio_ui.Transfer.Types.{
  TransferMode, move_object, export_prefix, OverwritePolicy, overwrite_all, skip_all, TransferItem,
  TransferStepResult, conflict, copied, skipped, TransferState, Connection, App, TransferTask, step,
  step_failed, fetch_objects, label, Outcome, with_transfer, set_transfer, current_connection,
  make_client_for_connection,
}

abbrev pub is_move_mode : TransferMode → Bool
is_move_mode move_object = true
is_move_mode _ = false

abbrev pub changes_objects : TransferMode → Bool
changes_objects export_prefix = false
changes_objects _ = true

abbrev done_summary : TransferState → Text
done_summary transfer =
    text "Done. Copied: "
    ++ display transfer.completed
    ++ text ". Skipped: "
    ++ display transfer.skipped
    ++ text ". Failed: "
    ++ display transfer.failed
    ++ text "."

abbrev pub finished : TransferState → TransferState
finished transfer = record transfer {
  running = false;
  pending_conflict = none;
  current_item = none;
  summary = some (done_summary transfer);
}

abbrev pub started : TransferState → TransferItem → TransferState
started transfer item = record transfer {
  running = true;
  pending_conflict = none;
  current_item = some (label item);
}

-- The counts after one item, by its result; and at the arrival of the items.
abbrev pub count_copied : Text → TransferState → TransferState
count_copied label transfer = record transfer {
  completed = transfer.completed + 1;
  next_index = transfer.next_index + 1;
  current_item = some label;
}

abbrev pub count_skipped : Text → TransferState → TransferState
count_skipped label transfer = record transfer {
  skipped = transfer.skipped + 1;
  next_index = transfer.next_index + 1;
  current_item = some label;
}

abbrev pub count_failed : TransferState → TransferState
count_failed transfer = record transfer {
  failed = transfer.failed + 1;
  next_index = transfer.next_index + 1;
}

abbrev pub receive : List TransferItem → TransferState → TransferState
receive items transfer = record transfer {
  preparing = false;
  items = items;
  next_index = 0;
  completed = 0;
  skipped = 0;
  failed = 0;
  running = true;
  pending_conflict = none;
  current_item = none;
}

abbrev pub report_failed : {Client : Type 0} → Text → App Client → TransferState → App Client
report_failed error app transfer = record app {
  transfer = some transfer;
  error = some (text "Transfer failed: " ++ error);
}

module _ {Client : Type 0} where
  abbrev pub conclude : App Client → TransferState → Outcome Client
  conclude app transfer =
      if changes_objects transfer.mode && transfer.destination_connection_id == current_connection
      then (
        record app { transfer = some (finished transfer); loading_objects = true },
        fetch_objects ∷ [],
      )
      else (set_transfer app (finished transfer), [])

abbrev pub step_with :
    {Client : Type 0}
    → Client
    → TransferItem
    → OverwritePolicy
    → Bool
    → Result Client
    → TransferTask Client
step_with client item policy is_move (ok destination) =
    step client (some destination) item policy is_move
step_with client item policy is_move (err error) = step_failed error

abbrev pub remembered : Bool → Bool → OverwritePolicy → OverwritePolicy
remembered true true policy = skip_all
remembered false true policy = overwrite_all
remembered skip false policy = policy

abbrev pub answered_by : Bool → Bool → TransferState → TransferState
answered_by skip remember transfer = record transfer {
  pending_conflict = none;
  overwrite_policy = remembered skip remember transfer.overwrite_policy;
}

module _ {Client : Type 0} (open_client : Connection → Result Client) where
  abbrev pub step_to :
      App Client → TransferItem → OverwritePolicy → Bool → TransferEndpoint → TransferTask Client
  step_to app item policy is_move (s3 id _ _) =
      step_with app.client item policy is_move (make_client_for_connection open_client app id)
  step_to app item policy is_move (local _) = step app.client none item policy is_move

  abbrev pub process_at : App Client → TransferState → Option TransferItem → Outcome Client
  process_at app transfer none = conclude app transfer
  process_at app transfer (some item) = (
    set_transfer app (started transfer item),
    step_to app item transfer.overwrite_policy (is_move_mode transfer.mode) item.destination ∷ [],
  )

  -- `transfer.items[transfer.next_index]`, behind the test that it is in range.
  unfoldable pub cmd_process_next_transfer_step : App Client → Outcome Client
  unfolding make_client_for_connection label
  cmd_process_next_transfer_step app =
      with_transfer app app.transfer
        λ transfer. process_at app transfer (get_elem? transfer.items transfer.next_index)

  abbrev pub prepared_with :
      App Client → TransferState → Result (List TransferItem) → Outcome Client
  prepared_with app transfer (ok []) = (
    set_transfer app (record (receive [] transfer) {
      running = false;
      summary = some (text "Nothing to copy.");
    }),
    [],
  )
  prepared_with app transfer (ok (item ∷ items)) =
      cmd_process_next_transfer_step (set_transfer app (receive (item ∷ items) transfer))
  prepared_with app transfer (err error) = (
    set_transfer app (record transfer {
      preparing = false;
      running = false;
      summary = some (text "Transfer preparation failed: " ++ error);
    }),
    [],
  )

  unfoldable pub handle_transfer_prepared : Result (List TransferItem) → App Client → Outcome Client
  unfolding cmd_process_next_transfer_step
  handle_transfer_prepared result app =
      with_transfer app app.transfer λ transfer. prepared_with app transfer result

  abbrev pub stepped_with : App Client → TransferState → Result TransferStepResult → Outcome Client
  stepped_with app transfer (ok (conflict item)) = (
    set_transfer app
        (record transfer { pending_conflict = some item; current_item = none; running = false }),
    [],
  )
  stepped_with app transfer (ok (copied label)) =
      cmd_process_next_transfer_step (set_transfer app (count_copied label transfer))
  stepped_with app transfer (ok (skipped label)) =
      cmd_process_next_transfer_step (set_transfer app (count_skipped label transfer))
  stepped_with app transfer (err error) =
      cmd_process_next_transfer_step (report_failed error app (count_failed transfer))

  unfoldable pub handle_transfer_step_finished :
      Result TransferStepResult → App Client → Outcome Client
  unfolding cmd_process_next_transfer_step
  handle_transfer_step_finished result app =
      with_transfer app app.transfer λ transfer. stepped_with app transfer result

  -- An answer to the conflict on the screen, which it takes away. An overwritten item is never
  -- moved: the last argument of the step is `false`.
  abbrev pub resolved_with :
      Bool → Bool → App Client → TransferState → Option TransferItem → Outcome Client
  resolved_with skip remember app transfer none = (app, [])
  resolved_with true remember app transfer (some item) =
      cmd_process_next_transfer_step
        (set_transfer app (count_skipped (label item) (answered_by true remember transfer)))
  resolved_with false remember app transfer (some item) = (
    set_transfer app (record (answered_by false remember transfer) { running = true }),
    step_to app item overwrite_all false item.destination ∷ [],
  )

  unfoldable pub resolve_transfer_conflict : Bool → Bool → App Client → Outcome Client
  unfolding cmd_process_next_transfer_step
  resolve_transfer_conflict skip remember app =
      with_transfer app app.transfer
        λ transfer. resolved_with skip remember app transfer transfer.pending_conflict

  unfoldable pub handle_transfer_conflict_overwrite : App Client → Outcome Client
  unfolding resolve_transfer_conflict
  handle_transfer_conflict_overwrite app = resolve_transfer_conflict false false app

  unfoldable pub handle_transfer_conflict_skip : App Client → Outcome Client
  unfolding resolve_transfer_conflict
  handle_transfer_conflict_skip app = resolve_transfer_conflict true false app

  unfoldable pub handle_transfer_conflict_overwrite_all : App Client → Outcome Client
  unfolding resolve_transfer_conflict
  handle_transfer_conflict_overwrite_all app = resolve_transfer_conflict false true app

  unfoldable pub handle_transfer_conflict_skip_all : App Client → Outcome Client
  unfolding resolve_transfer_conflict
  handle_transfer_conflict_skip_all app = resolve_transfer_conflict true true app
