-- ===== src/Transfer/Tests.antt =====
-- Runs of transfers (src/app/handlers/transfer.rs, src/app/transfer_ops.rs) on a storage in memory.
use abixio_ui.Common.{
  ℕ, ◌+◌, ◌*◌, ◌≤◌, true, false, none, some, List, [], ◌∷◌, ◌≡◌, ◌≢◌, refl, nat_eq, if◌then◌else◌,
  ◌==◌,
}
use abixio_ui.Common.Text.{Text, text, text_eq}
use abixio_ui.Common.Result.{Result, ok}
use abixio_ui.Transfer.Types.{
  TransferMode, ask, TransferItem, TransferStepResult, conflict, copied, TransferState, Connection,
  Selection, App, TransferTask, step, prepared, label, current_connection,
  make_client_for_connection, current_selected_object, current_connection_id,
}
use abixio_ui.Transfer.Starting.{handle_start_transfer, transfer_can_start}
use abixio_ui.Transfer.Modal.{
  handle_open_copy_object, handle_transfer_destination_key_changed, opened,
}
use abixio_ui.Transfer.Steps.{
  handle_transfer_prepared, handle_transfer_step_finished, resolve_transfer_conflict,
  cmd_process_next_transfer_step,
}
use abixio_ui.Sync.State.TransferEndpoint.{s3, local}
use abixio_ui.Transfer.Prepare.{prepare_export_items}
use abixio_ui.Transfer.Storage.{remote, file}
use abixio_ui.Transfer.Work.{run_transfer_step}
use abixio_ui.Transfer.Memory.{World, put, memory, memory-IsLawful, codes_dec}
use abixio_ui.Transfer.Moves.{
  between, Survives, Lost, run_transfer_step-survives, run_transfer_step-Lost,
}
use abixio_ui.Transfer.Start.{opened_for, handle_start_transfer-opened}
use abixio_ui.Transfer.Reach.{Reach, Following}
use abixio_ui.Transfer.Follows.{Reach-Following}
use abixio_ui.Transfer.Left.{messages_left}
use abixio_ui.Transfer.Messages.{results, Reach-results}
use abixio_ui.Transfer.Careful.{Reach-content, Skips, Notices}

abbrev bucket : Text
bucket = b'b' ∷ []

abbrev key : Text
key = b'k' ∷ []

abbrev other : Text
other = b'k' ∷ b'2' ∷ []

abbrev nothing_there : World
nothing_there p = none

-- One object on the first server.
abbrev one_object : World
one_object = put (remote 1 bucket key) (some (b'x' ∷ [])) nothing_there

-- Its copy and a file beside it.
abbrev two_objects : World
two_objects =
    put (file other) (some (b'y' ∷ [])) (put (remote 1 bucket other) (some (b'z' ∷ [])) one_object)

abbrev copy_item : TransferItem
copy_item = between current_connection bucket key current_connection bucket other

moved_test :
    (run_transfer_step memory 1 (some 1) copy_item ask true one_object).1 (remote 1 bucket other)
    ≡ some (b'x' ∷ [])
unfolding run_transfer_step memory put codes_dec text_eq nat_eq
moved_test = refl

run_transfer_step-survives_example :
    Survives memory memory-IsLawful
      (remote 1 bucket key)
      (remote 1 bucket other)
      one_object
      (run_transfer_step memory 1 (some 1) copy_item ask true one_object).1
run_transfer_step-survives_example =
    run_transfer_step-survives memory memory-IsLawful 1 current_connection bucket key
      current_connection bucket other ask true one_object (λ e. cc)

abbrev away : TransferItem
away = between current_connection bucket key other bucket key

away_copied :
    (run_transfer_step memory 1 (some 2) away ask true one_object).0 ≡ ok (copied (label away))
unfolding run_transfer_step memory put codes_dec text_eq nat_eq
away_copied = refl

run_transfer_step-Lost_example :
    Lost memory memory-IsLawful 1 2 bucket key one_object
      (run_transfer_step memory 1 (some 2) away ask true one_object).1
run_transfer_step-Lost_example =
    run_transfer_step-Lost memory memory-IsLawful 1 2 current_connection other bucket key
      (label away) ask one_object (λ e. cc) away_copied

-- A client of the second server for every other connection.
abbrev open_client : Connection → Result ℕ
open_client connection = ok 2

abbrev browser : App ℕ
browser = record {
  client = 1;
  selection = Selection.object bucket key;
  buckets = none;
  selected_bucket = some bucket;
  current_prefix = [];
  loading_objects = false;
  error = none;
  connections = [];
  active_connection = none;
  transfer = none;
}

-- The modal of a copy, with its destination typed.
abbrev modal : App ℕ
modal =
    handle_transfer_destination_key_changed other (handle_open_copy_object open_client browser).0

abbrev modal_state : TransferState
modal_state = record (opened TransferMode.copy_object current_connection bucket other) {
  source_bucket = some bucket;
  source_key = some key;
}

modal_test : modal.transfer ≡ some modal_state
unfolding handle_transfer_destination_key_changed handle_open_copy_object current_connection_id
    current_selected_object text text_eq
modal_test = refl

start_test : (handle_start_transfer modal).1 ≡ prepared (copy_item ∷ []) ∷ []
unfolding handle_start_transfer transfer_can_start handle_transfer_destination_key_changed
    handle_open_copy_object current_connection_id current_selected_object text text_eq nat_eq
start_test = refl

-- The same browser, on a saved connection.
abbrev saved : App ℕ
saved = record browser { active_connection = some other }

saved_selected : current_selected_object saved ≡ some (bucket, key)
unfolding current_selected_object
saved_selected = refl

handle_start_transfer-opened_example :
    (handle_start_transfer (opened_for open_client (ok []) saved)).1 ≡ (
      if current_connection_id saved == current_connection
      then []
      else prepared
          (between current_connection bucket key (current_connection_id saved) bucket key ∷ [])
        ∷ [])
handle_start_transfer-opened_example =
    handle_start_transfer-opened open_client saved bucket key (ok []) saved_selected (λ e. cc)
      (λ e. cc)

abbrev started : App ℕ
started = (handle_start_transfer modal).0

abbrev started_state : TransferState
started_state = record modal_state { preparing = true }

started_test : started.transfer ≡ some started_state
unfolding handle_start_transfer transfer_can_start handle_transfer_destination_key_changed
    handle_open_copy_object current_connection_id current_selected_object text text_eq nat_eq
started_test = refl

-- The object is copied to a new key, and then to one that is taken: the second step asks.
abbrev fresh : Text
fresh = b'k' ∷ b'3' ∷ []

abbrev fresh_item : TransferItem
fresh_item = between current_connection bucket key current_connection bucket fresh

abbrev items : List TransferItem
items = fresh_item ∷ copy_item ∷ []

abbrev copied_result : Result TransferStepResult
copied_result = (run_transfer_step memory 1 (some 1) fresh_item ask false two_objects).0

abbrev three_objects : World
three_objects = (run_transfer_step memory 1 (some 1) fresh_item ask false two_objects).1

abbrev asked_result : Result TransferStepResult
asked_result = (run_transfer_step memory 1 (some 1) copy_item ask false three_objects).0

abbrev working : App ℕ
working = (handle_transfer_prepared open_client (ok items) started).0

abbrev again : App ℕ
again = (handle_transfer_step_finished open_client copied_result working).0

abbrev asking : App ℕ
asking = (handle_transfer_step_finished open_client asked_result again).0

abbrev last : World
last = (run_transfer_step memory 1 (some 1) copy_item ask false three_objects).1

fresh_test : last (remote 1 bucket fresh) ≡ some (b'x' ∷ [])
unfolding run_transfer_step memory put codes_dec text_eq nat_eq
fresh_test = refl

asked_test : asked_result ≡ ok (conflict copy_item)
unfolding run_transfer_step memory put codes_dec text_eq nat_eq
asked_test = refl

run_working :
    Reach memory open_client started items two_objects working
      (step 1 (some 1) fresh_item ask false ∷ [])
      two_objects
unfolding handle_transfer_prepared cmd_process_next_transfer_step make_client_for_connection
    handle_start_transfer transfer_can_start handle_transfer_destination_key_changed
    handle_open_copy_object current_connection_id current_selected_object text text_eq nat_eq
run_working = Reach.arrived

run_again :
    Reach memory open_client started items two_objects again
      (step 1 (some 1) copy_item ask false ∷ [])
      three_objects
unfolding handle_transfer_step_finished handle_transfer_prepared cmd_process_next_transfer_step
    make_client_for_connection handle_start_transfer transfer_can_start
    handle_transfer_destination_key_changed handle_open_copy_object current_connection_id
    current_selected_object run_transfer_step memory put codes_dec text text_eq nat_eq
run_again = Reach.worked run_working

run_asking : Reach memory open_client started items two_objects asking [] last
unfolding handle_transfer_step_finished handle_transfer_prepared cmd_process_next_transfer_step
    make_client_for_connection handle_start_transfer transfer_can_start
    handle_transfer_destination_key_changed handle_open_copy_object current_connection_id
    current_selected_object run_transfer_step memory put codes_dec text text_eq nat_eq
run_asking = Reach.worked run_again

abbrev skipped_app : App ℕ
skipped_app = (resolve_transfer_conflict open_client true false asking).0

abbrev skipped_tasks : List (TransferTask ℕ)
skipped_tasks = (resolve_transfer_conflict open_client true false asking).1

abbrev run_skipped :
    Reach memory open_client started items two_objects skipped_app skipped_tasks last
run_skipped = Reach.answered true false run_asking

Reach-Following_example : Following items skipped_app skipped_tasks
Reach-Following_example =
    Reach-Following memory open_client started items two_objects last skipped_app skipped_tasks
      started_state started_test run_skipped

Reach-results_example :
    results open_client memory run_skipped + messages_left skipped_app.transfer skipped_tasks
    ≤ 2 * 2
Reach-results_example =
    Reach-results open_client memory started items two_objects started_state skipped_app
      skipped_tasks last started_test run_skipped

run_refused : Skips memory memory-IsLawful open_client run_skipped
unfolding Skips run_asking run_again run_working
run_refused = (refl, tt)

run_noticed : Notices memory memory-IsLawful open_client (remote 1 bucket other) run_skipped
unfolding Notices run_asking run_again run_working memory put codes_dec text_eq nat_eq
run_noticed = (λ p e. refl, (λ p e. cc, tt))

other_there : memory.content two_objects (remote 1 bucket other) ≢ none
unfolding memory put codes_dec text_eq nat_eq
other_there e = cc

Reach-content_example :
    memory.content last (remote 1 bucket other) ≡ memory.content two_objects (remote 1 bucket other)
Reach-content_example =
    Reach-content memory memory-IsLawful open_client started items two_objects started_state
      skipped_app skipped_tasks last (remote 1 bucket other) started_test (λ e. cc) refl
      (refl, (refl, tt)) run_skipped run_refused run_noticed other_there

-- The separator of an exported key is a `\`, also where paths have a `/`.
export_test :
    prepare_export_items
      (λ (c : ℕ) b p. ok (text "photos/a/b.txt" ∷ []))
      1
      bucket
      (text "photos/")
      (text "/home")
    ≡ ok (
        record {
          source = s3 current_connection bucket (text "photos/a/b.txt");
          destination = local (text "/home/a\\b.txt");
        }
        ∷ [])
unfolding prepare_export_items text nat_eq
export_test = refl
