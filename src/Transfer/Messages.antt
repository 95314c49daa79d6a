-- ===== src/Transfer/Messages.antt =====
-- How many messages a run of a transfer takes (src/app/handlers/transfer.rs).
use abixio_ui.Common.{
  ℕ, suc, ◌+◌, ◌*◌, ◌≤◌, ◌<◌, Option, none, some, List, [], ◌∷◌, ◌≡◌, refl, arith, length,
  get_elem?-drop,
}
use abixio_ui.Common.Text.{Text, text_eq}
use abixio_ui.Common.Result.{Result, ok, err}
use abixio_ui.Transfer.Types.{
  TransferItem, TransferStepResult, conflict, TransferState, Connection, App, TransferTask, step,
  step_failed,
}
use abixio_ui.Transfer.Modal.{
  handle_transfer_destination_bucket_changed, handle_transfer_destination_key_changed,
}
use abixio_ui.Transfer.Steps.{handle_transfer_prepared, handle_transfer_step_finished}
use abixio_ui.Transfer.Storage.{Storage}
use abixio_ui.Transfer.Work.{run_transfer_step}
use abixio_ui.Transfer.Reach.{
  Reach, arrived, worked, unconnected, answered, edited, IsIdle, Stage, working, asking, over,
  Follows, Following,
}
use abixio_ui.Transfer.Follows.{Reach-Following, run_transfer_step-conflict}
use abixio_ui.Transfer.Left.{
  asked, messages_left, stepped_with-left, resolve_transfer_conflict-left, prepared_with-left,
}

module _ {Client : Type 0} (open_client : Connection → Result Client) where
  module _ {World Data : Type 0} (s : Storage Client World Data) where
    -- The results of steps so far.
    pub results :
        {start : App Client} {items : List TransferItem} {w₀ : World} {app : App Client}
        {tasks : List (TransferTask Client)} {w : World}
        → Reach s open_client start items w₀ app tasks w
        → ℕ
    results arrived = 0
    results (worked r) = suc (results r)
    results (unconnected r) = suc (results r)
    results (answered skip remember r) = results r
    results (edited bucket key r) = results r

    edited-left :
        (bucket key : Text) (app : App Client) (tasks : List (TransferTask Client))
        → messages_left
            (handle_transfer_destination_key_changed key
              (handle_transfer_destination_bucket_changed bucket app)).transfer
            tasks
          ≡ messages_left app.transfer tasks
    unfolding handle_transfer_destination_key_changed handle_transfer_destination_bucket_changed
    edited-left bucket key app tasks = go app.transfer refl
      where
        go :
            (o : Option TransferState)
            → app.transfer ≡ o
            → messages_left
                (handle_transfer_destination_key_changed key
                  (handle_transfer_destination_bucket_changed bucket app)).transfer
                tasks
              ≡ messages_left o tasks
        go none is = rw is refl
        go (some t) is = rw is refl

    -- Where a step is to come, its item is inside the list and no conflict is open.
    Follows-busy :
        (items : List TransferItem) (t : TransferState) (task : TransferTask Client)
        → ¬ IsIdle (task ∷ [])
        → Follows items t (task ∷ [])
        → (t.next_index < length t.items) × (t.pending_conflict ≡ none)
    Follows-busy items t task busy f = by_stage f.stage
      where
        by_stage :
            Stage t (task ∷ []) → (t.next_index < length t.items) × (t.pending_conflict ≡ none)
        by_stage (working item at r p w) = ((get_elem?-drop t.items t.next_index at).1, p)
        by_stage (asking item at r p w) = cc
        by_stage (over e r p w) = absurd (busy w)

    finished-left :
        (items : List TransferItem) (app : App Client) (task : TransferTask Client)
        (result : Result TransferStepResult)
        → Following items app (task ∷ [])
        → ¬ IsIdle (task ∷ [])
        → ((item' : TransferItem) → result ≡ ok (conflict item') → asked none (task ∷ []) ≡ 0)
        → suc (
            messages_left
              (handle_transfer_step_finished open_client result app).0.transfer
              (handle_transfer_step_finished open_client result app).1)
          ≤ messages_left app.transfer (task ∷ [])
    unfolding handle_transfer_step_finished
    finished-left items app task result (t, is, f) busy free =
        let (inside, quiet) = Follows-busy items t task busy f in
        rw is (
          stepped_with-left open_client app t (task ∷ []) result inside
            λ item' e. rw quiet (free item' e))

    -- However a run goes, the results of its steps and what is still left never exceed two for each
    -- item: one that asks and one that settles it.
    pub Reach-results :
        (start : App Client) (items : List TransferItem) (w₀ : World) (transfer : TransferState)
        (app : App Client) (tasks : List (TransferTask Client)) (w : World)
        → start.transfer ≡ some transfer
        → (r : Reach s open_client start items w₀ app tasks w)
        → results r + messages_left app.transfer tasks ≤ 2 * length items
    unfolding results handle_transfer_prepared
    Reach-results start items w₀ t app tasks w is arrived =
        rw is (omega (arith, prepared_with-left open_client items start t))
    Reach-results start items w₀ t app tasks w is
          (worked {app = app'} {w = w'} {source = c} {destination = d} {item = item}
            {policy = policy} {is_move = m} r) =
        let task = step c d item policy m in
        let result = (run_transfer_step s c d item policy m w').0 in
        omega (
          arith,
          Reach-results start items w₀ t app' (task ∷ []) w' is r,
          finished-left items app' task result
              (Reach-Following s open_client start items w₀ w' app' (task ∷ []) t is r) (λ h. h)
              (λ item' e. rw (run_transfer_step-conflict s c d item item' policy m w' e).1 refl),
        )
    Reach-results start items w₀ t app tasks w is (unconnected {app = app'} {error = error} r) =
        omega (
          arith,
          Reach-results start items w₀ t app' (step_failed error ∷ []) w is r,
          finished-left items app' (step_failed error) (err error)
              (Reach-Following s open_client start items w₀ w app' (step_failed error ∷ []) t is r)
              (λ h. h) (λ item' e. cc),
        )
    Reach-results start items w₀ t app tasks w is (answered {app = app'} skip remember r) = omega (
      arith,
      Reach-results start items w₀ t app' [] w is r,
      resolve_transfer_conflict-left open_client skip remember app',
    )
    Reach-results start items w₀ t app tasks w is (edited {app = app'} bucket key r) =
        omega (
          arith,
          edited-left bucket key app' tasks,
          Reach-results start items w₀ t app' tasks w is r,
        )
