-- ===== src/Transfer/Answers.antt =====
-- The messages of a running transfer (src/app/handlers/transfer.rs), on the app that holds it.
use mathlib.Core.Path.{subst}
use abixio_ui.Common.{Bool, Option, none, List, [], ◌∷◌, ◌≡◌, refl, sym}
use abixio_ui.Common.Text.{Text, text_eq}
use abixio_ui.Common.Result.{Result, ok}
use abixio_ui.Transfer.Types.{
  TransferItem, TransferStepResult, conflict, TransferState, Connection, App, TransferTask,
  with_transfer,
}
use abixio_ui.Transfer.Modal.{
  handle_transfer_destination_bucket_changed, handle_transfer_destination_key_changed,
}
use abixio_ui.Transfer.Steps.{
  handle_transfer_step_finished, resolve_transfer_conflict, stepped_with, resolved_with,
}
use abixio_ui.Transfer.Reach.{WorksOn, IsIdle, Stage, working, asking, over, Follows, Following}
use abixio_ui.Transfer.Turns.{Counted, stepped_with-Following, resolved_with-Following}

module _ {Client : Type 0} (open_client : Connection → Result Client) where
  Follows-Counted :
      {items : List TransferItem} {t : TransferState} {tasks : List (TransferTask Client)}
      → Follows items t tasks
      → Counted items t
  Follows-Counted f = record { items-kept = f.items-kept; counted = f.counted; bounded = f.bounded }

  pub edited-Following :
      (items : List TransferItem) (bucket key : Text) (app : App Client)
      (tasks : List (TransferTask Client))
      → Following items app tasks
      → Following items
          (handle_transfer_destination_key_changed key
            (handle_transfer_destination_bucket_changed bucket app))
          tasks
  unfolding handle_transfer_destination_key_changed handle_transfer_destination_bucket_changed
  edited-Following items bucket key app tasks (t, is, f) = rw is (
    record t { destination_bucket = bucket; destination_key = key; summary = none },
    refl,
    record {
      items-kept = f.items-kept;
      counted = f.counted;
      bounded = f.bounded;
      stage = restaged f.stage;
    },
  )
    where
      restaged :
          Stage t tasks
          → Stage
              (record t { destination_bucket = bucket; destination_key = key; summary = none })
              tasks
      restaged (working item at r p w) = working item at r p w
      restaged (asking item at r p w) = asking item at r p w
      restaged (over e r p w) = over e r p w

  -- The result of the task to come.
  pub finished-Following :
      (items : List TransferItem) (app : App Client) (task : TransferTask Client)
      (result : Result TransferStepResult)
      → ((item item' : TransferItem)
          → WorksOn item (task ∷ [])
          → result ≡ ok (conflict item')
          → item' ≡ item)
      → ¬ IsIdle (task ∷ [])
      → Following items app (task ∷ [])
      → Following items
          (handle_transfer_step_finished open_client result app).0
          (handle_transfer_step_finished open_client result app).1
  unfolding handle_transfer_step_finished
  finished-Following items app task result own busy (t, is, f) = rw is (by_stage f.stage)
    where
      by_stage :
          Stage t (task ∷ [])
          → Following items
              (stepped_with open_client app t result).0
              (stepped_with open_client app t result).1
      by_stage (working item at r p w) =
          stepped_with-Following open_client items app t item result (Follows-Counted f) at
            (λ item' e. own item item' w e)
      by_stage (asking item at r p w) = cc
      by_stage (over e r p w) = absurd (busy w)

  pub answered-Following :
      (items : List TransferItem) (app : App Client) (skip remember : Bool)
      → Following items app []
      → Following items
          (resolve_transfer_conflict open_client skip remember app).0
          (resolve_transfer_conflict open_client skip remember app).1
  unfolding resolve_transfer_conflict
  answered-Following items app skip remember (t, is, f) =
      subst (Answer app) (sym is) (by_stage f.stage)
    where
      Answer : App Client → Option TransferState → Type 0
      Answer app o =
          Following items
            (with_transfer app o
              (λ t. resolved_with open_client skip remember app t t.pending_conflict)).0
            (with_transfer app o
              (λ t. resolved_with open_client skip remember app t t.pending_conflict)).1

      by_stage :
          Stage {Client = Client} t []
          → Following items
              (resolved_with open_client skip remember app t t.pending_conflict).0
              (resolved_with open_client skip remember app t t.pending_conflict).1
      by_stage (working item at r p w) = absurd w
      by_stage (asking item at r p w) =
          subst
            (λ o.
              Following items (resolved_with open_client skip remember app t o).0
                (resolved_with open_client skip remember app t o).1)
            (sym p)
            (resolved_with-Following open_client items skip remember app t item (Follows-Counted f)
              at)
      by_stage (over e r p w) =
          subst
            (λ o.
              Following items (resolved_with open_client skip remember app t o).0
                (resolved_with open_client skip remember app t o).1)
            (sym p) (t, is, f)
