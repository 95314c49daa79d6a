-- ===== src/Transfer/Careful.antt =====
-- Runs of a transfer (src/app/handlers/transfer.rs) whose conflicts are only ever skipped.
use abixio_ui.Common.{true, false, none, some, List, [], ◌∷◌, ◌≡◌, ◌≢◌, refl, ◌∙◌, All}
use abixio_ui.Common.Text.{text_eq}
use abixio_ui.Common.Result.{Result, err}
use abixio_ui.Transfer.Types.{
  overwrite_all, TransferItem, TransferState, Connection, App, TransferTask, step, step_failed,
}
use abixio_ui.Transfer.Steps.{handle_transfer_prepared, is_move_mode}
use abixio_ui.Transfer.Storage.{Storage, IsLawful, Place}
use abixio_ui.Transfer.Safety.{Noticed}
use abixio_ui.Transfer.Work.{run_transfer_step}
use abixio_ui.Transfer.Reach.{Reach, arrived, worked, unconnected, answered, edited}
use abixio_ui.Transfer.Cautious.{
  IsHere, Safe, prepared_with-Safe, finished-Safe, answered-Safe, edited-Safe,
}

module _ {Client World Data : Type 0} (s : Storage Client World Data) (lawful : IsLawful s)
    (open_client : Connection → Result Client) where
  -- Every conflict so far was skipped.
  unfoldable pub Skips :
      {start : App Client} {items : List TransferItem} {w₀ : World} {app : App Client}
      {tasks : List (TransferTask Client)} {w : World}
      → Reach s open_client start items w₀ app tasks w
      → Type 0
  Skips arrived = Unit
  Skips (worked r) = Skips r
  Skips (unconnected r) = Skips r
  Skips (answered skip remember r) = (skip ≡ true) × Skips r
  Skips (edited bucket key r) = Skips r

  -- Whenever a step of the run was about to write to a place where something was, the question
  -- whether anything is there, a HEAD request or a test of the path, was answered by yes.
  unfoldable pub Notices :
      {start : App Client} {items : List TransferItem} {w₀ : World} {app : App Client}
      {tasks : List (TransferTask Client)} {w : World}
      → Place Client
      → Reach s open_client start items w₀ app tasks w
      → Type 0
  Notices p arrived = Unit
  Notices p (worked {w = w} {destination = d} {item = item} r) =
      (s.content w p ≢ none → Noticed s item.destination d w p) × Notices p r
  Notices p (unconnected r) = Notices p r
  Notices p (answered skip remember r) = Notices p r
  Notices p (edited bucket key r) = Notices p r

  module _ (start : App Client) (items : List TransferItem) (w₀ : World) (transfer : TransferState)
      (p : Place Client) (is : start.transfer ≡ some transfer)
      (careful : transfer.overwrite_policy ≢ overwrite_all)
      (copies : is_move_mode transfer.mode ≡ false) (here : All IsHere items)
      (present : s.content w₀ p ≢ none) where
    Reach-Safe :
        (app : App Client) (tasks : List (TransferTask Client)) (w : World)
        → (r : Reach s open_client start items w₀ app tasks w) → Skips r
        → Notices p r
        → Safe s lawful open_client app tasks × (s.content w p ≡ s.content w₀ p)
    unfolding Skips Notices handle_transfer_prepared
    Reach-Safe app tasks w arrived skips notices = (
      rw is (prepared_with-Safe s lawful open_client items start transfer careful copies here),
      refl,
    )
    Reach-Safe app tasks w
          (worked {app = app'} {w = w'} {source = c} {destination = d} {item = item}
            {policy = policy} {is_move = m} r)
          skips notices =
        let task = step c d item policy m in
        let (safe, kept) = Reach-Safe app' (task ∷ []) w' r skips notices.1 in
        (
          finished-Safe s lawful open_client app' (task ∷ [])
              (run_transfer_step s c d item policy m w').0 safe,
          safe.3 w' p (notices.0 (rw kept present)) ∙ kept,
        )
    Reach-Safe app tasks w (unconnected {app = app'} {error = e} r) skips notices =
        let failed = step_failed e ∷ [] in
        let (safe, kept) = Reach-Safe app' failed w r skips notices in
        (finished-Safe s lawful open_client app' failed (err e) safe, kept)
    Reach-Safe app tasks w (answered {app = app'} skip remember r) skips notices =
        let (safe, kept) = Reach-Safe app' [] w r skips.1 notices in
        (rw skips.0 (answered-Safe s lawful open_client remember app' safe), kept)
    Reach-Safe app tasks w (edited {app = app'} bucket key r) skips notices =
        let (safe, kept) = Reach-Safe app' tasks w r skips notices in
        (edited-Safe s lawful open_client bucket key app' tasks safe, kept)

  -- A copy, an import or an export to files or to the current connection, whose policy is not to
  -- overwrite all and whose conflicts are only ever skipped, leaves an object or a file that was
  -- there as it was, if whenever a step was about to write to its place the HEAD request, or the test
  -- of the path, found what was there. Every other call may fail.
  pub Reach-content :
      (start : App Client) (items : List TransferItem) (w₀ : World) (transfer : TransferState)
      (app : App Client) (tasks : List (TransferTask Client)) (w : World) (p : Place Client)
      → start.transfer ≡ some transfer
      → transfer.overwrite_policy ≢ overwrite_all
      → is_move_mode transfer.mode ≡ false
      → All IsHere items
      → (r : Reach s open_client start items w₀ app tasks w) → Skips r
      → Notices p r
      → s.content w₀ p ≢ none
      → s.content w p ≡ s.content w₀ p
  Reach-content start items w₀ t app tasks w p is careful copies here r skips notices present =
      (Reach-Safe start items w₀ t p is careful copies here present app tasks w r skips notices).1
