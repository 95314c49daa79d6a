-- ===== src/Transfer/Left.antt =====
-- How many results of steps a transfer still takes (src/app/handlers/transfer.rs).
use abixio_ui.Common.{
  ℕ, suc, ◌-◌, ◌*◌, ◌≤◌, ◌<◌, Bool, true, false, Option, none, some, List, [], ◌∷◌, ◌≡◌, refl,
  arith, length, get_elem?, Option-cases, Bool-cases, inl, inr, ◌&&◌, ◌==◌,
}
use abixio_ui.Common.Text.{text_eq}
use abixio_ui.Common.Result.{Result, ok, err}
use abixio_ui.Sync.State.{TransferEndpoint}
use abixio_ui.Sync.State.TransferEndpoint.{s3, local}
use abixio_ui.Transfer.Types.{
  ask, overwrite_all, skip_all, TransferItem, TransferStepResult, conflict, copied, skipped,
  TransferState, Connection, App, TransferTask, step, step_failed, current_connection, set_transfer,
  with_transfer, make_client_for_connection, label,
}
use abixio_ui.Transfer.Steps.{
  resolve_transfer_conflict, cmd_process_next_transfer_step, process_at, step_to, step_with,
  stepped_with, prepared_with, resolved_with, count_copied, count_skipped, count_failed, receive,
  report_failed, answered_by, changes_objects,
}

-- An item about which the modal has asked takes one message less, like one that cannot ask.
abbrev pub asked : {Client : Type 0} → Option TransferItem → List (TransferTask Client) → ℕ
asked (some _) tasks = 1
asked none (step _ _ _ overwrite_all _ ∷ tasks) = 1
asked none (step_failed _ ∷ tasks) = 1
asked none _ = 0

abbrev pub left : {Client : Type 0} → TransferState → List (TransferTask Client) → ℕ
left transfer tasks =
    2 * (length transfer.items - transfer.next_index) - asked transfer.pending_conflict tasks

abbrev pub messages_left : {Client : Type 0} → Option TransferState → List (TransferTask Client) → ℕ
messages_left none tasks = 0
messages_left (some transfer) tasks = left transfer tasks

asked-bounded :
    {Client : Type 0} (o : Option TransferItem) (tasks : List (TransferTask Client))
    → asked o tasks ≤ 1
asked-bounded (some _) tasks = omega arith
asked-bounded none [] = omega arith
asked-bounded none (step _ _ _ overwrite_all _ ∷ tasks) = omega arith
asked-bounded none (step _ _ _ ask _ ∷ tasks) = omega arith
asked-bounded none (step _ _ _ skip_all _ ∷ tasks) = omega arith
asked-bounded none (step_failed _ ∷ tasks) = omega arith
asked-bounded none (_ ∷ tasks) = omega arith

module _ {Client : Type 0} (open_client : Connection → Result Client) where
  process_at-left :
      (app : App Client) (t : TransferState)
      → messages_left
          (process_at open_client app t (get_elem? t.items t.next_index)).0.transfer
          (process_at open_client app t (get_elem? t.items t.next_index)).1
        ≤ 2 * (length t.items - t.next_index)
  process_at-left app t = elim (Option-cases (get_elem? t.items t.next_index)) [
    | inr (item, e) ↦ rw e (omega arith)
    | inl e ↦
        elim (Bool-cases
          (changes_objects t.mode && t.destination_connection_id == current_connection)) [
            | inl d ↦ rw (e, d) (omega arith)
            | inr d ↦ rw (e, d) (omega arith)
          ]
  ]

  -- Each result counts one message.
  pub stepped_with-left :
      (app : App Client) (t : TransferState) (tasks : List (TransferTask Client))
      (result : Result TransferStepResult)
      → t.next_index < length t.items
      → ((item' : TransferItem) → result ≡ ok (conflict item') → asked t.pending_conflict tasks ≡ 0)
      → suc (
          messages_left
            (stepped_with open_client app t result).0.transfer
            (stepped_with open_client app t result).1)
        ≤ left t tasks
  unfolding cmd_process_next_transfer_step
  stepped_with-left app t tasks (ok (conflict item')) inside free = omega (arith, free item' refl)
  stepped_with-left app t tasks (ok (copied l)) inside free =
      let t' = count_copied l t in
      omega
        (arith, process_at-left (set_transfer app t') t', asked-bounded t.pending_conflict tasks)
  stepped_with-left app t tasks (ok (skipped l)) inside free =
      let t' = count_skipped l t in
      omega
        (arith, process_at-left (set_transfer app t') t', asked-bounded t.pending_conflict tasks)
  stepped_with-left app t tasks (err e) inside free =
      let t' = count_failed t in
      let app' = (report_failed e app t') in
      omega (arith, process_at-left app' t', asked-bounded t.pending_conflict tasks)

  step_with-asked :
      (client : Client) (item : TransferItem) (is_move : Bool) (found : Result Client)
      → asked none (step_with client item overwrite_all is_move found ∷ []) ≡ 1
  step_with-asked client item is_move (ok _) = refl
  step_with-asked client item is_move (err _) = refl

  step_to-asked :
      (app : App Client) (item : TransferItem) (destination : TransferEndpoint)
      → asked none (step_to open_client app item overwrite_all false destination ∷ []) ≡ 1
  step_to-asked app item (local _) = refl
  step_to-asked app item (s3 id _ _) =
      step_with-asked app.client item false (make_client_for_connection open_client app id)

  resolved_with-left :
      (skip remember : Bool) (app : App Client) (t : TransferState) (o : Option TransferItem)
      → app.transfer ≡ some t
      → t.pending_conflict ≡ o
      → messages_left
          (resolved_with open_client skip remember app t o).0.transfer
          (resolved_with open_client skip remember app t o).1
        ≤ 2 * (length t.items - t.next_index) - asked {Client = Client} o []
  unfolding cmd_process_next_transfer_step
  resolved_with-left skip remember app t none is e = rw is (omega arith)
  resolved_with-left true remember app t (some item) is e =
      let t' = count_skipped (label item) (answered_by true remember t) in
      omega (arith, process_at-left (set_transfer app t') t')
  resolved_with-left false remember app t (some item) is e =
      omega (arith, step_to-asked app item item.destination)

  pub resolve_transfer_conflict-left :
      (skip remember : Bool) (app : App Client)
      → messages_left
          (resolve_transfer_conflict open_client skip remember app).0.transfer
          (resolve_transfer_conflict open_client skip remember app).1
        ≤ messages_left {Client = Client} app.transfer []
  unfolding resolve_transfer_conflict
  resolve_transfer_conflict-left skip remember app = by_transfer app.transfer refl
    where
      by_transfer :
          (o : Option TransferState)
          → app.transfer ≡ o
          → (let result =
                with_transfer app o
                  λ t. resolved_with open_client skip remember app t t.pending_conflict in
              messages_left result.0.transfer result.1 ≤ messages_left {Client = Client} o [])
      by_transfer none is = rw is (omega arith)
      by_transfer (some t) is = resolved_with-left skip remember app t t.pending_conflict is refl

  pub prepared_with-left :
      (items : List TransferItem) (app : App Client) (t : TransferState)
      → messages_left
          (prepared_with open_client app t (ok items)).0.transfer
          (prepared_with open_client app t (ok items)).1
        ≤ 2 * length items
  unfolding cmd_process_next_transfer_step
  prepared_with-left [] app t = omega arith
  prepared_with-left (item ∷ items) app t =
      let t' = receive (item ∷ items) t in omega (arith, process_at-left (set_transfer app t') t')
