-- ===== src/Transfer/Turns.antt =====
-- What each handler of a running transfer (src/app/handlers/transfer.rs) makes of the items and of
-- their counts.
use abixio_ui.Common.{
  ◌+◌, ◌≤◌, ◌<◌, Bool, true, false, some, List, [], ◌∷◌, ◌≡◌, refl, sym, ap, ◌∙◌, arith, length,
  get_elem?, Option-cases, Bool-cases, inl, inr, get_elem?-drop, get_elem?-none, ◌&&◌, ◌==◌,
}
use abixio_ui.Common.Text.{text_eq}
use abixio_ui.Common.Result.{Result, ok, err}
use abixio_ui.Sync.State.{TransferEndpoint}
use abixio_ui.Sync.State.TransferEndpoint.{s3, local}
use abixio_ui.Transfer.Types.{
  OverwritePolicy, TransferItem, TransferStepResult, conflict, copied, skipped, TransferState,
  Connection, App, label, current_connection, set_transfer, make_client_for_connection,
}
use abixio_ui.Transfer.Steps.{
  cmd_process_next_transfer_step, finished, started, process_at, step_to, step_with, stepped_with,
  prepared_with, resolved_with, count_copied, count_skipped, count_failed, receive, report_failed,
  answered_by, changes_objects, conclude,
}
use abixio_ui.Transfer.Reach.{WorksOn, working, asking, over, Following}

-- Everything but the stage.
pub record Counted (items : List TransferItem) (transfer : TransferState) : Type 0 where
  pub items-kept : transfer.items ≡ items
  pub counted : transfer.completed + transfer.skipped + transfer.failed ≡ transfer.next_index
  pub bounded : transfer.next_index ≤ length items

-- One item more is counted.
advanced :
    (items : List TransferItem) (transfer transfer' : TransferState) (item : TransferItem)
    → Counted items transfer
    → get_elem? transfer.items transfer.next_index ≡ some item
    → transfer'.items ≡ transfer.items
    → transfer'.completed + transfer'.skipped + transfer'.failed ≡ transfer'.next_index
    → transfer'.next_index ≡ transfer.next_index + 1
    → Counted items transfer'
advanced items t t' item c at same counted next = record {
  items-kept = same ∙ c.items-kept;
  counted = counted;
  bounded =
      (let inside = (get_elem?-drop t.items t.next_index at).1 in
        let inside' : t.next_index < length items = rw (sym c.items-kept) inside in omega arith);
}

module _ {Client : Type 0} (open_client : Connection → Result Client) where
  step_with-WorksOn :
      (client : Client) (item : TransferItem) (policy : OverwritePolicy) (is_move : Bool)
      (found : Result Client)
      → WorksOn item (step_with client item policy is_move found ∷ [])
  step_with-WorksOn client item policy is_move (ok _) = refl
  step_with-WorksOn client item policy is_move (err _) = tt

  step_to-WorksOn :
      (app : App Client) (item : TransferItem) (policy : OverwritePolicy) (is_move : Bool)
      (destination : TransferEndpoint)
      → WorksOn item (step_to open_client app item policy is_move destination ∷ [])
  step_to-WorksOn app item policy is_move (local path) = refl
  step_to-WorksOn app item policy is_move (s3 id b k) =
      step_with-WorksOn app.client item policy is_move
        (make_client_for_connection open_client app id)

  conclude-Following :
      (items : List TransferItem) (app : App Client) (transfer : TransferState)
      → Counted items transfer
      → transfer.next_index ≡ length transfer.items
      → Following items (conclude app transfer).0 (conclude app transfer).1
  conclude-Following items app transfer c at_end =
      elim (Bool-cases (
        changes_objects transfer.mode
        && transfer.destination_connection_id == current_connection)) [
          | inl e ↦ rw e (
            finished transfer,
            refl,
            record {
              items-kept = c.items-kept;
              counted = c.counted;
              bounded = c.bounded;
              stage = over at_end refl refl tt;
            },
          )
          | inr e ↦ rw e (
            finished transfer,
            refl,
            record {
              items-kept = c.items-kept;
              counted = c.counted;
              bounded = c.bounded;
              stage = over at_end refl refl tt;
            },
          )
        ]

  pub process_at-Following :
      (items : List TransferItem) (app : App Client) (transfer : TransferState)
      → Counted items transfer
      → Following items
          (process_at open_client app transfer (get_elem? transfer.items transfer.next_index)).0
          (process_at open_client app transfer (get_elem? transfer.items transfer.next_index)).1
  process_at-Following items app transfer c =
      elim (Option-cases (get_elem? transfer.items transfer.next_index)) [
        | inl e ↦ rw e (
            conclude-Following items app transfer c (
              let within : transfer.next_index ≤ length transfer.items =
                rw c.items-kept c.bounded in
              omega (arith, get_elem?-none transfer.items transfer.next_index e)))
        | inr (item, e) ↦ rw e (
          started transfer item,
          refl,
          record {
            items-kept = c.items-kept;
            counted = c.counted;
            bounded = c.bounded;
            stage = working item e refl refl (step_to-WorksOn app item _ _ item.destination);
          },
        )
      ]

  pub stepped_with-Following :
      (items : List TransferItem) (app : App Client) (transfer : TransferState)
      (item : TransferItem) (result : Result TransferStepResult)
      → Counted items transfer
      → get_elem? transfer.items transfer.next_index ≡ some item
      → ((item' : TransferItem) → result ≡ ok (conflict item') → item' ≡ item)
      → Following items
          (stepped_with open_client app transfer result).0
          (stepped_with open_client app transfer result).1
  unfolding cmd_process_next_transfer_step
  stepped_with-Following items app t item (ok (conflict item')) c at own = (
    _,
    refl,
    record {
      items-kept = c.items-kept;
      counted = c.counted;
      bounded = c.bounded;
      stage = asking item at refl (ap some (own item' refl)) refl;
    },
  )
  stepped_with-Following items app t item (ok (copied l)) c at own =
      let t' = count_copied l t in
      process_at-Following items (set_transfer app t') t'
        (advanced items t t' item c at refl (omega (arith, c.counted)) refl)
  stepped_with-Following items app t item (ok (skipped l)) c at own =
      let t' = count_skipped l t in
      process_at-Following items (set_transfer app t') t'
        (advanced items t t' item c at refl (omega (arith, c.counted)) refl)
  stepped_with-Following items app t item (err e) c at own =
      let t' = count_failed t in
      process_at-Following items (report_failed e app t') t'
        (advanced items t t' item c at refl (omega (arith, c.counted)) refl)

  pub resolved_with-Following :
      (items : List TransferItem) (skip remember : Bool) (app : App Client) (t : TransferState)
      (item : TransferItem)
      → Counted items t
      → get_elem? t.items t.next_index ≡ some item
      → Following items
          (resolved_with open_client skip remember app t (some item)).0
          (resolved_with open_client skip remember app t (some item)).1
  unfolding cmd_process_next_transfer_step
  resolved_with-Following items true remember app t item c at =
      let t' = count_skipped (label item) (answered_by true remember t) in
      process_at-Following items (set_transfer app t') t'
        (advanced items t t' item c at refl (omega (arith, c.counted)) refl)
  resolved_with-Following items false remember app t item c at = (
    _,
    refl,
    record {
      items-kept = c.items-kept;
      counted = c.counted;
      bounded = c.bounded;
      stage = working item at refl refl (step_to-WorksOn app item _ false item.destination);
    },
  )

  pub prepared_with-Following :
      (items : List TransferItem) (app : App Client) (t : TransferState)
      → Following items
          (prepared_with open_client app t (ok items)).0
          (prepared_with open_client app t (ok items)).1
  unfolding cmd_process_next_transfer_step
  prepared_with-Following [] app t = (
    _,
    refl,
    record {
      items-kept = refl;
      counted = refl;
      bounded = omega arith;
      stage = over refl refl refl tt;
    },
  )
  prepared_with-Following (item ∷ items) app t =
      let t' = receive (item ∷ items) t in
      process_at-Following (item ∷ items) (set_transfer app t') t'
        (record { items-kept = refl; counted = refl; bounded = omega arith })
