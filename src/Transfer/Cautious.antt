-- ===== src/Transfer/Cautious.antt =====
-- What the handlers of a transfer (src/app/handlers/transfer.rs) start for copies that overwrite
-- nothing unasked.
use mathlib.Core.Path.{subst}
use mathlib.Core.Option.{some-injective}
use abixio_ui.Common.{
  ℕ, zero, suc, Bool, true, false, Option, none, some, List, [], ◌∷◌, ◌≡◌, ◌≢◌, refl, sym,
  get_elem?, Bool-cases, inl, inr, All, ◌&&◌, ◌==◌,
}
use abixio_ui.Common.Text.{Text, text, text_eq}
use abixio_ui.Common.Result.{Result, ok, err}
use abixio_ui.Sync.State.{TransferEndpoint}
use abixio_ui.Sync.State.TransferEndpoint.{s3, local}
use abixio_ui.Transfer.Types.{
  OverwritePolicy, overwrite_all, TransferItem, TransferStepResult, conflict, copied, skipped,
  TransferState, Connection, App, TransferTask, step, current_connection, set_transfer,
  with_transfer, make_client_for_connection, label,
}
use abixio_ui.Transfer.Modal.{
  handle_transfer_destination_bucket_changed, handle_transfer_destination_key_changed,
}
use abixio_ui.Transfer.Steps.{
  handle_transfer_step_finished, resolve_transfer_conflict, cmd_process_next_transfer_step,
  finished, started, process_at, step_to, stepped_with, prepared_with, resolved_with, count_copied,
  count_skipped, count_failed, receive, report_failed, answered_by, changes_objects, remembered,
  is_move_mode,
}
use abixio_ui.Transfer.Storage.{Storage, IsLawful, Place}
use abixio_ui.Transfer.Safety.{Noticed, work_on-keeps}
use abixio_ui.Transfer.Work.{run_transfer_step}

-- An item for a file, or for the current connection.
abbrev pub GoesHere : TransferEndpoint → Type 0
GoesHere (s3 id _ _) = id ≡ current_connection
GoesHere (local _) = Unit

abbrev pub IsHere : TransferItem → Type 0
IsHere item = GoesHere item.destination

current_is : (current_connection == current_connection) ≡ true
unfolding text text_eq
current_is = refl

All-get_elem? :
    {A : Type 0} (P : A → Type 0) (xs : List A) (i : ℕ) {x : A}
    → All P xs
    → get_elem? xs i ≡ some x
    → P x
All-get_elem? P [] i h e = cc
All-get_elem? P (x ∷ xs) zero h e = subst P (some-injective _ _ e) h.0
All-get_elem? P (x ∷ xs) (suc i) h e = All-get_elem? P xs i h.1 e

-- Copies that overwrite nothing unasked.
abbrev pub IsCautious : TransferState → Type 0
IsCautious transfer =
    (transfer.overwrite_policy ≢ overwrite_all)
    × (is_move_mode transfer.mode ≡ false)
    × All IsHere transfer.items

module _ {Client World Data : Type 0} (s : Storage Client World Data) (lawful : IsLawful s)
    (open_client : Connection → Result Client) where
  -- A task that leaves every place as it is that is noticed.
  abbrev pub Leaves : List (TransferTask Client) → Type 0
  Leaves (step c d item policy is_move ∷ []) =
      (w : World) (p : Place Client)
      → Noticed s item.destination d w p
      → s.content (run_transfer_step s c d item policy is_move w).1 p ≡ s.content w p
  Leaves _ = Unit

  abbrev pub Safe : App Client → List (TransferTask Client) → Type 0
  Safe app tasks =
      (transfer : TransferState) × (app.transfer ≡ some transfer)
      × IsCautious transfer
      × Leaves tasks

  step_to-Leaves :
      (app : App Client) (source destination : TransferEndpoint) (policy : OverwritePolicy)
      → policy ≢ overwrite_all
      → GoesHere destination
      → (let item : TransferItem = record { source = source; destination = destination } in
          Leaves (step_to open_client app item policy false destination ∷ []))
  unfolding make_client_for_connection run_transfer_step
  step_to-Leaves app source (local path) policy careful here = λ w p noticed.
      work_on-keeps s lawful app.client (record { source = source; destination = local path })
        policy false (local path) w p careful (λ e. cc) noticed
  step_to-Leaves app source (s3 id b k) policy careful here =
      rw (here, current_is)
        λ w p noticed.
          work_on-keeps s lawful app.client
            (record { source = source; destination = s3 current_connection b k }) policy false
            (s3 current_connection b k) w p careful (λ e. cc) noticed

  process_at-Safe :
      (app : App Client) (t : TransferState) (o : Option TransferItem)
      → get_elem? t.items t.next_index ≡ o
      → IsCautious t
      → Safe (process_at open_client app t o).0 (process_at open_client app t o).1
  process_at-Safe app t (some item) at safe = (
    started t item,
    refl,
    safe,
    rw safe.1 (
        step_to-Leaves app item.source item.destination t.overwrite_policy safe.0
          (All-get_elem? IsHere t.items t.next_index safe.2 at)),
  )
  process_at-Safe app t none at safe =
      elim (Bool-cases
        (changes_objects t.mode && t.destination_connection_id == current_connection)) [
          | inl d ↦ rw d (finished t, refl, safe, tt)
          | inr d ↦ rw d (finished t, refl, safe, tt)
        ]

  stepped_with-Safe :
      (app : App Client) (t : TransferState) (result : Result TransferStepResult)
      → IsCautious t
      → Safe (stepped_with open_client app t result).0 (stepped_with open_client app t result).1
  unfolding cmd_process_next_transfer_step
  stepped_with-Safe app t (ok (conflict item)) safe = (_, refl, safe, tt)
  stepped_with-Safe app t (ok (copied l)) safe =
      process_at-Safe (set_transfer app (count_copied l t)) (count_copied l t) _ refl safe
  stepped_with-Safe app t (ok (skipped l)) safe =
      process_at-Safe (set_transfer app (count_skipped l t)) (count_skipped l t) _ refl safe
  stepped_with-Safe app t (err e) safe =
      process_at-Safe (report_failed e app (count_failed t)) (count_failed t) _ refl safe

  resolved_with-Safe :
      (remember : Bool) (app : App Client) (t : TransferState) (o : Option TransferItem)
      → app.transfer ≡ some t
      → IsCautious t
      → Safe
          (resolved_with open_client true remember app t o).0
          (resolved_with open_client true remember app t o).1
  unfolding cmd_process_next_transfer_step
  resolved_with-Safe remember app t none is safe = (t, is, safe, tt)
  resolved_with-Safe remember app t (some item) is safe =
      let t' = count_skipped (label item) (answered_by true remember t) in
      process_at-Safe (set_transfer app t') t' _ refl
        (skipped_policy remember t.overwrite_policy safe.0, safe.1, safe.2)
    where
      skipped_policy :
          (remember : Bool) (policy : OverwritePolicy)
          → policy ≢ overwrite_all
          → remembered true remember policy ≢ overwrite_all
      skipped_policy true policy h = λ e. cc
      skipped_policy false policy h = h

  pub edited-Safe :
      (bucket key : Text) (app : App Client) (tasks : List (TransferTask Client))
      → Safe app tasks
      → Safe
          (handle_transfer_destination_key_changed key
            (handle_transfer_destination_bucket_changed bucket app))
          tasks
  unfolding handle_transfer_destination_key_changed handle_transfer_destination_bucket_changed
  edited-Safe bucket key app tasks (t, is, safe, leaves) = rw is (
    record t { destination_bucket = bucket; destination_key = key; summary = none },
    refl,
    safe,
    leaves,
  )

  pub prepared_with-Safe :
      (items : List TransferItem) (app : App Client) (t : TransferState)
      → t.overwrite_policy ≢ overwrite_all
      → is_move_mode t.mode ≡ false
      → All IsHere items
      → Safe
          (prepared_with open_client app t (ok items)).0
          (prepared_with open_client app t (ok items)).1
  unfolding cmd_process_next_transfer_step
  prepared_with-Safe [] app t h g here = (_, refl, (h, g, tt), tt)
  prepared_with-Safe (item ∷ items) app t h g here =
      process_at-Safe (set_transfer app (receive (item ∷ items) t)) (receive (item ∷ items) t) _
        refl (h, g, here)

  pub finished-Safe :
      (app : App Client) (tasks : List (TransferTask Client)) (result : Result TransferStepResult)
      → Safe app tasks
      → Safe
          (handle_transfer_step_finished open_client result app).0
          (handle_transfer_step_finished open_client result app).1
  unfolding handle_transfer_step_finished
  finished-Safe app tasks result (t, is, safe, leaves) = rw is (stepped_with-Safe app t result safe)

  pub answered-Safe :
      (remember : Bool) (app : App Client)
      → Safe app []
      → Safe
          (resolve_transfer_conflict open_client true remember app).0
          (resolve_transfer_conflict open_client true remember app).1
  unfolding resolve_transfer_conflict
  answered-Safe remember app (t, is, safe, leaves) =
      subst
        (λ o.
          (let result =
              with_transfer app o
                λ t. resolved_with open_client true remember app t t.pending_conflict in
            Safe result.0 result.1))
        (sym is) (resolved_with-Safe remember app t t.pending_conflict is safe)
