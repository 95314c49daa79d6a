-- ===== src/Transfer/Follows.antt =====
-- The items of a prepared transfer (src/app/handlers/transfer.rs), each in its turn.
use abixio_ui.Common.{Bool, true, false, Option, none, some, List, [], ◌≡◌, ◌≢◌, refl, ◌∙◌}
use abixio_ui.Common.Text.{Text, text_eq}
use abixio_ui.Common.Result.{Result, ok, err}
use abixio_ui.Sync.State.{TransferEndpoint}
use abixio_ui.Sync.State.TransferEndpoint.{s3, local}
use abixio_ui.Transfer.Types.{
  OverwritePolicy, ask, overwrite_all, skip_all, TransferItem, TransferStepResult, conflict,
  TransferState, Connection, App, TransferTask,
}
use abixio_ui.Transfer.Steps.{handle_transfer_prepared}
use abixio_ui.Transfer.Storage.{Storage}
use abixio_ui.Transfer.Work.{
  run_transfer_step, work_on, write_remote, write_local, create_parent, unless_there, after,
}
use abixio_ui.Transfer.Reach.{Reach, arrived, worked, unconnected, answered, edited, Following}
use abixio_ui.Transfer.Turns.{prepared_with-Following}
use abixio_ui.Transfer.Answers.{finished-Following, answered-Following, edited-Following}

module _ {Client World Data : Type 0} (s : Storage Client World Data) where
  after-conflict :
      {A : Type 0} (call : Result A × World) (next : A → World → Result TransferStepResult × World)
      (item : TransferItem)
      → ((a : A) (w : World) → (next a w).0 ≢ ok (conflict item))
      → (after call next).0 ≢ ok (conflict item)
  after-conflict (ok a, w) next item h = h a w
  after-conflict (err e, w) next item h = λ e. cc

  unless_there-conflict :
      (there : Bool) (policy : OverwritePolicy) (item item' : TransferItem) (w : World)
      (next : Result TransferStepResult × World)
      → next.0 ≢ ok (conflict item')
      → (unless_there there policy item w next).0 ≡ ok (conflict item')
      → (item' ≡ item) × (policy ≡ ask)
  unless_there-conflict false policy item item' w next h e = absurd (h e)
  unless_there-conflict true ask item item' w next h e = (cc, refl)
  unless_there-conflict true skip_all item item' w next h e = cc
  unless_there-conflict true overwrite_all item item' w next h e = absurd (h e)

  write_local-conflict :
      (c : Client) (source : TransferEndpoint) (item item' : TransferItem) (path : Text) (w : World)
      → (write_local s c source item path w).0 ≢ ok (conflict item')
  write_local-conflict c (local _) item item' path w = λ e. cc
  write_local-conflict c (s3 _ b k) item item' path w =
      after-conflict (s.get_object c b k w, w) _ item'
        λ found v.
          after-conflict (create_parent s (s.parent path) v) _ item'
            λ _ v. after-conflict (s.write path found v) _ item' λ _ _ e. cc

  work_on-conflict :
      (source_client : Client) (destination_client : Option Client) (item item' : TransferItem)
      (policy : OverwritePolicy) (is_move : Bool) (destination : TransferEndpoint) (w : World)
      → (work_on s source_client destination_client item policy is_move destination w).0
        ≡ ok (conflict item')
      → (item' ≡ item) × (policy ≡ ask)
  work_on-conflict c none item item' policy is_move (s3 _ b k) w e = cc
  work_on-conflict c (some d) item item' policy is_move (s3 _ b k) w e =
      unless_there-conflict (s.head_object d b k w) policy item item' w _
        (after-conflict (write_remote s c d is_move item.source b k w) _ item' λ _ _ e. cc) e
  work_on-conflict c d item item' policy is_move (local path) w e =
      unless_there-conflict (s.path_exists path w) policy item item' w _
        (write_local-conflict c item.source item item' path w) e

  -- A step asks only about its own item, and only under the policy that asks.
  pub run_transfer_step-conflict :
      (source_client : Client) (destination_client : Option Client) (item item' : TransferItem)
      (policy : OverwritePolicy) (is_move : Bool) (w : World)
      → (run_transfer_step s source_client destination_client item policy is_move w).0
        ≡ ok (conflict item')
      → (item' ≡ item) × (policy ≡ ask)
  unfolding run_transfer_step
  run_transfer_step-conflict c d item item' policy m w e =
      work_on-conflict c d item item' policy m item.destination w e

  -- From the arrival of its items, whatever the servers answer and however conflicts are answered: a
  -- transfer works on the item at its index or asks about it, that many items are counted as
  -- copied, skipped or failed, and when nothing is to come all items are.
  pub Reach-Following :
      (open_client : Connection → Result Client) (start : App Client) (items : List TransferItem)
      (w₀ w : World) (app : App Client) (tasks : List (TransferTask Client))
      (transfer : TransferState)
      → start.transfer ≡ some transfer
      → Reach s open_client start items w₀ app tasks w
      → Following items app tasks
  unfolding handle_transfer_prepared
  Reach-Following open_client start items w₀ w app tasks t is arrived =
      rw is (prepared_with-Following open_client items start t)
  Reach-Following open_client start items w₀ w app tasks t is
        (worked {app = app'} {w = w'} {source = c} {destination = d} {item = item} {policy = policy}
          {is_move = m} r) =
      finished-Following open_client items app' _ _
        (λ item₁ item₂ same e. (run_transfer_step-conflict c d item item₂ policy m w' e).0 ∙ same)
        (λ h. h) (Reach-Following open_client start items w₀ w' app' _ t is r)
  Reach-Following open_client start items w₀ w app tasks t is (unconnected {app = app'} r) =
      finished-Following open_client items app' _ _ (λ item₁ item₂ same e. cc) (λ h. h)
        (Reach-Following open_client start items w₀ w app' _ t is r)
  Reach-Following open_client start items w₀ w app tasks t is
        (answered {app = app'} skip remember r) =
      answered-Following open_client items app' skip remember
        (Reach-Following open_client start items w₀ w app' [] t is r)
  Reach-Following open_client start items w₀ w app tasks t is (edited {app = app'} bucket key r) =
      edited-Following open_client items bucket key app' tasks
        (Reach-Following open_client start items w₀ w app' tasks t is r)
