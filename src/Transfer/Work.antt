-- ===== src/Transfer/Work.antt =====
-- `run_transfer_step` of src/app/transfer_ops.rs, over the operations of a storage. A call that fails
-- ends the work with its error and the world that it left.
use abixio_ui.Common.{Bool, true, false, Option, none, some}
use abixio_ui.Common.Text.{Text, text}
use abixio_ui.Common.Result.{Result, ok, err}
use abixio_ui.Sync.State.{TransferEndpoint}
use abixio_ui.Sync.State.TransferEndpoint.{s3, local}
use abixio_ui.Transfer.Types.{
  OverwritePolicy, ask, overwrite_all, skip_all, TransferItem, TransferStepResult, conflict, copied,
  skipped, label,
}
use abixio_ui.Transfer.Storage.{Storage}

-- `call.await?`, then the rest.
abbrev pub after : {A B W : Type 0} → Result A × W → (A → W → Result B × W) → Result B × W
after (ok a, w) next = next a w
after (err e, w) next = (err e, w)

-- The test for what is there already; `next` is the work of an item that may be written.
abbrev pub unless_there :
    {World : Type 0}
    → Bool
    → OverwritePolicy
    → TransferItem
    → World
    → Result TransferStepResult × World
    → Result TransferStepResult × World
unless_there false policy item w next = next
unless_there true ask item w next = (ok (conflict item), w)
unless_there true skip_all item w next = (ok (skipped (label item)), w)
unless_there true overwrite_all item w next = next

module _ {Client World Data : Type 0} (s : Storage Client World Data) where
  abbrev pub delete_source : Bool → Client → Text → Text → World → Result (Unit {0}) × World
  delete_source false c bucket key w = (ok tt, w)
  delete_source true c bucket key w = s.delete_object c bucket key w

  -- The two kinds of source of an item that goes to a bucket.
  abbrev pub write_remote :
      Client → Client → Bool → TransferEndpoint → Text → Text → World → Result (Unit {0}) × World
  write_remote source_client dest_client is_move (s3 _ src_bucket src_key) bucket key w =
      after (s.copy_object source_client src_bucket src_key bucket key w)
        λ _ w. delete_source is_move source_client src_bucket src_key w
  write_remote source_client dest_client is_move (local path) bucket key w =
      s.upload_file dest_client bucket key path (s.guess_content_type path) w

  abbrev pub create_parent : Option Text → World → Result (Unit {0}) × World
  create_parent none w = (ok tt, w)
  create_parent (some directory) w = s.create_dir_all directory w

  abbrev pub write_local :
      Client → TransferEndpoint → TransferItem → Text → World → Result TransferStepResult × World
  write_local source_client (local _) item path w =
      (err (text "local to local transfer is unsupported"), w)
  write_local source_client (s3 _ bucket key) item path w =
      after (s.get_object source_client bucket key w, w)
        λ found w.
          after (create_parent (s.parent path) w)
            λ _ w. after (s.write path found w) λ _ w. (ok (copied (label item)), w)

  abbrev pub to_remote :
      Client
      → Option Client
      → TransferItem
      → OverwritePolicy
      → Bool
      → Text
      → Text
      → World
      → Result TransferStepResult × World
  to_remote source_client none item policy is_move bucket key w =
      (err (text "missing destination client"), w)
  to_remote source_client (some dest_client) item policy is_move bucket key w =
      unless_there (s.head_object dest_client bucket key w) policy item w (
        after (write_remote source_client dest_client is_move item.source bucket key w)
          λ _ w. (ok (copied (label item)), w))

  abbrev pub work_on :
      Client
      → Option Client
      → TransferItem
      → OverwritePolicy
      → Bool
      → TransferEndpoint
      → World
      → Result TransferStepResult × World
  work_on source_client destination_client item policy is_move (s3 _ bucket key) w =
      to_remote source_client destination_client item policy is_move bucket key w
  work_on source_client destination_client item policy is_move (local path) w =
      unless_there (s.path_exists path w) policy item w
        (write_local source_client item.source item path w)

  unfoldable pub run_transfer_step :
      Client
      → Option Client
      → TransferItem
      → OverwritePolicy
      → Bool
      → World
      → Result TransferStepResult × World
  unfolding label
  run_transfer_step source_client destination_client item policy is_move w =
      work_on source_client destination_client item policy is_move item.destination w
