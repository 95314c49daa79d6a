-- ===== src/Sync/Work.antt =====
-- The work on one item of a sync (`execute_sync_run_item`, src/app/transfer_ops.rs) and the future of a
-- transfer (`PendingSyncTask::into_task`, src/app/handlers/sync.rs), over the calls of the storage. A
-- call that fails ends the work with its error and the world that it left.
pub mod Prune
pub mod Prepared
use abixio_ui.Common.{
  ℕ, zero, suc, ◌*◌, Bool, true, false, Option, none, some, List, if◌then◌else◌, ltb, length, ◌∷◌,
}
use abixio_ui.Common.Text.{Text, text}
use abixio_ui.Common.Result.{Result, ok, err}
use abixio_ui.Sync.State.{TransferEndpoint, SyncRunItem, SyncExecutionStrategy}
use abixio_ui.Sync.State.TransferEndpoint.{s3, local}
use abixio_ui.Sync.State.SyncExecutionStrategy.{
  upload, download, server_side_copy, client_relay, delete_remote, delete_local,
}

-- The calls of `S3Client` (src/s3/client.rs) and of `tokio::fs`. `is_empty_dir` is whether a directory
-- can be read and has no entry; `spool_path` is the file in the temporary directory, whose name holds
-- the time.
pub record SyncStorage (Client World : Type 0) : Type 0 where
  pub upload_file : Client → Text → Text → Text → Text → World → Result (Unit {0}) × World
  pub download_object_to_file : Client → Text → Text → Text → World → Result (Unit {0}) × World
  pub copy_object : Client → Text → Text → Text → Text → World → Result (Unit {0}) × World
  pub relay_object_to_s3 :
      Client → Text → Text → Client → Text → Text → World → Result (Unit {0}) × World
  pub delete_object : Client → Text → Text → World → Result (Unit {0}) × World
  pub remove_file : Text → World → Result (Unit {0}) × World
  pub is_empty_dir : Text → World → Bool
  pub remove_dir : Text → World → Result (Unit {0}) × World
  pub parent : Text → Option Text
  pub guess_content_type : Text → Text
  pub spool_path : Text → World → Text

abbrev pub Done : Type 0 → Type 0
Done World = Result (Unit {0}) × World

-- `call.await?`, then the rest.
abbrev pub and_then : {World : Type 0} → Done World → (World → Done World) → Done World
and_then (ok _, w) next = next w
and_then (err e, w) next = (err e, w)

-- `let _ = call.await;` after a call whose result is the one that counts.
abbrev pub and_also : {World : Type 0} → Done World → (World → Done World) → Done World
and_also (result, w) next = (result, (next w).1)

module _ {Client World : Type 0} (s : SyncStorage Client World) where
  abbrev went_up : Done World → (World → Option World) → Option World
  went_up (ok _, w) next = next w
  went_up (err _, w) next = some w

  -- `while let Some(dir) = current`; `none` means that the fuel ran out.
  unfoldable pub prune_empty_parent_dirs : ℕ → Option Text → World → Option World
  prune_empty_parent_dirs fuel none w = some w
  prune_empty_parent_dirs zero (some dir) w = none
  prune_empty_parent_dirs (suc fuel) (some dir) w =
      let next = went_up (s.remove_dir dir w) (prune_empty_parent_dirs fuel (s.parent dir)) in
      if s.is_empty_dir dir w then next else some w

  abbrev or_else : Option World → World → World
  or_else none w = w
  or_else (some v) w = v

  -- A path has at most as many parents as characters.
  unfoldable pub delete_local_path : Text → World → Done World
  unfolding prune_empty_parent_dirs
  delete_local_path path w =
      and_then (s.remove_file path w)
        λ w. (ok tt, or_else (prune_empty_parent_dirs (length path) (s.parent path) w) w)

  abbrev pub failed : {World : Type 0} → Text → World → Done World
  failed error w = (err error, w)

  -- Above 5 GiB an object goes through a file.
  abbrev pub relay : Client → Client → ℕ → Text → Text → Text → Text → World → Done World
  relay source_client destination_client bytes source_bucket source_key bucket key w =
      if ltb (5 * 1024 * 1024 * 1024) bytes
      then (let spool = s.spool_path source_key w in
          and_then (s.download_object_to_file source_client source_bucket source_key spool w) λ w.
            and_also
              (s.upload_file destination_client bucket key spool (s.guess_content_type spool) w)
              (s.remove_file spool))
      else s.relay_object_to_s3 source_client source_bucket source_key destination_client bucket key
          w

  -- By strategy, source, destination and clients, tested in this order.
  abbrev pub execute_by :
      SyncExecutionStrategy
      → TransferEndpoint
      → TransferEndpoint
      → Option Client
      → Option Client
      → ℕ
      → World
      → Done World
  execute_by upload (s3 _ _ _) _ _ _ bytes w =
      failed (text "upload strategy requires a local source") w
  execute_by upload (local path) (local _) _ _ bytes w =
      failed (text "upload strategy requires an s3 destination") w
  execute_by upload (local path) (s3 _ bucket key) _ none bytes w =
      failed (text "missing destination client") w
  execute_by upload (local path) (s3 _ bucket key) _ (some client) bytes w =
      s.upload_file client bucket key path (s.guess_content_type path) w
  execute_by download (local _) _ _ _ bytes w =
      failed (text "download strategy requires an s3 source") w
  execute_by download (s3 _ bucket key) (s3 _ _ _) _ _ bytes w =
      failed (text "download strategy requires a local destination") w
  execute_by download (s3 _ bucket key) (local path) none _ bytes w =
      failed (text "missing source client") w
  execute_by download (s3 _ bucket key) (local path) (some client) _ bytes w =
      s.download_object_to_file client bucket key path w
  execute_by server_side_copy (local _) _ _ _ bytes w =
      failed (text "server-side copy requires an s3 source") w
  execute_by server_side_copy (s3 _ _ _) (local _) _ _ bytes w =
      failed (text "server-side copy requires an s3 destination") w
  execute_by server_side_copy (s3 _ b k) (s3 _ bucket key) none _ bytes w =
      failed (text "missing source client") w
  execute_by server_side_copy (s3 _ b k) (s3 _ bucket key) (some client) _ bytes w =
      s.copy_object client b k bucket key w
  execute_by client_relay (local _) _ _ _ bytes w =
      failed (text "client relay requires an s3 source") w
  execute_by client_relay (s3 _ _ _) (local _) _ _ bytes w =
      failed (text "client relay requires an s3 destination") w
  execute_by client_relay (s3 _ b k) (s3 _ bucket key) none _ bytes w =
      failed (text "missing source client") w
  execute_by client_relay (s3 _ b k) (s3 _ bucket key) (some client) none bytes w =
      failed (text "missing destination client") w
  execute_by client_relay (s3 _ b k) (s3 _ bucket key) (some client) (some other) bytes w =
      relay client other bytes b k bucket key w
  execute_by delete_remote _ (local _) _ _ bytes w =
      failed (text "remote delete requires an s3 destination") w
  execute_by delete_remote _ (s3 _ bucket key) _ none bytes w =
      failed (text "missing destination client") w
  execute_by delete_remote _ (s3 _ bucket key) _ (some client) bytes w =
      s.delete_object client bucket key w
  execute_by delete_local _ (s3 _ _ _) _ _ bytes w =
      failed (text "local delete requires a local destination") w
  execute_by delete_local _ (local path) _ _ bytes w = delete_local_path path w

  unfoldable pub execute_sync_run_item :
      Option Client → Option Client → SyncRunItem → World → Done World
  unfolding delete_local_path
  execute_sync_run_item source_client destination_client item w =
      execute_by item.strategy item.source item.destination source_client destination_client
        item.bytes w

-- The client that an endpoint needs.
abbrev pub client_of :
    {Client : Type 0} → (Text → Result Client) → TransferEndpoint → Result (Option Client)
client_of make_client (local _) = ok none
client_of make_client (s3 id _ _) = elim (make_client id) [
  | ok client ↦ ok (some client)
  | err error ↦ err error
]

-- The future of a transfer: the error of a client that cannot be made, or the work.
abbrev pub transfer_with :
    {Client World : Type 0}
    → SyncStorage Client World
    → Result (Option Client)
    → Result (Option Client)
    → SyncRunItem
    → World
    → Done World
transfer_with s (err error) destination item w = (err error, w)
transfer_with s (ok source) (err error) item w = (err error, w)
transfer_with s (ok source) (ok destination) item w =
    execute_sync_run_item s source destination item w

unfoldable pub into_task :
    {Client World : Type 0}
    → SyncStorage Client World
    → (Text → Result Client)
    → SyncRunItem
    → World
    → Done World
unfolding execute_sync_run_item
into_task s make_client item w =
    transfer_with s (client_of make_client item.source) (client_of make_client item.destination)
      item w
