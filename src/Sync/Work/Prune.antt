-- ===== src/Sync/Work/Prune.antt =====
-- The loop that removes empty directories (`prune_empty_parent_dirs`, src/app/transfer_ops.rs).
use abixio_ui.Common.{
  ℕ, zero, suc, ◌≤◌, ◌<◌, Option, none, some, ◌≢◌, arith, length, Bool-cases, inl, inr,
}
use abixio_ui.Common.Text.{Text}
use abixio_ui.Common.Result.{ok, err}
use abixio_ui.Sync.Work.{SyncStorage, Done, went_up, prune_empty_parent_dirs}

-- `Path::parent` drops the last component.
abbrev pub IsShorter : Text → Option Text → Type 0
IsShorter path none = Unit
IsShorter path (some dir) = length dir < length path

module _ {Client World : Type 0} (s : SyncStorage Client World)
    (shorter : (path : Text) → IsShorter path (s.parent path)) where
  went_up_total :
      (call : Done World) (next : World → Option World)
      → ((w : World) → next w ≢ none)
      → went_up s call next ≢ none
  went_up_total (ok _, w) next h = h w
  went_up_total (err _, w) next h = λ e. cc

  prune_total :
      (fuel : ℕ) (path : Text) (o : Option Text) (w : World)
      → length path ≤ fuel
      → IsShorter path o
      → prune_empty_parent_dirs s fuel o w ≢ none
  unfolding prune_empty_parent_dirs
  prune_total fuel path none w enough short = λ e. cc
  prune_total zero path (some dir) w enough short = absurd (omega arith)
  prune_total (suc fuel) path (some dir) w enough short = elim (Bool-cases (s.is_empty_dir dir w)) [
    | inl e ↦ rw e (
        went_up_total (s.remove_dir dir w) _
          λ v. prune_total fuel dir (s.parent dir) v (omega arith) (shorter dir))
    | inr e ↦ rw e (λ e. cc)
  ]

  -- Where every parent of a path is shorter than it, the loop ends within as many rounds as the path
  -- has characters, whatever it finds.
  pub prune_empty_parent_dirs_total :
      (path : Text) (w : World) → prune_empty_parent_dirs s (length path) (s.parent path) w ≢ none
  prune_empty_parent_dirs_total path w =
      prune_total (length path) path (s.parent path) w (omega arith) (shorter path)
