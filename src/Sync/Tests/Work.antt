-- ===== src/Sync/Tests/Work.antt =====
-- The work on the items of a small run (src/app/transfer_ops.rs), on a storage that only counts its
-- calls.
use abixio_ui.Common.{
  ℕ, suc, true, Option, none, some, [], ◌∷◌, ◌≡◌, ◌≢◌, refl, nat_eq, All, length, arith,
}
use abixio_ui.Common.Text.{Text, compare_text, text_eq}
use abixio_ui.Common.Result.{Result, ok}
use abixio_ui.Sync.Types.{SyncMode, SyncCompareMode, SyncPlan, policy}
use abixio_ui.Sync.Plan.{build_sync_plan}
use abixio_ui.Sync.State.{new}
use abixio_ui.Sync.RunPlan.{prepare_sync_run_plan}
use abixio_ui.Sync.Work.{SyncStorage, prune_empty_parent_dirs}
use abixio_ui.Sync.Work.Prune.{IsShorter, prune_empty_parent_dirs_total}
use abixio_ui.Sync.Work.Prepared.{Succeeds, Works, prepare_sync_run_plan-Works}
use abixio_ui.Sync.Tests.Data.{
  two_and_one, source_objects, destination_objects, converge_policy, settings,
}

abbrev parent_of : Text → Option Text
parent_of [] = none
parent_of (c ∷ path) = some path

abbrev one_call : ℕ → Result (Unit {0}) × ℕ
one_call calls = (ok tt, suc calls)

-- A path drops its first character, so that the tests see every round of the loop.
abbrev counting : SyncStorage ℕ ℕ
counting = record {
  upload_file = λ c b k path t w. one_call w;
  download_object_to_file = λ c b k path w. one_call w;
  copy_object = λ c b k b' k' w. one_call w;
  relay_object_to_s3 = λ c b k d b' k' w. one_call w;
  delete_object = λ c b k w. one_call w;
  remove_file = λ path w. one_call w;
  is_empty_dir = λ dir w. true;
  remove_dir = λ dir w. one_call w;
  parent = parent_of;
  guess_content_type = λ path. [];
  spool_path = λ key w. key;
}

counting-Succeeds : Succeeds counting
counting-Succeeds = record {
  upload_file-ok = λ c b k path t w. refl;
  download_object_to_file-ok = λ c b k path w. refl;
  copy_object-ok = λ c b k b' k' w. refl;
  relay_object_to_s3-ok = λ c b k d b' k' w. refl;
}

abbrev plan : SyncPlan
plan =
    build_sync_plan source_objects destination_objects SyncMode.sync converge_policy
      SyncCompareMode.size_only

plan_prepared : prepare_sync_run_plan settings plan ≡ ok two_and_one
unfolding prepare_sync_run_plan build_sync_plan policy compare_text text_eq nat_eq new
plan_prepared = refl

prepare_sync_run_plan-Works_example :
    All (Works counting counting-Succeeds (λ id. length id)) two_and_one.transfers
prepare_sync_run_plan-Works_example =
    prepare_sync_run_plan-Works counting counting-Succeeds (λ id. length id) settings plan
      two_and_one plan_prepared

parent_of-IsShorter : (path : Text) → IsShorter path (parent_of path)
parent_of-IsShorter [] = tt
parent_of-IsShorter (c ∷ path) = omega arith

-- Three empty directories go.
prune_test : prune_empty_parent_dirs counting 4 (parent_of (b'a' ∷ b'b' ∷ b'c' ∷ [])) 0 ≡ some 3
unfolding prune_empty_parent_dirs
prune_test = refl

three_rounds_test :
    prune_empty_parent_dirs counting 3 (parent_of (b'a' ∷ b'b' ∷ b'c' ∷ [])) 0 ≢ none
three_rounds_test =
    prune_empty_parent_dirs_total counting parent_of-IsShorter (b'a' ∷ b'b' ∷ b'c' ∷ []) 0
