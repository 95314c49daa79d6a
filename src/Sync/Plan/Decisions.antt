-- ===== src/Sync/Plan/Decisions.antt =====
-- The decision table of the planner, by mode and policy (`build_sync_plan` and the comparisons of
-- src/app/sync_ops.rs).
use abixio_ui.Common.{true, false, Option, none, some, ◌≡◌, ◌≢◌, ◌⊎◌, ◌↔◌, arith, nat_eq, option_eq}
use abixio_ui.Common.Text.{text_eq}
use abixio_ui.Sync.Types.{SyncMode, SyncPolicy, SyncCompareMode, SyncObject, SyncPlanAction}
use abixio_ui.Sync.Types.{SyncDestinationNewerPolicy}
use abixio_ui.Sync.Types.SyncPlanAction.{delete, conflict}
use abixio_ui.Sync.Types.SyncCompareMode.{size_only}
use abixio_ui.Sync.Compare.{Decision, compare_sync_objects, compare_copy_objects}
use abixio_ui.Sync.Plan.{decide_path}

abbrev pub action_of : Option Decision → Option SyncPlanAction
action_of none = none
action_of (some (action, _)) = some action

-- The table for copies is the table for syncs under a policy that overwrites changed objects and
-- skips those whose destination is newer.
pub compare_copy_objects-eq-compare_sync_objects :
    (s d : SyncObject) (c : SyncCompareMode) (p : SyncPolicy)
    → p.overwrite_changed ≡ true
    → p.destination_newer_policy ≡ SyncDestinationNewerPolicy.skip
    → compare_copy_objects s d c ≡ compare_sync_objects s d c p
unfolding compare_copy_objects compare_sync_objects
compare_copy_objects-eq-compare_sync_objects s d size_only p h k = ground arith
compare_copy_objects-eq-compare_sync_objects s d _ p h k = ground arith

-- `Copy` never deletes and never reports a conflict, whatever the policy.
pub decide_path-copy :
    (p : SyncPolicy) (c : SyncCompareMode) (s d : Option SyncObject)
    → (action_of (decide_path SyncMode.copy p c s d) ≢ some delete)
      × (action_of (decide_path SyncMode.copy p c s d) ≢ some conflict)
unfolding decide_path
decide_path-copy p size_only (some s) (some d) = ground arith
decide_path-copy p _ (some s) (some d) = ground arith
decide_path-copy p c none (some d) = ground arith
decide_path-copy p c (some s) none = ground arith
decide_path-copy p c none none = ground arith

compare_sync_objects-ne-delete :
    (s d : SyncObject) (c : SyncCompareMode) (p : SyncPolicy)
    → (compare_sync_objects s d c p).0 ≢ delete
unfolding compare_sync_objects
compare_sync_objects-ne-delete s d size_only p = ground arith
compare_sync_objects-ne-delete s d _ p = ground arith

-- A path is deleted exactly when only the destination has it, the mode is not `Copy`, and the
-- policy deletes extras.
pub decide_path-eq-delete :
    (m : SyncMode) (p : SyncPolicy) (c : SyncCompareMode) (s d : Option SyncObject)
    → (action_of (decide_path m p c s d) ≡ some delete)
      ↔ ((s ≡ none) × (d ≢ none) × (m ≢ SyncMode.copy) × (p.delete_extras ≡ true))
unfolding decide_path
decide_path-eq-delete SyncMode.copy p c (some s) (some d) =
    (λ h. absurd ((decide_path-copy p c (some s) (some d)).0 h), λ h. cc)
decide_path-eq-delete _ p c (some s) (some d) =
    ground (arith, compare_sync_objects-ne-delete s d c p)
decide_path-eq-delete SyncMode.copy p c (some s) none = ground arith
decide_path-eq-delete _ p c (some s) none = ground arith
decide_path-eq-delete SyncMode.copy p c none (some d) = ground arith
decide_path-eq-delete _ p c none (some d) = ground arith
decide_path-eq-delete SyncMode.copy p c none none = ground arith
decide_path-eq-delete _ p c none none = ground arith

compare_sync_objects-conflict :
    (s d : SyncObject) (c : SyncCompareMode) (p : SyncPolicy)
    → (compare_sync_objects s d c p).0 ≡ conflict
    → (p.overwrite_changed ≡ false)
      ⊎ (p.destination_newer_policy ≡ SyncDestinationNewerPolicy.conflict)
unfolding compare_sync_objects
compare_sync_objects-conflict s d size_only p h = ground arith
compare_sync_objects-conflict s d _ p h = ground arith

-- A conflict arises only under a policy that keeps changed objects, or one that asks for review of
-- newer destinations. So the presets `Converge` and `UpdateOnly` never report one.
pub decide_path-conflict :
    (m : SyncMode) (p : SyncPolicy) (c : SyncCompareMode) (s d : Option SyncObject)
    → action_of (decide_path m p c s d) ≡ some conflict
    → (p.overwrite_changed ≡ false)
      ⊎ (p.destination_newer_policy ≡ SyncDestinationNewerPolicy.conflict)
unfolding decide_path
decide_path-conflict SyncMode.copy p c (some s) (some d) h =
    absurd ((decide_path-copy p c (some s) (some d)).1 h)
decide_path-conflict _ p c (some s) (some d) h =
    ground (arith, compare_sync_objects-conflict s d c p)
decide_path-conflict SyncMode.copy p c (some s) none h = cc
decide_path-conflict _ p c (some s) none h = cc
decide_path-conflict SyncMode.copy p c none (some d) h = cc
decide_path-conflict _ p c none (some d) h = ground arith
decide_path-conflict SyncMode.copy p c none none h = cc
decide_path-conflict _ p c none none h = cc

-- The policy overwrites every changed object and deletes every extra, as `Converge` does.
pub record Converges (p : SyncPolicy) : Type 0 where
  pub overwrites : p.overwrite_changed ≡ true
  pub deletes : p.delete_extras ≡ true
  pub source_wins : p.destination_newer_policy ≡ SyncDestinationNewerPolicy.source_wins
