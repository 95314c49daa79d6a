-- ===== src/Sync/Compare.antt =====
-- The decision for one path (`compare_sync_objects`, `compare_copy_objects`,
-- `missing_on_source_action` of src/app/sync_ops.rs).

use abixio_ui.Common.{Bool, true, false, not, ◌&&◌, Option, none, some, if◌then◌else◌}
use abixio_ui.Common.{◌==◌, nat_eq, option_eq}
use abixio_ui.Common.Text.{Text, text_eq, leb_text}
use abixio_ui.Sync.Types.{SyncMode, SyncDestinationNewerPolicy, SyncPolicy, SyncCompareMode}
use abixio_ui.Sync.Types.{SyncObject, SyncPlanAction, SyncPlanReason}
use abixio_ui.Sync.Types.SyncCompareMode.{
  size_only, size_and_mod_time, update_if_source_newer, checksum_if_available, always_overwrite,
}
use abixio_ui.Sync.Types.SyncPlanAction.{update, delete, skip, conflict}
use abixio_ui.Sync.Types.SyncPlanReason.{
  missing_on_source, size_mismatch, source_newer, destination_newer, checksum_mismatch, identical,
}

abbrev pub Decision : Type 0
Decision = SyncPlanAction × SyncPlanReason

unfoldable pub update_or_conflict : Bool → SyncPlanReason → Decision
update_or_conflict true reason = (update, reason)
update_or_conflict false reason = (conflict, reason)

-- The guard `(Some(s), Some(d)) if s <= d`, on the texts of the two modification times.
unfoldable pub not_after : Option Text → Option Text → Bool
not_after (some s) (some d) = leb_text s d
not_after (some s) none = false
not_after none d = false

abbrev has_etag : Option Text → Bool
has_etag (some _) = true
has_etag none = false

-- `source.etag.is_some() && source.etag == destination.etag && source.size == destination.size`
abbrev same_checksum : SyncObject → SyncObject → Bool
same_checksum s d = has_etag s.etag && s.etag == d.etag && s.size == d.size

-- The `match policy.destination_newer_policy`.
unfoldable pub destination_is_newer : SyncPolicy → SyncDestinationNewerPolicy → Decision
unfolding update_or_conflict
destination_is_newer p SyncDestinationNewerPolicy.source_wins =
    update_or_conflict p.overwrite_changed destination_newer
destination_is_newer p SyncDestinationNewerPolicy.skip = (skip, destination_newer)
destination_is_newer p SyncDestinationNewerPolicy.conflict = (conflict, destination_newer)

unfoldable pub compare_sync_objects :
    SyncObject → SyncObject → SyncCompareMode → SyncPolicy → Decision
unfolding update_or_conflict destination_is_newer not_after
compare_sync_objects s d always_overwrite p = update_or_conflict p.overwrite_changed source_newer
compare_sync_objects s d size_only p =
    if s.size == d.size
    then (skip, identical)
    else update_or_conflict p.overwrite_changed size_mismatch
compare_sync_objects s d size_and_mod_time p =
    if not (s.size == d.size)
    then update_or_conflict p.overwrite_changed size_mismatch
    else if s.modified == d.modified
    then (skip, identical)
    else update_or_conflict p.overwrite_changed source_newer
compare_sync_objects s d update_if_source_newer p =
    if not (s.size == d.size)
    then update_or_conflict p.overwrite_changed size_mismatch
    else if s.modified == d.modified
    then (skip, identical)
    else if not_after s.modified d.modified
    then destination_is_newer p p.destination_newer_policy
    else update_or_conflict p.overwrite_changed source_newer
compare_sync_objects s d checksum_if_available p =
    if same_checksum s d
    then (skip, identical)
    else if s.size == d.size
    then update_or_conflict p.overwrite_changed checksum_mismatch
    else update_or_conflict p.overwrite_changed size_mismatch

unfoldable pub compare_copy_objects : SyncObject → SyncObject → SyncCompareMode → Decision
unfolding not_after
compare_copy_objects s d always_overwrite = (update, source_newer)
compare_copy_objects s d size_only =
    if s.size == d.size then (skip, identical) else (update, size_mismatch)
compare_copy_objects s d size_and_mod_time =
    if s.size == d.size
    then (if s.modified == d.modified then (skip, identical) else (update, source_newer))
    else (update, size_mismatch)
compare_copy_objects s d update_if_source_newer =
    if s.size == d.size
    then (if s.modified == d.modified
        then (skip, identical)
        else if not_after s.modified d.modified
        then (skip, destination_newer)
        else (update, source_newer))
    else (update, size_mismatch)
compare_copy_objects s d checksum_if_available =
    if same_checksum s d
    then (skip, identical)
    else if s.size == d.size
    then (update, checksum_mismatch)
    else (update, size_mismatch)

unfoldable pub missing_on_source_action : SyncMode → SyncPolicy → Decision
missing_on_source_action SyncMode.copy p = (skip, missing_on_source)
missing_on_source_action SyncMode.sync p =
    if p.delete_extras then (delete, missing_on_source) else (skip, missing_on_source)
missing_on_source_action SyncMode.diff p =
    if p.delete_extras then (delete, missing_on_source) else (skip, missing_on_source)
