-- ===== src/Sync/Plan.antt =====
-- `build_sync_plan` of src/app/sync_ops.rs.
pub mod Paths
pub mod Items
pub mod Lookup
pub mod Summary
pub mod Decisions
pub mod Convergence
use Prim.Native.Nat.Ordering.{gt}
use abixio_ui.Common.{
  ℕ, ◌+◌, ◌%◌, ◌^◌, Option, none, some, List, [], ◌∷◌, ◌++◌, if◌then◌else◌, ◌==◌, length,
}
use abixio_ui.Common.Text.{Text, text_eq, compare_text}
use abixio_ui.Common.Map
use abixio_ui.Sync.Types.{SyncMode, SyncPolicy, SyncCompareMode, SyncObject, SyncPlanAction}
use abixio_ui.Sync.Types.{SyncPlanItem, SyncPlanSummary, SyncPlan}
use abixio_ui.Sync.Types.SyncPlanAction.{create, update, delete, skip, conflict}
use abixio_ui.Sync.Types.SyncPlanReason.{missing_on_destination}
use abixio_ui.Sync.Compare.{
  Decision, compare_sync_objects, compare_copy_objects, missing_on_source_action,
}

-- `u64` addition of a release build.
abbrev pub add64 : ℕ → ℕ → ℕ
add64 a b = (a + b) % 2 ^ 64

-- `for item in source { map.insert(item.relative_path.clone(), item); }`
unfoldable pub collect : List SyncObject → List (Text × SyncObject) → List (Text × SyncObject)
collect [] m = m
collect (o ∷ objects) m = collect objects (Map.insert o.relative_path o m)

-- `all_paths.sort()`
unfoldable pub insert_sorted : Text → List Text → List Text
insert_sorted a [] = a ∷ []
insert_sorted a (b ∷ l) = elim (compare_text a b) [ gt ↦ b ∷ insert_sorted a l | _ ↦ a ∷ b ∷ l ]

unfoldable pub sort : List Text → List Text
unfolding insert_sorted
sort [] = []
sort (a ∷ l) = insert_sorted a (sort l)

-- `all_paths.dedup()`
unfoldable pub dedup : List Text → List Text
dedup [] = []
dedup (a ∷ []) = a ∷ []
dedup (a ∷ b ∷ l) = let rest = dedup (b ∷ l) in if a == b then rest else a ∷ rest

-- The `match (&source, &destination)`; `none` is its `continue`.
unfoldable pub decide_path :
    SyncMode
    → SyncPolicy
    → SyncCompareMode
    → Option SyncObject
    → Option SyncObject
    → Option Decision
unfolding compare_sync_objects compare_copy_objects missing_on_source_action
decide_path SyncMode.copy p c (some s) (some d) = some (compare_copy_objects s d c)
decide_path m p c (some s) (some d) = some (compare_sync_objects s d c p)
decide_path m p c (some s) none = some (create, missing_on_destination)
decide_path m p c none (some d) = some (missing_on_source_action m p)
decide_path m p c none none = none

unfoldable pub size_of : Option SyncObject → ℕ
size_of (some o) = o.size
size_of none = 0

-- The `match action` that counts.
unfoldable pub count_action :
    SyncPlanAction → Option SyncObject → Option SyncObject → SyncPlanSummary → SyncPlanSummary
unfolding size_of
count_action create s d t = record t {
  creates = t.creates + 1;
  bytes_to_create = add64 t.bytes_to_create (size_of s);
}
count_action update s d t = record t {
  updates = t.updates + 1;
  bytes_to_update = add64 t.bytes_to_update (size_of s);
}
count_action delete s d t = record t {
  deletes = t.deletes + 1;
  bytes_to_delete = add64 t.bytes_to_delete (size_of d);
}
count_action skip s d t = record t { skips = t.skips + 1 }
count_action conflict s d t = record t { conflicts = t.conflicts + 1 }

-- The rest of the loop's body: the counters and `items.push`.
unfoldable pub push_item :
    Text → Option SyncObject → Option SyncObject → Option Decision → SyncPlan → SyncPlan
unfolding count_action
push_item path s d none plan = plan
push_item path s d (some (action, reason)) plan = record {
  items =
      plan.items
      ++ record {
        action = action;
        reason = reason;
        relative_path = path;
        source = s;
        destination = d;
      }
        ∷ [];
  summary = count_action action s d plan.summary;
}

module _ (mode : SyncMode) (policy : SyncPolicy) (compare_mode : SyncCompareMode) where
  -- `for path in all_paths`
  unfoldable pub plan_loop :
      List (Text × SyncObject) → List (Text × SyncObject) → List Text → SyncPlan → SyncPlan
  plan_loop src dst [] plan = plan
  plan_loop src dst (path ∷ paths) plan =
      let s = Map.lookup path src in
      let d = Map.lookup path dst in
      plan_loop src dst paths (push_item path s d (decide_path mode policy compare_mode s d) plan)

unfoldable pub empty_summary : ℕ → ℕ → SyncPlanSummary
empty_summary source_scanned destination_scanned = record {
  creates = 0;
  updates = 0;
  deletes = 0;
  skips = 0;
  conflicts = 0;
  bytes_to_create = 0;
  bytes_to_update = 0;
  bytes_to_delete = 0;
  source_scanned = source_scanned;
  destination_scanned = destination_scanned;
}

unfoldable pub all_paths : List (Text × SyncObject) → List (Text × SyncObject) → List Text
unfolding sort dedup Map.keys
all_paths src dst = dedup (sort (Map.keys src ++ Map.keys dst))

unfoldable pub build_sync_plan :
    List SyncObject → List SyncObject → SyncMode → SyncPolicy → SyncCompareMode → SyncPlan
unfolding plan_loop push_item decide_path Map.lookup collect Map.insert all_paths empty_summary
build_sync_plan source destination mode policy compare_mode =
    let src = collect source [] in
    let dst = collect destination [] in
    plan_loop mode policy compare_mode src dst (all_paths src dst)
      (record { items = []; summary = empty_summary (length src) (length dst) })
