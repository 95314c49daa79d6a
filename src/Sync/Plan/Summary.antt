-- ===== src/Sync/Plan/Summary.antt =====
-- The counters of a plan (`SyncPlanSummary`, filled by `build_sync_plan` of src/app/sync_ops.rs).
use abixio_ui.Common.{ℕ, ◌+◌, ◌%◌, ◌^◌, Option, none, some, List, [], ◌∷◌, ◌++◌, ◌≡◌, arith}
use abixio_ui.Common.{length}
use abixio_ui.Common.Text.{Text}
use abixio_ui.Sync.Types.{SyncMode, SyncPolicy, SyncCompareMode, SyncObject, SyncPlanAction}
use abixio_ui.Sync.Types.{SyncPlanItem, SyncPlanSummary, SyncPlan}
use abixio_ui.Sync.Types.SyncPlanAction.{create, update, delete, skip, conflict}
use abixio_ui.Sync.Compare.{Decision}
use abixio_ui.Sync.Plan.{collect, size_of, push_item, plan_loop, all_paths, build_sync_plan}

-- 1 where the two actions are one, and 0 elsewhere.
abbrev hit : SyncPlanAction → SyncPlanAction → ℕ
hit create create = 1
hit update update = 1
hit delete delete = 1
hit skip skip = 1
hit conflict conflict = 1
hit _ _ = 0

-- How many items of a list have an action.
abbrev pub count : SyncPlanAction → List SyncPlanItem → ℕ
count a [] = 0
count a (i ∷ items) = hit a i.action + count a items

-- The size that an item adds to the byte counter of an action.
abbrev weight : SyncPlanAction → SyncPlanItem → ℕ
weight create i = elim i.action [ create ↦ size_of i.source | _ ↦ 0 ]
weight update i = elim i.action [ update ↦ size_of i.source | _ ↦ 0 ]
weight delete i = elim i.action [ delete ↦ size_of i.destination | _ ↦ 0 ]
weight skip i = 0
weight conflict i = 0

-- The sum, without overflow, of the sizes that a list creates, updates or deletes.
abbrev pub bytes : SyncPlanAction → List SyncPlanItem → ℕ
bytes a [] = 0
bytes a (i ∷ items) = weight a i + bytes a items

-- The counters agree with a list of items; the byte counters wrap at 2^64.
pub record Counts (items : List SyncPlanItem) (t : SyncPlanSummary) : Type 0 where
  pub creates : t.creates ≡ count create items
  pub updates : t.updates ≡ count update items
  pub deletes : t.deletes ≡ count delete items
  pub skips : t.skips ≡ count skip items
  pub conflicts : t.conflicts ≡ count conflict items
  pub bytes_to_create : t.bytes_to_create ≡ bytes create items % 2 ^ 64
  pub bytes_to_update : t.bytes_to_update ≡ bytes update items % 2 ^ 64
  pub bytes_to_delete : t.bytes_to_delete ≡ bytes delete items % 2 ^ 64

count-snoc :
    (a : SyncPlanAction) (xs : List SyncPlanItem) (i : SyncPlanItem)
    → count a (xs ++ i ∷ []) ≡ count a xs + hit a i.action
count-snoc a [] i = omega arith
count-snoc a (x ∷ xs) i = omega (arith, count-snoc a xs i)

bytes-snoc :
    (a : SyncPlanAction) (xs : List SyncPlanItem) (i : SyncPlanItem)
    → bytes a (xs ++ i ∷ []) ≡ bytes a xs + weight a i
bytes-snoc a [] i = omega arith
bytes-snoc a (x ∷ xs) i = omega (arith, bytes-snoc a xs i)

count-total :
    (xs : List SyncPlanItem)
    → count create xs + count update xs + count delete xs + count skip xs + count conflict xs
      ≡ length xs
count-total [] = omega arith
count-total (i ∷ xs) = omega (arith, hit_total i.action, count-total xs)
  where
    hit_total :
        (a : SyncPlanAction)
        → hit create a + hit update a + hit delete a + hit skip a + hit conflict a ≡ 1
    hit_total create = omega arith
    hit_total update = omega arith
    hit_total delete = omega arith
    hit_total skip = omega arith
    hit_total conflict = omega arith

push_item-Counts :
    (q : Text) (s d : Option SyncObject) (o : Option Decision) (plan : SyncPlan)
    → Counts plan.items plan.summary
    → Counts (push_item q s d o plan).items (push_item q s d o plan).summary
unfolding push_item
push_item-Counts q s d none plan h = h
push_item-Counts q s d (some (a, r)) plan h = added a
  where
    added :
        (b : SyncPlanAction)
        → Counts
            (push_item q s d (some (b, r)) plan).items
            (push_item q s d (some (b, r)) plan).summary
    added create = omega (arith, count-snoc, bytes-snoc)
    added update = omega (arith, count-snoc, bytes-snoc)
    added delete = omega (arith, count-snoc, bytes-snoc)
    added skip = omega (arith, count-snoc, bytes-snoc)
    added conflict = omega (arith, count-snoc, bytes-snoc)

module _ (mode : SyncMode) (policy : SyncPolicy) (compare_mode : SyncCompareMode) where
  plan_loop-Counts :
      (src dst : List (Text × SyncObject)) (paths : List Text) (plan : SyncPlan)
      → Counts plan.items plan.summary
      → Counts
          (plan_loop mode policy compare_mode src dst paths plan).items
          (plan_loop mode policy compare_mode src dst paths plan).summary
  unfolding plan_loop
  plan_loop-Counts src dst [] plan h = h
  plan_loop-Counts src dst (q ∷ paths) plan h =
      plan_loop-Counts src dst paths _ (push_item-Counts q _ _ _ plan h)

  -- The counters of a plan are the numbers of its items with each action, and its byte counters
  -- the sums of the sizes created, updated and deleted, modulo 2^64.
  pub build_sync_plan-Counts :
      (source destination : List SyncObject)
      → let plan = build_sync_plan source destination mode policy compare_mode in
        Counts plan.items plan.summary
  unfolding build_sync_plan
  build_sync_plan-Counts source destination =
      plan_loop-Counts _ _ (all_paths (collect source []) (collect destination [])) _ (omega arith)
