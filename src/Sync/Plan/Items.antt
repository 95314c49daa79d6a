-- ===== src/Sync/Plan/Items.antt =====
-- The first item of a plan under a path (`build_sync_plan` of src/app/sync_ops.rs).
use abixio_ui.Common.{
  Option, none, some, List, [], ◌∷◌, ◌++◌, ◌==◌, ◌≡◌, refl, arith, if◌then◌else◌,
}
use abixio_ui.Common.Text.{Text, text_eq, contains}
use abixio_ui.Common.Map
use abixio_ui.Common.Map.Laws.{lookup-insert}
use abixio_ui.Sync.Types.{SyncMode, SyncPolicy, SyncCompareMode, SyncObject, SyncPlanItem, SyncPlan}
use abixio_ui.Sync.Compare.{Decision}
use abixio_ui.Sync.Plan.{collect, decide_path, push_item, plan_loop, build_sync_plan}
use abixio_ui.Sync.Plan.Paths.{contains-all_paths}

-- The object that a listing gives a path: the last one listed under it.
abbrev pub object_at : Text → List SyncObject → Option SyncObject
object_at p [] = none
object_at p (o ∷ objects) = elim (object_at p objects) [
  | some q ↦ some q
  | none ↦ if p == o.relative_path then some o else none
]

-- The first item of a plan under a path.
abbrev pub item_at : Text → List SyncPlanItem → Option SyncPlanItem
item_at p [] = none
item_at p (i ∷ items) = if p == i.relative_path then some i else item_at p items

-- All the items of a plan under a path.
abbrev pub items_at : Text → List SyncPlanItem → List SyncPlanItem
items_at p [] = []
items_at p (i ∷ items) =
    let rest = items_at p items in if p == i.relative_path then i ∷ rest else rest

-- As a list of at most one.
abbrev pub listed : Option SyncPlanItem → List SyncPlanItem
listed none = []
listed (some i) = i ∷ []

abbrev pub item_of :
    Text → Option SyncObject → Option SyncObject → Option Decision → Option SyncPlanItem
item_of p s d none = none
item_of p s d (some (action, reason)) =
    some
      (record { action = action; reason = reason; relative_path = p; source = s; destination = d })

lookup-collect :
    (p : Text) (objects : List SyncObject) (m : List (Text × SyncObject))
    → Map.lookup p (collect objects m)
      ≡ elim (object_at p objects) [ some o ↦ some o | none ↦ Map.lookup p m ]
unfolding collect
lookup-collect p [] m = refl
lookup-collect p (o ∷ objects) m = ground (
  arith,
  lookup-collect p objects (Map.insert o.relative_path o m),
  lookup-insert o.relative_path p o m,
)

pub lookup-collect_nil :
    (p : Text) (objects : List SyncObject) → Map.lookup p (collect objects []) ≡ object_at p objects
unfolding Map.lookup
lookup-collect_nil p objects = ground (arith, lookup-collect p objects [])

item_at-append :
    (p : Text) (xs : List SyncPlanItem) (i : SyncPlanItem)
    → item_at p (xs ++ i ∷ []) ≡ elim (item_at p xs) [
      | some j ↦ some j
      | none ↦ if p == i.relative_path then some i else none
    ]
item_at-append p [] i = refl
item_at-append p (x ∷ xs) i = ground (arith, item_at-append p xs i)

item_at-push_item :
    (p q : Text) (s d : Option SyncObject) (o : Option Decision) (plan : SyncPlan)
    → item_at p (push_item q s d o plan).items ≡ elim (item_at p plan.items) [
      | some j ↦ some j
      | none ↦ if p == q then item_of q s d o else none
    ]
unfolding push_item
item_at-push_item p q s d none plan = ground arith
item_at-push_item p q s d (some (a, r)) plan = item_at-append p plan.items _

module _ (mode : SyncMode) (policy : SyncPolicy) (compare_mode : SyncCompareMode) where
  -- The item that the decision table gives a path with these two objects.
  abbrev pub planned : Text → Option SyncObject → Option SyncObject → Option SyncPlanItem
  planned p s d = item_of p s d (decide_path mode policy compare_mode s d)

  item_at-plan_loop :
      (p : Text) (src dst : List (Text × SyncObject)) (paths : List Text) (plan : SyncPlan)
      → item_at p (plan_loop mode policy compare_mode src dst paths plan).items
        ≡ elim (item_at p plan.items) [
          | some j ↦ some j
          | none ↦
              if contains p paths then planned p (Map.lookup p src) (Map.lookup p dst) else none
        ]
  unfolding plan_loop
  item_at-plan_loop p src dst [] plan = ground arith
  item_at-plan_loop p src dst (q ∷ paths) plan = ground (
    arith,
    item_at-plan_loop p src dst paths (
        push_item q (Map.lookup q src) (Map.lookup q dst)
          (decide_path mode policy compare_mode (Map.lookup q src) (Map.lookup q dst)) plan),
    item_at-push_item p q (Map.lookup q src) (Map.lookup q dst)
        (decide_path mode policy compare_mode (Map.lookup q src) (Map.lookup q dst)) plan,
  )

  planned-eq-none : (p : Text) → planned p none none ≡ none
  unfolding decide_path
  planned-eq-none p = elim-mode mode
    where
      elim-mode :
          (m : SyncMode) → item_of p none none (decide_path m policy compare_mode none none) ≡ none
      elim-mode SyncMode.copy = refl
      elim-mode SyncMode.diff = refl
      elim-mode SyncMode.sync = refl

  -- The first item under a path is the one of the last objects that the two listings have there.
  pub item_at-build_sync_plan :
      (p : Text) (source destination : List SyncObject)
      → item_at p (build_sync_plan source destination mode policy compare_mode).items
        ≡ planned p (object_at p source) (object_at p destination)
  unfolding build_sync_plan
  item_at-build_sync_plan p source destination =
      let src = collect source [] in
      let dst = collect destination [] in
      rw (item_at-plan_loop, ← lookup-collect_nil p source, ← lookup-collect_nil p destination)
        (ground (arith, contains-all_paths p src dst, planned-eq-none p))
