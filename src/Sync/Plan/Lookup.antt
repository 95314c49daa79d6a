-- ===== src/Sync/Plan/Lookup.antt =====
-- What the plan holds for each path (`build_sync_plan` of src/app/sync_ops.rs).
use abixio_ui.Common.{
  Option, none, some, List, [], ◌∷◌, ◌++◌, ◌≡◌, ◌≢◌, refl, ◌∙◌, ◌⊎◌, inl, inr, sym, ap, arith, All,
  false,
}
use Prim.Native.Nat.Ordering.{lt}
use abixio_ui.Common.Text.{Text, text_eq, compare_text, contains}
use abixio_ui.Common.Text.Order.{compare_text_refl, lt_trans}
use mathlib.Core.List.{append-nil, append_assoc}
use abixio_ui.Common.Map
use abixio_ui.Sync.Types.{SyncMode, SyncPolicy, SyncCompareMode, SyncObject, SyncPlanItem, SyncPlan}
use abixio_ui.Sync.Compare.{Decision}
use abixio_ui.Sync.Plan.{collect, decide_path, push_item, plan_loop, all_paths, build_sync_plan}
use abixio_ui.Sync.Plan.Paths.{IsAscending, all_paths-IsAscending, contains-all_paths, All-contains}
use abixio_ui.Sync.Plan.Items.{
  object_at, item_at, items_at, listed, planned, item_at-build_sync_plan,
}

abbrev pub paths_of : List SyncPlanItem → List Text
paths_of [] = []
paths_of (i ∷ items) = i.relative_path ∷ paths_of items

-- No path before the first one stands in an ascending list.
contains-ascending :
    (p a : Text) (l : List Text)
    → compare_text p a ≡ lt
    → IsAscending (a ∷ l)
    → contains p (a ∷ l) ≡ false
contains-ascending p a [] before h = ground (arith, compare_text_refl p)
contains-ascending p a (b ∷ l) before h = ground (
  arith,
  compare_text_refl p,
  lt_trans p a b before h.0,
  contains-ascending p b l (lt_trans p a b before h.0) h.1,
)

contains-head : (a : Text) (l : List Text) → IsAscending (a ∷ l) → contains a l ≡ false
contains-head a [] h = refl
contains-head a (b ∷ l) h = contains-ascending a b l h.0 h.1

items_at-none :
    (p : Text) (items : List SyncPlanItem)
    → contains p (paths_of items) ≡ false
    → items_at p items ≡ []
items_at-none p [] h = refl
items_at-none p (i ∷ items) h = ground (arith, items_at-none p items)

items_at-IsAscending :
    (p : Text) (items : List SyncPlanItem)
    → IsAscending (paths_of items)
    → items_at p items ≡ listed (item_at p items)
items_at-IsAscending p [] h = refl
items_at-IsAscending p (i ∷ items) h = ground (
  arith,
  contains-head i.relative_path (paths_of items) h,
  items_at-none p items,
  items_at-IsAscending p items h.1,
)

paths_of-append :
    (xs : List SyncPlanItem) (i : SyncPlanItem)
    → paths_of (xs ++ i ∷ []) ≡ paths_of xs ++ i.relative_path ∷ []
paths_of-append [] i = refl
paths_of-append (x ∷ xs) i = ap (λ l. x.relative_path ∷ l) (paths_of-append xs i)

paths_of-push_item :
    (q : Text) (s d : Option SyncObject) (o : Option Decision) (plan : SyncPlan)
    → o ≢ none
    → paths_of (push_item q s d o plan).items ≡ paths_of plan.items ++ q ∷ []
unfolding push_item
paths_of-push_item q s d none plan h = absurd (h refl)
paths_of-push_item q s d (some (a, r)) plan h = paths_of-append plan.items _

module _ (mode : SyncMode) (policy : SyncPolicy) (compare_mode : SyncCompareMode) where
  abbrev IsDecided : List (Text × SyncObject) → List (Text × SyncObject) → Text → Type 0
  IsDecided src dst q =
      decide_path mode policy compare_mode (Map.lookup q src) (Map.lookup q dst) ≢ none

  decide_path-ne-none :
      (s d : Option SyncObject)
      → (s ≢ none) ⊎ (d ≢ none)
      → decide_path mode policy compare_mode s d ≢ none
  unfolding decide_path
  decide_path-ne-none s d h = go mode s d h
    where
      go :
          (m : SyncMode) (s d : Option SyncObject)
          → (s ≢ none) ⊎ (d ≢ none)
          → decide_path m policy compare_mode s d ≢ none
      go m none none (inl h) = absurd (h refl)
      go m none none (inr h) = absurd (h refl)
      go SyncMode.copy (some s) (some d) h = λ e. cc
      go SyncMode.diff (some s) (some d) h = λ e. cc
      go SyncMode.sync (some s) (some d) h = λ e. cc
      go SyncMode.copy (some s) none h = λ e. cc
      go SyncMode.diff (some s) none h = λ e. cc
      go SyncMode.sync (some s) none h = λ e. cc
      go SyncMode.copy none (some d) h = λ e. cc
      go SyncMode.diff none (some d) h = λ e. cc
      go SyncMode.sync none (some d) h = λ e. cc

  paths_of-plan_loop :
      (src dst : List (Text × SyncObject)) (paths : List Text) (plan : SyncPlan)
      → All (IsDecided src dst) paths
      → paths_of (plan_loop mode policy compare_mode src dst paths plan).items
        ≡ paths_of plan.items ++ paths
  unfolding plan_loop
  paths_of-plan_loop src dst [] plan h = sym (append-nil (paths_of plan.items))
  paths_of-plan_loop src dst (q ∷ paths) plan h =
      paths_of-plan_loop src dst paths _ h.1
      ∙ rw (paths_of-push_item q _ _ _ plan h.0) (append_assoc (paths_of plan.items) (q ∷ []) paths)

  -- The items of a plan go through the paths in strictly ascending order: no path twice.
  pub build_sync_plan-IsAscending :
      (source destination : List SyncObject)
      → IsAscending (paths_of (build_sync_plan source destination mode policy compare_mode).items)
  unfolding build_sync_plan
  build_sync_plan-IsAscending source destination =
      let src = collect source [] in
      let dst = collect destination [] in
      rw
        (paths_of-plan_loop src dst (all_paths src dst) _ (
          All-contains (IsDecided src dst) _
            (λ q m. decide_path-ne-none _ _ ((contains-all_paths q src dst).0 m))))
        (all_paths-IsAscending src dst)

  -- For every path, all the items that the plan has under it are the one that the decision table
  -- gives the last objects that the two listings have there, and none where the table gives none.
  pub items_at-build_sync_plan :
      (p : Text) (source destination : List SyncObject)
      → items_at p (build_sync_plan source destination mode policy compare_mode).items
        ≡ listed (planned mode policy compare_mode p (object_at p source) (object_at p destination))
  items_at-build_sync_plan p source destination =
      items_at-IsAscending p (build_sync_plan source destination mode policy compare_mode).items
        (build_sync_plan-IsAscending source destination)
      ∙ ap listed (item_at-build_sync_plan mode policy compare_mode p source destination)
