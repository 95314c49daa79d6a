-- ===== src/Sync/Plan/Convergence.antt =====
-- When a plan has nothing to do (`build_sync_plan`, src/app/sync_ops.rs).
use abixio_ui.Common.{
  Option, none, some, List, [], ◌∷◌, ◌≡◌, ◌≢◌, ◌↔◌, arith, All, sym, Bool-cases, inl, inr, ◌==◌,
  nat_eq, option_eq,
}
use mathlib.Core.Path.{subst}
use abixio_ui.Common.Text.{Text, text_eq}
use abixio_ui.Sync.Types.{SyncMode, SyncPolicy, SyncCompareMode, SyncObject}
use abixio_ui.Sync.Types.{SyncPlanItem}
use abixio_ui.Sync.Types.SyncPlanAction.{skip}
use abixio_ui.Sync.Types.SyncCompareMode.{
  size_only, size_and_mod_time, update_if_source_newer, checksum_if_available, always_overwrite,
}
use abixio_ui.Sync.Compare.{compare_sync_objects}
use abixio_ui.Sync.Plan.{decide_path, build_sync_plan}
use abixio_ui.Sync.Plan.Items.{object_at, items_at, listed, planned}
use abixio_ui.Sync.Plan.Lookup.{items_at-build_sync_plan}
use abixio_ui.Sync.Plan.Decisions.{Converges}

-- What two objects have in common when a compare mode takes them for the same one.
-- `ChecksumIfAvailable` needs an etag, and `AlwaysOverwrite` never takes them so.
abbrev pub SameObject : SyncCompareMode → SyncObject → SyncObject → Type 0
SameObject size_only s d = s.size ≡ d.size
SameObject size_and_mod_time s d = (s.size ≡ d.size) × (s.modified ≡ d.modified)
SameObject update_if_source_newer s d = (s.size ≡ d.size) × (s.modified ≡ d.modified)
SameObject checksum_if_available s d = (s.etag ≢ none) × (s.etag ≡ d.etag) × (s.size ≡ d.size)
SameObject always_overwrite s d = ⊥

-- Both sides have the same object under a path, or neither has any.
abbrev pub Agree : SyncCompareMode → Option SyncObject → Option SyncObject → Type 0
Agree c none none = Unit
Agree c (some s) (some d) = SameObject c s d
Agree c (some s) none = ⊥
Agree c none (some d) = ⊥

abbrev pub IsSkip : SyncPlanItem → Type 0
IsSkip i = i.action ≡ skip

All-items_at :
    (q : Text) (items : List SyncPlanItem) → All IsSkip items → All IsSkip (items_at q items)
All-items_at q [] h = tt
All-items_at q (i ∷ items) h = elim (Bool-cases (q == i.relative_path)) [
  | inl e ↦ rw e (h.0, All-items_at q items h.1)
  | inr e ↦ rw e (All-items_at q items h.1)
]

IsSkip-head :
    (i : SyncPlanItem) (items : List SyncPlanItem)
    → All IsSkip (items_at i.relative_path (i ∷ items))
    → IsSkip i
IsSkip-head i items h = elim (Bool-cases (i.relative_path == i.relative_path)) [
  | inl e ↦ let at = rw e at h in at.0
  | inr e ↦ absurd (ground arith)
]

IsSkip-tail :
    (q : Text) (i : SyncPlanItem) (items : List SyncPlanItem)
    → All IsSkip (items_at q (i ∷ items))
    → All IsSkip (items_at q items)
IsSkip-tail q i items h = elim (Bool-cases (q == i.relative_path)) [
  | inl e ↦ let at = rw e at h in at.1
  | inr e ↦ let at = rw e at h in at
]

All-of-items_at :
    (items : List SyncPlanItem) → ((q : Text) → All IsSkip (items_at q items)) → All IsSkip items
All-of-items_at [] h = tt
All-of-items_at (i ∷ items) h = (
  IsSkip-head i items (h i.relative_path),
  All-of-items_at items λ q. IsSkip-tail q i items (h q),
)

module _ (p : SyncPolicy) (c : SyncCompareMode) (converges : Converges p) where
  compare_sync_objects-SameObject :
      (s d : SyncObject) → ((compare_sync_objects s d c p).0 ≡ skip) ↔ SameObject c s d
  compare_sync_objects-SameObject s d = by_mode c
    where
      by_mode : (c : SyncCompareMode) → ((compare_sync_objects s d c p).0 ≡ skip) ↔ SameObject c s d
      by_mode size_only = unfold compare_sync_objects in ground (arith, converges)
      by_mode size_and_mod_time = unfold compare_sync_objects in ground (arith, converges)
      by_mode update_if_source_newer = unfold compare_sync_objects in ground (arith, converges)
      by_mode checksum_if_available = unfold compare_sync_objects in ground (arith, converges)
      by_mode always_overwrite = unfold compare_sync_objects in ground (arith, converges)

  planned-Agree :
      (q : Text) (s d : Option SyncObject)
      → All IsSkip (listed (planned SyncMode.sync p c q s d)) ↔ Agree c s d
  unfolding decide_path
  planned-Agree q (some s) (some d) = ground (arith, compare_sync_objects-SameObject s d)
  planned-Agree q (some s) none = ground arith
  planned-Agree q none (some d) = ground (arith, converges)
  planned-Agree q none none = ground arith

-- Under a policy that overwrites changed objects, deletes extras and lets the source win, the plan of
-- a sync has nothing to do, all its items being skips, exactly when under every path both listings
-- have the same object, in the sense of the compare mode, or neither has any.
pub build_sync_plan-Agree :
    (p : SyncPolicy) (c : SyncCompareMode) (source destination : List SyncObject)
    → Converges p
    → All IsSkip (build_sync_plan source destination SyncMode.sync p c).items
      ↔ ((q : Text) → Agree c (object_at q source) (object_at q destination))
build_sync_plan-Agree p c source destination converges =
    let items = (build_sync_plan source destination SyncMode.sync p c).items in
    let at = λ (q : Text). items_at-build_sync_plan SyncMode.sync p c q source destination in
    let agree =
      λ (q : Text). planned-Agree p c converges q (object_at q source) (object_at q destination) in
    (
      λ h q. (agree q).0 (subst (All IsSkip) (at q) (All-items_at q items h)),
      λ h. All-of-items_at items λ q. subst (All IsSkip) (sym (at q)) ((agree q).1 (h q)),
    )
