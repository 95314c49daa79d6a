-- ===== src/Sync/RunPlan/Deletes.antt =====
-- What a run plan deletes (`prepare_sync_run_plan` of a plan of `build_sync_plan`,
-- src/app/sync_ops.rs).
use abixio_ui.Common.{
  true, false, Option, none, some, List, [], ◌∷◌, ◌≡◌, ◌≢◌, refl, sym, arith, All, All-append, ap,
  ◌∙◌,
}
use mathlib.Core.Path.{subst}
use abixio_ui.Common.Text.{Text}
use abixio_ui.Common.Result.{ok, >>=-eq-ok, ok-injective}
use abixio_ui.Sync.Types.{
  SyncPlanAction, SyncPlanItem, SyncPlan, SyncMode, SyncPolicy, SyncCompareMode, SyncObject,
}
use abixio_ui.Sync.Types.SyncPlanAction.{create, update, delete, skip, conflict}
use abixio_ui.Sync.Compare.{Decision}
use abixio_ui.Sync.Plan.{collect, all_paths, decide_path, push_item, plan_loop, build_sync_plan}
use abixio_ui.Sync.Plan.Items.{object_at, lookup-collect_nil}
use abixio_ui.Sync.Plan.Decisions.{action_of, decide_path-eq-delete}
use abixio_ui.Sync.State.{SyncRunItem, SyncRunPlan, SyncState}
use abixio_ui.Sync.RunPlan.{
  build_transfer_endpoint, determine_delete_strategy, transfer_of, delete_of, add_item, run_loop,
  prepare_sync_run_plan,
}

-- An object that only the destination lists, under a policy and a mode that delete extras.
pub record IsExtra (mode : SyncMode) (p : SyncPolicy) (source destination : List SyncObject)
    (q : Text) : Type 0 where
  pub not_at_source : object_at q source ≡ none
  pub at_destination : object_at q destination ≢ none
  pub not_copy : mode ≢ SyncMode.copy
  pub delete_extras : p.delete_extras ≡ true

module _ (mode : SyncMode) (p : SyncPolicy) (c : SyncCompareMode)
    (source destination : List SyncObject) where
  abbrev OnlyExtra : SyncPlanItem → Type 0
  OnlyExtra i = i.action ≡ delete → IsExtra mode p source destination i.relative_path

  push_item-OnlyExtra :
      (q : Text) (s d : Option SyncObject) (o : Option Decision) (plan : SyncPlan)
      → object_at q source ≡ s
      → object_at q destination ≡ d
      → decide_path mode p c s d ≡ o
      → All OnlyExtra plan.items
      → All OnlyExtra (push_item q s d o plan).items
  unfolding push_item
  push_item-OnlyExtra q s d none plan at_s at_d is h = h
  push_item-OnlyExtra q s d (some (a, r)) plan at_s at_d is h =
      All-append OnlyExtra plan.items _ h (
        λ deletes.
            let (absent, present, not_copy, extras) =
              (decide_path-eq-delete mode p c s d).0 (ap action_of is ∙ ap some deletes) in
            record {
              not_at_source = at_s ∙ absent;
              at_destination = λ e. present (sym at_d ∙ e);
              not_copy = not_copy;
              delete_extras = extras;
            },
        tt,
      )

  plan_loop-OnlyExtra :
      (paths : List Text) (plan : SyncPlan)
      → All OnlyExtra plan.items
      → All OnlyExtra
          (plan_loop mode p c (collect source []) (collect destination []) paths plan).items
  unfolding plan_loop
  plan_loop-OnlyExtra [] plan h = h
  plan_loop-OnlyExtra (q ∷ paths) plan h = plan_loop-OnlyExtra paths _ (
      push_item-OnlyExtra q _ _ _ plan (sym (lookup-collect_nil q source))
        (sym (lookup-collect_nil q destination)) refl h)

-- A delete of a run, for the object of the destination that its path names.
pub record IsDelete (s : SyncState) (extra : Text → Type 0) (d : SyncRunItem) : Type 0 where
  pub is_extra : extra d.relative_path
  pub is_destination : build_transfer_endpoint s false d.relative_path ≡ ok d.destination

module _ (s : SyncState) (extra : Text → Type 0) where
  delete_of-IsDelete :
      (i : SyncPlanItem) {t : SyncRunItem}
      → extra i.relative_path
      → delete_of s i ≡ ok t
      → IsDelete s extra t
  unfolding delete_of
  delete_of-IsDelete i {t} e h =
      let (b, built, h) = >>=-eq-ok (build_transfer_endpoint s false i.relative_path) _ h in
      let (k, _, h) = >>=-eq-ok (determine_delete_strategy b) _ h in
      let same : i.relative_path ≡ t.relative_path = ground arith in
      let end : b ≡ t.destination = ground arith in
      record {
        is_extra = subst extra same e;
        is_destination = ap (build_transfer_endpoint s false) (sym same) ∙ built ∙ ap ok end;
      }

  kept :
      {a b : List SyncRunItem × List SyncRunItem}
      → ok a ≡ ok b
      → All (IsDelete s extra) a.1
      → All (IsDelete s extra) b.1
  kept same h = subst (λ r. All (IsDelete s extra) r.1) (ok-injective _ _ same) h

  add_item-IsDelete :
      (a : SyncPlanAction) (i : SyncPlanItem) (old : List SyncRunItem × List SyncRunItem)
      {new : List SyncRunItem × List SyncRunItem}
      → (a ≡ delete → extra i.relative_path)
      → All (IsDelete s extra) old.1
      → add_item s a i old ≡ ok new
      → All (IsDelete s extra) new.1
  unfolding add_item
  add_item-IsDelete create i old e h ran =
      let (t, _, ran) = >>=-eq-ok (transfer_of s i) _ ran in kept ran h
  add_item-IsDelete update i old e h ran =
      let (t, _, ran) = >>=-eq-ok (transfer_of s i) _ ran in kept ran h
  add_item-IsDelete delete i old e h ran =
      let (t, made, ran) = >>=-eq-ok (delete_of s i) _ ran in
      kept ran
        (All-append (IsDelete s extra) old.1 (t ∷ []) h (delete_of-IsDelete i (e refl) made, tt))
  add_item-IsDelete skip i old e h ran = kept ran h
  add_item-IsDelete conflict i old e h ran = kept ran h

  run_loop-IsDelete :
      (items : List SyncPlanItem) (old : List SyncRunItem × List SyncRunItem)
      {new : List SyncRunItem × List SyncRunItem}
      → All (λ i. i.action ≡ delete → extra i.relative_path) items
      → All (IsDelete s extra) old.1
      → run_loop s items old ≡ ok new
      → All (IsDelete s extra) new.1
  unfolding run_loop
  run_loop-IsDelete [] old e h ran = kept ran h
  run_loop-IsDelete (i ∷ items) old e h ran =
      let (mid, one, rest) = >>=-eq-ok (add_item s i.action i old) _ ran in
      run_loop-IsDelete items mid e.1 (add_item-IsDelete i.action i old e.0 h one) rest

-- Whatever a prepared run deletes, only the destination lists: the source has no object under its
-- path, the mode is not `Copy` and the policy deletes extras. Each delete goes to the endpoint that
-- its path has on the destination's side.
pub prepare_sync_run_plan-deletes :
    (s : SyncState) (mode : SyncMode) (p : SyncPolicy) (c : SyncCompareMode)
    (source destination : List SyncObject) {r : SyncRunPlan}
    → prepare_sync_run_plan s (build_sync_plan source destination mode p c) ≡ ok r
    → All (IsDelete s (IsExtra mode p source destination)) r.deletes
unfolding prepare_sync_run_plan build_sync_plan
prepare_sync_run_plan-deletes s mode p c source destination {r} h =
    let plan = build_sync_plan source destination mode p c in
    let (runs, ran, h) = >>=-eq-ok (run_loop s plan.items ([], [])) _ h in
    subst (λ r. All (IsDelete s (IsExtra mode p source destination)) r.deletes) (ok-injective _ _ h)
      (run_loop-IsDelete s (IsExtra mode p source destination) plan.items ([], [])
        (plan_loop-OnlyExtra mode p c source destination
          (all_paths (collect source []) (collect destination [])) _ tt)
        tt ran)
