-- ===== src/Sync/RunPlan/Totals.antt =====
-- The numbers of a run plan and the counters of its plan (`prepare_sync_run_plan` and
-- `build_sync_plan` of src/app/sync_ops.rs).
use abixio_ui.Common.{
  ◌+◌, ◌%◌, ◌^◌, ◌<◌, true, false, List, [], ◌∷◌, ◌++◌, ◌≡◌, refl, arith, length, length-append,
}
use abixio_ui.Common.Result.{ok, >>=-eq-ok}
use abixio_ui.Sync.Types.{
  SyncPlanAction, SyncPlanItem, SyncMode, SyncPolicy, SyncCompareMode, SyncObject,
}
use abixio_ui.Sync.Types.SyncPlanAction.{create, update, delete, skip, conflict}
use abixio_ui.Sync.Plan.{add64, size_of, build_sync_plan}
use abixio_ui.Sync.Plan.Summary.{count, bytes, build_sync_plan-Counts}
use abixio_ui.Sync.State.{SyncRunItem, SyncRunPlan, SyncState}
use abixio_ui.Sync.RunPlan.{
  build_transfer_endpoint, determine_execution_strategy, determine_delete_strategy, transfer_of,
  delete_of, add_item, run_loop, sum_bytes, prepare_sync_run_plan,
}

sum_bytes_below : (xs : List SyncRunItem) → sum_bytes xs < 2 ^ 64
unfolding sum_bytes
sum_bytes_below [] = omega arith
sum_bytes_below (x ∷ xs) = omega arith

sum_bytes-snoc :
    (xs : List SyncRunItem) (x : SyncRunItem)
    → sum_bytes (xs ++ x ∷ []) ≡ (sum_bytes xs + x.bytes) % 2 ^ 64
unfolding sum_bytes
sum_bytes-snoc [] x = omega arith
sum_bytes-snoc (y ∷ xs) x = omega (arith, sum_bytes-snoc xs x)

-- What a loop over `items` adds to the transfers and deletes it was given.
record Adds (items : List SyncPlanItem) (old new : List SyncRunItem × List SyncRunItem)
    : Type 0 where
  transfers : length new.0 ≡ length old.0 + (count create items + count update items)
  deletes : length new.1 ≡ length old.1 + count delete items
  transfer_bytes :
      sum_bytes new.0 ≡ (sum_bytes old.0 + (bytes create items + bytes update items)) % 2 ^ 64
  delete_bytes : sum_bytes new.1 ≡ (sum_bytes old.1 + bytes delete items) % 2 ^ 64

transfer_of-bytes :
    (s : SyncState) (i : SyncPlanItem) {t : SyncRunItem}
    → transfer_of s i ≡ ok t
    → t.bytes ≡ size_of i.source
unfolding transfer_of
transfer_of-bytes s i h =
    let (a, _, h) = >>=-eq-ok (build_transfer_endpoint s true i.relative_path) _ h in
    let (b, _, h) = >>=-eq-ok (build_transfer_endpoint s false i.relative_path) _ h in
    let (c, _, h) = >>=-eq-ok (determine_execution_strategy a b) _ h in ground arith

delete_of-bytes :
    (s : SyncState) (i : SyncPlanItem) {t : SyncRunItem}
    → delete_of s i ≡ ok t
    → t.bytes ≡ size_of i.destination
unfolding delete_of
delete_of-bytes s i h =
    let (b, _, h) = >>=-eq-ok (build_transfer_endpoint s false i.relative_path) _ h in
    let (c, _, h) = >>=-eq-ok (determine_delete_strategy b) _ h in ground arith

add_item-Adds :
    (s : SyncState) (a : SyncPlanAction) (i : SyncPlanItem)
    (old : List SyncRunItem × List SyncRunItem) {new : List SyncRunItem × List SyncRunItem}
    → i.action ≡ a
    → add_item s a i old ≡ ok new
    → Adds (i ∷ []) old new
unfolding add_item
add_item-Adds s create i (ts, ds) is h =
    let (t, made, h) = >>=-eq-ok (transfer_of s i) _ h in
    let size = transfer_of-bytes s i made in
    ground (
      arith,
      length-append ts (t ∷ []),
      length-append ds (t ∷ []),
      sum_bytes-snoc ts t,
      sum_bytes-snoc ds t,
      sum_bytes_below ts,
      sum_bytes_below ds,
    )
add_item-Adds s update i (ts, ds) is h =
    let (t, made, h) = >>=-eq-ok (transfer_of s i) _ h in
    let size = transfer_of-bytes s i made in
    ground (
      arith,
      length-append ts (t ∷ []),
      length-append ds (t ∷ []),
      sum_bytes-snoc ts t,
      sum_bytes-snoc ds t,
      sum_bytes_below ts,
      sum_bytes_below ds,
    )
add_item-Adds s delete i (ts, ds) is h =
    let (t, made, h) = >>=-eq-ok (delete_of s i) _ h in
    let size = delete_of-bytes s i made in
    ground (
      arith,
      length-append ts (t ∷ []),
      length-append ds (t ∷ []),
      sum_bytes-snoc ts t,
      sum_bytes-snoc ds t,
      sum_bytes_below ts,
      sum_bytes_below ds,
    )
add_item-Adds s skip i (ts, ds) is h = ground (arith, sum_bytes_below ts, sum_bytes_below ds)
add_item-Adds s conflict i (ts, ds) is h = ground (arith, sum_bytes_below ts, sum_bytes_below ds)

run_loop-Adds :
    (s : SyncState) (items : List SyncPlanItem) (old : List SyncRunItem × List SyncRunItem)
    {new : List SyncRunItem × List SyncRunItem}
    → run_loop s items old ≡ ok new
    → Adds items old new
unfolding run_loop
run_loop-Adds s [] (ts, ds) h =
    let a = sum_bytes_below ts in let b = sum_bytes_below ds in ground arith
run_loop-Adds s (i ∷ items) old h =
    let (mid, one, rest) = >>=-eq-ok (add_item s i.action i old) _ h in
    let first = add_item-Adds s i.action i old refl one in
    let more = run_loop-Adds s items mid rest in ground arith

-- What a run plan does is what the plan it was prepared from shows: as many transfers as the plan
-- counts creates and updates, as many deletes, and the same bytes to transfer and to delete,
-- modulo 2^64.
pub prepare_sync_run_plan-summary :
    (s : SyncState) (mode : SyncMode) (p : SyncPolicy) (c : SyncCompareMode)
    (source destination : List SyncObject) {r : SyncRunPlan}
    → let plan = build_sync_plan source destination mode p c in
      prepare_sync_run_plan s plan ≡ ok r
      → (length r.transfers ≡ plan.summary.creates + plan.summary.updates)
        × (length r.deletes ≡ plan.summary.deletes)
        × (r.total_transfer_bytes ≡ add64 plan.summary.bytes_to_create plan.summary.bytes_to_update)
        × (r.total_delete_bytes ≡ plan.summary.bytes_to_delete)
unfolding prepare_sync_run_plan
prepare_sync_run_plan-summary s mode p c source destination h =
    let plan = build_sync_plan source destination mode p c in
    let counts = build_sync_plan-Counts mode p c source destination in
    let (runs, ran, h) = >>=-eq-ok (run_loop s plan.items ([], [])) _ h in
    let adds = run_loop-Adds s plan.items ([], []) ran in unfold sum_bytes in ground arith
