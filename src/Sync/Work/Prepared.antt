-- ===== src/Sync/Work/Prepared.antt =====
-- The work on the transfers of a prepared run (src/app/sync_ops.rs, src/app/transfer_ops.rs).
use abixio_ui.Common.{
  ℕ, ◌*◌, true, false, Option, none, some, List, [], ◌∷◌, ◌≡◌, refl, arith, All, All-append,
  Bool-cases, inl, inr, ltb, ◌==◌,
}
use mathlib.Core.Path.{subst}
use abixio_ui.Common.Text.{Text, text_eq}
use abixio_ui.Common.Result.{ok, err, >>=-eq-ok, ok-injective}
use abixio_ui.Sync.Types.{SyncPlanAction, SyncPlanItem, SyncPlan}
use abixio_ui.Sync.Types.SyncPlanAction.{create, update, delete, skip, conflict}
use abixio_ui.Sync.State.{
  TransferEndpoint, SyncRunItem, SyncExecutionStrategy, SyncRunPlan, SyncState,
}
use abixio_ui.Sync.State.TransferEndpoint.{s3, local}
use abixio_ui.Sync.State.SyncExecutionStrategy.{server_side_copy, client_relay}
use abixio_ui.Sync.RunPlan.{
  build_transfer_endpoint, determine_execution_strategy, transfer_of, delete_of, add_item, run_loop,
  prepare_sync_run_plan, finish, Runs,
}
use abixio_ui.Sync.Work.{
  SyncStorage, Done, execute_sync_run_item, execute_by, relay, client_of, into_task, and_then,
}

-- No call for a transfer fails.
pub record Succeeds {Client World : Type 0} (s : SyncStorage Client World) : Type 0 where
  pub upload_file-ok :
      (c : Client) (b k path t : Text) (w : World) → (s.upload_file c b k path t w).0 ≡ ok tt
  pub download_object_to_file-ok :
      (c : Client) (b k path : Text) (w : World)
      → (s.download_object_to_file c b k path w).0 ≡ ok tt
  pub copy_object-ok :
      (c : Client) (b k b' k' : Text) (w : World) → (s.copy_object c b k b' k' w).0 ≡ ok tt
  pub relay_object_to_s3-ok :
      (c : Client) (b k : Text) (d : Client) (b' k' : Text) (w : World)
      → (s.relay_object_to_s3 c b k d b' k' w).0 ≡ ok tt

module _ {Client World : Type 0} (s : SyncStorage Client World) (good : Succeeds s)
    (client : Text → Client) where
  and_then-ok :
      (call : Done World) (next : World → Done World)
      → call.0 ≡ ok tt
      → ((w : World) → (next w).0 ≡ ok tt)
      → (and_then call next).0 ≡ ok tt
  and_then-ok (ok _, w) next h g = g w
  and_then-ok (err e, w) next h g = cc

  relay-ok :
      (c d : Client) (bytes : ℕ) (b k b' k' : Text) (w : World)
      → (relay s c d bytes b k b' k' w).0 ≡ ok tt
  relay-ok c d bytes b k b' k' w = elim (Bool-cases (ltb (5 * 1024 * 1024 * 1024) bytes)) [
    | inl e ↦ rw e (
        and_then-ok (s.download_object_to_file c b k (s.spool_path k w) w) _
          (good.download_object_to_file-ok c b k (s.spool_path k w) w)
          (λ v.
            good.upload_file-ok d b' k' (s.spool_path k w) (s.guess_content_type (s.spool_path k w))
              v))
    | inr e ↦ rw e (good.relay_object_to_s3-ok c b k d b' k' w)
  ]

  abbrev made : TransferEndpoint → Option Client
  made (local _) = none
  made (s3 id _ _) = some (client id)

  client_of-made : (e : TransferEndpoint) → client_of (λ id. ok (client id)) e ≡ ok (made e)
  client_of-made (local _) = refl
  client_of-made (s3 id _ _) = refl

  -- A strategy that was chosen for its endpoints finds the endpoints and the clients that it needs.
  execute_by-ok :
      (a b : TransferEndpoint) (strategy : SyncExecutionStrategy) (bytes : ℕ) (w : World)
      → determine_execution_strategy a b ≡ ok strategy
      → (execute_by s strategy a b (made a) (made b) bytes w).0 ≡ ok tt
  unfolding determine_execution_strategy
  execute_by-ok (local path) (local _) strategy bytes w h = cc
  execute_by-ok (local path) (s3 id b k) strategy bytes w h =
      rw⁻¹ (ok-injective _ _ h)
        (good.upload_file-ok (client id) b k path (s.guess_content_type path) w)
  execute_by-ok (s3 id b k) (local path) strategy bytes w h =
      rw⁻¹ (ok-injective _ _ h) (good.download_object_to_file-ok (client id) b k path w)
  execute_by-ok (s3 c b k) (s3 d b' k') strategy bytes w h = elim (Bool-cases (c == d)) [
    | inl e ↦
        let chosen : server_side_copy ≡ strategy = ok-injective _ _ (rw e at h) in
        rw⁻¹ chosen (good.copy_object-ok (client c) b k b' k' w)
    | inr e ↦
        let chosen : client_relay ≡ strategy = ok-injective _ _ (rw e at h) in
        rw⁻¹ chosen (relay-ok (client c) (client d) bytes b k b' k' w)
  ]

  abbrev Suited : SyncRunItem → Type 0
  Suited item = determine_execution_strategy item.source item.destination ≡ ok item.strategy

  transfer_of-Suited :
      (sync : SyncState) (item : SyncPlanItem) (run : SyncRunItem)
      → transfer_of sync item ≡ ok run
      → Suited run
  unfolding transfer_of
  transfer_of-Suited sync item run h =
      let (a, built, h) = >>=-eq-ok (build_transfer_endpoint sync true item.relative_path) _ h in
      let (b, built', h) = >>=-eq-ok (build_transfer_endpoint sync false item.relative_path) _ h in
      let (k, chosen, h) = >>=-eq-ok (determine_execution_strategy a b) _ h in
      let source : a ≡ run.source = ground arith in
      let destination : b ≡ run.destination = ground arith in
      let strategy : k ≡ run.strategy = ground arith in rw⁻¹ (source, destination, strategy) chosen

  kept : {a b : Runs} → ok a ≡ ok b → All Suited a.0 → All Suited b.0
  kept same h = subst (λ r. All Suited r.0) (ok-injective _ _ same) h

  add_item-Suited :
      (sync : SyncState) (a : SyncPlanAction) (item : SyncPlanItem) (old new : Runs)
      → All Suited old.0
      → add_item sync a item old ≡ ok new
      → All Suited new.0
  unfolding add_item
  add_item-Suited sync create item old new h ran =
      let (t, made_of, ran) = >>=-eq-ok (transfer_of sync item) _ ran in
      kept ran (All-append Suited old.0 (t ∷ []) h (transfer_of-Suited sync item t made_of, tt))
  add_item-Suited sync update item old new h ran =
      let (t, made_of, ran) = >>=-eq-ok (transfer_of sync item) _ ran in
      kept ran (All-append Suited old.0 (t ∷ []) h (transfer_of-Suited sync item t made_of, tt))
  add_item-Suited sync delete item old new h ran =
      let (t, _, ran) = >>=-eq-ok (delete_of sync item) _ ran in kept ran h
  add_item-Suited sync skip item old new h ran = kept ran h
  add_item-Suited sync conflict item old new h ran = kept ran h

  run_loop-Suited :
      (sync : SyncState) (items : List SyncPlanItem) (old new : Runs)
      → All Suited old.0
      → run_loop sync items old ≡ ok new
      → All Suited new.0
  unfolding run_loop
  run_loop-Suited sync [] old new h ran = kept ran h
  run_loop-Suited sync (item ∷ items) old new h ran =
      let (between, added, ran) = >>=-eq-ok (add_item sync item.action item old) _ ran in
      run_loop-Suited sync items between new
        (add_item-Suited sync item.action item old between h added) ran

  into_task-ok :
      (item : SyncRunItem) (w : World)
      → Suited item
      → (into_task s (λ id. ok (client id)) item w).0 ≡ ok tt
  unfolding into_task execute_sync_run_item
  into_task-ok item w suited =
      rw (client_of-made item.source, client_of-made item.destination)
        (execute_by-ok item.source item.destination item.strategy item.bytes w suited)

  abbrev pub Works : SyncRunItem → Type 0
  Works item = (w : World) → (into_task s (λ id. ok (client id)) item w).0 ≡ ok tt

  All-Works : (items : List SyncRunItem) → All Suited items → All Works items
  All-Works [] h = tt
  All-Works (item ∷ items) (suited, h) = (λ w. into_task-ok item w suited, All-Works items h)

  -- The transfers of a prepared run plan have the endpoints and clients that their strategies need:
  -- where every connection has a client and no call of the storage fails, every one of them succeeds.
  pub prepare_sync_run_plan-Works :
      (sync : SyncState) (plan : SyncPlan) (run : SyncRunPlan)
      → prepare_sync_run_plan sync plan ≡ ok run
      → All Works run.transfers
  unfolding prepare_sync_run_plan
  prepare_sync_run_plan-Works sync plan run h =
      let (runs, looped, h) = >>=-eq-ok (run_loop sync plan.items ([], [])) _ h in
      let same : finish runs ≡ run = ok-injective _ _ h in
      subst (λ r. All Works r.transfers) same
        (All-Works runs.0 (run_loop-Suited sync plan.items ([], []) runs tt looped))
