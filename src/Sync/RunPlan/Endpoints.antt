-- ===== src/Sync/RunPlan/Endpoints.antt =====
-- The endpoints of a run's items, and when `prepare_sync_run_plan` (src/app/sync_ops.rs) succeeds.
use abixio_ui.Common.{
  Bool, true, false, Option, none, some, List, [], ◌∷◌, ◌++◌, ◌≡◌, ◌≢◌, ◌⊎◌, inl, inr, refl, sym,
  arith, ◌∙◌, if◌then◌else◌, Bool-cases, ◌==◌,
}
use abixio_ui.Common.Text.{Text, text_eq}
use abixio_ui.Common.Result.{ok, >>=-ok}
use abixio_ui.Sync.Types.{SyncEndpointKind, SyncPlanAction, SyncPlanItem, SyncPlan}
use abixio_ui.Sync.Types.SyncPlanAction.{create, update, delete, skip, conflict}
use abixio_ui.Sync.State.{
  SyncRunItem, SyncRunPlan, SyncState, TransferEndpoint, SyncExecutionStrategy,
}
use abixio_ui.Sync.State.TransferEndpoint.{s3, local}
use abixio_ui.Sync.RunPlan.{
  ends_with_slash, endpoint_at, Runs, join_s3_key, build_transfer_endpoint,
  determine_execution_strategy, determine_delete_strategy, transfer_of, delete_of, add_item,
  run_loop, prepare_sync_run_plan,
}

append_cancel : (xs : Text) {a b : Text} → xs ++ a ≡ xs ++ b → a ≡ b
append_cancel [] h = h
append_cancel (x ∷ xs) h = append_cancel xs (ground arith)

-- Two relative paths never get one key under a prefix.
pub join_s3_key-injective :
    (prefix a b : Text) → join_s3_key prefix a ≡ join_s3_key prefix b → a ≡ b
unfolding join_s3_key
join_s3_key-injective [] a b h = h
join_s3_key-injective (c ∷ prefix) a b h = elim (Bool-cases (ends_with_slash (c ∷ prefix))) [
  | inl e ↦ append_cancel (c ∷ prefix) (rw e at h)
  | inr e ↦ let tail = append_cancel (c ∷ prefix) (rw e at h) in ground arith
]

abbrev pub kind_of : SyncState → Bool → SyncEndpointKind
kind_of s source = if source then s.source_kind else s.destination_kind

key_of_ok : {c b k d : Text} {e : Text} {l : Text} → ok (s3 c b k) ≡ ok (s3 d e l) → k ≡ l
key_of_ok h = ground arith

-- On a remote side, two paths never share an endpoint.
pub build_transfer_endpoint-injective :
    (s : SyncState) (source : Bool) (a b : Text) (e : TransferEndpoint)
    → kind_of s source ≡ SyncEndpointKind.s3
    → build_transfer_endpoint s source a ≡ ok e
    → build_transfer_endpoint s source b ≡ ok e
    → a ≡ b
unfolding build_transfer_endpoint
build_transfer_endpoint-injective s true a b e remote ha hb =
    join_s3_key-injective s.source_prefix a b (key_of_ok (rw remote at ha ∙ sym (rw remote at hb)))
build_transfer_endpoint-injective s false a b e remote ha hb =
    join_s3_key-injective s.destination_prefix a b
      (key_of_ok (rw remote at ha ∙ sym (rw remote at hb)))

-- One side is remote, and a local side has its path.
pub record CanRun (s : SyncState) : Type 0 where
  pub one_remote :
      (s.source_kind ≡ SyncEndpointKind.s3) ⊎ (s.destination_kind ≡ SyncEndpointKind.s3)
  pub source_path : s.source_kind ≡ SyncEndpointKind.local → s.source_local_path ≢ none
  pub destination_path :
      s.destination_kind ≡ SyncEndpointKind.local → s.destination_local_path ≢ none

abbrev IsRemote : TransferEndpoint → Type 0
IsRemote (s3 _ _ _) = Unit
IsRemote (local _) = ⊥

endpoint_at_total :
    (k : SyncEndpointKind) (connection bucket prefix : Text) (root : Option Text) (path : Text)
    → (k ≡ SyncEndpointKind.local → root ≢ none)
    → (e : TransferEndpoint) × (endpoint_at k connection bucket prefix root path ≡ ok e)
      × (k ≡ SyncEndpointKind.s3 → IsRemote e)
endpoint_at_total SyncEndpointKind.s3 c b p root path h = (_, refl, λ _. tt)
endpoint_at_total SyncEndpointKind.local c b p none path h = absurd (h refl refl)
endpoint_at_total SyncEndpointKind.local c b p (some root) path h = (_, refl, λ e. cc)

one_of :
    (a b : SyncExecutionStrategy) (t : Bool)
    → (k : SyncExecutionStrategy) × ((if t then ok a else ok b) ≡ ok k)
one_of a b true = (_, refl)
one_of a b false = (_, refl)

determine_execution_strategy_total :
    (a b : TransferEndpoint)
    → IsRemote a ⊎ IsRemote b
    → (k : SyncExecutionStrategy) × (determine_execution_strategy a b ≡ ok k)
unfolding determine_execution_strategy
determine_execution_strategy_total (local _) (s3 _ _ _) h = (_, refl)
determine_execution_strategy_total (s3 _ _ _) (local _) h = (_, refl)
determine_execution_strategy_total (s3 c _ _) (s3 d _ _) h = one_of _ _ (c == d)
determine_execution_strategy_total (local _) (local _) (inl h) = absurd h
determine_execution_strategy_total (local _) (local _) (inr h) = absurd h

determine_delete_strategy_total :
    (a : TransferEndpoint) → (k : SyncExecutionStrategy) × (determine_delete_strategy a ≡ ok k)
unfolding determine_delete_strategy
determine_delete_strategy_total (s3 _ _ _) = (_, refl)
determine_delete_strategy_total (local _) = (_, refl)

module _ (s : SyncState) (can : CanRun s) where
  transfer_of_total : (i : SyncPlanItem) → (t : SyncRunItem) × (transfer_of s i ≡ ok t)
  unfolding transfer_of build_transfer_endpoint
  transfer_of_total i =
      let (a, is_a, remote_a) =
        endpoint_at_total s.source_kind s.source_connection_id s.source_bucket s.source_prefix
          s.source_local_path i.relative_path can.source_path in
      let (b, is_b, remote_b) =
        endpoint_at_total s.destination_kind s.destination_connection_id s.destination_bucket
          s.destination_prefix s.destination_local_path i.relative_path can.destination_path in
      let one : IsRemote a ⊎ IsRemote b = elim can.one_remote [
        | inl e ↦ inl (remote_a e)
        | inr e ↦ inr (remote_b e)
      ] in
      let (k, is_k) = determine_execution_strategy_total a b one in
      (_, >>=-ok _ _ is_a (>>=-ok _ _ is_b (>>=-ok _ _ is_k refl)))

  delete_of_total : (i : SyncPlanItem) → (t : SyncRunItem) × (delete_of s i ≡ ok t)
  unfolding delete_of build_transfer_endpoint
  delete_of_total i =
      let (b, is_b, remote_b) =
        endpoint_at_total s.destination_kind s.destination_connection_id s.destination_bucket
          s.destination_prefix s.destination_local_path i.relative_path can.destination_path in
      let (k, is_k) = determine_delete_strategy_total b in
      (_, >>=-ok _ _ is_b (>>=-ok _ _ is_k refl))

  add_item_total :
      (a : SyncPlanAction) (i : SyncPlanItem) (old : Runs)
      → (new : Runs) × (add_item s a i old ≡ ok new)
  unfolding add_item
  add_item_total create i old = let (t, is) = transfer_of_total i in (_, >>=-ok _ _ is refl)
  add_item_total update i old = let (t, is) = transfer_of_total i in (_, >>=-ok _ _ is refl)
  add_item_total delete i old = let (t, is) = delete_of_total i in (_, >>=-ok _ _ is refl)
  add_item_total skip i old = (_, refl)
  add_item_total conflict i old = (_, refl)

  run_loop_total :
      (items : List SyncPlanItem) (old : Runs) → (new : Runs) × (run_loop s items old ≡ ok new)
  unfolding run_loop
  run_loop_total [] old = (_, refl)
  run_loop_total (i ∷ items) old =
      let (mid, is) = add_item_total i.action i old in
      let (new, ran) = run_loop_total items mid in (new, >>=-ok _ _ is ran)

  -- Where one side is remote and each local side has its path, every plan can be prepared.
  pub prepare_sync_run_plan_total :
      (plan : SyncPlan) → (r : SyncRunPlan) × (prepare_sync_run_plan s plan ≡ ok r)
  unfolding prepare_sync_run_plan
  prepare_sync_run_plan_total plan =
      let (runs, ran) = run_loop_total plan.items ([], []) in (_, >>=-ok _ _ ran refl)
