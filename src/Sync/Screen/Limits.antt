-- ===== src/Sync/Screen/Limits.antt =====
-- What the validated settings guarantee (`validate_sync_config` and `validate_sync_guardrails` of
-- src/app/handlers/sync.rs).
use abixio_ui.Common.{
  ℕ, ◌≤◌, ◌<◌, Bool, true, false, not, ◌&&◌, Option, none, some, List, [], ◌∷◌, ◌≡◌, ◌⊎◌, inl, inr,
  refl, sym, arith, length, is_empty, ◌∙◌, ap, if◌then◌else◌, ltb,
}
use mathlib.Core.Option.{none-ne-some, some-injective}
use abixio_ui.Common.Text.{Text, text}
use abixio_ui.Common.Number.{trim}
use abixio_ui.Common.Result.{Result, ok, err, >>=-eq-ok, ok-injective}
use abixio_ui.Sync.Types.{SyncMode, SyncEndpointKind, SyncPlan}
use abixio_ui.Sync.State.{SyncRunPlan, SyncExecutionState, SyncDeleteConfirmState, SyncState}
use abixio_ui.Sync.RunPlan.{prepare_sync_run_plan}
use abixio_ui.Sync.RunPlan.Endpoints.{CanRun, prepare_sync_run_plan_total}
use abixio_ui.Sync.Screen.Validation.{
  check, is_s3, is_none, over, parse_optional, validate_sync_config, validate_sync_guardrails,
}
use abixio_ui.Sync.Screen.Running.{
  Started, run_on, start_or_ask, sync_run_plan, sync_plan, sync_in, dispatch_sync_execution,
  start_sync_with, start_sync_execution, handle_start_sync, build_delete_confirm_state,
}

passed : (b : Bool) (error : Text) {u : Unit {0}} → check b error ≡ ok u → b ≡ false
passed true error h = cc
passed false error h = refl

-- A validated configuration has the paths of its local sides.
validate_sync_config-CanRun :
    (s : SyncState)
    → validate_sync_config s ≡ ok tt
    → (s.source_kind ≡ SyncEndpointKind.s3) ⊎ (s.destination_kind ≡ SyncEndpointKind.s3)
    → CanRun s
unfolding validate_sync_config
validate_sync_config-CanRun s valid remote =
    let (_, _, valid) =
      >>=-eq-ok
        (check (is_s3 s.source_kind && is_empty (trim s.source_bucket))
          (text "Source bucket is required."))
        _ valid in
    let (_, _, valid) =
      >>=-eq-ok
        (check (is_s3 s.destination_kind && is_empty (trim s.destination_bucket))
          (text "Destination bucket is required."))
        _ valid in
    let (_, here, valid) =
      >>=-eq-ok
        (check (not (is_s3 s.source_kind) && is_none s.source_local_path)
          (text "Source local path is required."))
        _ valid in
    let (_, there, valid) =
      >>=-eq-ok
        (check (not (is_s3 s.destination_kind) && is_none s.destination_local_path)
          (text "Destination local path is required."))
        _ valid in
    let here = passed (not (is_s3 s.source_kind) && is_none s.source_local_path) _ here in
    let there =
      passed (not (is_s3 s.destination_kind) && is_none s.destination_local_path) _ there in
    record {
      one_remote = remote;
      source_path = λ e empty. ground arith;
      destination_path = λ e empty. ground arith;
    }

-- Once the settings are validated and one side is remote, the run of any plan can be prepared.
pub prepare_sync_run_plan-validate_sync_config :
    (s : SyncState) (plan : SyncPlan)
    → validate_sync_config s ≡ ok tt
    → (s.source_kind ≡ SyncEndpointKind.s3) ⊎ (s.destination_kind ≡ SyncEndpointKind.s3)
    → (r : SyncRunPlan) × (prepare_sync_run_plan s plan ≡ ok r)
prepare_sync_run_plan-validate_sync_config s plan valid remote =
    prepare_sync_run_plan_total s (validate_sync_config-CanRun s valid remote) plan

-- The deletes of a run plan stay within the limits that the two fields hold.
pub record Within (s : SyncState) (r : SyncRunPlan) : Type 0 where
  pub count :
      (n : ℕ)
      → parse_optional s.delete_guardrails.max_delete_count_text (text "Max delete count")
        ≡ ok (some n)
      → length r.deletes ≤ n
  pub bytes :
      (n : ℕ)
      → parse_optional s.delete_guardrails.max_delete_bytes_text (text "Max delete bytes")
        ≡ ok (some n)
      → r.total_delete_bytes ≤ n

within_limit :
    (p : Result (Option ℕ)) (o : Option ℕ) (x n : ℕ)
    → p ≡ ok o
    → over o x ≡ false
    → p ≡ ok (some n)
    → x ≤ n
within_limit p none x n is h found = absurd (none-ne-some n (ok-injective _ _ (sym is ∙ found)))
within_limit p (some limit) x n is h found =
    let same = some-injective limit n (ok-injective _ _ (sym is ∙ found)) in ground arith

validate_sync_guardrails-Within :
    (s : SyncState) (r : SyncRunPlan) {u : Unit {0}}
    → validate_sync_guardrails s r ≡ ok u
    → Within s r
unfolding validate_sync_guardrails
validate_sync_guardrails-Within s r h =
    let (count, is_count, h) =
      >>=-eq-ok (parse_optional s.delete_guardrails.max_delete_count_text (text "Max delete count"))
        _ h in
    let (_, few, h) = >>=-eq-ok (check (over count (length r.deletes)) _) _ h in
    let (bytes, is_bytes, h) =
      >>=-eq-ok (parse_optional s.delete_guardrails.max_delete_bytes_text (text "Max delete bytes"))
        _ h in
    let (_, small, h) = >>=-eq-ok (check (over bytes r.total_delete_bytes) _) _ h in
    let few = passed (over count (length r.deletes)) _ few in
    let small = passed (over bytes r.total_delete_bytes) _ small in
    record {
      count = λ n is. within_limit _ count (length r.deletes) n is_count few is;
      bytes = λ n is. within_limit _ bytes r.total_delete_bytes n is_bytes small is;
    }

-- What is asked: to delete what the run plan on the screen deletes.
pub record Asks (s : SyncState) (c : SyncDeleteConfirmState) : Type 0 where
  pub run_plan : SyncRunPlan
  pub on_screen : s.run_plan ≡ some run_plan
  pub within : Within s run_plan
  pub deletes : c.planned_deletes ≡ length run_plan.deletes
  pub not_empty : 0 < length run_plan.deletes

run_on-delete_confirm :
    (s : SyncState) (o : Option SyncExecutionState)
    → (run_on s o).0.delete_confirm ≡ s.delete_confirm
run_on-delete_confirm s none = refl
run_on-delete_confirm s (some e) = refl

start_sync_with-delete_confirm :
    (s : SyncState) (o : Option SyncRunPlan)
    → (start_sync_with s o).delete_confirm ≡ s.delete_confirm
start_sync_with-delete_confirm s none = refl
start_sync_with-delete_confirm s (some r) = refl

nothing_asked :
    {A : Type 0} {c : SyncDeleteConfirmState} (o : Option SyncDeleteConfirmState)
    → o ≡ none
    → o ≡ some c
    → A
nothing_asked o is h = absurd (none-ne-some _ (sym is ∙ h))

started_asks :
    {A : Type 0} {c : SyncDeleteConfirmState} (s : SyncState)
    → s.delete_confirm ≡ none
    → (dispatch_sync_execution (start_sync_execution s)).0.delete_confirm ≡ some c
    → A
unfolding dispatch_sync_execution start_sync_execution
started_asks s is h = nothing_asked s.delete_confirm is (
    sym (start_sync_with-delete_confirm s s.run_plan)
    ∙ sym (run_on-delete_confirm (start_sync_execution s) (start_sync_execution s).execution)
    ∙ h)

asked_of_if :
    (b : Bool) (first other : Started) {c : SyncDeleteConfirmState}
    → (if b then first else other).0.delete_confirm ≡ some c
    → ((b ≡ true) × (first.0.delete_confirm ≡ some c))
      ⊎ ((b ≡ false) × (other.0.delete_confirm ≡ some c))
asked_of_if true first other h = inl (refl, h)
asked_of_if false first other h = inr (refl, h)

not_empty_of : {A : Type 0} (xs : List A) → is_empty xs ≡ false → 0 < length xs
not_empty_of [] h = ground arith
not_empty_of (x ∷ xs) h = omega arith

start_or_ask-Asks :
    (s : SyncState) (r : SyncRunPlan) (v : Result (Unit {0})) {c : SyncDeleteConfirmState}
    → validate_sync_guardrails s r ≡ v
    → s.delete_confirm ≡ none
    → s.run_plan ≡ some r
    → (start_or_ask s r v).0.delete_confirm ≡ some c
    → Asks s c
unfolding build_delete_confirm_state
start_or_ask-Asks s r (err error) valid is has h = nothing_asked s.delete_confirm is h
start_or_ask-Asks s r (ok u) {c} valid is has h = elim (asked_of_if (is_empty r.deletes) _ _ h) [
  | inl p ↦ started_asks (record s { error = none; delete_confirm = none }) refl p.1
  | inr p ↦ record {
    run_plan = r;
    on_screen = has;
    within = validate_sync_guardrails-Within s r valid;
    deletes = ap (λ c. c.planned_deletes) (sym (some-injective _ _ p.1));
    not_empty = not_empty_of r.deletes p.0;
  }
]

sync_run_plan-Asks :
    (s : SyncState) (o : Option SyncRunPlan) {c : SyncDeleteConfirmState}
    → s.delete_confirm ≡ none
    → s.run_plan ≡ o
    → (sync_run_plan s o).0.delete_confirm ≡ some c
    → Asks s c
sync_run_plan-Asks s none is has h = nothing_asked s.delete_confirm is h
sync_run_plan-Asks s (some r) is has h =
    elim (asked_of_if (is_empty r.transfers && is_empty r.deletes) _ _ h) [
      | inl p ↦ nothing_asked s.delete_confirm is p.1
      | inr p ↦ start_or_ask-Asks s r (validate_sync_guardrails s r) refl is has p.1
    ]

sync_plan-Asks :
    (s : SyncState) (o : Option SyncPlan) {c : SyncDeleteConfirmState}
    → s.delete_confirm ≡ none
    → (sync_plan s o).0.delete_confirm ≡ some c
    → Asks s c
sync_plan-Asks s none is h = nothing_asked s.delete_confirm is h
sync_plan-Asks s (some plan) is h = elim (asked_of_if (ltb 0 plan.summary.conflicts) _ _ h) [
  | inl p ↦ nothing_asked s.delete_confirm is p.1
  | inr p ↦ sync_run_plan-Asks s s.run_plan is refl p.1
]

sync_in-Asks :
    (mode : SyncMode) (s : SyncState) {c : SyncDeleteConfirmState}
    → s.delete_confirm ≡ none
    → (sync_in mode s).0.delete_confirm ≡ some c
    → Asks s c
sync_in-Asks SyncMode.sync s is h = sync_plan-Asks s s.plan is h
sync_in-Asks SyncMode.diff s is h = nothing_asked s.delete_confirm is h
sync_in-Asks SyncMode.copy s is h = nothing_asked s.delete_confirm is h

-- Where no confirmation was open and `StartSync` opens one, it is for the deletes of the run plan on the screen, of
-- which there is at least one, and they stay within the limits on their number and their bytes.
pub handle_start_sync-Asks :
    (s : SyncState) {c : SyncDeleteConfirmState}
    → s.delete_confirm ≡ none
    → (handle_start_sync s).0.delete_confirm ≡ some c
    → Asks s c
unfolding handle_start_sync
handle_start_sync-Asks s is h = sync_in-Asks s.mode s is h
