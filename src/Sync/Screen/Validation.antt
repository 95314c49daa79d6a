-- ===== src/Sync/Screen/Validation.antt =====
-- The checks of the sync screen's texts (`validate_sync_config`, `validate_sync_guardrails` and the
-- `parse_…` functions of src/app/handlers/sync.rs).
use abixio_ui.Common.{
  ℕ, Bool, true, false, not, ◌&&◌, ◌||◌, Option, none, some, List, [], ◌∷◌, ◌++◌, if◌then◌else◌,
  ◌==◌, nat_eq, option_eq, is_empty, ltb, length,
}
use abixio_ui.Common.Text.{Text, text, text_eq}
use abixio_ui.Common.Number.{trim, parse_u64, parse_below, display}
use abixio_ui.Common.Result.{Result, ok, err, ◌>>=◌}
use abixio_ui.Sync.Types.{SyncEndpointKind}
use abixio_ui.Sync.State.{SyncState, SyncRunPlan}

-- The `parse` of a number that must not be zero, with its two messages.
unfoldable pub parse_positive : Text → Text → Text → Result ℕ
unfolding parse_below trim
parse_positive s not_a_number zero_given = elim (parse_u64 (trim s)) [
  | none ↦ err not_a_number
  | some value ↦ if value == 0 then err zero_given else ok value
]

unfoldable pub parse_planner_limit : Text → Result ℕ
unfolding parse_positive
parse_planner_limit s =
    parse_positive s (text "Planner limit must be a positive integer.")
      (text "Planner limit must be greater than zero.")

unfoldable pub parse_transfer_workers : Text → Result ℕ
unfolding parse_positive
parse_transfer_workers s =
    parse_positive s (text "Transfer workers must be a positive integer.")
      (text "Transfer workers must be greater than zero.")

unfoldable pub parse_delete_workers : Text → Result ℕ
unfolding parse_positive
parse_delete_workers s =
    parse_positive s (text "Delete workers must be a positive integer.")
      (text "Delete workers must be greater than zero.")

-- `parse_optional_usize`; `parse_optional_u64` has the same body, at the same width.
unfoldable pub parse_optional : Text → Text → Result (Option ℕ)
unfolding parse_positive trim
parse_optional s label = if is_empty (trim s) then ok none else do
  value ←
      parse_positive s (label ++ text " must be a positive integer.")
        (label ++ text " must be greater than zero.")
  ok (some value)

-- The components of a path, by which two `PathBuf`s compare: the root, then the names, without
-- empty ones and without `.`, save a `.` that begins the path.
unfoldable pub components : Text → Text → List Text
components name [] = if is_empty name || name == b'.' ∷ [] then [] else name ∷ []
components name (c ∷ s) =
    let rest = components [] s in
    let longer = components (name ++ c ∷ []) s in
    if c == b'/' then (if is_empty name || name == b'.' ∷ [] then rest else name ∷ rest) else longer

abbrev path_head : Text → List Text
path_head [] = []
path_head (c ∷ []) = if c == b'/' || c == b'.' then (c ∷ []) ∷ [] else []
path_head (c ∷ d ∷ _) =
    if c == b'/' then (c ∷ []) ∷ [] else if c == b'.' && d == b'/' then (c ∷ []) ∷ [] else []

abbrev same_names : List Text → List Text → Bool
same_names [] [] = true
same_names (a ∷ k) (b ∷ l) = a == b && same_names k l
same_names _ _ = false

unfoldable pub same_path : Option Text → Option Text → Bool
unfolding components
same_path none none = true
same_path (some p) (some q) =
    same_names (path_head p) (path_head q) && same_names (components [] p) (components [] q)
same_path none (some q) = false
same_path (some p) none = false

abbrev same_kind : SyncEndpointKind → SyncEndpointKind → Bool → Bool → Bool
same_kind SyncEndpointKind.s3 SyncEndpointKind.s3 remote here = remote
same_kind SyncEndpointKind.local SyncEndpointKind.local remote here = here
same_kind _ _ remote here = false

unfoldable pub same_sync_endpoint : SyncState → Bool
unfolding same_path
same_sync_endpoint s =
    same_kind s.source_kind s.destination_kind
      (s.source_connection_id == s.destination_connection_id
        && s.source_bucket == s.destination_bucket
        && s.source_prefix == s.destination_prefix)
      (same_path s.source_local_path s.destination_local_path)

abbrev pub is_s3 : SyncEndpointKind → Bool
is_s3 SyncEndpointKind.s3 = true
is_s3 SyncEndpointKind.local = false

abbrev pub is_none : Option Text → Bool
is_none none = true
is_none (some _) = false

-- `if condition { return Err(…) }`
abbrev pub check : Bool → Text → Result (Unit {0})
check true error = err error
check false error = ok tt

unfoldable pub validate_sync_config : SyncState → Result (Unit {0})
unfolding same_sync_endpoint parse_planner_limit parse_delete_workers parse_optional
validate_sync_config s = do
  _ ←
      check (is_s3 s.source_kind && is_empty (trim s.source_bucket))
        (text "Source bucket is required.")
  _ ←
      check (is_s3 s.destination_kind && is_empty (trim s.destination_bucket))
        (text "Destination bucket is required.")
  _ ←
      check (not (is_s3 s.source_kind) && is_none s.source_local_path)
        (text "Source local path is required.")
  _ ←
      check (not (is_s3 s.destination_kind) && is_none s.destination_local_path)
        (text "Destination local path is required.")
  _ ← check (same_sync_endpoint s) (text "Source and destination must be different.")
  _ ← parse_planner_limit s.tuning.max_planner_items_text
  _ ← parse_delete_workers s.delete_guardrails.delete_workers_text
  _ ← parse_optional s.delete_guardrails.max_delete_count_text (text "Max delete count")
  _ ← parse_optional s.delete_guardrails.max_delete_bytes_text (text "Max delete bytes")
  ok tt

abbrev pub over : Option ℕ → ℕ → Bool
over none n = false
over (some limit) n = ltb limit n

abbrev limit_of : Option ℕ → ℕ
limit_of none = 0
limit_of (some limit) = limit

unfoldable pub validate_sync_guardrails : SyncState → SyncRunPlan → Result (Unit {0})
unfolding parse_optional
validate_sync_guardrails s r = do
  count ← parse_optional s.delete_guardrails.max_delete_count_text (text "Max delete count")
  _ ← check (over count (length r.deletes)) (
      text "Delete count guardrail exceeded: "
      ++ display (length r.deletes)
      ++ text " planned deletes is above "
      ++ display (limit_of count)
      ++ text ".")
  bytes ← parse_optional s.delete_guardrails.max_delete_bytes_text (text "Max delete bytes")
  _ ← check (over bytes r.total_delete_bytes) (
      text "Delete byte guardrail exceeded: "
      ++ display r.total_delete_bytes
      ++ text " planned delete bytes is above "
      ++ display (limit_of bytes)
      ++ text ".")
  ok tt
