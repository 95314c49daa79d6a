-- ===== src/Transfer/Prepare.antt =====
-- The items of an import and of an export (`prepare_import_items`, `prepare_export_items`,
-- src/app/transfer_ops.rs). The walk over a directory, `Path::strip_prefix` and the listing of a prefix
-- are parameters; paths have `/` for their separator.
use mathlib.Core.Path.{subst}
use abixio_ui.Common.{
  ℕ, Bool, true, false, Option, none, some, List, [], ◌∷◌, ◌++◌, map, if◌then◌else◌, ◌==◌, nat_eq,
  is_empty, ◌≡◌, refl, All, All-append, Bool-cases, inl, inr,
}
use abixio_ui.Common.Text.{Text}
use abixio_ui.Common.Result.{Result, ok, err, ◌>>=◌, >>=-eq-ok, ok-injective, Result-cases}
use abixio_ui.Sync.State.TransferEndpoint.{s3, local}
use abixio_ui.Sync.RunPlan.{join_path}
use abixio_ui.Transfer.Types.{TransferItem, current_connection}
use abixio_ui.Transfer.Cautious.{IsHere}

-- `replace(from, to)` of one character
unfoldable pub replace_char : ℕ → ℕ → Text → Text
replace_char from to [] = []
replace_char from to (c ∷ t) =
    let rest = replace_char from to t in if c == from then to ∷ rest else c ∷ rest

unfoldable pub join_s3_key : Text → Text → Text
join_s3_key prefix relative = if is_empty prefix then relative else prefix ++ relative

-- `DirEntry` of the crate `walkdir`
pub record DirEntry : Type 0 where
  pub path : Text
  pub is_dir : Bool

module _ (strip_path : Text → Text → Result Text) where
  unfoldable pub relative_key : Text → Text → Result Text
  unfolding replace_char
  relative_key root path = do relative ← strip_path root path; ok (replace_char b'\\' b'/' relative)

  abbrev import_item : Text → Text → Text → Text → TransferItem
  import_item bucket prefix path relative = record {
    source = local path;
    destination = s3 current_connection bucket (join_s3_key prefix relative);
  }

  -- The loop over the entries, of which each may be an error.
  unfoldable pub import_loop :
      Text → Text → Text → List (Result DirEntry) → List TransferItem → Result (List TransferItem)
  unfolding relative_key join_s3_key
  import_loop root bucket prefix [] items = ok items
  import_loop root bucket prefix (err e ∷ entries) items = err e
  import_loop root bucket prefix (ok entry ∷ entries) items = elim entry.is_dir [
    | true ↦ import_loop root bucket prefix entries items
    | false ↦ elim (relative_key root entry.path) [
      | err e ↦ err e
      | ok relative ↦
          import_loop root bucket prefix entries
            (items ++ import_item bucket prefix entry.path relative ∷ [])
    ]
  ]

  unfoldable pub prepare_import_items :
      (walk : Text → List (Result DirEntry)) → Text → Text → Text → Result (List TransferItem)
  unfolding import_loop
  prepare_import_items walk root bucket prefix = import_loop root bucket prefix (walk root) []

  -- An item of an import goes to the current connection.
  import_loop-IsHere :
      (root bucket prefix : Text) (entries : List (Result DirEntry)) (items : List TransferItem)
      {last : List TransferItem}
      → All IsHere items
      → import_loop root bucket prefix entries items ≡ ok last
      → All IsHere last
  unfolding import_loop
  import_loop-IsHere root bucket prefix [] items h e = subst (All IsHere) (ok-injective _ _ e) h
  import_loop-IsHere root bucket prefix (err m ∷ entries) items h e = cc
  import_loop-IsHere root bucket prefix (ok entry ∷ entries) items h e =
      elim (Bool-cases entry.is_dir) [
        | inl is ↦ import_loop-IsHere root bucket prefix entries items h (rw (import_loop, is) at e)
        | inr is ↦ elim (Result-cases (relative_key root entry.path)) [
          | inl (relative, found) ↦
              import_loop-IsHere root bucket prefix entries
                (items ++ import_item bucket prefix entry.path relative ∷ [])
                (All-append IsHere items _ h (refl, tt)) (rw (import_loop, is, found) at e)
          | inr (m, found) ↦ (let stopped = rw (import_loop, is, found) at e in cc)
        ]
      ]

  -- The items of an import all go to the current connection.
  pub prepare_import_items-IsHere :
      (walk : Text → List (Result DirEntry)) (root bucket prefix : Text) {items : List TransferItem}
      → prepare_import_items walk root bucket prefix ≡ ok items
      → All IsHere items
  unfolding prepare_import_items
  prepare_import_items-IsHere walk root bucket prefix e =
      import_loop-IsHere root bucket prefix (walk root) [] tt e

-- `key.strip_prefix(prefix).unwrap_or(key)`
abbrev pub strip_text : Text → Text → Option Text
strip_text [] key = some key
strip_text (p ∷ prefix) [] = none
strip_text (p ∷ prefix) (c ∷ key) = if p == c then strip_text prefix key else none

abbrev or_else : Text → Option Text → Text
or_else key none = key
or_else key (some rest) = rest

-- A `/` of the key becomes a `\`, on every platform.
unfoldable pub export_item : Text → Text → Text → Text → TransferItem
unfolding replace_char join_path
export_item bucket prefix root key = record {
  source = s3 current_connection bucket key;
  destination =
      local (join_path root (replace_char b'/' b'\\' (or_else key (strip_text prefix key))));
}

unfoldable pub prepare_export_items :
    {Client : Type 0}
    → (Client → Text → Text → Result (List Text))
    → Client
    → Text
    → Text
    → Text
    → Result (List TransferItem)
unfolding export_item
prepare_export_items list_objects client bucket prefix root = do
  keys ← list_objects client bucket prefix
  ok (map (export_item bucket prefix root) keys)

export_item-IsHere :
    (bucket prefix root : Text) (keys : List Text)
    → All IsHere (map (export_item bucket prefix root) keys)
unfolding export_item
export_item-IsHere bucket prefix root [] = tt
export_item-IsHere bucket prefix root (key ∷ keys) =
    (tt, export_item-IsHere bucket prefix root keys)

-- The items of an export all go to files.
pub prepare_export_items-IsHere :
    {Client : Type 0} (list_objects : Client → Text → Text → Result (List Text)) (client : Client)
    (bucket prefix root : Text) {items : List TransferItem}
    → prepare_export_items list_objects client bucket prefix root ≡ ok items
    → All IsHere items
unfolding prepare_export_items
prepare_export_items-IsHere list_objects client bucket prefix root e =
    let (keys, _, e) = >>=-eq-ok (list_objects client bucket prefix) _ e in
    subst (All IsHere) (ok-injective _ _ e) (export_item-IsHere bucket prefix root keys)
