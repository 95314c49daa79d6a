-- ===== src/Sync/Execution/Batches.antt =====
-- What each task takes of the plan (`next_transfer_spec` and `next_delete_batch_spec`,
-- src/app/handlers/sync.rs).
use abixio_ui.Common.{
  ℕ, zero, suc, ◌+◌, ◌≤◌, ◌<◌, Option, none, some, List, [], ◌∷◌, ◌≡◌, refl, arith, length, drop,
  get_elem?, Option-cases, inl, inr, ◌⊎◌,
}
use abixio_ui.Common.{
  get_elem?-drop, length-drop, get_elem?_total, take, ◌++◌, ap, ◌∙◌, sym, ◌≢◌, ◌%◌, ◌^◌,
}
use mathlib.Core.List.{append-nil, append_assoc}
use abixio_ui.Common.Text.{Text, text_eq}
use abixio_ui.Sync.State.{TransferEndpoint, SyncRunItem, SyncExecutionState}
use abixio_ui.Sync.State.TransferEndpoint.{s3, local}
use abixio_ui.Sync.Execution.Tasks.{
  PendingSyncTask, Batch, key_in, grow, take_batch, no_batch, next_transfer_spec,
  next_delete_batch_spec, batch_spec,
}

-- The keys of the items of an S3 bucket.
abbrev pub keys_in : Text → Text → List SyncRunItem → List (Option Text)
keys_in connection bucket [] = []
keys_in connection bucket (item ∷ items) =
    key_in connection bucket item.destination ∷ keys_in connection bucket items

abbrev pub somes : List Text → List (Option Text)
somes [] = []
somes (k ∷ keys) = some k ∷ somes keys

abbrev pub sum_of : List SyncRunItem → ℕ
sum_of [] = 0
sum_of (item ∷ items) = item.bytes + sum_of items

-- A batch that grew from `b` by the first `n` of the items.
pub record Grown (connection bucket : Text) (items : List SyncRunItem) (b r : Batch) (n : ℕ)
    : Type 0 where
  pub taken : r.taken ≡ b.taken + n
  pub within : n ≤ length items
  pub keys : somes r.keys ≡ somes b.keys ++ keys_in connection bucket (take n items)
  pub bytes : r.bytes % 2 ^ 64 ≡ (b.bytes + sum_of (take n items)) % 2 ^ 64

somes-snoc : (ks : List Text) (k : Text) → somes (ks ++ k ∷ []) ≡ somes ks ++ some k ∷ []
somes-snoc [] k = refl
somes-snoc (j ∷ ks) k = ap (λ l. some j ∷ l) (somes-snoc ks k)

module _ (connection bucket : Text) where
  Grown-zero : (items : List SyncRunItem) (b : Batch) → Grown connection bucket items b b 0
  Grown-zero items b = record {
    taken = omega arith;
    within = omega arith;
    keys = sym (append-nil (somes b.keys));
    bytes = omega arith;
  }

  Grown-suc :
      (item : SyncRunItem) (items : List SyncRunItem) (b r : Batch) (key : Text) (n : ℕ)
      → key_in connection bucket item.destination ≡ some key
      → Grown connection bucket items (grow b key item) r n
      → Grown connection bucket (item ∷ items) b r (suc n)
  Grown-suc item items b r key n e g = record {
    taken = omega arith;
    within = omega arith;
    keys =
        g.keys
        ∙ rw (somes-snoc b.keys key, e)
            (append_assoc (somes b.keys) (some key ∷ [])
              (keys_in connection bucket (take n items)));
    bytes = omega arith;
  }

  -- A batch takes the items from the front on, while they stand in the bucket and room is left.
  pub take_batch-Grown :
      (room : ℕ) (items : List SyncRunItem) (b : Batch)
      → (n : ℕ) × (n ≤ room)
        × Grown connection bucket items b (take_batch room connection bucket items b) n
  unfolding take_batch
  take_batch-Grown zero items b = (0, omega arith, Grown-zero items b)
  take_batch-Grown (suc room) [] b = (0, omega arith, Grown-zero [] b)
  take_batch-Grown (suc room) (item ∷ items) b =
      elim (Option-cases (key_in connection bucket item.destination)) [
        | inl e ↦ rw (e, take_batch) (0, omega arith, Grown-zero (item ∷ items) b)
        | inr (key, e) ↦
            let (n, le, g) = take_batch-Grown room items (grow b key item) in
            rw (e, take_batch) (suc n, omega arith, Grown-suc item items b _ key n e g)
      ]

  -- The first item of a batch is in its bucket, so a batch is never empty.
  take_batch-first :
      (room : ℕ) (item : SyncRunItem) (items : List SyncRunItem) (b : Batch) {key : Text}
      → key_in connection bucket item.destination ≡ some key
      → (n : ℕ) × (n ≤ suc room)
        × (0 < n)
        × Grown connection bucket
            (item ∷ items)
            b
            (take_batch (suc room) connection bucket (item ∷ items) b)
            n
  unfolding take_batch
  take_batch-first room item items b {key} e =
      let (n, le, g) = take_batch-Grown room items (grow b key item) in
      rw (e, take_batch) (suc n, omega arith, omega arith, Grown-suc item items b _ key n e g)

key_in_self :
    (connection bucket key : Text) → key_in connection bucket (s3 connection bucket key) ≡ some key
key_in_self connection bucket key = ground arith

-- A transfer task is the next transfer of the plan.
pub next_transfer_spec-cases :
    (e : SyncExecutionState)
    → (next_transfer_spec e ≡ none)
      ⊎ ((item : SyncRunItem) × (get_elem? e.run_plan.transfers e.next_transfer_index ≡ some item)
          × (next_transfer_spec e
              ≡ some (
                record e { next_transfer_index = e.next_transfer_index + 1 },
                PendingSyncTask.transfer item,
              )))
unfolding next_transfer_spec
next_transfer_spec-cases e =
    elim (Option-cases (get_elem? e.run_plan.transfers e.next_transfer_index)) [
      | inl missing ↦ inl (ground arith)
      | inr (item, found) ↦ inr (item, found, ground arith)
    ]

pub next_transfer_spec_total :
    (e : SyncExecutionState)
    → e.next_transfer_index < length e.run_plan.transfers
    → next_transfer_spec e ≢ none
unfolding next_transfer_spec
next_transfer_spec_total e h =
    ground (arith, get_elem?_total {0} e.run_plan.transfers e.next_transfer_index h)

-- The deletes of the plan that a delete task is for.
abbrev pub Covers : List SyncRunItem → PendingSyncTask → Type 0
Covers items (PendingSyncTask.transfer item) = ⊥
Covers items (PendingSyncTask.delete_remote connection bucket keys bytes label) =
    (somes keys ≡ keys_in connection bucket items) × (bytes % 2 ^ 64 ≡ sum_of items % 2 ^ 64)
Covers items (PendingSyncTask.delete_local path bytes label) =
    (item : SyncRunItem) × (items ≡ item ∷ []) × (item.destination ≡ local path)

-- What a delete task takes of a plan: `n` deletes from `next_delete_index` on, at most a thousand
-- and at least one. The keys of a remote batch are those of these deletes, all in its bucket.
pub record TakesDeletes (e : SyncExecutionState) (e' : SyncExecutionState) (spec : PendingSyncTask)
    (n : ℕ) : Type 0 where
  pub some_taken : 0 < n
  pub capped : n ≤ 1000
  pub within : e.next_delete_index + n ≤ length e.run_plan.deletes
  pub covers : Covers (take n (drop e.next_delete_index e.run_plan.deletes)) spec
  pub moves : e' ≡ record e { next_delete_index = e.next_delete_index + n }

batch_spec-Takes :
    (e : SyncExecutionState) (first : SyncRunItem) (at : TransferEndpoint)
    → first.destination ≡ at
    → get_elem? e.run_plan.deletes e.next_delete_index ≡ some first
    → (n : ℕ) × TakesDeletes e (batch_spec e first at).0 (batch_spec e first at).1 n
batch_spec-Takes e first (local path) is found =
    let (split, within) = get_elem?-drop e.run_plan.deletes e.next_delete_index found in
    (
      1,
      record {
        some_taken = omega arith;
        capped = omega arith;
        within = omega arith;
        covers = rw split (first, refl, is);
        moves = refl;
      },
    )
batch_spec-Takes e first (s3 connection bucket key) is found =
    let (split, within) = get_elem?-drop e.run_plan.deletes e.next_delete_index found in
    let rest = drop (suc e.next_delete_index) e.run_plan.deletes in
    let (n, le, pos, g) =
      take_batch-first connection bucket 999 first rest no_batch {key = key}
        (rw is (key_in_self connection bucket key)) in
    let fits : n ≤ length (drop e.next_delete_index e.run_plan.deletes) = rw split (g.within) in
    (
      n,
      record {
        some_taken = pos;
        capped = le;
        within = omega (arith, length-drop {0} e.next_delete_index e.run_plan.deletes);
        covers = rw split (g.keys, omega (arith, g.bytes));
        moves = rw split (
            ap (λ k. record e { next_delete_index = e.next_delete_index + k })
              (omega (arith, g.taken)));
      },
    )

pub next_delete_batch_spec-cases :
    (e : SyncExecutionState)
    → (next_delete_batch_spec e ≡ none)
      ⊎ ((n : ℕ) × (spec : PendingSyncTask) × TakesDeletes e
            (record e { next_delete_index = e.next_delete_index + n })
            spec
            n
          × (next_delete_batch_spec e
              ≡ some (record e { next_delete_index = e.next_delete_index + n }, spec)))
unfolding next_delete_batch_spec
next_delete_batch_spec-cases e =
    elim (Option-cases (get_elem? e.run_plan.deletes e.next_delete_index)) [
      | inl missing ↦ inl (rw (missing, next_delete_batch_spec))
      | inr (first, found) ↦
          let (n, t) = batch_spec-Takes e first first.destination refl found in
          inr (
            n,
            (batch_spec e first first.destination).1,
            record {
              some_taken = t.some_taken;
              capped = t.capped;
              within = t.within;
              covers = t.covers;
              moves = refl;
            },
            rw (found, next_delete_batch_spec)
                (ap
                  (λ (e' : SyncExecutionState). some (e', (batch_spec e first first.destination).1))
                  t.moves),
          )
    ]

pub next_delete_batch_spec_total :
    (e : SyncExecutionState)
    → e.next_delete_index < length e.run_plan.deletes
    → next_delete_batch_spec e ≢ none
unfolding next_delete_batch_spec
next_delete_batch_spec_total e h =
    ground (arith, get_elem?_total {0} e.run_plan.deletes e.next_delete_index h)
