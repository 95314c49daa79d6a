-- ===== src/Sync/Plan/Paths.antt =====
-- The paths that `build_sync_plan` (src/app/sync_ops.rs) goes through, sorted and deduplicated.
use Prim.Native.Nat.Ordering.{lt, gt}
use abixio_ui.Common.{
  true, ◌||◌, none, List, [], ◌∷◌, ◌++◌, ◌==◌, ◌≡◌, ◌≢◌, refl, ◌↔◌, ◌⊎◌, arith, All,
}
use abixio_ui.Common.Text.{Text, text_eq, compare_text, contains}
use abixio_ui.Common.Text.Order.{eq_of_compare_text, lt_of_gt}
use abixio_ui.Common.Map
use abixio_ui.Common.Map.Laws.{contains-keys}
use abixio_ui.Sync.Types.{SyncObject}
use abixio_ui.Sync.Plan.{insert_sorted, sort, dedup, all_paths}

abbrev pub LtHead : Text → List Text → Type 0
LtHead a [] = Unit
LtHead a (b ∷ _) = compare_text a b ≡ lt

-- Strictly ascending, so no path stands twice.
abbrev pub IsAscending : List Text → Type 0
IsAscending [] = Unit
IsAscending (a ∷ l) = LtHead a l × IsAscending l

abbrev LeHead : Text → List Text → Type 0
LeHead a [] = Unit
LeHead a (b ∷ _) = compare_text a b ≢ gt

abbrev IsSorted : List Text → Type 0
IsSorted [] = Unit
IsSorted (a ∷ l) = LeHead a l × IsSorted l

LeHead-insert_sorted :
    (c a : Text) (l : List Text) → compare_text c a ≢ gt → LeHead c l → LeHead c (insert_sorted a l)
unfolding insert_sorted
LeHead-insert_sorted c a [] h k = h
LeHead-insert_sorted c a (b ∷ l) h k = ground arith

insert_sorted-IsSorted : (a : Text) (l : List Text) → IsSorted l → IsSorted (insert_sorted a l)
unfolding insert_sorted
insert_sorted-IsSorted a [] h = (tt, tt)
insert_sorted-IsSorted a (b ∷ l) h =
    ground (arith, lt_of_gt a b, LeHead-insert_sorted b a l, insert_sorted-IsSorted a l)

sort-IsSorted : (l : List Text) → IsSorted (sort l)
unfolding sort
sort-IsSorted [] = tt
sort-IsSorted (a ∷ l) = insert_sorted-IsSorted a (sort l) (sort-IsSorted l)

LtHead-dedup : (c a : Text) (l : List Text) → compare_text c a ≡ lt → LtHead c (dedup (a ∷ l))
unfolding dedup
LtHead-dedup c a [] h = h
LtHead-dedup c a (b ∷ l) h = ground (arith, LtHead-dedup c b l)

dedup-IsAscending : (l : List Text) → IsSorted l → IsAscending (dedup l)
unfolding dedup
dedup-IsAscending [] h = tt
dedup-IsAscending (a ∷ []) h = (tt, tt)
dedup-IsAscending (a ∷ b ∷ l) h =
    ground (arith, eq_of_compare_text a b, LtHead-dedup a b l, dedup-IsAscending (b ∷ l) h.1)

pub all_paths-IsAscending : (src dst : List (Text × SyncObject)) → IsAscending (all_paths src dst)
unfolding all_paths
all_paths-IsAscending src dst =
    dedup-IsAscending (sort (Map.keys src ++ Map.keys dst))
      (sort-IsSorted (Map.keys src ++ Map.keys dst))

contains-insert_sorted :
    (q a : Text) (l : List Text) → contains q (insert_sorted a l) ≡ (q == a || contains q l)
unfolding insert_sorted
contains-insert_sorted q a [] = refl
contains-insert_sorted q a (b ∷ l) = ground (arith, contains-insert_sorted q a l)

contains-sort : (q : Text) (l : List Text) → contains q (sort l) ≡ contains q l
unfolding sort
contains-sort q [] = refl
contains-sort q (a ∷ l) = ground (arith, contains-insert_sorted q a (sort l), contains-sort q l)

contains-dedup : (q : Text) (l : List Text) → contains q (dedup l) ≡ contains q l
unfolding dedup
contains-dedup q [] = refl
contains-dedup q (a ∷ []) = refl
contains-dedup q (a ∷ b ∷ l) = ground (arith, contains-dedup q (b ∷ l))

contains-append :
    (q : Text) (k l : List Text) → contains q (k ++ l) ≡ (contains q k || contains q l)
contains-append q [] l = refl
contains-append q (a ∷ k) l = ground (arith, contains-append q k l)

-- The paths are those that either map holds.
pub contains-all_paths :
    (q : Text) (src dst : List (Text × SyncObject))
    → (contains q (all_paths src dst) ≡ true)
      ↔ ((Map.lookup q src ≢ none) ⊎ (Map.lookup q dst ≢ none))
unfolding all_paths
contains-all_paths q src dst = ground (
  arith,
  contains-dedup q (sort (Map.keys src ++ Map.keys dst)),
  contains-sort q (Map.keys src ++ Map.keys dst),
  contains-append q (Map.keys src) (Map.keys dst),
  contains-keys q src,
  contains-keys q dst,
)

-- What holds of every path that a list contains holds all along it.
pub All-contains :
    (P : Text → Type 0) (l : List Text) → ((q : Text) → contains q l ≡ true → P q) → All P l
All-contains P [] h = tt
All-contains P (a ∷ l) h = (h a (ground arith), All-contains P l (λ q m. h q (ground arith)))
