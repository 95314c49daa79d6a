-- ===== src/Common/Map.antt =====
-- `BTreeMap<String, V>` as the association list that its iteration yields: ascending keys.
pub mod Laws
use Prim.Native.Nat.Ordering.{lt, eq, gt}
use abixio_ui.Common.Equality.{◌==◌}
use abixio_ui.Common.Tests.{if◌then◌else◌}
use abixio_ui.Common.Text.{Text, text_eq, compare_text}
use mathlib.Core.Option.{Option, none, some}
use mathlib.Core.List.{List, [], ◌∷◌}

module _ {ℓ} {V : Type ℓ} where
  -- `map.insert(k, v)`
  unfoldable pub insert : Text → V → List (Text × V) → List (Text × V)
  insert k v [] = (k, v) ∷ []
  insert k v ((j, w) ∷ m) = elim (compare_text k j) [
    | lt ↦ (k, v) ∷ (j, w) ∷ m
    | eq ↦ (j, v) ∷ m
    | gt ↦ (j, w) ∷ insert k v m
  ]

  -- `map.get(k)`
  unfoldable pub lookup : Text → List (Text × V) → Option V
  lookup k [] = none
  lookup k ((j, w) ∷ m) = if k == j then some w else lookup k m

  unfoldable pub keys : List (Text × V) → List Text
  keys [] = []
  keys ((j, _) ∷ m) = j ∷ keys m
