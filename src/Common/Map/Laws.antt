-- ===== src/Common/Map/Laws.antt =====
-- Lookup after insertion, and the keys of a map.
use abixio_ui.Common.Equality.{◌==◌}
use abixio_ui.Common.Tests.{if◌then◌else◌}
use abixio_ui.Common.Text.{Text, text_eq, contains}
use abixio_ui.Common.Text.Order.{eq_of_compare_text, compare_text_refl}
use abixio_ui.Common.Map.{insert, lookup, keys}
use mathlib.Core.Path.{◌≡◌, refl}
use mathlib.Core.Logic.{◌↔◌, ◌≢◌}
use mathlib.Core.Bool.{true}
use mathlib.Core.Option.{none, some}
use mathlib.Core.List.{List, [], ◌∷◌}
use native.Mathlib.Omega.{arith}

module _ {ℓ} {V : Type ℓ} where
  pub lookup-insert :
      (k j : Text) (v : V) (m : List (Text × V))
      → lookup j (insert k v m) ≡ (if j == k then some v else lookup j m)
  unfolding insert lookup
  lookup-insert k j v [] = refl
  lookup-insert k j v ((i, w) ∷ m) =
      ground (arith, eq_of_compare_text k i, compare_text_refl k, lookup-insert k j v m)

  pub contains-keys :
      (k : Text) (m : List (Text × V)) → (contains k (keys m) ≡ true) ↔ (lookup k m ≢ none)
  unfolding keys lookup
  contains-keys k [] = (λ h. cc, λ h. absurd (h refl))
  contains-keys k ((j, w) ∷ m) = ground (arith, contains-keys k m)
