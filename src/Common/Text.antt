-- ===== src/Common/Text.antt =====
-- `String`: a text is the list of its characters' code points. The order of `Ord for str` compares
-- bytes, which for UTF-8 is the order of the code points.
pub mod Order
use Prim.Native.Char.{code}
use Prim.Native.String.{String}
use Prim.Native.Nat.{ℕ, compare, Ordering}
use Prim.Native.Nat.Ordering.{lt, eq, gt}
use mathlib.Core.Bool.{Bool, true, false, ◌||◌}
use mathlib.Core.List.{List, [], ◌∷◌}
use native.Mathlib.Decide.{ℕ_discrete}
use mathlib.Core.Path.{◌≡◌, refl, sym, ap₂}
use mathlib.Core.Logic.{◌≢◌, dite}
use abixio_ui.Common.Equality.{Eq, ◌==◌}

abbrev pub Text : Type 0
Text = List ℕ

-- A literal of the source.
unfoldable pub text : String → Text
text String.[] = []
text (String.◌∷◌ c s) = code c ∷ text s

cons_head : {a b : ℕ} {s t : Text} → (a ∷ s) ≡ (b ∷ t) → a ≡ b
cons_head e = cc

cons_tail : {a b : ℕ} {s t : Text} → (a ∷ s) ≡ (b ∷ t) → s ≡ t
cons_tail e = cc

nil≢cons : {a : ℕ} {s : Text} → [] ≢ (a ∷ s)
nil≢cons e = cc

text_dec : Discrete Text
text_dec [] [] = yes refl
text_dec [] (b ∷ t) = no nil≢cons
text_dec (a ∷ s) [] = no (λ e. nil≢cons (sym e))
text_dec (a ∷ s) (b ∷ t) =
    dite (ℕ_discrete a b)
      (λ p. dite (text_dec s t) (λ q. yes (ap₂ ◌∷◌ p q)) (λ n. no (λ e. n (cons_tail e))))
      (λ n. no (λ e. n (cons_head e)))

instance unfoldable pub text_eq : Eq Text
unfolding text_dec ℕ_discrete cons_head cons_tail nil≢cons
text_eq = record { dec = text_dec }

abbrev pub then : Ordering → Ordering → Ordering
then eq second = second
then first _ = first

-- `a.cmp(b)`
unfoldable pub compare_text : Text → Text → Ordering
compare_text [] [] = eq
compare_text [] (_ ∷ _) = lt
compare_text (_ ∷ _) [] = gt
compare_text (a ∷ s) (b ∷ t) = then (compare a b) (compare_text s t)

-- `a <= b`
abbrev pub leb_text : Text → Text → Bool
leb_text s t = elim (compare_text s t) [ gt ↦ false | _ ↦ true ]

-- `v.contains(&k)`
abbrev pub contains : Text → List Text → Bool
contains k [] = false
contains k (j ∷ l) = k == j || contains k l
