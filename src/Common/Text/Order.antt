-- ===== src/Common/Text/Order.antt =====
-- The order of texts (`Ord for str`).
use Prim.Native.Nat.Ordering.{lt, eq, gt}
use mathlib.Core.Path.{◌≡◌, refl}
use mathlib.Core.List.{[], ◌∷◌}
use native.Mathlib.Omega.{arith}
use abixio_ui.Common.Text.{Text, compare_text}

pub compare_text_refl : (s : Text) → compare_text s s ≡ eq
unfolding compare_text
compare_text_refl [] = refl
compare_text_refl (a ∷ s) = ground (arith, compare_text_refl s)

pub eq_of_compare_text : (s t : Text) → compare_text s t ≡ eq → s ≡ t
unfolding compare_text
eq_of_compare_text [] [] h = refl
eq_of_compare_text [] (_ ∷ _) h = cc
eq_of_compare_text (_ ∷ _) [] h = cc
eq_of_compare_text (a ∷ s) (b ∷ t) h = ground (arith, eq_of_compare_text s t)

pub gt_of_lt : (s t : Text) → compare_text s t ≡ lt → compare_text t s ≡ gt
unfolding compare_text
gt_of_lt [] [] h = cc
gt_of_lt [] (_ ∷ _) h = refl
gt_of_lt (_ ∷ _) [] h = cc
gt_of_lt (a ∷ s) (b ∷ t) h = ground (arith, gt_of_lt s t)

pub lt_of_gt : (s t : Text) → compare_text s t ≡ gt → compare_text t s ≡ lt
unfolding compare_text
lt_of_gt [] [] h = cc
lt_of_gt [] (_ ∷ _) h = cc
lt_of_gt (_ ∷ _) [] h = refl
lt_of_gt (a ∷ s) (b ∷ t) h = ground (arith, lt_of_gt s t)

pub lt_trans :
    (s t u : Text) → compare_text s t ≡ lt → compare_text t u ≡ lt → compare_text s u ≡ lt
unfolding compare_text
lt_trans [] [] u h k = cc
lt_trans [] (_ ∷ _) [] h k = cc
lt_trans [] (_ ∷ _) (_ ∷ _) h k = refl
lt_trans (_ ∷ _) [] u h k = cc
lt_trans (_ ∷ _) (_ ∷ _) [] h k = cc
lt_trans (a ∷ s) (b ∷ t) (c ∷ u) h k = ground (arith, lt_trans s t u)
