-- ===== src/Common/Number/Digits.antt =====
-- What `parse` of an unsigned integer reads of the digits that `{}` writes.
use Prim.Native.Nat.{ℕ, zero, suc, ◌+◌, ◌-◌, ◌*◌, ◌/◌, ◌%◌, ◌<◌}
use mathlib.Core.Path.{◌≡◌, refl, ◌∙◌}
use mathlib.Core.Logic.{inl, inr}
use mathlib.Core.Bool.{true, false}
use mathlib.Core.Option.{some}
use mathlib.Core.List.{[], ◌∷◌}
use native.Mathlib.Omega.{arith}
use abixio_ui.Common.Tests.{ltb, Bool-cases}
use abixio_ui.Common.Lists.{all, is_empty}
use abixio_ui.Common.Equality.{◌==◌, nat_eq}
use abixio_ui.Common.Text.{Text}
use abixio_ui.Common.Number.{is_ascii_digit, parse_digits, parse_below, digits_above, display}

parse_digits-step :
    (limit value c next : ℕ) (s : Text)
    → is_ascii_digit c ≡ true
    → value * 10 + (c - b'0') ≡ next
    → next < limit
    → parse_digits limit value (c ∷ s) ≡ parse_digits limit next s
unfolding parse_digits
parse_digits-step limit value c next s digit same small =
    let below : ltb next limit ≡ true = ground arith in rw (digit, same, below) refl

digit_of : (n : ℕ) → n < 10 → is_ascii_digit (b'0' + n) ≡ true
unfolding is_ascii_digit
digit_of n h = ground arith

parse_digits-digits_above :
    (limit fuel n : ℕ) (out : Text)
    → n < fuel
    → n < limit
    → parse_digits limit 0 (digits_above fuel n out) ≡ parse_digits limit n out
unfolding digits_above
parse_digits-digits_above limit zero n out enough small = absurd (omega arith)
parse_digits-digits_above limit (suc fuel) n out enough small = elim (Bool-cases (ltb n 10)) [
  | inl e ↦
      rw e
        (parse_digits-step limit 0 (b'0' + n) n out (digit_of n (ground arith)) (omega arith) small)
  | inr e ↦ rw e (
      parse_digits-digits_above limit fuel (n / 10) ((b'0' + n % 10) ∷ out) (ground arith)
        (ground arith)
      ∙ parse_digits-step limit (n / 10) (b'0' + n % 10) n out (digit_of (n % 10) (omega arith))
          (omega arith) small)
]

digits_above-digits :
    (fuel n : ℕ) (out : Text)
    → all is_ascii_digit out ≡ true
    → all is_ascii_digit (digits_above fuel n out) ≡ true
unfolding digits_above
digits_above-digits zero n out h = h
digits_above-digits (suc fuel) n out h = elim (Bool-cases (ltb n 10)) [
  | inl e ↦ rw (e, digit_of n (ground arith)) h
  | inr e ↦ rw e (
      digits_above-digits fuel (n / 10) ((b'0' + n % 10) ∷ out)
        (rw (digit_of (n % 10) (omega arith)) h))
]

pub display-digits : (n : ℕ) → all is_ascii_digit (display n) ≡ true
unfolding display
display-digits n = digits_above-digits (suc n) n [] refl

digits_above-is_empty :
    (fuel n : ℕ) (out : Text) → is_empty out ≡ false → is_empty (digits_above fuel n out) ≡ false
unfolding digits_above
digits_above-is_empty zero n out h = h
digits_above-is_empty (suc fuel) n out h = elim (Bool-cases (ltb n 10)) [
  | inl e ↦ rw e refl
  | inr e ↦ rw e (digits_above-is_empty fuel (n / 10) ((b'0' + n % 10) ∷ out) refl)
]

pub display-is_empty : (n : ℕ) → is_empty (display n) ≡ false
unfolding display digits_above
display-is_empty n = elim (Bool-cases (ltb n 10)) [
  | inl e ↦ rw e refl
  | inr e ↦ rw e (digits_above-is_empty n (n / 10) ((b'0' + n % 10) ∷ []) refl)
]

-- A text of digits starts without a sign.
parse_below-digits :
    (limit : ℕ) (t : Text)
    → all is_ascii_digit t ≡ true
    → is_empty t ≡ false
    → parse_below limit t ≡ parse_digits limit 0 t
unfolding parse_below is_ascii_digit nat_eq
parse_below-digits limit [] h g = cc
parse_below-digits limit (c ∷ []) h g = refl
parse_below-digits limit (c ∷ d ∷ s) h g =
    let unsigned : (c == b'+') ≡ false = ground arith in rw unsigned refl

pub parse_below-display : (limit n : ℕ) → n < limit → parse_below limit (display n) ≡ some n
unfolding display parse_digits
parse_below-display limit n small =
    parse_below-digits limit (display n) (display-digits n) (display-is_empty n)
    ∙ parse_digits-digits_above limit (suc n) n [] (omega arith) small
