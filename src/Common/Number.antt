-- ===== src/Common/Number.antt =====
-- `str::trim`, the `FromStr` of unsigned integers, and their `Display`.
pub mod Digits
use abixio_ui.Common.Tests.{ltb, leb, if◌then◌else◌}
use abixio_ui.Common.Lists.{is_empty}
use abixio_ui.Common.Equality.{◌==◌, nat_eq}
use abixio_ui.Common.Text.{Text}
use Prim.Native.Nat.{ℕ, zero, suc, ◌+◌, ◌-◌, ◌*◌, ◌/◌, ◌%◌, ◌^◌}
use mathlib.Core.Bool.{Bool, ◌&&◌, ◌||◌}
use mathlib.Core.Option.{Option, none, some}
use mathlib.Core.List.{[], ◌∷◌}

-- `char::is_whitespace`: the Unicode property White_Space.
unfoldable pub is_whitespace : ℕ → Bool
is_whitespace c =
    (leb 9 c && leb c 13)
    || c == 32
    || c == 0x85
    || c == 0xa0
    || c == 0x1680
    || (leb 0x2000 c && leb c 0x200a)
    || c == 0x2028
    || c == 0x2029
    || c == 0x202f
    || c == 0x205f
    || c == 0x3000

unfoldable pub trim_start : Text → Text
unfolding is_whitespace
trim_start [] = []
trim_start (c ∷ s) = let rest = trim_start s in if is_whitespace c then rest else c ∷ s

unfoldable pub trim_end : Text → Text
unfolding is_whitespace
trim_end [] = []
trim_end (c ∷ s) =
    let rest = trim_end s in if is_empty rest && is_whitespace c then [] else c ∷ rest

unfoldable pub trim : Text → Text
unfolding trim_start trim_end
trim s = trim_end (trim_start s)

unfoldable pub is_ascii_digit : ℕ → Bool
is_ascii_digit c = leb b'0' c && leb c b'9'

-- The digits of a number below `limit`, after those that gave `value`.
unfoldable pub parse_digits : ℕ → ℕ → Text → Option ℕ
unfolding is_ascii_digit
parse_digits limit value [] = some value
parse_digits limit value (c ∷ s) =
    let next = value * 10 + (c - b'0') in
    let rest = parse_digits limit next s in
    if is_ascii_digit c && ltb next limit then rest else none

-- A number of a type whose values are below `limit`: digits, with one `+` before them or none.
unfoldable pub parse_below : ℕ → Text → Option ℕ
unfolding parse_digits
parse_below limit [] = none
parse_below limit (c ∷ []) = parse_digits limit 0 (c ∷ [])
parse_below limit (c ∷ d ∷ s) =
    if c == b'+' then parse_digits limit 0 (d ∷ s) else parse_digits limit 0 (c ∷ d ∷ s)

-- `u64` and, on a 64-bit target, `usize`
abbrev pub parse_u64 : Text → Option ℕ
parse_u64 = parse_below (2 ^ 64)

digits_above : ℕ → ℕ → Text → Text
digits_above zero n out = out
digits_above (suc fuel) n out =
    let more = digits_above fuel (n / 10) ((b'0' + n % 10) ∷ out) in
    if ltb n 10 then (b'0' + n) ∷ out else more

-- `{}` of an integer: a number has no more digits than its value plus one.
unfoldable pub display : ℕ → Text
unfolding digits_above
display n = digits_above (suc n) n []
