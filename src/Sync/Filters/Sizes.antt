-- ===== src/Sync/Filters/Sizes.antt =====
-- Sizes that `parse_size_filter` reads (src/app/sync_ops.rs).
use abixio_ui.Common.{
  ℕ, ◌^◌, ◌≤◌, ◌<◌, Bool, true, false, not, ◌&&◌, some, [], ◌∷◌, ◌++◌, ◌≡◌, refl, ap, arith, nat_eq,
  is_empty, all, Bool-cases, inl, inr,
}
use abixio_ui.Common.Text.{Text}
use abixio_ui.Common.Number.{trim, trim_start, trim_end, is_whitespace, is_ascii_digit, display}
use abixio_ui.Common.Number.Digits.{display-digits, parse_below-display}
use abixio_ui.Glob.{lower}
use abixio_ui.Sync.Filters.{last_char, without_last, multiplier, checked_mul, parse_size_filter}

abbrev is_dark : ℕ → Bool
is_dark c = not (is_whitespace c)

dark_head :
    (c : ℕ) (t : Text)
    → all is_dark (c ∷ t) ≡ true
    → (is_whitespace c ≡ false) × (all is_dark t ≡ true)
dark_head c t h = go (is_whitespace c) (all is_dark t) h
  where
    go : (w r : Bool) → (not w && r) ≡ true → (w ≡ false) × (r ≡ true)
    go true r h = cc
    go false r h = (refl, h)

trim_end-plain :
    (c : ℕ) (t : Text) → is_whitespace c ≡ false → trim_end t ≡ t → trim_end (c ∷ t) ≡ c ∷ t
unfolding trim_end
trim_end-plain c t dark rest =
    rw (rest, dark) (elim (Bool-cases (is_empty t)) [ inl e ↦ rw e refl | inr e ↦ rw e refl ])

trim_end-dark : (t : Text) → all is_dark t ≡ true → trim_end t ≡ t
unfolding trim_end
trim_end-dark [] h = refl
trim_end-dark (c ∷ t) h =
    let (dark, rest) = dark_head c t h in trim_end-plain c t dark (trim_end-dark t rest)

trim_start-plain : (c : ℕ) (t : Text) → is_whitespace c ≡ false → trim_start (c ∷ t) ≡ c ∷ t
unfolding trim_start
trim_start-plain c t dark = rw dark refl

trim_start-dark : (t : Text) → all is_dark t ≡ true → trim_start t ≡ t
unfolding trim_start
trim_start-dark [] h = refl
trim_start-dark (c ∷ t) h = trim_start-plain c t (dark_head c t h).0

trim-dark : (t : Text) → all is_dark t ≡ true → trim t ≡ t
unfolding trim
trim-dark t h = rw (trim_start-dark t h) (trim_end-dark t h)

digits-dark : (t : Text) → all is_ascii_digit t ≡ true → all is_dark t ≡ true
unfolding is_ascii_digit is_whitespace nat_eq
digits-dark [] h = refl
digits-dark (c ∷ t) h = let rest = digits-dark t (ground arith) in ground arith

all-snoc :
    (p : ℕ → Bool) (t : Text) (c : ℕ) → all p t ≡ true → p c ≡ true → all p (t ++ c ∷ []) ≡ true
all-snoc p [] c h g = ground arith
all-snoc p (x ∷ t) c h g = let rest = all-snoc p t c (ground arith) g in ground arith

last_char-snoc : (t : Text) (c : ℕ) → last_char (t ++ c ∷ []) ≡ some c
last_char-snoc [] c = refl
last_char-snoc (x ∷ []) c = refl
last_char-snoc (x ∷ y ∷ t) c = last_char-snoc (y ∷ t) c

without_last-snoc : (t : Text) (c : ℕ) → without_last (t ++ c ∷ []) ≡ t
without_last-snoc [] c = refl
without_last-snoc (x ∷ []) c = refl
without_last-snoc (x ∷ y ∷ t) c = ap (λ l. x ∷ l) (without_last-snoc (y ∷ t) c)

is_empty-snoc : (t : Text) (c : ℕ) → is_empty (t ++ c ∷ []) ≡ false
is_empty-snoc [] c = refl
is_empty-snoc (x ∷ t) c = refl

-- A unit is a letter, and no white space.
multiplier-letter : (c factor : ℕ) → multiplier c ≡ some factor → (b'b' ≤ c) × (c ≤ b't')
unfolding nat_eq
multiplier-letter c factor h = (ground arith, ground arith)

lower-letter : (u : ℕ) → b'b' ≤ lower u → lower u ≤ b't' → (b'B' ≤ u) × (u ≤ b't')
unfolding lower
lower-letter u h g = (ground arith, ground arith)

letter-dark : (u : ℕ) → b'B' ≤ u → u ≤ b't' → is_dark u ≡ true
unfolding is_whitespace nat_eq
letter-dark u h g = ground arith

unit-dark : (u factor : ℕ) → multiplier (lower u) ≡ some factor → is_dark u ≡ true
unit-dark u factor h =
    let (from, to) = multiplier-letter (lower u) factor h in
    let (from', to') = lower-letter u from to in letter-dark u from' to'

-- A number below 2^64 that is written out, with a letter of a unit after it, is read as their product,
-- and as nothing where that has more than 64 bits.
pub parse_size_filter-display :
    (n u factor : ℕ)
    → n < 2 ^ 64
    → multiplier (lower u) ≡ some factor
    → parse_size_filter (display n ++ u ∷ []) ≡ checked_mul (some n) factor
unfolding parse_size_filter
parse_size_filter-display n u factor small unit =
    let dark = digits-dark (display n) (display-digits n) in
    let dark' = all-snoc is_dark (display n) u dark (unit-dark u factor unit) in
    rw
      (
        trim-dark (display n ++ u ∷ []) dark',
        is_empty-snoc,
        last_char-snoc,
        unit,
        without_last-snoc,
        trim-dark (display n) dark,
        parse_below-display (2 ^ 64) n small,
      )
      refl
