-- ===== src/Sync/Filters.antt =====
-- The filters of a sync (src/app/sync_ops.rs): patterns, sizes and ages, and the objects that they keep.
-- A moment is a number of seconds. The parser of RFC 3339, the present moment and `now - duration`
-- are those of the crate `time`, as parameters.
pub mod Sizes
use abixio_ui.Common.{
  ℕ, ◌+◌, ◌*◌, ◌%◌, ◌^◌, Bool, true, false, not, ◌&&◌, ◌||◌, Option, none, some, List, [], ◌∷◌,
  ◌++◌, if◌then◌else◌, ltb, ◌==◌, nat_eq, is_empty, map,
}
use abixio_ui.Common.Text.{Text}
use abixio_ui.Common.Number.{trim, parse_u64, parse_below, is_ascii_digit}
use abixio_ui.Sync.Types.{SyncObject}
use abixio_ui.Sync.State.{SyncFilterSet}
use abixio_ui.Glob.{lower, wildcard_match}

-- `text.lines()`, a `\r` before the `\n` dropped
abbrev strip_return : Text → Text
strip_return [] = []
strip_return (c ∷ []) = if c == 0xD then [] else c ∷ []
strip_return (c ∷ d ∷ s) = c ∷ strip_return (d ∷ s)

abbrev first_line : ℕ → List Text → List Text
first_line c [] = (c ∷ []) ∷ []
first_line c (l ∷ lines) = (c ∷ l) ∷ lines

-- A `\n` ends a line, so that none begins after the last.
unfoldable pub split_lines : Text → List Text
split_lines [] = []
split_lines (c ∷ s) = let rest = split_lines s in if c == 0xA then [] ∷ rest else first_line c rest

abbrev kept_lines : List Text → List Text
kept_lines [] = []
kept_lines (l ∷ lines) =
    let rest = kept_lines lines in
    if is_empty (trim (strip_return l)) then rest else trim (strip_return l) ∷ rest

unfoldable pub parse_patterns : Text → List Text
unfolding split_lines trim
parse_patterns t = kept_lines (split_lines t)

-- The last character, and the text without it.
abbrev pub last_char : Text → Option ℕ
last_char [] = none
last_char (c ∷ []) = some c
last_char (c ∷ d ∷ s) = last_char (d ∷ s)

abbrev pub without_last : Text → Text
without_last [] = []
without_last (c ∷ []) = []
without_last (c ∷ d ∷ s) = c ∷ without_last (d ∷ s)

-- The multiplier of a unit, in lower case.
abbrev pub multiplier : ℕ → Option ℕ
multiplier c =
    if c == b't'
    then some (1024 * 1024 * 1024 * 1024)
    else if c == b'g'
    then some (1024 * 1024 * 1024)
    else if c == b'm'
    then some (1024 * 1024)
    else if c == b'k'
    then some 1024
    else if c == b'b'
    then some 1
    else none

-- `num.checked_mul(multiplier)` of `u64`
abbrev pub checked_mul : Option ℕ → ℕ → Option ℕ
checked_mul none factor = none
checked_mul (some n) factor = if ltb (n * factor) (2 ^ 64) then some (n * factor) else none

abbrev pub size_with : Text → Option ℕ → Option ℕ
size_with t none = checked_mul (parse_u64 (trim t)) 1
size_with t (some factor) = checked_mul (parse_u64 (trim (without_last t))) factor

abbrev pub unit_of : Option ℕ → Option ℕ
unit_of none = none
unit_of (some c) = multiplier (lower c)

abbrev pub size_of_trimmed : Text → Option ℕ
size_of_trimmed t = if is_empty t then none else size_with t (unit_of (last_char t))

unfoldable pub parse_size_filter : Text → Option ℕ
unfolding trim lower parse_below
parse_size_filter t = size_of_trimmed (trim t)

abbrev within_min : Option ℕ → ℕ → Bool
within_min none size = true
within_min (some bound) size = not (ltb size bound)

abbrev within_max : Option ℕ → ℕ → Bool
within_max none size = true
within_max (some bound) size = not (ltb bound size)

-- Whether any pattern matches; a panic of the matcher is `none`.
unfoldable pub matches_any : List Text → Text → Option Bool
unfolding wildcard_match
matches_any [] path = some false
matches_any (p ∷ patterns) path =
    let rest = matches_any patterns path in
    elim (wildcard_match p path) [ none ↦ none | some b ↦ if b then some true else rest ]

-- The seconds of a unit of age.
abbrev age_unit : ℕ → Option ℕ
age_unit c =
    if c == b's'
    then some 1
    else if c == b'm'
    then some 60
    else if c == b'h'
    then some 3600
    else if c == b'd'
    then some 86400
    else if c == b'w'
    then some (7 * 86400)
    else if c == b'M'
    then some (30 * 86400)
    else if c == b'y'
    then some (365 * 86400)
    else none

-- `i64` arithmetic wraps in a release build; a sum is kept as its 64 bits.
abbrev add_age : ℕ → Option ℕ → Option ℕ → Option ℕ
add_age total none _ = none
add_age total (some n) none = none
add_age total (some n) (some factor) = some ((total + n * factor) % 2 ^ 64)

-- The loop over the characters: the sum, the digits of a number so far, and whether a unit was read.
unfoldable pub age_loop : ℕ → Text → Bool → Text → Option ℕ
unfolding is_ascii_digit parse_below
age_loop total buffer found [] = if not found || not (is_empty buffer) then none else some total
age_loop total buffer found (c ∷ s) = elim (is_ascii_digit c) [
  | true ↦ age_loop total (buffer ++ c ∷ []) found s
  | false ↦ elim (add_age total (parse_below (2 ^ 63) buffer) (age_unit c)) [
    | none ↦ none
    | some total' ↦ age_loop total' [] true s
  ]
]

-- `and` of tests of which the first that fails or panics decides.
abbrev pub also : Option Bool → Option Bool → Option Bool
also none later = none
also (some false) later = some false
also (some true) later = later

abbrev negated : Option Bool → Option Bool
negated none = none
negated (some b) = some (not b)

abbrev included : List Text → Text → Option Bool
included [] path = some true
included (p ∷ patterns) path = matches_any (p ∷ patterns) path

-- No age, a moment, or a panic of `now - duration`.
pub data Age (Moment : Type 0) : Type 0 where
  absent panics : Age Moment
  at : Moment → Age Moment

module _ {Moment : Type 0} (parse_rfc3339 : Text → Option Moment) (now_minus : ℕ → Option Moment)
    (before : Moment → Moment → Bool) where
  abbrev counted_back : Option Moment → Age Moment
  counted_back none = panics
  counted_back (some m) = at m

  abbrev relative : Option ℕ → Age Moment
  relative none = absent
  relative (some seconds) = counted_back (now_minus seconds)

  abbrev age_of : Text → Option Moment → Age Moment
  age_of t (some m) = at m
  age_of t none = relative (age_loop 0 [] false t)

  unfoldable pub parse_age_filter : Text → Age Moment
  unfolding trim age_loop
  parse_age_filter t =
      if is_empty (trim t) then absent else age_of (trim t) (parse_rfc3339 (trim t))

  abbrev pub parse_object_modified : Option Text → Option Moment
  parse_object_modified none = none
  parse_object_modified (some t) = parse_rfc3339 t

  abbrev passes : (Moment → Moment → Bool) → Age Moment → Option Moment → Option Bool
  passes fails absent modified = some true
  passes fails panics modified = none
  passes fails (at cutoff) none = some false
  passes fails (at cutoff) (some m) = some (not (fails m cutoff))

  -- `none` is a panic, of the matcher or of the clock.
  unfoldable pub apply_sync_filters : SyncObject → SyncFilterSet → Option Bool
  unfolding parse_size_filter parse_patterns matches_any parse_age_filter
  apply_sync_filters object filters =
      also (some (within_min (parse_size_filter filters.min_size_text) object.size)) (
        also (some (within_max (parse_size_filter filters.max_size_text) object.size)) (
          also (included (parse_patterns filters.include_patterns_text) object.relative_path) (
            also
              (negated
                (matches_any (parse_patterns filters.exclude_patterns_text) object.relative_path))
              (also
                (passes before (parse_age_filter filters.newer_than_text)
                  (parse_object_modified object.modified))
                (passes (λ m cutoff. before cutoff m) (parse_age_filter filters.older_than_text)
                  (parse_object_modified object.modified))))))
