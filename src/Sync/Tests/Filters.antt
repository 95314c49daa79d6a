-- ===== src/Sync/Tests/Filters.antt =====
-- The filters of a sync on small texts (src/app/sync_ops.rs and its tests).
use abixio_ui.Common.{
  ℕ, ◌*◌, ◌-◌, true, false, Option, none, some, [], ◌∷◌, ◌++◌, ◌≡◌, refl, nat_eq, arith, ltb,
}
use abixio_ui.Common.Text.{Text, text}
use abixio_ui.Common.Number.{display}
use abixio_ui.Glob.{lower}
use abixio_ui.Sync.Types.{SyncObject}
use abixio_ui.Sync.State.{SyncFilterSet}
use abixio_ui.Sync.Filters.{
  multiplier, checked_mul, parse_size_filter, parse_patterns, parse_age_filter, apply_sync_filters,
  at,
}
use abixio_ui.Sync.Filters.Sizes.{parse_size_filter-display}

patterns_test : parse_patterns (text " *.txt \n\n docs/** ") ≡ text "*.txt" ∷ text "docs/**" ∷ []
unfolding parse_patterns text nat_eq
patterns_test = refl

size_test : parse_size_filter (text " 10M ") ≡ some (10 * 1024 * 1024)
unfolding parse_size_filter text nat_eq
size_test = refl

size_words_test : parse_size_filter (text "10 MB") ≡ none
unfolding parse_size_filter text nat_eq
size_words_test = refl

kilo : multiplier (lower b'K') ≡ some 1024
unfolding lower nat_eq
kilo = refl

parse_size_filter-display_example :
    parse_size_filter (display 12 ++ b'K' ∷ []) ≡ checked_mul (some 12) 1024
parse_size_filter-display_example = parse_size_filter-display 12 b'K' 1024 (omega arith) kilo

-- A clock that stands at second 1000000, in seconds; no text is a moment.
abbrev no_moment : Text → Option ℕ
no_moment t = none

abbrev ago : ℕ → Option ℕ
ago seconds = some (1000000 - seconds)

age_test : parse_age_filter no_moment ago ltb (text "2d12h") ≡ at (1000000 - 216000)
unfolding parse_age_filter text nat_eq
age_test = refl

abbrev photo : SyncObject
photo = record {
  relative_path = b'a' ∷ b'.' ∷ b'j' ∷ [];
  size = 2000;
  modified = none;
  etag = none;
  is_dir_marker = false;
}

abbrev filters : SyncFilterSet
filters = record {
  include_patterns_text = text "*.j";
  exclude_patterns_text = [];
  newer_than_text = [];
  older_than_text = [];
  min_size_text = text "1k";
  max_size_text = [];
}

kept_test : apply_sync_filters no_moment ago ltb photo filters ≡ some true
unfolding apply_sync_filters text nat_eq
kept_test = refl

small_test :
    apply_sync_filters no_moment ago ltb photo (record filters { min_size_text = text "2k" })
    ≡ some false
unfolding apply_sync_filters text nat_eq
small_test = refl
