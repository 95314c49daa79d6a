-- ===== src/Glob/Tests.antt =====
-- Runs of `wildcard_match` (src/app/transfer_ops.rs), its own tests among them.
use abixio_ui.Common.{true, false, none, some, [], ◌∷◌, ◌≡◌, ◌≢◌, refl, map, nat_eq}
use abixio_ui.Common.Text.{text}
use abixio_ui.Glob.Segment.{wildcard_match_segment, find_segment_match, segment_loop, enough}
use abixio_ui.Glob.Reference.{globs, segment_loop-eq-globs}
use abixio_ui.Glob.{wildcard_match, lower}
use abixio_ui.Glob.Ascii.{wildcard_match-total}
use abixio_ui.Glob.Whole.{
  Shortest, find_segment_match-Shortest, wildcard_match-eq-globs, has_wildcard, has_double_star,
}

substring_test : wildcard_match (text "HELLO") (text "say hello world") ≡ some true
unfolding wildcard_match text nat_eq
substring_test = refl

star_test : wildcard_match (text "*.txt") (text "docs/readme.txt") ≡ some true
unfolding wildcard_match text nat_eq
star_test = refl

question_test : wildcard_match (text "?.txt") (text "ab.txt") ≡ some false
unfolding wildcard_match text nat_eq
question_test = refl

middle_test : wildcard_match (text "a/**/z.txt") (text "a/b/c/z.txt") ≡ some true
unfolding wildcard_match text nat_eq
middle_test = refl

combined_test : wildcard_match (text "a/**/*.txt") (text "a/b/c/file.txt") ≡ some true
unfolding wildcard_match text nat_eq
combined_test = refl

extension_test : wildcard_match (text "**/*.txt") (text "a/b/file.md") ≡ some false
unfolding wildcard_match text nat_eq
extension_test = refl

-- The segment takes the first `.log` alone, and nothing tries a longer prefix.
shortest_test : wildcard_match (text "**/*.log") (text "app.log.log") ≡ some false
unfolding wildcard_match text nat_eq
shortest_test = refl

-- One character of two bytes is cut after its first byte.
two_bytes_test : wildcard_match (0xE9 ∷ b'/' ∷ b'*' ∷ b'*' ∷ []) (0xE9 ∷ b'/' ∷ b'x' ∷ []) ≡ none
unfolding wildcard_match nat_eq
two_bytes_test = refl

-- A star that has to be retried.
segment_loop-eq-globs_example :
    (segment_loop false (enough (text "*ab") (text "aab")) (text "*ab") (text "aab") none
      ≡ some (globs false (text "*ab") (text "aab")))
    × (wildcard_match_segment (text "*ab") (text "aab") false
        ≡ globs false (text "*ab") (text "aab"))
segment_loop-eq-globs_example = segment_loop-eq-globs (text "*ab") (text "aab") false

find_segment_match-Shortest_example :
    Shortest false (text "a*") (text "ab/c") (find_segment_match (text "a*") (text "ab/c") false)
find_segment_match-Shortest_example = find_segment_match-Shortest (text "a*") (text "ab/c") false

has_wildcard_test : has_wildcard (text "*.TXT") ≡ true
unfolding has_wildcard text nat_eq
has_wildcard_test = refl

has_double_star_test : has_double_star (text "*.TXT") ≡ false
unfolding has_double_star text nat_eq
has_double_star_test = refl

wildcard_match-eq-globs_example :
    wildcard_match (text "*.TXT") (text "a/b.txt")
    ≡ some (globs true (map lower (text "*.TXT")) (map lower (text "a/b.txt")))
wildcard_match-eq-globs_example =
    wildcard_match-eq-globs (text "*.TXT") (text "a/b.txt") has_wildcard_test has_double_star_test

wildcard_match-total_example : wildcard_match (text "a/**") (b'a' ∷ b'/' ∷ b'b' ∷ []) ≢ none
wildcard_match-total_example = wildcard_match-total (text "a/**") (b'a' ∷ b'/' ∷ b'b' ∷ []) refl
