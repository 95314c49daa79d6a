-- ===== src/Glob.antt =====
-- Glob patterns: `wildcard_match` of src/app/transfer_ops.rs. The text that remains is the list of its
-- characters; a slice by a byte offset that is no boundary between characters panics.
pub mod Segment
pub mod Reference
pub mod Whole
pub mod Ascii
mod Tests
use abixio_ui.Common.{
  ℕ, zero, suc, ◌+◌, ◌-◌, Bool, true, false, not, ◌&&◌, ◌||◌, Option, none, some, List, [], ◌∷◌,
  map, if◌then◌else◌, ltb, leb, ◌==◌, nat_eq, is_empty, any, all,
}
use abixio_ui.Common.Text.{Text}
use abixio_ui.Glob.Segment.{wildcard_match_segment, find_segment_match}

-- `to_ascii_lowercase` of a character
unfoldable pub lower : ℕ → ℕ
lower c = if leb b'A' c && leb c b'Z' then c + 32 else c

abbrev pub starts_with : Text → Text → Bool
starts_with [] t = true
starts_with (c ∷ p) [] = false
starts_with (c ∷ p) (x ∷ t) = c == x && starts_with p t

-- `text.contains(pattern)`
unfoldable pub contains_text : Text → Text → Bool
contains_text p [] = starts_with p []
contains_text p (x ∷ t) = starts_with p (x ∷ t) || contains_text p t

abbrev before_first : ℕ → List Text → List Text
before_first c [] = (c ∷ []) ∷ []
before_first c (s ∷ segments) = (c ∷ s) ∷ segments

-- `split("**")`
unfoldable pub split_double_star : Text → List Text
split_double_star [] = [] ∷ []
split_double_star (c ∷ []) = (c ∷ []) ∷ []
split_double_star (c ∷ d ∷ s) = elim (c == b'*' && d == b'*') [
  | true ↦ [] ∷ split_double_star s
  | false ↦ before_first c (split_double_star (d ∷ s))
]

-- `trim_start_matches('/')`, `trim_matches('/')`
unfoldable pub trim_start_slash : Text → Text
trim_start_slash [] = []
trim_start_slash (c ∷ s) = let rest = trim_start_slash s in if c == b'/' then rest else c ∷ s

unfoldable pub trim_end_slash : Text → Text
trim_end_slash [] = []
trim_end_slash (c ∷ s) =
    let rest = trim_end_slash s in if is_empty rest && c == b'/' then [] else c ∷ rest

unfoldable pub trim_slash : Text → Text
unfolding trim_start_slash trim_end_slash
trim_slash s = trim_end_slash (trim_start_slash s)

-- The bytes of a character in UTF-8.
unfoldable pub utf8_len : ℕ → ℕ
utf8_len c = if ltb c 0x80 then 1 else if ltb c 0x800 then 2 else if ltb c 0x10000 then 3 else 4

-- `&text[n..]`: `none` where the byte `n` is out of range, or inside a character.
unfoldable pub slice_from : ℕ → Text → Option Text
unfolding utf8_len
slice_from n [] = if n == 0 then some [] else none
slice_from n (c ∷ t) =
    let rest = slice_from (n - utf8_len c) t in
    if n == 0 then some (c ∷ t) else if ltb n (utf8_len c) then none else rest

-- What a segment leaves of the text: nothing but a panic, `return false`, or the rest.
pub data Progress : Type 0 where
  panic : Progress
  fails : Progress
  rest : Text → Progress

abbrev pub sliced : Option Text → Progress
sliced none = panic
sliced (some t) = rest (trim_start_slash t)

-- `remaining = &slice[len..]`, trimmed, where the segment is found at the start of the slice. The
-- length counts characters, and the slice takes it for bytes.
abbrev pub attempt : Option ℕ → Text → Progress → Progress
attempt none slice otherwise = otherwise
attempt (some len) slice otherwise = sliced (slice_from len slice)

-- The `loop` over the path boundaries of the text. `skipping` tells that the text is not at one.
unfoldable pub search_segment : Text → Bool → Text → Progress
unfolding find_segment_match slice_from trim_start_slash
search_segment seg true [] = fails
search_segment seg false [] = attempt (find_segment_match seg [] false) [] fails
search_segment seg skipping (x ∷ t) =
    let later = search_segment seg (not (x == b'/')) t in
    if skipping then later else attempt (find_segment_match seg (x ∷ t) false) (x ∷ t) later

unfoldable pub match_segment : Bool → Text → Text → Progress
unfolding search_segment find_segment_match slice_from trim_start_slash
match_segment first seg remaining =
    if is_empty seg
    then rest remaining
    else if first
    then attempt (find_segment_match seg remaining false) remaining fails
    else search_segment seg false remaining

abbrev pub after_segment : Progress → (Text → Progress) → Progress
after_segment panic next = panic
after_segment fails next = fails
after_segment (rest t) next = next t

-- `for (i, segment) in segments.iter().enumerate()`
unfoldable pub match_segments : Bool → List Text → Text → Progress
unfolding match_segment trim_slash
match_segments first [] remaining = rest remaining
match_segments first (segment ∷ segments) remaining =
    after_segment (match_segment first (trim_slash segment) remaining)
      (match_segments false segments)

abbrev last_is_empty : List Text → Bool
last_is_empty [] = true
last_is_empty (s ∷ []) = is_empty s
last_is_empty (s ∷ r ∷ segments) = last_is_empty (r ∷ segments)

-- What is left after the last segment must be empty, or slashes alone.
abbrev pub concluded : Bool → Progress → Option Bool
concluded open_ended panic = none
concluded open_ended fails = some false
concluded open_ended (rest remaining) = some (open_ended || all (λ c. c == b'/') remaining)

abbrev pub match_whole : List Text → Text → Text → Option Bool
match_whole (s ∷ []) p t = some (wildcard_match_segment p t true)
match_whole segments p t = concluded (last_is_empty segments) (match_segments true segments t)

-- `none` is a panic.
unfoldable pub wildcard_match : Text → Text → Option Bool
unfolding lower contains_text split_double_star match_segments wildcard_match_segment
wildcard_match pattern text =
    let p = map lower pattern in
    let t = map lower text in
    if not (any (λ c. c == b'*') p) && not (any (λ c. c == b'?') p)
    then some (contains_text p t)
    else match_whole (split_double_star p) p t
