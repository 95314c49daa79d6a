-- ===== src/Glob/Segment.antt =====
-- `wildcard_match_segment` and `find_segment_match` of src/app/transfer_ops.rs. The index `pi` is the
-- pattern that is left from it on, `ti` the text that is left, and `star_pi`, `star_ti` what follows
-- the last `*` with the text from which it is retried.
use abixio_ui.Common.{
  ℕ, zero, suc, ◌+◌, ◌*◌, Bool, true, false, not, ◌&&◌, ◌||◌, Option, none, some, [], ◌∷◌,
  if◌then◌else◌, ◌==◌, nat_eq, length, take,
}
use abixio_ui.Common.Text.{Text}

-- `allow_slash || txt[ti] != '/'`
abbrev pub wild : Bool → ℕ → Bool
wild allow_slash x = allow_slash || not (x == b'/')

-- The two tests that go on with the next characters of both.
abbrev pub fits : Bool → ℕ → ℕ → Bool
fits allow_slash c x =
    (c == b'?' && wild allow_slash x) || (not (c == b'*') && not (c == b'?') && c == x)

-- `while pi < plen && pat[pi] == '*' { pi += 1; }`, and whether the pattern is then at its end
unfoldable pub only_stars : Text → Bool
only_stars [] = true
only_stars (c ∷ p) = c == b'*' && only_stars p

abbrev pub Star : Type 0
Star = Option (Text × Text)

-- The last two branches of the loop.
unfoldable pub backtrack : Bool → Star → (Text → Text → Star → Option Bool) → Option Bool
unfolding only_stars
backtrack allow_slash none next = some false
backtrack allow_slash (some (p, [])) next = some (only_stars p)
backtrack allow_slash (some (p, x ∷ t)) next =
    if wild allow_slash x then next p t (some (p, t)) else some false

-- The loop. `none` means that the fuel ran out.
unfoldable pub segment_loop : Bool → ℕ → Text → Text → Star → Option Bool
unfolding only_stars backtrack
segment_loop allow_slash zero p t star = none
segment_loop allow_slash (suc fuel) p [] star = some (only_stars p)
segment_loop allow_slash (suc fuel) [] (x ∷ t) star =
    backtrack allow_slash star (segment_loop allow_slash fuel)
segment_loop allow_slash (suc fuel) (c ∷ p) (x ∷ t) star = elim (fits allow_slash c x) [
  | true ↦ segment_loop allow_slash fuel p t star
  | false ↦ elim (c == b'*') [
    | true ↦ segment_loop allow_slash fuel p (x ∷ t) (some (p, x ∷ t))
    | false ↦ backtrack allow_slash star (segment_loop allow_slash fuel)
  ]
]

abbrev pub answered : Option Bool → Bool
answered none = false
answered (some b) = b

abbrev pub enough : Text → Text → ℕ
enough p t = (length t + 1) * (length p + 1)

unfoldable pub wildcard_match_segment : Text → Text → Bool → Bool
unfolding segment_loop
wildcard_match_segment pattern text allow_slash =
    answered (segment_loop allow_slash (enough pattern text) pattern text none)

-- `for end in 0..=txt.len()`, from the prefix that is passed to the loop on. The last test in the
-- loop's body never holds, since `end` is at most the length of the text.
unfoldable pub segment_end : Text → Bool → Text → ℕ → ℕ → Option ℕ
unfolding wildcard_match_segment
segment_end pattern allow_slash text end zero =
    if wildcard_match_segment pattern (take end text) allow_slash then some end else none
segment_end pattern allow_slash text end (suc rest) =
    let later = segment_end pattern allow_slash text (end + 1) rest in
    if wildcard_match_segment pattern (take end text) allow_slash then some end else later

-- How many characters the shortest match at the start of the text takes.
unfoldable pub find_segment_match : Text → Text → Bool → Option ℕ
unfolding segment_end
find_segment_match pattern text allow_slash = segment_end pattern allow_slash text 0 (length text)
