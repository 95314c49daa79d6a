-- ===== src/Glob/Whole.antt =====
-- `find_segment_match` and `wildcard_match` of src/app/transfer_ops.rs: the prefixes that a segment
-- takes, and patterns without `**`.
use abixio_ui.Common.{
  ℕ, zero, suc, ◌+◌, ◌≤◌, ◌<◌, Bool, true, false, not, ◌&&◌, ◌||◌, Option, none, some, [], ◌∷◌, map,
  ◌≡◌, refl, sym, ap, ◌∙◌, arith, ◌==◌, nat_eq, length, Bool-cases, inl, inr, any, take, take_all,
  ltb, leb,
}
use abixio_ui.Common.Text.{Text}
use abixio_ui.Glob.Segment.{find_segment_match, segment_end}
use abixio_ui.Glob.Reference.{globs, wildcard_match_segment-eq-globs}
use abixio_ui.Glob.{lower, before_first, split_double_star, wildcard_match}

-- The characters that a segment takes: the shortest prefix of the text that it matches, or none
-- where it matches no prefix.
abbrev pub Shortest : Bool → Text → Text → Option ℕ → Type 0
Shortest allow pattern text none = (n : ℕ) → globs allow pattern (take n text) ≡ false
Shortest allow pattern text (some len) =
    (len ≤ length text)
    × (globs allow pattern (take len text) ≡ true)
    × ((n : ℕ) → n < len → globs allow pattern (take n text) ≡ false)

module _ (allow : Bool) (pattern text : Text) where
  step-before :
      (end n : ℕ)
      → ((n : ℕ) → n < end → globs allow pattern (take n text) ≡ false)
      → globs allow pattern (take end text) ≡ false
      → n < end + 1
      → globs allow pattern (take n text) ≡ false
  step-before end n before here h = elim (Bool-cases (ltb n end)) [
    | inl e ↦ before n (ground arith)
    | inr e ↦ (let same : n ≡ end = ground arith in rw (same, here) refl)
  ]

  segment_end-Shortest :
      (end left : ℕ)
      → end + left ≡ length text
      → ((n : ℕ) → n < end → globs allow pattern (take n text) ≡ false)
      → Shortest allow pattern text (segment_end pattern allow text end left)
  unfolding segment_end
  segment_end-Shortest end zero total before =
      elim (Bool-cases (globs allow pattern (take end text))) [
        | inl e ↦ rw (wildcard_match_segment-eq-globs, e) (omega arith, e, before)
        | inr e ↦
            rw (wildcard_match_segment-eq-globs, e)
              (λ n. elim (Bool-cases (leb n end)) [
                | inl within ↦ step-before end n before e (ground arith)
                | inr beyond ↦
                    rw (take_all n text (ground arith), sym (take_all end text (omega arith))) e
              ])
      ]
  segment_end-Shortest end (suc left) total before =
      elim (Bool-cases (globs allow pattern (take end text))) [
        | inl e ↦ rw (wildcard_match_segment-eq-globs, e) (omega arith, e, before)
        | inr e ↦
            rw (wildcard_match_segment-eq-globs, e)
              (segment_end-Shortest (end + 1) left (omega arith)
                (λ n h. step-before end n before e h))
      ]

-- `find_segment_match` gives how long the shortest prefix of the text is that its pattern matches,
-- and nothing exactly where the pattern matches no prefix.
pub find_segment_match-Shortest :
    (pattern text : Text) (allow_slash : Bool)
    → Shortest allow_slash pattern text (find_segment_match pattern text allow_slash)
unfolding find_segment_match
find_segment_match-Shortest pattern text allow =
    segment_end-Shortest allow pattern text 0 (length text) (omega arith)
      (λ n h. absurd (omega arith))

-- Two stars side by side.
unfoldable pub has_double_star : Text → Bool
has_double_star [] = false
has_double_star (c ∷ []) = false
has_double_star (c ∷ d ∷ s) = (c == b'*' && d == b'*') || has_double_star (d ∷ s)

unfoldable pub has_wildcard : Text → Bool
has_wildcard p = any (λ c. c == b'*' || c == b'?') p

lower-star : (c : ℕ) → (lower c == b'*') ≡ (c == b'*')
unfolding lower nat_eq
lower-star c = ground arith

lower-question : (c : ℕ) → (lower c == b'?') ≡ (c == b'?')
unfolding lower nat_eq
lower-question c = ground arith

split_double_star-plain :
    (c d : ℕ) (s : Text)
    → (c == b'*' && d == b'*') ≡ false
    → split_double_star (c ∷ d ∷ s) ≡ before_first c (split_double_star (d ∷ s))
unfolding split_double_star
split_double_star-plain c d s h = rw (split_double_star, h) refl

split_double_star-single :
    (p : Text) → has_double_star p ≡ false → split_double_star (map lower p) ≡ map lower p ∷ []
unfolding has_double_star split_double_star
split_double_star-single [] h = refl
split_double_star-single (c ∷ []) h = refl
split_double_star-single (c ∷ d ∷ s) h =
    split_double_star-plain (lower c) (lower d) (map lower s)
      (rw (lower-star c, lower-star d) (ground arith))
    ∙ ap (before_first (lower c)) (split_double_star-single (d ∷ s) (ground arith))

any-lower :
    (p : Text)
    → has_wildcard p ≡ true
    → not (any (λ c. c == b'*') (map lower p)) && not (any (λ c. c == b'?') (map lower p)) ≡ false
unfolding has_wildcard
any-lower [] h = ground arith
any-lower (c ∷ p) h = ground (arith, lower-star c, lower-question c, any-lower p)

-- A pattern with a wildcard and without `**` matches the texts that it globs, upper and lower case
-- alike, where `*` and `?` take a `/` too: the comment above `wildcard_match` says that they do not.
pub wildcard_match-eq-globs :
    (pattern text : Text)
    → has_wildcard pattern ≡ true
    → has_double_star pattern ≡ false
    → wildcard_match pattern text ≡ some (globs true (map lower pattern) (map lower text))
unfolding wildcard_match
wildcard_match-eq-globs p t wild single =
    rw (any-lower p wild, split_double_star-single p single, wildcard_match_segment-eq-globs) refl
