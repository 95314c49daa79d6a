-- ===== src/Glob/Ascii.antt =====
-- `wildcard_match` of src/app/transfer_ops.rs on texts of ASCII characters.
use abixio_ui.Common.{
  ℕ, zero, suc, ◌-◌, ◌≤◌, Bool, true, false, not, ◌&&◌, none, some, List, [], ◌∷◌, map, ◌≡◌, ◌≢◌,
  refl, arith, ◌==◌, nat_eq, length, Bool-cases, Option-cases, inl, inr, any, all, drop, ltb,
}
use abixio_ui.Common.Text.{Text}
use abixio_ui.Glob.Segment.{find_segment_match}
use abixio_ui.Glob.{
  lower, split_double_star, wildcard_match, slice_from, utf8_len, search_segment, match_segment,
  match_segments, match_whole, trim_start_slash, trim_slash, Progress, panic, fails, rest, attempt,
  after_segment, concluded, last_is_empty,
}
use abixio_ui.Glob.Whole.{find_segment_match-Shortest}

abbrev pub is_ascii : Text → Bool
is_ascii t = all (λ c. ltb c 128) t

is_ascii-drop : (n : ℕ) (t : Text) → is_ascii t ≡ true → is_ascii (drop n t) ≡ true
is_ascii-drop zero t h = h
is_ascii-drop (suc n) [] h = h
is_ascii-drop (suc n) (c ∷ t) h = is_ascii-drop n t (ground arith)

is_ascii-lower : (t : Text) → is_ascii t ≡ true → is_ascii (map lower t) ≡ true
unfolding lower
is_ascii-lower [] h = h
is_ascii-lower (c ∷ t) h = ground (arith, is_ascii-lower t)

slice_from-ascii :
    (n : ℕ) (t : Text) → is_ascii t ≡ true → n ≤ length t → slice_from n t ≡ some (drop n t)
unfolding slice_from utf8_len nat_eq
slice_from-ascii zero [] h b = refl
slice_from-ascii (suc n) [] h b = absurd (omega arith)
slice_from-ascii zero (c ∷ t) h b = refl
slice_from-ascii (suc n) (c ∷ t) h b =
    let one : utf8_len c ≡ 1 = ground arith in
    let nonzero : (suc n == 0) ≡ false = ground arith in
    let whole : ltb (suc n) 1 ≡ false = ground arith in
    let back : suc n - 1 ≡ n = omega arith in
    rw (one, nonzero, whole, back) (slice_from-ascii n t (ground arith) (omega arith))

-- Not a panic, and an ASCII rest.
abbrev is_safe : Progress → Bool
is_safe panic = false
is_safe fails = true
is_safe (rest t) = is_ascii t

trim_start_slash-ascii : (t : Text) → is_ascii t ≡ true → is_ascii (trim_start_slash t) ≡ true
unfolding trim_start_slash
trim_start_slash-ascii [] h = h
trim_start_slash-ascii (c ∷ t) h = ground (arith, trim_start_slash-ascii t)

attempt-safe :
    (pattern t : Text) (otherwise : Progress)
    → is_ascii t ≡ true
    → is_safe otherwise ≡ true
    → is_safe (attempt (find_segment_match pattern t false) t otherwise) ≡ true
attempt-safe pattern t otherwise h g = elim (Option-cases (find_segment_match pattern t false)) [
  | inl e ↦ rw e g
  | inr (len, e) ↦
      (let short = find_segment_match-Shortest pattern t false in
        rw (e, slice_from-ascii len t h (rw e at short).0)
          (trim_start_slash-ascii (drop len t) (is_ascii-drop len t h)))
]

search_segment-safe :
    (pattern t : Text) (skipping : Bool)
    → is_ascii t ≡ true
    → is_safe (search_segment pattern skipping t) ≡ true
unfolding search_segment
search_segment-safe pattern [] true h = refl
search_segment-safe pattern [] false h = attempt-safe pattern [] fails h refl
search_segment-safe pattern (x ∷ t) true h =
    search_segment-safe pattern t (not (x == b'/')) (ground arith)
search_segment-safe pattern (x ∷ t) false h =
    attempt-safe pattern (x ∷ t) _ h
      (search_segment-safe pattern t (not (x == b'/')) (ground arith))

match_segment-safe :
    (first : Bool) (pattern t : Text)
    → is_ascii t ≡ true
    → is_safe (match_segment first pattern t) ≡ true
unfolding match_segment
match_segment-safe first [] t h = h
match_segment-safe true (c ∷ p) t h = attempt-safe (c ∷ p) t fails h refl
match_segment-safe false (c ∷ p) t h = search_segment-safe (c ∷ p) t false h

match_segments-safe :
    (first : Bool) (segments : List Text) (t : Text)
    → is_ascii t ≡ true
    → is_safe (match_segments first segments t) ≡ true
unfolding match_segments
match_segments-safe first [] t h = h
match_segments-safe first (s ∷ segments) t h =
    after_segment-safe (match_segment first (trim_slash s) t) (match_segments false segments)
      (match_segment-safe first (trim_slash s) t h) (match_segments-safe false segments)
  where
    after_segment-safe :
        (before : Progress) (next : Text → Progress)
        → is_safe before ≡ true
        → ((t : Text) → is_ascii t ≡ true → is_safe (next t) ≡ true)
        → is_safe (after_segment before next) ≡ true
    after_segment-safe panic next h g = h
    after_segment-safe fails next h g = refl
    after_segment-safe (rest t) next h g = g t h

concluded-total :
    (open_ended : Bool) (last : Progress) → is_safe last ≡ true → concluded open_ended last ≢ none
concluded-total open_ended panic h = cc
concluded-total open_ended fails h = λ e. cc
concluded-total open_ended (rest t) h = λ e. cc

match_whole-total :
    (segments : List Text) (p t : Text) → is_ascii t ≡ true → match_whole segments p t ≢ none
match_whole-total [] p t h =
    concluded-total true (match_segments true [] t) (match_segments-safe true [] t h)
match_whole-total (s ∷ []) p t h = λ e. cc
match_whole-total (s ∷ r ∷ l) p t h =
    concluded-total (last_is_empty (s ∷ r ∷ l)) (match_segments true (s ∷ r ∷ l) t)
      (match_segments-safe true (s ∷ r ∷ l) t h)

-- On a text of ASCII characters no pattern panics: every byte at which the text is cut is within it
-- and at a boundary between characters.
pub wildcard_match-total :
    (pattern text : Text) → is_ascii text ≡ true → wildcard_match pattern text ≢ none
unfolding wildcard_match
wildcard_match-total pattern t h =
    elim (Bool-cases (
      not (any (λ c. c == b'*') (map lower pattern))
      && not (any (λ c. c == b'?') (map lower pattern)))) [
        | inl e ↦ rw e (λ e. cc)
        | inr e ↦ rw e (
            match_whole-total (split_double_star (map lower pattern)) (map lower pattern)
              (map lower t) (is_ascii-lower t h))
      ]
