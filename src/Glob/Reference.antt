-- ===== src/Glob/Reference.antt =====
-- What a glob segment means, and the loop of `wildcard_match_segment` (src/app/transfer_ops.rs)
-- against it.
use abixio_ui.Common.{
  ℕ, zero, suc, ◌+◌, ◌*◌, ◌≤◌, ◌<◌, Bool, true, false, ◌&&◌, ◌||◌, Option, none, some, [], ◌∷◌, ◌≡◌,
  refl, sym, ap, ◌∙◌, arith, ◌==◌, nat_eq, length, Bool-cases, inl, inr,
}
use abixio_ui.Common.Text.{Text}
use abixio_ui.Glob.Segment.{
  wild, fits, only_stars, Star, backtrack, segment_loop, answered, enough, wildcard_match_segment,
}

-- A `*` takes any characters, save a `/` where slashes are not allowed; a `?` takes one such
-- character; any other character takes itself.
pub globs : Bool → Text → Text → Bool
globs allow [] [] = true
globs allow [] (x ∷ t) = false
globs allow (c ∷ p) [] = c == b'*' && globs allow p []
globs allow (c ∷ p) (x ∷ t) = elim (c == b'*') [
  | true ↦ globs allow p (x ∷ t) || (wild allow x && globs allow (c ∷ p) t)
  | false ↦ fits allow c x && globs allow p t
]

only_stars-eq-globs : (allow : Bool) (p : Text) → globs allow p [] ≡ only_stars p
unfolding globs only_stars
only_stars-eq-globs allow [] = refl
only_stars-eq-globs allow (c ∷ p) = ap (λ b. c == b'*' && b) (only_stars-eq-globs allow p)

bool_ext : (a b : Bool) → (a ≡ true → b ≡ true) → (b ≡ true → a ≡ true) → a ≡ b
bool_ext true true f g = refl
bool_ext true false f g = sym (f refl)
bool_ext false true f g = g refl
bool_ext false false f g = refl

module _ (allow : Bool) where
  -- A star may take nothing.
  globs-star : (p t : Text) → globs allow p t ≡ true → globs allow (b'*' ∷ p) t ≡ true
  unfolding globs
  globs-star p [] h = ground arith
  globs-star p (x ∷ t) h = ground arith

  globs-star_star :
      (p t : Text) → globs allow (b'*' ∷ b'*' ∷ p) t ≡ true → globs allow (b'*' ∷ p) t ≡ true
  unfolding globs
  globs-star_star p [] h = ground arith
  globs-star_star p (x ∷ t) h = ground (arith, globs-star_star p t)

  -- A character that fits one that a star takes may be given up for the star.
  globs-given :
      (c x : ℕ) (p t : Text)
      → fits allow c x ≡ true
      → wild allow x ≡ true
      → globs allow (b'*' ∷ c ∷ p) t ≡ true
      → globs allow (b'*' ∷ p) t ≡ true
  unfolding globs
  globs-given c x p [] fit taken h = ground arith
  globs-given c x p (y ∷ t) fit taken h = ground (arith, globs-given c x p t, globs-star p t)

  globs-give_up :
      (c x : ℕ) (p t : Text)
      → fits allow c x ≡ true
      → globs allow (b'*' ∷ c ∷ p) (x ∷ t) ≡ true
      → globs allow (b'*' ∷ p) t ≡ true
  unfolding globs
  globs-give_up c x p t fit h = ground (arith, globs-given c x p t, globs-star p t)

  globs-fits :
      (c x : ℕ) (p t : Text) → fits allow c x ≡ true → globs allow (c ∷ p) (x ∷ t) ≡ globs allow p t
  unfolding globs
  globs-fits c x p t fit = ground arith

  globs-misfit :
      (c x : ℕ) (p t : Text)
      → fits allow c x ≡ false
      → c == b'*' ≡ false
      → globs allow (c ∷ p) (x ∷ t) ≡ false
  unfolding globs
  globs-misfit c x p t misfit plain = ground arith

  globs-at_star :
      (c : ℕ) (p t : Text) → c == b'*' ≡ true → globs allow (c ∷ p) t ≡ globs allow (b'*' ∷ p) t
  globs-at_star c p t h = ap (λ c. globs allow (c ∷ p) t) (ground arith)

  -- The character that a star takes first, if its rest does not match yet.
  globs-take :
      (y : ℕ) (p t : Text)
      → globs allow p (y ∷ t) ≡ false
      → globs allow (b'*' ∷ p) (y ∷ t) ≡ (wild allow y && globs allow (b'*' ∷ p) t)
  unfolding globs
  globs-take y p t h = ground arith

-- `answer` is what the whole pattern gives for the whole text.
module _ (allow answer : Bool) (k : ℕ) where
  -- What the last star stands for: the answer is that of the star with its rest, and giving the star
  -- nothing more leads to where the loop is. `m` bounds the text that is left to retry.
  abbrev Saved : ℕ → Text → Text → Star → Type 0
  Saved m p t none = answer ≡ globs allow p t
  Saved m p t (some (sp, st)) =
      (answer ≡ globs allow (b'*' ∷ sp) st)
      × (globs allow sp st ≡ true → globs allow p t ≡ true)
      × (length t ≤ length st)
      × (length st ≤ m)
      × (length sp < k)

  record Inv (fuel m : ℕ) (p t : Text) (star : Star) : Type 0 where
    now : globs allow p t ≡ true → answer ≡ true
    later : answer ≡ true → globs allow (b'*' ∷ p) t ≡ true
    saved : Saved m p t star
    text_bound : length t ≤ m
    pattern_bound : length p < k
    paid : m * k + length p < fuel

  Inv-star :
      {fuel m : ℕ} {p t : Text}
      → answer ≡ globs allow (b'*' ∷ p) t
      → length t ≤ m
      → length p < k
      → m * k + length p < fuel
      → Inv fuel m p t (some (p, t))
  Inv-star {p = p} {t = t} same text_bound pattern_bound paid = record {
    now = λ h. same ∙ globs-star allow p t h;
    later = λ h. sym same ∙ h;
    saved = (same, λ h. h, omega arith, text_bound, pattern_bound);
    text_bound = text_bound;
    pattern_bound = pattern_bound;
    paid = paid;
  }

  Saved-fits :
      (m c x : ℕ) (p t : Text) (star : Star)
      → fits allow c x ≡ true
      → Saved m (c ∷ p) (x ∷ t) star
      → Saved m p t star
  Saved-fits m c x p t none fit h = h ∙ globs-fits allow c x p t fit
  Saved-fits m c x p t (some (sp, st)) fit (same, down, shorter, within, small) =
      (same, λ h. sym (globs-fits allow c x p t fit) ∙ down h, omega arith, within, small)

  Inv-fits :
      {fuel m c x : ℕ} {p t : Text} {star : Star}
      → fits allow c x ≡ true
      → Inv (suc fuel) m (c ∷ p) (x ∷ t) star
      → Inv fuel m p t star
  Inv-fits {m = m} {c = c} {x = x} {p = p} {t = t} {star = star} fit i = record {
    now = λ h. i.now (globs-fits allow c x p t fit ∙ h);
    later = λ h. globs-give_up allow c x p t fit (i.later h);
    saved = Saved-fits m c x p t star fit i.saved;
    text_bound = omega arith;
    pattern_bound = omega arith;
    paid = omega arith;
  }

  -- Where neither the next characters nor a new star go on, the last star takes one more character.
  backtrack-answer :
      {fuel x : ℕ} {p t : Text} (m : ℕ) (star : Star) (next : Text → Text → Star → Option Bool)
      → ((m' : ℕ) (p' t' : Text) (star' : Star)
          → Inv fuel m' p' t' star'
          → next p' t' star' ≡ some answer)
      → Inv (suc fuel) m p (x ∷ t) star
      → globs allow p (x ∷ t) ≡ false
      → backtrack allow star next ≡ some answer
  unfolding backtrack
  backtrack-answer m none next ih i misfit = ap some (sym (i.saved ∙ misfit))
  backtrack-answer m (some (sp, [])) next ih i misfit = absurd (omega arith)
  backtrack-answer zero (some (sp, y ∷ st)) next ih i misfit = absurd (omega arith)
  backtrack-answer (suc m) (some (sp, y ∷ st)) next ih i misfit =
      let (same, down, shorter, within, small) = i.saved in
      let misses : globs allow sp (y ∷ st) ≡ false = ground arith in
      let taken = same ∙ globs-take allow y sp st misses in
      elim (Bool-cases (wild allow y)) [
        | inl free ↦ rw free (
            ih m sp st (some (sp, st))
              (Inv-star (rw free at taken) (omega arith) small (grind arith)))
        | inr stuck ↦ rw (stuck, rw stuck at taken) refl
      ]

  restart :
      {fuel m : ℕ} {star : Star} (c x : ℕ) (p t : Text)
      → c == b'*' ≡ true
      → Inv fuel m (c ∷ p) (x ∷ t) star
      → answer ≡ globs allow (b'*' ∷ p) (x ∷ t)
  restart c x p t at_star i =
      let same = globs-at_star allow c p (x ∷ t) at_star in
      let is_star : c ≡ b'*' = ground arith in
      bool_ext answer (globs allow (b'*' ∷ p) (x ∷ t))
        (λ h. globs-star_star allow p (x ∷ t) (rw is_star at (i.later h))) (λ h. i.now (same ∙ h))

  segment_loop-answer :
      (fuel m : ℕ) (p t : Text) (star : Star)
      → Inv fuel m p t star
      → segment_loop allow fuel p t star ≡ some answer
  unfolding segment_loop nat_eq
  segment_loop-answer zero m p t star i = absurd (omega arith)
  segment_loop-answer (suc fuel) m p [] star i = ap some (
      sym (
        bool_ext answer (only_stars p)
          (λ h. sym (only_stars-eq-globs allow p) ∙ unfold globs in i.later h)
          (λ h. i.now (only_stars-eq-globs allow p ∙ h))))
  segment_loop-answer (suc fuel) m [] (x ∷ t) star i =
      backtrack-answer m star (segment_loop allow fuel) (segment_loop-answer fuel) i
        (unfold globs in refl)
  segment_loop-answer (suc fuel) m (c ∷ p) (x ∷ t) star i = elim (Bool-cases (fits allow c x)) [
    | inl fit ↦ rw (segment_loop, fit) (segment_loop-answer fuel m p t star (Inv-fits fit i))
    | inr misfit ↦ elim (Bool-cases (c == b'*')) [
      | inl at_star ↦
          rw (segment_loop, misfit, at_star)
            (segment_loop-answer fuel m p (x ∷ t) (some (p, x ∷ t))
              (Inv-star (restart c x p t at_star i) i.text_bound (omega arith) (omega arith)))
      | inr plain ↦
          rw (segment_loop, misfit, plain)
            (backtrack-answer m star (segment_loop allow fuel) (segment_loop-answer fuel) i
              (globs-misfit allow c x p t misfit plain))
    ]
  ]

-- The loop of `wildcard_match_segment` ends within the fuel that it is given, and what it and
-- `wildcard_match_segment` answer is what the pattern means, whatever had to be retried.
pub segment_loop-eq-globs :
    (pattern text : Text) (allow_slash : Bool)
    → (segment_loop allow_slash (enough pattern text) pattern text none
        ≡ some (globs allow_slash pattern text))
      × (wildcard_match_segment pattern text allow_slash ≡ globs allow_slash pattern text)
unfolding wildcard_match_segment
segment_loop-eq-globs p t allow =
    let ends : segment_loop allow (enough p t) p t none ≡ some (globs allow p t) =
      segment_loop-answer allow (globs allow p t) (length p + 1) (enough p t) (length t) p t none
        (record {
          now = λ h. h;
          later = globs-star allow p t;
          saved = refl;
          text_bound = omega arith;
          pattern_bound = omega arith;
          paid = grind arith;
        }) in
    (ends, ap answered ends)

pub wildcard_match_segment-eq-globs :
    (pattern text : Text) (allow_slash : Bool)
    → wildcard_match_segment pattern text allow_slash ≡ globs allow_slash pattern text
wildcard_match_segment-eq-globs p t allow = (segment_loop-eq-globs p t allow).1
