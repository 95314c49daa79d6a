-- ===== src/Transfer/Memory.antt =====
-- A storage in memory for the runs of the tests: servers with numbers and a file system, each place
-- with its text. Every call succeeds; a copy or a read of what is not there fails.
use mathlib.Core.Logic.{ite}
use abixio_ui.Common.{
  ℕ, Bool, true, false, Option, none, some, List, [], ◌∷◌, ◌≡◌, ◌≢◌, refl, sym, nat_eq,
}
use abixio_ui.Common.Text.{Text, text, text_eq}
use abixio_ui.Common.Result.{Result, ok, err}
use abixio_ui.Transfer.Storage.{Storage, IsLawful, Place, remote, file}

-- A place as a list of texts, by which places are told apart.
abbrev pub code : Place ℕ → List Text
code (remote c b k) = (c ∷ []) ∷ b ∷ k ∷ []
code (file p) = p ∷ []

code-injective : (p q : Place ℕ) → code p ≡ code q → p ≡ q
code-injective (remote c b k) (remote d b' k') e = cc
code-injective (remote c b k) (file q) e = cc
code-injective (file p) (remote c b k) e = cc
code-injective (file p) (file q) e = cc

pub nil_cons : {a : Text} {l : List Text} → [] ≢ (a ∷ l)
nil_cons e = cc

pub same_codes : {a b : Text} {l m : List Text} → a ≡ b → l ≡ m → (a ∷ l) ≡ (b ∷ m)
same_codes p q = cc

unfoldable pub codes_dec : Discrete (List Text)
codes_dec [] [] = yes refl
codes_dec [] (b ∷ m) = no nil_cons
codes_dec (a ∷ l) [] = no (λ e. nil_cons (sym e))
codes_dec (a ∷ l) (b ∷ m) = elim (text_eq.dec a b) [
  | yes p ↦ elim (codes_dec l m) [ yes q ↦ yes (same_codes p q) | no n ↦ no (λ e. n cc) ]
  | no n ↦ no (λ e. n cc)
]

abbrev pub World : Type 0
World = Place ℕ → Option Text

unfoldable pub put : Place ℕ → Option Text → World → World
unfolding codes_dec text_eq nat_eq
put p v w q = ite (codes_dec (code q) (code p)) v (w q)

put-elsewhere : (p q : Place ℕ) (v : Option Text) (w : World) → q ≢ p → put p v w q ≡ w q
unfolding put
put-elsewhere p q v w apart = by_decision (codes_dec (code q) (code p))
  where
    by_decision : (d : Dec (code q ≡ code p)) → ite d v (w q) ≡ w q
    by_decision (yes e) = absurd (apart (code-injective q p e))
    by_decision (no n) = refl

put-there : (p : Place ℕ) (v : Option Text) (w : World) → put p v w p ≡ v
unfolding put
put-there p v w = by_decision (codes_dec (code p) (code p))
  where
    by_decision : (d : Dec (code p ≡ code p)) → ite d v (w p) ≡ v
    by_decision (yes e) = refl
    by_decision (no n) = absurd (n refl)

abbrev pub found : Option Text → Result Text
found none = err (text "not found")
found (some t) = ok t

abbrev is_there : Option Text → Bool
is_there none = false
is_there (some _) = true

abbrev copied_to : Place ℕ → Option Text → World → Result (Unit {0}) × World
copied_to p none w = (err (text "not found"), w)
copied_to p (some t) w = (ok tt, put p (some t) w)

unfoldable pub memory : Storage ℕ World Text
unfolding put
memory = record {
  head_object = λ c b k w. is_there (w (remote c b k));
  copy_object = λ c b k b' k' w. copied_to (remote c b' k') (w (remote c b k)) w;
  delete_object = λ c b k w. (ok tt, put (remote c b k) none w);
  upload_file = λ c b k path content_type w. copied_to (remote c b k) (w (file path)) w;
  get_object = λ c b k w. found (w (remote c b k));
  path_exists = λ path w. is_there (w (file path));
  create_dir_all = λ path w. (ok tt, w);
  write = λ path t w. (ok tt, put (file path) (some t) w);
  parent = λ path. none;
  guess_content_type = λ path. [];
  content = λ w p. w p;
}

copied_to-elsewhere :
    (p q : Place ℕ) (o : Option Text) (w : World) → q ≢ p → (copied_to p o w).1 q ≡ w q
copied_to-elsewhere p q none w apart = refl
copied_to-elsewhere p q (some t) w apart = put-elsewhere p q (some t) w apart

copied_to-there :
    (p : Place ℕ) (o : Option Text) (w : World)
    → (copied_to p o w).0 ≡ ok tt
    → (copied_to p o w).1 p ≡ o
copied_to-there p none w h = cc
copied_to-there p (some t) w h = put-there p (some t) w

pub memory-IsLawful : IsLawful memory
unfolding memory
memory-IsLawful = record {
  copy_object-elsewhere =
      λ c b k b' k' w p h. copied_to-elsewhere (remote c b' k') p (w (remote c b k)) w h;
  copy_object-ok = λ c b k b' k' w h. copied_to-there (remote c b' k') (w (remote c b k)) w h;
  delete_object-elsewhere = λ c b k w p h. put-elsewhere (remote c b k) p none w h;
  delete_object-ok = λ c b k w h. put-there (remote c b k) none w;
  upload_file-elsewhere =
      λ c b k path content_type w p h. copied_to-elsewhere (remote c b k) p (w (file path)) w h;
  create_dir_all-elsewhere = λ path w p. refl;
  write-elsewhere = λ path t w p h. put-elsewhere (file path) p (some t) w h;
}
