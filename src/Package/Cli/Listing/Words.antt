-- ===== src/Package/Cli/Listing/Words.antt =====
-- `split` and `splitlines` of Python on words and lines.
use qubes_core_admin_linux.Package.Cli.Listing.{words}
use qubes_core_admin_linux.Plugins.{line_break, put_first, splitlines}
use qubes_core_admin_linux.Plugins.Debian.{is_space}
use qubes_core_admin_linux.Prelude.{
  nat_eq, any, Text, ℕ, ◌≡◌, refl, ap, ◌∙◌, Bool, true, false, ◌||◌, [], ◌∷◌, ◌++◌, arith,
}

-- A word as `split` gives it
abbrev pub IsWord : Text → Type 0
IsWord [] = ⊥
IsWord (c ∷ []) = is_space c ≡ false
IsWord (c ∷ (d ∷ cs)) = (is_space c ≡ false) × IsWord (d ∷ cs)

words-cons :
    (c d : ℕ) (t : Text)
    → is_space c ≡ false
    → is_space d ≡ false
    → words (c ∷ (d ∷ t)) ≡ put_first c (words (d ∷ t))
unfolding words
words-cons c d t e f = rw (e, f) refl

head_no_space : (c : ℕ) (w : Text) → IsWord (c ∷ w) → is_space c ≡ false
head_no_space c [] k = k
head_no_space c (d ∷ w) k = k.0

-- A word in front of a space, and one at the end
pub words-word_space : (w t : Text) → IsWord w → words (w ++ 32 ∷ t) ≡ w ∷ words t
unfolding words put_first
words-word_space [] t k = elim k [ ]
words-word_space (c ∷ []) t k = rw k refl
words-word_space (c ∷ (d ∷ w)) t k =
    words-cons c d (w ++ 32 ∷ t) k.0 (head_no_space d w k.1)
    ∙ ap (put_first c) (words-word_space (d ∷ w) t k.1)

pub words-word : (w : Text) → IsWord w → words w ≡ w ∷ []
unfolding words put_first
words-word [] k = elim k [ ]
words-word (c ∷ []) k = rw k refl
words-word (c ∷ (d ∷ w)) k =
    words-cons c d w k.0 (head_no_space d w k.1) ∙ ap (put_first c) (words-word (d ∷ w) k.1)

no_break : (c : ℕ) → is_space c ≡ false → line_break c ≡ false
no_break c e = ground arith

pub no_break-word : (w : Text) → IsWord w → any line_break w ≡ false
no_break-word [] k = elim k [ ]
no_break-word (c ∷ []) k = rw (no_break c k) refl
no_break-word (c ∷ (d ∷ w)) k = rw (no_break c k.0) (no_break-word (d ∷ w) k.1)

no_return : (c : ℕ) → line_break c ≡ false → nat_eq c 13 ≡ false
no_return c e = ground arith

||-false_left : (a b : Bool) → (a || b) ≡ false → a ≡ false
||-false_left true b e = cc
||-false_left false b e = refl

||-false_right : (a b : Bool) → (a || b) ≡ false → b ≡ false
||-false_right true b e = cc
||-false_right false b e = e

pub splitlines-line :
    (line rest : Text)
    → any line_break line ≡ false
    → splitlines (line ++ 10 ∷ rest) ≡ line ∷ splitlines rest
unfolding splitlines put_first
splitlines-line [] rest h = refl
splitlines-line (c ∷ line) rest h =
    let first = ||-false_left (line_break c) (any line_break line) h in
    rw (no_return c first, first)
      (ap (put_first c)
        (splitlines-line line rest (||-false_right (line_break c) (any line_break line) h)))
