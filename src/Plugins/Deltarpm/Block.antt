-- ===== src/Plugins/Deltarpm/Block.antt =====
-- What the plugin does to the block of Qubes in dnf.conf.
use qubes_core_admin_linux.Plugins.Deltarpm.{
  chosen, deltarpm_off, is_deltarpm, add_one, insert_line, position, set_line, slice, switch_off,
}
use qubes_core_admin_linux.Prelude.{
  any, length, Text, ℕ, suc, ◌+◌, ◌≡◌, refl, ap, ◌∙◌, Bool, true, false, Option, none, some, List,
  [], ◌∷◌, ◌++◌, if◌then◌else◌, arith,
}

-- The block without deltarpm: its first line about it is replaced, or one is added at the end.
abbrev pub block_off : List Text → List Text
block_off [] = deltarpm_off ∷ []
block_off (line ∷ rest) =
    let later = block_off rest in if is_deltarpm line then deltarpm_off ∷ rest else line ∷ later

position-if :
    (b : Bool) (q : Option ℕ) (n : ℕ)
    → (b ≡ false → q ≡ some n)
    → b ≡ false
    → (if b then some 0 else add_one q) ≡ some (suc n)
position-if true q n k e = cc
position-if false q n k e = ap add_one (k e)

pub position-append :
    (p : Text → Bool) (xs : List Text) (y : Text) (ys : List Text)
    → any p xs ≡ false
    → p y ≡ true
    → position p (xs ++ y ∷ ys) ≡ some (length xs)
unfolding position
position-append p [] y ys h e = ap (λ b. if b then some 0 else add_one (position p ys)) e
position-append p (x ∷ xs) y ys h e =
    position-if (p x) (position p (xs ++ y ∷ ys)) (length xs)
      (λ f. position-append p xs y ys (ground arith) e) (ground arith)

n_zero : (n : ℕ) → n + 0 ≡ n
n_zero n = omega arith

n_suc : (n m : ℕ) → n + suc m ≡ suc (n + m)
n_suc n m = omega arith

-- Positions after the lines before the block
slice-body : (body post : List Text) → slice 0 (length body) (body ++ post) ≡ body
unfolding slice
slice-body [] [] = refl
slice-body [] (x ∷ post) = refl
slice-body (b ∷ body) post = ap (λ r. b ∷ r) (slice-body body post)

slice-append :
    (pre body post : List Text)
    → slice (length pre) (length body + length pre) (pre ++ (body ++ post)) ≡ body
unfolding slice
slice-append [] body post = ap (λ n. slice 0 n (body ++ post)) (n_zero _) ∙ slice-body body post
slice-append (x ∷ pre) body post =
    ap (λ n. slice (suc (length pre)) n (x ∷ (pre ++ (body ++ post)))) (n_suc _ _)
    ∙ slice-append pre body post

set_line-append :
    (pre rest : List Text) (i : ℕ) (line : Text)
    → set_line (i + length pre) line (pre ++ rest) ≡ pre ++ set_line i line rest
unfolding set_line
set_line-append [] rest i line = ap (λ n. set_line n line rest) (n_zero _)
set_line-append (x ∷ pre) rest i line =
    ap (λ n. set_line n line (x ∷ (pre ++ rest))) (n_suc _ _)
    ∙ ap (λ r. x ∷ r) (set_line-append pre rest i line)

insert_line-append :
    (pre rest : List Text) (i : ℕ) (line : Text)
    → insert_line (i + length pre) line (pre ++ rest) ≡ pre ++ insert_line i line rest
unfolding insert_line
insert_line-append [] rest i line = ap (λ n. insert_line n line rest) (n_zero _)
insert_line-append (x ∷ pre) rest i line =
    ap (λ n. insert_line n line (x ∷ (pre ++ rest))) (n_suc _ _)
    ∙ ap (λ r. x ∷ r) (insert_line-append pre rest i line)

-- The edit of a list that starts with the block, for the position that was found
abbrev edited : Option ℕ → List Text → List Text → List Text
edited none block rest = insert_line (length block) deltarpm_off (block ++ rest)
edited (some i) block rest = set_line i deltarpm_off (block ++ rest)

edited-add_one :
    (q : Option ℕ) (line : Text) (block rest : List Text)
    → edited (add_one q) (line ∷ block) rest ≡ line ∷ edited q block rest
unfolding insert_line set_line
edited-add_one none line block rest = refl
edited-add_one (some i) line block rest = refl

edited-if :
    (b : Bool) (q : Option ℕ) (line : Text) (block rest : List Text)
    → edited q block rest ≡ block_off block ++ rest
    → edited (if b then some 0 else add_one q) (line ∷ block) rest
      ≡ (if b then deltarpm_off ∷ block else line ∷ block_off block) ++ rest
unfolding set_line
edited-if true q line block rest e = refl
edited-if false q line block rest e = edited-add_one q line block rest ∙ ap (λ r. line ∷ r) e

edited-position :
    (block rest : List Text)
    → edited (position is_deltarpm block) block rest ≡ block_off block ++ rest
unfolding position insert_line
edited-position [] [] = refl
edited-position [] (x ∷ rest) = refl
edited-position (line ∷ block) rest =
    edited-if (is_deltarpm line) (position is_deltarpm block) line block rest
      (edited-position block rest)

chosen-edited :
    (q : Option ℕ) (pre block rest : List Text)
    → chosen q (length pre) (length block + length pre) (pre ++ (block ++ rest))
      ≡ pre ++ edited q block rest
chosen-edited none pre block rest =
    insert_line-append pre (block ++ rest) (length block) deltarpm_off
chosen-edited (some i) pre block rest = set_line-append pre (block ++ rest) i deltarpm_off

pub switch_off-block :
    (pre block rest : List Text)
    → switch_off (length pre) (length block + length pre) (pre ++ (block ++ rest))
      ≡ pre ++ (block_off block ++ rest)
unfolding switch_off
switch_off-block pre block rest =
    (ap
        (λ lines.
          chosen (position is_deltarpm lines) (length pre) (length block + length pre)
            (pre ++ (block ++ rest)))
        (slice-append pre block rest)
      ∙ chosen-edited (position is_deltarpm block) pre block rest)
    ∙ ap (λ r. pre ++ r) (edited-position block rest)
