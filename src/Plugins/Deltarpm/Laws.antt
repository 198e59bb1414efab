-- ===== src/Plugins/Deltarpm/Laws.antt =====
-- What the plugin does to dnf.conf.
use qubes_core_admin_linux.Entrypoint.{OsData}
use qubes_core_admin_linux.Exec.{
  Result-cases, pure, ◌>>=◌, lift, Exception, value_error, err, Result, ◌>>?◌, ok,
}
use qubes_core_admin_linux.Package.Cli.{starts}
use qubes_core_admin_linux.Plugins.{
  inr, inl, write_opened, read_file, write_file, is_red_hat, Box, PluginHost, put_first, readlines,
  same_text, writelines,
}
use qubes_core_admin_linux.Plugins.Deltarpm.{
  edit_conf, disable_deltarpm, switch_off, block_end, deltarpm_off, block_begin, is_deltarpm,
  index_line, without_deltarpm,
}
use qubes_core_admin_linux.Plugins.Deltarpm.Block.{position-append, switch_off-block, block_off}
use qubes_core_admin_linux.Prelude.{
  inl, inr, ◌⊎◌, Option-cases, insert, length-append, any, length, nat_eq, Text, ℕ, ◌+◌, ◌≡◌, refl,
  sym, ap, ◌∙◌, Bool, true, false, String, none, some, List, [], ◌∷◌, ◌++◌, if◌then◌else◌, arith,
}

same_text_refl : (t : Text) → same_text t t ≡ true
unfolding same_text
same_text_refl [] = refl
same_text_refl (c ∷ t) = ground (arith, same_text_refl t)

append_assoc : (xs ys zs : List Text) → (xs ++ ys) ++ zs ≡ xs ++ (ys ++ zs)
append_assoc [] ys zs = refl
append_assoc (x ∷ xs) ys zs = ap (λ r. x ∷ r) (append_assoc xs ys zs)

block_length :
    (pre body : List Text)
    → length (pre ++ block_begin ∷ body) ≡ length (block_begin ∷ body) + length pre
block_length pre body = omega (arith, length-append pre (block_begin ∷ body))

index_line-append :
    (line : Text) (xs ys : List Text)
    → any (same_text line) xs ≡ false
    → index_line line (xs ++ line ∷ ys) ≡ ok (length xs)
unfolding index_line
index_line-append line xs ys h =
    ap (λ q. elim q as (λ _. Result ℕ) [ none ↦ err value_error | some n ↦ ok n ])
      (position-append (same_text line) xs line ys h (same_text_refl line))

-- The lines of a file with one block of Qubes in it
abbrev pub with_block : List Text → List Text → List Text → List Text
with_block pre body post = pre ++ ((block_begin ∷ body) ++ block_end ∷ post)

-- The lines before the block, and the block, do not have what begins it or ends it.
abbrev pub OneBlock : List Text → List Text → Type 0
OneBlock pre body =
    (any (same_text block_begin) pre ≡ false)
    × (any (same_text block_end) (pre ++ block_begin ∷ body) ≡ false)

pub without_deltarpm-block :
    (pre body post : List Text)
    → OneBlock pre body
    → without_deltarpm (with_block pre body post) ≡ ok (with_block pre (block_off body) post)
unfolding without_deltarpm starts
without_deltarpm-block pre body post (no_begin, no_end) =
    (ap
        (λ r. r >>? λ start. index_line block_end (with_block pre body post) >>? λ stop.
          ok (switch_off start stop (with_block pre body post)))
        (index_line-append block_begin pre (body ++ block_end ∷ post) no_begin)
      ∙ ap (λ r. r >>? λ stop. ok (switch_off (length pre) stop (with_block pre body post)))
          ((ap (index_line block_end)
                (sym (append_assoc pre (block_begin ∷ body) (block_end ∷ post)))
              ∙ index_line-append block_end (pre ++ block_begin ∷ body) post no_end)
            ∙ ap ok (block_length pre body)))
    ∙ ap ok (switch_off-block pre (block_begin ∷ body) (block_end ∷ post))

put_first-writelines :
    (c : ℕ) (lines : List Text) → writelines (put_first c lines) ≡ c ∷ writelines lines
unfolding put_first writelines
put_first-writelines c [] = refl
put_first-writelines c (line ∷ rest) = refl

writelines-if :
    (b : Bool) (c : ℕ) (rest : List Text) (t : Text)
    → (b ≡ true → c ≡ 10)
    → writelines rest ≡ t
    → writelines (if b then (10 ∷ []) ∷ rest else put_first c rest) ≡ c ∷ t
unfolding writelines
writelines-if true c rest t k e = ap (λ n. n ∷ writelines rest) (sym (k refl)) ∙ ap (λ r. c ∷ r) e
writelines-if false c rest t k e = put_first-writelines c rest ∙ ap (λ r. c ∷ r) e

-- Writing the lines that were read gives the text again.
pub writelines-readlines : (t : Text) → writelines (readlines t) ≡ t
unfolding readlines writelines
writelines-readlines [] = refl
writelines-readlines (c ∷ t) =
    writelines-if (nat_eq c 10) c (readlines t) t (λ e. ground arith) (writelines-readlines t)

block_off-if :
    (b : Bool) (line : Text) (rest : List Text)
    → (b ≡ is_deltarpm line)
    → block_off (block_off rest) ≡ block_off rest
    → block_off (if b then deltarpm_off ∷ rest else line ∷ block_off rest)
      ≡ (if b then deltarpm_off ∷ rest else line ∷ block_off rest)
unfolding starts
block_off-if true line rest e h = refl
block_off-if false line rest e h =
    ap (λ b. if b then deltarpm_off ∷ block_off rest else line ∷ block_off (block_off rest)) (sym e)
    ∙ ap (λ r. line ∷ r) h

pub block_off_idem : (body : List Text) → block_off (block_off body) ≡ block_off body
unfolding starts
block_off_idem [] = refl
block_off_idem (line ∷ rest) = block_off-if (is_deltarpm line) line rest refl (block_off_idem rest)

module _ {O : Type 0} (machine : PluginHost O) (dnf_conf : String) (box : Box O) where
  abbrev save : Result (List Text) → Result (Unit {0}) × Box O
  save r = (lift r >>= λ lines. write_file machine dnf_conf (writelines lines)) box

  write_file-written :
      (content : Text)
      → machine.opens dnf_conf box ≡ ok tt
      → machine.write_fails dnf_conf content box ≡ none
      → write_file machine dnf_conf content box
        ≡ (ok tt, record box { files = insert dnf_conf content box.files })
  unfolding write_file write_opened
  write_file-written content may whole = ground arith

  -- The files are as before, or a write to the opened configuration failed with this exception and
  -- has left in it what it did.
  abbrev pub OnlyCut : Exception → Box O → Type 0
  OnlyCut e after =
      (after ≡ box)
      ⊎ ((content partial : Text) × (machine.opens dnf_conf box ≡ ok tt)
          × (machine.write_fails dnf_conf content box ≡ some (e, partial))
          × (after ≡ record box { files = insert dnf_conf partial box.files }))

  write_file-raised :
      (content : Text) (e : Exception)
      → (write_file machine dnf_conf content box).0 ≡ err e
      → OnlyCut e (write_file machine dnf_conf content box).1
  unfolding write_file write_opened
  write_file-raised content e h = elim (Result-cases (machine.opens dnf_conf box)) [
    | inr (x, o) ↦ inl (ground arith)
    | inl (u, o) ↦ elim (Option-cases (machine.write_fails dnf_conf content box)) [
      | inl w ↦ ground arith
      | inr ((x, partial), w) ↦ inr (content, partial, o, ground arith, ground arith)
    ]
  ]

  save-raised : (r : Result (List Text)) (e : Exception) → (save r).0 ≡ err e → OnlyCut e (save r).1
  save-raised (ok lines) e h = write_file-raised (writelines lines) e h
  save-raised (err x) e h = inl refl

  if-raised :
      (b : Bool) (e : Exception)
      → ((if b then edit_conf machine dnf_conf else pure tt) box).0 ≡ err e
      → OnlyCut e ((if b then edit_conf machine dnf_conf else pure tt) box).1
  unfolding edit_conf
  if-raised true e h =
      save-raised (read_file dnf_conf box >>? λ t. without_deltarpm (readlines t)) e h
  if-raised false e h = cc

module _ {O : Type 0} (machine : PluginHost O) (dnf_conf : String) (os : OsData) (box : Box O) where
  -- The file, with its lines, the permission to write it, and room for what is written
  pub record Configured (text : Text) (lines : List Text) : Type 0 where
    pub red_hat_os : is_red_hat os.os_family ≡ true
    pub reads : read_file dnf_conf box ≡ ok text
    pub has_lines : readlines text ≡ lines
    pub may_write : machine.opens dnf_conf box ≡ ok tt
    pub whole : (content : Text) → machine.write_fails dnf_conf content box ≡ none

  -- On a system of the RedHat family, where the configuration of dnf has one block of Qubes and can be
  -- written, the plugin writes the file with the first line about deltarpm in the block replaced by
  -- `deltarpm=False`, or with that line added at its end, and with every other line as it was.
  pub disable_deltarpm_block :
      (text : Text) (pre body post : List Text)
      → OneBlock pre body
      → Configured text (with_block pre body post)
      → disable_deltarpm machine dnf_conf os box ≡ (
        ok tt,
        record box {
          files = insert dnf_conf (writelines (with_block pre (block_off body) post)) box.files;
        },
      )
  unfolding disable_deltarpm edit_conf
  disable_deltarpm_block text pre body post one c =
      (ap (λ b. (if b then edit_conf machine dnf_conf else pure tt) box) c.red_hat_os
        ∙ ap (save machine dnf_conf box) (
            (ap (λ r. r >>? λ t. without_deltarpm (readlines t)) c.reads
              ∙ ap without_deltarpm c.has_lines)
            ∙ without_deltarpm-block pre body post one))
      ∙ write_file-written machine dnf_conf box _ c.may_write (c.whole _)

  -- If the plugin raises, then no file has changed, or the configuration was opened for writing and
  -- the exception is that of the write, and only the configuration has changed, to what that failed
  -- write has left of it.
  pub disable_deltarpm_raised :
      (e : Exception)
      → (disable_deltarpm machine dnf_conf os box).0 ≡ err e
      → OnlyCut machine dnf_conf box e (disable_deltarpm machine dnf_conf os box).1
  unfolding disable_deltarpm
  disable_deltarpm_raised e h = if-raised machine dnf_conf box (is_red_hat os.os_family) e h

  -- If the block has `deltarpm=False` as its first line about deltarpm, the text that was read is
  -- written again.
  pub disable_deltarpm_stable :
      (text : Text) (pre body post : List Text)
      → OneBlock pre body
      → Configured text (with_block pre body post)
      → block_off body ≡ body
      → disable_deltarpm machine dnf_conf os box
        ≡ (ok tt, record box { files = insert dnf_conf text box.files })
  disable_deltarpm_stable text pre body post one c e =
      disable_deltarpm_block text pre body post one c
      ∙ ap (λ t. (ok tt, record box { files = insert dnf_conf t box.files }))
          (ap (λ b. writelines (with_block pre b post)) e
            ∙ (ap writelines (sym c.has_lines) ∙ writelines-readlines text))
