-- ===== src/Package/Cli/Listing/Printed.antt =====
-- The lists of packages that rpm, pacman and dpkg-query print are read back.
use qubes_core_admin_linux.Exec.{ok}
use qubes_core_admin_linux.Package.{Packages}
use qubes_core_admin_linux.Package.Cli.Listing.{
  inr, inl, five_columns, add_version, two_columns, list_lines, words,
}
use qubes_core_admin_linux.Package.Cli.Listing.Versions.{
  versions_of, with_versions, with_versions-nil, HasVersions, add_version-HasVersions,
}
use qubes_core_admin_linux.Package.Cli.Listing.Words.{
  IsWord, words-word_space, words-word, no_break-word, splitlines-line,
}
use qubes_core_admin_linux.Plugins.{same_text, line_break, splitlines}
use qubes_core_admin_linux.Prelude.{
  Bool-cases, lookup, sym, if◌then◌else◌, ◌&&◌, All, codes, any-append, any, Text, ◌≡◌, refl, ap,
  ◌∙◌, Bool, false, ◌||◌, String, List, [], ◌∷◌, ◌++◌,
}

-- What `rpm -qa` and `pacman -Q` print for names with versions
abbrev pub printed : List (Text × Text) → Text
printed [] = []
printed ((name, version) ∷ entries) = (name ++ 32 ∷ version) ++ 10 ∷ printed entries

abbrev pub AreWords : List (Text × Text) → Type 0
AreWords [] = Unit
AreWords ((name, version) ∷ entries) = (IsWord name × IsWord version) × AreWords entries

no_break-line :
    (name version : Text)
    → IsWord name
    → IsWord version
    → any line_break (name ++ 32 ∷ version) ≡ false
no_break-line name version k l =
    any-append line_break name (32 ∷ version) ∙ rw (no_break-word name k) (no_break-word version l)

words-line :
    (name version : Text)
    → IsWord name
    → IsWord version
    → words (name ++ 32 ∷ version) ≡ name ∷ (version ∷ [])
words-line name version k l =
    words-word_space name version k ∙ ap (λ r. name ∷ r) (words-word version l)

-- What rpm and pacman print for packages with versions that are words is read back, with no error:
-- the dict then has, for each key and no other, the versions of its packages in the order in which
-- they were printed, after those that it had before.
pub list_lines-printed :
    (key : Text → String) (entries : List (Text × Text)) (packages : Packages)
    → AreWords entries
    → (read : Packages) × (list_lines key (two_columns key) (splitlines (printed entries)) packages
        ≡ ok read)
      × HasVersions (λ k. versions_of key k entries) packages read
unfolding list_lines two_columns splitlines
list_lines-printed key [] packages w =
    (packages, refl, λ k. sym (with_versions-nil (lookup k packages)))
list_lines-printed key ((name, version) ∷ entries) packages ((k, l), w) =
    let (read, e, h) = list_lines-printed key entries (add_version (key name) version packages) w in
    (
      read,
      rw
          (
            splitlines-line (name ++ 32 ∷ version) (printed entries)
                (no_break-line name version k l),
            words-line name version k l,
          )
          e,
      λ j. add_version-HasVersions key name version j packages read _ (h j),
    )

-- What dpkg-query knows of a package
pub record Entry : Type 0 where
  pub selection : Text
  pub flag : Text
  pub status : Text
  pub name : Text
  pub version : Text

abbrev pub entry_line : Entry → Text
entry_line e = e.selection ++ 32 ∷ (e.flag ++ 32 ∷ (e.status ++ 32 ∷ (e.name ++ 32 ∷ e.version)))

abbrev pub printed_entries : List Entry → Text
printed_entries [] = []
printed_entries (e ∷ entries) = entry_line e ++ 10 ∷ printed_entries entries

-- Whether a package is to be installed, or held, and is
abbrev pub is_installed : Entry → Bool
is_installed e =
    (same_text e.selection (codes "install") || same_text e.selection (codes "hold"))
    && same_text e.status (codes "installed")

-- The installed packages among the entries
abbrev pub installed : List Entry → List (Text × Text)
installed [] = []
installed (e ∷ entries) =
    let rest = installed entries in if is_installed e then (e.name, e.version) ∷ rest else rest

abbrev pub IsEntry : Entry → Type 0
IsEntry e = IsWord e.selection × IsWord e.flag × IsWord e.status × IsWord e.name × IsWord e.version

no_break-word_space :
    (w t : Text) → IsWord w → any line_break t ≡ false → any line_break (w ++ 32 ∷ t) ≡ false
no_break-word_space w t k h = any-append line_break w (32 ∷ t) ∙ rw (no_break-word w k) h

no_break-entry : (e : Entry) → IsEntry e → any line_break (entry_line e) ≡ false
no_break-entry e (a, b, c, d, f) = no_break-word_space e.selection _ a (
    no_break-word_space e.flag _ b
      (no_break-word_space e.status _ c (no_break-line e.name e.version d f)))

words-entry :
    (e : Entry)
    → IsEntry e
    → words (entry_line e) ≡ e.selection ∷ (e.flag ∷ (e.status ∷ (e.name ∷ (e.version ∷ []))))
words-entry e (a, b, c, d, f) = rw (
  words-word_space e.selection (e.flag ++ 32 ∷ (e.status ++ 32 ∷ (e.name ++ 32 ∷ e.version))) a,
  words-word_space e.flag (e.status ++ 32 ∷ (e.name ++ 32 ∷ e.version)) b,
  words-word_space e.status (e.name ++ 32 ∷ e.version) c,
  words-line e.name e.version d f,
)

-- What dpkg-query prints for packages whose fields are words is read back, with no error: the dict
-- then has, for each key and no other, the versions of those of its packages that are to be
-- installed, or held, and are installed, in order, after those that it had before.
pub list_lines-printed_entries :
    (key : Text → String) (entries : List Entry) (packages : Packages)
    → All IsEntry entries
    → (read : Packages) × (list_lines key
          (five_columns key)
          (splitlines (printed_entries entries))
          packages
        ≡ ok read)
      × HasVersions (λ k. versions_of key k (installed entries)) packages read
unfolding list_lines five_columns splitlines
list_lines-printed_entries key [] packages w =
    (packages, refl, λ k. sym (with_versions-nil (lookup k packages)))
list_lines-printed_entries key (e ∷ entries) packages (k, w) =
    let next_of =
      λ (b : Bool). if b then add_version (key e.name) e.version packages else packages in
    let (read, r, h) = list_lines-printed_entries key entries (next_of (is_installed e)) w in
    (
      read,
      rw
          (
            splitlines-line (entry_line e) (printed_entries entries) (no_break-entry e k),
            words-entry e k,
          )
          r,
      λ j. elim (Bool-cases (is_installed e)) [
        | inl y ↦
            add_version-HasVersions key e.name e.version j packages read
              (versions_of key j (installed entries))
              (h j
                ∙ ap
                    (λ b.
                      with_versions (lookup j (next_of b)) (versions_of key j (installed entries)))
                    y)
            ∙ ap
                (λ b. with_versions (lookup j packages) (
                  versions_of key j
                    (if b then (e.name, e.version) ∷ installed entries else installed entries)))
                (sym y)
        | inr n ↦
            (h j
              ∙ ap
                  (λ b.
                    with_versions (lookup j (next_of b)) (versions_of key j (installed entries)))
                  n)
            ∙ ap
                (λ b. with_versions (lookup j packages) (
                  versions_of key j
                    (if b then (e.name, e.version) ∷ installed entries else installed entries)))
                (sym n)
      ],
    )
