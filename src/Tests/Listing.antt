-- ===== src/Tests/Listing.antt =====
-- Lists of packages, printed and read.
use qubes_core_admin_linux.Exec.{ok}
use qubes_core_admin_linux.Package.{Packages}
use qubes_core_admin_linux.Package.Cli.Listing.{five_columns, two_columns, list_lines}
use qubes_core_admin_linux.Package.Cli.Listing.Printed.{
  installed, list_lines-printed_entries, list_lines-printed, printed_entries, printed, AreWords,
  Entry, IsEntry,
}
use qubes_core_admin_linux.Package.Cli.Listing.Versions.{versions_of, HasVersions}
use qubes_core_admin_linux.Plugins.{splitlines, same_text}
use qubes_core_admin_linux.Prelude.{codes, Text, ◌≡◌, refl, String, List, [], ◌∷◌, if◌then◌else◌}

abbrev key : Text → String
key name = if same_text name (codes "bash") then "bash" else "vim"

abbrev entries : List (Text × Text)
entries = (codes "bash", codes "5.2") ∷ (codes "vim", codes "9") ∷ (codes "bash", codes "5.3") ∷ []

entries_words : AreWords entries
entries_words = (
  ((refl, (refl, (refl, refl))), (refl, (refl, refl))),
  (((refl, (refl, refl)), refl), (((refl, (refl, (refl, refl))), (refl, (refl, refl))), tt)),
)

list_lines-printed_example :
    (read : Packages) × (list_lines key (two_columns key) (splitlines (printed entries)) []
      ≡ ok read)
    × HasVersions (λ k. versions_of key k entries) [] read
list_lines-printed_example = list_lines-printed key entries [] entries_words

abbrev held : Entry
held = record {
  selection = codes "hold";
  flag = codes "ok";
  status = codes "installed";
  name = codes "vim";
  version = codes "9";
}

abbrev removed : Entry
removed = record held { selection = codes "deinstall"; status = codes "config-files" }

held_words : IsEntry held
held_words = (
  (refl, (refl, (refl, refl))),
  (refl, refl),
  (refl, (refl, (refl, (refl, (refl, (refl, (refl, (refl, refl)))))))),
  (refl, (refl, refl)),
  refl,
)

removed_words : IsEntry removed
removed_words = (
  (refl, (refl, (refl, (refl, (refl, (refl, (refl, (refl, refl)))))))),
  (refl, refl),
  (refl, (refl, (refl, (refl, (refl, (refl, (refl, (refl, (refl, (refl, (refl, refl))))))))))),
  (refl, (refl, refl)),
  refl,
)

list_lines-printed_entries_example :
    (read : Packages) × (list_lines key
        (five_columns key)
        (splitlines (printed_entries (removed ∷ held ∷ [])))
        []
      ≡ ok read)
    × HasVersions (λ k. versions_of key k (installed (removed ∷ held ∷ []))) [] read
list_lines-printed_entries_example =
    list_lines-printed_entries key (removed ∷ held ∷ []) [] (removed_words, (held_words, tt))
