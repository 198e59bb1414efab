-- ===== src/Package/Cli/Listing.antt =====
-- `get_packages` of vmupdate/agent/source/dnf/dnf_cli.py, apt/apt_cli.py and pacman/pacman_cli.py. How
-- a name becomes a key is a parameter.
pub mod Words
pub mod Versions
pub mod Printed
use qubes_core_admin_linux.Exec.{lift, value_error, err, ◌>>=◌, ◌>>?◌, ok, Exec, Result}
use qubes_core_admin_linux.Package.{Packages}
use qubes_core_admin_linux.Package.Cli.{run_cmd, Shell}
use qubes_core_admin_linux.Plugins.{splitlines, same_text, put_first}
use qubes_core_admin_linux.Plugins.Debian.{is_space}
use qubes_core_admin_linux.Prelude.{
  codes, insert, lookup, Text, ℕ, zero, suc, ◌+◌, ◌-◌, ◌≤◌, ◌<◌, max, ◌≡◌, ◌≢◌, refl, sym, ap, ◌∙◌,
  ◌↔◌, ◌⊎◌, inl, inr, Bool, true, false, not, ◌&&◌, ◌||◌, String, ◌<>◌, Option, none, some, List,
  [], ◌∷◌, ◌++◌, if◌then◌else◌, arith,
}

abbrev pub ends_word : Text → Bool
ends_word [] = true
ends_word (c ∷ _) = is_space c

-- `line.split()`
unfoldable pub words : Text → List Text
words [] = []
words (c ∷ cs) =
    let rest = words cs in
    if is_space c then rest else if ends_word cs then (c ∷ []) ∷ rest else put_first c rest

-- `packages.setdefault(package, []).append(version)`
unfoldable pub add_version : String → Text → Packages → Packages
add_version name version packages = elim (lookup name packages) [
  | none ↦ insert name (version ∷ []) packages
  | some versions ↦ insert name (versions ++ version ∷ []) packages
]

module _ (key : Text → String) where
  -- A line of `rpm -qa` or `pacman -Q`: two columns, or a ValueError
  unfoldable pub two_columns : List Text → Packages → Result Packages
  two_columns (name ∷ (version ∷ [])) packages = ok (add_version (key name) version packages)
  two_columns _ packages = err value_error

  -- A line of dpkg-query: five columns, or a ValueError
  unfoldable pub five_columns : List Text → Packages → Result Packages
  five_columns (selection ∷ (flag ∷ (status ∷ (name ∷ (version ∷ []))))) packages = ok (
      if (same_text selection (codes "install") || same_text selection (codes "hold"))
        && same_text status (codes "installed")
      then add_version (key name) version packages
      else packages)
  five_columns _ packages = err value_error

  -- The loop over the lines of the output
  unfoldable pub list_lines :
      (List Text → Packages → Result Packages) → List Text → Packages → Result Packages
  list_lines columns [] packages = ok packages
  list_lines columns (line ∷ rest) packages =
      columns (words line) packages >>? list_lines columns rest

  module _ {S : Type 0} (shell : Shell S) where
    abbrev pub listed_by : (List Text → Packages → Result Packages) → List String → Exec S Packages
    listed_by columns cmd =
        run_cmd shell cmd false >>= λ result. lift (list_lines columns (splitlines result.out) [])

    -- `DNFCLI.get_packages`
    unfoldable pub rpm_packages : Exec S Packages
    rpm_packages =
        listed_by two_columns
          ("rpm" ∷ "-qa" ∷ "--queryformat" ∷ "%{NAME} %{VERSION}-%{RELEASE}\n" ∷ [])

    -- `APTCLI.get_packages`
    unfoldable pub dpkg_packages : Exec S Packages
    dpkg_packages =
        listed_by five_columns
          ("dpkg-query" ∷ "--showformat" ∷ "${Status} ${Package} ${Version}\n" ∷ "-W" ∷ [])

    -- `PACMANCLI.get_packages`
    unfoldable pub pacman_packages : Exec S Packages
    pacman_packages = listed_by two_columns ("pacman" ∷ "-Q" ∷ [])
