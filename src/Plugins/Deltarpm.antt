-- ===== src/Plugins/Deltarpm.antt =====
-- vmupdate/agent/source/plugins/disable_deltarpm.py
pub mod Block
pub mod Laws
use qubes_core_admin_linux.Entrypoint.{OsData}
use qubes_core_admin_linux.Exec.{pure, lift, ◌>>=◌, gets, value_error, err, ok, Exec, ◌>>?◌, Result}
use qubes_core_admin_linux.Package.Cli.{starts}
use qubes_core_admin_linux.Plugins.{
  writelines, write_file, readlines, read_file, is_red_hat, Box, same_text, PluginHost,
}
use qubes_core_admin_linux.Prelude.{
  codes, Text, ℕ, zero, suc, ◌+◌, ◌-◌, ◌≤◌, ◌<◌, max, ◌≡◌, ◌≢◌, refl, sym, ap, ◌∙◌, ◌↔◌, ◌⊎◌, inl,
  inr, Bool, true, false, not, ◌&&◌, ◌||◌, String, ◌<>◌, Option, none, some, List, [], ◌∷◌, ◌++◌,
  if◌then◌else◌, arith,
}

abbrev pub block_begin : Text
block_begin = codes "### QUBES BEGIN ###" ++ 10 ∷ []

abbrev pub block_end : Text
block_end = codes "### QUBES END ###" ++ 10 ∷ []

abbrev pub deltarpm_off : Text
deltarpm_off = codes "deltarpm=False" ++ 10 ∷ []

abbrev pub is_deltarpm : Text → Bool
is_deltarpm line = starts (codes "deltarpm") line

abbrev pub add_one : Option ℕ → Option ℕ
add_one none = none
add_one (some n) = some (suc n)

-- The position of the first line that passes a test
unfoldable pub position : (Text → Bool) → List Text → Option ℕ
position p [] = none
position p (line ∷ rest) = let later = position p rest in if p line then some 0 else add_one later

-- `lines.index(line)`
unfoldable pub index_line : Text → List Text → Result ℕ
index_line line lines = elim (position (same_text line) lines) [
  | none ↦ err value_error
  | some n ↦ ok n
]

-- `lines[start:stop]`
unfoldable pub slice : ℕ → ℕ → List Text → List Text
slice start stop [] = []
slice start zero (line ∷ rest) = []
slice zero (suc stop) (line ∷ rest) = line ∷ slice zero stop rest
slice (suc start) (suc stop) (line ∷ rest) = slice start stop rest

-- `lines[i] = line` and `lines.insert(i, line)`
unfoldable pub set_line : ℕ → Text → List Text → List Text
set_line i line [] = []
set_line zero line (_ ∷ rest) = line ∷ rest
set_line (suc i) line (other ∷ rest) = other ∷ set_line i line rest

unfoldable pub insert_line : ℕ → Text → List Text → List Text
insert_line i line [] = line ∷ []
insert_line zero line (other ∷ rest) = line ∷ other ∷ rest
insert_line (suc i) line (other ∷ rest) = other ∷ insert_line i line rest

-- What is done once the loop over the block has found its position, or none
abbrev pub chosen : Option ℕ → ℕ → ℕ → List Text → List Text
chosen none start stop lines = insert_line stop deltarpm_off lines
chosen (some i) start stop lines = set_line (i + start) deltarpm_off lines

-- The loop over the block, for its first and its last position
unfoldable pub switch_off : ℕ → ℕ → List Text → List Text
switch_off start stop lines =
    chosen (position is_deltarpm (slice start stop lines)) start stop lines

unfoldable pub without_deltarpm : List Text → Result (List Text)
without_deltarpm lines = index_line block_begin lines >>? λ start.
    index_line block_end lines >>? λ stop. ok (switch_off start stop lines)

module _ {O : Type 0} (machine : PluginHost O) (dnf_conf : String) where
  -- What is done on a system of the RedHat family
  unfoldable pub edit_conf : Exec (Box O) Unit
  edit_conf = gets (read_file dnf_conf) >>= λ content.
      lift (content >>? λ text. without_deltarpm (readlines text)) >>= λ lines.
      write_file machine dnf_conf (writelines lines)

  -- `disable_deltarpm`, for the path of dnf.conf
  unfoldable pub disable_deltarpm : OsData → Exec (Box O) Unit
  disable_deltarpm os = if is_red_hat os.os_family then edit_conf else pure tt
