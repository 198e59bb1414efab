-- ===== src/Plugins.antt =====
-- What the plugins of the agent (vmupdate/agent/source/plugins) use of Python: files as a dict from
-- paths to texts, commands, and texts split into lines.
pub mod Deltarpm
pub mod Debian
pub mod Fedora
pub mod All
use qubes_core_admin_linux.Entrypoint.{OsData, Family, red_hat, arch_linux}
use qubes_core_admin_linux.Exec.{
  value_error, called_process_error, Exception, os_error, raise, err, ok, pure, on_result, ◌>>=◌,
  Exec, Result,
}
use qubes_core_admin_linux.Package.Cli.{starts}
use qubes_core_admin_linux.Prelude.{
  ◌==◌, insert, is_nil, lookup, nat_eq, Text, has_key, ltb, ℕ, zero, suc, ◌+◌, ◌-◌, ◌≤◌, ◌<◌, max,
  ◌≡◌, ◌≢◌, refl, sym, ap, ◌∙◌, ◌↔◌, ◌⊎◌, inl, inr, Bool, true, false, not, ◌&&◌, ◌||◌, String,
  ◌<>◌, Option, none, some, List, [], ◌∷◌, ◌++◌, if◌then◌else◌, arith,
}
use qubes_core_admin_linux.Prelude.Int.{ℤ}

-- The files, and the rest of the system.
pub record Box (O : Type 0) : Type 0 where
  pub files : List (String × Text)
  pub outside : O

-- What the plugins ask of the system: `subprocess` with the exit code and the output, a signal to a
-- process, whether a path can be opened for writing or removed, and whether a write to the opened file
-- fails, with what is in the file then; and Python's `decode()` and `int` of a
-- text.
pub record PluginHost (O : Type 0) : Type 0 where
  pub run_command : List String → Exec (Box O) (ℕ × List ℕ)
  pub kill : ℤ → Exec (Box O) Unit
  pub opens : String → Box O → Result (Unit {0})
  pub write_fails : String → Text → Box O → Option (Exception × Text)
  pub removes : String → Box O → Result (Unit {0})
  pub decode : List ℕ → Result Text
  pub int_of : Text → Option ℤ

-- `os_data["os_family"] == "RedHat"` and `== "ArchLinux"`
abbrev pub is_red_hat : Family → Bool
is_red_hat red_hat = true
is_red_hat _ = false

abbrev pub is_arch_linux : Family → Bool
is_arch_linux arch_linux = true
is_arch_linux _ = false

-- Whether two texts are the same, and `needle in text`
unfoldable pub same_text : Text → Text → Bool
same_text [] [] = true
same_text [] (_ ∷ _) = false
same_text (_ ∷ _) [] = false
same_text (x ∷ xs) (y ∷ ys) = let rest = same_text xs ys in nat_eq x y && rest

unfoldable pub in_text : Text → Text → Bool
in_text needle [] = is_nil needle
in_text needle (c ∷ cs) = let rest = in_text needle cs in starts needle (c ∷ cs) || rest

unfoldable pub put_first : ℕ → List Text → List Text
put_first c [] = (c ∷ []) ∷ []
put_first c (line ∷ rest) = (c ∷ line) ∷ rest

abbrev pub head_is : ℕ → Text → Bool
head_is c [] = false
head_is c (x ∷ xs) = nat_eq x c

-- The newlines of a file that is opened as text
unfoldable pub universal_newlines : Text → Text
universal_newlines [] = []
universal_newlines (c ∷ cs) =
    let rest = universal_newlines cs in
    if nat_eq c 13 then (if head_is 10 cs then rest else 10 ∷ rest) else c ∷ rest

-- `file.readlines()` and `file.writelines(lines)`
unfoldable pub readlines : Text → List Text
readlines [] = []
readlines (c ∷ cs) =
    let rest = readlines cs in if nat_eq c 10 then (10 ∷ []) ∷ rest else put_first c rest

unfoldable pub writelines : List Text → Text
writelines [] = []
writelines (line ∷ rest) = line ++ writelines rest

-- The characters that end a line for `splitlines`
abbrev pub line_break : ℕ → Bool
line_break c =
    (not (ltb c 10) && ltb c 14)
    || (not (ltb c 28) && ltb c 31)
    || (nat_eq c 133 || (nat_eq c 8232 || nat_eq c 8233))

unfoldable pub splitlines : Text → List Text
splitlines [] = []
splitlines (c ∷ cs) =
    let rest = splitlines cs in
    if nat_eq c 13 && head_is 10 cs
    then rest
    else if line_break c
    then [] ∷ rest
    else put_first c rest

-- `del d[k]`
unfoldable pub remove_key : {V : Type 0} → String → List (String × V) → List (String × V)
remove_key k [] = []
remove_key k ((j, v) ∷ d) = let rest = remove_key k d in if j == k then rest else (j, v) ∷ rest

-- `os_data.get("codename", "") == name`
abbrev pub has_codename : String → OsData → Bool
has_codename name os = elim os.codename [ none ↦ "" == name | some v ↦ v == name ]

-- The tests in the `except` clauses
abbrev pub is_called_process : Exception → Bool
is_called_process (called_process_error _ _) = true
is_called_process _ = false

abbrev pub is_value_error : Exception → Bool
is_value_error value_error = true
is_value_error _ = false

module _ {O : Type 0} where
  -- `os.path.exists(path)`
  abbrev pub exists_file : String → Box O → Bool
  exists_file path box = has_key path box.files

  -- `open(path, "r").read()`
  unfoldable pub read_file : String → Box O → Result Text
  read_file path box = elim (lookup path box.files) [
    | none ↦ err (os_error path)
    | some content ↦ ok (universal_newlines content)
  ]

  module _ (machine : PluginHost O) where
    -- `file.write(content)` to a file that `open` has made empty
    unfoldable pub write_opened : String → Text → Exec (Box O) Unit
    write_opened path content box = elim (machine.write_fails path content box) [
      | none ↦ (ok tt, record box { files = insert path content box.files })
      | some (e, partial) ↦ (err e, record box { files = insert path partial box.files })
    ]

    -- `with open(path, "w") as file: file.write(content)`
    unfoldable pub write_file : String → Text → Exec (Box O) Unit
    unfolding write_opened
    write_file path content box =
        on_result (machine.opens path box) (λ _. write_opened path content box) (λ e. (err e, box))

    -- `subprocess.check_output(command)`
    unfoldable pub check_output : List String → Exec (Box O) (List ℕ)
    check_output command = machine.run_command command >>= λ done.
        if nat_eq done.0 0 then pure done.1 else raise (called_process_error done.0 done.1)

    -- `subprocess.call(command)` and `subprocess.check_call(command)`
    unfoldable pub call_command : List String → Exec (Box O) ℕ
    call_command command = machine.run_command command >>= λ done. pure done.0

    unfoldable pub check_call : List String → Exec (Box O) Unit
    check_call command = call_command command >>= λ code.
        if nat_eq code 0 then pure tt else raise (called_process_error code [])

    -- `os.remove(path)` of a path that exists
    unfoldable pub remove_file : String → Exec (Box O) Unit
    remove_file path box =
        on_result (machine.removes path box)
          (λ _. (ok tt, record box { files = remove_key path box.files })) (λ e. (err e, box))
