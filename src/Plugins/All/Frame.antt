-- ===== src/Plugins/All/Frame.antt =====
-- The plugins write no files but their own.
use qubes_core_admin_linux.Exec.{Result, on_result_ind, Exec}
use qubes_core_admin_linux.Exec.Ends.{EndsIn}
use qubes_core_admin_linux.Exec.Preserves.{
  Preserves-raise, Preserves-if, Preserves-pure, Preserves-try_except, Preserves-bind, Preserves,
}
use qubes_core_admin_linux.Plugins.{
  inr, inl, write_opened, is_called_process, remove_key, Box, call_command, check_call,
  check_output, remove_file, write_file, PluginHost,
}
use qubes_core_admin_linux.Plugins.All.{dnf_conf_path}
use qubes_core_admin_linux.Plugins.Debian.{
  keyfile_path, unless_called, prefs_path, sources_list, apt_conf,
}
use qubes_core_admin_linux.Plugins.Fedora.{rpc_filename, rpm_macro}
use qubes_core_admin_linux.Prelude.{
  Option-cases, some, insert, lookup-insert, nat_eq, eq_iff, ◌==◌, lookup, Text, ◌≡◌, refl, ap, ◌∙◌,
  false, String, Option, List, [], ◌∷◌, if◌then◌else◌, arith,
}
use qubes_core_admin_linux.Prelude.Int.{ℤ}

-- The files that the plugins write
abbrev pub plugin_files : List String
plugin_files =
    apt_conf ∷ sources_list ∷ prefs_path ∷ dnf_conf_path ∷ rpm_macro ∷ rpc_filename ∷ keyfile_path
    ∷ []

module _ {O : Type 0} (machine : PluginHost O) (path : String) (content : Option Text) where
  -- A file has this content, or does not exist.
  abbrev pub Intact : Box O → Type 0
  Intact box = lookup path box.files ≡ content

  -- The commands and the signals leave it alone.
  pub record Harmless : Type 0 where
    pub command_harmless : (command : List String) → Preserves Intact (machine.run_command command)
    pub kill_harmless : (pid : ℤ) → Preserves Intact (machine.kill pid)

  lookup-remove_key :
      (k j : String) (d : List (String × Text))
      → (k == j) ≡ false
      → lookup j (remove_key k d) ≡ lookup j d
  unfolding lookup remove_key
  lookup-remove_key k j [] e = refl
  lookup-remove_key k j ((i, w) ∷ d) e =
      ground (arith, eq_iff k j, eq_iff i k, eq_iff i j, lookup-remove_key k j d)

  write_opened-Intact :
      (other : String) (text : Text) (box : Box O)
      → (other == path) ≡ false
      → Intact box
      → EndsIn Intact (write_opened machine other text box)
  unfolding write_opened
  write_opened-Intact other text box e q =
      elim (Option-cases (machine.write_fails other text box)) [
        | inl f ↦ rw (write_opened, f) (kept text)
        | inr ((x, partial), f) ↦ rw (write_opened, f) (kept partial)
      ]
    where
      kept : (t : Text) → lookup path (insert other t box.files) ≡ content
      kept t =
          (lookup-insert other path t box.files
            ∙ ap (λ b. if b then some t else lookup path box.files) e)
          ∙ q

  pub write_file-Preserves :
      (other : String) (text : Text)
      → (other == path) ≡ false
      → Preserves Intact (write_file machine other text)
  unfolding write_file
  write_file-Preserves other text e = record {
    keeps = λ box q.
        on_result_ind {B = Result Unit × Box O} (EndsIn Intact) (machine.opens other box)
          (λ _ _. write_opened-Intact other text box e q) (λ _ _. q);
  }

  pub remove_file-Preserves :
      (other : String) → (other == path) ≡ false → Preserves Intact (remove_file machine other)
  unfolding remove_file
  remove_file-Preserves other e = record {
    keeps = λ box q.
        on_result_ind {B = Result Unit × Box O} (EndsIn Intact) (machine.removes other box)
          (λ _ _. lookup-remove_key other path box.files e ∙ q) (λ _ _. q);
  }

  module _ (harmless : Harmless) where
    pub check_output-Preserves :
        (command : List String) → Preserves Intact (check_output machine command)
    unfolding check_output
    check_output-Preserves command =
        Preserves-bind Intact (harmless.command_harmless command) (λ done.
          Preserves-if Intact (nat_eq done.0 0) (Preserves-pure Intact) (Preserves-raise Intact))

    pub call_command-Preserves :
        (command : List String) → Preserves Intact (call_command machine command)
    unfolding call_command
    call_command-Preserves command =
        Preserves-bind Intact (harmless.command_harmless command) (λ done. Preserves-pure Intact)

    pub check_call-Preserves :
        (command : List String) → Preserves Intact (check_call machine command)
    unfolding check_call
    check_call-Preserves command = Preserves-bind Intact (call_command-Preserves command) (λ code.
        Preserves-if Intact (nat_eq code 0) (Preserves-pure Intact) (Preserves-raise Intact))

    pub unless_called-Preserves :
        {A : Type 0} (a : A) {m : Exec (Box O) A}
        → Preserves Intact m
        → Preserves Intact (unless_called machine a m)
    unless_called-Preserves a k = Preserves-try_except Intact k (λ e.
        Preserves-if Intact (is_called_process e) (Preserves-pure Intact) (Preserves-raise Intact))
