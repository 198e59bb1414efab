-- ===== src/Plugins/All/Files.antt =====
-- Each plugin leaves alone every file that is not one of theirs.
use qubes_core_admin_linux.Entrypoint.{OsData}
use qubes_core_admin_linux.Exec.{pure, Exec}
use qubes_core_admin_linux.Exec.Preserves.{
  preserving, Preserves-state, Preserves-pure, Preserves-if, Preserves,
}
use qubes_core_admin_linux.Package.{is_update_vm, AgentType, Requirements}
use qubes_core_admin_linux.Plugins.{
  call_command, remove_file, check_call, check_output, write_file, Box, PluginHost,
}
use qubes_core_admin_linux.Plugins.All.{apply_plugins, dnf_conf_path, requirements_of}
use qubes_core_admin_linux.Plugins.All.Frame.{
  call_command-Preserves, check_call-Preserves, check_output-Preserves, remove_file-Preserves,
  unless_called-Preserves, write_file-Preserves, plugin_files, Intact, Harmless,
}
use qubes_core_admin_linux.Plugins.Debian.{
  unless_called, renew_key, add_backports_repo, add_sources, allow_release_info_change, apt_conf,
  bookworm_backports, check_package_not_from_backports, keyfile_path, pin_backports, prefs_path,
  sources_list, whonix17_key,
}
use qubes_core_admin_linux.Plugins.Deltarpm.{edit_conf, disable_deltarpm}
use qubes_core_admin_linux.Plugins.Fedora.{
  remove_pulseaudio, change_label, fix_meminfo_writer_label, label_changed, manage_rpm_macro,
  pipewire_archlinux, rpc_filename, rpm_macro, signal_writer, updatesproxy_fix,
}
use qubes_core_admin_linux.Prelude.{
  lookup, ◌==◌, contains, Text, ℕ, ◌≡◌, Bool, false, String, Option, none, some, List, arith,
}

module _ {O : Type 0} (machine : PluginHost O) (path : String) (content : Option Text) where
  abbrev Q : Box O → Type 0
  Q = Intact machine path content

  module _ (harmless : Harmless machine path content)
      (other : contains plugin_files path ≡ false) where
    -- The file is none of the plugins'.
    not_apt_conf : (apt_conf == path) ≡ false
    unfolding contains
    not_apt_conf = ground arith

    not_sources : (sources_list == path) ≡ false
    unfolding contains
    not_sources = ground arith

    not_prefs : (prefs_path == path) ≡ false
    unfolding contains
    not_prefs = ground arith

    not_dnf_conf : (dnf_conf_path == path) ≡ false
    unfolding contains
    not_dnf_conf = ground arith

    not_macro : (rpm_macro == path) ≡ false
    unfolding contains
    not_macro = ground arith

    not_rpc : (rpc_filename == path) ≡ false
    unfolding contains
    not_rpc = ground arith

    not_keyfile : (keyfile_path == path) ≡ false
    unfolding contains
    not_keyfile = ground arith

    writes :
        (file : String) (text : Text)
        → (file == path) ≡ false
        → Preserves Q (write_file machine file text)
    writes = write_file-Preserves machine path content

    outputs : (command : List String) → Preserves Q (check_output machine command)
    outputs = check_output-Preserves machine path content harmless

    calls : (command : List String) → Preserves Q (check_call machine command)
    calls = check_call-Preserves machine path content harmless

    call : (command : List String) → Preserves Q (call_command machine command)
    call = call_command-Preserves machine path content harmless

    removes : (file : String) → (file == path) ≡ false → Preserves Q (remove_file machine file)
    removes = remove_file-Preserves machine path content

    unless :
        {A : Type 0} (a : A) {m : Exec (Box O) A}
        → Preserves Q m
        → Preserves Q (unless_called machine a m)
    unless a k = unless_called-Preserves machine path content harmless a k

    release_info : (os : OsData) → Preserves Q (allow_release_info_change machine os)
    unfolding allow_release_info_change
    release_info os = search (preserving, writes, not_apt_conf) depth 16

    sources : (output : List ℕ) → Preserves Q (add_sources machine output)
    unfolding add_sources
    sources output = search (preserving, writes, not_sources) depth 16

    with_output :
        (output : Option (List ℕ))
        → Preserves Q (elim output as (λ _. Exec (Box O) Unit) [
          | none ↦ pure tt
          | some text ↦ add_sources machine text
        ])
    with_output none = Preserves-pure Q
    with_output (some text) = sources text

    backports_repo : Preserves Q (add_backports_repo machine)
    unfolding add_backports_repo
    backports_repo = search (preserving, unless, outputs, with_output) depth 16

    not_from_backports :
        (name : String) → Preserves Q (check_package_not_from_backports machine name)
    unfolding check_package_not_from_backports
    not_from_backports name = search (preserving, unless, outputs) depth 16

    pins : (firmware pipewire : Bool) → Preserves Q (pin_backports machine firmware pipewire)
    unfolding pin_backports
    pins firmware pipewire = search (preserving, writes, not_prefs) depth 16

    backports : (os : OsData) → Preserves Q (bookworm_backports machine os)
    unfolding bookworm_backports
    backports os = search (preserving, not_from_backports, backports_repo, pins) depth 16

    deltarpm : (os : OsData) → Preserves Q (disable_deltarpm machine dnf_conf_path os)
    unfolding disable_deltarpm edit_conf
    deltarpm os = search (preserving, writes, not_dnf_conf) depth 16

    label : (file : String) → Preserves Q (change_label machine file)
    unfolding change_label
    label file = search (preserving, outputs, calls) depth 16

    labels : (file : String) → Preserves Q (label_changed machine file)
    unfolding label_changed
    labels file = search (preserving, unless, call, label, calls) depth 16

    signals : Preserves Q (signal_writer machine)
    unfolding signal_writer
    signals = search (preserving, harmless.kill_harmless) depth 16

    meminfo : (os : OsData) → Preserves Q (fix_meminfo_writer_label machine os)
    unfolding fix_meminfo_writer_label
    meminfo os = search (preserving, labels, signals) depth 16

    macro :
        (requirements : Requirements) (os : OsData)
        → Preserves Q (manage_rpm_macro machine requirements os)
    unfolding manage_rpm_macro
    macro requirements os = search (preserving, writes, not_macro, removes) depth 16

    proxy : (os : OsData) → Preserves Q (updatesproxy_fix machine os)
    unfolding updatesproxy_fix
    proxy os = search (preserving, writes, not_rpc) depth 16

    pulseaudio : (os : OsData) → Preserves Q (pipewire_archlinux machine os)
    unfolding pipewire_archlinux remove_pulseaudio
    pulseaudio os = search (preserving, call, outputs, calls) depth 16

    key_renewal : (key : Text) (os : OsData) → Preserves Q (whonix17_key machine key os)
    unfolding whonix17_key renew_key
    key_renewal key os = search (preserving, outputs, writes, not_keyfile) depth 16

    all_plugins : (key : Text) (os : OsData) → Preserves Q (apply_plugins machine key os)
    unfolding apply_plugins
    all_plugins key os =
        search
          (
            preserving, release_info, backports, deltarpm, meminfo, macro, pulseaudio, proxy,
            key_renewal,
          )
          depth 16

    -- Whatever the system is, whether the agent is in an UpdateVM or not, and whether or not a
    -- plugin raises: a file that is none of the seven that the plugins write is left alone, if the
    -- commands that they run and the signals that they send leave it alone.
    pub plugins_write_own_files :
        (key : Text) (os : OsData) (t : AgentType) (box : Box O)
        → lookup path box.files ≡ content
        → lookup path (requirements_of machine key os t box).1.files ≡ content
    unfolding requirements_of
    plugins_write_own_files key os t box q =
        Preserves-state Q (requirements_of machine key os t)
          (Preserves-if Q (is_update_vm t) (Preserves-pure Q) (all_plugins key os)) box q
