-- ===== src/Plugins/Fedora.antt =====
-- The plugins for Fedora, RedHat and Arch: fix_meminfo_writer_label.py, manage_rpm_macro.py,
-- updatesproxy_fix.py and pipewire_archlinux.py of vmupdate/agent/source/plugins.
use qubes_core_admin_linux.Entrypoint.{OsData}
use qubes_core_admin_linux.Exec.{
  raise, is_os_error, ok, key_error, value_error, err, Result, ◌>>◌, pure, ◌>>?◌, lift, ◌>>=◌, gets,
  try_except, Exec,
}
use qubes_core_admin_linux.Package.{Requirements}
use qubes_core_admin_linux.Plugins.{
  is_value_error, remove_file, splitlines, universal_newlines, write_file, check_call, in_text,
  is_red_hat, call_command, exists_file, read_file, check_output, is_arch_linux, Box, PluginHost,
}
use qubes_core_admin_linux.Plugins.Debian.{is_space, strip_chars, unless_called}
use qubes_core_admin_linux.Prelude.{
  any, nat_eq, ◌==◌, codes, insert, split, Text, Bool, true, false, not, ◌&&◌, ◌||◌, String, Option,
  none, some, [], ◌∷◌, ◌++◌, if◌then◌else◌,
}
use qubes_core_admin_linux.Prelude.Int.{ℤ, pos, ltb_ℤ}

abbrev pub rpm_macro : String
rpm_macro = "/usr/lib/rpm/macros.d/macros.qubes"

abbrev pub rpc_filename : String
rpc_filename = "/etc/qubes-rpc/qubes.UpdatesProxy"

abbrev pub pid_file : String
pid_file = "/run/meminfo-writer.pid"

abbrev pub expected_label : String
expected_label = "qubes_meminfo_writer_exec_t"

-- `version`, by Python's `int`: 99 if it is no number
unfoldable pub fedora_version : (Text → Option ℤ) → String → ℤ
fedora_version int release = elim (split 46 release) [
  | [] ↦ pos 99
  | major ∷ _ ↦ elim (int (codes major)) [ none ↦ pos 99 | some v ↦ v ]
]

-- What is given to `requirements.update`
abbrev pub old_requirements : Requirements → Requirements
old_requirements r = insert "rpm" (codes "4.14.2") (insert "dnf" (codes "4.7.0") r)

module _ {O : Type 0} (machine : PluginHost O) where
  -- The label of meminfo-writer, with whether it changed
  unfoldable pub change_label : String → Exec (Box O) Bool
  change_label path = check_output machine ("ls" ∷ "-Z" ∷ path ∷ []) >>= λ output.
      lift (machine.decode output) >>= λ text.
      if in_text (codes expected_label) (universal_newlines text)
      then pure false
      else check_call machine ("chcon" ∷ "-t" ∷ expected_label ∷ path ∷ []) >> pure true

  -- The first `try` of the plugin: what `label_changed` is after it
  unfoldable pub label_changed : String → Exec (Box O) Bool
  label_changed path = unless_called machine false (
      call_command machine ("/usr/sbin/selinuxenabled" ∷ []) >>= λ code.
      if nat_eq code 0
      then (change_label path >>= λ changed.
          unless_called machine changed
            (check_call machine ("setenforce" ∷ "0" ∷ []) >> pure changed))
      else pure false)

  -- The second `try`
  unfoldable pub signal_writer : Exec (Box O) Unit
  signal_writer =
      try_except
        (gets (read_file pid_file) >>= λ content.
          lift (
            content >>? λ text. elim (machine.int_of (strip_chars is_space text)) [
              | none ↦ err value_error
              | some pid ↦ ok pid
            ])
          >>= machine.kill)
        (λ e. if is_os_error e || is_value_error e then pure tt else raise e)

  -- `fix_meminfo_writer_label`
  unfoldable pub fix_meminfo_writer_label : OsData → Exec (Box O) Unit
  fix_meminfo_writer_label os = gets (exists_file "/usr/sbin/selinuxenabled") >>= λ selinux.
      gets (exists_file "/usr/bin/meminfo-writer") >>= λ in_bin.
      if os.id == "fedora" && selinux
      then (label_changed (if in_bin then "/usr/bin/meminfo-writer" else "/usr/sbin/meminfo-writer")
          >>= λ changed. if changed then signal_writer else pure tt)
      else pure tt

  -- `manage_rpm_macro`, with the requirements that it leaves
  unfoldable pub manage_rpm_macro : Requirements → OsData → Exec (Box O) Requirements
  manage_rpm_macro requirements os = gets (exists_file rpm_macro) >>= λ present.
      if not (is_red_hat os.os_family)
      then pure requirements
      else if os.id == "fedora"
      then (lift (elim os.release as (λ _. Result String) [
        | none ↦ err (key_error "release")
        | some v ↦ ok v
      ])
          >>= λ release.
              if ltb_ℤ (fedora_version machine.int_of release) (pos 33)
              then (write_file machine rpm_macro
                    (codes "# CVE-2021-20271 mitigation" ++ 10 ∷ codes "%_pkgverify_level all")
                  >> pure requirements)
              else pure requirements)
      else ((if present then remove_file machine rpm_macro else pure tt)
          >> pure (old_requirements requirements))

  -- `updatesproxy_fix`
  unfoldable pub updatesproxy_fix : OsData → Exec (Box O) Unit
  updatesproxy_fix os = gets (exists_file rpc_filename) >>= λ present.
      if is_red_hat os.os_family && present
      then (gets (read_file rpc_filename) >>= λ content. lift content >>= λ text.
          if in_text (codes "STDIO TCP:localhost:8082") text
          then write_file machine rpc_filename
              (codes "exec socat STDIO TCP4:127.0.0.1:8082" ++ 10 ∷ [])
          else pure tt)
      else pure tt

  -- The end of `pipewire_archlinux`, when pulseaudio is installed
  unfoldable pub remove_pulseaudio : Exec (Box O) Unit
  remove_pulseaudio = check_output machine ("pacman" ∷ "-Syup" ∷ []) >>= λ output.
      lift (machine.decode output) >>= λ text.
      if any (in_text (codes "/pipewire-pulse-")) (splitlines text)
      then check_call machine ("pacman" ∷ "-Rdd" ∷ "--noconfirm" ∷ "pulseaudio" ∷ [])
      else pure tt

  -- `pipewire_archlinux`
  unfoldable pub pipewire_archlinux : OsData → Exec (Box O) Unit
  pipewire_archlinux os =
      if is_arch_linux os.os_family
      then (call_command machine ("pacman" ∷ "-Q" ∷ "pulseaudio" ∷ []) >>= λ p.
          if nat_eq p 0 then remove_pulseaudio else pure tt)
      else pure tt
