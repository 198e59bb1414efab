-- ===== src/Plugins/All/Idle.antt =====
-- Systems that no plugin is for.
use qubes_core_admin_linux.Entrypoint.{OsData}
use qubes_core_admin_linux.Exec.{ok, Exec}
use qubes_core_admin_linux.Package.{Requirements}
use qubes_core_admin_linux.Plugins.{
  exists_file, has_codename, Box, is_arch_linux, is_red_hat, PluginHost,
}
use qubes_core_admin_linux.Plugins.All.{dnf_conf_path, apply_plugins}
use qubes_core_admin_linux.Plugins.Debian.{
  allow_release_info_change, bookworm_backports, whonix17_key,
}
use qubes_core_admin_linux.Plugins.Deltarpm.{disable_deltarpm}
use qubes_core_admin_linux.Plugins.Fedora.{
  rpc_filename, fix_meminfo_writer_label, manage_rpm_macro, pipewire_archlinux, updatesproxy_fix,
}
use qubes_core_admin_linux.Prelude.{◌==◌, Text, ◌≡◌, refl, ap, Bool, false, ◌&&◌, [], if◌then◌else◌}

-- A system of neither family, that is no Fedora, buster or bookworm
pub record Plain (os : OsData) : Type 0 where
  pub no_red_hat : is_red_hat os.os_family ≡ false
  pub no_arch_linux : is_arch_linux os.os_family ≡ false
  pub no_fedora : (os.id == "fedora") ≡ false
  pub no_buster : has_codename "buster" os ≡ false
  pub no_bookworm : has_codename "bookworm" os ≡ false

module _ {O : Type 0} (machine : PluginHost O) (key : Text) (os : OsData) (plain : Plain os) where
  -- Under a test that fails
  if_not :
      {A : Type 0} {b : Bool} (m n : Exec (Box O) A) (box : Box O)
      → b ≡ false
      → (if b then m else n) box ≡ n box
  if_not m n box e = ap (λ b. (if b then m else n) box) e

  release_info_idle : (box : Box O) → allow_release_info_change machine os box ≡ (ok tt, box)
  unfolding allow_release_info_change
  release_info_idle box = if_not _ _ box plain.no_buster

  backports_idle : (box : Box O) → bookworm_backports machine os box ≡ (ok tt, box)
  unfolding bookworm_backports
  backports_idle box = if_not _ _ box plain.no_bookworm

  deltarpm_idle : (box : Box O) → disable_deltarpm machine dnf_conf_path os box ≡ (ok tt, box)
  unfolding disable_deltarpm
  deltarpm_idle box = if_not _ _ box plain.no_red_hat

  meminfo_idle : (box : Box O) → fix_meminfo_writer_label machine os box ≡ (ok tt, box)
  unfolding fix_meminfo_writer_label
  meminfo_idle box =
      if_not _ _ box (ap (λ b. b && exists_file "/usr/sbin/selinuxenabled" box) plain.no_fedora)

  macro_idle :
      (requirements : Requirements) (box : Box O)
      → manage_rpm_macro machine requirements os box ≡ (ok requirements, box)
  unfolding manage_rpm_macro
  macro_idle requirements box = rw plain.no_red_hat refl

  pipewire_idle : (box : Box O) → pipewire_archlinux machine os box ≡ (ok tt, box)
  unfolding pipewire_archlinux
  pipewire_idle box = if_not _ _ box plain.no_arch_linux

  proxy_idle : (box : Box O) → updatesproxy_fix machine os box ≡ (ok tt, box)
  unfolding updatesproxy_fix
  proxy_idle box = if_not _ _ box (ap (λ b. b && exists_file rpc_filename box) plain.no_red_hat)

  key_idle : (box : Box O) → whonix17_key machine key os box ≡ (ok tt, box)
  unfolding whonix17_key
  key_idle box = rw plain.no_bookworm refl

  -- On a system of neither the RedHat nor the Arch family, whose id is not fedora and whose
  -- codename is neither buster nor bookworm, the plugins succeed without a change to the system
  -- and ask for no requirements.
  pub plugins_idle : (box : Box O) → apply_plugins machine key os box ≡ (ok [], box)
  unfolding apply_plugins
  plugins_idle box =
      rw
        (
          release_info_idle box,
          backports_idle box,
          deltarpm_idle box,
          meminfo_idle box,
          macro_idle [] box,
          pipewire_idle box,
          proxy_idle box,
          key_idle box,
        )
        refl
