-- ===== src/Plugins/All.antt =====
-- The plugins in the order of vmupdate/agent/source/plugins/__init__.py, which is that of their names,
-- as `get_package_manager` of vmupdate/agent/entrypoint.py runs them.
pub mod Frame
pub mod Files
pub mod Idle
pub mod Backports
use qubes_core_admin_linux.Entrypoint.{agent_type_of, OsData}
use qubes_core_admin_linux.Exec.{◌>>=◌, pure, ◌>>◌, Exec}
use qubes_core_admin_linux.Package.{is_update_vm, Requirements, AgentType}
use qubes_core_admin_linux.Plugins.{Box, PluginHost}
use qubes_core_admin_linux.Plugins.Debian.{
  whonix17_key, bookworm_backports, allow_release_info_change,
}
use qubes_core_admin_linux.Plugins.Deltarpm.{disable_deltarpm}
use qubes_core_admin_linux.Plugins.Fedora.{
  updatesproxy_fix, pipewire_archlinux, manage_rpm_macro, fix_meminfo_writer_label,
}
use qubes_core_admin_linux.Prelude.{
  Text, ℕ, zero, suc, ◌+◌, ◌-◌, ◌≤◌, ◌<◌, max, ◌≡◌, ◌≢◌, refl, sym, ap, ◌∙◌, ◌↔◌, ◌⊎◌, inl, inr,
  Bool, true, false, not, ◌&&◌, ◌||◌, String, ◌<>◌, Option, none, some, List, [], ◌∷◌, ◌++◌,
  if◌then◌else◌, arith,
}

abbrev pub dnf_conf_path : String
dnf_conf_path = "/etc/dnf/dnf.conf"

module _ {O : Type 0} (machine : PluginHost O) (key : Text) where
  -- `for plugin in plugins.entrypoints`: the requirements that they leave
  unfoldable pub apply_plugins : OsData → Exec (Box O) Requirements
  apply_plugins os =
      allow_release_info_change machine os
      >> bookworm_backports machine os
      >> disable_deltarpm machine dnf_conf_path os
      >> fix_meminfo_writer_label machine os
      >> manage_rpm_macro machine [] os
      >>= λ requirements.
          pipewire_archlinux machine os
          >> updatesproxy_fix machine os
          >> whonix17_key machine key os
          >> pure requirements

  -- The requirements of the package manager; an UpdateVM has no plugins.
  unfoldable pub requirements_of : OsData → AgentType → Exec (Box O) Requirements
  requirements_of os agent_type = if is_update_vm agent_type then pure [] else apply_plugins os
