-- ===== src/Tests/Plugins.antt =====
-- The plugins, run on small systems.
use qubes_core_admin_linux.Entrypoint.{red_hat, OsData, unknown_family, Family}
use qubes_core_admin_linux.Exec.{os_error, err, ok}
use qubes_core_admin_linux.Package.{vm_agent}
use qubes_core_admin_linux.Package.Cli.{starts}
use qubes_core_admin_linux.Plugins.{
  write_opened, write_file, writelines, put_first, universal_newlines, Box, in_text, readlines,
  PluginHost, read_file, same_text, splitlines,
}
use qubes_core_admin_linux.Plugins.All.{dnf_conf_path, requirements_of, apply_plugins}
use qubes_core_admin_linux.Plugins.All.Backports.{enables, backports_added_once}
use qubes_core_admin_linux.Plugins.All.Files.{plugins_write_own_files}
use qubes_core_admin_linux.Plugins.All.Frame.{plugin_files, Harmless}
use qubes_core_admin_linux.Plugins.All.Idle.{plugins_idle, Plain}
use qubes_core_admin_linux.Plugins.Debian.{add_sources}
use qubes_core_admin_linux.Plugins.Deltarpm.{
  position, index_line, block_end, without_deltarpm, block_begin, edit_conf, disable_deltarpm,
}
use qubes_core_admin_linux.Plugins.Deltarpm.Block.{block_off}
use qubes_core_admin_linux.Plugins.Deltarpm.Laws.{
  OnlyCut, disable_deltarpm_block, with_block, Configured, disable_deltarpm_raised, OneBlock,
}
use qubes_core_admin_linux.Prelude.{
  any, insert, codes, Text, contains, lookup, ℕ, suc, ◌≡◌, refl, true, false, String, none, some,
  List, [], ◌∷◌, ◌++◌,
}
use qubes_core_admin_linux.Prelude.Int.{pos}

abbrev os_of : String → Family → OsData
os_of name family = record {
  id = name;
  name = name;
  release = some "41";
  codename = none;
  os_family = family;
}

-- A system on which every command succeeds with this output
abbrev host_with : List ℕ → PluginHost ℕ
host_with output = record {
  run_command = λ command box. (ok (0, output), record box { outside = suc box.outside });
  kill = λ pid box. (ok tt, box);
  opens = λ path box. ok tt;
  write_fails = λ path content box. none;
  removes = λ path box. ok tt;
  decode = λ b. ok b;
  int_of = λ t. some (pos 41);
}

abbrev dnf_conf : Text
dnf_conf =
    codes "[main]"
    ++ 10 ∷ block_begin
    ++ codes "deltarpm=True"
    ++ 10 ∷ codes "proxy=x"
    ++ 10 ∷ block_end

abbrev main_line : Text
main_line = codes "[main]" ++ 10 ∷ []

abbrev proxy_line : Text
proxy_line = codes "proxy=x" ++ 10 ∷ []

abbrev true_line : Text
true_line = codes "deltarpm=True" ++ 10 ∷ []

abbrev box_with : Text → Box ℕ
box_with content = record { files = (dnf_conf_path, content) ∷ []; outside = 0 }

conf_one : OneBlock (main_line ∷ []) (true_line ∷ proxy_line ∷ [])
unfolding same_text
conf_one = (refl, refl)

old_conf-Configured :
    Configured
      (host_with [])
      dnf_conf_path
      (os_of "fedora" red_hat)
      (box_with dnf_conf)
      dnf_conf
      (with_block (main_line ∷ []) (true_line ∷ proxy_line ∷ []) [])
unfolding read_file readlines universal_newlines lookup put_first
old_conf-Configured = record {
  red_hat_os = refl;
  reads = refl;
  has_lines = refl;
  may_write = refl;
  whole = λ content. refl;
}

disable_deltarpm_block_example :
    disable_deltarpm (host_with []) dnf_conf_path (os_of "fedora" red_hat) (box_with dnf_conf) ≡ (
      ok tt,
      record (box_with dnf_conf) {
        files =
            insert dnf_conf_path
              (writelines
                (with_block (main_line ∷ []) (block_off (true_line ∷ proxy_line ∷ [])) []))
              (box_with dnf_conf).files;
      },
    )
disable_deltarpm_block_example =
    disable_deltarpm_block (host_with []) dnf_conf_path (os_of "fedora" red_hat) (box_with dnf_conf)
      dnf_conf (main_line ∷ []) (true_line ∷ proxy_line ∷ []) [] conf_one old_conf-Configured

-- A system whose disk is full
abbrev full_host : PluginHost ℕ
full_host = record (host_with []) { write_fails = λ path content box. some (os_error path, []) }

cut_lem :
    (disable_deltarpm full_host dnf_conf_path (os_of "fedora" red_hat) (box_with dnf_conf)).0
    ≡ err (os_error dnf_conf_path)
unfolding disable_deltarpm edit_conf read_file readlines universal_newlines lookup put_first
    without_deltarpm index_line position same_text write_file write_opened
cut_lem = refl

disable_deltarpm_raised_example :
    OnlyCut full_host dnf_conf_path
      (box_with dnf_conf)
      (os_error dnf_conf_path)
      (disable_deltarpm full_host dnf_conf_path (os_of "fedora" red_hat) (box_with dnf_conf)).1
disable_deltarpm_raised_example =
    disable_deltarpm_raised full_host dnf_conf_path (os_of "fedora" red_hat) (box_with dnf_conf)
      (os_error dnf_conf_path) cut_lem

harmless_host : Harmless (host_with []) "/etc/passwd" none
harmless_host = record {
  command_harmless = λ command. record { keeps = λ box q. q };
  kill_harmless = λ pid. record { keeps = λ box q. q };
}

other_lem : contains plugin_files "/etc/passwd" ≡ false
unfolding contains
other_lem = refl

absent_lem : lookup "/etc/passwd" (box_with dnf_conf).files ≡ none
unfolding lookup
absent_lem = refl

plugins_write_own_files_example :
    lookup "/etc/passwd"
      (requirements_of
        (host_with [])
        []
        (os_of "fedora" red_hat)
        vm_agent
        (box_with dnf_conf)).1.files
    ≡ none
plugins_write_own_files_example =
    plugins_write_own_files (host_with []) "/etc/passwd" none harmless_host other_lem []
      (os_of "fedora" red_hat) vm_agent (box_with dnf_conf) absent_lem

gentoo-Plain : Plain (os_of "gentoo" unknown_family)
gentoo-Plain = record {
  no_red_hat = refl;
  no_arch_linux = refl;
  no_fedora = refl;
  no_buster = refl;
  no_bookworm = refl;
}

plugins_idle_example :
    apply_plugins (host_with []) [] (os_of "gentoo" unknown_family) (box_with dnf_conf)
    ≡ (ok [], box_with dnf_conf)
plugins_idle_example =
    plugins_idle (host_with []) [] (os_of "gentoo" unknown_family) gentoo-Plain (box_with dnf_conf)

abbrev backports_output : Text
backports_output =
    codes "'http://deb.debian.org/debian/dists/bookworm/InRelease' a"
    ++ 10 ∷ codes "'http://deb.debian.org/debian/dists/bookworm-backports/InRelease' b"

enabled_lem : any enables (splitlines backports_output) ≡ true
unfolding splitlines in_text put_first starts
enabled_lem = refl

backports_added_once_example :
    (add_sources (host_with backports_output) backports_output (box_with dnf_conf)).1
    ≡ box_with dnf_conf
backports_added_once_example =
    backports_added_once (host_with backports_output) backports_output (box_with dnf_conf)
      backports_output refl enabled_lem
