-- ===== src/Tests/Samples.antt =====
-- Qubes, systems and options for the tests.
use qubes_core_admin_linux.Args.{AgentArgs, Args}
use qubes_core_admin_linux.Exec.{ok}
use qubes_core_admin_linux.Prelude.{
  some, ◌==◌, ℕ, suc, true, false, not, String, none, List, [], ◌∷◌, if◌then◌else◌,
}
use qubes_core_admin_linux.System.{Machine, System}
use qubes_core_admin_linux.Targets.Stale.{Clock}
use qubes_core_admin_linux.Vm.{is_disp, is_template, Klass, Vm, app_vm, template_vm}

-- A qube with one feature set.
abbrev pub qube : String → Klass → String → Vm
qube name klass set = record {
  name = name;
  klass = klass;
  updateable = is_template klass;
  running = not (is_template klass);
  auto_cleanup = is_disp klass;
  feature_keys = ok ("qrexec" ∷ "os" ∷ []);
  feature = λ f. ok (if f == set then some "1" else none);
  template_feature = λ _. ok none;
}

abbrev pub fedora : Vm
fedora = qube "fedora" template_vm "updates-available"

abbrev pub debian_template : Vm
debian_template = qube "debian" template_vm "skip-update"

abbrev pub sys_net : Vm
sys_net = qube "sys-net" app_vm "servicevm"

abbrev pub domains : List Vm
domains = fedora ∷ debian_template ∷ sys_net ∷ []

abbrev pub agent_args : AgentArgs
agent_args = record {
  log = "INFO";
  no_refresh = false;
  force_upgrade = false;
  no_cleanup = false;
  leave_obsolete = false;
  download_only = false;
  show_output = false;
  quiet = false;
  no_progress = false;
  just_print_progress = false;
}

abbrev pub templates_args : Args
templates_args = record {
  agent = agent_args;
  max_concurrency = none;
  dry_run = false;
  signal_no_updates = true;
  apply_to_sys = false;
  apply_to_all = false;
  force_update = false;
  update_if_stale = 7;
  update_if_available = true;
  skip = "";
  targets = none;
  templates = true;
  standalones = false;
  apps = false;
  all_targets = false;
  display_name = none;
}

abbrev pub clock : Clock
clock = record { today = 1000; fromisoformat = λ _. ok 0; epoch = "1970-01-01 00:00:00" }

-- A system whose state counts the calls, and that refuses none of them.
abbrev pub system : System
system = record {
  State = ℕ;
  is_running = λ s v. v.running;
  shutdown = λ s v force. (ok tt, suc s);
  start = λ s v. (ok tt, suc s);
  wait_for_domain_shutdown = λ s vms. s;
  derived_vms = λ v. if v.name == "fedora" then sys_net ∷ [] else [];
}

abbrev pub machine : Machine system
machine = record { state = 0; calls = [] }
