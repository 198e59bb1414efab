-- ===== src/System.antt =====
-- The running system behind qubesadmin: which qubes run, and the calls that start and stop them.
-- It is a parameter: the programs call it, and every call that changes it is recorded.
use qubes_core_admin_linux.Exec.{Exec, Result}
use qubes_core_admin_linux.Prelude.{Bool, List, [], ◌∷◌, ◌++◌}
use qubes_core_admin_linux.Vm.{Vm}

pub record System : Type 1 where
  pub State : Type 0
  -- vm.is_running()
  pub is_running : State → Vm → Bool
  -- vm.shutdown(force=...)
  pub shutdown : State → Vm → Bool → Result (Unit {0}) × State
  -- vm.start()
  pub start : State → Vm → Result (Unit {0}) × State
  -- asyncio.run(wait_for_domain_shutdown(vms))
  pub wait_for_domain_shutdown : State → List Vm → State
  -- vm.derived_vms
  pub derived_vms : Vm → List Vm

pub data Call : Type 0 where
  stop_call : Vm → Call
  start_call : Vm → Call
  wait_call : List Vm → Call

module _ (sys : System) where
  pub record Machine : Type 0 where
    pub state : sys.State
    pub calls : List Call

  unfoldable pub call_shutdown : Vm → Bool → Exec Machine (Unit {0})
  call_shutdown vm force m =
      let (r, s) = sys.shutdown m.state vm force in
      (r, record { state = s; calls = m.calls ++ stop_call vm ∷ [] })

  unfoldable pub call_start : Vm → Exec Machine (Unit {0})
  call_start vm m =
      let (r, s) = sys.start m.state vm in
      (r, record { state = s; calls = m.calls ++ start_call vm ∷ [] })

  unfoldable pub call_wait : List Vm → Machine → Machine
  call_wait vms m = record {
    state = sys.wait_for_domain_shutdown m.state vms;
    calls = m.calls ++ wait_call vms ∷ [];
  }

  abbrev pub running : Machine → Vm → Bool
  running m vm = sys.is_running m.state vm
