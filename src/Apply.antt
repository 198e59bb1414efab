-- ===== src/Apply.antt =====
-- vmupdate/vmupdate.py: `apply_updates_to_appvm` and what it calls, with `shutdown_domains` of
-- vmupdate/utils.py. What is printed and logged is not modelled.
pub mod Codes
pub mod Calls
pub mod Invariant
pub mod Derived
use qubes_core_admin_linux.Args.{Args}
use qubes_core_admin_linux.Exec.{
  on_result, pure, catches_vm, ◌>>=◌, ◌>>?◌, key_error, lift, err, ok, Exec, Result,
}
use qubes_core_admin_linux.Exit.{err_shutdown_tmpl, err_shutdown_app, err_start_app, exit_ok}
use qubes_core_admin_linux.Prelude.{
  ℕ, max, nat_eq, ◌≡◌, Bool, true, false, not, String, Option, none, some, List, [], ◌∷◌, ◌++◌,
  filter, lookup, if◌then◌else◌, ◌&&◌, ◌||◌,
}
use qubes_core_admin_linux.Status.{is_success, FinalStatus}
use qubes_core_admin_linux.System.{call_shutdown, call_start, call_wait, running, Machine, System}
use qubes_core_admin_linux.Targets.Stale.{get_boolean_feature}
use qubes_core_admin_linux.Vm.{is_template, is_disp, update, Vm}

-- Statuses by the names of qubes.
abbrev pub Statuses : Type 0
Statuses = List (String × FinalStatus)

module _ (sys : System) where
  -- The loop of `shutdown_domains`, with `ret_code` and `wait_for`.
  unfoldable pub shutdown_loop : List Vm → ℕ → List Vm → Exec (Machine sys) (ℕ × List Vm)
  shutdown_loop [] code wait_for m = (ok (code, wait_for), m)
  shutdown_loop (vm ∷ vms) code wait_for m =
      let (r, m') = call_shutdown sys vm true m in
      on_result r (λ _. shutdown_loop vms code (wait_for ++ vm ∷ []) m')
        (λ e.
          let rest = shutdown_loop vms err_shutdown_app wait_for m' in
          if catches_vm e then rest else (err e, m'))

  unfoldable pub shutdown_domains : List Vm → Exec (Machine sys) (ℕ × List Vm)
  shutdown_domains vms m =
      let (r, m') = shutdown_loop vms exit_ok [] m in
      on_result r (λ done. (ok done, call_wait sys done.1 m')) (λ e. (err e, m'))

  -- The loop of `restart_vms` over the qubes that were shut down.
  unfoldable pub start_loop : List Vm → ℕ → Exec (Machine sys) ℕ
  start_loop [] code m = (ok code, m)
  start_loop (vm ∷ vms) code m =
      let (r, m') = call_start sys vm m in
      on_result r (λ _. start_loop vms code m')
        (λ e.
          let rest = start_loop vms err_start_app m' in if catches_vm e then rest else (err e, m'))

  unfoldable pub restart_vms : List Vm → Exec (Machine sys) ℕ
  restart_vms to_restart m =
      let (r, m') = shutdown_domains to_restart m in
      on_result r (λ done. start_loop done.1 done.0 m') (λ e. (err e, m'))

  -- `possibly_changed_vms`
  unfoldable pub possibly_changed : List Vm → List Vm
  possibly_changed [] = []
  possibly_changed (template ∷ templates) =
      update (sys.derived_vms template) (possibly_changed templates)

  -- bool(statuses.get(name, False))
  abbrev pub updated_now : Statuses → String → Bool
  updated_now statuses name = elim (lookup name statuses) [
    | none ↦ false
    | some status ↦ is_success status
  ]

  abbrev pub to_apply : Statuses → Machine sys → Vm → Bool
  to_apply statuses m vm =
      not (updated_now statuses vm.name)
      && (running sys m vm && (not (is_disp vm.klass) || not vm.auto_cleanup))

  -- The second loop of `get_derived_vm_to_apply`, with the pair of sets to restart and to shut down.
  unfoldable pub sort_derived : Statuses → Machine sys → List Vm → Result (List Vm × List Vm)
  sort_derived statuses m [] = ok ([], [])
  sort_derived statuses m (vm ∷ vms) =
      let rest = sort_derived statuses m vms in
      if to_apply statuses m vm
      then (get_boolean_feature vm "servicevm" false >>? λ service. rest >>? λ sorted.
          ok (if service then (vm ∷ sorted.0, sorted.1) else (sorted.0, vm ∷ sorted.1)))
      else rest

  unfoldable pub get_derived_vm_to_apply :
      List Vm → Statuses → Machine sys → Result (List Vm × List Vm)
  get_derived_vm_to_apply templates statuses m =
      sort_derived statuses m (possibly_changed templates)

  -- `updated_tmpls`. A status that is missing is a `KeyError`.
  unfoldable pub updated_templates : Statuses → List Vm → Result (List Vm)
  updated_templates statuses [] = ok []
  updated_templates statuses (vm ∷ vms) =
      let rest = updated_templates statuses vms in
      elim (lookup vm.name statuses) [
        | none ↦ err (key_error vm.name)
        | some status ↦ rest >>? λ tmpls.
            ok (if is_success status && is_template vm.klass then vm ∷ tmpls else tmpls)
      ]

  -- The part after the templates: `restart_vms` and, with `--apply-to-all`, the shutdown of the rest.
  unfoldable pub apply_to_derived : Bool → ℕ → List Vm × List Vm → Exec (Machine sys) ℕ
  apply_to_derived all code (to_restart, to_shutdown) = restart_vms to_restart >>= λ restarted.
      let code' = max code restarted in
      let stop_rest = shutdown_domains to_shutdown >>= λ stopped. pure (max code' stopped.0) in
      if all then stop_rest else pure code'

  -- From the shutdown of the templates on. If it fails for some, only the derived qubes of those
  -- that are down are taken.
  unfoldable pub apply_running :
      Bool → List Vm → Statuses → List Vm × List Vm → Exec (Machine sys) ℕ
  apply_running all updated_tmpls derived_statuses groups m =
      let (r, m') = shutdown_domains (filter (running sys m) updated_tmpls) m in
      let ready = filter (λ t. not (running sys m' t)) updated_tmpls in
      let failed =
        on_result (get_derived_vm_to_apply ready derived_statuses m')
          (λ left. apply_to_derived all err_shutdown_tmpl left m') (λ e. (err e, m')) in
      on_result r
        (λ done. if nat_eq done.0 exit_ok then apply_to_derived all exit_ok groups m' else failed)
        (λ e. (err e, m'))

  unfoldable pub apply_updates_to_appvm :
      Args → List Vm → Statuses → Statuses → Exec (Machine sys) ℕ
  apply_updates_to_appvm args vm_updated template_statuses derived_statuses m =
      if not args.apply_to_sys && not args.apply_to_all
      then (ok exit_ok, m)
      else on_result (updated_templates template_statuses vm_updated)
          (λ tmpls.
            on_result (get_derived_vm_to_apply tmpls derived_statuses m)
              (λ groups.
                if args.dry_run
                then (ok exit_ok, m)
                else apply_running args.apply_to_all tmpls derived_statuses groups m)
              (λ e. (err e, m)))
          (λ e. (err e, m))
