-- ===== src/Apply/Calls.antt =====
-- Which qubes `apply_updates_to_appvm` stops and starts.
use qubes_core_admin_linux.Apply.{
  apply_running, apply_updates_to_appvm, get_derived_vm_to_apply, updated_templates, updated_now,
  Statuses, possibly_changed, shutdown_domains,
}
use qubes_core_admin_linux.Apply.Derived.{
  sort_derived_stop, possibly_changed-In, sort_derived_restart, updated_templates-In,
}
use qubes_core_admin_linux.Apply.Invariant.{apply_to_derived-Saw, shutdown_domains-Saw}
use qubes_core_admin_linux.Args.{Args}
use qubes_core_admin_linux.Exec.{Result, on_result_ind, ok}
use qubes_core_admin_linux.Exit.{err_shutdown_tmpl, exit_ok}
use qubes_core_admin_linux.Prelude.{
  nat_eq, In-filter_from, not, filter, if_ind, ℕ, ◌≡◌, ◌⊎◌, inl, inr, Bool, true, false, List, In,
  All, ◌&&◌,
}
use qubes_core_admin_linux.System.{running, start_call, stop_call, Machine, wait_call, Call, System}
use qubes_core_admin_linux.Targets.Stale.{get_boolean_feature}
use qubes_core_admin_linux.Vm.{is_template, is_disp, Vm}

-- What a run of `apply_updates_to_appvm` may do, given the qubes that were updated before with
-- their statuses, and the statuses of the derived qubes.
module _ (sys : System) (every : Bool) (vms : List Vm) (ts ds : Statuses) where
  -- A template among the updated qubes whose update succeeded.
  abbrev pub UpdatedTemplate : Vm → Type 0
  UpdatedTemplate t = In t vms × (updated_now sys ts t.name ≡ true) × (is_template t.klass ≡ true)

  -- A qube derived from such a template that was not itself updated, and is not a disposable that
  -- cleans up after itself.
  abbrev pub Outdated : Vm → Type 0
  Outdated v =
      ((t : Vm) × UpdatedTemplate t × In v (sys.derived_vms t))
      × (updated_now sys ds v.name ≡ false)
      × ((is_disp v.klass && v.auto_cleanup) ≡ false)

  abbrev pub Allowed : Call → Type 0
  Allowed (stop_call v) =
      UpdatedTemplate v
      ⊎ (Outdated v × ((get_boolean_feature v "servicevm" false ≡ ok true) ⊎ (every ≡ true)))
  Allowed (start_call v) = Outdated v × (get_boolean_feature v "servicevm" false ≡ ok true)
  Allowed (wait_call _) = Unit

  abbrev Groups : List Vm × List Vm → Type 0
  Groups groups =
      ((v : Vm) → In v groups.0 → Allowed (stop_call v) × Allowed (start_call v))
      × ((v : Vm) → In v groups.1 → every ≡ true → Allowed (stop_call v))

  derived-Groups :
      (tmpls : List Vm) (m : Machine sys) (groups : List Vm × List Vm)
      → ((t : Vm) → In t tmpls → UpdatedTemplate t)
      → get_derived_vm_to_apply sys tmpls ds m ≡ ok groups
      → Groups groups
  unfolding get_derived_vm_to_apply
  derived-Groups tmpls m (xs, ys) sub e =
      let all_derived = possibly_changed sys tmpls in
      (
        λ v i.
            let (j, n, c, s) = sort_derived_restart sys ds m v all_derived xs ys e i in
            let (t, k, l) = possibly_changed-In sys v tmpls j in
            let outdated : Outdated v = ((t, sub t k, l), n, c) in
            (inr (outdated, inl s), (outdated, s)),
        λ v i on.
            let (j, n, c, s) = sort_derived_stop sys ds m v all_derived xs ys e i in
            let (t, k, l) = possibly_changed-In sys v tmpls j in
            inr (((t, sub t k, l), n, c), inr on),
      )

  apply_running-calls :
      (tmpls : List Vm) (groups : List Vm × List Vm) (m : Machine sys)
      → ((t : Vm) → In t tmpls → UpdatedTemplate t)
      → Groups groups
      → All Allowed m.calls
      → All Allowed (apply_running sys every tmpls ds groups m).1.calls
  unfolding apply_running
  apply_running-calls tmpls groups m sub g h =
      let down = filter (running sys m) tmpls in
      let r = shutdown_domains sys down m in
      let h' =
        shutdown_domains-Saw sys Allowed (λ _. tt) down m h
          (λ v i. inl (sub v (In-filter_from (running sys m) v tmpls i).0)) in
      let Kept = λ (q : Result ℕ × Machine sys). All Allowed q.1.calls in
      let ready = filter (λ t. not (running sys r.1 t)) tmpls in
      let ready_sub = λ (t : Vm) (i : In t ready).
        sub t (In-filter_from (λ u. not (running sys r.1 u)) t tmpls i).0 in
      on_result_ind Kept r.0
        (λ done e.
          if_ind Kept (nat_eq done.0 exit_ok)
            (apply_to_derived-Saw sys Allowed (λ _. tt) every exit_ok groups r.1 h' g.0 g.1)
            (on_result_ind Kept (get_derived_vm_to_apply sys ready ds r.1)
              (λ left e'.
                let g' = derived-Groups ready r.1 left ready_sub e' in
                apply_to_derived-Saw sys Allowed (λ _. tt) every err_shutdown_tmpl left r.1 h' g'.0
                  g'.1)
              (λ x e'. h')))
        (λ x e. h')

-- Every qube that `apply_updates_to_appvm` stops is a successfully updated template, or is derived
-- from one, was not itself updated, is no self-cleaning disposable, and is a service qube unless
-- `--apply-to-all` was given. Every qube that it starts is such a service qube. This holds on
-- every path, the raising ones included.
pub apply_updates_to_appvm-calls :
    (sys : System) (args : Args) (vms : List Vm) (ts ds : Statuses) (m : Machine sys)
    → All (Allowed sys args.apply_to_all vms ts ds) m.calls
    → All
        (Allowed sys args.apply_to_all vms ts ds)
        (apply_updates_to_appvm sys args vms ts ds m).1.calls
unfolding apply_updates_to_appvm
apply_updates_to_appvm-calls sys args vms ts ds m h =
    let Kept =
      λ (q : Result ℕ × Machine sys). All (Allowed sys args.apply_to_all vms ts ds) q.1.calls in
    if_ind Kept (not args.apply_to_sys && not args.apply_to_all) h (
      on_result_ind Kept (updated_templates sys ts vms)
        (λ tmpls e.
          let sub = λ (t : Vm) (i : In t tmpls). updated_templates-In sys ts t vms tmpls e i in
          on_result_ind Kept (get_derived_vm_to_apply sys tmpls ds m)
            (λ groups e'. if_ind Kept args.dry_run h (
              apply_running-calls sys args.apply_to_all vms ts ds tmpls groups m sub
                (derived-Groups sys args.apply_to_all vms ts ds tmpls m groups sub e') h))
            (λ x e'. h))
        (λ x e. h))
