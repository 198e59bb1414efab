-- ===== src/Targets.antt =====
-- vmupdate/vmupdate.py: which qubes are updated. `preselect_targets` and `select_targets`.
pub mod Stale
pub mod Preselect
pub mod Members
pub mod Explicit
pub mod Select
use Preselect.{preselect_targets}
use Stale.{Clock, is_stale}
use qubes_core_admin_linux.Args.{Args, no_targets}
use qubes_core_admin_linux.Exec.{
  Result, ok, err, argument_error, recover, ◌>>?◌, catches_communication,
}
use qubes_core_admin_linux.Prelude.{
  ℕ, Bool, true, false, not, String, ◌<>◌, Option, none, some, List, [], ◌∷◌, ◌++◌, filter, truthy,
  split, contains, length, nat_eq, if◌then◌else◌, ◌&&◌, ◌||◌, ◌==◌,
}
use qubes_core_admin_linux.Vm.{Vm, Klass, get_truth, feature_truth}

-- A feature read under `except QubesDaemonCommunicationError`, with `False` in its place.
unfoldable pub read_flag : Vm → String → Result Bool
read_flag vm name = recover catches_communication false (get_truth vm name)

-- The body of the loop of `select_targets`: whether the qube is added to `selected`.
unfoldable pub qualifies : Clock → Args → Vm → Result Bool
unfolding read_flag
qualifies clock args vm = read_flag vm "updates-available" >>? λ to_update.
    read_flag vm "prohibit-start" >>? λ prohibit_start.
    read_flag vm "skip-update" >>? λ skip_update.
    if skip_update || prohibit_start
    then ok false
    else if to_update
    then ok true
    else if args.update_if_available
    then ok false
    else is_stale clock vm args.update_if_stale

unfoldable pub select_loop : Clock → Args → List Vm → Result (List Vm)
select_loop clock args [] = ok []
select_loop clock args (vm ∷ vms) = qualifies clock args vm >>? λ chosen.
    select_loop clock args vms >>? λ rest. ok (if chosen then vm ∷ rest else rest)

-- What is printed about skipped qubes is not modelled.
unfoldable pub select_targets : Clock → Args → List Vm → Result (List Vm)
select_targets clock args targets =
    if args.force_update then ok targets else select_loop clock args targets

unfoldable pub get_targets : Clock → Args → List Vm → Result (List Vm)
get_targets clock args domains = preselect_targets args domains >>? select_targets clock args
