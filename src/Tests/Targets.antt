-- ===== src/Tests/Targets.antt =====
-- The selection of targets, run.
use qubes_core_admin_linux.Args.{Args}
use qubes_core_admin_linux.Exec.{ok}
use qubes_core_admin_linux.Prelude.{
  inl, In, contains, split, ◌≡◌, refl, ◌↔◌, ◌⊎◌, true, false, ◌||◌, some, [], ◌∷◌,
}
use qubes_core_admin_linux.Targets.{select_loop, qualifies, read_flag, select_targets}
use qubes_core_admin_linux.Targets.Explicit.{add_explicit-known}
use qubes_core_admin_linux.Targets.Members.{
  preselect_targets_exact, preselect_targets_explicit, named_by_flags,
}
use qubes_core_admin_linux.Targets.Preselect.{
  class_targets, drop_skip_update, implicit_targets, not_skipped, add_explicit, preselect_targets,
}
use qubes_core_admin_linux.Targets.Select.{select_targets_by_features, select_targets-skip_update}
use qubes_core_admin_linux.Targets.Stale.{older_than, is_stale}
use qubes_core_admin_linux.Tests.Samples.{debian_template, fedora, domains, templates_args, clock}
use qubes_core_admin_linux.Vm.{get_truth, NodupNames, has_name}

distinct : NodupNames domains
distinct = (refl, (refl, (refl, tt)))

kept_lem : preselect_targets templates_args domains ≡ ok (fedora ∷ [])
unfolding preselect_targets implicit_targets drop_skip_update class_targets contains split
kept_lem = refl

preselect_targets_exact_example : In debian_template (fedora ∷ []) ↔ (
    In debian_template domains
    × (named_by_flags templates_args debian_template ≡ true)
    × (not_skipped templates_args debian_template ≡ true)
    × (get_truth debian_template "skip-update" ≡ ok false))
preselect_targets_exact_example =
    preselect_targets_exact templates_args domains debian_template distinct refl (fedora ∷ [])
      kept_lem

abbrev named_args : Args
named_args = record templates_args { targets = some "debian"; templates = false }

named_lem : preselect_targets named_args domains ≡ ok (debian_template ∷ [])
unfolding preselect_targets implicit_targets add_explicit drop_skip_update class_targets contains
    split
named_lem = refl

preselect_targets_explicit_example : In debian_template (debian_template ∷ []) ↔ (
    In debian_template domains
    × (not_skipped named_args debian_template ≡ true)
    × ((named_by_flags named_args debian_template || contains (split b',' "debian") "debian")
        ≡ true))
preselect_targets_explicit_example =
    preselect_targets_explicit named_args domains debian_template "debian" distinct
      (debian_template ∷ []) refl refl named_lem

chosen_lem : select_targets clock templates_args (fedora ∷ debian_template ∷ []) ≡ ok (fedora ∷ [])
unfolding select_targets select_loop qualifies read_flag
chosen_lem = refl

select_targets-skip_update_example : ¬ (In debian_template (fedora ∷ []))
select_targets-skip_update_example =
    select_targets-skip_update clock templates_args debian_template (fedora ∷ debian_template ∷ [])
      (fedora ∷ []) refl chosen_lem refl

stale_lem : is_stale clock fedora 7 ≡ ok false
unfolding is_stale contains older_than
stale_lem = refl

select_targets_by_features_example : In fedora (fedora ∷ []) ↔ (
    In fedora (fedora ∷ debian_template ∷ [])
    × (false ≡ false)
    × (false ≡ false)
    × ((true ≡ true) ⊎ ((templates_args.update_if_available ≡ false) × (false ≡ true))))
select_targets_by_features_example =
    select_targets_by_features clock templates_args fedora (fedora ∷ debian_template ∷ [])
      (fedora ∷ []) true false false false refl chosen_lem (inl refl) (inl refl) (inl refl)
      stale_lem

twice_lem : split b',' "debian,debian" ≡ "debian" ∷ "debian" ∷ []
unfolding split
twice_lem = refl

contains_lem : contains ("debian" ∷ []) "debian" ≡ true
unfolding contains
contains_lem = refl

added_lem : add_explicit "debian" domains (fedora ∷ []) ≡ ok (fedora ∷ debian_template ∷ [])
unfolding add_explicit split contains
added_lem = refl

in_list_lem : contains (split b',' "debian") "debian" ≡ true
unfolding contains split
in_list_lem = refl

add_explicit-known_example : has_name domains "debian" ≡ true
add_explicit-known_example =
    add_explicit-known "debian" "debian" domains (fedora ∷ []) (fedora ∷ debian_template ∷ [])
      distinct added_lem in_list_lem
