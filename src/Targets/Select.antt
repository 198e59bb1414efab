-- ===== src/Targets/Select.antt =====
-- What `select_targets` keeps of the preselected qubes.
use qubes_core_admin_linux.Args.{Args}
use qubes_core_admin_linux.Exec.{catches_communication, err, Exception, ok}
use qubes_core_admin_linux.Prelude.{
  inr, inl, String, ◌≡◌, ◌≢◌, Bool, true, false, List, [], ◌∷◌, ◌↔◌, ◌⊎◌, In, arith,
}
use qubes_core_admin_linux.Targets.{read_flag, qualifies, select_loop, select_targets}
use qubes_core_admin_linux.Targets.Stale.{is_stale, Clock}
use qubes_core_admin_linux.Vm.{get_truth, Vm}

-- What a feature counts as: the truth of its value, or not set if qubesd fails to give it.
abbrev pub CountsAs : Vm → String → Bool → Type 0
CountsAs v name b =
    (get_truth v name ≡ ok b)
    ⊎ ((b ≡ false)
        × (e : Exception) × (get_truth v name ≡ err e)
        × (catches_communication e ≡ true))

read_flag-CountsAs :
    (v : Vm) (name : String) (b : Bool) → CountsAs v name b → read_flag v name ≡ ok b
unfolding read_flag
read_flag-CountsAs v name b (inl e) = ground arith
read_flag-CountsAs v name b (inr (f, e, g, c)) = ground arith

module _ (clock : Clock) (args : Args) (v : Vm) where
  In-select_loop_from :
      (chosen vms : List Vm)
      → select_loop clock args vms ≡ ok chosen
      → In v chosen
      → In v vms × (qualifies clock args v ≡ ok true)
  unfolding select_loop
  In-select_loop_from [] vms e m = elim m [ ]
  In-select_loop_from (k ∷ ks) [] e m = cc
  In-select_loop_from (k ∷ ks) (u ∷ us) e m =
      ground (arith, In-select_loop_from (k ∷ ks) us, In-select_loop_from ks us)

  In-select_loop_to :
      (chosen vms : List Vm)
      → select_loop clock args vms ≡ ok chosen
      → In v vms
      → qualifies clock args v ≡ ok true
      → In v chosen
  unfolding select_loop
  In-select_loop_to chosen [] e m t = elim m [ ]
  In-select_loop_to [] (u ∷ us) e m t = ground (arith, In-select_loop_to [] us)
  In-select_loop_to (k ∷ ks) (u ∷ us) e m t =
      ground (arith, In-select_loop_to (k ∷ ks) us, In-select_loop_to ks us)

  qualifies-not_skipped : qualifies clock args v ≡ ok true → get_truth v "skip-update" ≢ ok true
  unfolding qualifies read_flag
  qualifies-not_skipped h t = ground arith

  -- Without `--force-update` no qube whose `skip-update` feature is set is selected, whichever
  -- qubes were preselected.
  pub select_targets-skip_update :
      (targets chosen : List Vm)
      → args.force_update ≡ false
      → select_targets clock args targets ≡ ok chosen
      → get_truth v "skip-update" ≡ ok true
      → ¬ (In v chosen)
  unfolding select_targets
  select_targets-skip_update targets chosen off e skip m =
      ground (arith, In-select_loop_from chosen targets, qualifies-not_skipped)

  pub select_targets_exact :
      (targets chosen : List Vm)
      → select_targets clock args targets ≡ ok chosen
      → In v chosen
        ↔ (In v targets × ((args.force_update ≡ true) ⊎ (qualifies clock args v ≡ ok true)))
  unfolding select_targets
  select_targets_exact targets chosen e =
      ground (arith, In-select_loop_from chosen targets, In-select_loop_to chosen targets)

  qualifies_flags :
      (updates prohibited skip stale : Bool)
      → CountsAs v "updates-available" updates
      → CountsAs v "prohibit-start" prohibited
      → CountsAs v "skip-update" skip
      → is_stale clock v args.update_if_stale ≡ ok stale
      → (qualifies clock args v ≡ ok true) ↔ (
          (prohibited ≡ false)
          × (skip ≡ false)
          × ((updates ≡ true) ⊎ ((args.update_if_available ≡ false) × (stale ≡ true))))
  unfolding qualifies
  qualifies_flags updates prohibited skip stale u p s t =
      let eu = read_flag-CountsAs v "updates-available" updates u in
      let ep = read_flag-CountsAs v "prohibit-start" prohibited p in
      let es = read_flag-CountsAs v "skip-update" skip s in ground arith

  -- Without `--force-update`, `select_targets` keeps exactly the preselected qubes for which neither
  -- `prohibit-start` nor `skip-update` is set, and that have updates available or, unless
  -- `--update-if-available` is given, are stale. A feature that qubesd fails to give, by a
  -- communication error, counts as not set.
  pub select_targets_by_features :
      (targets chosen : List Vm) (updates prohibited skip stale : Bool)
      → args.force_update ≡ false
      → select_targets clock args targets ≡ ok chosen
      → CountsAs v "updates-available" updates
      → CountsAs v "prohibit-start" prohibited
      → CountsAs v "skip-update" skip
      → is_stale clock v args.update_if_stale ≡ ok stale
      → In v chosen ↔ (
          In v targets
          × (prohibited ≡ false)
          × (skip ≡ false)
          × ((updates ≡ true) ⊎ ((args.update_if_available ≡ false) × (stale ≡ true))))
  select_targets_by_features targets chosen updates prohibited skip stale off e u p s t =
      let member = select_targets_exact targets chosen e in
      let flags = qualifies_flags updates prohibited skip stale u p s t in ground arith
