-- ===== src/Apply/Derived.antt =====
-- Which qubes `get_derived_vm_to_apply` and `updated_templates` take.
use qubes_core_admin_linux.Apply.{
  updated_templates, updated_now, Statuses, possibly_changed, sort_derived,
}
use qubes_core_admin_linux.Exec.{Result-cases, ok}
use qubes_core_admin_linux.Prelude.{
  ◌≡◌, refl, inl, inr, Bool, true, false, List, [], ◌∷◌, In, ◌&&◌, arith,
}
use qubes_core_admin_linux.System.{Machine, System}
use qubes_core_admin_linux.Targets.Stale.{get_boolean_feature}
use qubes_core_admin_linux.Vm.{is_template, is_disp, Vm}
use qubes_core_admin_linux.Vm.Names.{In-update_from}

module _ (sys : System) where
  pub possibly_changed-In :
      (v : Vm) (tmpls : List Vm)
      → In v (possibly_changed sys tmpls)
      → (t : Vm) × In t tmpls × In v (sys.derived_vms t)
  unfolding possibly_changed
  possibly_changed-In v [] i = elim i [ ]
  possibly_changed-In v (t ∷ ts) i =
      elim (In-update_from v (sys.derived_vms t) (possibly_changed sys ts) i) [
        | inl j ↦ (t, inl refl, j)
        | inr j ↦ let (u, k, l) = possibly_changed-In v ts j in (u, inr k, l)
      ]

  abbrev pub Sorted : Statuses → List Vm → Vm → Bool → Type 0
  Sorted ds vms v service =
      In v vms
      × (updated_now sys ds v.name ≡ false)
      × ((is_disp v.klass && v.auto_cleanup) ≡ false)
      × (get_boolean_feature v "servicevm" false ≡ ok service)

  pub sort_derived_restart :
      (ds : Statuses) (m : Machine sys) (v : Vm) (vms xs ys : List Vm)
      → sort_derived sys ds m vms ≡ ok (xs, ys)
      → In v xs
      → Sorted ds vms v true
  unfolding sort_derived
  sort_derived_restart ds m v [] xs ys e i = ground arith
  sort_derived_restart ds m v (u ∷ us) xs ys e i = elim (Result-cases (sort_derived sys ds m us)) [
    | inr (x, e') ↦ ground arith
    | inl ((xs', ys'), e') ↦ ground (arith, sort_derived_restart ds m v us xs' ys' e')
  ]

  pub sort_derived_stop :
      (ds : Statuses) (m : Machine sys) (v : Vm) (vms xs ys : List Vm)
      → sort_derived sys ds m vms ≡ ok (xs, ys)
      → In v ys
      → Sorted ds vms v false
  unfolding sort_derived
  sort_derived_stop ds m v [] xs ys e i = ground arith
  sort_derived_stop ds m v (u ∷ us) xs ys e i = elim (Result-cases (sort_derived sys ds m us)) [
    | inr (x, e') ↦ ground arith
    | inl ((xs', ys'), e') ↦ ground (arith, sort_derived_stop ds m v us xs' ys' e')
  ]

  pub updated_templates-In :
      (ts : Statuses) (v : Vm) (vms tmpls : List Vm)
      → updated_templates sys ts vms ≡ ok tmpls
      → In v tmpls
      → In v vms × (updated_now sys ts v.name ≡ true) × (is_template v.klass ≡ true)
  unfolding updated_templates
  updated_templates-In ts v [] tmpls e i = ground arith
  updated_templates-In ts v (u ∷ us) tmpls e i = elim (Result-cases (updated_templates sys ts us)) [
    | inr (x, e') ↦ ground arith
    | inl (tmpls', e') ↦ ground (arith, updated_templates-In ts v us tmpls' e')
  ]
