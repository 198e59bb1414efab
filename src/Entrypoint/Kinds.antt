-- ===== src/Entrypoint/Kinds.antt =====
-- Which package manager the agent takes.
use qubes_core_admin_linux.Entrypoint.{
  red_hat, debian, arch_linux, qubes, kind_of, modern_dom0, Family, release_of, to_int, debian_kind,
  dom0_kind, dom0_parts, package_manager_kind, rhel_version, is_cli, OsData, is_dnf, dnf_kind,
  rhel_kind, Kind, unknown_family,
}
use qubes_core_admin_linux.Exec.{err, ok, ◌>>?◌, on_result, Result}
use qubes_core_admin_linux.Package.{update_vm, vm_agent, dom0_agent, is_update_vm, AgentType}
use qubes_core_admin_linux.Prelude.{
  split, ◌≡◌, refl, Bool, true, false, not, ◌&&◌, ◌||◌, String, Option, List, [], ◌∷◌, arith,
}
use qubes_core_admin_linux.Prelude.Int.{pos, ltb_ℤ, ℤ}

-- What is asked of the class that is chosen.
abbrev pub suits : AgentType → Bool → Kind → Bool
suits agent_type no_progress kind =
    (not (is_update_vm agent_type) || is_dnf kind) && (not no_progress || is_cli kind)

module _ (int : String → Option ℤ) (imports : Kind → Bool) where
  abbrev pub Suited : AgentType → Bool → Result Kind → Type 0
  Suited agent_type no_progress r =
      on_result r (λ k. suits agent_type no_progress k ≡ true) (λ _. Unit {0})

  dnf_kind-suits :
      (t : AgentType) (modern p : Bool) → suits t p (dnf_kind int imports modern p) ≡ true
  dnf_kind-suits t modern p = ground arith

  Suited-bind :
      {A : Type 0} (t : AgentType) (p : Bool) (r : Result A) (f : A → Result Kind)
      → ((a : A) → Suited t p (f a))
      → Suited t p (r >>? f)
  Suited-bind t p (ok a) f k = k a
  Suited-bind t p (err x) f k = tt

  rhel_kind-suits :
      (t : AgentType) (os : OsData) (p : Bool) → Suited t p (rhel_kind int imports os p)
  unfolding rhel_kind
  rhel_kind-suits t os p =
      Suited-bind t p (rhel_version int imports os)
        (λ v. ok (dnf_kind int imports (not (ltb_ℤ v (pos 41))) p))
        (λ v. dnf_kind-suits t (not (ltb_ℤ v (pos 41))) p)

  dom0_parts-suits :
      (t : AgentType) (p : Bool) (parts : List String) → Suited t p (dom0_parts int imports p parts)
  dom0_parts-suits t p [] = tt
  dom0_parts-suits t p (major ∷ []) = tt
  dom0_parts-suits t p (major ∷ (minor ∷ (other ∷ rest))) = tt
  dom0_parts-suits t p (major ∷ (minor ∷ [])) =
      Suited-bind t p (to_int int imports major)
        (λ x. to_int int imports minor >>? λ y.
          ok (dnf_kind int imports (modern_dom0 int imports x y) p))
        (λ x.
          Suited-bind t p (to_int int imports minor)
            (λ y. ok (dnf_kind int imports (modern_dom0 int imports x y) p))
            (λ y. dnf_kind-suits t (modern_dom0 int imports x y) p))

  dom0_kind-suits :
      (t : AgentType) (os : OsData) (p : Bool) → Suited t p (dom0_kind int imports os p)
  unfolding dom0_kind
  dom0_kind-suits t os p =
      Suited-bind t p (release_of int imports os)
        (λ release. dom0_parts int imports p (split 46 release))
        (λ release. dom0_parts-suits t p (split 46 release))

  -- The family of a system that is no UpdateVM.
  by_family :
      (t : AgentType) (os : OsData) (p : Bool)
      → is_update_vm t ≡ false
      → (f : Family) → Suited t p (kind_of int imports os p f)
  unfolding debian_kind
  by_family t os p e red_hat = rhel_kind-suits t os p
  by_family t os p e debian = ground arith
  by_family t os p e arch_linux = ground arith
  by_family t os p e qubes = dom0_kind-suits t os p
  by_family t os p e unknown_family = tt

  -- In an UpdateVM the choice, if there is one, is a class of dnf, whatever the system; and where no
  -- progress is wanted, it is a class that runs the command line.
  pub package_manager_kind-suits :
      (agent_type : AgentType) (os : OsData) (no_progress : Bool)
      → Suited agent_type no_progress (package_manager_kind int imports os agent_type no_progress)
  unfolding package_manager_kind
  package_manager_kind-suits update_vm os no_progress = rhel_kind-suits update_vm os no_progress
  package_manager_kind-suits vm_agent os no_progress =
      by_family vm_agent os no_progress refl os.os_family
  package_manager_kind-suits dom0_agent os no_progress =
      by_family dom0_agent os no_progress refl os.os_family
