-- ===== src/Vm.antt =====
-- What the program reads of a `QubesVM` of qubesadmin, which is not part of the repository. The
-- answers of qubesd enter as values: each feature call gives a text, nothing, or an exception.
pub mod Names
use qubes_core_admin_linux.Exec.{Result, ok, ◌>>?◌}
use qubes_core_admin_linux.Prelude.{
  not, filter, ◌++◌, ◌≡◌, Bool, true, false, String, Option, none, some, List, [], ◌∷◌, any, map,
  truthy, ◌==◌,
}

-- `vm.klass`, the class names that the code tells apart and any other.
pub data Klass : Type 0 where
  admin_vm template_vm standalone_vm app_vm disp_vm other_vm : Klass

pub record Vm : Type 0 where
  pub name : String
  pub klass : Klass
  -- getattr(vm, "updateable", False)
  pub updateable : Bool
  pub running : Bool
  pub auto_cleanup : Bool
  -- vm.features.keys()
  pub feature_keys : Result (List String)
  -- vm.features.get(name), with nothing for a feature that is not set
  pub feature : String → Result (Option String)
  -- vm.features.check_with_template(name)
  pub template_feature : String → Result (Option String)

abbrev pub is_admin : Klass → Bool
is_admin admin_vm = true
is_admin _ = false

abbrev pub is_template : Klass → Bool
is_template template_vm = true
is_template _ = false

abbrev pub is_standalone : Klass → Bool
is_standalone standalone_vm = true
is_standalone _ = false

abbrev pub is_app : Klass → Bool
is_app app_vm = true
is_app _ = false

abbrev pub is_disp : Klass → Bool
is_disp disp_vm = true
is_disp _ = false

-- The Boolean reading of `vm.features.get(name, False)`: a text that is not empty.
abbrev pub feature_truth : Option String → Bool
feature_truth none = false
feature_truth (some v) = truthy v

abbrev pub get_truth : Vm → String → Result Bool
get_truth vm name = vm.feature name >>? λ v. ok (feature_truth v)

-- `vm in vms` of a set of qubes, whose equality is that of names
abbrev pub has_name : List Vm → String → Bool
has_name vms name = any (λ v. v.name == name) vms

abbrev pub names : List Vm → List String
names = map (λ v. v.name)

-- The qubes of a system have distinct names.
abbrev pub NodupNames : List Vm → Type 0
NodupNames [] = Unit
NodupNames (v ∷ vms) = (has_name vms v.name ≡ false) × NodupNames vms

-- `targets.update(more)` of a set of qubes, which adds what is not yet there
abbrev pub update : List Vm → List Vm → List Vm
update targets more = targets ++ filter (λ v. not (has_name targets v.name)) more
