-- ===== src/Targets/Explicit.antt =====
-- The names given by `--targets`: how many qubes they find, and when they are refused.
use qubes_core_admin_linux.Exec.{argument_error, err, ok}
use qubes_core_admin_linux.Prelude.{
  inr, inl, ◌+◌, ◌≤◌, ◌<◌, ap, split, ◌≡◌, refl, Bool, true, false, String, List, [], ◌∷◌, filter,
  length, Bool-cases, contains, eq_iff, ◌==◌, ◌||◌, arith,
}
use qubes_core_admin_linux.Targets.Preselect.{unknown_names, explicit_targets, add_explicit}
use qubes_core_admin_linux.Vm.{NodupNames, has_name, Vm}

length-filter_or {ℓ} :
    {A : Type ℓ} (p q : A → Bool) (xs : List A)
    → length (filter (λ x. p x || q x) xs) ≤ length (filter p xs) + length (filter q xs)
length-filter_or p q [] = omega arith
length-filter_or p q (x ∷ xs) = ground (arith, length-filter_or p q xs)

filter_absent :
    (w : String) (vms : List Vm) → has_name vms w ≡ false → filter (λ v. w == v.name) vms ≡ []
filter_absent w [] h = refl
filter_absent w (v ∷ vs) h = ground (arith, eq_iff w v.name, eq_iff v.name w, filter_absent w vs)

length-filter_name :
    (w : String) (vms : List Vm) → NodupNames vms → length (filter (λ v. w == v.name) vms) ≤ 1
length-filter_name w [] n = omega arith
length-filter_name w (v ∷ vs) n = ground (
  arith,
  eq_iff w v.name,
  length-filter_name w vs n.1,
  ap length (filter_absent v.name vs n.0),
  filter_absent w vs,
)

-- No more qubes are found than names were given.
length-explicit_targets :
    (wanted : List String) (domains : List Vm)
    → NodupNames domains
    → length (explicit_targets wanted domains) ≤ length wanted
unfolding contains
length-explicit_targets [] [] n = omega arith
length-explicit_targets [] (v ∷ vs) n = length-explicit_targets [] vs n.1
length-explicit_targets (w ∷ ws) domains n = omega (
  arith,
  length-filter_or (λ (v : Vm). w == v.name) (λ (v : Vm). contains ws v.name) domains,
  length-filter_name w domains n,
  length-explicit_targets ws domains n,
)

-- A name that is given twice finds no further qube.
explicit_targets_again :
    (w : String) (ws : List String) (domains : List Vm)
    → contains ws w ≡ true
    → explicit_targets (w ∷ ws) domains ≡ explicit_targets ws domains
unfolding contains
explicit_targets_again w ws [] h = refl
explicit_targets_again w ws (v ∷ vs) h =
    ground (arith, explicit_targets_again w ws vs h, eq_iff w v.name)

-- A list of names in which the first comes again is refused with an `ArgumentError`, also where all
-- its names are those of qubes; names of qubes are distinct.
pub add_explicit_repeated :
    (w : String) (ws : List String) (text : String) (domains targets : List Vm)
    → NodupNames domains
    → split b',' text ≡ w ∷ ws
    → contains ws w ≡ true
    → (message : String) × (add_explicit text domains targets ≡ err (argument_error message))
unfolding add_explicit
add_explicit_repeated w ws text domains targets n parts again = (
  unknown_names (w ∷ ws) (explicit_targets (w ∷ ws) domains),
  rw (parts, explicit_targets_again w ws domains again)
      (ground (arith, length-explicit_targets ws domains n)),
)

explicit_targets_unknown :
    (w : String) (ws : List String) (domains : List Vm)
    → has_name domains w ≡ false
    → explicit_targets (w ∷ ws) domains ≡ explicit_targets ws domains
unfolding contains
explicit_targets_unknown w ws [] h = refl
explicit_targets_unknown w ws (v ∷ vs) h =
    ground (arith, explicit_targets_unknown w ws vs, eq_iff w v.name, eq_iff v.name w)

-- An unknown name leaves fewer qubes than names.
length-explicit_targets_lt :
    (name : String) (wanted : List String) (domains : List Vm)
    → NodupNames domains
    → has_name domains name ≡ false
    → contains wanted name ≡ true
    → length (explicit_targets wanted domains) < length wanted
unfolding contains
length-explicit_targets_lt name [] domains n h c = cc
length-explicit_targets_lt name (w ∷ ws) domains n h c = elim (Bool-cases (w == name)) [
  | inl e ↦ omega (
    arith,
    length-explicit_targets ws domains n,
    ap length (explicit_targets_unknown w ws domains (rw ((eq_iff w name).0 e) h)),
  )
  | inr e ↦ omega (
    arith,
    length-filter_or (λ (v : Vm). w == v.name) (λ (v : Vm). contains ws v.name) domains,
    length-filter_name w domains n,
    length-explicit_targets_lt name ws domains n h (ground arith),
  )
]

-- `--targets` is accepted only if each name in it is that of a qube; names of qubes are distinct.
pub add_explicit-known :
    (text name : String) (domains targets chosen : List Vm)
    → NodupNames domains
    → add_explicit text domains targets ≡ ok chosen
    → contains (split b',' text) name ≡ true
    → has_name domains name ≡ true
unfolding add_explicit
add_explicit-known text name domains targets chosen n e given =
    elim (Bool-cases (has_name domains name)) [
      | inl h ↦ h
      | inr h ↦
          let fewer = length-explicit_targets_lt name (split b',' text) domains n h given in
          ground arith
    ]
