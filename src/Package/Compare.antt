-- ===== src/Package/Compare.antt =====
-- What `compare_packages` reports, and what a failed refresh leaves undone.
use qubes_core_admin_linux.Package.{Packages, changed, not_in, versions_eq, compare_packages}
use qubes_core_admin_linux.Prelude.{
  Option-cases, ◌==◌, Bool-cases, eq_iff, has_key, Text, lookup, ◌≡◌, refl, sym, ap, ◌∙◌, inl, inr,
  Bool, String, Option, none, some, List, [], ◌∷◌, if◌then◌else◌, arith,
}

-- The value of a key that another dict has not.
abbrev only : {A : Type 0} → Bool → Option A → Option A
only b o = if b then none else o

lookup-not_in :
    (other d : Packages) (k : String)
    → lookup k (not_in other d) ≡ only (has_key k other) (lookup k d)
unfolding lookup not_in
lookup-not_in other [] k = ground arith
lookup-not_in other ((pkg, vers) ∷ d) k = ground (arith, eq_iff pkg k, lookup-not_in other d k)

-- The pair of versions of a package that is in both dicts, if they differ.
abbrev pub differing : Option (List Text) → Option (List Text) → Option (List Text × List Text)
differing (some before) (some after) =
    if versions_eq before after then none else some (before, after)
differing _ _ = none

differing-none : (o : Option (List Text)) → differing o none ≡ none
differing-none none = refl
differing-none (some v) = refl

-- The keys of a dict: none stands twice.
abbrev pub Distinct : Packages → Type 0
Distinct [] = Unit {0}
Distinct ((pkg, _) ∷ d) = (lookup pkg d ≡ none) × Distinct d

lookup-changed :
    (old new : Packages) (k : String)
    → Distinct new
    → lookup k (changed old new) ≡ differing (lookup k old) (lookup k new)
unfolding lookup changed
lookup-changed old [] k u = sym (differing-none (lookup k old))
lookup-changed old ((pkg, vers) ∷ new) k (absent, distinct) =
    let rest = lookup-changed old new k distinct in
    elim (Bool-cases (pkg == k)) [
      | inr e ↦ elim (Option-cases (lookup pkg old)) [
        | inl e' ↦ ground (arith, rest)
        | inr (before, e') ↦ ground (arith, rest)
      ]
      | inl e ↦
          let same : pkg ≡ k = ground (arith, eq_iff pkg k) in
          let gone : lookup k new ≡ none = ap (λ j. lookup j new) (sym same) ∙ absent in
          let old_same : lookup k old ≡ lookup pkg old = ap (λ j. lookup j old) (sym same) in
          let rest_gone : lookup k (changed old new) ≡ none =
            rest ∙ (ap (differing (lookup k old)) gone ∙ differing-none (lookup k old)) in
          elim (Option-cases (lookup pkg old)) [
            | inl e' ↦ ground (arith, rest_gone, old_same)
            | inr (before, e') ↦ elim (Bool-cases (versions_eq before vers)) [
              | inl v ↦ ground (arith, rest_gone, old_same)
              | inr v ↦ ground (arith, rest_gone, old_same)
            ]
          ]
    ]

-- A package is reported as installed with its new versions if only the new dict has it, as removed
-- with its old ones if only the old dict has it, and as updated with both if both have it and the
-- versions differ. The keys of the new dict are distinct.
pub compare_packages_exact :
    (old new : Packages) (k : String)
    → Distinct new
    → (lookup k (compare_packages old new).installed
        ≡ (if has_key k old then none else lookup k new))
      × (lookup k (compare_packages old new).removed
          ≡ (if has_key k new then none else lookup k old))
      × (lookup k (compare_packages old new).updated ≡ differing (lookup k old) (lookup k new))
unfolding compare_packages
compare_packages_exact old new k distinct =
    (lookup-not_in old new k, lookup-not_in new old k, lookup-changed old new k distinct)
