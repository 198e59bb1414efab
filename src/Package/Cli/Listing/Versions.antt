-- ===== src/Package/Cli/Listing/Versions.antt =====
-- What `setdefault(package, []).append(version)` makes of a dict, as `get_packages` calls it.
use mathlib.Core.List.{append-nil, append_assoc}
use qubes_core_admin_linux.Package.{Packages}
use qubes_core_admin_linux.Package.Cli.Listing.{inr, inl, add_version}
use qubes_core_admin_linux.Prelude.{
  none, some, eq_iff, lookup-insert, Bool-cases, Option-cases, Option, lookup, sym, ◌==◌,
  if◌then◌else◌, Text, ◌≡◌, refl, ap, ◌∙◌, String, List, [], ◌∷◌, ◌++◌, arith, inl, inr,
}

-- The versions of the package with this key, in order
abbrev pub versions_of : (Text → String) → String → List (Text × Text) → List Text
versions_of key k [] = []
versions_of key k ((name, version) ∷ entries) =
    let rest = versions_of key k entries in if key name == k then version ∷ rest else rest

-- What a dict has under a key, after these versions came to it
abbrev pub with_versions : Option (List Text) → List Text → Option (List Text)
with_versions none [] = none
with_versions none (v ∷ vs) = some (v ∷ vs)
with_versions (some old) vs = some (old ++ vs)

with_versions-cons :
    (old : Option (List Text)) (v : Text) (vs : List Text)
    → with_versions (with_versions old (v ∷ [])) vs ≡ with_versions old (v ∷ vs)
with_versions-cons none v vs = refl
with_versions-cons (some old) v vs = ap some (append_assoc old (v ∷ []) vs)

pub with_versions-nil : (old : Option (List Text)) → with_versions old [] ≡ old
with_versions-nil none = refl
with_versions-nil (some old) = ap some (append-nil old)

lookup-add_version :
    (n k : String) (v : Text) (d : Packages)
    → lookup k (add_version n v d) ≡ with_versions (lookup k d) (if n == k then v ∷ [] else [])
unfolding add_version
lookup-add_version n k v d = elim (Option-cases (lookup n d)) [
  | inl e ↦ ground (arith, lookup-insert n k (v ∷ []) d, with_versions-nil (lookup k d), eq_iff n k)
  | inr (old, e) ↦
      ground
        (arith, lookup-insert n k (old ++ v ∷ []) d, with_versions-nil (lookup k d), eq_iff n k)
]

-- A dict has these packages on top of those of another one.
abbrev pub HasVersions : (String → List Text) → Packages → Packages → Type 0
HasVersions versions before after =
    (k : String) → lookup k after ≡ with_versions (lookup k before) (versions k)

pub add_version-HasVersions :
    (key : Text → String) (name version : Text) (k : String) (before after : Packages)
    (rest : List Text)
    → lookup k after ≡ with_versions (lookup k (add_version (key name) version before)) rest
    → lookup k after
      ≡ with_versions (lookup k before) (if key name == k then version ∷ rest else rest)
add_version-HasVersions key name version k before after rest e = elim (Bool-cases (key name == k)) [
  | inl y ↦
      e
      ∙ (ap (λ o. with_versions o rest)
            (lookup-add_version (key name) k version before
              ∙ ap (λ b. with_versions (lookup k before) (if b then version ∷ [] else [])) y)
          ∙ (with_versions-cons (lookup k before) version rest
              ∙ ap (λ b. with_versions (lookup k before) (if b then version ∷ rest else rest))
                  (sym y)))
  | inr n ↦
      e
      ∙ (ap (λ o. with_versions o rest)
            (lookup-add_version (key name) k version before
              ∙ (ap (λ b. with_versions (lookup k before) (if b then version ∷ [] else [])) n
                  ∙ with_versions-nil (lookup k before)))
          ∙ ap (λ b. with_versions (lookup k before) (if b then version ∷ rest else rest)) (sym n))
]
