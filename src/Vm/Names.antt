-- ===== src/Vm/Names.antt =====
-- Sets of qubes as lists: qubes of one system are told apart by their names.
use mathlib.Core.Path.{subst}
use qubes_core_admin_linux.Prelude.{
  ◌≡◌, sym, ◌∙◌, true, not, List, [], ◌∷◌, ◌⊎◌, inl, inr, In, In-filter_from, In-filter_to,
  In-append_left, In-append_right, In-append_from, In-any, any-In, Bool-cases, eq_iff, eq_refl,
  ◌==◌, arith,
}
use qubes_core_admin_linux.Vm.{update, Vm, has_name, NodupNames}

has_name-In : (v : Vm) (vms : List Vm) → In v vms → has_name vms v.name ≡ true
has_name-In v vms m = In-any (λ u. u.name == v.name) v vms m (eq_refl v.name)

pub name_inj :
    (vms : List Vm) (u v : Vm) → NodupNames vms → In u vms → In v vms → u.name ≡ v.name → u ≡ v
name_inj [] u v n mu mv e = elim mu [ ]
name_inj (w ∷ ws) u v n (inl a) (inl b) e = a ∙ sym b
name_inj (w ∷ ws) u v n (inl a) (inr b) e = ground (arith, has_name-In v ws b)
name_inj (w ∷ ws) u v n (inr a) (inl b) e = ground (arith, has_name-In u ws a)
name_inj (w ∷ ws) u v n (inr a) (inr b) e = name_inj ws u v n.1 a b e

pub In-update_from : (v : Vm) (xs ys : List Vm) → In v (update xs ys) → In v xs ⊎ In v ys
In-update_from v xs ys m =
    ground (arith, In-append_from v xs _ m, In-filter_from (λ u. not (has_name xs u.name)) v ys)

pub In-update_left : (v : Vm) (xs ys : List Vm) → In v xs → In v (update xs ys)
In-update_left v xs ys m = In-append_left v xs _ m

module _ (domains : List Vm) (distinct : NodupNames domains) where
  pub In-update_right :
      (v : Vm) (xs ys : List Vm)
      → ((u : Vm) → In u xs → In u domains)
      → In v domains
      → In v ys
      → In v (update xs ys)
  In-update_right v xs ys sub vd m = elim (Bool-cases (has_name xs v.name)) [
    | inl e ↦
        let (u, mu, same) = any-In (λ u. u.name == v.name) xs e in
        In-update_left v xs ys (
          subst (λ w. In w xs) (name_inj domains u v distinct (sub u mu) vd ((eq_iff _ _).0 same))
            mu)
    | inr e ↦
        In-append_right v xs _ (In-filter_to (λ u. not (has_name xs u.name)) v ys m (ground arith))
  ]
