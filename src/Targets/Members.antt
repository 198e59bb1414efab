-- ===== src/Targets/Members.antt =====
-- Which qubes `preselect_targets` lets through.
use qubes_core_admin_linux.Args.{no_targets, Args}
use qubes_core_admin_linux.Exec.{ok}
use qubes_core_admin_linux.Prelude.{
  contains, truthy, some, ◌↔◌, String, sym, ◌∙◌, split, ◌≡◌, Bool, true, false, not, List, [], ◌∷◌,
  filter, In, In-filter_from, In-filter_to, if◌then◌else◌, ◌&&◌, ◌||◌, arith,
}
use qubes_core_admin_linux.Targets.Preselect.{
  explicit_targets, add_explicit, not_skipped, preselect_targets, updatable, class_targets,
  default_targeting, implicit_targets, drop_skip_update,
}
use qubes_core_admin_linux.Vm.{
  Vm, update, NodupNames, get_truth, is_template, is_standalone, is_app, is_disp,
}
use qubes_core_admin_linux.Vm.Names.{In-update_from, In-update_left, In-update_right}

-- Which qubes the targeting flags name, as a test on one qube.
abbrev pub named_by_flags : Args → Vm → Bool
named_by_flags args v =
    if args.all_targets || default_targeting args
    then v.updateable && (not (is_app v.klass || is_disp v.klass) || v.running)
    else (args.templates && (v.updateable && is_template v.klass))
      || (args.standalones && (v.updateable && is_standalone v.klass))
      || (args.apps && (is_app v.klass && v.running))

module _ (args : Args) (domains : List Vm) (v : Vm) where
  abbrev templates : List Vm
  templates = if args.templates then filter (λ u. is_template u.klass) (updatable domains) else []

  abbrev standalones : List Vm
  standalones =
      if args.standalones then filter (λ u. is_standalone u.klass) (updatable domains) else []

  abbrev apps : List Vm
  apps = if args.apps then filter (λ u. is_app u.klass && u.running) domains else []

  In-class_targets_from :
      In v (class_targets args domains)
      → In v domains
        × (((args.templates && (v.updateable && is_template v.klass))
              || (args.standalones && (v.updateable && is_standalone v.klass))
              || (args.apps && (is_app v.klass && v.running)))
            ≡ true)
  unfolding class_targets
  In-class_targets_from m = ground (
    arith,
    In-update_from v (update templates standalones) apps m,
    In-update_from v templates standalones,
    In-filter_from (λ u. is_template u.klass) v (updatable domains),
    In-filter_from (λ u. is_standalone u.klass) v (updatable domains),
    In-filter_from (λ u. u.updateable) v domains,
    In-filter_from (λ u. is_app u.klass && u.running) v domains,
  )

  In-implicit_targets_from :
      In v (implicit_targets args domains) → In v domains × (named_by_flags args v ≡ true)
  unfolding implicit_targets
  In-implicit_targets_from m = ground (
    arith,
    In-class_targets_from,
    In-filter_from (λ u. not (is_app u.klass || is_disp u.klass) || u.running) v
        (updatable domains),
    In-filter_from (λ u. u.updateable) v domains,
  )

  module _ (distinct : NodupNames domains) (vd : In v domains) where
    templates_sub : (u : Vm) → In u templates → In u domains
    templates_sub u m = ground (
      arith,
      In-filter_from (λ w. is_template w.klass) u (updatable domains),
      In-filter_from (λ w. w.updateable) u domains,
    )

    standalones_sub : (u : Vm) → In u (update templates standalones) → In u domains
    standalones_sub u m = ground (
      arith,
      templates_sub u,
      In-update_from u templates standalones m,
      In-filter_from (λ w. is_standalone w.klass) u (updatable domains),
      In-filter_from (λ w. w.updateable) u domains,
    )

    In-class_targets_to :
        ((args.templates && (v.updateable && is_template v.klass))
            || (args.standalones && (v.updateable && is_standalone v.klass))
            || (args.apps && (is_app v.klass && v.running)))
          ≡ true
        → In v (class_targets args domains)
    unfolding class_targets
    In-class_targets_to named = ground (
      arith,
      In-update_left v (update templates standalones) apps,
      In-update_left v templates standalones,
      In-update_right domains distinct v templates standalones templates_sub vd,
      In-update_right domains distinct v (update templates standalones) apps standalones_sub vd,
      In-filter_to (λ u. is_template u.klass) v (updatable domains),
      In-filter_to (λ u. is_standalone u.klass) v (updatable domains),
      In-filter_to (λ u. u.updateable) v domains vd,
      In-filter_to (λ u. is_app u.klass && u.running) v domains vd,
    )

    In-implicit_targets_to : named_by_flags args v ≡ true → In v (implicit_targets args domains)
    unfolding implicit_targets
    In-implicit_targets_to named = ground (
      arith,
      In-class_targets_to,
      In-filter_to (λ u. not (is_app u.klass || is_disp u.klass) || u.running) v
          (updatable domains),
      In-filter_to (λ u. u.updateable) v domains vd,
    )

  In-drop_skip_update_from :
      (kept vms : List Vm)
      → drop_skip_update vms ≡ ok kept
      → In v kept
      → In v vms × (get_truth v "skip-update" ≡ ok false)
  unfolding drop_skip_update
  In-drop_skip_update_from [] vms e m = elim m [ ]
  In-drop_skip_update_from (k ∷ ks) [] e m = cc
  In-drop_skip_update_from (k ∷ ks) (u ∷ us) e m =
      ground (arith, In-drop_skip_update_from (k ∷ ks) us, In-drop_skip_update_from ks us)

  In-drop_skip_update_to :
      (kept vms : List Vm)
      → drop_skip_update vms ≡ ok kept
      → In v vms
      → get_truth v "skip-update" ≡ ok false
      → In v kept
  unfolding drop_skip_update
  In-drop_skip_update_to kept [] e m t = elim m [ ]
  In-drop_skip_update_to [] (u ∷ us) e m t = ground (arith, In-drop_skip_update_to [] us)
  In-drop_skip_update_to (k ∷ ks) (u ∷ us) e m t =
      ground (arith, In-drop_skip_update_to (k ∷ ks) us, In-drop_skip_update_to ks us)

  implicit_only :
      no_targets args ≡ true
      → preselect_targets args domains
        ≡ drop_skip_update (filter (not_skipped args) (implicit_targets args domains))
  unfolding preselect_targets
  implicit_only h = ground arith

  -- Without `--targets`, `preselect_targets` keeps exactly the qubes of the system that the
  -- targeting flags name, that `--skip` does not list, and whose `skip-update` feature was read as
  -- not set; names of qubes are distinct. `--apps` alone names every running AppVM, also one that is
  -- not updatable, which its help text and the manual do not say.
  pub preselect_targets_exact :
      NodupNames domains
      → no_targets args ≡ true
      → (kept : List Vm) → preselect_targets args domains ≡ ok kept
      → In v kept ↔ (
          In v domains
          × (named_by_flags args v ≡ true)
          × (not_skipped args v ≡ true)
          × (get_truth v "skip-update" ≡ ok false))
  preselect_targets_exact distinct none_given kept e =
      let e' = sym (implicit_only none_given) ∙ e in
      let eligible = filter (not_skipped args) (implicit_targets args domains) in
      (
        λ m.
            let (m', t) = In-drop_skip_update_from kept eligible e' m in
            let (m'', s) = In-filter_from (not_skipped args) v (implicit_targets args domains) m' in
            let (vd, n) = In-implicit_targets_from m'' in (vd, n, s, t),
        λ (vd, n, s, t).
            In-drop_skip_update_to kept eligible e'
              (In-filter_to (not_skipped args) v _ (In-implicit_targets_to distinct vd n) s) t,
      )

module _ (args : Args) (domains : List Vm) (v : Vm) (text : String) where
  add_explicit_ok :
      (kept : List Vm)
      → args.targets ≡ some text
      → truthy text ≡ true
      → preselect_targets args domains ≡ ok kept
      → kept
        ≡ filter
            (not_skipped args)
            (update (implicit_targets args domains) (explicit_targets (split b',' text) domains))
  unfolding preselect_targets add_explicit
  add_explicit_ok kept given nonempty e = ground arith

  -- With a text for `--targets`, `preselect_targets` keeps exactly the qubes that `--skip` does not
  -- list and that the flags name or the text lists, whatever their `skip-update` feature; names of
  -- qubes are distinct. So a qube that only a flag names stays in spite of its `skip-update` feature,
  -- which the manual denies; and `--apps` names running AppVMs that are not updatable too.
  pub preselect_targets_explicit :
      NodupNames domains
      → (kept : List Vm) → args.targets ≡ some text
      → truthy text ≡ true
      → preselect_targets args domains ≡ ok kept
      → In v kept ↔ (
          In v domains
          × (not_skipped args v ≡ true)
          × ((named_by_flags args v || contains (split b',' text) v.name) ≡ true))
  preselect_targets_explicit distinct kept given nonempty e =
      let implicit = implicit_targets args domains in
      let explicit = explicit_targets (split b',' text) domains in
      let listed = λ (u : Vm). contains (split b',' text) u.name in
      rw (add_explicit_ok kept given nonempty e) (
        λ m.
            let (m', s) = In-filter_from (not_skipped args) v (update implicit explicit) m in
            ground (
              arith,
              In-update_from v implicit explicit m',
              In-implicit_targets_from args domains v,
              In-filter_from listed v domains,
            ),
        λ (vd, s, n).
            In-filter_to (not_skipped args) v (update implicit explicit)
              (ground (
                arith,
                In-implicit_targets_to args domains v distinct vd,
                In-update_left v implicit explicit,
                In-update_right domains distinct v implicit explicit
                    (λ u m. (In-implicit_targets_from args domains u m).0) vd,
                In-filter_to listed v domains vd,
              ))
              s,
      )
