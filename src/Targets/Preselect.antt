-- ===== src/Targets/Preselect.antt =====
-- `preselect_targets`. A set of qubes is a list.
use qubes_core_admin_linux.Args.{Args, no_targets}
use qubes_core_admin_linux.Exec.{Result, ok, err, argument_error, ◌>>?◌}
use qubes_core_admin_linux.Prelude.{
  Bool, not, String, ◌<>◌, none, some, List, [], ◌∷◌, filter, truthy, split, contains, length,
  nat_eq, if◌then◌else◌, ◌&&◌, ◌||◌,
}
use qubes_core_admin_linux.Vm.{
  update, Vm, get_truth, names, is_template, is_standalone, is_app, is_disp,
}

abbrev pub updatable : List Vm → List Vm
updatable = filter (λ v. v.updateable)

-- The qubes of the classes that the flags name.
unfoldable pub class_targets : Args → List Vm → List Vm
class_targets args domains =
    let templates =
      if args.templates then filter (λ v. is_template v.klass) (updatable domains) else [] in
    let standalones =
      if args.standalones then filter (λ v. is_standalone v.klass) (updatable domains) else [] in
    let apps = if args.apps then filter (λ v. is_app v.klass && v.running) domains else [] in
    update (update templates standalones) apps

abbrev pub default_targeting : Args → Bool
default_targeting args =
    not args.templates && (not args.standalones && (not args.apps && no_targets args))

unfoldable pub implicit_targets : Args → List Vm → List Vm
unfolding class_targets
implicit_targets args domains =
    if args.all_targets || default_targeting args
    then filter (λ v. not (is_app v.klass || is_disp v.klass) || v.running) (updatable domains)
    else class_targets args domains

abbrev pub dedup : List String → List String
dedup [] = []
dedup (x ∷ xs) = let rest = dedup xs in if contains rest x then rest else x ∷ rest

-- `", ".join(texts)`
abbrev pub join : List String → String
join [] = ""
join (x ∷ []) = x
join (x ∷ (y ∷ ys)) = x <> ", " <> join (y ∷ ys)

-- The message of the `ArgumentError`, with the unknown names in some order of the set.
unfoldable pub unknown_names : List String → List Vm → String
unfolding contains
unknown_names wanted explicit =
    let unknowns = dedup (filter (λ n. not (contains (names explicit) n)) wanted) in
    if nat_eq (length unknowns) 1
    then "Unknown qube name: " <> join unknowns
    else "Unknown qube names: " <> join unknowns

abbrev pub explicit_targets : List String → List Vm → List Vm
explicit_targets wanted domains = filter (λ v. contains wanted v.name) domains

-- The part under `if args.targets:`.
unfoldable pub add_explicit : String → List Vm → List Vm → Result (List Vm)
unfolding unknown_names
add_explicit text domains targets =
    let wanted = split b',' text in
    let explicit = explicit_targets wanted domains in
    if nat_eq (length wanted) (length explicit)
    then ok (update targets explicit)
    else err (argument_error (unknown_names wanted explicit))

-- The comprehension that leaves out the qubes with `skip-update`. A feature call may raise.
unfoldable pub drop_skip_update : List Vm → Result (List Vm)
drop_skip_update [] = ok []
drop_skip_update (vm ∷ vms) = get_truth vm "skip-update" >>? λ skip.
    drop_skip_update vms >>? λ rest. ok (if skip then rest else vm ∷ rest)

abbrev pub not_skipped : Args → Vm → Bool
not_skipped args v = not (contains (split b',' args.skip) v.name)

unfoldable pub preselect_targets : Args → List Vm → Result (List Vm)
unfolding implicit_targets add_explicit drop_skip_update
preselect_targets args domains =
    let targets = implicit_targets args domains in
    elim args.targets [
      | none ↦ drop_skip_update (filter (not_skipped args) targets)
      | some text ↦
          let explicit =
            add_explicit text domains targets >>? λ chosen. ok (filter (not_skipped args) chosen) in
          if truthy text then explicit else drop_skip_update (filter (not_skipped args) targets)
    ]
