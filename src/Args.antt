-- ===== src/Args.antt =====
-- The namespace that `parse_args` of vmupdate/vmupdate.py returns, and its own check. The reading
-- of the command line is argparse's.
use qubes_core_admin_linux.Exec.{Result, ok, err, argument_error, recover, ◌>>?◌, catches_access}
use qubes_core_admin_linux.Prelude.{
  ℕ, Bool, true, not, String, Option, none, some, List, [], ◌∷◌, ◌++◌, truthy, if◌then◌else◌,
}
use qubes_core_admin_linux.Prelude.Int.{ℤ, pos, ltb_ℤ, pos_part}

-- The options of `AgentArgs`, which dom0 passes on to the agent.
pub record AgentArgs : Type 0 where
  pub log : String
  pub no_refresh : Bool
  pub force_upgrade : Bool
  pub no_cleanup : Bool
  pub leave_obsolete : Bool
  pub download_only : Bool
  pub show_output : Bool
  pub quiet : Bool
  pub no_progress : Bool
  pub just_print_progress : Bool

pub record Args : Type 0 where
  pub agent : AgentArgs
  pub open agent use *
  pub max_concurrency : Option ℕ
  pub dry_run : Bool
  pub signal_no_updates : Bool
  pub apply_to_sys : Bool
  pub apply_to_all : Bool
  pub force_update : Bool
  pub update_if_stale : ℕ
  pub update_if_available : Bool
  pub skip : String
  pub targets : Option String
  pub templates : Bool
  pub standalones : Bool
  pub apps : Bool
  pub all_targets : Bool
  pub display_name : Option String

-- The default of `--update-if-stale`: the feature of dom0 if it is set, read by `int`, and 7 if it
-- is not, or if qubesd denies access.
unfoldable pub default_update_if_stale : (String → Result ℤ) → Result (Option String) → Result ℤ
default_update_if_stale int answer =
    recover catches_access (pos 7)
      (answer >>? λ v. elim v [ none ↦ ok (pos 7) | some text ↦ int text ])

-- `if parsed_args.update_if_stale < 0: raise`
unfoldable pub check_update_if_stale : ℤ → Result ℕ
check_update_if_stale n =
    if ltb_ℤ n (pos 0)
    then err (argument_error "Wrong value for --update-if-stale")
    else ok (pos_part n)

-- `not args.targets`
abbrev pub no_targets : Args → Bool
no_targets args = elim args.targets [ none ↦ true | some t ↦ not (truthy t) ]

-- `keys[0]` of each option, in the order of `ALL_OPTIONS`.
abbrev flag : String → Bool → List String
flag name on = if on then name ∷ [] else []

-- `AgentArgs.to_cli_args`
unfoldable pub to_cli_args : AgentArgs → List String
to_cli_args a =
    ("--log" ∷ a.log ∷ [])
    ++ (flag "--no-refresh" a.no_refresh
        ++ (flag "--force-upgrade" a.force_upgrade
            ++ (flag "--no-cleanup" a.no_cleanup
                ++ (flag "--leave-obsolete" a.leave_obsolete
                    ++ (flag "--download-only" a.download_only
                        ++ (flag "--show-output" a.show_output
                            ++ (flag "--quiet" a.quiet
                                ++ (flag "--no-progress" a.no_progress
                                    ++ flag "--just-print-progress" a.just_print_progress))))))))
