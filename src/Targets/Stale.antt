-- ===== src/Targets/Stale.antt =====
-- vmupdate/utils.py: `get_feature`, `get_boolean_feature` and `is_stale`.
use qubes_core_admin_linux.Exec.{Result, ok, recover, ◌>>?◌, catches_access, catches_communication}
use qubes_core_admin_linux.Prelude.{
  ℕ, ◌-◌, ◌/◌, Bool, false, not, String, Option, none, some, contains, truthy, ltb, if◌then◌else◌,
  ◌==◌,
}
use qubes_core_admin_linux.Vm.{Vm}

unfoldable pub get_feature : Vm → String → Option String → Result (Option String)
get_feature vm name default =
    recover catches_access default
      (vm.feature name >>? λ v. ok (elim v [ none ↦ default | some t ↦ some t ]))

unfoldable pub get_boolean_feature : Vm → String → Bool → Result Bool
unfolding get_feature
get_boolean_feature vm name default =
    get_feature vm name none >>? λ result. ok (elim result [ none ↦ default | some t ↦ truthy t ])

-- The current time, and `datetime.fromisoformat`, both in seconds since the epoch.
pub record Clock : Type 0 where
  pub today : ℕ
  pub fromisoformat : String → Result ℕ
  -- datetime.fromtimestamp(0).strftime("%Y-%m-%d %H:%M:%S")
  pub epoch : String

-- `(today - last_update).days > period`. The days of a negative difference are negative.
unfoldable pub older_than : ℕ → ℕ → ℕ → Bool
older_than today last period = ltb period ((today - last) / 86400)

-- The body of the `try` of `is_stale`.
check_stale : Clock → Vm → ℕ → Result Bool
unfolding older_than
check_stale clock vm period = vm.feature_keys >>? λ ks.
    if not (contains ks "qrexec")
    then ok false
    else vm.feature "os" >>? λ os.
        if not (elim os [ none ↦ false | some t ↦ t == "Linux" ])
        then ok false
        else vm.template_feature "last-updates-check" >>? λ last.
            clock.fromisoformat (elim last [ none ↦ clock.epoch | some t ↦ t ]) >>? λ last_update.
            ok (older_than clock.today last_update period)

unfoldable pub is_stale : Clock → Vm → ℕ → Result Bool
unfolding check_stale
is_stale clock vm period = recover catches_communication false (check_stale clock vm period)
