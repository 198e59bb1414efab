-- ===== src/Progress/Dnf5.antt =====
-- The progress classes of vmupdate/agent/source/dnf/dnf5_api.py, one function for each callback of
-- libdnf5. What the library's own callbacks return is a parameter.
use qubes_core_admin_linux.Exec.{
  modify, gets, ◌>>=◌, assertion_error, key_error, lift, ok, on_result, pure, ◌>>◌, Exec, err,
  ◌>>?◌, Result,
}
use qubes_core_admin_linux.Prelude.{
  codes, contains, nat_eq, ℕ, suc, Bool, true, false, String, ◌<>◌, Option, none, some, List, [],
  ◌∷◌, ◌++◌, if◌then◌else◌,
}
use qubes_core_admin_linux.Prelude.Int.{eq_ℤ, ℤ, pos}
use qubes_core_admin_linux.Progress.{
  notify_share, decoded, fetching_text, say_stdout, format_bytes, print_message, share, notify, say,
  Display, RawMessage, Progress, Floats,
}

-- A dict with the ids of downloads as its keys
abbrev pub lookup_id : {V : Type 0} → ℕ → List (ℕ × V) → Option V
lookup_id k [] = none
lookup_id k ((j, v) ∷ d) = if nat_eq j k then some v else lookup_id k d

abbrev pub insert_id : {V : Type 0} → ℕ → V → List (ℕ × V) → List (ℕ × V)
insert_id k v [] = (k, v) ∷ []
insert_id k v ((j, w) ∷ d) =
    let rest = insert_id k v d in if nat_eq j k then (j, v) ∷ d else (j, w) ∷ rest

-- `d[k]`
abbrev pub get_id : {V : Type 0} → ℕ → List (ℕ × V) → Result V
get_id k d = elim (lookup_id k d) [ none ↦ err (key_error "user_cb_data") | some v ↦ ok v ]

module _ (fl : Floats) where
  -- `DownloadCallbacks`: what its methods return
  pub record DownloadCallbacks : Type 0 where
    pub default_progress : ℕ → fl.F → fl.F → ℤ
    pub default_end : ℕ → ℤ → RawMessage → ℤ
    pub default_mirror_failure : ℕ → RawMessage → String → String → ℤ

  -- `FetchProgress`
  pub record Dnf5Fetch : Type 0 where
    pub progress : Progress fl
    pub bytes_to_fetch : fl.F
    pub bytes_fetched : fl.F
    pub package_bytes : List (ℕ × fl.F)
    pub package_names : List (ℕ × String)
    pub count : ℕ
    pub fetching_notified : Bool

  abbrev pub dnf5_fetch_display : Display fl Dnf5Fetch
  dnf5_fetch_display = record { shown = λ s. s.progress; show = λ p s. record s { progress = p } }

  -- `FetchProgress.__init__`, for the progress that `init` sets
  unfoldable pub dnf5_fetch_init : Progress fl → Dnf5Fetch
  dnf5_fetch_init p = record {
    progress = p;
    bytes_to_fetch = fl.of_int (pos 0);
    bytes_fetched = fl.of_int (pos 0);
    package_bytes = [];
    package_names = [];
    count = 0;
    fetching_notified = false;
  }

  -- The state of `add_new_download` before it notifies
  unfoldable pub new_download : String → fl.F → Dnf5Fetch → Dnf5Fetch
  new_download description total s = record s {
    count = suc s.count;
    bytes_to_fetch = fl.add s.bytes_to_fetch total;
    package_bytes = insert_id (suc s.count) (fl.of_int (pos 0)) s.package_bytes;
    package_names = insert_id (suc s.count) description s.package_names;
  }

  -- `add_new_download`
  unfoldable pub add_new_download : String → fl.F → Exec Dnf5Fetch ℕ
  add_new_download description total s =
      (notify fl dnf5_fetch_display (fl.of_int (pos 0)) >> gets (λ t. t.count))
        (new_download description total s)

  -- The line that `progress` prints once
  unfoldable pub fetching_all : Exec Dnf5Fetch Unit
  fetching_all s =
      (if s.fetching_notified
          then pure tt
          else lift (format_bytes fl s.bytes_to_fetch) >>= λ size.
              say fl dnf5_fetch_display (fetching_text (pos s.count) size)
              >> modify (λ t. record t { fetching_notified = true }))
        s

  -- The line that it prints when a download has its first bytes
  unfoldable pub fetching_one : ℕ → fl.F → fl.F → Exec Dnf5Fetch Unit
  fetching_one id total known s =
      (if fl.eq known (fl.of_int (pos 0))
          then (lift (get_id id s.package_names) >>= λ name.
              lift (format_bytes fl total) >>= λ size.
              say fl dnf5_fetch_display (codes ("Fetching " <> (name <> (" [" <> (size <> "]"))))))
          else pure tt)
        s

  abbrev pub fetched_part : Dnf5Fetch → Result fl.F
  fetched_part s =
      fl.div s.bytes_fetched s.bytes_to_fetch >>? λ part. ok (fl.mul part (fl.of_int (pos 100)))

  -- What `progress` does when the download has grown
  unfoldable pub fetched_more : ℕ → fl.F → fl.F → Exec Dnf5Fetch Unit
  fetched_more id downloaded total =
      modify (λ s. record s { package_bytes = insert_id id downloaded s.package_bytes })
      >> notify_share fl dnf5_fetch_display fetched_part

  -- `progress` after its first line
  unfoldable pub count_download : ℕ → fl.F → fl.F → Exec Dnf5Fetch Unit
  count_download id total downloaded s =
      on_result (get_id id s.package_bytes)
        (λ known.
          let s' = record s { bytes_fetched = fl.add s.bytes_fetched (fl.sub downloaded known) } in
          if fl.lt known downloaded
          then (fetching_one id total known >> fetched_more id downloaded total) s'
          else (ok tt, s'))
        (λ e. (err e, s))

  -- `progress`
  unfoldable pub dnf5_progress : DownloadCallbacks → ℕ → fl.F → fl.F → Exec Dnf5Fetch ℤ
  dnf5_progress super id total downloaded =
      fetching_all
      >> count_download id total downloaded
      >> pure (super.default_progress id total downloaded)

  -- `end`
  unfoldable pub dnf5_end : DownloadCallbacks → ℕ → ℤ → RawMessage → Exec Dnf5Fetch ℤ
  dnf5_end super id status msg =
      (if eq_ℤ status (pos 0)
        then pure tt
        else print_message (say_stdout fl dnf5_fetch_display) msg)
      >> pure (super.default_end id status msg)

  -- `mirror_failure`
  unfoldable pub dnf5_mirror_failure :
      DownloadCallbacks → ℕ → RawMessage → String → String → Exec Dnf5Fetch ℤ
  dnf5_mirror_failure super id msg url metadata s =
      (lift (get_id id s.package_names) >>= λ name.
      say_stdout fl dnf5_fetch_display
        (codes ("Fetching " <> (metadata <> (" failure (" <> (name <> ") ")))) ++ decoded msg)
      >> pure (super.default_mirror_failure id msg url metadata))
        s

  -- `UpgradeProgress`
  pub record Dnf5Upgrade : Type 0 where
    pub progress : Progress fl
    pub pgks : Option ℤ
    pub pgks_done : Option ℤ
    pub processed_packages : List String

  abbrev pub dnf5_upgrade_display : Display fl Dnf5Upgrade
  dnf5_upgrade_display = record { shown = λ s. s.progress; show = λ p s. record s { progress = p } }

  -- `UpgradeProgress.__init__`, for the progress that `init` sets
  unfoldable pub dnf5_upgrade_init : Progress fl → Dnf5Upgrade
  dnf5_upgrade_init p = record {
    progress = p;
    pgks = none;
    pgks_done = none;
    processed_packages = [];
  }

  -- `assert isinstance(n, int)`
  abbrev pub asserted : Option ℤ → Result ℤ
  asserted none = err assertion_error
  asserted (some n) = ok n

  -- The percentage of the packages that are done, with a part of one more
  unfoldable pub package_share : ℤ → ℤ → Dnf5Upgrade → Result fl.F
  package_share amount total s = fl.ratio amount total >>? λ part. asserted s.pgks_done >>? λ done.
      asserted s.pgks >>? λ all_pkgs.
      fl.div (fl.add (fl.of_int done) part) (fl.of_int all_pkgs) >>? λ x.
      ok (fl.mul x (fl.of_int (pos 100)))

  -- `install_progress` and `uninstall_progress`, which differ in the word they print
  unfoldable pub package_progress : String → String → ℤ → ℤ → Exec Dnf5Upgrade Unit
  package_progress word nevra amount total s =
      ((if contains s.processed_packages nevra
            then pure tt
            else say fl dnf5_upgrade_display (codes (word <> (" " <> nevra)))
              >> modify (λ t. record t { processed_packages = nevra ∷ t.processed_packages }))
          >> notify_share fl dnf5_upgrade_display (package_share amount total))
        s

  -- `install_progress`
  unfoldable pub install_progress : String → ℤ → ℤ → Exec Dnf5Upgrade Unit
  install_progress = package_progress "Installing"

  -- `uninstall_progress`
  unfoldable pub uninstall_progress : String → ℤ → ℤ → Exec Dnf5Upgrade Unit
  uninstall_progress = package_progress "Uninstalling"

  -- `transaction_start`
  unfoldable pub transaction_start : ℤ → Exec Dnf5Upgrade Unit
  transaction_start total s = (ok tt, record s { pgks_done = some (pos 0); pgks = some total })

  -- `elem_progress`
  unfoldable pub elem_progress : ℤ → ℤ → Exec Dnf5Upgrade Unit
  elem_progress amount total s =
      notify_share fl dnf5_upgrade_display (λ _. share fl amount total)
        (record s { pgks_done = some amount })

  -- `script_start`, for the parts of the nevra
  unfoldable pub script_start : String → String → String → String → String → Exec Dnf5Upgrade Unit
  script_start name epoch version release arch = say fl dnf5_upgrade_display (
      codes (
        "Running rpm scriptlet for "
        <> (name <> ("-" <> (epoch <> (":" <> (version <> ("-" <> (release <> ("." <> arch))))))))))
