-- ===== src/Progress/Dnf.antt =====
-- The progress classes of vmupdate/agent/source/dnf/dnf_api.py, one function for each callback of dnf.
pub mod Balance
use qubes_core_admin_linux.Exec.{
  modify, gets, assertion_error, key_error, pure, ◌>>=◌, ◌>>?◌, ◌>>◌, err, lift, ok, raise, Exec,
  Result,
}
use qubes_core_admin_linux.Prelude.{
  codes, is_nil, nat_eq, insert, lookup, ℕ, zero, suc, ◌+◌, ◌-◌, ◌≤◌, ◌<◌, max, ◌≡◌, ◌≢◌, refl, sym,
  ap, ◌∙◌, ◌↔◌, ◌⊎◌, inl, inr, Bool, true, false, not, ◌&&◌, ◌||◌, String, ◌<>◌, Option, none, some,
  List, [], ◌∷◌, ◌++◌, if◌then◌else◌, arith,
}
use qubes_core_admin_linux.Prelude.Int.{ℤ, pos, ◌+ℤ◌, ◌-ℤ◌, eq_ℤ}
use qubes_core_admin_linux.Progress.{
  notify_share, print_message, fetching_text, format_bytes, notify, say_stdout, share, decoded,
  is_empty, say_stderr, say, Display, RawMessage, Progress, Floats,
}

-- `self.package_bytes.get(payload, 0)`
abbrev pub or_zero : Option ℤ → ℤ
or_zero none = pos 0
or_zero (some n) = n

unfoldable pub known_bytes : String → List (String × ℤ) → ℤ
known_bytes payload d = or_zero (lookup payload d)

module _ (fl : Floats) where
  -- `FetchProgress`; `is_refresh` is `self.action == "refresh"`.
  pub record DnfFetch : Type 0 where
    pub progress : Progress fl
    pub is_refresh : Bool
    pub bytes_to_fetch : Option ℤ
    pub bytes_fetched : ℤ
    pub package_bytes : List (String × ℤ)

  abbrev pub dnf_fetch_display : Display fl DnfFetch
  dnf_fetch_display = record { shown = λ s. s.progress; show = λ p s. record s { progress = p } }

  -- `FetchProgress.__init__`, for the progress that `init` sets
  unfoldable pub dnf_fetch_init : Bool → Progress fl → DnfFetch
  dnf_fetch_init refresh p = record {
    progress = p;
    is_refresh = refresh;
    bytes_to_fetch = none;
    bytes_fetched = pos 0;
    package_bytes = [];
  }

  -- `self.action.capitalize()`
  unfoldable pub action_title : DnfFetch → String
  action_title s = if s.is_refresh then "Refresh" else "Fetch"

  -- `message`
  unfoldable pub dnf_message : RawMessage → Exec DnfFetch Unit
  dnf_message = print_message (say_stdout fl dnf_fetch_display)

  -- `end`
  unfoldable pub dnf_end : String → ℤ → RawMessage → Exec DnfFetch Unit
  dnf_end payload status msg s =
      (if eq_ℤ status (pos 0)
          then say fl dnf_fetch_display (codes (payload <> (": " <> (action_title s <> "ed"))))
          else dnf_message msg)
        s

  -- The first two lines of `progress`
  unfoldable pub count_bytes : String → ℤ → DnfFetch → DnfFetch
  count_bytes payload done s = record s {
    bytes_fetched = s.bytes_fetched +ℤ (done -ℤ known_bytes payload s.package_bytes);
    package_bytes = insert payload done s.package_bytes;
  }

  abbrev pub fetched_share : DnfFetch → Result fl.F
  fetched_share s = elim s.bytes_to_fetch [
    | none ↦ err assertion_error
    | some total ↦ share fl s.bytes_fetched total
  ]

  -- `progress`
  unfoldable pub dnf_progress : String → ℤ → Exec DnfFetch Unit
  dnf_progress payload done s =
      let s' = count_bytes payload done s in notify_share fl dnf_fetch_display fetched_share s'

  -- The two branches of `start`
  unfoldable pub refresh_started : Exec DnfFetch Unit
  refresh_started = say fl dnf_fetch_display (codes "Refreshing available packages.")

  unfoldable pub fetch_started : ℤ → ℤ → Exec DnfFetch Unit
  fetch_started total_files total_size = lift (format_bytes fl (fl.of_int total_size)) >>= λ size.
      say fl dnf_fetch_display (fetching_text total_files size)
      >> modify (λ s. record s { package_bytes = [] })

  -- `start`
  unfoldable pub dnf_start : ℤ → ℤ → Exec DnfFetch Unit
  dnf_start total_files total_size s =
      (((if s.is_refresh then refresh_started else fetch_started total_files total_size)
          >> notify fl dnf_fetch_display (fl.of_int (pos 0)))
        (record s { bytes_to_fetch = some total_size }))

  -- `UpgradeProgress`
  abbrev pub progress_display : Display fl (Progress fl)
  progress_display = record { shown = λ s. s; show = λ p s. p }

  -- `progress`, for the action's number
  unfoldable pub dnf_item_progress : ℕ → ℤ → ℤ → ℤ → ℤ → Exec (Progress fl) Unit
  dnf_item_progress action ti_done ti_total ts_done ts_total =
      if nat_eq action 6 || nat_eq action 7
      then lift (
          fl.ratio ti_done ti_total >>? λ item.
          fl.div (fl.sub (fl.add item (fl.of_int ts_done)) (fl.of_int (pos 1))) (fl.of_int ts_total)
          >>? λ part. ok (fl.mul part (fl.of_int (pos 100))))
        >>= notify fl progress_display
      else pure tt

  -- `scriptout`
  unfoldable pub dnf_scriptout : RawMessage → Exec (Progress fl) Unit
  dnf_scriptout msgs = if is_empty msgs then pure tt else say fl progress_display (decoded msgs)

  -- `filelog`, for the dict `dnf.transaction.FILE_ACTIONS`
  unfoldable pub dnf_filelog : List (String × String) → String → String → Exec (Progress fl) Unit
  dnf_filelog file_actions pkg action = elim (lookup action file_actions) [
    | none ↦ raise (key_error action)
    | some title ↦ say fl progress_display (codes (pkg <> (": " <> title)))
  ]

  -- `error`
  unfoldable pub dnf_error : RawMessage → Exec (Progress fl) Unit
  dnf_error message =
      say_stderr fl progress_display (codes "Error during installation :" ++ decoded message)
