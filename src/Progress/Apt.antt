-- ===== src/Progress/Apt.antt =====
-- The progress classes of vmupdate/agent/source/apt/apt_api.py, one function for each callback of
-- python-apt. What the library's own `start`, `stop`, `start_update` and `finish_update` do to its
-- part of the state are parameters.
use qubes_core_admin_linux.Exec.{modify, pure, ◌>>=◌, lift, ◌>>◌, Exec}
use qubes_core_admin_linux.Prelude.{codes, Bool, true, not, ◌&&◌, String, ◌<>◌, if◌then◌else◌}
use qubes_core_admin_linux.Prelude.Int.{ℤ, pos}
use qubes_core_admin_linux.Progress.{
  notify_share, fetching_text, format_bytes, share, notify, say_stderr, say, Display, Progress,
  Floats,
}
use qubes_core_admin_linux.Progress.Dnf.{progress_display}

module _ (fl : Floats) where
  -- `FetchProgress`, with the fields of `AcquireProgress` that it reads
  pub record AptFetch : Type 0 where
    pub progress : Progress fl
    pub is_refresh : Bool
    pub fetching_notified : Bool
    pub total_items : ℤ
    pub total_bytes : ℤ
    pub current_bytes : ℤ

  abbrev pub apt_fetch_display : Display fl AptFetch
  apt_fetch_display = record { shown = λ s. s.progress; show = λ p s. record s { progress = p } }

  -- `self.action`, and it with a capital
  abbrev pub fetch_action : AptFetch → String
  fetch_action s = if s.is_refresh then "refresh" else "fetch"

  abbrev pub fetch_action_title : AptFetch → String
  fetch_action_title s = if s.is_refresh then "Refresh" else "Fetch"

  -- `fail`, for the descriptions and the uri of the item
  unfoldable pub apt_fail : String → String → String → Exec AptFetch Unit
  apt_fail shortdesc description uri s =
      say_stderr fl apt_fetch_display
        (codes (
          "Fail to "
          <> (fetch_action s
              <> (" " <> (shortdesc <> (": " <> (description <> (" from " <> uri))))))))
        s

  -- The line that `pulse` prints once
  unfoldable pub apt_fetching : Exec AptFetch Unit
  apt_fetching s =
      (if not s.is_refresh && not s.fetching_notified
          then (lift (format_bytes fl (fl.of_int s.total_bytes)) >>= λ size.
              say fl apt_fetch_display (fetching_text s.total_items size)
              >> modify (λ t. record t { fetching_notified = true }))
          else pure tt)
        s

  -- `pulse`
  unfoldable pub pulse : Exec AptFetch Bool
  pulse =
      apt_fetching
      >> notify_share fl apt_fetch_display (λ s. share fl s.current_bytes s.total_bytes)
      >> pure true

  -- `start` and `stop`, for `super().start()` and `super().stop()`
  unfoldable pub apt_start : (AptFetch → AptFetch) → Exec AptFetch Unit
  apt_start super s =
      ((if s.is_refresh
            then say fl apt_fetch_display (codes "Refreshing available packages.")
            else pure tt)
          >> modify super
          >> notify fl apt_fetch_display (fl.of_int (pos 0)))
        s

  unfoldable pub apt_stop : (AptFetch → AptFetch) → Exec AptFetch Unit
  apt_stop super s =
      (say fl apt_fetch_display (codes (fetch_action_title s <> "ed."))
          >> modify super
          >> notify fl apt_fetch_display (fl.of_int (pos 100)))
        s

  -- `UpgradeProgress.status_change`
  unfoldable pub status_change : fl.F → Exec (Progress fl) Unit
  status_change = notify fl (progress_display fl)

  -- `UpgradeProgress.error`
  unfoldable pub apt_error : String → String → Exec (Progress fl) Unit
  apt_error pkg errormsg =
      say_stderr fl (progress_display fl)
        (codes ("Error during installation " <> (pkg <> (":" <> errormsg))))

  -- `start_update` and `finish_update`; what `super()` does is not seen in the progress.
  unfoldable pub start_update : Exec (Progress fl) Unit
  start_update =
      say fl (progress_display fl) (codes "Updating packages.")
      >> notify fl (progress_display fl) (fl.of_int (pos 0))

  unfoldable pub finish_update : Exec (Progress fl) Unit
  finish_update =
      say fl (progress_display fl) (codes "Updated.")
      >> notify fl (progress_display fl) (fl.of_int (pos 100))
