-- ===== src/Progress/Calls/Dnf.antt =====
-- The callbacks of dnf.
use qubes_core_admin_linux.Exec.Preserves.{
  Preserves-modify, Preserves-lift, Preserves-pure, Preserves-at, Preserves-bind, Preserves-if,
  Preserves-state, Preserves,
}
use qubes_core_admin_linux.Prelude.{[], ◌<>◌, codes, is_nil, refl, Bool, String, some}
use qubes_core_admin_linux.Prelude.Int.{ℤ, pos, eq_ℤ}
use qubes_core_admin_linux.Progress.{
  format_bytes, decoded, fetching_text, RawMessage, init_progress, Display, Floats,
}
use qubes_core_admin_linux.Progress.Ascending.{Climbs, Ascending, Lawful}
use qubes_core_admin_linux.Progress.Calls.{
  Preserves-notify, Preserves-say_stdout, Preserves-say, Preserves-notify_share, Steps-kept, Steps,
}
use qubes_core_admin_linux.Progress.Dnf.{
  action_title, fetched_share, count_bytes, dnf_fetch_display, refresh_started, DnfFetch, dnf_end,
  dnf_fetch_init, dnf_message, dnf_progress, dnf_start, fetch_started,
}

module _ (fl : Floats) where
  abbrev d : Display fl (DnfFetch fl)
  d = dnf_fetch_display fl

  -- A callback of the download
  pub data DnfStep (s : DnfFetch fl) : DnfFetch fl → Type 0 where
    step_start : (files size : ℤ) → DnfStep s (dnf_start fl files size s).1
    step_progress : (payload : String) (done : ℤ) → DnfStep s (dnf_progress fl payload done s).1
    step_end :
        (payload : String) (status : ℤ) (msg : RawMessage)
        → DnfStep s (dnf_end fl payload status msg s).1
    step_message : (msg : RawMessage) → DnfStep s (dnf_message fl msg s).1

  lawful : Lawful fl d
  lawful p s = refl

  dnf_message-Preserves : (msg : RawMessage) → Preserves (Climbs fl d) (dnf_message fl msg)
  unfolding dnf_message
  dnf_message-Preserves msg =
      Preserves-if (Climbs fl d) (is_nil (decoded msg)) (Preserves-pure (Climbs fl d))
        (Preserves-say_stdout fl d lawful (decoded msg))

  dnf_end-Preserves :
      (payload : String) (status : ℤ) (msg : RawMessage)
      → Preserves (Climbs fl d) (dnf_end fl payload status msg)
  unfolding dnf_end
  dnf_end-Preserves payload status msg = Preserves-at (Climbs fl d) (λ s.
      Preserves-if (Climbs fl d) (eq_ℤ status (pos 0))
        (Preserves-say fl d lawful (codes (payload <> (": " <> (action_title fl s <> "ed")))))
        (dnf_message-Preserves msg))

  dnf_progress-Preserves :
      (payload : String) (done : ℤ) → Preserves (Climbs fl d) (dnf_progress fl payload done)
  unfolding dnf_progress count_bytes
  dnf_progress-Preserves payload done = record {
    keeps = λ s c.
        (Preserves-notify_share fl d lawful (fetched_share fl)).keeps
          (count_bytes fl payload done s) c;
  }

  fetch_started-Preserves : (files size : ℤ) → Preserves (Climbs fl d) (fetch_started fl files size)
  unfolding fetch_started
  fetch_started-Preserves files size =
      Preserves-bind (Climbs fl d) (Preserves-lift (Climbs fl d) (format_bytes fl (fl.of_int size)))
        (λ text.
          Preserves-bind (Climbs fl d) (Preserves-say fl d lawful (fetching_text files text))
            (λ _. Preserves-modify (Climbs fl d) (λ s. record s { package_bytes = [] }) (λ _ c. c)))

  dnf_start-Preserves : (files size : ℤ) → Preserves (Climbs fl d) (dnf_start fl files size)
  unfolding dnf_start refresh_started
  dnf_start-Preserves files size = record {
    keeps = λ s c.
        (Preserves-bind (Climbs fl d)
            (Preserves-if (Climbs fl d) s.is_refresh
              (Preserves-say fl d lawful (codes "Refreshing available packages."))
              (fetch_started-Preserves files size))
            (λ _. Preserves-notify fl d lawful (fl.of_int (pos 0)))).keeps
          (record s { bytes_to_fetch = some size }) c;
  }

  DnfStep-Climbs : (s t : DnfFetch fl) → DnfStep s t → Climbs fl d s → Climbs fl d t
  DnfStep-Climbs s t (step_start files size) =
      Preserves-state (Climbs fl d) _ (dnf_start-Preserves files size) s
  DnfStep-Climbs s t (step_progress payload done) =
      Preserves-state (Climbs fl d) _ (dnf_progress-Preserves payload done) s
  DnfStep-Climbs s t (step_end payload status msg) =
      Preserves-state (Climbs fl d) _ (dnf_end-Preserves payload status msg) s
  DnfStep-Climbs s t (step_message msg) =
      Preserves-state (Climbs fl d) _ (dnf_message-Preserves msg) s

  -- Whatever callbacks dnf makes during a download, and whether or not they raise, the percentages
  -- that are reported ascend from the start of the phase.
  pub dnf_fetch_ascends :
      (refresh : Bool) (start stop : fl.F) (s : DnfFetch fl)
      → Steps DnfStep (dnf_fetch_init fl refresh (init_progress fl start stop)) s
      → Ascending fl s.progress
  unfolding dnf_fetch_init init_progress
  dnf_fetch_ascends refresh start stop s h = Steps-kept DnfStep (Climbs fl d) DnfStep-Climbs h refl
