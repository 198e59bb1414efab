-- ===== src/Progress/Calls/Apt.antt =====
-- The callbacks of python-apt.
use qubes_core_admin_linux.Exec.Preserves.{
  Preserves-pure, Preserves-modify, Preserves-lift, Preserves-bind, Preserves-if, Preserves-at,
  Preserves-state, Preserves,
}
use qubes_core_admin_linux.Prelude.{subst, codes, ◌≡◌, refl, sym, true, not, ◌&&◌, String, ◌<>◌}
use qubes_core_admin_linux.Prelude.Int.{pos}
use qubes_core_admin_linux.Progress.{format_bytes, fetching_text, share, Display, Floats}
use qubes_core_admin_linux.Progress.Apt.{
  fetch_action_title, fetch_action, apt_fetch_display, apt_start, apt_stop, AptFetch, apt_fail,
  apt_fetching, pulse,
}
use qubes_core_admin_linux.Progress.Ascending.{Climbs, Ascending, Lawful}
use qubes_core_admin_linux.Progress.Calls.{
  Preserves-notify_share, Preserves-notify, Preserves-say, Preserves-say_stderr, Steps-kept, Steps,
}

module _ (fl : Floats) where
  abbrev d : Display fl (AptFetch fl)
  d = apt_fetch_display fl

  -- A callback of the acquisition. Between two of them, and in its `start` and `stop`, the library
  -- changes its own part of the state.
  pub data AptStep (s : AptFetch fl) : AptFetch fl → Type 0 where
    step_library : (t : AptFetch fl) → t.progress ≡ s.progress → AptStep s t
    step_fail :
        (shortdesc description uri : String) → AptStep s (apt_fail fl shortdesc description uri s).1
    step_pulse : AptStep s (pulse fl s).1
    step_apt_start :
        (super : AptFetch fl → AptFetch fl)
        → ((t : AptFetch fl) → (super t).progress ≡ t.progress)
        → AptStep s (apt_start fl super s).1
    step_stop :
        (super : AptFetch fl → AptFetch fl)
        → ((t : AptFetch fl) → (super t).progress ≡ t.progress)
        → AptStep s (apt_stop fl super s).1

  lawful : Lawful fl d
  lawful p s = refl

  apt_fail-Preserves :
      (shortdesc description uri : String)
      → Preserves (Climbs fl d) (apt_fail fl shortdesc description uri)
  unfolding apt_fail
  apt_fail-Preserves shortdesc description uri = Preserves-at (Climbs fl d) (λ s.
      Preserves-say_stderr fl d lawful (
        codes (
          "Fail to "
          <> (fetch_action fl s
              <> (" " <> (shortdesc <> (": " <> (description <> (" from " <> uri)))))))))

  apt_fetching-Preserves : Preserves (Climbs fl d) (apt_fetching fl)
  unfolding apt_fetching
  apt_fetching-Preserves = Preserves-at (Climbs fl d) (λ s.
      Preserves-if (Climbs fl d) (not s.is_refresh && not s.fetching_notified)
        (Preserves-bind (Climbs fl d)
          (Preserves-lift (Climbs fl d) (format_bytes fl (fl.of_int s.total_bytes)))
          (λ size.
            Preserves-bind (Climbs fl d)
              (Preserves-say fl d lawful (fetching_text s.total_items size))
              (λ _.
                Preserves-modify (Climbs fl d) (λ t. record t { fetching_notified = true })
                  (λ _ c. c))))
        (Preserves-pure (Climbs fl d)))

  pulse-Preserves : Preserves (Climbs fl d) (pulse fl)
  unfolding pulse
  pulse-Preserves =
      Preserves-bind (Climbs fl d)
        (Preserves-bind (Climbs fl d) apt_fetching-Preserves
          (λ _. Preserves-notify_share fl d lawful (λ s. share fl s.current_bytes s.total_bytes)))
        (λ _. Preserves-pure (Climbs fl d))

  module _ (super : AptFetch fl → AptFetch fl)
      (same : (t : AptFetch fl) → (super t).progress ≡ t.progress) where
    apt_start-Preserves : Preserves (Climbs fl d) (apt_start fl super)
    unfolding apt_start
    apt_start-Preserves = Preserves-at (Climbs fl d) (λ s.
        Preserves-bind (Climbs fl d)
          (Preserves-bind (Climbs fl d)
            (Preserves-if (Climbs fl d) s.is_refresh
              (Preserves-say fl d lawful (codes "Refreshing available packages."))
              (Preserves-pure (Climbs fl d)))
            (λ _.
              Preserves-modify (Climbs fl d) super (λ t c. subst (Ascending fl) (sym (same t)) c)))
          (λ _. Preserves-notify fl d lawful (fl.of_int (pos 0))))

    apt_stop-Preserves : Preserves (Climbs fl d) (apt_stop fl super)
    unfolding apt_stop
    apt_stop-Preserves = Preserves-at (Climbs fl d) (λ s.
        Preserves-bind (Climbs fl d)
          (Preserves-bind (Climbs fl d)
            (Preserves-say fl d lawful (codes (fetch_action_title fl s <> "ed.")))
            (λ _.
              Preserves-modify (Climbs fl d) super (λ t c. subst (Ascending fl) (sym (same t)) c)))
          (λ _. Preserves-notify fl d lawful (fl.of_int (pos 100))))

  AptStep-Climbs : (s t : AptFetch fl) → AptStep s t → Climbs fl d s → Climbs fl d t
  AptStep-Climbs s t (step_library u e) c = subst (Ascending fl) (sym e) c
  AptStep-Climbs s t (step_fail shortdesc description uri) c =
      Preserves-state (Climbs fl d) _ (apt_fail-Preserves shortdesc description uri) s c
  AptStep-Climbs s t step_pulse c = Preserves-state (Climbs fl d) _ pulse-Preserves s c
  AptStep-Climbs s t (step_apt_start super same) c =
      Preserves-state (Climbs fl d) _ (apt_start-Preserves super same) s c
  AptStep-Climbs s t (step_stop super same) c =
      Preserves-state (Climbs fl d) _ (apt_stop-Preserves super same) s c

  -- Whatever callbacks apt makes during an acquisition, and whether or not they raise, the percentages
  -- that are reported ascend from those before it, if the library leaves them alone.
  pub apt_fetch_ascends :
      (s t : AptFetch fl) → Steps AptStep s t → Ascending fl s.progress → Ascending fl t.progress
  apt_fetch_ascends s t h c = Steps-kept AptStep (Climbs fl d) AptStep-Climbs h c
