-- ===== src/Progress/Calls/Dnf5.antt =====
-- The callbacks of libdnf5.
use qubes_core_admin_linux.Exec.Ends.{EndsIn, Ends-on_result}
use qubes_core_admin_linux.Exec.Preserves.{
  Preserves-modify, Preserves-gets, Preserves-if, Preserves-lift, Preserves-pure, Preserves-at,
  Preserves-bind, Preserves-state, Preserves,
}
use qubes_core_admin_linux.Prelude.{codes, if_ind, is_nil, ℕ, refl, true, String, ◌<>◌, ◌++◌}
use qubes_core_admin_linux.Prelude.Int.{ℤ, pos, eq_ℤ}
use qubes_core_admin_linux.Progress.{
  format_bytes, decoded, fetching_text, RawMessage, init_progress, Display, Floats,
}
use qubes_core_admin_linux.Progress.Ascending.{Climbs, Ascending, Lawful}
use qubes_core_admin_linux.Progress.Calls.{
  Preserves-notify_share, Preserves-say_stdout, Preserves-say, Preserves-notify, Steps-kept, Steps,
}
use qubes_core_admin_linux.Progress.Dnf5.{
  fetched_part, insert_id, get_id, dnf5_fetch_display, Dnf5Fetch, new_download, DownloadCallbacks,
  add_new_download, count_download, dnf5_end, dnf5_fetch_init, dnf5_mirror_failure, dnf5_progress,
  fetched_more, fetching_all, fetching_one,
}

module _ (fl : Floats) where
  abbrev d : Display fl (Dnf5Fetch fl)
  d = dnf5_fetch_display fl

  -- A callback of the download
  pub data Dnf5Step (super : DownloadCallbacks fl) (s : Dnf5Fetch fl) : Dnf5Fetch fl → Type 0 where
    step_new :
        (description : String) (total : fl.F)
        → Dnf5Step super s (add_new_download fl description total s).1
    step_dnf5_progress :
        (id : ℕ) (total downloaded : fl.F)
        → Dnf5Step super s (dnf5_progress fl super id total downloaded s).1
    step_dnf5_end :
        (id : ℕ) (status : ℤ) (msg : RawMessage)
        → Dnf5Step super s (dnf5_end fl super id status msg s).1
    step_mirror :
        (id : ℕ) (msg : RawMessage) (url metadata : String)
        → Dnf5Step super s (dnf5_mirror_failure fl super id msg url metadata s).1

  lawful : Lawful fl d
  lawful p s = refl

  add_new_download-Preserves :
      (description : String) (total : fl.F)
      → Preserves (Climbs fl d) (add_new_download fl description total)
  unfolding add_new_download new_download
  add_new_download-Preserves description total = record {
    keeps = λ s c.
        (Preserves-bind (Climbs fl d) (Preserves-notify fl d lawful (fl.of_int (pos 0)))
            (λ _. Preserves-gets (Climbs fl d) {f = λ t. t.count})).keeps
          (new_download fl description total s) c;
  }

  fetching_all-Preserves : Preserves (Climbs fl d) (fetching_all fl)
  unfolding fetching_all
  fetching_all-Preserves = Preserves-at (Climbs fl d) (λ s.
      Preserves-if (Climbs fl d) s.fetching_notified (Preserves-pure (Climbs fl d)) (
        Preserves-bind (Climbs fl d)
          (Preserves-lift (Climbs fl d) (format_bytes fl s.bytes_to_fetch))
          (λ size.
            Preserves-bind (Climbs fl d)
              (Preserves-say fl d lawful (fetching_text (pos s.count) size))
              (λ _.
                Preserves-modify (Climbs fl d) (λ t. record t { fetching_notified = true })
                  (λ _ c. c)))))

  fetching_one-Preserves :
      (id : ℕ) (total known : fl.F) → Preserves (Climbs fl d) (fetching_one fl id total known)
  unfolding fetching_one
  fetching_one-Preserves id total known = Preserves-at (Climbs fl d) (λ s.
      Preserves-if (Climbs fl d) (fl.eq known (fl.of_int (pos 0)))
        (Preserves-bind (Climbs fl d) (Preserves-lift (Climbs fl d) (get_id id s.package_names))
          (λ name.
            Preserves-bind (Climbs fl d) (Preserves-lift (Climbs fl d) (format_bytes fl total))
              (λ size.
                Preserves-say fl d lawful
                  (codes ("Fetching " <> (name <> (" [" <> (size <> "]"))))))))
        (Preserves-pure (Climbs fl d)))

  fetched_more-Preserves :
      (id : ℕ) (downloaded total : fl.F)
      → Preserves (Climbs fl d) (fetched_more fl id downloaded total)
  unfolding fetched_more
  fetched_more-Preserves id downloaded total =
      Preserves-bind (Climbs fl d)
        (Preserves-modify (Climbs fl d)
          (λ s. record s { package_bytes = insert_id id downloaded s.package_bytes }) (λ _ c. c))
        (λ _. Preserves-notify_share fl d lawful (fetched_part fl))

  count_download-Preserves :
      (id : ℕ) (total downloaded : fl.F)
      → Preserves (Climbs fl d) (count_download fl id total downloaded)
  unfolding count_download
  count_download-Preserves id total downloaded = record {
    keeps = λ s c.
        Ends-on_result (λ _. Climbs fl d) (Climbs fl d) (get_id id s.package_bytes) _ _
          (λ known.
            if_ind (EndsIn (Climbs fl d)) (fl.lt known downloaded)
              ((Preserves-bind (Climbs fl d) (fetching_one-Preserves id total known)
                  (λ _. fetched_more-Preserves id downloaded total)).keeps
                (record s { bytes_fetched = fl.add s.bytes_fetched (fl.sub downloaded known) }) c)
              c)
          (λ e. c);
  }

  dnf5_progress-Preserves :
      (super : DownloadCallbacks fl) (id : ℕ) (total downloaded : fl.F)
      → Preserves (Climbs fl d) (dnf5_progress fl super id total downloaded)
  unfolding dnf5_progress
  dnf5_progress-Preserves super id total downloaded =
      Preserves-bind (Climbs fl d)
        (Preserves-bind (Climbs fl d) fetching_all-Preserves
          (λ _. count_download-Preserves id total downloaded))
        (λ _. Preserves-pure (Climbs fl d))

  dnf5_end-Preserves :
      (super : DownloadCallbacks fl) (id : ℕ) (status : ℤ) (msg : RawMessage)
      → Preserves (Climbs fl d) (dnf5_end fl super id status msg)
  unfolding dnf5_end
  dnf5_end-Preserves super id status msg =
      Preserves-bind (Climbs fl d)
        (Preserves-if (Climbs fl d) (eq_ℤ status (pos 0)) (Preserves-pure (Climbs fl d)) (
          Preserves-if (Climbs fl d) (is_nil (decoded msg)) (Preserves-pure (Climbs fl d))
            (Preserves-say_stdout fl d lawful (decoded msg))))
        (λ _. Preserves-pure (Climbs fl d))

  mirror_failure-Preserves :
      (super : DownloadCallbacks fl) (id : ℕ) (msg : RawMessage) (url metadata : String)
      → Preserves (Climbs fl d) (dnf5_mirror_failure fl super id msg url metadata)
  unfolding dnf5_mirror_failure
  mirror_failure-Preserves super id msg url metadata = Preserves-at (Climbs fl d) (λ s.
      Preserves-bind (Climbs fl d) (Preserves-lift (Climbs fl d) (get_id id s.package_names))
        (λ name.
          Preserves-bind (Climbs fl d)
            (Preserves-say_stdout fl d lawful (
              codes ("Fetching " <> (metadata <> (" failure (" <> (name <> ") ")))) ++ decoded msg))
            (λ _. Preserves-pure (Climbs fl d))))

  Dnf5Step-Climbs :
      (super : DownloadCallbacks fl) (s t : Dnf5Fetch fl)
      → Dnf5Step super s t
      → Climbs fl d s
      → Climbs fl d t
  Dnf5Step-Climbs super s t (step_new description total) =
      Preserves-state (Climbs fl d) _ (add_new_download-Preserves description total) s
  Dnf5Step-Climbs super s t (step_dnf5_progress id total downloaded) =
      Preserves-state (Climbs fl d) _ (dnf5_progress-Preserves super id total downloaded) s
  Dnf5Step-Climbs super s t (step_dnf5_end id status msg) =
      Preserves-state (Climbs fl d) _ (dnf5_end-Preserves super id status msg) s
  Dnf5Step-Climbs super s t (step_mirror id msg url metadata) =
      Preserves-state (Climbs fl d) _ (mirror_failure-Preserves super id msg url metadata) s

  -- Whatever callbacks libdnf5 makes during a download, for known ids or not, and whether or not they
  -- raise, the percentages that are reported ascend from the start of the phase.
  pub dnf5_fetch_ascends :
      (super : DownloadCallbacks fl) (start stop : fl.F) (s : Dnf5Fetch fl)
      → Steps (Dnf5Step super) (dnf5_fetch_init fl (init_progress fl start stop)) s
      → Ascending fl s.progress
  unfolding dnf5_fetch_init init_progress
  dnf5_fetch_ascends super start stop s h =
      Steps-kept (Dnf5Step super) (Climbs fl d) (Dnf5Step-Climbs super) h refl
