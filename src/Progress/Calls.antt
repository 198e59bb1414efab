-- ===== src/Progress/Calls.antt =====
-- Whatever callbacks a library makes, and whether or not they raise: the states they lead to, and
-- what those keep of a display.
pub mod Dnf
pub mod Dnf5
pub mod Apt
use qubes_core_admin_linux.Exec.{err, ok, lift, ◌>>=◌, Exec, Result, gets, modify, pure}
use qubes_core_admin_linux.Exec.Ends.{EndsIn, EndsIn-bind, Ends-if, Ends-on_result, state-Ends}
use qubes_core_admin_linux.Exec.Preserves.{Preserves}
use qubes_core_admin_linux.Prelude.{
  Text, subst, ℕ, zero, suc, ◌+◌, ◌-◌, ◌≤◌, ◌<◌, max, ◌≡◌, ◌≢◌, refl, sym, ap, ◌∙◌, ◌↔◌, ◌⊎◌, inl,
  inr, Bool, true, false, not, ◌&&◌, ◌||◌, String, ◌<>◌, Option, none, some, List, [], ◌∷◌, ◌++◌,
  if◌then◌else◌, arith,
}
use qubes_core_admin_linux.Progress.{
  say_stderr, say_stdout, say, notify_share, notify, Display, Floats,
}
use qubes_core_admin_linux.Progress.Ascending.{
  say-Climbs, say_stderr-Climbs, say_stdout-Climbs, Ascending, lift-notify-Climbs, Climbs,
  notify-Climbs, Lawful,
}

-- Any number of steps
pub data Steps {S : Type 0} (Step : S → S → Type 0) (s : S) : S → Type 0 where
  stay : Steps Step s s
  next : {t u : S} → Steps Step s t → Step t u → Steps Step s u

pub Steps-kept :
    {S : Type 0} (Step : S → S → Type 0) (P : S → Type 0)
    → ((t u : S) → Step t u → P t → P u)
    → {s u : S} → Steps Step s u
    → P s
    → P u
Steps-kept Step P kept stay p = p
Steps-kept Step P kept (next {t} {u} h e) p = kept t u e (Steps-kept Step P kept h p)

module _ (fl : Floats) {S : Type 0} (d : Display fl S) (lawful : Lawful fl d) where
  pub Preserves-say : (line : Text) → Preserves (Climbs fl d) (say fl d line)
  Preserves-say line = record { keeps = say-Climbs fl d lawful line }

  pub Preserves-say_stdout : (line : Text) → Preserves (Climbs fl d) (say_stdout fl d line)
  Preserves-say_stdout line = record { keeps = say_stdout-Climbs fl d lawful line }

  pub Preserves-say_stderr : (line : Text) → Preserves (Climbs fl d) (say_stderr fl d line)
  Preserves-say_stderr line = record { keeps = say_stderr-Climbs fl d lawful line }

  pub Preserves-notify : (percent : fl.F) → Preserves (Climbs fl d) (notify fl d percent)
  Preserves-notify percent = record { keeps = notify-Climbs fl d lawful percent }

  pub Preserves-notify_share :
      (share_of : S → Result fl.F) → Preserves (Climbs fl d) (notify_share fl d share_of)
  unfolding notify_share
  Preserves-notify_share share_of = record {
    keeps = λ s c. lift-notify-Climbs fl d lawful (share_of s) s c;
  }
