-- ===== src/Progress/Ascending.antt =====
-- What a progress reports ascends.
use qubes_core_admin_linux.Exec.{◌>>=◌, lift, err, ok, on_result, ◌>>?◌, Result}
use qubes_core_admin_linux.Exec.Ends.{EndsIn}
use qubes_core_admin_linux.Prelude.{
  Text, subst, ◌≡◌, refl, sym, Bool, true, false, List, [], ◌∷◌, ◌++◌, if◌then◌else◌,
}
use qubes_core_admin_linux.Progress.{
  notify, say_stderr, say_stdout, say, Display, overall, Progress, init_progress, notify_callback,
  Floats,
}

module _ (fl : Floats) where
  -- A chain of reports from one percentage to another, each above the one before.
  abbrev pub Chain : fl.F → List fl.F → fl.F → Type 0
  Chain a [] z = a ≡ z
  Chain a (x ∷ xs) z = (fl.lt a x ≡ true) × Chain x xs z

  Chain-snoc :
      (a : fl.F) (xs : List fl.F) (y z : fl.F)
      → Chain a xs y
      → fl.lt y z ≡ true
      → Chain a (xs ++ z ∷ []) z
  Chain-snoc a [] y z e l = (subst (λ b. fl.lt b z ≡ true) (sym e) l, refl)
  Chain-snoc a (x ∷ xs) y z c l = (c.0, Chain-snoc x xs y z c.1 l)

  -- What was reported ascends from the start of the phase to the last percentage.
  abbrev pub Ascending : Progress fl → Type 0
  Ascending p = Chain p.start_percent p.reported p.last_percent

  pub init_progress-Ascending : (start stop : fl.F) → Ascending (init_progress fl start stop)
  unfolding init_progress
  init_progress-Ascending start stop = refl

  -- The property of a result, if there is one.
  abbrev pub Holds : {A : Type 0} → (A → Type 0) → Result A → Type 0
  Holds P r = on_result r P (λ _. Unit {0})

  pub Holds-bind :
      {A B : Type 0} (P : A → Type 0) (Q : B → Type 0) (r : Result A) (f : A → Result B)
      → Holds P r
      → ((a : A) → P a → Holds Q (f a))
      → Holds Q (r >>? f)
  Holds-bind P Q (ok a) f p k = k a p
  Holds-bind P Q (err e) f p k = tt

  pub Holds-of : {A : Type 0} (P : A → Type 0) (r : Result A) → ((a : A) → P a) → Holds P r
  Holds-of P (ok a) f = f a
  Holds-of P (err e) f = tt

  if-Ascending :
      (p : Progress fl) (x : fl.F)
      → Ascending p
      → (b : Bool) → fl.lt p.last_percent x ≡ b
      → Ascending (if b then record p { last_percent = x; reported = p.reported ++ x ∷ [] } else p)
  if-Ascending p x c true e = Chain-snoc p.start_percent p.reported p.last_percent x c e
  if-Ascending p x c false e = c

  notify_callback-Ascending :
      (percent : fl.F) (p : Progress fl)
      → Ascending p
      → Holds Ascending (notify_callback fl percent p)
  unfolding notify_callback
  notify_callback-Ascending percent p c =
      Holds-bind (λ _. Unit {0}) Ascending (overall fl percent p)
        (λ x. ok (
          if fl.lt p.last_percent x
          then record p { last_percent = x; reported = p.reported ++ x ∷ [] }
          else p))
        (Holds-of (λ _. Unit {0}) (overall fl percent p) (λ _. tt))
        (λ x u. if-Ascending p x c (fl.lt p.last_percent x) refl)

-- A display whose progress is what was put there last.
module _ (fl : Floats) {S : Type 0} (d : Display fl S) where
  abbrev pub Lawful : Type 0
  Lawful = (p : Progress fl) (s : S) → d.shown (d.show p s) ≡ p

  -- The reports of the display in a state ascend.
  abbrev pub Climbs : S → Type 0
  Climbs s = Ascending fl (d.shown s)

  module _ (lawful : Lawful) where
    show-Climbs : (p : Progress fl) (s : S) → Ascending fl p → Climbs (d.show p s)
    show-Climbs p s c = subst (Ascending fl) (sym (lawful p s)) c

    pub say-Climbs : (line : Text) (s : S) → Climbs s → EndsIn Climbs (say fl d line s)
    unfolding say
    say-Climbs line s c = show-Climbs _ s c

    pub say_stdout-Climbs :
        (line : Text) (s : S) → Climbs s → EndsIn Climbs (say_stdout fl d line s)
    unfolding say_stdout
    say_stdout-Climbs line s c = show-Climbs _ s c

    pub say_stderr-Climbs :
        (line : Text) (s : S) → Climbs s → EndsIn Climbs (say_stderr fl d line s)
    unfolding say_stderr
    say_stderr-Climbs line s c = show-Climbs _ s c

    notify-result :
        (r : Result (Progress fl)) (s : S)
        → Climbs s
        → Holds fl (Ascending fl) r
        → EndsIn Climbs (on_result r (λ p. (ok tt, d.show p s)) (λ e. (err e, s)))
    notify-result (ok p) s c h = show-Climbs p s h
    notify-result (err e) s c h = c

    pub notify-Climbs : (percent : fl.F) (s : S) → Climbs s → EndsIn Climbs (notify fl d percent s)
    unfolding notify
    notify-Climbs percent s c =
        notify-result (notify_callback fl percent (d.shown s)) s c
          (notify_callback-Ascending fl percent (d.shown s) c)

    -- `notify_callback` of a percentage that may raise
    pub lift-notify-Climbs :
        (r : Result fl.F) (s : S) → Climbs s → EndsIn Climbs ((lift r >>= notify fl d) s)
    lift-notify-Climbs (ok x) s c = notify-Climbs x s c
    lift-notify-Climbs (err e) s c = c
