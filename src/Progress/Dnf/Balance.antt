-- ===== src/Progress/Dnf/Balance.antt =====
-- What the bytes that are counted as fetched have to do with those of the packages.
use qubes_core_admin_linux.Exec.{on_result, ◌>>?◌, err, ◌>>=◌, lift, ok, Result, on_result_ind}
use qubes_core_admin_linux.Exec.Ends.{Ends-if, Ends-bind, Ends}
use qubes_core_admin_linux.Prelude.{
  if_ind, subst, ◌==◌, lookup, insert, ℕ, suc, ◌≡◌, refl, sym, ap, ◌∙◌, Bool, true, false, String,
  Option, some, List, [], ◌∷◌, if◌then◌else◌, arith,
}
use qubes_core_admin_linux.Prelude.Int.{ℤ, pos, ◌+ℤ◌, ◌-ℤ◌}
use qubes_core_admin_linux.Progress.{
  notify_share, fetching_text, say, Progress, format_bytes, overall, format_units, notify_callback,
  notify, Floats,
}
use qubes_core_admin_linux.Progress.Dnf.{
  refresh_started, fetch_started, fetched_share, dnf_progress, dnf_start, or_zero,
  dnf_fetch_display, known_bytes, DnfFetch, count_bytes,
}

-- The bytes of all packages in a dict
abbrev pub total_bytes : List (String × ℤ) → ℤ
total_bytes [] = pos 0
total_bytes ((k, n) ∷ d) = n +ℤ total_bytes d

+ℤ-assoc : (a b c : ℤ) → (a +ℤ b) +ℤ c ≡ a +ℤ (b +ℤ c)
unfolding ◌+ℤ◌
+ℤ-assoc a b c = ground arith

+ℤ-move : (a b c : ℤ) → a +ℤ b ≡ c +ℤ (b +ℤ (a -ℤ c))
unfolding ◌+ℤ◌ ◌-ℤ◌
+ℤ-move a b c = ground arith

+ℤ-zero : (a : ℤ) → a ≡ a +ℤ (pos 0)
unfolding ◌+ℤ◌
+ℤ-zero a = ground arith

nil_bytes : (n : ℤ) → n +ℤ pos 0 ≡ pos 0 +ℤ (n -ℤ pos 0)
unfolding ◌+ℤ◌ ◌-ℤ◌
nil_bytes n = ground arith

swap_bytes : (m n t : ℤ) → n +ℤ t ≡ (m +ℤ t) +ℤ (n -ℤ m)
unfolding ◌+ℤ◌ ◌-ℤ◌
swap_bytes m n t = ground arith

total_bytes-if :
    (b : Bool) (j : String) (m n known : ℤ) (d rest : List (String × ℤ)) (found : Option ℤ)
    → total_bytes rest ≡ total_bytes d +ℤ (n -ℤ known)
    → or_zero found ≡ known
    → total_bytes (if b then (j, n) ∷ d else (j, m) ∷ rest)
      ≡ (m +ℤ total_bytes d) +ℤ (n -ℤ or_zero (if b then some m else found))
total_bytes-if true j m n known d rest found e f = swap_bytes m n (total_bytes d)
total_bytes-if false j m n known d rest found e f =
    (ap (λ t. m +ℤ t) e ∙ sym (+ℤ-assoc m (total_bytes d) (n -ℤ known)))
    ∙ ap (λ u. (m +ℤ total_bytes d) +ℤ (n -ℤ u)) (sym f)

total_bytes-insert :
    (k : String) (n : ℤ) (d : List (String × ℤ))
    → total_bytes (insert k n d) ≡ total_bytes d +ℤ (n -ℤ known_bytes k d)
unfolding insert lookup known_bytes
total_bytes-insert k n [] = nil_bytes n
total_bytes-insert k n ((j, m) ∷ d) =
    total_bytes-if (j == k) j m n (known_bytes k d) d (insert k n d) (lookup k d)
      (total_bytes-insert k n d) refl

module _ (fl : Floats) where
  -- What is counted is this number above the bytes of the packages.
  abbrev pub Drifts : ℤ → DnfFetch fl → Type 0
  Drifts n s = s.bytes_fetched ≡ n +ℤ total_bytes s.package_bytes

  count_bytes-Drifts :
      (n : ℤ) (k : String) (done : ℤ) (s : DnfFetch fl)
      → Drifts n s
      → Drifts n (count_bytes fl k done s)
  unfolding count_bytes
  count_bytes-Drifts n k done s e =
      (ap (λ b. b +ℤ (done -ℤ known_bytes k s.package_bytes)) e
        ∙ +ℤ-assoc n (total_bytes s.package_bytes) (done -ℤ known_bytes k s.package_bytes))
      ∙ ap (λ t. n +ℤ t) (sym (total_bytes-insert k done s.package_bytes))

  notify-Drifts :
      (n : ℤ) (x : fl.F) (s : DnfFetch fl)
      → Drifts n s
      → Drifts n (notify fl (dnf_fetch_display fl) x s).1
  unfolding notify
  notify-Drifts n x s e =
      on_result_ind {B = Result Unit × DnfFetch fl} (λ q. Drifts n q.1)
        (notify_callback fl x s.progress) (λ _ _. e) (λ _ _. e)

  -- The callbacks after the start, with the payload and its bytes
  abbrev pub after : List (String × ℤ) → DnfFetch fl → DnfFetch fl
  after [] s = s
  after ((k, done) ∷ calls) s = after calls (dnf_progress fl k done s).1

  fetched-Drifts :
      (n : ℤ) (r : Result fl.F) (s : DnfFetch fl)
      → Drifts n s
      → Drifts n ((lift r >>= notify fl (dnf_fetch_display fl)) s).1
  fetched-Drifts n (ok x) s e = notify-Drifts n x s e
  fetched-Drifts n (err x) s e = e

  dnf_progress-Drifts :
      (n : ℤ) (k : String) (done : ℤ) (s : DnfFetch fl)
      → Drifts n s
      → Drifts n (dnf_progress fl k done s).1
  unfolding dnf_progress notify_share
  dnf_progress-Drifts n k done s e =
      fetched-Drifts n (fetched_share fl (count_bytes fl k done s)) (count_bytes fl k done s)
        (count_bytes-Drifts n k done s e)

  pub after-Drifts :
      (n : ℤ) (calls : List (String × ℤ)) (s : DnfFetch fl) → Drifts n s → Drifts n (after calls s)
  after-Drifts n [] s e = e
  after-Drifts n ((k, done) ∷ calls) s e =
      after-Drifts n calls (dnf_progress fl k done s).1 (dnf_progress-Drifts n k done s e)

  -- Division by an int that is not 0 does not raise.
  abbrev pub Divides : Type 0
  Divides = (x : fl.F) (n : ℕ) → (y : fl.F) × (fl.div x (fl.of_int (pos (suc n))) ≡ ok y)

  -- A call that returns, with a property of the state
  abbrev Gives : {A : Type 0} → (DnfFetch fl → Type 0) → Result A × DnfFetch fl → Type 0
  Gives P q = Ends (λ _. P) (λ _. ⊥) q

  Gives-returns :
      (P : DnfFetch fl → Type 0) (r : Result Unit) (s : DnfFetch fl)
      → Gives P (r, s)
      → (r ≡ ok tt) × P s
  Gives-returns P (ok a) s p = (refl, p)
  Gives-returns P (err e) s p = elim p [ ]

  Gives-done :
      (P : DnfFetch fl → Type 0) (q : Result Unit × DnfFetch fl) → Gives P q → (q.0 ≡ ok tt) × P q.1
  Gives-done P q = Gives-returns P q.0 q.1

  abbrev Gets : {A : Type 0} → Result A → Type 0
  Gets {A} r = (a : A) × (r ≡ ok a)

  Gets-bind :
      {A B : Type 0} (r : Result A) (f : A → Result B)
      → Gets r
      → ((a : A) → Gets (f a))
      → Gets (r >>? f)
  Gets-bind r f (a, e) k = subst (λ x. Gets (x >>? f)) (sym e) (k a)

  module _ (divides : Divides) where
    format_units-ok :
        (last : String) (units : List String) (x : fl.F) → Gets (format_units fl last units x)
    unfolding format_units
    format_units-ok last [] x = (_, refl)
    format_units-ok last (unit ∷ units) x =
        if_ind Gets (fl.lt x (fl.of_int (pos 1024))) (_, refl)
          (Gets-bind (fl.div x (fl.of_int (pos 1024))) (format_units fl unit units) (divides x 1023)
            (format_units-ok unit units))

    notify_callback-ok : (x : fl.F) (p : Progress fl) → Gets (notify_callback fl x p)
    unfolding notify_callback overall
    notify_callback-ok x p =
        Gets-bind (overall fl x p) _
          (Gets-bind
            (fl.div (fl.mul x (fl.sub p.stop_percent p.start_percent)) (fl.of_int (pos 100))) _
            (divides (fl.mul x (fl.sub p.stop_percent p.start_percent)) 99) (λ _. (_, refl)))
          (λ _. (_, refl))

    notify-Gives :
        (n : ℤ) (x : fl.F) (s : DnfFetch fl)
        → Drifts n s
        → Gives (Drifts n) (notify fl (dnf_fetch_display fl) x s)
    unfolding notify
    notify-Gives n x s e =
        subst
          (λ r.
            Gives (Drifts n)
              (on_result r (λ p. (ok tt, record s { progress = p })) (λ e. (err e, s))))
          (sym (notify_callback-ok x s.progress).1) e

    fetch_started-Gives :
        (files size : ℤ) (s : DnfFetch fl)
        → Gives (Drifts s.bytes_fetched) (fetch_started fl files size s)
    unfolding fetch_started format_bytes say
    fetch_started-Gives files size s =
        subst
          (λ r. Gives (Drifts s.bytes_fetched) (
            (lift r >>= λ size. say fl (dnf_fetch_display fl) (fetching_text files size) >>= λ _ t.
            (ok tt, record t { package_bytes = [] }))
              s))
          (sym
            (format_units-ok "PiB" ("B" ∷ "KiB" ∷ "MiB" ∷ "GiB" ∷ "TiB" ∷ "PiB" ∷ [])
              (fl.of_int size)).1)
          (+ℤ-zero s.bytes_fetched)

    dnf_start-Drifts :
        (files size : ℤ) (s : DnfFetch fl)
        → s.is_refresh ≡ false
        → ((dnf_start fl files size s).0 ≡ ok tt)
          × Drifts s.bytes_fetched (dnf_start fl files size s).1
    unfolding dnf_start
    dnf_start-Drifts files size s e =
        let t = record s { bytes_to_fetch = some size } in
        Gives-done (Drifts s.bytes_fetched) (dnf_start fl files size s) (
          Ends-bind (λ _. Drifts s.bytes_fetched) (λ _. Drifts s.bytes_fetched) (λ _. ⊥)
            (if s.is_refresh then refresh_started fl else fetch_started fl files size)
            (λ _. notify fl (dnf_fetch_display fl) (fl.of_int (pos 0))) t
            (Ends-if (λ _. Drifts s.bytes_fetched) (λ _. ⊥) s.is_refresh (refresh_started fl)
              (fetch_started fl files size) t (λ u. cc) (λ _. fetch_started-Gives files size t))
            (λ _ s' d. notify-Gives s.bytes_fetched (fl.of_int (pos 0)) s' d))

    -- The start of a download that is no refresh returns, if division by an int that is not 0 does
    -- not raise. What is counted after it is then, whatever packages are reported on and whether
    -- or not those reports raise, the bytes of these packages above what was counted already
    -- before the start.
    pub dnf_fetch_counted :
        (files size : ℤ) (s : DnfFetch fl) (calls : List (String × ℤ))
        → s.is_refresh ≡ false
        → let t = after calls (dnf_start fl files size s).1 in
          ((dnf_start fl files size s).0 ≡ ok tt)
          × (t.bytes_fetched ≡ s.bytes_fetched +ℤ total_bytes t.package_bytes)
    dnf_fetch_counted files size s calls e =
        let (o, d) = dnf_start-Drifts files size s e in (o, after-Drifts s.bytes_fetched calls _ d)
