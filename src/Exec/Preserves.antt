-- ===== src/Exec/Preserves.antt =====
-- Calls that keep a property of the state, whether they return or raise.
use qubes_core_admin_linux.Exec.{
  err, ok, lift, raise, try_except, ◌>>=◌, Exception, Exec, Result, gets, modify, pure,
}
use qubes_core_admin_linux.Exec.Ends.{EndsIn, EndsIn-bind, Ends-try_except, state-Ends}
use qubes_core_admin_linux.Prelude.{Bool, true, false, if◌then◌else◌}

module _ {S : Type 0} (Q : S → Type 0) where
  pub record Preserves {A : Type 0} (m : Exec S A) : Type 0 where
    pub keeps : (s : S) → Q s → EndsIn Q (m s)

  pub Preserves-state : {A : Type 0} (m : Exec S A) → Preserves m → (s : S) → Q s → Q (m s).1
  Preserves-state m k s q = state-Ends Q (m s) (k.keeps s q)

  pub Preserves-bind :
      {A B : Type 0} {m : Exec S A} {f : A → Exec S B}
      → Preserves m
      → ((a : A) → Preserves (f a))
      → Preserves (m >>= f)
  Preserves-bind {m} {f} k h = record {
    keeps = λ s q. EndsIn-bind Q m f s (Preserves-state m k s q) (λ a s' q'. (h a).keeps s' q');
  }

  pub Preserves-lift : {A : Type 0} (r : Result A) → Preserves (lift r)
  Preserves-lift (ok a) = record { keeps = λ s q. q }
  Preserves-lift (err e) = record { keeps = λ s q. q }

  pub Preserves-pure : {A : Type 0} {a : A} → Preserves (pure a)
  Preserves-pure = record { keeps = λ s q. q }

  pub Preserves-raise : {A : Type 0} {e : Exception} → Preserves {A = A} (raise e)
  Preserves-raise = record { keeps = λ s q. q }

  pub Preserves-gets : {A : Type 0} {f : S → A} → Preserves (gets f)
  Preserves-gets = record { keeps = λ s q. q }

  pub Preserves-modify : (f : S → S) → ((s : S) → Q s → Q (f s)) → Preserves (modify f)
  Preserves-modify f same = record { keeps = same }

  pub Preserves-if :
      {A : Type 0} (b : Bool) {m n : Exec S A}
      → Preserves m
      → Preserves n
      → Preserves (if b then m else n)
  Preserves-if true k h = k
  Preserves-if false k h = h

  -- A call that looks at the state first
  pub Preserves-at :
      {A : Type 0} {m : S → Exec S A} → ((s : S) → Preserves (m s)) → Preserves (λ s. m s s)
  Preserves-at k = record { keeps = λ s q. (k s).keeps s q }

  pub Preserves-try_except :
      {A : Type 0} {m : Exec S A} {handler : Exception → Exec S A}
      → Preserves m
      → ((e : Exception) → Preserves (handler e))
      → Preserves (try_except m handler)
  Preserves-try_except {m} {handler} k h = record {
    keeps = λ s q.
        Ends-try_except (λ _. Q) (λ _. Q) Q Q m handler s (k.keeps s q) (λ _ _ q'. q')
          (λ e s' q'. (h e).keeps s' q');
  }

-- The rules by which a call is taken apart
pub ruleset preserving = (
  Preserves-bind, Preserves-lift, Preserves-pure, Preserves-raise, Preserves-gets, Preserves-if,
  Preserves-try_except,
)
