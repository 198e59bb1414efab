-- ===== src/Exec/Ends.antt =====
-- What holds of the state when a call returns, and what when it raises.
use qubes_core_admin_linux.Exec.{err, try_except, Exception, ok, on_result, ◌>>=◌, Exec, Result}
use qubes_core_admin_linux.Prelude.{refl, if◌then◌else◌, false, true, ◌≡◌, Bool}

module _ {S A : Type 0} where
  -- `P` of the value and the state of a call that returns, `Q` of the state of one that raises.
  abbrev pub Ends : (A → S → Type 0) → (S → Type 0) → Result A × S → Type 0
  Ends P Q q = on_result q.0 (λ a. P a q.1) (λ _. Q q.1)

  Ends-weaken :
      (P R : A → S → Type 0) (Q U : S → Type 0) (r : Result A) (s : S)
      → Ends P Q (r, s)
      → ((a : A) → P a s → R a s)
      → (Q s → U s)
      → Ends R U (r, s)
  Ends-weaken P R Q U (ok a) s p f g = f a p
  Ends-weaken P R Q U (err e) s p f g = g p

  pub Ends-mono :
      (P R : A → S → Type 0) (Q U : S → Type 0) (q : Result A × S)
      → Ends P Q q
      → ((a : A) (s : S) → P a s → R a s)
      → ((s : S) → Q s → U s)
      → Ends R U q
  Ends-mono P R Q U q p f g = Ends-weaken P R Q U q.0 q.1 p (λ a. f a q.1) (g q.1)

  -- A property of the state alone, which both ends keep.
  Ends-state : (Q : S → Type 0) (r : Result A) (s : S) → Ends (λ _. Q) Q (r, s) → Q s
  Ends-state Q (ok a) s p = p
  Ends-state Q (err e) s p = p

  pub state-Ends : (Q : S → Type 0) (q : Result A × S) → Ends (λ _. Q) Q q → Q q.1
  state-Ends Q q = Ends-state Q q.0 q.1

  kept-Ends : (Q : S → Type 0) (r : Result A) (s : S) → Q s → Ends (λ _. Q) Q (r, s)
  kept-Ends Q (ok a) s p = p
  kept-Ends Q (err e) s p = p

  pub Ends-kept : (Q : S → Type 0) (q : Result A × S) → Q q.1 → Ends (λ _. Q) Q q
  Ends-kept Q q = kept-Ends Q q.0 q.1

module _ {S A B : Type 0} where
  result-Ends :
      (P : A → S → Type 0) (R : B → S → Type 0) (Q : S → Type 0) (r : Result A) (s : S)
      (f : A → Exec S B)
      → Ends P Q (r, s)
      → ((a : A) → P a s → Ends R Q (f a s))
      → Ends R Q (on_result r (λ a. f a s) (λ e. (err e, s)))
  result-Ends P R Q (ok a) s f p k = k a p
  result-Ends P R Q (err e) s f p k = p

  pub Ends-bind :
      (P : A → S → Type 0) (R : B → S → Type 0) (Q : S → Type 0) (m : Exec S A) (f : A → Exec S B)
      (s : S)
      → Ends P Q (m s)
      → ((a : A) (s' : S) → P a s' → Ends R Q (f a s'))
      → Ends R Q ((m >>= f) s)
  Ends-bind P R Q m f s p k = result-Ends P R Q (m s).0 (m s).1 f p (λ a. k a (m s).1)

module _ {S A : Type 0} where
  result-Ends_try :
      (P R : A → S → Type 0) (Q U : S → Type 0) (r : Result A) (s : S)
      (handler : Exception → Exec S A)
      → Ends P Q (r, s)
      → ((a : A) → P a s → R a s)
      → ((e : Exception) → Q s → Ends R U (handler e s))
      → Ends R U (on_result r (λ a. (ok a, s)) (λ e. handler e s))
  result-Ends_try P R Q U (ok a) s handler p f g = f a p
  result-Ends_try P R Q U (err e) s handler p f g = g e p

  pub Ends-try_except :
      (P R : A → S → Type 0) (Q U : S → Type 0) (m : Exec S A) (handler : Exception → Exec S A)
      (s : S)
      → Ends P Q (m s)
      → ((a : A) (s' : S) → P a s' → R a s')
      → ((e : Exception) (s' : S) → Q s' → Ends R U (handler e s'))
      → Ends R U (try_except m handler s)
  Ends-try_except P R Q U m handler s p f g =
      result-Ends_try P R Q U (m s).0 (m s).1 handler p (λ a. f a (m s).1) (λ e. g e (m s).1)

module _ {S A : Type 0} where
  result-Ends_and :
      (P : A → S → Type 0) (Q U : S → Type 0) (r : Result A) (s : S)
      → Ends P U (r, s)
      → Q s
      → Ends (λ a s'. Q s' × P a s') Q (r, s)
  result-Ends_and P Q U (ok a) s p k = (k, p)
  result-Ends_and P Q U (err e) s p k = k

  pub Ends-and :
      (P : A → S → Type 0) (Q U : S → Type 0) (q : Result A × S)
      → Ends P U q
      → Q q.1
      → Ends (λ a s. Q s × P a s) Q q
  Ends-and P Q U q = result-Ends_and P Q U q.0 q.1

  pub Ends-if :
      (P : A → S → Type 0) (Q : S → Type 0) (b : Bool) (m n : Exec S A) (s : S)
      → (b ≡ true → Ends P Q (m s))
      → (b ≡ false → Ends P Q (n s))
      → Ends P Q ((if b then m else n) s)
  Ends-if P Q true m n s p q = p refl
  Ends-if P Q false m n s p q = q refl

  pub Ends-on_result :
      {B : Type 0} (P : A → S → Type 0) (Q : S → Type 0) (r : Result B) (x : B → Result A × S)
      (y : Exception → Result A × S)
      → ((b : B) → Ends P Q (x b))
      → ((e : Exception) → Ends P Q (y e))
      → Ends P Q (on_result r x y)
  Ends-on_result P Q (ok b) x y p q = p b
  Ends-on_result P Q (err e) x y p q = q e

-- A property of the state that holds at the end, however the call ends.
abbrev pub EndsIn : {S A : Type 0} → (S → Type 0) → Result A × S → Type 0
EndsIn Q q = Ends (λ _. Q) Q q

pub EndsIn-bind :
    {S A B : Type 0} (Q : S → Type 0) (m : Exec S A) (f : A → Exec S B) (s : S)
    → Q (m s).1
    → ((a : A) (s' : S) → Q s' → EndsIn Q (f a s'))
    → EndsIn Q ((m >>= f) s)
EndsIn-bind Q m f s q k = Ends-bind (λ _. Q) (λ _. Q) Q m f s (Ends-kept Q (m s) q) k
