-- ===== src/Exec.antt =====
-- Python calls that change state and may raise. What was changed before a raise stays changed, so
-- the state comes back beside the exception too.
pub mod Ends
pub mod Preserves
use qubes_core_admin_linux.Prelude.{
  true, ℕ, List, refl, ◌≡◌, ◌⊎◌, inl, inr, Bool, false, String, if◌then◌else◌,
}

-- An exception of qubesadmin, by the `isinstance` tests that the code makes in its handlers:
-- `QubesDaemonAccessError`, `QubesDaemonCommunicationError`, `QubesVMError`.
pub record QubesError : Type 0 where
  pub is_access : Bool
  pub is_communication : Bool
  pub is_vm : Bool

pub data Exception : Type 0 where
  qubes_error : QubesError → Exception
  argument_error : String → Exception
  key_error : String → Exception
  value_error index_error assertion_error : Exception
  -- a command's exit code and the output that goes with it
  called_process_error : ℕ → List ℕ → Exception
  os_error : String → Exception
  other_error : String → Exception

pub data Result {ℓ} (A : Type ℓ) : Type ℓ where
  ok : A → Result A
  err : Exception → Result A

-- The two cases of a result.
abbrev pub on_result {ℓ κ} : {A : Type ℓ} {B : Type κ} → Result A → (A → B) → (Exception → B) → B
on_result (ok a) returned raised = returned a
on_result (err e) returned raised = raised e

pub on_result_ind {ℓ κ μ} :
    {A : Type ℓ} {B : Type κ} (Q : B → Type μ) (r : Result A) {x : A → B} {y : Exception → B}
    → ((a : A) → r ≡ ok a → Q (x a))
    → ((e : Exception) → r ≡ err e → Q (y e))
    → Q (on_result r x y)
on_result_ind Q (ok a) qx qy = qx a refl
on_result_ind Q (err e) qx qy = qy e refl

abbrev pub Exec {ℓ} : Type ℓ → Type ℓ → Type ℓ
Exec S A = S → Result A × S

module _ {ℓ} {S A : Type ℓ} where
  abbrev pub pure : A → Exec S A
  pure a s = (ok a, s)

  abbrev pub raise : Exception → Exec S A
  raise e s = (err e, s)

  abbrev pub lift : Result A → Exec S A
  lift r s = (r, s)

  abbrev pub gets : (S → A) → Exec S A
  gets f s = (ok (f s), s)

  -- `try: m except Exception as e: handler(e)`; a handler passes on what it does not catch.
  abbrev pub try_except : Exec S A → (Exception → Exec S A) → Exec S A
  try_except m handler s = let (r, s') = m s in on_result r (λ a. (ok a, s')) (λ e. handler e s')

abbrev pub modify {ℓ} : {S : Type ℓ} → (S → S) → Exec S Unit
modify f s = (ok tt, f s)

infixl 5 ◌>>=◌ ◌>>◌
abbrev pub ◌>>=◌ {ℓ} : {S A B : Type ℓ} → Exec S A → (A → Exec S B) → Exec S B
◌>>=◌ m f s = let (r, s') = m s in on_result r (λ a. f a s') (λ e. (err e, s'))

abbrev pub ◌>>◌ {ℓ} : {S A B : Type ℓ} → Exec S A → Exec S B → Exec S B
m >> k = m >>= λ _. k

-- The chain of pure calls that may raise.
infixl 5 ◌>>?◌
abbrev pub ◌>>?◌ {ℓ κ} : {A : Type ℓ} {B : Type κ} → Result A → (A → Result B) → Result B
ok a >>? f = f a
err e >>? f = err e

-- The tests in `except` clauses.
abbrev pub catches_access : Exception → Bool
catches_access (qubes_error e) = e.is_access
catches_access _ = false

abbrev pub catches_communication : Exception → Bool
catches_communication (qubes_error e) = e.is_communication
catches_communication _ = false

abbrev pub is_os_error : Exception → Bool
is_os_error (os_error _) = true
is_os_error _ = false

abbrev pub catches_vm : Exception → Bool
catches_vm (qubes_error e) = e.is_vm
catches_vm _ = false

-- `try: r except <caught>: default`
abbrev pub recover {ℓ} : {A : Type ℓ} → (Exception → Bool) → A → Result A → Result A
recover caught d (ok a) = ok a
recover caught d (err e) = if caught e then ok d else err e

pub Result-cases {ℓ} :
    {A : Type ℓ} (r : Result A) → ((a : A) × (r ≡ ok a)) ⊎ ((e : Exception) × (r ≡ err e))
Result-cases (ok a) = inl (a, refl)
Result-cases (err e) = inr (e, refl)
