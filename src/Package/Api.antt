-- ===== src/Package/Api.antt =====
-- The package managers that are run by their libraries. What the callbacks report is in Progress.
pub mod Dnf
pub mod Dnf5
pub mod Apt
pub mod Returns
use qubes_core_admin_linux.Exec.{◌>>=◌, try_except, pure, Exec, Exception}
use qubes_core_admin_linux.Exec.Ends.{EndsIn, EndsIn-bind, Ends-try_except}
use qubes_core_admin_linux.Exit.{exit_ok}
use qubes_core_admin_linux.Package.{vm_agent, dom0_agent, update_vm, AgentType}
use qubes_core_admin_linux.Prelude.{
  Text, ℕ, zero, suc, ◌+◌, ◌-◌, ◌≤◌, ◌<◌, max, ◌≡◌, ◌≢◌, refl, sym, ap, ◌∙◌, ◌↔◌, ◌⊎◌, inl, inr,
  Bool, true, false, not, ◌&&◌, ◌||◌, String, ◌<>◌, Option, none, some, List, [], ◌∷◌, ◌++◌,
  if◌then◌else◌, arith,
}
use qubes_core_admin_linux.Process.{process_result, ProcessResult}

-- `try: m except Exception as exc:` with a result of the code 24 or 23 for the exception.
unfoldable pub guarded :
    {S : Type 0} → (Exception → Text) → ℕ → Exec S ProcessResult → Exec S ProcessResult
guarded str code m = try_except m (λ e. pure (process_result code [] (str e)))

-- `subprocess.call(["/etc/qubes-rpc/qubes.PostInstall"])`, which only an agent in its own qube does.
abbrev pub notify_apps : {S : Type 0} → AgentType → Exec S (Unit {0}) → Exec S (Unit {0})
notify_apps vm_agent call = call
notify_apps dom0_agent call = pure tt
notify_apps update_vm call = pure tt

pub guarded-EndsIn :
    {S : Type 0} (Q : S → Type 0) (str : Exception → Text) (code : ℕ) (m : Exec S ProcessResult)
    (s : S)
    → EndsIn Q (m s)
    → EndsIn Q (guarded str code m s)
unfolding guarded
guarded-EndsIn Q str code m s k =
    Ends-try_except (λ _. Q) (λ _. Q) Q Q m (λ e. pure (process_result code [] (str e))) s k
      (λ r s' q. q) (λ e s' q. q)

abbrev pub done_well : {S : Type 0} → Exec S ProcessResult
done_well = pure (process_result exit_ok [] [])

pub notify_apps-EndsIn :
    {S : Type 0} (Q : S → Type 0) (post_install : Exec S (Unit {0}))
    → ((s : S) → Q s → Q (post_install s).1)
    → (t : AgentType) (s : S) → Q s
    → EndsIn Q ((notify_apps t post_install >>= λ _. done_well) s)
notify_apps-EndsIn Q post_install kept vm_agent s q =
    EndsIn-bind Q post_install (λ _. done_well) s (kept s q) (λ u s' k. k)
notify_apps-EndsIn Q post_install kept dom0_agent s q = q
notify_apps-EndsIn Q post_install kept update_vm s q = q
