-- ===== src/Entrypoint/Codes.antt =====
-- The exit codes of the agent.
use qubes_core_admin_linux.Args.{AgentArgs}
use qubes_core_admin_linux.Entrypoint.{notified, agent_main, finish_agent, handled_code}
use qubes_core_admin_linux.Exec.{pure, Result}
use qubes_core_admin_linux.Exit.{err_vm_cleanup}
use qubes_core_admin_linux.Package.{upgrade, Requirements, Changes, Backend}
use qubes_core_admin_linux.Package.Codes.{
  Yields, Yields-bind, upgrade_result_code, upgrade-Documented, Returns,
}
use qubes_core_admin_linux.Prelude.{Text, if_ind, nat_eq, ℕ, max, ◌≡◌, Bool, true, not, ◌||◌, arith}

-- The codes that the agent gives out.
abbrev pub agent_code : ℕ → Bool
agent_code code = upgrade_result_code code || nat_eq code err_vm_cleanup

-- What the class documents of `clean`.
abbrev pub is_cleanup_code : ℕ → Bool
is_cleanup_code code = nat_eq code 0 || nat_eq code err_vm_cleanup

handled_code-agent_code :
    (code : ℕ) → agent_code code ≡ true → agent_code (handled_code code) ≡ true
handled_code-agent_code code h = ground arith

agent_code-max :
    (m n : ℕ)
    → is_cleanup_code m ≡ true
    → upgrade_result_code n ≡ true
    → agent_code (max m n) ≡ true
agent_code-max m n p q = ground arith

finish_agent-Yields :
    {S : Type 0} (notify : S → S) (args : AgentArgs) (b : Backend S) (code : ℕ) (s : S)
    → ((s : S) → Yields (λ c. is_cleanup_code c ≡ true) (b.clean s))
    → upgrade_result_code code ≡ true
    → Yields (λ c. agent_code c ≡ true) (finish_agent notify args b code s)
unfolding finish_agent
finish_agent-Yields {S} notify args b code s clean h =
    if_ind (λ (q : Result ℕ × S). Yields (λ c. agent_code c ≡ true) q) args.no_cleanup
      (handled_code-agent_code code (ground arith))
      (Yields-bind (λ c. is_cleanup_code c ≡ true) (λ c. agent_code c ≡ true) b.clean
        (λ c. pure (handled_code (max c code))) (notified b.agent_type notify s)
        (clean (notified b.agent_type notify s))
        (λ c s' d. handled_code-agent_code (max c code) (agent_code-max c code d h)))

-- If the commands and the methods of the package manager return, and its cleanup gives 0 or 25,
-- then the agent returns one of 0, 100, 22, 23, 24 and 25: never the code 26 of an unhandled error.
pub agent_main_documented :
    {S : Type 0} (b : Backend S) (show : Changes → Text) (notify : S → S) (args : AgentArgs)
    (requirements : Requirements) (s : S)
    → Returns b
    → ((s : S) → Yields (λ c. is_cleanup_code c ≡ true) (b.clean s))
    → Yields (λ c. agent_code c ≡ true) (agent_main show notify args requirements b s)
unfolding agent_main
agent_main_documented b show notify args requirements s returns clean =
    Yields-bind (λ r. upgrade_result_code r.code ≡ true) (λ c. agent_code c ≡ true)
      (upgrade b show (not args.no_refresh) (not args.force_upgrade) (not args.leave_obsolete)
        requirements)
      (λ r. finish_agent notify args b r.code) s
      (upgrade-Documented b returns show (not args.no_refresh) (not args.force_upgrade)
        (not args.leave_obsolete) requirements s)
      (λ r s' d. finish_agent-Yields notify args b r.code s' clean d)
