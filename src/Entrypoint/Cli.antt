-- ===== src/Entrypoint/Cli.antt =====
-- The agent with the package managers of the command line.
use qubes_core_admin_linux.Args.{AgentArgs}
use qubes_core_admin_linux.Entrypoint.{agent_main}
use qubes_core_admin_linux.Entrypoint.Codes.{agent_code, agent_main_documented}
use qubes_core_admin_linux.Exec.{Exec}
use qubes_core_admin_linux.Package.{AgentType, Backend, Requirements, Changes, Packages}
use qubes_core_admin_linux.Package.Cli.{pacman_cli, apt_cli, dnf_cli, Shell}
use qubes_core_admin_linux.Package.Cli.Returns.{
  Works, clean_with-Yields, dnf_cli-Returns, apt_cli-Returns, pacman_cli-Returns,
}
use qubes_core_admin_linux.Package.Codes.{Yields, Any}
use qubes_core_admin_linux.Prelude.{Text, ◌≡◌, true, String}

module _ {S : Type 0} (shell : Shell S) (works : Works shell) (packages : Exec S Packages)
    (listed : (s : S) → Yields Any (packages s)) where
  -- An agent that returns, with one of its documented codes.
  abbrev pub Finishes : (Changes → Text) → (S → S) → AgentArgs → Requirements → Backend S → Type 0
  Finishes show notify args requirements b =
      (s : S) → Yields (λ c. agent_code c ≡ true) (agent_main show notify args requirements b s)

  -- If the system runs every command, none of which is killed by a signal, and grants apt's lock, and
  -- the installed packages can be listed, then the agent with `DNFCLI`, `APTCLI` or `PACMANCLI` returns, with one of the codes 0,
  -- 100, 22, 23, 24 and 25, whatever the codes and the outputs of the commands.
  pub cli_agents_documented :
      (show : Changes → Text) (notify : S → S) (args : AgentArgs) (requirements : Requirements)
      (decode : Text → String) (agent_type : AgentType) (pm : String)
      → Finishes show notify args requirements (dnf_cli shell agent_type pm packages)
        × Finishes show notify args requirements (apt_cli shell decode agent_type packages)
        × Finishes show notify args requirements (pacman_cli shell agent_type packages)
  unfolding dnf_cli apt_cli pacman_cli
  cli_agents_documented show notify args requirements decode t pm =
      let clean = clean_with-Yields shell works in
      (
        λ s.
            agent_main_documented (dnf_cli shell t pm packages) show notify args requirements s
              (dnf_cli-Returns shell works t pm packages listed) (clean _),
        λ s.
            agent_main_documented (apt_cli shell decode t packages) show notify args requirements s
              (apt_cli-Returns shell works decode t packages listed) (clean _),
        λ s.
            agent_main_documented (pacman_cli shell t packages) show notify args requirements s
              (pacman_cli-Returns shell works t packages listed) (clean _),
      )
