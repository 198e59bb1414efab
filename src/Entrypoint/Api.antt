-- ===== src/Entrypoint/Api.antt =====
-- The agent with the package managers of the libraries.
use qubes_core_admin_linux.Args.{AgentArgs}
use qubes_core_admin_linux.Entrypoint.{ok, agent_with}
use qubes_core_admin_linux.Entrypoint.Cli.{Finishes}
use qubes_core_admin_linux.Entrypoint.Codes.{agent_code, agent_main_documented}
use qubes_core_admin_linux.Exec.{err, Result, pure, on_result, ◌>>=◌, Exec}
use qubes_core_admin_linux.Package.{Backend, AgentType, Requirements, Changes, Packages}
use qubes_core_admin_linux.Package.Api.Apt.{apt_api_init, AptLibrary, apt_api_backend}
use qubes_core_admin_linux.Package.Api.Dnf.{dnf_api_init, DnfLibrary, dnf_api_backend}
use qubes_core_admin_linux.Package.Api.Dnf5.{dnf5_init, Dnf5Library, dnf5_backend}
use qubes_core_admin_linux.Package.Api.Returns.{
  apt_api_backend-Returns, dnf5_backend-Returns, dnf_api_backend-Returns,
}
use qubes_core_admin_linux.Package.Cli.{
  remove_obsolete_kernels, expire_cache, apt_cli, dnf_cli, Shell,
}
use qubes_core_admin_linux.Package.Cli.Returns.{
  Works, clean_with-Yields, dnf_cli-Returns, apt_cli-Returns, remove_obsolete_kernels-Yields,
}
use qubes_core_admin_linux.Package.Codes.{Yields, Any}
use qubes_core_admin_linux.Prelude.{refl, true, ◌≡◌, Text, String}

module _ {S : Type 0} (shell : Shell S) (works : Works shell) (packages : Exec S Packages)
    (listed : (s : S) → Yields Any (packages s)) where
  -- An agent that ends with the exception that the making of its package manager raises, or else
  -- returns, with one of its documented codes.
  abbrev pub FinishesOnceMade :
      (Changes → Text) → (S → S) → AgentArgs → Requirements → Exec S (Backend S) → Type 0
  FinishesOnceMade show notify args requirements make =
      (s : S)
      → on_result (make s).0
          (λ _. Yields (λ c. agent_code c ≡ true) (agent_with show notify args requirements make s))
          (λ e. (agent_with show notify args requirements make s).0 ≡ err e)

  once_made :
      (show : Changes → Text) (notify : S → S) (args : AgentArgs) (requirements : Requirements)
      (make : Exec S (Unit {0})) (b : Backend S)
      → Finishes shell works packages listed show notify args requirements b
      → FinishesOnceMade show notify args requirements (make >>= λ _. pure b)
  unfolding agent_with
  once_made show notify args requirements make b ends s = made (make s).0 (make s).1
    where
      made :
          (r : Result Unit) (s' : S)
          → on_result
              (((λ _. (r, s')) >>= λ _. pure b) s).0
              (λ _.
                Yields
                  (λ c. agent_code c ≡ true)
                  (agent_with show notify args requirements ((λ _. (r, s')) >>= λ _. pure b) s))
              (λ e.
                (agent_with show notify args requirements ((λ _. (r, s')) >>= λ _. pure b) s).0
                ≡ err e)
      made (ok u) s' = ends s'
      made (err x) s' = refl

  -- If the system runs every command, none of which is killed by a signal, the installed packages can be listed, and the base of dnf can
  -- be closed and apt's lock be taken, then the agent with `DNF`, `DNF5` or `APT` ends with the
  -- exception that the constructor of the class raises, or else returns, with one of the codes 0,
  -- 100, 22, 23, 24 and 25, whatever the libraries answer or raise after that.
  pub api_agents_documented :
      {T : Type 0} (dnf : DnfLibrary S) (dnf5 : Dnf5Library S T) (apt : AptLibrary S)
      → ((s : S) → Yields Any (dnf.close s))
      → ((s : S) → Yields Any (apt.take_lock s))
      → (show : Changes → Text) (notify : S → S) (args : AgentArgs) (requirements : Requirements)
        (decode : Text → String) (t : AgentType) (pm : String)
      → FinishesOnceMade show notify args requirements
          (dnf_api_init dnf t (dnf_cli shell t pm packages))
        × FinishesOnceMade show notify args requirements
            (dnf5_init dnf5 t (expire_cache shell t pm) (dnf_cli shell t pm packages))
        × FinishesOnceMade show notify args requirements (
            apt_api_init apt
              (remove_obsolete_kernels shell decode)
              (apt_cli shell decode t packages))
  unfolding dnf_cli apt_cli dnf_api_backend dnf5_backend apt_api_backend dnf_api_init dnf5_init
      apt_api_init
  api_agents_documented dnf dnf5 apt closes locks show notify args requirements decode t pm =
      let clean = clean_with-Yields shell works in
      let dnf_returns = dnf_cli-Returns shell works t pm packages listed in
      let finished = once_made show notify args requirements in
      (
        finished (dnf.make_base t) _ (λ s.
            agent_main_documented _ show notify args requirements s
              (dnf_api_backend-Returns (dnf_cli shell t pm packages) dnf_returns dnf t closes)
              (clean _)),
        finished (dnf5.make_base t) _ (λ s.
            agent_main_documented _ show notify args requirements s
              (dnf5_backend-Returns (dnf_cli shell t pm packages) dnf_returns dnf5 t
                (expire_cache shell t pm))
              (clean _)),
        finished apt.make_cache _ (λ s.
            agent_main_documented _ show notify args requirements s
              (apt_api_backend-Returns (apt_cli shell decode t packages)
                (apt_cli-Returns shell works decode t packages listed) apt
                (remove_obsolete_kernels shell decode) locks
                (remove_obsolete_kernels-Yields shell works decode))
              (clean _)),
      )
