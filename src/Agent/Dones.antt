-- ===== src/Agent/Dones.antt =====
-- How often `update_qube` reports the end of its qube, which is what `feeding` counts.
use qubes_core_admin_linux.Agent.{link_of, run_agent, session, update_qube}
use qubes_core_admin_linux.Agent.Counts.{done_count-through, done_count-append, done_count}
use qubes_core_admin_linux.Agent.Quiet.{stop_qube-Quiet, remove_from-Quiet, Quiet}
use qubes_core_admin_linux.Agent.Session.{session-Quiet}
use qubes_core_admin_linux.Args.{AgentArgs}
use qubes_core_admin_linux.Connection.{put, exit, with_connection, remove_files, Conn, Link}
use qubes_core_admin_linux.Exec.{ok, err, on_result, Exception, on_result_ind, Exec, Result}
use qubes_core_admin_linux.Host.{Host}
use qubes_core_admin_linux.Prelude.{
  not, ◌&&◌, suc, if_ind, ℕ, ◌≡◌, refl, ap, ◌∙◌, Bool, true, false, String, Option, List, [], ◌∷◌,
  ◌++◌, if◌then◌else◌, arith,
}
use qubes_core_admin_linux.Process.{ProcessResult}
use qubes_core_admin_linux.Status.{FinalStatus, done_info, Message}
use qubes_core_admin_linux.System.{running, Machine, System}
use qubes_core_admin_linux.Vm.{Vm}

module _ (sys : System) (host : Host sys) (link : Link) where
  -- `__exit__` reports one end.
  pub exit_done :
      (initially_running : Bool) (c : Conn sys)
      → done_count (exit sys host link initially_running c).1.sent ≡ suc (done_count c.sent)
  unfolding exit put
  exit_done initially_running c =
      let told = put sys (done_info link.qube.name c.status) c in
      let added : done_count told.sent ≡ suc (done_count c.sent) =
        done_count-append c.sent (done_info link.qube.name c.status ∷ []) ∙ omega arith in
      let cleaned = if link.cleanup then remove_files sys host link told else told in
      let kept : done_count cleaned.sent ≡ done_count told.sent =
        if_ind (λ (d : Conn sys). done_count d.sent ≡ done_count told.sent) link.cleanup
          (remove_from-Quiet sys host link link.dest_dir told) refl in
      if_ind (λ (q : Result (Unit {0}) × Conn sys). done_count q.1.sent ≡ suc (done_count c.sent))
        (running sys cleaned.machine link.qube && not initially_running)
        (stop_qube-Quiet sys host link cleaned ∙ (kept ∙ added)) (kept ∙ added)

  pub with_connection_done :
      {A : Type 0} (body : Exec (Conn sys) A) (m : Machine sys)
      → Quiet sys host link body
      → done_count (with_connection sys host link body m).1.sent ≡ 1
  unfolding with_connection
  with_connection_done {A} body m quiet =
      let start : Conn sys = record { machine = m; status = FinalStatus.error; sent = [] } in
      let left = exit sys host link (running sys m link.qube) (body start).1 in
      let one : done_count left.1.sent ≡ 1 =
        exit_done (running sys m link.qube) (body start).1 ∙ ap suc (quiet start) in
      on_result_ind (λ (q : Result A × Conn sys). done_count q.1.sent ≡ 1) left.0 (λ u e. one)
        (λ x e. one)

module _ (sys : System) (host : Host sys) (qube : Vm) (dom0 : Bool) (this_dir : String)
    (args : AgentArgs) (show : Bool) where
  run_agent_done :
      (cancelled : Bool) (m : Machine sys)
      → done_count (run_agent sys host qube dom0 this_dir args show cancelled m).2 ≡ 1
  unfolding run_agent
  run_agent_done cancelled m =
      let link = link_of sys host qube dom0 this_dir args show in
      let body = session sys host qube dom0 this_dir link args show cancelled in
      done_count-through _ (with_connection sys host link body m).1.sent
      ∙ with_connection_done sys host link {A = ProcessResult} body m
          (session-Quiet sys host link qube dom0 this_dir args show cancelled)

  -- The machine after the creation of the log.
  abbrev pub logged_in : Machine sys → Machine sys
  logged_in m = record m { state = (host.init_logs m.state).1 }

  both :
      {A B : Type 0} (r : Result A) (count : B → ℕ) (x : A → B) (y : Exception → B) (x' : A → ℕ)
      (y' : Exception → ℕ)
      → ((a : A) → count (x a) ≡ x' a)
      → ((e : Exception) → count (y e) ≡ y' e)
      → count (on_result r x y) ≡ on_result r x' y'
  both (ok a) count x y x' y' p q = p a
  both (err e) count x y x' y' p q = q e

  -- A worker reports one end of its qube, with one exception: if it is not cancelled at the start,
  -- its log can be created, and `run_agent` raises, then it reports two.
  pub update_qube_dones :
      (name : Option String) (early late : Bool) (m : Machine sys)
      → done_count (update_qube sys host qube dom0 this_dir args name show early late m).2 ≡ (
          if early
          then 1
          else on_result
              (host.init_logs m.state).0
              (λ _.
                on_result
                  (run_agent sys host qube dom0 this_dir args show late (logged_in m)).0
                  (λ _. 1)
                  (λ _. 2))
              (λ _. 1))
  unfolding update_qube
  update_qube_dones name true late m =
      done_count-through name (done_info qube.name FinalStatus.cancelled ∷ [])
  update_qube_dones name false late m =
      let r = run_agent sys host qube dom0 this_dir args show late (logged_in m) in
      let one : done_count r.2 ≡ 1 = run_agent_done late (logged_in m) in
      let last = done_info qube.name FinalStatus.error ∷ [] in
      both (host.init_logs m.state).0
        (λ (q : ProcessResult × Machine sys × List Message). done_count q.2) _ _ _ _
        (λ u.
          both r.0 (λ (q : ProcessResult × Machine sys × List Message). done_count q.2) _ _ _ _
            (λ result. done_count-through name r.2 ∙ one)
            (λ e.
              done_count-through name (r.2 ++ last)
              ∙ (done_count-append r.2 last ∙ omega (arith, one))))
        (λ e. done_count-through name last)
