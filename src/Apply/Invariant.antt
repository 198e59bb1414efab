-- ===== src/Apply/Invariant.antt =====
-- What the loops that stop and start qubes keep of the calls made.
use qubes_core_admin_linux.Apply.{
  apply_to_derived, restart_vms, shutdown_domains, shutdown_loop, start_loop,
}
use qubes_core_admin_linux.Exec.{◌>>=◌, pure, Result, on_result_ind, catches_vm, Result-cases, ok}
use qubes_core_admin_linux.Exit.{exit_ok, err_start_app, err_shutdown_app}
use qubes_core_admin_linux.Prelude.{
  max, if_ind, ℕ, ◌≡◌, refl, ◌⊎◌, inl, inr, Bool, true, false, List, [], ◌∷◌, ◌++◌, In,
  In-append_from, All, if◌then◌else◌, arith,
}
use qubes_core_admin_linux.System.{
  call_wait, start_call, stop_call, Machine, call_shutdown, call_start, wait_call, Call, System,
}
use qubes_core_admin_linux.Vm.{Vm}

pub All-append_one :
    (P : Call → Type 0) (calls : List Call) (c : Call) → All P calls → P c → All P (calls ++ c ∷ [])
All-append_one P [] c h p = (p, tt)
All-append_one P (d ∷ calls) c h p = (h.0, All-append_one P calls c h.1 p)

module _ (sys : System) (v : Vm) where
  pub shutdown_loop-In :
      (vms : List Vm) (code : ℕ) (wait_for : List Vm) (m : Machine sys) (code' : ℕ)
      (stopped : List Vm)
      → (shutdown_loop sys vms code wait_for m).0 ≡ ok (code', stopped)
      → In v stopped
      → In v wait_for ⊎ In v vms
  unfolding shutdown_loop
  shutdown_loop-In [] code wait_for m code' stopped e i = ground arith
  shutdown_loop-In (vm ∷ vms) code wait_for m code' stopped e i =
      let next = (call_shutdown sys vm true m).1 in
      elim (Result-cases (call_shutdown sys vm true m).0) [
        | inl (u, went) ↦ ground (
          arith,
          shutdown_loop-In vms code (wait_for ++ vm ∷ []) next code' stopped (ground arith) i,
          In-append_from v wait_for (vm ∷ []),
        )
        | inr (x, refused) ↦ ground (
          arith,
          shutdown_loop-In vms err_shutdown_app wait_for next code' stopped (ground arith) i,
        )
      ]

  pub stopped-In :
      (vms : List Vm) (m : Machine sys) (code : ℕ) (stopped : List Vm)
      → (shutdown_domains sys vms m).0 ≡ ok (code, stopped)
      → In v stopped
      → In v vms
  unfolding shutdown_domains
  stopped-In vms m code stopped e i =
      ground (arith, shutdown_loop-In vms exit_ok [] m code stopped (ground arith) i)

module _ (sys : System) (P : Call → Type 0) (waits : (vms : List Vm) → P (wait_call vms)) where
  -- Every call that the machine has seen satisfies `P`.
  abbrev pub Saw : Machine sys → Type 0
  Saw m = All P m.calls

  pub call_shutdown-Saw :
      (v : Vm) (force : Bool) (m : Machine sys)
      → Saw m
      → P (stop_call v)
      → Saw (call_shutdown sys v force m).1
  unfolding call_shutdown
  call_shutdown-Saw v force m h p = All-append_one P m.calls (stop_call v) h p

  pub call_start-Saw :
      (v : Vm) (m : Machine sys) → Saw m → P (start_call v) → Saw (call_start sys v m).1
  unfolding call_start
  call_start-Saw v m h p = All-append_one P m.calls (start_call v) h p

  pub shutdown_loop-Saw :
      (vms : List Vm) (code : ℕ) (wait_for : List Vm) (m : Machine sys)
      → Saw m
      → ((v : Vm) → In v vms → P (stop_call v))
      → Saw (shutdown_loop sys vms code wait_for m).1
  unfolding shutdown_loop
  shutdown_loop-Saw [] code wait_for m h p = h
  shutdown_loop-Saw (vm ∷ vms) code wait_for m h p =
      let next = (call_shutdown sys vm true m).1 in
      let h' = call_shutdown-Saw vm true m h (p vm (inl refl)) in
      let p' = λ (v : Vm) (i : In v vms). p v (inr i) in
      on_result_ind (λ (r : Result (ℕ × List Vm) × Machine sys). Saw r.1)
        (call_shutdown sys vm true m).0
        (λ u e. shutdown_loop-Saw vms code (wait_for ++ vm ∷ []) next h' p')
        (λ x e.
          if_ind (λ (r : Result (ℕ × List Vm) × Machine sys). Saw r.1) (catches_vm x)
            (shutdown_loop-Saw vms err_shutdown_app wait_for next h' p') h')

  pub shutdown_domains-Saw :
      (vms : List Vm) (m : Machine sys)
      → Saw m
      → ((v : Vm) → In v vms → P (stop_call v))
      → Saw (shutdown_domains sys vms m).1
  unfolding shutdown_domains call_wait
  shutdown_domains-Saw vms m h p =
      let h' = shutdown_loop-Saw vms exit_ok [] m h p in
      on_result_ind (λ (r : Result (ℕ × List Vm) × Machine sys). Saw r.1)
        (shutdown_loop sys vms exit_ok [] m).0
        (λ done e. All-append_one P _ (wait_call done.1) h' (waits done.1)) (λ x e. h')

  pub start_loop-Saw :
      (vms : List Vm) (code : ℕ) (m : Machine sys)
      → Saw m
      → ((v : Vm) → In v vms → P (start_call v))
      → Saw (start_loop sys vms code m).1
  unfolding start_loop
  start_loop-Saw [] code m h p = h
  start_loop-Saw (vm ∷ vms) code m h p =
      let next = (call_start sys vm m).1 in
      let h' = call_start-Saw vm m h (p vm (inl refl)) in
      let p' = λ (v : Vm) (i : In v vms). p v (inr i) in
      on_result_ind (λ (r : Result ℕ × Machine sys). Saw r.1) (call_start sys vm m).0
        (λ u e. start_loop-Saw vms code next h' p')
        (λ x e.
          if_ind (λ (r : Result ℕ × Machine sys). Saw r.1) (catches_vm x)
            (start_loop-Saw vms err_start_app next h' p') h')

  pub restart_vms-Saw :
      (vms : List Vm) (m : Machine sys)
      → Saw m
      → ((v : Vm) → In v vms → P (stop_call v) × P (start_call v))
      → Saw (restart_vms sys vms m).1
  unfolding restart_vms
  restart_vms-Saw vms m h p =
      let h' = shutdown_domains-Saw vms m h (λ v i. (p v i).0) in
      on_result_ind (λ (r : Result ℕ × Machine sys). Saw r.1) (shutdown_domains sys vms m).0
        (λ done e.
          start_loop-Saw done.1 done.0 _ h'
            (λ v i. (p v (stopped-In sys v vms m done.0 done.1 e i)).1))
        (λ x e. h')

  pub apply_to_derived-Saw :
      (every : Bool) (code : ℕ) (groups : List Vm × List Vm) (m : Machine sys)
      → Saw m
      → ((v : Vm) → In v groups.0 → P (stop_call v) × P (start_call v))
      → ((v : Vm) → In v groups.1 → every ≡ true → P (stop_call v))
      → Saw (apply_to_derived sys every code groups m).1
  unfolding apply_to_derived
  apply_to_derived-Saw every code (xs, ys) m h p q =
      let h' = restart_vms-Saw xs m h p in
      on_result_ind (λ (r : Result ℕ × Machine sys). Saw r.1) (restart_vms sys xs m).0
        (λ c e. stop_rest every c _ h' q) (λ x e. h')
    where
      stop_rest :
          (b : Bool) (c : ℕ) (n : Machine sys)
          → Saw n
          → ((v : Vm) → In v ys → b ≡ true → P (stop_call v))
          → Saw
              ((if b
                  then (shutdown_domains sys ys >>= λ stopped. pure (max (max code c) stopped.0))
                  else pure (max code c))
                n).1
      stop_rest false c n k w = k
      stop_rest true c n k w =
          let k' = shutdown_domains-Saw ys n k (λ v i. w v i refl) in
          on_result_ind (λ (r : Result ℕ × Machine sys). Saw r.1) (shutdown_domains sys ys n).0
            (λ done e. k') (λ x e. k')
