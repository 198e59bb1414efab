-- ===== src/Apply/Codes.antt =====
-- The return codes of stopping and restarting qubes, and when nothing is done.
use mathlib.Core.List.{append-nil, append_assoc}
use native.Mathlib.Nat.{zero-add}
use qubes_core_admin_linux.Apply.{
  apply_running, apply_to_derived, get_derived_vm_to_apply, Statuses, shutdown_loop, start_loop,
  updated_templates, apply_updates_to_appvm, restart_vms, shutdown_domains,
}
use qubes_core_admin_linux.Args.{Args}
use qubes_core_admin_linux.Exec.{on_result, Result-cases, key_error, err, ok}
use qubes_core_admin_linux.Exit.{err_shutdown_tmpl, err_shutdown_app, err_start_app, exit_ok}
use qubes_core_admin_linux.Prelude.{
  not, filter, ap, sym, ◌∙◌, length-append, ℕ, ◌+◌, ◌<◌, ◌≡◌, refl, ◌⊎◌, inl, inr, Bool, true,
  false, List, [], ◌∷◌, ◌++◌, length, lookup, arith,
}
use qubes_core_admin_linux.System.{running, call_shutdown, call_start, Machine, System}
use qubes_core_admin_linux.Vm.{Vm}

module _ (sys : System) where
  -- The loop keeps the code and appends all qubes, or ends with the code of a failed shutdown and
  -- with fewer qubes.
  abbrev LoopOutcome : List Vm → ℕ → List Vm → ℕ → List Vm → Type 0
  LoopOutcome vms code wait_for code' stopped =
      ((code' ≡ code) × (stopped ≡ wait_for ++ vms))
      ⊎ ((code' ≡ err_shutdown_app) × (length stopped < length wait_for + length vms))

  LoopOutcome-next :
      (vm : Vm) (vms : List Vm) (code : ℕ) (wait_for : List Vm) (code' : ℕ) (stopped : List Vm)
      → LoopOutcome vms code (wait_for ++ vm ∷ []) code' stopped
      → LoopOutcome (vm ∷ vms) code wait_for code' stopped
  LoopOutcome-next vm vms code wait_for code' stopped (inl (c, s)) =
      inl (c, s ∙ append_assoc wait_for (vm ∷ []) vms)
  LoopOutcome-next vm vms code wait_for code' stopped (inr (c, s)) =
      inr (c, omega (arith, length-append wait_for (vm ∷ [])))

  LoopOutcome-failed :
      (vm : Vm) (vms : List Vm) (code : ℕ) (wait_for : List Vm) (code' : ℕ) (stopped : List Vm)
      → LoopOutcome vms err_shutdown_app wait_for code' stopped
      → LoopOutcome (vm ∷ vms) code wait_for code' stopped
  LoopOutcome-failed vm vms code wait_for code' stopped (inl (c, s)) =
      inr (c, omega (arith, ap length s, length-append wait_for vms))
  LoopOutcome-failed vm vms code wait_for code' stopped (inr (c, s)) = inr (c, omega arith)

  shutdown_loop_lem :
      (vms : List Vm) (code : ℕ) (wait_for : List Vm) (m : Machine sys) (code' : ℕ)
      (stopped : List Vm)
      → (shutdown_loop sys vms code wait_for m).0 ≡ ok (code', stopped)
      → LoopOutcome vms code wait_for code' stopped
  unfolding shutdown_loop
  shutdown_loop_lem [] code wait_for m code' stopped e =
      inl (ground arith, sym (ground (arith, append-nil wait_for)))
  shutdown_loop_lem (vm ∷ vms) code wait_for m code' stopped e =
      let next = (call_shutdown sys vm true m).1 in
      elim (Result-cases (call_shutdown sys vm true m).0) [
        | inl (u, went) ↦
            LoopOutcome-next vm vms code wait_for code' stopped
              (shutdown_loop_lem vms code (wait_for ++ vm ∷ []) next code' stopped (ground arith))
        | inr (x, refused) ↦
            LoopOutcome-failed vm vms code wait_for code' stopped
              (shutdown_loop_lem vms err_shutdown_app wait_for next code' stopped (ground arith))
      ]

  shutdown_domains_lem :
      (vms : List Vm) (m : Machine sys) (code : ℕ) (stopped : List Vm)
      → (shutdown_domains sys vms m).0 ≡ ok (code, stopped)
      → ((code ≡ exit_ok) × (stopped ≡ vms))
        ⊎ ((code ≡ err_shutdown_app) × (length stopped < length vms))
  unfolding shutdown_domains
  shutdown_domains_lem vms m code stopped e =
      rw (← zero-add (length vms)) (shutdown_loop_lem vms exit_ok [] m code stopped (ground arith))

  -- The qubes that the system lets be shut down, when it is asked for them in turn
  abbrev pub let_down : List Vm → sys.State → List Vm
  let_down [] s = []
  let_down (vm ∷ vms) s =
      let (r, s') = sys.shutdown s vm true in
      let rest = let_down vms s' in on_result r (λ _. vm ∷ rest) (λ _. rest)

  shutdown_loop-let_down :
      (vms : List Vm) (code : ℕ) (wait_for : List Vm) (m : Machine sys) (code' : ℕ)
      (stopped : List Vm)
      → (shutdown_loop sys vms code wait_for m).0 ≡ ok (code', stopped)
      → stopped ≡ wait_for ++ let_down vms m.state
  unfolding shutdown_loop call_shutdown
  shutdown_loop-let_down [] code wait_for m code' stopped e =
      sym (ground (arith, append-nil wait_for))
  shutdown_loop-let_down (vm ∷ vms) code wait_for m code' stopped e =
      let next = (call_shutdown sys vm true m).1 in
      elim (Result-cases (sys.shutdown m.state vm true).0) [
        | inl (u, went) ↦ ground (
          arith,
          shutdown_loop-let_down vms code (wait_for ++ vm ∷ []) next code' stopped,
          append_assoc wait_for (vm ∷ []) (let_down vms next.state),
        )
        | inr (x, refused) ↦
            ground (arith, shutdown_loop-let_down vms err_shutdown_app wait_for next code' stopped)
      ]

  -- If `shutdown_domains` returns, it gives back exactly the qubes for which the call of `shutdown`
  -- went through, in order, when the system is asked for all of them in turn. Its code is 0, with all
  -- of the qubes, or 12, with fewer.
  pub shutdown_domains_exact :
      (vms : List Vm) (m : Machine sys) (code : ℕ) (stopped : List Vm)
      → (shutdown_domains sys vms m).0 ≡ ok (code, stopped)
      → (stopped ≡ let_down vms m.state)
        × (((code ≡ exit_ok) × (stopped ≡ vms))
            ⊎ ((code ≡ err_shutdown_app) × (length stopped < length vms)))
  unfolding shutdown_domains
  shutdown_domains_exact vms m code stopped e = (
    shutdown_loop-let_down vms exit_ok [] m code stopped (ground arith),
    shutdown_domains_lem vms m code stopped e,
  )

  shutdown_domains_code :
      (vms : List Vm) (m : Machine sys) (code : ℕ) (stopped : List Vm)
      → (shutdown_domains sys vms m).0 ≡ ok (code, stopped)
      → (code ≡ exit_ok) ⊎ (code ≡ err_shutdown_app)
  shutdown_domains_code vms m code stopped e = elim (shutdown_domains_lem vms m code stopped e) [
    | inl h ↦ inl h.0
    | inr h ↦ inr h.0
  ]

  start_loop_code :
      (vms : List Vm) (code : ℕ) (m : Machine sys) (code' : ℕ)
      → (start_loop sys vms code m).0 ≡ ok code'
      → (code' ≡ code) ⊎ (code' ≡ err_start_app)
  unfolding start_loop
  start_loop_code [] code m code' e = ground arith
  start_loop_code (vm ∷ vms) code m code' e =
      let next = (call_start sys vm m).1 in
      ground
        (arith, start_loop_code vms code next code', start_loop_code vms err_start_app next code')

  -- `restart_vms` returns 0, 12 or 13.
  pub restart_vms_code :
      (vms : List Vm) (m : Machine sys) (code : ℕ)
      → (restart_vms sys vms m).0 ≡ ok code
      → (code ≡ exit_ok) ⊎ (code ≡ err_shutdown_app) ⊎ (code ≡ err_start_app)
  unfolding restart_vms
  restart_vms_code vms m code e =
      let r = shutdown_domains sys vms m in
      elim (Result-cases r.0) [
        | inl ((c, stopped), e') ↦
            ground
              (arith, shutdown_domains_code vms m c stopped e', start_loop_code stopped c r.1 code)
        | inr (x, e') ↦ ground arith
      ]

  abbrev IsApplyCode : ℕ → Type 0
  IsApplyCode code =
      (code ≡ exit_ok)
      ⊎ (code ≡ err_shutdown_tmpl)
      ⊎ (code ≡ err_shutdown_app)
      ⊎ (code ≡ err_start_app)

  apply_to_derived_code :
      (all : Bool) (start : ℕ) (groups : List Vm × List Vm) (m : Machine sys) (code : ℕ)
      → (start ≡ exit_ok) ⊎ (start ≡ err_shutdown_tmpl)
      → (apply_to_derived sys all start groups m).0 ≡ ok code
      → IsApplyCode code
  unfolding apply_to_derived
  apply_to_derived_code all start (xs, ys) m code h e =
      let r = restart_vms sys xs m in
      let q = shutdown_domains sys ys r.1 in
      elim (Result-cases r.0) [
        | inr (x, e') ↦ ground arith
        | inl (c, e') ↦ elim (Result-cases q.0) [
          | inr (x, e'') ↦ ground (arith, restart_vms_code xs m c e')
          | inl ((d, stopped), e'') ↦
              ground (arith, restart_vms_code xs m c e', shutdown_domains_code ys r.1 d stopped e'')
        ]
      ]

  apply_running_code :
      (all : Bool) (tmpls : List Vm) (ds : Statuses) (groups : List Vm × List Vm) (m : Machine sys)
      (code : ℕ)
      → (apply_running sys all tmpls ds groups m).0 ≡ ok code
      → IsApplyCode code
  unfolding apply_running
  apply_running_code all tmpls ds groups m code e =
      let r = shutdown_domains sys (filter (λ t. running sys m t) tmpls) m in
      let ready = filter (λ t. not (running sys r.1 t)) tmpls in
      elim (Result-cases r.0) [
        | inr (x, e') ↦ ground arith
        | inl ((c, stopped), e') ↦ elim (Result-cases (get_derived_vm_to_apply sys ready ds r.1)) [
          | inr (x, e'') ↦
              ground (arith, apply_to_derived_code all exit_ok groups r.1 code (inl refl))
          | inl (g, e'') ↦ ground (
            arith,
            apply_to_derived_code all exit_ok groups r.1 code (inl refl),
            apply_to_derived_code all err_shutdown_tmpl g r.1 code (inr refl),
          )
        ]
      ]

  -- Of `apply_updates_to_appvm` only the documented codes come back: 0, 11, 12 and 13.
  pub apply_updates_to_appvm_code :
      (args : Args) (vm_updated : List Vm) (ts ds : Statuses) (m : Machine sys) (code : ℕ)
      → (apply_updates_to_appvm sys args vm_updated ts ds m).0 ≡ ok code
      → (code ≡ exit_ok)
        ⊎ (code ≡ err_shutdown_tmpl)
        ⊎ (code ≡ err_shutdown_app)
        ⊎ (code ≡ err_start_app)
  unfolding apply_updates_to_appvm
  apply_updates_to_appvm_code args vms ts ds m code e =
      elim (Result-cases (updated_templates sys ts vms)) [
        | inr (x, e') ↦ ground arith
        | inl (tmpls, e') ↦ elim (Result-cases (get_derived_vm_to_apply sys tmpls ds m)) [
          | inr (x, e'') ↦ ground arith
          | inl (groups, e'') ↦
              ground (arith, apply_running_code args.apply_to_all tmpls ds groups m code)
        ]
      ]

  -- With `--dry-run`, or with neither `--apply-to-sys` nor `--apply-to-all`, no qube is stopped or
  -- started and the state of the system is as before.
  pub apply_updates_to_appvm_idle :
      (args : Args) (vm_updated : List Vm) (ts ds : Statuses) (m : Machine sys)
      → (args.dry_run ≡ true) ⊎ ((args.apply_to_sys ≡ false) × (args.apply_to_all ≡ false))
      → (apply_updates_to_appvm sys args vm_updated ts ds m).1 ≡ m
  unfolding apply_updates_to_appvm
  apply_updates_to_appvm_idle args vms ts ds m h = ground arith

  -- With `--apply-to-sys` or `--apply-to-all`, an updated qube that has no status makes the call
  -- raise a `KeyError`, and nothing is done; there is none for any qube if the statuses are empty.
  pub apply_updates_to_appvm_missing :
      (args : Args) (vm : Vm) (vms : List Vm) (ds : Statuses) (m : Machine sys)
      → (args.apply_to_sys ≡ true) ⊎ (args.apply_to_all ≡ true)
      → apply_updates_to_appvm sys args (vm ∷ vms) [] ds m ≡ (err (key_error vm.name), m)
  unfolding apply_updates_to_appvm updated_templates lookup
  apply_updates_to_appvm_missing args vm vms ds m h = ground arith
