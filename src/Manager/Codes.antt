-- ===== src/Manager/Codes.antt =====
-- The return code of `UpdateManager.run`.
use qubes_core_admin_linux.Exec.{Result-cases, ok}
use qubes_core_admin_linux.Exit.{err_vm_cleanup, err_vm_unhandled, sigint, err_vm, exit_ok}
use qubes_core_admin_linux.Manager.{
  Manager, collected, Pool, fed, print_lines, Event, collect_result, drive, feed, final_code,
  print_line, vm_code,
}
use qubes_core_admin_linux.Prelude.{
  nat_eq, Bool-cases, ap, lines, ◌∙◌, String, Text, ℕ, max, ◌≤◌, ◌≡◌, refl, ◌↔◌, ◌⊎◌, inl, inr,
  Bool, true, false, List, [], ◌∷◌, any, arith,
}
use qubes_core_admin_linux.Process.{ProcessResult}
use qubes_core_admin_linux.Status.{
  formated_line, done_info, updating_info, pending_info, is_unknown, is_error, line_text,
  is_cancelled, FinalStatus, Message,
}

-- What a batch of workers can leave in `ret_code`: 0, or a code of the range of qube errors.
abbrev pub IsVmCode : ℕ → Type 0
IsVmCode code = (code ≡ exit_ok) ⊎ ((err_vm ≤ code) × (code ≤ err_vm_unhandled))

-- The code of one worker is 0 exactly if its result is 0, and else lies between 21 and 26: 100 and
-- all codes that agents do not return count as 26.
pub vm_code_exact :
    (code : ℕ)
    → IsVmCode (vm_code code)
      × ((vm_code code ≡ exit_ok) ↔ (code ≡ exit_ok))
      × ((err_vm ≤ code) × (code ≤ err_vm_cleanup) → vm_code code ≡ code)
unfolding vm_code
vm_code_exact code = ground arith

print_line_code : (text : Text) (m : Manager) → (print_line text m).ret_code ≡ m.ret_code
unfolding print_line
print_line_code text m = ground arith

print_lines_code :
    (q s : String) (ls : List Text) (m : Manager) → (print_lines q s ls m).ret_code ≡ m.ret_code
unfolding print_lines
print_lines_code q s [] m = refl
print_lines_code q s (l ∷ ls) m = print_lines_code q s ls _ ∙ print_line_code (line_text q s l) m

pub collect_result_code :
    (q : String) (r : ProcessResult) (m : Manager)
    → (collect_result q r m).ret_code ≡ max m.ret_code (vm_code r.code)
unfolding collect_result
collect_result_code q r m =
    let counted = record m { ret_code = max m.ret_code (vm_code r.code) } in
    ground (
      arith,
      print_line_code r.out counted,
      print_lines_code q "out" (lines r.out) counted,
      print_lines_code q "err" (lines r.err) (print_lines q "out" (lines r.out) counted),
    )

pub feed_code :
    (msg : Message) (p p' : Pool) → feed msg p ≡ ok p' → p'.manager.ret_code ≡ p.manager.ret_code
unfolding feed
feed_code (pending_info q) p p' e = ground arith
feed_code (updating_info q v) p p' e = ground arith
feed_code (done_info q st) p p' e = ground arith
feed_code (formated_line q s t) p p' e = ground (arith, print_line_code (line_text q s t) p.manager)

-- The results collected in a run, and the highest of their codes.
abbrev pub highest : List Event → ℕ → ℕ
highest [] code = code
highest (fed _ ∷ events) code = highest events code
highest (collected _ r ∷ events) code = highest events (max code (vm_code r.code))

-- Whatever the interleaving of messages and results, `ret_code` ends as the highest of the codes
-- of the workers.
pub drive_code :
    (events : List Event) (p p' : Pool)
    → drive events p ≡ ok p'
    → p'.manager.ret_code ≡ highest events p.manager.ret_code
unfolding drive
drive_code [] p p' e = ground arith
drive_code (collected q r ∷ events) p p' e =
    let next = record p { manager = collect_result q r p.manager } in
    drive_code events next p' e ∙ ap (highest events) (collect_result_code q r p.manager)
drive_code (fed msg ∷ events) p p' e = elim (Bool-cases (nat_eq p.left 0)) [
  | inl z ↦ drive_code events p p' (rw (z) at e)
  | inr nz ↦ elim (Result-cases (feed msg p)) [
    | inr (x, e') ↦ ground arith
    | inl (q, e') ↦
        drive_code events q p' (ground arith) ∙ ap (highest events) (feed_code msg p q e')
  ]
]

-- With codes of workers below it, the code of a run is 130 exactly if a cancel was requested or
-- some qube ended as cancelled, and 0 exactly if moreover no worker failed and no qube ended with
-- an error or unknown.
pub final_code_exact :
    (termination : Bool) (stats : List FinalStatus) (code : ℕ)
    → IsVmCode code
    → ((final_code termination stats code ≡ sigint)
        ↔ ((termination ≡ true) ⊎ (any is_cancelled stats ≡ true)))
      × ((final_code termination stats code ≡ exit_ok) ↔ (
          (termination ≡ false)
          × (any is_cancelled stats ≡ false)
          × (any is_error stats ≡ false)
          × (any is_unknown stats ≡ false)
          × (code ≡ exit_ok)))
unfolding final_code
final_code_exact termination stats code v = ground arith
