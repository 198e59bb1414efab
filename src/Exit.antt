-- ===== src/Exit.antt =====
-- vmupdate/agent/source/common/exit_codes.py
use qubes_core_admin_linux.Prelude.{ℕ, Bool, ◌||◌, nat_eq}

abbrev pub exit_ok : ℕ
exit_ok = 0

abbrev pub ok_no_updates : ℕ
ok_no_updates = 100

abbrev pub err_general : ℕ
err_general = 1

abbrev pub err_shutdown_tmpl : ℕ
err_shutdown_tmpl = 11

abbrev pub err_shutdown_app : ℕ
err_shutdown_app = 12

abbrev pub err_start_app : ℕ
err_start_app = 13

abbrev pub err_vm : ℕ
err_vm = 21

abbrev pub err_vm_pre : ℕ
err_vm_pre = 22

abbrev pub err_vm_refresh : ℕ
err_vm_refresh = 23

abbrev pub err_vm_update : ℕ
err_vm_update = 24

abbrev pub err_vm_cleanup : ℕ
err_vm_cleanup = 25

abbrev pub err_vm_unhandled : ℕ
err_vm_unhandled = 26

abbrev pub err_qrexex : ℕ
err_qrexex = 40

abbrev pub err_usage : ℕ
err_usage = 64

abbrev pub sigint : ℕ
sigint = 130

-- `code in EXIT.VM_HANDLED`
abbrev pub vm_handled : ℕ → Bool
vm_handled code =
    nat_eq code 0
    || nat_eq code 100
    || nat_eq code 21
    || nat_eq code 22
    || nat_eq code 23
    || nat_eq code 24
    || nat_eq code 25
