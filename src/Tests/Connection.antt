-- ===== src/Tests/Connection.antt =====
-- The streams of a connection and results of processes, run.
use qubes_core_admin_linux.Connection.Progress.{stream_lines_finished, is_progress}
use qubes_core_admin_linux.Connection.Streams.{full, line_progress, stream_lines, Streams}
use qubes_core_admin_linux.Exec.{ok}
use qubes_core_admin_linux.Host.{out_line, err_line, Line}
use qubes_core_admin_linux.Prelude.{
  filter, some, ℕ, In, Text, ◌≤◌, ◌≡◌, refl, ◌↔◌, ◌⊎◌, true, false, Option, List, [], ◌∷◌,
}
use qubes_core_admin_linux.Prelude.Int.{pos, ℤ}
use qubes_core_admin_linux.Process.{process_result, ProcessResult, sanitize_output}
use qubes_core_admin_linux.Process.Laws.{sanitize_output_exact}
use qubes_core_admin_linux.Status.{updating_info}

abbrev float : Text → Option ℤ
float line = some (pos (elim line [ [] ↦ 0 | c ∷ cs ↦ 10000 ]))

abbrev reading : Streams
reading = record { progress_finished = false; broken = false; sent = [] }

abbrev two_lines : List Line
two_lines = err_line (52 ∷ 50 ∷ []) ∷ out_line (32 ∷ []) ∷ []

stated_lem : line_progress float (sanitize_output (49 ∷ []) true) ≡ ok (some full)
unfolding line_progress sanitize_output
stated_lem = refl

stream_lines_finished_example :
    (filter is_progress (stream_lines float "work" (err_line (49 ∷ []) ∷ two_lines) reading).sent
      ≡ updating_info "work" full ∷ [])
    × ((stream_lines float "work" (err_line (49 ∷ []) ∷ two_lines) reading).broken ≡ false)
unfolding sanitize_output
stream_lines_finished_example =
    stream_lines_finished float "work" (49 ∷ []) two_lines reading refl refl refl stated_lem

abbrev transferred : ProcessResult
transferred = process_result 1 [] []

abbrev ran : ProcessResult
ran = process_result 100 [] []

sanitize_output_exact_example : In {A = ℕ} 10 (sanitize_output (10 ∷ 200 ∷ 65 ∷ []) true) ↔ (
    In {A = ℕ} 10 (10 ∷ 200 ∷ 65 ∷ [])
    × (((0x20 ≤ 10) × (10 ≤ 0x7E)) ⊎ ((◌≡◌ {A = ℕ} 10 10) × (true ≡ false))))
sanitize_output_exact_example = sanitize_output_exact (10 ∷ 200 ∷ 65 ∷ []) true 10
