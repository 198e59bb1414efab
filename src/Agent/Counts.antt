-- ===== src/Agent/Counts.antt =====
-- The number of `DONE` messages on the queue, and the streams of a process, which add none.
use qubes_core_admin_linux.Agent.{through, rename}
use qubes_core_admin_linux.Connection.Streams.{
  line_progress, Streams, stderr_line, stream_lines, stream_line,
}
use qubes_core_admin_linux.Exec.{Result-cases}
use qubes_core_admin_linux.Host.{err_line, out_line, Line}
use qubes_core_admin_linux.Manager.Feeding.{is_done}
use qubes_core_admin_linux.Prelude.{
  Bool-cases, map, Text, ℕ, ◌+◌, ◌≡◌, refl, ◌∙◌, inl, inr, true, String, Option, none, some, List,
  [], ◌∷◌, ◌++◌, arith,
}
use qubes_core_admin_linux.Prelude.Int.{ℤ}
use qubes_core_admin_linux.Process.{sanitize_output}
use qubes_core_admin_linux.Status.{formated_line, done_info, updating_info, pending_info, Message}

-- The number of `DONE` messages.
abbrev pub done_count : List Message → ℕ
done_count [] = 0
done_count (message ∷ messages) = is_done message + done_count messages

pub done_count-append :
    (xs ys : List Message) → done_count (xs ++ ys) ≡ done_count xs + done_count ys
done_count-append [] ys = omega arith
done_count-append (x ∷ xs) ys = omega (arith, done_count-append xs ys)

pub is_done-rename : (name : String) (m : Message) → is_done (rename name m) ≡ is_done m
unfolding rename
is_done-rename name (pending_info q) = refl
is_done-rename name (updating_info q p) = refl
is_done-rename name (done_info q s) = refl
is_done-rename name (formated_line q s t) = refl

pub done_count-through :
    (o : Option String) (xs : List Message) → done_count (map (through o) xs) ≡ done_count xs
done_count-through none [] = refl
done_count-through none (x ∷ xs) = omega (arith, done_count-through none xs)
done_count-through (some n) [] = refl
done_count-through (some n) (x ∷ xs) =
    omega (arith, is_done-rename n x, done_count-through (some n) xs)

module _ (float : Text → Option ℤ) (qname : String) where
  pub stderr_line_done :
      (line : Text) (s : Streams)
      → done_count (stderr_line float qname line s).sent ≡ done_count s.sent
  unfolding stderr_line
  stderr_line_done line s = elim (Bool-cases s.progress_finished) [
    | inl e ↦ ground (arith, done_count-append s.sent (formated_line qname "err" line ∷ []))
    | inr e ↦ elim (Result-cases (line_progress float line)) [
      | inr (x, e') ↦ ground arith
      | inl (none, e') ↦
          ground (arith, done_count-append s.sent (formated_line qname "err" line ∷ []))
      | inl (some p, e') ↦ ground (arith, done_count-append s.sent (updating_info qname p ∷ []))
    ]
  ]

  pub stream_line_done :
      (l : Line) (s : Streams) → done_count (stream_line float qname l s).sent ≡ done_count s.sent
  unfolding stream_line
  stream_line_done (out_line u) s =
      ground
        (arith, done_count-append s.sent (formated_line qname "out" (sanitize_output u true) ∷ []))
  stream_line_done (err_line u) s =
      let line = sanitize_output u true in
      ground (
        arith,
        done_count-append s.sent (formated_line qname "err" line ∷ []),
        stderr_line_done line s,
      )

  pub stream_lines_done :
      (ls : List Line) (s : Streams)
      → done_count (stream_lines float qname ls s).sent ≡ done_count s.sent
  unfolding stream_lines
  stream_lines_done [] s = refl
  stream_lines_done (l ∷ ls) s =
      stream_lines_done ls (stream_line float qname l s) ∙ stream_line_done l s
