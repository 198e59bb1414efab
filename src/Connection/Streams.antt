-- ===== src/Connection/Streams.antt =====
-- vmupdate/qube_connection.py: `_collect_stderr` and `_collect_stdout`, which read the streams of
-- one process side by side. The lines come in the order in which the two threads take them.
use qubes_core_admin_linux.Exec.{index_error, err, ok, Result}
use qubes_core_admin_linux.Host.{err_line, out_line, Line}
use qubes_core_admin_linux.Prelude.{
  is_nil, nat_eq, Text, Bool, true, false, ◌||◌, String, Option, none, some, List, [], ◌∷◌, ◌++◌,
  if◌then◌else◌,
}
use qubes_core_admin_linux.Prelude.Int.{eq_ℤ, pos, ℤ}
use qubes_core_admin_linux.Process.{sanitize_output}
use qubes_core_admin_linux.Status.{updating_info, formated_line, Message}

-- `line.split()[-1]`, with nothing for the `IndexError` of a line of blanks. `word` is the word
-- that is being read, and `last` the last one before it.
unfoldable pub last_word_from : Text → Text → Option Text → Option Text
last_word_from [] [] last = last
last_word_from [] (c ∷ word) last = some (c ∷ word)
last_word_from (c ∷ cs) word last =
    last_word_from cs (if nat_eq c 32 then [] else word ++ c ∷ [])
      (if nat_eq c 32 then (elim word [ [] ↦ last | d ∷ ds ↦ some (d ∷ ds) ]) else last)

unfoldable pub last_word : Text → Option Text
unfolding last_word_from
last_word line = last_word_from line [] none

-- 100.0
abbrev pub full : ℤ
full = pos 10000

-- The progress that a line states, as a number or by its last word: `err` is the `IndexError`, and
-- nothing stands for a line that states none.
unfoldable pub line_progress : (Text → Option ℤ) → Text → Result (Option ℤ)
line_progress float line = elim (float line) [
  | some p ↦ ok (some p)
  | none ↦ elim (last_word line) [ none ↦ err index_error | some w ↦ ok (float w) ]
]

-- The state of the two threads: `progress_finished`, whether the stderr thread has ended with an
-- exception, and what was put on the queue.
pub record Streams : Type 0 where
  pub progress_finished : Bool
  pub broken : Bool
  pub sent : List Message

module _ (float : Text → Option ℤ) (qname : String) where
  -- The body of the loop of `_collect_stderr`, for a line that is not empty.
  unfoldable pub stderr_line : Text → Streams → Streams
  stderr_line line s =
      let text = record s { sent = s.sent ++ formated_line qname "err" line ∷ [] } in
      if s.progress_finished then text else elim (line_progress float line) [
        | err _ ↦ record s { broken = true }
        | ok none ↦ text
        | ok (some p) ↦ record s {
          progress_finished = eq_ℤ p full;
          sent = s.sent ++ updating_info qname p ∷ [];
        }
      ]

  -- One line on either stream.
  unfoldable pub stream_line : Line → Streams → Streams
  stream_line (out_line untrusted) s =
      let line = sanitize_output untrusted true in
      if is_nil line then s else record s { sent = s.sent ++ formated_line qname "out" line ∷ [] }
  stream_line (err_line untrusted) s =
      let line = sanitize_output untrusted true in
      if s.broken || is_nil line then s else stderr_line line s

  unfoldable pub stream_lines : List Line → Streams → Streams
  stream_lines [] s = s
  stream_lines (l ∷ ls) s = stream_lines ls (stream_line l s)

  -- Both threads, from their start to the end of the streams.
  abbrev pub collect : List Line → Streams
  collect ls = stream_lines ls (record { progress_finished = false; broken = false; sent = [] })
