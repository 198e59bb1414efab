-- ===== src/Manager/Board.antt =====
-- What a run of the manager promises, without its descriptions and the order of its dicts: a board with
-- the percentage that the bar of each qube shows, its last final status, and the highest code.
use qubes_core_admin_linux.Exec.{err, Result, ok}
use qubes_core_admin_linux.Manager.{formated_line, done_info, fed, vm_code, collected, Event, Pool}
use qubes_core_admin_linux.Manager.Shown.{displayed, put_at}
use qubes_core_admin_linux.Prelude.{
  nat_eq, lookup, ℕ, ◌-◌, max, String, Option, List, [], ◌∷◌, if◌then◌else◌,
}
use qubes_core_admin_linux.Prelude.Int.{ℤ}
use qubes_core_admin_linux.Status.{updating_info, pending_info, FinalStatus, Message}

pub record Board : Type 0 where
  pub shown : String → Option ℤ
  pub final : String → Option FinalStatus
  pub waiting : ℕ
  pub code : ℕ

-- A message on the board, while it waits for one
abbrev pub board_message : Message → Board → Board
board_message (pending_info _) b = b
board_message (updating_info qname percent) b = record b { shown = put_at qname percent b.shown }
board_message (done_info qname status) b = record b {
  final = put_at qname status b.final;
  waiting = b.waiting - 1;
}
board_message (formated_line _ _ _) b = b

abbrev pub board_event : Event → Board → Board
board_event (collected _ result) b = record b { code = max b.code (vm_code result.code) }
board_event (fed message) b = if nat_eq b.waiting 0 then b else board_message message b

abbrev pub board_events : List Event → Board → Board
board_events [] b = b
board_events (event ∷ events) b = board_events events (board_event event b)

-- The board of a pool
abbrev pub board_of : Pool → Board
board_of p = record {
  shown = λ q. displayed q p.bars;
  final = λ q. lookup q p.bars.statuses;
  waiting = p.left;
  code = p.manager.ret_code;
}

abbrev or_else : Pool → Result Pool → Pool
or_else p (ok q) = q
or_else p (err x) = p
