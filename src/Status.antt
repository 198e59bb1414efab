-- ===== src/Status.antt =====
-- vmupdate/agent/source/status.py
use qubes_core_admin_linux.Prelude.{Text, codes, ◌++◌, Bool, true, false, String}
use qubes_core_admin_linux.Prelude.Int.{ℤ}

pub data Status : Type 0 where
  pending updating done : Status

pub data FinalStatus : Type 0 where
  success error cancelled no_updates unknown : FinalStatus

-- `__bool__`
abbrev pub is_success : FinalStatus → Bool
is_success FinalStatus.success = true
is_success _ = false

-- `.value`
unfoldable pub status_value : Status → String
status_value pending = "pending"
status_value updating = "updating"
status_value done = "done"

unfoldable pub final_value : FinalStatus → String
final_value FinalStatus.success = "success"
final_value FinalStatus.error = "error"
final_value FinalStatus.cancelled = "cancelled"
final_value FinalStatus.no_updates = "no updates"
final_value FinalStatus.unknown = "unknown"

abbrev pub is_no_updates : FinalStatus → Bool
is_no_updates FinalStatus.no_updates = true
is_no_updates _ = false

abbrev pub is_cancelled : FinalStatus → Bool
is_cancelled FinalStatus.cancelled = true
is_cancelled _ = false

abbrev pub is_error : FinalStatus → Bool
is_error FinalStatus.error = true
is_error _ = false

abbrev pub is_unknown : FinalStatus → Bool
is_unknown FinalStatus.unknown = true
is_unknown _ = false

-- What a worker puts on the queue: a `StatusInfo`, whose `info` goes with its status, or a
-- `FormatedLine` of a stream.
pub data Message : Type 0 where
  pending_info : (qname : String) → Message
  updating_info : (qname : String) → (percent : ℤ) → Message
  done_info : (qname : String) → FinalStatus → Message
  formated_line : (qname stream : String) → (message : Text) → Message

-- `FormatedLine.__str__`
unfoldable pub line_text : String → String → Text → Text
line_text qname stream message =
    codes qname ++ (codes ":" ++ (codes stream ++ (codes ": " ++ message)))
