-- ===== src/Process.antt =====
-- vmupdate/agent/source/common/process_result.py. The writes of `realtime` results to the standard
-- streams are not modelled, but for the flag `posted`.
pub mod Laws
use qubes_core_admin_linux.Exit.{err_general, exit_ok}
use qubes_core_admin_linux.Prelude.{
  ◌+◌, ℕ, max, ltb, leb, nat_eq, Bool, true, false, not, List, [], ◌∷◌, ◌++◌, filter, map, any,
  Text, codes, lines, if◌then◌else◌, ◌&&◌, ◌||◌,
}

pub record ProcessResult : Type 0 where
  pub code : ℕ
  pub out : Text
  pub err : Text
  pub realtime : Bool
  pub posted : Bool

-- `ProcessResult(code, out, err)`
abbrev pub process_result : ℕ → Text → Text → ProcessResult
process_result code out err = record {
  code = code;
  out = out;
  err = err;
  realtime = false;
  posted = false;
}

-- `ProcessResult(realtime=True)`
abbrev pub realtime_result : ProcessResult
realtime_result = record { code = 0; out = []; err = []; realtime = true; posted = true }

-- bool(result): whether the code is not 0
abbrev pub failed : ProcessResult → Bool
failed r = not (nat_eq r.code 0)

abbrev pub is_printable : ℕ → Bool
is_printable c = leb 0x20 c && leb c 0x7E

-- Bytes above 127 are dropped by the ASCII decoding.
unfoldable pub sanitize_output : List ℕ → Bool → Text
sanitize_output untrusted single =
    filter (λ c. is_printable c || (nat_eq c 10 && not single)) (filter (λ c. ltb c 128) untrusted)

unfoldable pub from_untrusted_out_err : List ℕ → List ℕ → ProcessResult
unfolding sanitize_output
from_untrusted_out_err out err =
    process_result exit_ok (sanitize_output out false) (sanitize_output err false)

-- `self += other`
infixl 65 ◌+=◌
unfoldable pub ◌+=◌ : ProcessResult → ProcessResult → ProcessResult
self += other = record self {
  code = max self.code other.code;
  out = self.out ++ other.out;
  err = self.err ++ other.err;
}

-- `c.lower()` of an ASCII letter
abbrev lower : ℕ → ℕ
lower c = if leb 65 c && leb c 90 then c + 32 else c

-- line.lower().startswith("err")
abbrev pub is_err_line : Text → Bool
is_err_line (a ∷ (b ∷ (c ∷ _))) =
    nat_eq (lower a) 101 && (nat_eq (lower b) 114 && nat_eq (lower c) 114)
is_err_line _ = false

unfoldable pub error_from_messages : ProcessResult → ProcessResult
error_from_messages r =
    if any is_err_line (lines (r.out ++ 10 ∷ r.err)) then record r { code = err_general } else r
