-- ===== src/Progress.antt =====
-- vmupdate/agent/source/common/progress_reporter.py. Python's floats are a parameter. The callback of
-- a progress appends to what it has reported, and each file that it prints to is a list of texts.
pub mod Dnf
pub mod Dnf5
pub mod Apt
pub mod Calls
pub mod Ascending
use qubes_core_admin_linux.Exec.{pure, err, ◌>>=◌, lift, ok, on_result, ◌>>?◌, Exec, Result}
use qubes_core_admin_linux.Prelude.{
  is_nil, ◌%◌, codes, ◌/◌, ltb, filter, Text, ℕ, zero, suc, ◌+◌, ◌-◌, ◌≤◌, ◌<◌, max, ◌≡◌, ◌≢◌, refl,
  sym, ap, ◌∙◌, ◌↔◌, ◌⊎◌, inl, inr, Bool, true, false, not, ◌&&◌, ◌||◌, String, ◌<>◌, Option, none,
  some, List, [], ◌∷◌, ◌++◌, if◌then◌else◌, arith,
}
use qubes_core_admin_linux.Prelude.Int.{negsuc, ℤ, pos, ◌+ℤ◌}

-- The arithmetic of floats, which is Python's. Division raises a ZeroDivisionError; `ratio` is that
-- of two ints, `round2` is `round(x, 2)` and `text2` the format `.2f`.
pub record Floats : Type 1 where
  pub F : Type 0
  pub of_int : ℤ → F
  pub ratio : ℤ → ℤ → Result F
  pub add : F → F → F
  pub sub : F → F → F
  pub mul : F → F → F
  pub div : F → F → Result F
  pub round2 : F → F
  pub lt : F → F → Bool
  pub eq : F → F → Bool
  pub text2 : F → String

module _ (fl : Floats) where
  -- `Progress` after its `init`: what its callback was given, the standard output, and the files
  -- `_stdout` and `_stderr`.
  pub record Progress : Type 0 where
    pub start_percent : fl.F
    pub stop_percent : fl.F
    pub last_percent : fl.F
    pub reported : List fl.F
    pub printed : List Text
    pub stdout : List Text
    pub stderr : List Text

  -- `init`
  unfoldable pub init_progress : fl.F → fl.F → Progress
  init_progress start stop = record {
    start_percent = start;
    stop_percent = stop;
    last_percent = start;
    reported = [];
    printed = [];
    stdout = [];
    stderr = [];
  }

  -- The share of the whole that a percentage of one phase stands for.
  unfoldable pub overall : fl.F → Progress → Result fl.F
  overall percent p =
      fl.div (fl.mul percent (fl.sub p.stop_percent p.start_percent)) (fl.of_int (pos 100))
      >>? λ part. ok (fl.round2 (fl.add p.start_percent part))

  -- `notify_callback`
  unfoldable pub notify_callback : fl.F → Progress → Result Progress
  notify_callback percent p = overall percent p >>? λ x. ok (
      if fl.lt p.last_percent x
      then record p { last_percent = x; reported = p.reported ++ x ∷ [] }
      else p)

  -- `a / b * 100` of two ints
  abbrev pub share : ℤ → ℤ → Result fl.F
  share a b = fl.ratio a b >>? λ x. ok (fl.mul x (fl.of_int (pos 100)))

  -- `_format_bytes`, over the units that are left
  unfoldable pub format_units : String → List String → fl.F → Result String
  format_units last [] size = ok (fl.text2 size <> (" " <> last))
  format_units last (unit ∷ units) size =
      let rest = fl.div size (fl.of_int (pos 1024)) >>? format_units unit units in
      if fl.lt size (fl.of_int (pos 1024)) then ok (fl.text2 size <> (" " <> unit)) else rest

  unfoldable pub format_bytes : fl.F → Result String
  format_bytes = format_units "PiB" ("B" ∷ "KiB" ∷ "MiB" ∷ "GiB" ∷ "TiB" ∷ "PiB" ∷ [])

  -- The progresses of the three phases.
  pub record Phases : Type 0 where
    pub update_progress : Progress
    pub fetch_progress : Progress
    pub upgrade_progress : Progress

  -- `ProgressReporter.__init__`, for the weights of the phases
  unfoldable pub reporter : ℤ → ℤ → ℤ → Result Phases
  reporter update fetch upgrade =
      let total = (update +ℤ fetch) +ℤ upgrade in
      share update total >>? λ update_end. share fetch total >>? λ fetch_share.
      let fetch_end = fl.add fetch_share update_end in
      ok (record {
        update_progress = init_progress (fl.of_int (pos 0)) update_end;
        fetch_progress = init_progress update_end fetch_end;
        upgrade_progress = init_progress fetch_end (fl.of_int (pos 100));
      })

-- How to get at the `Progress` in the state of a display of a library.
pub record Display (fl : Floats) (S : Type 0) : Type 0 where
  pub shown : S → Progress fl
  pub show : Progress fl → S → S

module _ (fl : Floats) {S : Type 0} (d : Display fl S) where
  -- `print(line)`, `print(line, file=self._stdout)` and `print(line, file=self._stderr)`
  unfoldable pub say : Text → Exec S Unit
  say line s =
      let p = d.shown s in (ok tt, d.show (record p { printed = p.printed ++ line ∷ [] }) s)

  unfoldable pub say_stdout : Text → Exec S Unit
  say_stdout line s =
      let p = d.shown s in (ok tt, d.show (record p { stdout = p.stdout ++ line ∷ [] }) s)

  unfoldable pub say_stderr : Text → Exec S Unit
  say_stderr line s =
      let p = d.shown s in (ok tt, d.show (record p { stderr = p.stderr ++ line ∷ [] }) s)

  -- `self.notify_callback(percent)`
  unfoldable pub notify : fl.F → Exec S Unit
  notify percent s =
      on_result (notify_callback fl percent (d.shown s)) (λ p. (ok tt, d.show p s))
        (λ e. (err e, s))

module _ (fl : Floats) {S : Type 0} (d : Display fl S) where
  -- `self.notify_callback(percent)` of a percentage that is computed from the state and may raise
  unfoldable pub notify_share : (S → Result fl.F) → Exec S Unit
  notify_share share_of s = (lift (share_of s) >>= notify fl d) s

-- `str(n)`, with as much fuel as there can be digits
unfoldable pub decimal : ℕ → ℕ → Text
decimal zero n = []
decimal (suc fuel) n =
    elim (ltb n 10) [ true ↦ [] | false ↦ decimal fuel (n / 10) ] ++ (48 + n % 10) ∷ []

unfoldable pub int_text : ℤ → Text
int_text (pos n) = decimal (suc n) n
int_text (negsuc n) = 45 ∷ decimal (suc (suc n)) (suc n)

-- "Fetching {n} packages [{size}]"
unfoldable pub fetching_text : ℤ → String → Text
fetching_text n size = codes "Fetching " ++ int_text n ++ codes (" packages [" <> (size <> "]"))

-- A `bytes | str` message: `msg.decode("ascii", errors="ignore")` of the former.
pub data RawMessage : Type 0 where
  bytes_message : List ℕ → RawMessage
  str_message : Text → RawMessage

unfoldable pub decoded : RawMessage → Text
decoded (bytes_message b) = filter (λ c. ltb c 128) b
decoded (str_message t) = t

-- `print(line)` of a message that is not empty once decoded
abbrev pub print_message : {S : Type 0} → (Text → Exec S Unit) → RawMessage → Exec S Unit
print_message out msg = if is_nil (decoded msg) then pure tt else out (decoded msg)

-- `not msg`, before it is decoded
abbrev pub is_empty : RawMessage → Bool
is_empty (bytes_message b) = is_nil b
is_empty (str_message t) = is_nil t
