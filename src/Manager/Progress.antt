-- ===== src/Manager/Progress.antt =====
-- The progress bars: `add_bar`, `_update` and what `feeding` does with one message. A bar of
-- `output_class` is its description and its progress, as `SimpleTerminalBar` keeps them.
use qubes_core_admin_linux.Exec.{assertion_error, key_error, ok, err, ◌>>?◌, Result}
use qubes_core_admin_linux.Prelude.{
  suc, nat_eq, not, ◌&&◌, if◌then◌else◌, Bool, Option, ℕ, String, ◌<>◌, none, some, List, [], ◌∷◌,
  length, insert, lookup,
}
use qubes_core_admin_linux.Prelude.Int.{ℤ, pos, ◌+ℤ◌, ◌-ℤ◌}
use qubes_core_admin_linux.Status.{
  formated_line, done_info, updating, updating_info, pending_info, Message, pending, FinalStatus,
  final_value, status_value,
}
use qubes_core_admin_linux.Vm.{is_admin, Vm}

pub record Bar : Type 0 where
  pub desc : String
  -- `None` after `reset`
  pub progress : Option ℤ

pub record Bars : Type 0 where
  pub progresses : List (String × ℤ)
  pub progress_bars : List (String × Bar)
  pub statuses : List (String × FinalStatus)
  -- how many bars SimpleTerminalBar.PARENT_MULTI_BAR has
  pub terminal_bars : ℕ

abbrev pub no_bars : Bars
no_bars = record { progresses = []; progress_bars = []; statuses = []; terminal_bars = 0 }

-- `f"{qname} ({status})"`
abbrev pub describe : String → String → String
describe qname status = qname <> (" (" <> (status <> ")"))

-- `add_bar`, where the bars are not switched off. A `SimpleTerminalBar` asserts that its position, the
-- length of the dict, is that of the list of all bars made.
unfoldable pub add_bar : Bool → String → Bars → Result Bars
unfolding status_value
add_bar simple qname b =
    if simple && not (nat_eq (length b.progress_bars) b.terminal_bars)
    then err assertion_error
    else ok (record b {
      progresses = insert qname (pos 0) b.progresses;
      progress_bars =
          insert qname
            (record { desc = describe qname (status_value pending); progress = some (pos 0) })
            b.progress_bars;
      terminal_bars = if simple then suc b.terminal_bars else b.terminal_bars;
    })

-- `len(self.progresses)`
abbrev pub bar_count : Bars → ℕ
bar_count b = length b.progresses

-- `d[key]`
abbrev pub get_item : {V : Type 0} → String → List (String × V) → Result V
get_item key d = elim (lookup key d) [ none ↦ err (key_error key) | some v ↦ ok v ]

-- `progress_bars[qname].reset()`
unfoldable pub reset_bar : String → Bars → Result Bars
reset_bar qname b = get_item qname b.progress_bars >>? λ bar.
    ok (record b { progress_bars = insert qname (record bar { progress = none }) b.progress_bars })

-- The name under which a qube is shown.
abbrev pub display : Option String → Vm → String
display none qube = qube.name
display (some name) qube = name

-- The bars that the loop of `UpdateManager.run` adds, which are none where progress is not shown.
-- `simple` says whether they are of the class `SimpleTerminalBar`, as under `--just-print-progress`.
unfoldable pub start_bars : Option String → Bool → Bool → List Vm → Bars → Result Bars
unfolding add_bar reset_bar
start_bars name show simple [] b = ok b
start_bars name show simple (qube ∷ qubes) b =
    (if show then add_bar simple (display name qube) b else ok b) >>? λ added.
    (if is_admin qube.klass && show then reset_bar qube.name added else ok added)
    >>? start_bars name show simple qubes

-- `progress_bars[qname].set_description(...)`
unfoldable pub set_description : String → String → Bars → Result Bars
set_description qname status b = get_item qname b.progress_bars >>? λ bar. ok (record b {
  progress_bars = insert qname (record bar { desc = describe qname status }) b.progress_bars;
})

abbrev pub shown_progress : Bar → ℤ
shown_progress bar = elim bar.progress [ none ↦ pos 0 | some p ↦ p ]

-- `_update`
unfoldable pub update_progress : String → ℤ → Bars → Result Bars
update_progress qname value b = get_item qname b.progresses >>? λ current.
    get_item qname b.progress_bars >>? λ bar.
    let progress = value -ℤ current in
    ok (record b {
      progress_bars =
          insert qname (record bar { progress = some (shown_progress bar +ℤ progress) })
            b.progress_bars;
      progresses = insert qname (current +ℤ progress) b.progresses;
    })

-- What `feeding` does to the bars with one message.
unfoldable pub feed_bars : Message → Bars → Result Bars
unfolding set_description update_progress final_value status_value
feed_bars (pending_info qname) b = set_description qname (status_value pending) b
feed_bars (updating_info qname percent) b =
    set_description qname (status_value updating) b >>? update_progress qname percent
feed_bars (done_info qname status) b =
    set_description qname (final_value status)
      (record b { statuses = insert qname status b.statuses })
feed_bars (formated_line _ _ _) b = ok b
