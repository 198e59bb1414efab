-- ===== src/Manager/Feeding.antt =====
-- The loop of `feeding`: when it ends, and what it leaves in the statuses.
use qubes_core_admin_linux.Exec.{Result-cases, ok}
use qubes_core_admin_linux.Manager.{
  collect_result, print_line, collected, Pool, fed, Event, drive, feed,
}
use qubes_core_admin_linux.Manager.Progress.{
  describe, get_item, shown_progress, update_progress, set_description, feed_bars, Bars,
}
use qubes_core_admin_linux.Prelude.{
  nat_eq, Bool-cases, lookup-nil, Option-cases, has_key-insert, inl, inr, has_key, ℕ, ◌≡◌, ◌≢◌,
  refl, ◌-◌, ◌+◌, String, true, none, some, List, [], ◌∷◌, lookup, insert, lookup-insert,
  if◌then◌else◌, eq_iff, arith,
}
use qubes_core_admin_linux.Prelude.Int.{◌-ℤ◌, ◌+ℤ◌, ℤ}
use qubes_core_admin_linux.Status.{
  line_text, final_value, updating, pending, status_value, formated_line, updating_info, done_info,
  FinalStatus, pending_info, Message,
}

-- Once all bars are finished, `feeding` has returned: further messages change nothing.
drive_after :
    (events : List Event) (p p' : Pool) → p.left ≡ 0 → drive events p ≡ ok p' → p'.bars ≡ p.bars
unfolding drive
drive_after [] p p' z e = ground arith
drive_after (collected q r ∷ events) p p' z e = drive_after events _ p' z e
drive_after (fed msg ∷ events) p p' z e = drive_after events p p' z (ground arith)

feed_done :
    (q : String) (st : FinalStatus) (p p' : Pool)
    → feed (done_info q st) p ≡ ok p'
    → (p'.left ≡ p.left - 1) × (p'.bars.statuses ≡ insert q st p.bars.statuses)
unfolding feed feed_bars set_description
feed_done q st p p' e = ground arith

-- Two `DONE` messages of one qube end the loop for two bars: no status of another qube is
-- recorded then, whatever comes after.
pub drive_done_twice :
    (a b : String) (s t : FinalStatus) (events : List Event) (p p' : Pool)
    → a ≢ b
    → p.left ≡ 2
    → p.bars.statuses ≡ []
    → drive (fed (done_info a s) ∷ fed (done_info a t) ∷ events) p ≡ ok p'
    → lookup b p'.bars.statuses ≡ none
unfolding drive
drive_done_twice a b s t events p p' ne two empty e = elim (Result-cases (feed (done_info a s) p)) [
  | inr (x, went) ↦ ground arith
  | inl (q, went) ↦
      let first = feed_done a s p q went in
      elim (Result-cases (feed (done_info a t) q)) [
        | inr (x, went_on) ↦ ground arith
        | inl (r, went_on) ↦
            let second = feed_done a t q r went_on in
            ground (
              arith,
              drive_after events r p' (ground arith) (ground arith),
              lookup-insert a b t q.bars.statuses,
              lookup-insert a b s p.bars.statuses,
              lookup-nil {V = FinalStatus} b,
              eq_iff a b,
            )
      ]
]

-- Whether a message names a bar.
abbrev pub Names : Message → Bars → Type 0
Names (pending_info q) b = has_key q b.progress_bars ≡ true
Names (updating_info q v) b = (has_key q b.progress_bars ≡ true) × (has_key q b.progresses ≡ true)
Names (done_info q st) b = has_key q b.progress_bars ≡ true
Names (formated_line q s t) b = Unit

-- The bars of `b` are among those of `c`.
abbrev Grows : Bars → Bars → Type 0
Grows b c =
    ((q : String) → has_key q b.progress_bars ≡ true → has_key q c.progress_bars ≡ true)
    × ((q : String) → has_key q b.progresses ≡ true → has_key q c.progresses ≡ true)

Names-Grows : (msg : Message) (b c : Bars) → Grows b c → Names msg b → Names msg c
Names-Grows (pending_info q) b c g n = g.0 q n
Names-Grows (updating_info q v) b c g n = (g.0 q n.0, g.1 q n.1)
Names-Grows (done_info q st) b c g n = g.0 q n
Names-Grows (formated_line q s t) b c g n = tt

get_item-cases :
    {V : Type 0} (q : String) (d : List (String × V))
    → has_key q d ≡ true
    → (v : V) × (get_item q d ≡ ok v)
get_item-cases q d h = elim (Option-cases (lookup q d)) [
  | inl e ↦ ground arith
  | inr (v, e) ↦ (v, ground arith)
]

set_description_ok :
    (q st : String) (b : Bars)
    → has_key q b.progress_bars ≡ true
    → (c : Bars) × (set_description q st b ≡ ok c) × Grows b c × (c.statuses ≡ b.statuses)
unfolding set_description
set_description_ok q st b h =
    let (bar, e) = get_item-cases q b.progress_bars h in
    (
      record b { progress_bars = insert q (record bar { desc = describe q st }) b.progress_bars },
      ground arith,
      (λ j k. has_key-insert q j _ b.progress_bars k, λ j k. k),
      refl,
    )

update_progress_ok :
    (q : String) (v : ℤ) (b : Bars)
    → has_key q b.progress_bars ≡ true
    → has_key q b.progresses ≡ true
    → (c : Bars) × (update_progress q v b ≡ ok c) × Grows b c
unfolding update_progress
update_progress_ok q v b h k =
    let (current, e) = get_item-cases q b.progresses k in
    let (bar, e') = get_item-cases q b.progress_bars h in
    (
      record b {
        progress_bars =
            insert q (record bar { progress = some (shown_progress bar +ℤ (v -ℤ current)) })
              b.progress_bars;
        progresses = insert q (current +ℤ (v -ℤ current)) b.progresses;
      },
      ground arith,
      (λ j i. has_key-insert q j _ b.progress_bars i, λ j i. has_key-insert q j _ b.progresses i),
    )

feed_bars_ok :
    (msg : Message) (b : Bars) → Names msg b → (c : Bars) × (feed_bars msg b ≡ ok c) × Grows b c
unfolding feed_bars
feed_bars_ok (pending_info q) b n =
    let (c, e, g, _) = set_description_ok q (status_value pending) b n in (c, e, g)
feed_bars_ok (updating_info q v) b n =
    let (c, e, g, _) = set_description_ok q (status_value updating) b n.0 in
    let (d, e', g') = update_progress_ok q v c (g.0 q n.0) (g.1 q n.1) in
    (d, ground arith, (λ j i. g'.0 j (g.0 j i), λ j i. g'.1 j (g.1 j i)))
feed_bars_ok (done_info q st) b n =
    let b' = record b { statuses = insert q st b.statuses } in
    let (c, e, g, _) = set_description_ok q (final_value st) b' n in (c, e, g)
feed_bars_ok (formated_line q s t) b n = (b, refl, (λ j i. i, λ j i. i))

abbrev pub is_done : Message → ℕ
is_done (done_info _ _) = 1
is_done _ = 0

-- The number of `DONE` messages among the events.
abbrev pub dones : List Event → ℕ
dones [] = 0
dones (fed msg ∷ events) = is_done msg + dones events
dones (collected _ _ ∷ events) = dones events

-- Every message among the events names a bar.
abbrev pub AllName : Bars → List Event → Type 0
AllName b [] = Unit
AllName b (fed msg ∷ events) = Names msg b × AllName b events
AllName b (collected _ _ ∷ events) = AllName b events

AllName-Grows : (b c : Bars) (events : List Event) → Grows b c → AllName b events → AllName c events
AllName-Grows b c [] g n = tt
AllName-Grows b c (fed msg ∷ events) g n =
    (Names-Grows msg b c g n.0, AllName-Grows b c events g n.1)
AllName-Grows b c (collected q r ∷ events) g n = AllName-Grows b c events g n

-- A message that names a bar is taken, and the bars keep their names.
feed_ok :
    (msg : Message) (p : Pool)
    → Names msg p.bars
    → (p' : Pool) × (feed msg p ≡ ok p') × (p'.left ≡ p.left - is_done msg) × Grows p.bars p'.bars
unfolding feed
feed_ok (pending_info q) p n =
    let (b, e, g) = feed_bars_ok (pending_info q) p.bars n in
    (record p { bars = b }, ground arith, omega arith, g)
feed_ok (updating_info q v) p n =
    let (b, e, g) = feed_bars_ok (updating_info q v) p.bars n in
    (record p { bars = b }, ground arith, omega arith, g)
feed_ok (done_info q st) p n =
    let (b, e, g) = feed_bars_ok (done_info q st) p.bars n in
    (record p { bars = b; left = p.left - 1 }, ground arith, omega arith, g)
feed_ok (formated_line q s t) p n =
    let p' =
      if p.manager.show_output
      then record p { manager = print_line (line_text q s t) p.manager }
      else p in
    (p', unfold feed_bars in refl, ground arith, (λ j i. ground arith, λ j i. ground arith))

-- Where every message names a bar, the loop raises nothing, and each `DONE` message, also a second
-- one of the same qube, lowers by one the number of those that it waits for, until there is none left.
pub drive_left :
    (events : List Event) (p : Pool)
    → AllName p.bars events
    → (p' : Pool) × (drive events p ≡ ok p') × (p'.left ≡ p.left - dones events)
unfolding drive
drive_left [] p n = (p, refl, omega arith)
drive_left (collected q r ∷ events) p n =
    drive_left events (record p { manager = collect_result q r p.manager }) n
drive_left (fed msg ∷ events) p n = elim (Bool-cases (nat_eq p.left 0)) [
  | inl z ↦ let (p', e, l) = drive_left events p n.1 in (p', ground arith, ground arith)
  | inr nz ↦
      let (q, e, l, g) = feed_ok msg p n.0 in
      let (p', e', l') = drive_left events q (AllName-Grows p.bars q.bars events g n.1) in
      (p', ground arith, omega arith)
]
