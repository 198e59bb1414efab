-- ===== src/Manager/Shown.antt =====
-- What the bars of Manager/Progress show, beside the dict `progresses`.
use qubes_core_admin_linux.Exec.{Result, Result-cases, ok}
use qubes_core_admin_linux.Manager.{formated_line, done_info}
use qubes_core_admin_linux.Manager.Progress.{
  display, no_bars, add_bar, reset_bar, start_bars, describe, shown_progress, Bars, update_progress,
  set_description, feed_bars,
}
use qubes_core_admin_linux.Prelude.{
  if_ind, subst, eq_iff, none, insert, Option-cases, lookup-insert, lookup, ◌==◌, ◌≡◌, refl, sym,
  ap, ◌∙◌, inl, inr, String, Option, some, List, [], ◌∷◌, if◌then◌else◌, arith, ◌⊎◌, Bool, ◌&&◌,
}
use qubes_core_admin_linux.Prelude.Int.{pos, ℤ, +ℤ-sub_cancel, ◌+ℤ◌, ◌-ℤ◌}
use qubes_core_admin_linux.Status.{
  final_value, pending, updating, status_value, updating_info, pending_info, Message,
}
use qubes_core_admin_linux.Vm.{is_admin, Vm}

-- The value of one key changed
abbrev pub put_at : {V : Type 0} → String → V → (String → Option V) → String → Option V
put_at k v f j = if k == j then some v else f j

-- The percentage that a qube's bar shows, which is 0 after a reset
abbrev pub displayed : String → Bars → Option ℤ
displayed q b = elim (lookup q b.progress_bars) [
  | none ↦ none
  | some bar ↦ some (shown_progress bar)
]

-- Every bar shows what `progresses` has for its qube.
abbrev pub InStep : Bars → Type 0
InStep b = (q : String) → displayed q b ≡ lookup q b.progresses

update_shown :
    (n : String) (v : ℤ) (b c : Bars) (q : String)
    → update_progress n v b ≡ ok c
    → lookup q c.progresses ≡ put_at n v (λ k. lookup k b.progresses) q
unfolding update_progress
update_shown n v b c q e = elim (Option-cases (lookup n b.progresses)) [
  | inl f ↦ ground arith
  | inr (m, f) ↦ elim (Option-cases (lookup n b.progress_bars)) [
    | inl g ↦ ground arith
    | inr (bar, g) ↦
        ground (arith, lookup-insert n q (m +ℤ (v -ℤ m)) b.progresses, +ℤ-sub_cancel m v)
  ]
]

description_shown :
    (n s : String) (b c : Bars) → set_description n s b ≡ ok c → b.progresses ≡ c.progresses
unfolding set_description
description_shown n s b c e = ground arith

-- The percentages after a message
abbrev pub stated : Message → (String → Option ℤ) → String → Option ℤ
stated (updating_info n v) f = put_at n v f
stated (pending_info _) f = f
stated (done_info _ _) f = f
stated (formated_line _ _ _) f = f

stated_same :
    (msg : Message) (f g : String → Option ℤ) (q : String)
    → f q ≡ g q
    → stated msg f q ≡ stated msg g q
stated_same (pending_info n) f g q e = e
stated_same (updating_info n v) f g q e = ap (λ r. if n == q then some v else r) e
stated_same (done_info n st) f g q e = e
stated_same (formated_line n st t) f g q e = e

progresses_stated :
    (msg : Message) (b c : Bars) (q : String)
    → feed_bars msg b ≡ ok c
    → lookup q c.progresses ≡ stated msg (λ k. lookup k b.progresses) q
unfolding feed_bars
progresses_stated (pending_info n) b c q e =
    ap (lookup q) (sym (description_shown n (status_value pending) b c e))
progresses_stated (updating_info n v) b c q e =
    elim (Result-cases (set_description n (status_value updating) b)) [
      | inr (x, f) ↦ ground arith
      | inl (b', f) ↦
          update_shown n v b' c q (rw f at e)
          ∙ ap (λ d. put_at n v (λ k. lookup k d) q)
              (sym (description_shown n (status_value updating) b b' f))
    ]
progresses_stated (done_info n st) b c q e = ap (lookup q) (
    sym (description_shown n (final_value st) (record b { statuses = insert n st b.statuses }) c e))
progresses_stated (formated_line n st t) b c q e = ground arith

description_displayed :
    (n s : String) (b c : Bars) (q : String)
    → set_description n s b ≡ ok c
    → displayed q c ≡ displayed q b
unfolding set_description
description_displayed n s b c q e = elim (Option-cases (lookup n b.progress_bars)) [
  | inl g ↦ ground arith
  | inr (bar, g) ↦
      ground
        (arith, lookup-insert n q (record bar { desc = describe n s }) b.progress_bars, eq_iff n q)
]

description_InStep :
    (n s : String) (b c : Bars) → InStep b → set_description n s b ≡ ok c → InStep c
description_InStep n s b c k e q =
    description_displayed n s b c q e ∙ (k q ∙ ap (lookup q) (description_shown n s b c e))

update_displayed :
    (n : String) (v : ℤ) (b c : Bars) (q : String)
    → InStep b
    → update_progress n v b ≡ ok c
    → displayed q c ≡ put_at n v (λ k. displayed k b) q
unfolding update_progress
update_displayed n v b c q k e = elim (Option-cases (lookup n b.progresses)) [
  | inl f ↦ ground arith
  | inr (m, f) ↦ elim (Option-cases (lookup n b.progress_bars)) [
    | inl g ↦ ground arith
    | inr (bar, g) ↦ ground (
      arith,
      k n,
      lookup-insert n q (record bar { progress = some (shown_progress bar +ℤ (v -ℤ m)) })
          b.progress_bars,
      +ℤ-sub_cancel m v,
    )
  ]
]

pub displayed-stated :
    (msg : Message) (b c : Bars) (q : String)
    → InStep b
    → feed_bars msg b ≡ ok c
    → displayed q c ≡ stated msg (λ k. displayed k b) q
unfolding feed_bars
displayed-stated (pending_info n) b c q k e = description_displayed n (status_value pending) b c q e
displayed-stated (updating_info n v) b c q k e =
    elim (Result-cases (set_description n (status_value updating) b)) [
      | inr (x, f) ↦ ground arith
      | inl (b', f) ↦
          update_displayed n v b' c q (description_InStep n (status_value updating) b b' k f)
            (rw f at e)
          ∙ stated_same (updating_info n v) (λ j. displayed j b') (λ j. displayed j b) q
              (description_displayed n (status_value updating) b b' q f)
    ]
displayed-stated (done_info n st) b c q k e =
    description_displayed n (final_value st) (record b { statuses = insert n st b.statuses }) c q e
displayed-stated (formated_line n st t) b c q k e = ground arith

pub feed_bars-InStep : (msg : Message) (b c : Bars) → InStep b → feed_bars msg b ≡ ok c → InStep c
feed_bars-InStep msg b c k e q =
    displayed-stated msg b c q k e
    ∙ (stated_same msg (λ j. displayed j b) (λ j. lookup j b.progresses) q (k q)
        ∙ sym (progresses_stated msg b c q e))

-- A bar that has been added shows 0.
abbrev Fresh : Bars → Type 0
Fresh b =
    (q : String)
    → (displayed q b ≡ lookup q b.progresses)
      × ((displayed q b ≡ none) ⊎ (displayed q b ≡ some (pos 0)))

ok_inj : {b c : Bars} → ok b ≡ ok c → b ≡ c
ok_inj e = ground arith

add_bar-Fresh :
    (simple : Bool) (n : String) (b c : Bars) → Fresh b → add_bar simple n b ≡ ok c → Fresh c
unfolding add_bar
add_bar-Fresh simple n b c k e q = ground (
  arith,
  k q,
  eq_iff n q,
  lookup-insert n q (pos 0) b.progresses,
  lookup-insert n q (record { desc = describe n (status_value pending); progress = some (pos 0) })
      b.progress_bars,
)

reset_bar-Fresh : (n : String) (b c : Bars) → Fresh b → reset_bar n b ≡ ok c → Fresh c
unfolding reset_bar
reset_bar-Fresh n b c k e q = elim (Option-cases (lookup n b.progress_bars)) [
  | inl g ↦ ground arith
  | inr (bar, g) ↦ ground (
    arith,
    k q,
    k n,
    eq_iff n q,
    lookup-insert n q (record bar { progress = none }) b.progress_bars,
  )
]

start_bars-Fresh :
    (name : Option String) (show simple : Bool) (qubes : List Vm) (b c : Bars)
    → Fresh b
    → start_bars name show simple qubes b ≡ ok c
    → Fresh c
unfolding start_bars
start_bars-Fresh name show simple [] b c k e = subst Fresh (ok_inj e) k
start_bars-Fresh name show simple (v ∷ vs) b c k e =
    let adding = if show then add_bar simple (display name v) b else ok b in
    elim (Result-cases adding) [
      | inr (x, f) ↦ ground arith
      | inl (b', f) ↦
          let k' =
            if_ind (λ (r : Result Bars). r ≡ ok b' → Fresh b') show
              (λ a. add_bar-Fresh simple (display name v) b b' k a) (λ a. subst Fresh (ok_inj a) k)
              f in
          let resetting = if is_admin v.klass && show then reset_bar v.name b' else ok b' in
          elim (Result-cases resetting) [
            | inr (x, g) ↦ ground arith
            | inl (b'', g) ↦
                start_bars-Fresh name show simple vs b'' c
                  (if_ind (λ (r : Result Bars). r ≡ ok b'' → Fresh b'') (is_admin v.klass && show)
                    (λ a. reset_bar-Fresh v.name b' b'' k' a) (λ a. subst Fresh (ok_inj a) k') g)
                  (ground arith)
          ]
    ]

-- The bars with which a run starts show what `progresses` has.
pub start_bars-InStep :
    (name : Option String) (show simple : Bool) (qubes : List Vm) (b : Bars)
    → start_bars name show simple qubes no_bars ≡ ok b
    → InStep b
start_bars-InStep name show simple qubes b e q =
    (start_bars-Fresh name show simple qubes no_bars b
      (λ j. (unfold lookup in refl, inl (unfold lookup in refl))) e q).0
