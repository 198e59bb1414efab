-- ===== src/Tests/Progress.antt =====
-- Callbacks of the libraries, run with numbers in place of floats.
use qubes_core_admin_linux.Exec.{ok}
use qubes_core_admin_linux.Prelude.{
  nat_eq, ltb, ◌*◌, ◌/◌, ℕ, suc, ◌+◌, ◌-◌, ◌≡◌, refl, false, String, List, [], ◌∷◌,
}
use qubes_core_admin_linux.Prelude.Int.{◌+ℤ◌, ℤ, pos, pos_part}
use qubes_core_admin_linux.Progress.{init_progress, Floats}
use qubes_core_admin_linux.Progress.Ascending.{Ascending}
use qubes_core_admin_linux.Progress.Calls.{stay, next}
use qubes_core_admin_linux.Progress.Calls.Dnf.{step_progress, step_start, dnf_fetch_ascends}
use qubes_core_admin_linux.Progress.Calls.Dnf5.{step_dnf5_progress, step_new, dnf5_fetch_ascends}
use qubes_core_admin_linux.Progress.Dnf.{dnf_progress, dnf_start, DnfFetch, dnf_fetch_init}
use qubes_core_admin_linux.Progress.Dnf.Balance.{dnf_fetch_counted, total_bytes, after}
use qubes_core_admin_linux.Progress.Dnf5.{
  dnf5_fetch_init, add_new_download, dnf5_progress, Dnf5Fetch, DownloadCallbacks,
}

abbrev floats : Floats
floats = record {
  F = ℕ;
  of_int = pos_part;
  ratio = λ a b. ok (pos_part a / suc (pos_part b));
  add = λ a b. a + b;
  sub = λ a b. a - b;
  mul = λ a b. a * b;
  div = λ a b. ok (a / suc b);
  round2 = λ a. a;
  lt = ltb;
  eq = nat_eq;
  text2 = λ a. "0.00";
}

abbrev fetch : DnfFetch floats
fetch = dnf_fetch_init floats false (init_progress floats 10 90)

abbrev calls : List (String × ℤ)
calls = ("bash", pos 10) ∷ ("vim", pos 7) ∷ ("bash", pos 4) ∷ []

fetch_lem : fetch.is_refresh ≡ false
unfolding dnf_fetch_init
fetch_lem = refl

dnf_fetch_counted_example :
    let t = after floats calls (dnf_start floats (pos 2) (pos 17) fetch).1 in
    ((dnf_start floats (pos 2) (pos 17) fetch).0 ≡ ok tt)
    × (t.bytes_fetched ≡ fetch.bytes_fetched +ℤ total_bytes t.package_bytes)
dnf_fetch_counted_example =
    dnf_fetch_counted floats (λ x n. (x / suc (suc n), refl)) (pos 2) (pos 17) fetch calls fetch_lem

abbrev started : DnfFetch floats
started = (dnf_start floats (pos 2) (pos 17) fetch).1

dnf_fetch_ascends_example :
    Ascending floats (dnf_progress floats "bash" (pos 10) started).1.progress
dnf_fetch_ascends_example =
    dnf_fetch_ascends floats false 10 90 (dnf_progress floats "bash" (pos 10) started).1
      (next (next stay (step_start (pos 2) (pos 17))) (step_progress "bash" (pos 10)))

abbrev callbacks : DownloadCallbacks floats
callbacks = record {
  default_progress = λ id total downloaded. pos 0;
  default_end = λ id status msg. pos 0;
  default_mirror_failure = λ id msg url metadata. pos 0;
}

abbrev dnf5_new : Dnf5Fetch floats
dnf5_new =
    (add_new_download floats "bash" 17 (dnf5_fetch_init floats (init_progress floats 10 90))).1

dnf5_fetch_ascends_example :
    Ascending floats (dnf5_progress floats callbacks 1 17 5 dnf5_new).1.progress
dnf5_fetch_ascends_example =
    dnf5_fetch_ascends floats callbacks 10 90 (dnf5_progress floats callbacks 1 17 5 dnf5_new).1
      (next (next stay (step_new "bash" 17)) (step_dnf5_progress 1 17 5))
