-- ===== src/Tests/Api.antt =====
-- The upgrades by the libraries, run on systems whose state is the packages that they installed.
use qubes_core_admin_linux.Exec.{ok}
use qubes_core_admin_linux.Package.{vm_agent}
use qubes_core_admin_linux.Package.Api.Dnf.{DnfLibrary, dnf_api_upgrade}
use qubes_core_admin_linux.Package.Api.Dnf.Safe.{dnf_api_upgrade_signed}
use qubes_core_admin_linux.Package.Api.Dnf5.{Dnf5Library, dnf5_upgrade}
use qubes_core_admin_linux.Package.Api.Dnf5.Safe.{dnf5_upgrade_signed}
use qubes_core_admin_linux.Prelude.{
  All, all, nat_eq, ◌==◌, ◌≡◌, refl, Bool, true, String, some, List, [], ◌∷◌, if◌then◌else◌, arith,
}
use qubes_core_admin_linux.Package.Api.Dnf.Safe as DnfSafe
use qubes_core_admin_linux.Package.Api.Dnf5.Safe as Dnf5Safe

-- The only package with a good signature
abbrev is_good : String → Bool
is_good pkg = pkg == "bash"

abbrev GoodPackage : String → List String → Type 0
GoodPackage pkg s = is_good pkg ≡ true

abbrev AllGood : List String → Type 0
AllGood s = All (λ pkg. GoodPackage pkg s) s

abbrev dnf : DnfLibrary (List String)
dnf = record {
  make_base = λ t s. (ok tt, s);
  skip_unavailable = λ s. s;
  set_obsolete = λ b s. s;
  enabled_repos = λ s. (ok [], s);
  load = λ repo s. (ok tt, s);
  update_cache = λ s. (ok true, s);
  fill_sack = λ s. (ok tt, s);
  upgrade_all = λ s. (ok tt, s);
  resolve = λ b s. (ok (some ("bash" ∷ "evil" ∷ [])), s);
  download_packages = λ pkgs s. (ok tt, s);
  signature_check = λ pkg s. (ok (if is_good pkg then 0 else 1, []), s);
  import_key = λ pkg s. (ok tt, s);
  do_transaction = λ pkgs s. (ok tt, pkgs);
  post_install = λ s. (ok tt, s);
  close = λ s. (ok tt, s);
  str = λ e. [];
}

good_code : (b : Bool) → nat_eq (if b then 0 else 1) 0 ≡ true → b ≡ true
good_code b e = ground arith

dnf_trusted : DnfSafe.Trusted dnf GoodPackage AllGood vm_agent
dnf_trusted = record {
  checks = λ pkg s e. good_code (is_good pkg) e;
  stays = λ pkg. (λ p s g. g, λ p s g. g);
  kept = (λ p s q. q, λ p s q. q);
  set_obsolete = λ b s q. q;
  fill_sack = λ s q. q;
  upgrade_all = λ s q. q;
  resolve = λ b s q. q;
  download_packages = λ pkgs s q. q;
  do_transaction = λ pkgs s e a q. a;
  post_install = λ s q. q;
  close = λ s q. q;
}

dnf_api_upgrade_signed_example : AllGood (dnf_api_upgrade dnf vm_agent true []).1
dnf_api_upgrade_signed_example =
    dnf_api_upgrade_signed dnf GoodPackage AllGood vm_agent dnf_trusted true [] tt

abbrev dnf5 : Dnf5Library (List String) (List String)
dnf5 = record {
  make_base = λ t s. (ok tt, s);
  skip_unavailable = λ b s. s;
  set_obsoletes = λ b s. s;
  create_repos = λ s. (ok tt, s);
  load_repos = λ s. (ok tt, s);
  resolve = λ b s. (ok ("bash" ∷ []), s);
  packages_count = λ x. 1;
  resolve_logs = λ x. [];
  download = λ x s. (ok tt, s);
  check_gpg_signatures = λ x s. (ok (all is_good x), s);
  run_transaction = λ x s. (ok 0, x);
  post_install = λ s. (ok tt, s);
  str = λ e. [];
}

abbrev VerifiedList : List String → List String → Type 0
VerifiedList x s = all is_good x ≡ true

abbrev OnlyGood : List String → Type 0
OnlyGood s = all is_good s ≡ true

dnf5_trusted : Dnf5Safe.Trusted dnf5 VerifiedList OnlyGood vm_agent
dnf5_trusted = record {
  set_obsoletes = λ b s q. q;
  create_repos = λ s q. q;
  load_repos = λ s q. q;
  resolve = λ b s q. q;
  download = λ x s q. q;
  check_kept = λ x s q. q;
  check_good = λ x s e. e;
  run_transaction = λ x s e v q. v;
  post_install = λ s q. q;
}

dnf5_upgrade_signed_example : OnlyGood (dnf5_upgrade dnf5 vm_agent true []).1
dnf5_upgrade_signed_example =
    dnf5_upgrade_signed dnf5 VerifiedList OnlyGood vm_agent dnf5_trusted true [] refl
