-- ===== src/Package/Api/Dnf/Signed.antt =====
-- Signatures in the upgrade by dnf: what is committed was checked.
use qubes_core_admin_linux.Exec.{ok, ◌>>=◌, pure}
use qubes_core_admin_linux.Exec.Ends.{Ends-on_result, Ends, Ends-mono, Ends-bind, Ends-and, Ends-if}
use qubes_core_admin_linux.Package.Api.Dnf.{
  verdict, check_package, retry_check, sign_check, DnfLibrary,
}
use qubes_core_admin_linux.Prelude.{
  All, Text, nat_eq, ℕ, ◌≡◌, true, false, String, List, [], ◌∷◌, if◌then◌else◌, arith,
}
use qubes_core_admin_linux.Process.{◌+=◌, process_result, failed, ProcessResult}

module _ {S : Type 0} (dnf : DnfLibrary S) (Good : String → S → Type 0) where
  -- Neither a check of a signature nor the import of a key ends the property.
  abbrev pub Kept : (S → Type 0) → Type 0
  Kept I =
      ((pkg : String) (s : S) → I s → I (dnf.signature_check pkg s).1)
      × ((pkg : String) (s : S) → I s → I (dnf.import_key pkg s).1)

  -- A check that gives 0 finds the package good.
  abbrev pub ChecksGood : Type 0
  ChecksGood =
      (pkg : String) (s : S)
      → Ends (λ q s'. nat_eq q.0 0 ≡ true → Good pkg s') (λ _. Unit {0}) (dnf.signature_check pkg s)

  pub +=-not_failed :
      (a b : ProcessResult) → failed (a += b) ≡ false → (failed a ≡ false) × (failed b ≡ false)
  unfolding ◌+=◌
  +=-not_failed a b f = ground arith

  module _ (checks : ChecksGood) (stays : (pkg : String) → Kept (Good pkg)) where
    abbrev Passed : (S → Type 0) → String → ProcessResult → S → Type 0
    Passed I pkg r s = I s × (failed r ≡ false → Good pkg s)

    first_check :
        (I : S → Type 0) (pkg : String) (s : S)
        → Kept I
        → I s
        → Ends (λ q s'. I s' × (nat_eq q.0 0 ≡ true → Good pkg s')) I (dnf.signature_check pkg s)
    first_check I pkg s kept i =
        Ends-and (λ q s'. nat_eq q.0 0 ≡ true → Good pkg s') I (λ _. Unit {0})
          (dnf.signature_check pkg s) (checks pkg s) (kept.0 pkg s i)

    verdict-Passed :
        (I : S → Type 0) (pkg : String) (q : ℕ × Text) (s : S)
        → I s × (nat_eq q.0 0 ≡ true → Good pkg s)
        → Passed I pkg (verdict dnf q) s
    verdict-Passed I pkg (code, message) s (i, good) = (i, λ f. good (ground arith))

    retry_check-Passed :
        (I : S → Type 0) (code : ℕ) (pkg : String) (s : S)
        → Kept I
        → nat_eq code 0 ≡ false
        → I s
        → Ends (Passed I pkg) I (retry_check dnf code pkg s)
    unfolding retry_check
    retry_check-Passed I code pkg s kept e i =
        let imported = (dnf.import_key pkg s).1 in
        Ends-on_result (Passed I pkg) I (dnf.import_key pkg s).0
          (λ u. (dnf.signature_check pkg >>= λ q. pure (verdict dnf q)) imported)
          (λ x. (ok (process_result code [] (dnf.str x)), imported))
          (λ u.
            Ends-bind (λ q s'. I s' × (nat_eq q.0 0 ≡ true → Good pkg s')) (Passed I pkg) I
              (dnf.signature_check pkg) (λ q. pure (verdict dnf q)) imported
              (first_check I pkg imported kept (kept.1 pkg s i))
              (λ q s' p. verdict-Passed I pkg q s' p))
          (λ x. (kept.1 pkg s i, λ f. ground arith))

    check_package-Passed :
        (I : S → Type 0) (pkg : String) (s : S)
        → Kept I
        → I s
        → Ends (Passed I pkg) I (check_package dnf pkg s)
    unfolding check_package
    check_package-Passed I pkg s kept i =
        Ends-bind (λ q s'. I s' × (nat_eq q.0 0 ≡ true → Good pkg s')) (Passed I pkg) I
          (dnf.signature_check pkg)
          (λ q. if nat_eq q.0 0 then pure (verdict dnf q) else retry_check dnf q.0 pkg) s
          (first_check I pkg s kept i)
          (λ q s' p.
            Ends-if (Passed I pkg) I (nat_eq q.0 0) (pure (verdict dnf q)) (retry_check dnf q.0 pkg)
              s' (λ e. verdict-Passed I pkg q s' p)
              (λ e. retry_check-Passed I q.0 pkg s' kept e p.0))

    -- With every property `I` that the checks keep, all packages of a list are good at the end of a
    -- check of signatures that did not fail.
    pub sign_check-Good :
        (I Q : S → Type 0) (packages : List String) (result : ProcessResult) (s : S)
        → Kept I
        → Kept Q
        → Q s
        → (failed result ≡ false → I s)
        → Ends
            (λ r s'. Q s' × (failed r ≡ false → I s' × All (λ pkg. Good pkg s') packages))
            Q
            (sign_check dnf packages result s)
    unfolding sign_check
    sign_check-Good I Q [] result s kept keptQ q i = (q, λ f. (i f, tt))
    sign_check-Good I Q (pkg ∷ packages) result s kept keptQ q i =
        let J = λ (s : S). Q s × (failed result ≡ false → I s) in
        let keptJ : Kept J = (
          λ p s j. (keptQ.0 p s j.0, λ f. kept.0 p s (j.1 f)),
          λ p s j. (keptQ.1 p s j.0, λ f. kept.1 p s (j.1 f)),
        ) in
        let next = λ (s : S). I s × Good pkg s in
        let kept_next : Kept next = (
          λ p s j. (kept.0 p s j.0, (stays pkg).0 p s j.1),
          λ p s j. (kept.1 p s j.0, (stays pkg).1 p s j.1),
        ) in
        let Post = λ (r : ProcessResult) (s' : S).
          Q s' × (failed r ≡ false → I s' × All (λ p. Good p s') (pkg ∷ packages)) in
        Ends-bind (Passed J pkg) Post Q (check_package dnf pkg)
          (λ r. sign_check dnf packages (result += r)) s
          (Ends-mono (Passed J pkg) (Passed J pkg) J Q (check_package dnf pkg s)
            (check_package-Passed J pkg s keptJ (q, i)) (λ r s' p. p) (λ s' j. j.0))
          (λ r s' p.
            Ends-mono
              (λ t s''. Q s'' × (failed t ≡ false → next s'' × All (λ p'. Good p' s'') packages))
              Post Q Q (sign_check dnf packages (result += r) s')
              (sign_check-Good next Q packages (result += r) s' kept_next keptQ p.0.0
                (λ f. let (fa, fb) = +=-not_failed result r f in (p.0.1 fa, p.1 fb)))
              (λ t s'' d. (d.0, λ f. let x = d.1 f in (x.0.0, (x.0.1, x.1)))) (λ s'' d. d))
