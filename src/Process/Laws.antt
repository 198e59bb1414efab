-- ===== src/Process/Laws.antt =====
-- Combining results, and what passes the sanitising of process output.
use mathlib.Core.List.{append_assoc}
use qubes_core_admin_linux.Prelude.{
  not, ◌&&◌, nat_eq, ◌||◌, ltb, ℕ, ◌≤◌, ◌≡◌, refl, ◌↔◌, Bool, true, false, List, [], ◌∷◌, In,
  In-filter_from, In-filter_to, ◌⊎◌, filter, arith,
}
use qubes_core_admin_linux.Process.{is_printable, ProcessResult, failed, sanitize_output, ◌+=◌}

-- A sum of results has failed exactly if one of them has, and its code is that of one of them.
pub +=-failed :
    (a b : ProcessResult)
    → ((failed (a += b) ≡ true) ↔ ((failed a ≡ true) ⊎ (failed b ≡ true)))
      × (((a += b).code ≡ a.code) ⊎ ((a += b).code ≡ b.code))
unfolding ◌+=◌
+=-failed a b = ground arith

+=-assoc : (a b c : ProcessResult) → (a += b) += c ≡ a += (b += c)
unfolding ◌+=◌
+=-assoc a b c = ground (arith, append_assoc a.out b.out c.out, append_assoc a.err b.err c.err)

-- What is kept of untrusted output is printable ASCII, or a line feed where a single line was not
-- asked for; and every byte of that kind is kept.
pub sanitize_output_exact :
    (untrusted : List ℕ) (single : Bool) (c : ℕ)
    → In c (sanitize_output untrusted single)
      ↔ (In c untrusted × (((0x20 ≤ c) × (c ≤ 0x7E)) ⊎ ((c ≡ 10) × (single ≡ false))))
unfolding sanitize_output
sanitize_output_exact untrusted single c = (
  λ i. ground (
    arith,
    In-filter_from _ c (filter (λ d. ltb d 128) untrusted) i,
    In-filter_from (λ d. ltb d 128) c untrusted,
  ),
  λ h.
      In-filter_to _ c (filter (λ d. ltb d 128) untrusted)
        (In-filter_to (λ d. ltb d 128) c untrusted h.0 (ground arith)) (ground arith),
)

filter_idem : (p : ℕ → Bool) (xs : List ℕ) → filter p (filter p xs) ≡ filter p xs
filter_idem p [] = refl
filter_idem p (x ∷ xs) = ground (arith, filter_idem p xs)

filter_comm : (p q : ℕ → Bool) (xs : List ℕ) → filter p (filter q xs) ≡ filter q (filter p xs)
filter_comm p q [] = refl
filter_comm p q (x ∷ xs) = ground (arith, filter_comm p q xs)

-- Sanitising a second time changes nothing.
pub sanitize_output_idem :
    (untrusted : List ℕ) (single : Bool)
    → sanitize_output (sanitize_output untrusted single) single ≡ sanitize_output untrusted single
unfolding sanitize_output
sanitize_output_idem untrusted single =
    let ascii = λ (c : ℕ). ltb c 128 in
    let kept = λ (c : ℕ). is_printable c || (nat_eq c 10 && not single) in
    rw (filter_comm ascii kept (filter ascii untrusted), filter_idem kept, filter_idem ascii)
