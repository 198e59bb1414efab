-- ===== src/Connection/Progress.antt =====
-- What the two stream threads put on the queue.
use mathlib.Core.List.{append-nil}
use qubes_core_admin_linux.Connection.Streams.{
  full, last_word_from, last_word, Streams, line_progress, stderr_line, stream_lines, stream_line,
}
use qubes_core_admin_linux.Exec.{ok}
use qubes_core_admin_linux.Host.{err_line, out_line, Line}
use qubes_core_admin_linux.Prelude.{
  some, ◌++◌, filter, nat_eq, all, is_nil, Text, ℕ, ◌≡◌, refl, ◌∙◌, Bool, true, false, String,
  Option, none, List, [], ◌∷◌, arith,
}
use qubes_core_admin_linux.Prelude.Int.{ℤ}
use qubes_core_admin_linux.Process.{sanitize_output}
use qubes_core_admin_linux.Status.{formated_line, updating_info, Message}

-- The messages that state progress.
abbrev pub is_progress : Message → Bool
is_progress (updating_info _ _) = true
is_progress _ = false

filter-append {ℓ} :
    {A : Type ℓ} (p : A → Bool) (xs ys : List A) → filter p (xs ++ ys) ≡ filter p xs ++ filter p ys
filter-append p [] ys = refl
filter-append p (x ∷ xs) ys = ground (arith, filter-append p xs ys)

last_word_from_blank :
    (line : Text) → all (λ c. nat_eq c 32) line ≡ true → last_word_from line [] none ≡ none
unfolding last_word_from
last_word_from_blank [] h = refl
last_word_from_blank (c ∷ cs) h = ground (arith, last_word_from_blank cs)

module _ (float : Text → Option ℤ) (qname : String) where
  stream_line_finished :
      (l : Line) (s : Streams)
      → s.progress_finished ≡ true
      → ((stream_line float qname l s).progress_finished ≡ true)
        × (filter is_progress (stream_line float qname l s).sent ≡ filter is_progress s.sent)
        × ((stream_line float qname l s).broken ≡ s.broken)
  unfolding stream_line stderr_line
  stream_line_finished (out_line u) s h = ground (
    arith,
    filter-append is_progress s.sent (formated_line qname "out" (sanitize_output u true) ∷ []),
    append-nil (filter is_progress s.sent),
  )
  stream_line_finished (err_line u) s h = ground (
    arith,
    filter-append is_progress s.sent (formated_line qname "err" (sanitize_output u true) ∷ []),
    append-nil (filter is_progress s.sent),
  )

  stream_lines_finished_from :
      (ls : List Line) (s : Streams)
      → s.progress_finished ≡ true
      → (filter is_progress (stream_lines float qname ls s).sent ≡ filter is_progress s.sent)
        × ((stream_lines float qname ls s).broken ≡ s.broken)
  unfolding stream_lines
  stream_lines_finished_from [] s h = (refl, refl)
  stream_lines_finished_from (l ∷ ls) s h =
      let (f, p, b) = stream_line_finished l s h in
      let (p', b') = stream_lines_finished_from ls (stream_line float qname l s) f in
      (p' ∙ p, b' ∙ b)

  stream_line-full :
      (u : Text) (s : Streams)
      → s.progress_finished ≡ false
      → s.broken ≡ false
      → is_nil (sanitize_output u true) ≡ false
      → line_progress float (sanitize_output u true) ≡ ok (some full)
      → ((stream_line float qname (err_line u) s).progress_finished ≡ true)
        × (filter is_progress (stream_line float qname (err_line u) s).sent
            ≡ filter is_progress s.sent ++ updating_info qname full ∷ [])
        × ((stream_line float qname (err_line u) s).broken ≡ false)
  unfolding stream_line stderr_line
  stream_line-full u s unfinished whole ne stated =
      ground (arith, filter-append is_progress s.sent (updating_info qname full ∷ []))

  -- When the stderr thread reads progress 100 for the first time, in a line that is not empty, that
  -- is the last progress message it sends, whatever lines come after it on either stream, and none
  -- of them ends the thread with an exception.
  pub stream_lines_finished :
      (u : Text) (ls : List Line) (s : Streams)
      → s.progress_finished ≡ false
      → s.broken ≡ false
      → is_nil (sanitize_output u true) ≡ false
      → line_progress float (sanitize_output u true) ≡ ok (some full)
      → (filter is_progress (stream_lines float qname (err_line u ∷ ls) s).sent
          ≡ filter is_progress s.sent ++ updating_info qname full ∷ [])
        × ((stream_lines float qname (err_line u ∷ ls) s).broken ≡ false)
  unfolding stream_lines
  stream_lines_finished u ls s unfinished whole ne stated =
      let (f, p, b) = stream_line-full u s unfinished whole ne stated in
      let (p', b') = stream_lines_finished_from ls (stream_line float qname (err_line u) s) f in
      (p' ∙ p, b' ∙ b)

  -- Before progress 100, a line of blanks on stderr ends the stderr thread with an `IndexError`.
  pub stream_line_blank :
      (u : List ℕ) (s : Streams)
      → s.progress_finished ≡ false
      → is_nil (sanitize_output u true) ≡ false
      → all (λ c. nat_eq c 32) (sanitize_output u true) ≡ true
      → float (sanitize_output u true) ≡ none
      → (stream_line float qname (err_line u) s).broken ≡ true
  unfolding stream_line stderr_line line_progress last_word
  stream_line_blank u s h ne blank no_float =
      ground (arith, last_word_from_blank (sanitize_output u true))
