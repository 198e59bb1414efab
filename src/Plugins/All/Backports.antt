-- ===== src/Plugins/All/Backports.antt =====
-- The backports of Debian are added once.
use qubes_core_admin_linux.Exec.{pure, gets, err, ◌>>=◌, lift, ok, on_result, ◌>>?◌, Result}
use qubes_core_admin_linux.Plugins.{write_file, exists_file, splitlines, Box, in_text, PluginHost}
use qubes_core_admin_linux.Plugins.Debian.{
  backports_line, sources_list, base_url, base_onion_repo_url, base_repo_url, add_sources,
  scan_uris,
}
use qubes_core_admin_linux.Prelude.{
  subst, codes, is_nil, any, Text, ℕ, ◌≡◌, refl, ap, Bool, true, false, not, ◌&&◌, ◌||◌, List, [],
  ◌∷◌, if◌then◌else◌, arith,
}

abbrev pub enables : Text → Bool
enables url = in_text (codes "/debian/dists/bookworm-backports/") url

-- A property of what a call returns, if it returns
abbrev Returned : {A : Type 0} → (A → Type 0) → Result A → Type 0
Returned P r = on_result r P (λ _. Unit {0})

Returned-bind :
    {A B : Type 0} (P : B → Type 0) (r : Result A) (k : A → Result B)
    → ((a : A) → Returned P (k a))
    → Returned P (r >>? k)
Returned-bind P (ok a) k h = h a
Returned-bind P (err e) k h = tt

||-assoc : (a b c : Bool) → ((a || b) || c) ≡ (a || (b || c))
||-assoc true b c = refl
||-assoc false b c = refl

||-false : (a : Bool) → a ≡ (a || false)
||-false true = refl
||-false false = refl

-- What the loop says of the backports is whether one of the lines, or what came before, enables them.
scan_uris-enabled :
    (urls : List Text) (baseurl : Text) (enabled : Bool)
    → Returned
        (λ (r : Text × Bool). r.1 ≡ (enabled || any enables urls))
        (scan_uris urls baseurl enabled)
unfolding scan_uris
scan_uris-enabled [] baseurl enabled = ||-false enabled
scan_uris-enabled (url ∷ urls) baseurl enabled =
    Returned-bind (λ (r : Text × Bool). r.1 ≡ (enabled || (enables url || any enables urls)))
      (if is_nil baseurl && (in_text base_repo_url url || in_text base_onion_repo_url url)
        then base_url url
        else ok baseurl)
      (λ found. scan_uris urls found (enabled || enables url))
      (λ found.
        subst
          (λ b.
            Returned (λ (r : Text × Bool). r.1 ≡ b) (scan_uris urls found (enabled || enables url)))
          (||-assoc enabled (enables url) (any enables urls))
          (scan_uris-enabled urls found (enabled || enables url)))

module _ {O : Type 0} (machine : PluginHost O) (output : List ℕ) (box : Box O) where
  unwritten :
      (r : Result (Text × Bool))
      → Returned (λ (a : Text × Bool). a.1 ≡ true) r
      → ((lift r >>= λ (baseurl, enabled). gets (exists_file sources_list) >>= λ present.
            if not (is_nil baseurl) && (not enabled && not present)
            then write_file machine sources_list (backports_line baseurl)
            else pure tt)
          box).1
        ≡ box
  unwritten (ok (baseurl, enabled)) h =
      ap
        (λ b.
          ((if b then write_file machine sources_list (backports_line baseurl) else pure tt) box).1)
        (not_added (not (is_nil baseurl)) enabled (exists_file sources_list box) h)
    where
      not_added : (a b c : Bool) → b ≡ true → (a && (not b && not c)) ≡ false
      not_added a b c e = ground arith
  unwritten (err e) h = refl

  -- If what apt would fetch can be decoded, and a line of it is of the backports already, then
  -- nothing is written, whatever else is in the lines and whether or not their reading raises.
  pub backports_added_once :
      (text : Text)
      → machine.decode output ≡ ok text
      → any enables (splitlines text) ≡ true
      → (add_sources machine output box).1 ≡ box
  unfolding add_sources
  backports_added_once text e h = rw e (
      unwritten (scan_uris (splitlines text) [] false)
        (rw h at (scan_uris-enabled (splitlines text) [] false)))
