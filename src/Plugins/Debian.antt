-- ===== src/Plugins/Debian.antt =====
-- The plugins for Debian: allow_release_info_change.py, bookworm_backports.py and whonix17_key.py of
-- vmupdate/agent/source/plugins.
use qubes_core_admin_linux.Entrypoint.{OsData}
use qubes_core_admin_linux.Exec.{
  raise, ◌>>◌, pure, ◌>>=◌, gets, index_error, lift, try_except, value_error, err, Exec, ok, ◌>>?◌,
  Result,
}
use qubes_core_admin_linux.Package.Cli.{starts}
use qubes_core_admin_linux.Plugins.{
  exists_file, is_called_process, splitlines, write_file, check_output, has_codename, Box, in_text,
  PluginHost,
}
use qubes_core_admin_linux.Prelude.{
  any, length, all, codes, is_nil, nat_eq, Text, ltb, ℕ, zero, suc, ◌-◌, Bool, true, false, not,
  ◌&&◌, ◌||◌, String, ◌<>◌, none, some, List, [], ◌∷◌, ◌++◌, if◌then◌else◌,
}

-- The characters that `split()` and `strip()` take for spaces
abbrev pub is_space : ℕ → Bool
is_space c =
    (not (ltb c 9) && ltb c 14)
    || (not (ltb c 28) && ltb c 33)
    || (nat_eq c 133 || nat_eq c 160 || nat_eq c 5760 || (not (ltb c 8192) && ltb c 8203))
    || (nat_eq c 8232 || nat_eq c 8233 || nat_eq c 8239 || nat_eq c 8287 || nat_eq c 12288)

unfoldable pub drop_while : (ℕ → Bool) → Text → Text
drop_while p [] = []
drop_while p (c ∷ cs) = let rest = drop_while p cs in if p c then rest else c ∷ cs

unfoldable pub take_until : (ℕ → Bool) → Text → Text
take_until p [] = []
take_until p (c ∷ cs) = let rest = take_until p cs in if p c then [] else c ∷ rest

unfoldable pub drop_while_end : (ℕ → Bool) → Text → Text
drop_while_end p [] = []
drop_while_end p (c ∷ cs) =
    let rest = drop_while_end p cs in if is_nil rest && p c then [] else c ∷ rest

-- `text.strip(…)`
abbrev pub strip_chars : (ℕ → Bool) → Text → Text
strip_chars p t = drop_while_end p (drop_while p t)

-- `line.split()[0]`
unfoldable pub first_field : Text → Result Text
first_field line =
    let rest = drop_while is_space line in
    if is_nil rest then err index_error else ok (take_until is_space rest)

-- `text.replace(needle, "")` of a needle that is not empty; the number counts what is left to skip.
unfoldable pub remove_all : Text → ℕ → Text → Text
remove_all needle skip [] = []
remove_all needle (suc skip) (c ∷ cs) = remove_all needle skip cs
remove_all needle zero (c ∷ cs) = elim (starts needle (c ∷ cs)) [
  | true ↦ remove_all needle (length needle - 1) cs
  | false ↦ c ∷ remove_all needle zero cs
]

abbrev pub apt_conf : String
apt_conf = "/etc/apt/apt.conf.d/01qubes-update"

abbrev pub sources_list : String
sources_list = "/etc/apt/sources.list.d/backports.list"

abbrev pub prefs_path : String
prefs_path = "/etc/apt/preferences.d/backports_pins"

abbrev pub keyfile_path : String
keyfile_path = "/usr/share/keyrings/derivative.asc"

abbrev pub base_repo_url : Text
base_repo_url = codes "deb.debian.org/debian/dists/bookworm/InRelease"

abbrev pub base_onion_repo_url : Text
base_onion_repo_url =
    codes
      "2s4yqjx5ul6okpp3f2gaunr2syex5jgbfpfvhxxbbjwnrsvbk5v3qbid.onion/debian/dists/bookworm/InRelease"

-- `backports_line.format(baseurl=baseurl)`
unfoldable pub backports_line : Text → Text
backports_line baseurl =
    codes "deb " ++ baseurl ++ codes " bookworm-backports main contrib non-free-firmware" ++ 10 ∷ []

-- The pin of a source package
unfoldable pub prefs_data : String → Text
prefs_data source =
    codes ("Package: src:" <> source)
    ++ 10 ∷ codes "Pin: release n=bookworm-backports"
    ++ 10 ∷ codes "Pin-Priority: 600"
    ++ 10 ∷ 10 ∷ []

-- The base URL of a line of `apt-get --print-uris`
unfoldable pub base_url : Text → Result Text
base_url line = first_field line >>? λ field.
    ok (remove_all (codes "/dists/bookworm/InRelease") 0 (strip_chars (λ c. nat_eq c 39) field))

-- The loop of `add_backports_repo`, for the base URL and the flag so far; `None` is the empty text.
unfoldable pub scan_uris : List Text → Text → Bool → Result (Text × Bool)
scan_uris [] baseurl enabled = ok (baseurl, enabled)
scan_uris (url ∷ urls) baseurl enabled =
    (if is_nil baseurl && (in_text base_repo_url url || in_text base_onion_repo_url url)
      then base_url url
      else ok baseurl)
    >>? λ found.
        scan_uris urls found (enabled || in_text (codes "/debian/dists/bookworm-backports/") url)

-- `.decode("ascii")`
abbrev pub ascii : List ℕ → Result Text
ascii b = if all (λ c. ltb c 128) b then ok b else err value_error

module _ {O : Type 0} (machine : PluginHost O) where
  -- `allow_release_info_change`
  unfoldable pub allow_release_info_change : OsData → Exec (Box O) Unit
  allow_release_info_change os =
      if has_codename "buster" os
      then write_file machine apt_conf
          (10 ∷ codes "Acquire::AllowReleaseInfoChange \"false\";" ++ 10 ∷ [])
      else pure tt

  -- `add_backports_repo` after its `try`
  unfoldable pub add_sources : List ℕ → Exec (Box O) Unit
  add_sources output =
      lift (machine.decode output >>? λ text. scan_uris (splitlines text) [] false)
      >>= λ (baseurl, enabled). gets (exists_file sources_list) >>= λ present.
          if not (is_nil baseurl) && (not enabled && not present)
          then write_file machine sources_list (backports_line baseurl)
          else pure tt

  -- `except subprocess.CalledProcessError: return d`, around a call
  abbrev pub unless_called : {A : Type 0} → A → Exec (Box O) A → Exec (Box O) A
  unless_called d m = try_except m (λ e. if is_called_process e then pure d else raise e)

  -- `add_backports_repo`
  unfoldable pub add_backports_repo : Exec (Box O) Unit
  add_backports_repo =
      unless_called none (
        check_output machine ("apt-get" ∷ "--print-uris" ∷ "update" ∷ []) >>= λ output.
        pure (some output))
      >>= λ output. elim output [ none ↦ pure tt | some text ↦ add_sources text ]

  -- `check_package_not_from_backports`
  unfoldable pub check_package_not_from_backports : String → Exec (Box O) Bool
  check_package_not_from_backports name = unless_called false (
      check_output machine ("dpkg" ∷ "-l" ∷ name ∷ []) >>= λ output.
      pure (not (in_text (codes "bpo") output)))

  -- The end of `bookworm_backports`
  unfoldable pub pin_backports : Bool → Bool → Exec (Box O) Unit
  pin_backports firmware pipewire = gets (exists_file prefs_path) >>= λ present.
      if present
      then pure tt
      else write_file machine prefs_path (
          (if firmware then prefs_data "firmware-nonfree" else [])
          ++ (if pipewire then prefs_data "pipewire" else []))

  -- `bookworm_backports`
  unfoldable pub bookworm_backports : OsData → Exec (Box O) Unit
  bookworm_backports os =
      if has_codename "bookworm" os
      then (check_package_not_from_backports "firmware-linux-nonfree" >>= λ firmware.
          check_package_not_from_backports "pipewire" >>= λ pipewire.
          (if not firmware && not pipewire
            then pure tt
            else add_backports_repo >> pin_backports firmware pipewire))
      else pure tt

  -- The end of `whonix17_key`, for its key
  unfoldable pub renew_key : Text → Exec (Box O) Unit
  renew_key key = check_output machine ("gpg" ∷ "--with-colons" ∷ keyfile_path ∷ []) >>= λ output.
      lift (ascii output) >>= λ text.
      if any (starts (codes "pub:e:")) (splitlines text)
      then write_file machine keyfile_path key
      else pure tt

  -- `whonix17_key`
  unfoldable pub whonix17_key : Text → OsData → Exec (Box O) Unit
  whonix17_key key os = gets (exists_file keyfile_path) >>= λ present.
      if not (has_codename "bookworm" os) || not present then pure tt else renew_key key
