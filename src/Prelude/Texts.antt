-- ===== src/Prelude/Texts.antt =====
-- Texts: `in`, `split`, `join`, and dicts with text keys in insertion order.
use Prim.Native.Char.{Char, code}
use Prim.Native.Nat.{ℕ}
use Prim.Native.String.{String}
use mathlib.Core.Bool.{true, Bool, false, not, ◌||◌}
use mathlib.Core.List.{List, [], ◌∷◌}
use mathlib.Core.Option.{Option, none, some}
use mathlib.Core.Path.{◌≡◌, refl}
use native.Mathlib.Omega.{arith}
use text.Mathlib.Text.{◌==◌}
use text.Mathlib.TextEquality.{eq_iff}
use text.Mathlib.TextPositions.{eq_refl}
use qubes_core_admin_linux.Prelude.Tests.{nat_eq, if◌then◌else◌}

-- The code points of a text. Process output is kept so.
abbrev pub Text : Type 0
Text = List ℕ

abbrev pub codes : String → Text
codes String.[] = []
codes (String.◌∷◌ c s) = code c ∷ codes s

abbrev cons_line : ℕ → List Text → List Text
cons_line c [] = (c ∷ []) ∷ []
cons_line c (l ∷ ls) = (c ∷ l) ∷ ls

-- `text.split("\n")`
unfoldable pub lines : Text → List Text
lines [] = [] ∷ []
lines (c ∷ cs) = let rest = lines cs in if nat_eq c 10 then [] ∷ rest else cons_line c rest

-- `k in names`
unfoldable pub contains : List String → String → Bool
contains [] k = false
contains (j ∷ js) k = j == k || contains js k

-- bool(s)
abbrev pub truthy : String → Bool
truthy s = not (s == "")

abbrev cons_head : Char → List String → List String
cons_head c [] = String.◌∷◌ c String.[] ∷ []
cons_head c (w ∷ ws) = String.◌∷◌ c w ∷ ws

-- `s.split(sep)` of a separator of one character, given by its code.
unfoldable pub split : ℕ → String → List String
split sep String.[] = "" ∷ []
split sep (String.◌∷◌ c s) =
    let rest = split sep s in if nat_eq (code c) sep then "" ∷ rest else cons_head c rest

module _ {ℓ} {V : Type ℓ} where
  unfoldable pub lookup : String → List (String × V) → Option V
  lookup k [] = none
  lookup k ((j, v) ∷ d) = if j == k then some v else lookup k d

  -- `d[k] = v`
  unfoldable pub insert : String → V → List (String × V) → List (String × V)
  insert k v [] = (k, v) ∷ []
  insert k v ((j, w) ∷ d) = if j == k then (j, v) ∷ d else (j, w) ∷ insert k v d

  -- `d.keys()`
  unfoldable pub keys : List (String × V) → List String
  keys [] = []
  keys ((j, _) ∷ d) = j ∷ keys d

  -- `d.values()`
  unfoldable pub values : List (String × V) → List V
  values [] = []
  values ((_, v) ∷ d) = v ∷ values d

  pub lookup-nil : (k : String) → lookup k [] ≡ none
  unfolding lookup
  lookup-nil k = refl

  pub lookup-insert :
      (k j : String) (v : V) (d : List (String × V))
      → lookup j (insert k v d) ≡ (if k == j then some v else lookup j d)
  unfolding lookup insert
  lookup-insert k j v [] = refl
  lookup-insert k j v ((i, w) ∷ d) =
      ground (arith, eq_iff k j, eq_iff i k, eq_iff i j, lookup-insert k j v d)

  -- `k in d`
  abbrev pub has_key : String → List (String × V) → Bool
  has_key k d = elim (lookup k d) [ none ↦ false | some _ ↦ true ]

  pub has_key-insert_self :
      (k : String) (v : V) (d : List (String × V)) → has_key k (insert k v d) ≡ true
  has_key-insert_self k v d = ground (arith, lookup-insert k k v d, eq_refl k)

  pub has_key-insert :
      (k j : String) (v : V) (d : List (String × V))
      → has_key j d ≡ true
      → has_key j (insert k v d) ≡ true
  has_key-insert k j v d h = ground (arith, lookup-insert k j v d)
