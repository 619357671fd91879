-- ===== src/Common/Assoc.antt =====
-- Go's `map[string]T` as an association list: a key stands in it once, and the order of the
-- entries is the order in which a `range` over the map happens to visit them.
use Prim.Native.Nat.{suc, ◌≤◌}
use Prim.Native.String.{String}
use mathlib.Core.Path.{◌≡◌, refl}
use mathlib.Core.Bool.{Bool}
use mathlib.Core.Option.{Option, none, some}
use mathlib.Core.List.{List, [], ◌∷◌}
use native.Mathlib.Omega.{arith}
use text.Mathlib.Text.{◌==◌ as str_eq}
use text.Mathlib.TextEquality.{eq_iff}
use honeydipper.Common.Tests.{if◌then◌else◌, is_some}
use honeydipper.Common.Lists.{length}

abbrev pub Assoc {ℓ} : Type ℓ → Type ℓ
Assoc V = List (String × V)

module _ {ℓ} {V : Type ℓ} where
  -- value, ok := table[key]
  unfoldable pub lookup : String → Assoc V → Option V
  lookup key [] = none
  lookup key ((name, value) ∷ table) = if str_eq name key then some value else lookup key table

  -- _, ok := table[key]
  abbrev pub has : String → Assoc V → Bool
  has key table = is_some (lookup key table)

  -- table[key] = value
  unfoldable pub insert : String → V → Assoc V → Assoc V
  insert key value [] = (key, value) ∷ []
  insert key value ((name, old) ∷ table) =
      if str_eq name key then (name, value) ∷ table else (name, old) ∷ insert key value table

  -- delete(table, key)
  unfoldable pub delete : String → Assoc V → Assoc V
  delete key [] = []
  delete key ((name, old) ∷ table) =
      let others = delete key table in if str_eq name key then others else (name, old) ∷ others

  pub lookup-insert :
      (key other : String) (value : V) (table : Assoc V)
      → lookup other (insert key value table)
        ≡ (if str_eq key other then some value else lookup other table)
  unfolding lookup insert
  lookup-insert key other value [] = refl
  lookup-insert key other value ((name, old) ∷ table) = ground (
    arith,
    lookup-insert key other value table,
    eq_iff name key,
    eq_iff name other,
    eq_iff key other,
  )

  pub lookup-delete :
      (key other : String) (table : Assoc V)
      → lookup other (delete key table) ≡ (if str_eq key other then none else lookup other table)
  unfolding lookup delete
  lookup-delete key other [] = ground arith
  lookup-delete key other ((name, old) ∷ table) =
      ground
        (arith, lookup-delete key other table, eq_iff name key, eq_iff name other, eq_iff key other)

  -- A write to a new key makes the map longer by one.
  pub length-insert :
      (k : String) (v : V) (m : Assoc V)
      → lookup k m ≡ none
      → length (insert k v m) ≡ suc (length m)
  unfolding lookup insert
  length-insert k v [] h = refl
  length-insert k v ((j, w) ∷ m) h = ground (arith, length-insert k v m)

  pub length-delete-le : (k : String) (m : Assoc V) → length (delete k m) ≤ length m
  unfolding delete
  length-delete-le k [] = omega arith
  length-delete-le k ((j, w) ∷ m) = ground (arith, length-delete-le k m)

-- table[key] of a map of texts: a missing key reads as the empty text.
abbrev or_empty : Option String → String
or_empty none = ""
or_empty (some s) = s

abbrev pub read : String → Assoc String → String
read key table = or_empty (lookup key table)

pub ruleset map_laws = (lookup-insert, lookup-delete)
