-- ===== src/Common/Groups.antt =====
-- Maps whose values are lists that grow at their end, as the program builds its indexes.
use mathlib.Core.Path.{◌≡◌, sym, ap}
use mathlib.Core.Logic.{inl, inr}
use mathlib.Core.Option.{Option, none, some}
use mathlib.Core.List.{List, [], ◌∷◌, ◌++◌, append-nil}
use Prim.Native.String.{String}
use text.Mathlib.Text.{◌==◌ as str_eq}
use text.Mathlib.TextEquality.{eq_iff}
use honeydipper.Common.Tests.{if◌then◌else◌, Bool-cases}
use honeydipper.Common.Assoc.{Assoc, lookup, insert, lookup-insert}

abbrev pub or_nil {ℓ} : {A : Type ℓ} → Option (List A) → List A
or_nil none = []
or_nil (some xs) = xs

module _ {ℓ} {A : Type ℓ} where
  -- table[key] = append(table[key], x)
  unfoldable pub add_to : String → A → Assoc (List A) → Assoc (List A)
  add_to key x table = insert key (or_nil (lookup key table) ++ (x ∷ [])) table

  pub lookup-add_to :
      (key j : String) (x : A) (table : Assoc (List A))
      → or_nil (lookup j (add_to key x table))
        ≡ or_nil (lookup j table) ++ (if str_eq key j then x ∷ [] else [])
  unfolding add_to
  lookup-add_to key j x table = elim (Bool-cases (str_eq key j)) [
    | inl e ↦
        rw e (
          rw (lookup-insert, e)
            (ap (λ k. or_nil (lookup k table) ++ (x ∷ [])) ((eq_iff key j).0 e)))
    | inr e ↦ rw e (rw (lookup-insert, e) (sym (append-nil (or_nil (lookup j table)))))
  ]
