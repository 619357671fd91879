-- ===== src/Examples/Systems.antt =====
-- A system that extends another one twice, once under a key.
use honeydipper.Common.{
  ℕ, ◌<◌, ◌≡◌, refl, true, Option, some, none, [], ◌∷◌, String, All, Bool-cases, inl, inr, arith,
  str_eq, if◌then◌else◌,
}
use honeydipper.Common.Assoc.{Assoc, lookup, insert, has}
use honeydipper.Outcome.{Outcome, done, Safe}
use honeydipper.Value.{put}
use honeydipper.Text.{is_space}
use honeydipper.Text.Split.{split}
use honeydipper.Config.{System}
use honeydipper.Config.Collapse.{no_system, no_trigger}
use honeydipper.Config.Systems.{
  merge_entries, merge_entry, extend_parts, parse_extend, put_entries, add_subsystem, Extending,
  merge_system, join_base, add_base, visit_base, extend_bases, put_extended, extend_system,
  extend_unless, extend_names, extend_all_systems, drop_blanks, drop_last_blanks,
}
use honeydipper.Config.Extended.{base_of, current, Extended}
use honeydipper.Config.Extends.{extend_all_systems-Extended}

program : Unit {0}
unfolding lookup insert put split is_space merge_entries merge_entry extend_parts parse_extend
    put_entries add_subsystem merge_system join_base add_base visit_base extend_bases put_extended
    extend_system extend_unless extend_names drop_blanks drop_last_blanks
program = tt

abbrev second {ℓ} : {A : Type ℓ} → A → A → Option A
second a b = some b

abbrev kept : System → Option System
kept s = some s

abbrev github : System
github = record no_system { triggers = ("push", no_trigger) ∷ []; description = "hosting" }

abbrev work : System
work = record no_system { extends = "github" ∷ "spare = github" ∷ [] }

abbrev systems : Assoc System
systems = ("work", work) ∷ ("github", github) ∷ []

abbrev height : String → ℕ
height name = if str_eq "work" name then 1 else 0

falls : (n : String) → All (λ x. height (base_of x) < height n) (current systems n).extends
unfolding program
falls n = elim (Bool-cases (str_eq "work" n)) [
  | inl e ↦ rw e (omega arith, (omega arith, tt))
  | inr e ↦ rw e (elim (Bool-cases (str_eq "github" n)) [ inl e ↦ rw e tt | inr e ↦ rw e tt ])
]

extend_all_systems-Extended_example :
    Safe
      (λ e.
        Extended second second second kept systems e
        × All (λ n. has n e.processed ≡ true) ("work" ∷ "github" ∷ []))
      (extend_all_systems second second second kept 2 ("work" ∷ "github" ∷ []) systems)
extend_all_systems-Extended_example =
    extend_all_systems-Extended second second second kept systems height falls 2
      ("work" ∷ "github" ∷ []) (omega arith, (omega arith, tt))

abbrev worked : Option System → Outcome Extending → Outcome (Option System)
worked d (done e) = done (lookup "work" e.systems)
worked d o = done d

-- The triggers of the base, as they are and under the key.
extended_work :
    worked none (extend_all_systems second second second kept 2 ("work" ∷ "github" ∷ []) systems)
    ≡ done (
        some (record no_system {
          content = none;
          triggers = ("push", no_trigger) ∷ ("spare.push", no_trigger) ∷ [];
          extends = "github" ∷ "spare = github" ∷ [];
          description = "hosting";
        }))
unfolding program
extended_work = refl
