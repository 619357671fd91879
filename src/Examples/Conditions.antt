-- ===== src/Examples/Conditions.antt =====
-- Conditions against events.
use mathlib.Core.List.Perm
use honeydipper.Common.{◌≡◌, ◌↔◌, refl, Bool, true, false, [], String, str_eq, differ}
use honeydipper.Outcome.{done, panic, index_out_of_range}
use honeydipper.Value.{str, list, obj, nil, cons, Fields, end, field, get}
use honeydipper.Dipper.Condition.{
  compare_all, compare_map, check_key, negate, every, against, compare,
}
use honeydipper.Dipper.Condition.Accepts.{Accepts, compare_map-perm}
use honeydipper.Dipper.Condition.Proper.{IsProper, compare_all_total}
use honeydipper.Dipper.Condition.Negation.{IsMember, check_key-negation}

-- A matcher that takes the pattern for the text itself.
abbrev literal : String → String → Bool
literal = str_eq

program : Unit {0}
unfolding compare_all compare every against check_key get
program = tt

abbrev event : Fields
event =
    field "labels" (list (cons (str "web") (cons (str "prod") nil))) (field "team" (str "sre") end)

abbrev rule : Fields
rule = field "team" (str "sre") (field "labels!" (str "dev") end)

abbrev rule_reordered : Fields
rule_reordered = field "labels!" (str "dev") (field "team" (str "sre") end)

rule_matches : compare_all literal (obj rule) (obj event) ≡ done true
unfolding program
rule_matches = refl

all_labels :
    compare_all literal
      (list (cons (str ":all:") (cons (str "web") nil)))
      (list (cons (str "web") (cons (str "prod") nil)))
    ≡ done false
unfolding program
all_labels = refl

-- An empty list as a criterion of a list is an index panic.
empty_criterion : compare_all literal (list nil) (list nil) ≡ panic index_out_of_range
unfolding program
empty_criterion = refl

rule-IsProper : IsProper (obj rule)
unfolding IsProper
rule-IsProper = (λ e. cc, tt, (λ e. cc, tt, tt))

labels-IsMember : IsMember "labels"
labels-IsMember = record {
  auth = differ "labels" ":auth:" refl;
  present = differ "labels" ":present:" refl;
  absent = differ "labels" ":absent:" refl;
  except = differ "labels" ":except:" refl;
  last = (b's', refl, refl);
}

compare_map-perm_example :
    Accepts (compare_map literal (obj rule) event)
    ↔ Accepts (compare_map literal (obj rule_reordered) event)
compare_map-perm_example =
    compare_map-perm literal event rule rule_reordered
      (Perm.swap ("labels!", str "dev") ("team", str "sre") [])

compare_all_total_example : (b : Bool) × (compare_all literal (obj rule) (obj event) ≡ done b)
compare_all_total_example = compare_all_total literal (obj rule) (obj event) rule-IsProper

check_key-negation_example :
    (check_key "labels!" (compare_all literal (str "dev")) event
      ≡ negate (check_key "labels" (compare_all literal (str "dev")) event))
    × (check_key ":absent:" (compare_all literal (str "dev")) event
        ≡ negate (check_key ":present:" (compare_all literal (str "dev")) event))
check_key-negation_example =
    check_key-negation "labels" (compare_all literal (str "dev")) event labels-IsMember
