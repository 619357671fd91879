-- ===== src/Dipper/Condition.antt =====
-- pkg/dipper/condition.go: matching an event against the conditions of a rule or a workflow.
pub mod Accepts
pub mod Proper
pub mod Negation
use honeydipper.Common.{
  ℕ, Bool, true, false, not, Option, none, some, List, [], ◌∷◌, String, ◌==◌, if◌then◌else◌, str_eq,
}
use honeydipper.Outcome.{Outcome, done, panic, index_out_of_range, ◌>>=◌}
use honeydipper.Text.{codes, last_code, drop, drop_last, has_prefix}
use honeydipper.Value.{
  Value, null, bool, int, int64, float, str, regex, list, obj, Items, nil, cons, Fields, end, field,
  get, keys, of_strings,
}

-- Boolean tests that may panic, one after the other.
abbrev pub and_then : Outcome Bool → Outcome Bool → Outcome Bool
and_then m rest = do b ← m; if b then rest else done false

abbrev pub or_else : Outcome Bool → Outcome Bool → Outcome Bool
or_else m rest = do b ← m; if b then done true else rest

abbrev pub negate : Outcome Bool → Outcome Bool
negate m = do b ← m; done (not b)

-- `for i := range value { if !f(value[i]) { return false } }; return true`
unfoldable pub every : (Value → Outcome Bool) → Items → Outcome Bool
every f nil = done true
every f (cons x xs) = and_then (f x) (every f xs)

-- How a list of values is compared with a criterion: `:all:` or any; a list of criteria with no
-- first entry is an index panic.
pub data Mode : Type 0 where
  any_item broken : Mode
  all_items : (Value → Outcome Bool) → Mode

-- CompareAll by the kind of the actual value. `leaf` compares a text, `on_map` a map.
module _ (leaf : String → Bool) (on_map : Fields → Outcome Bool) (mode : Mode) where
  unfoldable mutual
    pub against : Value → Outcome Bool
    against (str s) = done (leaf s)
    against (list xs) = elim mode [
      | any_item ↦ against_any xs
      | broken ↦ panic index_out_of_range
      | all_items f ↦ every f xs
    ]
    against (obj fs) = on_map fs
    against null = done false
    against (bool b) = done false
    against (int n) = done false
    against (int64 n) = done false
    against (float b) = done false
    against (regex s) = done false

    pub against_any : Items → Outcome Bool
    against_any nil = done false
    against_any (cons x xs) = or_else (against x) (against_any xs)

-- The check of one key of a map criterion; `sub` is CompareAll with the criterion of that key.
-- The default case: `key!` asks for the contrary.
abbrev member_check : (Value → Outcome Bool) → Option Value → Outcome Bool
member_check sub none = done false
member_check sub (some v) = sub v

abbrev default_check : String → (Value → Outcome Bool) → Fields → Outcome Bool
default_check key sub actual = elim (last_code key) [
  | none ↦ panic index_out_of_range
  | some c ↦
      if c == b'!'
      then negate (member_check sub (get (drop_last key) actual))
      else member_check sub (get key actual)
]

unfoldable pub check_key : String → (Value → Outcome Bool) → Fields → Outcome Bool
check_key key sub actual =
    if str_eq key ":auth:"
    then done true
    else if str_eq key ":present:"
    then sub (list (of_strings (keys actual)))
    else if str_eq key ":absent:"
    then negate (sub (list (of_strings (keys actual))))
    else if str_eq key ":except:"
    then negate (sub (obj actual))
    else default_check key sub actual

-- CompareMap with a list: an empty list accepts everything.
abbrev unless_empty : Items → Outcome Bool → Outcome Bool
unless_empty nil m = done true
unless_empty (cons x xs) m = m

abbrev list_mode : Items → (Value → Outcome Bool) → Mode
list_mode nil second = broken
list_mode (cons (str s) xs) second = if str_eq s ":all:" then all_items second else any_item
list_mode (cons _ xs) second = any_item

-- regexp.Match is a parameter: the pattern, the text.
module _ (re_match : String → String → Bool) where
  -- Compare: a text with a criterion.
  unfoldable mutual
    pub compare : Value → String → Bool
    compare null actual = true
    compare (str s) actual = str_eq s actual
    compare (regex p) actual = re_match p actual
    compare (list xs) actual = compare_any xs actual
    compare (bool b) actual = false
    compare (int n) actual = false
    compare (int64 n) actual = false
    compare (float b) actual = false
    compare (obj fs) actual = false

    pub compare_any : Items → String → Bool
    compare_any nil actual = false
    compare_any (cons x xs) actual = if compare x actual then true else compare_any xs actual

  -- CompareAll and CompareMap, by recursion on the criterion.
  unfoldable mutual
    unfolding compare

    pub compare_all : Value → Value → Outcome Bool
    compare_all null actual = done true
    compare_all (list xs) actual =
        against (compare (list xs)) (λ fs. unless_empty xs (compare_items xs fs))
          (list_mode xs (compare_second xs)) actual
    compare_all (obj scenario) actual =
        against (compare (obj scenario)) (compare_fields scenario) any_item actual
    compare_all (str s) actual = against (compare (str s)) (λ fs. done false) any_item actual
    compare_all (regex p) actual = against (compare (regex p)) (λ fs. done false) any_item actual
    compare_all (bool b) actual = against (compare (bool b)) (λ fs. done false) any_item actual
    compare_all (int n) actual = against (compare (int n)) (λ fs. done false) any_item actual
    compare_all (int64 n) actual = against (compare (int64 n)) (λ fs. done false) any_item actual
    compare_all (float b) actual = against (compare (float b)) (λ fs. done false) any_item actual

    -- CompareAll(_, strCriteria[1])
    pub compare_second : Items → Value → Outcome Bool
    compare_second (cons x (cons c xs)) actual = compare_all c actual
    compare_second _ actual = panic index_out_of_range

    -- CompareMap of a map.
    pub compare_map : Value → Fields → Outcome Bool
    compare_map (list xs) actual = unless_empty xs (compare_items xs actual)
    compare_map (obj scenario) actual = compare_fields scenario actual
    compare_map _ actual = done false

    pub compare_items : Items → Fields → Outcome Bool
    compare_items nil actual = done false
    compare_items (cons sc xs) actual = or_else (compare_map sc actual) (compare_items xs actual)

    pub compare_fields : Fields → Fields → Outcome Bool
    compare_fields end actual = done true
    compare_fields (field key sub rest) actual =
        and_then (check_key key (compare_all sub) actual) (compare_fields rest actual)

-- RegexParser: the value that takes the place of a text, if any. The parameter tells whether
-- regexp.Compile accepts a pattern.
unfoldable pub regex_parser : (String → Bool) → Value → Value × Bool
regex_parser compiles (str s) =
    if has_prefix (codes s) (codes ":regex:")
    then if compiles (drop 7 s) then (regex (drop 7 s), true) else (null, false)
    else (null, false)
regex_parser compiles _ = (null, false)
