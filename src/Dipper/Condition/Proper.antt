-- ===== src/Dipper/Condition/Proper.antt =====
-- Well-formed criteria never make the comparison panic, whatever event they meet.
use honeydipper.Common.{
  ap, str_ne, ◌≡◌, ◌≢◌, refl, Bool, true, false, Option, none, some, String, ◌==◌, if◌then◌else◌,
  str_eq, inl, inr, Bool-cases, Option-cases,
}
use honeydipper.Outcome.{Outcome, done, panic, is_done}
use honeydipper.Text.{last_code, drop_last}
use honeydipper.Value.{
  Value, null, bool, int, int64, float, str, regex, list, obj, Items, nil, cons, Fields, end, field,
  get, keys, of_strings,
}
use honeydipper.Dipper.Condition.{
  and_then, or_else, negate, every, Mode, any_item, broken, all_items, against, against_any,
  member_check, default_check, check_key, list_mode, compare, compare_all, compare_second,
  compare_map, compare_items, compare_fields,
}

abbrev pub Returns : Outcome Bool → Type 0
Returns m = is_done m ≡ true

and_then-Returns : (m n : Outcome Bool) → Returns m → Returns n → Returns (and_then m n)
and_then-Returns (done true) n h k = k
and_then-Returns (done false) n h k = refl
and_then-Returns (panic e) n h k = cc

or_else-Returns : (m n : Outcome Bool) → Returns m → Returns n → Returns (or_else m n)
or_else-Returns (done true) n h k = refl
or_else-Returns (done false) n h k = k
or_else-Returns (panic e) n h k = cc

negate-Returns : (m : Outcome Bool) → Returns m → Returns (negate m)
negate-Returns (done b) h = refl
negate-Returns (panic e) h = cc

if-Returns : (b : Bool) (m n : Outcome Bool) → Returns m → Returns n → Returns (if b then m else n)
if-Returns true m n h k = h
if-Returns false m n h k = k

every-Returns :
    (f : Value → Outcome Bool) → ((v : Value) → Returns (f v)) → (xs : Items) → Returns (every f xs)
unfolding every
every-Returns f h nil = refl
every-Returns f h (cons x xs) = and_then-Returns (f x) (every f xs) (h x) (every-Returns f h xs)

-- The mode does not make the comparison of a list panic.
abbrev IsSound : Mode → Type 0
IsSound any_item = Unit
IsSound broken = ⊥
IsSound (all_items f) = (v : Value) → Returns (f v)

module _ (leaf : String → Bool) (on_map : Fields → Outcome Bool)
    (maps : (fs : Fields) → Returns (on_map fs)) where
  mutual
    unfolding against

    against-Returns :
        (v : Value) (mode : Mode) → IsSound mode → Returns (against leaf on_map mode v)
    against-Returns (str s) mode h = refl
    against-Returns (list xs) any_item h = against_any-Returns xs any_item h
    against-Returns (list xs) broken h = absurd h
    against-Returns (list xs) (all_items f) h = every-Returns f h xs
    against-Returns (obj fs) mode h = maps fs
    against-Returns null mode h = refl
    against-Returns (bool b) mode h = refl
    against-Returns (int n) mode h = refl
    against-Returns (int64 n) mode h = refl
    against-Returns (float b) mode h = refl
    against-Returns (regex s) mode h = refl

    against_any-Returns :
        (xs : Items) (mode : Mode) → IsSound mode → Returns (against_any leaf on_map mode xs)
    against_any-Returns nil mode h = refl
    against_any-Returns (cons x xs) mode h =
        or_else-Returns (against leaf on_map mode x) (against_any leaf on_map mode xs)
          (against-Returns x mode h) (against_any-Returns xs mode h)

module _ (sub : Value → Outcome Bool) (h : (v : Value) → Returns (sub v)) where
  member_check-Returns : (o : Option Value) → Returns (member_check sub o)
  member_check-Returns none = refl
  member_check-Returns (some v) = h v

  default_check-Returns :
      (key : String) (actual : Fields)
      → last_code key ≢ none
      → Returns (default_check key sub actual)
  default_check-Returns key actual ne = elim (Option-cases (last_code key)) [
    | inr e ↦ absurd (ne e)
    | inl (c, e) ↦
        rw (e, default_check)
          (if-Returns (c == b'!') _ _
            (negate-Returns (member_check sub (get (drop_last key) actual))
              (member_check-Returns (get (drop_last key) actual)))
            (member_check-Returns (get key actual)))
  ]

  check_key-Returns :
      (key : String) (actual : Fields) → last_code key ≢ none → Returns (check_key key sub actual)
  unfolding check_key
  check_key-Returns key actual ne =
      let present = h (list (of_strings (keys actual))) in
      if-Returns (str_eq key ":auth:") _ _ refl (
        if-Returns (str_eq key ":present:") _ _ present (
          if-Returns (str_eq key ":absent:") _ _
            (negate-Returns (sub (list (of_strings (keys actual)))) present)
            (if-Returns (str_eq key ":except:") _ _
              (negate-Returns (sub (obj actual)) (h (obj actual)))
              (default_check-Returns key actual ne))))

-- No key is empty, a list is not, and `:all:` is followed by a criterion.
unfoldable mutual
  pub IsProper : Value → Type 0
  IsProper null = Unit
  IsProper (bool b) = Unit
  IsProper (int n) = Unit
  IsProper (int64 n) = Unit
  IsProper (float b) = Unit
  IsProper (str s) = Unit
  IsProper (regex s) = Unit
  IsProper (list nil) = ⊥
  IsProper (list (cons x nil)) = (x ≢ str ":all:") × IsProperMap x
  IsProper (list (cons x (cons c xs))) =
      IsProper c × IsProperMap x × IsProperMap c × IsProperItems xs
  IsProper (obj fs) = IsProperFields fs

  -- As a criterion of CompareMap: there an empty list accepts everything.
  pub IsProperMap : Value → Type 0
  IsProperMap null = Unit
  IsProperMap (bool b) = Unit
  IsProperMap (int n) = Unit
  IsProperMap (int64 n) = Unit
  IsProperMap (float b) = Unit
  IsProperMap (str s) = Unit
  IsProperMap (regex s) = Unit
  IsProperMap (list xs) = IsProperItems xs
  IsProperMap (obj fs) = IsProperFields fs

  pub IsProperItems : Items → Type 0
  IsProperItems nil = Unit
  IsProperItems (cons x xs) = IsProperMap x × IsProperItems xs

  pub IsProperFields : Fields → Type 0
  IsProperFields end = Unit
  IsProperFields (field k v fs) = (last_code k ≢ none) × IsProper v × IsProperFields fs

list_mode-IsSound :
    (x : Value) (xs : Items) (second : Value → Outcome Bool)
    → ((v : Value) → Returns (second v))
    → IsSound (list_mode (cons x xs) second)
list_mode-IsSound (str s) xs second h = elim (Bool-cases (str_eq s ":all:")) [
  | inl e ↦ rw (e, list_mode) h
  | inr e ↦ rw (e, list_mode) tt
]
list_mode-IsSound _ xs second h = tt

list_mode_alone :
    (x : Value) (second : Value → Outcome Bool)
    → x ≢ str ":all:"
    → IsSound (list_mode (cons x nil) second)
list_mode_alone (str s) second ne = rw (str_ne s ":all:" (λ e. ne (ap str e)), list_mode) tt
list_mode_alone _ second ne = tt

module _ (re_match : String → String → Bool) where
  mutual
    unfolding compare_all IsProper

    compare_all-Returns :
        (c : Value) (actual : Value) → IsProper c → Returns (compare_all re_match c actual)
    compare_all-Returns null actual p = refl
    compare_all-Returns (bool b) actual p =
        against-Returns (compare re_match (bool b)) (λ fs. done false) (λ fs. refl) actual any_item
          tt
    compare_all-Returns (int n) actual p =
        against-Returns (compare re_match (int n)) (λ fs. done false) (λ fs. refl) actual any_item
          tt
    compare_all-Returns (int64 n) actual p =
        against-Returns (compare re_match (int64 n)) (λ fs. done false) (λ fs. refl) actual any_item
          tt
    compare_all-Returns (float b) actual p =
        against-Returns (compare re_match (float b)) (λ fs. done false) (λ fs. refl) actual any_item
          tt
    compare_all-Returns (str s) actual p =
        against-Returns (compare re_match (str s)) (λ fs. done false) (λ fs. refl) actual any_item
          tt
    compare_all-Returns (regex s) actual p =
        against-Returns (compare re_match (regex s)) (λ fs. done false) (λ fs. refl) actual any_item
          tt
    compare_all-Returns (list nil) actual p = absurd p
    compare_all-Returns (list (cons x nil)) actual p =
        against-Returns (compare re_match (list (cons x nil))) (compare_items re_match (cons x nil))
          (compare_items-Returns (cons x nil) (p.1, tt)) actual
          (list_mode (cons x nil) (compare_second re_match (cons x nil)))
          (list_mode_alone x (compare_second re_match (cons x nil)) p.0)
    compare_all-Returns (list (cons x (cons c xs))) actual p =
        against-Returns (compare re_match (list (cons x (cons c xs))))
          (compare_items re_match (cons x (cons c xs)))
          (compare_items-Returns (cons x (cons c xs)) (p.1, (p.2, p.3))) actual
          (list_mode (cons x (cons c xs)) (compare_second re_match (cons x (cons c xs))))
          (list_mode-IsSound x (cons c xs) (compare_second re_match (cons x (cons c xs)))
            (λ v. compare_all-Returns c v p.0))
    compare_all-Returns (obj scenario) actual p =
        against-Returns (compare re_match (obj scenario)) (compare_fields re_match scenario)
          (compare_fields-Returns scenario p) actual any_item tt

    compare_map-Returns :
        (c : Value) → IsProperMap c → (actual : Fields) → Returns (compare_map re_match c actual)
    compare_map-Returns (list nil) p actual = refl
    compare_map-Returns (list (cons x xs)) p actual = compare_items-Returns (cons x xs) p actual
    compare_map-Returns (obj scenario) p actual = compare_fields-Returns scenario p actual
    compare_map-Returns _ p actual = refl

    compare_items-Returns :
        (xs : Items)
        → IsProperItems xs
        → (actual : Fields) → Returns (compare_items re_match xs actual)
    compare_items-Returns nil p actual = refl
    compare_items-Returns (cons x xs) p actual =
        or_else-Returns (compare_map re_match x actual) (compare_items re_match xs actual)
          (compare_map-Returns x p.0 actual) (compare_items-Returns xs p.1 actual)

    compare_fields-Returns :
        (fs : Fields)
        → IsProperFields fs
        → (actual : Fields) → Returns (compare_fields re_match fs actual)
    compare_fields-Returns end p actual = refl
    compare_fields-Returns (field k v fs) p actual =
        and_then-Returns (check_key k (compare_all re_match v) actual)
          (compare_fields re_match fs actual)
          (check_key-Returns (compare_all re_match v) (λ w. compare_all-Returns v w p.1) k actual
            p.0)
          (compare_fields-Returns fs p.2 actual)

-- A well-formed criterion is compared with any event without a panic: CompareAll returns a flag.
pub compare_all_total :
    (re_match : String → String → Bool) (criterion actual : Value)
    → IsProper criterion
    → (b : Bool) × (compare_all re_match criterion actual ≡ done b)
compare_all_total re_match criterion actual p =
    returned (compare_all re_match criterion actual)
      (compare_all-Returns re_match criterion actual p)
  where
    returned : (m : Outcome Bool) → Returns m → (b : Bool) × (m ≡ done b)
    returned (done b) h = (b, refl)
    returned (panic e) h = cc
