-- ===== src/Workflow/Exports/Hidden.antt =====
-- Which entries processNoExport takes away.
use Prim.Native.String.{◌++◌ as str_append}
use honeydipper.Common.{
  Bool, true, false, ◌||◌, Option, none, List, [], ◌∷◌, String, str_eq, if◌then◌else◌, ◌≡◌, refl,
  contains, Bool-cases, inl, inr, any, arith,
}
use honeydipper.Value.{Value, Fields, get, remove}
use honeydipper.Value.Laws.{get-remove}
use honeydipper.Workflow.Exports.{process_no_export}

-- The key itself, and the two forms of it that mergeModifier reads.
abbrev pub names_key : String → String → Bool
names_key key k = str_eq k key || str_eq (str_append k "-") key || str_eq (str_append k "+") key

abbrev pub is_hidden : List String → String → Bool
is_hidden ks key = contains ks "*" || any (names_key key) ks

three :
    (a b c : Bool) (v : Option Value)
    → (if c then none else if b then none else if a then none else v)
      ≡ (if a || b || c then none else v)
three true true c v = ground arith
three true false c v = ground arith
three false true c v = ground arith
three false false c v = refl

two :
    (a b c : Bool) (v : Option Value)
    → (if a || c then none else if b then none else v) ≡ (if a || (b || c) then none else v)
two true b c v = refl
two false true c v = ground arith
two false false c v = ground arith

remove_forms :
    (k key : String) (fs : Fields)
    → get key (remove (str_append k "+") (remove (str_append k "-") (remove k fs)))
      ≡ (if names_key key k then none else get key fs)
remove_forms k key fs =
    rw (get-remove, get-remove, get-remove)
      (three (str_eq k key) (str_eq (str_append k "-") key) (str_eq (str_append k "+") key)
        (get key fs))

-- A key is gone from an export when the list holds `*`, or the key itself, or the key without the
-- `-` or `+` at its end; every other key keeps its value.
pub get-process_no_export :
    (ks : List String) (key : String) (fs : Fields)
    → get key (process_no_export ks fs) ≡ (if is_hidden ks key then none else get key fs)
unfolding process_no_export get
get-process_no_export [] key fs = refl
get-process_no_export (k ∷ ks) key fs = elim (Bool-cases (str_eq k "*")) [
  | inl e ↦ rw e refl
  | inr e ↦
      rw (e, get-process_no_export ks key, remove_forms k key fs)
        (two (contains ks "*") (names_key key k) (any (names_key key) ks) (get key fs))
]
