-- ===== src/Dipper/MapData.antt =====
-- pkg/dipper/mapUtils.go: reading a value by its path in a deep map.
pub mod Paths
pub mod Getters
use honeydipper.Common.{
  ℕ, zero, suc, Bool, true, false, ◌&&◌, Option, none, some, List, [], ◌∷◌, String, str_eq, not,
  if◌then◌else◌,
}
use honeydipper.Common.Int.{ℤ, pos, negsuc, is_zero}
use honeydipper.Outcome.{Outcome, done, panic, map_error, number_error, type_assertion, ◌>>=◌}
use honeydipper.Text.{codes, codes_eq, trim_space, to_lower}
use honeydipper.Text.Split.{split}
use honeydipper.Text.Number.{Atoi, number, syntax_error, range_error, atoi, parse_bool}
use honeydipper.Value.{
  Value, null, bool, int, int64, float, str, regex, list, obj, get, item_at, is_nonzero_float,
  trunc,
}
use mathlib.Core.List.{map}

-- An interface value that holds nil is no valid reflect.Value.
abbrev pub not_null : Value → Option Value
not_null null = none
not_null v = some v

abbrev pub at_index : Atoi → Value → Option Value
at_index (number (pos i)) (list xs) = item_at i xs
at_index _ _ = none

-- One component of the path.
unfoldable pub step : Value → String → Option Value
step (obj fs) component = get component fs
step (list xs) component = at_index (atoi component) (list xs)
step _ component = none

-- The loop of GetMapData.
unfoldable pub walk : Value → List String → Option Value
walk v [] = not_null v
walk v (c ∷ cs) = elim (step v c) [ none ↦ none | some w ↦ walk w cs ]

-- GetMapData: none stands for (nil, false).
unfoldable pub get_map_data : Value → String → Option Value
get_map_data from path = walk from (split b'.' path)

unfoldable pub must_get_map_data : Value → String → Outcome Value
must_get_map_data from path = elim (get_map_data from path) [
  | none ↦ panic map_error
  | some v ↦ done v
]

abbrev pub as_string : Value → String × Bool
as_string (str s) = (s, true)
as_string _ = ("", false)

unfoldable pub get_map_data_str : Value → String → String × Bool
get_map_data_str from path = elim (get_map_data from path) [
  | none ↦ ("", false)
  | some v ↦ as_string v
]

-- ret.(string)
abbrev pub assert_string : Value → Outcome String
assert_string (str s) = done s
assert_string _ = panic type_assertion

unfoldable pub must_get_map_data_str : Value → String → Outcome String
must_get_map_data_str from path = do v ← must_get_map_data from path; assert_string v

abbrev flag_of : Option Bool → Bool × Bool
flag_of (some b) = (b, true)
flag_of none = (false, false)

abbrev pub as_bool : Value → Bool × Bool
as_bool (bool b) = (b, true)
as_bool (int n) = (not (is_zero n), true)
as_bool (float b) = (is_nonzero_float b, true)
as_bool (str s) = flag_of (parse_bool s)
as_bool _ = (false, false)

unfoldable pub get_map_data_bool : Value → String → Bool × Bool
get_map_data_bool from path = elim (get_map_data from path) [
  | none ↦ (false, false)
  | some v ↦ as_bool v
]

abbrev parsed_flag : Option Bool → Outcome Bool
parsed_flag (some b) = done b
parsed_flag none = panic number_error

abbrev must_bool : Value → Outcome Bool
must_bool (bool b) = done b
must_bool (int n) = done (not (is_zero n))
must_bool (float b) = done (is_nonzero_float b)
must_bool (str s) = parsed_flag (parse_bool s)
must_bool _ = panic map_error

unfoldable pub must_get_map_data_bool : Value → String → Outcome Bool
must_get_map_data_bool from path = elim (get_map_data from path) [
  | none ↦ panic map_error
  | some v ↦ must_bool v
]

-- What Atoi leaves in the result beside its error is returned too.
abbrev number_of : Atoi → ℤ × Bool
number_of (number n) = (n, true)
number_of syntax_error = (pos 0, false)
number_of (range_error n) = (n, false)

abbrev pub as_int : Value → ℤ × Bool
as_int (int n) = (n, true)
as_int (int64 n) = (n, true)
as_int (float b) = (trunc b, true)
as_int (str s) = number_of (atoi s)
as_int _ = (pos 0, false)

unfoldable pub get_map_data_int : Value → String → ℤ × Bool
get_map_data_int from path = elim (get_map_data from path) [
  | none ↦ (pos 0, false)
  | some v ↦ as_int v
]

-- Must(strconv.Atoi(v))
abbrev pub must_number : Atoi → Outcome ℤ
must_number (number n) = done n
must_number _ = panic number_error

abbrev must_int : Value → Outcome ℤ
must_int (int n) = done n
must_int (int64 n) = done n
must_int (float b) = done (trunc b)
must_int (str s) = must_number (atoi s)
must_int _ = panic map_error

unfoldable pub must_get_map_data_int : Value → String → Outcome ℤ
must_get_map_data_int from path = elim (get_map_data from path) [
  | none ↦ panic map_error
  | some v ↦ must_int v
]

-- IsTruthy of condition.go: only true, and the text "true" whatever its case and the space around.
unfoldable pub is_truthy : Value → Bool
unfolding trim_space to_lower
is_truthy (str s) = codes_eq (map to_lower (trim_space (codes s))) (codes "true")
is_truthy (bool b) = b
is_truthy _ = false

unfoldable pub check_map_data : Value → String → Bool
check_map_data from path = elim (get_map_data from path) [ none ↦ false | some v ↦ is_truthy v ]
