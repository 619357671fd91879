-- ===== src/Dipper/MapData/Getters.antt =====
-- The typed getters of mapUtils.go: the Must variants panic exactly where the others report false,
-- and return the same value elsewhere.
use honeydipper.Common.{◌≡◌, refl, Option, none, some, String, Bool, true, false}
use honeydipper.Common.Int.{pos}
use honeydipper.Outcome.{
  Outcome, done, panic, Fault, map_error, number_error, type_assertion, ◌>>=◌,
}
use honeydipper.Text.Number.{Atoi, number, syntax_error, range_error, atoi, parse_bool}
use honeydipper.Value.{Value, bool, int, int64, float, str}
use honeydipper.Dipper.MapData.{
  get_map_data, as_int, must_int, as_bool, must_bool, as_string, assert_string, number_of,
  must_number, flag_of, parsed_flag, get_map_data_int, must_get_map_data_int, get_map_data_bool,
  must_get_map_data_bool, get_map_data_str, must_get_map_data_str, must_get_map_data,
}

-- The value and the flag of a getter as the outcome of its Must variant.
abbrev pub Agrees {ℓ} : {A : Type ℓ} → A × Bool → Outcome A → Type ℓ
Agrees (a, true) r = r ≡ done a
Agrees (a, false) r = (f : Fault) × (r ≡ panic f)

parsed_number : (n : Atoi) → Agrees (number_of n) (must_number n)
parsed_number (number n) = refl
parsed_number syntax_error = (number_error, refl)
parsed_number (range_error n) = (number_error, refl)

parsed_bool : (o : Option Bool) → Agrees (flag_of o) (parsed_flag o)
parsed_bool (some b) = refl
parsed_bool none = (number_error, refl)

as_int-must_int : (v : Value) → Agrees (as_int v) (must_int v)
as_int-must_int (int n) = refl
as_int-must_int (int64 n) = refl
as_int-must_int (float b) = refl
as_int-must_int (str s) = parsed_number (atoi s)
as_int-must_int _ = (map_error, refl)

as_bool-must_bool : (v : Value) → Agrees (as_bool v) (must_bool v)
as_bool-must_bool (bool b) = refl
as_bool-must_bool (int n) = refl
as_bool-must_bool (float b) = refl
as_bool-must_bool (str s) = parsed_bool (parse_bool s)
as_bool-must_bool _ = (map_error, refl)

as_string-assert_string : (v : Value) → Agrees (as_string v) (assert_string v)
as_string-assert_string (str s) = refl
as_string-assert_string _ = (type_assertion, refl)

int_at :
    (o : Option Value)
    → Agrees
        (elim o [ none ↦ (pos 0, false) | some v ↦ as_int v ])
        (elim o [ none ↦ panic map_error | some v ↦ must_int v ])
int_at none = (map_error, refl)
int_at (some v) = as_int-must_int v

bool_at :
    (o : Option Value)
    → Agrees
        (elim o [ none ↦ (false, false) | some v ↦ as_bool v ])
        (elim o [ none ↦ panic map_error | some v ↦ must_bool v ])
bool_at none = (map_error, refl)
bool_at (some v) = as_bool-must_bool v

str_at :
    (o : Option Value)
    → Agrees
        (elim o [ none ↦ ("", false) | some v ↦ as_string v ])
        (elim o [ none ↦ panic map_error | some v ↦ done v ] >>= assert_string)
str_at none = (map_error, refl)
str_at (some v) = as_string-assert_string v

-- On every value and path, for texts, flags and numbers alike: where a getter reports true its Must
-- variant returns the same value, and where it reports false the Must variant panics.
pub getters_agree :
    (v : Value) (path : String)
    → Agrees (get_map_data_str v path) (must_get_map_data_str v path)
      × Agrees (get_map_data_bool v path) (must_get_map_data_bool v path)
      × Agrees (get_map_data_int v path) (must_get_map_data_int v path)
unfolding get_map_data_str must_get_map_data_str must_get_map_data get_map_data_bool
    must_get_map_data_bool get_map_data_int must_get_map_data_int
getters_agree v path = let o = get_map_data v path in (str_at o, bool_at o, int_at o)
