-- ===== src/Dipper/Interpolate.antt =====
-- pkg/dipper/interpolation.go: texts of the configuration that stand for values.
pub mod First
pub mod Defaults
use honeydipper.Common.{
  ℕ, zero, suc, Bool, true, false, ◌&&◌, Option, none, some, List, [], ◌∷◌, String, Char, code,
  ◌==◌, if◌then◌else◌,
}
use honeydipper.Outcome.{
  Outcome, done, panic, ◌>>=◌, out_of_fuel, interpolation_error, index_out_of_range,
}
use honeydipper.Text.{last_code, drop_last, drop, is_empty}
use honeydipper.Text.Split.{split}
use honeydipper.Text.Search.{contains, starts_with, Cut, cut_quote}
use honeydipper.Value.{
  Value, null, bool, int, int64, float, str, regex, list, obj, Fields, field, end, Items, cons, nil,
}
use honeydipper.Dipper.MapData.{get_map_data}

-- What executing a Go template leaves: the text in the buffer, or the argument of `return`.
pub data Rendered : Type 0 where
  buffer : String → Rendered
  returned : Value → Rendered

-- text/template with its functions (a failure is a panic), ParseYaml, fmt.Sprintf("%+v"), and the
-- data that the patterns refer to.
module _ (template : String → Value → Outcome Rendered) (parse_yaml : String → Outcome Value)
    (show : Value → String) (env : Value) where
  -- InterpolateGoTemplate with the delimiters {{ and }}
  unfoldable pub go_template : String → Outcome Rendered
  go_template pattern =
      if contains pattern "{{" then template pattern env else done (buffer pattern)

  -- A text that may be YAML, or begin with a backslash that protects it.
  unfoldable pub plain_text : String → Outcome Value
  plain_text s =
      if starts_with s ":yaml:"
      then parse_yaml (drop 6 s)
      else done (str (if starts_with s "\\" then drop 1 s else s))

  unfoldable pub from_rendered : Rendered → Outcome Value
  from_rendered (buffer s) = plain_text s
  from_rendered (returned (str s)) = plain_text s
  from_rendered (returned v) = done v

  -- The result of Interpolate as InterpolateStr returns it.
  unfoldable pub to_text : Value → String
  to_text null = ""
  to_text v = show v

  -- Interpolate on the strings that these functions meet on the way.
  module _ (rec : Value → Outcome Value) where
    -- InterpolateStr
    unfoldable pub interpolate_str : String → Outcome String
    interpolate_str pattern = do v ← rec (str pattern); done (to_text v)

    -- ret found under the key: what comes from sysData is interpolated once more.
    unfoldable pub found : String → Value → Outcome Value
    found key v = if starts_with key "sysData." then rec v else done v

    -- for _, key := range keys: none when no key has a value.
    unfoldable pub first_key : List String → Option (String × Value)
    first_key [] = none
    first_key (key ∷ keys) = elim (get_map_data env key) [
      | some v ↦ some (key, v)
      | none ↦ first_key keys
    ]

    unfoldable pub chosen : Option (String × Value) → Outcome Value → Outcome Value
    chosen (some (key, v)) otherwise = found key v
    chosen none otherwise = otherwise

    -- if parsed[quote-1] != ',' { ... }: the keys before the quote; none is the error.
    unfoldable pub keys_before : String → Option (List String)
    keys_before before = if is_empty before then some [] else elim (last_code before) [
      | none ↦ none
      | some c ↦ if c == b',' then some (split b',' (drop_last before)) else none
    ]

    -- parsed[quote+1 : len(parsed)-1], when the last character is the quote; a quote that is the last
    -- character itself makes the bounds of the slice invalid.
    unfoldable pub quoted : Char → String → Outcome Value
    quoted q String.[] = panic index_out_of_range
    quoted q (String.◌∷◌ c s) = elim (last_code (String.◌∷◌ c s)) [
      | none ↦ panic interpolation_error
      | some l ↦
          if l == code q then done (str (drop_last (String.◌∷◌ c s))) else panic interpolation_error
    ]

    unfoldable pub with_default : Cut → Option (List String) → Outcome Value
    with_default cut none = panic interpolation_error
    with_default cut (some keys) = chosen (first_key keys) (quoted cut.quote cut.rest)

    unfoldable pub no_value : Bool → Outcome Value
    no_value true = done null
    no_value false = panic interpolation_error

    unfoldable pub dollar_keys : Bool → String → Option Cut → Outcome Value
    dollar_keys true parsed (some cut) = panic interpolation_error
    dollar_keys false parsed (some cut) = with_default cut (keys_before cut.before)
    dollar_keys allow_null parsed none =
        chosen (first_key (split b',' parsed)) (no_value allow_null)

    unfoldable pub after_mark : Bool → String → Outcome Value
    after_mark allow_null pattern = do
      parsed ← interpolate_str pattern
      dollar_keys allow_null parsed (cut_quote parsed)

    -- InterpolateDollarStr, on what follows the dollar.
    unfoldable pub interpolate_dollar_str : String → Outcome Value
    unfolding after_mark dollar_keys no_value with_default quoted keys_before chosen found first_key
        interpolate_str to_text
    interpolate_dollar_str String.[] = panic index_out_of_range
    interpolate_dollar_str (String.◌∷◌ c s) =
        if code c == b'?' then after_mark true s else after_mark false (String.◌∷◌ c s)

    -- The case of a string in Interpolate.
    unfoldable pub interpolate_string : String → Outcome Value
    unfolding from_rendered
    interpolate_string v =
        if starts_with v "$"
        then interpolate_dollar_str (drop 1 v)
        else (go_template v >>= from_rendered)

    unfoldable mutual
      unfolding interpolate_string

      pub interpolate_value : Value → Outcome Value
      interpolate_value null = done null
      interpolate_value (bool b) = done (bool b)
      interpolate_value (int n) = done (int n)
      interpolate_value (int64 n) = done (int64 n)
      interpolate_value (float b) = done (float b)
      interpolate_value (str s) = interpolate_string s
      interpolate_value (regex s) = done (regex s)
      interpolate_value (list xs) = do ys ← interpolate_items xs; done (list ys)
      interpolate_value (obj fs) = do gs ← interpolate_fields fs; done (obj gs)

      pub interpolate_items : Items → Outcome Items
      interpolate_items nil = done nil
      interpolate_items (cons x xs) = do
        y ← interpolate_value x
        ys ← interpolate_items xs
        done (cons y ys)

      pub interpolate_fields : Fields → Outcome Fields
      interpolate_fields end = done end
      interpolate_fields (field k v fs) = do
        w ← interpolate_value v
        gs ← interpolate_fields fs
        done (field k w gs)

  -- Interpolate. The fuel bounds how often a text leads to another: once for the pattern after each
  -- dollar, and once for each value from sysData.
  unfoldable pub interpolate : ℕ → Value → Outcome Value
  unfolding interpolate_value
  interpolate zero v = panic out_of_fuel
  interpolate (suc f) v = interpolate_value (interpolate f) v
