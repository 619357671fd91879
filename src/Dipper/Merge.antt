-- ===== src/Dipper/Merge.antt =====
-- pkg/dipper/mapUtils.go: CombineMap, mergeModifier and MergeMap. A `range` over a map that the body
-- changes visits the keys that were there at the start, in the order of the list, and reads each
-- entry when it comes to it; keys that the body adds are not visited, which Go allows.
pub mod Fuel
pub mod Plain
pub mod Visits
use Prim.Native.String.{◌++◌ as str_append}
use honeydipper.Common.{
  ℕ, zero, suc, Bool, true, false, Option, none, some, List, [], ◌∷◌, String, ◌==◌, if◌then◌else◌,
}
use honeydipper.Outcome.{
  Outcome, done, panic, index_out_of_range, type_assertion, reflect_misuse, out_of_fuel,
  merge_failed, ◌>>=◌,
}
use honeydipper.Text.{last_code, drop_last}
use honeydipper.Value.{
  Value, null, bool, int, int64, float, str, regex, list, obj, Items, Fields, end, field, get, put,
  remove, keys, append_items, depth_fields,
}

-- ev, ok := dst[k]; !ok || ev == nil
abbrev pub is_unset : Option Value → Bool
is_unset none = true
is_unset (some null) = true
is_unset (some v) = false

-- The body of the first loop, for a key that ends in `-`.
unfoldable pub set_default : String → Value → Fields → Fields
set_default k v dst =
    let base = drop_last k in remove k (if is_unset (get base dst) then put base v dst else dst)

-- One round of the first loop: the default values.
unfoldable pub default_step : String → Fields → Outcome Fields
unfolding set_default
default_step k dst = elim (get k dst) [
  | none ↦ done dst
  | some v ↦ elim (last_code k) [
    | none ↦ panic index_out_of_range
    | some c ↦ done (if c == b'-' then set_default k v dst else dst)
  ]
]

unfoldable pub for_keys : (String → Fields → Outcome Fields) → List String → Fields → Outcome Fields
for_keys body [] dst = done dst
for_keys body (k ∷ ks) dst = do dst' ← body k dst; for_keys body ks dst'

-- What stands under the key already is joined with a text, kept on nil, and otherwise appended to
-- by reflect.AppendSlice, which wants two slices.
abbrev pub append_value : Value → Value → Outcome Value
append_value (str e) (str s) = done (str (str_append e s))
append_value ev (str s) = panic type_assertion
append_value ev null = done ev
append_value (list xs) (list ys) = done (list (append_items xs ys))
append_value ev v = panic reflect_misuse

abbrev pub appended : Option Value → Value → Outcome Value
appended none v = done v
appended (some null) v = done v
appended (some ev) v = append_value ev v

abbrev append_step : String → Value → Fields → Outcome Fields
append_step k v dst =
    let base = drop_last k in
    do joined ← appended (get base dst) v; done (remove k (put base joined dst))

-- A nested map is changed in place.
abbrev nested_step : (Fields → Outcome Fields) → String → Value → Fields → Outcome Fields
nested_step rec k (obj vmap) dst = do vmap' ← rec vmap; done (put k (obj vmap') dst)
nested_step rec k v dst = done dst

abbrev modify : (Fields → Outcome Fields) → ℕ → String → Value → Fields → Outcome Fields
modify rec c k v dst =
    if c == b'+'
    then append_step k v dst
    else if c == b'*'
    then done (remove k (put (drop_last k) v dst))
    else nested_step rec k v dst

-- One round of the second loop: append, override, or go into the nested map.
unfoldable pub modify_step : (Fields → Outcome Fields) → String → Fields → Outcome Fields
modify_step rec k dst = elim (get k dst) [
  | none ↦ done dst
  | some v ↦ elim (last_code k) [ none ↦ panic index_out_of_range | some c ↦ modify rec c k v dst ]
]

-- The two loops of mergeModifier, over the recursion into nested maps.
unfoldable pub merge_round : (Fields → Outcome Fields) → Fields → Outcome Fields
unfolding for_keys default_step modify_step
merge_round rec dst = do
  dst' ← for_keys default_step (keys dst) dst
  for_keys (modify_step rec) (keys dst') dst'

unfoldable pub merge_modifier : ℕ → Fields → Outcome Fields
unfolding merge_round
merge_modifier zero dst = panic out_of_fuel
merge_modifier (suc f) dst = merge_round (merge_modifier f) dst

-- mergo.Merge with WithOverride is a parameter; so are the errors that it returns.
module _ (merge : Fields → Value → Outcome Fields) where
  -- CombineMap: none is the nil map.
  unfoldable pub combine_map : Option Fields → Value → Outcome (Option Fields)
  combine_map dst null = done dst
  combine_map none src = do dst' ← merge end src; done (some dst')
  combine_map (some dst) src = do dst' ← merge dst src; done (some dst')

  -- A range over the nil map does nothing. The fuel is the depth of the maps.
  abbrev pub modify_map : Option Fields → Outcome (Option Fields)
  modify_map none = done none
  modify_map (some dst) = do dst' ← merge_modifier (suc (depth_fields dst)) dst; done (some dst')

  -- MergeMap
  unfoldable pub merge_map : Option Fields → Value → Outcome (Option Fields)
  unfolding combine_map merge_modifier
  merge_map dst src = do dst' ← combine_map dst src; modify_map dst'
