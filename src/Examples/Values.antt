-- ===== src/Examples/Values.antt =====
-- Deep maps: paths, getters, copies and merges.
use honeydipper.Common.{differ, ◌≡◌, refl, true, none, some, arith}
use honeydipper.Common.Int.{pos}
use honeydipper.Outcome.{done, panic, index_out_of_range}
use honeydipper.Text.Split.{split}
use honeydipper.Text.Number.{atoi}
use honeydipper.Value.{int, str, list, obj, nil, cons, Fields, end, field, get, depth, put, remove}
use honeydipper.Value.Laws.{AllKeys}
use honeydipper.Dipper.MapData.{
  walk, step, get_map_data, get_map_data_int, must_get_map_data_int, get_map_data_bool,
  must_get_map_data_bool, get_map_data_str, must_get_map_data_str,
}
use honeydipper.Dipper.MapData.Paths.{then_get, get_map_data-append}
use honeydipper.Dipper.MapData.Getters.{Agrees, getters_agree}
use honeydipper.Dipper.Copy.{deep_copy_map}
use honeydipper.Dipper.Copy.Faithful.{deep_copy_map-eq, IsMap, IsMapOption}
use honeydipper.Dipper.Merge.{merge_modifier}
use honeydipper.Dipper.Merge.Fuel.{Within, merge_modifier-Within}
use honeydipper.Dipper.Merge.Plain.{is_plain, merge_modifier-plain}

program : Unit {0}
unfolding get_map_data get_map_data_int walk split step get atoi merge_modifier put remove
program = tt

-- { event: { hosts: [ web, db ] }, count: "12" }
abbrev sample : Fields
sample =
    field "event" (obj (field "hosts" (list (cons (str "web") (cons (str "db") nil))) end))
      (field "count" (str "12") end)

path_found : get_map_data (obj sample) "event.hosts.1" ≡ some (str "db")
unfolding program
path_found = refl

path_out_of_range : get_map_data (obj sample) "event.hosts.2" ≡ none
unfolding program
path_out_of_range = refl

number_read : get_map_data_int (obj sample) "count" ≡ (pos 12, true)
unfolding program
number_read = refl

get_map_data-append_example :
    get_map_data (obj sample) "event.hosts.1"
    ≡ then_get (get_map_data (obj sample) "event") "hosts.1"
get_map_data-append_example = get_map_data-append (obj sample) "event" "hosts.1"

getters_agree_example :
    Agrees (get_map_data_str (obj sample) "count") (must_get_map_data_str (obj sample) "count")
    × Agrees (get_map_data_bool (obj sample) "count") (must_get_map_data_bool (obj sample) "count")
    × Agrees (get_map_data_int (obj sample) "count") (must_get_map_data_int (obj sample) "count")
getters_agree_example = getters_agree (obj sample) "count"

sample-IsMap : IsMapOption (some sample)
unfolding IsMap
sample-IsMap = ((differ "event" "count" refl, tt), (tt, (tt, (tt, tt)), tt), (tt, tt, tt))

deep_copy_map-eq_example : deep_copy_map (some sample) ≡ done (some sample)
deep_copy_map-eq_example = deep_copy_map-eq (some sample) sample-IsMap

-- { hosts: [ a ], hosts+: [ b ], mode-: fast, sub: { x*: 1 } }
abbrev layered : Fields
layered = field "hosts" (list (cons (str "a") nil)) (
    field "hosts+" (list (cons (str "b") nil))
      (field "mode-" (str "fast") (field "sub" (obj (field "x*" (int (pos 1)) end)) end)))

abbrev flat : Fields
flat =
    field "hosts" (list (cons (str "a") (cons (str "b") nil)))
      (field "sub" (obj (field "x" (int (pos 1)) end)) (field "mode" (str "fast") end))

layered-merged : merge_modifier 3 layered ≡ done flat
unfolding program
layered-merged = refl

-- A key that is a modifier and nothing else is a panic.
bare_modifier : merge_modifier 3 (field "-" (str "x") end) ≡ panic index_out_of_range
unfolding program
bare_modifier = refl

merge_modifier-Within_example : Within 1 (merge_modifier 3 layered)
unfolding depth
merge_modifier-Within_example = merge_modifier-Within 3 layered (omega arith)

merge_modifier-plain_example : AllKeys (λ k. is_plain k ≡ true) flat
merge_modifier-plain_example =
    merge_modifier-plain 3 layered flat (refl, (refl, (refl, (refl, tt)))) layered-merged
