-- ===== src/Examples/Services.antt =====
-- Loading a driver, and what an expectation does.
use honeydipper.Common.{
  String, none, str_eq, ◌&&◌, ◌∷◌, ◌≡◌, refl, true, false, Bool, some, Option, [],
}
use honeydipper.Common.Assoc.{lookup, insert}
use honeydipper.Text.Split.{split}
use honeydipper.Text.Search.{contains, starts_with}
use honeydipper.Outcome.{done, Outcome}
use honeydipper.Value.{Value, null, str, obj, Fields, field, end, get, put}
use honeydipper.Dipper.MapData.{get_map_data, get_map_data_str, walk, step}
use honeydipper.Service.Drivers.{Meta, Runtime, loading, new_driver, acquire, prepare, alive}
use honeydipper.Service.Features.{
  Service, staged_data, staged_text, driver_name, plan, load_feature, install, cold_reload,
  reload_old, hot_reload, loaded, Loaded,
}
use honeydipper.Service.Loads.{Result, load_feature-Result}

program : Unit {0}
unfolding lookup insert contains starts_with split get_map_data get_map_data_str walk step put get
    new_driver acquire prepare staged_data staged_text driver_name plan load_feature install
    cold_reload reload_old hot_reload loaded
program = tt

abbrev staged : Fields
staged =
    field "daemon"
      (obj (
        field "featureMap" (obj (field "global" (obj (field "locker" (str "redislock") end)) end)) (
          field "drivers" (obj (field "redislock" (obj (field "name" (str "redislock") end)) end))
            end)))
      end

abbrev details : Meta
details = record {
  name = "redislock";
  kind = "null";
  executable = "";
  arguments = [];
  handler_data = end;
}

abbrev decode : Value → Option Meta
decode v = some details

abbrev fresh : Runtime
fresh = record {
  address = 7;
  feature = "locker";
  content = null;
  dynamic = null;
  details = details;
  state = loading;
}

-- The driver runs already, with other data.
abbrev old : Value → Runtime
old v = record {
  address = 3;
  feature = "locker";
  content = v;
  dynamic = null;
  details = details;
  state = alive;
}

abbrev engine : Value → Service
engine v = record {
  name = "engine";
  runtimes = ("locker", old v) ∷ [];
  dynamic_data = [];
  emitting = false;
  next = 7;
  effects = [];
}

-- reflect.DeepEqual on what occurs here.
abbrev same_value : Value → Value → Bool
same_value null null = true
same_value (str a) (str b) = str_eq a b
same_value _ _ = false

abbrev same_meta : Meta → Meta → Bool
same_meta a b = str_eq a.name b.name && str_eq a.executable b.executable

module _ (v : Value) where
  abbrev plan_of : Outcome (String × Runtime)
  plan_of =
      plan (λ m. true) (λ m. true) same_value same_meta (λ w. "") (λ s. s) decode (some staged)
        (engine v) "locker"

  abbrev load : Loaded
  load =
      load_feature (λ m. true) (λ m. true) same_value same_meta (λ w. "") (λ s. s) decode
        (some staged) "locker" (engine v)

planned : plan_of (str "ttl") ≡ done ("redislock", fresh)
unfolding program
planned = refl

load_feature-Result_example :
    Result same_value same_meta "locker" (engine (str "ttl")) fresh (load (str "ttl"))
load_feature-Result_example =
    load_feature-Result (λ m. true) (λ m. true) same_value same_meta (λ w. "") (λ s. s) decode
      (some staged) "locker" (engine (str "ttl")) "redislock" fresh planned

-- Other data are sent to the running driver, and with the same data nothing happens.
hot_load : ((load (str "ttl")).affected ≡ true) × ((load (str "ttl")).error ≡ none)
unfolding program
hot_load = (refl, refl)

idle_load : ((load null).affected ≡ false) × ((load null).service ≡ engine null)
unfolding program
idle_load = (refl, refl)
