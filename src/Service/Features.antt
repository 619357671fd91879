-- ===== src/Service/Features.antt =====
-- internal/service/service.go: loading a feature, hot and cold, and what a crash leaves.
use Prim.Native.String.{◌++◌ as str_append}
use honeydipper.Common.{
  ℕ, ◌+◌, Bool, true, false, ◌&&◌, Option, none, some, List, ◌∷◌, String, str_eq, if◌then◌else◌,
  not, ◌==◌,
}
use honeydipper.Common.Assoc.{Assoc, lookup, insert, delete}
use honeydipper.Text.{drop}
use honeydipper.Text.Search.{starts_with}
use honeydipper.Outcome.{Outcome, Fault, done, panic, ◌>>=◌, type_assertion, workflow_error}
use honeydipper.Value.{Value, null, obj, Fields}
use honeydipper.Dipper.MapData.{get_map_data, get_map_data_str}
use honeydipper.Service.Drivers.{
  State, reloading, crashed, is_crashed, Meta, Runtime, with_state, new_driver,
}

-- What a service does to its drivers: it starts a process, sends it its options, or closes it after
-- the time for the rest of its data.
pub data Effect : Type 0 where
  process_started options_sent closed_later : ℕ → Effect

-- Service, as far as its drivers go: driverRuntimes, dynamicFeatureData, and whether it is one of
-- daemon.Emitters. The next address is the model's.
pub record Service : Type 0 where
  pub name : String
  pub runtimes : Assoc Runtime
  pub dynamic_data : Assoc Value
  pub emitting : Bool
  pub next : ℕ
  pub effects : List Effect

-- GetStagedDriverData
unfoldable pub staged_data : Option Fields → String → Option Value
staged_data none path = none
staged_data (some drivers) path = get_map_data (obj drivers) path

-- GetStagedDriverDataStr: none when the path has no text.
abbrev text_or_none : String × Bool → Option String
text_or_none (s, true) = some s
text_or_none (s, false) = none

unfoldable pub staged_text : Option Fields → String → Option String
staged_text none path = none
staged_text (some drivers) path = text_or_none (get_map_data_str (obj drivers) path)

abbrev or_null : Option Value → Value
or_null none = null
or_null (some v) = v

-- The name of the driver for a feature.
mapped_name : Option String → Option String → Outcome String
mapped_name (some name) other = done name
mapped_name none (some name) = done name
mapped_name none none = panic workflow_error

unfoldable pub driver_name : Option Fields → String → String → Outcome String
unfolding mapped_name
driver_name staged service feature =
    if starts_with feature "driver:"
    then done (drop 7 feature)
    else mapped_name
        (staged_text staged
          (str_append "daemon.featureMap." (str_append service (str_append "." feature))))
        (staged_text staged (str_append "daemon.featureMap.global." feature))

-- What loadFeature returns, with the service afterwards. The error is the panic it has recovered.
pub record Loaded : Type 0 where
  pub service : Service
  pub affected : Bool
  pub driver : String
  pub error : Option Fault

-- s.driverRuntimes[feature] gets another state, when it is there.
unfoldable pub set_state : String → State → Service → Service
set_state feature state s = elim (lookup feature s.runtimes) [
  | none ↦ s
  | some r ↦ record s { runtimes = insert feature (with_state state r) s.runtimes }
]

-- Comparing by address, as `==` on pointers does.
abbrev pub same_runtime : Runtime → Runtime → Bool
same_runtime a b = a.address == b.address

-- d.State = ..., through a pointer to a runtime that may no longer be in the map.
unfoldable pub set_state_of : Runtime → State → Service → Service
set_state_of r state s = elim (lookup r.feature s.runtimes) [
  | none ↦ s
  | some old ↦ if same_runtime r old then set_state r.feature state s else s
]

-- checkDeleteDriverRuntime: a nil check is a nil pointer in an interface, which is not nil, so it
-- equals no runtime and nothing is deleted.
unfoldable pub check_delete : String → Option Runtime → Service → Service
check_delete feature none s = s
check_delete feature (some r) s = elim (lookup feature s.runtimes) [
  | none ↦ s
  | some old ↦ if same_runtime r old then record s { runtimes = delete feature s.runtimes } else s
]

abbrev log : Effect → Service → Service
log e s = record s { effects = e ∷ s.effects }

-- The deferred function of loadFeature.
unfoldable pub load_failed : String → Bool → String → Fault → Service → Loaded
load_failed feature affected driver e s = record {
  service = set_state feature crashed s;
  affected = affected;
  driver = driver;
  error = some e;
}

unfoldable pub loaded : String → Bool → Service → Loaded
loaded driver affected s = record {
  service = s;
  affected = affected;
  driver = driver;
  error = none;
}

-- hotReload: the running driver gets the new data.
unfoldable pub refreshed : Runtime → Runtime → Runtime
refreshed fresh old = record old {
  content = fresh.content;
  dynamic = fresh.dynamic;
  state = reloading;
}

-- The emitter is being replaced, and the old process closes.
unfoldable pub replaced : String → Option Runtime → Service → Service
replaced feature none s = s
replaced feature (some old) s =
    let checked = check_delete feature none s in
    let silenced =
      if str_eq feature "emitter" then record checked { emitting = false } else checked in
    log (closed_later old.address) silenced

-- Whether a process can be started and messages sent to it, reflect.DeepEqual on data and on metas,
-- and the functions that NewDriver takes.
module _ (starts : Meta → Bool) (sends : Meta → Bool) (equal : Value → Value → Bool)
    (equal_meta : Meta → Meta → Bool) (show : Value → String) (join : String → String)
    (decode : Value → Option Meta) (staged : Option Fields) where
  meta_map : Option Value → Outcome Value
  meta_map (some (obj fs)) = done (obj fs)
  meta_map (some v) = panic type_assertion
  meta_map none = panic workflow_error

  dynamic_for : Service → String → Value
  dynamic_for s feature =
      if starts_with feature "driver:" then or_null (lookup feature s.dynamic_data) else null

  -- The driver as the staged configuration has it.
  unfoldable pub plan : Service → String → Outcome (String × Runtime)
  unfolding meta_map dynamic_for
  plan s feature = do
    name ← driver_name staged s.name feature
    meta ← meta_map (staged_data staged (str_append "daemon.drivers." name))
    fresh ←
        new_driver show join decode s.next feature meta (or_null (staged_data staged name))
          (dynamic_for s feature)
    done (name, fresh)

  unfoldable pub hot_reload : String → String → Runtime → Runtime → Service → Loaded
  unfolding loaded refreshed
  hot_reload feature driver fresh old s =
      let changed = record s { runtimes = insert feature (refreshed fresh old) s.runtimes } in
      if sends old.details
      then loaded driver true (log (options_sent old.address) changed)
      else load_failed feature true driver workflow_error changed

  -- coldReload: a new process.
  unfoldable pub cold_reload : String → String → Runtime → Option Runtime → Service → Loaded
  unfolding loaded replaced
  cold_reload feature driver fresh old s =
      if starts fresh.details && sends fresh.details
      then loaded driver true (
          replaced feature old (
            log (options_sent fresh.address) (
              log (process_started fresh.address)
                (record s { runtimes = insert feature fresh s.runtimes; next = s.next + 1 }))))
      else load_failed feature true driver workflow_error s

  -- The driver is running, and its Meta has not changed.
  unfoldable pub keeps_running : Runtime → Runtime → Bool
  keeps_running fresh old = not (is_crashed old.state) && equal_meta old.details fresh.details

  unfoldable pub reload_old : String → String → Runtime → Runtime → Service → Loaded
  unfolding keeps_running loaded
  reload_old feature driver fresh old s =
      if keeps_running fresh old
      then (if equal old.content fresh.content && equal old.dynamic fresh.dynamic
          then loaded driver false s
          else hot_reload feature driver fresh old s)
      else cold_reload feature driver fresh (some old) s

  unfoldable pub install : String → String → Runtime → Option Runtime → Service → Loaded
  install feature driver fresh none s = cold_reload feature driver fresh none s
  install feature driver fresh (some old) s = reload_old feature driver fresh old s

  -- loadFeature
  unfoldable pub load_feature : String → Service → Loaded
  unfolding install
  load_feature feature s = elim (plan s feature) [
    | panic e ↦ load_failed feature false "" e s
    | done (driver, fresh) ↦ install feature driver fresh (lookup feature s.runtimes) s
  ]

-- The goroutine of coldReload, when the process has ended.
unfoldable pub process_ended : Runtime → Service → Service
process_ended r s = check_delete r.feature (some r) s
