-- ===== src/Service/Boot.antt =====
-- internal/service/service.go: which features a service has, loading them at the start and on a
-- reload, and what is expected of their drivers. How a feature is loaded is a parameter, which
-- load_feature fills.
use Prim.Native.String.{◌++◌ as str_append}
use honeydipper.Common.{
  ℕ, ◌+◌, Bool, true, false, ◌&&◌, Option, none, some, List, [], ◌∷◌, String, str_eq, if◌then◌else◌,
  ltb,
}
use honeydipper.Common.Assoc.{Assoc, insert, has}
use honeydipper.Common.Groups.{add_to}
use honeydipper.Outcome.{Outcome, done, panic, ◌>>=◌, type_assertion}
use honeydipper.Value.{Value, str, list, obj, Items, nil, cons, Fields, get}
use honeydipper.Dipper.MapData.{get_map_data_bool}
use honeydipper.Service.Drivers.{alive, crashed, Runtime}
use honeydipper.Service.Features.{
  closed_later, Service, Loaded, set_state, set_state_of, check_delete, staged_data,
}

-- feature.(map[string]interface{})["name"].(string)
name_in : Option Value → Outcome String
name_in (some (str s)) = done s
name_in _ = panic type_assertion

feature_name : Value → Outcome String
feature_name (obj fs) = name_in (get "name" fs)
feature_name _ = panic type_assertion

unfoldable pub add_features : Items → Assoc Bool → Outcome (Assoc Bool)
unfolding feature_name name_in
add_features nil features = done features
add_features (cons v vs) features = do
  name ← feature_name v
  add_features vs (insert name (get_map_data_bool v "required").0 features)

listed : Option Value → Assoc Bool → Outcome (Assoc Bool)
listed none features = done features
listed (some (list vs)) features = add_features vs features
listed (some v) features = panic type_assertion

-- getFeatureList: the features by name, with whether they are required. A list of the service
-- overrides the global one.
unfoldable pub feature_list : Option Fields → String → Outcome (Assoc Bool)
unfolding listed add_features
feature_list staged service = do
  common ← listed (staged_data staged "daemon.features.global") []
  listed (staged_data staged (str_append "daemon.features." service)) common

-- What is done when a driver has not reported in time: the process quits, the configuration goes
-- back to the last one, the driver counts as failed, or loading is tried again.
pub data Timeout : Type 0 where
  quit roll_back mark_crashed : Timeout
  try_again : Runtime → ℕ → Timeout

-- An entry of expects: the feature whose driver becomes alive.
pub record Expect : Type 0 where
  pub feature : String
  pub on_timeout : Timeout

-- A service with what it expects, by the key of the message; whether it is healthy; whether it has
-- asked for the last configuration; and whether it has ended the process.
pub record Node : Type 0 where
  pub service : Service
  pub expects : Assoc (List Expect)
  pub healthy : Bool
  pub rolled_back : Bool
  pub quitting : Bool
  pub retries : List (Runtime × ℕ)

-- addExpect: the timer of the entry is a later step.
unfoldable pub add_expect : String → Expect → Node → Node
add_expect key e n = record n { expects = add_to key e n.expects }

abbrev pub alive_key : String → String
alive_key driver = str_append "state:alive:" driver

-- The function that an expectation runs when the driver reports.
unfoldable pub report_alive : String → Node → Node
report_alive feature n =
    let s = set_state feature alive n.service in
    if has feature (n.service).runtimes && str_eq feature "emitter"
    then record n { service = record s { emitting = true } }
    else record n { service = s }

-- A pass over the features ends as it should, by ending the process, or in a panic.
pub data Pass : Type 0 where
  passed process_ended pass_failed : Node → Pass

abbrev then_pass : Pass → (Node → Pass) → Pass
then_pass (passed n) f = f n
then_pass (process_ended n) f = process_ended n
then_pass (pass_failed n) f = pass_failed n

expect_if : Bool → String → Expect → Node → Node
expect_if true driver e n = add_expect (alive_key driver) e n
expect_if false driver e n = n

-- The function `retry` of loadFailedDriverRuntime: three more attempts before the process ends.
unfoldable pub retry_driver : Runtime → ℕ → Node → Node
retry_driver d count n =
    if ltb count 3
    then record n { retries = (d, count + 1) ∷ n.retries }
    else record n { quitting = true }

module _ (load : String → Service → Loaded) where
  required_loaded : Bool → String → Node → Loaded → Pass
  required_loaded boot feature n r = elim r.error [
    | some e ↦
        if boot
        then process_ended (record n { service = r.service; quitting = true })
        else pass_failed (record n { service = r.service })
    | none ↦ passed (
        expect_if r.affected r.driver
          (record { feature = feature; on_timeout = if boot then quit else roll_back })
          (record n { service = r.service }))
  ]

  -- loadRequiredFeatures
  unfoldable pub load_required : Bool → Assoc Bool → Node → Pass
  unfolding required_loaded expect_if
  load_required boot [] n = passed n
  load_required boot ((feature, false) ∷ features) n = load_required boot features n
  load_required boot ((feature, true) ∷ features) n =
      then_pass (required_loaded boot feature n (load feature n.service))
        (load_required boot features)

  additional_loaded : String → Node → Loaded → Node
  additional_loaded feature n r =
      expect_if r.affected r.driver (record { feature = feature; on_timeout = mark_crashed })
        (record n { service = r.service })

  unfoldable pub load_optional : Assoc Bool → Node → Node
  unfolding additional_loaded expect_if
  load_optional [] n = n
  load_optional ((feature, true) ∷ features) n = load_optional features n
  load_optional ((feature, false) ∷ features) n =
      load_optional features (additional_loaded feature n (load feature n.service))

  -- featureList[name] = false for each discovered feature.
  unfoldable pub with_discovered : Assoc Value → Assoc Bool → Assoc Bool
  with_discovered [] features = features
  with_discovered ((name, v) ∷ found) features = with_discovered found (insert name false features)

  -- loadAdditionalFeatures: none when the service discovers no features.
  unfoldable pub load_additional : Option (Assoc Value) → Assoc Bool → Node → Node × Assoc Bool
  load_additional none features n = (load_optional features n, features)
  load_additional (some found) features n =
      let all = with_discovered found features in
      (load_optional all (record n { service = record (n.service) { dynamic_data = found } }), all)

  remove_unused_one : Assoc Bool → String → Runtime → Service → Service
  remove_unused_one features feature r s =
      if has feature features
      then s
      else (let silenced = if str_eq feature "emitter" then record s { emitting = false } else s in
          let checked = check_delete feature none silenced in
          record checked { effects = closed_later r.address ∷ checked.effects })

  -- removeUnusedFeatures
  unfoldable pub remove_unused : Assoc Bool → Assoc Runtime → Service → Service
  unfolding remove_unused_one
  remove_unused features [] s = s
  remove_unused features ((feature, r) ∷ rest) s =
      remove_unused features rest (remove_unused_one features feature r s)

  -- Reload, whose deferred function asks for the last configuration after a panic.
  finish_reload : Option (Assoc Value) → Assoc Bool → Node → Node
  finish_reload discovered features n =
      let (loaded, all) = load_additional discovered features n in
      record loaded {
        healthy = true;
        service = remove_unused all (loaded.service).runtimes loaded.service;
      }

  rejected : Node → Node
  rejected n = record n { healthy = false; rolled_back = true }

  after_required : Option (Assoc Value) → Assoc Bool → Pass → Node
  after_required discovered features (passed n) = finish_reload discovered features n
  after_required discovered features (process_ended n) = n
  after_required discovered features (pass_failed n) = rejected n

  unfoldable pub reload : Option Fields → Option (Assoc Value) → Node → Node
  unfolding after_required rejected finish_reload
  reload staged discovered n = elim (feature_list staged (n.service).name) [
    | panic e ↦ rejected n
    | done features ↦ after_required discovered features (load_required false features n)
  ]

  -- loadFailedDriverRuntime
  unfoldable pub load_failed_driver : Runtime → ℕ → Node → Node
  load_failed_driver d count n =
      let r = load d.feature (set_state_of d crashed n.service) in
      elim r.error [
        | some e ↦ retry_driver d count (record n { service = r.service })
        | none ↦
            add_expect (alive_key (d.details).name)
              (record { feature = d.feature; on_timeout = try_again d count })
              (record n { service = r.service })
      ]
