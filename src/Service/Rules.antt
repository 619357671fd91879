-- ===== src/Service/Rules.antt =====
-- internal/service/engine.go: the rules by the raw events that concern them, and the sessions that an
-- event starts.
use Prim.Native.String.{◌++◌ as str_append}
use honeydipper.Common.{
  ℕ, Bool, true, false, Option, none, some, List, [], ◌∷◌, ◌++◌, String, if◌then◌else◌,
}
use honeydipper.Common.Assoc.{Assoc, lookup}
use honeydipper.Common.Groups.{or_nil, add_to}
use honeydipper.Text.{is_empty}
use honeydipper.Outcome.{Outcome, Fault, done, panic, ◌>>=◌, type_assertion, out_of_fuel}
use honeydipper.Value.{Value, null, str, list, obj, Items, nil, cons, Fields, field, end}
use honeydipper.Workflow.Types.{Workflow}
use honeydipper.Dipper.MapData.{get_map_data}
use honeydipper.Dipper.Condition.{compare_all, regex_parser}
use honeydipper.Dipper.Recursive.{recursive}
use honeydipper.Config.{Event, Rule, DataSet, as_value}
use honeydipper.Config.Collapse.{CollapsedTrigger, collapse_trigger, export_context}

-- CollapsedRule
pub record CollapsedRule : Type 0 where
  pub trigger : CollapsedTrigger
  pub original : Rule

abbrev as_map : Value → Option Fields
as_map (obj fs) = some fs
as_map _ = none

abbrev pub is_hang : Fault → Bool
is_hang out_of_fuel = true
is_hang _ = false

module _ (merge : Fields → Value → Outcome Fields) (interpolate : Value → Fields → Outcome Value)
    (compiles : String → Bool) (fuel : ℕ) (c : DataSet) where
  -- The key and the entry of one rule.
  unfoldable pub rule_entry : Rule → Outcome (String × CollapsedRule)
  rule_entry rule = do
    (raw, collapsed) ← collapse_trigger merge interpolate fuel c rule.on_event
    parsed ← recursive (λ path v. done (regex_parser compiles v)) (as_value collapsed.criteria)
    done (
      str_append raw.driver (str_append "." raw.raw_event),
      record { trigger = record collapsed { criteria = as_map parsed }; original = rule },
    )

  -- A rule that panics is skipped; one whose sources go round is never done with.
  unfoldable pub add_rule :
      Outcome (String × CollapsedRule)
      → Assoc (List CollapsedRule)
      → Option (Assoc (List CollapsedRule))
  add_rule (done (key, r)) table = some (add_to key r table)
  add_rule (panic e) table = if is_hang e then none else some table

  -- buildRuleMap
  unfoldable pub build_rules :
      List Rule → Assoc (List CollapsedRule) → Option (Assoc (List CollapsedRule))
  build_rules [] table = some table
  build_rules (rule ∷ rules) table = elim (add_rule (rule_entry rule) table) [
    | none ↦ none
    | some next ↦ build_rules rules next
  ]

-- What createSessions starts, each in a goroutine: a workflow from the message, or the workflow of a
-- rule with the context that its trigger exports.
pub data Started : Type 0 where
  dynamic : Value → Started
  session : Workflow → Fields → Started

-- The sessions started, and the panic that has ended the handler, if any.
pub record Fired : Type 0 where
  pub started : List Started
  pub stopped : Option Fault

abbrev and_then : Outcome (List Started) → Fired → Fired
and_then (done xs) rest = record { started = xs ++ rest.started; stopped = rest.stopped }
and_then (panic e) rest = record { started = []; stopped = some e }

abbrev followed_by : Fired → Fired → Fired
followed_by first rest = elim first.stopped [
  | none ↦ record { started = first.started ++ rest.started; stopped = rest.stopped }
  | some e ↦ first
]

abbrev pub quiet : Fired
quiet = record { started = []; stopped = none }

abbrev or_null : Option Value → Value
or_null none = null
or_null (some v) = v

-- firedEvent
unfoldable pub fired_event : String → Event → String
fired_event event source =
    if is_empty source.system
    then str_append "driver:" event
    else str_append source.system (str_append "." source.trigger)

module _ (merge : Fields → Value → Outcome Fields) (interpolate : Value → Fields → Outcome Value)
    (re_match : String → String → Bool) where
  start_session : String → Value → CollapsedRule → Outcome (List Started)
  start_session event actual r = do
    ctx ←
        export_context merge interpolate r.trigger
          (fired_event event ((r.original).on_event).source) (field "event" actual end)
    done (session (r.original).action ctx ∷ [])

  unfoldable pub fire_rule : String → Value → CollapsedRule → Outcome (List Started)
  unfolding start_session
  fire_rule event actual r = do
    matched ← compare_all re_match (as_value (r.trigger).criteria) actual
    elim matched [ true ↦ start_session event actual r | false ↦ done [] ]

  unfoldable pub fire_rules : String → Value → List CollapsedRule → Fired
  fire_rules event actual [] = quiet
  fire_rules event actual (r ∷ rs) =
      and_then (fire_rule event actual r) (fire_rules event actual rs)

  -- The loop over the events, with the rules that are found for each.
  module _ (find : String → List CollapsedRule) where
    unfoldable pub fire_events : Items → Value → Fired
    fire_events nil actual = quiet
    fire_events (cons (str event) xs) actual =
        followed_by (fire_rules event actual (find event)) (fire_events xs actual)
    fire_events (cons _ xs) actual = record { started = []; stopped = some type_assertion }

    fire_payload : Option Value → Value → Fired
    fire_payload (some (list events)) actual = fire_events events actual
    fire_payload _ actual = record { started = []; stopped = some type_assertion }

    create_or_start : Option Value → Value → Fired
    create_or_start (some wf) payload = record { started = dynamic wf ∷ []; stopped = none }
    create_or_start none payload =
        fire_payload (get_map_data payload "events") (or_null (get_map_data payload "data"))

    unfoldable pub create_with : Value → Fired
    unfolding create_or_start fire_payload fire_events
    create_with payload = create_or_start (get_map_data payload "do") payload

  -- createSessions, on the payload and the map of the rules.
  unfoldable pub create_sessions : Assoc (List CollapsedRule) → Value → Fired
  create_sessions table payload = create_with (λ event. or_nil (lookup event table)) payload
