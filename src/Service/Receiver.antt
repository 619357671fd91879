-- ===== src/Service/Receiver.antt =====
-- internal/service/receiver.go: which events the drivers are told to look for, and where messages go.
use Prim.Native.String.{◌++◌ as str_append}
use honeydipper.Common.{ℕ, ◌&&◌, Option, none, some, List, [], ◌∷◌, String, str_eq, if◌then◌else◌}
use honeydipper.Common.Assoc.{Assoc, lookup, insert}
use honeydipper.Common.Groups.{add_to}
use honeydipper.Text.{is_empty}
use honeydipper.Outcome.{Outcome, done, panic}
use honeydipper.Value.{Value, Fields}
use honeydipper.Config.{Trigger, Rule, DataSet}
use honeydipper.Config.Collapse.{CollapsedTrigger, collapse_trigger}
use honeydipper.Service.Rules.{is_hang}

-- dynamicData[feature]["collapsedEvents"][event]
abbrev pub Wanted : Type 0
Wanted = Assoc (Assoc (List CollapsedTrigger))

-- eventName
unfoldable pub event_name : Trigger → String
event_name t =
    if is_empty t.driver
    then str_append (t.source).system (str_append "." (t.source).trigger)
    else str_append "_." (str_append t.driver (str_append ":" t.raw_event))

abbrev pub events_of : Option (Assoc (List CollapsedTrigger)) → Assoc (List CollapsedTrigger)
events_of none = []
events_of (some events) = events

unfoldable pub add_event : String → String → CollapsedTrigger → Wanted → Wanted
add_event feature event t wanted =
    insert feature (add_to event t (events_of (lookup feature wanted))) wanted

-- receiverRoute: the feature that gets the message.
unfoldable pub receiver_route : String → String → List String
receiver_route channel subject =
    if str_eq channel "eventbus" && str_eq subject "message" then "eventbus" ∷ [] else []

module _ (merge : Fields → Value → Outcome Fields) (interpolate : Value → Fields → Outcome Value)
    (fuel : ℕ) (c : DataSet) where
  -- One rule: a panic skips it; none means that its sources go round for ever.
  unfoldable pub want_rule : Outcome (Trigger × CollapsedTrigger) → Trigger → Wanted → Option Wanted
  want_rule (done (raw, collapsed)) on_event wanted =
      some (add_event (str_append "driver:" raw.driver) (event_name on_event) collapsed wanted)
  want_rule (panic e) on_event wanted = if is_hang e then none else some wanted

  -- ReceiverFeatures
  unfoldable pub receiver_features : List Rule → Wanted → Option Wanted
  receiver_features [] wanted = some wanted
  receiver_features (rule ∷ rules) wanted =
      elim (want_rule (collapse_trigger merge interpolate fuel c rule.on_event) rule.on_event
        wanted) [ none ↦ none | some next ↦ receiver_features rules next ]
