-- ===== src/Drivers/Webhook/Handler.antt =====
-- The options of the webhook driver and its handler of requests (drivers/cmd/webhook/main.go). The
-- map of the hooks is a list in the order of a `range` over it. Interpolation, the ID of an event,
-- JSON, regexp and HMAC are parameters.
use Prim.Native.String.{◌++◌ as str_append}
use honeydipper.Common.{
  ℕ, Bool, true, false, ◌&&◌, not, Option, none, some, [], String, str_eq, if◌then◌else◌,
}
use honeydipper.Common.Assoc.{Assoc, insert}
use honeydipper.Outcome.{Outcome, done, panic, ◌>>=◌, map_error, type_assertion}
use honeydipper.Text.{is_empty}
use honeydipper.Value.{Value, null, str, list, obj, Items, nil, cons, Fields, field, end, get}
use honeydipper.Dipper.Condition.{compare_all}
use honeydipper.Dipper.MapData.{get_map_data, get_map_data_str}
use honeydipper.Dipper.Message.{Bytes}
use honeydipper.Drivers.Webhook.{WebRequest, EventData, extract_web_request}
use honeydipper.Drivers.Webhook.Signature.{verify_systems}

-- hooks, sysMap and Addr.
pub record Hooks : Type 0 where
  pub hooks : Fields
  pub systems : Assoc Fields
  pub address : String

unfoldable pub as_map : Option Value → Outcome Fields
as_map (some (obj fs)) = done fs
as_map _ = panic type_assertion

-- sysMap[sys] = rule["sysData"]
add_system : Fields → Option Value → Assoc Fields → Outcome (Assoc Fields)
add_system rule none systems = done systems
add_system rule (some (str name)) systems = elim (is_empty name) [
  | true ↦ done systems
  | false ↦ do sys ← as_map (get "sysData" rule); done (insert name sys systems)
]
add_system rule (some v) systems = panic type_assertion

unfoldable pub add_rules : Items → Assoc Fields → Outcome (Assoc Fields)
unfolding add_system as_map
add_rules nil systems = done systems
add_rules (cons v vs) systems = do
  rule ← as_map (some v)
  systems' ← add_system rule (get "sysName" rule) systems
  add_rules vs systems'

abbrev pub as_items : Value → Outcome Items
as_items (list vs) = done vs
as_items _ = panic type_assertion

unfoldable pub add_hooks : Fields → Assoc Fields → Outcome (Assoc Fields)
add_hooks end systems = done systems
add_hooks (field event v hooks) systems = do
  rules ← as_items v
  systems' ← add_rules rules systems
  add_hooks hooks systems'

hooks_of : Option Value → Outcome Fields
hooks_of (some (obj hooks)) = done hooks
hooks_of _ = panic map_error

given_address : String × Bool → String
given_address (address, true) = address
given_address (address, false) = ":8080"

-- loadOptions: what is loaded, and whether the server stops so that it starts at the new address.
unfoldable pub load_options : Value → String → String → Outcome (Hooks × Bool)
unfolding hooks_of given_address
load_options options state old = do
  hooks ← hooks_of (get_map_data options "dynamicData.collapsedEvents")
  systems ← add_hooks hooks []
  let address = given_address (get_map_data_str options "data.Addr")
  done (
    record { hooks = hooks; systems = systems; address = address },
    str_eq state "alive" && not (str_eq address old),
  )

-- What the client gets, and the payload of the event that is emitted.
pub record Answer : Type 0 where
  pub code : ℕ
  pub content_type : String
  pub text : String
  pub emitted : Option Fields

abbrev pub plain : ℕ → String → Answer
plain code text = record { code = code; content_type = ""; text = text; emitted = none }

abbrev pub event_payload : EventData → Fields
event_payload e =
    field "events" (list (cons (str "webhook.") nil)) (field "data" (obj e.content) end)

abbrev pub condition : Option Value → Value
condition none = null
condition (some v) = v

unfoldable pub unless_matched : Option Fields → Outcome (Option Fields) → Outcome (Option Fields)
unless_matched (some rule) rest = done (some rule)
unless_matched none rest = rest

module _ (re_match : String → String → Bool) where
  -- The conditions of one hook, up to the first that accepts the event.
  unfoldable pub match_rules : Value → Items → Outcome (Option Fields)
  unfolding as_map
  match_rules event nil = done none
  match_rules event (cons v vs) = do
    accepts ← compare_all re_match (condition (get_map_data v "match")) event
    elim accepts [
      | true ↦ do rule ← as_map (some v); done (some rule)
      | false ↦ match_rules event vs
    ]

  unfoldable pub match_hooks : Value → Fields → Outcome (Option Fields)
  unfolding unless_matched
  match_hooks event end = done none
  match_hooks event (field name v hooks) = do
    rules ← as_items v
    found ← match_rules event rules
    unless_matched found (match_hooks event hooks)

module _ (interpolate_str : String → Fields → Outcome String) (event_id : String) where
  abbrev or_default : String → String
  or_default ctype = if is_empty ctype then "application/text" else ctype

  -- writeCustomizedResponse
  unfoldable pub customized : Fields → String → EventData → Outcome Answer
  customized rule template e = do
    text ← interpolate_str template (field "event" (obj e.content) end)
    done (record {
      code = 200;
      content_type = or_default (get_map_data_str (obj rule) "parameters.response_content_type").0;
      text = text;
      emitted = some (event_payload e);
    })

  unfoldable pub standard : Option Value → EventData → Answer
  standard (some (str s)) e = record {
    code = 200;
    content_type = "application/json";
    text = str_append "{\"eventID\": \"" (str_append event_id "\"}");
    emitted = some (event_payload e);
  }
  standard _ e = record {
    code = 200;
    content_type = "";
    text = "";
    emitted = some (event_payload e);
  }

  unfoldable pub by_template : Fields → String → EventData → Outcome Answer
  by_template rule template e = elim (is_empty template) [
    | true ↦ done (standard (get_map_data (obj e.content) "form.accept_uuid.0") e)
    | false ↦ customized rule template e
  ]

  -- The response after the event is emitted.
  unfoldable pub respond : Fields → EventData → Outcome Answer
  unfolding by_template standard
  respond rule e = by_template rule (get_map_data_str (obj rule) "parameters.response_payload").0 e

  -- Once the event is emitted, a panic of the response keeps it so.
  unfoldable pub recovered : EventData → Outcome Answer → Answer
  recovered e (done a) = a
  recovered e (panic f) = record (plain 500 "Internal server error\n") {
    emitted = some (event_payload e);
  }

  unfoldable pub after_match : EventData → Outcome (Option Fields) → Answer
  after_match e (panic f) = plain 500 "Internal server error\n"
  after_match e (done none) = plain 404 "404 page not found\n"
  after_match e (done (some rule)) = recovered e (respond rule e)

  module _ (re_match : String → String → Bool) (mac : Bytes → Bytes → Bytes)
      (bytes : String → Bytes) (unmarshal : Bytes → Option Fields) (now : ℕ) where
    unfoldable pub verified_event : Hooks → Outcome EventData → Answer
    verified_event h (panic f) = plain 500 "Internal server error\n"
    verified_event h (done e) = after_match e (match_hooks re_match (obj e.content) h.hooks)

    unfoldable pub extracted : Hooks → Outcome EventData → Answer
    extracted h (panic f) = plain 400 "Bad Request\n"
    extracted h (done e) = elim (str_eq e.address "/hz/alive") [
      | true ↦ plain 200 ""
      | false ↦ verified_event h (verify_systems mac bytes now h.systems e)
    ]

    -- hookHandler
    unfoldable pub hook_handler : Hooks → WebRequest → Answer
    unfolding extracted verified_event after_match recovered
    hook_handler h r = extracted h (extract_web_request unmarshal r)
