-- ===== src/Workflow/Calls.antt =====
-- internal/workflow/execute.go: the calls of functions and what they need of the session.
use Prim.Native.String.{◌++◌ as str_append}
use honeydipper.Common.{Option, none, some, List, [], ◌∷◌, String, if◌then◌else◌}
use honeydipper.Common.Assoc.{insert, delete}
use honeydipper.Outcome.{
  Outcome, done, panic, workflow_error, type_assertion, index_out_of_range, ◌>>=◌,
}
use honeydipper.Text.{is_empty}
use honeydipper.Value.{Value, null, str, list, obj, Items, nil, cons, Fields, end, field, get, put}
use honeydipper.Dipper.MapData.{get_map_data_str}
use honeydipper.Workflow.Types.{Session, Function, Message, Env, or_end, build_env_data}
use honeydipper.Workflow.Hooks.{no_function}

-- A config.Function in a payload, by its exported fields.
abbrev pub function_value : Function → Value
function_value f = obj (
    field "Driver" (str f.driver) (
      field "RawAction" (str f.raw_action) (
        field "Parameters" (obj (or_end f.parameters)) (
          field "Target"
            (obj
              (field "System" (str f.target_system) (field "Function" (str f.target_function) end)))
            end))))

-- The labels of a command: those of the message but its result, and the session to return to.
abbrev pub command_labels : Session → Message → List (String × String)
command_labels w msg =
    insert "sessionID" w.id (delete "performing" (delete "reason" (delete "status" msg.labels)))

abbrev pub command : Function → Session → Message → Message
command f w msg = record {
  channel = "eventbus";
  subject = "command";
  labels = command_labels w msg;
  payload = obj (put "function" (function_value f) (build_env_data w msg));
}

-- The two names of a function in short hand, around the first point; a name without one panics.
abbrev pub rejoin : List String → String
rejoin [] = ""
rejoin (s ∷ []) = s
rejoin (s ∷ t ∷ ts) = str_append s (str_append "." (rejoin (t ∷ ts)))

abbrev pub after_first : List String → Outcome (String × String)
after_first (s ∷ t ∷ ts) = done (s, rejoin (t ∷ ts))
after_first _ = panic index_out_of_range

abbrev pub first_two : List String → Outcome (String × String)
first_two (s ∷ t ∷ ts) = done (s, t)
first_two _ = panic index_out_of_range

abbrev pub driver_call : String → String → Option Fields → Function
driver_call name action parameters = record no_function {
  driver = name;
  raw_action = action;
  parameters = parameters;
}

abbrev pub system_call : String → String → Function
system_call system name = record no_function { target_system = system; target_function = name }

abbrev pub assert_map : Value → Outcome Fields
assert_map (obj fs) = done fs
assert_map _ = panic type_assertion

abbrev pub as_token : Option Value → Outcome String
as_token (some (str s)) = if is_empty s then panic workflow_error else done s
as_token _ = panic workflow_error

-- The message of a timer that runs out.
abbrev pub timeout_message : String → Option Fields → Message
timeout_message token ctx =
    let given_status = (get_map_data_str (obj (or_end ctx)) "timeout_status").0 in
    let bare = is_empty given_status in
    record {
      channel = "";
      subject = "";
      labels = [];
      payload = obj (
          field "key" (str token) (
            field "labels"
              (obj (
                field "status" (str (if bare then "success" else given_status))
                  (field "reason" (str (if bare then "" else "timeout")) end)))
              (field "payload"
                (elim (get "return_on_timeout" (or_end ctx)) [ none ↦ null | some v ↦ v ]) end)));
    }

module _ (env : Env) where
  -- `dipper.Interpolate(value, envData).(map[string]any)`
  abbrev interpolated_map : Value → Fields → Outcome Fields
  interpolated_map v env_data = do r ← env.interpolate v env_data; assert_map r

  -- The layers of the locals are merged one over the other, with the same data for each of them.
  unfoldable pub merge_layers : Items → Fields → Option Fields → Outcome (Option Fields)
  merge_layers nil env_data locals = done locals
  merge_layers (cons layer layers) env_data locals = do
    delta ← interpolated_map layer env_data
    merged ← env.merge_map locals (obj delta)
    merge_layers layers env_data merged

  unfoldable pub driver_locals : Value → Fields → Outcome (Option Fields)
  unfolding merge_layers
  driver_locals null env_data = done none
  driver_locals (list layers) env_data = merge_layers layers env_data none
  driver_locals v env_data = do fs ← interpolated_map v env_data; done (some fs)

  -- interpolateFunction
  unfoldable pub interpolate_function : Function → Fields → Outcome Function
  interpolate_function f env_data = do
    system ← env.interpolate_str f.target_system env_data
    name ← env.interpolate_str f.target_function env_data
    done (record f { target_system = system; target_function = name })
