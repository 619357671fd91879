-- ===== src/Workflow/Hooks.antt =====
-- internal/workflow/hooks.go: the hooks of a session, which run as child sessions.
use Prim.Native.String.{◌++◌ as str_append}
use honeydipper.Common.{false, Option, none, some, [], String, str_eq, if◌then◌else◌}
use honeydipper.Outcome.{Outcome, done, panic, hook_overlap, reflect_misuse}
use honeydipper.Text.{is_empty}
use honeydipper.Value.{Value, null, str, list, obj, Items, nil, cons, end}
use honeydipper.Dipper.MapData.{get_map_data, assert_string}
use honeydipper.Workflow.Types.{
  Session, Settings, Function, Workflow, workflow, Branches, unset, given, Workflows, also, stop,
  Message, Child, run_hook, or_end,
}
use honeydipper.Workflow.Handler.{Handler, self, update, perform, raise, lift, skip, ◌>>=◌, ◌>>◌}

abbrev pub no_function : Function
no_function = record {
  driver = "";
  raw_action = "";
  target_system = "";
  target_function = "";
  parameters = none;
}

-- config.Workflow{}
abbrev pub blank : Settings
blank = record {
  name = "";
  description = "";
  context = "";
  contexts = null;
  locals = null;
  if_match = null;
  unless_match = null;
  while_match = null;
  until_match = null;
  if_all = [];
  if_any = [];
  unless_any = [];
  unless_all = [];
  while_all = [];
  while_any = [];
  until_any = [];
  until_all = [];
  else_branch = null;
  iterate = null;
  iterate_parallel = null;
  iterate_pool = "";
  iterate_as = "";
  retry = "";
  backoff = "";
  on_error = "";
  on_failure = "";
  call_workflow = "";
  function = no_function;
  call_function = "";
  call_driver = "";
  wait = "";
  detach = false;
  switch = "";
  cases = end;
  default_branch = null;
  export_always = end;
  export_on_success = end;
  export_on_failure = end;
  export_on_error = end;
  no_export = [];
}

-- A child that is created and executed as it is.
abbrev pub plain_child : Workflow → Message → Child
plain_child flow msg = record {
  child_flow = flow;
  child_msg = msg;
  extra = end;
  drops_token = false;
}

abbrev add_thread : Outcome String → Outcome Workflows → Outcome Workflows
add_thread (done s) (done ws) =
    done (also (workflow (record blank { call_workflow = s }) unset unset) ws)
add_thread (panic e) r = panic e
add_thread (done s) (panic e) = panic e

-- The threads of a hook that names several workflows, each of which must be a text.
unfoldable pub hook_threads : Items → Outcome Workflows
hook_threads nil = done stop
hook_threads (cons v vs) = add_thread (assert_string v) (hook_threads vs)

abbrev threads_or_unset : Workflows → Branches
threads_or_unset stop = unset
threads_or_unset (also w ws) = given (also w ws)

abbrev hook_with : Outcome Workflows → Outcome Workflow
hook_with (done ws) =
    done (workflow (record blank { context = "_hooks" }) unset (threads_or_unset ws))
hook_with (panic e) = panic e

-- The workflow that a hook runs. What is neither a text nor a list has no usable length.
unfoldable pub hook_workflow : Value → Outcome Workflow
unfolding hook_threads
hook_workflow (str hook) =
    done (workflow (record blank { context = "_hooks"; call_workflow = hook }) unset unset)
hook_workflow (list xs) = hook_with (hook_threads xs)
hook_workflow (obj end) = hook_with (done stop)
hook_workflow _ = panic reflect_misuse

-- Creating a child session and executing it.
module _ (start : Child → Handler (Unit {0})) where
  -- executeHook
  unfoldable pub execute_hook : Message → Value → Handler (Unit {0})
  unfolding hook_workflow
  execute_hook msg block = do flow ← lift (hook_workflow block); start (plain_child flow msg)

  -- A session that has no ID yet is saved in a goroutine first.
  abbrev pub begin_hook : String → Message → Value → Handler (Unit {0})
  begin_hook name msg block = do
    w ← self
    update (λ u. record u { current_hook = name; saved_msg = some msg })
    if is_empty w.id then perform (run_hook w.address name msg block) else execute_hook msg block

  abbrev pub hook_block : String → Session → Option Value
  hook_block name w = get_map_data (obj (or_end w.ctx)) (str_append "hooks." name)

  -- fireHook: called again for the hook that runs, it clears it.
  unfoldable pub fire_hook : String → Message → Handler (Unit {0})
  unfolding execute_hook
  fire_hook name msg = do
    w ← self
    if is_empty w.current_hook
        then elim (hook_block name w) [ none ↦ skip | some block ↦ begin_hook name msg block ]
        else if str_eq w.current_hook name
        then update (λ u. record u { current_hook = "" })
        else raise hook_overlap
