-- ===== src/Workflow/Action.antt =====
-- internal/workflow/execute.go: the actions of a workflow, of which executeAction takes the first
-- one that is given. `again` is continueExec; `start` creates and executes a child session, and
-- `start_named` does so with the workflow of a name, which has to exist, and `detach_named` leaves
-- such a child to itself.
use Prim.Native.String.{◌++◌ as str_append}
use honeydipper.Common.{
  ℕ, ◌+◌, Bool, not, ◌&&◌, ◌||◌, Option, none, some, List, [], String, ◌==◌, if◌then◌else◌,
}
use honeydipper.Common.Int.{pos}
use honeydipper.Outcome.{index_out_of_range}
use honeydipper.Text.{is_empty}
use honeydipper.Text.Split.{split}
use honeydipper.Value.{Value, int, str, Fields, end, field, get, is_null}
use honeydipper.Workflow.Types.{
  Settings, Function, Workflow, Workflows, unset, given, also, stop, Message, Env, Child, settings,
  steps_of, threads_of, branch_at, is_set, run_thread, send_message, build_env_data,
}
use honeydipper.Workflow.Handler.{
  Handler, self, update, perform, lift, skip, raise, when, ◌>>=◌, ◌>>◌,
}
use honeydipper.Workflow.Predicates.{is_function}
use honeydipper.Workflow.Hooks.{fire_hook, plain_child}
use honeydipper.Workflow.Calls.{
  command, first_two, after_first, driver_call, system_call, driver_locals, interpolate_function,
}
use honeydipper.Workflow.Wait.{start_wait}
use honeydipper.Workflow.Execute.{success, set_ctx, noop, unless_hooked}

-- callFunction
unfoldable pub call_function : Function → Message → Handler (Unit {0})
call_function f msg = do
  update (λ w. record w { in_fly = some f })
  w ← self
  perform (send_message (command f w msg))

-- callShorthandFunction
unfoldable pub call_shorthand_function : String → Message → Handler (Unit {0})
unfolding call_function split
call_shorthand_function f msg = do
  names ← lift (after_first (split 46 f))
  call_function (system_call names.0 names.1) msg

abbrev pub performing_now : String → Handler (Unit {0})
performing_now what = update (λ w. record w { performing = what })

module _ (env : Env) where
  -- callDriver
  unfoldable pub call_driver : String → Message → Handler (Unit {0})
  unfolding driver_locals call_function split
  call_driver f msg = do
    names ← lift (first_two (split 46 f))
    w ← self
    locals ← lift (driver_locals env (settings w.flow).locals (build_env_data w msg))
    call_function (driver_call names.0 names.1 locals) msg

abbrev pub step_child : Workflow → ℕ → Message → Child
step_child flow n msg = record (plain_child flow msg) {
  extra = field "step_number" (int (pos n)) end;
}

module _ (env : Env) (start : Child → Handler (Unit {0}))
    (start_named : String → Message → Handler (Unit {0}))
    (detach_named : String → Message → Handler (Unit {0}))
    (again : Message → List Fields → Handler (Unit {0})) where
  abbrev run_branch : String → Value → Message → Handler (Unit {0})
  run_branch what branch msg = do
    performing_now what
    flow ← lift (env.decode branch)
    start (plain_child flow msg)

  -- executeSwitch
  unfoldable pub execute_switch : Message → Handler (Unit {0})
  unfolding noop
  execute_switch msg = do
    w ← self
    let wf = settings w.flow
    key ← lift (env.interpolate_str wf.switch (build_env_data w msg))
    elim (get key wf.cases) [
      | some branch ↦ run_branch (str_append "switch branch " key) branch msg
      | none ↦
          if is_null wf.default_branch
          then noop again msg
          else run_branch "switch default branch" wf.default_branch msg
    ]

  abbrev has_action : Workflow → Bool
  has_action flow =
      let wf = settings flow in
      not (is_empty wf.call_workflow)
      || is_function wf
      || not (is_empty wf.call_driver)
      || is_set (steps_of flow)
      || is_set (threads_of flow)
      || not (is_empty wf.wait)
      || not (is_empty wf.switch)

  -- processActionHooks; whether a hook runs is read from the session afterwards.
  unfoldable pub process_action_hooks : Message → Handler (Unit {0})
  unfolding fire_hook
  process_action_hooks msg = do
    w ← self
    if not (has_action w.flow) then skip else do
      when (w.loop_count == 0 && w.iteration == 0 && w.current == 0)
          (fire_hook start "on_first_action" msg)
      unless_hooked (fire_hook start "on_action" msg)

  abbrev pub begin_step : Option Workflow → Message → Handler (Unit {0})
  begin_step none msg s = raise index_out_of_range s
  begin_step (some flow) msg s = start (step_child flow s.self.current msg) s

  -- executeStep
  unfoldable pub execute_step : Message → Handler (Unit {0})
  execute_step msg s = begin_step (branch_at s.self.current (steps_of s.self.flow)) msg s

  abbrev launch_threads : ℕ → ℕ → Workflows → Message → Handler (Unit {0})
  launch_threads address i stop msg = skip
  launch_threads address i (also flow flows) msg = do
    perform (run_thread address i flow msg)
    launch_threads address (i + 1) flows msg

  -- executeThreads
  unfoldable pub execute_threads : Message → Handler (Unit {0})
  execute_threads msg = do
    w ← self
    elim (threads_of w.flow) [ unset ↦ skip | given ws ↦ launch_threads w.address 0 ws msg ]

  -- A workflow that is detached does not wait for the child.
  abbrev call_named : String → Message → Handler (Unit {0})
  call_named name msg = do
    performing_now name
    w ← self
    when (not w.is_hook && is_empty (settings w.flow).name)
        (set_ctx "_meta_name" (str (str_append "calling " name)))
    if not (settings w.flow).detach
        then start_named name msg
        else do detach_named name msg; again success []

  abbrev run_steps : Message → Handler (Unit {0})
  run_steps msg = do
    performing_now "steps"
    update (λ w. record w { current = 0 })
    execute_step msg

  abbrev run_threads : Message → Handler (Unit {0})
  run_threads msg = do
    performing_now "threads"
    update (λ w. record w { current = 0 })
    execute_threads msg

  abbrev run_function : Function → Message → Handler (Unit {0})
  run_function f msg = do
    performing_now "function"
    w ← self
    f' ← lift (interpolate_function env f (build_env_data w msg))
    call_function f' msg

  abbrev run_named : Settings → Message → Handler (Unit {0})
  run_named wf msg = do
    w ← self
    name ← lift (env.interpolate_str wf.call_workflow (build_env_data w msg))
    call_named name msg

  abbrev run_driver : String → Message → Handler (Unit {0})
  run_driver f msg = do performing_now (str_append "driver " f); call_driver env f msg

  abbrev run_shorthand : String → Message → Handler (Unit {0})
  run_shorthand f msg = do performing_now (str_append "function " f); call_shorthand_function f msg

  -- The switch of executeAction.
  unfoldable pub take_action : Workflow → Message → Handler (Unit {0})
  take_action flow msg =
      let wf = settings flow in
      if not (is_empty wf.call_workflow)
      then run_named wf msg
      else if is_function wf
      then run_function wf.function msg
      else if not (is_empty wf.call_driver)
      then run_driver wf.call_driver msg
      else if not (is_empty wf.call_function)
      then run_shorthand wf.call_function msg
      else if is_set (steps_of flow)
      then run_steps msg
      else if is_set (threads_of flow)
      then run_threads msg
      else if not (is_empty wf.wait)
      then performing_now "suspending" >> start_wait env
      else if not (is_empty wf.switch)
      then performing_now "switch" >> execute_switch msg
      else again success []

  -- executeAction
  unfoldable pub execute_action : Message → Handler (Unit {0})
  unfolding take_action process_action_hooks
  execute_action msg = do
    process_action_hooks msg
    unless_hooked (do w ← self; take_action w.flow msg)
