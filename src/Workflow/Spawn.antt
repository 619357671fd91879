-- ===== src/Workflow/Spawn.antt =====
-- internal/workflow: what the goroutines do that a session starts. Each runs on the session at its
-- address and recovers from a panic at its end.
use honeydipper.Common.{ℕ, true, Option, none, some, if◌then◌else◌}
use honeydipper.Common.Int.{pos}
use honeydipper.Outcome.{nil_pointer}
use honeydipper.Text.{is_empty}
use honeydipper.Value.{Value, int, Fields, end, field}
use honeydipper.Workflow.Types.{
  Session, Settings, Workflow, workflow, Message, Env, Child, Effect, settings, run_round, run_hook,
  run_else, run_item, run_thread, run_detached, start_timer, await,
}
use honeydipper.Workflow.Handler.{Handler, self, lift, skip, raise, rescue, ◌>>=◌, ◌>>◌}
use honeydipper.Workflow.Hooks.{blank, plain_child, execute_hook}
use honeydipper.Workflow.Complete.{on_error}
use honeydipper.Workflow.Execute.{execute_round, item_of, save}
use honeydipper.Workflow.Action.{execute_action}
use honeydipper.Workflow.Wait.{arm_timer, wake_up}
use honeydipper.Workflow.Children.{
  run_child, execute_session, start_named, detach_named, continue_exec,
}

-- dipper.SafeExitOnError
abbrev pub safe : Handler (Unit {0}) → Handler (Unit {0})
safe m = rescue m (λ e. skip)

-- The part of a workflow that runs once for each item of a parallel iteration.
unfoldable pub single : Workflow → Workflow
single (workflow s steps threads) =
    workflow
      (record blank {
        call_workflow = s.call_workflow;
        function = s.function;
        call_function = s.call_function;
        call_driver = s.call_driver;
        switch = s.switch;
        cases = s.cases;
        default_branch = s.default_branch;
      })
      steps threads

abbrev pub item_entries : Settings → Value → Fields
item_entries wf item =
    field "current" item (if is_empty wf.iterate_as then end else field wf.iterate_as item end)

abbrev pub item_child : Session → Value → Message → Child
unfolding single
item_child w item msg = record {
  child_flow = single w.flow;
  child_msg = msg;
  extra = item_entries (settings w.flow) item;
  drops_token = true;
}

abbrev pub thread_child : ℕ → Workflow → Message → Child
thread_child i flow msg = record {
  child_flow = flow;
  child_msg = msg;
  extra = field "thread_number" (int (pos i)) end;
  drops_token = true;
}

module _ (env : Env) (fuel : ℕ) where
  abbrev pub guarded : Handler (Unit {0}) → Handler (Unit {0})
  unfolding on_error
  guarded m = safe (on_error env (run_child env fuel) m)

  -- A session that is not saved yet is saved first.
  abbrev pub saved_first : Handler (Unit {0}) → Handler (Unit {0})
  unfolding save
  saved_first m = safe (save >> on_error env (run_child env fuel) m)

  abbrev pub with_orig : Option Message → (Message → Handler (Unit {0})) → Handler (Unit {0})
  with_orig none f = raise nil_pointer
  with_orig (some msg) f = f msg

  -- launchParallelIteration
  unfoldable pub launch_parallel_iteration : ℕ → Handler (Unit {0})
  launch_parallel_iteration i = guarded do
    w ← self
    item ← lift (item_of i (settings w.flow).iterate_parallel)
    with_orig w.orig_msg (λ msg. run_child env fuel (item_child w item msg))

  abbrev pub action_of : Message → Handler (Unit {0})
  action_of =
      execute_action env (run_child env fuel) (start_named env (run_child env fuel))
        (detach_named env) (continue_exec env fuel)

  -- The goroutine of an effect; what the service and the store do is none of the session's.
  unfoldable pub spawn : Effect → Handler (Unit {0})
  unfolding launch_parallel_iteration save on_error
  spawn (run_round a msg) = saved_first (execute_round env (run_child env fuel) action_of msg)
  spawn (run_hook a name msg block) = saved_first (execute_hook (run_child env fuel) msg block)
  spawn (run_else a flow msg) = saved_first (run_child env fuel (plain_child flow msg))
  spawn (run_item a i) = launch_parallel_iteration i
  spawn (run_thread a i flow msg) = guarded (run_child env fuel (thread_child i flow msg))
  spawn (run_detached a msg) = safe (execute_session env fuel msg)
  spawn (start_timer a token) = safe (arm_timer env token)
  spawn (await a token msg) = safe (wake_up env token msg)
  spawn e = skip
