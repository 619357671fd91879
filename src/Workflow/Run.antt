-- ===== src/Workflow/Run.antt =====
-- internal/workflow/continue.go: how a session goes on when a child, a function or a hook returns.
pub mod Steps
pub mod Pool
pub mod Parallel
use Prim.Native.String.{◌++◌ as str_append}
use honeydipper.Common.{
  ℕ, zero, suc, ◌+◌, Bool, true, false, not, ◌&&◌, ◌||◌, Option, none, some, is_some, List, [], ◌∷◌,
  ◌++◌, String, str_eq, ◌==◌, ltb, if◌then◌else◌, length,
}
use honeydipper.Common.Int.{ℤ, pos, negsuc}
use honeydipper.Common.Assoc.{Assoc, insert, delete, lookup}
use honeydipper.Outcome.{
  Outcome, done, panic, Fault, out_of_fuel, workflow_error, type_assertion, nil_pointer,
}
use honeydipper.Text.{is_empty}
use honeydipper.Text.Number.{atoi}
use honeydipper.Value.{
  Value, null, str, list, obj, Items, Fields, end, field, get, put, remove, is_null, item_at,
}
use honeydipper.Dipper.IdMap.{id_map_get}
use honeydipper.Dipper.MapData.{must_number, get_map_data, must_get_map_data}
use honeydipper.Workflow.Types.{
  Session, Settings, Workflow, workflow, Message, Env, Child, Store, State, Effect, settings,
  status, label, run_item, resume_session, continue_session, or_end,
}
use honeydipper.Workflow.Handler.{
  Handler, self, update, update_store, perform, lift, pure, skip, raise, gets, recover, when, ◌>>=◌,
  ◌>>◌,
}
use honeydipper.Workflow.Predicates.{len_of_iterate, set_performing}
use honeydipper.Workflow.Exports.{merge_context}
use honeydipper.Workflow.Continue.{
  route_next, Route, next_complete, next_step, next_thread, next_iteration, next_parallel_iteration,
  next_round,
}
use honeydipper.Workflow.Complete.{complete, is_in_complete_hooks, error_message, on_error}
use honeydipper.Workflow.Execute.{execute, execute_round, execute_iteration, set_ctx, save}
use honeydipper.Workflow.Session.{new_session}
use honeydipper.Workflow.Prepare.{prepare}
use honeydipper.Workflow.Hooks.{plain_child}
use honeydipper.Workflow.Action.{execute_action, execute_step}
use honeydipper.Workflow.Wait.{drop_ctx}

abbrev hook_failure : String → Message → String
hook_failure hook msg = str_append "hook [" (
    str_append hook (
      str_append "] failed with status '"
        (str_append (status msg) (str_append "' due to: " (label "reason" msg)))))

-- Running children and sessions, one level down.
module _ (env : Env) (start : Child → Handler (Unit {0}))
    (start_named detach_named : String → Message → Handler (Unit {0}))
    (again : Message → List Fields → Handler (Unit {0})) where
  act : Message → Handler (Unit {0})
  act = execute_action env start start_named detach_named again

  abbrev with_saved : Option Message → (Message → Handler (Unit {0})) → Handler (Unit {0})
  with_saved none f = raise nil_pointer
  with_saved (some msg) f = f msg

  -- Where a session goes on once its hook has succeeded.
  abbrev after_hook : String → Message → Handler (Unit {0})
  unfolding act
  after_hook hook msg =
      if str_eq hook "on_session"
      then execute env start again act msg
      else if str_eq hook "on_first_round" || str_eq hook "on_round"
      then execute_round env start act msg
      else if str_eq hook "on_first_item" || str_eq hook "on_item"
      then execute_iteration env start act msg
      else if str_eq hook "on_first_action" || str_eq hook "on_action"
      then act msg
      else if is_in_complete_hooks hook
      then complete env start msg
      else skip

  -- continueAfterHook
  unfoldable pub continue_after_hook : Message → Handler (Unit {0})
  unfolding act is_in_complete_hooks complete
  continue_after_hook msg = do
    w ← self
    if str_eq (status msg) "success" then with_saved w.saved_msg (after_hook w.current_hook) else do
      when (not (is_in_complete_hooks w.current_hook))
          (update (λ u. record u { current_hook = "" }))
      complete env start (error_message (hook_failure w.current_hook msg))

  -- A pool starts the item that is the pool's size ahead, if there is one.
  abbrev ahead_within : ℕ → ℕ → Outcome ℕ → Outcome (Option ℕ)
  ahead_within k i (done n) = done (if ltb (k + i) n then some (k + i) else none)
  ahead_within k i (panic e) = panic e

  abbrev launch_ahead : ℤ → Session → Outcome (Option ℕ)
  launch_ahead (pos (suc k)) w = ahead_within (suc k) w.iteration (len_of_iterate (settings w.flow))
  launch_ahead k w = done none

  abbrev pool_next : Session → Outcome (Option ℕ)
  pool_next w =
      if is_empty (settings w.flow).iterate_pool
      then done none
      else elim (must_number (atoi (settings w.flow).iterate_pool)) [
        | done k ↦ launch_ahead k w
        | panic e ↦ panic e
      ]

  abbrev launch : Option ℕ → Handler (Unit {0})
  launch none s = skip s
  launch (some i) s = perform (run_item s.self.address i) s

  unfoldable pub next_item : Handler (Unit {0})
  next_item = do
    w ← self
    next ← lift (pool_next w)
    launch next
    update (λ u. record u { iteration = u.iteration + 1 })

  abbrev follow : Route → Message → Handler (Unit {0})
  unfolding act next_item complete
  follow next_step msg = do
    update (λ u. record u { current = u.current + 1 })
    execute_step env start start_named detach_named again msg
  follow next_thread msg = skip
  follow next_iteration msg = do
    update (λ u. record u { iteration = u.iteration + 1 })
    execute_iteration env start act msg
  follow next_parallel_iteration msg = next_item
  follow next_round msg = do
    update (λ u. record u { loop_count = u.loop_count + 1 })
    execute_round env start act msg
  follow next_complete msg = complete env start msg

  -- One call of continueExec.
  unfoldable pub continue_once : Message → List Fields → Handler (Unit {0})
  unfolding continue_after_hook act next_item complete merge_context route_next
  continue_once msg exports = do
    update (drop_ctx "_wait_timer")
    merge_context env exports
    w ← self
    if not (is_empty w.current_hook)
        then continue_after_hook msg
        else do route ← route_next env msg; follow route msg
