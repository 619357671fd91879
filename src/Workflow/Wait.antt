-- ===== src/Workflow/Wait.antt =====
-- internal/workflow/execute.go: sessions that wait, for a token to be returned or for a timer.
pub mod Keeps
use Prim.Native.String.{◌++◌ as str_append}
use honeydipper.Common.{
  ℕ, zero, suc, ◌+◌, is_some, Bool, true, false, not, ◌&&◌, ◌||◌, Option, none, some, List, [], ◌∷◌,
  String, str_eq, ◌==◌, if◌then◌else◌, map,
}
use honeydipper.Common.Int.{pos}
use honeydipper.Common.Assoc.{insert, delete, lookup, has}
use honeydipper.Outcome.{Outcome, done, panic, workflow_error, index_out_of_range}
use honeydipper.Text.{is_empty, codes, codes_eq, to_lower}
use honeydipper.Text.Split.{split}
use honeydipper.Value.{
  Value, null, int, str, list, obj, Fields, end, field, get, put, remove, is_null,
}
use honeydipper.Workflow.Types.{
  Session, Settings, Function, Workflow, workflow, Workflows, Branches, unset, given, also, stop,
  Message, Env, Child, State, settings, steps_of, threads_of, branch_at, is_set, status,
  start_timer, await, resume_session, run_thread, send_message, or_end, build_env_data,
}
use honeydipper.Workflow.Handler.{
  Handler, self, update, update_store, perform, lift, skip, raise, gets, when, proceed, ◌>>=◌, ◌>>◌,
}
use honeydipper.Workflow.Predicates.{is_function}
use honeydipper.Workflow.Hooks.{fire_hook, no_function, plain_child}
use honeydipper.Workflow.Calls.{
  command, first_two, after_first, driver_call, system_call, as_token, timeout_message,
  driver_locals, interpolate_function,
}
use honeydipper.Workflow.Execute.{set_ctx}

abbrev is_infinite : String → Bool
is_infinite wait = codes_eq (map to_lower (codes wait)) (codes "infinite")

-- delete(w.ctx, key)
abbrev pub drop_ctx : String → Session → Session
drop_ctx key w = record w { ctx = elim w.ctx [ none ↦ none | some fs ↦ some (remove key fs) ] }

module _ (env : Env) where
  -- The timer of a wait, unless that is infinite.
  abbrev pub set_timer : String → Handler (Unit {0})
  set_timer token = do
    w ← self
    if is_infinite (settings w.flow).wait
        then skip
        else if env.is_duration (settings w.flow).wait
        then perform (start_timer w.address token)
        else raise workflow_error

  -- The token leads back to the session, unless it is in use.
  abbrev pub suspend : String → Handler (Unit {0})
  suspend token = do
    s ← gets (λ s. s)
    if has token s.store.suspended then raise workflow_error else do
      update_store (λ t. record t { suspended = insert token s.self.id t.suspended })
      set_timer token

  -- startWait
  unfoldable pub start_wait : Handler (Unit {0})
  start_wait s = proceed (as_token (get "resume_token" (or_end s.self.ctx))) suspend s

  -- The timer reads the context when it is armed,
  unfoldable pub arm_timer : String → Handler (Unit {0})
  arm_timer token = do
    w ← self
    set_ctx "_wait_timer" null
    perform (await w.address token (timeout_message token w.ctx))

  -- and resumes the session unless that was continued in the meantime.
  unfoldable pub wake_up : String → Message → Handler (Unit {0})
  wake_up token msg = do
    w ← self
    if is_some (get "_wait_timer" (or_end w.ctx))
        then update (drop_ctx "_wait_timer") >> perform (resume_session token msg)
        else skip
