-- ===== src/Workflow/Complete.antt =====
-- internal/workflow/continue.go: how a session ends. It exports, fires its hooks, leaves the store
-- and hands its result to its parent or to the outside.
pub mod Leaves
use Prim.Native.String.{◌++◌ as str_append}
use honeydipper.Common.{
  ◌+◌, Bool, true, false, not, ◌&&◌, ◌||◌, Option, none, some, List, [], ◌∷◌, String, str_eq,
  if◌then◌else◌, is_some,
}
use honeydipper.Common.Assoc.{insert}
use honeydipper.Outcome.{Outcome, done, panic, Fault}
use honeydipper.Text.{is_empty}
use honeydipper.Value.{Value, str, obj, Fields, end, field, get}
use honeydipper.Dipper.IdMap.{id_map_get, id_map_del}
use honeydipper.Workflow.Types.{
  Session, Settings, Message, Env, Child, Store, State, settings, status, label, continue_session,
  emit_result, cancel, or_end,
}
use honeydipper.Workflow.Handler.{
  Handler, self, update, update_store, perform, lift, pure, skip, raise, gets, rescue, when, ◌>>=◌,
  ◌>>◌,
}
use honeydipper.Workflow.Hooks.{fire_hook}
use honeydipper.Workflow.Exports.{process_export}

-- isInCompleteHooks
unfoldable pub is_in_complete_hooks : String → Bool
is_in_complete_hooks hook =
    str_eq hook "on_error"
    || str_eq hook "on_failure"
    || str_eq hook "on_success"
    || str_eq hook "on_exit"

abbrev pub status_hook : Message → String
status_hook msg =
    if str_eq (status msg) "error"
    then "on_error"
    else if str_eq (status msg) "failure"
    then "on_failure"
    else "on_success"

-- A success after a parallel iteration with a failure becomes the first failure.
abbrev pub surfaced : Option Message → Message → Message
surfaced none msg = msg
surfaced (some m) msg = if str_eq (status msg) "success" then m else msg

abbrev pub with_performing : String → Message → Message
with_performing what msg =
    if not (str_eq (status msg) "success") && is_empty (label "performing" msg)
    then record msg { labels = insert "performing" what msg.labels }
    else msg

-- The message that a session completes with.
unfoldable pub final_message : Session → Message → Message
final_message w msg = with_performing w.performing (surfaced w.iteration_out msg)

abbrev error_entry : Message → Fields → Fields
error_entry msg fs =
    if str_eq (status msg) "success"
    then fs
    else field "error"
        (str (
          str_append "["
            (str_append (label "performing" msg) (str_append "]: " (label "reason" msg)))))
        fs

-- The result of a session without a parent; nothing is emitted without an `_output`.
abbrev result_of : Message → Value → Fields
result_of msg output =
    field "status" (str (status msg)) (field "output" output (error_entry msg end))

-- The message of a session that has panicked, or whose hook has failed.
abbrev pub error_message : String → Message
error_message reason = record {
  channel = "eventbus";
  subject = "return";
  labels = ("status", "error") ∷ ("reason", reason) ∷ [];
  payload = obj end;
}

module _ (env : Env) (start : Child → Handler (Unit {0})) where
  abbrev clear_other_hook : Message → Handler (Unit {0})
  clear_other_hook msg = do
    w ← self
    when (not (is_empty w.current_hook) && not (is_in_complete_hooks w.current_hook))
        (fire_hook start w.current_hook msg)

  abbrev conditional_hook : Message → Handler (Unit {0})
  conditional_hook msg = do
    w ← self
    if is_empty w.current_hook
        then fire_hook start (status_hook msg) msg
        else when (not (str_eq w.current_hook "on_exit")) (fire_hook start w.current_hook msg)

  abbrev exit_hook : Message → Handler (Unit {0})
  exit_hook msg = do
    w ← self
    when (is_empty w.current_hook || str_eq w.current_hook "on_exit")
        (fire_hook start "on_exit" msg)

  abbrev last_hooks : Message → Handler (Unit {0})
  last_hooks msg = do conditional_hook msg; exit_hook msg

  -- fireCompleteHooks
  unfoldable pub fire_complete_hooks : Message → Handler (Unit {0})
  unfolding is_in_complete_hooks fire_hook
  fire_complete_hooks msg = rescue (do clear_other_hook msg; last_hooks msg) (λ e. skip)

  abbrev hand_over : Message → Handler (Unit {0})
  hand_over msg = do
    w ← self
    if not (is_empty w.parent)
        then perform (continue_session w.parent msg w.exported)
        else elim (get "_output" (or_end w.ctx)) [
          | none ↦ skip
          | some output ↦ perform (emit_result w.event_id (result_of msg output))
        ]

  -- The end of complete: the session gives its ID back and wakes its watchers.
  abbrev retire : Handler (Unit {0})
  retire = do update (λ u. record u { id = "" }); w ← self; when w.watched (perform cancel)

  abbrev leave : Message → Handler (Unit {0})
  leave msg = do
    w ← self
    update_store (λ t. record t { sessions = id_map_del w.id t.sessions })
    hand_over msg
    retire

  -- Exports unless a hook has just finished; then the hooks, which may keep the session.
  abbrev unless_exported : Message → Handler Message
  unless_exported msg = do
    w ← self
    if is_empty w.current_hook then process_export env msg else pure msg

  abbrev finish : Message → Handler (Unit {0})
  finish msg = do w ← self; if is_empty w.current_hook then leave msg else skip

  abbrev hooks_and_leave : Message → Handler (Unit {0})
  hooks_and_leave msg = do fire_complete_hooks msg; finish msg

  abbrev wind_up : Message → Handler (Unit {0})
  wind_up msg = do msg' ← unless_exported msg; hooks_and_leave msg'

  abbrev pub is_live : State → Bool
  is_live s = not (is_empty s.self.id) && is_some (id_map_get s.self.id s.store.sessions)

  -- complete
  unfoldable pub complete : Message → Handler (Unit {0})
  unfolding final_message fire_complete_hooks process_export
  complete msg = do
    w ← self
    let last = final_message w msg
    update (λ u. record u { saved_msg = some last })
    live ← gets is_live
    if live then wind_up last else retire

  -- onError, deferred: the session is completed with the panic as its reason, and the panic goes on.
  unfoldable pub on_error : Handler (Unit {0}) → Handler (Unit {0})
  unfolding complete
  on_error m = rescue m (λ e. do complete (error_message (env.describe e)); raise e)
