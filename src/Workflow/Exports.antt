-- ===== src/Workflow/Exports.antt =====
-- internal/workflow/continue.go: what a finished workflow exports to its parent.
pub mod Hidden
pub mod Safe
pub mod Context
use Prim.Native.String.{◌++◌ as str_append}
use honeydipper.Common.{
  Bool, true, false, not, Option, none, some, List, [], ◌∷◌, ◌++◌, String, str_eq, if◌then◌else◌,
}
use honeydipper.Common.Assoc.{insert}
use honeydipper.Outcome.{Outcome, done, panic, Fault, type_assertion}
use honeydipper.Text.{is_empty}
use honeydipper.Value.{Value, obj, Fields, end, field, put, remove}
use honeydipper.Workflow.Types.{
  Session, Settings, Message, Env, Function, Workflow, settings, status, label, build_env_data,
  or_end,
}
use honeydipper.Workflow.Handler.{Handler, self, update, lift, pure, skip, recover, ◌>>=◌, ◌>>◌}

-- processNoExport
unfoldable pub process_no_export : List String → Fields → Fields
process_no_export [] exported = exported
process_no_export (key ∷ ks) exported =
    if str_eq key "*"
    then end
    else process_no_export ks
        (remove (str_append key "+") (remove (str_append key "-") (remove key exported)))

-- `if len(export) > 0 { exported = append(exported, export) }`
abbrev pub append_export : List Fields → Fields → List Fields
append_export exported end = exported
append_export exported (field k v fs) = exported ++ field k v fs ∷ []

module _ (env : Env) where
  -- Merges an export into the context, and records what may be passed on.
  unfoldable pub take_export : Fields → Handler (Unit {0})
  unfolding process_no_export
  take_export export = do
    w ← self
    ctx ← lift (env.merge_map w.ctx (obj export))
    update (λ u. record u {
      ctx = ctx;
      exported = append_export u.exported (process_no_export (settings u.flow).no_export export);
    })

  -- mergeContext; its lock makes it atomic.
  unfoldable pub merge_context : List Fields → Handler (Unit {0})
  unfolding take_export
  merge_context [] = skip
  merge_context (export ∷ exports) = do take_export export; merge_context exports

  abbrev assert_map : Value → Outcome Fields
  assert_map (obj fs) = done fs
  assert_map _ = panic type_assertion

  -- postWorkflowExport: the data for the next one has the new context.
  unfoldable pub post_workflow_export : Fields → Fields → Handler Fields
  unfolding take_export
  post_workflow_export export_map env_data = do
    value ← lift (env.interpolate (obj export_map) env_data)
    delta ← lift (assert_map value)
    take_export delta
    w ← self
    pure (put "ctx" (obj (or_end w.ctx)) env_data)

  -- The export of the function that the session has called.
  abbrev export_in_fly : Option Function → Fields → Handler Fields
  export_in_fly none env_data = pure env_data
  export_in_fly (some f) env_data = do
    exported ← lift (env.export_function f env_data)
    take_export (or_end exported.0)
    pure (remove "sysData" exported.1)

  abbrev function_export : Message → Session → Fields → Handler Fields
  function_export msg w env_data =
      if str_eq (status msg) "error" then pure env_data else export_in_fly w.in_fly env_data

  abbrev always_export : Message → Session → Fields → Handler Fields
  always_export msg w env_data =
      let wf = settings w.flow in
      post_workflow_export
        (if str_eq (status msg) "error" then wf.export_on_error else wf.export_always) env_data

  abbrev status_export : Message → Session → Fields → Handler (Unit {0})
  status_export msg w env_data =
      let wf = settings w.flow in
      if str_eq (status msg) "success"
      then (do last ← post_workflow_export wf.export_on_success env_data; skip)
      else if str_eq (status msg) "failure"
      then (do last ← post_workflow_export wf.export_on_failure env_data; skip)
      else skip

  -- The message after a panic in an export.
  abbrev pub export_failed : Fault → Message → Message
  export_failed e msg =
      let reason = label "reason" msg in
      record msg {
        labels =
            insert "reason"
              (str_append (if is_empty reason then "" else str_append reason "\n")
                (str_append "Error on exporting data " (env.describe e)))
              (insert "status" "error" msg.labels);
      }

  -- The exports one after the other, up to a panic.
  abbrev pub run_exports : Message → Session → Handler Message
  unfolding post_workflow_export
  run_exports msg w = do
    env_data ← function_export msg w (build_env_data w msg)
    env_data' ← always_export msg w env_data
    status_export msg w env_data'
    pure msg

  -- The message is changed in place, and it is the saved message of the session.
  abbrev pub give_up : Message → Fault → Handler Message
  give_up msg e = do
    update (λ u. record u { saved_msg = some (export_failed e msg) })
    pure (export_failed e msg)

  -- The else branch exports by itself.
  abbrev pub export_unless : Option Workflow → Message → Handler Message
  export_unless (some flow) msg s = pure msg s
  export_unless none msg s = recover (run_exports msg s.self) (give_up msg) s

  -- processExport
  unfoldable pub process_export : Message → Handler Message
  unfolding run_exports
  process_export msg s = export_unless s.self.taken_else msg s
