-- ===== src/Examples/Runs.antt =====
-- A workflow of two steps that do nothing, run from its start to its end.
use honeydipper.Common.{ℕ, zero, suc, some, List, [], ◌∷◌, String, ◌≡◌, refl, map}
use honeydipper.Value.{get, put, remove, end, field, str}
use honeydipper.Workflow.Types.{
  emit_result, Store, Effect, Workflow, workflow, unset, run_round, continue_session,
}
use honeydipper.Workflow.Hooks.{blank}
use honeydipper.Workflow.Spawn.{spawn}
use honeydipper.Workflow.Store.{new_store, start_session, run_at, continue_session as continue_at}
use honeydipper.Workflow.Action.{
  call_function, call_shorthand_function, call_driver, execute_switch, process_action_hooks,
  execute_step, execute_threads, take_action, execute_action,
}
use honeydipper.Workflow.Calls.{merge_layers, driver_locals, interpolate_function}
use honeydipper.Workflow.Children.{
  detach_child, start_named, detach_named, run_child, execute_session, continue_exec,
}
use honeydipper.Workflow.Complete.{
  is_in_complete_hooks, final_message, fire_complete_hooks, complete, on_error,
}
use honeydipper.Workflow.Conditions.{
  is_truthy, check_condition, if_loop, while_loop, check_loop_condition,
}
use honeydipper.Workflow.Continue.{route_items, route_next}
use honeydipper.Workflow.Execute.{
  save, launch_iteration, pool_count, launch_parallel_iterations, execute_iteration, execute_round,
  noop, execute,
}
use honeydipper.Workflow.Exports.{
  process_no_export, take_export, merge_context, post_workflow_export, process_export,
}
use honeydipper.Workflow.Hooks.{hook_threads, hook_workflow, execute_hook, fire_hook}
use honeydipper.Workflow.Predicates.{
  is_loop, is_iteration, len_of_iterate, is_function, set_performing, inherit_parent_settings,
}
use honeydipper.Workflow.Prepare.{
  inject_event_ctx, inject_layers, inject_local_ctx, interpolate_workflow, inject_meta,
  inherit_parent_data, prepare,
}
use honeydipper.Workflow.Run.{continue_after_hook, next_item, continue_once}
use honeydipper.Workflow.Session.{new_session, inject_msg, inject_named_ctx, inject_ctxs, init_ctx}
use honeydipper.Workflow.Spawn.{single, launch_parallel_iteration}
use honeydipper.Workflow.Store.{resume, start_dynamic_session}
use honeydipper.Workflow.Types.{build_env_data}
use honeydipper.Workflow.Wait.{start_wait, arm_timer, wake_up}
use honeydipper.Dipper.IdMap.{id_map_put, id_map_get, id_map_del, scan, next_id}
use honeydipper.Dipper.MapData.{get_map_data, walk, step}
use honeydipper.Dipper.Copy.{deep_copy_map}
use honeydipper.Common.Assoc.{lookup, insert, delete}
use honeydipper.Text.Split.{split}
use honeydipper.Text.Number.{itoa}
use honeydipper.Examples.Sessions.{env, two, message}

abbrev steps_flow : Workflow
steps_flow =
    workflow (record blank { name = "steps"; on_error = "continue"; on_failure = "exit" }) two unset

abbrev begun : Store
begun =
    start_session env 9 steps_flow (message "success") (some (field "_output" (str "out") end))
      new_store

abbrev run_effect : Effect → Store → Store
run_effect (run_round a msg) t = run_at a (spawn env 9 (run_round a msg)) t
run_effect (continue_session id msg exports) t = continue_at env 9 id msg exports t
run_effect e t = t

abbrev run_all : List Effect → Store → Store
run_all [] t = t
run_all (e ∷ es) t = run_all es (run_effect e t)

-- The effects so far are run, and those that they have are the next ones.
abbrev run_next : Store → Store
run_next t = run_all t.effects (record t { effects = [] })

abbrev entries : Store → List String
entries t = map (λ e. e.0) t.sessions.entries

abbrev run_times : ℕ → Store → Store
run_times zero t = t
run_times (suc n) t = run_times n (run_next t)

-- After each of the steps the session is in the store, and at the end it has left and emits a result.
whole_run :
    (entries (run_times 4 begun) ≡ "0" ∷ [])
    × (entries (run_times 5 begun) ≡ [])
    × ((run_times 5 begun).effects
        ≡ emit_result "" (field "status" (str "success") (field "output" (str "out") end)) ∷ [])
unfolding start_session run_at continue_at spawn id_map_put id_map_get id_map_del scan next_id
    get_map_data walk step deep_copy_map lookup insert delete split itoa get put remove
    call_function call_shorthand_function call_driver execute_switch process_action_hooks
    execute_step execute_threads take_action execute_action merge_layers driver_locals
    interpolate_function detach_child start_named detach_named run_child execute_session
    continue_exec is_in_complete_hooks final_message fire_complete_hooks complete on_error is_truthy
    check_condition if_loop while_loop check_loop_condition route_items route_next save
    launch_iteration pool_count launch_parallel_iterations execute_iteration execute_round noop
    execute process_no_export take_export merge_context post_workflow_export process_export
    hook_threads hook_workflow execute_hook fire_hook is_loop is_iteration len_of_iterate
    is_function set_performing inherit_parent_settings inject_event_ctx inject_layers
    inject_local_ctx interpolate_workflow inject_meta inherit_parent_data prepare
    continue_after_hook next_item continue_once new_session inject_msg inject_named_ctx inject_ctxs
    init_ctx single launch_parallel_iteration resume start_dynamic_session build_env_data start_wait
    arm_timer wake_up
whole_run = (refl, refl, refl)
