-- ===== src/Workflow/Continue.antt =====
-- internal/workflow/continue.go: where a session goes when a child or a function returns.
pub mod Threads
pub mod Failures
pub mod Routes
use Prim.Native.String.{◌++◌ as str_append}
use honeydipper.Common.{
  ℕ, suc, ◌+◌, Bool, true, false, not, ◌&&◌, ◌||◌, Option, none, some, List, [], ◌∷◌, ◌++◌, String,
  str_eq, ltb, if◌then◌else◌,
}
use honeydipper.Common.Int.{ℤ, pos, negsuc}
use honeydipper.Common.Assoc.{insert}
use honeydipper.Outcome.{Outcome, done, panic, Fault, nil_pointer, type_assertion}
use honeydipper.Text.{is_empty}
use honeydipper.Text.Number.{atoi}
use honeydipper.Value.{Value, str, obj, Fields, end, field, get, is_null, remove}
use honeydipper.Dipper.IdMap.{id_map_get, id_map_del}
use honeydipper.Dipper.MapData.{must_number}
use honeydipper.Workflow.Types.{
  Session, Settings, Message, Env, Child, Store, State, settings, steps_of, threads_of,
  branch_count, status, label, continue_session, emit_result, cancel, run_item, or_end,
}
use honeydipper.Workflow.Handler.{
  Handler, self, update, update_store, perform, lift, pure, skip, raise, gets, recover, when, ◌>>=◌,
  ◌>>◌,
}
use honeydipper.Workflow.Predicates.{is_loop, is_iteration, len_of_iterate}
use honeydipper.Workflow.Conditions.{check_loop_condition}
use honeydipper.Workflow.Hooks.{fire_hook}
use honeydipper.Workflow.Exports.{merge_context, process_export}

pub data Route : Type 0 where
  next_complete next_step next_thread next_iteration next_parallel_iteration next_round : Route

module _ (env : Env) where
  -- An error, or a failure that is to stop the workflow, ends it at once; a parallel iteration goes
  -- on and keeps the first message that is not a success.
  abbrev pub stops_early : Settings → Message → Bool
  stops_early wf msg =
      is_null wf.iterate_parallel
      && ((str_eq (status msg) "error" && not (str_eq wf.on_error "continue"))
          || (str_eq (status msg) "failure" && str_eq wf.on_failure "exit"))

  abbrev pub keep_first : Option Message → Message → Option Message
  keep_first (some m) msg = some m
  keep_first none msg = if str_eq (status msg) "success" then none else some msg

  abbrev pub note_failure : Message → Session → Session
  note_failure msg w =
      if is_null (settings w.flow).iterate_parallel
      then w
      else record w { iteration_out = keep_first w.iteration_out msg }

  abbrev pub has_next_step : Session → Bool
  has_next_step w = ltb (w.current + 1) (branch_count (steps_of w.flow))

  abbrev pub has_threads : Session → Bool
  has_threads w = ltb 0 (branch_count (threads_of w.flow))

  -- The thread that returns is counted, be it the last or not.
  abbrev pub count_thread : Session → Session
  count_thread w = if has_threads w then record w { current = w.current + 1 } else w

  abbrev pub more_threads : Session → Bool
  more_threads w = has_threads w && ltb (w.current + 1) (branch_count (threads_of w.flow))

  abbrev more_items : Settings → ℕ → Outcome Bool
  more_items wf i =
      if is_iteration wf
      then elim (len_of_iterate wf) [ done n ↦ done (ltb (i + 1) n) | panic e ↦ panic e ]
      else done false

  abbrev item_route : Settings → Route
  item_route wf = if not (is_null wf.iterate) then next_iteration else next_parallel_iteration

  abbrev round_route : Message → Session → Outcome Route
  round_route msg w =
      if is_loop (settings w.flow)
      then elim (check_loop_condition env w msg) [
        | done b ↦ done (if b then next_round else next_complete)
        | panic e ↦ panic e
      ]
      else done next_complete

  -- The part of routeNext after the steps and the threads.
  unfoldable pub route_items : Message → Session → Outcome Route
  route_items msg w =
      let wf = settings w.flow in
      elim (more_items wf w.iteration) [
        | done b ↦ if b then done (item_route wf) else round_route msg w
        | panic e ↦ panic e
      ]

  abbrev pub is_taken {ℓ} : {A : Type ℓ} → Option A → Bool
  is_taken none = false
  is_taken (some a) = true

  -- routeNext
  unfoldable pub route_next : Message → Handler Route
  unfolding route_items
  route_next msg = do
    w ← self
    if stops_early (settings w.flow) msg then pure next_complete else do
      update (note_failure msg)
      if is_taken w.taken_else
          then pure next_complete
          else if has_next_step w
          then pure next_step
          else do
            update count_thread
            u ← self
            if more_threads w then pure next_thread else lift (route_items msg u)
